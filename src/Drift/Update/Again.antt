-- ===== src/Drift/Update/Again.antt =====
-- internal/upstream/drift/drift.go: what `parseUnit` and `Check` make of a file after `Update`.
use mathlib.Core.Path.{subst}
use pulumi_engine.Prelude.{
  ℕ, String, ◌||◌, ◌==◌, List, [], ◌∷◌, none, is_empty, ◌≡◌, refl, sym, ap, ◌∙◌, arith, eq_refl,
}
use pulumi_engine.Text.{join}
use pulumi_engine.Errors.Fallible.{Fallible, ok, bind_elim, ok_inj, reject_if}
use pulumi_engine.Drift.{Source, Region, CopiedUnit}
use pulumi_engine.Drift.Parse.{
  ParseState, start, split_lines, check_closed, check_regions, close_unit, declares, parse_lines,
  parse_unit,
}
use pulumi_engine.Drift.Parse.Regions.{
  sources_from, sources_from-none, sources_from-some, parse_lines-Form,
}
use pulumi_engine.Drift.Resolve.{Tool, done, Cache}
use pulumi_engine.Drift.Check.{compared, check_source}
use pulumi_engine.Drift.Check.Agrees.{uncached}
use pulumi_engine.Drift.Update.Renewed.{IsPinned, Renewed, no_lines, kept, renewed}
use pulumi_engine.Drift.Update.Reparsed.{ToolLaws, with_sources, parse_lines-Renewed}
use pulumi_engine.Drift.Update.Rejoined.{
  split_lines-Renewed, split_lines-no_newline, split_lines_there,
}

check_regions_same :
    (path : String) (ss ts : List Source) (rs : List Region)
    → ((p : String) → declares ts p ≡ declares ss p)
    → check_regions path ts rs ≡ check_regions path ss rs
unfolding check_regions
check_regions_same path ss ts [] h = refl
check_regions_same path ss ts (r ∷ rs) h =
    ground (arith, h r.path, check_regions_same path ss ts rs h)

-- Other sources with the same paths make the same unit, with them.
close_unit-with_sources :
    (path : String) (st : ParseState) (ts : List Source) (u : CopiedUnit)
    → is_empty ts ≡ is_empty st.sources
    → ((p : String) → declares ts p ≡ declares st.sources p)
    → close_unit path st ≡ ok u
    → close_unit path (with_sources ts st) ≡ ok (record u { sources = ts })
unfolding close_unit
close_unit-with_sources path st ts u e d h =
    let put : CopiedUnit → Fallible CopiedUnit = λ v. ok (record v { sources = ts }) in
    rw (e, check_regions_same path st.sources ts st.regions d)
      (bind_elim (check_closed path st.opened) _ h λ _ closed h1.
        bind_elim (reject_if (is_empty st.sources) _) _ h1 λ _ sources h2.
          bind_elim (reject_if (is_empty st.regions) _) _ h2 λ _ regions h3.
            bind_elim (reject_if (st.reason == "" || st.delete_when == "") _) _ h3 λ _ texts h4.
              bind_elim (check_regions path st.sources st.regions) _ h4 λ _ declared h5.
                rw (closed, sources, regions, texts, declared) (ap put (ok_inj _ u h5)))

module _ (tool : Tool) where
  Renewed-is_empty :
      {n : ℕ} {ls ks : List String} {ts : List Source}
      → Renewed tool n ls ks ts
      → is_empty ts ≡ is_empty (sources_from n ls)
  unfolding sources_from
  Renewed-is_empty no_lines = refl
  Renewed-is_empty (kept {n} {l} {ls} {ks} {ts} e r) =
      Renewed-is_empty r ∙ ap is_empty (sym (sources_from-none n l ls e))
  Renewed-is_empty (renewed {n} {l} {ls} {ks} {ts} {s} e pin r) =
      ap is_empty (sym (sources_from-some n l ls s e))

  Renewed-declares :
      {n : ℕ} {ls ks : List String} {ts : List Source}
      → Renewed tool n ls ks ts
      → (p : String) → declares ts p ≡ declares (sources_from n ls) p
  unfolding sources_from
  Renewed-declares no_lines p = refl
  Renewed-declares (kept {n} {l} {ls} {ks} {ts} e r) p =
      Renewed-declares r p ∙ ap (λ x. declares x p) (sym (sources_from-none n l ls e))
  Renewed-declares (renewed {n} {l} {ls} {ks} {ts} {s} {t} e pin r) p =
      let path : s.path ≡ t.path = ap (λ x. x.path) (IsPinned.is pin) in
      rw (← path, Renewed-declares r p)
        (ap (λ x. declares x p) (sym (sources_from-some n l ls s e)))

  -- A pinned source is no finding.
  pub check_source-IsPinned :
      (file : String) (s t : Source) (cache : Cache)
      → IsPinned tool s t
      → (check_source tool (uncached tool) file t cache).0 ≡ done none
  unfolding check_source compared
  check_source-IsPinned file s t cache p =
      subst (λ x. (check_source tool (uncached tool) file x cache).0 ≡ done none) (IsPinned.is p)
        (rw (IsPinned.found p, IsPinned.summed p, eq_refl (IsPinned.sum p)) refl)

  module _ (laws : ToolLaws tool) where
    -- The text of the lines that `Update` leaves is parsed to the unit with the pinned sources.
    pub parse_unit-Renewed :
        (path text : String) (ks : List String) (ts : List Source) (u : CopiedUnit)
        → parse_unit path text ≡ ok u
        → Renewed tool 1 (split_lines text) ks ts
        → parse_unit path (join "\n" ks) ≡ ok (record u { sources = ts })
    unfolding parse_unit
    parse_unit-Renewed path text ks ts u h r =
        bind_elim (parse_lines path 1 (split_lines text) start) (close_unit path) h
          λ st made closed.
            let sources =
              (parse_lines-Form path 1 (split_lines text) start st made (omega arith)).1 in
            rw
              (
                split_lines-Renewed tool laws (split_lines text) ks r (split_lines_there text)
                    (split_lines-no_newline text),
                parse_lines-Renewed tool laws r path start st [] made,
              )
              (close_unit-with_sources path st ts u (Renewed-is_empty r ∙ ap is_empty (sym sources))
                (λ p. Renewed-declares r p ∙ ap (λ x. declares x p) (sym sources)) closed)
