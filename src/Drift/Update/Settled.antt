-- ===== src/Drift/Update/Settled.antt =====
-- internal/upstream/drift/drift.go: a file that `Update` rewrote, parsed and checked again.
use mathlib.Core.Path.{subst}
use pulumi_engine.Prelude.{
  ℕ, String, Bool, true, false, ◌||◌, List, [], ◌∷◌, Option, none, some, All, lookup, ◌≡◌, refl,
  sym, ap, ◌∙◌,
}
use pulumi_engine.Text.{join}
use pulumi_engine.Errors.{GoError}
use pulumi_engine.Errors.Fallible.{Fallible, ok, err}
use pulumi_engine.Drift.{Source, CopiedUnit}
use pulumi_engine.Drift.Header.Lines.{no_at, IsSource}
use pulumi_engine.Drift.Header.Words.{source_line-HasWords}
use pulumi_engine.Drift.Parse.{split_lines, parse_unit}
use pulumi_engine.Drift.Parse.Form.{IsUnit, parse_unit-IsUnit}
use pulumi_engine.Drift.Parse.Regions.{sources_from}
use pulumi_engine.Drift.Resolve.{Tool, done, Cache, ask, from_fallible, resolver, file_sha256}
use pulumi_engine.Drift.Resolve.Cached.{Agree, ListsVersions, IsCache}
use pulumi_engine.Drift.Check.{check_sources, check_with, check}
use pulumi_engine.Drift.Check.Agrees.{uncached, Agree-bind, resolver-Agree, check-eq-uncached}
use pulumi_engine.Drift.Update.{
  rewritten, or_panic, update_line, update_lines, write_back, update_with, update,
}
use pulumi_engine.Drift.Update.Renewed.{
  Renewed, no_lines, kept, renewed, go_elim, update_lines-Renewed,
}
use pulumi_engine.Drift.Update.Reparsed.{ToolLaws, IsPinned-IsSource}
use pulumi_engine.Drift.Update.Again.{check_source-IsPinned, parse_unit-Renewed}

module _ (tool : Tool) where
  Agree-or_panic : {A : Type 0} (o : Option A) → Agree tool (or_panic o) (or_panic o)
  Agree-or_panic none cache other c = (refl, c)
  Agree-or_panic (some a) cache other c = (refl, c)

  Agree-from_fallible :
      {A : Type 0} (m : Fallible A) → Agree tool (from_fallible m) (from_fallible m)
  Agree-from_fallible (ok a) cache other c = (refl, c)
  Agree-from_fallible (err e) cache other c = (refl, c)

  module _ (law : ListsVersions tool) where
    update_line-Agree :
        (s : Source) (lines : List String)
        → Agree tool
            (update_line tool (resolver tool) s lines)
            (update_line tool (uncached tool) s lines)
    unfolding update_line
    update_line-Agree s lines =
        Agree-bind tool _ _ _ _ (resolver-Agree tool law s.module_path "" refl) (λ pinned.
          Agree-bind tool _ _ _ _
            (Agree-from_fallible (file_sha256 tool (tool.join pinned.dir s.path)))
            (λ sum. Agree-or_panic _))

    update_lines-Agree :
        (ss : List Source) (lines : List String) (changed : Bool)
        → Agree tool
            (update_lines tool (resolver tool) ss lines changed)
            (update_lines tool (uncached tool) ss lines changed)
    unfolding update_lines
    update_lines-Agree [] lines changed cache other c = (refl, c)
    update_lines-Agree (s ∷ ss) lines changed cache other c =
        Agree-bind tool (update_line tool (resolver tool) s lines)
          (update_line tool (uncached tool) s lines) _ _ (update_line-Agree s lines)
          (λ turn. update_lines-Agree ss turn.1 (changed || turn.0)) cache other c

    update-Agree :
        (u : CopiedUnit) → Agree tool (update tool u) (update_with tool (uncached tool) u)
    unfolding update_with
    update-Agree u = Agree-bind tool _ _ _ _ (Agree-from_fallible (tool.read_file u.file)) (λ text.
        Agree-bind tool (update_lines tool (resolver tool) u.sources (split_lines text) false)
          (update_lines tool (uncached tool) u.sources (split_lines text) false) _ _
          (update_lines-Agree u.sources (split_lines text) false)
          (λ result cache other c. (refl, c)))

  write_back-eq-rewritten :
      (file after : String) (r : Bool × List String) (e : Option GoError)
      → write_back tool (uncached tool) file r ≡ rewritten after e
      → after ≡ join "\n" r.1
  unfolding write_back
  write_back-eq-rewritten file after (false, lines) e h = absurd (cc h)
  write_back-eq-rewritten file after (true, lines) e h = cc h

  -- The lines that a unit's `Update` writes.
  update-Renewed :
      (text after : String) (u : CopiedUnit) (e : Option GoError)
      → u.sources ≡ sources_from 1 (split_lines text)
      → tool.read_file u.file ≡ ok text
      → (update_with tool (uncached tool) u []).0 ≡ done (rewritten after e)
      → (ks : List String) × (ts : List Source) × Renewed tool 1 (split_lines text) ks ts
        × (after ≡ join "\n" ks)
  unfolding update_with write_back
  update-Renewed text after u e form there h =
      go_elim (update_lines tool (uncached tool) u.sources (split_lines text) false) _ []
        (rw (update_with, there) at h)
        λ r made wrote.
          let (ks, ts, renewals, same) =
            update_lines-Renewed tool 1 [] (split_lines text) false [] r refl (
              subst
                (λ ss.
                  (update_lines tool (uncached tool) ss (split_lines text) false []).0 ≡ done r)
                form made) in
          (
            ks,
            ts,
            renewals,
            write_back-eq-rewritten u.file after r e (cc wrote) ∙ ap (join "\n") same,
          )

  -- The pinned sources give no finding.
  check_sources-Renewed :
      {n : ℕ} {ls ks : List String} {ts : List Source}
      → Renewed tool n ls ks ts
      → (file : String) (cache : Cache)
      → (check_sources tool (uncached tool) file ts cache).0 ≡ done []
  unfolding check_sources
  check_sources-Renewed no_lines file cache = refl
  check_sources-Renewed (kept e r) file cache = check_sources-Renewed r file cache
  check_sources-Renewed (renewed {n} {l} {ls} {ks} {ts} {s} {t} e pin r) file cache =
      rw (check_source-IsPinned tool file s t cache pin, check_sources-Renewed r file _) refl

  check_with-Renewed :
      {n : ℕ} {ls ks : List String} {ts : List Source}
      → Renewed tool n ls ks ts
      → (u : CopiedUnit)
      → (check_with tool (uncached tool) (record u { sources = ts } ∷ []) []).0 ≡ done []
  unfolding check_with
  check_with-Renewed r u = rw (check_sources-Renewed r u.file []) refl

  Renewed-no_at :
      {n : ℕ} {ls ks : List String} {ts : List Source}
      → ToolLaws tool
      → Renewed tool n ls ks ts
      → All (λ s. no_at s.version ≡ true) ts
  Renewed-no_at laws no_lines = tt
  Renewed-no_at laws (kept e r) = Renewed-no_at laws r
  Renewed-no_at laws (renewed {n} {l} {ls} {ks} {ts} {s} {t} e pin r) = (
    IsSource.version_at (IsPinned-IsSource tool laws n s t (source_line-HasWords n l s e) pin).0,
    Renewed-no_at laws r,
  )

  module _ (laws : ToolLaws tool) where
    ToolLaws-ListsVersions : ListsVersions tool
    unfolding ask
    ToolLaws-ListsVersions p m h = (ToolLaws.versions laws p "" m h).2

    -- Where `Update` rewrote a file from which `parseUnit` reads a unit, `parseUnit` reads from the
    -- new text the same unit with other sources, and `Check` of that unit finds nothing. That is
    -- where the go tool's versions hold no white space and no "@" and are not empty, SHA-256 gives
    -- 64 digits, and the upstream files stay what they were.
    pub parse_unit-update :
        (text after : String) (u : CopiedUnit) (e : Option GoError)
        → parse_unit u.file text ≡ ok u
        → tool.read_file u.file ≡ ok text
        → (update tool u []).0 ≡ done (rewritten after e)
        → (ts : List Source) × (parse_unit u.file after ≡ ok (record u { sources = ts }))
          × ((check tool (record u { sources = ts } ∷ []) []).0 ≡ done [])
    unfolding lookup
    parse_unit-update text after u e parsed there h =
        let form = IsUnit.sources_are (parse_unit-IsUnit u.file text u parsed).1 in
        let law = ToolLaws-ListsVersions in
        let empty : IsCache tool [] = λ path version m b found. absurd (cc found) in
        let (ks, ts, r, same) =
          update-Renewed text after u e form there (sym (update-Agree law u [] [] empty).0 ∙ h) in
        (
          ts,
          subst (λ t. parse_unit u.file t ≡ ok (record u { sources = ts })) (sym same)
              (parse_unit-Renewed tool laws u.file text ks ts u parsed r),
          check-eq-uncached tool law (record u { sources = ts } ∷ []) (Renewed-no_at laws r, tt)
              ∙ check_with-Renewed r u,
        )
