-- ===== src/Drift/Parse/Form.antt =====
-- internal/upstream/drift/drift.go: what a unit that `parseUnit` accepts looks like.
use mathlib.Core.Path.{subst}
use pulumi_engine.Prelude.{
  ◌+◌, String, true, false, ◌||◌, ◌==◌, List, [], ◌∷◌, Option, none, some, All, is_empty, length,
  ◌≡◌, refl, arith, Bool-cases, inl, inr,
}
use pulumi_engine.Errors.Fallible.{ok, bind_elim, reject_if, reject_if-eq-ok, ok_inj}
use pulumi_engine.Drift.{Source, Region, CopiedUnit}
use pulumi_engine.Drift.Parse.{
  ParseState, start, split_lines, parse_lines, declares, check_regions, check_closed, close_unit,
  parse_unit,
}
use pulumi_engine.Drift.Parse.Regions.{sources_from, Chain, Form, parse_lines-Form}

-- What a copied file's unit promises, for the lines of the file.
pub record IsUnit (lines : List String) (u : CopiedUnit) : Type 0 where
  -- the sources are those that the header lines declare, with their numbers
  pub sources_are : u.sources ≡ sources_from 1 lines
  pub has_sources : is_empty u.sources ≡ false
  pub has_regions : is_empty u.regions ≡ false
  pub regions_apart : Chain 0 u.regions (length lines + 1)
  pub declared : All (λ r. declares u.sources r.path ≡ true) u.regions
  pub has_reason : (u.reason == "") ≡ false
  pub has_delete_when : (u.delete_when == "") ≡ false

check_regions-eq-ok :
    (path : String) (sources : List Source) (rs : List Region)
    → check_regions path sources rs ≡ ok tt
    → All (λ r. declares sources r.path ≡ true) rs
unfolding check_regions
check_regions-eq-ok path sources [] h = tt
check_regions-eq-ok path sources (r ∷ rs) h = elim (Bool-cases (declares sources r.path)) [
  | inl y ↦ (y, check_regions-eq-ok path sources rs (rw y at h))
  | inr n ↦ absurd (cc (rw n at h))
]

pub check_closed-eq-ok :
    (path : String) (o : Option Region) → check_closed path o ≡ ok tt → o ≡ none
unfolding check_closed
check_closed-eq-ok path none h = refl
check_closed-eq-ok path (some r) h = absurd (cc h)

close_unit-IsUnit :
    (path : String) (st : ParseState) (lines : List String) (u : CopiedUnit)
    → close_unit path st ≡ ok u
    → Form st.opened st.regions (length lines + 1)
    → st.sources ≡ sources_from 1 lines
    → (u.file ≡ path) × IsUnit lines u
unfolding close_unit
close_unit-IsUnit path st lines u h f same =
    bind_elim (check_closed path st.opened) _ h λ _ closed h1.
      bind_elim (reject_if (is_empty st.sources) _) _ h1 λ _ sources h2.
        bind_elim (reject_if (is_empty st.regions) _) _ h2 λ _ regions h3.
          bind_elim (reject_if (st.reason == "" || st.delete_when == "") _) _ h3 λ _ texts h4.
            bind_elim (check_regions path st.sources st.regions) _ h4 λ _ declared h5.
              let shut = check_closed-eq-ok path st.opened closed in
              let there = reject_if-eq-ok (st.reason == "" || st.delete_when == "") _ texts in
              subst (λ v. (v.file ≡ path) × IsUnit lines v) (ok_inj _ u h5)
                (
                  refl,
                  record {
                    sources_are = same;
                    has_sources = reject_if-eq-ok (is_empty st.sources) _ sources;
                    has_regions = reject_if-eq-ok (is_empty st.regions) _ regions;
                    regions_apart = subst (λ o. Form o st.regions (length lines + 1)) shut f;
                    declared = check_regions-eq-ok path st.sources st.regions declared;
                    has_reason = ground (arith, there);
                    has_delete_when = ground (arith, there);
                  },
                )

-- `parseUnit` accepts a file only if its regions are closed and lie one behind the other between
-- its lines, each of a source that a header line declares, and a reason and a condition for its
-- deletion are given; the sources are exactly the header lines', with their numbers.
pub parse_unit-IsUnit :
    (path text : String) (u : CopiedUnit)
    → parse_unit path text ≡ ok u
    → (u.file ≡ path) × IsUnit (split_lines text) u
unfolding parse_unit
parse_unit-IsUnit path text u h =
    bind_elim (parse_lines path 1 (split_lines text) start) (close_unit path) h λ st made closed.
      let (form, sources) =
        parse_lines-Form path 1 (split_lines text) start st made (omega arith) in
      close_unit-IsUnit path st (split_lines text) u closed
        (subst (Form st.opened st.regions) (omega arith) form) sources
