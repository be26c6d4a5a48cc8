-- ===== src/Drift/Scan/Units.antt =====
-- internal/upstream/drift/drift.go: the units that `Scan` returns.
use mathlib.Core.List.{Perm}
use mathlib.Core.Path.{subst}
use pulumi_engine.Prelude.{String, true, false, List, [], ◌∷◌, ◌≡◌, Bool-cases, inl, inr}
use pulumi_engine.Text.{sort_by, sort_by-perm, sort_by-InOrder, InOrder}
use pulumi_engine.Errors.Fallible.{Fallible, ok, bind_elim, ok_inj}
use pulumi_engine.Drift.{CopiedUnit}
use pulumi_engine.Drift.Parse.{split_lines, parse_unit}
use pulumi_engine.Drift.Parse.Form.{IsUnit, parse_unit-IsUnit}
use pulumi_engine.Drift.Scan.{DirEntry, is_skipped, parse_file, scan_entries, scan}

module _ (read_file : String → Fallible String) where
  -- A unit of the file at a path, in form for the lines that the file has.
  pub record IsUnitOf (path : String) (u : CopiedUnit) : Type 0 where
    pub text : String
    pub there : read_file path ≡ ok text
    pub named : u.file ≡ path
    pub in_form : IsUnit (split_lines text) u

  parse_file-IsUnitOf :
      (path : String) (u : CopiedUnit) → parse_file read_file path ≡ ok u → IsUnitOf path u
  unfolding parse_file
  parse_file-IsUnitOf path u h = bind_elim (read_file path) (parse_unit path) h λ text there made.
      let (named, form) = parse_unit-IsUnit path text u made in
      record { text = text; there = there; named = named; in_form = form }

module _ (read_dir : String → Fallible (List DirEntry)) (read_file : String → Fallible String)
    (join : String → String → String) where
  -- From these entries come those units, one for each entry that is not skipped.
  pub data Scanned (dir : String) : List DirEntry → List CopiedUnit → Type 0 where
    no_entries : Scanned dir [] []
    skipped :
        {e : DirEntry} {es : List DirEntry} {us : List CopiedUnit}
        → is_skipped e ≡ true
        → Scanned dir es us
        → Scanned dir (e ∷ es) us
    parsed :
        {e : DirEntry} {es : List DirEntry} {u : CopiedUnit} {us : List CopiedUnit}
        → is_skipped e ≡ false
        → IsUnitOf read_file (join dir e.name) u
        → Scanned dir es us
        → Scanned dir (e ∷ es) (u ∷ us)

  scan_entries-Scanned :
      (dir : String) (es : List DirEntry) (us : List CopiedUnit)
      → scan_entries read_dir read_file join dir es ≡ ok us
      → Scanned dir es us
  unfolding scan_entries
  scan_entries-Scanned dir [] us h = subst (Scanned dir []) (ok_inj [] us h) no_entries
  scan_entries-Scanned dir (e ∷ es) us h = elim (Bool-cases (is_skipped e)) [
    | inl y ↦ skipped y (scan_entries-Scanned dir es us (rw (scan_entries, y) at h))
    | inr n ↦
        bind_elim (parse_file read_file (join dir e.name)) _ (rw (scan_entries, n) at h)
          λ u made h1. bind_elim (scan_entries read_dir read_file join dir es) _ h1 λ rest later h2.
            subst (Scanned dir (e ∷ es)) (ok_inj (u ∷ rest) us h2) (
              parsed n (parse_file-IsUnitOf read_file (join dir e.name) u made)
                (scan_entries-Scanned dir es rest later))
  ]

  -- When `Scan` of a directory succeeds, the units are in the order of their files' names, and are
  -- a permutation of one unit for each entry of the directory that is neither a directory, a test,
  -- "doc.go" nor without the suffix ".go"; each unit is in form for the lines of its file.
  pub scan-Scanned :
      (dir : String) (us : List CopiedUnit)
      → scan read_dir read_file join dir ≡ ok us
      → InOrder (λ u. u.file) us
        × ((es : List DirEntry) × (found : List CopiedUnit) × (read_dir dir ≡ ok es)
            × Scanned dir es found
            × Perm us found)
  unfolding scan
  scan-Scanned dir us h = bind_elim (read_dir dir) _ h λ es there h1.
      bind_elim (scan_entries read_dir read_file join dir es) _ h1 λ found made h2.
        let same = ok_inj (sort_by (λ u. u.file) found) us h2 in
        (
          subst (InOrder (λ u. u.file)) same (sort_by-InOrder (λ u. u.file) found),
          (
            es,
            found,
            there,
            scan_entries-Scanned dir es found made,
            subst (λ xs. Perm xs found) same (sort_by-perm (λ u. u.file) found),
          ),
        )
