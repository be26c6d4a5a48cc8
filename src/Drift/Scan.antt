-- ===== src/Drift/Scan.antt =====
-- internal/upstream/drift/drift.go: `Scan`, and `parseUnit` with the reading of its file. The
-- directory, the files and `filepath.Join` are parameters.
pub mod Units
use pulumi_engine.Prelude.{String, Bool, true, false, not, ◌||◌, ◌==◌, List, [], ◌∷◌, if◌then◌else◌}
use pulumi_engine.Text.{has_suffix, sort_by}
use pulumi_engine.Errors.Fallible.{Fallible, ok, err, ◌>>=◌}
use pulumi_engine.Drift.{CopiedUnit}
use pulumi_engine.Drift.Parse.{parse_unit}

-- `os.DirEntry`
pub record DirEntry : Type 0 where
  pub name : String
  pub is_dir : Bool

-- the test of the first `continue`
unfoldable pub is_skipped : DirEntry → Bool
is_skipped e =
    e.is_dir || not (has_suffix e.name ".go") || has_suffix e.name "_test.go" || e.name == "doc.go"

module _ (read_file : String → Fallible String) where
  -- `parseUnit` of a path
  unfoldable pub parse_file : String → Fallible CopiedUnit
  parse_file path = read_file path >>= parse_unit path

module _ (read_dir : String → Fallible (List DirEntry)) (read_file : String → Fallible String)
    (join : String → String → String) where
  -- the loop over the entries of a directory
  unfoldable pub scan_entries : String → List DirEntry → Fallible (List CopiedUnit)
  unfolding parse_file is_skipped
  scan_entries dir [] = ok []
  scan_entries dir (e ∷ es) =
      let later = scan_entries dir es in
      if is_skipped e
      then later
      else (do u ← parse_file read_file (join dir e.name); us ← later; ok (u ∷ us))

  abbrev by_file : List CopiedUnit → Fallible (List CopiedUnit)
  by_file us = ok (sort_by (λ u. u.file) us)

  -- `Scan`
  unfoldable pub scan : String → Fallible (List CopiedUnit)
  unfolding scan_entries
  scan dir = read_dir dir >>= λ entries. scan_entries dir entries >>= by_file
