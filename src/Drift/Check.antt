-- ===== src/Drift/Check.antt =====
-- internal/upstream/drift/drift.go: `Check`. The resolver is an argument: the one with the cache in
-- the program, and one without in the comparison.
pub mod Agrees
use pulumi_engine.Prelude.{String, ◌==◌, List, [], ◌∷◌, ◌++◌, Option, none, some, if◌then◌else◌}
use pulumi_engine.Text.{concat}
use pulumi_engine.Errors.{Foreign, GoError, has_foreign}
use pulumi_engine.Errors.Message.{error_text}
use pulumi_engine.Errors.Fallible.{Fallible, ok, err}
use pulumi_engine.Drift.{Source, CopiedUnit}
use pulumi_engine.Drift.Resolve.{
  GoModule, Tool, Go, return, throw, ◌>>=◌, attempt, resolver, file_sha256,
}

pub record Finding : Type 0 where
  pub file : String
  pub source : Source
  pub message : String
  pub diff : String

module _ (tool : Tool) (find_module : String → String → Go GoModule) where
  -- the finding for a file that is gone
  pub gone : String → Source → GoModule → Finding
  gone file s pinned = record {
    file = file;
    source = s;
    message = concat ("file no longer exists at " ∷ pinned.version ∷ []);
    diff = "";
  }

  -- the finding for a file that changed, with a diff if the old version can be fetched
  pub changed : String → Source → GoModule → String → Fallible GoModule → Finding
  changed file s pinned path old =
      let message = concat (
        "changed between " ∷ s.version ∷ " (recorded) and " ∷ pinned.version
        ∷ " (pinned); review the copied region and run upstreamcheck -update" ∷ []) in
      elim old [
        | ok m ↦ record {
          file = file;
          source = s;
          message = message;
          diff = tool.diff (tool.join m.dir s.path) s.version path pinned.version;
        }
        | err e ↦ record {
          file = file;
          source = s;
          message = concat (message ∷ " (no diff: " ∷ error_text e ∷ ")" ∷ []);
          diff = "";
        }
      ]

  -- what the sum of the pinned file says
  unfoldable pub compared :
      String → Source → GoModule → String → Fallible String → Go (Option Finding)
  unfolding gone changed
  compared file s pinned path (err e) =
      if has_foreign Foreign.not_exist e then return (some (gone file s pinned)) else throw e
  compared file s pinned path (ok sum) = if sum == s.sha256 then return none else (do
    old ← attempt (find_module s.module_path s.version)
    return (some (changed file s pinned path old)))

  -- one turn of the inner loop
  unfoldable pub check_source : String → Source → Go (Option Finding)
  unfolding compared
  check_source file s = do
    pinned ← find_module s.module_path ""
    compared file s pinned (tool.join pinned.dir s.path)
        (file_sha256 tool (tool.join pinned.dir s.path))

  abbrev found : Option Finding → List Finding → List Finding
  found none fs = fs
  found (some f) fs = f ∷ fs

  unfoldable pub check_sources : String → List Source → Go (List Finding)
  unfolding check_source
  check_sources file [] = return []
  check_sources file (s ∷ ss) = do
    first ← check_source file s
    rest ← check_sources file ss
    return (found first rest)

  -- `Check`
  unfoldable pub check_with : List CopiedUnit → Go (List Finding)
  unfolding check_sources
  check_with [] = return []
  check_with (u ∷ us) = do
    first ← check_sources u.file u.sources
    rest ← check_with us
    return (first ++ rest)

abbrev pub check : Tool → List CopiedUnit → Go (List Finding)
check tool = check_with tool (resolver tool)
