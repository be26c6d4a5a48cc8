-- ===== src/Drift/Update.antt =====
-- internal/upstream/drift/drift.go: `Update`, over a resolver as in `Check`.
pub mod Lines
pub mod Bounds
pub mod Renewed
pub mod Reparsed
pub mod Rejoined
pub mod Again
pub mod Settled
use pulumi_engine.Prelude.{
  ℕ, zero, suc, String, Bool, true, false, not, ◌||◌, ◌==◌, List, [], ◌∷◌, Option, none, some,
  if◌then◌else◌,
}
use pulumi_engine.Text.{join}
use pulumi_engine.Errors.{GoError}
use pulumi_engine.Drift.{Source, CopiedUnit}
use pulumi_engine.Drift.Header.{header_line}
use pulumi_engine.Drift.Parse.{split_lines}
use pulumi_engine.Drift.Resolve.{
  GoModule, Tool, Outcome, panics, Go, return, ◌>>=◌, from_fallible, resolver, file_sha256,
}

-- `if lines[i] != line { lines[i] = line; changed = true }`, none where i is out of range
unfoldable pub put_line : ℕ → String → List String → Option (Bool × List String)
put_line i line [] = none
put_line zero line (l ∷ ls) = some (not (l == line), (if l == line then l else line) ∷ ls)
put_line (suc i) line (l ∷ ls) = elim (put_line i line ls) [
  | none ↦ none
  | some (changed, after) ↦ some (changed, l ∷ after)
]

-- the same at `s.Line-1`, which is out of range for 0
unfoldable pub set_line : ℕ → String → List String → Option (Bool × List String)
unfolding put_line
set_line zero line lines = none
set_line (suc i) line lines = put_line i line lines

-- what `Update` returns with no error before its write: false, or true and the write's error
pub data Updated : Type 0 where
  unchanged : Updated
  rewritten : String → Option GoError → Updated

abbrev pub panic : {A : Type 0} → Go A
panic cache = (panics, cache)

abbrev pub or_panic : {A : Type 0} → Option A → Go A
or_panic none = panic
or_panic (some a) = return a

module _ (tool : Tool) where
  -- the source with the version and the sum that are pinned
  abbrev pub repinned : Source → GoModule → String → Source
  repinned s pinned sum = record s { version = pinned.version; sha256 = sum }

  module _ (find_module : String → String → Go GoModule) where
    -- one turn of the loop
    unfoldable pub update_line : Source → List String → Go (Bool × List String)
    update_line s lines = do
      pinned ← find_module s.module_path ""
      sum ← from_fallible (file_sha256 tool (tool.join pinned.dir s.path))
      or_panic (set_line s.line (header_line (repinned s pinned sum)) lines)

    -- the loop over the sources
    unfoldable pub update_lines : List Source → List String → Bool → Go (Bool × List String)
    unfolding update_line
    update_lines [] lines changed = return (changed, lines)
    update_lines (s ∷ ss) lines changed = do
      turn ← update_line s lines
      update_lines ss turn.1 (changed || turn.0)

    -- what is written, if anything changed
    unfoldable pub write_back : String → Bool × List String → Updated
    write_back file (false, lines) = unchanged
    write_back file (true, lines) =
        rewritten (join "\n" lines) (tool.write_file file (join "\n" lines))

    unfoldable pub update_with : CopiedUnit → Go Updated
    unfolding update_lines write_back
    update_with u = do
      text ← from_fallible (tool.read_file u.file)
      result ← update_lines u.sources (split_lines text) false
      return (write_back u.file result)

-- `Update`
abbrev pub update : Tool → CopiedUnit → Go Updated
update tool = update_with tool (resolver tool)
