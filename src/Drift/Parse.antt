-- ===== src/Drift/Parse.antt =====
-- internal/upstream/drift/drift.go: `parseUnit` on the text of its file. What a pointer to the
-- last region writes is kept apart in `opened` while that region is open.
pub mod Regions
pub mod Form
use Prim.Native.Char.{Char, code}
use Prim.Native.String as Chars
use pulumi_engine.Prelude.{
  ℕ, ◌+◌, String, Bool, true, false, not, ◌&&◌, ◌||◌, ◌==◌, List, [], ◌∷◌, ◌++◌, Option, none, some,
  any, is_empty, eqb, if◌then◌else◌,
}
use pulumi_engine.Text.{concat, quote, decimal, sort_by}
use pulumi_engine.Errors.{GoError, plain_error}
use pulumi_engine.Errors.Fallible.{Fallible, ok, err, ◌>>=◌, ◌>>◌, reject_if}
use pulumi_engine.Drift.{Source, Region, CopiedUnit}
use pulumi_engine.Drift.Header.{source_line, text_line, path_line}

abbrev pub glue : Char → List String → List String
glue c [] = Chars.◌∷◌ c "" ∷ []
glue c (l ∷ ls) = Chars.◌∷◌ c l ∷ ls

-- `strings.Split(s, "\n")`
unfoldable pub split_lines : String → List String
split_lines Chars.[] = "" ∷ []
split_lines (Chars.◌∷◌ c s) =
    let rest = split_lines s in if eqb (code c) 10 then "" ∷ rest else glue c rest

pub record ParseState : Type 0 where
  pub sources : List Source
  -- the regions that are closed, and the one that is open
  pub regions : List Region
  pub opened : Option Region
  pub reason : String
  pub delete_when : String

abbrev pub start : ParseState
start = record { sources = []; regions = []; opened = none; reason = ""; delete_when = "" }

-- `fmt.Errorf` at a line of the file
abbrev at_line : String → ℕ → List String → GoError
at_line path n message = plain_error (concat (path ∷ ":" ∷ decimal n ∷ ": " ∷ message))

-- a marker that begins a region
unfoldable pub begin_region : String → ℕ → String → ParseState → Fallible ParseState
begin_region path n of st = elim st.opened [
  | some r ↦ err (
      at_line path n
        ("upstream-begin inside an open region (begun at line " ∷ decimal r.begin ∷ ")" ∷ []))
  | none ↦ ok (record st { opened = some (record { path = of; begin = n; end = 0 }) })
]

-- a marker that ends a region
unfoldable pub end_region : String → ℕ → String → ParseState → Fallible ParseState
end_region path n of st = elim st.opened [
  | none ↦ err (at_line path n ("upstream-end without upstream-begin" ∷ []))
  | some r ↦
      if not (of == r.path)
      then err (
          at_line path n
            ("upstream-end for " ∷ quote of ∷ " closes a region of " ∷ quote r.path ∷ []))
      else ok (record st { regions = st.regions ++ record r { end = n } ∷ []; opened = none })
]

-- the cases after `sourceRe`, in order
unfoldable pub other_line : String → ℕ → String → ParseState → Fallible ParseState
unfolding begin_region end_region
other_line path n line st = elim (text_line "upstream-reason:" line) [
  | some text ↦ ok (record st { reason = text })
  | none ↦ elim (text_line "upstream-delete-when:" line) [
    | some text ↦ ok (record st { delete_when = text })
    | none ↦ elim (path_line "upstream-begin:" line) [
      | some of ↦ begin_region path n of st
      | none ↦ elim (path_line "upstream-end:" line) [
        | some of ↦ end_region path n of st
        | none ↦ ok st
      ]
    ]
  ]
]

-- one line of the loop
unfoldable pub parse_line : String → ℕ → String → ParseState → Fallible ParseState
unfolding other_line
parse_line path n line st = elim (source_line n line) [
  | some s ↦ ok (record st { sources = st.sources ++ s ∷ [] })
  | none ↦ other_line path n line st
]

-- the loop over the lines, from the line with this number
unfoldable pub parse_lines : String → ℕ → List String → ParseState → Fallible ParseState
unfolding parse_line
parse_lines path n [] st = ok st
parse_lines path n (line ∷ lines) st =
    parse_line path n line st >>= λ after. parse_lines path (n + 1) lines after

-- `declared[path]`
abbrev pub declares : List Source → String → Bool
declares sources path = any (λ s. s.path == path) sources

-- the regions whose source the header does not declare
unfoldable pub check_regions : String → List Source → List Region → Fallible (Unit {0})
check_regions path sources [] = ok tt
check_regions path sources (r ∷ rs) =
    let rest = check_regions path sources rs in
    if not (declares sources r.path)
    then err (
        at_line path r.begin
          ("region of " ∷ quote r.path ∷ " has no matching upstream: header line" ∷ []))
    else rest

pub check_closed : String → Option Region → Fallible (Unit {0})
check_closed path none = ok tt
check_closed path (some r) = err (
    plain_error
      (concat (path ∷ ": region begun at line " ∷ decimal r.begin ∷ " is never closed" ∷ [])))

-- what follows the loop
unfoldable pub close_unit : String → ParseState → Fallible CopiedUnit
unfolding check_regions check_closed
close_unit path st = do
  check_closed path st.opened
  reject_if (is_empty st.sources) (
      plain_error
        (concat (path ∷ ": no `// upstream: <module>@<version> <path> sha256=<hex>` header" ∷ [])))
  reject_if (is_empty st.regions)
      (plain_error (concat (path ∷ ": no upstream-begin/upstream-end region" ∷ [])))
  reject_if (st.reason == "" || st.delete_when == "")
      (plain_error (concat (path ∷ ": header needs upstream-reason and upstream-delete-when" ∷ [])))
  check_regions path st.sources st.regions
  ok (record {
    file = path;
    sources = st.sources;
    regions = st.regions;
    reason = st.reason;
    delete_when = st.delete_when;
  })

-- `parseUnit` on the text of the file
unfoldable pub parse_unit : String → String → Fallible CopiedUnit
unfolding split_lines parse_lines close_unit
parse_unit path text = parse_lines path 1 (split_lines text) start >>= close_unit path
