-- ===== src/Drift/Header.antt =====
-- internal/upstream/drift/drift.go: the patterns of the lines that `parseUnit` reads, and the line
-- that `Update` writes. A line holds no newline.
pub mod Lines
pub mod Words
use Prim.Native.Char.{Char, code}
use Prim.Native.String.{[], ◌∷◌}
use mathlib.Core.List
unfoldable pub use pulumi_engine.Text.{strip_prefix}
use pulumi_engine.Prelude.{
  ℕ, ◌+◌, String, Bool, true, false, not, ◌&&◌, ◌||◌, ◌==◌, Option, none, some, leb, eqb,
  if◌then◌else◌, ◌≡◌, refl,
}
use pulumi_engine.Text.{concat}
use pulumi_engine.Drift.{Source}

-- `\s`: tab, newline, form feed, return and space
unfoldable pub is_blank : Char → Bool
is_blank c = let n = code c in eqb n 32 || eqb n 9 || eqb n 10 || eqb n 12 || eqb n 13

-- `\s*`, as long as it can be
unfoldable pub skip_blanks : String → String
skip_blanks [] = []
skip_blanks (c ∷ s) = let rest = skip_blanks s in if is_blank c then rest else c ∷ s

-- `\S*`, as long as it can be, and what follows it
unfoldable pub span_word : String → String × String
span_word [] = ([], [])
span_word (c ∷ s) =
    let (word, rest) = span_word s in if is_blank c then ([], c ∷ s) else (c ∷ word, rest)

infixl 5 ◌>>=◌
abbrev pub ◌>>=◌ {ℓ κ} : {A : Type ℓ} {B : Type κ} → Option A → (A → Option B) → Option B
none >>= f = none
some a >>= f = f a

abbrev pub nonempty : String × String → Option (String × String)
nonempty (word, rest) = if word == "" then none else some (word, rest)

-- `\s+(\S+)`, the word as long as it can be
unfoldable pub next_word : String → Option (String × String)
unfolding skip_blanks span_word
next_word [] = none
next_word (c ∷ s) = if is_blank c then nonempty (span_word (skip_blanks s)) else none

-- `^//\s*` and a keyword
unfoldable pub directive : String → String → Option String
unfolding strip_prefix skip_blanks
directive keyword line = do rest ← strip_prefix "//" line; strip_prefix keyword (skip_blanks rest)

-- `(\S+)@(\S+)` on a word: the last "@" that leaves something after it splits, if there is
-- something before it
unfoldable pub split_last : String → Option (String × String)
split_last [] = none
split_last (c ∷ s) = elim (split_last s) [
  | some (before, after) ↦ some (c ∷ before, after)
  | none ↦ if eqb (code c) b'@' && not (s == "") then some ([], s) else none
]

-- `[0-9a-f]*`
unfoldable pub all_hex : String → Bool
all_hex [] = true
all_hex (c ∷ s) =
    let n = code c in ((leb b'0' n && leb n b'9') || (leb b'a' n && leb n b'f')) && all_hex s

unfoldable pub text_length : String → ℕ
text_length [] = 0
text_length (c ∷ s) = text_length s + 1

-- `[0-9a-f]{64}`
abbrev pub is_digest : String → Bool
is_digest s = all_hex s && eqb (text_length s) 64

abbrev pub checked_source : Bool → Source → Option Source
checked_source matches s = if matches then some s else none

-- `sourceRe`: the source of a line with this number
unfoldable pub source_line : ℕ → String → Option Source
unfolding directive next_word split_last all_hex text_length
source_line n line = do
  rest ← directive "upstream:" line
  qualified ← next_word rest
  path ← next_word qualified.1
  sum ← next_word path.1
  digest ← strip_prefix "sha256=" sum.0
  names ← (split_last qualified.0 >>= nonempty)
  checked_source (is_digest digest && skip_blanks sum.1 == "") (record {
    module_path = names.0;
    version = names.1;
    path = path.0;
    sha256 = digest;
    line = n;
  })

-- `reasonRe` and `deleteWhenRe`: the rest of the line
unfoldable pub text_line : String → String → Option String
unfolding directive
text_line keyword line = do rest ← directive keyword line; some (skip_blanks rest)

-- `beginRe` and `endRe`: the first word
unfoldable pub path_line : String → String → Option String
unfolding directive next_word
path_line keyword line = do rest ← directive keyword line; word ← next_word rest; some word.0

-- the line that `Update` writes for a source
unfoldable pub header_line : Source → String
unfolding concat
header_line s = concat (
    List.◌∷◌ "// upstream: " (
      List.◌∷◌ s.module_path (
        List.◌∷◌ "@" (
          List.◌∷◌ s.version
            (List.◌∷◌ " " (List.◌∷◌ s.path (List.◌∷◌ " sha256=" (List.◌∷◌ s.sha256 List.[]))))))))
