-- ===== src/Text.antt =====
-- What the source uses of Go's `strings`, `fmt` and `sort` packages, over ASCII text.
mod Sort
pub mod Trimmed
unfoldable pub use Sort.*
use Prim.Native.Char.{Char, code}
use Prim.Native.String.{[], ◌∷◌, ◌++◌ as append, slice}
use mathlib.Core.List
use text.Mathlib.Text.{starts_with, find?}
use pulumi_engine.Prelude.{
  ℕ, ◌+◌, ◌/◌, ◌%◌, ◌-◌, zero, suc, String, Bool, true, false, ◌&&◌, ◌||◌, ◌==◌, List, Option, none,
  some, leb, ltb, eqb, is_some, if◌then◌else◌, ◌≡◌, refl,
}

-- `fmt.Sprintf` of texts: the pieces in their order
unfoldable pub concat : List String → String
concat List.[] = ""
concat (List.◌∷◌ s ss) = append s (concat ss)

-- `strings.Join`
unfoldable pub join : String → List String → String
join sep List.[] = ""
join sep (List.◌∷◌ s List.[]) = s
join sep (List.◌∷◌ s (List.◌∷◌ t ss)) = append s (append sep (join sep (List.◌∷◌ t ss)))

-- `strings.Contains`
abbrev pub contains : String → String → Bool
contains s sub = is_some (find? s sub)

-- `strings.HasPrefix`
abbrev pub has_prefix : String → String → Bool
has_prefix s p = starts_with s p

-- `strings.HasSuffix`
abbrev pub has_suffix : String → String → Bool
has_suffix [] t = "" == t
has_suffix (c ∷ s) t = c ∷ s == t || has_suffix s t

-- what follows a prefix, none for a text that does not begin with it
unfoldable pub strip_prefix : String → String → Option String
strip_prefix [] s = some s
strip_prefix (p ∷ ps) [] = none
strip_prefix (p ∷ ps) (c ∷ s) =
    let rest = strip_prefix ps s in if eqb (code p) (code c) then rest else none

-- `strings.TrimPrefix(s, p)`
unfoldable pub trim_prefix : String → String → String
unfolding strip_prefix
trim_prefix s p = elim (strip_prefix p s) [ none ↦ s | some rest ↦ rest ]

-- the white space of ASCII: tab, newline, vertical tab, form feed, return, space
abbrev pub is_space : Char → Bool
is_space c = (leb 9 (code c) && leb (code c) 13) || eqb (code c) 32

unfoldable pub trim_left : String → String
trim_left [] = []
trim_left (c ∷ s) = let rest = trim_left s in if is_space c then rest else c ∷ s

unfoldable pub trim_right : String → String
trim_right [] = []
trim_right (c ∷ s) = let rest = trim_right s in if is_space c && rest == "" then "" else c ∷ rest

-- `strings.TrimSpace`
unfoldable pub trim_space : String → String
unfolding trim_left trim_right
trim_space s = trim_right (trim_left s)

-- one digit of a byte in hexadecimal
abbrev hex_digit : ℕ → String
hex_digit n = slice "0123456789abcdef" n (n + 1)

-- the escapes that `strconv.Quote` writes for an ASCII character
quote_char : Char → String
quote_char c =
    let n = code c in
    if eqb n 34
    then "\\\""
    else if eqb n 92
    then "\\\\"
    else if eqb n 7
    then "\\a"
    else if eqb n 8
    then "\\b"
    else if eqb n 12
    then "\\f"
    else if eqb n 10
    then "\\n"
    else if eqb n 13
    then "\\r"
    else if eqb n 9
    then "\\t"
    else if eqb n 11
    then "\\v"
    else if ltb n 32 || eqb n 127
    then append "\\x" (append (hex_digit (n / 16)) (hex_digit (n % 16)))
    else c ∷ []

quote_chars : String → String
quote_chars [] = []
quote_chars (c ∷ s) = append (quote_char c) (quote_chars s)

-- the verb %q of `fmt`
unfoldable pub quote : String → String
unfolding quote_char quote_chars concat
quote s = append "\"" (append (quote_chars s) "\"")

quote_escapes : quote "a\"b\n" ≡ "\"a\\\"b\\n\""
unfolding quote
quote_escapes = refl

-- the text after the last "/", or all of it: `name[strings.LastIndex(name, "/")+1:]`
after_slash : String → String → String
after_slash kept [] = kept
after_slash kept (c ∷ s) = after_slash (if eqb (code c) b'/' then s else kept) s

unfoldable pub after_last_slash : String → String
unfolding after_slash
after_last_slash s = after_slash s s

-- the verb %d for a number that is not negative
decimal_fuel : ℕ → ℕ → String → String
decimal_fuel zero n rest = rest
decimal_fuel (suc f) n rest =
    let digit = slice "0123456789" (n % 10) (n % 10 + 1) in
    let more = decimal_fuel f (n / 10) (append digit rest) in
    if ltb n 10 then append digit rest else more

unfoldable pub decimal : ℕ → String
unfolding decimal_fuel
decimal n = decimal_fuel (suc n) n ""

decimal_runs : decimal 307 ≡ "307"
unfolding decimal
decimal_runs = refl
