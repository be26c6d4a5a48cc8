-- ===== src/Drift/Update/Rejoined.antt =====
-- internal/upstream/drift/drift.go: `strings.Split` of what `strings.Join` made of lines.
use Prim.Native.Char.{Char, code}
use Prim.Native.String as Chars
use Prim.Native.String.{◌++◌ as append}
use text.Mathlib.TextLemmas.{nil-append, cons-append}
use pulumi_engine.Prelude.{
  ℕ, String, Bool, true, false, not, ◌&&◌, List, [], ◌∷◌, All, is_empty, eqb, ◌≡◌, refl, ap, ◌∙◌,
  arith, Bool-cases, inl, inr,
}
use pulumi_engine.Text.{concat, join}
use pulumi_engine.Drift.{Source}
use pulumi_engine.Drift.Header.{header_line, is_blank, all_hex}
use pulumi_engine.Drift.Header.Lines.{no_blank, IsSource, all_hex-no_blank}
use pulumi_engine.Drift.Header.Words.{source_line-HasWords}
use pulumi_engine.Drift.Parse.{split_lines, glue}
use pulumi_engine.Drift.Update.Renewed.{Renewed, no_lines, kept, renewed}
use pulumi_engine.Drift.Update.Reparsed.{ToolLaws, IsPinned-IsSource}
use pulumi_engine.Drift.Resolve.{Tool}

abbrev pub no_newline : String → Bool
no_newline Chars.[] = true
no_newline (Chars.◌∷◌ c s) = not (eqb (code c) 10) && no_newline s

abbrev newline : Char
newline = "\n"

newline_cons : (r : String) → append "\n" r ≡ Chars.◌∷◌ newline r
newline_cons r = cons-append "\n" "" r ∙ ap (λ t. Chars.◌∷◌ "\n" t) (nil-append r)

no_newline-append :
    (v w : String) → no_newline v ≡ true → no_newline w ≡ true → no_newline (append v w) ≡ true
no_newline-append Chars.[] w hv hw = rw (nil-append w) hw
no_newline-append (Chars.◌∷◌ c v) w hv hw =
    rw (cons-append c v w) (ground (arith, no_newline-append v w))

no_newline-no_blank : (s : String) → no_blank s ≡ true → no_newline s ≡ true
unfolding is_blank
no_newline-no_blank Chars.[] h = refl
no_newline-no_blank (Chars.◌∷◌ c s) h = ground (arith, no_newline-no_blank s)

-- The first line of a text, where it holds no newline, and the others.
split_lines-append :
    (l r : String)
    → no_newline l ≡ true
    → split_lines (append l (append "\n" r)) ≡ l ∷ split_lines r
unfolding split_lines
split_lines-append Chars.[] r h = rw (nil-append (append "\n" r), newline_cons r) refl
split_lines-append (Chars.◌∷◌ c l) r h =
    rw (cons-append c l (append "\n" r)) (ground (arith, split_lines-append l r))

split_lines_one : (l : String) → no_newline l ≡ true → split_lines l ≡ l ∷ []
unfolding split_lines
split_lines_one Chars.[] h = refl
split_lines_one (Chars.◌∷◌ c l) h = ground (arith, split_lines_one l)

pub split_lines-join :
    (l : String) (ls : List String)
    → All (λ k. no_newline k ≡ true) (l ∷ ls)
    → split_lines (join "\n" (l ∷ ls)) ≡ l ∷ ls
unfolding join
split_lines-join l [] h = split_lines_one l h.0
split_lines-join l (k ∷ ls) h =
    split_lines-append l (join "\n" (k ∷ ls)) h.0
    ∙ ap (λ rest. l ∷ rest) (split_lines-join k ls h.1)

glue-no_newline :
    (c : Char) (ls : List String)
    → eqb (code c) 10 ≡ false
    → All (λ k. no_newline k ≡ true) ls
    → All (λ k. no_newline k ≡ true) (glue c ls)
glue-no_newline c [] n h = (rw n refl, tt)
glue-no_newline c (l ∷ ls) n h = (rw n h.0, h.1)

glue_there : (c : Char) (ls : List String) → is_empty (glue c ls) ≡ false
glue_there c [] = refl
glue_there c (l ∷ ls) = refl

pub split_lines-no_newline : (s : String) → All (λ k. no_newline k ≡ true) (split_lines s)
unfolding split_lines
split_lines-no_newline Chars.[] = (refl, tt)
split_lines-no_newline (Chars.◌∷◌ c s) =
    let rest = split_lines-no_newline s in
    elim (Bool-cases (eqb (code c) 10)) [
      | inl y ↦ rw (split_lines, y) (refl, rest)
      | inr n ↦ rw (split_lines, n) (glue-no_newline c (split_lines s) n rest)
    ]

no_newline-concat :
    (ss : List String) → All (λ s. no_newline s ≡ true) ss → no_newline (concat ss) ≡ true
unfolding concat
no_newline-concat [] h = refl
no_newline-concat (s ∷ ss) h = no_newline-append s (concat ss) h.0 (no_newline-concat ss h.1)

header_line-no_newline : (t : Source) → IsSource t → no_newline (header_line t) ≡ true
unfolding header_line
header_line-no_newline t v =
    let hex : all_hex t.sha256 ≡ true = ground (arith, v.digest) in
    no_newline-concat
      ("// upstream: " ∷ t.module_path ∷ "@" ∷ t.version ∷ " " ∷ t.path ∷ " sha256=" ∷ t.sha256
        ∷ [])
      (
        refl,
        (
          no_newline-no_blank t.module_path v.module_word,
          (
            refl,
            (
              no_newline-no_blank t.version v.version_word,
              (
                refl,
                (
                  no_newline-no_blank t.path v.path_word,
                  (refl, (no_newline-no_blank t.sha256 (all_hex-no_blank t.sha256 hex), tt)),
                ),
              ),
            ),
          ),
        ),
      )

module _ (tool : Tool) (laws : ToolLaws tool) where
  pub Renewed-no_newline :
      {n : ℕ} {ls ks : List String} {ts : List Source}
      → Renewed tool n ls ks ts
      → All (λ k. no_newline k ≡ true) ls
      → All (λ k. no_newline k ≡ true) ks
  Renewed-no_newline no_lines h = tt
  Renewed-no_newline (kept e r) h = (h.0, Renewed-no_newline r h.1)
  Renewed-no_newline (renewed {n} {l} {ls} {ks} {ts} {s} {t} e pin r) h =
      let good = (IsPinned-IsSource tool laws n s t (source_line-HasWords n l s e) pin).0 in
      (header_line-no_newline t good, Renewed-no_newline r h.1)

  -- The lines that `Update` leaves are those of the text that it writes.
  pub split_lines-Renewed :
      {n : ℕ} {ts : List Source} (ls ks : List String)
      → Renewed tool n ls ks ts
      → is_empty ls ≡ false
      → All (λ k. no_newline k ≡ true) ls
      → split_lines (join "\n" ks) ≡ ks
  split_lines-Renewed [] ks r there h = absurd (cc there)
  split_lines-Renewed (l ∷ ls) [] r there h = absurd (never r)
    where
      never : {n : ℕ} {ts : List Source} → Renewed tool n (l ∷ ls) [] ts → ⊥
      never x = elim x [ ]
  split_lines-Renewed (l ∷ ls) (k ∷ ks) r there h = split_lines-join k ks (Renewed-no_newline r h)

pub split_lines_there : (s : String) → is_empty (split_lines s) ≡ false
unfolding split_lines
split_lines_there Chars.[] = refl
split_lines_there (Chars.◌∷◌ c s) = elim (Bool-cases (eqb (code c) 10)) [
  | inl y ↦ rw (split_lines, y) refl
  | inr n ↦ rw (split_lines, n) (glue_there c (split_lines s))
]
