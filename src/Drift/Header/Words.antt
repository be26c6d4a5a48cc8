-- ===== src/Drift/Header/Words.antt =====
-- internal/upstream/drift/drift.go: what the pattern of a source can have matched.
use Prim.Native.Char.{code}
use Prim.Native.String.{[], ◌∷◌}
use mathlib.Core.Path.{subst}
use pulumi_engine.Prelude.{
  ℕ, String, Bool, true, false, not, ◌&&◌, ◌==◌, Option, none, some, eqb, ◌≡◌, refl, arith,
  Bool-cases, Option-cases, inl, inr,
}
use pulumi_engine.Drift.{Source}
use pulumi_engine.Drift.Header.{
  ◌>>=◌, nonempty, checked_source, is_blank, skip_blanks, strip_prefix, span_word, next_word,
  directive, split_last, source_line,
}
use pulumi_engine.Drift.Header.Lines.{no_blank}

-- Inversion of a chain that found something.
option_elim {ℓ κ μ} :
    {A : Type ℓ} {B : Type κ} {P : Type μ} (m : Option A) (f : A → Option B) {b : B}
    → (m >>= f) ≡ some b
    → ((a : A) → m ≡ some a → f a ≡ some b → P)
    → P
option_elim none f h k = absurd (cc h)
option_elim (some a) f h k = k a refl h

span_word-no_blank : (s : String) → no_blank (span_word s).0 ≡ true
unfolding span_word
span_word-no_blank [] = refl
span_word-no_blank (c ∷ s) = elim (Bool-cases (is_blank c)) [
  | inl y ↦ rw (span_word, y) refl
  | inr n ↦ rw (span_word, n) (rw n (span_word-no_blank s))
]

-- a word as a pattern finds it
abbrev pub IsWord : String → Type 0
IsWord w = (no_blank w ≡ true) × ((w == "") ≡ false)

nonempty-IsWord :
    (p : String × String) (w r : String) → no_blank p.0 ≡ true → nonempty p ≡ some (w, r) → IsWord w
nonempty-IsWord (v, q) w r b h = elim (Bool-cases (v == "")) [
  | inl z ↦ absurd (ground (arith, z, h))
  | inr n ↦ (ground (arith, n, h, b), ground (arith, n, h))
]

next_word-IsWord : (s w r : String) → next_word s ≡ some (w, r) → IsWord w
unfolding next_word
next_word-IsWord [] w r h = absurd (cc h)
next_word-IsWord (c ∷ s) w r h = elim (Bool-cases (is_blank c)) [
  | inl y ↦
      nonempty-IsWord (span_word (skip_blanks s)) w r (span_word-no_blank (skip_blanks s))
        (rw (next_word, y) at h)
  | inr n ↦ absurd (cc (rw (next_word, n) at h))
]

first_empty :
    (s before after : String)
    → ◌≡◌ {A = Option (String × String)} (some ([], s)) (some (before, after))
    → no_blank before ≡ true
first_empty s before after h = let e : [] ≡ before = cc h in subst (λ t. no_blank t ≡ true) e refl

split_last-no_blank :
    (s before after : String)
    → no_blank s ≡ true
    → split_last s ≡ some (before, after)
    → no_blank before ≡ true
unfolding split_last
split_last-no_blank [] before after b h = absurd (cc h)
split_last-no_blank (c ∷ s) before after b h = elim (Option-cases (split_last s)) [
  | inl e ↦ elim (Bool-cases (eqb (code c) b'@' && not (s == ""))) [
    | inl t ↦ first_empty s before after (rw (split_last, e, t) at h)
    | inr t ↦ absurd (cc (rw (split_last, e, t) at h))
  ]
  | inr ((pre, post), e) ↦
      let rest = split_last-no_blank s pre post (ground (arith, b)) e in
      ground (arith, rest, e, h, b)
]

pub record HasWords (n : ℕ) (s : Source) : Type 0 where
  pub at : s.line ≡ n
  pub module_word : IsWord s.module_path
  pub path_word : IsWord s.path

checked_source-eq-some : (b : Bool) (s t : Source) → checked_source b s ≡ some t → s ≡ t
checked_source-eq-some true s t h = cc h
checked_source-eq-some false s t h = absurd (cc h)

-- The names that a header line declares are words, and its number is the line's.
pub source_line-HasWords :
    (n : ℕ) (line : String) (s : Source) → source_line n line ≡ some s → HasWords n s
unfolding source_line
source_line-HasWords n line s h = option_elim (directive "upstream:" line) _ h λ rest _ h1.
    option_elim (next_word rest) _ h1 λ qualified q h2.
      option_elim (next_word qualified.1) _ h2 λ path p h3.
        option_elim (next_word path.1) _ h3 λ sum _ h4.
          option_elim (strip_prefix "sha256=" sum.0) _ h4 λ digest _ h5.
            option_elim (split_last qualified.0 >>= nonempty) _ h5 λ names m h6.
              subst (HasWords n) (checked_source-eq-some _ _ s h6) (record {
                at = refl;
                module_word = option_elim (split_last qualified.0) nonempty m λ pieces found kept.
                    nonempty-IsWord pieces names.0 names.1
                      (split_last-no_blank qualified.0 pieces.0 pieces.1
                        (next_word-IsWord rest qualified.0 qualified.1 q).0 found)
                      kept;
                path_word = next_word-IsWord qualified.1 path.0 path.1 p;
              })
