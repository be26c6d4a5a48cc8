-- ===== src/Text/Trimmed.antt =====
-- What Go's `strings` functions for prefixes and white space make of a text with a prefix and a
-- newline.
use Prim.Native.Char.{Char}
use Prim.Native.String.{[], ◌∷◌, ◌++◌ as append, slice}
use text.Mathlib.TextLemmas.{nil-append, cons-append}
use text.Mathlib.TextEquality.{starts_with_iff}
use pulumi_engine.Prelude.{
  ℕ, zero, suc, ◌+◌, ◌<◌, ◌/◌, ◌%◌, String, Bool, true, false, not, ◌&&◌, some, ltb, ◌≡◌, refl, sym,
  ap, ◌∙◌, arith, Bool-cases, inl, inr,
}
use pulumi_engine.Text.{
  is_space, trim_left, trim_right, trim_space, has_prefix, strip_prefix, trim_prefix, decimal_fuel,
  decimal,
}

pub has_prefix-append : (p r : String) → has_prefix (append p r) p ≡ true
has_prefix-append p r = (starts_with_iff (append p r) p).1 (r, refl)

pub strip_prefix-append : (p r : String) → strip_prefix p (append p r) ≡ some r
unfolding strip_prefix
strip_prefix-append [] r = rw (nil-append r) refl
strip_prefix-append (c ∷ p) r = rw (cons-append c p r) (ground (arith, strip_prefix-append p r))

pub trim_prefix-append : (p r : String) → trim_prefix (append p r) p ≡ r
unfolding trim_prefix
trim_prefix-append p r = rw (trim_prefix, strip_prefix-append p r) refl

-- a text without white space
abbrev pub no_space : String → Bool
no_space [] = true
no_space (c ∷ s) = not (is_space c) && no_space s

trim_right_kept :
    (c : Char) (s : String) → is_space c ≡ false → trim_right (c ∷ s) ≡ c ∷ trim_right s
unfolding trim_right
trim_right_kept c s h = ground (arith, h)

trim_left_kept : (c : Char) (s : String) → is_space c ≡ false → trim_left (c ∷ s) ≡ c ∷ s
unfolding trim_left
trim_left_kept c s h = ground (arith, h)

trim_right_newline : (s : String) → no_space s ≡ true → trim_right (append s "\n") ≡ s
unfolding trim_right
trim_right_newline [] h = ap trim_right (nil-append "\n")
trim_right_newline (c ∷ s) h =
    let here : is_space c ≡ false = ground (arith, h) in
    let later : no_space s ≡ true = ground (arith, h) in
    ap trim_right (cons-append c s "\n")
    ∙ trim_right_kept c (append s "\n") here
    ∙ ap (λ t. c ∷ t) (trim_right_newline s later)

pub trim_space_newline : (s : String) → no_space s ≡ true → trim_space (append s "\n") ≡ s
unfolding trim_space trim_left trim_right
trim_space_newline [] h = ap trim_space (nil-append "\n")
trim_space_newline (c ∷ s) h =
    let here : is_space c ≡ false = ground (arith, h) in
    let left : trim_left (append (c ∷ s) "\n") ≡ append (c ∷ s) "\n" =
      ap trim_left (cons-append c s "\n")
      ∙ trim_left_kept c (append s "\n") here
      ∙ sym (cons-append c s "\n") in
    ap trim_right left ∙ trim_right_newline (c ∷ s) h

no_space-append :
    (s t : String) → no_space s ≡ true → no_space t ≡ true → no_space (append s t) ≡ true
no_space-append [] t h k = rw (nil-append t) k
no_space-append (c ∷ s) t h k = rw (cons-append c s t) (ground (arith, no_space-append s t))

digit-no_space : (d : ℕ) → d < 10 → no_space (slice "0123456789" d (d + 1)) ≡ true
digit-no_space zero h = refl
digit-no_space (suc zero) h = refl
digit-no_space (suc (suc zero)) h = refl
digit-no_space (suc (suc (suc zero))) h = refl
digit-no_space (suc (suc (suc (suc zero)))) h = refl
digit-no_space (suc (suc (suc (suc (suc zero))))) h = refl
digit-no_space (suc (suc (suc (suc (suc (suc zero)))))) h = refl
digit-no_space (suc (suc (suc (suc (suc (suc (suc zero))))))) h = refl
digit-no_space (suc (suc (suc (suc (suc (suc (suc (suc zero)))))))) h = refl
digit-no_space (suc (suc (suc (suc (suc (suc (suc (suc (suc zero))))))))) h = refl
digit-no_space (suc (suc (suc (suc (suc (suc (suc (suc (suc (suc d)))))))))) h =
    absurd (omega arith)

decimal_fuel-no_space :
    (f n : ℕ) (rest : String) → no_space rest ≡ true → no_space (decimal_fuel f n rest) ≡ true
unfolding decimal_fuel
decimal_fuel-no_space zero n rest h = h
decimal_fuel-no_space (suc f) n rest h =
    let digit = slice "0123456789" (n % 10) (n % 10 + 1) in
    let longer = no_space-append digit rest (digit-no_space (n % 10) (omega arith)) h in
    elim (Bool-cases (ltb n 10)) [
      | inl y ↦ rw (decimal_fuel, y) longer
      | inr m ↦ rw (decimal_fuel, m) (decimal_fuel-no_space f (n / 10) (append digit rest) longer)
    ]

pub decimal-no_space : (n : ℕ) → no_space (decimal n) ≡ true
unfolding decimal
decimal-no_space n = decimal_fuel-no_space (suc n) n "" refl
