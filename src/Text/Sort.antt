-- ===== src/Text/Sort.antt =====
-- Sorting by a text key, as `sort.Slice` and `sort.Strings` promise it: a permutation in order.
use Prim.Native.Char.{code}
use Prim.Native.Nat.compare as compare_ℕ
use Prim.Native.Nat.{Ordering, compare as compare_ℕ}
use Prim.Native.String as Text
use Prim.Native.String.compare
use Prim.Native.String.{compare, then}
use mathlib.Core.List.{Perm, perm_middle, append-nil}
use mathlib.Core.List.Perm
use pulumi_engine.Prelude.{
  ℕ, zero, suc, ◌≡◌, refl, String, Bool, true, false, List, [], ◌∷◌, ◌++◌, if◌then◌else◌,
  Bool-cases, inl, inr,
}

abbrev is_before : Ordering → Bool
is_before Ordering.lt = true
is_before Ordering.eq = false
is_before Ordering.gt = false

-- Go's `<` on strings
unfoldable pub text_lt : String → String → Bool
text_lt a b = is_before (compare a b)

module _ {ℓ} {A : Type ℓ} (key : A → String) where
  unfoldable insert_by : A → List A → List A
  insert_by a [] = a ∷ []
  insert_by a (x ∷ xs) = if text_lt (key a) (key x) then a ∷ x ∷ xs else x ∷ insert_by a xs

  unfoldable insert_all : List A → List A → List A
  insert_all sorted [] = sorted
  insert_all sorted (x ∷ xs) = insert_all (insert_by x sorted) xs

  -- `sort.Slice(xs, func(i, j int) bool { return key(xs[i]) < key(xs[j]) })`
  unfoldable pub sort_by : List A → List A
  unfolding insert_by insert_all
  sort_by xs = insert_all [] xs

  insert_by-perm : (a : A) (xs : List A) → Perm (insert_by a xs) (a ∷ xs)
  unfolding insert_by
  insert_by-perm a [] = Perm.refl (a ∷ [])
  insert_by-perm a (x ∷ xs) = elim (Bool-cases (text_lt (key a) (key x))) [
    | inl before ↦ rw before (Perm.refl (a ∷ x ∷ xs))
    | inr behind ↦ rw behind (Perm.trans (Perm.cons x (insert_by-perm a xs)) (Perm.swap a x xs))
  ]

  insert_all-perm : (sorted xs : List A) → Perm (insert_all sorted xs) (xs ++ sorted)
  unfolding insert_all
  insert_all-perm sorted [] = Perm.refl sorted
  insert_all-perm sorted (x ∷ xs) =
      Perm.trans (insert_all-perm (insert_by x sorted) xs)
        (Perm.trans (Perm.append_left xs (insert_by-perm x sorted)) (perm_middle xs sorted))

  pub sort_by-perm : (xs : List A) → Perm (sort_by xs) xs
  unfolding sort_by
  sort_by-perm xs = rw append-nil at (insert_all-perm [] xs)

abbrev flip : Ordering → Ordering
flip Ordering.lt = Ordering.gt
flip Ordering.eq = Ordering.eq
flip Ordering.gt = Ordering.lt

compare-flip_ℕ : (m n : ℕ) → compare_ℕ n m ≡ flip (compare_ℕ m n)
compare-flip_ℕ zero zero = refl
compare-flip_ℕ zero (suc n) = rw (compare_ℕ.zero-suc n, compare_ℕ.suc-zero n) refl
compare-flip_ℕ (suc m) zero = rw (compare_ℕ.zero-suc m, compare_ℕ.suc-zero m) refl
compare-flip_ℕ (suc m) (suc n) =
    rw (compare_ℕ.suc-suc m n, compare_ℕ.suc-suc n m) (compare-flip_ℕ m n)

then-flip : (o p : Ordering) → (then) (flip o) (flip p) ≡ flip ((then) o p)
then-flip Ordering.lt p = refl
then-flip Ordering.eq p = refl
then-flip Ordering.gt p = refl

compare-flip : (s t : String) → compare t s ≡ flip (compare s t)
compare-flip Text.[] Text.[] = refl
compare-flip Text.[] (Text.◌∷◌ d t) = rw (compare.nil-cons d t, compare.cons-nil d t) refl
compare-flip (Text.◌∷◌ c s) Text.[] = rw (compare.nil-cons c s, compare.cons-nil c s) refl
compare-flip (Text.◌∷◌ c s) (Text.◌∷◌ d t) =
    rw
      (
        compare.cons-cons c d s t,
        compare.cons-cons d c t s,
        compare-flip_ℕ (code c) (code d),
        compare-flip s t,
      )
      (then-flip (compare_ℕ (code c) (code d)) (compare s t))

is_before-flip : (o : Ordering) → is_before o ≡ true → is_before (flip o) ≡ false
is_before-flip Ordering.lt h = refl
is_before-flip Ordering.eq h = absurd (cc h)
is_before-flip Ordering.gt h = absurd (cc h)

text_lt_asym : (s t : String) → text_lt s t ≡ true → text_lt t s ≡ false
unfolding text_lt
text_lt_asym s t h = rw (compare-flip s t) (is_before-flip (compare s t) h)

module _ {ℓ} {A : Type ℓ} (key : A → String) where
  abbrev NotBehind : A → List A → Type 0
  NotBehind a [] = Unit
  NotBehind a (x ∷ xs) = text_lt (key x) (key a) ≡ false

  -- no element's key is less than the key before it
  abbrev pub InOrder : List A → Type 0
  InOrder [] = Unit
  InOrder (x ∷ xs) = NotBehind x xs × InOrder xs

  NotBehind-insert_by :
      (a x : A) (xs : List A)
      → text_lt (key a) (key x) ≡ false
      → NotBehind x xs
      → NotBehind x (insert_by key a xs)
  unfolding insert_by
  NotBehind-insert_by a x [] h first = h
  NotBehind-insert_by a x (y ∷ ys) h first = elim (Bool-cases (text_lt (key a) (key y))) [
    | inl before ↦ rw (insert_by, before) h
    | inr behind ↦ rw (insert_by, behind) first
  ]

  insert_by-InOrder : (a : A) (xs : List A) → InOrder xs → InOrder (insert_by key a xs)
  unfolding insert_by
  insert_by-InOrder a [] h = (tt, tt)
  insert_by-InOrder a (x ∷ xs) h = elim (Bool-cases (text_lt (key a) (key x))) [
    | inl before ↦ rw (insert_by, before) (text_lt_asym (key a) (key x) before, h)
    | inr behind ↦
        rw (insert_by, behind) (NotBehind-insert_by a x xs behind h.0, insert_by-InOrder a xs h.1)
  ]

  insert_all-InOrder : (sorted xs : List A) → InOrder sorted → InOrder (insert_all key sorted xs)
  unfolding insert_all
  insert_all-InOrder sorted [] h = h
  insert_all-InOrder sorted (x ∷ xs) h =
      insert_all-InOrder (insert_by key x sorted) xs (insert_by-InOrder x sorted h)

  pub sort_by-InOrder : (xs : List A) → InOrder (sort_by key xs)
  unfolding sort_by
  sort_by-InOrder xs = insert_all-InOrder [] xs tt
