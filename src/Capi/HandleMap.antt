-- ===== src/Capi/HandleMap.antt =====
-- capi/capi.go: the maps from handles that the registry keeps.
use pulumi_engine.Prelude.{
  ℕ, ◌≡◌, refl, List, [], ◌∷◌, Option, none, some, eqb, if◌then◌else◌, arith,
}

abbrev pub Table : Type 0 → Type 0
Table A = List (ℕ × A)

module _ {A : Type 0} where
  unfoldable pub find : ℕ → Table A → Option A
  find h [] = none
  find h ((k, a) ∷ t) = if eqb k h then some a else find h t

  -- `delete(m, h)`
  unfoldable pub forget : ℕ → Table A → Table A
  forget h [] = []
  forget h ((k, a) ∷ t) = let rest = forget h t in if eqb k h then rest else (k, a) ∷ rest

  -- `m[h] = a`
  unfoldable pub store : ℕ → A → Table A → Table A
  store h a [] = (h, a) ∷ []
  store h a ((k, b) ∷ t) = if eqb k h then (h, a) ∷ t else (k, b) ∷ store h a t

  pub find-forget :
      (h g : ℕ) (t : Table A) → find g (forget h t) ≡ (if eqb h g then none else find g t)
  unfolding find forget
  find-forget h g [] = ground arith
  find-forget h g ((k, a) ∷ t) = ground (arith, find-forget h g t)

  pub find-store :
      (h g : ℕ) (a : A) (t : Table A)
      → find g (store h a t) ≡ (if eqb h g then some a else find g t)
  unfolding find store
  find-store h g a [] = refl
  find-store h g a ((k, b) ∷ t) = ground (arith, find-store h g a t)
