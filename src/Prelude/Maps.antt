-- ===== src/Prelude/Maps.antt =====
-- Go's maps with text keys, as association lists in which a key stands once. Writing a key that
-- is there keeps its place; a loop over a map takes the order of the list as the order that the
-- runtime happens to choose.
use Prim.Native.String.{String}
use mathlib.Core.Path.{◌≡◌, refl}
use mathlib.Core.Logic.{◌≢◌}
use mathlib.Core.Option.{Option, none, some}
use mathlib.Core.List.{List, [], ◌∷◌}
use native.Mathlib.Omega.{arith}
use text.Mathlib.Text.{◌==◌}
use text.Mathlib.TextEquality.{eq_iff}
use pulumi_engine.Prelude.Tests.{if◌then◌else◌}

abbrev pub Dict {ℓ} : Type ℓ → Type ℓ
Dict V = List (String × V)

module _ {ℓ} {V : Type ℓ} where
  unfoldable pub lookup : String → Dict V → Option V
  lookup key [] = none
  lookup key ((at, value) ∷ rest) =
      let later = lookup key rest in if at == key then some value else later

  unfoldable pub insert : String → V → Dict V → Dict V
  insert key value [] = (key, value) ∷ []
  insert key value ((at, old) ∷ rest) =
      let later = insert key value rest in
      if at == key then (key, value) ∷ rest else (at, old) ∷ later

  unfoldable pub erase : String → Dict V → Dict V
  erase k [] = []
  erase k ((j, v) ∷ m) = let rest = erase k m in if j == k then rest else (j, v) ∷ rest

  abbrev pub keys : Dict V → List String
  keys [] = []
  keys ((k, v) ∷ m) = k ∷ keys m

  -- `for k, v := range over { base[k] = v }`
  unfoldable pub overlay : Dict V → Dict V → Dict V
  overlay base [] = base
  overlay base ((k, v) ∷ over) = overlay (insert k v base) over

  pub lookup-insert :
      (key wanted : String) (value : V) (dict : Dict V)
      → lookup wanted (insert key value dict)
        ≡ (if key == wanted then some value else lookup wanted dict)
  unfolding lookup insert
  lookup-insert key wanted value [] = refl
  lookup-insert key wanted value ((at, old) ∷ rest) =
      let kept = lookup-insert key wanted value rest in
      ground (arith, kept, eq_iff key wanted, eq_iff at wanted, eq_iff at key)

  pub lookup-erase :
      (k j : String) (m : Dict V) → lookup j (erase k m) ≡ (if k == j then none else lookup j m)
  unfolding lookup erase
  lookup-erase k j [] = ground arith
  lookup-erase k j ((i, w) ∷ m) =
      ground (arith, eq_iff k j, eq_iff i k, eq_iff i j, lookup-erase k j m)

  -- A key that the overlay does not write keeps its value.
  pub lookup-overlay-none :
      (k : String) (base over : Dict V)
      → lookup k over ≡ none
      → lookup k (overlay base over) ≡ lookup k base
  unfolding lookup overlay
  lookup-overlay-none k base [] h = refl
  lookup-overlay-none k base ((j, v) ∷ over) h =
      ground (arith, lookup-overlay-none k (insert j v base) over, lookup-insert j k v base)

  -- No key stands twice.
  abbrev pub Absent : String → Dict V → Type 0
  Absent k [] = Unit
  Absent k ((j, v) ∷ m) = (j ≢ k) × Absent k m

  abbrev pub IsMap : Dict V → Type 0
  IsMap [] = Unit
  IsMap ((k, v) ∷ m) = Absent k m × IsMap m

  pub lookup-Absent : (k : String) (m : Dict V) → Absent k m → lookup k m ≡ none
  unfolding lookup
  lookup-Absent k [] h = refl
  lookup-Absent k ((j, v) ∷ m) h = ground (arith, eq_iff j k, h.0, lookup-Absent k m h.1)

  pub Absent-insert :
      (j k : String) (v : V) (m : Dict V) → k ≢ j → Absent j m → Absent j (insert k v m)
  unfolding insert
  Absent-insert j k v [] ne h = (ne, tt)
  Absent-insert j k v ((i, w) ∷ m) ne h = ground (arith, eq_iff i k, Absent-insert j k v m ne h.1)

  pub IsMap-insert : (k : String) (v : V) (m : Dict V) → IsMap m → IsMap (insert k v m)
  unfolding insert
  IsMap-insert k v [] h = (tt, tt)
  IsMap-insert k v ((j, w) ∷ m) h =
      ground (arith, eq_iff j k, IsMap-insert k v m h.1, Absent-insert j k v m)

  -- The last write wins: an overlay's own value for a key is the one that is read.
  pub lookup-overlay-some :
      (k : String) (v : V) (base over : Dict V)
      → IsMap over
      → lookup k over ≡ some v
      → lookup k (overlay base over) ≡ some v
  unfolding lookup overlay
  lookup-overlay-some k v base [] u h = absurd (cc h)
  lookup-overlay-some k v base ((j, w) ∷ over) u h = ground (
    arith,
    eq_iff j k,
    lookup-overlay-some k v (insert j w base) over u.1,
    lookup-overlay-none k (insert j w base) over,
    lookup-Absent j over u.0,
    lookup-insert j k w base,
  )
