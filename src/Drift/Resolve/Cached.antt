-- ===== src/Drift/Resolve/Cached.antt =====
-- internal/upstream/drift/drift.go: the Resolver's cache changes no answer.
use Prim.Native.String as Chars
use Prim.Native.String.{◌++◌ as append}
use mathlib.Core.Path.{subst}
use text.Mathlib.TextLemmas.{append_assoc, append_cancel_right, nil-append, cons-append}
use pulumi_engine.Prelude.{
  ℕ, zero, suc, String, true, false, ◌==◌, [], ◌∷◌, some, lookup, insert, lookup-insert,
  if◌then◌else◌, ◌≡◌, refl, sym, ap, ◌∙◌, Bool-cases, Option-cases, inl, inr, arith, eq_iff,
}
use pulumi_engine.Text.{concat}
use pulumi_engine.Errors.{plain_error}
use pulumi_engine.Errors.Fallible.{ok, err, Fallible-cases}
use pulumi_engine.Drift.Header.{split_last}
use pulumi_engine.Drift.Header.Lines.{no_at, split_last-append, cons_there}
use pulumi_engine.Drift.Resolve.{
  GoModule, Tool, Outcome, done, failed, hangs, Cache, Go, cache_key, ask, resolve_found, resolve,
}

no_at-append : (v w : String) → no_at v ≡ true → no_at w ≡ true → no_at (append v w) ≡ true
no_at-append Chars.[] w hv hw = rw (nil-append w) hw
no_at-append (Chars.◌∷◌ c v) w hv hw = rw (cons-append c v w) (ground (arith, no_at-append v w))

there_before : (v : String) → (append v "x" == "") ≡ false
there_before Chars.[] = refl
there_before (Chars.◌∷◌ c v) = rw (cons-append c v "x") (cons_there c (append v "x"))

split_last-cache_key :
    (m v : String)
    → no_at v ≡ true
    → split_last (append (cache_key m v) "x") ≡ some (m, append v "x")
unfolding cache_key
split_last-cache_key m v h =
    ap split_last (append_assoc m (append "@" v) "x" ∙ ap (append m) (append_assoc "@" v "x"))
    ∙ split_last-append m (append v "x") (no_at-append v "x" h refl) (there_before v)

-- A key determines its module and its version, where the version holds no "@".
cache_key_inj :
    (m n v w : String)
    → no_at v ≡ true
    → no_at w ≡ true
    → cache_key m v ≡ cache_key n w
    → (m ≡ n) × (v ≡ w)
cache_key_inj m n v w hv hw h =
    let same : some (m, append v "x") ≡ some (n, append w "x") =
      sym (split_last-cache_key m v hv)
      ∙ ap (λ k. split_last (append k "x")) h
      ∙ split_last-cache_key n w hw in
    (cc same, append_cancel_right v w "x" (cc same))

some_inj : {A : Type 0} (a b : A) → some a ≡ some b → a ≡ b
some_inj a b h = cc h

module _ (tool : Tool) where
  open tool use {list_module}

  -- The answer with no cache.
  unfoldable pub plain_found :
      (String → String → Outcome GoModule) → String → String → GoModule → Outcome GoModule
  plain_found continued path version m =
      if m.dir == ""
      then if version == ""
        then continued path m.version
        else failed
            (plain_error (concat (cache_key path version ∷ ": module directory unknown" ∷ [])))
      else done m

  unfoldable pub plain : ℕ → String → String → Outcome GoModule
  unfolding plain_found
  plain zero path version = hangs
  plain (suc fuel) path version = elim (ask tool path version) [
    | err e ↦ failed e
    | ok m ↦ plain_found (plain fuel) path version m
  ]

  -- Every entry is an answer of the go tool.
  abbrev pub IsCache : Cache → Type 0
  IsCache cache =
      (path version : String) (m : GoModule)
      → no_at version ≡ true
      → lookup (cache_key path version) cache ≡ some m
      → (ask tool path version ≡ ok m) × ((m.dir == "") ≡ false)

  -- Two computations that answer the same, the first on any cache of answers.
  abbrev pub Agree : {A : Type 0} → Go A → Go A → Type 0
  Agree m n =
      (cache other : Cache) → IsCache cache → ((m cache).0 ≡ (n other).0) × IsCache (m cache).1

  IsCache-insert :
      (cache : Cache) (path version : String) (m : GoModule)
      → no_at version ≡ true
      → ask tool path version ≡ ok m
      → (m.dir == "") ≡ false
      → IsCache cache
      → IsCache (insert (cache_key path version) m cache)
  IsCache-insert cache path version m a asked there c p v n b found =
      elim (Bool-cases (cache_key path version == cache_key p v)) [
        | inr other ↦ c p v n b (sym (lookup-insert _ _ m cache ∙ rw other refl) ∙ found)
        | inl same ↦
            let (one, two) = cache_key_inj path p version v a b ((eq_iff _ _).0 same) in
            let here : m ≡ n =
              some_inj m n (sym (lookup-insert _ _ m cache ∙ rw same refl) ∙ found) in
            (
              subst (λ k. ask tool k v ≡ ok n) one
                  (subst (λ k. ask tool path k ≡ ok n) two (asked ∙ ap ok here)),
              ap (λ k. k.dir == "") (sym here) ∙ there,
            )
      ]

  found-Agree :
      (fuel : ℕ) (path version : String) (m : GoModule)
      → no_at version ≡ true
      → ask tool path version ≡ ok m
      → ((version == "") ≡ true
          → Agree (resolve tool fuel path m.version) (λ cache. (plain fuel path m.version, cache)))
      → Agree
          (resolve_found tool (resolve tool fuel) path version m)
          (λ cache. (plain_found (plain fuel) path version m, cache))
  unfolding resolve_found plain_found
  found-Agree fuel path version m a asked again cache other c = elim (Bool-cases (m.dir == "")) [
    | inr there ↦
        rw (resolve_found, plain_found, there)
          (refl, IsCache-insert cache path version m a asked there c)
    | inl missing ↦ elim (Bool-cases (version == "")) [
      | inl listed ↦ rw (resolve_found, plain_found, missing, listed) (again listed cache other c)
      | inr at ↦ rw (resolve_found, plain_found, missing, at) (refl, c)
    ]
  ]

  -- The module that a list without a version finds has a version that can be asked for.
  abbrev pub ListsVersions : Type 0
  ListsVersions = (p : String) (m : GoModule) → list_module p ≡ ok m → no_at m.version ≡ true

  ask_listed :
      (path version : String) → (version == "") ≡ true → ask tool path version ≡ list_module path
  unfolding ask
  ask_listed path version z = rw z refl

  pub resolve-Agree :
      (fuel : ℕ) (path version : String)
      → ListsVersions
      → no_at version ≡ true
      → Agree (resolve tool fuel path version) (λ cache. (plain fuel path version, cache))
  unfolding resolve plain
  resolve-Agree zero path version law a cache other c = (refl, c)
  resolve-Agree (suc fuel) path version law a cache other c =
      elim (Option-cases (lookup (cache_key path version) cache)) [
        | inr (m, e) ↦
            let (asked, there) = c path version m a e in
            rw (resolve, plain, e, asked, plain_found, there) (refl, c)
        | inl e ↦ elim (Fallible-cases (ask tool path version)) [
          | inr (x, asked) ↦ rw (resolve, plain, e, asked) (refl, c)
          | inl (m, asked) ↦
              rw (resolve, plain, e, asked)
                (found-Agree fuel path version m a asked
                  (λ z.
                    resolve-Agree fuel path m.version law
                      (law path m (sym (ask_listed path version z) ∙ asked)))
                  cache other c)
        ]
      ]
