-- ===== src/Drift/Check/Agrees.antt =====
-- internal/upstream/drift/drift.go: `Check` answers what it would answer with no cache.
use mathlib.Core.Path.{subst}
use pulumi_engine.Prelude.{
  String, true, ◌==◌, List, [], ◌∷◌, All, lookup, ◌≡◌, refl, ap, Bool-cases, inl, inr,
}
use pulumi_engine.Errors.{Foreign, has_foreign}
use pulumi_engine.Errors.Fallible.{Fallible, ok, err}
use pulumi_engine.Drift.{Source, CopiedUnit}
use pulumi_engine.Drift.Header.Lines.{no_at}
use pulumi_engine.Drift.Resolve.{
  GoModule, Tool, Outcome, done, failed, panics, hangs, Cache, Go, bind_outcome, ◌>>=◌, caught,
  attempt, resolver,
}
use pulumi_engine.Drift.Resolve.Cached.{plain, IsCache, Agree, ListsVersions, resolve-Agree}
use pulumi_engine.Drift.Check.{compared, check_source, check_sources, check_with, check}

module _ (tool : Tool) where
  -- The Resolver without a cache.
  abbrev pub uncached : String → String → Go GoModule
  uncached path version cache = (plain tool 2 path version, cache)

  bind_outcome-Agree :
      {A B : Type 0} (f g : A → Go B) (o : Outcome A) (cache other : Cache)
      → ((a : A) → Agree tool (f a) (g a))
      → IsCache tool cache
      → ((bind_outcome f o cache).0 ≡ (bind_outcome g o other).0)
        × IsCache tool (bind_outcome f o cache).1
  bind_outcome-Agree f g (done a) cache other h c = h a cache other c
  bind_outcome-Agree f g (failed e) cache other h c = (refl, c)
  bind_outcome-Agree f g panics cache other h c = (refl, c)
  bind_outcome-Agree f g hangs cache other h c = (refl, c)

  pub Agree-bind :
      {A B : Type 0} (m n : Go A) (f g : A → Go B)
      → Agree tool m n
      → ((a : A) → Agree tool (f a) (g a))
      → Agree tool (m >>= f) (n >>= g)
  Agree-bind m n f g h k cache other c =
      let (same, after) = h cache other c in
      subst
        (λ o.
          ((bind_outcome f (m cache).0 (m cache).1).0 ≡ (bind_outcome g o (n other).1).0)
          × IsCache tool (bind_outcome f (m cache).0 (m cache).1).1)
        same (bind_outcome-Agree f g (m cache).0 (m cache).1 (n other).1 k after)

  Agree-attempt : {A : Type 0} (m n : Go A) → Agree tool m n → Agree tool (attempt m) (attempt n)
  Agree-attempt m n h cache other c = (ap caught (h cache other c).0, (h cache other c).1)

  module _ (law : ListsVersions tool) where
    pub resolver-Agree :
        (path version : String)
        → no_at version ≡ true
        → Agree tool (resolver tool path version) (uncached path version)
    resolver-Agree path version a = resolve-Agree tool 2 path version law a

    compared-Agree :
        (file : String) (s : Source) (pinned : GoModule) (path : String) (sum : Fallible String)
        → no_at s.version ≡ true
        → Agree tool
            (compared tool (resolver tool) file s pinned path sum)
            (compared tool uncached file s pinned path sum)
    unfolding compared
    compared-Agree file s pinned path (err e) a cache other c =
        elim (Bool-cases (has_foreign Foreign.not_exist e)) [
          | inl y ↦ rw (compared, y) (refl, c)
          | inr n ↦ rw (compared, n) (refl, c)
        ]
    compared-Agree file s pinned path (ok sum) a cache other c =
        elim (Bool-cases (sum == s.sha256)) [
          | inl y ↦ rw (compared, y) (refl, c)
          | inr n ↦
              rw (compared, n)
                (Agree-bind (attempt (resolver tool s.module_path s.version))
                  (attempt (uncached s.module_path s.version)) _ _
                  (Agree-attempt (resolver tool s.module_path s.version)
                    (uncached s.module_path s.version) (resolver-Agree s.module_path s.version a))
                  (λ old cache' other' c'. (refl, c')) cache other c)
        ]

    check_source-Agree :
        (file : String) (s : Source)
        → no_at s.version ≡ true
        → Agree tool (check_source tool (resolver tool) file s) (check_source tool uncached file s)
    unfolding check_source
    check_source-Agree file s a =
        Agree-bind _ _ _ _ (resolver-Agree s.module_path "" refl)
          (λ pinned. compared-Agree file s pinned _ _ a)

    check_sources-Agree :
        (file : String) (ss : List Source)
        → All (λ s. no_at s.version ≡ true) ss
        → Agree tool
            (check_sources tool (resolver tool) file ss)
            (check_sources tool uncached file ss)
    unfolding check_sources
    check_sources-Agree file [] a cache other c = (refl, c)
    check_sources-Agree file (s ∷ ss) a cache other c =
        Agree-bind (check_source tool (resolver tool) file s) (check_source tool uncached file s) _
          _ (check_source-Agree file s a.0)
          (λ first.
            Agree-bind (check_sources tool (resolver tool) file ss)
              (check_sources tool uncached file ss) _ _ (check_sources-Agree file ss a.1)
              (λ rest cache' other' c'. (refl, c')))
          cache other c

    pub check-Agree :
        (us : List CopiedUnit)
        → All (λ u. All (λ s. no_at s.version ≡ true) u.sources) us
        → Agree tool (check tool us) (check_with tool uncached us)
    unfolding check_with
    check-Agree [] a cache other c = (refl, c)
    check-Agree (u ∷ us) a cache other c =
        Agree-bind (check_sources tool (resolver tool) u.file u.sources)
          (check_sources tool uncached u.file u.sources) _ _
          (check_sources-Agree u.file u.sources a.0)
          (λ first.
            Agree-bind (check tool us) (check_with tool uncached us) _ _ (check-Agree us a.1)
              (λ rest cache' other' c'. (refl, c')))
          cache other c

    -- `Check` with the Resolver's cache answers exactly what it answers with a Resolver that asks
    -- the go tool each time, findings, errors and a call that never returns included. That is where
    -- no recorded version and no version that the go tool lists holds an "@".
    pub check-eq-uncached :
        (us : List CopiedUnit)
        → All (λ u. All (λ s. no_at s.version ≡ true) u.sources) us
        → (check tool us []).0 ≡ (check_with tool uncached us []).0
    unfolding lookup
    check-eq-uncached us a =
        (check-Agree us a [] [] (λ path version m b found. absurd (cc found))).0
