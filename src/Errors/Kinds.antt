-- ===== src/Errors/Kinds.antt =====
-- What `KindOf` answers on chains of errors, and what the classifier of backend errors makes of
-- an error that this library did not make.
use pulumi_engine.Prelude.{String, ◌||◌, ◌≡◌, refl, Option, none, if◌then◌else◌, arith}
use pulumi_engine.Errors.{
  ErrorKind, Foreign, GoError, concurrent_update, stack_not_found, stack_exists, unclassified,
  wrapped, joined, foreign, find_as, has_foreign, as_invalid, as_plan, as_resource_op, as_program,
  as_concurrent, as_not_found, as_exists, as_pending, as_cancelled, as_unsupported,
}
use pulumi_engine.Errors.Classify.{kind_of, classify_backend_error, is_lock_error}

-- A chain that holds no error of this library.
abbrev pub IsForeign : GoError → Type 0
IsForeign (foreign c m) = Unit
IsForeign (wrapped m e) = IsForeign e
IsForeign (joined d e) = IsForeign d × IsForeign e
IsForeign _ = ⊥

module _ {ℓ} {A : Type ℓ} (target : GoError → Option A) where
  -- A target that takes no foreign, wrapped or joined error finds nothing in a foreign chain.
  find_as-IsForeign :
      ((c : Foreign) (m : String) → target (foreign c m) ≡ none)
      → ((m : String) (e : GoError) → target (wrapped m e) ≡ none)
      → ((d e : GoError) → target (joined d e) ≡ none)
      → (e : GoError) → IsForeign e
      → find_as target e ≡ none
  unfolding find_as
  find_as-IsForeign f w j (foreign c m) h = f c m
  find_as-IsForeign f w j (wrapped m e) h = ground (arith, w m e, find_as-IsForeign f w j e h)
  find_as-IsForeign f w j (joined d e) h =
      ground (arith, j d e, find_as-IsForeign f w j d h.0, find_as-IsForeign f w j e h.1)
  find_as-IsForeign f w j _ h = absurd h

-- `KindOf` looks through what only wraps: `Unclassified`, and `fmt.Errorf` with %w.
pub kind_of_wrapped :
    (m : String) (e : GoError)
    → (kind_of (unclassified e) ≡ kind_of e) × (kind_of (wrapped m e) ≡ kind_of e)
unfolding kind_of find_as
kind_of_wrapped m e = (refl, refl)

kind_of-stack_not_found : (n : String) → kind_of (stack_not_found n) ≡ ErrorKind.stack_not_found
unfolding kind_of find_as
kind_of-stack_not_found n = refl

kind_of-stack_exists : (n : String) → kind_of (stack_exists n) ≡ ErrorKind.stack_exists
unfolding kind_of find_as
kind_of-stack_exists n = refl

-- No target of `KindOf` takes a foreign, wrapped or joined error.
nothing_found :
    (e : GoError)
    → IsForeign e
    → (find_as as_invalid e ≡ none)
      × (find_as as_plan e ≡ none)
      × (find_as as_resource_op e ≡ none)
      × (find_as as_program e ≡ none)
      × (find_as as_concurrent e ≡ none)
      × (find_as as_not_found e ≡ none)
      × (find_as as_exists e ≡ none)
      × (find_as as_pending e ≡ none)
      × (find_as as_cancelled e ≡ none)
      × (find_as as_unsupported e ≡ none)
nothing_found e h = (
  find_as-IsForeign as_invalid (λ c m. refl) (λ m d. refl) (λ c d. refl) e h,
  find_as-IsForeign as_plan (λ c m. refl) (λ m d. refl) (λ c d. refl) e h,
  find_as-IsForeign as_resource_op (λ c m. refl) (λ m d. refl) (λ c d. refl) e h,
  find_as-IsForeign as_program (λ c m. refl) (λ m d. refl) (λ c d. refl) e h,
  find_as-IsForeign as_concurrent (λ c m. refl) (λ m d. refl) (λ c d. refl) e h,
  find_as-IsForeign as_not_found (λ c m. refl) (λ m d. refl) (λ c d. refl) e h,
  find_as-IsForeign as_exists (λ c m. refl) (λ m d. refl) (λ c d. refl) e h,
  find_as-IsForeign as_pending (λ c m. refl) (λ m d. refl) (λ c d. refl) e h,
  find_as-IsForeign as_cancelled (λ c m. refl) (λ m d. refl) (λ c d. refl) e h,
  find_as-IsForeign as_unsupported (λ c m. refl) (λ m d. refl) (λ c d. refl) e h,
)

pub kind_of-IsForeign : (e : GoError) → IsForeign e → kind_of e ≡ ErrorKind.unclassified
unfolding kind_of
kind_of-IsForeign e h =
    let n = nothing_found e h in rw (n.0, n.1, n.2, n.3, n.4, n.5, n.6, n.7, n.8, n.9)

pub kind_of-concurrent_update :
    (e : GoError) → IsForeign e → kind_of (concurrent_update e) ≡ ErrorKind.concurrent_update
unfolding kind_of find_as
kind_of-concurrent_update e h = let n = nothing_found e h in rw (n.0, n.1, n.2, n.3)

-- An error from a backend package, whatever wraps it, is classified by what its chain holds: a
-- missing stack, then an existing one, then a conflicting update or the text of a lock, and
-- `unclassified` otherwise; `KindOf` of the result reads that classification back.
pub kind_of-classify_backend_error :
    (name : String) (e : GoError)
    → IsForeign e
    → kind_of (classify_backend_error name e) ≡ (
        if has_foreign Foreign.backend_stack_not_found e
        then ErrorKind.stack_not_found
        else if has_foreign Foreign.backend_stack_exists e
        then ErrorKind.stack_exists
        else if has_foreign Foreign.conflicting_update e || is_lock_error e
        then ErrorKind.concurrent_update
        else ErrorKind.unclassified)
unfolding classify_backend_error
kind_of-classify_backend_error name e h = ground (
  arith,
  kind_of-concurrent_update e h,
  kind_of-IsForeign e h,
  (kind_of_wrapped "" e).0,
  kind_of-stack_not_found name,
  kind_of-stack_exists name,
)
