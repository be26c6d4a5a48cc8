-- ===== src/Secrets/State.antt =====
-- engine/crypto.go: a manager of a checkpoint's passphrase state.
use pulumi_engine.Prelude.{String, true, ◌≡◌, refl, arith, eq_refl, none, Bool-cases, inl, inr}
use pulumi_engine.Errors.Fallible.{ok, Fallible-cases}
use pulumi_engine.Spec.{SecretsSpec, has_passphrase}
use pulumi_engine.Secrets.{SecretsApi, passphrase_manager, of_type, passphrase_of_state}
use pulumi_engine.Secrets.Salt.{passphrase_manager-eq-ok}

module _ (api : SecretsApi) (spec : SecretsSpec) (state : String) where
  of_type_passphrase :
      of_type api spec api.passphrase_type state ≡ passphrase_of_state api spec state
  unfolding of_type
  of_type_passphrase = rw (eq_refl api.passphrase_type) refl

  salt_verified :
      (salt : String) (sm : api.Manager)
      → has_passphrase spec ≡ true
      → api.decode_salt state ≡ ok salt
      → passphrase_of_state api spec state ≡ ok sm
      → api.verify spec.passphrase salt ≡ none
  unfolding passphrase_of_state
  salt_verified salt sm p d h =
      elim (Fallible-cases (passphrase_manager api spec.passphrase salt)) [
        | inl (m, e) ↦ passphrase_manager-eq-ok api spec.passphrase salt m e
        | inr (x, e) ↦ absurd (ground (arith, h, p, d, e))
      ]

  passphrase_of_state-eq-ok :
      (sm : api.Manager)
      → passphrase_of_state api spec state ≡ ok sm
      → (has_passphrase spec ≡ true) × ((salt : String) × (api.decode_salt state ≡ ok salt))
  unfolding passphrase_of_state
  passphrase_of_state-eq-ok sm h = elim (Bool-cases (has_passphrase spec)) [
    | inr n ↦ absurd (cc (rw (passphrase_of_state, n) at h))
    | inl y ↦ elim (Fallible-cases (api.decode_salt state)) [
      | inl (salt, e) ↦ (y, (salt, e))
      | inr (x, e) ↦ absurd (cc (rw (passphrase_of_state, y, e) at h))
    ]
  ]

-- `OfType` gives a manager of a passphrase state only where the spec has a passphrase, the state
-- holds a salt, and the passphrase was verified against it.
pub of_type-verified :
    (api : SecretsApi) (spec : SecretsSpec) (state : String) (sm : api.Manager)
    → of_type api spec api.passphrase_type state ≡ ok sm
    → (has_passphrase spec ≡ true)
      × ((salt : String) × (api.decode_salt state ≡ ok salt)
          × (api.verify spec.passphrase salt ≡ none))
of_type-verified api spec state sm h =
    let made = rw (of_type_passphrase api spec state) at h in
    let (given, (salt, decoded)) = passphrase_of_state-eq-ok api spec state sm made in
    (given, (salt, decoded, salt_verified api spec state salt sm given decoded made))
