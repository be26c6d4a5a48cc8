-- ===== src/Secrets/Salt.antt =====
-- engine/crypto.go: a stack keeps its salt, and a passphrase is checked against it.
use pulumi_engine.Prelude.{
  String, true, false, ◌==◌, ◌≡◌, refl, ap, ◌∙◌, arith, some, none, Bool-cases, inl, inr,
}
use pulumi_engine.Errors.{Foreign, GoError, has_foreign}
use pulumi_engine.Errors.Fallible.{ok, err, Fallible-cases}
use pulumi_engine.Spec.{SecretsSpec}
use pulumi_engine.Secrets.{
  ProjectStack, SecretsApi, wrong_passphrase, explain, passphrase_manager, existing_salt, kept_salt,
  fresh_salt, with_passphrase, new_secrets_manager,
}

module _ (api : SecretsApi) where
  open api use {Manager, verify, get_manager, new_manager, decode_salt}

  -- A manager of a salt is given only where the passphrase was verified against that salt.
  pub passphrase_manager-eq-ok :
      (phrase salt : String) (sm : Manager)
      → passphrase_manager api phrase salt ≡ ok sm
      → verify phrase salt ≡ none
  unfolding passphrase_manager
  passphrase_manager-eq-ok phrase salt sm h = ground arith

  passphrase_manager_refused :
      (phrase salt : String) (e : GoError)
      → verify phrase salt ≡ some e
      → passphrase_manager api phrase salt ≡ err e
  unfolding passphrase_manager
  passphrase_manager_refused phrase salt e h = rw (h, passphrase_manager) refl

  new_secrets_manager_passphrase :
      (spec : SecretsSpec) (ps : ProjectStack)
      → (spec.provider == "passphrase") ≡ true
      → new_secrets_manager api spec ps ≡ with_passphrase api spec ps
  unfolding new_secrets_manager
  new_secrets_manager_passphrase spec ps h = rw h refl

  new_secrets_manager-eq-kept_salt :
      (spec : SecretsSpec) (ps : ProjectStack) (salt : String)
      → (spec.provider == "passphrase") ≡ true
      → existing_salt api ps ≡ ok salt
      → (salt == "") ≡ false
      → new_secrets_manager api spec ps ≡ kept_salt api spec ps salt
  unfolding with_passphrase
  new_secrets_manager-eq-kept_salt spec ps salt p h n =
      new_secrets_manager_passphrase spec ps p ∙ rw (with_passphrase, h, n) refl

  kept_salt-eq-ok :
      (spec : SecretsSpec) (ps : ProjectStack) (salt : String) (sm : Manager)
      → (kept_salt api spec ps salt).0 ≡ ok sm
      → (verify spec.passphrase salt ≡ none)
        × ((kept_salt api spec ps salt).1.encryption_salt ≡ salt)
  unfolding kept_salt
  kept_salt-eq-ok spec ps salt sm h =
      elim (Fallible-cases (passphrase_manager api spec.passphrase salt)) [
        | inl (m, e) ↦ (passphrase_manager-eq-ok spec.passphrase salt m e, rw (kept_salt, e) refl)
        | inr (x, e) ↦ absurd (ground arith)
      ]

  kept_salt_refused :
      (spec : SecretsSpec) (ps : ProjectStack) (salt : String) (e : GoError)
      → verify spec.passphrase salt ≡ some e
      → has_foreign Foreign.incorrect_passphrase e ≡ true
      → kept_salt api spec ps salt ≡ (err wrong_passphrase, ps)
  unfolding kept_salt explain
  kept_salt_refused spec ps salt e v w =
      rw (kept_salt, passphrase_manager_refused spec.passphrase salt e v, w) refl

  -- For a stack that has a salt, in its project file or else in its checkpoint, and the passphrase
  -- provider: a manager is returned only where the passphrase was verified against that salt, and
  -- the project file then has that salt; an incorrect passphrase is an invalid spec and leaves the
  -- project file as it was.
  pub new_secrets_manager-keeps :
      (spec : SecretsSpec) (ps : ProjectStack) (salt : String)
      → (spec.provider == "passphrase") ≡ true
      → existing_salt api ps ≡ ok salt
      → (salt == "") ≡ false
      → let (made, after) = new_secrets_manager api spec ps in
        ((sm : Manager)
          → made ≡ ok sm
          → (verify spec.passphrase salt ≡ none) × (after.encryption_salt ≡ salt))
        × ((e : GoError)
            → verify spec.passphrase salt ≡ some e
            → has_foreign Foreign.incorrect_passphrase e ≡ true
            → (made ≡ err wrong_passphrase) × (after ≡ ps))
  new_secrets_manager-keeps spec ps salt p h n =
      rw (new_secrets_manager-eq-kept_salt spec ps salt p h n) (
        kept_salt-eq-ok spec ps salt,
        λ e v w. (
          ap (λ x. x.0) (kept_salt_refused spec ps salt e v w),
          ap (λ x. x.1) (kept_salt_refused spec ps salt e v w),
        ),
      )

  kept_salt-file :
      (spec : SecretsSpec) (ps : ProjectStack) → (kept_salt api spec ps ps.encryption_salt).1 ≡ ps
  unfolding kept_salt
  kept_salt-file spec ps =
      elim (Fallible-cases (passphrase_manager api spec.passphrase ps.encryption_salt)) [
        | inl (m, e) ↦ rw (kept_salt, e) refl
        | inr (x, e) ↦ rw (kept_salt, e) refl
      ]

  existing_salt-file :
      (ps : ProjectStack)
      → (ps.encryption_salt == "") ≡ false
      → existing_salt api ps ≡ ok ps.encryption_salt
  unfolding existing_salt
  existing_salt-file ps n = rw n refl

  fresh_salt-salt :
      (spec : SecretsSpec) (ps : ProjectStack) (sm : Manager)
      → ((phrase salt : String) (m : Manager)
          → new_manager phrase ≡ ok (salt, m)
          → (salt == "") ≡ false)
      → (fresh_salt api spec ps).0 ≡ ok sm
      → ((fresh_salt api spec ps).1.encryption_salt == "") ≡ false
  unfolding fresh_salt
  fresh_salt-salt spec ps sm law h = elim (Fallible-cases (new_manager spec.passphrase)) [
    | inl ((salt, m), e) ↦ rw (fresh_salt, e) (law spec.passphrase salt m e)
    | inr (x, e) ↦ absurd (ground arith)
  ]

  -- The project file after a session of the passphrase provider, on its failure too.
  with_passphrase-file :
      (spec : SecretsSpec) (ps : ProjectStack)
      → (ps.encryption_salt == "") ≡ false
      → (with_passphrase api spec ps).1 ≡ ps
  unfolding with_passphrase
  with_passphrase-file spec ps n =
      rw (with_passphrase, existing_salt-file ps n, n) (kept_salt-file spec ps)

  -- A salt that a session leaves in the project file is not empty, where a new salt never is.
  with_passphrase-salt :
      (spec : SecretsSpec) (ps : ProjectStack) (sm : Manager)
      → ((phrase salt : String) (m : Manager)
          → new_manager phrase ≡ ok (salt, m)
          → (salt == "") ≡ false)
      → (with_passphrase api spec ps).0 ≡ ok sm
      → ((with_passphrase api spec ps).1.encryption_salt == "") ≡ false
  unfolding with_passphrase
  with_passphrase-salt spec ps sm law h = elim (Fallible-cases (existing_salt api ps)) [
    | inr (x, e) ↦ absurd (cc (rw (with_passphrase, e) at h))
    | inl (salt, e) ↦ elim (Bool-cases (salt == "")) [
      | inl z ↦
          rw (with_passphrase, e, z)
            (fresh_salt-salt spec ps sm law (rw (with_passphrase, e, z) at h))
      | inr n ↦
          let kept = kept_salt-eq-ok spec ps salt sm (rw (with_passphrase, e, n) at h) in
          rw (with_passphrase, e, n) (ap (λ t. t == "") kept.1 ∙ n)
    ]
  ]

-- Once a session with the passphrase provider has a manager, its project file has a salt, and a
-- later session with that provider leaves the project file as it is, whatever its passphrase, its
-- checkpoint and its outcome. That is where Pulumi never makes an empty salt.
pub new_secrets_manager-session :
    (first later : SecretsApi) (spec again : SecretsSpec) (ps : ProjectStack) (sm : first.Manager)
    → ((phrase salt : String) (m : first.Manager)
        → first.new_manager phrase ≡ ok (salt, m)
        → (salt == "") ≡ false)
    → (spec.provider == "passphrase") ≡ true
    → (again.provider == "passphrase") ≡ true
    → (new_secrets_manager first spec ps).0 ≡ ok sm
    → let after = (new_secrets_manager first spec ps).1 in
      ((after.encryption_salt == "") ≡ false) × ((new_secrets_manager later again after).1 ≡ after)
new_secrets_manager-session first later spec again ps sm law p q h =
    let same = new_secrets_manager_passphrase first spec ps p in
    let there : ((new_secrets_manager first spec ps).1.encryption_salt == "") ≡ false =
      rw same (with_passphrase-salt first spec ps sm law (rw same at h)) in
    (
      there,
      ap (λ x. x.1)
            (new_secrets_manager_passphrase later again (new_secrets_manager first spec ps).1 q)
          ∙ with_passphrase-file later again (new_secrets_manager first spec ps).1 there,
    )
