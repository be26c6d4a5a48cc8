-- ===== src/Secrets.antt =====
-- engine/crypto.go: the secrets managers that a handle encrypts with, and those that a checkpoint's
-- state is read with. A pointer to the project file is the project file before and after.
pub mod Salt
pub mod State
use pulumi_engine.Prelude.{
  String, Bool, true, false, not, ◌&&◌, ◌==◌, [], ◌∷◌, Option, none, some, if◌then◌else◌,
}
use pulumi_engine.Text.{concat, quote}
use pulumi_engine.Errors.{Foreign, GoError, invalid, wrapped, plain_error, has_foreign}
use pulumi_engine.Errors.Fallible.{Fallible, ok, err, ◌>>=◌, map_err}
use pulumi_engine.Spec.{SecretsSpec, has_passphrase, is_cloud_secrets_provider}

-- `workspace.ProjectStack`, as far as key material goes
pub record ProjectStack : Type 0 where
  pub encryption_salt : String
  pub secrets_provider : String
  pub encrypted_key : String

-- `apitype.SecretsProvidersV1`
pub record SecretsProviders : Type 0 where
  pub type : String
  pub state : String

-- Pulumi's managers and the names of their types, the checkpoint, and the decoding of JSON.
pub record SecretsApi : Type 1 where
  -- `passphrase.Type`, `service.Type`, `cloud.Type` and `b64.Type`
  pub passphrase_type : String
  pub service_type : String
  pub cloud_type : String
  pub b64_type : String
  pub Manager : Type 0
  -- `upstream.VerifyPassphrase`: the error, if any
  pub verify : String → String → Option GoError
  -- `passphrase.GetPassphraseSecretsManager` and `NewPassphraseSecretsManager`
  pub get_manager : String → String → Fallible Manager
  pub new_manager : String → Fallible (String × Manager)
  -- `service.NewServiceSecretsManagerFromState`, `cloud.NewCloudSecretsManagerFromState`
  pub service_from_state : String → Fallible Manager
  pub cloud_from_state : String → Fallible Manager
  pub base64 : Manager
  -- `stack.NewBatchingCachingSecretsManager`
  pub caching : Manager → Manager
  -- `Stack.DefaultSecretManager` and `cloud.NewCloudSecretsManager`, which may write the file's
  -- key material
  pub default_manager : ProjectStack → Fallible Manager × ProjectStack
  pub new_cloud : ProjectStack → String → Fallible Manager × ProjectStack
  -- `backend.ExportStackDeployment`: the deployment's JSON, none where there is none
  pub export : Fallible (Option String)
  -- `json.Unmarshal` of a deployment's secrets providers, of the salt of a passphrase manager's
  -- state, and of the URL of a cloud manager's
  pub decode_providers : String → Fallible (Option SecretsProviders)
  pub decode_salt : String → Fallible String
  pub decode_url : String → Fallible String

abbrev pub wrong_passphrase : GoError
wrong_passphrase = invalid "secrets.passphrase" "incorrect passphrase for this stack"

-- `if errors.Is(err, ErrIncorrectPassphrase) { return InvalidSpec{...} }`
unfoldable pub explain : GoError → GoError
explain e = if has_foreign Foreign.incorrect_passphrase e then wrong_passphrase else e

module _ (api : SecretsApi) where
  open api use {
    passphrase_type, service_type, cloud_type, b64_type, Manager, verify, get_manager, new_manager,
    service_from_state, cloud_from_state, base64, caching, default_manager, new_cloud, export,
    decode_providers, decode_salt, decode_url,
  }

  -- `passphraseManager`
  unfoldable pub passphrase_manager : String → String → Fallible Manager
  passphrase_manager phrase salt = elim (verify phrase salt) [
    | some e ↦ err e
    | none ↦ get_manager phrase salt
  ]

  -- `switch ty` of `OfType`, none for a manager of no known type
  state_manager : SecretsSpec → String → String → Option (Fallible Manager)
  state_manager p ty state =
      if ty == service_type
      then some (service_from_state state)
      else if ty == cloud_type
      then some (cloud_from_state state)
      else if ty == b64_type
      then some (ok base64)
      else none

  constructing : String → GoError → GoError
  constructing ty e = wrapped (concat ("constructing secrets manager of type " ∷ quote ty ∷ [])) e

  -- the error under its heading, and the manager behind a cache
  wrap_manager : String → Fallible Manager → Fallible Manager
  wrap_manager ty made = do sm ← map_err (constructing ty) made; ok (caching sm)

  -- the passphrase manager of a state, with the errors that `OfType` returns as they are
  pub passphrase_of_state : SecretsSpec → String → Fallible Manager
  passphrase_of_state p state =
      if not (has_passphrase p)
      then err
          (plain_error "the checkpoint is encrypted with a passphrase but the spec provides none")
      else elim (decode_salt state) [
        | err e ↦ err (wrapped "decoding passphrase secrets state" e)
        | ok salt ↦ elim (passphrase_manager p.passphrase salt) [
          | ok sm ↦ ok (caching sm)
          | err e ↦
              if has_foreign Foreign.incorrect_passphrase e
              then err wrong_passphrase
              else err (constructing passphrase_type e)
        ]
      ]

  -- `specSecretsProvider.OfType`
  unfoldable pub of_type : SecretsSpec → String → String → Fallible Manager
  unfolding state_manager wrap_manager passphrase_of_state constructing
  of_type p ty state =
      if ty == passphrase_type
      then passphrase_of_state p state
      else elim (state_manager p ty state) [
        | none ↦ err (plain_error (concat ("no known secrets provider for type " ∷ quote ty ∷ [])))
        | some made ↦ wrap_manager ty made
      ]

  -- the secrets providers of a deployment that may be missing or empty
  providers_of : Option String → Fallible (Option SecretsProviders)
  providers_of none = ok none
  providers_of (some json) =
      if json == ""
      then ok none
      else map_err (wrapped "decoding checkpoint") (decode_providers json)

  -- `checkpointSecrets`
  unfoldable pub checkpoint_secrets : Fallible (Option SecretsProviders)
  unfolding providers_of
  checkpoint_secrets = export >>= providers_of

  -- the salt in a checkpoint's passphrase state, empty where there is none that decodes
  salt_in : Option SecretsProviders → String
  salt_in none = ""
  salt_in (some cs) =
      if cs.type == passphrase_type
      then elim (decode_salt cs.state) [ ok salt ↦ salt | err e ↦ "" ]
      else ""

  -- the salt that the stack has: the project file's, or else the checkpoint's
  unfoldable pub existing_salt : ProjectStack → Fallible String
  unfolding salt_in
  existing_salt ps =
      if not (ps.encryption_salt == "")
      then ok ps.encryption_salt
      else do cs ← checkpoint_secrets; ok (salt_in cs)

  -- a new salt for a stack that has none
  pub fresh_salt : SecretsSpec → ProjectStack → Fallible Manager × ProjectStack
  fresh_salt spec ps = elim (new_manager spec.passphrase) [
    | err e ↦ (err e, ps)
    | ok (salt, sm) ↦ (ok sm, record ps { encryption_salt = salt })
  ]

  -- the manager of a salt that the stack has
  pub kept_salt : SecretsSpec → ProjectStack → String → Fallible Manager × ProjectStack
  kept_salt spec ps salt = elim (passphrase_manager spec.passphrase salt) [
    | err e ↦ (err (explain e), ps)
    | ok sm ↦ (ok sm, record ps { encryption_salt = salt })
  ]

  -- `case spec.Provider == secretsPassphrase`
  pub with_passphrase : SecretsSpec → ProjectStack → Fallible Manager × ProjectStack
  unfolding fresh_salt kept_salt
  with_passphrase spec ps = elim (existing_salt ps) [
    | err e ↦ (err e, ps)
    | ok salt ↦ if not (salt == "") then kept_salt spec ps salt else fresh_salt spec ps
  ]

  -- whether a checkpoint's state is a cloud manager's of this URL, and then the state
  cloud_state : String → Option SecretsProviders → Option String
  cloud_state url none = none
  cloud_state url (some cs) =
      if cs.type == cloud_type
      then elim (decode_url cs.state) [
        | ok found ↦ if found == url then some cs.state else none
        | err e ↦ none
      ]
      else none

  -- the cloud manager of a state that a checkpoint has, or a new one
  cloud_of_state : String → ProjectStack → Option String → Fallible Manager × ProjectStack
  cloud_of_state url ps none = new_cloud ps url
  cloud_of_state url ps (some state) = elim (cloud_from_state state) [
    | err e ↦ (err e, ps)
    | ok sm ↦ (ok sm, record ps { secrets_provider = url })
  ]

  -- `case isCloudSecretsProvider(spec.Provider)`
  pub with_cloud : String → ProjectStack → Fallible Manager × ProjectStack
  unfolding cloud_state cloud_of_state
  with_cloud url ps =
      if ps.secrets_provider == url && not (ps.encrypted_key == "")
      then new_cloud ps url
      else elim checkpoint_secrets [
        | err e ↦ (err e, ps)
        | ok cs ↦ cloud_of_state url ps (cloud_state url cs)
      ]

  -- `newSecretsManager`: the manager or an error, and the project file after it
  unfoldable pub new_secrets_manager : SecretsSpec → ProjectStack → Fallible Manager × ProjectStack
  unfolding with_passphrase with_cloud
  new_secrets_manager spec ps =
      if spec.provider == "passphrase"
      then with_passphrase spec ps
      else if is_cloud_secrets_provider spec.provider
      then with_cloud spec.provider ps
      else if spec.provider == "service"
      then default_manager ps
      else if spec.provider == "b64"
      then (ok base64, ps)
      else (
        err (
            invalid "secrets.provider"
              (concat ("unknown secrets provider " ∷ quote spec.provider ∷ []))),
        ps,
      )
