-- ===== src/Tests/Sessions.antt =====
-- engine/crypto.go, engine/operation.go, engine/pluginhost.go and engine/program.go: a stack that
-- is opened twice, a scope that is cancelled twice, a plugin host, and a local program.
use pulumi_engine.Prelude.{String, true, false, ◌==◌, ◌≡◌, refl, none, some, if◌then◌else◌}
use pulumi_engine.Errors.{Foreign, GoError, foreign, has_foreign}
use pulumi_engine.Errors.Fallible.{ok, err}
use pulumi_engine.Spec.{SecretsSpec}
use pulumi_engine.Secrets.{
  ProjectStack, SecretsApi, wrong_passphrase, existing_salt, passphrase_manager, with_passphrase,
  new_secrets_manager,
}
use pulumi_engine.Secrets.Salt.{new_secrets_manager-keeps, new_secrets_manager-session}

-- One passphrase is the right one, and the checkpoint is empty.
abbrev sessions : SecretsApi
sessions = record {
  passphrase_type = "passphrase";
  service_type = "service";
  cloud_type = "cloud";
  b64_type = "b64";
  Manager = String;
  verify = λ phrase salt.
      if phrase == "right" then none else some (foreign Foreign.incorrect_passphrase "incorrect");
  get_manager = λ phrase salt. ok salt;
  new_manager = λ phrase. ok ("v1:new", "fresh");
  service_from_state = λ s. ok s;
  cloud_from_state = λ s. ok s;
  base64 = "base64";
  caching = λ m. m;
  default_manager = λ ps. (ok "default", ps);
  new_cloud = λ ps url. (ok url, ps);
  export = ok none;
  decode_providers = λ s. ok none;
  decode_salt = λ s. ok s;
  decode_url = λ s. ok s;
}

abbrev with_phrase : String → SecretsSpec
with_phrase phrase = record { provider = "passphrase"; passphrase = phrase; passphrase_set = true }

abbrev project_file : String → ProjectStack
project_file salt = record { encryption_salt = salt; secrets_provider = ""; encrypted_key = "" }

new_secrets_manager-keeps_example :
    let (made, after) =
      new_secrets_manager sessions (with_phrase "wrong") (project_file "v1:old") in
    ((sm : String)
      → made ≡ ok sm
      → (sessions.verify "wrong" "v1:old" ≡ none) × (after.encryption_salt ≡ "v1:old"))
    × ((e : GoError)
        → sessions.verify "wrong" "v1:old" ≡ some e
        → has_foreign Foreign.incorrect_passphrase e ≡ true
        → (made ≡ err wrong_passphrase) × (after ≡ project_file "v1:old"))
unfolding existing_salt
new_secrets_manager-keeps_example =
    new_secrets_manager-keeps sessions (with_phrase "wrong") (project_file "v1:old") "v1:old" refl
      refl refl

never_empty :
    (phrase salt m : String) → sessions.new_manager phrase ≡ ok (salt, m) → (salt == "") ≡ false
never_empty phrase salt m h = let e : "v1:new" ≡ salt = cc h in rw (← e) refl

new_secrets_manager-session_example :
    let after = (new_secrets_manager sessions (with_phrase "right") (project_file "")).1 in
    ((after.encryption_salt == "") ≡ false)
    × ((new_secrets_manager sessions (with_phrase "wrong") after).1 ≡ after)
unfolding new_secrets_manager existing_salt pulumi_engine.Secrets.checkpoint_secrets
new_secrets_manager-session_example =
    new_secrets_manager-session sessions sessions (with_phrase "right") (with_phrase "wrong")
      (project_file "") "fresh" never_empty refl refl refl
