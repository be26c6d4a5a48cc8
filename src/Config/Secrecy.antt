-- ===== src/Config/Secrecy.antt =====
-- engine/stack.go: what `SetConfig` makes of a secret.
use pulumi_engine.Prelude.{String, true, ◌≡◌, refl}
use pulumi_engine.Spec.{ConfigValue}
use pulumi_engine.Config.{ConfigApi, Stack, encode_value, encrypted, set_config_locked, set_config}

module _ (api : ConfigApi) where
  encode_value_ciphertext :
      (key : String) (v w : ConfigValue)
      → v.secret ≡ true
      → w.secret ≡ true
      → v.object ≡ w.object
      → api.encrypt v.value ≡ api.encrypt w.value
      → encode_value api key v ≡ encode_value api key w
  unfolding encode_value encrypted
  encode_value_ciphertext key v w sv sw same cipher = rw (sv, sw, same, cipher) refl

  -- Two secrets that encrypt to the same text, or fail with the same error, lead `SetConfig` to
  -- the same error, the same configuration and the same file: nothing else of their text gets in.
  pub set_config_ciphertext :
      (s : Stack api) (key : String) (v w : ConfigValue)
      → v.secret ≡ true
      → w.secret ≡ true
      → v.object ≡ w.object
      → api.encrypt v.value ≡ api.encrypt w.value
      → set_config api s key v ≡ set_config api s key w
  unfolding set_config set_config_locked
  set_config_ciphertext s key v w sv sw same cipher =
      rw (set_config, set_config_locked, encode_value_ciphertext key v w sv sw same cipher) refl
