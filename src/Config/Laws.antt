-- ===== src/Config/Laws.antt =====
-- engine/stack.go: what Pulumi's packages promise of configurations, and the stored values.
use mathlib.Core.Path.{subst}
use pulumi_engine.Prelude.{
  String, true, false, ◌==◌, ◌≡◌, refl, [], ◌∷◌, none, some, if◌then◌else◌, Bool-cases,
  Option-cases, inl, inr, ◌∙◌,
}
use pulumi_engine.Text.{concat}
use pulumi_engine.Errors.{invalid}
use pulumi_engine.Errors.Message.{error_text}
use pulumi_engine.Errors.Fallible.{ok, ◌>>=◌, map_err, bind_elim, ok_inj, map_err-eq-ok}
use pulumi_engine.Spec.{ConfigValue}
use pulumi_engine.Config.{
  ConfigApi, Stack, project_stack_path, save_project_stack, parse_config_key, encode_value,
  encrypted, decode_value, get_config,
}

-- What Pulumi's packages document of a configuration: the map is a map.
pub record MapLaws (api : ConfigApi) : Type 0 where
  pub get_set :
      (m n : api.Map) (k j : String) (v : api.Value)
      → api.set m k v ≡ ok n
      → api.get n j ≡ (if k == j then ok (some v) else api.get m j)
  pub get_remove :
      (m n : api.Map) (k j : String)
      → api.remove m k ≡ ok n
      → api.get n j ≡ (if k == j then ok none else api.get m j)

-- And of values that are no objects: a value keeps how it was built, and a crypter decrypts what
-- it encrypted. Of objects, whose nested values are encrypted one by one, nothing is taken.
pub record ConfigLaws (api : ConfigApi) : Type 0 where
  pub maps : MapLaws api
  pub reveal_plain : (t : String) → api.reveal api.decrypt (api.plain t) ≡ ok t
  pub reveal_secure : (t : String) → api.reveal api.decrypt (api.secure t) ≡ api.decrypt t
  pub plain_flags :
      (t : String) → (api.is_secure (api.plain t) ≡ false) × (api.is_object (api.plain t) ≡ false)
  pub secure_flags :
      (t : String) → (api.is_secure (api.secure t) ≡ true) × (api.is_object (api.secure t) ≡ false)
  pub decrypt_encrypt : (t c : String) → api.encrypt t ≡ ok c → api.decrypt c ≡ ok t

module _ (api : ConfigApi) where
  -- A stored value reads back as the value that was encoded.
  unfoldable pub Encodes : api.Value → ConfigValue → Type 0
  Encodes stored v =
      (api.reveal api.decrypt stored ≡ ok v.value)
      × (api.is_secure stored ≡ v.secret)
      × (api.is_object stored ≡ v.object)

  pub decode_value-Encodes :
      (key : String) (v : ConfigValue) (stored : api.Value)
      → Encodes stored v
      → decode_value api key (some stored) ≡ ok (some v)
  unfolding decode_value Encodes
  decode_value-Encodes key v stored (text, secret, object) = rw (text, secret, object) refl

  pub get_config_at :
      (s : Stack api) (key i : String)
      → parse_config_key api s key ≡ ok i
      → get_config api s key ≡ (
          map_err (λ e. invalid (concat ("config." ∷ key ∷ [])) (error_text e)) (api.get s.config i)
          >>= decode_value api key)
  unfolding get_config
  get_config_at s key i h = rw (h) refl

  pub get_config_same :
      (s t : Stack api) (key : String)
      → t.spec ≡ s.spec
      → t.config ≡ s.config
      → get_config api t key ≡ get_config api s key
  unfolding get_config parse_config_key
  get_config_same s t key same_spec same_config = rw (same_spec, same_config) refl

  pub save_project_stack-config :
      (s : Stack api)
      → ((save_project_stack api s).1.spec ≡ s.spec)
        × ((save_project_stack api s).1.config ≡ s.config)
        × ((save_project_stack api s).1.ref_name ≡ s.ref_name)
  unfolding save_project_stack
  save_project_stack-config s = elim (Bool-cases (project_stack_path api s.spec s.ref_name == "")) [
    | inl e ↦ rw e (refl, refl, refl)
    | inr e ↦ elim (Option-cases (api.save (project_stack_path api s.spec s.ref_name) s.config)) [
      | inl n ↦ rw (e, n) (refl, refl, refl)
      | inr (x, n) ↦ rw (e, n) (refl, refl, refl)
    ]
  ]

  pub parse_config_key_same :
      (s t : Stack api) (key : String)
      → t.spec ≡ s.spec
      → parse_config_key api t key ≡ parse_config_key api s key
  unfolding parse_config_key
  parse_config_key_same s t key h = rw h refl

module _ (api : ConfigApi) (laws : ConfigLaws api) where
  encrypted-Encodes :
      (text : String) (v : ConfigValue)
      → v.secret ≡ true
      → v.object ≡ false
      → api.encrypt v.value ≡ ok text
      → Encodes api (api.secure text) v
  unfolding Encodes
  encrypted-Encodes text v secret flat enc =
      let plain = laws.decrypt_encrypt v.value text enc in
      rw (secret, flat)
        (laws.reveal_secure text ∙ plain, (laws.secure_flags text).0, (laws.secure_flags text).1)

  stored-Encodes :
      (v : ConfigValue) → v.secret ≡ false → v.object ≡ false → Encodes api (api.plain v.value) v
  unfolding Encodes
  stored-Encodes v clear flat =
      rw (clear, flat)
        (laws.reveal_plain v.value, (laws.plain_flags v.value).0, (laws.plain_flags v.value).1)

  pub encode_value-Encodes :
      (key : String) (v : ConfigValue) (stored : api.Value)
      → v.object ≡ false
      → encode_value api key v ≡ ok stored
      → Encodes api stored v
  unfolding encode_value encrypted
  encode_value-Encodes key v stored flat h = elim (Bool-cases v.secret) [
    | inl secret ↦
        bind_elim (map_err _ (api.encrypt v.value)) _
          (rw (encode_value, encrypted, secret, flat) at h)
          λ text enc kept.
            subst (λ s. Encodes api s v) (ok_inj (api.secure text) stored kept)
              (encrypted-Encodes text v secret flat (map_err-eq-ok _ _ text enc))
    | inr clear ↦
        subst (λ s. Encodes api s v)
          (ok_inj (api.plain v.value) stored (rw (encode_value, clear, flat) at h))
          (stored-Encodes v clear flat)
  ]
