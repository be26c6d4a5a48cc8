-- ===== src/Config/Updates.antt =====
-- engine/stack.go: what `GetConfig` returns after `SetConfig` and `RemoveConfig`.
use pulumi_engine.Prelude.{
  String, false, ◌==◌, ◌≡◌, refl, none, some, if◌then◌else◌, Bool-cases, inl, inr, sym, ◌∙◌,
}
use pulumi_engine.Errors.Fallible.{ok, map_err, bind_elim, ok_inj, map_err-eq-ok, Fallible-cases}
use pulumi_engine.Spec.{ConfigValue}
use pulumi_engine.Config.{
  ConfigApi, Stack, save_project_stack, parse_config_key, encode_value, decode_value,
  set_config_locked, set_config, get_config, without_config, remove_config,
}
use pulumi_engine.Config.Laws.{
  MapLaws, ConfigLaws, Encodes, encode_value-Encodes, decode_value-Encodes, get_config_at,
  get_config_same, save_project_stack-config, parse_config_key_same,
}

module _ (api : ConfigApi) where
  pub set_config_locked-spec :
      (s t : Stack api) (key : String) (v : ConfigValue)
      → set_config_locked api s key v ≡ ok t
      → (k : String) × (parse_config_key api s key ≡ ok k)
        × (t.spec ≡ s.spec)
        × (t.ref_name ≡ s.ref_name)
  unfolding set_config_locked
  set_config_locked-spec s t key v h = bind_elim (parse_config_key api s key) _ h λ k pk h1.
      bind_elim (encode_value api key v) _ h1 λ stored coded h2.
        bind_elim (map_err _ (api.set s.config k stored)) _ h2
          λ n written h3. rw (← ok_inj (record s { config = n }) t h3) (k, pk, refl, refl)

module _ (api : ConfigApi) (laws : ConfigLaws api) where
  get_config_written :
      (s : Stack api) (n : api.Map) (key k i : String) (v : ConfigValue) (stored : api.Value)
      → parse_config_key api s key ≡ ok i
      → api.set s.config k stored ≡ ok n
      → Encodes api stored v
      → get_config api (record s { config = n }) key
        ≡ (if k == i then ok (some v) else get_config api s key)
  get_config_written s n key k i v stored hi written encodes =
      let t : Stack api = record s { config = n } in
      let parsed = parse_config_key_same api s t key refl ∙ hi in
      elim (Bool-cases (k == i)) [
        | inl e ↦
            rw
              (
                get_config_at api t key i parsed,
                laws.maps.get_set s.config n k i stored written,
                e,
                decode_value-Encodes api key v stored encodes,
              )
              refl
        | inr e ↦
            rw
              (
                get_config_at api t key i parsed,
                laws.maps.get_set s.config n k i stored written,
                e,
                get_config_at api s key i hi,
              )
              refl
      ]

  pub get_config-set_config_locked :
      (s t : Stack api) (key other k i : String) (v : ConfigValue)
      → v.object ≡ false
      → parse_config_key api s key ≡ ok k
      → parse_config_key api s other ≡ ok i
      → set_config_locked api s key v ≡ ok t
      → get_config api t other ≡ (if k == i then ok (some v) else get_config api s other)
  unfolding set_config_locked
  get_config-set_config_locked s t key other k i v flat hk hi h =
      bind_elim (parse_config_key api s key) _ h λ k0 pk h1.
        bind_elim (encode_value api key v) _ h1 λ stored coded h2.
          bind_elim (map_err _ (api.set s.config k0 stored)) _ h2 λ n written h3.
            let same_key = ok_inj k0 k (sym pk ∙ hk) in
            let same_stack = ok_inj (record s { config = n }) t h3 in
            rw (← same_stack, ← same_key)
              (get_config_written s n other k0 i v stored hi
                (map_err-eq-ok _ (api.set s.config k0 stored) n written)
                (encode_value-Encodes api laws key v stored flat coded))

  set_config-locked :
      (s : Stack api) (key : String) (v : ConfigValue)
      → (set_config api s key v).0 ≡ none
      → (t : Stack api) × (set_config_locked api s key v ≡ ok t)
        × ((set_config api s key v).1 ≡ (save_project_stack api t).1)
  unfolding set_config
  set_config-locked s key v h = elim (Fallible-cases (set_config_locked api s key v)) [
    | inl (t, m) ↦ (t, m, rw (set_config, m) refl)
    | inr (e, m) ↦ let failed : (set_config api s key v).0 ≡ some e = rw (set_config, m) refl in cc
  ]

  -- After `SetConfig` of a value that is no object returned no error, `GetConfig` of any key that
  -- parses gives: the value that was set, with its flags and decrypted, where the two keys address
  -- the same entry; otherwise what it gave before. That is under the laws of Pulumi's packages.
  pub get_config-set_config :
      (s : Stack api) (key other k i : String) (v : ConfigValue)
      → v.object ≡ false
      → parse_config_key api s key ≡ ok k
      → parse_config_key api s other ≡ ok i
      → (set_config api s key v).0 ≡ none
      → get_config api (set_config api s key v).1 other
        ≡ (if k == i then ok (some v) else get_config api s other)
  get_config-set_config s key other k i v flat hk hi h =
      let (t, m, saved) = set_config-locked s key v h in
      let (same_spec, same_config, _) = save_project_stack-config api t in
      rw saved (
        get_config_same api t (save_project_stack api t).1 other same_spec same_config
        ∙ get_config-set_config_locked s t key other k i v flat hk hi m)

module _ (api : ConfigApi) (laws : MapLaws api) where
  get_config_removed :
      (s : Stack api) (n : api.Map) (key k i : String)
      → parse_config_key api s key ≡ ok i
      → api.remove s.config k ≡ ok n
      → get_config api (record s { config = n }) key
        ≡ (if k == i then ok none else get_config api s key)
  unfolding decode_value
  get_config_removed s n key k i hi removed =
      let t : Stack api = record s { config = n } in
      let parsed = parse_config_key_same api s t key refl ∙ hi in
      elim (Bool-cases (k == i)) [
        | inl e ↦
            rw (get_config_at api t key i parsed, laws.get_remove s.config n k i removed, e) refl
        | inr e ↦
            rw
              (
                get_config_at api t key i parsed,
                laws.get_remove s.config n k i removed,
                e,
                get_config_at api s key i hi,
              )
              refl
      ]

  get_config-without_config :
      (s t : Stack api) (key other k i : String)
      → parse_config_key api s key ≡ ok k
      → parse_config_key api s other ≡ ok i
      → without_config api s key ≡ ok t
      → get_config api t other ≡ (if k == i then ok none else get_config api s other)
  unfolding without_config
  get_config-without_config s t key other k i hk hi h =
      bind_elim (parse_config_key api s key) _ h λ k0 pk h1.
        bind_elim (map_err _ (api.remove s.config k0)) _ h1 λ n removed h2.
          let same_key = ok_inj k0 k (sym pk ∙ hk) in
          let same_stack = ok_inj (record s { config = n }) t h2 in
          rw (← same_stack, ← same_key)
            (get_config_removed s n other k0 i hi
              (map_err-eq-ok _ (api.remove s.config k0) n removed))

  -- After `RemoveConfig` returned no error, `GetConfig` finds nothing under a key of the removed
  -- entry, and under any other key that parses what it gave before. That is where Pulumi's
  -- configuration is a map.
  pub get_config-remove_config :
      (s : Stack api) (key other k i : String)
      → parse_config_key api s key ≡ ok k
      → parse_config_key api s other ≡ ok i
      → (remove_config api s key).0 ≡ none
      → get_config api (remove_config api s key).1 other
        ≡ (if k == i then ok none else get_config api s other)
  unfolding remove_config
  get_config-remove_config s key other k i hk hi h =
      elim (Fallible-cases (without_config api s key)) [
        | inl (t, m) ↦
            let (same_spec, same_config, _) = save_project_stack-config api t in
            rw (remove_config, m)
              (get_config_same api t (save_project_stack api t).1 other same_spec same_config
                ∙ get_config-without_config s t key other k i hk hi m)
        | inr (e, m) ↦
            let failed : (remove_config api s key).0 ≡ some e = rw (remove_config, m) refl in cc
      ]
