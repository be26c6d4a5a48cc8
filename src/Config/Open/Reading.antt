-- ===== src/Config/Open/Reading.antt =====
-- engine/stack.go: what `GetConfig` returns on a handle that `Open` made.
use mathlib.Core.Path.{subst}
use pulumi_engine.Prelude.{
  String, false, ap, ◌≡◌, refl, [], ◌∷◌, Option, none, Dict, sym, ◌∙◌, Option-cases, inl, inr,
}
use pulumi_engine.Errors.Fallible.{Fallible, ok, err, map_err, bind_elim, ok_inj, Fallible-cases}
use pulumi_engine.Spec.{StackSpec, ConfigValue, SpecEnv, validate}
use pulumi_engine.Credentials.{Files, open_backend}
use pulumi_engine.Config.{
  ConfigApi, Stack, save_project_stack, load_project_stack, parse_config_key, set_config_locked,
  get_config,
}
use pulumi_engine.Config.Laws.{
  ConfigLaws, get_config_same, parse_config_key_same, save_project_stack-config,
}
use pulumi_engine.Config.Updates.{get_config-set_config_locked, set_config_locked-spec}
use pulumi_engine.Config.Open.{
  BackendApi, set_all, saved, root_dir, find_or_create, prepare, open_with, open_stack, latest,
}

-- No value is an object.
abbrev pub NoObjects : Dict ConfigValue → Type 0
NoObjects [] = Unit
NoObjects ((k, v) ∷ m) = (v.object ≡ false) × NoObjects m

module _ (api : ConfigApi) (laws : ConfigLaws api) where
  latest_same :
      (s u : Stack api) (i : String) (m : Dict ConfigValue) (before : Fallible (Option ConfigValue))
      → u.spec ≡ s.spec
      → latest api u i m before ≡ latest api s i m before
  unfolding latest
  latest_same s u i [] before h = refl
  latest_same s u i ((k, v) ∷ m) before h =
      rw (parse_config_key_same api s u k h) (latest_same s u i m _ h)

  get_config-set_all :
      (s t : Stack api) (m : Dict ConfigValue) (key i : String)
      → NoObjects m
      → parse_config_key api s key ≡ ok i
      → set_all api s m ≡ ok t
      → get_config api t key ≡ latest api s i m (get_config api s key)
  unfolding set_all latest
  get_config-set_all s t [] key i flat hi h = rw (ok_inj s t h) refl
  get_config-set_all s t ((k, v) ∷ m) key i flat hi h =
      bind_elim (set_config_locked api s k v) _ h λ u done rest.
        let (j, pj, same, name) = set_config_locked-spec api s u k v done in
        rw (pj, ← get_config-set_config_locked api laws s u k key j i v flat.0 pj hi done)
          (get_config-set_all u t m key i flat.1 (parse_config_key_same api s u key same ∙ hi) rest
            ∙ latest_same s u i m (get_config api u key) same)

  saved-config :
      (s t : Stack api)
      → saved api s ≡ ok t
      → (t.spec ≡ s.spec) × (t.config ≡ s.config) × (t.ref_name ≡ s.ref_name)
  unfolding saved
  saved-config s t h = elim (Option-cases (save_project_stack api s).0) [
    | inl n ↦
        let kept : ok (save_project_stack api s).1 ≡ saved api s = rw (saved, n) refl in
        rw (← ok_inj (save_project_stack api s).1 t (kept ∙ h)) (save_project_stack-config api s)
    | inr (e, n) ↦ let failed : saved api s ≡ err e = rw (saved, n) refl in cc
  ]

  set_all-spec :
      (s t : Stack api) (m : Dict ConfigValue)
      → set_all api s m ≡ ok t
      → (t.spec ≡ s.spec) × (t.ref_name ≡ s.ref_name)
  unfolding set_all
  set_all-spec s t [] h = rw (ok_inj s t h) (refl, refl)
  set_all-spec s t ((k, v) ∷ m) h = bind_elim (set_config_locked api s k v) _ h λ u done rest.
      let (j, pj, same, name) = set_config_locked-spec api s u k v done in
      let (later, kept) = set_all-spec u t m rest in (later ∙ same, kept ∙ name)

  -- what a handle on the spec reads, over what the project file of its own stack holds
  unfoldable pub Reads : StackSpec → Stack api → String → String → Type 0
  Reads spec st key i =
      (config : api.Map) × (load_project_stack api spec st.ref_name ≡ ok config)
      × (st.spec ≡ spec)
      × (get_config api st key
          ≡ latest api st i spec.config (get_config api (record st { config = config }) key))

  module _ (world : SpecEnv) (backend : BackendApi) where
    prepare-Reads :
        (spec : StackSpec) (bs : backend.Handle) (st : Stack api) (key i : String)
        → NoObjects st.spec.config
        → parse_config_key api st key ≡ ok i
        → prepare api world backend spec bs ≡ ok st
        → Reads spec st key i
    unfolding prepare Reads
    prepare-Reads spec bs st key i plain hi h =
        bind_elim (load_project_stack api spec (backend.handle_name bs)) _ h λ config loads h1.
          bind_elim (map_err _ (backend.secrets_manager spec.secrets bs)) _ h1 λ u managed h2.
            let loaded : Stack api = record {
              spec = spec;
              ref_name = backend.handle_name bs;
              config = config;
              file = none;
            } in
            bind_elim (set_all api loaded spec.config) _ h2 λ full all h3.
              let (kept_spec, kept, kept_name) = saved-config full st h3 in
              let (full_spec, full_name) = set_all-spec loaded full spec.config all in
              let same : st.spec ≡ spec = kept_spec ∙ full_spec in
              let flat = subst (λ x. NoObjects x.config) same plain in
              let parsed = sym (parse_config_key_same api loaded st key same) ∙ hi in
              let read_back =
                get_config_same api loaded (record st { config = config }) key same refl in
              (
                config,
                rw (kept_name ∙ full_name) loads,
                same,
                get_config_same api full st key kept_spec kept
                    ∙ get_config-set_all loaded full spec.config key i flat parsed all
                    ∙ sym (latest_same loaded st i spec.config _ same)
                    ∙ ap (latest api st i spec.config) (sym read_back),
              )

    open_with-Reads :
        (spec : StackSpec) (root : String) (connected : Fallible (backend.credentials.Backend))
        (st : Stack api) (key i : String)
        → NoObjects st.spec.config
        → parse_config_key api st key ≡ ok i
        → open_with api world backend spec root connected ≡ ok st
        → Reads spec st key i
    unfolding open_with
    open_with-Reads spec root connected st key i plain hi h =
        bind_elim connected _ h λ be reached h1.
          bind_elim (map_err _ (backend.parse_reference be spec.name)) _ h1 λ ref parsed h2.
            bind_elim (find_or_create api world backend spec be ref root) _ h2
              λ bs found h3. prepare-Reads spec bs st key i plain hi h3

    -- After `Open` succeeds on a spec whose configuration has no object values, the handle has the
    -- validated spec, and `GetConfig` of a key that parses gives the last value of the spec whose
    -- key addresses the same entry, and where the spec has none what the project file of the
    -- handle's own stack holds. That is under the laws of Pulumi's packages, and for the order in
    -- which the loop over the spec's map runs.
    pub get_config-open_stack :
        (given : StackSpec) (st : Stack api) (files : Files) (key i : String)
        → NoObjects st.spec.config
        → parse_config_key api st key ≡ ok i
        → (open_stack api world backend given files).0 ≡ ok st
        → (spec : StackSpec) × (validate world given ≡ ok spec) × Reads spec st key i
    unfolding open_stack
    get_config-open_stack given st files key i plain hi h =
        elim (Fallible-cases (validate world given)) [
          | inl (spec, d) ↦ elim (Fallible-cases (root_dir api world backend spec.project.dir)) [
            | inl (root, r) ↦
                let opened =
                  open_backend backend.credentials (world.is_diy_url spec.backend.url) spec.backend
                    files in
                let step : (open_stack api world backend given files).0
                    ≡ open_with api world backend spec root opened.0 =
                  rw (open_stack, d, r) refl in
                (spec, d, open_with-Reads spec root opened.0 st key i plain hi (sym step ∙ h))
            | inr (e, r) ↦
                let failed : (open_stack api world backend given files).0 ≡ err e =
                  rw (open_stack, d, r) refl in
                cc
          ]
          | inr (e, d) ↦
              let failed : (open_stack api world backend given files).0 ≡ err e =
                rw (open_stack, d) refl in
              cc
        ]
