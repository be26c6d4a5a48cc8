-- ===== src/Spec/Again.antt =====
-- engine/spec.go: `validate` on a spec that it returned.
use pulumi_engine.Prelude.{
  String, Bool, true, false, ◌≡◌, refl, [], ◌∷◌, none, Dict, arith, ◌==◌, ◌⊎◌, inl, inr, ◌&&◌,
  Bool-cases,
}
use pulumi_engine.Text.{after_last_slash}
use pulumi_engine.Errors.{GoError}
use pulumi_engine.Errors.Fallible.{ok}
use pulumi_engine.Spec.{
  StackSpec, ProjectSpec, SecretsSpec, ConfigValue, SpecEnv, bad_env, bad_config, has_passphrase,
  check_name, check_backend, resolve_dir, resolve_name, resolve_project, resolve_provider,
  resolve_secrets, validate,
}
use pulumi_engine.Spec.Valid.{IsValid, EnvNames, ConfigValues, known_provider}

bad_env-EnvNames : (m : Dict String) → EnvNames m → bad_env m ≡ ok tt
unfolding bad_env
bad_env-EnvNames [] h = refl
bad_env-EnvNames ((k, v) ∷ m) h = rw (h.0, h.1) (bad_env-EnvNames m h.2)

bad_config-ConfigValues : (m : Dict ConfigValue) → ConfigValues m → bad_config m ≡ ok tt
unfolding bad_config
bad_config-ConfigValues [] h = refl
bad_config-ConfigValues ((k, v) ∷ m) h = rw (h.0, h.1) (bad_config-ConfigValues m h.2)

module _ (world : SpecEnv) where
  open world use {parse_stack_name, is_diy_url, is_dir, abs}

  -- The project directory is the one that `filepath.Abs` makes of it.
  abbrev pub IsAbsolute : String → Type 0
  IsAbsolute dir = (dir ≡ "") ⊎ ((abs dir ≡ ok dir) × (is_dir dir ≡ true))

  resolve_dir_again : (dir : String) → IsAbsolute dir → resolve_dir world dir ≡ ok dir
  unfolding resolve_dir
  resolve_dir_again dir (inl e) = rw e refl
  resolve_dir_again dir (inr (a, d)) = elim (Bool-cases (dir == "")) [
    | inl empty ↦ rw empty refl
    | inr there ↦ rw (there, a, d) refl
  ]

  resolve_secrets_again :
      (s : SecretsSpec) (diy : Bool)
      → (s.provider == "") ≡ false
      → known_provider s.provider ≡ true
      → (s.provider == "passphrase") ≡ has_passphrase s
      → (s.provider == "service" && diy) ≡ false
      → resolve_secrets world s diy ≡ ok s
  unfolding resolve_secrets resolve_provider
  resolve_secrets_again s diy named known used service =
      rw (named, known, service, ← used)
        elim (Bool-cases (s.provider == "passphrase")) [ inl p ↦ rw (p) refl | inr n ↦ rw (n) refl ]

  check_name_again :
      (name : String) (f : String → GoError)
      → parse_stack_name name ≡ none
      → check_name world name f ≡ ok tt
  unfolding check_name
  check_name_again name f h = ground arith

  check_backend_again : (s : StackSpec) → IsValid world s → check_backend world s.backend ≡ ok tt
  unfolding check_backend
  check_backend_again s v = rw (v.located, v.url_known, v.token_http) refl

  resolve_project_again :
      (p : ProjectSpec)
      → IsAbsolute p.dir
      → (p.name == "") ≡ false
      → parse_stack_name p.name ≡ none
      → resolve_project world p ≡ ok p
  unfolding resolve_project resolve_name
  resolve_project_again p dir named parses =
      rw (resolve_dir_again p.dir dir, named, check_name_again p.name _ parses) refl

  -- `validate` accepts a spec that satisfies its conditions, with the project named and its
  -- directory absolute, and returns it unchanged.
  pub validate_again :
      (s : StackSpec)
      → IsValid world s
      → IsAbsolute s.project.dir
      → (s.project.name == "") ≡ false
      → (s.secrets.provider == "") ≡ false
      → validate world s ≡ ok s
  unfolding validate check_name check_backend resolve_project resolve_name
  validate_again s v dir named provided =
      rw
        (
          v.named,
          check_name_again (after_last_slash s.name) _ v.name_parses,
          check_backend_again s v,
          resolve_project_again s.project dir named v.project_parses,
          resolve_secrets_again s.secrets (is_diy_url s.backend.url) provided v.provider_known
              v.passphrase_used v.service_http,
          bad_env-EnvNames s.env v.env_names,
          bad_config-ConfigValues s.config v.config_values,
        )
        refl
