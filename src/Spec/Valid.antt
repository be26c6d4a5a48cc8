-- ===== src/Spec/Valid.antt =====
-- engine/spec.go: the specs that `validate` accepts.
use mathlib.Core.Path.{subst}
use pulumi_engine.Prelude.{
  String, Bool, true, false, not, ◌&&◌, ◌||◌, ◌==◌, ◌≡◌, refl, [], ◌∷◌, none, Dict, arith, ◌⊎◌,
  if◌then◌else◌, eq_iff,
}
use pulumi_engine.Text.{has_prefix, contains, after_last_slash}
use pulumi_engine.Errors.{GoError}
use pulumi_engine.Errors.Fallible.{
  ok, err, reject_if, bind-eq-ok, reject_if-eq-ok, bind_elim, ok_inj,
}
use pulumi_engine.Spec.{
  StackSpec, ProjectSpec, BackendSpec, SecretsSpec, ConfigValue, SpecEnv, has_passphrase,
  is_cloud_secrets_provider, looks_like_json, bad_env, bad_config, check_name, check_backend,
  resolve_dir, resolve_name, resolve_project, resolve_provider, resolve_secrets, validate,
}

-- No name of the environment is empty or holds an equals sign.
abbrev pub EnvNames : Dict String → Type 0
EnvNames [] = Unit
EnvNames ((k, v) ∷ m) = ((k == "") ≡ false) × (contains k "=" ≡ false) × EnvNames m

-- No configuration key is empty, and an object's value looks like JSON.
abbrev pub ConfigValues : Dict ConfigValue → Type 0
ConfigValues [] = Unit
ConfigValues ((k, v) ∷ m) =
    ((k == "") ≡ false) × ((v.object && not (looks_like_json v.value)) ≡ false) × ConfigValues m

abbrev pub known_provider : String → Bool
known_provider p = p == "passphrase" || p == "service" || p == "b64" || is_cloud_secrets_provider p

module _ (world : SpecEnv) where
  open world use {parse_stack_name, is_diy_url, is_dir, abs}

  pub record IsValid (s : StackSpec) : Type 0 where
    pub named : (s.name == "") ≡ false
    pub name_parses : parse_stack_name (after_last_slash s.name) ≡ none
    pub located : (s.backend.url == "") ≡ false
    pub url_known :
        (not (is_diy_url s.backend.url)
          && not (has_prefix s.backend.url "https://")
          && not (has_prefix s.backend.url "http://"))
        ≡ false
    pub token_http : (not (s.backend.token == "") && is_diy_url s.backend.url) ≡ false
    pub dir_there : (s.project.dir ≡ "") ⊎ (is_dir s.project.dir ≡ true)
    pub project_parses : parse_stack_name s.project.name ≡ none
    pub provider_known : known_provider s.secrets.provider ≡ true
    pub passphrase_used : (s.secrets.provider == "passphrase") ≡ has_passphrase s.secrets
    pub service_http : (s.secrets.provider == "service" && is_diy_url s.backend.url) ≡ false
    pub env_names : EnvNames s.env
    pub config_values : ConfigValues s.config

  check_name-eq-ok :
      (name : String) (f : String → GoError)
      → check_name world name f ≡ ok tt
      → parse_stack_name name ≡ none
  unfolding check_name
  check_name-eq-ok name f h = ground arith

  check_backend-eq-ok :
      (b : BackendSpec)
      → check_backend world b ≡ ok tt
      → ((b.url == "") ≡ false)
        × ((not (is_diy_url b.url)
              && not (has_prefix b.url "https://")
              && not (has_prefix b.url "http://"))
            ≡ false)
        × ((not (b.token == "") && is_diy_url b.url) ≡ false)
  unfolding check_backend
  check_backend-eq-ok b h = ground arith

  resolve_dir-eq-ok :
      (dir full : String) → resolve_dir world dir ≡ ok full → (full ≡ "") ⊎ (is_dir full ≡ true)
  unfolding resolve_dir
  resolve_dir-eq-ok dir full h = ground (arith, eq_iff dir "")

  pick :
      (empty known diy : Bool) (p q : String) (e : GoError)
      → known_provider p ≡ known
      → (if empty
          then ok (if diy then "passphrase" else "service")
          else if known
          then ok p
          else err e)
        ≡ ok q
      → known_provider q ≡ true
  pick true known true p q e k h = rw (← ok_inj "passphrase" q h) refl
  pick true known false p q e k h = rw (← ok_inj "service" q h) refl
  pick false true diy p q e k h = rw (← ok_inj p q h) k
  pick false false diy p q e k h = absurd (cc h)

  resolve_provider-eq-ok :
      (p q : String) (diy : Bool) → resolve_provider world p diy ≡ ok q → known_provider q ≡ true
  unfolding resolve_provider
  resolve_provider-eq-ok p q diy h = pick (p == "") (known_provider p) diy p q _ refl h

  resolve_secrets-eq-ok :
      (s t : SecretsSpec) (diy : Bool)
      → resolve_secrets world s diy ≡ ok t
      → (known_provider t.provider ≡ true)
        × ((t.provider == "passphrase") ≡ has_passphrase t)
        × ((t.provider == "service" && diy) ≡ false)
        × (t ≡ record s { provider = t.provider })
  unfolding resolve_secrets
  resolve_secrets-eq-ok s t diy h =
      let (p, known, rest) = bind-eq-ok (resolve_provider world s.provider diy) _ h in
      ground (arith, resolve_provider-eq-ok s.provider p diy known)

  bad_env-eq-ok : (m : Dict String) → bad_env m ≡ ok tt → EnvNames m
  unfolding bad_env
  bad_env-eq-ok [] h = tt
  bad_env-eq-ok ((k, v) ∷ m) h = ground (arith, bad_env-eq-ok m)

  bad_config-eq-ok : (m : Dict ConfigValue) → bad_config m ≡ ok tt → ConfigValues m
  unfolding bad_config
  bad_config-eq-ok [] h = tt
  bad_config-eq-ok ((k, v) ∷ m) h = ground (arith, bad_config-eq-ok m)

  resolve_project-eq-ok :
      (p q : ProjectSpec)
      → resolve_project world p ≡ ok q
      → ((q.dir ≡ "") ⊎ (is_dir q.dir ≡ true)) × (parse_stack_name q.name ≡ none)
  unfolding resolve_project
  resolve_project-eq-ok p q h =
      let (dir, there, h1) = bind-eq-ok (resolve_dir world p.dir) _ h in
      let (name, named, h2) = bind-eq-ok (resolve_name world p.name dir) _ h1 in
      let (u, parses, h3) = bind-eq-ok (check_name world name _) _ h2 in
      ground (arith, resolve_dir-eq-ok p.dir dir there, check_name-eq-ok name _ parses)

  -- A spec that `validate` accepts satisfies every condition, and differs from the given one at
  -- most in its project and its secrets provider.
  pub validate-IsValid :
      (s t : StackSpec)
      → validate world s ≡ ok t
      → IsValid t
        × (t ≡ record s { project = t.project; secrets = t.secrets })
        × (t.secrets ≡ record s.secrets { provider = t.secrets.provider })
  unfolding validate
  validate-IsValid s t h = bind_elim (reject_if (s.name == "") _) _ h λ u0 named h0.
      bind_elim (check_name world (after_last_slash s.name) _) _ h0 λ u1 parses h1.
        bind_elim (check_backend world s.backend) _ h1 λ u2 backed h2.
          bind_elim (resolve_project world s.project) _ h2 λ p projected h3.
            bind_elim (resolve_secrets world s.secrets (is_diy_url s.backend.url)) _ h3 λ c kept h4.
              bind_elim (bad_env s.env) _ h4 λ u3 envs h5.
                bind_elim (bad_config s.config) _ h5 λ u4 configs h6.
                  let b = check_backend-eq-ok s.backend backed in
                  let q = resolve_project-eq-ok s.project p projected in
                  let (known, used, service, rest) =
                    resolve_secrets-eq-ok s.secrets c (is_diy_url s.backend.url) kept in
                  subst
                    (λ (r : StackSpec).
                      IsValid r
                      × (r ≡ record s { project = r.project; secrets = r.secrets })
                      × (r.secrets ≡ record s.secrets { provider = r.secrets.provider }))
                    (ok_inj _ t h6)
                    (
                      record {
                        named = reject_if-eq-ok (s.name == "") _ named;
                        name_parses = check_name-eq-ok (after_last_slash s.name) _ parses;
                        located = b.0;
                        url_known = b.1;
                        token_http = b.2;
                        dir_there = q.0;
                        project_parses = q.1;
                        provider_known = known;
                        passphrase_used = used;
                        service_http = service;
                        env_names = bad_env-eq-ok s.env envs;
                        config_values = bad_config-eq-ok s.config configs;
                      },
                      refl,
                      rest,
                    )
