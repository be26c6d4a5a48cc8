-- ===== src/Config/Open.antt =====
-- engine/stack.go: `Open`, from a spec to a handle.
pub mod Reading
use pulumi_engine.Prelude.{
  String, ◌==◌, ◌≡◌, refl, [], ◌∷◌, Option, none, some, Dict, if◌then◌else◌, sym, ◌∙◌, Option-cases,
  inl, inr,
}
use pulumi_engine.Errors.{invalid, stack_not_found, unclassified}
use pulumi_engine.Errors.Message.{error_text}
use pulumi_engine.Errors.Classify.{classify_backend_error}
use pulumi_engine.Errors.Fallible.{
  Fallible, ok, err, ◌>>=◌, ◌>>◌, map_err, bind_elim, ok_inj, Fallible-cases,
}
use pulumi_engine.Spec.{StackSpec, ConfigValue, SecretsSpec, SpecEnv, validate}
use pulumi_engine.Credentials.{CredentialsApi, Files, open_backend}
use pulumi_engine.Config.{
  ConfigApi, Stack, save_project_stack, load_project_stack, parse_config_key, set_config_locked,
  get_config,
}

-- The backend's operations that `Open` calls.
pub record BackendApi : Type 1 where
  pub credentials : CredentialsApi
  pub Reference : Type 0
  pub Handle : Type 0
  -- `os.Getwd`
  pub working_dir : Fallible String
  pub parse_reference : credentials.Backend → String → Fallible Reference
  -- none for a stack that is not there
  pub get_stack : credentials.Backend → Reference → Fallible (Option Handle)
  -- with the root directory
  pub create_stack : credentials.Backend → Reference → String → Fallible Handle
  pub handle_name : Handle → String
  -- whether `newSecretsManager` fails
  pub secrets_manager : SecretsSpec → Handle → Fallible (Unit {0})

module _ (api : ConfigApi) where
  -- `for k, v := range spec.Config`, in the order of the list
  set_all : Stack api → Dict ConfigValue → Fallible (Stack api)
  set_all s [] = ok s
  set_all s ((k, v) ∷ m) = set_config_locked api s k v >>= λ t. set_all t m

  saved : Stack api → Fallible (Stack api)
  saved s =
      let (failure, t) = save_project_stack api s in elim failure [ none ↦ ok t | some e ↦ err e ]

  module _ (world : SpecEnv) (backend : BackendApi) where
    open backend use {
      credentials, working_dir, parse_reference, get_stack, create_stack, handle_name,
      secrets_manager,
    }

    root_dir : String → Fallible String
    root_dir dir = if dir == "" then map_err unclassified working_dir else ok dir

    -- the stack that the spec names, created where it may be
    find_or_create :
        StackSpec → credentials.Backend → backend.Reference → String → Fallible backend.Handle
    find_or_create spec be ref root = do
      found ← map_err (classify_backend_error spec.name) (get_stack be ref)
      elim found [
        | some bs ↦ ok bs
        | none ↦
            if spec.create
            then map_err (classify_backend_error spec.name) (create_stack be ref root)
            else err (stack_not_found spec.name)
      ]

    -- the handle on a stack that is there, its configuration loaded, set and saved
    prepare : StackSpec → backend.Handle → Fallible (Stack api)
    unfolding set_all saved
    prepare spec bs = do
      config ← load_project_stack api spec (handle_name bs)
      map_err (classify_backend_error spec.name) (secrets_manager spec.secrets bs)
      st ←
          set_all (record { spec = spec; ref_name = handle_name bs; config = config; file = none })
            spec.config
      saved st

    open_with : StackSpec → String → Fallible credentials.Backend → Fallible (Stack api)
    unfolding find_or_create prepare
    open_with spec root connected = do
      be ← connected
      ref ← map_err (λ e. invalid "name" (error_text e)) (parse_reference be spec.name)
      bs ← find_or_create spec be ref root
      prepare spec bs

    -- `Open`: the handle or an error, and the files after it
    unfoldable pub open_stack : StackSpec → Files → Fallible (Stack api) × Files
    unfolding root_dir open_with
    open_stack given files = elim (validate world given) [
      | err e ↦ (err e, files)
      | ok spec ↦ elim (root_dir spec.project.dir) [
        | err e ↦ (err e, files)
        | ok root ↦
            let (connected, after) =
              open_backend credentials (world.is_diy_url spec.backend.url) spec.backend files in
            (open_with spec root connected, after)
      ]
    ]

  -- What a key reads after a loop over a map: the last value written to its entry, or what it
  -- read before.
  unfoldable pub latest :
      Stack api
      → String
      → Dict ConfigValue
      → Fallible (Option ConfigValue)
      → Fallible (Option ConfigValue)
  latest s i [] before = before
  latest s i ((k, v) ∷ m) before = latest s i m (elim (parse_config_key api s k) [
    | ok j ↦ if j == i then ok (some v) else before
    | err e ↦ before
  ])
