-- ===== src/Spec.antt =====
-- engine/spec.go: the description of a stack, and `validate`, which checks it and fills defaults.
pub mod Valid
pub mod Refusal
pub mod Again
use Prim.Native.Char.{Char, code}
use Prim.Native.String as Text
use pulumi_engine.Prelude.{
  ℕ, String, Bool, true, false, not, ◌&&◌, ◌||◌, ◌==◌, List, [], ◌∷◌, Option, none, some, Dict,
  is_some, any, leb, eqb, if◌then◌else◌, lookup,
}
use pulumi_engine.Text.{concat, quote, trim_space, has_prefix, contains, after_last_slash}
use pulumi_engine.Errors.{GoError, invalid}
use pulumi_engine.Errors.Message.{error_text}
use pulumi_engine.Errors.Fallible.{Fallible, ok, err, ◌>>=◌, ◌>>◌, reject_if, map_err}

pub record ProjectSpec : Type 0 where
  pub name : String
  pub dir : String
  pub description : String

pub record BackendSpec : Type 0 where
  pub url : String
  pub token : String
  pub insecure : Bool

pub record SecretsSpec : Type 0 where
  pub provider : String
  pub passphrase : String
  pub passphrase_set : Bool

pub record ConfigValue : Type 0 where
  pub value : String
  pub secret : Bool
  pub object : Bool

pub record StackSpec : Type 0 where
  pub name : String
  pub project : ProjectSpec
  pub backend : BackendSpec
  pub secrets : SecretsSpec
  pub config : Dict ConfigValue
  pub create : Bool
  pub env : Dict String

-- What `validate` asks of Pulumi's packages and of the file system.
pub record SpecEnv : Type 0 where
  -- `tokens.ParseStackName`: the error's message, if it is refused
  pub parse_stack_name : String → Option String
  -- `diy.IsDIYBackendURL`
  pub is_diy_url : String → Bool
  -- `filepath.Abs`, which reads the working directory
  pub abs : String → Fallible String
  -- `os.Stat` succeeds and finds a directory
  pub is_dir : String → Bool
  -- `workspace.LoadProject(path).Name`
  pub load_project_name : String → Fallible String

-- `UnmarshalJSON` of a decoded object: the plain fields, and the keys that the object has
unfoldable pub decode_secrets : SecretsSpec → Dict String → SecretsSpec
decode_secrets p keys =
    if is_some (lookup "passphrase" keys) then record p { passphrase_set = true } else p

abbrev pub has_passphrase : SecretsSpec → Bool
has_passphrase s = not (s.passphrase == "") || s.passphrase_set

abbrev cloud_secrets_schemes : List String
cloud_secrets_schemes = "awskms://" ∷ "gcpkms://" ∷ "azurekeyvault://" ∷ "hashivault://" ∷ []

unfoldable pub is_cloud_secrets_provider : String → Bool
is_cloud_secrets_provider p = any (λ s. has_prefix p s) cloud_secrets_schemes

-- `t[0] == '-' || (t[0] >= '0' && t[0] <= '9')`, false for the empty text
starts_like_number : String → Bool
starts_like_number Text.[] = false
starts_like_number (Text.◌∷◌ c s) = eqb (code c) b'-' || (leb b'0' (code c) && leb (code c) b'9')

unfoldable pub looks_like_json : String → Bool
unfolding starts_like_number
looks_like_json s =
    let t = trim_space s in
    has_prefix t "{"
    || has_prefix t "["
    || has_prefix t "\""
    || t == "true"
    || t == "false"
    || t == "null"
    || starts_like_number t

-- `filepath.Join(dir, file)` for a directory that `filepath.Abs` returned
abbrev pub join_path : String → String → String
join_path dir file = if dir == "/" then concat ("/" ∷ file ∷ []) else concat (dir ∷ "/" ∷ file ∷ [])

bad_env : Dict String → Fallible (Unit {0})
bad_env [] = ok tt
bad_env ((k, v) ∷ m) =
    let rest = bad_env m in
    if k == "" || contains k "="
    then err (invalid "env" (concat ("invalid environment variable name " ∷ quote k ∷ [])))
    else rest

bad_config : Dict ConfigValue → Fallible (Unit {0})
bad_config [] = ok tt
bad_config ((k, v) ∷ m) =
    let rest = bad_config m in
    if k == ""
    then err (invalid "config" "empty config key")
    else if v.object && not (looks_like_json v.value)
    then err (invalid (concat ("config." ∷ k ∷ [])) "object values must be JSON encoded")
    else rest

module _ (world : SpecEnv) where
  open world use {parse_stack_name, is_diy_url, abs, is_dir, load_project_name}

  -- a name that `ParseStackName` refuses
  check_name : String → (String → GoError) → Fallible (Unit {0})
  check_name name refuse = elim (parse_stack_name name) [ none ↦ ok tt | some m ↦ err (refuse m) ]

  check_backend : BackendSpec → Fallible (Unit {0})
  check_backend b = do
    reject_if (b.url == "") (invalid "backend.url" "backend URL is required")
    reject_if
        (not (is_diy_url b.url)
          && not (has_prefix b.url "https://")
          && not (has_prefix b.url "http://"))
        (invalid "backend.url" (
          concat (
            "unrecognised backend URL "
            ∷ quote b.url
            ∷ " (expected file://, s3://, gs://, azblob:// or http(s)://)"
            ∷ [])))
    reject_if (not (b.token == "") && is_diy_url b.url)
        (invalid "backend.token" "a token is only meaningful for HTTP backends")

  resolve_dir : String → Fallible String
  resolve_dir dir = if dir == "" then ok dir else do
    full ← map_err (λ e. invalid "project.dir" (error_text e)) (abs dir)
    reject_if (not (is_dir full))
        (invalid "project.dir" (concat (quote dir ∷ " is not a directory" ∷ [])))
    ok full

  resolve_name : String → String → Fallible String
  resolve_name name dir = if not (name == "") then ok name else do
    reject_if (dir == "") (
        invalid "project.name"
          "project name is required (or set project.dir to a directory containing Pulumi.yaml)")
    map_err
        (λ e. invalid "project.name" (
          concat (
            "project name not set and "
            ∷ join_path dir "Pulumi.yaml"
            ∷ " could not be loaded: "
            ∷ error_text e
            ∷ [])))
        (load_project_name (join_path dir "Pulumi.yaml"))

  resolve_project : ProjectSpec → Fallible ProjectSpec
  resolve_project p = do
    dir ← resolve_dir p.dir
    name ← resolve_name p.name dir
    check_name name (λ m.
        invalid "project.name" (concat ("invalid project name " ∷ quote name ∷ ": " ∷ m ∷ [])))
    ok (record p { name = name; dir = dir })

  resolve_provider : String → Bool → Fallible String
  resolve_provider provider diy =
      if provider == ""
      then ok (if diy then "passphrase" else "service")
      else if provider == "passphrase"
          || provider == "service"
          || provider == "b64"
          || is_cloud_secrets_provider provider
      then ok provider
      else err
          (invalid "secrets.provider" (concat ("unknown secrets provider " ∷ quote provider ∷ [])))

  resolve_secrets : SecretsSpec → Bool → Fallible SecretsSpec
  resolve_secrets s diy = do
    provider ← resolve_provider s.provider diy
    reject_if (provider == "passphrase" && not (has_passphrase s)) (
        invalid "secrets.passphrase"
          "the passphrase secrets provider requires a passphrase (set passphraseSet for an intentionally empty one)")
    reject_if (provider == "service" && diy)
        (invalid "secrets.provider" "the service secrets provider requires an HTTP backend")
    reject_if (not (provider == "passphrase") && has_passphrase s)
        (invalid "secrets.passphrase" "passphrase is only used by the passphrase provider")
    ok (record s { provider = provider })

  -- `validate`: the spec with its defaults, or the first problem
  unfoldable pub validate : StackSpec → Fallible StackSpec
  unfolding check_name check_backend resolve_dir resolve_name resolve_project resolve_provider
      resolve_secrets bad_env bad_config
  validate s = do
    reject_if (s.name == "") (invalid "name" "stack name is required")
    check_name (after_last_slash s.name) (λ m. invalid "name" m)
    check_backend s.backend
    project ← resolve_project s.project
    secrets ← resolve_secrets s.secrets (is_diy_url s.backend.url)
    bad_env s.env
    bad_config s.config
    ok (record s { project = project; secrets = secrets })
