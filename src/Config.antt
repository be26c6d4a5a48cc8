-- ===== src/Config.antt =====
-- engine/stack.go: the state of a stack's handle, its project file, and the configuration
-- operations on it. `Open` builds the handle.
pub mod Laws
pub mod Updates
pub mod Secrecy
pub mod Open
use pulumi_engine.Prelude.{
  String, Bool, true, false, not, ◌==◌, List, [], ◌∷◌, Option, none, some, Dict, if◌then◌else◌,
}
use pulumi_engine.Text.{concat, contains}
use pulumi_engine.Errors.{Foreign, GoError, invalid, wrapped, unclassified, has_foreign}
use pulumi_engine.Errors.Message.{error_text}
use pulumi_engine.Errors.Fallible.{Fallible, ok, err, ◌>>=◌, map_err}
use pulumi_engine.Spec.{StackSpec, ConfigValue, join_path}

-- Pulumi's `config` and `workspace` packages, the stack's crypter, and the file system.
pub record ConfigApi : Type 1 where
  -- `config.Map`, and `config.Value` with its four constructors
  pub Map : Type 0
  pub Value : Type 0
  pub empty : Map
  pub plain : String → Value
  pub object : String → Value
  pub secure : String → Value
  pub secure_object : String → Value
  -- `Value.Value(decrypter)`, `Value.Secure()` and `Value.Object()`
  pub reveal : (String → Fallible String) → Value → Fallible String
  pub is_secure : Value → Bool
  pub is_object : Value → Bool
  -- `Map.Set`, `Map.Get` and `Map.Remove` with path false
  pub set : Map → String → Value → Fallible Map
  pub get : Map → String → Fallible (Option Value)
  pub remove : Map → String → Fallible Map
  -- `config.MustMakeKey` and `config.ParseKey`, a key being its text
  pub make_key : String → String → String
  pub parse_key : String → Fallible String
  -- `EncryptValue` and `DecryptValue` of the stack's secrets manager
  pub encrypt : String → Fallible String
  pub decrypt : String → Fallible String
  -- `os.Stat`: the error, if any
  pub stat : String → Option GoError
  -- `workspace.LoadProjectStack(path).Config`, none for a nil map
  pub load : String → Fallible (Option Map)
  -- `ProjectStack.Save(path)`: the error, if any
  pub save : String → Map → Option GoError

module _ (api : ConfigApi) where
  open api use {
    Map, Value, empty, plain, object, secure, secure_object, reveal, is_secure, is_object, set, get,
    remove, make_key, parse_key, encrypt, decrypt, stat, load, save,
  }

  -- `Stack`, as far as these operations use it: `ref_name` is the name in the backend's
  -- reference, `file` what was last saved in Pulumi.<stack>.yaml.
  pub record Stack : Type 0 where
    pub spec : StackSpec
    pub ref_name : String
    pub config : Map
    pub file : Option Map

  unfoldable pub project_stack_path : StackSpec → String → String
  project_stack_path spec ref_name =
      if spec.project.dir == ""
      then ""
      else join_path spec.project.dir (concat ("Pulumi." ∷ ref_name ∷ ".yaml" ∷ []))

  unfoldable pub load_project_stack : StackSpec → String → Fallible Map
  load_project_stack spec ref_name =
      let path = project_stack_path spec ref_name in
      if path == "" then ok empty else elim (stat path) [
        | none ↦ do
          config ←
              map_err (λ e. unclassified (wrapped (concat ("loading " ∷ path ∷ [])) e)) (load path)
          ok (elim config [ none ↦ empty | some m ↦ m ])
        | some e ↦ if has_foreign Foreign.not_exist e then ok empty else err (unclassified e)
      ]

  unfoldable pub save_project_stack : Stack → Option GoError × Stack
  save_project_stack s =
      let path = project_stack_path s.spec s.ref_name in
      if path == "" then (none, s) else elim (save path s.config) [
        | none ↦ (none, record s { file = some s.config })
        | some e ↦ (some (unclassified (wrapped (concat ("saving " ∷ path ∷ [])) e)), s)
      ]

  unfoldable pub parse_config_key : Stack → String → Fallible String
  parse_config_key s key =
      if not (contains key ":")
      then ok (make_key s.spec.project.name key)
      else map_err (λ e. invalid (concat ("config." ∷ key ∷ [])) (error_text e)) (parse_key key)

  -- the stored form of a value
  encrypted : String → ConfigValue → Fallible Value
  encrypted key v = do
    text ←
        map_err (λ e. unclassified (wrapped (concat ("encrypting config " ∷ key ∷ [])) e))
          (encrypt v.value)
    ok (if v.object then secure_object text else secure text)

  pub encode_value : String → ConfigValue → Fallible Value
  unfolding encrypted
  encode_value key v =
      if v.secret then encrypted key v else ok (if v.object then object v.value else plain v.value)

  unfoldable pub set_config_locked : Stack → String → ConfigValue → Fallible Stack
  unfolding encode_value
  set_config_locked s key v = do
    k ← parse_config_key s key
    stored ← encode_value key v
    config ←
        map_err (λ e. invalid (concat ("config." ∷ key ∷ [])) (error_text e))
          (set s.config k stored)
    ok (record s { config = config })

  -- The error that is returned, if any, and the handle after the call.
  unfoldable pub set_config : Stack → String → ConfigValue → Option GoError × Stack
  set_config s key v = elim (set_config_locked s key v) [
    | ok t ↦ save_project_stack t
    | err e ↦ (some e, s)
  ]

  -- the value that is found, decrypted
  pub decode_value : String → Option Value → Fallible (Option ConfigValue)
  decode_value key none = ok none
  decode_value key (some v) = do
    text ←
        map_err (λ e. unclassified (wrapped (concat ("decrypting config " ∷ key ∷ [])) e))
          (reveal decrypt v)
    ok (some (record { value = text; secret = is_secure v; object = is_object v }))

  unfoldable pub get_config : Stack → String → Fallible (Option ConfigValue)
  unfolding decode_value
  get_config s key = do
    k ← parse_config_key s key
    found ← map_err (λ e. invalid (concat ("config." ∷ key ∷ [])) (error_text e)) (get s.config k)
    decode_value key found

  -- the handle with the key deleted, not yet saved
  without_config : Stack → String → Fallible Stack
  without_config s key = do
    k ← parse_config_key s key
    config ←
        map_err (λ e. invalid (concat ("config." ∷ key ∷ [])) (error_text e)) (remove s.config k)
    ok (record s { config = config })

  unfoldable pub remove_config : Stack → String → Option GoError × Stack
  unfolding without_config
  remove_config s key = elim (without_config s key) [
    | ok t ↦ save_project_stack t
    | err e ↦ (some e, s)
  ]
