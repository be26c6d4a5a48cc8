-- ===== src/Tests/Configs.antt =====
-- engine/stack.go: configuration of a stack whose crypter keeps a text as it is, in a map that is an
-- association list, and the credentials of one backend.
use pulumi_engine.Prelude.{
  String, Bool, true, false, ◌==◌, ◌≡◌, refl, [], ◌∷◌, Option, none, some, Dict, if◌then◌else◌,
  lookup, insert, erase, lookup-insert, lookup-erase, ap, sym, Bool-cases, inl, inr,
}
use pulumi_engine.Text.{concat, after_last_slash, trim_space}
use pulumi_engine.Errors.{plain_error}
use pulumi_engine.Errors.Fallible.{Fallible, ok, ok_inj}
use pulumi_engine.Spec.{StackSpec, ConfigValue, validate, BackendSpec, looks_like_json}
use pulumi_engine.Credentials.{
  CredentialsApi, open_backend, with_spec_credentials, credentials_file_path, with_account,
  with_spec_credentials-restores,
}
use pulumi_engine.Config.{
  ConfigApi, Stack, parse_config_key, set_config, set_config_locked, get_config, remove_config,
  save_project_stack, project_stack_path, load_project_stack,
}
use pulumi_engine.Config.Laws.{MapLaws, ConfigLaws}
use pulumi_engine.Config.Updates.{get_config-set_config, get_config-remove_config}
use pulumi_engine.Config.Open.{BackendApi, open_stack}
use pulumi_engine.Config.Open.Reading.{Reads, get_config-open_stack}
use pulumi_engine.Tests.Specs.{files_only, requested, resolved}

pub record Stored : Type 0 where
  pub text : String
  pub secret : Bool
  pub object : Bool

-- The ciphertext of every secret is the same as its text here.
abbrev pub plain_api : ConfigApi
plain_api = record {
  Map = Dict Stored;
  Value = Stored;
  empty = [];
  plain = λ t. record { text = t; secret = false; object = false };
  object = λ t. record { text = t; secret = false; object = true };
  secure = λ t. record { text = t; secret = true; object = false };
  secure_object = λ t. record { text = t; secret = true; object = true };
  reveal = λ d v. if v.secret then d v.text else ok v.text;
  is_secure = λ v. v.secret;
  is_object = λ v. v.object;
  set = λ m k v. ok (insert k v m);
  get = λ m k. ok (lookup k m);
  remove = λ m k. ok (erase k m);
  make_key = λ p k. concat (p ∷ ":" ∷ k ∷ []);
  parse_key = λ k. ok k;
  encrypt = λ t. ok t;
  decrypt = λ c. ok c;
  stat = λ p. none;
  load = λ p. ok none;
  save = λ p m. none;
}

got_set :
    (m n : Dict Stored) (k j : String) (v : Stored)
    → ◌≡◌ {A = Fallible (Dict Stored)} (ok (insert k v m)) (ok n)
    → ◌≡◌ {A = Fallible (Option Stored)}
        (ok (lookup j n))
        (if k == j then ok (some v) else ok (lookup j m))
got_set m n k j v h =
    rw (← ok_inj (insert k v m) n h, lookup-insert k j v m)
      (elim (Bool-cases (k == j)) [ inl e ↦ rw e refl | inr e ↦ rw e refl ])

got_removed :
    (m n : Dict Stored) (k j : String)
    → ◌≡◌ {A = Fallible (Dict Stored)} (ok (erase k m)) (ok n)
    → ◌≡◌ {A = Fallible (Option Stored)}
        (ok (lookup j n))
        (if k == j then ok none else ok (lookup j m))
got_removed m n k j h =
    rw (← ok_inj (erase k m) n h, lookup-erase k j m)
      (elim (Bool-cases (k == j)) [ inl e ↦ rw e refl | inr e ↦ rw e refl ])

plain_maps : MapLaws plain_api
plain_maps = record { get_set = got_set; get_remove = got_removed }

plain_laws : ConfigLaws plain_api
plain_laws = record {
  maps = plain_maps;
  reveal_plain = λ t. refl;
  reveal_secure = λ t. refl;
  plain_flags = λ t. (refl, refl);
  secure_flags = λ t. (refl, refl);
  decrypt_encrypt = λ t c h. ap ok (sym (ok_inj t c h));
}

abbrev web : Stack plain_api
web = record { spec = resolved; ref_name = "dev"; config = []; file = none }

abbrev hidden : ConfigValue
hidden = record { value = "hunter2"; secret = true; object = false }

get_config-set_config_example :
    get_config plain_api (set_config plain_api web "password" hidden).1 "web:password" ≡ (
      if "web:password" == "web:password"
      then ok (some hidden)
      else get_config plain_api web "web:password")
unfolding parse_config_key set_config concat set_config_locked save_project_stack project_stack_path
get_config-set_config_example =
    get_config-set_config plain_api plain_laws web "password" "web:password" "web:password"
      "web:password" hidden refl refl refl refl

get_config-remove_config_example :
    get_config plain_api (remove_config plain_api web "web:password").1 "password"
    ≡ (if "web:password" == "web:password" then ok none else get_config plain_api web "password")
unfolding parse_config_key remove_config concat save_project_stack project_stack_path
get_config-remove_config_example =
    get_config-remove_config plain_api plain_maps web "web:password" "password" "web:password"
      "web:password" refl refl refl

-- A crypter that forgets what it encrypts.
abbrev blind_api : ConfigApi
blind_api = record plain_api { encrypt = λ t. ok "***"; Map = Dict Stored; Value = Stored }

-- `StoreAccount` writes the token, and the constructor of the HTTP backend reads it.
abbrev one_file : CredentialsApi
one_file = record {
  credentials_dir = "/creds";
  home_dir = ok "/home";
  temp_dir = "/tmp";
  join = λ d f. concat (d ∷ "/" ∷ f ∷ []);
  read_error = λ p. none;
  remove_error = λ p. none;
  not_there = λ p. plain_error "no such file";
  write_error = λ p. none;
  default_url = λ u. u;
  store_account = λ u t i files. (none, insert "/creds/credentials.json" t files);
  Backend = Option String;
  diy_new = λ u. ok none;
  http_new = λ u i files. (ok (lookup "/creds/credentials.json" files), files);
}

abbrev service : BackendSpec
service = record { url = "https://api.example"; token = "tok"; insecure = false }

with_spec_credentials-restores_example :
    ((with_spec_credentials one_file (one_file.http_new service.url service.insecure) service []).0
      ≡ (one_file.http_new service.url service.insecure (with_account one_file service []).1).0)
    × (lookup "/creds/credentials.json"
          (with_spec_credentials one_file
            (one_file.http_new service.url service.insecure)
            service
            []).1
        ≡ (if credentials_file_path one_file == "/creds/credentials.json"
            then lookup (credentials_file_path one_file) []
            else lookup "/creds/credentials.json"
                (one_file.http_new service.url service.insecure
                  (with_account one_file service []).1).1))
unfolding lookup insert credentials_file_path concat
with_spec_credentials-restores_example =
    with_spec_credentials-restores one_file (one_file.http_new service.url service.insecure) service
      [] "/creds/credentials.json" refl refl refl refl refl (λ e. refl)

abbrev new_stacks : BackendApi
new_stacks = record {
  credentials = one_file;
  Reference = String;
  Handle = String;
  working_dir = ok "/work";
  parse_reference = λ b n. ok n;
  get_stack = λ b r. ok none;
  create_stack = λ b r root. ok "dev";
  handle_name = λ h. h;
  secrets_manager = λ s h. ok tt;
}

abbrev three : Dict ConfigValue
three = ("size", record { value = "3"; secret = false; object = false }) ∷ []

abbrev sized : StackSpec
sized = record requested { config = three }

abbrev opened : Stack plain_api
opened = record {
  spec = record resolved { config = three };
  ref_name = "dev";
  config = ("web:size", record { text = "3"; secret = false; object = false }) ∷ [];
  file = some (("web:size", record { text = "3"; secret = false; object = false }) ∷ []);
}

get_config-open_stack_example :
    (spec : StackSpec) × (validate files_only sized ≡ ok spec)
    × Reads plain_api plain_laws spec opened "size" "web:size"
unfolding parse_config_key open_stack concat validate after_last_slash looks_like_json trim_space
    open_backend load_project_stack project_stack_path set_config_locked save_project_stack insert
get_config-open_stack_example =
    get_config-open_stack plain_api plain_laws files_only new_stacks sized opened [] "size"
      "web:size" (refl, tt) refl refl
