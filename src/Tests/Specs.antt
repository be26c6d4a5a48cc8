-- ===== src/Tests/Specs.antt =====
-- engine/spec.go: a spec for a stack in a directory of files, and one that is refused.
use pulumi_engine.Prelude.{true, false, ◌==◌, ◌≡◌, refl, [], ◌∷◌, none, some, if◌then◌else◌, inr}
use pulumi_engine.Text.{has_prefix, after_last_slash, trim_space}
use pulumi_engine.Errors.{ErrorKind, invalid}
use pulumi_engine.Errors.Classify.{kind_of}
use pulumi_engine.Errors.Fallible.{ok}
use pulumi_engine.Spec.{StackSpec, SpecEnv, validate, looks_like_json}
use pulumi_engine.Spec.Valid.{IsValid, validate-IsValid}
use pulumi_engine.Spec.Again.{validate_again}
use pulumi_engine.Spec.Refusal.{validate-IsInvalid}

abbrev pub files_only : SpecEnv
files_only = record {
  parse_stack_name = λ n. if n == "" then some "a stack name cannot be empty" else none;
  is_diy_url = λ u. has_prefix u "file://";
  abs = λ d. ok d;
  is_dir = λ d. d == "/work";
  load_project_name = λ p. ok "web";
}

-- No provider is chosen, and the project is named by its file.
abbrev pub requested : StackSpec
requested = record {
  name = "acme/web/dev";
  project = record { name = ""; dir = "/work"; description = "" };
  backend = record { url = "file:///state"; token = ""; insecure = false };
  secrets = record { provider = ""; passphrase = "pw"; passphrase_set = false };
  config = ("size", record { value = "3"; secret = false; object = true }) ∷ [];
  create = true;
  env = ("REGION", "eu") ∷ [];
}

abbrev pub resolved : StackSpec
resolved = record requested {
  project = record { name = "web"; dir = "/work"; description = "" };
  secrets = record { provider = "passphrase"; passphrase = "pw"; passphrase_set = false };
}

abbrev nameless : StackSpec
nameless = record requested { name = "" }

requested_accepted : validate files_only requested ≡ ok resolved
unfolding validate after_last_slash looks_like_json trim_space
requested_accepted = refl

resolved-IsValid : IsValid files_only resolved
resolved-IsValid = (validate-IsValid files_only requested resolved requested_accepted).0

validate-IsValid_example :
    IsValid files_only resolved
    × (resolved ≡ record requested { project = resolved.project; secrets = resolved.secrets })
    × (resolved.secrets ≡ record requested.secrets { provider = resolved.secrets.provider })
validate-IsValid_example = validate-IsValid files_only requested resolved requested_accepted

validate_again_example : validate files_only resolved ≡ ok resolved
validate_again_example =
    validate_again files_only resolved resolved-IsValid (inr (refl, refl)) refl refl

validate-IsInvalid_example :
    kind_of (invalid "name" "stack name is required") ≡ ErrorKind.invalid_spec
unfolding validate
validate-IsInvalid_example =
    validate-IsInvalid files_only nameless (invalid "name" "stack name is required") refl
