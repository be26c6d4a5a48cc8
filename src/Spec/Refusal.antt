-- ===== src/Spec/Refusal.antt =====
-- engine/spec.go: the errors of `validate`.
use pulumi_engine.Prelude.{
  String, Bool, true, false, ◌≡◌, refl, [], ◌∷◌, Option, none, some, Dict, ◌||◌, ◌&&◌,
  if◌then◌else◌, ◌==◌, not,
}
use pulumi_engine.Text.{contains, concat}
use pulumi_engine.Errors.{ErrorKind, GoError, InvalidSpec, invalid, invalid_spec, find_as}
use pulumi_engine.Errors.Classify.{kind_of}
use pulumi_engine.Errors.Fallible.{Fallible, ok, err, ◌>>=◌, reject_if, map_err}
use pulumi_engine.Spec.{
  StackSpec, ProjectSpec, BackendSpec, SecretsSpec, ConfigValue, SpecEnv, bad_env, bad_config,
  check_name, check_backend, resolve_dir, resolve_name, resolve_project, resolve_provider,
  resolve_secrets, validate, looks_like_json,
}

abbrev pub IsInvalid : GoError → Type 0
IsInvalid e = kind_of e ≡ ErrorKind.invalid_spec

-- A computation whose errors are all an `InvalidSpec`.
pub record Refuses {A : Type 0} (m : Fallible A) : Type 0 where
  pub at : (e : GoError) → m ≡ err e → IsInvalid e

kind_of-invalid_spec : (i : InvalidSpec) → IsInvalid (invalid_spec i)
unfolding kind_of find_as
kind_of-invalid_spec i = refl

ok-Refuses : {A : Type 0} (a : A) → Refuses (ok a)
ok-Refuses a = record { at = λ e h. absurd (cc h) }

err-Refuses : {A : Type 0} (i : InvalidSpec) → Refuses {A = A} (err (invalid_spec i))
err-Refuses i = record {
  at = λ e h. let same : e ≡ invalid_spec i = cc h in rw same (kind_of-invalid_spec i);
}

bind-Refuses :
    {A B : Type 0} (m : Fallible A) (f : A → Fallible B)
    → Refuses m
    → ((a : A) → Refuses (f a))
    → Refuses (m >>= f)
bind-Refuses (ok a) f hm hf = hf a
bind-Refuses (err e) f hm hf = record {
  at = λ other h. let same : other ≡ e = cc h in rw same (hm.at e refl);
}

if-Refuses :
    {A : Type 0} (b : Bool) (m n : Fallible A)
    → Refuses m
    → Refuses n
    → Refuses (if b then m else n)
if-Refuses true m n hm hn = hm
if-Refuses false m n hm hn = hn

reject_if-Refuses : (bad : Bool) (i : InvalidSpec) → Refuses (reject_if bad (invalid_spec i))
reject_if-Refuses true i = err-Refuses i
reject_if-Refuses false i = ok-Refuses tt

map_err-Refuses :
    {A : Type 0} (f : GoError → InvalidSpec) (m : Fallible A)
    → Refuses (map_err (λ e. invalid_spec (f e)) m)
map_err-Refuses f (ok a) = ok-Refuses a
map_err-Refuses f (err e) = err-Refuses (f e)

option-Refuses :
    (o : Option String) (f : String → InvalidSpec)
    → Refuses (elim o [ none ↦ ok tt | some m ↦ err (invalid_spec (f m)) ])
option-Refuses none f = ok-Refuses tt
option-Refuses (some m) f = err-Refuses (f m)

ruleset refusals = (
  bind-Refuses, if-Refuses, reject_if-Refuses, map_err-Refuses, option-Refuses, err-Refuses,
  ok-Refuses,
)

bad_env-Refuses : (m : Dict String) → Refuses (bad_env m)
unfolding bad_env
bad_env-Refuses [] = ok-Refuses tt
bad_env-Refuses ((k, v) ∷ m) =
    let rest = bad_env-Refuses m in
    if-Refuses (k == "" || contains k "=") _ (bad_env m) (err-Refuses _) rest

bad_config-Refuses : (m : Dict ConfigValue) → Refuses (bad_config m)
unfolding bad_config
bad_config-Refuses [] = ok-Refuses tt
bad_config-Refuses ((k, v) ∷ m) =
    let rest = bad_config-Refuses m in
    if-Refuses (k == "") (err (invalid "config" "empty config key")) _ (err-Refuses _) (
      if-Refuses (v.object && not (looks_like_json v.value))
        (err (invalid (concat ("config." ∷ k ∷ [])) "object values must be JSON encoded"))
        (bad_config m) (err-Refuses _) rest)

module _ (world : SpecEnv) where
  check_name-Refuses :
      (name : String) (f : String → InvalidSpec)
      → Refuses (check_name world name (λ m. invalid_spec (f m)))
  unfolding check_name
  check_name-Refuses name f = option-Refuses (world.parse_stack_name name) f

  check_backend-Refuses : (b : BackendSpec) → Refuses (check_backend world b)
  unfolding check_backend
  check_backend-Refuses b = search (refusals)

  resolve_dir-Refuses : (dir : String) → Refuses (resolve_dir world dir)
  unfolding resolve_dir
  resolve_dir-Refuses dir = search (refusals)

  resolve_name-Refuses : (name dir : String) → Refuses (resolve_name world name dir)
  unfolding resolve_name
  resolve_name-Refuses name dir = search (refusals)

  resolve_project-Refuses : (p : ProjectSpec) → Refuses (resolve_project world p)
  unfolding resolve_project
  resolve_project-Refuses p =
      search (refusals, resolve_dir-Refuses, resolve_name-Refuses, check_name-Refuses)

  resolve_secrets-Refuses : (s : SecretsSpec) (diy : Bool) → Refuses (resolve_secrets world s diy)
  unfolding resolve_secrets resolve_provider
  resolve_secrets-Refuses s diy = search (refusals)

  -- Every error of `validate` is an invalid spec for `KindOf`, whatever Pulumi's packages and the
  -- file system answer.
  pub validate-IsInvalid :
      (s : StackSpec) (e : GoError) → validate world s ≡ err e → kind_of e ≡ ErrorKind.invalid_spec
  unfolding validate
  validate-IsInvalid s e h =
      let all : Refuses (validate world s) =
        search
          (
            refusals, check_name-Refuses, check_backend-Refuses, resolve_project-Refuses,
            resolve_secrets-Refuses, bad_env-Refuses, bad_config-Refuses,
          )
          depth 12 in
      all.at e h
