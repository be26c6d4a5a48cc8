-- ===== src/Tests/Runs.antt =====
-- engine/operation.go and engine/plan.go: a refresh that fails in the backend, and plans.
use pulumi_engine.Prelude.{
  String, true, false, ◌==◌, ◌≡◌, ◌↔◌, ◌≢◌, refl, [], ◌∷◌, none, some, Dict, eq_iff, arith,
  if◌then◌else◌,
}
use pulumi_engine.Text.{trim_space}
use pulumi_engine.Errors.{refresh, plain_error}
use pulumi_engine.Errors.Fallible.{ok}
use pulumi_engine.Operation.{new_operation}
use pulumi_engine.Property.{no_outputs}
use pulumi_engine.Plan.{Options, PlanApi, raw_plan, load_plan, validate_plan_options}
use pulumi_engine.Plan.Loading.{load_plan_blank}
use pulumi_engine.Execute.{World, Run, execute}
use pulumi_engine.Execute.Brackets.{replay, left_behind, execute-replay}

-- A plan stands for its text, and the file blank.json is blank.
abbrev text_plans : PlanApi
text_plans = record {
  DeployPlan = String;
  read_file = λ p. ok (if p == "blank.json" then " \n" else "{}");
  Wire = String;
  parse = λ t. ok t;
  deserialize = λ t. ok t;
  encode = λ p. ok p;
  write_file = λ p t. none;
}

abbrev constrained : Options
constrained = record {
  dry_run = false;
  env = ("REGION", "eu") ∷ [];
  save_plan = "";
  generate_plan = false;
  plan = "blank.json";
  plan_json = "";
}

abbrev stack_env : Dict String
stack_env = ("REGION", "us") ∷ ("HOME", "/root") ∷ []

abbrev failing_backend : World
failing_backend = record {
  plans = text_plans;
  lock_free = true;
  program_given = false;
  prepare = ok tt;
  apply_config = ok tt;
  decrypt_config = ok tt;
  new_host = λ e. ok tt;
  start_sink = ok tt;
  stack_env = stack_env;
  colorize = λ s. s;
  events = [];
  backend_failure = some (plain_error "refresh failed");
  proposed = none;
  outputs = ok no_outputs;
  flush_returns = true;
}

home_not_region : ◌≢◌ {A = String} "HOME" "REGION"
home_not_region = ground (arith, eq_iff "HOME" "REGION")

load_plan_blank_example :
    (load_plan text_plans constrained ≡ ok none) ↔ ((trim_space " \n" == "") ≡ true)
unfolding raw_plan
load_plan_blank_example = load_plan_blank text_plans constrained " \n" refl

abbrev refreshing : World → Run
refreshing world = execute world (record constrained { plan = "" }) (new_operation refresh)

execute-replay_example :
    (true ≡ true → (refreshing failing_backend).returned ≡ true)
    × (replay [] (refreshing failing_backend).trace
        ≡ some (if (refreshing failing_backend).returned then [] else left_behind))
execute-replay_example =
    execute-replay failing_backend (record constrained { plan = "" }) (new_operation refresh)

-- A flush that waits for ever keeps the handle's lock.
stuck_flush-replay :
    replay [] (refreshing (record failing_backend { flush_returns = false })).trace
    ≡ some left_behind
unfolding execute replay validate_plan_options
stuck_flush-replay = refl
