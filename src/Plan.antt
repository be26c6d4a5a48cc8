-- ===== src/Plan.antt =====
-- engine/plan.go, and `savePlan` and `mergeEnv` of engine/operation.go: the options of update plans,
-- a plan's way in and out, and the environment of an operation.
pub mod Loading
use pulumi_engine.Prelude.{
  String, Bool, true, false, not, ◌&&◌, ◌||◌, ◌==◌, List, [], ◌∷◌, Option, none, some, Dict,
  overlay, is_empty, if◌then◌else◌,
}
use pulumi_engine.Text.{concat, trim_space}
use pulumi_engine.Errors.{
  Kind, preview, up, refresh, destroy, GoError, invalid, plain_error, unclassified, wrapped,
}
use pulumi_engine.Errors.Message.{error_text}
use pulumi_engine.Errors.Fallible.{Fallible, ok, err, ◌>>=◌, ◌>>◌, reject_if, map_err}
use pulumi_engine.Operation.{Operation, Result}

abbrev pub is_preview : Kind → Bool
is_preview preview = true
is_preview _ = false

abbrev pub is_up : Kind → Bool
is_up up = true
is_up _ = false

-- the options of an operation that `execute` itself reads
pub record Options : Type 0 where
  pub dry_run : Bool
  pub env : Dict String
  pub save_plan : String
  pub generate_plan : Bool
  pub plan : String
  pub plan_json : String

unfoldable pub validate_plan_options : Kind → Options → Fallible (Unit {0})
validate_plan_options kind opts = do
  reject_if (not (is_preview kind) && (not (opts.save_plan == "") || opts.generate_plan))
      (invalid "options.savePlan" "plans are generated by Preview only")
  reject_if (not (is_up kind) && (not (opts.plan == "") || not (opts.plan_json == "")))
      (invalid "options.plan" "a plan constrains Up only")
  reject_if (not (opts.plan == "") && not (opts.plan_json == ""))
      (invalid "options.plan" "set either plan (a path) or planJson, not both")

-- `json` and Pulumi's `stack` package on plans, and the file system.
pub record PlanApi : Type 1 where
  pub DeployPlan : Type 0
  pub read_file : String → Fallible String
  -- `json.Unmarshal` into the wire form, and `stack.DeserializePlan` of it
  pub Wire : Type 0
  pub parse : String → Fallible Wire
  pub deserialize : Wire → Fallible DeployPlan
  -- `encodePlan`
  pub encode : DeployPlan → Fallible String
  -- `os.WriteFile`: the error, if any
  pub write_file : String → String → Option GoError

module _ (api : PlanApi) where
  -- the text of the plan that the options give
  unfoldable pub raw_plan : Options → Fallible String
  raw_plan opts =
      if opts.plan == ""
      then ok opts.plan_json
      else map_err (λ e. invalid "options.plan" (error_text e)) (api.read_file opts.plan)

  decode_plan : String → Fallible api.DeployPlan
  decode_plan raw = do
    wire ←
        map_err (λ e. invalid "options.plan" (concat ("not a plan file: " ∷ error_text e ∷ [])))
          (api.parse raw)
    map_err (λ e. invalid "options.plan" (concat ("deserializing plan: " ∷ error_text e ∷ [])))
        (api.deserialize wire)

  some_plan : Fallible api.DeployPlan → Fallible (Option api.DeployPlan)
  some_plan found = found >>= λ p. ok (some p)

  unfoldable pub load_plan : Options → Fallible (Option api.DeployPlan)
  unfolding decode_plan some_plan
  load_plan opts = do
    raw ← raw_plan opts
    if trim_space raw == "" then ok none else some_plan (decode_plan raw)

  -- `o.result.Plan = encoded`
  with_plan : String → Operation → Operation
  with_plan encoded o = record o { result = record o.result { plan = some encoded } }

  write_plan : Options → String → Operation → Option GoError × Operation
  unfolding with_plan
  write_plan opts encoded o =
      if opts.save_plan == ""
      then (none, with_plan encoded o)
      else elim (api.write_file opts.save_plan encoded) [
        | some e ↦ (some (invalid "options.savePlan" (error_text e)), o)
        | none ↦ (none, with_plan encoded o)
      ]

  -- `savePlan`: the error, if any, and the operation after it
  unfoldable pub save_plan :
      Option api.DeployPlan → Options → Operation → Option GoError × Operation
  unfolding write_plan
  save_plan none opts o =
      (some (unclassified (plain_error "the preview did not produce a plan")), o)
  save_plan (some p) opts o = elim (api.encode p) [
    | err e ↦ (some (unclassified (wrapped "serializing plan" e)), o)
    | ok encoded ↦ write_plan opts encoded o
  ]

-- `mergeEnv`; nil for two empty maps is the empty map
unfoldable pub merge_env : Dict String → Dict String → Dict String
merge_env base op = if is_empty base && is_empty op then [] else overlay (overlay [] base) op
