-- ===== src/Execute.antt =====
-- engine/operation.go: `execute`, from its guards through the resources it takes to the backend's
-- operation, with a trace of what it acquires and releases. What it calls is the record World; the
-- events of the backend's run reach the operation through `handle_all`, and come in as a list.
pub mod Brackets
use pulumi_engine.Prelude.{
  ℕ, String, Bool, true, false, not, ◌&&◌, ◌||◌, ◌==◌, List, [], ◌∷◌, ◌++◌, Option, none, some,
  Dict, if◌then◌else◌,
}
use pulumi_engine.Text.{concat}
use pulumi_engine.Errors.{
  Kind, preview, up, refresh, destroy, kind_name, GoError, invalid, plain_error, concurrent_update,
  unclassified, wrapped,
}
use pulumi_engine.Errors.Message.{error_text}
use pulumi_engine.Errors.Fallible.{Fallible, ok, err}
use pulumi_engine.Events.{Event}
use pulumi_engine.Property.{Outputs}
use pulumi_engine.Operation.{Operation, handle_all}
use pulumi_engine.Plan.{
  Options, PlanApi, is_preview, is_up, validate_plan_options, load_plan, save_plan, merge_env,
}

-- What `execute` takes and gives back: the handle's lock, the prepared program, the listener on
-- standard output, the plugin host and the event sink.
pub data Resource : Type 0 where
  handle_lock prepared_program stdout_listener plugin_host event_sink : Resource

pub data Trace : Type 0 where
  acquired released : Resource → Trace
  -- the backend's operation, under the environment of the plugin host
  backend_ran : Dict String → Trace

-- What a part of `execute` returns, the operation after it, what it did, and whether it comes to
-- its end at all: where it does not, the goroutine waits for ever at the end of the trace.
pub record Run : Type 0 where
  pub failure : Option GoError
  pub op : Operation
  pub trace : List Trace
  pub returned : Bool

pub record World : Type 1 where
  pub plans : PlanApi
  -- whether `opMu.TryLock` succeeds
  pub lock_free : Bool
  -- whether a program is given, and whether its `prepare` fails
  pub program_given : Bool
  pub prepare : Fallible (Unit {0})
  -- the project's configuration check, and `cfg.Decrypt`
  pub apply_config : Fallible (Unit {0})
  pub decrypt_config : Fallible (Unit {0})
  -- `newOperationHost` under an environment, and `startEventSink`
  pub new_host : Dict String → Fallible (Unit {0})
  pub start_sink : Fallible (Unit {0})
  pub stack_env : Dict String
  pub colorize : String → String
  -- the backend's run: its events, its error, if any, and the plan that a preview makes
  pub events : List (ℕ × Event)
  pub backend_failure : Option GoError
  pub proposed : Option plans.DeployPlan
  -- `Outputs`, after the run
  pub outputs : Fallible Outputs
  -- whether the deferred `flushStdoutCapture` comes back: it waits for its line in the pump, which
  -- a prompt on the same line hides
  pub flush_returns : Bool

abbrev failing : GoError → Operation → Run
failing e o = record { failure = some e; op = o; trace = []; returned = true }

-- `defer release()` after an acquisition that succeeded: the release comes when the body has ended
abbrev pub bracket : Resource → Run → Run
bracket r body = record body {
  trace = acquired r ∷ body.trace ++ (if body.returned then released r ∷ [] else []);
}

-- `flushStdoutCapture`, before the listener is given back
abbrev pub with_flush : Bool → Run → Run
with_flush returns body = record body { returned = body.returned && returns }

abbrev is_refresh : Kind → Bool
is_refresh refresh = true
is_refresh _ = false

module _ (world : World) (opts : Options) where
  open world use {plans, stack_env}

  -- `if opErr == nil && ... { o.result.Outputs = &out }`
  with_outputs : Option GoError → Operation → Operation
  with_outputs (some e) o = o
  with_outputs none o =
      if (is_up o.kind || is_refresh o.kind) && not opts.dry_run
      then elim world.outputs [
        | ok out ↦ record o { result = record o.result { outputs = some out } }
        | err e ↦ o
      ]
      else o

  -- `savePlan` after a preview that succeeded, if a plan is asked for
  after_run : Option GoError → Operation → Option GoError × Operation
  after_run (some e) o = (some e, o)
  after_run none o =
      if is_preview o.kind && (not (opts.save_plan == "") || opts.generate_plan)
      then save_plan plans world.proposed opts o
      else (none, o)

  -- the backend's operation, whose events the forwarder or the sink hand to `handleEvent`
  run_backend : Operation → Run
  unfolding with_outputs after_run
  run_backend o =
      let (failure, finished) =
        after_run world.backend_failure (handle_all world.colorize world.events o) in
      record {
        failure = failure;
        op = with_outputs failure finished;
        trace = backend_ran (merge_env stack_env opts.env) ∷ [];
        returned = true;
      }

  -- the event sink, which takes the events of a refresh and a destroy
  behind_sink : Operation → Run
  unfolding run_backend
  behind_sink o = elim world.start_sink [
    | err e ↦ failing (unclassified e) o
    | ok _ ↦ bracket event_sink (run_backend o)
  ]

  by_kind : Kind → Operation → Run
  unfolding run_backend behind_sink
  by_kind preview o = run_backend o
  by_kind up o = run_backend o
  by_kind refresh o = behind_sink o
  by_kind destroy o = behind_sink o

  with_sink : Operation → Run
  unfolding by_kind
  with_sink o = by_kind o.kind o

  -- the plan that constrains an update
  with_loaded_plan : Operation → Run
  unfolding with_sink
  with_loaded_plan o =
      if is_up o.kind
      then elim (load_plan plans opts) [
        | err e ↦ failing e o
        | ok none ↦ with_sink o
        | ok (some p) ↦ with_sink (record o { planned = true })
      ]
      else with_sink o

  with_host : Operation → Run
  unfolding with_loaded_plan
  with_host o = elim world.apply_config [
    | err e ↦ failing (invalid "config" (error_text e)) o
    | ok _ ↦ elim world.decrypt_config [
      | err e ↦ failing (unclassified (wrapped "decrypting config" e)) o
      | ok _ ↦ elim (world.new_host (merge_env stack_env opts.env)) [
        | err e ↦ failing (unclassified e) o
        | ok _ ↦ bracket plugin_host (with_loaded_plan o)
      ]
    ]
  ]

  with_lock : Operation → Run
  unfolding with_host
  with_lock o =
      if not world.program_given && (is_preview o.kind || is_up o.kind)
      then failing (invalid "program" "a program is required for preview and up") o
      else elim world.prepare [
        | err e ↦ failing e o
        | ok _ ↦
            bracket prepared_program
              (bracket stdout_listener (with_flush world.flush_returns (with_host o)))
      ]

  -- `execute`
  unfoldable pub execute : Operation → Run
  unfolding with_lock
  execute o =
      if opts.dry_run && is_up o.kind
      then failing (invalid "options.dryRun" "use Preview instead of Up with DryRun") o
      else elim (validate_plan_options o.kind opts) [
        | err e ↦ failing e o
        | ok _ ↦
            if not world.lock_free
            then failing
                (concurrent_update (
                  plain_error (
                    concat
                      ("another " ∷ kind_name o.kind ∷ " is running on this stack handle" ∷ []))))
                o
            else bracket handle_lock (with_lock o)
      ]
