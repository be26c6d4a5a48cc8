-- ===== src/Operation.antt =====
-- engine/operation.go: the state of an operation, its cancel signals, and what it does with each
-- event. `Outcome` has how it classifies its error and finishes.
pub mod Outcome
pub mod Stream
pub mod Cancelling
pub mod Scope
pub mod Race
pub mod Running
use pulumi_engine.Prelude.{
  ℕ, ◌+◌, String, Bool, true, false, not, ◌&&◌, ◌||◌, ◌==◌, List, [], ◌∷◌, ◌++◌, Option, none, some,
  Dict, lookup, insert, is_some, is_empty, any, eqb, if◌then◌else◌,
}
use pulumi_engine.Text.{concat, join, trim_space, contains, sort_by}
use pulumi_engine.Errors.{
  Kind, GoError, Foreign, ResourceOpFailed, PlanViolationResource, cancelled, concurrent_update,
  pending_operations, plan_violation, resource_op_failed, program_failed, unclassified, has_foreign,
}
use pulumi_engine.Errors.Classify.{is_lock_error}
use pulumi_engine.Errors.Message.{error_text}
use pulumi_engine.Events.{
  EventType, Event, EngineEvent, Stdout, Diagnostic, Policy, Summary, StepMetadata, is_cancel,
  is_error_diagnostic, event_from_api, no_payload,
}
use pulumi_engine.Queue
use pulumi_engine.Queue.{EventQueue, new_queue}
use pulumi_engine.Property.{Outputs}

pub record Result : Type 0 where
  pub kind : Kind
  pub summary : Option Summary
  pub changes : Dict ℕ
  pub outputs : Option Outputs
  pub failures : List ResourceOpFailed
  pub cancelled : Bool
  pub plan : Option String
  pub duration : ℕ

-- The channels `done`, `cancelCh` and `terminateCh` stand for whether they are closed.
pub record Operation : Type 0 where
  pub kind : Kind
  pub dry_run : Bool
  pub queue : EventQueue Event
  pub done : Bool
  pub result : Result
  pub err : Option GoError
  pub cancel_requested : Bool
  pub cancel_closed : Bool
  pub terminate_closed : Bool
  pub planned : Bool
  pub sequence : ℕ
  pub summary : Option Summary
  pub failures : List ResourceOpFailed
  pub error_diags : List String
  pub urn_diags : Dict (List String)

abbrev zero_result : Kind → Result
zero_result kind = record {
  kind = kind;
  summary = none;
  changes = [];
  outputs = none;
  failures = [];
  cancelled = false;
  plan = none;
  duration = 0;
}

abbrev pub new_operation : Kind → Operation
new_operation kind = record {
  kind = kind;
  dry_run = false;
  queue = new_queue;
  done = false;
  result = zero_result kind;
  err = none;
  cancel_requested = false;
  cancel_closed = false;
  terminate_closed = false;
  planned = false;
  sequence = 0;
  summary = none;
  failures = [];
  error_diags = [];
  urn_diags = [];
}

-- `Operation.Cancel`
unfoldable pub cancel : Operation → Operation
cancel o =
    if o.cancel_requested
    then record o { terminate_closed = true }
    else record o { cancel_requested = true; cancel_closed = true }

-- `Operation.push`, at the time now; its two critical sections run without another push between
unfoldable pub stamp : ℕ → Event → Operation → Event
stamp now ev o = record ev {
  api = record ev.api {
    sequence = o.sequence;
    timestamp = if eqb ev.timestamp 0 then now else ev.timestamp;
  };
}

unfoldable pub push : ℕ → Event → Operation → Operation
unfolding stamp
push now ev o = record o { sequence = o.sequence + 1; queue = Queue.push (stamp now ev o) o.queue }

-- `colors.Never.Colorize` is Pulumi's, so it is an argument.
module _ (colorize : String → String) where
  plain_diagnostic : Diagnostic → Diagnostic
  plain_diagnostic d = record d {
    message = colorize d.message;
    prefix = colorize d.prefix;
    color = "never";
  }

  plain_stdout : Stdout → Stdout
  plain_stdout s = record s { message = colorize s.message; color = "never" }

  plain_policy : Policy → Policy
  plain_policy p = record p { message = colorize p.message; color = "never" }

  -- the first switch of `handleEvent`
  strip_colors : EngineEvent → EngineEvent
  unfolding plain_diagnostic plain_stdout plain_policy
  strip_colors e = elim e.diagnostic_event [
    | some d ↦ record e { diagnostic_event = some (plain_diagnostic d) }
    | none ↦ elim e.stdout_event [
      | some s ↦ record e { stdout_event = some (plain_stdout s) }
      | none ↦ elim e.policy_event [
        | some p ↦ record e { policy_event = some (plain_policy p) }
        | none ↦ e
      ]
    ]
  ]

abbrev pub or_nil : Option (List String) → List String
or_nil none = []
or_nil (some ms) = ms

-- `m[k] = append(m[k], msg)`
unfoldable pub append_diag : String → String → Dict (List String) → Dict (List String)
append_diag urn msg m = insert urn (or_nil (lookup urn m) ++ msg ∷ []) m

abbrev pub failure_of : StepMetadata → ResourceOpFailed
failure_of m = record { urn = m.urn; type = m.type; op = m.op; provider = m.provider; message = "" }

-- the third branch of the second switch of `handleEvent`
abbrev record_diag : Option Diagnostic → Option String → Operation → Operation
record_diag (some d) (some msg) o = record o { urn_diags = append_diag d.urn msg o.urn_diags }
record_diag _ _ o = o

abbrev record_failed : Event → Option StepMetadata → Operation → Operation
record_failed ev (some m) o = record o { failures = o.failures ++ failure_of m ∷ [] }
record_failed ev none o = record_diag ev.diagnostic_event (is_error_diagnostic ev) o

abbrev record_summary : Event → Option Summary → Operation → Operation
record_summary ev (some s) o = record o { summary = some s }
record_summary ev none o = record_failed ev ev.res_op_failed_event o

-- the second switch of `handleEvent`: what error classification needs
unfoldable pub record_event : Event → Operation → Operation
record_event ev o = record_summary ev ev.summary_event o

-- `handleEvent`
unfoldable pub handle_event : (String → String) → ℕ → Event → Operation → Operation
unfolding strip_colors
handle_event colorize now ev o =
    let plain : Event = record ev { api = strip_colors colorize ev.api } in
    if is_cancel ev.type then o else push now plain (record_event plain o)

-- The events in the order in which `handleEvent` takes them, each with the time of its push.
pub handle_all : (String → String) → List (ℕ × Event) → Operation → Operation
handle_all colorize [] o = o
handle_all colorize ((now, ev) ∷ evs) o = handle_all colorize evs (handle_event colorize now ev o)
