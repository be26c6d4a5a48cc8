-- ===== src/Operation/Outcome.antt =====
-- `fillFailureMessages` and `finish` of engine/operation.go, `planViolations` of engine/plan.go and
-- `classifyOperationError` of engine/errors.go: how an operation ends.
pub mod Failures
pub mod Finish
use pulumi_engine.Prelude.{
  ℕ, ◌+◌, String, Bool, true, false, not, ◌&&◌, ◌||◌, ◌==◌, List, [], ◌∷◌, ◌++◌, Option, none, some,
  Dict, lookup, insert, is_some, is_empty, any, eqb, if◌then◌else◌,
}
use pulumi_engine.Text.{concat, join, trim_space, contains, sort_by}
use pulumi_engine.Errors.{
  Kind, GoError, Foreign, ResourceOpFailed, PlanViolationResource, cancelled, concurrent_update,
  pending_operations, plan_violation, resource_op_failed, program_failed, unclassified, has_foreign,
}
use pulumi_engine.Errors.Classify.{is_lock_error}
use pulumi_engine.Errors.Message.{error_text}
use pulumi_engine.Events.{
  EventType, Event, EngineEvent, Stdout, Diagnostic, Policy, Summary, StepMetadata, is_cancel,
  is_error_diagnostic, event_from_api, no_payload,
}
use pulumi_engine.Queue
use pulumi_engine.Queue.{EventQueue, new_queue}
use pulumi_engine.Property.{Outputs}
use pulumi_engine.Operation.{Operation, Result, push, or_nil}

-- `fillFailureMessages`
with_message : Dict (List String) → ResourceOpFailed → ResourceOpFailed
with_message diags f =
    let msgs = or_nil (lookup f.urn diags) in
    if is_empty msgs then f else record f { message = join "\n" msgs }

with_messages : Dict (List String) → List ResourceOpFailed → List ResourceOpFailed
with_messages diags [] = []
with_messages diags (f ∷ fs) = with_message diags f ∷ with_messages diags fs

-- the diagnostics of resources that did not fail
program_diags : List ResourceOpFailed → Dict (List String) → List String
program_diags failed [] = []
program_diags failed ((urn, msgs) ∷ m) =
    (if any (λ f. f.urn == urn) failed then [] else msgs) ++ program_diags failed m

unfoldable pub fill_failure_messages : Operation → Operation
unfolding with_message with_messages program_diags
fill_failure_messages o = record o {
  failures = with_messages o.urn_diags o.failures;
  error_diags = program_diags o.failures o.urn_diags;
}

-- plan.go's `isPlanViolationDiag` and `planViolations`
unfoldable pub is_plan_violation_diag : String → Bool
is_plan_violation_diag msg =
    contains msg "violates plan"
    || contains msg "is not allowed by the plan"
    || contains msg "expected resource operations for"

violations_of : String → List String → List PlanViolationResource
violations_of urn [] = []
violations_of urn (m ∷ ms) =
    if is_plan_violation_diag m
    then record { urn = urn; message = trim_space m } ∷ violations_of urn ms
    else violations_of urn ms

all_violations : Dict (List String) → List PlanViolationResource
all_violations [] = []
all_violations ((urn, msgs) ∷ m) = violations_of urn msgs ++ all_violations m

unfoldable pub plan_violations : Operation → List PlanViolationResource
unfolding is_plan_violation_diag violations_of all_violations
plan_violations o = sort_by (λ r. r.urn) (all_violations o.urn_diags)

-- what is left of `classifyOperationError` when the error itself decides nothing
abbrev from_stream :
    List PlanViolationResource → List ResourceOpFailed → List String → GoError → GoError
from_stream (v ∷ vs) fs ds err = plan_violation (v ∷ vs)
from_stream [] (f ∷ fs) ds err = resource_op_failed f
from_stream [] [] (d ∷ ds) err = program_failed (join "\n" (d ∷ ds))
from_stream [] [] [] err = unclassified err

-- `classifyOperationError` of an error that is there; `pending` is what `pendingURNs` answers
unfoldable pub classify_operation_error : List String → Operation → GoError → GoError
classify_operation_error pending o err =
    let violations = if o.planned then plan_violations o else [] in
    if o.cancel_requested || has_foreign Foreign.context_canceled err
    then cancelled o.kind
    else if has_foreign Foreign.conflicting_update err || is_lock_error err
    then concurrent_update err
    else if has_foreign Foreign.cancelled_update err
    then cancelled o.kind
    else if contains (error_text err) "pending operations"
    then pending_operations pending err
    else from_stream violations o.failures o.error_diags err

classify_result : List String → Operation → Option GoError → Option GoError
classify_result pending o none = none
classify_result pending o (some err) = some (classify_operation_error pending o err)

abbrev changes_of : Option Summary → Dict ℕ
changes_of none = []
changes_of (some s) = s.resource_changes

-- `_, ok := err.(Cancelled)`
abbrev pub is_cancelled : Option GoError → Bool
is_cancelled (some (cancelled k)) = true
is_cancelled _ = false

-- the first critical section of `finish`
unfoldable pub summarise : ℕ → Operation → Operation
unfolding fill_failure_messages
summarise duration o =
    let filled = fill_failure_messages o in
    record filled {
      result = record o.result {
        kind = o.kind;
        summary = o.summary;
        changes = changes_of o.summary;
        failures = filled.failures;
        duration = duration;
      };
    }

unfoldable pub classified : List String → Option GoError → Operation → Operation
unfolding classify_result
classified pending err o =
    let final = classify_result pending o err in
    record o {
      err = final;
      result = record o.result {
        cancelled = if is_cancelled final then true else o.result.cancelled;
      };
    }

abbrev pub cancel_event : Event
cancel_event = record { type = EventType.cancel; api = record no_payload { cancel_event = true } }

-- `finish` up to the removal from the stack's running operations: the summary and the error
unfoldable pub settle : ℕ → List String → Option GoError → Operation → Operation
unfolding summarise classified
settle duration pending err o = classified pending err (summarise duration o)

-- after the removal: the terminator event
unfoldable pub terminate : ℕ → Operation → Operation
terminate now o = push now cancel_event o

-- the end of the queue, and `done`
unfoldable pub close_stream : Operation → Operation
close_stream o = record o { queue = Queue.close o.queue; done = true }

-- `finish` where nothing else happens between its steps; the goroutines that may push between them
-- are in Stream, Race and Running.
unfoldable pub finish : ℕ → ℕ → List String → Option GoError → Operation → Operation
unfolding settle terminate close_stream
finish now duration pending err o = close_stream (terminate now (settle duration pending err o))
