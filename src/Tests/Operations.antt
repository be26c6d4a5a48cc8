-- ===== src/Tests/Operations.antt =====
-- engine/operation.go: an update with a failed resource, one that is cancelled, the queue,
-- and the operations of a handle.
use pulumi_engine.Prelude.{
  ℕ, ◌+◌, any, ◌||◌, String, true, false, ◌≡◌, refl, List, [], ◌∷◌, ◌++◌, none, some, length,
}
use pulumi_engine.Errors.{
  up, refresh, GoError, ResourceOpFailed, plain_error, cancelled, resource_op_failed, has_foreign,
  find_as,
}
use pulumi_engine.Errors.Classify.{is_lock_error}
use pulumi_engine.Errors.Message.{error_text}
use pulumi_engine.Events.{Event, event_from_api, no_payload, classify_event}
use pulumi_engine.Queue
use pulumi_engine.Queue.{Action, pushes, closes, takes, receives, new_pump, run, step, Pump}
use pulumi_engine.Queue.Order.{
  accepted, contents, delivered_in_order, ended_received, turns, closed_queue_drains,
}
use pulumi_engine.Operation.{Operation, new_operation, handle_all, cancel, stamp}
use pulumi_engine.Operation.Running.{
  Handle, new_handle, start, alter, starts, cancels, opened, then_step, at_read, and_step,
}
use pulumi_engine.Operation.Running.Cancelled.{cancel_reaches_running}
use pulumi_engine.Operation.Outcome.{finish, is_cancelled}
use pulumi_engine.Operation.Outcome.Finish.{
  Act, handles, asks, after_acts, is_request, tells_cancel, finish_after_cancel, IsUndecided,
}
use pulumi_engine.Operation.Outcome.Failures.{
  failures_in, messages_in, reported, first_failure_reported,
}
use pulumi_engine.Operation.Stream.{
  stream_from, terminator, NoCancel, Numbered, final_stream, final_stream_lem,
}
use mathlib.Core.List.{Perm}
use pulumi_engine.Operation.Race.{
  Pushing, take_number, enqueue, Reach, begins, and_then, takes_number, queues, numbers, below,
  all_numbers, numbers_counted,
}

abbrev same_text : String → String
same_text s = s

abbrev broken : GoError
broken = plain_error "update failed"

abbrev diagnostic : Event
diagnostic = event_from_api (record no_payload {
  diagnostic_event = some (record {
    urn = "urn:a";
    prefix = "";
    message = "no such bucket";
    color = "";
    severity = "error";
  });
})

abbrev failed : Event
failed = event_from_api (record no_payload {
  res_op_failed_event =
      some (record { op = "create"; urn = "urn:a"; type = "bucket"; provider = "aws" });
})

abbrev events : List (ℕ × Event)
events = (5, diagnostic) ∷ (6, failed) ∷ []

abbrev failure : ResourceOpFailed
failure = record { urn = "urn:a"; type = "bucket"; op = "create"; provider = "aws"; message = "" }

-- A request to cancel between two events.
abbrev acts : List Act
acts = handles 5 diagnostic ∷ asks ∷ handles 6 failed ∷ []

-- the operation after an error diagnostic of a resource that did not fail
abbrev reported_only : Operation
reported_only = record (new_operation up) { urn_diags = ("urn:a", "boom" ∷ []) ∷ [] }

broken-IsUndecided : IsUndecided (new_operation up) broken
unfolding has_foreign find_as is_lock_error error_text
broken-IsUndecided = record {
  not_requested = refl;
  not_canceled = refl;
  not_conflicting = refl;
  not_locked = refl;
  not_cancelled = refl;
  not_pending = refl;
}

finish_after_cancel_example :
    let o = after_acts same_text acts (new_operation up) in
    let quiet = finish 9 3 [] none o in
    let stopped = finish 9 3 [] (some broken) o in
    ((quiet.err ≡ none) × (quiet.result.cancelled ≡ false))
    × ((is_cancelled stopped.err ≡ any is_request acts || tells_cancel broken)
        × (stopped.result.cancelled ≡ any is_request acts || tells_cancel broken))
    × (any is_request acts ≡ true → stopped.err ≡ some (cancelled up))
finish_after_cancel_example = finish_after_cancel same_text up acts 9 3 [] broken

first_failure_reported_example :
    (finish 9 3 [] (some broken) (handle_all same_text events (new_operation up))).err
    ≡ some (resource_op_failed (reported failure (messages_in same_text failure.urn events)))
unfolding failures_in classify_event event_from_api
first_failure_reported_example =
    first_failure_reported same_text up events 9 3 [] broken failure [] broken-IsUndecided refl

-- One event comes between the terminator and the end of the queue, and one after that.
abbrev batches : List (ℕ × Event) × List (ℕ × Event) × List (ℕ × Event)
batches = (events, (7, diagnostic) ∷ [], (10, failed) ∷ [])

final_stream_lem_example :
    let s = stream_from same_text 0 events in
    let t = stream_from same_text (length s + 1) ((7, diagnostic) ∷ []) in
    let out = final_stream same_text up batches 9 3 [] (some broken) in
    (out ≡ s ++ terminator (length s) 9 ∷ t) × (NoCancel s × NoCancel t) × Numbered 0 out
final_stream_lem_example =
    final_stream_lem same_text up events ((7, diagnostic) ∷ []) ((10, failed) ∷ []) 9 3 []
      (some broken)

-- Two pushes: the second to take its number is the first to queue its event.
abbrev taken : Pushing
taken = record {
  op = take_number (take_number (new_operation up));
  in_flight =
      stamp 9 failed (take_number (new_operation up)) ∷ stamp 9 diagnostic (new_operation up) ∷ [];
  lost = [];
}

abbrev overtaken : Pushing
overtaken = record taken {
  op =
      enqueue (stamp 9 diagnostic (new_operation up))
        (enqueue (stamp 9 failed (take_number (new_operation up))) taken.op);
  in_flight = [];
}

overtaken-Reach : Reach up overtaken
unfolding enqueue take_number Queue.push
overtaken-Reach =
    and_then
      (and_then (and_then (and_then begins (takes_number 9 diagnostic)) (takes_number 9 failed)) (
        queues [] (stamp 9 failed (take_number (new_operation up)))
          (stamp 9 diagnostic (new_operation up) ∷ []) refl))
      (queues [] (stamp 9 diagnostic (new_operation up)) [] refl)

overtaken-numbers : numbers overtaken.op.queue.items ≡ 1 ∷ 0 ∷ []
unfolding enqueue take_number stamp Queue.push
overtaken-numbers = refl

numbers_counted_example :
    Perm (all_numbers overtaken) (below overtaken.op.sequence)
    × (overtaken.op.queue.closed ≡ false → overtaken.lost ≡ [])
numbers_counted_example = numbers_counted up overtaken overtaken-Reach

-- Two events are pushed and received, and one comes after the close.
abbrev schedule : List (Action ℕ)
schedule =
    pushes 7 ∷ takes ∷ pushes 8 ∷ receives ∷ closes ∷ pushes 9 ∷ takes ∷ receives ∷ takes ∷ []

delivered_in_order_example : contents (run schedule new_pump) ≡ accepted false schedule
delivered_in_order_example = delivered_in_order schedule

ended_received_example : (run schedule new_pump).received ≡ accepted false schedule
unfolding run step
ended_received_example = ended_received schedule refl

abbrev shut : Pump ℕ
shut = record {
  queue = record { items = 8 ∷ []; closed = true };
  held = some 7;
  received = 6 ∷ [];
  ended = false;
}

closed_queue_drains_example :
    ((run (turns 3) shut).ended ≡ true) × ((run (turns 3) shut).received ≡ (6 ∷ []) ++ 7 ∷ 8 ∷ [])
closed_queue_drains_example = closed_queue_drains (some 7) (8 ∷ []) (6 ∷ [])

-- An update runs when `Cancel` reads; a refresh starts before it is cancelled.
abbrev before_cancel : Handle
before_cancel = start up false new_handle

abbrev all_read : Handle
all_read = record before_cancel { cancelling = 0 ∷ [] }

abbrev one_more : Handle
one_more = start refresh false all_read

abbrev after_cancel : Handle
after_cancel = record one_more { operations = alter 0 cancel one_more.operations; cancelling = [] }

cancel_reaches_running_example : (cancel (new_operation up)).cancel_requested ≡ true
unfolding start alter
cancel_reaches_running_example =
    cancel_reaches_running before_cancel after_cancel 0 (cancel (new_operation up))
      (then_step opened (starts up false)) refl
      (and_step (and_step at_read (starts refresh false)) (cancels 0 [] refl)) refl refl
