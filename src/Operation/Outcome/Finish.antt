-- ===== src/Operation/Outcome/Finish.antt =====
-- engine/operation.go: the error that `finish` settles on, and the result beside it.
use pulumi_engine.Prelude.{
  ℕ, Bool, any, not, ◌&&◌, ◌||◌, ◌≡◌, refl, true, false, ap, arith, List, [], ◌∷◌, ◌++◌, none, some,
  String, ◌∙◌, if◌then◌else◌, Dict,
}
use pulumi_engine.Text.{contains}
use pulumi_engine.Errors.{
  Kind, GoError, Foreign, PlanViolationResource, ResourceOpFailed, cancelled, has_foreign,
}
use pulumi_engine.Events.{Event}
use pulumi_engine.Errors.Classify.{is_lock_error}
use pulumi_engine.Errors.Message.{error_text}
use pulumi_engine.Operation.{Operation, new_operation, push, cancel, handle_event, record_event}
use pulumi_engine.Operation.Outcome.{
  settle, is_cancelled, finish, classify_operation_error, fill_failure_messages, plan_violations,
  summarise, from_stream,
}

-- What an operation takes before it finishes: an event, or a request to cancel.
pub data Act : Type 0 where
  handles : ℕ → Event → Act
  asks : Act

module _ (colorize : String → String) where
  abbrev pub after_acts : List Act → Operation → Operation
  after_acts [] o = o
  after_acts (handles now ev ∷ acts) o = after_acts acts (handle_event colorize now ev o)
  after_acts (asks ∷ acts) o = after_acts acts (cancel o)

abbrev pub is_request : Act → Bool
is_request (handles now ev) = false
is_request asks = true

handle_event-flags :
    (colorize : String → String) (now : ℕ) (ev : Event) (o : Operation)
    → ((handle_event colorize now ev o).cancel_requested ≡ o.cancel_requested)
      × ((handle_event colorize now ev o).result.cancelled ≡ o.result.cancelled)
      × ((handle_event colorize now ev o).kind ≡ o.kind)
unfolding handle_event record_event push
handle_event-flags colorize now ev o = ground arith

cancel-flags :
    (o : Operation)
    → ((cancel o).cancel_requested ≡ true)
      × ((cancel o).result.cancelled ≡ o.result.cancelled)
      × ((cancel o).kind ≡ o.kind)
unfolding cancel
cancel-flags o = ground arith

after_acts-flags :
    (colorize : String → String) (acts : List Act) (o : Operation)
    → ((after_acts colorize acts o).cancel_requested ≡ o.cancel_requested || any is_request acts)
      × ((after_acts colorize acts o).result.cancelled ≡ o.result.cancelled)
      × ((after_acts colorize acts o).kind ≡ o.kind)
after_acts-flags colorize [] o = ground arith
after_acts-flags colorize (handles now ev ∷ acts) o = ground (
  arith,
  after_acts-flags colorize acts (handle_event colorize now ev o),
  handle_event-flags colorize now ev o,
)
after_acts-flags colorize (asks ∷ acts) o =
    ground (arith, after_acts-flags colorize acts (cancel o), cancel-flags o)

from_stream-is_cancelled :
    (vs : List PlanViolationResource) (fs : List ResourceOpFailed) (ds : List String)
    (err : GoError)
    → is_cancelled (some (from_stream vs fs ds err)) ≡ false
from_stream-is_cancelled (v ∷ vs) fs ds err = refl
from_stream-is_cancelled [] (f ∷ fs) ds err = refl
from_stream-is_cancelled [] [] (d ∷ ds) err = refl
from_stream-is_cancelled [] [] [] err = refl

-- Whether an error by itself tells of a cancel.
abbrev pub tells_cancel : GoError → Bool
tells_cancel err =
    has_foreign Foreign.context_canceled err
    || (not (has_foreign Foreign.conflicting_update err || is_lock_error err)
        && has_foreign Foreign.cancelled_update err)

classify-is_cancelled :
    (pending : List String) (o : Operation) (err : GoError)
    → is_cancelled (some (classify_operation_error pending o err))
      ≡ o.cancel_requested || tells_cancel err
unfolding classify_operation_error
classify-is_cancelled pending o err = ground (
  arith,
  from_stream-is_cancelled (if o.planned then plan_violations o else []) o.failures o.error_diags
      err,
)

classify-requested :
    (pending : List String) (o : Operation) (err : GoError)
    → o.cancel_requested ≡ true
    → classify_operation_error pending o err ≡ cancelled o.kind
unfolding classify_operation_error
classify-requested pending o err h = rw h refl

-- What `finish` keeps of the operation's error, of its result and of its flags.
finish-settles :
    (now duration : ℕ) (pending : List String) (o : Operation) (err : GoError)
    → let final = classify_operation_error pending (summarise duration o) err in
      let failed = finish now duration pending (some err) o in
      (failed.err ≡ some final)
      × (failed.result.cancelled ≡ is_cancelled (some final) || o.result.cancelled)
      × ((finish now duration pending none o).err ≡ none)
      × ((finish now duration pending none o).result.cancelled ≡ o.result.cancelled)
unfolding finish settle push
finish-settles now duration pending o err = (refl, ground arith, refl, refl)

summarise-flags :
    (duration : ℕ) (o : Operation)
    → ((summarise duration o).cancel_requested ≡ o.cancel_requested)
      × ((summarise duration o).kind ≡ o.kind)
unfolding summarise fill_failure_messages
summarise-flags duration o = (refl, refl)

or_false : (b : Bool) → (b || false) ≡ b
or_false true = refl
or_false false = refl

-- An operation that has taken any events and requests to cancel, in any order, and then finishes:
-- with no error of the backend it ends with none, and is not cancelled, also after a request. With
-- an error, both its error and its result are cancelled exactly if a request came or the error
-- itself tells of a cancel: if it is a context's cancel, or a cancelled update and no conflicting
-- one and no lock error. And after a request the error is `Cancelled` for the operation's kind.
pub finish_after_cancel :
    (colorize : String → String) (kind : Kind) (acts : List Act) (now duration : ℕ)
    (pending : List String) (err : GoError)
    → let o = after_acts colorize acts (new_operation kind) in
      let quiet = finish now duration pending none o in
      let failed = finish now duration pending (some err) o in
      ((quiet.err ≡ none) × (quiet.result.cancelled ≡ false))
      × ((is_cancelled failed.err ≡ any is_request acts || tells_cancel err)
          × (failed.result.cancelled ≡ any is_request acts || tells_cancel err))
      × (any is_request acts ≡ true → failed.err ≡ some (cancelled kind))
finish_after_cancel colorize kind acts now duration pending err =
    let o = after_acts colorize acts (new_operation kind) in
    let flags = after_acts-flags colorize acts (new_operation kind) in
    let same = summarise-flags duration o in
    let c = classify-is_cancelled pending (summarise duration o) err ∙ rw (same.0, flags.0) refl in
    let kept = finish-settles now duration pending o err in
    (
      (kept.2, kept.3 ∙ flags.1),
      (rw kept.0 c, kept.1 ∙ rw (c, flags.1) (or_false _)),
      λ h.
          kept.0
          ∙ ap some (
              classify-requested pending (summarise duration o) err (same.0 ∙ flags.0 ∙ h)
              ∙ ap cancelled (same.1 ∙ flags.2)),
    )

-- An error that decides nothing by itself: no cancel was requested, and the error is no cancel,
-- conflict, lock or pending-operations error.
pub record IsUndecided (o : Operation) (err : GoError) : Type 0 where
  pub not_requested : o.cancel_requested ≡ false
  pub not_canceled : has_foreign Foreign.context_canceled err ≡ false
  pub not_conflicting : has_foreign Foreign.conflicting_update err ≡ false
  pub not_locked : is_lock_error err ≡ false
  pub not_cancelled : has_foreign Foreign.cancelled_update err ≡ false
  pub not_pending : contains (error_text err) "pending operations" ≡ false

-- Of the operation it reads the cancel flag only.
pub IsUndecided-flag :
    (o o' : Operation) (err : GoError)
    → o'.cancel_requested ≡ o.cancel_requested
    → IsUndecided o err
    → IsUndecided o' err
IsUndecided-flag o o' err e u = record {
  not_requested = e ∙ u.not_requested;
  not_canceled = u.not_canceled;
  not_conflicting = u.not_conflicting;
  not_locked = u.not_locked;
  not_cancelled = u.not_cancelled;
  not_pending = u.not_pending;
}

-- what `finish` takes from the event stream for such an error
abbrev pub stream_error : Operation → GoError → GoError
stream_error o err =
    from_stream (if o.planned then plan_violations o else []) o.failures o.error_diags err

pub classify-IsUndecided :
    (pending : List String) (o : Operation) (err : GoError)
    → IsUndecided o err
    → classify_operation_error pending o err ≡ stream_error o err
unfolding classify_operation_error
classify-IsUndecided pending o err u = simp (
  u.not_requested, u.not_canceled, u.not_conflicting, u.not_locked, u.not_cancelled, u.not_pending,
)

pub finish-IsUndecided :
    (now duration : ℕ) (pending : List String) (o : Operation) (err : GoError)
    → IsUndecided o err
    → (finish now duration pending (some err) o).err
      ≡ some (stream_error (fill_failure_messages o) err)
unfolding finish push fill_failure_messages plan_violations
finish-IsUndecided now duration pending o err u = ap some (
    classify-IsUndecided pending (summarise duration o) err
      (IsUndecided-flag o (summarise duration o) err refl u))

abbrev pub all_diags : Dict (List String) → List String
all_diags [] = []
all_diags ((urn, msgs) ∷ m) = msgs ++ all_diags m
