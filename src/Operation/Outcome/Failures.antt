-- ===== src/Operation/Outcome/Failures.antt =====
-- engine/operation.go and engine/errors.go: from the event stream to the error that is reported.
use mathlib.Core.List.{append_assoc, append-nil}
use pulumi_engine.Prelude.{
  ℕ, ◌≡◌, refl, false, arith, List, [], ◌∷◌, ◌++◌, Option, none, some, String, ◌∙◌, sym, ap,
  if◌then◌else◌, is_empty, ◌==◌, lookup, lookup-insert, eq_iff, Bool-cases, inl, inr,
}
use pulumi_engine.Text.{join}
use pulumi_engine.Errors.{Kind, GoError, ResourceOpFailed, resource_op_failed}
use pulumi_engine.Events.{Event, Diagnostic, StepMetadata, Summary, is_cancel, is_error_diagnostic}
use pulumi_engine.Operation.{
  Operation, new_operation, strip_colors, record_event, handle_event, handle_all, failure_of,
  append_diag, or_nil, push, record_diag, record_summary,
}
use pulumi_engine.Operation.Outcome.{finish, fill_failure_messages}
use pulumi_engine.Operation.Outcome.Finish.{
  IsUndecided, IsUndecided-flag, finish-IsUndecided, stream_error,
}

module _ (colorize : String → String) where
  abbrev plain : Event → Event
  plain ev = record ev { api = strip_colors colorize ev.api }

  -- The failure that an event reports, unless it is a summary too.
  abbrev failed_by : Option Summary → Option StepMetadata → List ResourceOpFailed
  failed_by none (some m) = failure_of m ∷ []
  failed_by _ _ = []

  abbrev failure_in : Event → List ResourceOpFailed
  failure_in ev = failed_by (plain ev).summary_event (plain ev).res_op_failed_event

  -- The failures that the events report, in order.
  unfoldable pub failures_in : List (ℕ × Event) → List ResourceOpFailed
  unfolding strip_colors
  failures_in [] = []
  failures_in ((now, ev) ∷ evs) =
      (if is_cancel ev.type then [] else failure_in ev) ++ failures_in evs

  failures-record_event :
      (ev : Event) (o : Operation)
      → (record_event ev o).failures
        ≡ o.failures ++ failed_by ev.summary_event ev.res_op_failed_event
  unfolding record_event
  failures-record_event ev o = ground (arith, append-nil o.failures)

  failures-handle_event :
      (now : ℕ) (ev : Event) (o : Operation)
      → (handle_event colorize now ev o).failures
        ≡ o.failures ++ (if is_cancel ev.type then [] else failure_in ev)
  unfolding handle_event push
  failures-handle_event now ev o = elim (Bool-cases (is_cancel ev.type)) [
    | inl stop ↦ rw stop (sym (append-nil o.failures))
    | inr go ↦ rw go (failures-record_event (plain ev) o)
  ]

  failures-handle_all :
      (evs : List (ℕ × Event)) (o : Operation)
      → (handle_all colorize evs o).failures ≡ o.failures ++ failures_in evs
  unfolding handle_all failures_in
  failures-handle_all [] o = sym (append-nil o.failures)
  failures-handle_all ((now, ev) ∷ evs) o =
      failures-handle_all evs (handle_event colorize now ev o)
      ∙ rw (failures-handle_event now ev o) (append_assoc o.failures _ _)

  -- The error message that an event gives for a resource.
  abbrev messages_by :
      String
      → Option Summary
      → Option StepMetadata
      → Option Diagnostic
      → Option String
      → List String
  messages_by urn none none (some d) (some msg) = if d.urn == urn then msg ∷ [] else []
  messages_by urn _ _ _ _ = []

  abbrev message_in : String → Event → List String
  message_in urn ev =
      messages_by urn ev.summary_event ev.res_op_failed_event ev.diagnostic_event
        (is_error_diagnostic ev)

  -- The error messages that the events give for a resource, in order.
  pub messages_in : String → List (ℕ × Event) → List String
  messages_in urn [] = []
  messages_in urn ((now, ev) ∷ evs) =
      (if is_cancel ev.type then [] else message_in urn (plain ev)) ++ messages_in urn evs

  abbrev diags_of : String → Operation → List String
  diags_of urn o = or_nil (lookup urn o.urn_diags)

  diags-record_diag :
      (urn : String) (d : Option Diagnostic) (m : Option String) (o : Operation)
      → diags_of urn (record_diag d m o) ≡ diags_of urn o ++ messages_by urn none none d m
  unfolding append_diag
  diags-record_diag urn (some d) (some msg) o =
      rw (lookup-insert d.urn urn (or_nil (lookup d.urn o.urn_diags) ++ msg ∷ []) o.urn_diags)
        (elim (Bool-cases (d.urn == urn)) [
          | inl same ↦ rw (same, (eq_iff d.urn urn).0 same) refl
          | inr other ↦ rw other (sym (append-nil _))
        ])
  diags-record_diag urn (some d) none o = sym (append-nil _)
  diags-record_diag urn none (some msg) o = sym (append-nil _)
  diags-record_diag urn none none o = sym (append-nil _)

  diags-record_summary :
      (urn : String) (ev : Event) (s : Option Summary) (m : Option StepMetadata) (o : Operation)
      → ev.res_op_failed_event ≡ m
      → diags_of urn (record_summary ev s o)
        ≡ diags_of urn o ++ messages_by urn s m ev.diagnostic_event (is_error_diagnostic ev)
  unfolding is_error_diagnostic
  diags-record_summary urn ev (some s) m o e = sym (append-nil _)
  diags-record_summary urn ev none (some m) o e = rw (e, append-nil) refl
  diags-record_summary urn ev none none o e =
      rw e (diags-record_diag urn ev.diagnostic_event (is_error_diagnostic ev) o)

  diags-record_event :
      (urn : String) (ev : Event) (o : Operation)
      → diags_of urn (record_event ev o) ≡ diags_of urn o ++ message_in urn ev
  unfolding record_event
  diags-record_event urn ev o =
      diags-record_summary urn ev ev.summary_event ev.res_op_failed_event o refl

  diags-handle_event :
      (urn : String) (now : ℕ) (ev : Event) (o : Operation)
      → diags_of urn (handle_event colorize now ev o)
        ≡ diags_of urn o ++ (if is_cancel ev.type then [] else message_in urn (plain ev))
  unfolding handle_event push
  diags-handle_event urn now ev o = elim (Bool-cases (is_cancel ev.type)) [
    | inl stop ↦ rw stop (sym (append-nil _))
    | inr go ↦ rw go (diags-record_event urn (plain ev) o)
  ]

  diags-handle_all :
      (urn : String) (evs : List (ℕ × Event)) (o : Operation)
      → diags_of urn (handle_all colorize evs o) ≡ diags_of urn o ++ messages_in urn evs
  unfolding handle_all messages_in
  diags-handle_all urn [] o = sym (append-nil _)
  diags-handle_all urn ((now, ev) ∷ evs) o =
      diags-handle_all urn evs (handle_event colorize now ev o)
      ∙ rw (diags-handle_event urn now ev o) (append_assoc (diags_of urn o) _ _)

  -- Events do not touch the cancel flag, nor whether a plan constrains the operation.
  flags-handle_all :
      (evs : List (ℕ × Event)) (o : Operation)
      → ((handle_all colorize evs o).cancel_requested ≡ o.cancel_requested)
        × ((handle_all colorize evs o).planned ≡ o.planned)
  unfolding handle_all handle_event record_event push
  flags-handle_all [] o = (refl, refl)
  flags-handle_all ((now, ev) ∷ evs) o =
      ground (arith, flags-handle_all evs (handle_event colorize now ev o))

-- A failure with the messages that the stream has for its resource.
abbrev pub reported : ResourceOpFailed → List String → ResourceOpFailed
reported f msgs = if is_empty msgs then f else record f { message = join "\n" msgs }

stream_error-failed :
    (o : Operation) (err : GoError) (f : ResourceOpFailed) (fs : List ResourceOpFailed)
    → o.planned ≡ false
    → o.failures ≡ f ∷ fs
    → stream_error (fill_failure_messages o) err
      ≡ resource_op_failed (reported f (or_nil (lookup f.urn o.urn_diags)))
unfolding fill_failure_messages
stream_error-failed o err f fs p e = simp (p, e)

-- When an operation that no plan constrains ends with an error that decides nothing by itself,
-- and resource operations failed on its stream, `Wait` reports the first of them, with the error
-- diagnostics of its resource, in order, as its message.
pub first_failure_reported :
    (colorize : String → String) (kind : Kind) (evs : List (ℕ × Event)) (now duration : ℕ)
    (pending : List String) (err : GoError) (f : ResourceOpFailed) (fs : List ResourceOpFailed)
    → IsUndecided (new_operation kind) err
    → failures_in colorize evs ≡ f ∷ fs
    → (finish now duration pending (some err) (handle_all colorize evs (new_operation kind))).err
      ≡ some (resource_op_failed (reported f (messages_in colorize f.urn evs)))
unfolding lookup
first_failure_reported colorize kind evs now duration pending err f fs u e =
    let o = handle_all colorize evs (new_operation kind) in
    let (requested, planned) = flags-handle_all colorize evs (new_operation kind) in
    finish-IsUndecided now duration pending o err
      (IsUndecided-flag (new_operation kind) o err requested u)
    ∙ ap some (
        stream_error-failed o err f fs planned
          (failures-handle_all colorize evs (new_operation kind) ∙ e)
        ∙ ap (λ ms. resource_op_failed (reported f ms))
            (diags-handle_all colorize f.urn evs (new_operation kind)))
