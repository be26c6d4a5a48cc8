-- ===== src/Capi/Handles.antt =====
-- capi/capi.go: the handles of the registry over any sequence of calls.
use pulumi_engine.Prelude.{
  ℕ, ◌+◌, ◌%◌, ◌≡◌, refl, String, ◌==◌, if◌then◌else◌, Option-cases, inl, inr,
}
use pulumi_engine.Errors.Fallible.{ok, Fallible-cases}
use pulumi_engine.Capi.{
  Returned, null, minus_one, Reply, EngineApi, Registry, OpRequest, stack_open, stack_close,
  op_start, start_op, op_next_event, op_cancel, op_wait, op_release, Polled, find, text_reply,
  status_reply, option_reply, store, forget, word_size, requested_program, requested_kind,
}
use pulumi_engine.Capi.Stacks.{
  with_stack, with_argument, replies, stack_export, stack_import, stack_outputs, stack_set_config,
  stack_get_config, stack_remove, stack_cancel, stack_get_tags, stack_set_tags, stack_history,
  list_stacks, Call, open_call, list_call, close_call, export_call, cancel_call, get_tags_call,
  start_call, import_call, get_config_call, set_tags_call, history_call, outputs_call, remove_call,
  set_config_call, next_event_call, op_cancel_call, wait_call, release_call, step,
}

abbrev pub next_handle : {api : EngineApi} → Registry api → ℕ
next_handle r = (r.next + 1) % word_size

-- What one call does to the handles.
pub data Effect {api : EngineApi} (r s : Registry api) : Type 0 where
  kept : s.next ≡ r.next → s.stacks ≡ r.stacks → s.ops ≡ r.ops → Effect r s
  opened :
      (st : api.Stack)
      → s.next ≡ next_handle r
      → s.stacks ≡ store (next_handle r) st r.stacks
      → s.ops ≡ r.ops
      → Effect r s
  started :
      (op : api.Operation)
      → s.next ≡ next_handle r
      → s.stacks ≡ r.stacks
      → s.ops ≡ store (next_handle r) op r.ops
      → Effect r s
  stack_gone : (h : ℕ) → s.next ≡ r.next → s.stacks ≡ forget h r.stacks → s.ops ≡ r.ops → Effect r s
  op_gone : (h : ℕ) → s.next ≡ r.next → s.stacks ≡ r.stacks → s.ops ≡ forget h r.ops → Effect r s

module _ (api : EngineApi) where
  with_stack-Effect :
      (refused : Returned) (h : ℕ) (r : Registry api)
      (call : api.Stack → api.World → Reply × api.World)
      → Effect r (with_stack api refused h r call).1
  unfolding with_stack
  with_stack-Effect refused h r call = elim (Option-cases (find h r.stacks)) [
    | inl n ↦ rw (with_stack, n) (kept refl refl refl)
    | inr (st, n) ↦ rw (with_stack, n) (kept refl refl refl)
  ]

  stack_open-Effect : (s : String) (r : Registry api) → Effect r (stack_open api s r).1
  unfolding stack_open
  stack_open-Effect s r = elim (Fallible-cases (api.decode_spec s)) [
    | inl (spec, d) ↦ elim (Fallible-cases (api.open_stack spec r.world).0) [
      | inl (st, o) ↦ rw (stack_open, d, o) (opened st refl refl refl)
      | inr (e, o) ↦ rw (stack_open, d, o) (kept refl refl refl)
    ]
    | inr (e, d) ↦ rw (stack_open, d) (kept refl refl refl)
  ]

  start_op-Effect :
      (st : api.Stack) (req : OpRequest) (r : Registry api) → Effect r (start_op api st req r).1
  unfolding start_op
  start_op-Effect st req r = elim (Fallible-cases (requested_program api req.program)) [
    | inl (p, a) ↦ elim (Fallible-cases (requested_kind api req.kind)) [
      | inl (k, b) ↦ rw (start_op, a, b) (started _ refl refl refl)
      | inr (e, b) ↦ rw (start_op, a, b) (kept refl refl refl)
    ]
    | inr (e, a) ↦ rw (start_op, a) (kept refl refl refl)
  ]

  op_start-Effect : (h : ℕ) (s : String) (r : Registry api) → Effect r (op_start api h s r).1
  unfolding op_start
  op_start-Effect h s r = elim (Option-cases (find h r.stacks)) [
    | inl n ↦ rw (op_start, n) (kept refl refl refl)
    | inr (st, n) ↦ elim (Fallible-cases (api.decode_request s)) [
      | inl (req, d) ↦ rw (op_start, n, d) (start_op-Effect st req r)
      | inr (e, d) ↦ rw (op_start, n, d) (kept refl refl refl)
    ]
  ]

  stack_close-Effect : (h : ℕ) (r : Registry api) → Effect r (stack_close api h r).1
  unfolding stack_close
  stack_close-Effect h r = elim (Option-cases (find h r.stacks)) [
    | inl n ↦ rw (stack_close, n) (kept refl refl refl)
    | inr (st, n) ↦ rw (stack_close, n) (stack_gone h refl refl refl)
  ]

  op_release-Effect : (h : ℕ) (r : Registry api) → Effect r (op_release api h r).1
  unfolding op_release
  op_release-Effect h r = elim (Option-cases (find h r.ops)) [
    | inl n ↦ rw (op_release, n) (kept refl refl refl)
    | inr (st, n) ↦ rw (op_release, n) (op_gone h refl refl refl)
  ]

  op_cancel-Effect : (h : ℕ) (r : Registry api) → Effect r (op_cancel api h r).1
  unfolding op_cancel
  op_cancel-Effect h r = elim (Option-cases (find h r.ops)) [
    | inl n ↦ rw (op_cancel, n) (kept refl refl refl)
    | inr (st, n) ↦ rw (op_cancel, n) (kept refl refl refl)
  ]

  op_wait-Effect : (h : ℕ) (r : Registry api) → Effect r (op_wait api h r).1
  unfolding op_wait
  op_wait-Effect h r = elim (Option-cases (find h r.ops)) [
    | inl n ↦ rw (op_wait, n) (kept refl refl refl)
    | inr (op, n) ↦ elim (Option-cases (api.wait op r.world).0.1) [
      | inl f ↦ rw (op_wait, n, f) (kept refl refl refl)
      | inr (e, f) ↦ rw (op_wait, n, f) (kept refl refl refl)
    ]
  ]

  op_next_event-Effect :
      (h : ℕ) (p : Polled) (r : Registry api) → Effect r (op_next_event api h p r).1
  unfolding op_next_event
  op_next_event-Effect h p r = elim (Option-cases (find h r.ops)) [
    | inl n ↦ rw (op_next_event, n) (kept refl refl refl)
    | inr (op, n) ↦ rw (op_next_event, n) (kept refl refl refl)
  ]

  list_stacks-Effect : (s : String) (r : Registry api) → Effect r (list_stacks api s r).1
  unfolding list_stacks
  list_stacks-Effect s r = elim (Fallible-cases (api.decode_listing s)) [
    | inl (l, d) ↦ rw (list_stacks, d) (kept refl refl refl)
    | inr (e, d) ↦ rw (list_stacks, d) (kept refl refl refl)
  ]

  pub step-Effect : (c : Call) (r : Registry api) → Effect r (step api c r).1
  unfolding step stack_export stack_cancel stack_get_tags stack_import stack_get_config
      stack_set_tags stack_history stack_outputs stack_remove stack_set_config
  step-Effect (open_call s) r = stack_open-Effect s r
  step-Effect (list_call s) r = list_stacks-Effect s r
  step-Effect (close_call h) r = stack_close-Effect h r
  step-Effect (export_call h) r = with_stack-Effect null h r (replies api text_reply api.export)
  step-Effect (cancel_call h) r =
      with_stack-Effect minus_one h r (replies api status_reply api.cancel_stack)
  step-Effect (get_tags_call h) r = with_stack-Effect null h r (replies api text_reply api.get_tags)
  step-Effect (start_call h s) r = op_start-Effect h s r
  step-Effect (import_call h s) r =
      with_stack-Effect minus_one h r (replies api status_reply (api.import s))
  step-Effect (get_config_call h s) r =
      with_stack-Effect null h r (replies api option_reply (api.get_config s))
  step-Effect (set_tags_call h s) r = with_stack-Effect minus_one h r (
      with_argument api minus_one "tags" (api.decode_tags s)
        (λ m. replies api status_reply (api.set_tags m)))
  step-Effect (history_call h s) r = with_stack-Effect null h r (
      with_argument api null "options" (if s == "" then ok "" else api.check_options s)
        (λ o. replies api text_reply (api.history o)))
  step-Effect (outputs_call h b) r =
      with_stack-Effect null h r (replies api text_reply (api.outputs b))
  step-Effect (remove_call h b) r =
      with_stack-Effect minus_one h r (replies api status_reply (api.remove b))
  step-Effect (set_config_call h k v) r = with_stack-Effect minus_one h r (
      with_argument api minus_one "value" (api.decode_value v)
        (λ x. replies api status_reply (api.set_config k x)))
  step-Effect (next_event_call h p) r = op_next_event-Effect h p r
  step-Effect (op_cancel_call h) r = op_cancel-Effect h r
  step-Effect (wait_call h) r = op_wait-Effect h r
  step-Effect (release_call h) r = op_release-Effect h r
