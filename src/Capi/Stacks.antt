-- ===== src/Capi/Stacks.antt =====
-- capi/capi.go: the functions of the C ABI on a stack, and the calls that a host makes as steps of
-- the registry.
use pulumi_engine.Prelude.{ℕ, String, Bool, ◌==◌, List, [], ◌∷◌, none, some, if◌then◌else◌}
use pulumi_engine.Errors.Fallible.{Fallible, ok, err}
use pulumi_engine.Capi.{
  Returned, null, minus_one, Reply, error_reply, unknown_stack, EngineApi, text_reply, status_reply,
  option_reply, undecoded, Registry, stack_open, stack_close, op_start, op_next_event, op_cancel,
  op_wait, op_release, Polled, find,
}

module _ (api : EngineApi) where
  open api use {World, Stack}

  -- the guard of every function on a stack: it returns `refused` and an error for an unknown handle
  unfoldable pub with_stack :
      Returned → ℕ → Registry api → (Stack → World → Reply × World) → Reply × Registry api
  with_stack refused h r call = elim (find h r.stacks) [
    | none ↦ (error_reply refused (unknown_stack h), r)
    | some st ↦ let (reply, w) = call st r.world in (reply, record r { world = w })
  ]

  -- the body of a function that encodes what the engine returns
  unfoldable pub replies :
      {A : Type 0}
      → (Fallible A → Reply)
      → (Stack → World → Fallible A × World)
      → Stack
      → World
      → Reply × World
  replies encode call st w = let (t, after) = call st w in (encode t, after)

  -- the body of a function that decodes its argument first
  unfoldable pub with_argument :
      {A : Type 0}
      → Returned
      → String
      → Fallible A
      → (A → Stack → World → Reply × World)
      → Stack
      → World
      → Reply × World
  with_argument refused field (ok a) call st w = call a st w
  with_argument refused field (err e) call st w = (error_reply refused (undecoded field e), w)

  unfoldable pub stack_export : ℕ → Registry api → Reply × Registry api
  unfolding with_stack replies
  stack_export h r = with_stack null h r (replies text_reply api.export)

  unfoldable pub stack_import : ℕ → String → Registry api → Reply × Registry api
  unfolding with_stack replies
  stack_import h deployment r =
      with_stack minus_one h r (replies status_reply (api.import deployment))

  -- `show` is `showSecrets != 0`
  unfoldable pub stack_outputs : ℕ → Bool → Registry api → Reply × Registry api
  unfolding with_stack replies
  stack_outputs h show r = with_stack null h r (replies text_reply (api.outputs show))

  unfoldable pub stack_set_config : ℕ → String → String → Registry api → Reply × Registry api
  unfolding with_stack with_argument replies
  stack_set_config h key value r = with_stack minus_one h r (
      with_argument minus_one "value" (api.decode_value value)
        (λ v. replies status_reply (api.set_config key v)))

  unfoldable pub stack_get_config : ℕ → String → Registry api → Reply × Registry api
  unfolding with_stack replies
  stack_get_config h key r = with_stack null h r (replies option_reply (api.get_config key))

  unfoldable pub stack_remove : ℕ → Bool → Registry api → Reply × Registry api
  unfolding with_stack replies
  stack_remove h force r = with_stack minus_one h r (replies status_reply (api.remove force))

  unfoldable pub stack_cancel : ℕ → Registry api → Reply × Registry api
  unfolding with_stack replies
  stack_cancel h r = with_stack minus_one h r (replies status_reply api.cancel_stack)

  unfoldable pub stack_get_tags : ℕ → Registry api → Reply × Registry api
  unfolding with_stack replies
  stack_get_tags h r = with_stack null h r (replies text_reply api.get_tags)

  unfoldable pub stack_set_tags : ℕ → String → Registry api → Reply × Registry api
  unfolding with_stack with_argument replies
  stack_set_tags h tags r = with_stack minus_one h r (
      with_argument minus_one "tags" (api.decode_tags tags)
        (λ m. replies status_reply (api.set_tags m)))

  unfoldable pub stack_history : ℕ → String → Registry api → Reply × Registry api
  unfolding with_stack with_argument replies
  stack_history h options r =
      let opts = if options == "" then ok "" else api.check_options options in
      with_stack null h r
        (with_argument null "options" opts (λ o. replies text_reply (api.history o)))

  unfoldable pub list_stacks : String → Registry api → Reply × Registry api
  list_stacks request r = elim (api.decode_listing request) [
    | err e ↦ (error_reply null (undecoded "request" e), r)
    | ok l ↦ let (t, w) = api.list_stacks l r.world in (text_reply t, record r { world = w })
  ]

-- The calls that a host makes; a receive comes with what the channel or the timer gave.
pub data Call : Type 0 where
  open_call list_call : String → Call
  close_call export_call cancel_call get_tags_call : ℕ → Call
  start_call import_call get_config_call set_tags_call history_call : ℕ → String → Call
  outputs_call remove_call : ℕ → Bool → Call
  set_config_call : ℕ → String → String → Call
  next_event_call : ℕ → Polled → Call
  op_cancel_call wait_call release_call : ℕ → Call

module _ (api : EngineApi) where
  unfoldable pub step : Call → Registry api → Reply × Registry api
  step (open_call s) = stack_open api s
  step (list_call s) = list_stacks api s
  step (close_call h) = stack_close api h
  step (export_call h) = stack_export api h
  step (cancel_call h) = stack_cancel api h
  step (get_tags_call h) = stack_get_tags api h
  step (start_call h s) = op_start api h s
  step (import_call h s) = stack_import api h s
  step (get_config_call h s) = stack_get_config api h s
  step (set_tags_call h s) = stack_set_tags api h s
  step (history_call h s) = stack_history api h s
  step (outputs_call h b) = stack_outputs api h b
  step (remove_call h b) = stack_remove api h b
  step (set_config_call h k v) = stack_set_config api h k v
  step (next_event_call h p) = op_next_event api h p
  step (op_cancel_call h) = op_cancel api h
  step (wait_call h) = op_wait api h
  step (release_call h) = op_release api h

  -- the registry after a sequence of calls
  unfoldable pub run : List Call → Registry api → Registry api
  run [] r = r
  run (c ∷ cs) r = run cs (step c r).1
