-- ===== src/Tests/Handles.antt =====
-- capi/capi.go: a host of an engine whose stacks and operations are the counts of those before.
use pulumi_engine.Prelude.{
  ℕ, ◌+◌, ◌<◌, ◌≢◌, Bool, true, false, ◌≡◌, refl, List, [], ◌∷◌, none, is_some, inl, arith,
}
use pulumi_engine.Errors.Fallible.{ok}
use pulumi_engine.Capi.{
  null, handle, minus_one, plain_reply, error_reply, unknown_stack, EngineApi, Registry, set_err,
  stack_open, stack_close, op_start, find,
}
use pulumi_engine.Capi.Stacks.{Call, open_call, list_call, stack_export, step, run}
use pulumi_engine.Capi.Reuse.{IsRegistry, step-IsRegistry, stack_close-final, stack_open-fresh}
use pulumi_engine.Tests.Specs.{requested}

abbrev counting : EngineApi
counting = record {
  World = ℕ;
  Stack = ℕ;
  Operation = ℕ;
  decode_spec = λ s. ok requested;
  decode_request = λ s. ok (record { kind = s; program = none; options = "" });
  decode_value = λ s. ok (record { value = s; secret = false; object = false });
  decode_tags = λ s. ok [];
  open_stack = λ s w. (ok w, w + 1);
  start = λ k st p o w. (w, w + 1);
  cancel_operation = λ o w. w;
  wait = λ o w. (("{}", none), w);
  unencodable_event = λ m. m;
  export = λ st w. (ok "{}", w);
  import = λ t st w. (ok tt, w);
  outputs = λ b st w. (ok "{}", w);
  set_config = λ k v st w. (ok tt, w);
  get_config = λ k st w. (ok none, w);
  remove = λ b st w. (ok tt, w);
  cancel_stack = λ st w. (ok tt, w);
  get_tags = λ st w. (ok "{}", w);
  set_tags = λ m st w. (ok tt, w);
  check_options = λ o. ok o;
  history = λ o st w. (ok "[]", w);
  decode_listing = λ s. ok s;
  list_stacks = λ s w. (ok "[]", w);
}

abbrev fresh : Registry counting
fresh = record { next = 0; stacks = []; ops = []; world = 0 }

fresh-IsRegistry : IsRegistry fresh
unfolding find
fresh-IsRegistry = record {
  zero_free = (refl, refl);
  unused = λ h later. (refl, refl);
  apart = λ h. inl refl;
}

-- one stack, under handle 1
abbrev one_stack : Registry counting
one_stack = (stack_open counting "{}" fresh).1

step-IsRegistry_example : IsRegistry (step counting (open_call "{}") fresh).1
step-IsRegistry_example =
    step-IsRegistry counting (open_call "{}") fresh (omega arith) fresh-IsRegistry

abbrev more : List Call
more = open_call "{}" ∷ list_call "{}" ∷ []

abbrev later : Registry counting
later = run counting more (stack_close counting 1 one_stack).1

stack_close-final_example :
    (stack_close counting 1 later ≡ (plain_reply minus_one, later))
    × (op_start counting 1 "up" later ≡ (error_reply (handle 0) (unknown_stack 1), later))
    × (stack_export counting 1 later ≡ (error_reply null (unknown_stack 1), later))
unfolding stack_open
stack_close-final_example =
    stack_close-final counting 1 more one_stack "up" (omega arith) (omega arith) later refl

one_is_given : (stack_open counting "{}" fresh).0.returned ≢ handle 0
unfolding stack_open
one_is_given e = cc e

stack_open-fresh_example :
    (h : ℕ) × ((stack_open counting "{}" fresh).0.returned ≡ handle h)
    × (0 < h)
    × (find h fresh.stacks ≡ none)
    × (find h fresh.ops ≡ none)
    × (is_some (find h (stack_open counting "{}" fresh).1.stacks) ≡ true)
    × ((g : ℕ) → g ≢ h → find g (stack_open counting "{}" fresh).1.stacks ≡ find g fresh.stacks)
    × ((is_null : Bool) → set_err is_null (stack_open counting "{}" fresh).0.error ≡ none)
stack_open-fresh_example =
    stack_open-fresh counting "{}" fresh fresh-IsRegistry (omega arith) one_is_given
