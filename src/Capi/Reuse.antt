-- ===== src/Capi/Reuse.antt =====
-- capi/capi.go: the handles that are given and closed.
use pulumi_engine.Prelude.{
  ℕ, ◌+◌, ◌<◌, ◌≤◌, ◌≡◌, ◌≢◌, refl, String, Bool, true, false, List, [], ◌∷◌, is_some, none, arith,
  Option-cases, ◌⊎◌, inl, inr, length,
}
use pulumi_engine.Errors.Fallible.{Fallible-cases}
use pulumi_engine.Capi.HandleMap.{find-store, find-forget}
use pulumi_engine.Capi.{
  null, handle, minus_one, plain_reply, error_reply, unknown_stack, set_err, EngineApi, Registry,
  stack_open, stack_close, op_start, find, word_size,
}
use pulumi_engine.Capi.Stacks.{with_stack, stack_export, Call, step, run}
use pulumi_engine.Capi.Handles.{
  Effect, kept, opened, started, stack_gone, op_gone, next_handle, step-Effect,
}

module _ {api : EngineApi} where
  -- Zero and the handles not given yet are in no map, and no handle is in both.
  pub record IsRegistry (r : Registry api) : Type 0 where
    pub zero_free : (find 0 r.stacks ≡ none) × (find 0 r.ops ≡ none)
    pub unused : (h : ℕ) → r.next < h → (find h r.stacks ≡ none) × (find h r.ops ≡ none)
    pub apart : (h : ℕ) → (find h r.stacks ≡ none) ⊎ (find h r.ops ≡ none)

  next_handle_small : (r : Registry api) → r.next + 1 < word_size → next_handle r ≡ r.next + 1
  next_handle_small r h = omega arith

  Effect-IsRegistry :
      (r s : Registry api) → Effect r s → r.next + 1 < word_size → IsRegistry r → IsRegistry s
  Effect-IsRegistry r s (kept n st os) small v = record {
    zero_free = rw (st, os) v.zero_free;
    unused = λ h. rw (n, st, os) (v.unused h);
    apart = λ h. rw (st, os) (v.apart h);
  }
  Effect-IsRegistry r s (opened a n st os) small v =
      let k = next_handle_small r small in
      let new = v.unused (r.next + 1) (omega arith) in
      record {
        zero_free = ground (arith, st, os, k, v.zero_free, find-store (next_handle r) 0 a r.stacks);
        unused = λ h later.
            ground (arith, n, st, os, k, v.unused h, find-store (next_handle r) h a r.stacks);
        apart =
            λ h. ground (arith, st, os, k, v.apart h, new, find-store (next_handle r) h a r.stacks);
      }
  Effect-IsRegistry r s (started a n st os) small v =
      let k = next_handle_small r small in
      let new = v.unused (r.next + 1) (omega arith) in
      record {
        zero_free = ground (arith, st, os, k, v.zero_free, find-store (next_handle r) 0 a r.ops);
        unused = λ h later.
            ground (arith, n, st, os, k, v.unused h, find-store (next_handle r) h a r.ops);
        apart =
            λ h. ground (arith, st, os, k, v.apart h, new, find-store (next_handle r) h a r.ops);
      }
  Effect-IsRegistry r s (stack_gone g n st os) small v = record {
    zero_free = ground (arith, st, os, v.zero_free, find-forget g 0 r.stacks);
    unused = λ h later. ground (arith, n, st, os, v.unused h, find-forget g h r.stacks);
    apart = λ h. ground (arith, st, os, v.apart h, find-forget g h r.stacks);
  }
  Effect-IsRegistry r s (op_gone g n st os) small v = record {
    zero_free = ground (arith, st, os, v.zero_free, find-forget g 0 r.ops);
    unused = λ h later. ground (arith, n, st, os, v.unused h, find-forget g h r.ops);
    apart = λ h. ground (arith, st, os, v.apart h, find-forget g h r.ops);
  }

  -- A handle given before and not in the map of stacks now is not put there by a call.
  Effect-dead :
      (r s : Registry api) (h : ℕ)
      → Effect r s
      → r.next + 1 < word_size
      → h ≤ r.next
      → find h r.stacks ≡ none
      → (find h s.stacks ≡ none) × (h ≤ s.next) × (s.next ≤ r.next + 1)
  Effect-dead r s h (kept n st os) small given gone = ground (arith, n, st)
  Effect-dead r s h (opened a n st os) small given gone =
      ground (arith, n, st, next_handle_small r small, find-store (next_handle r) h a r.stacks)
  Effect-dead r s h (started a n st os) small given gone =
      ground (arith, n, st, next_handle_small r small)
  Effect-dead r s h (stack_gone g n st os) small given gone =
      ground (arith, n, st, find-forget g h r.stacks)
  Effect-dead r s h (op_gone g n st os) small given gone = ground (arith, n, st)

set_err-none : (is_null : Bool) → set_err is_null none ≡ none
unfolding set_err
set_err-none true = refl
set_err-none false = refl

module _ (api : EngineApi) where
  -- Every call of the ABI keeps the registry's invariant, while the counter has not used up the
  -- 64-bit words: zero and the handles not given yet are in no map, and no handle is in both.
  pub step-IsRegistry :
      (c : Call) (r : Registry api)
      → r.next + 1 < word_size
      → IsRegistry r
      → IsRegistry (step api c r).1
  step-IsRegistry c r small v = Effect-IsRegistry r (step api c r).1 (step-Effect api c r) small v

  run-dead :
      (cs : List Call) (r : Registry api) (h : ℕ)
      → r.next + length cs < word_size
      → h ≤ r.next
      → find h r.stacks ≡ none
      → find h (run api cs r).stacks ≡ none
  unfolding run
  run-dead [] r h small given gone = gone
  run-dead (c ∷ cs) r h small given gone =
      let (dead, there, grown) =
        Effect-dead r (step api c r).1 h (step-Effect api c r) (omega arith) given gone in
      run-dead cs (step api c r).1 h (omega arith) there dead

  stack_close-dead :
      (h : ℕ) (r : Registry api)
      → (find h (stack_close api h r).1.stacks ≡ none) × ((stack_close api h r).1.next ≡ r.next)
  unfolding stack_close
  stack_close-dead h r = elim (Option-cases (find h r.stacks)) [
    | inl n ↦ rw (stack_close, n) (n, refl)
    | inr (st, n) ↦ rw (stack_close, n) (ground (arith, find-forget h h r.stacks), refl)
  ]

  -- After `pulumi_stack_close` of a handle that was given at some time, and any further calls of
  -- the ABI, the handle is unknown: close returns -1, and a new operation and an export return
  -- nothing and call `setErr` with the error for an unknown handle, and none of them changes the registry. That is
  -- while the calls leave the 64-bit counter room.
  pub stack_close-final :
      (h : ℕ) (cs : List Call) (r : Registry api) (request : String)
      → r.next + length cs < word_size
      → h ≤ r.next
      → (later : Registry api) → later ≡ run api cs (stack_close api h r).1
      → (stack_close api h later ≡ (plain_reply minus_one, later))
        × (op_start api h request later ≡ (error_reply (handle 0) (unknown_stack h), later))
        × (stack_export api h later ≡ (error_reply null (unknown_stack h), later))
  unfolding stack_close op_start stack_export with_stack
  stack_close-final h cs r request room given later reached =
      let (gone, same) = stack_close-dead h r in
      let dead : find h later.stacks ≡ none =
        rw reached (run-dead cs (stack_close api h r).1 h (omega arith) (omega arith) gone) in
      (
        rw (stack_close, dead) refl,
        rw (op_start, dead) refl,
        rw (stack_export, with_stack, dead) refl,
      )

  -- When `pulumi_stack_open` returns anything but 0, it returns a handle that is not zero, stood for
  -- no stack and no operation before, and stands for a stack now; every other handle of a stack
  -- means what it meant, and no error is set, whether or not `err` is NULL. That is in a registry
  -- that satisfies the invariant, while the counter has room.
  pub stack_open-fresh :
      (spec : String) (r : Registry api)
      → IsRegistry r
      → r.next + 1 < word_size
      → (stack_open api spec r).0.returned ≢ handle 0
      → (h : ℕ) × ((stack_open api spec r).0.returned ≡ handle h)
        × (0 < h)
        × (find h r.stacks ≡ none)
        × (find h r.ops ≡ none)
        × (is_some (find h (stack_open api spec r).1.stacks) ≡ true)
        × ((g : ℕ) → g ≢ h → find g (stack_open api spec r).1.stacks ≡ find g r.stacks)
        × ((is_null : Bool) → set_err is_null (stack_open api spec r).0.error ≡ none)
  unfolding stack_open
  stack_open-fresh spec r v small there = elim (Fallible-cases (api.decode_spec spec)) [
    | inl (decoded, d) ↦ elim (Fallible-cases (api.open_stack decoded r.world).0) [
      | inl (st, o) ↦
          let new = v.unused (next_handle r) (omega (arith, next_handle_small r small)) in
          rw (stack_open, d, o)
            (
              next_handle r,
              refl,
              omega (arith, next_handle_small r small),
              new.0,
              new.1,
              ground (arith, find-store (next_handle r) (next_handle r) st r.stacks),
              (λ g other. ground (arith, other, find-store (next_handle r) g st r.stacks)),
              set_err-none,
            )
      | inr (e, o) ↦
          let failed : (stack_open api spec r).0.returned ≡ handle 0 = rw (stack_open, d, o) refl in
          absurd (there failed)
    ]
    | inr (e, d) ↦
        let failed : (stack_open api spec r).0.returned ≡ handle 0 = rw (stack_open, d) refl in
        absurd (there failed)
  ]
