-- ===== src/Execute/Brackets.antt =====
-- engine/operation.go: the resources that `execute` takes and gives back.
use mathlib.Core.List.{append_assoc, append-nil}
use pulumi_engine.Prelude.{
  Bool, true, false, not, ◌&&◌, ◌||◌, ◌≡◌, refl, sym, ◌∙◌, ap, List, [], ◌∷◌, ◌++◌, Option, none,
  some, any, if◌then◌else◌, Bool-cases, Option-cases, inl, inr,
}
use pulumi_engine.Errors.{Kind, preview, up, refresh, destroy}
use pulumi_engine.Errors.Fallible.{Fallible-cases}
use pulumi_engine.Operation.{Operation}
use pulumi_engine.Plan.{Options, is_up, is_preview, validate_plan_options, load_plan, merge_env}
use pulumi_engine.Execute.{
  Resource, handle_lock, prepared_program, stdout_listener, plugin_host, event_sink, Trace,
  acquired, released, backend_ran, Run, World, bracket, with_flush, run_backend, behind_sink,
  by_kind, with_sink, with_loaded_plan, with_host, with_lock, execute,
}

abbrev same_resource : Resource → Resource → Bool
same_resource handle_lock handle_lock = true
same_resource prepared_program prepared_program = true
same_resource stdout_listener stdout_listener = true
same_resource plugin_host plugin_host = true
same_resource event_sink event_sink = true
same_resource _ _ = false

same_resource_refl : (r : Resource) → same_resource r r ≡ true
same_resource_refl handle_lock = refl
same_resource_refl prepared_program = refl
same_resource_refl stdout_listener = refl
same_resource_refl plugin_host = refl
same_resource_refl event_sink = refl

abbrev holds : Resource → List Resource → Bool
holds r held = any (λ q. same_resource r q) held

abbrev holds_both : List Resource → Bool
holds_both held = holds handle_lock held && holds plugin_host held

-- The resources held after a trace, the last acquired first; none where a release is not of the
-- last one acquired, or where the backend runs without the handle's lock or a plugin host.
unfoldable pub replay : List Resource → List Trace → Option (List Resource)
replay held [] = some held
replay held (acquired r ∷ t) = replay (r ∷ held) t
replay [] (released r ∷ t) = none
replay (q ∷ held) (released r ∷ t) =
    let after = replay held t in if same_resource r q then after else none
replay held (backend_ran e ∷ t) =
    let after = replay held t in if holds_both held then after else none

-- A run that gives back what it took if it comes to its end, as it does where flushes return, and
-- otherwise leaves what is stuck.
record IsBalanced (flush : Bool) (stuck held : List Resource) (r : Run) : Type 0 where
  at :
      (rest : List Trace)
      → replay held (r.trace ++ rest) ≡ replay (if r.returned then held else stuck) rest
  returns : flush ≡ true → r.returned ≡ true

IsBalanced-bracket :
    {flush : Bool} {stuck : List Resource} (r : Resource) (body : Run) (held : List Resource)
    → IsBalanced flush stuck (r ∷ held) body
    → IsBalanced flush stuck held (bracket r body)
unfolding replay
IsBalanced-bracket {stuck = stuck} r body held b = record {
  at = λ rest. elim (Bool-cases body.returned) [
    | inl y ↦ rw y (
        ap (replay (r ∷ held)) (append_assoc body.trace (released r ∷ []) rest)
        ∙ rw y at (b.at (released r ∷ rest))
        ∙ rw (same_resource_refl r) refl)
    | inr n ↦
        rw n (ap (λ t. replay (r ∷ held) (t ++ rest)) (append-nil body.trace) ∙ rw n at (b.at rest))
  ];
  returns = b.returns;
}

-- A flush that does not return leaves what is held then.
IsBalanced-with_flush :
    (flush : Bool) (held : List Resource) (body : Run)
    → IsBalanced true held held body
    → IsBalanced flush held held (with_flush flush body)
IsBalanced-with_flush true held body b = record {
  at = λ rest. rw (b.returns refl) (rw (b.returns refl) at (b.at rest));
  returns = λ f. rw (b.returns refl) refl;
}
IsBalanced-with_flush false held body b = record {
  at = λ rest. rw (b.returns refl) (rw (b.returns refl) at (b.at rest));
  returns = λ f. absurd (cc f);
}

IsBalanced-nil :
    {flush : Bool} {stuck held : List Resource} {r : Run}
    → r.trace ≡ []
    → r.returned ≡ true
    → IsBalanced flush stuck held r
IsBalanced-nil {r = r} e y = record { at = λ rest. rw (e, y) refl; returns = λ f. y }

module _ (world : World) (opts : Options) (stuck : List Resource) where
  run_backend-IsBalanced :
      (o : Operation) (held : List Resource)
      → holds_both held ≡ true
      → IsBalanced true stuck held (run_backend world opts o)
  unfolding run_backend replay
  run_backend-IsBalanced o held h = record { at = λ rest. rw h refl; returns = λ f. refl }

  behind_sink-IsBalanced :
      (o : Operation) (held : List Resource)
      → holds_both held ≡ true
      → IsBalanced true stuck held (behind_sink world opts o)
  unfolding behind_sink
  behind_sink-IsBalanced o held h = elim (Fallible-cases world.start_sink) [
    | inl (u, s) ↦
        rw (behind_sink, s)
          (IsBalanced-bracket event_sink (run_backend world opts o) held
            (run_backend-IsBalanced o (event_sink ∷ held) h))
    | inr (e, s) ↦ rw (behind_sink, s) (IsBalanced-nil refl refl)
  ]

  by_kind-IsBalanced :
      (k : Kind) (o : Operation) (held : List Resource)
      → holds_both held ≡ true
      → IsBalanced true stuck held (by_kind world opts k o)
  unfolding by_kind
  by_kind-IsBalanced preview o held h = run_backend-IsBalanced o held h
  by_kind-IsBalanced up o held h = run_backend-IsBalanced o held h
  by_kind-IsBalanced refresh o held h = behind_sink-IsBalanced o held h
  by_kind-IsBalanced destroy o held h = behind_sink-IsBalanced o held h

  with_sink-IsBalanced :
      (o : Operation) (held : List Resource)
      → holds_both held ≡ true
      → IsBalanced true stuck held (with_sink world opts o)
  unfolding with_sink
  with_sink-IsBalanced o held h = by_kind-IsBalanced o.kind o held h

  with_loaded_plan-IsBalanced :
      (o : Operation) (held : List Resource)
      → holds_both held ≡ true
      → IsBalanced true stuck held (with_loaded_plan world opts o)
  unfolding with_loaded_plan
  with_loaded_plan-IsBalanced o held h = elim (Bool-cases (is_up o.kind)) [
    | inl u ↦ elim (Fallible-cases (load_plan world.plans opts)) [
      | inl (p, l) ↦ elim (Option-cases p) [
        | inl n ↦ rw (with_loaded_plan, u, l, n) (with_sink-IsBalanced o held h)
        | inr (q, n) ↦
            rw (with_loaded_plan, u, l, n)
              (with_sink-IsBalanced (record o { planned = true }) held h)
      ]
      | inr (e, l) ↦ rw (with_loaded_plan, u, l) (IsBalanced-nil refl refl)
    ]
    | inr u ↦ rw (with_loaded_plan, u) (with_sink-IsBalanced o held h)
  ]

  with_host-IsBalanced :
      (o : Operation) (held : List Resource)
      → holds handle_lock held ≡ true
      → IsBalanced true stuck held (with_host world opts o)
  unfolding with_host
  with_host-IsBalanced o held h = elim (Fallible-cases world.apply_config) [
    | inl (u, a) ↦ elim (Fallible-cases world.decrypt_config) [
      | inl (v, d) ↦ elim (Fallible-cases (world.new_host (merge_env world.stack_env opts.env))) [
        | inl (w, n) ↦
            rw (with_host, a, d, n)
              (IsBalanced-bracket plugin_host (with_loaded_plan world opts o) held
                (with_loaded_plan-IsBalanced o (plugin_host ∷ held) (rw (h) refl)))
        | inr (e, n) ↦ rw (with_host, a, d, n) (IsBalanced-nil refl refl)
      ]
      | inr (e, d) ↦ rw (with_host, a, d) (IsBalanced-nil refl refl)
    ]
    | inr (e, a) ↦ rw (with_host, a) (IsBalanced-nil refl refl)
  ]

-- What a flush that does not return leaves behind.
abbrev pub left_behind : List Resource
left_behind = stdout_listener ∷ prepared_program ∷ handle_lock ∷ []

module _ (world : World) (opts : Options) where
  with_lock-IsBalanced :
      (o : Operation)
      → IsBalanced world.flush_returns left_behind (handle_lock ∷ []) (with_lock world opts o)
  unfolding with_lock
  with_lock-IsBalanced o =
      elim (Bool-cases (not world.program_given && (is_preview o.kind || is_up o.kind))) [
        | inl m ↦ rw (with_lock, m) (IsBalanced-nil refl refl)
        | inr m ↦ elim (Fallible-cases world.prepare) [
          | inl (u, p) ↦
              let flushed = with_flush world.flush_returns (with_host world opts o) in
              rw (with_lock, m, p)
                (IsBalanced-bracket prepared_program (bracket stdout_listener flushed) _ (
                  IsBalanced-bracket stdout_listener flushed _ (
                    IsBalanced-with_flush world.flush_returns left_behind (with_host world opts o)
                      (with_host-IsBalanced world opts left_behind o left_behind refl))))
          | inr (e, p) ↦ rw (with_lock, m, p) (IsBalanced-nil refl refl)
        ]
      ]

  execute-IsBalanced :
      (o : Operation) → IsBalanced world.flush_returns left_behind [] (execute world opts o)
  unfolding execute
  execute-IsBalanced o = elim (Bool-cases (opts.dry_run && is_up o.kind)) [
    | inl r ↦ rw (execute, r) (IsBalanced-nil refl refl)
    | inr r ↦ elim (Fallible-cases (validate_plan_options o.kind opts)) [
      | inl (u, v) ↦ elim (Bool-cases world.lock_free) [
        | inl f ↦
            rw (execute, r, v, f)
              (IsBalanced-bracket handle_lock (with_lock world opts o) [] (with_lock-IsBalanced o))
        | inr f ↦ rw (execute, r, v, f) (IsBalanced-nil refl refl)
      ]
      | inr (e, v) ↦ rw (execute, r, v) (IsBalanced-nil refl refl)
    ]
  ]

  -- On every path through `execute`, errors included: where the deferred flush of the standard
  -- output returns, so does `execute`; if it returns, then what it acquired it has released, the
  -- last acquired first, and nothing else; if it does not, then it is left with the listener on
  -- standard output, the prepared program and the handle's lock, and has released all else. And the
  -- backend's operation runs only while the handle's lock and a plugin host are held.
  pub execute-replay :
      (o : Operation)
      → let run = execute world opts o in
        (world.flush_returns ≡ true → run.returned ≡ true)
        × (replay [] run.trace ≡ some (if run.returned then [] else left_behind))
  unfolding replay
  execute-replay o =
      let b = execute-IsBalanced o in
      (b.returns, ap (replay []) (sym (append-nil (execute world opts o).trace)) ∙ b.at [])
