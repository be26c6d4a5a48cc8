-- ===== src/Queue/Order.antt =====
-- engine/operation.go: what the reader of an `eventQueue` receives, for any schedule.
use mathlib.Core.List.{append_assoc, append-nil}
use pulumi_engine.Prelude.{
  ℕ, zero, suc, Bool, true, false, ◌≡◌, refl, sym, ◌∙◌, List, [], ◌∷◌, ◌++◌, Option, none, some,
  arith, if◌then◌else◌, length, Bool-cases, inl, inr,
}
use pulumi_engine.Queue.{
  EventQueue, Pump, Action, pushes, closes, takes, receives, new_pump, push, close, pump_take,
  receive, step, run, take_from, take_next, deliver,
}

module _ {ℓ} {A : Type ℓ} where
  -- The events that a schedule pushes while the queue is open.
  abbrev pub accepted : Bool → List (Action A) → List A
  accepted closed [] = []
  accepted closed (pushes e ∷ more) = if closed then [] else e ∷ accepted closed more
  accepted closed (closes ∷ more) = []
  accepted closed (takes ∷ more) = accepted closed more
  accepted closed (receives ∷ more) = accepted closed more

  abbrev pub in_hand : Option A → List A
  in_hand none = []
  in_hand (some e) = e ∷ []

  -- Received, in the pump's hand, and queued: oldest first.
  abbrev pub contents : Pump A → List A
  contents p = (p.received ++ in_hand p.held) ++ p.queue.items

  contents-push :
      (e : A) (q : EventQueue A) (front : List A)
      → front ++ (push e q).items ≡ (front ++ q.items) ++ (if q.closed then [] else e ∷ [])
  unfolding push
  contents-push e q front = elim (Bool-cases q.closed) [
    | inl shut ↦ rw shut (sym (append-nil _))
    | inr open' ↦ rw open' (sym (append_assoc front q.items (e ∷ [])))
  ]

  contents-take_from :
      (xs : List A) (p : Pump A)
      → p.queue.items ≡ xs
      → p.held ≡ none
      → contents (take_from xs p) ≡ contents p
  contents-take_from [] p items held = ground arith
  contents-take_from (x ∷ xs) p items held =
      rw (items, held, append-nil p.received) (append_assoc p.received (x ∷ []) xs)

  contents-take_next :
      (h : Option A) (p : Pump A) → p.held ≡ h → contents (take_next h p) ≡ contents p
  contents-take_next none p held = contents-take_from p.queue.items p refl held
  contents-take_next (some e) p held = refl

  contents-if :
      (b : Bool) (p q : Pump A)
      → contents q ≡ contents p
      → contents (if b then p else q) ≡ contents p
  contents-if true p q h = refl
  contents-if false p q h = h

  contents-take : (p : Pump A) → contents (pump_take p) ≡ contents p
  unfolding pump_take
  contents-take p = contents-if p.ended p (take_next p.held p) (contents-take_next p.held p refl)

  contents-deliver : (h : Option A) (p : Pump A) → p.held ≡ h → contents (deliver h p) ≡ contents p
  contents-deliver none p held = refl
  contents-deliver (some e) p held = rw (held, append-nil (p.received ++ e ∷ []))

  contents-receive : (p : Pump A) → contents (receive p) ≡ contents p
  unfolding receive
  contents-receive p = contents-deliver p.held p refl

  closed-take : (p : Pump A) → (pump_take p).queue.closed ≡ p.queue.closed
  unfolding pump_take
  closed-take p = ground arith

  closed-receive : (p : Pump A) → (receive p).queue.closed ≡ p.queue.closed
  unfolding receive
  closed-receive p = ground arith

  closed-push : (e : A) (q : EventQueue A) → (push e q).closed ≡ q.closed
  unfolding push
  closed-push e q = ground arith

  accepted_closed : (more : List (Action A)) → accepted true more ≡ []
  accepted_closed [] = refl
  accepted_closed (pushes e ∷ more) = refl
  accepted_closed (closes ∷ more) = refl
  accepted_closed (takes ∷ more) = accepted_closed more
  accepted_closed (receives ∷ more) = accepted_closed more

  accepted-push :
      (closed : Bool) (xs : List A) (e : A) (more : List (Action A))
      → (xs ++ (if closed then [] else e ∷ [])) ++ accepted closed more
        ≡ xs ++ accepted closed (pushes e ∷ more)
  accepted-push true xs e more = rw (accepted_closed more) (append-nil (xs ++ []))
  accepted-push false xs e more = append_assoc xs (e ∷ []) (accepted false more)

  contents-run :
      (more : List (Action A)) (p : Pump A)
      → contents (run more p) ≡ contents p ++ accepted p.queue.closed more
  unfolding run step close
  contents-run [] p = sym (append-nil _)
  contents-run (pushes e ∷ more) p =
      rw (contents-run more (step (pushes e) p), contents-push e p.queue, closed-push e p.queue)
        (accepted-push p.queue.closed (contents p) e more)
  contents-run (closes ∷ more) p = rw (contents-run more (step closes p), accepted_closed more)
  contents-run (takes ∷ more) p =
      rw (contents-run more (pump_take p), contents-take p, closed-take p)
  contents-run (receives ∷ more) p =
      rw (contents-run more (receive p), contents-receive p, closed-receive p)

  -- An ended pump has nothing in its hand and nothing queued, and its queue is closed.
  abbrev Spent : Pump A → Type ℓ
  Spent p = p.ended ≡ true → (p.held ≡ none) × (p.queue.items ≡ []) × (p.queue.closed ≡ true)

  Spent-take : (p : Pump A) → Spent p → Spent (pump_take p)
  unfolding pump_take
  Spent-take p h over = ground (arith, h)

  Spent-receive : (p : Pump A) → Spent p → Spent (receive p)
  unfolding receive
  Spent-receive p h over = ground (arith, h)

  Spent-step : (a : Action A) (p : Pump A) → Spent p → Spent (step a p)
  unfolding step pump_take push close receive
  Spent-step (pushes e) p h over = ground (arith, h over)
  Spent-step closes p h over = ground (arith, h over)
  Spent-step takes p h over = Spent-take p h over
  Spent-step receives p h over = Spent-receive p h over

  Spent-run : (more : List (Action A)) (p : Pump A) → Spent p → Spent (run more p)
  unfolding run
  Spent-run [] p h = h
  Spent-run (a ∷ more) p h = Spent-run more (step a p) (Spent-step a p h)

  -- Whatever the producers, the pump and the reader do, and however their turns interleave: what
  -- was received, what the pump holds and what is queued are together exactly the events that were
  -- pushed before the queue was closed, in the order of the pushes.
  pub delivered_in_order :
      (more : List (Action A)) → contents (run more new_pump) ≡ accepted false more
  delivered_in_order more = contents-run more new_pump

  -- When the channel is closed, the reader has received every event that was pushed before the
  -- queue was closed, in order, and nothing else.
  pub ended_received :
      (more : List (Action A))
      → (run more new_pump).ended ≡ true
      → (run more new_pump).received ≡ accepted false more
  ended_received more over =
      let p = run more new_pump in
      let (held, items, _) = Spent-run more new_pump (λ e. cc e) over in
      sym (rw (held, items, append-nil p.received, append-nil p.received) refl)
      ∙ delivered_in_order more

  -- Turns of the pump and the reader, one after the other.
  abbrev pub turns : ℕ → List (Action A)
  turns zero = []
  turns (suc n) = takes ∷ receives ∷ turns n

  drains_empty_handed :
      (xs got : List A)
      → let p = run (turns (suc (length xs))) (record {
        queue = record { items = xs; closed = true };
        held = none;
        received = got;
        ended = false;
      }) in
        (p.ended ≡ true) × (p.received ≡ got ++ xs)
  unfolding run step pump_take receive
  drains_empty_handed [] got = (refl, sym (append-nil got))
  drains_empty_handed (x ∷ xs) got =
      let rest = drains_empty_handed xs (got ++ x ∷ []) in
      (rest.0, rest.1 ∙ append_assoc got (x ∷ []) xs)

  -- Once the queue is closed and while the channel is not: one turn for an event that the pump
  -- holds, one for each queued event, and one more close the channel, with the held event and then
  -- every queued event received.
  pub closed_queue_drains :
      (held : Option A) (xs got : List A)
      → let p = run (turns (suc (length (in_hand held ++ xs)))) (record {
        queue = record { items = xs; closed = true };
        held = held;
        received = got;
        ended = false;
      }) in
        (p.ended ≡ true) × (p.received ≡ got ++ (in_hand held ++ xs))
  unfolding run step pump_take receive
  closed_queue_drains none xs got = drains_empty_handed xs got
  closed_queue_drains (some e) xs got =
      let rest = drains_empty_handed xs (got ++ e ∷ []) in
      (rest.0, rest.1 ∙ append_assoc got (e ∷ []) xs)
