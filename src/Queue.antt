-- ===== src/Queue.antt =====
-- engine/operation.go's `eventQueue`: an unbounded FIFO that feeds a channel, with the goroutine
-- that pumps it and the reader of the channel.
pub mod Order
use pulumi_engine.Prelude.{
  Bool, true, false, List, [], ◌∷◌, ◌++◌, Option, none, some, if◌then◌else◌,
}

pub record EventQueue {ℓ} (A : Type ℓ) : Type ℓ where
  pub items : List A
  pub closed : Bool

module _ {ℓ} {A : Type ℓ} where
  abbrev pub new_queue : EventQueue A
  new_queue = record { items = []; closed = false }

  unfoldable pub push : A → EventQueue A → EventQueue A
  push e q = if q.closed then q else record q { items = q.items ++ e ∷ [] }

  unfoldable pub close : EventQueue A → EventQueue A
  close q = record q { closed = true }

-- The queue, the event that the pump holds between `q.items = q.items[1:]` and `out <- e`, what
-- the reader has received, and whether the channel is closed.
pub record Pump {ℓ} (A : Type ℓ) : Type ℓ where
  pub queue : EventQueue A
  pub held : Option A
  pub received : List A
  pub ended : Bool

module _ {ℓ} {A : Type ℓ} where
  abbrev pub new_pump : Pump A
  new_pump = record { queue = new_queue; held = none; received = []; ended = false }

  -- One pass of the pump's loop, up to the send: it waits while the queue is empty and open, takes
  -- the oldest event, or closes the channel.
  abbrev take_from : List A → Pump A → Pump A
  take_from [] p = if p.queue.closed then record p { ended = true } else p
  take_from (e ∷ rest) p = record p {
    queue = record { items = rest; closed = p.queue.closed };
    held = some e;
  }

  abbrev take_next : Option A → Pump A → Pump A
  take_next none p = take_from p.queue.items p
  take_next (some e) p = p

  pump_take : Pump A → Pump A
  pump_take p = if p.ended then p else take_next p.held p

  -- The reader receives what the pump offers.
  abbrev deliver : Option A → Pump A → Pump A
  deliver none p = p
  deliver (some e) p = record p { held = none; received = p.received ++ e ∷ [] }

  receive : Pump A → Pump A
  receive p = deliver p.held p

-- What the producers, the pump and the reader do, in the order in which the lock serialises it.
pub data Action {ℓ} (A : Type ℓ) : Type ℓ where
  pushes : A → Action A
  closes takes receives : Action A

module _ {ℓ} {A : Type ℓ} where
  unfoldable pub step : Action A → Pump A → Pump A
  unfolding push close pump_take receive
  step (pushes e) p = record p { queue = push e p.queue }
  step closes p = record p { queue = close p.queue }
  step takes p = pump_take p
  step receives p = receive p

  unfoldable pub run : List (Action A) → Pump A → Pump A
  run [] p = p
  run (a ∷ more) p = run more (step a p)
