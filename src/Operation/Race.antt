-- ===== src/Operation/Race.antt =====
-- engine/operation.go: `push` is two critical sections. It takes a number under the operation's
-- lock, releases it, and queues the event under the queue's lock. The engine's forwarder, the event
-- sink, the plugin host, the stdout pump and `finish` push from goroutines of their own, so any
-- number of pushes may stand between their sections.
use mathlib.Core.List.{Perm, perm_middle, append_assoc}
use mathlib.Core.List.Perm
use mathlib.Core.Path.{subst}
use pulumi_engine.Prelude.{
  ℕ, zero, suc, ◌+◌, ◌≡◌, refl, sym, ◌∙◌, false, List, [], ◌∷◌, ◌++◌, if◌then◌else◌, Bool-cases,
  inl, inr, arith,
}
use pulumi_engine.Errors.{Kind}
use pulumi_engine.Events.{Event}
use pulumi_engine.Queue
use pulumi_engine.Operation.{Operation, new_operation, stamp, push, record_event}
use pulumi_engine.Operation.Outcome.{close_stream}

-- the section under `o.mu`
unfoldable pub take_number : Operation → Operation
take_number o = record o { sequence = o.sequence + 1 }

-- the section under the queue's lock
unfoldable pub enqueue : Event → Operation → Operation
enqueue e o = record o { queue = Queue.push e o.queue }

-- With no other push between its sections, the two are `push`.
pub enqueue-take_number :
    (now : ℕ) (ev : Event) (o : Operation)
    → enqueue (stamp now ev o) (take_number o) ≡ push now ev o
unfolding enqueue take_number push
enqueue-take_number now ev o = refl

-- An operation, the events that have a number and are not yet queued, and those that came to a
-- closed queue.
pub record Pushing : Type 0 where
  pub op : Operation
  pub in_flight : List Event
  pub lost : List Event

abbrev pub at_start : Kind → Pushing
at_start kind = record { op = new_operation kind; in_flight = []; lost = [] }

abbrev pub taking : ℕ → Event → Pushing → Pushing
taking now ev p = record p { op = take_number p.op; in_flight = stamp now ev p.op ∷ p.in_flight }

-- Any goroutine takes a step: `handleEvent` records an event, a push takes a number, one that has
-- its number queues its event, and `finish` closes the stream.
pub data Section (p : Pushing) : Pushing → Type 0 where
  records : (ev : Event) → Section p (record p { op = record_event ev p.op })
  takes_number : (now : ℕ) (ev : Event) → Section p (taking now ev p)
  queues :
      (before : List Event) (e : Event) (behind : List Event)
      → p.in_flight ≡ before ++ e ∷ behind
      → Section p (record p {
        op = enqueue e p.op;
        in_flight = before ++ behind;
        lost = if p.op.queue.closed then e ∷ p.lost else p.lost;
      })
  closes : Section p (record p { op = close_stream p.op })

pub data Reach (kind : Kind) : Pushing → Type 0 where
  begins : Reach kind (at_start kind)
  and_then : {p q : Pushing} → Reach kind p → Section p q → Reach kind q

abbrev pub numbers : List Event → List ℕ
numbers [] = []
numbers (e ∷ es) = e.sequence ∷ numbers es

numbers-append : (es fs : List Event) → numbers (es ++ fs) ≡ numbers es ++ numbers fs
numbers-append [] fs = refl
numbers-append (e ∷ es) fs = λ i. e.sequence ∷ numbers-append es fs i

-- The numbers below n.
abbrev pub below : ℕ → List ℕ
below zero = []
below (suc n) = n ∷ below n

-- The numbers in the stream, in flight and lost.
abbrev pub all_numbers : Pushing → List ℕ
all_numbers p = numbers p.op.queue.items ++ (numbers p.in_flight ++ numbers p.lost)

-- Taking a number in flight out to the front.
flight-front :
    (is : List ℕ) (before : List Event) (e : Event) (behind : List Event) (ls : List ℕ)
    → Perm
        (is ++ (numbers (before ++ e ∷ behind) ++ ls))
        (e.sequence ∷ (is ++ (numbers (before ++ behind) ++ ls)))
flight-front is before e behind ls =
    rw (numbers-append before (e ∷ behind), numbers-append before behind)
      (Perm.trans
        (Perm.append_left is (Perm.append_right ls (perm_middle (numbers before) (numbers behind))))
        (perm_middle is ((numbers before ++ numbers behind) ++ ls)))

-- The event that is queued is in the stream, or lost.
queued-front :
    (p : Pushing) (before : List Event) (e : Event) (behind : List Event)
    → Perm
        (e.sequence ∷ (numbers p.op.queue.items ++ (numbers (before ++ behind) ++ numbers p.lost)))
        (numbers (enqueue e p.op).queue.items
          ++ (numbers (before ++ behind)
              ++ numbers (if p.op.queue.closed then e ∷ p.lost else p.lost)))
unfolding enqueue Queue.push
queued-front p before e behind =
    let is = numbers p.op.queue.items in
    let fs = numbers (before ++ behind) in
    elim (Bool-cases p.op.queue.closed) [
      | inl y ↦ rw y (
          Perm.symm (
            Perm.trans (Perm.append_left is (perm_middle fs (numbers p.lost)))
              (perm_middle is (fs ++ numbers p.lost))))
      | inr n ↦
          rw
            (
              n,
              numbers-append p.op.queue.items (e ∷ []),
              append_assoc is (e.sequence ∷ []) (fs ++ numbers p.lost),
            )
            (Perm.symm (perm_middle is (fs ++ numbers p.lost)))
    ]

record_event-keeps :
    (ev : Event) (o : Operation)
    → ((record_event ev o).queue ≡ o.queue) × ((record_event ev o).sequence ≡ o.sequence)
unfolding record_event
record_event-keeps ev o = ground arith

closed-enqueue : (e : Event) (o : Operation) → (enqueue e o).queue.closed ≡ o.queue.closed
unfolding enqueue Queue.push
closed-enqueue e o = ground arith

IsCounted : Pushing → Type 0
IsCounted p = Perm (all_numbers p) (below p.op.sequence) × (p.op.queue.closed ≡ false → p.lost ≡ [])

Section-IsCounted : {p q : Pushing} → Section p q → IsCounted p → IsCounted q
unfolding IsCounted take_number stamp close_stream Queue.close enqueue
Section-IsCounted {p} (records ev) h =
    let kept = record_event-keeps ev p.op in rw (kept.0, kept.1) h
Section-IsCounted {p} (takes_number now ev) h = (
  let next : suc p.op.sequence ≡ p.op.sequence + 1 = omega arith in
      subst (λ n. Perm (all_numbers (taking now ev p)) (below n)) next
        (Perm.trans (perm_middle (numbers p.op.queue.items) (numbers p.in_flight ++ numbers p.lost))
          (Perm.cons p.op.sequence h.0)),
  h.1,
)
Section-IsCounted {p} (queues before e behind now) h = (
  Perm.trans (Perm.symm (queued-front p before e behind)) (
      Perm.trans
        (Perm.symm (flight-front (numbers p.op.queue.items) before e behind (numbers p.lost)))
        (rw now at h.0)),
  λ still.
      let open_before = sym (closed-enqueue e p.op) ∙ still in rw open_before (h.1 open_before),
)
Section-IsCounted {p} closes h = (h.0, λ still. absurd (cc still))

-- From a new operation on, however the two sections of any number of pushes, the bookkeeping of
-- `handleEvent` and the end of the stream interleave: the numbers in the stream, those of the
-- pushes still between their sections and those of the events that came to a closed queue are
-- together the numbers below the operation's counter, each once, in some order; and while the queue
-- is open, no event is lost.
pub numbers_counted :
    (kind : Kind) (p : Pushing)
    → Reach kind p
    → Perm (all_numbers p) (below p.op.sequence) × (p.op.queue.closed ≡ false → p.lost ≡ [])
unfolding IsCounted
numbers_counted kind p begins = (Perm.nil, λ h. refl)
numbers_counted kind p (and_then r s) = Section-IsCounted s (numbers_counted kind _ r)
