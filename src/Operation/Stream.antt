-- ===== src/Operation/Stream.antt =====
-- engine/operation.go: an operation's stream after a sequence of events, from whichever source.
use mathlib.Core.List.{append_assoc, append-nil}
use mathlib.Core.Path.{subst}
use pulumi_engine.Prelude.{
  ℕ, suc, ◌+◌, String, true, false, ◌≡◌, refl, sym, ◌∙◌, List, [], ◌∷◌, ◌++◌, Option, arith,
  if◌then◌else◌, Bool-cases, inl, inr, length, eqb,
}
use pulumi_engine.Errors.{Kind, GoError}
use pulumi_engine.Events.{Event, is_cancel}
use pulumi_engine.Queue
use pulumi_engine.Queue.{EventQueue, new_queue}
use pulumi_engine.Operation.{
  Operation, new_operation, stamp, push, strip_colors, record_event, handle_event, handle_all,
}
use pulumi_engine.Operation.Outcome.{settle, terminate, close_stream, cancel_event}

-- An event as it is queued: without colours, and stamped.
abbrev stamped : (String → String) → ℕ → ℕ → Event → Event
stamped colorize n now ev = record ev {
  api = record (strip_colors colorize ev.api) {
    sequence = n;
    timestamp =
        if eqb (strip_colors colorize ev.api).timestamp 0
        then now
        else (strip_colors colorize ev.api).timestamp;
  };
}

-- The stream that a list of events makes, numbered from n: the engine's own cancel events are
-- left out.
pub stream_from : (String → String) → ℕ → List (ℕ × Event) → List Event
stream_from colorize n [] = []
stream_from colorize n ((now, ev) ∷ evs) =
    if is_cancel ev.type
    then stream_from colorize n evs
    else stamped colorize n now ev ∷ stream_from colorize (n + 1) evs

record_event-queue : (ev : Event) (o : Operation) → (record_event ev o).queue ≡ o.queue
unfolding record_event
record_event-queue ev o = ground arith

record_event-sequence : (ev : Event) (o : Operation) → (record_event ev o).sequence ≡ o.sequence
unfolding record_event
record_event-sequence ev o = ground arith

queue-push :
    (e : Event) (q : EventQueue Event)
    → q.closed ≡ false
    → (Queue.push e q).items ≡ q.items ++ e ∷ []
unfolding Queue.push
queue-push e q h = ground arith

closed-push : (e : Event) (q : EventQueue Event) → (Queue.push e q).closed ≡ q.closed
unfolding Queue.push
closed-push e q = ground arith

module _ (colorize : String → String) where
  abbrev plain : Event → Event
  plain ev = record ev { api = strip_colors colorize ev.api }

  items-handle_event :
      (now : ℕ) (ev : Event) (o : Operation)
      → o.queue.closed ≡ false
      → (handle_event colorize now ev o).queue.items ≡ (
          if is_cancel ev.type
          then o.queue.items
          else o.queue.items ++ stamped colorize o.sequence now ev ∷ [])
  unfolding handle_event push stamp
  items-handle_event now ev o h = elim (Bool-cases (is_cancel ev.type)) [
    | inl stop ↦ rw stop refl
    | inr go ↦
        rw
          (
            go,
            record_event-queue (plain ev) o,
            record_event-sequence (plain ev) o,
            queue-push _ o.queue h,
          )
          refl
  ]

  closed-handle_event :
      (now : ℕ) (ev : Event) (o : Operation)
      → (handle_event colorize now ev o).queue.closed ≡ o.queue.closed
  unfolding handle_event push
  closed-handle_event now ev o = elim (Bool-cases (is_cancel ev.type)) [
    | inl stop ↦ rw stop refl
    | inr go ↦ rw (go, closed-push, record_event-queue (plain ev) o) refl
  ]

  sequence-handle_event :
      (now : ℕ) (ev : Event) (o : Operation)
      → (handle_event colorize now ev o).sequence
        ≡ (if is_cancel ev.type then o.sequence else o.sequence + 1)
  unfolding handle_event push
  sequence-handle_event now ev o = ground (arith, record_event-sequence (plain ev) o)

  items-handle_all :
      (evs : List (ℕ × Event)) (o : Operation)
      → o.queue.closed ≡ false
      → (handle_all colorize evs o).queue.items
        ≡ o.queue.items ++ stream_from colorize o.sequence evs
  unfolding handle_all stream_from
  items-handle_all [] o h = sym (append-nil _)
  items-handle_all ((now, ev) ∷ evs) o h =
      let o' = handle_event colorize now ev o in
      items-handle_all evs o' (closed-handle_event now ev o ∙ h)
      ∙ (elim (Bool-cases (is_cancel ev.type)) [
        | inl stop ↦ rw (items-handle_event now ev o h, sequence-handle_event now ev o, stop) refl
        | inr go ↦
            rw (items-handle_event now ev o h, sequence-handle_event now ev o, go)
              (append_assoc o.queue.items _ _)
      ])

-- The stream of an operation that has handled a list of events and then finished, with the events
-- that are handled between the terminator event and the end of the queue, and after that.
abbrev pub final_stream :
    (String → String)
    → Kind
    → (List (ℕ × Event) × List (ℕ × Event) × List (ℕ × Event))
    → ℕ
    → ℕ
    → List String
    → Option GoError
    → List Event
final_stream colorize kind (evs, late, after) now duration pending err =
    let ended =
      terminate now (settle duration pending err (handle_all colorize evs (new_operation kind))) in
    let closed = close_stream (handle_all colorize late ended) in
    (handle_all colorize after closed).queue.items

sequence-handle_all :
    (colorize : String → String) (evs : List (ℕ × Event)) (o : Operation)
    → (handle_all colorize evs o).sequence
      ≡ o.sequence + length (stream_from colorize o.sequence evs)
unfolding handle_all stream_from
sequence-handle_all colorize [] o = omega arith
sequence-handle_all colorize ((now, ev) ∷ evs) o =
    let o' = handle_event colorize now ev o in
    sequence-handle_all colorize evs o' ∙ (elim (Bool-cases (is_cancel ev.type)) [
      | inl stop ↦ rw (sequence-handle_event colorize now ev o, stop) refl
      | inr go ↦ rw (sequence-handle_event colorize now ev o, go) (omega arith)
    ])

closed-handle_all :
    (colorize : String → String) (evs : List (ℕ × Event)) (o : Operation)
    → (handle_all colorize evs o).queue.closed ≡ o.queue.closed
unfolding handle_all
closed-handle_all colorize [] o = refl
closed-handle_all colorize ((now, ev) ∷ evs) o =
    closed-handle_all colorize evs (handle_event colorize now ev o)
    ∙ closed-handle_event colorize now ev o

-- The event that `finish` ends the stream with.
abbrev pub terminator : ℕ → ℕ → Event
terminator n now = record cancel_event {
  api = record cancel_event.api { sequence = n; timestamp = now };
}

items-terminate :
    (now duration : ℕ) (pending : List String) (err : Option GoError) (o : Operation)
    → o.queue.closed ≡ false
    → (terminate now (settle duration pending err o)).queue.items
      ≡ o.queue.items ++ terminator o.sequence now ∷ []
unfolding terminate settle push stamp
items-terminate now duration pending err o h = queue-push _ o.queue h

closed-terminate :
    (now duration : ℕ) (pending : List String) (err : Option GoError) (o : Operation)
    → (terminate now (settle duration pending err o)).queue.closed ≡ o.queue.closed
unfolding terminate settle push
closed-terminate now duration pending err o = closed-push _ o.queue

sequence-terminate :
    (now duration : ℕ) (pending : List String) (err : Option GoError) (o : Operation)
    → (terminate now (settle duration pending err o)).sequence ≡ o.sequence + 1
unfolding terminate settle push
sequence-terminate now duration pending err o = refl

-- A closed queue takes no event.
queue-push-closed :
    (e : Event) (q : EventQueue Event) → q.closed ≡ true → (Queue.push e q).items ≡ q.items
unfolding Queue.push
queue-push-closed e q h = ground arith

items-handle_event-closed :
    (colorize : String → String) (now : ℕ) (ev : Event) (o : Operation)
    → o.queue.closed ≡ true
    → (handle_event colorize now ev o).queue.items ≡ o.queue.items
unfolding handle_event push
items-handle_event-closed colorize now ev o h = elim (Bool-cases (is_cancel ev.type)) [
  | inl stop ↦ rw stop refl
  | inr go ↦ rw (go, record_event-queue (plain colorize ev) o, queue-push-closed _ o.queue h) refl
]

items-handle_all-closed :
    (colorize : String → String) (evs : List (ℕ × Event)) (o : Operation)
    → o.queue.closed ≡ true
    → (handle_all colorize evs o).queue.items ≡ o.queue.items
unfolding handle_all
items-handle_all-closed colorize [] o h = refl
items-handle_all-closed colorize ((now, ev) ∷ evs) o h =
    items-handle_all-closed colorize evs (handle_event colorize now ev o)
      (closed-handle_event colorize now ev o ∙ h)
    ∙ items-handle_event-closed colorize now ev o h

close_stream-closed : (o : Operation) → (close_stream o).queue.closed ≡ true
unfolding close_stream Queue.close
close_stream-closed o = refl

close_stream-items : (o : Operation) → (close_stream o).queue.items ≡ o.queue.items
unfolding close_stream Queue.close
close_stream-items o = refl

-- Each event carries the number of its place, from n on.
abbrev pub Numbered : ℕ → List Event → Type 0
Numbered n [] = Unit
Numbered n (e ∷ es) = (e.sequence ≡ n) × Numbered (n + 1) es

abbrev pub NoCancel : List Event → Type 0
NoCancel [] = Unit
NoCancel (e ∷ es) = (is_cancel e.type ≡ false) × NoCancel es

Numbered-append :
    (es fs : List Event) (n k : ℕ)
    → k ≡ n + length es
    → Numbered n es
    → Numbered k fs
    → Numbered n (es ++ fs)
Numbered-append [] fs n k e he hf =
    let same : k ≡ n = omega (arith, e) in subst (λ m. Numbered m fs) same hf
Numbered-append (e ∷ es) fs n k l he hf = (
  he.0,
  Numbered-append es fs (n + 1) k (let l' : k ≡ n + suc (length es) = l in omega arith) he.1 hf,
)

stream_from-Numbered :
    (colorize : String → String) (evs : List (ℕ × Event)) (n : ℕ)
    → Numbered n (stream_from colorize n evs) × NoCancel (stream_from colorize n evs)
unfolding stream_from
stream_from-Numbered colorize [] n = (tt, tt)
stream_from-Numbered colorize ((t, ev) ∷ evs) n = elim (Bool-cases (is_cancel ev.type)) [
  | inl stop ↦ rw stop (stream_from-Numbered colorize evs n)
  | inr go ↦
      let rest = stream_from-Numbered colorize evs (n + 1) in rw go ((refl, rest.0), (go, rest.1))
]

-- For the events handled before the terminator, between it and the end of the queue, and after
-- that, where no two pushes overlap: the stream is what the first make, without the engine's own
-- cancel events, then one cancel event, and then what the second make; the last come too late. The
-- events carry the numbers 0, 1, 2, … without a gap.
pub final_stream_lem :
    (colorize : String → String) (kind : Kind) (evs late after : List (ℕ × Event))
    (now duration : ℕ) (pending : List String) (err : Option GoError)
    → let s = stream_from colorize 0 evs in
      let t = stream_from colorize (length s + 1) late in
      let out = final_stream colorize kind (evs, late, after) now duration pending err in
      (out ≡ s ++ terminator (length s) now ∷ t) × (NoCancel s × NoCancel t) × Numbered 0 out
final_stream_lem colorize kind evs late after now duration pending err =
    let o = handle_all colorize evs (new_operation kind) in
    let s = stream_from colorize 0 evs in
    let n : o.sequence ≡ length s =
      sequence-handle_all colorize evs (new_operation kind) ∙ omega arith in
    let ended = terminate now (settle duration pending err o) in
    let t = stream_from colorize (length s + 1) late in
    let opened = closed-handle_all colorize evs (new_operation kind) in
    let first : ended.queue.items ≡ s ++ terminator (length s) now ∷ [] =
      items-terminate now duration pending err o opened
      ∙ rw (items-handle_all colorize evs (new_operation kind) refl, n) refl in
    let whole : final_stream colorize kind (evs, late, after) now duration pending err
        ≡ s ++ terminator (length s) now ∷ t =
      items-handle_all-closed colorize after _
        (close_stream-closed (handle_all colorize late ended))
      ∙ close_stream-items (handle_all colorize late ended)
      ∙ items-handle_all colorize late ended (closed-terminate now duration pending err o ∙ opened)
      ∙ rw (first, sequence-terminate now duration pending err o, n)
          (append_assoc s (terminator (length s) now ∷ []) t) in
    let before = stream_from-Numbered colorize evs 0 in
    let behind = stream_from-Numbered colorize late (length s + 1) in
    (
      whole,
      (before.1, behind.1),
      rw whole (
          Numbered-append s (terminator (length s) now ∷ t) 0 (length s) (omega arith) before.0
            (refl, behind.0)),
    )
