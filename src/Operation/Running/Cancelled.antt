-- ===== src/Operation/Running/Cancelled.antt =====
-- engine/stack.go: whom a call of `Stack.Cancel` reaches.
use mathlib.Core.Path.{subst}
use pulumi_engine.Prelude.{
  ℕ, ◌<◌, String, Bool, true, false, ◌||◌, ◌≡◌, refl, List, [], ◌∷◌, ◌++◌, Option, some, eqb, arith,
  if◌then◌else◌, Option-cases, Bool-cases, inl, inr,
}
use pulumi_engine.Errors.{Kind, GoError}
use pulumi_engine.Events.{Event}
use pulumi_engine.Operation.{Operation, push, cancel, handle_event, record_event}
use pulumi_engine.Operation.Outcome.{
  summarise, classified, fill_failure_messages, settle, terminate, close_stream,
}
use pulumi_engine.Operation.Running.{
  Handle, member, without, alter, start, Step, starts, handles, requests, settles, leaves,
  terminates, closes, reads, cancels, Reach, opened, then_step, Since, at_read, and_step,
}

-- What an operation does keeps a requested cancel.
abbrev Keeps : (Operation → Operation) → Type 0
Keeps f = (o : Operation) → o.cancel_requested ≡ true → (f o).cancel_requested ≡ true

handle_event-Keeps :
    (colorize : String → String) (now : ℕ) (ev : Event) → Keeps (handle_event colorize now ev)
unfolding handle_event record_event push
handle_event-Keeps colorize now ev o h = ground arith

cancel-Keeps : Keeps cancel
unfolding cancel
cancel-Keeps o h = ground arith

settle-Keeps :
    (duration : ℕ) (pending : List String) (err : Option GoError)
    → Keeps (settle duration pending err)
unfolding settle classified summarise fill_failure_messages
settle-Keeps duration pending err o h = h

terminate-Keeps : (now : ℕ) → Keeps (terminate now)
unfolding terminate push
terminate-Keeps now o h = h

close_stream-Keeps : Keeps close_stream
unfolding close_stream
close_stream-Keeps o h = h

some_inj : {A : Type 0} {a b : A} → some a ≡ some b → a ≡ b
some_inj h = cc h

-- the addresses that run are below the next one
IsBelow : ℕ → List ℕ → Type 0
IsBelow n js = (i : ℕ) → member i js ≡ true → i < n

-- Of an operation there, either its cancel is requested or it is still to be cancelled.
Due : ℕ → Handle → Type 0
unfolding IsBelow
Due i h =
    (i < h.count)
    × ((o : Operation)
        → h.operations i ≡ some o
        → (member i h.cancelling || o.cancel_requested) ≡ true)

or_keeps : (a b c : Bool) → (b ≡ true → c ≡ true) → (a || b) ≡ true → (a || c) ≡ true
or_keeps true b c k h = refl
or_keeps false b c k h = k h

or_true : (a : Bool) → (a || true) ≡ true
or_true true = refl
or_true false = refl

or_wider : (a b c : Bool) → (a || c) ≡ true → ((a || b) || c) ≡ true
or_wider true b c h = refl
or_wider false true c h = refl
or_wider false false c h = h

-- what stands at an address after a write
alter-elim {ℓ} :
    {P : Type ℓ} (i j : ℕ) (f : Operation → Operation) (operations : ℕ → Option Operation)
    {o : Operation}
    → alter j f operations i ≡ some o
    → ((p : Operation) → operations i ≡ some p → (if eqb j i then f p else p) ≡ o → P)
    → P
unfolding alter
alter-elim i j f operations h k = elim (Option-cases (operations i)) [
  | inl n ↦ absurd (cc (rw (alter, n) at h))
  | inr (p, n) ↦ k p n (some_inj (rw (alter, n) at h))
]

alter-Due :
    (i j : ℕ) (f : Operation → Operation) (h : Handle)
    → Keeps f
    → Due i h
    → Due i (record h { operations = alter j f h.operations })
unfolding alter Due
alter-Due i j f h k d = (
  d.0,
  λ o at. alter-elim i j f h.operations at λ p there is.
      subst (λ x. (member i h.cancelling || x.cancel_requested) ≡ true) is
        (or_keeps (member i h.cancelling) p.cancel_requested _
          (λ y. elim (Bool-cases (eqb j i)) [ inl same ↦ rw same (k p y) | inr other ↦ rw other y ])
          (d.1 p there)),
)

cancel-requested : (o : Operation) → (cancel o).cancel_requested ≡ true
unfolding cancel
cancel-requested o = ground arith

member-append : (i : ℕ) (js ks : List ℕ) → member i (js ++ ks) ≡ member i js || member i ks
member-append i [] ks = refl
member-append i (j ∷ js) ks = ground (arith, member-append i js ks)

member-without : (i j : ℕ) (js : List ℕ) → member i (without j js) ≡ true → member i js ≡ true
unfolding without
member-without i j [] h = h
member-without i j (k ∷ js) h = ground (arith, member-without i j js)

start-Due :
    (i : ℕ) (kind : Kind) (dry_run : Bool) (h : Handle) → Due i h → Due i (start kind dry_run h)
unfolding start Due
start-Due i kind dry_run h d =
    let other : eqb h.count i ≡ false = ground (arith, d.0) in
    (omega (arith, d.0), λ o at. d.1 o (rw other at at))

cancels-Due :
    (i j : ℕ) (more : List ℕ) (h : Handle)
    → h.cancelling ≡ j ∷ more
    → Due i h
    → Due i (record h { operations = alter j cancel h.operations; cancelling = more })
unfolding Due
cancels-Due i j more h now d = (
  d.0,
  λ o at. alter-elim i j cancel h.operations at λ p there is.
      subst (λ x. (member i more || x.cancel_requested) ≡ true) is
        (elim (Bool-cases (eqb j i)) [
          | inl same ↦ rw (same, cancel-requested p) (or_true (member i more))
          | inr other ↦ rw other (rw (now, other) at (d.1 p there))
        ]),
)

Step-Due : {h h' : Handle} (i : ℕ) → Step h h' → Due i h → Due i h'
unfolding Due
Step-Due {h} i (starts kind dry_run) d = start-Due i kind dry_run h d
Step-Due {h} i (handles j colorize now ev) d =
    alter-Due i j _ h (handle_event-Keeps colorize now ev) d
Step-Due {h} i (requests j) d = alter-Due i j cancel h cancel-Keeps d
Step-Due {h} i (settles j duration pending err) d =
    alter-Due i j _ h (settle-Keeps duration pending err) d
Step-Due {h} i (leaves j) d = (d.0, d.1)
Step-Due {h} i (terminates j now out) d = alter-Due i j _ h (terminate-Keeps now) d
Step-Due {h} i (closes j out) d = alter-Due i j _ h close_stream-Keeps d
Step-Due {h} i reads d = (
  d.0,
  λ o at.
      rw (member-append i h.cancelling h.running)
        (or_wider (member i h.cancelling) (member i h.running) o.cancel_requested (d.1 o at)),
)
Step-Due {h} i (cancels j more now) d = cancels-Due i j more h now d

running-IsBelow : {h : Handle} → Reach h → IsBelow h.count h.running
unfolding IsBelow start
running-IsBelow opened i m = absurd (cc m)
running-IsBelow (then_step {h} r (starts kind dry_run)) i m = elim (Bool-cases (eqb h.count i)) [
  | inl same ↦ ground (arith, same)
  | inr other ↦ omega (arith, running-IsBelow r i (rw other at m))
]
running-IsBelow (then_step r (handles j colorize now ev)) i m = running-IsBelow r i m
running-IsBelow (then_step r (requests j)) i m = running-IsBelow r i m
running-IsBelow (then_step r (settles j duration pending err)) i m = running-IsBelow r i m
running-IsBelow (then_step {h} r (leaves j)) i m =
    running-IsBelow r i (member-without i j h.running m)
running-IsBelow (then_step r (terminates j now out)) i m = running-IsBelow r i m
running-IsBelow (then_step r (closes j out)) i m = running-IsBelow r i m
running-IsBelow (then_step r reads) i m = running-IsBelow r i m
running-IsBelow (then_step r (cancels j more now)) i m = running-IsBelow r i m

Since-Due : {h k : Handle} (i : ℕ) → Reach h → member i h.running ≡ true → Since h k → Due i k
unfolding Due
Since-Due {h} i r m at_read = (
  running-IsBelow r i m,
  λ o at.
      rw (member-append i h.cancelling h.running, m)
        (or_keeps (member i h.cancelling || true) false o.cancel_requested (λ y. absurd (cc y))
          (rw (or_true (member i h.cancelling)) refl)),
)
Since-Due i r m (and_step s t) = Step-Due i t (Since-Due i r m s)

-- When a call of `Stack.Cancel` has read the operations that run, and whatever happens since, with
-- other operations that start and end and other calls of `Cancel` between: once nothing is left to
-- cancel, every operation that ran then has a cancel requested.
pub cancel_reaches_running :
    (h k : Handle) (i : ℕ) (o : Operation)
    → Reach h
    → member i h.running ≡ true
    → Since h k
    → k.cancelling ≡ []
    → k.operations i ≡ some o
    → o.cancel_requested ≡ true
unfolding Due
cancel_reaches_running h k i o r m s over there = rw over at (Since-Due i r m s).1 o there
