-- ===== src/Operation/Running.antt =====
-- engine/operation.go and engine/stack.go: `start`, the end of an operation and `Stack.Cancel`, on
-- the handle's set of running operations. An operation's address is a number; the goroutines of the
-- operations, their clients and `Cancel` take turns in any order.
pub mod Cancelled
use pulumi_engine.Prelude.{
  ℕ, suc, ◌+◌, String, Bool, true, false, not, ◌&&◌, ◌≡◌, refl, List, [], ◌∷◌, ◌++◌, Option, none,
  some, any, eqb, if◌then◌else◌,
}
use pulumi_engine.Errors.{Kind, GoError, preview}
use pulumi_engine.Events.{Event}
use pulumi_engine.Operation.{Operation, new_operation, push, cancel, handle_event}
use pulumi_engine.Operation.Outcome.{settle, terminate, close_stream}
use pulumi_engine.Queue

-- The operations of a handle by their address, the next address, `Stack.running`, and what the
-- calls of `Stack.Cancel` have still to cancel of what they found.
pub record Handle : Type 0 where
  pub operations : ℕ → Option Operation
  pub count : ℕ
  pub running : List ℕ
  pub cancelling : List ℕ

abbrev pub new_handle : Handle
new_handle = record { operations = λ i. none; count = 0; running = []; cancelling = [] }

abbrev pub member : ℕ → List ℕ → Bool
member i = any (λ j. eqb j i)

-- `delete(running, op)`
unfoldable pub without : ℕ → List ℕ → List ℕ
without i [] = []
without i (j ∷ js) = let rest = without i js in if eqb j i then rest else j ∷ rest

abbrev pub is_preview : Kind → Bool
is_preview preview = true
is_preview _ = false

-- a write through an operation's address
unfoldable pub alter : ℕ → (Operation → Operation) → (ℕ → Option Operation) → ℕ → Option Operation
alter i f operations j = elim (operations j) [
  | none ↦ none
  | some o ↦ some (if eqb i j then f o else o)
]

-- `start`
unfoldable pub start : Kind → Bool → Handle → Handle
start kind dry_run h = record h {
  operations = λ j.
      if eqb h.count j
      then some (record (new_operation kind) { dry_run = dry_run && not (is_preview kind) })
      else h.operations j;
  count = h.count + 1;
  running = h.count ∷ h.running;
}

pub data Step (h : Handle) : Handle → Type 0 where
  starts : (kind : Kind) (dry_run : Bool) → Step h (start kind dry_run h)
  -- `handleEvent`
  handles :
      (i : ℕ) (colorize : String → String) (now : ℕ) (ev : Event)
      → Step h (record h { operations = alter i (handle_event colorize now ev) h.operations })
  -- `Operation.Cancel` by a client
  requests : (i : ℕ) → Step h (record h { operations = alter i cancel h.operations })
  -- `finish`: up to the removal, the removal, the terminator event, and the end of the stream
  settles :
      (i duration : ℕ) (pending : List String) (err : Option GoError)
      → Step h (record h { operations = alter i (settle duration pending err) h.operations })
  leaves : (i : ℕ) → Step h (record h { running = without i h.running })
  terminates :
      (i now : ℕ)
      → member i h.running ≡ false
      → Step h (record h { operations = alter i (terminate now) h.operations })
  closes :
      (i : ℕ)
      → member i h.running ≡ false
      → Step h (record h { operations = alter i close_stream h.operations })
  -- `Stack.Cancel`: the running operations are read, and then cancelled one by one
  reads : Step h (record h { cancelling = h.cancelling ++ h.running })
  cancels :
      (i : ℕ) (more : List ℕ)
      → h.cancelling ≡ i ∷ more
      → Step h (record h { operations = alter i cancel h.operations; cancelling = more })

pub data Reach : Handle → Type 0 where
  opened : Reach new_handle
  then_step : {h h' : Handle} → Reach h → Step h h' → Reach h'

-- what a handle comes to after a call of `Stack.Cancel` has read the operations that run
pub data Since (h : Handle) : Handle → Type 0 where
  at_read : Since h (record h { cancelling = h.cancelling ++ h.running })
  and_step : {k k' : Handle} → Since h k → Step k k' → Since h k'
