-- ===== src/Operation/Scope.antt =====
-- engine/operation.go: `scopeSource`, which hands the signals of an operation's `Cancel` to the
-- backend. Its goroutine waits on channels, so what runs is a step relation: calls of `Cancel`, the
-- backend's `Close` of the scope, and the turns of the goroutine, in any order.
pub mod Signals
use pulumi_engine.Prelude.{ℕ, zero, suc, Bool, true, false, List, [], ◌∷◌, ◌++◌, ◌≡◌}
use pulumi_engine.Errors.{Kind}
use pulumi_engine.Operation.{Operation, new_operation, cancel}

-- `src.Cancel()` and `src.Terminate()`
pub data Signal : Type 0 where
  cancelled terminated : Signal

-- where the goroutine of `NewScope` stands: at its first `select`, at its second, or returned
pub data Phase : Type 0 where
  first_select second_select returned : Phase

pub record Scope : Type 0 where
  pub op : Operation
  -- whether the channel `done` is closed
  pub closed : Bool
  pub phase : Phase
  -- what the backend's context was told
  pub signals : List Signal

-- `NewScope`
abbrev pub new_scope : Operation → Scope
new_scope o = record { op = o; closed = false; phase = first_select; signals = [] }

-- `scope.Close`
abbrev pub close_scope : Scope → Scope
close_scope s = record s { closed = true }

-- A turn of the goroutine. Where two channels of a `select` are ready, either turn can come.
pub data Turn (s : Scope) : Scope → Type 0 where
  take_cancel :
      s.phase ≡ first_select
      → s.op.cancel_closed ≡ true
      → Turn s (record s { phase = second_select; signals = s.signals ++ cancelled ∷ [] })
  leave_first : s.phase ≡ first_select → s.closed ≡ true → Turn s (record s { phase = returned })
  take_terminate :
      s.phase ≡ second_select
      → s.op.terminate_closed ≡ true
      → Turn s (record s { phase = returned; signals = s.signals ++ terminated ∷ [] })
  leave_second : s.phase ≡ second_select → s.closed ≡ true → Turn s (record s { phase = returned })

-- What can be reached from a new operation and a new scope with n calls of `Cancel`.
pub data Reach (kind : Kind) : ℕ → Scope → Type 0 where
  start : Reach kind 0 (new_scope (new_operation kind))
  call_cancel :
      {n : ℕ} {s : Scope} → Reach kind n s → Reach kind (suc n) (record s { op = cancel s.op })
  close : {n : ℕ} {s : Scope} → Reach kind n s → Reach kind n (close_scope s)
  turn : {n : ℕ} {s t : Scope} → Reach kind n s → Turn s t → Reach kind n t

-- The signals for n calls of `Cancel`.
abbrev pub demanded : ℕ → List Signal
demanded zero = []
demanded (suc zero) = cancelled ∷ []
demanded (suc (suc n)) = cancelled ∷ terminated ∷ []
