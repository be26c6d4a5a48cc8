-- ===== src/Operation/Cancelling.antt =====
-- engine/operation.go: calls of `Cancel`.
use pulumi_engine.Prelude.{ℕ, zero, suc, ◌≡◌, refl, arith, ltb}
use pulumi_engine.Errors.{Kind}
use pulumi_engine.Operation.{Operation, new_operation, cancel}

-- n calls of `Cancel`, one after the other
pub cancel_times : ℕ → Operation → Operation
cancel_times zero o = o
cancel_times (suc n) o = cancel (cancel_times n o)

-- After n calls of `Cancel` on a new operation a cancel is requested, and the cancel channel
-- closed, exactly if n is not 0, and the terminate channel is closed exactly if n is at least 2.
pub cancel_times_new :
    (kind : Kind) (n : ℕ)
    → let o = cancel_times n (new_operation kind) in
      (o.cancel_requested ≡ ltb 0 n) × (o.cancel_closed ≡ ltb 0 n) × (o.terminate_closed ≡ ltb 1 n)
unfolding cancel_times cancel
cancel_times_new kind zero = (refl, refl, refl)
cancel_times_new kind (suc n) = ground (arith, cancel_times_new kind n)
