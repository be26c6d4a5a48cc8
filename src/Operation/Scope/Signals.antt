-- ===== src/Operation/Scope/Signals.antt =====
-- engine/operation.go: what a scope has told the backend.
use pulumi_engine.Prelude.{
  ℕ, zero, suc, ◌≤◌, ◌<◌, Bool, true, false, List, [], ◌∷◌, ◌++◌, ◌≡◌, refl, sym, ◌∙◌, ap, arith,
  ltb, Bool-cases, inl, inr,
}
use mathlib.Core.Path.{subst}
use pulumi_engine.Errors.{Kind}
use pulumi_engine.Operation.{cancel}
use pulumi_engine.Operation.Scope.{
  Signal, cancelled, terminated, Phase, first_select, second_select, returned, Scope, Turn,
  take_cancel, leave_first, take_terminate, leave_second, Reach, start, call_cancel, close, turn,
  demanded,
}

-- The signals that can have been given after n calls, by where the goroutine stands.
abbrev Told : Phase → Bool → ℕ → List Signal → Type 0
Told first_select closed n signals = signals ≡ []
Told second_select closed n signals = (0 < n) × (signals ≡ cancelled ∷ [])
Told returned false n signals = (1 < n) × (signals ≡ cancelled ∷ terminated ∷ [])
Told returned true n signals = (m : ℕ) × (m ≤ n) × (signals ≡ demanded m)

record IsScope (n : ℕ) (s : Scope) : Type 0 where
  cancel_flag : s.op.cancel_closed ≡ ltb 0 n
  request_flag : s.op.cancel_requested ≡ ltb 0 n
  terminate_flag : s.op.terminate_closed ≡ ltb 1 n
  told : Told s.phase s.closed n s.signals

Told-suc : (p : Phase) (c : Bool) (n : ℕ) (l : List Signal) → Told p c n l → Told p c (suc n) l
Told-suc first_select c n l h = h
Told-suc second_select c n l h = (omega arith, h.1)
Told-suc returned false n l h = (omega arith, h.1)
Told-suc returned true n l (m, h, e) = (m, omega arith, e)

Told-close : (p : Phase) (c : Bool) (n : ℕ) (l : List Signal) → Told p c n l → Told p true n l
Told-close first_select c n l h = h
Told-close second_select c n l h = h
Told-close returned false n l h = (2, omega arith, h.1)
Told-close returned true n l h = h

-- the same at a phase that is known by an equation
Told-at :
    (p q : Phase) (c d : Bool) (n : ℕ) (l : List Signal)
    → p ≡ q
    → c ≡ d
    → Told p c n l
    → Told q d n l
Told-at p q c d n l e f h = subst (λ x. Told x d n l) e (subst (λ y. Told p y n l) f h)

Told-terminate :
    (c : Bool) (n : ℕ) (l : List Signal)
    → 1 < n
    → l ≡ cancelled ∷ []
    → Told returned c n (l ++ terminated ∷ [])
Told-terminate true n l h e = (2, omega arith, rw e refl)
Told-terminate false n l h e = (h, rw e refl)

ltb→lt : (a b : ℕ) → ltb a b ≡ true → a < b
ltb→lt a b h = ground arith

Turn-IsScope : {n : ℕ} {s t : Scope} → Turn s t → IsScope n s → IsScope n t
Turn-IsScope {n} {s} (take_cancel at ready) v =
    let none_yet = Told-at _ _ _ _ n s.signals at refl v.told in
    record {
      cancel_flag = v.cancel_flag;
      request_flag = v.request_flag;
      terminate_flag = v.terminate_flag;
      told = (ltb→lt 0 n (sym v.cancel_flag ∙ ready), ap (λ l. l ++ cancelled ∷ []) none_yet);
    }
Turn-IsScope {n} {s} (leave_first at closed) v =
    let none_yet = Told-at _ _ _ _ n s.signals at refl v.told in
    record {
      cancel_flag = v.cancel_flag;
      request_flag = v.request_flag;
      terminate_flag = v.terminate_flag;
      told = Told-at returned _ true _ n s.signals refl (sym closed) (0, omega arith, none_yet);
    }
Turn-IsScope {n} {s} (take_terminate at ready) v =
    let one = Told-at _ _ _ _ n s.signals at refl v.told in
    record {
      cancel_flag = v.cancel_flag;
      request_flag = v.request_flag;
      terminate_flag = v.terminate_flag;
      told = Told-terminate s.closed n s.signals (ltb→lt 1 n (sym v.terminate_flag ∙ ready)) one.1;
    }
Turn-IsScope {n} {s} (leave_second at closed) v =
    let one = Told-at _ _ _ _ n s.signals at refl v.told in
    record {
      cancel_flag = v.cancel_flag;
      request_flag = v.request_flag;
      terminate_flag = v.terminate_flag;
      told = Told-at returned _ true _ n s.signals refl (sym closed) (1, omega arith, one.1);
    }

cancel-IsScope : {n : ℕ} {s : Scope} → IsScope n s → IsScope (suc n) (record s { op = cancel s.op })
unfolding cancel
cancel-IsScope {n} {s} v = record {
  cancel_flag = ground (arith, v.cancel_flag, v.request_flag);
  request_flag = ground (arith, v.request_flag);
  terminate_flag = ground (arith, v.request_flag, v.terminate_flag);
  told = Told-suc s.phase s.closed n s.signals v.told;
}

Reach-IsScope : {kind : Kind} {n : ℕ} {s : Scope} → Reach kind n s → IsScope n s
Reach-IsScope start = record {
  cancel_flag = refl;
  request_flag = refl;
  terminate_flag = refl;
  told = refl;
}
Reach-IsScope (call_cancel r) = cancel-IsScope (Reach-IsScope r)
Reach-IsScope (close {n} {s} r) =
    let v = Reach-IsScope r in
    record {
      cancel_flag = v.cancel_flag;
      request_flag = v.request_flag;
      terminate_flag = v.terminate_flag;
      told = Told-close s.phase s.closed n s.signals v.told;
    }
Reach-IsScope (turn r t) = Turn-IsScope t (Reach-IsScope r)

Told-demanded :
    (p : Phase) (c : Bool) (n : ℕ) (l : List Signal)
    → Told p c n l
    → (m : ℕ) × (m ≤ n) × (l ≡ demanded m)
Told-demanded first_select c n l h = (0, omega arith, h)
Told-demanded second_select c n l h = (1, omega arith, h.1)
Told-demanded returned false n l h = (2, omega arith, h.1)
Told-demanded returned true n l h = h

-- Whatever the order of the calls, the close and the turns, the backend is never told more than
-- `Cancel` was called for: nothing at first, then once to cancel, then to terminate, and the last
-- only after two calls.
pub signals-demanded :
    (kind : Kind) (n : ℕ) (s : Scope)
    → Reach kind n s
    → (m : ℕ) × (m ≤ n) × (s.signals ≡ demanded m)
signals-demanded kind n s r =
    Told-demanded s.phase s.closed n s.signals (IsScope.told (Reach-IsScope r))

demanded_low : (n : ℕ) → ltb 0 n ≡ false → [] ≡ demanded n
demanded_low zero h = refl
demanded_low (suc n) h = absurd (ground arith)

demanded_one : (n : ℕ) → 0 < n → ltb 1 n ≡ false → cancelled ∷ [] ≡ demanded n
demanded_one zero h k = absurd (omega arith)
demanded_one (suc zero) h k = refl
demanded_one (suc (suc n)) h k = absurd (ground arith)

demanded_high : (n : ℕ) → 1 < n → cancelled ∷ terminated ∷ [] ≡ demanded n
demanded_high zero h = absurd (omega arith)
demanded_high (suc zero) h = absurd (omega arith)
demanded_high (suc (suc n)) h = refl

-- no channel that the goroutine waits on is closed
abbrev pub IsBlocked : Scope → Type 0
IsBlocked s = (t : Scope) → Turn s t → ⊥

-- The goroutine at a phase that is known, where it is blocked on an open scope.
blocked_at :
    (p : Phase) (n : ℕ) (s : Scope)
    → s.phase ≡ p
    → IsScope n s
    → IsBlocked s
    → s.closed ≡ false
    → s.signals ≡ demanded n
blocked_at first_select n s at v b open_scope =
    let none_yet = Told-at _ _ _ _ n s.signals at refl v.told in
    elim (Bool-cases s.op.cancel_closed) [
      | inl ready ↦ absurd (b _ (take_cancel at ready))
      | inr not_yet ↦ none_yet ∙ demanded_low n (sym v.cancel_flag ∙ not_yet)
    ]
blocked_at second_select n s at v b open_scope =
    let one = Told-at _ _ _ _ n s.signals at refl v.told in
    elim (Bool-cases s.op.terminate_closed) [
      | inl ready ↦ absurd (b _ (take_terminate at ready))
      | inr not_yet ↦ one.1 ∙ demanded_one n one.0 (sym v.terminate_flag ∙ not_yet)
    ]
blocked_at returned n s at v b open_scope =
    let both = Told-at _ _ _ _ n s.signals at open_scope v.told in both.1 ∙ demanded_high n both.0

closed_at :
    (p : Phase) (s : Scope) → s.phase ≡ p → IsBlocked s → s.closed ≡ true → s.phase ≡ returned
closed_at first_select s at b closed = absurd (b _ (leave_first at closed))
closed_at second_select s at b closed = absurd (b _ (leave_second at closed))
closed_at returned s at b closed = at

-- When the goroutine has no turn left, then on an open scope the backend was told exactly what the
-- calls of `Cancel` demand, and on a closed scope the goroutine has returned.
pub blocked_signals :
    (kind : Kind) (n : ℕ) (s : Scope)
    → Reach kind n s
    → IsBlocked s
    → (s.closed ≡ false → s.signals ≡ demanded n) × (s.closed ≡ true → s.phase ≡ returned)
blocked_signals kind n s r b =
    (blocked_at s.phase n s refl (Reach-IsScope r) b, closed_at s.phase s refl b)
