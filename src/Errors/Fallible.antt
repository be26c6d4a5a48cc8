-- ===== src/Errors/Fallible.antt =====
-- Go's `(T, error)` results, where a nil error comes with a value.
use pulumi_engine.Prelude.{Bool, true, false, ◌≡◌, refl, ◌⊎◌, inl, inr}
use pulumi_engine.Errors.{GoError}

pub data Fallible {ℓ} (A : Type ℓ) : Type ℓ where
  ok : A → Fallible A
  err : GoError → Fallible A

infixl 5 ◌>>=◌ ◌>>◌
abbrev pub ◌>>=◌ {ℓ κ} : {A : Type ℓ} {B : Type κ} → Fallible A → (A → Fallible B) → Fallible B
ok a >>= f = f a
err e >>= f = err e

abbrev pub ◌>>◌ {ℓ} : {B : Type ℓ} → Fallible (Unit {0}) → Fallible B → Fallible B
m >> k = m >>= λ _. k

-- `if bad { return e }`
abbrev pub reject_if : Bool → GoError → Fallible (Unit {0})
reject_if true e = err e
reject_if false e = ok tt

-- `if err != nil { return f(err) }`
abbrev pub map_err {ℓ} : {A : Type ℓ} → (GoError → GoError) → Fallible A → Fallible A
map_err f (ok a) = ok a
map_err f (err e) = err (f e)

-- What holds of every error that a computation can return.
abbrev pub ErrorsOf {ℓ κ} : {A : Type ℓ} → (GoError → Type κ) → Fallible A → Type κ
ErrorsOf P (ok a) = Unit
ErrorsOf P (err e) = P e

-- What holds of every value that a computation can return.
abbrev pub ValuesOf {ℓ κ} : {A : Type ℓ} → (A → Type κ) → Fallible A → Type κ
ValuesOf P (ok a) = P a
ValuesOf P (err e) = Unit

-- Inversion of a chain that succeeded.
pub bind-eq-ok {ℓ κ} :
    {A : Type ℓ} {B : Type κ} (m : Fallible A) (f : A → Fallible B) {b : B}
    → (m >>= f) ≡ ok b
    → (a : A) × (m ≡ ok a) × (f a ≡ ok b)
bind-eq-ok (ok a) f h = (a, refl, h)
bind-eq-ok (err e) f h = cc

-- An error of a chain is one of its parts'.
pub ErrorsOf-bind {ℓ κ μ} :
    {A : Type ℓ} {B : Type κ} (P : GoError → Type μ) (m : Fallible A) (f : A → Fallible B)
    → ErrorsOf P m
    → ((a : A) → ErrorsOf P (f a))
    → ErrorsOf P (m >>= f)
ErrorsOf-bind P (ok a) f hm hf = hf a
ErrorsOf-bind P (err e) f hm hf = hm

pub ErrorsOf-reject_if {ℓ} :
    (P : GoError → Type ℓ) (bad : Bool) (e : GoError) → P e → ErrorsOf P (reject_if bad e)
ErrorsOf-reject_if P true e h = h
ErrorsOf-reject_if P false e h = tt

pub ErrorsOf-map_err {ℓ κ} :
    {A : Type ℓ} (P : GoError → Type κ) (f : GoError → GoError) (m : Fallible A)
    → ((e : GoError) → P (f e))
    → ErrorsOf P (map_err f m)
ErrorsOf-map_err P f (ok a) h = tt
ErrorsOf-map_err P f (err e) h = h e

pub reject_if-eq-ok : (bad : Bool) (e : GoError) → reject_if bad e ≡ ok tt → bad ≡ false
reject_if-eq-ok true e h = cc
reject_if-eq-ok false e h = refl

pub ok_inj {ℓ} : {A : Type ℓ} (a b : A) → ◌≡◌ {A = Fallible A} (ok a) (ok b) → a ≡ b
ok_inj a b h = cc

-- The same inversion, handed on: it keeps the types of a long chain small.
pub bind_elim {ℓ κ μ} :
    {A : Type ℓ} {B : Type κ} {P : Type μ} (m : Fallible A) (f : A → Fallible B) {b : B}
    → (m >>= f) ≡ ok b
    → ((a : A) → m ≡ ok a → f a ≡ ok b → P)
    → P
bind_elim (ok a) f h k = k a refl h
bind_elim (err e) f h k = absurd (cc h)

pub map_err-eq-ok {ℓ} :
    {A : Type ℓ} (f : GoError → GoError) (m : Fallible A) (a : A) → map_err f m ≡ ok a → m ≡ ok a
map_err-eq-ok f (ok b) a h = h
map_err-eq-ok f (err e) a h = absurd (cc h)

pub Fallible-cases {ℓ} :
    {A : Type ℓ} (m : Fallible A) → ((a : A) × (m ≡ ok a)) ⊎ ((e : GoError) × (m ≡ err e))
Fallible-cases (ok a) = inl (a, refl)
Fallible-cases (err e) = inr (e, refl)
