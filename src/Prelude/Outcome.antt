-- ===== src/Prelude/Outcome.antt =====
-- A call that returns or raises, and a method of an object: what was written before a raise stays
-- written, so the state comes back beside the error too.
use mathlib.Core.Path.{◌≡◌, refl}
use mathlib.Core.Logic.{◌⊎◌, inl, inr}
use mathlib.Core.Bool.{Bool, true, false}
use native.Mathlib.Omega.{arith}

pub data Result (E A : Type 0) : Type 0 where
  ok : A → Result E A
  err : E → Result E A

infixl 5 ◌>>=◌ ◌>>◌
abbrev pub ◌>>=◌ : {E A B : Type 0} → Result E A → (A → Result E B) → Result E B
ok a >>= f = f a
err e >>= f = err e

abbrev pub ◌>>◌ : {E B : Type 0} → Result E (Unit {0}) → Result E B → Result E B
m >> k = m >>= λ _. k

-- `if test: raise e`
abbrev pub raise_if : {E : Type 0} → Bool → E → Result E (Unit {0})
raise_if true e = err e
raise_if false e = ok tt

pub Result-cases :
    {E A : Type 0} (r : Result E A) → ((a : A) × (r ≡ ok a)) ⊎ ((e : E) × (r ≡ err e))
Result-cases (ok a) = inl (a, refl)
Result-cases (err e) = inr (e, refl)

abbrev pub Method : Type 0 → Type 0 → Type 0 → Type 0
Method E S A = S → Result E A × S

-- Goes on with the value of a pure call, or raises its error and leaves the object as it is.
abbrev pub bind_pure : {E S A B : Type 0} → Result E A → (A → Method E S B) → Method E S B
bind_pure (ok a) f s = f a s
bind_pure (err e) f s = (err e, s)

-- The parts of a chain that returns.
pub bind_ok :
    {E A B : Type 0} (m : Result E A) (f : A → Result E B) (b : B)
    → (m >>= f) ≡ ok b
    → (a : A) × (m ≡ ok a) × (f a ≡ ok b)
bind_ok (ok a) f b h = (a, refl, h)
bind_ok (err e) f b h = absurd (ground arith)

pub raise_ok :
    {E B : Type 0} (test : Bool) (e : E) (k : Result E B) (b : B)
    → (raise_if test e >> k) ≡ ok b
    → (test ≡ false) × (k ≡ ok b)
raise_ok true e k b h = absurd (ground arith)
raise_ok false e k b h = (refl, h)

-- Goes on with the value that a method returns and the object that it leaves.
abbrev pub after_call : {E S A B : Type 0} → Result E A × S → (A → Method E S B) → Result E B × S
after_call (ok a, s) f = f a s
after_call (err e, s) f = (err e, s)

infixl 5 ◌>>>=◌
abbrev pub ◌>>>=◌ : {E S A B : Type 0} → Method E S A → (A → Method E S B) → Method E S B
(m >>>= f) s = after_call (m s) f
