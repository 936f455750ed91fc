-- ===== src/Prelude/Results.antt =====
-- Results that carry an exception, for do blocks, and what holds of one that returned.
use mathlib.Core.Path.{◌≡◌, refl, ap, subst}
use mathlib.Core.Logic.{◌⊎◌, inl, inr}
use mathlib.Core.Bool.{Bool, true, false}
use mathlib.Core.Option.{Option, none, some}
use native.Mathlib.Omega.{arith}
use regnova.Prelude.Tests.{if◌then◌else◌}

pub data Result (E A : Type 0) : Type 0 where
  ok : A → Result E A
  raise : E → Result E A

infixl 5 ◌>>=◌ ◌>>◌
abbrev pub ◌>>=◌ : {E A B : Type 0} → Result E A → (A → Result E B) → Result E B
ok a >>= f = f a
raise e >>= f = raise e

abbrev pub ◌>>◌ : {E A B : Type 0} → Result E A → Result E B → Result E B
m >> k = m >>= λ _. k

module _ {E : Type 0} where
  abbrev pub require : Bool → E → Result E (Unit {0})
  require test e = if test then ok tt else raise e

  abbrev pub or_raise : {A : Type 0} → Option A → E → Result E A
  or_raise none e = raise e
  or_raise (some a) e = ok a

  abbrev pub is_ok : {A : Type 0} → Result E A → Bool
  is_ok (ok a) = true
  is_ok (raise e) = false

  abbrev pub OnOk : {A : Type 0} → (A → Type 0) → Result E A → Type 0
  OnOk P (ok a) = P a
  OnOk P (raise e) = Unit

  pub OnOk_apply :
      {A : Type 0} (P : A → Type 0) {m : Result E A} {a : A} → m ≡ ok a → OnOk P m → P a
  OnOk_apply P e h = subst (OnOk P) e h

  pub OnOk-bind :
      {A B : Type 0} (P : B → Type 0) (m : Result E A) (f : A → Result E B)
      → ((a : A) → m ≡ ok a → OnOk P (f a))
      → OnOk P (m >>= f)
  OnOk-bind P (ok a) f h = h a refl
  OnOk-bind P (raise e) f h = tt

  pub require-ok : (test : Bool) (e : E) (u : Unit {0}) → require test e ≡ ok u → test ≡ true
  require-ok true e u h = refl
  require-ok false e u h = cc

  pub or_raise-ok : {A : Type 0} (o : Option A) (e : E) (a : A) → or_raise o e ≡ ok a → o ≡ some a
  or_raise-ok none e a h = cc
  or_raise-ok (some b) e a h = ground (arith, h)

  pub requires-ok :
      (b c : Bool) (e f : E) (u : Unit {0})
      → (require b e >> require c f) ≡ ok u
      → (b ≡ true) × (c ≡ true)
  requires-ok true true e f u h = (refl, refl)
  requires-ok true false e f u h = cc
  requires-ok false c e f u h = cc

  pub raise_not_ok : {A : Type 0} (e : E) (a : A) → raise e ≡ ok a → ⊥
  raise_not_ok e a h = cc

  pub Result-cases :
      {A : Type 0} (m : Result E A) → ((a : A) × (m ≡ ok a)) ⊎ ((e : E) × (m ≡ raise e))
  Result-cases (ok a) = inl (a, refl)
  Result-cases (raise e) = inr (e, refl)

  -- A bind after a step whose outcome is known.
  pub bind-ok :
      {A B : Type 0} (m : Result E A) (a : A) (f : A → Result E B) → m ≡ ok a → (m >>= f) ≡ f a
  bind-ok m a f h = ap (λ x. x >>= f) h
