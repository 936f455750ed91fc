-- ===== src/Prelude/Lists.antt =====
-- Lists measured by native numbers, Python's `any` and `all`, and a predicate at every item.
use Prim.Native.Nat.{ℕ, suc, ◌+◌}
use mathlib.Core.Path.{◌≡◌, refl}
use mathlib.Core.Bool.{Bool, true, false, ◌&&◌, ◌||◌}
use mathlib.Core.List.{List, [], ◌∷◌, ◌++◌}
use mathlib.Core.Option.{Option, none, some}
use native.Mathlib.Omega.{arith}
use regnova.Prelude.Tests.{if◌then◌else◌}

module _ {ℓ} {A : Type ℓ} where
  abbrev pub length : List A → ℕ
  length [] = 0
  length (x ∷ xs) = suc (length xs)

  -- Python's `any(test(x) for x in xs)`.
  abbrev pub any : (A → Bool) → List A → Bool
  any test [] = false
  any test (x ∷ xs) = test x || any test xs

  -- Python's `all(test(x) for x in xs)`.
  abbrev pub all : (A → Bool) → List A → Bool
  all test [] = true
  all test (x ∷ xs) = test x && all test xs

  -- Python's `[x for x in xs if test(x)]`.
  abbrev pub filter : (A → Bool) → List A → List A
  filter test [] = []
  filter test (x ∷ xs) = let rest = filter test xs in if test x then x ∷ rest else rest

  -- The first item that passes, as a query with `limit(1)` returns it.
  abbrev pub find : (A → Bool) → List A → Option A
  find test [] = none
  find test (x ∷ xs) = if test x then some x else find test xs

  abbrev pub All {κ} : (A → Type κ) → List A → Type κ
  All P [] = Unit
  All P (x ∷ xs) = P x × All P xs

  pub length-append : (xs ys : List A) → length (xs ++ ys) ≡ length xs + length ys
  length-append [] ys = omega arith
  length-append (x ∷ xs) ys = omega (arith, length-append xs ys)

  pub any-append :
      (test : A → Bool) (xs ys : List A) → any test (xs ++ ys) ≡ (any test xs || any test ys)
  any-append test [] ys = refl
  any-append test (x ∷ xs) ys = ground (arith, any-append test xs ys)

  pub All-append {κ} : (P : A → Type κ) (xs ys : List A) → All P xs → All P ys → All P (xs ++ ys)
  All-append P [] ys h k = k
  All-append P (x ∷ xs) ys h k = (h.0, All-append P xs ys h.1 k)

  pub find-congr :
      (test test' : A → Bool) (xs : List A)
      → ((x : A) → test x ≡ test' x)
      → find test xs ≡ find test' xs
  find-congr test test' [] h = refl
  find-congr test test' (x ∷ xs) h = ground (arith, h x, find-congr test test' xs h)

  pub find-true : (test : A → Bool) (xs : List A) (x : A) → find test xs ≡ some x → test x ≡ true
  find-true test [] x e = cc
  find-true test (y ∷ xs) x e = ground (arith, find-true test xs x)

  pub find-none : (test : A → Bool) (xs : List A) → any test xs ≡ false → find test xs ≡ none
  find-none test [] e = refl
  find-none test (y ∷ xs) e = ground (arith, find-none test xs)
