-- ===== src/Prelude/Rows.antt =====
-- Rows of a table, newest first: an object that a query returned is changed in place, and the
-- counts, lookups and falling keys that such a change leaves.
use regnova.Prelude.{
  ◌≡◌, refl, ℕ, ◌+◌, ◌<◌, Bool, true, false, none, some, List, [], ◌∷◌, find, filter, length,
  if◌then◌else◌, arith, ◌==◌, All, map, Bool-cases, inl, inr, sym,
}
use mathlib.Core.Path.{subst}

-- The first row that passes is changed in place.
unfoldable pub modify_first : {A : Type 0} → (A → Bool) → (A → A) → List A → List A
modify_first test change [] = []
modify_first test change (x ∷ xs) =
    let rest = modify_first test change xs in if test x then change x ∷ xs else x ∷ rest

abbrev pub one : Bool → ℕ
one b = if b then 1 else 0

module _ {A : Type 0} where
  abbrev pub count : (A → Bool) → List A → ℕ
  count test xs = length (filter test xs)

  pub count-modify_first :
      (test at : A → Bool) (change : A → A) (xs : List A) (x : A)
      → find at xs ≡ some x
      → count test (modify_first at change xs) + one (test x)
        ≡ count test xs + one (test (change x))
  unfolding modify_first
  count-modify_first test at change [] x e = cc
  count-modify_first test at change (y ∷ xs) x e =
      ground (arith, e, count-modify_first test at change xs x)

  pub find-modify_first :
      (test at : A → Bool) (change : A → A) (xs : List A) (x : A)
      → find at xs ≡ some x
      → test x ≡ false
      → test (change x) ≡ false
      → find test (modify_first at change xs) ≡ find test xs
  unfolding modify_first
  find-modify_first test at change [] x e h k = refl
  find-modify_first test at change (y ∷ xs) x e h k =
      ground (arith, e, h, k, find-modify_first test at change xs x)

  pub find-modify_first_at :
      (at : A → Bool) (change : A → A) (xs : List A) (x : A)
      → find at xs ≡ some x
      → at (change x) ≡ true
      → find at (modify_first at change xs) ≡ some (change x)
  unfolding modify_first
  find-modify_first_at at change [] x e h = cc
  find-modify_first_at at change (y ∷ xs) x e h =
      ground (arith, e, h, find-modify_first_at at change xs x)

  pub count-congr :
      (test test' : A → Bool) (xs : List A)
      → ((x : A) → test x ≡ test' x)
      → count test xs ≡ count test' xs
  count-congr test test' [] h = refl
  count-congr test test' (y ∷ xs) h = ground (arith, h y, count-congr test test' xs h)

  pub count-none : (test : A → Bool) (xs : List A) → find test xs ≡ none → count test xs ≡ 0
  count-none test [] e = refl
  count-none test (y ∷ xs) e = ground (arith, e, count-none test xs)

  -- The keys of the rows fall from below `n`.
  abbrev pub Falling : (A → ℕ) → ℕ → List A → Type 0
  Falling key n [] = Unit
  Falling key n (x ∷ xs) = (key x < n) × Falling key (key x) xs

  pub Falling-find :
      (key : A → ℕ) (n : ℕ) (test : A → Bool) (xs : List A) (x : A)
      → Falling key n xs
      → find test xs ≡ some x
      → key x < n
  Falling-find key n test [] x h e = cc
  Falling-find key n test (y ∷ xs) x h e =
      ground (arith, e, h.0, Falling-find key (key y) test xs x h.1)

  -- A row that is found by its key is the row of that key.
  pub Falling-unique :
      (key : A → ℕ) (n i : ℕ) (test : A → Bool) (xs : List A) (x y : A)
      → Falling key n xs
      → find (λ z. key z == i) xs ≡ some x
      → find test xs ≡ some y
      → key y ≡ i
      → x ≡ y
  Falling-unique key n i test [] x y h e k d = cc
  Falling-unique key n i test (z ∷ xs) x y h e k d = ground (
    arith,
    e,
    k,
    d,
    Falling-find key (key z) test xs y h.1,
    Falling-find key (key z) (λ w. key w == i) xs x h.1,
    Falling-unique key (key z) i test xs x y h.1,
  )

  pub Falling-modify_first :
      (key : A → ℕ) (n : ℕ) (at : A → Bool) (change : A → A) (xs : List A)
      → ((x : A) → key (change x) ≡ key x)
      → Falling key n xs
      → Falling key n (modify_first at change xs)
  unfolding modify_first
  Falling-modify_first key n at change [] h k = tt
  Falling-modify_first key n at change (x ∷ xs) h k =
      ground (arith, h x, k, Falling-modify_first key (key x) at change xs h)

  -- A row that a query found is found by its key.
  pub Falling-found :
      (key : A → ℕ) (n : ℕ) (test : A → Bool) (xs : List A) (x : A)
      → Falling key n xs
      → find test xs ≡ some x
      → find (λ z. key z == key x) xs ≡ some x
  Falling-found key n test [] x h e = cc
  Falling-found key n test (y ∷ xs) x h e = ground (
    arith,
    e,
    h.0,
    Falling-find key (key y) test xs x h.1,
    Falling-found key (key y) test xs x h.1,
  )

  pub filter-modify_first :
      (test at : A → Bool) (change : A → A) (xs : List A) (x : A)
      → find at xs ≡ some x
      → test x ≡ false
      → test (change x) ≡ false
      → filter test (modify_first at change xs) ≡ filter test xs
  unfolding modify_first
  filter-modify_first test at change [] x e h k = refl
  filter-modify_first test at change (y ∷ xs) x e h k =
      ground (arith, e, h, k, filter-modify_first test at change xs x)

  pub All-modify_first :
      (P : A → Type 0) (at : A → Bool) (change : A → A) (xs : List A) (x : A)
      → find at xs ≡ some x
      → P (change x)
      → All P xs
      → All P (modify_first at change xs)
  unfolding modify_first
  All-modify_first P at change [] x e h k = tt
  All-modify_first P at change (y ∷ ys) x e h k = elim (Bool-cases (at y)) [
    | inl b ↦
        let d : y ≡ x = ground (arith, e, b) in
        subst (λ c. All P (if c then change y ∷ ys else y ∷ modify_first at change ys)) (sym b)
          (subst (λ z. P (change z)) (sym d) h, k.1)
    | inr b ↦
        let d : find at ys ≡ some x = ground (arith, e, b) in
        subst (λ c. All P (if c then change y ∷ ys else y ∷ modify_first at change ys)) (sym b)
          (k.0, All-modify_first P at change ys x d h k.1)
  ]

  pub All-find :
      (P : A → Type 0) (test : A → Bool) (xs : List A) (x : A)
      → find test xs ≡ some x
      → All P xs
      → P x
  All-find P test [] x e h = cc
  All-find P test (y ∷ ys) x e h = elim (Bool-cases (test y)) [
    | inl b ↦ let d : y ≡ x = ground (arith, e, b) in subst P d h.0
    | inr b ↦ let d : find test ys ≡ some x = ground (arith, e, b) in All-find P test ys x d h.1
  ]

  pub All-filter :
      (P : A → Type 0) (test : A → Bool) (xs : List A) → All P xs → All P (filter test xs)
  All-filter P test [] h = tt
  All-filter P test (y ∷ ys) h = All_if (test y) P y (filter test ys) h.0 (All-filter P test ys h.1)
    where
      All_if :
          (b : Bool) (P : A → Type 0) (y : A) (ys : List A)
          → P y
          → All P ys
          → All P (if b then y ∷ ys else ys)
      All_if true P y ys h k = (h, k)
      All_if false P y ys h k = k

  pub All-map :
      (P Q : A → Type 0) (change : A → A) (xs : List A)
      → ((x : A) → P x → Q (change x))
      → All P xs
      → All Q (map change xs)
  All-map P Q change [] h k = tt
  All-map P Q change (y ∷ ys) h k = (h y k.0, All-map P Q change ys h k.1)

  pub All_weaken : (P Q : A → Type 0) (xs : List A) → ((x : A) → P x → Q x) → All P xs → All Q xs
  All_weaken P Q [] h k = tt
  All_weaken P Q (y ∷ ys) h k = (h y k.0, All_weaken P Q ys h k.1)
