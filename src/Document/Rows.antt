-- ===== src/Document/Rows.antt =====
-- Tables of versions that differ in columns that do not tie the versions of a document together.
use regnova.Prelude.{
  ◌≡◌, refl, ℕ, ◌<◌, Bool, true, false, List, [], ◌∷◌, filter, if◌then◌else◌, ◌==◌, sym, ap,
}
use mathlib.Core.Path.{subst}
use regnova.Prelude.Rows.{modify_first, Falling}
use regnova.Document.Model.{DocumentVersion}
use regnova.Document.Edit.{Keeps}

abbrev pub Same : List DocumentVersion → List DocumentVersion → Type 0
Same [] [] = Unit
Same (x ∷ xs) (y ∷ ys) = Keeps x y × Same xs ys
Same _ _ = ⊥

pub reflexive_Same : (xs : List DocumentVersion) → Same xs xs
reflexive_Same [] = tt
reflexive_Same (x ∷ xs) = ((refl, refl, refl, refl, refl, refl), reflexive_Same xs)

modify_step :
    (b : Bool) (x y : DocumentVersion) (xs ys : List DocumentVersion)
    → Keeps x y
    → Same xs ys
    → Same (x ∷ xs) (if b then y ∷ xs else x ∷ ys)
modify_step true x y xs ys h k = (h, reflexive_Same xs)
modify_step false x y xs ys h k = ((refl, refl, refl, refl, refl, refl), k)

pub modify_first-Same :
    (at : DocumentVersion → Bool) (change : DocumentVersion → DocumentVersion)
    (xs : List DocumentVersion)
    → ((x : DocumentVersion) → Keeps x (change x))
    → Same xs (modify_first at change xs)
unfolding modify_first
modify_first-Same at change [] h = tt
modify_first-Same at change (x ∷ xs) h =
    modify_step (at x) x (change x) xs (modify_first at change xs) (h x)
      (modify_first-Same at change xs h)

filter_step :
    (b c : Bool) (x y : DocumentVersion) (xs ys : List DocumentVersion)
    → c ≡ b
    → Keeps x y
    → Same xs ys
    → Same (if b then x ∷ xs else xs) (if c then y ∷ ys else ys)
filter_step true true x y xs ys e h k = (h, k)
filter_step false false x y xs ys e h k = k
filter_step true false x y xs ys e h k = cc
filter_step false true x y xs ys e h k = cc

pub filter-Same :
    (document_id : ℕ) (xs ys : List DocumentVersion)
    → Same xs ys
    → Same
        (filter (λ v. v.document_id == document_id) xs)
        (filter (λ v. v.document_id == document_id) ys)
filter-Same document_id [] [] h = tt
filter-Same document_id (x ∷ xs) (y ∷ ys) h =
    filter_step (x.document_id == document_id) (y.document_id == document_id) x y _ _
      (ap (λ i. i == document_id) h.0.1) h.0 (filter-Same document_id xs ys h.1)
filter-Same document_id [] (y ∷ ys) h = elim h [ ]
filter-Same document_id (x ∷ xs) [] h = elim h [ ]

pub Falling-Same :
    (n : ℕ) (xs ys : List DocumentVersion)
    → Same xs ys
    → Falling (λ v. v.id) n xs
    → Falling (λ v. v.id) n ys
Falling-Same n [] [] h k = tt
Falling-Same n (x ∷ xs) (y ∷ ys) h k = (
  subst (λ i. i < n) (sym h.0.0) k.0,
  subst (λ i. Falling (λ v. v.id) i ys) (sym h.0.0) (Falling-Same x.id xs ys h.1 k.1),
)
Falling-Same n [] (y ∷ ys) h k = elim h [ ]
Falling-Same n (x ∷ xs) [] h k = elim h [ ]

pub higher_Falling :
    {A : Type 0} (key : A → ℕ) (m n : ℕ) (xs : List A)
    → ((i : ℕ) → i < m → i < n)
    → Falling key m xs
    → Falling key n xs
higher_Falling key m n [] h k = tt
higher_Falling key m n (x ∷ xs) h k = (h (key x) k.0, k.1)
