-- ===== src/Document/Chain.antt =====
-- The versions of one document as app/modules/document_version/service.py links them: each is
-- superseded by the next newer one, the newest by none, and they are numbered from 1.
use mathlib.Core.Path.{subst}
use regnova.Prelude.{
  ◌≡◌, refl, sym, ap, ◌∙◌, ℕ, ◌+◌, Bool, true, false, Option, none, some, List, [], ◌∷◌, find,
  filter, length, arith, if◌then◌else◌, ◌==◌, ◌&&◌, not, is_some, Bool-cases, inl, inr,
}
use regnova.Prelude.Rows.{modify_first, Falling, Falling-find}
use regnova.Document.Model.{DocumentVersion, has_id}
use regnova.Document.Repository.{greater, greatest, or_zero, is_of, is_current_of}
use regnova.Document.Upload.{id_of, set_superseded_by}
use regnova.Document.Rows.{Same}

abbrev pub head : List DocumentVersion → Option DocumentVersion
head [] = none
head (v ∷ vs) = some v

-- The versions of one document, newest first, of which `above` supersedes the newest.
abbrev pub Chain : Option ℕ → List DocumentVersion → Type 0
Chain above [] = Unit
Chain above (v ∷ vs) =
    (v.superseded_by_id ≡ above)
    × (v.version_number ≡ length vs + 1)
    × (v.supersedes_id ≡ id_of (head vs))
    × Chain (some v.id) vs

length-Same : (xs ys : List DocumentVersion) → Same xs ys → length ys ≡ length xs
length-Same [] [] h = refl
length-Same (x ∷ xs) (y ∷ ys) h = omega (arith, length-Same xs ys h.1)
length-Same [] (y ∷ ys) h = elim h [ ]
length-Same (x ∷ xs) [] h = elim h [ ]

head-Same : (xs ys : List DocumentVersion) → Same xs ys → id_of (head ys) ≡ id_of (head xs)
head-Same [] [] h = refl
head-Same (x ∷ xs) (y ∷ ys) h = ap some h.0.0
head-Same [] (y ∷ ys) h = elim h [ ]
head-Same (x ∷ xs) [] h = elim h [ ]

pub Chain-Same :
    (above : Option ℕ) (xs ys : List DocumentVersion) → Same xs ys → Chain above xs → Chain above ys
Chain-Same above [] [] h k = tt
Chain-Same above (x ∷ xs) (y ∷ ys) h k = (
  h.0.5 ∙ k.0,
  h.0.2 ∙ k.1 ∙ ap (λ n. n + 1) (sym (length-Same xs ys h.1)),
  h.0.4 ∙ k.2 ∙ sym (head-Same xs ys h.1),
  subst (λ i. Chain (some i) ys) (sym h.0.0) (Chain-Same (some x.id) xs ys h.1 k.3),
)
Chain-Same above [] (y ∷ ys) h k = elim h [ ]
Chain-Same above (x ∷ xs) [] h k = elim h [ ]

abbrev number : DocumentVersion → ℕ
number v = v.version_number

greatest_step :
    (x : DocumentVersion) (n : ℕ) (o : Option DocumentVersion)
    → number x ≡ n + 1
    → or_zero number o ≡ n
    → number (greater number x o) ≡ n + 1
greatest_step x n none e h = e
greatest_step x n (some y) e h = ground (arith, e, h)

-- The greatest number is the number of the versions.
pub Chain-greatest :
    (above : Option ℕ) (xs : List DocumentVersion)
    → Chain above xs
    → or_zero (λ v. v.version_number) (greatest (λ v. v.version_number) xs) ≡ length xs
unfolding greatest
Chain-greatest above [] h = refl
Chain-greatest above (x ∷ xs) h =
    greatest_step x (length xs) (greatest number xs) h.1 (Chain-greatest (some x.id) xs h.3)
    ∙ omega arith

-- The current version is the newest one.
pub Chain-current :
    (document_id : ℕ) (vs : List DocumentVersion)
    → Chain none (filter (is_of document_id) vs)
    → find (is_current_of document_id) vs ≡ head (filter (is_of document_id) vs)
Chain-current document_id [] h = refl
Chain-current document_id (v ∷ vs) h =
    current_step (is_of document_id v) v vs (filter (is_of document_id) vs) _ h
      (Chain-current document_id vs)
  where
    current_step :
        (b : Bool) (v : DocumentVersion) (vs rest : List DocumentVersion)
        (o : Option DocumentVersion)
        → Chain none (if b then v ∷ rest else rest)
        → (Chain none rest → o ≡ head rest)
        → (if b && not (is_some v.superseded_by_id) then some v else o)
          ≡ head (if b then v ∷ rest else rest)
    current_step true v vs rest o h k = rw h.0
    current_step false v vs rest o h k = k h

current_first :
    (v current : DocumentVersion) (vs : List DocumentVersion) (document_id : ℕ)
    → (v.document_id == document_id) ≡ true
    → v.superseded_by_id ≡ none
    → find (is_current_of document_id) (v ∷ vs) ≡ some current
    → (v.id == current.id) ≡ true
current_first v current vs document_id p s e = ground (arith, p, s, e)

current_later :
    (v current : DocumentVersion) (vs : List DocumentVersion) (document_id : ℕ)
    → (v.document_id == document_id) ≡ false
    → find (is_current_of document_id) (v ∷ vs) ≡ some current
    → find (is_current_of document_id) vs ≡ some current
current_later v current vs document_id p e = ground (arith, p, e)

-- Superseding the current version.
pub Chain-superseded :
    (document_id n id : ℕ) (vs : List DocumentVersion) (current : DocumentVersion)
    → Falling (λ v. v.id) n vs
    → find (is_current_of document_id) vs ≡ some current
    → Chain none (filter (is_of document_id) vs)
    → Chain
        (some id)
        (filter (is_of document_id) (modify_first (has_id current.id) (set_superseded_by id) vs))
unfolding modify_first
Chain-superseded document_id n id [] current f e h = cc
Chain-superseded document_id n id (v ∷ vs) current f e h =
    let rest = filter (is_of document_id) vs in
    let changed = modify_first (has_id current.id) (set_superseded_by id) vs in
    let split : Bool → List DocumentVersion =
      λ b. if b then set_superseded_by id v ∷ vs else v ∷ changed in
    elim (Bool-cases (v.document_id == document_id)) [
      | inl p ↦
          let k = subst (λ b. Chain none (if b then v ∷ rest else rest)) p h in
          subst (λ b. Chain (some id) (filter (is_of document_id) (split b)))
            (sym (current_first v current vs document_id p k.0 e))
            (subst (λ b. Chain (some id) (if b then set_superseded_by id v ∷ rest else rest))
              (sym p) (refl, k.1, k.2, k.3))
      | inr p ↦
          let k = subst (λ b. Chain none (if b then v ∷ rest else rest)) p h in
          let d = current_later v current vs document_id p e in
          let l = Falling-find (λ x. x.id) v.id (is_current_of document_id) vs current f.1 d in
          let c : (v.id == current.id) ≡ false = ground (arith, l) in
          subst (λ b. Chain (some id) (filter (is_of document_id) (split b))) (sym c)
            (subst
              (λ b. Chain (some id) (
                if b
                then v ∷ filter (is_of document_id) changed
                else filter (is_of document_id) changed))
              (sym p) (Chain-superseded document_id v.id id vs current f.1 d k))
    ]
