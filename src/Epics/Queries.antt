-- ===== src/Epics/Queries.antt =====
-- The queries of internal/verb/close_conditions.go: a query without an answer, and an order without a row.
use mathlib.Core.List.{cons-ne-nil}
use selftracked.Common.{
  ◌≡◌, refl, sym, subst, ◌∙◌, Bool, true, false, List, [], ◌∷◌, ◌++◌, All, Bool-cases, inl, inr,
}
use selftracked.Epics.Blockers.{select, insert_by, sort_by}

module _ {A B : Type 0} where
  pub select-nil :
      (p : A → Bool) (f : A → B) (xs : List A) → select p f xs ≡ [] → All (λ x. p x ≡ false) xs
  unfolding select
  select-nil p f [] h = tt
  select-nil p f (x ∷ xs) h = elim (Bool-cases (p x)) [
    | inl e ↦ let k : f x ∷ select p f xs ≡ [] = sym (rw e refl) ∙ h in absurd (cons-ne-nil _ _ k)
    | inr e ↦ (e, select-nil p f xs (sym (rw e refl) ∙ h))
  ]

  -- What holds of the rows that were selected.
  pub select-All :
      (P : B → Type 0) (p : A → Bool) (f : A → B) (xs : List A)
      → All P (select p f xs)
      → All (λ x. p x ≡ true → P (f x)) xs
  unfolding select
  select-All P p f [] h = tt
  select-All P p f (x ∷ xs) h = elim (Bool-cases (p x)) [
    | inl e ↦
        let v : select p f (x ∷ xs) ≡ f x ∷ select p f xs = rw e refl in
        let k = subst (All P) v h in ((λ _. k.0), select-All P p f xs k.1)
    | inr e ↦
        let v : select p f (x ∷ xs) ≡ select p f xs = rw e refl in
        ((λ t. absurd (let w = sym t ∙ e in (cc))), select-All P p f xs (subst (All P) v h))
  ]

module _ {A : Type 0} (le : A → A → Bool) where
  insert_by-All :
      (P : A → Type 0) (x : A) (ys : List A) → All P (insert_by le x ys) → P x × All P ys
  unfolding insert_by
  insert_by-All P x [] h = h
  insert_by-All P x (y ∷ ys) h = elim (Bool-cases (le x y)) [
    | inl e ↦ let v : insert_by le x (y ∷ ys) ≡ x ∷ y ∷ ys = rw e refl in subst (All P) v h
    | inr e ↦
        let v : insert_by le x (y ∷ ys) ≡ y ∷ insert_by le x ys = rw e refl in
        let (py, k) = subst (All P) v h in let (px, m) = insert_by-All P x ys k in (px, (py, m))
  ]

  -- Sorting drops no row.
  pub sort_by-All : (P : A → Type 0) (xs : List A) → All P (sort_by le xs) → All P xs
  unfolding sort_by
  sort_by-All P [] h = tt
  sort_by-All P (x ∷ xs) h =
      let (px, m) = insert_by-All P x (sort_by le xs) h in (px, sort_by-All P xs m)

pub append_nil : {A : Type 0} (xs ys : List A) → xs ++ ys ≡ [] → (xs ≡ []) × (ys ≡ [])
append_nil [] ys h = (refl, h)
append_nil (x ∷ xs) ys h = absurd (cons-ne-nil _ _ h)
