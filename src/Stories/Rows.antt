-- ===== src/Stories/Rows.antt =====
-- The rows of table `stories`: what a lookup finds, and what a replaced row leaves alone.
use selftracked.Common.{
  ◌≡◌, refl, sym, subst, ◌∙◌, Bool, true, false, ◌||◌, List, [], ◌∷◌, ◌++◌, any, All, some, arith,
  Bool-cases, inl, inr, ◌⊎◌,
}
use selftracked.Common.Text.{Text, text_eq, text_beq_iff}
use selftracked.Store.{Story, find_story, replace_story, at_key}

-- Rows that stay, and the row that is replaced.
pub any-append :
    {A : Type 0} (p : A → Bool) (xs ys : List A) → any p (xs ++ ys) ≡ (any p xs || any p ys)
any-append p [] ys = refl
any-append p (x ∷ xs) ys = elim (Bool-cases (p x)) [
  | inl e ↦ rw e refl
  | inr e ↦ rw e (any-append p xs ys)
]

pub find_story-cons :
    (r : Story) (rows : List Story) (epic id : Text) (s : Story)
    → find_story (r ∷ rows) epic id ≡ some s
    → ((at_key epic id r ≡ true) × (r ≡ s))
      ⊎ ((at_key epic id r ≡ false) × (find_story rows epic id ≡ some s))
unfolding find_story
find_story-cons r rows epic id s h = elim (Bool-cases (at_key epic id r)) [
  | inl e ↦ let v : find_story (r ∷ rows) epic id ≡ some r = rw e refl in inl (e, (cc))
  | inr e ↦
      let v : find_story (r ∷ rows) epic id ≡ find_story rows epic id = rw e refl in
      inr (e, sym v ∙ h)
]

pub at_key-eq :
    (epic id : Text) (s : Story) → at_key epic id s ≡ true → (s.epic ≡ epic) × (s.id ≡ id)
at_key-eq epic id s h =
    ((text_beq_iff s.epic epic).0 (ground arith), (text_beq_iff s.id id).0 (ground arith))

pub find_story-key :
    (rows : List Story) (epic id : Text) (s : Story)
    → find_story rows epic id ≡ some s
    → (s.epic ≡ epic) × (s.id ≡ id)
unfolding find_story
find_story-key [] epic id s h = cc
find_story-key (r ∷ rows) epic id s h = elim (find_story-cons r rows epic id s h) [
  | inl (e, q) ↦ subst (λ z. (z.epic ≡ epic) × (z.id ≡ id)) q (at_key-eq epic id r e)
  | inr (e, q) ↦ find_story-key rows epic id s q
]

pub any-replaced :
    (p : Story → Bool) (rows : List Story) (epic id : Text) (f : Story → Story) (s : Story)
    → find_story rows epic id ≡ some s
    → p (f s) ≡ true
    → any p (replace_story rows epic id f) ≡ true
unfolding find_story replace_story
any-replaced p [] epic id f s h k = cc
any-replaced p (r ∷ rows) epic id f s h k = elim (find_story-cons r rows epic id s h) [
  | inl (e, q) ↦ let m : p (f r) ≡ true = rw q k in rw e (rw m refl)
  | inr (e, q) ↦ rw e (let ih = any-replaced p rows epic id f s q k in ground arith)
]

pub any-replace_story :
    (p : Story → Bool) (rows : List Story) (epic id : Text) (f : Story → Story) (s : Story)
    → find_story rows epic id ≡ some s
    → p s ≡ false
    → any p rows ≡ true
    → any p (replace_story rows epic id f) ≡ true
unfolding find_story replace_story
any-replace_story p [] epic id f s h k m = cc
any-replace_story p (r ∷ rows) epic id f s h k m = elim (find_story-cons r rows epic id s h) [
  | inl (e, q) ↦ let n : p r ≡ false = rw q k in rw e (ground arith)
  | inr (e, q) ↦ rw e (let ih = any-replace_story p rows epic id f s q k in ground arith)
]

pub All-map :
    {A : Type 0} (P Q : A → Type 0)
    → ((r : A) → P r → Q r)
    → (rows : List A) → All P rows
    → All Q rows
All-map P Q k [] m = tt
All-map P Q k (r ∷ rows) (x, m) = (k r x, All-map P Q k rows m)

pub All-replace_story :
    (P Q : Story → Type 0) (rows : List Story) (epic id : Text) (f : Story → Story) (s : Story)
    → find_story rows epic id ≡ some s
    → ((r : Story) → P r → Q r)
    → Q (f s)
    → All P rows
    → All Q (replace_story rows epic id f)
unfolding find_story replace_story
All-replace_story P Q [] epic id f s h k q m = tt
All-replace_story P Q (r ∷ rows) epic id f s h k q (x, m) =
    elim (find_story-cons r rows epic id s h) [
      | inl (e, v) ↦ rw e (subst (λ z. Q (f z)) (sym v) q, All-map P Q k rows m)
      | inr (e, v) ↦ rw e (k r x, All-replace_story P Q rows epic id f s v k q m)
    ]
