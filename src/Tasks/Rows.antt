-- ===== src/Tasks/Rows.antt =====
-- The rows of table `tasks`: what a lookup finds, and what a replaced row leaves alone.
use selftracked.Common.{
  ℕ, ◌≡◌, ◌≢◌, refl, sym, subst, ◌∙◌, Bool, true, false, List, [], ◌∷◌, any, All, some, arith,
  nat_beq, nat_beq_iff, Bool-cases, inl, inr, ◌⊎◌,
}
use selftracked.Store.{Task, find_task, replace_task}
use selftracked.Stories.Rows.{All-map}

-- The primary key: no two rows have one number.
abbrev pub Keyed : List Task → Type 0
Keyed [] = Unit
Keyed (t ∷ ts) = All (λ u. u.id ≢ t.id) ts × Keyed ts

pub find_task-cons :
    (r : Task) (rows : List Task) (id : ℕ) (t : Task)
    → find_task (r ∷ rows) id ≡ some t
    → ((nat_beq r.id id ≡ true) × (r ≡ t))
      ⊎ ((nat_beq r.id id ≡ false) × (find_task rows id ≡ some t))
unfolding find_task
find_task-cons r rows id t h = elim (Bool-cases (nat_beq r.id id)) [
  | inl e ↦ let v : find_task (r ∷ rows) id ≡ some r = rw e refl in inl (e, (cc))
  | inr e ↦ let v : find_task (r ∷ rows) id ≡ find_task rows id = rw e refl in inr (e, sym v ∙ h)
]

pub find_task-id : (rows : List Task) (id : ℕ) (t : Task) → find_task rows id ≡ some t → t.id ≡ id
unfolding find_task
find_task-id [] id t h = cc
find_task-id (r ∷ rows) id t h = elim (find_task-cons r rows id t h) [
  | inl (e, q) ↦ subst (λ z. z.id ≡ id) q ((nat_beq_iff r.id id).0 e)
  | inr (e, q) ↦ find_task-id rows id t q
]

pub All-find_task :
    (P : Task → Type 0) (rows : List Task) (id : ℕ) (t : Task)
    → find_task rows id ≡ some t
    → All P rows
    → P t
unfolding find_task
All-find_task P [] id t h m = cc
All-find_task P (r ∷ rows) id t h (x, m) = elim (find_task-cons r rows id t h) [
  | inl (e, q) ↦ subst P q x
  | inr (e, q) ↦ All-find_task P rows id t q m
]

pub All-replace_task :
    (P Q : Task → Type 0) (rows : List Task) (id : ℕ) (f : Task → Task) (t : Task)
    → find_task rows id ≡ some t
    → ((r : Task) → P r → Q r)
    → Q (f t)
    → All P rows
    → All Q (replace_task rows id f)
unfolding find_task replace_task
All-replace_task P Q [] id f t h k q m = tt
All-replace_task P Q (r ∷ rows) id f t h k q (x, m) = elim (find_task-cons r rows id t h) [
  | inl (e, v) ↦ rw e (subst (λ z. Q (f z)) (sym v) q, All-map P Q k rows m)
  | inr (e, v) ↦ rw e (k r x, All-replace_task P Q rows id f t v k q m)
]

-- The row with the number, once replaced.
pub find-replaced :
    (rows : List Task) (id : ℕ) (f : Task → Task) (t : Task)
    → find_task rows id ≡ some t
    → (f t).id ≡ t.id
    → find_task (replace_task rows id f) id ≡ some (f t)
unfolding find_task replace_task
find-replaced [] id f t h k = cc
find-replaced (r ∷ rows) id f t h k = elim (find_task-cons r rows id t h) [
  | inl (e, q) ↦
      let m : nat_beq (f r).id id ≡ true =
        (nat_beq_iff (f r).id id).1
          (subst (λ z. (f z).id ≡ z.id) (sym q) k ∙ (nat_beq_iff r.id id).0 e) in
      rw e (rw m (rw q refl))
  | inr (e, q) ↦ rw e (rw e (find-replaced rows id f t q k))
]

-- The rows with other numbers stay.
pub find-replace_task :
    (rows : List Task) (id other : ℕ) (f : Task → Task) (t : Task)
    → find_task rows id ≡ some t
    → (f t).id ≡ t.id
    → other ≢ id
    → find_task (replace_task rows id f) other ≡ find_task rows other
unfolding find_task replace_task
find-replace_task [] id other f t h k ne = cc
find-replace_task (r ∷ rows) id other f t h k ne = elim (find_task-cons r rows id t h) [
  | inl (e, q) ↦
      let w : (f r).id ≡ r.id = subst (λ z. (f z).id ≡ z.id) (sym q) k in
      let a : nat_beq r.id other ≡ false = ground arith in
      let b : nat_beq (f r).id other ≡ false = rw w a in rw e (rw (a, b) refl)
  | inr (e, q) ↦ rw e (rw (find-replace_task rows id other f t q k ne) refl)
]

pub Keyed-replace_task :
    (rows : List Task) (id : ℕ) (f : Task → Task) (t : Task)
    → find_task rows id ≡ some t
    → (f t).id ≡ t.id
    → Keyed rows
    → Keyed (replace_task rows id f)
unfolding find_task replace_task
Keyed-replace_task [] id f t h k m = cc
Keyed-replace_task (r ∷ rows) id f t h k (x, m) = elim (find_task-cons r rows id t h) [
  | inl (e, q) ↦
      let w : (f r).id ≡ r.id = subst (λ z. (f z).id ≡ z.id) (sym q) k in
      rw e (subst (λ n. All (λ u. u.id ≢ n) rows) (sym w) x, m)
  | inr (e, q) ↦
      let i : t.id ≡ id = find_task-id rows id t q in
      let ne : (f t).id ≢ r.id = λ z. absurd (ground arith) in
      rw e (
        All-replace_task (λ u. u.id ≢ r.id) (λ u. u.id ≢ r.id) rows id f t q (λ _ p. p) ne x,
        Keyed-replace_task rows id f t q k m,
      )
]

-- A test that fails for the rows, and for the new one, fails for the replaced rows.
pub any-replace_task-false :
    (p : Task → Bool) (rows : List Task) (id : ℕ) (f : Task → Task) (t : Task)
    → find_task rows id ≡ some t
    → p (f t) ≡ false
    → any p rows ≡ false
    → any p (replace_task rows id f) ≡ false
unfolding find_task replace_task
any-replace_task-false p [] id f t h k m = cc
any-replace_task-false p (r ∷ rows) id f t h k m = elim (find_task-cons r rows id t h) [
  | inl (e, q) ↦ let n : p (f r) ≡ false = rw q k in rw e (ground arith)
  | inr (e, q) ↦ rw e (let ih = any-replace_task-false p rows id f t q k in ground arith)
]

-- A test that succeeds for a row other than the replaced one.
pub any-replace_task :
    (p : Task → Bool) (rows : List Task) (id : ℕ) (f : Task → Task) (t : Task)
    → find_task rows id ≡ some t
    → (p t ≡ true → p (f t) ≡ true)
    → any p rows ≡ true
    → any p (replace_task rows id f) ≡ true
unfolding find_task replace_task
any-replace_task p [] id f t h k m = cc
any-replace_task p (r ∷ rows) id f t h k m = elim (find_task-cons r rows id t h) [
  | inl (e, q) ↦ let n : p r ≡ true → p (f r) ≡ true = rw q k in rw e (ground arith)
  | inr (e, q) ↦ rw e (let ih = any-replace_task p rows id f t q k in ground arith)
]

pub any-find_task :
    (p : Task → Bool) (rows : List Task) (id : ℕ) (t : Task)
    → find_task rows id ≡ some t
    → p t ≡ true
    → any p rows ≡ true
unfolding find_task
any-find_task p [] id t h k = cc
any-find_task p (r ∷ rows) id t h k = elim (find_task-cons r rows id t h) [
  | inl (e, q) ↦ let n : p r ≡ true = rw q k in ground arith
  | inr (e, q) ↦ let ih = any-find_task p rows id t q k in ground arith
]

pub All-both :
    {A : Type 0} (P Q R : A → Type 0)
    → ((r : A) → P r → Q r → R r)
    → (rows : List A) → All P rows
    → All Q rows
    → All R rows
All-both P Q R k [] m n = tt
All-both P Q R k (r ∷ rows) (x, m) (y, n) = (k r x y, All-both P Q R k rows m n)

-- The same over rows with a key: only the rows with other numbers stay.
pub All-replace_other :
    (P Q : Task → Type 0) (rows : List Task) (id : ℕ) (f : Task → Task) (t : Task)
    → find_task rows id ≡ some t
    → ((r : Task) → r.id ≢ id → P r → Q r)
    → Q (f t)
    → Keyed rows
    → All P rows
    → All Q (replace_task rows id f)
unfolding find_task replace_task
All-replace_other P Q [] id f t h k q n m = tt
All-replace_other P Q (r ∷ rows) id f t h k q (y, n) (x, m) = elim (find_task-cons r rows id t h) [
  | inl (e, v) ↦
      let i : r.id ≡ id = (nat_beq_iff r.id id).0 e in
      let others : All (λ u. u.id ≢ id) rows = subst (λ z. All (λ u. u.id ≢ z) rows) i y in
      rw e (subst (λ z. Q (f z)) (sym v) q, All-both (λ u. u.id ≢ id) P Q k rows others m)
  | inr (e, v) ↦
      let ne : r.id ≢ id = λ z. absurd (ground arith) in
      rw e (k r ne x, All-replace_other P Q rows id f t v k q n m)
]

pub any-All :
    {A : Type 0} (p : A → Bool) (rows : List A) → All (λ r. p r ≡ false) rows → any p rows ≡ false
any-All p [] m = refl
any-All p (r ∷ rows) (x, m) = rw x (any-All p rows m)

-- A number is that of one row.
pub any-Keyed :
    (p : Task → Bool) (rows : List Task) (id : ℕ) (t : Task)
    → find_task rows id ≡ some t
    → Keyed rows
    → ((r : Task) → r.id ≢ id → p r ≡ false)
    → p t ≡ false
    → any p rows ≡ false
unfolding find_task
any-Keyed p [] id t h n k m = cc
any-Keyed p (r ∷ rows) id t h (y, n) k m = elim (find_task-cons r rows id t h) [
  | inl (e, q) ↦
      let i : r.id ≡ id = (nat_beq_iff r.id id).0 e in
      let v : p r ≡ false = rw q m in
      rw v (
        any-All p rows
          (All-map (λ u. u.id ≢ r.id) (λ u. p u ≡ false) (λ u w. k u (λ z. w (z ∙ sym i))) rows y))
  | inr (e, q) ↦
      let ne : r.id ≢ id = λ z. absurd (ground arith) in rw (k r ne) (any-Keyed p rows id t q n k m)
]
