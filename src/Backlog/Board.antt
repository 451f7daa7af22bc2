-- ===== src/Backlog/Board.antt =====
-- The board of tasks: the status of each number, and the steps that it may take. The rows, the links and the prose of
-- internal/verb/tasks.go are forgotten.
use selftracked.Common.{
  ℕ, ◌≡◌, ◌≢◌, refl, sym, ap, subst, ◌∙◌, Bool, true, false, List, [], ◌∷◌, ◌++◌, All, Option, none,
  some, arith, nat_beq, nat_beq_iff, Bool-cases, inl, inr, ok,
}
use selftracked.Store.{
  TaskStatus, status_open, status_in_review, status_triage, status_label, Task, Store,
  legal_task_move, find_task, replace_task, update_task, update_task_status, insert_task,
}
use selftracked.Tasks.Rows.{find-replaced, find-replace_task}
use selftracked.Tasks.Updates.{update_task-cases, update_task_status-IsMove, insert_task-eq}

abbrev pub Board : Type 0
Board = ℕ → Option TaskStatus

abbrev pub status_of : Option Task → Option TaskStatus
status_of none = none
status_of (some t) = some t.status

abbrev pub board : List Task → Board
board ts n = status_of (find_task ts n)

-- The statuses that a task may begin with.
abbrev pub is_initial : TaskStatus → Bool
is_initial status_open = true
is_initial status_in_review = true
is_initial status_triage = true
is_initial status_label = true
is_initial _ = false

pub data BoardStep (b b' : Board) : Type 0 where
  rest : ((n : ℕ) → b' n ≡ b n) → BoardStep b b'
  move :
      (n : ℕ) (a a' : TaskStatus)
      → b n ≡ some a
      → legal_task_move a a' ≡ true
      → b' n ≡ some a'
      → ((k : ℕ) → k ≢ n → b' k ≡ b k)
      → BoardStep b b'
  begin :
      (n : ℕ) (a : TaskStatus)
      → b n ≡ none
      → is_initial a ≡ true
      → b' n ≡ some a
      → ((k : ℕ) → k ≢ n → b' k ≡ b k)
      → BoardStep b b'

module _ (rows : List Task) (id : ℕ) (f : Task → Task) (t : Task) (hit : find_task rows id ≡ some t)
    (same : (f t).id ≡ t.id) where
  pub board-other : (k : ℕ) → k ≢ id → board (replace_task rows id f) k ≡ board rows k
  board-other k ne = ap status_of (find-replace_task rows id k f t hit same ne)

  pub board-here : board (replace_task rows id f) id ≡ some (f t).status
  board-here = ap status_of (find-replaced rows id f t hit same)

  -- A row that keeps its status.
  board-kept : (f t).status ≡ t.status → (k : ℕ) → board (replace_task rows id f) k ≡ board rows k
  board-kept q k = elim (Bool-cases (nat_beq k id)) [
    | inl e ↦
        let i = (nat_beq_iff k id).0 e in
        subst (λ z. board (replace_task rows id f) z ≡ board rows z) (sym i)
          (board-here ∙ (ap some q ∙ sym (ap status_of hit)))
    | inr e ↦ board-other k (λ z. absurd (ground arith))
  ]

pub update_task-BoardStep :
    (db db' : Store) (id : ℕ) (f : Task → Task)
    → ((t : Task) → ((f t).id ≡ t.id) × ((f t).status ≡ t.status))
    → update_task db id f ≡ ok db'
    → BoardStep (board db.tasks) (board db'.tasks)
update_task-BoardStep db db' id f k e = elim (update_task-cases db id f db' e) [
  | inl (_, q) ↦ rest (λ n. ap (λ (z : Store). board z.tasks n) q)
  | inr (t, hit, u) ↦ rest (λ n.
      ap (λ (z : Store). board z.tasks n) u.replaced
      ∙ board-kept db.tasks id f t hit (k t).0 (k t).1 n)
]

pub update_task_status-BoardStep :
    (db db' : Store) (id : ℕ) (f : Task → Task) (t : Task)
    → find_task db.tasks id ≡ some t
    → (f t).id ≡ t.id
    → update_task_status db id f ≡ ok db'
    → BoardStep (board db.tasks) (board db'.tasks)
update_task_status-BoardStep db db' id f t hit same e =
    let u = update_task_status-IsMove db id f t db' hit e in
    let v = u.update.replaced in
    move id t.status (f t).status (ap status_of hit) u.legal
      (ap (λ (z : Store). board z.tasks id) v ∙ board-here db.tasks id f t hit same)
      (λ k ne. ap (λ (z : Store). board z.tasks k) v ∙ board-other db.tasks id f t hit same k ne)

find_task-none : (rows : List Task) (id : ℕ) → All (λ r. r.id ≢ id) rows → find_task rows id ≡ none
unfolding find_task
find_task-none [] id m = refl
find_task-none (r ∷ rows) id (x, m) =
    let v : nat_beq r.id id ≡ false = ground arith in rw v (find_task-none rows id m)

find_task-append :
    (rows : List Task) (t : Task) (k : ℕ)
    → k ≢ t.id
    → find_task (rows ++ (t ∷ [])) k ≡ find_task rows k
unfolding find_task
find_task-append [] t k ne = let v : nat_beq t.id k ≡ false = ground arith in rw v refl
find_task-append (r ∷ rows) t k ne = rw (find_task-append rows t k ne) refl

find_task-last :
    (rows : List Task) (t : Task)
    → find_task rows t.id ≡ none
    → find_task (rows ++ (t ∷ [])) t.id ≡ some t
unfolding find_task
find_task-last [] t h = let v : nat_beq t.id t.id ≡ true = ground arith in rw v refl
find_task-last (r ∷ rows) t h = elim (Bool-cases (nat_beq r.id t.id)) [
  | inl e ↦
      let v : find_task (r ∷ rows) t.id ≡ some r = rw e refl in absurd (let w = sym v ∙ h in (cc))
  | inr e ↦
      let v : find_task (r ∷ rows) t.id ≡ find_task rows t.id = rw e refl in
      rw e (find_task-last rows t (sym v ∙ h))
]

pub insert_task-BoardStep :
    (db db' : Store) (t : Task)
    → All (λ r. r.id ≢ t.id) db.tasks
    → is_initial t.status ≡ true
    → insert_task db t ≡ ok db'
    → BoardStep (board db.tasks) (board db'.tasks)
insert_task-BoardStep db db' t fresh i e =
    let (_, _, v) = insert_task-eq db t db' e in
    let free = find_task-none db.tasks t.id fresh in
    begin t.id t.status (ap status_of free) i
      (ap (λ (z : Store). board z.tasks t.id) v ∙ ap status_of (find_task-last db.tasks t free))
      (λ k ne.
        ap (λ (z : Store). board z.tasks k) v ∙ ap status_of (find_task-append db.tasks t k ne))
