-- ===== src/Tasks/Updates.antt =====
-- What an update or an insert of internal/schema/ddl.sql on `tasks` and `task_links` has done when it succeeded.
use selftracked.Common.{
  ℕ, ◌≡◌, ◌⊎◌, refl, sym, ◌∙◌, true, false, not, ◌&&◌, arith, [], ◌∷◌, ◌++◌, any, none, some,
  is_some, nat_beq, Result, ok, ◌>>◌, guard, found, guard-eq-ok, ok-injective, Option-cases, inl,
  inr,
}
use selftracked.Store.{
  Task, Link, Store, Refusal, constraint, legal_task_move, exit_noted, find_task, replace_task,
  task_checks, task_keys, update_task, update_task_status, insert_task, insert_link, is_link,
}

pub record IsUpdate (db : Store) (id : ℕ) (f : Task → Task) (t : Task) (db' : Store) : Type 0 where
  pub checked : task_checks (f t) ≡ true
  pub keyed : task_keys db (f t) ≡ true
  pub replaced : db' ≡ record db { tasks = replace_task db.tasks id f }

pub update_task-IsUpdate :
    (db : Store) (id : ℕ) (f : Task → Task) (t : Task) (db' : Store)
    → find_task db.tasks id ≡ some t
    → update_task db id f ≡ ok db'
    → IsUpdate db id f t db'
unfolding update_task
update_task-IsUpdate db id f t db' hit e =
    let body : Result Refusal Store = (do
      guard (task_checks (f t)) constraint
      guard (task_keys db (f t)) constraint
      ok (record db { tasks = replace_task db.tasks id f })) in
    let opened : update_task db id f ≡ body = rw (hit, update_task) refl in
    elim (guard-eq-ok (task_checks (f t)) constraint _ db' (sym opened ∙ e)) [
      | found _ p e1 ↦ elim (guard-eq-ok (task_keys db (f t)) constraint _ db' e1) [
        | found _ q e2 ↦ record { checked = p; keyed = q; replaced = sym (ok-injective e2) }
      ]
    ]

-- A row with the number, or none and nothing done.
pub update_task-cases :
    (db : Store) (id : ℕ) (f : Task → Task) (db' : Store)
    → update_task db id f ≡ ok db'
    → ((find_task db.tasks id ≡ none) × (db' ≡ db))
      ⊎ ((t : Task) × (find_task db.tasks id ≡ some t) × IsUpdate db id f t db')
update_task-cases db id f db' e = elim (Option-cases (find_task db.tasks id)) [
  | inl n ↦
      let v : update_task db id f ≡ ok db = unfold update_task in rw (n, update_task) refl in
      inl (n, sym (ok-injective (sym v ∙ e)))
  | inr (t, hit) ↦ inr (t, hit, update_task-IsUpdate db id f t db' hit e)
]

pub record IsMove (db : Store) (id : ℕ) (f : Task → Task) (t : Task) (db' : Store) : Type 0 where
  pub legal : legal_task_move t.status (f t).status ≡ true
  pub noted : exit_noted t (f t) ≡ true
  pub update : IsUpdate db id f t db'

pub update_task_status-IsMove :
    (db : Store) (id : ℕ) (f : Task → Task) (t : Task) (db' : Store)
    → find_task db.tasks id ≡ some t
    → update_task_status db id f ≡ ok db'
    → IsMove db id f t db'
unfolding update_task_status
update_task_status-IsMove db id f t db' hit e =
    let body : Result Refusal Store = (do
      guard (legal_task_move t.status (f t).status) constraint
      guard (exit_noted t (f t)) constraint
      update_task db id f) in
    let opened : update_task_status db id f ≡ body = rw (hit, update_task_status) refl in
    elim (guard-eq-ok (legal_task_move t.status (f t).status) constraint _ db' (sym opened ∙ e)) [
      | found _ p e1 ↦ elim (guard-eq-ok (exit_noted t (f t)) constraint _ db' e1) [
        | found _ q e2 ↦ record {
          legal = p;
          noted = q;
          update = update_task-IsUpdate db id f t db' hit e2;
        }
      ]
    ]

pub insert_task-eq :
    (db : Store) (t : Task) (db' : Store)
    → insert_task db t ≡ ok db'
    → (task_checks t ≡ true)
      × (task_keys db t ≡ true)
      × (db' ≡ record db { tasks = db.tasks ++ (t ∷ []); tasks_high = t.id })
unfolding insert_task
insert_task-eq db t db' e = elim (guard-eq-ok (task_checks t) constraint _ db' e) [
  | found _ p e1 ↦ elim (guard-eq-ok (task_keys db t) constraint _ db' e1) [
    | found _ q e2 ↦ (p, q, sym (ok-injective e2))
  ]
]

pub insert_link-eq :
    (db : Store) (l : Link) (db' : Store)
    → insert_link db l ≡ ok db'
    → (is_some (find_task db.tasks l.from_task) && is_some (find_task db.tasks l.to_task) ≡ true)
      × (nat_beq l.from_task l.to_task ≡ false)
      × (db' ≡ record db { links = db.links ++ (l ∷ []) })
unfolding insert_link
insert_link-eq db l db' e =
    elim (guard-eq-ok
      (is_some (find_task db.tasks l.from_task) && is_some (find_task db.tasks l.to_task))
      constraint _ db' e) [
        | found _ p e1 ↦
            elim (guard-eq-ok (not (nat_beq l.from_task l.to_task)) constraint _ db' e1) [
              | found _ q e2 ↦
                  elim (guard-eq-ok (not (any (is_link l.from_task l.to_task l.type) db.links))
                    constraint _ db' e2) [
                      | found _ _ e3 ↦ (p, (ground arith), sym (ok-injective e3))
                    ]
            ]
      ]
