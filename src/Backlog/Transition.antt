-- ===== src/Backlog/Transition.antt =====
-- `set-status` of internal/verb/tasks.go: the whole effect of a command that succeeded.
use selftracked.Common.{
  ℕ, ◌≡◌, ◌≢◌, refl, sym, ap, ◌∙◌, true, false, not, ◌&&◌, List, [], ◌∷◌, ◌++◌, Option, none, some,
  ◌==◌, ok, found, bind-eq-ok, or_err-eq-ok, guard-eq-ok, ok-injective,
}
use selftracked.Common.Int.{ℤ}
use selftracked.Common.Text.{Text, codes, text_eq}
use selftracked.Store.{
  Task, Event, Store, TaskStatus, status_open, rel_duplicates, constraint, use_reopen, not_found,
  is_terminal_task, legal_task_move, exit_noted, find_task, replace_task, update_task_status,
}
use selftracked.Stories.{validate_text, write}
use selftracked.Tasks.Lifecycle.{
  task_id, task_status_of, scan_task, duplicate_target, moved_task, link_duplicate,
  set_status_in_tx, set_status, task_event, unpark_events,
}
use selftracked.Tasks.Rows.{find-replaced, find-replace_task}
use selftracked.Tasks.Updates.{update_task_status-IsMove, insert_link-eq}
use selftracked.Backlog.Tables.{status_open-text}

-- The columns that a transition writes, and those that it leaves.
pub record IsMoved (old new : Task) (stamp : Text) (status : TaskStatus) (note : Text)
    : Type 0 where
  pub status_set : new.status ≡ status
  pub note_set : new.status_note ≡ note
  pub unparked : new.parked ≡ []
  pub stamped : new.updated_at ≡ stamp
  pub id_kept : new.id ≡ old.id
  pub title_kept : new.title ≡ old.title
  pub epic_kept : new.epic ≡ old.epic
  pub created_kept : new.created_at ≡ old.created_at

-- One row moved, over a legal transition and with its note; the others stay.
pub record IsTransition (db db' : Store) (stamp : Text) (id : ℕ) (target note : Text) : Type 0 where
  pub row : Task
  pub status : TaskStatus
  pub now : Task
  pub there : find_task db.tasks id ≡ some row
  pub spelt : task_status_of target ≡ some status
  pub legal : legal_task_move row.status status ≡ true
  pub kept_closed : is_terminal_task row.status ≡ true → status ≢ status_open
  pub noted : exit_noted row now ≡ true
  pub after : find_task db'.tasks id ≡ some now
  pub moved : IsMoved row now stamp status note
  pub others : (other : ℕ) → other ≢ id → find_task db'.tasks other ≡ find_task db.tasks other
  pub logged :
      db'.events
      ≡ db.events ++ (task_event id (codes "set-status") note ∷ unpark_events id row.parked)

link_duplicate-tables :
    (db db' : Store) (id : ℕ) (o : Option ℕ)
    → link_duplicate db id o ≡ ok db'
    → (db'.tasks ≡ db.tasks) × (db'.events ≡ db.events)
link_duplicate-tables db db' id none e =
    (ap Store.tasks (sym (ok-injective e)), ap Store.events (sym (ok-injective e)))
link_duplicate-tables db db' id (some d) e =
    let v =
      insert_link-eq db (record { from_task = id; to_task = d; type = rel_duplicates; note = [] })
        db' e in
    (ap Store.tasks v.2, ap Store.events v.2)

not_reopened :
    (a st : TaskStatus) (target : Text)
    → task_status_of target ≡ some st
    → not (is_terminal_task a && target == codes "OPEN") ≡ true
    → is_terminal_task a ≡ true
    → st ≢ status_open
not_reopened a st target spelt g t q =
    let v = status_open-text target (spelt ∙ ap some q) in
    let w : not (is_terminal_task a && target == codes "OPEN") ≡ false = rw (t, v) refl in
    absurd (let u = sym g ∙ w in (cc))

transition :
    (db db1 db2 db' : Store) (stamp : Text) (id : ℕ) (target note : Text) (st : TaskStatus)
    (o : Option ℕ) (t : Task)
    → find_task db.tasks id ≡ some t
    → task_status_of target ≡ some st
    → not (is_terminal_task t.status && target == codes "OPEN") ≡ true
    → update_task_status db id (moved_task stamp st note o) ≡ ok db1
    → link_duplicate db1 id o ≡ ok db2
    → db'.tasks ≡ db2.tasks
    → db'.events
      ≡ db2.events ++ (task_event id (codes "set-status") note ∷ unpark_events id t.parked)
    → IsTransition db db' stamp id target note
transition db db1 db2 db' stamp id target note st o t hit spelt g moved linked tasks events =
    let f = moved_task stamp st note o in
    let u = update_task_status-IsMove db id f t db1 hit moved in
    let (same, same') = link_duplicate-tables db1 db2 id o linked in
    let rows : db'.tasks ≡ replace_task db.tasks id f =
      tasks ∙ (same ∙ ap Store.tasks u.update.replaced) in
    let log : db2.events ≡ db.events = same' ∙ ap Store.events u.update.replaced in
    record {
      row = t;
      status = st;
      now = f t;
      there = hit;
      spelt = spelt;
      legal = u.legal;
      kept_closed = not_reopened t.status st target spelt g;
      noted = u.noted;
      after = rw rows (find-replaced db.tasks id f t hit refl);
      moved = record {
        status_set = refl;
        note_set = refl;
        unparked = refl;
        stamped = refl;
        id_kept = refl;
        title_kept = refl;
        epic_kept = refl;
        created_kept = refl;
      };
      others = λ other ne. rw rows (find-replace_task db.tasks id other f t hit refl ne);
      logged =
          events
          ∙ ap (λ es. es ++ (task_event id (codes "set-status") note ∷ unpark_events id t.parked))
              log;
    }

-- A set-status that succeeds moves one task, to the status that was asked for, along a transition
-- that the schema allows, never from a terminal status to OPEN, with a note where IN-REVIEW is
-- left; it clears parked, leaves every other task as it was, and appends its event, with one for
-- the cleared deferral if there was one.
pub set_status-IsTransition :
    (stamp token target note : Text) (dup_of : ℤ) (db db' : Store)
    → set_status stamp token target note dup_of db ≡ ok db'
    → (id : ℕ) × (task_id token ≡ ok id) × IsTransition db db' stamp id target note
unfolding set_status set_status_in_tx scan_task write
set_status-IsTransition stamp token target note z db db' e =
    elim (bind-eq-ok (task_id token) _ db' e) [
      | found id i e1 ↦ elim (bind-eq-ok (validate_text note) _ db' e1) [
        | found _ _ e2 ↦ elim (bind-eq-ok (set_status_in_tx stamp id target note z db) _ db' e2) [
          | found (db3, evs) p q ↦ (id, i, in_tx id db3 evs p (ok-injective q))
        ]
      ]
    ]
  where
    in_tx :
        (id : ℕ) (db3 : Store) (evs : List Event)
        → set_status_in_tx stamp id target note z db ≡ ok (db3, evs)
        → record db3 { events = db3.events ++ evs } ≡ db'
        → IsTransition db db' stamp id target note
    in_tx id db3 evs e w = elim (or_err-eq-ok (find_task db.tasks id) not_found _ (db3, evs) e) [
      | found t hit e1 ↦
          elim (guard-eq-ok (not (is_terminal_task t.status && target == codes "OPEN")) use_reopen _
            (db3, evs) e1) [
              | found _ g e2 ↦ elim (bind-eq-ok (duplicate_target db id target z) _ (db3, evs) e2) [
                | found o p e3 ↦
                    elim (or_err-eq-ok (task_status_of target) constraint _ (db3, evs) e3) [
                      | found st spelt e4 ↦
                          elim (bind-eq-ok (update_task_status db id (moved_task stamp st note o)) _
                            (db3, evs) e4) [
                              | found db1 moved e5 ↦
                                  elim (bind-eq-ok (link_duplicate db1 id o) _ (db3, evs) e5) [
                                    | found db2 linked e6 ↦
                                        let same =
                                          ap
                                            (λ (x : Store × List Event). record x.0 {
                                              events = x.0.events ++ x.1;
                                            })
                                            (ok-injective e6)
                                          ∙ w in
                                        transition db db1 db2 db' stamp id target note st o t hit
                                          spelt g moved linked (ap Store.tasks (sym same))
                                          (ap Store.events (sym same))
                                  ]
                            ]
                    ]
              ]
            ]
    ]
