-- ===== src/Backlog/Refines.antt =====
-- The commands of internal/verb/tasks.go and internal/verb/relations.go as steps of the board of tasks.
use selftracked.Common.{
  ℕ, ◌≡◌, refl, sym, ap, subst, ◌∙◌, Bool, true, false, not, ◌&&◌, List, [], ◌∷◌, ◌++◌, any, none,
  some, ◌==◌, if◌then◌else◌, Result, ok, err, found, bind-eq-ok, or_err-eq-ok, guard-eq-ok,
  ok-injective,
}
use selftracked.Common.Text.{Text, codes, text_eq}
use selftracked.Ref.{Ref, task, epic, story, artifact}
use selftracked.Store.{
  Task, Event, Link, LinkType, Store, TaskStatus, status_open, status_in_review, status_triage,
  status_done, status_wont_do, status_duplicate, status_label, Refusal, usage, not_found, no_change,
  bad_status, find_task, find_epic, update_task, update_task_status, update_epic, insert_task,
  insert_link, next_task, is_link,
}
use selftracked.Stories.{validate_texts, write, refuse_terminal_epic}
use selftracked.Tasks.Lifecycle.{
  initial_status, create_target, home_of, create_in_tx, moved_task, leave_terminal,
  refuse_terminal_home, reopen_in_tx, park_in_tx, scan_task,
}
use selftracked.Tasks.Edit.{
  EditFields, run_edit, validate_edit, edit_set, apply_all, is_nil, refuse_home, edit_task,
  edit_epic_goal, put_fields, story_fields, edit_story_fields,
}
use selftracked.Tasks.Updates.{insert_link-eq}
use selftracked.Relations.{rel_add_checks, rel_add_in_tx, rel_rm_in_tx}
use selftracked.Backlog.Sound.{next_task-fresh}
use selftracked.Backlog.Edits.{apply_all-Quiet, edit_set-IsQuiet, update_epic-tasks}
use selftracked.Backlog.Board.{
  board, is_initial, BoardStep, rest, update_task-BoardStep, update_task_status-BoardStep,
  insert_task-BoardStep,
}

abbrev pub Steps : Store → Store → Type 0
Steps db db' = BoardStep (board db.tasks) (board db'.tasks)

idle : (db db' : Store) → db'.tasks ≡ db.tasks → Steps db db'
idle db db' e = rest (λ n. ap (λ z. board z n) e)

pub write-Steps :
    (db db' : Store) (mutate : Store → Result Refusal (Store × List Event))
    → ((db1 : Store) (evs : List Event) → mutate db ≡ ok (db1, evs) → Steps db db1)
    → write db mutate ≡ ok db'
    → Steps db db'
unfolding write
write-Steps db db' mutate h e = elim (bind-eq-ok (mutate db) _ db' e) [
  | found (db1, evs) p e1 ↦
      let q : record db1 { events = db1.events ++ evs } ≡ db' = ok-injective e1 in
      subst (Steps db) q (h db1 evs p)
]

-- The statuses that `createTarget` picks from.
one_of :
    (a b c d e : Bool) (target : TaskStatus)
    → (if a
        then ok status_label
        else if b
        then ok status_triage
        else if c
        then ok status_open
        else if d
        then ok status_in_review
        else if e
        then ok status_triage
        else err bad_status)
      ≡ ok target
    → is_initial target ≡ true
one_of true b c d e target h = subst (λ z. is_initial z ≡ true) (ok-injective h) refl
one_of false true c d e target h = subst (λ z. is_initial z ≡ true) (ok-injective h) refl
one_of false false true d e target h = subst (λ z. is_initial z ≡ true) (ok-injective h) refl
one_of false false false true e target h = subst (λ z. is_initial z ≡ true) (ok-injective h) refl
one_of false false false false true target h =
    subst (λ z. is_initial z ≡ true) (ok-injective h) refl
one_of false false false false false target h = cc

pub create_target-initial :
    (title note slug status : Text) (label : Bool) (target : TaskStatus)
    → create_target title note slug status label ≡ ok target
    → is_initial target ≡ true
unfolding create_target initial_status
create_target-initial title note slug status label target e =
    elim (bind-eq-ok (validate_texts (title ∷ note ∷ slug ∷ [])) _ target e) [
      | found _ _ e1 ↦ elim (guard-eq-ok (not (title == [])) usage _ target e1) [
        | found _ _ e2 ↦ elim (guard-eq-ok (not (label && not (status == []))) usage _ target e2) [
          | found _ _ e3 ↦
              one_of label (status == []) (status == codes "OPEN") (status == codes "IN-REVIEW")
                (status == codes "NEEDS-TRIAGE") target e3
        ]
      ]
    ]

pub create-Steps :
    (stamp title : Text) (target : TaskStatus) (note slug : Text) (db db' : Store)
    (evs : List Event)
    → is_initial target ≡ true
    → create_in_tx stamp title target note slug db ≡ ok (db', evs)
    → Steps db db'
unfolding create_in_tx
create-Steps stamp title target note slug db db' evs i e =
    elim (bind-eq-ok (home_of db slug) _ (db', evs) e) [
      | found home p e1 ↦
          let row : Task = record {
            id = next_task db;
            title = title;
            status = target;
            status_note = note;
            parked = [];
            dup_of = none;
            epic = home;
            created_at = stamp;
            updated_at = stamp;
          } in
          elim (bind-eq-ok (insert_task db row) _ (db', evs) e1) [
            | found db1 q e2 ↦
                subst (Steps db) (ap (λ (x : Store × List Event). x.0) (ok-injective e2))
                  (insert_task-BoardStep db db1 row (next_task-fresh db) i q)
          ]
    ]

leave_terminal-tasks :
    (db db' : Store) (id : ℕ) (st : TaskStatus)
    → leave_terminal db id st ≡ ok db'
    → db'.tasks ≡ db.tasks
leave_terminal-tasks db db' id status_done e = ap Store.tasks (sym (ok-injective e))
leave_terminal-tasks db db' id status_wont_do e = ap Store.tasks (sym (ok-injective e))
leave_terminal-tasks db db' id status_duplicate e = ap Store.tasks (sym (ok-injective e))
leave_terminal-tasks db db' id status_open e = cc
leave_terminal-tasks db db' id status_in_review e = cc
leave_terminal-tasks db db' id status_triage e = cc
leave_terminal-tasks db db' id status_label e = cc

pub reopen-Steps :
    (stamp : Text) (id : ℕ) (why : Text) (db db' : Store) (evs : List Event)
    → reopen_in_tx stamp id why db ≡ ok (db', evs)
    → Steps db db'
unfolding reopen_in_tx scan_task
reopen-Steps stamp id why db db' evs e =
    let f = moved_task stamp status_open why none in
    elim (or_err-eq-ok (find_task db.tasks id) not_found _ (db', evs) e) [
      | found t hit e1 ↦ elim (bind-eq-ok (refuse_terminal_home db t.epic) _ (db', evs) e1) [
        | found _ _ e2 ↦ elim (bind-eq-ok (leave_terminal db id t.status) _ (db', evs) e2) [
          | found db1 left e3 ↦ elim (bind-eq-ok (update_task_status db1 id f) _ (db', evs) e3) [
            | found db2 moved e4 ↦
                let w : db2 ≡ db' = ap (λ (x : Store × List Event). x.0) (ok-injective e4) in
                let kept = leave_terminal-tasks db db1 id t.status left in
                subst (Steps db) w (
                  subst (λ z. BoardStep (board z) (board db2.tasks)) kept
                    (update_task_status-BoardStep db1 db2 id f t
                      (subst (λ z. find_task z id ≡ some t) (sym kept) hit) refl moved))
          ]
        ]
      ]
    ]

pub park-Steps :
    (stamp : Text) (id : ℕ) (why event : Text) (db db' : Store) (evs : List Event)
    → park_in_tx stamp id why event db ≡ ok (db', evs)
    → Steps db db'
unfolding park_in_tx
park-Steps stamp id why event db db' evs e =
    let f : Task → Task = λ t. record t { parked = why; updated_at = stamp } in
    elim (bind-eq-ok (update_task db id f) _ (db', evs) e) [
      | found db1 p e1 ↦
          subst (Steps db) (ap (λ (x : Store × List Event). x.0) (ok-injective e1))
            (update_task-BoardStep db db1 id f (λ t. (refl, refl)) p)
    ]

edit_task-Steps :
    (stamp : Text) (id : ℕ) (title note slug : Text) (detach : Bool) (db db' : Store)
    (evs : List Event)
    → edit_task stamp id title note slug detach db ≡ ok (db', evs)
    → Steps db db'
unfolding edit_task scan_task
edit_task-Steps stamp id title note slug detach db db' evs e =
    elim (or_err-eq-ok (find_task db.tasks id) not_found _ (db', evs) e) [
      | found cur _ e1 ↦ elim (bind-eq-ok (refuse_home db slug) _ (db', evs) e1) [
        | found _ _ e2 ↦
            let edits = edit_set cur title note slug detach in
            let f : Task → Task = λ t. record (apply_all edits t) { updated_at = stamp } in
            elim (guard-eq-ok (not (is_nil edits)) no_change _ (db', evs) e2) [
              | found _ _ e3 ↦ elim (bind-eq-ok (update_task db id f) _ (db', evs) e3) [
                | found db1 p e4 ↦
                    subst (Steps db) (ap (λ (x : Store × List Event). x.0) (ok-injective e4)) (
                      update_task-BoardStep db db1 id f
                        (λ t.
                          let q =
                            apply_all-Quiet edits t (edit_set-IsQuiet cur title note slug detach) in
                          (q.id_kept, q.status_kept))
                        p)
              ]
            ]
      ]
    ]

edit_story-Steps :
    (slug sid dod consumes produces : Text) (db db' : Store) (evs : List Event)
    → edit_story_fields slug sid dod consumes produces db ≡ ok (db', evs)
    → Steps db db'
unfolding edit_story_fields
edit_story-Steps slug sid dod consumes produces db db' evs e =
    elim (bind-eq-ok (refuse_terminal_epic db slug) _ (db', evs) e) [
      | found _ _ e1 ↦
          elim (bind-eq-ok (put_fields slug sid (story_fields dod consumes produces) db.stories) _
            (db', evs) e1) [
              | found (rows, changes) _ e2 ↦
                  idle db db' (sym (ap (λ (x : Store × List Event). x.0.tasks) (ok-injective e2)))
            ]
    ]

edit_goal-Steps :
    (slug goal : Text) (db db' : Store) (evs : List Event)
    → edit_epic_goal slug goal db ≡ ok (db', evs)
    → Steps db db'
unfolding edit_epic_goal
edit_goal-Steps slug goal db db' evs e =
    elim (bind-eq-ok (refuse_terminal_epic db slug) _ (db', evs) e) [
      | found _ _ e1 ↦ elim (or_err-eq-ok (find_epic db.epics slug) not_found _ (db', evs) e1) [
        | found r _ e2 ↦
            elim (bind-eq-ok (update_epic db slug (λ r. record r { goal = goal })) _ (db', evs)
              e2) [
                | found db1 p e3 ↦ idle db db' (
                    sym (ap (λ (x : Store × List Event). x.0.tasks) (ok-injective e3))
                    ∙ (update_epic-tasks db db1 slug _ p).0)
              ]
      ]
    ]

pub rel_add-Steps :
    (from : ℕ) (type : LinkType) (to : ℕ) (note : Text) (db db' : Store) (evs : List Event)
    → rel_add_in_tx from type to note db ≡ ok (db', evs)
    → Steps db db'
unfolding rel_add_in_tx
rel_add-Steps from type to note db db' evs e =
    let l : Link = record { from_task = from; to_task = to; type = type; note = note } in
    elim (bind-eq-ok (rel_add_checks db from type to) _ (db', evs) e) [
      | found _ _ e1 ↦ elim (bind-eq-ok (insert_link db l) _ (db', evs) e1) [
        | found db1 p e2 ↦ idle db db' (
            sym (ap (λ (x : Store × List Event). x.0.tasks) (ok-injective e2))
            ∙ ap Store.tasks (insert_link-eq db l db1 p).2)
      ]
    ]

pub rel_rm-Steps :
    (from : ℕ) (type : LinkType) (to : ℕ) (db db' : Store) (evs : List Event)
    → rel_rm_in_tx from type to db ≡ ok (db', evs)
    → Steps db db'
unfolding rel_rm_in_tx
rel_rm-Steps from type to db db' evs e =
    elim (guard-eq-ok (any (is_link from to type) db.links) not_found _ (db', evs) e) [
      | found _ _ e1 ↦
          idle db db' (sym (ap (λ (x : Store × List Event). x.0.tasks) (ok-injective e1)))
    ]

pub edit-Steps :
    (stamp : Text) (r : Ref) (f : EditFields) (db db' : Store)
    → run_edit stamp r f db ≡ ok db'
    → Steps db db'
unfolding run_edit
edit-Steps stamp (task n) f db db' e =
    elim (guard-eq-ok (f.goal == [] && (f.dod == [] && (f.consumes == [] && f.produces == [])))
      usage _ db' e) [
        | found _ _ e1 ↦ elim (bind-eq-ok (validate_edit f.title f.note f.epic f.detach) _ db' e1) [
          | found _ _ e2 ↦
              write-Steps db db' _
                (λ db1 evs. edit_task-Steps stamp n f.title f.note f.epic f.detach db db1 evs) e2
        ]
      ]
edit-Steps stamp (epic slug) f db db' e = elim (guard-eq-ok (not (f.goal == [])) usage _ db' e) [
  | found _ _ e1 ↦ write-Steps db db' _ (λ db1 evs. edit_goal-Steps slug f.goal db db1 evs) e1
]
edit-Steps stamp (story slug sid) f db db' e =
    elim (guard-eq-ok (not (f.dod == [] && (f.consumes == [] && f.produces == []))) usage _ db' e) [
      | found _ _ e1 ↦
          write-Steps db db' _
            (λ db1 evs. edit_story-Steps slug sid f.dod f.consumes f.produces db db1 evs) e1
    ]
edit-Steps stamp (artifact _ _ _) f db db' e = cc
