-- ===== src/Backlog/Refinement.antt =====
-- The refinement of the board of tasks by the commands of internal/verb/tasks.go and internal/verb/relations.go.
use selftracked.Common.{
  ◌≡◌, ap, ◌∙◌, not, [], ◌∷◌, some, ◌==◌, Result, ok, err, found, bind-eq-ok, guard-eq-ok,
}
use selftracked.Common.Text.{Text, codes, text_eq}
use selftracked.Ref.{Ref, Invalid, parse}
use selftracked.Store.{Store, usage}
use selftracked.Stories.{validate_text, validate_texts}
use selftracked.Tasks.Lifecycle.{
  task_id, create_target, create_in_tx, create, reopen_in_tx, reopen, park_in_tx, park, unpark,
}
use selftracked.Tasks.Edit.{EditFields, edit, edit_ref}
use selftracked.Relations.{rel_type, rel_add_in_tx, rel_add, rel_rm_in_tx, rel_rm}
use selftracked.Backlog.{
  Command, creating, setting, reopening, parking, unparking, editing, relating, unrelating, run,
}
use selftracked.Backlog.Transition.{set_status-IsTransition}
use selftracked.Backlog.Board.{board, status_of, BoardStep, move}
use selftracked.Backlog.Refines.{
  write-Steps, create_target-initial, create-Steps, reopen-Steps, park-Steps, edit-Steps,
  rel_add-Steps, rel_rm-Steps,
}

edit_ref-BoardStep :
    (stamp : Text) (r : Result Invalid Ref) (f : EditFields) (db db' : Store)
    → edit_ref stamp r f db ≡ ok db'
    → BoardStep (board db.tasks) (board db'.tasks)
edit_ref-BoardStep stamp (err _) f db db' e = cc
edit_ref-BoardStep stamp (ok r) f db db' e =
    elim (bind-eq-ok (validate_texts (f.goal ∷ f.dod ∷ f.consumes ∷ f.produces ∷ [])) _ db' e) [
      | found _ _ e1 ↦ edit-Steps stamp r f db db' e1
    ]

-- Every verb on tasks and relations that succeeds is a step of the board of tasks, which knows of
-- each number only its status: either the board rests, or one task moves along a transition that
-- the schema allows, or a number without a task gets one that begins as OPEN, IN-REVIEW,
-- NEEDS-TRIAGE or LABEL; every other number keeps what it had.
pub run-BoardStep :
    (stamp : Text) (command : Command) (db db' : Store)
    → run stamp command db ≡ ok db'
    → BoardStep (board db.tasks) (board db'.tasks)
unfolding run create reopen park unpark edit rel_add rel_rm
run-BoardStep stamp (creating title status note slug label) db db' e =
    elim (bind-eq-ok (create_target title note slug status label) _ db' e) [
      | found target t e1 ↦
          write-Steps db db' (create_in_tx stamp title target note slug)
            (λ db1 evs.
              create-Steps stamp title target note slug db db1 evs
                (create_target-initial title note slug status label target t))
            e1
    ]
run-BoardStep stamp (setting token target note dup_of) db db' e =
    let (id, _, t) = set_status-IsTransition stamp token target note dup_of db db' e in
    move id t.row.status t.status (ap status_of t.there) t.legal
      (ap status_of t.after ∙ ap some t.moved.status_set) (λ k ne. ap status_of (t.others k ne))
run-BoardStep stamp (reopening token why) db db' e = elim (bind-eq-ok (task_id token) _ db' e) [
  | found id _ e1 ↦ elim (guard-eq-ok (not (why == [])) usage _ db' e1) [
    | found _ _ e2 ↦ elim (bind-eq-ok (validate_text why) _ db' e2) [
      | found _ _ e3 ↦
          write-Steps db db' (reopen_in_tx stamp id why)
            (λ db1 evs. reopen-Steps stamp id why db db1 evs) e3
    ]
  ]
]
run-BoardStep stamp (parking token why) db db' e = elim (bind-eq-ok (task_id token) _ db' e) [
  | found id _ e1 ↦ elim (guard-eq-ok (not (why == [])) usage _ db' e1) [
    | found _ _ e2 ↦ elim (bind-eq-ok (validate_text why) _ db' e2) [
      | found _ _ e3 ↦
          write-Steps db db' (park_in_tx stamp id why (codes "park"))
            (λ db1 evs. park-Steps stamp id why (codes "park") db db1 evs) e3
    ]
  ]
]
run-BoardStep stamp (unparking token) db db' e = elim (bind-eq-ok (task_id token) _ db' e) [
  | found id _ e1 ↦
      write-Steps db db' (park_in_tx stamp id [] (codes "unpark"))
        (λ db1 evs. park-Steps stamp id [] (codes "unpark") db db1 evs) e1
]
run-BoardStep stamp (editing token fields) db db' e =
    edit_ref-BoardStep stamp (parse token) fields db db' e
run-BoardStep stamp (relating from type to note) db db' e =
    elim (bind-eq-ok (task_id from) _ db' e) [
      | found f _ e1 ↦ elim (bind-eq-ok (rel_type type) _ db' e1) [
        | found ty _ e2 ↦ elim (bind-eq-ok (task_id to) _ db' e2) [
          | found d _ e3 ↦ elim (bind-eq-ok (validate_text note) _ db' e3) [
            | found _ _ e4 ↦
                write-Steps db db' (rel_add_in_tx f ty d note)
                  (λ db1 evs. rel_add-Steps f ty d note db db1 evs) e4
          ]
        ]
      ]
    ]
run-BoardStep stamp (unrelating from type to) db db' e = elim (bind-eq-ok (task_id from) _ db' e) [
  | found f _ e1 ↦ elim (bind-eq-ok (rel_type type) _ db' e1) [
    | found ty _ e2 ↦ elim (bind-eq-ok (task_id to) _ db' e2) [
      | found d _ e3 ↦
          write-Steps db db' (rel_rm_in_tx f ty d) (λ db1 evs. rel_rm-Steps f ty d db db1 evs) e3
    ]
  ]
]
