-- ===== src/Backlog/Steps.antt =====
-- Every command of internal/verb/tasks.go and internal/verb/relations.go that writes, over the tables.
use selftracked.Common.{
  ℕ, ◌≡◌, All, refl, sym, ◌∙◌, true, false, not, ◌&&◌, [], ◌∷◌, Option, none, some, is_some, arith,
  ◌==◌, Result, ok, err, found, bind-eq-ok, guard-eq-ok,
}
use selftracked.Common.Int.{ℤ}
use selftracked.Common.Text.{Text, codes, text_eq}
use selftracked.Ref.{Ref, Invalid, task, epic, story, artifact, parse}
use selftracked.Store.{
  Task, Store, usage, find_task, LinkType, rel_depends, rel_relates, rel_supersedes, rel_duplicates,
  same_link_type, task_checks,
}
use selftracked.Stories.{validate_text, validate_texts}
use selftracked.Tasks.Lifecycle.{
  task_id, create_target, create_in_tx, create, is_duplicate_text, set_status_in_tx, set_status,
  reopen_in_tx, reopen, park_in_tx, park, unpark,
}
use selftracked.Tasks.Edit.{
  EditFields, edit, edit_ref, run_edit, validate_edit, edit_task, edit_epic_goal, edit_story_fields,
}
use selftracked.Relations.{rel_type, rel_add_in_tx, rel_add, rel_rm_in_tx, rel_rm}
use selftracked.Tasks.Rows.{Keyed}
use selftracked.Relations.Cycles.{Acyclic}
use selftracked.Rules.{r7}
use selftracked.Rules.Duplicates.{Paired-r7}
use selftracked.Backlog.{
  Command, creating, setting, reopening, parking, unparking, editing, relating, unrelating, run,
  is_remark, Leads, stay, step,
}
use selftracked.Backlog.Tables.{
  IsSound, write-IsSound, create_in_tx-IsSound, park_in_tx-IsSound, reopen_in_tx-IsSound,
}
use selftracked.Backlog.Status.{set_status_in_tx-IsSound}
use selftracked.Backlog.Edits.{
  edit_task-IsSound, edit_story_fields-IsSound, edit_epic_goal-IsSound, rel_add_in_tx-IsSound,
  rel_rm_in_tx-IsSound,
}

rel_type-plain :
    (token : Text) (type : LinkType)
    → rel_type token ≡ ok type
    → same_link_type type rel_duplicates ≡ false
unfolding rel_type
rel_type-plain token rel_depends h = refl
rel_type-plain token rel_relates h = refl
rel_type-plain token rel_supersedes h = refl
rel_type-plain token rel_duplicates h = absurd (ground arith)

no_canonical : (o : Option ℕ) → is_some o ≡ false → o ≡ none
no_canonical none h = refl
no_canonical (some d) h = cc

not_remarked :
    (db : Store) (id : ℕ) (token target note : Text) (dup_of : ℤ) (t : Task)
    → is_remark db (setting token target note dup_of) ≡ false
    → task_id token ≡ ok id
    → find_task db.tasks id ≡ some t
    → is_duplicate_text target ≡ true
    → t.dup_of ≡ none
unfolding is_remark
not_remarked db id token target note dup_of t h i hit m =
    let v : is_remark db (setting token target note dup_of) ≡ is_some t.dup_of =
      rw (i, m) (rw hit refl) in
    no_canonical t.dup_of (sym v ∙ h)

edit-IsSound :
    (stamp : Text) (r : Result Invalid Ref) (f : EditFields) (db db' : Store)
    → IsSound db
    → edit_ref stamp r f db ≡ ok db'
    → IsSound db'
unfolding run_edit
edit-IsSound stamp (err _) f db db' s e = cc
edit-IsSound stamp (ok r) f db db' s e =
    elim (bind-eq-ok (validate_texts (f.goal ∷ f.dod ∷ f.consumes ∷ f.produces ∷ [])) _ db' e) [
      | found _ _ e1 ↦ by_kind r e1
    ]
  where
    by_kind : (r : Ref) → run_edit stamp r f db ≡ ok db' → IsSound db'
    by_kind (task n) e =
        elim (guard-eq-ok (f.goal == [] && (f.dod == [] && (f.consumes == [] && f.produces == [])))
          usage _ db' e) [
            | found _ _ e1 ↦
                elim (bind-eq-ok (validate_edit f.title f.note f.epic f.detach) _ db' e1) [
                  | found _ _ e2 ↦
                      write-IsSound db db' (edit_task stamp n f.title f.note f.epic f.detach)
                        (λ db1 evs.
                          edit_task-IsSound stamp n f.title f.note f.epic f.detach db db1 evs s)
                        e2
                ]
          ]
    by_kind (epic slug) e = elim (guard-eq-ok (not (f.goal == [])) usage _ db' e) [
      | found _ _ e1 ↦
          write-IsSound db db' (edit_epic_goal slug f.goal)
            (λ db1 evs. edit_epic_goal-IsSound slug f.goal db db1 evs s) e1
    ]
    by_kind (story slug sid) e =
        elim (guard-eq-ok (not (f.dod == [] && (f.consumes == [] && f.produces == []))) usage _ db'
          e) [
            | found _ _ e1 ↦
                write-IsSound db db' (edit_story_fields slug sid f.dod f.consumes f.produces)
                  (λ db1 evs.
                    edit_story_fields-IsSound slug sid f.dod f.consumes f.produces db db1 evs s)
                  e1
          ]
    by_kind (artifact _ _ _) e = cc

run-IsSound :
    (stamp : Text) (command : Command) (db db' : Store)
    → IsSound db
    → is_remark db command ≡ false
    → run stamp command db ≡ ok db'
    → IsSound db'
unfolding run create set_status reopen park unpark edit rel_add rel_rm
run-IsSound stamp (creating title status note slug label) db db' s _ e =
    elim (bind-eq-ok (create_target title note slug status label) _ db' e) [
      | found target _ e1 ↦
          write-IsSound db db' (create_in_tx stamp title target note slug)
            (λ db1 evs. create_in_tx-IsSound stamp title target note slug db db1 evs s) e1
    ]
run-IsSound stamp (setting token target note dup_of) db db' s again e =
    elim (bind-eq-ok (task_id token) _ db' e) [
      | found id i e1 ↦ elim (bind-eq-ok (validate_text note) _ db' e1) [
        | found _ _ e2 ↦
            write-IsSound db db' (set_status_in_tx stamp id target note dup_of)
              (λ db1 evs.
                set_status_in_tx-IsSound stamp id target note dup_of db db1 evs s
                  (λ t. not_remarked db id token target note dup_of t again i))
              e2
      ]
    ]
run-IsSound stamp (reopening token why) db db' s _ e = elim (bind-eq-ok (task_id token) _ db' e) [
  | found id _ e1 ↦ elim (guard-eq-ok (not (why == [])) usage _ db' e1) [
    | found _ _ e2 ↦ elim (bind-eq-ok (validate_text why) _ db' e2) [
      | found _ _ e3 ↦
          write-IsSound db db' (reopen_in_tx stamp id why)
            (λ db1 evs. reopen_in_tx-IsSound stamp id why db db1 evs s) e3
    ]
  ]
]
run-IsSound stamp (parking token why) db db' s _ e = elim (bind-eq-ok (task_id token) _ db' e) [
  | found id _ e1 ↦ elim (guard-eq-ok (not (why == [])) usage _ db' e1) [
    | found _ _ e2 ↦ elim (bind-eq-ok (validate_text why) _ db' e2) [
      | found _ _ e3 ↦
          write-IsSound db db' (park_in_tx stamp id why (codes "park"))
            (λ db1 evs. park_in_tx-IsSound stamp id why (codes "park") db db1 evs s) e3
    ]
  ]
]
run-IsSound stamp (unparking token) db db' s _ e = elim (bind-eq-ok (task_id token) _ db' e) [
  | found id _ e1 ↦
      write-IsSound db db' (park_in_tx stamp id [] (codes "unpark"))
        (λ db1 evs. park_in_tx-IsSound stamp id [] (codes "unpark") db db1 evs s) e1
]
run-IsSound stamp (editing token fields) db db' s _ e =
    edit-IsSound stamp (parse token) fields db db' s e
run-IsSound stamp (relating from type to note) db db' s _ e =
    elim (bind-eq-ok (task_id from) _ db' e) [
      | found f _ e1 ↦ elim (bind-eq-ok (rel_type type) _ db' e1) [
        | found ty t e2 ↦ elim (bind-eq-ok (task_id to) _ db' e2) [
          | found d _ e3 ↦ elim (bind-eq-ok (validate_text note) _ db' e3) [
            | found _ _ e4 ↦
                write-IsSound db db' (rel_add_in_tx f ty d note)
                  (λ db1 evs.
                    rel_add_in_tx-IsSound f ty d note db db1 evs (rel_type-plain type ty t) s)
                  e4
          ]
        ]
      ]
    ]
run-IsSound stamp (unrelating from type to) db db' s _ e =
    elim (bind-eq-ok (task_id from) _ db' e) [
      | found f _ e1 ↦ elim (bind-eq-ok (rel_type type) _ db' e1) [
        | found ty t e2 ↦ elim (bind-eq-ok (task_id to) _ db' e2) [
          | found d _ e3 ↦
              write-IsSound db db' (rel_rm_in_tx f ty d)
                (λ db1 evs. rel_rm_in_tx-IsSound f ty d db db1 evs (rel_type-plain type ty t) s) e3
        ]
      ]
    ]

pub Leads-IsSound : (db db' : Store) → Leads db db' → IsSound db → IsSound db'
Leads-IsSound db _ stay s = s
Leads-IsSound db _ (step mid after stamp command l again e) s =
    run-IsSound stamp command mid after (Leads-IsSound db mid l s) again e

-- From a database as in the theorem on R7, no sequence of successful verbs on tasks and relations,
-- none of which marks a DUPLICATE again, leads to a cycle of depends or of supersedes.
pub Leads-Acyclic :
    (db db' : Store)
    → IsSound db
    → Leads db db'
    → Acyclic db'.links rel_depends × Acyclic db'.links rel_supersedes
Leads-Acyclic db db' s l = let t = Leads-IsSound db db' l s in (t.depends, t.supersedes)

-- From a database as in the theorem on R7, every sequence of successful verbs on tasks and
-- relations, none of which marks a DUPLICATE again, leads to one in which no two tasks have one
-- number and every task satisfies its CHECKs.
pub Leads-Keyed :
    (db db' : Store)
    → IsSound db
    → Leads db db'
    → Keyed db'.tasks × All (λ t. task_checks t ≡ true) db'.tasks
Leads-Keyed db db' s l = let t = Leads-IsSound db db' l s in (t.keyed, t.checked)

-- Starting from a database whose tasks have a primary key and satisfy their CHECKs, over which rule
-- R7 finds nothing and whose directed relations have no cycle, no sequence of successful verbs on
-- tasks and relations leads to one over which R7 reports something, as long as no command marks a
-- task as DUPLICATE that is one already.
pub Leads-r7 : (db db' : Store) → IsSound db → Leads db db' → r7 db' ≡ []
Leads-r7 db db' s l = Paired-r7 db' (Leads-IsSound db db' l s).paired
