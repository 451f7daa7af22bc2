-- ===== src/Backlog/Status.antt =====
-- `setStatus` of internal/verb/tasks.go, on the tables `tasks` and `task_links`.
use selftracked.Common.{
  ℕ, ◌≡◌, ◌⊎◌, refl, sym, ap, subst, ◌∙◌, true, false, not, ◌&&◌, List, [], ◌∷◌, ◌++◌, Option, none,
  some, is_some, arith, ◌==◌, Bool-cases, inl, inr, ok, found, bind-eq-ok, or_err-eq-ok,
  guard-eq-ok, ok-injective,
}
use selftracked.Common.Int.{ℤ}
use selftracked.Common.Text.{Text, codes, text_eq}
use selftracked.Store.{
  Task, Link, Event, Store, TaskStatus, status_open, status_duplicate, status_done, status_wont_do,
  status_in_review, status_triage, status_label, rel_duplicates, iff, constraint, use_reopen,
  not_found, same_task_status, is_terminal_task, legal_task_move, find_task, update_task_status,
}
use selftracked.Tasks.Lifecycle.{
  task_status_of, scan_task, duplicate_target, is_duplicate_text, moved_task, link_duplicate,
  set_status_in_tx,
}
use selftracked.Tasks.Rows.{All-find_task}
use selftracked.Tasks.Updates.{update_task_status-IsMove, insert_link-eq}
use selftracked.Backlog.Sound.{Sound-Calm, Sound-mark, duplicate-some}
use selftracked.Backlog.Tables.{
  IsSound, IsDup, no_dup, dup, free-Calm, iff-none, duplicate_target-IsDup, status_duplicate-text,
  status_open-text,
}

from-duplicate :
    (a st : TaskStatus)
    → legal_task_move a st ≡ true
    → same_task_status a status_duplicate ≡ true
    → ((st ≡ status_duplicate) ⊎ (st ≡ status_open)) × (is_terminal_task a ≡ true)
from-duplicate status_duplicate status_duplicate h k = (inl refl, refl)
from-duplicate status_duplicate status_open h k = (inr refl, refl)
from-duplicate status_duplicate status_in_review h k = cc
from-duplicate status_duplicate status_triage h k = cc
from-duplicate status_duplicate status_done h k = cc
from-duplicate status_duplicate status_wont_do h k = cc
from-duplicate status_duplicate status_label h k = cc
from-duplicate status_open st h k = cc
from-duplicate status_in_review st h k = cc
from-duplicate status_triage st h k = cc
from-duplicate status_done st h k = cc
from-duplicate status_wont_do st h k = cc
from-duplicate status_label st h k = cc

-- A duplicate leaves its status by `reopen` only.
was-free :
    (a st : TaskStatus) (target : Text) (o : Option ℕ)
    → legal_task_move a st ≡ true
    → task_status_of target ≡ some st
    → is_duplicate_text target ≡ false
    → not (is_terminal_task a && target == codes "OPEN") ≡ true
    → iff (same_task_status a status_duplicate) (is_some o) ≡ true
    → o ≡ none
was-free a st target o legal spelt m reopen_first h =
    elim (Bool-cases (same_task_status a status_duplicate)) [
      | inr d ↦ iff-none _ o h d
      | inl d ↦
          let (where_to, done) = from-duplicate a st legal d in
          absurd (elim where_to [
            | inl q ↦ let v = status_duplicate-text target (spelt ∙ ap some q) in cc
            | inr q ↦
                let v = status_open-text target (spelt ∙ ap some q) in
                let w : not (is_terminal_task a && target == codes "OPEN") ≡ false =
                  rw (done, v) refl in
                cc
          ])
    ]

-- The status was moved; the link of a new duplicate is still to come.
status-IsSound :
    (db db1 db2 : Store) (stamp : Text) (id : ℕ) (target note : Text) (st : TaskStatus)
    (o : Option ℕ) (t : Task)
    → IsSound db
    → IsDup db id target o
    → find_task db.tasks id ≡ some t
    → task_status_of target ≡ some st
    → not (is_terminal_task t.status && target == codes "OPEN") ≡ true
    → (is_duplicate_text target ≡ true → t.dup_of ≡ none)
    → update_task_status db id (moved_task stamp st note o) ≡ ok db1
    → link_duplicate db1 id o ≡ ok db2
    → IsSound db2
status-IsSound db db1 db2 stamp id target note st o t s (no_dup m) hit spelt reopen_first again
      moved linked =
    let f = moved_task stamp st note none in
    let u = update_task_status-IsMove db id f t db1 hit moved in
    let before = duplicate-some t (All-find_task _ db.tasks id t hit s.checked) in
    let free = was-free t.status st target t.dup_of u.legal spelt m reopen_first before in
    subst IsSound (sym u.update.replaced ∙ ok-injective linked) (
      Sound-Calm db.tasks db.links s id f t hit refl u.update.checked
        (free-Calm t (f t) refl free refl u.update.checked))
status-IsSound db db1 db2 stamp id target note st o t s (dup d c m hit_c calm free) hit spelt
      reopen_first again moved linked =
    let f = moved_task stamp st note (some d) in
    let l : Link = record { from_task = id; to_task = d; type = rel_duplicates; note = [] } in
    let u = update_task_status-IsMove db id f t db1 hit moved in
    let v = insert_link-eq db1 l db2 linked in
    let grow : Store → Store = λ z. record z { links = z.links ++ (l ∷ []) } in
    subst IsSound (ap grow (sym u.update.replaced) ∙ sym v.2) (
      Sound-mark db.tasks db.links s id f t hit refl u.update.checked d c l hit_c (again m) refl
        (ground arith) calm free (ground arith) refl)

pub set_status_in_tx-IsSound :
    (stamp : Text) (id : ℕ) (target note : Text) (z : ℤ) (db db' : Store) (evs : List Event)
    → IsSound db
    → ((t : Task)
        → find_task db.tasks id ≡ some t
        → is_duplicate_text target ≡ true
        → t.dup_of ≡ none)
    → set_status_in_tx stamp id target note z db ≡ ok (db', evs)
    → IsSound db'
unfolding set_status_in_tx scan_task
set_status_in_tx-IsSound stamp id target note z db db' evs s again e =
    elim (or_err-eq-ok (find_task db.tasks id) not_found _ (db', evs) e) [
      | found t hit e1 ↦
          elim (guard-eq-ok (not (is_terminal_task t.status && target == codes "OPEN")) use_reopen _
            (db', evs) e1) [
              | found _ reopen_first e2 ↦
                  elim (bind-eq-ok (duplicate_target db id target z) _ (db', evs) e2) [
                    | found o p e3 ↦
                        elim (or_err-eq-ok (task_status_of target) constraint _ (db', evs) e3) [
                          | found st spelt e4 ↦
                              elim (bind-eq-ok
                                (update_task_status db id (moved_task stamp st note o)) _ (db', evs)
                                e4) [
                                  | found db1 moved e5 ↦
                                      elim (bind-eq-ok (link_duplicate db1 id o) _ (db', evs) e5) [
                                        | found db2 linked e6 ↦
                                            subst IsSound
                                              (ap (λ (x : Store × List Event). x.0)
                                                (ok-injective e6))
                                              (status-IsSound db db1 db2 stamp id target note st o t
                                                s (duplicate_target-IsDup db id target z o p) hit
                                                spelt reopen_first (again t hit) moved linked)
                                      ]
                                ]
                        ]
                  ]
            ]
    ]
