-- ===== src/Backlog/Edits.antt =====
-- `edit` of internal/verb/tasks.go and the verbs of internal/verb/relations.go, on the tables `tasks` and
-- `task_links`.
use selftracked.Common.{
  ℕ, ◌≡◌, refl, sym, ap, subst, ◌∙◌, Bool, true, false, not, ◌||◌, List, [], ◌∷◌, ◌++◌, any, All,
  All-append, arith, Option-cases, ◌>>◌, guard, inl, inr, Result, ok, guard-true, found, bind-eq-ok,
  or_err-eq-ok, guard-eq-ok, ok-injective,
}
use selftracked.Common.Text.{Text, text_eq}
use selftracked.Store.{
  Task, Link, Event, Store, Epic, Refusal, not_found, no_change, bad_target, cycle, LinkType,
  rel_depends, rel_relates, rel_supersedes, rel_duplicates, same_link_type, is_link, find_task,
  update_task, find_epic, update_epic, insert_link, drop_links, replace_epic, same_task_status,
  status_duplicate, legal_epic_move, close_gate, epic_checks, constraint,
}
use selftracked.Stories.{refuse_terminal_epic}
use selftracked.Tasks.Lifecycle.{scan_task}
use selftracked.Tasks.Edit.{
  Edit, one_if, edit_home, edit_set, apply_all, is_nil, refuse_home, edit_task, edit_epic_goal,
  edit_title, edit_note, put_fields, story_fields, edit_story_fields,
}
use selftracked.Tasks.Updates.{insert_link-eq}
use selftracked.Relations.{
  would_cycle, is_relates, is_no_target, rel_add_checks, rel_add_in_tx, rel_rm_in_tx,
}
use selftracked.Relations.Cycles.{would_cycle-Reaches}
use selftracked.Backlog.Sound.{Sound, Sound-link, Sound-drop}
use selftracked.Backlog.Tables.{IsSound, update-IsSound}

-- Neither the number nor the status nor the canonical is edited.
pub record Quiet (t u : Task) : Type 0 where
  pub id_kept : u.id ≡ t.id
  pub status_kept : u.status ≡ t.status
  pub dup_kept : u.dup_of ≡ t.dup_of

abbrev pub IsQuiet : Edit → Type 0
IsQuiet e = (t : Task) → Quiet t (e.apply t)

IsQuiet-one : (b : Bool) (e : Edit) → IsQuiet e → All IsQuiet (one_if b e)
IsQuiet-one true e h = (h, tt)
IsQuiet-one false e h = tt

IsQuiet-title : (cur : Task) (title : Text) → All IsQuiet (edit_title cur title)
unfolding edit_title
IsQuiet-title cur title =
    IsQuiet-one _ _ (λ t. record { id_kept = refl; status_kept = refl; dup_kept = refl })

IsQuiet-note : (cur : Task) (note : Text) → All IsQuiet (edit_note cur note)
unfolding edit_note
IsQuiet-note cur note =
    IsQuiet-one _ _ (λ t. record { id_kept = refl; status_kept = refl; dup_kept = refl })

IsQuiet-home : (cur : Task) (slug : Text) (detach : Bool) → All IsQuiet (edit_home cur slug detach)
unfolding edit_home
IsQuiet-home cur slug true =
    ((λ t. record { id_kept = refl; status_kept = refl; dup_kept = refl }), tt)
IsQuiet-home cur slug false =
    IsQuiet-one _ _ (λ t. record { id_kept = refl; status_kept = refl; dup_kept = refl })

pub edit_set-IsQuiet :
    (cur : Task) (title note slug : Text) (detach : Bool)
    → All IsQuiet (edit_set cur title note slug detach)
unfolding edit_set
edit_set-IsQuiet cur title note slug detach =
    All-append IsQuiet (edit_title cur title) (edit_note cur note ++ edit_home cur slug detach)
      (IsQuiet-title cur title)
      (All-append IsQuiet (edit_note cur note) (edit_home cur slug detach) (IsQuiet-note cur note)
        (IsQuiet-home cur slug detach))

pub apply_all-Quiet : (es : List Edit) (t : Task) → All IsQuiet es → Quiet t (apply_all es t)
unfolding apply_all
apply_all-Quiet [] t h = record { id_kept = refl; status_kept = refl; dup_kept = refl }
apply_all-Quiet (e ∷ es) t (h, hs) =
    let q = h t in
    let r = apply_all-Quiet es (e.apply t) hs in
    record {
      id_kept = r.id_kept ∙ q.id_kept;
      status_kept = r.status_kept ∙ q.status_kept;
      dup_kept = r.dup_kept ∙ q.dup_kept;
    }

pub edit_task-IsSound :
    (stamp : Text) (id : ℕ) (title note slug : Text) (detach : Bool) (db db' : Store)
    (evs : List Event)
    → IsSound db
    → edit_task stamp id title note slug detach db ≡ ok (db', evs)
    → IsSound db'
unfolding edit_task scan_task
edit_task-IsSound stamp id title note slug detach db db' evs s e =
    elim (or_err-eq-ok (find_task db.tasks id) not_found _ (db', evs) e) [
      | found cur hit e1 ↦ elim (bind-eq-ok (refuse_home db slug) _ (db', evs) e1) [
        | found _ _ e2 ↦
            let edits = edit_set cur title note slug detach in
            elim (guard-eq-ok (not (is_nil edits)) no_change _ (db', evs) e2) [
              | found _ _ e3 ↦
                  elim (bind-eq-ok
                    (update_task db id (λ t. record (apply_all edits t) { updated_at = stamp })) _
                    (db', evs) e3) [
                      | found db1 p e4 ↦
                          let w : db1 ≡ db' =
                            ap (λ (x : Store × List Event). x.0) (ok-injective e4) in
                          update-IsSound db db' id _ s
                            (λ t _ _.
                              let q =
                                apply_all-Quiet edits t
                                  (edit_set-IsQuiet cur title note slug detach) in
                              record {
                                same_id = q.id_kept;
                                same_dup = q.dup_kept;
                                calm = λ x.
                                    subst (λ st. same_task_status st status_duplicate ≡ true)
                                      q.status_kept x;
                              })
                            (p ∙ ap ok w)
                    ]
            ]
      ]
    ]

-- `edit` of an epic or of a story leaves the tasks and the links alone.
pub edit_story_fields-IsSound :
    (slug sid dod consumes produces : Text) (db db' : Store) (evs : List Event)
    → IsSound db
    → edit_story_fields slug sid dod consumes produces db ≡ ok (db', evs)
    → IsSound db'
unfolding edit_story_fields
edit_story_fields-IsSound slug sid dod consumes produces db db' evs s e =
    elim (bind-eq-ok (refuse_terminal_epic db slug) _ (db', evs) e) [
      | found _ _ e1 ↦
          elim (bind-eq-ok (put_fields slug sid (story_fields dod consumes produces) db.stories) _
            (db', evs) e1) [
              | found (rows, changes) _ e2 ↦
                  let w : record db { stories = rows } ≡ db' =
                    ap (λ (x : Store × List Event). x.0) (ok-injective e2) in
                  subst IsSound w s
            ]
    ]

pub update_epic-tasks :
    (db db' : Store) (slug : Text) (f : Epic → Epic)
    → update_epic db slug f ≡ ok db'
    → (db'.tasks ≡ db.tasks) × (db'.links ≡ db.links)
unfolding update_epic
update_epic-tasks db db' slug f e = elim (Option-cases (find_epic db.epics slug)) [
  | inl n ↦
      let v : update_epic db slug f ≡ ok db = unfold update_epic in rw (n, update_epic) refl in
      let w : db ≡ db' = ok-injective (sym v ∙ e) in
      (ap Store.tasks (sym w), ap Store.links (sym w))
  | inr (r, hit) ↦
      let body : Result Refusal Store = (do
        guard (legal_epic_move r.status (f r).status) constraint
        guard (close_gate db.active_verb r (f r)) constraint
        guard (epic_checks (f r)) constraint
        ok (record db { epics = replace_epic db.epics slug f })) in
      let opened : update_epic db slug f ≡ body = rw (hit, update_epic) refl in
      elim (guard-eq-ok (legal_epic_move r.status (f r).status) constraint _ db' (sym opened ∙ e)) [
        | found _ _ e1 ↦
            elim (guard-eq-ok (close_gate db.active_verb r (f r)) constraint _ db' e1) [
              | found _ _ e2 ↦ elim (guard-eq-ok (epic_checks (f r)) constraint _ db' e2) [
                | found _ _ e3 ↦
                    (sym (ap Store.tasks (ok-injective e3)), sym (ap Store.links (ok-injective e3)))
              ]
            ]
      ]
]

pub edit_epic_goal-IsSound :
    (slug goal : Text) (db db' : Store) (evs : List Event)
    → IsSound db
    → edit_epic_goal slug goal db ≡ ok (db', evs)
    → IsSound db'
unfolding edit_epic_goal
edit_epic_goal-IsSound slug goal db db' evs s e =
    elim (bind-eq-ok (refuse_terminal_epic db slug) _ (db', evs) e) [
      | found _ _ e1 ↦ elim (or_err-eq-ok (find_epic db.epics slug) not_found _ (db', evs) e1) [
        | found r _ e2 ↦
            elim (bind-eq-ok (update_epic db slug (λ r. record r { goal = goal })) _ (db', evs)
              e2) [
                | found db1 p e3 ↦
                    let w : db1 ≡ db' = ap (λ (x : Store × List Event). x.0) (ok-injective e3) in
                    let (t, l) = update_epic-tasks db db1 slug _ p in
                    subst IsSound w
                      (subst (λ z. Sound z db1.links) (sym t) (subst (Sound db.tasks) (sym l) s))
              ]
      ]
    ]

pub rel_add_in_tx-IsSound :
    (from : ℕ) (type : LinkType) (to : ℕ) (note : Text) (db db' : Store) (evs : List Event)
    → same_link_type type rel_duplicates ≡ false
    → IsSound db
    → rel_add_in_tx from type to note db ≡ ok (db', evs)
    → IsSound db'
unfolding rel_add_in_tx rel_add_checks scan_task
rel_add_in_tx-IsSound from type to note db db' evs plain s e =
    let l : Link = record { from_task = from; to_task = to; type = type; note = note } in
    elim (bind-eq-ok (rel_add_checks db from type to) _ (db', evs) e) [
      | found _ checks e1 ↦ elim (bind-eq-ok (insert_link db l) _ (db', evs) e1) [
        | found db1 p e2 ↦
            let w : db1 ≡ db' = ap (λ (x : Store × List Event). x.0) (ok-injective e2) in
            let v = insert_link-eq db l db1 p in
            elim (or_err-eq-ok (find_task db.tasks to) not_found _ tt checks) [
              | found target _ c1 ↦
                  elim (or_err-eq-ok (find_task db.tasks from) not_found _ tt c1) [
                    | found _ _ c2 ↦
                        elim (guard-eq-ok (is_relates type || not (is_no_target target.status))
                          bad_target _ tt c2) [
                            | found _ _ c3 ↦
                                let free =
                                  guard-true
                                    (is_relates type || not (would_cycle db.links type from to))
                                    cycle c3 in
                                subst IsSound (sym v.2 ∙ w) (
                                  Sound-link db.tasks db.links s l plain (λ plain' r.
                                    let z = (would_cycle-Reaches db.links type from to).1 r in
                                    absurd (ground arith)))
                          ]
                  ]
            ]
      ]
    ]

-- The links of `rel rm` are of the type that was asked for.
other_type :
    (from to : ℕ) (type : LinkType) (l : Link)
    → same_link_type type rel_duplicates ≡ false
    → same_link_type l.type rel_duplicates ≡ true
    → is_link from to type l ≡ false
other_type from to type l plain d =
    let v : same_link_type l.type type ≡ false = differ l.type type plain d in rw v (ground arith)
  where
    differ :
        (a b : LinkType)
        → same_link_type b rel_duplicates ≡ false
        → same_link_type a rel_duplicates ≡ true
        → same_link_type a b ≡ false
    differ rel_duplicates rel_depends p q = refl
    differ rel_duplicates rel_relates p q = refl
    differ rel_duplicates rel_supersedes p q = refl
    differ rel_duplicates rel_duplicates p q = cc
    differ rel_depends b p q = cc
    differ rel_relates b p q = cc
    differ rel_supersedes b p q = cc

pub rel_rm_in_tx-IsSound :
    (from : ℕ) (type : LinkType) (to : ℕ) (db db' : Store) (evs : List Event)
    → same_link_type type rel_duplicates ≡ false
    → IsSound db
    → rel_rm_in_tx from type to db ≡ ok (db', evs)
    → IsSound db'
unfolding rel_rm_in_tx
rel_rm_in_tx-IsSound from type to db db' evs plain s e =
    elim (guard-eq-ok (any (is_link from to type) db.links) not_found _ (db', evs) e) [
      | found _ _ e1 ↦
          let cut : Store = record db { links = drop_links (is_link from to type) db.links } in
          let w : cut ≡ db' = ap (λ (x : Store × List Event). x.0) (ok-injective e1) in
          subst IsSound w (
            Sound-drop db.tasks db.links s (is_link from to type)
              (λ l d. other_type from to type l plain d))
    ]
