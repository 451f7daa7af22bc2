-- ===== src/Backlog/Tables.antt =====
-- The mutations of internal/verb/tasks.go, on the tables `tasks` and `task_links`.
use selftracked.Common.{
  ℕ, zero, suc, ◌≡◌, ◌⊎◌, refl, sym, ap, subst, ◌∙◌, Bool, true, false, not, List, [], ◌++◌, Option,
  none, some, is_some, arith, ◌==◌, Bool-cases, inl, inr, Result, ok, ◌>>=◌, guard, found,
  bind-eq-ok, or_err-eq-ok, guard-eq-ok, ok-injective,
}
use selftracked.Common.Int.{ℤ, pos, negsuc}
use selftracked.Common.Text.{Text, codes, text_eq}
use selftracked.Store.{
  Task, Event, Store, TaskStatus, status_open, status_duplicate, status_done, status_wont_do,
  status_in_review, status_triage, status_label, iff, Refusal, dup_chain, not_found, usage,
  same_task_status, find_task, replace_task, task_checks, update_task, update_task_status,
  insert_task, next_task, drop_links,
}
use selftracked.Stories.{write}
use selftracked.Tasks.Lifecycle.{
  task_status_of, scan_task, home_of, create_in_tx, is_canonical, canonical_of, duplicate_target,
  is_duplicate_text, moved_task, is_duplicate_from, leave_terminal, reopen_in_tx,
  refuse_terminal_home, park_in_tx, is_zero,
}
use selftracked.Tasks.Rows.{All-find_task}
use selftracked.Tasks.Updates.{update_task-cases, update_task_status-IsMove, insert_task-eq}
use selftracked.Rules.Duplicates.{Calm}
use selftracked.Backlog.Sound.{
  Sound, Sound-Calm, Sound-reopen, Sound-append, no_duplicate, next_task-fresh, duplicate-some,
}

abbrev pub IsSound : Store → Type 0
IsSound db = Sound db.tasks db.links

pub write-IsSound :
    (db db' : Store) (mutate : Store → Result Refusal (Store × List Event))
    → ((db1 : Store) (evs : List Event) → mutate db ≡ ok (db1, evs) → IsSound db1)
    → write db mutate ≡ ok db'
    → IsSound db'
unfolding write
write-IsSound db db' mutate h e = elim (bind-eq-ok (mutate db) _ db' e) [
  | found (db1, evs) p e1 ↦
      let q : record db1 { events = db1.events ++ evs } ≡ db' = ok-injective e1 in
      subst IsSound q (h db1 evs p)
]

pub create_in_tx-IsSound :
    (stamp title : Text) (target : TaskStatus) (note epic : Text) (db db' : Store)
    (evs : List Event)
    → IsSound db
    → create_in_tx stamp title target note epic db ≡ ok (db', evs)
    → IsSound db'
unfolding create_in_tx
create_in_tx-IsSound stamp title target note epic db db' evs s e =
    elim (bind-eq-ok (home_of db epic) _ (db', evs) e) [
      | found home p e1 ↦
          let row : Task = record {
            id = next_task db;
            title = title;
            status = target;
            status_note = note;
            parked = [];
            dup_of = none;
            epic = home;
            created_at = stamp;
            updated_at = stamp;
          } in
          elim (bind-eq-ok (insert_task db row) _ (db', evs) e1) [
            | found db1 q e2 ↦
                let (c, _, v) = insert_task-eq db row db1 q in
                let w : db1 ≡ db' = ap (λ (x : Store × List Event). x.0) (ok-injective e2) in
                subst IsSound (sym v ∙ w)
                  (Sound-append db.tasks db.links s row (next_task-fresh db) c refl)
          ]
    ]

-- An update of a row that is there, or of none.
pub update-IsSound :
    (db db' : Store) (id : ℕ) (f : Task → Task)
    → IsSound db
    → ((t : Task) → task_checks (f t) ≡ true → task_checks t ≡ true → Calm t (f t))
    → update_task db id f ≡ ok db'
    → IsSound db'
update-IsSound db db' id f s k e = elim (update_task-cases db id f db' e) [
  | inl (_, q) ↦ subst IsSound (sym q) s
  | inr (t, hit, u) ↦
      let c = k t u.checked (All-find_task _ db.tasks id t hit s.checked) in
      subst IsSound (sym u.replaced)
        (Sound-Calm db.tasks db.links s id f t hit c.same_id u.checked c)
]

pub park_in_tx-IsSound :
    (stamp : Text) (id : ℕ) (why event : Text) (db db' : Store) (evs : List Event)
    → IsSound db
    → park_in_tx stamp id why event db ≡ ok (db', evs)
    → IsSound db'
unfolding park_in_tx
park_in_tx-IsSound stamp id why event db db' evs s e =
    elim (bind-eq-ok (update_task db id (λ t. record t { parked = why; updated_at = stamp })) _
      (db', evs) e) [
        | found db1 p e1 ↦
            let w : db1 ≡ db' = ap (λ (x : Store × List Event). x.0) (ok-injective e1) in
            update-IsSound db db' id _ s
              (λ t _ _. record { same_id = refl; same_dup = refl; calm = λ x. x }) (p ∙ ap ok w)
      ]

-- A row that has no canonical before and after.
pub free-Calm :
    (t u : Task) → u.id ≡ t.id → t.dup_of ≡ none → u.dup_of ≡ none → task_checks u ≡ true → Calm t u
free-Calm t u i o o' c = record {
  same_id = i;
  same_dup = o' ∙ sym o;
  calm = λ e. absurd (let v = no_duplicate u c o' in (cc));
}

pub iff-none : (b : Bool) (o : Option ℕ) → iff b (is_some o) ≡ true → b ≡ false → o ≡ none
iff-none b none h e = refl
iff-none true (some d) h e = cc
iff-none false (some d) h e = cc

leave_terminal-cases :
    (db : Store) (id : ℕ) (st : TaskStatus) (o : Option ℕ) (db' : Store)
    → iff (same_task_status st status_duplicate) (is_some o) ≡ true
    → leave_terminal db id st ≡ ok db'
    → ((db' ≡ db) × (o ≡ none))
      ⊎ (db' ≡ record db { links = drop_links (is_duplicate_from id) db.links })
leave_terminal-cases db id status_done o db' h e =
    inl (sym (ok-injective e), iff-none false o h refl)
leave_terminal-cases db id status_wont_do o db' h e =
    inl (sym (ok-injective e), iff-none false o h refl)
leave_terminal-cases db id status_duplicate o db' h e = inr (sym (ok-injective e))
leave_terminal-cases db id status_open o db' h e = cc
leave_terminal-cases db id status_in_review o db' h e = cc
leave_terminal-cases db id status_triage o db' h e = cc
leave_terminal-cases db id status_label o db' h e = cc

pub moved-checks :
    (db db' : Store) (id : ℕ) (f : Task → Task) (t : Task)
    → find_task db.tasks id ≡ some t
    → update_task_status db id f ≡ ok db'
    → (task_checks (f t) ≡ true) × (db' ≡ record db { tasks = replace_task db.tasks id f })
moved-checks db db' id f t hit e =
    let m = update_task_status-IsMove db id f t db' hit e in (m.update.checked, m.update.replaced)

pub reopen_in_tx-IsSound :
    (stamp : Text) (id : ℕ) (why : Text) (db db' : Store) (evs : List Event)
    → IsSound db
    → reopen_in_tx stamp id why db ≡ ok (db', evs)
    → IsSound db'
unfolding reopen_in_tx scan_task
reopen_in_tx-IsSound stamp id why db db' evs s e =
    let f = moved_task stamp status_open why none in
    elim (or_err-eq-ok (find_task db.tasks id) not_found _ (db', evs) e) [
      | found t hit e1 ↦ elim (bind-eq-ok (refuse_terminal_home db t.epic) _ (db', evs) e1) [
        | found _ _ e2 ↦ elim (bind-eq-ok (leave_terminal db id t.status) _ (db', evs) e2) [
          | found db1 left e3 ↦ elim (bind-eq-ok (update_task_status db1 id f) _ (db', evs) e3) [
            | found db2 moved e4 ↦
                let w : db2 ≡ db' = ap (λ (x : Store × List Event). x.0) (ok-injective e4) in
                let before = duplicate-some t (All-find_task _ db.tasks id t hit s.checked) in
                subst IsSound w
                  (elim (leave_terminal-cases db id t.status t.dup_of db1 before left) [
                    | inl (same, o) ↦
                        let v =
                          moved-checks db db2 id f t hit
                            (subst (λ z. update_task_status z id f ≡ ok db2) same moved) in
                        subst IsSound (sym v.1) (
                          Sound-Calm db.tasks db.links s id f t hit refl v.0
                            (free-Calm t (f t) refl o refl v.0))
                    | inr same ↦
                        let cut = record db {
                          links = drop_links (is_duplicate_from id) db.links;
                        } in
                        let v =
                          moved-checks cut db2 id f t hit
                            (subst (λ z. update_task_status z id f ≡ ok db2) same moved) in
                        subst IsSound (sym v.1)
                          (Sound-reopen db.tasks db.links s id f t hit refl v.0 refl)
                  ])
          ]
        ]
      ]
    ]

-- What `duplicateTarget` has found out when it let the status pass.
pub data IsDup (db : Store) (id : ℕ) (target : Text) : Option ℕ → Type 0 where
  no_dup : is_duplicate_text target ≡ false → IsDup db id target none
  dup :
      (d : ℕ) (c : Task)
      → is_duplicate_text target ≡ true
      → find_task db.tasks d ≡ some c
      → same_task_status c.status status_duplicate ≡ false
      → is_canonical db.tasks id ≡ false
      → IsDup db id target (some d)

canonical_of-IsDup :
    (db : Store) (id : ℕ) (target : Text) (z : ℤ) (o : Option ℕ)
    → is_duplicate_text target ≡ true
    → canonical_of db id z ≡ ok o
    → IsDup db id target o
unfolding canonical_of scan_task
canonical_of-IsDup db id target (pos zero) o m e = cc
canonical_of-IsDup db id target (negsuc n) o m e = cc
canonical_of-IsDup db id target (pos (suc n)) o m e =
    elim (or_err-eq-ok (find_task db.tasks (suc n)) not_found _ o e) [
      | found c hit e1 ↦
          elim (guard-eq-ok (not (same_task_status c.status status_duplicate)) dup_chain _ o e1) [
            | found _ p e2 ↦ elim (guard-eq-ok (not (is_canonical db.tasks id)) dup_chain _ o e2) [
              | found _ q e3 ↦
                  subst (IsDup db id target) (ok-injective e3)
                    (dup (suc n) c m hit (ground arith) (ground arith))
            ]
          ]
    ]

pub duplicate_target-IsDup :
    (db : Store) (id : ℕ) (target : Text) (z : ℤ) (o : Option ℕ)
    → duplicate_target db id target z ≡ ok o
    → IsDup db id target o
unfolding duplicate_target
duplicate_target-IsDup db id target z o e = elim (Bool-cases (is_duplicate_text target)) [
  | inl m ↦
      let v : duplicate_target db id target z ≡ canonical_of db id z = rw m refl in
      canonical_of-IsDup db id target z o m (sym v ∙ e)
  | inr m ↦
      let v : duplicate_target db id target z ≡ (guard (is_zero z) usage >>= λ _. ok none) =
        rw m refl in
      elim (guard-eq-ok (is_zero z) usage _ o (sym v ∙ e)) [
        | found _ _ e1 ↦ subst (IsDup db id target) (ok-injective e1) (no_dup m)
      ]
]

pub status_duplicate-text :
    (s : Text) → task_status_of s ≡ some status_duplicate → is_duplicate_text s ≡ true
unfolding task_status_of
status_duplicate-text s h = ground arith

pub status_open-text : (s : Text) → task_status_of s ≡ some status_open → (s == codes "OPEN") ≡ true
unfolding task_status_of
status_open-text s h = ground arith
