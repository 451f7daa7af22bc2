-- ===== src/Stories/Commands.antt =====
-- The verbs of internal/verb/stories.go as commands, and the histories that they make.
use selftracked.Common.{
  ◌≡◌, ◌≢◌, refl, sym, ap, subst, ◌∙◌, Bool, true, false, not, ◌||◌, List, [], ◌∷◌, ◌++◌, any,
  Option, none, some, ◌==◌, Result, ok, found, bind-eq-ok, guard-eq-ok, ok-injective, Option-cases,
  inl, inr, is_some,
}
use selftracked.Common.Text.{Text, text_eq, text_beq}
use selftracked.Store.{
  new_story, StoryStatus, story_planned, story_ready, story_blocked, story_in_progress, story_done,
  story_dissolved, State, in_progress, done, blocked_on_owner, dissolved, Story, Event, Store,
  Refusal, is_done, is_done_state, legal_story_move, find_story, story_in_slot, update_story,
  insert_story, usage, wip, not_found, constraint, epic_status,
}
use selftracked.Stories.{
  plain_move, write, append_worklog, add_in_tx, start_in_tx, refuse_terminal_epic, validate_text,
  validate_texts, next_story_id, story_add, story_ready_verb, story_start, story_block,
  story_unblock, story_done_verb, story_dissolve,
}
use selftracked.Stories.Effects.{
  update_story-parts, Logged, Effect, moved, added, IsFair, append_worklog-Logged,
  move_story-Effect,
}

-- A verb with its arguments.
pub data Command : Type 0 where
  add : Text → Text → Command
  ready start : Text → Text → Command
  block unblock dissolve : Text → Text → Text → Command
  finish : Text → Text → Text → Text → Text → Command

-- A command at a time.
unfoldable pub run : Text → Command → Store → Result Refusal Store
run date (add slug title) db = story_add slug title db
run date (ready slug sid) db = story_ready_verb date slug sid db
run date (start slug sid) db = story_start date slug sid db
run date (block slug sid reason) db = story_block date slug sid reason db
run date (unblock slug sid resolution) db = story_unblock date slug sid resolution db
run date (dissolve slug sid why) db = story_dissolve date slug sid why db
run date (finish slug sid commits gate review) db =
    story_done_verb date slug sid commits gate review db

same_tables :
    (db db1 db' : Store)
    → db'.stories ≡ db1.stories
    → db'.worklog ≡ db1.worklog
    → Effect db db1
    → Effect db db'
same_tables db db1 db' p q (moved slug sid s f hit undone kept to log) =
    moved slug sid s f hit undone kept (to ∙ ap ok (sym p))
      (subst (Logged db.worklog slug sid (f s).status) (sym q) log)
same_tables db db1 db' p q (added s st to log) = added s st (p ∙ to) (q ∙ log)

-- A mutation that succeeded, with the events behind it.
write-Effect :
    (db db' : Store) (mutate : Store → Result Refusal (Store × List Event))
    → ((db1 : Store) (evs : List Event) → mutate db ≡ ok (db1, evs) → Effect db db1)
    → write db mutate ≡ ok db'
    → Effect db db'
unfolding write
write-Effect db db' mutate h e = elim (bind-eq-ok (mutate db) _ db' e) [
  | found (db1, evs) p e1 ↦
      let q : record db1 { events = db1.events ++ evs } ≡ db' = ok-injective e1 in
      subst (Effect db) q
        (same_tables db db1 (record db1 { events = db1.events ++ evs }) refl refl (h db1 evs p))
]

startable : (st : StoryStatus) → legal_story_move st story_in_progress ≡ true → is_done st ≡ false
startable story_done h = cc
startable story_planned h = refl
startable story_ready h = refl
startable story_blocked h = refl
startable story_in_progress h = refl
startable story_dissolved h = refl

found_row :
    (rows : List Story) (slug sid : Text)
    → (elim (find_story rows slug sid) as (λ _. Bool) [ some _ ↦ true | none ↦ false ]) ≡ true
    → (s : Story) × (find_story rows slug sid ≡ some s)
found_row rows slug sid h = elim (Option-cases (find_story rows slug sid)) [
  | inl n ↦
      let k : (elim (find_story rows slug sid) as (λ _. Bool) [ some _ ↦ true | none ↦ false ])
          ≡ false =
        rw n refl in
      cc
  | inr (s, e) ↦ (s, e)
]

start_in_tx-Effect :
    (date slug sid : Text) (db db' : Store) (evs : List Event)
    → start_in_tx date slug sid db ≡ ok (db', evs)
    → Effect db db'
unfolding start_in_tx
start_in_tx-Effect date slug sid db db' evs e =
    let go : Story → Story = λ r. record r { status = story_in_progress } in
    elim (bind-eq-ok (refuse_terminal_epic db slug) _ (db', evs) e) [
      | found _ _ e1 ↦
          elim (guard-eq-ok (elim (story_in_slot db.stories slug) [ none ↦ true | some _ ↦ false ])
            wip _ (db', evs) e1) [
              | found _ _ e2 ↦
                  elim (bind-eq-ok (update_story db.stories slug sid go) _ (db', evs) e2) [
                    | found rows to e3 ↦
                        elim (guard-eq-ok
                          (elim (find_story db.stories slug sid) [ some _ ↦ true | none ↦ false ])
                          not_found _ (db', evs) e3) [
                            | found _ there e4 ↦
                                elim (bind-eq-ok
                                  (append_worklog (record db { stories = rows }) date slug sid
                                    in_progress [] [] [] [])
                                  _ (db', evs) e4) [
                                    | found db2 log e5 ↦
                                        let (s, hit) = found_row db.stories slug sid there in
                                        let parts =
                                          update_story-parts db.stories slug sid go s rows hit to in
                                        let (kept, logged) =
                                          append_worklog-Logged (record db { stories = rows }) date
                                            slug sid in_progress [] [] [] [] story_in_progress db2
                                            log refl (λ z. cc) in
                                        subst (Effect db) (ap (λ r. r.0) (ok-injective e5)) (
                                          moved slug sid s go hit (startable s.status parts.legal)
                                            (record { epic_kept = λ r. refl; id_kept = λ r. refl })
                                            (to ∙ ap ok (sym kept)) logged)
                                  ]
                          ]
                  ]
            ]
    ]

add_in_tx-Effect :
    (slug title : Text) (db db' : Store) (evs : List Event)
    → add_in_tx slug title db ≡ ok (db', evs)
    → Effect db db'
unfolding add_in_tx insert_story
add_in_tx-Effect slug title db db' evs e =
    let s : Story = new_story slug (next_story_id db.stories slug) title in
    elim (bind-eq-ok (refuse_terminal_epic db slug) _ (db', evs) e) [
      | found _ _ e1 ↦ elim (bind-eq-ok (insert_story db s) _ (db', evs) e1) [
        | found db2 put e2 ↦
            elim (guard-eq-ok (is_some (epic_status db.epics slug)) constraint _ db2 put) [
              | found _ _ p1 ↦ elim (guard-eq-ok (not (title == [])) constraint _ db2 p1) [
                | found _ _ p2 ↦
                    elim (guard-eq-ok (not (is_some (find_story db.stories slug s.id))) constraint _
                      db2 p2) [
                        | found _ _ p3 ↦
                            let same : (record db { stories = db.stories ++ (s ∷ []) }) ≡ db' =
                              ok-injective p3 ∙ ap (λ r. r.0) (ok-injective e2) in
                            subst (Effect db) same (added s refl refl refl)
                      ]
              ]
            ]
      ]
    ]

plain_move-IsFair :
    (sources : List StoryStatus) (target : StoryStatus) (detail : Text)
    → is_done target ≡ false
    → any is_done sources ≡ false
    → IsFair (plain_move sources target detail)
plain_move-IsFair sources target detail h k = record {
  silent_open = λ n. h;
  agreeing = λ st e. cc;
  proven = λ z. cc;
  open_sources = k;
}

said : (a b : State) → ◌≡◌ {A = Option State} (some a) (some b) → is_done_state b ≡ is_done_state a
said a b e = let k : a ≡ b = cc in ap is_done_state (sym k)

not_empty : (commits gate : Text) → not (commits == [] || gate == []) ≡ true → commits ≢ []
not_empty [] gate h = unfold text_beq in cc
not_empty (c ∷ s) gate h = λ z. cc

-- What a verb that succeeds did to the stories and to the ledger.
pub run-Effect :
    (date : Text) (c : Command) (db db' : Store) → run date c db ≡ ok db' → Effect db db'
unfolding run story_add story_ready_verb story_start story_block story_unblock story_done_verb
    story_dissolve
run-Effect date (add slug title) db db' e = elim (guard-eq-ok (not (title == [])) usage _ db' e) [
  | found _ _ e1 ↦ elim (bind-eq-ok (validate_text title) _ db' e1) [
    | found _ _ e2 ↦ write-Effect db db' (add_in_tx slug title) (add_in_tx-Effect slug title db) e2
  ]
]
run-Effect date (ready slug sid) db db' e =
    write-Effect db db' _
      (λ db1 evs. move_story-Effect date slug sid _ db db1 evs (plain_move-IsFair _ _ _ refl refl))
      e
run-Effect date (start slug sid) db db' e =
    write-Effect db db' (start_in_tx date slug sid) (start_in_tx-Effect date slug sid db) e
run-Effect date (block slug sid reason) db db' e =
    elim (guard-eq-ok (not (reason == [])) usage _ db' e) [
      | found _ _ e1 ↦ elim (bind-eq-ok (validate_text reason) _ db' e1) [
        | found _ _ e2 ↦
            write-Effect db db' _
              (λ db1 evs. move_story-Effect date slug sid _ db db1 evs (record {
                silent_open = λ n. refl;
                agreeing = said blocked_on_owner;
                proven = λ z. cc;
                open_sources = refl;
              }))
              e2
      ]
    ]
run-Effect date (unblock slug sid resolution) db db' e =
    elim (guard-eq-ok (not (resolution == [])) usage _ db' e) [
      | found _ _ e1 ↦ elim (bind-eq-ok (validate_text resolution) _ db' e1) [
        | found _ _ e2 ↦
            write-Effect db db' _
              (λ db1 evs.
                move_story-Effect date slug sid _ db db1 evs (plain_move-IsFair _ _ _ refl refl))
              e2
      ]
    ]
run-Effect date (dissolve slug sid why) db db' e =
    elim (guard-eq-ok (not (why == [])) usage _ db' e) [
      | found _ _ e1 ↦ elim (bind-eq-ok (validate_text why) _ db' e1) [
        | found _ _ e2 ↦
            write-Effect db db' _
              (λ db1 evs. move_story-Effect date slug sid _ db db1 evs (record {
                silent_open = λ n. refl;
                agreeing = said dissolved;
                proven = λ z. cc;
                open_sources = refl;
              }))
              e2
      ]
    ]
run-Effect date (finish slug sid commits gate review) db db' e =
    elim (guard-eq-ok (not (commits == [] || gate == [])) usage _ db' e) [
      | found _ given e1 ↦
          elim (bind-eq-ok (validate_texts (commits ∷ gate ∷ review ∷ [])) _ db' e1) [
            | found _ _ e2 ↦
                write-Effect db db' _
                  (λ db1 evs. move_story-Effect date slug sid _ db db1 evs (record {
                    silent_open = λ n. cc;
                    agreeing = said done;
                    proven = λ z. not_empty commits gate given;
                    open_sources = refl;
                  }))
                  e2
          ]
    ]
