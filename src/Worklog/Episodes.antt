-- ===== src/Worklog/Episodes.antt =====
-- The ledger under `worklog add` of internal/verb/worklog.go.
use selftracked.Common.{
  ◌≡◌, refl, sym, ap, subst, ◌∙◌, not, ◌||◌, [], ◌∷◌, ◌++◌, ok, ◌+◌, found, bind-eq-ok,
  or_err-eq-ok, guard-eq-ok, ok-injective, ◌==◌, All, List, is_some, nat_beq, if◌then◌else◌,
}
use selftracked.Common.Int.{ℤ}
use selftracked.Common.Text.{Text, codes, text_eq}
use selftracked.Ref.{epic_entity, story_entity}
use selftracked.Store.{
  Episode, Event, Store, epic_status, constraint, usage, max_seq, insert_episode,
}
use selftracked.Stories.{validate_texts, write}
use selftracked.Stories.Episodes.{AllNumbered, numbered-next}
use selftracked.Worklog.Forms.{
  IsFormed, validate_form-IsFormed, state_text-state_of, IsPlain, validate_texts-IsPlain,
}
use selftracked.Worklog.{
  state_text, describe_add, worklog_add, worklog_in_tx, validate_form, is_v, state_of,
}

-- What `worklog add` does to the store: one episode more, with the next number of the epic and what was asked for, in
-- a form that may be added, and its event.
pub record IsAppended (date slug story state commits gate review note : Text) (corrects : ℤ)
    (db db' : Store) : Type 0 where
  pub row : Episode
  pub event : Event
  pub grown : db'.worklog ≡ db.worklog ++ (row ∷ [])
  pub logged : db'.events ≡ db.events ++ (event ∷ [])
  pub about :
      (event.event ≡ codes "worklog")
      × (event.entity ≡ (if is_v story then epic_entity slug else story_entity slug story))
  pub epic_eq : row.epic ≡ slug
  pub next : row.seq ≡ max_seq db.worklog slug + 1
  pub story_eq : row.story ≡ story
  pub worded : state_text row.state ≡ state
  pub form : IsFormed db slug story state corrects row.corrects
  pub told :
      (row.date ≡ date)
      × (row.commits ≡ commits)
      × (row.gate ≡ gate)
      × (row.review ≡ review)
      × (row.note ≡ note)
  pub plain : All IsPlain (slug ∷ story ∷ state ∷ commits ∷ gate ∷ review ∷ note ∷ [])
  pub stories_kept : db'.stories ≡ db.stories
  pub epics_kept : db'.epics ≡ db.epics
  pub tasks_kept : db'.tasks ≡ db.tasks
  pub links_kept : db'.links ≡ db.links

insert_episode-rest :
    (db : Store) (w : Episode) (db' : Store)
    → insert_episode db w ≡ ok db'
    → record db { worklog = db.worklog ++ (w ∷ []) } ≡ db'
unfolding insert_episode
insert_episode-rest db w db' e =
    elim (guard-eq-ok (is_some (epic_status db.epics w.epic)) constraint _ db' e) [
      | found _ _ e1 ↦
          elim (guard-eq-ok (nat_beq w.seq (max_seq db.worklog w.epic + 1)) constraint _ db' e1) [
            | found _ _ e2 ↦ ok-injective e2
          ]
    ]

module _ (date slug story state commits gate review note : Text) (corrects : ℤ) (db : Store) where
  in_tx-IsAppended :
      (db1 : Store) (evs : List Event)
      → All IsPlain (slug ∷ story ∷ state ∷ commits ∷ gate ∷ review ∷ note ∷ [])
      → worklog_in_tx date slug story state commits gate review note corrects db ≡ ok (db1, evs)
      → IsAppended date slug story state commits gate review note corrects db
          (record db1 { events = db1.events ++ evs })
  unfolding worklog_in_tx
  in_tx-IsAppended db1 evs plain e =
      elim (bind-eq-ok (validate_form db slug story state corrects (is_v story)) _ (db1, evs) e) [
        | found c form e1 ↦ elim (or_err-eq-ok (state_of state) constraint _ (db1, evs) e1) [
          | found st p e2 ↦
              let w : Episode = record {
                epic = slug;
                seq = max_seq db.worklog slug + 1;
                story = story;
                date = date;
                state = st;
                commits = commits;
                gate = gate;
                review = review;
                corrects = c;
                note = note;
              } in
              elim (bind-eq-ok (insert_episode db w) _ (db1, evs) e2) [
                | found db2 put e3 ↦
                    let ev : Event = record {
                      entity = if is_v story then epic_entity slug else story_entity slug story;
                      event = codes "worklog";
                      detail = describe_add story state corrects;
                    } in
                    subst
                      (λ (z : Store × List Event).
                        IsAppended date slug story state commits gate review note corrects db
                          (record z.0 { events = z.0.events ++ z.1 }))
                      (ap (λ y. (y, ev ∷ [])) (insert_episode-rest db w db2 put) ∙ ok-injective e3)
                      (record {
                        row = w;
                        event = ev;
                        grown = refl;
                        logged = refl;
                        about = (refl, refl);
                        epic_eq = refl;
                        next = refl;
                        story_eq = refl;
                        worded = state_text-state_of state st p;
                        form = validate_form-IsFormed db slug story state corrects c form;
                        told = (refl, refl, refl, refl, refl);
                        plain = plain;
                        stories_kept = refl;
                        epics_kept = refl;
                        tasks_kept = refl;
                        links_kept = refl;
                      })
              ]
        ]
      ]

-- A `worklog add` that succeeds was given texts without control characters, a state that the CHECK
-- knows, and either a story with a name that begins with V-, no row to correct and an epic that is
-- CLOSED, or another story and the number of a row of the epic that corrects none and has the same
-- story and state. It appends one episode to the ledger, with the next number of the epic, the
-- story, the state, the texts and the corrected row that were asked for, and one event, on the epic
-- or on the story, and changes no story, epic, task or link.
pub worklog_add-IsAppended :
    (date slug story state commits gate review note : Text) (corrects : ℤ) (db db' : Store)
    → worklog_add date slug story state commits gate review note corrects db ≡ ok db'
    → IsAppended date slug story state commits gate review note corrects db db'
unfolding worklog_add write
worklog_add-IsAppended date slug story state commits gate review note corrects db db' e =
    let texts = slug ∷ story ∷ state ∷ commits ∷ gate ∷ review ∷ note ∷ [] in
    let mutate = worklog_in_tx date slug story state commits gate review note corrects in
    elim (guard-eq-ok (not (story == [] || state == [])) usage _ db' e) [
      | found _ _ e1 ↦ elim (bind-eq-ok (validate_texts texts) _ db' e1) [
        | found u clean e2 ↦ elim (bind-eq-ok (mutate db) _ db' e2) [
          | found (db1, evs) mutated e3 ↦
              subst (IsAppended date slug story state commits gate review note corrects db)
                (ok-injective e3)
                (in_tx-IsAppended date slug story state commits gate review note corrects db db1 evs
                  (validate_texts-IsPlain texts u clean) mutated)
        ]
      ]
    ]

-- If the episodes of each epic are numbered from 1 without a gap, then they are after a `worklog
-- add` that succeeds.
pub worklog_add-AllNumbered :
    (date slug story state commits gate review note : Text) (corrects : ℤ) (db db' : Store)
    → AllNumbered db.worklog
    → worklog_add date slug story state commits gate review note corrects db ≡ ok db'
    → AllNumbered db'.worklog
worklog_add-AllNumbered date slug story state commits gate review note corrects db db' h e =
    let a =
      worklog_add-IsAppended date slug story state commits gate review note corrects db db' e in
    subst AllNumbered (sym a.grown) (
      numbered-next db.worklog a.row (a.next ∙ ap (λ z. max_seq db.worklog z + 1) (sym a.epic_eq))
        h)
