-- ===== src/Stories/Effects.antt =====
-- What a transition of internal/verb/stories.go does to the tables `stories` and `worklog`.
use selftracked.Common.{
  ◌+◌, ◌≡◌, ◌≢◌, refl, sym, ap, subst, ◌∙◌, true, false, not, ◌&&◌, List, [], ◌∷◌, ◌++◌, any, none,
  some, is_some, nat_beq, leb, ◌==◌, Result, ok, ◌>>◌, guard, arith, found, bind-eq-ok,
  or_err-eq-ok, guard-eq-ok, ok-injective, Option-cases, inl, inr,
}
use selftracked.Common.Text.{Text, text_eq}
use selftracked.Store.{
  StoryStatus, story_planned, State, Story, Episode, Event, Store, Refusal, is_done, is_done_state,
  same_story_status, legal_story_move, epic_status, find_story, max_seq, update_story,
  insert_episode, is_in_progress, constraint, wip_count, replace_story,
}
use selftracked.Stories.{Move, append_worklog, append_move, move_story, refuse_terminal_epic_except}

-- `w` is the next episode of the epic, an original one, for a story that now has the status `now`.
pub record IsNext (log : List Episode) (slug sid : Text) (now : StoryStatus) (w : Episode)
    : Type 0 where
  pub epic_eq : w.epic ≡ slug
  pub story_eq : w.story ≡ sid
  pub original : w.corrects ≡ none
  pub next : w.seq ≡ max_seq log slug + 1
  pub agrees : is_done_state w.state ≡ is_done now
  pub proven : is_done now ≡ true → w.commits ≢ []

pub data Logged (old : List Episode) (slug sid : Text) (now : StoryStatus) (log : List Episode)
    : Type 0 where
  silent : log ≡ old → is_done now ≡ false → Logged old slug sid now log
  episode :
      (w : Episode)
      → log ≡ old ++ (w ∷ [])
      → IsNext old slug sid now w
      → Logged old slug sid now log

-- The columns of the key stay.
pub record Keeps (f : Story → Story) : Type 0 where
  pub epic_kept : (s : Story) → (f s).epic ≡ s.epic
  pub id_kept : (s : Story) → (f s).id ≡ s.id

-- A story that is not done was moved, or a planned one was added.
pub data Effect (db db' : Store) : Type 0 where
  moved :
      (slug sid : Text) (s : Story) (f : Story → Story)
      → find_story db.stories slug sid ≡ some s
      → is_done s.status ≡ false
      → Keeps f
      → update_story db.stories slug sid f ≡ ok db'.stories
      → Logged db.worklog slug sid (f s).status db'.worklog
      → Effect db db'
  added :
      (s : Story)
      → s.status ≡ story_planned
      → db'.stories ≡ db.stories ++ (s ∷ [])
      → db'.worklog ≡ db.worklog
      → Effect db db'

-- An update of a row that is there, and that the engine let pass.
pub record IsUpdated (rows : List Story) (slug sid : Text) (f : Story → Story) (s : Story)
    (rows' : List Story) : Type 0 where
  pub legal : legal_story_move s.status (f s).status ≡ true
  pub unblocked : not (is_in_progress (f s).status && not ((f s).blocked == [])) ≡ true
  pub indexed : leb (wip_count (replace_story rows slug sid f) (f s).epic) 1 ≡ true
  pub replaced : rows' ≡ replace_story rows slug sid f

pub update_story-parts :
    (rows : List Story) (slug sid : Text) (f : Story → Story) (s : Story) (rows' : List Story)
    → find_story rows slug sid ≡ some s
    → update_story rows slug sid f ≡ ok rows'
    → IsUpdated rows slug sid f s rows'
unfolding update_story
update_story-parts rows slug sid f s rows' hit e =
    let body : Result Refusal (List Story) = (do
      guard (legal_story_move s.status (f s).status) constraint
      guard (not (is_in_progress (f s).status && not ((f s).blocked == []))) constraint
      guard (leb (wip_count (replace_story rows slug sid f) (f s).epic) 1) constraint
      ok (replace_story rows slug sid f)) in
    let opened : update_story rows slug sid f ≡ body = rw (hit, update_story) refl in
    elim (guard-eq-ok (legal_story_move s.status (f s).status) constraint _ rows'
      (sym opened ∙ e)) [
        | found _ p e1 ↦
            elim (guard-eq-ok (not (is_in_progress (f s).status && not ((f s).blocked == [])))
              constraint _ rows' e1) [
                | found _ q e2 ↦
                    elim (guard-eq-ok (leb (wip_count (replace_story rows slug sid f) (f s).epic) 1)
                      constraint _ rows' e2) [
                        | found _ r e3 ↦ record {
                          legal = p;
                          unblocked = q;
                          indexed = r;
                          replaced = sym (ok-injective e3);
                        }
                      ]
              ]
      ]

-- The parts of a mutation that succeeded.
pub insert_episode-parts :
    (db : Store) (w : Episode) (db' : Store)
    → insert_episode db w ≡ ok db'
    → (db'.stories ≡ db.stories) × (db'.worklog ≡ db.worklog ++ (w ∷ [])) × (db'.epics ≡ db.epics)
unfolding insert_episode
insert_episode-parts db w db' e =
    elim (guard-eq-ok (is_some (epic_status db.epics w.epic)) constraint _ db' e) [
      | found _ _ e1 ↦
          elim (guard-eq-ok (nat_beq w.seq (max_seq db.worklog w.epic + 1)) constraint _ db' e1) [
            | found _ _ e2 ↦ (
              sym (ap Store.stories (ok-injective e2)),
              sym (ap Store.worklog (ok-injective e2)),
              sym (ap Store.epics (ok-injective e2)),
            )
          ]
    ]

pub append_worklog-Logged :
    (db : Store) (date slug sid : Text) (state : State) (commits gate review note : Text)
    (now : StoryStatus) (db' : Store)
    → append_worklog db date slug sid state commits gate review note ≡ ok db'
    → is_done_state state ≡ is_done now
    → (is_done now ≡ true → commits ≢ [])
    → (db'.stories ≡ db.stories) × Logged db.worklog slug sid now db'.worklog
unfolding append_worklog
append_worklog-Logged db date slug sid state commits gate review note now db' e a p =
    let (k, l, _) = insert_episode-parts db _ db' e in
    (
      k,
      episode _ l (record {
        epic_eq = refl;
        story_eq = refl;
        original = refl;
        next = refl;
        agrees = a;
        proven = p;
      }),
    )

-- A move whose episode, if it has one, says of the story what its target says.
pub record IsFair (m : Move) : Type 0 where
  pub silent_open : m.worklog ≡ none → is_done m.target ≡ false
  pub agreeing : (state : State) → m.worklog ≡ some state → is_done_state state ≡ is_done m.target
  pub proven : is_done m.target ≡ true → m.commits ≢ []
  pub open_sources : any is_done m.sources ≡ false

append_move-Logged :
    (db : Store) (date slug sid : Text) (m : Move) (db' : Store)
    → IsFair m
    → append_move db date slug sid m ≡ ok db'
    → (db'.stories ≡ db.stories) × Logged db.worklog slug sid m.target db'.worklog
unfolding append_move
append_move-Logged db date slug sid m db' h e = elim (Option-cases m.worklog) [
  | inl n ↦
      let q : append_move db date slug sid m ≡ ok db = rw (n, append_move) refl in
      let r : db ≡ db' = cc in
      (sym (ap Store.stories r), silent (sym (ap Store.worklog r)) (h.silent_open n))
  | inr (st, n) ↦
      let q : append_move db date slug sid m
          ≡ append_worklog db date slug sid st m.commits m.gate m.review m.note =
        rw (n, append_move) refl in
      append_worklog-Logged db date slug sid st m.commits m.gate m.review m.note m.target db'
        (sym q ∙ e) (h.agreeing st n) h.proven
]

open_source :
    (st : StoryStatus) (sources : List StoryStatus)
    → any (same_story_status st) sources ≡ true
    → any is_done sources ≡ false
    → is_done st ≡ false
open_source st [] e h = cc
open_source st (x ∷ xs) e h = ground (arith, open_source st xs)

pub move_story-Effect :
    (date slug sid : Text) (m : Move) (db db' : Store) (evs : List Event)
    → IsFair m
    → move_story date slug sid m db ≡ ok (db', evs)
    → Effect db db'
unfolding move_story
move_story-Effect date slug sid m db db' evs h e =
    elim (bind-eq-ok (refuse_terminal_epic_except db slug m.closed_epic_repair) _ (db', evs) e) [
      | found _ _ e1 ↦ elim (or_err-eq-ok (find_story db.stories slug sid) _ _ (db', evs) e1) [
        | found s at e2 ↦
            elim (guard-eq-ok (any (same_story_status s.status) m.sources) _ _ (db', evs) e2) [
              | found _ from e3 ↦
                  elim (bind-eq-ok
                    (update_story db.stories slug sid
                      (λ r. record r { status = m.target; blocked = m.blocked }))
                    _ (db', evs) e3) [
                      | found rows to e4 ↦
                          elim (bind-eq-ok
                            (append_move (record db { stories = rows }) date slug sid m) _
                            (db', evs) e4) [
                              | found db2 log e5 ↦
                                  let same : (db2, _) ≡ (db', evs) = ok-injective e5 in
                                  let two : db2 ≡ db' = ap (λ r. r.0) same in
                                  let (kept, logged) =
                                    append_move-Logged (record db { stories = rows }) date slug sid
                                      m db2 h log in
                                  subst (Effect db) two (
                                    moved slug sid s
                                      (λ r. record r { status = m.target; blocked = m.blocked }) at
                                      (open_source s.status m.sources from h.open_sources)
                                      (record { epic_kept = λ r. refl; id_kept = λ r. refl })
                                      (to ∙ ap ok (sym kept)) logged)
                            ]
                    ]
            ]
      ]
    ]
