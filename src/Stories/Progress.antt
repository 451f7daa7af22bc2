-- ===== src/Stories/Progress.antt =====
-- When `story start` of internal/verb/stories.go succeeds.
use selftracked.Common.{
  ℕ, suc, ◌+◌, ◌≡◌, ◌≤◌, refl, sym, ◌∙◌, Bool, true, false, ◌&&◌, List, [], ◌∷◌, ◌++◌, some, none,
  nat_beq, nat_beq_iff, leb, ◌==◌, if◌then◌else◌, ok, arith, Bool-cases, inl, inr,
}
use selftracked.Common.Text.{Text, text_eq, text_beq, text_beq_refl, codes}
use selftracked.Store.{
  story_ready, story_in_progress, EpicStatus, Story, Store, is_in_progress, legal_story_move,
  epic_status, find_story, story_in_slot, max_seq, wip_count, replace_story, update_story,
  insert_episode, in_progress, at_key,
}
use selftracked.Stories.{
  is_terminal, refuse_terminal_epic, refuse_terminal_epic_except, append_worklog, start_in_tx,
  story_start, story_event, write,
}
use selftracked.Stories.Rows.{find_story-key}

-- A slot that the lookup finds free is free.
wip_count-free :
    (rows : List Story) (epic : Text) → story_in_slot rows epic ≡ none → wip_count rows epic ≡ 0
unfolding story_in_slot wip_count
wip_count-free [] epic h = refl
wip_count-free (s ∷ rows) epic h = elim (Bool-cases (s.epic == epic && is_in_progress s.status)) [
  | inl e ↦ let k : story_in_slot (s ∷ rows) epic ≡ some s.id = rw e refl in cc
  | inr e ↦
      let k : story_in_slot (s ∷ rows) epic ≡ story_in_slot rows epic = rw e refl in
      rw e (wip_count-free rows epic (sym k ∙ h))
]

two : (a b : Bool) (n : ℕ) → (if a then suc n else n) ≤ suc (if b then suc n else n)
two true true n = omega arith
two true false n = omega arith
two false true n = omega arith
two false false n = omega arith

more : (a : Bool) (m n : ℕ) → m ≤ suc n → (if a then suc m else m) ≤ suc (if a then suc n else n)
more true m n h = omega arith
more false m n h = omega arith

-- One row replaced is one row in progress more at most.
wip_count-step :
    (rows : List Story) (slug sid : Text) (f : Story → Story) (epic : Text)
    → wip_count (replace_story rows slug sid f) epic ≤ suc (wip_count rows epic)
unfolding wip_count replace_story
wip_count-step [] slug sid f epic = omega arith
wip_count-step (s ∷ rows) slug sid f epic = elim (Bool-cases (at_key slug sid s)) [
  | inl e ↦ rw e (
      two ((f s).epic == epic && is_in_progress (f s).status)
        (s.epic == epic && is_in_progress s.status) (wip_count rows epic))
  | inr e ↦ rw e (
      more (s.epic == epic && is_in_progress s.status) _ (wip_count rows epic)
        (wip_count-step rows slug sid f epic))
]

started : Story → Story
started r = record r { status = story_in_progress }

update_story-started :
    (rows : List Story) (slug sid : Text) (s : Story)
    → find_story rows slug sid ≡ some s
    → s.status ≡ story_ready
    → s.blocked ≡ []
    → story_in_slot rows slug ≡ none
    → update_story rows slug sid started ≡ ok (replace_story rows slug sid started)
unfolding update_story started
update_story-started rows slug sid s hit ready clear free =
    let own : s.epic ≡ slug = (find_story-key rows slug sid s hit).0 in
    let one : leb (wip_count (replace_story rows slug sid started) s.epic) 1 ≡ true =
      (let a = wip_count-step rows slug sid started s.epic in
        let b : wip_count rows s.epic ≡ 0 = rw own (wip_count-free rows slug free) in
        ground arith) in
    let move : legal_story_move s.status story_in_progress ≡ true = rw ready refl in
    let empty : text_beq s.blocked [] ≡ true = rw clear (text_beq_refl []) in
    rw (hit, update_story) (rw (move, empty, one) refl)

-- The store after a story was started.
unfoldable pub started_store : Text → Text → Text → Store → Store
unfolding started
started_store date slug sid db = record db {
  stories = replace_story db.stories slug sid started;
  worklog =
      db.worklog
      ++ (record {
        epic = slug;
        seq = max_seq db.worklog slug + 1;
        story = sid;
        date = date;
        state = in_progress;
        commits = [];
        gate = [];
        review = [];
        corrects = none;
        note = [];
      }
          ∷ []);
  events = db.events ++ (story_event slug sid (codes "start") ∷ []);
}

-- A READY story without a block can be started, if its epic is there and not terminal and has no
-- story in progress: neither a trigger nor a constraint of the schema refuses it, and the new store
-- is the old one with the story IN-PROGRESS, an episode at the end of the ledger and an event.
pub story_start-progress :
    (date slug sid : Text) (db : Store) (st : EpicStatus) (s : Story)
    → epic_status db.epics slug ≡ some st
    → is_terminal st ≡ false
    → story_in_slot db.stories slug ≡ none
    → find_story db.stories slug sid ≡ some s
    → s.status ≡ story_ready
    → s.blocked ≡ []
    → story_start date slug sid db ≡ ok (started_store date slug sid db)
unfolding story_start write start_in_tx refuse_terminal_epic refuse_terminal_epic_except
    append_worklog insert_episode started_store
story_start-progress date slug sid db st s there nonterminal free hit ready clear =
    let same : nat_beq (max_seq db.worklog slug + 1) (max_seq db.worklog slug + 1) ≡ true =
      (nat_beq_iff _ _).1 refl in
    rw there (
      rw nonterminal (
        rw free (
          rw (update_story-started db.stories slug sid s hit ready clear free)
            (rw hit (rw same refl)))))
