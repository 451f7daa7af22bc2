-- ===== src/Stories/Tests.antt =====
-- Runs of the theorems on internal/verb/stories.go at an epic with one story in progress.
use selftracked.Common.{
  some, false, ◌≡◌, refl, arith, ok, none, [], ◌∷◌, Bool-cases, inl, inr, ◌==◌,
}
use selftracked.Common.Text.{Text, codes, text_beq, text_eq}
use selftracked.Ref.{story_entity}
use selftracked.Store.{
  new_story, new_epic, empty_store, story_in_slot, story_ready, Store, Story, Episode,
  story_in_progress, story_done, epic_active, in_progress, done, epic_status, find_story, max_seq,
  update_story, replace_story, wip_count, insert_episode,
}
use selftracked.Stories.{
  story_start, validate_text, validate_texts, write, move_story, append_move, append_worklog,
  refuse_terminal_epic_except, story_done_verb, story_event,
}
use selftracked.Stories.Commands.{Command, finish, run}
use selftracked.Stories.Slot.{OneSlot, run-OneSlot}
use selftracked.Stories.Episodes.{AllNumbered, run-AllNumbered}
use selftracked.Stories.Offer.{story_to_offer, first_of, story_to_offer-free}
use selftracked.Stories.Progress.{started_store, story_start-progress}
use selftracked.Stories.Terminal.{IsOpen, run-IsOpen}

abbrev slug : Text
slug = codes "api"

abbrev begun : Story
begun = record (new_story slug (codes "S1") (codes "first")) { status = story_in_progress }

abbrev opening : Episode
opening = record {
  epic = slug;
  seq = 1;
  story = codes "S1";
  date = codes "2026-01-01";
  state = in_progress;
  commits = [];
  gate = [];
  review = [];
  corrects = none;
  note = [];
}

abbrev pub before : Store
before = record empty_store {
  epics =
      (record (new_epic slug (codes "goal") (codes "2026-01-01")) { status = epic_active }) ∷ [];
  stories = begun ∷ [];
  worklog = opening ∷ [];
}

abbrev pub command : Command
command = finish slug (codes "S1") (codes "abc") (codes "ci") []

abbrev pub after : Store
after = record before {
  stories = (record begun { status = story_done }) ∷ [];
  worklog =
      opening
      ∷ (record opening {
        seq = 2;
        date = codes "2026-01-02";
        state = done;
        commits = codes "abc";
        gate = codes "ci";
      })
      ∷ [];
  events =
      record {
        entity = codes "epic:api/S1";
        event = codes "story";
        detail = codes "done: abc; gate: ci";
      }
      ∷ [];
}

pub finished : run (codes "2026-01-02") command before ≡ ok after
unfolding run story_done_verb validate_texts validate_text write move_story
    refuse_terminal_epic_except epic_status find_story update_story replace_story wip_count
    append_move append_worklog insert_episode max_seq story_event story_entity text_beq
finished = refl

one_slot : OneSlot before.stories
unfolding wip_count
one_slot epic = elim (Bool-cases (slug == epic)) [
  | inl e ↦ rw e (omega arith)
  | inr e ↦ rw e (omega arith)
]

run-OneSlot_example : OneSlot after.stories
run-OneSlot_example = run-OneSlot (codes "2026-01-02") command before after one_slot finished

numbered : AllNumbered before.worklog
numbered epic = (λ q. (refl, tt), λ q. tt)

run-AllNumbered_example : AllNumbered after.worklog
run-AllNumbered_example =
    run-AllNumbered (codes "2026-01-02") command before after numbered finished

run-IsOpen_example : IsOpen before slug false
run-IsOpen_example = run-IsOpen (codes "2026-01-02") command before after finished

abbrev waiting : Store
waiting = record before { stories = (record begun { status = story_ready }) ∷ [] }

no_story_runs : story_in_slot waiting.stories slug ≡ none
unfolding story_in_slot text_beq
no_story_runs = refl

ready_found :
    find_story waiting.stories slug (codes "S1") ≡ some (record begun { status = story_ready })
unfolding find_story text_beq
ready_found = refl

epic_found : epic_status waiting.epics slug ≡ some epic_active
unfolding epic_status text_beq
epic_found = refl

story_start-progress_example :
    story_start (codes "2026-01-01") slug (codes "S1") waiting
    ≡ ok (started_store (codes "2026-01-01") slug (codes "S1") waiting)
story_start-progress_example =
    story_start-progress (codes "2026-01-01") slug (codes "S1") waiting epic_active
      (record begun { status = story_ready }) epic_found refl no_story_runs ready_found refl refl

abbrev second : Story
second = record begun { id = codes "S2"; status = story_ready }

second_offered :
    story_to_offer ((record begun { status = story_done }) ∷ second ∷ []) slug ≡ some second
unfolding story_to_offer first_of text_beq
second_offered = refl

story_to_offer-free_example :
    story_in_slot ((record begun { status = story_done }) ∷ second ∷ []) slug ≡ none
story_to_offer-free_example =
    story_to_offer-free ((record begun { status = story_done }) ∷ second ∷ []) slug second
      second_offered refl
