-- ===== src/Rules/Tests.antt =====
-- Runs of the theorems on internal/rules/rules.go at small databases.
use selftracked.Common.{◌≡◌, refl, ok, none, [], ◌∷◌, true}
use selftracked.Common.Int.{pos}
use selftracked.Common.Text.{Text, codes, text_beq, cut_prefix}
use selftracked.Ref.{epic_entity}
use selftracked.Store.{
  new_epic, empty_store, Store, Episode, epic_closed, done, epic_status, find_story, max_seq,
  insert_episode,
}
use selftracked.Stories.{validate_text, validate_texts, write}
use selftracked.Stories.Tests.{before, after, command, finished}
use selftracked.Worklog.{
  worklog_add, worklog_in_tx, validate_form, require_closed_epic, is_v, state_of,
}
use selftracked.Rules.{
  no_such_story, is_v_row, has_closed, collect, is_homeless, is_early, dangles, is_dangling, r4,
  is_story_id, is_proof, r6_stories, r6_rows, r6,
}
use selftracked.Rules.Ledger.{r6-run}
use selftracked.Rules.Forms.{r4-worklog_add}

before_clean : r6 before ≡ []
unfolding r6 r6_stories r6_rows is_proof is_story_id text_beq
before_clean = refl

r6-run_example : r6 after ≡ []
r6-run_example = r6-run (codes "2026-01-02") command before after before_clean finished

abbrev closed : Store
closed = record empty_store {
  epics =
      (record (new_epic (codes "api") (codes "goal") (codes "d")) { status = epic_closed }) ∷ [];
}

abbrev v_row : Text → Episode
v_row name = record {
  epic = codes "api";
  seq = 1;
  story = name;
  date = codes "d";
  state = done;
  commits = [];
  gate = [];
  review = [];
  corrects = none;
  note = [];
}

abbrev validated : Text → Store
validated name = record closed {
  worklog = v_row name ∷ [];
  events =
      record { entity = codes "epic:api"; event = codes "worklog"; detail = codes "V-row V-1 DONE" }
      ∷ [];
}

added :
    worklog_add (codes "d") (codes "api") (codes "V-1") (codes "DONE") [] [] [] [] (pos 0) closed
    ≡ ok (validated (codes "V-1"))
unfolding worklog_add validate_texts validate_text write worklog_in_tx validate_form
    require_closed_epic is_v cut_prefix state_of epic_status insert_episode max_seq epic_entity
    text_beq
added = refl

closed_clean : r4 closed ≡ []
unfolding r4 collect
closed_clean = refl

named : is_v (codes "V-1") ≡ true → is_v_row (codes "V-1") ≡ true
unfolding is_v_row
named h = refl

r4-worklog_add_example : r4 (validated (codes "V-1")) ≡ []
r4-worklog_add_example =
    r4-worklog_add (codes "d") (codes "api") (codes "V-1") (codes "DONE") [] [] [] [] (pos 0) closed
      (validated (codes "V-1")) named closed_clean added

-- A name without a digit behind V- is accepted by the verb, and reported by the rule ever after.
v_without_digit :
    r4 (record (validated (codes "V-x")) {
      events =
          record {
            entity = codes "epic:api";
            event = codes "worklog";
            detail = codes "V-row V-x DONE";
          }
          ∷ [];
    })
    ≡ no_such_story (codes "api") 1 ∷ []
unfolding r4 collect is_homeless is_early is_dangling dangles is_v_row has_closed find_story
v_without_digit = refl

added_without_digit :
    worklog_add (codes "d") (codes "api") (codes "V-x") (codes "DONE") [] [] [] [] (pos 0) closed
    ≡ ok (record (validated (codes "V-x")) {
      events =
          record {
            entity = codes "epic:api";
            event = codes "worklog";
            detail = codes "V-row V-x DONE";
          }
          ∷ [];
    })
unfolding worklog_add validate_texts validate_text write worklog_in_tx validate_form
    require_closed_epic is_v cut_prefix state_of epic_status insert_episode max_seq epic_entity
    text_beq
added_without_digit = refl
