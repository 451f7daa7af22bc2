-- ===== src/Epics/Tests.antt =====
-- Runs of the theorems on internal/verb/epics.go at an epic of two stories.
use selftracked.Common.{ℕ, ◌≡◌, refl, true, false, List, [], ◌∷◌, ◌++◌, none, some, ok, err}
use selftracked.Common.Text.{Text, codes, text_beq, split, cut}
use selftracked.Decimal.{format_nat, digits}
use selftracked.Ref.{epic_entity}
use selftracked.Store.{
  empty_store, new_epic, new_story, Store, Story, Episode, Criterion, Event, criteria_failed,
  epic_active, epic_closed, story_done, done, epic_status, find_epic, replace_epic, update_epic,
  close_gate, epic_checks, find_criterion, replace_criterion, update_criterion, criterion_checks,
}
use selftracked.Rules.{is_proof, is_story_id}
use selftracked.Stories.{write}
use selftracked.Epics.Blockers.{
  Shell, select, sort_by, insert_by, text_leb, in_epic, is_live, is_live_end, is_homed, is_unproven,
  last_seq, story_conditions, close_blockers, run_criteria, run_loop, run_one, execute_criterion,
  evidence_of, runnable_command, load_criteria, is_criterion_of, first_line,
}
use selftracked.Epics.Verbs.{
  slug_ok, closable_status, close_in_tx, epic_close, epic_event, check_in_tx, criteria_check,
}
use selftracked.Epics.Close.{IsReady, IsClosed, epic_close-IsReady}
use selftracked.Epics.Slugs.{all_words, slug_ok-split}
use selftracked.Epics.Checks.{criteria_check-terminal}
use selftracked.Epics.Legal.{closing, MovesLegally, run}
use selftracked.Epics.Moves.{run-MovesLegally}

abbrev slug : Text
slug = codes "api"

abbrev finished : Text → Story
finished id = record (new_story slug id (codes "t")) { status = story_done }

abbrev proof : ℕ → Text → Episode
proof n id = record {
  epic = slug;
  seq = n;
  story = id;
  date = codes "d";
  state = done;
  commits = codes "abc";
  gate = codes "ci";
  review = [];
  corrects = none;
  note = [];
}

abbrev check : Criterion
check = record { epic = slug; seq = 1; criterion = codes "$ make"; met = false; evidence = [] }

abbrev running : Store
running = record empty_store {
  epics = (record (new_epic slug (codes "goal") (codes "d")) { status = epic_active }) ∷ [];
  criteria = check ∷ [];
  stories = finished (codes "S1") ∷ finished (codes "S2") ∷ [];
  worklog = proof 1 (codes "S1") ∷ proof 2 (codes "S2") ∷ [];
}

abbrev closed : Store
closed = record running {
  epics =
      (record (new_epic slug (codes "goal") (codes "d")) {
        status = epic_closed;
        close_sweep = codes "e";
      })
      ∷ [];
  criteria = (record check { met = true; evidence = codes "PASS make @ e" }) ∷ [];
  events =
      record { entity = codes "epic:api"; event = codes "epic"; detail = codes "close: e" } ∷ [];
}

-- A shell in which every command ends without an error.
abbrev calm : Shell
calm command = ([], none)

is_closed_now : epic_close calm (codes "e") (codes "e") slug running ≡ ok closed
unfolding epic_close write close_in_tx closable_status epic_status close_blockers run_criteria
    load_criteria is_criterion_of select sort_by insert_by run_loop run_one execute_criterion
    evidence_of runnable_command update_criterion find_criterion replace_criterion criterion_checks
    story_conditions in_epic is_live is_live_end last_seq is_story_id is_proof is_homed is_unproven
    text_leb text_beq update_epic find_epic replace_epic epic_checks epic_event epic_entity
    close_gate
is_closed_now = refl

epic_close-IsReady_example : IsReady calm running slug × IsClosed closed slug
epic_close-IsReady_example =
    epic_close-IsReady calm (codes "e") (codes "e") slug running closed is_closed_now

run-closing : run calm (codes "e") (closing slug) running ≡ ok closed
unfolding run
run-closing = is_closed_now

run-MovesLegally_example : MovesLegally running.epics closed.epics
run-MovesLegally_example =
    run-MovesLegally calm (codes "e") (closing slug) running closed run-closing

slug_ok-split_example :
    slug_ok (codes "import-dates2") ≡ all_words (split (codes "import-dates2") b'-')
slug_ok-split_example = slug_ok-split (codes "import-dates2")

-- A shell in which every command fails.
abbrev broken : Shell
broken command = (codes "boom", some (codes "exit status 1"))

abbrev checked : Store
checked = record closed {
  events =
      closed.events
      ++ (record {
        entity = codes "epic:api";
        event = codes "criteria";
        detail = codes "check: 1 line(s), failed=true";
      }
          ∷ []);
}

is_checked : criteria_check broken (codes "f") slug closed ≡ ok (checked, err criteria_failed)
unfolding criteria_check check_in_tx epic_status run_criteria load_criteria is_criterion_of select
    sort_by insert_by run_loop run_one execute_criterion first_line cut evidence_of runnable_command
    text_beq epic_event epic_entity format_nat digits
is_checked = refl

still_closed : epic_status closed.epics slug ≡ some epic_closed
unfolding epic_status text_beq
still_closed = refl

criteria_check-terminal_example :
    (evs : List Event) × (checked ≡ record closed { events = closed.events ++ evs })
criteria_check-terminal_example =
    criteria_check-terminal broken (codes "f") slug closed checked (err criteria_failed) epic_closed
      still_closed refl is_checked
