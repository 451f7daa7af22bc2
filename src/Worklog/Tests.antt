-- ===== src/Worklog/Tests.antt =====
-- Runs of the theorems on internal/verb/worklog.go at a closed epic.
use selftracked.Common.{◌≡◌, refl, ok, none, [], ◌∷◌}
use selftracked.Common.Int.{pos}
use selftracked.Common.Text.{codes, text_beq, cut_prefix}
use selftracked.Ref.{epic_entity}
use selftracked.Store.{
  new_epic, empty_store, Store, epic_closed, done, epic_status, max_seq, insert_episode,
}
use selftracked.Stories.{validate_text, validate_texts, write}
use selftracked.Stories.Episodes.{AllNumbered}
use selftracked.Worklog.{
  worklog_add, worklog_in_tx, validate_form, require_closed_epic, is_v, state_of,
}
use selftracked.Worklog.Episodes.{IsAppended, worklog_add-IsAppended, worklog_add-AllNumbered}

abbrev shut : Store
shut = record empty_store {
  epics =
      (record (new_epic (codes "api") (codes "goal") (codes "d")) { status = epic_closed }) ∷ [];
}

abbrev checked : Store
checked = record shut {
  worklog =
      record {
        epic = codes "api";
        seq = 1;
        story = codes "V-1";
        date = codes "d";
        state = done;
        commits = [];
        gate = [];
        review = [];
        corrects = none;
        note = [];
      }
      ∷ [];
  events =
      record { entity = codes "epic:api"; event = codes "worklog"; detail = codes "V-row V-1 DONE" }
      ∷ [];
}

was_added :
    worklog_add (codes "d") (codes "api") (codes "V-1") (codes "DONE") [] [] [] [] (pos 0) shut
    ≡ ok checked
unfolding worklog_add validate_texts validate_text write worklog_in_tx validate_form
    require_closed_epic is_v cut_prefix state_of epic_status insert_episode max_seq epic_entity
    text_beq
was_added = refl

worklog_add-IsAppended_example :
    IsAppended
      (codes "d")
      (codes "api")
      (codes "V-1")
      (codes "DONE")
      []
      []
      []
      []
      (pos 0)
      shut
      checked
worklog_add-IsAppended_example =
    worklog_add-IsAppended (codes "d") (codes "api") (codes "V-1") (codes "DONE") [] [] [] []
      (pos 0) shut checked was_added

none_yet : AllNumbered shut.worklog
none_yet epic = tt

worklog_add-AllNumbered_example : AllNumbered checked.worklog
worklog_add-AllNumbered_example =
    worklog_add-AllNumbered (codes "d") (codes "api") (codes "V-1") (codes "DONE") [] [] [] []
      (pos 0) shut checked none_yet was_added
