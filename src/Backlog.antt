-- ===== src/Backlog.antt =====
-- The commands of internal/verb/tasks.go and internal/verb/relations.go that write, as steps on the database.
pub mod Sound
pub mod Tables
pub mod Status
pub mod Edits
pub mod Transition
pub mod Board
pub mod Refines
pub mod Refinement
pub mod Steps
mod Tests
use selftracked.Common.{
  ℕ, ◌≡◌, Bool, true, false, ◌&&◌, List, Option, none, some, is_some, ◌==◌, Result, ok,
}
use selftracked.Common.Int.{ℤ}
use selftracked.Common.Text.{Text, codes, text_eq}
use selftracked.Store.{Task, Store, Refusal, find_task}
use selftracked.Tasks.Lifecycle.{
  task_id, create, set_status, reopen, park, unpark, is_duplicate_text,
}
use selftracked.Tasks.Edit.{EditFields, edit}
use selftracked.Relations.{rel_add, rel_rm}

-- A verb with its arguments.
pub data Command : Type 0 where
  creating : Text → Text → Text → Text → Bool → Command
  setting : Text → Text → Text → ℤ → Command
  reopening : Text → Text → Command
  parking : Text → Text → Command
  unparking : Text → Command
  editing : Text → EditFields → Command
  relating : Text → Text → Text → Text → Command
  unrelating : Text → Text → Text → Command

-- A command at a time.
unfoldable pub run : Text → Command → Store → Result Refusal Store
run stamp (creating title status note epic label) db = create stamp title status note epic label db
run stamp (setting token target note dup_of) db = set_status stamp token target note dup_of db
run stamp (reopening token why) db = reopen stamp token why db
run stamp (parking token why) db = park stamp token why db
run stamp (unparking token) db = unpark stamp token db
run stamp (editing token fields) db = edit stamp token fields db
run stamp (relating from type to note) db = rel_add from type to note db
run stamp (unrelating from type to) db = rel_rm from type to db

abbrev has_dup_of : Option Task → Bool
has_dup_of none = false
has_dup_of (some t) = is_some t.dup_of

abbrev marks_again : Store → Result Refusal ℕ → Text → Bool
marks_again db (ok id) target = is_duplicate_text target && has_dup_of (find_task db.tasks id)
marks_again db _ target = false

-- The command marks a task that is a duplicate as a duplicate again.
unfoldable pub is_remark : Store → Command → Bool
is_remark db (setting token target note dup_of) = marks_again db (task_id token) target
is_remark db _ = false

-- The databases that commands lead to, no task being marked as a duplicate twice.
pub data Leads (db : Store) : Store → Type 0 where
  stay : Leads db db
  step :
      (mid after : Store) (stamp : Text) (command : Command)
      → Leads db mid
      → is_remark mid command ≡ false
      → run stamp command mid ≡ ok after
      → Leads db after
