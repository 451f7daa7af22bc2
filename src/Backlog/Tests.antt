-- ===== src/Backlog/Tests.antt =====
-- Runs of the theorems on internal/verb/tasks.go at two tasks.
use selftracked.Common.{
  ◌≡◌, refl, arith, true, false, [], ◌∷◌, none, some, ok, ℕ, ◌≤◌, ◌<◌, ◌^◌, ◌++◌, Bool, All, length,
}
use selftracked.Common.Int.{pos}
use selftracked.Common.Text.{Text, codes, text_beq, join_with}
use selftracked.Ref.{task_ref}
use selftracked.Store.{
  empty_store, Store, Task, status_open, status_duplicate, rel_duplicates, LinkType, rel_depends,
  rel_supersedes, find_task, replace_task, update_task, update_task_status, insert_link,
  task_checks, task_keys, exit_noted,
}
use selftracked.Stories.{validate_text, write}
use selftracked.Tasks.Lifecycle.{
  task_id, task_status_of, scan_task, duplicate_target, canonical_of, is_canonical,
  set_status_in_tx, set_status, task_event, unpark,
}
use selftracked.Tasks.Edit.{edit_set, changes_of}
use selftracked.Tasks.Bounds.{length-edit_set}
use selftracked.Rules.{
  missing, no_dup_of, r7, r8, is_unlinked, unlinked_to, is_unpaired, is_chained, chained_to,
  is_paired, is_duplicate_row, collect,
}
use selftracked.Rules.Entities.{unpark-missing, parse-task}
use selftracked.Tasks.Rows.{Keyed}
use selftracked.Relations.Cycles.{Acyclic}
use selftracked.Backlog.{Command, setting, run, is_remark, Leads, stay, step}
use selftracked.Backlog.Tables.{IsSound}
use selftracked.Backlog.Transition.{IsTransition, set_status-IsTransition}
use selftracked.Backlog.Steps.{Leads-r7, Leads-Acyclic, Leads-Keyed}
use selftracked.Backlog.Board.{board, BoardStep}
use selftracked.Backlog.Refinement.{run-BoardStep}

abbrev row : ℕ → Task
row n = record {
  id = n;
  title = codes "t";
  status = status_open;
  status_note = [];
  parked = [];
  dup_of = none;
  epic = none;
  created_at = codes "d";
  updated_at = codes "d";
}

abbrev two : Store
two = record empty_store { tasks = row 1 ∷ row 2 ∷ row 3 ∷ []; tasks_high = 3 }

abbrev mark : Command
mark = setting (task_ref 1) (codes "DUPLICATE") [] (pos 2)

abbrev marked : Store
marked = record two {
  tasks =
      (record (row 1) { status = status_duplicate; dup_of = some 2; updated_at = codes "e" })
      ∷ row 2
      ∷ row 3
      ∷ [];
  links = record { from_task = 1; to_task = 2; type = rel_duplicates; note = [] } ∷ [];
  events = record { entity = task_ref 1; event = codes "set-status"; detail = [] } ∷ [];
}

named : (n : ℕ) → 0 < n → n < 2 ^ 63 → task_id (task_ref n) ≡ ok n
unfolding task_id
named n p q = rw (parse-task n p q) refl

one_named : task_id (task_ref 1) ≡ ok 1
one_named = named 1 (omega arith) (omega arith)

marking : set_status (codes "e") (task_ref 1) (codes "DUPLICATE") [] (pos 2) two ≡ ok marked
unfolding set_status validate_text write set_status_in_tx scan_task find_task duplicate_target
    canonical_of is_canonical task_status_of text_beq update_task_status exit_noted update_task
    task_checks task_keys replace_task insert_link task_event
marking = rw one_named refl

run-mark : run (codes "e") mark two ≡ ok marked
unfolding run
run-mark = marking

run-BoardStep_example : BoardStep (board two.tasks) (board marked.tasks)
run-BoardStep_example = run-BoardStep (codes "e") mark two marked run-mark

set_status-IsTransition_example :
    (id : ℕ) × (task_id (task_ref 1) ≡ ok id)
    × IsTransition two marked (codes "e") id (codes "DUPLICATE") []
set_status-IsTransition_example =
    set_status-IsTransition (codes "e") (task_ref 1) (codes "DUPLICATE") [] (pos 2) two marked
      marking

acyclic : (type : LinkType) → Acyclic [] type
acyclic type a b e r = cc

two-IsSound : IsSound two
unfolding task_checks is_unlinked unlinked_to is_chained chained_to text_beq
two-IsSound = record {
  keyed = (((ground arith), ((ground arith), tt)), (((ground arith), tt), (tt, tt)));
  checked = (refl, (refl, (refl, tt)));
  paired = record {
    linked = (refl, (refl, (refl, tt)));
    backed = tt;
    unchained = (refl, (refl, (refl, tt)));
  };
  depends = acyclic rel_depends;
  supersedes = acyclic rel_supersedes;
}

marks_once : is_remark two mark ≡ false
unfolding is_remark find_task text_beq
marks_once = rw one_named refl

path : Leads two marked
path = step two marked (codes "e") mark stay marks_once run-mark

Leads-r7_example : r7 marked ≡ []
Leads-r7_example = Leads-r7 two marked two-IsSound path

Leads-Acyclic_example : Acyclic marked.links rel_depends × Acyclic marked.links rel_supersedes
Leads-Acyclic_example = Leads-Acyclic two marked two-IsSound path

Leads-Keyed_example : Keyed marked.tasks × All (λ t. task_checks t ≡ true) marked.tasks
Leads-Keyed_example = Leads-Keyed two marked two-IsSound path

-- Task 1 marked again, as a duplicate of task 3: the first link stays.
abbrev remarked : Store
remarked = record marked {
  tasks =
      (record (row 1) { status = status_duplicate; dup_of = some 3; updated_at = codes "f" })
      ∷ row 2
      ∷ row 3
      ∷ [];
  links =
      record { from_task = 1; to_task = 2; type = rel_duplicates; note = [] }
      ∷ record { from_task = 1; to_task = 3; type = rel_duplicates; note = [] }
      ∷ [];
  events =
      record { entity = task_ref 1; event = codes "set-status"; detail = [] }
      ∷ record { entity = task_ref 1; event = codes "set-status"; detail = [] }
      ∷ [];
}

remarking : set_status (codes "f") (task_ref 1) (codes "DUPLICATE") [] (pos 3) marked ≡ ok remarked
unfolding set_status validate_text write set_status_in_tx scan_task find_task duplicate_target
    canonical_of is_canonical task_status_of text_beq update_task_status exit_noted update_task
    task_checks task_keys replace_task insert_link task_event
remarking = rw one_named refl

remarked-r7 : r7 remarked ≡ no_dup_of 1 2 ∷ []
unfolding r7 collect is_unlinked unlinked_to is_unpaired is_paired is_chained chained_to
    is_duplicate_row
remarked-r7 = refl

abbrev no_artifact : Text → Text → Text → Bool
no_artifact _ _ _ = false

absent : find_task two.tasks 7 ≡ none
unfolding find_task
absent = refl

unpark-missing_example :
    (db' : Store) × (unpark (codes "e") (task_ref 7) two ≡ ok db')
    × (r8 no_artifact db' ≡ r8 no_artifact two ++ (missing (task_ref 7) ∷ []))
unpark-missing_example =
    unpark-missing no_artifact (codes "e") two 7 (omega arith) (omega arith) absent

length-edit_set_example :
    length (
      join_with
        (codes "; ")
        (changes_of (edit_set (row 1) (codes "new") (codes "note") (codes "api") false)))
    ≤ 290
length-edit_set_example = length-edit_set (row 1) (codes "new") (codes "note") (codes "api") false
