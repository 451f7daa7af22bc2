-- ===== src/Tasks/Lifecycle.antt =====
-- internal/verb/tasks.go with internal/verb/terminal_epic.go: `create`, `set-status`, `reopen`, `park` and
-- `unpark`.
use selftracked.Common.{
  ℕ, zero, suc, Bool, true, false, not, ◌&&◌, List, [], ◌∷◌, any, Option, none, some, nat_beq, ◌==◌,
  if◌then◌else◌, Result, ok, err, ◌>>=◌, ◌>>◌, guard, or_err,
}
use selftracked.Common.Int.{ℤ, pos, negsuc}
use selftracked.Common.Text.{Text, codes, text_eq}
use selftracked.Ref.{Ref, Invalid, task, parse, task_ref}
use selftracked.Store.{
  TaskStatus, status_open, status_in_review, status_triage, status_done, status_wont_do,
  status_duplicate, status_label, rel_duplicates, Task, Link, Event, Store, Refusal, usage,
  not_found, terminal, constraint, use_reopen, dup_chain, not_terminal, bad_status,
  same_task_status, same_link_type, is_terminal_task, find_task, update_task, update_task_status,
  next_task, insert_task, insert_link, drop_links, epic_status,
}
use selftracked.Stories.{validate_text, validate_texts, write, is_terminal, refuse_terminal_epic}

-- The CHECK of `tasks.status`.
unfoldable pub task_status_of : Text → Option TaskStatus
task_status_of s =
    if s == codes "OPEN"
    then some status_open
    else if s == codes "IN-REVIEW"
    then some status_in_review
    else if s == codes "NEEDS-TRIAGE"
    then some status_triage
    else if s == codes "DONE"
    then some status_done
    else if s == codes "WONT-DO"
    then some status_wont_do
    else if s == codes "DUPLICATE"
    then some status_duplicate
    else if s == codes "LABEL"
    then some status_label
    else none

-- `taskID`, of the token that `ref.Parse` has read.
abbrev pub as_task : Result Invalid Ref → Result Refusal ℕ
as_task (ok (task n)) = ok n
as_task _ = err usage

unfoldable pub task_id : Text → Result Refusal ℕ
task_id token = as_task (parse token)

unfoldable pub scan_task : Store → ℕ → Result Refusal Task
scan_task db id = or_err (find_task db.tasks id) not_found

unfoldable pub task_event : ℕ → Text → Text → Event
task_event id event detail = record { entity = task_ref id; event = event; detail = detail }

unfoldable pub initial_status : Text → Result Refusal TaskStatus
initial_status status =
    if status == codes "OPEN"
    then ok status_open
    else if status == codes "IN-REVIEW"
    then ok status_in_review
    else if status == codes "NEEDS-TRIAGE"
    then ok status_triage
    else err bad_status

unfoldable pub create_target : Text → Text → Text → Text → Bool → Result Refusal TaskStatus
create_target title note epic status label = do
  validate_texts (title ∷ note ∷ epic ∷ [])
  guard (not (title == [])) usage
  guard (not (label && not (status == []))) usage
  if label
      then ok status_label
      else if status == []
      then ok status_triage
      else initial_status status

-- `epicVal`, once the epic was seen not to be terminal.
unfoldable pub home_of : Store → Text → Result Refusal (Option Text)
home_of db [] = ok none
home_of db (c ∷ s) = do refuse_terminal_epic db (c ∷ s); ok (some (c ∷ s))

-- The mutation of `create`, at the time `stamp`.
unfoldable pub create_in_tx :
    Text → Text → TaskStatus → Text → Text → Store → Result Refusal (Store × List Event)
create_in_tx stamp title target note epic db = do
  home ← home_of db epic
  let id = next_task db
  db' ← insert_task db (record {
    id = id;
    title = title;
    status = target;
    status_note = note;
    parked = [];
    dup_of = none;
    epic = home;
    created_at = stamp;
    updated_at = stamp;
  })
  ok (db', task_event id (codes "create") title ∷ [])

unfoldable pub create : Text → Text → Text → Text → Text → Bool → Store → Result Refusal Store
create stamp title status note epic label db = do
  target ← create_target title note epic status label
  write db (create_in_tx stamp title target note epic)

abbrev pub has_canonical : ℕ → Option ℕ → Bool
has_canonical id none = false
has_canonical id (some d) = nat_beq d id

-- `SELECT id FROM tasks WHERE dup_of = ? LIMIT 1` finds a row.
unfoldable pub is_canonical : List Task → ℕ → Bool
is_canonical ts id = any (λ t. has_canonical id t.dup_of) ts

abbrev pub is_duplicate_text : Text → Bool
is_duplicate_text target = target == codes "DUPLICATE"

-- The part of `duplicateTarget` for the status DUPLICATE. No task has a negative number.
unfoldable pub canonical_of : Store → ℕ → ℤ → Result Refusal (Option ℕ)
canonical_of db id (pos zero) = err usage
canonical_of db id (negsuc n) = err not_found
canonical_of db id (pos (suc n)) = do
  canon ← scan_task db (suc n)
  guard (not (same_task_status canon.status status_duplicate)) dup_chain
  guard (not (is_canonical db.tasks id)) dup_chain
  ok (some (suc n))

abbrev pub is_zero : ℤ → Bool
is_zero (pos zero) = true
is_zero _ = false

unfoldable pub duplicate_target : Store → ℕ → Text → ℤ → Result Refusal (Option ℕ)
duplicate_target db id target dup_of =
    if is_duplicate_text target
    then canonical_of db id dup_of
    else (guard (is_zero dup_of) usage >>= λ _. ok none)

-- The row that the UPDATE of `setStatus` leaves.
abbrev pub moved_task : Text → TaskStatus → Text → Option ℕ → Task → Task
moved_task stamp target note dup t = record t {
  status = target;
  status_note = note;
  dup_of = dup;
  parked = [];
  updated_at = stamp;
}

-- The event of the cleared deferral, if there was one.
abbrev pub unpark_events : ℕ → Text → List Event
unpark_events id [] = []
unpark_events id (c ∷ s) =
    task_event id (codes "unpark") (codes "auto-cleared by status transition") ∷ []

-- The link that goes with a `dup_of`.
abbrev pub link_duplicate : Store → ℕ → Option ℕ → Result Refusal Store
link_duplicate db id none = ok db
link_duplicate db id (some d) =
    insert_link db (record { from_task = id; to_task = d; type = rel_duplicates; note = [] })

unfoldable pub set_status_in_tx :
    Text → ℕ → Text → Text → ℤ → Store → Result Refusal (Store × List Event)
set_status_in_tx stamp id target note dup_of db = do
  cur ← scan_task db id
  guard (not (is_terminal_task cur.status && target == codes "OPEN")) use_reopen
  dup ← duplicate_target db id target dup_of
  status ← or_err (task_status_of target) constraint
  db' ← update_task_status db id (moved_task stamp status note dup)
  db'' ← link_duplicate db' id dup
  ok (db'', task_event id (codes "set-status") note ∷ unpark_events id cur.parked)

unfoldable pub set_status : Text → Text → Text → Text → ℤ → Store → Result Refusal Store
set_status stamp token target note dup_of db = do
  id ← task_id token
  validate_text note
  write db (set_status_in_tx stamp id target note dup_of)

-- `refuseTerminalEpicOfTask`, of the epic of a task that was read.
abbrev pub refuse_terminal_home : Store → Option Text → Result Refusal (Unit {0})
refuse_terminal_home db none = ok tt
refuse_terminal_home db (some []) = ok tt
refuse_terminal_home db (some (c ∷ s)) = do
  status ← or_err (epic_status db.epics (c ∷ s)) not_found
  guard (not (is_terminal status)) terminal

abbrev pub is_duplicate_from : ℕ → Link → Bool
is_duplicate_from id l = nat_beq l.from_task id && same_link_type l.type rel_duplicates

-- What the switch on the status of `reopenTask` does.
abbrev pub leave_terminal : Store → ℕ → TaskStatus → Result Refusal Store
leave_terminal db id status_done = ok db
leave_terminal db id status_wont_do = ok db
leave_terminal db id status_duplicate =
    ok (record db { links = drop_links (is_duplicate_from id) db.links })
leave_terminal db id _ = err not_terminal

unfoldable pub reopen_in_tx : Text → ℕ → Text → Store → Result Refusal (Store × List Event)
reopen_in_tx stamp id why db = do
  cur ← scan_task db id
  refuse_terminal_home db cur.epic
  db' ← leave_terminal db id cur.status
  db'' ← update_task_status db' id (moved_task stamp status_open why none)
  ok (db'', task_event id (codes "reopen") why ∷ [])

unfoldable pub reopen : Text → Text → Text → Store → Result Refusal Store
reopen stamp token why db = do
  id ← task_id token
  guard (not (why == [])) usage
  validate_text why
  write db (reopen_in_tx stamp id why)

-- `UPDATE tasks SET parked = ?, updated_at = ? WHERE id = ?` with its event.
unfoldable pub park_in_tx : Text → ℕ → Text → Text → Store → Result Refusal (Store × List Event)
park_in_tx stamp id why event db = do
  db' ← update_task db id (λ t. record t { parked = why; updated_at = stamp })
  ok (db', task_event id event why ∷ [])

unfoldable pub park : Text → Text → Text → Store → Result Refusal Store
park stamp token why db = do
  id ← task_id token
  guard (not (why == [])) usage
  validate_text why
  write db (park_in_tx stamp id why (codes "park"))

unfoldable pub unpark : Text → Text → Store → Result Refusal Store
unpark stamp token db = do id ← task_id token; write db (park_in_tx stamp id [] (codes "unpark"))
