-- ===== src/Store/Tasks.antt =====
-- internal/schema/ddl.sql: the tables `tasks` and `task_links`, with their constraints and triggers.
use selftracked.Common.{
  ℕ, ◌+◌, Bool, true, false, not, ◌&&◌, ◌||◌, List, [], ◌∷◌, ◌++◌, any, Option, none, some, nat_beq,
  leb, ◌==◌, if◌then◌else◌, Result, ok, ◌>>◌, guard, is_some,
}
use selftracked.Common.Text.{Text, text_eq}
use selftracked.Store.Types.{
  TaskStatus, status_open, status_in_review, status_triage, status_done, status_wont_do,
  status_duplicate, status_label, LinkType, rel_depends, rel_relates, rel_supersedes,
  rel_duplicates, Task, Link, Epic, Store, Refusal, constraint,
}
use selftracked.Store.Stories.{epic_status}
use selftracked.Store.Epics.{iff}

abbrev pub same_task_status : TaskStatus → TaskStatus → Bool
same_task_status status_open status_open = true
same_task_status status_in_review status_in_review = true
same_task_status status_triage status_triage = true
same_task_status status_done status_done = true
same_task_status status_wont_do status_wont_do = true
same_task_status status_duplicate status_duplicate = true
same_task_status status_label status_label = true
same_task_status _ _ = false

abbrev pub same_link_type : LinkType → LinkType → Bool
same_link_type rel_depends rel_depends = true
same_link_type rel_relates rel_relates = true
same_link_type rel_supersedes rel_supersedes = true
same_link_type rel_duplicates rel_duplicates = true
same_link_type _ _ = false

-- DONE, WONT-DO or DUPLICATE.
abbrev pub is_terminal_task : TaskStatus → Bool
is_terminal_task status_done = true
is_terminal_task status_wont_do = true
is_terminal_task status_duplicate = true
is_terminal_task _ = false

-- OPEN, IN-REVIEW or NEEDS-TRIAGE.
abbrev pub is_open_task : TaskStatus → Bool
is_open_task status_open = true
is_open_task status_in_review = true
is_open_task status_triage = true
is_open_task _ = false

-- The trigger `tasks_transition` lets the move pass.
abbrev pub legal_task_move : TaskStatus → TaskStatus → Bool
legal_task_move a b =
    same_task_status a b
    || ((is_open_task a && (is_open_task b || is_terminal_task b))
        || (is_terminal_task a && same_task_status b status_open))

-- The trigger `tasks_inreview_exit_note` lets the update pass.
unfoldable pub exit_noted : Task → Task → Bool
exit_noted old new = not (
    same_task_status old.status status_in_review
    && ((same_task_status new.status status_open
          || (same_task_status new.status status_triage || is_terminal_task new.status))
        && new.status_note == []))

-- The row of the primary key.
unfoldable pub find_task : List Task → ℕ → Option Task
find_task [] id = none
find_task (t ∷ ts) id = if nat_beq t.id id then some t else find_task ts id

unfoldable pub replace_task : List Task → ℕ → (Task → Task) → List Task
replace_task [] id f = []
replace_task (t ∷ ts) id f = if nat_beq t.id id then f t ∷ ts else t ∷ replace_task ts id f

-- `parked` is empty, or the status is one that can be parked.
abbrev pub can_park : TaskStatus → Bool
can_park status_open = true
can_park status_triage = true
can_park _ = false

abbrev pub needs_reason : TaskStatus → Bool
needs_reason status_done = true
needs_reason status_wont_do = true
needs_reason _ = false

abbrev pub is_other : ℕ → Option ℕ → Bool
is_other id none = true
is_other id (some d) = not (nat_beq d id)

-- The foreign keys of a row of table `tasks`.
abbrev pub home_exists : List Epic → Option Text → Bool
home_exists es none = true
home_exists es (some slug) = is_some (epic_status es slug)

abbrev pub canonical_exists : List Task → Option ℕ → Bool
canonical_exists ts none = true
canonical_exists ts (some d) = is_some (find_task ts d)

-- The CHECKs of table `tasks`.
unfoldable pub task_checks : Task → Bool
task_checks t =
    not (t.title == [])
    && (iff (same_task_status t.status status_duplicate) (is_some t.dup_of)
        && ((not (needs_reason t.status) || not (t.status_note == []))
            && (is_other t.id t.dup_of && (t.parked == [] || can_park t.status))))

unfoldable pub task_keys : Store → Task → Bool
task_keys db t = home_exists db.epics t.epic && canonical_exists db.tasks t.dup_of

-- `UPDATE tasks SET … WHERE id = ?` without the status; a missing row is none affected.
unfoldable pub update_task : Store → ℕ → (Task → Task) → Result Refusal Store
update_task db id f = elim (find_task db.tasks id) [
  | none ↦ ok db
  | some t ↦ do
    guard (task_checks (f t)) constraint
    guard (task_keys db (f t)) constraint
    ok (record db { tasks = replace_task db.tasks id f })
]

-- `UPDATE tasks SET status = …`: the triggers on the status come before the CHECKs.
unfoldable pub update_task_status : Store → ℕ → (Task → Task) → Result Refusal Store
update_task_status db id f = elim (find_task db.tasks id) [
  | none ↦ ok db
  | some t ↦ do
    guard (legal_task_move t.status (f t).status) constraint
    guard (exit_noted t (f t)) constraint
    update_task db id f
]

-- `MAX(id)`
unfoldable pub max_task : List Task → ℕ
max_task [] = 0
max_task (t ∷ ts) = let rest = max_task ts in if leb rest t.id then t.id else rest

-- The next id of an AUTOINCREMENT key.
unfoldable pub next_task : Store → ℕ
next_task db =
    if leb (max_task db.tasks) db.tasks_high then db.tasks_high + 1 else max_task db.tasks + 1

-- `INSERT INTO tasks … RETURNING id`, of a row that has the next id.
unfoldable pub insert_task : Store → Task → Result Refusal Store
insert_task db t = do
  guard (task_checks t) constraint
  guard (task_keys db t) constraint
  ok (record db { tasks = db.tasks ++ (t ∷ []); tasks_high = t.id })

abbrev pub is_link : ℕ → ℕ → LinkType → Link → Bool
is_link from to type l =
    nat_beq l.from_task from && (nat_beq l.to_task to && same_link_type l.type type)

-- `INSERT INTO task_links`: the foreign keys, the CHECK, the primary key.
unfoldable pub insert_link : Store → Link → Result Refusal Store
insert_link db l = do
  guard (is_some (find_task db.tasks l.from_task) && is_some (find_task db.tasks l.to_task))
      constraint
  guard (not (nat_beq l.from_task l.to_task)) constraint
  guard (not (any (is_link l.from_task l.to_task l.type) db.links)) constraint
  ok (record db { links = db.links ++ (l ∷ []) })

-- The rows that a test does not select.
unfoldable pub drop_links : (Link → Bool) → List Link → List Link
drop_links p [] = []
drop_links p (l ∷ ls) = let rest = drop_links p ls in if p l then rest else l ∷ rest
