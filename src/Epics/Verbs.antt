-- ===== src/Epics/Verbs.antt =====
-- internal/verb/epics.go and internal/verb/criteria.go: the verbs of epics and of their criteria.
use selftracked.Common.{
  ℕ, Bool, true, false, not, ◌&&◌, ◌||◌, List, [], ◌∷◌, ◌++◌, length, Option, none, some, is_some,
  nat_beq, leb, ◌==◌, Result, ok, ◌>>=◌, ◌>>◌, guard, or_err,
}
use selftracked.Common.Int.{ℤ, pos, negsuc}
use selftracked.Common.Text.{Text, codes, text_eq}
use selftracked.Decimal.{is_digit, parse_int, format_nat}
use selftracked.Ref.{epic_entity}
use selftracked.Store.{
  StoryStatus, story_planned, story_ready, story_blocked, story_dissolved, dissolved, EpicStatus,
  epic_active, epic_paused, epic_closed, epic_dissolved, Epic, Criterion, Story, Event, Store,
  Refusal, usage, not_found, blocked_by, constraint, runnable, criteria_failed, new_epic,
  insert_epic, update_epic, update_story, epic_status, is_in_progress, find_criterion,
  update_criterion, insert_criterion,
}
use selftracked.Stories.{validate_text, write, append_worklog, refuse_terminal_epic, is_terminal}
use selftracked.Epics.Blockers.{
  Blocker, running_story, Shell, select, sort_by, text_leb, is_homed, task_number, runnable_command,
  run_criteria, close_blockers, story_id,
}

abbrev pub is_slug_byte : ℕ → Bool
is_slug_byte c = (leb b'a' c && leb c b'z') || is_digit c

-- `^[a-z0-9]+(-[a-z0-9]+)*$` behind a dash or at the start (`true`), or behind another byte.
unfoldable pub kebab : Bool → Text → Bool
kebab dash [] = not dash
kebab dash (c ∷ s) =
    let rest = kebab (not (is_slug_byte c)) s in
    (is_slug_byte c || (nat_beq c b'-' && not dash)) && rest

unfoldable pub slug_ok : Text → Bool
slug_ok s = kebab true s

unfoldable pub epic_event : Text → Text → Text → Event
epic_event slug event detail = record { entity = epic_entity slug; event = event; detail = detail }

unfoldable pub create_epic_in_tx : Text → Text → Text → Store → Result Refusal (Store × List Event)
create_epic_in_tx stamp slug goal db = do
  db' ← insert_epic db (new_epic slug goal stamp)
  ok (db', epic_event slug (codes "epic") (codes "create: " ++ goal) ∷ [])

unfoldable pub epic_create : Text → Text → Text → Store → Result Refusal Store
epic_create stamp slug goal db = do
  guard (slug_ok slug) usage
  guard (not (goal == [])) usage
  validate_text goal
  write db (create_epic_in_tx stamp slug goal)

abbrev pub with_reason : Text → Text → Text
with_reason word [] = word
with_reason word (c ∷ s) = word ++ (codes ": " ++ (c ∷ s))

abbrev pub put_status : EpicStatus → Text → Epic → Epic
put_status target note e = record e { status = target; status_note = note }

unfoldable pub transition_in_tx :
    Text → EpicStatus → Text → Text → Store → Result Refusal (Store × List Event)
transition_in_tx slug target word note db = do
  db' ← update_epic db slug (put_status target note)
  ok (db', epic_event slug (codes "epic") (with_reason word note) ∷ [])

-- `epicTransition` to ACTIVE, as `epic activate` calls it.
unfoldable pub epic_activate : Text → Store → Result Refusal Store
epic_activate slug db = write db (transition_in_tx slug epic_active (codes "active") [])

-- `epicTransition` to PAUSED, as `epic pause` calls it.
unfoldable pub epic_pause : Text → Text → Store → Result Refusal Store
epic_pause slug why db = do
  guard (not (why == [])) usage
  validate_text why
  write db (transition_in_tx slug epic_paused (codes "paused") why)

unfoldable pub is_running : Text → Story → Bool
is_running slug s = s.epic == slug && is_in_progress s.status

abbrev pub running_of : Story → Blocker
running_of s = running_story s.id

unfoldable pub dissolve_blockers : Store → Text → List Blocker
dissolve_blockers db slug =
    select (is_running slug) running_of db.stories ++ select (is_homed slug) task_number db.tasks

-- PLANNED, READY or BLOCKED.
abbrev pub is_waiting : StoryStatus → Bool
is_waiting story_planned = true
is_waiting story_ready = true
is_waiting story_blocked = true
is_waiting _ = false

unfoldable pub is_waiting_in : Text → Story → Bool
is_waiting_in slug s = s.epic == slug && is_waiting s.status

abbrev pub put_dissolved : Story → Story
put_dissolved s = record s { status = story_dissolved; blocked = [] }

-- The loop of `dissolveStories`.
unfoldable pub dissolve_each : Text → Text → Text → List Text → Store → Result Refusal Store
dissolve_each date slug why [] db = ok db
dissolve_each date slug why (sid ∷ sids) db = do
  rows ← update_story db.stories slug sid put_dissolved
  db' ←
      append_worklog (record db { stories = rows }) date slug sid dissolved [] [] []
        (codes "auto-dissolved with the epic: " ++ why)
  dissolve_each date slug why sids db'

unfoldable pub dissolve_stories : Text → Text → Text → Store → Result Refusal Store
dissolve_stories date slug why db =
    dissolve_each date slug why (sort_by text_leb (select (is_waiting_in slug) story_id db.stories))
      db

abbrev pub is_empty : List Blocker → Bool
is_empty [] = true
is_empty (_ ∷ _) = false

unfoldable pub dissolve_in_tx : Text → Text → Text → Store → Result Refusal (Store × List Event)
dissolve_in_tx date slug why db = do
  guard (is_empty (dissolve_blockers db slug)) blocked_by
  db' ← dissolve_stories date slug why db
  db'' ← update_epic db' slug (put_status epic_dissolved why)
  ok (db'', epic_event slug (codes "epic") (codes "dissolve: " ++ why) ∷ [])

unfoldable pub epic_dissolve : Text → Text → Text → Store → Result Refusal Store
epic_dissolve date slug why db = do
  guard (not (why == [])) usage
  write db (dissolve_in_tx date slug why)

abbrev pub is_closable : EpicStatus → Bool
is_closable epic_active = true
is_closable epic_paused = true
is_closable _ = false

unfoldable pub closable_status : Store → Text → Result Refusal (Unit {0})
closable_status db slug = do
  status ← or_err (epic_status db.epics slug) not_found
  guard (is_closable status) blocked_by

abbrev pub put_closed : Text → Epic → Epic
put_closed today e = record e { status = epic_closed; close_sweep = today }

-- `INSERT INTO meta` of the key `active_verb`.
abbrev pub set_active : Store → Result Refusal Store
set_active db = do
  guard (not (is_some db.active_verb)) constraint
  ok (record db { active_verb = some (codes "epic-close") })

-- The mutation of `epicClose`, on the day `today`.
unfoldable pub close_in_tx :
    Shell → Text → Text → Text → Store → Result Refusal (Store × List Event)
close_in_tx sh now today slug db = do
  closable_status db slug
  (blockers, checked) ← close_blockers sh now slug db
  guard (is_empty blockers) blocked_by
  db1 ← set_active checked.store
  db2 ← update_epic db1 slug (put_closed today)
  ok (
    record db2 { active_verb = none },
    epic_event slug (codes "epic") (codes "close: " ++ today) ∷ [],
  )

unfoldable pub epic_close : Shell → Text → Text → Text → Store → Result Refusal Store
epic_close sh now today slug db = write db (close_in_tx sh now today slug)

-- `criterionFlag`; `none` is a flag that was not supplied.
unfoldable pub criterion_flag : Option Text → Option Text → Result Refusal Text
criterion_flag (some text) (some criterion) = do guard (text == criterion) usage; ok text
criterion_flag none (some criterion) = ok criterion
criterion_flag (some text) none = ok text
criterion_flag none none = ok []

unfoldable pub criteria_add_in_tx : Text → Text → Store → Result Refusal (Store × List Event)
criteria_add_in_tx slug text db = do
  refuse_terminal_epic db slug
  db' ← insert_criterion db slug text
  ok (db', epic_event slug (codes "criteria") (codes "add: " ++ text) ∷ [])

unfoldable pub criteria_add : Text → Option Text → Option Text → Store → Result Refusal Store
criteria_add slug text criterion db = do
  value ← criterion_flag text criterion
  guard (not (value == [])) usage
  validate_text value
  write db (criteria_add_in_tx slug value)

-- The row of a criterion. No row has a negative number.
abbrev pub criterion_at : Store → Text → ℤ → Option Criterion
criterion_at db slug (pos n) = find_criterion db.criteria slug n
criterion_at db slug (negsuc n) = none

abbrev pub attest : Text → Criterion → Criterion
attest evidence c = record c { met = true; evidence = evidence }

unfoldable pub criteria_met_in_tx : Text → ℤ → Text → Store → Result Refusal (Store × List Event)
criteria_met_in_tx slug seq evidence db = do
  refuse_terminal_epic db slug
  c ← or_err (criterion_at db slug seq) not_found
  guard (not (is_some (runnable_command c.criterion))) runnable
  db' ← update_criterion db slug c.seq (attest evidence)
  ok (
    db',
    epic_event slug (codes "criteria")
          (codes "met " ++ (format_nat c.seq ++ (codes ": " ++ evidence)))
        ∷ [],
  )

unfoldable pub criteria_met : Text → Text → Text → Store → Result Refusal Store
criteria_met slug token evidence db = do
  seq ← or_err (parse_int token) usage
  guard (not (evidence == [])) usage
  validate_text evidence
  write db (criteria_met_in_tx slug seq evidence)

abbrev pub bool_text : Bool → Text
bool_text true = codes "true"
bool_text false = codes "false"

-- The mutation of `criteriaCheck`, with whether a command failed.
unfoldable pub check_in_tx :
    Shell → Text → Text → Store → Result Refusal (Store × List Event × Bool)
check_in_tx sh now slug db = do
  status ← or_err (epic_status db.epics slug) not_found
  r ← run_criteria sh now slug (not (is_terminal status)) db
  let failed = not (is_empty r.failed)
  ok (
    r.store,
    epic_event slug (codes "criteria") (
          codes "check: "
          ++ (format_nat (length r.output) ++ (codes " line(s), failed=" ++ bool_text failed)))
        ∷ [],
    failed,
  )

-- `criteriaCheck`: what is written, and the refusal that follows when a command failed.
unfoldable pub criteria_check :
    Shell → Text → Text → Store → Result Refusal (Store × Result Refusal (Unit {0}))
criteria_check sh now slug db = do
  (db', evs, failed) ← check_in_tx sh now slug db
  ok (record db' { events = db'.events ++ evs }, guard (not failed) criteria_failed)
