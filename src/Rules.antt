-- ===== src/Rules.antt =====
-- internal/rules/rules.go: the consistency rules, as queries over the tables.
pub mod Ledger
pub mod Lookups
pub mod Corrections
pub mod Forms
pub mod Duplicates
pub mod DuplicateMoves
pub mod Entities
mod Tests
use selftracked.Common.{
  ℕ, ltb, Option, none, some, Bool, true, false, not, ◌&&◌, ◌||◌, List, [], ◌∷◌, ◌++◌, any, nat_beq,
  ◌==◌, if◌then◌else◌, is_some, Result, ok, err,
}
use selftracked.Common.Text.{codes}
use selftracked.Common.Text.{Text, text_eq}
use selftracked.Decimal.{is_digit}
use selftracked.Ref.{Ref, Invalid, task, epic, story, artifact, parse}
use selftracked.Store.{
  State, in_progress, done, blocked_on_owner, dissolved, EpicStatus, Story, Episode, Store, is_done,
  is_done_state, epic_status, find_story, Epic, Task, Link, Event, TaskStatus, status_duplicate,
  LinkType, rel_duplicates, same_task_status, is_link, find_task, same_link_type,
}
use selftracked.Store.{is_closed}

-- `Violation`, by what the message names.
pub data Violation : Type 0 where
  done_story_unproven done_row_homeless : Text → Text → Violation
  no_such_story v_row_not_closed bad_correction : Text → ℕ → Violation
  no_link no_dup_of dup_chained : ℕ → ℕ → Violation
  unparsed missing : Text → Violation

-- `GLOB 'S[0-9]*'`
unfoldable pub is_story_id : Text → Bool
is_story_id (c ∷ d ∷ s) = nat_beq c b'S' && is_digit d
is_story_id _ = false

-- An original DONE row with commits.
unfoldable pub is_proof : Episode → Bool
is_proof w = is_done_state w.state && (not (w.commits == []) && not (is_some w.corrects))

-- A DONE row with commits for the story, which is no correction.
unfoldable pub proves : Story → Episode → Bool
proves s w = (w.epic == s.epic && w.story == s.id) && is_proof w

unfoldable pub r6_stories : List Episode → List Story → List Violation
r6_stories log [] = []
r6_stories log (s ∷ ss) =
    let rest = r6_stories log ss in
    if is_done s.status && not (any (proves s) log)
    then done_story_unproven s.epic s.id ∷ rest
    else rest

-- The story of a row is DONE.
unfoldable pub houses : Episode → Story → Bool
houses w s = (s.epic == w.epic && s.id == w.story) && is_done s.status

unfoldable pub r6_rows : List Story → List Episode → List Violation
r6_rows stories [] = []
r6_rows stories (w ∷ ws) =
    let rest = r6_rows stories ws in
    if (is_proof w && is_story_id w.story) && not (any (houses w) stories)
    then done_row_homeless w.epic w.story ∷ rest
    else rest

unfoldable pub r6 : Store → List Violation
r6 db = r6_stories db.worklog db.stories ++ r6_rows db.stories db.worklog

-- `GLOB 'V-[0-9]*'`
unfoldable pub is_v_row : Text → Bool
is_v_row (c ∷ d ∷ e ∷ s) = (nat_beq c b'V' && nat_beq d b'-') && is_digit e
is_v_row _ = false

-- Some row of table `epics` with the slug is CLOSED.
unfoldable pub has_closed : List Epic → Text → Bool
has_closed es slug = any (λ e. e.slug == slug && is_closed e.status) es

abbrev pub same_state : State → State → Bool
same_state in_progress in_progress = true
same_state done done = true
same_state blocked_on_owner blocked_on_owner = true
same_state dissolved dissolved = true
same_state _ _ = false

-- `t` is a row that `w` may correct as its row number `n`.
unfoldable pub is_target : Episode → ℕ → Episode → Bool
is_target w n t =
    (t.epic == w.epic && (nat_beq t.seq n && ltb t.seq w.seq))
    && (t.story == w.story && (not (is_some t.corrects) && same_state t.state w.state))

-- `collect`: a report for each row that the query answers.
unfoldable pub collect : {A : Type 0} → (A → Bool) → (A → Violation) → List A → List Violation
collect bad report [] = []
collect bad report (w ∷ ws) =
    let rest = collect bad report ws in if bad w then report w ∷ rest else rest

unfoldable pub is_homeless : List Story → Episode → Bool
is_homeless stories w = not (is_v_row w.story) && not (is_some (find_story stories w.epic w.story))

unfoldable pub is_early : List Epic → Episode → Bool
is_early epics w = is_v_row w.story && not (has_closed epics w.epic)

-- The row corrects one that the ledger does not hold.
unfoldable pub dangles : List Episode → Episode → Option ℕ → Bool
dangles log w none = false
dangles log w (some n) = not (any (is_target w n) log)

unfoldable pub is_dangling : List Episode → Episode → Bool
is_dangling log w = dangles log w w.corrects

-- `R4`
unfoldable pub r4 : Store → List Violation
r4 db =
    collect (is_homeless db.stories) (λ w. no_such_story w.epic w.seq) db.worklog
    ++ (collect (is_early db.epics) (λ w. v_row_not_closed w.epic w.seq) db.worklog
        ++ collect (is_dangling db.worklog) (λ w. bad_correction w.epic w.seq) db.worklog)

-- The `dup_of` of the task has no link.
unfoldable pub unlinked_to : List Link → ℕ → Option ℕ → Bool
unlinked_to links id none = false
unlinked_to links id (some d) = not (any (is_link id d rel_duplicates) links)

unfoldable pub is_unlinked : List Link → Task → Bool
is_unlinked links t = unlinked_to links t.id t.dup_of

abbrev pub is_some_of : ℕ → Option ℕ → Bool
is_some_of d none = false
is_some_of d (some e) = nat_beq e d

-- The task whose `dup_of` the link stands for.
unfoldable pub is_paired : Link → Task → Bool
is_paired l t = nat_beq t.id l.from_task && is_some_of l.to_task t.dup_of

unfoldable pub is_unpaired : List Task → Link → Bool
is_unpaired ts l = same_link_type l.type rel_duplicates && not (any (is_paired l) ts)

unfoldable pub is_duplicate_row : ℕ → Task → Bool
is_duplicate_row d c = nat_beq c.id d && same_task_status c.status status_duplicate

unfoldable pub chained_to : List Task → Option ℕ → Bool
chained_to ts none = false
chained_to ts (some d) = any (is_duplicate_row d) ts

unfoldable pub is_chained : List Task → Task → Bool
is_chained ts t = chained_to ts t.dup_of

abbrev pub number_of : Option ℕ → ℕ
number_of none = 0
number_of (some d) = d

-- `r7`
unfoldable pub r7 : Store → List Violation
r7 db =
    collect (is_unlinked db.links) (λ t. no_link t.id (number_of t.dup_of)) db.tasks
    ++ (collect (is_unpaired db.tasks) (λ l. no_dup_of l.from_task l.to_task) db.links
        ++ collect (is_chained db.tasks) (λ t. dup_chained t.id (number_of t.dup_of)) db.tasks)

-- The event carries a token of the instance, and no reference.
unfoldable pub is_instance_scoped : Text → Bool
is_instance_scoped event =
    event == codes "paths" || (event == codes "config" || event == codes "gate-skip")

-- `refExists`; the table `artifacts` is a parameter.
unfoldable pub ref_exists : (Text → Text → Text → Bool) → Store → Ref → Bool
ref_exists artifacts db (task n) = is_some (find_task db.tasks n)
ref_exists artifacts db (epic slug) = is_some (epic_status db.epics slug)
ref_exists artifacts db (story slug sid) = is_some (find_story db.stories slug sid)
ref_exists artifacts db (artifact class scope rel) = artifacts class scope rel

-- What the loop of `r8` reports of an entity.
unfoldable pub r8_entity :
    (Text → Text → Text → Bool) → Store → Text → Result Invalid Ref → List Violation
r8_entity artifacts db entity (err _) = unparsed entity ∷ []
r8_entity artifacts db entity (ok r) = if ref_exists artifacts db r then [] else missing entity ∷ []

unfoldable pub r8_events : (Text → Text → Text → Bool) → Store → List Event → List Violation
r8_events artifacts db [] = []
r8_events artifacts db (ev ∷ evs) =
    let rest = r8_events artifacts db evs in
    if is_instance_scoped ev.event
    then rest
    else r8_entity artifacts db ev.entity (parse ev.entity) ++ rest

-- `r8`
unfoldable pub r8 : (Text → Text → Text → Bool) → Store → List Violation
r8 artifacts db = r8_events artifacts db db.events
