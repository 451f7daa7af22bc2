-- ===== src/Stories.antt =====
-- internal/verb/stories.go with internal/verb/terminal_epic.go: the transitions of stories.
pub mod Rows
pub mod Effects
pub mod Commands
pub mod Slot
pub mod Episodes
pub mod Terminal
pub mod Progress
pub mod Offer
pub mod Tests
use selftracked.Common.{
  ℕ, zero, suc, ◌+◌, ◌-◌, ◌*◌, Bool, true, false, not, ◌&&◌, ◌||◌, List, [], ◌∷◌, ◌++◌, map, any,
  Option, none, some, nat_beq, leb, ltb, ◌==◌, if◌then◌else◌, Result, ok, err, ◌>>=◌, ◌>>◌, guard,
  or_err,
}
use selftracked.Common.Text.{Text, codes, text_eq, cut_prefix}
use selftracked.Decimal.{is_digit, format_nat}
use selftracked.Ref.{epic_entity, story_entity}
use selftracked.Store.{
  new_story, is_closed, StoryStatus, story_planned, story_ready, story_blocked, story_in_progress,
  story_done, story_dissolved, EpicStatus, epic_backlog, epic_active, epic_paused, epic_closed,
  epic_dissolved, State, in_progress, done, blocked_on_owner, dissolved, Epic, Story, Episode,
  Event, Store, Refusal, usage, control_chars, not_found, wrong_state, wip, terminal,
  same_story_status, epic_status, find_story, story_in_slot, max_seq, update_story, insert_episode,
  insert_story,
}

-- `validateText`. The bytes of a rune past ASCII are all 0x80 or more.
unfoldable pub validate_text : Text → Result Refusal (Unit {0})
validate_text [] = ok tt
validate_text (c ∷ s) = do guard (not (ltb c 0x20 || nat_beq c 0x7f)) control_chars; validate_text s

unfoldable pub validate_texts : List Text → Result Refusal (Unit {0})
validate_texts [] = ok tt
validate_texts (t ∷ ts) = validate_text t >> validate_texts ts

-- `mutateInTx`: the mutation and the rows of its events, together or not at all.
unfoldable pub write : Store → (Store → Result Refusal (Store × List Event)) → Result Refusal Store
write db mutate = do (db', evs) ← mutate db; ok (record db' { events = db'.events ++ evs })

-- SQLite's LIKE takes the ASCII letters of either case for one another.
lower : ℕ → ℕ
lower c = if leb b'A' c && leb c b'Z' then c + 32 else c

closes : Text → Event → Bool
unfolding lower
closes slug ev =
    ev.entity == epic_entity slug
    && ev.event == codes "epic"
    && (elim (cut_prefix (map lower ev.detail) (codes "close:")) [ some _ ↦ true | none ↦ false ])

-- `EpicClosedByVerb`
unfoldable pub epic_closed_by_verb : Store → Text → Bool
unfolding closes
epic_closed_by_verb db slug = any (closes slug) db.events

abbrev pub is_terminal : EpicStatus → Bool
is_terminal epic_closed = true
is_terminal epic_dissolved = true
is_terminal _ = false

unfoldable pub refuse_terminal_epic_except : Store → Text → Bool → Result Refusal (Unit {0})
refuse_terminal_epic_except db slug allow_closed = do
  status ← or_err (epic_status db.epics slug) not_found
  guard
      (not (is_terminal status)
        || (allow_closed && is_closed status && epic_closed_by_verb db slug))
      terminal

unfoldable pub refuse_terminal_epic : Store → Text → Result Refusal (Unit {0})
refuse_terminal_epic db slug = refuse_terminal_epic_except db slug false

-- `appendWorklog`, at the time `date`.
unfoldable pub append_worklog :
    Store → Text → Text → Text → State → Text → Text → Text → Text → Result Refusal Store
append_worklog db date slug story state commits gate review note = insert_episode db (record {
  epic = slug;
  seq = max_seq db.worklog slug + 1;
  story = story;
  date = date;
  state = state;
  commits = commits;
  gate = gate;
  review = review;
  corrects = none;
  note = note;
})

-- `move`; `worklog` is `none` where the source has the empty state.
pub record Move : Type 0 where
  pub sources : List StoryStatus
  pub target : StoryStatus
  pub blocked : Text
  pub worklog : Option State
  pub note : Text
  pub detail : Text
  pub commits : Text
  pub gate : Text
  pub review : Text
  pub closed_epic_repair : Bool

-- A move that sets its sources, its target and its detail only.
abbrev pub plain_move : List StoryStatus → StoryStatus → Text → Move
plain_move sources target detail = record {
  sources = sources;
  target = target;
  blocked = [];
  worklog = none;
  note = [];
  detail = detail;
  commits = [];
  gate = [];
  review = [];
  closed_epic_repair = false;
}

unfoldable pub story_event : Text → Text → Text → Event
story_event slug sid detail = record {
  entity = story_entity slug sid;
  event = codes "story";
  detail = detail;
}

-- The episode that a move appends, if it has one.
unfoldable pub append_move : Store → Text → Text → Text → Move → Result Refusal Store
append_move db date slug sid m = elim m.worklog [
  | none ↦ ok db
  | some state ↦ append_worklog db date slug sid state m.commits m.gate m.review m.note
]

unfoldable pub move_story : Text → Text → Text → Move → Store → Result Refusal (Store × List Event)
move_story date slug sid m db = do
  refuse_terminal_epic_except db slug m.closed_epic_repair
  s ← or_err (find_story db.stories slug sid) not_found
  guard (any (same_story_status s.status) m.sources) wrong_state
  rows ← update_story db.stories slug sid (λ r. record r { status = m.target; blocked = m.blocked })
  db' ← append_move (record db { stories = rows }) date slug sid m
  ok (db', story_event slug sid m.detail ∷ [])

-- The digits that a text begins with, as a number behind `n`; 0 where there is none.
cast_digits : Text → ℕ → ℕ
cast_digits [] n = n
cast_digits (c ∷ s) n =
    let rest = cast_digits s (n * 10 + (c - b'0')) in if is_digit c then rest else n

-- `CAST(substr(id, 2) AS INTEGER)`, for an id that the CHECK `GLOB 'S[0-9]*'` admits.
unfoldable pub story_number : Text → ℕ
unfolding cast_digits
story_number [] = 0
story_number (c ∷ s) = cast_digits s 0

-- `COALESCE(MAX(CAST(substr(id, 2) AS INTEGER)), 0)` over the stories of an epic.
unfoldable pub max_story_number : List Story → Text → ℕ
max_story_number [] epic = 0
max_story_number (s ∷ ss) epic =
    let rest = max_story_number ss epic in
    if s.epic == epic
    then (if leb rest (story_number s.id) then story_number s.id else rest)
    else rest

unfoldable pub next_story_id : List Story → Text → Text
next_story_id rows epic = b'S' ∷ format_nat (max_story_number rows epic + 1)

unfoldable pub add_in_tx : Text → Text → Store → Result Refusal (Store × List Event)
add_in_tx slug title db = do
  refuse_terminal_epic db slug
  let sid = next_story_id db.stories slug
  db' ← insert_story db (new_story slug sid title)
  ok (db', story_event slug sid (codes "add: " ++ title) ∷ [])

unfoldable pub story_add : Text → Text → Store → Result Refusal Store
story_add slug title db = do
  guard (not (title == [])) usage
  validate_text title
  write db (add_in_tx slug title)

unfoldable pub story_ready_verb : Text → Text → Text → Store → Result Refusal Store
story_ready_verb date slug sid db =
    write db
      (move_story date slug sid (plain_move (story_planned ∷ []) story_ready (codes "ready")))

-- `storyStart` inside the transaction. It asks whether a row was affected where the source counts them.
unfoldable pub start_in_tx : Text → Text → Text → Store → Result Refusal (Store × List Event)
start_in_tx date slug sid db = do
  refuse_terminal_epic db slug
  guard (elim (story_in_slot db.stories slug) [ none ↦ true | some _ ↦ false ]) wip
  rows ← update_story db.stories slug sid (λ r. record r { status = story_in_progress })
  guard (elim (find_story db.stories slug sid) [ some _ ↦ true | none ↦ false ]) not_found
  db' ← append_worklog (record db { stories = rows }) date slug sid in_progress [] [] [] []
  ok (db', story_event slug sid (codes "start") ∷ [])

unfoldable pub story_start : Text → Text → Text → Store → Result Refusal Store
story_start date slug sid db = write db (start_in_tx date slug sid)

unfoldable pub story_block : Text → Text → Text → Text → Store → Result Refusal Store
story_block date slug sid reason db = do
  guard (not (reason == [])) usage
  validate_text reason
  write db (
      move_story date slug sid
        (record (plain_move (story_planned ∷ story_ready ∷ story_in_progress ∷ []) story_blocked
          (codes "block: " ++ reason)) {
            blocked = reason;
            worklog = some blocked_on_owner;
            note = reason;
          }))

unfoldable pub story_unblock : Text → Text → Text → Text → Store → Result Refusal Store
story_unblock date slug sid resolution db = do
  guard (not (resolution == [])) usage
  validate_text resolution
  write db (move_story date slug sid (plain_move (story_blocked ∷ []) story_ready resolution))

unfoldable pub story_done_verb :
    Text → Text → Text → Text → Text → Text → Store → Result Refusal Store
story_done_verb date slug sid commits gate review db = do
  guard (not (commits == [] || gate == [])) usage
  validate_texts (commits ∷ gate ∷ review ∷ [])
  write db (
      move_story date slug sid
        (record (plain_move (story_in_progress ∷ []) story_done
          (codes "done: " ++ (commits ++ (codes "; gate: " ++ gate)))) {
            worklog = some done;
            commits = commits;
            gate = gate;
            review = review;
          }))

unfoldable pub story_dissolve : Text → Text → Text → Text → Store → Result Refusal Store
story_dissolve date slug sid why db = do
  guard (not (why == [])) usage
  validate_text why
  write db (
      move_story date slug sid
        (record (plain_move (story_planned ∷ story_ready ∷ story_blocked ∷ story_in_progress ∷ [])
          story_dissolved (codes "dissolve: " ++ why)) {
            worklog = some dissolved;
            note = why;
            closed_epic_repair = true;
          }))
