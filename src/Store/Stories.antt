-- ===== src/Store/Stories.antt =====
-- internal/schema/ddl.sql: the tables `stories` and `worklog`, with their constraints and triggers.
use selftracked.Common.{
  ℕ, suc, ◌+◌, Bool, true, false, not, ◌&&◌, List, [], ◌∷◌, ◌++◌, Option, none, some, nat_beq, leb,
  ◌==◌, if◌then◌else◌, Result, ok, ◌>>◌, guard, is_some,
}
use selftracked.Common.Text.{Text, text_eq}
use selftracked.Store.Types.{
  StoryStatus, story_planned, story_ready, story_blocked, story_in_progress, story_done,
  story_dissolved, EpicStatus, State, done, Epic, Story, Episode, Store, Refusal, constraint,
}

abbrev pub is_in_progress : StoryStatus → Bool
is_in_progress story_in_progress = true
is_in_progress _ = false

abbrev pub is_done : StoryStatus → Bool
is_done story_done = true
is_done _ = false

abbrev pub is_done_state : State → Bool
is_done_state done = true
is_done_state _ = false

abbrev pub same_story_status : StoryStatus → StoryStatus → Bool
same_story_status story_planned story_planned = true
same_story_status story_ready story_ready = true
same_story_status story_blocked story_blocked = true
same_story_status story_in_progress story_in_progress = true
same_story_status story_done story_done = true
same_story_status story_dissolved story_dissolved = true
same_story_status _ _ = false

-- The trigger `stories_transition` lets the move pass.
abbrev pub legal_story_move : StoryStatus → StoryStatus → Bool
legal_story_move story_planned story_ready = true
legal_story_move story_planned story_blocked = true
legal_story_move story_planned story_dissolved = true
legal_story_move story_ready story_in_progress = true
legal_story_move story_ready story_blocked = true
legal_story_move story_ready story_dissolved = true
legal_story_move story_blocked story_ready = true
legal_story_move story_blocked story_dissolved = true
legal_story_move story_in_progress story_done = true
legal_story_move story_in_progress story_blocked = true
legal_story_move story_in_progress story_dissolved = true
legal_story_move a b = same_story_status a b

-- `SELECT status FROM epics WHERE slug = ?`
unfoldable pub epic_status : List Epic → Text → Option EpicStatus
epic_status [] slug = none
epic_status (e ∷ es) slug = if e.slug == slug then some e.status else epic_status es slug

abbrev pub at_key : Text → Text → Story → Bool
at_key epic id s = s.epic == epic && s.id == id

-- The row of the primary key `(epic, id)`.
unfoldable pub find_story : List Story → Text → Text → Option Story
find_story [] epic id = none
find_story (s ∷ ss) epic id = if at_key epic id s then some s else find_story ss epic id

-- `SELECT id FROM stories WHERE epic = ? AND status = 'IN-PROGRESS'`
unfoldable pub story_in_slot : List Story → Text → Option Text
story_in_slot [] epic = none
story_in_slot (s ∷ ss) epic =
    if s.epic == epic && is_in_progress s.status then some s.id else story_in_slot ss epic

-- `COALESCE((SELECT MAX(seq) FROM worklog WHERE epic = ?), 0)`
unfoldable pub max_seq : List Episode → Text → ℕ
max_seq [] epic = 0
max_seq (w ∷ ws) epic =
    let rest = max_seq ws epic in
    if w.epic == epic then (if leb rest w.seq then w.seq else rest) else rest

-- The rows of an epic in the partial unique index `wip_one_per_epic`.
unfoldable pub wip_count : List Story → Text → ℕ
wip_count [] epic = 0
wip_count (s ∷ ss) epic =
    let rest = wip_count ss epic in
    if s.epic == epic && is_in_progress s.status then suc rest else rest

unfoldable pub replace_story : List Story → Text → Text → (Story → Story) → List Story
replace_story [] epic id f = []
replace_story (s ∷ ss) epic id f =
    if at_key epic id s then f s ∷ ss else s ∷ replace_story ss epic id f

-- `UPDATE stories SET … WHERE epic = ? AND id = ?`: the trigger, the CHECK of the row and the index
-- may refuse it; a missing row is none affected.
unfoldable pub update_story :
    List Story → Text → Text → (Story → Story) → Result Refusal (List Story)
update_story rows epic id f = elim (find_story rows epic id) [
  | none ↦ ok rows
  | some s ↦ do
    guard (legal_story_move s.status (f s).status) constraint
    guard (not (is_in_progress (f s).status && not ((f s).blocked == []))) constraint
    guard (leb (wip_count (replace_story rows epic id f) (f s).epic) 1) constraint
    ok (replace_story rows epic id f)
]

-- `INSERT INTO worklog`: the foreign key and the trigger `worklog_seq_contiguous`.
unfoldable pub insert_episode : Store → Episode → Result Refusal Store
insert_episode db w = do
  guard (is_some (epic_status db.epics w.epic)) constraint
  guard (nat_beq w.seq (max_seq db.worklog w.epic + 1)) constraint
  ok (record db { worklog = db.worklog ++ (w ∷ []) })

-- `INSERT INTO stories`: the foreign key, the CHECK of the title, the primary key.
unfoldable pub insert_story : Store → Story → Result Refusal Store
insert_story db s = do
  guard (is_some (epic_status db.epics s.epic)) constraint
  guard (not (s.title == [])) constraint
  guard (not (is_some (find_story db.stories s.epic s.id))) constraint
  ok (record db { stories = db.stories ++ (s ∷ []) })
