-- ===== src/Tasks/Edit.antt =====
-- internal/verb/tasks.go: `edit`, of a task, an epic or a story.
use selftracked.Common.{
  ℕ, zero, suc, Bool, true, false, not, ◌&&◌, List, [], ◌∷◌, ◌++◌, length, Option, none, some, leb,
  ◌==◌, if◌then◌else◌, Result, ok, err, ◌>>=◌, ◌>>◌, guard, or_err, is_some,
}
use selftracked.Common.Text.{Text, codes, text_eq, join_with}
use selftracked.Ref.{Ref, Invalid, task, epic, story, artifact, parse, epic_entity, story_entity}
use selftracked.Store.{
  Task, Story, Event, Store, Refusal, usage, not_found, no_change, update_task, find_epic,
  update_epic, find_story, update_story,
}
use selftracked.Stories.{validate_texts, write, refuse_terminal_epic}
use selftracked.Tasks.Lifecycle.{scan_task, task_event}

-- The first bytes of a text.
unfoldable pub take : ℕ → Text → Text
take zero s = []
take (suc n) [] = []
take (suc n) (c ∷ s) = c ∷ take n s

-- The bytes of the characters U+2026 and U+2192.
abbrev pub ellipsis : Text
ellipsis = 0xe2 ∷ 0x80 ∷ 0xa6 ∷ []

abbrev pub arrow : Text
arrow = 0xe2 ∷ 0x86 ∷ 0x92 ∷ []

unfoldable pub bounded : Text → Text
bounded s = if leb (length s) 40 then s else take 40 s ++ ellipsis

-- `editFields`
pub record EditFields : Type 0 where
  pub title : Text
  pub note : Text
  pub epic : Text
  pub detach : Bool
  pub goal : Text
  pub dod : Text
  pub consumes : Text
  pub produces : Text

-- `COALESCE(epic, '')`
abbrev pub home_text : Option Text → Text
home_text none = []
home_text (some slug) = slug

-- A fragment of the SET list with the record of its change.
pub record Edit : Type 0 where
  pub apply : Task → Task
  pub change : Text

abbrev pub one_if : Bool → Edit → List Edit
one_if true e = e ∷ []
one_if false e = []

abbrev pub set_title : Text → Task → Task
set_title title t = record t { title = title }

abbrev pub set_note : Text → Task → Task
set_note note t = record t { status_note = note }

abbrev pub set_home : Option Text → Task → Task
set_home home t = record t { epic = home }

-- `<field>: <old>→<new>`, both values bounded.
unfoldable pub change_text : Text → Text → Text → Text
change_text field old new = field ++ (codes ": " ++ (bounded old ++ (arrow ++ bounded new)))

unfoldable pub edit_home : Task → Text → Bool → List Edit
edit_home cur slug true =
    record {
      apply = set_home none;
      change = codes "epic: " ++ (bounded (home_text cur.epic) ++ arrow);
    }
    ∷ []
edit_home cur slug false = one_if (not (slug == []) && not (slug == home_text cur.epic)) (record {
  apply = set_home (some slug);
  change = change_text (codes "epic") (home_text cur.epic) slug;
})

unfoldable pub edit_title : Task → Text → List Edit
edit_title cur title =
    one_if (not (title == []) && not (title == cur.title))
      (record { apply = set_title title; change = change_text (codes "title") cur.title title })

unfoldable pub edit_note : Task → Text → List Edit
edit_note cur note =
    one_if (not (note == []) && not (note == cur.status_note))
      (record { apply = set_note note; change = change_text (codes "note") cur.status_note note })

unfoldable pub edit_set : Task → Text → Text → Text → Bool → List Edit
edit_set cur title note slug detach =
    edit_title cur title ++ (edit_note cur note ++ edit_home cur slug detach)

-- The row after the whole SET list.
unfoldable pub apply_all : List Edit → Task → Task
apply_all [] t = t
apply_all (e ∷ es) t = apply_all es (e.apply t)

unfoldable pub changes_of : List Edit → List Text
changes_of [] = []
changes_of (e ∷ es) = e.change ∷ changes_of es

abbrev pub is_nil : List Edit → Bool
is_nil [] = true
is_nil (_ ∷ _) = false

-- Attaching is refused on a terminal epic.
abbrev pub refuse_home : Store → Text → Result Refusal (Unit {0})
refuse_home db [] = ok tt
refuse_home db (c ∷ s) = refuse_terminal_epic db (c ∷ s)

unfoldable pub edit_task :
    Text → ℕ → Text → Text → Text → Bool → Store → Result Refusal (Store × List Event)
edit_task stamp id title note slug detach db = do
  cur ← scan_task db id
  refuse_home db slug
  let edits = edit_set cur title note slug detach
  guard (not (is_nil edits)) no_change
  db' ← update_task db id (λ t. record (apply_all edits t) { updated_at = stamp })
  ok (db', task_event id (codes "edit") (join_with (codes "; ") (changes_of edits)) ∷ [])

unfoldable pub validate_edit : Text → Text → Text → Bool → Result Refusal (Unit {0})
validate_edit title note slug detach = do
  validate_texts (title ∷ note ∷ slug ∷ [])
  guard (not (not (slug == []) && detach)) usage
  guard (not (title == [] && (note == [] && (slug == [] && not detach)))) usage

unfoldable pub edit_epic_goal : Text → Text → Store → Result Refusal (Store × List Event)
edit_epic_goal slug goal db = do
  refuse_terminal_epic db slug
  e ← or_err (find_epic db.epics slug) not_found
  db' ← update_epic db slug (λ r. record r { goal = goal })
  ok (
    db',
    record {
      entity = epic_entity slug;
      event = codes "edit";
      detail = change_text (codes "goal") e.goal goal;
    }
        ∷ [],
  )

-- A column of `stories` that `edit` sets, its value, and the update.
pub record StoryField : Type 0 where
  pub col : Text
  pub val : Text
  pub put : Story → Story

abbrev pub story_fields : Text → Text → Text → List StoryField
story_fields dod consumes produces =
    record { col = codes "dod"; val = dod; put = λ s. record s { dod = dod } }
    ∷ record { col = codes "consumes"; val = consumes; put = λ s. record s { consumes = consumes } }
    ∷ record { col = codes "produces"; val = produces; put = λ s. record s { produces = produces } }
    ∷ []

-- The loop of `editStoryFields`: the rows, and the changes in their order.
unfoldable pub put_fields :
    Text → Text → List StoryField → List Story → Result Refusal (List Story × List Text)
put_fields slug sid [] rows = ok (rows, [])
put_fields slug sid (f ∷ fs) rows = if f.val == [] then put_fields slug sid fs rows else do
  rows' ← update_story rows slug sid f.put
  guard (is_some (find_story rows slug sid)) not_found
  (rows'', changes) ← put_fields slug sid fs rows'
  ok (rows'', (f.col ++ (codes ": " ++ (arrow ++ bounded f.val))) ∷ changes)

unfoldable pub edit_story_fields :
    Text → Text → Text → Text → Text → Store → Result Refusal (Store × List Event)
edit_story_fields slug sid dod consumes produces db = do
  refuse_terminal_epic db slug
  (rows, changes) ← put_fields slug sid (story_fields dod consumes produces) db.stories
  ok (
    record db { stories = rows },
    record {
      entity = story_entity slug sid;
      event = codes "edit";
      detail = join_with (codes "; ") changes;
    }
        ∷ [],
  )

-- `runEdit`, behind `f.validate`.
unfoldable pub run_edit : Text → Ref → EditFields → Store → Result Refusal Store
run_edit stamp (task n) f db = do
  guard (f.goal == [] && (f.dod == [] && (f.consumes == [] && f.produces == []))) usage
  validate_edit f.title f.note f.epic f.detach
  write db (edit_task stamp n f.title f.note f.epic f.detach)
run_edit stamp (epic slug) f db = do
  guard (not (f.goal == [])) usage
  write db (edit_epic_goal slug f.goal)
run_edit stamp (story slug sid) f db = do
  guard (not (f.dod == [] && (f.consumes == [] && f.produces == []))) usage
  write db (edit_story_fields slug sid f.dod f.consumes f.produces)
run_edit stamp (artifact _ _ _) f db = err usage

-- The body of `edit`, of the token that `ref.Parse` has read.
abbrev pub edit_ref : Text → Result Invalid Ref → EditFields → Store → Result Refusal Store
edit_ref stamp (err _) f db = err usage
edit_ref stamp (ok r) f db = do
  validate_texts (f.goal ∷ f.dod ∷ f.consumes ∷ f.produces ∷ [])
  run_edit stamp r f db

unfoldable pub edit : Text → Text → EditFields → Store → Result Refusal Store
edit stamp token f db = edit_ref stamp (parse token) f db
