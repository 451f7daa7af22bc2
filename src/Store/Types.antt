-- ===== src/Store/Types.antt =====
-- internal/schema/ddl.sql: the rows of the tables that the verbs read and write, and what a verb refuses.
use selftracked.Common.{ℕ, Bool, List, [], Option, none}
use selftracked.Common.Text.{Text, text_eq}

pub data StoryStatus : Type 0 where
  story_planned story_ready story_blocked story_in_progress story_done story_dissolved : StoryStatus

pub data EpicStatus : Type 0 where
  epic_backlog epic_active epic_paused epic_closed epic_dissolved : EpicStatus

-- `worklog.state`
pub data State : Type 0 where
  in_progress done blocked_on_owner dissolved : State

pub data TaskStatus : Type 0 where
  status_open status_in_review status_triage status_done status_wont_do status_duplicate
        status_label :
      TaskStatus

pub data LinkType : Type 0 where
  rel_depends rel_relates rel_supersedes rel_duplicates : LinkType

pub record Epic : Type 0 where
  pub slug : Text
  pub goal : Text
  pub status : EpicStatus
  pub status_note : Text
  pub close_sweep : Text
  pub created_at : Text

-- A row of table `epic_criteria`; `met` is its 0 or 1.
pub record Criterion : Type 0 where
  pub epic : Text
  pub seq : ℕ
  pub criterion : Text
  pub met : Bool
  pub evidence : Text

pub record Task : Type 0 where
  pub id : ℕ
  pub title : Text
  pub status : TaskStatus
  pub status_note : Text
  pub parked : Text
  pub dup_of : Option ℕ
  pub epic : Option Text
  pub created_at : Text
  pub updated_at : Text

-- A row of table `task_links`.
pub record Link : Type 0 where
  pub from_task : ℕ
  pub to_task : ℕ
  pub type : LinkType
  pub note : Text

pub record Story : Type 0 where
  pub epic : Text
  pub id : Text
  pub title : Text
  pub status : StoryStatus
  pub dod : Text
  pub consumes : Text
  pub produces : Text
  pub blocked : Text

pub record Episode : Type 0 where
  pub epic : Text
  pub seq : ℕ
  pub story : Text
  pub date : Text
  pub state : State
  pub commits : Text
  pub gate : Text
  pub review : Text
  pub corrects : Option ℕ
  pub note : Text

-- A row of table `events`, less its number and its time, which no operation here reads.
pub record Event : Type 0 where
  pub entity : Text
  pub event : Text
  pub detail : Text

-- The tables; `tasks_high` is the row of `sqlite_sequence` for tasks, `active_verb` that key of `meta`.
pub record Store : Type 0 where
  pub epics : List Epic
  pub criteria : List Criterion
  pub tasks : List Task
  pub tasks_high : ℕ
  pub links : List Link
  pub stories : List Story
  pub worklog : List Episode
  pub events : List Event
  pub active_verb : Option Text

abbrev pub empty_store : Store
empty_store = record {
  epics = [];
  criteria = [];
  tasks = [];
  tasks_high = 0;
  links = [];
  stories = [];
  worklog = [];
  events = [];
  active_verb = none;
}

-- The code of a refusal; `constraint` is what the SQL engine raises.
pub data Refusal : Type 0 where
  usage control_chars not_found wrong_state wip terminal not_closed chain mismatch constraint :
      Refusal
  use_reopen dup_chain not_terminal bad_target cycle no_change blocked_by bad_status runnable
        criteria_failed :
      Refusal

-- What `INSERT INTO epics (slug, goal, created_at)` leaves to the defaults.
abbrev pub new_epic : Text → Text → Text → Epic
new_epic slug goal created = record {
  slug = slug;
  goal = goal;
  status = epic_backlog;
  status_note = [];
  close_sweep = [];
  created_at = created;
}

-- What `INSERT INTO stories (epic, id, title)` leaves to the defaults.
abbrev pub new_story : Text → Text → Text → Story
new_story epic id title = record {
  epic = epic;
  id = id;
  title = title;
  status = story_planned;
  dod = [];
  consumes = [];
  produces = [];
  blocked = [];
}
