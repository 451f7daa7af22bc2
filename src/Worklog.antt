-- ===== src/Worklog.antt =====
-- internal/verb/worklog.go: `worklog add`, the rows after the close of an epic and the corrections. The
-- routes that a refusal names are part of its message, and left out.
pub mod Forms
pub mod Episodes
mod Tests
use selftracked.Common.{
  ℕ, zero, suc, ◌+◌, Bool, true, false, not, ◌&&◌, ◌||◌, List, [], ◌∷◌, ◌++◌, Option, none, some,
  nat_beq, ◌==◌, if◌then◌else◌, Result, ok, err, ◌>>=◌, ◌>>◌, guard, or_err, is_some,
}
use selftracked.Common.Int.{ℤ, pos, negsuc}
use selftracked.Common.Text.{Text, codes, text_eq, cut_prefix}
use selftracked.Decimal.{format_int}
use selftracked.Ref.{epic_entity, story_entity}
use selftracked.Store.{
  State, in_progress, done, blocked_on_owner, dissolved, Episode, Event, Store, Refusal, usage,
  not_found, not_closed, chain, mismatch, constraint, epic_status, max_seq, insert_episode,
}
use selftracked.Stories.{validate_texts, write}
use selftracked.Store.{is_closed}

-- The CHECK of `worklog.state`.
unfoldable pub state_of : Text → Option State
state_of s =
    if s == codes "IN-PROGRESS"
    then some in_progress
    else if s == codes "DONE"
    then some done
    else if s == codes "BLOCKED-ON-OWNER"
    then some blocked_on_owner
    else if s == codes "DISSOLVED"
    then some dissolved
    else none

unfoldable pub state_text : State → Text
state_text in_progress = codes "IN-PROGRESS"
state_text done = codes "DONE"
state_text blocked_on_owner = codes "BLOCKED-ON-OWNER"
state_text dissolved = codes "DISSOLVED"

-- The row of the primary key `(epic, seq)`.
unfoldable pub find_episode : List Episode → Text → ℕ → Option Episode
find_episode [] epic seq = none
find_episode (w ∷ ws) epic seq =
    if w.epic == epic && nat_beq w.seq seq then some w else find_episode ws epic seq

unfoldable pub require_closed_epic : Store → Text → Result Refusal (Unit {0})
require_closed_epic db slug = do
  status ← or_err (epic_status db.epics slug) not_found
  guard (is_closed status) not_closed

unfoldable pub validate_correction : Store → Text → Text → Text → ℕ → Result Refusal (Unit {0})
validate_correction db slug story state corrects = do
  target ← or_err (find_episode db.worklog slug corrects) not_found
  guard (not (is_some target.corrects)) chain
  guard (target.story == story) mismatch
  guard (state_text target.state == state) mismatch

-- The value of `corrects` in the new row. No row has a negative number.
unfoldable pub validate_form : Store → Text → Text → Text → ℤ → Bool → Result Refusal (Option ℕ)
validate_form db slug story state (pos zero) true = require_closed_epic db slug >>= λ _. ok none
validate_form db slug story state corrects true = err usage
validate_form db slug story state (pos zero) false = err usage
validate_form db slug story state (pos (suc n)) false =
    validate_correction db slug story state (suc n) >>= λ _. ok (some (suc n))
validate_form db slug story state (negsuc n) false = err not_found

describe_add : Text → Text → ℤ → Text
describe_add story state (pos zero) = codes "V-row " ++ (story ++ (b' ' ∷ state))
describe_add story state corrects =
    codes "correction of seq "
    ++ (format_int corrects ++ (codes " (" ++ (story ++ (b' ' ∷ (state ++ codes ")")))))

unfoldable pub is_v : Text → Bool
is_v story = is_some (cut_prefix story (codes "V-"))

-- The mutation of `worklogAdd`.
unfoldable pub worklog_in_tx :
    Text
    → Text
    → Text
    → Text
    → Text
    → Text
    → Text
    → Text
    → ℤ
    → Store
    → Result Refusal (Store × List Event)
unfolding describe_add
worklog_in_tx date slug story state commits gate review note corrects db = do
  c ← validate_form db slug story state corrects (is_v story)
  st ← or_err (state_of state) constraint
  db' ← insert_episode db (record {
    epic = slug;
    seq = max_seq db.worklog slug + 1;
    story = story;
    date = date;
    state = st;
    commits = commits;
    gate = gate;
    review = review;
    corrects = c;
    note = note;
  })
  ok (
    db',
    record {
      entity = if is_v story then epic_entity slug else story_entity slug story;
      event = codes "worklog";
      detail = describe_add story state corrects;
    }
        ∷ [],
  )

unfoldable pub worklog_add :
    Text → Text → Text → Text → Text → Text → Text → Text → ℤ → Store → Result Refusal Store
worklog_add date slug story state commits gate review note corrects db = do
  guard (not (story == [] || state == [])) usage
  validate_texts (slug ∷ story ∷ state ∷ commits ∷ gate ∷ review ∷ note ∷ [])
  write db (worklog_in_tx date slug story state commits gate review note corrects)
