-- ===== src/Markdown/Rows.antt =====
-- The rows of a corpus in internal/verb/import.go, and how internal/verb/import_mdtable.go names the cells of one.
use selftracked.Common.{
  Bool, false, not, ◌||◌, List, [], ◌∷◌, Option, none, some, if◌then◌else◌, ◌==◌, Result, ok, ◌>>=◌,
  ◌>>◌, guard, any,
}
use selftracked.Common.Int.{ℤ}
use selftracked.Common.Text.{Text, codes, text_eq, text_beq}
use selftracked.Markdown.Tables.{Unreadable, unknown_column}

pub record PathRow : Type 0 where
  pub class : Text
  pub scope : Text
  pub root : Text
  pub ephemeral : Bool
  pub note : Text

-- The nested arrays are those of the other format; a table leaves them empty.
pub record CriterionRow : Type 0 where
  pub text : Option Text
  pub criterion : Option Text
  pub met : Bool
  pub evidence : Text

pub record EpicRow : Type 0 where
  pub slug : Text
  pub goal : Text
  pub status : Text
  pub status_note : Text
  pub close_sweep : Text
  pub created_at : Text
  pub criteria : List CriterionRow

pub record StoryRow : Type 0 where
  pub epic : Text
  pub id : Text
  pub title : Text
  pub status : Text
  pub dod : Text
  pub consumes : Text
  pub produces : Text

pub record TaskRowIn : Type 0 where
  pub title : Text
  pub status : Text
  pub note : Text
  pub epic : Text
  pub date : Text
  pub dup_of : ℤ
  pub future_increment : Bool
  pub pointer_note : Text
  pub owner_steer : Text

pub record IncrementRow : Type 0 where
  pub commits : Text
  pub gate : Text
  pub note : Text

pub record WorklogRow : Type 0 where
  pub epic : Text
  pub story : Text
  pub state : Text
  pub commits : Text
  pub gate : Text
  pub review : Text
  pub date : Text
  pub note : Text
  pub legacy_reason : Text
  pub increments : List IncrementRow

unfoldable pub known_columns : Text → Option (List Text)
known_columns kind =
    if kind == codes "paths"
    then some (codes "class" ∷ codes "scope" ∷ codes "root" ∷ codes "ephemeral" ∷ codes "note" ∷ [])
    else if kind == codes "epics"
    then some (
        codes "slug"
        ∷ codes "goal"
        ∷ codes "status"
        ∷ codes "status_note"
        ∷ codes "close_sweep"
        ∷ codes "created_at"
        ∷ [])
    else if kind == codes "stories"
    then some (
        codes "epic"
        ∷ codes "id"
        ∷ codes "title"
        ∷ codes "status"
        ∷ codes "dod"
        ∷ codes "consumes"
        ∷ codes "produces"
        ∷ [])
    else if kind == codes "tasks"
    then some (
        codes "title"
        ∷ codes "status"
        ∷ codes "note"
        ∷ codes "epic"
        ∷ codes "date"
        ∷ codes "dup_of"
        ∷ codes "future_increment"
        ∷ codes "pointer_note"
        ∷ codes "owner_steer"
        ∷ [])
    else if kind == codes "worklog"
    then some (
        codes "epic"
        ∷ codes "story"
        ∷ codes "state"
        ∷ codes "commits"
        ∷ codes "gate"
        ∷ codes "review"
        ∷ codes "date"
        ∷ codes "note"
        ∷ codes "legacy_reason"
        ∷ [])
    else none

-- A `map[string]string`, the last assignment in front.
abbrev pub Cells : Type 0
Cells = List (Text × Text)

unfoldable pub cell : Cells → Text → Text
cell [] name = []
cell ((k, v) ∷ cells) name = if k == name then v else cell cells name

-- `knownColumns[kind]`; the columns of a kind that is not there are the nil map.
abbrev pub known : Text → List Text
known kind = elim (known_columns kind) [ some names ↦ names | none ↦ [] ]

-- `cells[i]`, or nothing past the end.
abbrev pub head_cell : List Text → Text
head_cell [] = []
head_cell (v ∷ _) = v

abbrev pub tail_cells : List Text → List Text
tail_cells [] = []
tail_cells (_ ∷ cells) = cells

unfoldable pub zip_from :
    List Text → List Text → List Text → Cells → Bool → Result Unreadable (Cells × Bool)
zip_from names [] cells out filled = ok (out, filled)
zip_from names (col ∷ cols) cells out filled = do
  guard (any (λ n. text_beq n col) names) (unknown_column col)
  zip_from names cols (tail_cells cells) ((col, head_cell cells) ∷ out)
      (filled || not (head_cell cells == []))

unfoldable pub zip : Text → List Text → List Text → Result Unreadable Cells
unfolding zip_from
zip kind cols cells = do
  (out, filled) ← zip_from (known kind) cols cells [] false
  ok (if filled then out else [])
