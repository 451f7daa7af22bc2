-- ===== src/Ref.antt =====
-- internal/ref/ref.go: the grammar of references, and the functions that print one.
pub mod RoundTrip
pub mod Accepted
mod Tests
use selftracked.Common.{
  ℕ, suc, Bool, true, false, ◌&&◌, [], ◌∷◌, ◌++◌, Option, none, some, nat_beq, ◌==◌, if◌then◌else◌,
  Result, ok, err,
}
use selftracked.Common.Int.{pos}
use selftracked.Common.Text.{Text, codes, text_eq, cut}
use selftracked.Decimal.{is_digit, parse_int, format_nat}

-- `Ref` with its `Kind`: a constructor holds the fields that the kind implies. A task id is positive.
pub data Ref : Type 0 where
  task : ℕ → Ref
  epic : Text → Ref
  story : Text → Text → Ref
  artifact : Text → Text → Text → Ref

-- `ErrInvalid`, by what the wrapped message says.
pub data Invalid : Type 0 where
  empty malformed not_positive not_number : Invalid
  empty_slug bad_story_id empty_class_or_scope scoped_epic : Invalid

abbrev pub epic_word : Text
epic_word = codes "epic"

-- strings.TrimPrefix(s, "#")
abbrev trim_hash : Text → Text
trim_hash [] = []
trim_hash (c ∷ s) = if nat_beq c b'#' then s else c ∷ s

abbrev pub has_hash : Text → Bool
has_hash [] = false
has_hash (c ∷ s) = nat_beq c b'#'

-- `none` is `matched == false`: the token is not of a task's shape.
parse_task : Text → Option (Result Invalid Ref)
parse_task s = elim (parse_int (trim_hash s)) [
  | some (pos (suc n)) ↦ some (ok (task (suc n)))
  | some i ↦ some (err not_positive)
  | none ↦ if has_hash s then some (err not_number) else none
]

parse_artifact : Text → Text → Result Invalid Ref
parse_artifact head rest = elim (cut head (codes "@")) [
  | none ↦ ok (artifact head [] rest)
  | some (class, scope) ↦
      if class == []
      then err empty_class_or_scope
      else if scope == []
      then err empty_class_or_scope
      else if class == epic_word
      then err scoped_epic
      else ok (artifact class scope rest)
]

all_digits : Text → Bool
all_digits [] = true
all_digits (c ∷ s) = is_digit c && all_digits s

unfoldable pub valid_story_id : Text → Bool
unfolding all_digits
valid_story_id [] = false
valid_story_id (c ∷ []) = false
valid_story_id (c ∷ d ∷ s) = nat_beq c b'S' && all_digits (d ∷ s)

parse_epic_or_story : Text → Result Invalid Ref
parse_epic_or_story rest = elim (cut rest (codes "/")) [
  | none ↦ if rest == [] then err empty_slug else ok (epic rest)
  | some (slug, sid) ↦
      if slug == []
      then err empty_slug
      else if valid_story_id sid
      then ok (story slug sid)
      else err bad_story_id
]

parse_colon : Text → Result Invalid Ref
parse_colon s = elim (cut s (codes ":")) [
  | none ↦ err malformed
  | some (head, rest) ↦
      if head == []
      then err malformed
      else if rest == []
      then err malformed
      else if head == epic_word
      then parse_epic_or_story rest
      else parse_artifact head rest
]

pub parse : Text → Result Invalid Ref
parse s = if s == [] then err empty else elim (parse_task s) [ some r ↦ r | none ↦ parse_colon s ]

-- `TaskRef`
unfoldable pub task_ref : ℕ → Text
task_ref n = b'#' ∷ format_nat n

-- `epicPrefix + slug`
unfoldable pub epic_entity : Text → Text
epic_entity slug = codes "epic:" ++ slug

unfoldable pub story_entity : Text → Text → Text
unfolding epic_entity
story_entity slug sid = epic_entity slug ++ (b'/' ∷ sid)

-- `pos0`
unfoldable pub artifact_entity : Text → Text → Text → Text
artifact_entity class scope rel =
    if scope == [] then class ++ (b':' ∷ rel) else class ++ (b'@' ∷ (scope ++ (b':' ∷ rel)))

-- `canonicalEntity`
unfoldable pub canonical_entity : Ref → Text
unfolding task_ref epic_entity story_entity artifact_entity
canonical_entity (task n) = task_ref n
canonical_entity (epic slug) = epic_entity slug
canonical_entity (story slug sid) = story_entity slug sid
canonical_entity (artifact class scope rel) = artifact_entity class scope rel
