-- ===== src/Load/Document.antt =====
-- internal/load/parse.go: `Parse`, with the grammar that the header's version selects.
pub mod DataLines
pub mod RoundTrip
pub mod Accepted
pub mod Headers
use selftracked.Common.{
  ℕ, zero, suc, Bool, true, false, List, [], ◌∷◌, ◌++◌, Option, none, some, nat_beq, ltb, ◌==◌,
  if◌then◌else◌, Result, ok, err, ◌>>=◌, ◌>>◌, guard, or_err, not,
}
use selftracked.Common.Int.{ℤ, pos, negsuc}
use selftracked.Common.Text.{Text, codes, cut, cut_prefix, split}
use selftracked.Common.Words.{fields}
use selftracked.Decimal.{parse_int}
use selftracked.Load.{
  Refused, Insert, Dump, Columns, data_lines, bad_header, no_version, bad_version, newer_version,
  unknown_version, ddl_differs,
}
use selftracked.Load.Steps.{Step, Registry, step_at}

-- `expectedColumns`
unfoldable pub expected_columns : Columns
expected_columns =
    (codes "meta", codes "key, value")
    ∷ (codes "path_dictionary", codes "class, scope, root, ephemeral, note")
    ∷ (codes "epics", codes "slug, goal, status, status_note, close_sweep, created_at")
    ∷ (codes "epic_criteria", codes "epic, seq, criterion, met, evidence")
    ∷ (
      codes "tasks",
      codes "id, title, status, status_note, parked, dup_of, epic, created_at, updated_at",
    )
    ∷ (codes "task_links", codes "from_task, to_task, type, note")
    ∷ (codes "stories", codes "epic, id, title, status, dod, consumes, produces, blocked")
    ∷ (
      codes "worklog",
      codes "epic, seq, story, date, state, commits, gate, review, corrects, note",
    )
    ∷ (codes "artifacts", codes "id, class, scope, relpath, archived, note")
    ∷ (codes "task_artifacts", codes "task, artifact, role, note")
    ∷ (codes "epic_artifacts", codes "epic, artifact, role, note")
    ∷ (codes "events", codes "seq, at, entity, event, detail")
    ∷ []

-- What the binary compiles in: the version, the embedded DDL text, the historical versions.
pub record Binary : Type 0 where
  pub current : ℕ
  pub ddl : Text
  pub steps : Registry

pub record Grammar : Type 0 where
  pub ddl : Text
  pub columns : Columns

-- The entry of the current version comes first, whatever the registry holds.
unfoldable pub grammar_for : Binary → ℕ → Option Grammar
grammar_for b version =
    if nat_beq version b.current
    then some (record { ddl = b.ddl; columns = expected_columns })
    else elim (step_at b.steps version) [
      | some st ↦ some (record { ddl = st.ddl; columns = st.columns })
      | none ↦ none
    ]

unfoldable pub version_of : Option ℤ → Result Refused ℕ
version_of (some (pos (suc n))) = ok (suc n)
version_of _ = err bad_version

unfoldable pub header_version : List Text → Result Refused ℕ
unfolding version_of
header_version [] = err no_version
header_version (f ∷ fs) = elim (cut_prefix f (codes "schema_version=")) [
  | some raw ↦ version_of (parse_int raw)
  | none ↦ header_version fs
]

abbrev pub dump_prefix : Text
dump_prefix = codes "-- selftracked dump "

abbrev pub header_prefix : Text
header_prefix = codes "-- selftracked dump schema_version="

unfoldable pub has_prefix : Text → Text → Bool
has_prefix s p = elim (cut_prefix s p) [ some _ ↦ true | none ↦ false ]

-- strings.TrimPrefix
unfoldable pub trim_prefix : Text → Text → Text
trim_prefix s p = elim (cut_prefix s p) [ some r ↦ r | none ↦ s ]

unfoldable pub parse_preamble : Binary → Text → Result Refused (ℕ × Text)
unfolding has_prefix trim_prefix
parse_preamble b s = do
  (header, rest) ← or_err (cut s (b'\n' ∷ [])) bad_header
  guard (has_prefix header header_prefix) bad_header
  version ← header_version (fields (trim_prefix header dump_prefix))
  guard (not (ltb b.current version)) newer_version
  g ← or_err (grammar_for b version) unknown_version
  body ← or_err (cut_prefix rest g.ddl) ddl_differs
  ok (version, body)

-- `Parse`. Its second call of `grammarFor` cannot fail, since `parsePreamble` made it too.
unfoldable pub parse : Binary → Text → Result Refused Dump
parse b s = do
  (version, body) ← parse_preamble b s
  g ← or_err (grammar_for b version) unknown_version
  inserts ← data_lines g.columns (split body b'\n')
  ok (record { version = version; inserts = inserts })
