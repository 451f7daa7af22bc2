-- ===== src/Load/Steps.antt =====
-- internal/load/steps.go: the registry of historical versions, the rows in flight, the migration.
pub mod Migration
pub mod Flatten
pub mod Chain
mod Tests
use selftracked.Common.{
  ℕ, zero, suc, ◌+◌, ◌-◌, Bool, true, false, List, [], ◌∷◌, ◌++◌, map, Option, none, some, nat_beq,
  ltb, ◌==◌, if◌then◌else◌, Result, ok, err, ◌>>=◌, ◌>>◌, guard, or_err, length,
}
use selftracked.Common.Text.{Text, codes, text_eq}
use selftracked.Decimal.{format_nat}
use selftracked.Dump.{Value, text}
use selftracked.Load.{Refused, Insert, Dump, Columns, no_transform, transform_failed, tables_left}

abbrev pub Row : Type 0
Row = List Value

-- `Corpus.Tables`: a Go map from a table's name to its rows. A name stands in it once.
abbrev pub Corpus : Type 0
Corpus = List (Text × List Row)

-- A historical version. A transform edits the rows, or fails; the registry holds `none` where the
-- entry has no transform.
pub record Step : Type 0 where
  pub ddl : Text
  pub columns : Columns
  pub transform : Option (Corpus → Option Corpus)

-- `Steps`: a Go map from a version to its entry.
abbrev pub Registry : Type 0
Registry = List (ℕ × Step)

unfoldable pub step_at : Registry → ℕ → Option Step
step_at [] k = none
step_at ((j, s) ∷ r) k = if nat_beq j k then some s else step_at r k

-- `c.Tables[name]`; a missing name has no rows.
unfoldable pub rows_of : Corpus → Text → List Row
rows_of [] name = []
rows_of ((t, rs) ∷ c) name = if t == name then rs else rows_of c name

unfoldable pub has_table : Corpus → Text → Bool
has_table [] name = false
has_table ((t, rs) ∷ c) name = if t == name then true else has_table c name

-- `c.Tables[name] = rows`
unfoldable pub set_rows : Corpus → Text → List Row → Corpus
set_rows [] name rows = (name, rows) ∷ []
set_rows ((t, rs) ∷ c) name rows =
    if t == name then (t, rows) ∷ c else (t, rs) ∷ set_rows c name rows

-- The loop of `CorpusFromDump`.
unfoldable pub regroup : Corpus → List Insert → Corpus
unfolding set_rows rows_of
regroup c [] = c
regroup c (ins ∷ rest) =
    regroup (set_rows c ins.table (rows_of c ins.table ++ (ins.values ∷ []))) rest

unfoldable pub corpus_from_dump : Dump → Corpus
unfolding regroup
corpus_from_dump d = regroup [] d.inserts

-- The chain of transforms from version `k` on, `n` of them.
unfoldable pub run_steps : Registry → ℕ → ℕ → Corpus → Result Refused Corpus
run_steps reg zero k c = ok c
run_steps reg (suc n) k c = do
  st ← or_err (step_at reg k) no_transform
  f ← or_err st.transform no_transform
  c' ← or_err (f c) transform_failed
  run_steps reg n (k + 1) c'

abbrev pub schema_version_key : Text
schema_version_key = codes "schema_version"

-- `row[0] == metaSchemaVersionKey`, for a row of two values.
abbrev pub is_version_row : Row → Bool
is_version_row (text k ∷ v ∷ []) = k == schema_version_key
is_version_row _ = false

-- The loop of `pinSchemaVersion` over the meta rows; behind them, its `append`.
unfoldable pub pin_rows : Text → List Row → List Row
pin_rows want [] = (text schema_version_key ∷ text want ∷ []) ∷ []
pin_rows want (row ∷ rows) =
    if is_version_row row
    then (text schema_version_key ∷ text want ∷ []) ∷ rows
    else row ∷ pin_rows want rows

unfoldable pub pin_schema_version : Corpus → ℕ → Corpus
unfolding pin_rows
pin_schema_version c to =
    set_rows c (codes "meta") (pin_rows (format_nat to) (rows_of c (codes "meta")))

-- The flattening loop: the rows in the order given, and how many of the names are in the corpus.
unfoldable pub flatten_rows : Corpus → List Text → List Insert
flatten_rows c [] = []
flatten_rows c (name ∷ names) =
    map (λ vals. record { table = name; values = vals }) (rows_of c name) ++ flatten_rows c names

unfoldable pub emitted : Corpus → List Text → ℕ
emitted c [] = 0
emitted c (name ∷ names) = if has_table c name then suc (emitted c names) else emitted c names

unfoldable pub migrate_corpus : Registry → Corpus → ℕ → ℕ → List Text → Result Refused Dump
migrate_corpus reg c from to order = do
  moved ← run_steps reg (to - from) from c
  let pinned = pin_schema_version moved to
  guard (nat_beq (emitted pinned order) (length pinned)) tables_left
  ok (record { version = to; inserts = flatten_rows pinned order })
