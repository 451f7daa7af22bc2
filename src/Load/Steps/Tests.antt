-- ===== src/Load/Steps/Tests.antt =====
-- Runs of the theorems on internal/load/steps.go at a registry of two versions.
use selftracked.Common.{◌≡◌, refl, some, List, [], ◌∷◌, ok, arith}
use selftracked.Common.Text.{Text, codes, text_beq}
use selftracked.Decimal.{format_nat, digits}
use selftracked.Dump.{text, null}
use selftracked.Dump.Tables.{table_order, tables}
use selftracked.Load.{Dump}
use selftracked.Load.Steps.{
  Registry, step_at, rows_of, has_table, set_rows, regroup, corpus_from_dump, run_steps, pin_rows,
  pin_schema_version, flatten_rows, emitted, migrate_corpus,
}
use selftracked.Load.Steps.Migration.{
  rows_for, rows_of-corpus_from_dump, version_value, version_value-pin_schema_version,
}
use selftracked.Load.Steps.Flatten.{AreDistinct}
use selftracked.Load.Steps.Chain.{IsMigrated, migrate_corpus-IsMigrated}

-- A step that empties a table, and one that adds a row.
abbrev registry : Registry
registry =
    (
      1,
      record {
        ddl = codes "a";
        columns = [];
        transform = some (λ c. some (set_rows c (codes "t") []));
      },
    )
    ∷ (
      2,
      record {
        ddl = codes "b";
        columns = [];
        transform = some (λ c. some (set_rows c (codes "u") ((null ∷ []) ∷ [])));
      },
    )
    ∷ []

abbrev old : Dump
old = record {
  version = 1;
  inserts =
      record { table = codes "t"; values = text (codes "x") ∷ [] }
      ∷ record {
        table = codes "meta";
        values = text (codes "schema_version") ∷ text (codes "1") ∷ [];
      }
      ∷ record { table = codes "t"; values = text (codes "y") ∷ [] }
      ∷ [];
}

rows_of-corpus_from_dump_example :
    rows_of (corpus_from_dump old) (codes "t") ≡ rows_for (codes "t") old.inserts
rows_of-corpus_from_dump_example = rows_of-corpus_from_dump old (codes "t")

abbrev moved_on : Dump
moved_on = record {
  version = 3;
  inserts =
      record {
        table = codes "meta";
        values = text (codes "schema_version") ∷ text (codes "3") ∷ [];
      }
      ∷ record { table = codes "u"; values = null ∷ [] }
      ∷ [];
}

abbrev order : List Text
order = codes "meta" ∷ codes "t" ∷ codes "u" ∷ []

distinct : AreDistinct order
unfolding text_beq
distinct = (refl, (refl, (refl, tt)))

-- The order that the program passes.
table_order-AreDistinct : AreDistinct table_order
unfolding text_beq table_order tables
table_order-AreDistinct = (
  refl,
  (refl, (refl, (refl, (refl, (refl, (refl, (refl, (refl, (refl, (refl, (refl, tt))))))))))),
)

migrated : migrate_corpus registry (corpus_from_dump old) 1 3 order ≡ ok moved_on
unfolding migrate_corpus corpus_from_dump regroup set_rows rows_of run_steps step_at
    pin_schema_version pin_rows flatten_rows emitted has_table format_nat digits text_beq
migrated = refl

migrate_corpus-IsMigrated_example : IsMigrated registry (corpus_from_dump old) 1 3 moved_on
migrate_corpus-IsMigrated_example =
    migrate_corpus-IsMigrated registry (corpus_from_dump old) 1 3 order moved_on (omega arith)
      distinct migrated

version_value-pin_schema_version_example :
    version_value (rows_of (pin_schema_version (corpus_from_dump old) 3) (codes "meta"))
    ≡ some (text (format_nat 3))
version_value-pin_schema_version_example = version_value-pin_schema_version (corpus_from_dump old) 3
