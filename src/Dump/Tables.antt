-- ===== src/Dump/Tables.antt =====
-- internal/dump/serialize.go: the tables in the order of the dump, and `Serialize`.
use selftracked.Common.{
  Bool, true, false, List, [], ◌∷◌, ◌++◌, map, Option, none, some, ◌==◌, if◌then◌else◌, Result, ok,
  ◌>>=◌, or_err,
}
use selftracked.Common.Int.{ℤ}
use selftracked.Common.Text.{Text, codes, text_eq, cut, join_with}
use selftracked.Common.Words.{fields}
use selftracked.Decimal.{format_int}
use selftracked.Dump.{Value, DumpError, query_failed, write_row}

pub record Table : Type 0 where
  pub name : Text
  pub columns : Text
  pub order_by : Text
  pub filter : Text

abbrev table : Text → Text → Text → Text → Table
table n c o w = record { name = n; columns = c; order_by = o; filter = w }

-- `tables`
unfoldable pub tables : List Table
tables =
    table (codes "meta") (codes "key value") (codes "key") (codes "key <> 'active_verb'")
    ∷ table (codes "path_dictionary") (codes "class scope root ephemeral note")
        (codes "class, scope") []
    ∷ table (codes "epics") (codes "slug goal status status_note close_sweep created_at")
        (codes "slug") []
    ∷ table (codes "epic_criteria") (codes "epic seq criterion met evidence") (codes "epic, seq") []
    ∷ table (codes "tasks")
        (codes "id title status status_note parked dup_of epic created_at updated_at") (codes "id")
        []
    ∷ table (codes "task_links") (codes "from_task to_task type note")
        (codes "from_task, to_task, type") []
    ∷ table (codes "stories") (codes "epic id title status dod consumes produces blocked")
        (codes "epic, id") []
    ∷ table (codes "worklog") (codes "epic seq story date state commits gate review corrects note")
        (codes "epic, seq") []
    ∷ table (codes "artifacts") (codes "id class scope relpath archived note") (codes "id") []
    ∷ table (codes "task_artifacts") (codes "task artifact role note") (codes "task, artifact") []
    ∷ table (codes "epic_artifacts") (codes "epic artifact role note") (codes "epic, artifact") []
    ∷ table (codes "events") (codes "seq at entity event detail") (codes "seq") (codes "seq > ?")
    ∷ []

-- `TableOrder`
unfoldable pub table_order : List Text
unfolding tables
table_order = map (λ t. t.name) tables

-- The database as the serializer reads it: the answers of the SQL engine, `none` where a query fails.
-- `select` takes the text of a query and its bound argument, if it has one.
pub record Source : Type 0 where
  pub schema_version : Option Text
  pub tasks_high : Option ℤ
  pub artifacts_high : Option ℤ
  pub boundary : Option ℤ
  pub select : Text → Option ℤ → Option (List (List Value))

-- `strings.Join(strings.Fields(t.columns), ", ")`
unfoldable pub column_list : Table → Text
column_list t = join_with (codes ", ") (fields t.columns)

holds_placeholder : Text → Bool
holds_placeholder s = elim (cut s (codes "?")) [ some _ ↦ true | none ↦ false ]

-- The text of the query that `writeTable` builds, and its argument.
unfoldable pub query : Table → ℤ → Text × Option ℤ
unfolding holds_placeholder column_list
query t boundary =
    let head = codes "SELECT " ++ (column_list t ++ (codes " FROM " ++ t.name)) in
    let order = codes " ORDER BY " ++ t.order_by in
    if t.filter == [] then (head ++ order, none) else (
      head ++ (codes " WHERE " ++ (t.filter ++ order)),
      if holds_placeholder t.filter then some boundary else none,
    )

-- `"INSERT INTO " + t.name + " (" + colList + ") VALUES ("`
unfoldable pub insert_prefix : Text → Text → Text
insert_prefix name cols =
    codes "INSERT INTO " ++ (name ++ (codes " (" ++ (cols ++ codes ") VALUES (")))

unfoldable pub write_rows : Text → List (List Value) → Result DumpError Text
write_rows prefix [] = ok []
write_rows prefix (r ∷ rs) = do
  t ← write_row r
  rest ← write_rows prefix rs
  ok (prefix ++ (t ++ (codes ");" ++ (b'\n' ∷ rest))))

unfoldable pub write_table : Source → ℤ → Table → Result DumpError Text
write_table db boundary t = do
  let q = query t boundary
  rows ← or_err (db.select q.0 q.1) query_failed
  write_rows (insert_prefix t.name (column_list t)) rows

unfoldable pub write_tables : Source → ℤ → List Table → Result DumpError Text
write_tables db boundary [] = ok []
write_tables db boundary (t ∷ ts) = do
  s ← write_table db boundary t
  rest ← write_tables db boundary ts
  ok (s ++ rest)

-- `writeHeader`
unfoldable pub write_header : Source → Result DumpError Text
write_header db = do
  version ← or_err db.schema_version query_failed
  tasks ← or_err db.tasks_high query_failed
  artifacts ← or_err db.artifacts_high query_failed
  ok (
      codes "-- selftracked dump schema_version="
      ++ (version
          ++ (codes " tasks="
              ++ (format_int tasks
                  ++ (codes " artifacts=" ++ (format_int artifacts ++ (b'\n' ∷ [])))))))

-- `Serialize`, over the DDL that the binary embeds.
unfoldable pub serialize : Text → Source → Result DumpError Text
serialize ddl db = do
  header ← write_header db
  boundary ← or_err db.boundary query_failed
  body ← write_tables db boundary tables
  ok (header ++ (ddl ++ body))
