-- ===== src/Load/Tests.antt =====
-- Runs of the theorems on internal/load and internal/dump at a small database.
use selftracked.Common.{
  ◌++◌, some, length, ◌+◌, ◌≡◌, refl, arith, ok, err, ◌≢◌, some, none, Option, List, [], ◌∷◌, Lacks,
}
use selftracked.Common.Int.{pos, negsuc}
use selftracked.Common.Text.{Text, codes, text_beq, text_eq, cut_prefix, cut, join_with, count_byte}
use selftracked.Decimal.{format_nat, format_int, digits}
use selftracked.Dump.{Value, null, int, text, write_row, write_literal, double_quotes}
use selftracked.Dump.Tables.{
  Source, tables, serialize, query, column_list, write_header, write_tables, write_table,
  write_rows, insert_prefix,
}
use selftracked.Common.Words.{fields}
use selftracked.Load.{Insert, out_of_fuel, parse_literals, parse_insert, lookup}
use selftracked.Load.Literals.{parse_literals-write_row}
use selftracked.Load.Rows.{parse_literals_sound, parse_literals_total}
use selftracked.Load.Inserts.{insert_line, IsLine, parse_insert-insert_line, parse_insert_sound}
use selftracked.Load.Document.{Binary, parse}
use selftracked.Load.Document.RoundTrip.{IsSource, parse-serialize}
use selftracked.Load.Document.DataLines.{IsRow, statements}
use selftracked.Dump.Header.{header_version_of}
use selftracked.Load.Document.Headers.{header_version_of-parse}
use selftracked.Load.Document.Accepted.{IsDump, parse-IsDump}

abbrev row : List Value
row = text (codes "it's") ∷ int (negsuc 6) ∷ null ∷ []

abbrev row_text : Text
row_text = codes "'it''s', -7, NULL"

row_written : write_row row ≡ ok row_text
unfolding write_row write_literal double_quotes format_int format_nat digits
row_written = refl

row_read : parse_literals row_text ≡ ok row
row_read =
    parse_literals-write_row (text (codes "it's")) (int (negsuc 6) ∷ null ∷ []) row_text row_written
      (tt, (omega arith, (tt, tt)))

parse_literals-write_row_example : parse_literals row_text ≡ ok row
parse_literals-write_row_example =
    parse_literals-write_row (text (codes "it's")) (int (negsuc 6) ∷ null ∷ []) row_text row_written
      (tt, (omega arith, (tt, tt)))

parse_literals_sound_example : write_row row ≡ ok row_text
parse_literals_sound_example = parse_literals_sound row_text row row_read

-- A database that holds a meta row only.
abbrev meta_row : List Value
meta_row = text (codes "schema_version") ∷ text (codes "1") ∷ []

abbrev rows_if_meta : Option Text → Option (List (List Value))
rows_if_meta (some _) = some (meta_row ∷ [])
rows_if_meta none = some []

abbrev small : Source
small = record {
  schema_version = some (codes "1");
  tasks_high = some (pos 3);
  artifacts_high = some (pos 0);
  boundary = some (pos 0);
  select = λ q a. rows_if_meta (cut_prefix q (codes "SELECT key, value FROM meta "));
}

abbrev binary : Binary
binary = record { current = 1; ddl = codes "CREATE TABLE meta;\n"; steps = [] }

abbrev small_text : Text
small_text =
    codes
      "-- selftracked dump schema_version=1 tasks=3 artifacts=0\nCREATE TABLE meta;\nINSERT INTO meta (key, value) VALUES ('schema_version', '1');\n"

small_written : serialize binary.ddl small ≡ ok small_text
unfolding serialize write_header write_tables write_table write_rows write_row write_literal
    double_quotes insert_prefix query column_list tables fields join_with cut_prefix cut text_beq
    format_int format_nat digits
small_written = refl

meta_row-IsRow : IsRow (codes "key, value") meta_row
unfolding count_byte
meta_row-IsRow = record {
  wide = refl;
  storable = (tt, (tt, tt));
  one_line = (omega arith, (omega arith, tt));
}

small-IsSource : IsSource binary small
unfolding query column_list tables fields join_with cut_prefix cut text_beq format_int format_nat
    digits
small-IsSource = record {
  version = refl;
  answers = λ b.
      ((meta_row-IsRow, tt), (tt, (tt, (tt, (tt, (tt, (tt, (tt, (tt, (tt, (tt, (tt, tt))))))))))));
}

small_read :
    parse binary small_text ≡ ok (record { version = 1; inserts = statements small (pos 0) tables })
small_read =
    parse-serialize binary small (pos 0) small_text (omega arith) (omega arith) small-IsSource refl
      small_written

parse-serialize_example :
    parse binary small_text ≡ ok (record { version = 1; inserts = statements small (pos 0) tables })
parse-serialize_example =
    parse-serialize binary small (pos 0) small_text (omega arith) (omega arith) small-IsSource refl
      small_written

parse-IsDump_example :
    IsDump binary small_text (record { version = 1; inserts = statements small (pos 0) tables })
parse-IsDump_example =
    parse-IsDump binary small_text
      (record { version = 1; inserts = statements small (pos 0) tables }) small_read

parse_literals_total_example : parse_literals (codes "'a', 12x") ≢ err out_of_fuel
parse_literals_total_example = parse_literals_total (codes "'a', 12x")

abbrev three : List (Text × Text)
three = (codes "t", codes "a, b, c") ∷ []

abbrev three_ins : Insert
three_ins = record { table = codes "t"; values = row }

known : lookup three (codes "t") ≡ some (codes "a, b, c")
unfolding lookup text_beq
known = refl

wide : length row ≡ count_byte b',' (codes "a, b, c") + 1
unfolding count_byte
wide = refl

three_read : parse_insert (insert_line (codes "t") (codes "a, b, c") row_text) three ≡ ok three_ins
three_read =
    parse_insert-insert_line three (codes "t") (codes "a, b, c") row_text (text (codes "it's"))
      (int (negsuc 6) ∷ null ∷ []) known (omega arith) (omega arith) wide
      (tt, (omega arith, (tt, tt))) row_written

parse_insert-insert_line_example :
    parse_insert (insert_line (codes "t") (codes "a, b, c") row_text) three ≡ ok three_ins
parse_insert-insert_line_example =
    parse_insert-insert_line three (codes "t") (codes "a, b, c") row_text (text (codes "it's"))
      (int (negsuc 6) ∷ null ∷ []) known (omega arith) (omega arith) wide
      (tt, (omega arith, (tt, tt))) row_written

parse_insert_sound_example :
    IsLine three (insert_line (codes "t") (codes "a, b, c") row_text) three_ins
parse_insert_sound_example =
    parse_insert_sound three (insert_line (codes "t") (codes "a, b, c") row_text) three_ins
      three_read

header_version_of-parse_example :
    (header : Text) × (rest : Text) × Lacks b'\n' header
    × (small_text ≡ header ++ (b'\n' ∷ rest))
    × (header_version_of header ≡ some 1)
header_version_of-parse_example =
    header_version_of-parse binary small_text
      (record { version = 1; inserts = statements small (pos 0) tables }) small_read
