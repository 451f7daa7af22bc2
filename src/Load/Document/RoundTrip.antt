-- ===== src/Load/Document/RoundTrip.antt =====
-- `Parse` of internal/load/parse.go undoes `Serialize` of internal/dump/serialize.go.
use selftracked.Common.{
  ℕ, zero, suc, ◌<◌, ◌^◌, ◌≡◌, refl, sym, ap, subst, ◌∙◌, Bool, true, false, List, [], ◌∷◌, ◌++◌,
  append_assoc, Option, none, some, nat_beq, ltb, Result, ok, arith, All, All-append, Lacks, ◌&&◌,
  found, bind-eq-ok, or_err-eq-ok, ok-injective, nat_beq_iff, not,
}
use selftracked.Common.Int.{ℤ}
use selftracked.Common.Text.{
  Text, codes, text_beq, text_beq_iff, split, cut-Lacks, cut_prefix-append, join_with,
}
use selftracked.Common.Words.{IsWord, fields, fields-cons}
use selftracked.Decimal.{format_int, format_nat, format_nat-All, IsDigit, parse_int-format_nat}
use selftracked.Dump.{DumpError}
use selftracked.Dump.Tables.{
  Table, Source, tables, column_list, write_header, write_tables, serialize,
}
use selftracked.Load.{Insert, data_lines, lookup}
use selftracked.Load.Document.{
  Binary, grammar_for, version_of, header_version, has_prefix, trim_prefix, header_prefix,
  dump_prefix, parse_preamble, parse, expected_columns,
}
use selftracked.Load.Document.DataLines.{
  IsTable, Answers, statements, data_lines-write_tables, format_int_one_line, joined,
  digits_one_line,
}

lacks : ℕ → Text → Bool
lacks b [] = true
lacks b (c ∷ s) = not (nat_beq c b) && lacks b s

lacks-Lacks : (b : ℕ) (s : Text) → lacks b s ≡ true → Lacks b s
unfolding lacks
lacks-Lacks b [] h = tt
lacks-Lacks b (c ∷ s) h = (ground arith, lacks-Lacks b s (ground arith))

known_as : Option Text → Text → Bool
known_as (some c) cols = text_beq c cols
known_as none cols = false

known_as-eq : (o : Option Text) (cols : Text) → known_as o cols ≡ true → o ≡ some cols
unfolding known_as
known_as-eq (some c) cols h = ap some ((text_beq_iff c cols).0 h)
known_as-eq none cols h = cc

is_table : Text → Text → Bool
is_table name cols =
    known_as (lookup expected_columns name) cols
    && (lacks b' ' name && (lacks b')' cols && (lacks b'\n' name && lacks b'\n' cols)))

is_table-IsTable : (name cols : Text) → is_table name cols ≡ true → IsTable name cols
unfolding is_table
is_table-IsTable name cols h = record {
  known = known_as-eq (lookup expected_columns name) cols (ground arith);
  spaceless = lacks-Lacks b' ' name (ground arith);
  closed = lacks-Lacks b')' cols (ground arith);
  name_one_line = lacks-Lacks b'\n' name (ground arith);
  cols_one_line = lacks-Lacks b'\n' cols (ground arith);
}

all_tables : List Table → Bool
all_tables [] = true
all_tables (t ∷ ts) = is_table t.name (column_list t) && all_tables ts

all_tables-All :
    (ts : List Table) → all_tables ts ≡ true → All (λ t. IsTable t.name (column_list t)) ts
unfolding all_tables
all_tables-All [] h = tt
all_tables-All (t ∷ ts) h =
    (is_table-IsTable t.name (column_list t) (ground arith), all_tables-All ts (ground arith))

tables_checked : all_tables tables ≡ true
unfolding all_tables is_table lacks known_as tables column_list expected_columns lookup join_with
    fields text_beq
tables_checked = refl

-- The compiled-in tables are those of the loader's whitelist, with the same columns.
tables-IsTable : All (λ t. IsTable t.name (column_list t)) tables
tables-IsTable = all_tables-All tables tables_checked

digits-IsWord : (s : Text) → All IsDigit s → All IsWord s
digits-IsWord [] h = tt
digits-IsWord (c ∷ s) (d, h) = ((ground arith, ground arith), digits-IsWord s h)

-- The words behind the prefix of a header begin with the version.
header_fields :
    (v rest : Text)
    → All IsDigit v
    → fields (codes "schema_version=" ++ (v ++ (b' ' ∷ rest)))
      ≡ (codes "schema_version=" ++ v) ∷ fields rest
header_fields v rest h =
    ap fields (sym (append_assoc (codes "schema_version=") v (b' ' ∷ rest)))
    ∙ fields-cons b's' (codes "chema_version=" ++ v) rest
        (All-append IsWord (codes "schema_version=") v (ground arith) (digits-IsWord v h))

header_version-format_nat :
    (n : ℕ) (fs : List Text)
    → 0 < n
    → n < 2 ^ 63
    → header_version ((codes "schema_version=" ++ format_nat n) ∷ fs) ≡ ok n
unfolding header_version
header_version-format_nat zero fs p h = absurd (omega arith)
header_version-format_nat (suc n) fs p h =
    rw (cut_prefix-append (codes "schema_version=") (format_nat (suc n)), header_version)
      (rw (parse_int-format_nat (suc n) h) (unfold version_of in refl))

-- The header that `writeHeader` writes, without its line feed.
header_line : Text → ℤ → ℤ → Text
header_line version tasks artifacts =
    header_prefix
    ++ (version
        ++ (codes " tasks=" ++ (format_int tasks ++ (codes " artifacts=" ++ format_int artifacts))))

header_line_one_line : (v : Text) (t a : ℤ) → All IsDigit v → Lacks b'\n' (header_line v t a)
unfolding header_line
header_line_one_line v t a h = joined header_prefix _ (omega arith) (
    joined v _ (digits_one_line v h) (
      joined (codes " tasks=") _ (omega arith) (
        joined (format_int t) _ (format_int_one_line t)
          (joined (codes " artifacts=") _ (omega arith) (format_int_one_line a)))))

header_of_ok :
    (v : Text) (t a : ℤ) (h : Text)
    → ◌≡◌ {A = Result DumpError Text}
        (ok (
          header_prefix
          ++ (v
              ++ (codes " tasks="
                  ++ (format_int t ++ (codes " artifacts=" ++ (format_int a ++ (b'\n' ∷ []))))))))
        (ok h)
    → h ≡ header_line v t a ++ (b'\n' ∷ [])
unfolding header_line
header_of_ok v t a h e = sym (ok-injective e) ∙ simp append_assoc

write_header-line :
    (db : Source) (h v : Text)
    → db.schema_version ≡ some v
    → write_header db ≡ ok h
    → (t : ℤ) × (a : ℤ) × (h ≡ header_line v t a ++ (b'\n' ∷ []))
unfolding write_header header_line
write_header-line db h v p e = elim (or_err-eq-ok db.schema_version _ _ h e) [
  | found w q e1 ↦ elim (or_err-eq-ok db.tasks_high _ _ h e1) [
    | found t r e2 ↦ elim (or_err-eq-ok db.artifacts_high _ _ h e2) [
      | found a s e3 ↦
          let same : w ≡ v = cc in
          (t, a, subst (λ z. h ≡ header_line z t a ++ (b'\n' ∷ [])) same (header_of_ok w t a h e3))
    ]
  ]
]

has_prefix-append : (p s : Text) → has_prefix (p ++ s) p ≡ true
unfolding has_prefix
has_prefix-append p s = rw (cut_prefix-append p s, has_prefix)

trim_prefix-append : (p s : Text) → trim_prefix (p ++ s) p ≡ s
unfolding trim_prefix
trim_prefix-append p s = rw (cut_prefix-append p s, trim_prefix)

module _ (v : Text) (t a : ℤ) where
  -- What stands behind the version.
  header_tail : Text
  header_tail = codes "tasks=" ++ (format_int t ++ (codes " artifacts=" ++ format_int a))

  header_line_prefix : has_prefix (header_line v t a) header_prefix ≡ true
  unfolding header_line
  header_line_prefix =
      has_prefix-append header_prefix
        (v ++ (codes " tasks=" ++ (format_int t ++ (codes " artifacts=" ++ format_int a))))

  header_line_trimmed :
      trim_prefix (header_line v t a) dump_prefix
      ≡ codes "schema_version=" ++ (v ++ (b' ' ∷ header_tail))
  unfolding header_line header_tail
  header_line_trimmed =
      trim_prefix-append dump_prefix (codes "schema_version=" ++ (v ++ (b' ' ∷ header_tail)))

-- The version is read from the header that was written.
header_line_version :
    (n : ℕ) (t a : ℤ)
    → 0 < n
    → n < 2 ^ 63
    → header_version (fields (trim_prefix (header_line (format_nat n) t a) dump_prefix)) ≡ ok n
header_line_version n t a p h =
    rw
      (
        header_line_trimmed (format_nat n) t a,
        header_fields (format_nat n) (header_tail (format_nat n) t a) (format_nat-All n),
      )
      (header_version-format_nat n (fields (header_tail (format_nat n) t a)) p h)

grammar_for_current :
    (b : Binary)
    → grammar_for b b.current ≡ some (record { ddl = b.ddl; columns = expected_columns })
unfolding grammar_for
grammar_for_current b = rw ((nat_beq_iff b.current b.current).1 refl)

not_newer : (n : ℕ) → not (ltb n n) ≡ true
not_newer n = ground arith

-- A text that begins with the header and the DDL of this binary is taken apart into the version and
-- the data lines.
parse_preamble-header_line :
    (b : Binary) (t a : ℤ) (body : Text)
    → 0 < b.current
    → b.current < 2 ^ 63
    → parse_preamble b (header_line (format_nat b.current) t a ++ (b'\n' ∷ (b.ddl ++ body)))
      ≡ ok (b.current, body)
unfolding parse_preamble
parse_preamble-header_line b t a body p h =
    let v = format_nat b.current in
    let one = header_line_one_line v t a (format_nat-All b.current) in
    rw (
      cut-Lacks b'\n' (header_line v t a) [] (b.ddl ++ body) one,
      header_line_prefix v t a,
      header_line_version b.current t a p h,
      not_newer b.current,
      grammar_for_current b,
      cut_prefix-append b.ddl body,
    )

-- `Parse` from the answers of its two passes.
parse_of :
    (b : Binary) (s body : Text) (ins : List Insert)
    → parse_preamble b s ≡ ok (b.current, body)
    → data_lines expected_columns (split body b'\n') ≡ ok ins
    → parse b s ≡ ok (record { version = b.current; inserts = ins })
unfolding parse
parse_of b s body ins e k = rw e (rw (grammar_for_current b, k))

-- `db` answers every query of the serializer with rows of the columns that were asked for, made of
-- int64s, strings without line feeds and NULLs, and records the version that the binary compiles in.
pub record IsSource (b : Binary) (db : Source) : Type 0 where
  pub version : db.schema_version ≡ some (format_nat b.current)
  pub answers : (boundary : ℤ) → All (Answers db boundary) tables

serialized_parts :
    (hd line ddl body s : Text)
    → hd ≡ line ++ (b'\n' ∷ [])
    → ◌≡◌ {A = Result DumpError Text} (ok (hd ++ (ddl ++ body))) (ok s)
    → s ≡ line ++ (b'\n' ∷ (ddl ++ body))
serialized_parts hd line ddl body s p e =
    sym (ok-injective e)
    ∙ ap (λ z. z ++ (ddl ++ body)) p
    ∙ append_assoc line (b'\n' ∷ []) (ddl ++ body)

-- If the database records the version that the binary compiles in (a positive one below 2^63),
-- answers the query of each table with rows of its columns made of NULLs, int64s and texts without
-- line feeds, and has an archive boundary, then every text that the serializer returns for it, over
-- the embedded DDL, is accepted by the loader and read as that version with one statement for each
-- row, in the order of the tables and of their rows.
pub parse-serialize :
    (b : Binary) (db : Source) (boundary : ℤ) (s : Text)
    → 0 < b.current
    → b.current < 2 ^ 63
    → IsSource b db
    → db.boundary ≡ some boundary
    → serialize b.ddl db ≡ ok s
    → parse b s ≡ ok (record { version = b.current; inserts = statements db boundary tables })
unfolding serialize parse
parse-serialize b db boundary s p h src q e = elim (bind-eq-ok (write_header db) _ s e) [
  | found hd e0 e1 ↦ elim (or_err-eq-ok db.boundary _ _ s e1) [
    | found bd e2 e3 ↦ elim (bind-eq-ok (write_tables db bd tables) _ s e3) [
      | found body e4 e5 ↦
          let (t, a, line) = write_header-line db hd (format_nat b.current) src.version e0 in
          let same : bd ≡ boundary = cc in
          let whole : s ≡ header_line (format_nat b.current) t a ++ (b'\n' ∷ (b.ddl ++ body)) =
            serialized_parts hd (header_line (format_nat b.current) t a) b.ddl body s line e5 in
          rw whole (
            parse_of b _ body (statements db boundary tables)
              (parse_preamble-header_line b t a body p h)
              (data_lines-write_tables db boundary tables body tables-IsTable (src.answers boundary)
                (subst (λ z. write_tables db z tables ≡ ok body) same e4)))
    ]
  ]
]
