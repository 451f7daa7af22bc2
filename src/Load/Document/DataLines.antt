-- ===== src/Load/Document/DataLines.antt =====
-- `Parse` of internal/load/parse.go undoes `Serialize` of internal/dump/serialize.go: the data lines.
use mathlib.Core.List.{cons-ne-nil}
use selftracked.Common.{
  ℕ, suc, ◌+◌, ◌≡◌, ◌≢◌, refl, ap, subst, ◌∙◌, List, [], ◌∷◌, ◌++◌, map, append_assoc, Option, none,
  some, nat_beq, ok, arith, All, All-append, Lacks, length, Bool-cases, found, bind-eq-ok,
  or_err-eq-ok, inl, inr,
}
use selftracked.Common.Int.{ℤ, pos, negsuc}
use selftracked.Common.Text.{Text, codes, split, split-Lacks, count_byte}
use selftracked.Decimal.{format_int, format_nat, format_nat-All, IsDigit}
use selftracked.Dump.{Value, null, int, text, other, quote, double_quotes, write_literal, write_row}
use selftracked.Dump.Tables.{
  Table, Source, column_list, query, insert_prefix, write_rows, write_table, write_tables,
}
use selftracked.Load.{Insert, Columns, lookup, parse_insert, data_lines}
use selftracked.Load.Literals.{Storable}
use selftracked.Load.Inserts.{insert_line, insert_line_parts, parse_insert-insert_line}
use selftracked.Load.Document.{expected_columns}

-- A text value that holds no line feed.
abbrev pub OneLine : Value → Type 0
OneLine (text s) = Lacks b'\n' s
OneLine null = Unit
OneLine (int i) = Unit
OneLine other = Unit

-- A row as a SELECT of the columns answers it, over a database that holds no control characters.
pub record IsRow (cols : Text) (row : List Value) : Type 0 where
  pub wide : length row ≡ count_byte b',' cols + 1
  pub storable : All Storable row
  pub one_line : All OneLine row

-- What the loader relies on in the compiled-in tables.
pub record IsTable (name cols : Text) : Type 0 where
  pub known : lookup expected_columns name ≡ some cols
  pub spaceless : Lacks b' ' name
  pub closed : Lacks b')' cols
  pub name_one_line : Lacks b'\n' name
  pub cols_one_line : Lacks b'\n' cols

pub digits_one_line : (s : Text) → All IsDigit s → Lacks b'\n' s
digits_one_line [] h = tt
digits_one_line (c ∷ s) (d, h) = (ground arith, digits_one_line s h)

pub format_int_one_line : (i : ℤ) → Lacks b'\n' (format_int i)
unfolding format_int
format_int_one_line (pos n) = digits_one_line (format_nat n) (format_nat-All n)
format_int_one_line (negsuc n) =
    (omega arith, digits_one_line (format_nat (suc n)) (format_nat-All (suc n)))

double_quotes_one_line : (s : Text) → Lacks b'\n' s → Lacks b'\n' (double_quotes s)
unfolding double_quotes
double_quotes_one_line [] h = tt
double_quotes_one_line (c ∷ s) (d, h) = elim (Bool-cases (nat_beq c quote)) [
  | inl e ↦ rw e (omega arith, (omega arith, double_quotes_one_line s h))
  | inr e ↦ rw e (d, double_quotes_one_line s h)
]

abbrev NoFeed : ℕ → Type 0
NoFeed c = c ≢ b'\n'

write_literal-OneLine : (v : Value) (t : Text) → write_literal v ≡ ok t → OneLine v → Lacks b'\n' t
unfolding write_literal
write_literal-OneLine null t e h = subst (Lacks b'\n') {x = codes "NULL"} (cc) (omega arith)
write_literal-OneLine (int i) t e h =
    subst (Lacks b'\n') {x = format_int i} (cc) (format_int_one_line i)
write_literal-OneLine (text s) t e h =
    subst (Lacks b'\n') {x = quote ∷ (double_quotes s ++ (quote ∷ []))} (cc) (
      omega arith,
      All-append NoFeed (double_quotes s) (quote ∷ []) (double_quotes_one_line s h)
          (omega arith, tt),
    )
write_literal-OneLine other t e h = cc

write_row-OneLine :
    (vs : List Value) (t : Text) → write_row vs ≡ ok t → All OneLine vs → Lacks b'\n' t
unfolding write_row
write_row-OneLine [] t e h = subst (Lacks b'\n') {x = []} (cc) tt
write_row-OneLine (v ∷ []) t e h = write_literal-OneLine v t e h.0
write_row-OneLine (v ∷ w ∷ vs) t e h = elim (bind-eq-ok (write_literal v) _ t e) [
  | found a p e1 ↦ elim (bind-eq-ok (write_row (w ∷ vs)) _ t e1) [
    | found b q e2 ↦ subst (Lacks b'\n') {x = a ++ (b',' ∷ b' ' ∷ b)} (cc) (
        All-append NoFeed a (b',' ∷ b' ' ∷ b) (write_literal-OneLine v a p h.0)
          (omega arith, (omega arith, write_row-OneLine (w ∷ vs) b q h.1)))
  ]
]

pub joined : (a b : Text) → Lacks b'\n' a → Lacks b'\n' b → Lacks b'\n' (a ++ b)
joined a b h k = All-append NoFeed a b h k

insert_line_one_line :
    (name cols t : Text) → IsTable name cols → Lacks b'\n' t → Lacks b'\n' (insert_line name cols t)
insert_line_one_line name cols t k h = rw (insert_line_parts name cols t) (
    joined (codes "INSERT INTO ") _ (omega arith) (
      joined name _ k.name_one_line (
        joined (codes " (") _ (omega arith) (
          joined cols _ k.cols_one_line (
            joined (codes ") VALUES (") _ (omega arith) (joined t (codes ");") h (omega arith)))))))

insert_line-split :
    (name cols t rest : Text)
    → IsTable name cols
    → Lacks b'\n' t
    → split (insert_prefix name cols ++ (t ++ (codes ");" ++ (b'\n' ∷ rest)))) b'\n'
      ≡ insert_line name cols t ∷ split rest b'\n'
insert_line-split name cols t rest k h =
    ap (λ z. split z b'\n') (simp append_assoc)
    ∙ split-Lacks (insert_line name cols t) b'\n' rest (insert_line_one_line name cols t k h)

-- The loader's loop over a statement for a good row, whatever lines come behind it.
data_lines-cons :
    (line : Text) (ls : List Text) (columns : Columns) (ins : Insert) (more : List Insert)
    → line ≢ []
    → parse_insert line columns ≡ ok ins
    → data_lines columns ls ≡ ok more
    → data_lines columns (line ∷ ls) ≡ ok (ins ∷ more)
unfolding data_lines
data_lines-cons [] ls columns ins more h e k = absurd (h refl)
data_lines-cons (c ∷ line) ls columns ins more h e k = rw (e, k)

-- The statements of a table.
abbrev pub inserts_of : Text → List (List Value) → List Insert
inserts_of name rows = map (λ vals. record { table = name; values = vals }) rows

insert_line-ne-nil : (name cols t : Text) → insert_line name cols t ≢ []
unfolding insert_prefix
insert_line-ne-nil name cols t = cons-ne-nil _ _

spelled_rows :
    (p a b rest t : Text)
    → t ≡ p ++ (a ++ (codes ");" ++ (b'\n' ∷ b)))
    → t ++ rest ≡ p ++ (a ++ (codes ");" ++ (b'\n' ∷ (b ++ rest))))
spelled_rows p a b rest t e = rw e (simp append_assoc)

data_lines-write_rows :
    (name cols : Text) (rows : List (List Value)) (t rest : Text) (more : List Insert)
    → IsTable name cols
    → All (IsRow cols) rows
    → write_rows (insert_prefix name cols) rows ≡ ok t
    → data_lines expected_columns (split rest b'\n') ≡ ok more
    → data_lines expected_columns (split (t ++ rest) b'\n') ≡ ok (inserts_of name rows ++ more)
unfolding write_rows
data_lines-write_rows name cols [] t rest more k h e m = let q : t ≡ [] = cc in rw q m
data_lines-write_rows name cols ([] ∷ rows) t rest more k h e m = absurd (omega (arith, h.0.wide))
data_lines-write_rows name cols ((v ∷ vs) ∷ rows) t rest more k (h, hs) e m =
    elim (bind-eq-ok (write_row (v ∷ vs)) _ t e) [
      | found a p e1 ↦ elim (bind-eq-ok (write_rows (insert_prefix name cols) rows) _ t e1) [
        | found b q e2 ↦
            let line = insert_line name cols a in
            let ih : data_lines expected_columns (split (b ++ rest) b'\n')
                ≡ ok (inserts_of name rows ++ more) =
              data_lines-write_rows name cols rows b rest more k hs q m in
            let parted : split (t ++ rest) b'\n' ≡ line ∷ split (b ++ rest) b'\n' =
              ap (λ z. split z b'\n') (spelled_rows (insert_prefix name cols) a b rest t (cc))
              ∙ insert_line-split name cols a (b ++ rest) k
                  (write_row-OneLine (v ∷ vs) a p h.one_line) in
            rw parted (
              data_lines-cons line (split (b ++ rest) b'\n') expected_columns
                (record { table = name; values = v ∷ vs }) (inserts_of name rows ++ more)
                (insert_line-ne-nil name cols a)
                (parse_insert-insert_line expected_columns name cols a v vs k.known k.spaceless
                  k.closed h.wide h.storable p)
                ih)
      ]
    ]

abbrev pub or_no_rows : Option (List (List Value)) → List (List Value)
or_no_rows (some rows) = rows
or_no_rows none = []

-- The rows that the engine answers for a table, in the order in which it answers them.
abbrev pub rows_of_table : Source → ℤ → Table → List (List Value)
rows_of_table db boundary t = or_no_rows (db.select (query t boundary).0 (query t boundary).1)

-- What a dump of the tables has to hold: a statement for each row of each table, in order.
unfoldable pub statements : Source → ℤ → List Table → List Insert
statements db boundary [] = []
statements db boundary (t ∷ ts) =
    inserts_of t.name (rows_of_table db boundary t) ++ statements db boundary ts

-- The engine answers the query of a table by rows of its columns.
abbrev pub Answers : Source → ℤ → Table → Type 0
Answers db boundary t = All (IsRow (column_list t)) (rows_of_table db boundary t)

data_lines-write_table :
    (db : Source) (boundary : ℤ) (t : Table) (s rest : Text) (more : List Insert)
    → IsTable t.name (column_list t)
    → Answers db boundary t
    → write_table db boundary t ≡ ok s
    → data_lines expected_columns (split rest b'\n') ≡ ok more
    → data_lines expected_columns (split (s ++ rest) b'\n')
      ≡ ok (inserts_of t.name (rows_of_table db boundary t) ++ more)
unfolding write_table
data_lines-write_table db boundary t s rest more k a e m =
    elim (or_err-eq-ok (db.select (query t boundary).0 (query t boundary).1) _ _ s e) [
      | found rows p e1 ↦
          let v : rows_of_table db boundary t ≡ rows = ap or_no_rows p in
          rw v (
            data_lines-write_rows t.name (column_list t) rows s rest more k
              (subst (All (IsRow (column_list t))) v a) e1 m)
    ]

pub data_lines-write_tables :
    (db : Source) (boundary : ℤ) (ts : List Table) (s : Text)
    → All (λ t. IsTable t.name (column_list t)) ts
    → All (Answers db boundary) ts
    → write_tables db boundary ts ≡ ok s
    → data_lines expected_columns (split s b'\n') ≡ ok (statements db boundary ts)
unfolding write_tables statements
data_lines-write_tables db boundary [] s k a e =
    let q : s ≡ [] = cc in rw q (unfold split data_lines in refl)
data_lines-write_tables db boundary (t ∷ ts) s (k, ks) (a, as') e =
    elim (bind-eq-ok (write_table db boundary t) _ s e) [
      | found u p e1 ↦ elim (bind-eq-ok (write_tables db boundary ts) _ s e1) [
        | found w q e2 ↦
            let v : s ≡ u ++ w = cc in
            rw v (
              data_lines-write_table db boundary t u w (statements db boundary ts) k a p
                (data_lines-write_tables db boundary ts w ks as' q))
      ]
    ]
