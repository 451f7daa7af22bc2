-- ===== src/Load/Inserts.antt =====
-- `parseInsert` of internal/load/parse.go against the statement that internal/dump/serialize.go writes.
use selftracked.Common.{
  ◌+◌, ◌≡◌, subst, ◌∙◌, true, List, ◌∷◌, ◌++◌, append_assoc, some, nat_beq, nat_beq_iff, ok, All,
  Lacks, length, found, or_err-eq-ok, bind-eq-ok, guard-eq-ok,
}
use selftracked.Common.Text.{
  Text, codes, text_beq, text_beq_iff, text_beq_refl, text_eq, cut, cut-Lacks, cut-eq, cut_prefix,
  cut_prefix-append, cut_prefix-eq, cut_suffix, cut_suffix-append, cut_suffix-eq, count_byte,
}
use selftracked.Dump.{Value, write_row}
use selftracked.Dump.Tables.{insert_prefix}
use selftracked.Load.{Insert, Columns, lookup, parse_literals, parse_insert}
use selftracked.Load.Literals.{Storable, parse_literals-write_row}
use selftracked.Load.Rows.{parse_literals_sound}

-- The statement for a row, from the name and the column list of its table and the text of its values.
abbrev pub insert_line : Text → Text → Text → Text
insert_line name cols t = insert_prefix name cols ++ (t ++ codes ");")

-- The same, bracketed the way `parseInsert` takes it apart.
pub insert_line_parts :
    (name cols t : Text)
    → insert_line name cols t
      ≡ codes "INSERT INTO "
        ++ (name ++ (codes " (" ++ (cols ++ (codes ") VALUES (" ++ (t ++ codes ");")))))
unfolding insert_prefix
insert_line_parts name cols t = simp append_assoc

-- The statement for a row is read back as that row, for a table that is known under a name without
-- spaces and a column list without closing parentheses, if the row has as many values as there are
-- columns, at least one, and they are NULLs, int64s and texts that the serializer writes.
pub parse_insert-insert_line :
    (columns : Columns) (name cols t : Text) (v : Value) (vs : List Value)
    → lookup columns name ≡ some cols
    → Lacks b' ' name
    → Lacks b')' cols
    → length (v ∷ vs) ≡ count_byte b',' cols + 1
    → All Storable (v ∷ vs)
    → write_row (v ∷ vs) ≡ ok t
    → parse_insert (insert_line name cols t) columns ≡ ok (record { table = name; values = v ∷ vs })
unfolding parse_insert
parse_insert-insert_line columns name cols t v vs known spaceless closed wide storable written =
    let want : nat_beq (length (v ∷ vs)) (count_byte b',' cols + 1) ≡ true =
      (nat_beq_iff _ _).1 wide in
    rw (insert_line_parts name cols t) (
      rw (
        cut_prefix-append (codes "INSERT INTO ")
            (name ++ (codes " (" ++ (cols ++ (codes ") VALUES (" ++ (t ++ codes ");"))))),
        cut-Lacks b' ' name (codes "(") (cols ++ (codes ") VALUES (" ++ (t ++ codes ");")))
            spaceless,
        known,
        cut-Lacks b')' cols (codes " VALUES (") (t ++ codes ");") closed,
        text_beq_refl cols,
        cut_suffix-append t (codes ");"),
        parse_literals-write_row v vs t written storable,
        want,
      ))

-- `line` is the statement that the serializer writes for `ins`.
pub record IsLine (columns : Columns) (line : Text) (ins : Insert) : Type 0 where
  pub cols : Text
  pub body : Text
  pub known : lookup columns ins.table ≡ some cols
  pub written : write_row ins.values ≡ ok body
  pub wide : length ins.values ≡ count_byte b',' cols + 1
  pub spelled : line ≡ insert_line ins.table cols body

spelled_line :
    (name cols body line r0 r1 r2 : Text)
    → line ≡ codes "INSERT INTO " ++ r0
    → r0 ≡ name ++ (codes " (" ++ r1)
    → r1 ≡ cols ++ (codes ") VALUES (" ++ r2)
    → r2 ≡ body ++ codes ");"
    → line ≡ insert_line name cols body
spelled_line name cols body line r0 r1 r2 p q r s = rw insert_line_parts (rw (p, q, r, s))

-- A line that is accepted as a statement is, byte for byte, the one that the serializer writes for
-- a table of the whitelist, its columns in their order, and the row that was read, with as many
-- values as there are columns.
pub parse_insert_sound :
    (columns : Columns) (line : Text) (ins : Insert)
    → parse_insert line columns ≡ ok ins
    → IsLine columns line ins
unfolding parse_insert
parse_insert_sound columns line ins e =
    elim (or_err-eq-ok (cut_prefix line (codes "INSERT INTO ")) _ _ ins e) [
      | found r0 p0 e0 ↦ elim (or_err-eq-ok (cut r0 (codes " (")) _ _ ins e0) [
        | found (name, r1) p1 e1 ↦ elim (or_err-eq-ok (lookup columns name) _ _ ins e1) [
          | found want known e2 ↦ elim (or_err-eq-ok (cut r1 (codes ") VALUES (")) _ _ ins e2) [
            | found (cols, r2) p2 e3 ↦ elim (guard-eq-ok (text_beq cols want) _ _ ins e3) [
              | found _ same e4 ↦ elim (or_err-eq-ok (cut_suffix r2 (codes ");")) _ _ ins e4) [
                | found body p3 e5 ↦ elim (bind-eq-ok (parse_literals body) _ ins e5) [
                  | found values read e6 ↦
                      elim (guard-eq-ok (nat_beq (length values) (count_byte b',' want + 1)) _ _ ins
                        e6) [
                          | found _ wide e7 ↦
                              let q : record { table = name; values = values } ≡ ins = cc in
                              let w : cols ≡ want = (text_beq_iff cols want).0 same in
                              subst (IsLine columns line) q (record {
                                cols = want;
                                body = body;
                                known = known;
                                written = parse_literals_sound body values read;
                                wide = (nat_beq_iff _ _).0 wide;
                                spelled =
                                    spelled_line name want body line r0 r1 r2
                                      (cut_prefix-eq line _ r0 p0) (cut-eq r0 _ name r1 p1)
                                      (cut-eq r1 _ cols r2 p2 ∙ rw w) (cut_suffix-eq r2 _ body p3);
                              })
                        ]
                ]
              ]
            ]
          ]
        ]
      ]
    ]
