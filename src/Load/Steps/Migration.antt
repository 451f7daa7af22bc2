-- ===== src/Load/Steps/Migration.antt =====
-- What the regrouping of internal/load/steps.go keeps, and what the pin of the version does to the table `meta`.
use selftracked.Common.{
  ℕ, ◌≡◌, refl, sym, ap, ◌∙◌, true, false, List, [], ◌∷◌, ◌++◌, append_assoc, append-nil, Option,
  none, some, ◌==◌, if◌then◌else◌, Bool-cases, inl, inr,
}
use selftracked.Common.Text.{Text, text_beq_iff, text_beq_refl, text_eq, codes}
use selftracked.Decimal.{format_nat}
use selftracked.Dump.{Value, text}
use selftracked.Load.{Insert, Dump}
use selftracked.Load.Steps.{
  Row, Corpus, rows_of, set_rows, regroup, corpus_from_dump, is_version_row, schema_version_key,
  pin_rows, pin_schema_version,
}

-- The rows that the statements for a table carry, in their order.
unfoldable pub rows_for : Text → List Insert → List Row
rows_for name [] = []
rows_for name (i ∷ is) = if i.table == name then i.values ∷ rows_for name is else rows_for name is

other_name : (u t name : Text) → (u == t) ≡ false → (u == name) ≡ true → (t == name) ≡ false
other_name u t name e k = elim (Bool-cases (t == name)) [
  | inl h ↦
      let a = (text_beq_iff u name).0 k in
      let b = (text_beq_iff t name).0 h in
      let r : (u == t) ≡ true = rw (a, b) (text_beq_refl name) in cc
  | inr h ↦ h
]

-- A table that was set has the rows it was set to, and no other table changed.
rows_of-set_rows :
    (c : Corpus) (t name : Text) (rows : List Row)
    → rows_of (set_rows c t rows) name ≡ (if t == name then rows else rows_of c name)
unfolding rows_of set_rows
rows_of-set_rows [] t name rows = refl
rows_of-set_rows ((u, rs) ∷ c) t name rows = elim (Bool-cases (u == t)) [
  | inl e ↦
      let q = (text_beq_iff u t).0 e in
      rw e (elim (Bool-cases (u == name)) [
        | inl k ↦ let m : (t == name) ≡ true = cc in rw (k, m)
        | inr k ↦ let m : (t == name) ≡ false = cc in rw (k, m)
      ])
  | inr e ↦ rw e (elim (Bool-cases (u == name)) [
    | inl k ↦ let m : (t == name) ≡ false = other_name u t name e k in rw (k, m)
    | inr k ↦ rw k (rows_of-set_rows c t name rows)
  ])
]

rows_of-regroup :
    (c : Corpus) (is : List Insert) (name : Text)
    → rows_of (regroup c is) name ≡ rows_of c name ++ rows_for name is
unfolding regroup rows_for
rows_of-regroup c [] name = sym (append-nil (rows_of c name))
rows_of-regroup c (i ∷ is) name =
    rows_of-regroup (set_rows c i.table (rows_of c i.table ++ (i.values ∷ []))) is name
    ∙ ap (λ z. z ++ rows_for name is)
        (rows_of-set_rows c i.table name (rows_of c i.table ++ (i.values ∷ [])))
    ∙ elim (Bool-cases (i.table == name)) [
      | inl e ↦
          let q = (text_beq_iff i.table name).0 e in
          rw e (
            append_assoc (rows_of c i.table) (i.values ∷ []) (rows_for name is)
            ∙ ap (λ z. rows_of c z ++ (i.values ∷ rows_for name is)) q)
      | inr e ↦ rw e refl
    ]

-- The corpus of a dump holds for every table the rows of the statements for that table, in the
-- order of the dump.
pub rows_of-corpus_from_dump :
    (d : Dump) (name : Text) → rows_of (corpus_from_dump d) name ≡ rows_for name d.inserts
unfolding corpus_from_dump
rows_of-corpus_from_dump d name = rows_of-regroup [] d.inserts name

-- The second value of a row of two.
value_of : Row → Option Value
value_of (k ∷ v ∷ []) = some v
value_of _ = none

-- The value of the first row that names the schema version.
unfoldable pub version_value : List Row → Option Value
unfolding value_of
version_value [] = none
version_value (row ∷ rows) = if is_version_row row then value_of row else version_value rows

version_value-pin_rows :
    (want : Text) (rows : List Row) → version_value (pin_rows want rows) ≡ some (text want)
unfolding version_value pin_rows
version_value-pin_rows want [] = rw (text_beq_refl schema_version_key) refl
version_value-pin_rows want (row ∷ rows) = elim (Bool-cases (is_version_row row)) [
  | inl e ↦ rw e (rw (text_beq_refl schema_version_key) refl)
  | inr e ↦ rw e (rw e (version_value-pin_rows want rows))
]

-- After the version is pinned, the first version row of the meta table holds the target version,
-- whether there was such a row before or not.
pub version_value-pin_schema_version :
    (c : Corpus) (to : ℕ)
    → version_value (rows_of (pin_schema_version c to) (codes "meta")) ≡ some (text (format_nat to))
unfolding pin_schema_version
version_value-pin_schema_version c to =
    rw
      (
        rows_of-set_rows c (codes "meta") (codes "meta")
            (pin_rows (format_nat to) (rows_of c (codes "meta"))),
        text_beq_refl (codes "meta"),
      )
      (version_value-pin_rows (format_nat to) (rows_of c (codes "meta")))

-- The rows of meta that do not name the schema version.
unfoldable pub unversioned : List Row → List Row
unversioned [] = []
unversioned (row ∷ rows) =
    let rest = unversioned rows in if is_version_row row then rest else row ∷ rest

unversioned-pin_rows :
    (want : Text) (rows : List Row) → unversioned (pin_rows want rows) ≡ unversioned rows
unfolding unversioned pin_rows
unversioned-pin_rows want [] = rw (text_beq_refl schema_version_key) refl
unversioned-pin_rows want (row ∷ rows) = elim (Bool-cases (is_version_row row)) [
  | inl e ↦ rw e (rw (text_beq_refl schema_version_key) refl)
  | inr e ↦ rw e (rw (e, unversioned-pin_rows want rows) refl)
]

-- The pin leaves the other rows of meta, and every other table.
pub unversioned-pin_schema_version :
    (c : Corpus) (to : ℕ)
    → unversioned (rows_of (pin_schema_version c to) (codes "meta"))
      ≡ unversioned (rows_of c (codes "meta"))
unfolding pin_schema_version
unversioned-pin_schema_version c to =
    rw
      (
        rows_of-set_rows c (codes "meta") (codes "meta")
            (pin_rows (format_nat to) (rows_of c (codes "meta"))),
        text_beq_refl (codes "meta"),
      )
      (unversioned-pin_rows (format_nat to) (rows_of c (codes "meta")))

pub rows_of-pin_schema_version :
    (c : Corpus) (to : ℕ) (name : Text)
    → (codes "meta" == name) ≡ false
    → rows_of (pin_schema_version c to) name ≡ rows_of c name
unfolding pin_schema_version
rows_of-pin_schema_version c to name e =
    rows_of-set_rows c (codes "meta") name (pin_rows (format_nat to) (rows_of c (codes "meta")))
    ∙ rw e refl
