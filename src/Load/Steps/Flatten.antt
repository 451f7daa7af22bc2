-- ===== src/Load/Steps/Flatten.antt =====
-- The flattening loop of `MigrateCorpus` in internal/load/steps.go: its count tells whether a table is left out.
use selftracked.Common.{
  ℕ, ◌+◌, ◌≤◌, ◌≡◌, refl, sym, ap, ◌∙◌, Bool, true, false, List, [], ◌∷◌, ◌++◌, map, append-nil,
  any, length, ◌==◌, if◌then◌else◌, arith, Bool-cases, inl, inr,
}
use selftracked.Common.Text.{Text, text_beq_iff, text_eq}
use selftracked.Load.{Insert}
use selftracked.Load.Steps.{Row, Corpus, rows_of, has_table, flatten_rows, emitted}
use selftracked.Load.Steps.Migration.{rows_for}

abbrev pub is_member : Text → List Text → Bool
is_member t names = any (λ n. t == n) names

-- No name stands in the list twice.
abbrev pub AreDistinct : List Text → Type 0
AreDistinct [] = Unit
AreDistinct (n ∷ names) = (is_member n names ≡ false) × AreDistinct names

rows_for-append :
    (name : Text) (is js : List Insert)
    → rows_for name (is ++ js) ≡ rows_for name is ++ rows_for name js
unfolding rows_for
rows_for-append name [] js = refl
rows_for-append name (i ∷ is) js = elim (Bool-cases (i.table == name)) [
  | inl e ↦ rw (e, rows_for-append name is js) refl
  | inr e ↦ rw (e, rows_for-append name is js) refl
]

abbrev inserts_into : Text → List Row → List Insert
inserts_into t rows = map (λ vals. record { table = t; values = vals }) rows

rows_for-same :
    (name t : Text) (rows : List Row)
    → (t == name) ≡ true
    → rows_for name (inserts_into t rows) ≡ rows
unfolding rows_for
rows_for-same name t [] e = refl
rows_for-same name t (r ∷ rows) e = rw (e, rows_for-same name t rows e) refl

rows_for-other :
    (name t : Text) (rows : List Row)
    → (t == name) ≡ false
    → rows_for name (inserts_into t rows) ≡ []
unfolding rows_for
rows_for-other name t [] e = refl
rows_for-other name t (r ∷ rows) e = rw e (rows_for-other name t rows e)

module _ (c : Corpus) where
  flatten_rows-absent :
      (name : Text) (order : List Text)
      → is_member name order ≡ false
      → rows_for name (flatten_rows c order) ≡ []
  unfolding flatten_rows rows_for
  flatten_rows-absent name [] h = refl
  flatten_rows-absent name (t ∷ order) h = elim (Bool-cases (t == name)) [
    | inl e ↦
        let q : (name == t) ≡ true = (text_beq_iff name t).1 (sym ((text_beq_iff t name).0 e)) in
        absurd (ground arith)
    | inr e ↦
        let rest : is_member name order ≡ false = ground arith in
        rows_for-append name (inserts_into t (rows_of c t)) (flatten_rows c order)
        ∙ rw (rows_for-other name t (rows_of c t) e) (flatten_rows-absent name order rest)
  ]

  pub flatten_rows-present :
      (name : Text) (order : List Text)
      → AreDistinct order
      → is_member name order ≡ true
      → rows_for name (flatten_rows c order) ≡ rows_of c name
  unfolding flatten_rows
  flatten_rows-present name [] d h = cc
  flatten_rows-present name (t ∷ order) d h =
      let parts = rows_for-append name (inserts_into t (rows_of c t)) (flatten_rows c order) in
      elim (Bool-cases (t == name)) [
        | inl e ↦
            let q = (text_beq_iff t name).0 e in
            let none_after =
              flatten_rows-absent name order (sym (ap (λ z. is_member z order) q) ∙ d.0) in
            parts
            ∙ rw (rows_for-same name t (rows_of c t) e, none_after)
                (append-nil (rows_of c t) ∙ ap (λ z. rows_of c z) q)
        | inr e ↦
            let q : (name == t) ≡ false = elim (Bool-cases (name == t)) [
              | inl k ↦
                  let r : (t == name) ≡ true =
                    (text_beq_iff t name).1 (sym ((text_beq_iff name t).0 k)) in
                  cc
              | inr k ↦ k
            ] in
            let rest : is_member name order ≡ true = ground arith in
            parts
            ∙ rw (rows_for-other name t (rows_of c t) e) (flatten_rows-present name order d.1 rest)
      ]

-- How many tables are in the order.
ordered : Corpus → List Text → ℕ
ordered [] order = 0
ordered ((t, rs) ∷ c) order = (if is_member t order then 1 else 0) + ordered c order

emitted-cons :
    (t : Text) (rs : List Row) (c : Corpus) (order : List Text)
    → AreDistinct order
    → emitted ((t, rs) ∷ c) order ≤ (if is_member t order then 1 else 0) + emitted c order
unfolding emitted has_table
emitted-cons t rs c [] d = omega arith
emitted-cons t rs c (name ∷ order) d =
    let ih = emitted-cons t rs c order d.1 in
    elim (Bool-cases (t == name)) [
      | inl e ↦
          let q = (text_beq_iff t name).0 e in
          let after : is_member t order ≡ false = ap (λ z. is_member z order) q ∙ d.0 in
          elim (Bool-cases (has_table c name)) [ inl k ↦ ground arith | inr k ↦ ground arith ]
      | inr e ↦ elim (Bool-cases (has_table c name)) [ inl k ↦ ground arith | inr k ↦ ground arith ]
    ]

emitted-nil : (order : List Text) → emitted [] order ≡ 0
unfolding emitted has_table
emitted-nil [] = refl
emitted-nil (name ∷ order) = emitted-nil order

emitted-ordered :
    (c : Corpus) (order : List Text) → AreDistinct order → emitted c order ≤ ordered c order
unfolding ordered
emitted-ordered [] order d = omega (arith, emitted-nil order)
emitted-ordered ((t, rs) ∷ c) order d =
    omega (arith, emitted-cons t rs c order d, emitted-ordered c order d)

ordered-length : (c : Corpus) (order : List Text) → ordered c order ≤ length c
unfolding ordered
ordered-length [] order = omega arith
ordered-length ((t, rs) ∷ c) order =
    let ih = ordered-length c order in
    elim (Bool-cases (is_member t order)) [ inl e ↦ ground arith | inr e ↦ ground arith ]

rows_of-unordered :
    (c : Corpus) (order : List Text) (name : Text)
    → length c ≤ ordered c order
    → is_member name order ≡ false
    → rows_of c name ≡ []
unfolding ordered rows_of
rows_of-unordered [] order name h m = refl
rows_of-unordered ((t, rs) ∷ c) order name h m =
    let most = ordered-length c order in
    let here : is_member t order ≡ true = ground arith in
    let rest : length c ≤ ordered c order = ground arith in
    elim (Bool-cases (t == name)) [
      | inl e ↦
          let q = (text_beq_iff t name).0 e in
          let k : is_member name order ≡ true = sym (ap (λ z. is_member z order) q) ∙ here in
          absurd (let w = sym k ∙ m in (cc))
      | inr e ↦ rw e (rows_of-unordered c order name rest m)
    ]

-- If the loop counts as many tables as there are, then it has written the rows of every table.
pub flatten_rows-whole :
    (c : Corpus) (order : List Text) (name : Text)
    → AreDistinct order
    → emitted c order ≡ length c
    → rows_for name (flatten_rows c order) ≡ rows_of c name
flatten_rows-whole c order name d e = elim (Bool-cases (is_member name order)) [
  | inl m ↦ flatten_rows-present c name order d m
  | inr m ↦
      let all : length c ≤ ordered c order = omega (arith, emitted-ordered c order d) in
      flatten_rows-absent c name order m ∙ sym (rows_of-unordered c order name all m)
]
