-- ===== src/Load/Steps/Chain.antt =====
-- `MigrateCorpus` of internal/load/steps.go: the chain of transforms, and what is left of the rows behind it.
use selftracked.Common.{
  ℕ, zero, suc, ◌+◌, ◌-◌, ◌≤◌, ◌≡◌, sym, ap, subst, ◌∙◌, false, List, Option, some, length, nat_beq,
  nat_beq_iff, ◌==◌, ok, arith, found, bind-eq-ok, or_err-eq-ok, guard-eq-ok, ok-injective,
}
use selftracked.Common.Text.{Text, codes, text_eq}
use selftracked.Decimal.{format_nat}
use selftracked.Dump.{text}
use selftracked.Load.{Dump, no_transform, transform_failed, tables_left}
use selftracked.Load.Steps.{
  Corpus, Registry, Step, step_at, rows_of, run_steps, pin_schema_version, emitted, migrate_corpus,
}
use selftracked.Load.Steps.Migration.{
  rows_for, version_value, version_value-pin_schema_version, unversioned,
  unversioned-pin_schema_version, rows_of-pin_schema_version,
}
use selftracked.Load.Steps.Flatten.{AreDistinct, flatten_rows-whole}

-- One transform of the registry after the other, from a version and its rows to the last ones.
pub data Moves (reg : Registry) (to : ℕ) (last : Corpus) : ℕ → Corpus → Type 0 where
  arrived : Moves reg to last to last
  moved :
      (k : ℕ) (c c' : Corpus) (st : Step) (f : Corpus → Option Corpus)
      → step_at reg k ≡ some st
      → st.transform ≡ some f
      → f c ≡ some c'
      → Moves reg to last (k + 1) c'
      → Moves reg to last k c

run_steps-Moves :
    (reg : Registry) (n k : ℕ) (c last : Corpus)
    → run_steps reg n k c ≡ ok last
    → Moves reg (k + n) last k c
unfolding run_steps
run_steps-Moves reg zero k c last e =
    let same : k ≡ k + 0 = omega arith in
    subst (λ z. Moves reg (k + 0) last z c) (sym same)
      (subst (λ z. Moves reg (k + 0) last (k + 0) z) (sym (ok-injective e)) arrived)
run_steps-Moves reg (suc n) k c last e = elim (or_err-eq-ok (step_at reg k) no_transform _ last e) [
  | found st s e1 ↦ elim (or_err-eq-ok st.transform no_transform _ last e1) [
    | found f t e2 ↦ elim (or_err-eq-ok (f c) transform_failed _ last e2) [
      | found c' u e3 ↦
          let far : (k + 1) + n ≡ k + suc n = omega arith in
          moved k c c' st f s t u (
            subst (λ z. Moves reg z last (k + 1) c') far (run_steps-Moves reg n (k + 1) c' last e3))
    ]
  ]
]

-- What a migration makes of the rows `c` of version `from`.
pub record IsMigrated (reg : Registry) (c : Corpus) (from to : ℕ) (d : Dump) : Type 0 where
  pub last : Corpus
  pub chain : Moves reg to last from c
  pub version : d.version ≡ to
  pub kept :
      (name : Text) → (codes "meta" == name) ≡ false → rows_for name d.inserts ≡ rows_of last name
  pub stamped : version_value (rows_for (codes "meta") d.inserts) ≡ some (text (format_nat to))
  pub others :
      unversioned (rows_for (codes "meta") d.inserts) ≡ unversioned (rows_of last (codes "meta"))

-- For an order that names no table twice and a new version not below the old one, a migration that
-- succeeds has applied the transform of every version from the old one up to the new one, none of
-- them missing or failing; its dump has the new version and holds, of every table but meta, whether
-- the order names it or not, the rows that the last transform left, in their order; the first row
-- of meta that names the version holds the new one, and its rows that do not name it are those that
-- the last transform left.
pub migrate_corpus-IsMigrated :
    (reg : Registry) (c : Corpus) (from to : ℕ) (order : List Text) (d : Dump)
    → from ≤ to
    → AreDistinct order
    → migrate_corpus reg c from to order ≡ ok d
    → IsMigrated reg c from to d
unfolding migrate_corpus
migrate_corpus-IsMigrated reg c from to order d le distinct e =
    elim (bind-eq-ok (run_steps reg (to - from) from c) _ d e) [
      | found last r e1 ↦
          let pinned = pin_schema_version last to in
          let counted = nat_beq (emitted pinned order) (length pinned) in
          elim (guard-eq-ok counted tables_left _ d e1) [
            | found _ g e2 ↦
                let far : from + (to - from) ≡ to = omega arith in
                let full = (nat_beq_iff (emitted pinned order) (length pinned)).0 g in
                let whole : (name : Text) → rows_for name d.inserts ≡ rows_of pinned name = λ name.
                  sym (ap (λ (z : Dump). rows_for name z.inserts) (ok-injective e2))
                  ∙ flatten_rows-whole pinned order name distinct full in
                record {
                  last = last;
                  chain =
                      subst (λ z. Moves reg z last from c) far
                        (run_steps-Moves reg (to - from) from c last r);
                  version = sym (ap Dump.version (ok-injective e2));
                  kept = λ name ne. whole name ∙ rows_of-pin_schema_version last to name ne;
                  stamped =
                      ap version_value (whole (codes "meta"))
                      ∙ version_value-pin_schema_version last to;
                  others =
                      ap unversioned (whole (codes "meta"))
                      ∙ unversioned-pin_schema_version last to;
                }
          ]
    ]
