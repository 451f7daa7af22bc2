-- ===== src/Epics/Runs.antt =====
-- `runCriteria` of internal/verb/close_conditions.go: what a run without a blocker says of the criteria.
use mathlib.Core.List.{cons-ne-nil}
use selftracked.Common.{
  ℕ, ◌≡◌, refl, sym, ap, subst, ◌∙◌, Bool, true, false, not, List, [], ◌∷◌, All, Option, none, some,
  if◌then◌else◌, Bool-cases, Option-cases, inl, inr, Result, ok, ◌>>◌, ◌>>=◌, guard, found,
  bind-eq-ok, guard-eq-ok, ok-injective,
}
use selftracked.Common.Text.{Text, text_eq}
use selftracked.Store.{
  Criterion, Store, Refusal, constraint, find_criterion, update_criterion, criterion_checks,
  replace_criterion,
}
use selftracked.Epics.Blockers.{
  unattested, Shell, execute_criterion, runnable_command, evidence_of, record_run, add_prose,
  add_run, run_one, Checked, run_loop, run_criteria, load_criteria, is_criterion_of, before, itself,
}
use selftracked.Epics.Queries.{select-All, sort_by-All}

-- A command of the shell that ends without an error, or a criterion that was attested.
abbrev pub Holds : Shell → Bool → Option Text → Type 0
Holds sh met none = met ≡ true
Holds sh met (some command) = (sh command).1 ≡ none

abbrev pub CriterionHolds : Shell → Criterion → Type 0
CriterionHolds sh c = Holds sh c.met (runnable_command c.criterion)

passed-Holds :
    (sh : Shell) (command : Text) → (execute_criterion sh command).0 ≡ true → (sh command).1 ≡ none
unfolding execute_criterion
passed-Holds sh command h = elim (Option-cases (sh command).1) [
  | inl n ↦ n
  | inr (e, q) ↦
      let v : (execute_criterion sh command).0 ≡ false = rw (q, execute_criterion) refl in
      absurd (let w = sym h ∙ v in (cc))
]

-- The columns that an update of a criterion leaves alone.
pub update_criterion-epics :
    (db db' : Store) (slug : Text) (seq : ℕ) (f : Criterion → Criterion)
    → update_criterion db slug seq f ≡ ok db'
    → (db'.epics ≡ db.epics) × (db'.active_verb ≡ db.active_verb)
unfolding update_criterion
update_criterion-epics db db' slug seq f e =
    elim (Option-cases (find_criterion db.criteria slug seq)) [
      | inl n ↦
          let v : update_criterion db slug seq f ≡ ok db =
            unfold update_criterion in rw (n, update_criterion) refl in
          let w : db ≡ db' = ok-injective (sym v ∙ e) in
          (ap Store.epics (sym w), ap Store.active_verb (sym w))
      | inr (c, hit) ↦
          let body : Result Refusal Store = (do
            guard (criterion_checks (f c)) constraint
            ok (record db { criteria = replace_criterion db.criteria slug seq f })) in
          let opened : update_criterion db slug seq f ≡ body = rw (hit, update_criterion) refl in
          elim (guard-eq-ok (criterion_checks (f c)) constraint _ db' (sym opened ∙ e)) [
            | found _ _ e1 ↦ (
              sym (ap Store.epics (ok-injective e1)),
              sym (ap Store.active_verb (ok-injective e1)),
            )
          ]
    ]

run_one-epics :
    (sh : Shell) (now slug : Text) (persist : Bool) (seq : ℕ) (command : Text) (db : Store)
    (db' : Store) (line : Text) (pass : Bool)
    → run_one sh now slug persist seq command db ≡ ok (db', line, pass)
    → (db'.epics ≡ db.epics)
      × (db'.active_verb ≡ db.active_verb)
      × (pass ≡ (execute_criterion sh command).0)
unfolding run_one
run_one-epics sh now slug true seq command db db' line pass e =
    let run = execute_criterion sh command in
    elim (bind-eq-ok (update_criterion db slug seq (record_run run.0 (evidence_of run now))) _
      (db', line, pass) e) [
        | found db1 p e1 ↦
            let q = ok-injective e1 in
            let w : db1 ≡ db' = ap (λ (x : Store × Text × Bool). x.0) q in
            let (u, v) = update_criterion-epics db db1 slug seq _ p in
            (
              ap Store.epics (sym w) ∙ u,
              ap Store.active_verb (sym w) ∙ v,
              sym (ap (λ (x : Store × Text × Bool). x.2) q),
            )
      ]
run_one-epics sh now slug false seq command db db' line pass e =
    let q = ok-injective e in
    let w : db ≡ db' = ap (λ (x : Store × Text × Bool). x.0) q in
    (
      ap Store.epics (sym w),
      ap Store.active_verb (sym w),
      sym (ap (λ (x : Store × Text × Bool). x.2) q),
    )

module _ (sh : Shell) (now slug : Text) (persist : Bool) where
  pub loop-prose :
      (stopped : Bool) (c : Criterion) (cs : List Criterion) (db : Store) (out : Checked)
      → runnable_command c.criterion ≡ none
      → run_loop sh now slug persist stopped (c ∷ cs) db ≡ ok out
      → (r : Checked) × (run_loop sh now slug persist stopped cs db ≡ ok r) × (add_prose c r ≡ out)
  loop-prose stopped c cs db out n e =
      let body : Result Refusal Checked = (do
        r ← run_loop sh now slug persist stopped cs db
        ok (add_prose c r)) in
      let opened : run_loop sh now slug persist stopped (c ∷ cs) db ≡ body =
        unfold run_loop in rw (n, run_loop) refl in
      elim (bind-eq-ok (run_loop sh now slug persist stopped cs db) _ out (sym opened ∙ e)) [
        | found r p q ↦ (r, p, ok-injective q)
      ]

  pub loop-ran :
      (c : Criterion) (cs : List Criterion) (command : Text) (db : Store) (out : Checked)
      → runnable_command c.criterion ≡ some command
      → run_loop sh now slug persist false (c ∷ cs) db ≡ ok out
      → (db1 : Store) × (line : Text) × (pass : Bool) × (r : Checked) × (run_one sh now slug persist
            c.seq command db
          ≡ ok (db1, line, pass))
        × (run_loop sh now slug persist (not pass) cs db1 ≡ ok r)
        × (add_run c.seq line pass r ≡ out)
  loop-ran c cs command db out n e =
      let body : Result Refusal Checked = (do
        (db', line, pass) ← run_one sh now slug persist c.seq command db
        r ← run_loop sh now slug persist (not pass) cs db'
        ok (add_run c.seq line pass r)) in
      let opened : run_loop sh now slug persist false (c ∷ cs) db ≡ body =
        unfold run_loop in rw (n, run_loop) refl in
      elim (bind-eq-ok (run_one sh now slug persist c.seq command db) _ out (sym opened ∙ e)) [
        | found (db1, line, pass) p e1 ↦
            elim (bind-eq-ok (run_loop sh now slug persist (not pass) cs db1) _ out e1) [
              | found r q e2 ↦ (db1, line, pass, r, p, q, ok-injective e2)
            ]
      ]

  pub loop-skipped :
      (c : Criterion) (cs : List Criterion) (command : Text) (db : Store) (out : Checked)
      → runnable_command c.criterion ≡ some command
      → run_loop sh now slug persist true (c ∷ cs) db ≡ ok out
      → run_loop sh now slug persist true cs db ≡ ok out
  loop-skipped c cs command db out n e =
      let opened : run_loop sh now slug persist true (c ∷ cs) db
          ≡ run_loop sh now slug persist true cs db =
        unfold run_loop in rw (n, run_loop) refl in
      sym opened ∙ e

  -- A run leaves the epics and the flag alone.
  pub run_loop-epics :
      (stopped : Bool) (cs : List Criterion) (db : Store) (out : Checked)
      → run_loop sh now slug persist stopped cs db ≡ ok out
      → (out.store.epics ≡ db.epics) × (out.store.active_verb ≡ db.active_verb)
  run_loop-epics stopped [] db out e =
      unfold run_loop in
      let w : record { store = db; attested = []; failed = []; output = [] } ≡ out =
        ok-injective e in
      (
        ap (λ (z : Checked). z.store.epics) (sym w),
        ap (λ (z : Checked). z.store.active_verb) (sym w),
      )
  run_loop-epics stopped (c ∷ cs) db out e = elim (Option-cases (runnable_command c.criterion)) [
    | inl n ↦
        let (r, p, w) = loop-prose stopped c cs db out n e in
        let (u, v) = run_loop-epics stopped cs db r p in
        (
          ap (λ (z : Checked). z.store.epics) (sym w) ∙ u,
          ap (λ (z : Checked). z.store.active_verb) (sym w) ∙ v,
        )
    | inr (command, n) ↦ elim (Bool-cases stopped) [
      | inl t ↦ run_loop-epics true cs db out (
          loop-skipped c cs command db out n
            (subst (λ b. run_loop sh now slug persist b (c ∷ cs) db ≡ ok out) t e))
      | inr t ↦
          let (db1, line, pass, r, p, q, w) =
            loop-ran c cs command db out n
              (subst (λ b. run_loop sh now slug persist b (c ∷ cs) db ≡ ok out) t e) in
          let (u1, v1, _) = run_one-epics sh now slug persist c.seq command db db1 line pass p in
          let (u, v) = run_loop-epics (not pass) cs db1 r q in
          (
            ap (λ (z : Checked). z.store.epics) (sym w) ∙ (u ∙ u1),
            ap (λ (z : Checked). z.store.active_verb) (sym w) ∙ (v ∙ v1),
          )
    ]
  ]

  met-prose :
      (c : Criterion) (r : Checked)
      → (add_prose c r).attested ≡ []
      → (c.met ≡ true) × (r.attested ≡ [])
  met-prose c r h = elim (Bool-cases c.met) [
    | inl t ↦ (t, subst (λ b. (if b then r.attested else unattested c.seq ∷ r.attested) ≡ []) t h)
    | inr t ↦ absurd (
        cons-ne-nil _ _
          (subst (λ b. (if b then r.attested else unattested c.seq ∷ r.attested) ≡ []) t h))
  ]

  met-run :
      (seq : ℕ) (line : Text) (pass : Bool) (r : Checked)
      → (add_run seq line pass r).failed ≡ []
      → (pass ≡ true) × (r.failed ≡ [])
  met-run seq line true r h = (refl, h)
  met-run seq line false r h = absurd (cons-ne-nil _ _ h)

  -- Without a blocker of either class every criterion of the list holds.
  run_loop-Holds :
      (cs : List Criterion) (db : Store) (out : Checked)
      → run_loop sh now slug persist false cs db ≡ ok out
      → out.attested ≡ []
      → out.failed ≡ []
      → All (CriterionHolds sh) cs
  run_loop-Holds [] db out e a f = tt
  run_loop-Holds (c ∷ cs) db out e a f = elim (Option-cases (runnable_command c.criterion)) [
    | inl n ↦
        let (r, p, w) = loop-prose false c cs db out n e in
        let (m, a') = met-prose c r (ap Checked.attested w ∙ a) in
        (subst (Holds sh c.met) (sym n) m, run_loop-Holds cs db r p a' (ap Checked.failed w ∙ f))
    | inr (command, n) ↦
        let (db1, line, pass, r, p, q, w) = loop-ran c cs command db out n e in
        let (m, f') = met-run c.seq line pass r (ap Checked.failed w ∙ f) in
        let (_, _, o) = run_one-epics sh now slug persist c.seq command db db1 line pass p in
        let q' = subst (λ b. run_loop sh now slug persist (not b) cs db1 ≡ ok r) m q in
        (
          subst (Holds sh c.met) (sym n) (passed-Holds sh command (sym o ∙ m)),
          run_loop-Holds cs db1 r q' (ap Checked.attested w ∙ a) f',
        )
  ]

  pub run_criteria-Holds :
      (db : Store) (out : Checked)
      → run_criteria sh now slug persist db ≡ ok out
      → out.attested ≡ []
      → out.failed ≡ []
      → All (λ c. is_criterion_of slug c ≡ true → CriterionHolds sh c) db.criteria
  unfolding run_criteria load_criteria
  run_criteria-Holds db out e a f =
      select-All (CriterionHolds sh) (is_criterion_of slug) itself db.criteria (
        sort_by-All before (CriterionHolds sh) _
          (run_loop-Holds (load_criteria db.criteria slug) db out e a f))
