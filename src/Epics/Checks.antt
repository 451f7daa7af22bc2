-- ===== src/Epics/Checks.antt =====
-- `criteria check` of internal/verb/criteria.go on an epic that is CLOSED or DISSOLVED.
use selftracked.Common.{
  ◌≡◌, refl, sym, ap, subst, ◌∙◌, Bool, true, false, not, List, [], ◌∷◌, ◌++◌, some, Option-cases,
  Bool-cases, inl, inr, Result, ok, found, bind-eq-ok, or_err-eq-ok, ok-injective,
}
use selftracked.Common.Text.{Text}
use selftracked.Store.{EpicStatus, Criterion, Event, Store, Refusal, not_found, epic_status}
use selftracked.Stories.{is_terminal}
use selftracked.Epics.Blockers.{
  Shell, Checked, runnable_command, run_one, run_loop, run_criteria, load_criteria,
}
use selftracked.Epics.Verbs.{check_in_tx, criteria_check}
use selftracked.Epics.Runs.{loop-prose, loop-ran, loop-skipped}

run_one-store :
    (sh : Shell) (now slug : Text) (c : Criterion) (command : Text) (db db1 : Store) (line : Text)
    (pass : Bool)
    → run_one sh now slug false c.seq command db ≡ ok (db1, line, pass)
    → db1 ≡ db
unfolding run_one
run_one-store sh now slug c command db db1 line pass e =
    sym (ap (λ (x : Store × Text × Bool). x.0) (ok-injective e))

-- A run that persists nothing.
run_loop-store :
    (sh : Shell) (now slug : Text) (stopped : Bool) (cs : List Criterion) (db : Store)
    (out : Checked)
    → run_loop sh now slug false stopped cs db ≡ ok out
    → out.store ≡ db
run_loop-store sh now slug stopped [] db out e =
    unfold run_loop in
    let w : record { store = db; attested = []; failed = []; output = [] } ≡ out = ok-injective e in
    ap Checked.store (sym w)
run_loop-store sh now slug stopped (c ∷ cs) db out e =
    elim (Option-cases (runnable_command c.criterion)) [
      | inl n ↦
          let (r, p, w) = loop-prose sh now slug false stopped c cs db out n e in
          ap Checked.store (sym w) ∙ run_loop-store sh now slug stopped cs db r p
      | inr (command, n) ↦ elim (Bool-cases stopped) [
        | inl t ↦ run_loop-store sh now slug true cs db out (
            loop-skipped sh now slug false c cs command db out n
              (subst (λ b. run_loop sh now slug false b (c ∷ cs) db ≡ ok out) t e))
        | inr t ↦
            let (db1, line, pass, r, p, q, w) =
              loop-ran sh now slug false c cs command db out n
                (subst (λ b. run_loop sh now slug false b (c ∷ cs) db ≡ ok out) t e) in
            ap Checked.store (sym w)
            ∙ (run_loop-store sh now slug (not pass) cs db1 r q
                ∙ run_one-store sh now slug c command db db1 line pass p)
      ]
    ]

-- A criteria check on a CLOSED or DISSOLVED epic changes nothing but the log of events, whatever
-- the shell answers.
pub criteria_check-terminal :
    (sh : Shell) (now slug : Text) (db db' : Store) (verdict : Result Refusal (Unit {0}))
    (st : EpicStatus)
    → epic_status db.epics slug ≡ some st
    → is_terminal st ≡ true
    → criteria_check sh now slug db ≡ ok (db', verdict)
    → (evs : List Event) × (db' ≡ record db { events = db.events ++ evs })
unfolding criteria_check check_in_tx run_criteria
criteria_check-terminal sh now slug db db' verdict st there t e =
    elim (bind-eq-ok (check_in_tx sh now slug db) _ (db', verdict) e) [
      | found (db1, evs, failed) p e1 ↦
          let w = ap (λ (x : Store × Result Refusal (Unit {0})). x.0) (ok-injective e1) in
          elim (or_err-eq-ok (epic_status db.epics slug) not_found _ (db1, evs, failed) p) [
            | found st' there' p1 ↦
                elim (bind-eq-ok (run_criteria sh now slug (not (is_terminal st')) db) _
                  (db1, evs, failed) p1) [
                    | found r q p2 ↦
                        let u : st' ≡ st = cc in
                        let keep : not (is_terminal st') ≡ false = rw u (rw t refl) in
                        let q' =
                          subst
                            (λ b.
                              run_loop sh now slug b false (load_criteria db.criteria slug) db
                              ≡ ok r)
                            keep q in
                        let same : db1 ≡ db =
                          sym (ap (λ (x : Store × List Event × Bool). x.0) (ok-injective p2))
                          ∙ run_loop-store sh now slug false (load_criteria db.criteria slug) db r
                              q' in
                        let grow : Store → Store = λ z. record z { events = z.events ++ evs } in
                        (evs, sym w ∙ ap grow same)
                  ]
          ]
    ]
