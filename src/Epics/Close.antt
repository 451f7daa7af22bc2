-- ===== src/Epics/Close.antt =====
-- `epicClose` of internal/verb/epics.go: what a close that succeeded has seen, and what it leaves.
use mathlib.Core.List.{cons-ne-nil}
use selftracked.Common.{
  ℕ, ◌≡◌, ◌≤◌, refl, sym, ap, subst, ◌∙◌, Bool, true, false, not, ◌&&◌, List, [], ◌∷◌, ◌++◌, any,
  length, All, none, some, is_some, arith, ltb, ◌==◌, if◌then◌else◌, Bool-cases, inl, inr, Result,
  ok, ◌>>◌, guard, guard-true, found, bind-eq-ok, or_err-eq-ok, guard-eq-ok, ok-injective,
}
use selftracked.Common.Text.{Text, text_eq, text_beq, text_beq_refl}
use selftracked.Store.{
  EpicStatus, epic_closed, Epic, Task, Story, Episode, Event, Store, Refusal, constraint,
  blocked_by, not_found, is_done, is_open_task, epic_status, find_epic, replace_epic, update_epic,
  legal_epic_move, close_gate, epic_checks,
}
use selftracked.Stories.{write}
use selftracked.Stories.Rows.{All-map}
use selftracked.Rules.{is_proof}
use selftracked.Epics.Blockers.{
  Blocker, Shell, Checked, select, sort_by, text_leb, in_epic, is_live, is_live_end, is_homed,
  is_home, is_unproven, is_ended, story_id, story_conditions, too_few, live_story, live_end_of,
  task_number, unproven_of, is_criterion_of, run_criteria, close_blockers,
}
use selftracked.Epics.Verbs.{
  is_closable, closable_status, is_empty, put_closed, set_active, close_in_tx, epic_close,
}
use selftracked.Epics.Queries.{select-nil, select-All, sort_by-All, append_nil}
use selftracked.Epics.Runs.{CriterionHolds, run_loop-epics, run_criteria-Holds}

-- The conditions of a close, each as a predicate on the tables before it.
pub record IsReady (sh : Shell) (db : Store) (slug : Text) : Type 0 where
  pub status : EpicStatus
  pub there : epic_status db.epics slug ≡ some status
  pub closable : is_closable status ≡ true
  pub decomposed : 2 ≤ length (select (in_epic slug) story_id db.stories)
  pub ended : All (λ s. s.epic ≡ slug → is_ended s.status ≡ true) db.stories
  pub proven :
      All
        (λ s.
          s.epic ≡ slug
          → is_done s.status ≡ true
          → any (λ w. (w.epic == s.epic && w.story == s.id) && is_proof w) db.worklog ≡ true)
        db.stories
  pub ends : All (λ w. is_live_end db.worklog slug w ≡ false) db.worklog
  pub free : All (λ t. t.epic ≡ some slug → is_open_task t.status ≡ false) db.tasks
  pub criteria : All (λ c. c.epic ≡ slug → CriterionHolds sh c) db.criteria

at_least : (n : ℕ) → ltb n 2 ≡ false → 2 ≤ n
at_least n h = ground arith

few-nil :
    (stories : List Story) (slug : Text) (b : Bool) (n : ℕ)
    → (if b then too_few n ∷ [] else []) ≡ []
    → b ≡ false
few-nil stories slug true n h = absurd (cons-ne-nil _ _ h)
few-nil stories slug false n h = refl

no_live :
    (slug : Text) (s : Story) → is_live slug s ≡ false → s.epic ≡ slug → is_ended s.status ≡ true
unfolding is_live
no_live slug s h e = let v : text_beq s.epic slug ≡ true = rw e (text_beq_refl slug) in ground arith

no_unproven :
    (log : List Episode) (slug : Text) (s : Story)
    → is_unproven log slug s ≡ false
    → s.epic ≡ slug
    → is_done s.status ≡ true
    → any (λ w. (w.epic == s.epic && w.story == s.id) && is_proof w) log ≡ true
unfolding is_unproven
no_unproven log slug s h e d =
    let v : text_beq s.epic slug ≡ true = rw e (text_beq_refl slug) in ground arith

no_homed :
    (slug : Text) (t : Task)
    → is_homed slug t ≡ false
    → t.epic ≡ some slug
    → is_open_task t.status ≡ false
unfolding is_homed
no_homed slug t h e = let v : is_home slug t.epic ≡ true = rw e (text_beq_refl slug) in ground arith

-- No live story is selected, in whatever order.
live-nil :
    (stories : List Story) (slug : Text)
    → select (λ _. true) live_story (sort_by text_leb (select (is_live slug) story_id stories)) ≡ []
    → All (λ s. is_live slug s ≡ false) stories
live-nil stories slug h =
    let none_left = select-nil (λ _. true) live_story _ h in
    let sorted =
      sort_by-All text_leb (λ _. ⊥) _
        (All-map (λ _. true ≡ false) (λ _. ⊥) (λ _ e. absurd (cc)) _ none_left) in
    All-map (λ s. is_live slug s ≡ true → ⊥) _
      (λ s k. elim (Bool-cases (is_live slug s)) [ inl e ↦ absurd (k e) | inr e ↦ e ]) stories
      (select-All (λ _. ⊥) (is_live slug) story_id stories sorted)

empty-nil : (bs : List Blocker) → is_empty bs ≡ true → bs ≡ []
empty-nil [] h = refl
empty-nil (b ∷ bs) h = cc

close_blockers-IsReady :
    (sh : Shell) (now slug : Text) (db : Store) (bs : List Blocker) (r : Checked) (st : EpicStatus)
    → epic_status db.epics slug ≡ some st
    → is_closable st ≡ true
    → close_blockers sh now slug db ≡ ok (bs, r)
    → bs ≡ []
    → IsReady sh db slug × (r.store.epics ≡ db.epics)
unfolding close_blockers story_conditions is_criterion_of run_criteria
close_blockers-IsReady sh now slug db bs r st there closable e nil =
    elim (bind-eq-ok (run_criteria sh now slug true db) _ (bs, r) e) [
      | found out p e1 ↦
          let q = ok-injective e1 in
          let all = ap (λ (x : List Blocker × Checked). x.0) q ∙ nil in
          let w : out ≡ r = ap (λ (x : List Blocker × Checked). x.1) q in
          let (c1, rest1) = append_nil _ _ all in
          let (few, live) = append_nil _ _ c1 in
          let (c2, rest2) = append_nil _ _ rest1 in
          let (c3, rest3) = append_nil _ _ rest2 in
          let (attested, failed) = append_nil _ _ c3 in
          let (c4, c5) = append_nil _ _ rest3 in
          let small = few-nil db.stories slug _ _ few in
          (
            record {
              status = st;
              there = there;
              closable = closable;
              decomposed = at_least _ small;
              ended =
                  All-map (λ s. is_live slug s ≡ false) _ (no_live slug) db.stories
                    (live-nil db.stories slug live);
              proven =
                  All-map (λ s. is_unproven db.worklog slug s ≡ false) _
                    (no_unproven db.worklog slug) db.stories
                    (select-nil (is_unproven db.worklog slug) unproven_of db.stories c5);
              ends = select-nil (is_live_end db.worklog slug) live_end_of db.worklog c2;
              free =
                  All-map (λ t. is_homed slug t ≡ false) _ (no_homed slug) db.tasks
                    (select-nil (is_homed slug) task_number db.tasks c4);
              criteria =
                  All-map (λ c. is_criterion_of slug c ≡ true → CriterionHolds sh c) _
                    (λ c k i. k (rw i (text_beq_refl slug))) db.criteria
                    (run_criteria-Holds sh now slug true db out p attested failed);
            },
            ap (λ (z : Checked). z.store.epics) (sym w)
                ∙ (run_loop-epics sh now slug true false _ db out p).0,
          )
    ]

-- The status of a row after its replacement.
status-replace_epic :
    (es : List Epic) (slug : Text) (f : Epic → Epic) (st : EpicStatus)
    → ((e : Epic) → ((f e).slug ≡ e.slug) × ((f e).status ≡ st))
    → is_some (epic_status es slug) ≡ true
    → epic_status (replace_epic es slug f) slug ≡ some st
unfolding epic_status replace_epic
status-replace_epic [] slug f st k h = cc
status-replace_epic (e ∷ es) slug f st k h = elim (Bool-cases (text_beq e.slug slug)) [
  | inl q ↦
      let same : text_beq (f e).slug slug ≡ true = rw (k e).0 q in rw q (rw same (ap some (k e).1))
  | inr q ↦
      let v : epic_status (e ∷ es) slug ≡ epic_status es slug = rw q refl in
      rw q (rw q (status-replace_epic es slug f st k (subst (λ o. is_some o ≡ true) v h)))
]

found-status :
    (es : List Epic) (slug : Text) (st : EpicStatus)
    → epic_status es slug ≡ some st
    → (e : Epic) × (find_epic es slug ≡ some e)
unfolding epic_status find_epic
found-status [] slug st h = cc
found-status (e ∷ es) slug st h = elim (Bool-cases (text_beq e.slug slug)) [
  | inl q ↦ (e, rw q refl)
  | inr q ↦
      let v : epic_status (e ∷ es) slug ≡ epic_status es slug = rw q refl in
      let (r, w) = found-status es slug st (sym v ∙ h) in
      (r, (let u : find_epic (e ∷ es) slug ≡ find_epic es slug = rw q refl in u ∙ w))
]

pub update_epic-found :
    (db db' : Store) (slug : Text) (f : Epic → Epic) (e : Epic)
    → find_epic db.epics slug ≡ some e
    → update_epic db slug f ≡ ok db'
    → (legal_epic_move e.status (f e).status ≡ true)
      × (close_gate db.active_verb e (f e) ≡ true)
      × (db' ≡ record db { epics = replace_epic db.epics slug f })
unfolding update_epic
update_epic-found db db' slug f e hit h =
    let body : Result Refusal Store = (do
      guard (legal_epic_move e.status (f e).status) constraint
      guard (close_gate db.active_verb e (f e)) constraint
      guard (epic_checks (f e)) constraint
      ok (record db { epics = replace_epic db.epics slug f })) in
    let opened : update_epic db slug f ≡ body = rw (hit, update_epic) refl in
    elim (guard-eq-ok (legal_epic_move e.status (f e).status) constraint _ db' (sym opened ∙ h)) [
      | found _ p e1 ↦ elim (guard-eq-ok (close_gate db.active_verb e (f e)) constraint _ db' e1) [
        | found _ q e2 ↦ elim (guard-eq-ok (epic_checks (f e)) constraint _ db' e2) [
          | found _ _ e3 ↦ (p, q, sym (ok-injective e3))
        ]
      ]
    ]

-- What the close leaves.
pub record IsClosed (db' : Store) (slug : Text) : Type 0 where
  pub closed : epic_status db'.epics slug ≡ some epic_closed
  pub unset : db'.active_verb ≡ none

closing :
    (today slug : Text) (st : EpicStatus) (db1 db2 : Store)
    → epic_status db1.epics slug ≡ some st
    → update_epic db1 slug (put_closed today) ≡ ok db2
    → epic_status db2.epics slug ≡ some epic_closed
closing today slug st db1 db2 there e =
    let (r, hit) = found-status db1.epics slug st there in
    let (_, _, w) = update_epic-found db1 db2 slug (put_closed today) r hit e in
    subst (λ z. epic_status z.epics slug ≡ some epic_closed) (sym w)
      (status-replace_epic db1.epics slug (put_closed today) epic_closed (λ e. (refl, refl))
        (rw there refl))

close_in_tx-IsReady :
    (sh : Shell) (now today slug : Text) (db db' : Store) (evs : List Event)
    → close_in_tx sh now today slug db ≡ ok (db', evs)
    → IsReady sh db slug × IsClosed db' slug
unfolding close_in_tx closable_status
close_in_tx-IsReady sh now today slug db db' evs e =
    elim (bind-eq-ok (closable_status db slug) _ (db', evs) e) [
      | found _ passed e1 ↦ elim (or_err-eq-ok (epic_status db.epics slug) not_found _ tt passed) [
        | found st there g ↦ elim (bind-eq-ok (close_blockers sh now slug db) _ (db', evs) e1) [
          | found (bs, r) p e2 ↦ elim (guard-eq-ok (is_empty bs) blocked_by _ (db', evs) e2) [
            | found _ empty e3 ↦ elim (bind-eq-ok (set_active r.store) _ (db', evs) e3) [
              | found db1 a e4 ↦
                  elim (bind-eq-ok (update_epic db1 slug (put_closed today)) _ (db', evs) e4) [
                    | found db2 u e5 ↦
                        let (ready, same) =
                          close_blockers-IsReady sh now slug db bs r st there (guard-true _ _ g) p
                            (empty-nil bs empty) in
                        let w : record db2 { active_verb = none } ≡ db' =
                          ap (λ (x : Store × List Event). x.0) (ok-injective e5) in
                        let kept : db1.epics ≡ r.store.epics =
                          elim (guard-eq-ok (not (is_some r.store.active_verb)) constraint _ db1
                            a) [ found _ _ a1 ↦ sym (ap Store.epics (ok-injective a1)) ] in
                        let there1 : epic_status db1.epics slug ≡ some st =
                          subst (λ z. epic_status z slug ≡ some st) (sym same ∙ sym kept) there in
                        (
                          ready,
                          subst (λ z. IsClosed z slug) w
                              (record {
                                closed = closing today slug st db1 db2 there1 u;
                                unset = refl;
                              }),
                        )
                  ]
            ]
          ]
        ]
      ]
    ]

-- An epic is closed only from ACTIVE or PAUSED, with at least two stories, all of them DONE or
-- DISSOLVED, every DONE one with an original DONE episode that has commits, no last original
-- episode that is not terminal, no open task homed to the epic, every runnable criterion passing in
-- the shell and every other one met; after a close the epic is CLOSED and the flag that lets it
-- through is not set.
pub epic_close-IsReady :
    (sh : Shell) (now today slug : Text) (db db' : Store)
    → epic_close sh now today slug db ≡ ok db'
    → IsReady sh db slug × IsClosed db' slug
unfolding epic_close write
epic_close-IsReady sh now today slug db db' e =
    elim (bind-eq-ok (close_in_tx sh now today slug db) _ db' e) [
      | found (db1, evs) p e1 ↦
          let (ready, closed) = close_in_tx-IsReady sh now today slug db db1 evs p in
          let w : record db1 { events = db1.events ++ evs } ≡ db' = ok-injective e1 in
          (
            ready,
            subst (λ z. IsClosed z slug) w
                (record { closed = closed.closed; unset = closed.unset }),
          )
    ]
