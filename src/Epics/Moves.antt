-- ===== src/Epics/Moves.antt =====
-- Every verb of internal/verb/epics.go that moves an epic.
use selftracked.Common.{
  ◌≡◌, refl, sym, ap, subst, ◌∙◌, true, false, not, List, [], none, is_some, ◌==◌, ok, found,
  bind-eq-ok, guard-eq-ok, ok-injective,
}
use selftracked.Common.Text.{Text, codes, text_eq}
use selftracked.Store.{
  epic_active, epic_paused, Event, Store, usage, blocked_by, constraint, update_epic,
}
use selftracked.Stories.{validate_text}
use selftracked.Epics.Blockers.{Shell, Blocker, Checked, run_criteria, close_blockers}
use selftracked.Epics.Verbs.{
  epic_activate, epic_pause, epic_dissolve, is_empty, closable_status, put_closed, set_active,
  close_in_tx, epic_close,
}
use selftracked.Epics.Runs.{run_loop-epics}
use selftracked.Epics.Legal.{
  Command, activating, pausing, dissolving, closing, run, MovesLegally, update_epic-MovesLegally,
  write-MovesLegally, transition-MovesLegally, dissolve-MovesLegally,
}

close_blockers-epics :
    (sh : Shell) (now slug : Text) (db : Store) (bs : List Blocker) (r : Checked)
    → close_blockers sh now slug db ≡ ok (bs, r)
    → r.store.epics ≡ db.epics
unfolding close_blockers run_criteria
close_blockers-epics sh now slug db bs r e =
    elim (bind-eq-ok (run_criteria sh now slug true db) _ (bs, r) e) [
      | found out p e1 ↦
          ap (λ (x : List Blocker × Checked). x.1.store.epics) (sym (ok-injective e1))
          ∙ (run_loop-epics sh now slug true false _ db out p).0
    ]

close-MovesLegally :
    (sh : Shell) (now today slug : Text) (db db1 : Store) (evs : List Event)
    → close_in_tx sh now today slug db ≡ ok (db1, evs)
    → MovesLegally db.epics db1.epics
unfolding close_in_tx
close-MovesLegally sh now today slug db db1 evs e =
    elim (bind-eq-ok (closable_status db slug) _ (db1, evs) e) [
      | found _ _ e1 ↦ elim (bind-eq-ok (close_blockers sh now slug db) _ (db1, evs) e1) [
        | found (bs, r) p e2 ↦ elim (guard-eq-ok (is_empty bs) blocked_by _ (db1, evs) e2) [
          | found _ _ e3 ↦ elim (bind-eq-ok (set_active r.store) _ (db1, evs) e3) [
            | found db2 a e4 ↦
                elim (bind-eq-ok (update_epic db2 slug (put_closed today)) _ (db1, evs) e4) [
                  | found db3 u e5 ↦
                      let w : record db3 { active_verb = none } ≡ db1 =
                        ap (λ (x : Store × List Event). x.0) (ok-injective e5) in
                      let set : db2.epics ≡ r.store.epics =
                        elim (guard-eq-ok (not (is_some r.store.active_verb)) constraint _ db2 a) [
                          | found _ _ a1 ↦ sym (ap Store.epics (ok-injective a1))
                        ] in
                      subst (λ z. MovesLegally db.epics z.epics) w
                        (subst (λ z. MovesLegally z db3.epics)
                          (set ∙ close_blockers-epics sh now slug db bs r p)
                          (update_epic-MovesLegally db2 db3 slug (put_closed today) (λ r. refl) u))
                ]
          ]
        ]
      ]
    ]

-- A verb that moves an epic and succeeds leaves every epic there, each with its status or one that
-- the transitions of the schema allow after it, so that a CLOSED or DISSOLVED epic stays so.
pub run-MovesLegally :
    (sh : Shell) (date : Text) (command : Command) (db db' : Store)
    → run sh date command db ≡ ok db'
    → MovesLegally db.epics db'.epics
unfolding run epic_activate epic_pause epic_dissolve epic_close
run-MovesLegally sh date (activating slug) db db' e =
    write-MovesLegally db db' _
      (λ db1 evs. transition-MovesLegally slug epic_active (codes "active") [] db db1 evs) e
run-MovesLegally sh date (pausing slug why) db db' e =
    elim (guard-eq-ok (not (why == [])) usage _ db' e) [
      | found _ _ e1 ↦ elim (bind-eq-ok (validate_text why) _ db' e1) [
        | found _ _ e2 ↦
            write-MovesLegally db db' _
              (λ db1 evs. transition-MovesLegally slug epic_paused (codes "paused") why db db1 evs)
              e2
      ]
    ]
run-MovesLegally sh date (dissolving slug why) db db' e =
    elim (guard-eq-ok (not (why == [])) usage _ db' e) [
      | found _ _ e1 ↦
          write-MovesLegally db db' _ (λ db1 evs. dissolve-MovesLegally date slug why db db1 evs) e1
    ]
run-MovesLegally sh date (closing slug) db db' e =
    write-MovesLegally db db' _ (λ db1 evs. close-MovesLegally sh date date slug db db1 evs) e
