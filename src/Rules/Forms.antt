-- ===== src/Rules/Forms.antt =====
-- Rule R4 of internal/rules/rules.go after `worklog add` of internal/verb/worklog.go.
use selftracked.Common.{◌+◌, ◌≡◌, refl, sym, ap, ◌∙◌, true, [], ◌++◌, some, ok}
use selftracked.Common.Int.{ℤ}
use selftracked.Common.Text.{Text, codes, cut_prefix, cut_prefix-append}
use selftracked.Store.{Episode, epic_closed, Store, max_seq}
use selftracked.Worklog.Forms.{IsFormed, after_close, correction}
use selftracked.Worklog.Episodes.{worklog_add-IsAppended}
use selftracked.Worklog.{state_text, is_v, worklog_add}
use selftracked.Rules.{is_v_row, r4}
use selftracked.Rules.Lookups.{find_episode-IsFound, state_of-state_text, has_closed-epic_status}
use selftracked.Rules.Corrections.{
  r4-Clean, Clean-r4, Clean, IsGood, Clean-grown, correction-IsGood, v_row-IsGood,
}

named_v : (story name : Text) → story ≡ codes "V-" ++ name → is_v story ≡ true
unfolding is_v
named_v story name e =
    let k : cut_prefix story (codes "V-") ≡ some name =
      rw e (cut_prefix-append (codes "V-") name) in
    rw k refl

-- A row in a form that may be added is one that R4 has nothing against.
formed-IsGood :
    (db : Store) (slug story state : Text) (corrects : ℤ) (w : Episode)
    → (is_v story ≡ true → is_v_row story ≡ true)
    → Clean db.epics db.stories db.worklog
    → IsFormed db slug story state corrects w.corrects
    → w.epic ≡ slug
    → w.story ≡ story
    → state_text w.state ≡ state
    → w.seq ≡ max_seq db.worklog slug + 1
    → IsGood db.epics db.stories db.worklog w
formed-IsGood db slug story state corrects w named clean (after_close name v closed k n) e s t q =
    v_row-IsGood db.epics db.stories db.worklog w (rw s (named (named_v story name v)))
      (rw e (has_closed-epic_status db.epics slug epic_closed closed refl)) n
formed-IsGood db slug story state corrects w named clean
      (correction n r v k hit c original same mirrored) e s t q =
    let states : r.state ≡ w.state =
      (let a = state_of-state_text r.state in
        let b = state_of-state_text w.state in
        let both : state_text r.state ≡ state_text w.state = mirrored ∙ sym t in cc) in
    correction-IsGood db.epics db.stories db.worklog w r n clean
      (find_episode-IsFound db.worklog w.epic n r (rw e hit))
      (q ∙ ap (λ y. max_seq db.worklog y + 1) (sym e)) c original (same ∙ sym s) states

-- If rule R4 reports nothing of a database, it reports nothing after a `worklog add` that succeeds
-- there, provided that a digit follows the V- in the name of a row after the close.
pub r4-worklog_add :
    (date slug story state commits gate review note : Text) (corrects : ℤ) (db db' : Store)
    → (is_v story ≡ true → is_v_row story ≡ true)
    → r4 db ≡ []
    → worklog_add date slug story state commits gate review note corrects db ≡ ok db'
    → r4 db' ≡ []
r4-worklog_add date slug story state commits gate review note corrects db db' named clean e =
    let a =
      worklog_add-IsAppended date slug story state commits gate review note corrects db db' e in
    let old = r4-Clean db clean in
    let good =
      formed-IsGood db slug story state corrects a.row named old a.form a.epic_eq a.story_eq
        a.worded a.next in
    Clean-r4 db' (
      rw (a.epics_kept, a.stories_kept, a.grown)
        (Clean-grown db.epics db.stories db.worklog a.row old good))
