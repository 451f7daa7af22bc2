-- ===== src/Rules/Corrections.antt =====
-- Rule R4 of internal/rules/rules.go under `worklog add` of internal/verb/worklog.go.
use mathlib.Core.List.{cons-ne-nil}
use selftracked.Common.{
  ℕ, ◌+◌, ◌≡◌, ◌≤◌, refl, sym, subst, ◌∙◌, Bool, true, false, List, [], ◌∷◌, ◌++◌, any, All,
  All-append, Option, none, some, arith, Bool-cases, inl, inr, nat_beq, nat_beq_iff, ltb,
}
use selftracked.Common.Text.{text_eq, text_beq, text_beq_iff}
use selftracked.Store.{
  Epic, Story, Episode, Store, State, in_progress, done, blocked_on_owner, dissolved, max_seq,
}
use selftracked.Stories.Rows.{any-append, All-map}
use selftracked.Rules.{
  Violation, is_v_row, has_closed, is_target, same_state, collect, is_homeless, is_early,
  is_dangling, dangles, r4,
}
use selftracked.Rules.Lookups.{IsFound}
use selftracked.Rules.Ledger.{append_eq_nil}

pub collect-All :
    {A : Type 0} (bad : A → Bool) (v : A → Violation) (ws : List A)
    → collect bad v ws ≡ []
    → All (λ w. bad w ≡ false) ws
unfolding collect
collect-All bad v [] h = tt
collect-All bad v (w ∷ ws) h = elim (Bool-cases (bad w)) [
  | inl e ↦ let k : v w ∷ collect bad v ws ≡ [] = sym (rw e refl) ∙ h in absurd (cons-ne-nil _ _ k)
  | inr e ↦ (e, collect-All bad v ws (sym (rw e refl) ∙ h))
]

pub collect-nil :
    {A : Type 0} (bad : A → Bool) (v : A → Violation) (ws : List A)
    → All (λ w. bad w ≡ false) ws
    → collect bad v ws ≡ []
unfolding collect
collect-nil bad v [] h = refl
collect-nil bad v (w ∷ ws) (e, h) = rw e (collect-nil bad v ws h)

-- The rule without a report, as predicates on the ledger.
pub record Clean (epics : List Epic) (stories : List Story) (log : List Episode) : Type 0 where
  pub homed : All (λ w. is_homeless stories w ≡ false) log
  pub late : All (λ w. is_early epics w ≡ false) log
  pub answered : All (λ w. is_dangling log w ≡ false) log

pub r4-Clean : (db : Store) → r4 db ≡ [] → Clean db.epics db.stories db.worklog
unfolding r4
r4-Clean db h =
    let (p, q) = append_eq_nil _ _ h in
    let (q1, q2) = append_eq_nil _ _ q in
    record {
      homed = collect-All _ _ db.worklog p;
      late = collect-All _ _ db.worklog q1;
      answered = collect-All _ _ db.worklog q2;
    }

pub Clean-r4 : (db : Store) → Clean db.epics db.stories db.worklog → r4 db ≡ []
unfolding r4
Clean-r4 db c =
    rw
      (
        collect-nil (is_homeless db.stories) _ db.worklog c.homed,
        collect-nil (is_early db.epics) _ db.worklog c.late,
        collect-nil (is_dangling db.worklog) _ db.worklog c.answered,
      )
      refl

-- What makes a new row a good one.
pub record IsGood (epics : List Epic) (stories : List Story) (log : List Episode) (w : Episode)
    : Type 0 where
  pub homed : is_homeless stories w ≡ false
  pub late : is_early epics w ≡ false
  pub answered : is_dangling (log ++ (w ∷ [])) w ≡ false

pub dangles-grown :
    (log : List Episode) (v w : Episode) (o : Option ℕ)
    → dangles log w o ≡ false
    → dangles (log ++ (v ∷ [])) w o ≡ false
unfolding dangles
dangles-grown log v w none h = refl
dangles-grown log v w (some n) h = rw (any-append (is_target w n) log (v ∷ [])) (ground arith)

pub dangling-grown :
    (log : List Episode) (v w : Episode)
    → is_dangling log w ≡ false
    → is_dangling (log ++ (v ∷ [])) w ≡ false
unfolding is_dangling
dangling-grown log v w h = dangles-grown log v w w.corrects h

pub Clean-grown :
    (epics : List Epic) (stories : List Story) (log : List Episode) (w : Episode)
    → Clean epics stories log
    → IsGood epics stories log w
    → Clean epics stories (log ++ (w ∷ []))
Clean-grown epics stories log w c g = record {
  homed = All-append _ log (w ∷ []) c.homed (g.homed, tt);
  late = All-append _ log (w ∷ []) c.late (g.late, tt);
  answered =
      All-append _ log (w ∷ [])
        (All-map _ (λ v. is_dangling (log ++ (w ∷ [])) v ≡ false) (λ v h. dangling-grown log w v h)
          log c.answered)
        (g.answered, tt);
}

pub same_state_refl : (st : State) → same_state st st ≡ true
same_state_refl in_progress = refl
same_state_refl done = refl
same_state_refl blocked_on_owner = refl
same_state_refl dissolved = refl

pub target_of :
    (w t : Episode) (n top : ℕ)
    → t.epic ≡ w.epic
    → t.seq ≡ n
    → t.seq ≤ top
    → w.seq ≡ top + 1
    → t.corrects ≡ none
    → t.story ≡ w.story
    → t.state ≡ w.state
    → is_target w n t ≡ true
unfolding is_target
target_of w t n top epic seq below next original story state =
    let a : text_beq t.epic w.epic ≡ true = (text_beq_iff t.epic w.epic).1 epic in
    let b : nat_beq t.seq n ≡ true = (nat_beq_iff t.seq n).1 seq in
    let c : ltb t.seq w.seq ≡ true = ground arith in
    let d : text_beq t.story w.story ≡ true = (text_beq_iff t.story w.story).1 story in
    let e : same_state t.state w.state ≡ true =
      subst (λ z. same_state t.state z ≡ true) state (same_state_refl t.state) in
    rw (a, b, c, d, original, e) refl

pub homeless-same :
    (stories : List Story) (w t : Episode)
    → t.epic ≡ w.epic
    → t.story ≡ w.story
    → is_homeless stories t ≡ is_homeless stories w
unfolding is_homeless
homeless-same stories w t p q = rw (p, q) refl

pub early-same :
    (epics : List Epic) (w t : Episode)
    → t.epic ≡ w.epic
    → t.story ≡ w.story
    → is_early epics t ≡ is_early epics w
unfolding is_early
early-same epics w t p q = rw (p, q) refl

pub answered_by :
    (log : List Episode) (w : Episode) (o : Option ℕ) (n : ℕ)
    → o ≡ some n
    → any (is_target w n) log ≡ true
    → dangles (log ++ (w ∷ [])) w o ≡ false
unfolding dangles
answered_by log w none n e h = cc
answered_by log w (some m) n e h =
    let q : m ≡ n = cc in rw (q, any-append (is_target w n) log (w ∷ []), h) refl

-- A correction of a row that is there.
pub correction-IsGood :
    (epics : List Epic) (stories : List Story) (log : List Episode) (w t : Episode) (n : ℕ)
    → Clean epics stories log
    → IsFound log w.epic n t
    → w.seq ≡ max_seq log w.epic + 1
    → w.corrects ≡ some n
    → t.corrects ≡ none
    → t.story ≡ w.story
    → t.state ≡ w.state
    → IsGood epics stories log w
correction-IsGood epics stories log w t n c f next corrects original story state = record {
  homed =
      sym (homeless-same stories w t f.epic_eq story)
      ∙ f.good (λ v. is_homeless stories v ≡ false) c.homed;
  late = sym (early-same epics w t f.epic_eq story) ∙ f.good (λ v. is_early epics v ≡ false) c.late;
  answered =
      unfold is_dangling in
      answered_by log w w.corrects n corrects (
        f.member (is_target w n) (
          target_of w t n (max_seq log w.epic) f.epic_eq f.seq_eq f.below next original story
            state));
}

-- A row after the close of the epic.
pub v_row-IsGood :
    (epics : List Epic) (stories : List Story) (log : List Episode) (w : Episode)
    → is_v_row w.story ≡ true
    → has_closed epics w.epic ≡ true
    → w.corrects ≡ none
    → IsGood epics stories log w
unfolding is_homeless is_early is_dangling dangles
v_row-IsGood epics stories log w v closed original = record {
  homed = rw v refl;
  late = rw (v, closed) refl;
  answered = subst (λ z. dangles (log ++ (w ∷ [])) w z ≡ false) (sym original) refl;
}
