-- ===== src/Worklog/Forms.antt =====
-- The rows that `validateForm` of internal/verb/worklog.go lets through.
use selftracked.Common.{
  ℕ, zero, suc, ◌≤◌, ◌≢◌, ◌≡◌, refl, sym, ap, subst, ◌∙◌, Bool, true, false, not, ◌||◌, [], ◌∷◌,
  ◌++◌, List, All, Option, none, some, is_some, ltb, nat_beq, if◌then◌else◌, ◌==◌, ok, ok-injective,
  Bool-cases, Option-cases, inl, inr, found, bind-eq-ok, or_err-eq-ok, guard-eq-ok, guard, arith,
}
use selftracked.Common.Int.{ℤ, pos, negsuc}
use selftracked.Common.Text.{Text, codes, text_eq, text_beq_iff, cut_prefix, cut_prefix-eq}
use selftracked.Store.{
  Episode, EpicStatus, epic_backlog, epic_active, epic_paused, epic_closed, epic_dissolved, Store,
  Refusal, control_chars, State, in_progress, done, blocked_on_owner, dissolved, chain, mismatch,
  not_found, not_closed, epic_status, is_closed,
}
use selftracked.Stories.{validate_text, validate_texts}
use selftracked.Worklog.{
  state_of, state_text, find_episode, require_closed_epic, validate_correction, validate_form, is_v,
}

-- A row of its own behind the close of the epic, or a correction of an original row of the same epic, story and state.
pub data IsFormed (db : Store) (slug story state : Text) (corrects : ℤ) (c : Option ℕ)
    : Type 0 where
  after_close :
      (name : Text)
      → story ≡ codes "V-" ++ name
      → epic_status db.epics slug ≡ some epic_closed
      → corrects ≡ pos 0
      → c ≡ none
      → IsFormed db slug story state corrects c
  correction :
      (n : ℕ) (t : Episode)
      → is_v story ≡ false
      → corrects ≡ pos n
      → find_episode db.worklog slug n ≡ some t
      → c ≡ some n
      → t.corrects ≡ none
      → t.story ≡ story
      → state_text t.state ≡ state
      → IsFormed db slug story state corrects c

guarded : (b : Bool) (x : Refusal) (u : Unit {0}) → guard b x ≡ ok u → b ≡ true
guarded true x u h = refl
guarded false x u h = cc

no_correction : (o : Option ℕ) → not (is_some o) ≡ true → o ≡ none
no_correction none h = refl
no_correction (some n) h = cc

closed_status : (st : EpicStatus) → is_closed st ≡ true → st ≡ epic_closed
closed_status epic_backlog h = cc
closed_status epic_active h = cc
closed_status epic_paused h = cc
closed_status epic_closed h = refl
closed_status epic_dissolved h = cc

validate_correction-IsFormed :
    (db : Store) (slug story state : Text) (n : ℕ) (u : Unit {0})
    → is_v story ≡ false
    → validate_correction db slug story state n ≡ ok u
    → IsFormed db slug story state (pos n) (some n)
unfolding validate_correction
validate_correction-IsFormed db slug story state n u v e =
    elim (or_err-eq-ok (find_episode db.worklog slug n) not_found _ u e) [
      | found t hit e1 ↦ elim (guard-eq-ok (not (is_some t.corrects)) chain _ u e1) [
        | found _ original e2 ↦ elim (guard-eq-ok (t.story == story) mismatch _ u e2) [
          | found _ p e3 ↦
              correction n t v refl hit refl (no_correction t.corrects original)
                ((text_beq_iff t.story story).0 p)
                ((text_beq_iff (state_text t.state) state).0
                  (guarded (state_text t.state == state) mismatch u e3))
        ]
      ]
    ]

require_closed_epic-closed :
    (db : Store) (slug : Text) (u : Unit {0})
    → require_closed_epic db slug ≡ ok u
    → epic_status db.epics slug ≡ some epic_closed
unfolding require_closed_epic
require_closed_epic-closed db slug u e =
    elim (or_err-eq-ok (epic_status db.epics slug) not_found _ u e) [
      | found st p e1 ↦ p ∙ ap some (closed_status st (guarded (is_closed st) not_closed u e1))
    ]

v_form :
    (db : Store) (slug story state name : Text) (corrects : ℤ) (c : Option ℕ)
    → story ≡ codes "V-" ++ name
    → validate_form db slug story state corrects true ≡ ok c
    → IsFormed db slug story state corrects c
unfolding validate_form
v_form db slug story state name (pos zero) c v e =
    elim (bind-eq-ok (require_closed_epic db slug) _ c e) [
      | found u p e1 ↦
          after_close name v (require_closed_epic-closed db slug u p) refl (sym (ok-injective e1))
    ]
v_form db slug story state name (pos (suc n)) c v e = cc
v_form db slug story state name (negsuc n) c v e = cc

other_form :
    (db : Store) (slug story state : Text) (corrects : ℤ) (c : Option ℕ)
    → is_v story ≡ false
    → validate_form db slug story state corrects false ≡ ok c
    → IsFormed db slug story state corrects c
unfolding validate_form
other_form db slug story state (pos zero) c v e = cc
other_form db slug story state (pos (suc n)) c v e =
    elim (bind-eq-ok (validate_correction db slug story state (suc n)) _ c e) [
      | found u p e1 ↦
          subst (IsFormed db slug story state (pos (suc n))) (ok-injective e1)
            (validate_correction-IsFormed db slug story state (suc n) u v p)
    ]
other_form db slug story state (negsuc n) c v e = cc

pub validate_form-IsFormed :
    (db : Store) (slug story state : Text) (corrects : ℤ) (c : Option ℕ)
    → validate_form db slug story state corrects (is_v story) ≡ ok c
    → IsFormed db slug story state corrects c
unfolding is_v
validate_form-IsFormed db slug story state corrects c e =
    elim (Option-cases (cut_prefix story (codes "V-"))) [
      | inr (name, p) ↦
          let v : is_v story ≡ true = rw p refl in
          v_form db slug story state name corrects c (cut_prefix-eq story (codes "V-") name p)
            (subst (λ z. validate_form db slug story state corrects z ≡ ok c) v e)
      | inl p ↦
          let v : is_v story ≡ false = rw p refl in
          other_form db slug story state corrects c v
            (subst (λ z. validate_form db slug story state corrects z ≡ ok c) v e)
    ]

reads_word :
    (s w : Text) (a st : State) (rest : Option State)
    → state_text a ≡ w
    → (rest ≡ some st → state_text st ≡ s)
    → (if s == w then some a else rest) ≡ some st
    → state_text st ≡ s
reads_word s w a st rest k more e = elim (Bool-cases (s == w)) [
  | inl h ↦
      let q : (if s == w then some a else rest) ≡ some a = rw h refl in
      let same : a ≡ st = cc in ap state_text (sym same) ∙ k ∙ sym ((text_beq_iff s w).0 h)
  | inr h ↦ let q : (if s == w then some a else rest) ≡ rest = rw h refl in more (sym q ∙ e)
]

-- The word that the CHECK of the state reads is that of the state it stands for.
pub state_text-state_of : (s : Text) (st : State) → state_of s ≡ some st → state_text st ≡ s
unfolding state_of state_text
state_text-state_of s st = reads_word s _ in_progress st _ refl (
    reads_word s _ done st _ refl
      (reads_word s _ blocked_on_owner st _ refl (reads_word s _ dissolved st none refl (λ h. cc))))

-- No control character.
abbrev pub IsPlain : Text → Type 0
IsPlain = All (λ c. (0x20 ≤ c) × (c ≢ 0x7f))

validate_text-IsPlain : (s : Text) (u : Unit {0}) → validate_text s ≡ ok u → IsPlain s
unfolding validate_text
validate_text-IsPlain [] u e = tt
validate_text-IsPlain (c ∷ s) u e =
    elim (guard-eq-ok (not (ltb c 0x20 || nat_beq c 0x7f)) control_chars _ u e) [
      | found _ h e1 ↦ (((ground arith), (ground arith)), validate_text-IsPlain s u e1)
    ]

pub validate_texts-IsPlain :
    (ts : List Text) (u : Unit {0}) → validate_texts ts ≡ ok u → All IsPlain ts
unfolding validate_texts
validate_texts-IsPlain [] u e = tt
validate_texts-IsPlain (t ∷ ts) u e = elim (bind-eq-ok (validate_text t) _ u e) [
  | found v h e1 ↦ (validate_text-IsPlain t v h, validate_texts-IsPlain ts u e1)
]
