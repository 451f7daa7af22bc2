-- ===== src/Rules/Lookups.antt =====
-- What the lookups of internal/verb/worklog.go find in the ledger and in the epics.
use selftracked.Common.{
  ℕ, ◌≡◌, ◌≤◌, refl, sym, subst, ◌∙◌, Bool, true, false, ◌&&◌, List, [], ◌∷◌, any, All, some, ◌==◌,
  arith, Bool-cases, inl, inr, nat_beq, nat_beq_iff,
}
use selftracked.Common.Text.{Text, text_eq, text_beq, text_beq_iff}
use selftracked.Store.{
  Epic, Episode, State, in_progress, done, blocked_on_owner, dissolved, EpicStatus, epic_status,
  max_seq,
}
use selftracked.Store.{is_closed}
use selftracked.Worklog.{state_of, state_text, find_episode}
use selftracked.Rules.{has_closed}

-- The row that a lookup finds.
pub record IsFound (log : List Episode) (epic : Text) (n : ℕ) (t : Episode) : Type 1 where
  pub epic_eq : t.epic ≡ epic
  pub seq_eq : t.seq ≡ n
  pub below : t.seq ≤ max_seq log epic
  pub good : (P : Episode → Type 0) → All P log → P t
  pub member : (p : Episode → Bool) → p t ≡ true → any p log ≡ true

pub max_seq-grown :
    (w : Episode) (ws : List Episode) (epic : Text) → max_seq ws epic ≤ max_seq (w ∷ ws) epic
unfolding max_seq
max_seq-grown w ws epic = elim (Bool-cases (w.epic == epic)) [
  | inl e ↦ rw e (ground arith)
  | inr e ↦ rw e (omega arith)
]

pub max_seq-head :
    (w : Episode) (ws : List Episode) (epic : Text)
    → (w.epic == epic) ≡ true
    → w.seq ≤ max_seq (w ∷ ws) epic
unfolding max_seq
max_seq-head w ws epic e = rw e (ground arith)

pub both : (a b : Bool) → a && b ≡ true → (a ≡ true) × (b ≡ true)
both true b h = (refl, h)
both false b h = cc

pub head-IsFound :
    (w : Episode) (ws : List Episode) (epic : Text) (n : ℕ)
    → w.epic == epic && nat_beq w.seq n ≡ true
    → IsFound (w ∷ ws) epic n w
head-IsFound w ws epic n e =
    let (p, q) = both (w.epic == epic) (nat_beq w.seq n) e in
    record {
      epic_eq = (text_beq_iff w.epic epic).0 p;
      seq_eq = (nat_beq_iff w.seq n).0 q;
      below = max_seq-head w ws epic p;
      good = λ P (x, m). x;
      member = λ t h. rw h refl;
    }

pub tail-IsFound :
    (w : Episode) (ws : List Episode) (epic : Text) (n : ℕ) (t : Episode)
    → IsFound ws epic n t
    → IsFound (w ∷ ws) epic n t
tail-IsFound w ws epic n t h = record {
  epic_eq = h.epic_eq;
  seq_eq = h.seq_eq;
  below = (let a = h.below in let b = max_seq-grown w ws epic in omega arith);
  good = λ P (x, m). h.good P m;
  member = λ p q. (let m : any p ws ≡ true = h.member p q in ground arith);
}

pub find_episode-IsFound :
    (log : List Episode) (epic : Text) (n : ℕ) (t : Episode)
    → find_episode log epic n ≡ some t
    → IsFound log epic n t
unfolding find_episode
find_episode-IsFound [] epic n t h = cc
find_episode-IsFound (w ∷ ws) epic n t h = elim (Bool-cases (w.epic == epic && nat_beq w.seq n)) [
  | inl e ↦
      let v : find_episode (w ∷ ws) epic n ≡ some w = rw e refl in
      let k : w ≡ t = cc in subst (IsFound (w ∷ ws) epic n) k (head-IsFound w ws epic n e)
  | inr e ↦
      let v : find_episode (w ∷ ws) epic n ≡ find_episode ws epic n = rw e refl in
      tail-IsFound w ws epic n t (find_episode-IsFound ws epic n t (sym v ∙ h))
]

pub state_of-state_text : (st : State) → state_of (state_text st) ≡ some st
unfolding state_of state_text text_beq
state_of-state_text in_progress = refl
state_of-state_text done = refl
state_of-state_text blocked_on_owner = refl
state_of-state_text dissolved = refl

pub has_closed-epic_status :
    (es : List Epic) (slug : Text) (st : EpicStatus)
    → epic_status es slug ≡ some st
    → is_closed st ≡ true
    → has_closed es slug ≡ true
unfolding epic_status has_closed
has_closed-epic_status [] slug st h k = cc
has_closed-epic_status (e ∷ es) slug st h k = elim (Bool-cases (e.slug == slug)) [
  | inl p ↦
      let v : epic_status (e ∷ es) slug ≡ some e.status = rw p refl in
      let q : e.status ≡ st = cc in let c : is_closed e.status ≡ true = rw q k in rw p (rw c refl)
  | inr p ↦
      let v : epic_status (e ∷ es) slug ≡ epic_status es slug = rw p refl in
      rw p (has_closed-epic_status es slug st (sym v ∙ h) k)
]
