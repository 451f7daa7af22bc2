-- ===== src/Stories/Episodes.antt =====
-- The ledger of internal/verb/stories.go: it only grows, and its episodes are numbered from 1 for each epic.
use selftracked.Common.{
  ℕ, suc, ◌+◌, ◌≡◌, ◌≢◌, refl, sym, ap, ◌∙◌, false, List, [], ◌∷◌, ◌++◌, leb, ◌==◌, if◌then◌else◌,
  ok, arith, Bool-cases, inl, inr, ◌⊎◌,
}
use selftracked.Common.Text.{Text, text_eq, text_beq, text_beq_iff}
use selftracked.Store.{Episode, Store, max_seq}
use selftracked.Stories.Effects.{silent, episode, moved, added}
use selftracked.Stories.Commands.{Command, run, run-Effect}

-- The episodes of an epic, and how many there are behind the first `k`, carry the numbers from `k + 1` on.
abbrev pub Numbered : Text → ℕ → List Episode → Type 0
Numbered epic k [] = Unit
Numbered epic k (w ∷ ws) =
    (w.epic ≡ epic → (w.seq ≡ k + 1) × Numbered epic (k + 1) ws)
    × (w.epic ≢ epic → Numbered epic k ws)

count : Text → List Episode → ℕ
count epic [] = 0
count epic (w ∷ ws) = let rest = count epic ws in if w.epic == epic then suc rest else rest

differs : (a b : Text) → text_beq a b ≡ false → a ≢ b
differs a b e q = let k = (text_beq_iff a b).1 q in cc

count-own :
    (epic : Text) (v : Episode) (ws : List Episode)
    → v.epic ≡ epic
    → count epic (v ∷ ws) ≡ suc (count epic ws)
unfolding count
count-own epic v ws q = let e = (text_beq_iff v.epic epic).1 q in rw e refl

count-other :
    (epic : Text) (v : Episode) (ws : List Episode)
    → v.epic ≢ epic
    → count epic (v ∷ ws) ≡ count epic ws
unfolding count
count-other epic v ws q = elim (Bool-cases (v.epic == epic)) [
  | inl e ↦ absurd (q ((text_beq_iff v.epic epic).0 e))
  | inr e ↦ rw e refl
]

top :
    (m c k : ℕ)
    → ((c ≡ 0) × (m ≡ 0)) ⊎ (m ≡ k + 1 + c)
    → (if leb m (k + 1) then k + 1 else m) ≡ k + suc c
top m c k (inl (p, q)) = ground arith
top m c k (inr q) = ground arith

-- The greatest number is that of the last episode.
max_seq-Numbered :
    (epic : Text) (k : ℕ) (ws : List Episode)
    → Numbered epic k ws
    → ((count epic ws ≡ 0) × (max_seq ws epic ≡ 0)) ⊎ (max_seq ws epic ≡ k + count epic ws)
unfolding max_seq count
max_seq-Numbered epic k [] h = inl (refl, refl)
max_seq-Numbered epic k (w ∷ ws) (own, other) = elim (Bool-cases (w.epic == epic)) [
  | inl e ↦
      let (n, h) = own ((text_beq_iff w.epic epic).0 e) in
      let ih = max_seq-Numbered epic (k + 1) ws h in
      rw e (rw n (inr (top (max_seq ws epic) (count epic ws) k ih)))
  | inr e ↦ rw e (max_seq-Numbered epic k ws (other (differs w.epic epic e)))
]

Numbered-append :
    (epic : Text) (k : ℕ) (ws : List Episode) (w : Episode)
    → Numbered epic k ws
    → (w.epic ≡ epic → w.seq ≡ k + count epic ws + 1)
    → Numbered epic k (ws ++ (w ∷ []))
unfolding count
Numbered-append epic k [] w h n = (λ q. ((let v = n q in omega arith), tt), λ q. tt)
Numbered-append epic k (v ∷ ws) w (own, other) n = (
  λ q.
      let (m, h) = own q in
      (
        m,
        Numbered-append epic (k + 1) ws w h
            (λ p. (let a = n p in let b = count-own epic v ws q in omega arith)),
      ),
  λ q.
      Numbered-append epic k ws w (other q)
        (λ p. (let a = n p in let b = count-other epic v ws q in omega arith)),
)

-- The next number of the ledger is one more than the episodes of the epic.
max_seq-count :
    (epic : Text) (ws : List Episode) → Numbered epic 0 ws → max_seq ws epic ≡ count epic ws
max_seq-count epic ws h = elim (max_seq-Numbered epic 0 ws h) [
  | inl (p, q) ↦ omega arith
  | inr q ↦ omega arith
]

-- The episodes of every epic carry the numbers from 1 on, in the order of the ledger.
abbrev pub AllNumbered : List Episode → Type 0
AllNumbered log = (epic : Text) → Numbered epic 0 log

pub numbered-next :
    (log : List Episode) (w : Episode)
    → w.seq ≡ max_seq log w.epic + 1
    → AllNumbered log
    → AllNumbered (log ++ (w ∷ []))
numbered-next log w n h epic = Numbered-append epic 0 log w (h epic) (λ p.
    let m : w.seq ≡ count epic log + 1 =
      n ∙ ap (λ z. z + 1) (ap (max_seq log) p ∙ max_seq-count epic log (h epic)) in
    omega arith)

-- If the episodes of each epic are numbered from 1 without a gap, in the order of the ledger, then
-- they are after any verb on stories that succeeds.
pub run-AllNumbered :
    (date : Text) (c : Command) (db db' : Store)
    → AllNumbered db.worklog
    → run date c db ≡ ok db'
    → AllNumbered db'.worklog
run-AllNumbered date c db db' h e = elim (run-Effect date c db db' e) [
  | added s st to log ↦ rw log h
  | moved slug sid s f hit undone kept to (silent log _) ↦ rw log h
  | moved slug sid s f hit undone kept to (episode w log n) ↦
      rw log
        (numbered-next db.worklog w (n.next ∙ ap (λ z. max_seq db.worklog z + 1) (sym n.epic_eq)) h)
]
