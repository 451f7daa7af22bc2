-- ===== src/Tasks/Bounds.antt =====
-- The size of an event of `edit` in internal/verb/tasks.go.
use selftracked.Common.{
  ℕ, zero, suc, ◌+◌, ◌-◌, ◌≡◌, ◌≤◌, Bool, true, false, List, [], ◌∷◌, ◌++◌, length, length-append,
  leb, arith, Bool-cases, inl, inr,
}
use selftracked.Common.Text.{Text, codes, text_eq, join_with}
use selftracked.Store.{Task}
use selftracked.Tasks.Edit.{
  take, ellipsis, arrow, bounded, Edit, one_if, change_text, edit_title, edit_note, edit_home,
  edit_set, changes_of, home_text,
}

length-take : (n : ℕ) (s : Text) → length (take n s) ≤ n
unfolding take
length-take zero s = omega arith
length-take (suc n) [] = omega arith
length-take (suc n) (c ∷ s) = omega (arith, length-take n s)

length-bounded : (s : Text) → length (bounded s) ≤ 43
unfolding bounded
length-bounded s = elim (Bool-cases (leb (length s) 40)) [
  | inl e ↦ rw e (ground arith)
  | inr e ↦ rw e (omega (arith, length-append (take 40 s) ellipsis, length-take 40 s))
]

length-change_text : (field old new : Text) → length (change_text field old new) ≤ length field + 91
unfolding change_text
length-change_text field old new = omega (
  arith,
  length-append field (codes ": " ++ (bounded old ++ (arrow ++ bounded new))),
  length-append (bounded old) (arrow ++ bounded new),
  length-bounded old,
  length-bounded new,
)

-- At most one record of a change, of a bounded length.
abbrev Small : ℕ → List Edit → Type 0
Small n [] = Unit
Small n (e ∷ []) = length e.change ≤ n
Small n (e ∷ f ∷ es) = ⊥

Small-one : (n : ℕ) (b : Bool) (e : Edit) → length e.change ≤ n → Small n (one_if b e)
Small-one n true e h = h
Small-one n false e h = tt

title-Small : (cur : Task) (title : Text) → Small 96 (edit_title cur title)
unfolding edit_title
title-Small cur title = Small-one 96 _ _ (length-change_text (codes "title") cur.title title)

note-Small : (cur : Task) (note : Text) → Small 95 (edit_note cur note)
unfolding edit_note
note-Small cur note = Small-one 95 _ _ (length-change_text (codes "note") cur.status_note note)

home-Small : (cur : Task) (slug : Text) (detach : Bool) → Small 95 (edit_home cur slug detach)
unfolding edit_home
home-Small cur slug false =
    Small-one 95 _ _ (length-change_text (codes "epic") (home_text cur.epic) slug)
home-Small cur slug true =
    omega (
      arith,
      length-append (bounded (home_text cur.epic)) arrow,
      length-bounded (home_text cur.epic),
    )

-- The records with a separator for each.
unfoldable cost : List Edit → ℕ
cost [] = 0
cost (e ∷ es) = length e.change + 2 + cost es

cost-append : (a b : List Edit) → cost (a ++ b) ≡ cost a + cost b
unfolding cost
cost-append [] b = omega arith
cost-append (e ∷ a) b = omega (arith, cost-append a b)

cost-Small : (n : ℕ) (es : List Edit) → Small n es → cost es ≤ n + 2
unfolding cost
cost-Small n [] h = omega arith
cost-Small n (e ∷ []) h = omega (arith, h)
cost-Small n (e ∷ f ∷ es) h = absurd h

length-changes : (es : List Edit) → length (join_with (codes "; ") (changes_of es)) ≤ cost es - 2
unfolding join_with changes_of cost
length-changes [] = omega arith
length-changes (e ∷ []) = omega arith
length-changes (e ∷ f ∷ es) =
    let rest = join_with (codes "; ") (changes_of (f ∷ es)) in
    omega (arith, length-changes (f ∷ es), length-append e.change (codes "; " ++ rest))

-- The text of the changes that an edit of a task logs has at most 290 bytes, whatever the old and
-- the new values are.
pub length-edit_set :
    (cur : Task) (title note slug : Text) (detach : Bool)
    → length (join_with (codes "; ") (changes_of (edit_set cur title note slug detach))) ≤ 290
unfolding edit_set
length-edit_set cur title note slug detach =
    let a = edit_title cur title in
    let b = edit_note cur note in
    let c = edit_home cur slug detach in
    omega (
      arith,
      length-changes (a ++ (b ++ c)),
      cost-append a (b ++ c),
      cost-append b c,
      cost-Small 96 a (title-Small cur title),
      cost-Small 95 b (note-Small cur note),
      cost-Small 95 c (home-Small cur slug detach),
    )
