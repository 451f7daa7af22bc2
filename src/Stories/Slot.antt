-- ===== src/Stories/Slot.antt =====
-- One story in progress for an epic: internal/verb/stories.go over the index of internal/schema/ddl.sql.
use selftracked.Common.{
  ◌≡◌, ◌≢◌, ◌≤◌, refl, sym, subst, ◌∙◌, Bool, true, false, ◌&&◌, List, [], ◌∷◌, ◌++◌, some, ◌==◌,
  ok, arith, Bool-cases, inl, inr,
}
use selftracked.Common.Text.{Text, text_eq, text_beq, text_beq_iff}
use selftracked.Store.{
  Story, Store, is_in_progress, find_story, replace_story, update_story, wip_count,
}
use selftracked.Stories.Rows.{find_story-cons, find_story-key, at_key-eq}
use selftracked.Stories.Effects.{Keeps, Effect, moved, added, update_story-parts}
use selftracked.Stories.Commands.{Command, run, run-Effect}

-- No epic has two stories in progress.
abbrev pub OneSlot : List Story → Type 0
OneSlot rows = (epic : Text) → wip_count rows epic ≤ 1

and-false : (b : Bool) → b && false ≡ false
and-false true = refl
and-false false = refl

other_epic : (a b c : Text) → a ≡ b → b ≢ c → text_beq a c ≡ false
other_epic a b c p h = elim (Bool-cases (text_beq a c)) [
  | inl e ↦ absurd (h (sym p ∙ (text_beq_iff a c).0 e))
  | inr e ↦ e
]

-- A row that keeps its epic does not count for another epic, before or after.
wip_count-replace_story :
    (rows : List Story) (slug sid : Text) (f : Story → Story) (s : Story) (epic : Text)
    → find_story rows slug sid ≡ some s
    → Keeps f
    → slug ≢ epic
    → wip_count (replace_story rows slug sid f) epic ≡ wip_count rows epic
unfolding wip_count replace_story
wip_count-replace_story [] slug sid f s epic hit kept other = refl
wip_count-replace_story (r ∷ rows) slug sid f s epic hit kept other =
    elim (find_story-cons r rows slug sid s hit) [
      | inl (e, q) ↦
          let a : text_beq r.epic epic ≡ false =
            other_epic r.epic slug epic (at_key-eq slug sid r e).0 other in
          let b : text_beq (f r).epic epic ≡ false = rw (kept.epic_kept r) a in
          rw e (rw (a, b) refl)
      | inr (e, q) ↦ rw e (rw (wip_count-replace_story rows slug sid f s epic q kept other) refl)
    ]

wip_count-append :
    (rows : List Story) (s : Story) (epic : Text)
    → is_in_progress s.status ≡ false
    → wip_count (rows ++ (s ∷ [])) epic ≡ wip_count rows epic
unfolding wip_count
wip_count-append [] s epic h = rw h (rw (and-false (s.epic == epic)) refl)
wip_count-append (r ∷ rows) s epic h = rw (wip_count-append rows s epic h) refl

slot-moved :
    (rows rows' : List Story) (slug sid : Text) (f : Story → Story) (s : Story)
    → find_story rows slug sid ≡ some s
    → Keeps f
    → update_story rows slug sid f ≡ ok rows'
    → OneSlot rows
    → OneSlot rows'
slot-moved rows rows' slug sid f s hit kept to h epic =
    let parts = update_story-parts rows slug sid f s rows' hit to in
    let own : (f s).epic ≡ slug = kept.epic_kept s ∙ (find_story-key rows slug sid s hit).0 in
    elim (Bool-cases (slug == epic)) [
      | inl e ↦
          let same : (f s).epic ≡ epic = own ∙ (text_beq_iff slug epic).0 e in
          rw parts.replaced (
            subst (λ z. wip_count (replace_story rows slug sid f) z ≤ 1) same
              (let i = parts.indexed in ground arith))
      | inr e ↦
          let other : slug ≢ epic = λ q. (let k = (text_beq_iff slug epic).1 q in cc) in
          rw parts.replaced
            (rw (wip_count-replace_story rows slug sid f s epic hit kept other) (h epic))
    ]

slot-Effect : (db db' : Store) → Effect db db' → OneSlot db.stories → OneSlot db'.stories
slot-Effect db db' (moved slug sid s f hit undone kept to log) h =
    slot-moved db.stories db'.stories slug sid f s hit kept to h
slot-Effect db db' (added s st to log) h =
    λ epic. rw to (rw (wip_count-append db.stories s epic (rw st refl)) (h epic))

-- If no epic has two stories in progress, then none has after any verb on stories that succeeds.
pub run-OneSlot :
    (date : Text) (c : Command) (db db' : Store)
    → OneSlot db.stories
    → run date c db ≡ ok db'
    → OneSlot db'.stories
run-OneSlot date c db db' h e = slot-Effect db db' (run-Effect date c db db' e) h
