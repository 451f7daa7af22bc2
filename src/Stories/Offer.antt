-- ===== src/Stories/Offer.antt =====
-- `StoryToOffer` of internal/rules/stories.go: the story that a refusal offers as the home of an episode.
use selftracked.Common.{
  ℕ, ◌≡◌, ◌≢◌, refl, sym, ap, ◌∙◌, Bool, true, false, ◌&&◌, ◌||◌, List, [], ◌∷◌, Option, none, some,
  nat_beq, ltb, ◌==◌, if◌then◌else◌, arith, Bool-cases, Option-cases, inl, inr,
}
use selftracked.Common.Text.{Text, text_eq}
use selftracked.Store.{
  StoryStatus, story_planned, story_ready, story_blocked, story_in_progress, story_done,
  story_dissolved, Story, is_in_progress, story_in_slot,
}
use selftracked.Stories.{story_number}

-- The place in `NonTerminalStoryStatuses`; 4 is none.
abbrev pub rank : StoryStatus → ℕ
rank story_in_progress = 0
rank story_ready = 1
rank story_blocked = 2
rank story_planned = 3
rank story_done = 4
rank story_dissolved = 4

-- The order of two texts by their bytes.
unfoldable pub text_ltb : Text → Text → Bool
text_ltb s [] = false
text_ltb [] (d ∷ t) = true
text_ltb (c ∷ s) (d ∷ t) = let rest = text_ltb s t in ltb c d || (nat_beq c d && rest)

-- `ORDER BY CASE status … END, CAST(substr(id, 2) AS INTEGER), id`
unfoldable pub precedes : Story → Story → Bool
precedes s t =
    ltb (rank s.status) (rank t.status)
    || (nat_beq (rank s.status) (rank t.status)
        && (ltb (story_number s.id) (story_number t.id)
            || (nat_beq (story_number s.id) (story_number t.id) && text_ltb s.id t.id)))

-- The first of a row and the best of the rows behind it.
unfoldable pub first_of : Story → Option Story → Option Story
first_of s none = some s
first_of s (some t) = if precedes t s then some t else some s

unfoldable pub story_to_offer : List Story → Text → Option Story
story_to_offer [] epic = none
story_to_offer (s ∷ ss) epic =
    let rest = story_to_offer ss epic in
    if s.epic == epic && ltb (rank s.status) 4 then first_of s rest else rest

-- The story that is offered is in progress.
abbrev IsRunning : Option Story → Type 0
IsRunning o = (s : Story) × (o ≡ some s) × (is_in_progress s.status ≡ true)

rank-zero : (st : StoryStatus) → rank st ≡ 0 → is_in_progress st ≡ true
rank-zero story_in_progress h = refl
rank-zero story_ready h = absurd (omega arith)
rank-zero story_blocked h = absurd (omega arith)
rank-zero story_planned h = absurd (omega arith)
rank-zero story_done h = absurd (omega arith)
rank-zero story_dissolved h = absurd (omega arith)

zero-rank : (st : StoryStatus) → is_in_progress st ≡ true → rank st ≡ 0
zero-rank story_in_progress h = refl
zero-rank story_ready h = cc
zero-rank story_blocked h = cc
zero-rank story_planned h = cc
zero-rank story_done h = cc
zero-rank story_dissolved h = cc

first_of-IsRunning :
    (s : Story) (o : Option Story) → is_in_progress s.status ≡ true → IsRunning (first_of s o)
unfolding first_of precedes
first_of-IsRunning s none h = (s, refl, h)
first_of-IsRunning s (some t) h = elim (Bool-cases (precedes t s)) [
  | inl e ↦ (t, rw e refl, rank-zero t.status (let z = zero-rank s.status h in ground arith))
  | inr e ↦ (s, rw e refl, h)
]

first_of-later :
    (s t : Story)
    → is_in_progress t.status ≡ true
    → is_in_progress s.status ≡ false
    → first_of s (some t) ≡ some t
unfolding first_of precedes
first_of-later s t h k =
    let z = zero-rank t.status h in
    let n : rank s.status ≢ 0 = λ q. (let r = rank-zero s.status q in cc) in
    let p : precedes t s ≡ true = ground arith in rw p refl

behind :
    (s : Story) (rows : List Story) (epic : Text)
    → (s.epic == epic) ≡ true
    → is_in_progress s.status ≡ false
    → IsRunning (story_to_offer rows epic)
    → IsRunning (story_to_offer (s ∷ rows) epic)
unfolding story_to_offer
behind s rows epic a r (t, p, q) = elim (Bool-cases (ltb (rank s.status) 4)) [
  | inl b ↦ rw (a, b) (rw p (t, first_of-later s t q r, q))
  | inr b ↦ rw (a, b) (t, p, q)
]

IsRunning-offered :
    (rows : List Story) (epic id : Text)
    → story_in_slot rows epic ≡ some id
    → IsRunning (story_to_offer rows epic)
unfolding story_in_slot story_to_offer
IsRunning-offered [] epic id h = cc
IsRunning-offered (s ∷ rows) epic id h = elim (Bool-cases (s.epic == epic)) [
  | inr a ↦
      let v : story_in_slot (s ∷ rows) epic ≡ story_in_slot rows epic = rw a refl in
      rw a (IsRunning-offered rows epic id (sym v ∙ h))
  | inl a ↦ elim (Bool-cases (is_in_progress s.status)) [
    | inl r ↦
        let z = zero-rank s.status r in
        let b : ltb (rank s.status) 4 ≡ true = ground arith in
        rw (a, b) (first_of-IsRunning s (story_to_offer rows epic) r)
    | inr r ↦
        let v : story_in_slot (s ∷ rows) epic ≡ story_in_slot rows epic = rw (a, r) refl in
        behind s rows epic a r (IsRunning-offered rows epic id (sym v ∙ h))
  ]
]

-- If the story that is offered as the home of an episode is not IN-PROGRESS, then no story of its
-- epic is, so that the advice to start it does not run into the limit of one story in progress.
pub story_to_offer-free :
    (rows : List Story) (epic : Text) (s : Story)
    → story_to_offer rows epic ≡ some s
    → is_in_progress s.status ≡ false
    → story_in_slot rows epic ≡ none
story_to_offer-free rows epic s h k = elim (Option-cases (story_in_slot rows epic)) [
  | inl e ↦ e
  | inr (id, e) ↦
      let (t, p, q) = IsRunning-offered rows epic id e in
      let same : t ≡ s = cc in
      let z : is_in_progress s.status ≡ true = (ap (λ r. is_in_progress r.status) (sym same) ∙ q) in
      cc
]
