-- ===== src/Epics/Legal.antt =====
-- The statuses of epics under the verbs of internal/verb/epics.go, over the trigger `epics_transition`.
use selftracked.Common.{
  ◌≡◌, refl, sym, ap, subst, ◌∙◌, true, false, List, [], ◌∷◌, ◌++◌, some, Bool-cases, Option-cases,
  inl, inr, Result, ok, found, bind-eq-ok, guard-eq-ok, ok-injective,
}
use selftracked.Common.Text.{Text, codes, text_eq, text_beq}
use selftracked.Store.{
  EpicStatus, epic_backlog, epic_active, epic_paused, epic_closed, epic_dissolved, Epic, Event,
  Store, Refusal, blocked_by, dissolved, epic_status, find_epic, replace_epic, update_epic,
  update_story, legal_epic_move,
}
use selftracked.Stories.{write, append_worklog}
use selftracked.Stories.Effects.{insert_episode-parts}
use selftracked.Epics.Blockers.{Shell}
use selftracked.Epics.Verbs.{
  put_status, transition_in_tx, epic_activate, epic_pause, dissolve_blockers, put_dissolved,
  dissolve_each, dissolve_stories, is_empty, dissolve_in_tx, epic_dissolve, epic_close,
}
use selftracked.Epics.Close.{update_epic-found}

-- A verb that moves an epic, with its arguments.
pub data Command : Type 0 where
  activating : Text → Command
  pausing dissolving : Text → Text → Command
  closing : Text → Command

-- A command at a time, with the shell that the criteria of a close run in.
unfoldable pub run : Shell → Text → Command → Store → Result Refusal Store
run sh date (activating slug) db = epic_activate slug db
run sh date (pausing slug why) db = epic_pause slug why db
run sh date (dissolving slug why) db = epic_dissolve date slug why db
run sh date (closing slug) db = epic_close sh date date slug db

-- Every epic is still there, and its status moved along the trigger or not at all.
abbrev pub MovesLegally : List Epic → List Epic → Type 0
MovesLegally es es' =
    (slug : Text) (st : EpicStatus)
    → epic_status es slug ≡ some st
    → (st' : EpicStatus) × (epic_status es' slug ≡ some st') × (legal_epic_move st st' ≡ true)

legal_refl : (st : EpicStatus) → legal_epic_move st st ≡ true
legal_refl epic_backlog = refl
legal_refl epic_active = refl
legal_refl epic_paused = refl
legal_refl epic_closed = refl
legal_refl epic_dissolved = refl

stays : (es : List Epic) → MovesLegally es es
stays es slug st h = (st, h, legal_refl st)

-- The other rows keep their statuses.
replace-MovesLegally :
    (es : List Epic) (slug : Text) (f : Epic → Epic) (e : Epic)
    → ((r : Epic) → (f r).slug ≡ r.slug)
    → find_epic es slug ≡ some e
    → legal_epic_move e.status (f e).status ≡ true
    → MovesLegally es (replace_epic es slug f)
unfolding epic_status find_epic replace_epic
replace-MovesLegally [] slug f e k hit l other st h = cc
replace-MovesLegally (r ∷ es) slug f e k hit l other st h =
    elim (Bool-cases (text_beq r.slug slug)) [
      | inl q ↦
          let v : find_epic (r ∷ es) slug ≡ some r = rw q refl in
          let w : r ≡ e = cc in
          elim (Bool-cases (text_beq r.slug other)) [
            | inl o ↦
                let here : epic_status (r ∷ es) other ≡ some r.status = rw o refl in
                let z : r.status ≡ st = cc in
                let o' : text_beq (f r).slug other ≡ true = rw (k r) o in
                (
                  (f r).status,
                  rw q (rw o' refl),
                  subst (λ s. legal_epic_move s (f r).status ≡ true) z
                      (subst (λ x. legal_epic_move x.status (f x).status ≡ true) (sym w) l),
                )
            | inr o ↦
                let there : epic_status (r ∷ es) other ≡ epic_status es other = rw o refl in
                let o' : text_beq (f r).slug other ≡ false = rw (k r) o in
                (st, rw q (rw o' (sym there ∙ h)), legal_refl st)
          ]
      | inr q ↦
          let v : find_epic (r ∷ es) slug ≡ find_epic es slug = rw q refl in
          elim (Bool-cases (text_beq r.slug other)) [
            | inl o ↦
                let here : epic_status (r ∷ es) other ≡ some r.status = rw o refl in
                (st, rw q (rw o (sym here ∙ h)), legal_refl st)
            | inr o ↦
                let there : epic_status (r ∷ es) other ≡ epic_status es other = rw o refl in
                let (st', a, b) =
                  replace-MovesLegally es slug f e k (sym v ∙ hit) l other st (sym there ∙ h) in
                (st', rw q (rw o a), b)
          ]
    ]

pub update_epic-MovesLegally :
    (db db' : Store) (slug : Text) (f : Epic → Epic)
    → ((r : Epic) → (f r).slug ≡ r.slug)
    → update_epic db slug f ≡ ok db'
    → MovesLegally db.epics db'.epics
update_epic-MovesLegally db db' slug f k e = elim (Option-cases (find_epic db.epics slug)) [
  | inl n ↦
      let v : update_epic db slug f ≡ ok db = unfold update_epic in rw (n, update_epic) refl in
      let w : db ≡ db' = ok-injective (sym v ∙ e) in
      subst (λ z. MovesLegally db.epics z.epics) w (stays db.epics)
  | inr (r, hit) ↦
      let (l, _, w) = update_epic-found db db' slug f r hit e in
      subst (λ z. MovesLegally db.epics z.epics) (sym w)
        (replace-MovesLegally db.epics slug f r k hit l)
]

pub write-MovesLegally :
    (db db' : Store) (mutate : Store → Result Refusal (Store × List Event))
    → ((db1 : Store) (evs : List Event)
        → mutate db ≡ ok (db1, evs)
        → MovesLegally db.epics db1.epics)
    → write db mutate ≡ ok db'
    → MovesLegally db.epics db'.epics
unfolding write
write-MovesLegally db db' mutate k e = elim (bind-eq-ok (mutate db) _ db' e) [
  | found (db1, evs) p e1 ↦
      let w : record db1 { events = db1.events ++ evs } ≡ db' = ok-injective e1 in
      subst (λ z. MovesLegally db.epics z.epics) w (k db1 evs p)
]

pub transition-MovesLegally :
    (slug : Text) (target : EpicStatus) (word note : Text) (db db1 : Store) (evs : List Event)
    → transition_in_tx slug target word note db ≡ ok (db1, evs)
    → MovesLegally db.epics db1.epics
unfolding transition_in_tx
transition-MovesLegally slug target word note db db1 evs e =
    elim (bind-eq-ok (update_epic db slug (put_status target note)) _ (db1, evs) e) [
      | found db2 u e1 ↦
          let w : db2 ≡ db1 = ap (λ (x : Store × List Event). x.0) (ok-injective e1) in
          subst (λ z. MovesLegally db.epics z.epics) w
            (update_epic-MovesLegally db db2 slug _ (λ r. refl) u)
    ]

dissolve_each-epics :
    (date slug why : Text) (sids : List Text) (db db' : Store)
    → dissolve_each date slug why sids db ≡ ok db'
    → db'.epics ≡ db.epics
unfolding dissolve_each append_worklog
dissolve_each-epics date slug why [] db db' e = sym (ap Store.epics (ok-injective e))
dissolve_each-epics date slug why (sid ∷ sids) db db' e =
    elim (bind-eq-ok (update_story db.stories slug sid put_dissolved) _ db' e) [
      | found rows _ e1 ↦
          elim (bind-eq-ok
            (append_worklog (record db { stories = rows }) date slug sid dissolved [] [] []
              (codes "auto-dissolved with the epic: " ++ why))
            _ db' e1) [
              | found db1 p e2 ↦
                  let (_, _, kept) = insert_episode-parts (record db { stories = rows }) _ db1 p in
                  dissolve_each-epics date slug why sids db1 db' e2 ∙ kept
            ]
    ]

pub dissolve-MovesLegally :
    (date slug why : Text) (db db1 : Store) (evs : List Event)
    → dissolve_in_tx date slug why db ≡ ok (db1, evs)
    → MovesLegally db.epics db1.epics
unfolding dissolve_in_tx dissolve_stories
dissolve-MovesLegally date slug why db db1 evs e =
    elim (guard-eq-ok (is_empty (dissolve_blockers db slug)) blocked_by _ (db1, evs) e) [
      | found _ _ e1 ↦ elim (bind-eq-ok (dissolve_stories date slug why db) _ (db1, evs) e1) [
        | found db2 p e2 ↦
            elim (bind-eq-ok (update_epic db2 slug (put_status epic_dissolved why)) _ (db1, evs)
              e2) [
                | found db3 u e3 ↦
                    let w : db3 ≡ db1 = ap (λ (x : Store × List Event). x.0) (ok-injective e3) in
                    let kept : db2.epics ≡ db.epics =
                      dissolve_each-epics date slug why _ db db2 p in
                    subst (λ z. MovesLegally db.epics z.epics) w
                      (subst (λ z. MovesLegally z db3.epics) kept
                        (update_epic-MovesLegally db2 db3 slug _ (λ r. refl) u))
              ]
      ]
    ]
