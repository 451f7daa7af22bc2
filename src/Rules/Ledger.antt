-- ===== src/Rules/Ledger.antt =====
-- Rule R6 of internal/rules/rules.go under the verbs of internal/verb/stories.go.
use mathlib.Core.List.{cons-ne-nil}
use selftracked.Common.{
  ◌≡◌, ◌≢◌, refl, sym, subst, ◌∙◌, Bool, true, false, not, ◌&&◌, if◌then◌else◌, List, [], ◌∷◌, ◌++◌,
  any, All, All-append, some, ok, arith,
}
use selftracked.Common.Text.{Text, text_eq, text_beq, text_beq_iff}
use selftracked.Store.{
  Story, Episode, Store, StoryStatus, story_planned, is_done, is_done_state, find_story,
  replace_story,
}
use selftracked.Stories.Rows.{
  any-append, find_story-key, any-replaced, any-replace_story, All-map, All-replace_story,
}
use selftracked.Stories.Effects.{
  Logged, silent, episode, IsNext, Keeps, Effect, moved, added, update_story-parts,
}
use selftracked.Stories.Commands.{Command, run, run-Effect}
use selftracked.Rules.{Violation, is_proof, proves, houses, is_story_id, r6_stories, r6_rows, r6}

-- A DONE story has its proof in the ledger.
abbrev Proven : List Episode → Story → Type 0
Proven log s = is_done s.status ≡ true → any (proves s) log ≡ true

-- The story of a proof is DONE.
abbrev Housed : List Story → Episode → Type 0
Housed stories w = is_proof w && is_story_id w.story ≡ true → any (houses w) stories ≡ true

-- A list with one report more in front, where the first test holds and the second does not.
reported : Bool → Bool → Violation → List Violation → List Violation
reported a b v rest = if a && not b then v ∷ rest else rest

reported-nil :
    (a b : Bool) (v : Violation) (rest : List Violation)
    → reported a b v rest ≡ []
    → (a ≡ true → b ≡ true) × (rest ≡ [])
unfolding reported
reported-nil true true v rest h = (λ _. refl, h)
reported-nil true false v rest h = absurd (cons-ne-nil _ _ h)
reported-nil false b v rest h = ((λ z. cc), h)

nil-reported :
    (a b : Bool) (v : Violation) (rest : List Violation)
    → (a ≡ true → b ≡ true)
    → rest ≡ []
    → reported a b v rest ≡ []
unfolding reported
nil-reported true true v rest p h = h
nil-reported true false v rest p h = let q = p refl in cc
nil-reported false b v rest p h = h

r6_stories-All :
    (log : List Episode) (ss : List Story) → r6_stories log ss ≡ [] → All (Proven log) ss
unfolding r6_stories reported
r6_stories-All log [] h = tt
r6_stories-All log (s ∷ ss) h =
    let (p, q) = reported-nil (is_done s.status) (any (proves s) log) _ (r6_stories log ss) h in
    (p, r6_stories-All log ss q)

r6_stories-nil :
    (log : List Episode) (ss : List Story) → All (Proven log) ss → r6_stories log ss ≡ []
unfolding r6_stories reported
r6_stories-nil log [] h = refl
r6_stories-nil log (s ∷ ss) (p, h) =
    nil-reported (is_done s.status) (any (proves s) log) _ (r6_stories log ss) p
      (r6_stories-nil log ss h)

r6_rows-All : (ss : List Story) (ws : List Episode) → r6_rows ss ws ≡ [] → All (Housed ss) ws
unfolding r6_rows reported
r6_rows-All ss [] h = tt
r6_rows-All ss (w ∷ ws) h =
    let (p, q) =
      reported-nil (is_proof w && is_story_id w.story) (any (houses w) ss) _ (r6_rows ss ws) h in
    (p, r6_rows-All ss ws q)

r6_rows-nil : (ss : List Story) (ws : List Episode) → All (Housed ss) ws → r6_rows ss ws ≡ []
unfolding r6_rows reported
r6_rows-nil ss [] h = refl
r6_rows-nil ss (w ∷ ws) (p, h) =
    nil-reported (is_proof w && is_story_id w.story) (any (houses w) ss) _ (r6_rows ss ws) p
      (r6_rows-nil ss ws h)

pub append_eq_nil : (xs ys : List Violation) → xs ++ ys ≡ [] → (xs ≡ []) × (ys ≡ [])
append_eq_nil [] ys h = (refl, h)
append_eq_nil (x ∷ xs) ys h = absurd (cons-ne-nil _ _ h)

-- Both halves of the rule, as predicates.
abbrev Clean : List Story → List Episode → Type 0
Clean ss log = All (Proven log) ss × All (Housed ss) log

r6-Clean : (db : Store) → r6 db ≡ [] → Clean db.stories db.worklog
unfolding r6
r6-Clean db h =
    let (p, q) =
      append_eq_nil (r6_stories db.worklog db.stories) (r6_rows db.stories db.worklog) h in
    (r6_stories-All db.worklog db.stories p, r6_rows-All db.stories db.worklog q)

Clean-r6 : (db : Store) → Clean db.stories db.worklog → r6 db ≡ []
unfolding r6
Clean-r6 db (p, q) =
    rw (r6_stories-nil db.worklog db.stories p) (r6_rows-nil db.stories db.worklog q)

and-false : (b : Bool) → b && false ≡ false
and-false true = refl
and-false false = refl

and-left : (a b : Bool) → a && b ≡ true → a ≡ true
and-left true b h = refl
and-left false b h = cc

given : (s : Text) → s ≢ [] → text_beq s [] ≡ false
unfolding text_beq
given [] h = absurd (h refl)
given (c ∷ s) h = refl

-- An episode that is the proof of the story that was moved.
proves-next :
    (log : List Episode) (slug sid : Text) (t : Story) (w : Episode)
    → t.epic ≡ slug
    → t.id ≡ sid
    → IsNext log slug sid t.status w
    → is_done t.status ≡ true
    → proves t w ≡ true
unfolding proves is_proof
proves-next log slug sid t w p q n d =
    let a : text_beq w.epic t.epic ≡ true = (text_beq_iff w.epic t.epic).1 (n.epic_eq ∙ sym p) in
    let b : text_beq w.story t.id ≡ true = (text_beq_iff w.story t.id).1 (n.story_eq ∙ sym q) in
    let c : is_done_state w.state ≡ true = n.agrees ∙ d in
    rw (a, b, c, given w.commits (n.proven d), n.original) refl

-- A moved story that is done has its proof in the new ledger.
Proven-moved :
    (old log : List Episode) (slug sid : Text) (t : Story)
    → t.epic ≡ slug
    → t.id ≡ sid
    → Logged old slug sid t.status log
    → Proven log t
Proven-moved old log slug sid t p q (silent e n) d = cc
Proven-moved old log slug sid t p q (episode w e n) d = rw e (
    any-append (proves t) old (w ∷ [])
    ∙ (let k = proves-next old slug sid t w p q n d in ground arith))

Proven-grown :
    (old log : List Episode) (slug sid : Text) (now : StoryStatus) (r : Story)
    → Logged old slug sid now log
    → Proven old r
    → Proven log r
Proven-grown old log slug sid now r (silent e n) h d = rw e (h d)
Proven-grown old log slug sid now r (episode w e n) h d =
    rw e (any-append (proves r) old (w ∷ []) ∙ (let k = h d in ground arith))

houses-next :
    (log : List Episode) (slug sid : Text) (t : Story) (w : Episode)
    → t.epic ≡ slug
    → t.id ≡ sid
    → IsNext log slug sid t.status w
    → is_proof w ≡ true
    → houses w t ≡ true
unfolding houses is_proof
houses-next log slug sid t w p q n d =
    let a : text_beq t.epic w.epic ≡ true = (text_beq_iff t.epic w.epic).1 (p ∙ sym n.epic_eq) in
    let b : text_beq t.id w.story ≡ true = (text_beq_iff t.id w.story).1 (q ∙ sym n.story_eq) in
    let c : is_done_state w.state ≡ true = ground arith in rw (a, b) (sym n.agrees ∙ c)

-- The houses of a proof, with a story that was not done replaced or a new one behind.
Housed-moved :
    (rows : List Story) (slug sid : Text) (f : Story → Story) (s : Story) (w : Episode)
    → find_story rows slug sid ≡ some s
    → is_done s.status ≡ false
    → Housed rows w
    → Housed (replace_story rows slug sid f) w
Housed-moved rows slug sid f s w hit undone h d =
    let off : houses w s ≡ false = unfold houses in rw undone (and-false _) in
    any-replace_story (houses w) rows slug sid f s hit off (h d)

module _ (rows : List Story) (old log : List Episode) (slug sid : Text) (f : Story → Story)
    (s : Story) (hit : find_story rows slug sid ≡ some s) (undone : is_done s.status ≡ false)
    (kept : Keeps f) (logged : Logged old slug sid (f s).status log) where
  epic_of : (f s).epic ≡ slug
  epic_of = kept.epic_kept s ∙ (find_story-key rows slug sid s hit).0

  id_of : (f s).id ≡ sid
  id_of = kept.id_kept s ∙ (find_story-key rows slug sid s hit).1

  Housed-log : All (Housed rows) old → All (Housed (replace_story rows slug sid f)) log
  Housed-log hs =
      let olds : All (Housed (replace_story rows slug sid f)) old =
        All-map (Housed rows) (Housed (replace_story rows slug sid f))
          (λ w h. Housed-moved rows slug sid f s w hit undone h) old hs in
      elim logged [
        | silent e n ↦ rw e olds
        | episode w e n ↦ rw e (
            All-append (Housed (replace_story rows slug sid f)) old (w ∷ []) olds (
              (λ d. any-replaced (houses w) rows slug sid f s hit (
                  houses-next old slug sid (f s) w epic_of id_of n
                    (and-left (is_proof w) (is_story_id w.story) d))),
              tt,
            ))
      ]

  Clean-moved : Clean rows old → Clean (replace_story rows slug sid f) log
  Clean-moved (ps, hs) = (
    All-replace_story (Proven old) (Proven log) rows slug sid f s hit
        (λ r h. Proven-grown old log slug sid (f s).status r logged h)
        (Proven-moved old log slug sid (f s) epic_of id_of logged) ps,
    Housed-log hs,
  )

Clean-added :
    (rows : List Story) (log : List Episode) (s : Story)
    → s.status ≡ story_planned
    → Clean rows log
    → Clean (rows ++ (s ∷ [])) log
Clean-added rows log s st (ps, hs) = (
  All-append (Proven log) rows (s ∷ []) ps
      ((λ d. let k : is_done s.status ≡ false = rw st refl in cc), tt),
  All-map (Housed rows) (Housed (rows ++ (s ∷ [])))
      (λ w h d. any-append (houses w) rows (s ∷ []) ∙ (let k = h d in ground arith)) log hs,
)

-- A verb that succeeds leaves the rule without a report.
Clean-Effect :
    (db db' : Store) → Effect db db' → Clean db.stories db.worklog → Clean db'.stories db'.worklog
Clean-Effect db db' (moved slug sid s f hit undone kept to log) c =
    let parts = update_story-parts db.stories slug sid f s db'.stories hit to in
    subst (λ z. Clean z db'.worklog) (sym parts.replaced)
      (Clean-moved db.stories db.worklog db'.worklog slug sid f s hit undone kept log c)
Clean-Effect db db' (added s st to log) c = rw (to, log) (Clean-added db.stories db.worklog s st c)

-- If rule R6 reports nothing of a database, it reports nothing after any verb on stories that
-- succeeds there: a story is DONE just when an original DONE episode with commits says so.
pub r6-run :
    (date : Text) (c : Command) (db db' : Store) → r6 db ≡ [] → run date c db ≡ ok db' → r6 db' ≡ []
r6-run date c db db' h e =
    Clean-r6 db' (Clean-Effect db db' (run-Effect date c db db' e) (r6-Clean db h))
