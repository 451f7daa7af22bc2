-- ===== src/Rules/Entities.antt =====
-- Rule R8 of internal/rules/rules.go under `unpark` of internal/verb/tasks.go.
use selftracked.Common.{
  ℕ, ◌^◌, ◌≡◌, ◌<◌, refl, sym, ap, ◌∙◌, Bool, List, [], ◌∷◌, ◌++◌, append_assoc, none, Bool-cases,
  inl, inr, Result, ok, err,
}
use selftracked.Common.Text.{Text, codes, text_beq, text_eq}
use selftracked.Ref.{Ref, Invalid, task, epic, story, artifact, parse, task_ref, canonical_entity}
use selftracked.Ref.RoundTrip.{parse-canonical_entity}
use selftracked.Store.{Event, Store, Task, find_task, update_task}
use selftracked.Stories.{write}
use selftracked.Tasks.Lifecycle.{task_id, park_in_tx, unpark, task_event}
use selftracked.Rules.{missing, is_instance_scoped, ref_exists, r8_entity, r8_events, r8}

entity-irrelevant :
    (artifacts : Text → Text → Text → Bool) (db : Store) (more : List Event) (entity : Text)
    (r : Result Invalid Ref)
    → r8_entity artifacts (record db { events = more }) entity r ≡ r8_entity artifacts db entity r
unfolding r8_entity ref_exists
entity-irrelevant artifacts db more entity (err e) = refl
entity-irrelevant artifacts db more entity (ok (task n)) = refl
entity-irrelevant artifacts db more entity (ok (epic slug)) = refl
entity-irrelevant artifacts db more entity (ok (story slug sid)) = refl
entity-irrelevant artifacts db more entity (ok (artifact c s r)) = refl

-- The table `events` itself is no part of what a reference may name.
events-irrelevant :
    (artifacts : Text → Text → Text → Bool) (db : Store) (more evs : List Event)
    → r8_events artifacts (record db { events = more }) evs ≡ r8_events artifacts db evs
unfolding r8_events
events-irrelevant artifacts db more [] = refl
events-irrelevant artifacts db more (ev ∷ evs) =
    rw (events-irrelevant artifacts db more evs)
      (rw (entity-irrelevant artifacts db more ev.entity (parse ev.entity)) refl)

r8_events-append :
    (artifacts : Text → Text → Text → Bool) (db : Store) (evs more : List Event)
    → r8_events artifacts db (evs ++ more)
      ≡ r8_events artifacts db evs ++ r8_events artifacts db more
unfolding r8_events
r8_events-append artifacts db [] more = refl
r8_events-append artifacts db (ev ∷ evs) more = elim (Bool-cases (is_instance_scoped ev.event)) [
  | inl e ↦ rw e (r8_events-append artifacts db evs more)
  | inr e ↦ rw e (
      rw (r8_events-append artifacts db evs more) (
        sym (
          append_assoc (r8_entity artifacts db ev.entity (parse ev.entity))
            (r8_events artifacts db evs) (r8_events artifacts db more))))
]

pub parse-task : (n : ℕ) → 0 < n → n < 2 ^ 63 → parse (task_ref n) ≡ ok (task n)
unfolding canonical_entity
parse-task n p q = parse-canonical_entity (task n) (p, q)

-- The event of a task that is not there.
missing-event :
    (artifacts : Text → Text → Text → Bool) (db : Store) (n : ℕ)
    → 0 < n
    → n < 2 ^ 63
    → find_task db.tasks n ≡ none
    → r8_events artifacts db (task_event n (codes "unpark") [] ∷ []) ≡ missing (task_ref n) ∷ []
unfolding r8_events r8_entity ref_exists task_event is_instance_scoped text_beq
missing-event artifacts db n p q h = rw (parse-task n p q) (rw h refl)

unpark-done :
    (stamp : Text) (db : Store) (n : ℕ)
    → 0 < n
    → n < 2 ^ 63
    → find_task db.tasks n ≡ none
    → unpark stamp (task_ref n) db
      ≡ ok (record db { events = db.events ++ (task_event n (codes "unpark") [] ∷ []) })
unfolding unpark task_id write park_in_tx
unpark-done stamp db n p q h =
    let f : Task → Task = λ t. record t { parked = []; updated_at = stamp } in
    let same : update_task db n f ≡ ok db = unfold update_task in rw (h, update_task) refl in
    rw (parse-task n p q) (rw same refl)

-- An unpark of a task that is not there succeeds, and after it rule R8 reports one more violation
-- than before, the event that names the task.
pub unpark-missing :
    (artifacts : Text → Text → Text → Bool) (stamp : Text) (db : Store) (n : ℕ)
    → 0 < n
    → n < 2 ^ 63
    → find_task db.tasks n ≡ none
    → (db' : Store) × (unpark stamp (task_ref n) db ≡ ok db')
      × (r8 artifacts db' ≡ r8 artifacts db ++ (missing (task_ref n) ∷ []))
unfolding r8
unpark-missing artifacts stamp db n p q h =
    let ev = task_event n (codes "unpark") [] in
    (
      record db { events = db.events ++ (ev ∷ []) },
      unpark-done stamp db n p q h,
      events-irrelevant artifacts db (db.events ++ (ev ∷ [])) (db.events ++ (ev ∷ []))
          ∙ (r8_events-append artifacts db db.events (ev ∷ [])
              ∙ ap (λ vs. r8_events artifacts db db.events ++ vs)
                  (missing-event artifacts db n p q h)),
    )
