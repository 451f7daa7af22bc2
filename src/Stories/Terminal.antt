-- ===== src/Stories/Terminal.antt =====
-- The guard of internal/verb/terminal_epic.go in front of every verb of internal/verb/stories.go.
use selftracked.Common.{
  ◌≡◌, refl, Bool, true, false, not, ◌&&◌, ◌||◌, List, [], ◌∷◌, some, ◌==◌, Result, ok, found,
  bind-eq-ok, or_err-eq-ok, guard-eq-ok, guard, ◌>>◌, ◌>>=◌,
}
use selftracked.Common.Text.{Text, text_eq}
use selftracked.Store.{EpicStatus, Event, Store, Refusal, terminal, usage, epic_status}
use selftracked.Stories.{
  write, move_story, add_in_tx, start_in_tx, refuse_terminal_epic_except, refuse_terminal_epic,
  epic_closed_by_verb, is_terminal, Move, story_add, story_ready_verb, story_start, story_block,
  story_unblock, story_done_verb, story_dissolve, validate_text, validate_texts,
}
use selftracked.Store.{is_closed}
use selftracked.Stories.Commands.{Command, add, ready, start, block, unblock, dissolve, finish, run}

-- The epic that a command names, and whether it may repair a closed one.
abbrev pub epic_of : Command → Text
epic_of (add slug _) = slug
epic_of (ready slug _) = slug
epic_of (start slug _) = slug
epic_of (block slug _ _) = slug
epic_of (unblock slug _ _) = slug
epic_of (dissolve slug _ _) = slug
epic_of (finish slug _ _ _ _) = slug

abbrev pub is_dissolve : Command → Bool
is_dissolve (dissolve _ _ _) = true
is_dissolve _ = false

-- The epic is there, and if it is terminal then it is closed, by the verb, and the command is a repair.
pub record IsOpen (db : Store) (slug : Text) (repair : Bool) : Type 0 where
  pub status : EpicStatus
  pub there : epic_status db.epics slug ≡ some status
  pub repaired :
      is_terminal status ≡ true
      → (repair ≡ true) × (is_closed status ≡ true) × (epic_closed_by_verb db slug ≡ true)

passed :
    (t r c v : Bool)
    → guard (not t || (r && c && v)) terminal ≡ ok tt
    → t ≡ true
    → (r ≡ true) × (c ≡ true) × (v ≡ true)
passed false r c v e h = cc
passed true true true true e h = (refl, refl, refl)
passed true false c v e h = cc
passed true true false v e h = cc
passed true true true false e h = cc

guard-IsOpen :
    (db : Store) (slug : Text) (repair : Bool)
    → refuse_terminal_epic_except db slug repair ≡ ok tt
    → IsOpen db slug repair
unfolding refuse_terminal_epic_except
guard-IsOpen db slug repair e = elim (or_err-eq-ok (epic_status db.epics slug) _ _ tt e) [
  | found st p e1 ↦ record {
    status = st;
    there = p;
    repaired =
        λ t. passed (is_terminal st) repair (is_closed st) (epic_closed_by_verb db slug) e1 t;
  }
]

first_guard :
    {A : Type 0} (db : Store) (slug : Text) (repair : Bool) (k : Unit {0} → Result Refusal A)
    (a : A)
    → (refuse_terminal_epic_except db slug repair >>= k) ≡ ok a
    → IsOpen db slug repair
first_guard db slug repair k a e =
    elim (bind-eq-ok (refuse_terminal_epic_except db slug repair) k a e) [
      | found _ p _ ↦ guard-IsOpen db slug repair p
    ]

write-IsOpen :
    (db db' : Store) (slug : Text) (repair : Bool)
    (mutate : Store → Result Refusal (Store × List Event))
    → ((r : Store × List Event) → mutate db ≡ ok r → IsOpen db slug repair)
    → write db mutate ≡ ok db'
    → IsOpen db slug repair
unfolding write
write-IsOpen db db' slug repair mutate h e = elim (bind-eq-ok (mutate db) _ db' e) [
  | found r p _ ↦ h r p
]

moves-IsOpen :
    (date slug sid : Text) (m : Move) (db db' : Store)
    → write db (move_story date slug sid m) ≡ ok db'
    → IsOpen db slug m.closed_epic_repair
unfolding move_story
moves-IsOpen date slug sid m db db' e =
    write-IsOpen db db' slug m.closed_epic_repair (move_story date slug sid m)
      (λ r p. first_guard db slug m.closed_epic_repair _ r p) e

-- A verb behind the check of a text that must be given.
checked-IsOpen :
    (db db' : Store) (slug t : Text) (repair : Bool) (k : Result Refusal Store)
    → (guard (not (t == [])) usage >> (validate_text t >> k)) ≡ ok db'
    → (k ≡ ok db' → IsOpen db slug repair)
    → IsOpen db slug repair
checked-IsOpen db db' slug t repair k e h = elim (guard-eq-ok (not (t == [])) usage _ db' e) [
  | found _ _ e1 ↦ elim (bind-eq-ok (validate_text t) _ db' e1) [ found _ _ e2 ↦ h e2 ]
]

-- A verb on stories succeeds only if the epic that it names is there and is neither CLOSED nor
-- DISSOLVED, or if the verb is `story dissolve` and the epic is CLOSED and has an event of its
-- close by the verb.
pub run-IsOpen :
    (date : Text) (c : Command) (db db' : Store)
    → run date c db ≡ ok db'
    → IsOpen db (epic_of c) (is_dissolve c)
unfolding run add_in_tx start_in_tx refuse_terminal_epic story_add story_ready_verb story_start
    story_block story_unblock story_done_verb story_dissolve
run-IsOpen date (add slug title) db db' e = checked-IsOpen db db' slug title false _ e (λ e1.
    write-IsOpen db db' slug false (add_in_tx slug title) (λ r p. first_guard db slug false _ r p)
      e1)
run-IsOpen date (ready slug sid) db db' e = moves-IsOpen date slug sid _ db db' e
run-IsOpen date (start slug sid) db db' e =
    write-IsOpen db db' slug false (start_in_tx date slug sid)
      (λ r p. first_guard db slug false _ r p) e
run-IsOpen date (block slug sid reason) db db' e =
    checked-IsOpen db db' slug reason false _ e (λ e1. moves-IsOpen date slug sid _ db db' e1)
run-IsOpen date (unblock slug sid resolution) db db' e =
    checked-IsOpen db db' slug resolution false _ e (λ e1. moves-IsOpen date slug sid _ db db' e1)
run-IsOpen date (dissolve slug sid why) db db' e =
    checked-IsOpen db db' slug why true _ e (λ e1. moves-IsOpen date slug sid _ db db' e1)
run-IsOpen date (finish slug sid commits gate review) db db' e =
    elim (guard-eq-ok (not (commits == [] || gate == [])) usage _ db' e) [
      | found _ _ e1 ↦ elim (bind-eq-ok (validate_texts (commits ∷ gate ∷ review ∷ [])) _ db' e1) [
        | found _ _ e2 ↦ moves-IsOpen date slug sid _ db db' e2
      ]
    ]
