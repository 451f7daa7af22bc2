-- ===== src/Relations.antt =====
-- internal/verb/relations.go: `rel add` with its walk for cycles, `rel rm`, and the order of `log`.
pub mod Walk
pub mod Cycles
mod Tests
use selftracked.Common.{
  ℕ, zero, suc, ◌+◌, Bool, true, false, not, ◌&&◌, ◌||◌, List, [], ◌∷◌, ◌++◌, any, length, Option,
  none, some, nat_beq, ◌==◌, if◌then◌else◌, Result, ok, err, ◌>>=◌, ◌>>◌, guard,
}
use selftracked.Common.Text.{Text, codes, text_eq}
use selftracked.Ref.{task_ref}
use selftracked.Store.{
  TaskStatus, status_duplicate, status_label, LinkType, rel_depends, rel_relates, rel_supersedes,
  rel_duplicates, Task, Link, Event, Store, Refusal, usage, not_found, bad_target, cycle,
  same_task_status, same_link_type, is_link, insert_link, drop_links,
}
use selftracked.Stories.{validate_text, write}
use selftracked.Tasks.Lifecycle.{task_id, scan_task, task_event}

-- `relType`; the flag `forAdd` changes the message only.
unfoldable pub rel_type : Text → Result Refusal LinkType
rel_type token =
    if token == codes "depends"
    then ok rel_depends
    else if token == codes "relates"
    then ok rel_relates
    else if token == codes "supersedes"
    then ok rel_supersedes
    else err usage

unfoldable pub type_text : LinkType → Text
type_text rel_depends = codes "depends"
type_text rel_relates = codes "relates"
type_text rel_supersedes = codes "supersedes"
type_text rel_duplicates = codes "duplicates"

-- `outEdges`
unfoldable pub out_edges : List Link → LinkType → ℕ → List ℕ
out_edges [] type cur = []
out_edges (l ∷ ls) type cur =
    let rest = out_edges ls type cur in
    if nat_beq l.from_task cur && same_link_type l.type type then l.to_task ∷ rest else rest

abbrev pub member : ℕ → List ℕ → Bool
member n ns = any (λ m. nat_beq m n) ns

-- `seen` and `frontier` behind one turn of the loop that does not return.
unfoldable pub visit : List Link → LinkType → ℕ → List ℕ → List ℕ → List ℕ × List ℕ
visit links type cur seen rest =
    if member cur seen then (seen, rest) else (cur ∷ seen, rest ++ out_edges links type cur)

-- The loop of `wouldCycle`, on fuel; `none` is fuel that ran out.
unfoldable pub walk : ℕ → List Link → LinkType → ℕ → List ℕ → List ℕ → Option Bool
walk zero links type from seen frontier = none
walk (suc n) links type from seen [] = some false
walk (suc n) links type from seen (cur ∷ rest) =
    let (seen', frontier') = visit links type cur seen rest in
    let next = walk n links type from seen' frontier' in
    if nat_beq cur from then some true else next

-- A walk without an answer counts as one that found a cycle.
abbrev pub found_cycle : Option Bool → Bool
found_cycle none = true
found_cycle (some b) = b

unfoldable pub would_cycle : List Link → LinkType → ℕ → ℕ → Bool
would_cycle links type from to = found_cycle (walk (length links + 2) links type from [] (to ∷ []))

-- LABEL or DUPLICATE.
abbrev pub is_no_target : TaskStatus → Bool
is_no_target status_label = true
is_no_target status_duplicate = true
is_no_target _ = false

abbrev pub is_relates : LinkType → Bool
is_relates type = same_link_type type rel_relates

unfoldable pub rel_add_checks : Store → ℕ → LinkType → ℕ → Result Refusal (Unit {0})
rel_add_checks db from type to = do
  target ← scan_task db to
  source ← scan_task db from
  guard (is_relates type || not (is_no_target target.status)) bad_target
  guard (is_relates type || not (would_cycle db.links type from to)) cycle

abbrev pub with_note : Text → Text → Text
with_note detail [] = detail
with_note detail (c ∷ s) = detail ++ (codes ": " ++ (c ∷ s))

unfoldable pub rel_add_in_tx : ℕ → LinkType → ℕ → Text → Store → Result Refusal (Store × List Event)
rel_add_in_tx from type to note db = do
  rel_add_checks db from type to
  db' ← insert_link db (record { from_task = from; to_task = to; type = type; note = note })
  ok (
    db',
    task_event from (codes "rel")
          (with_note (codes "add " ++ (type_text type ++ (b' ' ∷ task_ref to))) note)
        ∷ [],
  )

unfoldable pub rel_add : Text → Text → Text → Text → Store → Result Refusal Store
rel_add from type to note db = do
  f ← task_id from
  t ← rel_type type
  d ← task_id to
  validate_text note
  write db (rel_add_in_tx f t d note)

-- The mutation of `relRM`; that a row was affected is that there was one.
unfoldable pub rel_rm_in_tx : ℕ → LinkType → ℕ → Store → Result Refusal (Store × List Event)
rel_rm_in_tx from type to db = do
  guard (any (is_link from to type) db.links) not_found
  ok (
    record db { links = drop_links (is_link from to type) db.links },
    task_event from (codes "rel") (codes "rm " ++ (type_text type ++ (b' ' ∷ task_ref to))) ∷ [],
  )

unfoldable pub rel_rm : Text → Text → Text → Store → Result Refusal Store
rel_rm from type to db = do
  f ← task_id from
  t ← rel_type type
  d ← task_id to
  write db (rel_rm_in_tx f t d)
