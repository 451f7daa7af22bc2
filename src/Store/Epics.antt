-- ===== src/Store/Epics.antt =====
-- internal/schema/ddl.sql: the tables `epics` and `epic_criteria`, with their constraints and triggers.
use selftracked.Common.{
  ℕ, ◌+◌, Bool, true, false, not, ◌&&◌, ◌||◌, List, [], ◌∷◌, ◌++◌, Option, none, some, nat_beq, leb,
  ◌==◌, if◌then◌else◌, Result, ok, ◌>>◌, guard, is_some,
}
use selftracked.Common.Text.{Text, codes, text_eq}
use selftracked.Store.Types.{
  EpicStatus, epic_backlog, epic_active, epic_paused, epic_closed, epic_dissolved, Epic, Criterion,
  Store, Refusal, constraint,
}
use selftracked.Store.Stories.{epic_status}

abbrev pub is_closed : EpicStatus → Bool
is_closed epic_closed = true
is_closed _ = false

abbrev pub same_epic_status : EpicStatus → EpicStatus → Bool
same_epic_status epic_backlog epic_backlog = true
same_epic_status epic_active epic_active = true
same_epic_status epic_paused epic_paused = true
same_epic_status epic_closed epic_closed = true
same_epic_status epic_dissolved epic_dissolved = true
same_epic_status _ _ = false

-- The trigger `epics_transition` lets the move pass.
abbrev pub legal_epic_move : EpicStatus → EpicStatus → Bool
legal_epic_move epic_backlog epic_active = true
legal_epic_move epic_backlog epic_dissolved = true
legal_epic_move epic_active epic_paused = true
legal_epic_move epic_active epic_closed = true
legal_epic_move epic_active epic_dissolved = true
legal_epic_move epic_paused epic_active = true
legal_epic_move epic_paused epic_closed = true
legal_epic_move epic_paused epic_dissolved = true
legal_epic_move a b = same_epic_status a b

-- The row of the primary key.
unfoldable pub find_epic : List Epic → Text → Option Epic
find_epic [] slug = none
find_epic (e ∷ es) slug = if e.slug == slug then some e else find_epic es slug

unfoldable pub replace_epic : List Epic → Text → (Epic → Epic) → List Epic
replace_epic [] slug f = []
replace_epic (e ∷ es) slug f = if e.slug == slug then f e ∷ es else e ∷ replace_epic es slug f

abbrev pub needs_note : EpicStatus → Bool
needs_note epic_paused = true
needs_note epic_dissolved = true
needs_note _ = false

abbrev pub iff : Bool → Bool → Bool
iff true b = b
iff false b = not b

-- The CHECKs of table `epics`.
unfoldable pub epic_checks : Epic → Bool
epic_checks e =
    not (e.goal == [])
    && (iff (not (e.close_sweep == [])) (is_closed e.status)
        && (not (needs_note e.status) || not (e.status_note == [])))

-- The trigger `epics_close_gate` lets the update pass.
unfoldable pub close_gate : Option Text → Epic → Epic → Bool
close_gate (some v) old new =
    not (is_closed new.status || not (new.close_sweep == old.close_sweep))
    || v == codes "epic-close"
close_gate none old new = not (is_closed new.status || not (new.close_sweep == old.close_sweep))

-- `UPDATE epics SET … WHERE slug = ?`; a missing row is none affected. An update that leaves the status and
-- the sweep alone passes the triggers.
unfoldable pub update_epic : Store → Text → (Epic → Epic) → Result Refusal Store
update_epic db slug f = elim (find_epic db.epics slug) [
  | none ↦ ok db
  | some e ↦ do
    guard (legal_epic_move e.status (f e).status) constraint
    guard (close_gate db.active_verb e (f e)) constraint
    guard (epic_checks (f e)) constraint
    ok (record db { epics = replace_epic db.epics slug f })
]

-- `INSERT INTO epics`: the primary key and the CHECKs.
unfoldable pub insert_epic : Store → Epic → Result Refusal Store
insert_epic db e = do
  guard (not (is_some (find_epic db.epics e.slug))) constraint
  guard (epic_checks e) constraint
  ok (record db { epics = db.epics ++ (e ∷ []) })

abbrev pub at_seq : Text → ℕ → Criterion → Bool
at_seq epic seq c = c.epic == epic && nat_beq c.seq seq

unfoldable pub find_criterion : List Criterion → Text → ℕ → Option Criterion
find_criterion [] epic seq = none
find_criterion (c ∷ cs) epic seq = if at_seq epic seq c then some c else find_criterion cs epic seq

unfoldable pub replace_criterion :
    List Criterion → Text → ℕ → (Criterion → Criterion) → List Criterion
replace_criterion [] epic seq f = []
replace_criterion (c ∷ cs) epic seq f =
    if at_seq epic seq c then f c ∷ cs else c ∷ replace_criterion cs epic seq f

-- `COALESCE((SELECT MAX(seq) FROM epic_criteria WHERE epic = ?), 0)`
unfoldable pub max_criterion : List Criterion → Text → ℕ
max_criterion [] epic = 0
max_criterion (c ∷ cs) epic =
    let rest = max_criterion cs epic in
    if c.epic == epic then (if leb rest c.seq then c.seq else rest) else rest

-- The CHECKs of table `epic_criteria`.
unfoldable pub criterion_checks : Criterion → Bool
criterion_checks c = not (c.criterion == []) && (not c.met || not (c.evidence == []))

unfoldable pub update_criterion : Store → Text → ℕ → (Criterion → Criterion) → Result Refusal Store
update_criterion db epic seq f = elim (find_criterion db.criteria epic seq) [
  | none ↦ ok db
  | some c ↦ do
    guard (criterion_checks (f c)) constraint
    ok (record db { criteria = replace_criterion db.criteria epic seq f })
]

-- `INSERT INTO epic_criteria` with the next number of the epic: the foreign key and the CHECKs.
unfoldable pub insert_criterion : Store → Text → Text → Result Refusal Store
insert_criterion db epic criterion = do
  guard (is_some (epic_status db.epics epic)) constraint
  guard (not (criterion == [])) constraint
  ok (record db {
    criteria =
        db.criteria
        ++ (record {
          epic = epic;
          seq = max_criterion db.criteria epic + 1;
          criterion = criterion;
          met = false;
          evidence = [];
        }
            ∷ []);
  })
