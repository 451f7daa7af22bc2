-- ===== src/Epics/Blockers.antt =====
-- internal/verb/close_conditions.go and internal/verb/criteria.go: what keeps an epic from its close, and the run of its
-- criteria. The shell is a parameter.
use selftracked.Common.{
  ℕ, Bool, true, false, not, ◌&&◌, ◌||◌, List, [], ◌∷◌, ◌++◌, any, length, Option, none, some,
  is_some, nat_beq, leb, ltb, ◌==◌, if◌then◌else◌, Result, ok, ◌>>=◌,
}
use selftracked.Common.Text.{Text, codes, text_eq, cut}
use selftracked.Tasks.Edit.{take}
use selftracked.Decimal.{format_nat}
use selftracked.Store.{
  StoryStatus, story_done, story_dissolved, State, done, dissolved, Criterion, Task, Story, Episode,
  Store, Refusal, is_done, is_open_task, update_criterion,
}
use selftracked.Rules.{is_story_id, is_proof}

-- A line of a refusal, by what it names.
pub data Blocker : Type 0 where
  too_few : ℕ → Blocker
  live_story live_episode unproven_story running_story : Text → Blocker
  unattested failing open_task : ℕ → Blocker

-- The rows that a query answers, in the order of the table.
unfoldable pub select : {A B : Type 0} → (A → Bool) → (A → B) → List A → List B
select p f [] = []
select p f (x ∷ xs) = let rest = select p f xs in if p x then f x ∷ rest else rest

abbrev pub is_ended : StoryStatus → Bool
is_ended story_done = true
is_ended story_dissolved = true
is_ended _ = false

abbrev pub is_ended_state : State → Bool
is_ended_state done = true
is_ended_state dissolved = true
is_ended_state _ = false

-- `ORDER BY` on a text or on a number: insertion by the order of the key.
unfoldable pub text_leb : Text → Text → Bool
text_leb [] t = true
text_leb (a ∷ s) [] = false
text_leb (a ∷ s) (b ∷ t) = ltb a b || (nat_beq a b && text_leb s t)

unfoldable pub insert_by : {A : Type 0} → (A → A → Bool) → A → List A → List A
insert_by le x [] = x ∷ []
insert_by le x (y ∷ ys) = let rest = insert_by le x ys in if le x y then x ∷ y ∷ ys else y ∷ rest

unfoldable pub sort_by : {A : Type 0} → (A → A → Bool) → List A → List A
sort_by le [] = []
sort_by le (x ∷ xs) = insert_by le x (sort_by le xs)

unfoldable pub in_epic : Text → Story → Bool
in_epic slug s = s.epic == slug

unfoldable pub is_live : Text → Story → Bool
is_live slug s = s.epic == slug && not (is_ended s.status)

abbrev pub story_id : Story → Text
story_id s = s.id

-- `storyConditions`: the floor of two stories (6), and every story terminal (1).
unfoldable pub story_conditions : List Story → Text → List Blocker
story_conditions stories slug =
    (if ltb (length (select (in_epic slug) story_id stories)) 2
      then too_few (length (select (in_epic slug) story_id stories)) ∷ []
      else [])
    ++ select (λ _. true) live_story (sort_by text_leb (select (is_live slug) story_id stories))

abbrev pub is_original : Text → Text → Episode → Bool
is_original slug story w = (w.epic == slug && w.story == story) && not (is_some w.corrects)

-- `SELECT MAX(seq)` over the original rows of a story.
unfoldable pub last_seq : List Episode → Text → Text → ℕ
last_seq [] slug story = 0
last_seq (w ∷ ws) slug story =
    let rest = last_seq ws slug story in
    if is_original slug story w then (if leb rest w.seq then w.seq else rest) else rest

-- Condition (2): the row is the last original one of its story, and not terminal.
unfoldable pub is_live_end : List Episode → Text → Episode → Bool
is_live_end log slug w =
    (w.epic == slug && not (is_some w.corrects))
    && (is_story_id w.story
        && (nat_beq w.seq (last_seq log w.epic w.story) && not (is_ended_state w.state)))

abbrev pub is_home : Text → Option Text → Bool
is_home slug none = false
is_home slug (some e) = e == slug

-- Condition (4)
unfoldable pub is_homed : Text → Task → Bool
is_homed slug t = is_home slug t.epic && is_open_task t.status

-- Condition (5)
unfoldable pub is_unproven : List Episode → Text → Story → Bool
is_unproven log slug s =
    (s.epic == slug && is_done s.status)
    && not (any (λ w. (w.epic == s.epic && w.story == s.id) && is_proof w) log)

-- `runnableCommand`
unfoldable pub runnable_command : Text → Option Text
runnable_command (a ∷ b ∷ c ∷ s) = if nat_beq a b'$' && nat_beq b b' ' then some (c ∷ s) else none
runnable_command _ = none

-- `firstLine`; a first line of an output of many is not clipped.
unfoldable pub first_line : Text → Text
first_line s = elim (cut s (0x0a ∷ [])) [
  | some (line, _) ↦ line
  | none ↦ if ltb 120 (length s) then take 120 s else s
]

-- `sh -c` of a command: the combined output, and the error if there was one.
abbrev pub Shell : Type 0
Shell = Text → Text × Option Text

-- `executeCriterion`
unfoldable pub execute_criterion : Shell → Text → Bool × Text
execute_criterion sh command =
    let (out, failure) = sh command in
    elim failure [
      | none ↦ (true, command)
      | some e ↦
          (false, command ++ (codes ": " ++ (first_line out ++ (codes " (" ++ (e ++ codes ")")))))
    ]

unfoldable pub evidence_of : Bool × Text → Text → Text
evidence_of (true, detail) now = codes "PASS " ++ (detail ++ (codes " @ " ++ now))
evidence_of (false, detail) now = codes "FAIL " ++ (detail ++ (codes " @ " ++ now))

-- What `runOne` persists.
abbrev pub record_run : Bool → Text → Criterion → Criterion
record_run pass evidence c = record c { met = pass; evidence = evidence }

-- `runOne`: the database, the line of output, and whether the command passed.
unfoldable pub run_one :
    Shell → Text → Text → Bool → ℕ → Text → Store → Result Refusal (Store × Text × Bool)
run_one sh now slug persist seq command db = do
  let run = execute_criterion sh command
  let evidence = evidence_of run now
  db' ← if persist then update_criterion db slug seq (record_run run.0 evidence) else ok db
  ok (db', codes "criterion " ++ (format_nat seq ++ (codes ": " ++ evidence)), run.0)

-- What `runCriteria` returns.
pub record Checked : Type 0 where
  pub store : Store
  pub attested : List Blocker
  pub failed : List Blocker
  pub output : List Text

-- What a criterion of prose adds.
abbrev pub add_prose : Criterion → Checked → Checked
add_prose c r = record r { attested = if c.met then r.attested else unattested c.seq ∷ r.attested }

-- What a command that ran adds.
abbrev pub add_run : ℕ → Text → Bool → Checked → Checked
add_run seq line pass r = record r {
  failed = if pass then r.failed else failing seq ∷ r.failed;
  output = line ∷ r.output;
}

-- The loop of `runCriteria` over the criteria that it has loaded.
unfoldable pub run_loop :
    Shell → Text → Text → Bool → Bool → List Criterion → Store → Result Refusal Checked
run_loop sh now slug persist stopped [] db =
    ok (record { store = db; attested = []; failed = []; output = [] })
run_loop sh now slug persist stopped (c ∷ cs) db = elim (runnable_command c.criterion) [
  | none ↦ do r ← run_loop sh now slug persist stopped cs db; ok (add_prose c r)
  | some command ↦ elim stopped [
    | true ↦ run_loop sh now slug persist true cs db
    | false ↦ do
      (db', line, pass) ← run_one sh now slug persist c.seq command db
      r ← run_loop sh now slug persist (not pass) cs db'
      ok (add_run c.seq line pass r)
  ]
]

unfoldable pub is_criterion_of : Text → Criterion → Bool
is_criterion_of slug c = c.epic == slug

unfoldable pub before : Criterion → Criterion → Bool
before c d = leb c.seq d.seq

abbrev pub itself : Criterion → Criterion
itself c = c

-- `loadCriteria`
unfoldable pub load_criteria : List Criterion → Text → List Criterion
load_criteria cs slug = sort_by before (select (is_criterion_of slug) itself cs)

unfoldable pub run_criteria : Shell → Text → Text → Bool → Store → Result Refusal Checked
run_criteria sh now slug persist db =
    run_loop sh now slug persist false (load_criteria db.criteria slug) db

abbrev pub task_number : Task → Blocker
task_number t = open_task t.id

abbrev pub unproven_of : Story → Blocker
unproven_of s = unproven_story s.id

abbrev pub live_end_of : Episode → Blocker
live_end_of w = live_episode w.story

-- `closeBlockers`: the complete list, with what the run of the criteria has left.
unfoldable pub close_blockers :
    Shell → Text → Text → Store → Result Refusal (List Blocker × Checked)
close_blockers sh now slug db = do
  r ← run_criteria sh now slug true db
  ok (
    story_conditions db.stories slug
        ++ (select (is_live_end db.worklog slug) live_end_of db.worklog
            ++ ((r.attested ++ r.failed)
                ++ (select (is_homed slug) task_number db.tasks
                    ++ select (is_unproven db.worklog slug) unproven_of db.stories))),
    r,
  )
