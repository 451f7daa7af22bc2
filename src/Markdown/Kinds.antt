-- ===== src/Markdown/Kinds.antt =====
-- The kinds of rows in a corpus, and which of them a row in internal/verb/import_mdtable.go is filed under.
use selftracked.Common.{
  ℕ, ◌+◌, ◌≡◌, refl, sym, subst, ◌++◌, Bool, true, false, [], ◌∷◌, if◌then◌else◌, ◌==◌, Result, ok,
  found, bind-eq-ok, ok-injective, length, length-append, arith,
}
use selftracked.Common.Text.{Text, codes, text_eq, text_beq, text_beq_iff}
use selftracked.Markdown.Tables.{Unreadable, trim_space}
use selftracked.Markdown.Rows.{TaskRowIn, Cells, cell}
use selftracked.Markdown.Corpus.{
  Corpus, append_task, dup_of_cell, append_path, append_epic, append_story, append_worklog_row,
  append_row,
}

-- The five kinds of rows, by the header of their section.
pub data Kind : Type 0 where
  paths epics stories tasks worklog : Kind

abbrev pub header_of : Kind → Text
header_of paths = codes "paths"
header_of epics = codes "epics"
header_of stories = codes "stories"
header_of tasks = codes "tasks"
header_of worklog = codes "worklog"

-- How many rows of a kind a corpus has.
abbrev pub rows_in : Kind → Corpus → ℕ
rows_in paths c = length c.paths
rows_in epics c = length c.epics
rows_in stories c = length c.stories
rows_in tasks c = length c.tasks
rows_in worklog c = length c.worklog

-- What a section adds to the rows of a kind.
abbrev pub share : Bool → ℕ → ℕ
share true n = n
share false n = 0

pub share-add : (mine : Bool) (m n : ℕ) → share mine (m + n) ≡ share mine m + share mine n
share-add true m n = refl
share-add false m n = omega arith

pub share_none : (mine : Bool) → share mine 0 ≡ 0
share_none true = refl
share_none false = refl

-- A result that came out of a test came out of one of its branches.
either :
    {P : Type 0} (b : Bool) (x y : Result Unreadable Corpus) (c : Corpus)
    → (if b then x else y) ≡ ok c
    → (b ≡ true → x ≡ ok c → P)
    → (y ≡ ok c → P)
    → P
either true x y c e f g = f refl e
either false x y c e f g = g e

module _ (c : Corpus) (cells : Cells) where
  -- One row more of the kind, and no other.
  abbrev pub Grows : Text → Corpus → Type 0
  Grows kind c' = (q : Kind) → rows_in q c' ≡ rows_in q c + share (header_of q == kind) 1

  append_path-Grows : Grows (codes "paths") (append_path c cells)
  unfolding text_beq
  append_path-Grows paths = length-append c.paths _
  append_path-Grows epics = omega arith
  append_path-Grows stories = omega arith
  append_path-Grows tasks = omega arith
  append_path-Grows worklog = omega arith

  append_epic-Grows : Grows (codes "epics") (append_epic c cells)
  unfolding text_beq
  append_epic-Grows paths = omega arith
  append_epic-Grows epics = length-append c.epics _
  append_epic-Grows stories = omega arith
  append_epic-Grows tasks = omega arith
  append_epic-Grows worklog = omega arith

  append_story-Grows : Grows (codes "stories") (append_story c cells)
  unfolding text_beq
  append_story-Grows paths = omega arith
  append_story-Grows epics = omega arith
  append_story-Grows stories = length-append c.stories _
  append_story-Grows tasks = omega arith
  append_story-Grows worklog = omega arith

  append_worklog_row-Grows : Grows (codes "worklog") (append_worklog_row c cells)
  unfolding text_beq
  append_worklog_row-Grows paths = omega arith
  append_worklog_row-Grows epics = omega arith
  append_worklog_row-Grows stories = omega arith
  append_worklog_row-Grows tasks = omega arith
  append_worklog_row-Grows worklog = length-append c.worklog _

  put_task-Grows :
      (row : TaskRowIn) → Grows (codes "tasks") (record c { tasks = c.tasks ++ (row ∷ []) })
  unfolding text_beq
  put_task-Grows row paths = omega arith
  put_task-Grows row epics = omega arith
  put_task-Grows row stories = omega arith
  put_task-Grows row tasks = length-append c.tasks _
  put_task-Grows row worklog = omega arith

  append_task-Grows : (c' : Corpus) → append_task c cells ≡ ok c' → Grows (codes "tasks") c'
  unfolding append_task
  append_task-Grows c' e =
      let raw = trim_space (cell cells (codes "dup_of")) in
      elim (bind-eq-ok (dup_of_cell (cell cells (codes "title")) raw) _ c' e) [
        | found dup _ e1 ↦ subst (Grows (codes "tasks")) (ok-injective e1) (put_task-Grows _)
      ]

  -- A row that the section's kind takes.
  appended :
      (kind name : Text) (c1 c' : Corpus)
      → Grows name c1
      → (kind == name) ≡ true
      → ◌≡◌ {A = Result Unreadable Corpus} (ok c1) (ok c')
      → Grows kind c'
  appended kind name c1 c' h k e =
      subst (Grows kind) (ok-injective e)
        (subst (λ z. Grows z c1) (sym ((text_beq_iff kind name).0 k)) h)

  pub append_row-Grows :
      (kind : Text) (c' : Corpus) → append_row c kind cells ≡ ok c' → Grows kind c'
  unfolding append_row
  append_row-Grows kind c' e =
      either (kind == codes "paths") _ _ c' e (appended kind _ _ c' append_path-Grows) (λ e1.
        either (kind == codes "epics") _ _ c' e1 (appended kind _ _ c' append_epic-Grows) (λ e2.
          either (kind == codes "stories") _ _ c' e2 (appended kind _ _ c' append_story-Grows)
            (λ e3.
              either (kind == codes "tasks") _ _ c' e3
                (λ k x.
                  subst (λ z. Grows z c') (sym ((text_beq_iff kind (codes "tasks")).0 k))
                    (append_task-Grows c' x))
                (λ e4.
                  either (kind == codes "worklog") _ _ c' e4
                    (appended kind _ _ c' append_worklog_row-Grows) (λ e5. cc)))))
