-- ===== src/Markdown/Corpus.antt =====
-- The corpus of internal/verb/import.go, and how internal/verb/import_mdtable.go fills it.
use selftracked.Common.{
  ℕ, ◌+◌, Bool, true, false, not, ◌&&◌, List, [], ◌∷◌, ◌++◌, nat_beq, leb, is_some, if◌then◌else◌,
  ◌==◌, Result, ok, err, ◌>>=◌, ◌>>◌, guard, or_err, any,
}
use selftracked.Common.Int.{ℤ, pos}
use selftracked.Common.Text.{Text, codes, text_eq, text_beq, cut_prefix}
use selftracked.Decimal.{parse_int}
use selftracked.Markdown.Tables.{
  trim_space, Unreadable, json_object, unknown_section, duplicate_section, bad_dup_of, MdTable,
  Section, split_sections, parse_table,
}
use selftracked.Markdown.Rows.{
  PathRow, EpicRow, StoryRow, TaskRowIn, WorklogRow, known_columns, Cells, cell, zip,
}

pub record Corpus : Type 0 where
  pub paths : List PathRow
  pub epics : List EpicRow
  pub stories : List StoryRow
  pub tasks : List TaskRowIn
  pub worklog : List WorklogRow

abbrev pub empty_corpus : Corpus
empty_corpus = record { paths = []; epics = []; stories = []; tasks = []; worklog = [] }

-- An ASCII letter in lower case.
lower : ℕ → ℕ
lower c = if leb b'A' c && leb c b'Z' then c + 32 else c

-- strings.EqualFold against a word whose letters fold to ASCII only.
fold_eq : Text → Text → Bool
unfolding lower
fold_eq [] [] = true
fold_eq [] (_ ∷ _) = false
fold_eq (_ ∷ _) [] = false
fold_eq (c ∷ s) (d ∷ t) = nat_beq (lower c) d && fold_eq s t

unfoldable pub truthy : Text → Bool
unfolding fold_eq trim_space
truthy s = fold_eq (trim_space s) (codes "true")

pub dup_of_cell : Text → Text → Result Unreadable ℤ
dup_of_cell title [] = ok (pos 0)
dup_of_cell title (c ∷ raw) = or_err (parse_int (c ∷ raw)) (bad_dup_of title)

unfoldable pub append_task : Corpus → Cells → Result Unreadable Corpus
unfolding cell truthy dup_of_cell trim_space
append_task c cells = do
  dup ← dup_of_cell (cell cells (codes "title")) (trim_space (cell cells (codes "dup_of")))
  ok (record c {
    tasks =
        c.tasks
        ++ (record {
          title = cell cells (codes "title");
          status = cell cells (codes "status");
          note = cell cells (codes "note");
          epic = cell cells (codes "epic");
          date = cell cells (codes "date");
          dup_of = dup;
          future_increment = truthy (cell cells (codes "future_increment"));
          pointer_note = cell cells (codes "pointer_note");
          owner_steer = cell cells (codes "owner_steer");
        }
            ∷ []);
  })

abbrev pub append_path : Corpus → Cells → Corpus
append_path c cells = record c {
  paths =
      c.paths
      ++ (record {
        class = cell cells (codes "class");
        scope = cell cells (codes "scope");
        root = cell cells (codes "root");
        ephemeral = truthy (cell cells (codes "ephemeral"));
        note = cell cells (codes "note");
      }
          ∷ []);
}

abbrev pub append_epic : Corpus → Cells → Corpus
append_epic c cells = record c {
  epics =
      c.epics
      ++ (record {
        slug = cell cells (codes "slug");
        goal = cell cells (codes "goal");
        status = cell cells (codes "status");
        status_note = cell cells (codes "status_note");
        close_sweep = cell cells (codes "close_sweep");
        created_at = cell cells (codes "created_at");
        criteria = [];
      }
          ∷ []);
}

abbrev pub append_story : Corpus → Cells → Corpus
append_story c cells = record c {
  stories =
      c.stories
      ++ (record {
        epic = cell cells (codes "epic");
        id = cell cells (codes "id");
        title = cell cells (codes "title");
        status = cell cells (codes "status");
        dod = cell cells (codes "dod");
        consumes = cell cells (codes "consumes");
        produces = cell cells (codes "produces");
      }
          ∷ []);
}

abbrev pub append_worklog_row : Corpus → Cells → Corpus
append_worklog_row c cells = record c {
  worklog =
      c.worklog
      ++ (record {
        epic = cell cells (codes "epic");
        story = cell cells (codes "story");
        state = cell cells (codes "state");
        commits = cell cells (codes "commits");
        gate = cell cells (codes "gate");
        review = cell cells (codes "review");
        date = cell cells (codes "date");
        note = cell cells (codes "note");
        legacy_reason = cell cells (codes "legacy_reason");
        increments = [];
      }
          ∷ []);
}

unfoldable pub append_row : Corpus → Text → Cells → Result Unreadable Corpus
unfolding append_task
append_row c kind cells =
    if kind == codes "paths"
    then ok (append_path c cells)
    else if kind == codes "epics"
    then ok (append_epic c cells)
    else if kind == codes "stories"
    then ok (append_story c cells)
    else if kind == codes "tasks"
    then append_task c cells
    else if kind == codes "worklog"
    then ok (append_worklog_row c cells)
    else err (unknown_section kind)

-- A row without cells adds nothing.
unfoldable pub add_cells : Corpus → Text → Cells → Result Unreadable Corpus
unfolding append_row
add_cells c kind [] = ok c
add_cells c kind (x ∷ cells) = append_row c kind (x ∷ cells)

unfoldable pub absorb_rows : Corpus → Text → List Text → List (List Text) → Result Unreadable Corpus
unfolding zip add_cells
absorb_rows c kind cols [] = ok c
absorb_rows c kind cols (r ∷ rows) = do
  cells ← zip kind cols r
  c1 ← add_cells c kind cells
  absorb_rows c1 kind cols rows

abbrev pub absorb : Corpus → Text → MdTable → Result Unreadable Corpus
absorb c kind t = absorb_rows c kind t.cols t.rows

-- `seen` holds the kinds of the sections before.
unfoldable pub read_sections : List Section → List Text → Corpus → Result Unreadable Corpus
unfolding known_columns parse_table absorb_rows
read_sections [] seen c = ok c
read_sections (sec ∷ secs) seen c = do
  guard (is_some (known_columns sec.kind)) (unknown_section sec.kind)
  guard (not (any (λ k. text_beq k sec.kind) seen)) (duplicate_section sec.kind)
  tbl ← parse_table sec.kind sec.block
  c1 ← absorb c sec.kind tbl
  read_sections secs (sec.kind ∷ seen) c1

unfoldable pub looks_json : Text → Bool
unfolding trim_space
looks_json doc = is_some (cut_prefix (trim_space doc) (codes "{"))

unfoldable pub parse_md_table : Text → Result Unreadable Corpus
unfolding looks_json split_sections read_sections
parse_md_table doc = do
  guard (not (looks_json doc)) json_object
  read_sections (split_sections doc) [] empty_corpus
