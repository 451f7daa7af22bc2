-- ===== src/Markdown/Tests.antt =====
-- Runs of the theorems on internal/verb/import_mdtable.go at a small table.
use selftracked.Common.{◌≡◌, refl, false, [], ◌∷◌, ◌++◌, ok, All, length}
use selftracked.Common.Int.{pos}
use selftracked.Common.Text.{Text, codes, text_beq, cut_prefix, split}
use selftracked.Common.Words.{space_len}
use selftracked.Markdown.Tables.{
  trim_space, MdTable, flush, sections_from, split_sections, split_row, sep_cell, is_separator_row,
  pipe_lines, data_rows, parse_pipes, parse_table, parse_table-length,
}
use selftracked.Markdown.Rows.{known_columns, cell, zip_from, zip}
use selftracked.Markdown.Corpus.{
  Corpus, empty_corpus, truthy, append_task, append_row, add_cells, absorb_rows, read_sections,
  looks_json, parse_md_table,
}
use selftracked.Markdown.Kinds.{Kind, rows_in}
use selftracked.Markdown.Counts.{written_in}
use selftracked.Markdown.Losses.{AreSections, parse_md_table-rows_in}

abbrev head : Text
head = codes "| title | status |"

abbrev line : Text
line = codes " | new |  OPEN|"

abbrev document : Text
document = codes "## tasks" ++ (10 ∷ head) ++ (10 ∷ codes "|---|:-:|") ++ (10 ∷ line) ++ (10 ∷ [])

abbrev corpus : Corpus
corpus = record empty_corpus {
  tasks =
      record {
        title = codes "new";
        status = codes "OPEN";
        note = [];
        epic = [];
        date = [];
        dup_of = pos 0;
        future_increment = false;
        pointer_note = [];
        owner_steer = [];
      }
      ∷ [];
}

abbrev table : MdTable
table = record {
  cols = codes "title" ∷ codes "status" ∷ [];
  rows = (codes "new" ∷ codes "OPEN" ∷ []) ∷ [];
}

read_table : parse_table (codes "tasks") (head ∷ codes "|---|:-:|" ∷ line ∷ []) ≡ ok table
unfolding parse_table trim_space space_len cut_prefix split split_row sep_cell is_separator_row
    pipe_lines data_rows parse_pipes text_beq
read_table = refl

parse_table-length_example : All (λ r. length r ≡ length table.cols) table.rows
parse_table-length_example =
    parse_table-length (codes "tasks") (head ∷ codes "|---|:-:|" ∷ line ∷ []) table read_table

read_document : parse_md_table document ≡ ok corpus
unfolding parse_md_table parse_table trim_space space_len cut_prefix split split_row sep_cell
    is_separator_row pipe_lines data_rows parse_pipes flush sections_from split_sections text_beq
    known_columns cell zip_from zip truthy append_task append_row add_cells absorb_rows
    read_sections looks_json
read_document = refl

parse_md_table-rows_in_example :
    ((q : Kind) → rows_in q corpus ≡ written_in q (split_sections document))
    × AreSections (split_sections document) []
parse_md_table-rows_in_example = parse_md_table-rows_in document corpus read_document
