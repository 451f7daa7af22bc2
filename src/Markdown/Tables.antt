-- ===== src/Markdown/Tables.antt =====
-- The sections of internal/verb/import_mdtable.go and the table in each.
use selftracked.Common.{
  ℕ, zero, suc, ◌≡◌, Bool, true, false, ◌&&◌, List, [], ◌∷◌, ◌++◌, map, none, some, nat_beq,
  nat_beq_iff, is_some, if◌then◌else◌, ◌==◌, Result, ok, err, found, ◌>>=◌, ◌>>◌, guard, bind-eq-ok,
  guard-eq-ok, ok-injective, length, All, subst,
}
use selftracked.Common.Text.{Text, codes, text_eq, cut_prefix, split}
use selftracked.Common.Words.{space_len}

-- `k` is how many bytes of the space at hand are left.
blank_from : Text → ℕ → Bool
unfolding space_len
blank_from [] k = true
blank_from (c ∷ s) (suc k) = blank_from s k
blank_from (c ∷ s) zero = elim (space_len (c ∷ s)) [ zero ↦ false | suc k ↦ blank_from s k ]

left_from : Text → ℕ → Text
unfolding space_len
left_from [] k = []
left_from (c ∷ s) (suc k) = left_from s k
left_from (c ∷ s) zero = elim (space_len (c ∷ s)) [ zero ↦ c ∷ s | suc k ↦ left_from s k ]

-- A text without the spaces at its end.
trim_right : Text → Text
unfolding blank_from
trim_right [] = []
trim_right (c ∷ s) = let rest = trim_right s in if blank_from (c ∷ s) zero then [] else c ∷ rest

-- strings.TrimSpace
unfoldable pub trim_space : Text → Text
unfolding left_from trim_right
trim_space s = trim_right (left_from s zero)

-- The refusals, by what the message says.
pub data Unreadable : Type 0 where
  json_object : Unreadable
  unknown_section duplicate_section no_separator bad_separator bad_row unknown_column :
      Text → Unreadable
  bad_dup_of : Text → Unreadable

pub record MdTable : Type 0 where
  pub cols : List Text
  pub rows : List (List Text)

pub record Section : Type 0 where
  pub kind : Text
  pub block : List Text

-- A section ends where the next one begins; lines before the first header belong to none.
unfoldable pub flush : Text → List Text → List Section
flush [] block = []
flush (c ∷ kind) block = record { kind = c ∷ kind; block = block } ∷ []

unfoldable pub sections_from : List Text → Text → List Text → List Section
unfolding trim_space flush
sections_from [] kind block = flush kind block
sections_from (line ∷ lines) kind block = elim (cut_prefix (trim_space line) (codes "## ")) [
  | none ↦ sections_from lines kind (block ++ (line ∷ []))
  | some header ↦ flush kind block ++ sections_from lines (trim_space header) []
]

unfoldable pub split_sections : Text → List Section
unfolding sections_from
split_sections doc = sections_from (split doc 10) [] []

drop_first : List Text → List Text
unfolding trim_space
drop_first [] = []
drop_first (p ∷ ps) = if trim_space p == [] then ps else p ∷ ps

drop_last : List Text → List Text
unfolding trim_space
drop_last [] = []
drop_last (p ∷ []) = if trim_space p == [] then [] else p ∷ []
drop_last (p ∷ q ∷ ps) = p ∷ drop_last (q ∷ ps)

unfoldable pub split_row : Text → List Text
unfolding drop_first drop_last trim_space
split_row line = map trim_space (drop_last (drop_first (split (trim_space line) b'|')))

-- `^:?-+:?$`
dashes : Text → Bool
dashes [] = true
dashes (c ∷ s) = if nat_beq c b'-' then dashes s else nat_beq c b':' && (s == [])

some_dashes : Text → Bool
unfolding dashes
some_dashes [] = false
some_dashes (c ∷ s) = nat_beq c b'-' && dashes s

unfoldable pub sep_cell : Text → Bool
unfolding some_dashes
sep_cell [] = false
sep_cell (c ∷ s) = if nat_beq c b':' then some_dashes s else some_dashes (c ∷ s)

all_seps : List Text → Bool
unfolding sep_cell trim_space
all_seps [] = true
all_seps (cell ∷ cells) = sep_cell (trim_space cell) && all_seps cells

unfoldable pub is_separator_row : Text → ℕ → Bool
unfolding split_row all_seps
is_separator_row line ncols =
    let cells = split_row line in nat_beq (length cells) ncols && all_seps cells

unfoldable pub pipe_lines : List Text → List Text
unfolding trim_space
pipe_lines [] = []
pipe_lines (line ∷ lines) =
    let rest = pipe_lines lines in
    if is_some (cut_prefix (trim_space line) (codes "|")) then line ∷ rest else rest

unfoldable pub data_rows : Text → ℕ → List Text → Result Unreadable (List (List Text))
unfolding split_row
data_rows kind n [] = ok []
data_rows kind n (line ∷ lines) = do
  guard (nat_beq (length (split_row line)) n) (bad_row kind)
  rows ← data_rows kind n lines
  ok (split_row line ∷ rows)

unfoldable pub parse_pipes : Text → List Text → Result Unreadable MdTable
unfolding split_row is_separator_row data_rows
parse_pipes kind [] = ok (record { cols = []; rows = [] })
parse_pipes kind (head ∷ []) = err (no_separator kind)
parse_pipes kind (head ∷ sep ∷ lines) = do
  guard (is_separator_row sep (length (split_row head))) (bad_separator kind)
  rows ← data_rows kind (length (split_row head)) lines
  ok (record { cols = split_row head; rows = rows })

unfoldable pub parse_table : Text → List Text → Result Unreadable MdTable
unfolding pipe_lines parse_pipes
parse_table kind block = parse_pipes kind (pipe_lines block)

pub data_rows-length :
    (kind : Text) (n : ℕ) (lines : List Text) (rows : List (List Text))
    → data_rows kind n lines ≡ ok rows
    → All (λ r. length r ≡ n) rows
unfolding data_rows
data_rows-length kind n [] rows e = subst (All (λ r. length r ≡ n)) (ok-injective e) tt
data_rows-length kind n (line ∷ lines) rows e =
    elim (guard-eq-ok (nat_beq (length (split_row line)) n) (bad_row kind) _ rows e) [
      | found _ g e1 ↦ elim (bind-eq-ok (data_rows kind n lines) _ rows e1) [
        | found rest p e2 ↦
            subst (All (λ r. length r ≡ n)) (ok-injective e2)
              ((nat_beq_iff (length (split_row line)) n).0 g, data_rows-length kind n lines rest p)
      ]
    ]

pub parse_pipes-length :
    (kind : Text) (lines : List Text) (t : MdTable)
    → parse_pipes kind lines ≡ ok t
    → All (λ r. length r ≡ length t.cols) t.rows
unfolding parse_pipes
parse_pipes-length kind [] t e =
    subst (λ (z : MdTable). All (λ r. length r ≡ length z.cols) z.rows) (ok-injective e) tt
parse_pipes-length kind (head ∷ []) t e = cc
parse_pipes-length kind (head ∷ sep ∷ lines) t e =
    elim (guard-eq-ok (is_separator_row sep (length (split_row head))) (bad_separator kind) _ t e) [
      | found _ g e1 ↦ elim (bind-eq-ok (data_rows kind (length (split_row head)) lines) _ t e1) [
        | found rows p e2 ↦
            subst (λ (z : MdTable). All (λ r. length r ≡ length z.cols) z.rows) (ok-injective e2)
              (data_rows-length kind (length (split_row head)) lines rows p)
      ]
    ]

-- Every row of a table that parse_table accepts has as many cells as the header has columns.
pub parse_table-length :
    (kind : Text) (block : List Text) (t : MdTable)
    → parse_table kind block ≡ ok t
    → All (λ r. length r ≡ length t.cols) t.rows
unfolding parse_table
parse_table-length kind block t e = parse_pipes-length kind (pipe_lines block) t e
