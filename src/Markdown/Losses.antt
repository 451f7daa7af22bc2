-- ===== src/Markdown/Losses.antt =====
-- No row of a table is lost on its way into the corpus of internal/verb/import_mdtable.go.
use selftracked.Common.{
  ◌==◌, if◌then◌else◌, ℕ, ◌+◌, ◌≡◌, refl, ap, subst, ◌∙◌, Bool, true, false, not, List, [], ◌∷◌,
  All, nat_beq, is_some, if◌then◌else◌, ok, found, bind-eq-ok, guard-eq-ok, ok-injective, any,
  length, arith,
}
use selftracked.Common.Text.{Text, text_eq, text_beq}
use selftracked.Markdown.Tables.{
  unknown_section, duplicate_section, bad_separator, bad_row, json_object, MdTable, Section,
  split_sections, split_row, pipe_lines, is_separator_row, data_rows, parse_pipes, parse_table,
  parse_table-length,
}
use selftracked.Markdown.Rows.{known_columns, zip}
use selftracked.Markdown.Corpus.{
  Corpus, empty_corpus, add_cells, absorb_rows, absorb, read_sections, looks_json, parse_md_table,
}
use selftracked.Markdown.Kinds.{
  Kind, paths, epics, stories, tasks, worklog, header_of, rows_in, share, share-add, share_none,
}
use selftracked.Markdown.Counts.{
  is_filled, filled_rows, written, written_below, written_in, GrowsBy, add_row-GrowsBy,
}

absorb_rows-GrowsBy :
    (q : Kind) (c : Corpus) (kind : Text) (cols : List Text) (rows : List (List Text)) (c' : Corpus)
    → All (λ r. length r ≡ length cols) rows
    → absorb_rows c kind cols rows ≡ ok c'
    → GrowsBy q c c' kind (filled_rows rows)
unfolding absorb_rows filled_rows
absorb_rows-GrowsBy q c kind cols [] c' h e =
    let none_more = share_none (header_of q == kind) in
    subst (λ (z : Corpus). rows_in q z ≡ rows_in q c + share (header_of q == kind) 0)
      (ok-injective e) (omega arith)
absorb_rows-GrowsBy q c kind cols (r ∷ rows) c' h e = elim (bind-eq-ok (zip kind cols r) _ c' e) [
  | found cells z e1 ↦ elim (bind-eq-ok (add_cells c kind cells) _ c' e1) [
    | found c1 a e2 ↦
        let one = add_row-GrowsBy q c c1 kind cols r cells h.0 z a in
        let more = absorb_rows-GrowsBy q c1 kind cols rows c' h.1 e2 in
        let both =
          share-add (header_of q == kind) (if is_filled r then 1 else 0) (filled_rows rows) in
        (omega arith)
  ]
]

data_rows-written :
    (kind : Text) (n : ℕ) (lines : List Text) (rows : List (List Text))
    → data_rows kind n lines ≡ ok rows
    → filled_rows rows ≡ written lines
unfolding data_rows filled_rows written
data_rows-written kind n [] rows e = subst (λ z. filled_rows z ≡ 0) (ok-injective e) refl
data_rows-written kind n (line ∷ lines) rows e =
    elim (guard-eq-ok (nat_beq (length (split_row line)) n) (bad_row kind) _ rows e) [
      | found _ _ e1 ↦ elim (bind-eq-ok (data_rows kind n lines) _ rows e1) [
        | found rest p e2 ↦
            subst
              (λ z. filled_rows z ≡ (if is_filled (split_row line) then 1 else 0) + written lines)
              (ok-injective e2)
              (ap (λ z. (if is_filled (split_row line) then 1 else 0) + z)
                (data_rows-written kind n lines rest p))
      ]
    ]

parse_pipes-written :
    (kind : Text) (lines : List Text) (t : MdTable)
    → parse_pipes kind lines ≡ ok t
    → filled_rows t.rows ≡ written_below lines
unfolding parse_pipes filled_rows
parse_pipes-written kind [] t e =
    subst (λ (z : MdTable). filled_rows z.rows ≡ 0) (ok-injective e) refl
parse_pipes-written kind (head ∷ []) t e = cc
parse_pipes-written kind (head ∷ sep ∷ lines) t e =
    elim (guard-eq-ok (is_separator_row sep (length (split_row head))) (bad_separator kind) _ t e) [
      | found _ _ e1 ↦ elim (bind-eq-ok (data_rows kind (length (split_row head)) lines) _ t e1) [
        | found rows p e2 ↦
            subst (λ (z : MdTable). filled_rows z.rows ≡ written lines) (ok-injective e2)
              (data_rows-written kind (length (split_row head)) lines rows p)
      ]
    ]

table-GrowsBy :
    (q : Kind) (c c' : Corpus) (kind : Text) (block : List Text) (t : MdTable)
    → parse_table kind block ≡ ok t
    → absorb c kind t ≡ ok c'
    → GrowsBy q c c' kind (written_below (pipe_lines block))
unfolding parse_table
table-GrowsBy q c c' kind block t e a =
    absorb_rows-GrowsBy q c kind t.cols t.rows c' (parse_table-length kind block t e) a
    ∙ ap (λ z. rows_in q c + share (header_of q == kind) z)
        (parse_pipes-written kind (pipe_lines block) t e)

-- The kinds are those that the importer knows, each once, and none of `seen`.
abbrev pub AreSections : List Section → List Text → Type 0
AreSections [] seen = Unit {0}
AreSections (sec ∷ secs) seen =
    (is_some (known_columns sec.kind) ≡ true)
    × (any (λ k. text_beq k sec.kind) seen ≡ false)
    × AreSections secs (sec.kind ∷ seen)

opposite : (b : Bool) → not b ≡ true → b ≡ false
opposite true e = cc
opposite false e = refl

read_sections-AreSections :
    (secs : List Section) (seen : List Text) (c c' : Corpus)
    → read_sections secs seen c ≡ ok c'
    → ((q : Kind) → rows_in q c' ≡ rows_in q c + written_in q secs) × AreSections secs seen
unfolding read_sections written_in
read_sections-AreSections [] seen c c' e =
    (λ q. subst (λ (z : Corpus). rows_in q z ≡ rows_in q c + 0) (ok-injective e) (omega arith), tt)
read_sections-AreSections (sec ∷ secs) seen c c' e =
    let used = any (λ k. text_beq k sec.kind) seen in
    elim (guard-eq-ok (is_some (known_columns sec.kind)) (unknown_section sec.kind) _ c' e) [
      | found _ k e1 ↦ elim (guard-eq-ok (not used) (duplicate_section sec.kind) _ c' e1) [
        | found _ s e2 ↦ elim (bind-eq-ok (parse_table sec.kind sec.block) _ c' e2) [
          | found t p e3 ↦ elim (bind-eq-ok (absorb c sec.kind t) _ c' e3) [
            | found c1 a e4 ↦
                let (more, rest) = read_sections-AreSections secs (sec.kind ∷ seen) c1 c' e4 in
                (
                  λ q.
                      let one = table-GrowsBy q c c1 sec.kind sec.block t p a in
                      let after = more q in (omega arith),
                  (k, opposite used s, rest),
                )
          ]
        ]
      ]
    ]

from_nothing :
    (q : Kind) (secs : List Section)
    → rows_in q empty_corpus + written_in q secs ≡ written_in q secs
from_nothing paths secs = omega arith
from_nothing epics secs = omega arith
from_nothing stories secs = omega arith
from_nothing tasks secs = omega arith
from_nothing worklog secs = omega arith

-- A file that the importer accepts as tables has only sections of the kinds that it knows, each at
-- most once, and of each kind the corpus has as many rows as the lines of the section of that kind
-- that begin with a pipe, spaces aside, write a cell that is not empty, behind the first two of
-- them, which are the header and the separator: no row on such a line is dropped, made up or filed
-- under another kind.
pub parse_md_table-rows_in :
    (doc : Text) (c : Corpus)
    → parse_md_table doc ≡ ok c
    → ((q : Kind) → rows_in q c ≡ written_in q (split_sections doc))
      × AreSections (split_sections doc) []
unfolding parse_md_table
parse_md_table-rows_in doc c e = elim (guard-eq-ok (not (looks_json doc)) json_object _ c e) [
  | found _ _ e1 ↦
      let (n, kinds) = read_sections-AreSections (split_sections doc) [] empty_corpus c e1 in
      (λ q. n q ∙ from_nothing q (split_sections doc), kinds)
]
