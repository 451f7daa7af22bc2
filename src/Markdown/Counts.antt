-- ===== src/Markdown/Counts.antt =====
-- How many rows a table of internal/verb/import_mdtable.go adds to each kind.
use selftracked.Common.{
  ℕ, ◌+◌, ◌<◌, ◌≡◌, refl, sym, subst, ◌∙◌, Bool, true, false, not, ◌||◌, List, [], ◌∷◌,
  if◌then◌else◌, ◌==◌, ok, found, bind-eq-ok, guard-eq-ok, ok-injective, any, length, arith,
}
use selftracked.Common.Text.{Text, text_eq, text_beq}
use selftracked.Markdown.Tables.{unknown_column, Section, split_row, pipe_lines}
use selftracked.Markdown.Rows.{Cells, known, zip_from, zip}
use selftracked.Markdown.Corpus.{Corpus, add_cells}
use selftracked.Markdown.Kinds.{Kind, header_of, rows_in, share, share_none, append_row-Grows}

-- A row with a cell that is not empty.
abbrev pub is_filled : List Text → Bool
is_filled cells = any (λ s. not (s == [])) cells

unfoldable pub filled_rows : List (List Text) → ℕ
filled_rows [] = 0
filled_rows (r ∷ rows) = (if is_filled r then 1 else 0) + filled_rows rows

-- How many of the lines write a row that is filled.
unfoldable pub written : List Text → ℕ
unfolding filled_rows
written [] = 0
written (line ∷ lines) = (if is_filled (split_row line) then 1 else 0) + written lines

-- Behind the header and the separator.
abbrev pub written_below : List Text → ℕ
written_below (_ ∷ _ ∷ lines) = written lines
written_below _ = 0

-- The rows of a kind that the lines beginning with a pipe write in the sections of that kind.
unfoldable pub written_in : Kind → List Section → ℕ
unfolding pipe_lines written
written_in q [] = 0
written_in q (sec ∷ secs) =
    share (header_of q == sec.kind) (written_below (pipe_lines sec.block)) + written_in q secs

or_false : (b : Bool) → b ≡ b || false
or_false true = refl
or_false false = refl

or_assoc : (a b d : Bool) → (a || b) || d ≡ a || (b || d)
or_assoc true b d = refl
or_assoc false b d = refl

zip_from-filled :
    (names cols cells : List Text) (out : Cells) (filled : Bool) (r : Cells × Bool)
    → length cells ≡ length cols
    → zip_from names cols cells out filled ≡ ok r
    → (r.1 ≡ filled || is_filled cells) × (length r.0 ≡ length out + length cols)
unfolding zip_from
zip_from-filled names [] [] out filled r h e =
    let q : (out, filled) ≡ r = ok-injective e in
    subst (λ (z : Cells × Bool). (z.1 ≡ filled || false) × (length z.0 ≡ length out + 0)) q
      (or_false filled, (omega arith))
zip_from-filled names [] (v ∷ cells) out filled r h e = absurd (omega arith)
zip_from-filled names (col ∷ cols) [] out filled r h e = absurd (omega arith)
zip_from-filled names (col ∷ cols) (v ∷ cells) out filled r h e =
    elim (guard-eq-ok (any (λ n. text_beq n col) names) (unknown_column col) _ r e) [
      | found _ _ e1 ↦
          let (f, n) =
            zip_from-filled names cols cells ((col, v) ∷ out) (filled || not (v == [])) r
              (omega arith) e1 in
          (f ∙ or_assoc filled (not (v == [])) (is_filled cells), (omega arith))
    ]

is_filled-cols :
    (cols r : List Text) → length r ≡ length cols → is_filled r ≡ true → 0 < length cols
is_filled-cols cols [] h e = cc
is_filled-cols cols (v ∷ r) h e = omega arith

module _ (q : Kind) (c c1 : Corpus) (kind : Text) where
  -- `n` rows more, if the section is of the kind.
  abbrev pub GrowsBy : ℕ → Type 0
  GrowsBy n = rows_in q c1 ≡ rows_in q c + share (header_of q == kind) n

  add_cells-GrowsBy : (out : Cells) → 0 < length out → add_cells c kind out ≡ ok c1 → GrowsBy 1
  unfolding add_cells
  add_cells-GrowsBy [] h e = absurd (omega arith)
  add_cells-GrowsBy (x ∷ out) h e = append_row-Grows c (x ∷ out) kind c1 e q

  nothing_added : add_cells c kind [] ≡ ok c1 → GrowsBy 0
  unfolding add_cells
  nothing_added e =
      let z = share_none (header_of q == kind) in
      subst (λ (z : Corpus). rows_in q z ≡ rows_in q c + share (header_of q == kind) 0)
        (ok-injective e) (omega arith)

  add_flagged-GrowsBy :
      (cols r : List Text) (out : Cells) (filled : Bool)
      → length r ≡ length cols
      → filled ≡ is_filled r
      → length out ≡ length cols
      → add_cells c kind (if filled then out else []) ≡ ok c1
      → GrowsBy (if is_filled r then 1 else 0)
  add_flagged-GrowsBy cols r out true h f n e =
      let some_cols = is_filled-cols cols r h (sym f) in
      rw (sym f) (add_cells-GrowsBy out (omega arith) e)
  add_flagged-GrowsBy cols r out false h f n e = rw (sym f) (nothing_added e)

  pub add_row-GrowsBy :
      (cols r : List Text) (cells : Cells)
      → length r ≡ length cols
      → zip kind cols r ≡ ok cells
      → add_cells c kind cells ≡ ok c1
      → GrowsBy (if is_filled r then 1 else 0)
  unfolding zip
  add_row-GrowsBy cols r cells h e a =
      elim (bind-eq-ok (zip_from (known kind) cols r [] false) _ cells e) [
        | found (out, filled) p e1 ↦
            let (f, n) = zip_from-filled (known kind) cols r [] false (out, filled) h p in
            let same : (if filled then out else []) ≡ cells = ok-injective e1 in
            add_flagged-GrowsBy cols r out filled h f (n ∙ (omega arith))
              (subst (λ z. add_cells c kind z ≡ ok c1) (sym same) a)
      ]
