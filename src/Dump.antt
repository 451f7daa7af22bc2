-- ===== src/Dump.antt =====
-- internal/dump/serialize.go: the canonical text of a database.

pub mod Tables
pub mod Header
use selftracked.Common.{
  ℕ, zero, Bool, true, false, List, [], ◌∷◌, ◌++◌, nat_beq, if◌then◌else◌, Result, ok, err, ◌>>=◌,
}
use selftracked.Common.Int.{ℤ}
use selftracked.Common.Text.{Text, codes}
use selftracked.Decimal.{format_int}

-- What the driver scans into an `any`: `other` is any type but the three that the schema stores.
pub data Value : Type 0 where
  null : Value
  int : ℤ → Value
  text : Text → Value
  other : Value

pub data DumpError : Type 0 where
  query_failed unserializable : DumpError

abbrev pub quote : ℕ
quote = b'\''

-- strings.ReplaceAll(val, "'", "''")
unfoldable pub double_quotes : Text → Text
double_quotes [] = []
double_quotes (c ∷ s) =
    let rest = double_quotes s in if nat_beq c quote then quote ∷ quote ∷ rest else c ∷ rest

-- `writeLiteral`: the text that it appends.
unfoldable pub write_literal : Value → Result DumpError Text
unfolding double_quotes
write_literal null = ok (codes "NULL")
write_literal (int i) = ok (format_int i)
write_literal (text s) = ok (quote ∷ (double_quotes s ++ (quote ∷ [])))
write_literal other = err unserializable

-- `writeRow`: a comma and a space in front of each value but the first.
unfoldable pub write_row : List Value → Result DumpError Text
write_row [] = ok []
write_row (v ∷ []) = write_literal v
write_row (v ∷ w ∷ vs) = do
  t ← write_literal v
  rest ← write_row (w ∷ vs)
  ok (t ++ (b',' ∷ b' ' ∷ rest))
