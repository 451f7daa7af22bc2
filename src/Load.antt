-- ===== src/Load.antt =====
-- internal/load/parse.go: the whitelist parser of a dump. A position in a text is the rest of the text.
pub mod Literals
pub mod Canonical
pub mod Rows
pub mod Inserts
pub mod Steps
pub mod Document
mod Tests
use selftracked.Common.{
  ℕ, zero, suc, ◌+◌, Bool, true, false, not, ◌&&◌, ◌||◌, List, [], ◌∷◌, ◌++◌, Option, none, some,
  nat_beq, ◌==◌, if◌then◌else◌, Result, ok, err, ◌>>=◌, ◌>>◌, guard, or_err, length,
}
use selftracked.Common.Text.{Text, codes, text_eq, cut, cut_prefix, cut_suffix, count_byte}
use selftracked.Decimal.{is_digit, parse_int}
use selftracked.Dump.{Value, null, int, text, quote}

-- `ErrRefused`, by what the wrapped message says. `out_of_fuel` is no refusal of the program.
pub data Refused : Type 0 where
  bad_header no_version bad_version newer_version unknown_version ddl_differs : Refused
  blank_line not_whitelisted unknown_table bad_columns wrong_count : Refused
  truncated unexpected_token unterminated bad_literal non_canonical out_of_range : Refused
  no_transform transform_failed tables_left : Refused
  out_of_fuel : Refused

pub record Insert : Type 0 where
  pub table : Text
  pub values : List Value

pub record Dump : Type 0 where
  pub version : ℕ
  pub inserts : List Insert

-- A string literal from behind its opening quote; `acc` is what the builder holds.
parse_string : Text → Text → Result Refused (Value × Text)
parse_string [] acc = err unterminated
parse_string (c ∷ []) acc = elim (nat_beq c quote) [
  | true ↦ ok (text acc, [])
  | false ↦ parse_string [] (acc ++ (c ∷ []))
]
parse_string (c ∷ d ∷ s) acc = elim (nat_beq c quote) [
  | true ↦ elim (nat_beq d quote) [
    | true ↦ parse_string s (acc ++ (quote ∷ []))
    | false ↦ ok (text acc, d ∷ s)
  ]
  | false ↦ parse_string (d ∷ s) (acc ++ (c ∷ []))
]

-- The run of digits that a text begins with, and what is behind it.
unfoldable pub span_digits : Text → Text × Text
span_digits [] = ([], [])
span_digits (c ∷ s) =
    let (ds, rest) = span_digits s in if is_digit c then (c ∷ ds, rest) else ([], c ∷ s)

-- `mag` of `canonicalInteger`, a number with no sign.
canonical_magnitude : Text → Bool
canonical_magnitude [] = true
canonical_magnitude (c ∷ []) = true
canonical_magnitude (c ∷ d ∷ s) = not (nat_beq c b'0')

unfoldable pub canonical_integer : Text → Bool
unfolding canonical_magnitude
canonical_integer tok = elim (cut_prefix tok (codes "-")) [
  | some mag ↦ not (mag == codes "0" || mag == []) && canonical_magnitude mag
  | none ↦ canonical_magnitude tok
]

-- The sign that a token may begin with.
split_sign : Text → Text × Text
split_sign [] = ([], [])
split_sign (c ∷ s) = if nat_beq c b'-' then (b'-' ∷ [], s) else ([], c ∷ s)

read_integer : Text → Text → Text → Result Refused (Value × Text)
read_integer sign [] rest = err bad_literal
read_integer sign (c ∷ ds) rest = do
  guard (canonical_integer (sign ++ (c ∷ ds))) non_canonical
  n ← or_err (parse_int (sign ++ (c ∷ ds))) out_of_range
  ok (int n, rest)

parse_integer : Text → Result Refused (Value × Text)
parse_integer body =
    let (sign, digits) = split_sign body in
    let (ds, rest) = span_digits digits in read_integer sign ds rest

unfoldable pub parse_literal : Text → Result Refused (Value × Text)
unfolding parse_string parse_integer split_sign read_integer
parse_literal [] = err truncated
parse_literal (c ∷ s) = elim (cut_prefix (c ∷ s) (codes "NULL")) [
  | some rest ↦ ok (null, rest)
  | none ↦ if nat_beq c quote then parse_string s [] else parse_integer (c ∷ s)
]

-- `parseLiterals`; each round reads a literal, so the length of the text is fuel enough.
unfoldable pub literals : ℕ → Text → Result Refused (List Value)
literals zero body = err out_of_fuel
literals (suc f) body = do
  (lit, next) ← parse_literal body
  elim next [
    | [] ↦ ok (lit ∷ [])
    | c ∷ s ↦ do
      rest ← or_err (cut_prefix (c ∷ s) (codes ", ")) unexpected_token
      lits ← literals f rest
      ok (lit ∷ lits)
  ]

unfoldable pub parse_literals : Text → Result Refused (List Value)
unfolding literals
parse_literals body = literals (suc (length body)) body

-- A whitelist: the column list of each table that is known.
abbrev pub Columns : Type 0
Columns = List (Text × Text)

unfoldable pub lookup : Columns → Text → Option Text
lookup [] t = none
lookup ((u, c) ∷ m) t = if u == t then some c else lookup m t

unfoldable pub parse_insert : Text → Columns → Result Refused Insert
parse_insert line columns = do
  rest ← or_err (cut_prefix line (codes "INSERT INTO ")) not_whitelisted
  (table, rest1) ← or_err (cut rest (codes " (")) not_whitelisted
  want ← or_err (lookup columns table) unknown_table
  (cols, rest2) ← or_err (cut rest1 (codes ") VALUES (")) not_whitelisted
  guard (cols == want) bad_columns
  body ← or_err (cut_suffix rest2 (codes ");")) not_whitelisted
  values ← parse_literals body
  guard (nat_beq (length values) (count_byte b',' want + 1)) wrong_count
  ok (record { table = table; values = values })

-- The loop of `Parse` over the lines: an empty one may only be the last.
unfoldable pub data_lines : Columns → List Text → Result Refused (List Insert)
data_lines columns [] = ok []
data_lines columns ([] ∷ []) = ok []
data_lines columns ([] ∷ l ∷ ls) = err blank_line
data_lines columns ((c ∷ s) ∷ ls) = do
  ins ← parse_insert (c ∷ s) columns
  rest ← data_lines columns ls
  ok (ins ∷ rest)
