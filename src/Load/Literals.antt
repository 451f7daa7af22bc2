-- ===== src/Load/Literals.antt =====
-- The literals of internal/load/parse.go: what the serializer writes is read back.
use mathlib.Core.List.{cons-ne-nil}
use selftracked.Common.{
  ℕ, zero, suc, ◌<◌, ◌≤◌, ◌≡◌, ◌≢◌, refl, ap, ◌∙◌, true, false, List, [], ◌∷◌, ◌++◌, append_assoc,
  append-nil, none, some, nat_beq, ok, arith, All, length, length-append, Bool-cases, Result-cases,
  inl, inr,
}
use selftracked.Common.Int.{ℤ, pos, negsuc, InInt64}
use selftracked.Common.Text.{Text, codes, text_beq_iff, cut_prefix, cut_prefix-append}
use selftracked.Decimal.{
  IsDigit, HeadDigit, HeadDigit-ne-nil, parse_int, format_nat, format_int, format_nat-HeadDigit,
  format_nat-All, format_int-ne-nil, parse_int-format_int,
}
use selftracked.Dump.{Value, null, int, text, other, quote, double_quotes, write_literal, write_row}
use selftracked.Load.{
  parse_string, span_digits, canonical_integer, split_sign, read_integer, parse_integer,
  parse_literal, literals, parse_literals,
}

-- A value that the serializer writes: an int64, a string or NULL.
abbrev pub Storable : Value → Type 0
Storable null = Unit
Storable (int i) = InInt64 i
Storable (text s) = Unit
Storable other = ⊥

-- What stands behind a literal: nothing, or the comma in front of the next.
abbrev pub Follows : Text → Type 0
Follows [] = Unit
Follows (c ∷ s) = c ≡ b','

parse_string_plain :
    (c : ℕ) (s acc : Text)
    → nat_beq c quote ≡ false
    → parse_string (c ∷ s) acc ≡ parse_string s (acc ++ (c ∷ []))
unfolding parse_string
parse_string_plain c [] acc h = rw (h, parse_string)
parse_string_plain c (d ∷ s) acc h = rw (h, parse_string)

parse_string_doubled :
    (s acc : Text) → parse_string (quote ∷ quote ∷ s) acc ≡ parse_string s (acc ++ (quote ∷ []))
unfolding parse_string
parse_string_doubled s acc = refl

parse_string_end :
    (rest acc : Text) → Follows rest → parse_string (quote ∷ rest) acc ≡ ok (text acc, rest)
unfolding parse_string
parse_string_end [] acc h = refl
parse_string_end (c ∷ rest) acc h = rw h

parse_string-double_quotes :
    (s rest acc : Text)
    → Follows rest
    → parse_string (double_quotes s ++ (quote ∷ rest)) acc ≡ ok (text (acc ++ s), rest)
unfolding double_quotes
parse_string-double_quotes [] rest acc h = rw append-nil (parse_string_end rest acc h)
parse_string-double_quotes (c ∷ s) rest acc h = elim (Bool-cases (nat_beq c quote)) [
  | inl e ↦
      let q : c ≡ quote = ground arith in
      rw e (
        parse_string_doubled (double_quotes s ++ (quote ∷ rest)) acc
        ∙ parse_string-double_quotes s rest (acc ++ (quote ∷ [])) h
        ∙ rw (append_assoc acc (quote ∷ []) s, q))
  | inr e ↦ rw e (
      parse_string_plain c (double_quotes s ++ (quote ∷ rest)) acc e
      ∙ parse_string-double_quotes s rest (acc ++ (c ∷ [])) h
      ∙ rw (append_assoc acc (c ∷ []) s))
]

span_digits-append :
    (ds rest : Text) → All IsDigit ds → Follows rest → span_digits (ds ++ rest) ≡ (ds, rest)
unfolding span_digits
span_digits-append [] [] _ h = refl
span_digits-append [] (c ∷ rest) _ h = ground arith
span_digits-append (c ∷ ds) rest (d, l) h = rw (span_digits-append ds rest l h, d)

canonical_HeadDigit : (n : ℕ) (s : Text) → HeadDigit n s → canonical_integer s ≡ true
unfolding canonical_integer cut_prefix
canonical_HeadDigit n [] h = refl
canonical_HeadDigit n (c ∷ []) h = ground arith
canonical_HeadDigit n (c ∷ d ∷ s) (g, z, t) =
    let q : c ≢ b'0' = λ e. cons-ne-nil d s (t e) in ground arith

canonical_minus : (n : ℕ) (s : Text) → n ≢ 0 → HeadDigit n s → canonical_integer (b'-' ∷ s) ≡ true
unfolding canonical_integer cut_prefix
canonical_minus n [] p h = absurd h
canonical_minus n (c ∷ []) p (g, z, t) =
    let q : c ≢ b'0' = λ e. p (z e) in
    ground (arith, text_beq_iff (c ∷ []) (codes "0"), text_beq_iff (c ∷ []) [])
canonical_minus n (c ∷ d ∷ s) p (g, z, t) =
    let q : c ≢ b'0' = λ e. cons-ne-nil d s (t e) in
    ground (arith, text_beq_iff (c ∷ d ∷ s) (codes "0"), text_beq_iff (c ∷ d ∷ s) [])

read_integer_ok :
    (sign s rest : Text) (i : ℤ)
    → s ≢ []
    → canonical_integer (sign ++ s) ≡ true
    → parse_int (sign ++ s) ≡ some i
    → read_integer sign s rest ≡ ok (int i, rest)
unfolding read_integer
read_integer_ok sign [] rest i h k e = absurd (h refl)
read_integer_ok sign (c ∷ s) rest i h k e = rw (k, e)

split_sign_plain :
    (n : ℕ) (s rest : Text) → HeadDigit n s → split_sign (s ++ rest) ≡ ([], s ++ rest)
unfolding split_sign
split_sign_plain n [] rest h = absurd h
split_sign_plain n (c ∷ s) rest (d, z, t) = let m : nat_beq c b'-' ≡ false = ground arith in rw m

parse_integer_unsigned :
    (n : ℕ) (s rest : Text) (i : ℤ)
    → HeadDigit n s
    → All IsDigit s
    → Follows rest
    → parse_int s ≡ some i
    → parse_integer (s ++ rest) ≡ ok (int i, rest)
unfolding parse_integer
parse_integer_unsigned n s rest i h a f e = rw (split_sign_plain n s rest h) (
    rw (span_digits-append s rest a f)
      (read_integer_ok [] s rest i (HeadDigit-ne-nil n s h) (canonical_HeadDigit n s h) e))

parse_integer_minus :
    (n : ℕ) (s rest : Text) (i : ℤ)
    → n ≢ 0
    → HeadDigit n s
    → All IsDigit s
    → Follows rest
    → parse_int (b'-' ∷ s) ≡ some i
    → parse_integer (b'-' ∷ (s ++ rest)) ≡ ok (int i, rest)
unfolding parse_integer split_sign
parse_integer_minus n s rest i p h a f e =
    rw (span_digits-append s rest a f)
      (read_integer_ok (b'-' ∷ []) s rest i (HeadDigit-ne-nil n s h) (canonical_minus n s p h) e)

-- A text that begins with neither `N` nor a quote is read as an integer.
parse_literal_number :
    (c : ℕ) (s : Text) → c ≢ b'N' → c ≢ quote → parse_literal (c ∷ s) ≡ parse_integer (c ∷ s)
unfolding parse_literal cut_prefix
parse_literal_number c s h k = ground arith

HeadDigit-number :
    (n : ℕ) (s rest : Text) → HeadDigit n s → parse_literal (s ++ rest) ≡ parse_integer (s ++ rest)
HeadDigit-number n [] rest h = absurd h
HeadDigit-number n (c ∷ s) rest (d, z, t) =
    parse_literal_number c (s ++ rest) (ground arith) (ground arith)

parse_literal-format_int :
    (i : ℤ) (rest : Text)
    → InInt64 i
    → Follows rest
    → parse_literal (format_int i ++ rest) ≡ ok (int i, rest)
unfolding format_int
parse_literal-format_int (pos n) rest h f =
    let d = format_nat-HeadDigit n in
    HeadDigit-number n (format_nat n) rest d
    ∙ parse_integer_unsigned n (format_nat n) rest (pos n) d (format_nat-All n) f
        (parse_int-format_int (pos n) h)
parse_literal-format_int (negsuc n) rest h f =
    parse_literal_number b'-' (format_nat (suc n) ++ rest) (omega arith) (omega arith)
    ∙ parse_integer_minus (suc n) (format_nat (suc n)) rest (negsuc n) (omega arith)
        (format_nat-HeadDigit (suc n)) (format_nat-All (suc n)) f
        (parse_int-format_int (negsuc n) h)

parse_literal-text :
    (s rest : Text)
    → Follows rest
    → parse_literal (quote ∷ (double_quotes s ++ (quote ∷ rest))) ≡ ok (text s, rest)
unfolding parse_literal
parse_literal-text s rest f =
    let e : cut_prefix (quote ∷ (double_quotes s ++ (quote ∷ rest))) (codes "NULL") ≡ none =
      unfold cut_prefix in refl in
    rw (e, parse_literal) (parse_string-double_quotes s rest [] f)

parse_literal_null : (rest : Text) → parse_literal (codes "NULL" ++ rest) ≡ ok (null, rest)
unfolding parse_literal
parse_literal_null rest = rw (cut_prefix-append (codes "NULL") rest, parse_literal)

-- Each literal that the serializer writes is read back, whatever may follow it in a row.
pub parse_literal-write_literal :
    (v : Value) (t rest : Text)
    → write_literal v ≡ ok t
    → Storable v
    → Follows rest
    → parse_literal (t ++ rest) ≡ ok (v, rest)
unfolding write_literal
parse_literal-write_literal null t rest e h f =
    let q : t ≡ codes "NULL" = cc in rw q (parse_literal_null rest)
parse_literal-write_literal (int i) t rest e h f =
    let q : t ≡ format_int i = cc in rw q (parse_literal-format_int i rest h f)
parse_literal-write_literal (text s) t rest e h f =
    let q : t ≡ quote ∷ (double_quotes s ++ (quote ∷ [])) = cc in
    rw q (rw (append_assoc (double_quotes s) (quote ∷ []) rest) (parse_literal-text s rest f))
parse_literal-write_literal other t rest e h f = absurd h

pub write_literal-ne-nil : (v : Value) (t : Text) → write_literal v ≡ ok t → t ≢ []
unfolding write_literal
write_literal-ne-nil null t e = ground arith
write_literal-ne-nil (int i) t e = let q : format_int i ≡ t = cc in λ z. format_int-ne-nil i (q ∙ z)
write_literal-ne-nil (text s) t e = ground arith
write_literal-ne-nil other t e = cc

literals_last :
    (f : ℕ) (t : Text) (v : Value) → parse_literal t ≡ ok (v, []) → literals (suc f) t ≡ ok (v ∷ [])
unfolding literals
literals_last f t v e = rw e

literals_more :
    (f : ℕ) (t rest : Text) (v : Value) (vs : List Value)
    → parse_literal t ≡ ok (v, b',' ∷ b' ' ∷ rest)
    → literals f rest ≡ ok vs
    → literals (suc f) t ≡ ok (v ∷ vs)
unfolding literals
literals_more f t rest v vs e k = rw e (rw (cut_prefix-append (codes ", ") rest, k))

-- A row that the serializer writes is read back value by value, given a round for each.
literals-write_row :
    (v : Value) (vs : List Value) (f : ℕ) (t : Text)
    → write_row (v ∷ vs) ≡ ok t
    → All Storable (v ∷ vs)
    → length (v ∷ vs) ≤ f
    → literals f t ≡ ok (v ∷ vs)
unfolding write_row
literals-write_row v vs zero t e h k = absurd (omega arith)
literals-write_row v [] (suc f) t e h k =
    literals_last f t v (rw (append-nil t) at (parse_literal-write_literal v t [] e h.0 tt))
literals-write_row v (w ∷ vs) (suc f) t e h k = elim (Result-cases (write_literal v)) [
  | inr (x, n) ↦ absurd (ground arith)
  | inl (a, n) ↦ elim (Result-cases (write_row (w ∷ vs))) [
    | inr (x, m) ↦ absurd (ground arith)
    | inl (b, m) ↦
        let q : t ≡ a ++ (b',' ∷ b' ' ∷ b) = ground arith in
        rw q (
          literals_more f (a ++ (b',' ∷ b' ' ∷ b)) b v (w ∷ vs)
            (parse_literal-write_literal v a (b',' ∷ b' ' ∷ b) n h.0 refl)
            (literals-write_row w vs f b m h.1 (omega arith)))
  ]
]

positive-length : (t : Text) → t ≢ [] → 0 < length t
positive-length [] h = absurd (h refl)
positive-length (c ∷ t) h = omega arith

-- A row is at least as long as it has values.
length-write_row :
    (v : Value) (vs : List Value) (t : Text)
    → write_row (v ∷ vs) ≡ ok t
    → length (v ∷ vs) ≤ length t
unfolding write_row
length-write_row v [] t e = positive-length t (write_literal-ne-nil v t e)
length-write_row v (w ∷ vs) t e = elim (Result-cases (write_literal v)) [
  | inr (x, n) ↦ absurd (ground arith)
  | inl (a, n) ↦ elim (Result-cases (write_row (w ∷ vs))) [
    | inr (x, m) ↦ absurd (ground arith)
    | inl (b, m) ↦
        let q : t ≡ a ++ (b',' ∷ b' ' ∷ b) = ground arith in
        omega (
          arith,
          ap (length {0}) q,
          length-append {0} a (b',' ∷ b' ' ∷ b),
          length-write_row w vs b m,
          positive-length a (write_literal-ne-nil v a n),
        )
  ]
]

-- The VALUES body that is written for a row with at least one value, all of them NULLs, int64s or
-- texts, is read back as that row.
pub parse_literals-write_row :
    (v : Value) (vs : List Value) (t : Text)
    → write_row (v ∷ vs) ≡ ok t
    → All Storable (v ∷ vs)
    → parse_literals t ≡ ok (v ∷ vs)
unfolding parse_literals
parse_literals-write_row v vs t e h =
    literals-write_row v vs (suc (length t)) t e h (omega (arith, length-write_row v vs t e))
