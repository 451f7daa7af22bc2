-- ===== src/Load/Canonical.antt =====
-- The literals of internal/load/parse.go: only what the serializer would write is accepted.
use mathlib.Core.List.{cons-ne-nil}
use selftracked.Common.{
  ℕ, ◌≡◌, ◌≢◌, refl, sym, ap, ◌∙◌, ◌⊎◌, true, [], ◌∷◌, ◌++◌, append_assoc, append-nil, some,
  nat_beq, ok, arith, All, Bool-cases, Option-cases, inl, inr,
}
use selftracked.Common.Int.{ℤ}
use selftracked.Common.Text.{Text, codes, text_beq_iff, cut_prefix, cut_prefix-eq}
use selftracked.Decimal.{
  is_digit, IsDigit, parse_int, format_int, format_int-parse_int, format_int-parse_int_minus,
}
use selftracked.Dump.{Value, null, int, text, quote, double_quotes, write_literal}
use selftracked.Load.{
  parse_string, span_digits, canonical_integer, split_sign, read_integer, parse_integer,
  parse_literal,
}

-- `body` begins with the literal that `v` is written as, and goes on with `rest`.
abbrev pub Reads : Text → Value → Text → Type 0
Reads body v rest = (t : Text) × (write_literal v ≡ ok t) × (body ≡ t ++ rest)

abbrev ReadsString : Text → Text → Value → Text → Type 0
ReadsString s acc v rest =
    (u : Text) × (v ≡ text (acc ++ u)) × (s ≡ double_quotes u ++ (quote ∷ rest))

parse_string_sound :
    (s acc : Text) (v : Value) (rest : Text)
    → parse_string s acc ≡ ok (v, rest)
    → ReadsString s acc v rest
unfolding parse_string double_quotes
parse_string_sound [] acc v rest e = cc
parse_string_sound (c ∷ []) acc v rest e = elim (Bool-cases (nat_beq c quote)) [
  | inl q ↦ ([], ground (arith, append-nil acc), ground arith)
  | inr q ↦ absurd (ground arith)
]
parse_string_sound (c ∷ d ∷ s) acc v rest e = elim (Bool-cases (nat_beq c quote)) [
  | inl q ↦ elim (Bool-cases (nat_beq d quote)) [
    | inl w ↦
        let (u, x, y) = parse_string_sound s (acc ++ (quote ∷ [])) v rest (ground arith) in
        let first : c ≡ quote = ground arith in
        let second : d ≡ quote = ground arith in
        (
          quote ∷ u,
          x ∙ ap text (append_assoc acc (quote ∷ []) u),
          rw (first, second) (ap (λ z. quote ∷ quote ∷ z) y),
        )
    | inr w ↦ ([], ground (arith, append-nil acc), ground arith)
  ]
  | inr q ↦
      let (u, x, y) = parse_string_sound (d ∷ s) (acc ++ (c ∷ [])) v rest (ground arith) in
      (c ∷ u, x ∙ ap text (append_assoc acc (c ∷ []) u), rw q (ap (λ z. c ∷ z) y))
]

span_digits_sound :
    (s : Text) → (s ≡ (span_digits s).0 ++ (span_digits s).1) × All IsDigit (span_digits s).0
unfolding span_digits
span_digits_sound [] = (refl, tt)
span_digits_sound (c ∷ s) =
    let (e, a) = span_digits_sound s in
    elim (Bool-cases (is_digit c)) [
      | inl d ↦ rw d (ap (λ x. c ∷ x) e, (d, a))
      | inr d ↦ rw d (refl, tt)
    ]

canonical_unsigned :
    (c : ℕ) (s : Text) → IsDigit c → canonical_integer (c ∷ s) ≡ true → c ≡ b'0' → s ≡ []
unfolding canonical_integer cut_prefix
canonical_unsigned c [] d h z = refl
canonical_unsigned c (x ∷ s) d h z = absurd (ground arith)

canonical_signed : (c : ℕ) (s : Text) → canonical_integer (b'-' ∷ c ∷ s) ≡ true → c ≢ b'0'
unfolding canonical_integer cut_prefix
canonical_signed c [] h z = ground (arith, text_beq_iff (c ∷ []) (codes "0"))
canonical_signed c (x ∷ s) h z = ground arith

-- The two signs that `split_sign` finds.
split_sign_sound :
    (s : Text)
    → (s ≡ (split_sign s).0 ++ (split_sign s).1)
      × (((split_sign s).0 ≡ []) ⊎ ((split_sign s).0 ≡ b'-' ∷ []))
unfolding split_sign
split_sign_sound [] = (refl, inl refl)
split_sign_sound (c ∷ s) = elim (Bool-cases (nat_beq c b'-')) [
  | inl e ↦ rw e (ground arith, inr refl)
  | inr e ↦ rw e (refl, inl refl)
]

read_integer_inversion :
    (sign ds rest : Text) (v : Value) (out : Text)
    → read_integer sign ds rest ≡ ok (v, out)
    → (i : ℤ) × (v ≡ int i)
      × (out ≡ rest)
      × (parse_int (sign ++ ds) ≡ some i)
      × (canonical_integer (sign ++ ds) ≡ true)
      × (ds ≢ [])
unfolding read_integer
read_integer_inversion sign [] rest v out e = cc
read_integer_inversion sign (c ∷ ds) rest v out e =
    elim (Option-cases (parse_int (sign ++ (c ∷ ds)))) [
      | inl n ↦ absurd (ground arith)
      | inr (i, n) ↦ (i, ground arith, ground arith, n, ground arith, cons-ne-nil c ds)
    ]

-- An integer token that is accepted is written back byte for byte.
format_token :
    (sign ds : Text) (i : ℤ)
    → (sign ≡ []) ⊎ (sign ≡ b'-' ∷ [])
    → ds ≢ []
    → All IsDigit ds
    → canonical_integer (sign ++ ds) ≡ true
    → parse_int (sign ++ ds) ≡ some i
    → format_int i ≡ sign ++ ds
format_token sign [] i q h a k e = absurd (h refl)
format_token sign (c ∷ ds) i (inl q) h a k e =
    rw q (format_int-parse_int c ds i a.0 (canonical_unsigned c ds a.0 (rw q at k)) (rw q at e))
format_token sign (c ∷ ds) i (inr q) h a k e =
    rw q (format_int-parse_int_minus c ds i a.0 (canonical_signed c ds (rw q at k)) (rw q at e))

parse_integer_sound :
    (body : Text) (v : Value) (rest : Text) → parse_integer body ≡ ok (v, rest) → Reads body v rest
unfolding parse_integer
parse_integer_sound body v rest e =
    let sign = (split_sign body).0 in
    let digits = (split_sign body).1 in
    let ds = (span_digits digits).0 in
    let tail = (span_digits digits).1 in
    let (i, p, q, n, k, h) = read_integer_inversion sign ds tail v rest e in
    let (parts, which) = split_sign_sound body in
    let (spans, all) = span_digits_sound digits in
    (
      sign ++ ds,
      rw p (unfold write_literal in ap ok (format_token sign ds i which h all k n)),
      parts ∙ ap (λ z. sign ++ z) spans ∙ sym (append_assoc sign ds tail) ∙ rw q,
    )

-- Whatever is accepted as a literal is what the serializer writes for the value that it was read as.
pub parse_literal_sound :
    (body : Text) (v : Value) (rest : Text) → parse_literal body ≡ ok (v, rest) → Reads body v rest
unfolding parse_literal
parse_literal_sound [] v rest e = cc
parse_literal_sound (c ∷ s) v rest e = elim (Option-cases (cut_prefix (c ∷ s) (codes "NULL"))) [
  | inr (r, n) ↦
      let p : (v ≡ null) × (r ≡ rest) = ground arith in
      (
        codes "NULL",
        rw p.0 (unfold write_literal in refl),
        rw (← p.1) (cut_prefix-eq (c ∷ s) (codes "NULL") r n),
      )
  | inl n ↦ elim (Bool-cases (nat_beq c quote)) [
    | inl q ↦
        let (u, p, w) = parse_string_sound s [] v rest (ground arith) in
        let first : c ≡ quote = ground arith in
        (
          quote ∷ (double_quotes u ++ (quote ∷ [])),
          rw p (unfold write_literal in refl),
          rw first
              (ap (λ z. quote ∷ z) (w ∙ sym (append_assoc (double_quotes u) (quote ∷ []) rest))),
        )
    | inr q ↦ parse_integer_sound (c ∷ s) v rest (ground arith)
  ]
]
