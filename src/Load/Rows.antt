-- ===== src/Load/Rows.antt =====
-- The VALUES bodies of internal/load/parse.go: only what the serializer would write is accepted, and
-- the loop always ends.
use mathlib.Core.List.{cons-ne-nil}
use selftracked.Common.{
  ℕ, zero, suc, ◌<◌, ◌≡◌, ◌≢◌, refl, sym, ap, ◌∙◌, List, [], ◌∷◌, ◌++◌, append-nil, ok, err, arith,
  length, length-append, Option-cases, Result-cases, inl, inr,
}
use selftracked.Common.Text.{Text, codes, cut_prefix, cut_prefix-eq}
use selftracked.Dump.{Value, quote, write_literal, write_row}
use selftracked.Load.{
  Refused, parse_string, read_integer, parse_integer, parse_literal, literals, parse_literals,
  out_of_fuel,
}
use selftracked.Load.Canonical.{parse_literal_sound}

-- What `literals` does behind the first literal.
abbrev Continues : ℕ → Text → List Value → Value → Text → Type 0
Continues f body vs lit [] = vs ≡ lit ∷ []
Continues f body vs lit (c ∷ s) =
    (rest : Text) × (lits : List Value) × (c ∷ s ≡ b',' ∷ b' ' ∷ rest)
    × (literals f rest ≡ ok lits)
    × (vs ≡ lit ∷ lits)

literals_inversion :
    (f : ℕ) (body : Text) (vs : List Value) (lit : Value) (next : Text)
    → parse_literal body ≡ ok (lit, next)
    → literals (suc f) body ≡ ok vs
    → Continues f body vs lit next
unfolding literals
literals_inversion f body vs lit [] p e = ground arith
literals_inversion f body vs lit (c ∷ s) p e =
    elim (Option-cases (cut_prefix (c ∷ s) (codes ", "))) [
      | inl n ↦ absurd (ground arith)
      | inr (rest, n) ↦ elim (Result-cases (literals f rest)) [
        | inr (x, m) ↦ absurd (ground arith)
        | inl (lits, m) ↦ (rest, lits, cut_prefix-eq (c ∷ s) (codes ", ") rest n, m, ground arith)
      ]
    ]

literals_fails :
    (f : ℕ) (body : Text) (x : Refused) → parse_literal body ≡ err x → literals (suc f) body ≡ err x
unfolding literals
literals_fails f body x e = rw e

literals-ne-nil : (f : ℕ) (body : Text) → literals f body ≢ ok []
literals-ne-nil zero body = unfold literals in ground arith
literals-ne-nil (suc f) body = λ e. elim (Result-cases (parse_literal body)) [
  | inr (x, n) ↦ let m = literals_fails f body x n in ground arith
  | inl ((lit, []), n) ↦ cons-ne-nil lit [] (sym (literals_inversion f body [] lit [] n e))
  | inl ((lit, c ∷ s), n) ↦
      let (rest, lits, p, m, v) = literals_inversion f body [] lit (c ∷ s) n e in
      cons-ne-nil lit lits (sym v)
]

write_row-cons :
    (lit : Value) (t rest : Text) (lits : List Value)
    → lits ≢ []
    → write_literal lit ≡ ok t
    → write_row lits ≡ ok rest
    → write_row (lit ∷ lits) ≡ ok (t ++ (b',' ∷ b' ' ∷ rest))
unfolding write_row
write_row-cons lit t rest [] h e k = absurd (h refl)
write_row-cons lit t rest (w ∷ ws) h e k = rw (e, k)

literals_sound :
    (f : ℕ) (body : Text) (vs : List Value) → literals f body ≡ ok vs → write_row vs ≡ ok body
literals_sound zero body vs e = unfold literals in cc
literals_sound (suc f) body vs e = elim (Result-cases (parse_literal body)) [
  | inr (x, n) ↦ absurd (let m = literals_fails f body x n in ground arith)
  | inl ((lit, []), n) ↦
      let (t, w, q) = parse_literal_sound body lit [] n in
      let v : vs ≡ lit ∷ [] = literals_inversion f body vs lit [] n e in
      rw v (unfold write_row in (w ∙ ap ok (sym (q ∙ append-nil t))))
  | inl ((lit, c ∷ s), n) ↦
      let (t, w, q) = parse_literal_sound body lit (c ∷ s) n in
      let (rest, lits, p, m, v) = literals_inversion f body vs lit (c ∷ s) n e in
      let ih = literals_sound f rest lits m in
      rw v (
        write_row-cons lit t rest lits (λ z. literals-ne-nil f rest (m ∙ ap ok z)) w ih
        ∙ ap ok (sym (q ∙ ap (λ z. t ++ z) p)))
]

-- A VALUES body that is accepted is the text that the serializer writes for the row that was read
-- from it.
pub parse_literals_sound :
    (body : Text) (vs : List Value) → parse_literals body ≡ ok vs → write_row vs ≡ ok body
unfolding parse_literals
parse_literals_sound body vs e = literals_sound (suc (length body)) body vs e

parse_string-fuel : (s acc : Text) → parse_string s acc ≢ err out_of_fuel
unfolding parse_string
parse_string-fuel [] acc = ground arith
parse_string-fuel (c ∷ []) acc = ground arith
parse_string-fuel (c ∷ d ∷ s) acc =
    ground (
      arith,
      parse_string-fuel s (acc ++ (quote ∷ [])),
      parse_string-fuel (d ∷ s) (acc ++ (c ∷ [])),
    )

read_integer-fuel : (sign ds rest : Text) → read_integer sign ds rest ≢ err out_of_fuel
unfolding read_integer
read_integer-fuel sign [] rest = ground arith
read_integer-fuel sign (c ∷ ds) rest = ground arith

parse_integer-fuel : (body : Text) → parse_integer body ≢ err out_of_fuel
unfolding parse_integer
parse_integer-fuel body = read_integer-fuel _ _ _

parse_literal-fuel : (body : Text) → parse_literal body ≢ err out_of_fuel
unfolding parse_literal
parse_literal-fuel [] = ground arith
parse_literal-fuel (c ∷ s) = ground (arith, parse_string-fuel s [], parse_integer-fuel (c ∷ s))

literals_starved :
    (f : ℕ) (body : Text) (lit : Value) (next : Text)
    → parse_literal body ≡ ok (lit, next)
    → literals (suc f) body ≡ err out_of_fuel
    → (rest : Text) × (next ≡ b',' ∷ b' ' ∷ rest) × (literals f rest ≡ err out_of_fuel)
unfolding literals
literals_starved f body lit [] p e = absurd (ground arith)
literals_starved f body lit (c ∷ s) p e = elim (Option-cases (cut_prefix (c ∷ s) (codes ", "))) [
  | inl n ↦ absurd (ground arith)
  | inr (rest, n) ↦ (
    rest,
    cut_prefix-eq (c ∷ s) (codes ", ") rest n,
    elim (Result-cases (literals f rest)) [
      | inr (x, m) ↦ ground arith
      | inl (lits, m) ↦ absurd (ground arith)
    ],
  )
]

literals-fuel : (f : ℕ) (body : Text) → length body < f → literals f body ≢ err out_of_fuel
literals-fuel zero body h = absurd (omega arith)
literals-fuel (suc f) body h = λ e. elim (Result-cases (parse_literal body)) [
  | inr (x, n) ↦
      let m : err x ≡ err out_of_fuel = sym (literals_fails f body x n) ∙ e in
      ground (arith, parse_literal-fuel body)
  | inl ((lit, next), n) ↦
      let (t, w, q) = parse_literal_sound body lit next n in
      let (rest, p, k) = literals_starved f body lit next n e in
      literals-fuel f rest
        (omega (arith, ap (length {0}) q, ap (length {0}) p, length-append {0} t next)) k
]

-- The loop over a VALUES body ends for every body: its fuel, one more than the length of the body,
-- is never used up.
pub parse_literals_total : (body : Text) → parse_literals body ≢ err out_of_fuel
unfolding parse_literals
parse_literals_total body = literals-fuel (suc (length body)) body (omega arith)
