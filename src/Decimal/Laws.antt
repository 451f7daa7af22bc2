-- ===== src/Decimal/Laws.antt =====
-- What is written is read back, and what is read without a sign or zeros in front was written.
use mathlib.Core.List.{cons-ne-nil}
use selftracked.Common.{
  ℕ, zero, suc, ◌+◌, ◌-◌, ◌*◌, ◌/◌, ◌%◌, ◌^◌, ◌<◌, ◌≡◌, ◌≢◌, refl, sym, ◌∙◌, ap, append-nil, true,
  false, ◌++◌, [], ◌∷◌, some, ltb, nat_beq, arith, All, Bool-cases, Option-cases, ◌⊎◌, inl, inr,
}
use selftracked.Common.Int.{ℤ, pos, negsuc, InInt64}
use selftracked.Common.Text.{Text}
use selftracked.Decimal.Defs.{
  is_digit, scan, parse_uint, in_range, parse_int, digits, format_nat, format_int,
}

-- Any two amounts of fuel above the number write the same.
digits_fuel : (f g n : ℕ) (out : Text) → n < f → n < g → digits f n out ≡ digits g n out
unfolding digits
digits_fuel zero g n out h k = absurd (omega arith)
digits_fuel (suc f) zero n out h k = absurd (omega arith)
digits_fuel (suc f) (suc g) n out h k =
    ground (arith, digits_fuel f g (n / 10) ((b'0' + n % 10) ∷ out))

-- `n` in decimal, in front of `out`.
unfoldable pub show : ℕ → Text → Text
unfolding digits
show n out = digits (suc n) n out

pub show_small : (n : ℕ) (out : Text) → n < 10 → show n out ≡ (b'0' + n) ∷ out
unfolding show
show_small n out h = ground arith

pub show_large :
    (a d : ℕ) (out : Text) → 0 < a → d < 10 → show (a * 10 + d) out ≡ show a ((b'0' + d) ∷ out)
unfolding show
show_large a d out h k =
    let e : (a * 10 + d) / 10 ≡ a = omega arith in
    let m : (a * 10 + d) % 10 ≡ d = omega arith in
    ground (arith, digits_fuel (a * 10 + d) (suc a) a ((b'0' + d) ∷ out))

scan_digit : (a d : ℕ) (out : Text) → d < 10 → scan ((b'0' + d) ∷ out) a ≡ scan out (a * 10 + d)
unfolding scan
scan_digit a d out h =
    let e : b'0' + d - b'0' ≡ d = omega arith in
    let t : is_digit (b'0' + d) ≡ true = ground arith in rw t (rw e)

scan-digits : (f n : ℕ) (out : Text) → n < f → scan (digits f n out) 0 ≡ scan out n
unfolding digits
scan-digits zero n out h = absurd (omega arith)
scan-digits (suc f) n out h =
    let e : n / 10 * 10 + n % 10 ≡ n = omega arith in
    ground (
      arith,
      e,
      scan_digit 0 n out,
      scan_digit (n / 10) (n % 10) out,
      scan-digits f (n / 10) ((b'0' + n % 10) ∷ out),
    )

scan-show : (n : ℕ) (out : Text) → scan (show n out) 0 ≡ scan out n
unfolding show
scan-show n out = scan-digits (suc n) n out (omega arith)

pub scan-cons :
    (c : ℕ) (s : Text) (a v : ℕ)
    → scan (c ∷ s) a ≡ some v
    → (is_digit c ≡ true) × (scan s (a * 10 + (c - b'0')) ≡ some v)
unfolding scan
scan-cons c s a v e = ground arith

digit_back : (c : ℕ) → is_digit c ≡ true → b'0' + (c - b'0') ≡ c
digit_back c h = ground arith

digit_small : (c : ℕ) → is_digit c ≡ true → c - b'0' < 10
digit_small c h = ground arith

scan_nil : (n : ℕ) → scan [] n ≡ some n
unfolding scan
scan_nil n = refl

-- Digits read behind a positive number are the digits that its value is written with.
show-scan :
    (s : Text) (a v : ℕ) (out : Text) → 0 < a → scan s a ≡ some v → show v out ≡ show a (s ++ out)
show-scan [] a v out h e = unfold scan in ground arith
show-scan (c ∷ s) a v out h e =
    let (t, r) = scan-cons c s a v e in
    let d : b'0' + (c - b'0') ≡ c = digit_back c t in
    show-scan s (a * 10 + (c - b'0')) v out (omega arith) r
    ∙ show_large a (c - b'0') (s ++ out) h (digit_small c t)
    ∙ rw d

format_nat-show : (n : ℕ) → format_nat n ≡ show n []
unfolding format_nat show
format_nat-show n = refl

-- What is written is a non-empty run of digits: `D` holds of a byte that is a digit.
abbrev pub IsDigit : ℕ → Type 0
IsDigit c = is_digit c ≡ true

digits-All : (f n : ℕ) (out : Text) → All IsDigit out → All IsDigit (digits f n out)
unfolding digits
digits-All zero n out h = h
digits-All (suc f) n out h =
    let low : IsDigit (b'0' + n % 10) = ground arith in
    let rest : All IsDigit (digits f (n / 10) ((b'0' + n % 10) ∷ out)) =
      digits-All f (n / 10) ((b'0' + n % 10) ∷ out) (low, h) in
    elim (Bool-cases (ltb n 10)) [ inl e ↦ rw e (ground arith, h) | inr e ↦ rw e rest ]

pub format_nat-All : (n : ℕ) → All IsDigit (format_nat n)
unfolding format_nat
format_nat-All n = digits-All (suc n) n [] tt

-- The first byte is a digit, and it is `0` only in `0` itself.
abbrev pub HeadDigit : ℕ → Text → Type 0
HeadDigit n [] = ⊥
HeadDigit n (c ∷ s) = IsDigit c × (c ≡ b'0' → n ≡ 0) × (c ≡ b'0' → s ≡ [])

HeadDigit-grow : (m n : ℕ) (s : Text) → 0 < m → HeadDigit m s → HeadDigit n s
HeadDigit-grow m n [] p h = h
HeadDigit-grow m n (c ∷ s) p (h, z, t) =
    (h, (λ e. absurd (omega (arith, z e))), (λ e. absurd (omega (arith, z e))))

HeadDigit-small :
    (n : ℕ) (out : Text) → n < 10 → (0 < n) ⊎ (out ≡ []) → HeadDigit n ((b'0' + n) ∷ out)
HeadDigit-small n out h (inl p) = (ground arith, (λ e. omega arith), (λ e. absurd (omega arith)))
HeadDigit-small n out h (inr p) = (ground arith, (λ e. omega arith), (λ e. p))

digits-HeadDigit :
    (f n : ℕ) (out : Text) → n < f → (0 < n) ⊎ (out ≡ []) → HeadDigit n (digits f n out)
unfolding digits
digits-HeadDigit zero n out h k = absurd (omega arith)
digits-HeadDigit (suc f) n out h k = elim (Bool-cases (ltb n 10)) [
  | inl e ↦ rw e (HeadDigit-small n out (ground arith) k)
  | inr e ↦
      let p : 0 < n / 10 = ground arith in
      rw e (
        HeadDigit-grow (n / 10) n (digits f (n / 10) ((b'0' + n % 10) ∷ out)) p
          (digits-HeadDigit f (n / 10) ((b'0' + n % 10) ∷ out) (omega arith) (inl p)))
]

pub format_nat-HeadDigit : (n : ℕ) → HeadDigit n (format_nat n)
unfolding format_nat
format_nat-HeadDigit n = digits-HeadDigit (suc n) n [] (omega arith) (inr refl)

parse_uint-scan : (s : Text) → s ≢ [] → parse_uint s ≡ scan s 0
unfolding parse_uint
parse_uint-scan [] h = absurd (h refl)
parse_uint-scan (c ∷ s) h = refl

pub HeadDigit-ne-nil : (n : ℕ) (s : Text) → HeadDigit n s → s ≢ []
HeadDigit-ne-nil n [] h = absurd h
HeadDigit-ne-nil n (c ∷ s) h = cons-ne-nil c s

pub scan-format_nat : (n : ℕ) → scan (format_nat n) 0 ≡ some n
scan-format_nat n = rw format_nat-show (scan-show n [] ∙ scan_nil n)

pub parse_uint-format_nat : (n : ℕ) → parse_uint (format_nat n) ≡ some n
parse_uint-format_nat n =
    parse_uint-scan (format_nat n) (HeadDigit-ne-nil n _ (format_nat-HeadDigit n))
    ∙ scan-format_nat n

-- A first byte that is a digit is no sign.
parse_int_unsigned :
    (n : ℕ) (s : Text) → HeadDigit n s → parse_int s ≡ in_range false (parse_uint s)
unfolding parse_int
parse_int_unsigned n [] h = absurd h
parse_int_unsigned n (c ∷ s) (d, z, t) = ground arith

-- strconv reads back every int64 that fmt writes.
pub parse_int-format_int : (i : ℤ) → InInt64 i → parse_int (format_int i) ≡ some i
unfolding format_int in_range
parse_int-format_int (pos n) h =
    rw (parse_int_unsigned n (format_nat n) (format_nat-HeadDigit n), parse_uint-format_nat n)
      (ground arith)
parse_int-format_int (negsuc n) h =
    unfold parse_int in rw (parse_uint-format_nat (suc n)) (ground arith)

zero_value : (c : ℕ) (s : Text) (v : ℕ) → s ≡ [] → c ≡ b'0' → scan (c ∷ s) 0 ≡ some v → v ≡ 0
zero_value c [] v n k e = unfold scan in ground arith
zero_value c (x ∷ s) v n k e = cc

-- Digits with no zero in front are what their value is written as.
pub format_nat-scan :
    (c : ℕ) (s : Text) (v : ℕ)
    → (c ≡ b'0' → s ≡ [])
    → scan (c ∷ s) 0 ≡ some v
    → format_nat v ≡ c ∷ s
format_nat-scan c s v z e =
    let (t, r) = scan-cons c s 0 v e in
    let d : b'0' + (c - b'0') ≡ c = digit_back c t in
    elim (Bool-cases (nat_beq c b'0')) [
      | inl k ↦
          let n : s ≡ [] = z (ground arith) in
          let w : v ≡ 0 = zero_value c s v n (ground arith) e in
          rw (w, n, format_nat-show)
            (show_small 0 [] (omega arith) ∙ ap (λ x. x ∷ []) (ground arith))
      | inr k ↦
          let q : 0 * 10 + (c - b'0') ≡ c - b'0' = omega arith in
          rw format_nat-show (
            show-scan s (c - b'0') v [] (ground arith) (rw q at r)
            ∙ rw append-nil (show_small (c - b'0') s (digit_small c t) ∙ rw d))
    ]

-- A token of digits that was read has no other spelling, and so has one behind a minus sign.
pub format_int-parse_int :
    (c : ℕ) (s : Text) (i : ℤ)
    → IsDigit c
    → (c ≡ b'0' → s ≡ [])
    → parse_int (c ∷ s) ≡ some i
    → format_int i ≡ c ∷ s
unfolding parse_int in_range format_int parse_uint
format_int-parse_int c s i d z e = elim (Option-cases (scan (c ∷ s) 0)) [
  | inl n ↦ ground arith
  | inr (v, n) ↦ ground (arith, format_nat-scan c s v z)
]

format_nat-zero : format_nat 0 ≡ b'0' ∷ []
unfolding format_nat
format_nat-zero = refl

head_eq : {a b : ℕ} {s t : Text} → a ∷ s ≡ b ∷ t → a ≡ b
head_eq h = cc

minus_value :
    (v : ℕ) (i : ℤ) → v ≢ 0 → in_range true (some v) ≡ some i → format_int i ≡ b'-' ∷ format_nat v
unfolding in_range format_int
minus_value zero i p e = absurd (p refl)
minus_value (suc v) i p e = ground arith

pub format_int-parse_int_minus :
    (c : ℕ) (s : Text) (i : ℤ)
    → IsDigit c
    → c ≢ b'0'
    → parse_int (b'-' ∷ c ∷ s) ≡ some i
    → format_int i ≡ b'-' ∷ c ∷ s
unfolding parse_int parse_uint
format_int-parse_int_minus c s i d z e = elim (Option-cases (scan (c ∷ s) 0)) [
  | inl n ↦ unfold in_range in ground arith
  | inr (v, n) ↦
      let w : format_nat v ≡ c ∷ s = format_nat-scan c s v (λ k. absurd (z k)) n in
      let p : v ≢ 0 = λ k.
        let m : c ∷ s ≡ b'0' ∷ [] = sym w ∙ ap format_nat k ∙ format_nat-zero in z (head_eq m) in
      let q : in_range true (some v) ≡ some i = rw n at e in minus_value v i p q ∙ rw w
]

pub format_int-ne-nil : (i : ℤ) → format_int i ≢ []
unfolding format_int
format_int-ne-nil (pos n) = HeadDigit-ne-nil n (format_nat n) (format_nat-HeadDigit n)
format_int-ne-nil (negsuc n) = cons-ne-nil b'-' (format_nat (suc n))

pub parse_int-format_nat : (n : ℕ) → n < 2 ^ 63 → parse_int (format_nat n) ≡ some (pos n)
parse_int-format_nat n h = unfold format_int in parse_int-format_int (pos n) h
