-- ===== src/Epics/Slugs.antt =====
-- `slugOK` of internal/verb/epics.go against the words between the dashes.
use selftracked.Common.{
  ℕ, ◌≡◌, refl, sym, ap, ◌∙◌, Bool, true, false, not, ◌&&◌, ◌||◌, List, [], ◌∷◌, nat_beq, arith,
  Bool-cases, inl, inr,
}
use selftracked.Common.Text.{Text, split, split-cons}
use selftracked.Epics.Verbs.{is_slug_byte, kebab, slug_ok}

abbrev pub all_slug : Text → Bool
all_slug [] = true
all_slug (c ∷ s) = is_slug_byte c && all_slug s

-- A word of lower-case letters and digits, with at least one of them.
abbrev pub is_word : Text → Bool
is_word [] = false
is_word (c ∷ s) = all_slug (c ∷ s)

abbrev pub all_words : List Text → Bool
all_words [] = true
all_words (p ∷ ps) = is_word p && all_words ps

-- The words that are left, the first one whole (`true`) or begun.
abbrev words_from : Bool → List Text → Bool
words_from whole [] = false
words_from true (p ∷ ps) = all_words (p ∷ ps)
words_from false (p ∷ ps) = all_slug p && all_words ps

at_dash :
    (dash : Bool) (p : Text) (ps : List Text)
    → not dash && all_words (p ∷ ps) ≡ words_from dash ([] ∷ p ∷ ps)
at_dash true p ps = refl
at_dash false p ps = refl

at_byte :
    (dash b : Bool) (c : ℕ) (p : Text) (ps : List Text) (rest : Bool)
    → is_slug_byte c ≡ b
    → (b ≡ true → rest ≡ all_slug p && all_words ps)
    → b && rest ≡ words_from dash ((c ∷ p) ∷ ps)
at_byte true true c p ps rest e k = rw (k refl) (rw (e, words_from) refl)
at_byte false true c p ps rest e k = rw (k refl) (rw (e, words_from) refl)
at_byte true false c p ps rest e k = rw (e, words_from) refl
at_byte false false c p ps rest e k = rw (e, words_from) refl

kebab-split : (dash : Bool) (s : Text) → kebab dash s ≡ words_from dash (split s b'-')
unfolding kebab
kebab-split true [] = unfold split in refl
kebab-split false [] = unfold split in refl
kebab-split dash (c ∷ s) =
    let (p, ps, e, q) = split-cons c s b'-' in
    let begun : kebab false s ≡ all_slug p && all_words ps =
      kebab-split false s ∙ ap (words_from false) e in
    let whole : kebab true s ≡ all_words (p ∷ ps) = kebab-split true s ∙ ap (words_from true) e in
    elim (Bool-cases (nat_beq c b'-')) [
      | inl d ↦
          let q' : split (c ∷ s) b'-' ≡ [] ∷ p ∷ ps = q ∙ rw d refl in
          let b : is_slug_byte c ≡ false = ground arith in
          rw (b, d) (rw q' (rw whole (at_dash dash p ps)))
      | inr d ↦
          let q' : split (c ∷ s) b'-' ≡ (c ∷ p) ∷ ps = q ∙ rw d refl in
          let one : is_slug_byte c || (nat_beq c b'-' && not dash) ≡ is_slug_byte c =
            rw d (ground arith) in
          rw q' (
            ap (λ z. z && kebab (not (is_slug_byte c)) s) one
            ∙ at_byte dash (is_slug_byte c) c p ps (kebab (not (is_slug_byte c)) s) refl
                (λ b. rw b begun))
    ]

-- A slug is accepted just when every piece between its dashes is a word of at least one byte, all
-- of them lower-case letters or digits.
pub slug_ok-split : (s : Text) → slug_ok s ≡ all_words (split s b'-')
unfolding slug_ok
slug_ok-split s =
    let (p, ps, e, _) = split-cons 0 s b'-' in
    kebab-split true s ∙ (ap (words_from true) e ∙ sym (ap all_words e))
