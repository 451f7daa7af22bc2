-- ===== src/Common/Text.antt =====
-- Go strings as lists of bytes, and the functions of package strings that the code calls.
use Prim.Native.Nat.{ℕ, suc}
use Prim.Native.Char.{code}
use Prim.Native.String.{String}
use mathlib.Core.Path.{◌≡◌, refl, ap, ◌∙◌}
use mathlib.Core.Logic.{◌↔◌, ◌≢◌, inl, inr}
use mathlib.Core.Bool.{Bool, true, false, ◌&&◌}
use mathlib.Core.Option
use mathlib.Core.Option.{Option, none, some}
use mathlib.Core.List.{List, [], ◌∷◌, ◌++◌}
use native.Mathlib.Omega.{arith}
use selftracked.Common.Tests.{
  Equality, nat_eq, nat_beq, nat_beq_iff, if◌then◌else◌, Option-cases, Bool-cases,
}
use selftracked.Common.Lists.{Lacks, length, length-append}

abbrev pub Text : Type 0
Text = List ℕ

-- The bytes of an ASCII literal.
abbrev pub codes : String → Text
codes String.[] = []
codes (String.◌∷◌ c s) = code c ∷ codes s

unfoldable pub text_beq : Text → Text → Bool
text_beq [] [] = true
text_beq (a ∷ s) (b ∷ t) = nat_beq a b && text_beq s t
text_beq _ _ = false

pub text_beq_iff : (s t : Text) → (text_beq s t ≡ true) ↔ (s ≡ t)
unfolding text_beq
text_beq_iff [] [] = ground arith
text_beq_iff [] (b ∷ t) = ground arith
text_beq_iff (a ∷ s) [] = ground arith
text_beq_iff (a ∷ s) (b ∷ t) = ground (arith, text_beq_iff s t)

pub text_beq_refl : (s : Text) → text_beq s s ≡ true
text_beq_refl s = (text_beq_iff s s).1 refl

instance abbrev pub text_eq : Equality Text
text_eq = record { same = text_beq; decides = text_beq_iff }

-- strings.CutPrefix(s, p); strings.HasPrefix is whether it finds one.
unfoldable pub cut_prefix : Text → Text → Option Text
cut_prefix s [] = some s
cut_prefix [] (b ∷ p) = none
cut_prefix (a ∷ s) (b ∷ p) = if nat_beq a b then cut_prefix s p else none

pub cut_prefix-append : (p s : Text) → cut_prefix (p ++ s) p ≡ some s
unfolding cut_prefix
cut_prefix-append [] [] = refl
cut_prefix-append [] (_ ∷ _) = refl
cut_prefix-append (b ∷ p) s = ground (arith, cut_prefix-append p s)

pub cut_prefix-nil : (s : Text) → cut_prefix s [] ≡ some s
unfolding cut_prefix
cut_prefix-nil [] = refl
cut_prefix-nil (c ∷ s) = refl

pub cut_prefix-eq : (s p r : Text) → cut_prefix s p ≡ some r → s ≡ p ++ r
unfolding cut_prefix
cut_prefix-eq [] [] r h = ground arith
cut_prefix-eq (a ∷ s) [] r h = ground arith
cut_prefix-eq [] (b ∷ p) r h = ground arith
cut_prefix-eq (a ∷ s) (b ∷ p) r h = ground (arith, cut_prefix-eq s p r)

-- strings.CutSuffix(s, p).
unfoldable pub cut_suffix : Text → Text → Option Text
cut_suffix [] p = if text_beq [] p then some [] else none
cut_suffix (c ∷ s) p =
    if text_beq (c ∷ s) p then some [] else Option.map (λ r. c ∷ r) (cut_suffix s p)

pub cut_suffix-eq : (s p r : Text) → cut_suffix s p ≡ some r → s ≡ r ++ p
unfolding cut_suffix
cut_suffix-eq [] p r h = ground (arith, text_beq_iff [] p)
cut_suffix-eq (c ∷ s) p r h = elim (Option-cases (cut_suffix s p)) [
  | inl n ↦ ground (arith, text_beq_iff (c ∷ s) p)
  | inr (t, e) ↦ ground (arith, text_beq_iff (c ∷ s) p, cut_suffix-eq s p t e)
]

-- strings.Cut(s, sep), at the first place where `sep` begins.
unfoldable pub cut : Text → Text → Option (Text × Text)
cut [] sep = if text_beq [] sep then some ([], []) else none
cut (c ∷ s) sep = elim (cut_prefix (c ∷ s) sep) [
  | some r ↦ some ([], r)
  | none ↦ Option.map (λ (a, b). (c ∷ a, b)) (cut s sep)
]

pub cut-eq : (s sep a b : Text) → cut s sep ≡ some (a, b) → s ≡ a ++ (sep ++ b)
unfolding cut
cut-eq [] sep a b h = ground (arith, text_beq_iff [] sep)
cut-eq (c ∷ s) sep a b h = elim (Option-cases (cut_prefix (c ∷ s) sep)) [
  | inr (r, e) ↦ ground (arith, cut_prefix-eq (c ∷ s) sep r)
  | inl n ↦ elim (Option-cases (cut s sep)) [
    | inl m ↦ ground arith
    | inr ((x, y), e) ↦ ground (arith, cut-eq s sep x y)
  ]
]

-- A separator whose first byte is not in `a` is found behind `a`.
pub cut-Lacks : (h : ℕ) (a t b : Text) → Lacks h a → cut (a ++ (h ∷ (t ++ b))) (h ∷ t) ≡ some (a, b)
unfolding cut
cut-Lacks h [] t b l = ground (arith, cut_prefix-append (h ∷ t) b)
cut-Lacks h (c ∷ a) t b l =
    let e : cut_prefix (c ∷ (a ++ (h ∷ (t ++ b)))) (h ∷ t) ≡ none =
      unfold cut_prefix in ground arith in
    rw (e, cut) (ground (arith, cut-Lacks h a t b))

-- A separator of one byte that is nowhere in the text.
pub cut-none : (s : Text) (h : ℕ) → Lacks h s → cut s (h ∷ []) ≡ none
unfolding cut
cut-none [] h l = unfold text_beq in refl
cut-none (c ∷ s) h l =
    let e : cut_prefix (c ∷ s) (h ∷ []) ≡ none = unfold cut_prefix in ground arith in
    rw (e, cut) (rw (cut-none s h l.1))

-- What stands in front of the first separator of one byte does not hold it.
pub cut-some-Lacks : (s : Text) (h : ℕ) (a b : Text) → cut s (h ∷ []) ≡ some (a, b) → Lacks h a
unfolding cut
cut-some-Lacks [] h a b e = unfold text_beq in cc
cut-some-Lacks (c ∷ s) h a b e = elim (Bool-cases (nat_beq c h)) [
  | inl q ↦
      let w : cut_prefix (c ∷ s) (h ∷ []) ≡ some s = unfold cut_prefix in rw q (cut_prefix-nil s) in
      let v : a ≡ [] = ground (arith) in rw v tt
  | inr q ↦
      let w : cut_prefix (c ∷ s) (h ∷ []) ≡ none = unfold cut_prefix in rw q refl in
      elim (Option-cases (cut s (h ∷ []))) [
        | inl n ↦ ground arith
        | inr ((x, y), n) ↦
            let v : a ≡ c ∷ x = ground arith in rw v (ground arith, cut-some-Lacks s h x y n)
      ]
]

pub cut-none-Lacks : (s : Text) (h : ℕ) → cut s (h ∷ []) ≡ none → Lacks h s
unfolding cut
cut-none-Lacks [] h e = tt
cut-none-Lacks (c ∷ s) h e = elim (Bool-cases (nat_beq c h)) [
  | inl q ↦
      let w : cut_prefix (c ∷ s) (h ∷ []) ≡ some s = unfold cut_prefix in rw q (cut_prefix-nil s) in
      absurd (ground arith)
  | inr q ↦
      let w : cut_prefix (c ∷ s) (h ∷ []) ≡ none = unfold cut_prefix in rw q refl in
      elim (Option-cases (cut s (h ∷ []))) [
        | inl n ↦ (ground arith, cut-none-Lacks s h n)
        | inr ((x, y), n) ↦ absurd (ground arith)
      ]
]

longer-ne : (c : ℕ) (a p : Text) → c ∷ (a ++ p) ≢ p
longer-ne c a p e = omega (arith, length-append {0} a p, ap (length {0}) e)

pub cut_suffix-append : (a p : Text) → cut_suffix (a ++ p) p ≡ some a
unfolding cut_suffix
cut_suffix-append [] [] = ground (arith, text_beq_iff [] [])
cut_suffix-append [] (c ∷ p) = ground (arith, text_beq_iff (c ∷ p) (c ∷ p))
cut_suffix-append (c ∷ a) p =
    ground (arith, text_beq_iff (c ∷ (a ++ p)) p, longer-ne c a p, cut_suffix-append a p)

-- strings.Split(s, sep) for a separator of one byte.
push : ℕ → List Text → List Text
push c [] = (c ∷ []) ∷ []
push c (p ∷ ps) = (c ∷ p) ∷ ps

unfoldable pub split : Text → ℕ → List Text
unfolding push
split [] sep = [] ∷ []
split (c ∷ s) sep = let rest = split s sep in if nat_beq c sep then [] ∷ rest else push c rest

pub split-Lacks :
    (a : Text) (sep : ℕ) (s : Text) → Lacks sep a → split (a ++ (sep ∷ s)) sep ≡ a ∷ split s sep
unfolding split
split-Lacks [] sep s h = ground arith
split-Lacks (c ∷ a) sep s h = rw (split-Lacks a sep s h.1) (ground arith)

-- strings.Join(parts, sep) for a separator of one byte.
unfoldable pub join : List Text → ℕ → Text
join [] sep = []
join (p ∷ []) sep = p
join (p ∷ q ∷ ps) sep = p ++ (sep ∷ join (q ∷ ps) sep)

join-push : (c sep : ℕ) (ps : List Text) → ps ≢ [] → join (push c ps) sep ≡ c ∷ join ps sep
unfolding join push
join-push c sep [] h = absurd (h refl)
join-push c sep (p ∷ []) h = refl
join-push c sep (p ∷ q ∷ ps) h = refl

join-nil : (sep : ℕ) (ps : List Text) → ps ≢ [] → join ([] ∷ ps) sep ≡ sep ∷ join ps sep
unfolding join
join-nil sep [] h = absurd (h refl)
join-nil sep (p ∷ ps) h = refl

push-ne-nil : (c : ℕ) (ps : List Text) → push c ps ≢ []
unfolding push
push-ne-nil c [] = ground arith
push-ne-nil c (p ∷ ps) = ground arith

split-ne-nil : (s : Text) (sep : ℕ) → split s sep ≢ []
unfolding split
split-ne-nil [] sep = ground arith
split-ne-nil (c ∷ s) sep = ground (arith, push-ne-nil c (split s sep))

-- The pieces of a text, by its first byte.
pub split-cons :
    (c : ℕ) (s : Text) (sep : ℕ)
    → (p : Text) × (ps : List Text) × (split s sep ≡ p ∷ ps)
      × (split (c ∷ s) sep ≡ (if nat_beq c sep then [] ∷ p ∷ ps else (c ∷ p) ∷ ps))
unfolding split push
split-cons c s sep = by_pieces (split s sep) (split-ne-nil s sep)
  where
    by_pieces :
        (rest : List Text)
        → rest ≢ []
        → (p : Text) × (ps : List Text) × (rest ≡ p ∷ ps)
          × ((if nat_beq c sep then [] ∷ rest else push c rest)
              ≡ (if nat_beq c sep then [] ∷ p ∷ ps else (c ∷ p) ∷ ps))
    by_pieces [] h = absurd (h refl)
    by_pieces (p ∷ ps) h = (p, ps, refl, refl)

pub join-split : (s : Text) (sep : ℕ) → join (split s sep) sep ≡ s
unfolding join split
join-split [] sep = refl
join-split (c ∷ s) sep = elim (Bool-cases (nat_beq c sep)) [
  | inl e ↦ rw e (
      cc (
        join-nil sep (split s sep) (split-ne-nil s sep),
        join-split s sep,
        (nat_beq_iff c sep).0 e,
      ))
  | inr e ↦
      rw e (join-push c sep (split s sep) (split-ne-nil s sep) ∙ ap (λ r. c ∷ r) (join-split s sep))
]

-- strings.Join(parts, sep)
unfoldable pub join_with : Text → List Text → Text
join_with sep [] = []
join_with sep (p ∷ []) = p
join_with sep (p ∷ q ∷ ps) = p ++ (sep ++ join_with sep (q ∷ ps))

-- strings.Count(s, sep) for a separator of one byte.
unfoldable pub count_byte : ℕ → Text → ℕ
count_byte b [] = 0
count_byte b (c ∷ s) = if nat_beq c b then suc (count_byte b s) else count_byte b s
