-- ===== src/Common/Words.antt =====
-- strings.Fields: the words of a text, parted by white space as unicode.IsSpace has it, on UTF-8 bytes.
use Prim.Native.Nat.{ℕ, zero, suc, ◌<◌}
use mathlib.Core.Path.{◌≡◌, refl, ap, ◌∙◌}
use mathlib.Core.Bool.{Bool, false, ◌&&◌, ◌||◌}
use mathlib.Core.List.{List, [], ◌∷◌, ◌++◌, append_assoc, append-nil}
use native.Mathlib.Omega.{arith}
use selftracked.Common.Tests.{leb, nat_beq, if◌then◌else◌}
use selftracked.Common.Text.{Text}
use selftracked.Common.Lists.{All}

-- The ASCII spaces.
abbrev pub is_space : ℕ → Bool
is_space c = (leb 9 c && leb c 13) || nat_beq c 32

-- How many bytes of white space the text begins with, for one character: U+0085 and U+00A0 are two
-- bytes long; U+1680, U+2000 to U+200A, U+2028, U+2029, U+202F, U+205F and U+3000 three.
unfoldable pub space_len : Text → ℕ
space_len [] = 0
space_len (c ∷ []) = if is_space c then 1 else 0
space_len (c ∷ d ∷ []) =
    if is_space c then 1 else if nat_beq c 0xc2 && (nat_beq d 0x85 || nat_beq d 0xa0) then 2 else 0
space_len (c ∷ d ∷ e ∷ s) =
    if is_space c
    then 1
    else if nat_beq c 0xc2 && (nat_beq d 0x85 || nat_beq d 0xa0)
    then 2
    else if nat_beq c 0xe1 && nat_beq d 0x9a && nat_beq e 0x80
    then 3
    else if nat_beq c 0xe2
        && nat_beq d 0x80
        && ((leb 0x80 e && leb e 0x8a) || nat_beq e 0xa8 || nat_beq e 0xa9 || nat_beq e 0xaf)
    then 3
    else if nat_beq c 0xe2 && nat_beq d 0x81 && nat_beq e 0x9f
    then 3
    else if nat_beq c 0xe3 && nat_beq d 0x80 && nat_beq e 0x80
    then 3
    else 0

-- A word in front of the rest, if there is one.
emit : Text → List Text → List Text
emit [] rest = rest
emit (c ∷ s) rest = (c ∷ s) ∷ rest

-- `k` is how many bytes of the white space at hand are left, `cur` the word so far.
fields_from : Text → ℕ → Text → List Text
unfolding space_len emit
fields_from [] k cur = emit cur []
fields_from (c ∷ s) (suc k) cur = fields_from s k cur
fields_from (c ∷ s) zero cur = elim (space_len (c ∷ s)) [
  | zero ↦ fields_from s zero (cur ++ (c ∷ []))
  | suc k ↦ emit cur (fields_from s k [])
]

unfoldable pub fields : Text → List Text
unfolding fields_from
fields s = fields_from s zero []

-- A byte of a word: ASCII, and no space.
abbrev pub IsWord : ℕ → Type 0
IsWord c = (is_space c ≡ false) × (c < 128)

space_len-IsWord : (c : ℕ) (s : Text) → IsWord c → space_len (c ∷ s) ≡ 0
unfolding space_len
space_len-IsWord c [] h = ground arith
space_len-IsWord c (d ∷ []) h = ground arith
space_len-IsWord c (d ∷ e ∷ s) h = ground arith

fields_from-append :
    (w s cur : Text) → All IsWord w → fields_from (w ++ s) zero cur ≡ fields_from s zero (cur ++ w)
unfolding fields_from
fields_from-append [] s cur h = rw append-nil
fields_from-append (c ∷ w) s cur h =
    rw (space_len-IsWord c (w ++ s) h.0, fields_from)
      (fields_from-append w s (cur ++ (c ∷ [])) h.1
        ∙ ap (fields_from s zero) (append_assoc cur (c ∷ []) w))

space_len_space : (s : Text) → space_len (b' ' ∷ s) ≡ 1
unfolding space_len
space_len_space [] = refl
space_len_space (d ∷ []) = refl
space_len_space (d ∷ e ∷ s) = refl

-- A word and a space behind it are the first field.
pub fields-cons :
    (c : ℕ) (w s : Text) → All IsWord (c ∷ w) → fields ((c ∷ w) ++ (b' ' ∷ s)) ≡ (c ∷ w) ∷ fields s
unfolding fields
fields-cons c w s h =
    fields_from-append (c ∷ w) (b' ' ∷ s) [] h ∙ rw (space_len_space s, fields_from)
