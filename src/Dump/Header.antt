-- ===== src/Dump/Header.antt =====
-- internal/dump/serialize.go: `HeaderVersion`, the version that the readers of a header see.
use selftracked.Common.{ℕ, suc, List, [], ◌∷◌, Option, none, some}
use selftracked.Common.Int.{ℤ, pos}
use selftracked.Common.Text.{Text, codes, cut_prefix}
use selftracked.Common.Words.{fields}
use selftracked.Decimal.{parse_int}

unfoldable pub positive : Option ℤ → Option ℕ
positive (some (pos (suc n))) = some (suc n)
positive _ = none

-- The loop over the fields: the first with the key decides.
unfoldable pub version_field : List Text → Option ℕ
version_field [] = none
version_field (f ∷ fs) = elim (cut_prefix f (codes "schema_version=")) [
  | some raw ↦ positive (parse_int raw)
  | none ↦ version_field fs
]

-- `HeaderVersion`
unfoldable pub header_version_of : Text → Option ℕ
header_version_of header = elim (cut_prefix header (codes "-- selftracked dump ")) [
  | none ↦ none
  | some rest ↦ version_field (fields rest)
]
