-- ===== src/Ref/Tests.antt =====
-- Runs of the theorems on internal/ref/ref.go at concrete references.
use selftracked.Common.{◌≡◌, refl, arith, ok}
use selftracked.Common.Text.{Text, codes, text_beq}
use selftracked.Ref.{Ref, task, artifact, parse, parse_task, canonical_entity}
use selftracked.Ref.RoundTrip.{IsRef, parse-canonical_entity, parse-format_nat}
use selftracked.Ref.Accepted.{parse_sound, parse_no_colon}
use selftracked.Decimal.{format_nat, parse_int, parse_uint, scan, in_range}

abbrev notes : Ref
notes = artifact (codes "note") (codes "home") (codes "a/b:c.md")

notes-IsRef : IsRef notes
notes-IsRef = ground arith

parse-canonical_entity_example : parse (canonical_entity notes) ≡ ok notes
parse-canonical_entity_example = parse-canonical_entity notes notes-IsRef

abbrev padded : Text
padded = codes "#007"

padded_read : parse padded ≡ ok (task 7)
unfolding parse text_beq parse_task parse_int parse_uint scan in_range
padded_read = refl

parse_sound_example : IsRef (task 7) × (parse (canonical_entity (task 7)) ≡ ok (task 7))
parse_sound_example = parse_sound padded (task 7) padded_read

parse_no_colon_example : (n : _) × (task 7 ≡ task n)
parse_no_colon_example = parse_no_colon padded (task 7) (omega arith) padded_read

parse-format_nat_example : parse (format_nat 31) ≡ ok (task 31)
parse-format_nat_example = parse-format_nat 31 (omega arith) (omega arith)
