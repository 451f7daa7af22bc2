-- ===== src/Load/Document/Headers.antt =====
-- `HeaderVersion` of internal/dump/serialize.go against the preamble of internal/load/parse.go.
use selftracked.Common.{
  ℕ, zero, suc, ◌≡◌, refl, sym, ap, ◌∙◌, true, false, List, [], ◌∷◌, ◌++◌, Option, none, some, ok,
  Option-cases, inl, inr, ok-injective, Lacks,
}
use selftracked.Common.Int.{ℤ, pos, negsuc}
use selftracked.Common.Text.{Text, codes, cut_prefix, cut_prefix-eq, cut_prefix-append}
use selftracked.Common.Words.{fields}
use selftracked.Decimal.{parse_int}
use selftracked.Dump.Header.{positive, version_field, header_version_of}
use selftracked.Load.{Dump}
use selftracked.Load.Document.{
  Binary, parse, header_version, version_of, has_prefix, trim_prefix, header_prefix, dump_prefix,
}
use selftracked.Load.Document.Accepted.{parse-IsDump}

positive-version_of : (o : Option ℤ) (v : ℕ) → version_of o ≡ ok v → positive o ≡ some v
unfolding version_of positive
positive-version_of none v h = cc
positive-version_of (some (pos zero)) v h = cc
positive-version_of (some (pos (suc n))) v h = ap some (ok-injective h)
positive-version_of (some (negsuc n)) v h = cc

version_field-header_version :
    (fs : List Text) (v : ℕ) → header_version fs ≡ ok v → version_field fs ≡ some v
unfolding header_version version_field
version_field-header_version [] v h = cc
version_field-header_version (f ∷ fs) v h =
    elim (Option-cases (cut_prefix f (codes "schema_version="))) [
      | inl e ↦
          let k : header_version (f ∷ fs) ≡ header_version fs = rw (e, header_version) refl in
          rw (e, version_field) (version_field-header_version fs v (sym k ∙ h))
      | inr (raw, e) ↦
          let k : header_version (f ∷ fs) ≡ version_of (parse_int raw) =
            rw (e, header_version) refl in
          rw (e, version_field) (positive-version_of (parse_int raw) v (sym k ∙ h))
    ]

prefixed-parts : (s p : Text) → has_prefix s p ≡ true → (r : Text) × (s ≡ p ++ r)
unfolding has_prefix
prefixed-parts s p h = elim (Option-cases (cut_prefix s p)) [
  | inl e ↦ let k : has_prefix s p ≡ false = rw (e, has_prefix) refl in cc
  | inr (r, e) ↦ (r, cut_prefix-eq s p r e)
]

trimmed : (s p r : Text) → s ≡ p ++ r → (cut_prefix s p ≡ some r) × (trim_prefix s p ≡ r)
unfolding trim_prefix
trimmed s p r e =
    let k : cut_prefix s p ≡ some r = rw e (cut_prefix-append p r) in (k, rw (k, trim_prefix) refl)

header_version_of-trimmed :
    (s r : Text)
    → cut_prefix s dump_prefix ≡ some r
    → header_version_of s ≡ version_field (fields r)
unfolding header_version_of
header_version_of-trimmed s r e = rw (e, header_version_of) refl

-- The first line of a text that the loader accepts as a dump, up to the first line feed, is one in
-- which HeaderVersion finds the version that the loader read.
pub header_version_of-parse :
    (b : Binary) (s : Text) (d : Dump)
    → parse b s ≡ ok d
    → (header : Text) × (rest : Text) × Lacks b'\n' header
      × (s ≡ header ++ (b'\n' ∷ rest))
      × (header_version_of header ≡ some d.version)
header_version_of-parse b s d e =
    let is = parse-IsDump b s d e in
    let (r, parts) = prefixed-parts is.header header_prefix is.prefixed in
    let (cut, trim) = trimmed is.header dump_prefix (codes "schema_version=" ++ r) parts in
    (
      is.header,
      is.grammar.ddl ++ is.body,
      is.one_line,
      is.spelled,
      header_version_of-trimmed is.header _ cut
          ∙ version_field-header_version (fields (codes "schema_version=" ++ r)) d.version
              (sym (ap (λ z. header_version (fields z)) trim) ∙ is.versioned),
    )
