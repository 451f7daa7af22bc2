-- ===== src/Load/Document/Accepted.antt =====
-- What `Parse` of internal/load/parse.go accepts, taken as a whole text.
use selftracked.Common.{
  ℕ, ◌≡◌, refl, ap, subst, ◌∙◌, true, List, [], ◌∷◌, ◌++◌, append_assoc, some, ltb, ok, arith,
  found, bind-eq-ok, or_err-eq-ok, guard-eq-ok, ok-injective, inl, inr, ◌⊎◌, not, ◌≤◌, Lacks,
}
use selftracked.Common.Text.{
  Text, split, join, join-split, cut, cut-eq, cut-some-Lacks, cut_prefix, cut_prefix-eq,
}
use selftracked.Common.Words.{fields}
use selftracked.Load.{Insert, Dump, Columns, parse_insert, data_lines}
use selftracked.Load.Inserts.{IsLine, parse_insert_sound}
use selftracked.Load.Document.{
  Binary, Grammar, grammar_for, header_version, has_prefix, trim_prefix, header_prefix, dump_prefix,
  parse_preamble, parse,
}

-- Each of the lines closed by a line feed.
unfoldable pub unlines : List Text → Text
unlines [] = []
unlines (l ∷ ls) = l ++ (b'\n' ∷ unlines ls)

-- The lines are the serializer's statements for the rows, one by one.
abbrev pub AreLines : Columns → List Text → List Insert → Type 0
AreLines columns [] [] = Unit
AreLines columns [] (i ∷ is) = ⊥
AreLines columns (l ∷ ls) [] = ⊥
AreLines columns (l ∷ ls) (i ∷ is) = IsLine columns l i × AreLines columns ls is

-- The body is the statements; the line feed of the last one may be missing.
pub record IsBody (columns : Columns) (body : Text) (inserts : List Insert) : Type 0 where
  pub lines : List Text
  pub spelled : AreLines columns lines inserts
  pub closed : (body ≡ unlines lines) ⊎ (body ++ (b'\n' ∷ []) ≡ unlines lines)

closed_cons :
    (l rest body : Text) (ls : List Text)
    → (body ≡ unlines ls) ⊎ (body ++ (b'\n' ∷ []) ≡ unlines ls)
    → (l ++ (b'\n' ∷ body) ≡ unlines (l ∷ ls))
      ⊎ ((l ++ (b'\n' ∷ body)) ++ (b'\n' ∷ []) ≡ unlines (l ∷ ls))
unfolding unlines
closed_cons l rest body ls (inl e) = inl (rw e refl)
closed_cons l rest body ls (inr e) =
    inr (append_assoc l (b'\n' ∷ body) (b'\n' ∷ []) ∙ ap (λ z. l ++ (b'\n' ∷ z)) e)

data_lines_sound :
    (columns : Columns) (ls : List Text) (inserts : List Insert)
    → data_lines columns ls ≡ ok inserts
    → IsBody columns (join ls b'\n') inserts
unfolding data_lines join
data_lines_sound columns [] inserts e =
    subst (IsBody columns []) (ok-injective e)
      (record { lines = []; spelled = tt; closed = inl (unfold unlines in refl) })
data_lines_sound columns ([] ∷ []) inserts e =
    subst (IsBody columns []) (ok-injective e)
      (record { lines = []; spelled = tt; closed = inl (unfold unlines in refl) })
data_lines_sound columns ([] ∷ l ∷ ls) inserts e = cc
data_lines_sound columns ((c ∷ s) ∷ []) inserts e =
    elim (bind-eq-ok (parse_insert (c ∷ s) columns) _ inserts e) [
      | found i p e1 ↦ subst (IsBody columns (c ∷ s)) (ok-injective e1) (record {
        lines = (c ∷ s) ∷ [];
        spelled = (parse_insert_sound columns (c ∷ s) i p, tt);
        closed = inr (unfold unlines in refl);
      })
    ]
data_lines_sound columns ((c ∷ s) ∷ l ∷ ls) inserts e =
    elim (bind-eq-ok (parse_insert (c ∷ s) columns) _ inserts e) [
      | found i p e1 ↦ elim (bind-eq-ok (data_lines columns (l ∷ ls)) _ inserts e1) [
        | found is q e2 ↦
            let ih = data_lines_sound columns (l ∷ ls) is q in
            subst (IsBody columns ((c ∷ s) ++ (b'\n' ∷ join (l ∷ ls) b'\n'))) (ok-injective e2)
              (record {
                lines = (c ∷ s) ∷ ih.lines;
                spelled = (parse_insert_sound columns (c ∷ s) i p, ih.spelled);
                closed = closed_cons (c ∷ s) [] (join (l ∷ ls) b'\n') ih.lines ih.closed;
              })
      ]
    ]

-- `s` is a dump of a version that the binary knows, and `d` what it says.
pub record IsDump (b : Binary) (s : Text) (d : Dump) : Type 0 where
  pub header : Text
  pub grammar : Grammar
  pub body : Text
  pub spelled : s ≡ header ++ (b'\n' ∷ (grammar.ddl ++ body))
  pub one_line : Lacks b'\n' header
  pub prefixed : has_prefix header header_prefix ≡ true
  pub versioned : header_version (fields (trim_prefix header dump_prefix)) ≡ ok d.version
  pub not_newer : d.version ≤ b.current
  pub known : grammar_for b d.version ≡ some grammar
  pub statements : IsBody grammar.columns body d.inserts

document_parts :
    (s header rest ddl' ddl body' body : Text)
    → s ≡ header ++ ((b'\n' ∷ []) ++ rest)
    → rest ≡ ddl' ++ body'
    → ddl' ≡ ddl
    → body' ≡ body
    → s ≡ header ++ (b'\n' ∷ (ddl ++ body))
document_parts s header rest ddl' ddl body' body p q d e = cc

within_version :
    (current v version : ℕ) → not (ltb current v) ≡ true → v ≡ version → version ≤ current
within_version current v version h e = ground arith

-- A text that the loader accepts is a header of one line, with the prefix of a dump and a version
-- that the binary knows and that is not newer than its own, a line feed, the DDL of that version
-- byte for byte, and the statements that the serializer writes for the rows that were read, each
-- closed by a line feed, of which only the last may be missing.
pub parse-IsDump : (b : Binary) (s : Text) (d : Dump) → parse b s ≡ ok d → IsDump b s d
unfolding parse parse_preamble
parse-IsDump b s d e = elim (bind-eq-ok (parse_preamble b s) _ d e) [
  | found (version, body) p e0 ↦ elim (or_err-eq-ok (grammar_for b version) _ _ d e0) [
    | found g known e1 ↦ elim (bind-eq-ok (data_lines g.columns (split body b'\n')) _ d e1) [
      | found inserts read e2 ↦ elim (or_err-eq-ok (cut s (b'\n' ∷ [])) _ _ (version, body) p) [
        | found (header, rest) q0 p0 ↦
            elim (guard-eq-ok (has_prefix header header_prefix) _ _ (version, body) p0) [
              | found _ prefixed p1 ↦
                  elim (bind-eq-ok (header_version (fields (trim_prefix header dump_prefix))) _
                    (version, body) p1) [
                      | found v versioned p2 ↦
                          elim (guard-eq-ok (not (ltb b.current v)) _ _ (version, body) p2) [
                            | found _ old p3 ↦
                                elim (or_err-eq-ok (grammar_for b v) _ _ (version, body) p3) [
                                  | found g' known' p4 ↦
                                      elim (or_err-eq-ok (cut_prefix rest g'.ddl) _ _
                                        (version, body) p4) [
                                          | found body' q1 p5 ↦
                                              let one : v ≡ version =
                                                ap (λ r. r.0) (ok-injective p5) in
                                              let same : g' ≡ g = cc in
                                              let parts : s ≡ header ++ (b'\n' ∷ (g.ddl ++ body)) =
                                                document_parts s header rest g'.ddl g.ddl body' body
                                                  (cut-eq s _ header rest q0)
                                                  (cut_prefix-eq rest _ body' q1)
                                                  (ap Grammar.ddl same)
                                                  (ap (λ r. r.1) (ok-injective p5)) in
                                              let lines : IsBody g.columns body inserts =
                                                subst (λ z. IsBody g.columns z inserts)
                                                  (join-split body b'\n')
                                                  (data_lines_sound g.columns (split body b'\n')
                                                    inserts read) in
                                              subst (IsDump b s) (ok-injective e2) (record {
                                                header = header;
                                                grammar = g;
                                                body = body;
                                                spelled = parts;
                                                one_line = cut-some-Lacks s b'\n' header rest q0;
                                                prefixed = prefixed;
                                                versioned = versioned ∙ ap ok one;
                                                not_newer =
                                                    within_version b.current v version old one;
                                                known = known;
                                                statements = lines;
                                              })
                                        ]
                                ]
                          ]
                    ]
            ]
      ]
    ]
  ]
]
