-- ===== src/Ref/RoundTrip.antt =====
-- What `parse` accepts, and that the printed forms are read back.
use mathlib.Core.List.{cons-ne-nil}
use selftracked.Common.{
  ℕ, zero, suc, ◌<◌, ◌^◌, ◌≡◌, ◌≢◌, refl, sym, ◌∙◌, subst, Bool, true, false, [], ◌∷◌, ◌++◌,
  append_assoc, Option, none, some, nat_beq, ◌==◌, if◌then◌else◌, ok, All-append, Lacks, arith,
  Bool-cases, Option-cases, inl, inr,
}
use selftracked.Common.Int.{ℤ, pos}
use selftracked.Common.Text.{Text, text_beq_refl, text_beq_iff, text_eq, cut-Lacks, cut-none}
use selftracked.Decimal.{
  scan, scan-cons, parse_uint, in_range, parse_int, format_nat, HeadDigit, HeadDigit-ne-nil,
  format_nat-HeadDigit, HeadDigit-ne-nil, parse_int-format_nat,
}
use selftracked.Ref.{
  Ref, task, epic, story, artifact, epic_word, trim_hash, has_hash, parse_task, parse_artifact,
  valid_story_id, parse_epic_or_story, parse_colon, parse, task_ref, epic_entity, story_entity,
  artifact_entity, canonical_entity,
}

-- The references that the grammar can name.
abbrev pub IsRef : Ref → Type 0
IsRef (task n) = (0 < n) × (n < 2 ^ 63)
IsRef (epic slug) = (slug ≢ []) × Lacks b'/' slug
IsRef (story slug sid) = (slug ≢ []) × Lacks b'/' slug × (valid_story_id sid ≡ true)
IsRef (artifact class scope rel) =
    (class ≢ [])
    × (class ≢ epic_word)
    × Lacks b':' class
    × Lacks b'@' class
    × (has_hash class ≡ false)
    × Lacks b':' scope
    × (rel ≢ [])

scan-Lacks : (s : Text) (a v : ℕ) → scan s a ≡ some v → Lacks b':' s
scan-Lacks [] a v e = tt
scan-Lacks (c ∷ s) a v e = let (d, r) = scan-cons c s a v e in (ground arith, scan-Lacks s _ v r)

parse_uint-Lacks : (s : Text) (v : ℕ) → parse_uint s ≡ some v → Lacks b':' s
parse_uint-Lacks [] v e = tt
parse_uint-Lacks (c ∷ s) v e = scan-Lacks (c ∷ s) 0 v (unfold parse_uint in e)

in_range-some : (b : Bool) (o : Option ℕ) (i : ℤ) → in_range b o ≡ some i → (v : ℕ) × (o ≡ some v)
unfolding in_range
in_range-some true none i e = cc
in_range-some false none i e = cc
in_range-some b (some v) i e = (v, refl)

ranged-Lacks : (b : Bool) (s : Text) (i : ℤ) → in_range b (parse_uint s) ≡ some i → Lacks b':' s
ranged-Lacks b s i e = let (v, p) = in_range-some b (parse_uint s) i e in parse_uint-Lacks s v p

-- A text with a colon is no number.
parse_int-Lacks : (s : Text) (i : ℤ) → parse_int s ≡ some i → Lacks b':' s
unfolding parse_int
parse_int-Lacks [] i e = tt
parse_int-Lacks (c ∷ s) i e = elim (Bool-cases (nat_beq c b'-')) [
  | inl m ↦ (ground arith, ranged-Lacks true s i (rw m at e))
  | inr m ↦ elim (Bool-cases (nat_beq c b'+')) [
    | inl p ↦ (ground arith, ranged-Lacks false s i (rw (m, p) at e))
    | inr p ↦ ranged-Lacks false (c ∷ s) i (rw (m, p) at e)
  ]
]

Lacks-not : (h : ℕ) (a r : Text) → Lacks h (a ++ (h ∷ r)) → ⊥
Lacks-not h [] r l = l.0 refl
Lacks-not h (c ∷ a) r l = Lacks-not h a r l.1

parse_task_colon :
    (c : ℕ) (a r : Text) → nat_beq c b'#' ≡ false → parse_task (c ∷ (a ++ (b':' ∷ r))) ≡ none
unfolding parse_task
parse_task_colon c a r h = elim (Option-cases (parse_int (c ∷ (a ++ (b':' ∷ r))))) [
  | inl n ↦ ground arith
  | inr (i, e) ↦ absurd (Lacks-not b':' (c ∷ a) r (parse_int-Lacks (c ∷ (a ++ (b':' ∷ r))) i e))
]

parse_colon-append :
    (a r : Text)
    → a ≢ []
    → Lacks b':' a
    → r ≢ []
    → parse_colon (a ++ (b':' ∷ r))
      ≡ (if a == epic_word then parse_epic_or_story r else parse_artifact a r)
unfolding parse_colon
parse_colon-append a r h l k =
    rw (cut-Lacks b':' a [] r l, parse_colon) (ground (arith, text_beq_iff a [], text_beq_iff r []))

-- A token with a colon behind something that is neither `#` nor empty is read by the colon grammar.
parse-append :
    (a r : Text)
    → a ≢ []
    → has_hash a ≡ false
    → Lacks b':' a
    → r ≢ []
    → parse (a ++ (b':' ∷ r))
      ≡ (if a == epic_word then parse_epic_or_story r else parse_artifact a r)
unfolding parse
parse-append [] r h q l k = absurd (h refl)
parse-append (c ∷ a) r h q l k =
    rw (parse_task_colon c a r q)
      (ground (arith, text_beq_iff (c ∷ (a ++ (b':' ∷ r))) [], parse_colon-append (c ∷ a) r h l k))

-- `#NN` and the bare number both name the task.
parse_task_of :
    (s : Text) (n : ℕ)
    → s ≢ []
    → 0 < n
    → parse_int (trim_hash s) ≡ some (pos n)
    → parse s ≡ ok (task n)
unfolding parse parse_task
parse_task_of s zero h p e = absurd (omega arith)
parse_task_of s (suc n) h p e = rw e (ground (arith, text_beq_iff s []))

HeadDigit-trim_hash : (n : ℕ) (s : Text) → HeadDigit n s → trim_hash s ≡ s
HeadDigit-trim_hash n [] h = absurd h
HeadDigit-trim_hash n (c ∷ s) (d, z, t) = ground arith

parse-task_ref : (n : ℕ) → 0 < n → n < 2 ^ 63 → parse (task_ref n) ≡ ok (task n)
unfolding task_ref
parse-task_ref n h k =
    parse_task_of (b'#' ∷ format_nat n) n (cons-ne-nil _ _) h (parse_int-format_nat n k)

-- A positive int64, printed in decimal without a hash, is read as the task of that number.
pub parse-format_nat : (n : ℕ) → 0 < n → n < 2 ^ 63 → parse (format_nat n) ≡ ok (task n)
parse-format_nat n h k =
    parse_task_of (format_nat n) n (HeadDigit-ne-nil n _ (format_nat-HeadDigit n)) h
      (rw (HeadDigit-trim_hash n _ (format_nat-HeadDigit n)) (parse_int-format_nat n k))

append-ne-nil : (a : Text) (c : ℕ) (b : Text) → a ++ (c ∷ b) ≢ []
append-ne-nil [] c b = cons-ne-nil c b
append-ne-nil (x ∷ a) c b = cons-ne-nil x (a ++ (c ∷ b))

-- Behind `epic:` the slug and the story are read.
parse_epic_word : (rest : Text) → rest ≢ [] → parse (epic_entity rest) ≡ parse_epic_or_story rest
unfolding epic_entity
parse_epic_word rest h =
    parse-append epic_word rest (cons-ne-nil _ _) refl (omega arith) h
    ∙ rw (text_beq_refl epic_word)

parse-epic_entity : (slug : Text) → IsRef (epic slug) → parse (epic_entity slug) ≡ ok (epic slug)
parse-epic_entity slug h =
    parse_epic_word slug h.0
    ∙ unfold parse_epic_or_story in
      rw (cut-none slug b'/' h.1, parse_epic_or_story) (ground (arith, text_beq_iff slug []))

parse-story_entity :
    (slug sid : Text) → IsRef (story slug sid) → parse (story_entity slug sid) ≡ ok (story slug sid)
unfolding story_entity
parse-story_entity slug sid h =
    parse_epic_word (slug ++ (b'/' ∷ sid)) (append-ne-nil slug b'/' sid)
    ∙ unfold parse_epic_or_story in
      rw (cut-Lacks b'/' slug [] sid h.1, parse_epic_or_story)
        (ground (arith, text_beq_iff slug []))

has_hash-append : (a b : Text) → a ≢ [] → has_hash (a ++ b) ≡ has_hash a
has_hash-append [] b h = absurd (h refl)
has_hash-append (c ∷ a) b h = refl

scoped-ne-epic : (class scope : Text) → class ++ (b'@' ∷ scope) ≢ epic_word
scoped-ne-epic class scope e =
    let l : Lacks b'@' epic_word = omega arith in
    Lacks-not b'@' class scope (subst (Lacks b'@') (sym e) l)

scoped_artifact :
    (class scope rel : Text)
    → class ≢ []
    → class ≢ epic_word
    → Lacks b'@' class
    → scope ≢ []
    → parse_artifact (class ++ (b'@' ∷ scope)) rel ≡ ok (artifact class scope rel)
unfolding parse_artifact
scoped_artifact class scope rel full plain at named =
    rw (cut-Lacks b'@' class [] scope at, parse_artifact)
      (ground (arith, text_beq_iff class [], text_beq_iff scope [], text_beq_iff class epic_word))

parse-artifact_entity :
    (class scope rel : Text)
    → IsRef (artifact class scope rel)
    → parse (artifact_entity class scope rel) ≡ ok (artifact class scope rel)
parse-artifact_entity class [] rel (full, plain, colon, at, hash, _, named) =
    unfold artifact_entity in
    rw (text_beq_refl []) (
      parse-append class rel full hash colon named
      ∙ unfold parse_artifact in
        rw (cut-none class b'@' at, parse_artifact) (ground (arith, text_beq_iff class epic_word)))
parse-artifact_entity class (c ∷ scope) rel (full, plain, colon, at, hash, sc, named) =
    let head = class ++ (b'@' ∷ c ∷ scope) in
    let lacks : Lacks b':' head =
      All-append (λ x. x ≢ b':') class (b'@' ∷ c ∷ scope) colon ((λ e. omega arith), sc) in
    let unhashed : has_hash head ≡ false = has_hash-append class (b'@' ∷ c ∷ scope) full ∙ hash in
    let read = parse-append head rel (append-ne-nil class b'@' (c ∷ scope)) unhashed lacks named in
    unfold artifact_entity in
    ground (
      arith,
      read,
      scoped-ne-epic class (c ∷ scope),
      append_assoc class (b'@' ∷ c ∷ scope) (b':' ∷ rel),
      text_beq_iff (c ∷ scope) [],
      text_beq_iff head epic_word,
      scoped_artifact class (c ∷ scope) rel full plain at (cons-ne-nil c scope),
    )

-- Every reference that the grammar can name is read back from the canonical form in which the verbs
-- store it.
pub parse-canonical_entity : (r : Ref) → IsRef r → parse (canonical_entity r) ≡ ok r
unfolding canonical_entity
parse-canonical_entity (task n) h = parse-task_ref n h.0 h.1
parse-canonical_entity (epic slug) h = parse-epic_entity slug h
parse-canonical_entity (story slug sid) h = parse-story_entity slug sid h
parse-canonical_entity (artifact class scope rel) h = parse-artifact_entity class scope rel h
