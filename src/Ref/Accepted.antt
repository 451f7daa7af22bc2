-- ===== src/Ref/Accepted.antt =====
-- What `parse` of internal/ref/ref.go accepts is a well-formed reference, and a word without a colon
-- names at most a task.
use selftracked.Common.{
  ℕ, zero, suc, ◌<◌, ◌^◌, ◌≡◌, ◌≢◌, refl, sym, subst, ap, ◌∙◌, ◌⊎◌, Bool, true, false, [], ◌∷◌,
  ◌++◌, Option, none, some, ok, err, Lacks, arith, Bool-cases, Option-cases, inl, inr,
}
use selftracked.Common.Int.{pos, negsuc}
use selftracked.Common.Text.{
  Text, text_beq, text_beq_iff, text_eq, codes, cut, cut-eq, cut-some-Lacks, cut-none-Lacks,
  cut-none,
}
use selftracked.Decimal.{parse_int, parse_uint, in_range}
use selftracked.Ref.{
  Ref, task, epic, story, artifact, malformed, epic_word, trim_hash, has_hash, parse_task,
  parse_artifact, valid_story_id, parse_epic_or_story, parse_colon, parse, canonical_entity,
}
use selftracked.Ref.RoundTrip.{IsRef, parse-canonical_entity}

in_range_bound : (b : Bool) (o : Option ℕ) (n : ℕ) → in_range b o ≡ some (pos n) → n < 2 ^ 63
unfolding in_range
in_range_bound true none n e = cc
in_range_bound false none n e = cc
in_range_bound false (some v) n e = ground arith
in_range_bound true (some zero) n e = ground arith
in_range_bound true (some (suc v)) n e = ground arith

parse_int_bound : (s : Text) (n : ℕ) → parse_int s ≡ some (pos n) → n < 2 ^ 63
unfolding parse_int
parse_int_bound [] n e = cc
parse_int_bound (c ∷ s) n e = ground (
  arith,
  in_range_bound true (parse_uint s) n,
  in_range_bound false (parse_uint s) n,
  in_range_bound false (parse_uint (c ∷ s)) n,
)

-- A matched task token that is no error is a positive int64, and a token with `#` is matched.
parse_task-IsRef : (s : Text) (r : Ref) → parse_task s ≡ some (ok r) → IsRef r
unfolding parse_task
parse_task-IsRef s r e = elim (Option-cases (parse_int (trim_hash s))) [
  | inl n ↦ absurd (ground arith)
  | inr (negsuc m, n) ↦ absurd (ground arith)
  | inr (pos zero, n) ↦ absurd (ground arith)
  | inr (pos (suc m), n) ↦
      let v : r ≡ task (suc m) = ground arith in
      rw v (omega arith, parse_int_bound (trim_hash s) (suc m) n)
]

parse_task-shape : (s : Text) (r : Ref) → parse_task s ≡ some (ok r) → (n : ℕ) × (r ≡ task n)
unfolding parse_task
parse_task-shape s r e = elim (Option-cases (parse_int (trim_hash s))) [
  | inl n ↦ absurd (ground arith)
  | inr (negsuc m, n) ↦ absurd (ground arith)
  | inr (pos zero, n) ↦ absurd (ground arith)
  | inr (pos (suc m), n) ↦ (suc m, ground arith)
]

colon_needed : (s : Text) → Lacks b':' s → parse_colon s ≡ err malformed
unfolding parse_colon
colon_needed s l = rw (cut-none s b':' l, parse_colon)

parse_task_unhashed : (s : Text) → parse_task s ≡ none → has_hash s ≡ false
unfolding parse_task
parse_task_unhashed s e = elim (Option-cases (parse_int (trim_hash s))) [
  | inl n ↦ ground arith
  | inr (negsuc m, n) ↦ absurd (ground arith)
  | inr (pos zero, n) ↦ absurd (ground arith)
  | inr (pos (suc m), n) ↦ absurd (ground arith)
]

parse_epic-IsRef : (rest : Text) (r : Ref) → parse_epic_or_story rest ≡ ok r → IsRef r
unfolding parse_epic_or_story
parse_epic-IsRef rest r e = elim (Option-cases (cut rest (codes "/"))) [
  | inl n ↦
      let v : (r ≡ epic rest) × (rest ≢ []) = ground (arith, text_beq_iff rest []) in
      rw v.0 (v.1, cut-none-Lacks rest b'/' n)
  | inr ((a, b), n) ↦
      let v : (r ≡ story a b) × (a ≢ []) × (valid_story_id b ≡ true) =
        ground (arith, text_beq_iff a []) in
      rw v.0 (v.1, cut-some-Lacks rest b'/' a b n, v.2)
]

Lacks-append_left : (h : ℕ) (a b : Text) → Lacks h (a ++ b) → Lacks h a
Lacks-append_left h [] b l = tt
Lacks-append_left h (c ∷ a) b l = (l.0, Lacks-append_left h a b l.1)

Lacks-append_right : (h : ℕ) (a b : Text) → Lacks h (a ++ b) → Lacks h b
Lacks-append_right h [] b l = l
Lacks-append_right h (c ∷ a) b l = Lacks-append_right h a b l.1

has_hash-append_left : (a b : Text) → a ≢ [] → has_hash (a ++ b) ≡ false → has_hash a ≡ false
has_hash-append_left [] b h e = absurd (h refl)
has_hash-append_left (c ∷ a) b h e = e

parse_artifact-IsRef :
    (head rest : Text) (r : Ref)
    → head ≢ []
    → head ≢ epic_word
    → has_hash head ≡ false
    → Lacks b':' head
    → rest ≢ []
    → parse_artifact head rest ≡ ok r
    → IsRef r
unfolding parse_artifact
parse_artifact-IsRef head rest r full plain hash colon named e =
    elim (Option-cases (cut head (codes "@"))) [
      | inl n ↦
          let v : r ≡ artifact head [] rest = ground arith in
          rw v (full, plain, colon, cut-none-Lacks head b'@' n, hash, tt, named)
      | inr ((a, b), n) ↦
          let v : (r ≡ artifact a b rest) × (a ≢ []) × (a ≢ epic_word) =
            ground (arith, text_beq_iff a [], text_beq_iff a epic_word) in
          let q : head ≡ a ++ (b'@' ∷ b) = cut-eq head (codes "@") a b n in
          let l : Lacks b':' (a ++ (b'@' ∷ b)) = subst (Lacks b':') q colon in
          let k : has_hash (a ++ (b'@' ∷ b)) ≡ false = sym (ap has_hash q) ∙ hash in
          rw v.0 (
            v.1,
            v.2,
            Lacks-append_left b':' a (b'@' ∷ b) l,
            cut-some-Lacks head b'@' a b n,
            has_hash-append_left a (b'@' ∷ b) v.1 k,
            (Lacks-append_right b':' a (b'@' ∷ b) l).1,
            named,
          )
    ]

parse_colon-IsRef : (s : Text) (r : Ref) → has_hash s ≡ false → parse_colon s ≡ ok r → IsRef r
unfolding parse_colon
parse_colon-IsRef s r hash e = elim (Option-cases (cut s (codes ":"))) [
  | inl n ↦ absurd (ground arith)
  | inr ((a, b), n) ↦
      let full : (a ≢ []) × (b ≢ []) = ground (arith, text_beq_iff a [], text_beq_iff b []) in
      let k : has_hash (a ++ (b':' ∷ b)) ≡ false =
        sym (ap has_hash (cut-eq s (codes ":") a b n)) ∙ hash in
      elim (Bool-cases (text_beq a epic_word)) [
        | inl w ↦
            let v : parse_epic_or_story b ≡ ok r =
              ground (arith, text_beq_iff a [], text_beq_iff b []) in
            parse_epic-IsRef b r v
        | inr w ↦
            let v : parse_artifact a b ≡ ok r =
              ground (arith, text_beq_iff a [], text_beq_iff b []) in
            parse_artifact-IsRef a b r full.0 (λ q. ground (arith, text_beq_iff a epic_word))
              (has_hash-append_left a (b':' ∷ b) full.0 k) (cut-some-Lacks s b':' a b n) full.1 v
      ]
]

-- `parse` splits on whether the token has a task's shape.
parse_inversion :
    (s : Text) (r : Ref)
    → parse s ≡ ok r
    → (parse_task s ≡ some (ok r)) ⊎ (parse_task s ≡ none) × (parse_colon s ≡ ok r)
unfolding parse
parse_inversion s r e = elim (Option-cases (parse_task s)) [
  | inl n ↦ inr (n, ground arith)
  | inr (ok q, n) ↦ inl (ground arith)
  | inr (err q, n) ↦ absurd (ground arith)
]

-- Whatever is accepted as a reference is one that the grammar can name, and its canonical form is
-- read as the same reference.
pub parse_sound :
    (s : Text) (r : Ref) → parse s ≡ ok r → IsRef r × (parse (canonical_entity r) ≡ ok r)
parse_sound s r e =
    let v : IsRef r = elim (parse_inversion s r e) [
      | inl t ↦ parse_task-IsRef s r t
      | inr (t, c) ↦ parse_colon-IsRef s r (parse_task_unhashed s t) c
    ] in
    (v, parse-canonical_entity r v)

-- A text without a colon that is accepted as a reference names a task.
pub parse_no_colon : (s : Text) (r : Ref) → Lacks b':' s → parse s ≡ ok r → (n : ℕ) × (r ≡ task n)
parse_no_colon s r l e = elim (parse_inversion s r e) [
  | inl t ↦ parse_task-shape s r t
  | inr (t, c) ↦ absurd (ground (arith, colon_needed s l))
]
