-- ===== src/Rules/DuplicateMoves.antt =====
-- Rule R7 of internal/rules/rules.go under the moves that mark a duplicate, that reopen one, and that add rows.
use selftracked.Common.{
  ℕ, ◌≡◌, ◌≢◌, refl, sym, subst, ◌∙◌, Bool, true, false, not, ◌&&◌, List, [], ◌∷◌, ◌++◌, any, All,
  All-append, Option, none, some, arith, nat_beq, nat_beq_iff, Bool-cases, inl, inr,
}
use selftracked.Store.{
  Task, Link, status_duplicate, rel_duplicates, same_task_status, same_link_type, is_link,
  find_task, replace_task, drop_links,
}
use selftracked.Stories.Rows.{any-append, All-map}
use selftracked.Tasks.Lifecycle.{is_duplicate_from, is_canonical, has_canonical}
use selftracked.Tasks.Rows.{
  Keyed, find_task-id, All-replace_task, any-replace_task-false, any-find_task, find-replaced,
  All-replace_other, any-Keyed, All-both,
}
use selftracked.Rules.{
  unlinked_to, is_unlinked, is_some_of, is_paired, is_unpaired, is_duplicate_row, chained_to,
  is_chained,
}
use selftracked.Rules.Duplicates.{Paired, unpaired-replace, chained-replace}

any-false-All :
    {A : Type 0} (p : A → Bool) (rows : List A) → any p rows ≡ false → All (λ r. p r ≡ false) rows
any-false-All p [] h = tt
any-false-All p (r ∷ rows) h = ((ground arith), any-false-All p rows (ground arith))

unlinked_to-more :
    (links links' : List Link) (id : ℕ) (o : Option ℕ)
    → ((d : ℕ)
        → any (is_link id d rel_duplicates) links ≡ true
        → any (is_link id d rel_duplicates) links' ≡ true)
    → unlinked_to links id o ≡ false
    → unlinked_to links' id o ≡ false
unfolding unlinked_to
unlinked_to-more links links' id none k h = refl
unlinked_to-more links links' id (some d) k h = rw (k d (ground arith)) refl

-- A table of links that lost nothing the row needs.
unlinked-more :
    (links links' : List Link) (r : Task)
    → ((d : ℕ)
        → any (is_link r.id d rel_duplicates) links ≡ true
        → any (is_link r.id d rel_duplicates) links' ≡ true)
    → is_unlinked links r ≡ false
    → is_unlinked links' r ≡ false
unfolding is_unlinked
unlinked-more links links' r k h = unlinked_to-more links links' r.id r.dup_of k h

any-grown : {A : Type 0} (p : A → Bool) (xs ys : List A) → any p xs ≡ true → any p (xs ++ ys) ≡ true
any-grown p xs ys h = any-append p xs ys ∙ rw h refl

unpaired-grown :
    (rows more : List Task) (l : Link)
    → is_unpaired rows l ≡ false
    → is_unpaired (rows ++ more) l ≡ false
unfolding is_unpaired
unpaired-grown rows more l h = elim (Bool-cases (any (is_paired l) rows)) [
  | inl e ↦ rw (any-grown (is_paired l) rows more e) (ground arith)
  | inr e ↦
      let v : same_link_type l.type rel_duplicates && not (any (is_paired l) rows) ≡ false = h in
      let w : same_link_type l.type rel_duplicates ≡ false = ground arith in rw w refl
]

chained-grown :
    (rows : List Task) (t : Task) (o : Option ℕ)
    → same_task_status t.status status_duplicate ≡ false
    → chained_to rows o ≡ false
    → chained_to (rows ++ (t ∷ [])) o ≡ false
unfolding chained_to is_duplicate_row
chained-grown rows t none h k = refl
chained-grown rows t (some d) h k = any-append _ rows (t ∷ []) ∙ rw (k, h) (ground arith)

-- A new task that is no duplicate.
pub Paired-append :
    (rows : List Task) (links : List Link) (t : Task)
    → t.dup_of ≡ none
    → same_task_status t.status status_duplicate ≡ false
    → Paired rows links
    → Paired (rows ++ (t ∷ [])) links
unfolding is_chained is_unlinked unlinked_to chained_to
Paired-append rows links t o s p = record {
  linked = All-append _ rows (t ∷ []) p.linked (rw o refl, tt);
  backed =
      All-map (λ l. is_unpaired rows l ≡ false) _ (unpaired-grown rows (t ∷ [])) links p.backed;
  unchained =
      All-append _ rows (t ∷ [])
        (All-map (λ r. is_chained rows r ≡ false) _ (λ r. chained-grown rows t r.dup_of s) rows
          p.unchained)
        (rw o refl, tt);
}

-- A new link that is not of the type `duplicates`.
pub Paired-link :
    (rows : List Task) (links : List Link) (l : Link)
    → same_link_type l.type rel_duplicates ≡ false
    → Paired rows links
    → Paired rows (links ++ (l ∷ []))
unfolding is_unpaired
Paired-link rows links l o p = record {
  linked =
      All-map (λ r. is_unlinked links r ≡ false) _
        (λ r.
          unlinked-more links (links ++ (l ∷ [])) r
            (λ d. any-grown (is_link r.id d rel_duplicates) links (l ∷ [])))
        rows p.linked;
  backed = All-append _ links (l ∷ []) p.backed (rw o refl, tt);
  unchained = p.unchained;
}

any-drop_links :
    (p q : Link → Bool) (links : List Link)
    → ((l : Link) → p l ≡ true → q l ≡ false)
    → any p links ≡ true
    → any p (drop_links q links) ≡ true
unfolding drop_links
any-drop_links p q [] k h = cc
any-drop_links p q (l ∷ links) k h = elim (Bool-cases (p l)) [
  | inl e ↦ rw (k l e) (rw e refl)
  | inr e ↦
      let ih = any-drop_links p q links k (ground arith) in
      elim (Bool-cases (q l)) [ inl u ↦ rw u ih | inr u ↦ rw u (rw e ih) ]
]

All-drop_links :
    (P : Link → Type 0) (q : Link → Bool) (links : List Link)
    → All P links
    → All (λ l. P l × (q l ≡ false)) (drop_links q links)
unfolding drop_links
All-drop_links P q [] m = tt
All-drop_links P q (l ∷ links) (x, m) = elim (Bool-cases (q l)) [
  | inl u ↦ rw u (All-drop_links P q links m)
  | inr u ↦
      let v : drop_links q (l ∷ links) ≡ l ∷ drop_links q links = rw u refl in
      subst (All (λ l. P l × (q l ≡ false))) (sym v) ((x, u), All-drop_links P q links m)
]

-- Links that are not of the type `duplicates` are gone.
pub Paired-drop :
    (rows : List Task) (links : List Link) (q : Link → Bool)
    → ((l : Link) → same_link_type l.type rel_duplicates ≡ true → q l ≡ false)
    → Paired rows links
    → Paired rows (drop_links q links)
Paired-drop rows links q k p = record {
  linked =
      All-map (λ r. is_unlinked links r ≡ false) _
        (λ r.
          unlinked-more links (drop_links q links) r (λ d.
            any-drop_links (is_link r.id d rel_duplicates) q links (λ l e. k l (ground arith))))
        rows p.linked;
  backed =
      All-map (λ l. (is_unpaired rows l ≡ false) × (q l ≡ false)) _ (λ l (x, _). x) _
        (All-drop_links (λ l. is_unpaired rows l ≡ false) q links p.backed);
  unchained = p.unchained;
}

unpaired-type :
    (rows rows' : List Task) (l : Link)
    → (same_link_type l.type rel_duplicates ≡ true
        → is_unpaired rows l ≡ false
        → is_unpaired rows' l ≡ false)
    → is_unpaired rows l ≡ false
    → is_unpaired rows' l ≡ false
unfolding is_unpaired
unpaired-type rows rows' l k h = elim (Bool-cases (same_link_type l.type rel_duplicates)) [
  | inl e ↦ k e h
  | inr e ↦ rw e refl
]

not_duplicate_row :
    (d : ℕ) (t : Task)
    → same_task_status t.status status_duplicate ≡ false
    → is_duplicate_row d t ≡ false
unfolding is_duplicate_row
not_duplicate_row d t h = rw h (ground arith)

not_paired : (l : Link) (t : Task) (B : Type 0) → (l.from_task ≢ t.id) → is_paired l t ≡ true → B
unfolding is_paired
not_paired l t B ne h = absurd (ne (sym ((nat_beq_iff t.id l.from_task).0 (ground arith))))

-- A duplicate turns into a task that is none, and its links go.
pub Paired-reopen :
    (rows : List Task) (links : List Link) (id : ℕ) (f : Task → Task) (t : Task)
    → find_task rows id ≡ some t
    → Keyed rows
    → (f t).dup_of ≡ none
    → same_task_status (f t).status status_duplicate ≡ false
    → Paired rows links
    → Paired (replace_task rows id f) (drop_links (is_duplicate_from id) links)
unfolding is_chained is_unlinked unlinked_to chained_to
Paired-reopen rows links id f t hit keyed o s p =
    let i : t.id ≡ id = find_task-id rows id t hit in
    record {
      linked =
          All-replace_other (λ r. is_unlinked links r ≡ false) _ rows id f t hit
            (λ r ne. unlinked-more links (drop_links (is_duplicate_from id) links) r (λ d.
              any-drop_links (is_link r.id d rel_duplicates) (is_duplicate_from id) links
                (λ l e. let a : l.from_task ≢ id = λ z. absurd (ground arith) in ground arith)))
            (rw o refl) keyed p.linked;
      backed =
          All-map (λ l. (is_unpaired rows l ≡ false) × (is_duplicate_from id l ≡ false)) _
            (λ l (x, y).
              unpaired-type rows (replace_task rows id f) l
                (λ e.
                  unpaired-replace rows id f t hit l
                    (not_paired l t _ (λ z. absurd (ground arith))))
                x)
            _
            (All-drop_links (λ l. is_unpaired rows l ≡ false) (is_duplicate_from id) links
              p.backed);
      unchained =
          All-replace_task (λ r. is_chained rows r ≡ false) _ rows id f t hit
            (λ r. chained-replace rows id f t hit r.dup_of (λ d _ _. not_duplicate_row d (f t) s))
            (rw o refl) p.unchained;
    }

any-last :
    {A : Type 0} (p : A → Bool) (xs : List A) (x : A) → p x ≡ true → any p (xs ++ (x ∷ [])) ≡ true
any-last p xs x h = any-append p xs (x ∷ []) ∙ rw h (ground arith)

not_its_own : (l : Link) (t : Task) (B : Type 0) → t.dup_of ≡ none → is_paired l t ≡ true → B
unfolding is_paired
not_its_own l t B o h =
    let v : is_some_of l.to_task t.dup_of ≡ false = rw o refl in absurd (ground arith)

is_its_own :
    (l : Link) (t : Task) (id d : ℕ)
    → t.id ≡ id
    → t.dup_of ≡ some d
    → is_link id d rel_duplicates l ≡ true
    → is_paired l t ≡ true
unfolding is_paired
is_its_own l t id d i o h = rw (i, o) (ground arith)

elsewhere : (d : ℕ) (r : Task) → r.id ≢ d → is_duplicate_row d r ≡ false
unfolding is_duplicate_row
elsewhere d r ne = let v : nat_beq r.id d ≡ false = ground arith in rw v refl

other_row : (d : ℕ) (r : Task) (id : ℕ) → r.id ≡ id → id ≢ d → is_duplicate_row d r ≡ false
other_row d r id i ne = elsewhere d r (λ z. ne (sym i ∙ z))

canonical_ne : (id e : ℕ) (o : Option ℕ) → o ≡ some e → has_canonical id o ≡ false → id ≢ e
canonical_ne id e o q h z =
    let v : has_canonical id o ≡ nat_beq e id = rw q refl in absurd (ground arith)

-- A task that is no one's canonical turns into a duplicate of one that is none.
pub Paired-mark :
    (rows : List Task) (links : List Link) (id : ℕ) (f : Task → Task) (t : Task) (d : ℕ) (c : Task)
    (l : Link)
    → find_task rows id ≡ some t
    → find_task rows d ≡ some c
    → Keyed rows
    → t.dup_of ≡ none
    → (f t).id ≡ id
    → (f t).dup_of ≡ some d
    → id ≢ d
    → same_task_status c.status status_duplicate ≡ false
    → is_canonical rows id ≡ false
    → is_link id d rel_duplicates l ≡ true
    → Paired rows links
    → Paired (replace_task rows id f) (links ++ (l ∷ []))
unfolding is_canonical is_chained
Paired-mark rows links id f t d c l hit hit_c keyed o i o' ne s free is p = record {
  linked =
      All-replace_task (λ r. is_unlinked links r ≡ false) _ rows id f t hit
        (λ r.
          unlinked-more links (links ++ (l ∷ [])) r
            (λ e. any-grown (is_link r.id e rel_duplicates) links (l ∷ [])))
        (unfold is_unlinked unlinked_to in
          rw (o', i) (rw (any-last (is_link id d rel_duplicates) links l is) refl))
        p.linked;
  backed =
      All-append _ links (l ∷ [])
        (All-map (λ m. is_unpaired rows m ≡ false) _
          (λ m. unpaired-replace rows id f t hit m (not_its_own m t _ o)) links p.backed)
        (
          unfold is_unpaired in
              rw
                (any-find_task (is_paired l) (replace_task rows id f) id (f t)
                  (find-replaced rows id f t hit (i ∙ sym (find_task-id rows id t hit)))
                  (is_its_own l (f t) id d i o' is))
                (ground arith),
          tt,
        );
  unchained =
      All-replace_task (λ r. (is_chained rows r ≡ false) × (has_canonical id r.dup_of ≡ false)) _
        rows id f t hit
        (λ r (x, y).
          chained-replace rows id f t hit r.dup_of
            (λ e q _. other_row e (f t) id i (canonical_ne id e r.dup_of q y)) x)
        (rw o' (
          unfold chained_to in
          any-replace_task-false (is_duplicate_row d) rows id f t hit (other_row d (f t) id i ne) (
            any-Keyed (is_duplicate_row d) rows d c hit_c keyed (λ r. elsewhere d r)
              (not_duplicate_row d c s))))
        (All-both _ _ _ (λ r x y. (x, y)) rows p.unchained
          (any-false-All (λ r. has_canonical id r.dup_of) rows free));
}
