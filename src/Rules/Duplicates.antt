-- ===== src/Rules/Duplicates.antt =====
-- Rule R7 of internal/rules/rules.go over the tables `tasks` and `task_links`.
use selftracked.Common.{
  ℕ, ◌≡◌, refl, ◌∙◌, Bool, true, false, not, ◌&&◌, List, [], any, All, Option, none, some, arith,
  nat_beq, Bool-cases, inl, inr,
}
use selftracked.Store.{
  Task, Link, Store, status_duplicate, rel_duplicates, same_task_status, same_link_type, find_task,
  replace_task,
}
use selftracked.Stories.Rows.{All-map}
use selftracked.Tasks.Rows.{
  All-replace_task, any-replace_task-false, any-replace_task, any-find_task, All-find_task,
}
use selftracked.Rules.{
  is_unlinked, is_paired, is_unpaired, is_duplicate_row, chained_to, is_chained, r7,
}
use selftracked.Rules.Ledger.{append_eq_nil}
use selftracked.Rules.Corrections.{collect-All, collect-nil}

-- The rule without a report, as predicates on the tables.
pub record Paired (tasks : List Task) (links : List Link) : Type 0 where
  pub linked : All (λ t. is_unlinked links t ≡ false) tasks
  pub backed : All (λ l. is_unpaired tasks l ≡ false) links
  pub unchained : All (λ t. is_chained tasks t ≡ false) tasks

pub r7-Paired : (db : Store) → r7 db ≡ [] → Paired db.tasks db.links
unfolding r7
r7-Paired db h =
    let (p, q) = append_eq_nil _ _ h in
    let (q1, q2) = append_eq_nil _ _ q in
    record {
      linked = collect-All _ _ db.tasks p;
      backed = collect-All _ _ db.links q1;
      unchained = collect-All _ _ db.tasks q2;
    }

pub Paired-r7 : (db : Store) → Paired db.tasks db.links → r7 db ≡ []
unfolding r7
Paired-r7 db c =
    rw
      (
        collect-nil (is_unlinked db.links) _ db.tasks c.linked,
        collect-nil (is_unpaired db.tasks) _ db.links c.backed,
        collect-nil (is_chained db.tasks) _ db.tasks c.unchained,
      )
      refl

-- A row that keeps its number and its canonical, and turns into no duplicate.
pub record Calm (t u : Task) : Type 0 where
  pub same_id : u.id ≡ t.id
  pub same_dup : u.dup_of ≡ t.dup_of
  pub calm :
      same_task_status u.status status_duplicate ≡ true
      → same_task_status t.status status_duplicate ≡ true

paired-Calm : (l : Link) (t u : Task) → Calm t u → is_paired l t ≡ true → is_paired l u ≡ true
unfolding is_paired
paired-Calm l t u c h = rw (c.same_id, c.same_dup) h

pub unpaired-replace :
    (rows : List Task) (id : ℕ) (f : Task → Task) (t : Task)
    → find_task rows id ≡ some t
    → (l : Link) → (is_paired l t ≡ true → is_paired l (f t) ≡ true)
    → is_unpaired rows l ≡ false
    → is_unpaired (replace_task rows id f) l ≡ false
unfolding is_unpaired
unpaired-replace rows id f t hit l k h = elim (Bool-cases (any (is_paired l) rows)) [
  | inl e ↦
      let v : any (is_paired l) (replace_task rows id f) ≡ true =
        any-replace_task (is_paired l) rows id f t hit k e in
      rw v (ground arith)
  | inr e ↦
      let v : same_link_type l.type rel_duplicates && not (any (is_paired l) rows) ≡ false = h in
      let w : same_link_type l.type rel_duplicates ≡ false = ground arith in rw w refl
]

duplicate_row-Calm :
    (d : ℕ) (t u : Task) → Calm t u → is_duplicate_row d t ≡ false → is_duplicate_row d u ≡ false
unfolding is_duplicate_row
duplicate_row-Calm d t u c h =
    let k = c.calm in
    let v : nat_beq u.id d ≡ nat_beq t.id d = rw c.same_id refl in
    elim (Bool-cases (nat_beq t.id d)) [
      | inl e ↦ rw (v ∙ e) (ground arith)
      | inr e ↦ rw (v ∙ e) refl
    ]

any-false-find :
    (p : Task → Bool) (rows : List Task) (id : ℕ) (t : Task)
    → find_task rows id ≡ some t
    → any p rows ≡ false
    → p t ≡ false
any-false-find p rows id t hit h = elim (Bool-cases (p t)) [
  | inl e ↦ let v = any-find_task p rows id t hit e in ground arith
  | inr e ↦ e
]

pub chained-replace :
    (rows : List Task) (id : ℕ) (f : Task → Task) (t : Task)
    → find_task rows id ≡ some t
    → (o : Option ℕ)
    → ((d : ℕ) → o ≡ some d → is_duplicate_row d t ≡ false → is_duplicate_row d (f t) ≡ false)
    → chained_to rows o ≡ false
    → chained_to (replace_task rows id f) o ≡ false
unfolding chained_to
chained-replace rows id f t hit none k h = refl
chained-replace rows id f t hit (some d) k h =
    any-replace_task-false (is_duplicate_row d) rows id f t hit
      (k d refl (any-false-find (is_duplicate_row d) rows id t hit h)) h

unlinked-same :
    (links : List Link) (t u : Task)
    → u.id ≡ t.id
    → u.dup_of ≡ t.dup_of
    → is_unlinked links t ≡ false
    → is_unlinked links u ≡ false
unfolding is_unlinked
unlinked-same links t u i d h = rw (i, d) h

chained-same :
    (rows : List Task) (t u : Task)
    → u.dup_of ≡ t.dup_of
    → is_chained rows t ≡ false
    → is_chained rows u ≡ false
unfolding is_chained
chained-same rows t u d h = rw d h

-- A calm row replaced keeps the rule.
pub Paired-Calm :
    (rows : List Task) (links : List Link) (id : ℕ) (f : Task → Task) (t : Task)
    → find_task rows id ≡ some t
    → Calm t (f t)
    → Paired rows links
    → Paired (replace_task rows id f) links
unfolding is_chained
Paired-Calm rows links id f t hit c p =
    let step =
      λ (o : Option ℕ). chained-replace rows id f t hit o (λ d _. duplicate_row-Calm d t (f t) c) in
    record {
      linked =
          All-replace_task _ _ rows id f t hit (λ r x. x)
            (unlinked-same links t (f t) c.same_id c.same_dup
              (All-find_task (λ r. is_unlinked links r ≡ false) rows id t hit p.linked))
            p.linked;
      backed =
          All-map (λ l. is_unpaired rows l ≡ false) _
            (λ l. unpaired-replace rows id f t hit l (paired-Calm l t (f t) c)) links p.backed;
      unchained =
          All-replace_task (λ r. is_chained rows r ≡ false) _ rows id f t hit (λ r. step r.dup_of)
            (chained-same (replace_task rows id f) t (f t) c.same_dup (
              step t.dup_of
                (All-find_task (λ r. is_chained rows r ≡ false) rows id t hit p.unchained)))
            p.unchained;
    }
