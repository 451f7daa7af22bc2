-- ===== src/Backlog/Sound.antt =====
-- What holds of the tables `tasks` and `task_links` while only the verbs write them.
use selftracked.Common.{
  ℕ, ◌≡◌, ◌≢◌, ◌≤◌, refl, sym, subst, ◌∙◌, Bool, true, false, List, [], ◌∷◌, ◌++◌, All, All-append,
  none, some, is_some, arith,
}
use selftracked.Common.Text.{text_eq}
use selftracked.Store.{
  iff, Task, Link, Store, status_duplicate, LinkType, rel_depends, rel_relates, rel_supersedes,
  rel_duplicates, same_task_status, same_link_type, is_link, find_task, replace_task, drop_links,
  task_checks, max_task, next_task,
}
use selftracked.Stories.Rows.{All-map}
use selftracked.Tasks.Lifecycle.{is_duplicate_from, is_canonical}
use selftracked.Tasks.Rows.{Keyed, find_task-id, All-replace_task, Keyed-replace_task}
use selftracked.Relations.Walk.{Reaches}
use selftracked.Relations.Cycles.{Acyclic, Acyclic-append, Acyclic-drop_links}
use selftracked.Rules.Duplicates.{Paired, Calm, Paired-Calm}
use selftracked.Rules.DuplicateMoves.{
  Paired-append, Paired-link, Paired-drop, Paired-reopen, Paired-mark,
}

-- The primary key, the CHECKs, rule R7, and no cycle in a directed relation.
pub record Sound (tasks : List Task) (links : List Link) : Type 0 where
  pub keyed : Keyed tasks
  pub checked : All (λ t. task_checks t ≡ true) tasks
  pub paired : Paired tasks links
  pub depends : Acyclic links rel_depends
  pub supersedes : Acyclic links rel_supersedes

pub duplicate-some :
    (t : Task)
    → task_checks t ≡ true
    → iff (same_task_status t.status status_duplicate) (is_some t.dup_of) ≡ true
unfolding task_checks
duplicate-some t h = ground arith

iff-false : (b : Bool) → iff b false ≡ true → b ≡ false
iff-false true h = cc
iff-false false h = refl

-- A row without a canonical is no duplicate.
pub no_duplicate :
    (t : Task)
    → task_checks t ≡ true
    → t.dup_of ≡ none
    → same_task_status t.status status_duplicate ≡ false
no_duplicate t h o =
    let v : is_some t.dup_of ≡ false = rw o refl in
    iff-false _ (
      subst (λ b. iff (same_task_status t.status status_duplicate) b ≡ true) v (duplicate-some t h))

Keyed-append :
    (rows : List Task) (t : Task)
    → Keyed rows
    → All (λ r. r.id ≢ t.id) rows
    → Keyed (rows ++ (t ∷ []))
Keyed-append [] t k m = (tt, tt)
Keyed-append (r ∷ rows) t (x, k) (y, m) =
    (All-append _ rows (t ∷ []) x ((λ e. y (sym e)), tt), Keyed-append rows t k m)

pub max_task-bound : (rows : List Task) → All (λ r. r.id ≤ max_task rows) rows
unfolding max_task
max_task-bound [] = tt
max_task-bound (r ∷ rows) =
    let ih = max_task-bound rows in
    (
      ground arith,
      All-map (λ u. u.id ≤ max_task rows) _ (λ u (x : u.id ≤ max_task rows). ground arith) rows ih,
    )

-- The next number is no row's.
pub next_task-fresh : (db : Store) → All (λ r. r.id ≢ next_task db) db.tasks
unfolding next_task
next_task-fresh db =
    All-map (λ r. r.id ≤ max_task db.tasks) (λ r. r.id ≢ next_task db)
      (λ r (x : r.id ≤ max_task db.tasks) e. absurd (ground arith)) db.tasks
      (max_task-bound db.tasks)

same_depends : (a : LinkType) → same_link_type a rel_depends ≡ true → a ≡ rel_depends
same_depends rel_depends h = refl
same_depends rel_relates h = cc
same_depends rel_supersedes h = cc
same_depends rel_duplicates h = cc

same_supersedes : (a : LinkType) → same_link_type a rel_supersedes ≡ true → a ≡ rel_supersedes
same_supersedes rel_depends h = cc
same_supersedes rel_relates h = cc
same_supersedes rel_supersedes h = refl
same_supersedes rel_duplicates h = cc

module _ (rows : List Task) (links : List Link) (s : Sound rows links) where
  module _ (id : ℕ) (f : Task → Task) (t : Task) (hit : find_task rows id ≡ some t)
      (same : (f t).id ≡ t.id) (ok_row : task_checks (f t) ≡ true) where
    replaced_checks : All (λ r. task_checks r ≡ true) (replace_task rows id f)
    replaced_checks =
        All-replace_task (λ r. task_checks r ≡ true) _ rows id f t hit (λ r x. x) ok_row s.checked

    pub Sound-Calm : Calm t (f t) → Sound (replace_task rows id f) links
    Sound-Calm c = record {
      keyed = Keyed-replace_task rows id f t hit same s.keyed;
      checked = replaced_checks;
      paired = Paired-Calm rows links id f t hit c s.paired;
      depends = s.depends;
      supersedes = s.supersedes;
    }

    pub Sound-reopen :
        (f t).dup_of ≡ none
        → Sound (replace_task rows id f) (drop_links (is_duplicate_from id) links)
    Sound-reopen o = record {
      keyed = Keyed-replace_task rows id f t hit same s.keyed;
      checked = replaced_checks;
      paired = Paired-reopen rows links id f t hit s.keyed o (no_duplicate (f t) ok_row o) s.paired;
      depends = Acyclic-drop_links links rel_depends _ s.depends;
      supersedes = Acyclic-drop_links links rel_supersedes _ s.supersedes;
    }

    pub Sound-mark :
        (d : ℕ) (c : Task) (l : Link)
        → find_task rows d ≡ some c
        → t.dup_of ≡ none
        → (f t).dup_of ≡ some d
        → id ≢ d
        → same_task_status c.status status_duplicate ≡ false
        → is_canonical rows id ≡ false
        → is_link id d rel_duplicates l ≡ true
        → l.type ≡ rel_duplicates
        → Sound (replace_task rows id f) (links ++ (l ∷ []))
    Sound-mark d c l hit_c o o' ne st free is ty = record {
      keyed = Keyed-replace_task rows id f t hit same s.keyed;
      checked = replaced_checks;
      paired =
          Paired-mark rows links id f t d c l hit hit_c s.keyed o
            (same ∙ find_task-id rows id t hit) o' ne st free is s.paired;
      depends =
          Acyclic-append links rel_depends l s.depends
            (λ e. absurd (let v : same_link_type l.type rel_depends ≡ false = rw ty refl in (cc)));
      supersedes =
          Acyclic-append links rel_supersedes l s.supersedes (λ e.
            absurd (let v : same_link_type l.type rel_supersedes ≡ false = rw ty refl in (cc)));
    }

  pub Sound-append :
      (t : Task)
      → All (λ r. r.id ≢ t.id) rows
      → task_checks t ≡ true
      → t.dup_of ≡ none
      → Sound (rows ++ (t ∷ [])) links
  Sound-append t fresh h o = record {
    keyed = Keyed-append rows t s.keyed fresh;
    checked = All-append _ rows (t ∷ []) s.checked (h, tt);
    paired = Paired-append rows links t o (no_duplicate t h o) s.paired;
    depends = s.depends;
    supersedes = s.supersedes;
  }

  directed :
      (type : LinkType) (l : Link)
      → (same_link_type l.type rel_relates ≡ false → ¬ Reaches links l.type l.to_task l.from_task)
      → l.type ≡ type
      → same_link_type type rel_relates ≡ false
      → ¬ Reaches links type l.to_task l.from_task
  directed type l k q n = subst (λ ty. ¬ Reaches links ty l.to_task l.from_task) q (k (rw q n))

  pub Sound-link :
      (l : Link)
      → same_link_type l.type rel_duplicates ≡ false
      → (same_link_type l.type rel_relates ≡ false → ¬ Reaches links l.type l.to_task l.from_task)
      → Sound rows (links ++ (l ∷ []))
  Sound-link l o k = record {
    keyed = s.keyed;
    checked = s.checked;
    paired = Paired-link rows links l o s.paired;
    depends =
        Acyclic-append links rel_depends l s.depends
          (λ e. directed rel_depends l k (same_depends l.type e) refl);
    supersedes =
        Acyclic-append links rel_supersedes l s.supersedes
          (λ e. directed rel_supersedes l k (same_supersedes l.type e) refl);
  }

  pub Sound-drop :
      (q : Link → Bool)
      → ((l : Link) → same_link_type l.type rel_duplicates ≡ true → q l ≡ false)
      → Sound rows (drop_links q links)
  Sound-drop q k = record {
    keyed = s.keyed;
    checked = s.checked;
    paired = Paired-drop rows links q k s.paired;
    depends = Acyclic-drop_links links rel_depends q s.depends;
    supersedes = Acyclic-drop_links links rel_supersedes q s.supersedes;
  }
