-- ===== src/Relations/Cycles.antt =====
-- What the answer of `wouldCycle` in internal/verb/relations.go means, and the graph that it keeps without cycles.
use selftracked.Common.{
  ℕ, ◌+◌, ◌≡◌, ◌⊎◌, ◌↔◌, refl, sym, subst, ◌∙◌, Bool, true, ◌||◌, List, [], ◌∷◌, ◌++◌, any, length,
  some, arith, nat_beq_iff, Bool-cases, inl, inr,
}
use selftracked.Store.{LinkType, Link, same_link_type, is_link, drop_links}
use selftracked.Stories.Rows.{any-append}
use selftracked.Relations.{walk, would_cycle}
use selftracked.Relations.Walk.{
  IsEdge, Reaches, here, there, unseen_le, walk-answers, walk_sound, walk-closed, closed-Reaches,
  member-All,
}

-- The walk for cycles ends for every table of links: its fuel, two more than the number of links,
-- is never used up, and its answer is the one that rel add acts on.
pub walk-would_cycle :
    (links : List Link) (type : LinkType) (from to : ℕ)
    → walk (length links + 2) links type from [] (to ∷ []) ≡ some (would_cycle links type from to)
unfolding would_cycle
walk-would_cycle links type from to =
    let (b, e) =
      walk-answers links type from (length links + 2) [] (to ∷ [])
        (omega (arith, unseen_le links type [])) in
    e ∙ sym (rw e refl)

-- The walk that rel add makes finds a cycle just when a chain of links of the type leads from the
-- target of the new link to its source.
pub would_cycle-Reaches :
    (links : List Link) (type : LinkType) (from to : ℕ)
    → (would_cycle links type from to ≡ true) ↔ Reaches links type to from
would_cycle-Reaches links type from to = (
  λ h.
      walk_sound links type from to (length links + 2) [] (to ∷ []) (here, tt)
        (walk-would_cycle links type from to ∙ rw h refl),
  λ r. elim (Bool-cases (would_cycle links type from to)) [
    | inl e ↦ e
    | inr e ↦
        let (last, m, t) =
          walk-closed links type from to (length links + 2) [] (to ∷ []) tt (ground arith)
            (walk-would_cycle links type from to ∙ rw e refl) in
        let k = closed-Reaches links type from to last m t from r in
        let v = (member-All _ last from m k).0 in absurd (ground arith)
  ],
)

-- No node is reached again over the links of the type.
abbrev pub Acyclic : List Link → LinkType → Type 0
Acyclic links type = (a b : ℕ) → IsEdge links type a b → ¬ Reaches links type b a

join_paths :
    (links : List Link) (type : LinkType) (a b c : ℕ)
    → Reaches links type a b
    → Reaches links type b c
    → Reaches links type a c
join_paths links type a b _ r here = r
join_paths links type a b _ r (there d c s e) = there d c (join_paths links type a b d r s) e

-- An edge is old, or it is the new one.
new-IsEdge :
    (links : List Link) (type : LinkType) (l : Link) (a b : ℕ)
    → IsEdge (links ++ (l ∷ [])) type a b
    → IsEdge links type a b
      ⊎ ((same_link_type l.type type ≡ true) × (l.from_task ≡ a) × (l.to_task ≡ b))
new-IsEdge links type l a b e =
    let split : any (is_link a b type) links || any (is_link a b type) (l ∷ []) ≡ true =
      sym (any-append (is_link a b type) links (l ∷ [])) ∙ e in
    elim (Bool-cases (any (is_link a b type) links)) [
      | inl o ↦ inl o
      | inr o ↦ inr (
        (ground arith),
        (nat_beq_iff l.from_task a).0 (ground arith),
        (nat_beq_iff l.to_task b).0 (ground arith),
      )
    ]

-- A path over the old links and a new one goes over the old ones, or over the new one.
split_path :
    (links : List Link) (type : LinkType) (l : Link) (a b : ℕ)
    → Reaches (links ++ (l ∷ [])) type a b
    → Reaches links type a b
      ⊎ ((same_link_type l.type type ≡ true)
          × Reaches links type a l.from_task
          × Reaches links type l.to_task b)
split_path links type l a _ here = inl here
split_path links type l a _ (there c b r e) = elim (new-IsEdge links type l c b e) [
  | inl o ↦ elim (split_path links type l a c r) [
    | inl p ↦ inl (there c b p o)
    | inr (k, p, q) ↦ inr (k, p, there c b q o)
  ]
  | inr (k, f, t) ↦
      let at_end = subst (Reaches links type l.to_task) t here in
      elim (split_path links type l a c r) [
        | inl p ↦ inr (k, subst (Reaches links type a) (sym f) p, at_end)
        | inr (_, p, q) ↦ inr (k, p, at_end)
      ]
]

pub Acyclic-append :
    (links : List Link) (type : LinkType) (l : Link)
    → Acyclic links type
    → (same_link_type l.type type ≡ true → ¬ Reaches links type l.to_task l.from_task)
    → Acyclic (links ++ (l ∷ [])) type
Acyclic-append links type l old new a b e r =
    let path = split_path links type l b a r in
    elim (new-IsEdge links type l a b e) [
      | inl o ↦ elim path [
        | inl p ↦ old a b o p
        | inr (k, p, q) ↦ new k (join_paths links type l.to_task b l.from_task (there a b q o) p)
      ]
      | inr (k, f, t) ↦ elim path [
        | inl p ↦ new k (
            subst (Reaches links type l.to_task) (sym f)
              (subst (λ n. Reaches links type n a) (sym t) p))
        | inr (_, p, q) ↦ new k (
            join_paths links type l.to_task a l.from_task q
              (subst (Reaches links type a) (sym f) here))
      ]
    ]

-- Fewer links, fewer paths.
Reaches-fewer :
    (links links' : List Link) (type : LinkType)
    → ((a b : ℕ) → IsEdge links' type a b → IsEdge links type a b)
    → (a b : ℕ) → Reaches links' type a b
    → Reaches links type a b
Reaches-fewer links links' type k a _ here = here
Reaches-fewer links links' type k a _ (there b c r e) =
    there b c (Reaches-fewer links links' type k a b r) (k b c e)

drop_links-any :
    (p q : Link → Bool) (links : List Link) → any p (drop_links q links) ≡ true → any p links ≡ true
unfolding drop_links
drop_links-any p q [] h = h
drop_links-any p q (l ∷ links) h = ground (arith, drop_links-any p q links)

pub Acyclic-drop_links :
    (links : List Link) (type : LinkType) (q : Link → Bool)
    → Acyclic links type
    → Acyclic (drop_links q links) type
Acyclic-drop_links links type q old a b e r =
    let k = λ (a b : ℕ). drop_links-any (is_link a b type) q links in
    old a b (k a b e) (Reaches-fewer links (drop_links q links) type k b a r)
