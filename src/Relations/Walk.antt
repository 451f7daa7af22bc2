-- ===== src/Relations/Walk.antt =====
-- The walk of `wouldCycle` in internal/verb/relations.go: its fuel, and what its answer means.
use selftracked.Common.{
  ℕ, zero, suc, ◌+◌, ◌≡◌, ◌≤◌, ◌<◌, refl, sym, subst, ◌∙◌, Bool, true, false, not, ◌&&◌, ◌||◌, List,
  [], ◌∷◌, ◌++◌, any, All, All-append, length, length-append, some, arith, nat_beq, nat_beq_iff,
  if◌then◌else◌, Bool-cases, inl, inr,
}
use selftracked.Store.{LinkType, Link, same_link_type, is_link}
use selftracked.Stories.Rows.{any-append}
use selftracked.Relations.{out_edges, member, visit, walk}

abbrev pub IsEdge : List Link → LinkType → ℕ → ℕ → Type 0
IsEdge links type a b = any (is_link a b type) links ≡ true

-- A chain of links of one type.
pub data Reaches (links : List Link) (type : LinkType) (a : ℕ) : ℕ → Type 0 where
  here : Reaches links type a a
  there : (b c : ℕ) → Reaches links type a b → IsEdge links type b c → Reaches links type a c

-- The links that the walk may still follow.
unfoldable pub unseen : List Link → LinkType → List ℕ → ℕ
unseen [] type seen = 0
unseen (l ∷ ls) type seen =
    let rest = unseen ls type seen in
    if same_link_type l.type type && not (member l.from_task seen) then suc rest else rest

pub unseen_le :
    (links : List Link) (type : LinkType) (seen : List ℕ) → unseen links type seen ≤ length links
unfolding unseen
unseen_le [] type seen = omega arith
unseen_le (l ∷ ls) type seen =
    let ih = unseen_le ls type seen in
    elim (Bool-cases (same_link_type l.type type && not (member l.from_task seen))) [
      | inl e ↦ rw e (omega (arith, ih))
      | inr e ↦ rw e (omega (arith, ih))
    ]

-- A node that is taken uses up its links.
unseen-out_edges :
    (links : List Link) (type : LinkType) (cur : ℕ) (seen : List ℕ)
    → member cur seen ≡ false
    → unseen links type (cur ∷ seen) + length (out_edges links type cur) ≡ unseen links type seen
unfolding unseen out_edges
unseen-out_edges [] type cur seen h = refl
unseen-out_edges (l ∷ ls) type cur seen h =
    let ih = unseen-out_edges ls type cur seen h in
    elim (Bool-cases (nat_beq l.from_task cur)) [
      | inl e ↦
          let q : l.from_task ≡ cur = (nat_beq_iff l.from_task cur).0 e in
          let m : member l.from_task seen ≡ false = rw q h in
          let n : nat_beq cur l.from_task ≡ true = ground arith in
          elim (Bool-cases (same_link_type l.type type)) [
            | inl t ↦ rw (e, t, m, n) (omega (arith, ih))
            | inr t ↦ rw (e, t) ih
          ]
      | inr e ↦
          let n : nat_beq cur l.from_task ≡ false = ground arith in
          elim (Bool-cases (same_link_type l.type type && not (member l.from_task seen))) [
            | inl t ↦ rw (e, n) (rw t (omega (arith, ih)))
            | inr t ↦ rw (e, n) (rw t ih)
          ]
    ]

module _ (links : List Link) (type : LinkType) (from : ℕ) where
  walk-hit :
      (n cur : ℕ) (seen rest : List ℕ)
      → nat_beq cur from ≡ true
      → walk (suc n) links type from seen (cur ∷ rest) ≡ some true
  unfolding walk
  walk-hit n cur seen rest e = rw e refl

  walk-old :
      (n cur : ℕ) (seen rest : List ℕ)
      → nat_beq cur from ≡ false
      → member cur seen ≡ true
      → walk (suc n) links type from seen (cur ∷ rest) ≡ walk n links type from seen rest
  unfolding walk visit
  walk-old n cur seen rest e m = rw e (rw m refl)

  walk-new :
      (n cur : ℕ) (seen rest : List ℕ)
      → nat_beq cur from ≡ false
      → member cur seen ≡ false
      → walk (suc n) links type from seen (cur ∷ rest)
        ≡ walk n links type from (cur ∷ seen) (rest ++ out_edges links type cur)
  unfolding walk visit
  walk-new n cur seen rest e m = rw e (rw m refl)

  -- The fuel is enough when it is more than the frontier and the links still to follow.
  pub walk-answers :
      (n : ℕ) (seen frontier : List ℕ)
      → length frontier + unseen links type seen < n
      → (b : Bool) × (walk n links type from seen frontier ≡ some b)
  walk-answers zero seen frontier h = absurd (omega (arith, h))
  walk-answers (suc n) seen [] h = (false, (unfold walk in refl))
  walk-answers (suc n) seen (cur ∷ rest) h = elim (Bool-cases (nat_beq cur from)) [
    | inl e ↦ (true, walk-hit n cur seen rest e)
    | inr e ↦ elim (Bool-cases (member cur seen)) [
      | inl m ↦
          let (b, q) = walk-answers n seen rest (omega (arith, h)) in
          (b, walk-old n cur seen rest e m ∙ q)
      | inr m ↦
          let (b, q) = walk-answers n (cur ∷ seen) (rest ++ out_edges links type cur) (
            omega (
              arith,
              h,
              unseen-out_edges links type cur seen m,
              length-append rest (out_edges links type cur),
            )) in
          (b, walk-new n cur seen rest e m ∙ q)
    ]
  ]

IsEdge-cons :
    (l : Link) (ls : List Link) (type : LinkType) (a b : ℕ)
    → IsEdge ls type a b
    → IsEdge (l ∷ ls) type a b
IsEdge-cons l ls type a b h = rw h (ground arith)

All-weaken : (P Q : ℕ → Type 0) → ((n : ℕ) → P n → Q n) → (ns : List ℕ) → All P ns → All Q ns
All-weaken P Q k [] m = tt
All-weaken P Q k (n ∷ ns) (x, m) = (k n x, All-weaken P Q k ns m)

out_edges-IsEdge :
    (links : List Link) (type : LinkType) (cur : ℕ)
    → All (IsEdge links type cur) (out_edges links type cur)
unfolding out_edges
out_edges-IsEdge [] type cur = tt
out_edges-IsEdge (l ∷ ls) type cur =
    let ih =
      All-weaken (IsEdge ls type cur) (IsEdge (l ∷ ls) type cur) (IsEdge-cons l ls type cur) _
        (out_edges-IsEdge ls type cur) in
    elim (Bool-cases (nat_beq l.from_task cur && same_link_type l.type type)) [
      | inl e ↦
          rw e ((let v : nat_beq l.to_task l.to_task ≡ true = ground arith in ground arith), ih)
      | inr e ↦ rw e ih
    ]

edge-out_edges :
    (links : List Link) (type : LinkType) (a b : ℕ)
    → IsEdge links type a b
    → member b (out_edges links type a) ≡ true
unfolding out_edges
edge-out_edges [] type a b h = cc
edge-out_edges (l ∷ ls) type a b h = ground (arith, edge-out_edges ls type a b)

-- What the walk has left behind: the nodes that were taken are not `from`, and their edges are known.
abbrev pub Known : List Link → LinkType → ℕ → List ℕ → List ℕ → ℕ → Type 0
Known links type from seen frontier a =
    (nat_beq a from ≡ false)
    × ((b : ℕ) → IsEdge links type a b → member b seen || member b frontier ≡ true)

known-old :
    (b cur : ℕ) (seen rest : List ℕ)
    → member cur seen ≡ true
    → member b seen || member b (cur ∷ rest) ≡ true
    → member b seen || member b rest ≡ true
known-old b cur seen rest k h = elim (Bool-cases (nat_beq cur b)) [
  | inl e ↦
      let v : member b seen ≡ true =
        subst (λ z. member z seen ≡ true) ((nat_beq_iff cur b).0 e) k in
      rw v refl
  | inr e ↦ ground arith
]

known-new :
    (b cur : ℕ) (seen rest out : List ℕ)
    → member b seen || member b (cur ∷ rest) ≡ true
    → member b (cur ∷ seen) || member b (rest ++ out) ≡ true
known-new b cur seen rest out h = rw (any-append (λ m. nat_beq m b) rest out) (ground arith)

edge-new :
    (b cur : ℕ) (seen rest out : List ℕ)
    → member b out ≡ true
    → member b (cur ∷ seen) || member b (rest ++ out) ≡ true
edge-new b cur seen rest out h = rw (any-append (λ m. nat_beq m b) rest out) (ground arith)

pub member-All : (P : ℕ → Type 0) (ns : List ℕ) (n : ℕ) → All P ns → member n ns ≡ true → P n
member-All P [] n m h = cc
member-All P (a ∷ ns) n (x, m) h = elim (Bool-cases (nat_beq a n)) [
  | inl e ↦ subst P ((nat_beq_iff a n).0 e) x
  | inr e ↦ member-All P ns n m (ground arith)
]

module _ (links : List Link) (type : LinkType) (from to : ℕ) where
  pub walk_sound :
      (n : ℕ) (seen frontier : List ℕ)
      → All (Reaches links type to) frontier
      → walk n links type from seen frontier ≡ some true
      → Reaches links type to from
  walk_sound zero seen frontier m h = unfold walk in cc
  walk_sound (suc n) seen [] m h = unfold walk in cc
  walk_sound (suc n) seen (cur ∷ rest) (x, m) h = elim (Bool-cases (nat_beq cur from)) [
    | inl e ↦ subst (Reaches links type to) ((nat_beq_iff cur from).0 e) x
    | inr e ↦ elim (Bool-cases (member cur seen)) [
      | inl k ↦ walk_sound n seen rest m (sym (walk-old links type from n cur seen rest e k) ∙ h)
      | inr k ↦
          walk_sound n (cur ∷ seen) (rest ++ out_edges links type cur)
            (All-append (Reaches links type to) rest (out_edges links type cur) m (
              All-weaken (IsEdge links type cur) (Reaches links type to) (λ b. there cur b x) _
                (out_edges-IsEdge links type cur)))
            (sym (walk-new links type from n cur seen rest e k) ∙ h)
    ]
  ]

  -- A walk that finds nothing ends with a set of nodes that its edges do not leave.
  pub walk-closed :
      (n : ℕ) (seen frontier : List ℕ)
      → All (Known links type from seen frontier) seen
      → member to seen || member to frontier ≡ true
      → walk n links type from seen frontier ≡ some false
      → (last : List ℕ) × All (Known links type from last []) last × (member to last ≡ true)
  walk-closed zero seen frontier m t h = unfold walk in cc
  walk-closed (suc n) seen [] m t h = (seen, m, (ground arith))
  walk-closed (suc n) seen (cur ∷ rest) m t h = elim (Bool-cases (nat_beq cur from)) [
    | inl e ↦ let v = walk-hit links type from n cur seen rest e in absurd (ground arith)
    | inr e ↦ elim (Bool-cases (member cur seen)) [
      | inl k ↦
          walk-closed n seen rest
            (All-weaken (Known links type from seen (cur ∷ rest)) (Known links type from seen rest)
              (λ a (p, q). (p, λ b i. known-old b cur seen rest k (q b i))) seen m)
            (known-old to cur seen rest k t)
            (sym (walk-old links type from n cur seen rest e k) ∙ h)
      | inr k ↦
          let out = out_edges links type cur in
          walk-closed n (cur ∷ seen) (rest ++ out)
            (
              (e, λ b i. edge-new b cur seen rest out (edge-out_edges links type cur b i)),
              All-weaken (Known links type from seen (cur ∷ rest))
                  (Known links type from (cur ∷ seen) (rest ++ out))
                  (λ a (p, q). (p, λ b i. known-new b cur seen rest out (q b i))) seen m,
            )
            (known-new to cur seen rest out t)
            (sym (walk-new links type from n cur seen rest e k) ∙ h)
    ]
  ]

  pub closed-Reaches :
      (last : List ℕ)
      → All (Known links type from last []) last
      → member to last ≡ true
      → (a : ℕ) → Reaches links type to a
      → (member a last ≡ true)
  closed-Reaches last m t a here = t
  closed-Reaches last m t a (there b _ r i) =
      let ih = closed-Reaches last m t b r in
      let v = (member-All _ last b m ih).1 a i in ground arith
