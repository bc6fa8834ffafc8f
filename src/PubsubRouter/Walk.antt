-- ===== src/PubsubRouter/Walk.antt =====
-- A message in linear mode on its way from node to successor.
use distributed_games.Base.{
  ℕ, suc, ◌≡◌, ◌↔◌, ◌⊎◌, inl, inr, Bool, true, false, Bool-cases, Option, none, some, List, [], ◌∷◌,
  ◌≤ℤ◌, ◌<ℤ◌, arith, refl, sym, subst, if◌then◌else◌,
}
use mathlib.Core.List.{Memᴰ}
use mathlib.Core.List.Memᴰ
use distributed_games.Base.{ap, ◌∙◌}
use distributed_games.Hub.Table.Finding.{equals_self}
use distributed_games.Address.{IpEndPoint, equals}
use distributed_games.Constraint.{Constraint, Directions}
use distributed_games.Constraint.Routing.{Meets, Owns}
use distributed_games.PubsubRouter.{Router, Routed, route_range_data, route_linearly}
use distributed_games.PubsubRouter.RangeData.{IsRoutable, directions, facts, right_iff, linear_lem}

-- Who gets the message that is sent to an address: the first of the nodes that follow, if it has
-- that address; then `rest` is what becomes of it.
onward : Option IpEndPoint → List Router → List Router → List Router
onward none ns rest = []
onward (some a) [] rest = []
onward (some a) (m ∷ ms) rest = if equals m.address a then rest else []

-- The nodes among `n` and those after it that handle the message, if `n` routed it so.
visit : Router → List Router → List Router → Routed → List Router
unfolding onward
visit n ns rest out =
    if out.handled then n ∷ onward out.next_hop ns rest else onward out.next_hop ns rest

-- The nodes that handle a message that enters at the first of a list of nodes and is sent on to the
-- address that each one gives; every hop counts.
pub walk : Constraint → ℕ → List Router → List Router
walk c hop_count [] = []
walk c hop_count (n ∷ ns) = elim (route_range_data n (some c) true hop_count none) [
  | none ↦ []
  | some out ↦ visit n ns (walk c (suc hop_count) ns) out
]

-- A node that is not the rightmost, does not pass the end of the ring, and lets the message through.
abbrev pub Passes : Constraint → ℕ → Router → Type 0
Passes c hop_count n =
    IsRoutable n c hop_count
    × (n.am_rightmost ≡ false)
    × (n.own.min <ℤ n.own.max)
    × (n.check_app_linear ≡ true)

-- Such nodes, each the successor of the one before, whose ranges follow one another.
abbrev pub IsChain : Constraint → ℕ → List Router → Type 0
IsChain c hop_count [] = Unit {0}
IsChain c hop_count (n ∷ []) = Passes c hop_count n
IsChain c hop_count (n ∷ m ∷ ns) =
    Passes c hop_count n
    × ((n.own.max ≤ℤ m.own.min) × (n.successor ≡ m.address))
    × IsChain c (suc hop_count) (m ∷ ns)

both : {b : Bool} → b ≡ false → b ≡ true → ⊥
both e f = ground arith

-- The successor is the first of the nodes that follow, if any do.
abbrev Leads : Router → List Router → List Router → Type 0
Leads n ns rest = onward (some n.successor) ns rest ≡ rest

module _ (n m : Router) (ns rest : List Router) (d : Directions) (app : n.check_app_linear ≡ true)
    (leads : Leads n ns rest) where
  abbrev Visits : Type 0
  Visits = ((d.center ≡ true) × (m ≡ n)) ⊎ ((d.right ≡ true) × Memᴰ m rest)

  visit_lem :
      (a b : Bool)
      → d.center ≡ a
      → d.right ≡ b
      → visit n ns rest (route_linearly n d)
        ≡ (if a then n ∷ (if b then rest else []) else (if b then rest else []))
  unfolding visit route_linearly
  visit_lem a true e r = rw (e, r, app, leads) refl
  visit_lem a false e r = unfold onward in rw (e, r) refl

  -- Who is visited: the node itself if its center is set, and those after it if its right is.
  visit_iff : Memᴰ m (visit n ns rest (route_linearly n d)) ↔ Visits
  visit_iff = elim (Bool-cases d.right) [
    | inl r ↦ elim (Bool-cases d.center) [
      | inl e ↦ rw (visit_lem true true e r) (
        λ x. elim (Memᴰ.cases_cons x) [ inl q ↦ inl (e, q) | inr y ↦ inr (r, y) ],
        λ v. elim v [ inl (_, q) ↦ Memᴰ.head q | inr (_, y) ↦ Memᴰ.tail y ],
      )
      | inr e ↦
          rw (visit_lem false true e r)
            (λ x. inr (r, x), λ v. elim v [ inl (f, _) ↦ absurd (both e f) | inr (_, y) ↦ y ])
    ]
    | inr r ↦ elim (Bool-cases d.center) [
      | inl e ↦ rw (visit_lem true false e r) (
        λ x. inl (e, Memᴰ.eq_of_singleton x),
        λ v. elim v [ inl (_, q) ↦ Memᴰ.head q | inr (f, _) ↦ absurd (both r f) ],
      )
      | inr e ↦ rw (visit_lem false false e r) (
        λ x. absurd (Memᴰ.not-nil x),
        λ v. elim v [ inl (f, _) ↦ absurd (both e f) | inr (f, _) ↦ absurd (both r f) ],
      )
    ]
  ]

chain_head :
    (c : Constraint) (hop_count : ℕ) (n : Router) (ns : List Router)
    → IsChain c hop_count (n ∷ ns)
    → Passes c hop_count n
chain_head c hop_count n [] t = t
chain_head c hop_count n (m ∷ ns) t = t.0

-- The ranges of the later nodes begin at the end of the first one or after it.
later_begins :
    (c : Constraint) (hop_count : ℕ) (n m : Router) (ns : List Router)
    → IsChain c hop_count (n ∷ ns)
    → Memᴰ m ns
    → n.own.max ≤ℤ m.own.min
later_begins c hop_count n m [] t x = absurd (Memᴰ.not-nil x)
later_begins c hop_count n m (k ∷ ns) t x = elim (Memᴰ.cases_cons x) [
  | inl e ↦ subst (λ (y : Router). n.own.max ≤ℤ y.own.min) (sym e) t.1.0
  | inr y ↦
      let flat = (chain_head c (suc hop_count) k ns t.2).2 in
      omega (arith, t.1.0, flat, later_begins c (suc hop_count) k m ns t.2 y)
]

IsChain-tail :
    (c : Constraint) (hop_count : ℕ) (n : Router) (ns : List Router)
    → IsChain c hop_count (n ∷ ns)
    → IsChain c (suc hop_count) ns
IsChain-tail c hop_count n [] t = tt
IsChain-tail c hop_count n (m ∷ ns) t = t.2

walk_cons :
    (c : Constraint) (hop_count : ℕ) (n : Router) (ns : List Router) (p : Passes c hop_count n)
    → walk c hop_count (n ∷ ns)
      ≡ visit n ns
          (walk c (suc hop_count) ns)
          (route_linearly n (directions n c hop_count none p.0 p.1 p.2))
unfolding walk visit
walk_cons c hop_count n ns p = rw (linear_lem n c hop_count none p.0 p.1 p.2, walk) refl

chain-Leads :
    (c : Constraint) (hop_count : ℕ) (n : Router) (ns : List Router)
    → IsChain c hop_count (n ∷ ns)
    → Leads n ns (walk c (suc hop_count) ns)
unfolding onward walk
chain-Leads c hop_count n [] t = refl
chain-Leads c hop_count n (m ∷ ns) t =
    rw (ap (λ a. equals m.address a) t.1.1 ∙ equals_self m.address) refl

-- A message in linear mode, started at the first of a chain of nodes and delivered to the address
-- that each node sends it to, is handled at exactly those nodes whose ranges hold a value that its
-- constraint allows. Each node has the next one of the chain for its successor, and no range begins
-- before the end of the one before. The constraint is ordered and within the bounds, the message
-- does not grow too old on the way, and the nodes let it through; none of them is the rightmost or
-- passes the end of the ring.
pub walk_iff :
    (c : Constraint) (hop_count : ℕ) (ns : List Router) (m : Router)
    → IsChain c hop_count ns
    → Memᴰ m (walk c hop_count ns) ↔ (Memᴰ m ns × Meets c (Owns m.own false))
walk_iff c hop_count [] m t =
    unfold walk in (λ x. absurd (Memᴰ.not-nil x), λ (x, meets). absurd (Memᴰ.not-nil x))
walk_iff c hop_count (n ∷ ns) m t =
    let p = chain_head c hop_count n ns t in
    let d = directions n c hop_count none p.0 p.1 p.2 in
    let step = walk_cons c hop_count n ns p in
    let v = visit_iff n m ns (walk c (suc hop_count) ns) d p.3 (chain-Leads c hop_count n ns t) in
    let ih = walk_iff c (suc hop_count) ns m (IsChain-tail c hop_count n ns t) in
    let here = (facts n c hop_count none p.0 p.1 p.2).1 in
    (
      λ x. elim (v.0 (subst (λ l. Memᴰ m l) step x)) [
        | inl (e, q) ↦
            (Memᴰ.head q, subst (λ (y : Router). Meets c (Owns y.own false)) (sym q) (here.0 e))
        | inr (r, y) ↦ (Memᴰ.tail (ih.0 y).0, (ih.0 y).1)
      ],
      λ (x, meets).
          subst (λ l. Memᴰ m l) (sym step)
            (v.1 (elim (Memᴰ.cases_cons x) [
              | inl q ↦ inl (here.1 (subst (λ (y : Router). Meets c (Owns y.own false)) q meets), q)
              | inr y ↦ inr (
                (right_iff n c hop_count none p.0 p.1 p.2).1
                    (omega (arith, meets.1, meets.2, later_begins c hop_count n m ns t y)),
                ih.1 (y, meets),
              )
            ])),
    )
