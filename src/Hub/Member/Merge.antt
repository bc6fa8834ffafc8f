-- ===== src/Hub/Member/Merge.antt =====
-- The successors after the list of a successor has been merged in.
use distributed_games.Base.{
  ℕ, ◌+◌, ◌≤◌, ◌<◌, ◌≡◌, refl, subst, true, false, not, ◌&&◌, ◌||◌, if◌then◌else◌, ltb, List, [],
  ◌∷◌, ◌++◌, length, length-append, arith, Bool-cases, inl, inr,
}
use distributed_games.TimeVal.{TimeVal}
use distributed_games.Address.{IpEndPoint, equals}
use distributed_games.Message.Successors.{PeerInfo}
use distributed_games.Peer.{PeerType, same_type, successor}
use distributed_games.Hub.Table.{Table, contains, add, remove}
use distributed_games.Hub.Table.Finding.{equals_self}
use distributed_games.Hub.Table.Consistent.{
  IsDistinct, IsConsistent, contains-append, IsDistinct-append, contains-add, add-IsConsistent,
  contains-remove, remove-IsConsistent, contains_same,
}
use distributed_games.Hub.Table.Subset.{Includes, length-Includes, Includes-back}
use distributed_games.Hub.Member.{add_successors, new_succs, remove_others, merge_table}

pub add_successors-IsConsistent :
    (now : TimeVal) (limit : ℕ) (own : IpEndPoint) (is : List PeerInfo) (t : Table)
    → IsConsistent t
    → IsConsistent (add_successors now limit own is t)
unfolding add_successors
add_successors-IsConsistent now limit own [] t v = v
add_successors-IsConsistent now limit own (i ∷ is) t v =
    let rest =
      add_successors-IsConsistent now limit own is (add now successor i.addr i.range false t)
        (add-IsConsistent now successor i.addr i.range false t v) in
    elim (Bool-cases (equals i.addr own)) [
      | inl e ↦ rw (e, add_successors) v
      | inr e ↦ elim (Bool-cases (ltb limit (length (t.lists successor)))) [
        | inl f ↦ rw (e, f, add_successors) v
        | inr f ↦ rw (e, f, add_successors) rest
      ]
    ]

remove_others_lem :
    (set xs : List IpEndPoint) (t : Table)
    → IsConsistent t
    → IsConsistent (remove_others set xs t)
      × ((j : PeerType) (b : IpEndPoint)
          → contains b ((remove_others set xs t).lists j) ≡ (
              not (same_type successor j && contains b xs && not (contains b set))
              && contains b (t.lists j)))
unfolding remove_others
remove_others_lem set [] t v = (v, λ j b. ground arith)
remove_others_lem set (a ∷ xs) t v = elim (Bool-cases (contains a set)) [
  | inl e ↦
      let ih = remove_others_lem set xs t v in
      rw (e, remove_others) (ih.0, λ j b. ground (arith, e, ih.1 j b, contains_same a b set))
  | inr e ↦
      let ih =
        remove_others_lem set xs (remove successor a t) (remove-IsConsistent successor a t v) in
      rw (e, remove_others)
        (
          ih.0,
          λ j b.
              ground
                (arith, e, ih.1 j b, contains-remove successor j a b t v, contains_same a b set),
        )
]

-- The set that is to stay.
module _ (limit : ℕ) (own : IpEndPoint) where
  abbrev extended : IpEndPoint → List IpEndPoint → List IpEndPoint
  extended a set = if contains a set then set else set ++ a ∷ []

  extended_lem :
      (a : IpEndPoint) (set : List IpEndPoint)
      → IsDistinct set
      → IsDistinct (extended a set)
        × (length (extended a set) ≤ length set + 1)
        × ((b : IpEndPoint) → contains b (extended a set) ≡ (contains b set || equals a b))
  extended_lem a set d = elim (Bool-cases (contains a set)) [
    | inl e ↦ rw e (d, omega arith, λ b. ground (arith, e, contains_same a b set))
    | inr e ↦ rw e (
      IsDistinct-append a set e d,
      omega (arith, length-append set (a ∷ [])),
      λ b. contains-append a b set,
    )
  ]

  new_succs_lem :
      (is : List PeerInfo) (set : List IpEndPoint)
      → IsDistinct set
      → length set ≤ limit + 1
      → IsDistinct (new_succs limit own is set)
        × (length (new_succs limit own is set) ≤ limit + 1)
        × Includes (new_succs limit own is set) set
  unfolding new_succs
  new_succs_lem [] set d l = (d, l, λ b m. m)
  new_succs_lem (i ∷ is) set d l =
      let ext = extended_lem i.addr set d in
      elim (Bool-cases (equals i.addr own)) [
        | inl e ↦ rw (e, new_succs) (d, l, λ b m. m)
        | inr e ↦ elim (Bool-cases (ltb limit (length set))) [
          | inl f ↦ rw (e, f, new_succs) (d, l, λ b m. m)
          | inr f ↦
              let ih = new_succs_lem is (extended i.addr set) ext.0 (ground (arith, ext.1)) in
              rw (e, f, new_succs) (ih.0, ih.1, λ b m. ih.2 b (ground (arith, ext.2 b, m)))
        ]
      ]

  add_successors_lem :
      (now : TimeVal) (is : List PeerInfo) (set : List IpEndPoint) (t : Table)
      → IsConsistent t
      → IsDistinct set
      → length set ≤ limit + 1
      → Includes (t.lists successor) set
      → Includes (new_succs limit own is set) (t.lists successor)
      → (b : IpEndPoint)
      → contains b ((add_successors now limit own is t).lists successor)
        ≡ contains b (new_succs limit own is set)
  unfolding add_successors new_succs
  add_successors_lem now [] set t v d l lower upper b = ground (arith, lower b, upper b)
  add_successors_lem now (i ∷ is) set t v d l lower upper b =
      let listed = t.lists successor in
      let ext = extended_lem i.addr set d in
      let more = new_succs_lem is (extended i.addr set) ext.0 in
      elim (Bool-cases (equals i.addr own)) [
        | inl e ↦
            let w : new_succs limit own (i ∷ is) set ≡ set = ground (arith, e) in
            let up = subst (λ s. Includes s listed) w upper b in
            rw (e, add_successors, new_succs) (ground (arith, lower b, up))
        | inr e ↦ elim (Bool-cases (ltb limit (length set))) [
          | inl f ↦
              let w : new_succs limit own (i ∷ is) set ≡ set = ground (arith, e, f) in
              let up = subst (λ s. Includes s listed) w upper b in
              let g : ltb limit (length listed) ≡ true =
                ground (arith, f, length-Includes set listed d (v.distinct successor) lower) in
              rw (e, f, g, add_successors, new_succs) (ground (arith, lower b, up))
          | inr f ↦
              let w : new_succs limit own (i ∷ is) set
                  ≡ new_succs limit own is (extended i.addr set) =
                ground (arith, e, f) in
              let up = subst (λ s. Includes s listed) w upper in
              let bound = more (ground (arith, ext.1, f)) in
              elim (Bool-cases (ltb limit (length listed))) [
                | inl g ↦
                    let back =
                      Includes-back listed (new_succs limit own is (extended i.addr set))
                        (v.distinct successor) bound.0 up (ground (arith, bound.1, g)) b in
                    rw (e, f, g, add_successors, new_succs) (ground (arith, up b, back))
                | inr g ↦
                    let t1 = add now successor i.addr i.range false t in
                    let roles = λ (c : IpEndPoint).
                      contains-add now successor successor i.addr c i.range false t v in
                    let low : Includes (t1.lists successor) (extended i.addr set) =
                      λ c m. ground (arith, roles c, ext.2 c, m, lower c) in
                    let high : Includes (new_succs limit own is (extended i.addr set))
                        (t1.lists successor) =
                      λ c m. ground (arith, roles c, ext.2 c, bound.2 c, m, up c) in
                    rw (e, f, g, add_successors, new_succs)
                      (add_successors_lem now is (extended i.addr set) t1
                        (add-IsConsistent now successor i.addr i.range false t v) ext.0
                        (ground (arith, ext.1, f)) low high b)
              ]
        ]
      ]

-- After the list of a successor has been merged in, the node's successors are exactly the addresses
-- that the new list has before the node itself, as many as are kept, however the old list looked.
-- The lists and the map of the node agree.
pub contains-merge_table :
    (now : TimeVal) (limit : ℕ) (own : IpEndPoint) (is : List PeerInfo) (t : Table)
    → IsConsistent t
    → (b : IpEndPoint)
    → contains b ((merge_table now limit own is t).lists successor)
      ≡ contains b (new_succs limit own is [])
unfolding merge_table
contains-merge_table now limit own is t v b =
    let set = new_succs limit own is [] in
    let kept = remove_others_lem set (t.lists successor) t v in
    add_successors_lem limit own now is [] (remove_others set (t.lists successor) t) kept.0 tt
      (omega arith) (λ c m. absurd (ground (arith, m)))
      (λ c m. ground (arith, kept.1 successor c, m)) b

pub merge_table-IsConsistent :
    (now : TimeVal) (limit : ℕ) (own : IpEndPoint) (is : List PeerInfo) (t : Table)
    → IsConsistent t
    → IsConsistent (merge_table now limit own is t)
unfolding merge_table
merge_table-IsConsistent now limit own is t v =
    add_successors-IsConsistent now limit own is _
      (remove_others_lem (new_succs limit own is []) (t.lists successor) t v).0

add_successors_full :
    (now : TimeVal) (limit : ℕ) (own : IpEndPoint) (is : List PeerInfo) (t : Table)
    → limit < length (t.lists successor)
    → add_successors now limit own is t ≡ t
unfolding add_successors
add_successors_full now limit own [] t h = refl
add_successors_full now limit own (i ∷ is) t h = ground arith

remove_others_none :
    (set xs : List IpEndPoint) (t : Table) → Includes set xs → remove_others set xs t ≡ t
unfolding remove_others
remove_others_none set [] t h = refl
remove_others_none set (a ∷ xs) t h = ground (
  arith,
  h a (ground (arith, equals_self a)),
  remove_others_none set xs t (λ b m. h b (ground (arith, m))),
)

-- If the successor list is full and the new list names all of its nodes, the merge changes nothing:
-- the ranges stay what they were.
pub merge_table_full :
    (now : TimeVal) (limit : ℕ) (own : IpEndPoint) (is : List PeerInfo) (t : Table)
    → limit < length (t.lists successor)
    → Includes (new_succs limit own is []) (t.lists successor)
    → merge_table now limit own is t ≡ t
unfolding merge_table
merge_table_full now limit own is t h all =
    rw (remove_others_none (new_succs limit own is []) (t.lists successor) t all)
      (add_successors_full now limit own is t h)
