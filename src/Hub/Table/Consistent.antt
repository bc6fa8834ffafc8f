-- ===== src/Hub/Table/Consistent.antt =====
-- The lists and the types of the peers in the map agree.
use distributed_games.Base.{
  ◌≡◌, refl, ap, Bool, true, false, not, ◌&&◌, ◌||◌, if◌then◌else◌, List, [], ◌∷◌, ◌++◌, arith,
  Bool-cases, inl, inr,
}
use distributed_games.TimeVal.{TimeVal}
use distributed_games.Address.{IpEndPoint, equals}
use distributed_games.Constraint.{NodeRange}
use distributed_games.Peer.{PeerType, same_type, successor, predecessor, long_nbr, rev_long_nbr}
use distributed_games.Hub.Table.{
  Table, find_peer, set_list, add, remove, clear, contains, erase_first,
}
use distributed_games.Hub.Table.Finding.{equals-eq, equals_self, typed, is_kept}
use distributed_games.Hub.Table.Typed.{typed-add, typed-remove_peer, typed-remove_peers}

-- No address stands in a list twice.
abbrev pub IsDistinct : List IpEndPoint → Type 0
IsDistinct [] = Unit {0}
IsDistinct (a ∷ xs) = (contains a xs ≡ false) × IsDistinct xs

pub record IsConsistent (t : Table) : Type 0 where
  pub listed :
      (k : PeerType) (a : IpEndPoint) → contains a (t.lists k) ≡ typed k (find_peer a t.peers)
  pub distinct : (k : PeerType) → IsDistinct (t.lists k)
  pub kept : (a : IpEndPoint) → is_kept (find_peer a t.peers) ≡ true

same_type-eq : (k j : PeerType) → same_type k j ≡ true → k ≡ j
same_type-eq successor successor h = refl
same_type-eq predecessor predecessor h = refl
same_type-eq long_nbr long_nbr h = refl
same_type-eq rev_long_nbr rev_long_nbr h = refl
same_type-eq k j h = absurd (ground (arith, h))

pub contains_same :
    (a b : IpEndPoint) (xs : List IpEndPoint) → equals a b ≡ true → contains b xs ≡ contains a xs
contains_same a b xs h = ground (arith, equals-eq a b h)

pub contains-append :
    (a b : IpEndPoint) (xs : List IpEndPoint)
    → contains b (xs ++ a ∷ []) ≡ (contains b xs || equals a b)
contains-append a b [] = ground arith
contains-append a b (x ∷ xs) = ground (arith, contains-append a b xs)

pub equals-sym : (a b : IpEndPoint) → equals a b ≡ equals b a
unfolding equals
equals-sym a b = ground arith

pub IsDistinct-append :
    (a : IpEndPoint) (xs : List IpEndPoint)
    → contains a xs ≡ false
    → IsDistinct xs
    → IsDistinct (xs ++ a ∷ [])
IsDistinct-append a [] h d = (refl, tt)
IsDistinct-append a (x ∷ xs) h d =
    ground (arith, contains-append a x xs, equals-sym a x, IsDistinct-append a xs)

pub contains-erase_first :
    (a b : IpEndPoint) (xs : List IpEndPoint)
    → IsDistinct xs
    → contains b (erase_first a xs) ≡ (not (equals a b) && contains b xs)
unfolding erase_first
contains-erase_first a b [] d = ground arith
contains-erase_first a b (x ∷ xs) d = ground (
  arith,
  equals-eq x a,
  equals-eq x b,
  equals-eq a b,
  equals_self b,
  equals_self a,
  contains_same a b xs,
  contains-erase_first a b xs,
)

pub erase_first-IsDistinct :
    (a : IpEndPoint) (xs : List IpEndPoint) → IsDistinct xs → IsDistinct (erase_first a xs)
unfolding erase_first
erase_first-IsDistinct a [] d = tt
erase_first-IsDistinct a (x ∷ xs) d =
    ground (arith, contains-erase_first a x xs, erase_first-IsDistinct a xs)

-- The list that `add` leaves, and the one that `remove` leaves.
abbrev added : IpEndPoint → Bool → List IpEndPoint → List IpEndPoint
added a front xs = if contains a xs then xs else if front then a ∷ xs else xs ++ a ∷ []

added_lem :
    (a : IpEndPoint) (front : Bool) (xs : List IpEndPoint)
    → IsDistinct xs
    → IsDistinct (added a front xs)
      × ((b : IpEndPoint) → contains b (added a front xs) ≡ (equals a b || contains b xs))
added_lem a front xs d = elim (Bool-cases (contains a xs)) [
  | inl e ↦ rw e (d, λ b. ground (arith, e, contains_same a b xs))
  | inr e ↦ elim (Bool-cases front) [
    | inl f ↦ rw (e, f) ((e, d), λ b. refl)
    | inr f ↦ rw (e, f) (IsDistinct-append a xs e d, λ b. ground (arith, contains-append a b xs))
  ]
]

-- The lists after a change of one of them.
module _ (k j : PeerType) (l : List IpEndPoint) (lists : PeerType → List IpEndPoint) where
  contains-set_list :
      (b : IpEndPoint) (x y : Bool)
      → contains b l ≡ (x || y && contains b (lists k))
      → contains b (set_list k l lists j)
        ≡ (same_type k j && x || (not (same_type k j) || y) && contains b (lists j))
  contains-set_list b x y h = elim (Bool-cases (same_type k j)) [
    | inl s ↦ ground (arith, s, h, ap (λ (i : PeerType). contains b (lists i)) (same_type-eq k j s))
    | inr o ↦ ground (arith, o)
  ]

  set_list-IsDistinct :
      IsDistinct l → ((i : PeerType) → IsDistinct (lists i)) → IsDistinct (set_list k l lists j)
  set_list-IsDistinct d h = elim (Bool-cases (same_type k j)) [
    | inl s ↦ rw s d
    | inr o ↦ rw o (h j)
  ]

-- An address gains a role by `add`, and no other role changes.
pub contains-add :
    (now : TimeVal) (k j : PeerType) (a b : IpEndPoint) (r : NodeRange) (front : Bool) (t : Table)
    → IsConsistent t
    → contains b ((add now k a r front t).lists j)
      ≡ (same_type k j && equals a b || contains b (t.lists j))
unfolding add
contains-add now k j a b r front t v = ground (
  arith,
  contains-set_list k j (added a front (t.lists k)) t.lists b (equals a b) true
      ((added_lem a front (t.lists k) (v.distinct k)).1 b),
)

pub add-IsConsistent :
    (now : TimeVal) (k : PeerType) (a : IpEndPoint) (r : NodeRange) (front : Bool) (t : Table)
    → IsConsistent t
    → IsConsistent (add now k a r front t)
unfolding add
add-IsConsistent now k a r front t v = record {
  listed = λ j b.
      ground (
        arith,
        contains-add now k j a b r front t v,
        typed-add now k j a b r t.peers,
        v.listed j b,
      );
  distinct = λ j.
      set_list-IsDistinct k j (added a front (t.lists k)) t.lists
        (added_lem a front (t.lists k) (v.distinct k)).0 v.distinct;
  kept = λ b. (typed-add now k k a b r t.peers).1 (v.kept b);
}

-- An address loses a role by `remove`, and no other role changes.
pub contains-remove :
    (k j : PeerType) (a b : IpEndPoint) (t : Table)
    → IsConsistent t
    → contains b ((remove k a t).lists j)
      ≡ (not (same_type k j && equals a b) && contains b (t.lists j))
unfolding remove
contains-remove k j a b t v = elim (Bool-cases (contains a (t.lists k))) [
  | inl e ↦ ground (
    arith,
    e,
    contains-set_list k j (erase_first a (t.lists k)) t.lists b false (not (equals a b))
        (contains-erase_first a b (t.lists k) (v.distinct k)),
  )
  | inr e ↦ ground (
    arith,
    e,
    contains_same a b (t.lists k),
    ap (λ (i : PeerType). contains b (t.lists i)) (same_type-eq k j _),
  )
]

pub remove-IsConsistent :
    (k : PeerType) (a : IpEndPoint) (t : Table) → IsConsistent t → IsConsistent (remove k a t)
remove-IsConsistent k a t v = elim (Bool-cases (contains a (t.lists k))) [
  | inl e ↦
      unfold remove in
      rw e (record {
        listed = λ j b. ground (
          arith,
          contains-remove k j a b t v,
          e,
          typed-remove_peer k j a b t.peers,
          v.listed j b,
        );
        distinct = λ j.
            set_list-IsDistinct k j (erase_first a (t.lists k)) t.lists
              (erase_first-IsDistinct a (t.lists k) (v.distinct k)) v.distinct;
        kept = λ b. (typed-remove_peer k k a b t.peers).1 (v.kept b);
      })
  | inr e ↦ unfold remove in rw e v
]

-- All addresses lose a role by `clear`, and no other role changes.
pub contains-clear :
    (k j : PeerType) (b : IpEndPoint) (t : Table)
    → contains b ((clear k t).lists j) ≡ (not (same_type k j) && contains b (t.lists j))
unfolding clear
contains-clear k j b t = ground arith

pub clear-IsConsistent : (k : PeerType) (t : Table) → IsConsistent t → IsConsistent (clear k t)
unfolding clear
clear-IsConsistent k t v = record {
  listed = λ j b. ground (
    arith,
    typed-remove_peers k j (t.lists k) b t.peers,
    v.listed j b,
    ap (λ (i : PeerType). contains b (t.lists i)) (same_type-eq k j _),
  );
  distinct = λ j. set_list-IsDistinct k j [] t.lists tt v.distinct;
  kept = λ b. (typed-remove_peers k k (t.lists k) b t.peers).1 (v.kept b);
}

-- A list may be put in another order.
pub reorder-IsConsistent :
    (k : PeerType) (l : List IpEndPoint) (t : Table)
    → IsDistinct l
    → ((b : IpEndPoint) → contains b l ≡ contains b (t.lists k))
    → IsConsistent t
    → IsConsistent (record t { lists = set_list k l t.lists })
reorder-IsConsistent k l t d same v = record {
  listed = λ j b. ground (
    arith,
    v.listed j b,
    same b,
    ap (λ (i : PeerType). contains b (t.lists i)) (same_type-eq k j _),
  );
  distinct = λ j. set_list-IsDistinct k j l t.lists d v.distinct;
  kept = v.kept;
}
