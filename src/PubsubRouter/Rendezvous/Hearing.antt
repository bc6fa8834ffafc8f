-- ===== src/PubsubRouter/Rendezvous/Hearing.antt =====
-- Subscribers hear of what matches.
use distributed_games.TimeVal.{TimeVal, at_most}
use distributed_games.Base.{
  ℕ, ◌≡◌, refl, ap, ◌∙◌, sym, Bool, true, false, not, ◌&&◌, ◌||◌, if◌then◌else◌, pos, none, some,
  List, [], ◌∷◌, ◌++◌, map, arith, Bool-cases, inl, inr,
}
use mathlib.Core.List.{Memᴰ}
use mathlib.Core.List.Memᴰ
use distributed_games.Address.{IpEndPoint, equals}
use distributed_games.Constraint.{Constraint, get_route_directions}
use distributed_games.Interest.{Interest, get_constraint}
use distributed_games.Interest
use distributed_games.Message.Routing.{Publication}
use distributed_games.Hub.Table.{less_sid}
use distributed_games.PubsubStore.{PubsubStore, matching, get_overlap_subs}
use distributed_games.PubsubRouter.Rendezvous.{
  Place, Group, Delivery, Answer, add_match, is_sent, group_matches, send_group,
  deliver_pub_to_subscribers, handle_pub_at_rendezvous, is_match, keep_trigger, send_ack,
}

-- Whether an address is among the subscribers of some groups, or is sent something.
abbrev pub has_group : IpEndPoint → List Group → Bool
has_group a [] = false
has_group a (g ∷ gs) = equals g.subscriber a || has_group a gs

abbrev pub is_told : IpEndPoint → List Delivery → Bool
is_told a [] = false
is_told a (d ∷ ds) = equals d.to a || is_told a ds

-- Whether an interest is that of a subscriber and calls for a publication that it matches: the
-- publication is not the subscriber's own, or those are wanted, the interest is alive, and no node
-- on the left has matched the two.
abbrev pub wants : Place → Bool → Publication → IpEndPoint → Interest → Bool
wants l left pmsg a i =
    equals i.subscriber a
    && ((l.send_backpub || not (equals i.subscriber pmsg.creator))
        && (not (at_most i.death_time l.now) && elim (get_constraint i (pos l.hub_id)) [
          | none ↦ false
          | some c ↦ not ((get_route_directions l.own l.am_rightmost c).left && left)
        ]))

abbrev pub any_wants : Place → Bool → Publication → IpEndPoint → List Interest → Bool
any_wants l left pmsg a [] = false
any_wants l left pmsg a (i ∷ is) = wants l left pmsg a i || any_wants l left pmsg a is

-- Every interest has a constraint on the hub's attribute.
abbrev pub AreConstrained : ℕ → List Interest → Type 0
AreConstrained hub_id [] = Unit {0}
AreConstrained hub_id (i ∷ is) =
    ((c : Constraint) × (get_constraint i (pos hub_id) ≡ some c)) × AreConstrained hub_id is

equals_groups :
    (a b c : IpEndPoint) → less_sid b c ≡ false → less_sid c b ≡ false → equals c a ≡ equals b a
unfolding less_sid equals
equals_groups a b c h k = ground arith

add_match-has_group :
    (a : IpEndPoint) (i : Interest) (gs : List Group)
    → has_group a (add_match i gs) ≡ (equals i.subscriber a || has_group a gs)
unfolding add_match
add_match-has_group a i [] = refl
add_match-has_group a i (g ∷ gs) =
    ground (arith, equals_groups a i.subscriber g.subscriber, add_match-has_group a i gs)

module _ (l : Place) (left : Bool) (pmsg : Publication) where
  is_sent_lem :
      (i : Interest) (c : Constraint)
      → get_constraint i (pos l.hub_id) ≡ some c
      → (b : Bool) × (is_sent l left pmsg i ≡ some b)
        × ((a : IpEndPoint) → wants l left pmsg a i ≡ (equals i.subscriber a && b))
  unfolding is_sent
  is_sent_lem i c e = elim (Bool-cases (not l.send_backpub && equals i.subscriber pmsg.creator)) [
    | inl x ↦ (false, ground (arith, x), λ a. ground (arith, x))
    | inr x ↦ elim (Bool-cases (at_most i.death_time l.now)) [
      | inl y ↦ (false, ground (arith, x, y), λ a. ground (arith, x, y))
      | inr y ↦ (
        not ((get_route_directions l.own l.am_rightmost c).left && left),
        ground (arith, x, y, e),
        λ a. ground (arith, x, y, e),
      )
    ]
  ]

  group_matches-has_group :
      (is : List Interest) (gs : List Group)
      → AreConstrained l.hub_id is
      → (hs : List Group) × (group_matches l left pmsg is gs ≡ some hs)
        × ((a : IpEndPoint) → has_group a hs ≡ (has_group a gs || any_wants l left pmsg a is))
  unfolding group_matches
  group_matches-has_group [] gs v = (gs, refl, λ a. ground arith)
  group_matches-has_group (i ∷ is) gs v =
      let ((c, e), rest) = v in
      let (b, x, w) = is_sent_lem i c e in
      let (hs, y, k) = group_matches-has_group is (if b then add_match i gs else gs) rest in
      (hs, ground (arith, x, y), λ a. ground (arith, x, w a, k a, add_match-has_group a i gs))

matching-AreConstrained :
    (hub_id : ℕ) (test : Interest → Bool) (is : List Interest)
    → AreConstrained hub_id is
    → AreConstrained hub_id (matching test is)
unfolding matching
matching-AreConstrained hub_id test [] v = tt
matching-AreConstrained hub_id test (i ∷ is) v =
    let rest = matching-AreConstrained hub_id test is v.1 in
    elim (test i)
      as (λ b. AreConstrained hub_id (if b then i ∷ matching test is else matching test is)) [
        | true ↦ (v.0, rest)
        | false ↦ rest
      ]

is_told-groups :
    (now : TimeVal) (pmsg : Publication) (a : IpEndPoint) (gs : List Group)
    → is_told a (map (send_group now pmsg) gs) ≡ has_group a gs
is_told-groups now pmsg a [] = refl
is_told-groups now pmsg a (g ∷ gs) =
    ap (λ b. equals g.subscriber a || b) (is_told-groups now pmsg a gs)

-- A publication at its rendezvous is sent to just the subscribers with a stored interest that it
-- matches, that is alive, that is not of the publication's creator, unless those are wanted, and
-- that no node on the left has matched. All stored interests have a constraint on the hub's
-- attribute.
pub deliver_lem :
    (l : Place) (left : Bool) (pmsg : Publication) (s : PubsubStore) (a : IpEndPoint)
    → AreConstrained l.hub_id s.subs
    → (ds : List Delivery) × (deliver_pub_to_subscribers l left pmsg s ≡ some ds)
      × (is_told a ds
          ≡ any_wants l left pmsg a (matching (λ i. Interest.overlaps i pmsg.event) s.subs))
unfolding deliver_pub_to_subscribers get_overlap_subs
deliver_lem l left pmsg s a v =
    let is = matching (λ (i : Interest). Interest.overlaps i pmsg.event) s.subs in
    let (gs, x, k) =
      group_matches-has_group l left pmsg is [] (matching-AreConstrained l.hub_id _ s.subs v) in
    (
      map (send_group l.now pmsg) gs,
      rw (x, deliver_pub_to_subscribers) refl,
      is_told-groups l.now pmsg a gs ∙ k a,
    )

pub any_wants-Memᴰ :
    (l : Place) (left : Bool) (pmsg : Publication) (a : IpEndPoint) (i : Interest)
    (is : List Interest)
    → Memᴰ i is
    → wants l left pmsg a i ≡ true
    → any_wants l left pmsg a is ≡ true
any_wants-Memᴰ l left pmsg a i [] m w = absurd (Memᴰ.not-nil m)
any_wants-Memᴰ l left pmsg a i (j ∷ is) m w = elim (Memᴰ.cases_cons m) [
  | inl q ↦
      let x : wants l left pmsg a j ≡ true = ap (wants l left pmsg a) (sym q) ∙ w in
      ground (arith, x)
  | inr t ↦
      let x = any_wants-Memᴰ l left pmsg a i is t w in
      ground (arith, x, Bool-cases (wants l left pmsg a j))
]

pub AreConstrained-last :
    (hub_id : ℕ) (is : List Interest) (i : Interest) (c : Constraint)
    → AreConstrained hub_id is
    → get_constraint i (pos hub_id) ≡ some c
    → AreConstrained hub_id (is ++ i ∷ [])
AreConstrained-last hub_id [] i c v e = ((c, e), tt)
AreConstrained-last hub_id (j ∷ is) i c v e = (v.0, AreConstrained-last hub_id is i c v.1 e)

pub Memᴰ-last : {A : Type 0} (x : A) (xs : List A) → Memᴰ x (xs ++ x ∷ [])
Memᴰ-last x [] = Memᴰ.head refl
Memᴰ-last x (y ∷ xs) = Memᴰ.tail (Memᴰ-last x xs)

-- The answer to a publication.
pub handled_lem :
    (l : Place) (remote left : Bool) (pmsg : Publication) (s : PubsubStore) (a : IpEndPoint)
    → AreConstrained l.hub_id s.subs
    → is_match l.event_action ≡ true
    → (ans : Answer) × (handle_pub_at_rendezvous l remote left pmsg s ≡ some ans)
      × (is_told a ans.deliveries
          ≡ any_wants l left pmsg a (matching (λ i. Interest.overlaps i pmsg.event) s.subs))
      × (ans.store ≡ keep_trigger l pmsg s)
unfolding handle_pub_at_rendezvous
handled_lem l remote left pmsg s a v m =
    let (ds, x, k) = deliver_lem l left pmsg s a v in
    (
      record {
        store = keep_trigger l pmsg s;
        acks = if remote && l.use_cache then send_ack l pmsg ∷ [] else [];
        deliveries = ds;
      },
      ground (arith, x, m),
      k,
      refl,
    )
