-- ===== src/LinkMaintainer/Ready.antt =====
-- What the handlers keep of a node: its lists and map of peers agree, and it has a range if it is
-- joined.
use distributed_games.Base.{
  ℕ, ◌≡◌, refl, Bool, true, false, not, ◌||◌, if◌then◌else◌, Option, none, some, List, [], ◌∷◌,
  arith, subst,
}
use distributed_games.TimeVal.{TimeVal}
use distributed_games.Address.{IpEndPoint}
use distributed_games.Constraint.{NodeRange}
use distributed_games.Message.Successors.{PeerInfo}
use distributed_games.Peer.{Peer, long_nbr}
use distributed_games.Peer
use distributed_games.Hub.Table.{find_peer}
use distributed_games.Hub.Member.{
  MemberHub, Outcome, running, exited, fault, ◌>>=◌, update_sorted, set_predecessor, set_successor,
  merge_successor, set_successor_list, merge_successor_list, set_range, get_successor,
}
use distributed_games.Hub.Liveness.{remove_peer, on_peer_death}
use distributed_games.Hub.Sound.{
  IsSound, LeavesSound, update_peer-IsConsistent, remove_peer-IsSound,
}
use distributed_games.Hub.Steps.{
  Step-IsSound, ranged, predecessor_set, successor_set, successor_merged, successors_set,
  merge_successor_list-IsSound,
}
use distributed_games.LinkMaintainer.{Node, Handled}
use distributed_games.LinkMaintainer.Joining.{is_joined}
use distributed_games.LinkMaintainer.Neighbors.{set_peer_range}

abbrev pub has_range : MemberHub → Bool
has_range h = elim h.range [ none ↦ false | some r ↦ true ]

pub record IsReady (h : MemberHub) : Type 0 where
  pub sound : IsSound h
  pub ranged : (not (is_joined h.status) || has_range h) ≡ true

-- A property of what an operation leaves, if the process goes on.
pub record Leaves {A : Type 0} (P : A → Type 0) (o : Outcome A) : Type 0 where
  pub at : (a : A) → o ≡ running a → P a

running-injective : {A : Type 0} (a b : A) → running a ≡ running b → a ≡ b
running-injective a b e = cc

-- The rules for each way an operation is put together.
module _ {A : Type 0} {P : A → Type 0} where
  pub went : (a : A) → P a → Leaves P (running a)
  went a v = record { at = λ b e. subst P (running-injective a b e) v }

  pub crashed : Leaves P fault
  crashed = record { at = λ b e. absurd cc }

  pub ended : Leaves P exited
  ended = record { at = λ b e. absurd cc }

  pub Leaves-if :
      (b : Bool) (o u : Outcome A) → Leaves P o → Leaves P u → Leaves P (if b then o else u)
  Leaves-if true o u v w = v
  Leaves-if false o u v w = w

  pub Leaves-option :
      {B : Type 0} (x : Option B) (o : Outcome A) (f : B → Outcome A)
      → Leaves P o
      → ((b : B) → x ≡ some b → Leaves P (f b))
      → Leaves P (elim x [ none ↦ o | some b ↦ f b ])
  Leaves-option none o f v k = v
  Leaves-option (some b) o f v k = k b refl

  pub Leaves-list :
      {B : Type 0} (xs : List B) (o : Outcome A) (f : B → List B → Outcome A)
      → Leaves P o
      → ((b : B) (bs : List B) → Leaves P (f b bs))
      → Leaves P (elim xs [ [] ↦ o | b ∷ bs ↦ f b bs ])
  Leaves-list [] o f v k = v
  Leaves-list (b ∷ bs) o f v k = k b bs

  pub Leaves->>= :
      {B : Type 0} (Q : B → Type 0) (o : Outcome B) (f : B → Outcome A)
      → Leaves Q o
      → ((b : B) → Q b → Leaves P (f b))
      → Leaves P (o >>= f)
  Leaves->>= Q (running b) f v k = k b (v.at b refl)
  Leaves->>= Q exited f v k = ended
  Leaves->>= Q fault f v k = crashed

abbrev pub IsReadyNode : Node → Type 0
IsReadyNode n = IsReady n.hub

abbrev pub LeavesReady : Outcome Handled → Type 0
LeavesReady = Leaves (λ d. IsReady d.node.hub)

pub set_predecessor-IsReady :
    (now : TimeVal) (a : IpEndPoint) (r : NodeRange) (h : MemberHub)
    → IsReady h
    → IsReady (set_predecessor now a r h)
set_predecessor-IsReady now a r h v = record {
  sound = Step-IsSound (predecessor_set h now a r) v.sound;
  ranged = unfold set_predecessor update_sorted in v.ranged;
}

pub set_successor-IsReady :
    (now : TimeVal) (a : IpEndPoint) (r : NodeRange) (h : MemberHub)
    → IsReady h
    → IsReady (set_successor now a r h)
set_successor-IsReady now a r h v = record {
  sound = Step-IsSound (successor_set h now a r) v.sound;
  ranged = unfold set_successor update_sorted in v.ranged;
}

pub merge_successor-IsReady :
    (now : TimeVal) (a : IpEndPoint) (r : NodeRange) (h : MemberHub)
    → IsReady h
    → IsReady (merge_successor now a r h)
merge_successor-IsReady now a r h v = record {
  sound = Step-IsSound (successor_merged h now a r) v.sound;
  ranged = unfold merge_successor in v.ranged;
}

pub set_successor_list-IsReady :
    (now : TimeVal) (limit : ℕ) (is : List PeerInfo) (h : MemberHub)
    → IsReady h
    → IsReady (set_successor_list now limit is h)
set_successor_list-IsReady now limit is h v = record {
  sound = Step-IsSound (successors_set h now limit is) v.sound;
  ranged = unfold set_successor_list update_sorted in v.ranged;
}

pub set_range-IsReady :
    (r : NodeRange) (h : MemberHub) → IsReady h → IsReady (set_range (some r) h).0
set_range-IsReady r h v = record {
  sound = Step-IsSound (ranged h (some r)) v.sound;
  ranged = unfold set_range in ground arith;
}

pub set_peer_range-IsReady :
    (a : IpEndPoint) (r : NodeRange) (h : MemberHub) → IsReady h → IsReady (set_peer_range a r h)
set_peer_range-IsReady a r h v = record {
  sound =
      update_peer-IsConsistent a (Peer.set_range r) h.table
        (unfold Peer.set_range in λ p. (refl, λ k. refl)) v.sound;
  ranged = v.ranged;
}

-- An outcome that keeps the status and the range of a hub.
abbrev KeepsPlace : MemberHub → MemberHub → Type 0
KeepsPlace h g = (g.status ≡ h.status) × (g.range ≡ h.range)

KeepsPlace-IsReady :
    (h : MemberHub) (o : Outcome MemberHub)
    → LeavesSound o
    → Leaves (KeepsPlace h) o
    → IsReady h
    → Leaves IsReady o
KeepsPlace-IsReady h (running g) s k v =
    let same = k.at g refl in went g (record { sound = s; ranged = ground (arith, same, v.ranged) })
KeepsPlace-IsReady h exited s k v = ended
KeepsPlace-IsReady h fault s k v = crashed

pub merge_successor_list-IsReady :
    (now : TimeVal) (limit : ℕ) (is : List PeerInfo) (h : MemberHub)
    → IsReady h
    → Leaves IsReady (merge_successor_list now limit is h)
unfolding merge_successor_list update_sorted
merge_successor_list-IsReady now limit is h v =
    KeepsPlace-IsReady h (merge_successor_list now limit is h)
      (merge_successor_list-IsSound now limit is h v.sound)
      (Leaves-option h.range _ _ crashed (λ own x. went _ (refl, refl))) v

on_peer_death-place :
    (p : Peer) (h g : MemberHub) → KeepsPlace h g → Leaves (KeepsPlace h) (on_peer_death p g)
unfolding on_peer_death
on_peer_death-place p h g k =
    Leaves-option (get_successor g) _ _ ended (λ s x. went _ (ground (arith, k), ground (arith, k)))

pub remove_peer-IsReady :
    (a : IpEndPoint) (h : MemberHub) → IsReady h → Leaves IsReady (remove_peer a h)
unfolding remove_peer update_sorted
remove_peer-IsReady a h v =
    KeepsPlace-IsReady h (remove_peer a h) (remove_peer-IsSound a h v.sound)
      (Leaves-option (find_peer a h.table.peers) _ _ (went h (refl, refl))
        (λ p x. on_peer_death-place _ h _ (refl, refl)))
      v
