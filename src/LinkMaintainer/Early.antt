-- ===== src/LinkMaintainer/Early.antt =====
-- A notice that comes before the node has joined.
use distributed_games.Base.{◌≡◌, refl, Bool, true, false, some, arith, Option-cases, inl, inr}
use distributed_games.Constraint.{NodeRange}
use distributed_games.Message.JoinResponse.{JoinResponse}
use distributed_games.Hub.Member.{
  ◌>>=◌, unjoined, get_successor, set_range, set_successor_list, update_sorted,
}
use distributed_games.LinkMaintainer.{Env, time_now, Node}
use distributed_games.LinkMaintainer.Arriving.{
  handle_join_response, take_range, notice_only, on_join_complete,
}
use distributed_games.LinkMaintainer.Handshake.{notice_lem}

-- The response, with the flag that its sender has no successor but the node itself.
abbrev pub with_only : Bool → JoinResponse → JoinResponse
with_only b msg = record msg { succ_is_only_node = b }

module _ (e : Env) (n : Node) (unjoined_n : n.hub.status ≡ unjoined) where
  take_range-only :
      (msg : JoinResponse) (r : NodeRange)
      → take_range e (with_only true msg) r n ≡ take_range e (with_only false msg) r n
  unfolding take_range notice_only on_join_complete
  take_range-only msg r =
      let g =
        set_successor_list (time_now e) e.successors_to_keep msg.sil (set_range (some r) n.hub).0 in
      let m : Node = record n { timer_cancelled = true; hub = g } in
      let u : g.status ≡ unjoined =
        unfold set_successor_list update_sorted set_range in unjoined_n in
      elim (Option-cases (get_successor g)) [
        | inl s ↦ ground (arith, s)
        | inr (p, s) ↦ let first = notice_lem e true m p u s in rw (first, ◌>>=◌) refl
      ]

  -- At a node that is not joined yet, the flag of a join response has no effect: the node is left
  -- with the same neighbours whether or not the sender says that the node is its only neighbour.
  pub only_notice_ignored :
      (msg : JoinResponse)
      → handle_join_response e (with_only true msg) n
        ≡ handle_join_response e (with_only false msg) n
  unfolding handle_join_response
  only_notice_ignored msg = elim (Option-cases msg.assigned_range) [
    | inl a ↦ ground (arith, a)
    | inr (r, a) ↦ ground (arith, a, take_range-only msg r)
  ]
