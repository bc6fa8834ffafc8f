-- ===== src/PubsubRouter/Handover/Expiring.antt =====
-- How long the items live that another node has handed over.
use distributed_games.Base.{subst}
use distributed_games.Int32.{to_uint32}
use distributed_games.TimeVal.{sub_msec, TimeVal, time_none, before, add_msec}
use distributed_games.Base.{
  ℕ, ◌<◌, ◌≡◌, ◌∙◌, Bool, true, false, if◌then◌else◌, some, List, [], ◌∷◌, ◌++◌, pos, arith, inl,
  inr, Option-cases,
}
use distributed_games.Constraint.{NodeRange, Constraint, overlaps_node_range}
use distributed_games.Event.{get_constraint_by_attr}
use distributed_games.Interest.{Interest}
use distributed_games.Message.Routing.{Publication}
use distributed_games.PubsubStore.{
  PubsubStore, store_sub, store_trigger, delete_where, delete_subs, delete_triggers, on_timeout,
}
use distributed_games.PubsubRouter.Handover.{
  add_new_interest, add_new_trigger, handle_subscription_list, renew, trigger_item,
}

-- A list of interests as it comes off the wire, which does not carry times of death.
abbrev pub AreUndated : List Interest → Type 0
AreUndated [] = Unit {0}
AreUndated (i ∷ is) = (i.death_time ≡ time_none) × AreUndated is

module _ {A : Type 0} (delpred : A → Bool) where
  delete_where-last :
      (xs : List A) (x : A)
      → delpred x ≡ true
      → delete_where delpred (xs ++ x ∷ []) ≡ delete_where delpred xs
  unfolding delete_where
  delete_where-last [] x h = ground arith
  delete_where-last (y ∷ xs) x h = ground (arith, delete_where-last xs x h)

  delete_where-keeps_last :
      (xs : List A) (x : A)
      → delpred x ≡ false
      → delete_where delpred (xs ++ x ∷ []) ≡ delete_where delpred xs ++ x ∷ []
  unfolding delete_where
  delete_where-keeps_last [] x h = ground arith
  delete_where-keeps_last (y ∷ xs) x h = ground (arith, delete_where-keeps_last xs x h)

add_undated :
    (now : TimeVal) (hub_id : ℕ) (own : NodeRange) (i : Interest) (s t : PubsubStore)
    → before time_none now ≡ true
    → i.death_time ≡ time_none
    → add_new_interest hub_id own i s ≡ some t
    → on_timeout now t ≡ on_timeout now s
unfolding add_new_interest on_timeout delete_subs delete_triggers store_sub
add_undated now hub_id own i s t later undated e =
    ground (arith, delete_where-last (λ (j : Interest). before j.death_time now) s.subs i)

-- The interests that a node takes over from another are gone at its next timeout: a timeout leaves
-- what it would have left had they not come. They have come off the wire, and the time is not the
-- epoch.
pub handed_over_interests_die :
    (now : TimeVal) (hub_id : ℕ) (own : NodeRange) (is : List Interest) (s t : PubsubStore)
    → before time_none now ≡ true
    → AreUndated is
    → handle_subscription_list hub_id own is s ≡ some t
    → on_timeout now t ≡ on_timeout now s
unfolding handle_subscription_list
handed_over_interests_die now hub_id own [] s t later h e = ground arith
handed_over_interests_die now hub_id own (i ∷ is) s t later h e =
    elim (Option-cases (add_new_interest hub_id own i s)) [
      | inl n ↦ ground (arith, n)
      | inr (u, a) ↦
          handed_over_interests_die now hub_id own is u t later h.1 (ground (arith, a))
          ∙ add_undated now hub_id own i s u later h.0 a
    ]

add_lem :
    (now later : TimeVal) (hub_id : ℕ) (own : NodeRange) (c : Constraint) (p : Publication)
    (s t : PubsubStore)
    → get_constraint_by_attr p.event (pos hub_id) ≡ some c
    → overlaps_node_range c own ≡ true
    → add_new_trigger hub_id now own p s ≡ some t
    → (on_timeout later t).triggers ≡ (
        if before (add_msec now p.event.lifetime) later
        then (on_timeout later s).triggers
        else (on_timeout later s).triggers
          ++ (record p { event = record p.event { death_time = add_msec now p.event.lifetime } }
              ∷ []))
unfolding add_new_trigger on_timeout delete_subs delete_triggers store_trigger
add_lem now later hub_id own c p s t e meets a =
    let dated = record p {
      event = record p.event { death_time = add_msec now p.event.lifetime };
    } in
    let old = λ (q : Publication). before q.event.death_time later in
    ground (
      arith,
      e,
      meets,
      a,
      delete_where-last old s.triggers dated,
      delete_where-keeps_last old s.triggers dated,
    )

-- A publication that is sent with some milliseconds left to it, as a handover does, lives at the
-- node that takes it over just that long from its arrival on: a timeout leaves it exactly if its
-- time has not run out by then. The milliseconds fit in 32 bits, and it meets the node's range.
pub handed_over_trigger_lives :
    (sent now later : TimeVal) (hub_id left : ℕ) (own : NodeRange) (c : Constraint)
    (p : Publication) (s t : PubsubStore)
    → sub_msec p.event.death_time sent ≡ pos left
    → left < 4294967296
    → get_constraint_by_attr p.event (pos hub_id) ≡ some c
    → overlaps_node_range c own ≡ true
    → add_new_trigger hub_id now own (renew (trigger_item hub_id) sent p) s ≡ some t
    → (on_timeout later t).triggers ≡ (
        if before (add_msec now left) later
        then (on_timeout later s).triggers
        else (on_timeout later s).triggers
          ++ (record p {
            event = record p.event { lifetime = left; death_time = add_msec now left };
          }
              ∷ []))
unfolding renew get_constraint_by_attr
handed_over_trigger_lives sent now later hub_id left own c p s t e fits found meets a =
    let same : renew (trigger_item hub_id) sent p
        ≡ record p { event = record p.event { lifetime = left } } =
      unfold to_uint32 in ground (arith, e, fits) in
    add_lem now later hub_id own c (record p { event = record p.event { lifetime = left } }) s t
      found meets (subst (λ (q : Publication). add_new_trigger hub_id now own q s ≡ some t) same a)
