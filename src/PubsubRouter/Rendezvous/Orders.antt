-- ===== src/PubsubRouter/Rendezvous/Orders.antt =====
-- A subscription and a publication that it matches, in either order.
use distributed_games.Base.{ltb_ℤ, ℤ, if◌then◌else◌}
use distributed_games.Int32.{to_uint32}
use distributed_games.PubsubRouter.Rendezvous.{max_ℤ, Delivery}
use distributed_games.TimeVal.{sub_msec, at_most, add_msec}
use distributed_games.Base.{
  ◌≡◌, refl, ap, ◌∙◌, sym, Bool, true, false, not, ◌&&◌, pos, some, List, [], ◌∷◌, ◌++◌, map, arith,
  subst,
}
use mathlib.Core.List.{Memᴰ}
use mathlib.Core.List.Memᴰ
use distributed_games.Address.{equals}
use distributed_games.Constraint.{Constraint}
use distributed_games.Interest.{Interest, get_constraint}
use distributed_games.Interest
use distributed_games.Message.Routing.{Publication, Subscription}
use distributed_games.Interest.Matching.{overlaps-death_time}
use distributed_games.Hub.Table.Finding.{equals_self}
use distributed_games.PubsubStore.{
  PubsubStore, matching, store_sub, store_trigger, get_overlap_triggers,
}
use distributed_games.PubsubStore.Matching.{matching_iff}
use distributed_games.PubsubRouter.Rendezvous.{
  Place, Answer, is_sent, handle_pub_at_rendezvous, handle_sub_at_rendezvous, is_match, is_store,
  is_stored, is_trigger, keep_trigger, keep_interest, trigger,
}
use distributed_games.PubsubRouter.Rendezvous.Hearing.{
  is_told, wants, AreConstrained, handled_lem, any_wants-Memᴰ, AreConstrained-last, Memᴰ-last,
}

dated_interest : Place → Interest → Interest
dated_interest l i = record i { death_time = add_msec l.now i.lifetime }

stored_subs :
    (l : Place) (smsg : Subscription) (s : PubsubStore)
    → is_stored l.interest_action ≡ true
    → l.use_softsubs ≡ true
    → (handle_sub_at_rendezvous l smsg s).store.subs
      ≡ s.subs ++ (dated_interest l smsg.interest ∷ [])
unfolding handle_sub_at_rendezvous store_sub dated_interest
stored_subs l smsg s stored soft = ground (arith, stored, soft)

wants_dated :
    (l later : Place) (pmsg : Publication) (i : Interest) (c : Constraint)
    → get_constraint i (pos later.hub_id) ≡ some c
    → (not later.send_backpub && equals i.subscriber pmsg.creator) ≡ false
    → at_most (add_msec l.now i.lifetime) later.now ≡ false
    → wants later false pmsg i.subscriber (dated_interest l i) ≡ true
unfolding is_sent dated_interest get_constraint
wants_dated l later pmsg i c e other alive =
    ground (arith, equals_self i.subscriber, e, other, alive)

dated_publication : Place → Publication → Publication
dated_publication l p = record p {
  event = record p.event { death_time = add_msec l.now p.event.lifetime };
}

kept_triggers :
    (l : Place) (pmsg : Publication) (s : PubsubStore)
    → l.enable_pubtriggers ≡ true
    → is_store l.event_action ≡ true
    → (keep_trigger l pmsg s).triggers ≡ s.triggers ++ (dated_publication l pmsg ∷ [])
unfolding store_trigger dated_publication
kept_triggers l pmsg s on stored = ground (arith, on, stored)

keep_interest-triggers :
    (l : Place) (i : Interest) (s : PubsubStore) → (keep_interest l i s).triggers ≡ s.triggers
unfolding store_sub
keep_interest-triggers l i s = ground arith

sent_lem :
    (l : Place) (smsg : Subscription) (s : PubsubStore)
    → l.enable_pubtriggers ≡ true
    → is_trigger l.interest_action ≡ true
    → (handle_sub_at_rendezvous l smsg s).deliveries
      ≡ map
          (trigger l.now smsg.interest)
          (matching (λ p. Interest.overlaps smsg.interest p.event) s.triggers)
unfolding handle_sub_at_rendezvous get_overlap_triggers
sent_lem l smsg s on triggers =
    rw (on, triggers)
      (ap
        (λ (ps : List Publication).
          map (trigger l.now smsg.interest)
            (matching (λ p. Interest.overlaps smsg.interest p.event) ps))
        (keep_interest-triggers l smsg.interest s))

time_left_lem :
    (left : ℤ) → to_uint32 (max_ℤ left (pos 0)) ≡ (if ltb_ℤ (pos 0) left then to_uint32 left else 0)
unfolding to_uint32
time_left_lem left = ground arith

module _ (l later : Place) (smsg : Subscription) (pmsg : Publication) (s : PubsubStore)
    (remote : Bool) (overlap : Interest.overlaps smsg.interest pmsg.event ≡ true) where
  -- A subscriber hears of a publication that comes to the node that has stored the subscription, if
  -- the event matches, the subscription is still alive, the publication is not the subscriber's
  -- own, or those are wanted, and the application wants the subscription stored and the publication
  -- matched. Subscriptions expire, no node on the left has matched, and the interests have a
  -- constraint on the hub's attribute.
  pub sub_then_pub :
      (c : Constraint)
      → AreConstrained later.hub_id s.subs
      → get_constraint smsg.interest (pos later.hub_id) ≡ some c
      → is_stored l.interest_action ≡ true
      → l.use_softsubs ≡ true
      → is_match later.event_action ≡ true
      → (not later.send_backpub && equals smsg.interest.subscriber pmsg.creator) ≡ false
      → at_most (add_msec l.now smsg.interest.lifetime) later.now ≡ false
      → (ans : Answer) × (handle_pub_at_rendezvous later remote false pmsg
            (handle_sub_at_rendezvous l smsg s).store
          ≡ some ans)
        × (is_told smsg.interest.subscriber ans.deliveries ≡ true)
  unfolding dated_interest get_constraint Interest.overlaps
  sub_then_pub c v e stored soft match other alive =
      let i = smsg.interest in
      let t = (handle_sub_at_rendezvous l smsg s).store in
      let kept = stored_subs l smsg s stored soft in
      let w : AreConstrained later.hub_id t.subs =
        subst (AreConstrained later.hub_id) (sym kept)
          (AreConstrained-last later.hub_id s.subs (dated_interest l i) c v e) in
      let (ans, x, told, _) = handled_lem later remote false pmsg t i.subscriber w match in
      let found =
        (matching_iff (λ j. Interest.overlaps j pmsg.event) (dated_interest l i) t.subs).1 (
          subst (Memᴰ (dated_interest l i)) (sym kept) (Memᴰ-last (dated_interest l i) s.subs),
          overlap,
        ) in
      (
        ans,
        x,
        told
            ∙ any_wants-Memᴰ later false pmsg i.subscriber (dated_interest l i) _ found
                (wants_dated l later pmsg i c e other alive),
      )

  -- A subscriber is sent a publication that the node has stored before the subscription came, if
  -- the event matches, publications are kept, and the application wants the publication matched and
  -- stored and the subscription to trigger. What is sent has the publication's creator, constraints
  -- and nonce, is marked as matched, and has for its life time the milliseconds that are left to
  -- the publication, or 0 if it has expired: an expired one that is still stored is sent, too. The
  -- interests have a constraint on the hub's attribute.
  pub pub_then_sub :
      AreConstrained l.hub_id s.subs
      → is_match l.event_action ≡ true
      → is_store l.event_action ≡ true
      → l.enable_pubtriggers ≡ true
      → later.enable_pubtriggers ≡ true
      → is_trigger later.interest_action ≡ true
      → let left = sub_msec (add_msec l.now pmsg.event.lifetime) later.now in
        (ans : Answer) × (d : Delivery) × (handle_pub_at_rendezvous l remote false pmsg s
          ≡ some ans)
        × Memᴰ d (handle_sub_at_rendezvous later smsg ans.store).deliveries
        × (d.to ≡ smsg.interest.subscriber)
        × (d.msg.header.hub_id ≡ 255)
        × (d.msg.creator ≡ pmsg.creator)
        × (d.msg.event.constraints ≡ pmsg.event.constraints)
        × (d.msg.event.nonce ≡ pmsg.event.nonce)
        × (d.msg.event.matched ≡ true)
        × (d.msg.event.lifetime ≡ (if ltb_ℤ (pos 0) left then to_uint32 left else 0))
  unfolding dated_publication
  pub_then_sub v match stored on on' triggers =
      let i = smsg.interest in
      let (ans, x, _, st) = handled_lem l remote false pmsg s i.subscriber v match in
      let p = dated_publication l pmsg in
      let kept : ans.store.triggers ≡ s.triggers ++ (p ∷ []) =
        ap (λ (t : PubsubStore). t.triggers) st ∙ kept_triggers l pmsg s on stored in
      let found =
        (matching_iff (λ (q : Publication). Interest.overlaps i q.event) p ans.store.triggers).1 (
          subst (Memᴰ p) (sym kept) (Memᴰ-last p s.triggers),
          overlaps-death_time i pmsg.event (add_msec l.now pmsg.event.lifetime) ∙ overlap,
        ) in
      (
        ans,
        trigger later.now i p,
        x,
        subst (Memᴰ (trigger later.now i p)) (sym (sent_lem later smsg ans.store on' triggers))
            (Memᴰ.map (trigger later.now i) found),
        refl,
        refl,
        refl,
        refl,
        refl,
        refl,
        time_left_lem (sub_msec (add_msec l.now pmsg.event.lifetime) later.now),
      )
