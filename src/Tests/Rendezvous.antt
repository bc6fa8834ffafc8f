-- ===== src/Tests/Rendezvous.antt =====
-- A subscription and a publication at their rendezvous.
use distributed_games.Base.{
  ltb_ℤ, if◌then◌else◌, ℕ, ◌≡◌, refl, true, false, pos, some, List, [], ◌∷◌,
}
use mathlib.Core.List.{Memᴰ}
use distributed_games.TimeVal.{add_msec, at_most, before, sub_msec}
use distributed_games.Int32.{to_uint32}
use distributed_games.Address.{equals}
use distributed_games.Constraint.{overlaps as overlaps_constraint}
use distributed_games.Constraint.Vector.{find_by_attr}
use distributed_games.Event.{get_constraint_by_attr}
use distributed_games.Interest.{get_constraint, overlaps, overlaps_from}
use distributed_games.Message.Routing.{Publication, Subscription}
use distributed_games.PubsubStore.{PubsubStore, matching}
use distributed_games.PubsubRouter.Rendezvous.{
  Place, Delivery, Answer, ev_match_and_store, in_store_and_trigger, handle_pub_at_rendezvous,
  handle_sub_at_rendezvous, deliver_pub_to_subscribers,
}
use distributed_games.PubsubRouter.Rendezvous.Hearing.{is_told, any_wants, deliver_lem}
use distributed_games.PubsubRouter.Rendezvous.Orders.{sub_then_pub, pub_then_sub}
use distributed_games.Tests.Samples.{node, span, interest, header, publication}
use distributed_games.Tests.Hops.{low}
use distributed_games.Tests.Handover.{lasting}

-- The node with the range from 10 to 100 at some time.
abbrev at_time : ℕ → Place
at_time t = record {
  address = low.address;
  hub_id = 1;
  own = span;
  am_rightmost = true;
  now = record { sec = 0; usec = t };
  use_cache = true;
  use_softsubs = true;
  enable_pubtriggers = true;
  send_backpub = false;
  event_action = ev_match_and_store;
  interest_action = in_store_and_trigger;
  ack_nonce = 5;
}

abbrev subscription : Subscription
subscription = record {
  header = record header { type = 16 };
  creator = node;
  metadata = 2;
  interest = interest;
}

-- One that is not the subscriber's own.
abbrev foreign : Publication
foreign = record publication { creator = low.address }

abbrev with_lasting : PubsubStore
with_lasting = record { triggers = []; subs = lasting ∷ [] }

abbrev nothing : PubsubStore
nothing = record { triggers = []; subs = [] }

lasting_found : get_constraint lasting (pos 1) ≡ some span
unfolding get_constraint find_by_attr
lasting_found = refl

interest_found : get_constraint interest (pos 1) ≡ some span
unfolding get_constraint find_by_attr
interest_found = refl

overlap : overlaps subscription.interest foreign.event ≡ true
unfolding overlaps overlaps_from get_constraint_by_attr find_by_attr overlaps_constraint
overlap = refl

not_own : equals interest.subscriber foreign.creator ≡ false
unfolding equals
not_own = refl

deliver_lem_example :
    (ds : List Delivery) × (deliver_pub_to_subscribers (at_time 5) false foreign with_lasting
      ≡ some ds)
    × (is_told node ds
        ≡ any_wants
            (at_time 5)
            false
            foreign
            node
            (matching (λ i. overlaps i foreign.event) (lasting ∷ [])))
deliver_lem_example =
    deliver_lem (at_time 5) false foreign with_lasting node ((span, lasting_found), tt)

not_over : at_most (add_msec (at_time 5).now 30000) (at_time 9).now ≡ false
unfolding at_most before add_msec
not_over = refl

sub_then_pub_example :
    (ans : Answer) × (handle_pub_at_rendezvous
        (at_time 9)
        true
        false
        foreign
        (handle_sub_at_rendezvous (at_time 5) subscription with_lasting).store
      ≡ some ans)
    × (is_told node ans.deliveries ≡ true)
sub_then_pub_example =
    sub_then_pub (at_time 5) (at_time 9) subscription foreign with_lasting true overlap span
      ((span, lasting_found), tt) interest_found refl refl refl not_own not_over

pub_then_sub_example :
    let left = sub_msec (add_msec (at_time 5).now 5000) (at_time 9).now in
    (ans : Answer) × (d : Delivery) × (handle_pub_at_rendezvous
        (at_time 5)
        true
        false
        foreign
        nothing
      ≡ some ans)
    × Memᴰ d (handle_sub_at_rendezvous (at_time 9) subscription ans.store).deliveries
    × (d.to ≡ node)
    × (d.msg.header.hub_id ≡ 255)
    × (d.msg.creator ≡ low.address)
    × (d.msg.event.constraints ≡ foreign.event.constraints)
    × (d.msg.event.nonce ≡ 99)
    × (d.msg.event.matched ≡ true)
    × (d.msg.event.lifetime ≡ (if ltb_ℤ (pos 0) left then to_uint32 left else 0))
pub_then_sub_example =
    pub_then_sub (at_time 5) (at_time 9) subscription foreign nothing true overlap tt refl refl refl
      refl refl
