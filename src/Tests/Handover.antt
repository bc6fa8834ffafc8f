-- ===== src/Tests/Handover.antt =====
-- Stored items that are handed over.
use distributed_games.Base.{
  ◌≡◌, ◌+ℤ◌, refl, true, false, if◌then◌else◌, pos, some, [], ◌∷◌, ◌++◌, map, arith, ◌⊎◌, ◌&&◌,
  ◌||◌,
}
use mathlib.Core.List.{Memᴰ}
use distributed_games.Constraint.{NodeRange, overlaps_node_range, overlaps}
use distributed_games.Constraint.Vector.{find_by_attr}
use distributed_games.Event.{get_constraint_by_attr}
use distributed_games.Int32.{to_uint32}
use distributed_games.TimeVal.{
  TimeVal, time_none, before, at_most, add_msec, sub_msec, msec_of_usec,
}
use distributed_games.Interest.{Interest, get_constraint}
use distributed_games.Message.Routing.{Publication}
use distributed_games.PubsubStore.{PubsubStore, matching, store_sub, store_trigger, on_timeout}
use distributed_games.PubsubRouter.Handover.{
  Handed, interest_item, trigger_item, renew, hand_over, handle_subscription_list, add_new_interest,
  add_new_trigger,
}
use distributed_games.PubsubRouter.Handover.Kept.{
  AreRouted, goes, stays, renewed, with_time_left, hand_over_lem,
}
use distributed_games.PubsubRouter.Handover.Expiring.{
  handed_over_interests_die, handed_over_trigger_lives,
}
use distributed_games.LinkMaintainer.Split.{owns, first_part, second_part, split_lem}
use distributed_games.LinkMaintainer.Delivered.{hand_over-split}
use distributed_games.Tests.Samples.{span, point, interest, publication}

abbrev at_five : TimeVal
at_five = record { sec = 0; usec = 5 }

-- A range that passes the end of the ring from 0 to 100.
abbrev past_end : NodeRange
past_end = record { attr_index = pos 1; min = pos 90; max = pos 10 }

split_lem_example :
    (owns past_end (pos 5) ≡ (
      owns (first_part (pos 0) (pos 100) past_end) (pos 5)
      || owns (second_part (pos 0) (pos 100) past_end) (pos 5)))
    × ((owns (first_part (pos 0) (pos 100) past_end) (pos 5)
          && owns (second_part (pos 0) (pos 100) past_end) (pos 5))
        ≡ false)
split_lem_example =
    split_lem (pos 0) (pos 100) past_end (pos 5) (omega arith, omega arith)
      (omega arith, omega arith) (omega arith) (omega arith)

abbrev narrow : NodeRange
narrow = record { attr_index = pos 1; min = pos 7; max = pos 8 }

-- An interest that dies a second after the epoch.
abbrev pub lasting : Interest
lasting = record interest { death_time = record { sec = 1; usec = 0 } }

span_found : get_constraint lasting (pos 1) ≡ some span
unfolding get_constraint find_by_attr
span_found = refl

lasting-AreRouted : AreRouted (interest_item 1) at_five (lasting ∷ [])
lasting-AreRouted = (λ live. (span, span_found), tt)

lasting_alive : at_most lasting.death_time at_five ≡ false
unfolding at_most before
lasting_alive = refl

abbrev front : NodeRange
front = record { attr_index = pos 1; min = pos 0; max = pos 50 }

abbrev back : NodeRange
back = record { attr_index = pos 1; min = pos 50; max = pos 100 }

hand_over_lem_example :
    hand_over (interest_item 1) at_five back front (lasting ∷ [])
    ≡ some (record {
      kept =
          map
            (renewed (interest_item 1) at_five back front)
            (matching (stays (interest_item 1) at_five back front) (lasting ∷ []));
      sent =
          map
            (with_time_left (interest_item 1) at_five)
            (matching (goes (interest_item 1) at_five back front) (lasting ∷ []));
    })
hand_over_lem_example =
    hand_over_lem (interest_item 1) at_five back front (lasting ∷ []) lasting-AreRouted

hand_over-split_example :
    (h : Handed Interest) × (hand_over
        (interest_item 1)
        at_five
        (second_part (pos 0) (pos 100) span)
        (first_part (pos 0) (pos 100) span)
        (lasting ∷ [])
      ≡ some h)
    × ((owns (first_part (pos 0) (pos 100) span) (pos 60) ≡ true)
          × (owns (second_part (pos 0) (pos 100) span) (pos 60) ≡ false)
          × Memᴰ (with_time_left (interest_item 1) at_five lasting) h.sent
        ⊎ (owns (first_part (pos 0) (pos 100) span) (pos 60) ≡ false)
          × (owns (second_part (pos 0) (pos 100) span) (pos 60) ≡ true)
          × Memᴰ
              (renewed
                (interest_item 1)
                at_five
                (second_part (pos 0) (pos 100) span)
                (first_part (pos 0) (pos 100) span)
                lasting)
              h.kept)
hand_over-split_example =
    hand_over-split (interest_item 1) at_five (pos 0) (pos 100) span (omega arith, omega arith)
      (omega arith, omega arith) (lasting ∷ []) lasting-AreRouted lasting span (pos 60)
      (Memᴰ.head refl) lasting_alive span_found (omega arith) (omega arith) (omega arith)
      (omega arith) refl

abbrev empty_store : PubsubStore
empty_store = record { triggers = []; subs = [] }

abbrev with_interest : PubsubStore
with_interest = record { triggers = []; subs = interest ∷ [] }

interest_added : handle_subscription_list 1 span (interest ∷ []) empty_store ≡ some with_interest
unfolding handle_subscription_list add_new_interest get_constraint find_by_attr overlaps_node_range
    overlaps store_sub
interest_added = refl

past_epoch : before time_none at_five ≡ true
unfolding before
past_epoch = refl

handed_over_interests_die_example :
    on_timeout at_five with_interest ≡ on_timeout at_five empty_store
handed_over_interests_die_example =
    handed_over_interests_die at_five 1 span (interest ∷ []) empty_store with_interest past_epoch
      (refl, tt) interest_added

-- A publication with 4000 ms left when it is sent, five microseconds after the epoch.
abbrev dying : Publication
dying = record publication {
  event = record publication.event { death_time = record { sec = 4; usec = 5 } };
}

-- The same at the node that takes it over at 10 seconds.
abbrev pub dated : Publication
dated = record publication {
  event = record publication.event {
    lifetime = 4000;
    death_time = add_msec (record { sec = 10; usec = 0 }) 4000;
  };
}

abbrev at_ten : TimeVal
at_ten = record { sec = 10; usec = 0 }

abbrev at_twelve : TimeVal
at_twelve = record { sec = 12; usec = 0 }

abbrev with_trigger : PubsubStore
with_trigger = record { triggers = dated ∷ []; subs = [] }

time_left : sub_msec dying.event.death_time at_five ≡ pos 4000
unfolding sub_msec msec_of_usec ◌+ℤ◌
time_left = refl

point_found : get_constraint_by_attr dying.event (pos 1) ≡ some point
unfolding get_constraint_by_attr find_by_attr
point_found = refl

point_inside : overlaps_node_range point span ≡ true
unfolding overlaps_node_range overlaps
point_inside = refl

trigger_added :
    add_new_trigger 1 at_ten span (renew (trigger_item 1) at_five dying) empty_store
    ≡ some with_trigger
unfolding add_new_trigger renew get_constraint_by_attr find_by_attr overlaps_node_range overlaps
    store_trigger sub_msec msec_of_usec ◌+ℤ◌ to_uint32
trigger_added = refl

handed_over_trigger_lives_example : (on_timeout at_twelve with_trigger).triggers ≡ (
    if before (add_msec at_ten 4000) at_twelve
    then (on_timeout at_twelve empty_store).triggers
    else (on_timeout at_twelve empty_store).triggers ++ (dated ∷ []))
handed_over_trigger_lives_example =
    handed_over_trigger_lives at_five at_ten at_twelve 1 4000 span point dying empty_store
      with_trigger time_left (omega arith) point_found point_inside trigger_added
