-- ===== src/PubsubStore.antt =====
-- `MercPubsubStore` and `ExpiryTimer` (mercury/PubsubRouter.cpp): the publications and the
-- subscriptions that a node keeps. A copy is stored, so no object is shared with the caller.
pub mod Matching
pub mod Expiry
use distributed_games.TimeVal.{TimeVal, time_none, before, at_most, add_msec}
use distributed_games.Base.{ℕ, Bool, true, false, List, [], ◌∷◌, ◌++◌, ltb, if◌then◌else◌}
use distributed_games.Event.{Event}
use distributed_games.Interest.{Interest}
use distributed_games.Interest
use distributed_games.Message.Routing.{Publication}

pub record PubsubStore : Type 0 where
  pub triggers : List Publication
  pub subs : List Interest

pub new_store : PubsubStore
new_store = record { triggers = []; subs = [] }

unfoldable pub store_trigger : Publication → PubsubStore → PubsubStore
store_trigger pmsg s = record s { triggers = s.triggers ++ (pmsg ∷ []) }

unfoldable pub store_sub : Interest → PubsubStore → PubsubStore
store_sub i s = record s { subs = s.subs ++ (i ∷ []) }

-- The loop that erases the elements for which the predicate holds.
unfoldable pub delete_where : {A : Type 0} → (A → Bool) → List A → List A
delete_where delpred [] = []
delete_where delpred (x ∷ xs) =
    let rest = delete_where delpred xs in if delpred x then rest else x ∷ rest

unfoldable pub delete_triggers : (Publication → Bool) → PubsubStore → PubsubStore
delete_triggers delpred s = record s { triggers = delete_where delpred s.triggers }

unfoldable pub delete_subs : (Interest → Bool) → PubsubStore → PubsubStore
delete_subs delpred s = record s { subs = delete_where delpred s.subs }

-- The loop of the two searches.
unfoldable pub matching : {A : Type 0} → (A → Bool) → List A → List A
matching test [] = []
matching test (x ∷ xs) = let rest = matching test xs in if test x then x ∷ rest else rest

unfoldable pub get_overlap_subs : Publication → PubsubStore → List Interest
get_overlap_subs pmsg s = matching (λ i. Interest.overlaps i pmsg.event) s.subs

unfoldable pub get_overlap_triggers : Interest → PubsubStore → List Publication
get_overlap_triggers i s = matching (λ p. Interest.overlaps i p.event) s.triggers

unfoldable pub clear : PubsubStore → PubsubStore
clear s = delete_triggers (λ p. true) (delete_subs (λ i. true) s)

-- `ExpiryTimer::OnTimeout`: what died before now is deleted.
unfoldable pub on_timeout : TimeVal → PubsubStore → PubsubStore
on_timeout now s =
    delete_subs (λ i. before i.death_time now)
      (delete_triggers (λ p. before p.event.death_time now) s)
