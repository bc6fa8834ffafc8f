-- ===== src/PubsubStore/Expiry.antt =====
-- What the expiry timer leaves in the store.
use distributed_games.TimeVal.{TimeVal, before, at_most}
use distributed_games.Base.{◌≡◌, ◌↔◌, refl, Bool, true, false, List, [], ◌∷◌, if◌then◌else◌, arith}
use mathlib.Core.List.{Memᴰ}
use distributed_games.Interest.{Interest}
use distributed_games.Message.Routing.{Publication}
use distributed_games.PubsubStore.{
  PubsubStore, delete_where, delete_triggers, delete_subs, on_timeout,
}
use distributed_games.PubsubStore.Matching.{matching_iff, delete_where-matching}

kept_iff :
    {A : Type 0} (delpred : A → Bool) (x : A) (xs : List A)
    → Memᴰ x (delete_where delpred xs) ↔ (Memᴰ x xs × (delpred x ≡ false))
kept_iff delpred x xs =
    let iff = matching_iff (λ x. if delpred x then false else true) x xs in
    rw (delete_where-matching delpred xs)
      (λ m. let r = iff.0 m in (r.0, ground arith), λ (m, h). iff.1 (m, ground arith))

-- At a timeout just what died before now goes: the interests and the publications that live on are
-- those that were stored and whose time of death is not past.
pub on_timeout_iff :
    (now : TimeVal) (s : PubsubStore) (i : Interest) (p : Publication)
    → (Memᴰ i (on_timeout now s).subs ↔ (Memᴰ i s.subs × (before i.death_time now ≡ false)))
      × (Memᴰ p (on_timeout now s).triggers
          ↔ (Memᴰ p s.triggers × (before p.event.death_time now ≡ false)))
unfolding on_timeout delete_subs delete_triggers
on_timeout_iff now s i p =
    let ki = kept_iff (λ (i : Interest). before i.death_time now) i s.subs in
    let kp = kept_iff (λ (p : Publication). before p.event.death_time now) p s.triggers in
    (
      (λ m. let r = ki.0 m in (r.0, ground arith), λ (m, h). ki.1 (m, ground arith)),
      (λ m. let r = kp.0 m in (r.0, ground arith), λ (m, h). kp.1 (m, ground arith)),
    )

before-at_most-before :
    (a b c : TimeVal) → before a b ≡ true → at_most b c ≡ true → before a c ≡ true
unfolding before at_most
before-at_most-before a b c h k = ground arith

expire_twice :
    {A : Type 0} (death_time : A → TimeVal) (now later : TimeVal) (xs : List A)
    → at_most now later ≡ true
    → delete_where
        (λ x. before (death_time x) later)
        (delete_where (λ x. before (death_time x) now) xs)
      ≡ delete_where (λ x. before (death_time x) later) xs
unfolding delete_where
expire_twice death_time now later [] h = refl
expire_twice death_time now later (x ∷ xs) h = ground (
  arith,
  h,
  expire_twice death_time now later xs h,
  before-at_most-before (death_time x) now later,
)

-- A timeout that is missed makes no difference after the next one.
pub on_timeout-on_timeout :
    (now later : TimeVal) (s : PubsubStore)
    → at_most now later ≡ true
    → on_timeout later (on_timeout now s) ≡ on_timeout later s
unfolding on_timeout delete_subs delete_triggers
on_timeout-on_timeout now later s h =
    rw
      (
        expire_twice (λ (p : Publication). p.event.death_time) now later s.triggers h,
        expire_twice (λ (i : Interest). i.death_time) now later s.subs h,
      )
      refl
