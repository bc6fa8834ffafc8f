-- ===== src/PubsubStore/Matching.antt =====
-- What the searches of the store find.
use distributed_games.Base.{
  ◌≡◌, ◌↔◌, inl, inr, refl, subst, ◌∙◌, sym, ap, Bool, true, false, Bool-cases, List, [], ◌∷◌,
  if◌then◌else◌, arith,
}
use mathlib.Core.List.{Memᴰ}
use mathlib.Core.List.Memᴰ
use distributed_games.Interest.{Interest}
use distributed_games.Interest
use distributed_games.Message.Routing.{Publication}
use distributed_games.PubsubStore.{
  PubsubStore, store_trigger, store_sub, delete_where, matching, get_overlap_subs,
  get_overlap_triggers,
}

both : true ≡ false → ⊥
both e = ground arith

module _ {A : Type 0} (test : A → Bool) where
  keeps : (y : A) (ys : List A) → test y ≡ true → matching test (y ∷ ys) ≡ y ∷ matching test ys
  unfolding matching
  keeps y ys e = rw e refl

  drops : (y : A) (ys : List A) → test y ≡ false → matching test (y ∷ ys) ≡ matching test ys
  unfolding matching
  drops y ys e = rw e refl

  sound : (x : A) (xs : List A) → Memᴰ x (matching test xs) → Memᴰ x xs × (test x ≡ true)
  unfolding matching
  sound x [] m = absurd (Memᴰ.not-nil m)
  sound x (y ∷ ys) m = elim (Bool-cases (test y)) [
    | inl e ↦ elim (Memᴰ.cases_cons (subst (λ l. Memᴰ x l) (keeps y ys e) m)) [
      | inl q ↦ (Memᴰ.head q, ap test q ∙ e)
      | inr t ↦ let r = sound x ys t in (Memᴰ.tail r.0, r.1)
    ]
    | inr e ↦ let r = sound x ys (subst (λ l. Memᴰ x l) (drops y ys e) m) in (Memᴰ.tail r.0, r.1)
  ]

  complete : (x : A) (xs : List A) → Memᴰ x xs → test x ≡ true → Memᴰ x (matching test xs)
  complete x [] m h = absurd (Memᴰ.not-nil m)
  complete x (y ∷ ys) m h = elim (Bool-cases (test y)) [
    | inl e ↦
        rw (keeps y ys e)
          (elim (Memᴰ.cases_cons m) [ inl q ↦ Memᴰ.head q | inr t ↦ Memᴰ.tail (complete x ys t h) ])
    | inr e ↦ rw (drops y ys e) (elim (Memᴰ.cases_cons m) [
      | inl q ↦ absurd (both (sym h ∙ (ap test q ∙ e)))
      | inr t ↦ complete x ys t h
    ])
  ]

  pub matching_iff :
      (x : A) (xs : List A) → Memᴰ x (matching test xs) ↔ (Memᴰ x xs × (test x ≡ true))
  matching_iff x xs = (λ m. sound x xs m, λ (m, h). complete x xs m h)

-- The erasing loop keeps what a search with the opposite test finds.
pub delete_where-matching :
    {A : Type 0} (delpred : A → Bool) (xs : List A)
    → delete_where delpred xs ≡ matching (λ x. if delpred x then false else true) xs
unfolding delete_where matching
delete_where-matching delpred [] = refl
delete_where-matching delpred (x ∷ xs) = ground (arith, delete_where-matching delpred xs)

-- A search for a publication's subscribers finds just the stored interests that match it.
pub get_overlap_subs_iff :
    (i : Interest) (p : Publication) (s : PubsubStore)
    → Memᴰ i (get_overlap_subs p s) ↔ (Memᴰ i s.subs × (Interest.overlaps i p.event ≡ true))
unfolding get_overlap_subs
get_overlap_subs_iff i p s = matching_iff (λ i. Interest.overlaps i p.event) i s.subs

pub get_overlap_triggers_iff :
    (i : Interest) (p : Publication) (s : PubsubStore)
    → Memᴰ p (get_overlap_triggers i s) ↔ (Memᴰ p s.triggers × (Interest.overlaps i p.event ≡ true))
unfolding get_overlap_triggers
get_overlap_triggers_iff i p s = matching_iff (λ p. Interest.overlaps i p.event) p s.triggers

-- An interest and a publication meet at a node, whichever of them arrives first: the second finds
-- the first exactly if the interest matches the publication's event.
pub meet_in_either_order :
    (i : Interest) (p : Publication) (s : PubsubStore)
    → (Memᴰ i (get_overlap_subs p (store_sub i s)) ↔ (Interest.overlaps i p.event ≡ true))
      × (Memᴰ p (get_overlap_triggers i (store_trigger p s)) ↔ (Interest.overlaps i p.event ≡ true))
unfolding store_sub store_trigger
meet_in_either_order i p s =
    let subs = get_overlap_subs_iff i p (store_sub i s) in
    let triggers = get_overlap_triggers_iff i p (store_trigger p s) in
    (
      (λ m. (subs.0 m).1, λ h. subs.1 (Memᴰ.append_right s.subs (Memᴰ.head refl), h)),
      (λ m. (triggers.0 m).1, λ h. triggers.1 (Memᴰ.append_right s.triggers (Memᴰ.head refl), h)),
    )
