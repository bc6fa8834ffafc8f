-- ===== src/Interest/Matching.antt =====
-- Which events an interest matches.
use distributed_games.TimeVal.{TimeVal}
use distributed_games.Base.{
  ◌≡◌, ◌↔◌, ◌⊎◌, inl, inr, refl, subst, ◌∙◌, sym, Bool, true, false, Option-cases, none, some, List,
  [], ◌∷◌, ◌≤ℤ◌, if◌then◌else◌, arith,
}
use distributed_games.Packet.Writes.{All}
use distributed_games.Constraint.{Constraint}
use distributed_games.Constraint
use distributed_games.Constraint.Routing.{Allows, Meets}
use distributed_games.Constraint.Overlap.{overlaps_iff}
use distributed_games.Constraint.Vector.{All-find_by_attr}
use distributed_games.Event.{Event, get_constraint_by_attr}
use distributed_games.Interest.{Interest, overlaps_from, overlaps}

abbrev pub Any : {A : Type 0} → (A → Type 0) → List A → Type 0
Any P [] = ⊥
Any P (x ∷ xs) = P x ⊎ Any P xs

-- The event has a constraint of the same attribute.
pub IsShared : Event → Constraint → Type 0
IsShared evt c = (oc : Constraint) × (get_constraint_by_attr evt c.attr_index ≡ some oc)

-- If it has one, they allow a common value.
pub Agrees : Event → Constraint → Type 0
Agrees evt c =
    (oc : Constraint) → get_constraint_by_attr evt c.attr_index ≡ some oc → Meets c (Allows oc)

abbrev pub IsInterval : Constraint → Type 0
IsInterval c = c.min ≤ℤ c.max

distinct : {oc : Constraint} → none ≡ some oc → ⊥
distinct e = ground arith

some_inj : {a b : Constraint} → some a ≡ some b → a ≡ b
some_inj e = ground arith

module _ (evt : Event) (ok : All IsInterval evt.constraints) where
  found-IsInterval :
      (c oc : Constraint) → get_constraint_by_attr evt c.attr_index ≡ some oc → IsInterval oc
  unfolding get_constraint_by_attr
  found-IsInterval c oc h = (All-find_by_attr IsInterval c.attr_index evt.constraints oc ok h).0

  step_none :
      (tried : Bool) (c : Constraint) (cs : List Constraint)
      → get_constraint_by_attr evt c.attr_index ≡ none
      → overlaps_from tried (c ∷ cs) evt ≡ overlaps_from tried cs evt
  unfolding overlaps_from
  step_none tried c cs e = ground arith

  step_some :
      (tried : Bool) (c oc : Constraint) (cs : List Constraint)
      → get_constraint_by_attr evt c.attr_index ≡ some oc
      → overlaps_from tried (c ∷ cs) evt
        ≡ (if Constraint.overlaps c oc then overlaps_from true cs evt else false)
  unfolding overlaps_from
  step_some tried c oc cs e = rw (e, overlaps_from) refl

  overlaps_from_iff :
      (tried : Bool) (cs : List Constraint)
      → All IsInterval cs
      → (overlaps_from tried cs evt ≡ true)
        ↔ (((tried ≡ true) ⊎ Any (IsShared evt) cs) × All (Agrees evt) cs)
  unfolding overlaps_from IsShared Agrees
  overlaps_from_iff tried [] hs =
      (λ e. (inl e, tt), λ (s, u). elim s [ inl e ↦ e | inr x ↦ absurd x ])
  overlaps_from_iff tried (c ∷ cs) hs =
      elim (Option-cases (get_constraint_by_attr evt c.attr_index)) [
        | inl e ↦
            let ih = overlaps_from_iff tried cs hs.1 in
            (
              λ h.
                  let x = ih.0 (sym (step_none tried c cs e) ∙ h) in
                  (
                    elim x.0 [ inl t ↦ inl t | inr y ↦ inr (inr y) ],
                    (λ oc e2. absurd (distinct (sym e ∙ e2)), x.1),
                  ),
              λ (s, (m, a)).
                  step_none tried c cs e
                  ∙ ih.1 (
                    elim s [
                      | inl t ↦ inl t
                      | inr (inl (oc, e2)) ↦ absurd (distinct (sym e ∙ e2))
                      | inr (inr y) ↦ inr y
                    ],
                    a,
                  ),
            )
        | inr (oc, e) ↦
            let ih = overlaps_from_iff true cs hs.1 in
            let iff = overlaps_iff c oc hs.0 (found-IsInterval c oc e) in
            (
              λ h.
                  let x : (Constraint.overlaps c oc ≡ true) × (overlaps_from true cs evt ≡ true) =
                    ground (arith, step_some tried c oc cs e) in
                  (
                    inr (inl (oc, e)),
                    (
                      λ oc2 e2. subst (λ o. Meets c (Allows o)) (some_inj (sym e ∙ e2)) (iff.0 x.0),
                      (ih.0 x.1).1,
                    ),
                  ),
              λ (s, (m, a)). step_some tried c oc cs e ∙ rw (iff.1 (m oc e)) (ih.1 (inl refl, a)),
            )
      ]

-- An interest matches an event exactly if they have an attribute in common, and for each attribute
-- in common there is a value that both allow. The constraints of both are intervals.
pub overlaps_event_iff :
    (i : Interest) (evt : Event)
    → All IsInterval i.constraints
    → All IsInterval evt.constraints
    → (overlaps i evt ≡ true) ↔ (Any (IsShared evt) i.constraints × All (Agrees evt) i.constraints)
unfolding overlaps
overlaps_event_iff i evt hi he =
    let x = overlaps_from_iff evt he false i.constraints hi in
    (
      λ e. let y = x.0 e in (elim y.0 [ inl t ↦ absurd (ground arith) | inr z ↦ z ], y.1),
      λ (s, a). x.1 (inr s, a),
    )

overlaps_from-death_time :
    (tried : Bool) (cs : List Constraint) (evt : Event) (n : TimeVal)
    → overlaps_from tried cs (record evt { death_time = n }) ≡ overlaps_from tried cs evt
unfolding overlaps_from get_constraint_by_attr
overlaps_from-death_time tried [] evt n = refl
overlaps_from-death_time tried (c ∷ cs) evt n =
    let next = overlaps_from-death_time true cs evt n in
    let skip = overlaps_from-death_time tried cs evt n in ground (arith, next, skip)

-- The time of death of an event does not matter for a match.
pub overlaps-death_time :
    (i : Interest) (evt : Event) (n : TimeVal)
    → overlaps i (record evt { death_time = n }) ≡ overlaps i evt
unfolding overlaps
overlaps-death_time i evt n = overlaps_from-death_time false i.constraints evt n
