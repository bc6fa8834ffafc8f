-- ===== src/Constraint/Vector.antt =====
-- The constraints of an interest or an event, at most one for an attribute. `Interest` and
-- `MercuryEvent` run the same loops on them.
use distributed_games.Base.{
  ◌≡◌, refl, subst, Bool-cases, inl, inr, Option, none, some, List, [], ◌∷◌, ℤ, eqb_ℤ, eqb_ℤ_iff,
  if◌then◌else◌, arith,
}
use distributed_games.Packet.Writes.{All}
use distributed_games.Constraint.{Constraint}

-- `GetConstraintByAttr`: the first one of the attribute.
unfoldable pub find_by_attr : ℤ → List Constraint → Option Constraint
find_by_attr attr [] = none
find_by_attr attr (c ∷ cs) = if eqb_ℤ c.attr_index attr then some c else find_by_attr attr cs

-- `AddConstraint`: in place of the one of its attribute, or at the end.
pub put_by_attr : Constraint → List Constraint → List Constraint
put_by_attr c [] = c ∷ []
put_by_attr c (d ∷ ds) =
    let rest = put_by_attr c ds in if eqb_ℤ d.attr_index c.attr_index then c ∷ ds else d ∷ rest

-- What is found after a constraint was added is that one for its attribute, and for any other what
-- was found before.
pub find_by_attr-put_by_attr :
    (attr : ℤ) (c : Constraint) (cs : List Constraint)
    → find_by_attr attr (put_by_attr c cs)
      ≡ (if eqb_ℤ c.attr_index attr then some c else find_by_attr attr cs)
unfolding find_by_attr put_by_attr
find_by_attr-put_by_attr attr c [] = refl
find_by_attr-put_by_attr attr c (d ∷ ds) = ground (arith, find_by_attr-put_by_attr attr c ds)

-- No two constraints are of one attribute.
pub IsIndexed : List Constraint → Type 0
IsIndexed [] = Unit {0}
IsIndexed (c ∷ cs) = (find_by_attr c.attr_index cs ≡ none) × IsIndexed cs

pub IsIndexed-put_by_attr :
    (c : Constraint) (cs : List Constraint) → IsIndexed cs → IsIndexed (put_by_attr c cs)
unfolding IsIndexed put_by_attr find_by_attr
IsIndexed-put_by_attr c [] h = (refl, tt)
IsIndexed-put_by_attr c (d ∷ ds) h =
    ground (arith, IsIndexed-put_by_attr c ds h.1, find_by_attr-put_by_attr d.attr_index c ds)

pub IsIndexed-nil : IsIndexed []
unfolding IsIndexed
IsIndexed-nil = tt

pub All-put_by_attr :
    (P : Constraint → Type 0) (c : Constraint) (cs : List Constraint)
    → P c
    → All P cs
    → All P (put_by_attr c cs)
unfolding put_by_attr
All-put_by_attr P c [] h hs = (h, tt)
All-put_by_attr P c (d ∷ ds) h hs = ground (arith, All-put_by_attr P c ds h hs.1)

-- A constraint that is found is one of the list, and of the attribute asked for.
pub All-find_by_attr :
    (P : Constraint → Type 0) (attr : ℤ) (cs : List Constraint) (c : Constraint)
    → All P cs
    → find_by_attr attr cs ≡ some c
    → P c × (c.attr_index ≡ attr)
unfolding find_by_attr
All-find_by_attr P attr [] c hs h = ground arith
All-find_by_attr P attr (d ∷ ds) c hs h = elim (Bool-cases (eqb_ℤ d.attr_index attr)) [
  | inl e ↦
      let eq : d ≡ c = ground arith in
      subst (λ x. P x × (x.attr_index ≡ attr)) eq (hs.0, (eqb_ℤ_iff d.attr_index attr).0 e)
  | inr e ↦ All-find_by_attr P attr ds c hs.1 (ground arith)
]
