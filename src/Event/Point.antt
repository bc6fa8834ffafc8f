-- ===== src/Event/Point.antt =====
-- Point events hold points: each constraint allows one value.
use distributed_games.Base.{
  ℕ, ◌≡◌, refl, subst, Bool, true, some, ℤ, eqb_ℤ, eqb_ℤ_iff, if◌then◌else◌, arith,
}
use distributed_games.Packet.Writes.{All}
use distributed_games.Value.{Value}
use distributed_games.Constraint.{Constraint}
use distributed_games.Constraint.Vector.{
  put_by_attr, find_by_attr-put_by_attr, All-put_by_attr, IsIndexed-nil, IsIndexed,
  IsIndexed-put_by_attr,
}
use distributed_games.Event.{
  Event, new_event, add_constraint, add_tuple, get_value_by_attr, get_constraint_by_attr,
}

-- What holds of every event that is built by these operations: one constraint for an attribute, and
-- for a point event its minimum is its maximum.
pub IsWellFormed : Event → Type 0
IsWellFormed e =
    IsIndexed e.constraints × (e.is_point ≡ true → All (λ c. c.min ≡ c.max) e.constraints)

pub new_event-IsWellFormed : (is_point : Bool) (nonce : ℕ) → IsWellFormed (new_event is_point nonce)
unfolding IsWellFormed new_event
new_event-IsWellFormed is_point nonce = (IsIndexed-nil, λ h. tt)

added :
    (e e2 : Event) (c : Constraint)
    → add_constraint e c ≡ some e2
    → (record e { constraints = put_by_attr c e.constraints } ≡ e2)
      × (e.is_point ≡ true → c.min ≡ c.max)
unfolding add_constraint
added e e2 c h = (ground arith, λ p. (eqb_ℤ_iff c.min c.max).0 (ground arith))

-- Adding a constraint keeps an event well formed: one constraint for an attribute, and in a point
-- event each allows one value.
pub add_constraint-IsWellFormed :
    (e e2 : Event) (c : Constraint)
    → IsWellFormed e
    → add_constraint e c ≡ some e2
    → IsWellFormed e2
unfolding IsWellFormed
add_constraint-IsWellFormed e e2 c w h =
    let a = added e e2 c h in
    subst IsWellFormed a.0 (
      IsIndexed-put_by_attr c e.constraints w.0,
      λ p. All-put_by_attr (λ c. c.min ≡ c.max) c e.constraints (a.1 p) (w.1 p),
    )

pub add_tuple-IsWellFormed :
    (e : Event) (attr : ℤ) (value : Value) → IsWellFormed e → IsWellFormed (add_tuple e attr value)
unfolding IsWellFormed add_tuple
add_tuple-IsWellFormed e attr value w = (
  IsIndexed-put_by_attr _ e.constraints w.0,
  λ h. All-put_by_attr (λ c. c.min ≡ c.max) _ e.constraints refl (w.1 h),
)

-- After a tuple was added, the value of its attribute is the tuple's, and that of any other
-- attribute is what it was.
pub get_value_by_attr-add_tuple :
    (e : Event) (attr other : ℤ) (value : Value)
    → get_value_by_attr (add_tuple e attr value) other
      ≡ (if eqb_ℤ attr other then some value else get_value_by_attr e other)
unfolding get_value_by_attr get_constraint_by_attr add_tuple
get_value_by_attr-add_tuple e attr other value = ground (
  arith,
  find_by_attr-put_by_attr other (record { attr_index = attr; min = value; max = value })
      e.constraints,
)
