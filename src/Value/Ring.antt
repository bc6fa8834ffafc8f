-- ===== src/Value/Ring.antt =====
-- The tests on the ring, described by the distance that one goes clockwise from `left`.
use distributed_games.Base.{
  ℕ, ◌+◌, ◌-◌, ◌≡◌, ◌≢◌, false, not, ◌&&◌, arith, ltb, leb, if◌then◌else◌, pos_part, neg_part, ◌≤ℤ◌,
  leb_ℤ, eqb_ℤ, eqb_ℤ_iff, pos, ◌-ℤ◌, -ℤ_parts, eq_of_parts, Bool-cases, inl, inr,
}
use distributed_games.Value.{
  Value, is_between, is_between_inclusive, is_between_left_inclusive, is_between_right_inclusive,
}

-- a - b for b ≤ a
abbrev pub gap : Value → Value → ℕ
gap a b = pos_part a + neg_part b - (pos_part b + neg_part a)

pub sub-gap : (a b : Value) → b ≤ℤ a → a -ℤ b ≡ pos (gap a b)
sub-gap a b h = eq_of_parts (a -ℤ b) (pos (gap a b)) (omega (arith, -ℤ_parts a b))

-- The number of values from `lo` to `hi`.
abbrev pub ring_size : Value → Value → ℕ
ring_size lo hi = gap hi lo + 1

abbrev pub IsOnRing : Value → Value → Value → Type 0
IsOnRing lo hi v = (lo ≤ℤ v) × (v ≤ℤ hi)

-- How far it is from `a` up to `b`, past the end of the ring if need be.
unfoldable pub clockwise : ℕ → Value → Value → ℕ
clockwise m a b = if leb_ℤ a b then gap b a else m - gap a b

module _ (lo hi test left right : Value) (t : IsOnRing lo hi test) (l : IsOnRing lo hi left)
    (r : IsOnRing lo hi right) (distinct : left ≢ right) where
  differ : eqb_ℤ left right ≡ false
  differ = elim (Bool-cases (eqb_ℤ left right)) [
    | inl e ↦ absurd (distinct ((eqb_ℤ_iff left right).0 e))
    | inr e ↦ e
  ]

  -- Between two different values of the ring, the four tests compare clockwise distances from the
  -- left one: the closed arc, the arc without its end, without its start, and without both.
  pub is_between-clockwise :
      let m = ring_size lo hi in
      (is_between_inclusive test left right ≡ leb (clockwise m left test) (clockwise m left right))
      × (is_between_left_inclusive test left right
          ≡ ltb (clockwise m left test) (clockwise m left right))
      × (is_between_right_inclusive test left right
          ≡ (ltb 0 (clockwise m left test) && leb (clockwise m left test) (clockwise m left right)))
      × (is_between test left right
          ≡ (ltb 0 (clockwise m left test) && ltb (clockwise m left test) (clockwise m left right)))
  unfolding is_between is_between_inclusive is_between_left_inclusive is_between_right_inclusive
      clockwise
  is_between-clockwise = (
    ground (arith, differ),
    ground (arith, differ),
    ground (arith, differ),
    ground (arith, differ),
  )

-- Two different values cut the ring in two arcs, each with its start: a value is in one of them.
pub left_inclusive_arcs :
    (test left right : Value)
    → left ≢ right
    → is_between_left_inclusive test left right ≡ not (is_between_left_inclusive test right left)
unfolding is_between_left_inclusive
left_inclusive_arcs test left right distinct = elim (Bool-cases (eqb_ℤ left right)) [
  | inl e ↦ absurd (distinct ((eqb_ℤ_iff left right).0 e))
  | inr e ↦ ground arith
]
