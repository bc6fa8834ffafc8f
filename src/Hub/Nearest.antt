-- ===== src/Hub/Nearest.antt =====
-- The nearest peer is the last one that begins at or before the value.
use distributed_games.Base.{
  ◌≡◌, sym, ap, subst, ◌∙◌, ◌⊎◌, some, List, [], ◌∷◌, ltb_ℤ, leb_ℤ, if◌then◌else◌, ◌≤ℤ◌, ◌<ℤ◌,
  arith, Bool-cases, inl, inr,
}
use mathlib.Core.List.{Memᴰ}
use mathlib.Core.List.Memᴰ
use distributed_games.Value.{Value}
use distributed_games.Peer.{Peer}
use distributed_games.Hub.{less, nearest_from, get_nearest_peer}

-- Ranges in the order of the ring, which do not overlap; the last may pass the end of the ring.
abbrev pub IsTiled : Value → List Peer → Type 0
IsTiled absmax [] = Unit {0}
IsTiled absmax (p ∷ []) = (p.range.min <ℤ absmax) × (p.range.max ≤ℤ absmax)
IsTiled absmax (p ∷ q ∷ ps) =
    (p.range.min <ℤ p.range.max) × (p.range.max ≤ℤ q.range.min) × IsTiled absmax (q ∷ ps)

abbrev pub last_peer : Peer → List Peer → Peer
last_peer p [] = p
last_peer p (q ∷ qs) = last_peer q qs

-- The last peer that begins at or before the value; the first is known to.
pub latest : Value → Peer → List Peer → Peer
latest val p [] = p
latest val p (q ∷ qs) = if leb_ℤ q.range.min val then latest val q qs else p

-- Before the first peer, one is past the end of the ring, in reach of the last.
pub nearest : Value → Peer → List Peer → Peer
nearest val p ps = if leb_ℤ p.range.min val then latest val p ps else last_peer p ps

begins_below :
    (absmax : Value) (p : Peer) (ps : List Peer) → IsTiled absmax (p ∷ ps) → p.range.min <ℤ absmax
begins_below absmax p [] t = t.0
begins_below absmax p (q ∷ qs) t = omega (arith, t.0, t.1, begins_below absmax q qs t.2)

latest_here :
    (val : Value) (p q : Peer) (qs : List Peer) → val <ℤ q.range.min → latest val p (q ∷ qs) ≡ p
unfolding latest
latest_here val p q qs h = ground arith

latest_later :
    (val : Value) (p q : Peer) (qs : List Peer)
    → q.range.min ≤ℤ val
    → latest val p (q ∷ qs) ≡ latest val q qs
unfolding latest
latest_later val p q qs h = ground arith

module _ (absmax val : Value) (bound : val ≤ℤ absmax) (first : Peer) where
  last_step :
      (cur : Peer) → cur.range.max ≤ℤ val → nearest_from absmax val first (cur ∷ []) ≡ some cur
  unfolding nearest_from
  last_step cur h = ground arith

  next_to_last :
      (cur next : Peer)
      → IsTiled absmax (cur ∷ next ∷ [])
      → cur.range.max ≤ℤ val
      → nearest_from absmax val first (cur ∷ next ∷ [])
        ≡ some (if leb_ℤ next.range.min val then next else cur)
  unfolding nearest_from less
  next_to_last cur next t h = ground arith

  -- The two ways through a step of the loop that is not the last.
  found :
      (cur next : Peer) (rest : List Peer)
      → next.range.min <ℤ absmax
      → cur.range.max ≤ℤ val
      → next.range.max <ℤ next.range.min ⊎ val <ℤ next.range.max
      → nearest_from absmax val first (cur ∷ next ∷ rest)
        ≡ some (if ltb_ℤ val next.range.min then cur else next)
  unfolding nearest_from less
  found cur next rest b h w = ground arith

  passed :
      (cur next : Peer) (rest : List Peer)
      → val <ℤ cur.range.max
        ⊎ ((next.range.min <ℤ next.range.max)
            × (next.range.max <ℤ absmax)
            × (next.range.max ≤ℤ val))
      → nearest_from absmax val first (cur ∷ next ∷ rest)
        ≡ nearest_from absmax val first (next ∷ rest)
  unfolding nearest_from less
  passed cur next rest w = ground arith

  past_first :
      (cur : Peer) (rest : List Peer)
      → IsTiled absmax (cur ∷ rest)
      → cur.range.max ≤ℤ val
      → nearest_from absmax val first (cur ∷ rest) ≡ some (latest val cur rest)
  unfolding latest
  past_first cur [] t h = last_step cur h
  past_first cur (next ∷ []) t h = next_to_last cur next t h
  past_first cur (next ∷ nnext ∷ rest) t h =
      let below = begins_below absmax nnext rest t.2.2 in
      elim (Bool-cases (ltb_ℤ val next.range.max)) [
        | inl e ↦
            found cur next (nnext ∷ rest) (omega (arith, t.1, t.2.0, t.2.1, below)) h
              (inr (ground arith))
            ∙ ground (arith, latest_here val next nnext rest)
        | inr e ↦
            passed cur next (nnext ∷ rest) (inr (t.2.0, omega (arith, t.2.1, below), ground arith))
            ∙ past_first next (nnext ∷ rest) t.2 (ground arith)
            ∙ ap (λ x. some x) (sym (latest_later val cur next (nnext ∷ rest) (ground arith)))
      ]

  stays :
      (cur next : Peer) (rest : List Peer)
      → IsTiled absmax (cur ∷ next ∷ rest)
      → val <ℤ cur.range.max
      → val <ℤ next.range.max ⊎ (next.range.max <ℤ next.range.min)
  stays cur next [] t h = ground arith
  stays cur next (nnext ∷ rest) t h = inl (omega (arith, t.1, t.2.0, h))

  -- A value of the first range, or below it, passes all peers but the last.
  before_last :
      (cur : Peer) (rest : List Peer)
      → IsTiled absmax (cur ∷ rest)
      → val <ℤ first.range.max
      → val <ℤ cur.range.max ⊎ (cur.range.max <ℤ cur.range.min)
      → nearest_from absmax val first (cur ∷ rest)
        ≡ some (
            if leb_ℤ (last_peer cur rest).range.max val
            then last_peer cur rest
            else if leb_ℤ first.range.min val
            then first
            else last_peer cur rest)
  before_last cur [] t f h = unfold nearest_from in ground arith
  before_last cur (next ∷ rest) t f h =
      passed cur next rest (inl (omega (arith, t.0, h)))
      ∙ before_last next rest t.2 f (stays cur next rest t (omega (arith, t.0, h)))

-- The nearest peer on an ordered ring is the last that begins at or before the value, and for a
-- value before the first peer the last one; no ASSERT fails. If the value lies in the first range,
-- the last peer ends after it.
pub get_nearest_peer_lem :
    (absmax val : Value) (p : Peer) (ps : List Peer)
    → val ≤ℤ absmax
    → IsTiled absmax (p ∷ ps)
    → (p.range.min ≤ℤ val → val <ℤ p.range.max → val <ℤ (last_peer p ps).range.max)
    → get_nearest_peer absmax val (p ∷ ps) ≡ some (nearest val p ps)
unfolding get_nearest_peer nearest
get_nearest_peer_lem absmax val p [] b t h = unfold nearest_from latest in ground arith
get_nearest_peer_lem absmax val p (q ∷ qs) b t h = elim (Bool-cases (ltb_ℤ val p.range.max)) [
  | inl e ↦
      before_last absmax val b p p (q ∷ qs) t (ground arith) (inl (ground arith))
      ∙ ground (arith, latest_here val p q qs)
  | inr e ↦ past_first absmax val b p p (q ∷ qs) t (ground arith) ∙ ground arith
]

-- If the last peer passes the end of the ring and ends at or before the value, it is returned as
-- the nearest even for a value that the first peer covers.
pub get_nearest_peer_overshoot :
    (absmax val : Value) (p q : Peer) (qs : List Peer)
    → val ≤ℤ absmax
    → IsTiled absmax (p ∷ q ∷ qs)
    → p.range.min ≤ℤ val
    → val <ℤ p.range.max
    → (last_peer q qs).range.max ≤ℤ val
    → get_nearest_peer absmax val (p ∷ q ∷ qs) ≡ some (last_peer q qs)
unfolding get_nearest_peer
get_nearest_peer_overshoot absmax val p q qs b t lo hi h =
    before_last absmax val b p p (q ∷ qs) t hi (inl hi) ∙ ground arith

begins_first :
    (absmax : Value) (p q : Peer) (ps : List Peer)
    → IsTiled absmax (p ∷ ps)
    → Memᴰ q (p ∷ ps)
    → p.range.min ≤ℤ q.range.min
begins_first absmax p q [] t m = rw (Memᴰ.eq_of_singleton m) (omega arith)
begins_first absmax p q (r ∷ rs) t m = elim (Memᴰ.cases_cons m) [
  | inl e ↦ rw e (omega arith)
  | inr n ↦ omega (arith, t.0, t.1, begins_first absmax r q rs t.2 n)
]

latest_owner :
    (absmax val : Value) (p q : Peer) (ps : List Peer)
    → IsTiled absmax (p ∷ ps)
    → Memᴰ q (p ∷ ps)
    → q.range.min ≤ℤ val
    → val <ℤ q.range.max
    → latest val p ps ≡ q
unfolding latest
latest_owner absmax val p q [] t m lo hi = sym (Memᴰ.eq_of_singleton m)
latest_owner absmax val p q (r ∷ rs) t m lo hi = elim (Memᴰ.cases_cons m) [
  | inl e ↦
      latest_here val p r rs (omega (arith, t.1, subst (λ (x : Peer). val <ℤ x.range.max) e hi))
      ∙ sym e
  | inr n ↦
      latest_later val p r rs (omega (arith, lo, begins_first absmax r q rs t.2 n))
      ∙ latest_owner absmax val r q rs t.2 n lo hi
]

-- The nearest peer to a value that a known peer covers is that peer.
pub nearest_owner :
    (absmax val : Value) (p q : Peer) (ps : List Peer)
    → IsTiled absmax (p ∷ ps)
    → Memᴰ q (p ∷ ps)
    → q.range.min ≤ℤ val
    → val <ℤ q.range.max
    → nearest val p ps ≡ q
unfolding nearest
nearest_owner absmax val p q ps t m lo hi =
    let first : p.range.min ≤ℤ val = omega (arith, lo, begins_first absmax p q ps t m) in
    ground (arith, latest_owner absmax val p q ps t m lo hi)
