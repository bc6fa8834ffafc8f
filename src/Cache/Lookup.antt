-- ===== src/Cache/Lookup.antt =====
-- What a lookup in the cache finds.
use distributed_games.Base.{
  ℕ, ◌≡◌, refl, ◌&&◌, none, some, List, [], ◌∷◌, arith, ltb_ℤ, leb_ℤ, ◌≤ℤ◌, ◌<ℤ◌, Bool-cases, inl,
  inr, ◌⊎◌,
}
use mathlib.Core.List.{Memᴰ}
use distributed_games.Value.{Value}
use distributed_games.Peer.{Peer}
use distributed_games.Hub
use distributed_games.Hub.{get_nearest_peer, nearest_from}
use distributed_games.Cache.{CacheEntry, Cache, less, lookup_from, lookup_entry}

-- A value that no entry before the last is near to lies before the ends of all of them.
lookup_from_total :
    (absmax val : Value) (first cur : CacheEntry) (rest : List CacheEntry)
    → (val <ℤ cur.range.max → val <ℤ first.range.max)
    → (f : CacheEntry) × (lookup_from absmax val first (cur ∷ rest) ≡ some f)
      × (Memᴰ f (cur ∷ rest) ⊎ (f ≡ first))
unfolding lookup_from less
lookup_from_total absmax val first cur [] h = elim (Bool-cases (leb_ℤ cur.range.max val)) [
  | inl e ↦ (cur, ground (arith, e), inl (Memᴰ.head refl))
  | inr e ↦ elim (Bool-cases (leb_ℤ first.range.min val)) [
    | inl lo ↦ (first, ground (arith, e, lo, h (ground arith)), inr refl)
    | inr hi ↦ (cur, ground (arith, e, hi, h (ground arith)), inl (Memᴰ.head refl))
  ]
]
lookup_from_total absmax val first cur (next ∷ rest) h =
    elim (Bool-cases (leb_ℤ cur.range.max val && less absmax val next.range.max)) [
      | inl e ↦ elim (Bool-cases (ltb_ℤ val next.range.min)) [
        | inl lo ↦ (cur, ground (arith, e, lo), inl (Memᴰ.head refl))
        | inr hi ↦ (next, ground (arith, e, hi), inl (Memᴰ.tail (Memᴰ.head refl)))
      ]
      | inr e ↦
          let (f, found, m) =
            lookup_from_total absmax val first next rest (λ v. h (ground (arith, e, v))) in
          (f, ground (arith, e, found), elim m [ inl i ↦ inl (Memᴰ.tail i) | inr s ↦ inr s ])
    ]

-- A lookup in a cache fails no ASSERT: it gives NULL in an empty cache, and an entry of the cache
-- otherwise, whatever the order of the entries.
pub lookup_entry_total :
    (absmax val : Value) (c : Cache)
    → (c.entries ≡ []) × (lookup_entry absmax val c ≡ some none)
      ⊎ ((f : CacheEntry) × Memᴰ f c.entries × (lookup_entry absmax val c ≡ some (some f)))
unfolding lookup_entry
lookup_entry_total absmax val c = find c.entries refl
  where
    find :
        (es : List CacheEntry)
        → c.entries ≡ es
        → (c.entries ≡ []) × (lookup_entry absmax val c ≡ some none)
          ⊎ ((f : CacheEntry) × Memᴰ f c.entries × (lookup_entry absmax val c ≡ some (some f)))
    find [] n = inl (n, ground (arith, n))
    find (e ∷ es) n =
        let (f, found, m) = lookup_from_total absmax val e e es (λ v. v) in
        let kept : Memᴰ f (e ∷ es) = elim m [ inl i ↦ i | inr s ↦ Memᴰ.head s ] in
        inr (f, rw n kept, ground (arith, n, found))

-- For a value between the ends of two known nodes, the second of which passes the end of the ring,
-- the cache finds the second although it begins behind the value, and the search in the sorted
-- peers finds the first.
pub lookup_entry_wrapped :
    (absmax val : Value) (e f : CacheEntry) (p q : Peer)
    → p.range ≡ e.range
    → q.range ≡ f.range
    → e.range.min <ℤ e.range.max
    → e.range.max ≤ℤ val
    → val <ℤ f.range.min
    → f.range.max ≤ℤ val
    → f.range.min ≤ℤ absmax
    → (size : ℕ)
    → (lookup_entry absmax val (record { max_size = size; entries = e ∷ f ∷ [] }) ≡ some (some f))
      × (get_nearest_peer absmax val (p ∷ q ∷ []) ≡ some p)
unfolding lookup_entry lookup_from less get_nearest_peer nearest_from Hub.less
lookup_entry_wrapped absmax val e f p q pr qr h1 h2 h3 h4 h5 size =
    (ground arith, ground (arith, pr, qr))
