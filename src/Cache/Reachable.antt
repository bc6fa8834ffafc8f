-- ===== src/Cache/Reachable.antt =====
-- What holds of the cache after any sequence of insertions and lookups.
use distributed_games.Base.{
  ℕ, ◌≡◌, refl, subst, ap, Bool, true, false, Option, none, some, List, [], ◌∷◌, length, arith,
  Option-cases, inl, inr,
}
use distributed_games.Value.{Value}
use distributed_games.Cache.{
  CacheEntry, Cache, used, count_use, lookup_entry, lookup_lru, same_node, insert_lru,
}
use distributed_games.Cache.Entries.{any, is_at, IsDistinct}
use distributed_games.Cache.Replacement.{IsValid, insert_lru-IsValid}

-- The use of the cache: an insertion of an entry that is at a place of its own, and a lookup.
pub data Step : Cache → Cache → Type 0 where
  inserted :
      (now : ℕ) (e : CacheEntry) (c d : Cache)
      → any (is_at e.location) c.entries ≡ false
      → insert_lru now e c ≡ some d
      → Step c d
  looked_up :
      (absmax val : Value) (c d : Cache) (r : Option CacheEntry)
      → lookup_lru absmax val c ≡ some (d, r)
      → Step c d

pub data Reach (c : Cache) : Cache → Type 0 where
  here : Reach c c
  next : {d e : Cache} → Reach c d → Step d e → Reach c e

any-count_use :
    (p : CacheEntry → Bool) (l : ℕ) (fs : List CacheEntry)
    → ((f : CacheEntry) → p (used f) ≡ p f)
    → any p (count_use l fs) ≡ any p fs
unfolding count_use
any-count_use p l [] h = refl
any-count_use p l (f ∷ fs) h = ground (arith, h f, any-count_use p l fs h)

same_node-used : (e f : CacheEntry) → same_node e (used f) ≡ same_node e f
unfolding used
same_node-used e f = ground arith

is_at-used : (l : ℕ) (f : CacheEntry) → is_at l (used f) ≡ is_at l f
unfolding used
is_at-used l f = ground arith

used-any :
    (f : CacheEntry) (fs : List CacheEntry)
    → (any (same_node (used f)) fs ≡ any (same_node f) fs) × ((used f).location ≡ f.location)
unfolding used
used-any f fs = ground arith

count_use-IsDistinct :
    (l : ℕ) (fs : List CacheEntry)
    → IsDistinct fs
    → IsDistinct (count_use l fs) × (length (count_use l fs) ≡ length fs)
unfolding count_use
count_use-IsDistinct l [] d = (tt, refl)
count_use-IsDistinct l (f ∷ fs) d = ground (
  arith,
  used-any f fs,
  ap (λ (k : ℕ). any (is_at k) fs) (used-any f fs).1,
  any-count_use (same_node f) l fs (same_node-used f),
  any-count_use (is_at f.location) l fs (is_at-used f.location),
  count_use-IsDistinct l fs,
)

lookup_lru-IsValid :
    (absmax val : Value) (c d : Cache) (r : Option CacheEntry)
    → lookup_lru absmax val c ≡ some (d, r)
    → IsValid c
    → IsValid d
unfolding lookup_lru
lookup_lru-IsValid absmax val c d r h v = elim (Option-cases (lookup_entry absmax val c)) [
  | inl n ↦ absurd (ground (arith, n))
  | inr (none, n) ↦ let kept : c ≡ d = ground (arith, n) in subst IsValid kept v
  | inr (some e, n) ↦
      let (distinct, same) = count_use-IsDistinct e.location c.entries v.distinct in
      let counted : record c { entries = count_use e.location c.entries } ≡ d = ground (arith, n) in
      subst IsValid counted
        (record { bounded = omega (arith, v.bounded, same); distinct = distinct })
]

Step-IsValid : {c d : Cache} → Step c d → IsValid c → IsValid d
Step-IsValid (inserted now e c d l h) v = (insert_lru-IsValid now e c d l h v).0
Step-IsValid (looked_up absmax val c d r h) v = lookup_lru-IsValid absmax val c d r h v

pub Reach-IsValid : {c d : Cache} → IsValid c → Reach c d → IsValid d
Reach-IsValid v here = v
Reach-IsValid v (next r s) = Step-IsValid s (Reach-IsValid v r)

-- After any sequence of insertions and lookups from an empty cache, an insertion that succeeds
-- leaves at most as many entries as the cache may hold, no two of them for the same node or at the
-- same place, and one for the inserted node. Each new entry has a place in memory of its own.
pub insert_lru-Reach :
    (size : ℕ) (c : Cache)
    → Reach (record { max_size = size; entries = [] }) c
    → (now : ℕ) (e : CacheEntry) (d : Cache) → any (is_at e.location) c.entries ≡ false
    → insert_lru now e c ≡ some d
    → IsValid d × (any (same_node e) d.entries ≡ true)
insert_lru-Reach size c r now e d l h =
    let start : IsValid (record { max_size = size; entries = [] }) = ground arith in
    insert_lru-IsValid now e c d l h (Reach-IsValid start r)
