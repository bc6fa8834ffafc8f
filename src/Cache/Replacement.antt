-- ===== src/Cache/Replacement.antt =====
-- What the cache holds after an insertion.
use distributed_games.Base.{
  ℕ, ◌≤◌, ◌<◌, ◌≡◌, refl, sym, subst, true, false, ltb, Option, none, some, List, [], ◌∷◌, length,
  arith, Bool-cases, Option-cases, inl, inr, ◌⊎◌,
}
use mathlib.Core.List.{Memᴰ}
use mathlib.Core.List.Memᴰ
use distributed_games.Cache.{
  CacheEntry, Cache, int_max, add_entry, erase, same_node, renew, least_used, replace, insert_lru,
}
use distributed_games.Cache.Entries.{
  any, is_at, IsDistinct, same_node-sym, any-add_entry, add_entry-IsDistinct, length-add_entry,
  Memᴰ-add_entry, Memᴰ-add_entry_other, any-is_at, Memᴰ-erase, erase-removes, any-erase,
  erase-IsDistinct, length-erase, renew-IsDistinct, renew-none, same_node_self,
}

-- Every entry has been used at least so often.
abbrev pub UsedAtLeast : ℕ → List CacheEntry → Type 0
UsedAtLeast n [] = Unit {0}
UsedAtLeast n (f ∷ fs) = (n ≤ f.num_used) × UsedAtLeast n fs

abbrev IsCounted : ℕ → Option CacheEntry → Type 0
IsCounted least none = Unit {0}
IsCounted least (some j) = j.num_used ≡ least

least_used_bounds :
    (least : ℕ) (kick : Option CacheEntry) (fs : List CacheEntry) (k : CacheEntry)
    → IsCounted least kick
    → least_used least kick fs ≡ some k
    → (k.num_used ≤ least) × UsedAtLeast k.num_used fs
unfolding least_used
least_used_bounds least none [] k i h = absurd (ground arith)
least_used_bounds least (some j) [] k i h = ground arith
least_used_bounds least kick (f ∷ fs) k i h = elim (Bool-cases (ltb f.num_used least)) [
  | inl e ↦ ground (arith, e, least_used_bounds f.num_used (some f) fs k refl)
  | inr e ↦ ground (arith, e, least_used_bounds least kick fs k i)
]

least_used_mem :
    (least : ℕ) (kick : Option CacheEntry) (fs : List CacheEntry) (k : CacheEntry)
    → least_used least kick fs ≡ some k
    → (kick ≡ some k) ⊎ Memᴰ k fs
unfolding least_used
least_used_mem least kick [] k h = inl h
least_used_mem least kick (f ∷ fs) k h = elim (Bool-cases (ltb f.num_used least)) [
  | inl e ↦ elim (least_used_mem f.num_used (some f) fs k (ground (arith, e))) [
    | inl s ↦ inr (Memᴰ.head (sym (ground (arith, s))))
    | inr m ↦ inr (Memᴰ.tail m)
  ]
  | inr e ↦ elim (least_used_mem least kick fs k (ground (arith, e))) [
    | inl s ↦ inl s
    | inr m ↦ inr (Memᴰ.tail m)
  ]
]

least_used_kept :
    (least : ℕ) (j : CacheEntry) (fs : List CacheEntry)
    → (k : CacheEntry) × (least_used least (some j) fs ≡ some k)
unfolding least_used
least_used_kept least j [] = (j, refl)
least_used_kept least j (f ∷ fs) = elim (Bool-cases (ltb f.num_used least)) [
  | inl e ↦ rw (e, least_used) (least_used_kept f.num_used f fs)
  | inr e ↦ rw (e, least_used) (least_used_kept least j fs)
]

least_used-some :
    (least : ℕ) (kick : Option CacheEntry) (fs : List CacheEntry) (f : CacheEntry)
    → Memᴰ f fs
    → f.num_used < least
    → (k : CacheEntry) × (least_used least kick fs ≡ some k)
unfolding least_used
least_used-some least kick [] f m h = absurd (Memᴰ.not-nil m)
least_used-some least kick (g ∷ gs) f m h = elim (Bool-cases (ltb g.num_used least)) [
  | inl e ↦ rw (e, least_used) (least_used_kept g.num_used g gs)
  | inr e ↦ elim (Memᴰ.cases_cons m) [
    | inl s ↦ absurd (ground (arith, s))
    | inr n ↦ rw (e, least_used) (least_used-some least kick gs f n h)
  ]
]

renew_absent :
    (now : ℕ) (e : CacheEntry) (fs : List CacheEntry)
    → any (same_node e) fs ≡ false
    → renew now e fs ≡ none
unfolding renew
renew_absent now e [] h = refl
renew_absent now e (f ∷ fs) h = ground (arith, same_node-sym e f, renew_absent now e fs)

-- An insertion for a new node into a full cache succeeds and replaces one entry that has been used
-- least often: that one is gone, the new one is there, so is any other that was, and there are as
-- many as before. Some entry has been used fewer than 2^31 - 1 times, no two are for the same node
-- or at the same place in memory, and the new one has a place of its own.
pub insert_lru_full :
    (now : ℕ) (e f g : CacheEntry) (c : Cache)
    → IsDistinct c.entries
    → any (same_node e) c.entries ≡ false
    → any (is_at e.location) c.entries ≡ false
    → c.max_size ≤ length c.entries
    → Memᴰ f c.entries
    → f.num_used < int_max
    → Memᴰ g c.entries
    → (k : CacheEntry) × (d : Cache) × (insert_lru now e c ≡ some d)
      × Memᴰ k c.entries
      × UsedAtLeast k.num_used c.entries
      × (any (is_at k.location) d.entries ≡ false)
      × Memᴰ e d.entries
      × ((g ≡ k) ⊎ Memᴰ g d.entries)
      × (length d.entries ≡ length c.entries)
unfolding insert_lru replace
insert_lru_full now e f g c distinct n free l m h other =
    let (k, found) = least_used-some int_max none c.entries f m h in
    let kept : Memᴰ k c.entries = elim (least_used_mem int_max none c.entries k found) [
      | inl s ↦ absurd (ground (arith, s))
      | inr i ↦ i
    ] in
    let left = erase k.location c.entries in
    let room = any-erase (is_at e.location) k.location c.entries free in
    (
      k,
      record c { entries = add_entry e left },
      ground (arith, renew_absent now e c.entries n, found),
      kept,
      (least_used_bounds int_max none c.entries k tt found).1,
      ground (
        arith,
        any-add_entry (is_at k.location) e left room,
        erase-removes k.location c.entries distinct,
        any-is_at k e.location c.entries kept,
        free,
      ),
      Memᴰ-add_entry e left room,
      elim (Memᴰ-erase k g c.entries distinct kept other) [
        | inl s ↦ inl s
        | inr i ↦ inr (Memᴰ-add_entry_other e g left i)
      ],
      omega (arith, length-add_entry e left room, length-erase k c.entries kept),
    )

pub record IsValid (c : Cache) : Type 0 where
  pub bounded : length c.entries ≤ c.max_size
  pub distinct : IsDistinct c.entries

add_entry-IsValid :
    (e : CacheEntry) (size : ℕ) (es : List CacheEntry)
    → any (same_node e) es ≡ false
    → any (is_at e.location) es ≡ false
    → IsDistinct es
    → length es < size
    → IsValid (record { max_size = size; entries = add_entry e es })
      × (any (same_node e) (add_entry e es) ≡ true)
add_entry-IsValid e size es n l d room = (
  record {
    bounded = omega (arith, length-add_entry e es l);
    distinct = add_entry-IsDistinct e es n l d;
  },
  ground (arith, any-add_entry (same_node e) e es l, same_node_self e),
)

abbrev pub Holds : CacheEntry → Cache → Type 0
Holds e d = IsValid d × (any (same_node e) d.entries ≡ true)

replace-IsValid :
    (e : CacheEntry) (c d : Cache)
    → any (same_node e) c.entries ≡ false
    → any (is_at e.location) c.entries ≡ false
    → IsValid c
    → replace e c ≡ some d
    → Holds e d
unfolding replace
replace-IsValid e c d n l v h = elim (Option-cases (least_used int_max none c.entries)) [
  | inl r ↦ absurd (ground (arith, r))
  | inr (k, r) ↦ elim (least_used_mem int_max none c.entries k r) [
    | inl s ↦ absurd (ground (arith, s))
    | inr m ↦ subst (Holds e) (ground (arith, r)) (
        add_entry-IsValid e c.max_size (erase k.location c.entries)
          (any-erase (same_node e) k.location c.entries n)
          (any-erase (is_at e.location) k.location c.entries l)
          (erase-IsDistinct k.location c.entries v.distinct)
          (omega (arith, v.bounded, length-erase k c.entries m)))
  ]
]

pub insert_lru-IsValid :
    (now : ℕ) (e : CacheEntry) (c d : Cache)
    → any (is_at e.location) c.entries ≡ false
    → insert_lru now e c ≡ some d
    → IsValid c
    → Holds e d
unfolding insert_lru
insert_lru-IsValid now e c d fresh h v = elim (Option-cases (renew now e c.entries)) [
  | inr (es, r) ↦ ground (arith, r, renew-IsDistinct now e c.entries es r v.distinct)
  | inl r ↦
      let absent = renew-none now e c.entries r in
      elim (Bool-cases (ltb (length c.entries) c.max_size)) [
        | inl room ↦ subst (Holds e) (ground (arith, r, room)) (
            add_entry-IsValid (record e { num_used = 0 }) c.max_size c.entries absent fresh
              v.distinct (ground arith))
        | inr full ↦ replace-IsValid e c d absent fresh v (ground (arith, r, full))
      ]
]
