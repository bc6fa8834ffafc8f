-- ===== src/Cache/Entries.antt =====
-- The entries of the cache under the operations on its map.
use distributed_games.Base.{
  ℕ, ◌+◌, ◌≡◌, refl, Bool, true, false, ◌||◌, ◌==◌, none, some, List, [], ◌∷◌, length, arith,
  Option-cases, Bool-cases, ltb, sym, ◌∙◌, ◌⊎◌, inl, inr,
}
use mathlib.Core.List.{Memᴰ}
use mathlib.Core.List.Memᴰ
use distributed_games.Address.{equals}
use distributed_games.Constraint
use distributed_games.Constraint.{Constraint}
use distributed_games.Address.{IpEndPoint}
use distributed_games.Cache.{CacheEntry, add_entry, erase, same_node, renew}

abbrev pub any : (CacheEntry → Bool) → List CacheEntry → Bool
any p [] = false
any p (f ∷ fs) = p f || any p fs

abbrev pub is_at : ℕ → CacheEntry → Bool
is_at location f = f.location == location

-- No two entries are for the same node, or at the same place in memory.
abbrev pub IsDistinct : List CacheEntry → Type 0
IsDistinct [] = Unit {0}
IsDistinct (f ∷ fs) =
    (any (same_node f) fs ≡ false) × (any (is_at f.location) fs ≡ false) × IsDistinct fs

pub equals-sym : (a b : IpEndPoint) → equals a b ≡ equals b a
unfolding equals
equals-sym a b = ground arith

pub range-sym : (a b : Constraint) → Constraint.equals a b ≡ Constraint.equals b a
unfolding Constraint.equals
range-sym a b = ground arith

pub same_node-sym : (e f : CacheEntry) → same_node e f ≡ same_node f e
same_node-sym e f = ground (arith, equals-sym e.address f.address, range-sym e.range f.range)

pub any-add_entry :
    (p : CacheEntry → Bool) (e : CacheEntry) (fs : List CacheEntry)
    → any (is_at e.location) fs ≡ false
    → any p (add_entry e fs) ≡ (p e || any p fs)
unfolding add_entry
any-add_entry p e [] h = refl
any-add_entry p e (f ∷ fs) h = ground (arith, any-add_entry p e fs)

pub add_entry-IsDistinct :
    (e : CacheEntry) (fs : List CacheEntry)
    → any (same_node e) fs ≡ false
    → any (is_at e.location) fs ≡ false
    → IsDistinct fs
    → IsDistinct (add_entry e fs)
unfolding add_entry
add_entry-IsDistinct e [] n l d = (refl, refl, tt)
add_entry-IsDistinct e (f ∷ fs) n l d = ground (
  arith,
  same_node-sym e f,
  any-add_entry (same_node f) e fs,
  any-add_entry (is_at f.location) e fs,
  add_entry-IsDistinct e fs,
)

pub length-add_entry :
    (e : CacheEntry) (fs : List CacheEntry)
    → any (is_at e.location) fs ≡ false
    → length (add_entry e fs) ≡ length fs + 1
unfolding add_entry
length-add_entry e [] h = omega arith
length-add_entry e (f ∷ fs) h = ground (arith, length-add_entry e fs)

pub any-erase :
    (p : CacheEntry → Bool) (l : ℕ) (fs : List CacheEntry)
    → any p fs ≡ false
    → any p (erase l fs) ≡ false
unfolding erase
any-erase p l [] h = refl
any-erase p l (f ∷ fs) h = ground (arith, any-erase p l fs)

pub erase-IsDistinct : (l : ℕ) (fs : List CacheEntry) → IsDistinct fs → IsDistinct (erase l fs)
unfolding erase
erase-IsDistinct l [] d = tt
erase-IsDistinct l (f ∷ fs) d =
    ground (
      arith,
      any-erase (same_node f) l fs,
      any-erase (is_at f.location) l fs,
      erase-IsDistinct l fs,
    )

pub length-erase :
    (f : CacheEntry) (fs : List CacheEntry)
    → Memᴰ f fs
    → length (erase f.location fs) + 1 ≡ length fs
unfolding erase
length-erase f [] m = absurd (Memᴰ.not-nil m)
length-erase f (g ∷ gs) m = elim (Memᴰ.cases_cons m) [
  | inl e ↦ ground (arith, e)
  | inr n ↦ ground (arith, length-erase f gs n)
]

module _ (now : ℕ) (e : CacheEntry) where
  pub any-renew :
      (p : CacheEntry → Bool) (fs gs : List CacheEntry)
      → ((f : CacheEntry) → p (record f { timestamp = now }) ≡ p f)
      → renew now e fs ≡ some gs
      → any p gs ≡ any p fs
  unfolding renew
  any-renew p [] gs i h = absurd (ground arith)
  any-renew p (f ∷ fs) gs i h = elim (Option-cases (renew now e fs)) [
    | inl n ↦ ground (arith, n, i f)
    | inr (r, n) ↦ ground (arith, n, i f, any-renew p fs r i n)
  ]

  pub renew-IsDistinct :
      (fs gs : List CacheEntry)
      → renew now e fs ≡ some gs
      → IsDistinct fs
      → IsDistinct gs × (length gs ≡ length fs) × (any (same_node e) gs ≡ true)
  unfolding renew
  renew-IsDistinct [] gs h d = absurd (ground arith)
  renew-IsDistinct (f ∷ fs) gs h d = elim (Option-cases (renew now e fs)) [
    | inl n ↦ ground (arith, n, same_node-sym e f)
    | inr (r, n) ↦ ground (
      arith,
      n,
      same_node-sym e f,
      any-renew (same_node f) fs r (λ g. refl) n,
      any-renew (is_at f.location) fs r (λ g. refl) n,
      renew-IsDistinct fs r n,
    )
  ]

  pub renew-none : (fs : List CacheEntry) → renew now e fs ≡ none → any (same_node e) fs ≡ false
  unfolding renew
  renew-none [] h = refl
  renew-none (f ∷ fs) h = elim (Option-cases (renew now e fs)) [
    | inl n ↦ ground (arith, n, same_node-sym e f, renew-none fs)
    | inr (r, n) ↦ absurd (ground (arith, n))
  ]

pub same_node_self : (e : CacheEntry) → same_node e e ≡ true
unfolding equals Constraint.equals
same_node_self e = ground arith

-- The entries that an insertion and a removal keep.
module _ (e : CacheEntry) where
  pub Memᴰ-add_entry :
      (fs : List CacheEntry) → any (is_at e.location) fs ≡ false → Memᴰ e (add_entry e fs)
  unfolding add_entry
  Memᴰ-add_entry [] h = Memᴰ.head refl
  Memᴰ-add_entry (f ∷ fs) h = elim (Bool-cases (ltb e.location f.location)) [
    | inl b ↦ rw (b, add_entry) (Memᴰ.head refl)
    | inr b ↦
        let differs : (e.location == f.location) ≡ false = ground arith in
        rw (b, differs, add_entry) (Memᴰ.tail (Memᴰ-add_entry fs (ground arith)))
  ]

  pub Memᴰ-add_entry_other :
      (g : CacheEntry) (fs : List CacheEntry) → Memᴰ g fs → Memᴰ g (add_entry e fs)
  unfolding add_entry
  Memᴰ-add_entry_other g [] m = absurd (Memᴰ.not-nil m)
  Memᴰ-add_entry_other g (f ∷ fs) m = elim (Bool-cases (ltb e.location f.location)) [
    | inl b ↦ rw (b, add_entry) (Memᴰ.tail m)
    | inr b ↦ elim (Bool-cases (e.location == f.location)) [
      | inl same ↦ rw (b, same, add_entry) m
      | inr other ↦
          rw (b, other, add_entry)
            elim (Memᴰ.cases_cons m) [
              | inl s ↦ Memᴰ.head s
              | inr n ↦ Memᴰ.tail (Memᴰ-add_entry_other g fs n)
            ]
    ]
  ]

pub any-is_at :
    (k : CacheEntry) (l : ℕ) (fs : List CacheEntry)
    → Memᴰ k fs
    → k.location ≡ l
    → any (is_at l) fs ≡ true
any-is_at k l [] m h = absurd (Memᴰ.not-nil m)
any-is_at k l (f ∷ fs) m h = elim (Memᴰ.cases_cons m) [
  | inl s ↦ ground (arith, s, h)
  | inr n ↦ ground (arith, any-is_at k l fs n h)
]

pub Memᴰ-erase :
    (k g : CacheEntry) (fs : List CacheEntry)
    → IsDistinct fs
    → Memᴰ k fs
    → Memᴰ g fs
    → (g ≡ k) ⊎ Memᴰ g (erase k.location fs)
unfolding erase
Memᴰ-erase k g [] d m i = absurd (Memᴰ.not-nil m)
Memᴰ-erase k g (f ∷ fs) d m i = elim (Memᴰ.cases_cons m) [
  | inl s ↦
      let same : (f.location == k.location) ≡ true = ground (arith, s) in
      elim (Memᴰ.cases_cons i) [ inl t ↦ inl (t ∙ sym s) | inr n ↦ inr (rw (same, erase) n) ]
  | inr later ↦
      let other : (f.location == k.location) ≡ false =
        ground (arith, any-is_at k f.location fs later) in
      elim (Memᴰ.cases_cons i) [
        | inl t ↦ inr (rw (other, erase) (Memᴰ.head t))
        | inr n ↦ elim (Memᴰ-erase k g fs d.2 later n) [
          | inl t ↦ inl t
          | inr u ↦ inr (rw (other, erase) (Memᴰ.tail u))
        ]
      ]
]

pub erase-removes :
    (l : ℕ) (fs : List CacheEntry) → IsDistinct fs → any (is_at l) (erase l fs) ≡ false
unfolding erase
erase-removes l [] d = refl
erase-removes l (f ∷ fs) d = ground (arith, erase-removes l fs d.2)
