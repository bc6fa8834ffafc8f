-- ===== src/Tests/Cache.antt =====
-- The cache of far nodes.
use distributed_games.Base.{
  length, ℕ, ℤ, ◌≡◌, refl, ◌⊎◌, true, false, pos, some, none, [], ◌∷◌, arith,
}
use mathlib.Core.List.{Memᴰ}
use distributed_games.Address.{equals}
use distributed_games.Constraint.{equals as equals_range}
use distributed_games.Cache.{
  CacheEntry, Cache, add_entry, insert_lru, renew, lookup_entry, same_node,
}
use distributed_games.Cache.Entries.{any, is_at, IsDistinct}
use distributed_games.Cache.Replacement.{UsedAtLeast, IsValid, insert_lru_full}
use distributed_games.Cache.Reachable.{here, insert_lru-Reach}
use distributed_games.Cache.Lookup.{lookup_entry_total}

abbrev entry_at : ℕ → ℤ → ℤ → ℕ → CacheEntry
entry_at port from to num_used = record {
  address = record { ip = port; port = 1 };
  range = record { attr_index = pos 1; min = from; max = to };
  num_used = num_used;
  timestamp = 5;
  location = port;
}

abbrev first : CacheEntry
first = entry_at 1 (pos 10) (pos 20) 4

abbrev second : CacheEntry
second = entry_at 4 (pos 95) (pos 5) 2

abbrev third : CacheEntry
third = entry_at 3 (pos 60) (pos 90) 0

abbrev full : Cache
full = record { max_size = 2; entries = first ∷ second ∷ [] }

third_absent : any (same_node third) (first ∷ second ∷ []) ≡ false
unfolding equals equals_range
third_absent = refl

full_IsDistinct : IsDistinct (first ∷ second ∷ [])
unfolding equals equals_range
full_IsDistinct = (refl, refl, (refl, refl, tt))

insert_lru_full_example :
    (k : CacheEntry) × (d : Cache) × (insert_lru 9 third full ≡ some d)
    × Memᴰ k (first ∷ second ∷ [])
    × UsedAtLeast k.num_used (first ∷ second ∷ [])
    × (any (is_at k.location) d.entries ≡ false)
    × Memᴰ third d.entries
    × ((first ≡ k) ⊎ Memᴰ first d.entries)
    × (length d.entries ≡ 2)
insert_lru_full_example =
    insert_lru_full 9 third first first full full_IsDistinct third_absent refl (omega arith)
      (Memᴰ.head refl) (omega arith) (Memᴰ.head refl)

abbrev one : Cache
one = record { max_size = 2; entries = record first { num_used = 0 } ∷ [] }

stored : insert_lru 9 first (record { max_size = 2; entries = [] }) ≡ some one
unfolding insert_lru renew add_entry
stored = refl

insert_lru-Reach_example : IsValid one × (any (same_node first) one.entries ≡ true)
insert_lru-Reach_example =
    insert_lru-Reach 2 (record { max_size = 2; entries = [] }) here 9 first one refl stored

lookup_entry_total_example :
    (full.entries ≡ []) × (lookup_entry (pos 99) (pos 50) full ≡ some none)
    ⊎ ((f : CacheEntry) × Memᴰ f full.entries
        × (lookup_entry (pos 99) (pos 50) full ≡ some (some f)))
lookup_entry_total_example = lookup_entry_total (pos 99) (pos 50) full
