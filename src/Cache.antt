-- ===== src/Cache.antt =====
-- mercury/Cache.h and mercury/Cache.cpp: the cache of far nodes. The map's keys are pointers to the
-- minima of the entries' ranges, and it orders them as pointers (`less_Value`), so an entry has the
-- place of its minimum in memory here.
pub mod Entries
pub mod Replacement
pub mod Lookup
pub mod Reachable
use distributed_games.Base.{
  ℕ, ◌+◌, Bool, ◌&&◌, ◌==◌, ltb, ltb_ℤ, leb_ℤ, eqb_ℤ, if◌then◌else◌, Option, none, some, List, [],
  ◌∷◌, length,
}
use distributed_games.Value.{Value}
use distributed_games.Address.{IpEndPoint}
use distributed_games.Address
use distributed_games.Constraint.{NodeRange}
use distributed_games.Constraint
use distributed_games.Message.Ring.{HeartBeat}

pub record CacheEntry : Type 0 where
  pub address : IpEndPoint
  pub range : NodeRange
  pub num_used : ℕ
  pub timestamp : ℕ
  pub location : ℕ

abbrev pub int_max : ℕ
int_max = 2147483647

-- The constructor, at a time and a place in memory.
unfoldable pub new_entry : ℕ → ℕ → IpEndPoint → NodeRange → CacheEntry
new_entry now location address range = record {
  address = address;
  range = range;
  num_used = 0;
  timestamp = now;
  location = location;
}

unfoldable pub used : CacheEntry → CacheEntry
used e = if e.num_used == int_max then e else record e { num_used = e.num_used + 1 }

pub record Cache : Type 0 where
  pub max_size : ℕ
  pub entries : List CacheEntry

-- `AddEntry`; `insert` of a map leaves a key that is there as it is.
unfoldable pub add_entry : CacheEntry → List CacheEntry → List CacheEntry
add_entry e [] = e ∷ []
add_entry e (f ∷ fs) =
    let rest = add_entry e fs in
    if ltb e.location f.location
    then e ∷ f ∷ fs
    else if e.location == f.location
    then f ∷ fs
    else f ∷ rest

unfoldable pub erase : ℕ → List CacheEntry → List CacheEntry
erase location [] = []
erase location (f ∷ fs) =
    let rest = erase location fs in if f.location == location then fs else f ∷ rest

pub less : Value → Value → Value → Bool
less absmax val other = if eqb_ℤ val absmax then leb_ℤ val other else ltb_ℤ val other

-- The loop of `Cache::LookupEntry` from an entry on; `first` is the first entry of the map, and
-- `none` a failed ASSERT.
pub lookup_from : Value → Value → CacheEntry → List CacheEntry → Option CacheEntry
lookup_from absmax val first [] = none
lookup_from absmax val first (cur ∷ []) =
    if leb_ℤ cur.range.max val
    then some cur
    else if ltb_ℤ val first.range.max
    then if leb_ℤ first.range.min val then some first else some cur
    else none
lookup_from absmax val first (cur ∷ next ∷ rest) =
    let later = lookup_from absmax val first (next ∷ rest) in
    if leb_ℤ cur.range.max val && less absmax val next.range.max
    then if ltb_ℤ val next.range.min then some cur else some next
    else later

-- `Cache::LookupEntry`: what is found, `NULL` (`some none`), or a failed ASSERT (`none`).
pub lookup_entry : Value → Value → Cache → Option (Option CacheEntry)
lookup_entry absmax val c = elim c.entries [
  | [] ↦ some none
  | e ∷ es ↦ elim (lookup_from absmax val e (e ∷ es)) [ none ↦ none | some f ↦ some (some f) ]
]

-- `SingleCache::InsertEntry`
pub insert_single : CacheEntry → Cache → Cache
insert_single e c = elim c.entries [
  | [] ↦ record c { entries = add_entry e [] }
  | f ∷ fs ↦ record c { entries = add_entry e fs }
]

abbrev pub same_node : CacheEntry → CacheEntry → Bool
same_node e f = Address.equals e.address f.address && Constraint.equals e.range f.range

-- The search for the same node: the entries with the time of the first such renewed.
unfoldable pub renew : ℕ → CacheEntry → List CacheEntry → Option (List CacheEntry)
renew now e [] = none
renew now e (f ∷ fs) =
    let rest = renew now e fs in
    if same_node f e
    then some (record f { timestamp = now } ∷ fs)
    else elim rest [ none ↦ none | some gs ↦ some (f ∷ gs) ]

-- The search for the entry to kick: the first with the least count below `least`.
unfoldable pub least_used : ℕ → Option CacheEntry → List CacheEntry → Option CacheEntry
least_used least kick [] = kick
least_used least kick (f ∷ fs) =
    least_used (if ltb f.num_used least then f.num_used else least)
      (if ltb f.num_used least then some f else kick) fs

-- The eviction; `none` is the failed ASSERT that there is an entry to kick.
unfoldable pub replace : CacheEntry → Cache → Option Cache
replace e c = elim (least_used int_max none c.entries) [
  | none ↦ none
  | some k ↦ some (record c { entries = add_entry e (erase k.location c.entries) })
]

-- `LRUCache::InsertEntry`
unfoldable pub insert_lru : ℕ → CacheEntry → Cache → Option Cache
unfolding replace
insert_lru now e c = elim (renew now e c.entries) [
  | some es ↦ some (record c { entries = es })
  | none ↦
      if ltb (length c.entries) c.max_size
      then some (record c { entries = add_entry (record e { num_used = 0 }) c.entries })
      else replace e c
]

count_use : ℕ → List CacheEntry → List CacheEntry
count_use location [] = []
count_use location (f ∷ fs) =
    let rest = count_use location fs in if f.location == location then used f ∷ fs else f ∷ rest

-- `LRUCache::LookupEntry`: the cache with the use counted, and the entry.
pub lookup_lru : Value → Value → Cache → Option (Cache × Option CacheEntry)
unfolding count_use
lookup_lru absmax val c = elim (lookup_entry absmax val c) [
  | none ↦ none
  | some none ↦ some (c, none)
  | some (some e) ↦ some (record c { entries = count_use e.location c.entries }, some (used e))
]

-- `Hub::HandleAck` with a cache of the type that `Hub` makes; without one it does nothing.
pub handle_ack : ℕ → ℕ → ℕ → HeartBeat → Cache → Option Cache
handle_ack hub_id now location ack c =
    if ack.header.hub_id == hub_id
    then insert_lru now (new_entry now location ack.header.sender ack.range) c
    else some c
