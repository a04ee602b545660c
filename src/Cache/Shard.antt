-- ===== src/Cache/Shard.antt =====
-- rutil/lru_cache.h and rutil/lru_cache.cc: `LRUCacheShard`, its state and its private operations.
-- The circular list of `lru_` is two lists, from `lru_.next`, the oldest, on: `low` ends at
-- `lru_low_pri_`, and `high` is what follows.
pub mod Operations
pub mod Invariant
pub mod Forget
pub mod Evict
pub mod Eviction
pub mod Needed
pub mod Capacity
pub mod Pin
pub mod Lookup
pub mod Pool
pub mod Ratio
pub mod Unpin
pub mod Back
pub mod Return
pub mod Release
pub mod Detach
pub mod Erase
pub mod Store
pub mod Initial
pub mod Replace
pub mod Insert
pub mod Full
pub mod Room
pub mod Admission
use rocksutil.Base.{
  ℕ, zero, suc, ◌+◌, ◌-◌, ◌%◌, ◌≡◌, Bool, true, false, not, ◌&&◌, ◌||◌, ◌==◌, ltb, leb,
  if◌then◌else◌, List, [], ◌∷◌, ◌++◌, u32_mod, add64, sub64,
}
use rocksutil.Cache.Handles.{Handle, Cell, Memory, write, count, remove}
use rocksutil.Cache.Table
use rocksutil.Cache.Table.{Table}

-- `double`: `scale` is the product of a `size_t` and a `double`, `exceeds` is `>` between them,
-- `positive` is `> 0`, and `accepts` is the negation of the test of `NewLRUCache`.
pub record Doubles : Type 1 where
  pub Double : Type 0
  pub scale : ℕ → Double → Double
  pub exceeds : ℕ → Double → Bool
  pub positive : Double → Bool
  pub accepts : Double → Bool
  pub zero_fits :
      (capacity : ℕ) (ratio : Double)
      → accepts ratio ≡ true
      → exceeds 0 (scale capacity ratio) ≡ false

-- `failed` tells that an assertion did not hold, and `freed` has the handles that `Free` got, the
-- last one first.
pub record Shard (D : Type 0) : Type 0 where
  pub capacity : ℕ
  pub usage : ℕ
  pub lru_usage : ℕ
  pub high_pri_pool_usage : ℕ
  pub strict_capacity_limit : Bool
  pub high_pri_pool_ratio : D
  pub high_pri_pool_capacity : D
  pub low : List Handle
  pub high : List Handle
  pub table : Table
  pub cells : Memory
  pub failed : Bool
  pub freed : List Handle

-- The reference count that `Unref` leaves.
abbrev pub less : ℕ → ℕ
less refs = (refs + u32_mod - 1) % u32_mod

module _ {D : Type 0} where
  abbrev pub cell : Handle → Shard D → Cell
  cell e s = s.cells e.address

  abbrev pub check : Bool → Shard D → Shard D
  check holds s = record s { failed = s.failed || not holds }

  abbrev pub set_cell : Handle → Cell → Shard D → Shard D
  set_cell e c s = record s { cells = write e.address c s.cells }

  abbrev pub set_in_cache : Handle → Bool → Shard D → Shard D
  set_in_cache e b s = set_cell e (record (cell e s) { in_cache = b }) s

  abbrev pub set_in_high_pri_pool : Handle → Bool → Shard D → Shard D
  set_in_high_pri_pool e b s = set_cell e (record (cell e s) { in_high_pri_pool = b }) s

  abbrev pub add_usage : ℕ → Shard D → Shard D
  add_usage charge s = record s { usage = add64 s.usage charge }

  abbrev pub sub_usage : ℕ → Shard D → Shard D
  sub_usage charge s = record s { usage = sub64 s.usage charge }

  -- `table_.Remove(e->key(), e->hash)`
  abbrev pub table_remove : Handle → Shard D → Shard D
  table_remove e s = record s { table = (Table.remove e.key e.hash s.table).0 }

  -- `Unref`: the shard, and whether this was the last reference.
  unfoldable pub unref : Handle → Shard D → Shard D × Bool
  unref e s =
      let refs = less (cell e s).refs in
      (set_cell e (record (cell e s) { refs = refs }) (check (ltb 0 (cell e s).refs) s), refs == 0)

  -- `e->next != nullptr`
  abbrev pub linked : Handle → Shard D → Bool
  linked e s = leb 1 (count e.address (s.low ++ s.high))

  -- `LRU_Remove`
  unfoldable pub lru_remove : Handle → Shard D → Shard D
  lru_remove e s =
      let cut = record (check (linked e s) s) {
        low = remove e s.low;
        high = remove e s.high;
        lru_usage = sub64 s.lru_usage e.charge;
      } in
      let paid = record (check (leb e.charge s.high_pri_pool_usage) cut) {
        high_pri_pool_usage = sub64 s.high_pri_pool_usage e.charge;
      } in
      if (cell e s).in_high_pri_pool then paid else cut

  -- What happens to an entry of the LRU list that goes, in `EvictFromLRU` and `EraseUnRefEntries`.
  unfoldable pub evict_one : Handle → Shard D → Shard D
  evict_one old s =
      let checked = check ((cell old s).in_cache && (cell old s).refs == 1) s in
      let gone = set_in_cache old false (table_remove old (lru_remove old checked)) in
      sub_usage old.charge (unref old gone).0

  -- The loop of `EvictFromLRU` over the list from `lru_.next` on; it returns `deleted` too.
  unfoldable pub evict_loop : ℕ → List Handle → Shard D → Shard D × List Handle
  evict_loop charge [] s = (s, [])
  evict_loop charge (old ∷ rest) s =
      let after = evict_loop charge rest (evict_one old s) in
      if ltb s.capacity (add64 s.usage charge) then (after.0, old ∷ after.1) else (s, [])

  unfoldable pub evict_from_lru : ℕ → Shard D → Shard D × List Handle
  evict_from_lru charge s = evict_loop charge (s.low ++ s.high) s

  -- `Free` of each handle of a list. It calls the deleter and gives the memory back.
  unfoldable pub free : Handle → Shard D → Shard D
  free e s =
      let c = cell e s in
      let allowed = c.refs == 1 && c.in_cache || c.refs == 0 && not c.in_cache in
      record (check allowed s) { freed = e ∷ s.freed }

  unfoldable pub free_all : List Handle → Shard D → Shard D
  free_all [] s = s
  free_all (e ∷ es) s = free_all es (free e s)

module _ (d : Doubles) where
  open d use {Double, exceeds, positive}

  -- The body of the loop of `MaintainPoolSize`: the oldest entry `h` of the high-pri pool, before
  -- `rest`, becomes the newest of the low-pri pool.
  abbrev pub overflow : Handle → List Handle → Shard Double → Shard Double
  overflow h rest s =
      let moved = record s { low = s.low ++ h ∷ []; high = rest } in
      record (set_in_high_pri_pool h false moved) {
        high_pri_pool_usage = sub64 s.high_pri_pool_usage h.charge;
      }

  -- The loop over the high-pri pool. Past its end `lru_low_pri_` is `&lru_`.
  unfoldable pub pool_loop : List Handle → Shard Double → Shard Double
  pool_loop [] s = check (not (exceeds s.high_pri_pool_usage s.high_pri_pool_capacity)) s
  pool_loop (h ∷ rest) s =
      let after = pool_loop rest (overflow h rest s) in
      if exceeds s.high_pri_pool_usage s.high_pri_pool_capacity then after else s

  -- `MaintainPoolSize`
  unfoldable pub maintain_pool_size : Shard Double → Shard Double
  maintain_pool_size s = pool_loop s.high s

  -- `LRU_Insert`
  unfoldable pub lru_insert : Handle → Shard Double → Shard Double
  lru_insert e s =
      let checked = check (not (linked e s)) s in
      let pooled = record (set_in_high_pri_pool e true checked) {
        high = s.high ++ e ∷ [];
        high_pri_pool_usage = add64 s.high_pri_pool_usage e.charge;
      } in
      let placed = record (set_in_high_pri_pool e false checked) { low = s.low ++ e ∷ [] } in
      let inserted =
        if positive s.high_pri_pool_ratio && e.is_high_pri
        then maintain_pool_size pooled
        else placed in
      record inserted { lru_usage = add64 s.lru_usage e.charge }
