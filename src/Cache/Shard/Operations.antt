-- ===== src/Cache/Shard/Operations.antt =====
-- rutil/lru_cache.cc: the public operations of `LRUCacheShard`, each under its mutex.
use rocksutil.Base.{
  ℕ, ◌+◌, ◌%◌, Bool, true, false, not, ◌&&◌, ◌||◌, ◌==◌, ltb, if◌then◌else◌, Option, none, some,
  List, [], ◌∷◌, ◌++◌, u32_mod, add64, sub64, codes,
}
use rocksutil.Status.{Status, ok_status, incomplete_status}
use rocksutil.Cache.Handles.{Handle}
use rocksutil.Cache.Table
use rocksutil.Cache.Shard.{
  Doubles, Shard, cell, check, set_cell, set_in_cache, add_usage, sub_usage, table_remove, unref,
  lru_remove, evict_one, evict_from_lru, free, free_all, maintain_pool_size, lru_insert,
}

abbrev pub is_empty : List Handle → Bool
is_empty [] = true
is_empty (h ∷ hs) = false

module _ {D : Type 0} where
  -- `Lookup` of what the table has: another reference.
  abbrev pub refer : Handle → Shard D → Shard D
  refer e s = let c = cell e s in set_cell e (record c { refs = (c.refs + 1) % u32_mod }) s

  unfoldable pub lookup_entry : Option Handle → Shard D → Shard D × Option Handle
  lookup_entry none s = (s, none)
  lookup_entry (some e) s =
      let checked = check (cell e s).in_cache s in
      (refer e (if (cell e s).refs == 1 then lru_remove e checked else checked), some e)

  -- `Lookup`
  unfoldable pub lookup : List ℕ → ℕ → Shard D → Shard D × Option Handle
  lookup key hash s = lookup_entry (Table.find s.table key hash) s

  -- `Erase` when `Unref` returned true. The last reference is freed outside of the mutex.
  unfoldable pub erase_last : Handle → Shard D → Shard D
  erase_last e s =
      let paid = sub_usage e.charge s in
      let unlisted = if (cell e s).in_cache then lru_remove e paid else paid in
      free e (set_in_cache e false unlisted)

  -- `Erase` of what the table had. What depends on `last_reference` is one branch.
  unfoldable pub erase_entry : Option Handle → Shard D → Shard D
  erase_entry none s = s
  erase_entry (some e) s =
      let (left, last) = unref e s in if last then erase_last e left else set_in_cache e false left

  -- `Erase`
  unfoldable pub erase : List ℕ → ℕ → Shard D → Shard D
  erase key hash s =
      let (table, result) = Table.remove key hash s.table in
      erase_entry result (record s { table = table })

  -- `EraseUnRefEntries`, a loop over the list from `lru_.next` on.
  unfoldable pub evict_all : List Handle → Shard D → Shard D
  evict_all [] s = s
  evict_all (old ∷ rest) s = evict_all rest (evict_one old s)

  unfoldable pub erase_unref_entries : Shard D → Shard D
  erase_unref_entries s = free_all (s.low ++ s.high) (evict_all (s.low ++ s.high) s)

  -- `Insert` of a handle that the table takes: what happens to the entry that it had.
  unfoldable pub replace : Option Handle → Shard D → Shard D × List Handle
  replace none s = (s, [])
  replace (some old) s =
      let (left, last) = unref old (set_in_cache old false s) in
      if last then (lru_remove old (sub_usage old.charge left), old ∷ []) else (left, [])

  -- `SetStrictCapacityLimit`
  unfoldable pub set_strict_capacity_limit : Bool → Shard D → Shard D
  set_strict_capacity_limit strict s = record s { strict_capacity_limit = strict }

  -- `GetUsage`
  unfoldable pub get_usage : Shard D → ℕ
  get_usage s = s.usage

  -- `GetPinnedUsage`
  unfoldable pub get_pinned_usage : Shard D → ℕ
  get_pinned_usage s = sub64 s.usage s.lru_usage

module _ (d : Doubles) where
  open d use {Double, scale}

  -- `SetCapacity`
  unfoldable pub set_capacity : ℕ → Shard Double → Shard Double
  set_capacity capacity s =
      let resized = record s {
        capacity = capacity;
        high_pri_pool_capacity = scale capacity s.high_pri_pool_ratio;
      } in
      let (after, deleted) = evict_from_lru 0 resized in free_all deleted after

  -- `SetHighPriorityPoolRatio`
  unfoldable pub set_high_priority_pool_ratio : Double → Shard Double → Shard Double
  set_high_priority_pool_ratio ratio s =
      maintain_pool_size d
        (record s { high_pri_pool_ratio = ratio; high_pri_pool_capacity = scale s.capacity ratio })

  -- `Release` of an entry that clients hold no more, when the capacity is exceeded.
  unfoldable pub release_over : Handle → Shard Double → Shard Double
  release_over e s =
      let checked = check (is_empty (s.low ++ s.high)) s in
      sub_usage e.charge (unref e (set_in_cache e false (table_remove e checked))).0

  -- `Release` when one reference, the cache's, is left.
  unfoldable pub release_idle : Handle → Shard Double → Shard Double × Bool
  release_idle e s =
      if ltb s.capacity s.usage then (release_over e s, true) else (lru_insert d e s, false)

  -- `Release`
  unfoldable pub release : Option Handle → Shard Double → Shard Double
  release none s = s
  release (some e) s =
      let (left, last) = unref e s in
      let paid = if last then sub_usage e.charge left else left in
      let c = cell e paid in
      let kept = release_idle e paid in
      let (after, gone) = if c.refs == 1 && c.in_cache then kept else (paid, last) in
      if gone then free e after else after

  -- `Insert` of a handle for which there is room: the shard, and `last_reference_list`.
  unfoldable pub insert_entry : Handle → Bool → Shard Double → Shard Double × List Handle
  insert_entry e wanted s =
      let (table, old) = Table.insert e s.table in
      let added = add_usage e.charge (record s { table = table }) in
      let (replaced, last_references) = replace old added in
      (if wanted then replaced else lru_insert d e replaced, last_references)

  -- The end of `Insert`, by the test for a full cache and by `handle != nullptr`: `evicted` and
  -- `deleted` are what the eviction left, `stored` is the shard with the handle.
  unfoldable pub insert_end :
      Bool
      → Bool
      → Handle
      → Shard Double × List Handle
      → Shard Double × List Handle
      → Shard Double × (Status × Option Handle)
  insert_end true true e (evicted, deleted) stored = (
    free_all deleted evicted,
    (incomplete_status (codes "Insert failed due to LRU cache being full."), none),
  )
  insert_end true false e (evicted, deleted) stored =
      (free_all (deleted ++ e ∷ []) evicted, (ok_status, none))
  insert_end false true e (evicted, deleted) (stored, replaced) =
      (free_all (deleted ++ replaced) stored, (ok_status, some e))
  insert_end false false e (evicted, deleted) (stored, replaced) =
      (free_all (deleted ++ replaced) stored, (ok_status, none))

  -- `Insert` behind the filling in of the handle. `wanted` tells that `handle` is not null; then the
  -- last part of the result is what `*handle` becomes.
  unfoldable pub insert_handle :
      Handle → Bool → Shard Double → Shard Double × (Status × Option Handle)
  insert_handle e wanted s =
      let r = evict_from_lru e.charge s in
      let over =
        ltb r.0.capacity (add64 (sub64 r.0.usage r.0.lru_usage) e.charge)
        && (r.0.strict_capacity_limit || not wanted) in
      insert_end over wanted e r (insert_entry e wanted r.0)

  -- `Insert`. The handle `e` has the arguments, and the address of the memory that was allocated,
  -- where one flag is not set.
  unfoldable pub insert : Handle → Bool → Shard Double → Shard Double × (Status × Option Handle)
  insert e wanted s =
      let refs : ℕ = if wanted then 2 else 1 in
      let fresh = record (cell e s) { refs = refs; in_cache = true } in
      insert_handle e wanted (set_cell e fresh s)
