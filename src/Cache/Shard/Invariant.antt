-- ===== src/Cache/Shard/Invariant.antt =====
-- rutil/lru_cache.h: the states that an `LRUHandle` can be in, and the books of a shard.
use rocksutil.Base.{
  ℕ, ◌+◌, ◌-◌, ◌^◌, ◌≤◌, ◌<◌, ◌≡◌, refl, ap, Bool, true, false, not, ◌||◌, ◌==◌, ltb, lt→ltb,
  if◌then◌else◌, some, List, [], All, arith, ◌⊎◌,
}
use rocksutil.Cache.Handles.{Handle, Cell, count, charges, remove, In, count-append, count-In}
use rocksutil.Cache.Table
use rocksutil.Cache.Table.Resize.{IsTable}
use rocksutil.Cache.Shard.{Doubles, Shard, cell, check, set_cell, less, unref, linked}

-- State 2 of a handle, in the low-pri or in the high-pri pool.
abbrev pub idle : Bool → Cell
idle pooled = record { refs = 1; in_cache = true; in_high_pri_pool = pooled }

-- States 1 and 3: referenced by a client. The count has not come to its bound.
pub record Held (c : Cell) : Type 0 where
  pub referenced : 1 ≤ c.refs
  pub cached : c.in_cache ≡ true → 2 ≤ c.refs
  pub bounded : c.refs < 2 ^ 32

-- The books of a shard whose clients hold the handles `pinned`.
module _ (d : Doubles) where
  open d use {Double, exceeds, accepts}

  pub record Books (s : Shard Double) (pinned : List Handle) : Type 0 where
    pub low_idle : All (λ h. s.cells h.address ≡ idle false) s.low
    pub high_idle : All (λ h. s.cells h.address ≡ idle true) s.high
    pub held : All (λ h. Held (s.cells h.address)) pinned
    pub apart : (a : ℕ) → count a s.low + count a s.high + count a pinned ≤ 1
    pub lru_sum : s.lru_usage ≡ charges s.low + charges s.high
    pub pool_sum : s.high_pri_pool_usage ≡ charges s.high
    pub sum : s.usage ≡ charges s.low + charges s.high + charges pinned
    pub small : s.usage < 2 ^ 64
    pub table_IsTable : Table.Resize.IsTable s.table
    pub reached :
        (k : List ℕ) (q : ℕ) (h : Handle)
        → Table.find s.table k q ≡ some h
        → ((s.cells h.address).in_cache ≡ true) × ((In h s.low ⊎ In h s.high) ⊎ In h pinned)
    pub low_found : All (λ h. Table.find s.table h.key h.hash ≡ some h) s.low
    pub high_found : All (λ h. Table.find s.table h.key h.hash ≡ some h) s.high
    pub pinned_found :
        All
          (λ h. (s.cells h.address).in_cache ≡ true → Table.find s.table h.key h.hash ≡ some h)
          pinned
    pub intact : s.failed ≡ false
    pub pool_fits : exceeds 0 s.high_pri_pool_capacity ≡ false

  -- Between operations the LRU list is empty if the capacity is exceeded.
  pub record IsValid (s : Shard Double) (pinned : List Handle) : Type 0 where
    pub books : Books s pinned
    pub ratio_accepted : accepts s.high_pri_pool_ratio ≡ true
    pub full : s.capacity < s.usage → (s.low ≡ []) × (s.high ≡ [])

  -- What the books do not read, and the capacity of the high-pri pool.
  pub configured-Books :
      (s : Shard Double) (pinned : List Handle)
      → Books s pinned
      → (capacity : ℕ) (strict : Bool) (ratio pool_capacity : Double) (freed : List Handle)
      → exceeds 0 pool_capacity ≡ false
      → Books
          (record s {
            capacity = capacity;
            strict_capacity_limit = strict;
            high_pri_pool_ratio = ratio;
            high_pri_pool_capacity = pool_capacity;
            freed = freed;
          })
          pinned
  configured-Books s pinned v capacity strict ratio pool_capacity freed fits = record {
    low_idle = v.low_idle;
    high_idle = v.high_idle;
    held = v.held;
    apart = v.apart;
    lru_sum = v.lru_sum;
    pool_sum = v.pool_sum;
    sum = v.sum;
    small = v.small;
    table_IsTable = v.table_IsTable;
    reached = v.reached;
    low_found = v.low_found;
    high_found = v.high_found;
    pinned_found = v.pinned_found;
    intact = v.intact;
    pool_fits = fits;
  }

-- The handle stands in the LRU list.
abbrev pub Listed : {D : Type 0} → Handle → Bool → Shard D → Type 0
Listed e false s = In e s.low
Listed e true s = In e s.high

module _ {D : Type 0} where
  -- An assertion that holds.
  pub unfailed :
      (s : Shard D) → s.failed ≡ false → (b : Bool) → b ≡ true → (s.failed || not b) ≡ s.failed
  unfailed s ok b holds = rw (ok, holds) refl

  pub check-true : (b : Bool) (s : Shard D) → s.failed ≡ false → b ≡ true → check b s ≡ s
  check-true b s ok holds = ap (λ f. record s { failed = f }) (unfailed s ok b holds)

  pub linked_of : (e : Handle) (pooled : Bool) (s : Shard D) → Listed e pooled s → linked e s ≡ true
  linked_of e false s i = ground (arith, count-append e.address s.low s.high, count-In e s.low i)
  linked_of e true s i = ground (arith, count-append e.address s.low s.high, count-In e s.high i)

  -- `LRU_Remove` when its assertions hold.
  abbrev pub unlisted : Handle → Bool → Shard D → Shard D
  unlisted e pooled s = record s {
    low = remove e s.low;
    high = remove e s.high;
    lru_usage = s.lru_usage - e.charge;
    high_pri_pool_usage =
        if pooled then s.high_pri_pool_usage - e.charge else s.high_pri_pool_usage;
  }

  -- `Unref` when its assertion holds.
  abbrev pub dropped : Handle → Shard D → Shard D
  dropped e s = set_cell e (record (cell e s) { refs = (cell e s).refs - 1 }) s

  pub unref_lem :
      (e : Handle) (s : Shard D)
      → s.failed ≡ false
      → 1 ≤ (cell e s).refs
      → (cell e s).refs < 2 ^ 32
      → unref e s ≡ (dropped e s, (cell e s).refs - 1 == 0)
  unfolding unref
  unref_lem e s ok pos bound =
      let same : less (cell e s).refs ≡ (cell e s).refs - 1 = omega arith in
      rw (unfailed s ok (ltb 0 (cell e s).refs) (lt→ltb 0 (cell e s).refs pos), same) refl
