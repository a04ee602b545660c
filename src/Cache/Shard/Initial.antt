-- ===== src/Cache/Shard/Initial.antt =====
-- rutil/lru_cache.cc: a shard after the constructors of `LRUCacheShard` and `LRUCache`.
use rocksutil.Base.{ℕ, ◌≡◌, refl, Bool, true, false, [], arith}
use rocksutil.Cache.Handles.{Memory}
use rocksutil.Cache.Table
use rocksutil.Cache.Table.Resize.{empty-IsTable, find-empty}
use rocksutil.Cache.Shard.{Doubles, Shard}
use rocksutil.Cache.Shard.Operations.{
  set_capacity, set_strict_capacity_limit, set_high_priority_pool_ratio,
}
use rocksutil.Cache.Shard.Invariant.{IsValid}

-- `LRUCacheShard()`. The first four arguments are what the members that it does not set hold.
abbrev pub new_shard : {D : Type 0} → ℕ → Bool → D → D → Memory → Shard D
new_shard capacity strict ratio pool_capacity cells = record {
  capacity = capacity;
  usage = 0;
  lru_usage = 0;
  high_pri_pool_usage = 0;
  strict_capacity_limit = strict;
  high_pri_pool_ratio = ratio;
  high_pri_pool_capacity = pool_capacity;
  low = [];
  high = [];
  table = Table.empty_table;
  cells = cells;
  failed = false;
  freed = [];
}

-- What `LRUCache(capacity, num_shard_bits, strict_capacity_limit, high_pri_pool_ratio)` does with
-- each shard.
unfoldable pub set_up : (d : Doubles) → ℕ → Bool → d.Double → Shard d.Double → Shard d.Double
set_up d capacity strict ratio s =
    set_high_priority_pool_ratio d ratio
      (set_strict_capacity_limit strict (set_capacity d capacity s))

module _ (d : Doubles) (capacity : ℕ) (strict : Bool) (ratio : d.Double)
    (accepted : d.accepts ratio ≡ true) (old_capacity : ℕ) (old_strict : Bool)
    (old_ratio old_pool : d.Double) (cells : Memory) where
  abbrev pub ready : Shard d.Double
  ready = record (new_shard old_capacity old_strict old_ratio old_pool cells) {
    capacity = capacity;
    strict_capacity_limit = strict;
    high_pri_pool_ratio = ratio;
    high_pri_pool_capacity = d.scale capacity ratio;
  }

  pub ready-IsValid : IsValid d ready []
  ready-IsValid = record {
    books = record {
      low_idle = tt;
      high_idle = tt;
      held = tt;
      apart = λ a. omega arith;
      lru_sum = refl;
      pool_sum = refl;
      sum = refl;
      small = omega arith;
      table_IsTable = empty-IsTable;
      reached = λ k q h found. absurd (cc (found, find-empty k q));
      low_found = tt;
      high_found = tt;
      pinned_found = tt;
      intact = refl;
      pool_fits = d.zero_fits capacity ratio accepted;
    };
    ratio_accepted = accepted;
    full = λ over. (refl, refl);
  }
