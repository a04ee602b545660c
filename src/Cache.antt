-- ===== src/Cache.antt =====
-- rutil/lru_cache.h and rutil/lru_cache.cc: the LRU cache. `Handles` has the entries, `Table` the
-- hash table of a shard, `Shard` the shard.
pub mod Handles
pub mod Table
pub mod Shard
mod Tests
