-- ===== src/Cache/Shard/Detach.antt =====
-- rutil/lru_cache.cc: a handle that leaves the cache and is still held, or leaves the LRU list.
use rocksutil.Base.{
  ℕ, ◌+◌, ◌-◌, ◌^◌, ◌≤◌, ◌<◌, ◌≡◌, subst, Bool, true, false, ◌==◌, ==_iff, Bool-cases, some, List,
  ◌∷◌, arith, inl, inr,
}
use rocksutil.Cache.Handles.{Handle, Memory, count, remove, In, charges-remove, All-In}
use rocksutil.Cache.Table
use rocksutil.Cache.Shard.{Doubles, Shard, cell, lru_remove}
use rocksutil.Cache.Shard.Invariant.{Held, Books, Listed, unlisted}
use rocksutil.Cache.Shard.Forget.{Agree, unlisted_sums, lru_remove_low, lru_remove_high}
use rocksutil.Cache.Shard.Pin.{wider}
use rocksutil.Cache.Shard.Unpin.{released, released-Books, removed-Without, pinned_counts}

pub joined_once :
    {D : Type 0} (s : Shard D) (pinned : List Handle) (e : Handle) (a : ℕ)
    → count e.address s.low + count e.address s.high + count e.address pinned ≡ 0
    → count a s.low + count a s.high + count a pinned ≤ 1
    → count a s.low + count a s.high + count a (e ∷ pinned) ≤ 1
joined_once s pinned e a absent once = elim (Bool-cases (e.address == a)) [
  | inl same ↦
      let none_here : count a s.low + count a s.high + count a pinned ≡ 0 =
        rw (← (==_iff e.address a).0 same) absent in
      rw same (omega arith)
  | inr other ↦ rw other (omega arith)
]

-- A handle outside of the cache that clients hold joins the books.
module _ (d : Doubles) (s : Shard d.Double) (pinned : List Handle) (v : Books d s pinned)
    (e : Handle) where
  pub adopted-Books :
      count e.address s.low + count e.address s.high + count e.address pinned ≡ 0
      → Held (cell e s)
      → (cell e s).in_cache ≡ false
      → s.usage + e.charge < 2 ^ 64
      → Books d (record s { usage = s.usage + e.charge }) (e ∷ pinned)
  adopted-Books absent ok out fits =
      let whole = v.sum in
      record {
        low_idle = v.low_idle;
        high_idle = v.high_idle;
        held = (ok, v.held);
        apart = λ a. joined_once s pinned e a absent (v.apart a);
        lru_sum = v.lru_sum;
        pool_sum = v.pool_sum;
        sum = omega arith;
        small = fits;
        table_IsTable = v.table_IsTable;
        reached = λ k q h found.
            ((v.reached k q h found).0, wider e h s.low s.high pinned (v.reached k q h found).1);
        low_found = v.low_found;
        high_found = v.high_found;
        pinned_found = (λ cached. cc (cached, out), v.pinned_found);
        intact = v.intact;
        pool_fits = v.pool_fits;
      }

-- A handle that clients hold leaves the cache.
module _ (d : Doubles) (s : Shard d.Double) (pinned : List Handle) (v : Books d s pinned)
    (e : Handle) (i : In e pinned) where
  pub pinned_found_e : (cell e s).in_cache ≡ true → Table.find s.table e.key e.hash ≡ some e
  pinned_found_e =
      All-In (λ h. (s.cells h.address).in_cache ≡ true → Table.find s.table h.key h.hash ≡ some h) e
        pinned v.pinned_found i

  pub detached-Books :
      (cell e s).in_cache ≡ true
      → (m : Memory) → Agree e.address s.cells m
      → Held (m e.address)
      → (m e.address).in_cache ≡ false
      → Books d
          (record s { table = (Table.remove e.key e.hash s.table).0; cells = m })
          (e ∷ remove e pinned)
  detached-Books cached m agree ok out =
      let t = (Table.remove e.key e.hash s.table).0 in
      let books =
        released-Books d s pinned v e i m agree t
          (removed-Without e s.table v.table_IsTable (pinned_found_e cached)) in
      let counts = pinned_counts d s pinned v e i m agree in
      let rest = charges-remove e pinned i (omega (arith, v.apart e.address)) in
      let whole = v.sum in
      let back : s.usage - e.charge + e.charge ≡ s.usage = omega arith in
      let joined =
        adopted-Books d (released e t m s) (remove e pinned) books e
          (omega (arith, counts.0, counts.1, counts.2)) ok out (omega (arith, v.small)) in
      subst (λ u. Books d (record s { usage = u; table = t; cells = m }) (e ∷ remove e pinned)) back
        joined

-- `LRU_Remove` of an entry in a shard with the lists and the sums of `s`.
module _ (d : Doubles) (s : Shard d.Double) (pinned : List Handle) (v : Books d s pinned)
    (e : Handle) (u : ℕ) (t : Table.Table) (m : Memory) where
  abbrev pub like : Shard d.Double
  like = record s { usage = u; table = t; cells = m }

  pub lru_remove-like :
      (pooled : Bool)
      → Listed e pooled s
      → (m e.address).in_high_pri_pool ≡ pooled
      → lru_remove e like ≡ unlisted e pooled like
  lru_remove-like false i flag =
      let sums = unlisted_sums d s pinned v e false i in
      let lru = v.lru_sum in
      let whole = v.sum in
      let small = v.small in lru_remove_low e like v.intact (omega arith) (omega arith) i flag
  lru_remove-like true i flag =
      let sums = unlisted_sums d s pinned v e true i in
      let lru = v.lru_sum in
      let whole = v.sum in
      let small = v.small in
      let pool = v.pool_sum in
      let here = charges-remove e s.high i (omega (arith, v.apart e.address)) in
      lru_remove_high e like v.intact (omega arith) (omega arith) i flag (omega arith) (omega arith)
