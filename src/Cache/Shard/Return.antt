-- ===== src/Cache/Shard/Return.antt =====
-- rutil/lru_cache.cc: `LRU_Insert`.
use rocksutil.Base.{
  ℕ, ◌+◌, ◌≡◌, refl, sym, ◌∙◌, Bool, true, false, not, ◌&&◌, ◌==◌, ==_refl, Bool-cases, some, List,
  [], ◌∷◌, ◌++◌, arith, inl, inr, add64,
}
use rocksutil.Cache.Handles.{Handle, Cell, Memory, write, count, remove, In, count-append}
use rocksutil.Cache.Table
use rocksutil.Cache.Shard.{
  Doubles, Shard, set_cell, linked, overflow, pool_loop, maintain_pool_size, lru_insert,
}
use rocksutil.Cache.Shard.Invariant.{idle, Books, unfailed}
use rocksutil.Cache.Shard.Forget.{Agree}
use rocksutil.Cache.Shard.Pool.{maintain_pool_size-IsMaintained}
use rocksutil.Cache.Shard.Back.{
  returned, counts, returned, returned_high-Books, returned_low-Books, sums,
}

-- The shard `r` has taken the handle `e` back into its list.
pub record IsReturned (d : Doubles) (s : Shard d.Double) (e : Handle) (pinned : List Handle)
    (r : Shard d.Double) : Type 0 where
  pub books : Books d r pinned
  pub same_capacity : r.capacity ≡ s.capacity
  pub same_usage : r.usage ≡ s.usage
  pub same_ratio : r.high_pri_pool_ratio ≡ s.high_pri_pool_ratio
  pub frame :
      (a : ℕ)
      → (e.address == a) ≡ false
      → count a s.low + count a s.high ≡ 0
      → r.cells a ≡ s.cells a

longer_absent :
    (a : ℕ) (e : Handle) (low high : List Handle)
    → (e.address == a) ≡ false
    → count a low + count a high ≡ 0
    → count a (low ++ (high ++ e ∷ [])) ≡ 0
longer_absent a e low high other absent =
    ground (arith, count-append a low (high ++ e ∷ []), count-append a high (e ∷ []))

-- `MaintainPoolSize` does not look at the usage of the list, and leaves it alone.
module _ (d : Doubles) where
  pool_loop_lru :
      (xs : List Handle) (s : Shard d.Double) (u : ℕ)
      → pool_loop d xs (record s { lru_usage = u }) ≡ record (pool_loop d xs s) { lru_usage = u }
  unfolding pool_loop
  pool_loop_lru [] s u = refl
  pool_loop_lru (h ∷ rest) s u =
      elim (Bool-cases (d.exceeds s.high_pri_pool_usage s.high_pri_pool_capacity)) [
        | inl more ↦ rw more (pool_loop_lru rest (overflow d h rest s) u)
        | inr fits ↦ rw fits refl
      ]

  -- `LRU_Insert` of a handle that clients have let go, in the shard `s` before that.
  module _ (s : Shard d.Double) (pinned : List Handle) (v : Books d s pinned) (e : Handle)
      (i : In e pinned) (found_e : Table.find s.table e.key e.hash ≡ some e) (c : Cell)
      (one : c.refs ≡ 1) (cached : c.in_cache ≡ true) where
    abbrev before : Shard d.Double
    before = set_cell e c s

    flagged : Bool → Memory
    flagged pooled =
        write e.address (record (before.cells e.address) { in_high_pri_pool = pooled })
          (before.cells)

    flagged_now : (pooled : Bool) → flagged pooled e.address ≡ idle pooled
    unfolding flagged
    flagged_now pooled = rw (==_refl e.address, one, cached) refl

    flagged-Agree : (pooled : Bool) → Agree e.address s.cells (flagged pooled)
    unfolding flagged
    flagged-Agree pooled b other = rw other refl

    not-linked : not (linked e before) ≡ true
    not-linked =
        let none_there =
          counts d s pinned v e i found_e false (flagged false) (flagged-Agree false)
            (flagged_now false) in
        ground (arith, count-append e.address s.low s.high, none_there)

    small_sum :
        (add64 s.lru_usage e.charge ≡ s.lru_usage + e.charge)
        × (add64 s.high_pri_pool_usage e.charge ≡ s.high_pri_pool_usage + e.charge)
    small_sum =
        let rest =
          sums d s pinned v e i found_e false (flagged false) (flagged-Agree false)
            (flagged_now false) in
        let lru = v.lru_sum in
        let whole = v.sum in
        let pool = v.pool_sum in let small = v.small in (omega arith, omega arith)

    lru_insert_low :
        (d.positive s.high_pri_pool_ratio && e.is_high_pri) ≡ false
        → lru_insert d e before ≡ returned e false (flagged false) s
    unfolding lru_insert flagged
    lru_insert_low test =
        rw (test, unfailed s v.intact (not (linked e before)) not-linked, small_sum.0) refl

    lru_insert_high :
        (d.positive s.high_pri_pool_ratio && e.is_high_pri) ≡ true
        → lru_insert d e before ≡ maintain_pool_size d (returned e true (flagged true) s)
    unfolding lru_insert flagged maintain_pool_size
    lru_insert_high test =
        rw (test, unfailed s v.intact (not (linked e before)) not-linked, small_sum.0, small_sum.1)
          (sym (
            pool_loop_lru (s.high ++ e ∷ [])
              (record (returned e true (flagged true) s) { lru_usage = s.lru_usage })
              (s.lru_usage + e.charge)))

    -- `LRU_Insert` takes the handle back; its assertions hold, and only the cells of the handle and of
    -- the list change.
    pub lru_insert-IsReturned : IsReturned d s e (remove e pinned) (lru_insert d e before)
    lru_insert-IsReturned = elim (Bool-cases (d.positive s.high_pri_pool_ratio && e.is_high_pri)) [
      | inl high ↦
          let w =
            maintain_pool_size-IsMaintained d (remove e pinned) (returned e true (flagged true) s) (
              returned_high-Books d s pinned v e i found_e (flagged true) (flagged-Agree true)
                (flagged_now true)) in
          rw (lru_insert_high high) record {
            books = w.books;
            same_capacity = w.same_capacity;
            same_usage = w.same_usage;
            same_ratio = w.same_ratio;
            frame = λ a other absent.
                w.frame a (longer_absent a e s.low s.high other absent)
                ∙ flagged-Agree true a other;
          }
      | inr low ↦ rw (lru_insert_low low) record {
        books =
            returned_low-Books d s pinned v e i found_e (flagged false) (flagged-Agree false)
              (flagged_now false);
        same_capacity = refl;
        same_usage = refl;
        same_ratio = refl;
        frame = λ a other absent. flagged-Agree false a other;
      }
    ]
