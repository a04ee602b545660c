-- ===== src/Cache/Shard/Ratio.antt =====
-- rutil/lru_cache.cc: `SetHighPriorityPoolRatio`, and which entries `MaintainPoolSize` moves.
use rocksutil.Base.{
  ℕ, ◌-◌, ◌<◌, ◌≡◌, refl, sym, ap, subst, ◌∙◌, true, false, Bool-cases, List, [], ◌∷◌, ◌++◌,
  append-nil, append_assoc, arith, inl, inr,
}
use rocksutil.Cache.Handles.{Handle}
use rocksutil.Cache.Shard.{Doubles, Shard, overflow, pool_loop, maintain_pool_size}
use rocksutil.Cache.Shard.Operations.{set_high_priority_pool_ratio}
use rocksutil.Cache.Shard.Invariant.{Books, IsValid, configured-Books}
use rocksutil.Cache.Shard.Capacity.{both_empty}
use rocksutil.Cache.Shard.Pool.{overflow_lem, overflowed-Books, maintain_pool_size-IsMaintained}

-- Each of the entries left the high-pri pool while the pool, without those before it, was too large.
abbrev pub Overfull : (d : Doubles) → d.Double → ℕ → List Handle → Type 0
Overfull d limit used [] = Unit {0}
Overfull d limit used (h ∷ rest) =
    (d.exceeds used limit ≡ true) × Overfull d limit (used - h.charge) rest

-- The entries `moved`, the oldest of the high-pri pool, have become the newest of the low-pri pool.
pub record IsMoved (d : Doubles) (s r : Shard d.Double) (moved : List Handle) : Type 0 where
  pub from_high : s.high ≡ moved ++ r.high
  pub to_low : r.low ≡ s.low ++ moved
  pub overfull : Overfull d s.high_pri_pool_capacity s.high_pri_pool_usage moved
  pub same_pool_capacity : r.high_pri_pool_capacity ≡ s.high_pri_pool_capacity

module _ (d : Doubles) (pinned : List Handle) where
  unmoved : (s : Shard d.Double) → IsMoved d s s []
  unmoved s = record {
    from_high = refl;
    to_low = sym (append-nil s.low);
    overfull = tt;
    same_pool_capacity = refl;
  }

  pool_loop-IsMoved :
      (xs : List Handle) (s : Shard d.Double)
      → Books d s pinned
      → s.high ≡ xs
      → (moved : List Handle) × IsMoved d s (pool_loop d xs s) moved
  unfolding pool_loop
  pool_loop-IsMoved [] s v start = (
    [],
    record {
      from_high = refl;
      to_low = sym (append-nil s.low);
      overfull = tt;
      same_pool_capacity = refl;
    },
  )
  pool_loop-IsMoved (e ∷ rest) s v start =
      elim (Bool-cases (d.exceeds s.high_pri_pool_usage s.high_pri_pool_capacity)) [
        | inl more ↦
            let step = overflow_lem d s pinned v e rest start in
            let books =
              subst (λ t. Books d t pinned) (sym step)
                (overflowed-Books d s pinned v e rest start) in
            let (moved, w) = pool_loop-IsMoved rest (overflow d e rest s) books refl in
            let used : (overflow d e rest s).high_pri_pool_usage
                ≡ s.high_pri_pool_usage - e.charge =
              ap (λ t. t.high_pri_pool_usage) step in
            rw more (
              e ∷ moved,
              record {
                from_high = start ∙ ap (λ ys. e ∷ ys) w.from_high;
                to_low = w.to_low ∙ append_assoc s.low (e ∷ []) moved;
                overfull = (
                  more,
                  subst (λ n. Overfull d s.high_pri_pool_capacity n moved) used w.overfull,
                );
                same_pool_capacity = w.same_pool_capacity;
              },
            )
        | inr fits ↦ rw fits ([], unmoved s)
      ]

  maintain_pool_size-IsMoved :
      (s : Shard d.Double)
      → Books d s pinned
      → (moved : List Handle) × IsMoved d s (maintain_pool_size d s) moved
  unfolding maintain_pool_size
  maintain_pool_size-IsMoved s v = pool_loop-IsMoved s.high s v refl

  still_full :
      (s r : Shard d.Double)
      → r.low ++ r.high ≡ s.low ++ s.high
      → r.usage ≡ s.usage
      → (s.capacity < s.usage → (s.low ≡ []) × (s.high ≡ []))
      → s.capacity < r.usage
      → (r.low ≡ []) × (r.high ≡ [])
  still_full s r order usage full over =
      let both = full (omega arith) in both_empty r.low r.high (order ∙ rw (both.0, both.1) refl)

  -- `SetHighPriorityPoolRatio`, with a ratio that `NewLRUCache` accepts, keeps the shard in order, and
  -- its assertions hold. The ratio is set, the capacity of the high-pri pool is the product of
  -- the capacity and the ratio, and the pool does not exceed it. The oldest entries of
  -- the pool have become the newest of the low-pri pool, each because the pool was too large.
  pub set_high_priority_pool_ratio-IsValid :
      (ratio : d.Double) (s : Shard d.Double)
      → d.accepts ratio ≡ true
      → IsValid d s pinned
      → let r : Shard d.Double = set_high_priority_pool_ratio d ratio s in
        IsValid d r pinned
        × (r.high_pri_pool_ratio ≡ ratio)
        × (r.high_pri_pool_capacity ≡ d.scale s.capacity ratio)
        × (d.exceeds r.high_pri_pool_usage (d.scale s.capacity ratio) ≡ false)
        × (moved : List Handle) × (s.high ≡ moved ++ r.high)
        × (r.low ≡ s.low ++ moved)
        × Overfull d (d.scale s.capacity ratio) s.high_pri_pool_usage moved
  unfolding set_high_priority_pool_ratio
  set_high_priority_pool_ratio-IsValid ratio s accepted v =
      let books =
        configured-Books d s pinned v.books s.capacity s.strict_capacity_limit ratio
          (d.scale s.capacity ratio) s.freed (d.zero_fits s.capacity ratio accepted) in
      let start : Shard d.Double = record s {
        high_pri_pool_ratio = ratio;
        high_pri_pool_capacity = d.scale s.capacity ratio;
      } in
      let w = maintain_pool_size-IsMaintained d pinned start books in
      let r = maintain_pool_size d start in
      let (moved, m) = maintain_pool_size-IsMoved start books in
      (
        record {
          books = w.books;
          ratio_accepted = rw w.same_ratio accepted;
          full = rw w.same_capacity (still_full start r w.same_order w.same_usage v.full);
        },
        w.same_ratio,
        m.same_pool_capacity,
        ap (d.exceeds r.high_pri_pool_usage) (sym m.same_pool_capacity) ∙ w.pool_within,
        moved,
        m.from_high,
        m.to_low,
        m.overfull,
      )
