-- ===== src/Cache/Shard/Pool.antt =====
-- rutil/lru_cache.cc: `MaintainPoolSize`.
use rocksutil.Base.{
  ℕ, ◌+◌, ◌-◌, ◌≡◌, refl, sym, ap, subst, ◌∙◌, true, false, not, ◌==◌, ==_refl, if◌then◌else◌,
  Bool-cases, some, List, [], ◌∷◌, ◌++◌, All, arith, append_assoc, ◌⊎◌, inl, inr,
}
use rocksutil.Cache.Handles.{
  Handle, write, count, charges, In, charges-append, count-append, All-snoc, In-append_left,
  In-append_right,
}
use rocksutil.Cache.Table
use rocksutil.Cache.Shard.{Doubles, Shard, overflow, pool_loop, maintain_pool_size}
use rocksutil.Cache.Shard.Invariant.{idle, Held, Books, check-true}
use rocksutil.Cache.Shard.Forget.{sub64_lem, All-Agree, All-cached}
use rocksutil.Cache.Shard.Evict.{write_self}
use rocksutil.Cache.Shard.Pin.{write-Agree}

moved_where :
    (h e : Handle) (low rest pinned : List Handle)
    → (In h low ⊎ In h (e ∷ rest)) ⊎ In h pinned
    → (In h (low ++ e ∷ []) ⊎ In h rest) ⊎ In h pinned
moved_where h e low rest pinned (inl (inl i)) = inl (inl (In-append_left h low (e ∷ []) i))
moved_where h e low rest pinned (inl (inr (inl same))) =
    inl (inl (In-append_right h low (e ∷ []) (inl same)))
moved_where h e low rest pinned (inl (inr (inr i))) = inl (inr i)
moved_where h e low rest pinned (inr i) = inr i

-- The oldest entry of the high-pri pool in the low-pri pool.
abbrev pub overflowed : {D : Type 0} → Handle → List Handle → Shard D → Shard D
overflowed e rest s = record s {
  low = s.low ++ e ∷ [];
  high = rest;
  high_pri_pool_usage = s.high_pri_pool_usage - e.charge;
  cells = write e.address (idle false) s.cells;
}

module _ (d : Doubles) (s : Shard d.Double) (pinned : List Handle) (v : Books d s pinned)
    (e : Handle) (rest : List Handle) (start : s.high ≡ e ∷ rest) where
  first_facts : (s.cells e.address ≡ idle true) × All (λ h. s.cells h.address ≡ idle true) rest
  first_facts = subst (λ xs. All (λ h. s.cells h.address ≡ idle true) xs) start v.high_idle

  first_found :
      (Table.find s.table e.key e.hash ≡ some e)
      × All (λ h. Table.find s.table h.key h.hash ≡ some h) rest
  first_found =
      subst (λ xs. All (λ h. Table.find s.table h.key h.hash ≡ some h) xs) start v.high_found

  first_counts : (a : ℕ) → count a s.high ≡ (if e.address == a then 1 else 0) + count a rest
  first_counts a = ap (count a) start

  elsewhere :
      (count e.address s.low ≡ 0) × (count e.address rest ≡ 0) × (count e.address pinned ≡ 0)
  elsewhere =
      let once = v.apart e.address in
      let counts = first_counts e.address in
      let self = ==_refl e.address in
      (
        ground (arith, once, counts, self),
        ground (arith, once, counts, self),
        ground (arith, once, counts, self),
      )

  pub overflow_lem : overflow d e rest s ≡ overflowed e rest s
  overflow_lem =
      let charged = v.pool_sum in
      let parts = ap charges start in
      let lru = v.lru_sum in
      let whole = v.sum in
      let small = v.small in
      rw (sub64_lem s.high_pri_pool_usage e.charge (omega arith) (omega arith), first_facts.0) refl

  cached_after :
      (h : Handle)
      → (s.cells h.address).in_cache ≡ true
      → (write e.address (idle false) s.cells h.address).in_cache ≡ true
  cached_after h before = elim (Bool-cases (e.address == h.address)) [
    | inl same ↦ rw same refl
    | inr other ↦ rw other before
  ]

  pub overflowed-Books : Books d (overflowed e rest s) pinned
  overflowed-Books =
      let here = write-Agree e.address (idle false) s.cells in
      let parts = ap charges start in
      let appended = charges-append s.low (e ∷ []) in
      let lru = v.lru_sum in
      let whole = v.sum in
      let pool = v.pool_sum in
      record {
        low_idle =
            All-snoc (λ h. write e.address (idle false) s.cells h.address ≡ idle false) s.low e
              (All-Agree (λ x. x ≡ idle false) e.address s.cells
                (write e.address (idle false) s.cells) s.low here elsewhere.0 v.low_idle)
              (write_self e.address (idle false) s.cells);
        high_idle =
            All-Agree (λ x. x ≡ idle true) e.address s.cells (write e.address (idle false) s.cells)
              rest here elsewhere.1 first_facts.1;
        held =
            All-Agree Held e.address s.cells (write e.address (idle false) s.cells) pinned here
              elsewhere.2 v.held;
        apart = λ a. ground (arith, count-append a s.low (e ∷ []), first_counts a, v.apart a);
        lru_sum = omega arith;
        pool_sum = omega arith;
        sum = omega arith;
        small = v.small;
        table_IsTable = v.table_IsTable;
        reached = λ k q h found. (
          cached_after h (v.reached k q h found).0,
          moved_where h e s.low rest pinned
              (subst (λ xs. (In h s.low ⊎ In h xs) ⊎ In h pinned) start (v.reached k q h found).1),
        );
        low_found =
            All-snoc (λ h. Table.find s.table h.key h.hash ≡ some h) s.low e v.low_found
              first_found.0;
        high_found = first_found.1;
        pinned_found =
            All-cached (λ h. Table.find s.table h.key h.hash ≡ some h) e.address s.cells
              (write e.address (idle false) s.cells) pinned here elsewhere.2 v.pinned_found;
        intact = v.intact;
        pool_fits = v.pool_fits;
      }

-- What `MaintainPoolSize` makes of a shard: the pool fits, and the list has the same order.
pub record IsMaintained (d : Doubles) (pinned : List Handle) (s r : Shard d.Double) : Type 0 where
  pub books : Books d r pinned
  pub pool_within : d.exceeds r.high_pri_pool_usage r.high_pri_pool_capacity ≡ false
  pub same_order : r.low ++ r.high ≡ s.low ++ s.high
  pub same_capacity : r.capacity ≡ s.capacity
  pub same_ratio : r.high_pri_pool_ratio ≡ s.high_pri_pool_ratio
  pub same_usage : r.usage ≡ s.usage
  pub frame : (a : ℕ) → count a (s.low ++ s.high) ≡ 0 → r.cells a ≡ s.cells a

module _ (d : Doubles) (pinned : List Handle) where
  maintained :
      (s : Shard d.Double)
      → Books d s pinned
      → d.exceeds s.high_pri_pool_usage s.high_pri_pool_capacity ≡ false
      → IsMaintained d pinned s s
  maintained s v fits = record {
    books = v;
    pool_within = fits;
    same_order = refl;
    same_capacity = refl;
    same_ratio = refl;
    same_usage = refl;
    frame = λ a absent. refl;
  }

  pool_loop-IsMaintained :
      (xs : List Handle) (s : Shard d.Double)
      → Books d s pinned
      → s.high ≡ xs
      → IsMaintained d pinned s (pool_loop d xs s)
  unfolding pool_loop
  pool_loop-IsMaintained [] s v start =
      let none_used : s.high_pri_pool_usage ≡ 0 = v.pool_sum ∙ ap charges start in
      let fits : d.exceeds s.high_pri_pool_usage s.high_pri_pool_capacity ≡ false =
        ap (λ u. d.exceeds u s.high_pri_pool_capacity) none_used ∙ v.pool_fits in
      let holds =
        check-true (not (d.exceeds s.high_pri_pool_usage s.high_pri_pool_capacity)) s v.intact
          (ap not fits) in
      subst (IsMaintained d pinned s) (sym holds) (maintained s v fits)
  pool_loop-IsMaintained (e ∷ rest) s v start =
      elim (Bool-cases (d.exceeds s.high_pri_pool_usage s.high_pri_pool_capacity)) [
        | inl more ↦
            let step = overflow_lem d s pinned v e rest start in
            let books =
              subst (λ t. Books d t pinned) (sym step)
                (overflowed-Books d s pinned v e rest start) in
            let w = pool_loop-IsMaintained rest (overflow d e rest s) books refl in
            rw more record {
              books = w.books;
              pool_within = w.pool_within;
              same_order =
                  w.same_order
                  ∙ append_assoc s.low (e ∷ []) rest
                  ∙ ap (λ xs. s.low ++ xs) (sym start);
              same_capacity = w.same_capacity;
              same_ratio = w.same_ratio;
              same_usage = w.same_usage;
              frame = λ a absent.
                  let order : (s.low ++ e ∷ []) ++ rest ≡ s.low ++ s.high =
                    append_assoc s.low (e ∷ []) rest ∙ ap (λ xs. s.low ++ xs) (sym start) in
                  let parts : count a s.low + count a s.high ≡ 0 =
                    sym (count-append a s.low s.high) ∙ absent in
                  let other : (e.address == a) ≡ false =
                    ground (arith, parts, first_counts d s pinned v e rest start a) in
                  w.frame a (ap (count a) order ∙ absent)
                  ∙ ap (λ t. t.cells a) step
                  ∙ write-Agree e.address (idle false) s.cells a other;
            }
        | inr fits ↦ rw fits (maintained s v fits)
      ]

  -- `MaintainPoolSize` ends before the end of the list, so that its assertion holds.
  pub maintain_pool_size-IsMaintained :
      (s : Shard d.Double) → Books d s pinned → IsMaintained d pinned s (maintain_pool_size d s)
  unfolding maintain_pool_size
  maintain_pool_size-IsMaintained s v = pool_loop-IsMaintained s.high s v refl
