-- ===== src/Cache/Shard/Back.antt =====
-- rutil/lru_cache.cc: a handle that comes back to the LRU list.
use rocksutil.Base.{
  ◌+◌, ◌≡◌, ap, ◌∙◌, Bool, true, false, ◌==◌, ==_iff, Bool-cases, some, List, [], ◌∷◌, ◌++◌, All,
  arith, ◌⊎◌, inl, inr,
}
use rocksutil.Cache.Handles.{
  Handle, Memory, count, charges, remove, In, charges-append, charges-remove, count-append,
  count-remove, In-remove, All-remove, All-snoc, In-append_left, In-append_right,
}
use rocksutil.Cache.Table
use rocksutil.Cache.Shard.{Doubles, Shard}
use rocksutil.Cache.Shard.Invariant.{idle, Held, Books}
use rocksutil.Cache.Shard.Forget.{Agree, All-Agree, All-cached, same_handle}
use rocksutil.Cache.Shard.Evict.{flip_test}
use rocksutil.Cache.Shard.Unpin.{pinned_counts}

-- The handle is the newest of its pool.
abbrev pub returned : {D : Type 0} → Handle → Bool → Memory → Shard D → Shard D
returned e false m s = record s {
  low = s.low ++ e ∷ [];
  lru_usage = s.lru_usage + e.charge;
  cells = m;
}
returned e true m s = record s {
  high = s.high ++ e ∷ [];
  lru_usage = s.lru_usage + e.charge;
  high_pri_pool_usage = s.high_pri_pool_usage + e.charge;
  cells = m;
}

-- Where a handle stands when `e` has moved to the end of a list.
pub back_low :
    (h e : Handle) (low high pinned : List Handle)
    → ((h ≡ e) ⊎ ((h.address == e.address) ≡ false))
    → (In h low ⊎ In h high) ⊎ In h pinned
    → (In h (low ++ e ∷ []) ⊎ In h high) ⊎ In h (remove e pinned)
back_low h e low high pinned (inl same) i = inl (inl (In-append_right h low (e ∷ []) (inl same)))
back_low h e low high pinned (inr other) (inl (inl i)) = inl (inl (In-append_left h low (e ∷ []) i))
back_low h e low high pinned (inr other) (inl (inr i)) = inl (inr i)
back_low h e low high pinned (inr other) (inr i) = inr (In-remove h e pinned i other)

pub back_high :
    (h e : Handle) (low high pinned : List Handle)
    → ((h ≡ e) ⊎ ((h.address == e.address) ≡ false))
    → (In h low ⊎ In h high) ⊎ In h pinned
    → (In h low ⊎ In h (high ++ e ∷ [])) ⊎ In h (remove e pinned)
back_high h e low high pinned (inl same) i = inl (inr (In-append_right h high (e ∷ []) (inl same)))
back_high h e low high pinned (inr other) (inl (inl i)) = inl (inl i)
back_high h e low high pinned (inr other) (inl (inr i)) =
    inl (inr (In-append_left h high (e ∷ []) i))
back_high h e low high pinned (inr other) (inr i) = inr (In-remove h e pinned i other)

module _ (d : Doubles) (s : Shard d.Double) (pinned : List Handle) (v : Books d s pinned)
    (e : Handle) (i : In e pinned) (found_e : Table.find s.table e.key e.hash ≡ some e)
    (pooled : Bool) (m : Memory) (agree : Agree e.address s.cells m)
    (now : m e.address ≡ idle pooled) where
  pub counts :
      (count e.address s.low ≡ 0)
      × (count e.address s.high ≡ 0)
      × (count e.address (remove e pinned) ≡ 0)
  counts = pinned_counts d s pinned v e i m agree

  pub same_or_apart :
      (h : Handle)
      → (In h s.low ⊎ In h s.high) ⊎ In h pinned
      → (h ≡ e) ⊎ ((h.address == e.address) ≡ false)
  same_or_apart h j = elim (Bool-cases (h.address == e.address)) [
    | inl same ↦ inl (same_handle d s pinned v e h j (inr i) ((==_iff h.address e.address).0 same))
    | inr other ↦ inr other
  ]

  pub cached_now :
      (h : Handle)
      → ((h ≡ e) ⊎ ((h.address == e.address) ≡ false))
      → (s.cells h.address).in_cache ≡ true
      → (m h.address).in_cache ≡ true
  cached_now h (inl same) before =
      ap (λ (x : Handle). (m x.address).in_cache) same ∙ ap (λ c. c.in_cache) now
  cached_now h (inr other) before =
      rw (agree h.address (flip_test h.address e.address other)) before

  -- What both pools share.
  pub low_kept : All (λ h. m h.address ≡ idle false) s.low
  low_kept = All-Agree (λ x. x ≡ idle false) e.address s.cells m s.low agree counts.0 v.low_idle

  pub high_kept : All (λ h. m h.address ≡ idle true) s.high
  high_kept = All-Agree (λ x. x ≡ idle true) e.address s.cells m s.high agree counts.1 v.high_idle

  pub held_kept : All (λ h. Held (m h.address)) (remove e pinned)
  held_kept =
      All-Agree Held e.address s.cells m (remove e pinned) agree counts.2
        (All-remove (λ h. Held (s.cells h.address)) e pinned v.held)

  pub found_kept :
      All
        (λ h. (m h.address).in_cache ≡ true → Table.find s.table h.key h.hash ≡ some h)
        (remove e pinned)
  found_kept =
      All-cached (λ h. Table.find s.table h.key h.hash ≡ some h) e.address s.cells m
        (remove e pinned) agree counts.2
        (All-remove
          (λ h. (s.cells h.address).in_cache ≡ true → Table.find s.table h.key h.hash ≡ some h) e
          pinned v.pinned_found)

  pub sums : charges (remove e pinned) + e.charge ≡ charges pinned
  sums = charges-remove e pinned i (omega (arith, v.apart e.address))

module _ (d : Doubles) (s : Shard d.Double) (pinned : List Handle) (v : Books d s pinned)
    (e : Handle) (i : In e pinned) (found_e : Table.find s.table e.key e.hash ≡ some e) (m : Memory)
    (agree : Agree e.address s.cells m) where
  pub returned_low-Books :
      m e.address ≡ idle false → Books d (returned e false m s) (remove e pinned)
  returned_low-Books now =
      let lru = v.lru_sum in
      let whole = v.sum in
      let appended = charges-append s.low (e ∷ []) in
      let rest = sums d s pinned v e i found_e false m agree now in
      record {
        low_idle =
            All-snoc (λ h. m h.address ≡ idle false) s.low e
              (low_kept d s pinned v e i found_e false m agree now) now;
        high_idle = high_kept d s pinned v e i found_e false m agree now;
        held = held_kept d s pinned v e i found_e false m agree now;
        apart = λ a.
            ground (arith, count-append a s.low (e ∷ []), count-remove a e pinned i, v.apart a);
        lru_sum = omega arith;
        pool_sum = v.pool_sum;
        sum = omega arith;
        small = v.small;
        table_IsTable = v.table_IsTable;
        reached = λ k q h found.
            let there = v.reached k q h found in
            let place = same_or_apart d s pinned v e i found_e false m agree now h there.1 in
            (
              cached_now d s pinned v e i found_e false m agree now h place there.0,
              back_low h e s.low s.high pinned place there.1,
            );
        low_found =
            All-snoc (λ h. Table.find s.table h.key h.hash ≡ some h) s.low e v.low_found found_e;
        high_found = v.high_found;
        pinned_found = found_kept d s pinned v e i found_e false m agree now;
        intact = v.intact;
        pool_fits = v.pool_fits;
      }

  pub returned_high-Books :
      m e.address ≡ idle true → Books d (returned e true m s) (remove e pinned)
  returned_high-Books now =
      let lru = v.lru_sum in
      let whole = v.sum in
      let pool = v.pool_sum in
      let appended = charges-append s.high (e ∷ []) in
      let rest = sums d s pinned v e i found_e true m agree now in
      record {
        low_idle = low_kept d s pinned v e i found_e true m agree now;
        high_idle =
            All-snoc (λ h. m h.address ≡ idle true) s.high e
              (high_kept d s pinned v e i found_e true m agree now) now;
        held = held_kept d s pinned v e i found_e true m agree now;
        apart = λ a.
            ground (arith, count-append a s.high (e ∷ []), count-remove a e pinned i, v.apart a);
        lru_sum = omega arith;
        pool_sum = omega arith;
        sum = omega arith;
        small = v.small;
        table_IsTable = v.table_IsTable;
        reached = λ k q h found.
            let there = v.reached k q h found in
            let place = same_or_apart d s pinned v e i found_e true m agree now h there.1 in
            (
              cached_now d s pinned v e i found_e true m agree now h place there.0,
              back_high h e s.low s.high pinned place there.1,
            );
        low_found = v.low_found;
        high_found =
            All-snoc (λ h. Table.find s.table h.key h.hash ≡ some h) s.high e v.high_found found_e;
        pinned_found = found_kept d s pinned v e i found_e true m agree now;
        intact = v.intact;
        pool_fits = v.pool_fits;
      }
