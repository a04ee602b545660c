-- ===== src/Cache/Shard/Pin.antt =====
-- rutil/lru_cache.cc: an entry that gets a reference, or another one.
use rocksutil.Base.{
  ℕ, ◌≡◌, refl, sym, ap, ◌∙◌, Bool, true, false, ◌==◌, ==_iff, Bool-cases, some, List, ◌∷◌, arith,
  ◌⊎◌, inl, inr,
}
use rocksutil.Cache.Handles.{
  Handle, Cell, Memory, write, count, remove, In, count-In, All-remove, All-refine,
}
use rocksutil.Cache.Table
use rocksutil.Cache.Shard.{Doubles, Shard, cell, set_cell}
use rocksutil.Cache.Shard.Invariant.{idle, Held, Books, Listed, unlisted}
use rocksutil.Cache.Shard.Forget.{
  Agree, All-Agree, All-cached, Listed-found, unlisted_counts, unlisted_sums, same_handle,
}
use rocksutil.Cache.Shard.Evict.{rest_counts, Listed-where, kept_where, flip_test, write_self}

pub write-Agree : (a : ℕ) (c : Cell) (m : Memory) → Agree a m (write a c m)
write-Agree a c m b other = rw other refl

-- An entry of the LRU list that a client now holds.
abbrev pub taken : {D : Type 0} → Handle → Bool → Cell → Shard D → Shard D
taken e pooled c s = set_cell e c (unlisted e pooled s)

pub wider :
    (e h : Handle) (low high pinned : List Handle)
    → (In h low ⊎ In h high) ⊎ In h pinned
    → (In h low ⊎ In h high) ⊎ In h (e ∷ pinned)
wider e h low high pinned (inl i) = inl i
wider e h low high pinned (inr i) = inr (inr i)

module _ (d : Doubles) (s : Shard d.Double) (pinned : List Handle) (v : Books d s pinned)
    (e : Handle) (c : Cell) (ok : Held c) where
  module _ (pooled : Bool) (i : Listed e pooled s) (cached : c.in_cache ≡ true) where
    here : Agree e.address s.cells (write e.address c s.cells)
    here = write-Agree e.address c s.cells

    counts :
        (count e.address (remove e s.low) ≡ 0)
        × (count e.address (remove e s.high) ≡ 0)
        × (count e.address pinned ≡ 0)
    counts = rest_counts d s pinned v e pooled i (write e.address c s.cells) here

    taken_reached :
        (k : List ℕ) (q : ℕ) (h : Handle)
        → Table.find s.table k q ≡ some h
        → ((write e.address c s.cells h.address).in_cache ≡ true)
          × ((In h (remove e s.low) ⊎ In h (remove e s.high)) ⊎ In h (e ∷ pinned))
    taken_reached k q h found =
        let there = v.reached k q h found in
        elim (Bool-cases (h.address == e.address)) [
          | inl same ↦
              let one =
                same_handle d s pinned v e h there.1 (Listed-where s e pinned pooled i)
                  ((==_iff h.address e.address).0 same) in
              (
                ap (λ x. x.in_cache)
                      (ap (λ (x : Handle). write e.address c s.cells x.address) one
                        ∙ write_self e.address c s.cells)
                    ∙ cached,
                inr (inl one),
              )
          | inr other ↦ (
            rw (here h.address (flip_test h.address e.address other)) there.0,
            wider e h (remove e s.low) (remove e s.high) pinned
                (kept_where h e s.low s.high pinned other there.1),
          )
        ]

    pub taken-Books : Books d (taken e pooled c s) (e ∷ pinned)
    taken-Books =
        let balance = unlisted_counts d s pinned v e pooled i in
        let sums = unlisted_sums d s pinned v e pooled i in
        let lru = v.lru_sum in
        let whole = v.sum in
        record {
          low_idle =
              All-Agree (λ x. x ≡ idle false) e.address s.cells (write e.address c s.cells)
                (remove e s.low) here counts.0
                (All-remove (λ h. s.cells h.address ≡ idle false) e s.low v.low_idle);
          high_idle =
              All-Agree (λ x. x ≡ idle true) e.address s.cells (write e.address c s.cells)
                (remove e s.high) here counts.1
                (All-remove (λ h. s.cells h.address ≡ idle true) e s.high v.high_idle);
          held = (
            rw (write_self e.address c s.cells) ok,
            All-Agree Held e.address s.cells (write e.address c s.cells) pinned here counts.2
                v.held,
          );
          apart = λ a. ground (arith, balance a, v.apart a);
          lru_sum = omega (arith, sums.0);
          pool_sum = sums.1;
          sum = omega (arith, sums.0);
          small = v.small;
          table_IsTable = v.table_IsTable;
          reached = taken_reached;
          low_found =
              All-remove (λ h. Table.find s.table h.key h.hash ≡ some h) e s.low v.low_found;
          high_found =
              All-remove (λ h. Table.find s.table h.key h.hash ≡ some h) e s.high v.high_found;
          pinned_found = (
            λ _. Listed-found d s pinned v e pooled i,
            All-cached (λ h. Table.find s.table h.key h.hash ≡ some h) e.address s.cells
                (write e.address c s.cells) pinned here counts.2 v.pinned_found,
          );
          intact = v.intact;
          pool_fits = v.pool_fits;
        }

  -- Another count of references for a handle that clients hold.
  module _ (i : In e pinned) (same_flag : c.in_cache ≡ (cell e s).in_cache) where
    written :
        (h : Handle) → (write e.address c s.cells h.address).in_cache ≡ (s.cells h.address).in_cache
    written h = elim (Bool-cases (e.address == h.address)) [
      | inl same ↦
          rw same (same_flag ∙ ap (λ a. (s.cells a).in_cache) ((==_iff e.address h.address).0 same))
      | inr other ↦ rw other refl
    ]

    absent : (count e.address s.low ≡ 0) × (count e.address s.high ≡ 0)
    absent =
        let there = count-In e pinned i in
        let once = v.apart e.address in (omega arith, omega arith)

    pub recounted-Books : Books d (set_cell e c s) pinned
    recounted-Books = record {
      low_idle =
          All-Agree (λ x. x ≡ idle false) e.address s.cells (write e.address c s.cells) s.low
            (write-Agree e.address c s.cells) absent.0 v.low_idle;
      high_idle =
          All-Agree (λ x. x ≡ idle true) e.address s.cells (write e.address c s.cells) s.high
            (write-Agree e.address c s.cells) absent.1 v.high_idle;
      held =
          All-refine (λ h. Held (s.cells h.address))
            (λ h. Held (write e.address c s.cells h.address)) pinned
            (λ h j before. elim (Bool-cases (e.address == h.address)) [
              | inl same ↦ rw same ok
              | inr other ↦ rw other before
            ])
            v.held;
      apart = v.apart;
      lru_sum = v.lru_sum;
      pool_sum = v.pool_sum;
      sum = v.sum;
      small = v.small;
      table_IsTable = v.table_IsTable;
      reached = λ k q h found. (written h ∙ (v.reached k q h found).0, (v.reached k q h found).1);
      low_found = v.low_found;
      high_found = v.high_found;
      pinned_found =
          All-refine
            (λ h. (s.cells h.address).in_cache ≡ true → Table.find s.table h.key h.hash ≡ some h)
            (λ h.
              (write e.address c s.cells h.address).in_cache ≡ true
              → Table.find s.table h.key h.hash ≡ some h)
            pinned (λ h j there cached. there (sym (written h) ∙ cached)) v.pinned_found;
      intact = v.intact;
      pool_fits = v.pool_fits;
    }
