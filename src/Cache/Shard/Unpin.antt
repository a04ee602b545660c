-- ===== src/Cache/Shard/Unpin.antt =====
-- rutil/lru_cache.cc: a handle that clients hold no more.
use rocksutil.Base.{
  ℕ, ◌-◌, ◌≡◌, ◌≢◌, ap, true, false, ◌==◌, ==_iff, ==_refl, Bool-cases, some, List, All, arith, ◌⊎◌,
  inl, inr,
}
use rocksutil.Cache.Handles.{
  Handle, Memory, count, remove, In, count-In, charges-remove, count-remove, In-remove, All-remove,
  All-refine,
}
use rocksutil.Cache.Table
use rocksutil.Cache.Table.Resize.{IsTable}
use rocksutil.Cache.Table.Removal.{remove-IsTable}
use rocksutil.Cache.Shard.{Doubles, Shard, cell}
use rocksutil.Cache.Shard.Invariant.{idle, Held, Books}
use rocksutil.Cache.Shard.Forget.{Agree, All-Agree, All-cached, same_handle}
use rocksutil.Cache.Shard.Evict.{find_other, find_removed, absent_other, flip_test}

-- A table without the handle `e` that has all else.
pub record Without (e : Handle) (t u : Table.Table) : Type 0 where
  pub table_IsTable : IsTable u
  pub only :
      (k : List ℕ) (q : ℕ) (h : Handle)
      → Table.find u k q ≡ some h
      → (Table.find t k q ≡ some h) × (h ≢ e)
  pub keeps :
      (h : Handle)
      → Table.find t h.key h.hash ≡ some h
      → (h.address == e.address) ≡ false
      → Table.find u h.key h.hash ≡ some h

pub removed-Without :
    (e : Handle) (t : Table.Table)
    → IsTable t
    → Table.find t e.key e.hash ≡ some e
    → Without e t (Table.remove e.key e.hash t).0
removed-Without e t v here = record {
  table_IsTable = remove-IsTable e.key e.hash t v;
  only = find_removed t v e;
  keeps = λ h. find_other t v e h here;
}

-- The shard whose clients have let `e` go.
abbrev pub released : {D : Type 0} → Handle → Table.Table → Memory → Shard D → Shard D
released e t m s = record s { usage = s.usage - e.charge; table = t; cells = m }

module _ (d : Doubles) (s : Shard d.Double) (pinned : List Handle) (v : Books d s pinned)
    (e : Handle) (i : In e pinned) (m : Memory) (agree : Agree e.address s.cells m) where
  pub uncached-Without : (cell e s).in_cache ≡ false → Without e s.table s.table
  uncached-Without out = record {
    table_IsTable = v.table_IsTable;
    only = λ k q h found. (
      found,
      λ same.
          cc (
            out,
            ap (λ (x : Handle). (s.cells x.address).in_cache) same,
            (v.reached k q h found).0,
          ),
    );
    keeps = λ h there other. there;
  }

  pub pinned_counts :
      (count e.address s.low ≡ 0)
      × (count e.address s.high ≡ 0)
      × (count e.address (remove e pinned) ≡ 0)
  pinned_counts =
      let there = count-In e pinned i in
      let once = v.apart e.address in
      let less = count-remove e.address e pinned i in
      let self = ==_refl e.address in
      (omega arith, omega arith, ground (arith, there, once, less, self))

  apart_without :
      (h : Handle) (xs : List Handle)
      → count e.address xs ≡ 0
      → In h xs
      → (h.address == e.address) ≡ false
  apart_without h xs = absent_other e h xs

  still_there :
      (t : Table.Table)
      → Without e s.table t
      → (xs : List Handle) → count e.address xs ≡ 0
      → All (λ h. Table.find s.table h.key h.hash ≡ some h) xs
      → All (λ h. Table.find t h.key h.hash ≡ some h) xs
  still_there t w xs absent =
      All-refine (λ h. Table.find s.table h.key h.hash ≡ some h)
        (λ h. Table.find t h.key h.hash ≡ some h) xs
        (λ h j there. w.keeps h there (apart_without h xs absent j))

  without_where :
      (h : Handle)
      → h ≢ e
      → (In h s.low ⊎ In h s.high) ⊎ In h pinned
      → ((h.address == e.address) ≡ false) × ((In h s.low ⊎ In h s.high) ⊎ In h (remove e pinned))
  without_where h ne (inl j) = (
    elim (Bool-cases (h.address == e.address)) [
      | inl same ↦
          absurd (
            ne (same_handle d s pinned v e h (inl j) (inr i) ((==_iff h.address e.address).0 same)))
      | inr other ↦ other
    ],
    inl j,
  )
  without_where h ne (inr j) = elim (Bool-cases (h.address == e.address)) [
    | inl same ↦
        absurd
          (ne (same_handle d s pinned v e h (inr j) (inr i) ((==_iff h.address e.address).0 same)))
    | inr other ↦ (other, inr (In-remove h e pinned j other))
  ]

  released_reached :
      (t : Table.Table)
      → Without e s.table t
      → (k : List ℕ) (q : ℕ) (h : Handle) → Table.find t k q ≡ some h
      → ((m h.address).in_cache ≡ true) × ((In h s.low ⊎ In h s.high) ⊎ In h (remove e pinned))
  released_reached t w k q h found =
      let before = w.only k q h found in
      let there = v.reached k q h before.0 in
      let place = without_where h before.1 there.1 in
      (rw (agree h.address (flip_test h.address e.address place.0)) there.0, place.1)

  released_pinned :
      (t : Table.Table)
      → Without e s.table t
      → All
          (λ h. (m h.address).in_cache ≡ true → Table.find t h.key h.hash ≡ some h)
          (remove e pinned)
  released_pinned t w =
      All-cached (λ h. Table.find t h.key h.hash ≡ some h) e.address s.cells m (remove e pinned)
        agree pinned_counts.2
        (All-refine
          (λ h. (s.cells h.address).in_cache ≡ true → Table.find s.table h.key h.hash ≡ some h)
          (λ h. (s.cells h.address).in_cache ≡ true → Table.find t h.key h.hash ≡ some h)
          (remove e pinned)
          (λ h j there cached.
            w.keeps h (there cached) (apart_without h (remove e pinned) pinned_counts.2 j))
          (All-remove
            (λ h. (s.cells h.address).in_cache ≡ true → Table.find s.table h.key h.hash ≡ some h) e
            pinned v.pinned_found))

  pub released-Books :
      (t : Table.Table) → Without e s.table t → Books d (released e t m s) (remove e pinned)
  released-Books t w =
      let once = v.apart e.address in
      let rest = charges-remove e pinned i (omega arith) in
      let lru = v.lru_sum in
      let whole = v.sum in
      record {
        low_idle =
            All-Agree (λ x. x ≡ idle false) e.address s.cells m s.low agree pinned_counts.0
              v.low_idle;
        high_idle =
            All-Agree (λ x. x ≡ idle true) e.address s.cells m s.high agree pinned_counts.1
              v.high_idle;
        held =
            All-Agree Held e.address s.cells m (remove e pinned) agree pinned_counts.2
              (All-remove (λ h. Held (s.cells h.address)) e pinned v.held);
        apart = λ a. ground (arith, count-remove a e pinned i, v.apart a);
        lru_sum = v.lru_sum;
        pool_sum = v.pool_sum;
        sum = omega arith;
        small = omega (arith, v.small);
        table_IsTable = w.table_IsTable;
        reached = released_reached t w;
        low_found = still_there t w s.low pinned_counts.0 v.low_found;
        high_found = still_there t w s.high pinned_counts.1 v.high_found;
        pinned_found = released_pinned t w;
        intact = v.intact;
        pool_fits = v.pool_fits;
      }
