-- ===== src/Cache/Shard/Evict.antt =====
-- rutil/lru_cache.cc: an idle entry leaves the shard and its table.
use rocksutil.Base.{
  ℕ, ◌-◌, ◌≡◌, ◌≢◌, refl, sym, ap, ◌∙◌, Bool, true, false, ◌&&◌, ◌==◌, ==_iff, ==_refl,
  if◌then◌else◌, Bool-cases, Option, none, some, List, All, arith, ◌⊎◌, inl, inr,
}
use rocksutil.Slice.{equals_iff}
use rocksutil.Cache.Handles.{
  Handle, Cell, Memory, write, matches, count, remove, In, count-In, In-remove, All-remove,
  All-refine,
}
use rocksutil.Cache.Table
use rocksutil.Cache.Table.Bucket.{same_search, same_search_eq, matches_eq, first-matches}
use rocksutil.Cache.Table.Resize.{IsTable}
use rocksutil.Cache.Table.Removal.{remove-IsTable, find-remove}
use rocksutil.Cache.Shard.{
  Doubles, Shard, cell, set_in_cache, table_remove, sub_usage, unref, evict_one, lru_remove,
}
use rocksutil.Cache.Shard.Invariant.{idle, Held, Books, Listed, check-true, unlisted, unref_lem}
use rocksutil.Cache.Shard.Forget.{
  sub64_lem, lru_remove-Listed, Listed-idle, Agree, All-Agree, Listed-found, unlisted_counts,
  unlisted_sums, same_handle,
}

-- The shard without the entry.
abbrev pub forgotten : {D : Type 0} → Handle → Bool → Memory → Shard D → Shard D
forgotten e pooled m s = record (unlisted e pooled s) {
  usage = s.usage - e.charge;
  table = (Table.remove e.key e.hash s.table).0;
  cells = m;
}

pub find-matches :
    (t : Table.Table) (k : List ℕ) (q : ℕ) (h : Handle)
    → Table.find t k q ≡ some h
    → matches k q h ≡ true
unfolding Table.find
find-matches t k q h found = first-matches k q (Table.bucket t q) h found

if_some :
    (b : Bool) (o : Option Handle) (h : Handle)
    → (if b then none else o) ≡ some h
    → (b ≡ false) × (o ≡ some h)
if_some true o h e = cc
if_some false o h e = (refl, e)

-- What a table still finds when the entry `e` was removed.
module _ (t : Table.Table) (ok : IsTable t) (e : Handle) where
  pub find_other :
      (h : Handle)
      → Table.find t e.key e.hash ≡ some e
      → Table.find t h.key h.hash ≡ some h
      → (h.address == e.address) ≡ false
      → Table.find (Table.remove e.key e.hash t).0 h.key h.hash ≡ some h
  find_other h here there other = elim (Bool-cases (same_search h.key h.hash e.key e.hash)) [
    | inl same ↦
        let equal = same_search_eq h.key h.hash e.key e.hash same in
        let found : Table.find t e.key e.hash ≡ some h = rw (← equal.0, ← equal.1) there in
        let one : e ≡ h = cc (here, found) in
        absurd
          (ground (arith, other, ==_iff h.address e.address, ap (λ (x : Handle). x.address) one))
    | inr apart ↦ find-remove e.key e.hash t ok h.key h.hash ∙ rw apart there
  ]

  pub find_removed :
      (k : List ℕ) (q : ℕ) (h : Handle)
      → Table.find (Table.remove e.key e.hash t).0 k q ≡ some h
      → (Table.find t k q ≡ some h) × (h ≢ e)
  find_removed k q h found =
      let parts =
        if_some (same_search k q e.key e.hash) (Table.find t k q) h
          (sym (find-remove e.key e.hash t ok k q) ∙ found) in
      (
        parts.1,
        λ same.
            let matched = matches_eq k q h (find-matches t k q h parts.1) in
            let hash : q ≡ e.hash = sym matched.0 ∙ ap (λ (x : Handle). x.hash) same in
            let key : k ≡ e.key = matched.1 ∙ ap (λ (x : Handle). x.key) same in
            let searched : same_search k q e.key e.hash ≡ true =
              rw (hash, key, ==_refl e.hash, (equals_iff e.key e.key).1 refl) refl in
            cc (parts.0, searched),
      )

pub absent_other :
    (e h : Handle) (xs : List Handle)
    → count e.address xs ≡ 0
    → In h xs
    → (h.address == e.address) ≡ false
absent_other e h xs absent j = elim (Bool-cases (h.address == e.address)) [
  | inl same ↦
      let there = count-In h xs j in
      absurd (ground (arith, ap (λ a. count a xs) ((==_iff h.address e.address).0 same)))
  | inr other ↦ other
]

pub flip_test : (a b : ℕ) → (a == b) ≡ false → (b == a) ≡ false
flip_test a b h = ground arith

pub Listed-where :
    {D : Type 0} (s : Shard D) (e : Handle) (pinned : List Handle) (pooled : Bool)
    → Listed e pooled s
    → (In e s.low ⊎ In e s.high) ⊎ In e pinned
Listed-where s e pinned false i = inl (inl i)
Listed-where s e pinned true i = inl (inr i)

pub kept_where :
    (h e : Handle) (low high pinned : List Handle)
    → (h.address == e.address) ≡ false
    → (In h low ⊎ In h high) ⊎ In h pinned
    → (In h (remove e low) ⊎ In h (remove e high)) ⊎ In h pinned
kept_where h e low high pinned other (inl (inl i)) = inl (inl (In-remove h e low i other))
kept_where h e low high pinned other (inl (inr i)) = inl (inr (In-remove h e high i other))
kept_where h e low high pinned other (inr i) = inr i

module _ (d : Doubles) (s : Shard d.Double) (pinned : List Handle) (v : Books d s pinned)
    (e : Handle) (pooled : Bool) (i : Listed e pooled s) (m : Memory)
    (agree : Agree e.address s.cells m) where
  listed_here : (In e s.low ⊎ In e s.high) ⊎ In e pinned
  listed_here = Listed-where s e pinned pooled i

  pub rest_counts :
      (count e.address (remove e s.low) ≡ 0)
      × (count e.address (remove e s.high) ≡ 0)
      × (count e.address pinned ≡ 0)
  rest_counts =
      let counts = unlisted_counts d s pinned v e pooled i e.address in
      let once = v.apart e.address in
      (ground (arith, counts, once), ground (arith, counts, once), ground (arith, counts, once))

  -- The table still finds the handles of a list without the entry.
  still_found :
      (xs : List Handle)
      → count e.address xs ≡ 0
      → All (λ h. Table.find s.table h.key h.hash ≡ some h) xs
      → All (λ h. Table.find (forgotten e pooled m s).table h.key h.hash ≡ some h) xs
  still_found xs absent =
      All-refine (λ h. Table.find s.table h.key h.hash ≡ some h)
        (λ h. Table.find (forgotten e pooled m s).table h.key h.hash ≡ some h) xs
        (λ h j there.
          find_other s.table v.table_IsTable e h (Listed-found d s pinned v e pooled i) there
            (absent_other e h xs absent j))

  still_reached :
      (k : List ℕ) (q : ℕ) (h : Handle)
      → Table.find (forgotten e pooled m s).table k q ≡ some h
      → ((m h.address).in_cache ≡ true)
        × ((In h (remove e s.low) ⊎ In h (remove e s.high)) ⊎ In h pinned)
  still_reached k q h found =
      let before = find_removed s.table v.table_IsTable e k q h found in
      let there = v.reached k q h before.0 in
      let other : (h.address == e.address) ≡ false = elim (Bool-cases (h.address == e.address)) [
        | inl same ↦ absurd (
            before.1 (
              same_handle d s pinned v e h there.1 listed_here
                ((==_iff h.address e.address).0 same)))
        | inr apart ↦ apart
      ] in
      (
        rw (agree h.address (flip_test h.address e.address other)) there.0,
        kept_where h e s.low s.high pinned other there.1,
      )

  pub forgotten-Books : Books d (forgotten e pooled m s) pinned
  forgotten-Books =
      let counts = unlisted_counts d s pinned v e pooled i in
      let sums = unlisted_sums d s pinned v e pooled i in
      let lru = v.lru_sum in
      let whole = v.sum in
      record {
        low_idle =
            All-Agree (λ c. c ≡ idle false) e.address s.cells m (remove e s.low) agree rest_counts.0
              (All-remove (λ h. s.cells h.address ≡ idle false) e s.low v.low_idle);
        high_idle =
            All-Agree (λ c. c ≡ idle true) e.address s.cells m (remove e s.high) agree rest_counts.1
              (All-remove (λ h. s.cells h.address ≡ idle true) e s.high v.high_idle);
        held = All-Agree Held e.address s.cells m pinned agree rest_counts.2 v.held;
        apart = λ a. ground (arith, counts a, v.apart a);
        lru_sum = omega (arith, sums.0);
        pool_sum = sums.1;
        sum = omega (arith, sums.0);
        small = omega (arith, v.small);
        table_IsTable = remove-IsTable e.key e.hash s.table v.table_IsTable;
        reached = still_reached;
        low_found =
            still_found (remove e s.low) rest_counts.0
              (All-remove (λ h. Table.find s.table h.key h.hash ≡ some h) e s.low v.low_found);
        high_found =
            still_found (remove e s.high) rest_counts.1
              (All-remove (λ h. Table.find s.table h.key h.hash ≡ some h) e s.high v.high_found);
        pinned_found =
            All-refine
              (λ h. (s.cells h.address).in_cache ≡ true → Table.find s.table h.key h.hash ≡ some h)
              (λ h.
                (m h.address).in_cache ≡ true
                → Table.find (forgotten e pooled m s).table h.key h.hash ≡ some h)
              pinned
              (λ h j there cached.
                let other = absent_other e h pinned rest_counts.2 j in
                let same = agree h.address (flip_test h.address e.address other) in
                find_other s.table v.table_IsTable e h (Listed-found d s pinned v e pooled i)
                  (there (rw same at cached)) other)
              v.pinned_found;
        intact = v.intact;
        pool_fits = v.pool_fits;
      }

-- The memory after the entry lost its flag and its last reference.
abbrev pub uncached : Handle → Memory → Memory
uncached e m = write e.address (record (m e.address) { in_cache = false }) m

abbrev pub dead : Handle → Memory → Memory
dead e m =
    write e.address (record (uncached e m e.address) { refs = (uncached e m e.address).refs - 1 })
      (uncached e m)

pub write_self : (a : ℕ) (c : Cell) (m : Memory) → write a c m a ≡ c
write_self a c m = rw (==_refl a) refl

pub dead-Agree : (e : Handle) (m : Memory) → Agree e.address m (dead e m)
dead-Agree e m b other = rw other refl

module _ (d : Doubles) (s : Shard d.Double) (pinned : List Handle) (v : Books d s pinned)
    (e : Handle) (pooled : Bool) (i : Listed e pooled s) where
  pub evict_one_lem : evict_one e s ≡ forgotten e pooled (dead e s.cells) s
  unfolding evict_one
  evict_one_lem =
      let idle_cell = Listed-idle d s pinned v e pooled i in
      let finish : Shard d.Double → Shard d.Double =
        λ t. sub_usage e.charge (unref e (set_in_cache e false (table_remove e t))).0 in
      let holds : ((cell e s).in_cache && (cell e s).refs == 1) ≡ true = rw idle_cell refl in
      let refs_one : (uncached e s.cells e.address).refs ≡ 1 =
        ap (λ c. c.refs)
          (write_self e.address (record (s.cells e.address) { in_cache = false }) s.cells)
        ∙ ap (λ c. c.refs) idle_cell in
      let sums = unlisted_sums d s pinned v e pooled i in
      let whole = v.sum in
      ap (λ t. finish (lru_remove e t))
        (check-true ((cell e s).in_cache && (cell e s).refs == 1) s v.intact holds)
      ∙ ap finish (lru_remove-Listed d s pinned v e pooled i)
      ∙ ap (λ t. sub_usage e.charge t.0)
          (unref_lem e (set_in_cache e false (table_remove e (unlisted e pooled s))) v.intact
            (omega (arith, refs_one)) (omega (arith, refs_one)))
      ∙ ap (λ u. record (forgotten e pooled (dead e s.cells) s) { usage = u })
          (sub64_lem s.usage e.charge (omega (arith, sums.0)) v.small)

  pub evict_one-Books : Books d (evict_one e s) pinned
  evict_one-Books =
      rw evict_one_lem
        (forgotten-Books d s pinned v e pooled i (dead e s.cells) (dead-Agree e s.cells))

-- A handle that `Free` accepts and that is not in the cache.
abbrev pub Dead : Cell → Type 0
Dead c = (c.refs ≡ 0) × (c.in_cache ≡ false)

pub dead-Dead :
    (e : Handle) (pooled : Bool) (m : Memory)
    → m e.address ≡ idle pooled
    → Dead (dead e m e.address)
dead-Dead e pooled m same = rw (==_refl e.address, same) (refl, refl)
