-- ===== src/Cache/Shard/Replace.antt =====
-- rutil/lru_cache.cc: what `Insert` does with the entry that the table had.
use rocksutil.Base.{
  ℕ, ◌+◌, ◌-◌, ◌^◌, ◌≤◌, ◌<◌, ◌≡◌, refl, ap, ◌∙◌, Bool, true, false, ◌==◌, ==_refl, Option-cases,
  none, some, List, [], ◌∷◌, All, arith, ◌⊎◌, inl, inr, add64, sub64,
}
use rocksutil.Slice.{equals_iff}
use rocksutil.Cache.Handles.{Handle, Memory, matches, count, remove, In, count-remove, All-In}
use rocksutil.Cache.Table
use rocksutil.Cache.Table.Bucket.{matches_eq}
use rocksutil.Cache.Table.Resize.{IsTable}
use rocksutil.Cache.Table.Removal.{find-remove}
use rocksutil.Cache.Shard.{Doubles, Shard, cell, set_in_cache}
use rocksutil.Cache.Shard.Operations.{replace}
use rocksutil.Cache.Shard.Invariant.{idle, Held, Books, Listed, unlisted, dropped, unref_lem}
use rocksutil.Cache.Shard.Forget.{Agree, Listed-idle, unlisted_counts, unlisted_sums}
use rocksutil.Cache.Shard.Evict.{
  Dead, forgotten, forgotten-Books, find-matches, flip_test, rest_counts,
}
use rocksutil.Cache.Shard.Detach.{detached-Books, lru_remove-like}
use rocksutil.Cache.Shard.Erase.{clients_erased}
use rocksutil.Cache.Shard.Store.{IsFresh, Adds, Adds-without, stored-Books, elsewhere}

-- The shard `r` has the new handle `e` in its table, and `out` is what is to be freed. Any cell may
-- then be given to the handle.
pub record IsReplaced (d : Doubles) (s : Shard d.Double) (old_pinned : List Handle) (e : Handle)
    (pinned : List Handle) (r : Shard d.Double) (out : List Handle) : Type 0 where
  pub books :
      (m : Memory)
      → Agree e.address r.cells m
      → Held (m e.address)
      → (m e.address).in_cache ≡ true
      → Books d (record r { cells = m }) (e ∷ pinned)
  pub same_capacity : r.capacity ≡ s.capacity
  pub same_ratio : r.high_pri_pool_ratio ≡ s.high_pri_pool_ratio
  pub same_cell : r.cells e.address ≡ s.cells e.address
  pub empty_stays : (s.low ≡ []) × (s.high ≡ []) → (r.low ≡ []) × (r.high ≡ [])
  pub usage_le : r.usage ≤ s.usage + e.charge
  pub frame :
      (a : ℕ) → count a s.low + count a s.high + count a old_pinned ≡ 0 → r.cells a ≡ s.cells a
  pub shorter : (a : ℕ) → count a r.low + count a r.high ≤ count a s.low + count a s.high
  pub out_apart :
      All
        (λ h.
          ((e.address == h.address) ≡ false) × (count h.address r.low + count h.address r.high ≡ 0))
        out
  pub all_dead : All (λ h. Dead (r.cells h.address)) out

module _ (d : Doubles) (s : Shard d.Double) (pinned : List Handle) (v : Books d s pinned)
    (e : Handle) (fresh : IsFresh e s pinned) (t : Table.Table) (ok : IsTable t)
    (adds : Adds e s.table t) (fits : s.usage + e.charge < 2 ^ 64) where
  -- The shard with the new table and the charge.
  abbrev pub added : Shard d.Double
  added = record s { usage = add64 s.usage e.charge; table = t }

  pub replace_none :
      Table.find s.table e.key e.hash ≡ none
      → IsReplaced d s pinned e pinned (replace none added).0 (replace none added).1
  unfolding replace
  replace_none missing =
      let same : add64 s.usage e.charge ≡ s.usage + e.charge = omega arith in
      record {
        books = λ m agree used cached.
            rw same (stored-Books d s pinned v e fresh m agree t ok adds missing used cached fits);
        same_capacity = refl;
        same_ratio = refl;
        same_cell = refl;
        empty_stays = λ lists. lists;
        usage_le = omega arith;
        frame = λ a absent. refl;
        shorter = λ a. omega arith;
        out_apart = tt;
        all_dead = tt;
      }

  module _ (o : Handle) (found : Table.find s.table e.key e.hash ≡ some o) where
    abbrev start : Shard d.Double
    start = set_in_cache o false added

    abbrev memory : Memory
    memory = (dropped o start).cells

    memory-Agree : Agree o.address s.cells memory
    memory-Agree b other = rw other refl

    refs_start : (cell o start).refs ≡ (s.cells o.address).refs
    refs_start = rw (==_refl o.address) refl

    matched : matches e.key e.hash o ≡ true
    matched = find-matches s.table e.key e.hash o found

    Adds-now : Adds e (Table.remove o.key o.hash s.table).0 t
    Adds-now =
        Adds-without e o s.table t (Table.remove o.key o.hash s.table).0 matched
          (find-remove o.key o.hash s.table v.table_IsTable) adds

    missing_now : Table.find (Table.remove o.key o.hash s.table).0 e.key e.hash ≡ none
    missing_now =
        let same = matches_eq e.key e.hash o matched in
        find-remove o.key o.hash s.table v.table_IsTable e.key e.hash
        ∙ rw (same.0, ← same.1, ==_refl e.hash, (equals_iff e.key e.key).1 refl) refl

    other_address : (In o s.low ⊎ In o s.high) ⊎ In o pinned → (o.address == e.address) ≡ false
    other_address there = flip_test e.address o.address (elsewhere s pinned e o fresh there)

    same_cell_now : (o.address == e.address) ≡ false → memory e.address ≡ s.cells e.address
    same_cell_now other = rw other refl

    frame_now :
        (In o s.low ⊎ In o s.high) ⊎ In o pinned
        → (a : ℕ) → count a s.low + count a s.high + count a pinned ≡ 0
        → memory a ≡ s.cells a
    frame_now there a absent =
        let other = elsewhere s pinned (record e { address = a }) o absent there in
        memory-Agree a (flip_test a o.address other)

    abbrev replaced_idle : Bool → Shard d.Double
    replaced_idle pooled = record (unlisted o pooled s) {
      usage = s.usage - o.charge + e.charge;
      table = t;
      cells = memory;
    }

    module _ (pooled : Bool) (i : Listed o pooled s) where
      was : cell o s ≡ idle pooled
      was = Listed-idle d s pinned v o pooled i

      o_fits : o.charge ≤ s.usage
      o_fits =
          let sums = unlisted_sums d s pinned v o pooled i in
          let whole = v.sum in omega (arith, sums.0)

      replace_idle_lem : replace (some o) added ≡ (replaced_idle pooled, o ∷ [])
      unfolding replace
      replace_idle_lem =
          let one : (cell o start).refs ≡ 1 = refs_start ∙ ap (λ c. c.refs) was in
          let unref_now = unref_lem o start v.intact (omega (arith, one)) (omega (arith, one)) in
          let last : ((cell o start).refs - 1 == 0) ≡ true = ground (arith, one) in
          let flag : (memory o.address).in_high_pri_pool ≡ pooled =
            rw (==_refl o.address, was) refl in
          let u : ℕ = sub64 (add64 s.usage e.charge) o.charge in
          let usage : u ≡ s.usage - o.charge + e.charge = omega (arith, o_fits) in
          rw (unref_now, last)
            (ap (λ x. (x, o ∷ []))
              (lru_remove-like d s pinned v o u t memory pooled i flag
                ∙ ap (λ n. record (replaced_idle pooled) { usage = n }) usage))

      Dead-now : Dead (memory o.address)
      Dead-now = rw (==_refl o.address, was) (refl, refl)

      replace_idle :
          (o.address == e.address) ≡ false
          → (In o s.low ⊎ In o s.high) ⊎ In o pinned
          → IsReplaced d s pinned e pinned (replace (some o) added).0 (replace (some o) added).1
      replace_idle other there =
          let rest = forgotten-Books d s pinned v o pooled i memory memory-Agree in
          let gone = rest_counts d s pinned v o pooled i memory memory-Agree in
          let counts = unlisted_counts d s pinned v o pooled i e.address in
          let still : IsFresh e (forgotten o pooled memory s) pinned =
            omega (arith, counts, fresh) in
          rw replace_idle_lem record {
            books = λ m agree used cached.
                stored-Books d (forgotten o pooled memory s) pinned rest e still m agree t ok
                  Adds-now missing_now used cached (omega arith);
            same_capacity = refl;
            same_ratio = refl;
            same_cell = same_cell_now other;
            empty_stays = λ lists. (ap (remove o) lists.0, ap (remove o) lists.1);
            usage_le = omega arith;
            frame = frame_now there;
            shorter = λ a. omega (arith, unlisted_counts d s pinned v o pooled i a);
            out_apart = ((flip_test o.address e.address other, omega (arith, gone.0, gone.1)), tt);
            all_dead = (Dead-now, tt);
          }

    module _ (i : In o pinned) (cached : (cell o s).in_cache ≡ true) where
      held : Held (cell o s)
      held = All-In (λ h. Held (s.cells h.address)) o pinned v.held i

      abbrev replaced_held : Shard d.Double
      replaced_held = record s { usage = s.usage + e.charge; table = t; cells = memory }

      replace_held_lem : replace (some o) added ≡ (replaced_held, [])
      unfolding replace
      replace_held_lem =
          let many = held.cached cached in
          let unref_now =
            unref_lem o start v.intact (omega (arith, refs_start))
              (omega (arith, refs_start, held.bounded)) in
          let more : ((cell o start).refs - 1 == 0) ≡ false = ground (arith, refs_start, many) in
          let usage : add64 s.usage e.charge ≡ s.usage + e.charge = omega arith in
          rw (unref_now, more) (ap (λ n. (record replaced_held { usage = n }, [])) usage)

      held_now : Held (memory o.address)
      held_now =
          let many = held.cached cached in
          rw (==_refl o.address) record {
            referenced = omega arith;
            cached = λ c. absurd (cc);
            bounded = omega (arith, held.bounded);
          }

      replace_held :
          (o.address == e.address) ≡ false
          → IsReplaced d s pinned e
              (o ∷ remove o pinned)
              (replace (some o) added).0
              (replace (some o) added).1
      replace_held other =
          let out : (memory o.address).in_cache ≡ false = rw (==_refl o.address) refl in
          let rest = detached-Books d s pinned v o i cached memory memory-Agree held_now out in
          let counts = count-remove e.address o pinned i in
          let between : Shard d.Double = record s {
            table = (Table.remove o.key o.hash s.table).0;
            cells = memory;
          } in
          let still : IsFresh e between (o ∷ remove o pinned) = omega (arith, counts, fresh) in
          rw replace_held_lem record {
            books = λ m agree used cached.
                stored-Books d between (o ∷ remove o pinned) rest e still m agree t ok Adds-now
                  missing_now used cached fits;
            same_capacity = refl;
            same_ratio = refl;
            same_cell = same_cell_now other;
            empty_stays = λ lists. lists;
            usage_le = omega arith;
            frame = frame_now (inr i);
            shorter = λ a. omega arith;
            out_apart = tt;
            all_dead = tt;
          }

    IsReplaced-where :
        (cell o s).in_cache ≡ true
        → (In o s.low ⊎ In o s.high) ⊎ In o pinned
        → IsReplaced d s pinned e
            (clients_erased (some o) s pinned)
            (replace (some o) added).0
            (replace (some o) added).1
    IsReplaced-where cached (inl (inl i)) =
        let one : ((cell o s).refs == 1) ≡ true = rw (was false i) refl in
        rw one (replace_idle false i (other_address (inl (inl i))) (inl (inl i)))
    IsReplaced-where cached (inl (inr i)) =
        let one : ((cell o s).refs == 1) ≡ true = rw (was true i) refl in
        rw one (replace_idle true i (other_address (inl (inr i))) (inl (inr i)))
    IsReplaced-where cached (inr i) =
        let many = (held i cached).cached cached in
        let more : ((cell o s).refs == 1) ≡ false = ground (arith, many) in
        rw more (replace_held i cached (other_address (inr i)))

  -- The entry that the table had leaves the cache; it is to be freed if it was in the LRU list.
  pub replace-IsReplaced :
      IsReplaced d s pinned e
        (clients_erased (Table.find s.table e.key e.hash) s pinned)
        (replace (Table.find s.table e.key e.hash) added).0
        (replace (Table.find s.table e.key e.hash) added).1
  replace-IsReplaced = elim (Option-cases (Table.find s.table e.key e.hash)) [
    | inl missing ↦ rw missing (replace_none missing)
    | inr (o, found) ↦
        let there = v.reached e.key e.hash o found in
        rw found (IsReplaced-where o found there.0 there.1)
  ]
