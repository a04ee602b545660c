-- ===== src/Cache/Shard/Erase.antt =====
-- rutil/lru_cache.cc: `Erase`.
use rocksutil.Base.{
  Bool-cases, ℕ, ◌-◌, ◌≡◌, refl, sym, ap, ap₂, ◌∙◌, Bool, true, false, ◌==◌, ==_iff, ==_refl,
  if◌then◌else◌, Option, Option-cases, none, some, List, ◌∷◌, arith, ◌⊎◌, inl, inr, sub64,
}
use rocksutil.Cache.Handles.{In-remove, Handle, Cell, Memory, write, remove, In, All-In}
use rocksutil.Cache.Table
use rocksutil.Cache.Table.Bucket.{matches_eq, same_search}
use rocksutil.Cache.Table.Removal.{remove_result, remove_missing, find-remove}
use rocksutil.Cache.Shard.{
  Doubles, Shard, cell, set_cell, set_in_cache, table_remove, free, lru_remove,
}
use rocksutil.Cache.Shard.Operations.{erase, erase_entry, erase_last}
use rocksutil.Cache.Shard.Invariant.{
  Books, idle, Held, IsValid, Listed, configured-Books, unref_lem, dropped, unlisted,
}
use rocksutil.Cache.Shard.Forget.{same_handle, Agree, sub64_lem, Listed-idle, unlisted_sums}
use rocksutil.Cache.Shard.Evict.{Dead, forgotten, forgotten-Books, find-matches}
use rocksutil.Cache.Shard.Eviction.{free-Dead}
use rocksutil.Cache.Shard.Detach.{lru_remove-like, detached-Books}

module _ (d : Doubles) (s : Shard d.Double) (pinned : List Handle) (v : IsValid d s pinned)
    (e : Handle) where
  abbrev fewer : Cell
  fewer = record (cell e s) { refs = (cell e s).refs - 1 }

  -- The memory at the end.
  abbrev after : Memory
  after = (set_in_cache e false (set_cell e fewer s)).cells

  after-Agree : Agree e.address s.cells after
  after-Agree b other = rw other refl

  abbrev erased_idle : Bool → Shard d.Double
  erased_idle pooled = record (forgotten e pooled after s) { freed = e ∷ s.freed }

  module _ (pooled : Bool) (i : Listed e pooled s) where
    was : cell e s ≡ idle pooled
    was = Listed-idle d s pinned v.books e pooled i

    Dead-after : Dead (after e.address)
    Dead-after = rw (==_refl e.address, was) (refl, refl)

    erase_last_lem : erase_last e (dropped e (table_remove e s)) ≡ erased_idle pooled
    unfolding erase_last
    erase_last_lem =
        let t = (Table.remove e.key e.hash s.table).0 in
        let m : Memory = write e.address fewer s.cells in
        let u : ℕ = sub64 s.usage e.charge in
        let paid : Shard d.Double = record s { usage = u; table = t; cells = m } in
        let finish : Shard d.Double → Shard d.Double = λ x. free e (set_in_cache e false x) in
        let cached : (m e.address).in_cache ≡ true = rw (==_refl e.address, was) refl in
        let flag : (m e.address).in_high_pri_pool ≡ pooled = rw (==_refl e.address, was) refl in
        let sums = unlisted_sums d s pinned v.books e pooled i in
        let whole = v.books.sum in
        let usage = sub64_lem s.usage e.charge (omega (arith, sums.0)) v.books.small in
        ap (λ (b : Bool). finish (if b then lru_remove e paid else paid)) cached
        ∙ ap finish (lru_remove-like d s pinned v.books e u t m pooled i flag)
        ∙ free-Dead e (set_in_cache e false (unlisted e pooled paid)) v.books.intact Dead-after
        ∙ ap (λ n. record (erased_idle pooled) { usage = n }) usage

    erase_idle : erase_entry (some e) (table_remove e s) ≡ erased_idle pooled
    unfolding erase_entry
    erase_idle =
        let unref_now =
          unref_lem e (table_remove e s) v.books.intact (rw was (omega arith))
            (rw was (omega arith)) in
        let last : ((cell e s).refs - 1 == 0) ≡ true = rw was refl in
        rw (unref_now, last) erase_last_lem

    erased_idle-IsValid : IsValid d (erased_idle pooled) pinned
    erased_idle-IsValid = record {
      books =
          configured-Books d (forgotten e pooled after s) pinned
            (forgotten-Books d s pinned v.books e pooled i after after-Agree) s.capacity
            s.strict_capacity_limit s.high_pri_pool_ratio s.high_pri_pool_capacity (e ∷ s.freed)
            v.books.pool_fits;
      ratio_accepted = v.ratio_accepted;
      full =
          λ over. (ap (remove e) (v.full (omega arith)).0, ap (remove e) (v.full (omega arith)).1);
    }

  module _ (i : In e pinned) (cached : (cell e s).in_cache ≡ true) where
    held : Held (cell e s)
    held = All-In (λ h. Held (s.cells h.address)) e pinned v.books.held i

    abbrev erased_held : Shard d.Double
    erased_held = record s { table = (Table.remove e.key e.hash s.table).0; cells = after }

    erase_held : erase_entry (some e) (table_remove e s) ≡ erased_held
    unfolding erase_entry
    erase_held =
        let unref_now =
          unref_lem e (table_remove e s) v.books.intact held.referenced held.bounded in
        let more : ((cell e s).refs - 1 == 0) ≡ false = ground (arith, held.cached cached) in
        rw (unref_now, more) refl

    erased_held-IsValid : IsValid d erased_held (e ∷ remove e pinned)
    erased_held-IsValid =
        let more = held.cached cached in
        let ok : Held (after e.address) = rw (==_refl e.address) record {
          referenced = omega arith;
          cached = λ c. absurd (cc);
          bounded = omega (arith, held.bounded);
        } in
        record {
          books =
              detached-Books d s pinned v.books e i cached after after-Agree ok
                (rw (==_refl e.address) refl);
          ratio_accepted = v.ratio_accepted;
          full = v.full;
        }

-- The handles that clients hold after an erasure of what the table had. One that they hold still is
-- out of the cache.
abbrev pub clients_erased : {D : Type 0} → Option Handle → Shard D → List Handle → List Handle
clients_erased none s pinned = pinned
clients_erased (some e) s pinned = if (cell e s).refs == 1 then pinned else e ∷ remove e pinned

-- What clients held they still hold.
abbrev pub Keeps : List Handle → List Handle → Type 0
Keeps pinned held = (h : Handle) → In h pinned → In h held

module _ (d : Doubles) (s : Shard d.Double) (pinned : List Handle) (v : Books d s pinned)
    (o : Handle) where
  moved_first : In o pinned → Keeps pinned (o ∷ remove o pinned)
  moved_first i h j = elim (Bool-cases (h.address == o.address)) [
    | inl same ↦
        inl (same_handle d s pinned v o h (inr j) (inr i) ((==_iff h.address o.address).0 same))
    | inr other ↦ inr (In-remove h o pinned j other)
  ]

  pub clients_erased-Keeps :
      (In o s.low ⊎ In o s.high) ⊎ In o pinned → Keeps pinned (clients_erased (some o) s pinned)
  clients_erased-Keeps (inl (inl i)) =
      let one : ((cell o s).refs == 1) ≡ true = rw (Listed-idle d s pinned v o false i) refl in
      rw one (λ h j. j)
  clients_erased-Keeps (inl (inr i)) =
      let one : ((cell o s).refs == 1) ≡ true = rw (Listed-idle d s pinned v o true i) refl in
      rw one (λ h j. j)
  clients_erased-Keeps (inr i) = elim (Bool-cases ((cell o s).refs == 1)) [
    | inl one ↦ rw one (λ h j. j)
    | inr more ↦ rw more (moved_first i)
  ]

-- The searches in the table after an erasure.
abbrev pub Forgets : {D : Type 0} → List ℕ → ℕ → Shard D → Shard D → Type 0
Forgets key hash s r =
    (k : List ℕ) (q : ℕ)
    → Table.find r.table k q ≡ (if same_search k q key hash then none else Table.find s.table k q)

module _ (d : Doubles) (s : Shard d.Double) (pinned : List Handle) (v : IsValid d s pinned) where
  erased_where :
      (e : Handle)
      → (cell e s).in_cache ≡ true
      → (In e s.low ⊎ In e s.high) ⊎ In e pinned
      → IsValid d (erase_entry (some e) (table_remove e s)) (clients_erased (some e) s pinned)
        × ((erase_entry (some e) (table_remove e s)).table ≡ (Table.remove e.key e.hash s.table).0)
  erased_where e cached (inl (inl i)) =
      let one : ((cell e s).refs == 1) ≡ true =
        rw (Listed-idle d s pinned v.books e false i) refl in
      rw (erase_idle d s pinned v e false i, one) (erased_idle-IsValid d s pinned v e false i, refl)
  erased_where e cached (inl (inr i)) =
      let one : ((cell e s).refs == 1) ≡ true = rw (Listed-idle d s pinned v.books e true i) refl in
      rw (erase_idle d s pinned v e true i, one) (erased_idle-IsValid d s pinned v e true i, refl)
  erased_where e cached (inr i) =
      let many = (held d s pinned v e i cached).cached cached in
      let more : ((cell e s).refs == 1) ≡ false = ground (arith, many) in
      rw (erase_held d s pinned v e i cached, more)
        (erased_held-IsValid d s pinned v e i cached, refl)

  erase_missing :
      (key : List ℕ) (hash : ℕ) → Table.find s.table key hash ≡ none → erase key hash s ≡ s
  unfolding erase erase_entry
  erase_missing key hash missing =
      ap (λ r. erase_entry r (record s { table = (Table.remove key hash s.table).0 }))
        (remove_result key hash s.table v.books.table_IsTable ∙ missing)
      ∙ ap (λ t. record s { table = t }) (remove_missing key hash s.table missing)

  erase_found :
      (key : List ℕ) (hash : ℕ) (e : Handle)
      → Table.find s.table key hash ≡ some e
      → (erase key hash s ≡ erase_entry (some e) (table_remove e s))
        × ((Table.remove e.key e.hash s.table).0 ≡ (Table.remove key hash s.table).0)
  unfolding erase
  erase_found key hash e found =
      let parts = matches_eq key hash e (find-matches s.table key hash e found) in
      let same : (Table.remove e.key e.hash s.table).0 ≡ (Table.remove key hash s.table).0 =
        ap₂ (λ k q. (Table.remove k q s.table).0) (sym parts.1) parts.0 in
      (
        ap (λ r. erase_entry r (record s { table = (Table.remove key hash s.table).0 }))
              (remove_result key hash s.table v.books.table_IsTable ∙ found)
            ∙ ap (λ t. erase_entry (some e) (record s { table = t })) (sym same),
        same,
      )

  -- `Erase` keeps the shard in order, and its assertions hold. Its table then has nothing for the
  -- key and the hash, and what it had for all others.
  pub erase-IsValid :
      (key : List ℕ) (hash : ℕ)
      → IsValid d (erase key hash s) (clients_erased (Table.find s.table key hash) s pinned)
        × Forgets key hash s (erase key hash s)
  erase-IsValid key hash = elim (Option-cases (Table.find s.table key hash)) [
    | inl missing ↦
        rw (erase_missing key hash missing, missing)
          (
            v,
            λ k q.
                sym (ap (λ t. Table.find t k q) (remove_missing key hash s.table missing))
                ∙ find-remove key hash s.table v.books.table_IsTable k q,
          )
    | inr (e, found) ↦
        let there = v.books.reached key hash e found in
        let step = erase_found key hash e found in
        let done = erased_where e there.0 there.1 in
        rw (step.0, found)
          (
            done.0,
            λ k q.
                ap (λ t. Table.find t k q) (done.1 ∙ step.1)
                ∙ find-remove key hash s.table v.books.table_IsTable k q,
          )
  ]
