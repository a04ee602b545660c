-- ===== src/Cache/Shard/Store.antt =====
-- rutil/lru_cache.cc: a new handle in the shard and in its table.
use rocksutil.Base.{
  ℕ, ◌+◌, ◌^◌, ◌<◌, ◌≡◌, refl, sym, ap, ◌∙◌, true, false, ◌==◌, if◌then◌else◌, Bool-cases, none,
  some, List, ◌∷◌, All, arith, ◌⊎◌, inl, inr,
}
use rocksutil.Cache.Handles.{Handle, Memory, matches, count, In, All-refine}
use rocksutil.Cache.Table
use rocksutil.Cache.Table.Bucket.{matches_eq, matches_self, same_search, same_search_eq}
use rocksutil.Cache.Table.Resize.{IsTable}
use rocksutil.Cache.Shard.{Doubles, Shard}
use rocksutil.Cache.Shard.Invariant.{idle, Held, Books}
use rocksutil.Cache.Shard.Forget.{Agree, All-Agree, All-cached}
use rocksutil.Cache.Shard.Evict.{absent_other, flip_test}
use rocksutil.Cache.Shard.Pin.{wider}
use rocksutil.Cache.Shard.Detach.{joined_once}

-- No handle of the shard has the address.
abbrev pub IsFresh : {D : Type 0} → Handle → Shard D → List Handle → Type 0
IsFresh e s pinned = count e.address s.low + count e.address s.high + count e.address pinned ≡ 0

-- A table that has one more handle.
abbrev pub Adds : Handle → Table.Table → Table.Table → Type 0
Adds e t u =
    (k : List ℕ) (q : ℕ) → Table.find u k q ≡ (if matches k q e then some e else Table.find t k q)

pub elsewhere :
    {D : Type 0} (s : Shard D) (pinned : List Handle) (e h : Handle)
    → IsFresh e s pinned
    → (In h s.low ⊎ In h s.high) ⊎ In h pinned
    → (e.address == h.address) ≡ false
elsewhere s pinned e h fresh (inl (inl i)) =
    flip_test h.address e.address (absent_other e h s.low (omega (arith, fresh)) i)
elsewhere s pinned e h fresh (inl (inr i)) =
    flip_test h.address e.address (absent_other e h s.high (omega (arith, fresh)) i)
elsewhere s pinned e h fresh (inr i) =
    flip_test h.address e.address (absent_other e h pinned (omega (arith, fresh)) i)

module _ (d : Doubles) (s : Shard d.Double) (pinned : List Handle) (v : Books d s pinned)
    (e : Handle) (fresh : IsFresh e s pinned) (m : Memory) (agree : Agree e.address s.cells m) where
  low_kept : All (λ h. m h.address ≡ idle false) s.low
  low_kept =
      All-Agree (λ x. x ≡ idle false) e.address s.cells m s.low agree (omega (arith, fresh))
        v.low_idle

  high_kept : All (λ h. m h.address ≡ idle true) s.high
  high_kept =
      All-Agree (λ x. x ≡ idle true) e.address s.cells m s.high agree (omega (arith, fresh))
        v.high_idle

  held_kept : All (λ h. Held (m h.address)) pinned
  held_kept = All-Agree Held e.address s.cells m pinned agree (omega (arith, fresh)) v.held

  reached_kept :
      (k : List ℕ) (q : ℕ) (h : Handle)
      → Table.find s.table k q ≡ some h
      → ((m h.address).in_cache ≡ true) × ((In h s.low ⊎ In h s.high) ⊎ In h pinned)
  reached_kept k q h found =
      let there = v.reached k q h found in
      (rw (agree h.address (elsewhere s pinned e h fresh there.1)) there.0, there.1)

  -- Memory that no handle of the shard uses may change.
  pub refreshed-Books : Books d (record s { cells = m }) pinned
  refreshed-Books = record {
    low_idle = low_kept;
    high_idle = high_kept;
    held = held_kept;
    apart = v.apart;
    lru_sum = v.lru_sum;
    pool_sum = v.pool_sum;
    sum = v.sum;
    small = v.small;
    table_IsTable = v.table_IsTable;
    reached = reached_kept;
    low_found = v.low_found;
    high_found = v.high_found;
    pinned_found =
        All-cached (λ h. Table.find s.table h.key h.hash ≡ some h) e.address s.cells m pinned agree
          (omega (arith, fresh)) v.pinned_found;
    intact = v.intact;
    pool_fits = v.pool_fits;
  }

  module _ (t : Table.Table) (ok : IsTable t) (adds : Adds e s.table t)
      (missing : Table.find s.table e.key e.hash ≡ none) (used : Held (m e.address))
      (cached : (m e.address).in_cache ≡ true) (fits : s.usage + e.charge < 2 ^ 64) where
    found_still :
        (h : Handle) → Table.find s.table h.key h.hash ≡ some h → Table.find t h.key h.hash ≡ some h
    found_still h there = elim (Bool-cases (matches h.key h.hash e)) [
      | inl same ↦
          let equal = matches_eq h.key h.hash e same in
          let here : Table.find s.table e.key e.hash ≡ some h = rw (equal.0, ← equal.1) there in
          absurd (cc (here, missing))
      | inr other ↦ adds h.key h.hash ∙ rw other there
    ]

    stored_reached :
        (k : List ℕ) (q : ℕ) (h : Handle)
        → Table.find t k q ≡ some h
        → ((m h.address).in_cache ≡ true) × ((In h s.low ⊎ In h s.high) ⊎ In h (e ∷ pinned))
    stored_reached k q h found = elim (Bool-cases (matches k q e)) [
      | inl same ↦
          let shown : some e ≡ some h = rw same at (sym (adds k q) ∙ found) in
          let one : h ≡ e = cc (shown) in
          (ap (λ (x : Handle). (m x.address).in_cache) one ∙ cached, inr (inl one))
      | inr other ↦
          let before = reached_kept k q h (rw other at (sym (adds k q) ∙ found)) in
          (before.0, wider e h s.low s.high pinned before.1)
    ]

    pub stored-Books :
        Books d (record s { usage = s.usage + e.charge; table = t; cells = m }) (e ∷ pinned)
    stored-Books =
        let whole = v.sum in
        record {
          low_idle = low_kept;
          high_idle = high_kept;
          held = (used, held_kept);
          apart = λ a. joined_once s pinned e a fresh (v.apart a);
          lru_sum = v.lru_sum;
          pool_sum = v.pool_sum;
          sum = omega arith;
          small = fits;
          table_IsTable = ok;
          reached = stored_reached;
          low_found =
              All-refine (λ h. Table.find s.table h.key h.hash ≡ some h)
                (λ h. Table.find t h.key h.hash ≡ some h) s.low (λ h j. found_still h) v.low_found;
          high_found =
              All-refine (λ h. Table.find s.table h.key h.hash ≡ some h)
                (λ h. Table.find t h.key h.hash ≡ some h) s.high (λ h j. found_still h)
                v.high_found;
          pinned_found = (
            λ _. adds e.key e.hash ∙ rw (matches_self e) refl,
            All-refine
                (λ h. (m h.address).in_cache ≡ true → Table.find s.table h.key h.hash ≡ some h)
                (λ h. (m h.address).in_cache ≡ true → Table.find t h.key h.hash ≡ some h) pinned
                (λ h j there c. found_still h (there c))
                (All-cached (λ h. Table.find s.table h.key h.hash ≡ some h) e.address s.cells m
                  pinned agree (omega (arith, fresh)) v.pinned_found),
          );
          intact = v.intact;
          pool_fits = v.pool_fits;
        }

-- Adding to a table what replaces `o` adds it to the table without `o`.
pub Adds-without :
    (e o : Handle) (t u w : Table.Table)
    → matches e.key e.hash o ≡ true
    → ((k : List ℕ) (q : ℕ)
        → Table.find w k q ≡ (if same_search k q o.key o.hash then none else Table.find t k q))
    → Adds e t u
    → Adds e w u
Adds-without e o t u w same removed adds k q = elim (Bool-cases (same_search k q o.key o.hash)) [
  | inl hit ↦
      let place = same_search_eq k q o.key o.hash hit in
      let owner = matches_eq e.key e.hash o same in
      let hash : q ≡ e.hash = place.0 ∙ owner.0 in
      let key : k ≡ e.key = place.1 ∙ sym owner.1 in adds k q ∙ rw (hash, key, matches_self e) refl
  | inr apart ↦
      adds k q ∙ ap (λ x. if matches k q e then some e else x) (sym (removed k q ∙ rw apart refl))
]
