-- ===== src/Cache/Shard/Lookup.antt =====
-- rutil/lru_cache.cc: `Lookup`.
use rocksutil.Base.{
  ℕ, ◌+◌, ◌^◌, ◌%◌, ◌<◌, ◌≡◌, refl, sym, ap, subst, ◌∙◌, Bool, true, false, ◌==◌, if◌then◌else◌,
  Option, Option-cases, none, some, List, ◌∷◌, All, arith, ◌⊎◌, inl, inr, u32_mod,
}
use rocksutil.Cache.Handles.{Handle, Cell, In, remove, All-In, count-In, remove_absent}
use rocksutil.Cache.Table
use rocksutil.Cache.Shard.{Doubles, Shard, cell, check, lru_remove}
use rocksutil.Cache.Shard.Operations.{lookup, lookup_entry, refer}
use rocksutil.Cache.Shard.Invariant.{Held, IsValid, Listed, unlisted, check-true}
use rocksutil.Cache.Shard.Forget.{Listed-idle, lru_remove-Listed}
use rocksutil.Cache.Shard.Evict.{write_self}
use rocksutil.Cache.Shard.Pin.{write-Agree, taken-Books, recounted-Books}

-- The handles that clients hold after a search that found this.
abbrev pub clients : {D : Type 0} → Option Handle → Shard D → List Handle → List Handle
clients none s pinned = pinned
clients (some e) s pinned = if (cell e s).refs == 1 then e ∷ pinned else pinned

-- A found handle has another reference and is not in the LRU list; the memory of other handles
-- is what it was. A search that finds nothing changes nothing.
abbrev pub Referred : {D : Type 0} → Option Handle → Shard D → Shard D → Type 0
Referred none s r = r ≡ s
Referred (some e) s r =
    (cell e r ≡ record (cell e s) { refs = (cell e s).refs + 1 })
    × ((a : ℕ) → (e.address == a) ≡ false → r.cells a ≡ s.cells a)
    × (r.low ≡ remove e s.low)
    × (r.high ≡ remove e s.high)

-- The cell with another reference.
abbrev pub referred : Cell → Cell
referred c = record c { refs = (c.refs + 1) % u32_mod }

module _ {D : Type 0} (e : Handle) (s t : Shard D) (room : (cell e s).refs + 1 < 2 ^ 32)
    (same : t.cells ≡ s.cells) (low : t.low ≡ remove e s.low)
    (high : t.high ≡ remove e s.high) where
  refer-Referred : Referred (some e) s (refer e t)
  refer-Referred =
      let before : cell e t ≡ cell e s = ap (λ m. m e.address) same in
      let count : ((cell e s).refs + 1) % u32_mod ≡ (cell e s).refs + 1 = omega arith in
      (
        write_self e.address (referred (cell e t)) t.cells
            ∙ ap referred before
            ∙ ap (λ n. record (cell e s) { refs = n }) count,
        λ a other. write-Agree e.address (referred (cell e t)) t.cells a other ∙ ap (λ m. m a) same,
        low,
        high,
      )

module _ (d : Doubles) (s : Shard d.Double) (pinned : List Handle) (v : IsValid d s pinned)
    (e : Handle) where
  lookup-Listed :
      (pooled : Bool)
      → Listed e pooled s
      → IsValid d (lookup_entry (some e) s).0 (clients (some e) s pinned)
        × Referred (some e) s (lookup_entry (some e) s).0
  unfolding lookup_entry
  lookup-Listed pooled i =
      let same = Listed-idle d s pinned v.books e pooled i in
      let one : ((cell e s).refs == 1) ≡ true = rw same refl in
      let ok : Held (referred (cell e s)) =
        rw same
          (record { referenced = omega arith; cached = λ _. omega arith; bounded = omega arith }) in
      let step : lru_remove e (check (cell e s).in_cache s) ≡ unlisted e pooled s =
        ap (lru_remove e)
          (check-true (cell e s).in_cache s v.books.intact (ap (λ c. c.in_cache) same))
        ∙ lru_remove-Listed d s pinned v.books e pooled i in
      let books =
        taken-Books d s pinned v.books e (referred (cell e s)) ok pooled i
          (ap (λ c. c.in_cache) same) in
      let valid : IsValid d (refer e (unlisted e pooled s)) (e ∷ pinned) = record {
        books = books;
        ratio_accepted = v.ratio_accepted;
        full = λ over. (ap (remove e) (v.full over).0, ap (remove e) (v.full over).1);
      } in
      let bound : (cell e s).refs + 1 < 2 ^ 32 = rw same (omega arith) in
      rw one (
        subst (λ t. IsValid d (refer e t) (e ∷ pinned) × Referred (some e) s (refer e t)) (sym step)
          (valid, refer-Referred e s (unlisted e pooled s) bound refl refl refl))

  lookup_pinned :
      (cell e s).in_cache ≡ true
      → In e pinned
      → (cell e s).refs + 1 < 2 ^ 32
      → IsValid d (lookup_entry (some e) s).0 (clients (some e) s pinned)
        × Referred (some e) s (lookup_entry (some e) s).0
  unfolding lookup_entry
  lookup_pinned cached i room =
      let held = All-In (λ h. Held (s.cells h.address)) e pinned v.books.held i in
      let more = held.cached cached in
      let two : ((cell e s).refs == 1) ≡ false = ground (arith, more) in
      let ok : Held (referred (cell e s)) = record {
        referenced = omega arith;
        cached = λ _. omega arith;
        bounded = omega arith;
      } in
      let books = recounted-Books d s pinned v.books e (referred (cell e s)) ok i refl in
      let valid : IsValid d (refer e s) pinned = record {
        books = books;
        ratio_accepted = v.ratio_accepted;
        full = v.full;
      } in
      let there = count-In e pinned i in
      let once = v.books.apart e.address in
      let low : s.low ≡ remove e s.low = sym (remove_absent e s.low (omega arith)) in
      let high : s.high ≡ remove e s.high = sym (remove_absent e s.high (omega arith)) in
      rw two (
        subst (λ t. IsValid d (refer e t) pinned × Referred (some e) s (refer e t))
          (sym (check-true (cell e s).in_cache s v.books.intact cached))
          (valid, refer-Referred e s s room refl low high))

module _ (d : Doubles) (s : Shard d.Double) (pinned : List Handle) (v : IsValid d s pinned)
    (room : All (λ h. (s.cells h.address).refs + 1 < 2 ^ 32) pinned) where
  lookup_where :
      (e : Handle)
      → (cell e s).in_cache ≡ true
      → (In e s.low ⊎ In e s.high) ⊎ In e pinned
      → IsValid d (lookup_entry (some e) s).0 (clients (some e) s pinned)
        × Referred (some e) s (lookup_entry (some e) s).0
  lookup_where e cached (inl (inl i)) = lookup-Listed d s pinned v e false i
  lookup_where e cached (inl (inr i)) = lookup-Listed d s pinned v e true i
  lookup_where e cached (inr i) =
      lookup_pinned d s pinned v e cached i
        (All-In (λ h. (s.cells h.address).refs + 1 < 2 ^ 32) e pinned room i)

  -- `Lookup` returns what the table has for the key and the hash, as long as no count of references
  -- is at its bound. It keeps the shard in order, and its assertions hold; a handle that was idle
  -- is then one that clients hold. A handle that is found gets one more reference, idle or not, and
  -- is not in the LRU list; a search that finds nothing changes nothing.
  pub lookup-IsValid :
      (key : List ℕ) (hash : ℕ)
      → ((lookup key hash s).1 ≡ Table.find s.table key hash)
        × IsValid d (lookup key hash s).0 (clients (Table.find s.table key hash) s pinned)
        × Referred (Table.find s.table key hash) s (lookup key hash s).0
  unfolding lookup
  lookup-IsValid key hash = elim (Option-cases (Table.find s.table key hash)) [
    | inl missing ↦ rw missing (unfold lookup_entry in (refl, v, refl))
    | inr (e, found) ↦
        let there = v.books.reached key hash e found in
        let (valid, referred_to) = lookup_where e there.0 there.1 in
        rw found (unfold lookup_entry in refl, valid, referred_to)
  ]
