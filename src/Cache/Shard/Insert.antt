-- ===== src/Cache/Shard/Insert.antt =====
-- rutil/lru_cache.cc: `Insert` of a handle for which there is room.
use rocksutil.Base.{
  ℕ, ◌+◌, ◌*◌, ◌^◌, ◌≤◌, ◌<◌, ◌≡◌, refl, sym, ap, subst, fun_ext, ◌∙◌, Bool, true, false, ◌==◌,
  ==_iff, ==_refl, if◌then◌else◌, Bool-cases, Option, Option-cases, List, [], ◌∷◌, All, arith, inl,
  inr, add64,
}
use rocksutil.Cache.Handles.{Handle, Cell, Memory, write, count, remove, All-both}
use rocksutil.Cache.Table
use rocksutil.Cache.Table.Insertion.{insert-IsTable, find-insert, insert_old}
use rocksutil.Cache.Shard.{Doubles, Shard, cell, set_cell, lru_insert}
use rocksutil.Cache.Shard.Operations.{replace, insert_entry}
use rocksutil.Cache.Shard.Invariant.{Held, Books}
use rocksutil.Cache.Shard.Evict.{Dead}
use rocksutil.Cache.Shard.Pin.{write-Agree}
use rocksutil.Cache.Shard.Return.{IsReturned, lru_insert-IsReturned}
use rocksutil.Cache.Shard.Erase.{clients_erased, Keeps, clients_erased-Keeps}
use rocksutil.Cache.Shard.Store.{IsFresh}
use rocksutil.Cache.Shard.Replace.{IsReplaced, replace-IsReplaced}

write_back : (a : ℕ) (c : Cell) (m : Memory) (b : ℕ) → write a (m a) (write a c m) b ≡ m b
write_back a c m b = elim (Bool-cases (a == b)) [
  | inl same ↦ rw same (ap m ((==_iff a b).0 same))
  | inr other ↦ rw other refl
]

-- The cell of a handle that `Insert` has filled in.
pub record IsNew (wanted : Bool) (c : Cell) : Type 0 where
  pub refs_new : c.refs ≡ (if wanted then 2 else 1)
  pub cached : c.in_cache ≡ true

-- The shard `z` has the new handle, and `out` is to be freed.
pub record IsInserted (d : Doubles) (s : Shard d.Double) (old_pinned : List Handle) (e : Handle)
    (pinned : List Handle) (z : Shard d.Double) (out : List Handle) : Type 0 where
  pub books : Books d z pinned
  pub same_capacity : z.capacity ≡ s.capacity
  pub same_ratio : z.high_pri_pool_ratio ≡ s.high_pri_pool_ratio
  pub usage_le : z.usage ≤ s.usage + e.charge
  pub frame :
      (a : ℕ)
      → (e.address == a) ≡ false
      → count a s.low + count a s.high + count a old_pinned ≡ 0
      → z.cells a ≡ s.cells a
  pub all_dead : All (λ h. Dead (z.cells h.address)) out

module _ (d : Doubles) (s : Shard d.Double) (pinned : List Handle) (v : Books d s pinned)
    (e : Handle) (fresh : IsFresh e s pinned) (room : 3 * (s.table.elems + 1) ≤ 2 ^ 32)
    (fits : s.usage + e.charge < 2 ^ 64) where
  abbrev pub old : Option Handle
  old = Table.find s.table e.key e.hash

  now : Shard d.Double
  now = record s { usage = add64 s.usage e.charge; table = (Table.insert e s.table).0 }

  abbrev pub left : List Handle
  left = clients_erased old s pinned

  -- Clients hold what they held.
  pub left-Keeps : Keeps pinned left
  left-Keeps = elim (Option-cases old) [
    | inl missing ↦ rw missing (λ h j. j)
    | inr (o, found) ↦
        let there = v.reached e.key e.hash o found in
        rw found (clients_erased-Keeps d s pinned v o there.1)
  ]

  replaced : IsReplaced d s pinned e left (replace old now).0 (replace old now).1
  unfolding now
  replaced =
      replace-IsReplaced d s pinned v e fresh (Table.insert e s.table).0
        (insert-IsTable e s.table v.table_IsTable room) (find-insert e s.table v.table_IsTable room)
        fits

  -- For a client that wants the handle.
  insert_wanted_lem : insert_entry d e true s ≡ replace old now
  unfolding insert_entry now
  insert_wanted_lem = ap (λ o. replace o now) (insert_old e s.table v.table_IsTable)

  pub insert_wanted :
      IsNew true (cell e s)
      → IsInserted d s pinned e (e ∷ left) (insert_entry d e true s).0 (insert_entry d e true s).1
  insert_wanted new =
      let same = replaced.same_cell in
      let ok : Held ((replace old now).0.cells e.address) = rw same record {
        referenced = omega (arith, new.refs_new);
        cached = λ c. omega (arith, new.refs_new);
        bounded = omega (arith, new.refs_new);
      } in
      rw insert_wanted_lem record {
        books = replaced.books (replace old now).0.cells (λ b other. refl) ok (rw same new.cached);
        same_capacity = replaced.same_capacity;
        same_ratio = replaced.same_ratio;
        usage_le = replaced.usage_le;
        frame = λ a other absent. replaced.frame a absent;
        all_dead = replaced.all_dead;
      }

  pub insert_wanted_empty :
      (s.low ≡ []) × (s.high ≡ [])
      → ((insert_entry d e true s).0.low ≡ []) × ((insert_entry d e true s).0.high ≡ [])
  insert_wanted_empty lists = rw insert_wanted_lem (replaced.empty_stays lists)

  -- For a client that does not: the handle goes to the LRU list.
  module _ (new : IsNew false (cell e s)) where
    r : Shard d.Double
    r = (replace old now).0

    -- The handle, as if the client had it.
    lent : Cell
    lent = record (r.cells e.address) { refs = 2 }

    borrowed : Shard d.Double
    borrowed = set_cell e lent r

    cell_r : r.cells e.address ≡ cell e s
    unfolding r
    cell_r = replaced.same_cell

    borrowed-Books : Books d borrowed (e ∷ left)
    unfolding borrowed r
    borrowed-Books =
        let same : borrowed.cells e.address ≡ lent = rw (==_refl e.address) refl in
        let flag : lent.in_cache ≡ true = unfold lent in ap (λ c. c.in_cache) cell_r ∙ new.cached in
        let ok : Held lent =
          unfold lent in
          record { referenced = omega arith; cached = λ c. omega arith; bounded = omega arith } in
        replaced.books borrowed.cells (write-Agree e.address lent r.cells) (rw same ok)
          (ap (λ c. c.in_cache) same ∙ flag)

    given_back : set_cell e (r.cells e.address) borrowed ≡ r
    unfolding borrowed
    given_back =
        let pointwise : (b : ℕ)
            → write e.address (r.cells e.address) (write e.address lent r.cells) b ≡ r.cells b =
          write_back e.address lent r.cells in
        ap (λ m. record r { cells = m }) (fun_ext pointwise)

    returned : IsReturned d borrowed e left (lru_insert d e r)
    returned =
        let same : borrowed.cells e.address ≡ lent =
          unfold borrowed in rw (==_refl e.address) refl in
        let flag : (borrowed.cells e.address).in_cache ≡ true =
          ap (λ c. c.in_cache) same ∙ (unfold lent in ap (λ c. c.in_cache) cell_r ∙ new.cached) in
        let w =
          lru_insert-IsReturned d borrowed (e ∷ left) borrowed-Books e (inl refl)
            (borrowed-Books.pinned_found.0 flag) (r.cells e.address)
            (ap (λ c. c.refs) cell_r ∙ new.refs_new) (ap (λ c. c.in_cache) cell_r ∙ new.cached) in
        let dropped_e : remove e (e ∷ left) ≡ left = rw (==_refl e.address) refl in
        subst (λ p. IsReturned d borrowed e p (lru_insert d e r)) dropped_e
          (subst (λ x. IsReturned d borrowed e (remove e (e ∷ left)) (lru_insert d e x)) given_back
            w)

    insert_unwanted_lem : insert_entry d e false s ≡ (lru_insert d e r, (replace old now).1)
    unfolding insert_entry now r
    insert_unwanted_lem =
        ap (λ o. (lru_insert d e (replace o now).0, (replace o now).1))
          (insert_old e s.table v.table_IsTable)

    frame_r :
        (a : ℕ)
        → (e.address == a) ≡ false
        → count a r.low + count a r.high ≡ 0
        → (lru_insert d e r).cells a ≡ r.cells a
    frame_r a other absent =
        returned.frame a other (unfold borrowed in absent) ∙ (unfold borrowed in rw other refl)

    pub insert_unwanted :
        IsInserted d s pinned e left (insert_entry d e false s).0 (insert_entry d e false s).1
    insert_unwanted = rw insert_unwanted_lem record {
      books = returned.books;
      same_capacity = returned.same_capacity ∙ (unfold borrowed r in replaced.same_capacity);
      same_ratio = returned.same_ratio ∙ (unfold borrowed r in replaced.same_ratio);
      usage_le = rw returned.same_usage (unfold borrowed r in replaced.usage_le);
      frame = λ a other absent.
          let none_listed : count a r.low + count a r.high ≡ 0 =
            unfold r in omega (arith, replaced.shorter a) in
          frame_r a other none_listed ∙ (unfold r in replaced.frame a absent);
      all_dead =
          All-both
            (λ h.
              ((e.address == h.address) ≡ false)
              × (count h.address r.low + count h.address r.high ≡ 0))
            (λ h. Dead (r.cells h.address)) (λ h. Dead ((lru_insert d e r).cells h.address))
            (replace old now).1
            (λ h apart dead. subst Dead (sym (frame_r h.address apart.0 apart.1)) dead)
            (unfold r in replaced.out_apart) (unfold r in replaced.all_dead);
    }
