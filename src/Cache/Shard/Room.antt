-- ===== src/Cache/Shard/Room.antt =====
-- rutil/lru_cache.cc: the steps of `Insert`: room is made, the handle is stored or refused.
use rocksutil.Base.{
  ℕ, ◌+◌, ◌*◌, ◌^◌, ◌≤◌, ◌<◌, ◌≡◌, refl, sym, ap, subst, ◌∙◌, Bool, true, false, not, ◌&&◌, ◌||◌,
  ◌==◌, ==_refl, ltb, if◌then◌else◌, List, [], ◌∷◌, ◌++◌, All, arith, ◌⊎◌, inl, inr, add64, sub64,
}
use rocksutil.Cache.Handles.{
  Handle, Cell, Memory, write, count, charges, count-append, charges-append, All-both, All-append,
  All-of, count-In,
}
use rocksutil.Cache.Shard.{Doubles, Shard, cell, set_cell, evict_from_lru, free, free_all}
use rocksutil.Cache.Shard.Operations.{insert, insert_handle, insert_end, insert_entry}
use rocksutil.Cache.Shard.Invariant.{Books, IsValid, configured-Books}
use rocksutil.Cache.Shard.Evict.{Dead}
use rocksutil.Cache.Shard.Eviction.{
  IsEvicted, evict_from_lru-IsEvicted, log_freed, free_all-Dead, freed-Books, free_all-snoc,
  free_cached, SameBut, log_freed-SameBut,
}
use rocksutil.Cache.Shard.Capacity.{both_empty}
use rocksutil.Cache.Shard.Pin.{write-Agree}
use rocksutil.Cache.Shard.Store.{IsFresh, refreshed-Books}
use rocksutil.Cache.Shard.Insert.{IsInserted}
use rocksutil.Cache.Shard.Full.{apart_address}

module _ (d : Doubles) (s : Shard d.Double) (pinned : List Handle) (v : IsValid d s pinned)
    (e : Handle) (fresh : IsFresh e s pinned) (wanted : Bool)
    (room : 3 * (s.table.elems + 1) ≤ 2 ^ 32) (fits : s.usage + e.charge < 2 ^ 64) where
  unfoldable pub filled : Cell
  filled =
      let refs : ℕ = if wanted then 2 else 1 in record (cell e s) { refs = refs; in_cache = true }

  unfoldable pub start : Shard d.Double
  start = set_cell e filled s

  pub start-Books : Books d start pinned
  unfolding start
  start-Books =
      refreshed-Books d s pinned v.books e fresh (write e.address filled s.cells)
        (write-Agree e.address filled s.cells)

  unfoldable pub evicted : Shard d.Double
  evicted = (evict_from_lru e.charge start).0

  unfoldable pub deleted : List Handle
  deleted = (evict_from_lru e.charge start).1

  pub eviction :
      IsEvicted d pinned start evicted deleted
      × ((ltb start.capacity (add64 evicted.usage e.charge) ≡ false)
          ⊎ (evicted.low ++ evicted.high ≡ []))
  unfolding evicted deleted
  eviction = evict_from_lru-IsEvicted d pinned e.charge start start-Books

  pub evicted-IsEvicted : IsEvicted d pinned start evicted deleted
  evicted-IsEvicted = eviction.0

  -- The whole list, in parts.
  pub parts :
      (a : ℕ)
      → count a deleted + (count a evicted.low + count a evicted.high)
        ≡ count a s.low + count a s.high
  parts a =
      let order = ap (count a) evicted-IsEvicted.oldest in
      let before : count a (start.low ++ start.high) ≡ count a s.low + count a s.high =
        unfold start in count-append a s.low s.high in
      omega (
        arith,
        count-append a deleted (evicted.low ++ evicted.high),
        count-append a evicted.low evicted.high,
      )

  pub IsFresh-still : IsFresh e evicted pinned
  IsFresh-still = omega (arith, parts e.address, fresh)

  pub usage_less : evicted.usage ≤ s.usage
  usage_less =
      let order = ap charges evicted-IsEvicted.oldest in
      let before : charges (start.low ++ start.high) ≡ charges s.low + charges s.high =
        unfold start in charges-append s.low s.high in
      omega (
        arith,
        charges-append deleted (evicted.low ++ evicted.high),
        charges-append evicted.low evicted.high,
        evicted-IsEvicted.books.sum,
        v.books.sum,
      )

  pub cell_still : evicted.cells e.address ≡ filled
  cell_still =
      evicted-IsEvicted.frame e.address
        (unfold start in omega (arith, count-append e.address s.low s.high, fresh))
      ∙ (unfold start in rw (==_refl e.address) refl)

  pub same_capacity : evicted.capacity ≡ s.capacity
  same_capacity = evicted-IsEvicted.same_capacity ∙ (unfold start in refl)

  pub same_strict : evicted.strict_capacity_limit ≡ s.strict_capacity_limit
  same_strict = evicted-IsEvicted.same_strict ∙ (unfold start in refl)

  pub usage_parts : evicted.usage ≡ evicted.lru_usage + charges pinned
  usage_parts =
      let books = evicted-IsEvicted.books in
      let sum = books.sum in let lru_sum = books.lru_sum in omega arith

  pub same_ratio : evicted.high_pri_pool_ratio ≡ s.high_pri_pool_ratio
  same_ratio = evicted-IsEvicted.same_ratio ∙ (unfold start in refl)

  -- The charge fits, or the list is empty.
  pub ends : (evicted.usage + e.charge ≤ s.capacity) ⊎ ((evicted.low ≡ []) × (evicted.high ≡ []))
  ends = elim eviction.1 [
    | inl enough ↦
        let whole : add64 evicted.usage e.charge ≡ evicted.usage + e.charge =
          omega (arith, usage_less) in
        let capacity : start.capacity ≡ s.capacity = unfold start in refl in
        inl (ground (arith, enough, whole, capacity))
    | inr none_left ↦ inr (both_empty evicted.low evicted.high none_left)
  ]

  pub deleted_apart :
      All
        (λ h.
          ((e.address == h.address) ≡ false)
          × (count h.address evicted.low + count h.address evicted.high + count h.address pinned
              ≡ 0))
        deleted
  deleted_apart =
      All-of
        (λ h.
          ((e.address == h.address) ≡ false)
          × (count h.address evicted.low + count h.address evicted.high + count h.address pinned
              ≡ 0))
        deleted
        (λ h i.
          let here = count-In h deleted i in
          let whole = parts h.address in
          let once = v.books.apart h.address in
          (apart_address e.address h.address s pinned fresh (omega arith), omega arith))

  -- The test for a full cache.
  abbrev pub over : Bool
  over =
      ltb evicted.capacity (add64 (sub64 evicted.usage evicted.lru_usage) e.charge)
      && (evicted.strict_capacity_limit || not wanted)

  -- What is freed at the end, after the handle was stored.
  module _ (held : List Handle) (z : Shard d.Double) (out : List Handle)
      (i : IsInserted d evicted pinned e held z out)
      (room_left : (evicted.usage + e.charge ≤ s.capacity) ⊎ ((z.low ≡ []) × (z.high ≡ []))) where
    pub all-Dead : All (λ h. Dead (z.cells h.address)) (deleted ++ out)
    all-Dead =
        All-append (λ h. Dead (z.cells h.address)) deleted out
          (All-both
            (λ h.
              ((e.address == h.address) ≡ false)
              × (count h.address evicted.low + count h.address evicted.high + count h.address pinned
                  ≡ 0))
            (λ h. Dead (evicted.cells h.address)) (λ h. Dead (z.cells h.address)) deleted
            (λ h apart dead. subst Dead (sym (i.frame h.address apart.0 apart.1)) dead)
            deleted_apart evicted-IsEvicted.all_dead)
          i.all_dead

    pub full_after :
        (t : Shard d.Double) → SameBut z t → t.capacity < t.usage → (t.low ≡ []) × (t.high ≡ [])
    full_after t same over_now = elim room_left [
      | inl enough ↦ absurd (
          omega (
            arith, same.same_capacity, same.same_usage, i.same_capacity, same_capacity, i.usage_le,
          ))
      | inr lists ↦ (same.same_low ∙ lists.0, same.same_high ∙ lists.1)
    ]

    pub stored-IsValid : IsValid d (free_all (deleted ++ out) z) held
    stored-IsValid =
        let same = log_freed-SameBut (deleted ++ out) z in
        rw (free_all-Dead (deleted ++ out) z i.books.intact all-Dead) record {
          books = freed-Books d held (deleted ++ out) z i.books;
          ratio_accepted = rw (same.same_ratio ∙ i.same_ratio ∙ same_ratio) v.ratio_accepted;
          full = full_after (log_freed (deleted ++ out) z) same;
        }

  -- The shard after the eviction alone.
  pub evicted_freed : free_all deleted evicted ≡ log_freed deleted evicted
  evicted_freed =
      free_all-Dead deleted evicted evicted-IsEvicted.books.intact evicted-IsEvicted.all_dead

  pub evicted-IsValid : IsValid d (log_freed deleted evicted) pinned
  evicted-IsValid =
      let same = log_freed-SameBut deleted evicted in
      record {
        books = freed-Books d pinned deleted evicted evicted-IsEvicted.books;
        ratio_accepted = rw (same.same_ratio ∙ same_ratio) v.ratio_accepted;
        full = λ over_now. elim ends [
          | inl enough ↦ absurd (omega (arith, same.same_capacity, same.same_usage, same_capacity))
          | inr lists ↦ (same.same_low ∙ lists.0, same.same_high ∙ lists.1)
        ];
      }

  -- A refused handle that no client wants is freed at once.
  unfoldable pub refused : Shard d.Double
  refused = record (log_freed deleted evicted) { freed = e ∷ (log_freed deleted evicted).freed }

  pub refused-IsValid : IsValid d refused pinned
  unfolding refused
  refused-IsValid =
      let x = log_freed deleted evicted in
      let u = evicted-IsValid in
      record {
        books =
            configured-Books d x pinned u.books x.capacity x.strict_capacity_limit
              x.high_pri_pool_ratio x.high_pri_pool_capacity (e ∷ x.freed) u.books.pool_fits;
        ratio_accepted = u.ratio_accepted;
        full = u.full;
      }

  pub refused_lem :
      filled.refs ≡ 1 → filled.in_cache ≡ true → free_all (deleted ++ e ∷ []) evicted ≡ refused
  unfolding refused
  refused_lem one cached =
      let x = log_freed deleted evicted in
      let same : x.cells e.address ≡ filled =
        ap (λ (m : Memory). m e.address) (log_freed-SameBut deleted evicted).same_cells
        ∙ cell_still in
      free_all-snoc deleted e evicted
      ∙ ap (free e) evicted_freed
      ∙ free_cached e x evicted-IsValid.books.intact (ap (λ c. c.refs) same ∙ one)
          (ap (λ c. c.in_cache) same ∙ cached)

  pub elems_room : 3 * (evicted.table.elems + 1) ≤ 2 ^ 32
  elems_room = let fewer = evicted-IsEvicted.fewer_elems in unfold start in omega arith

  pub charge_fits : evicted.usage + e.charge < 2 ^ 64
  charge_fits = omega (arith, usage_less)

  unfoldable pub stored : Shard d.Double × List Handle
  stored = insert_entry d e wanted evicted

  pub insert_lem : insert d e wanted s ≡ insert_end d over wanted e (evicted, deleted) stored
  unfolding insert insert_handle filled start evicted deleted stored
  insert_lem = refl
