-- ===== src/Cache/Shard/Eviction.antt =====
-- rutil/lru_cache.cc: `EvictFromLRU` and the list of handles to free.
use rocksutil.Base.{
  ℕ, ◌+◌, ◌≤◌, ◌≡◌, refl, sym, ap, subst, ◌∙◌, Bool, true, false, ◌==◌, ==_refl, ltb, Bool-cases,
  List, [], ◌∷◌, ◌++◌, All, arith, ◌⊎◌, inl, inr, add64,
}
use rocksutil.Cache.Handles.{Handle, count, remove, In, count-append, remove_absent}
use rocksutil.Cache.Table.Removal.{elems-remove}
use rocksutil.Cache.Shard.{
  Doubles, Shard, cell, evict_one, evict_loop, evict_from_lru, free, free_all,
}
use rocksutil.Cache.Shard.Operations.{evict_all}
use rocksutil.Cache.Shard.Invariant.{Books, configured-Books, Listed, unfailed}
use rocksutil.Cache.Shard.Forget.{Listed-idle}
use rocksutil.Cache.Shard.Evict.{dead, Dead, dead-Dead, dead-Agree, evict_one_lem, evict_one-Books}

-- The shard `r` and the handles `deleted` are what an eviction from `s` leaves: the oldest entries
-- are gone, and can be freed.
pub record IsEvicted (d : Doubles) (pinned : List Handle) (s r : Shard d.Double)
    (deleted : List Handle) : Type 0 where
  pub books : Books d r pinned
  pub oldest : deleted ++ (r.low ++ r.high) ≡ s.low ++ s.high
  pub same_capacity : r.capacity ≡ s.capacity
  pub same_strict : r.strict_capacity_limit ≡ s.strict_capacity_limit
  pub same_ratio : r.high_pri_pool_ratio ≡ s.high_pri_pool_ratio
  pub fewer_elems : r.table.elems ≤ s.table.elems
  pub same_freed : r.freed ≡ s.freed
  pub all_dead : All (λ h. Dead (r.cells h.address)) deleted
  pub frame : (a : ℕ) → count a (s.low ++ s.high) ≡ 0 → r.cells a ≡ s.cells a

remove_first : (e x : Handle) (xs : List Handle) → x ≡ e → remove e (x ∷ xs) ≡ xs
remove_first e x xs same = rw (ap (λ h. h.address) same, ==_refl e.address) refl

-- The first entry of the list from `lru_.next` on, and what is left without it.
pub first_entry :
    (old : Handle) (rest low high : List Handle)
    → count old.address low + count old.address high ≤ 1
    → low ++ high ≡ old ∷ rest
    → (In old low ⊎ In old high) × (remove old low ++ remove old high ≡ rest)
first_entry old rest [] [] once e = absurd (cc)
first_entry old rest [] (x ∷ xs) once e =
    let same : x ≡ old = cc in (inr (inl (sym same)), remove_first old x xs same ∙ (cc))
first_entry old rest (x ∷ xs) high once e =
    let same : x ≡ old = cc in
    let here : (x.address == old.address) ≡ true = rw same (==_refl old.address) in
    let absent : count old.address high ≡ 0 = ground (arith, here, once) in
    (inl (inl (sym same)), rw (remove_first old x xs same, remove_absent old high absent) (cc))

later_absent :
    (old : Handle) (rest xs : List Handle)
    → xs ≡ old ∷ rest
    → count old.address xs ≤ 1
    → count old.address rest ≡ 0
later_absent old rest xs start once =
    let here : count old.address (old ∷ rest) ≤ 1 =
      subst (λ ys. count old.address ys ≤ 1) start once in
    ground (arith, here, ==_refl old.address)

pub Listed-of :
    {D : Type 0} (s : Shard D) (e : Handle)
    → In e s.low ⊎ In e s.high
    → (pooled : Bool) × Listed e pooled s
Listed-of s e (inl i) = (false, i)
Listed-of s e (inr i) = (true, i)

module _ (d : Doubles) (pinned : List Handle) where
  stays : (s : Shard d.Double) → Books d s pinned → IsEvicted d pinned s s []
  stays s v = record {
    books = v;
    oldest = refl;
    same_capacity = refl;
    same_strict = refl;
    same_ratio = refl;
    fewer_elems = omega arith;
    same_freed = refl;
    all_dead = tt;
    frame = λ a absent. refl;
  }

  -- One more entry before what a shorter eviction removes.
  one_more :
      (old : Handle) (rest : List Handle) (s r : Shard d.Double) (deleted : List Handle)
      → Books d s pinned
      → s.low ++ s.high ≡ old ∷ rest
      → ((evict_one old s).low ++ (evict_one old s).high ≡ rest)
      → IsEvicted d pinned (evict_one old s) r deleted
      → IsEvicted d pinned s r (old ∷ deleted)
  one_more old rest s r deleted v start next w =
      let counts = count-append old.address s.low s.high in
      let first = first_entry old rest s.low s.high (omega (arith, v.apart old.address)) start in
      let (pooled, i) = Listed-of s old first.0 in
      let step = evict_one_lem d s pinned v old pooled i in
      let alone : count old.address rest ≡ 0 =
        later_absent old rest (s.low ++ s.high) start (omega (arith, v.apart old.address)) in
      let same_old : r.cells old.address ≡ dead old s.cells old.address =
        w.frame old.address (rw next alone) ∙ ap (λ t. t.cells old.address) step in
      record {
        books = w.books;
        oldest = ap (λ xs. old ∷ xs) (w.oldest ∙ next) ∙ sym start;
        same_capacity = w.same_capacity ∙ ap (λ t. t.capacity) step;
        same_strict = w.same_strict ∙ ap (λ t. t.strict_capacity_limit) step;
        same_ratio = w.same_ratio ∙ ap (λ t. t.high_pri_pool_ratio) step;
        fewer_elems =
            let removed = elems-remove old.key old.hash s.table v.table_IsTable in
            let same = ap (λ t. t.table.elems) step in omega (arith, w.fewer_elems);
        same_freed = w.same_freed ∙ ap (λ t. t.freed) step;
        all_dead = (
          subst Dead (sym same_old)
              (dead-Dead old pooled s.cells (Listed-idle d s pinned v old pooled i)),
          w.all_dead,
        );
        frame = λ a absent.
            let split : count a (old ∷ rest) ≡ 0 = ap (count a) (sym start) ∙ absent in
            let other : (old.address == a) ≡ false = ground (arith, split) in
            w.frame a (rw next (ground (arith, split)))
            ∙ ap (λ t. t.cells a) step
            ∙ dead-Agree old s.cells a other;
      }

  -- The loop over what is left of the list.
  evict_loop-IsEvicted :
      (charge : ℕ) (xs : List Handle) (s : Shard d.Double)
      → Books d s pinned
      → s.low ++ s.high ≡ xs
      → IsEvicted d pinned s (evict_loop charge xs s).0 (evict_loop charge xs s).1
        × ((ltb s.capacity (add64 (evict_loop charge xs s).0.usage charge) ≡ false)
            ⊎ ((evict_loop charge xs s).0.low ++ (evict_loop charge xs s).0.high ≡ []))
  unfolding evict_loop
  evict_loop-IsEvicted charge [] s v start = (stays s v, inr start)
  evict_loop-IsEvicted charge (old ∷ rest) s v start =
      let counts = count-append old.address s.low s.high in
      let first = first_entry old rest s.low s.high (omega (arith, v.apart old.address)) start in
      let (pooled, i) = Listed-of s old first.0 in
      let step = evict_one_lem d s pinned v old pooled i in
      let next : (evict_one old s).low ++ (evict_one old s).high ≡ rest =
        ap (λ t. t.low ++ t.high) step ∙ first.1 in
      let after =
        evict_loop-IsEvicted charge rest (evict_one old s)
          (evict_one-Books d s pinned v old pooled i) next in
      elim (Bool-cases (ltb s.capacity (add64 s.usage charge))) [
        | inl more ↦ rw more (
          one_more old rest s (evict_loop charge rest (evict_one old s)).0
              (evict_loop charge rest (evict_one old s)).1 v start next after.0,
          subst
              (λ n.
                (ltb n (add64 (evict_loop charge rest (evict_one old s)).0.usage charge) ≡ false)
                ⊎ ((evict_loop charge rest (evict_one old s)).0.low
                      ++ (evict_loop charge rest (evict_one old s)).0.high
                    ≡ []))
              (ap (λ t. t.capacity) step) after.1,
        )
        | inr enough ↦ rw enough (stays s v, inl enough)
      ]

  -- `EvictFromLRU` keeps the books in order, takes the oldest entries of the list,
  -- which can then be freed, and ends when the charge fits in the arithmetic of `size_t` or when
  -- the list is empty.
  pub evict_from_lru-IsEvicted :
      (charge : ℕ) (s : Shard d.Double)
      → Books d s pinned
      → IsEvicted d pinned s (evict_from_lru charge s).0 (evict_from_lru charge s).1
        × ((ltb s.capacity (add64 (evict_from_lru charge s).0.usage charge) ≡ false)
            ⊎ ((evict_from_lru charge s).0.low ++ (evict_from_lru charge s).0.high ≡ []))
  unfolding evict_from_lru
  evict_from_lru-IsEvicted charge s v = evict_loop-IsEvicted charge (s.low ++ s.high) s v refl

  -- The loop of `EraseUnRefEntries` removes all entries of the list.
  pub evict_all-IsEvicted :
      (xs : List Handle) (s : Shard d.Double)
      → Books d s pinned
      → s.low ++ s.high ≡ xs
      → IsEvicted d pinned s (evict_all xs s) xs
  unfolding evict_all
  evict_all-IsEvicted [] s v start = stays s v
  evict_all-IsEvicted (old ∷ rest) s v start =
      let counts = count-append old.address s.low s.high in
      let first = first_entry old rest s.low s.high (omega (arith, v.apart old.address)) start in
      let (pooled, i) = Listed-of s old first.0 in
      let next : (evict_one old s).low ++ (evict_one old s).high ≡ rest =
        ap (λ t. t.low ++ t.high) (evict_one_lem d s pinned v old pooled i) ∙ first.1 in
      one_more old rest s (evict_all rest (evict_one old s)) rest v start next (
        evict_all-IsEvicted rest (evict_one old s) (evict_one-Books d s pinned v old pooled i) next)

-- `Free` of handles that are not in the cache and have no reference.
module _ {D : Type 0} where
  abbrev pub log_freed : List Handle → Shard D → Shard D
  log_freed [] s = s
  log_freed (e ∷ es) s = log_freed es (record s { freed = e ∷ s.freed })

  pub free-Dead :
      (e : Handle) (s : Shard D)
      → s.failed ≡ false
      → Dead (cell e s)
      → free e s ≡ record s { freed = e ∷ s.freed }
  unfolding free
  free-Dead e s ok dead = rw (dead.0, dead.1, unfailed s ok true refl) refl

  pub free_all-Dead :
      (es : List Handle) (s : Shard D)
      → s.failed ≡ false
      → All (λ h. Dead (s.cells h.address)) es
      → free_all es s ≡ log_freed es s
  unfolding free_all
  free_all-Dead [] s ok all = refl
  free_all-Dead (e ∷ es) s ok all =
      ap (free_all es) (free-Dead e s ok all.0)
      ∙ free_all-Dead es (record s { freed = e ∷ s.freed }) ok all.1

pub free_all-snoc :
    {D : Type 0} (es : List Handle) (e : Handle) (s : Shard D)
    → free_all (es ++ e ∷ []) s ≡ free e (free_all es s)
unfolding free_all
free_all-snoc [] e s = refl
free_all-snoc (x ∷ xs) e s = free_all-snoc xs e (free x s)

-- `Free` of a handle that only the cache refers to.
pub free_cached :
    {D : Type 0} (e : Handle) (s : Shard D)
    → s.failed ≡ false
    → (cell e s).refs ≡ 1
    → (cell e s).in_cache ≡ true
    → free e s ≡ record s { freed = e ∷ s.freed }
unfolding free
free_cached e s ok one cached = rw (one, cached, unfailed s ok true refl) refl

pub freed-Books :
    (d : Doubles) (pinned es : List Handle) (s : Shard d.Double)
    → Books d s pinned
    → Books d (log_freed es s) pinned
freed-Books d pinned [] s v = v
freed-Books d pinned (e ∷ es) s v =
    freed-Books d pinned es (record s { freed = e ∷ s.freed })
      (configured-Books d s pinned v s.capacity s.strict_capacity_limit s.high_pri_pool_ratio
        s.high_pri_pool_capacity (e ∷ s.freed) v.pool_fits)

-- The fields that freeing leaves alone.
pub record SameBut {D : Type 0} (s r : Shard D) : Type 0 where
  pub same_capacity : r.capacity ≡ s.capacity
  pub same_usage : r.usage ≡ s.usage
  pub same_low : r.low ≡ s.low
  pub same_high : r.high ≡ s.high
  pub same_ratio : r.high_pri_pool_ratio ≡ s.high_pri_pool_ratio
  pub same_cells : r.cells ≡ s.cells

pub log_freed-SameBut : {D : Type 0} (es : List Handle) (s : Shard D) → SameBut s (log_freed es s)
log_freed-SameBut [] s = record {
  same_capacity = refl;
  same_usage = refl;
  same_low = refl;
  same_high = refl;
  same_ratio = refl;
  same_cells = refl;
}
log_freed-SameBut (e ∷ es) s =
    let rest = log_freed-SameBut es (record s { freed = e ∷ s.freed }) in
    record {
      same_capacity = rest.same_capacity;
      same_usage = rest.same_usage;
      same_low = rest.same_low;
      same_high = rest.same_high;
      same_ratio = rest.same_ratio;
      same_cells = rest.same_cells;
    }
