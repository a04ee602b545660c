-- ===== src/Cache/Shard/Capacity.antt =====
-- rutil/lru_cache.cc: `SetCapacity` and `EraseUnRefEntries`.
use rocksutil.Base.{
  ℕ, ◌^◌, ◌≤◌, ◌<◌, ◌≡◌, refl, ap, ◌∙◌, false, ltb, List, [], ◌∷◌, ◌++◌, arith, ◌⊎◌, inl, inr,
  add64,
}
use rocksutil.Cache.Handles.{Handle, charges}
use rocksutil.Cache.Shard.{Doubles, Shard, evict_from_lru, free_all}
use rocksutil.Cache.Shard.Operations.{set_capacity, evict_all, erase_unref_entries}
use rocksutil.Cache.Shard.Invariant.{Books, IsValid, configured-Books}
use rocksutil.Cache.Shard.Eviction.{
  IsEvicted, evict_from_lru-IsEvicted, evict_all-IsEvicted, log_freed, free_all-Dead, freed-Books,
  SameBut, log_freed-SameBut,
}

pub both_empty : (xs ys : List Handle) → xs ++ ys ≡ [] → (xs ≡ []) × (ys ≡ [])
both_empty [] ys e = (refl, e)
both_empty (x ∷ xs) ys e = absurd (cc)

append_cancel : (xs ys : List Handle) → xs ++ ys ≡ xs → ys ≡ []
append_cancel [] ys e = e
append_cancel (x ∷ xs) ys e = append_cancel xs ys (cc)

module _ (d : Doubles) (pinned : List Handle) where
  -- Freeing what was evicted keeps the books, the usage and the list.
  pub freed_evicted :
      (s r : Shard d.Double) (deleted : List Handle)
      → IsEvicted d pinned s r deleted
      → (free_all deleted r ≡ log_freed deleted r)
  freed_evicted s r deleted w = free_all-Dead deleted r w.books.intact w.all_dead

  -- What the test of the loop says about the shard after the freeing.
  limit :
      (r t : Shard d.Double)
      → SameBut r t
      → (c : ℕ) → r.usage < 2 ^ 64
      → (ltb c (add64 r.usage 0) ≡ false) ⊎ (r.low ++ r.high ≡ [])
      → (t.usage ≤ c) ⊎ ((t.low ≡ []) × (t.high ≡ []))
  limit r t same c small (inl enough) =
      let whole : add64 r.usage 0 ≡ r.usage = omega arith in
      let usage = same.same_usage in inl (ground (arith, enough, whole))
  limit r t same c small (inr none_left) =
      let both = both_empty r.low r.high none_left in
      inr (same.same_low ∙ both.0, same.same_high ∙ both.1)

  settled :
      (t : Shard d.Double) (c : ℕ)
      → t.capacity ≡ c
      → (t.usage ≤ c) ⊎ ((t.low ≡ []) × (t.high ≡ []))
      → t.capacity < t.usage
      → (t.low ≡ []) × (t.high ≡ [])
  settled t c same (inl fits) over = absurd (omega arith)
  settled t c same (inr e) over = e

  pinned_only :
      (t : Shard d.Double)
      → Books d t pinned
      → (c : ℕ) → (t.usage ≤ c) ⊎ ((t.low ≡ []) × (t.high ≡ []))
      → (t.usage ≤ c) ⊎ (t.usage ≡ charges pinned)
  pinned_only t v c (inl fits) = inl fits
  pinned_only t v c (inr e) =
      let low : charges t.low ≡ 0 = ap charges e.0 in
      let high : charges t.high ≡ 0 = ap charges e.1 in let whole = v.sum in inr (omega arith)

  -- `SetCapacity` keeps the shard in order, and its assertions hold. Then the usage is not above
  -- the new capacity, or it is the charge of what clients hold.
  pub set_capacity-IsValid :
      (c : ℕ) (s : Shard d.Double)
      → IsValid d s pinned
      → IsValid d (set_capacity d c s) pinned
        × ((set_capacity d c s).capacity ≡ c)
        × (((set_capacity d c s).usage ≤ c) ⊎ ((set_capacity d c s).usage ≡ charges pinned))
  unfolding set_capacity
  set_capacity-IsValid c s v =
      let start : Shard d.Double = record s {
        capacity = c;
        high_pri_pool_capacity = d.scale c s.high_pri_pool_ratio;
      } in
      let books =
        configured-Books d s pinned v.books c s.strict_capacity_limit s.high_pri_pool_ratio
          (d.scale c s.high_pri_pool_ratio) s.freed
          (d.zero_fits c s.high_pri_pool_ratio v.ratio_accepted) in
      let (w, ends) = evict_from_lru-IsEvicted d pinned 0 start books in
      let r = (evict_from_lru 0 start).0 in
      let deleted = (evict_from_lru 0 start).1 in
      let same = log_freed-SameBut deleted r in
      let after = freed-Books d pinned deleted r w.books in
      rw (freed_evicted start r deleted w) (
        record {
          books = after;
          ratio_accepted = rw (same.same_ratio ∙ w.same_ratio) v.ratio_accepted;
          full =
              settled (log_freed deleted r) c (same.same_capacity ∙ w.same_capacity)
                (limit r (log_freed deleted r) same c w.books.small ends);
        },
        same.same_capacity ∙ w.same_capacity,
        pinned_only (log_freed deleted r) after c
            (limit r (log_freed deleted r) same c w.books.small ends),
      )

  -- `EraseUnRefEntries` keeps the shard in order, and its assertions hold. Then the usage is the
  -- charge of what clients hold.
  pub erase_unref_entries-IsValid :
      (s : Shard d.Double)
      → IsValid d s pinned
      → IsValid d (erase_unref_entries s) pinned × ((erase_unref_entries s).usage ≡ charges pinned)
  unfolding erase_unref_entries
  erase_unref_entries-IsValid s v =
      let xs = s.low ++ s.high in
      let r = evict_all xs s in
      let w = evict_all-IsEvicted d pinned xs s v.books refl in
      let same = log_freed-SameBut xs r in
      let books = freed-Books d pinned xs r w.books in
      let lists = both_empty r.low r.high (append_cancel xs (r.low ++ r.high) w.oldest) in
      let empty : ((log_freed xs r).low ≡ []) × ((log_freed xs r).high ≡ []) =
        (same.same_low ∙ lists.0, same.same_high ∙ lists.1) in
      let low : charges (log_freed xs r).low ≡ 0 = ap charges empty.0 in
      let high : charges (log_freed xs r).high ≡ 0 = ap charges empty.1 in
      let whole = books.sum in
      rw (free_all-Dead xs r w.books.intact w.all_dead) (
        record {
          books = books;
          ratio_accepted = rw (same.same_ratio ∙ w.same_ratio) v.ratio_accepted;
          full = λ over. empty;
        },
        omega arith,
      )
