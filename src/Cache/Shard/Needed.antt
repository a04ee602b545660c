-- ===== src/Cache/Shard/Needed.antt =====
-- rutil/lru_cache.cc: which entries `EvictFromLRU` takes.
use rocksutil.Base.{
  ℕ, ◌+◌, ◌-◌, ◌≤◌, ◌<◌, ◌≡◌, refl, ap, subst, ◌∙◌, false, ltb, Bool-cases, List, [], ◌∷◌, ◌++◌,
  arith, ◌⊎◌, inl, inr, add64,
}
use rocksutil.Cache.Handles.{Handle, charges, charges-append, count-append}
use rocksutil.Cache.Shard.{Doubles, Shard, evict_one, evict_loop, evict_from_lru}
use rocksutil.Cache.Shard.Invariant.{Books}
use rocksutil.Cache.Shard.Evict.{evict_one_lem, evict_one-Books}
use rocksutil.Cache.Shard.Eviction.{IsEvicted, first_entry, Listed-of, evict_from_lru-IsEvicted}

-- Each of the entries was evicted while the charge did not fit, without those before it.
abbrev pub Needed : ℕ → ℕ → ℕ → List Handle → Type 0
Needed capacity charge usage [] = Unit {0}
Needed capacity charge usage (old ∷ rest) =
    (capacity < add64 usage charge) × Needed capacity charge (usage - old.charge) rest

module _ (d : Doubles) (pinned : List Handle) (charge : ℕ) where
  evict_loop-Needed :
      (xs : List Handle) (s : Shard d.Double)
      → Books d s pinned
      → s.low ++ s.high ≡ xs
      → Needed s.capacity charge s.usage (evict_loop charge xs s).1
  unfolding evict_loop
  evict_loop-Needed [] s v start = tt
  evict_loop-Needed (old ∷ rest) s v start =
      let counts = count-append old.address s.low s.high in
      let first = first_entry old rest s.low s.high (omega (arith, v.apart old.address)) start in
      let (pooled, i) = Listed-of s old first.0 in
      let step = evict_one_lem d s pinned v old pooled i in
      let next : (evict_one old s).low ++ (evict_one old s).high ≡ rest =
        ap (λ t. t.low ++ t.high) step ∙ first.1 in
      let later =
        evict_loop-Needed rest (evict_one old s) (evict_one-Books d s pinned v old pooled i) next in
      let gone = (evict_loop charge rest (evict_one old s)).1 in
      elim (Bool-cases (ltb s.capacity (add64 s.usage charge))) [
        | inl more ↦ rw more (
          ground (arith, more),
          subst (λ n. Needed s.capacity charge n gone) (ap (λ t. t.usage) step)
              (subst (λ c. Needed c charge (evict_one old s).usage gone) (ap (λ t. t.capacity) step)
                later),
        )
        | inr enough ↦ rw enough tt
      ]

  -- What the charges of the evicted entries are to the usage.
  paid_by :
      (s r : Shard d.Double) (deleted : List Handle)
      → Books d s pinned
      → IsEvicted d pinned s r deleted
      → r.usage + charges deleted ≡ s.usage
  paid_by s r deleted v w =
      let books = w.books in
      let before = v.sum in
      let after = books.sum in
      let order = ap charges w.oldest in
      omega (
        arith,
        order,
        charges-append deleted (r.low ++ r.high),
        charges-append r.low r.high,
        charges-append s.low s.high,
      )

  ended : (c u : ℕ) (xs : List Handle) → (ltb c u ≡ false) ⊎ (xs ≡ []) → (u ≤ c) ⊎ (xs ≡ [])
  ended c u xs (inl fits) = inl (ground (arith, fits))
  ended c u xs (inr e) = inr e

  -- `EvictFromLRU` keeps the books in order, and takes the oldest entries of the list, which can then
  -- be freed. It takes an entry only while the usage without the entries before it does not leave
  -- room for the charge, and the usage loses the charges of those that it takes. It ends when the
  -- charge fits, in the arithmetic of `size_t`, or when the list is empty.
  pub evict_from_lru-Needed :
      (s : Shard d.Double)
      → Books d s pinned
      → IsEvicted d pinned s (evict_from_lru charge s).0 (evict_from_lru charge s).1
        × Needed s.capacity charge s.usage (evict_from_lru charge s).1
        × ((evict_from_lru charge s).0.usage + charges (evict_from_lru charge s).1 ≡ s.usage)
        × ((add64 (evict_from_lru charge s).0.usage charge ≤ s.capacity)
            ⊎ ((evict_from_lru charge s).0.low ++ (evict_from_lru charge s).0.high ≡ []))
  evict_from_lru-Needed s v =
      let r = evict_from_lru charge s in
      let (w, ends) = evict_from_lru-IsEvicted d pinned charge s v in
      (
        w,
        unfold evict_from_lru in evict_loop-Needed (s.low ++ s.high) s v refl,
        paid_by s r.0 r.1 v w,
        ended s.capacity (add64 r.0.usage charge) (r.0.low ++ r.0.high) ends,
      )
