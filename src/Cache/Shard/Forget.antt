-- ===== src/Cache/Shard/Forget.antt =====
-- rutil/lru_cache.cc: an entry of the LRU list that leaves the shard.
use rocksutil.Base.{
  ℕ, ◌+◌, ◌-◌, ◌^◌, ◌≤◌, ◌<◌, ◌≡◌, refl, ap, Bool, true, false, ◌==◌, leb, if◌then◌else◌, some,
  List, [], ◌∷◌, ◌++◌, All, arith, ◌⊎◌, inl, inr, sub64,
}
use rocksutil.Cache.Handles.{
  Handle, Cell, Memory, count, charges, remove, In, count-append, count-In, charges-remove,
  count-remove, remove_absent, All-In, In-append_left, In-append_right, In-unique,
}
use rocksutil.Cache.Table
use rocksutil.Cache.Shard.{Doubles, Shard, cell, linked, lru_remove}
use rocksutil.Cache.Shard.Invariant.{idle, Books, Listed, linked_of, unlisted, unfailed}

pub sub64_lem : (a b : ℕ) → b ≤ a → a < 2 ^ 64 → sub64 a b ≡ a - b
sub64_lem a b le lt = omega arith

-- Two memories with the same cells, but for one address.
abbrev pub Agree : ℕ → Memory → Memory → Type 0
Agree a m m' = (b : ℕ) → (a == b) ≡ false → m' b ≡ m b

pub All-Agree :
    (P : Cell → Type 0) (a : ℕ) (m m' : Memory) (xs : List Handle)
    → Agree a m m'
    → count a xs ≡ 0
    → All (λ h. P (m h.address)) xs
    → All (λ h. P (m' h.address)) xs
All-Agree P a m m' [] agree absent all = tt
All-Agree P a m m' (x ∷ xs) agree absent all =
    let other : (a == x.address) ≡ false = ground (arith, absent) in
    (rw (agree x.address other) all.0, All-Agree P a m m' xs agree (ground arith) all.1)

pub All-cached :
    (F : Handle → Type 0) (a : ℕ) (m m' : Memory) (xs : List Handle)
    → Agree a m m'
    → count a xs ≡ 0
    → All (λ h. (m h.address).in_cache ≡ true → F h) xs
    → All (λ h. (m' h.address).in_cache ≡ true → F h) xs
All-cached F a m m' [] agree absent all = tt
All-cached F a m m' (x ∷ xs) agree absent all =
    let other : (a == x.address) ≡ false = ground (arith, absent) in
    (
      λ cached. all.0 (rw (agree x.address other) at cached),
      All-cached F a m m' xs agree (ground arith) all.1,
    )

module _ {D : Type 0} (e : Handle) (s : Shard D) (ok : s.failed ≡ false)
    (lru_fits : e.charge ≤ s.lru_usage) (lru_small : s.lru_usage < 2 ^ 64) where
  pub lru_remove_low :
      In e s.low → (cell e s).in_high_pri_pool ≡ false → lru_remove e s ≡ unlisted e false s
  unfolding lru_remove
  lru_remove_low i flag =
      rw
        (
          flag,
          unfailed s ok (linked e s) (linked_of e false s i),
          sub64_lem s.lru_usage e.charge lru_fits lru_small,
        )
        refl

  pub lru_remove_high :
      In e s.high
      → (cell e s).in_high_pri_pool ≡ true
      → e.charge ≤ s.high_pri_pool_usage
      → s.high_pri_pool_usage < 2 ^ 64
      → lru_remove e s ≡ unlisted e true s
  unfolding lru_remove
  lru_remove_high i flag fits small =
      rw
        (
          flag,
          unfailed s ok (linked e s) (linked_of e true s i),
          sub64_lem s.lru_usage e.charge lru_fits lru_small,
          unfailed s ok (leb e.charge s.high_pri_pool_usage) (ground arith),
          sub64_lem s.high_pri_pool_usage e.charge fits small,
        )
        refl

-- An entry of the LRU list, in the books of the shard.
module _ (d : Doubles) (s : Shard d.Double) (pinned : List Handle) (v : Books d s pinned)
    (e : Handle) where
  pub Listed-idle : (pooled : Bool) → Listed e pooled s → cell e s ≡ idle pooled
  Listed-idle false i = All-In (λ h. s.cells h.address ≡ idle false) e s.low v.low_idle i
  Listed-idle true i = All-In (λ h. s.cells h.address ≡ idle true) e s.high v.high_idle i

  pub Listed-found : (pooled : Bool) → Listed e pooled s → Table.find s.table e.key e.hash ≡ some e
  Listed-found false i =
      All-In (λ h. Table.find s.table h.key h.hash ≡ some h) e s.low v.low_found i
  Listed-found true i =
      All-In (λ h. Table.find s.table h.key h.hash ≡ some h) e s.high v.high_found i

  pub unlisted_counts :
      (pooled : Bool)
      → Listed e pooled s
      → (a : ℕ)
      → count a (remove e s.low) + count a (remove e s.high) + (if e.address == a then 1 else 0)
        ≡ count a s.low + count a s.high
  unlisted_counts false i a =
      let here = count-In e s.low i in
      let once = v.apart e.address in
      let absent = remove_absent e s.high (omega arith) in
      rw absent (omega (arith, count-remove a e s.low i))
  unlisted_counts true i a =
      let here = count-In e s.high i in
      let once = v.apart e.address in
      let absent = remove_absent e s.low (omega arith) in
      rw absent (omega (arith, count-remove a e s.high i))

  pub unlisted_sums :
      (pooled : Bool)
      → Listed e pooled s
      → (charges (remove e s.low) + charges (remove e s.high) + e.charge
          ≡ charges s.low + charges s.high)
        × ((if pooled then s.high_pri_pool_usage - e.charge else s.high_pri_pool_usage)
            ≡ charges (remove e s.high))
  unlisted_sums false i =
      let here = count-In e s.low i in
      let once = v.apart e.address in
      let absent = remove_absent e s.high (omega arith) in
      rw absent (omega (arith, charges-remove e s.low i (omega arith)), v.pool_sum)
  unlisted_sums true i =
      let here = count-In e s.high i in
      let once = v.apart e.address in
      let absent = remove_absent e s.low (omega arith) in
      let rest = charges-remove e s.high i (omega arith) in
      let pool = v.pool_sum in rw absent (omega arith, omega arith)

  -- `LRU_Remove` of an entry of the list: its assertions hold.
  pub lru_remove-Listed : (pooled : Bool) → Listed e pooled s → lru_remove e s ≡ unlisted e pooled s
  lru_remove-Listed false i =
      let sums = unlisted_sums false i in
      let lru = v.lru_sum in
      let whole = v.sum in
      let small = v.small in
      lru_remove_low e s v.intact (omega arith) (omega arith) i
        (ap (λ c. c.in_high_pri_pool) (Listed-idle false i))
  lru_remove-Listed true i =
      let sums = unlisted_sums true i in
      let lru = v.lru_sum in
      let whole = v.sum in
      let small = v.small in
      let pool = v.pool_sum in
      let here = charges-remove e s.high i (omega (arith, v.apart e.address)) in
      lru_remove_high e s v.intact (omega arith) (omega arith) i
        (ap (λ c. c.in_high_pri_pool) (Listed-idle true i)) (omega arith) (omega arith)

  everyone : List Handle
  everyone = s.low ++ (s.high ++ pinned)

  somewhere : (h : Handle) → (In h s.low ⊎ In h s.high) ⊎ In h pinned → In h everyone
  unfolding everyone
  somewhere h (inl (inl i)) = In-append_left h s.low (s.high ++ pinned) i
  somewhere h (inl (inr i)) =
      In-append_right h s.low (s.high ++ pinned) (In-append_left h s.high pinned i)
  somewhere h (inr i) =
      In-append_right h s.low (s.high ++ pinned) (In-append_right h s.high pinned i)

  -- Another handle of the shard has another address.
  pub same_handle :
      (h : Handle)
      → (In h s.low ⊎ In h s.high) ⊎ In h pinned
      → (In e s.low ⊎ In e s.high) ⊎ In e pinned
      → h.address ≡ e.address
      → h ≡ e
  same_handle h i j same =
      let once : count e.address everyone ≤ 1 =
        unfold everyone in
        omega (
          arith,
          v.apart e.address,
          count-append e.address s.low (s.high ++ pinned),
          count-append e.address s.high pinned,
        ) in
      In-unique h e everyone (somewhere h i) (somewhere e j) same once
