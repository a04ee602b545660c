-- ===== src/Cache/Shard/Full.antt =====
-- rutil/lru_cache.cc: the test of `Insert` for a full cache.
use rocksutil.Base.{
  ℕ, ◌+◌, ◌^◌, ◌≤◌, ◌<◌, ◌≡◌, refl, Bool, true, false, not, ◌&&◌, ◌||◌, ◌==◌, ==_iff, ltb,
  Bool-cases, List, arith, ◌⊎◌, inl, inr, add64, sub64, codes,
}
use rocksutil.Status.{Status, incomplete_status}
use rocksutil.Cache.Handles.{Handle, count}
use rocksutil.Cache.Shard.{Shard}

-- The error of a full cache.
abbrev pub full_status : Status
full_status = incomplete_status (codes "Insert failed due to LRU cache being full.")

pub not_over :
    (capacity usage lru_usage charge : ℕ) (strict : Bool)
    → lru_usage ≡ 0
    → usage + charge < 2 ^ 64
    → (ltb capacity (add64 (sub64 usage lru_usage) charge) && (strict || not false)) ≡ false
    → usage + charge ≤ capacity
not_over capacity usage lru_usage charge true nothing fits test =
    let whole : add64 (sub64 usage lru_usage) charge ≡ usage + charge = omega arith in
    ground (arith, whole, test)
not_over capacity usage lru_usage charge false nothing fits test =
    let whole : add64 (sub64 usage lru_usage) charge ≡ usage + charge = omega arith in
    ground (arith, whole, test)

-- What the test for a full cache says where the handle is wanted.
pub full_of :
    (capacity usage lru_usage pinned charge : ℕ) (strict : Bool)
    → usage ≡ lru_usage + pinned
    → usage + charge < 2 ^ 64
    → (ltb capacity (add64 (sub64 usage lru_usage) charge) && (strict || not true)) ≡ true
    → (strict ≡ true) × (capacity < pinned + charge)
full_of capacity usage lru_usage pinned charge true parts fits test =
    let whole : add64 (sub64 usage lru_usage) charge ≡ pinned + charge = omega arith in
    (refl, ground (arith, whole, test))
full_of capacity usage lru_usage pinned charge false parts fits test = absurd (ground (arith, test))

pub not_full_of :
    (capacity usage lru_usage pinned charge : ℕ) (strict : Bool)
    → usage ≡ lru_usage + pinned
    → usage + charge < 2 ^ 64
    → (ltb capacity (add64 (sub64 usage lru_usage) charge) && (strict || not true)) ≡ false
    → (strict ≡ false) ⊎ (pinned + charge ≤ capacity)
not_full_of capacity usage lru_usage pinned charge true parts fits test =
    let whole : add64 (sub64 usage lru_usage) charge ≡ pinned + charge = omega arith in
    inr (ground (arith, whole, test))
not_full_of capacity usage lru_usage pinned charge false parts fits test = inl refl

pub apart_address :
    {D : Type 0} (a b : ℕ) (s : Shard D) (pinned : List Handle)
    → count a s.low + count a s.high + count a pinned ≡ 0
    → 1 ≤ count b s.low + count b s.high
    → (a == b) ≡ false
apart_address a b s pinned absent here = elim (Bool-cases (a == b)) [
  | inl same ↦ let moved = rw ((==_iff a b).0 same) at absent in absurd (omega (arith, moved))
  | inr other ↦ other
]
