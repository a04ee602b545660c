-- ===== src/Cache/Table/Resize.antt =====
-- rutil/lru_cache.cc: `LRUHandleTable::Resize` as a whole.
use rocksutil.Base.{
  ℕ, zero, suc, ◌*◌, ◌^◌, ◌%◌, ◌≤◌, ◌<◌, ◌≡◌, refl, sym, ap, ◌∙◌, false, not, ◌||◌, ◌==◌, ==_refl,
  ltb, Bool-cases, none, some, List, [], get_or, length, replicate, length-replicate, arith, inl,
  inr, u32_mod,
}
use native.Mathlib.Nat.{zero-mul, mul_assoc, pow-succ', one-le-pow, le-mul_of_pos_right}
use rocksutil.Cache.Handles.{Handle}
use rocksutil.Cache.Table.{
  Table, index, find, bucket, move_all, grow, resize, resize_to, resize_rounds, empty_table,
}
use rocksutil.Cache.Table.Bucket.{occurs, first}
use rocksutil.Cache.Table.Total.{total, total-replicate, Placed, Placed-replicate}
use rocksutil.Cache.Table.Array.{or_else, or_else_none, IsArray}
use rocksutil.Cache.Table.Rehash.{
  all-IsArray, all-length, all-occurs, all-look, gather, gather-Placed, occurs-Placed,
}

-- A table in order: every handle stands in the chain of its hash, no two have the same key and
-- hash, the count is right and not above the number of chains, and no assertion failed.
pub record IsTable (t : Table) : Type 0 where
  pub array : IsArray t.length t.list
  pub once : (k : List ℕ) (q : ℕ) → total (occurs k q) t.list ≤ 1
  pub counted : total length t.list ≡ t.elems
  pub light : t.elems ≤ t.length
  pub small : 3 * t.elems ≤ 2 ^ 32
  pub intact : t.failed ≡ false

doubled : (n rounds : ℕ) → n * 2 ^ suc rounds ≡ 2 ^ 31 → n * 2 * 2 ^ rounds ≡ 2 ^ 31
doubled n rounds power =
    mul_assoc n 2 (2 ^ rounds) ∙ ap (λ t. n * t) (sym (pow-succ' 2 rounds)) ∙ power

positive : (n rounds : ℕ) → n * 2 ^ rounds ≡ 2 ^ 31 → 0 < n
positive zero rounds power = absurd (omega (arith, zero-mul (2 ^ rounds)))
positive (suc n) rounds power = omega arith

-- `Resize` doubles until three halves of the entries fit.
pub grow_ends :
    (rounds new_length elems : ℕ)
    → new_length * 2 ^ rounds ≡ 2 ^ 31
    → 3 * elems ≤ 2 ^ 32
    → (m : ℕ) × (grow (suc rounds) new_length elems ≡ some m) × (0 < m) × (3 * elems ≤ 2 * m)
unfolding grow
grow_ends zero n elems power small =
    let same : n ≡ 2 ^ 31 = omega (arith, power) in (n, ground arith, omega arith, omega arith)
grow_ends (suc rounds) n elems power small = elim (Bool-cases (ltb (2 * n) (3 * elems))) [
  | inl more ↦
      let next : n * 2 * 2 ^ rounds ≡ 2 ^ 31 = doubled n rounds power in
      let bound : n * 2 ≤ n * 2 * 2 ^ rounds =
        le-mul_of_pos_right (n * 2) (one-le-pow rounds 2 (omega arith)) in
      let fits : n * 2 % u32_mod ≡ n * 2 = omega arith in
      rw (more, fits) (grow_ends rounds (n * 2) elems next small)
  | inr done ↦ (n, rw done refl, positive n (suc rounds) power, ground arith)
]

get_or-replicate : (n i : ℕ) → get_or (replicate {A = List Handle} n []) i [] ≡ []
get_or-replicate zero i = refl
get_or-replicate (suc n) zero = refl
get_or-replicate (suc n) (suc i) = get_or-replicate n i

-- What `Resize` relies on: the constructor calls it for a table without chains.
module _ (t : Table) (placed : Placed t.length 0 t.list) (shaped : length t.list ≡ t.length)
    (once : (k : List ℕ) (q : ℕ) → total (occurs k q) t.list ≤ 1)
    (counted : total length t.list ≡ t.elems) (small : 3 * t.elems ≤ 2 ^ 32)
    (intact : t.failed ≡ false) where
  same_count : (n : ℕ) → n ≡ t.elems → (t.failed || not (t.elems == n)) ≡ false
  same_count n e = rw (intact, e, ==_refl t.elems) refl

  resize_to-IsTable : (m : ℕ) → 0 < m → 3 * t.elems ≤ 2 * m → IsTable (resize_to (some m) t)
  unfolding resize_to
  resize_to-IsTable m pos enough =
      let fresh : IsArray m (replicate m []) = record {
        sized = pos;
        shaped = length-replicate m [];
        placed = Placed-replicate m 0 m;
      } in
      let moved = all-length m t.list (replicate m []) 0 fresh (omega arith) in
      let nothing : total length (replicate m []) ≡ 0 = total-replicate length m refl in
      record {
        array = all-IsArray m t.list (replicate m []) 0 fresh;
        once = λ k q. omega (
          arith,
          all-occurs m k q t.list (replicate m []) 0 fresh,
          total-replicate (occurs k q) m refl,
          once k q,
        );
        counted = omega (arith, moved.0, nothing, counted);
        light = omega arith;
        small = small;
        intact = same_count (move_all m t.list (replicate m [], 0)).1 (omega arith);
      }

  find-resize_to :
      (m : ℕ) → 0 < m → (k : List ℕ) (q : ℕ) → find (resize_to (some m) t) k q ≡ find t k q
  unfolding find resize_to
  find-resize_to m pos k q =
      let fresh : IsArray m (replicate m []) = record {
        sized = pos;
        shaped = length-replicate m [];
        placed = Placed-replicate m 0 m;
      } in
      all-look m k q t.list (replicate m []) 0 fresh (once k q)
      ∙ ap (or_else (gather k q t.list)) (ap (first k q) (get_or-replicate m (index m q)))
      ∙ or_else_none (gather k q t.list)
      ∙ gather-Placed t.length k q 0 (index t.length q) t.list placed (omega arith)

  resized : (m : ℕ) × (grow resize_rounds 16 t.elems ≡ some m) × (0 < m) × (3 * t.elems ≤ 2 * m)
  resized = grow_ends 27 16 t.elems (omega arith) small

  -- `Resize` ends, its assertion holds, and the table is in order.
  pub resize-IsTable : IsTable (resize t)
  unfolding resize
  resize-IsTable = let (m, same, pos, enough) = resized in rw same (resize_to-IsTable m pos enough)

  pub find-resize : (k : List ℕ) (q : ℕ) → find (resize t) k q ≡ find t k q
  unfolding resize
  find-resize k q = let (m, same, pos, enough) = resized in rw same (find-resize_to m pos k q)

pub empty-IsTable : IsTable empty_table
unfolding empty_table
empty-IsTable =
    resize-IsTable (record { length = 0; elems = 0; list = []; failed = false }) tt refl
      (λ k q. omega arith) refl (omega arith) refl

-- The matches of the whole table stand in the chain of the hash.
pub all_here :
    (t : Table)
    → IsTable t
    → (k : List ℕ) (q : ℕ) → total (occurs k q) t.list ≡ occurs k q (bucket t q)
all_here t v k q =
    occurs-Placed t.length k q 0 (index t.length q) t.list v.array.placed (omega arith)

pub find-empty : (k : List ℕ) (q : ℕ) → find empty_table k q ≡ none
unfolding empty_table
find-empty k q =
    let start : Table = record { length = 0; elems = 0; list = []; failed = false } in
    find-resize start tt refl (λ k' q'. omega arith) refl (omega arith) refl k q
    ∙ unfold find in refl
