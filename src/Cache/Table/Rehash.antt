-- ===== src/Cache/Table/Rehash.antt =====
-- rutil/lru_cache.cc: `LRUHandleTable::Resize`.
use rocksutil.Base.{
  ◌%◌, u32_mod, ℕ, zero, suc, ◌+◌, ◌≤◌, ◌<◌, ◌≡◌, refl, ap, ◌∙◌, if◌then◌else◌, Bool-cases,
  Option-cases, Option, none, some, List, [], ◌∷◌, get_or, length, arith, inl, inr,
}
use rocksutil.Cache.Handles.{Handle, matches}
use rocksutil.Cache.Table.{index, move, move_chain, move_all}
use rocksutil.Cache.Table.Bucket.{occurs, first, first-some, occurs-first}
use rocksutil.Cache.Table.Total.{total, Placed, occurs_elsewhere}
use rocksutil.Cache.Table.Array.{
  look, or_else, or_else_none, IsArray, move-IsArray, length-move, occurs-move, look-move,
}

-- The first match in any chain.
abbrev pub gather : List ℕ → ℕ → List (List Handle) → Option Handle
gather k q [] = none
gather k q (c ∷ cs) = or_else (first k q c) (gather k q cs)

chain_step :
    (k : List ℕ) (q : ℕ) (h : Handle) (hs : List Handle) (y : Option Handle)
    → occurs k q (h ∷ hs) ≤ 1
    → or_else (first k q hs) (if matches k q h then some h else y) ≡ or_else (first k q (h ∷ hs)) y
chain_step k q h hs y once = elim (Bool-cases (matches k q h)) [
  | inl found ↦
      let alone : occurs k q hs ≡ 0 = ground arith in rw (found, occurs-first k q hs alone) refl
  | inr other ↦ rw other refl
]

module _ (len : ℕ) where
  chain-IsArray :
      (c : List Handle) (lists : List (List Handle)) (n : ℕ)
      → IsArray len lists
      → IsArray len (move_chain len c (lists, n)).0
  unfolding move_chain
  chain-IsArray [] lists n a = a
  chain-IsArray (h ∷ hs) lists n a =
      chain-IsArray hs (move len h lists) ((n + 1) % u32_mod) (move-IsArray len h lists a)

  chain-length :
      (c : List Handle) (lists : List (List Handle)) (n : ℕ)
      → IsArray len lists
      → n < u32_mod
      → (total length (move_chain len c (lists, n)).0 ≡ total length lists + length c)
        × ((move_chain len c (lists, n)).1 ≡ (n + length c) % u32_mod)
  unfolding move_chain
  chain-length [] lists n a small = (omega arith, omega arith)
  chain-length (h ∷ hs) lists n a small =
      let rest =
        chain-length hs (move len h lists) ((n + 1) % u32_mod) (move-IsArray len h lists a)
          (omega arith) in
      (omega (arith, rest.0, length-move len h lists a), omega (arith, rest.1))

  chain-occurs :
      (k : List ℕ) (q : ℕ) (c : List Handle) (lists : List (List Handle)) (n : ℕ)
      → IsArray len lists
      → total (occurs k q) (move_chain len c (lists, n)).0 ≡ total (occurs k q) lists + occurs k q c
  unfolding move_chain
  chain-occurs k q [] lists n a = omega arith
  chain-occurs k q (h ∷ hs) lists n a = omega (
    arith,
    chain-occurs k q hs (move len h lists) ((n + 1) % u32_mod) (move-IsArray len h lists a),
    occurs-move len h lists a k q,
  )

  chain-look :
      (k : List ℕ) (q : ℕ) (c : List Handle) (lists : List (List Handle)) (n : ℕ)
      → IsArray len lists
      → occurs k q c ≤ 1
      → look len (move_chain len c (lists, n)).0 k q ≡ or_else (first k q c) (look len lists k q)
  unfolding move_chain
  chain-look k q [] lists n a once = refl
  chain-look k q (h ∷ hs) lists n a once =
      chain-look k q hs (move len h lists) ((n + 1) % u32_mod) (move-IsArray len h lists a)
        (ground arith)
      ∙ ap (or_else (first k q hs)) (look-move len h lists a k q)
      ∙ chain_step k q h hs (look len lists k q) once

gather_none :
    (k : List ℕ) (q : ℕ) (cs : List (List Handle))
    → total (occurs k q) cs ≡ 0
    → gather k q cs ≡ none
gather_none k q [] h = refl
gather_none k q (c ∷ cs) h =
    rw (occurs-first k q c (omega arith), gather_none k q cs (omega arith)) refl

all_step :
    (k : List ℕ) (q : ℕ) (c : List Handle) (cs : List (List Handle)) (y : Option Handle)
    → occurs k q c + total (occurs k q) cs ≤ 1
    → or_else (gather k q cs) (or_else (first k q c) y) ≡ or_else (gather k q (c ∷ cs)) y
all_step k q c cs y once = elim (Option-cases (first k q c)) [
  | inl missing ↦ rw missing refl
  | inr (h, found) ↦
      let here : 1 ≤ occurs k q c = first-some k q c h found in
      rw (gather_none k q cs (omega arith), found) refl
]

-- The state of the loops of `Resize`: the new array and `count`.
module _ (len : ℕ) where
  pub all-IsArray :
      (cs : List (List Handle)) (lists : List (List Handle)) (n : ℕ)
      → IsArray len lists
      → IsArray len (move_all len cs (lists, n)).0
  unfolding move_all
  all-IsArray [] lists n a = a
  all-IsArray (c ∷ cs) lists n a =
      let s = move_chain len c (lists, n) in all-IsArray cs s.0 s.1 (chain-IsArray len c lists n a)

  pub all-length :
      (cs : List (List Handle)) (lists : List (List Handle)) (n : ℕ)
      → IsArray len lists
      → n < u32_mod
      → (total length (move_all len cs (lists, n)).0 ≡ total length lists + total length cs)
        × ((move_all len cs (lists, n)).1 ≡ (n + total length cs) % u32_mod)
  unfolding move_all
  all-length [] lists n a small = (omega arith, omega arith)
  all-length (c ∷ cs) lists n a small =
      let s = move_chain len c (lists, n) in
      let one = chain-length len c lists n a small in
      let rest = all-length cs s.0 s.1 (chain-IsArray len c lists n a) (omega (arith, one.1)) in
      (omega (arith, rest.0, one.0), omega (arith, rest.1, one.1))

  pub all-occurs :
      (k : List ℕ) (q : ℕ) (cs : List (List Handle)) (lists : List (List Handle)) (n : ℕ)
      → IsArray len lists
      → total (occurs k q) (move_all len cs (lists, n)).0
        ≡ total (occurs k q) lists + total (occurs k q) cs
  unfolding move_all
  all-occurs k q [] lists n a = omega arith
  all-occurs k q (c ∷ cs) lists n a =
      let s = move_chain len c (lists, n) in
      omega (
        arith,
        chain-occurs len k q c lists n a,
        all-occurs k q cs s.0 s.1 (chain-IsArray len c lists n a),
      )

  pub all-look :
      (k : List ℕ) (q : ℕ) (cs : List (List Handle)) (lists : List (List Handle)) (n : ℕ)
      → IsArray len lists
      → total (occurs k q) cs ≤ 1
      → look len (move_all len cs (lists, n)).0 k q ≡ or_else (gather k q cs) (look len lists k q)
  unfolding move_all
  all-look k q [] lists n a once = refl
  all-look k q (c ∷ cs) lists n a once =
      let s = move_chain len c (lists, n) in
      all-look k q cs s.0 s.1 (chain-IsArray len c lists n a) (omega arith)
      ∙ ap (or_else (gather k q cs)) (chain-look len k q c lists n a (omega arith))
      ∙ all_step k q c cs (look len lists k q) once

-- No handle of the key in chains with other indices.
Placed-above :
    (len : ℕ) (k : List ℕ) (q i : ℕ) (cs : List (List Handle))
    → Placed len i cs
    → index len q < i
    → total (occurs k q) cs ≡ 0
Placed-above len k q i [] p lt = refl
Placed-above len k q i (c ∷ cs) p lt = omega (
  arith,
  occurs_elsewhere len i k q c p.0 (ground arith),
  Placed-above len k q (suc i) cs p.1 (omega arith),
)

-- The first match stands in the chain of the index.
pub gather-Placed :
    (len : ℕ) (k : List ℕ) (q i j : ℕ) (cs : List (List Handle))
    → Placed len i cs
    → index len q ≡ i + j
    → gather k q cs ≡ first k q (get_or cs j [])
gather-Placed len k q i j [] p e = refl
gather-Placed len k q i zero (c ∷ cs) p e =
    rw (gather_none k q cs (Placed-above len k q (suc i) cs p.1 (omega arith)))
      (or_else_none (first k q c))
gather-Placed len k q i (suc j) (c ∷ cs) p e =
    rw (occurs-first k q c (occurs_elsewhere len i k q c p.0 (ground arith)))
      (gather-Placed len k q (suc i) j cs p.1 (omega arith))

-- And so do all matches.
pub occurs-Placed :
    (len : ℕ) (k : List ℕ) (q i j : ℕ) (cs : List (List Handle))
    → Placed len i cs
    → index len q ≡ i + j
    → total (occurs k q) cs ≡ occurs k q (get_or cs j [])
occurs-Placed len k q i j [] p e = refl
occurs-Placed len k q i zero (c ∷ cs) p e =
    omega (arith, Placed-above len k q (suc i) cs p.1 (omega arith))
occurs-Placed len k q i (suc j) (c ∷ cs) p e = omega (
  arith,
  occurs_elsewhere len i k q c p.0 (ground arith),
  occurs-Placed len k q (suc i) j cs p.1 (omega arith),
)
