-- ===== src/Cache/Table/Total.antt =====
-- rutil/lru_cache.cc: sums over the chains of `LRUHandleTable`, and where its handles stand.
use rocksutil.Base.{
  ℕ, zero, suc, ◌+◌, ◌-◌, ◌/◌, ◌≤◌, ◌<◌, ◌≡◌, refl, ap, false, ◌==◌, if◌then◌else◌, Bool-cases,
  List, [], ◌∷◌, set, get_or, length, replicate, All, arith, inl, inr, bit_and,
}
use rocksutil.Base.Bits.{bit_and_step, and-zero}
use native.Mathlib.Nat.{add-zero}
use rocksutil.Cache.Handles.{Handle, matches}
use rocksutil.Cache.Table.{index}
use rocksutil.Cache.Table.Bucket.{occurs, matches_eq}

abbrev pub total : (List Handle → ℕ) → List (List Handle) → ℕ
total f [] = 0
total f (c ∷ cs) = f c + total f cs

pub total-set :
    (f : List Handle → ℕ) (lists : List (List Handle)) (i : ℕ) (c : List Handle)
    → i < length lists
    → total f (set lists i c) + f (get_or lists i []) ≡ total f lists + f c
total-set f [] i c h = absurd (omega arith)
total-set f (x ∷ xs) zero c h = omega arith
total-set f (x ∷ xs) (suc i) c h = omega (arith, total-set f xs i c (omega arith))

pub total-get_or :
    (f : List Handle → ℕ) (lists : List (List Handle)) (i : ℕ)
    → i < length lists
    → f (get_or lists i []) ≤ total f lists
total-get_or f [] i h = absurd (omega arith)
total-get_or f (x ∷ xs) zero h = omega arith
total-get_or f (x ∷ xs) (suc i) h = omega (arith, total-get_or f xs i (omega arith))

pub total-replicate : (f : List Handle → ℕ) (n : ℕ) → f [] ≡ 0 → total f (replicate n []) ≡ 0
total-replicate f zero h = refl
total-replicate f (suc n) h = omega (arith, total-replicate f n h)

pub length-set : {A : Type 0} (xs : List A) (i : ℕ) (c : A) → length (set xs i c) ≡ length xs
length-set [] i c = refl
length-set (x ∷ xs) zero c = refl
length-set (x ∷ xs) (suc i) c = ap suc (length-set xs i c)

pub get_or-set :
    {A : Type 0} (xs : List A) (i j : ℕ) (c d : A)
    → i < length xs
    → get_or (set xs i c) j d ≡ (if i == j then c else get_or xs j d)
get_or-set [] i j c d h = absurd (omega arith)
get_or-set (x ∷ xs) zero zero c d h = refl
get_or-set (x ∷ xs) zero (suc j) c d h = ground arith
get_or-set (x ∷ xs) (suc i) zero c d h = ground arith
get_or-set (x ∷ xs) (suc i) (suc j) c d h = ground (arith, get_or-set xs i j c d)

-- The handles of the chains from number `i` on stand where their hash says.
abbrev pub Placed : ℕ → ℕ → List (List Handle) → Type 0
Placed len i [] = Unit {0}
Placed len i (c ∷ cs) = All (λ h. index len h.hash ≡ i) c × Placed len (suc i) cs

pub Placed-set :
    (len i : ℕ) (lists : List (List Handle)) (j : ℕ) (c : List Handle)
    → All (λ h. index len h.hash ≡ i + j) c
    → Placed len i lists
    → Placed len i (set lists j c)
Placed-set len i [] j c a p = tt
Placed-set len i (x ∷ xs) zero c a p = (rw add-zero at a, p.1)
Placed-set len i (x ∷ xs) (suc j) c a p =
    let shift : i + suc j ≡ suc i + j = omega arith in
    (p.0, Placed-set len (suc i) xs j c (rw shift at a) p.1)

pub Placed-get_or :
    (len i : ℕ) (lists : List (List Handle)) (j : ℕ)
    → Placed len i lists
    → All (λ h. index len h.hash ≡ i + j) (get_or lists j [])
Placed-get_or len i [] j p = tt
Placed-get_or len i (x ∷ xs) zero p = rw add-zero p.0
Placed-get_or len i (x ∷ xs) (suc j) p =
    let shift : i + suc j ≡ suc i + j = omega arith in rw shift (Placed-get_or len (suc i) xs j p.1)

pub Placed-replicate : (len i n : ℕ) → Placed len i (replicate n [])
Placed-replicate len i zero = tt
Placed-replicate len i (suc n) = (tt, Placed-replicate len (suc i) n)

-- No search finds a handle with another index.
pub matches_elsewhere :
    (len : ℕ) (k : List ℕ) (q : ℕ) (h : Handle)
    → (index len h.hash == index len q) ≡ false
    → matches k q h ≡ false
matches_elsewhere len k q h apart = elim (Bool-cases (matches k q h)) [
  | inl found ↦
      let same : index len h.hash ≡ index len q = ap (index len) (matches_eq k q h found).0 in
      absurd (ground (arith, same, apart))
  | inr other ↦ other
]

-- A chain of handles with another index has no handle of the key and the hash.
pub occurs_elsewhere :
    (len i : ℕ) (k : List ℕ) (q : ℕ) (c : List Handle)
    → All (λ h. index len h.hash ≡ i) c
    → (index len q == i) ≡ false
    → occurs k q c ≡ 0
occurs_elsewhere len i k q [] a apart = refl
occurs_elsewhere len i k q (x ∷ xs) a apart = elim (Bool-cases (matches k q x)) [
  | inl found ↦
      let same : index len x.hash ≡ index len q = ap (index len) (matches_eq k q x found).0 in
      ground (arith, same, a.0)
  | inr other ↦ rw other (omega (arith, occurs_elsewhere len i k q xs a.1 apart))
]

and_bound : (rounds m n : ℕ) → n < rounds → bit_and m n ≤ n
and_bound zero m n h = absurd (omega arith)
and_bound (suc rounds) m zero h = omega (arith, and-zero m)
and_bound (suc rounds) m (suc n) h =
    omega (arith, bit_and_step m (suc n), and_bound rounds (m / 2) (suc n / 2) (omega arith))

pub index-lt : (len hash : ℕ) → 0 < len → index len hash < len
unfolding index
index-lt len hash h = omega (arith, and_bound len hash (len - 1) (omega arith))
