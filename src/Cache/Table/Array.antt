-- ===== src/Cache/Table/Array.antt =====
-- rutil/lru_cache.cc: the array of `LRUHandleTable`, and the step of `Resize` that moves a handle.
use rocksutil.Base.{
  ℕ, ◌+◌, ◌<◌, ◌≡◌, refl, ◌∙◌, ◌==◌, ==_iff, ==_refl, if◌then◌else◌, Bool-cases, Option, none, some,
  List, [], ◌∷◌, set, get_or, length, All, arith, inl, inr,
}
use native.Mathlib.Nat.{zero-add}
use rocksutil.Cache.Handles.{Handle, matches}
use rocksutil.Cache.Table.{index, move}
use rocksutil.Cache.Table.Bucket.{occurs, first}
use rocksutil.Cache.Table.Total.{
  matches_elsewhere, total, total-set, length-set, get_or-set, Placed, Placed-set, Placed-get_or,
  index-lt,
}

-- A search in an array of chains.
abbrev pub look : ℕ → List (List Handle) → List ℕ → ℕ → Option Handle
look len lists k q = first k q (get_or lists (index len q) [])

abbrev pub or_else : Option Handle → Option Handle → Option Handle
or_else none y = y
or_else (some x) y = some x

pub or_else_none : (x : Option Handle) → or_else x none ≡ x
or_else_none none = refl
or_else_none (some x) = refl

-- An array of chains of its size, with the handles where they belong.
pub record IsArray (len : ℕ) (lists : List (List Handle)) : Type 0 where
  pub sized : 0 < len
  pub shaped : length lists ≡ len
  pub placed : Placed len 0 lists

-- Setting a chain whose handles belong there.
pub set-IsArray :
    (len : ℕ) (lists : List (List Handle)) (q : ℕ) (c : List Handle)
    → IsArray len lists
    → All (λ h. index len h.hash ≡ index len q) c
    → IsArray len (set lists (index len q) c)
set-IsArray len lists q c a here = record {
  sized = a.sized;
  shaped = length-set lists (index len q) c ∙ a.shaped;
  placed = Placed-set len 0 lists (index len q) c (rw (zero-add (index len q)) here) a.placed;
}

pub here_of :
    (len : ℕ) (lists : List (List Handle)) (q : ℕ)
    → IsArray len lists
    → All (λ h. index len h.hash ≡ index len q) (get_or lists (index len q) [])
here_of len lists q a =
    rw (zero-add (index len q)) at (Placed-get_or len 0 lists (index len q) a.placed)

pub inside :
    (len : ℕ) (lists : List (List Handle)) (q : ℕ) → IsArray len lists → index len q < length lists
inside len lists q a = omega (arith, index-lt len q a.sized, a.shaped)

-- A search after a chain was set.
pub look-set :
    (len : ℕ) (lists : List (List Handle)) (q : ℕ) (c : List Handle) (k' : List ℕ) (q' : ℕ)
    → IsArray len lists
    → look len (set lists (index len q) c) k' q'
      ≡ (if index len q == index len q' then first k' q' c else look len lists k' q')
look-set len lists q c k' q' a =
    rw (get_or-set lists (index len q) (index len q') c [] (inside len lists q a)) (ground arith)

module _ (len : ℕ) (h : Handle) (lists : List (List Handle)) (a : IsArray len lists) where
  pub move-IsArray : IsArray len (move len h lists)
  unfolding move
  move-IsArray =
      set-IsArray len lists h.hash (h ∷ get_or lists (index len h.hash) []) a
        (refl, here_of len lists h.hash a)

  pub length-move : total length (move len h lists) ≡ total length lists + 1
  unfolding move
  length-move = omega (
    arith,
    total-set length lists (index len h.hash) (h ∷ get_or lists (index len h.hash) [])
        (inside len lists h.hash a),
  )

  pub occurs-move :
      (k : List ℕ) (q : ℕ)
      → total (occurs k q) (move len h lists)
        ≡ total (occurs k q) lists + (if matches k q h then 1 else 0)
  unfolding move
  occurs-move k q = omega (
    arith,
    total-set (occurs k q) lists (index len h.hash) (h ∷ get_or lists (index len h.hash) [])
        (inside len lists h.hash a),
  )

  pub look-move :
      (k : List ℕ) (q : ℕ)
      → look len (move len h lists) k q ≡ (if matches k q h then some h else look len lists k q)
  unfolding move
  look-move k q =
      rw (look-set len lists h.hash (h ∷ get_or lists (index len h.hash) []) k q a)
        (elim (Bool-cases (index len h.hash == index len q)) [
          | inl same ↦
              rw ((==_iff (index len h.hash) (index len q)).0 same, ==_refl (index len q))
                (ground arith)
          | inr apart ↦ rw (apart, matches_elsewhere len k q h apart) refl
        ])
