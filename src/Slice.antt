-- ===== src/Slice.antt =====
-- include/rocksutil/slice.h: comparisons of slices. A slice is the list of its bytes, and the sign
-- of what `memcmp` and `compare` return is an `Order`.
mod Tests
use rocksutil.Base.{
  ℕ, zero, suc, ◌+◌, ◌-◌, ◌≤◌, ◌<◌, ◌≡◌, ◌≢◌, ◌↔◌, ltb, ltb→lt, lt→ltb, leb, ◌==◌, ==_iff, ==_refl,
  Bool, Bool-cases, true, false, not, ◌&&◌, if◌then◌else◌, ap, ◌∙◌, refl, sym, subst, List, [], ◌∷◌,
  ◌++◌, length, take, drop, get_or, arith, length-append, drop_all, append-nil, inl, inr, ◌⊎◌,
}

pub data Order : Type 0 where
  below same above : Order

unfoldable pub is_same : Order → Bool
is_same below = false
is_same same = true
is_same above = false

compare_bytes : ℕ → ℕ → Order
compare_bytes a b = if ltb a b then below else if ltb b a then above else same

-- `memcmp` of the first `n` bytes, which both have.
pub memcmp : List ℕ → List ℕ → ℕ → Order
memcmp xs ys zero = same
memcmp [] ys (suc n) = same
memcmp (x ∷ xs) [] (suc n) = same
memcmp (x ∷ xs) (y ∷ ys) (suc n) =
    let rest = memcmp xs ys n in
    let first = compare_bytes x y in if is_same first then rest else first

-- `compare`
pub compare : List ℕ → List ℕ → Order
compare a b =
    let min_len = if ltb (length a) (length b) then length a else length b in
    let r = memcmp a b min_len in
    if is_same r
    then (if ltb (length a) (length b)
        then below
        else if ltb (length b) (length a)
        then above
        else r)
    else r

-- `starts_with`
pub starts_with : List ℕ → List ℕ → Bool
starts_with a x = leb (length x) (length a) && is_same (memcmp a x (length x))

-- `ends_with`
pub ends_with : List ℕ → List ℕ → Bool
ends_with a x =
    leb (length x) (length a) && is_same (memcmp (drop (length a - length x) a) x (length x))

-- `operator==`
pub equals : List ℕ → List ℕ → Bool
equals x y = (length x == length y) && is_same (memcmp x y (length x))

-- The loop of `difference_offset`, with the rounds that `off < len` leaves.
pub difference_loop : List ℕ → List ℕ → ℕ → ℕ → ℕ
difference_loop a b zero off = off
difference_loop a b (suc rounds) off =
    let rest = difference_loop a b rounds (suc off) in
    if not (get_or a off 0 == get_or b off 0) then off else rest

-- `difference_offset`
pub difference_offset : List ℕ → List ℕ → ℕ
difference_offset a b =
    let len = if ltb (length a) (length b) then length a else length b in difference_loop a b len 0

-- The order of byte strings, as a dictionary has it.
pub lexical : List ℕ → List ℕ → Order
lexical [] [] = same
lexical [] (y ∷ ys) = below
lexical (x ∷ xs) [] = above
lexical (x ∷ xs) (y ∷ ys) = if ltb x y then below else if ltb y x then above else lexical xs ys

compare_bytes_same : (x y : ℕ) → is_same (compare_bytes x y) ≡ true → x ≡ y
unfolding compare_bytes is_same
compare_bytes_same x y h = ground arith

compare_bytes_refl : (x : ℕ) → compare_bytes x x ≡ same
unfolding compare_bytes
compare_bytes_refl x = ground arith

compare-cons :
    (x y : ℕ) (xs ys : List ℕ)
    → compare (x ∷ xs) (y ∷ ys)
      ≡ (if ltb x y then below else if ltb y x then above else compare xs ys)
unfolding compare memcmp compare_bytes is_same
compare-cons x y xs ys = elim (Bool-cases (ltb (length xs) (length ys))) [
  | inl fewer ↦
      let fewer' : ltb (suc (length xs)) (suc (length ys)) ≡ true = ground arith in
      rw (compare, fewer, fewer') (ground arith)
  | inr more ↦
      let more' : ltb (suc (length xs)) (suc (length ys)) ≡ false = ground arith in
      let over : ltb (suc (length ys)) (suc (length xs)) ≡ ltb (length ys) (length xs) =
        ground arith in
      rw (compare, more, more', over) (ground arith)
]

-- `compare` is the lexical order.
pub compare-lexical : (a b : List ℕ) → compare a b ≡ lexical a b
unfolding compare lexical memcmp is_same
compare-lexical [] [] = refl
compare-lexical [] (y ∷ ys) = ground arith
compare-lexical (x ∷ xs) [] = ground arith
compare-lexical (x ∷ xs) (y ∷ ys) = compare-cons x y xs ys ∙ rw (compare-lexical xs ys) refl

memcmp_prefix :
    (a x : List ℕ)
    → length x ≤ length a
    → is_same (memcmp a x (length x)) ≡ true
    → a ≡ x ++ drop (length x) a
unfolding memcmp
memcmp_prefix a [] few h = refl
memcmp_prefix [] (y ∷ ys) few h = absurd (omega arith)
memcmp_prefix (x ∷ xs) (y ∷ ys) few h = elim (Bool-cases (is_same (compare_bytes x y))) [
  | inl e ↦
      rw (compare_bytes_same x y e)
        (ap (λ zs. y ∷ zs) (memcmp_prefix xs ys (omega arith) (ground (arith, e, h))))
  | inr e ↦ absurd (ground (arith, e, h))
]

memcmp-append : (x rest : List ℕ) → memcmp (x ++ rest) x (length x) ≡ same
unfolding memcmp is_same
memcmp-append [] rest = refl
memcmp-append (y ∷ ys) rest = rw (compare_bytes_refl y) (memcmp-append ys rest)

starts_front : (x rest : List ℕ) → starts_with (x ++ rest) x ≡ true
unfolding starts_with is_same
starts_front x rest =
    let few : leb (length x) (length (x ++ rest)) ≡ true = ground (arith, length-append x rest) in
    rw (few, memcmp-append x rest) refl

-- A slice begins with another one just if it is that one with something, or nothing, behind it.
pub starts_with_iff :
    (a x : List ℕ) → (starts_with a x ≡ true) ↔ ((rest : List ℕ) × (a ≡ x ++ rest))
unfolding starts_with is_same
starts_with_iff a x = (
  λ h. (drop (length x) a, memcmp_prefix a x (ground (arith, h)) (ground (arith, h))),
  λ p. let (rest, e) = p in subst (λ s. starts_with s x ≡ true) (sym e) (starts_front x rest),
)

memcmp_refl : (a : List ℕ) → memcmp a a (length a) ≡ same
unfolding memcmp is_same
memcmp_refl [] = refl
memcmp_refl (x ∷ xs) = rw (compare_bytes_refl x) (memcmp_refl xs)

-- `operator==` is equality.
pub equals_iff : (a b : List ℕ) → (equals a b ≡ true) ↔ (a ≡ b)
unfolding equals is_same
equals_iff a b = (
  λ h.
      let sizes : length a ≡ length b = ground (arith, h) in
      let whole : a ≡ b ++ drop (length b) a =
        memcmp_prefix a b (omega arith) (rw (sym sizes) (ground (arith, h))) in
      whole ∙ ap (λ r. b ++ r) (drop_all (length b) a (omega arith)) ∙ append-nil b,
  λ e. subst (λ x. equals a x ≡ true) e (rw (==_refl (length a), memcmp_refl a) refl),
)
