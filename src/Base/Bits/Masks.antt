-- ===== src/Base/Bits/Masks.antt =====
-- `|` of disjoint fields and `&` with a low mask, as arithmetic.
use Prim.Native.Nat.{
  ℕ, zero, suc, ◌+◌, ◌*◌, ◌/◌, ◌%◌, ◌^◌, ◌≤◌, ◌<◌, ◌-◌, bit_and, bit_or, bit_or-bitwise,
}
use mathlib.Core.Path.{◌≡◌, refl, ◌∙◌}
use native.Mathlib.Nat.{pow-suc, one-le-pow}
use native.Mathlib.Omega.{arith}
use rocksutil.Base.Bits.Step.{bit_and_step, bit_or_step}
use rocksutil.Base.Bits.Xor.{shift_suc}

pub zero-or : (b : ℕ) → bit_or 0 b ≡ b
zero-or b = bit_or-bitwise 0 b

or-zero_fuel : (n a : ℕ) → a ≤ n → bit_or a 0 ≡ a
or-zero_fuel n zero p = refl
or-zero_fuel zero (suc a) p = absurd (omega arith)
or-zero_fuel (suc n) (suc a) p =
    omega (arith, bit_or_step (suc a) 0, or-zero_fuel n (suc a / 2) (omega arith))

pub or-zero : (a : ℕ) → bit_or a 0 ≡ a
or-zero a = or-zero_fuel a a (omega arith)

and-zero_fuel : (n a : ℕ) → a ≤ n → bit_and a 0 ≡ 0
and-zero_fuel n zero p = refl
and-zero_fuel zero (suc a) p = absurd (omega arith)
and-zero_fuel (suc n) (suc a) p =
    omega (arith, bit_and_step (suc a) 0, and-zero_fuel n (suc a / 2) (omega arith))

pub and-zero : (a : ℕ) → bit_and a 0 ≡ 0
and-zero a = and-zero_fuel a a (omega arith)

-- `lo | (hi << k)` is a sum where `lo` fits `k` bits.
pub or_fields : (k lo hi : ℕ) → lo < 2 ^ k → bit_or lo (hi * 2 ^ k) ≡ lo + hi * 2 ^ k
or_fields zero zero hi h = bit_or-bitwise 0 (hi * 2 ^ 0) ∙ omega arith
or_fields zero (suc lo) hi h = absurd (omega arith)
or_fields (suc k) lo hi h =
    ground
      (arith, pow-suc 2 k, bit_or_step lo (hi * 2 ^ suc k), shift_suc k hi, or_fields k (lo / 2) hi)

-- The same with the high field first.
pub or_fields_high : (k hi lo : ℕ) → lo < 2 ^ k → bit_or (hi * 2 ^ k) lo ≡ lo + hi * 2 ^ k
or_fields_high zero hi zero h = ground (arith, or-zero hi)
or_fields_high zero hi (suc lo) h = absurd (omega arith)
or_fields_high (suc k) hi lo h = ground (
  arith,
  pow-suc 2 k,
  bit_or_step (hi * 2 ^ suc k) lo,
  shift_suc k hi,
  or_fields_high k hi (lo / 2),
)

and_fields : (k q r : ℕ) → r < 2 ^ k → bit_and (q * 2 ^ k + r) (2 ^ k - 1) ≡ r
and_fields zero q r h = ground (arith, and-zero (q * 1 + r))
and_fields (suc k) q r h = ground (
  arith,
  one-le-pow k 2,
  pow-suc 2 k,
  bit_and_step (q * 2 ^ suc k + r) (2 ^ suc k - 1),
  shift_suc k q,
  and_fields k q (r / 2),
)

-- A mask of `k` low bits is the remainder by `2 ^ k`.
pub and_mask : (k a : ℕ) → bit_and a (2 ^ k - 1) ≡ a % 2 ^ k
and_mask k a = ground (arith, one-le-pow k 2, and_fields k (a / 2 ^ k) (a % 2 ^ k))

-- The high fields and the low fields are joined apart.
pub or_split :
    (k q r p s : ℕ)
    → r < 2 ^ k
    → s < 2 ^ k
    → bit_or (q * 2 ^ k + r) (p * 2 ^ k + s) ≡ bit_or q p * 2 ^ k + bit_or r s
or_split zero q zero p zero hr hs = ground arith
or_split zero q zero p (suc s) hr hs = absurd (omega arith)
or_split zero q (suc r) p s hr hs = absurd (omega arith)
or_split (suc k) q r p s hr hs = ground (
  arith,
  pow-suc 2 k,
  bit_or_step (q * 2 ^ suc k + r) (p * 2 ^ suc k + s),
  bit_or_step r s,
  shift_suc k q,
  shift_suc k p,
  shift_suc k (bit_or q p),
  or_split k q (r / 2) p (s / 2),
)

pub and_split :
    (k q r p s : ℕ)
    → r < 2 ^ k
    → s < 2 ^ k
    → bit_and (q * 2 ^ k + r) (p * 2 ^ k + s) ≡ bit_and q p * 2 ^ k + bit_and r s
and_split zero q zero p zero hr hs = ground arith
and_split zero q zero p (suc s) hr hs = absurd (omega arith)
and_split zero q (suc r) p s hr hs = absurd (omega arith)
and_split (suc k) q r p s hr hs = ground (
  arith,
  pow-suc 2 k,
  bit_and_step (q * 2 ^ suc k + r) (p * 2 ^ suc k + s),
  bit_and_step r s,
  shift_suc k q,
  shift_suc k p,
  shift_suc k (bit_and q p),
  and_split k q (r / 2) p (s / 2),
)

-- `(x | 0x80)` stored in a byte, and the test of that bit.
pub or_flag : (x : ℕ) → bit_or x 128 % 256 ≡ x % 128 + 128
or_flag x =
    let split : bit_or (x / 128 * 2 ^ 7 + x % 128) (1 * 2 ^ 7 + 0)
        ≡ bit_or (x / 128) 1 * 2 ^ 7 + bit_or (x % 128) 0 =
      or_split 7 (x / 128) (x % 128) 1 0 (omega arith) (omega arith) in
    let whole : x / 128 * 2 ^ 7 + x % 128 ≡ x = omega arith in
    let joined : bit_or x 128 ≡ bit_or (x / 128) 1 * 2 ^ 7 + bit_or (x % 128) 0 =
      rw whole at split in
    let odd : bit_or (x / 128) 1 % 2 ≡ 1 = omega (arith, bit_or_step (x / 128) 1) in
    omega (arith, joined, odd, or-zero (x % 128))

pub and_flag : (x : ℕ) → bit_and x 128 ≡ x / 128 % 2 * 128
and_flag x =
    let split : bit_and (x / 128 * 2 ^ 7 + x % 128) (1 * 2 ^ 7 + 0)
        ≡ bit_and (x / 128) 1 * 2 ^ 7 + bit_and (x % 128) 0 =
      and_split 7 (x / 128) (x % 128) 1 0 (omega arith) (omega arith) in
    let whole : x / 128 * 2 ^ 7 + x % 128 ≡ x = omega arith in
    let joined : bit_and x 128 ≡ bit_and (x / 128) 1 * 2 ^ 7 + bit_and (x % 128) 0 =
      rw whole at split in
    let odd : bit_and (x / 128) 1 ≡ x / 128 % 2 =
      omega (arith, bit_and_step (x / 128) 1, and-zero (x / 128 / 2)) in
    omega (arith, joined, odd, and-zero (x % 128))

pub or_lt : (k r s : ℕ) → r < 2 ^ k → s < 2 ^ k → bit_or r s < 2 ^ k
or_lt zero zero s hr hs = omega (arith, zero-or s)
or_lt zero (suc r) s hr hs = absurd (omega arith)
or_lt (suc k) r s hr hs = omega (
  arith,
  pow-suc 2 k,
  bit_or_step r s,
  or_lt k (r / 2) (s / 2) (omega (arith, pow-suc 2 k)) (omega (arith, pow-suc 2 k)),
)
