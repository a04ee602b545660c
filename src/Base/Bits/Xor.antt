-- ===== src/Base/Bits/Xor.antt =====
-- Exclusive or: a commutative group of exponent two that respects fields of bits.
use Prim.Native.Nat.{
  ℕ, zero, suc, ◌+◌, ◌*◌, ◌/◌, ◌%◌, ◌^◌, ◌≤◌, ◌<◌, bit_xor, differ, bit_xor-bitwise,
}
use mathlib.Core.Path.{◌≡◌, refl, sym, ap, ◌∙◌}
use native.Mathlib.Nat.{pow-suc}
use native.Mathlib.Omega.{arith}
use rocksutil.Base.Bits.Step.{bit_xor_step}

differ_digits : (a b : ℕ) → a < 2 → b < 2 → differ a b ≡ (a + b) % 2
differ_digits zero b ha hb = omega arith
differ_digits (suc zero) zero ha hb = omega arith
differ_digits (suc zero) (suc zero) ha hb = omega arith
differ_digits (suc zero) (suc (suc b)) ha hb = absurd (omega arith)
differ_digits (suc (suc a)) b ha hb = absurd (omega arith)

pub xor_low : (a b : ℕ) → bit_xor a b ≡ bit_xor (a / 2) (b / 2) * 2 + (a % 2 + b % 2) % 2
xor_low a b =
    omega (arith, bit_xor_step a b, differ_digits (a % 2) (b % 2) (omega arith) (omega arith))

pub zero-xor : (b : ℕ) → bit_xor 0 b ≡ b
zero-xor b = bit_xor-bitwise 0 b

xor_comm_fuel : (n a b : ℕ) → a ≤ n → b ≤ n → bit_xor a b ≡ bit_xor b a
xor_comm_fuel zero zero zero p q = refl
xor_comm_fuel zero zero (suc b) p q = absurd (omega arith)
xor_comm_fuel zero (suc a) b p q = absurd (omega arith)
xor_comm_fuel (suc n) a b p q =
    omega
      (arith, xor_low a b, xor_low b a, xor_comm_fuel n (a / 2) (b / 2) (omega arith) (omega arith))

pub xor_comm : (a b : ℕ) → bit_xor a b ≡ bit_xor b a
xor_comm a b = xor_comm_fuel (a + b) a b (omega arith) (omega arith)

pub xor-zero : (a : ℕ) → bit_xor a 0 ≡ a
xor-zero a = omega (arith, xor_comm a 0, zero-xor a)

xor_assoc_fuel :
    (n a b c : ℕ) → a ≤ n → b ≤ n → c ≤ n → bit_xor (bit_xor a b) c ≡ bit_xor a (bit_xor b c)
xor_assoc_fuel zero zero b c p q r = rw (zero-xor b, zero-xor (bit_xor b c))
xor_assoc_fuel zero (suc a) b c p q r = absurd (omega arith)
xor_assoc_fuel (suc n) a b c p q r =
    let ab : bit_xor a b / 2 ≡ bit_xor (a / 2) (b / 2) = omega (arith, xor_low a b) in
    let bc : bit_xor b c / 2 ≡ bit_xor (b / 2) (c / 2) = omega (arith, xor_low b c) in
    let ab0 : bit_xor a b % 2 ≡ (a % 2 + b % 2) % 2 = omega (arith, xor_low a b) in
    let bc0 : bit_xor b c % 2 ≡ (b % 2 + c % 2) % 2 = omega (arith, xor_low b c) in
    let left : bit_xor (bit_xor a b) c
        ≡ bit_xor (bit_xor (a / 2) (b / 2)) (c / 2) * 2 + ((a % 2 + b % 2) % 2 + c % 2) % 2 =
      rw (← ab, ← ab0) (xor_low (bit_xor a b) c) in
    let right : bit_xor a (bit_xor b c)
        ≡ bit_xor (a / 2) (bit_xor (b / 2) (c / 2)) * 2 + (a % 2 + (b % 2 + c % 2) % 2) % 2 =
      rw (← bc, ← bc0) (xor_low a (bit_xor b c)) in
    omega (
      arith,
      left,
      right,
      xor_assoc_fuel n (a / 2) (b / 2) (c / 2) (omega arith) (omega arith) (omega arith),
    )

pub xor_assoc : (a b c : ℕ) → bit_xor (bit_xor a b) c ≡ bit_xor a (bit_xor b c)
xor_assoc a b c = xor_assoc_fuel (a + b + c) a b c (omega arith) (omega arith) (omega arith)

xor_self_fuel : (n a : ℕ) → a ≤ n → bit_xor a a ≡ 0
xor_self_fuel zero zero p = refl
xor_self_fuel zero (suc a) p = absurd (omega arith)
xor_self_fuel (suc n) a p = omega (arith, xor_low a a, xor_self_fuel n (a / 2) (omega arith))

pub xor_self : (a : ℕ) → bit_xor a a ≡ 0
xor_self a = xor_self_fuel a a (omega arith)

pub xor-xor_cancel : (a b : ℕ) → bit_xor (bit_xor a b) b ≡ a
xor-xor_cancel a b = rw (xor_assoc, xor_self) (xor-zero a)

pub xor_left_comm : (a b c : ℕ) → bit_xor a (bit_xor b c) ≡ bit_xor b (bit_xor a c)
xor_left_comm a b c = rw (← xor_assoc a b c, xor_comm a b) (xor_assoc b a c)

-- (a ^ b) ^ (c ^ d) with the middle terms exchanged.
pub xor-xor_comm :
    (a b c d : ℕ) → bit_xor (bit_xor a b) (bit_xor c d) ≡ bit_xor (bit_xor a c) (bit_xor b d)
xor-xor_comm a b c d = rw (xor_assoc a b, xor_left_comm b c d, ← xor_assoc a c)

pub shift_suc : (k hi : ℕ) → hi * 2 ^ suc k ≡ 2 * (hi * 2 ^ k)
shift_suc k hi =
    let doubled : hi * 2 ^ suc k ≡ hi * (2 ^ k * 2) = ap (λ (p : ℕ). hi * p) (pow-suc 2 k) in
    omega arith

pub xor_lt : (k r s : ℕ) → r < 2 ^ k → s < 2 ^ k → bit_xor r s < 2 ^ k
xor_lt zero zero zero hr hs = omega arith
xor_lt zero zero (suc s) hr hs = absurd (omega arith)
xor_lt zero (suc r) s hr hs = absurd (omega arith)
xor_lt (suc k) r s hr hs = omega (
  arith,
  pow-suc 2 k,
  xor_low r s,
  xor_lt k (r / 2) (s / 2) (omega (arith, pow-suc 2 k)) (omega (arith, pow-suc 2 k)),
)

-- The high fields and the low fields are joined apart.
pub xor_fields :
    (k q r p s : ℕ)
    → r < 2 ^ k
    → s < 2 ^ k
    → bit_xor (q * 2 ^ k + r) (p * 2 ^ k + s) ≡ bit_xor q p * 2 ^ k + bit_xor r s
xor_fields zero q zero p zero hr hs = ground arith
xor_fields zero q zero p (suc s) hr hs = absurd (omega arith)
xor_fields zero q (suc r) p s hr hs = absurd (omega arith)
xor_fields (suc k) q r p s hr hs = ground (
  arith,
  pow-suc 2 k,
  xor_low (q * 2 ^ suc k + r) (p * 2 ^ suc k + s),
  xor_low r s,
  shift_suc k q,
  shift_suc k p,
  shift_suc k (bit_xor q p),
  xor_fields k q (r / 2) p (s / 2),
)

-- Fields that do not overlap are added.
pub xor_disjoint : (k lo hi : ℕ) → lo < 2 ^ k → bit_xor lo (2 ^ k * hi) ≡ lo + 2 ^ k * hi
xor_disjoint zero zero hi h = zero-xor (1 * hi) ∙ omega arith
xor_disjoint zero (suc lo) hi h = absurd (omega arith)
xor_disjoint (suc k) lo hi h =
    ground
      (arith, pow-suc 2 k, xor_low lo (2 ^ suc k * hi), shift_suc k hi, xor_disjoint k (lo / 2) hi)

pub xor_right_comm : (a b c : ℕ) → bit_xor (bit_xor a b) c ≡ bit_xor (bit_xor a c) b
xor_right_comm a b c = rw (xor_assoc a b c, xor_comm b c) (sym (xor_assoc a c b))
