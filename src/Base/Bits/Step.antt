-- ===== src/Base/Bits/Step.antt =====
-- Each native bit operation by its lowest digit. The native definition counts with fuel.
use Prim.Native.Nat.{ℕ, zero, suc, ◌+◌, ◌*◌, ◌/◌, ◌%◌, ◌≤◌, min, max, digits, differ}
use Prim.Native.Nat.{bit_and, bit_or, bit_xor, bitwise}
use Prim.Native.Nat.{bit_and-bitwise, bit_or-bitwise, bit_xor-bitwise}
use mathlib.Core.Path.{◌≡◌, refl}
use native.Mathlib.Omega.{arith}

module _ (z : ℕ → ℕ) (f : ℕ → ℕ → ℕ) where
  -- Fuel that is at least the first number is enough, and how much more there is does not matter.
  spare_fuel : (k l x y : ℕ) → x ≤ k → x ≤ l → digits z f k x y ≡ digits z f l x y
  spare_fuel zero zero x y h₁ h₂ = refl
  spare_fuel zero (suc l) zero y h₁ h₂ = refl
  spare_fuel (suc k) zero zero y h₁ h₂ = refl
  spare_fuel (suc k) (suc l) zero y h₁ h₂ = refl
  spare_fuel zero (suc l) (suc x) y h₁ h₂ = absurd (omega arith)
  spare_fuel (suc k) zero (suc x) y h₁ h₂ = absurd (omega arith)
  spare_fuel (suc k) (suc l) (suc x) y h₁ h₂ =
      let half : ℕ = suc x / 2 in rw (spare_fuel k l half (y / 2) (omega arith) (omega arith))

  by_halves :
      (y x : ℕ)
      → bitwise z f (suc x) y ≡ bitwise z f (suc x / 2) (y / 2) * 2 + f (suc x % 2) (y % 2)
  by_halves y x =
      let half : ℕ = suc x / 2 in
      omega (arith, spare_fuel x half half (y / 2) (omega arith) (omega arith))

pub bit_xor_step : (m n : ℕ) → bit_xor m n ≡ bit_xor (m / 2) (n / 2) * 2 + differ (m % 2) (n % 2)
bit_xor_step zero n = simp bit_xor-bitwise (omega arith)
bit_xor_step (suc m) n = simp bit_xor-bitwise (by_halves (λ d. d) differ n m)

pub bit_or_step : (m n : ℕ) → bit_or m n ≡ bit_or (m / 2) (n / 2) * 2 + max (m % 2) (n % 2)
bit_or_step zero n = simp bit_or-bitwise (omega arith)
bit_or_step (suc m) n = simp bit_or-bitwise (by_halves (λ d. d) max n m)

pub bit_and_step : (m n : ℕ) → bit_and m n ≡ bit_and (m / 2) (n / 2) * 2 + min (m % 2) (n % 2)
bit_and_step zero n = simp bit_and-bitwise (omega arith)
bit_and_step (suc m) n = simp bit_and-bitwise (by_halves (λ d. 0) min n m)
