-- ===== src/Random.antt =====
-- rutil/random.h: `Random`, the generator modulo 2^31 - 1.
mod Tests
use rocksutil.Base.{
  ℕ, ◌+◌, ◌-◌, ◌*◌, ◌/◌, ◌%◌, ◌^◌, ◌≤◌, ◌<◌, ◌≡◌, ◌≢◌, bit_and, ltb, ◌==◌, Bool, true, false, not,
  if◌then◌else◌, ap, ◌∙◌, refl, sym, u32_mod, u64_mod, IsU32, arith, Bool-cases, ltb→lt, inl, inr,
}
use rocksutil.Base.Bits.{and_mask}

-- `M`
abbrev pub modulus : ℕ
modulus = 2147483647

-- `A`
abbrev pub multiplier : ℕ
multiplier = 16807

-- `GoodSeed`
unfoldable pub good_seed : ℕ → ℕ
good_seed s = if not (bit_and s modulus == 0) then bit_and s modulus else 1

-- `Next`: the new `seed_`, which it also returns.
unfoldable pub next : ℕ → ℕ
next seed =
    let product = seed * multiplier % u64_mod in
    let sum = (product / 2 ^ 31 + bit_and product modulus) % u32_mod in
    if ltb modulus sum then sum - modulus else sum

-- `Uniform`, for a positive `n`, with the new seed.
pub uniform : ℕ → ℕ → ℕ × ℕ
uniform seed n = (next seed, next seed % n)

-- `OneIn`
pub one_in : ℕ → ℕ → ℕ × Bool
one_in seed n = (next seed, next seed % n == 0)

and_modulus : (x : ℕ) → bit_and x modulus ≡ x % 2 ^ 31
and_modulus x = and_mask 31 x

-- The state of a generator: neither 0 nor the modulus.
unfoldable pub IsSeed : ℕ → Type 0
IsSeed s = (0 < s) × (s < modulus)

-- No multiple of the multiplier by a seed is one of the modulus.
no_multiple : (s k : ℕ) → IsSeed s → s * 16807 ≢ k * 2147483647
unfolding IsSeed
no_multiple s k seed e = omega arith

-- From a seed that is neither 0 nor the modulus `Next` computes the product modulo 2^31 - 1, which
-- is neither of the two again.
pub next_lem :
    (seed : ℕ) → IsSeed seed → (next seed ≡ seed * multiplier % modulus) × IsSeed (next seed)
unfolding next IsSeed
next_lem seed h =
    let x : ℕ = seed * 16807 in
    let q : ℕ = x / 2147483648 in
    let r : ℕ = x % 2147483648 in
    let whole : x % 18446744073709551616 ≡ x = omega arith in
    let split : x ≡ q * 2147483648 + r = omega arith in
    let not_one : q + r ≢ 2147483647 = λ e. no_multiple seed (q + 1) h (omega arith) in
    let not_two : q + r ≢ 4294967294 = λ e. omega arith in
    let not_zero : q + r ≢ 0 = λ e. omega arith in
    let fits : (q + r) % 4294967296 ≡ q + r = omega arith in
    let same : x % 2147483647 ≡ (q + r) % 2147483647 = omega arith in
    let result : ℕ = if ltb 2147483647 (q + r) then q + r - 2147483647 else q + r in
    let reduced : (result ≡ (q + r) % 2147483647) × (0 < result) × (result < 2147483647) =
      elim (Bool-cases (ltb 2147483647 (q + r))) [
        | inl more ↦ rw more (
            let big : 2147483647 < q + r = ltb→lt 2147483647 (q + r) more in
            (omega arith, omega arith, omega arith))
        | inr less ↦ rw less (
            let small : q + r < 2147483648 = ground arith in
            (omega arith, omega arith, omega arith))
      ] in
    rw (whole, and_modulus x, fits, same) (reduced.0, (reduced.1, reduced.2))

-- `GoodSeed` gives a seed that is neither 0 nor the modulus, unless the low 31 bits of its argument
-- are all ones.
pub good_seed-IsSeed : (s : ℕ) → s % 2 ^ 31 ≢ modulus → IsSeed (good_seed s)
unfolding good_seed IsSeed
good_seed-IsSeed s h = rw (and_modulus s) (ground (arith, h))

-- Where the low 31 bits are all ones `GoodSeed` gives the modulus, and `Next` stays there.
pub next-good_seed_stuck :
    (s : ℕ) → s % 2 ^ 31 ≡ modulus → (good_seed s ≡ modulus) × (next (good_seed s) ≡ good_seed s)
unfolding good_seed next
next-good_seed_stuck s h =
    let same : good_seed s ≡ modulus = rw (and_modulus s, h) refl in (same, rw same refl)
