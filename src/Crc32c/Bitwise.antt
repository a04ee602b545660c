-- ===== src/Crc32c/Bitwise.antt =====
-- The bit-serial CRC-32C, and the first lookup table as eight of its rounds.
use rocksutil.Base.{
  ℕ, zero, suc, ◌+◌, ◌*◌, ◌/◌, ◌%◌, ◌^◌, ◌<◌, bit_xor, ◌≡◌, refl, sym, ap, ◌∙◌, List, [], ◌∷◌,
  arith, IsByte, IsU32, All, ◌++◌,
}
use rocksutil.Base.Bits.{
  xor_low, xor-zero, xor-xor_comm, xor_disjoint, xor_right_comm, xor_lt, and_mask, agree_below,
  agree_below→eq,
}
use native.Mathlib.Nat.{pow-suc, suc-add, zero-add}
use rocksutil.Crc32c.Tables.{table0}
use rocksutil.Crc32c.{at, step1, step_all}

-- The Castagnoli polynomial, lowest bit first.
abbrev pub poly : ℕ
poly = 0x82f63b78

-- One round of the shift register.
unfoldable pub round : ℕ → ℕ
round x = bit_xor (x / 2) (x % 2 * poly)

unfoldable pub rounds : ℕ → ℕ → ℕ
rounds zero x = x
rounds (suc n) x = rounds n (round x)

feedback-xor : (m n : ℕ) → m < 2 → n < 2 → (m + n) % 2 * poly ≡ bit_xor (m * poly) (n * poly)
feedback-xor zero zero hm hn = refl
feedback-xor zero (suc zero) hm hn = refl
feedback-xor (suc zero) zero hm hn = refl
feedback-xor (suc zero) (suc zero) hm hn = refl
feedback-xor zero (suc (suc n)) hm hn = absurd (omega arith)
feedback-xor (suc zero) (suc (suc n)) hm hn = absurd (omega arith)
feedback-xor (suc (suc m)) n hm hn = absurd (omega arith)

round-xor : (a b : ℕ) → round (bit_xor a b) ≡ bit_xor (round a) (round b)
unfolding round
round-xor a b =
    let high : bit_xor a b / 2 ≡ bit_xor (a / 2) (b / 2) = omega (arith, xor_low a b) in
    let low : bit_xor a b % 2 ≡ (a % 2 + b % 2) % 2 = omega (arith, xor_low a b) in
    rw (high, low, feedback-xor (a % 2) (b % 2) (omega arith) (omega arith))
      (xor-xor_comm (a / 2) (b / 2) (a % 2 * poly) (b % 2 * poly))

pub rounds-xor : (n a b : ℕ) → rounds n (bit_xor a b) ≡ bit_xor (rounds n a) (rounds n b)
unfolding rounds
rounds-xor zero a b = refl
rounds-xor (suc n) a b = rw (round-xor a b) (rounds-xor n (round a) (round b))

round-double : (y : ℕ) → round (2 * y) ≡ y
unfolding round
round-double y =
    let high : 2 * y / 2 ≡ y = omega arith in
    let low : 2 * y % 2 ≡ 0 = omega arith in rw (high, low) (xor-zero y)

pub rounds-power : (n y : ℕ) → rounds n (2 ^ n * y) ≡ y
unfolding rounds
rounds-power zero y = omega arith
rounds-power (suc n) y =
    let doubled : 2 ^ suc n * y ≡ 2 * (2 ^ n * y) =
      omega (arith, ap (λ (t : ℕ). t * y) (pow-suc 2 n)) in
    ap (rounds (suc n)) doubled ∙ ap (rounds n) (round-double (2 ^ n * y)) ∙ rounds-power n y

pub rounds-add : (m n x : ℕ) → rounds (m + n) x ≡ rounds n (rounds m x)
unfolding rounds
rounds-add zero n x = ap (λ k. rounds k x) (zero-add n)
rounds-add (suc m) n x = rw (suc-add m n) (rounds-add m n (round x))

-- A word joined in after `n` rounds may be joined in before them, shifted.
pub rounds-absorb : (n x y : ℕ) → bit_xor (rounds n x) y ≡ rounds n (bit_xor x (2 ^ n * y))
rounds-absorb n x y = rw (rounds-xor n x (2 ^ n * y), rounds-power n y)

pub table0-byte : (i : ℕ) → i < 256 → at table0 i ≡ rounds 8 i
unfolding agree_below table0 rounds round
table0-byte = agree_below→eq _ _ 256 refl

-- The low byte and the rest of a register, joined by exclusive or.
pub split_byte : (x : ℕ) → x ≡ bit_xor (x % 256) (256 * (x / 256))
split_byte x = sym (xor_disjoint 8 (x % 256) (x / 256) (omega arith) ∙ omega arith)

-- One table step is eight rounds on the register with the byte joined in.
pub step1-rounds : (l b : ℕ) → IsByte b → step1 l b ≡ rounds 8 (bit_xor l b)
unfolding step1
step1-rounds l b h =
    let c = bit_xor (l % 256) b in
    let low : at table0 c ≡ rounds 8 c = table0-byte c (xor_lt 8 (l % 256) b (omega arith) h) in
    let joined : bit_xor l b ≡ bit_xor c (256 * (l / 256)) =
      ap (λ x. bit_xor x b) (split_byte l) ∙ xor_right_comm (l % 256) (256 * (l / 256)) b in
    rw (and_mask 8 l, low, joined, rounds-xor 8 c (256 * (l / 256)), rounds-power 8 (l / 256))

round-lt : (x : ℕ) → IsU32 x → IsU32 (round x)
unfolding round
round-lt x h = xor_lt 32 (x / 2) (x % 2 * poly) (omega arith) (omega arith)

rounds-lt : (n x : ℕ) → IsU32 x → IsU32 (rounds n x)
unfolding rounds
rounds-lt zero x h = h
rounds-lt (suc n) x h = rounds-lt n (round x) (round-lt x h)

-- The register stays a 32-bit word.
pub step1-IsU32 : (l b : ℕ) → IsU32 l → IsByte b → IsU32 (step1 l b)
step1-IsU32 l b hl hb =
    rw (step1-rounds l b hb) (rounds-lt 8 (bit_xor l b) (xor_lt 32 l b hl (omega arith)))

pub step_all-IsU32 : (l : ℕ) (p : List ℕ) → IsU32 l → All IsByte p → IsU32 (step_all l p)
unfolding step_all
step_all-IsU32 l [] hl hp = hl
step_all-IsU32 l (b ∷ p) hl hp = step_all-IsU32 (step1 l b) p (step1-IsU32 l b hl hp.0) hp.1

pub step_all-append : (l : ℕ) (p q : List ℕ) → step_all l (p ++ q) ≡ step_all (step_all l p) q
unfolding step_all
step_all-append l [] q = refl
step_all-append l (b ∷ p) q = step_all-append (step1 l b) p q
