-- ===== src/Crc32c/Mask.antt =====
-- The masked form in which checksums are stored.
use rocksutil.Base.{ℕ, ◌+◌, ◌-◌, ◌*◌, ◌/◌, ◌%◌, ◌^◌, ◌≡◌, bit_or, IsU32, u32_mod, arith}
use rocksutil.Base.Bits.{or_fields}
use rocksutil.Crc32c.{mask, unmask, mask_delta}

pub mask-IsU32 : (crc : ℕ) → IsU32 (mask crc)
unfolding mask
mask-IsU32 crc = omega arith

-- A rotation to the right by `k` of 32 bits, as a sum.
rotate_right15 :
    (x : ℕ)
    → IsU32 x
    → bit_or (x / 2 ^ 15) (x * 2 ^ 17 % u32_mod) ≡ x / 2 ^ 15 + x % 2 ^ 15 * 2 ^ 17
rotate_right15 x h =
    let high : x * 2 ^ 17 % u32_mod ≡ x % 2 ^ 15 * 2 ^ 17 = omega arith in
    rw high (or_fields 17 (x / 2 ^ 15) (x % 2 ^ 15) (omega arith))

rotate_right17 :
    (x : ℕ)
    → IsU32 x
    → bit_or (x / 2 ^ 17) (x * 2 ^ 15 % u32_mod) ≡ x / 2 ^ 17 + x % 2 ^ 17 * 2 ^ 15
rotate_right17 x h =
    let high : x * 2 ^ 15 % u32_mod ≡ x % 2 ^ 17 * 2 ^ 15 = omega arith in
    rw high (or_fields 15 (x / 2 ^ 17) (x % 2 ^ 17) (omega arith))

-- `Unmask` gives back every 32-bit checksum that `Mask` was given.
pub unmask-mask : (crc : ℕ) → IsU32 crc → unmask (mask crc) ≡ crc
unfolding mask unmask
unmask-mask crc h =
    let turned : ℕ = crc / 2 ^ 15 + crc % 2 ^ 15 * 2 ^ 17 in
    let back : ((turned + mask_delta) % u32_mod + u32_mod - mask_delta) % u32_mod ≡ turned =
      omega arith in
    rw (rotate_right15 crc h, back, rotate_right17 turned (omega arith)) (omega arith)
