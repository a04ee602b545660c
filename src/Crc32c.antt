-- ===== src/Crc32c.antt =====
-- rutil/crc32c.cc and include/rocksutil/crc32c.h: the checksum of a list of bytes.
pub mod Tables
pub mod Bitwise
pub mod Slow
pub mod Extend
pub mod Mask
mod Tests
use rocksutil.Base.{
  ℕ, zero, suc, ◌+◌, ◌-◌, ◌*◌, ◌/◌, ◌%◌, ◌^◌, bit_and, bit_or, bit_xor, if◌then◌else◌, leb, List,
  [], ◌∷◌, length, take, drop, get_or, u32_mod,
}
use rocksutil.Coding.{decode_fixed32}
use Tables.{table0, table1, table2, table3}

-- `LE_LOAD32`
abbrev le_load32 : List ℕ → ℕ
le_load32 p = decode_fixed32 p

-- `table_[i]`
abbrev pub at : List ℕ → ℕ → ℕ
at table i = get_or table i 0

-- `STEP1` on the register `l` and the byte `*p++`.
unfoldable pub step1 : ℕ → ℕ → ℕ
step1 l b = let c = bit_xor (bit_and l 0xff) b in bit_xor (at table0 c) (l / 2 ^ 8)

-- A loop of `STEP1` to the end of `p`.
unfoldable pub step_all : ℕ → List ℕ → ℕ
step_all l [] = l
step_all l (b ∷ p) = step_all (step1 l b) p

-- One half of `Slow_CRC32`.
slow_word : ℕ → List ℕ → ℕ
slow_word l p =
    let c = bit_xor l (le_load32 p) % u32_mod in
    bit_xor
      (bit_xor (bit_xor (at table3 (bit_and c 0xff)) (at table2 (bit_and (c / 2 ^ 8) 0xff)))
        (at table1 (bit_and (c / 2 ^ 16) 0xff)))
      (at table0 (c / 2 ^ 24))

-- The register after the eight bytes at `p`.
pub slow_crc32 : ℕ → List ℕ → ℕ
slow_crc32 l p = slow_word (slow_word l p) (drop 4 p)

-- The template parameter `CRC32`: the register after the first eight bytes of the list.
module _ (crc32 : ℕ → List ℕ → ℕ) where
  -- `while ((e-p) >= 8) CRC32(&l, &p);` and then the last bytes. `rounds` bounds the rounds.
  by_eight : ℕ → ℕ → List ℕ → ℕ
  by_eight zero l p = step_all l p
  by_eight (suc rounds) l p =
      let rest = by_eight rounds (crc32 l p) (drop 8 p) in
      if leb 8 (length p) then rest else step_all l p

  -- `while ((e-p) >= 16)`, two calls a round, and then the loops above.
  by_sixteen : ℕ → ℕ → List ℕ → ℕ
  by_sixteen zero l p = by_eight (length p) l p
  by_sixteen (suc rounds) l p =
      let rest = by_sixteen rounds (crc32 (crc32 l p) (drop 8 p)) (drop 16 p) in
      if leb 16 (length p) then rest else by_eight (length p) l p

  -- `ExtendImpl` on a buffer that starts at the address `pval`: byte by byte up to the first
  -- 16-byte boundary, if that is not past the end, and then the loops above.
  pub extend_impl : ℕ → ℕ → List ℕ → ℕ
  extend_impl pval crc buf =
      let l = bit_xor crc 0xffffffff in
      let head = (pval + 15) / 16 * 16 - pval in
      let n = if leb head (length buf) then head else 0 in
      let rest = drop n buf in
      bit_xor (by_sixteen (length rest) (step_all l (take n buf)) rest) 0xffffffff % u32_mod

-- `Extend` where the processor has no CRC instruction, on a buffer at a 16-byte boundary: the
-- address decides only which loop takes which byte.
unfoldable pub extend : ℕ → List ℕ → ℕ
extend crc buf = extend_impl slow_crc32 0 crc buf

unfoldable pub value : List ℕ → ℕ
value buf = extend 0 buf

abbrev pub mask_delta : ℕ
mask_delta = 0xa282ead8

-- `((crc >> 15) | (crc << 17)) + kMaskDelta`
unfoldable pub mask : ℕ → ℕ
mask crc = (bit_or (crc / 2 ^ 15) (crc * 2 ^ 17 % u32_mod) + mask_delta) % u32_mod

unfoldable pub unmask : ℕ → ℕ
unmask masked_crc =
    let rot = (masked_crc + u32_mod - mask_delta) % u32_mod in
    bit_or (rot / 2 ^ 17) (rot * 2 ^ 15 % u32_mod)
