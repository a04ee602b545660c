-- ===== src/Log/Writer.antt =====
-- rutil/log_writer.cc: `log::Writer`. The `WritableFileWriter` that it owns is a parameter.
pub mod Written
pub mod Blocks
pub mod Rounds
pub mod Records
use rocksutil.Base.{
  ℕ, zero, suc, ◌+◌, ◌-◌, ◌/◌, ◌%◌, Bool, true, false, ◌&&◌, ltb, leb, ◌==◌, if◌then◌else◌, Option,
  none, some, List, [], ◌∷◌, ◌++◌, map, length, take, drop, replicate, u32_mod,
}
use rocksutil.Coding.{encode_fixed32}
use rocksutil.Crc32c.{at, extend, value, mask}
use rocksutil.Log.{
  RecordType, zero_type, full_type, first_type, middle_type, last_type, recyclable_full_type,
  recyclable_first_type, recyclable_middle_type, recyclable_last_type, number, block_size,
  header_size, recyclable_header_size,
}
use rocksutil.Status.{Status, is_ok}

-- What the writer calls of its destination: `Append` and `Flush`.
pub record Dest {ℓ} (W : Type ℓ) : Type ℓ where
  pub append : W → List ℕ → W × Status
  pub flush : W → W × Status

pub record Writer {ℓ} (W : Type ℓ) : Type ℓ where
  pub dest : W
  pub block_offset : ℕ
  pub log_number : ℕ
  pub recycle_log_files : Bool
  pub type_crc : List ℕ

-- The checksums of the nine type bytes.
pub type_crcs : List ℕ
type_crcs = map (λ t. value (t ∷ [])) (0 ∷ 1 ∷ 2 ∷ 3 ∷ 4 ∷ 5 ∷ 6 ∷ 7 ∷ 8 ∷ [])

-- `leftover` below the size of a header is skipped, under zeros.
abbrev pub header_size_of : Bool → ℕ
header_size_of recycle = if recycle then recyclable_header_size else header_size

pub fragment_type : Bool → Bool → Bool → RecordType
fragment_type recycle true true = if recycle then recyclable_full_type else full_type
fragment_type recycle true false = if recycle then recyclable_first_type else first_type
fragment_type recycle false true = if recycle then recyclable_last_type else last_type
fragment_type recycle false false = if recycle then recyclable_middle_type else middle_type

-- `t >= kRecyclableFullType`
abbrev pub is_recyclable : RecordType → Bool
is_recyclable t = leb (number recyclable_full_type) (number t)

module _ {ℓ} {W : Type ℓ} where
  unfoldable pub new : W → ℕ → Bool → Writer W
  new dest log_number recycle = record {
    dest = dest;
    block_offset = 0;
    log_number = log_number;
    recycle_log_files = recycle;
    type_crc = type_crcs;
  }

  -- The header of a physical record, `buf[0 .. header_size - 1]`.
  pub header : Writer W → RecordType → List ℕ → List ℕ
  header w t payload =
      let n = length payload in
      let log_bytes = if is_recyclable t then encode_fixed32 (w.log_number % u32_mod) else [] in
      let type_crc = at w.type_crc (number t) in
      let crc = if is_recyclable t then extend type_crc log_bytes else type_crc in
      encode_fixed32 (mask (extend crc payload)) ++ (n % 256 ∷ n / 256 % 256 ∷ number t ∷ log_bytes)

module _ {ℓ} {W : Type ℓ} (d : Dest W) where
  -- Header, payload and flush, each if what stands before it went well.
  pub append_record : W → List ℕ → List ℕ → W × Status
  append_record dest buf payload =
      let (dest₁, s₁) = d.append dest buf in
      let (dest₂, s₂) = d.append dest₁ payload in
      if is_ok s₁ then (if is_ok s₂ then d.flush dest₂ else (dest₂, s₂)) else (dest₁, s₁)

  pub emit_physical_record : Writer W → RecordType → List ℕ → Writer W × Status
  emit_physical_record w t payload =
      let (dest, s) = append_record w.dest (header w t payload) payload in
      let size = header_size_of (is_recyclable t) in
      (record w { dest = dest; block_offset = w.block_offset + (size + length payload) }, s)

  -- The switch to a new block where no header fits; the result of `Append` is not looked at.
  pub switch_block : Writer W → Writer W
  switch_block w =
      let leftover = block_size - w.block_offset in
      let dest = if ltb 0 leftover then (d.append w.dest (replicate leftover 0)).0 else w.dest in
      if ltb leftover (header_size_of w.recycle_log_files)
      then record w { dest = dest; block_offset = 0 }
      else w

  -- The length of the next fragment of `left` bytes.
  pub fragment_length : Writer W → ℕ → ℕ
  fragment_length w left =
      let avail = block_size - w.block_offset - header_size_of w.recycle_log_files in
      if ltb left avail then left else avail

  -- A round of the do-while loop, with the bytes that it leaves.
  pub add_fragment : Writer W → List ℕ → Bool → Writer W × Status × List ℕ
  add_fragment w ptr begin =
      let w₁ = switch_block w in
      let n = fragment_length w₁ (length ptr) in
      let t = fragment_type w.recycle_log_files begin (length ptr == n) in
      let (w₂, s) = emit_physical_record w₁ t (take n ptr) in (w₂, s, drop n ptr)

  -- The do-while loop. `none` means that the rounds ran out.
  pub add_record_loop : ℕ → Writer W → List ℕ → Bool → Option (Writer W × Status)
  add_record_loop zero w ptr begin = none
  add_record_loop (suc rounds) w ptr begin =
      let (w₁, s, left) = add_fragment w ptr begin in
      let rest = add_record_loop rounds w₁ left false in
      if is_ok s && ltb 0 (length left) then rest else some (w₁, s)

  -- A round takes a byte at least, but for a first one that finds room for a header alone.
  pub add_record : Writer W → List ℕ → Option (Writer W × Status)
  add_record w slice = add_record_loop (length slice + 2) w slice true
