-- ===== src/Log/Layout.antt =====
-- The format of a log file, as include/rocksutil/log_writer.h draws it: what one record looks like
-- from an offset in a block on. It names no state of the writer or of the reader.
use rocksutil.Base.{
  ℕ, ◌+◌, ◌-◌, ◌/◌, ◌%◌, ◌≤◌, ◌<◌, ◌≡◌, Bool, true, false, if◌then◌else◌, List, [], ◌∷◌, ◌++◌,
  length, replicate, u32_mod,
}
use rocksutil.Coding.{encode_fixed32}
use rocksutil.Crc32c.{value, mask}
use rocksutil.Log.{
  RecordType, full_type, first_type, middle_type, last_type, recyclable_full_type,
  recyclable_first_type, recyclable_middle_type, recyclable_last_type, number, block_size,
  header_size, recyclable_header_size,
}

-- The bytes of the log number, in a recyclable record only.
unfoldable pub log_bytes : Bool → ℕ → List ℕ
log_bytes recycle log_number = if recycle then encode_fixed32 (log_number % u32_mod) else []

-- A physical record. The checksum covers the type, the log number and the payload.
unfoldable pub physical : Bool → ℕ → RecordType → List ℕ → List ℕ
physical recycle log_number t payload =
    let n = length payload in
    let tail = log_bytes recycle log_number ++ payload in
    encode_fixed32 (mask (value (number t ∷ tail))) ++ (n % 256 ∷ n / 256 % 256 ∷ number t ∷ tail)

abbrev pub size_of_header : Bool → ℕ
size_of_header recycle = if recycle then recyclable_header_size else header_size

-- The type of a fragment that begins, and that ends, its record.
unfoldable pub type_of : Bool → Bool → Bool → RecordType
type_of false true true = full_type
type_of false true false = first_type
type_of false false false = middle_type
type_of false false true = last_type
type_of true true true = recyclable_full_type
type_of true true false = recyclable_first_type
type_of true false false = recyclable_middle_type
type_of true false true = recyclable_last_type

-- `Laid recycle log o begin p bytes o'`: from the offset `o` of a block on, `bytes` hold what is
-- left of a record, `p`, and end at the offset `o'`. `begin` tells that nothing of it stands before.
pub data Laid (recycle : Bool) (log_number : ℕ) : ℕ → Bool → List ℕ → List ℕ → ℕ → Type 0 where
  -- No header fits in the block: zeros fill it up.
  pad :
      (bytes : List ℕ) {o o' : ℕ} {begin : Bool} {p : List ℕ}
      → o ≤ block_size
      → block_size < o + size_of_header recycle
      → Laid recycle log_number 0 begin p bytes o'
      → Laid recycle log_number o begin p (replicate (block_size - o) 0 ++ bytes) o'
  -- The rest of the record fits.
  end :
      {o o' : ℕ} {begin : Bool} {p : List ℕ}
      → o' ≡ o + (size_of_header recycle + length p)
      → o' ≤ block_size
      → Laid recycle log_number o begin p
          (physical recycle log_number (type_of recycle begin true) p)
          o'
  -- A fragment fills the block, and more is left.
  split :
      (p q bytes : List ℕ) {o o' : ℕ} {begin : Bool}
      → block_size ≡ o + (size_of_header recycle + length p)
      → 0 < length q
      → Laid recycle log_number block_size false q bytes o'
      → Laid recycle log_number o begin
          (p ++ q)
          (physical recycle log_number (type_of recycle begin false) p ++ bytes)
          o'
