-- ===== src/Log.antt =====
-- rutil/log_format.h and include/rocksutil/log_reader.h: record types and sizes of the write-ahead
-- log, whose blocks hold physical records, each a header and a payload.
pub mod Layout
pub mod Writer
pub mod Reader
pub mod RoundTrip
pub mod Wide
mod Tests
use rocksutil.Base.{ℕ}

pub data RecordType : Type 0 where
  zero_type full_type first_type middle_type last_type recyclable_full_type recyclable_first_type
        recyclable_middle_type recyclable_last_type :
      RecordType

-- The number of an enumerator.
unfoldable pub number : RecordType → ℕ
number zero_type = 0
number full_type = 1
number first_type = 2
number middle_type = 3
number last_type = 4
number recyclable_full_type = 5
number recyclable_first_type = 6
number recyclable_middle_type = 7
number recyclable_last_type = 8

abbrev pub block_size : ℕ
block_size = 32768

-- Checksum (4 bytes), length (2 bytes), type (1 byte), and the log number (4 bytes) if recyclable.
abbrev pub header_size : ℕ
header_size = 7

abbrev pub recyclable_header_size : ℕ
recyclable_header_size = 11

-- `enum class WALRecoveryMode`
pub data RecoveryMode : Type 0 where
  tolerate_corrupted_tail_records absolute_consistency point_in_time_recovery
        skip_any_corrupted_records :
      RecoveryMode
