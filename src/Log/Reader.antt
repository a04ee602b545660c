-- ===== src/Log/Reader.antt =====
-- rutil/log_reader.cc: `log::Reader`. The `SequentialFileReader` that it owns is a parameter. A
-- slice is the list of its bytes, so that `backing_store_` needs no place in the state.
pub mod Record
pub mod Rounds
pub mod Parse
pub mod State
pub mod Fragments
pub mod Ends
pub mod Steps
pub mod Joins
pub mod Old
use rocksutil.Base.{
  ℕ, zero, suc, ◌+◌, ◌-◌, ◌*◌, ◌/◌, ◌%◌, ◌^◌, bit_or, Bool, true, false, not, ◌&&◌, ◌||◌, ltb, leb,
  ◌==◌, if◌then◌else◌, Option, none, some, List, [], ◌∷◌, ◌++◌, length, take, drop, get_or, add64,
  sub64, u64_mod, codes,
}
use rocksutil.Coding.{decode_fixed32}
use rocksutil.Crc32c.{value, unmask}
use rocksutil.Log.{
  RecoveryMode, tolerate_corrupted_tail_records, absolute_consistency, point_in_time_recovery,
  skip_any_corrupted_records, block_size, header_size, recyclable_header_size,
}
use rocksutil.Status.{Status, is_ok, corruption_status}

-- What the reader calls of its file: `Read` of at most so many bytes, and `Skip`.
pub record SequentialFile {ℓ} (F : Type ℓ) : Type ℓ where
  pub read : ℕ → F → F × Status × List ℕ
  pub skip : ℕ → F → F × Status

-- `reports` is what the reporter was told, and `none` is the null reporter.
pub record Reader {ℓ} (F : Type ℓ) : Type ℓ where
  pub file : F
  pub reports : Option (List (ℕ × Status))
  pub checksum : Bool
  pub buffer : List ℕ
  pub eof : Bool
  pub read_error : Bool
  pub eof_offset : ℕ
  pub last_record_offset : ℕ
  pub end_of_buffer_offset : ℕ
  pub initial_offset : ℕ
  pub log_number : ℕ
  pub recycled : Bool

-- The special values that follow `kMaxRecordType`.
abbrev pub eof_type : ℕ
eof_type = 9

abbrev pub bad_record : ℕ
bad_record = 10

abbrev pub bad_header : ℕ
bad_header = 11

abbrev pub old_record : ℕ
old_record = 12

abbrev pub bad_record_len : ℕ
bad_record_len = 13

abbrev pub bad_record_checksum : ℕ
bad_record_checksum = 14

-- What `ReadPhysicalRecord` returns, with the two values that it sets through pointers.
pub record Physical {ℓ} (F : Type ℓ) : Type ℓ where
  pub reader : Reader F
  pub record_type : ℕ
  pub fragment : List ℕ
  pub drop_size : ℕ

-- A round of its loop asks for more bytes or is done.
pub data Round {ℓ} (F : Type ℓ) : Type ℓ where
  more : Reader F → Round F
  done : Physical F → Round F

-- What `ReadMore` returns: `none` for true, and the error for false.
pub record Refill {ℓ} (F : Type ℓ) : Type ℓ where
  pub reader : Reader F
  pub error : Option ℕ
  pub drop_size : ℕ

-- `reporter_->Corruption(...)`, unless the reporter is null.
add_report : Option (List (ℕ × Status)) → ℕ × Status → Option (List (ℕ × Status))
add_report none report = none
add_report (some told) report = some (told ++ report ∷ [])

-- `const unsigned int type = header[6]`, from a signed `char`.
pub sign_extend : ℕ → ℕ
sign_extend c = if ltb c 128 then c else 2 ^ 32 - 256 + c

module _ {ℓ} {F : Type ℓ} where
  unfoldable pub new : F → Option (List (ℕ × Status)) → Bool → ℕ → ℕ → Reader F
  new file reporter checksum initial_offset log_num = record {
    file = file;
    reports = reporter;
    checksum = checksum;
    buffer = [];
    eof = false;
    read_error = false;
    eof_offset = 0;
    last_record_offset = 0;
    end_of_buffer_offset = 0;
    initial_offset = initial_offset;
    log_number = log_num;
    recycled = false;
  }

  unfoldable pub report_drop : Reader F → ℕ → Status → Reader F
  unfolding add_report
  report_drop r bytes reason =
      let start = sub64 (sub64 r.end_of_buffer_offset (length r.buffer)) bytes in
      if leb r.initial_offset start
      then record r { reports = add_report r.reports (bytes, reason) }
      else r

  unfoldable pub report_corruption : Reader F → ℕ → List ℕ → Reader F
  unfolding report_drop
  report_corruption r bytes reason = report_drop r bytes (corruption_status reason)

  -- `ReadPhysicalRecord` from the test of the record's length on.
  read_body : Reader F → ℕ → ℕ → ℕ → List ℕ → ℕ → Physical F
  read_body r size len type fragment drop_size =
      let b = r.buffer in
      let cleared = record r { buffer = [] } in
      let rest = record r { buffer = drop (size + len) b } in
      let start = sub64 (sub64 (sub64 r.end_of_buffer_offset (length b - (size + len))) size) len in
      if ltb (length b) (size + len)
      then record {
        reader = cleared;
        record_type =
            if not r.eof
            then bad_record_len
            else if not (length b == 0)
            then bad_header
            else eof_type;
        fragment = fragment;
        drop_size = length b;
      }
      else if type == 0 && len == 0
      then record {
        reader = cleared;
        record_type = bad_record;
        fragment = fragment;
        drop_size = drop_size;
      }
      else if r.checksum
          && not (value (take (len + size - 6) (drop 6 b)) == unmask (decode_fixed32 b))
      then record {
        reader = cleared;
        record_type = bad_record_checksum;
        fragment = fragment;
        drop_size = length b;
      }
      else if ltb start r.initial_offset
      then record { reader = rest; record_type = bad_record; fragment = []; drop_size = drop_size }
      else record {
        reader = rest;
        record_type = type;
        fragment = take len (drop size b);
        drop_size = drop_size;
      }

  -- A round of `ReadPhysicalRecord`.
  pub read_round : Reader F → List ℕ → ℕ → Round F
  unfolding sign_extend read_body
  read_round r fragment drop_size =
      let b = r.buffer in
      let len = bit_or (get_or b 4 0) (get_or b 5 0 * 2 ^ 8) in
      let type = sign_extend (get_or b 6 0) in
      let recyclable = leb 5 type && leb type 8 in
      let first = sub64 r.end_of_buffer_offset (length b) == 0 in
      let r₁ = if first then record r { recycled = true } else r in
      if ltb (length b) header_size
      then more r
      else if not recyclable
      then done (read_body r header_size len type fragment drop_size)
      else if ltb (length b) recyclable_header_size
      then more r₁
      else if not (decode_fixed32 (drop 7 b) == r.log_number)
      then done (record {
        reader = r₁;
        record_type = old_record;
        fragment = fragment;
        drop_size = drop_size;
      })
      else done (read_body r₁ recyclable_header_size len type fragment drop_size)

module _ {ℓ} {F : Type ℓ} (f : SequentialFile F) where
  -- The flag, and the reader as it is left.
  pub skip_to_initial_block : Reader F → Bool × Reader F
  skip_to_initial_block r =
      let in_block = r.initial_offset % block_size in
      let start = r.initial_offset - in_block in
      let location = if ltb (block_size - 6) in_block then add64 start block_size else start in
      let r₁ = record r { end_of_buffer_offset = location } in
      let (file, s) = f.skip location r.file in
      let r₂ = record r₁ { file = file } in
      if ltb 0 location
      then (if is_ok s then (true, r₂) else (false, report_drop r₂ location s))
      else (true, r₁)

  pub read_more : Reader F → ℕ → Refill F
  read_more r drop_size =
      let (file, s, bytes) = f.read block_size r.file in
      let end = add64 r.end_of_buffer_offset (length bytes) in
      let r₁ = record r { file = file; buffer = bytes; end_of_buffer_offset = end } in
      let failed = report_drop (record r₁ { buffer = [] }) block_size s in
      let short = record r₁ { eof = true; eof_offset = length bytes } in
      let emptied = record r { buffer = [] } in
      if not r.eof && not r.read_error
      then if not (is_ok s)
        then record {
          reader = record failed { read_error = true };
          error = some eof_type;
          drop_size = drop_size;
        }
        else record {
          reader = if ltb (length bytes) block_size then short else r₁;
          error = none;
          drop_size = drop_size;
        }
      else if ltb 0 (length r.buffer)
      then record { reader = emptied; error = some bad_header; drop_size = length r.buffer }
      else record { reader = emptied; error = some eof_type; drop_size = drop_size }

  -- The loop of `ReadPhysicalRecord`. `none` means that the rounds ran out.
  pub read_physical_loop : ℕ → Reader F → List ℕ → ℕ → Option (Physical F)
  read_physical_loop zero r fragment drop_size = none
  read_physical_loop (suc rounds) r fragment drop_size = elim (read_round r fragment drop_size) [
    | done p ↦ some p
    | more r₁ ↦
        let m = read_more r₁ drop_size in
        elim m.error [
          | none ↦ read_physical_loop rounds m.reader fragment m.drop_size
          | some e ↦ some (record {
            reader = m.reader;
            record_type = e;
            fragment = fragment;
            drop_size = m.drop_size;
          })
        ]
  ]

  -- Once it has read, the loop either parses or has met the end of the file.
  pub read_physical_record : Reader F → List ℕ → ℕ → Option (Physical F)
  read_physical_record r fragment drop_size = read_physical_loop 2 r fragment drop_size
