-- ===== src/Log/Reader/Old.antt =====
-- rutil/log_reader.cc: a recyclable record whose log number is not the reader's.
use rocksutil.Base.{
  ℕ, zero, suc, ◌%◌, ◌≤◌, ◌<◌, ◌≡◌, refl, sym, ◌∙◌, subst, Bool, true, false, ◌&&◌, ltb, leb, ◌==◌,
  if◌then◌else◌, Bool-cases, inl, inr, String, none, some, List, [], ◌++◌, u32_mod, length, drop,
  get_or, sub64, arith,
}
use rocksutil.Coding.{decode_fixed32, encode_fixed32, store_le}
use rocksutil.Coding.Fixed.{decode_fixed32-encode_fixed32}
use rocksutil.Log.Layout.{physical, type_of, log_bytes}
use rocksutil.Log.Reader.Fragments.{recyclable_number}
use rocksutil.Log.{RecoveryMode, skip_any_corrupted_records}
use rocksutil.Log.Reader.{
  Reader, SequentialFile, sign_extend, read_round, read_physical_loop, read_physical_record,
  old_record, report_corruption, report_drop,
}
use rocksutil.Log.Reader.Record.{
  case_of, Assembly, again, is_skipping, is_absolute, at_end, give_up, dispatch, report_if,
  record_round, read_record_loop,
}

-- The buffer begins with the header of a recyclable record, whose log number is another one.
pub record IsOld (buffer : List ℕ) (log_number : ℕ) : Type 0 where
  pub long : 11 ≤ length buffer
  pub low : 5 ≤ get_or buffer 6 0
  pub high : get_or buffer 6 0 ≤ 8
  pub other : (decode_fixed32 (drop 7 buffer) == log_number) ≡ false

-- A log number of more than 32 bits: a recyclable record holds its low 32 bits, and the reader
-- compares them with all 64. So the record that a writer makes for a log number from 2 ^ 32 on is
-- another log's to a reader with this very log number.
pub physical-IsOld :
    (log_number : ℕ) (begin final : Bool) (p rest : List ℕ)
    → u32_mod ≤ log_number
    → IsOld (physical true log_number (type_of true begin final) p ++ rest) log_number
unfolding physical log_bytes encode_fixed32 store_le
physical-IsOld log_number begin final p rest wide =
    let (low, high) = recyclable_number begin final in
    let small : log_number % u32_mod < u32_mod = omega arith in
    let stored : decode_fixed32 (encode_fixed32 (log_number % u32_mod) ++ (p ++ rest))
        ≡ log_number % u32_mod =
      decode_fixed32-encode_fixed32 (log_number % u32_mod) (p ++ rest) small in
    let differs : (log_number % u32_mod == log_number) ≡ false = ground arith in
    record { long = omega arith; low = omega arith; high = omega arith; other = rw stored differs }

module _ {ℓ} {F : Type ℓ} (f : SequentialFile F) where
  -- The reader keeps its buffer.
  record Kept (r : Reader F) (fragment : List ℕ) (drop_size : ℕ) : Type ℓ where
    after : Reader F
    returned :
        read_physical_record f r fragment drop_size
        ≡ some (record {
          reader = after;
          record_type = old_record;
          fragment = fragment;
          drop_size = drop_size;
        })
    buffer : after.buffer ≡ r.buffer
    log_number : after.log_number ≡ r.log_number

  old-Kept :
      (r : Reader F) (fragment : List ℕ) (drop_size : ℕ)
      → IsOld r.buffer r.log_number
      → Kept r fragment drop_size
  unfolding read_physical_record read_physical_loop read_round sign_extend
  old-Kept r fragment drop_size old =
      let b : List ℕ = r.buffer in
      let signed : sign_extend (get_or b 6 0) ≡ get_or b 6 0 = ground (arith, old.high) in
      let long : ltb (length b) 7 ≡ false = ground (arith, old.long) in
      let longer : ltb (length b) 11 ≡ false = ground (arith, old.long) in
      let recyclable : (leb 5 (get_or b 6 0) && leb (get_or b 6 0) 8) ≡ true =
        ground (arith, old.low, old.high) in
      let first : Bool = sub64 r.end_of_buffer_offset (length b) == 0 in
      elim (Bool-cases first) [
        | inl at_start ↦ record {
          after = record r { recycled = true };
          returned =
              rw
                (
                  read_physical_record, read_physical_loop, read_round, long, signed, recyclable,
                  longer, old.other, at_start,
                )
                refl;
          buffer = refl;
          log_number = refl;
        }
        | inr later ↦ record {
          after = r;
          returned =
              rw
                (
                  read_physical_record, read_physical_loop, read_round, long, signed, recyclable,
                  longer, old.other, later,
                )
                refl;
          buffer = refl;
          log_number = refl;
        }
      ]

  -- `ReadPhysicalRecord` reports such a record as an old one and leaves it in the buffer.
  pub old-old_record :
      (r : Reader F) (fragment : List ℕ) (drop_size : ℕ)
      → IsOld r.buffer r.log_number
      → (after : Reader F) × (read_physical_record f r fragment drop_size
          ≡ some (record {
            reader = after;
            record_type = old_record;
            fragment = fragment;
            drop_size = drop_size;
          }))
        × (after.buffer ≡ r.buffer)
  old-old_record r fragment drop_size old =
      let k = old-Kept r fragment drop_size old in (k.after, k.returned, k.buffer)

  report_if-keeps :
      (test : Bool) (r : Reader F) (bytes : ℕ) (reason : String)
      → ((report_if test r bytes reason).buffer ≡ r.buffer)
        × ((report_if test r bytes reason).log_number ≡ r.log_number)
  unfolding report_if report_corruption report_drop
  report_if-keeps test r bytes reason = ground arith

  IsOld-again :
      (a : Assembly F)
      → IsOld a.reader.buffer a.reader.log_number
      → (a₁ : Assembly F) × (record_round f skip_any_corrupted_records a ≡ some (again a₁))
        × IsOld a₁.reader.buffer a₁.reader.log_number
  unfolding record_round dispatch give_up case_of
  IsOld-again a old =
      let k = old-Kept a.reader a.fragment 0 old in
      let r : Reader F =
        report_if a.in_fragmented_record k.after (length a.scratch) "error in middle of record" in
      let (buffer, log_number) =
        report_if-keeps a.in_fragmented_record k.after (length a.scratch)
          "error in middle of record" in
      (
        record a {
          reader = r;
          in_fragmented_record = false;
          scratch = if a.in_fragmented_record then [] else a.scratch;
        },
        rw (record_round, k.returned) refl,
        subst (λ b. IsOld b r.log_number) (sym (buffer ∙ k.buffer))
            (subst (IsOld a.reader.buffer) (sym (log_number ∙ k.log_number)) old),
      )

  -- In the mode that skips any corrupted record, the loop of `ReadRecord` does not return once the
  -- buffer begins with a recyclable record of another log number: whatever the number of rounds is,
  -- it runs out.
  pub old_record-loops :
      (rounds : ℕ) (a : Assembly F)
      → IsOld a.reader.buffer a.reader.log_number
      → read_record_loop f rounds skip_any_corrupted_records a ≡ none
  unfolding read_record_loop
  old_record-loops zero a old = refl
  old_record-loops (suc rounds) a old =
      let (a₁, goes, still) = IsOld-again a old in
      rw (read_record_loop, goes) (old_record-loops rounds a₁ still)

  -- In any other mode `ReadRecord` takes such a record as the end of the log: within one round it
  -- returns false, and the buffer stays as it is.
  pub old_record-ends :
      (rounds : ℕ) (mode : RecoveryMode) (a : Assembly F)
      → IsOld a.reader.buffer a.reader.log_number
      → is_skipping mode ≡ false
      → (r : Reader F) × (read_record_loop f (suc rounds) mode a ≡ some (r, none))
        × (r.buffer ≡ a.reader.buffer)
  unfolding read_record_loop record_round dispatch at_end case_of
  old_record-ends rounds mode a old other =
      let k = old-Kept a.reader a.fragment 0 old in
      let test : Bool = a.in_fragmented_record && is_absolute mode in
      (
        report_if test k.after (length a.scratch) "error reading trailing data",
        rw (read_record_loop, record_round, k.returned, other) refl,
        (report_if-keeps test k.after (length a.scratch) "error reading trailing data").0
            ∙ k.buffer,
      )
