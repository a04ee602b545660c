-- ===== src/Log/Reader/Record.antt =====
-- rutil/log_reader.cc: `ReadRecord`, which joins fragments into records, and `UnmarkEOF`.
use rocksutil.Base.{
  ℕ, zero, suc, ◌+◌, ◌-◌, ◌/◌, ◌%◌, Bool, true, false, not, ◌&&◌, ◌||◌, ltb, ◌==◌, if◌then◌else◌,
  Option, none, some, List, [], ◌∷◌, ◌++◌, length, add64, sub64, codes, String,
}
use rocksutil.Log.{
  RecoveryMode, tolerate_corrupted_tail_records, absolute_consistency, skip_any_corrupted_records,
  block_size,
}
use rocksutil.Log.Reader.{
  Reader, SequentialFile, report_drop, report_corruption, skip_to_initial_block,
  read_physical_record, eof_type, bad_record, bad_header, old_record, bad_record_len,
  bad_record_checksum,
}
use rocksutil.Status.{is_ok}

-- The labels of the `switch` on the record type.
pub data Case : Type 0 where
  full first middle last on_bad_header on_eof on_old_record on_bad_record on_bad_len on_bad_checksum
        unknown :
      Case

unfoldable pub case_of : ℕ → Case
case_of t =
    if t == 1 || t == 5
    then full
    else if t == 2 || t == 6
    then first
    else if t == 3 || t == 7
    then middle
    else if t == 4 || t == 8
    then last
    else if t == bad_header
    then on_bad_header
    else if t == eof_type
    then on_eof
    else if t == old_record
    then on_old_record
    else if t == bad_record
    then on_bad_record
    else if t == bad_record_len
    then on_bad_len
    else if t == bad_record_checksum
    then on_bad_checksum
    else unknown

-- The locals of `ReadRecord` and the string that it assembles.
pub record Assembly {ℓ} (F : Type ℓ) : Type ℓ where
  pub reader : Reader F
  pub in_fragmented_record : Bool
  pub scratch : List ℕ
  pub prospective_record_offset : ℕ
  pub fragment : List ℕ

-- A round of the loop goes on, or returns: the record for true, and `none` for false.
pub data Next {ℓ} (F : Type ℓ) : Type ℓ where
  again : Assembly F → Next F
  return : Reader F → Option (List ℕ) → Next F

-- `%u` of a 32-bit number, which has at most ten digits.
decimal : ℕ → ℕ → List ℕ → List ℕ
decimal zero n digits = digits
decimal (suc places) n digits =
    let digits₁ = (48 + n % 10) ∷ digits in
    if ltb n 10 then digits₁ else decimal places (n / 10) digits₁

pub unknown_type : ℕ → List ℕ
unknown_type type = codes "unknown record type " ++ decimal 10 type []

abbrev pub is_absolute : RecoveryMode → Bool
is_absolute absolute_consistency = true
is_absolute _ = false

abbrev pub is_tolerant : RecoveryMode → Bool
is_tolerant tolerate_corrupted_tail_records = true
is_tolerant _ = false

abbrev pub is_skipping : RecoveryMode → Bool
is_skipping skip_any_corrupted_records = true
is_skipping _ = false

module _ {ℓ} {F : Type ℓ} where
  unfoldable pub report_if : Bool → Reader F → ℕ → String → Reader F
  report_if test r bytes reason = if test then report_corruption r bytes (codes reason) else r

  -- The end of the input, with what is assembled so far.
  unfoldable pub at_end : RecoveryMode → Assembly F → Next F
  at_end mode a =
      return
        (report_if (a.in_fragmented_record && is_absolute mode) a.reader (length a.scratch)
          "error reading trailing data")
        none

  -- What is assembled so far is given up.
  unfoldable pub give_up : Assembly F → Next F
  give_up a = again (record a {
    reader =
        report_if a.in_fragmented_record a.reader (length a.scratch) "error in middle of record";
    in_fragmented_record = false;
    scratch = if a.in_fragmented_record then [] else a.scratch;
  })

  unfoldable pub bad : RecoveryMode → Assembly F → ℕ → String → Next F
  bad mode a drop_size reason =
      if a.reader.recycled && is_tolerant mode
      then return a.reader none
      else give_up (record a { reader = report_corruption a.reader drop_size (codes reason) })

  -- The body of the `switch`. `offset` is the physical offset of the record that was read, and the
  -- assembly holds the reader and the fragment that `ReadPhysicalRecord` left.
  unfoldable pub dispatch : Case → RecoveryMode → Assembly F → ℕ → ℕ → ℕ → Next F
  dispatch full mode a offset drop_size type =
      let partial = a.in_fragmented_record && ltb 0 (length a.scratch) in
      let r = report_if partial a.reader (length a.scratch) "partial record without end(1)" in
      return (record r { last_record_offset = offset }) (some a.fragment)
  dispatch first mode a offset drop_size type =
      let partial = a.in_fragmented_record && ltb 0 (length a.scratch) in
      again (record a {
        reader = report_if partial a.reader (length a.scratch) "partial record without end(2)";
        in_fragmented_record = true;
        scratch = a.fragment;
        prospective_record_offset = offset;
      })
  dispatch middle mode a offset drop_size type =
      if not a.in_fragmented_record
      then again (record a {
        reader =
            report_corruption a.reader (length a.fragment)
              (codes "missing start of fragmented record(1)");
      })
      else again (record a { scratch = a.scratch ++ a.fragment })
  dispatch last mode a offset drop_size type =
      if not a.in_fragmented_record
      then again (record a {
        reader =
            report_corruption a.reader (length a.fragment)
              (codes "missing start of fragmented record(2)");
      })
      else return (record (a.reader) { last_record_offset = a.prospective_record_offset })
          (some (a.scratch ++ a.fragment))
  dispatch on_bad_header mode a offset drop_size type =
      at_end mode
        (record a { reader = report_if (is_absolute mode) a.reader drop_size "truncated header" })
  dispatch on_eof mode a offset drop_size type = at_end mode a
  dispatch on_old_record mode a offset drop_size type =
      if not (is_skipping mode) then at_end mode a else give_up a
  dispatch on_bad_record mode a offset drop_size type = give_up a
  dispatch on_bad_len mode a offset drop_size type = bad mode a drop_size "bad record length"
  dispatch on_bad_checksum mode a offset drop_size type = bad mode a drop_size "checksum mismatch"
  dispatch unknown mode a offset drop_size type =
      let dropped = length a.fragment + (if a.in_fragmented_record then length a.scratch else 0) in
      again (record a {
        reader = report_corruption a.reader dropped (unknown_type type);
        in_fragmented_record = false;
        scratch = [];
      })

module _ {ℓ} {F : Type ℓ} (f : SequentialFile F) where
  -- A round of the loop of `ReadRecord`.
  unfoldable pub record_round : RecoveryMode → Assembly F → Option (Next F)
  record_round mode a =
      let offset = sub64 a.reader.end_of_buffer_offset (length a.reader.buffer) in
      elim (read_physical_record f a.reader a.fragment 0) [
        | none ↦ none
        | some p ↦
            let a₁ = record a { reader = p.reader; fragment = p.fragment } in
            some (dispatch (case_of p.record_type) mode a₁ offset p.drop_size p.record_type)
      ]

  -- The loop of `ReadRecord`. `none` means that the rounds ran out.
  unfoldable pub read_record_loop :
      ℕ → RecoveryMode → Assembly F → Option (Reader F × Option (List ℕ))
  read_record_loop zero mode a = none
  read_record_loop (suc rounds) mode a = elim (record_round mode a) [
    | none ↦ none
    | some n ↦ elim n [
      | again a₁ ↦ read_record_loop rounds mode a₁
      | return r result ↦ some (r, result)
    ]
  ]

  abbrev pub fresh : Reader F → Assembly F
  fresh r = record {
    reader = r;
    in_fragmented_record = false;
    scratch = [];
    prospective_record_offset = 0;
    fragment = [];
  }

  unfoldable pub read_record : ℕ → RecoveryMode → Reader F → Option (Reader F × Option (List ℕ))
  read_record rounds mode r =
      let (found, r₁) = skip_to_initial_block f r in
      if ltb r.last_record_offset r.initial_offset
      then (if found then read_record_loop rounds mode (fresh r₁) else some (r₁, none))
      else read_record_loop rounds mode (fresh r)

  unfoldable pub unmark_eof : Reader F → Reader F
  unmark_eof r =
      let remaining = block_size - r.eof_offset in
      let (file, s, bytes) = f.read remaining r.file in
      let added = length bytes in
      let r₁ = record r {
        file = file;
        eof = false;
        end_of_buffer_offset = add64 r.end_of_buffer_offset added;
      } in
      let failed = if ltb 0 added then report_drop r₁ added s else r₁ in
      let filled = record r₁ { buffer = r.buffer ++ bytes } in
      if r.read_error
      then r
      else if r.eof_offset == 0
      then record r { eof = false }
      else if not (is_ok s)
      then record failed { read_error = true }
      else if ltb added remaining
      then record filled { eof = true; eof_offset = r.eof_offset + added }
      else record filled { eof_offset = 0 }
