-- ===== src/Log/RoundTrip.antt =====
-- rutil/log_writer.cc and rutil/log_reader.cc together: a writer that appends records in turn, as
-- examples/wal_example.cc does, and a reader that reads until `ReadRecord` returns false.
use rocksutil.Base.{
  ℕ, zero, suc, ◌<◌, ◌≡◌, refl, sym, ap, ◌∙◌, subst, Bool, true, ltb-zero, if◌then◌else◌, Option,
  none, some, List, [], ◌∷◌, ◌++◌, append_assoc, append-nil, length, All, IsByte, IsU32, arith,
  length-append, inr,
}
use rocksutil.Log.{RecoveryMode}
use rocksutil.Log.Layout.{Laid}
use rocksutil.Log.Writer.{Dest, Writer, add_record, new as new_writer}
use rocksutil.Log.Writer.Written.{IsSound, IsValid}
use rocksutil.Log.Writer.Records.{add_record-Wrote}
use rocksutil.Log.Reader.{new as new_reader, Reader, SequentialFile}
use rocksutil.Log.Reader.Record.{
  case_of, at_end, dispatch, report_if, read_record, read_record_loop, record_round, fresh,
}
use rocksutil.Log.Reader.State.{IsSource, IsClean, Ready}
use rocksutil.Log.Reader.Ends.{took_end}
use rocksutil.Log.Reader.Joins.{Laid-Found}
use rocksutil.Status.{Status, is_ok}

-- Records in turn, in so many rounds until `should_exit` is set. A record that could not be added
-- is tried again in the next round. `none` means that `AddRecord` did not return.
pub add_records {ℓ} : {W : Type ℓ} → Dest W → ℕ → Writer W → List (List ℕ) → Option (Writer W)
add_records d zero w ps = some w
add_records d (suc rounds) w [] = some w
add_records d (suc rounds) w (p ∷ ps) = elim (add_record d w p) [
  | none ↦ none
  | some (w₁, s) ↦ add_records d rounds w₁ (if is_ok s then ps else p ∷ ps)
]

-- Records until there is none, at most so many calls.
pub read_records {ℓ} :
    {F : Type ℓ}
    → SequentialFile F
    → ℕ
    → RecoveryMode
    → ℕ
    → Reader F
    → Option (Reader F × List (List ℕ))
read_records f rounds mode zero r = some (r, [])
read_records f rounds mode (suc calls) r = elim (read_record f rounds mode r) [
  | none ↦ none
  | some (r₁, found) ↦ elim found [
    | none ↦ some (r₁, [])
    | some p ↦ elim (read_records f rounds mode calls r₁) [
      | none ↦ none
      | some (r₂, ps) ↦ some (r₂, p ∷ ps)
    ]
  ]
]

-- Records that stand one behind the other.
data AllLaid (recycle : Bool) (n : ℕ) : ℕ → List (List ℕ) → List ℕ → Type 0 where
  nothing : {o : ℕ} → AllLaid recycle n o [] []
  behind :
      (p bytes more : List ℕ) (ps : List (List ℕ)) {o o' : ℕ}
      → Laid recycle n o true p bytes o'
      → AllLaid recycle n o' ps more
      → AllLaid recycle n o (p ∷ ps) (bytes ++ more)

module _ {ℓ} {W : Type ℓ} (d : Dest W) (contents : W → List ℕ) (sound : IsSound d contents) where
  record Added (w : Writer W) (ps : List (List ℕ)) : Type ℓ where
    after : Writer W
    bytes : List ℕ
    returned : add_records d (length ps) w ps ≡ some after
    written : contents after.dest ≡ contents w.dest ++ bytes
    laid : AllLaid w.recycle_log_files w.log_number w.block_offset ps bytes

  add_records-Added :
      (ps : List (List ℕ)) (w : Writer W) → IsValid w → All (All IsByte) ps → Added w ps
  unfolding add_records
  add_records-Added [] w valid bytes = record {
    after = w;
    bytes = [];
    returned = refl;
    written = sym (append-nil (contents w.dest));
    laid = nothing;
  }
  add_records-Added (p ∷ ps) w valid (byte, bytes) =
      let one = add_record-Wrote d contents sound w p valid byte in
      let rest = add_records-Added ps one.after one.valid bytes in
      let laid : AllLaid w.recycle_log_files w.log_number one.after.block_offset ps rest.bytes =
        subst (λ n. AllLaid w.recycle_log_files n one.after.block_offset ps rest.bytes)
          one.log_number
          (subst (λ b. AllLaid b one.after.log_number one.after.block_offset ps rest.bytes)
            one.recycle rest.laid) in
      record {
        after = rest.after;
        bytes = one.bytes ++ rest.bytes;
        returned = rw (add_records, one.returned, one.fine) rest.returned;
        written =
            rest.written
            ∙ ap (λ c. c ++ rest.bytes) one.written
            ∙ append_assoc (contents w.dest) one.bytes rest.bytes;
        laid = behind p one.bytes rest.bytes ps one.laid laid;
      }

module _ {ℓ} {F : Type ℓ} (f : SequentialFile F) (remaining : F → List ℕ)
    (source : IsSource f remaining) (recycle : Bool) (n : ℕ) (mode : RecoveryMode) where
  started :
      (rounds : ℕ) (r : Reader F)
      → IsClean recycle n r
      → read_record f rounds mode r ≡ read_record_loop f rounds mode (fresh f r)
  unfolding read_record
  started rounds r sound = rw (read_record, sound.origin, ltb-zero r.last_record_offset) refl

  -- `ReadRecord` returns false at the end, and reports nothing.
  finished :
      (rounds : ℕ) (r : Reader F) (o : ℕ)
      → IsClean recycle n r
      → Ready remaining r o []
      → (after : Reader F) × (read_record f (suc rounds) mode r ≡ some (after, none))
        × (after.reports ≡ r.reports)
  unfolding read_record_loop record_round dispatch at_end report_if case_of
  finished rounds r o sound ready =
      let e = took_end f remaining source recycle n r o [] 0 sound ready in
      (
        e.after,
        started (suc rounds) r sound ∙ rw (read_record_loop, record_round, e.returned) refl,
        e.reports,
      )

  -- What reading leaves that has got `ps`.
  record Read (rounds : ℕ) (r : Reader F) (ps : List (List ℕ)) : Type ℓ where
    after : Reader F
    returned : read_records f rounds mode (suc (length ps)) r ≡ some (after, ps)
    reports : after.reports ≡ r.reports

  AllLaid-Read :
      {o : ℕ} {ps : List (List ℕ)} {bytes : List ℕ}
      → AllLaid recycle n o ps bytes
      → (rounds : ℕ) (r : Reader F) → length bytes < rounds
      → IsClean recycle n r
      → All (All IsByte) ps
      → Ready remaining r o bytes
      → Read rounds r ps
  unfolding read_records
  AllLaid-Read nothing zero r enough sound bytes ready = absurd (omega arith)
  AllLaid-Read nothing (suc rounds) r enough sound bytes ready =
      let (after, returned, told) = finished rounds r _ sound ready in
      record { after = after; returned = rw (read_records, returned) refl; reports = told }
  AllLaid-Read (behind p bytes more ps laid rest) rounds r enough sound (byte, byte_lists) ready =
      let found =
        Laid-Found f remaining source recycle n mode laid rounds (fresh f r) more
          (ground (arith, length-append bytes more)) refl (λ e. absurd (ground (arith, e))) sound
          byte ready in
      let next =
        AllLaid-Read rest rounds found.after (ground (arith, length-append bytes more)) found.sound
          byte_lists found.ready in
      record {
        after = next.after;
        returned = rw (read_records, started rounds r sound ∙ found.returned, next.returned) refl;
        reports = next.reports ∙ found.reports;
      }

module _ {ℓ ℓ'} {W : Type ℓ} {F : Type ℓ'} (d : Dest W) (contents : W → List ℕ)
    (dest_sound : IsSound d contents) (f : SequentialFile F) (remaining : F → List ℕ)
    (source : IsSource f remaining) where
  new-IsClean :
      (recycle : Bool) (log_number : ℕ) (x : F) (reporter : Option (List (ℕ × Status)))
      (checksum : Bool)
      → IsU32 log_number
      → IsClean recycle log_number (new_reader x reporter checksum 0 log_number)
  unfolding new_reader
  new-IsClean recycle log_number x reporter checksum small = record {
    no_error = refl;
    origin = refl;
    log = λ e. omega arith;
  }

  -- Records that a new writer appends, each in a round, to an empty destination that takes all that it
  -- is given, are what a new reader of the file with the bytes that were written returns, in the same
  -- order and in any mode. It then returns false, and nothing is reported. The reader's log number is the
  -- writer's, below 2 ^ 32, and its initial offset is 0. As many rounds as the file has bytes, and
  -- one, are enough.
  pub read_records-add_records :
      (open_file : W → F) (recycle : Bool) (log_number : ℕ) (mode : RecoveryMode)
      (reporter : Option (List (ℕ × Status))) (checksum : Bool) (dest : W) (records : List (List ℕ))
      → ((y : W) → remaining (open_file y) ≡ contents y)
      → IsU32 log_number
      → contents dest ≡ []
      → All (All IsByte) records
      → (w : Writer W) × (r : Reader F) × (add_records d
            (length records)
            (new_writer dest log_number recycle)
            records
          ≡ some w)
        × (read_records f
              (suc (length (contents w.dest)))
              mode
              (suc (length records))
              (new_reader (open_file w.dest) reporter checksum 0 log_number)
            ≡ some (r, records))
        × (r.reports ≡ reporter)
  unfolding new_writer new_reader Ready
  read_records-add_records open_file recycle log_number mode reporter checksum dest records same
        small empty bytes =
      let w₀ : Writer W = new_writer dest log_number recycle in
      let a =
        add_records-Added d contents dest_sound records w₀
          (record { offset = omega arith; crcs = refl }) bytes in
      let whole : contents a.after.dest ≡ a.bytes = a.written ∙ ap (λ c. c ++ a.bytes) empty in
      let x : F = open_file a.after.dest in
      let read =
        AllLaid-Read f remaining source recycle log_number mode a.laid
          (suc (length (contents a.after.dest))) (new_reader x reporter checksum 0 log_number)
          (rw whole (omega arith)) (new-IsClean recycle log_number x reporter checksum small) bytes
          (inr (
            refl,
            record { buffer = omega arith; file = same a.after.dest ∙ whole; eof = refl },
          )) in
      (a.after, read.after, a.returned, read.returned, read.reports)
