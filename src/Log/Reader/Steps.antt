-- ===== src/Log/Reader/Steps.antt =====
-- A round of `ReadRecord` at a fragment that is next, and at zeros that fill up a block.
use rocksutil.Base.{
  ℕ, suc, ◌+◌, ◌-◌, ◌≤◌, ◌<◌, ◌≡◌, refl, ◌∙◌, Bool, true, false, not, if◌then◌else◌, Bool-cases,
  inl, inr, Option, some, List, [], ◌++◌, length, replicate, All, IsByte, sub64, arith,
  length-append, length-replicate, take-append_eq, drop-append_eq,
}
use rocksutil.Log.{block_size, number, RecoveryMode}
use rocksutil.Log.Layout.{physical, type_of, size_of_header}
use rocksutil.Log.Reader.{Reader, SequentialFile}
use rocksutil.Log.Reader.Record.{
  Case, full, first, middle, last, case_of, Assembly, report_if, give_up, dispatch, record_round,
  read_record_loop,
}
use rocksutil.Log.Reader.State.{IsSource, IsClean, At, Ready}
use rocksutil.Log.Reader.Fragments.{took}
use rocksutil.Log.Reader.Ends.{took_zeros}

fragment_case : Bool → Bool → Case
fragment_case true true = full
fragment_case true false = first
fragment_case false false = middle
fragment_case false true = last

case_of-type_of :
    (recycle begin final : Bool)
    → case_of (number (type_of recycle begin final)) ≡ fragment_case begin final
unfolding case_of number type_of fragment_case
case_of-type_of true true true = refl
case_of-type_of true true false = refl
case_of-type_of true false true = refl
case_of-type_of true false false = refl
case_of-type_of false true true = refl
case_of-type_of false true false = refl
case_of-type_of false false true = refl
case_of-type_of false false false = refl

module _ {ℓ} {F : Type ℓ} (f : SequentialFile F) (remaining : F → List ℕ)
    (source : IsSource f remaining) (recycle : Bool) (n : ℕ) (mode : RecoveryMode) where
  -- What the loop leaves that has found a record.
  pub record Found (r : Reader F) (o : ℕ) (tail : List ℕ) (p : List ℕ)
      (result : Option (Reader F × Option (List ℕ))) : Type ℓ where
    pub after : Reader F
    pub returned : result ≡ some (after, some p)
    pub ready : Ready remaining after o tail
    pub sound : IsClean recycle n after
    pub reports : after.reports ≡ r.reports

  -- What is assembled after a fragment.
  abbrev pub joined : Assembly F → Bool → List ℕ → List ℕ
  joined a begin p = if begin then p else a.scratch ++ p

  pub ended :
      (rounds : ℕ) (begin : Bool) (a : Assembly F) (o : ℕ) (p tail : List ℕ)
      → a.in_fragmented_record ≡ not begin
      → IsClean recycle n a.reader
      → All IsByte p
      → o + (size_of_header recycle + length p) ≤ block_size
      → Ready remaining a.reader o (physical recycle n (type_of recycle begin true) p ++ tail)
      → Found a.reader
          (o + (size_of_header recycle + length p))
          tail
          (joined a begin p)
          (read_record_loop f (suc rounds) mode a)
  unfolding read_record_loop record_round dispatch fragment_case report_if Ready
  ended rounds true a o p tail inside sound bytes fits ready =
      let t =
        took f remaining source recycle n true true a.reader o p tail a.fragment 0 sound bytes fits
          ready in
      rw (read_record_loop, record_round, t.returned, case_of-type_of recycle true true, inside)
        (record {
          after = record (t.after) {
            last_record_offset = sub64 a.reader.end_of_buffer_offset (length a.reader.buffer);
          };
          returned = refl;
          ready = inl (record {
            offset = t.at.offset;
            buffer = t.at.buffer;
            file = t.at.file;
            eof = t.at.eof;
          });
          sound = record {
            no_error = t.sound.no_error;
            origin = t.sound.origin;
            log = t.sound.log;
          };
          reports = t.reports;
        })
  ended rounds false a o p tail inside sound bytes fits ready =
      let t =
        took f remaining source recycle n false true a.reader o p tail a.fragment 0 sound bytes fits
          ready in
      rw (read_record_loop, record_round, t.returned, case_of-type_of recycle false true, inside)
        (record {
          after = record (t.after) { last_record_offset = a.prospective_record_offset };
          returned = refl;
          ready = inl (record {
            offset = t.at.offset;
            buffer = t.at.buffer;
            file = t.at.file;
            eof = t.at.eof;
          });
          sound = record {
            no_error = t.sound.no_error;
            origin = t.sound.origin;
            log = t.sound.log;
          };
          reports = t.reports;
        })

  -- The loop goes on from `next`, at the offset `o` before `tail`, with `scratch` assembled.
  pub record Continued (a : Assembly F) (rounds : ℕ) (inside : Bool) (o : ℕ) (tail scratch : List ℕ)
      : Type ℓ where
    pub next : Assembly F
    pub goes : read_record_loop f (suc rounds) mode a ≡ read_record_loop f rounds mode next
    pub in_fragmented_record : next.in_fragmented_record ≡ inside
    pub ready : Ready remaining next.reader o tail
    pub sound : IsClean recycle n next.reader
    pub reports : next.reader.reports ≡ a.reader.reports
    pub assembled : inside ≡ true → next.scratch ≡ scratch

  pub continued :
      (rounds : ℕ) (begin : Bool) (a : Assembly F) (o : ℕ) (p tail : List ℕ)
      → a.in_fragmented_record ≡ not begin
      → IsClean recycle n a.reader
      → All IsByte p
      → o + (size_of_header recycle + length p) ≤ block_size
      → Ready remaining a.reader o (physical recycle n (type_of recycle begin false) p ++ tail)
      → Continued a rounds true (o + (size_of_header recycle + length p)) tail (joined a begin p)
  unfolding read_record_loop record_round dispatch fragment_case report_if Ready
  continued rounds true a o p tail inside sound bytes fits ready =
      let t =
        took f remaining source recycle n true false a.reader o p tail a.fragment 0 sound bytes fits
          ready in
      record {
        next = record {
          reader = t.after;
          in_fragmented_record = true;
          scratch = p;
          prospective_record_offset = sub64 a.reader.end_of_buffer_offset (length a.reader.buffer);
          fragment = p;
        };
        goes =
            rw
              (
                read_record_loop,
                record_round,
                t.returned,
                case_of-type_of recycle true false,
                inside,
              )
              refl;
        in_fragmented_record = refl;
        ready = inl t.at;
        sound = t.sound;
        reports = t.reports;
        assembled = λ e. refl;
      }
  continued rounds false a o p tail inside sound bytes fits ready =
      let t =
        took f remaining source recycle n false false a.reader o p tail a.fragment 0 sound bytes
          fits ready in
      record {
        next = record a { reader = t.after; scratch = a.scratch ++ p; fragment = p };
        goes =
            rw
              (
                read_record_loop,
                record_round,
                t.returned,
                case_of-type_of recycle false false,
                inside,
              )
              refl;
        in_fragmented_record = inside;
        ready = inl t.at;
        sound = t.sound;
        reports = t.reports;
        assembled = λ e. refl;
      }

  pub skipped :
      (rounds k : ℕ) (a : Assembly F) (o : ℕ) (s : List ℕ)
      → a.in_fragmented_record ≡ false
      → IsClean recycle n a.reader
      → o + k ≡ block_size
      → 7 ≤ k
      → 0 < length s
      → At remaining a.reader o (replicate k 0 ++ s)
      → Continued a rounds false 0 s []
  unfolding read_record_loop record_round dispatch give_up report_if case_of Ready
  skipped rounds k a o s inside sound fills long some_left at =
      let zeros : List ℕ = replicate k 0 in
      let room : block_size - o ≡ k = omega arith in
      let size : length zeros ≡ k = length-replicate k 0 in
      let buffer : a.reader.buffer ≡ zeros = at.buffer ∙ rw room (take-append_eq k zeros s size) in
      let file : remaining a.reader.file ≡ s = at.file ∙ rw room (drop-append_eq k zeros s size) in
      let open_file : a.reader.eof ≡ true → a.reader.eof ≡ false =
        λ e. absurd (ground (arith, at.eof e, length-append zeros s, size, room)) in
      let not_ended : a.reader.eof ≡ false = elim (Bool-cases a.reader.eof) [
        | inl e ↦ open_file e
        | inr e ↦ e
      ] in
      record {
        next = record a { reader = record (a.reader) { buffer = [] } };
        goes =
            rw
              (
                read_record_loop,
                record_round,
                took_zeros f remaining source recycle n a.reader k a.fragment 0 buffer long,
                inside,
              )
              refl;
        in_fragmented_record = inside;
        ready = inr (refl, record { buffer = omega arith; file = file; eof = not_ended });
        sound = record { no_error = sound.no_error; origin = sound.origin; log = sound.log };
        reports = refl;
        assembled = λ e. absurd (ground (arith, e));
      }
