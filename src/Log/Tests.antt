-- ===== src/Log/Tests.antt =====
-- The writer and the reader of rutil/ on a destination and a file that are lists of bytes.
use rocksutil.Base.{
  ℕ, suc, ◌≡◌, ◌≢◌, refl, true, false, none, some, List, [], ◌∷◌, ◌++◌, length, take, drop,
  replicate, arith,
}
use rocksutil.Log.{
  absolute_consistency, point_in_time_recovery, skip_any_corrupted_records, recyclable_full_type,
}
use rocksutil.Log.Layout.{physical, type_of}
use rocksutil.Log.Wide.{read_physical_record-emit_physical_record_wide}
use rocksutil.Log.Writer.{emit_physical_record, Dest, Writer, add_record, new as new_writer}
use rocksutil.Log.Writer.Written.{IsValid, emit-physical, IsSound, new-IsValid}
use rocksutil.Log.Writer.Records.{Wrote, add_record-Wrote}
use rocksutil.Log.Reader.{
  old_record, Reader, SequentialFile, read_physical_record, new as new_reader,
}
use rocksutil.Log.Reader.Record.{Assembly, fresh, read_record_loop}
use rocksutil.Log.Reader.State.{IsSource}
use rocksutil.Log.Reader.Rounds.{read_physical_record-ne-none}
use rocksutil.Log.Reader.Old.{physical-IsOld, old_record-loops, old_record-ends}
use rocksutil.Log.Layout.{end}
use rocksutil.Log.Reader.State.{Ready}
use rocksutil.Log.Reader.Fragments.{length-physical}
use rocksutil.Log.Reader.Steps.{Found}
use rocksutil.Log.Reader.Joins.{Laid-Found}
use rocksutil.Log.{full_type}
use rocksutil.Base.{◌≤◌, inr}
use rocksutil.Log.RoundTrip.{add_records, read_records, read_records-add_records}
use rocksutil.Status.{ok_status}

abbrev bytes_dest : Dest (List ℕ)
bytes_dest = record { append = λ w bytes. (w ++ bytes, ok_status); flush = λ w. (w, ok_status) }

abbrev bytes_file : SequentialFile (List ℕ)
bytes_file = record {
  read = λ n x. (drop n x, ok_status, take n x);
  skip = λ n x. (drop n x, ok_status);
}

abbrev same_bytes : List ℕ → List ℕ
same_bytes x = x

dest_sound : IsSound bytes_dest same_bytes
dest_sound = record {
  append_ok = λ w bytes. refl;
  append_contents = λ w bytes. refl;
  flush_ok = λ w. refl;
  flush_contents = λ w. refl;
}

file-IsSource : IsSource bytes_file same_bytes
file-IsSource = record { fine = λ n x. refl; bytes = λ n x. refl; left = λ n x. refl }

abbrev two_records : List (List ℕ)
two_records = (65 ∷ 66 ∷ 67 ∷ []) ∷ (68 ∷ []) ∷ []

read_records-add_records_example :
    (w : Writer (List ℕ)) × (r : Reader (List ℕ)) × (add_records bytes_dest 2
        (new_writer [] 7 true)
        two_records
      ≡ some w)
    × (read_records bytes_file
          (suc (length w.dest))
          absolute_consistency
          3
          (new_reader w.dest none true 0 7)
        ≡ some (r, two_records))
    × (r.reports ≡ none)
read_records-add_records_example =
    read_records-add_records bytes_dest same_bytes dest_sound bytes_file same_bytes file-IsSource
      same_bytes true 7 absolute_consistency none true [] two_records (λ y. refl) (omega arith) refl
      ((omega arith, (omega arith, (omega arith, tt))), ((omega arith, tt), tt))

add_record-Wrote_example :
    Wrote bytes_dest same_bytes dest_sound
      (new_writer [] 7 false)
      true
      (65 ∷ 66 ∷ [])
      (add_record bytes_dest (new_writer [] 7 false) (65 ∷ 66 ∷ []))
add_record-Wrote_example =
    add_record-Wrote bytes_dest same_bytes dest_sound (new_writer [] 7 false) (65 ∷ 66 ∷ [])
      (new-IsValid [] 7 false) (omega arith, (omega arith, tt))

read_physical_record-ne-none_example :
    read_physical_record bytes_file (new_reader (replicate 20 1) none true 0 0) [] 0 ≢ none
read_physical_record-ne-none_example =
    read_physical_record-ne-none bytes_file (new_reader (replicate 20 1) none true 0 0) [] 0

-- A reader with log number 2 ^ 32 + 7 whose buffer holds a record of a writer with this number.
abbrev wide : ℕ
wide = 4294967303

abbrev old_bytes : List ℕ
old_bytes = physical true wide recyclable_full_type (65 ∷ []) ++ []

abbrev stuck_reader : Assembly (List ℕ)
stuck_reader = fresh bytes_file (record (new_reader [] none true 0 wide) { buffer = old_bytes })

abbrev wide_reader : Reader (List ℕ)
wide_reader = record (new_reader [] none true 0 wide) { buffer = old_bytes }

wide-IsValid : IsValid (new_writer {W = List ℕ} [] wide true)
wide-IsValid = new-IsValid [] wide true

wide_bytes :
    (emit_physical_record bytes_dest
      (new_writer [] wide true)
      (type_of true true true)
      (65 ∷ [])).0.dest
    ≡ [] ++ physical true wide (type_of true true true) (65 ∷ [])
unfolding new_writer
wide_bytes =
    (emit-physical bytes_dest same_bytes dest_sound (new_writer [] wide true) true true true
      (65 ∷ []) wide-IsValid.crcs (omega arith, tt)).1

read_physical_record-emit_physical_record_wide_example :
    (after : Reader (List ℕ)) × (read_physical_record bytes_file wide_reader [] 0
      ≡ some (record { reader = after; record_type = old_record; fragment = []; drop_size = 0 }))
    × (after.buffer ≡ wide_reader.buffer)
unfolding type_of new_reader new_writer
read_physical_record-emit_physical_record_wide_example =
    read_physical_record-emit_physical_record_wide bytes_dest same_bytes dest_sound bytes_file
      (new_writer [] wide true) wide_reader true true (65 ∷ [])
      (physical true wide (type_of true true true) (65 ∷ [])) [] [] 0 wide-IsValid.crcs
      (omega arith, tt) (omega arith) refl wide_bytes refl

old_record-loops_example :
    read_record_loop bytes_file 5 skip_any_corrupted_records stuck_reader ≡ none
unfolding type_of new_reader
old_record-loops_example =
    old_record-loops bytes_file 5 stuck_reader
      (physical-IsOld wide true true (65 ∷ []) [] (omega arith))

old_record-ends_example :
    (r : Reader (List ℕ)) × (read_record_loop bytes_file 3 point_in_time_recovery stuck_reader
      ≡ some (r, none))
    × (r.buffer ≡ old_bytes)
unfolding type_of new_reader
old_record-ends_example =
    old_record-ends bytes_file 2 point_in_time_recovery stuck_reader
      (physical-IsOld wide true true (65 ∷ []) [] (omega arith)) refl

-- One record in a file of its own.
abbrev one_record : List ℕ
one_record = physical false 7 full_type (65 ∷ [])

abbrev new_assembly : Assembly (List ℕ)
new_assembly = fresh bytes_file (new_reader (one_record ++ []) none true 0 7)

one_record-short : length one_record ≤ 8
one_record-short = omega (arith, length-physical false 7 full_type (65 ∷ []))

Laid-Found_example :
    Found bytes_file same_bytes file-IsSource false 7 absolute_consistency new_assembly.reader 8 []
      (65 ∷ [])
      (read_record_loop bytes_file 8 absolute_consistency new_assembly)
unfolding new_reader Ready type_of
Laid-Found_example =
    Laid-Found bytes_file same_bytes file-IsSource false 7 absolute_consistency {o = 0} {o' = 8}
      {begin = true} {p = 65 ∷ []} {bytes = one_record} (end refl (omega arith)) 8 new_assembly []
      one_record-short refl (λ e. absurd (ground (arith, e)))
      (record { no_error = refl; origin = refl; log = λ e. absurd (ground (arith, e)) })
      (omega arith, tt) (inr (refl, record { buffer = omega arith; file = refl; eof = refl }))
