-- ===== src/Log/Wide.antt =====
-- rutil/log_writer.cc and rutil/log_reader.cc together: a log number of more than 32 bits.
use rocksutil.Base.{
  ℕ, ◌≤◌, ◌≡◌, ◌∙◌, sym, Bool, true, some, List, [], ◌∷◌, ◌++◌, All, IsByte, u32_mod,
}
use rocksutil.Log.Layout.{physical, type_of}
use rocksutil.Log.Writer.{Dest, Writer, emit_physical_record, type_crcs}
use rocksutil.Log.Writer.Written.{IsSound, emit-physical}
use rocksutil.Log.Reader.{Reader, SequentialFile, read_physical_record, old_record}
use rocksutil.Log.Reader.Old.{IsOld, physical-IsOld, old-old_record}

append_cancel_left : (xs ys zs : List ℕ) → xs ++ ys ≡ xs ++ zs → ys ≡ zs
append_cancel_left [] ys zs e = e
append_cancel_left (x ∷ xs) ys zs e = append_cancel_left xs ys zs (cc)

module _ {ℓ} {W : Type ℓ} (d : Dest W) (contents : W → List ℕ) (sound : IsSound d contents)
    {F : Type ℓ} (f : SequentialFile F) where
  -- A writer and a reader with the same log number, of 2 ^ 32 or more. The bytes that
  -- `EmitPhysicalRecord` appends for a recyclable record of any kind, to a destination that takes
  -- all that it is given, are another log's to the reader: with these bytes at the front of its
  -- buffer `ReadPhysicalRecord` returns `kOldRecord`, and the buffer stays as it is.
  pub read_physical_record-emit_physical_record_wide :
      (w : Writer W) (r : Reader F) (begin final : Bool) (p bytes rest fragment : List ℕ)
      (drop_size : ℕ)
      → w.type_crc ≡ type_crcs
      → All IsByte p
      → u32_mod ≤ w.log_number
      → r.log_number ≡ w.log_number
      → contents (emit_physical_record d w (type_of true begin final) p).0.dest
        ≡ contents w.dest ++ bytes
      → r.buffer ≡ bytes ++ rest
      → (after : Reader F) × (read_physical_record f r fragment drop_size
          ≡ some (record {
            reader = after;
            record_type = old_record;
            fragment = fragment;
            drop_size = drop_size;
          }))
        × (after.buffer ≡ r.buffer)
  read_physical_record-emit_physical_record_wide w r begin final p bytes rest fragment drop_size
        crcs byte wide same emitted stands =
      let written = emit-physical d contents sound w true begin final p crcs byte in
      let laid : bytes ≡ physical true w.log_number (type_of true begin final) p =
        append_cancel_left (contents w.dest) bytes
          (physical true w.log_number (type_of true begin final) p) (sym emitted ∙ written.1) in
      let old : IsOld r.buffer r.log_number =
        rw (stands, laid, same) (physical-IsOld w.log_number begin final p rest wide) in
      old-old_record f r fragment drop_size old
