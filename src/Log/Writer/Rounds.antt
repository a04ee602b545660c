-- ===== src/Log/Writer/Rounds.antt =====
-- A round of `AddRecord`, which writes a fragment and at most the trailer of a block before it.
use rocksutil.Base.{
  ℕ, ◌+◌, ◌-◌, ◌≤◌, ◌<◌, ◌≡◌, refl, sym, ap, ◌∙◌, subst, Bool, true, false, ltb, leb, ◌==◌, ==_refl,
  if◌then◌else◌, Bool-cases, inl, inr, ◌⊎◌, List, [], ◌++◌, append_assoc, length, take, drop, All,
  IsByte, arith, length-append, length-take, length-drop, take-append-drop, take_all, drop_all,
  All-take, All-drop,
}
use rocksutil.Log.{block_size}
use rocksutil.Log.Layout.{Laid, end, split, physical, type_of, size_of_header}
use rocksutil.Log.Writer.{
  Dest, Writer, type_crcs, fragment_type, emit_physical_record, switch_block, fragment_length,
  add_fragment,
}
use rocksutil.Status.{Status, is_ok}
use rocksutil.Log.Writer.Written.{IsSound, IsValid, emit-physical, fragment_type-type_of}
use rocksutil.Log.Writer.Blocks.{Switched, switch_block-Switched}

-- What a round leaves: `bytes` were written, and they end the record, or fill the block and leave
-- `left`.
pub record Advanced {ℓ} {W : Type ℓ} (contents : W → List ℕ) (w w₁ : Writer W) (begin : Bool)
    (p left : List ℕ) : Type ℓ where
  pub bytes : List ℕ
  pub written : contents w₁.dest ≡ contents w.dest ++ bytes
  pub valid : IsValid w₁
  pub log_number : w₁.log_number ≡ w.log_number
  pub recycle : w₁.recycle_log_files ≡ w.recycle_log_files
  pub left_bytes : All IsByte left
  pub shape :
      ((left ≡ [])
        × Laid w.recycle_log_files w.log_number w.block_offset begin p bytes w₁.block_offset)
      ⊎ ((0 < length left)
          × (w₁.block_offset ≡ block_size)
          × (length left ≤ length p)
          × (w.block_offset ≡ block_size → length left < length p)
          × ((more : List ℕ) (o' : ℕ)
              → Laid w.recycle_log_files w.log_number block_size false left more o'
              → Laid w.recycle_log_files w.log_number w.block_offset begin p (bytes ++ more) o'))

module _ {ℓ} {W : Type ℓ} (d : Dest W) (contents : W → List ℕ) (sound : IsSound d contents) where
  module _ (w w₁ : Writer W) (zeros : List ℕ) (sw : Switched contents w w₁ zeros)
      (crcs : w.type_crc ≡ type_crcs) (begin : Bool) where
    abbrev recycle : Bool
    recycle = w.recycle_log_files

    abbrev emitted : Bool → List ℕ → Writer W × Status
    emitted final p = emit_physical_record d w₁ (type_of recycle begin final) p

    emitted_lem :
        (final : Bool) (p : List ℕ)
        → All IsByte p
        → (is_ok (emitted final p).1 ≡ true)
          × (contents (emitted final p).0.dest
              ≡ contents w.dest
                ++ (zeros ++ physical recycle w.log_number (type_of recycle begin final) p))
    emitted_lem final p bytes =
        let (fine, written, _, _, _, _) =
          emit-physical d contents sound w₁ recycle begin final p (sw.crcs ∙ crcs) bytes in
        (
          fine,
          written
              ∙ ap (λ n. contents w₁.dest ++ physical recycle n (type_of recycle begin final) p)
                  sw.log_number
              ∙ ap (λ c. c ++ physical recycle w.log_number (type_of recycle begin final) p)
                  sw.written
              ∙ append_assoc (contents w.dest) zeros
                  (physical recycle w.log_number (type_of recycle begin final) p),
        )

    -- The last fragment of a record.
    ended :
        (p : List ℕ)
        → All IsByte p
        → w₁.block_offset + (size_of_header recycle + length p) ≤ block_size
        → Advanced contents w (emitted true p).0 begin p []
    ended p bytes fits =
        let (_, _, offset, crc, log, rec) =
          emit-physical d contents sound w₁ recycle begin true p (sw.crcs ∙ crcs) bytes in
        record {
          bytes = zeros ++ physical recycle w.log_number (type_of recycle begin true) p;
          written = (emitted_lem true p bytes).1;
          valid = record { offset = rw offset fits; crcs = crc ∙ sw.crcs ∙ crcs };
          log_number = log ∙ sw.log_number;
          recycle = rec ∙ sw.recycle;
          left_bytes = tt;
          shape = inl (refl, sw.laid begin p _ _ (end offset (rw offset fits)));
        }

    -- A fragment that fills its block.
    filled :
        (p left : List ℕ)
        → All IsByte p
        → All IsByte left
        → 0 < length left
        → block_size ≡ w₁.block_offset + (size_of_header recycle + length p)
        → Advanced contents w (emitted false p).0 begin (p ++ left) left
    filled p left bytes left_bytes some_left fills =
        let (_, _, offset, crc, log, rec) =
          emit-physical d contents sound w₁ recycle begin false p (sw.crcs ∙ crcs) bytes in
        let filled_up : (emitted false p).0.block_offset ≡ block_size = offset ∙ sym fills in
        record {
          bytes = zeros ++ physical recycle w.log_number (type_of recycle begin false) p;
          written = (emitted_lem false p bytes).1;
          valid = record { offset = omega arith; crcs = crc ∙ sw.crcs ∙ crcs };
          log_number = log ∙ sw.log_number;
          recycle = rec ∙ sw.recycle;
          left_bytes = left_bytes;
          shape = inr (
            some_left,
            filled_up,
            rw length-append (omega arith),
            λ e. ground (arith, e, sw.begun, sw.fits, fills, length-append p left),
            λ more o' l.
                rw
                  (append_assoc zeros
                    (physical recycle w.log_number (type_of recycle begin false) p) more)
                  (sw.laid begin (p ++ left) _ o' (split p left more fills some_left l)),
          );
        }

    -- Which of the two it is turns on the room that is left.
    abbrev room : ℕ
    room = block_size - w₁.block_offset - size_of_header recycle

    abbrev Outcome : List ℕ → ℕ → Bool → Type ℓ
    Outcome p n final =
        (is_ok (emit_physical_record d w₁ (fragment_type recycle begin final) (take n p)).1 ≡ true)
        × Advanced contents w
            (emit_physical_record d w₁ (fragment_type recycle begin final) (take n p)).0 begin p
            (drop n p)

    fits : (p : List ℕ) → All IsByte p → length p ≤ room → Outcome p (length p) true
    fits p bytes h =
        rw
          (
            (fragment_type-type_of recycle begin true).0,
            take_all (length p) p (omega arith),
            drop_all (length p) p (omega arith),
          )
          ((emitted_lem true p bytes).0, ended p bytes (ground (arith, sw.fits)))

    fills : (p : List ℕ) → All IsByte p → room < length p → Outcome p room false
    fills p bytes h =
        let front : List ℕ = take room p in
        let left : List ℕ = drop room p in
        let front_bytes : All IsByte front = All-take IsByte room p bytes in
        let size : length front ≡ room = length-take room p ∙ omega arith in
        let some_left : 0 < length left = rw (length-drop room p) (omega arith) in
        rw (fragment_type-type_of recycle begin false).0 (
          (emitted_lem false front front_bytes).0,
          subst (λ q. Advanced contents w (emitted false front).0 begin q left)
              (take-append-drop room p)
              (filled front left front_bytes (All-drop IsByte room p bytes) some_left
                (ground (arith, size, sw.fits))),
        )

    fits_or_fills :
        (p : List ℕ)
        → All IsByte p
        → let n : ℕ = if ltb (length p) room then length p else room in Outcome p n (length p == n)
    fits_or_fills p bytes =
        let n : ℕ = if ltb (length p) room then length p else room in
        elim (Bool-cases (leb (length p) room)) [
          | inl few ↦
              let all : n ≡ length p = ground arith in
              subst (λ k. Outcome p k (length p == k)) (sym all)
                (subst (Outcome p (length p)) (sym (==_refl (length p)))
                  (fits p bytes (ground arith)))
          | inr many ↦
              let part : n ≡ room = ground arith in
              let other : (length p == room) ≡ false = ground arith in
              subst (λ k. Outcome p k (length p == k)) (sym part)
                (subst (Outcome p room) (sym other) (fills p bytes (ground arith)))
        ]

  pub add_fragment-Advanced :
      (w : Writer W) (p : List ℕ) (begin : Bool)
      → IsValid w
      → All IsByte p
      → (is_ok (add_fragment d w p begin).1 ≡ true)
        × Advanced contents w (add_fragment d w p begin).0 begin p (add_fragment d w p begin).2
  unfolding add_fragment fragment_length
  add_fragment-Advanced w p begin valid bytes =
      let (zeros, sw) = switch_block-Switched d contents sound w valid.offset in
      let w₁ : Writer W = switch_block d w in
      let small : Bool → ℕ = size_of_header in
      subst
        (λ b.
          let avail : ℕ = block_size - w₁.block_offset - small b in
          let n : ℕ = if ltb (length p) avail then length p else avail in
          Outcome w w₁ zeros sw valid.crcs begin p n (length p == n))
        (sym sw.recycle) (fits_or_fills w w₁ zeros sw valid.crcs begin p bytes)
