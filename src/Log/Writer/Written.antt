-- ===== src/Log/Writer/Written.antt =====
-- What `AddRecord` writes to a destination that takes all that it is given.
use rocksutil.Base.{
  ℕ, ◌+◌, ◌/◌, ◌%◌, ◌≤◌, ◌≡◌, refl, ap, ◌∙◌, Bool, true, false, List, [], ◌∷◌, ◌++◌, append_assoc,
  length, All, IsByte, u32_mod, arith,
}
use rocksutil.Coding.{encode_fixed32}
use rocksutil.Coding.Fixed.{store_le-IsByte}
use rocksutil.Crc32c.{at, value, extend, mask}
use rocksutil.Crc32c.Extend.{extend-append}
use rocksutil.Log.{
  RecordType, zero_type, full_type, first_type, middle_type, last_type, recyclable_full_type,
  recyclable_first_type, recyclable_middle_type, recyclable_last_type, number, block_size,
}
use rocksutil.Log.Layout.{physical, type_of, size_of_header, log_bytes}
use rocksutil.Log.Writer.{
  Dest, Writer, type_crcs, fragment_type, is_recyclable, new, header, append_record,
  emit_physical_record,
}
use rocksutil.Status.{Status, is_ok}

-- A destination that takes all that it is given: nothing fails, and the bytes stand behind those
-- that were there.
pub record IsSound {ℓ} {W : Type ℓ} (d : Dest W) (contents : W → List ℕ) : Type ℓ where
  pub append_ok : (w : W) (bytes : List ℕ) → is_ok (d.append w bytes).1 ≡ true
  pub append_contents :
      (w : W) (bytes : List ℕ) → contents (d.append w bytes).0 ≡ contents w ++ bytes
  pub flush_ok : (w : W) → is_ok (d.flush w).1 ≡ true
  pub flush_contents : (w : W) → contents (d.flush w).0 ≡ contents w

-- A writer as the constructor and `AddRecord` leave it.
pub record IsValid {ℓ} {W : Type ℓ} (w : Writer W) : Type 0 where
  pub offset : w.block_offset ≤ block_size
  pub crcs : w.type_crc ≡ type_crcs

type_crc-value : (t : RecordType) → at type_crcs (number t) ≡ value (number t ∷ [])
unfolding type_crcs number
type_crc-value zero_type = refl
type_crc-value full_type = refl
type_crc-value first_type = refl
type_crc-value middle_type = refl
type_crc-value last_type = refl
type_crc-value recyclable_full_type = refl
type_crc-value recyclable_first_type = refl
type_crc-value recyclable_middle_type = refl
type_crc-value recyclable_last_type = refl

number-IsByte : (t : RecordType) → IsByte (number t)
unfolding number
number-IsByte zero_type = omega arith
number-IsByte t = omega arith

pub fragment_type-type_of :
    (recycle begin end : Bool)
    → (fragment_type recycle begin end ≡ type_of recycle begin end)
      × (is_recyclable (type_of recycle begin end) ≡ recycle)
unfolding fragment_type type_of number
fragment_type-type_of true true true = (refl, refl)
fragment_type-type_of true true false = (refl, refl)
fragment_type-type_of true false true = (refl, refl)
fragment_type-type_of true false false = (refl, refl)
fragment_type-type_of false true true = (refl, refl)
fragment_type-type_of false true false = (refl, refl)
fragment_type-type_of false false true = (refl, refl)
fragment_type-type_of false false false = (refl, refl)

joined_two :
    (t : ℕ) (p : List ℕ) → IsByte t → All IsByte p → extend (value (t ∷ [])) p ≡ value (t ∷ p)
unfolding value
joined_two t p ht hp = extend-append 0 (t ∷ []) p (omega arith) (ht, tt) hp

joined :
    (t : ℕ) (a p : List ℕ)
    → IsByte t
    → All IsByte a
    → All IsByte p
    → extend (extend (value (t ∷ [])) a) p ≡ value (t ∷ (a ++ p))
joined t a p ht ha hp =
    ap (λ c. extend c p) (joined_two t a ht ha)
    ∙ unfold value in extend-append 0 (t ∷ a) p (omega arith) (ht, ha) hp

module _ {ℓ} {W : Type ℓ} where
  header-physical :
      (w : Writer W) (t : RecordType) (p : List ℕ) (recycle : Bool)
      → w.type_crc ≡ type_crcs
      → is_recyclable t ≡ recycle
      → All IsByte p
      → header w t p ++ p ≡ physical recycle w.log_number t p
  unfolding header physical log_bytes encode_fixed32
  header-physical w t p true e same bytes =
      let number_bytes : List ℕ = encode_fixed32 (w.log_number % u32_mod) in
      rw
        (
          same,
          e,
          type_crc-value t,
          joined (number t) number_bytes p (number-IsByte t)
              (store_le-IsByte 4 (w.log_number % u32_mod)) bytes,
        )
        (append_assoc (encode_fixed32 (mask (value (number t ∷ (number_bytes ++ p)))))
          (length p % 256 ∷ length p / 256 % 256 ∷ number t ∷ number_bytes) p)
  header-physical w t p false e same bytes =
      rw (same, e, type_crc-value t, joined_two (number t) p (number-IsByte t) bytes)
        (append_assoc (encode_fixed32 (mask (value (number t ∷ p))))
          (length p % 256 ∷ length p / 256 % 256 ∷ number t ∷ []) p)

module _ {ℓ} {W : Type ℓ} (d : Dest W) (contents : W → List ℕ) (sound : IsSound d contents) where
  append_record_sound :
      (w : W) (a b : List ℕ)
      → (is_ok (append_record d w a b).1 ≡ true)
        × (contents (append_record d w a b).0 ≡ contents w ++ (a ++ b))
  unfolding append_record
  append_record_sound w a b =
      rw (sound.append_ok w a, sound.append_ok (d.append w a).0 b)
        (
          sound.flush_ok _,
          sound.flush_contents _
              ∙ sound.append_contents (d.append w a).0 b
              ∙ ap (λ c. c ++ b) (sound.append_contents w a)
              ∙ append_assoc (contents w) a b,
        )

  -- A physical record is written as the format has it.
  pub emit-physical :
      (w : Writer W) (recycle begin final : Bool) (p : List ℕ)
      → w.type_crc ≡ type_crcs
      → All IsByte p
      → let r : Writer W × Status = emit_physical_record d w (type_of recycle begin final) p in
        (is_ok r.1 ≡ true)
        × (contents r.0.dest
            ≡ contents w.dest ++ physical recycle w.log_number (type_of recycle begin final) p)
        × (r.0.block_offset ≡ w.block_offset + (size_of_header recycle + length p))
        × (r.0.type_crc ≡ w.type_crc)
        × (r.0.log_number ≡ w.log_number)
        × (r.0.recycle_log_files ≡ w.recycle_log_files)
  unfolding emit_physical_record
  emit-physical w recycle begin final p e bytes =
      let t = type_of recycle begin final in
      let (fine, whole) = append_record_sound w.dest (header w t p) p in
      let same = (fragment_type-type_of recycle begin final).1 in
      (
        fine,
        whole ∙ ap (λ b. contents w.dest ++ b) (header-physical w t p recycle e same bytes),
        rw same,
        refl,
        refl,
        refl,
      )

-- The constructor leaves a writer for a first record.
pub new-IsValid {ℓ} :
    {W : Type ℓ} (dest : W) (log_number : ℕ) (recycle : Bool)
    → IsValid (new dest log_number recycle)
unfolding new
new-IsValid dest log_number recycle = record { offset = omega arith; crcs = refl }
