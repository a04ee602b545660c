-- ===== src/Log/Reader/State.antt =====
-- The reader at an offset of a block of a file that a sequential reader reads in order.
use rocksutil.Base.{
  ℕ, ◌-◌, ◌%◌, ◌≤◌, ◌<◌, ◌≡◌, refl, ap, ◌∙◌, Bool, true, false, ltb, Bool-cases, inl, inr, ◌⊎◌,
  none, some, List, [], length, take, drop, u32_mod, arith, length-take,
}
use rocksutil.Log.{block_size}
use rocksutil.Log.Reader.{Reader, SequentialFile, Refill, read_more, eof_type}
use rocksutil.Status.{is_ok}

-- A file that holds the bytes `remaining`, and hands them out in order.
pub record IsSource {ℓ} {F : Type ℓ} (f : SequentialFile F) (remaining : F → List ℕ) : Type ℓ where
  pub fine : (n : ℕ) (x : F) → is_ok (f.read n x).1 ≡ true
  pub bytes : (n : ℕ) (x : F) → (f.read n x).2 ≡ take n (remaining x)
  pub left : (n : ℕ) (x : F) → remaining (f.read n x).0 ≡ drop n (remaining x)

-- A reader that starts at the front of its file, has met no error, and expects the log number.
pub record IsClean {ℓ} {F : Type ℓ} (recycle : Bool) (log_number : ℕ) (r : Reader F) : Type ℓ where
  pub no_error : r.read_error ≡ false
  pub origin : r.initial_offset ≡ 0
  pub log : recycle ≡ true → r.log_number ≡ log_number % u32_mod

-- `s` is what the reader has still to parse, from the offset `o` of a block on.
pub record At {ℓ} {F : Type ℓ} (remaining : F → List ℕ) (r : Reader F) (o : ℕ) (s : List ℕ)
    : Type ℓ where
  pub offset : o ≤ block_size
  pub buffer : r.buffer ≡ take (block_size - o) s
  pub file : remaining r.file ≡ drop (block_size - o) s
  pub eof : r.eof ≡ true → length s ≤ block_size - o

-- The buffer holds no header, and `s` is what the file holds.
pub record Short {ℓ} {F : Type ℓ} (remaining : F → List ℕ) (r : Reader F) (s : List ℕ)
    : Type ℓ where
  pub buffer : length r.buffer < 7
  pub file : remaining r.file ≡ s
  pub eof : r.eof ≡ false

unfoldable pub Ready {ℓ} : {F : Type ℓ} → (F → List ℕ) → Reader F → ℕ → List ℕ → Type ℓ
Ready remaining r o s = At remaining r o s ⊎ ((o ≡ 0) × Short remaining r s)

module _ {ℓ} {F : Type ℓ} (f : SequentialFile F) (remaining : F → List ℕ)
    (source : IsSource f remaining) (recycle : Bool) (log_number : ℕ) where
  -- `ReadMore` gets the next block.
  pub read_more-At :
      (r : Reader F) (s : List ℕ) (drop_size : ℕ)
      → IsClean recycle log_number r
      → Short remaining r s
      → let m : Refill F = read_more f r drop_size in
        (m.error ≡ none)
        × (m.drop_size ≡ drop_size)
        × At remaining m.reader 0 s
        × (m.reader.reports ≡ r.reports)
        × IsClean recycle log_number m.reader
  unfolding read_more
  read_more-At r s drop_size sound short =
      let bytes : List ℕ = (f.read block_size r.file).2 in
      let taken : bytes ≡ take block_size s =
        source.bytes block_size r.file ∙ ap (take block_size) short.file in
      let left : remaining (f.read block_size r.file).0 ≡ drop block_size s =
        source.left block_size r.file ∙ ap (drop block_size) short.file in
      elim (Bool-cases (ltb (length bytes) block_size)) [
        | inl few ↦
            let all : length s ≤ block_size =
              ground (arith, few, taken, length-take block_size s) in
            rw (short.eof, sound.no_error, source.fine block_size r.file, few)
              (
                refl,
                refl,
                record { offset = omega arith; buffer = taken; file = left; eof = λ e. all },
                refl,
                record { no_error = refl; origin = sound.origin; log = sound.log },
              )
        | inr full ↦
            rw (short.eof, sound.no_error, source.fine block_size r.file, full)
              (
                refl,
                refl,
                record {
                  offset = omega arith;
                  buffer = taken;
                  file = left;
                  eof = λ e. absurd (ground (arith, e));
                },
                refl,
                record { no_error = refl; origin = sound.origin; log = sound.log },
              )
      ]

  -- `ReadMore` where the file has no more.
  pub read_more-empty :
      (r : Reader F) (drop_size : ℕ)
      → IsClean recycle log_number r
      → Short remaining r []
      → let m : Refill F = read_more f r drop_size in
        (m.error ≡ none)
        × (m.drop_size ≡ drop_size)
        × (m.reader.buffer ≡ [])
        × (m.reader.eof ≡ true)
        × (m.reader.reports ≡ r.reports)
  unfolding read_more
  read_more-empty r drop_size sound short =
      let bytes : List ℕ = (f.read block_size r.file).2 in
      let taken : bytes ≡ [] = source.bytes block_size r.file ∙ ap (take block_size) short.file in
      let few : ltb (length bytes) block_size ≡ true = ap (λ b. ltb (length b) block_size) taken in
      rw (short.eof, sound.no_error, source.fine block_size r.file, few)
        (refl, refl, taken, refl, refl)

  pub read_more-end :
      (r : Reader F) (drop_size : ℕ)
      → r.eof ≡ true
      → r.buffer ≡ []
      → let m : Refill F = read_more f r drop_size in
        (m.error ≡ some eof_type) × (m.drop_size ≡ drop_size) × (m.reader.reports ≡ r.reports)
  unfolding read_more
  read_more-end r drop_size e b = rw (e, b) (refl, refl, refl)
