-- ===== src/Log/Reader/Fragments.antt =====
-- `ReadPhysicalRecord` where a well-formed physical record is next, and where the file ends.
use rocksutil.Base.{
  ℕ, suc, ◌+◌, ◌-◌, ◌≤◌, ◌<◌, ◌≡◌, refl, sym, ap, ◌∙◌, subst, Bool, true, false, inl, inr, Option,
  none, some, List, ◌++◌, length, take, drop, All, IsByte, arith, length-append, take-append_eq,
  drop-append_eq, take-add, drop-add,
}
use rocksutil.Log.{block_size, RecordType, number}
use rocksutil.Coding.{encode_fixed32, store_le}
use rocksutil.Log.Layout.{physical, type_of, size_of_header, log_bytes}
use rocksutil.Log.Reader.{
  Reader, SequentialFile, Physical, Refill, more, done, read_more, read_round, read_physical_loop,
  read_physical_record,
}
use rocksutil.Log.Reader.Parse.{legacy_round, recyclable_round}
use rocksutil.Log.Reader.State.{IsSource, IsClean, At, Ready, read_more-At}

pub length-physical :
    (recycle : Bool) (n : ℕ) (t : RecordType) (p : List ℕ)
    → length (physical recycle n t p) ≡ size_of_header recycle + length p
unfolding physical log_bytes encode_fixed32 store_le
length-physical true n t p = omega arith
length-physical false n t p = omega arith

legacy_number :
    (begin final : Bool)
    → (0 < number (type_of false begin final)) × (number (type_of false begin final) < 5)
unfolding number type_of
legacy_number true true = (omega arith, omega arith)
legacy_number true false = (omega arith, omega arith)
legacy_number false true = (omega arith, omega arith)
legacy_number false false = (omega arith, omega arith)

pub recyclable_number :
    (begin final : Bool)
    → (4 < number (type_of true begin final)) × (number (type_of true begin final) < 9)
unfolding number type_of
recyclable_number true true = (omega arith, omega arith)
recyclable_number true false = (omega arith, omega arith)
recyclable_number false true = (omega arith, omega arith)
recyclable_number false false = (omega arith, omega arith)

module _ {ℓ} {F : Type ℓ} where
  abbrev parsed : Reader F → List ℕ → Bool → ℕ → List ℕ → ℕ → Physical F
  parsed r rest recycled t p drop_size = record {
    reader = record r { buffer = rest; recycled = recycled };
    record_type = t;
    fragment = p;
    drop_size = drop_size;
  }

  typed_round :
      (recycle begin final : Bool) (n : ℕ) (r : Reader F) (fragment p rest : List ℕ) (drop_size : ℕ)
      → IsClean recycle n r
      → All IsByte p
      → length p < 65536
      → (recycled : Bool) × (read_round
            (record r { buffer = physical recycle n (type_of recycle begin final) p ++ rest })
            fragment
            drop_size
          ≡ done (parsed r rest recycled (number (type_of recycle begin final)) p drop_size))
  typed_round false begin final n r fragment p rest drop_size sound bytes small =
      let (low, high) = legacy_number begin final in
      (
        r.recycled,
        legacy_round r n (type_of false begin final) fragment p rest drop_size sound.origin bytes
            small low high,
      )
  typed_round true begin final n r fragment p rest drop_size sound bytes small =
      let (low, high) = recyclable_number begin final in
      recyclable_round r n (type_of true begin final) fragment p rest drop_size sound.origin bytes
        small low high (sound.log refl)

  pub short_round :
      (r : Reader F) (fragment : List ℕ) (drop_size : ℕ)
      → length r.buffer < 7
      → read_round r fragment drop_size ≡ more r
  unfolding read_round
  short_round r fragment drop_size h = ground arith

module _ {ℓ} {F : Type ℓ} (f : SequentialFile F) (remaining : F → List ℕ)
    (source : IsSource f remaining) (recycle : Bool) (n : ℕ) where
  -- What a call leaves that has parsed the fragment `p` and comes to the offset `o`.
  pub record Took (r : Reader F) (o : ℕ) (tail : List ℕ) (t : ℕ) (p : List ℕ) (drop_size : ℕ)
      (result : Option (Physical F)) : Type ℓ where
    pub after : Reader F
    pub returned :
        result
        ≡ some (record { reader = after; record_type = t; fragment = p; drop_size = drop_size })
    pub at : At remaining after o tail
    pub sound : IsClean recycle n after
    pub reports : after.reports ≡ r.reports

  taken_whole :
      (rounds : ℕ) (begin final : Bool) (r : Reader F) (o : ℕ) (p tail fragment : List ℕ)
      (drop_size : ℕ)
      → IsClean recycle n r
      → All IsByte p
      → o + (size_of_header recycle + length p) ≤ block_size
      → At remaining r o (physical recycle n (type_of recycle begin final) p ++ tail)
      → Took r
          (o + (size_of_header recycle + length p))
          tail
          (number (type_of recycle begin final))
          p
          drop_size
          (read_physical_loop f (suc rounds) r fragment drop_size)
  unfolding read_physical_loop
  taken_whole rounds begin final r o p tail fragment drop_size sound bytes fits a =
      let x : List ℕ = physical recycle n (type_of recycle begin final) p in
      let o' : ℕ = o + (size_of_header recycle + length p) in
      let rest : List ℕ = take (block_size - o') tail in
      let size : length x ≡ size_of_header recycle + length p =
        length-physical recycle n (type_of recycle begin final) p in
      let room : block_size - o ≡ length x + (block_size - o') = rw size (omega arith) in
      let (recycled, parses) =
        typed_round recycle begin final n r fragment p rest drop_size sound bytes (omega arith) in
      let buffer : r.buffer ≡ x ++ rest =
        a.buffer
        ∙ ap (λ k. take k (x ++ tail)) room
        ∙ take-add (length x) (block_size - o') (x ++ tail)
        ∙ rw (take-append_eq (length x) x tail refl, drop-append_eq (length x) x tail refl) refl in
      let file : remaining r.file ≡ drop (block_size - o') tail =
        a.file
        ∙ ap (λ k. drop k (x ++ tail)) room
        ∙ drop-add (length x) (block_size - o') (x ++ tail)
        ∙ ap (drop (block_size - o')) (drop-append_eq (length x) x tail refl) in
      let ended : r.eof ≡ true → length tail ≤ block_size - o' =
        λ e. ground (arith, a.eof e, length-append x tail, room) in
      rw
        (
          read_physical_loop,
          subst
              (λ b.
                read_round (record r { buffer = b }) fragment drop_size
                ≡ done (parsed r rest recycled (number (type_of recycle begin final)) p drop_size))
              (sym buffer) parses,
        )
        (record {
          after = record r { buffer = rest; recycled = recycled };
          returned = refl;
          at = record { offset = fits; buffer = refl; file = file; eof = ended };
          sound = record { no_error = sound.no_error; origin = sound.origin; log = sound.log };
          reports = refl;
        })

  pub refills :
      (rounds : ℕ) (r : Reader F) (fragment : List ℕ) (drop_size : ℕ)
      → length r.buffer < 7
      → (read_more f r drop_size).error ≡ none
      → read_physical_loop f (suc rounds) r fragment drop_size
        ≡ read_physical_loop f rounds
            (read_more f r drop_size).reader
            fragment
            (read_more f r drop_size).drop_size
  unfolding read_physical_loop
  refills rounds r fragment drop_size short fine =
      rw (read_physical_loop, short_round r fragment drop_size short, fine)

  -- A whole fragment is next.
  pub took :
      (begin final : Bool) (r : Reader F) (o : ℕ) (p tail fragment : List ℕ) (drop_size : ℕ)
      → IsClean recycle n r
      → All IsByte p
      → o + (size_of_header recycle + length p) ≤ block_size
      → Ready remaining r o (physical recycle n (type_of recycle begin final) p ++ tail)
      → Took r
          (o + (size_of_header recycle + length p))
          tail
          (number (type_of recycle begin final))
          p
          drop_size
          (read_physical_record f r fragment drop_size)
  unfolding read_physical_record read_physical_loop Ready
  took begin final r o p tail fragment drop_size sound bytes fits (inl a) =
      taken_whole 1 begin final r o p tail fragment drop_size sound bytes fits a
  took begin final r o p tail fragment drop_size sound bytes fits (inr (zero_offset, short)) =
      let s : List ℕ = physical recycle n (type_of recycle begin final) p ++ tail in
      let (none_wrong, same, at, told, sound₁) =
        read_more-At f remaining source recycle n r s drop_size sound short in
      let m : Refill F = read_more f r drop_size in
      let next =
        taken_whole 0 begin final m.reader o p tail fragment m.drop_size sound₁ bytes fits
          (subst (λ k. At remaining m.reader k s) (sym zero_offset) at) in
      let result : read_physical_loop f 2 r fragment drop_size
          ≡ read_physical_loop f 1 m.reader fragment m.drop_size =
        refills 1 r fragment drop_size short.buffer none_wrong in
      record {
        after = next.after;
        returned =
            result
            ∙ next.returned
            ∙ ap
                (λ k. some (record {
                  reader = next.after;
                  record_type = number (type_of recycle begin final);
                  fragment = p;
                  drop_size = k;
                }))
                same;
        at = next.at;
        sound = next.sound;
        reports = next.reports ∙ told;
      }
