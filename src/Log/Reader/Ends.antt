-- ===== src/Log/Reader/Ends.antt =====
-- `ReadPhysicalRecord` where the file ends, and at the zeros that fill up a block.
use rocksutil.Base.{
  ℕ, zero, suc, ◌-◌, ◌≤◌, ◌<◌, ◌≡◌, refl, sym, ap, ◌∙◌, subst, Bool, true, false, ltb, Bool-cases,
  inl, inr, Option, some, List, [], ◌∷◌, length, take, drop, replicate, arith,
}
use rocksutil.Log.{block_size}
use rocksutil.Log.Reader.{
  Reader, SequentialFile, Physical, Refill, done, read_more, read_round, read_physical_loop,
  read_body, sign_extend, read_physical_record, eof_type, bad_record,
}
use rocksutil.Log.Reader.State.{IsSource, IsClean, Short, Ready, read_more-empty, read_more-end}
use rocksutil.Log.Reader.Fragments.{short_round, refills}

take-nil : (n : ℕ) → let none_left : List ℕ = [] in take n none_left ≡ none_left
take-nil zero = refl
take-nil (suc n) = refl

drop-nil : (n : ℕ) → let none_left : List ℕ = [] in drop n none_left ≡ none_left
drop-nil zero = refl
drop-nil (suc n) = refl

module _ {ℓ} {F : Type ℓ} where
  -- Zeros parse as a record of no type and no length.
  zeros_round :
      (r : Reader F) (j : ℕ) (fragment : List ℕ) (drop_size : ℕ)
      → read_round
          (record r { buffer = 0 ∷ 0 ∷ 0 ∷ 0 ∷ 0 ∷ 0 ∷ 0 ∷ replicate j 0 })
          fragment
          drop_size
        ≡ done (record {
          reader = record r { buffer = [] };
          record_type = bad_record;
          fragment = fragment;
          drop_size = drop_size;
        })
  unfolding read_round read_body sign_extend
  zeros_round r j fragment drop_size =
      let b : List ℕ = 0 ∷ 0 ∷ 0 ∷ 0 ∷ 0 ∷ 0 ∷ 0 ∷ replicate j 0 in
      let long : ltb (length b) 7 ≡ false = ground arith in rw long refl

module _ {ℓ} {F : Type ℓ} (f : SequentialFile F) (remaining : F → List ℕ)
    (source : IsSource f remaining) (recycle : Bool) (n : ℕ) where
  ends :
      (rounds : ℕ) (r : Reader F) (fragment : List ℕ) (drop_size : ℕ)
      → r.eof ≡ true
      → r.buffer ≡ []
      → (read_physical_loop f (suc rounds) r fragment drop_size
          ≡ some (record {
            reader = (read_more f r drop_size).reader;
            record_type = eof_type;
            fragment = fragment;
            drop_size = drop_size;
          }))
        × ((read_more f r drop_size).reader.reports ≡ r.reports)
  unfolding read_physical_loop
  ends rounds r fragment drop_size e b =
      let (error, same, told) = read_more-end f remaining source recycle n r drop_size e b in
      let short : length r.buffer < 7 = rw b (omega arith) in
      (rw (read_physical_loop, short_round r fragment drop_size short, error, same) refl, told)

  -- At the end of a file that has met no error.
  pub record Ended (r : Reader F) (fragment : List ℕ) (drop_size : ℕ) (result : Option (Physical F))
      : Type ℓ where
    pub after : Reader F
    pub returned :
        result
        ≡ some (record {
          reader = after;
          record_type = eof_type;
          fragment = fragment;
          drop_size = drop_size;
        })
    pub reports : after.reports ≡ r.reports

  eof_found :
      (r : Reader F) (fragment : List ℕ) (drop_size : ℕ)
      → IsClean recycle n r
      → Short remaining r []
      → Ended r fragment drop_size (read_physical_record f r fragment drop_size)
  unfolding read_physical_record
  eof_found r fragment drop_size sound short =
      let m : Refill F = read_more f r drop_size in
      let (fine, same, empty, eof, told) =
        read_more-empty f remaining source recycle n r drop_size sound short in
      let (returned, still) = ends 0 m.reader fragment m.drop_size eof empty in
      record {
        after = (read_more f m.reader m.drop_size).reader;
        returned =
            refills f remaining source recycle n 1 r fragment drop_size short.buffer fine
            ∙ returned
            ∙ ap
                (λ k. some (record {
                  reader = (read_more f m.reader m.drop_size).reader;
                  record_type = eof_type;
                  fragment = fragment;
                  drop_size = k;
                }))
                same;
        reports = still ∙ told;
      }

  pub took_end :
      (r : Reader F) (o : ℕ) (fragment : List ℕ) (drop_size : ℕ)
      → IsClean recycle n r
      → Ready remaining r o []
      → Ended r fragment drop_size (read_physical_record f r fragment drop_size)
  unfolding read_physical_record Ready
  took_end r o fragment drop_size sound (inl a) =
      let empty : r.buffer ≡ [] = a.buffer ∙ take-nil (block_size - o) in
      elim (Bool-cases r.eof) [
        | inl eof ↦
            let (returned, told) = ends 1 r fragment drop_size eof empty in
            record { after = (read_more f r drop_size).reader; returned = returned; reports = told }
        | inr not_yet ↦ eof_found r fragment drop_size sound (record {
          buffer = rw empty (omega arith);
          file = a.file ∙ drop-nil (block_size - o);
          eof = not_yet;
        })
      ]
  took_end r o fragment drop_size sound (inr (zero_offset, short)) =
      eof_found r fragment drop_size sound short

  -- A block that ends in more zeros than the shorter header has.
  pub took_zeros :
      (r : Reader F) (k : ℕ) (fragment : List ℕ) (drop_size : ℕ)
      → r.buffer ≡ replicate k 0
      → 7 ≤ k
      → read_physical_record f r fragment drop_size
        ≡ some (record {
          reader = record r { buffer = [] };
          record_type = bad_record;
          fragment = fragment;
          drop_size = drop_size;
        })
  unfolding read_physical_record read_physical_loop
  took_zeros r k fragment drop_size e h =
      let j : ℕ = k - 7 in
      let more_than : k ≡ suc (suc (suc (suc (suc (suc (suc j)))))) = omega arith in
      rw
        (
          read_physical_loop,
          subst
              (λ b.
                read_round (record r { buffer = b }) fragment drop_size
                ≡ done (record {
                  reader = record r { buffer = [] };
                  record_type = bad_record;
                  fragment = fragment;
                  drop_size = drop_size;
                }))
              (sym (e ∙ ap (λ k. replicate k 0) more_than)) (zeros_round r j fragment drop_size),
        )
        refl
