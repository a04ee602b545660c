-- ===== src/Log/Writer/Records.antt =====
-- The rounds of `AddRecord`, and the record that they write.
use rocksutil.Base.{
  ℕ, zero, suc, ◌+◌, ◌≤◌, ◌≡◌, refl, ap, ◌∙◌, subst, Bool, true, false, ltb, lt→ltb, inl, inr, ◌⊎◌,
  Option, some, List, ◌++◌, append_assoc, length, All, IsByte, arith,
}
use rocksutil.Log.{block_size}
use rocksutil.Log.Layout.{Laid}
use rocksutil.Log.Writer.{Dest, Writer, add_fragment, add_record_loop, add_record}
use rocksutil.Status.{Status, is_ok}
use rocksutil.Log.Writer.Written.{IsSound, IsValid}
use rocksutil.Log.Writer.Rounds.{add_fragment-Advanced}

relaid :
    {rc rc' begin : Bool} {n n' o o₁ o' : ℕ} {p bytes : List ℕ}
    → rc ≡ rc'
    → n ≡ n'
    → o ≡ o₁
    → Laid rc n o begin p bytes o'
    → Laid rc' n' o₁ begin p bytes o'
relaid {rc' = rc'} {begin = begin} {n = n} {n' = n'} {o = o} {o' = o'} {p = p} {bytes = bytes} e f g
      l =
    subst (λ x. Laid rc' n' x begin p bytes o') g
      (subst (λ x. Laid rc' x o begin p bytes o') f (subst (λ x. Laid x n o begin p bytes o') e l))

module _ {ℓ} {W : Type ℓ} (d : Dest W) (contents : W → List ℕ) (sound : IsSound d contents) where
  -- The writer and the status that the loop returns, and the bytes that it wrote.
  pub record Wrote (w : Writer W) (begin : Bool) (p : List ℕ) (r : Option (Writer W × Status))
      : Type ℓ where
    pub after : Writer W
    pub status : Status
    pub bytes : List ℕ
    pub returned : r ≡ some (after, status)
    pub fine : is_ok status ≡ true
    pub written : contents after.dest ≡ contents w.dest ++ bytes
    pub laid : Laid w.recycle_log_files w.log_number w.block_offset begin p bytes after.block_offset
    pub valid : IsValid after
    pub log_number : after.log_number ≡ w.log_number
    pub recycle : after.recycle_log_files ≡ w.recycle_log_files

  loop-Wrote :
      (rounds : ℕ) (w : Writer W) (p : List ℕ) (begin : Bool)
      → IsValid w
      → All IsByte p
      → (length p + 2 ≤ rounds) ⊎ ((w.block_offset ≡ block_size) × (length p + 1 ≤ rounds))
      → Wrote w begin p (add_record_loop d rounds w p begin)
  unfolding add_record_loop
  loop-Wrote zero w p begin valid bytes enough = absurd (omega arith)
  loop-Wrote (suc rounds) w p begin valid bytes enough =
      let (fine, ad) = add_fragment-Advanced d contents sound w p begin valid bytes in
      elim ad.shape [
        | inl (none_left, laid) ↦
            let stop : ltb 0 (length (add_fragment d w p begin).2) ≡ false = rw none_left refl in
            rw (fine, stop)
              (record {
                after = (add_fragment d w p begin).0;
                status = (add_fragment d w p begin).1;
                bytes = ad.bytes;
                returned = refl;
                fine = fine;
                written = ad.written;
                laid = laid;
                valid = ad.valid;
                log_number = ad.log_number;
                recycle = ad.recycle;
              })
        | inr (some_left, filled_up, shorter, progress, laid) ↦
            let w₁ : Writer W = (add_fragment d w p begin).0 in
            let left : List ℕ = (add_fragment d w p begin).2 in
            let go : ltb 0 (length left) ≡ true = lt→ltb 0 (length left) some_left in
            let rest =
              loop-Wrote rounds w₁ left false ad.valid ad.left_bytes
                (inr (filled_up, ground (arith, enough, shorter, progress))) in
            rw (fine, go)
              (record {
                after = rest.after;
                status = rest.status;
                bytes = ad.bytes ++ rest.bytes;
                returned = rest.returned;
                fine = rest.fine;
                written =
                    rest.written
                    ∙ ap (λ c. c ++ rest.bytes) ad.written
                    ∙ append_assoc (contents w.dest) ad.bytes rest.bytes;
                laid =
                    laid rest.bytes rest.after.block_offset
                      (relaid ad.recycle ad.log_number filled_up rest.laid);
                valid = rest.valid;
                log_number = rest.log_number ∙ ad.log_number;
                recycle = rest.recycle ∙ ad.recycle;
              })
      ]

  -- `AddRecord` to a destination that takes all it is given returns, with a status that is ok. It
  -- appends bytes that hold the record as the format has it, from the writer's offset in its block
  -- to the new one, and leaves a writer for the next record.
  pub add_record-Wrote :
      (w : Writer W) (slice : List ℕ)
      → IsValid w
      → All IsByte slice
      → Wrote w true slice (add_record d w slice)
  unfolding add_record
  add_record-Wrote w slice valid bytes =
      loop-Wrote (length slice + 2) w slice true valid bytes (inl (omega arith))
