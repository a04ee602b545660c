-- ===== src/Log/Reader/Rounds.antt =====
-- rutil/log_reader.cc: the rounds of the loop of `ReadPhysicalRecord`.
use rocksutil.Base.{
  ℕ, suc, ◌≤◌, ◌<◌, ◌≡◌, ◌≢◌, refl, true, none, Option-cases, ◌⊎◌, inl, inr, List, length, arith,
}
use rocksutil.Log.{block_size, recyclable_header_size}
use rocksutil.Log.Reader.{
  Reader, SequentialFile, Physical, Round, more, done, read_round, read_more, read_physical_loop,
  read_physical_record,
}

module _ {ℓ} {F : Type ℓ} where
  round_more :
      (r : Reader F) (fragment : List ℕ) (drop_size : ℕ) {r₁ : Reader F}
      → read_round r fragment drop_size ≡ more r₁
      → (length r₁.buffer < recyclable_header_size)
        × (length r₁.buffer ≡ length r.buffer)
        × (r₁.eof ≡ r.eof)
  unfolding read_round
  round_more r fragment drop_size h = ground arith

module _ {ℓ} {F : Type ℓ} (f : SequentialFile F) where
  refilled :
      (r : Reader F) (drop_size : ℕ)
      → (read_more f r drop_size).error ≡ none
      → ((read_more f r drop_size).reader.eof ≡ true)
        ⊎ (block_size ≤ length (read_more f r drop_size).reader.buffer)
  unfolding read_more
  refilled r drop_size h = ground arith

  refill_at_eof :
      (r : Reader F) (drop_size : ℕ) → r.eof ≡ true → (read_more f r drop_size).error ≢ none
  unfolding read_more
  refill_at_eof r drop_size h e = ground arith

Round-cases {ℓ} :
    {F : Type ℓ} (n : Round F) → ((r : Reader F) × (n ≡ more r)) ⊎ ((p : Physical F) × (n ≡ done p))
Round-cases (more r) = inl (r, refl)
Round-cases (done p) = inr (p, refl)

module _ {ℓ} {F : Type ℓ} (f : SequentialFile F) where
  no_refill :
      (r : Reader F) (drop_size : ℕ)
      → length r.buffer < recyclable_header_size
      → (r.eof ≡ true) ⊎ (block_size ≤ length r.buffer)
      → (read_more f r drop_size).error ≢ none
  no_refill r drop_size small (inl at_end) = refill_at_eof f r drop_size at_end
  no_refill r drop_size small (inr large) = absurd (omega arith)

  -- With a full buffer, or at the end of the file, one round is enough.
  one_round :
      (n : ℕ) (r : Reader F) (fragment : List ℕ) (drop_size : ℕ)
      → (r.eof ≡ true) ⊎ (block_size ≤ length r.buffer)
      → read_physical_loop f (suc n) r fragment drop_size ≢ none
  unfolding read_physical_loop
  one_round n r fragment drop_size ready = elim (Round-cases (read_round r fragment drop_size)) [
    | inr (p, e) ↦ rw (e, read_physical_loop) (λ h. cc)
    | inl (r₁, e) ↦
        let (small, size, same) = round_more r fragment drop_size e in
        let ready₁ : (r₁.eof ≡ true) ⊎ (block_size ≤ length r₁.buffer) =
          ground (arith, size, same) in
        elim (Option-cases (read_more f r₁ drop_size).error) [
          | inl none_left ↦ absurd (no_refill r₁ drop_size small ready₁ none_left)
          | inr (x, failed) ↦ rw (e, read_physical_loop) (rw failed (λ h. cc))
        ]
  ]

  -- For every file and every state of the reader, `ReadPhysicalRecord` returns: its loop takes two
  -- rounds at most.
  pub read_physical_record-ne-none :
      (r : Reader F) (fragment : List ℕ) (drop_size : ℕ)
      → read_physical_record f r fragment drop_size ≢ none
  unfolding read_physical_record read_physical_loop
  read_physical_record-ne-none r fragment drop_size =
      elim (Round-cases (read_round r fragment drop_size)) [
        | inr (p, e) ↦ rw (e, read_physical_loop) (λ h. cc)
        | inl (r₁, e) ↦ elim (Option-cases (read_more f r₁ drop_size).error) [
          | inr (x, failed) ↦ rw (e, read_physical_loop) (rw failed (λ h. cc))
          | inl read ↦
              rw (e, read_physical_loop)
                (rw read (
                  one_round 0 (read_more f r₁ drop_size).reader fragment
                    (read_more f r₁ drop_size).drop_size (refilled f r₁ drop_size read)))
        ]
      ]
