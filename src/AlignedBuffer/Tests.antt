-- ===== src/AlignedBuffer/Tests.antt =====
-- Runs of rutil/aligned_buffer.h.
use rocksutil.Base.{
  ℕ, ◌<◌, ◌≤◌, ◌+◌, ◌%◌, ◌-◌, ◌≡◌, refl, min, [], ◌∷◌, ◌++◌, length, take, replicate, arith,
}
use rocksutil.AlignedBuffer.{
  Buffer, IsValid, append, content, pad_to_alignment_with, append_lem, pad_to_alignment_with_lem,
}

-- Three of eight bytes are in use.
abbrev three_used : Buffer
three_used = record { alignment = 4; capacity = 8; cursize = 3; memory = 1 ∷ 2 ∷ 3 ∷ replicate 5 0 }

append_lem_example :
    IsValid (append three_used (4 ∷ 5 ∷ [])).0
    × (content (append three_used (4 ∷ 5 ∷ [])).0
        ≡ content three_used ++ take (append three_used (4 ∷ 5 ∷ [])).1 (4 ∷ 5 ∷ []))
    × ((append three_used (4 ∷ 5 ∷ [])).1 ≡ min (length {A = ℕ} (4 ∷ 5 ∷ [])) (8 - 3))
append_lem_example =
    append_lem three_used (4 ∷ 5 ∷ [])
      (record { aligned = omega arith; size = refl; fits = omega arith; whole = refl })

pad_to_alignment_with_lem_example :
    IsValid (pad_to_alignment_with three_used 263)
    × (content (pad_to_alignment_with three_used 263)
        ≡ content three_used ++ replicate ((pad_to_alignment_with three_used 263).cursize - 3) 7)
    × ((pad_to_alignment_with three_used 263).cursize % 4 ≡ 0)
    × (3 ≤ (pad_to_alignment_with three_used 263).cursize)
    × ((pad_to_alignment_with three_used 263).cursize < 3 + 4)
pad_to_alignment_with_lem_example =
    pad_to_alignment_with_lem three_used 263
      (record { aligned = omega arith; size = refl; fits = omega arith; whole = refl })
