-- ===== src/AlignedBuffer.antt =====
-- rutil/aligned_buffer.h: `AlignedBuffer`. `memory` is what stands from `bufstart_` on, of which
-- the first `cursize` bytes are in use.
mod Tests
use rocksutil.Base.{
  ℕ, suc, ◌+◌, ◌-◌, ◌*◌, ◌/◌, ◌%◌, ◌≤◌, ◌<◌, ◌≡◌, bit_and, ltb, ◌==◌, Bool, true, false, not,
  if◌then◌else◌, ap, ◌∙◌, refl, sym, min, List, [], ◌∷◌, ◌++◌, length, take, drop, replicate, arith,
  length-append, length-take, length-drop, length-replicate, take-append_eq, drop-append_eq,
  append_assoc, append-nil, subst, Bool-cases, inl, inr,
}
use native.Mathlib.Nat.{
  mod-lt, mod-add-div, mul_comm, mul-mod_left, lt_of_mul-lt-mul_right, mul-le-mul_right, suc-mul,
}

-- `TruncateToPageBoundary`
unfoldable pub truncate_to_page_boundary : ℕ → ℕ → ℕ
truncate_to_page_boundary page_size s = s - bit_and s (page_size - 1)

-- `Roundup`
unfoldable pub roundup : ℕ → ℕ → ℕ
roundup x y = (x + y - 1) / y * y

pub record Buffer : Type 0 where
  pub alignment : ℕ
  pub capacity : ℕ
  pub cursize : ℕ
  pub memory : List ℕ

-- `memcpy` and `memset` to the offset `n` of the memory.
unfoldable pub write_at : List ℕ → ℕ → List ℕ → List ℕ
write_at memory n bytes = take n memory ++ (bytes ++ drop (n + length bytes) memory)

-- `AllocateNewBuffer`; `memory` is what the new array holds from its first aligned byte on.
unfoldable pub allocate : Buffer → ℕ → List ℕ → Buffer
allocate b requested memory = record b {
  capacity = roundup requested b.alignment;
  cursize = 0;
  memory = memory;
}

-- `Append`, with the number of bytes appended.
unfoldable pub append : Buffer → List ℕ → Buffer × ℕ
append b src =
    let to_copy = min (length src) (b.capacity - b.cursize) in
    let copied = record b {
      cursize = b.cursize + to_copy;
      memory = write_at b.memory b.cursize (take to_copy src);
    } in
    (if ltb 0 to_copy then copied else b, to_copy)

-- `Read`, which asserts that `offset` is less than `cursize`.
unfoldable pub read : Buffer → ℕ → ℕ → List ℕ
read b offset read_size =
    let to_read = min (b.cursize - offset) read_size in
    if ltb 0 to_read then take to_read (drop offset b.memory) else []

-- `PadToAlignmentWith`. `padding` is the bit pattern of the `int`, of which `memset` takes the low byte.
unfoldable pub pad_to_alignment_with : Buffer → ℕ → Buffer
pad_to_alignment_with b padding =
    let pad_size = roundup b.cursize b.alignment - b.cursize in
    if ltb 0 pad_size
    then record b {
      cursize = b.cursize + pad_size;
      memory = write_at b.memory b.cursize (replicate pad_size (padding % 256));
    }
    else b

-- `RefitTail`
unfoldable pub refit_tail : Buffer → ℕ → ℕ → Buffer
refit_tail b tail_offset tail_size =
    let moved = write_at b.memory 0 (take tail_size (drop tail_offset b.memory)) in
    record b { cursize = tail_size; memory = if ltb 0 tail_size then moved else b.memory }

abbrev pub content : Buffer → List ℕ
content b = take b.cursize b.memory

-- The memory has as many bytes as the capacity says, and what is in use fits.
pub record IsValid (b : Buffer) : Type 0 where
  pub aligned : 0 < b.alignment
  pub size : length b.memory ≡ b.capacity
  pub fits : b.cursize ≤ b.capacity
  pub whole : b.capacity % b.alignment ≡ 0

length-write_at :
    (memory : List ℕ) (n : ℕ) (bytes : List ℕ)
    → n + length bytes ≤ length memory
    → length (write_at memory n bytes) ≡ length memory
unfolding write_at
length-write_at memory n bytes h =
    rw
      (
        length-append (take n memory) (bytes ++ drop (n + length bytes) memory),
        length-append bytes (drop (n + length bytes) memory),
        length-take n memory,
        length-drop (n + length bytes) memory,
      )
      (ground (arith, h))

take-write_at :
    (memory : List ℕ) (n : ℕ) (bytes : List ℕ)
    → n + length bytes ≤ length memory
    → take (n + length bytes) (write_at memory n bytes) ≡ take n memory ++ bytes
unfolding write_at
take-write_at memory n bytes h =
    rw (sym (append_assoc (take n memory) bytes (drop (n + length bytes) memory))) (
      take-append_eq (n + length bytes) (take n memory ++ bytes) (drop (n + length bytes) memory)
        (length-append (take n memory) bytes ∙ rw (length-take n memory) (ground (arith, h))))

-- `Append` keeps a valid buffer valid. It copies what fits, of the front of the source, behind what
-- the buffer has, and returns how much that is.
pub append_lem :
    (b : Buffer) (src : List ℕ)
    → IsValid b
    → IsValid (append b src).0
      × (content (append b src).0 ≡ content b ++ take (append b src).1 src)
      × ((append b src).1 ≡ min (length src) (b.capacity - b.cursize))
unfolding append
append_lem b src v =
    let n : ℕ = min (length src) (b.capacity - b.cursize) in
    let bytes : List ℕ = take n src in
    let size : length bytes ≡ n = length-take n src ∙ ground arith in
    let room : b.cursize + length bytes ≤ length b.memory = ground (arith, size, v.size, v.fits) in
    let filled : take (b.cursize + n) (write_at b.memory b.cursize bytes) ≡ content b ++ bytes =
      subst (λ k. take (b.cursize + k) (write_at b.memory b.cursize bytes) ≡ content b ++ bytes)
        size (take-write_at b.memory b.cursize bytes room) in
    elim (Bool-cases (ltb 0 n)) [
      | inl some_room ↦ rw some_room (
        record {
          aligned = v.aligned;
          size = length-write_at b.memory b.cursize bytes room ∙ v.size;
          fits = ground (arith, v.fits);
          whole = v.whole;
        },
        filled,
        refl,
      )
      | inr no_room ↦
          let nothing : n ≡ 0 = ground arith in
          rw no_room (v, rw nothing (sym (append-nil (content b))), refl)
    ]

-- `Roundup` gives the least multiple of `y` that is not below `x`.
pub roundup_lem :
    (x y : ℕ) → 0 < y → (x ≤ roundup x y) × (roundup x y < x + y) × (roundup x y % y ≡ 0)
unfolding roundup
roundup_lem x y h =
    let n : ℕ = x + y - 1 in
    let whole : n % y + y * (n / y) ≡ n = mod-add-div n y in
    let left : n % y < y = mod-lt n h in
    let turned : n / y * y ≡ y * (n / y) = mul_comm (n / y) y in
    rw turned (omega arith, omega arith, sym (ap (λ k. k % y) turned) ∙ mul-mod_left (n / y) y)

-- A multiple of the alignment that is below a later one is not above this one.
multiple-le : (q y c : ℕ) → c % y ≡ 0 → q * y < c + y → q * y ≤ c
multiple-le q y c whole h =
    let k : ℕ = c / y in
    let parts : c % y + y * k ≡ c = mod-add-div c y in
    let turned : k * y ≡ y * k = mul_comm k y in
    let next : suc k * y ≡ k * y + y = suc-mul k y in
    let few : q < suc k = lt_of_mul-lt-mul_right y (omega arith) in
    let most : q * y ≤ k * y = mul-le-mul_right y (omega arith) in omega arith

-- `PadToAlignmentWith` fits in the capacity of a valid buffer and keeps it valid. The content is
-- then padded at its end with the low byte of the padding, and its size is the least multiple of
-- the alignment that is not below the size before.
pub pad_to_alignment_with_lem :
    (b : Buffer) (padding : ℕ)
    → IsValid b
    → IsValid (pad_to_alignment_with b padding)
      × (content (pad_to_alignment_with b padding)
          ≡ content b
            ++ replicate ((pad_to_alignment_with b padding).cursize - b.cursize) (padding % 256))
      × ((pad_to_alignment_with b padding).cursize % b.alignment ≡ 0)
      × (b.cursize ≤ (pad_to_alignment_with b padding).cursize)
      × ((pad_to_alignment_with b padding).cursize < b.cursize + b.alignment)
unfolding pad_to_alignment_with roundup
pad_to_alignment_with_lem b padding v =
    let n : ℕ = roundup b.cursize b.alignment - b.cursize in
    let bytes : List ℕ = replicate n (padding % 256) in
    let (above, below, multiple) = roundup_lem b.cursize b.alignment v.aligned in
    let room : roundup b.cursize b.alignment ≤ b.capacity =
      multiple-le ((b.cursize + b.alignment - 1) / b.alignment) b.alignment b.capacity v.whole
        (ground (arith, below, v.fits)) in
    let size : length bytes ≡ n = length-replicate n (padding % 256) in
    let fits : b.cursize + length bytes ≤ length b.memory =
      ground (arith, size, v.size, room, v.fits, above) in
    let filled : take (b.cursize + n) (write_at b.memory b.cursize bytes) ≡ content b ++ bytes =
      subst (λ k. take (b.cursize + k) (write_at b.memory b.cursize bytes) ≡ content b ++ bytes)
        size (take-write_at b.memory b.cursize bytes fits) in
    let end : b.cursize + n ≡ roundup b.cursize b.alignment = omega (arith, above) in
    let none_left : b.cursize - b.cursize ≡ 0 = omega arith in
    elim (Bool-cases (ltb 0 n)) [
      | inl some_room ↦ rw some_room (
        record {
          aligned = v.aligned;
          size = length-write_at b.memory b.cursize bytes fits ∙ v.size;
          fits = ground (arith, room, above);
          whole = v.whole;
        },
        filled ∙ ap (λ k. content b ++ replicate k (padding % 256)) (omega (arith, above)),
        rw end multiple,
        omega (arith, end, above),
        omega (arith, end, below),
      )
      | inr no_room ↦
          let nothing : n ≡ 0 = ground arith in
          let stays : roundup b.cursize b.alignment ≡ b.cursize = omega (arith, above, nothing) in
          rw no_room (
            v,
            rw none_left (sym (append-nil (content b))),
            subst (λ k. k % b.alignment ≡ 0) stays multiple,
            omega arith,
            omega (arith, v.aligned),
          )
    ]
