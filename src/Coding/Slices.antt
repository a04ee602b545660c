-- ===== src/Coding/Slices.antt =====
-- Length-prefixed slices and slices cut at a delimiter.
use rocksutil.Base.{
  ℕ, zero, suc, not, ◌&&◌, if◌then◌else◌, get_or, ◌+◌, ◌%◌, ◌≤◌, ◌<◌, ◌≡◌, ◌≢◌, refl, sym, ap, ◌∙◌,
  ltb, ◌==◌, some, List, [], ◌∷◌, ◌++◌, length, take, drop, All, IsByte, IsU32, arith, append-nil,
  append_assoc, length-append, u32_mod, take-append_eq, drop-append_eq, take_all, drop_all,
  All-append, Bool-cases, inl, inr, ◌⊎◌,
}
use rocksutil.Coding.{
  put_varint32, total_bytes, append_parts, put_length_prefixed_slice, until_loop, cut_at,
  put_length_prefixed_slice_parts, get_length_prefixed_slice, get_slice_until,
}
use rocksutil.Coding.Varint.{get_varint32-put_varint32}
use mathlib.Core.List.{flatten}
use native.Mathlib.Nat.{mod-eq_of_lt}

-- `GetLengthPrefixedSlice` reads back the slice that `PutLengthPrefixedSlice` wrote, and leaves the
-- bytes that follow, for a slice shorter than 2^32 bytes.
pub get-put_length_prefixed_slice :
    (value rest : List ℕ)
    → IsU32 (length value)
    → All IsByte value
    → All IsByte rest
    → get_length_prefixed_slice (put_length_prefixed_slice [] value ++ rest) ≡ (rest, some value)
unfolding get_length_prefixed_slice put_length_prefixed_slice
get-put_length_prefixed_slice value rest h hv hr =
    let fits : length value % u32_mod ≡ length value = mod-eq_of_lt h in
    rw
      (
        fits,
        append_assoc (put_varint32 [] (length value)) value rest,
        get_varint32-put_varint32 (length value) (value ++ rest) h
            (All-append IsByte value rest hv hr),
      )
      (ground (
        arith,
        take-append_eq (length value) value rest refl,
        drop-append_eq (length value) value rest refl,
        length-append value rest,
      ))

append_parts-flatten :
    (dst : List ℕ) (parts : List (List ℕ)) → append_parts dst parts ≡ dst ++ flatten parts
unfolding append_parts flatten
append_parts-flatten dst [] = sym (append-nil dst)
append_parts-flatten dst (part ∷ parts) =
    append_parts-flatten (dst ++ part) parts ∙ append_assoc dst part (flatten parts)

total_bytes-flatten : (parts : List (List ℕ)) → total_bytes parts ≡ length (flatten parts)
unfolding total_bytes flatten
total_bytes-flatten [] = refl
total_bytes-flatten (part ∷ parts) = rw length-append (omega (arith, total_bytes-flatten parts))

-- Writing parts is writing their concatenation.
pub put_length_prefixed_slice_parts-flatten :
    (dst : List ℕ) (parts : List (List ℕ))
    → put_length_prefixed_slice_parts dst parts ≡ put_length_prefixed_slice dst (flatten parts)
unfolding put_length_prefixed_slice_parts put_length_prefixed_slice
put_length_prefixed_slice_parts-flatten dst parts =
    rw (total_bytes-flatten parts) (append_parts-flatten _ parts)

-- The place of the first delimiter, or the length of the slice.
index_of : ℕ → List ℕ → ℕ
index_of delimiter [] = 0
index_of delimiter (c ∷ slice) =
    let rest = index_of delimiter slice in if c == delimiter then 0 else suc rest

index_of-le : (d : ℕ) (s : List ℕ) → index_of d s ≤ length s
unfolding index_of
index_of-le d [] = omega arith
index_of-le d (c ∷ s) = ground (arith, index_of-le d s)

-- What the test of the loop says about the place of the delimiter.
index_of-drop :
    (d : ℕ) (s : List ℕ) (len : ℕ)
    → index_of d (drop len s) ≡ (
        if ltb len (length s) && not (get_or s len 0 == d)
        then suc (index_of d (drop (suc len) s))
        else 0)
unfolding index_of
index_of-drop d [] zero = ground arith
index_of-drop d [] (suc len) = ground arith
index_of-drop d (c ∷ s) zero = ground arith
index_of-drop d (c ∷ s) (suc len) = index_of-drop d s len ∙ ground arith

-- The loop finds the first delimiter before the index wraps, within a round for each byte and one.
until_loop-index_of :
    (rounds : ℕ) (s : List ℕ) (d len : ℕ)
    → length s < u32_mod
    → len ≤ length s
    → length s < len + rounds
    → until_loop rounds s d len ≡ some (len + index_of d (drop len s))
unfolding until_loop
until_loop-index_of zero s d len short inside enough = absurd (omega arith)
until_loop-index_of (suc rounds) s d len short inside enough =
    elim (Bool-cases (ltb len (length s) && not (get_or s len 0 == d))) [
      | inl goes ↦
          let before : len < length s = ground (arith, goes) in
          let next : (len + 1) % u32_mod ≡ suc len = omega arith in
          let ih = until_loop-index_of rounds s d (suc len) short (omega arith) (omega arith) in
          let place : suc len + index_of d (drop (suc len) s) ≡ len + index_of d (drop len s) =
            rw (index_of-drop d s len, goes) (omega arith) in
          rw goes (ap (until_loop rounds s d) next ∙ ih ∙ ap some place)
      | inr stops ↦
          let place : len ≡ len + index_of d (drop len s) =
            rw (index_of-drop d s len, stops) (omega arith) in
          rw stops (ap some place)
    ]

before_index : (d : ℕ) (s : List ℕ) → All (λ c. c ≢ d) (take (index_of d s) s)
unfolding index_of
before_index d [] = tt
before_index d (c ∷ s) = elim (Bool-cases (c == d)) [
  | inl same ↦ rw same tt
  | inr other ↦ rw other ((λ e. ground arith), before_index d s)
]

at_index :
    (d : ℕ) (s : List ℕ)
    → index_of d s < length s
    → s ≡ take (index_of d s) s ++ d ∷ drop (suc (index_of d s)) s
unfolding index_of
at_index d [] h = absurd (omega arith)
at_index d (c ∷ s) h = elim (Bool-cases (c == d)) [
  | inl same ↦ rw same (ground arith)
  | inr other ↦ rw other (ap (λ q. c ∷ q) (at_index d s (ground arith)))
]

-- `GetSliceUntil` of a slice shorter than 2 ^ 32 bytes returns within a round for each byte and one.
-- What it returns has no delimiter. Either the slice was that, and nothing is left, or it was that,
-- the delimiter, and what is left.
pub get_slice_until_lem :
    (slice : List ℕ) (delimiter : ℕ)
    → IsU32 (length slice)
    → (front left : List ℕ) × (get_slice_until (suc (length slice)) slice delimiter
        ≡ some (front, left))
      × All (λ c. c ≢ delimiter) front
      × (((slice ≡ front) × (left ≡ [])) ⊎ (slice ≡ front ++ delimiter ∷ left))
unfolding get_slice_until cut_at
get_slice_until_lem slice delimiter short =
    let len = index_of delimiter slice in
    let most : len ≤ length slice = index_of-le delimiter slice in
    let ends : until_loop (suc (length slice)) slice delimiter 0 ≡ some len =
      until_loop-index_of (suc (length slice)) slice delimiter 0 short (omega arith) (omega arith)
      ∙ ap some (omega arith) in
    elim (Bool-cases (ltb len (length slice))) [
      | inl found ↦
          let prefix : (len + 1) % u32_mod ≡ suc len = ground (arith, found, short) in
          (
            take len slice,
            drop (suc len) slice,
            rw (ends, found, prefix) refl,
            before_index delimiter slice,
            inr (at_index delimiter slice (ground (arith, found))),
          )
      | inr absent ↦
          let all : length slice ≤ len = ground (arith, absent) in
          let prefix : (len + 0) % u32_mod ≡ len = omega arith in
          (
            take len slice,
            drop len slice,
            rw (ends, absent, prefix) refl,
            before_index delimiter slice,
            inl (sym (take_all len slice all), drop_all len slice all),
          )
    ]
