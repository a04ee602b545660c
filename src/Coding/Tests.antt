-- ===== src/Coding/Tests.antt =====
-- Runs of rutil/coding.cc and include/rocksutil/coding.h on concrete bytes.
use rocksutil.Base.{
  ℕ, ◌≡◌, ◌≢◌, refl, ◌⊎◌, some, List, [], ◌∷◌, ◌++◌, length, All, IsU32, IsU64, arith, ◌≤◌,
}
use rocksutil.Coding.{
  decode_fixed32, decode_fixed32_shifts, decode_fixed64, decode_fixed64_shifts, encode_varint32,
  encode_varint64, put_varint32, get_varint32, put_varint64, get_varint64, get_varint_loop,
  get_varint32_ptr, get_varint32_ptr_fallback, get_varint64_ptr, put_length_prefixed_slice,
  get_length_prefixed_slice, get_slice_until,
}
use rocksutil.Coding.Fixed.{decode_fixed_portable}
use rocksutil.Coding.Varint.{
  get_varint32-put_varint32, get_varint64-put_varint64, get_varint32_ptr-fallback,
  encode_varint32-eq, get_varint32_ptr_takes, get_varint64_ptr_takes,
}
use rocksutil.Coding.Slices.{get-put_length_prefixed_slice, get_slice_until_lem}

abbrev eight : List ℕ
eight = 1 ∷ 200 ∷ 3 ∷ 255 ∷ 0 ∷ 6 ∷ 7 ∷ 128 ∷ []

decode_fixed_portable_example :
    (decode_fixed32 eight ≡ decode_fixed32_shifts eight)
    × (decode_fixed64 eight ≡ decode_fixed64_shifts eight)
decode_fixed_portable_example = decode_fixed_portable eight (
  omega arith,
  (
    omega arith,
    (omega arith, (omega arith, (omega arith, (omega arith, (omega arith, (omega arith, tt)))))),
  ),
)

get_varint32-put_varint32_example :
    get_varint32 (put_varint32 [] 4294967295 ++ 200 ∷ []) ≡ (200 ∷ [], some 4294967295)
get_varint32-put_varint32_example =
    get_varint32-put_varint32 4294967295 (200 ∷ []) (omega arith) (omega arith, tt)

get_varint64-put_varint64_example :
    get_varint64 (put_varint64 [] 18446744073709551615 ++ 9 ∷ [])
    ≡ (9 ∷ [], some 18446744073709551615)
get_varint64-put_varint64_example =
    get_varint64-put_varint64 18446744073709551615 (9 ∷ []) (omega arith)

get_varint32_ptr-fallback_example :
    get_varint32_ptr (172 ∷ 2 ∷ 7 ∷ []) ≡ get_varint32_ptr_fallback (172 ∷ 2 ∷ 7 ∷ [])
get_varint32_ptr-fallback_example =
    get_varint32_ptr-fallback (172 ∷ 2 ∷ 7 ∷ []) (omega arith, (omega arith, (omega arith, tt)))

encode_varint32-eq_example : encode_varint32 2097152 ≡ encode_varint64 2097152
encode_varint32-eq_example = encode_varint32-eq 2097152 (omega arith)

get_varint32_ptr_takes_example :
    (front : List ℕ) × (172 ∷ 2 ∷ 7 ∷ [] ≡ front ++ 7 ∷ [])
    × IsU32 300
    × (1 ≤ length front)
    × (length front ≤ 5)
unfolding get_varint32_ptr get_varint_loop
get_varint32_ptr_takes_example =
    get_varint32_ptr_takes (172 ∷ 2 ∷ 7 ∷ []) 300 (7 ∷ [])
      (omega arith, (omega arith, (omega arith, tt))) refl

get_varint64_ptr_takes_example :
    (front : List ℕ) × (172 ∷ 2 ∷ 7 ∷ [] ≡ front ++ 7 ∷ [])
    × IsU64 300
    × (1 ≤ length front)
    × (length front ≤ 10)
unfolding get_varint64_ptr get_varint_loop
get_varint64_ptr_takes_example = get_varint64_ptr_takes (172 ∷ 2 ∷ 7 ∷ []) 300 (7 ∷ []) refl

get-put_length_prefixed_slice_example :
    get_length_prefixed_slice (put_length_prefixed_slice [] (97 ∷ 98 ∷ []) ++ 5 ∷ [])
    ≡ (5 ∷ [], some (97 ∷ 98 ∷ []))
get-put_length_prefixed_slice_example =
    get-put_length_prefixed_slice (97 ∷ 98 ∷ []) (5 ∷ []) (omega arith)
      (omega arith, (omega arith, tt)) (omega arith, tt)

abbrev path : List ℕ
path = 97 ∷ 47 ∷ 98 ∷ []

get_slice_until_lem_example :
    (front left : List ℕ) × (get_slice_until 4 path 47 ≡ some (front, left))
    × All (λ c. c ≢ 47) front
    × (((path ≡ front) × (left ≡ [])) ⊎ (path ≡ front ++ 47 ∷ left))
get_slice_until_lem_example = get_slice_until_lem path 47 (omega arith)
