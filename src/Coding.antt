-- ===== src/Coding.antt =====
-- include/rocksutil/coding.h and rutil/coding.cc: fixed-width and variable-width integers,
-- length-prefixed slices. A string or a slice is the list of its bytes; a pointer is the list of
-- the bytes from it on, so `[p, limit)` is one list.
pub mod Fixed
pub mod Varint
pub mod Slices
mod Tests
use rocksutil.Base.{
  ℕ, zero, suc, ◌+◌, ◌-◌, ◌*◌, ◌/◌, ◌%◌, ◌^◌, ◌≤◌, ◌<◌, bit_and, bit_or, Bool, not, ◌&&◌, get_or,
  ltb, leb, ◌==◌, if◌then◌else◌, Option, none, some, List, [], ◌∷◌, ◌++◌, length, take, drop, lt_wf,
  arith, u32_mod, u64_mod,
}
use mathlib.Core.Logic.{dite}
use mathlib.Core.WellFounded.{Acc}
use native.Mathlib.Decide.{dec_lt}

-- `memcpy(buf, &value, n)` and `memcpy(&value, ptr, n)` on a little-endian machine.
-- A read past the end of the list, which the callers exclude, gives zero bytes.
unfoldable pub store_le : ℕ → ℕ → List ℕ
store_le zero value = []
store_le (suc n) value = value % 256 ∷ store_le n (value / 256)

unfoldable pub load_le : ℕ → List ℕ → ℕ
load_le zero ptr = 0
load_le (suc n) [] = 0
load_le (suc n) (c ∷ ptr) = c + 256 * load_le n ptr

unfoldable pub encode_fixed32 : ℕ → List ℕ
encode_fixed32 value = store_le 4 value

unfoldable pub encode_fixed64 : ℕ → List ℕ
encode_fixed64 value = store_le 8 value

unfoldable pub put_fixed32 : List ℕ → ℕ → List ℕ
put_fixed32 dst value = dst ++ encode_fixed32 value

unfoldable pub put_fixed64 : List ℕ → ℕ → List ℕ
put_fixed64 dst value = dst ++ encode_fixed64 value

unfoldable pub decode_fixed32 : List ℕ → ℕ
decode_fixed32 ptr = load_le 4 ptr

unfoldable pub decode_fixed64 : List ℕ → ℕ
decode_fixed64 ptr = load_le 8 ptr

-- The branches of `DecodeFixed32` and `DecodeFixed64` for a machine that is not little-endian.
abbrev pub byte_at : List ℕ → ℕ → ℕ
byte_at ptr i = elim (drop i ptr) [ [] ↦ 0 | c ∷ _ ↦ c ]

pub decode_fixed32_shifts : List ℕ → ℕ
decode_fixed32_shifts ptr =
    bit_or (bit_or (bit_or (byte_at ptr 0) (byte_at ptr 1 * 2 ^ 8)) (byte_at ptr 2 * 2 ^ 16))
      (byte_at ptr 3 * 2 ^ 24)

pub decode_fixed64_shifts : List ℕ → ℕ
decode_fixed64_shifts ptr =
    let lo = decode_fixed32_shifts ptr in
    let hi = decode_fixed32_shifts (drop 4 ptr) in bit_or (hi * 2 ^ 32) lo

-- The ladder of `EncodeVarint32`; a store into `*(ptr++)` keeps the low byte.
unfoldable pub encode_varint32 : ℕ → List ℕ
encode_varint32 v =
    let more = λ (x : ℕ). bit_or x 128 % 256 in
    if ltb v (2 ^ 7)
    then v % 256 ∷ []
    else if ltb v (2 ^ 14)
    then more v ∷ v / 2 ^ 7 % 256 ∷ []
    else if ltb v (2 ^ 21)
    then more v ∷ more (v / 2 ^ 7) ∷ v / 2 ^ 14 % 256 ∷ []
    else if ltb v (2 ^ 28)
    then more v ∷ more (v / 2 ^ 7) ∷ more (v / 2 ^ 14) ∷ v / 2 ^ 21 % 256 ∷ []
    else more v ∷ more (v / 2 ^ 7) ∷ more (v / 2 ^ 14) ∷ more (v / 2 ^ 21) ∷ v / 2 ^ 28 % 256 ∷ []

pub shift_shrinks : (v : ℕ) → 127 < v → v / 128 < v
shift_shrinks v h = omega arith

-- `while (v >= B) { *(ptr++) = (v & (B - 1)) | B; v >>= 7; }`
encode_varint64_loop : (v : ℕ) → Acc ◌<◌ v → List ℕ
encode_varint64_loop v (Acc.intro _ smaller) =
    dite (dec_lt 127 v)
      (λ h.
        bit_or (bit_and v 127) 128 % 256
        ∷ encode_varint64_loop (v / 128) (smaller _ (shift_shrinks v h)))
      (λ _. v % 256 ∷ [])

unfoldable pub encode_varint64 : ℕ → List ℕ
unfolding encode_varint64_loop lt_wf dec_lt
encode_varint64 v = encode_varint64_loop v (lt_wf.apply v)

varint_length_loop : (v : ℕ) → ℕ → Acc ◌<◌ v → ℕ
varint_length_loop v len (Acc.intro _ smaller) =
    dite (dec_lt 127 v)
      (λ h. varint_length_loop (v / 128) (len + 1) (smaller _ (shift_shrinks v h))) (λ _. len)

unfoldable pub varint_length : ℕ → ℕ
unfolding varint_length_loop lt_wf dec_lt
varint_length v = varint_length_loop v 1 (lt_wf.apply v)

unfoldable pub put_varint32 : List ℕ → ℕ → List ℕ
put_varint32 dst v = dst ++ encode_varint32 v

pub put_varint32_varint32 : List ℕ → ℕ → ℕ → List ℕ
put_varint32_varint32 dst v1 v2 = dst ++ (encode_varint32 v1 ++ encode_varint32 v2)

pub put_varint32_varint32_varint32 : List ℕ → ℕ → ℕ → ℕ → List ℕ
put_varint32_varint32_varint32 dst v1 v2 v3 =
    dst ++ (encode_varint32 v1 ++ (encode_varint32 v2 ++ encode_varint32 v3))

unfoldable pub put_varint64 : List ℕ → ℕ → List ℕ
put_varint64 dst v = dst ++ encode_varint64 v

pub put_varint64_varint64 : List ℕ → ℕ → ℕ → List ℕ
put_varint64_varint64 dst v1 v2 = dst ++ (encode_varint64 v1 ++ encode_varint64 v2)

pub put_varint32_varint64 : List ℕ → ℕ → ℕ → List ℕ
put_varint32_varint64 dst v1 v2 = dst ++ (encode_varint32 v1 ++ encode_varint64 v2)

pub put_varint32_varint32_varint64 : List ℕ → ℕ → ℕ → ℕ → List ℕ
put_varint32_varint32_varint64 dst v1 v2 v3 =
    dst ++ (encode_varint32 v1 ++ (encode_varint32 v2 ++ encode_varint64 v3))

-- The loop of the two decoders, whose words differ in width (`modulus`) and last shift.
-- The result is the value with the bytes that follow; `none` is the null pointer.
get_varint_loop : ℕ → ℕ → List ℕ → ℕ → ℕ → Option (ℕ × List ℕ)
get_varint_loop last_shift modulus [] shift result = none
get_varint_loop last_shift modulus (byte ∷ p) shift result =
    let more = bit_or result (bit_and byte 127 * 2 ^ shift % modulus) in
    let last = bit_or result (byte * 2 ^ shift % modulus) in
    let rest = get_varint_loop last_shift modulus p (shift + 7) more in
    if leb shift last_shift then (if bit_and byte 128 == 0 then some (last, p) else rest) else none

pub get_varint32_ptr_fallback : List ℕ → Option (ℕ × List ℕ)
get_varint32_ptr_fallback p = get_varint_loop 28 u32_mod p 0 0

pub get_varint32_ptr : List ℕ → Option (ℕ × List ℕ)
unfolding get_varint32_ptr_fallback
get_varint32_ptr [] = get_varint32_ptr_fallback []
get_varint32_ptr (result ∷ p) =
    if bit_and result 128 == 0 then some (result, p) else get_varint32_ptr_fallback (result ∷ p)

pub get_varint64_ptr : List ℕ → Option (ℕ × List ℕ)
get_varint64_ptr p = get_varint_loop 63 u64_mod p 0 0

-- The `bool Get...(Slice* input, ...)` routines return the input as they leave it, with the value
-- if they return true.
advance : List ℕ → Option (ℕ × List ℕ) → List ℕ × Option ℕ
advance input none = (input, none)
advance input (some (value, q)) = (q, some value)

unfoldable pub get_fixed64 : List ℕ → List ℕ × Option ℕ
get_fixed64 input =
    if ltb (length input) 8 then (input, none) else (drop 8 input, some (decode_fixed64 input))

unfoldable pub get_varint32 : List ℕ → List ℕ × Option ℕ
unfolding advance get_varint32_ptr get_varint_loop
get_varint32 input = advance input (get_varint32_ptr input)

unfoldable pub get_varint64 : List ℕ → List ℕ × Option ℕ
unfolding advance get_varint64_ptr get_varint_loop
get_varint64 input = advance input (get_varint64_ptr input)

pub put_length_prefixed_slice : List ℕ → List ℕ → List ℕ
put_length_prefixed_slice dst value = put_varint32 dst (length value % u32_mod) ++ value

total_bytes : List (List ℕ) → ℕ
total_bytes [] = 0
total_bytes (part ∷ parts) = length part + total_bytes parts

append_parts : List ℕ → List (List ℕ) → List ℕ
append_parts dst [] = dst
append_parts dst (part ∷ parts) = append_parts (dst ++ part) parts

pub put_length_prefixed_slice_parts : List ℕ → List (List ℕ) → List ℕ
put_length_prefixed_slice_parts dst parts =
    append_parts (put_varint32 dst (total_bytes parts % u32_mod)) parts

-- The input stays advanced past the length where the slice itself is cut short.
take_slice : List ℕ × Option ℕ → List ℕ × Option (List ℕ)
take_slice (input, none) = (input, none)
take_slice (input, some len) =
    if leb len (length input) then (drop len input, some (take len input)) else (input, none)

unfoldable pub get_length_prefixed_slice : List ℕ → List ℕ × Option (List ℕ)
unfolding take_slice
get_length_prefixed_slice input = take_slice (get_varint32 input)

-- The overload on a bare pointer, for data that is well formed.
pub get_length_prefixed_slice_ptr : List ℕ → Option (List ℕ)
get_length_prefixed_slice_ptr ptr = elim (get_varint32_ptr (take 5 ptr)) [
  | none ↦ none
  | some (len, rest) ↦ some (take len (drop (5 - length rest) ptr))
]

-- The loop of `GetSliceUntil` from an index on; `none` when the rounds are used up. The index is a
-- `uint32_t`, and returns to 0 at 2 ^ 32.
until_loop : ℕ → List ℕ → ℕ → ℕ → Option ℕ
until_loop zero slice delimiter len = none
until_loop (suc rounds) slice delimiter len =
    let rest = until_loop rounds slice delimiter ((len + 1) % u32_mod) in
    if ltb len (length slice) && not (get_or slice len 0 == delimiter) then rest else some len

-- The result, and the slice as the call leaves it.
cut_at : List ℕ → Option ℕ → Option (List ℕ × List ℕ)
cut_at slice none = none
cut_at slice (some len) =
    let prefix = (len + (if ltb len (length slice) then 1 else 0)) % u32_mod in
    some (take len slice, drop prefix slice)

-- `GetSliceUntil`, with the number of rounds that its loop may take.
pub get_slice_until : ℕ → List ℕ → ℕ → Option (List ℕ × List ℕ)
get_slice_until rounds slice delimiter = cut_at slice (until_loop rounds slice delimiter 0)

-- The `i`-th byte of the word in memory goes to place `size - i - 1`.
endian_transform_loop : ℕ → List ℕ → ℕ → ℕ
endian_transform_loop zero pos ret_val = ret_val
endian_transform_loop (suc left) [] ret_val = ret_val
endian_transform_loop (suc left) (c ∷ pos) ret_val =
    endian_transform_loop left pos (bit_or ret_val (c * 2 ^ (8 * left) % u64_mod))

pub endian_transform : ℕ → ℕ → ℕ
endian_transform input size = endian_transform_loop size (store_le 8 input) 0
