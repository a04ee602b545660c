-- ===== src/Coding/Fixed.antt =====
-- Fixed-width integers: the bytes in memory and the values, and `EndianTransform`.
use rocksutil.Base.{
  ℕ, zero, suc, ◌+◌, ◌-◌, ◌*◌, ◌/◌, ◌%◌, ◌^◌, ◌≤◌, ◌<◌, bit_or, ◌≡◌, refl, sym, ap, ◌∙◌, subst,
  some, List, [], ◌∷◌, ◌++◌, length, drop, replicate, All, All-drop, IsByte, IsU32, IsU64, arith,
  length-append, u64_mod,
}
use rocksutil.Base.Bits.{or_fields, or_fields_high}
use rocksutil.Coding.{
  store_le, load_le, byte_at, encode_fixed32, encode_fixed64, put_fixed64, decode_fixed32,
  decode_fixed64, decode_fixed32_shifts, decode_fixed64_shifts, get_fixed64, endian_transform,
  endian_transform_loop,
}
use mathlib.Core.List.{reverse, reverse-append}
use native.Mathlib.Nat.{
  pow-suc, one-le-pow, suc-add, zero-add, zero-mul, mul-suc, pow-le-pow_right, mod-eq_of_lt,
}
use native.Mathlib.Numerals.{towards_suc}

pub length-store_le : (n v : ℕ) → length (store_le n v) ≡ n
unfolding store_le
length-store_le zero v = refl
length-store_le (suc n) v = ap suc (length-store_le n (v / 256))

pub store_le-IsByte : (n v : ℕ) → All IsByte (store_le n v)
unfolding store_le
store_le-IsByte zero v = tt
store_le-IsByte (suc n) v = (omega arith, store_le-IsByte n (v / 256))

pub load_le-store_le :
    (n v : ℕ) (rest : List ℕ) → v < 256 ^ n → load_le n (store_le n v ++ rest) ≡ v
unfolding store_le load_le
load_le-store_le zero v rest h = omega arith
load_le-store_le (suc n) v rest h =
    omega (arith, load_le-store_le n (v / 256) rest (omega (arith, pow-suc 256 n)))

pub load_le-lt : (n : ℕ) (bs : List ℕ) → All IsByte bs → load_le n bs < 256 ^ n
unfolding load_le
load_le-lt zero bs h = omega arith
load_le-lt (suc n) [] h = omega (arith, one-le-pow (suc n) 256 (omega arith))
load_le-lt (suc n) (c ∷ bs) h = omega (arith, h.0, load_le-lt n bs h.1, pow-suc 256 n)

store_le-zero : (m : ℕ) → store_le m 0 ≡ replicate m 0
unfolding store_le
store_le-zero zero = refl
store_le-zero (suc m) = ap (λ r. 0 ∷ r) (store_le-zero m)

pub store_le-load_le :
    (bs : List ℕ) (m : ℕ)
    → All IsByte bs
    → store_le (length bs + m) (load_le (length bs) bs) ≡ bs ++ replicate m 0
unfolding store_le load_le
store_le-load_le [] m h =
    subst (λ k. store_le k 0 ≡ replicate m 0) (sym (zero-add m)) (store_le-zero m)
store_le-load_le (c ∷ bs) m h =
    let low : (c + 256 * load_le (length bs) bs) % 256 ≡ c = omega (arith, h.0) in
    let high : (c + 256 * load_le (length bs) bs) / 256 ≡ load_le (length bs) bs =
      omega (arith, h.0) in
    rw (suc-add, low, high, store_le-load_le bs m h.1)

-- A 32-bit value that was stored is loaded back, whatever bytes follow it.
pub decode_fixed32-encode_fixed32 :
    (v : ℕ) (rest : List ℕ) → IsU32 v → decode_fixed32 (encode_fixed32 v ++ rest) ≡ v
unfolding decode_fixed32 encode_fixed32
decode_fixed32-encode_fixed32 v rest h = load_le-store_le 4 v rest (omega arith)

-- `GetFixed64` reads back the 64-bit value that `PutFixed64` wrote, and leaves what follows.
pub get_fixed64-put_fixed64 :
    (v : ℕ) (rest : List ℕ) → IsU64 v → get_fixed64 (put_fixed64 [] v ++ rest) ≡ (rest, some v)
unfolding get_fixed64 put_fixed64 decode_fixed64
get_fixed64-put_fixed64 v rest h =
    let loaded = load_le-store_le 8 v rest h in
    unfold encode_fixed64 store_le in ground (arith, loaded)

byte_at-lt : (bs : List ℕ) (i : ℕ) → All IsByte bs → byte_at bs i < 256
byte_at-lt [] zero h = omega arith
byte_at-lt [] (suc i) h = omega arith
byte_at-lt (c ∷ bs) zero h = h.0
byte_at-lt (c ∷ bs) (suc i) h = byte_at-lt bs i h.1

load_four :
    (bs : List ℕ)
    → load_le 4 bs
      ≡ byte_at bs 0 + byte_at bs 1 * 2 ^ 8 + byte_at bs 2 * 2 ^ 16 + byte_at bs 3 * 2 ^ 24
unfolding load_le
load_four [] = refl
load_four (a ∷ []) = omega arith
load_four (a ∷ b ∷ []) = omega arith
load_four (a ∷ b ∷ c ∷ []) = omega arith
load_four (a ∷ b ∷ c ∷ d ∷ bs) = omega arith

load_le-zero_list : (n : ℕ) → load_le n [] ≡ 0
unfolding load_le
load_le-zero_list zero = refl
load_le-zero_list (suc n) = refl

load_eight : (bs : List ℕ) → load_le 8 bs ≡ load_le 4 bs + load_le 4 (drop 4 bs) * 2 ^ 32
unfolding load_le
load_eight [] = refl
load_eight (a ∷ []) = omega arith
load_eight (a ∷ b ∷ []) = omega arith
load_eight (a ∷ b ∷ c ∷ []) = omega arith
load_eight (a ∷ b ∷ c ∷ d ∷ bs) = omega arith

decode_fixed32-shifts : (bs : List ℕ) → All IsByte bs → decode_fixed32_shifts bs ≡ decode_fixed32 bs
unfolding decode_fixed32 decode_fixed32_shifts
decode_fixed32-shifts bs h =
    let b0 = byte_at-lt bs 0 h in
    let b1 = byte_at-lt bs 1 h in
    let b2 = byte_at-lt bs 2 h in
    rw
      (
        or_fields 8 (byte_at bs 0) (byte_at bs 1) b0,
        or_fields 16 (byte_at bs 0 + byte_at bs 1 * 2 ^ 8) (byte_at bs 2) (omega arith),
        or_fields 24 (byte_at bs 0 + byte_at bs 1 * 2 ^ 8 + byte_at bs 2 * 2 ^ 16) (byte_at bs 3)
            (omega arith),
      )
      (sym (load_four bs))

-- On every list of bytes the loads by `memcpy` and the loads by shifts agree.
pub decode_fixed_portable :
    (bs : List ℕ)
    → All IsByte bs
    → (decode_fixed32 bs ≡ decode_fixed32_shifts bs)
      × (decode_fixed64 bs ≡ decode_fixed64_shifts bs)
unfolding decode_fixed64 decode_fixed64_shifts
decode_fixed_portable bs h =
    let lo = decode_fixed32-shifts bs h in
    let hi = decode_fixed32-shifts (drop 4 bs) (All-drop IsByte 4 bs h) in
    let fits : decode_fixed32 bs < 2 ^ 32 = unfold decode_fixed32 in load_le-lt 4 bs h in
    (
      sym lo,
      load_eight bs
          ∙ unfold decode_fixed32 in
            rw (lo, hi) (sym (or_fields_high 32 (load_le 4 (drop 4 bs)) (load_le 4 bs) fits)),
    )

-- The value of bytes in memory order reversed, most significant first.
be : ℕ → List ℕ → ℕ
be q [] = q
be q (c ∷ bs) = be (q * 256 + c) bs

eight_more : (l : ℕ) → 2 ^ (8 * suc l) ≡ 256 * 2 ^ (8 * l)
eight_more l = rw (mul-suc 8 l) (simp towards_suc (omega arith))

place :
    (l q c : ℕ)
    → c < 256
    → l < 8
    → bit_or (q * 2 ^ (8 * suc l)) (c * 2 ^ (8 * l) % u64_mod) ≡ (q * 256 + c) * 2 ^ (8 * l)
place l q c hc hl =
    let unit = 2 ^ (8 * l) in
    let small : c * unit < 2 ^ (8 * suc l) =
      rw (eight_more l) (grind (arith, one-le-pow (8 * l) 2)) in
    let word : 2 ^ (8 * suc l) ≤ 2 ^ 64 = pow-le-pow_right (omega arith) {j = 64} (omega arith) in
    let same : c * unit % u64_mod ≡ c * unit = mod-eq_of_lt (omega arith) in
    rw same (or_fields_high (8 * suc l) q (c * unit) small ∙ rw (eight_more l) (omega arith))

endian_loop-be :
    (bs rest : List ℕ) (q : ℕ)
    → All IsByte bs
    → length bs ≤ 8
    → endian_transform_loop (length bs) (bs ++ rest) (q * 2 ^ (8 * length bs)) ≡ be q bs
unfolding endian_transform_loop be
endian_loop-be [] rest q h n = omega arith
endian_loop-be (c ∷ bs) rest q h n =
    rw (place (length bs) q c h.0 (omega arith))
      (endian_loop-be bs rest (q * 256 + c) h.1 (omega arith))

length-reverse : (bs : List ℕ) → length (reverse bs) ≡ length bs
length-reverse [] = refl
length-reverse (c ∷ bs) =
    rw (reverse-append (c ∷ []) bs, length-append) (omega (arith, length-reverse bs))

load_le-append_one :
    (bs : List ℕ) (c : ℕ)
    → load_le (suc (length bs)) (bs ++ c ∷ []) ≡ load_le (length bs) bs + 256 ^ length bs * c
unfolding load_le
load_le-append_one [] c = omega arith
load_le-append_one (b ∷ bs) c =
    omega (arith, load_le-append_one bs c, ap (λ (t : ℕ). t * c) (pow-suc 256 (length bs)))

be-load_le :
    (bs : List ℕ) (q : ℕ) → be q bs ≡ q * 256 ^ length bs + load_le (length bs) (reverse bs)
unfolding be
be-load_le [] q = unfold load_le in omega arith
be-load_le (c ∷ bs) q =
    let snoc : load_le (suc (length bs)) (reverse bs ++ c ∷ [])
        ≡ load_le (length bs) (reverse bs) + 256 ^ length bs * c =
      rw (length-reverse bs) at (load_le-append_one (reverse bs) c) in
    rw (reverse-append (c ∷ []) bs) (
      omega
        (arith, snoc, be-load_le bs (q * 256 + c), ap (λ (t : ℕ). q * t) (pow-suc 256 (length bs))))

-- For a word of at most eight bytes, `EndianTransform` gives the value of those bytes in the
-- opposite order.
pub endian_transform-reverse :
    (bs : List ℕ)
    → All IsByte bs
    → length bs ≤ 8
    → endian_transform (load_le (length bs) bs) (length bs) ≡ load_le (length bs) (reverse bs)
unfolding endian_transform
endian_transform-reverse bs h n =
    let left = 8 - length bs in
    let stored : store_le 8 (load_le (length bs) bs) ≡ bs ++ replicate left 0 =
      subst (λ k. store_le k (load_le (length bs) bs) ≡ bs ++ replicate left 0) (omega arith)
        (store_le-load_le bs left h) in
    let swapped : endian_transform_loop (length bs) (bs ++ replicate left 0) 0 ≡ be 0 bs =
      subst (λ q. endian_transform_loop (length bs) (bs ++ replicate left 0) q ≡ be 0 bs)
        (zero-mul (2 ^ (8 * length bs))) (endian_loop-be bs (replicate left 0) 0 h n) in
    rw stored (omega (arith, swapped, be-load_le bs 0))
