-- ===== src/Coding/Varint.antt =====
-- Variable-width integers: what the encoders write, and what the decoders read.
use rocksutil.Base.{
  ℕ, zero, suc, ◌+◌, ◌*◌, ◌/◌, ◌%◌, ◌^◌, ◌≤◌, ◌<◌, bit_and, bit_or, ◌≡◌, refl, sym, ap, subst, ◌∙◌,
  ltb, leb, ◌==◌, if◌then◌else◌, Bool-cases, inl, inr, Option, none, some, List, [], ◌∷◌, ◌++◌,
  length, IsU32, IsU64, arith, All, All-append, IsByte, u32_mod, u64_mod, lt_wf,
}
use rocksutil.Base.Bits.{or_fields, and_mask, or_flag, and_flag, or_lt}
use rocksutil.Coding.{
  encode_varint32, encode_varint64, encode_varint64_loop, varint_length, varint_length_loop,
  get_varint_loop, get_varint32_ptr_fallback, get_varint32_ptr, get_varint64_ptr, get_varint32,
  get_varint64, put_varint32, put_varint64,
}
use mathlib.Core.WellFounded.{Acc}
use native.Mathlib.Nat.{div-add-mod, mod-eq_of_lt, one-le-pow, mod-lt, pow-suc, suc-add, zero-add}
use native.Mathlib.Numerals.{towards_suc}

-- Groups of seven bits, lowest first, for a value below 128 ^ (k + 1).
unfoldable pub groups : ℕ → ℕ → List ℕ
groups zero v = v ∷ []
groups (suc k) v =
    let rest = groups k (v / 128) in if ltb v 128 then v ∷ [] else (v % 128 + 128) ∷ rest

low_group : (x : ℕ) → bit_and x 127 ≡ x % 128
low_group x = and_mask 7 x

encode_varint32-groups : (v : ℕ) → IsU32 v → encode_varint32 v ≡ groups 4 v
unfolding encode_varint32 groups
encode_varint32-groups v h =
    ground (arith, or_flag v, or_flag (v / 2 ^ 7), or_flag (v / 2 ^ 14), or_flag (v / 2 ^ 21))

encode_varint64_loop-groups :
    (k v : ℕ) (w : Acc ◌<◌ v) → v < 128 ^ suc k → encode_varint64_loop v w ≡ groups k v
unfolding encode_varint64_loop groups
encode_varint64_loop-groups zero v (Acc.intro _ smaller) h = ground arith
encode_varint64_loop-groups (suc k) v (Acc.intro _ smaller) h = grind (
  arith,
  or_flag (bit_and v 127),
  low_group v,
  pow-suc 128 (suc k),
  λ (w : Acc ◌<◌ (v / 128)). encode_varint64_loop-groups k (v / 128) w,
)

encode_varint64-groups : (v : ℕ) → IsU64 v → encode_varint64 v ≡ groups 9 v
unfolding encode_varint64
encode_varint64-groups v h = encode_varint64_loop-groups 9 v (lt_wf.apply v) (omega arith)

groups_more : (k j v : ℕ) → v < 128 ^ suc k → groups (k + j) v ≡ groups k v
unfolding groups
groups_more zero zero v h = refl
groups_more zero (suc j) v h =
    subst (λ n. groups n v ≡ v ∷ []) (sym (zero-add (suc j))) (ground arith)
groups_more (suc k) j v h =
    rw (suc-add k j) (ground (arith, groups_more k j (v / 128), pow-suc 128 (suc k)))

-- On every 32-bit value the unrolled encoder writes the same bytes as the 64-bit loop.
pub encode_varint32-eq : (v : ℕ) → IsU32 v → encode_varint32 v ≡ encode_varint64 v
encode_varint32-eq v h =
    encode_varint32-groups v h
    ∙ sym (groups_more 4 5 v (omega arith))
    ∙ sym (encode_varint64-groups v (omega arith))

-- One byte read by the loop: the last one, or one with the flag over the group `g`.
read_last :
    (s m b : ℕ) (p : List ℕ) (shift acc : ℕ)
    → b < 128
    → shift ≤ s
    → acc < 2 ^ shift
    → acc + b * 2 ^ shift < m
    → get_varint_loop s m (b ∷ p) shift acc ≡ some (acc + b * 2 ^ shift, p)
unfolding get_varint_loop
read_last s m b p shift acc hb hs ha fits = ground (
  arith,
  and_flag b,
  or_fields shift acc b ha,
  mod-eq_of_lt {n = b * 2 ^ shift} {m = m} (omega arith),
)

read_more :
    (s m g : ℕ) (p : List ℕ) (shift acc : ℕ)
    → g < 128
    → shift ≤ s
    → acc < 2 ^ shift
    → acc + g * 2 ^ shift < m
    → get_varint_loop s m ((g + 128) ∷ p) shift acc
      ≡ get_varint_loop s m p (shift + 7) (acc + g * 2 ^ shift)
unfolding get_varint_loop
read_more s m g p shift acc hg hs ha fits =
    let group : bit_and (g + 128) 127 ≡ g = omega (arith, low_group (g + 128)) in
    rw (group, mod-eq_of_lt {n = g * 2 ^ shift} {m = m} (omega arith), or_fields shift acc g ha)
      (ground (arith, and_flag (g + 128)))

group_size : (shift : ℕ) → 128 * 2 ^ shift ≡ 2 ^ (shift + 7)
group_size shift = simp towards_suc (omega arith)

-- The lowest group of a number, and the groups above it.
lowest_group : (shift n : ℕ) → n * 2 ^ shift ≡ n % 128 * 2 ^ shift + n / 128 * 2 ^ (shift + 7)
lowest_group shift n =
    let above : n / 128 * (128 * 2 ^ shift) ≡ n / 128 * 2 ^ (shift + 7) =
      ap (λ (size : ℕ). n / 128 * size) (group_size shift) in
    let parts : (128 * (n / 128) + n % 128) * 2 ^ shift ≡ n * 2 ^ shift =
      ap (λ (k : ℕ). k * 2 ^ shift) (div-add-mod n 128) in
    omega arith

room : (g s acc : ℕ) → g < 128 → acc < 2 ^ s → acc + g * 2 ^ s < 2 ^ (s + 7)
room g s acc hg ha = rw (sym (group_size s)) (grind arith)

-- `w` is what is still to be read; it counts from bit `shift` on.
get_varint_loop-groups :
    (s m k w : ℕ) (p : List ℕ) (shift acc : ℕ)
    → w < 128 ^ suc k
    → shift + 7 * k ≤ s
    → acc < 2 ^ shift
    → acc + w * 2 ^ shift < m
    → get_varint_loop s m (groups k w ++ p) shift acc ≡ some (acc + w * 2 ^ shift, p)
unfolding groups
get_varint_loop-groups s m zero w p shift acc hw hs ha fits =
    read_last s m w p shift acc (omega arith) (omega arith) ha fits
get_varint_loop-groups s m (suc k) w p shift acc hw hs ha fits = ground (
  arith,
  read_last s m w p shift acc,
  lowest_group shift w,
  read_more s m (w % 128) (groups k (w / 128) ++ p) shift acc,
  room (w % 128) shift acc,
  pow-suc 128 (suc k),
  get_varint_loop-groups s m k (w / 128) p (shift + 7) (acc + w % 128 * 2 ^ shift),
)

-- The inline test of the first byte changes nothing: on bytes, `GetVarint32Ptr` gives what its
-- fallback loop gives.
pub get_varint32_ptr-fallback :
    (p : List ℕ) → All IsByte p → get_varint32_ptr p ≡ get_varint32_ptr_fallback p
unfolding get_varint32_ptr
get_varint32_ptr-fallback [] h = refl
get_varint32_ptr-fallback (b ∷ p) h =
    unfold get_varint_loop in
    ground
      (arith, or_fields 0 0 b, and_flag b, mod-eq_of_lt {n = b} {m = u32_mod} (omega (arith, h.0)))

groups-IsByte : (k w : ℕ) → w < 128 ^ suc k → All IsByte (groups k w)
unfolding groups
groups-IsByte zero w h = omega arith
groups-IsByte (suc k) w h = ground (arith, groups-IsByte k (w / 128), pow-suc 128 (suc k))

get_varint32_ptr-groups :
    (w : ℕ) (rest : List ℕ)
    → All IsByte rest
    → IsU32 w
    → get_varint32_ptr (groups 4 w ++ rest) ≡ some (w, rest)
get_varint32_ptr-groups w rest bytes h =
    let small : w < 128 ^ 5 = omega arith in
    get_varint32_ptr-fallback (groups 4 w ++ rest)
      (All-append IsByte (groups 4 w) rest (groups-IsByte 4 w small) bytes)
    ∙ unfold get_varint32_ptr_fallback in
      (get_varint_loop-groups 28 u32_mod 4 w rest 0 0 small (omega arith) (omega arith)
          (omega arith)
        ∙ ap (λ v. some (v, rest)) (omega arith))

get_varint64_ptr-groups :
    (w : ℕ) (rest : List ℕ) → IsU64 w → get_varint64_ptr (groups 9 w ++ rest) ≡ some (w, rest)
unfolding get_varint64_ptr
get_varint64_ptr-groups w rest h =
    get_varint_loop-groups 63 u64_mod 9 w rest 0 0 (omega arith) (omega arith) (omega arith)
      (omega arith)
    ∙ ap (λ v. some (v, rest)) (omega arith)

-- `GetVarint32` reads back the 32-bit value that `PutVarint32` wrote, and leaves the bytes that follow.
pub get_varint32-put_varint32 :
    (v : ℕ) (rest : List ℕ)
    → IsU32 v
    → All IsByte rest
    → get_varint32 (put_varint32 [] v ++ rest) ≡ (rest, some v)
unfolding put_varint32
get_varint32-put_varint32 v rest h bytes =
    rw (encode_varint32-groups v h)
      (unfold get_varint32 in rw (get_varint32_ptr-groups v rest bytes h))

-- `GetVarint64` reads back the 64-bit value that `PutVarint64` wrote, and leaves what follows.
pub get_varint64-put_varint64 :
    (v : ℕ) (rest : List ℕ) → IsU64 v → get_varint64 (put_varint64 [] v ++ rest) ≡ (rest, some v)
unfolding put_varint64
get_varint64-put_varint64 v rest h =
    rw (encode_varint64-groups v h) (unfold get_varint64 in rw (get_varint64_ptr-groups v rest h))

varint_length_loop-eq :
    (v len : ℕ) (w u : Acc ◌<◌ v)
    → varint_length_loop v len w + 1 ≡ len + length (encode_varint64_loop v u)
unfolding varint_length_loop encode_varint64_loop
varint_length_loop-eq v len (Acc.intro _ smaller) (Acc.intro _ fewer) = grind (
  arith,
  λ (p : v / 128 < v).
      varint_length_loop-eq (v / 128) (len + 1) (smaller (v / 128) p) (fewer (v / 128) p),
)

-- `VarintLength` is the number of bytes that `EncodeVarint64` writes.
pub varint_length-eq : (v : ℕ) → varint_length v ≡ length (encode_varint64 v)
unfolding varint_length encode_varint64
varint_length-eq v = omega (arith, varint_length_loop-eq v 1 (lt_wf.apply v) (lt_wf.apply v))

-- What one run of the loop on any input returns and consumes.
abbrev Consumed : ℕ → ℕ → ℕ → List ℕ → ℕ → List ℕ → Type 0
Consumed w s shift p v rest =
    (front : List ℕ) × (p ≡ front ++ rest)
    × (v < 2 ^ w)
    × (1 ≤ length front)
    × (7 * length front + shift ≤ s + 7)

get_varint_loop-Consumed :
    (w s : ℕ) (p : List ℕ) (shift acc : ℕ) {v : ℕ} {rest : List ℕ}
    → acc < 2 ^ w
    → get_varint_loop s (2 ^ w) p shift acc ≡ some (v, rest)
    → Consumed w s shift p v rest
unfolding get_varint_loop
get_varint_loop-Consumed w s [] shift acc ha e = cc
get_varint_loop-Consumed w s (b ∷ p) shift acc {v} {rest} ha e =
    let more = bit_or acc (bit_and b 127 * 2 ^ shift % 2 ^ w) in
    let last = bit_or acc (b * 2 ^ shift % 2 ^ w) in
    let pos : 0 < 2 ^ w = one-le-pow w 2 (omega arith) in
    let more_lt : more < 2 ^ w = or_lt w acc _ ha (mod-lt (bit_and b 127 * 2 ^ shift) pos) in
    let last_lt : last < 2 ^ w = or_lt w acc _ ha (mod-lt (b * 2 ^ shift) pos) in
    elim (Bool-cases (leb shift s)) [
      | inr over ↦
          let never : ◌≡◌ {A = Option (ℕ × List ℕ)} none (some (v, rest)) = rw over at e in cc
      | inl within ↦ elim (Bool-cases (bit_and b 128 == 0)) [
        | inl done ↦ (b ∷ [], ground arith, ground arith, omega arith, ground arith)
        | inr flag ↦
            let (front, whole, fits, one, bound) =
              get_varint_loop-Consumed w s p (shift + 7) more more_lt (rw (within, flag) at e) in
            (b ∷ front, ap (λ q. b ∷ q) whole, fits, omega arith, omega arith)
      ]
    ]

-- Where `GetVarint32Ptr` returns a number, on any bytes, it fits 32 bits; the bytes read, one to
-- five, stand before those left.
pub get_varint32_ptr_takes :
    (p : List ℕ) (v : ℕ) (rest : List ℕ)
    → All IsByte p
    → get_varint32_ptr p ≡ some (v, rest)
    → (front : List ℕ) × (p ≡ front ++ rest) × IsU32 v × (1 ≤ length front) × (length front ≤ 5)
unfolding get_varint32_ptr_fallback
get_varint32_ptr_takes p v rest bytes e =
    let slow : get_varint32_ptr_fallback p ≡ some (v, rest) =
      sym (get_varint32_ptr-fallback p bytes) ∙ e in
    let (front, whole, fits, one, bound) =
      get_varint_loop-Consumed 32 28 p 0 0 {v = v} {rest = rest} (omega arith) slow in
    (front, whole, fits, one, omega arith)

-- Where `GetVarint64Ptr` returns a number, on any input, it fits 64 bits; the bytes read, one to
-- ten, stand before those left.
pub get_varint64_ptr_takes :
    (p : List ℕ) (v : ℕ) (rest : List ℕ)
    → get_varint64_ptr p ≡ some (v, rest)
    → (front : List ℕ) × (p ≡ front ++ rest) × IsU64 v × (1 ≤ length front) × (length front ≤ 10)
unfolding get_varint64_ptr
get_varint64_ptr_takes p v rest e =
    let (front, whole, fits, one, bound) = get_varint_loop-Consumed 64 63 p 0 0 (omega arith) e in
    (front, whole, fits, one, omega arith)
