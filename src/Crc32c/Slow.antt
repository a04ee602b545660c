-- ===== src/Crc32c/Slow.antt =====
-- `Slow_CRC32`: two table lookups by words are eight steps by bytes.
use rocksutil.Base.{
  ℕ, ◌+◌, ◌*◌, ◌/◌, ◌%◌, ◌^◌, ◌<◌, ◌≤◌, bit_xor, ◌≡◌, refl, sym, ap, ◌∙◌, List, [], ◌∷◌, arith,
  IsByte, IsU32, All, length, length-drop, take-add, All-take, All-drop, take, drop, u32_mod,
}
use rocksutil.Base.Bits.{xor_assoc, xor_disjoint, xor_lt, and_mask, agree_below, agree_below→eq}
use rocksutil.Coding.{decode_fixed32, load_le}
use rocksutil.Crc32c.Tables.{table0, table1, table2, table3}
use rocksutil.Crc32c.{at, step1, step_all, slow_word, slow_crc32}
use rocksutil.Crc32c.Bitwise.{
  round, rounds, rounds-xor, rounds-add, rounds-power, rounds-absorb, table0-byte, step1-rounds,
  step_all-append, step_all-IsU32,
}

table1-byte : (i : ℕ) → i < 256 → at table1 i ≡ rounds 16 i
unfolding agree_below table1 rounds round
table1-byte = agree_below→eq _ _ 256 refl

table2-byte : (i : ℕ) → i < 256 → at table2 i ≡ rounds 24 i
unfolding agree_below table2 rounds round
table2-byte = agree_below→eq _ _ 256 refl

table3-byte : (i : ℕ) → i < 256 → at table3 i ≡ rounds 32 i
unfolding agree_below table3 rounds round
table3-byte = agree_below→eq _ _ 256 refl

-- Four bytes, lowest first, as one word.
abbrev word : ℕ → ℕ → ℕ → ℕ → ℕ
word a b c d = a + 2 ^ 8 * b + 2 ^ 16 * c + 2 ^ 24 * d

word-xor :
    (a b c d : ℕ)
    → a < 256
    → b < 256
    → c < 256
    → word a b c d ≡ bit_xor (bit_xor (bit_xor a (2 ^ 8 * b)) (2 ^ 16 * c)) (2 ^ 24 * d)
word-xor a b c d ha hb hc = rw (
  xor_disjoint 8 a b ha,
  xor_disjoint 16 (a + 2 ^ 8 * b) c (omega arith),
  xor_disjoint 24 (a + 2 ^ 8 * b + 2 ^ 16 * c) d (omega arith),
)

step1-after : (n x b : ℕ) → IsByte b → step1 (rounds n x) b ≡ rounds (n + 8) (bit_xor x (2 ^ n * b))
step1-after n x b h =
    step1-rounds (rounds n x) b h
    ∙ ap (rounds 8) (rounds-absorb n x b)
    ∙ sym (rounds-add n 8 (bit_xor x (2 ^ n * b)))

-- Four steps are 32 rounds on the register with the word joined in.
four_steps :
    (l a b c d : ℕ)
    → IsByte a
    → IsByte b
    → IsByte c
    → IsByte d
    → step1 (step1 (step1 (step1 l a) b) c) d ≡ rounds 32 (bit_xor l (word a b c d))
four_steps l a b c d ha hb hc hd =
    rw (step1-rounds l a ha, step1-after 8 _ b hb, step1-after 16 _ c hc, step1-after 24 _ d hd)
      (ap (rounds 32) (
        ap (λ x. bit_xor (bit_xor x (2 ^ 16 * c)) (2 ^ 24 * d)) (xor_assoc l a (2 ^ 8 * b))
        ∙ ap (λ x. bit_xor x (2 ^ 24 * d)) (xor_assoc l (bit_xor a (2 ^ 8 * b)) (2 ^ 16 * c))
        ∙ xor_assoc l (bit_xor (bit_xor a (2 ^ 8 * b)) (2 ^ 16 * c)) (2 ^ 24 * d)
        ∙ ap (bit_xor l) (sym (word-xor a b c d ha hb hc))))

rounds-high : (m n y : ℕ) → rounds (m + n) (2 ^ m * y) ≡ rounds n y
rounds-high m n y = rounds-add m n (2 ^ m * y) ∙ ap (rounds n) (rounds-power m y)

-- 32 rounds on a word are one lookup for each of its bytes.
lookups :
    (a b c d : ℕ)
    → IsByte a
    → IsByte b
    → IsByte c
    → IsByte d
    → bit_xor (bit_xor (bit_xor (at table3 a) (at table2 b)) (at table1 c)) (at table0 d)
      ≡ rounds 32 (word a b c d)
lookups a b c d ha hb hc hd = rw (
  word-xor a b c d ha hb hc,
  rounds-xor 32 (bit_xor (bit_xor a (2 ^ 8 * b)) (2 ^ 16 * c)) (2 ^ 24 * d),
  rounds-xor 32 (bit_xor a (2 ^ 8 * b)) (2 ^ 16 * c),
  rounds-xor 32 a (2 ^ 8 * b),
  rounds-high 8 24 b,
  rounds-high 16 16 c,
  rounds-high 24 8 d,
  table3-byte a ha,
  table2-byte b hb,
  table1-byte c hc,
  table0-byte d hd,
)

slow_word-four :
    (l a b c d : ℕ) (rest : List ℕ)
    → IsU32 l
    → IsByte a
    → IsByte b
    → IsByte c
    → IsByte d
    → slow_word l (a ∷ b ∷ c ∷ d ∷ rest) ≡ step1 (step1 (step1 (step1 l a) b) c) d
unfolding slow_word
slow_word-four l a b c d rest hl ha hb hc hd =
    let loaded : decode_fixed32 (a ∷ b ∷ c ∷ d ∷ rest) ≡ word a b c d =
      unfold decode_fixed32 load_le in omega arith in
    let x = bit_xor l (word a b c d) in
    let fits : x < 2 ^ 32 = xor_lt 32 l (word a b c d) hl (omega arith) in
    let same : x % u32_mod ≡ x = omega arith in
    let bytes : word (x % 256) (x / 2 ^ 8 % 256) (x / 2 ^ 16 % 256) (x / 2 ^ 24) ≡ x =
      omega arith in
    rw (loaded, same, and_mask 8 x, and_mask 8 (x / 2 ^ 8), and_mask 8 (x / 2 ^ 16))
      (lookups (x % 256) (x / 2 ^ 8 % 256) (x / 2 ^ 16 % 256) (x / 2 ^ 24) (omega arith)
          (omega arith) (omega arith) (omega arith)
        ∙ ap (rounds 32) bytes
        ∙ sym (four_steps l a b c d ha hb hc hd))

slow_word-step_all :
    (l : ℕ) (p : List ℕ)
    → IsU32 l
    → All IsByte p
    → 4 ≤ length p
    → slow_word l p ≡ step_all l (take 4 p)
unfolding step_all
slow_word-step_all l [] hl hp hn = absurd (omega arith)
slow_word-step_all l (a ∷ []) hl hp hn = absurd (omega arith)
slow_word-step_all l (a ∷ b ∷ []) hl hp hn = absurd (omega arith)
slow_word-step_all l (a ∷ b ∷ c ∷ []) hl hp hn = absurd (omega arith)
slow_word-step_all l (a ∷ b ∷ c ∷ d ∷ p) hl (ha, (hb, (hc, (hd, _)))) hn =
    slow_word-four l a b c d p hl ha hb hc hd

-- On a 32-bit register and eight bytes or more, `Slow_CRC32` does what eight steps by bytes do.
pub slow_crc32-step_all :
    (l : ℕ) (p : List ℕ)
    → IsU32 l
    → All IsByte p
    → 8 ≤ length p
    → slow_crc32 l p ≡ step_all l (take 8 p)
unfolding slow_crc32
slow_crc32-step_all l p hl hp hn =
    let front : List ℕ = take 4 p in
    let l' : ℕ = step_all l front in
    let word_lt : IsU32 l' = step_all-IsU32 l front hl (All-take IsByte 4 p hp) in
    rw
      (
        slow_word-step_all l p hl hp (omega arith),
        slow_word-step_all l' (drop 4 p) word_lt (All-drop IsByte 4 p hp)
            (rw length-drop (omega arith)),
        take-add 4 4 p,
      )
      (sym (step_all-append l front (take 4 (drop 4 p))))
