-- ===== src/Crc32c/Extend.antt =====
-- `ExtendImpl` for every address and both word routines, against the bit-serial checksum.
use rocksutil.Base.{
  ℕ, zero, suc, ◌+◌, ◌-◌, ◌*◌, ◌/◌, ◌≤◌, bit_xor, ◌≡◌, refl, sym, ap, subst, ◌∙◌, List, [], ◌∷◌,
  ◌++◌, arith, IsByte, IsU32, All, length, length-drop, take-append-drop, drop-add, All-take,
  All-drop, All-append, take, drop, leb, if◌then◌else◌, Bool-cases, inl, inr,
}
use rocksutil.Base.Bits.{xor-xor_cancel, xor_lt}
use rocksutil.Crc32c.{step_all, slow_crc32, by_eight, by_sixteen, extend_impl, extend}
use rocksutil.Crc32c.Bitwise.{rounds, step1-rounds, step_all-append, step_all-IsU32}
use rocksutil.Crc32c.Slow.{slow_crc32-step_all}
use native.Mathlib.Nat.{mod-eq_of_lt}

-- The register of the bit-serial CRC-32C after the bytes of a list.
pub serial : ℕ → List ℕ → ℕ
serial l [] = l
serial l (b ∷ p) = serial (rounds 8 (bit_xor l b)) p

-- The checksum: the register is complemented before and after.
pub crc32c : ℕ → List ℕ → ℕ
crc32c crc buf = bit_xor (serial (bit_xor crc 0xffffffff) buf) 0xffffffff

serial-step_all : (l : ℕ) (p : List ℕ) → All IsByte p → step_all l p ≡ serial l p
unfolding serial step_all
serial-step_all l [] h = refl
serial-step_all l (b ∷ p) h =
    rw (step1-rounds l b h.0) (serial-step_all (rounds 8 (bit_xor l b)) p h.1)

-- What is asked of `CRC32`: on a 32-bit register it takes eight bytes as eight steps do.
abbrev pub TakesEight : (ℕ → List ℕ → ℕ) → Type 0
TakesEight crc32 =
    (l : ℕ) (p : List ℕ) → IsU32 l → All IsByte p → 8 ≤ length p → crc32 l p ≡ step_all l (take 8 p)

step_all-take-drop :
    (n l : ℕ) (p : List ℕ) → step_all (step_all l (take n p)) (drop n p) ≡ step_all l p
step_all-take-drop n l p =
    sym (step_all-append l (take n p) (drop n p)) ∙ ap (step_all l) (take-append-drop n p)

module _ (crc32 : ℕ → List ℕ → ℕ) (takes : TakesEight crc32) where
  by_eight-step_all :
      (n l : ℕ) (p : List ℕ) → IsU32 l → All IsByte p → by_eight crc32 n l p ≡ step_all l p
  unfolding by_eight
  by_eight-step_all zero l p hl hp = refl
  by_eight-step_all (suc n) l p hl hp = elim (Bool-cases (leb 8 (length p))) [
    | inr few ↦ rw few
    | inl more ↦
        let l' = step_all l (take 8 p) in
        rw (more, takes l p hl hp (ground arith))
          (by_eight-step_all n l' (drop 8 p)
              (step_all-IsU32 l (take 8 p) hl (All-take IsByte 8 p hp)) (All-drop IsByte 8 p hp)
            ∙ step_all-take-drop 8 l p)
  ]

  by_sixteen-step_all :
      (n l : ℕ) (p : List ℕ) → IsU32 l → All IsByte p → by_sixteen crc32 n l p ≡ step_all l p
  unfolding by_sixteen
  by_sixteen-step_all zero l p hl hp = by_eight-step_all (length p) l p hl hp
  by_sixteen-step_all (suc n) l p hl hp = elim (Bool-cases (leb 16 (length p))) [
    | inr few ↦ rw few (by_eight-step_all (length p) l p hl hp)
    | inl more ↦
        let enough : 16 ≤ length p = ground arith in
        let l₁ : ℕ = step_all l (take 8 p) in
        let p₁ : List ℕ = drop 8 p in
        let h₁ : IsU32 l₁ = step_all-IsU32 l (take 8 p) hl (All-take IsByte 8 p hp) in
        let b₁ : All IsByte p₁ = All-drop IsByte 8 p hp in
        let l₂ : ℕ = step_all l₁ (take 8 p₁) in
        let h₂ : IsU32 l₂ = step_all-IsU32 l₁ (take 8 p₁) h₁ (All-take IsByte 8 p₁ b₁) in
        rw
          (
            more,
            takes l p hl hp (omega arith),
            takes l₁ p₁ h₁ b₁ (rw length-drop (omega arith)),
            drop-add 8 8 p,
          )
          (by_sixteen-step_all n l₂ (drop 8 p₁) h₂ (All-drop IsByte 8 p₁ b₁)
            ∙ step_all-take-drop 8 l₁ p₁
            ∙ step_all-take-drop 8 l p)
  ]

  -- With any word routine that takes eight bytes as eight table steps do, and at any address of the
  -- buffer, `ExtendImpl` gives the bit-serial checksum.
  pub extend_impl-crc32c :
      (pval crc : ℕ) (buf : List ℕ)
      → IsU32 crc
      → All IsByte buf
      → extend_impl crc32 pval crc buf ≡ crc32c crc buf
  unfolding extend_impl crc32c
  extend_impl-crc32c pval crc buf hc hb =
      let l : ℕ = bit_xor crc 0xffffffff in
      let head : ℕ = (pval + 15) / 16 * 16 - pval in
      let n : ℕ = if leb head (length buf) then head else 0 in
      let hl : IsU32 l = xor_lt 32 crc 0xffffffff hc (omega arith) in
      let end_lt : IsU32 (step_all l buf) = step_all-IsU32 l buf hl hb in
      let tail : by_sixteen crc32 (length (drop n buf)) (step_all l (take n buf)) (drop n buf)
          ≡ step_all l buf =
        by_sixteen-step_all (length (drop n buf)) (step_all l (take n buf)) (drop n buf)
          (step_all-IsU32 l (take n buf) hl (All-take IsByte n buf hb)) (All-drop IsByte n buf hb)
        ∙ step_all-take-drop n l buf in
      rw tail (
        mod-eq_of_lt (xor_lt 32 (step_all l buf) 0xffffffff end_lt (omega arith))
        ∙ ap (λ x. bit_xor x 0xffffffff) (serial-step_all l buf hb))

-- `Extend` without a CRC instruction gives the bit-serial checksum of the bytes.
pub extend-crc32c :
    (crc : ℕ) (buf : List ℕ) → IsU32 crc → All IsByte buf → extend crc buf ≡ crc32c crc buf
unfolding extend
extend-crc32c crc buf hc hb = extend_impl-crc32c slow_crc32 slow_crc32-step_all 0 crc buf hc hb

pub extend-IsU32 : (crc : ℕ) (buf : List ℕ) → IsU32 crc → All IsByte buf → IsU32 (extend crc buf)
extend-IsU32 crc buf hc hb =
    let hl : IsU32 (bit_xor crc 0xffffffff) = xor_lt 32 crc 0xffffffff hc (omega arith) in
    subst IsU32 (sym (extend-crc32c crc buf hc hb)) (
      unfold crc32c in
      xor_lt 32 (serial (bit_xor crc 0xffffffff) buf) 0xffffffff
        (subst IsU32 (serial-step_all (bit_xor crc 0xffffffff) buf hb)
          (step_all-IsU32 (bit_xor crc 0xffffffff) buf hl hb))
        (omega arith))

serial-append : (l : ℕ) (p q : List ℕ) → serial l (p ++ q) ≡ serial (serial l p) q
unfolding serial
serial-append l [] q = refl
serial-append l (b ∷ p) q = serial-append (rounds 8 (bit_xor l b)) p q

crc32c-append : (crc : ℕ) (a b : List ℕ) → crc32c (crc32c crc a) b ≡ crc32c crc (a ++ b)
unfolding crc32c
crc32c-append crc a b = rw (
  xor-xor_cancel (serial (bit_xor crc 0xffffffff) a) 0xffffffff,
  serial-append (bit_xor crc 0xffffffff) a b,
)

-- Extending the checksum of one buffer by another gives the checksum of the two joined.
pub extend-append :
    (crc : ℕ) (a b : List ℕ)
    → IsU32 crc
    → All IsByte a
    → All IsByte b
    → extend (extend crc a) b ≡ extend crc (a ++ b)
extend-append crc a b hc ha hb =
    extend-crc32c (extend crc a) b (extend-IsU32 crc a hc ha) hb
    ∙ ap (λ x. crc32c x b) (extend-crc32c crc a hc ha)
    ∙ crc32c-append crc a b
    ∙ sym (extend-crc32c crc (a ++ b) hc (All-append IsByte a b ha hb))
