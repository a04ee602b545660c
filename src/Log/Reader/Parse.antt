-- ===== src/Log/Reader/Parse.antt =====
-- `ReadPhysicalRecord` on a buffer that begins with a well-formed physical record.
use rocksutil.Base.{
  ℕ, suc, ◌+◌, ◌-◌, ◌*◌, ◌/◌, ◌%◌, ◌^◌, ◌<◌, ◌≡◌, refl, sym, ap, ◌∙◌, subst, bit_or, Bool, true,
  false, ◌&&◌, ltb, leb, ◌==◌, ==_refl, ltb-zero, Bool-cases, inl, inr, List, [], ◌∷◌, ◌++◌,
  append_assoc, length, take, drop, All, IsByte, IsU32, u32_mod, arith, length-append, sub64,
  take-append_eq, drop-append_eq, All-append,
}
use rocksutil.Base.Bits.{or_fields}
use rocksutil.Coding.{encode_fixed32, decode_fixed32, store_le}
use rocksutil.Coding.Fixed.{decode_fixed32-encode_fixed32, store_le-IsByte}
use rocksutil.Crc32c.{value, mask, unmask}
use rocksutil.Crc32c.Extend.{extend-IsU32}
use rocksutil.Crc32c.Mask.{mask-IsU32, unmask-mask}
use rocksutil.Log.{RecordType, number}
use rocksutil.Log.Layout.{physical, log_bytes}
use rocksutil.Log.Reader.{Reader, done, sign_extend, read_body, read_round}

two_bytes : (n : ℕ) → n < 65536 → bit_or (n % 256) (n / 256 % 256 * 2 ^ 8) ≡ n
two_bytes n h = or_fields 8 (n % 256) (n / 256 % 256) (omega arith) ∙ omega arith

value-IsU32 : (bs : List ℕ) → All IsByte bs → IsU32 (value bs)
unfolding value
value-IsU32 bs h = extend-IsU32 0 bs (omega arith) h

-- The checksum that a record holds is the one that the reader computes.
stored_crc :
    (bs rest : List ℕ)
    → All IsByte bs
    → unmask (decode_fixed32 (encode_fixed32 (mask (value bs)) ++ rest)) ≡ value bs
stored_crc bs rest h =
    ap unmask (decode_fixed32-encode_fixed32 (mask (value bs)) rest (mask-IsU32 (value bs)))
    ∙ unmask-mask (value bs) (value-IsU32 bs h)

and_false : (b : Bool) → (b && false) ≡ false
and_false true = refl
and_false false = refl

module _ {ℓ} {F : Type ℓ} where
  -- The body of the parser, past the header.
  read_body_lem :
      (r : Reader F) (size n type : ℕ) (fragment p rest head : List ℕ) (drop_size : ℕ)
      → r.buffer ≡ head ++ (p ++ rest)
      → length head ≡ size
      → length p ≡ n
      → r.initial_offset ≡ 0
      → (type == 0) ≡ false
      → value (take (n + size - 6) (drop 6 (head ++ (p ++ rest))))
        ≡ unmask (decode_fixed32 (head ++ (p ++ rest)))
      → read_body r size n type fragment drop_size ≡ record {
        reader = record r { buffer = rest };
        record_type = type;
        fragment = p;
        drop_size = drop_size;
      }
  unfolding read_body
  read_body_lem r size n type fragment p rest head drop_size e he hp origin kind crc =
      let b : List ℕ = head ++ (p ++ rest) in
      let fits : ltb (length b) (size + n) ≡ false =
        ground (arith, length-append head (p ++ rest), length-append p rest) in
      let checks : (value (take (n + size - 6) (drop 6 b)) == unmask (decode_fixed32 b)) ≡ true =
        rw crc (==_refl _) in
      let whole : head ++ (p ++ rest) ≡ (head ++ p) ++ rest = sym (append_assoc head p rest) in
      let left : drop (size + n) b ≡ rest =
        rw whole
          (drop-append_eq (size + n) (head ++ p) rest (length-append head p ∙ omega arith)) in
      let taken : take n (drop size b) ≡ p =
        rw (drop-append_eq size head (p ++ rest) he) (take-append_eq n p rest hp) in
      rw (e, fits, kind, checks, left, taken, origin, and_false r.checksum) (rw (ltb-zero _))

  -- A record in the format without the log number.
  pub legacy_round :
      (r : Reader F) (log_number : ℕ) (t : RecordType) (fragment p rest : List ℕ) (drop_size : ℕ)
      → r.initial_offset ≡ 0
      → All IsByte p
      → length p < 65536
      → 0 < number t
      → number t < 5
      → read_round (record r { buffer = physical false log_number t p ++ rest }) fragment drop_size
        ≡ done (record {
          reader = record r { buffer = rest };
          record_type = number t;
          fragment = p;
          drop_size = drop_size;
        })
  unfolding read_round physical log_bytes encode_fixed32 store_le sign_extend
  legacy_round r log_number t fragment p rest drop_size origin bytes small low high =
      let v : ℕ = mask (value (number t ∷ p)) in
      let head : List ℕ =
        encode_fixed32 v ++ (length p % 256 ∷ length p / 256 % 256 ∷ number t ∷ []) in
      let b : List ℕ = head ++ (p ++ rest) in
      let r₀ : Reader F = record r { buffer = b } in
      let long : ltb (length b) 7 ≡ false = ground arith in
      let signed : sign_extend (number t) ≡ number t = ground arith in
      let legacy : (leb 5 (number t) && leb (number t) 8) ≡ false = ground arith in
      let real : (number t == 0) ≡ false = ground arith in
      let one_more : suc (length p) ≡ length p + 7 - 6 = omega arith in
      let crc : value (take (length p + 7 - 6) (drop 6 b)) ≡ unmask (decode_fixed32 b) =
        ap value (
          subst (λ k. take k (number t ∷ (p ++ rest)) ≡ number t ∷ p) one_more
            (take-append_eq (suc (length p)) (number t ∷ p) rest refl))
        ∙ sym (
            stored_crc (number t ∷ p)
              (length p % 256 ∷ length p / 256 % 256 ∷ number t ∷ (p ++ rest))
              (omega arith, bytes)) in
      rw (long, two_bytes (length p) small, signed, legacy)
        (ap done (
          read_body_lem r₀ 7 (length p) (number t) fragment p rest head drop_size refl refl refl
            origin real crc))

  -- A record in the recyclable format, with the reader's log number.
  pub recyclable_round :
      (r : Reader F) (log_number : ℕ) (t : RecordType) (fragment p rest : List ℕ) (drop_size : ℕ)
      → r.initial_offset ≡ 0
      → All IsByte p
      → length p < 65536
      → 4 < number t
      → number t < 9
      → r.log_number ≡ log_number % u32_mod
      → (recycled : Bool) × (read_round
            (record r { buffer = physical true log_number t p ++ rest })
            fragment
            drop_size
          ≡ done (record {
            reader = record r { buffer = rest; recycled = recycled };
            record_type = number t;
            fragment = p;
            drop_size = drop_size;
          }))
  unfolding read_round physical log_bytes encode_fixed32 store_le sign_extend
  recyclable_round r log_number t fragment p rest drop_size origin bytes small low high same =
      let log : List ℕ = encode_fixed32 (log_number % u32_mod) in
      let body : List ℕ = number t ∷ (log ++ p) in
      let v : ℕ = mask (value body) in
      let head : List ℕ =
        encode_fixed32 v ++ (length p % 256 ∷ length p / 256 % 256 ∷ number t ∷ log) in
      let b : List ℕ = head ++ (p ++ rest) in
      let first : Bool = sub64 r.end_of_buffer_offset (length b) == 0 in
      let r₀ : Reader F = record r { buffer = b } in
      let long : ltb (length b) 7 ≡ false = ground arith in
      let longer : ltb (length b) 11 ≡ false = ground arith in
      let signed : sign_extend (number t) ≡ number t = ground arith in
      let recyclable : (leb 5 (number t) && leb (number t) 8) ≡ true = ground arith in
      let real : (number t == 0) ≡ false = ground arith in
      let ours : (decode_fixed32 (drop 7 b) == r.log_number) ≡ true =
        rw (decode_fixed32-encode_fixed32 (log_number % u32_mod) (p ++ rest) (omega arith), same)
          (==_refl _) in
      let five_more : suc (suc (suc (suc (suc (length p))))) ≡ length p + 11 - 6 = omega arith in
      let crc : value (take (length p + 11 - 6) (drop 6 b)) ≡ unmask (decode_fixed32 b) =
        ap value (
          subst (λ k. take k (body ++ rest) ≡ body) five_more
            (take-append_eq (suc (suc (suc (suc (suc (length p)))))) body rest refl))
        ∙ sym (
            stored_crc body (length p % 256 ∷ length p / 256 % 256 ∷ (body ++ rest)) (
              omega arith,
              All-append IsByte log p (store_le-IsByte 4 (log_number % u32_mod)) bytes,
            )) in
      elim (Bool-cases first) [
        | inl at_start ↦ (
          true,
          rw (long, two_bytes (length p) small, signed, recyclable, longer, at_start, ours)
              (ap done (
                read_body_lem (record r₀ { recycled = true }) 11 (length p) (number t) fragment p
                  rest head drop_size refl refl refl origin real crc)),
        )
        | inr later ↦ (
          r.recycled,
          rw (long, two_bytes (length p) small, signed, recyclable, longer, later, ours)
              (ap done (
                read_body_lem r₀ 11 (length p) (number t) fragment p rest head drop_size refl refl
                  refl origin real crc)),
        )
      ]
