-- ===== src/Crc32c/Tests.antt =====
-- Runs of rutil/crc32c.cc and include/rocksutil/crc32c.h on concrete bytes.
use rocksutil.Base.{ℕ, ◌≡◌, List, [], ◌∷◌, arith, refl}
use rocksutil.Coding.{decode_fixed32, load_le}
use rocksutil.Crc32c.{
  extend_impl, by_sixteen, by_eight, step_all, step1, slow_crc32, slow_word, extend, value, mask,
  unmask,
}
use rocksutil.Crc32c.Tables.{table0, table1, table2, table3}
use rocksutil.Crc32c.Slow.{slow_crc32-step_all}
use rocksutil.Crc32c.Extend.{crc32c, extend_impl-crc32c, extend-crc32c, extend-append}
use rocksutil.Crc32c.Mask.{unmask-mask}

abbrev digits : List ℕ
digits = 49 ∷ 50 ∷ 51 ∷ 52 ∷ 53 ∷ 54 ∷ 55 ∷ 56 ∷ 57 ∷ []

-- The check value of CRC-32C.
value-digits : value digits ≡ 0xe3069283
unfolding value extend extend_impl by_sixteen by_eight step_all step1 slow_crc32 slow_word table0
    table1 table2 table3 decode_fixed32 load_le
value-digits = refl

extend_impl-crc32c_example : extend_impl slow_crc32 11 0 digits ≡ crc32c 0 digits
extend_impl-crc32c_example =
    extend_impl-crc32c slow_crc32 slow_crc32-step_all 11 0 digits (omega arith) (
      omega arith,
      (
        omega arith,
        (
          omega arith,
          (
            omega arith,
            (omega arith, (omega arith, (omega arith, (omega arith, (omega arith, tt))))),
          ),
        ),
      ),
    )

extend-crc32c_example : extend 5 (1 ∷ 2 ∷ []) ≡ crc32c 5 (1 ∷ 2 ∷ [])
extend-crc32c_example = extend-crc32c 5 (1 ∷ 2 ∷ []) (omega arith) (omega arith, (omega arith, tt))

extend-append_example : extend (extend 5 (1 ∷ [])) (2 ∷ []) ≡ extend 5 (1 ∷ 2 ∷ [])
extend-append_example =
    extend-append 5 (1 ∷ []) (2 ∷ []) (omega arith) (omega arith, tt) (omega arith, tt)

unmask-mask_example : unmask (mask 3808858755) ≡ 3808858755
unmask-mask_example = unmask-mask 3808858755 (omega arith)
