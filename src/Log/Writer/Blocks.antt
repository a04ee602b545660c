-- ===== src/Log/Writer/Blocks.antt =====
-- The switch to a new block, under zeros.
use rocksutil.Base.{
  ℕ, zero, suc, ◌+◌, ◌-◌, ◌≤◌, ◌<◌, ◌≡◌, refl, sym, Bool, true, false, ltb, lt→ltb, if◌then◌else◌,
  Bool-cases, inl, inr, ◌⊎◌, List, [], ◌++◌, append-nil, replicate, arith,
}
use rocksutil.Log.{block_size}
use rocksutil.Log.Layout.{Laid, pad, size_of_header}
use rocksutil.Log.Writer.{Dest, Writer, switch_block}
use rocksutil.Log.Writer.Written.{IsSound}

-- The writer after the switch to a new block, if there was one: `zeros` were written.
pub record Switched {ℓ} {W : Type ℓ} (contents : W → List ℕ) (w w₁ : Writer W) (zeros : List ℕ)
    : Type ℓ where
  pub fits : w₁.block_offset + size_of_header w.recycle_log_files ≤ block_size
  pub begun : (w₁.block_offset ≡ 0) ⊎ (w₁.block_offset ≡ w.block_offset)
  pub crcs : w₁.type_crc ≡ w.type_crc
  pub log_number : w₁.log_number ≡ w.log_number
  pub recycle : w₁.recycle_log_files ≡ w.recycle_log_files
  pub written : contents w₁.dest ≡ contents w.dest ++ zeros
  pub laid :
      (begin : Bool) (p bytes : List ℕ) (o' : ℕ)
      → Laid w.recycle_log_files w.log_number w₁.block_offset begin p bytes o'
      → Laid w.recycle_log_files w.log_number w.block_offset begin p (zeros ++ bytes) o'

module _ {ℓ} {W : Type ℓ} (d : Dest W) (contents : W → List ℕ) (sound : IsSound d contents) where
  zeros_written :
      (w : W) (n : ℕ)
      → contents (if ltb 0 n then (d.append w (replicate n 0)).0 else w)
        ≡ contents w ++ replicate n 0
  zeros_written w zero = sym (append-nil (contents w))
  zeros_written w (suc n) =
      rw (lt→ltb 0 (suc n) (omega arith)) (sound.append_contents w (replicate (suc n) 0))

  new_block :
      (w : Writer W)
      → w.block_offset ≤ block_size
      → block_size < w.block_offset + size_of_header w.recycle_log_files
      → Switched contents w (switch_block d w) (replicate (block_size - w.block_offset) 0)
  unfolding switch_block
  new_block w valid full =
      let leftover = block_size - w.block_offset in
      let switches : ltb leftover (size_of_header w.recycle_log_files) ≡ true =
        lt→ltb _ _ (omega arith) in
      rw switches (record {
        fits = ground arith;
        begun = inl refl;
        crcs = refl;
        log_number = refl;
        recycle = refl;
        written = zeros_written w.dest leftover;
        laid = λ begin p bytes o' l. pad bytes valid full l;
      })

  same_block :
      (w : Writer W)
      → ltb (block_size - w.block_offset) (size_of_header w.recycle_log_files) ≡ false
      → Switched contents w (switch_block d w) []
  unfolding switch_block
  same_block w fits = rw fits (record {
    fits = ground arith;
    begun = inr refl;
    crcs = refl;
    log_number = refl;
    recycle = refl;
    written = sym (append-nil (contents w.dest));
    laid = λ begin p bytes o' l. l;
  })

  pub switch_block-Switched :
      (w : Writer W)
      → w.block_offset ≤ block_size
      → (zeros : List ℕ) × Switched contents w (switch_block d w) zeros
  switch_block-Switched w valid =
      elim (Bool-cases (ltb (block_size - w.block_offset) (size_of_header w.recycle_log_files))) [
        | inl full ↦ (replicate (block_size - w.block_offset) 0, new_block w valid (ground arith))
        | inr fits ↦ ([], same_block w fits)
      ]
