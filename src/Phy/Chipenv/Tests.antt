-- ===== src/Phy/Chipenv/Tests.antt =====
-- Examples of the checksum of the table of bad blocks.
use amlnf.Prelude.{ℕ, zero, suc, ◌≡◌, ◌++◌, refl, ap, arith, List, [], ◌∷◌, length}
use amlnf.Prelude.Int.{pos, neg}
use amlnf.Phy.Bbt.{nand_read_failed}
use amlnf.Phy.Chipenv.{check_block_status, seal}
use amlnf.Phy.Chipenv.Checksum.{seal-detects, seal-misses}

-- Good blocks
unfoldable good_blocks : ℕ → List ℕ
good_blocks zero = []
good_blocks (suc n) = 0 ∷ good_blocks n

length-good_blocks : (n : ℕ) → length (good_blocks n) ≡ n
unfolding good_blocks
length-good_blocks zero = refl
length-good_blocks (suc n) = ap suc (length-good_blocks n)

-- Block 3 of the first chip, of four chips of 8192 blocks, becomes bad.
seal-detects_example :
    let sealed = seal (record { crc = 0; blk_status = good_blocks 3 ++ (0 ∷ good_blocks 32764) }) in
    check_block_status (record sealed { blk_status = good_blocks 3 ++ (1 ∷ good_blocks 32764) })
    ≡ neg nand_read_failed
seal-detects_example =
    seal-detects 0 0 1 (good_blocks 3) (good_blocks 32764) (omega (arith, length-good_blocks 3))
      (λ e. absurd (omega arith))

-- Block 5 of the third chip becomes bad.
seal-misses_example :
    let sealed =
      seal (record { crc = 0; blk_status = good_blocks 16389 ++ (0 ∷ good_blocks 16378) }) in
    check_block_status (record sealed { blk_status = good_blocks 16389 ++ (1 ∷ good_blocks 16378) })
    ≡ pos 0
seal-misses_example =
    seal-misses 0 0 1 (good_blocks 16389) (good_blocks 16378)
      (omega (arith, length-good_blocks 16389))
