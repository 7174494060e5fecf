-- ===== src/Block/Interface/Tests.antt =====
-- Examples of the theorems on what the translation layer calls.
use amlnf.Prelude.{◌≡◌, refl, some, arith}
use amlnf.Prelude.Int.{ℤ, pos, neg}
use amlnf.Phy.Chip.{ChipState, World}
use amlnf.Phy.Lock.{amlnand_get_device, taken}
use amlnf.Phy.Bbt.Markbad.{Keeps}
use amlnf.Dev.Phydev.{Phydev}
use amlnf.Dev.Phydev.Marked.{chip_operation}
use amlnf.Ntd.Part.{with_ops}
use amlnf.Ntd.Part.Page.{phydev_methods, read_one, write_one}
use amlnf.Block.Interface.{
  PhysicOpPar, answering, read_answer, is_euclean, nand_read_page, nand_write_page,
  nand_mark_bad_blk, nand_is_blk_good,
}
use amlnf.Block.Interface.Page.{InBlocks, nand_read_page-chip_page, nand_write_page-chip_page}
use amlnf.Block.Interface.Marked.{mark_bad-is_blk_good}
use amlnf.Samples.{
  Log, logged, sample_kernel, sample_op, sample_calls, sample_phydev, sample_world, open_world,
  sample_ntd,
}

-- Page 5 of block 2, with 64 pages a block
abbrev page_five : PhysicOpPar
page_five = record { page_no = 5; blk_no_in_chip = 2; main_data_addr = 1024; spare_data_addr = 0 }

page_five-InBlocks : InBlocks sample_ntd sample_phydev page_five 6
page_five-InBlocks = record {
  pages = record {
    same_page = refl;
    same_shift = refl;
    page_bytes = refl;
    in_reach = omega arith;
    no_wrap = omega arith;
    not_slc = refl;
  };
  block_shift = refl;
  within = omega arith;
}

nand_read_page-chip_page_example :
    nand_read_page
      (phydev_methods sample_kernel sample_op)
      sample_ntd
      page_five
      sample_phydev
      sample_world
    ≡ answering read_answer (
        read_one sample_kernel sample_op
          (with_ops sample_phydev 272384 2048 64 1024 0)
          2181
          (taken sample_kernel sample_world ChipState.reading))
unfolding amlnand_get_device
nand_read_page-chip_page_example =
    nand_read_page-chip_page sample_kernel sample_op sample_ntd sample_phydev page_five 6
      sample_world (taken sample_kernel sample_world ChipState.reading) page_five-InBlocks
      (λ v. refl) refl

nand_write_page-chip_page_example :
    nand_write_page
      (phydev_methods sample_kernel sample_op)
      sample_ntd
      page_five
      sample_phydev
      sample_world
    ≡ write_one sample_kernel sample_op
        (with_ops sample_phydev 272384 2048 64 1024 0)
        2181
        (taken sample_kernel sample_world ChipState.writing)
unfolding amlnand_get_device
nand_write_page-chip_page_example =
    nand_write_page-chip_page sample_kernel sample_op sample_ntd sample_phydev page_five 6
      sample_world (taken sample_kernel sample_world ChipState.writing) page_five-InBlocks refl
      (λ v. refl) refl

logged-Keeps : (w : World Log) → Keeps w (logged w).1
logged-Keeps w = record {
  same_table = refl;
  same_flash = refl;
  same_num = refl;
  same_state = refl;
  same_lock = refl;
  same_flag = refl;
}

mark_bad-is_blk_good_example :
    let m = phydev_methods sample_kernel (chip_operation sample_kernel sample_calls logged) in
    (r : ℤ × Phydev × World Log) × (nand_mark_bad_blk m sample_ntd page_five sample_phydev
        open_world
      ≡ some r)
    × (s : ℤ × Phydev × World Log) × (nand_is_blk_good m sample_ntd page_five sample_phydev r.2
        ≡ some s)
    × (s.0 ≡ pos 100)
mark_bad-is_blk_good_example =
    mark_bad-is_blk_good sample_kernel sample_calls logged sample_ntd page_five sample_phydev
      open_world (λ c b. 0)
      (record {
        is_free = record { is_ready_chip = refl; is_unlocked = refl };
        in_range = omega arith;
        is_up = refl;
        not_slc = refl;
        allowed = λ e. absurd (omega arith);
        is_valid = λ e. absurd (omega arith);
        has_table = refl;
        is_good = refl;
        has_chips = omega arith;
      })
      (λ pin d. refl) (λ w. logged-Keeps w) (λ w. logged-Keeps w)

-- -EUCLEAN is passed on, another error is not.
reads_euclean : read_answer (neg 117) ≡ neg 117
unfolding read_answer is_euclean
reads_euclean = refl

reads_other : read_answer (neg 5) ≡ neg 74
unfolding read_answer is_euclean
reads_other = refl
