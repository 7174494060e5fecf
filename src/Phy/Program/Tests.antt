-- ===== src/Phy/Program/Tests.antt =====
-- Runs of the operations that write.
use amlnf.Prelude.{◌^◌, ◌≡◌, refl, [], ◌∷◌}
use amlnf.Phy.Chip.{World, zero_para, dev_multi_plane_mode}
use amlnf.Phy.Program.{erase_block, write_page}
use amlnf.Samples.{sample_world, sample_guard, sample_hw, sample_chip, Log}

-- A driver that may write.
abbrev writable : World Log
writable = record sample_world { guard = record sample_guard { readonly = 0 } }

-- The commands of an erase: 0x60, the row, 0xd0, and the status, latest first.
erases : (erase_block sample_hw writable).1.dev ≡ 112 ∷ 208 ∷ 0 ∷ 0 ∷ 0 ∷ 96 ∷ []
unfolding erase_block
erases = refl

-- A world with an operation on page 5 of two planes.
abbrev two_planes : World Log
two_planes = record writable {
  chip = record sample_chip {
    ops_para = record zero_para {
      option = 2 ^ dev_multi_plane_mode;
      data_buf = 1024;
      page_addr = 5;
    };
  };
}

-- The controller is left at the row of the second plane.
two_planes_row : (write_page sample_hw two_planes).1.chip.controller.ctrl_page_addr ≡ 69
unfolding write_page
two_planes_row = refl
