-- ===== src/Dev/Phydev/Tests.antt =====
-- Runs of the operations of dev/phydev.c on the sample device, and examples of their theorems.
use amlnf.Prelude.{ℕ, ◌≡◌, ◌*◌, refl, Option, none, some, List, [], ◌∷◌, arith, if◌then◌else◌}
use amlnf.Prelude.Int.{ℤ, pos, neg}
use amlnf.Prelude.Words.{u32}
use amlnf.Phy.Chip.{ChipState, World, has, nand_write_verify_bit}
use amlnf.Phy.Lock.{amlnand_get_device, amlnand_release_device, taken}
use amlnf.Dev.Phydev.{Phydev, transfer}
use amlnf.Dev.Phydev.Io.{
  nand_read, nand_write, nand_erase, read_result, with_retlen, nand_write_verify,
}
use amlnf.Dev.Phydev.Pages.{
  nand_read-pages, read_pages, nand_write-pages, write_pages, nand_erase-pages, erase_pages,
}
use amlnf.Dev.Phydev.Readonly.{writing, IsRefusedIo, nand_erase-readonly, nand_write-readonly}
use amlnf.Dev.Phydev.Refused.{IsRefusedMark, nand_markbad-IsRefusedMark}
use amlnf.Samples.{
  sample_flash, sample_hw, sample_kernel, sample_op, sample_ops, sample_calls, sample_phydev,
  sample_world, open_world, logged, Log,
}
use amlnf.Phy.Bbt.Markbad.{Keeps}
use amlnf.Dev.Phydev.Bad.{nand_block_isbad, nand_block_markbad, block_modifybbt, update_bbt}
use amlnf.Dev.Phydev.Released.{KeepsHeld, Releases, io-IsFree, blocks-IsFree}
use amlnf.Dev.Phydev.Marked.{chip_operation, nand_markbad-isbad}

log_of : Option (ℤ × Phydev × World Log) → List ℕ
log_of none = []
log_of (some (ret, p, w)) = w.dev

-- 5000 bytes from byte 131072 of the device on are three pages.
reads_three :
    log_of (nand_read sample_kernel sample_op sample_phydev sample_world) ≡ 2114 ∷ 2113 ∷ 2112 ∷ []
unfolding log_of nand_read amlnand_get_device transfer amlnand_release_device
reads_three = refl

nand_read-pages_example :
    let r =
      read_pages sample_kernel sample_op sample_phydev 5000
        (taken sample_kernel sample_world ChipState.reading) in
    let w2 = amlnand_release_device sample_kernel r.2 in
    nand_read sample_kernel sample_op sample_phydev sample_world
    ≡ some (
      read_result sample_kernel sample_op r.0 w2,
      with_retlen sample_phydev (u32 (r.1 * 2048)),
      w2,
    )
unfolding amlnand_get_device
nand_read-pages_example =
    nand_read-pages sample_kernel sample_op sample_phydev sample_world
      (taken sample_kernel sample_world ChipState.reading)
      (record {
        is_unit = refl;
        unit_bytes = omega arith;
        some_bytes = omega arith;
        within = omega arith;
        no_wrap = omega arith;
        few_pages = omega arith;
      })
      refl refl (λ v. refl) refl

-- The chip as taken for an operation.
abbrev held_world : ChipState → World Log
held_world st = taken sample_kernel sample_world st

nand_write-pages_example :
    let r = write_pages sample_kernel sample_op sample_phydev (held_world ChipState.writing) in
    let p' = with_retlen sample_phydev (u32 (r.1 * 2048)) in
    let w2 =
      if has r.2.chip.debug_flag nand_write_verify_bit
      then nand_write_verify sample_kernel sample_op p' r.2
      else r.2 in
    nand_write sample_kernel sample_op sample_phydev sample_world
    ≡ some (r.0, p', amlnand_release_device sample_kernel w2)
unfolding amlnand_get_device
nand_write-pages_example =
    nand_write-pages sample_kernel sample_op sample_phydev sample_world
      (held_world ChipState.writing)
      (record {
        is_unit = refl;
        unit_bytes = omega arith;
        some_bytes = omega arith;
        within = omega arith;
        no_wrap = omega arith;
        few_pages = omega arith;
      })
      refl refl (λ v. refl) refl

-- Two blocks of 64 pages.
abbrev erase_two : Phydev
erase_two = record sample_phydev { ops = record sample_ops { len = 262144 } }

nand_erase-pages_example :
    let r = erase_pages sample_kernel sample_op erase_two 64 (held_world ChipState.erasing) in
    nand_erase sample_kernel sample_op erase_two sample_world
    ≡ some
        (r.0, with_retlen erase_two (u32 (r.1 * 131072)), amlnand_release_device sample_kernel r.2)
unfolding amlnand_get_device
nand_erase-pages_example =
    nand_erase-pages sample_kernel sample_op erase_two 64 sample_world
      (held_world ChipState.erasing)
      (record {
        is_unit = refl;
        unit_bytes = omega arith;
        some_bytes = omega arith;
        within = omega arith;
        no_wrap = omega arith;
        few_pages = omega arith;
      })
      refl refl (λ v. refl) refl

logged-KeepsHeld : KeepsHeld logged
logged-KeepsHeld v h = record { is_locked = h.is_locked; is_flagged = h.is_flagged }

io-IsFree_example :
    Releases sample_world (nand_read sample_kernel sample_op sample_phydev sample_world)
    × Releases sample_world (nand_write sample_kernel sample_op sample_phydev sample_world)
    × Releases sample_world (nand_erase sample_kernel sample_op sample_phydev sample_world)
io-IsFree_example =
    io-IsFree sample_kernel sample_op sample_phydev sample_world logged-KeepsHeld logged-KeepsHeld
      logged-KeepsHeld

blocks-IsFree_example :
    Releases sample_world (nand_block_isbad sample_kernel sample_op sample_phydev sample_world)
    × Releases sample_world (nand_block_markbad sample_kernel sample_op sample_phydev sample_world)
    × Releases sample_world (block_modifybbt sample_kernel sample_op sample_phydev 1 sample_world)
    × Releases sample_world (update_bbt sample_kernel sample_op sample_phydev sample_world)
blocks-IsFree_example =
    blocks-IsFree sample_kernel sample_op sample_phydev 1 sample_world logged-KeepsHeld
      logged-KeepsHeld logged-KeepsHeld logged-KeepsHeld

logged-Keeps : (w : World Log) → Keeps w (logged w).1
logged-Keeps w = record {
  same_table = refl;
  same_flash = refl;
  same_num = refl;
  same_state = refl;
  same_lock = refl;
  same_flag = refl;
}

nand_markbad-isbad_example :
    let op = chip_operation sample_kernel sample_calls logged in
    (r : ℤ × Phydev × World Log) × (nand_block_markbad sample_kernel op sample_phydev open_world
      ≡ some r)
    × (s : ℤ × Phydev × World Log) × (nand_block_isbad sample_kernel op sample_phydev r.2 ≡ some s)
    × (s.0 ≡ pos 1)
nand_markbad-isbad_example =
    nand_markbad-isbad sample_kernel sample_calls logged sample_phydev open_world (λ c b. 0)
      (record {
        is_free = record { is_ready_chip = refl; is_unlocked = refl };
        in_range = omega arith;
        is_up = refl;
        not_slc = refl;
        allowed = λ e. absurd (omega arith);
        is_valid = λ e. absurd (omega arith);
        has_table = refl;
        is_good = refl;
        has_chips = omega arith;
      })
      (λ pin d. refl) (λ w. logged-Keeps w) (λ w. logged-Keeps w)

nand_erase-readonly_example :
    (r : ℤ × Phydev × World Log) × (nand_erase sample_kernel
        (writing sample_kernel sample_hw sample_op)
        erase_two
        sample_world
      ≡ some r)
    × IsRefusedIo sample_kernel sample_hw sample_op (held_world ChipState.erasing) r
unfolding amlnand_get_device
nand_erase-readonly_example =
    nand_erase-readonly sample_kernel sample_hw sample_op erase_two sample_world
      (held_world ChipState.erasing) refl refl refl (λ e. absurd (omega arith)) refl

nand_write-readonly_example :
    (r : ℤ × Phydev × World Log) × (nand_write sample_kernel
        (writing sample_kernel sample_hw sample_op)
        sample_phydev
        sample_world
      ≡ some r)
    × IsRefusedIo sample_kernel sample_hw sample_op (held_world ChipState.writing) r
unfolding amlnand_get_device
nand_write-readonly_example =
    nand_write-readonly sample_kernel sample_hw sample_op sample_phydev sample_world
      (held_world ChipState.writing) refl refl refl (λ e. absurd (omega arith)) refl refl

-- Marks are not allowed, and all blocks are good.
abbrev closed_world : World Log
closed_world = record sample_world {
  guard = record (sample_world.guard) { allow_markbad = 0 };
  chip = record (sample_world.chip) { blk_status = some (λ c b. 0) };
}

nand_markbad-IsRefusedMark_example :
    (w' : World Log) × ((nand_block_markbad sample_kernel
          (chip_operation sample_kernel sample_calls logged)
          sample_phydev
          closed_world
        ≡ some (neg 30, sample_phydev, w'))
      × IsRefusedMark sample_kernel sample_calls logged
          (λ c b. 0)
          sample_flash
          sample_phydev
          closed_world
          w')
nand_markbad-IsRefusedMark_example =
    nand_markbad-IsRefusedMark sample_kernel sample_calls logged (λ c b. 0) sample_flash
      sample_phydev closed_world (λ pin d. refl)
      (record { not_slc = refl; one_plane = refl; one_chip = refl; is_up = refl }) (omega arith)
      (record {
        is_free = record { is_ready_chip = refl; is_unlocked = refl };
        has_table = refl;
        has_flash = refl;
      })
      refl
