-- ===== src/Phy/Lock.antt =====
-- dev/phydev.c and dev/amlnf_ctrl.c: how an operation gets the chip and its pins, and gives them
-- back. `none` is a caller that sleeps: the chip is not ready, or `spi_nand_mutex` is held.
use amlnf.Prelude.{◌≡◌, refl, Bool, true, false, Option, none, some, arith, ◌==◌, if◌then◌else◌}
use amlnf.Prelude.Int.{is_neg}
use amlnf.Phy.Chip.{ChipState, World, Kernel, PinState, has, nand_ctrl_none_rb}

unfoldable pub is_ready : ChipState → Bool
is_ready ChipState.ready = true
is_ready _ = false

module _ {D : Type 0} where
  unfoldable pub get_chip_state : World D → ChipState
  get_chip_state w = w.chip.state

  unfoldable pub set_chip_state : World D → ChipState → World D
  set_chip_state w st = record w { chip = record (w.chip) { state = st } }

  -- A pin state that cannot be selected sends the loop round again, to lock the mutex that the
  -- caller itself holds by then: it sleeps for ever.
  unfoldable pub nand_get_chip : Kernel D → World D → Option (World D)
  nand_get_chip k w =
      let wanted =
        if has w.chip.controller.ctrl_option nand_ctrl_none_rb
        then PinState.norb
        else PinState.rb in
      let (ret, d) = k.select_state wanted w.dev in
      if w.mutex_held
      then none
      else if is_neg ret
      then none
      else some (record w { idle_flag = 1; mutex_held = true; dev = d })

  unfoldable pub nand_release_chip : Kernel D → World D → World D
  nand_release_chip k w = if w.idle_flag == 0 then w else record w {
    idle_flag = 0;
    mutex_held = false;
    dev = (k.select_state PinState.idle w.dev).1;
  }

  unfoldable pub amlnand_get_device : Kernel D → World D → ChipState → Option (World D)
  unfolding get_chip_state set_chip_state nand_get_chip is_ready
  amlnand_get_device k w st =
      if is_ready (get_chip_state w) then nand_get_chip k (set_chip_state w st) else none

  unfoldable pub amlnand_release_device : Kernel D → World D → World D
  unfolding set_chip_state nand_release_chip
  amlnand_release_device k w = nand_release_chip k (set_chip_state w ChipState.ready)

  -- Nothing holds the chip: it is ready, and the mutex of its pins is free.
  pub record IsFree (w : World D) : Type 0 where
    pub is_ready_chip : w.chip.state ≡ ChipState.ready
    pub is_unlocked : w.mutex_held ≡ false

  -- Who has got the chip: the mutex is held, and `nand_idleflag` says so to `nand_release_chip`.
  pub record IsHeld (w : World D) : Type 0 where
    pub is_locked : w.mutex_held ≡ true
    pub is_flagged : w.idle_flag ≡ 1

  -- A caller that does not sleep found the chip free, and has it.
  pub get_device-IsHeld :
      (k : Kernel D) (w : World D) (st : ChipState) {w' : World D}
      → amlnand_get_device k w st ≡ some w'
      → IsFree w × IsHeld w' × (w'.chip.state ≡ st)
  unfolding amlnand_get_device
  get_device-IsHeld k w st h = ground arith

  pub release_device-IsFree :
      (k : Kernel D) (w : World D) → IsHeld w → IsFree (amlnand_release_device k w)
  unfolding amlnand_release_device
  release_device-IsFree k w h = ground arith

  -- The world of a caller that got the chip.
  abbrev pub taken : Kernel D → World D → ChipState → World D
  taken k w st =
      let wanted =
        if has w.chip.controller.ctrl_option nand_ctrl_none_rb
        then PinState.norb
        else PinState.rb in
      record w {
        chip = record (w.chip) { state = st };
        idle_flag = 1;
        mutex_held = true;
        dev = (k.select_state wanted w.dev).1;
      }

  -- Every pin state can be selected.
  abbrev pub Selects : Kernel D → Type 0
  Selects k = (pin : PinState) (d : D) → is_neg (k.select_state pin d).0 ≡ false

  -- A free chip is got at once.
  pub get_device-taken :
      (k : Kernel D) (w : World D) (st : ChipState)
      → Selects k
      → IsFree w
      → amlnand_get_device k w st ≡ some (taken k w st)
  unfolding amlnand_get_device
  get_device-taken k w st sel free =
      let wanted =
        if has w.chip.controller.ctrl_option nand_ctrl_none_rb
        then PinState.norb
        else PinState.rb in
      rw (free.is_ready_chip, free.is_unlocked, sel wanted w.dev) refl

  chip_of_if : (b : Bool) (w v : World D) → v.chip ≡ w.chip → (if b then w else v).chip ≡ w.chip
  chip_of_if true w v h = refl
  chip_of_if false w v h = h

  -- The release changes the state in the chip's record, and nothing else there.
  pub release_device-chip :
      (k : Kernel D) (w : World D)
      → (amlnand_release_device k w).chip ≡ record (w.chip) { state = ChipState.ready }
  unfolding amlnand_release_device
  release_device-chip k w = chip_of_if (w.idle_flag == 0) (set_chip_state w ChipState.ready) _ refl
