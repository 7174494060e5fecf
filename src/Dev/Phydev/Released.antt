-- ===== src/Dev/Phydev/Released.antt =====
-- dev/phydev.c: an operation that returns has given back the chip.
use amlnf.Prelude.{
  ℕ, zero, suc, ◌+◌, Bool, true, false, Option, none, some, ◌==◌, leb, if◌then◌else◌, AllOf,
  AllOf-elim, AllOf-if, AllOf-bind, AllOf-intro, not, ◌||◌, ◌&&◌, ltb, ◌*◌,
}
use amlnf.Prelude.Int.{ℤ, is_neg}
use amlnf.Prelude.Words.{u32, u64}
use amlnf.Phy.Chip.{
  ChipState, World, Kernel, ChipOperation, has, nand_write_verify_bit, nand_shut_down,
}
use amlnf.Phy.Lock.{amlnand_get_device, IsFree, IsHeld, get_device-IsHeld, release_device-IsFree}
use amlnf.Dev.Phydev.{Phydev, with_para, at_page, transfer}
use amlnf.Dev.Phydev.Io.{
  nand_read, nand_write, nand_erase, begin_io, begin_block, next_buf, read_round, write_round,
  erase_round, finish_read, finish_write, finish_erase, nand_write_verify, out_of_space,
  with_retlen,
}
use amlnf.Dev.Phydev.Bad.{
  finish_block, on_block, nand_block_isbad, nand_block_markbad, block_modifybbt, update_bbt,
}
use amlnf.Dev.Phydev.Transfer.{Body}

module _ {D : Type 0} where
  -- What every round keeps, a transfer keeps.
  transfer_keeps :
      (P : World D → Type 0) (fuel len stride : ℕ) (body : Body D) (addr done : ℕ) (w : World D)
      → ((a : ℕ) (v : World D) → P v → P (body a v).2)
      → P w
      → AllOf (λ r. P r.2) (transfer fuel len stride body addr done w)
  unfolding transfer
  transfer_keeps P zero len stride body addr done w keep pw = record {}
  transfer_keeps P (suc fuel) len stride body addr done w keep pw =
      let w' = (body addr w).2 in
      AllOf-elim (λ r. P r.2) (body addr w).0 _ _ (keep addr w pw)
        (AllOf-elim (λ r. P r.2) (leb len (u64 (done + stride))) _ _ (keep addr w pw)
          (transfer_keeps P fuel len stride body (u64 (addr + stride)) (u64 (done + stride)) w' keep
            (keep addr w pw)))

  -- A chip operation returns with the chip still held.
  abbrev pub KeepsHeld : (World D → ℤ × World D) → Type 0
  KeepsHeld run = (v : World D) → IsHeld v → IsHeld (run v).1

  -- An operation on a free chip leaves it free.
  abbrev pub Releases : World D → Option (ℤ × Phydev × World D) → Type 0
  Releases w o = AllOf (λ r. IsFree w → IsFree r.2) o

  got_IsHeld :
      (k : Kernel D) (w : World D) (st : ChipState) → AllOf IsHeld (amlnand_get_device k w st)
  got_IsHeld k w st =
      AllOf-intro IsHeld (amlnand_get_device k w st) (λ w' h. (get_device-IsHeld k w st h).1)

  IsHeld-of_if :
      (b : Bool) (x y : Bool × ℤ × World D)
      → IsHeld x.2
      → IsHeld y.2
      → IsHeld (if b then x else y).2
  IsHeld-of_if true x y h g = h
  IsHeld-of_if false x y h g = g

module _ {D : Type 0} (k : Kernel D) (op : ChipOperation D) where
  at_page-IsHeld : (p : Phydev) (a : ℕ) (v : World D) → IsHeld v → IsHeld (at_page p a v)
  unfolding at_page
  at_page-IsHeld p a v h = record { is_locked = h.is_locked; is_flagged = h.is_flagged }

  next_buf-IsHeld : (p : Phydev) (v : World D) → IsHeld v → IsHeld (next_buf k op p v)
  unfolding next_buf
  next_buf-IsHeld p v h = record { is_locked = h.is_locked; is_flagged = h.is_flagged }

  begin_io-IsHeld : (p : Phydev) (v : World D) → IsHeld v → IsHeld (begin_io k op p v)
  unfolding begin_io
  begin_io-IsHeld p v h = record { is_locked = h.is_locked; is_flagged = h.is_flagged }

  begin_block-IsHeld : (p : Phydev) (v : World D) → IsHeld v → IsHeld (begin_block k op p v)
  unfolding begin_block
  begin_block-IsHeld p v h = record { is_locked = h.is_locked; is_flagged = h.is_flagged }

  read_round-IsHeld :
      (p : Phydev)
      → KeepsHeld op.read_page
      → (a : ℕ) (v : World D) → IsHeld v
      → IsHeld (read_round k op p a v).2
  unfolding read_round
  read_round-IsHeld p keep a v h =
      let x = op.read_page (at_page p a v) in
      let held = keep (at_page p a v) (at_page-IsHeld p a v h) in
      IsHeld-of_if (not (x.1.chip.ops_para.ecc_err == 0) || is_neg x.0) (true, x.0, x.1)
        (false, x.0, next_buf k op p x.1) held (next_buf-IsHeld p x.1 held)

  finish_read-IsFree :
      (p : Phydev) (w : World D) (t : Option (ℤ × ℕ × World D))
      → AllOf (λ r. IsHeld r.2) t
      → Releases w (finish_read k op p t)
  unfolding finish_read
  finish_read-IsFree p w none h = h
  finish_read-IsFree p w (some (ret, done, v)) h = λ free. release_device-IsFree k v h

  -- If a page read returns with the chip held, nand_read started on a free chip leaves the chip
  -- free whenever it returns: on success, on a failed page, and on its early returns.
  nand_read-IsFree :
      (p : Phydev) (w : World D) → KeepsHeld op.read_page → Releases w (nand_read k op p w)
  unfolding nand_read
  nand_read-IsFree p w keep =
      let len = if p.ops.len == 0 then p.writesize else p.ops.len in
      AllOf-if _ (out_of_space p) _ _ (λ free. free)
        (AllOf-if _ ((p.ops.len == 0) && (p.ops.ooblen == 0)) _ _ (λ free. free)
          (AllOf-bind IsHeld _ (amlnand_get_device k w ChipState.reading) _
            (got_IsHeld k w ChipState.reading)
            (λ w1 h. finish_read-IsFree p w _ (
              transfer_keeps IsHeld (suc len) len p.writesize (read_round k op p)
                (u64 (p.offset + p.ops.addr)) 0 (begin_io k op p w1) (read_round-IsHeld p keep)
                (begin_io-IsHeld p w1 h)))))

  write_round-IsHeld :
      (p : Phydev)
      → KeepsHeld op.write_page
      → (a : ℕ) (v : World D) → IsHeld v
      → IsHeld (write_round k op p a v).2
  unfolding write_round
  write_round-IsHeld p keep a v h =
      let x = op.write_page (at_page p a v) in
      let held = keep (at_page p a v) (at_page-IsHeld p a v h) in
      IsHeld-of_if (is_neg x.0) (true, x.0, x.1) (false, x.0, next_buf k op p x.1) held
        (next_buf-IsHeld p x.1 held)

  IsHeld-or : (b : Bool) (v u : World D) → IsHeld v → IsHeld u → IsHeld (if b then v else u)
  IsHeld-or true v u h g = h
  IsHeld-or false v u h g = g

  nand_write_verify-IsHeld :
      (p : Phydev) (v : World D)
      → KeepsHeld op.read_page
      → IsHeld v
      → IsHeld (nand_write_verify k op p v)
  unfolding nand_write_verify
  nand_write_verify-IsHeld p v keep h =
      let x = k.kmalloc (2 * p.writesize) v.dev in
      let w1 = record v { dev = x.1 } in
      let held : IsHeld w1 = record { is_locked = h.is_locked; is_flagged = h.is_flagged } in
      let w2 = with_para w1 (record (w1.chip.ops_para) { data_buf = x.0 }) in
      let held2 : IsHeld w2 = record { is_locked = h.is_locked; is_flagged = h.is_flagged } in
      IsHeld-or (x.0 == 0) w1 (op.read_page w2).1 held (keep w2 held2)

  finish_write-IsFree :
      (p : Phydev) (w : World D) (t : Option (ℤ × ℕ × World D))
      → KeepsHeld op.read_page
      → AllOf (λ r. IsHeld r.2) t
      → Releases w (finish_write k op p t)
  unfolding finish_write
  finish_write-IsFree p w none keep h = h
  finish_write-IsFree p w (some (ret, done, v)) keep h = λ free.
      let p' = with_retlen p (u32 done) in
      release_device-IsFree k _ (
        IsHeld-or (has v.chip.debug_flag nand_write_verify_bit) (nand_write_verify k op p' v) v
          (nand_write_verify-IsHeld p' v keep h) h)

  -- If page writes and reads return with the chip held, nand_write started on a free chip leaves
  -- the chip free whenever it returns, verification included.
  nand_write-IsFree :
      (p : Phydev) (w : World D)
      → KeepsHeld op.write_page
      → KeepsHeld op.read_page
      → Releases w (nand_write k op p w)
  unfolding nand_write
  nand_write-IsFree p w keep keep' =
      AllOf-if _ (out_of_space p) _ _ (λ free. free)
        (AllOf-if _ ((p.ops.len == 0) && (p.ops.ooblen == 0)) _ _ (λ free. free)
          (AllOf-if _ (has p.option nand_shut_down) _ _ (λ free. free)
            (AllOf-bind IsHeld _ (amlnand_get_device k w ChipState.writing) _
              (got_IsHeld k w ChipState.writing)
              (λ w1 h. finish_write-IsFree p w _ keep' (
                transfer_keeps IsHeld (suc p.ops.len) p.ops.len p.writesize (write_round k op p)
                  (u64 (p.offset + p.ops.addr)) 0 (begin_io k op p w1) (write_round-IsHeld p keep)
                  (begin_io-IsHeld p w1 h))))))

  erase_round-IsHeld :
      (p : Phydev)
      → KeepsHeld op.erase_block
      → (a : ℕ) (v : World D) → IsHeld v
      → IsHeld (erase_round k op p a v).2
  unfolding erase_round
  erase_round-IsHeld p keep a v h = keep (at_page p a v) (at_page-IsHeld p a v h)

  finish_erase-IsFree :
      (p : Phydev) (w : World D) (t : Option (ℤ × ℕ × World D))
      → AllOf (λ r. IsHeld r.2) t
      → Releases w (finish_erase k op p t)
  unfolding finish_erase
  finish_erase-IsFree p w none h = h
  finish_erase-IsFree p w (some (ret, done, v)) h = λ free. release_device-IsFree k v h

  -- If an erase returns with the chip held, nand_erase started on a free chip leaves the chip free
  -- whenever it returns.
  nand_erase-IsFree :
      (p : Phydev) (w : World D) → KeepsHeld op.erase_block → Releases w (nand_erase k op p w)
  unfolding nand_erase
  nand_erase-IsFree p w keep =
      AllOf-if _ (out_of_space p) _ _ (λ free. free)
        (AllOf-if _ (p.ops.len == 0) _ _ (λ free. free)
          (AllOf-if _ (has p.option nand_shut_down) _ _ (λ free. free)
            (AllOf-bind IsHeld _ (amlnand_get_device k w ChipState.erasing) _
              (got_IsHeld k w ChipState.erasing)
              (λ w1 h. finish_erase-IsFree p w _ (
                transfer_keeps IsHeld (suc p.ops.len) p.ops.len p.erasesize (erase_round k op p)
                  (u64 (p.offset + p.ops.addr)) 0 (begin_block k op p w1)
                  (erase_round-IsHeld p keep) (begin_block-IsHeld p w1 h))))))

  -- If page reads, page writes and erases return with the chip held, then nand_read, nand_write
  -- (verification included) and nand_erase leave a free chip free whenever they return: on success,
  -- on a page that failed, and on their early returns.
  pub io-IsFree :
      (p : Phydev) (w : World D)
      → KeepsHeld op.read_page
      → KeepsHeld op.write_page
      → KeepsHeld op.erase_block
      → Releases w (nand_read k op p w)
        × Releases w (nand_write k op p w)
        × Releases w (nand_erase k op p w)
  io-IsFree p w reads writes erases =
      (nand_read-IsFree p w reads, nand_write-IsFree p w writes reads, nand_erase-IsFree p w erases)

  -- The same for an operation that may not return.
  abbrev pub KeepsHeldIfReturns : (World D → Option (ℤ × World D)) → Type 0
  KeepsHeldIfReturns run = (v : World D) → IsHeld v → AllOf (λ r. IsHeld r.1) (run v)

  finish_block-IsFree :
      (p : Phydev) (w : World D) (t : Option (ℤ × World D))
      → AllOf (λ r. IsHeld r.1) t
      → Releases w (finish_block k op p t)
  unfolding finish_block
  finish_block-IsFree p w none h = h
  finish_block-IsFree p w (some (ret, v)) h = λ free. release_device-IsFree k v h

  on_block-IsFree :
      (run : World D → Option (ℤ × World D)) (p : Phydev) (w : World D)
      → KeepsHeldIfReturns run
      → Releases w (on_block k op run p w)
  unfolding on_block
  on_block-IsFree run p w keep =
      let addr = u64 (p.offset + p.ops.addr) in
      AllOf-bind IsHeld _ (amlnand_get_device k w ChipState.reading) _
        (got_IsHeld k w ChipState.reading)
        (λ w1 h. finish_block-IsFree p w _ (
          keep (at_page p addr (begin_block k op p w1))
            (at_page-IsHeld p addr (begin_block k op p w1) (begin_block-IsHeld p w1 h))))

  -- If the chip's operations on the table return with the chip held, nand_block_isbad,
  -- nand_block_markbad, block_modifybbt and update_bbt started on a free chip leave it free
  -- whenever they return.
  pub blocks-IsFree :
      (p : Phydev) (value : ℕ) (w : World D)
      → KeepsHeldIfReturns op.block_isbad
      → KeepsHeldIfReturns op.block_markbad
      → KeepsHeldIfReturns (op.blk_modify_bbt value)
      → KeepsHeldIfReturns op.update_bbt
      → Releases w (nand_block_isbad k op p w)
        × Releases w (nand_block_markbad k op p w)
        × Releases w (block_modifybbt k op p value w)
        × Releases w (update_bbt k op p w)
  unfolding nand_block_isbad nand_block_markbad block_modifybbt update_bbt
  blocks-IsFree p value w isbad markbad modify update =
      let off = has p.option nand_shut_down in
      let past = ltb p.size p.ops.addr in
      (
        AllOf-if _ past _ _ (λ free. free)
            (AllOf-if _ off _ _ (λ free. free) (on_block-IsFree op.block_isbad p w isbad)),
        AllOf-if _ past _ _ (λ free. free)
            (AllOf-if _ off _ _ (λ free. free) (on_block-IsFree op.block_markbad p w markbad)),
        AllOf-if _ past _ _ (λ free. free) (on_block-IsFree (op.blk_modify_bbt value) p w modify),
        AllOf-if _ past _ _ (λ free. free) (on_block-IsFree op.update_bbt p w update),
      )
