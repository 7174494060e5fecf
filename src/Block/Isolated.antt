-- ===== src/Block/Isolated.antt =====
-- block: a request to a disk reaches only the sectors of that disk.
use amlnf.Prelude.{
  ℕ, ◌+◌, ◌-◌, ◌^◌, ◌≤◌, ◌<◌, ◌≡◌, refl, Bool, true, false, not, List, [], ◌∷◌, ◌==◌, ltb, leb,
  if◌then◌else◌, arith, none, AllOf, AllOf-cases,
}
use Prim.Native.Nat.{min}
use native.Mathlib.Nat.{mod-eq_of_lt}
use amlnf.Prelude.Int.{ℤ, pos, neg, is_zero}
use amlnf.Prelude.Words.{u32, u64, shr}
use amlnf.Ntd.Blkdevs.{Op, Segment, Request}
use amlnf.Block.{
  Ftl, NftlDev, NftlBlk, aml_blktrans_initialize, blk_nand_read, blk_nand_write, blk_nand_discard,
  write_sync_flag, do_segment, do_segments, block_at, do_nftltrans_request, do_op, eio,
}

module _ {D : Type 0} (ftl : Ftl D) where
  -- Within the sectors of the disk, the translation layer keeps `Q`.
  pub record KeepsInside (blk : NftlBlk) (Q : D → Type 0) : Type 0 where
    pub keeps_read :
        (start len buf : ℕ) (d : D)
        → blk.blk_offset ≤ start
        → start + len ≤ blk.blk_offset + blk.blk_size
        → Q d
        → Q (ftl.read start len buf d).1
    pub keeps_write :
        (start len buf sync : ℕ) (d : D)
        → blk.blk_offset ≤ start
        → start + len ≤ blk.blk_offset + blk.blk_size
        → Q d
        → Q (ftl.write start len buf sync d).1
    pub keeps_discard :
        (start len sync : ℕ) (d : D)
        → blk.blk_offset ≤ start
        → start + len ≤ blk.blk_offset + blk.blk_size
        → Q d
        → Q (ftl.discard start len sync d).1

  -- The sectors of the segments.
  abbrev pub sectors_of : List Segment → ℕ
  sectors_of [] = 0
  sectors_of (s ∷ segments) = shr s.bv_len 9 + sectors_of segments

  if-keeps :
      (Q : D → Type 0) (b : Bool) (x y : ℤ × NftlDev D)
      → Q x.1.part
      → Q y.1.part
      → Q (if b then x else y).1.part
  if-keeps Q true x y h g = h
  if-keeps Q false x y h g = g

  -- The sector that a block of the disk is, in the sectors of the translation layer.
  start_at :
      (blk : NftlBlk) (block : ℕ)
      → block + blk.blk_offset < 2 ^ 32
      → u32 (block + blk.blk_offset) ≡ block + blk.blk_offset
  start_at blk block h = mod-eq_of_lt h

  read-keeps :
      (blk : NftlBlk) (Q : D → Type 0) (block len buf : ℕ) (dev : NftlDev D)
      → KeepsInside blk Q
      → block + len ≤ blk.blk_size
      → blk.blk_offset + blk.blk_size < 2 ^ 32
      → Q dev.part
      → Q (blk_nand_read ftl blk block len buf dev).1.part
  unfolding blk_nand_read
  read-keeps blk Q block len buf dev k h b q =
      k.keeps_read (u32 (block + blk.blk_offset)) len buf dev.part
        (omega (arith, start_at blk block (omega arith)))
        (omega (arith, start_at blk block (omega arith))) q

  write-keeps :
      (blk : NftlBlk) (Q : D → Type 0) (block len buf : ℕ) (dev : NftlDev D)
      → KeepsInside blk Q
      → block + len ≤ blk.blk_size
      → blk.blk_offset + blk.blk_size < 2 ^ 32
      → Q dev.part
      → Q (blk_nand_write ftl blk block len buf dev).1.part
  unfolding blk_nand_write
  write-keeps blk Q block len buf dev k h b q =
      k.keeps_write (u32 (block + blk.blk_offset)) len buf dev.sync_flag dev.part
        (omega (arith, start_at blk block (omega arith)))
        (omega (arith, start_at blk block (omega arith))) q

  discard-keeps :
      (blk : NftlBlk) (Q : D → Type 0) (block len : ℕ) (dev : NftlDev D)
      → KeepsInside blk Q
      → block + len ≤ blk.blk_size
      → blk.blk_offset + blk.blk_size < 2 ^ 32
      → Q dev.part
      → Q (blk_nand_discard ftl blk block len dev).1.part
  unfolding blk_nand_discard
  discard-keeps blk Q block len dev k h b q =
      k.keeps_discard (u32 (block + blk.blk_offset)) len dev.sync_flag dev.part
        (omega (arith, start_at blk block (omega arith)))
        (omega (arith, start_at blk block (omega arith))) q

  do_segment-keeps :
      (op : Op) (blk : NftlBlk) (Q : D → Type 0) (req : Request) (block nblk : ℕ) (s : Segment)
      (dev : NftlDev D)
      → KeepsInside blk Q
      → block + nblk ≤ blk.blk_size
      → blk.blk_offset + blk.blk_size < 2 ^ 32
      → Q dev.part
      → Q (do_segment ftl op blk req block nblk s dev).1.part
  unfolding do_segment write_sync_flag
  do_segment-keeps Op.read blk Q req block nblk s dev k h b q =
      read-keeps blk Q block nblk s.buf dev k h b q
  do_segment-keeps Op.write blk Q req block nblk s dev k h b q =
      write-keeps blk Q block nblk s.buf (write_sync_flag ftl blk req dev) k h b q
  do_segment-keeps Op.flush blk Q req block nblk s dev k h b q = q
  do_segment-keeps Op.discard blk Q req block nblk s dev k h b q = q
  do_segment-keeps Op.write_zeroes blk Q req block nblk s dev k h b q = q
  do_segment-keeps Op.other blk Q req block nblk s dev k h b q = q

  -- With blocks of a sector, the block at a sector is that sector.
  block_at-sector : (start : ℕ) → start < 2 ^ 32 → block_at ftl 9 start ≡ start
  block_at-sector start h = omega arith

  do_segments-keeps :
      (blk : NftlBlk) (Q : D → Type 0) (req : Request) (start : ℕ) (segments : List Segment)
      (dev : NftlDev D)
      → KeepsInside blk Q
      → start + sectors_of segments ≤ blk.blk_size
      → blk.blk_offset + blk.blk_size < 2 ^ 32
      → Q dev.part
      → Q (do_segments ftl 9 blk req start segments dev).1.part
  unfolding do_segments
  do_segments-keeps blk Q req start [] dev k h b q = q
  do_segments-keeps blk Q req start (s ∷ segments) dev k h b q =
      let x = do_segment ftl req.op blk req (block_at ftl 9 start) (shr s.bv_len 9) s dev in
      let kept =
        do_segment-keeps req.op blk Q req (block_at ftl 9 start) (shr s.bv_len 9) s dev k
          (omega (arith, block_at-sector start (omega arith))) b q in
      if-keeps Q (is_zero x.0) (do_segments ftl 9 blk req (start + shr s.bv_len 9) segments x.1) x
        (do_segments-keeps blk Q req (start + shr s.bv_len 9) segments x.1 k (omega arith) b kept)
        kept

  do_op-keeps :
      (op : Op) (blk : NftlBlk) (Q : D → Type 0) (req : Request) (dev : NftlDev D)
      → KeepsInside blk Q
      → sectors_of req.segments ≤ req.sectors
      → req.start + req.sectors ≤ blk.blk_size
      → blk.blk_offset + blk.blk_size < 2 ^ 32
      → Q dev.part
      → Q (do_op ftl op 9 blk req dev).1.part
  unfolding do_op
  do_op-keeps Op.discard blk Q req dev k l h b q =
      discard-keeps blk Q (block_at ftl 9 req.start) req.sectors dev k
        (omega (arith, block_at-sector req.start (omega arith))) b q
  do_op-keeps Op.write_zeroes blk Q req dev k l h b q =
      discard-keeps blk Q (block_at ftl 9 req.start) req.sectors dev k
        (omega (arith, block_at-sector req.start (omega arith))) b q
  do_op-keeps Op.read blk Q req dev k l h b q =
      do_segments-keeps blk Q req req.start req.segments dev k (omega arith) b q
  do_op-keeps Op.write blk Q req dev k l h b q =
      do_segments-keeps blk Q req req.start req.segments dev k (omega arith) b q
  do_op-keeps Op.flush blk Q req dev k l h b q =
      do_segments-keeps blk Q req req.start req.segments dev k (omega arith) b q
  do_op-keeps Op.other blk Q req dev k l h b q =
      do_segments-keeps blk Q req req.start req.segments dev k (omega arith) b q

  fits : (a b : ℕ) → ltb a b ≡ false → b ≤ a
  fits a b h = ground arith

  if-keeps_after :
      (Q : D → Type 0) (b : Bool) (x y : ℤ × NftlDev D)
      → Q x.1.part
      → (b ≡ false → Q y.1.part)
      → Q (if b then x else y).1.part
  if-keeps_after Q true x y h g = h
  if-keeps_after Q false x y h g = g refl

  -- A property of the translation layer that reads, writes and discards within the sectors of a
  -- disk keep is kept by every request to the disk, whatever the request asks for: when blocks are
  -- sectors, the capacity is the disk's size, its end is a 32-bit number, and the segments are no
  -- more than the request's sectors. A request past the end reaches nothing.
  pub request-keeps :
      (blk : NftlBlk) (Q : D → Type 0) (req : Request) (dev : NftlDev D)
      → KeepsInside blk Q
      → sectors_of req.segments ≤ req.sectors
      → blk.blk_offset + blk.blk_size < 2 ^ 32
      → Q dev.part
      → Q (do_nftltrans_request ftl 9 blk.blk_size blk req dev).1.part
  unfolding do_nftltrans_request
  request-keeps blk Q req dev k l b q =
      if-keeps Q (not (dev.reboot_flag == 0)) (pos 0, dev) _ q
        (if-keeps_after Q (ltb blk.blk_size (req.start + req.sectors)) (neg eio, dev) _ q
          (λ h.
            do_op-keeps req.op blk Q req dev k l (fits blk.blk_size (req.start + req.sectors) h) b
              q))

-- A disk that is made lies on the device, and is as large as asked for or reaches up to the end: when
-- the sizes do not wrap around.
pub blktrans_initialize-InDevice :
    {D : Type 0} (dev : NftlDev D) (name : List ℕ) (offset size : ℕ)
    → offset + size < 2 ^ 63
    → AllOf
        (λ blk.
          (blk.blk_offset ≡ shr offset 9)
          × (blk.blk_offset < dev.size)
          × (blk.blk_offset + blk.blk_size ≡ min (shr offset 9 + shr size 9) dev.size))
        (aml_blktrans_initialize dev name offset size)
unfolding aml_blktrans_initialize
blktrans_initialize-InDevice dev name offset size h =
    AllOf-cases _ (ltb (shr offset 9) dev.size) _ none
      (λ l. (
        refl,
        below (shr offset 9) dev.size l,
        reach (shr offset 9) (shr size 9) dev.size l (omega arith),
      ))
      (λ l. record {})
  where
    below : (a b : ℕ) → ltb a b ≡ true → a < b
    below a b h = ground arith

    reach :
        (a s n : ℕ)
        → ltb a n ≡ true
        → a + s < 2 ^ 63
        → a + (if leb (u64 (a + s)) n then s else n - a) ≡ min (a + s) n
    reach a s n l h = ground arith
