-- ===== src/Block/Reboot.antt =====
-- block/aml_nftl_block.c: after the reboot notifier, requests to the disks do not reach the translation
-- layer, nor does the notifier itself. A flush and a wipe still do.
use amlnf.Prelude.{ℕ, ◌≡◌, ◌≢◌, refl, true, false, ◌==◌, arith, ℕ_discrete}
use amlnf.Prelude.Int.{pos}
use amlnf.Ntd.Blkdevs.{Request}
use amlnf.Block.{Ftl, NftlDev, NftlBlk, aml_nftl_reboot_notifier, do_nftltrans_request}

module _ {D : Type 0} (ftl : Ftl D) where
  -- A request to a device that is down is answered and not done.
  down_answers :
      (blkshift capacity : ℕ) (blk : NftlBlk) (req : Request) (dev : NftlDev D)
      → dev.reboot_flag ≢ 0
      → do_nftltrans_request ftl blkshift capacity blk req dev ≡ (pos 0, dev)
  unfolding do_nftltrans_request
  down_answers blkshift capacity blk req dev h =
      let down : (dev.reboot_flag == 0) ≡ false = ground (arith, h) in rw (down) refl

  notifier_again :
      (dev : NftlDev D) → dev.reboot_flag ≢ 0 → aml_nftl_reboot_notifier ftl dev ≡ (false, dev)
  unfolding aml_nftl_reboot_notifier
  notifier_again dev h =
      let down : (dev.reboot_flag == 0) ≡ false = ground (arith, h) in rw (down) refl

  notifier_downs : (dev : NftlDev D) → (aml_nftl_reboot_notifier ftl dev).1.reboot_flag ≢ 0
  unfolding aml_nftl_reboot_notifier
  notifier_downs dev = elim (ℕ_discrete dev.reboot_flag 0) [
    | yes e ↦
        let up : (dev.reboot_flag == 0) ≡ true = ground (arith, e) in
        rw (up) (λ h. absurd (omega arith))
    | no ne ↦ let down : (dev.reboot_flag == 0) ≡ false = ground (arith, ne) in rw (down) ne
  ]

  -- Once the reboot notifier has run, whatever the flushes answered, every request is answered with
  -- success and leaves the device and the translation layer as they are, and so does the notifier
  -- when it is run again.
  pub reboot-quiet :
      (blkshift capacity : ℕ) (blk : NftlBlk) (req : Request) (dev : NftlDev D)
      → let down = (aml_nftl_reboot_notifier ftl dev).1 in
        (do_nftltrans_request ftl blkshift capacity blk req down ≡ (pos 0, down))
        × (aml_nftl_reboot_notifier ftl down ≡ (false, down))
  reboot-quiet blkshift capacity blk req dev =
      let down = (aml_nftl_reboot_notifier ftl dev).1 in
      (
        down_answers blkshift capacity blk req down (notifier_downs dev),
        notifier_again down (notifier_downs dev),
      )
