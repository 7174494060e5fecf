-- ===== src/Block/Tests.antt =====
-- Examples of the theorems on the disks of the translation layer.
use amlnf.Prelude.{ℕ, ◌+◌, ◌<◌, ◌≤◌, ◌≡◌, refl, false, arith, List, [], ◌∷◌, AllOf}
use Prim.Native.Nat.{min}
use amlnf.Prelude.Int.{pos}
use amlnf.Block.{
  do_nftltrans_request, aml_blktrans_initialize, aml_nftl_reboot_notifier, aml_nftl_reinit_part,
  discard_mapped, starts_with,
}
use amlnf.Block.Isolated.{request-keeps, blktrans_initialize-InDevice}
use amlnf.Block.Reboot.{reboot-quiet}
use amlnf.Block.Wipe.{wipe-one_part}
use amlnf.Samples.{sample_ftl, sample_blk, sample_nftl, sample_request, part_a, part_b}

-- Every sector of the log is one of the sample disk's.
abbrev AllInside : List ℕ → Type 0
AllInside [] = Unit
AllInside (s ∷ log) = (100 ≤ s) × (s ≤ 150) × AllInside log

request-keeps_example :
    AllInside (do_nftltrans_request sample_ftl 9 50 sample_blk sample_request sample_nftl).1.part
request-keeps_example =
    request-keeps sample_ftl sample_blk AllInside sample_request sample_nftl
      (record {
        keeps_read = λ start len buf d lo hi q. (lo, omega arith, q);
        keeps_write = λ start len buf sync d lo hi q. (lo, omega arith, q);
        keeps_discard = λ start len sync d lo hi q. (lo, omega arith, q);
      })
      (omega arith) (omega arith) (record {})

blktrans_initialize-InDevice_example :
    AllOf
      (λ blk.
        (blk.blk_offset ≡ 100)
        × (blk.blk_offset < 1000)
        × (blk.blk_offset + blk.blk_size ≡ min (100 + 100) 1000))
      (aml_blktrans_initialize sample_nftl [] 51200 51200)
blktrans_initialize-InDevice_example =
    blktrans_initialize-InDevice sample_nftl [] 51200 51200 (omega arith)

reboot-quiet_example :
    let down = (aml_nftl_reboot_notifier sample_ftl sample_nftl).1 in
    (do_nftltrans_request sample_ftl 9 50 sample_blk sample_request down ≡ (pos 0, down))
    × (aml_nftl_reboot_notifier sample_ftl down ≡ (false, down))
reboot-quiet_example = reboot-quiet sample_ftl 9 50 sample_blk sample_request sample_nftl

wipe-one_part_example : aml_nftl_reinit_part sample_ftl (λ d. d) sample_blk sample_nftl ≡ (
  0,
  record sample_nftl { nftl_thread = false; part = discard_mapped sample_ftl 51200 51200 [] },
)
unfolding starts_with
wipe-one_part_example =
    wipe-one_part sample_ftl (λ d. d) sample_blk sample_nftl (part_a ∷ []) [] part_b refl
      (omega arith) (refl, record {}) refl (record {}) (omega arith)
