-- ===== src/Phy/Info/Tests.antt =====
-- Examples of the theorems on the records kept on the flash.
use amlnf.Prelude.{◌≡◌, refl, false, some, [], ◌∷◌, arith}
use amlnf.Prelude.Int.{ℤ, pos}
use mathlib.Core.Option
use amlnf.Phy.Info.Free.{amlnand_get_free_block, is_factory_bad}
use amlnf.Phy.Info.Fresh.{IsAnswer, free_block-IsAnswer}
use amlnf.Phy.Info.Save.{amlnand_save_info_by_name, add_reserved}
use amlnf.Phy.Info.{on_chip}
use amlnf.Phy.Info.Roundtrip.{save-read, reread}
use amlnf.Phy.Info.Stored.{stored}
use amlnf.Phy.Info.Samples.{
  Log, log_store, log_medium, sample_geometry, sample-HasRoom, sample-plain, sample_meta,
}
use amlnf.Guard.Parts.{strn_eq}
use amlnf.Phy.Info.{Target, first_blk, page_target, ArgOobinfo}
use amlnf.Phy.Info.Samples.{
  target_discrete, chosen-yes, chosen-no, peek_log, sample-apart, sample-IsApart, sample-few_pages,
}
use amlnf.Phy.Info.Check.{amlnand_check_info_by_name}
use amlnf.Phy.Info.Scanned.{Returns, check_info-Returns}
use amlnf.Phy.Info.Copies.{Named}
use amlnf.Phy.Info.Restart.{IsOnly}
use amlnf.Phy.Info.Reload.{restart, save-init}
use amlnf.Phy.Info.Init.{aml_info_check_datasum, bbt_head_magic}
use amlnf.Phy.Info.Update.{status_bytes}
use amlnf.Phy.Info.Datasum.{datasum-status}
use amlnf.Phy.Chipenv.{BlockStatus, check_block_status, seal}
use amlnf.Phy.Info.Visited.{blank}
use amlnf.Prelude.{ℕ, List, false, ◌+◌, ap, subst, ◌≤◌, ◌≢◌, inr}

save-read_example :
    Option.map (reread log_store sample_geometry (0 ∷ 0 ∷ 0 ∷ 0 ∷ 0 ∷ 0 ∷ []) (110 ∷ 101 ∷ []) 5) (
      amlnand_save_info_by_name log_store sample_geometry sample_meta 100
        (stored 3 0 0 7)
        []
        (1 ∷ 2 ∷ 3 ∷ 4 ∷ 5 ∷ [])
        (110 ∷ 101 ∷ [])
        5
        [])
    ≡ some (pos 0, (pos 0, 1 ∷ 2 ∷ 3 ∷ 4 ∷ 5 ∷ 0 ∷ []))
save-read_example =
    save-read log_medium sample_geometry sample-plain sample_meta refl 100 3 0 0 7 5 []
      (1 ∷ 2 ∷ 3 ∷ 4 ∷ 5 ∷ []) (0 ∷ 0 ∷ 0 ∷ 0 ∷ 0 ∷ 0 ∷ []) (110 ∷ 101 ∷ []) []
      (sample-HasRoom 3 0 (omega arith) (omega arith)) (omega arith)

free_block-IsAnswer_example :
    (r : ℤ × Log) × ((amlnand_get_free_block log_store sample_geometry 48 (64 ∷ 255 ∷ []) 65 []
        ≡ some r)
      × IsAnswer log_store sample_geometry (64 ∷ 255 ∷ []) 65 r)
unfolding on_chip is_factory_bad
free_block-IsAnswer_example =
    free_block-IsAnswer log_store sample_geometry (λ blk d. inr refl) (λ blk. false) (λ blk d. refl)
      48 (64 ∷ 255 ∷ []) 65 [] (omega arith)

abbrev sample_name : List ℕ
sample_name = 110 ∷ 101 ∷ 110 ∷ 118 ∷ []

-- Block 66, the third of the reserved ones, with one copy of the record, on its first page
abbrev one_saved : Log
one_saved =
    (
      page_target sample_geometry 66 0,
      (1 ∷ 2 ∷ 3 ∷ 4 ∷ [], record { name = sample_name; timestamp = 7 }),
    )
    ∷ []

-- Any other page is as it was.
other_page :
    (t : Target)
    → page_target sample_geometry 66 0 ≢ t
    → strn_eq 4 (peek_log t one_saved).1.name sample_name ≡ false
unfolding peek_log strn_eq
other_page t n =
    ap (λ (c : List ℕ × ArgOobinfo). strn_eq 4 c.1.name sample_name)
      (chosen-no (target_discrete (page_target sample_geometry 66 0) t) _ _ n)

sample-Named :
    (i : ℕ) → i ≤ 0 → Named log_medium sample_geometry sample-plain sample_name 5 66 i one_saved
unfolding peek_log strn_eq amlnf.Phy.Info.arg_pages
sample-Named i a =
    let e : 0 ≡ i = omega arith in
    subst (λ j. Named log_medium sample_geometry sample-plain sample_name 5 66 j one_saved) e
      (ap (λ (c : List ℕ × ArgOobinfo). strn_eq 4 c.1.name sample_name)
        (chosen-yes
          (target_discrete (page_target sample_geometry 66 0) (page_target sample_geometry 66 0)) _
          _ refl))

sample-IsOnly :
    IsOnly log_medium sample_geometry sample-plain sample_name 5 40
      (λ b. false)
      (λ b d. refl)
      (λ b d t. refl)
      sample-few_pages
      2
      0
      one_saved
unfolding peek_log strn_eq amlnf.Phy.Info.arg_pages amlnf.Phy.Info.first_blk
    amlnf.Phy.Info.pages_read amlnf.Phy.Info.pages_per_blk
sample-IsOnly = record {
  few_blocks = omega arith;
  inside = omega arith;
  others = λ i a b. inr (
      other_page (page_target sample_geometry (first_blk sample_geometry + i) 0)
        (sample-IsApart 2 i 0 (omega arith) (omega arith) b (omega arith)));
  good = refl;
  copies = λ i a. sample-Named i a;
  ends =
      other_page (page_target sample_geometry 66 2)
        (sample-apart 66 0 2 (omega arith) (omega arith) (omega arith));
  room = omega arith;
}

save-init_example :
    restart log_store sample_geometry
      (record { para_at = 4; para_size = 64 })
      41
      (blank 0 0 0 0)
      (64 ∷ 255 ∷ [])
      (0 ∷ 0 ∷ 0 ∷ 0 ∷ 0 ∷ 0 ∷ [])
      sample_name
      5
      (amlnand_save_info_by_name log_store sample_geometry sample_meta 100
        (stored 66 0 0 7)
        []
        (1 ∷ 2 ∷ 3 ∷ 4 ∷ 5 ∷ [])
        sample_name
        5
        one_saved)
    ≡ some (record {
      ret = pos 0;
      info = stored 66 4 0 9;
      table = 64 ∷ 66 ∷ [];
      buf = 1 ∷ 2 ∷ 3 ∷ 4 ∷ 5 ∷ 0 ∷ [];
    })
unfolding amlnf.Phy.Info.arg_pages amlnf.Phy.Info.pages_read amlnf.Phy.Info.pages_per_blk
    amlnf.Phy.Info.first_blk peek_log aml_info_check_datasum add_reserved
save-init_example =
    save-init log_medium sample_geometry sample-plain sample_name 5 40 (λ b. false) (λ b d. refl)
      (λ b d t. refl) sample-few_pages 2 0 7 (1 ∷ 2 ∷ 3 ∷ 4 ∷ 5 ∷ []) one_saved sample-IsOnly
      (sample-HasRoom 66 0 (omega arith) (omega arith))
      (λ i q a b c. sample-IsApart 2 i q (omega arith) (omega arith) b c) (omega arith)
      (other_page (page_target sample_geometry 66 6)
        (sample-apart 66 0 6 (omega arith) (omega arith) (omega arith)))
      (omega arith) sample_meta refl (record { para_at = 4; para_size = 64 }) 100 0 0 0 0 0 []
      (64 ∷ 255 ∷ []) (0 ∷ 0 ∷ 0 ∷ 0 ∷ 0 ∷ 0 ∷ []) (omega arith)

check_info-Returns_example :
    Returns log_store sample_geometry
      (amlnand_check_info_by_name log_store sample_geometry 27 (stored 3 0 0 7) [] (110 ∷ []) 5 [])
unfolding amlnf.Phy.Info.pages_read amlnf.Phy.Info.pages_per_blk
check_info-Returns_example =
    check_info-Returns log_store sample_geometry 27 (stored 3 0 0 7) [] (110 ∷ []) 5 []
      (omega arith)

-- A table of three entries with its checksum, which is 6
abbrev small_table : BlockStatus
small_table = record { crc = 6; blk_status = 1 ∷ 2 ∷ 3 ∷ [] }

datasum-status_example :
    (aml_info_check_datasum
        (record { para_at = 4; para_size = 64 })
        (status_bytes small_table)
        bbt_head_magic
      ≡ check_block_status small_table)
    × (aml_info_check_datasum
          (record { para_at = 4; para_size = 64 })
          (status_bytes (seal small_table))
          bbt_head_magic
        ≡ pos 0)
datasum-status_example =
    datasum-status (record { para_at = 4; para_size = 64 }) small_table (omega arith)
