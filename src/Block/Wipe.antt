-- ===== src/Block/Wipe.antt =====
-- block/aml_nftl_block.c: which part of a device wiping a disk discards.
use amlnf.Prelude.{
  ℕ, ◌+◌, ◌-◌, ◌^◌, ◌<◌, ◌≡◌, refl, ap, ◌∙◌, true, false, not, ◌&&◌, List, [], ◌∷◌, ◌++◌, ◌==◌,
  if◌then◌else◌, if_false, length, arith,
}
use native.Mathlib.Nat.{mod-eq_of_lt}
use amlnf.Prelude.Words.{u64}
use amlnf.Dev.Phydev.{Partition}
use amlnf.Block.{
  Ftl, NftlDev, NftlBlk, starts_with, all_ones, discard_mapped, discard_parts, aml_nftl_reinit_part,
}

-- No partition has a name that starts with `name`.
abbrev pub NoMatch : List ℕ → List Partition → Type 0
NoMatch name [] = Unit
NoMatch name (p ∷ parts) = (starts_with p.part_name name ≡ false) × NoMatch name parts

-- The bytes of partitions that all have a size.
abbrev pub total : List Partition → ℕ
total [] = 0
total (p ∷ parts) = p.part_size + total parts

module _ {D : Type 0} (ftl : Ftl D) where
  discard_none :
      (name : List ℕ) (parts : List Partition) (offset : ℕ) (d : D)
      → NoMatch name parts
      → discard_parts ftl name parts offset d ≡ d
  unfolding discard_parts
  discard_none name [] offset d n = refl
  discard_none name (p ∷ parts) offset d n = rw (n.0) (discard_none name parts _ d n.1)

  next_offset :
      (p : Partition) (offset : ℕ)
      → offset + p.part_size < 2 ^ 64 - 1
      → (if p.part_size == all_ones ftl then offset else u64 (offset + p.part_size))
        ≡ offset + p.part_size
  next_offset p offset h =
      if_false (p.part_size == all_ones ftl) offset (u64 (offset + p.part_size)) (ground arith)
      ∙ mod-eq_of_lt (omega arith)

  discard_step :
      (name : List ℕ) (p : Partition) (rest : List Partition) (offset : ℕ) (d : D)
      → starts_with p.part_name name ≡ false
      → offset + p.part_size < 2 ^ 64 - 1
      → discard_parts ftl name (p ∷ rest) offset d
        ≡ discard_parts ftl name rest (offset + p.part_size) d
  unfolding discard_parts
  discard_step name p rest offset d n b = rw (n, next_offset p offset b) refl

  discard_skip :
      (name : List ℕ) (before after : List Partition) (offset : ℕ) (d : D)
      → NoMatch name before
      → offset + total before < 2 ^ 64 - 1
      → discard_parts ftl name (before ++ after) offset d
        ≡ discard_parts ftl name after (offset + total before) d
  discard_skip name [] after offset d n b = ap (λ o. discard_parts ftl name after o d) (omega arith)
  discard_skip name (p ∷ before) after offset d n b =
      discard_step name p (before ++ after) offset d n.0 (omega arith)
      ∙ discard_skip name before after (offset + p.part_size) d n.1 (omega arith)
      ∙ ap (λ o. discard_parts ftl name after o d) (omega arith)

  discard_first :
      (name : List ℕ) (p : Partition) (after : List Partition) (offset : ℕ) (d : D)
      → starts_with p.part_name name ≡ true
      → NoMatch name after
      → discard_parts ftl name (p ∷ after) offset d
        ≡ discard_mapped ftl offset
            (if not (p.part_offset == all_ones ftl) && not (p.part_size == all_ones ftl)
              then p.part_size
              else all_ones ftl)
            d
  unfolding discard_parts
  discard_first name p after offset d m n = rw (m) (discard_none name after _ _ n)

  several_parts :
      (restart : D → D) (blk : NftlBlk) (dev : NftlDev D) (parts : List Partition)
      → dev.parts ≡ parts
      → 1 < length parts
      → aml_nftl_reinit_part ftl restart blk dev ≡ (
        0,
        record dev {
          nftl_thread = false;
          part = discard_parts ftl blk.blk_name dev.parts 0 (ftl.set_status 0 dev.part);
        },
      )
  unfolding aml_nftl_reinit_part
  several_parts restart blk dev [] e h = absurd (omega arith)
  several_parts restart blk dev (p ∷ []) e h = absurd (omega arith)
  several_parts restart blk dev (p ∷ (q ∷ more)) e h =
      ap
        (λ l. elim l [
          | [] ↦ (
            (ftl.erase_part (ftl.set_status 0 dev.part)).0,
            record dev {
              nftl_thread = false;
              part = restart (ftl.erase_part (ftl.set_status 0 dev.part)).1;
            },
          )
          | p ∷ rest ↦ elim rest [
            | [] ↦ (
              (ftl.erase_part (ftl.set_status 0 dev.part)).0,
              record dev {
                nftl_thread = false;
                part = restart (ftl.erase_part (ftl.set_status 0 dev.part)).1;
              },
            )
            | q ∷ more ↦ (
              0,
              record dev {
                nftl_thread = false;
                part = discard_parts ftl blk.blk_name dev.parts 0 (ftl.set_status 0 dev.part);
              },
            )
          ]
        ])
        e

  -- Wiping a disk of a device with several partitions, of which just one has a name that starts with
  -- the disk's name, leaves the device without its thread, sets the status and discards the bytes of that partition, from where the ones before it end,
  -- if they have a mapping: its own size, or all there is when its size or offset is all ones. The
  -- partitions before it have sizes that add up without a wrap-around.
  pub wipe-one_part :
      (restart : D → D) (blk : NftlBlk) (dev : NftlDev D) (before after : List Partition)
      (p : Partition)
      → dev.parts ≡ before ++ (p ∷ after)
      → 1 < length dev.parts
      → NoMatch blk.blk_name before
      → starts_with p.part_name blk.blk_name ≡ true
      → NoMatch blk.blk_name after
      → total before < 2 ^ 64 - 1
      → aml_nftl_reinit_part ftl restart blk dev ≡ (
        0,
        record dev {
          nftl_thread = false;
          part =
              discard_mapped ftl
                (total before)
                (if not (p.part_offset == all_ones ftl) && not (p.part_size == all_ones ftl)
                  then p.part_size
                  else all_ones ftl)
                (ftl.set_status 0 dev.part);
        },
      )
  wipe-one_part restart blk dev before after p e several nb m na b =
      several_parts restart blk dev dev.parts refl several
      ∙ ap
          (λ l. (
            0,
            record dev {
              nftl_thread = false;
              part = discard_parts ftl blk.blk_name l 0 (ftl.set_status 0 dev.part);
            },
          ))
          e
      ∙ ap (λ d. (0, record dev { nftl_thread = false; part = d }))
          (discard_skip blk.blk_name before (p ∷ after) 0 (ftl.set_status 0 dev.part) nb
              (omega arith)
            ∙ discard_first blk.blk_name p after (0 + total before) (ftl.set_status 0 dev.part) m na
            ∙ ap
                (λ o.
                  discard_mapped ftl o
                    (if not (p.part_offset == all_ones ftl) && not (p.part_size == all_ones ftl)
                      then p.part_size
                      else all_ones ftl)
                    (ftl.set_status 0 dev.part))
                (omega arith))
