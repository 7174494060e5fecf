-- ===== src/Phy/Info/Reload.antt =====
-- phy/chipenv.c: a record that amlnand_save_info_by_name has saved is the one that amlnand_info_init
-- finds and reads at the next start.
use amlnf.Prelude.{
  ℕ, suc, ◌+◌, ◌*◌, ◌<◌, ◌≤◌, ◌≡◌, ◌≢◌, inl, inr, sym, ap, subst, ◌∙◌, Bool, false, not, Option,
  none, some, List, ◌++◌, take, drop, length, ◌==◌, arith,
}
use mathlib.Core.Option
use amlnf.Prelude.Int.{ℤ, is_zero}
use amlnf.Guard.{Guard}
use amlnf.Guard.Parts.{strn_eq}
use amlnf.Phy.Info.{
  Geometry, Store, ArgInfo, page_target, blk_target, arg_pages, pages_read, first_blk,
  reserved_block_cnt,
}
use amlnf.Phy.Info.Medium.{Medium}
use amlnf.Phy.Info.Write.{total_size, is_hynix_1ynm}
use amlnf.Phy.Info.Save.{add_reserved, amlnand_save_info_by_name}
use amlnf.Phy.Info.Stored.{stored}
use amlnf.Phy.Info.Roundtrip.{HasRoom, Kept, stamp_of, save-stored, save-Kept}
use amlnf.Phy.Info.Copies.{spare}
use amlnf.Phy.Info.Found.{count-pos, few, kept_page, spare-behind, spare-second, all-Named, saved}
use amlnf.Phy.Info.Visited.{blank, Same}
use amlnf.Phy.Info.Init.{Layout, Started, aml_info_check_datasum, amlnand_info_init}
use amlnf.Phy.Info.Restart.{IsOnly, init-IsOnly}

module _ {D : Type 0} (s : Store D) (g : Geometry) (layout : Layout) where
  -- The next start after a save: `info` and `table` are then what they are before a record is found.
  abbrev pub restart :
      ℕ
      → ArgInfo
      → List ℕ
      → List ℕ
      → List ℕ
      → ℕ
      → Option ((ℤ × ArgInfo × List ℕ) × D)
      → Option Started
  restart fuel info table buf name size none = none
  restart fuel info table buf name size (some r) =
      Option.map (λ q. q.0) (amlnand_info_init s g layout fuel info table buf name size r.1)

module _ {D : Type 0} {s : Store D} (m : Medium s) (g : Geometry) (hx : is_hynix_1ynm g ≡ false)
    (name : List ℕ) (size fuel : ℕ) (bad : ℕ → Bool)
    (isbad : (b : ℕ) (d : D) → is_zero (s.block_isbad (blk_target g b) d).0 ≡ not (bad b))
    (same : (b : ℕ) (d : D) → Same m g d (s.block_isbad (blk_target g b) d).1)
    (few_pages : pages_read g ≤ 65536) where
  -- Pages of the record's block are not the first pages of other reserved blocks.
  abbrev pub IsApart : ℕ → Type 0
  IsApart place =
      (i q : ℕ)
      → i < reserved_block_cnt
      → i ≢ place
      → q < pages_read g
      → page_target g (first_blk g + place) q ≢ page_target g (first_blk g + i) 0

  module _ (place k stamp : ℕ) (buf : List ℕ) (d : D)
      (only : IsOnly m g hx name size fuel bad isbad same few_pages place k d)
      (h : HasRoom g (first_blk g + place) (k * arg_pages g size) size) (apart : IsApart place)
      (some_bytes : 0 < size)
      (ends : strn_eq 4 (spare m g hx name size (first_blk g + place) (3 + k) d).name name ≡ false)
      (room : (3 + k) * arg_pages g size < pages_read g) where
    -- The save leaves the record on this block only, with two more copies.
    saved-IsOnly :
        IsOnly m g hx name size fuel bad isbad same few_pages place
          (2 + k)
          (saved m g hx name size (first_blk g + place) k stamp buf d h some_bytes)
    saved-IsOnly =
        let blk = first_blk g + place in
        let n = arg_pages g size in
        let fewer = few m g hx name size blk k stamp buf d h some_bytes in
        let fits = h.room in
        let kept : (i : ℕ)
            → i < reserved_block_cnt
            → i ≢ place
            → m.peek (page_target g (first_blk g + i) 0)
                (saved m g hx name size blk k stamp buf d h some_bytes)
              ≡ m.peek (page_target g (first_blk g + i) 0) d =
          λ i a b.
            kept_page m g hx name size blk k stamp buf d h some_bytes
              (page_target g (first_blk g + i) 0)
              (λ j c. apart i (k * n + n + j) a b (omega (arith, fewer)))
              (λ j c. apart i (k * n + n + n + j) a b (omega (arith, fewer))) in
        let behind : 3 + k ≡ suc (2 + k) = omega arith in
        record {
          few_blocks = only.few_blocks;
          inside = only.inside;
          others = λ i a b. elim (only.others i a b) [
            | inl e ↦ inl e
            | inr e ↦ inr (subst (λ c. strn_eq 4 c.1.name name ≡ false) (sym (kept i a b)) e)
          ];
          good = only.good;
          copies = all-Named m g hx name size blk k stamp buf d h some_bytes only.copies;
          ends =
              subst
                (λ x.
                  strn_eq 4
                    (spare m g hx name size blk x
                      (saved m g hx name size blk k stamp buf d h some_bytes)).name
                    name
                  ≡ false)
                behind
                (subst (λ c. strn_eq 4 c.name name ≡ false)
                  (sym (spare-behind m g hx name size blk k stamp buf d h some_bytes room)) ends);
          room = subst (λ j. j * n < pages_read g) behind room;
        }

    -- On a flash without errors that is not a Hynix of 1y nm, whose block_isbad answers the same
    -- throughout and leaves the pages, with metadata allowed to be written and at most 65536 pages in
    -- a block: when one reserved block is good and the only one that holds the record, its pages are
    -- not first pages of other reserved blocks, copies of the FULL_PAGE record, which is not empty,
    -- fill it up to the last one, it has room for two more and a page behind them with another name,
    -- and the buffer holds all bytes that are written, then after amlnand_save_info_by_name the
    -- amlnand_info_init of the next start, with fuel and a record that is not valid yet, finds the
    -- place and the stamp of the second new copy, adds its block to the table, fills the buffer with
    -- the bytes saved, and returns what aml_info_check_datasum says of them.
    pub save-init :
        (guard : Guard)
        → (guard.allow_meta == 0) ≡ false
        → (layout : Layout) (fuel' free v p free' st : ℕ) (table table' buf0 : List ℕ)
        → total_size g size ≤ length buf
        → restart s g layout (suc fuel) (blank v p free' st) table' buf0 name size (
            amlnand_save_info_by_name s g guard fuel'
              (stored (first_blk g + place) (k * arg_pages g size) free stamp)
              table
              buf
              name
              size
              d)
          ≡ some (record {
            ret = aml_info_check_datasum layout (take size buf ++ drop size buf0) name;
            info =
                stored
                  (first_blk g + place)
                  ((2 + k) * arg_pages g size)
                  free'
                  (stamp_of m g hx 2 stamp);
            table = add_reserved table' (first_blk g + place);
            buf = take size buf ++ drop size buf0;
          })
    save-init guard allowed layout fuel' free v p free' st table table' buf0 long =
        let blk = first_blk g + place in
        let n = arg_pages g size in
        let positive = count-pos m g hx name size blk k stamp buf d h some_bytes in
        let fewer = few m g hx name size blk k stamp buf d h some_bytes in
        let here : k * n + n + n ≡ (2 + k) * n = omega arith in
        ap (restart s g layout (suc fuel) (blank v p free' st) table' buf0 name size)
          (save-stored m g hx guard allowed fuel' blk (k * n) free stamp size table buf name d h)
        ∙ init-IsOnly m g hx name size fuel bad isbad same few_pages layout place (2 + k) v p free'
            st (stamp_of m g hx 2 stamp) table' buf buf0
            (saved m g hx name size blk k stamp buf d h some_bytes) saved-IsOnly
            (omega (arith, positive, fewer)) h.paged long
            (subst
              (λ q.
                Kept m g hx blk q size buf name (stamp_of m g hx 2 stamp)
                  (saved m g hx name size blk k stamp buf d h some_bytes))
              here (save-Kept m g hx blk (k * n) stamp size buf name d h))
        ∙ ap
            (λ x. some (record {
              ret = aml_info_check_datasum layout (take size buf ++ drop size buf0) name;
              info = stored blk ((2 + k) * n) free' x.timestamp;
              table = add_reserved table' blk;
              buf = take size buf ++ drop size buf0;
            }))
            (spare-second m g hx name size blk k stamp buf d h some_bytes)
