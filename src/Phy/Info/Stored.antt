-- ===== src/Phy/Info/Stored.antt =====
-- phy/chipenv.c: amlnand_save_info_by_name on a valid record of type FULL_PAGE that stays in its block.
use amlnf.Prelude.{
  ℕ, suc, ◌+◌, ◌*◌, ◌%◌, ◌<◌, ◌≡◌, Bool, false, some, List, refl, sym, ap, ◌∙◌, arith, take,
}
use native.Mathlib.Nat.{mod-eq_of_lt}
use amlnf.Prelude.Int.{ℤ, pos}
use amlnf.Phy.Info.{Geometry, Store, ArgOobinfo, ArgType, ArgInfo, arg_pages, rounds_of, blk_page}
use amlnf.Phy.Info.Medium.{Medium}
use amlnf.Phy.Info.Written.{writing, writing-result}
use amlnf.Phy.Info.Write.{
  write_pages, write_record, write_one_copy, next_page, total_size, is_hynix_1ynm,
}
use amlnf.Phy.Info.Save.{
  Attempt, Pass, attempt, attempts, save_pass, lacks_room, moved, finish_pass, erase_old,
}

-- A valid record of type FULL_PAGE on a block that is not worn
abbrev pub stored : (blk page free stamp : ℕ) → ArgInfo
stored blk page free stamp = record {
  arg_type = ArgType.full_page;
  valid_blk_addr = blk;
  valid_page_addr = page;
  free_blk_addr = free;
  arg_valid = 1;
  timestamp = stamp;
  update_flag = 0;
}

module _ {D : Type 0} {s : Store D} (m : Medium s) (g : Geometry)
    (hx : is_hynix_1ynm g ≡ false) where
  -- The pages of one copy of the record, behind those of the last one
  abbrev pub one_copy : ℕ → ℕ → ℕ → List ℕ → ArgOobinfo → D → (Bool × ℤ) × D
  one_copy blk page size buf oob d =
      writing m g hx blk (λ p. blk_page g blk p % 256) (page + arg_pages g size) (total_size g size)
        buf oob (rounds_of (total_size g size) g.pagesize) 0 (pos 0) d

  next_page-stored :
      (blk page free stamp size : ℕ)
      → next_page s g (stored blk page free stamp) false size ≡ page + arg_pages g size
  unfolding next_page
  next_page-stored blk page free stamp size = rw hx (omega arith)

  one_copy-pages :
      (blk page size : ℕ) (buf : List ℕ) (oob : ArgOobinfo) (d : D)
      → write_pages s g
          (rounds_of (total_size g size) g.pagesize)
          blk
          (λ p. blk_page g blk p % 256)
          (page + arg_pages g size)
          0
          (total_size g size)
          buf
          oob
          (pos 0)
          d
        ≡ ((false, pos 0), (one_copy blk page size buf oob d).1)
  one_copy-pages blk page size buf oob d =
      let first : page + arg_pages g size + 0 ≡ page + arg_pages g size = omega arith in
      let none_saved : 0 * g.pagesize ≡ 0 = omega arith in
      let ok =
        writing-result m g hx blk (λ p. blk_page g blk p % 256) (page + arg_pages g size)
          (total_size g size) buf oob (rounds_of (total_size g size) g.pagesize) 0 d in
      ap
        (λ (a : ℕ × ℕ).
          write_pages s g (rounds_of (total_size g size) g.pagesize) blk
            (λ p. blk_page g blk p % 256) a.0 a.1 (total_size g size) buf oob (pos 0) d)
        (λ i. (sym first i, sym none_saved i))
      ∙ ap (λ r. (r, (one_copy blk page size buf oob d).1)) ok

  write_one_copy-stored :
      (blk page free stamp size : ℕ) (buf : List ℕ) (oob : ArgOobinfo) (d : D)
      → write_one_copy s g (stored blk page free stamp) false blk size buf oob (pos 0) d
        ≡ ((false, pos 0), (one_copy blk page size buf oob d).1)
  unfolding write_one_copy
  write_one_copy-stored blk page free stamp size buf oob d =
      rw (write_one_copy, next_page-stored blk page free stamp size, hx)
        (one_copy-pages blk page size buf oob d)

  attempt-stored :
      (fuel blk page free stamp size blk' : ℕ) (table buf : List ℕ) (oob : ArgOobinfo) (d : D)
      → lacks_room s g (stored blk page free stamp) size ≡ false
      → attempt s g fuel (stored blk page free stamp) table false blk' size buf oob (pos 0) d
        ≡ some (Attempt.wrote (pos 0) blk false, (one_copy blk page size buf oob d).1)
  unfolding attempt write_record
  attempt-stored fuel blk page free stamp size blk' table buf oob d room =
      rw (attempt, room, write_one_copy-stored blk page free stamp size buf oob d) refl

  moved-stored :
      (blk page free stamp size : ℕ)
      → blk < 65536
      → page + arg_pages g size < 65536
      → moved s g (stored blk page free stamp) false blk size
        ≡ stored blk (page + arg_pages g size) free stamp
  unfolding moved
  moved-stored blk page free stamp size a b =
      let same : page + arg_pages g size + 0 ≡ page + arg_pages g size = omega arith in
      rw (moved, hx, same, mod-eq_of_lt a, mod-eq_of_lt b) refl

  finish_pass-stored :
      (blk page free stamp size tries : ℕ) (table : List ℕ) (d : D)
      → blk < 65536
      → page + arg_pages g size < 65536
      → finish_pass s g
          (stored blk page free stamp)
          table
          size
          tries
          (Attempt.wrote (pos 0) blk false)
          d
        ≡ (
          record {
            exits = false;
            ret = pos 0;
            info = stored blk (page + arg_pages g size) free stamp;
            table = table;
            blk = blk;
            tries = tries;
          },
          d,
        )
  unfolding finish_pass erase_old
  finish_pass-stored blk page free stamp size tries table d a b =
      let ended : ArgInfo → Pass × D = λ info. (
        record { exits = false; ret = pos 0; info = info; table = table; blk = blk; tries = tries },
        d,
      ) in
      ap ended (moved-stored blk page free stamp size a b)

  -- What the pages of a copy carry in their spare bytes
  abbrev pub stamped : List ℕ → ℕ → ArgOobinfo
  stamped name stamp = record { name = take 4 name; timestamp = stamp }

  pub save_pass-stored :
      (tries fuel blk page free stamp size blk' : ℕ) (table buf name : List ℕ) (d : D)
      → lacks_room s g (stored blk page free stamp) size ≡ false
      → blk < 65536
      → page + arg_pages g size < 65536
      → save_pass s g (suc tries) fuel (stored blk page free stamp) table blk' size buf name d
        ≡ some (
          record {
            exits = false;
            ret = pos 0;
            info = stored blk (page + arg_pages g size) free ((stamp + 1) % 65536);
            table = table;
            blk = blk;
            tries = suc tries;
          },
          (one_copy blk page size buf (stamped name ((stamp + 1) % 65536)) d).1,
        )
  unfolding save_pass attempts lacks_room
  save_pass-stored tries fuel blk page free stamp size blk' table buf name d room a b =
      let stamp' = (stamp + 1) % 65536 in
      rw
        (
          save_pass,
          attempts,
          attempt-stored fuel blk page free stamp' size blk' table buf (stamped name stamp') d room,
          finish_pass-stored blk page free stamp' size (suc tries) table
              (one_copy blk page size buf (stamped name stamp') d).1 a b,
        )
        refl
