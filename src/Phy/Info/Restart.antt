-- ===== src/Phy/Info/Restart.antt =====
-- phy/chipenv.c: amlnand_info_init on a flash where one of the reserved blocks holds the record.
use amlnf.Prelude.{
  ℕ, zero, suc, ◌+◌, ◌-◌, ◌*◌, ◌⊎◌, ◌%◌, ◌<◌, ◌≤◌, ◌≡◌, ◌≢◌, inl, inr, refl, sym, ap, subst, ◌∙◌,
  Bool, true, ◌⊎◌, false, not, Bool-cases, some, List, ◌++◌, take, drop, length, ltb, arith,
}
use native.Mathlib.Nat.{mod-eq_of_lt, mul-le-mul_left}
use mathlib.Core.Option
use amlnf.Prelude.Int.{ℤ, pos, is_zero}
use amlnf.Guard.Parts.{strn_eq}
use amlnf.Phy.Info.{
  Geometry, Store, ArgInfo, ArgType, page_target, blk_target, arg_pages, pages_read, first_blk,
  reserved_block_cnt, on_chip,
}
use amlnf.Phy.Info.Medium.{Medium, peek-get_page}
use amlnf.Phy.Info.Pages.{IsPaged}
use amlnf.Phy.Info.Read.{read_failed}
use amlnf.Phy.Info.Write.{total_size, is_hynix_1ynm}
use amlnf.Phy.Info.Save.{add_reserved}
use amlnf.Phy.Info.Stored.{stored}
use amlnf.Phy.Info.Roundtrip.{Kept, read-stored, peek-read_info}
use amlnf.Phy.Info.Check.{check_blocks, last_copy_page, find_page, amlnand_check_info_by_name}
use amlnf.Phy.Info.Copies.{spare, Named, scan-last}
use amlnf.Phy.Info.Visited.{blank, Same, check_blocks-found}
use amlnf.Phy.Info.Read.{amlnand_read_info_by_name}
use amlnf.Phy.Info.Init.{Started, Layout, aml_info_check_datasum, read_found, amlnand_info_init}

module _ {D : Type 0} {s : Store D} (m : Medium s) (g : Geometry) where
  peek-last_copy :
      (rounds : ℕ) (name : List ℕ) (size i : ℕ) (info : ArgInfo) (ret : ℤ) (d : D)
      → Same m g d (last_copy_page s g rounds name size i info ret d).1
  unfolding last_copy_page
  peek-last_copy zero name size i info ret d t = refl
  peek-last_copy (suc rounds) name size i info ret d t =
      let page = page_target g info.valid_blk_addr i in
      let r = (on_chip s (s.read_page page) d).0 in
      let rest = peek-get_page m page d t in
      elim (Bool-cases (ltb i (pages_read g))) [
        | inl a ↦ elim (Bool-cases (read_failed r)) [
          | inl b ↦ rw (last_copy_page, a, b) (peek-last_copy rounds name size _ _ _ _ t ∙ rest)
          | inr b ↦ elim (Bool-cases (strn_eq 4 r.oob_buf.name name)) [
            | inl c ↦
                rw (last_copy_page, a, b, c) (peek-last_copy rounds name size _ _ _ _ t ∙ rest)
            | inr c ↦ rw (last_copy_page, a, b, c) rest
          ]
        ]
        | inr a ↦ rw (last_copy_page, a) refl
      ]

  -- What the scan leaves once its block is known
  check_info-valid :
      (fuel blk p free stamp size : ℕ) (info info' : ArgInfo) (table name : List ℕ) (ret r : ℤ)
      (d d1 : D)
      → info.arg_type ≡ ArgType.full_page
      → check_blocks s g fuel reserved_block_cnt name size (first_blk g % 65536) info (pos 0) d
        ≡ some ((ret, stored blk p free stamp), d1)
      → (last_copy_page s g (pages_read g) name size 0 (stored blk p free stamp) ret d1).0
        ≡ (r, info')
      → amlnand_check_info_by_name s g fuel info table name size d
        ≡ some (
          (r, info', add_reserved table info'.valid_blk_addr),
          (last_copy_page s g (pages_read g) name size 0 (stored blk p free stamp) ret d1).1,
        )
  unfolding amlnand_check_info_by_name find_page
  check_info-valid fuel blk p free stamp size info info' table name ret r d d1 type e f =
      rw (amlnand_check_info_by_name, e, type, f) refl

  module _ (hx : is_hynix_1ynm g ≡ false) (name : List ℕ) (size fuel : ℕ) (bad : ℕ → Bool)
      (isbad : (b : ℕ) (d : D) → is_zero (s.block_isbad (blk_target g b) d).0 ≡ not (bad b))
      (same : (b : ℕ) (d : D) → Same m g d (s.block_isbad (blk_target g b) d).1)
      (few_pages : pages_read g ≤ 65536) where
    -- Of the reserved blocks, the one at this place is good and the only one that holds the record:
    -- copies fill it up to number `k`.
    pub record IsOnly (place k : ℕ) (d : D) : Type 0 where
      pub few_blocks : first_blk g + reserved_block_cnt < 65536
      pub inside : place < reserved_block_cnt
      pub others :
          (i : ℕ)
          → i < reserved_block_cnt
          → i ≢ place
          → (bad (first_blk g + i) ≡ true)
            ⊎ (strn_eq 4 (m.peek (page_target g (first_blk g + i) 0) d).1.name name ≡ false)
      pub good : bad (first_blk g + place) ≡ false
      pub copies : (i : ℕ) → i ≤ k → Named m g hx name size (first_blk g + place) i d
      pub ends :
          strn_eq 4 (spare m g hx name size (first_blk g + place) (suc k) d).name name ≡ false
      pub room : suc k * arg_pages g size < pages_read g

    -- The scan finds the record's block and its last copy.
    check_info-found :
        (place k v p free st : ℕ) (table : List ℕ) (d : D)
        → IsOnly place k d
        → 0 < arg_pages g size
        → (d' : D) × ((amlnand_check_info_by_name s g
                (suc fuel)
                (blank v p free st)
                table
                name
                size
                d
              ≡ some (
                (
                  pos 0,
                  stored
                      (first_blk g + place)
                      (k * arg_pages g size)
                      free
                      (spare m g hx name size (first_blk g + place) k d).timestamp,
                  add_reserved table (first_blk g + place),
                ),
                d',
              ))
            × Same m g d d')
    unfolding amlnand_check_info_by_name find_page
    check_info-found place k v p free st table d h few =
        let blk = first_blk g + place in
        let n = arg_pages g size in
        let small = h.few_blocks in
        let room = h.room in
        let after = reserved_block_cnt - suc place in
        let all : place + suc after ≡ reserved_block_cnt = omega (arith, h.inside) in
        let start : first_blk g % 65536 ≡ first_blk g = mod-eq_of_lt (omega arith) in
        let origin : 0 * n ≡ 0 = omega arith in
        let first = h.copies 0 (omega arith) in
        let (ret1, d1, (e1, s1)) =
          check_blocks-found m g name size fuel bad isbad same (omega arith) place after
            (first_blk g) v p free st (pos 0) d (omega arith)
            (λ i a b. h.others i (omega (arith, all)) b) h.good
            (subst (λ q. strn_eq 4 (m.peek (page_target g blk q) d).1.name name ≡ true) origin
              first) in
        let stamp = (m.peek (page_target g blk 0) d).1.timestamp in
        let e1' =
          ap
            (λ x.
              check_blocks s g (suc fuel) reserved_block_cnt name size x (blank v p free st) (pos 0)
                d)
            start
          ∙ ap
              (λ x.
                check_blocks s g (suc fuel) x name size (first_blk g) (blank v p free st) (pos 0) d)
              (sym all)
          ∙ e1 in
        let kept : (i : ℕ) → spare m g hx name size blk i d1 ≡ spare m g hx name size blk i d =
          λ i. ap (λ c. c.1) (s1 (page_target g blk (i * n))) in
        let long = mul-le-mul_left (suc k) few in
        let fits : k * n % 65536 ≡ k * n = mod-eq_of_lt (omega arith) in
        let e2 =
          ap
            (λ i.
              (last_copy_page s g (pages_read g) name size i (stored blk p free stamp) ret1 d1).0)
            (sym origin)
          ∙ scan-last m g hx name size blk k k 0 (pages_read g) p free stamp ret1 d1 (omega arith)
              (omega (arith, long))
              (λ i a b. subst (λ c. strn_eq 4 c.name name ≡ true) (sym (kept i)) (h.copies i b))
              (subst (λ c. strn_eq 4 c.name name ≡ false) (sym (kept (suc k))) h.ends) room
          ∙ ap (λ q. (pos 0, stored blk q free (spare m g hx name size blk k d1).timestamp)) fits
          ∙ ap (λ c. (pos 0, stored blk (k * n) free c.timestamp)) (kept k) in
        (
          _,
          (
            check_info-valid (suc fuel) blk p free stamp size (blank v p free st) _ table name ret1
                (pos 0) d d1 refl e1' e2,
            λ t. peek-last_copy _ name size 0 _ ret1 d1 t ∙ s1 t,
          ),
        )

    -- What the start makes of the record: its place, the table, and the bytes in the buffer
    abbrev pub started : Layout → ℕ → ℕ → ℕ → List ℕ → List ℕ → List ℕ → D → Started
    started layout place k free table buf buf0 d = record {
      ret = aml_info_check_datasum layout (take size buf ++ drop size buf0) name;
      info =
          stored (first_blk g + place) (k * arg_pages g size) free
            (spare m g hx name size (first_blk g + place) k d).timestamp;
      table = add_reserved table (first_blk g + place);
      buf = take size buf ++ drop size buf0;
    }

    -- The start on a flash whose pages hold the record's bytes
    pub init-found :
        (layout : Layout) (place k v p free st stamp : ℕ) (table buf buf0 : List ℕ) (d : D)
        → IsOnly place k d
        → 0 < arg_pages g size
        → IsPaged g
        → total_size g size ≤ length buf
        → Kept m g hx (first_blk g + place) (k * arg_pages g size) size buf name stamp d
        → (d' : D) × ((amlnand_info_init s g layout
                (suc fuel)
                (blank v p free st)
                table
                buf0
                name
                size
                d
              ≡ some (started layout place k free table buf buf0 d, d'))
            × Same m g d d')
    unfolding amlnand_info_init read_found
    init-found layout place k v p free st stamp table buf buf0 d h few paged long kept =
        let (d1, (e, same1)) = check_info-found place k v p free st table d h few in
        let info =
          stored (first_blk g + place) (k * arg_pages g size) free
            (spare m g hx name size (first_blk g + place) k d).timestamp in
        let read =
          read-stored m g hx (first_blk g + place) (k * arg_pages g size) free
            (spare m g hx name size (first_blk g + place) k d).timestamp size buf buf0 name stamp d1
            paged long (λ i a. same1 _ ∙ kept i a) in
        (
          (amlnand_read_info_by_name s g info buf0 name size d1).1,
          (
            rw (amlnand_info_init, e, read_found, read) refl,
            λ t. peek-read_info m g hx info buf0 name size d1 t ∙ same1 t,
          ),
        )

    pub init-IsOnly :
        (layout : Layout) (place k v p free st stamp : ℕ) (table buf buf0 : List ℕ) (d : D)
        → IsOnly place k d
        → 0 < arg_pages g size
        → IsPaged g
        → total_size g size ≤ length buf
        → Kept m g hx (first_blk g + place) (k * arg_pages g size) size buf name stamp d
        → Option.map
            (λ r. r.0)
            (amlnand_info_init s g layout (suc fuel) (blank v p free st) table buf0 name size d)
          ≡ some (started layout place k free table buf buf0 d)
    init-IsOnly layout place k v p free st stamp table buf buf0 d h few paged long kept =
        ap (Option.map (λ r. r.0))
          (init-found layout place k v p free st stamp table buf buf0 d h few paged long kept).1.0

    -- The pages are the same, so that the record's block is still the only one.
    pub IsOnly-Same :
        (place k : ℕ) (d d' : D) → Same m g d d' → IsOnly place k d → IsOnly place k d'
    IsOnly-Same place k d d' e h = record {
      few_blocks = h.few_blocks;
      inside = h.inside;
      others = λ i a b. elim (h.others i a b) [
        | inl x ↦ inl x
        | inr x ↦ inr (
            subst (λ c. strn_eq 4 c.1.name name ≡ false)
              (sym (e (page_target g (first_blk g + i) 0))) x)
      ];
      good = h.good;
      copies = λ i a.
          subst (λ c. strn_eq 4 c.1.name name ≡ true)
            (sym (e (page_target g (first_blk g + place) (i * arg_pages g size)))) (h.copies i a);
      ends =
          subst (λ c. strn_eq 4 c.1.name name ≡ false)
            (sym (e (page_target g (first_blk g + place) (suc k * arg_pages g size)))) h.ends;
      room = h.room;
    }
