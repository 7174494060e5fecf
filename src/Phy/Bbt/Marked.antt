-- ===== src/Phy/Bbt/Marked.antt =====
-- phy/chip_operation.c: what block_markbad marks, block_isbad finds, and the other blocks keep
-- their status.
use amlnf.Prelude.{
  ℕ, zero, suc, ◌+◌, ◌<◌, ◌≤◌, ◌≡◌, ◌≢◌, refl, sym, ◌∙◌, subst, Bool, true, false, arith,
  if◌then◌else◌, ℕ_discrete,
}
use amlnf.Prelude.Int.{ℤ, pos}
use amlnf.Phy.Bbt.{
  Table, set_blcok_status, get_blcok_status, pair_status, chips_status, status_by_mode, chips_set,
  mark_by_mode, plane_block, partner,
}

abbrev Bad : Table → ℕ → ℕ → Type 0
Bad t c b = t c b ≡ 1

set-hit : (t : Table) (c b : ℕ) → Bad (set_blcok_status t c b 1) c b
unfolding set_blcok_status
set-hit t c b = ground arith

set-keeps : (t : Table) (c b c' b' : ℕ) → Bad t c' b' → Bad (set_blcok_status t c b 1) c' b'
unfolding set_blcok_status
set-keeps t c b c' b' h = ground arith

set-other : (t : Table) (c b v c' b' : ℕ) → b' ≢ b → set_blcok_status t c b v c' b' ≡ t c' b'
unfolding set_blcok_status
set-other t c b v c' b' h = ground arith

get_of_Bad : (t : Table) (c b : ℕ) → Bad t c b → get_blcok_status t c b ≡ pos 1
unfolding get_blcok_status
get_of_Bad t c b h = ground arith

-- What every step keeps, the loop over the chips keeps.
chips_set_keeps :
    (P : Table → Type 0) (set : ℕ → Table → Table)
    → ((c : ℕ) (t : Table) → P t → P (set c t))
    → (n from : ℕ) (t : Table) → P t
    → P (chips_set n from set t)
unfolding chips_set
chips_set_keeps P set keep zero from t h = h
chips_set_keeps P set keep (suc n) from t h =
    chips_set_keeps P set keep n (suc from) (set from t) (keep from t h)

-- The loop marks the block of every chip that it visits.
chips_set-Bad :
    (b : ℕ) (set : ℕ → Table → Table)
    → ((c : ℕ) (t : Table) → Bad (set c t) c b)
    → ((c c' : ℕ) (t : Table) → Bad t c' b → Bad (set c t) c' b)
    → (n from c : ℕ) (t : Table) → from ≤ c
    → c < from + n
    → Bad (chips_set n from set t) c b
unfolding chips_set
chips_set-Bad b set hit keep zero from c t lo hi = absurd (omega arith)
chips_set-Bad b set hit keep (suc n) from c t lo hi = elim (ℕ_discrete from c) [
  | yes e ↦
      chips_set_keeps (λ s. Bad s c b) set (λ c' s. keep c' c s) n (suc from) (set from t)
        (subst (λ x. Bad (set from t) x b) e (hit from t))
  | no ne ↦ chips_set-Bad b set hit keep n (suc from) c (set from t) (omega arith) (omega arith)
]

-- The loop stops at its first chip when that is bad.
chips_status-first :
    (n : ℕ) (status : ℕ → ℤ) (ret : ℤ)
    → 0 < n
    → status 0 ≡ pos 1
    → chips_status n 0 status ret ≡ pos 1
unfolding chips_status
chips_status-first zero status ret l h = absurd (omega arith)
chips_status-first (suc n) status ret l h = rw (h) refl

-- Whether a block is bad by both planes: the first plane decides when it is bad.
pair_of_Bad : (t : Table) (c b : ℕ) → Bad t c b → pair_status t c b ≡ pos 1
unfolding pair_status
pair_of_Bad t c b h = rw (get_of_Bad t c b h) refl

-- One chip's marks in a loop over the chips.
mark_both : ℕ → ℕ → Table → Table
mark_both b c s = set_blcok_status (set_blcok_status s c (partner b) 1) c b 1

mark_both-keeps : (b c c' b' : ℕ) (s : Table) → Bad s c' b' → Bad (mark_both b c s) c' b'
unfolding mark_both
mark_both-keeps b c c' b' s h =
    set-keeps (set_blcok_status s c (partner b) 1) c b c' b' (set-keeps s c (partner b) c' b' h)

mark_both-hit : (b c : ℕ) (s : Table) → Bad (mark_both b c s) c b
unfolding mark_both
mark_both-hit b c s = set-hit (set_blcok_status s c (partner b) 1) c b

-- The chip of the operation has its block marked, in every mode.
mark-Bad :
    (plane chip : Bool) (t : Table) (n chipnr blk c : ℕ)
    → (if chip then c < n else (c ≡ chipnr))
    → Bad (mark_by_mode plane chip t n chipnr blk) c (if plane then plane_block blk else blk)
unfolding mark_by_mode mark_both
mark-Bad true false t n chipnr blk c h =
    let b = plane_block blk in
    set-keeps (set_blcok_status t chipnr b 1) chipnr (partner b) c b
      (subst (λ x. Bad (set_blcok_status t chipnr b 1) x b) (sym h) (set-hit t chipnr b))
mark-Bad false true t n chipnr blk c h =
    chips_set-Bad blk (λ c s. set_blcok_status s c blk 1) (λ c s. set-hit s c blk)
      (λ c c' s. set-keeps s c blk c' blk) n 0 c t (omega arith) (omega (arith, h))
mark-Bad true true t n chipnr blk c h =
    let b = plane_block blk in
    chips_set-Bad b (mark_both b) (λ c s. mark_both-hit b c s)
      (λ c c' s. mark_both-keeps b c c' b s) n 0 c t (omega arith) (omega (arith, h))
mark-Bad false false t n chipnr blk c h =
    subst (λ x. Bad (set_blcok_status t chipnr blk 1) x blk) (sym h) (set-hit t chipnr blk)

-- In each of the four modes of planes and chips, what block_isbad reads in a table that
-- block_markbad has marked, for the same block and a chip below chip_num, is NAND_BLOCK_USED_BAD.
pub status-mark :
    (plane chip : Bool) (t : Table) (n chipnr blk : ℕ)
    → chipnr < n
    → status_by_mode plane chip (mark_by_mode plane chip t n chipnr blk) n chipnr blk ≡ pos 1
unfolding status_by_mode
status-mark true false t n chipnr blk l =
    pair_of_Bad (mark_by_mode true false t n chipnr blk) chipnr (plane_block blk)
      (mark-Bad true false t n chipnr blk chipnr refl)
status-mark false true t n chipnr blk l =
    let t' = mark_by_mode false true t n chipnr blk in
    chips_status-first n (λ c. get_blcok_status t' c blk) (pos 0) (omega arith)
      (get_of_Bad t' 0 blk (mark-Bad false true t n chipnr blk 0 (omega arith)))
status-mark true true t n chipnr blk l =
    rw
      (get_of_Bad (mark_by_mode true true t n chipnr blk) chipnr (plane_block blk)
        (mark-Bad true true t n chipnr blk chipnr l))
      refl
status-mark false false t n chipnr blk l =
    get_of_Bad (mark_by_mode false false t n chipnr blk) chipnr blk
      (mark-Bad false false t n chipnr blk chipnr refl)

-- In each of the four modes, marking a block leaves the status of every other block of every chip
-- as it was: with planes, of all but the pair of blocks that the block stands for.
pub mark-other :
    (plane chip : Bool) (t : Table) (n chipnr blk c b : ℕ)
    → (if plane then ((b ≢ plane_block blk) × (b ≢ partner (plane_block blk))) else (b ≢ blk))
    → mark_by_mode plane chip t n chipnr blk c b ≡ t c b
unfolding mark_by_mode
mark-other true false t n chipnr blk c b h =
    let p = plane_block blk in
    set-other (set_blcok_status t chipnr p 1) chipnr (partner p) 1 c b h.1
    ∙ set-other t chipnr p 1 c b h.0
mark-other false true t n chipnr blk c b h =
    chips_set_keeps (λ s. s c b ≡ t c b) (λ c s. set_blcok_status s c blk 1)
      (λ c' s e. set-other s c' blk 1 c b h ∙ e) n 0 t refl
mark-other true true t n chipnr blk c b h =
    let p = plane_block blk in
    chips_set_keeps (λ s. s c b ≡ t c b)
      (λ c s. set_blcok_status (set_blcok_status s c (partner p) 1) c p 1)
      (λ c' s e.
        set-other (set_blcok_status s c' (partner p) 1) c' p 1 c b h.0
        ∙ set-other s c' (partner p) 1 c b h.1
        ∙ e)
      n 0 t refl
mark-other false false t n chipnr blk c b h = set-other t chipnr blk 1 c b h
