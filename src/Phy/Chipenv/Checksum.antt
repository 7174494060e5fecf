-- ===== src/Phy/Chipenv/Checksum.antt =====
-- phy/chipenv.c: which changes of the table of bad blocks its checksum shows.
use amlnf.Prelude.{
  ℕ, zero, suc, ◌+◌, ◌*◌, ◌/◌, ◌%◌, ◌^◌, ◌≤◌, ◌<◌, ◌≡◌, ◌≢◌, refl, sym, ap, ◌∙◌, true, false, List,
  [], ◌∷◌, ◌++◌, ◌==◌, if◌then◌else◌, length, take, arith,
}
use amlnf.Prelude.Int.{pos, neg}
use amlnf.Prelude.Words.{u32}
use amlnf.Phy.Bbt.{nand_read_failed}
use amlnf.Phy.Chipenv.{
  BlockStatus, add_bytes, aml_info_checksum, bytes_of, status_checksum, check_block_status, seal,
  max_chip_num, max_blk_num,
}

-- The sum of the two bytes of an entry
abbrev pub byte_sum : ℕ → ℕ
byte_sum entry = entry % 256 + entry / 256 % 256

-- The entries that the checksum covers: half of them
abbrev pub covered : ℕ
covered = 16384

total : List ℕ → ℕ
total [] = 0
total (entry ∷ entries) = byte_sum entry + total entries

add_bytes-total :
    (c : ℕ) (entries : List ℕ)
    → c < 2 ^ 32
    → add_bytes c (bytes_of entries) ≡ u32 (c + total entries)
unfolding add_bytes bytes_of total
add_bytes-total c [] h = omega arith
add_bytes-total c (entry ∷ entries) h =
    add_bytes-total (u32 (u32 (c + entry % 256) + entry / 256 % 256)) entries (omega arith)
    ∙ (omega arith)

twice : ℕ → ℕ
twice zero = zero
twice (suc n) = suc (suc (twice n))

twice-add : (n : ℕ) → twice n ≡ n + n
unfolding twice
twice-add zero = refl
twice-add (suc n) = omega (arith, twice-add n)

take-bytes_of :
    (n : ℕ) (entries : List ℕ) → take (twice n) (bytes_of entries) ≡ bytes_of (take n entries)
unfolding twice bytes_of
take-bytes_of zero entries = refl
take-bytes_of (suc n) [] = refl
take-bytes_of (suc n) (entry ∷ entries) =
    ap (λ l. entry % 256 ∷ entry / 256 % 256 ∷ l) (take-bytes_of n entries)

info_checksum-total :
    (entries : List ℕ) (lenth n : ℕ)
    → lenth ≡ n + n
    → aml_info_checksum (bytes_of entries) lenth ≡ u32 (total (take n entries))
unfolding aml_info_checksum
info_checksum-total entries lenth n e =
    ap (λ m. add_bytes 0 (take m (bytes_of entries))) (e ∙ sym (twice-add n))
    ∙ ap (add_bytes 0) (take-bytes_of n entries)
    ∙ add_bytes-total 0 (take n entries) (omega arith)
    ∙ ap u32 (omega arith)

status_checksum-total :
    (entries : List ℕ) → status_checksum entries ≡ u32 (total (take covered entries))
unfolding status_checksum
status_checksum-total entries =
    info_checksum-total entries (max_chip_num * max_blk_num) covered (omega arith)

pub status_checksum-bound : (entries : List ℕ) → status_checksum entries < 2 ^ 32
status_checksum-bound entries = omega (arith, status_checksum-total entries)

-- What the other entries that are covered add up to
others : ℕ → List ℕ → List ℕ → ℕ
others zero before after = 0
others (suc n) [] after = total (take n after)
others (suc n) (b ∷ before) after = byte_sum b + others n before after

total-others :
    (n : ℕ) (before after : List ℕ) (x : ℕ)
    → length before < n
    → total (take n (before ++ (x ∷ after))) ≡ others n before after + byte_sum x
unfolding total others
total-others zero before after x h = absurd (omega arith)
total-others (suc n) [] after x h = omega arith
total-others (suc n) (b ∷ before) after x h =
    omega (arith, total-others n before after x (omega arith))

take-before : (n : ℕ) (before l : List ℕ) → n ≤ length before → take n (before ++ l) ≡ take n before
take-before zero before l h = refl
take-before (suc n) [] l h = absurd (omega arith)
take-before (suc n) (b ∷ before) l h = ap (λ t. b ∷ t) (take-before n before l (omega arith))

==-differ : (a b : ℕ) → a ≢ b → (a == b) ≡ false
==-differ a b h = ground arith

==-same : (a b : ℕ) → a ≡ b → (a == b) ≡ true
==-same a b h = ground arith

sums_differ : (r a b : ℕ) → a < 512 → b < 512 → a ≢ b → u32 (r + b) ≢ u32 (r + a)
sums_differ r a b la lb ne = λ e. ne (omega arith)

-- A sealed table passes the check.
pub seal-passes : (b : BlockStatus) → check_block_status (seal b) ≡ pos 0
unfolding check_block_status seal
seal-passes b = ap (λ t. if t then pos 0 else neg nand_read_failed) (==-same _ _ refl)

-- When one entry of a sealed table that the checksum covers is changed so that its bytes have
-- another sum, the check refuses the table.
pub seal-detects :
    (crc x y : ℕ) (before after : List ℕ)
    → length before < covered
    → byte_sum x ≢ byte_sum y
    → let sealed = seal (record { crc = crc; blk_status = before ++ (x ∷ after) }) in
      check_block_status (record sealed { blk_status = before ++ (y ∷ after) })
      ≡ neg nand_read_failed
unfolding check_block_status seal
seal-detects crc x y before after h ne =
    let sum : (z : ℕ)
        → status_checksum (before ++ (z ∷ after)) ≡ u32 (others covered before after + byte_sum z) =
      λ z.
        status_checksum-total (before ++ (z ∷ after))
        ∙ ap u32 (total-others covered before after z h) in
    ap (λ b. if b then pos 0 else neg nand_read_failed)
      (==-differ _ _ (λ e.
        sums_differ (others covered before after) (byte_sum x) (byte_sum y) (omega arith)
          (omega arith) ne (sym (sum y) ∙ e ∙ sum x)))

-- However one entry of a sealed table from number 16384 on, counted from 0, is changed, the check
-- accepts the table: these are the blocks of the last two of four chips.
pub seal-misses :
    (crc x y : ℕ) (before after : List ℕ)
    → covered ≤ length before
    → let sealed = seal (record { crc = crc; blk_status = before ++ (x ∷ after) }) in
      check_block_status (record sealed { blk_status = before ++ (y ∷ after) }) ≡ pos 0
unfolding check_block_status seal
seal-misses crc x y before after h =
    let sum : (z : ℕ)
        → status_checksum (before ++ (z ∷ after)) ≡ u32 (total (take covered before)) =
      λ z.
        status_checksum-total (before ++ (z ∷ after))
        ∙ ap (λ l. u32 (total l)) (take-before covered before (z ∷ after) h) in
    ap (λ b. if b then pos 0 else neg nand_read_failed) (==-same _ _ (sum y ∙ sym (sum x)))
