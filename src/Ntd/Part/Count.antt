-- ===== src/Ntd/Part/Count.antt =====
-- ntd/aml_ntdpart.c: the bad blocks that allocate_partition counts.
use amlnf.Prelude.{
  ℕ, zero, suc, ◌+◌, ◌^◌, ◌<◌, ◌≤◌, ◌≡◌, ◌≢◌, refl, ap, ◌∙◌, Bool, true, false, not, none, some,
  ◌==◌, if◌then◌else◌, arith, if_false,
}
use native.Mathlib.Nat.{mod-eq_of_lt}
use amlnf.Prelude.Int.{ℤ, neg, is_zero}
use amlnf.Prelude.Words.{u32, shr}
use amlnf.Phy.Chip.{World}
use amlnf.Dev.Phydev.{Phydev}
use amlnf.Ntd.{NtdInfo}
use amlnf.Ntd.Part.{
  Methods, Allocated, part_block_isbad, count_bad, allocate_partition, new_slave, checked_flags,
  finish_allocate, do_while_rounds, enomem,
}

-- How many of the `n` blocks from `block` on are bad.
pub bad_blocks : (ℕ → Bool) → ℕ → ℕ → ℕ
bad_blocks bad zero block = 0
bad_blocks bad (suc n) block = (if bad block then 1 else 0) + bad_blocks bad n (block + 1)

==-false : (a : ℕ) → a ≢ 0 → (a == 0) ≡ false
==-false a h = ground arith

do_while_rounds-word : (n : ℕ) → 0 < n → n < 2 ^ 32 → do_while_rounds (u32 n) ≡ n
unfolding do_while_rounds
do_while_rounds-word n lo hi = ground arith

module _ {D : Type 0} (m : Methods D) where
  -- As long as `Inv` holds, the device answers for each of the first `blocks` blocks, 0 just for those
  -- that are not bad, and `Inv` holds afterwards.
  abbrev pub Answers : (Phydev → World D → Type 0) → NtdInfo → ℕ → (ℕ → Bool) → Type 0
  Answers Inv ntd blocks bad =
      (block : ℕ) (p : Phydev) (w : World D)
      → block < blocks
      → Inv p w
      → (r : ℤ × Phydev × World D) × (part_block_isbad m ntd block p w ≡ some r)
        × (is_zero r.0 ≡ not (bad block))
        × Inv r.1 r.2

  step_count :
      (b : Bool) (z : Bool) (n rest : ℕ)
      → z ≡ not b
      → (if z then n else n + 1) + rest ≡ n + ((if b then 1 else 0) + rest)
  step_count true z n rest h = rw (h) (omega arith)
  step_count false z n rest h = rw (h) (omega arith)

  count_bad-bad_blocks :
      (Inv : Phydev → World D → Type 0) (ntd : NtdInfo) (blocks : ℕ) (bad : ℕ → Bool)
      → Answers Inv ntd blocks bad
      → blocks < 2 ^ 32
      → (rounds block count : ℕ) (p : Phydev) (w : World D) → block + rounds ≤ blocks
      → Inv p w
      → (r : ℕ × Phydev × World D) × (count_bad m ntd rounds block count p w ≡ some r)
        × (r.0 ≡ count + bad_blocks bad rounds block)
  unfolding count_bad bad_blocks
  count_bad-bad_blocks Inv ntd blocks bad ans few zero block count p w h inv =
      ((count, p, w), refl, omega arith)
  count_bad-bad_blocks Inv ntd blocks bad ans few (suc rounds) block count p w h inv =
      let a = ans block p w (omega arith) inv in
      let count' = if is_zero a.0.0 then count else count + 1 in
      let rest =
        count_bad-bad_blocks Inv ntd blocks bad ans few rounds (block + 1) count' a.0.1 a.0.2
          (omega arith) a.3 in
      let next : u32 (block + 1) ≡ block + 1 = mod-eq_of_lt (omega arith) in
      (
        rest.0,
        ap
              (λ o. elim o [
                | none ↦ none
                | some r ↦
                    count_bad m ntd rounds (u32 (block + 1))
                      (if is_zero r.0 then count else count + 1) r.1 r.2
              ])
              a.1
            ∙ ap (λ b. count_bad m ntd rounds b count' a.0.1 a.0.2) next
            ∙ rest.1,
        rest.2
            ∙ step_count (bad block) (is_zero a.0.0) count (bad_blocks bad rounds (block + 1)) a.2,
      )

  -- The partition of a device of at least one block, made when there is memory
  pub allocate-counts :
      (Inv : Phydev → World D → Type 0) (addr number : ℕ) (master : Phydev) (w : World D)
      (bad : ℕ → Bool)
      → let slave = new_slave m addr number master in
        let blocks = shr slave.size slave.blocksize_shift in
        addr ≢ 0
        → 0 < blocks
        → blocks < 2 ^ 32
        → Answers Inv (record slave { flags = checked_flags m slave }) blocks bad
        → Inv master w
        → (r : Allocated × Phydev × World D) × (allocate_partition m addr number master w ≡ some r)
          × (r.0
              ≡ Allocated.made (record slave {
                flags = checked_flags m slave;
                badblocks = bad_blocks bad blocks 0;
              }))
  unfolding allocate_partition finish_allocate
  allocate-counts Inv addr number master w bad nz lo hi ans inv =
      let slave = new_slave m addr number master in
      let slave' = record slave { flags = checked_flags m slave } in
      let blocks = shr slave.size slave.blocksize_shift in
      let c =
        count_bad-bad_blocks Inv slave' blocks bad ans hi blocks 0 0 master w (omega arith) inv in
      (
        (Allocated.made (record slave' { badblocks = c.0.0 }), c.0.1, c.0.2),
        if_false (addr == 0) (some (Allocated.failed (neg enomem), master, w)) _ (==-false addr nz)
            ∙ ap (λ n. finish_allocate m slave' (count_bad m slave' n 0 0 master w))
                (do_while_rounds-word blocks lo hi)
            ∙ ap (finish_allocate m slave') c.1,
        ap (λ n. Allocated.made (record slave' { badblocks = n })) (c.2 ∙ (omega arith)),
      )
