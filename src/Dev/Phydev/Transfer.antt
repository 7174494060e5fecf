-- ===== src/Dev/Phydev/Transfer.antt =====
-- dev/phydev.c: the loop of nand_read, nand_write and nand_erase makes just the rounds of its
-- length, and the rounds work on consecutive pages.
use amlnf.Prelude.{
  ℕ, zero, suc, ◌+◌, ◌*◌, ◌/◌, ◌^◌, ◌≤◌, ◌<◌, ◌≡◌, ◌⊎◌, inr, refl, ap, ◌∙◌, Bool, true, false,
  Option, some, arith, if◌then◌else◌,
}
use native.Mathlib.Nat.{add-mul-div_left, one-le-pow, mod-eq_of_lt}
use amlnf.Prelude.Int.{ℤ}
use amlnf.Prelude.Words.{u32}
use amlnf.Phy.Chip.{World, has, dev_slc_mode}
use amlnf.Dev.Phydev.{with_para, transfer}

abbrev pub Body : Type 0 → Type 0
Body D = ℕ → World D → Bool × ℤ × World D

-- The rounds that a transfer of `len` bytes takes from `done` bytes on: `n + 1` of `stride` bytes.
pub record IsRounds (n len stride done : ℕ) : Type 0 where
  pub needed : (n ≡ 0) ⊎ (done + n * stride < len)
  pub enough : len ≤ done + suc n * stride

-- The page of the next round.
next_page : (a k step unit : ℕ) → unit ≡ 2 ^ k * step → (a + unit) / 2 ^ k ≡ a / 2 ^ k + step
next_page a k step unit e =
    ap (λ u. (a + u) / 2 ^ k) e ∙ add-mul-div_left a step (one-le-pow k 2 (omega arith))

module _ {D : Type 0} where
  -- The rounds after one that did not break.
  round_then : Bool × ℤ × World D → (World D → ℤ × ℕ × World D) → ℤ × ℕ × World D
  round_then (true, ret, w) rest = (ret, 0, w)
  round_then (false, ret, w) rest = let (r, c, w') = rest w in (r, suc c, w')

  -- At most `n + 1` rounds, each `stride` further: what the last one returned, how many succeeded.
  unfoldable pub run_rounds : ℕ → ℕ → Body D → ℕ → World D → ℤ × ℕ × World D
  unfolding round_then
  run_rounds zero stride body addr w =
      let (stop, ret, w') = body addr w in (ret, if stop then 0 else 1, w')
  run_rounds (suc n) stride body addr w =
      round_then (body addr w) (run_rounds n stride body (addr + stride))

  round_then-cong :
      (x : Bool × ℤ × World D) (f g : World D → ℤ × ℕ × World D)
      → f x.2 ≡ g x.2
      → round_then x f ≡ round_then x g
  unfolding round_then
  round_then-cong (true, ret, w) f g h = refl
  round_then-cong (false, ret, w) f g h = ap (λ r. (r.0, suc r.1, r.2)) h

  -- A round that goes on, with the bytes counted.
  round_then_bytes :
      (x : Bool × ℤ × World D) (rest : World D → ℤ × ℕ × World D) (t : Option (ℤ × ℕ × World D))
      (done stride : ℕ)
      → t ≡ some ((rest x.2).0, done + stride + (rest x.2).1 * stride, (rest x.2).2)
      → (if x.0 then some (x.1, done, x.2) else t)
        ≡ some ((round_then x rest).0, done + (round_then x rest).1 * stride, (round_then x rest).2)
  unfolding round_then
  round_then_bytes (true, ret, w) rest t done stride h =
      let e : done ≡ done + 0 * stride = omega arith in ap (λ d. some (ret, d, w)) e
  round_then_bytes (false, ret, w) rest t done stride h =
      let e : done + stride + (rest w).1 * stride ≡ done + suc (rest w).1 * stride = omega arith in
      h ∙ ap (λ d. some ((rest w).0, d, (rest w).2)) e

  transfer_last :
      (fuel len stride : ℕ) (body : Body D) (addr done : ℕ) (w : World D)
      → len ≤ done + stride
      → done + stride < 2 ^ 64
      → transfer (suc fuel) len stride body addr done w
        ≡ some ((body addr w).1, (if (body addr w).0 then done else done + stride), (body addr w).2)
  unfolding transfer
  transfer_last fuel len stride body addr done w h b = ground arith

  transfer_more :
      (fuel len stride : ℕ) (body : Body D) (addr done : ℕ) (w : World D)
      → done + stride < len
      → len < 2 ^ 64
      → addr + stride < 2 ^ 64
      → transfer (suc fuel) len stride body addr done w ≡ (
          if (body addr w).0
          then some ((body addr w).1, done, (body addr w).2)
          else transfer fuel len stride body (addr + stride) (done + stride) (body addr w).2)
  unfolding transfer
  transfer_more fuel len stride body addr done w h b c = ground arith

  pub transfer_rounds :
      (n fuel len stride : ℕ) (body : Body D) (addr done : ℕ) (w : World D)
      → n < fuel
      → IsRounds n len stride done
      → addr + n * stride < 2 ^ 64
      → done + suc n * stride < 2 ^ 64
      → len < 2 ^ 64
      → transfer fuel len stride body addr done w
        ≡ some (
          (run_rounds n stride body addr w).0,
          done + (run_rounds n stride body addr w).1 * stride,
          (run_rounds n stride body addr w).2,
        )
  unfolding run_rounds
  transfer_rounds n zero len stride body addr done w f r a b c = absurd (omega arith)
  transfer_rounds zero (suc fuel) len stride body addr done w f r a b c =
      transfer_last fuel len stride body addr done w (omega arith) (omega arith) ∙ ground arith
  transfer_rounds (suc n) (suc fuel) len stride body addr done w f r a b c =
      transfer_more fuel len stride body addr done w (omega arith) c (omega arith)
      ∙ round_then_bytes (body addr w) (run_rounds n stride body (addr + stride)) _ done stride (
          transfer_rounds n fuel len stride body (addr + stride) (done + stride) (body addr w).2
            (omega arith) (record { needed = inr (omega arith); enough = omega arith })
            (omega arith) (omega arith) c)

  -- One round on a page: run `act` there, and go on by `after` unless it failed.
  abbrev pub on_page : (World D → ℤ × World D) → (ℤ → World D → Bool) → (World D → World D) → Body D
  on_page act failed after page w =
      let (ret, w') = act (with_para w (record (w.chip.ops_para) { page_addr = page })) in
      if failed ret w' then (true, ret, w') else (false, ret, after w')

  -- The device is not in SLC mode, as the option of `ops_para` has it.
  abbrev pub IsPlain : World D → Type 0
  IsPlain w = has w.chip.ops_para.option dev_slc_mode ≡ false

  -- Rounds at addresses `unit` apart are rounds on pages `step` apart.
  pub run_rounds-pages :
      (n shift step unit : ℕ) (body pbody : Body D) (addr : ℕ) (w : World D)
      → unit ≡ 2 ^ shift * step
      → ((a : ℕ) (v : World D) → IsPlain v → body a v ≡ pbody (u32 (a / 2 ^ shift)) v)
      → ((page : ℕ) (v : World D) → IsPlain v → IsPlain (pbody page v).2)
      → addr / 2 ^ shift + n * step < 2 ^ 32
      → IsPlain w
      → run_rounds n unit body addr w ≡ run_rounds n step pbody (addr / 2 ^ shift) w
  unfolding run_rounds
  run_rounds-pages zero shift step unit body pbody addr w e eq keep b pl =
      ground (arith, eq addr w pl)
  run_rounds-pages (suc n) shift step unit body pbody addr w e eq keep b pl =
      rw (eq addr w pl, mod-eq_of_lt here)
        (round_then-cong (pbody (addr / 2 ^ shift) w) (λ v. run_rounds n unit body (addr + unit) v)
          (λ v. run_rounds n step pbody (addr / 2 ^ shift + step) v)
          (run_rounds-pages n shift step unit body pbody (addr + unit)
              ((pbody (addr / 2 ^ shift) w).2) e eq keep
              (omega (arith, next_page addr shift step unit e)) (keep (addr / 2 ^ shift) w pl)
            ∙ ap (λ a. run_rounds n step pbody a ((pbody (addr / 2 ^ shift) w).2))
                (next_page addr shift step unit e)))
    where
      here : addr / 2 ^ shift < 2 ^ 32
      here = omega arith
