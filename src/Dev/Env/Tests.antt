-- ===== src/Dev/Env/Tests.antt =====
-- Examples of the theorems on the environment.
use amlnf.Prelude.{
  ◌≢◌, ◌+◌, ◌*◌, ap, sym, subst, ◌∙◌, false, inr, ℕ_discrete, ℕ, ◌≡◌, refl, length-replicate, arith,
  some, List, [], ◌∷◌, replicate, take, true,
}
use mathlib.Core.Option
use amlnf.Prelude.Int.{pos}
use amlnf.Guard.{Guard}
use amlnf.Phy.Info.Samples.{
  Log, log_store, log_medium, sample_geometry, sample-HasRoom, sample-plain, sample_meta,
  target_discrete, peek_log, chosen-yes, chosen-no, sample-apart, sample-IsApart, sample-few_pages,
}
use amlnf.Guard.Parts.{strn_eq}
use amlnf.Phy.Info.{Target, ArgOobinfo, page_target, first_blk}
use amlnf.Phy.Info.Write.{page_bytes, total_size}
use amlnf.Phy.Info.Init.{Layout}
use amlnf.Dev.Env.Start.{RegisterCalls, aml_ubootenv_init}
use amlnf.Dev.Env.Started.{Registers, read_at_start, blank_chip, init-env_read}
use amlnf.Phy.Info.Restart.{IsOnly}
use amlnf.Phy.Info.Roundtrip.{Kept, both_copies, save-Kept}
use amlnf.Dev.Env.{EnvCalls, uboot_env_write, env_info_head_magic}
use amlnf.Dev.Env.Quiet.{Quiet}
use amlnf.Dev.Env.Held.{env_chip}
use amlnf.Dev.Env.Roundtrip.{read_back, write-read, write-refused}

-- The user writes 8 and 9.
abbrev sample_user : List ℕ
sample_user = 8 ∷ 9 ∷ []

abbrev sample_env_calls : EnvCalls Log
sample_env_calls = record {
  vmalloc = λ n d. (some (replicate n 170), d);
  kzalloc = λ n d. (true, d);
  get_device = λ d. d;
  release_device = λ d. d;
  copy_to_user = λ bytes d. d;
  copy_from_user = λ n d. (take n sample_user, d);
}

abbrev sample_quiet : Quiet log_medium sample_env_calls sample_user
sample_quiet = record {
  memory = λ n d. replicate n 170;
  vmalloc-some = λ n d. refl;
  length-memory = λ n d. length-replicate n 170;
  peek-vmalloc = λ n d t. refl;
  peek-get = λ d t. refl;
  peek-release = λ d t. refl;
  copy-arrives = λ n d. refl;
  peek-copy = λ n d t. refl;
}

-- The environment of five bytes, saved on block 3
abbrev sample_env : List ℕ
sample_env = 1 ∷ 2 ∷ 3 ∷ 4 ∷ 5 ∷ []

abbrev saved_log : Log
saved_log =
    both_copies log_medium sample_geometry sample-plain 3 0 7 5 sample_env env_info_head_magic []

write-read_example :
    Option.map
      (read_back log_medium sample_geometry sample-plain sample_meta sample_env_calls sample_user
        sample_quiet 5
        (0 ∷ 0 ∷ 0 ∷ 0 ∷ 0 ∷ []))
      (uboot_env_write log_store sample_geometry sample_env_calls 5 100 2 1 (
        env_chip log_medium sample_geometry sample-plain sample_meta sample_env_calls sample_user
          sample_quiet 5 3 4 0 9 [] saved_log))
    ≡ some ((pos 2, 3), (pos 0, 1 ∷ 8 ∷ 9 ∷ 4 ∷ 5 ∷ []))
unfolding amlnf.Phy.Info.arg_pages
write-read_example =
    write-read log_medium sample_geometry sample-plain sample_meta sample_env_calls sample_user
      sample_quiet 5 3 4 0 9 2 1 [] sample_env saved_log
      (sample-HasRoom 3 4 (omega arith) (omega arith)) (omega arith)
      (save-Kept log_medium sample_geometry sample-plain 3 0 7 5 sample_env env_info_head_magic []
        (sample-HasRoom 3 0 (omega arith) (omega arith)))
      (omega arith) (omega arith) (omega arith) refl 100 (0 ∷ 0 ∷ 0 ∷ 0 ∷ 0 ∷ [])

abbrev refusing : Guard
refusing = record { readonly = 0; allow_markbad = 0; allow_meta = 0; count = 0; log = [] }

write-refused_example :
    Option.map
      (read_back log_medium sample_geometry sample-plain refusing sample_env_calls sample_user
        sample_quiet 5
        (0 ∷ 0 ∷ 0 ∷ 0 ∷ 0 ∷ []))
      (uboot_env_write log_store sample_geometry sample_env_calls 5 100 2 1 (
        env_chip log_medium sample_geometry sample-plain refusing sample_env_calls sample_user
          sample_quiet 5 3 4 0 9 [] saved_log))
    ≡ some ((pos 2, 1), (pos 0, sample_env))
unfolding amlnf.Phy.Info.arg_pages
write-refused_example =
    write-refused log_medium sample_geometry sample-plain refusing sample_env_calls sample_user
      sample_quiet 5 3 4 0 9 2 1 [] sample_env saved_log
      (sample-HasRoom 3 4 (omega arith) (omega arith)) (omega arith)
      (save-Kept log_medium sample_geometry sample-plain 3 0 7 5 sample_env env_info_head_magic []
        (sample-HasRoom 3 0 (omega arith) (omega arith)))
      (omega arith) (omega arith) (omega arith) refl 100 (0 ∷ 0 ∷ 0 ∷ 0 ∷ 0 ∷ [])

-- Block 66 holds the environment on its first two pages.
abbrev held_oob : ArgOobinfo
held_oob = record { name = env_info_head_magic; timestamp = 7 }

abbrev held_log : Log
held_log =
    (page_target sample_geometry 66 1, (5 ∷ 0 ∷ 0 ∷ 0 ∷ [], held_oob))
    ∷ (page_target sample_geometry 66 0, (1 ∷ 2 ∷ 3 ∷ 4 ∷ [], held_oob))
    ∷ []

-- Any other page is as it was.
held_other :
    (t : Target)
    → page_target sample_geometry 66 0 ≢ t
    → page_target sample_geometry 66 1 ≢ t
    → strn_eq 4 (peek_log t held_log).1.name env_info_head_magic ≡ false
unfolding peek_log strn_eq
held_other t n0 n1 =
    ap (λ (c : List ℕ × ArgOobinfo). strn_eq 4 c.1.name env_info_head_magic)
      (chosen-no (target_discrete (page_target sample_geometry 66 1) t) _ _ n1
        ∙ chosen-no (target_discrete (page_target sample_geometry 66 0) t) _ _ n0)

held_first : peek_log (page_target sample_geometry 66 0) held_log ≡ (1 ∷ 2 ∷ 3 ∷ 4 ∷ [], held_oob)
unfolding peek_log amlnf.Phy.Info.pages_read amlnf.Phy.Info.pages_per_blk
held_first =
    chosen-no
      (target_discrete (page_target sample_geometry 66 1) (page_target sample_geometry 66 0)) _ _
      (λ e. sample-apart 66 0 1 (omega arith) (omega arith) (omega arith) (sym e))
    ∙ chosen-yes
        (target_discrete (page_target sample_geometry 66 0) (page_target sample_geometry 66 0)) _ _
        refl

held_second : peek_log (page_target sample_geometry 66 1) held_log ≡ (5 ∷ 0 ∷ 0 ∷ 0 ∷ [], held_oob)
unfolding peek_log
held_second =
    chosen-yes
      (target_discrete (page_target sample_geometry 66 1) (page_target sample_geometry 66 1)) _ _
      refl

held-IsOnly :
    IsOnly log_medium sample_geometry sample-plain env_info_head_magic 5 40
      (λ b. false)
      (λ b d. refl)
      (λ b d t. refl)
      sample-few_pages
      2
      0
      held_log
unfolding peek_log strn_eq amlnf.Phy.Info.arg_pages amlnf.Phy.Info.first_blk
    amlnf.Phy.Info.pages_read amlnf.Phy.Info.pages_per_blk
held-IsOnly = record {
  few_blocks = omega arith;
  inside = omega arith;
  others = λ i a b. inr (
      held_other (page_target sample_geometry (first_blk sample_geometry + i) 0)
        (sample-IsApart 2 i 0 (omega arith) (omega arith) b (omega arith))
        (sample-IsApart 2 i 1 (omega arith) (omega arith) b (omega arith)));
  good = refl;
  copies = λ i a.
      let e : 0 ≡ i = omega arith in
      subst
        (λ j.
          strn_eq 4 (peek_log (page_target sample_geometry 66 (j * 2)) held_log).1.name
            env_info_head_magic
          ≡ true)
        e (ap (λ c. strn_eq 4 c.1.name env_info_head_magic) held_first);
  ends =
      held_other (page_target sample_geometry 66 2)
        (sample-apart 66 0 2 (omega arith) (omega arith) (omega arith))
        (sample-apart 66 1 2 (omega arith) (omega arith) (omega arith));
  room = omega arith;
}

-- The page of the environment with this number
abbrev HoldsPage : ℕ → Type 0
HoldsPage i =
    peek_log (page_target sample_geometry 66 (0 + i)) held_log
    ≡ (page_bytes sample_geometry (total_size sample_geometry 5) (i * 4) sample_env, held_oob)

held-Kept :
    Kept log_medium sample_geometry sample-plain 66 0 5 sample_env env_info_head_magic 7 held_log
unfolding peek_log
held-Kept i a = elim (ℕ_discrete i 0) [
  | yes e ↦ subst HoldsPage (sym e) held_first
  | no n ↦ let e : 1 ≡ i = omega arith in subst HoldsPage e held_second
]

-- A registration that goes through
abbrev sample_register : RegisterCalls Log
sample_register = record {
  aml_nand_malloc = λ n d. (true, d);
  alloc_chrdev_region = λ d. (pos 0, d);
  cdev_add = λ d. (pos 0, d);
  class_create = λ d. (true, d);
  device_create = λ d. (true, d);
  class_destroy = λ d. d;
  cdev_del = λ d. d;
  unregister_chrdev_region = λ d. d;
}

abbrev sample_registers : Registers log_medium sample_register
sample_registers = record {
  has_memory = λ n d. refl;
  has_region = λ d. refl;
  has_cdev = λ d. refl;
  has_class = λ d. refl;
  has_device = λ d. refl;
  peek-malloc = λ n d t. refl;
  peek-region = λ d t. refl;
  peek-cdev = λ d t. refl;
  peek-class = λ d t. refl;
  peek-device = λ d t. refl;
}

abbrev sample_layout : Layout
sample_layout = record { para_at = 4; para_size = 64 }

init-env_read_example :
    Option.map
      (read_at_start log_medium sample_geometry sample-plain sample_layout sample_register
        sample_registers sample_meta sample_env_calls sample_user sample_quiet 5 40
        (λ b. false)
        (λ b d. refl)
        (λ b d t. refl)
        sample-few_pages
        (0 ∷ 0 ∷ 0 ∷ 0 ∷ 0 ∷ 0 ∷ []))
      (aml_ubootenv_init log_store sample_geometry sample_layout sample_register 5 41 (
        blank_chip log_medium sample_geometry sample-plain sample_layout sample_register
          sample_registers sample_meta sample_env_calls sample_user sample_quiet 5 40
          (λ b. false)
          (λ b d. refl)
          (λ b d t. refl)
          sample-few_pages
          0
          0
          0
          0
          (64 ∷ 255 ∷ [])
          held_log))
    ≡ some (pos 0, (pos 0, 1 ∷ 2 ∷ 3 ∷ 4 ∷ 5 ∷ 0 ∷ []))
unfolding amlnf.Phy.Info.arg_pages amlnf.Phy.Info.first_blk
init-env_read_example =
    init-env_read log_medium sample_geometry sample-plain sample_layout sample_register
      sample_registers sample_meta sample_env_calls sample_user sample_quiet 5 40 (λ b. false)
      (λ b d. refl) (λ b d t. refl) sample-few_pages 2 0 0 0 0 0 7 (64 ∷ 255 ∷ []) sample_env
      (0 ∷ 0 ∷ 0 ∷ 0 ∷ 0 ∷ 0 ∷ []) held_log held-IsOnly (omega arith) (omega arith)
      (record { some_bytes = omega arith; is_power = refl }) (omega arith) held-Kept
