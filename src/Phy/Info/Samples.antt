-- ===== src/Phy/Info/Samples.antt =====
-- Test data: a flash with blocks of 16 pages of four bytes, as the log of the pages written.
use amlnf.Prelude.{
  ℕ, ◌+◌, ℕ_discrete, ◌<◌, ◌≤◌, ◌≡◌, ◌≢◌, refl, ap, true, false, List, [], ◌∷◌, arith,
}
use amlnf.Prelude.Int.{pos}
use amlnf.Guard.{Guard}
use amlnf.Phy.Info.Write.{is_hynix_1ynm}
use amlnf.Phy.Info.{
  Geometry, Store, Target, ArgOobinfo, page_target, blk_page, slc_page, pages_read, pages_per_blk,
  first_blk, arg_pages,
}
use amlnf.Phy.Info.Medium.{Medium, read_of}
use amlnf.Phy.Info.Roundtrip.{HasRoom}

-- A flash as the list of the pages that were written, the last one first
abbrev pub Log : Type 0
Log = List (Target × (List ℕ × ArgOobinfo))

pub target_discrete : Discrete Target
target_discrete = hlevel ℕ_discrete

unfoldable pub chosen {ℓ} : {A : Type ℓ} {P : Type 0} → Dec P → A → A → A
chosen (yes p) x y = x
chosen (no n) x y = y

unfoldable pub peek_log : Target → Log → List ℕ × ArgOobinfo
unfolding chosen
peek_log t [] = ([], record { name = []; timestamp = 0 })
peek_log t (w ∷ log) = chosen (target_discrete w.0 t) w.1 (peek_log t log)

pub chosen-yes {ℓ} : {A : Type ℓ} {P : Type 0} (d : Dec P) (x y : A) → P → chosen d x y ≡ x
unfolding chosen
chosen-yes (yes p) x y q = refl
chosen-yes (no n) x y q = absurd (n q)

pub chosen-no {ℓ} : {A : Type ℓ} {P : Type 0} (d : Dec P) (x y : A) → (P → ⊥) → chosen d x y ≡ y
unfolding chosen
chosen-no (yes p) x y q = absurd (q p)
chosen-no (no n) x y q = refl

abbrev pub log_store : Store Log
log_store = record {
  read_page = λ t d. (read_of (peek_log t d), d);
  write_page = λ t bytes oob d. (pos 0, (t, (bytes, oob)) ∷ d);
  erase_block = λ t d. (pos 0, d);
  block_isbad = λ t d. (pos 0, d);
  block_markbad = λ t d. (pos 0, d);
  test_block_reserved = λ blk d. (pos 0, d);
  is_ready = λ d. true;
  get_chip = λ d. d;
  release_chip = λ d. d;
  set_ran_mode = λ mode d. d;
  ran_mode = λ d. 1;
}

abbrev pub log_medium : Medium log_store
unfolding peek_log
log_medium = record {
  peek = peek_log;
  write-ok = λ t bytes oob d. refl;
  peek-write = λ t bytes oob d. chosen-yes (target_discrete t t) (bytes, oob) (peek_log t d) refl;
  peek-other = λ t u bytes oob d n. chosen-no (target_discrete t u) (bytes, oob) (peek_log u d) n;
  read-peek = λ t d. refl;
  peek-read = λ t u d. refl;
  peek-get = λ t d. refl;
  peek-release = λ t d. refl;
}

abbrev pub sample_geometry : Geometry
sample_geometry = record {
  pagesize = 4;
  blocksize = 64;
  new_type = 0;
  chip_num = 1;
  pagelist = λ page. page;
}

pub sample-apart :
    (blk p q : ℕ)
    → blk < 1000
    → p < q
    → q < pages_read sample_geometry
    → page_target sample_geometry blk p ≢ page_target sample_geometry blk q
unfolding page_target blk_page slc_page pages_per_blk pages_read first_blk
sample-apart blk p q small a b e =
    let same = ap (λ t. t.page_addr) e in absurd (omega (arith, same))

pub sample-HasRoom : (blk page : ℕ) → blk < 1000 → page ≤ 10 → HasRoom sample_geometry blk page 5
unfolding pages_read arg_pages pages_per_blk
sample-HasRoom blk page small h = record {
  paged = record { some_bytes = omega arith; is_power = refl };
  room = omega arith;
  few_blocks = omega arith;
  few_pages = omega arith;
  apart = λ p q a b. sample-apart blk p q small a b;
}

pub sample-plain : is_hynix_1ynm sample_geometry ≡ false
unfolding is_hynix_1ynm
sample-plain = refl

abbrev pub sample_meta : Guard
sample_meta = record { readonly = 0; allow_markbad = 0; allow_meta = 1; count = 0; log = [] }

-- The first page of another block is none of this block's.
pub sample-IsApart :
    (place i q : ℕ)
    → place < 100
    → i < 100
    → i ≢ place
    → q < pages_read sample_geometry
    → page_target sample_geometry (first_blk sample_geometry + place) q
      ≢ page_target sample_geometry (first_blk sample_geometry + i) 0
unfolding page_target blk_page slc_page pages_per_blk pages_read first_blk
sample-IsApart place i q a b n c e = let same = ap (λ t. t.page_addr) e in n (omega (arith, same))

pub sample-few_pages : pages_read sample_geometry ≤ 65536
unfolding pages_read pages_per_blk
sample-few_pages = omega arith
