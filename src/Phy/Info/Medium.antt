-- ===== src/Phy/Info/Medium.antt =====
-- phy/chipenv.c: a flash that keeps what is written on it, as the records need it.
use amlnf.Prelude.{ℕ, ◌≡◌, ◌≢◌, Bool, true, false, List, refl, ap, ◌∙◌, if◌then◌else◌}
use amlnf.Prelude.Int.{pos}
use amlnf.Phy.Info.{Store, Target, ArgOobinfo, PageRead, on_chip}

-- What reading a page without an error leaves
abbrev pub read_of : List ℕ × ArgOobinfo → PageRead
read_of c = record { ret = pos 0; ecc_err = 0; page_buf = c.0; oob_buf = c.1 }

-- What a flash without errors promises: pages hold what was last written on them, and the other
-- operations leave every page.
pub record Medium {D : Type 0} (s : Store D) : Type 0 where
  pub peek : Target → D → List ℕ × ArgOobinfo
  pub write-ok :
      (t : Target) (bytes : List ℕ) (oob : ArgOobinfo) (d : D)
      → (s.write_page t bytes oob d).0 ≡ pos 0
  pub peek-write :
      (t : Target) (bytes : List ℕ) (oob : ArgOobinfo) (d : D)
      → peek t (s.write_page t bytes oob d).1 ≡ (bytes, oob)
  pub peek-other :
      (t t' : Target) (bytes : List ℕ) (oob : ArgOobinfo) (d : D)
      → t ≢ t'
      → peek t' (s.write_page t bytes oob d).1 ≡ peek t' d
  pub read-peek : (t : Target) (d : D) → (s.read_page t d).0 ≡ read_of (peek t d)
  pub peek-read : (t t' : Target) (d : D) → peek t' (s.read_page t d).1 ≡ peek t' d
  pub peek-get : (t : Target) (d : D) → peek t (s.get_chip d) ≡ peek t d
  pub peek-release : (t : Target) (d : D) → peek t (s.release_chip d) ≡ peek t d

module _ {D : Type 0} {s : Store D} (m : Medium s) where
  peek-if :
      (b : Bool) (f : D → D) (t : Target) (d : D)
      → ((e : D) → m.peek t (f e) ≡ m.peek t e)
      → m.peek t (if b then f d else d) ≡ m.peek t d
  peek-if true f t d h = h d
  peek-if false f t d h = refl

  -- An operation between the taking and the release of the chip
  pub on_chip-result :
      {A : Type 0} (act : D → A × D) (d : D)
      → (on_chip s act d).0 ≡ (act (if s.is_ready d then s.get_chip d else d)).0
  unfolding on_chip
  on_chip-result act d = refl

  pub peek-on_chip :
      {A : Type 0} (act : D → A × D) (t : Target) (d : D)
      → m.peek t (on_chip s act d).1 ≡ m.peek t (act (if s.is_ready d then s.get_chip d else d)).1
  unfolding on_chip
  peek-on_chip act t d =
      peek-if (s.is_ready (act (if s.is_ready d then s.get_chip d else d)).1) s.release_chip t
        (act (if s.is_ready d then s.get_chip d else d)).1 (m.peek-release t)

  pub peek-get_chip :
      (t : Target) (d : D) → m.peek t (if s.is_ready d then s.get_chip d else d) ≡ m.peek t d
  peek-get_chip t d = peek-if (s.is_ready d) s.get_chip t d (m.peek-get t)

  module _ (t : Target) (bytes : List ℕ) (oob : ArgOobinfo) (d : D) where
    pub put-result : (on_chip s (s.write_page t bytes oob) d).0 ≡ pos 0
    put-result = on_chip-result (s.write_page t bytes oob) d ∙ m.write-ok t bytes oob _

    pub peek-put : m.peek t (on_chip s (s.write_page t bytes oob) d).1 ≡ (bytes, oob)
    peek-put = peek-on_chip (s.write_page t bytes oob) t d ∙ m.peek-write t bytes oob _

    pub peek-put_other :
        (t' : Target) → t ≢ t' → m.peek t' (on_chip s (s.write_page t bytes oob) d).1 ≡ m.peek t' d
    peek-put_other t' n =
        peek-on_chip (s.write_page t bytes oob) t' d
        ∙ m.peek-other t t' bytes oob _ n
        ∙ peek-get_chip t' d

  module _ (t : Target) (d : D) where
    pub get-result : (on_chip s (s.read_page t) d).0 ≡ read_of (m.peek t d)
    get-result = on_chip-result (s.read_page t) d ∙ m.read-peek t _ ∙ ap read_of (peek-get_chip t d)

    pub peek-get_page : (t' : Target) → m.peek t' (on_chip s (s.read_page t) d).1 ≡ m.peek t' d
    peek-get_page t' = peek-on_chip (s.read_page t) t' d ∙ m.peek-read t t' _ ∙ peek-get_chip t' d
