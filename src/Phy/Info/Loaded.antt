-- ===== src/Phy/Info/Loaded.antt =====
-- phy/chipenv.c: what amlnand_read_info_by_name makes of the pages that hold a record.
use amlnf.Prelude.{
  ℕ, zero, suc, ◌+◌, ◌-◌, ◌*◌, ◌<◌, ◌≤◌, ◌≡◌, subst, true, List, ◌++◌, refl, sym, ap, ◌∙◌, arith,
  take, drop, length, length-take, length-drop, take-append-drop,
}
use Prim.Native.Nat.{min}
use amlnf.Prelude.Int.{ℤ, pos}
use amlnf.Guard.Parts.{strn_eq}
use amlnf.Phy.Info.{Geometry, Store, Target, ArgOobinfo, page_target, on_chip}
use amlnf.Phy.Info.Bytes.{paste, paste-next, take-append, take-take, drop-replaced}
use amlnf.Phy.Info.Medium.{Medium, get-result, peek-get_page, read_of}
use amlnf.Phy.Info.Read.{load_pages}
use amlnf.Phy.Info.Write.{page_bytes, filled}

-- The bytes that the reader takes of a page are those of the record.
page_bytes-take :
    (g : Geometry) (total amount size : ℕ) (buf : List ℕ)
    → size ≤ total
    → size ≤ length buf
    → take (min g.pagesize (size - amount)) (page_bytes g total amount buf)
      ≡ take (min g.pagesize (size - amount)) (drop amount buf)
page_bytes-take g total amount size buf a b =
    let ps = g.pagesize in
    let x = take (min ps (total - amount)) (drop amount buf) in
    let n : min ps (size - amount) ≤ length x =
      omega
        (arith, length-take (min ps (total - amount)) (drop amount buf), length-drop amount buf) in
    take-append (min ps (size - amount)) x (drop (0 + length x) (filled 0 ps)) n
    ∙ take-take (min ps (size - amount)) (min ps (total - amount)) (drop amount buf) (omega arith)

module _ {D : Type 0} {s : Store D} (m : Medium s) (g : Geometry) where
  -- Reading a record leaves the pages.
  pub peek-load_pages :
      (rounds : ℕ) (name : List ℕ) (blk page amount size : ℕ) (ret : ℤ) (b : List ℕ) (d : D)
      (t : Target)
      → m.peek t (load_pages s g rounds name blk page amount size ret b d).1 ≡ m.peek t d
  unfolding load_pages
  peek-load_pages zero name blk page amount size ret b d t = refl
  peek-load_pages (suc rounds) name blk page amount size ret b d t =
      let got = get-result m (page_target g blk page) d in
      rw (load_pages, got)
        (peek-load_pages rounds name blk (page + 1) (amount + g.pagesize) size _ _
            (on_chip s (s.read_page (page_target g blk page)) d).1 t
          ∙ peek-get_page m (page_target g blk page) d t)

module _ {D : Type 0} {s : Store D} (m : Medium s) (g : Geometry) (name : List ℕ)
    (blk first total size : ℕ) (buf : List ℕ) (oob : ArgOobinfo) where
  -- The reading of a record from its page `k` on
  abbrev pub loading : ℕ → ℕ → ℤ → List ℕ → D → (ℤ × List ℕ) × D
  loading rounds k ret b d =
      load_pages s g rounds name blk (first + k) (k * g.pagesize) size ret b d

  -- The pages of the record from `k` on hold it.
  abbrev pub Held : ℕ → ℕ → D → Type 0
  Held rounds k d =
      (i : ℕ)
      → k ≤ i
      → i < k + rounds
      → m.peek (page_target g blk (first + i)) d ≡ (page_bytes g total (i * g.pagesize) buf, oob)

  -- How many bytes are loaded after `k` pages
  abbrev pub loaded : ℕ → ℕ
  loaded k = min size (k * g.pagesize)

  read_round : ℕ → D → D
  read_round k d = (on_chip s (s.read_page (page_target g blk (first + k))) d).1

  module _ (named : strn_eq 4 oob.name name ≡ true) (a : size ≤ total) (b : size ≤ length buf) where
    loading-suc :
        (rounds k : ℕ) (ret : ℤ) (c : List ℕ) (d : D)
        → Held (suc rounds) k d
        → loading (suc rounds) k ret c d
          ≡ loading rounds
              (suc k)
              (pos 0)
              (paste c
                (k * g.pagesize)
                (take (min g.pagesize (size - k * g.pagesize)) (drop (k * g.pagesize) buf)))
              (read_round k d)
    unfolding load_pages read_round
    loading-suc rounds k ret c d held =
        let got =
          get-result m (page_target g blk (first + k)) d
          ∙ ap read_of (held k (omega arith) (omega arith)) in
        let next : first + k + 1 ≡ first + suc k = omega arith in
        let more : k * g.pagesize + g.pagesize ≡ suc k * g.pagesize = omega arith in
        let bytes = page_bytes-take g total (k * g.pagesize) size buf a b in
        rw (load_pages, got, got, named, next, more, bytes) refl

    -- What a round leaves in the buffer
    paste-round :
        (k : ℕ) (c : List ℕ)
        → k * g.pagesize < size
        → take (loaded k) c ≡ take (loaded k) buf
        → paste c
            (k * g.pagesize)
            (take (min g.pagesize (size - k * g.pagesize)) (drop (k * g.pagesize) buf))
          ≡ take (loaded (suc k)) buf ++ drop (loaded (suc k)) c
    paste-round k c lt e =
        let n = min g.pagesize (size - k * g.pagesize) in
        let here : loaded k ≡ k * g.pagesize = omega arith in
        let next : k * g.pagesize + n ≡ loaded (suc k) = omega arith in
        paste-next (k * g.pagesize) n buf c (subst (λ j. take j c ≡ take j buf) here e)
          (omega arith)
        ∙ ap (λ j. take j buf ++ drop j c) next

    -- The reading of the pages that hold a record gives its bytes.
    pub loading-result :
        (rounds k : ℕ) (c : List ℕ) (d : D)
        → Held rounds k d
        → (k + rounds) * g.pagesize < size + g.pagesize
        → take (loaded k) c ≡ take (loaded k) buf
        → (loading rounds k (pos 0) c d).0
          ≡ (pos 0, take (loaded (k + rounds)) buf ++ drop (loaded (k + rounds)) c)
    unfolding load_pages read_round
    loading-result zero k c d held room e =
        let none_left : loaded k ≡ loaded (k + 0) = ap loaded (omega arith) in
        ap (λ l. (pos 0, l))
          (sym (take-append-drop (loaded k) c)
            ∙ ap (λ l. l ++ drop (loaded k) c) e
            ∙ ap (λ j. take j buf ++ drop j c) none_left)
    loading-result (suc rounds) k c d held room e =
        let l = loaded (suc k) in
        let c' = take l buf ++ drop l c in
        let kept : take l c' ≡ take l buf =
          take-append l (take l buf) (drop l c) (omega (arith, length-take l buf))
          ∙ take-take l l buf (omega arith) in
        let all : loaded (suc k + rounds) ≡ loaded (k + suc rounds) = ap loaded (omega arith) in
        ap (λ r. r.0) (loading-suc rounds k (pos 0) c d held)
        ∙ ap (λ x. (loading rounds (suc k) (pos 0) x (read_round k d)).0)
            (paste-round k c (omega arith) e)
        ∙ loading-result rounds (suc k) c' (read_round k d)
            (λ i f h.
              peek-get_page m (page_target g blk (first + k)) d (page_target g blk (first + i))
              ∙ held i (omega arith) (omega arith))
            (omega arith) kept
        ∙ ap (λ x. (pos 0, take (loaded (suc k + rounds)) buf ++ x))
            (drop-replaced (loaded (suc k + rounds)) l buf c (omega arith) (omega arith))
        ∙ ap (λ j. (pos 0, take j buf ++ drop j c)) all
