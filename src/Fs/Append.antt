-- ===== src/Fs/Append.antt =====
-- A block appended to a file of Project5/fs.c.
use ec440_projects.Prelude.{
  ℕ, ◌<◌, ◌≡◌, ◌≢◌, ◌⊎◌, inl, inr, refl, sym, ap, subst, ◌∙◌, Bool, true, false, Option, List, [],
  ◌∷◌, ℤ, pos, minus_one, arith, ◌==◌, has, update, Bool-cases, if◌then◌else◌,
}
use ec440_projects.Disk.{disk_blocks}
use ec440_projects.Fs.{SuperBlock, DirEntry, max_f_num}
use ec440_projects.Fs.Chain.{Chain, Chain-free, Chain-update}
use ec440_projects.Fs.Create.{IsNextFree}
use ec440_projects.Fs.Invariant.{FilesFit}

abbrev snoc : List ℕ → ℕ → List ℕ
snoc [] j = j ∷ []
snoc (b ∷ bs) j = b ∷ snoc bs j

-- The table once free block `j` was put behind block `b`, the last of its chain.
abbrev pub appended : (ℕ → ℤ) → ℕ → ℕ → ℕ → ℤ
appended fat b j = update (update fat b (pos j)) j minus_one

has-snoc : (x : ℕ) (bs : List ℕ) (j : ℕ) → has x (snoc bs j) ≡ (if has x bs then true else (x == j))
has-snoc x [] j = ground arith
has-snoc x (b ∷ bs) j = ground (arith, has-snoc x bs j)

snoc-ne : (bs : List ℕ) (j : ℕ) → snoc bs j ≢ []
snoc-ne [] j e = cc
snoc-ne (b ∷ bs) j e = cc

Chain-append :
    (fat : ℕ → ℤ) (k : ℤ) (bs : List ℕ) (b j : ℕ)
    → Chain fat k bs
    → has b bs ≡ true
    → fat b ≡ minus_one
    → 0 < j
    → j < disk_blocks
    → has j bs ≡ false
    → Chain (appended fat b j) k (snoc bs j)
Chain-append fat k [] b j p m last lo hi out = cc
Chain-append fat k (x ∷ bs) b j p m last lo hi out = (
  p.0,
  p.1,
  p.2,
  rest bs p.3 refl (Bool-cases (b == x))
      (λ m' out'. Chain-append fat (fat x) bs b j p.3 m' last lo hi out'),
)
  where
    rest :
        (cs : List ℕ)
        → Chain fat (fat x) cs
        → cs ≡ bs
        → ((b == x) ≡ true) ⊎ ((b == x) ≡ false)
        → (has b bs ≡ true → has j bs ≡ false → Chain (appended fat b j) (fat x) (snoc bs j))
        → Chain (appended fat b j) (appended fat b j x) (snoc bs j)
    rest cs q e (inr ne) later =
        let e' : appended fat b j x ≡ fat x = ground (arith, out) in
        rw e' (later (ground arith) (ground arith))
    rest (c ∷ cs) q e (inl same) later =
        let s : b ≡ x = ground arith in ground (arith, q.0, ap fat s)
    rest [] q e (inl same) later =
        let s : b ≡ x = ground arith in
        let e' : appended fat b j x ≡ pos j = ground (arith, out) in
        let e'' : appended fat b j j ≡ minus_one = ground arith in rw (sym e) (e', lo, hi, e'')

module _ {fs : Option SuperBlock} {fat : ℕ → ℤ} {dir : ℕ → DirEntry} {chains : ℕ → List ℕ}
    (c : FilesFit fs fat dir chains) (i b j : ℕ) (hi : i < max_f_num) (busy : (dir i).used ≡ true)
    (here : has b (chains i) ≡ true) (last : fat b ≡ minus_one)
    (free : IsNextFree c.sb.data_idx fat j) where
  pub chains' : ℕ → List ℕ
  chains' = update chains i (snoc (chains i) j)

  j_pos : 0 < j
  j_pos = omega (arith, c.data_above, free.from)

  fresh : (q : ℕ) → q < max_f_num → (dir q).used ≡ true → has j (chains q) ≡ false
  fresh q hq u = Chain-free fat (dir q).head (chains q) j (c.chain q hq u) free.free

  pub has-chains' :
      (q x : ℕ)
      → has x (chains' q) ≡ (if has x (chains q) then true else if i == q then x == j else false)
  unfolding chains'
  has-chains' q x = elim (Bool-cases (i == q)) [
    | inl e ↦
        let same : i ≡ q = ground arith in
        rw e (
          has-snoc x (chains i) j ∙ ap (λ bs. if has x bs then true else (x == j)) (ap chains same))
    | inr e ↦ rw e (rest (has x (chains q)))
  ]
    where
      rest : (h : Bool) → h ≡ (if h then true else false)
      rest true = refl
      rest false = refl

  Chain-at :
      (q : ℕ)
      → q < max_f_num
      → (dir q).used ≡ true
      → ((i == q) ≡ true) ⊎ ((i == q) ≡ false)
      → Chain (appended fat b j) (dir q).head (chains' q)
  unfolding chains'
  Chain-at q hq u (inl e) =
      let same : i ≡ q = ground arith in
      rw e (
        subst (λ y. Chain (appended fat b j) (dir y).head (snoc (chains i) j)) same
          (Chain-append fat (dir i).head (chains i) b j (c.chain i hi busy) here last j_pos
            free.inside (fresh i hi busy)))
  Chain-at q hq u (inr e) =
      let out : has b (chains q) ≡ false = c.apart i q b hi hq busy u (ground arith) here in
      rw e (
        Chain-update (update fat b (pos j)) (dir q).head (chains q) j minus_one (fresh q hq u)
          (Chain-update fat (dir q).head (chains q) b (pos j) out (c.chain q hq u)))

  nonempty_at :
      (q : ℕ)
      → q < max_f_num
      → (dir q).used ≡ true
      → ((i == q) ≡ true) ⊎ ((i == q) ≡ false)
      → chains' q ≢ []
  unfolding chains'
  nonempty_at q hq u (inl e) h = snoc-ne (chains i) j (sym (rw e refl) ∙ h)
  nonempty_at q hq u (inr e) h = c.nonempty q hq u (sym (rw e refl) ∙ h)

  apart_at :
      (p q x : ℕ)
      → p < max_f_num
      → q < max_f_num
      → (dir p).used ≡ true
      → (dir q).used ≡ true
      → p ≢ q
      → has x (chains' p) ≡ true
      → has x (chains' q) ≡ false
  apart_at p q x hp hq u v ne m =
      let m' : (if has x (chains p) then true else if i == p then x == j else false) ≡ true =
        sym (has-chains' p x) ∙ m in
      has-chains' q x
      ∙ ground (
        arith,
        m',
        c.apart p q x hp hq u v ne,
        fresh p hp u,
        fresh q hq v,
        λ (e : x ≡ j). ap (λ y. has y (chains p)) e,
        λ (e : x ≡ j). ap (λ y. has y (chains q)) e,
      )

  b_pos : 0 < b
  b_pos = elim (Bool-cases (b == 0)) [
    | inr e ↦ ground arith
    | inl e ↦ let z : b ≡ 0 = ground arith in ground (arith, ap fat z, c.super_free)
  ]

  pub appended-FilesFit : FilesFit fs (appended fat b j) dir chains'
  appended-FilesFit = record {
    sb = c.sb;
    mounted = c.mounted;
    data_above = c.data_above;
    names = c.names;
    heads = c.heads;
    blank = c.blank;
    named = c.named;
    super_free = ground (arith, j_pos, b_pos, c.super_free);
    idle = c.idle;
    chain = λ q hq u. Chain-at q hq u (Bool-cases (i == q));
    nonempty = λ q hq u. nonempty_at q hq u (Bool-cases (i == q));
    apart = apart_at;
  }
