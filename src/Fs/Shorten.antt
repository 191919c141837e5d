-- ===== src/Fs/Shorten.antt =====
-- The loops of `fs_truncate` of Project5/fs.c on a chain.
use ec440_projects.Prelude.{
  ℕ, zero, suc, ◌<◌, ◌≡◌, ◌≢◌, ◌⊎◌, inl, inr, refl, sym, ap, ◌∙◌, true, false, List, [], ◌∷◌, ℤ,
  pos, minus_one, arith, eqb_ℤ, ltb, ◌==◌, has, update, Bool-cases,
}
use ec440_projects.Run.{done, Keeps, kept, faulted, endless, Keeps-on, Keeps-access, Keeps-map}
use ec440_projects.Disk.{Disk, disk_blocks, block_write}
use ec440_projects.Fs.Data.{Buffer}
use ec440_projects.Fs.Chain.{Chain, Chain-distinct, Chain-update}
use ec440_projects.Fs.Truncate.{walk, free_rest}

-- Block `i` of a chain becomes its last: `front` is what stays, `post` what was behind it.
pub record CutAt (fat : ℕ → ℤ) (k : ℤ) (bs : List ℕ) (i : ℕ) : Type 0 where
  pub front : List ℕ
  pub post : List ℕ
  pub above : 0 < i
  pub member : has i bs ≡ true
  pub chain : Chain (update fat i minus_one) k front
  pub filled : front ≢ []
  pub front_in : (x : ℕ) → has x front ≡ true → has x bs ≡ true
  pub rest : Chain fat (fat i) post
  pub post_in : (x : ℕ) → has x post ≡ true → has x bs ≡ true
  pub apart : (x : ℕ) → has x front ≡ true → has x post ≡ false
  pub alone : has i post ≡ false

CutAt-first :
    (fat : ℕ → ℤ) (b : ℕ) (bs : List ℕ) → Chain fat (pos b) (b ∷ bs) → CutAt fat (pos b) (b ∷ bs) b
CutAt-first fat b bs p = record {
  front = b ∷ [];
  post = bs;
  above = p.1;
  member = ground arith;
  chain = let self : (b == b) ≡ true = ground arith in (refl, p.1, p.2, rw self refl);
  filled = λ e. cc;
  front_in = λ x h. ground arith;
  rest = p.3;
  post_in = λ x h. ground arith;
  apart = λ x h. let same : x ≡ b = ground arith in rw same (Chain-distinct fat (pos b) b bs p);
  alone = Chain-distinct fat (pos b) b bs p;
}

CutAt-later :
    (fat : ℕ → ℤ) (k : ℤ) (b i : ℕ) (bs : List ℕ)
    → Chain fat k (b ∷ bs)
    → CutAt fat (fat b) bs i
    → CutAt fat k (b ∷ bs) i
CutAt-later fat k b i bs p c =
    let distinct : has b bs ≡ false = Chain-distinct fat (pos b) b bs (refl, p.1, p.2, p.3) in
    let ne : (i == b) ≡ false = other distinct (Bool-cases (i == b)) in
    record {
      front = b ∷ c.front;
      post = c.post;
      above = c.above;
      member = ground (arith, c.member);
      chain = (p.0, p.1, p.2, rw ne c.chain);
      filled = λ e. cc;
      front_in = λ x h. ground (arith, c.front_in x);
      rest = c.rest;
      post_in = λ x h. ground (arith, c.post_in x h);
      apart = λ x h. first_or x h distinct (Bool-cases (x == b));
      alone = c.alone;
    }
  where
    other : has b bs ≡ false → ((i == b) ≡ true) ⊎ ((i == b) ≡ false) → (i == b) ≡ false
    other d (inr e) = e
    other d (inl e) =
        let same : i ≡ b = ground arith in
        absurd (clash (sym d ∙ ap (λ x. has x bs) (sym same) ∙ c.member))
      where
        clash : false ≡ true → ⊥
        clash e = cc

    first_or :
        (x : ℕ)
        → has x (b ∷ c.front) ≡ true
        → has b bs ≡ false
        → ((x == b) ≡ true) ⊎ ((x == b) ≡ false)
        → has x c.post ≡ false
    first_or x h d (inr e) = c.apart x (ground (arith, h))
    first_or x h d (inl e) = elim (Bool-cases (has x c.post)) [
      | inr out ↦ out
      | inl m ↦
          let same : x ≡ b = ground arith in
          absurd (clash (sym d ∙ ap (λ y. has y bs) (sym same) ∙ c.post_in x m))
    ]
      where
        clash : false ≡ true → ⊥
        clash e = cc

-- The walk ends at the end mark, or at a block of the chain.
pub walk-CutAt :
    (rounds : ℕ) (fat : ℕ → ℤ) (k : ℤ) (bs : List ℕ)
    → Chain fat k bs
    → Keeps
        (λ last. (last ≡ minus_one) ⊎ ((i : ℕ) × (last ≡ pos i) × CutAt fat k bs i))
        (walk rounds k fat)
unfolding walk
walk-CutAt zero fat k [] p = kept (inl p)
walk-CutAt zero fat k (b ∷ bs) p =
    let e = p.0 in kept (inr (b, e, rw e (CutAt-first fat b bs (refl, p.1, p.2, p.3))))
walk-CutAt (suc rounds) fat k [] p = rw p faulted
walk-CutAt (suc rounds) fat k (b ∷ bs) p =
    let e = p.0 in
    rw e (
      Keeps-access (ltb b disk_blocks) b _ λ _.
        Keeps-map
          (λ last r. elim r [
            | inl m ↦ inl m
            | inr (i, at, c) ↦ inr (i, at, CutAt-later fat (pos b) b i bs (refl, p.1, p.2, p.3) c)
          ])
          (walk-CutAt rounds fat (fat b) bs p.3))

-- The loop changes entries of its chain alone.
pub free_rest-outside :
    (fuel : ℕ) (k : ℤ) (post : List ℕ) (buf : Buffer) (fat : ℕ → ℤ) (d : Disk)
    → Chain fat k post
    → Keeps (λ r. (x : ℕ) → has x post ≡ false → r.1 x ≡ fat x) (free_rest fuel k buf fat d)
unfolding free_rest
free_rest-outside zero k post buf fat d p = endless
free_rest-outside (suc fuel) k [] buf fat d p = rw p (kept (λ x h. refl))
free_rest-outside (suc fuel) k (b ∷ post) buf fat d p =
    let e = p.0 in
    rw e (
      Keeps-on (eqb_ℤ (block_write (pos b) buf d).0 minus_one)
        (done (false, fat, (block_write (pos b) buf d).1)) _ (λ _. kept (λ x h. refl))
        λ _. Keeps-access (ltb b disk_blocks) b _ λ _.
          Keeps-map
            (λ r f x h.
              f x (ground (arith, h))
              ∙ (let ne : (b == x) ≡ false = ground (arith, h) in rw ne refl))
            (free_rest-outside fuel (fat b) post buf (update fat b (pos 0))
              (block_write (pos b) buf d).1
              (Chain-update fat (fat b) post b (pos 0)
                (Chain-distinct fat (pos b) b post (refl, p.1, p.2, p.3)) p.3)))
