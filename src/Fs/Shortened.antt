-- ===== src/Fs/Shortened.antt =====
-- `fs_truncate` of Project5/fs.c keeps the tables consistent.
use ec440_projects.Prelude.{
  ℕ, ◌-◌, ◌%◌, memcpy, ◌+◌, ◌<◌, ◌≡◌, ◌≢◌, ◌⊎◌, inl, inr, refl, sym, ap, subst, ◌∙◌, Bool, true,
  false, not, ◌||◌, Option, none, some, List, [], ◌∷◌, ℤ, pos, negsuc, minus_one, arith, eqb_ℤ, ltb,
  ltb_ℤ, leb, ◌==◌, has, update, Bool-cases, if◌then◌else◌,
}
use ec440_projects.Run.{◌>>=◌, Keeps, kept, faulted, Keeps-on, Keeps-access, Keeps-then}
use ec440_projects.Disk.{Disk, Block, block_size, disk_blocks, block_read, block_write}
use ec440_projects.Fs.{Fs, SuperBlock, DirEntry, max_f_num, max_fildes, find_head, fail, index}
use ec440_projects.Fs.Table.{is_invalid, free_fuel}
use ec440_projects.Fs.Data.{Buffer, moved}
use ec440_projects.Fs.Chain.{Chain, Chain-update, Chain-free}
use ec440_projects.Fs.Truncate.{fs_truncate, walk, free_rest, rounds_of, truncated, clear_tail, cut}
use ec440_projects.Fs.Invariant.{IsConsistent, FilesFit}
use ec440_projects.Fs.Offsets.{Fits, Fits-moved, Fits-disk}
use ec440_projects.Fs.Shorten.{CutAt, walk-CutAt, free_rest-outside}

Chain-agree :
    (fat fat' : ℕ → ℤ) (k : ℤ) (bs : List ℕ)
    → ((x : ℕ) → has x bs ≡ true → fat' x ≡ fat x)
    → Chain fat k bs
    → Chain fat' k bs
Chain-agree fat fat' k [] same p = p
Chain-agree fat fat' k (b ∷ bs) same p =
    let e : fat' b ≡ fat b = same b (ground arith) in
    (p.0, p.1, p.2, rw e (Chain-agree fat fat' (fat b) bs (λ x h. same x (ground arith)) p.3))

module _ {fs : Option SuperBlock} {fat : ℕ → ℤ} {dir : ℕ → DirEntry} {chains : ℕ → List ℕ}
    (c : FilesFit fs fat dir chains) (f i : ℕ) (hf : f < max_f_num) (busy : (dir f).used ≡ true)
    (w : CutAt fat (dir f).head (chains f) i) (fat' : ℕ → ℤ)
    (agree : (x : ℕ) → has x w.post ≡ false → fat' x ≡ update fat i minus_one x) where
  -- The blocks of another file are neither cut off nor the last one.
  elsewhere :
      (q x : ℕ)
      → q < max_f_num
      → (dir q).used ≡ true
      → (f == q) ≡ false
      → has x (chains q) ≡ true
      → fat' x ≡ fat x
  elsewhere q x hq u e m =
      let out : has x (chains f) ≡ false = c.apart q f x hq hf u busy (ground arith) m in
      let not_post : has x w.post ≡ false = apart_post out (Bool-cases (has x w.post)) in
      let ne : (i == x) ≡ false = not_last out (Bool-cases (i == x)) in
      agree x not_post ∙ rw ne refl
    where
      clash : false ≡ true → ⊥
      clash z = cc

      apart_post :
          has x (chains f) ≡ false
          → (has x w.post ≡ true) ⊎ (has x w.post ≡ false)
          → has x w.post ≡ false
      apart_post out (inr h) = h
      apart_post out (inl h) = absurd (clash (sym out ∙ w.post_in x h))

      not_last :
          has x (chains f) ≡ false → ((i == x) ≡ true) ⊎ ((i == x) ≡ false) → (i == x) ≡ false
      not_last out (inr h) = h
      not_last out (inl h) =
          let same : i ≡ x = ground arith in
          absurd (clash (sym out ∙ ap (λ y. has y (chains f)) (sym same) ∙ w.member))

  Chain-at :
      (q : ℕ)
      → q < max_f_num
      → (dir q).used ≡ true
      → ((f == q) ≡ true) ⊎ ((f == q) ≡ false)
      → Chain fat' (dir q).head (update chains f w.front q)
  Chain-at q hq u (inl e) =
      let same : f ≡ q = ground arith in
      rw e (
        subst (λ y. Chain fat' (dir y).head w.front) same
          (Chain-agree (update fat i minus_one) fat' (dir f).head w.front
            (λ x h. agree x (w.apart x h)) w.chain))
  Chain-at q hq u (inr e) = rw e (
      Chain-agree fat fat' (dir q).head (chains q) (λ x h. elsewhere q x hq u e h) (c.chain q hq u))

  nonempty_at :
      (q : ℕ)
      → q < max_f_num
      → (dir q).used ≡ true
      → ((f == q) ≡ true) ⊎ ((f == q) ≡ false)
      → update chains f w.front q ≢ []
  nonempty_at q hq u (inl e) h = w.filled (sym (rw e refl) ∙ h)
  nonempty_at q hq u (inr e) h = c.nonempty q hq u (sym (rw e refl) ∙ h)

  in_chain :
      (q x : ℕ)
      → ((f == q) ≡ true) ⊎ ((f == q) ≡ false)
      → has x (update chains f w.front q) ≡ true
      → has x (chains q) ≡ true
  in_chain q x (inl e) h =
      let same : f ≡ q = ground arith in
      ap (λ y. has x (chains y)) (sym same) ∙ w.front_in x (rw e at h)
  in_chain q x (inr e) h = rw e at h

  cut-FilesFit : FilesFit fs fat' dir (update chains f w.front)
  cut-FilesFit = record {
    sb = c.sb;
    mounted = c.mounted;
    data_above = c.data_above;
    names = c.names;
    heads = c.heads;
    blank = c.blank;
    named = c.named;
    super_free =
        let ne : (i == 0) ≡ false = ground (arith, w.above) in
        agree 0 (Chain-free fat (fat i) w.post 0 w.rest c.super_free) ∙ rw ne c.super_free;
    idle = c.idle;
    chain = λ q hq u. Chain-at q hq u (Bool-cases (f == q));
    nonempty = λ q hq u. nonempty_at q hq u (Bool-cases (f == q));
    apart = λ p q x hp hq u v ne m.
        not_in q x (c.apart p q x hp hq u v ne (in_chain p x (Bool-cases (f == p)) m))
          (Bool-cases (has x (update chains f w.front q)));
  }
    where
      clash : false ≡ true → ⊥
      clash z = cc

      not_in :
          (q x : ℕ)
          → has x (chains q) ≡ false
          → (has x (update chains f w.front q) ≡ true) ⊎ (has x (update chains f w.front q) ≡ false)
          → has x (update chains f w.front q) ≡ false
      not_in q x out (inr h) = h
      not_in q x out (inl h) = absurd (clash (sym out ∙ in_chain q x (Bool-cases (f == q)) h))

Fits-tables :
    (s : Fs) (fat : ℕ → ℤ) (d : Disk) (chains : ℕ → List ℕ) (c : IsConsistent s chains)
    → (chains' : ℕ → List ℕ) × FilesFit s.fs fat s.dir chains'
    → Fits (record s { fat = fat; disk = d })
Fits-tables s fat d chains c (chains', files) =
    (chains', record { files = files; counted = c.counted })

clear_tail-Fits :
    (s : Fs) (f : ℕ) (last size : ℤ) (blank : Buffer) (o : Option Block)
    → Fits s
    → Keeps (λ r. Fits r.1) (clear_tail s f last size blank o)
clear_tail-Fits s f last size blank none c = kept c
clear_tail-Fits s f last (negsuc n) blank (some buf) c = faulted
clear_tail-Fits s f last (pos n) blank (some buf) c =
    Keeps-access (leb (n + (block_size - n % block_size)) block_size) (block_size - n % block_size)
      _
      λ _.
        let w = block_write last (memcpy buf n blank 0 (block_size - n % block_size)) s.disk in
        kept (written (eqb_ℤ w.0 minus_one) w.1)
  where
    Result : ℤ × Fs → Type 0
    Result r = Fits r.1

    moved_back :
        (b : Bool) (d : Disk)
        → Fits (if b then moved (record s { disk = d }) f (pos n) else record s { disk = d })
    moved_back true d = Fits-moved (record s { disk = d }) f (pos n) (Fits-disk s d c)
    moved_back false d = Fits-disk s d c

    written :
        (b : Bool) (d : Disk)
        → Result (
            if b
            then (minus_one, record s { disk = d })
            else (pos 0, cut (record s { disk = d }) f (pos n)))
    written true d = Fits-disk s d c
    written false d = moved_back (ltb_ℤ (pos n) (s.fildes f).offset) d

truncated-Fits :
    (s : Fs) (f : ℕ) (last size : ℤ) (blank : Buffer) (r : Bool × (ℕ → ℤ) × Disk)
    → Fits (record s { fat = r.1; disk = r.2 })
    → Keeps (λ r. Fits r.1) (truncated s f last size blank r)
truncated-Fits s f last size blank (false, fat, d) c = kept c
truncated-Fits s f last size blank (true, fat, d) c =
    clear_tail-Fits (record s { fat = fat; disk = d }) f last size blank (block_read last d) c

-- Every call of `fs_truncate` that returns leaves tables that fit together: the chain of the file ends
-- at the block that the walk found, the blocks behind it are in no chain, and the other files keep theirs.
pub fs_truncate-IsConsistent :
    (uninit blank : Buffer) (fildes_i size : ℤ) (s : Fs) (chains : ℕ → List ℕ)
    → IsConsistent s chains
    → Keeps (λ r. Fits r.1) (fs_truncate uninit blank fildes_i size s)
unfolding fs_truncate
fs_truncate-IsConsistent uninit blank (negsuc f) size s chains c = faulted
fs_truncate-IsConsistent uninit blank (pos f) size s chains c =
    let file = find_head s (s.fildes f).file in
    Keeps-access (ltb f max_fildes) f _ λ _.
      Keeps-on (is_invalid s (pos f) f) (fail s) _ (λ _. kept (chains, c))
        λ _. Keeps-access (ltb file max_f_num) file _ λ (found : ltb file max_f_num ≡ true).
          Keeps-on (file == max_f_num || not (s.dir file).used) (fail s) _ (λ _. kept (chains, c))
            λ (busy : file == max_f_num || not (s.dir file).used ≡ false).
              Keeps-on (ltb_ℤ (s.dir file).size size) (fail s) _ (λ _. kept (chains, c))
                λ _.
                  let hf : file < max_f_num = ground arith in
                  let u : (s.dir file).used ≡ true = ground (arith, busy) in
                  Keeps-then (walk (rounds_of size) (s.dir file).head s.fat) _
                    (walk-CutAt (rounds_of size) s.fat (s.dir file).head (chains file)
                      (c.files.chain file hf u))
                    (walked file hf u)
  where
    walked :
        (file : ℕ)
        → file < max_f_num
        → (s.dir file).used ≡ true
        → (last : ℤ)
        → (last ≡ minus_one)
          ⊎ ((i : ℕ) × (last ≡ pos i) × CutAt s.fat (s.dir file).head (chains file) i)
        → Keeps
            (λ r. Fits r.1)
            (index last disk_blocks >>= λ i.
              free_rest free_fuel (s.fat i) uninit (update s.fat i minus_one) s.disk >>= λ r.
              truncated s f last size blank r)
    walked file hf u last (inl e) = rw e faulted
    walked file hf u last (inr (i, e, w)) = rw e (
        Keeps-access (ltb i disk_blocks) i _ λ _.
          Keeps-then (free_rest free_fuel (s.fat i) uninit (update s.fat i minus_one) s.disk) _
            (free_rest-outside free_fuel (s.fat i) w.post uninit (update s.fat i minus_one) s.disk
              (Chain-update s.fat (s.fat i) w.post i minus_one w.alone w.rest))
            λ r agree.
              truncated-Fits s f (pos i) size blank r
                (Fits-tables s r.1 r.2 chains c (_, cut-FilesFit c.files file i hf u w r.1 agree)))
