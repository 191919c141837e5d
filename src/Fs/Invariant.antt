-- ===== src/Fs/Invariant.antt =====
-- The tables of Project5/fs.c fit together: names and first blocks tell files apart, the chains of
-- the files share no block, and the reference counts count the open descriptors.
use ec440_projects.Prelude.{
  ℕ, zero, suc, ◌+◌, ◌≤◌, ◌<◌, ◌≡◌, ◌≢◌, ◌⊎◌, inl, inr, refl, sym, ap, ◌∙◌, Bool, true, false, ◌&&◌,
  Option, some, List, [], ℤ, pos, minus_one, arith, eqb_ℤ, eqb_ℤ_iff, ◌==◌, has, update, Bool-cases,
  if◌then◌else◌, IsFirst, str_eq_refl, eq_of_str_eq,
}
use ec440_projects.Fs.{
  Fs, SuperBlock, DirEntry, FileDescriptor, max_f_num, max_fildes, has_name, has_head,
}
use ec440_projects.Fs.Chain.{Chain}

-- A descriptor is open on the file with first block `h`.
abbrev pub refers : FileDescriptor → ℤ → Bool
refers f h = f.used && eqb_ℤ f.file h

abbrev pub ref_of : FileDescriptor → ℤ → ℕ
ref_of f h = if refers f h then 1 else 0

-- How many of the first `n` descriptors are open on it.
unfoldable pub refs : (ℕ → FileDescriptor) → ℤ → ℕ → ℕ
refs fildes h zero = 0
refs fildes h (suc n) = ref_of (fildes n) h + refs fildes h n

refs-update_ge :
    (fildes : ℕ → FileDescriptor) (h : ℤ) (n i : ℕ) (v : FileDescriptor)
    → n ≤ i
    → refs (update fildes i v) h n ≡ refs fildes h n
unfolding refs
refs-update_ge fildes h zero i v le = refl
refs-update_ge fildes h (suc n) i v le =
    let e : (i == n) ≡ false = ground arith in
    rw e (ap (λ (m : ℕ). ref_of (fildes n) h + m) (refs-update_ge fildes h n i v (omega arith)))

pub refs-update :
    (fildes : ℕ → FileDescriptor) (h : ℤ) (n i : ℕ) (v : FileDescriptor)
    → i < n
    → refs (update fildes i v) h n + ref_of (fildes i) h ≡ refs fildes h n + ref_of v h
unfolding refs
refs-update fildes h zero i v lt = elim lt [ ]
refs-update fildes h (suc n) i v lt = elim (Bool-cases (i == n)) [
  | inl e ↦
      let same : i ≡ n = ground arith in
      rw e (
        omega
          (arith, refs-update_ge fildes h n i v (omega arith), ap (λ j. ref_of (fildes j) h) same))
  | inr e ↦ rw e (omega (arith, refs-update fildes h n i v (ground arith)))
]

pub refs-none :
    (fildes : ℕ → FileDescriptor) (h : ℤ) (n : ℕ)
    → ((i : ℕ) → i < n → refers (fildes i) h ≡ false)
    → refs fildes h n ≡ 0
unfolding refs
refs-none fildes h zero f = refl
refs-none fildes h (suc n) f =
    rw (f n (omega arith)) (omega (arith, refs-none fildes h n (λ i l. f i (omega arith))))

pub refs-some :
    (fildes : ℕ → FileDescriptor) (h : ℤ) (n f : ℕ)
    → f < n
    → refers (fildes f) h ≡ true
    → 0 < refs fildes h n
unfolding refs
refs-some fildes h zero f lt e = elim lt [ ]
refs-some fildes h (suc n) f lt e = elim (Bool-cases (f == n)) [
  | inl same ↦ let s : f ≡ n = ground arith in ground (arith, ap (λ g. refers (fildes g) h) s)
  | inr other ↦ omega (arith, refs-some fildes h n f (ground arith) e)
]

-- `chains i` lists the blocks of the file in entry `i`.
pub record FilesFit (fs : Option SuperBlock) (fat : ℕ → ℤ) (dir : ℕ → DirEntry)
    (chains : ℕ → List ℕ) : Type 0 where
  pub sb : SuperBlock
  pub mounted : fs ≡ some sb
  pub data_above : 0 < sb.data_idx
  -- An entry in use differs from every other in its name and in its first block.
  pub names :
      (i j : ℕ)
      → i < max_f_num
      → j < max_f_num
      → (dir j).used ≡ true
      → (dir i).name ≡ (dir j).name
      → i ≡ j
  pub heads :
      (i j : ℕ)
      → i < max_f_num
      → j < max_f_num
      → (dir j).used ≡ true
      → (dir i).head ≡ (dir j).head
      → i ≡ j
  -- An entry has a name while it is in use, and only then.
  pub blank : (i : ℕ) → i < max_f_num → (dir i).used ≡ false → (dir i).name ≡ []
  pub named : (i : ℕ) → i < max_f_num → (dir i).used ≡ true → (dir i).name ≢ []
  -- The block of the super block is in no chain, and its table entry stays free.
  pub super_free : fat 0 ≡ pos 0
  -- The entry of no file has the first block of a new directory or of a deleted file.
  pub idle :
      (i : ℕ)
      → i < max_f_num
      → (dir i).used ≡ false
      → ((dir i).head ≡ minus_one) ⊎ ((dir i).head ≡ pos 0)
  pub chain : (i : ℕ) → i < max_f_num → (dir i).used ≡ true → Chain fat (dir i).head (chains i)
  pub nonempty : (i : ℕ) → i < max_f_num → (dir i).used ≡ true → chains i ≢ []
  pub apart :
      (i j b : ℕ)
      → i < max_f_num
      → j < max_f_num
      → (dir i).used ≡ true
      → (dir j).used ≡ true
      → i ≢ j
      → has b (chains i) ≡ true
      → has b (chains j) ≡ false

pub record RefsFit (fildes : ℕ → FileDescriptor) (dir : ℕ → DirEntry) : Type 0 where
  -- A reference count is the number of descriptors that are open on the file.
  pub counts :
      (i : ℕ)
      → i < max_f_num
      → (dir i).used ≡ true
      → (dir i).ref_cnt ≡ pos (refs fildes (dir i).head max_fildes)
  pub targets :
      (f : ℕ)
      → f < max_fildes
      → (fildes f).used ≡ true
      → (i : ℕ) × (i < max_f_num) × ((dir i).used ≡ true) × ((dir i).head ≡ (fildes f).file)

pub record IsConsistent (s : Fs) (chains : ℕ → List ℕ) : Type 0 where
  pub files : FilesFit s.fs s.fat s.dir chains
  pub counted : RefsFit s.fildes s.dir

-- Two directories that differ in sizes and reference counts alone.
pub record SameFiles (dir dir' : ℕ → DirEntry) : Type 0 where
  pub used : (i : ℕ) → (dir' i).used ≡ (dir i).used
  pub name : (i : ℕ) → (dir' i).name ≡ (dir i).name
  pub head : (i : ℕ) → (dir' i).head ≡ (dir i).head

pub FilesFit-SameFiles :
    {fs : Option SuperBlock} {fat : ℕ → ℤ} {dir dir' : ℕ → DirEntry} {chains : ℕ → List ℕ}
    → SameFiles dir dir'
    → FilesFit fs fat dir chains
    → FilesFit fs fat dir' chains
FilesFit-SameFiles {fat} {chains} e f = record {
  sb = f.sb;
  mounted = f.mounted;
  data_above = f.data_above;
  names = λ i j a b u n. f.names i j a b (sym (e.used j) ∙ u) (sym (e.name i) ∙ n ∙ e.name j);
  heads = λ i j a b u n. f.heads i j a b (sym (e.used j) ∙ u) (sym (e.head i) ∙ n ∙ e.head j);
  blank = λ i a u. e.name i ∙ f.blank i a (sym (e.used i) ∙ u);
  named = λ i a u n. f.named i a (sym (e.used i) ∙ u) (sym (e.name i) ∙ n);
  super_free = f.super_free;
  idle = λ i a u. rw (e.head i) (f.idle i a (sym (e.used i) ∙ u));
  chain = λ i a u. rw (e.head i) (f.chain i a (sym (e.used i) ∙ u));
  nonempty = λ i a u. f.nonempty i a (sym (e.used i) ∙ u);
  apart = λ i j b x y u v. f.apart i j b x y (sym (e.used i) ∙ u) (sym (e.used j) ∙ v);
}

module _ {fs : Option SuperBlock} {fat : ℕ → ℤ} {dir : ℕ → DirEntry} {chains : ℕ → List ℕ}
    (f : FilesFit fs fat dir chains) (i : ℕ) (hi : i < max_f_num) (busy : (dir i).used ≡ true) where
  -- The search for the name of a file, and that for its first block, stop at its entry.
  pub IsFirst-name : IsFirst (has_name dir (dir i).name) max_f_num i
  IsFirst-name = record {
    inside = hi;
    hit = str_eq_refl (dir i).name;
    misses = λ j l. other j l (Bool-cases (has_name dir (dir i).name j));
  }
    where
      other :
          (j : ℕ)
          → j < i
          → (has_name dir (dir i).name j ≡ true) ⊎ (has_name dir (dir i).name j ≡ false)
          → has_name dir (dir i).name j ≡ false
      other j l (inr e) = e
      other j l (inl e) =
          absurd (omega (arith, f.names j i (omega arith) hi busy (eq_of_str_eq _ _ e)))

  pub IsFirst-head : IsFirst (has_head dir (dir i).head) max_f_num i
  IsFirst-head = record {
    inside = hi;
    hit = (eqb_ℤ_iff (dir i).head (dir i).head).1 refl;
    misses = λ j l. other j l (Bool-cases (has_head dir (dir i).head j));
  }
    where
      other :
          (j : ℕ)
          → j < i
          → (has_head dir (dir i).head j ≡ true) ⊎ (has_head dir (dir i).head j ≡ false)
          → has_head dir (dir i).head j ≡ false
      other j l (inr e) = e
      other j l (inl e) =
          absurd (omega (arith, f.heads j i (omega arith) hi busy ((eqb_ℤ_iff _ _).0 e)))
