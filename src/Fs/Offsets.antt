-- ===== src/Fs/Offsets.antt =====
-- Sizes and offsets play no part in how the tables of Project5/fs.c fit together.
use ec440_projects.Prelude.{
  ℕ, zero, suc, ◌+◌, ◌<◌, ◌≡◌, refl, sym, ap, ◌∙◌, true, List, ℤ, pos, arith,
}
use ec440_projects.Disk.{Disk}
use ec440_projects.Fs.{Fs, DirEntry, FileDescriptor, max_f_num, max_fildes}
use ec440_projects.Fs.Data.{moved, resized}
use ec440_projects.Fs.Invariant.{IsConsistent, RefsFit, SameFiles, refs, refers, ref_of}

refs-same :
    (a b : ℕ → FileDescriptor) (h : ℤ) (n : ℕ)
    → ((f : ℕ) → refers (a f) h ≡ refers (b f) h)
    → refs a h n ≡ refs b h n
unfolding refs
refs-same a b h zero e = refl
refs-same a b h (suc n) e = rw (e n) (ap (λ (m : ℕ). ref_of (b n) h + m) (refs-same a b h n e))

-- Two arrays of descriptors that differ in the offsets alone.
pub record SameTargets (a b : ℕ → FileDescriptor) : Type 0 where
  pub used : (f : ℕ) → (b f).used ≡ (a f).used
  pub file : (f : ℕ) → (b f).file ≡ (a f).file

pub RefsFit-Same :
    {a b : ℕ → FileDescriptor} {dir dir' : ℕ → DirEntry}
    → SameTargets a b
    → SameFiles dir dir'
    → ((i : ℕ) → (dir' i).ref_cnt ≡ (dir i).ref_cnt)
    → RefsFit a dir
    → RefsFit b dir'
RefsFit-Same {a} {b} {dir} {dir'} t e n r = record {
  counts = λ i hi u.
      n i
      ∙ r.counts i hi (sym (e.used i) ∙ u)
      ∙ ap pos (
          sym (
            refs-same b a (dir' i).head max_fildes (λ f. rw (t.used f, t.file f) refl)
            ∙ ap (λ h. refs a h max_fildes) (e.head i)));
  targets = λ f hf u. target f (r.targets f hf (sym (t.used f) ∙ u));
}
  where
    target :
        (f : ℕ)
        → (i : ℕ) × (i < max_f_num) × ((dir i).used ≡ true) × ((dir i).head ≡ (a f).file)
        → (i : ℕ) × (i < max_f_num) × ((dir' i).used ≡ true) × ((dir' i).head ≡ (b f).file)
    target f (i, hi, u, h) = (i, hi, e.used i ∙ u, e.head i ∙ h ∙ sym (t.file f))

SameTargets-moved : (s : Fs) (f : ℕ) (offset : ℤ) → SameTargets s.fildes (moved s f offset).fildes
SameTargets-moved s f offset = record {
  used = λ g. ground (arith, λ (e : f ≡ g). ap (λ h. (s.fildes h).used) e);
  file = λ g. ground (arith, λ (e : f ≡ g). ap (λ h. (s.fildes h).file) e);
}

pub SameTargets-refl : (a : ℕ → FileDescriptor) → SameTargets a a
SameTargets-refl a = record { used = λ f. refl; file = λ f. refl }

SameFiles-refl : (dir : ℕ → DirEntry) → SameFiles dir dir
SameFiles-refl dir = record { used = λ i. refl; name = λ i. refl; head = λ i. refl }

-- Some chains fit the tables.
abbrev pub Fits : Fs → Type 0
Fits s = (chains : ℕ → List ℕ) × IsConsistent s chains

pub Fits-moved : (s : Fs) (f : ℕ) (offset : ℤ) → Fits s → Fits (moved s f offset)
Fits-moved s f offset (chains, c) = (
  chains,
  record {
    files = c.files;
    counted =
        RefsFit-Same (SameTargets-moved s f offset) (SameFiles-refl s.dir) (λ i. refl) c.counted;
  },
)

pub Fits-disk : (s : Fs) (d : Disk) → Fits s → Fits (record s { disk = d })
Fits-disk s d (chains, c) = (chains, record { files = c.files; counted = c.counted })

pub SameFiles-resized :
    (s : Fs) (i total : ℕ) (fat : ℕ → ℤ) → SameFiles s.dir (resized s i total fat).dir
SameFiles-resized s i total fat = record {
  used = λ j. ground (arith, λ (e : i ≡ j). ap (λ h. (s.dir h).used) e);
  name = λ j. ground (arith, λ (e : i ≡ j). ap (λ h. (s.dir h).name) e);
  head = λ j. ground (arith, λ (e : i ≡ j). ap (λ h. (s.dir h).head) e);
}

pub ref_cnt-resized :
    (s : Fs) (i total : ℕ) (fat : ℕ → ℤ) (j : ℕ)
    → ((resized s i total fat).dir j).ref_cnt ≡ (s.dir j).ref_cnt
ref_cnt-resized s i total fat j = ground (arith, λ (e : i ≡ j). ap (λ h. (s.dir h).ref_cnt) e)
