-- ===== src/Fs/Making.antt =====
-- The disk that `make_fs` of Project5/fs.c fills.
use ec440_projects.Prelude.{
  ℕ, ◌+◌, ◌-◌, ◌<◌, ◌≡◌, inl, refl, ap, ◌∙◌, Bool, true, false, some, [], ℤ, pos, ltb, leb, arith,
  CString, memcpy, str_eq_refl,
}
use ec440_projects.Disk.{
  Disk, Block, zero_block, update_file, block_write, make_disk, open_disk, close_disk,
}
use ec440_projects.Disk.Io.{block_read-block_write}
use ec440_projects.Fs.{Fs}
use ec440_projects.Fs.Data.{Buffer, slice}
use ec440_projects.Fs.Bytes.{super_bytes}
use ec440_projects.Fs.Format.{
  new_super, blank_dir, after, after_pages, put_entries, put_pages, write_pages,
}
use ec440_projects.Fs.Encode.{IsEntry, IsSuper}
use ec440_projects.Fs.Layout.{put_entries-HoldsEntry, memcpy-inside}
use ec440_projects.Fs.Pages.{IsUsable, block_write-IsUsable, write_pages-ok}
use ec440_projects.Fs.Mount.{HoldsFs}
use ec440_projects.Fs.Invariant.{FilesFit}

-- The host can make the disk `name`, and no disk is open.
pub record CanMake (name : CString) (d : Disk) : Type 0 where
  pub shut : d.active ≡ false
  pub openable : d.os.open_fails name ≡ false
  pub seeks : (b : ℕ) → d.os.seek_fails b ≡ false
  pub reads : (b : ℕ) → d.os.read_fails b ≡ false
  pub writes : (b : ℕ) → d.os.write_fails b ≡ false

pub make_open :
    (name : CString) (d : Disk)
    → CanMake name d
    → (d' : Disk) × ((make_disk (some name) d).0 ≡ pos 0)
      × (open_disk (some name) (make_disk (some name) d).1 ≡ (pos 0, d'))
      × IsUsable name d'
unfolding make_disk open_disk
make_open name d c = (
  record d { files = update_file d.files name (λ b. zero_block); handle = name; active = true },
  ground (arith, c.openable),
  ground (arith, c.openable, c.shut, str_eq_refl name),
  record {
    ready = record { opened = refl; seeks = c.seeks; reads = c.reads; writes = c.writes };
    handle = refl;
    openable = c.openable;
    exists = let e = str_eq_refl name in rw e;
  },
)

pub blank-IsEntry : IsEntry blank_dir
blank-IsEntry = record {
  name = record { short = omega arith; bytes = λ i c h. cc };
  size = omega arith;
  head = omega arith;
  ref_cnt = omega arith;
}

pub new_super-IsSuper : IsSuper new_super
new_super-IsSuper = record {
  fat_idx = omega arith;
  fat_len = omega arith;
  dir_idx = omega arith;
  dir_len = omega arith;
  data_idx = omega arith;
}

module _ (uninit pad : Buffer) (name : CString) (d : Disk) (u : IsUsable name d) where
  abbrev pub block_0 : Block
  block_0 = memcpy uninit 0 (super_bytes new_super) 0 20

  abbrev pub dir_block : Block
  dir_block = put_entries (λ i. pad) (λ i. blank_dir) 64 0 zero_block

  abbrev pub with_super : Disk
  with_super = (block_write (pos 0) block_0 d).1

  abbrev pub with_dir : Disk
  with_dir = (block_write (pos 1) dir_block with_super).1

  with_super-IsUsable : IsUsable name with_super
  with_super-IsUsable = block_write-IsUsable name d 0 block_0 u (omega arith)

  abbrev pub fat_pages : Buffer
  fat_pages = put_pages (λ i. pos 0) 8 0 uninit

  -- The disk that `make_fs` closes.
  pub record Made (d' : Disk) : Type 0 where
    pub usable : IsUsable name d'
    pub holds : HoldsFs new_super (λ i. blank_dir) (slice fat_pages) d'

  pub fill :
      (d' : Disk) × ((block_write (pos 0) block_0 d).0 ≡ pos 0)
      × ((block_write (pos 1) dir_block with_super).0 ≡ pos 0)
      × (write_pages 8 0 2 fat_pages with_dir ≡ (true, d'))
      × Made d'
  fill =
      let u₂ = block_write-IsUsable name with_super 1 dir_block with_super-IsUsable (omega arith) in
      let (d', run, u', reads) = write_pages-ok name 8 0 2 fat_pages with_dir u₂ (omega arith) in
      (
        d',
        (block_read-block_write d 0 0 block_0 u.ready (omega arith) (omega arith)).0,
        (block_read-block_write with_super 1 1 dir_block with_super-IsUsable.ready (omega arith)
            (omega arith)).0,
        run,
        record {
          usable = u';
          holds = record {
            super = new_super-IsSuper;
            block_0 = block_0;
            reads_0 =
                reads 0 (omega arith)
                ∙ (block_read-block_write with_super 1 0 dir_block with_super-IsUsable.ready
                    (omega arith) (omega arith)).1
                ∙ (block_read-block_write d 0 0 block_0 u.ready (omega arith) (omega arith)).1;
            bytes_0 = λ p l.
                let z : p ≡ 0 + p = omega arith in
                ap block_0 z ∙ memcpy-inside uninit (super_bytes new_super) 0 20 p l;
            block_dir = dir_block;
            reads_dir =
                reads 1 (omega arith)
                ∙ (block_read-block_write with_super 1 1 dir_block with_super-IsUsable.ready
                    (omega arith) (omega arith)).1;
            pad = λ i. pad;
            entries = λ q l. blank-IsEntry;
            bytes_dir = λ q l.
                put_entries-HoldsEntry (λ i. pad) (λ i. blank_dir) 64 0 q zero_block (omega arith)
                  (omega arith);
            pages = omega arith;
            reads_fat = λ g l.
                let a : leb 2 (2 + g) ≡ true = ground arith in
                let b : ltb (2 + g) 10 ≡ true = ground arith in
                let z : 2 + g - 2 ≡ g = omega arith in reads (2 + g) (omega arith) ∙ rw (a, b, z);
          };
        },
      )

pub FilesFit-blank :
    (s : Fs)
    → s.fs ≡ some new_super
    → s.fat 0 ≡ pos 0
    → ((q : ℕ) → q < 64 → s.dir q ≡ blank_dir)
    → FilesFit s.fs s.fat s.dir (λ i. [])
FilesFit-blank s super free dir = record {
  sb = new_super;
  mounted = super;
  data_above = omega arith;
  names = λ i j a b u n. let e : (s.dir j).used ≡ false = ap (λ x. x.used) (dir j b) in cc;
  heads = λ i j a b u n. let e : (s.dir j).used ≡ false = ap (λ x. x.used) (dir j b) in cc;
  blank = λ i a u. ap (λ x. x.name) (dir i a);
  named = λ i a u. let e : (s.dir i).used ≡ false = ap (λ x. x.used) (dir i a) in cc;
  super_free = free;
  idle = λ i a u. inl (ap (λ x. x.head) (dir i a));
  chain = λ i a u. let e : (s.dir i).used ≡ false = ap (λ x. x.used) (dir i a) in cc;
  nonempty = λ i a u. let e : (s.dir i).used ≡ false = ap (λ x. x.used) (dir i a) in cc;
  apart = λ i j b x y u. let e : (s.dir i).used ≡ false = ap (λ x. x.used) (dir i x) in cc;
}

pub close_disk-active :
    (name : CString) (d : Disk) → IsUsable name d → (close_disk d).1.active ≡ false
unfolding close_disk
close_disk-active name d u = ground (arith, u.ready.opened)

pub after-ok : (p : ℤ × Disk) (next : Disk → ℤ × Disk) → p.0 ≡ pos 0 → after p next ≡ next p.1
after-ok (r, d) next e = rw e refl

pub after_pages-ok :
    (p : Bool × Disk) (d : Disk) (next : Disk → ℤ × Disk)
    → p ≡ (true, d)
    → after_pages p next ≡ next d
after_pages-ok p d next e = rw e refl

-- The calls of `make_fs` in their order, where none fails.
pub after-all :
    (make : ℤ × Disk) (opens w₀ w₁ : Disk → ℤ × Disk) (pages : Disk → Bool × Disk)
    (close : Disk → ℤ × Disk) (d d' : Disk)
    → make.0 ≡ pos 0
    → opens make.1 ≡ (pos 0, d)
    → (w₀ d).0 ≡ pos 0
    → (w₁ (w₀ d).1).0 ≡ pos 0
    → pages (w₁ (w₀ d).1).1 ≡ (true, d')
    → (close d').0 ≡ pos 0
    → (after make λ d. after (opens d) λ d.
        after
          (w₀ d)
          λ d. after (w₁ d) λ d. after_pages (pages d) λ d. after (close d) λ d. (pos 0, d))
      ≡ (pos 0, (close d').1)
after-all make opens w₀ w₁ pages close d d' a b c e f g =
    after-ok make
      (λ d. after (opens d) λ d.
        after (w₀ d)
          λ d. after (w₁ d) λ d. after_pages (pages d) λ d. after (close d) λ d. (pos 0, d))
      a
    ∙ ap
        (λ p. after p λ d.
          after (w₀ d)
            λ d. after (w₁ d) λ d. after_pages (pages d) λ d. after (close d) λ d. (pos 0, d))
        b
    ∙ after-ok (w₀ d)
        (λ d. after (w₁ d) λ d. after_pages (pages d) λ d. after (close d) λ d. (pos 0, d)) c
    ∙ after-ok (w₁ (w₀ d).1) (λ d. after_pages (pages d) λ d. after (close d) λ d. (pos 0, d)) e
    ∙ after_pages-ok (pages (w₁ (w₀ d).1).1) d' (λ d. after (close d) λ d. (pos 0, d)) f
    ∙ after-ok (close d') (λ d. (pos 0, d)) g
