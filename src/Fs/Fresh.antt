-- ===== src/Fs/Fresh.antt =====
-- `make_fs` of Project5/fs.c, and the file system that `mount_fs` finds then.
use ec440_projects.Prelude.{ℕ, ◌<◌, ◌≡◌, sym, ap, subst, ◌∙◌, false, some, [], pos, arith, CString}
use ec440_projects.Run.{Run, done}
use ec440_projects.Disk.{Disk, block_read, block_write, make_disk, open_disk, close_disk}
use ec440_projects.Fs.{Fs, SuperBlock}
use ec440_projects.Fs.Data.{Buffer, slice}
use ec440_projects.Fs.Format.{new_super, blank_dir, make_fs, mount_fs, write_pages}
use ec440_projects.Fs.Layout.{get_fat-pages}
use ec440_projects.Fs.Pages.{IsUsable, open_disk-close_disk}
use ec440_projects.Fs.Mount.{IsHarmless, mount_fs-Mounted}
use ec440_projects.Fs.Remount.{IsMounted}
use ec440_projects.Fs.Invariant.{IsConsistent}
use ec440_projects.Fs.Making.{
  FilesFit-blank, fill, close_disk-active, after-all, block_0, dir_block, fat_pages, CanMake,
  make_open, new_super-IsSuper,
}

IsConsistent-fresh :
    (s : Fs)
    → s.fs ≡ some new_super
    → s.fat 0 ≡ pos 0
    → ((q : ℕ) → q < 64 → s.dir q ≡ blank_dir)
    → ((f : ℕ) → f < 32 → (s.fildes f).used ≡ false)
    → IsConsistent s (λ i. [])
IsConsistent-fresh s super free dir closed = record {
  files = FilesFit-blank s super free dir;
  counted = record {
    counts = λ i a u. let e : (s.dir i).used ≡ false = ap (λ x. x.used) (dir i a) in cc;
    targets = λ f l u. let e : (s.fildes f).used ≡ false = closed f l in cc;
  };
}

-- A file system as `make_fs` leaves it, once it is mounted.
pub record IsFresh (name : CString) (s : Fs) : Type 0 where
  pub mounted : IsMounted name new_super s
  pub entries : (q : ℕ) → q < 64 → s.dir q ≡ blank_dir
  pub table : (i : ℕ) → i < 8192 → s.fat i ≡ pos 0
  pub closed : (f : ℕ) → f < 32 → (s.fildes f).used ≡ false
  pub consistent : IsConsistent s (λ i. [])

-- On a host that can make the disk, `make_fs` returns 0 and leaves the disk closed; `mount_fs`
-- on it returns 0 where the writes behind `fildes` do no harm. The file system is mounted
-- then with an empty directory, a table of free blocks and no open descriptor, and its tables fit together.
pub make_fs-mount_fs :
    (overrun : ℕ → Fs → Run Fs) (uninit uninit' pad : Buffer) (blank_super : SuperBlock)
    (name : CString) (s : Fs)
    → IsHarmless overrun
    → CanMake name s.disk
    → (d : Disk) × (s' : Fs) × (make_fs uninit pad (some name) s.disk ≡ (pos 0, d))
      × (d.active ≡ false)
      × (mount_fs overrun uninit' blank_super (some name) (record s { disk = d })
          ≡ done (pos 0, s'))
      × IsFresh name s'
unfolding make_fs
make_fs-mount_fs overrun uninit uninit' pad blank_super name s harmless c =
    let (d₀, makes, opens, u) = make_open name s.disk c in
    let (d₁, w₀, w₁, run, made) = fill uninit pad name d₀ u in
    let life = open_disk-close_disk name d₁ made.usable in
    let d : Disk = (close_disk d₁).1 in
    let (s', mounts, md) =
      mount_fs-Mounted overrun uninit' blank_super new_super name (λ i. blank_dir)
        (slice (fat_pages uninit pad name d₀ u)) d₁ (record s { disk = d }) harmless life.1
        made.holds in
    let table : (i : ℕ) → i < 8192 → s'.fat i ≡ pos 0 = λ i l.
      ap (λ f. f i) md.table
      ∙ get_fat-pages (λ i. pos 0) md.old_fat 8 i uninit md.bytes (omega arith) l
          (λ q l. omega arith) md.pages in
    (
      d,
      s',
      after-all (make_disk (some name) s.disk) (open_disk (some name))
          (block_write (pos 0) (block_0 uninit pad name d₀ u))
          (block_write (pos 1) (dir_block uninit pad name d₀ u))
          (write_pages 8 0 2 (fat_pages uninit pad name d₀ u)) close_disk d₀ d₁ makes opens w₀ w₁
          run life.0,
      close_disk-active name d₁ made.usable,
      mounts,
      record {
        mounted = record {
          mounted = md.mounted;
          super = md.super;
          usable = subst (λ x. IsUsable name x) (sym md.disk) made.usable;
          fits = new_super-IsSuper;
          block_0 = made.holds.block_0;
          reads_0 = ap (block_read (pos 0)) md.disk ∙ made.holds.reads_0;
          bytes_0 = made.holds.bytes_0;
          dir_above = omega arith;
          fat_above = omega arith;
          fat_below = omega arith;
          dir_room = omega arith;
          fat_room = omega arith;
        };
        entries = md.entries;
        table = table;
        closed = md.closed;
        consistent = IsConsistent-fresh s' md.super (table 0 (omega arith)) md.entries md.closed;
      },
    )
