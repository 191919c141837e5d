-- ===== src/Fs/Mount.antt =====
-- `mount_fs` of Project5/fs.c on a disk that holds a file system.
use ec440_projects.Prelude.{
  ℕ, zero, suc, ◌+◌, ◌*◌, ◌≤◌, ◌<◌, ◌≡◌, ◌⊎◌, inl, inr, refl, true, false, some, ℤ, pos, ltb, leb,
  ◌==◌, arith, Bool-cases, update, CString,
}
use ec440_projects.Run.{Run, done}
use ec440_projects.Disk.{Disk, Block, block_read, open_disk}
use ec440_projects.Fs.{Fs, SuperBlock, DirEntry, FileDescriptor}
use ec440_projects.Fs.Data.{Buffer}
use ec440_projects.Fs.Bytes.{super_bytes, get_super}
use ec440_projects.Fs.Format.{clear_fildes, mount_fs, get_fat}
use ec440_projects.Fs.Encode.{IsEntry, HoldsEntry, IsSuper, get_super-bytes}
use ec440_projects.Fs.Layout.{get_entries-Loaded}
use ec440_projects.Fs.Pages.{read_pages-ok}

-- The writes of `mount_fs` behind the end of `fildes` touch no variable of the file system.
abbrev pub IsHarmless : (ℕ → Fs → Run Fs) → Type 0
IsHarmless overrun = (i : ℕ) (s : Fs) → overrun i s ≡ done s

pub clear_fildes-ok :
    (overrun : ℕ → Fs → Run Fs) (n i : ℕ) (s : Fs)
    → IsHarmless overrun
    → (fildes : ℕ → FileDescriptor) × (clear_fildes overrun n i s
        ≡ done (record s { fildes = fildes }))
      × ((j : ℕ) → i ≤ j → j < i + n → j < 32 → (fildes j).used ≡ false)
      × ((j : ℕ) → (s.fildes j).used ≡ false → (fildes j).used ≡ false)
unfolding clear_fildes
clear_fildes-ok overrun zero i s h = (s.fildes, refl, (λ j lo hi l. absurd (omega arith)), λ j e. e)
clear_fildes-ok overrun (suc n) i s h = elim (Bool-cases (ltb i 32)) [
  | inr e ↦
      let (f, run, inside, stays) = clear_fildes-ok overrun n (i + 1) s h in
      (f, rw (e, h i s) run, (λ j lo hi l. inside j (ground arith) (omega arith) l), stays)
  | inl e ↦
      let (f, run, inside, stays) =
        clear_fildes-ok overrun n (i + 1)
          (record s { fildes = update s.fildes i (record (s.fildes i) { used = false }) }) h in
      (
        f,
        rw e run,
        (λ j lo hi l. cleared f inside stays j lo hi l (Bool-cases (i == j))),
        λ j u. stays j (kept j u (Bool-cases (i == j))),
      )
]
  where
    kept :
        (j : ℕ)
        → (s.fildes j).used ≡ false
        → (((i == j) ≡ true) ⊎ ((i == j) ≡ false))
        → (update s.fildes i (record (s.fildes i) { used = false }) j).used ≡ false
    kept j u (inl e) = rw e
    kept j u (inr e) = rw e u

    cleared :
        (f : ℕ → FileDescriptor)
        → ((j : ℕ) → i + 1 ≤ j → j < i + 1 + n → j < 32 → (f j).used ≡ false)
        → ((j : ℕ)
            → (update s.fildes i (record (s.fildes i) { used = false }) j).used ≡ false
            → (f j).used ≡ false)
        → (j : ℕ) → i ≤ j
        → j < i + suc n
        → j < 32
        → (((i == j) ≡ true) ⊎ ((i == j) ≡ false))
        → (f j).used ≡ false
    cleared f inside stays j lo hi l (inl e) = stays j (rw e)
    cleared f inside stays j lo hi l (inr e) = inside j (ground arith) (omega arith) l

-- What a disk holds: the super block, the directory, and pages of a table.
pub record HoldsFs (sb : SuperBlock) (dir : ℕ → DirEntry) (blocks : ℕ → Block) (d : Disk)
    : Type 0 where
  pub super : IsSuper sb
  pub block_0 : Block
  pub reads_0 : block_read (pos 0) d ≡ some block_0
  pub bytes_0 : (p : ℕ) → p < 20 → block_0 p ≡ super_bytes sb p
  pub block_dir : Block
  pub reads_dir : block_read (pos sb.dir_idx) d ≡ some block_dir
  pub pad : ℕ → Buffer
  pub entries : (q : ℕ) → q < 64 → IsEntry (dir q)
  pub bytes_dir : (q : ℕ) → q < 64 → HoldsEntry (pad q) block_dir (q * 32) (dir q)
  pub pages : 8 ≤ sb.fat_len
  pub reads_fat : (g : ℕ) → g < sb.fat_len → block_read (pos (sb.fat_idx + g)) d ≡ some (blocks g)

-- The state after the file system was mounted on the open disk `d`.
pub record Mounted (sb : SuperBlock) (dir : ℕ → DirEntry) (blocks : ℕ → Block) (d : Disk) (s : Fs)
    : Type 0 where
  pub mounted : s.mount ≡ true
  pub super : s.fs ≡ some sb
  pub disk : s.disk ≡ d
  pub entries : (q : ℕ) → q < 64 → s.dir q ≡ dir q
  pub bytes : Buffer
  pub old_fat : ℕ → ℤ
  pub table : s.fat ≡ get_fat bytes old_fat
  pub pages : (g r : ℕ) → g < sb.fat_len → r < 4096 → bytes (4096 * g + r) ≡ blocks g r
  pub closed : (f : ℕ) → f < 32 → (s.fildes f).used ≡ false

pages_enough : (n : ℕ) → 8 ≤ n → leb 32768 (n * 4096) ≡ true
pages_enough n h = ground arith

pub mount_fs-Mounted :
    (overrun : ℕ → Fs → Run Fs) (uninit : Buffer) (blank_super sb : SuperBlock) (name : CString)
    (dir : ℕ → DirEntry) (blocks : ℕ → Block) (d : Disk) (s : Fs)
    → IsHarmless overrun
    → open_disk (some name) s.disk ≡ (pos 0, d)
    → HoldsFs sb dir blocks d
    → (s' : Fs) × (mount_fs overrun uninit blank_super (some name) s ≡ done (pos 0, s'))
      × Mounted sb dir blocks d s'
unfolding mount_fs
mount_fs-Mounted overrun uninit blank_super sb name dir blocks d s harmless opens h =
    let get : get_super h.block_0 ≡ some sb = get_super-bytes h.block_0 sb h.super h.bytes_0 in
    let (after, run, l) =
      get_entries-Loaded h.pad dir 64 0 h.block_dir s.dir (λ q lo hi. h.entries q hi)
        (λ q lo hi. h.bytes_dir q hi) in
    let (b, run_fat, inside, before) =
      read_pages-ok sb.fat_len 0 sb.fat_idx uninit d blocks
        (λ g lo hi. h.reads_fat g (omega arith)) in
    let s₁ : Fs = record s {
      disk = d;
      fs = some sb;
      dir = after;
      fat = get_fat b s.fat;
      mount = true;
    } in
    let (fildes, clears, all, stays) = clear_fildes-ok overrun 64 0 s₁ harmless in
    let enough = pages_enough sb.fat_len h.pages in
    (
      record s₁ { fildes = fildes },
      rw (opens, h.reads_0, get, h.reads_dir, run, run_fat, enough, clears),
      record {
        mounted = refl;
        super = refl;
        disk = refl;
        entries = λ q l'. l.inside q (omega arith) l';
        bytes = b;
        old_fat = s.fat;
        table = refl;
        pages = λ g r lo hi. inside g r (omega arith) (omega arith) hi;
        closed = λ f lo. all f (omega arith) (omega arith) lo;
      },
    )
