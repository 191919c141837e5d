-- ===== src/Fs/Create.antt =====
-- `fs_create` of Project5/fs.c.
use ec440_projects.Prelude.{
  ℕ, ◌-◌, ◌≤◌, ◌<◌, ◌≡◌, ◌≢◌, ◌⊎◌, inl, inr, true, false, some, ℤ, pos, minus_one, arith, ◌==◌,
  update, CString, First, first-First, First-unique, length, Bool-cases,
}
use ec440_projects.Run.{done, fault}
use ec440_projects.Disk.{disk_blocks}
use ec440_projects.Fs.{Fs, SuperBlock, max_f_num, max_f_name, has_name, is_free, find_free, fail}
use ec440_projects.Fs.Table.{fs_create, scan_dir, new_entry}
use ec440_projects.Fs.Scan.{scan_dir-last, scan_dir-taken, scan_dir-used, scan_dir-some, Scanned}

-- `name` fits an entry, no entry has it, and `u` is the last entry that is not in use.
pub record HasRoom (s : Fs) (name : CString) (u : ℕ) : Type 0 where
  pub short : length name ≤ max_f_name
  pub fresh : (j : ℕ) → j < max_f_num → has_name s.dir name j ≡ false
  pub inside : u < max_f_num
  pub idle : (s.dir u).used ≡ false
  pub busy : (j : ℕ) → u < j → j < max_f_num → (s.dir j).used ≡ true

-- `b` is the first free block that may hold data.
pub record IsNextFree (data_idx : ℕ) (fat : ℕ → ℤ) (b : ℕ) : Type 0 where
  pub from : data_idx ≤ b
  pub inside : b < disk_blocks
  pub free : fat b ≡ pos 0
  pub before : (j : ℕ) → data_idx ≤ j → j < b → is_free fat j ≡ false

find_free-IsNextFree :
    (data_idx : ℕ) (fat : ℕ → ℤ) (b : ℕ) → IsNextFree data_idx fat b → find_free data_idx fat ≡ b
find_free-IsNextFree data_idx fat b f =
    First-unique (is_free fat) data_idx disk_blocks _ b
      (first-First (is_free fat) (disk_blocks - data_idx) data_idx disk_blocks
        (omega (arith, f.from, f.inside)))
      f.from f.inside (ground (arith, f.free)) f.before

scan-HasRoom :
    (s : Fs) (name : CString) (u : ℕ)
    → HasRoom s name u
    → scan_dir s.dir name max_f_num 0 max_f_num ≡ some u
scan-HasRoom s name u r =
    scan_dir-last s.dir name max_f_num 0 max_f_num max_f_num u (omega arith) (omega arith) r.inside
      (λ j _ h. r.fresh j h) r.idle r.busy

-- Where there is room and a free block, `fs_create` returns 0: the last unused entry becomes that
-- of an empty file on the first free data block, which becomes the end of a chain, and nothing else
-- changes.
pub fs_create-HasRoom :
    (name : CString) (s : Fs) (sb : SuperBlock) (u b : ℕ)
    → s.fs ≡ some sb
    → HasRoom s name u
    → IsNextFree sb.data_idx s.fat b
    → fs_create name s
      ≡ done (
        pos 0,
        record s { fat = update s.fat b minus_one; dir = update s.dir u (new_entry name b) },
      )
unfolding fs_create
fs_create-HasRoom name s sb u b m r f =
    rw (scan-HasRoom s name u r)
      (ground (arith, r.short, r.inside, m, find_free-IsNextFree sb.data_idx s.fat b f, f.inside))

-- What `fs_create` refuses: a long name, a name that some entry has, and a full directory.
pub fs_create-refused :
    (name : CString) (s : Fs)
    → (max_f_name < length name)
      ⊎ (((k : ℕ) × (k < max_f_num) × (has_name s.dir name k ≡ true))
          ⊎ ((j : ℕ) → j < max_f_num → (has_name s.dir name j ≡ false) × ((s.dir j).used ≡ true)))
    → fs_create name s ≡ fail s
unfolding fs_create
fs_create-refused name s (inl long) = ground arith
fs_create-refused name s (inr (inl (k, h, hit))) =
    rw
      (scan_dir-taken s.dir name max_f_num 0 max_f_num max_f_num k (omega arith) (omega arith) h
        hit)
      (ground arith)
fs_create-refused name s (inr (inr full)) =
    rw
      (scan_dir-used s.dir name max_f_num 0 max_f_num max_f_num (omega arith)
        (λ j _ h. (full j h).0) (λ j _ h. (full j h).1))
      (ground arith)

find_free-full :
    (data_idx : ℕ) (fat : ℕ → ℤ)
    → data_idx ≤ disk_blocks
    → ((j : ℕ) → data_idx ≤ j → j < disk_blocks → is_free fat j ≡ false)
    → find_free data_idx fat ≡ disk_blocks
find_free-full data_idx fat d full = elim (Bool-cases (find_free data_idx fat == disk_blocks)) [
  | inl e ↦ ground arith
  | inr e ↦
      let h : find_free data_idx fat < disk_blocks = ground (arith, f.to) in
      cc (f.at (ground arith), full (find_free data_idx fat) f.from h)
]
  where
    f : First (is_free fat) data_idx disk_blocks (find_free data_idx fat)
    f = first-First (is_free fat) (disk_blocks - data_idx) data_idx disk_blocks (omega arith)

-- With room in the directory and no free data block, `fs_create` writes past the allocation table.
pub fs_create-disk_full :
    (name : CString) (s : Fs) (sb : SuperBlock) (u : ℕ)
    → s.fs ≡ some sb
    → HasRoom s name u
    → sb.data_idx ≤ disk_blocks
    → ((j : ℕ) → sb.data_idx ≤ j → j < disk_blocks → is_free s.fat j ≡ false)
    → fs_create name s ≡ fault
unfolding fs_create
fs_create-disk_full name s sb u m r d full =
    rw (scan-HasRoom s name u r)
      (ground (arith, r.short, r.inside, m, find_free-full sb.data_idx s.fat d full))

pub HasRoom-of_scan :
    (s : Fs) (name : CString) (u : ℕ)
    → length name ≤ max_f_name
    → scan_dir s.dir name max_f_num 0 max_f_num ≡ some u
    → u ≢ max_f_num
    → HasRoom s name u
HasRoom-of_scan s name u short e ne =
    room (scan_dir-some s.dir name max_f_num 0 max_f_num max_f_num u (omega arith) e)
  where
    room : Scanned s.dir name 0 max_f_num max_f_num u → HasRoom s name u
    room r = elim r.last [
      | inl (full, _) ↦ absurd (ne full)
      | inr (_, inside, idle, later) ↦ record {
        short = short;
        fresh = λ j l. r.fresh j (omega arith) l;
        inside = inside;
        idle = idle;
        busy = later;
      }
    ]
