-- ===== src/Fs.antt =====
-- Project5/fs.c: the in-memory tables of a mounted file system, and what its functions share. An
-- array is a function from the index; each access checks the bound that C does not check, and
-- faults outside it. The fields of the super block are block numbers and are never negative.
pub mod Table
pub mod Chain
pub mod Invariant
pub mod Open
pub mod Reopen
pub mod Delete
pub mod Preserve
pub mod Remove
pub mod Scan
pub mod Create
pub mod Data
pub mod Content
pub mod File
pub mod Ends
pub mod Read
pub mod Rewrite
pub mod Write
pub mod RoundTrip
pub mod Truncate
pub mod Bytes
pub mod Format
pub mod Encode
pub mod Layout
pub mod Pages
pub mod Mount
pub mod Remount
pub mod Making
pub mod Fresh
pub mod Append
pub mod Extend
pub mod Offsets
pub mod Transfer
pub mod Shorten
pub mod Shortened
pub mod Sizes
pub mod History
pub mod Directory
mod Tests
mod MountTests
use ec440_projects.Prelude.{
  ℕ, ◌+◌, ◌-◌, ◌<◌, ◌≡◌, Bool, true, false, not, Option, none, some, ℤ, pos, negsuc, minus_one, ltb,
  ltb_ℤ, eqb_ℤ, ◌==◌, CString, str_eq, first, update,
}
use ec440_projects.Run.{Run, done, fault, access}
use ec440_projects.Disk.{Disk, disk_blocks}

abbrev pub max_f_name : ℕ
max_f_name = 15

abbrev pub max_f_num : ℕ
max_f_num = 64

abbrev pub max_fildes : ℕ
max_fildes = 32

abbrev pub max_f_size : ℕ
max_f_size = 16777216

pub record SuperBlock : Type 0 where
  pub fat_idx : ℕ
  pub fat_len : ℕ
  pub dir_idx : ℕ
  pub dir_len : ℕ
  pub data_idx : ℕ

pub record DirEntry : Type 0 where
  pub used : Bool
  pub name : CString
  pub size : ℤ
  pub head : ℤ
  pub ref_cnt : ℤ

pub record FileDescriptor : Type 0 where
  pub used : Bool
  pub file : ℤ
  pub offset : ℤ

-- The static variables of fs.c, with the virtual disk that it works on. `fs` is none where the
-- pointer is null.
pub record Fs : Type 0 where
  pub fs : Option SuperBlock
  pub fildes : ℕ → FileDescriptor
  pub fat : ℕ → ℤ
  pub dir : ℕ → DirEntry
  pub mount : Bool
  pub disk : Disk

-- `a[i]` for an `int` index into an array of `n`: the index, where it lies inside.
abbrev pub index : ℤ → ℕ → Run ℕ
index (negsuc i) n = fault
index (pos i) n = access (ltb i n) i

-- `while (test(a[i]) && i < n) i++` reads `a[n]` before it looks at the bound, and so faults when
-- it runs to the end; so does a loop that never looks at it.
abbrev pub before_end : ℕ → ℕ → Run ℕ
before_end n i = access (ltb i n) i

-- `fs->data_idx`.
abbrev pub data_idx_of : Option SuperBlock → Run ℕ
data_idx_of none = fault
data_idx_of (some sb) = done sb.data_idx

-- `while (... strcmp(DIR[i].name, name)) i++`
abbrev pub has_name : (ℕ → DirEntry) → CString → ℕ → Bool
has_name dir name i = str_eq (dir i).name name

-- `while (DIR[i].head != file ...) i++`
abbrev pub has_head : (ℕ → DirEntry) → ℤ → ℕ → Bool
has_head dir file i = eqb_ℤ (dir i).head file

abbrev pub is_unused : (ℕ → FileDescriptor) → ℕ → Bool
is_unused fildes i = not (fildes i).used

-- `for (i = fs->data_idx; i < DISK_BLOCKS; i++) if (FAT[i] == 0) break;`
abbrev pub is_free : (ℕ → ℤ) → ℕ → Bool
is_free fat i = eqb_ℤ (fat i) (pos 0)

abbrev pub find_free : ℕ → (ℕ → ℤ) → ℕ
find_free data_idx fat = first (is_free fat) (disk_blocks - data_idx) data_idx

abbrev pub find_name : Fs → CString → ℕ
find_name s name = first (has_name s.dir name) max_f_num 0

abbrev pub find_head : Fs → ℤ → ℕ
find_head s file = first (has_head s.dir file) max_f_num 0

abbrev pub find_unused : Fs → ℕ
find_unused s = first (is_unused s.fildes) max_fildes 0

-- A call that returns -1 and changes nothing.
abbrev pub fail : Fs → Run (ℤ × Fs)
fail s = done (minus_one, s)
