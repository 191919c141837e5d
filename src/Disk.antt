-- ===== src/Disk.antt =====
-- Project5/disk.c: the virtual disk over one file of the host. The host's files are maps from names
-- to the bytes of each block, and `Os` says which of its calls fail: `open` by name, `lseek`,
-- `read` and `write` by block.
pub mod Io
mod Tests
use ec440_projects.Prelude.{
  ℕ, Bool, true, false, not, ◌||◌, [], Option, none, some, ℤ, pos, negsuc, minus_one, ltb_ℤ, update,
  CString, str_eq, if◌then◌else◌,
}

abbrev pub disk_blocks : ℕ
disk_blocks = 8192

abbrev pub block_size : ℕ
block_size = 4096

-- The bytes of a block, by offset below `block_size`.
abbrev pub Block : Type 0
Block = ℕ → ℕ

-- The file of a virtual disk, by block.
abbrev pub Image : Type 0
Image = ℕ → Block

abbrev pub zero_block : Block
zero_block i = 0

pub record Os : Type 0 where
  pub open_fails : CString → Bool
  pub seek_fails : ℕ → Bool
  pub read_fails : ℕ → Bool
  pub write_fails : ℕ → Bool

-- `active` and `handle`; the handle is the name of the file that it stands for.
pub record Disk : Type 0 where
  pub os : Os
  pub files : CString → Option Image
  pub active : Bool
  pub handle : CString

abbrev pub update_file : (CString → Option Image) → CString → Image → CString → Option Image
update_file f n v m = if str_eq n m then some v else f m

abbrev pub is_none {ℓ} : {A : Type ℓ} → Option A → Bool
is_none none = true
is_none (some a) = false

abbrev pub image_or_empty : Option Image → Image
image_or_empty none = λ b. zero_block
image_or_empty (some f) = f

-- `make_disk`: creates the file, or empties it, and fills it with zero blocks. The result of its
-- `write` calls is ignored, so the model has them succeed.
unfoldable pub make_disk : Option CString → Disk → ℤ × Disk
make_disk none d = (minus_one, d)
make_disk (some name) d =
    if d.os.open_fails name
    then (minus_one, d)
    else (pos 0, record d { files = update_file d.files name (λ b. zero_block) })

-- `open_disk`: refused while a disk is open, and where the host cannot open the file.
unfoldable pub open_disk : Option CString → Disk → ℤ × Disk
open_disk none d = (minus_one, d)
open_disk (some name) d =
    if d.active
    then (minus_one, d)
    else if d.os.open_fails name || is_none (d.files name)
    then (minus_one, d)
    else (pos 0, record d { handle = name; active = true })

unfoldable pub close_disk : Disk → ℤ × Disk
close_disk d =
    if not d.active then (minus_one, d) else (pos 0, record d { active = false; handle = [] })

-- Where the block lies in the file, or none where the call is refused before the transfer.
seek_block : ℤ → Disk → Option ℕ
seek_block (negsuc b) d = none
seek_block (pos b) d =
    if not d.active
    then none
    else if not (ltb_ℤ (pos b) (pos disk_blocks))
    then none
    else if d.os.seek_fails b
    then none
    else some b

write_at : Option ℕ → Block → Disk → ℤ × Disk
write_at none buf d = (minus_one, d)
write_at (some b) buf d = if d.os.write_fails b then (minus_one, d) else (
  pos 0,
  record d {
    files = update_file d.files d.handle (update (image_or_empty (d.files d.handle)) b buf);
  },
)

-- `block_write(block, buf)`.
unfoldable pub block_write : ℤ → Block → Disk → ℤ × Disk
unfolding seek_block write_at
block_write block buf d = write_at (seek_block block d) buf d

read_at : Option ℕ → Disk → Option Block
read_at none d = none
read_at (some b) d = if d.os.read_fails b then none else some (image_or_empty (d.files d.handle) b)

-- `block_read(block, buf)`: what `buf` receives, or none for -1.
unfoldable pub block_read : ℤ → Disk → Option Block
unfolding seek_block read_at
block_read block d = read_at (seek_block block d) d
