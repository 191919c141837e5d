-- ===== src/Disk/Io.antt =====
-- Block input and output of Project5/disk.c, and the life of a virtual disk.
use ec440_projects.Prelude.{
  ℕ, ◌<◌, ◌≡◌, ◌⊎◌, refl, true, false, none, some, ℤ, pos, negsuc, minus_one, arith, CString,
  str_eq_refl, ◌==◌, if◌then◌else◌, ltb_ℤ,
}
use ec440_projects.Disk.{
  Disk, Block, block_write, block_read, open_disk, close_disk, make_disk, disk_blocks, zero_block,
}

-- The disk is open, and the host carries out every transfer.
pub record IsReady (d : Disk) : Type 0 where
  pub opened : d.active ≡ true
  pub seeks : (b : ℕ) → d.os.seek_fails b ≡ false
  pub reads : (b : ℕ) → d.os.read_fails b ≡ false
  pub writes : (b : ℕ) → d.os.write_fails b ≡ false

pub block_write-IsReady :
    (d : Disk) (b : ℤ) (buf : Block) → IsReady d → IsReady (block_write b buf d).1
unfolding block_write
block_write-IsReady d (negsuc b) buf r = r
block_write-IsReady d (pos b) buf r = record {
  opened = ground (arith, r.opened);
  seeks = λ c. ground (arith, r.seeks c);
  reads = λ c. ground (arith, r.reads c);
  writes = λ c. ground (arith, r.writes c);
}

-- On an open disk whose host does not fail, writing a block in range returns 0, and reading any
-- block in range afterwards gives what was written there, or what the block held before.
pub block_read-block_write :
    (d : Disk) (b c : ℕ) (buf : Block)
    → IsReady d
    → b < disk_blocks
    → c < disk_blocks
    → ((block_write (pos b) buf d).0 ≡ pos 0)
      × (block_read (pos c) (block_write (pos b) buf d).1
          ≡ (if b == c then some buf else block_read (pos c) d))
unfolding block_write block_read
block_read-block_write d b c buf r h k = (
  ground (arith, r.seeks b, r.writes b, r.opened),
  ground (arith, r.seeks b, r.writes b, r.opened, r.seeks c, r.reads c, str_eq_refl d.handle),
)

-- The blocks that a transfer is refused for: all of them on a closed disk, and those out of range.
abbrev pub IsRefused : ℤ → Disk → Type 0
IsRefused b d =
    (ltb_ℤ b (pos 0) ≡ true) ⊎ ((ltb_ℤ b (pos disk_blocks) ≡ false) ⊎ (d.active ≡ false))

-- A transfer of a block out of range, or on a closed disk, returns -1: a write leaves the disk as
-- it was, and a read delivers nothing.
pub transfer_refused :
    (d : Disk) (b : ℤ) (buf : Block)
    → IsRefused b d
    → (block_write b buf d ≡ (minus_one, d)) × (block_read b d ≡ none)
unfolding block_write block_read
transfer_refused d (negsuc b) buf h = (refl, refl)
transfer_refused d (pos b) buf h = (ground arith, ground arith)

-- A disk that is made on a host that can open its name can be opened while no other is, reads as
-- zero blocks, refuses to be opened again, and closes once.
pub make_disk-open_disk :
    (d : Disk) (name other : CString) (b : ℕ)
    → d.active ≡ false
    → d.os.open_fails name ≡ false
    → ((c : ℕ) → d.os.seek_fails c ≡ false)
    → ((c : ℕ) → d.os.read_fails c ≡ false)
    → b < disk_blocks
    → let made = make_disk (some name) d in
      let opened = open_disk (some name) made.1 in
      (made.0 ≡ pos 0)
      × (opened.0 ≡ pos 0)
      × (block_read (pos b) opened.1 ≡ some zero_block)
      × (open_disk (some other) opened.1 ≡ (minus_one, opened.1))
      × ((close_disk opened.1).0 ≡ pos 0)
      × ((close_disk (close_disk opened.1).1).0 ≡ minus_one)
unfolding make_disk open_disk close_disk block_read
make_disk-open_disk d name other b shut openable seeks reads h = (
  ground arith,
  ground (arith, str_eq_refl name),
  ground (arith, str_eq_refl name, seeks b, reads b),
  ground (arith, str_eq_refl name),
  ground (arith, str_eq_refl name),
  ground (arith, str_eq_refl name),
)
