-- ===== src/Disk/Tests.antt =====
-- The theorems about Project5/disk.c at a small disk.
use ec440_projects.Prelude.{
  ◌≡◌, refl, false, true, none, some, [], ◌∷◌, pos, arith, ◌==◌, if◌then◌else◌, CString,
}
use ec440_projects.Disk.{Disk, Os, block_write, block_read, zero_block}
use ec440_projects.Disk.Io.{IsReady, block_read-block_write}

abbrev os : Os
os = record {
  open_fails = λ n. false;
  seek_fails = λ b. false;
  read_fails = λ b. false;
  write_fails = λ b. false;
}

abbrev name : CString
name = b'd' ∷ []

abbrev shut : Disk
shut = record { os = os; files = λ n. none; active = false; handle = [] }

abbrev opened : Disk
opened = record { os = os; files = λ n. some (λ b i. b); active = true; handle = name }

opened-IsReady : IsReady opened
opened-IsReady = record { opened = refl; seeks = λ b. refl; reads = λ b. refl; writes = λ b. refl }

block_read-block_write_example :
    ((block_write (pos 3) zero_block opened).0 ≡ pos 0)
    × (block_read (pos 4) (block_write (pos 3) zero_block opened).1
        ≡ (if 3 == 4 then some zero_block else block_read (pos 4) opened))
block_read-block_write_example =
    block_read-block_write opened 3 4 zero_block opened-IsReady (omega arith) (omega arith)
