-- ===== src/Fs/MountTests.antt =====
-- The theorems about `make_fs`, `mount_fs` and `umount_fs` of Project5/fs.c at a small file system.
use ec440_projects.Prelude.{
  ap, str_eq, List, ℕ, zero, suc, get_elem?, ◌≢◌, ◌≡◌, ◌⊎◌, inl, inr, refl, true, false, some, none,
  [], ◌∷◌, pos, minus_one, arith, ◌==◌, update, CString, Bool-cases,
}
use ec440_projects.Run.{Run, done}
use ec440_projects.Disk.{Disk, Os, Block, block_read}
use ec440_projects.Fs.{Fs}
use ec440_projects.Fs.Table.{new_entry, closed_descriptor}
use ec440_projects.Fs.Bytes.{super_bytes}
use ec440_projects.Fs.Format.{new_super, blank_dir, make_fs, mount_fs, umount_fs}
use ec440_projects.Fs.Encode.{IsEntry, IsInt}
use ec440_projects.Fs.Remount.{IsMounted, IsStorable, Remounted, umount_fs-mount_fs}
use ec440_projects.Fs.Making.{CanMake, blank-IsEntry, new_super-IsSuper}
use ec440_projects.Fs.Fresh.{IsFresh, make_fs-mount_fs}
use ec440_projects.Fs.Table.{fs_create}
use ec440_projects.Fs.Create.{fs_create-HasRoom}
use ec440_projects.Fs.Invariant.{IsConsistent}
use ec440_projects.Fs.History.{begin, then_call, create, mount_fs-History-IsConsistent}

abbrev os : Os
os = record {
  open_fails = λ n. false;
  seek_fails = λ b. false;
  read_fails = λ b. false;
  write_fails = λ b. false;
}

abbrev letter : CString
letter = b'a' ∷ []

abbrev no_overrun : ℕ → Fs → Run Fs
no_overrun i s = done s

abbrev garbage : Block
garbage i = 255

-- Nothing is open, and the host has no file.
abbrev start : Fs
start = record {
  fs = none;
  fildes = λ i. closed_descriptor;
  fat = λ b. pos 0;
  dir = λ i. blank_dir;
  mount = false;
  disk = record { os = os; files = λ n. none; active = false; handle = [] };
}

start-CanMake : CanMake letter start.disk
start-CanMake = record {
  shut = refl;
  openable = refl;
  seeks = λ b. refl;
  reads = λ b. refl;
  writes = λ b. refl;
}

make_fs-mount_fs_example :
    (d : Disk) × (s' : Fs) × (make_fs garbage garbage (some letter) start.disk ≡ (pos 0, d))
    × (d.active ≡ false)
    × (mount_fs no_overrun garbage new_super (some letter) (record start { disk = d })
        ≡ done (pos 0, s'))
    × IsFresh letter s'
make_fs-mount_fs_example =
    make_fs-mount_fs no_overrun garbage garbage garbage new_super letter start (λ i s. refl)
      start-CanMake

-- One file, `a`, of block 10, on a disk with its super block.
abbrev mounted : Fs
mounted = record {
  fs = some new_super;
  fildes = λ i. closed_descriptor;
  fat = update (λ b. pos 0) 10 minus_one;
  dir = update (λ i. blank_dir) 63 (new_entry letter 10);
  mount = true;
  disk = record {
    os = os;
    files = λ n. some (λ b. super_bytes new_super);
    active = true;
    handle = letter;
  };
}

mounted-IsMounted : IsMounted letter new_super mounted
unfolding block_read
mounted-IsMounted = record {
  mounted = refl;
  super = refl;
  usable = record {
    ready = record { opened = refl; seeks = λ b. refl; reads = λ b. refl; writes = λ b. refl };
    handle = refl;
    openable = refl;
    exists = refl;
  };
  fits = new_super-IsSuper;
  block_0 = super_bytes new_super;
  reads_0 = refl;
  bytes_0 = λ p l. refl;
  dir_above = omega arith;
  fat_above = omega arith;
  fat_below = omega arith;
  dir_room = omega arith;
  fat_room = omega arith;
}

letter_bytes : (i c : ℕ) → get_elem? letter i ≡ some c → c ≢ 0
letter_bytes zero c h = ground arith
letter_bytes (suc i) c h = ground arith

IsEntry-at : (q : ℕ) → ((63 == q) ≡ true) ⊎ ((63 == q) ≡ false) → IsEntry (mounted.dir q)
IsEntry-at q (inl e) = rw e record {
  name = record { short = omega arith; bytes = letter_bytes };
  size = omega arith;
  head = omega arith;
  ref_cnt = omega arith;
}
IsEntry-at q (inr e) = rw e blank-IsEntry

IsInt-at : (q : ℕ) → ((10 == q) ≡ true) ⊎ ((10 == q) ≡ false) → IsInt (mounted.fat q)
IsInt-at q (inl e) = rw e (omega arith)
IsInt-at q (inr e) = rw e (omega arith)

mounted-IsStorable : IsStorable mounted
mounted-IsStorable = record {
  entries = λ q l. IsEntry-at q (Bool-cases (63 == q));
  table = λ q l. IsInt-at q (Bool-cases (10 == q));
}

umount_fs-mount_fs_example :
    (s' : Fs) × (s'' : Fs) × (umount_fs garbage (λ i. garbage) mounted ≡ done (pos 0, s'))
    × (s'.mount ≡ false)
    × (mount_fs no_overrun garbage new_super (some letter) s' ≡ done (pos 0, s''))
    × Remounted letter new_super mounted s''
umount_fs-mount_fs_example =
    umount_fs-mount_fs no_overrun garbage garbage (λ i. garbage) new_super new_super letter mounted
      (λ i s. refl) mounted-IsMounted mounted-IsStorable

-- The disk that `make_fs` leaves, the file system mounted on it, and what holds of them.
made :
    (d : Disk) × (s' : Fs) × (make_fs garbage garbage (some letter) start.disk ≡ (pos 0, d))
    × (d.active ≡ false)
    × (mount_fs no_overrun garbage new_super (some letter) (record start { disk = d })
        ≡ done (pos 0, s'))
    × IsFresh letter s'
made =
    make_fs-mount_fs no_overrun garbage garbage garbage new_super letter start (λ i s. refl)
      start-CanMake

with_file : Fs
with_file = record made.1 {
  fat = update made.1.fat 10 minus_one;
  dir = update made.1.dir 63 (new_entry letter 10);
}

creates : fs_create letter made.1 ≡ done (pos 0, with_file)
unfolding with_file str_eq
creates =
    let fresh = made.5 in
    fs_create-HasRoom letter made.1 new_super 63 10 fresh.mounted.super
      record {
        short = omega arith;
        fresh = λ j l. let e = fresh.entries j l in rw e refl;
        inside = omega arith;
        idle = ap (λ x. x.used) (fresh.entries 63 (omega arith));
        busy = λ j a b. absurd (omega arith);
      }
      record {
        from = omega arith;
        inside = omega arith;
        free = fresh.table 10 (omega arith);
        before = λ j a b. absurd (omega arith);
      }

mount_fs-History-IsConsistent_example :
    (pos 0 ≡ pos 0) × (pos 0 ≡ pos 0) × (chains : ℕ → List ℕ) × IsConsistent with_file chains
mount_fs-History-IsConsistent_example =
    mount_fs-History-IsConsistent no_overrun garbage garbage garbage new_super letter start made.1
      with_file (pos 0) (pos 0) made.0 (λ i s. refl) start-CanMake made.2 made.4
      (then_call (create letter) (pos 0) begin creates)
