-- ===== src/Fs/Tests.antt =====
-- The theorems about Project5/fs.c at a small file system, and runs of its functions.
use ec440_projects.Prelude.{
  ℕ, ◌+◌, ◌<◌, ◌≡◌, ◌⊎◌, inl, inr, refl, true, false, some, List, [], ◌∷◌, pos, minus_one, arith,
  ◌==◌, update, CString, first_found, IsFirst, str_eq, if◌then◌else◌, Bool-cases,
}
use ec440_projects.Run.{done, fault, Keeps, Ends}
use ec440_projects.Disk.{Disk, Os}
use ec440_projects.Fs.{
  Fs, SuperBlock, DirEntry, max_f_num, max_fildes, has_name, has_head, is_unused,
}
use ec440_projects.Fs.Table.{
  fs_open, fs_close, fs_create, fs_delete, fs_lseek, new_entry, open_descriptor, closed_descriptor,
}
use ec440_projects.Fs.Chain.{Chain}
use ec440_projects.Fs.Create.{HasRoom, IsNextFree, fs_create-disk_full}
use ec440_projects.Fs.Delete.{Deleted, fs_delete-frees, fs_delete-Ends}
use ec440_projects.Fs.Data.{Buffer, fs_read, fs_write}
use ec440_projects.Fs.File.{IsFile}
use ec440_projects.Fs.Ends.{fs_read-Ends}
use ec440_projects.Fs.Read.{fs_read-past}
use ec440_projects.Fs.Write.{fs_write-Wrote, Wrote}
use ec440_projects.Fs.Truncate.{fs_truncate, fs_truncate-last_block}
use ec440_projects.Fs.RoundTrip.{fs_read-fs_write}
use ec440_projects.Fs.Invariant.{IsConsistent, refs}
use ec440_projects.Fs.Sizes.{fs_truncate-dir}
use ec440_projects.Fs.Directory.{Lists, Effect, Adds, Removes, fs_create-Adds, fs_delete-Removes}
use ec440_projects.Fs.Reopen.{Opened, Closed, fs_close-fs_open}

abbrev os : Os
os = record {
  open_fails = λ n. false;
  seek_fails = λ b. false;
  read_fails = λ b. false;
  write_fails = λ b. false;
}

abbrev letter : CString
letter = b'a' ∷ []

-- A host file whose blocks hold their own number.
abbrev disk : Disk
disk = record { os = os; files = λ n. some (λ b i. b); active = true; handle = letter }

abbrev layout : SuperBlock
layout = record { fat_idx = 2; fat_len = 8; dir_idx = 1; dir_len = 1; data_idx = 10 }

abbrev blank : DirEntry
blank = record { used = false; name = []; size = pos 0; head = minus_one; ref_cnt = pos 0 }

-- One file, `a`, in block 10, and no open descriptor.
abbrev one_file : Fs
one_file = record {
  fs = some layout;
  fildes = λ i. closed_descriptor;
  fat = update (λ b. pos 0) 10 minus_one;
  dir = update (λ i. blank) 63 (new_entry letter 10);
  mount = true;
  disk = disk;
}

abbrev chains : ℕ → List ℕ
chains i = if 63 == i then 10 ∷ [] else []

Chain-at :
    (i : ℕ)
    → ((63 == i) ≡ true) ⊎ ((63 == i) ≡ false)
    → (one_file.dir i).used ≡ true
    → Chain one_file.fat (one_file.dir i).head (chains i)
Chain-at i (inl e) u = rw e (refl, omega arith, omega arith, refl)
Chain-at i (inr e) u = cc

count_at :
    (i : ℕ)
    → ((63 == i) ≡ true) ⊎ ((63 == i) ≡ false)
    → (one_file.dir i).used ≡ true
    → (one_file.dir i).ref_cnt ≡ pos (refs one_file.fildes (one_file.dir i).head max_fildes)
unfolding refs
count_at i (inl e) u = rw e
count_at i (inr e) u = cc

one_file-IsConsistent : IsConsistent one_file chains
one_file-IsConsistent = record {
  files = record {
    sb = layout;
    mounted = refl;
    data_above = omega arith;
    names = λ i j a b u e. ground arith;
    heads = λ i j a b u e. ground arith;
    blank = λ i a u. ground arith;
    named = λ i a u. ground arith;
    super_free = refl;
    idle = λ i a u. ground arith;
    chain = λ i a u. Chain-at i (Bool-cases (63 == i)) u;
    nonempty = λ i a u. ground arith;
    apart = λ i j b x y u v ne m. ground arith;
  };
  counted = record {
    counts = λ i a u. count_at i (Bool-cases (63 == i)) u;
    targets = λ f a u. ground arith;
  };
}

-- The file with five bytes, open on descriptor 0.
abbrev open_file : Fs
open_file = record one_file {
  fildes = update (λ i. closed_descriptor) 0 (open_descriptor (pos 10));
  dir = update (λ i. blank) 63 (record (new_entry letter 10) { size = pos 5; ref_cnt = pos 1 });
}

open_file-IsFile : IsFile open_file 0 63 (10 ∷ []) 5 0
open_file-IsFile = record {
  descriptor = omega arith;
  opened = refl;
  entry =
      first_found (has_head open_file.dir (pos 10)) max_f_num 63
        (record { inside = omega arith; hit = refl; misses = λ j h. ground arith });
  inside = omega arith;
  used = refl;
  size = refl;
  offset = refl;
  chain = (refl, omega arith, omega arith, refl);
  blocks = refl;
  small = omega arith;
  below = omega arith;
  ready = record { opened = refl; seeks = λ b. refl; reads = λ b. refl; writes = λ b. refl };
}

unused_0 : IsFirst (is_unused one_file.fildes) max_fildes 0
unused_0 = record { inside = omega arith; hit = refl; misses = λ j h. ground arith }

abbrev bytes : Buffer
bytes i = i + 1

abbrev noise : Buffer
noise i = 7

-- The file with three blocks.
abbrev long_file : Fs
long_file = record open_file {
  fat = update (update (update (λ b. pos 0) 10 (pos 11)) 11 (pos 12)) 12 minus_one;
  dir = update (λ i. blank) 63 (record (new_entry letter 10) { size = pos 9000; ref_cnt = pos 1 });
}

fs_truncate-dir_example :
    Keeps (λ r. r.1.dir ≡ long_file.dir) (fs_truncate noise noise (pos 0) (pos 100) long_file)
fs_truncate-dir_example = fs_truncate-dir noise noise (pos 0) (pos 100) long_file

fs_create-Adds_example :
    Keeps
      (λ r. Effect (Adds (b'b' ∷ [])) r.0 (Lists one_file) (Lists r.1))
      (fs_create (b'b' ∷ []) one_file)
fs_create-Adds_example = fs_create-Adds (b'b' ∷ []) one_file chains one_file-IsConsistent

fs_delete-Removes_example :
    Keeps
      (λ r. Effect (Removes letter) r.0 (Lists one_file) (Lists r.1))
      (fs_delete letter one_file)
fs_delete-Removes_example = fs_delete-Removes letter one_file chains one_file-IsConsistent

fs_close-fs_open_example :
    (t : Fs) × (u : Fs) × (fs_open letter one_file ≡ done (pos 0, t))
    × Opened one_file 63 0 t
    × (fs_close (pos 0) t ≡ done (pos 0, u))
    × Closed one_file 0 u
fs_close-fs_open_example =
    fs_close-fs_open letter one_file chains 63 0 one_file-IsConsistent (omega arith) refl refl
      unused_0

letter-IsFirst : IsFirst (has_name one_file.dir letter) max_f_num 63
unfolding str_eq
letter-IsFirst = record { inside = omega arith; hit = refl; misses = λ j h. ground arith }

fs_delete-frees_example :
    (s' : Fs) × (fs_delete letter one_file ≡ done (pos 0, s')) × Deleted one_file 63 (10 ∷ []) s'
fs_delete-frees_example =
    fs_delete-frees letter one_file 63 10 [] letter-IsFirst refl
      (refl, omega arith, omega arith, refl)

fs_delete-Ends_example : Ends (fs_delete letter one_file)
fs_delete-Ends_example = fs_delete-Ends letter one_file

room : HasRoom one_file (b'b' ∷ []) 62
unfolding str_eq
room = record {
  short = omega arith;
  fresh = λ j h. ground arith;
  inside = omega arith;
  idle = refl;
  busy = λ j a h. ground arith;
}

next_free : IsNextFree 10 one_file.fat 11
next_free = record {
  from = omega arith;
  inside = omega arith;
  free = refl;
  before = λ j a h. ground arith;
}

fs_read-past_example : fs_read noise (pos 0) noise 5000 open_file ≡ fault
fs_read-past_example =
    fs_read-past noise noise open_file 0 63 (10 ∷ []) 5 0 5000 open_file-IsFile (omega arith)

fs_read-Ends_example : Ends (fs_read noise (pos 0) noise 9 open_file)
fs_read-Ends_example = fs_read-Ends noise (pos 0) noise 9 open_file

fs_write-Wrote_example :
    (t : Fs) × (fs_write noise (pos 0) bytes 9 open_file ≡ done (pos 9, t))
    × Wrote open_file t 0 63 (10 ∷ []) 5 0 9 bytes
fs_write-Wrote_example =
    fs_write-Wrote noise bytes open_file 0 63 (10 ∷ []) 5 0 9 open_file-IsFile (omega arith)
      (omega arith)

fs_read-fs_write_example :
    (t : Fs) × (u : Fs) × (v : Fs) × (got : Buffer) × (fs_write noise (pos 0) bytes 9 open_file
      ≡ done (pos 9, t))
    × (fs_lseek (pos 0) (pos 0) t ≡ done (pos 0, u))
    × (fs_read noise (pos 0) noise 9 u ≡ done (pos 9, got, v))
    × ((p : ℕ) → p < 9 → got p ≡ bytes p)
fs_read-fs_write_example =
    fs_read-fs_write noise bytes noise open_file 0 63 (10 ∷ []) 5 0 9 open_file-IsFile (omega arith)
      (omega arith) (omega arith)

-- Every block is taken.
abbrev full_disk : Fs
full_disk = record one_file { fat = λ b. minus_one }

room_full : HasRoom full_disk (b'b' ∷ []) 62
room_full = record {
  short = room.short;
  fresh = room.fresh;
  inside = room.inside;
  idle = room.idle;
  busy = room.busy;
}

fs_create-disk_full_example : fs_create (b'b' ∷ []) full_disk ≡ fault
fs_create-disk_full_example =
    fs_create-disk_full (b'b' ∷ []) full_disk layout 62 refl room_full (omega arith) (λ j a h. refl)

fs_truncate-last_block_example : fs_truncate noise noise (pos 0) (pos 2) open_file ≡ fault
fs_truncate-last_block_example =
    fs_truncate-last_block noise noise open_file 0 63 (10 ∷ []) 5 0 2 open_file-IsFile refl
      (omega arith) refl
