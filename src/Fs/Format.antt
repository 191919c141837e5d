-- ===== src/Fs/Format.antt =====
-- `make_fs`, `mount_fs` and `umount_fs` of Project5/fs.c. `uninit` is what `malloc` leaves in a
-- buffer, and `pad` what a name's bytes hold behind the terminator. A super block with a negative
-- number and a name with no terminator, which these functions never write, are faults.
use ec440_projects.Prelude.{
  ℕ, zero, suc, ◌+◌, ◌*◌, ◌/◌, Bool, true, false, not, Option, none, some, [], ℤ, pos, minus_one,
  ltb, leb, eqb_ℤ, CString, update, memcpy, if◌then◌else◌,
}
use ec440_projects.Run.{Run, done, fault, access, on, ◌>>=◌}
use ec440_projects.Disk.{
  Disk, Block, block_size, disk_blocks, zero_block, block_write, block_read, make_disk, open_disk,
  close_disk,
}
use ec440_projects.Fs.{Fs, SuperBlock, DirEntry, max_f_num, max_fildes, fail}
use ec440_projects.Fs.Data.{Buffer, slice, put_block}
use ec440_projects.Fs.Bytes.{
  put_int, get_int, super_size, super_bytes, get_super, entry_size, entry_bytes, get_entry,
}

-- The numbers that `make_fs` computes.
abbrev pub new_super : SuperBlock
new_super = record {
  dir_idx = 1;
  dir_len = entry_size * max_f_num / block_size + 1;
  fat_idx = 1 + (entry_size * max_f_num / block_size + 1);
  fat_len = 4 * disk_blocks / block_size;
  data_idx = 1 + (entry_size * max_f_num / block_size + 1) + 4 * disk_blocks / block_size;
}

abbrev pub blank_dir : DirEntry
blank_dir = record { used = false; name = []; size = pos 0; head = minus_one; ref_cnt = pos 0 }

-- The loop that copies entries into a buffer, from entry `i` on.
unfoldable pub put_entries : (ℕ → Buffer) → (ℕ → DirEntry) → ℕ → ℕ → Buffer → Buffer
put_entries pad dir zero i b = b
put_entries pad dir (suc n) i b =
    put_entries pad dir n (i + 1)
      (memcpy b (i * entry_size) (entry_bytes (pad i) (dir i)) 0 entry_size)

-- The inner loop over a page of the table, from entry `i` on: page `page` receives `fat i`.
unfoldable pub put_page : (ℕ → ℤ) → ℕ → ℕ → ℕ → Buffer → Buffer
put_page fat page zero i b = b
put_page fat page (suc n) i b =
    put_page fat page n (i + 1) (put_int b (page * block_size + i * 4) (fat i))

unfoldable pub put_pages : (ℕ → ℤ) → ℕ → ℕ → Buffer → Buffer
unfolding put_page
put_pages fat zero page b = b
put_pages fat (suc n) page b = put_pages fat n (page + 1) (put_page fat page (block_size / 4) 0 b)

-- The loop that writes the pages of a buffer: whether no write failed, and the disk.
unfoldable pub write_pages : ℕ → ℕ → ℕ → Buffer → Disk → Bool × Disk
write_pages zero page start b d = (true, d)
write_pages (suc n) page start b d =
    let (r, d') = block_write (pos (start + page)) (slice b page) d in
    elim (eqb_ℤ r minus_one) [ true ↦ (false, d') | false ↦ write_pages n (page + 1) start b d' ]

-- A call of the disk that must succeed: `make_fs` returns -1 where it does not.
abbrev pub after : ℤ × Disk → (Disk → ℤ × Disk) → ℤ × Disk
after (r, d) next = if eqb_ℤ r minus_one then (minus_one, d) else next d

abbrev pub after_pages : Bool × Disk → (Disk → ℤ × Disk) → ℤ × Disk
after_pages (false, d) next = (minus_one, d)
after_pages (true, d) next = next d

unfoldable pub make_fs : Buffer → Buffer → Option CString → Disk → ℤ × Disk
unfolding put_entries put_pages write_pages
make_fs uninit pad disk_name d = after (make_disk disk_name d) λ d.
    after (open_disk disk_name d) λ d.
      after (block_write (pos 0) (memcpy uninit 0 (super_bytes new_super) 0 super_size) d) λ d.
        after
          (block_write (pos new_super.dir_idx)
            (put_entries (λ i. pad) (λ i. blank_dir) max_f_num 0 zero_block) d)
          λ d.
            after_pages
              (write_pages new_super.fat_len 0 new_super.fat_idx
                (put_pages (λ i. pos 0) new_super.fat_len 0 uninit) d)
              λ d. after (close_disk d) λ d. (pos 0, d)

-- The loop of `mount_fs` that reads the pages of the table: none where a read fails.
unfoldable pub read_pages : ℕ → ℕ → ℕ → Buffer → Disk → Option Buffer
read_pages zero page start b d = some b
read_pages (suc n) page start b d = elim (block_read (pos (start + page)) d) [
  | none ↦ none
  | some block ↦ read_pages n (page + 1) start (put_block b page block) d
]

-- `memcpy` of the whole directory out of a buffer: none where an entry has no name.
unfoldable pub get_entries : Buffer → ℕ → ℕ → (ℕ → DirEntry) → Option (ℕ → DirEntry)
get_entries b zero i dir = some dir
get_entries b (suc n) i dir = elim (get_entry b (i * entry_size)) [
  | none ↦ none
  | some e ↦ get_entries b n (i + 1) (update dir i e)
]

abbrev pub get_fat : Buffer → (ℕ → ℤ) → ℕ → ℤ
get_fat b fat i = if ltb i disk_blocks then get_int b (i * 4) else fat i

abbrev pub some_of {ℓ} : {A : Type ℓ} → Option A → Run A
some_of none = fault
some_of (some a) = done a

-- `fildes[i].used = 0` for `i` from `i` on. The array ends before the loop does: `overrun` is what
-- a write of element `i` behind the end does to the variables that the compiler put there.
unfoldable pub clear_fildes : (ℕ → Fs → Run Fs) → ℕ → ℕ → Fs → Run Fs
clear_fildes overrun zero i s = done s
clear_fildes overrun (suc n) i s = do
  s' ←
      on (ltb i max_fildes)
        (done (record s { fildes = update s.fildes i (record (s.fildes i) { used = false }) }))
        (overrun i s)
  clear_fildes overrun n (i + 1) s'

-- The rest of `mount_fs` once the table is in a buffer.
abbrev pub load_fat : (ℕ → Fs → Run Fs) → SuperBlock → Option Buffer → Fs → Run (ℤ × Fs)
load_fat overrun sb none s = fail s
load_fat overrun sb (some b) s = do
  bytes ← access (leb (4 * disk_blocks) (sb.fat_len * block_size)) b
  s' ← clear_fildes overrun max_f_num 0 (record s { fat = get_fat bytes s.fat; mount = true })
  done (pos 0, s')

abbrev pub load_dir : (ℕ → Fs → Run Fs) → Buffer → SuperBlock → Option Block → Fs → Run (ℤ × Fs)
load_dir overrun uninit sb none s = fail s
load_dir overrun uninit sb (some block) s = do
  dir ← some_of (get_entries block max_f_num 0 s.dir)
  load_fat overrun sb (read_pages sb.fat_len 0 sb.fat_idx uninit s.disk) (record s { dir = dir })

-- The rest of `mount_fs` once the disk is open: `blank_super` is what `malloc` leaves in `*fs`.
abbrev pub load_super : (ℕ → Fs → Run Fs) → Buffer → SuperBlock → Option Block → Fs → Run (ℤ × Fs)
load_super overrun uninit blank_super none s = fail (record s { fs = some blank_super })
load_super overrun uninit blank_super (some block) s = do
  sb ← some_of (get_super block)
  load_dir overrun uninit sb (block_read (pos sb.dir_idx) s.disk) (record s { fs = some sb })

unfoldable pub mount_fs :
    (ℕ → Fs → Run Fs) → Buffer → SuperBlock → Option CString → Fs → Run (ℤ × Fs)
unfolding get_entries read_pages clear_fildes
mount_fs overrun uninit blank_super disk_name s =
    let (r, d) = open_disk disk_name s.disk in
    let s' = record s { disk = d } in
    on (eqb_ℤ r minus_one) (fail s')
      (load_super overrun uninit blank_super (block_read (pos 0) d) s')

-- `umount_fs` once the directory is written.
abbrev pub store_fat : Buffer → SuperBlock → Bool × Disk → Fs → ℤ × Fs
store_fat uninit sb (false, d) s = (minus_one, record s { disk = d })
store_fat uninit sb (true, d) s =
    let (r, d') = close_disk d in
    if eqb_ℤ r minus_one
    then (minus_one, record s { disk = d' })
    else (pos 0, record s { disk = d'; mount = false; fs = none })

-- `disk_name` is not looked at. `free(fs)` leaves a pointer that must not be read any more.
unfoldable pub umount_fs : Buffer → (ℕ → Buffer) → Fs → Run (ℤ × Fs)
unfolding put_entries put_pages write_pages
umount_fs uninit pad s = on (not s.mount) (fail s) (do
  sb ← some_of s.fs
  b ← access (leb block_size (sb.dir_len * block_size)) (put_entries pad s.dir max_f_num 0 uninit)
  let (r, d) = block_write (pos sb.dir_idx) b s.disk
  on (eqb_ℤ r minus_one) (fail (record s { disk = d })) (
      done (
        store_fat uninit sb
          (write_pages sb.fat_len 0 sb.fat_idx (put_pages s.fat sb.fat_len 0 uninit) d) s)))
