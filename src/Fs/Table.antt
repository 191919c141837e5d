-- ===== src/Fs/Table.antt =====
-- The functions of Project5/fs.c that work on the tables alone: `fs_open`, `fs_close`, `fs_create`,
-- `fs_delete`, `fs_get_filesize`, `fs_lseek` and `fs_listfiles`.
use ec440_projects.Prelude.{
  ℕ, zero, suc, ◌+◌, Bool, true, false, not, ◌||◌, Option, none, some, List, [], ◌∷◌, ℤ, pos,
  minus_one, suc_ℤ, pred_ℤ, ltb, ltb_ℤ, eqb_ℤ, ◌==◌, CString, str_eq, update, length, take,
  if◌then◌else◌,
}
use ec440_projects.Run.{Run, done, out_of_fuel, access, on, ◌>>=◌}
use ec440_projects.Disk.{disk_blocks}
use ec440_projects.Fs.{
  Fs, DirEntry, FileDescriptor, max_f_name, max_f_num, max_fildes, index, before_end, data_idx_of,
  find_free, find_name, find_head, find_unused, fail,
}

abbrev pub open_descriptor : ℤ → FileDescriptor
open_descriptor head = record { used = true; file = head; offset = pos 0 }

-- The descriptor is opened on the entry's first block, and the reference count goes up.
abbrev pub opened : Fs → ℕ → ℕ → Fs
opened s file new_fildes = record s {
  fildes = update s.fildes new_fildes (open_descriptor (s.dir file).head);
  dir = update s.dir file (record (s.dir file) { ref_cnt = suc_ℤ (s.dir file).ref_cnt });
}

unfoldable pub fs_open : CString → Fs → Run (ℤ × Fs)
fs_open name s =
    let file = find_name s name in
    on (file == max_f_num) (fail s) (
      on (not (s.dir file).used) (fail s) (do
        new_fildes ← before_end max_fildes (find_unused s)
        on (new_fildes == max_fildes) (fail s) (done (pos new_fildes, opened s file new_fildes))))

abbrev pub closed_descriptor : FileDescriptor
closed_descriptor = record { used = false; file = pos 0; offset = minus_one }

abbrev pub closed : Fs → ℕ → ℕ → Fs
closed s i f = record s {
  fildes = update s.fildes f closed_descriptor;
  dir = update s.dir i (record (s.dir i) { ref_cnt = pred_ℤ (s.dir i).ref_cnt });
}

-- The test on a descriptor that most functions begin with, after `fildes[fildes_i]` was read.
abbrev pub is_invalid : Fs → ℤ → ℕ → Bool
is_invalid s fildes_i i =
    not (s.fildes i).used || (ltb_ℤ (pos max_fildes) fildes_i || ltb_ℤ fildes_i (pos 0))

unfoldable pub fs_close : ℤ → Fs → Run (ℤ × Fs)
fs_close fildes_i s = do
  f ← index fildes_i max_fildes
  on (is_invalid s fildes_i f) (fail s) (do
    i ← before_end max_f_num (find_head s (s.fildes f).file)
    on (i == max_f_num) (fail s) (on (not (s.dir i).used) (fail s) (done (pos 0, closed s i f))))

-- The loop of `fs_create` over the directory: none where the name is taken, and otherwise the last
-- unused entry, or `max_f_num`.
unfoldable pub scan_dir : (ℕ → DirEntry) → CString → ℕ → ℕ → ℕ → Option ℕ
scan_dir dir name zero i unused = some unused
scan_dir dir name (suc n) i unused = elim (str_eq (dir i).name name) [
  | true ↦ none
  | false ↦ scan_dir dir name n (i + 1) (if not (dir i).used then i else unused)
]

abbrev pub new_entry : CString → ℕ → DirEntry
new_entry name i = record { used = true; name = name; size = pos 0; head = pos i; ref_cnt = pos 0 }

abbrev pub created : Fs → CString → ℕ → ℕ → Fs
created s name unused i = record s {
  fat = update s.fat i minus_one;
  dir = update s.dir unused (new_entry name i);
}

unfoldable pub create_at : CString → Option ℕ → Fs → Run (ℤ × Fs)
create_at name none s = fail s
create_at name (some unused) s = on (unused == max_f_num) (fail s) (do
  data_idx ← data_idx_of s.fs
  i ← access (ltb (find_free data_idx s.fat) disk_blocks) (find_free data_idx s.fat)
  done (pos 0, created s name unused i))

unfoldable pub fs_create : CString → Fs → Run (ℤ × Fs)
unfolding create_at
fs_create name s =
    on (ltb max_f_name (length name)) (fail s)
      (create_at name (scan_dir s.dir name max_f_num 0 max_f_num) s)

-- The loop of `fs_delete` that gives the blocks of a chain back: whether it reached the end, and
-- the table. It stops at an entry that is already free.
unfoldable pub free_chain : ℕ → ℤ → (ℕ → ℤ) → Run (Bool × (ℕ → ℤ))
free_chain zero fat_index fat = out_of_fuel
free_chain (suc fuel) fat_index fat = do
  i ← index fat_index disk_blocks
  let rest = free_chain fuel (fat i) (update fat i (pos 0))
  on (eqb_ℤ (fat i) minus_one) (done (true, update fat i (pos 0)))
      (on (eqb_ℤ (fat i) (pos 0)) (done (false, fat)) rest)

abbrev pub deleted_entry : DirEntry → DirEntry
deleted_entry d = record d { used = false; name = []; size = pos 0; head = pos 0 }

-- One round more than there are blocks, since each round frees one.
abbrev pub free_fuel : ℕ
free_fuel = suc disk_blocks

abbrev pub delete_entry : ℕ → Bool × (ℕ → ℤ) → Fs → ℤ × Fs
delete_entry i (false, fat) s = (minus_one, record s { fat = fat })
delete_entry i (true, fat) s =
    (pos 0, record s { fat = fat; dir = update s.dir i (deleted_entry (s.dir i)) })

unfoldable pub fs_delete : CString → Fs → Run (ℤ × Fs)
fs_delete name s = do
  i ← before_end max_f_num (find_name s name)
  on (i == max_f_num) (fail s) (
      on (ltb_ℤ (pos 0) (s.dir i).ref_cnt) (fail s)
        (do freed ← free_chain free_fuel (s.dir i).head s.fat; done (delete_entry i freed s)))

unfoldable pub fs_get_filesize : ℤ → Fs → Run (ℤ × Fs)
fs_get_filesize fildes_i s = do
  f ← index fildes_i max_fildes
  on (not (s.fildes f).used) (fail s)
      (do i ← before_end max_f_num (find_head s (s.fildes f).file); done ((s.dir i).size, s))

-- `offset` is an `off_t`; it is stored only where it is no larger than an `int`.
unfoldable pub fs_lseek : ℤ → ℤ → Fs → Run (ℤ × Fs)
fs_lseek fildes_i offset s = do
  f ← index fildes_i max_fildes
  on (not (s.fildes f).used) (fail s) (
      on (ltb_ℤ offset (pos 0)) (fail s) (do
        i ← before_end max_f_num (find_head s (s.fildes f).file)
        on (ltb_ℤ (s.dir i).size offset) (fail s) (
            done (
              pos 0,
              record s { fildes = update s.fildes f (record (s.fildes f) { offset = offset }) },
            ))))

-- `fs_listfiles` copies the names in use into an array of its own, by `strncpy` of 15 bytes. The
-- caller's pointer is not written: the function assigns its parameter first.
unfoldable pub list_names : (ℕ → DirEntry) → ℕ → ℕ → List CString
list_names dir zero i = []
list_names dir (suc n) i =
    if (dir i).used
    then take max_f_name (dir i).name ∷ list_names dir n (i + 1)
    else list_names dir n (i + 1)

-- The result, and the names in the array.
unfoldable pub fs_listfiles : Fs → ℤ × List CString
unfolding list_names
fs_listfiles s = (pos 0, list_names s.dir max_f_num 0)
