-- ===== src/Fs/Sizes.antt =====
-- `fs_truncate` of Project5/fs.c never writes the directory.
use ec440_projects.Prelude.{
  ℕ, ◌-◌, ◌%◌, ◌+◌, ◌≡◌, refl, Bool, true, false, not, ◌||◌, Option, none, some, ℤ, pos, negsuc,
  minus_one, eqb_ℤ, ltb, ltb_ℤ, leb, ◌==◌, update, memcpy, if◌then◌else◌,
}
use ec440_projects.Run.{Run, Keeps, kept, faulted, Keeps-on, Keeps-access, Keeps-any}
use ec440_projects.Disk.{Disk, Block, block_size, disk_blocks, block_read, block_write}
use ec440_projects.Fs.{Fs, DirEntry, max_f_num, max_fildes, find_head, fail, index}
use ec440_projects.Fs.Table.{is_invalid, free_fuel}
use ec440_projects.Fs.Data.{Buffer, moved}
use ec440_projects.Fs.Truncate.{fs_truncate, walk, free_rest, rounds_of, truncated, clear_tail, cut}

module _ (dir : ℕ → DirEntry) where
  abbrev KeepsDir : Run (ℤ × Fs) → Type 0
  KeepsDir = Keeps (λ r. r.1.dir ≡ dir)

  cut-dir : (s : Fs) (f : ℕ) (size : ℤ) → s.dir ≡ dir → (cut s f size).dir ≡ dir
  cut-dir s f size e = split (ltb_ℤ size (s.fildes f).offset)
    where
      split : (b : Bool) → (if b then moved s f size else s).dir ≡ dir
      split true = e
      split false = e

  clear_tail-dir :
      (s : Fs) (f : ℕ) (last size : ℤ) (blank : Buffer) (o : Option Block)
      → s.dir ≡ dir
      → KeepsDir (clear_tail s f last size blank o)
  clear_tail-dir s f last size blank none e = kept e
  clear_tail-dir s f last (negsuc n) blank (some buf) e = faulted
  clear_tail-dir s f last (pos n) blank (some buf) e =
      Keeps-access (leb (n + (block_size - n % block_size)) block_size)
        (block_size - n % block_size) _
        λ _.
          let w = block_write last (memcpy buf n blank 0 (block_size - n % block_size)) s.disk in
          kept (written (eqb_ℤ w.0 minus_one) w.1)
    where
      Result : ℤ × Fs → Type 0
      Result r = r.1.dir ≡ dir

      written :
          (b : Bool) (d : Disk)
          → Result (
              if b
              then (minus_one, record s { disk = d })
              else (pos 0, cut (record s { disk = d }) f (pos n)))
      written true d = e
      written false d = cut-dir (record s { disk = d }) f (pos n) e

  truncated-dir :
      (s : Fs) (f : ℕ) (last size : ℤ) (blank : Buffer) (r : Bool × (ℕ → ℤ) × Disk)
      → s.dir ≡ dir
      → KeepsDir (truncated s f last size blank r)
  truncated-dir s f last size blank (false, fat, d) e = kept e
  truncated-dir s f last size blank (true, fat, d) e =
      clear_tail-dir (record s { fat = fat; disk = d }) f last size blank (block_read last d) e

-- Wherever `fs_truncate` returns, the directory is as before: the size of the file, which
-- `fs_get_filesize` returns and `fs_read` and `fs_lseek` go by, is not cut.
pub fs_truncate-dir :
    (uninit blank : Buffer) (fildes_i size : ℤ) (s : Fs)
    → Keeps (λ r. r.1.dir ≡ s.dir) (fs_truncate uninit blank fildes_i size s)
unfolding fs_truncate
fs_truncate-dir uninit blank (negsuc f) size s = faulted
fs_truncate-dir uninit blank (pos f) size s =
    let file = find_head s (s.fildes f).file in
    Keeps-access (ltb f max_fildes) f _ λ _.
      Keeps-on (is_invalid s (pos f) f) (fail s) _ (λ _. kept refl)
        λ _. Keeps-access (ltb file max_f_num) file _ λ _.
          Keeps-on (file == max_f_num || not (s.dir file).used) (fail s) _ (λ _. kept refl)
            λ _.
              Keeps-on (ltb_ℤ (s.dir file).size size) (fail s) _ (λ _. kept refl)
                λ _. Keeps-any (walk (rounds_of size) (s.dir file).head s.fat) _ λ last.
                  Keeps-any (index last disk_blocks) _ λ i.
                    Keeps-any
                      (free_rest free_fuel (s.fat i) uninit (update s.fat i minus_one) s.disk) _
                      λ r. truncated-dir s.dir s f last size blank r refl
