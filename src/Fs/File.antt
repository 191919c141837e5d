-- ===== src/Fs/File.antt =====
-- A file that is open in Project5/fs.c, with the blocks that its size calls for.
use ec440_projects.Prelude.{
  ℕ, ◌+◌, ◌/◌, ◌≤◌, ◌<◌, ◌≡◌, sym, ap, ◌∙◌, subst, update-at, true, ◌||◌, List, ℤ, pos, arith,
  ltb_ℤ, length, if◌then◌else◌,
}
use ec440_projects.Run.{done}
use ec440_projects.Disk.{block_size}
use ec440_projects.Disk.Io.{IsReady}
use ec440_projects.Fs.{Fs, FileDescriptor, max_f_num, max_fildes, max_f_size, find_head, fail}
use ec440_projects.Fs.Chain.{Chain}
use ec440_projects.Fs.Data.{moved}
use ec440_projects.Fs.Table.{fs_lseek}

-- Descriptor `f` stands at byte `o` of the file of entry `i`, which has `z` bytes in the blocks
-- `bs`, one more than `z / block_size`.
pub record IsFile (s : Fs) (f i : ℕ) (bs : List ℕ) (z o : ℕ) : Type 0 where
  pub descriptor : f < max_fildes
  pub opened : (s.fildes f).used ≡ true
  pub entry : find_head s (s.fildes f).file ≡ i
  pub inside : i < max_f_num
  pub used : (s.dir i).used ≡ true
  pub size : (s.dir i).size ≡ pos z
  pub offset : (s.fildes f).offset ≡ pos o
  pub chain : Chain s.fat (s.fildes f).file bs
  pub blocks : length bs ≡ z / block_size + 1
  pub small : z ≤ max_f_size
  pub below : o ≤ z
  pub ready : IsReady s.disk

-- A descriptor that is moved within its file stands in the same file.
pub moved-IsFile :
    (s : Fs) (f i : ℕ) (bs : List ℕ) (z o o' : ℕ)
    → IsFile s f i bs z o
    → o' ≤ z
    → IsFile (moved s f (pos o')) f i bs z o'
moved-IsFile s f i bs z o o' file h = record {
  descriptor = file.descriptor;
  opened = ap (λ (d : FileDescriptor). d.used) at_f ∙ file.opened;
  entry = ap (find_head s) (ap (λ (d : FileDescriptor). d.file) at_f) ∙ file.entry;
  inside = file.inside;
  used = file.used;
  size = file.size;
  offset = ap (λ (d : FileDescriptor). d.offset) at_f;
  chain = subst (λ k. Chain s.fat k bs) (sym (ap (λ (d : FileDescriptor). d.file) at_f)) file.chain;
  blocks = file.blocks;
  small = file.small;
  below = h;
  ready = file.ready;
}
  where
    at_f : (moved s f (pos o')).fildes f ≡ record (s.fildes f) { offset = pos o' }
    at_f = update-at s.fildes f (record (s.fildes f) { offset = pos o' })

-- `fs_lseek` on an open file sets the offset where it is not past the end, and otherwise returns -1
-- and changes nothing.
pub fs_lseek-IsFile :
    (s : Fs) (f i : ℕ) (bs : List ℕ) (z o : ℕ) (offset : ℤ)
    → IsFile s f i bs z o
    → fs_lseek (pos f) offset s ≡ (
        if ltb_ℤ offset (pos 0) || ltb_ℤ (pos z) offset
        then fail s
        else done (pos 0, moved s f offset))
unfolding fs_lseek
fs_lseek-IsFile s f i bs z o offset file = ground (
  arith,
  file.descriptor,
  file.opened,
  file.entry,
  file.inside,
  ap (λ j. (s.dir j).size) file.entry,
  file.size,
)
