-- ===== src/Fs/Data.antt =====
-- The functions of Project5/fs.c that move file data: `fs_read`, `fs_write` and `fs_truncate`. A
-- buffer is a function from the offset to the byte; `uninit` is what `malloc` leaves in one. The
-- model faults where the code leaves a buffer, and at a negative size, which no function stores.
use ec440_projects.Prelude.{
  ℕ, zero, suc, ◌+◌, ◌-◌, ◌*◌, ◌/◌, ◌%◌, ◌^◌, Bool, true, false, not, ◌||◌, Option, none, some, ℤ,
  pos, negsuc, minus_one, ltb, leb, eqb_ℤ, ◌==◌, update, memcpy, to_int, to_unsigned, sub_ℕ,
  if◌then◌else◌,
}
use ec440_projects.Run.{Run, done, fault, out_of_fuel, access, on, ◌>>=◌}
use ec440_projects.Disk.{Disk, Block, disk_blocks, block_size, block_read, block_write}
use ec440_projects.Fs.{
  Fs, SuperBlock, max_f_num, max_fildes, max_f_size, index, before_end, data_idx_of, find_free,
  find_head, fail,
}
use ec440_projects.Fs.Table.{is_invalid}

abbrev pub Buffer : Type 0
Buffer = ℕ → ℕ

-- The bytes of block `j` of a buffer.
abbrev pub slice : Buffer → ℕ → Block
slice buffer j i = buffer (block_size * j + i)

abbrev pub put_block : Buffer → ℕ → Block → Buffer
put_block buffer j block = memcpy buffer (block_size * j) block 0 block_size

-- `DIR[dir_index].size / BLOCK_SIZE + 1`.
abbrev pub num_blocks_of : ℤ → Run ℕ
num_blocks_of (negsuc n) = fault
num_blocks_of (pos n) = done (n / block_size + 1)

-- An offset into a buffer.
abbrev pub offset_of : ℤ → Run ℕ
offset_of (negsuc n) = fault
offset_of (pos n) = done n

-- `offset + n` of an `int` and a `size_t`.
abbrev pub end_of : ℤ → ℕ → ℕ
end_of offset n = (to_unsigned 64 offset + n) % 2 ^ 64

-- The loop that reads the blocks of a chain into a buffer of `n` blocks: none where a transfer
-- fails. The loop of `fs_read` and the first of `fs_write`.
unfoldable pub read_chain : ℕ → Disk → (ℕ → ℤ) → ℕ → ℤ → ℕ → Buffer → Run (Option Buffer)
read_chain zero d fat n fat_index j buffer = out_of_fuel
read_chain (suc fuel) d fat n fat_index j buffer =
    on (eqb_ℤ fat_index minus_one) (done (some buffer)) (elim (block_read fat_index d) [
      | none ↦ done none
      | some block ↦ do
        k ← access (ltb j n) j
        i ← index fat_index disk_blocks
        read_chain fuel d fat n (fat i) (suc k) (put_block buffer k block)
    ])

-- The loop that writes them back.
unfoldable pub write_chain : ℕ → (ℕ → ℤ) → ℕ → ℤ → ℕ → Buffer → Disk → Run (Bool × Disk)
write_chain zero fat n fat_index j buffer d = out_of_fuel
write_chain (suc fuel) fat n fat_index j buffer d =
    on (eqb_ℤ fat_index minus_one) (done (true, d)) (do
      k ← access (ltb j n) j
      on (eqb_ℤ (block_write fat_index (slice buffer k) d).0 minus_one)
          (done (false, (block_write fat_index (slice buffer k) d).1))
          (do
            i ← index fat_index disk_blocks
            write_chain fuel fat n (fat i) (suc k) buffer
                (block_write fat_index (slice buffer k) d).1))

-- A round for each block of the buffer, one that finds the end and one that finds too many.
abbrev pub chain_fuel : ℕ → ℕ
chain_fuel n = suc (suc n)

abbrev pub moved : Fs → ℕ → ℤ → Fs
moved s f offset = record s { fildes = update s.fildes f (record (s.fildes f) { offset = offset }) }

-- What `fs_read` returns, what it leaves in the caller's buffer, and the state.
abbrev pub ReadResult : Type 0
ReadResult = ℤ × Buffer × Fs

-- The end of `fs_read`, after the file was read.
abbrev pub deliver : Fs → ℕ → ℕ → ℕ → Option Buffer → Buffer → ℕ → Run ReadResult
deliver s f i n none buf nbyte = done (minus_one, buf, s)
deliver s f i n (some buffer) buf nbyte = do
  o ← offset_of (s.fildes f).offset
  from ← access (leb (o + nbyte) (block_size * n)) o
  size ← offset_of (s.dir i).size
  done (
      if ltb (to_unsigned 64 (s.dir i).size) (end_of (s.fildes f).offset nbyte)
      then (sub_ℕ size from, memcpy buf 0 buffer from nbyte, moved s f (s.dir i).size)
      else (
        to_int nbyte,
        memcpy buf 0 buffer from nbyte,
        moved s f (to_int (end_of (s.fildes f).offset nbyte)),
      ))

unfoldable pub fs_read : Buffer → ℤ → Buffer → ℕ → Fs → Run ReadResult
fs_read uninit fildes_i buf nbyte s = do
  f ← index fildes_i max_fildes
  on (is_invalid s fildes_i f) (done (minus_one, buf, s)) (
      on (nbyte == 0) (done (minus_one, buf, s)) (do
        i ← before_end max_f_num (find_head s (s.fildes f).file)
        on (not (s.dir i).used) (done (minus_one, buf, s)) (do
          n ← num_blocks_of (s.dir i).size
          r ← read_chain (chain_fuel n) s.disk s.fat n (s.fildes f).file 0 uninit
          deliver s f i n r buf nbyte)))

-- One round of the loop of `fs_write` that extends the chain: the block that it has come to and the
-- table. It moves on only where it adds a block.
unfoldable pub grow : Option SuperBlock → ℤ → (ℕ → ℤ) → Run (ℤ × (ℕ → ℤ))
grow fs fat_index fat = do
  b ← index fat_index disk_blocks
  on (eqb_ℤ (fat b) minus_one)
      (do
        data_idx ← data_idx_of fs
        let j = find_free data_idx fat
        done (
            if ltb j disk_blocks
            then (pos j, update (update fat b (pos j)) j minus_one)
            else (fat_index, fat)))
      (done (fat_index, fat))

unfoldable pub extend : Option SuperBlock → ℕ → ℤ → (ℕ → ℤ) → Run (ℕ → ℤ)
extend fs zero fat_index fat = done fat
extend fs (suc rounds) fat_index fat = do
  (next, fat') ← grow fs fat_index fat
  extend fs rounds next fat'

-- `nbyte`, cut where the file would pass the largest size.
abbrev pub clamp : ℤ → ℕ → ℕ
clamp offset nbyte =
    if ltb max_f_size (end_of offset nbyte)
    then (max_f_size + 2 ^ 64 - to_unsigned 64 offset) % 2 ^ 64
    else nbyte

-- The file's entry and the table after the chain was extended.
abbrev pub resized : Fs → ℕ → ℕ → (ℕ → ℤ) → Fs
resized s i total fat = record s {
  fat = fat;
  dir = update s.dir i (record (s.dir i) {
    size = if ltb (to_unsigned 64 (s.dir i).size) total then to_int total else (s.dir i).size;
  });
}

abbrev pub written : Fs → ℕ → ℕ → Bool × Disk → ℤ × Fs
written s f n (false, d) = (minus_one, record s { disk = d })
written s f n (true, d) =
    (to_int n, moved (record s { disk = d }) f (to_int (end_of (s.fildes f).offset n)))

-- The end of `fs_write`, after the file was read: the bytes replaced, and the file written back.
abbrev pub write_back : Fs → ℕ → ℕ → Option Buffer → Buffer → ℕ → Run (ℤ × Fs)
write_back s f n none buf nbyte = fail s
write_back s f n (some buffer) buf nbyte = do
  o ← offset_of (s.fildes f).offset
  at ← access (leb (o + nbyte) (block_size * n)) o
  w ← write_chain (chain_fuel n) s.fat n (s.fildes f).file 0 (memcpy buffer at buf 0 nbyte) s.disk
  done (written s f nbyte w)

-- `fs_write` from where the chain has its length.
unfoldable pub rewrite : Buffer → ℕ → ℕ → Buffer → ℕ → Fs → Run (ℤ × Fs)
rewrite uninit f i buf nbyte s = do
  n ← num_blocks_of (s.dir i).size
  r ← read_chain (chain_fuel n) s.disk s.fat n (s.fildes f).file 0 uninit
  write_back s f n r buf nbyte

unfoldable pub fs_write : Buffer → ℤ → Buffer → ℕ → Fs → Run (ℤ × Fs)
fs_write uninit fildes_i buf nbyte s = do
  f ← index fildes_i max_fildes
  on (is_invalid s fildes_i f) (fail s) (do
    let n = clamp (s.fildes f).offset nbyte
    i ← before_end max_f_num (find_head s (s.fildes f).file)
    on (i == max_f_num || not (s.dir i).used) (fail s) (do
      let total = end_of (s.fildes f).offset n
      fat ← extend s.fs (total / block_size) (s.fildes f).file s.fat
      rewrite uninit f i buf n (resized s i total fat)))
