-- ===== src/Fs/Ends.antt =====
-- `fs_read` and `fs_write` of Project5/fs.c end on every state.
use ec440_projects.Prelude.{
  ℕ, zero, suc, ◌+◌, ◌*◌, ◌/◌, ◌≤◌, ◌<◌, ◌≢◌, not, ◌||◌, Option, none, some, ℤ, pos, negsuc,
  minus_one, arith, ltb, leb, eqb_ℤ, ◌==◌, memcpy, Option-cases, inl, inr,
}
use ec440_projects.Run.{
  out_of_fuel, access, Ends, returns, faults, Ends-of_ne, Ends-on, Ends-access, Ends-bind,
}
use ec440_projects.Disk.{Disk, disk_blocks, block_size, block_read, block_write}
use ec440_projects.Fs.{
  Fs, max_f_num, max_fildes, SuperBlock, find_head, index, before_end, data_idx_of,
}
use ec440_projects.Fs.Data.{
  Buffer, slice, put_block, read_chain, write_chain, chain_fuel, fs_read, fs_write, extend, grow,
  rewrite, deliver, num_blocks_of, offset_of, write_back, clamp, end_of, resized,
}
use ec440_projects.Fs.Table.{is_invalid}

-- The loops end whatever the table holds: a chain that is too long leaves the buffer.
read_chain-ends :
    (fuel : ℕ) (d : Disk) (fat : ℕ → ℤ) (n : ℕ) (k : ℤ) (j : ℕ) (buffer : Buffer)
    → j ≤ n
    → n < fuel + j
    → read_chain fuel d fat n k j buffer ≢ out_of_fuel
unfolding read_chain
read_chain-ends zero d fat n k j buffer a b = absurd (omega arith)
read_chain-ends (suc fuel) d fat n (negsuc k) j buffer a b = ground arith
read_chain-ends (suc fuel) d fat n (pos k) j buffer a b =
    elim (Option-cases (block_read (pos k) d)) [
      | inl e ↦ ground arith
      | inr (block, e) ↦
          ground (arith, read_chain-ends fuel d fat n (fat k) (suc j) (put_block buffer j block))
    ]

write_chain-ends :
    (fuel : ℕ) (fat : ℕ → ℤ) (n : ℕ) (k : ℤ) (j : ℕ) (buffer : Buffer) (d : Disk)
    → j ≤ n
    → n < fuel + j
    → write_chain fuel fat n k j buffer d ≢ out_of_fuel
unfolding write_chain
write_chain-ends zero fat n k j buffer d a b = absurd (omega arith)
write_chain-ends (suc fuel) fat n (negsuc k) j buffer d a b = ground arith
write_chain-ends (suc fuel) fat n (pos k) j buffer d a b =
    let d' = (block_write (pos k) (slice buffer j) d).1 in
    ground (arith, write_chain-ends fuel fat n (fat k) (suc j) buffer d')

Ends-index : (k : ℤ) (n : ℕ) → Ends (index k n)
Ends-index (negsuc i) n = faults
Ends-index (pos i) n = Ends-access (ltb i n) i

Ends-offset_of : (k : ℤ) → Ends (offset_of k)
Ends-offset_of (pos n) = returns
Ends-offset_of (negsuc n) = faults

Ends-num_blocks_of : (k : ℤ) → Ends (num_blocks_of k)
Ends-num_blocks_of (pos n) = returns
Ends-num_blocks_of (negsuc n) = faults

Ends-data_idx_of : (fs : Option SuperBlock) → Ends (data_idx_of fs)
Ends-data_idx_of none = faults
Ends-data_idx_of (some sb) = returns

Ends-read_chain :
    (d : Disk) (fat : ℕ → ℤ) (n : ℕ) (k : ℤ) (buffer : Buffer)
    → Ends (read_chain (chain_fuel n) d fat n k 0 buffer)
Ends-read_chain d fat n k buffer =
    Ends-of_ne _ (read_chain-ends (chain_fuel n) d fat n k 0 buffer (omega arith) (omega arith))

Ends-write_chain :
    (fat : ℕ → ℤ) (n : ℕ) (k : ℤ) (buffer : Buffer) (d : Disk)
    → Ends (write_chain (chain_fuel n) fat n k 0 buffer d)
Ends-write_chain fat n k buffer d =
    Ends-of_ne _ (write_chain-ends (chain_fuel n) fat n k 0 buffer d (omega arith) (omega arith))

Ends-deliver :
    (s : Fs) (f i n : ℕ) (r : Option Buffer) (buf : Buffer) (nbyte : ℕ)
    → Ends (deliver s f i n r buf nbyte)
Ends-deliver s f i n none buf nbyte = returns
Ends-deliver s f i n (some buffer) buf nbyte =
    Ends-bind (offset_of (s.fildes f).offset) _ (Ends-offset_of _) λ o.
      Ends-bind (access (leb (o + nbyte) (block_size * n)) o) _ (Ends-access _ _)
        λ from. Ends-bind (offset_of (s.dir i).size) _ (Ends-offset_of _) λ size. returns

Ends-write_back :
    (s : Fs) (f n : ℕ) (r : Option Buffer) (buf : Buffer) (nbyte : ℕ)
    → Ends (write_back s f n r buf nbyte)
Ends-write_back s f n none buf nbyte = returns
Ends-write_back s f n (some buffer) buf nbyte =
    Ends-bind (offset_of (s.fildes f).offset) _ (Ends-offset_of _) λ o.
      Ends-bind (access (leb (o + nbyte) (block_size * n)) o) _ (Ends-access _ _) λ at.
        Ends-bind
          (write_chain (chain_fuel n) s.fat n (s.fildes f).file 0 (memcpy buffer at buf 0 nbyte)
            s.disk)
          _ (Ends-write_chain s.fat n _ _ s.disk) λ w. returns

Ends-grow : (fs : Option SuperBlock) (k : ℤ) (fat : ℕ → ℤ) → Ends (grow fs k fat)
unfolding grow
Ends-grow fs k fat = Ends-bind (index k disk_blocks) _ (Ends-index k disk_blocks) λ b.
    Ends-on (eqb_ℤ (fat b) minus_one) _ _
      (Ends-bind (data_idx_of fs) _ (Ends-data_idx_of fs) λ d. returns) returns

Ends-extend : (fs : Option SuperBlock) (n : ℕ) (k : ℤ) (fat : ℕ → ℤ) → Ends (extend fs n k fat)
unfolding extend
Ends-extend fs zero k fat = returns
Ends-extend fs (suc n) k fat =
    Ends-bind (grow fs k fat) _ (Ends-grow fs k fat) λ r. Ends-extend fs n r.0 r.1

-- `fs_read` returns or faults on every state: no table makes it run for ever, one with cycles
-- included.
pub fs_read-Ends :
    (uninit : Buffer) (fildes_i : ℤ) (buf : Buffer) (nbyte : ℕ) (s : Fs)
    → Ends (fs_read uninit fildes_i buf nbyte s)
unfolding fs_read
fs_read-Ends uninit fildes_i buf nbyte s =
    Ends-bind (index fildes_i max_fildes) _ (Ends-index fildes_i max_fildes) λ f.
      Ends-on (is_invalid s fildes_i f) _ _ returns (
        Ends-on (nbyte == 0) _ _ returns (
          Ends-bind (before_end max_f_num (find_head s (s.fildes f).file)) _ (Ends-access _ _) λ i.
            Ends-on (not (s.dir i).used) _ _ returns (
              Ends-bind (num_blocks_of (s.dir i).size) _ (Ends-num_blocks_of _) λ n.
                Ends-bind (read_chain (chain_fuel n) s.disk s.fat n (s.fildes f).file 0 uninit) _
                  (Ends-read_chain s.disk s.fat n _ uninit) λ r. Ends-deliver s f i n r buf nbyte)))

Ends-rewrite :
    (uninit : Buffer) (f i : ℕ) (buf : Buffer) (nbyte : ℕ) (s : Fs)
    → Ends (rewrite uninit f i buf nbyte s)
unfolding rewrite
Ends-rewrite uninit f i buf nbyte s =
    Ends-bind (num_blocks_of (s.dir i).size) _ (Ends-num_blocks_of _) λ n.
      Ends-bind (read_chain (chain_fuel n) s.disk s.fat n (s.fildes f).file 0 uninit) _
        (Ends-read_chain s.disk s.fat n _ uninit) λ r. Ends-write_back s f n r buf nbyte

-- So does `fs_write`.
pub fs_write-Ends :
    (uninit : Buffer) (fildes_i : ℤ) (buf : Buffer) (nbyte : ℕ) (s : Fs)
    → Ends (fs_write uninit fildes_i buf nbyte s)
unfolding fs_write
fs_write-Ends uninit fildes_i buf nbyte s =
    Ends-bind (index fildes_i max_fildes) _ (Ends-index fildes_i max_fildes) λ f.
      Ends-on (is_invalid s fildes_i f) _ _ returns (
        let n = clamp (s.fildes f).offset nbyte in
        Ends-bind (before_end max_f_num (find_head s (s.fildes f).file)) _ (Ends-access _ _) λ i.
          Ends-on (i == max_f_num || not (s.dir i).used) _ _ returns (
            let total = end_of (s.fildes f).offset n in
            Ends-bind (extend s.fs (total / block_size) (s.fildes f).file s.fat) _
              (Ends-extend s.fs (total / block_size) (s.fildes f).file s.fat)
              λ fat. Ends-rewrite uninit f i buf n (resized s i total fat)))
