-- ===== src/Fs/Truncate.antt =====
-- `fs_truncate` of Project5/fs.c. `uninit` and `blank` are what `malloc` leaves in its two buffers.
use ec440_projects.Prelude.{
  ℕ, zero, suc, ◌+◌, ◌-◌, ◌<◌, ◌^◌, to_int, to_int_small, refl, ◌/◌, ◌%◌, ◌≤◌, ◌≡◌, subst, Bool,
  true, false, not, ◌||◌, Option, none, some, List, [], ◌∷◌, ℤ, pos, negsuc, minus_one, arith, leb,
  ltb_ℤ, eqb_ℤ, ◌==◌, update, memcpy, length, if◌then◌else◌,
}
use ec440_projects.Run.{Run, done, fault, out_of_fuel, ◌>>=◌, access, on}
use ec440_projects.Disk.{Disk, Block, disk_blocks, block_size, block_read, block_write}
use ec440_projects.Fs.{Fs, max_f_num, max_fildes, find_head, fail, index, before_end}
use ec440_projects.Fs.Table.{is_invalid, free_fuel}
use ec440_projects.Fs.Chain.{Chain}
use ec440_projects.Fs.Data.{Buffer, moved}
use ec440_projects.Fs.File.{IsFile}

-- The rounds `i < start_block + 1`.
abbrev pub rounds_to : ℤ → ℕ
rounds_to (pos n) = suc n
rounds_to (negsuc n) = 0

-- `length / BLOCK_SIZE`, where `/` rounds towards 0, stored in an `int`.
abbrev pub start_block_of : ℤ → ℤ
start_block_of (pos n) = to_int (n / block_size)
start_block_of (negsuc n) = to_int (2 ^ 64 - suc n / block_size)

abbrev pub rounds_of : ℤ → ℕ
rounds_of size = rounds_to (start_block_of size)

-- `new_last = FAT[new_last]`, so many times.
unfoldable pub walk : ℕ → ℤ → (ℕ → ℤ) → Run ℤ
walk zero new_last fat = done new_last
walk (suc rounds) new_last fat = do i ← index new_last disk_blocks; walk rounds (fat i) fat

-- The loop that frees the blocks behind the new last one: whether every write went through, the
-- table and the disk.
unfoldable pub free_rest : ℕ → ℤ → Buffer → (ℕ → ℤ) → Disk → Run (Bool × (ℕ → ℤ) × Disk)
free_rest zero fat_index buf fat d = out_of_fuel
free_rest (suc fuel) fat_index buf fat d = on (eqb_ℤ fat_index minus_one) (done (true, fat, d)) (
    on (eqb_ℤ (block_write fat_index buf d).0 minus_one)
      (done (false, fat, (block_write fat_index buf d).1))
      (do
        i ← index fat_index disk_blocks
        free_rest fuel (fat i) buf (update fat i (pos 0)) (block_write fat_index buf d).1))

abbrev pub cut : Fs → ℕ → ℤ → Fs
cut s f size = if ltb_ℤ size (s.fildes f).offset then moved s f size else s

-- The bytes behind the new end are overwritten in the last block: `memcpy(buf + length, blank, leftover)`.
abbrev pub clear_tail : Fs → ℕ → ℤ → ℤ → Buffer → Option Block → Run (ℤ × Fs)
clear_tail s f last size blank none = fail s
clear_tail s f last (negsuc n) blank (some buf) = fault
clear_tail s f last (pos n) blank (some buf) = do
  leftover ←
      access (leb (n + (block_size - n % block_size)) block_size) (block_size - n % block_size)
  let w = block_write last (memcpy buf n blank 0 leftover) s.disk
  done (
      if eqb_ℤ w.0 minus_one
      then (minus_one, record s { disk = w.1 })
      else (pos 0, cut (record s { disk = w.1 }) f (pos n)))

abbrev pub truncated : Fs → ℕ → ℤ → ℤ → Buffer → Bool × (ℕ → ℤ) × Disk → Run (ℤ × Fs)
truncated s f last size blank (false, fat, d) = done (minus_one, record s { fat = fat; disk = d })
truncated s f last size blank (true, fat, d) =
    clear_tail (record s { fat = fat; disk = d }) f last size blank (block_read last d)

unfoldable pub fs_truncate : Buffer → Buffer → ℤ → ℤ → Fs → Run (ℤ × Fs)
fs_truncate uninit blank fildes_i size s = do
  f ← index fildes_i max_fildes
  on (is_invalid s fildes_i f) (fail s) (do
    file ← before_end max_f_num (find_head s (s.fildes f).file)
    on (file == max_f_num || not (s.dir file).used) (fail s) (
        on (ltb_ℤ (s.dir file).size size) (fail s) (do
          last ← walk (rounds_of size) (s.dir file).head s.fat
          i ← index last disk_blocks
          r ← free_rest free_fuel (s.fat i) uninit (update s.fat i minus_one) s.disk
          truncated s f last size blank r)))

-- As many rounds as the chain has blocks lead to its end mark.
walk-Chain :
    (fat : ℕ → ℤ) (k : ℤ) (bs : List ℕ) → Chain fat k bs → walk (length bs) k fat ≡ done minus_one
unfolding walk
walk-Chain fat k [] p = rw p
walk-Chain fat k (b ∷ bs) p = ground (arith, p.0, p.2, walk-Chain fat (fat b) bs p.3)

-- To cut an open file within its last block, as every file of one block is cut, `fs_truncate` goes
-- one entry too far along the chain and indexes the table with the end mark.
pub fs_truncate-last_block :
    (uninit blank : Buffer) (s : Fs) (f i : ℕ) (bs : List ℕ) (z o size : ℕ)
    → IsFile s f i bs z o
    → (s.dir i).head ≡ (s.fildes f).file
    → size ≤ z
    → size / block_size ≡ z / block_size
    → fs_truncate uninit blank (pos f) (pos size) s ≡ fault
unfolding fs_truncate
fs_truncate-last_block uninit blank s f i bs z o size file head le last = ground (
  arith, file.descriptor, file.opened, file.entry, file.inside, file.used, file.size, head, rounds,
  walked,
)
  where
    rounds : rounds_of (pos size) ≡ suc (size / block_size)
    rounds =
        let small : size / block_size < 2 ^ 31 = omega (arith, le, file.small) in
        rw (to_int_small (size / block_size) small) refl

    walked : walk (suc (size / block_size)) (s.fildes f).file s.fat ≡ done minus_one
    walked =
        let rounds : length bs ≡ suc (size / block_size) = omega (arith, file.blocks) in
        subst (λ n. walk n (s.fildes f).file s.fat ≡ done minus_one) rounds
          (walk-Chain s.fat (s.fildes f).file bs file.chain)
