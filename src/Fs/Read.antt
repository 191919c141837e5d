-- ===== src/Fs/Read.antt =====
-- What `fs_read` of Project5/fs.c delivers.
use ec440_projects.Prelude.{
  ℕ, ◌+◌, ◌-◌, ◌*◌, ◌^◌, ◌≤◌, ◌<◌, ◌≡◌, inl, inr, ap, ◌∙◌, true, some, List, pos, arith, ltb, leb,
  memcpy, length, min, fun_ext, Bool-cases, to_int_small, to_unsigned, sub_ℕ,
}
use ec440_projects.Run.{done, fault}
use ec440_projects.Disk.{Image, block_size}
use ec440_projects.Fs.{Fs}
use ec440_projects.Fs.Data.{Buffer, chain_fuel, fs_read, moved, deliver, end_of}
use ec440_projects.Fs.Content.{image, content, load, load_byte, read_chain-load}
use ec440_projects.Fs.File.{IsFile}

-- The bytes that are copied out of the buffer are those of the file.
memcpy-load :
    (img : Image) (bs : List ℕ) (uninit buf : Buffer) (o n : ℕ)
    → o + n ≤ block_size * length bs
    → memcpy buf 0 (load img bs 0 uninit) o n ≡ memcpy buf 0 (content img bs) o n
memcpy-load img bs uninit buf o n h = fun_ext λ p. elim (Bool-cases (ltb p n)) [
  | inl e ↦ ground (
    arith,
    load_byte img bs 0 uninit (o + (p - 0)),
    ap (content img bs) (minus_zero (o + (p - 0))),
  )
  | inr e ↦ ground arith
]
  where
    minus_zero : (q : ℕ) → q - block_size * 0 ≡ q
    minus_zero q = omega arith

module _ (buf : Buffer) (s : Fs) (f i : ℕ) (bs : List ℕ) (z o nbyte : ℕ) (buffer : Buffer)
    (file : IsFile s f i bs z o) (some_bytes : 0 < nbyte) where
  deliver-content :
      o + nbyte ≤ block_size * length bs
      → deliver s f i (length bs) (some buffer) buf nbyte
        ≡ done (
          pos (min nbyte (z - o)),
          memcpy buf 0 buffer o nbyte,
          moved s f (pos (min (o + nbyte) z)),
        )
  deliver-content room =
      rw (file.offset, file.size)
        (rw inside (
          rw sum (
            rw size (elim (Bool-cases (ltb z (o + nbyte))) [
              | inl e ↦
                  let status : sub_ℕ z o ≡ pos (min nbyte (z - o)) = ground (arith, file.below) in
                  let stop : z ≡ min (o + nbyte) z = ground arith in
                  rw e (rw status (ground (arith, stop)))
              | inr e ↦
                  let status : nbyte ≡ min nbyte (z - o) = ground (arith, file.below) in
                  let stop : o + nbyte ≡ min (o + nbyte) z = ground arith in
                  let n_int = to_int_small nbyte (omega (arith, short)) in
                  let o_int = to_int_small (o + nbyte) (omega (arith, short)) in
                  rw e (ground (arith, n_int, o_int, status, stop))
            ]))))
    where
      inside : leb (o + nbyte) (block_size * length bs) ≡ true
      inside = ground (arith, room)

      short : o + nbyte < 2 ^ 30
      short = omega (arith, file.blocks, file.small)

      sum : end_of (pos o) nbyte ≡ o + nbyte
      sum = omega (arith, short)

      size : to_unsigned 64 (pos z) ≡ z
      size = omega (arith, file.small)

  deliver-past :
      block_size * length bs < o + nbyte → deliver s f i (length bs) (some buffer) buf nbyte ≡ fault
  deliver-past h = ground (arith, file.offset)

fs_read-deliver :
    (uninit buf : Buffer) (s : Fs) (f i : ℕ) (bs : List ℕ) (z o nbyte : ℕ)
    → IsFile s f i bs z o
    → 0 < nbyte
    → fs_read uninit (pos f) buf nbyte s
      ≡ deliver s f i (length bs) (some (load (image s.disk) bs 0 uninit)) buf nbyte
unfolding fs_read
fs_read-deliver uninit buf s f i bs z o nbyte file some_bytes = ground (
  arith,
  file.descriptor,
  file.opened,
  file.entry,
  file.inside,
  file.used,
  file.size,
  file.blocks,
  read_chain-load (chain_fuel (length bs)) s.disk s.fat (length bs) (s.fildes f).file 0 uninit bs
      file.ready file.chain (omega arith) (omega arith),
)

pub fs_read-content :
    (uninit buf : Buffer) (s : Fs) (f i : ℕ) (bs : List ℕ) (z o nbyte : ℕ)
    → IsFile s f i bs z o
    → 0 < nbyte
    → o + nbyte ≤ block_size * length bs
    → fs_read uninit (pos f) buf nbyte s
      ≡ done (
        pos (min nbyte (z - o)),
        memcpy buf 0 (content (image s.disk) bs) o nbyte,
        moved s f (pos (min (o + nbyte) z)),
      )
unfolding fs_read
fs_read-content uninit buf s f i bs z o nbyte file some_bytes room =
    fs_read-deliver uninit buf s f i bs z o nbyte file some_bytes
    ∙ deliver-content buf s f i bs z o nbyte (load (image s.disk) bs 0 uninit) file some_bytes room
    ∙ ap (λ b. done (pos (min nbyte (z - o)), b, moved s f (pos (min (o + nbyte) z))))
        (memcpy-load (image s.disk) bs uninit buf o nbyte room)

-- A request that reaches past the last block of the file makes `fs_read` copy from behind its
-- buffer.
pub fs_read-past :
    (uninit buf : Buffer) (s : Fs) (f i : ℕ) (bs : List ℕ) (z o nbyte : ℕ)
    → IsFile s f i bs z o
    → block_size * length bs < o + nbyte
    → fs_read uninit (pos f) buf nbyte s ≡ fault
fs_read-past uninit buf s f i bs z o nbyte file h =
    let some_bytes : 0 < nbyte = omega (arith, h, file.below, file.blocks) in
    fs_read-deliver uninit buf s f i bs z o nbyte file some_bytes
    ∙ deliver-past buf s f i bs z o nbyte (load (image s.disk) bs 0 uninit) file some_bytes h
