-- ===== src/Fs/RoundTrip.antt =====
-- Writing, seeking and reading back in Project5/fs.c.
use ec440_projects.Prelude.{
  ℕ, ◌+◌, ◌-◌, if◌then◌else◌, ◌/◌, ◌≤◌, ◌<◌, ◌≡◌, ap, ◌∙◌, List, pos, arith, length, min, max,
  memcpy, ltb_ℤ, ◌||◌,
}
use ec440_projects.Run.{done}
use ec440_projects.Disk.{block_size}
use ec440_projects.Fs.{Fs, max_f_size, fail}
use ec440_projects.Fs.Table.{fs_lseek}
use ec440_projects.Fs.Data.{Buffer, fs_read, fs_write, moved}
use ec440_projects.Fs.Content.{image, content}
use ec440_projects.Fs.File.{IsFile, moved-IsFile, fs_lseek-IsFile}
use ec440_projects.Fs.Read.{fs_read-content}
use ec440_projects.Fs.Write.{fs_write-Wrote, Wrote}

-- After `n` bytes, at least one, were written at byte `o` of an open file, on a host whose calls do
-- not fail, where byte `o + n` still lies in a block of the file and `o + n` is at most 16 MB, seeking
-- back to `o` and reading `n` bytes returns `n` and delivers them.
pub fs_read-fs_write :
    (uninit buf out : Buffer) (s : Fs) (f i : ℕ) (bs : List ℕ) (z o n : ℕ)
    → IsFile s f i bs z o
    → 0 < n
    → o + n ≤ max_f_size
    → (o + n) / block_size < length bs
    → (t : Fs) × (u : Fs) × (v : Fs) × (got : Buffer) × (fs_write uninit (pos f) buf n s
        ≡ done (pos n, t))
      × (fs_lseek (pos f) (pos o) t ≡ done (pos 0, u))
      × (fs_read uninit (pos f) out n u ≡ done (pos n, got, v))
      × ((p : ℕ) → p < n → got p ≡ buf p)
fs_read-fs_write uninit buf out s f i bs z o n file some_bytes fits room =
    back (fs_write-Wrote uninit buf s f i bs z o n file fits room)
  where
    size : ℕ
    size = max z (o + n)

    back :
        (t : Fs) × (fs_write uninit (pos f) buf n s ≡ done (pos n, t)) × Wrote s t f i bs z o n buf
        → (t : Fs) × (u : Fs) × (v : Fs) × (got : Buffer) × (fs_write uninit (pos f) buf n s
            ≡ done (pos n, t))
          × (fs_lseek (pos f) (pos o) t ≡ done (pos 0, u))
          × (fs_read uninit (pos f) out n u ≡ done (pos n, got, v))
          × ((p : ℕ) → p < n → got p ≡ buf p)
    back (t, e, w) = (
      t,
      moved t f (pos o),
      moved (moved t f (pos o)) f (pos (min (o + n) size)),
      memcpy out 0 (content (image t.disk) bs) o n,
      e,
      fs_lseek-IsFile t f i bs size (o + n) (pos o) w.file ∙ seek,
      fs_read-content uninit out (moved t f (pos o)) f i bs size o n
            (moved-IsFile t f i bs size (o + n) o w.file (omega arith)) some_bytes
            (omega (arith, w.file.blocks))
          ∙ ap
              (λ m. done (
                pos m,
                memcpy out 0 (content (image t.disk) bs) o n,
                moved (moved t f (pos o)) f (pos (min (o + n) size)),
              ))
              whole,
      λ p h. bytes p h,
    )
      where
        whole : min n (size - o) ≡ n
        whole = omega arith

        seek :
            (if ltb_ℤ (pos o) (pos 0) || ltb_ℤ (pos size) (pos o)
              then fail t
              else done (pos 0, moved t f (pos o)))
            ≡ done (pos 0, moved t f (pos o))
        seek = let reached : o ≤ size = omega arith in ground arith

        bytes : (p : ℕ) → p < n → memcpy out 0 (content (image t.disk) bs) o n p ≡ buf p
        bytes p h =
            let at : o + (p - 0) ≡ o + p = omega arith in
            let from : o + p - o ≡ p = omega arith in
            ground (
              arith,
              w.bytes (o + p) (omega (arith, w.file.blocks)),
              ap (content (image t.disk) bs) at,
              ap buf from,
            )
