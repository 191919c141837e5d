-- ===== src/Fs/Write.antt =====
-- What `fs_write` of Project5/fs.c leaves on the disk.
use ec440_projects.Prelude.{
  ℕ, ◌+◌, ◌-◌, ◌*◌, ◌/◌, ◌≤◌, ◌<◌, ◌≡◌, refl, ap, ◌∙◌, false, ◌&&◌, List, pos, arith, ltb, leb, has,
  memcpy, length, if◌then◌else◌, max,
}
use ec440_projects.Run.{done}
use ec440_projects.Disk.{Image, block_size}
use ec440_projects.Fs.{Fs, max_f_size}
use ec440_projects.Fs.Data.{Buffer, fs_write, resized}
use ec440_projects.Fs.Content.{
  image, content, load, load_byte, store-outside, content-store, Chain-Distinct, image-with_image,
}
use ec440_projects.Fs.File.{IsFile}
use ec440_projects.Fs.Rewrite.{
  rewritten, fs_write-rewrite, rewritten-IsFile, rewrite-store, resized-IsFile,
}

-- The bytes of the file after the write, by offset.
abbrev pub overwritten : (ℕ → ℕ) → Buffer → ℕ → ℕ → ℕ → ℕ
overwritten old buf o n p = if leb o p && ltb p (o + n) then buf (p - o) else old p

merged-byte :
    (img : Image) (bs : List ℕ) (uninit buf : Buffer) (o n p : ℕ)
    → p < block_size * length bs
    → memcpy (load img bs 0 uninit) o buf 0 n p ≡ overwritten (content img bs) buf o n p
merged-byte img bs uninit buf o n p h =
    ground (arith, load_byte img bs 0 uninit p, ap (content img bs) start, ap buf from)
  where
    start : p - block_size * 0 ≡ p
    start = omega arith

    from : 0 + (p - o) ≡ p - o
    from = omega arith

-- What a state `t` is after `n` bytes of `buf` were written at byte `o` of the open file of `s`.
pub record Wrote (s t : Fs) (f i : ℕ) (bs : List ℕ) (z o n : ℕ) (buf : Buffer) : Type 0 where
  pub file : IsFile t f i bs (max z (o + n)) (o + n)
  pub bytes :
      (p : ℕ)
      → p < block_size * length bs
      → content (image t.disk) bs p ≡ overwritten (content (image s.disk) bs) buf o n p
  pub others : (c : ℕ) → has c bs ≡ false → image t.disk c ≡ image s.disk c
  pub table : t.fat ≡ s.fat

-- `fs_write` of `n` bytes at byte `o` of an open file, on a host whose calls do not fail, where byte
-- `o + n`, the one behind the last, still lies in a block of the file and `o + n` is at most 16 MB,
-- returns the number of bytes. The file has those bytes at the offset and its old bytes elsewhere, its
-- size covers them, the descriptor stands behind them, and no other block of the disk and no table
-- entry changes.
pub fs_write-Wrote :
    (uninit buf : Buffer) (s : Fs) (f i : ℕ) (bs : List ℕ) (z o n : ℕ)
    → IsFile s f i bs z o
    → o + n ≤ max_f_size
    → (o + n) / block_size < length bs
    → (t : Fs) × (fs_write uninit (pos f) buf n s ≡ done (pos n, t)) × Wrote s t f i bs z o n buf
fs_write-Wrote uninit buf s f i bs z o n file fits room = (
  rewritten sized f bs uninit o buf n,
  fs_write-rewrite uninit buf s f i bs z o n file fits room
      ∙ rewrite-store sized f i bs (max z (o + n)) o n uninit buf sized_file covers,
  record {
    file = rewritten-IsFile sized f i bs (max z (o + n)) o n uninit buf sized_file covers;
    bytes = λ p h.
        ap (λ img. content img bs p) (image-with_image s.disk _)
        ∙ content-store (image s.disk) bs 0 _ p (Chain-Distinct s.fat _ bs file.chain) h
        ∙ ap (memcpy (load (image s.disk) bs 0 uninit) o buf 0 n) (start p)
        ∙ merged-byte (image s.disk) bs uninit buf o n p h;
    others = λ c out.
        ap (λ img. img c) (image-with_image s.disk _) ∙ store-outside (image s.disk) bs 0 _ c out;
    table = refl;
  },
)
  where
    sized : Fs
    sized = resized s i (o + n) s.fat

    sized_file : IsFile sized f i bs (max z (o + n)) o
    sized_file = resized-IsFile s f i bs z o n file fits room

    covers : o + n ≤ max z (o + n)
    covers = omega arith

    start : (p : ℕ) → block_size * 0 + p ≡ p
    start p = omega arith
