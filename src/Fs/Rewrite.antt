-- ===== src/Fs/Rewrite.antt =====
-- The end of `fs_write` of Project5/fs.c: the chain keeps its length and the blocks are written.
use ec440_projects.Prelude.{
  ℕ, zero, suc, ◌+◌, ◌*◌, ◌/◌, ◌≤◌, ◌<◌, ◌≡◌, ◌⊎◌, inl, inr, refl, ap, ◌∙◌, true, false, Option,
  some, List, [], ◌∷◌, ℤ, pos, minus_one, arith, ltb, leb, eqb_ℤ, update-field, update-at, memcpy,
  length, if◌then◌else◌, fun_ext, Bool-cases, to_int, to_int_small, max, to_unsigned, first,
}
use ec440_projects.Run.{done}
use ec440_projects.Disk.{Image, disk_blocks, block_size}
use ec440_projects.Fs.{Fs, DirEntry, SuperBlock, max_f_num, max_f_size, has_head}
use ec440_projects.Fs.Chain.{Chain}
use ec440_projects.Fs.Data.{
  Buffer, read_chain, write_chain, chain_fuel, fs_write, extend, grow, rewrite, moved, write_back,
  clamp, end_of, resized,
}
use ec440_projects.Fs.Content.{
  image, with_image, load, store, read_chain-load, write_chain-disk, with_image-IsReady,
}
use ec440_projects.Fs.File.{IsFile, moved-IsFile}

-- The rounds that extend a chain do nothing while it has a block for each of them.
extend-stays :
    (fs : Option SuperBlock) (rounds b : ℕ) (fat : ℕ → ℤ)
    → b < disk_blocks
    → (rounds ≡ 0) ⊎ (eqb_ℤ (fat b) minus_one ≡ false)
    → extend fs rounds (pos b) fat ≡ done fat
unfolding extend grow
extend-stays fs zero b fat h c = refl
extend-stays fs (suc rounds) b fat h (inl c) = absurd (omega arith)
extend-stays fs (suc rounds) b fat h (inr c) =
    ground (arith, extend-stays fs rounds b fat h (inr c))

extend-Chain :
    (fs : Option SuperBlock) (rounds : ℕ) (k : ℤ) (fat : ℕ → ℤ) (bs : List ℕ)
    → Chain fat k bs
    → rounds < length bs
    → extend fs rounds k fat ≡ done fat
extend-Chain fs rounds k fat [] p h = elim h [ ]
extend-Chain fs rounds k fat (b ∷ []) p h =
    rw p.0 (extend-stays fs rounds b fat p.2 (inl (omega arith)))
extend-Chain fs rounds k fat (b ∷ c ∷ bs) p h =
    rw p.0 (extend-stays fs rounds b fat p.2 (inr (ground (arith, p.3.0))))

-- The buffer that `fs_write` writes back: the file with the new bytes in place.
abbrev pub merged : Fs → List ℕ → Buffer → ℕ → Buffer → ℕ → Buffer
merged s bs uninit o buf n = memcpy (load (image s.disk) bs 0 uninit) o buf 0 n

abbrev pub rewritten : Fs → ℕ → List ℕ → Buffer → ℕ → Buffer → ℕ → Fs
rewritten s f bs uninit o buf n =
    moved
      (record s {
        disk = with_image s.disk (store (image s.disk) bs 0 (merged s bs uninit o buf n));
      })
      f (pos (o + n))

write_back-store :
    (s : Fs) (f i : ℕ) (bs : List ℕ) (z o n : ℕ) (uninit buf : Buffer)
    → IsFile s f i bs z o
    → o + n ≤ z
    → write_back s f (length bs) (some (load (image s.disk) bs 0 uninit)) buf n
      ≡ done (pos n, rewritten s f bs uninit o buf n)
write_back-store s f i [] z o n uninit buf file h = absurd (omega (arith, file.blocks))
write_back-store s f i (b ∷ bs) z o n uninit buf file h =
    rw file.offset (rw inside (rw writes (rw sum (rw o_int (rw n_int)))))
  where
    inside : leb (o + n) (block_size * suc (length bs)) ≡ true
    inside = ground (arith, file.blocks)

    writes :
        write_chain
          (chain_fuel (suc (length bs)))
          s.fat
          (suc (length bs))
          (s.fildes f).file
          0
          (merged s (b ∷ bs) uninit o buf n)
          s.disk
        ≡ done (
          true,
          with_image s.disk (store (image s.disk) (b ∷ bs) 0 (merged s (b ∷ bs) uninit o buf n)),
        )
    writes =
        write_chain-disk (chain_fuel (suc (length bs))) s.fat (suc (length bs)) (s.fildes f).file 0
          _ s.disk b bs file.ready file.chain (omega arith) (omega arith)

    sum : end_of (s.fildes f).offset n ≡ o + n
    sum = rw file.offset (omega (arith, file.small))

    o_int : to_int (o + n) ≡ pos (o + n)
    o_int = to_int_small (o + n) (omega (arith, file.small))

    n_int : to_int n ≡ pos n
    n_int = to_int_small n (omega (arith, file.small))

pub rewrite-store :
    (s : Fs) (f i : ℕ) (bs : List ℕ) (z o n : ℕ) (uninit buf : Buffer)
    → IsFile s f i bs z o
    → o + n ≤ z
    → rewrite uninit f i buf n s ≡ done (pos n, rewritten s f bs uninit o buf n)
unfolding rewrite
rewrite-store s f i bs z o n uninit buf file h =
    rw file.size (rw (← file.blocks) (rw reads (write_back-store s f i bs z o n uninit buf file h)))
  where
    reads :
        read_chain (chain_fuel (length bs)) s.disk s.fat (length bs) (s.fildes f).file 0 uninit
        ≡ done (some (load (image s.disk) bs 0 uninit))
    reads =
        read_chain-load (chain_fuel (length bs)) s.disk s.fat (length bs) (s.fildes f).file 0 uninit
          bs file.ready file.chain (omega arith) (omega arith)

-- The entry has the size that the write leaves, and the same file.
pub resized-IsFile :
    (s : Fs) (f i : ℕ) (bs : List ℕ) (z o n : ℕ)
    → IsFile s f i bs z o
    → o + n ≤ max_f_size
    → (o + n) / block_size < length bs
    → IsFile (resized s i (o + n) s.fat) f i bs (max z (o + n)) o
resized-IsFile s f i bs z o n file fits room = record {
  descriptor = file.descriptor;
  opened = file.opened;
  entry = ap (λ p. first p max_f_num 0) same_heads ∙ file.entry;
  inside = file.inside;
  used = update-field (λ (d : DirEntry). d.used) s.dir i entry i refl ∙ file.used;
  size = ap (λ (d : DirEntry). d.size) (update-at s.dir i entry) ∙ new_size;
  offset = file.offset;
  chain = file.chain;
  blocks = omega (arith, file.blocks);
  small = omega (arith, file.small);
  below = omega (arith, file.below);
  ready = file.ready;
}
  where
    entry : DirEntry
    entry = record (s.dir i) {
      size = if ltb (to_unsigned 64 (s.dir i).size) (o + n) then to_int (o + n) else (s.dir i).size;
    }

    same_heads :
        has_head (resized s i (o + n) s.fat).dir (s.fildes f).file
        ≡ has_head s.dir (s.fildes f).file
    same_heads = fun_ext λ j.
        ap (λ h. eqb_ℤ h (s.fildes f).file)
          (update-field (λ (d : DirEntry). d.head) s.dir i entry j refl)

    new_size : entry.size ≡ pos (max z (o + n))
    new_size = rw file.size (
        let o_int = to_int_small (o + n) (omega arith) in
        let size : to_unsigned 64 (pos z) ≡ z = omega (arith, file.small) in
        rw size (elim (Bool-cases (ltb z (o + n))) [
          | inl e ↦ let m : o + n ≡ max z (o + n) = ground arith in rw e (o_int ∙ ap pos m)
          | inr e ↦ let m : z ≡ max z (o + n) = ground arith in rw e (ap pos m)
        ]))

pub fs_write-rewrite :
    (uninit buf : Buffer) (s : Fs) (f i : ℕ) (bs : List ℕ) (z o n : ℕ)
    → IsFile s f i bs z o
    → o + n ≤ max_f_size
    → (o + n) / block_size < length bs
    → fs_write uninit (pos f) buf n s ≡ rewrite uninit f i buf n (resized s i (o + n) s.fat)
unfolding fs_write
fs_write-rewrite uninit buf s f i bs z o n file fits room = ground (
  arith,
  file.descriptor,
  file.opened,
  file.entry,
  file.inside,
  file.used,
  ap (λ x. clamp x n) file.offset,
  ap (λ x. end_of x n) file.offset,
  clamped,
  sum,
  extend-Chain s.fs ((o + n) / block_size) (s.fildes f).file s.fat bs file.chain room,
)
  where
    sum : end_of (pos o) n ≡ o + n
    sum = omega arith

    clamped : clamp (pos o) n ≡ n
    clamped = ground (arith, sum)

pub rewritten-IsFile :
    (s : Fs) (f i : ℕ) (bs : List ℕ) (z o n : ℕ) (uninit buf : Buffer)
    → IsFile s f i bs z o
    → o + n ≤ z
    → IsFile (rewritten s f bs uninit o buf n) f i bs z (o + n)
rewritten-IsFile s f i bs z o n uninit buf file h = moved-IsFile _ f i bs z o (o + n) on_disk h
  where
    new_image : Image
    new_image = store (image s.disk) bs 0 (merged s bs uninit o buf n)

    on_disk : IsFile (record s { disk = with_image s.disk new_image }) f i bs z o
    on_disk = record {
      descriptor = file.descriptor;
      opened = file.opened;
      entry = file.entry;
      inside = file.inside;
      used = file.used;
      size = file.size;
      offset = file.offset;
      chain = file.chain;
      blocks = file.blocks;
      small = file.small;
      below = file.below;
      ready = with_image-IsReady s.disk new_image file.ready;
    }
