-- ===== src/Fs/Content.antt =====
-- What the chain loops of Project5/fs.c read and write: the content of a file by byte.
use ec440_projects.Prelude.{
  ℕ, zero, suc, ◌+◌, ◌-◌, ◌*◌, ◌≤◌, ◌<◌, ◌≡◌, inl, inr, refl, ap, ◌∙◌, true, false, ◌&&◌, some,
  List, [], ◌∷◌, ℤ, pos, arith, ltb, leb, ◌==◌, has, update, update-at, length, if◌then◌else◌,
  Bool-cases, str_eq_refl, fun_ext,
}
use ec440_projects.Run.{done}
use ec440_projects.Disk.{
  Disk, Image, Block, disk_blocks, block_size, block_read, block_write, image_or_empty, update_file,
}
use ec440_projects.Disk.Io.{IsReady}
use ec440_projects.Fs.Chain.{Chain, Chain-distinct}
use ec440_projects.Fs.Data.{Buffer, slice, put_block, read_chain, write_chain}

abbrev pub image : Disk → Image
image d = image_or_empty (d.files d.handle)

abbrev pub with_image : Disk → Image → Disk
with_image d img = record d { files = update_file d.files d.handle img }

-- The bytes of the blocks of a list, one block after the other.
pub content : Image → List ℕ → ℕ → ℕ
content img [] p = 0
content img (b ∷ bs) p = if ltb p block_size then img b p else content img bs (p - block_size)

-- The buffer after the blocks of a list were read into it from its block `j` on.
pub load : Image → List ℕ → ℕ → Buffer → Buffer
load img [] j buffer = buffer
load img (b ∷ bs) j buffer = load img bs (suc j) (put_block buffer j (img b))

-- The image after the blocks of the buffer were written to those of a list.
pub store : Image → List ℕ → ℕ → Buffer → Image
store img [] j buffer = img
store img (b ∷ bs) j buffer = store (update img b (slice buffer j)) bs (suc j) buffer

pub load_byte :
    (img : Image) (bs : List ℕ) (j : ℕ) (buffer : Buffer) (p : ℕ)
    → load img bs j buffer p ≡ (
        if leb (block_size * j) p && ltb p (block_size * (j + length bs))
        then content img bs (p - block_size * j)
        else buffer p)
unfolding load content
load_byte img [] j buffer p = ground arith
load_byte img (b ∷ bs) j buffer p =
    load_byte img bs (suc j) (put_block buffer j (img b)) p
    ∙ ground (arith, ap (content img bs) later, ap (img b) here)
  where
    later : p - block_size * suc j ≡ p - block_size * j - block_size
    later = omega arith

    here : 0 + (p - block_size * j) ≡ p - block_size * j
    here = omega arith

abbrev pub Distinct : List ℕ → Type 0
Distinct [] = Unit {0}
Distinct (b ∷ bs) = (has b bs ≡ false) × Distinct bs

pub Chain-Distinct : (fat : ℕ → ℤ) (k : ℤ) (bs : List ℕ) → Chain fat k bs → Distinct bs
Chain-Distinct fat k [] p = tt
Chain-Distinct fat k (b ∷ bs) p = (Chain-distinct fat k b bs p, Chain-Distinct fat (fat b) bs p.3)

-- A block outside the list is not written.
pub store-outside :
    (img : Image) (bs : List ℕ) (j : ℕ) (buffer : Buffer) (c : ℕ)
    → has c bs ≡ false
    → store img bs j buffer c ≡ img c
unfolding store
store-outside img [] j buffer c out = refl
store-outside img (b ∷ bs) j buffer c out =
    let e : (b == c) ≡ false = ground arith in
    store-outside (update img b (slice buffer j)) bs (suc j) buffer c (ground arith) ∙ rw e

content-same :
    (img img' : Image) (bs : List ℕ) (p : ℕ)
    → ((b : ℕ) → has b bs ≡ true → img' b ≡ img b)
    → content img' bs p ≡ content img bs p
unfolding content
content-same img img' [] p same = refl
content-same img img' (b ∷ bs) p same =
    let at_b : (b == b) ≡ true = ground arith in
    let here : img' b ≡ img b = same b (rw at_b) in
    ground (
      arith,
      ap (λ f. f p) here,
      content-same img img' bs (p - block_size) (λ c m. same c (ground arith)),
    )

-- What is written is the content from then on.
pub content-store :
    (img : Image) (bs : List ℕ) (j : ℕ) (buffer : Buffer) (p : ℕ)
    → Distinct bs
    → p < block_size * length bs
    → content (store img bs j buffer) bs p ≡ buffer (block_size * j + p)
unfolding content store
content-store img [] j buffer p d h = absurd (omega arith)
content-store img (b ∷ bs) j buffer p d h =
    let img' = update img b (slice buffer j) in
    let here : store img' bs (suc j) buffer b ≡ slice buffer j =
      store-outside img' bs (suc j) buffer b d.0 ∙ update-at img b (slice buffer j) in
    elim (Bool-cases (ltb p block_size)) [
      | inl e ↦ rw (e, here)
      | inr e ↦ rw e (
          content-store img' bs (suc j) buffer (p - block_size) d.1 (ground arith)
          ∙ ap buffer (ground arith))
    ]

module _ (d : Disk) (ready : IsReady d) where
  block_read-image : (b : ℕ) → b < disk_blocks → block_read (pos b) d ≡ some (image d b)
  unfolding block_read
  block_read-image b h = ground (arith, ready.opened, ready.seeks b, ready.reads b)

  block_write-image :
      (b : ℕ) (block : Block)
      → b < disk_blocks
      → block_write (pos b) block d ≡ (pos 0, with_image d (update (image d) b block))
  unfolding block_write
  block_write-image b block h = ground (arith, ready.opened, ready.seeks b, ready.writes b)

-- On an open disk the first loop reads the blocks of the chain, where the buffer has room for them.
pub read_chain-load :
    (fuel : ℕ) (d : Disk) (fat : ℕ → ℤ) (n : ℕ) (k : ℤ) (j : ℕ) (buffer : Buffer) (bs : List ℕ)
    → IsReady d
    → Chain fat k bs
    → j + length bs ≤ n
    → length bs < fuel
    → read_chain fuel d fat n k j buffer ≡ done (some (load (image d) bs j buffer))
unfolding read_chain load
read_chain-load zero d fat n k j buffer bs ready p room h = elim h [ ]
read_chain-load (suc fuel) d fat n k j buffer [] ready p room h = rw p
read_chain-load (suc fuel) d fat n k j buffer (b ∷ bs) ready p room h = ground (
  arith,
  p.0,
  ap (λ x. block_read x d) p.0,
  block_read-image d ready b p.2,
  p.2,
  read_chain-load fuel d fat n (fat b) (suc j) (put_block buffer j (image d b)) bs ready p.3
      (omega arith) (omega arith),
)

with_image-with_image :
    (d : Disk) (img img' : Image) → with_image (with_image d img) img' ≡ with_image d img'
with_image-with_image d img img' = ap (λ f. record d { files = f }) (fun_ext λ m. ground arith)

pub image-with_image : (d : Disk) (img : Image) → image (with_image d img) ≡ img
image-with_image d img = let e = str_eq_refl d.handle in rw e

pub with_image-IsReady : (d : Disk) (img : Image) → IsReady d → IsReady (with_image d img)
with_image-IsReady d img r = record {
  opened = r.opened;
  seeks = r.seeks;
  reads = r.reads;
  writes = r.writes;
}

block_write-with_image :
    (d : Disk) (img : Image) (b : ℕ) (block : Block)
    → IsReady d
    → b < disk_blocks
    → block_write (pos b) block (with_image d img) ≡ (pos 0, with_image d (update img b block))
block_write-with_image d img b block r h =
    block_write-image (with_image d img) (with_image-IsReady d img r) b block h
    ∙ ap (λ e. (pos 0, e))
        (with_image-with_image d img _
          ∙ ap (λ i. with_image d (update i b block)) (image-with_image d img))

-- The second loop writes the blocks of the buffer to those of the chain, and nothing else.
write_chain-store :
    (fuel : ℕ) (fat : ℕ → ℤ) (n : ℕ) (k : ℤ) (j : ℕ) (buffer : Buffer) (d : Disk) (img : Image)
    (bs : List ℕ)
    → IsReady d
    → Chain fat k bs
    → j + length bs ≤ n
    → length bs < fuel
    → write_chain fuel fat n k j buffer (with_image d img)
      ≡ done (true, with_image d (store img bs j buffer))
unfolding write_chain store
write_chain-store zero fat n k j buffer d img bs ready p room h = elim h [ ]
write_chain-store (suc fuel) fat n k j buffer d img [] ready p room h = rw p
write_chain-store (suc fuel) fat n k j buffer d img (b ∷ bs) ready p room h =
    let next : block_write k (slice buffer j) (with_image d img)
        ≡ (pos 0, with_image d (update img b (slice buffer j))) =
      ap (λ x. block_write x (slice buffer j) (with_image d img)) p.0
      ∙ block_write-with_image d img b (slice buffer j) ready p.2 in
    ground (
      arith,
      p.0,
      next,
      p.2,
      write_chain-store fuel fat n (fat b) (suc j) buffer d (update img b (slice buffer j)) bs ready
          p.3 (omega arith) (omega arith),
    )

pub write_chain-disk :
    (fuel : ℕ) (fat : ℕ → ℤ) (n : ℕ) (k : ℤ) (j : ℕ) (buffer : Buffer) (d : Disk) (b : ℕ)
    (bs : List ℕ)
    → IsReady d
    → Chain fat k (b ∷ bs)
    → j + suc (length bs) ≤ n
    → suc (length bs) < fuel
    → write_chain fuel fat n k j buffer d
      ≡ done (true, with_image d (store (image d) (b ∷ bs) j buffer))
unfolding write_chain store
write_chain-disk zero fat n k j buffer d b bs ready p room h = elim h [ ]
write_chain-disk (suc fuel) fat n k j buffer d b bs ready p room h =
    let next : block_write k (slice buffer j) d
        ≡ (pos 0, with_image d (update (image d) b (slice buffer j))) =
      ap (λ x. block_write x (slice buffer j) d) p.0
      ∙ block_write-image d ready b (slice buffer j) p.2 in
    ground (
      arith,
      p.0,
      next,
      p.2,
      write_chain-store fuel fat n (fat b) (suc j) buffer d (update (image d) b (slice buffer j)) bs
          ready p.3 (omega arith) (omega arith),
    )
