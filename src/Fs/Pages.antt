-- ===== src/Fs/Pages.antt =====
-- The loops of Project5/fs.c that move the pages of the allocation table, and the disk that the
-- functions leave closed and open again.
use ec440_projects.Prelude.{
  ℕ, zero, suc, ◌+◌, ◌-◌, ◌*◌, ◌≤◌, ◌<◌, ◌≡◌, ◌⊎◌, inl, inr, refl, ap, subst, ◌∙◌, true, false,
  ◌&&◌, Option, some, pos, minus_one, ltb, leb, eqb_ℤ, ◌==◌, arith, Bool-cases, if◌then◌else◌,
  CString, str_eq_refl,
}
use ec440_projects.Disk.{
  Disk, Block, disk_blocks, block_write, block_read, open_disk, close_disk, is_none,
}
use ec440_projects.Disk.Io.{IsReady, block_write-IsReady, block_read-block_write}
use ec440_projects.Fs.Data.{Buffer, slice, put_block}
use ec440_projects.Fs.Format.{write_pages, read_pages}
use ec440_projects.Fs.Layout.{memcpy-inside, memcpy-outside}

-- The open disk is the host file `name`, whose calls succeed and which can be opened again.
pub record IsUsable (name : CString) (d : Disk) : Type 0 where
  pub ready : IsReady d
  pub handle : d.handle ≡ name
  pub openable : d.os.open_fails name ≡ false
  pub exists : is_none (d.files name) ≡ false

pub block_write-IsUsable :
    (name : CString) (d : Disk) (b : ℕ) (buf : Block)
    → IsUsable name d
    → b < disk_blocks
    → IsUsable name (block_write (pos b) buf d).1
unfolding block_write
block_write-IsUsable name d b buf u h = record {
  ready = block_write-IsReady d (pos b) buf u.ready;
  handle = ground (arith, u.ready.seeks b, u.ready.writes b, u.ready.opened, u.handle);
  openable = ground (arith, u.ready.seeks b, u.ready.writes b, u.ready.opened, u.openable);
  exists = ground (
    arith,
    u.ready.seeks b,
    u.ready.writes b,
    u.ready.opened,
    u.exists,
    u.handle,
    str_eq_refl name,
  );
}

pub open_disk-close_disk :
    (name : CString) (d : Disk)
    → IsUsable name d
    → ((close_disk d).0 ≡ pos 0) × (open_disk (some name) (close_disk d).1 ≡ (pos 0, d))
unfolding close_disk open_disk
open_disk-close_disk name d u =
    (ground (arith, u.ready.opened), ground (arith, u.ready.opened, u.openable, u.exists, u.handle))

-- What a block reads as once the pages are written.
abbrev pub with_pages : ℕ → ℕ → Buffer → Disk → ℕ → Option Block
with_pages start n b d c =
    if leb start c && ltb c (start + n) then some (slice b (c - start)) else block_read (pos c) d

pub write_pages-ok :
    (name : CString) (n page start : ℕ) (b : Buffer) (d : Disk)
    → IsUsable name d
    → start + (page + n) ≤ 8192
    → (d' : Disk) × (write_pages n page start b d ≡ (true, d'))
      × IsUsable name d'
      × ((c : ℕ)
          → c < 8192
          → block_read (pos c) d' ≡ (
              if leb (start + page) c && ltb c (start + (page + n))
              then some (slice b (c - start))
              else block_read (pos c) d))
unfolding write_pages
write_pages-ok name zero page start b d u h = (
  d,
  refl,
  u,
  λ c l. let e : leb (start + page) c && ltb c (start + (page + 0)) ≡ false = ground arith in rw e,
)
write_pages-ok name (suc n) page start b d u h =
    let w =
      block_read-block_write d (start + page) (start + page) (slice b page) u.ready (omega arith)
        (omega arith) in
    let zero_back : eqb_ℤ (block_write (pos (start + page)) (slice b page) d).0 minus_one ≡ false =
      rw w.0 refl in
    let (d', run, u', reads) =
      write_pages-ok name n (page + 1) start b (block_write (pos (start + page)) (slice b page) d).1
        (block_write-IsUsable name d (start + page) (slice b page) u (omega arith)) (omega arith) in
    (
      d',
      rw (zero_back, write_pages) run,
      u',
      λ c l. reads c l ∙ page_of c l (Bool-cases (start + page == c)),
    )
  where
    page_of :
        (c : ℕ)
        → c < 8192
        → (((start + page == c) ≡ true) ⊎ ((start + page == c) ≡ false))
        → (if leb (start + (page + 1)) c && ltb c (start + (page + 1 + n))
            then some (slice b (c - start))
            else block_read (pos c) (block_write (pos (start + page)) (slice b page) d).1)
          ≡ (if leb (start + page) c && ltb c (start + (page + suc n))
              then some (slice b (c - start))
              else block_read (pos c) d)
    page_of c l e =
        let w : block_read (pos c) (block_write (pos (start + page)) (slice b page) d).1
            ≡ (if start + page == c then some (slice b page) else block_read (pos c) d) =
          (block_read-block_write d (start + page) c (slice b page) u.ready (omega arith) l).1 in
        rw w (choose e)
      where
        choose :
            (((start + page == c) ≡ true) ⊎ ((start + page == c) ≡ false))
            → (if leb (start + (page + 1)) c && ltb c (start + (page + 1 + n))
                then some (slice b (c - start))
                else if start + page == c
                then some (slice b page)
                else block_read (pos c) d)
              ≡ (if leb (start + page) c && ltb c (start + (page + suc n))
                  then some (slice b (c - start))
                  else block_read (pos c) d)
        choose (inl e) =
            let a : leb (start + (page + 1)) c ≡ false = ground arith in
            let x : leb (start + page) c ≡ true = ground arith in
            let y : ltb c (start + (page + suc n)) ≡ true = ground arith in
            let p : page ≡ c - start = ground arith in
            rw (a, e, x, y) (ap (λ g. some (slice b g)) p)
        choose (inr e) =
            let same : (leb (start + (page + 1)) c && ltb c (start + (page + 1 + n)))
                ≡ (leb (start + page) c && ltb c (start + (page + suc n))) =
              ground arith in
            rw (same, e)

-- Reading pages that can be read fills their part of the buffer.
pub read_pages-ok :
    (n page start : ℕ) (b : Buffer) (d : Disk) (blocks : ℕ → Block)
    → ((g : ℕ) → page ≤ g → g < page + n → block_read (pos (start + g)) d ≡ some (blocks g))
    → (b' : Buffer) × (read_pages n page start b d ≡ some b')
      × ((g r : ℕ) → page ≤ g → g < page + n → r < 4096 → b' (4096 * g + r) ≡ blocks g r)
      × ((p : ℕ) → p < 4096 * page → b' p ≡ b p)
unfolding read_pages
read_pages-ok zero page start b d blocks h =
    (b, refl, (λ g r lo hi l. absurd (omega arith)), λ p l. refl)
read_pages-ok (suc n) page start b d blocks h =
    let e : block_read (pos (start + page)) d ≡ some (blocks page) =
      h page (omega arith) (omega arith) in
    let (b', run, inside, before) =
      read_pages-ok n (page + 1) start (put_block b page (blocks page)) d blocks
        (λ g lo hi. h g (omega arith) (omega arith)) in
    (
      b',
      rw (e, read_pages) run,
      (λ g r lo hi l. page_of b' inside before g r lo hi l (Bool-cases (page == g))),
      λ p l. before p (omega arith) ∙ memcpy-outside b (blocks page) (4096 * page) 4096 p (inl l),
    )
  where
    page_of :
        (b' : Buffer)
        → ((g r : ℕ) → page + 1 ≤ g → g < page + 1 + n → r < 4096 → b' (4096 * g + r) ≡ blocks g r)
        → ((p : ℕ) → p < 4096 * (page + 1) → b' p ≡ put_block b page (blocks page) p)
        → (g r : ℕ) → page ≤ g
        → g < page + suc n
        → r < 4096
        → (((page == g) ≡ true) ⊎ ((page == g) ≡ false))
        → b' (4096 * g + r) ≡ blocks g r
    page_of b' inside before g r lo hi l (inr e) = inside g r (ground arith) (omega arith) l
    page_of b' inside before g r lo hi l (inl e) =
        let same : page ≡ g = ground arith in
        subst (λ x. b' (4096 * x + r) ≡ blocks x r) same
          (before (4096 * page + r) (omega arith)
            ∙ memcpy-inside b (blocks page) (4096 * page) 4096 r l)
