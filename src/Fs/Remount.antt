-- ===== src/Fs/Remount.antt =====
-- `umount_fs` of Project5/fs.c, and what a later `mount_fs` finds.
use ec440_projects.Prelude.{
  ℕ, ◌+◌, ◌-◌, ◌*◌, ◌%◌, ◌≤◌, ◌<◌, ◌≡◌, ◌≢◌, ◌⊎◌, inl, refl, sym, ap, subst, ◌∙◌, true, false, ◌&&◌,
  none, some, pos, ltb, leb, ◌==◌, arith, if◌then◌else◌, CString,
}
use ec440_projects.Run.{Run, done}
use ec440_projects.Disk.{Disk, Block, block_read, block_write, close_disk}
use ec440_projects.Disk.Io.{block_read-block_write}
use ec440_projects.Fs.{Fs, SuperBlock}
use ec440_projects.Fs.Data.{Buffer, slice}
use ec440_projects.Fs.Bytes.{super_bytes}
use ec440_projects.Fs.Format.{umount_fs, mount_fs, put_entries, put_pages, write_pages}
use ec440_projects.Fs.Encode.{IsEntry, IsInt, IsSuper}
use ec440_projects.Fs.Layout.{put_entries-HoldsEntry, get_fat-pages}
use ec440_projects.Fs.Pages.{IsUsable, block_write-IsUsable, open_disk-close_disk, write_pages-ok}
use ec440_projects.Fs.Mount.{IsHarmless, HoldsFs, mount_fs-Mounted}

-- The file system `name` is mounted with super block `sb`, whose regions lie one behind the other.
pub record IsMounted (name : CString) (sb : SuperBlock) (s : Fs) : Type 0 where
  pub mounted : s.mount ≡ true
  pub super : s.fs ≡ some sb
  pub usable : IsUsable name s.disk
  pub fits : IsSuper sb
  pub block_0 : Block
  pub reads_0 : block_read (pos 0) s.disk ≡ some block_0
  pub bytes_0 : (p : ℕ) → p < 20 → block_0 p ≡ super_bytes sb p
  pub dir_above : 0 < sb.dir_idx
  pub fat_above : sb.dir_idx < sb.fat_idx
  pub fat_below : sb.fat_idx + sb.fat_len ≤ 8192
  pub dir_room : 1 ≤ sb.dir_len
  pub fat_room : 8 ≤ sb.fat_len

-- The entries and the first page of the table fit the layout on disk.
pub record IsStorable (s : Fs) : Type 0 where
  pub entries : (q : ℕ) → q < 64 → IsEntry (s.dir q)
  pub table : (q : ℕ) → q < 1024 → IsInt (s.fat q)

-- What survives `umount_fs` and `mount_fs`.
pub record Remounted (name : CString) (sb : SuperBlock) (s s' : Fs) : Type 0 where
  pub mounted : s'.mount ≡ true
  pub super : s'.fs ≡ some sb
  pub usable : IsUsable name s'.disk
  pub entries : (q : ℕ) → q < 64 → s'.dir q ≡ s.dir q
  pub table : (i : ℕ) → i < 8192 → s'.fat i ≡ s.fat (i % 1024)
  pub closed : (f : ℕ) → f < 32 → (s'.fildes f).used ≡ false
  pub blocks :
      (c : ℕ)
      → c < 8192
      → c ≢ sb.dir_idx
      → (c < sb.fat_idx) ⊎ (sb.fat_idx + sb.fat_len ≤ c)
      → block_read (pos c) s'.disk ≡ block_read (pos c) s.disk

module _ (uninit : Buffer) (pad : ℕ → Buffer) (name : CString) (sb : SuperBlock) (s : Fs)
    (m : IsMounted name sb s) (st : IsStorable s) where
  -- What the disk holds after `umount_fs` wrote both tables.
  record Saved (d : Disk) : Type 0 where
    pub usable : IsUsable name d
    pub holds : HoldsFs sb s.dir (slice (put_pages s.fat sb.fat_len 0 uninit)) d
    pub others :
        (c : ℕ)
        → c < 8192
        → c ≢ sb.dir_idx
        → (c < sb.fat_idx) ⊎ (sb.fat_idx + sb.fat_len ≤ c)
        → block_read (pos c) d ≡ block_read (pos c) s.disk

  dir_block : Block
  dir_block = put_entries pad s.dir 64 0 uninit

  save :
      (d : Disk) × (write_pages sb.fat_len 0 sb.fat_idx
          (put_pages s.fat sb.fat_len 0 uninit)
          (block_write (pos sb.dir_idx) dir_block s.disk).1
        ≡ (true, d))
      × Saved d
  unfolding dir_block
  save =
      let w =
        block_write-IsUsable name s.disk sb.dir_idx dir_block m.usable
          (omega (arith, m.fat_above, m.fat_below)) in
      let (d, run, u, reads) =
        write_pages-ok name sb.fat_len 0 sb.fat_idx (put_pages s.fat sb.fat_len 0 uninit)
          (block_write (pos sb.dir_idx) dir_block s.disk).1 w (omega (arith, m.fat_below)) in
      (
        d,
        run,
        record {
          usable = u;
          holds = record {
            super = m.fits;
            block_0 = m.block_0;
            reads_0 =
                below d reads 0 (omega arith) (λ e. absurd (omega (arith, m.dir_above)))
                  (inl (omega (arith, m.dir_above, m.fat_above)))
                ∙ m.reads_0;
            bytes_0 = m.bytes_0;
            block_dir = dir_block;
            reads_dir = dir_reads d reads;
            pad = pad;
            entries = st.entries;
            bytes_dir =
                λ q l. put_entries-HoldsEntry pad s.dir 64 0 q uninit (omega arith) (omega arith);
            pages = m.fat_room;
            reads_fat = fat_reads d reads;
          };
          others = below d reads;
        },
      )
    where
      first_write :
          (c : ℕ)
          → c < 8192
          → block_read (pos c) (block_write (pos sb.dir_idx) dir_block s.disk).1
            ≡ (if sb.dir_idx == c then some dir_block else block_read (pos c) s.disk)
      first_write c l =
          (block_read-block_write s.disk sb.dir_idx c dir_block m.usable.ready
            (omega (arith, m.fat_above, m.fat_below)) l).1

      Reads : Disk → Type 0
      Reads d =
          (c : ℕ)
          → c < 8192
          → block_read (pos c) d ≡ (
              if leb (sb.fat_idx + 0) c && ltb c (sb.fat_idx + (0 + sb.fat_len))
              then some (slice (put_pages s.fat sb.fat_len 0 uninit) (c - sb.fat_idx))
              else block_read (pos c) (block_write (pos sb.dir_idx) dir_block s.disk).1)

      below :
          (d : Disk)
          → Reads d
          → (c : ℕ) → c < 8192
          → c ≢ sb.dir_idx
          → (c < sb.fat_idx) ⊎ (sb.fat_idx + sb.fat_len ≤ c)
          → block_read (pos c) d ≡ block_read (pos c) s.disk
      below d reads c l n o =
          let a : leb (sb.fat_idx + 0) c && ltb c (sb.fat_idx + (0 + sb.fat_len)) ≡ false =
            ground arith in
          let b : (sb.dir_idx == c) ≡ false = ground (arith, n) in
          reads c l ∙ rw a (first_write c l ∙ rw b)

      dir_reads : (d : Disk) → Reads d → block_read (pos sb.dir_idx) d ≡ some dir_block
      dir_reads d reads =
          let l : sb.dir_idx < 8192 = omega (arith, m.fat_above, m.fat_below) in
          let a : leb (sb.fat_idx + 0) sb.dir_idx ≡ false = ground (arith, m.fat_above) in
          let b : (sb.dir_idx == sb.dir_idx) ≡ true = ground arith in
          reads sb.dir_idx l ∙ rw a (first_write sb.dir_idx l ∙ rw b)

      fat_reads :
          (d : Disk)
          → Reads d
          → (g : ℕ) → g < sb.fat_len
          → block_read (pos (sb.fat_idx + g)) d
            ≡ some (slice (put_pages s.fat sb.fat_len 0 uninit) g)
      fat_reads d reads g l =
          let a : leb (sb.fat_idx + 0) (sb.fat_idx + g) ≡ true = ground arith in
          let b : ltb (sb.fat_idx + g) (sb.fat_idx + (0 + sb.fat_len)) ≡ true = ground arith in
          let z : sb.fat_idx + g - sb.fat_idx ≡ g = omega arith in
          reads (sb.fat_idx + g) (omega (arith, m.fat_below)) ∙ rw (a, b, z)

-- A mounted file system whose tables fit the layout on disk can be unmounted, and mounted again
-- where the writes behind `fildes` do no harm: both calls return 0. The directory and the data blocks
-- are as before and no descriptor is open. Entry `i` of the allocation table is the old entry
-- `i % 1024`, since every page was written from the first.
pub umount_fs-mount_fs :
    (overrun : ℕ → Fs → Run Fs) (uninit uninit' : Buffer) (pad : ℕ → Buffer)
    (blank_super sb : SuperBlock) (name : CString) (s : Fs)
    → IsHarmless overrun
    → IsMounted name sb s
    → IsStorable s
    → (s' s'' : Fs) × (umount_fs uninit pad s ≡ done (pos 0, s'))
      × (s'.mount ≡ false)
      × (mount_fs overrun uninit' blank_super (some name) s' ≡ done (pos 0, s''))
      × Remounted name sb s s''
unfolding umount_fs dir_block
umount_fs-mount_fs overrun uninit uninit' pad blank_super sb name s harmless m st =
    let (d, run, saved) = save uninit pad name sb s m st in
    let life = open_disk-close_disk name d saved.usable in
    let dir_l : sb.dir_idx < 8192 = omega (arith, m.fat_above, m.fat_below) in
    let w =
      (block_read-block_write s.disk sb.dir_idx sb.dir_idx (dir_block uninit pad name sb s m st)
        m.usable.ready dir_l dir_l).0 in
    let s₁ : Fs = record s { disk = (close_disk d).1; mount = false; fs = none } in
    let (s₂, mounts, md) =
      mount_fs-Mounted overrun uninit' blank_super sb name s.dir
        (slice (put_pages s.fat sb.fat_len 0 uninit)) d s₁ harmless life.1 saved.holds in
    let room : leb 4096 (sb.dir_len * 4096) ≡ true = dir_enough sb.dir_len m.dir_room in
    (
      s₁,
      s₂,
      rw (m.mounted, m.super, room, w, run, life.0),
      refl,
      mounts,
      record {
        mounted = md.mounted;
        super = md.super;
        usable = subst (λ x. IsUsable name x) (sym md.disk) saved.usable;
        entries = md.entries;
        table = λ i l.
            ap (λ f. f i) md.table
            ∙ get_fat-pages s.fat md.old_fat sb.fat_len i uninit md.bytes m.fat_room l st.table
                md.pages;
        closed = md.closed;
        blocks = λ c l n o. ap (block_read (pos c)) md.disk ∙ saved.others c l n o;
      },
    )
  where
    dir_enough : (n : ℕ) → 1 ≤ n → leb 4096 (n * 4096) ≡ true
    dir_enough n h = ground arith
