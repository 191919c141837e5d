-- ===== src/Fs/Transfer.antt =====
-- The functions of Project5/fs.c that move data and offsets keep the tables consistent.
use ec440_projects.Prelude.{
  ℕ, ◌+◌, ◌<◌, ◌≡◌, refl, sym, ap, ◌∙◌, Bool, true, false, not, ◌||◌, Option, none, some, List, [],
  ◌∷◌, ℤ, pos, negsuc, minus_one, arith, eqb_ℤ_iff, ltb, ltb_ℤ, leb, ◌==◌, ◌/◌, ◌*◌, has,
  if◌then◌else◌, IsFirst-of_lt, to_int, to_unsigned,
}
use ec440_projects.Run.{done, Keeps, kept, faulted, Keeps-on, Keeps-access, Keeps-then, Keeps-any}
use ec440_projects.Disk.{Disk, block_size}
use ec440_projects.Fs.{Fs, max_f_num, max_fildes, find_head, has_head, fail}
use ec440_projects.Fs.Table.{fs_lseek, fs_get_filesize, is_invalid}
use ec440_projects.Fs.Data.{
  Buffer, ReadResult, fs_read, fs_write, moved, resized, rewrite, deliver, write_back, written,
  read_chain, write_chain, extend, clamp, end_of, num_blocks_of, offset_of, chain_fuel,
}
use ec440_projects.Fs.Chain.{Chain}
use ec440_projects.Fs.Invariant.{IsConsistent, FilesFit, FilesFit-SameFiles}
use ec440_projects.Fs.Extend.{Grown, extend-Grown}
use ec440_projects.Fs.Offsets.{
  RefsFit-Same, SameTargets-refl, Fits, Fits-moved, Fits-disk, SameFiles-resized, ref_cnt-resized,
}

written-Fits : (s : Fs) (f n : ℕ) (w : Bool × Disk) → Fits s → Fits (written s f n w).1
written-Fits s f n (false, d) c = Fits-disk s d c
written-Fits s f n (true, d) c =
    Fits-moved (record s { disk = d }) f (to_int (end_of (s.fildes f).offset n)) (Fits-disk s d c)

write_back-Fits :
    (s : Fs) (f n : ℕ) (r : Option Buffer) (buf : Buffer) (nbyte : ℕ)
    → Fits s
    → Keeps (λ r. Fits r.1) (write_back s f n r buf nbyte)
write_back-Fits s f n none buf nbyte c = kept c
write_back-Fits s f n (some buffer) buf nbyte c = Keeps-any (offset_of (s.fildes f).offset) _ λ o.
    Keeps-access (leb (o + nbyte) (block_size * n)) o _ λ _.
      Keeps-any (write_chain _ s.fat n (s.fildes f).file 0 _ s.disk) _
        λ w. kept (written-Fits s f nbyte w c)

rewrite-Fits :
    (uninit : Buffer) (f i : ℕ) (buf : Buffer) (nbyte : ℕ) (s : Fs)
    → Fits s
    → Keeps (λ r. Fits r.1) (rewrite uninit f i buf nbyte s)
unfolding rewrite
rewrite-Fits uninit f i buf nbyte s c = Keeps-any (num_blocks_of (s.dir i).size) _ λ n.
    Keeps-any (read_chain (chain_fuel n) s.disk s.fat n (s.fildes f).file 0 uninit) _
      λ r. write_back-Fits s f n r buf nbyte c

-- The block that a descriptor of an open file names is in the chain of the file.
Grown-target :
    (s : Fs) (chains : ℕ → List ℕ) (i : ℕ) (k : ℤ)
    → IsConsistent s chains
    → i < max_f_num
    → (s.dir i).used ≡ true
    → (s.dir i).head ≡ k
    → Grown s.fs s.dir i k s.fat
Grown-target s chains i k c hi busy e = first_block (chains i) refl (c.files.chain i hi busy)
  where
    first_block :
        (bs : List ℕ) → chains i ≡ bs → Chain s.fat (s.dir i).head bs → Grown s.fs s.dir i k s.fat
    first_block [] same p = absurd (c.files.nonempty i hi busy same)
    first_block (b ∷ bs) same p = record {
      chains = chains;
      files = c.files;
      at = b;
      here = sym e ∙ p.0;
      member = ap (has b) same ∙ ground arith;
    }

-- Every call of `fs_write` that returns leaves tables that fit together, also where the disk is
-- full or a transfer fails: a block that it adds to a file was free, and in no other file.
pub fs_write-IsConsistent :
    (uninit : Buffer) (fildes_i : ℤ) (buf : Buffer) (nbyte : ℕ) (s : Fs) (chains : ℕ → List ℕ)
    → IsConsistent s chains
    → Keeps (λ r. Fits r.1) (fs_write uninit fildes_i buf nbyte s)
unfolding fs_write
fs_write-IsConsistent uninit (negsuc f) buf nbyte s chains c = faulted
fs_write-IsConsistent uninit (pos f) buf nbyte s chains c =
    let i = find_head s (s.fildes f).file in
    let n = clamp (s.fildes f).offset nbyte in
    let total = end_of (s.fildes f).offset n in
    Keeps-access (ltb f max_fildes) f _ λ _.
      Keeps-on (is_invalid s (pos f) f) (fail s) _ (λ _. kept (chains, c))
        λ _. Keeps-access (ltb i max_f_num) i _ λ (found : ltb i max_f_num ≡ true).
          Keeps-on (i == max_f_num || not (s.dir i).used) (fail s) _ (λ _. kept (chains, c))
            λ (busy : i == max_f_num || not (s.dir i).used ≡ false).
              let hi : i < max_f_num = ground arith in
              let u : (s.dir i).used ≡ true = ground (arith, busy) in
              let first_i = IsFirst-of_lt (has_head s.dir (s.fildes f).file) max_f_num hi in
              Keeps-then (extend s.fs (total / block_size) (s.fildes f).file s.fat) _
                (extend-Grown s.fs s.dir i (total / block_size) (s.fildes f).file s.fat hi u (
                  Grown-target s chains i (s.fildes f).file c hi u ((eqb_ℤ_iff _ _).0 first_i.hit)))
                λ fat fits.
                  rewrite-Fits uninit f i buf n (resized s i total fat)
                    (resized-Fits i total fat fits)
  where
    resized-Fits :
        (i total : ℕ) (fat : ℕ → ℤ)
        → (chains' : ℕ → List ℕ) × FilesFit s.fs fat s.dir chains'
        → Fits (resized s i total fat)
    resized-Fits i total fat (chains', files) = (
      chains',
      record {
        files = FilesFit-SameFiles (SameFiles-resized s i total fat) files;
        counted =
            RefsFit-Same (SameTargets-refl s.fildes) (SameFiles-resized s i total fat)
              (ref_cnt-resized s i total fat) c.counted;
      },
    )

deliver-Fits :
    (s : Fs) (f i n : ℕ) (r : Option Buffer) (buf : Buffer) (nbyte : ℕ)
    → Fits s
    → Keeps (λ r. Fits r.2) (deliver s f i n r buf nbyte)
deliver-Fits s f i n none buf nbyte c = kept c
deliver-Fits s f i n (some buffer) buf nbyte c = Keeps-any (offset_of (s.fildes f).offset) _ λ o.
    Keeps-access (leb (o + nbyte) (block_size * n)) o _ λ _.
      Keeps-any (offset_of (s.dir i).size) _ λ size.
        kept
          (branch (ltb (to_unsigned 64 (s.dir i).size) (end_of (s.fildes f).offset nbyte)) _ _ _ _)
  where
    Delivered : ReadResult → Type 0
    Delivered r = Fits r.2

    branch :
        (b : Bool) (x y : ℤ) (v w : Buffer)
        → Delivered (
            if b
            then (x, v, moved s f (s.dir i).size)
            else (y, w, moved s f (to_int (end_of (s.fildes f).offset nbyte))))
    branch true x y v w = Fits-moved s f (s.dir i).size c
    branch false x y v w = Fits-moved s f (to_int (end_of (s.fildes f).offset nbyte)) c

pub fs_read-Fits :
    (uninit : Buffer) (fildes_i : ℤ) (buf : Buffer) (nbyte : ℕ) (s : Fs)
    → Fits s
    → Keeps (λ r. Fits r.2) (fs_read uninit fildes_i buf nbyte s)
unfolding fs_read
fs_read-Fits uninit (negsuc f) buf nbyte s c = faulted
fs_read-Fits uninit (pos f) buf nbyte s c =
    let i = find_head s (s.fildes f).file in
    Keeps-access (ltb f max_fildes) f _ λ _.
      Keeps-on (is_invalid s (pos f) f) (done (minus_one, buf, s)) _ (λ _. kept c)
        λ _.
          Keeps-on (nbyte == 0) (done (minus_one, buf, s)) _ (λ _. kept c)
            λ _. Keeps-access (ltb i max_f_num) i _ λ _.
              Keeps-on (not (s.dir i).used) (done (minus_one, buf, s)) _ (λ _. kept c)
                λ _. Keeps-any (num_blocks_of (s.dir i).size) _ λ n.
                  Keeps-any (read_chain (chain_fuel n) s.disk s.fat n (s.fildes f).file 0 uninit) _
                    λ r. deliver-Fits s f i n r buf nbyte c

pub fs_lseek-Fits :
    (fildes_i offset : ℤ) (s : Fs) → Fits s → Keeps (λ r. Fits r.1) (fs_lseek fildes_i offset s)
unfolding fs_lseek
fs_lseek-Fits (negsuc f) offset s c = faulted
fs_lseek-Fits (pos f) offset s c =
    let i = find_head s (s.fildes f).file in
    Keeps-access (ltb f max_fildes) f _ λ _.
      Keeps-on (not (s.fildes f).used) (fail s) _ (λ _. kept c)
        λ _.
          Keeps-on (ltb_ℤ offset (pos 0)) (fail s) _ (λ _. kept c)
            λ _. Keeps-access (ltb i max_f_num) i _ λ _.
              Keeps-on (ltb_ℤ (s.dir i).size offset) (fail s) _ (λ _. kept c)
                λ _. kept (Fits-moved s f offset c)

pub fs_get_filesize-Fits :
    (fildes_i : ℤ) (s : Fs) → Fits s → Keeps (λ r. Fits r.1) (fs_get_filesize fildes_i s)
unfolding fs_get_filesize
fs_get_filesize-Fits (negsuc f) s c = faulted
fs_get_filesize-Fits (pos f) s c =
    let i = find_head s (s.fildes f).file in
    Keeps-access (ltb f max_fildes) f _ λ _.
      Keeps-on (not (s.fildes f).used) (fail s) _ (λ _. kept c)
        λ _. Keeps-access (ltb i max_f_num) i _ λ _. kept c
