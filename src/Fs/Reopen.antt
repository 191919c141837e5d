-- ===== src/Fs/Reopen.antt =====
-- A file of Project5/fs.c that is opened and closed again.
use ec440_projects.Prelude.{
  ℕ, ◌<◌, ◌≡◌, ◌≢◌, refl, ◌==◌, false, minus_one, sym, ap, ◌∙◌, true, List, pos, suc_ℤ, pred_ℤ,
  pred-suc, arith, update, update-update, update-at, update_self, CString, IsFirst, first_found,
}
use ec440_projects.Run.{done}
use ec440_projects.Fs.{Fs, FileDescriptor, max_f_num, max_fildes, is_unused, find_head}
use ec440_projects.Fs.Table.{fs_open, fs_close, opened, closed, open_descriptor, closed_descriptor}
use ec440_projects.Fs.Open.{opened-IsConsistent, SameFiles-ref_cnt}
use ec440_projects.Fs.Invariant.{IsConsistent, IsFirst-name, IsFirst-head}

closed-opened :
    (s : Fs) (i k : ℕ)
    → closed (opened s i k) i k ≡ record s { fildes = update s.fildes k closed_descriptor }
closed-opened s i k = rw (fildes_eq, dir_eq)
  where
    fildes_eq :
        update (update s.fildes k (open_descriptor (s.dir i).head)) k closed_descriptor
        ≡ update s.fildes k closed_descriptor
    fildes_eq = update-update s.fildes k _ _

    dir_eq :
        update
          (opened s i k).dir
          i
          (record ((opened s i k).dir i) { ref_cnt = pred_ℤ ((opened s i k).dir i).ref_cnt })
        ≡ s.dir
    dir_eq = rw (update-at s.dir i (record (s.dir i) { ref_cnt = suc_ℤ (s.dir i).ref_cnt })) (
        update-update s.dir i _ _
        ∙ update_self s.dir i _ (ap (λ v. record (s.dir i) { ref_cnt = v }) (pred-suc _)))

fs_close-closed :
    (s : Fs) (i k : ℕ)
    → k < max_fildes
    → (s.fildes k).used ≡ true
    → find_head s (s.fildes k).file ≡ i
    → i < max_f_num
    → (s.dir i).used ≡ true
    → fs_close (pos k) s ≡ done (pos 0, closed s i k)
unfolding fs_close
fs_close-closed s i k hk open_k found hi busy = ground arith

-- Descriptor `k` of `s'` was opened on the file of entry `i` of `s`.
pub record Opened (s : Fs) (i k : ℕ) (s' : Fs) : Type 0 where
  pub used : (s'.fildes k).used ≡ true
  pub file : (s'.fildes k).file ≡ (s.dir i).head
  pub offset : (s'.fildes k).offset ≡ pos 0
  pub other_descriptors : (j : ℕ) → j ≢ k → s'.fildes j ≡ s.fildes j
  pub entry : s'.dir i ≡ record (s.dir i) { ref_cnt = suc_ℤ (s.dir i).ref_cnt }
  pub other_entries : (j : ℕ) → j ≢ i → s'.dir j ≡ s.dir j
  pub table : s'.fat ≡ s.fat
  pub disk : s'.disk ≡ s.disk
  pub super : s'.fs ≡ s.fs
  pub mounted : s'.mount ≡ s.mount

-- In `s'` descriptor `k` is not in use, and nothing else differs from `s`.
pub record Closed (s : Fs) (k : ℕ) (s' : Fs) : Type 0 where
  pub unused : (s'.fildes k).used ≡ false
  pub file : (s'.fildes k).file ≡ pos 0
  pub offset : (s'.fildes k).offset ≡ minus_one
  pub other_descriptors : (j : ℕ) → j ≢ k → s'.fildes j ≡ s.fildes j
  pub entries : s'.dir ≡ s.dir
  pub table : s'.fat ≡ s.fat
  pub disk : s'.disk ≡ s.disk
  pub super : s'.fs ≡ s.fs
  pub mounted : s'.mount ≡ s.mount

opened-Opened : (s : Fs) (i k : ℕ) → Opened s i k (opened s i k)
opened-Opened s i k =
    let at_k : (k == k) ≡ true = ground arith in
    let at_i : (i == i) ≡ true = ground arith in
    record {
      used = rw at_k refl;
      file = rw at_k refl;
      offset = rw at_k refl;
      other_descriptors = λ j n. let ne : (k == j) ≡ false = ground (arith, n) in rw ne refl;
      entry = rw at_i refl;
      other_entries = λ j n. let ne : (i == j) ≡ false = ground (arith, n) in rw ne refl;
      table = refl;
      disk = refl;
      super = refl;
      mounted = refl;
    }

reset-Closed :
    (s : Fs) (k : ℕ) → Closed s k (record s { fildes = update s.fildes k closed_descriptor })
reset-Closed s k =
    let at_k : (k == k) ≡ true = ground arith in
    record {
      unused = rw at_k refl;
      file = rw at_k refl;
      offset = rw at_k refl;
      other_descriptors = λ j n. let ne : (k == j) ≡ false = ground (arith, n) in rw ne refl;
      entries = refl;
      table = refl;
      disk = refl;
      super = refl;
      mounted = refl;
    }

-- On consistent tables a file in use opens while a descriptor is free: `fs_open` returns the lowest
-- free descriptor, which is then in use at offset 0 of the file's first block, the file's reference count
-- is one higher, and nothing else has changed. `fs_close` of it returns 0: the descriptor is not in
-- use then, with file 0 and offset -1, and everything else is as before the two calls.
pub fs_close-fs_open :
    (name : CString) (s : Fs) (chains : ℕ → List ℕ) (i k : ℕ)
    → IsConsistent s chains
    → i < max_f_num
    → (s.dir i).name ≡ name
    → (s.dir i).used ≡ true
    → IsFirst (is_unused s.fildes) max_fildes k
    → (t : Fs) × (u : Fs) × (fs_open name s ≡ done (pos k, t))
      × Opened s i k t
      × (fs_close (pos k) t ≡ done (pos 0, u))
      × Closed s k u
unfolding fs_open fs_close
fs_close-fs_open name s chains i k c hi named busy free = (
  opened s i k,
  record s { fildes = update s.fildes k closed_descriptor },
  opens,
  opened-Opened s i k,
  closes,
  reset-Closed s k,
)
  where
    opens : fs_open name s ≡ done (pos k, opened s i k)
    opens =
        rw (← named, first_found _ _ i (IsFirst-name c.files i hi busy), first_found _ _ k free)
          (ground (arith, hi, free.inside, busy))

    after : IsConsistent (opened s i k) chains
    after = opened-IsConsistent s chains c i k hi free.inside busy (ground (arith, free.hit))

    closes :
        fs_close (pos k) (opened s i k)
        ≡ done (pos 0, record s { fildes = update s.fildes k closed_descriptor })
    closes =
        fs_close-closed (opened s i k) i k free.inside (ap (λ (d : FileDescriptor). d.used) at_k)
          (ap (find_head (opened s i k)) (ap (λ (d : FileDescriptor). d.file) at_k ∙ sym head_i)
            ∙ first_found _ _ i (IsFirst-head after.files i hi used_i))
          hi used_i
        ∙ ap (λ t. done (pos 0, t)) (closed-opened s i k)
      where
        at_k : (opened s i k).fildes k ≡ open_descriptor (s.dir i).head
        at_k = update-at s.fildes k (open_descriptor (s.dir i).head)

        used_i : ((opened s i k).dir i).used ≡ true
        used_i = (SameFiles-ref_cnt s.dir i (suc_ℤ (s.dir i).ref_cnt)).used i ∙ busy

        head_i : ((opened s i k).dir i).head ≡ (s.dir i).head
        head_i = (SameFiles-ref_cnt s.dir i (suc_ℤ (s.dir i).ref_cnt)).head i
