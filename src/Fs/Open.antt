-- ===== src/Fs/Open.antt =====
-- `fs_open` and `fs_close` of Project5/fs.c.
use ec440_projects.Prelude.{
  ℕ, ◌<◌, ◌≡◌, ◌⊎◌, inl, inr, refl, sym, ◌∙◌, true, false, not, List, ℤ, pos, negsuc, suc_ℤ, pred_ℤ,
  arith, eqb_ℤ_iff, ltb, ◌==◌, update, update-field, CString, first-le, IsFirst-of_lt, Bool-cases,
}
use ec440_projects.Run.{Run, done, on, Keeps, kept, faulted, Keeps-on, Keeps-access}
use ec440_projects.Fs.{
  Fs, DirEntry, max_f_num, max_fildes, has_name, has_head, is_unused, find_name, find_head,
  find_unused, fail,
}
use ec440_projects.Fs.Table.{
  fs_open, fs_close, opened, closed, open_descriptor, closed_descriptor, is_invalid,
}
use ec440_projects.Fs.Invariant.{IsConsistent, SameFiles, FilesFit-SameFiles, refs, refs-update}

-- A new reference count leaves the entries what they are.
pub SameFiles-ref_cnt :
    (dir : ℕ → DirEntry) (i : ℕ) (v : ℤ)
    → SameFiles dir (update dir i (record (dir i) { ref_cnt = v }))
SameFiles-ref_cnt dir i v = record {
  used = λ j. update-field (λ (d : DirEntry). d.used) dir i (record (dir i) { ref_cnt = v }) j refl;
  name = λ j. update-field (λ (d : DirEntry). d.name) dir i (record (dir i) { ref_cnt = v }) j refl;
  head = λ j. update-field (λ (d : DirEntry). d.head) dir i (record (dir i) { ref_cnt = v }) j refl;
}

module _ (s : Fs) (chains : ℕ → List ℕ) (c : IsConsistent s chains) where
  pub opened-IsConsistent :
      (i k : ℕ)
      → i < max_f_num
      → k < max_fildes
      → (s.dir i).used ≡ true
      → (s.fildes k).used ≡ false
      → IsConsistent (opened s i k) chains
  opened-IsConsistent i k hi hk busy free = record {
    files = FilesFit-SameFiles same c.files;
    counted = record {
      counts = λ j hj u. count j hj (sym (same.used j) ∙ u) (Bool-cases (i == j));
      targets = λ f hf u. target f hf u (Bool-cases (k == f));
    };
  }
    where
      same : SameFiles s.dir (opened s i k).dir
      same = SameFiles-ref_cnt s.dir i (suc_ℤ (s.dir i).ref_cnt)

      count :
          (j : ℕ)
          → j < max_f_num
          → (s.dir j).used ≡ true
          → ((i == j) ≡ true) ⊎ ((i == j) ≡ false)
          → ((opened s i k).dir j).ref_cnt
            ≡ pos (refs (opened s i k).fildes ((opened s i k).dir j).head max_fildes)
      count j hj u (inl e) = rw e (
          ground (
            arith,
            c.counted.counts i hi busy,
            refs-update s.fildes (s.dir i).head max_fildes k (open_descriptor (s.dir i).head) hk,
            (eqb_ℤ_iff (s.dir i).head (s.dir i).head).1 refl,
          ))
      count j hj u (inr e) = rw e (
          ground (
            arith,
            c.counted.counts j hj u,
            refs-update s.fildes (s.dir j).head max_fildes k (open_descriptor (s.dir i).head) hk,
            c.files.heads i j hi hj u,
            (eqb_ℤ_iff (s.dir i).head (s.dir j).head).0,
          ))

      target :
          (f : ℕ)
          → f < max_fildes
          → ((opened s i k).fildes f).used ≡ true
          → ((k == f) ≡ true) ⊎ ((k == f) ≡ false)
          → (j : ℕ) × (j < max_f_num)
            × (((opened s i k).dir j).used ≡ true)
            × (((opened s i k).dir j).head ≡ ((opened s i k).fildes f).file)
      target f hf u (inl e) = (i, hi, same.used i ∙ busy, rw e (same.head i))
      target f hf u (inr e) = elsewhere (c.counted.targets f hf (rw e at u))
        where
          elsewhere :
              (j : ℕ) × (j < max_f_num)
                × ((s.dir j).used ≡ true)
                × ((s.dir j).head ≡ (s.fildes f).file)
              → (j : ℕ) × (j < max_f_num)
                × (((opened s i k).dir j).used ≡ true)
                × (((opened s i k).dir j).head ≡ ((opened s i k).fildes f).file)
          elsewhere (j, hj, v, h) = (j, hj, same.used j ∙ v, rw e (same.head j ∙ h))

  closed-IsConsistent :
      (i k : ℕ)
      → i < max_f_num
      → k < max_fildes
      → (s.dir i).used ≡ true
      → (s.fildes k).used ≡ true
      → (s.dir i).head ≡ (s.fildes k).file
      → IsConsistent (closed s i k) chains
  closed-IsConsistent i k hi hk busy busy' on_file = record {
    files = FilesFit-SameFiles same c.files;
    counted = record {
      counts = λ j hj u. count j hj (sym (same.used j) ∙ u) (Bool-cases (i == j));
      targets = λ f hf u. target f hf u (Bool-cases (k == f));
    };
  }
    where
      same : SameFiles s.dir (closed s i k).dir
      same = SameFiles-ref_cnt s.dir i (pred_ℤ (s.dir i).ref_cnt)

      count :
          (j : ℕ)
          → j < max_f_num
          → (s.dir j).used ≡ true
          → ((i == j) ≡ true) ⊎ ((i == j) ≡ false)
          → ((closed s i k).dir j).ref_cnt
            ≡ pos (refs (closed s i k).fildes ((closed s i k).dir j).head max_fildes)
      count j hj u (inl e) = rw e (
          ground (
            arith,
            c.counted.counts i hi busy,
            refs-update s.fildes (s.dir i).head max_fildes k closed_descriptor hk,
            (eqb_ℤ_iff (s.fildes k).file (s.dir i).head).1 (sym on_file),
          ))
      count j hj u (inr e) = rw e (
          ground (
            arith,
            c.counted.counts j hj u,
            refs-update s.fildes (s.dir j).head max_fildes k closed_descriptor hk,
            c.files.heads i j hi hj u,
            (eqb_ℤ_iff (s.fildes k).file (s.dir j).head).0,
          ))

      target :
          (f : ℕ)
          → f < max_fildes
          → ((closed s i k).fildes f).used ≡ true
          → ((k == f) ≡ true) ⊎ ((k == f) ≡ false)
          → (j : ℕ) × (j < max_f_num)
            × (((closed s i k).dir j).used ≡ true)
            × (((closed s i k).dir j).head ≡ ((closed s i k).fildes f).file)
      target f hf u (inl e) = cc (rw e at u)
      target f hf u (inr e) = elsewhere (c.counted.targets f hf (rw e at u))
        where
          elsewhere :
              (j : ℕ) × (j < max_f_num)
                × ((s.dir j).used ≡ true)
                × ((s.dir j).head ≡ (s.fildes f).file)
              → (j : ℕ) × (j < max_f_num)
                × (((closed s i k).dir j).used ≡ true)
                × (((closed s i k).dir j).head ≡ ((closed s i k).fildes f).file)
          elsewhere (j, hj, v, h) = (j, hj, same.used j ∙ v, rw e (same.head j ∙ h))

-- The call leaves the tables consistent wherever it returns, with the same chains.
abbrev pub KeepsTables : (ℕ → List ℕ) → Run (ℤ × Fs) → Type 0
KeepsTables chains = Keeps (λ r. IsConsistent r.1 chains)

-- `fs_open` keeps the tables consistent on every branch: in particular the reference counts go on
-- counting the open descriptors.
pub fs_open-IsConsistent :
    (name : CString) (s : Fs) (chains : ℕ → List ℕ)
    → IsConsistent s chains
    → KeepsTables chains (fs_open name s)
unfolding fs_open
fs_open-IsConsistent name s chains c =
    Keeps-on _ _ _ (λ _. kept c)
      λ (here : (find_name s name == max_f_num) ≡ false).
        Keeps-on _ _ _ (λ _. kept c)
          λ (busy : not (s.dir (find_name s name)).used ≡ false).
            Keeps-access _ _ _ λ (room : ltb (find_unused s) max_fildes ≡ true).
              Keeps-on (find_unused s == max_fildes) (fail s)
                (done (pos (find_unused s), opened s (find_name s name) (find_unused s)))
                (λ _. kept c)
                λ _.
                  let k_lt : find_unused s < max_fildes = ground arith in
                  let k = IsFirst-of_lt (is_unused s.fildes) max_fildes k_lt in
                  kept (
                    opened-IsConsistent s chains c (find_name s name) (find_unused s)
                      (ground (arith, first-le (has_name s.dir name) max_f_num)) k_lt (ground arith)
                      (ground (arith, k.hit)))

-- `fs_close` keeps the tables consistent on every branch.
pub fs_close-IsConsistent :
    (fildes_i : ℤ) (s : Fs) (chains : ℕ → List ℕ)
    → IsConsistent s chains
    → KeepsTables chains (fs_close fildes_i s)
unfolding fs_close
fs_close-IsConsistent (negsuc f) s chains c = faulted
fs_close-IsConsistent (pos f) s chains c =
    let i = find_head s (s.fildes f).file in
    Keeps-access _ _ _ λ (hf : ltb f max_fildes ≡ true).
      Keeps-on _ _ _ (λ _. kept c)
        λ (valid : is_invalid s (pos f) f ≡ false).
          Keeps-access _ _ _ λ (found : ltb i max_f_num ≡ true).
            Keeps-on (i == max_f_num) (fail s)
              (on (not (s.dir i).used) (fail s) (done (pos 0, closed s i f))) (λ _. kept c)
              λ _.
                Keeps-on (not (s.dir i).used) (fail s) (done (pos 0, closed s i f)) (λ _. kept c)
                  λ (busy : not (s.dir i).used ≡ false).
                    let i_lt : i < max_f_num = ground arith in
                    let first_i = IsFirst-of_lt (has_head s.dir (s.fildes f).file) max_f_num i_lt in
                    kept (
                      closed-IsConsistent s chains c i f i_lt (ground arith) (ground arith)
                        (ground arith) ((eqb_ℤ_iff _ _).0 first_i.hit))
