-- ===== src/Fs/Remove.antt =====
-- `fs_delete` of Project5/fs.c keeps the tables consistent.
use ec440_projects.Prelude.{
  ℕ, ◌<◌, ◌≡◌, ◌≢◌, ◌⊎◌, inl, inr, refl, ap, subst, true, false, List, [], ◌∷◌, pos, arith,
  eqb_ℤ_iff, ltb, ltb_ℤ, ◌==◌, update, CString, IsFirst-of_lt, Bool-cases,
}
use ec440_projects.Run.{Keeps, kept, faulted}
use ec440_projects.Disk.{disk_blocks}
use ec440_projects.Fs.{Fs, max_f_num, max_fildes, find_name}
use ec440_projects.Fs.Table.{fs_delete, deleted_entry}
use ec440_projects.Fs.Chain.{Chain, freed, Chain-pos, Chain-freed, free_chain-idle}
use ec440_projects.Fs.Delete.{
  fs_delete-open, fs_delete-done, fs_delete-past, fs_delete-fault, fs_delete-free,
}
use ec440_projects.Fs.Invariant.{IsConsistent, refs-some}

module _ (s : Fs) (chains : ℕ → List ℕ) (c : IsConsistent s chains) (u : ℕ) (hu : u < max_f_num)
    (busy : (s.dir u).used ≡ true) (unreferred : ltb_ℤ (pos 0) (s.dir u).ref_cnt ≡ false) where
  head-ne-zero : (i : ℕ) → i < max_f_num → (s.dir i).used ≡ true → (s.dir i).head ≢ pos 0
  head-ne-zero i hi used e =
      absurd (ground (arith, Chain-pos s.fat (s.dir i).head (chains i) (c.files.chain i hi used)))

  -- No descriptor is open on the file.
  target-ne :
      (f i : ℕ)
      → f < max_fildes
      → (s.fildes f).used ≡ true
      → (s.dir i).head ≡ (s.fildes f).file
      → (u == i) ≡ false
  target-ne f i hf open_f h = decide (Bool-cases (u == i))
    where
      decide : ((u == i) ≡ true) ⊎ ((u == i) ≡ false) → (u == i) ≡ false
      decide (inr e) = e
      decide (inl e) =
          let same : u ≡ i = ground arith in
          absurd (
            ground (
              arith,
              c.counted.counts u hu busy,
              refs-some s.fildes (s.dir u).head max_fildes f hf,
              (eqb_ℤ_iff (s.fildes f).file (s.dir u).head).1,
              ap (λ j. (s.dir j).head) same,
            ))

  abbrev deleted : Fs
  deleted = record s {
    fat = freed (chains u) s.fat;
    dir = update s.dir u (deleted_entry (s.dir u));
  }

  Chain-at_deleted :
      (i : ℕ)
      → ((u == i) ≡ true) ⊎ ((u == i) ≡ false)
      → i < max_f_num
      → (deleted.dir i).used ≡ true
      → Chain deleted.fat (deleted.dir i).head (chains i)
  Chain-at_deleted i (inl e) hi used = cc
  Chain-at_deleted i (inr e) hi used =
      let on : (s.dir i).used ≡ true = rw e at used in
      rw e (
        Chain-freed s.fat (s.dir i).head (chains i) (chains u)
          (λ x m. c.files.apart i u x hi hu on busy (ground arith) m) (c.files.chain i hi on))

  target_at_deleted :
      (f : ℕ)
      → f < max_fildes
      → (s.fildes f).used ≡ true
      → (i : ℕ) × (i < max_f_num)
        × ((deleted.dir i).used ≡ true)
        × ((deleted.dir i).head ≡ (s.fildes f).file)
  target_at_deleted f hf open_f =
      let (i, hi, on, h) = c.counted.targets f hf open_f in
      let e = target-ne f i hf open_f h in (i, hi, rw e on, rw e h)

  deleted-IsConsistent : IsConsistent deleted chains
  deleted-IsConsistent = record {
    files = record {
      sb = c.files.sb;
      mounted = c.files.mounted;
      data_above = c.files.data_above;
      names = λ i j hi hj used e. ground (arith, c.files.names i j hi hj, c.files.named j hj);
      heads = λ i j hi hj used e. ground (arith, c.files.heads i j hi hj, head-ne-zero j hj);
      blank = λ i hi idle. ground (arith, c.files.blank i hi);
      named = λ i hi used. ground (arith, c.files.named i hi);
      super_free = ground (arith, c.files.super_free);
      idle = λ i hi idle. ground (arith, c.files.idle i hi);
      chain = λ i hi used. Chain-at_deleted i (Bool-cases (u == i)) hi used;
      nonempty = λ i hi used. ground (arith, c.files.nonempty i hi);
      apart = λ i j x hi hj v w ne m. ground (arith, c.files.apart i j x hi hj);
    };
    counted = record {
      counts = λ i hi used. ground (arith, c.counted.counts i hi);
      targets = λ f hf used. target_at_deleted f hf used;
    };
  }

-- Every call of `fs_delete` that returns leaves consistent tables.
pub fs_delete-IsConsistent :
    (name : CString) (s : Fs) (chains : ℕ → List ℕ)
    → IsConsistent s chains
    → Keeps (λ r. IsConsistent r.1 chains) (fs_delete name s)
fs_delete-IsConsistent name s chains c = found (Bool-cases (ltb i max_f_num))
  where
    i : ℕ
    i = find_name s name

    Kept : Type 0
    Kept = Keeps (λ r. IsConsistent r.1 chains) (fs_delete name s)

    idle_entry : i < max_f_num → (s.dir i).used ≡ false → Kept
    idle_entry hi off = elim (Bool-cases (ltb_ℤ (pos 0) (s.dir i).ref_cnt)) [
      | inl on ↦ rw (fs_delete-open name s i (IsFirst-of_lt _ _ hi) on) (kept c)
      | inr no_refs ↦
          elim (free_chain-idle disk_blocks (s.dir i).head s.fat c.files.super_free
            (c.files.idle i hi off)) [
              | inl e ↦ rw (fs_delete-fault name s i (IsFirst-of_lt _ _ hi) no_refs e) faulted
              | inr e ↦ rw (fs_delete-free name s i (IsFirst-of_lt _ _ hi) no_refs e) (kept c)
            ]
    ]

    used_entry : (bs : List ℕ) → chains i ≡ bs → i < max_f_num → (s.dir i).used ≡ true → Kept
    used_entry [] e hi on = absurd (c.files.nonempty i hi on e)
    used_entry (b ∷ bs) e hi on = elim (Bool-cases (ltb_ℤ (pos 0) (s.dir i).ref_cnt)) [
      | inl open_i ↦ rw (fs_delete-open name s i (IsFirst-of_lt _ _ hi) open_i) (kept c)
      | inr no_refs ↦
          rw
            (fs_delete-done name s i b bs (IsFirst-of_lt _ _ hi) no_refs
              (subst (Chain s.fat (s.dir i).head) e (c.files.chain i hi on)))
            (kept (
              subst
                (λ cs.
                  IsConsistent
                    (record s {
                      fat = freed cs s.fat;
                      dir = update s.dir i (deleted_entry (s.dir i));
                    })
                    chains)
                e (deleted-IsConsistent s chains c i hi on no_refs)))
    ]

    found : (ltb i max_f_num ≡ true) ⊎ (ltb i max_f_num ≡ false) → Kept
    found (inr past) = rw (fs_delete-past name s past) faulted
    found (inl inside) = elim (Bool-cases (s.dir i).used) [
      | inl on ↦ used_entry (chains i) refl (ground arith) on
      | inr off ↦ idle_entry (ground arith) off
    ]
