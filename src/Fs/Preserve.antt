-- ===== src/Fs/Preserve.antt =====
-- `fs_create` of Project5/fs.c keeps the tables consistent.
use ec440_projects.Prelude.{
  ℕ, ◌≤◌, ◌<◌, ◌≡◌, ◌≢◌, ◌⊎◌, inl, inr, refl, ap, ◌∙◌, subst, true, false, Option, none, some, List,
  [], ◌∷◌, ℤ, pos, ◌-◌, minus_one, arith, eqb_ℤ_iff, ltb, ◌==◌, has, update, CString, first-First,
  leb, length, Bool-cases, str_eq_iff,
}
use ec440_projects.Run.{Keeps, kept, Keeps-on, Keeps-access, Keeps-bind}
use ec440_projects.Disk.{disk_blocks}
use ec440_projects.Fs.{Fs, max_f_num, max_fildes, max_f_name, is_free, find_free, fail, data_idx_of}
use ec440_projects.Fs.Table.{scan_dir, create_at, fs_create, created}
use ec440_projects.Fs.Chain.{Chain, Chain-free, Chain-update}
use ec440_projects.Fs.Create.{HasRoom, IsNextFree, HasRoom-of_scan}
use ec440_projects.Fs.Invariant.{IsConsistent, refs, refers, refs-none}

module _ (s : Fs) (chains : ℕ → List ℕ) (c : IsConsistent s chains) (name : CString) (u b : ℕ)
    (room : HasRoom s name u) (free : IsNextFree c.files.sb.data_idx s.fat b) where
  b_pos : 0 < b
  b_pos = omega (arith, c.files.data_above, free.from)

  -- The free block is the first block of no entry.
  head-ne : (i : ℕ) → i < max_f_num → (s.dir i).head ≢ pos b
  head-ne i hi e = elim (Bool-cases (s.dir i).used) [
    | inr idle ↦ ground (arith, c.files.idle i hi idle, b_pos)
    | inl busy ↦ used_case (chains i) refl busy
  ]
    where
      used_case : (bs : List ℕ) → chains i ≡ bs → (s.dir i).used ≡ true → ⊥
      used_case [] same busy = c.files.nonempty i hi busy same
      used_case (x ∷ bs) same busy =
          let p : Chain s.fat (s.dir i).head (x ∷ bs) =
            subst (Chain s.fat (s.dir i).head) same (c.files.chain i hi busy) in
          let out = Chain-free s.fat (s.dir i).head (x ∷ bs) b p free.free in ground (arith, p.0)

  Chain-at :
      (i : ℕ)
      → ((u == i) ≡ true) ⊎ ((u == i) ≡ false)
      → i < max_f_num
      → ((created s name u b).dir i).used ≡ true
      → Chain
          (created s name u b).fat
          ((created s name u b).dir i).head
          (update chains u (b ∷ []) i)
  Chain-at i (inl e) hi used =
      let at_b : (b == b) ≡ true = ground arith in rw e (refl, b_pos, free.inside, rw at_b)
  Chain-at i (inr e) hi used =
      let p = c.files.chain i hi (rw e at used) in
      rw e (
        Chain-update s.fat (s.dir i).head (chains i) b minus_one
          (Chain-free s.fat (s.dir i).head (chains i) b p free.free) p)

  apart_at :
      (i j x : ℕ)
      → i < max_f_num
      → j < max_f_num
      → ((created s name u b).dir i).used ≡ true
      → ((created s name u b).dir j).used ≡ true
      → i ≢ j
      → has x (update chains u (b ∷ []) i) ≡ true
      → has x (update chains u (b ∷ []) j) ≡ false
  apart_at i j x hi hj v w ne m = ground (
    arith,
    c.files.apart i j x hi hj,
    λ (busy : (s.dir j).used ≡ true).
        Chain-free s.fat (s.dir j).head (chains j) b (c.files.chain j hj busy) free.free,
    λ (busy : (s.dir i).used ≡ true).
        Chain-free s.fat (s.dir i).head (chains i) b (c.files.chain i hi busy) free.free,
    λ (e : x ≡ b). ap (λ y. has y (chains i)) e,
    λ (e : x ≡ b). ap (λ y. has y (chains j)) e,
  )

  no_refs : refs s.fildes (pos b) max_fildes ≡ 0
  no_refs = refs-none s.fildes (pos b) max_fildes λ f hf. unreferred f hf (Bool-cases _)
    where
      unreferred :
          (f : ℕ)
          → f < max_fildes
          → (refers (s.fildes f) (pos b) ≡ true) ⊎ (refers (s.fildes f) (pos b) ≡ false)
          → refers (s.fildes f) (pos b) ≡ false
      unreferred f hf (inr e) = e
      unreferred f hf (inl e) =
          let (i, hi, busy, h) = c.counted.targets f hf (ground arith) in
          absurd (head-ne i hi (h ∙ (eqb_ℤ_iff (s.fildes f).file (pos b)).0 (ground arith)))

  target_at :
      (f : ℕ)
      → f < max_fildes
      → (s.fildes f).used ≡ true
      → (i : ℕ) × (i < max_f_num)
        × (((created s name u b).dir i).used ≡ true)
        × (((created s name u b).dir i).head ≡ (s.fildes f).file)
  target_at f hf open_f =
      let (i, hi, busy, h) = c.counted.targets f hf open_f in
      let e : (u == i) ≡ false = other i busy (Bool-cases (u == i)) in (i, hi, rw e busy, rw e h)
    where
      other :
          (i : ℕ)
          → (s.dir i).used ≡ true
          → ((u == i) ≡ true) ⊎ ((u == i) ≡ false)
          → (u == i) ≡ false
      other i busy (inr e) = e
      other i busy (inl e) =
          let same : u ≡ i = ground arith in cc (room.idle, busy, ap (λ j. (s.dir j).used) same)

  created-IsConsistent : IsConsistent (created s name u b) (update chains u (b ∷ []))
  created-IsConsistent = record {
    files = record {
      sb = c.files.sb;
      mounted = c.files.mounted;
      data_above = c.files.data_above;
      names = λ i j hi hj used e. ground (
        arith,
        c.files.names i j hi hj,
        room.fresh i hi,
        room.fresh j hj,
        (str_eq_iff (s.dir i).name name).1,
        (str_eq_iff (s.dir j).name name).1,
      );
      heads =
          λ i j hi hj used e. ground (arith, c.files.heads i j hi hj, head-ne i hi, head-ne j hj);
      blank = λ i hi idle. ground (arith, c.files.blank i hi);
      named = λ i hi used. ground (
        arith,
        c.files.named i hi,
        c.files.blank u room.inside room.idle,
        room.fresh u room.inside,
        (str_eq_iff (s.dir u).name name).1,
      );
      super_free = ground (arith, c.files.super_free, b_pos);
      idle = λ i hi idle. ground (arith, c.files.idle i hi);
      chain = λ i hi used. Chain-at i (Bool-cases (u == i)) hi used;
      nonempty = λ i hi used. ground (arith, c.files.nonempty i hi);
      apart = λ i j x hi hj v w ne m. apart_at i j x hi hj v w ne m;
    };
    counted = record {
      counts = λ i hi used. ground (arith, c.counted.counts i hi, no_refs);
      targets = λ f hf used. target_at f hf used;
    };
  }

-- The search of `fs_create` for a free block, where it ends inside the table.
pub find_free-inside :
    (data_idx : ℕ) (fat : ℕ → ℤ)
    → find_free data_idx fat < disk_blocks
    → IsNextFree data_idx fat (find_free data_idx fat)
find_free-inside data_idx fat h = elim (Bool-cases (leb data_idx disk_blocks)) [
  | inl below ↦
      let f =
        first-First (is_free fat) (disk_blocks - data_idx) data_idx disk_blocks (ground arith) in
      record {
        from = f.from;
        inside = h;
        free = (eqb_ℤ_iff _ _).0 (f.at (omega (arith, h)));
        before = λ j a l. f.before j a l;
      }
  | inr above ↦ absurd (
      ground (
        arith,
        first-First (is_free fat) (disk_blocks - data_idx) data_idx data_idx (ground arith),
      ))
]

-- Every call of `fs_create` that returns leaves consistent tables.
pub fs_create-IsConsistent :
    (name : CString) (s : Fs) (chains : ℕ → List ℕ)
    → IsConsistent s chains
    → Keeps (λ r. (chains' : ℕ → List ℕ) × IsConsistent r.1 chains') (fs_create name s)
unfolding fs_create
fs_create-IsConsistent name s chains c =
    Keeps-on _ _ _ (λ _. kept (chains, c))
      λ (short : ltb max_f_name (length name) ≡ false).
        scanned (scan_dir s.dir name max_f_num 0 max_f_num) refl (ground arith)
  where
    scanned :
        (o : Option ℕ)
        → scan_dir s.dir name max_f_num 0 max_f_num ≡ o
        → length name ≤ max_f_name
        → Keeps (λ r. (chains' : ℕ → List ℕ) × IsConsistent r.1 chains') (create_at name o s)
    scanned none e short = kept (chains, c)
    scanned (some u) e short =
        Keeps-on (u == max_f_num) (fail s) _ (λ _. kept (chains, c))
          λ (inside : (u == max_f_num) ≡ false).
            let room = HasRoom-of_scan s name u short e (ground arith) in
            let i = find_free c.files.sb.data_idx s.fat in
            Keeps-bind (data_idx_of s.fs) c.files.sb.data_idx _ (ap data_idx_of c.files.mounted) (
              Keeps-access (ltb i disk_blocks) i _ λ (free : ltb i disk_blocks ≡ true). kept (
                update chains u (i ∷ []),
                created-IsConsistent s chains c name u i room
                    (find_free-inside c.files.sb.data_idx s.fat (ground arith)),
              ))
