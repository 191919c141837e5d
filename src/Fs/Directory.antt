-- ===== src/Fs/Directory.antt =====
-- What the calls of Project5/fs.c mean for the directory as a set of names with sizes.
use ec440_projects.Prelude.{
  ℕ, zero, suc, ◌≤◌, ◌<◌, ◌≡◌, ◌≢◌, ◌⊎◌, inl, inr, refl, sym, ap, ◌∙◌, Bool, true, false, Option,
  none, some, List, ℤ, pos, negsuc, arith, ltb, ltb_ℤ, ◌==◌, update, CString, length, Bool-cases,
  str_eq_iff, eq_of_str_eq, IsFirst-of_lt,
}
use ec440_projects.Run.{Keeps, kept, Keeps-on, Keeps-access, Keeps-bind, Keeps-any}
use ec440_projects.Disk.{disk_blocks}
use ec440_projects.Fs.{Fs, max_f_num, max_f_name, has_name, find_name, find_free, fail, data_idx_of}
use ec440_projects.Fs.Table.{
  fs_create, fs_delete, scan_dir, create_at, created, free_chain, free_fuel, deleted_entry,
  delete_entry,
}
use ec440_projects.Fs.Create.{HasRoom, HasRoom-of_scan}
use ec440_projects.Fs.Invariant.{IsConsistent}

-- A file named `name` with `size` bytes is in the directory.
abbrev pub Lists : Fs → CString → ℤ → Type 0
Lists s name size =
    (i : ℕ) × (i < max_f_num)
    × ((s.dir i).used ≡ true)
    × ((s.dir i).name ≡ name)
    × ((s.dir i).size ≡ size)

abbrev pub Same : (CString → ℤ → Type 0) → (CString → ℤ → Type 0) → Type 0
Same before after = (n : CString) (z : ℤ) → (before n z → after n z) × (after n z → before n z)

-- A new file is empty and has a new name; the other files stay.
abbrev pub Adds : CString → (CString → ℤ → Type 0) → (CString → ℤ → Type 0) → Type 0
Adds name before after =
    ((z : ℤ) → before name z → ⊥)
    × Same (λ n z. ((n ≡ name) × (z ≡ pos 0)) ⊎ ((n ≢ name) × before n z)) after

abbrev pub Removes : CString → (CString → ℤ → Type 0) → (CString → ℤ → Type 0) → Type 0
Removes name before after = Same (λ n z. (n ≢ name) × before n z) after

-- The effect by the result: 0 where the call did its work.
abbrev pub Effect :
    ((CString → ℤ → Type 0) → (CString → ℤ → Type 0) → Type 0)
    → ℤ
    → (CString → ℤ → Type 0)
    → (CString → ℤ → Type 0)
    → Type 0
Effect work (pos zero) before after = work before after
Effect work (pos (suc n)) before after = Same before after
Effect work (negsuc n) before after = Same before after

Same-refl : (s : Fs) → Same (Lists s) (Lists s)
Same-refl s n z = (λ l. l, λ l. l)

created-Adds :
    (s : Fs) (name : CString) (u b : ℕ)
    → HasRoom s name u
    → Adds name (Lists s) (Lists (created s name u b))
created-Adds s name u b room = (absent, λ n z. (forth n z, back n z))
  where
    new : (i : ℕ) → i < max_f_num → (s.dir i).name ≢ name
    new i hi e = ground (arith, room.fresh i hi, (str_eq_iff (s.dir i).name name).1 e)

    absent : (z : ℤ) → Lists s name z → ⊥
    absent z (i, hi, used, e, _) = new i hi e

    self : (u == u) ≡ true
    self = ground arith

    forth :
        (n : CString) (z : ℤ)
        → ((n ≡ name) × (z ≡ pos 0)) ⊎ ((n ≢ name) × Lists s n z)
        → Lists (created s name u b) n z
    forth n z (inl (e, e')) = (u, room.inside, rw self refl, rw self (sym e), rw self (sym e'))
    forth n z (inr (ne, (i, hi, used, e, e'))) = at (Bool-cases (u == i))
      where
        at : ((u == i) ≡ true) ⊎ ((u == i) ≡ false) → Lists (created s name u b) n z
        at (inl h) =
            let same : u ≡ i = ground arith in
            absurd (clash (sym room.idle ∙ ap (λ j. (s.dir j).used) same ∙ used))
          where
            clash : false ≡ true → ⊥
            clash x = cc
        at (inr h) = (i, hi, rw h used, rw h e, rw h e')

    back :
        (n : CString) (z : ℤ)
        → Lists (created s name u b) n z
        → ((n ≡ name) × (z ≡ pos 0)) ⊎ ((n ≢ name) × Lists s n z)
    back n z (i, hi, used, e, e') = at (Bool-cases (u == i))
      where
        at :
            ((u == i) ≡ true) ⊎ ((u == i) ≡ false)
            → ((n ≡ name) × (z ≡ pos 0)) ⊎ ((n ≢ name) × Lists s n z)
        at (inl h) = inl (sym (rw h at e), sym (rw h at e'))
        at (inr h) =
            let e'' : (s.dir i).name ≡ n = rw h at e in
            inr (λ x. new i hi (e'' ∙ x), (i, hi, rw h at used, e'', rw h at e'))

deleted-Removes :
    (s : Fs) (chains : ℕ → List ℕ) (i : ℕ) (fat : ℕ → ℤ) (name : CString)
    → IsConsistent s chains
    → i < max_f_num
    → (s.dir i).name ≡ name
    → Removes name
        (Lists s)
        (Lists (record s { fat = fat; dir = update s.dir i (deleted_entry (s.dir i)) }))
deleted-Removes s chains i fat name c hi here = λ n z. (forth n z, back n z)
  where
    s' : Fs
    s' = record s { fat = fat; dir = update s.dir i (deleted_entry (s.dir i)) }

    forth : (n : CString) (z : ℤ) → (n ≢ name) × Lists s n z → Lists s' n z
    forth n z (ne, (j, hj, used, e, e')) = at (Bool-cases (i == j))
      where
        at : ((i == j) ≡ true) ⊎ ((i == j) ≡ false) → Lists s' n z
        at (inl h) =
            let same : i ≡ j = ground arith in
            absurd (ne (sym e ∙ ap (λ k. (s.dir k).name) (sym same) ∙ here))
        at (inr h) = (j, hj, rw h used, rw h e, rw h e')

    back : (n : CString) (z : ℤ) → Lists s' n z → (n ≢ name) × Lists s n z
    back n z (j, hj, used, e, e') = at (Bool-cases (i == j))
      where
        at : ((i == j) ≡ true) ⊎ ((i == j) ≡ false) → (n ≢ name) × Lists s n z
        at (inl h) = absurd (clash (rw h at used))
          where
            clash : false ≡ true → ⊥
            clash x = cc
        at (inr h) =
            let used' : (s.dir j).used ≡ true = rw h at used in
            let e'' : (s.dir j).name ≡ n = rw h at e in
            (
              λ x. absurd (ground (arith, c.files.names i j hi hj used' (here ∙ sym x ∙ sym e''))),
              (j, hj, used', e'', rw h at e'),
            )

-- On consistent tables `fs_create` refines the insertion of a new name with size 0: where it returns 0 the name was not
-- there and is now, and where it returns -1 the set of names and sizes is the same.
pub fs_create-Adds :
    (name : CString) (s : Fs) (chains : ℕ → List ℕ)
    → IsConsistent s chains
    → Keeps (λ r. Effect (Adds name) r.0 (Lists s) (Lists r.1)) (fs_create name s)
unfolding fs_create
fs_create-Adds name s chains c =
    Keeps-on _ _ _ (λ _. kept (Same-refl s))
      λ (short : ltb max_f_name (length name) ≡ false).
        scanned (scan_dir s.dir name max_f_num 0 max_f_num) refl (ground arith)
  where
    scanned :
        (o : Option ℕ)
        → scan_dir s.dir name max_f_num 0 max_f_num ≡ o
        → length name ≤ max_f_name
        → Keeps (λ r. Effect (Adds name) r.0 (Lists s) (Lists r.1)) (create_at name o s)
    scanned none e short = kept (Same-refl s)
    scanned (some u) e short =
        Keeps-on (u == max_f_num) (fail s) _ (λ _. kept (Same-refl s))
          λ (inside : (u == max_f_num) ≡ false).
            let room = HasRoom-of_scan s name u short e (ground arith) in
            let i = find_free c.files.sb.data_idx s.fat in
            Keeps-bind (data_idx_of s.fs) c.files.sb.data_idx _ (ap data_idx_of c.files.mounted)
              (Keeps-access (ltb i disk_blocks) i _ λ _. kept (created-Adds s name u i room))

-- On consistent tables `fs_delete` refines the removal of a name: where it returns 0 the other names
-- and sizes stay and the name is gone, and where it returns -1 the set is the same.
pub fs_delete-Removes :
    (name : CString) (s : Fs) (chains : ℕ → List ℕ)
    → IsConsistent s chains
    → Keeps (λ r. Effect (Removes name) r.0 (Lists s) (Lists r.1)) (fs_delete name s)
unfolding fs_delete
fs_delete-Removes name s chains c =
    let i = find_name s name in
    Keeps-access (ltb i max_f_num) i _ λ (inside : ltb i max_f_num ≡ true).
      Keeps-on (i == max_f_num) (fail s) _ (λ _. kept (Same-refl s))
        λ _.
          Keeps-on (ltb_ℤ (pos 0) (s.dir i).ref_cnt) (fail s) _ (λ _. kept (Same-refl s))
            λ _.
              Keeps-any (free_chain free_fuel (s.dir i).head s.fat) _
                λ freed. kept (deleted freed (ground arith))
  where
    i : ℕ
    i = find_name s name

    deleted :
        (r : Bool × (ℕ → ℤ))
        → i < max_f_num
        → Effect (Removes name) (delete_entry i r s).0 (Lists s) (Lists (delete_entry i r s).1)
    deleted (false, fat) hi = Same-refl s
    deleted (true, fat) hi =
        deleted-Removes s chains i fat name c hi
          (eq_of_str_eq (s.dir i).name name (IsFirst-of_lt (has_name s.dir name) max_f_num hi).hit)
