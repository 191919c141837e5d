-- ===== src/Fs/Delete.antt =====
-- `fs_delete` of Project5/fs.c.
use ec440_projects.Prelude.{
  ℕ, zero, suc, ◌<◌, ◌≡◌, ◌≢◌, refl, true, false, List, [], ◌∷◌, has, ◌==◌, ℤ, pos, negsuc,
  minus_one, arith, ltb, ltb_ℤ, update, CString, IsFirst, first_found, first_absent,
}
use ec440_projects.Run.{done, fault, out_of_fuel, Ends, Ends-of_ne}
use ec440_projects.Disk.{disk_blocks}
use ec440_projects.Fs.{Fs, max_f_num, has_name, find_name, fail}
use ec440_projects.Fs.Table.{fs_delete, free_chain, free_fuel, deleted_entry}
use ec440_projects.Fs.Chain.{Chain, freed, taken, taken-le, taken-free, free_chain-step}

-- The loop ends whatever the table holds, a cycle included.
free_chain-ends :
    (fuel : ℕ) (k : ℤ) (fat : ℕ → ℤ)
    → taken fat disk_blocks < fuel
    → free_chain fuel k fat ≢ out_of_fuel
unfolding free_chain
free_chain-ends zero k fat h = elim h [ ]
free_chain-ends (suc fuel) (negsuc b) fat h = ground arith
free_chain-ends (suc fuel) (pos b) fat h =
    ground
      (arith, free_chain-ends fuel (fat b) (update fat b (pos 0)), taken-free fat disk_blocks b)

-- `fs_delete` returns or faults on every state: no table makes its loop run for ever.
pub fs_delete-Ends : (name : CString) (s : Fs) → Ends (fs_delete name s)
unfolding fs_delete
fs_delete-Ends name s = Ends-of_ne _ (
    ground (
      arith,
      free_chain-ends free_fuel (s.dir (find_name s name)).head s.fat,
      taken-le s.fat disk_blocks,
    ))

-- A name in no entry makes `fs_delete` read past the directory.
fs_delete-absent :
    (name : CString) (s : Fs)
    → ((i : ℕ) → i < max_f_num → has_name s.dir name i ≡ false)
    → fs_delete name s ≡ fault
unfolding fs_delete
fs_delete-absent name s absent = rw (first_absent (has_name s.dir name) max_f_num absent)

-- A file with open descriptors is not deleted: the call returns -1 and changes nothing.
pub fs_delete-open :
    (name : CString) (s : Fs) (i : ℕ)
    → IsFirst (has_name s.dir name) max_f_num i
    → ltb_ℤ (pos 0) (s.dir i).ref_cnt ≡ true
    → fs_delete name s ≡ fail s
unfolding fs_delete
fs_delete-open name s i f e = rw (first_found (has_name s.dir name) max_f_num i f) (ground arith)

-- The call as one step of the state.
pub fs_delete-done :
    (name : CString) (s : Fs) (i b : ℕ) (bs : List ℕ)
    → IsFirst (has_name s.dir name) max_f_num i
    → ltb_ℤ (pos 0) (s.dir i).ref_cnt ≡ false
    → Chain s.fat (s.dir i).head (b ∷ bs)
    → fs_delete name s
      ≡ done (
        pos 0,
        record s { fat = freed (b ∷ bs) s.fat; dir = update s.dir i (deleted_entry (s.dir i)) },
      )
unfolding fs_delete
fs_delete-done name s i b bs f e c = rw (first_found (has_name s.dir name) max_f_num i f) (
    ground (
      arith,
      f.inside,
      free_chain-step free_fuel s.fat b bs (refl, c.1, c.2, c.3),
      taken-le s.fat disk_blocks,
      c.0,
    ))

-- What `fs_delete` leaves of `s`, for the file of entry `i` with the blocks `bs`.
pub record Deleted (s : Fs) (i : ℕ) (bs : List ℕ) (s' : Fs) : Type 0 where
  pub blocks : (x : ℕ) → has x bs ≡ true → s'.fat x ≡ pos 0
  pub other_blocks : (x : ℕ) → has x bs ≡ false → s'.fat x ≡ s.fat x
  pub unused : (s'.dir i).used ≡ false
  pub nameless : (s'.dir i).name ≡ []
  pub empty : (s'.dir i).size ≡ pos 0
  pub headless : (s'.dir i).head ≡ pos 0
  pub counted : (s'.dir i).ref_cnt ≡ (s.dir i).ref_cnt
  pub other_entries : (j : ℕ) → j ≢ i → s'.dir j ≡ s.dir j
  pub descriptors : s'.fildes ≡ s.fildes
  pub disk : s'.disk ≡ s.disk
  pub super : s'.fs ≡ s.fs
  pub mounted : s'.mount ≡ s.mount

-- A file with no open descriptor is deleted: where entry `i` is the first of that name and its chain
-- has the blocks `b ∷ bs`, the call returns 0. The table entries of these blocks are 0 then and no other
-- changes. The entry is not in use, has no name, size 0 and first block 0, and no other entry changes;
-- neither do the descriptors, the disk and the super block.
pub fs_delete-frees :
    (name : CString) (s : Fs) (i b : ℕ) (bs : List ℕ)
    → IsFirst (has_name s.dir name) max_f_num i
    → ltb_ℤ (pos 0) (s.dir i).ref_cnt ≡ false
    → Chain s.fat (s.dir i).head (b ∷ bs)
    → (s' : Fs) × (fs_delete name s ≡ done (pos 0, s')) × Deleted s i (b ∷ bs) s'
fs_delete-frees name s i b bs f e c =
    let self : (i == i) ≡ true = ground arith in
    (
      _,
      fs_delete-done name s i b bs f e c,
      record {
        blocks = λ x h. rw h refl;
        other_blocks = λ x h. rw h refl;
        unused = rw self refl;
        nameless = rw self refl;
        empty = rw self refl;
        headless = rw self refl;
        counted = rw self refl;
        other_entries = λ j n. let other : (i == j) ≡ false = ground (arith, n) in rw other refl;
        descriptors = refl;
        disk = refl;
        super = refl;
        mounted = refl;
      },
    )

-- The call where the search runs past the directory, and at a first block that ends it at once.
pub fs_delete-past :
    (name : CString) (s : Fs) → ltb (find_name s name) max_f_num ≡ false → fs_delete name s ≡ fault
unfolding fs_delete
fs_delete-past name s e = ground arith

module _ (name : CString) (s : Fs) (i : ℕ) (f : IsFirst (has_name s.dir name) max_f_num i)
    (e : ltb_ℤ (pos 0) (s.dir i).ref_cnt ≡ false) where
  pub fs_delete-fault : free_chain free_fuel (s.dir i).head s.fat ≡ fault → fs_delete name s ≡ fault
  unfolding fs_delete
  fs_delete-fault r = rw (first_found _ _ i f) (ground (arith, f.inside))

  pub fs_delete-free :
      free_chain free_fuel (s.dir i).head s.fat ≡ done (false, s.fat)
      → fs_delete name s ≡ done (minus_one, s)
  unfolding fs_delete
  fs_delete-free r = rw (first_found _ _ i f) (ground (arith, f.inside))
