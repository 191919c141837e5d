-- ===== src/Fs/Extend.antt =====
-- The loop of `fs_write` of Project5/fs.c that extends a file keeps the tables consistent.
use ec440_projects.Prelude.{
  ℕ, zero, suc, ◌<◌, ◌≡◌, ◌⊎◌, inl, inr, refl, sym, ap, ◌∙◌, true, false, Option, List, ℤ, pos,
  minus_one, arith, eqb_ℤ, eqb_ℤ_iff, ltb, ◌==◌, has, Bool-cases, if◌then◌else◌,
}
use ec440_projects.Run.{Keeps, kept, Keeps-on, Keeps-access, Keeps-bind, Keeps-then}
use ec440_projects.Disk.{disk_blocks}
use ec440_projects.Fs.{SuperBlock, DirEntry, max_f_num, find_free, data_idx_of}
use ec440_projects.Fs.Data.{grow, extend}
use ec440_projects.Fs.Preserve.{find_free-inside}
use ec440_projects.Fs.Invariant.{FilesFit}
use ec440_projects.Fs.Append.{chains', appended-FilesFit, has-chains', appended}

-- The tables fit together, for some chains, with block `k` in the chain of entry `i`.
pub record Grown (fs : Option SuperBlock) (dir : ℕ → DirEntry) (i : ℕ) (k : ℤ) (fat : ℕ → ℤ)
    : Type 0 where
  pub chains : ℕ → List ℕ
  pub files : FilesFit fs fat dir chains
  pub at : ℕ
  pub here : k ≡ pos at
  pub member : has at (chains i) ≡ true

grow-Grown :
    (fs : Option SuperBlock) (dir : ℕ → DirEntry) (i : ℕ) (k : ℤ) (fat : ℕ → ℤ)
    → i < max_f_num
    → (dir i).used ≡ true
    → Grown fs dir i k fat
    → Keeps (λ r. Grown fs dir i r.0 r.1) (grow fs k fat)
unfolding grow
grow-Grown fs dir i k fat hi busy g =
    let b = g.at in
    let j = find_free g.files.sb.data_idx fat in
    let e = g.here in
    rw e (
      Keeps-access (ltb b disk_blocks) b _ λ _.
        Keeps-on (eqb_ℤ (fat b) minus_one) _ _
          (λ last.
            Keeps-bind (data_idx_of fs) g.files.sb.data_idx _ (ap data_idx_of g.files.mounted)
              (kept (found last (Bool-cases (ltb j disk_blocks)))))
          (λ _. kept (rw (sym e) g)))
  where
    b : ℕ
    b = g.at

    j : ℕ
    j = find_free g.files.sb.data_idx fat

    Next : ℤ × (ℕ → ℤ) → Type 0
    Next r = Grown fs dir i r.0 r.1

    found :
        eqb_ℤ (fat b) minus_one ≡ true
        → (ltb j disk_blocks ≡ true) ⊎ (ltb j disk_blocks ≡ false)
        → Next (if ltb j disk_blocks then (pos j, appended fat b j) else (pos b, fat))
    found last (inr full) =
        rw full
          record { chains = g.chains; files = g.files; at = b; here = refl; member = g.member }
    found last (inl room) =
        let free = find_free-inside g.files.sb.data_idx fat (ground arith) in
        let end = (eqb_ℤ_iff (fat b) minus_one).0 last in
        let same : (j == j) ≡ true = ground arith in
        let self : (i == i) ≡ true = ground arith in
        rw room record {
          chains = chains' g.files i b j hi busy g.member end free;
          files = appended-FilesFit g.files i b j hi busy g.member end free;
          at = j;
          here = refl;
          member =
              has-chains' g.files i b j hi busy g.member end free i j ∙ ground (arith, self, same);
        }

-- Every round of the loop keeps the tables together, whatever the number of rounds.
pub extend-Grown :
    (fs : Option SuperBlock) (dir : ℕ → DirEntry) (i rounds : ℕ) (k : ℤ) (fat : ℕ → ℤ)
    → i < max_f_num
    → (dir i).used ≡ true
    → Grown fs dir i k fat
    → Keeps (λ fat'. (chains : ℕ → List ℕ) × FilesFit fs fat' dir chains) (extend fs rounds k fat)
unfolding extend
extend-Grown fs dir i zero k fat hi busy g = kept (g.chains, g.files)
extend-Grown fs dir i (suc rounds) k fat hi busy g =
    Keeps-then (grow fs k fat) _ (grow-Grown fs dir i k fat hi busy g)
      λ r g'. extend-Grown fs dir i rounds r.0 r.1 hi busy g'
