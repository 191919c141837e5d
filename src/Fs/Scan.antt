-- ===== src/Fs/Scan.antt =====
-- The search of `fs_create` of Project5/fs.c over the directory.
use ec440_projects.Prelude.{
  ℕ, zero, suc, ◌+◌, ◌≤◌, ◌<◌, ◌≡◌, ◌⊎◌, inl, inr, refl, ap, subst, sym, if◌then◌else◌, true, false,
  not, none, some, arith, ◌==◌, CString, Bool-cases,
}
use ec440_projects.Fs.{DirEntry, has_name}
use ec440_projects.Fs.Table.{scan_dir}

module _ (dir : ℕ → DirEntry) (name : CString) where
  pub scan_dir-used :
      (n i unused end : ℕ)
      → i + n ≡ end
      → ((j : ℕ) → i ≤ j → j < end → has_name dir name j ≡ false)
      → ((j : ℕ) → i ≤ j → j < end → (dir j).used ≡ true)
      → scan_dir dir name n i unused ≡ some unused
  unfolding scan_dir
  scan_dir-used zero i unused end e fresh busy = refl
  scan_dir-used (suc n) i unused end e fresh busy = ground (
    arith,
    fresh i (omega arith) (omega arith),
    busy i (omega arith) (omega arith),
    scan_dir-used n (i + 1) unused end (omega arith) (λ j a b. fresh j (omega arith) b)
        (λ j a b. busy j (omega arith) b),
  )

  -- The scan ends with the last unused entry.
  pub scan_dir-last :
      (n i unused end u : ℕ)
      → i + n ≡ end
      → i ≤ u
      → u < end
      → ((j : ℕ) → i ≤ j → j < end → has_name dir name j ≡ false)
      → (dir u).used ≡ false
      → ((j : ℕ) → u < j → j < end → (dir j).used ≡ true)
      → scan_dir dir name n i unused ≡ some u
  unfolding scan_dir
  scan_dir-last zero i unused end u e a b fresh idle busy = absurd (omega arith)
  scan_dir-last (suc n) i unused end u e a b fresh idle busy = elim (Bool-cases (i == u)) [
    | inl same ↦
        let s : i ≡ u = ground arith in
        ground (
          arith,
          fresh i (omega arith) (omega arith),
          ap (λ j. (dir j).used) s,
          scan_dir-used n (i + 1) i end (omega arith) (λ j c d. fresh j (omega arith) d)
              (λ j c d. busy j (omega arith) d),
        )
    | inr other ↦
        let later : i + 1 ≤ u = ground arith in
        let rest = λ (v : ℕ).
          scan_dir-last n (i + 1) v end u (omega arith) later b (λ j c d. fresh j (omega arith) d)
            idle busy in
        ground (arith, fresh i (omega arith) (omega arith), rest i, rest unused)
  ]

  -- Where an entry has the name, the scan says so.
  pub scan_dir-taken :
      (n i unused end k : ℕ)
      → i + n ≡ end
      → i ≤ k
      → k < end
      → has_name dir name k ≡ true
      → scan_dir dir name n i unused ≡ none
  unfolding scan_dir
  scan_dir-taken zero i unused end k e a b hit = absurd (omega arith)
  scan_dir-taken (suc n) i unused end k e a b hit = elim (Bool-cases (i == k)) [
    | inl same ↦ let s : i ≡ k = ground arith in ground (arith, ap (λ j. has_name dir name j) s)
    | inr other ↦
        let rest = λ (v : ℕ). scan_dir-taken n (i + 1) v end k (omega arith) (ground arith) b hit in
        ground (arith, rest i, rest unused)
  ]

-- What the scan says of a stretch of the directory when it ends with `u`.
pub record Scanned (dir : ℕ → DirEntry) (name : CString) (i end unused u : ℕ) : Type 0 where
  pub fresh : (j : ℕ) → i ≤ j → j < end → has_name dir name j ≡ false
  pub last :
      ((u ≡ unused) × ((j : ℕ) → i ≤ j → j < end → (dir j).used ≡ true))
      ⊎ ((i ≤ u)
          × (u < end)
          × ((dir u).used ≡ false)
          × ((j : ℕ) → u < j → j < end → (dir j).used ≡ true))

module _ (dir : ℕ → DirEntry) (name : CString) where
  Scanned-suc :
      (i end unused u : ℕ)
      → i < end
      → has_name dir name i ≡ false
      → Scanned dir name (i + 1) end (if not (dir i).used then i else unused) u
      → Scanned dir name i end unused u
  Scanned-suc i end unused u hi miss r = record {
    fresh = λ j a b. fresh j a b (Bool-cases (i == j));
    last = last (Bool-cases (dir i).used) r.last;
  }
    where
      fresh :
          (j : ℕ)
          → i ≤ j
          → j < end
          → ((i == j) ≡ true) ⊎ ((i == j) ≡ false)
          → has_name dir name j ≡ false
      fresh j a b (inl e) =
          let same : i ≡ j = ground arith in subst (λ k. has_name dir name k ≡ false) same miss
      fresh j a b (inr e) = r.fresh j (ground arith) b

      busy :
          (dir i).used ≡ true
          → ((j : ℕ) → i + 1 ≤ j → j < end → (dir j).used ≡ true)
          → (j : ℕ) → i ≤ j
          → j < end
          → ((i == j) ≡ true) ⊎ ((i == j) ≡ false)
          → (dir j).used ≡ true
      busy u all j a b (inl e) =
          let same : i ≡ j = ground arith in subst (λ k. (dir k).used ≡ true) same u
      busy u all j a b (inr e) = all j (ground arith) b

      last :
          ((dir i).used ≡ true) ⊎ ((dir i).used ≡ false)
          → ((u ≡ (if not (dir i).used then i else unused))
              × ((j : ℕ) → i + 1 ≤ j → j < end → (dir j).used ≡ true))
            ⊎ ((i + 1 ≤ u)
                × (u < end)
                × ((dir u).used ≡ false)
                × ((j : ℕ) → u < j → j < end → (dir j).used ≡ true))
          → ((u ≡ unused) × ((j : ℕ) → i ≤ j → j < end → (dir j).used ≡ true))
            ⊎ ((i ≤ u)
                × (u < end)
                × ((dir u).used ≡ false)
                × ((j : ℕ) → u < j → j < end → (dir j).used ≡ true))
      last d (inr (a, b, idle, later)) = inr (omega arith, b, idle, later)
      last (inl on) (inl (e, all)) =
          inl (rw on at e, λ j a b. busy on all j a b (Bool-cases (i == j)))
      last (inr off) (inl (e, all)) =
          let here : u ≡ i = rw off at e in
          inr (
            omega arith,
            omega arith,
            subst (λ k. (dir k).used ≡ false) (sym here) off,
            λ j a b. all j (omega arith) b,
          )

  pub scan_dir-some :
      (n i unused end u : ℕ)
      → i + n ≡ end
      → scan_dir dir name n i unused ≡ some u
      → Scanned dir name i end unused u
  unfolding scan_dir
  scan_dir-some zero i unused end u e h = record {
    fresh = λ j a b. absurd (omega arith);
    last = inl (ground arith, λ j a b. absurd (omega arith));
  }
  scan_dir-some (suc n) i unused end u e h = elim (Bool-cases (has_name dir name i)) [
    | inl hit ↦ absurd (ground arith)
    | inr miss ↦
        Scanned-suc i end unused u (omega arith) miss
          (scan_dir-some n (i + 1) _ end u (omega arith) (ground arith))
  ]
