-- ===== src/Fs/Layout.antt =====
-- What the loops of Project5/fs.c that lay out the directory and the allocation table leave in a
-- buffer, and what those that read them back find.
use ec440_projects.Prelude.{
  ℕ, zero, suc, ◌+◌, ◌*◌, ◌/◌, ◌%◌, ◌≤◌, ◌<◌, ◌≡◌, ◌⊎◌, inl, inr, refl, ap, subst, ◌∙◌, true, false,
  some, ℤ, ltb, leb, ◌==◌, arith, Bool-cases, update, memcpy,
}
use ec440_projects.Fs.{DirEntry}
use ec440_projects.Fs.Data.{Buffer}
use ec440_projects.Fs.Bytes.{int_bytes, put_int, entry_bytes, get_entry}
use ec440_projects.Fs.Format.{put_entries, put_page, put_pages, get_entries, get_fat}
use ec440_projects.Fs.Encode.{
  HoldsInt, IsInt, get_int-HoldsInt, IsEntry, HoldsEntry, get_entry-HoldsEntry,
}

pub memcpy-inside : (b c : Buffer) (at n p : ℕ) → p < n → memcpy b at c 0 n (at + p) ≡ c p
memcpy-inside b c at n p h =
    let lo : leb at (at + p) ≡ true = ground arith in
    let hi : ltb (at + p) (at + n) ≡ true = ground arith in rw (lo, hi) (ap c (omega arith))

pub memcpy-outside :
    (b c : Buffer) (at n p : ℕ) → (p < at) ⊎ (at + n ≤ p) → memcpy b at c 0 n p ≡ b p
memcpy-outside b c at n p (inl h) = let lo : leb at p ≡ false = ground arith in rw lo
memcpy-outside b c at n p (inr h) =
    let lo : leb at p ≡ true = ground arith in
    let hi : ltb p (at + n) ≡ false = ground arith in rw (lo, hi)

module _ (pad : ℕ → Buffer) (dir : ℕ → DirEntry) where
  put_entries-before : (n i p : ℕ) (b : Buffer) → p < i * 32 → put_entries pad dir n i b p ≡ b p
  unfolding put_entries
  put_entries-before zero i p b h = refl
  put_entries-before (suc n) i p b h =
      put_entries-before n (i + 1) p _ (omega arith)
      ∙ memcpy-outside b (entry_bytes (pad i) (dir i)) (i * 32) 32 p (inl h)

  pub put_entries-HoldsEntry :
      (n i q : ℕ) (b : Buffer)
      → i ≤ q
      → q < i + n
      → HoldsEntry (pad q) (put_entries pad dir n i b) (q * 32) (dir q)
  unfolding put_entries
  put_entries-HoldsEntry zero i q b lo hi p h = absurd (omega arith)
  put_entries-HoldsEntry (suc n) i q b lo hi p h = elim (Bool-cases (i == q)) [
    | inl e ↦
        let same : i ≡ q = ground arith in
        let here : put_entries pad dir n (i + 1)
              (memcpy b (i * 32) (entry_bytes (pad i) (dir i)) 0 32) (i * 32 + p)
            ≡ entry_bytes (pad i) (dir i) p =
          put_entries-before n (i + 1) (i * 32 + p) _ (omega arith)
          ∙ memcpy-inside b (entry_bytes (pad i) (dir i)) (i * 32) 32 p h in
        subst
          (λ x.
            put_entries pad dir n (i + 1) (memcpy b (i * 32) (entry_bytes (pad i) (dir i)) 0 32)
              (x * 32 + p)
            ≡ entry_bytes (pad x) (dir x) p)
          same here
    | inr e ↦ put_entries-HoldsEntry n (i + 1) q _ (ground arith) (omega arith) p h
  ]

-- The directory that is read back.
pub record Loaded (dir before after : ℕ → DirEntry) (i n : ℕ) : Type 0 where
  pub inside : (j : ℕ) → i ≤ j → j < i + n → after j ≡ dir j
  pub outside : (j : ℕ) → (j < i) ⊎ (i + n ≤ j) → after j ≡ before j

pub get_entries-Loaded :
    (pad : ℕ → Buffer) (dir : ℕ → DirEntry) (n i : ℕ) (b : Buffer) (before : ℕ → DirEntry)
    → ((q : ℕ) → i ≤ q → q < i + n → IsEntry (dir q))
    → ((q : ℕ) → i ≤ q → q < i + n → HoldsEntry (pad q) b (q * 32) (dir q))
    → (after : ℕ → DirEntry) × (get_entries b n i before ≡ some after) × Loaded dir before after i n
unfolding get_entries
get_entries-Loaded pad dir zero i b before fits holds =
    (before, refl, record { inside = λ j l h. absurd (omega arith); outside = λ j h. refl })
get_entries-Loaded pad dir (suc n) i b before fits holds =
    let e : get_entry b (i * 32) ≡ some (dir i) =
      get_entry-HoldsEntry (pad i) b (i * 32) (dir i) (fits i (omega arith) (omega arith))
        (holds i (omega arith) (omega arith)) in
    let (after, run, l) =
      get_entries-Loaded pad dir n (i + 1) b (update before i (dir i))
        (λ q lo hi. fits q (omega arith) (omega arith))
        (λ q lo hi. holds q (omega arith) (omega arith)) in
    (
      after,
      rw (e, get_entries) run,
      record {
        inside = λ j lo hi. inside_of after l j lo hi (Bool-cases (i == j));
        outside =
            λ j h. l.outside j (ground arith) ∙ (let o : (i == j) ≡ false = ground arith in rw o);
      },
    )
  where
    inside_of :
        (after : ℕ → DirEntry)
        → Loaded dir (update before i (dir i)) after (i + 1) n
        → (j : ℕ) → i ≤ j
        → j < i + suc n
        → (((i == j) ≡ true) ⊎ ((i == j) ≡ false))
        → after j ≡ dir j
    inside_of after l j lo hi (inl e) =
        let same : i ≡ j = ground arith in l.outside j (inl (omega arith)) ∙ rw e (ap dir same)
    inside_of after l j lo hi (inr e) = l.inside j (ground arith) (omega arith)

module _ (fat : ℕ → ℤ) where
  put_page-before :
      (page n i p : ℕ) (b : Buffer) → p < page * 4096 + i * 4 → put_page fat page n i b p ≡ b p
  unfolding put_page
  put_page-before page zero i p b h = refl
  put_page-before page (suc n) i p b h =
      put_page-before page n (i + 1) p _ (omega arith)
      ∙ memcpy-outside b (int_bytes (fat i)) (page * 4096 + i * 4) 4 p (inl h)

  put_page-HoldsInt :
      (page n i q : ℕ) (b : Buffer)
      → i ≤ q
      → q < i + n
      → HoldsInt (put_page fat page n i b) (page * 4096 + q * 4) (fat q)
  unfolding put_page
  put_page-HoldsInt page zero i q b lo hi j h = absurd (omega arith)
  put_page-HoldsInt page (suc n) i q b lo hi j h = elim (Bool-cases (i == q)) [
    | inl e ↦
        let same : i ≡ q = ground arith in
        let here : put_page fat page n (i + 1) (put_int b (page * 4096 + i * 4) (fat i))
              (page * 4096 + i * 4 + j)
            ≡ int_bytes (fat i) j =
          put_page-before page n (i + 1) (page * 4096 + i * 4 + j) _ (omega arith)
          ∙ memcpy-inside b (int_bytes (fat i)) (page * 4096 + i * 4) 4 j h in
        subst
          (λ x.
            put_page fat page n (i + 1) (put_int b (page * 4096 + i * 4) (fat i))
              (page * 4096 + x * 4 + j)
            ≡ int_bytes (fat x) j)
          same here
    | inr e ↦ put_page-HoldsInt page n (i + 1) q _ (ground arith) (omega arith) j h
  ]

  put_pages-before : (n page p : ℕ) (b : Buffer) → p < page * 4096 → put_pages fat n page b p ≡ b p
  unfolding put_pages
  put_pages-before zero page p b h = refl
  put_pages-before (suc n) page p b h =
      put_pages-before n (page + 1) p _ (omega arith)
      ∙ put_page-before page 1024 0 p b (omega arith)

  -- Every page holds the first 1024 entries of the table.
  pub put_pages-HoldsInt :
      (n page g q : ℕ) (b : Buffer)
      → page ≤ g
      → g < page + n
      → q < 1024
      → HoldsInt (put_pages fat n page b) (g * 4096 + q * 4) (fat q)
  unfolding put_pages
  put_pages-HoldsInt zero page g q b lo hi k j h = absurd (omega arith)
  put_pages-HoldsInt (suc n) page g q b lo hi k j h = elim (Bool-cases (page == g)) [
    | inl e ↦
        let same : page ≡ g = ground arith in
        let here : put_pages fat n (page + 1) (put_page fat page 1024 0 b) (page * 4096 + q * 4 + j)
            ≡ int_bytes (fat q) j =
          put_pages-before n (page + 1) (page * 4096 + q * 4 + j) _ (omega arith)
          ∙ put_page-HoldsInt page 1024 0 q b (omega arith) (omega arith) j h in
        subst
          (λ x.
            put_pages fat n (page + 1) (put_page fat page 1024 0 b) (x * 4096 + q * 4 + j)
            ≡ int_bytes (fat q) j)
          same here
    | inr e ↦ put_pages-HoldsInt n (page + 1) g q _ (ground arith) (omega arith) k j h
  ]

-- The table that is read back from pages as `put_pages` lays them out: entry `i` is the old entry
-- `i % 1024`.
pub get_fat-pages :
    (fat before : ℕ → ℤ) (n i : ℕ) (uninit b : Buffer)
    → 8 ≤ n
    → i < 8192
    → ((q : ℕ) → q < 1024 → IsInt (fat q))
    → ((g r : ℕ) → g < n → r < 4096 → b (4096 * g + r) ≡ put_pages fat n 0 uninit (4096 * g + r))
    → get_fat b before i ≡ fat (i % 1024)
get_fat-pages fat before n i uninit b big h fits same =
    let inside : ltb i 8192 ≡ true = ground arith in
    rw inside (
      get_int-HoldsInt b (i * 4) (fat (i % 1024)) (fits (i % 1024) (omega arith)) (λ j l.
        ap b (omega arith)
        ∙ same (i / 1024) (i % 1024 * 4 + j) (omega arith) (omega arith)
        ∙ ap (put_pages fat n 0 uninit) (omega arith)
        ∙ put_pages-HoldsInt fat n 0 (i / 1024) (i % 1024) uninit (omega arith) (omega arith)
            (omega arith) j l))
