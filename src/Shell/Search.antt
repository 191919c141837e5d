-- ===== src/Shell/Search.antt =====
-- The searches of `parse_input` of Project 1/myshell.c end inside the line.
use ec440_projects.Prelude.{
  ℕ, zero, suc, ◌+◌, ◌-◌, ◌≤◌, ◌<◌, ◌≡◌, ◌≢◌, ◌⊎◌, inl, inr, refl, ap, Bool, true, false, ◌||◌,
  Option, none, some, ltb, ◌==◌, Bool-cases, arith,
}
use ec440_projects.Run.{done}
use ec440_projects.Shell.Text.{Line, newline, space, scan, find_char}
use ec440_projects.Shell.Parse.{is_blank}

-- A string from `p` ends at `e`, inside the buffer.
abbrev pub NoEnd : Line → ℕ → ℕ → Type 0
NoEnd line p e = (r : ℕ) → p ≤ r → r < e → line r ≢ 0

abbrev pub Free : ℕ → Line → ℕ → ℕ → Type 0
Free c line p e = (r : ℕ) → p ≤ r → r < e → line r ≢ c

-- What a search from `p` for `c` finds, in a buffer with a terminator at `e`.
abbrev pub Next : ℕ → Line → ℕ → ℕ → Option ℕ → Type 0
Next c line p e none = NoEnd line p e → Free c line p e
Next c line p e (some q) = (p ≤ q) × (q < e) × (line q ≡ c) × Free c line p q

Free-cons :
    (c : ℕ) (line : Line) (p e : ℕ)
    → (line p == c) ≡ false
    → Free c line (p + 1) e
    → Free c line p e
Free-cons c line p e k f r a b = elim (Bool-cases (p == r)) [
  | inl same ↦ let s : p ≡ r = ground arith in ground (arith, ap line s)
  | inr ne ↦ f r (ground arith) b
]

scan-Next :
    (n : ℕ) (line : Line) (c p e : ℕ)
    → p ≤ e
    → e < p + n
    → line e ≡ 0
    → (o : Option ℕ) × (scan n line c p ≡ done o) × Next c line p e o
unfolding scan
scan-Next zero line c p e lo hi z = absurd (omega arith)
scan-Next (suc n) line c p e lo hi z =
    split (Bool-cases (line p == 0)) (Bool-cases (line p == c))
      (λ l. scan-Next n line c (p + 1) e l (omega arith) z)
  where
    inside : (line p == 0) ≡ false → p + 1 ≤ e
    inside h = elim (Bool-cases (p == e)) [
      | inr ne ↦ ground arith
      | inl same ↦ let s : p ≡ e = ground arith in ground (arith, ap line s)
    ]

    below : (line p == 0) ≡ false → p < e
    below h = let l = inside h in omega arith

    later :
        (line p == 0) ≡ false
        → (line p == c) ≡ false
        → ((o : Option ℕ) × (scan n line c (p + 1) ≡ done o) × Next c line (p + 1) e o)
        → (o : Option ℕ) × (scan (suc n) line c p ≡ done o) × Next c line p e o
    later h k (none, run, next) = (
      none,
      rw (h, k) run,
      λ rest. Free-cons c line p e k (next (λ r a b. rest r (omega arith) b)),
    )
    later h k (some q, run, next) =
        let lo' : p + 1 ≤ q = next.0 in
        (some q, rw (h, k) run, (omega arith, next.1, next.2, Free-cons c line p q k next.3))

    split :
        ((line p == 0) ≡ true) ⊎ ((line p == 0) ≡ false)
        → ((line p == c) ≡ true) ⊎ ((line p == c) ≡ false)
        → (p + 1 ≤ e → (o : Option ℕ) × (scan n line c (p + 1) ≡ done o) × Next c line (p + 1) e o)
        → (o : Option ℕ) × (scan (suc n) line c p ≡ done o) × Next c line p e o
    split (inl h) k ih =
        (none, rw h refl, λ rest r a b. absurd (rest p (omega arith) (omega arith) (ground arith)))
    split (inr h) (inl k) ih = (
      some p,
      rw (h, k) refl,
      (omega arith, below h, ground arith, λ r a b. absurd (omega arith)),
    )
    split (inr h) (inr k) ih = later h k (ih (inside h))

pub find_char-Next :
    (line : Line) (c p e : ℕ)
    → p ≤ e
    → e < 512
    → line e ≡ 0
    → (o : Option ℕ) × (find_char line c p ≡ done o) × Next c line p e o
find_char-Next line c p e lo hi z = scan-Next (512 - p) line c p e lo (omega arith) z

-- The test on the rest of the line reads inside it, and the rest is not empty where it fails.
pub is_blank-Ends :
    (line : Line) (q e : ℕ)
    → q ≤ e
    → e < 512
    → line e ≡ 0
    → (b : Bool) × (is_blank line q ≡ done b) × (b ≡ false → q < e)
is_blank-Ends line q e lo hi z = elim (Bool-cases (line q == 0)) [
  | inl h ↦ (true, rw inside (rw h refl), λ f. cc)
  | inr h ↦ elim (Bool-cases (line q == newline || line q == space)) [
    | inr k ↦ (false, rw inside (rw h (rw k refl)), λ f. below h)
    | inl k ↦
        let next : ltb (suc q) 512 ≡ true = ground (arith, below h) in
        (line (suc q) == 0, rw inside (rw h (rw k (rw next refl))), λ f. below h)
  ]
]
  where
    inside : ltb q 512 ≡ true
    inside = ground arith

    below : (line q == 0) ≡ false → q < e
    below h = elim (Bool-cases (q == e)) [
      | inr ne ↦ ground arith
      | inl same ↦ let s : q ≡ e = ground arith in ground (arith, ap line s)
    ]
