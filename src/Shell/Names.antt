-- ===== src/Shell/Names.antt =====
-- `killspaces` of Project 1/myshell.c.
use ec440_projects.Prelude.{
  ℕ, zero, suc, ◌+◌, ◌-◌, ◌≤◌, ◌<◌, ◌≡◌, ◌≢◌, inl, inr, refl, ap, ◌∙◌, Bool, true, false, ltb, ◌==◌,
  update, arith, Bool-cases,
}
use ec440_projects.Run.{Run, done, on}
use ec440_projects.Shell.Text.{Line, space, count, strlen}
use ec440_projects.Shell.Parse.{killspaces, kill_loop}
use ec440_projects.Shell.Search.{NoEnd}

count-NoEnd :
    (n : ℕ) (line : Line) (p e : ℕ)
    → p ≤ e
    → e < p + n
    → line e ≡ 0
    → NoEnd line p e
    → count n line p ≡ done (e - p)
unfolding count
count-NoEnd zero line p e lo hi z rest = absurd (omega arith)
count-NoEnd (suc n) line p e lo hi z rest = elim (Bool-cases (p == e)) [
  | inl same ↦
      let s : p ≡ e = ground arith in
      let h : (line p == 0) ≡ true = ground (arith, ap line s) in
      let d : 0 ≡ e - p = omega arith in rw (h, count) (ap done d)
  | inr ne ↦
      let h : (line p == 0) ≡ false = ground (arith, rest p (omega arith) (ground arith)) in
      let d : suc (e - (p + 1)) ≡ e - p = ground arith in
      let ih =
        count-NoEnd n line (p + 1) e (ground arith) (omega arith) z
          (λ r a b. rest r (omega arith) b) in
      rw (h, count) (rw ih (ap done d))
]

strlen-NoEnd :
    (line : Line) (p e : ℕ)
    → p ≤ e
    → e < 512
    → line e ≡ 0
    → NoEnd line p e
    → strlen line p ≡ done (e - p)
strlen-NoEnd line p e lo hi z rest = count-NoEnd (512 - p) line p e lo (omega arith) z rest

-- A round at the end `e` of the string.
kill_loop-round :
    (n p i e : ℕ) (line : Line)
    → p ≤ e
    → e < 512
    → line e ≡ 0
    → NoEnd line p e
    → i ≤ e
    → kill_loop (suc n) p i line
      ≡ on (line (e - i) == space) (kill_loop n p (suc i) (update line (e - i) 0)) (done line)
unfolding kill_loop
kill_loop-round n p i e line lo hi z rest h =
    let len = strlen-NoEnd line p e lo hi z rest in
    let back : ltb (p + (e - p)) i ≡ false = ground arith in
    let at : p + (e - p) - i ≡ e - i = omega arith in
    let inside : ltb (e - i) 512 ≡ true = ground arith in rw len (rw back (rw at (rw inside refl)))

on-true {ℓ} : {A : Type ℓ} (b : Bool) (m n : Run A) → b ≡ true → on b m n ≡ m
on-true b m n e = rw e refl

on-false {ℓ} : {A : Type ℓ} (b : Bool) (m n : Run A) → b ≡ false → on b m n ≡ n
on-false b m n e = rw e refl

-- The first two rounds, with fuel for more.
kill_loop-two :
    (n p e : ℕ) (line : Line)
    → p + 3 ≤ e
    → e < 512
    → line e ≡ 0
    → NoEnd line p e
    → line (e - 1) ≡ space
    → line (e - 3) ≢ space
    → kill_loop (suc (suc n)) p 1 line ≡ done (update line (e - 1) 0)
kill_loop-two n p e line lo hi z rest s₁ s₃ =
    first_round
    ∙ on-true (line (e - 1) == space) (kill_loop (suc n) p 2 line') (done line) space_1
    ∙ second_round
    ∙ on-false (line' (e - 1 - 2) == space) (kill_loop n p 3 (update line' (e - 1 - 2) 0))
        (done line') other
  where
    line' : Line
    line' = update line (e - 1) 0

    space_1 : (line (e - 1) == space) ≡ true
    space_1 = ground (arith, s₁)

    at_last : line' (e - 1) ≡ 0
    at_last = let self : (e - 1 == e - 1) ≡ true = ground arith in rw self refl

    other : (line' (e - 1 - 2) == space) ≡ false
    other =
        let three : e - 1 - 2 ≡ e - 3 = omega arith in
        let ne : (e - 1 == e - 3) ≡ false = ground arith in rw three (rw ne (ground (arith, s₃)))

    first_round :
        kill_loop (suc (suc n)) p 1 line
        ≡ on (line (e - 1) == space) (kill_loop (suc n) p 2 line') (done line)
    first_round = kill_loop-round (suc n) p 1 e line (omega arith) hi z rest (omega arith)

    second_round :
        kill_loop (suc n) p 2 line'
        ≡ on
            (line' (e - 1 - 2) == space)
            (kill_loop n p 3 (update line' (e - 1 - 2) 0))
            (done line')
    second_round =
        kill_loop-round n p 2 (e - 1) line' (omega arith) (omega arith) at_last
          (λ r a b. let ne : (e - 1 == r) ≡ false = ground arith in rw ne (rest r a (omega arith)))
          (omega arith)

-- `killspaces` on a name of one character or more with exactly two spaces behind it removes the
-- last space and leaves the other.
pub killspaces-two_spaces :
    (p e : ℕ) (line : Line)
    → p + 3 ≤ e
    → e < 512
    → line e ≡ 0
    → NoEnd line p e
    → line (e - 1) ≡ space
    → line (e - 2) ≡ space
    → line (e - 3) ≢ space
    → (line' : Line) × (killspaces p line ≡ done line')
      × (line' (e - 1) ≡ 0)
      × (line' (e - 2) ≡ space)
      × ((r : ℕ) → r ≢ e - 1 → line' r ≡ line r)
unfolding killspaces
killspaces-two_spaces p e line lo hi z rest s₁ s₂ s₃ =
    let self : (e - 1 == e - 1) ≡ true = ground arith in
    let before : (e - 1 == e - 2) ≡ false = ground arith in
    (
      update line (e - 1) 0,
      kill_loop-two 510 p e line lo hi z rest s₁ s₃,
      rw self refl,
      rw before s₂,
      λ r n. let ne : (e - 1 == r) ≡ false = ground (arith, n) in rw ne refl,
    )
