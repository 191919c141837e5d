-- ===== src/Shell/Ends.antt =====
-- `killspaces` of Project 1/myshell.c does not run out of its fuel.
use ec440_projects.Prelude.{
  ℕ, zero, suc, ◌+◌, ◌-◌, ◌≤◌, ◌<◌, ◌≡◌, refl, Bool, true, false, not, ltb, ◌==◌, update, arith,
}
use ec440_projects.Run.{
  Run, done, access, on, ◌>>=◌, Keeps, kept, faulted, Keeps-then, Ends, returns, faults, Ends-then,
  Ends-on,
}
use ec440_projects.Shell.Text.{Line, space, count, get}
use ec440_projects.Shell.Parse.{killspaces, kill_loop}

count-lt : (n : ℕ) (line : Line) (p : ℕ) → Keeps (λ k. k < n) (count n line p)
unfolding count
count-lt zero line p = faulted
count-lt (suc n) line p = split (line p == 0) (count-lt n line (p + 1))
  where
    split :
        (b : Bool)
        → Keeps (λ k. k < n) (count n line (p + 1))
        → Keeps
            (λ k. k < suc n)
            (elim b as (λ x. Run ℕ) [
              | true ↦ done 0
              | false ↦ (count n line (p + 1) >>= λ k. done (suc k))
            ])
    split true ih = kept (omega arith)
    split false ih = Keeps-then (count n line (p + 1)) _ ih λ k l. kept (omega arith)

count-Ends : (n : ℕ) (line : Line) (p : ℕ) → Ends (count n line p)
unfolding count
count-Ends zero line p = faults
count-Ends (suc n) line p = split (line p == 0) (count-Ends n line (p + 1))
  where
    split :
        (b : Bool)
        → Ends (count n line (p + 1))
        → Ends (elim b as (λ x. Run ℕ) [
          | true ↦ done 0
          | false ↦ (count n line (p + 1) >>= λ k. done (suc k))
        ])
    split true ih = returns
    split false ih = Ends-then (count n line (p + 1)) _ (count-lt n line (p + 1)) ih λ k l. returns

kill_loop-Ends : (n p i : ℕ) (line : Line) → i ≤ 512 → 513 ≤ i + n → Ends (kill_loop n p i line)
unfolding kill_loop
kill_loop-Ends zero p i line h fuel = absurd (omega arith)
kill_loop-Ends (suc n) p i line h fuel =
    Ends-then (count (512 - p) line p) _ (count-lt (512 - p) line p) (count-Ends (512 - p) line p)
      λ k l.
        back (λ line' h'. kill_loop-Ends n p (suc i) line' h' (omega arith)) k l (ltb (p + k) i)
          refl
  where
    back :
        ((line' : Line) → suc i ≤ 512 → Ends (kill_loop n p (suc i) line'))
        → (k : ℕ) → k < 512 - p
        → (b : Bool) → ltb (p + k) i ≡ b
        → Ends (
            access (not b) (p + k - i) >>= λ q. get line q >>= λ c.
            on (c == space) (kill_loop n p (suc i) (update line q 0)) (done line))
    back next k l true e = faults
    back next k l false e = at (ltb (p + k - i) 512)
      where
        at :
            (b : Bool)
            → Ends (
                access b (line (p + k - i)) >>= λ c.
                on (c == space) (kill_loop n p (suc i) (update line (p + k - i) 0)) (done line))
        at false = faults
        at true =
            Ends-on (line (p + k - i) == space) _ _
              (next (update line (p + k - i) 0) (ground arith)) returns

-- Every call of `killspaces` returns or leaves the buffer: the fuel of its loop is never used up.
pub killspaces-Ends : (p : ℕ) (line : Line) → Ends (killspaces p line)
unfolding killspaces
killspaces-Ends p line = kill_loop-Ends 512 p 1 line (omega arith) (omega arith)
