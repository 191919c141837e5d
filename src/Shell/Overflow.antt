-- ===== src/Shell/Overflow.antt =====
-- The loop of Project 1/main.c that opens the pipes of a pipeline.
use ec440_projects.Prelude.{
  ℕ, zero, suc, ◌+◌, ◌-◌, ◌*◌, ◌≤◌, ◌<◌, ◌≡◌, refl, Bool, true, false, ltb, arith,
}
use ec440_projects.Run.{fault}
use ec440_projects.Shell.Pipes.{open_pipes}

open_pipes-from :
    (k fuel : ℕ) (fails : ℕ → Bool) (n attempt i : ℕ)
    → ((a : ℕ) → fails a ≡ false)
    → i + k ≡ n - 1
    → 2 ≤ n
    → k < fuel
    → open_pipes fuel fails n attempt i ≡ fault
unfolding open_pipes
open_pipes-from k zero fails n attempt i ok e two h = absurd (omega arith)
open_pipes-from zero (suc fuel) fails n attempt i ok e two h =
    let goes : ltb i (2 * (n - 1)) ≡ true = ground arith in
    let over : ltb (i * 2 + 1) (2 * (n - 1)) ≡ false = ground arith in
    let a = ok attempt in rw (goes, open_pipes) (rw (a, over) refl)
open_pipes-from (suc k) (suc fuel) fails n attempt i ok e two h =
    let goes : ltb i (2 * (n - 1)) ≡ true = ground arith in
    let inside : ltb (i * 2 + 1) (2 * (n - 1)) ≡ true = ground arith in
    let a = ok attempt in
    rw (goes, open_pipes)
      (rw (a, inside)
        (open_pipes-from k fuel fails n (attempt + 1) (i + 1) ok (omega arith) two (omega arith)))

-- For every pipeline, of two commands or more, the loop that opens the pipes leaves the array where
-- no call of `pipe` fails.
pub open_pipes-overflow :
    (fails : ℕ → Bool) (n fuel : ℕ)
    → ((a : ℕ) → fails a ≡ false)
    → 2 ≤ n
    → n ≤ fuel
    → open_pipes fuel fails n 0 0 ≡ fault
open_pipes-overflow fails n fuel ok two h =
    open_pipes-from (n - 1) fuel fails n 0 0 ok (omega arith) two (omega arith)
