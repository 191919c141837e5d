-- ===== src/Threads2/Exit.antt =====
-- `pthread_exit` of Project 2/threads.c when no other thread is ready.
use ec440_projects.Prelude.{
  ℕ, ◌≤◌, ◌<◌, ◌≡◌, ◌≢◌, ◌⊎◌, inl, inr, refl, Bool, true, false, ℤ, pos, pred_ℤ, ◌==◌, arith,
  Bool-cases, update, first, First, first-First,
}
use ec440_projects.Run.{done, fault}
use ec440_projects.Threads2.{State, Status, jumped, allocated, freed, is_ready}
use ec440_projects.Threads2.Ops.{pthread_exit, find_ready}

first_none : (p : ℕ → Bool) → ((j : ℕ) → 1 ≤ j → j < 128 → p j ≡ false) → first p 127 1 ≡ 128
first_none p none = elim (Bool-cases (first p 127 1 == 128)) [
  | inl e ↦ ground arith
  | inr e ↦ absurd (clash (ground arith) (ground (arith, f.to)))
]
  where
    f : First p 1 128 (first p 127 1)
    f = first-First p 127 1 128 (omega arith)

    clash : first p 127 1 ≢ 128 → first p 127 1 < 128 → ⊥
    clash n l = let hit = f.at n in let miss = none (first p 127 1) f.from l in cc

-- The state after the current thread exited.
abbrev gone : State → State
gone s = record s {
  tcb =
      update s.tcb s.curr_tid (record (s.tcb s.curr_tid) { status = Status.exited; stack = freed });
  total_threads = pred_ℤ s.total_threads;
}

-- A thread that exits while no other thread but the main one is ready continues the main thread in
-- its saved context, with its own stack freed; but it stays the current thread. So the next call of
-- `pthread_exit`, which the main thread makes, frees the same stack again.
pub pthread_exit-twice :
    (s : State)
    → (s.tcb s.curr_tid).stack ≡ allocated
    → ((j : ℕ) → 1 ≤ j → j < 128 → j ≢ s.curr_tid → is_ready (s.tcb j).status ≡ false)
    → s.curr_tid ≢ 0
    → (s' : State) × (pthread_exit {A = ℤ} s ≡ done (jumped 0 (pos 1) s'))
      × (s'.curr_tid ≡ s.curr_tid)
      × ((s'.tcb s.curr_tid).status ≡ Status.exited)
      × (s'.tcb 0 ≡ s.tcb 0)
      × (s'.total_threads ≡ pred_ℤ s.total_threads)
      × (pthread_exit {A = ℤ} s' ≡ fault)
unfolding pthread_exit
pthread_exit-twice s stack none main =
    let here : (s.curr_tid == s.curr_tid) ≡ true = ground arith in
    let other : (s.curr_tid == 0) ≡ false = ground (arith, main) in
    let found : find_ready (gone s) ≡ 128 =
      first_none (λ i. is_ready ((gone s).tcb i).status)
        λ j a b. idle j a b (Bool-cases (s.curr_tid == j)) in
    (gone s, rw stack (rw found refl), refl, rw here refl, rw other refl, refl, rw here refl)
  where
    idle :
        (j : ℕ)
        → 1 ≤ j
        → j < 128
        → ((s.curr_tid == j) ≡ true) ⊎ ((s.curr_tid == j) ≡ false)
        → is_ready ((gone s).tcb j).status ≡ false
    idle j a b (inl e) = rw e refl
    idle j a b (inr e) = rw e (none j a b (ground arith))
