-- ===== src/Threads/Schedule.antt =====
-- The scheduler of Project3/threads.c, and the set-up on the first call.
use ec440_projects.Prelude.{
  ℕ, zero, suc, ◌+◌, ◌%◌, true, false, ◌||◌, pos, ltb, ◌==◌, update, if◌then◌else◌,
}
use ec440_projects.Run.{Run, done, out_of_fuel, access, ◌>>=◌}
use ec440_projects.Threads.{
  State, Thread, Status, Context, Outcome, Outcomes, jumped, in_scheduler, is_ready, is_running,
  max_threads, nobody,
}

abbrev pub set_status : ℕ → Status → State → State
set_status tid status s = record s {
  tcb = update s.tcb tid (record (s.tcb tid) { status = status });
}

abbrev pub set_reg : ℕ → Context → State → State
set_reg tid reg s = record s { tcb = update s.tcb tid (record (s.tcb tid) { reg = reg }) }

-- The search loop of `scheduler`. It reads the status before it compares with the current thread.
unfoldable pub find_next : ℕ → ℕ → ℕ → (ℕ → Thread) → Run ℕ
find_next zero curr next tcb = out_of_fuel
find_next (suc n) curr next tcb = do
  t ← access (ltb next max_threads) (tcb next)
  elim (is_ready t.status || next == curr) [
    | true ↦ done next
    | false ↦ find_next n curr ((next + 1) % max_threads) tcb
  ]

-- The current thread becomes ready, with its context saved, if it was running.
abbrev pub preempted : State → State
preempted s =
    if is_running (s.tcb s.curr_tid).status
    then set_reg s.curr_tid in_scheduler (set_status s.curr_tid Status.ready s)
    else s

abbrev pub switch_to {ℓ} : {A : Type ℓ} → ℕ → State → Outcome A
switch_to next s =
    jumped next (pos 1) (set_status next Status.running (record s { curr_tid = next }))

unfoldable pub scheduler {ℓ} : {A : Type ℓ} → State → Outcomes A
scheduler s = do
  next ← find_next max_threads s.curr_tid (s.curr_tid + 1) s.tcb
  done (switch_to next (preempted s))

-- The loop of `init_system`.
unfoldable pub init_threads : ℕ → ℕ → (ℕ → Thread) → ℕ → Thread
init_threads zero i tcb = tcb
init_threads (suc n) i tcb =
    init_threads n (i + 1)
      (update tcb i (record (tcb i) { status = Status.fresh; id = i; joining = nobody }))

abbrev pub init_system : State → State
init_system s = record s { tcb = init_threads max_threads 0 s.tcb; alarm = true }
