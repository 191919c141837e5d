-- ===== src/Threads2/Ops.antt =====
-- The functions of Project 2/threads.c.
use ec440_projects.Prelude.{
  ℕ, zero, suc, ◌+◌, ◌-◌, ◌%◌, true, false, ◌||◌, Option, none, some, ℤ, pos, minus_one, suc_ℤ,
  pred_ℤ, ltb, ltb_ℤ, ◌==◌, update, first, if◌then◌else◌,
}
use ec440_projects.Run.{Run, done, fault, out_of_fuel, access, on, ◌>>=◌}
use ec440_projects.Threads2.{
  State, Thread, Status, Context, Stack, Outcome, Outcomes, returned, jumped, started, in_create,
  in_scheduler, null, allocated, freed, is_ready, is_running, is_fresh, max_threads,
}

abbrev pub set_status : ℕ → Status → State → State
set_status tid status s = record s {
  tcb = update s.tcb tid (record (s.tcb tid) { status = status });
}

abbrev pub set_reg : ℕ → Context → State → State
set_reg tid reg s = record s { tcb = update s.tcb tid (record (s.tcb tid) { reg = reg }) }

-- The search loop of `scheduler`. It reads the status before it compares with the current thread.
unfoldable pub find_next : ℕ → ℕ → ℕ → (ℕ → Thread) → Run ℕ
find_next zero curr next tcb = out_of_fuel
find_next (suc n) curr next tcb = do
  t ← access (ltb next max_threads) (tcb next)
  elim (is_ready t.status || next == curr) [
    | true ↦ done next
    | false ↦ find_next n curr ((next + 1) % max_threads) tcb
  ]

-- The current thread becomes ready, with its context saved, if it was running.
abbrev pub preempted : State → State
preempted s =
    if is_running (s.tcb s.curr_tid).status
    then set_reg s.curr_tid in_scheduler (set_status s.curr_tid Status.ready s)
    else s

abbrev pub switch_to {ℓ} : {A : Type ℓ} → ℕ → State → Outcome A
switch_to next s =
    jumped next (pos 1) (set_status next Status.running (record s { curr_tid = next }))

unfoldable pub scheduler {ℓ} : {A : Type ℓ} → State → Outcomes A
scheduler s = do
  next ← find_next max_threads s.curr_tid (s.curr_tid + 1) s.tcb
  done (switch_to next (preempted s))

-- The loop of `init_system`.
unfoldable pub init_threads : ℕ → ℕ → (ℕ → Thread) → ℕ → Thread
init_threads zero i tcb = tcb
init_threads (suc n) i tcb =
    init_threads n (i + 1) (update tcb i (record (tcb i) { status = Status.fresh; id = i }))

abbrev pub init_system : State → State
init_system s = record s { tcb = init_threads max_threads 0 s.tcb; alarm = true }

-- The set-up of the first call, which makes the caller thread 0.
abbrev pub set_up : State → State
set_up s =
    let s' = set_status 0 Status.running (record (init_system s) { first_call = false }) in
    set_reg 0 in_create (record s' { total_threads = suc_ℤ s'.total_threads })

abbrev pub first_set_up : State → State
first_set_up s = if s.first_call then set_up s else s

-- A new thread in slot `i`.
abbrev pub add_thread : ℕ → ℕ → ℕ → State → State
add_thread i routine arg s = record s {
  tcb =
      update s.tcb i
        (record (s.tcb i) { status = Status.ready; stack = allocated; reg = started routine arg });
  total_threads = suc_ℤ s.total_threads;
}

unfoldable pub find_fresh : State → ℕ
find_fresh s = first (λ i. is_fresh (s.tcb i).status) max_threads 0

-- The part of `pthread_create` behind the set-up: the value of `*thread` with the result.
abbrev pub create_in : ℕ → ℕ → State → Outcomes (ℤ × Option ℕ)
create_in routine arg s =
    on (ltb_ℤ (pos max_threads) s.total_threads) (done (returned (minus_one, none) s)) (do
      i ← access (ltb (find_fresh s) max_threads) (find_fresh s)
      done (returned (pos 0, some i) (add_thread i routine arg s)))

unfoldable pub pthread_create : ℕ → ℕ → State → Outcomes (ℤ × Option ℕ)
pthread_create routine arg s = create_in routine arg (first_set_up s)

-- `free`, which is undefined on a block that was freed before.
abbrev pub free : Stack → Run Stack
free null = done null
free allocated = done freed
free freed = fault

abbrev pub find_ready : State → ℕ
find_ready s = first (λ i. is_ready (s.tcb i).status) (max_threads - 1) 1

-- `value_ptr` is not looked at.
unfoldable pub pthread_exit {ℓ} : {A : Type ℓ} → State → Outcomes A
pthread_exit s = do
  stack ← free (s.tcb s.curr_tid).stack
  let s' = record s {
    tcb =
        update s.tcb s.curr_tid
          (record (s.tcb s.curr_tid) { status = Status.exited; stack = stack });
    total_threads = pred_ℤ s.total_threads;
  }
  on (find_ready s' == max_threads) (done (jumped 0 (pos 1) s')) (scheduler s')

abbrev pub pthread_self : State → ℕ
pthread_self s = s.curr_tid
