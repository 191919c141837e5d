-- ===== src/Threads/Ops.antt =====
-- The calls of Project3/threads.c.
use ec440_projects.Prelude.{
  ℕ, ◌+◌, ◌-◌, Bool, true, false, not, Option, none, some, ℤ, pos, negsuc, minus_one, suc_ℤ, pred_ℤ,
  ltb, ltb_ℤ, eqb_ℤ, ◌==◌, update, first, if◌then◌else◌, to_int, to_unsigned, sub_ℕ,
}
use ec440_projects.Run.{done, access, on, ◌>>=◌}
use ec440_projects.Threads.{
  State, Status, Outcomes, returned, jumped, started, in_create, in_exit, in_join, is_ready,
  is_exited, is_waiting, is_fresh, max_threads, nobody,
}
use ec440_projects.Threads.Schedule.{set_status, set_reg, scheduler, init_system}

abbrev pub lock : State → State
lock s = record s { masked = true }

abbrev pub unlock : State → State
unlock s = record s { masked = false }

-- The set-up of the first call, which makes the caller thread 0.
abbrev pub set_up : State → State
set_up s =
    let s' = set_status 0 Status.running (record (init_system s) { first_call = false }) in
    set_reg 0 in_create (record s' { total_threads = suc_ℤ s'.total_threads })

abbrev pub first_set_up : State → State
first_set_up s = if s.first_call then set_up s else s

-- A new thread in slot `i`.
abbrev pub add_thread : ℕ → ℕ → ℕ → State → State
add_thread i routine arg s = record s {
  tcb =
      update s.tcb i
        (record (s.tcb i) { status = Status.ready; stack = true; reg = started routine arg });
  total_threads = suc_ℤ s.total_threads;
}

unfoldable pub find_fresh : State → ℕ
find_fresh s = first (λ i. is_fresh (s.tcb i).status) max_threads 0

-- The part of `pthread_create` behind the set-up: the value of `*thread` with the result. The
-- branch that refuses leaves SIGALRM blocked.
abbrev pub create_in : ℕ → ℕ → State → Outcomes (ℤ × Option ℕ)
create_in routine arg s =
    on (ltb_ℤ (pos max_threads) s.total_threads) (done (returned (minus_one, none) s)) (do
      i ← access (ltb (find_fresh s) max_threads) (find_fresh s)
      done (returned (pos 0, some i) (unlock (add_thread i routine arg s))))

unfoldable pub pthread_create : ℕ → ℕ → State → Outcomes (ℤ × Option ℕ)
pthread_create routine arg s = create_in routine arg (first_set_up (lock s))

abbrev pub pthread_create_resumed : State → Outcomes (ℤ × Option ℕ)
pthread_create_resumed s = done (returned (pos 0, none) (unlock s))

-- The exit of a thread that another one waits for; `joined` is that thread with an offset. The code goes
-- on using the stack that it frees here, up to its `longjmp`; the model does not follow that memory.
abbrev pub exit_joined {ℓ} : {A : Type ℓ} → ℕ → ℤ → State → Outcomes A
exit_joined value joined s =
    let t = s.tcb s.curr_tid in
    let ended =
      if is_exited t.status
      then record s { tcb = update s.tcb s.curr_tid (record t { exitcode = value }) }
      else record s {
        tcb =
            update s.tcb s.curr_tid
              (record t { status = Status.exited; stack = false; exitcode = value });
        total_threads = pred_ℤ s.total_threads;
      } in
    let next = remove_offset joined in
    do
      tid ← access (ltb next max_threads) next
      done (jumped tid (pos 1) (unlock (record ended { curr_tid = tid })))
  where
    remove_offset : ℤ → ℕ
    remove_offset (pos n) = to_unsigned 64 (sub_ℕ n max_threads)
    remove_offset (negsuc n) = to_unsigned 64 (negsuc (n + max_threads))

-- The exit of a thread that no other one waits for yet.
abbrev pub exit_alone {ℓ} : {A : Type ℓ} → State → Outcomes A
exit_alone s =
    let i = first (λ i. is_ready (s.tcb i).status) (max_threads - 1) 1 in
    on (i == max_threads) (done (jumped 0 (pos 1) (record (unlock s) { curr_tid = 0 })))
      (scheduler (unlock s))

abbrev pub exit_with {ℓ} : {A : Type ℓ} → ℕ → ℤ → State → Outcomes A
exit_with value joined s = on (eqb_ℤ joined (pos 0)) (exit_alone s) (exit_joined value joined s)

unfoldable pub pthread_exit {ℓ} : {A : Type ℓ} → ℕ → State → Outcomes A
pthread_exit value s =
    let s' = set_status s.curr_tid Status.waiting (lock s) in
    let joining = (s.tcb s.curr_tid).joining in
    on (not (joining == nobody)) (exit_with value (to_int (joining + max_threads)) s')
      (exit_with value (pos 0) (set_reg s.curr_tid (in_exit value) s'))

unfoldable pub pthread_exit_resumed {ℓ} : {A : Type ℓ} → ℕ → ℤ → State → Outcomes A
pthread_exit_resumed value joined s = exit_with value joined s

abbrev pub pthread_self : State → ℕ
pthread_self s = s.curr_tid

-- The wait for a thread that has not exited; `wants` says whether `value_ptr` is not null.
abbrev pub join_alive : ℕ → Bool → State → Outcomes (ℤ × Option ℕ)
join_alive thread wants s =
    let s' = set_reg s.curr_tid (in_join thread wants) (set_status s.curr_tid Status.blocked s) in
    on (is_waiting (s'.tcb thread).status)
      (done
        (jumped thread (pos (s.curr_tid + max_threads)) (unlock (record s' { curr_tid = thread }))))
      (scheduler (
        unlock (record s' {
          tcb = update s'.tcb thread (record (s'.tcb thread) { joining = s.curr_tid });
        })))

-- With the result, the value that is stored at `value_ptr`.
unfoldable pub pthread_join : ℕ → Bool → State → Outcomes (ℤ × Option ℕ)
pthread_join thread wants s = do
  t ← access (ltb thread max_threads) (s.tcb thread)
  on (is_exited t.status) (done (returned (pos 0, none) (unlock s)))
      (join_alive thread wants (lock s))

unfoldable pub pthread_join_resumed : ℕ → Bool → State → Outcomes (ℤ × Option ℕ)
pthread_join_resumed thread wants s = done (
    returned (pos 0, if wants then some (s.tcb thread).exitcode else none)
      (unlock (set_status s.curr_tid Status.running s)))
