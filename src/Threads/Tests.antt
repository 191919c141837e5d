-- ===== src/Threads/Tests.antt =====
-- The theorems about Project3/threads.c at small tables of threads.
use ec440_projects.Prelude.{
  ℕ, zero, suc, ◌<◌, ◌+◌, ◌%◌, ◌≡◌, refl, false, true, none, some, pos, minus_one, ltb_ℤ, arith,
  update, IsFirst,
}
use ec440_projects.Run.{done, fault, Ends}
use ec440_projects.Threads.{
  State, Thread, Status, Context, SemInfo, returned, jumped, unset, in_exit, in_join, started,
  initialized, nobody, is_ready,
}
use ec440_projects.Threads.Schedule.{scheduler}
use ec440_projects.Threads.Scheduled.{Switched, scheduler-round_robin, scheduler-Ends}
use ec440_projects.Threads.Ops.{
  pthread_create, pthread_exit, pthread_exit_resumed, pthread_join, pthread_join_resumed, lock,
  unlock,
}
use ec440_projects.Threads.Handshake.{Joined, pthread_join-waiting, pthread_exit-Joined}
use ec440_projects.Threads.Create.{Added, pthread_create-Added, pthread_create-full, is_fresh_in}
use ec440_projects.Threads.Sem.{sem_wait, sem_post}
use ec440_projects.Threads.Queue.{
  IsSem, HandedOver, sem_post-sem_wait, sem_wait-HandedOver, sem_wait-main,
}

abbrev slot : Status → Context → ℕ → ℕ → Thread
slot status reg joining i = record {
  id = i;
  status = status;
  stack = true;
  reg = reg;
  exitcode = 0;
  joining = joining;
}

abbrev state_of : (ℕ → Thread) → ℕ → SemInfo → State
state_of tcb curr sem = record {
  tcb = tcb;
  curr_tid = curr;
  total_threads = pos 3;
  first_call = false;
  sem = λ p. some sem;
  next_sem = 1;
  masked = false;
  alarm = true;
}

abbrev sem_of : ℕ → SemInfo
sem_of v = record { val = pos v; waiting = λ i. 0; status = initialized }

-- Thread 0 runs, thread 2 is ready, thread 3 has exited and waits, thread 4 is waited for by 0, and
-- all the others are fresh.
abbrev table : ℕ → Thread
table =
    update
      (update
        (update (update (slot Status.fresh unset nobody) 0 (slot Status.running unset nobody 0)) 2
          (slot Status.ready (started 7 8) nobody 2))
        3 (slot Status.waiting (in_exit 9) nobody 3))
      4 (slot Status.running (in_join 0 true) 0 4)

abbrev small : State
small = state_of table 0 (sem_of 2)

abbrev exited_table : ℕ → Thread
exited_table = slot Status.exited unset nobody

scheduler-round_robin_example :
    (s' : State) × (scheduler {A = ℕ} small ≡ done (jumped 2 (pos 1) s')) × Switched small 2 s'
scheduler-round_robin_example =
    scheduler-round_robin small 1 (omega arith) (omega arith) refl skipped
  where
    skipped : (e : ℕ) → e < 1 → is_ready (table ((0 + 1 + e) % 128)).status ≡ false
    skipped zero h = refl
    skipped (suc e) h = absurd (omega arith)

scheduler-Ends_example : Ends (scheduler {A = ℕ} small)
scheduler-Ends_example = scheduler-Ends small (omega arith)

pthread_join-waiting_example :
    (into : State) × (ended : State) × (back : State) × (pthread_join 3 true small
      ≡ done (jumped 3 (pos 128) into))
    × ((into.tcb 3).reg ≡ in_exit 9)
    × (pthread_exit_resumed {A = ℕ} 9 (pos 128) into ≡ done (jumped 0 (pos 1) ended))
    × ((ended.tcb 0).reg ≡ in_join 3 true)
    × (pthread_join_resumed 3 true ended ≡ done (returned (pos 0, some 9) back))
    × Joined small 0 3 back
    × (pthread_join 3 true back ≡ done (returned (pos 0, none) (unlock back)))
pthread_join-waiting_example =
    pthread_join-waiting small 3 9 (omega arith) (omega arith) (λ e. absurd (omega arith)) refl refl

pthread_exit-Joined_example :
    (ended : State) × (back : State) × (pthread_exit {A = ℕ} 6 (state_of table 4 (sem_of 0))
      ≡ done (jumped 0 (pos 1) ended))
    × ((ended.tcb 0).reg ≡ unset)
    × (pthread_join_resumed 4 true ended ≡ done (returned (pos 0, some 6) back))
    × Joined (state_of table 4 (sem_of 0)) 0 4 back
pthread_exit-Joined_example =
    pthread_exit-Joined (state_of table 4 (sem_of 0)) 0 6 (omega arith) (λ e. absurd (omega arith))
      refl

pthread_create-Added_example :
    (s' : State) × (pthread_create 7 8 small ≡ done (returned (pos 0, some 1) s'))
    × Added small 1 7 8 s'
pthread_create-Added_example = pthread_create-Added small 1 7 8 refl refl first_one
  where
    first_one : IsFirst (is_fresh_in small) 128 1
    first_one = record { inside = omega arith; hit = refl; misses = λ j l. before j l }
      where
        before : (j : ℕ) → j < 1 → is_fresh_in small j ≡ false
        before zero l = refl
        before (suc j) l = absurd (omega arith)

abbrev full : State
full = state_of exited_table 0 (sem_of 0)

pthread_create-full_example :
    (ltb_ℤ (pos 128) (pos 3) ≡ false → pthread_create 7 8 full ≡ fault)
    × (ltb_ℤ (pos 128) (pos 3) ≡ true
        → pthread_create 7 8 full ≡ done (returned (minus_one, none) (lock full)))
pthread_create-full_example = pthread_create-full full 7 8 refl (λ j l. refl)

abbrev at_start : State
at_start = record {
  tcb = λ i. slot Status.ready unset 0 0;
  curr_tid = 0;
  total_threads = pos 0;
  first_call = true;
  sem = λ p. none;
  next_sem = 0;
  masked = false;
  alarm = false;
}

sem_post-sem_wait_example :
    (s' : State) × (sem_wait 0 small ≡ done (returned (pos 0) s'))
    × IsSem 0 (pos 1) (sem_of 1) s'
    × (sem_post 0 s' ≡ done (returned (pos 0) small))
sem_post-sem_wait_example =
    sem_post-sem_wait small 0 0 (sem_of 2) (record { loads = refl; alive = refl; value = refl })

abbrev third_runs : State
third_runs = state_of (slot Status.ready (started 1 1) nobody) 3 (sem_of 0)

empty_sem : (s : State) → s.sem 0 ≡ some (sem_of 0) → IsSem 0 (pos 0) (sem_of 0) s
empty_sem s e = record { loads = e; alive = refl; value = refl }

no_one : (e : ℕ) → e < 0 → true ≡ false
no_one e h = absurd (omega arith)

sem_wait-HandedOver_example : HandedOver third_runs 0 4
sem_wait-HandedOver_example =
    sem_wait-HandedOver third_runs 0 0 (sem_of 0) (empty_sem third_runs refl) (λ i. refl)
      (λ e. absurd (omega arith)) (omega arith) (omega arith) refl no_one

abbrev main_runs : State
main_runs = state_of (slot Status.ready (started 1 1) nobody) 0 (sem_of 0)

sem_wait-main_example :
    (s' : State) × (sem_wait 0 main_runs ≡ done (jumped 1 (pos 1) s'))
    × ((s'.tcb 0).status ≡ Status.blocked)
    × (sem_post 0 s' ≡ fault)
sem_wait-main_example =
    sem_wait-main main_runs 0 0 (sem_of 0) (empty_sem main_runs refl) (λ i. refl) refl (omega arith)
      refl no_one
