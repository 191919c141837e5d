-- ===== src/Threads2/Tests.antt =====
-- The theorems about Project 2/threads.c at small tables of threads.
use ec440_projects.Prelude.{ℕ, ◌≡◌, refl, false, true, none, pos, update, ℤ, arith}
use ec440_projects.Run.{done, fault}
use ec440_projects.Threads
use ec440_projects.Threads2
use ec440_projects.Threads2.Erase.{erase, erase_outcome}
use ec440_projects.Threads2.Same.{scheduler-erase, pthread_create-erase}
use ec440_projects.Threads2.Exit.{pthread_exit-twice}

abbrev slot_3 : Threads.Status → ℕ → Threads.Thread
slot_3 status i = record {
  id = i;
  status = status;
  stack = true;
  reg = Threads.unset;
  exitcode = 0;
  joining = Threads.nobody;
}

-- Main runs, thread 1 is blocked, thread 2 is ready, and the other slots are fresh.
abbrev three : Threads.State
three = record {
  tcb =
      update
        (update (update (λ i. slot_3 Threads.Status.fresh i) 0 (slot_3 Threads.Status.running 0)) 1
          (slot_3 Threads.Status.blocked 1))
        2 (slot_3 Threads.Status.ready 2);
  curr_tid = 0;
  total_threads = pos 3;
  first_call = false;
  sem = λ p. none;
  next_sem = 0;
  masked = false;
  alarm = true;
}

scheduler-erase_example :
    Threads2.Ops.scheduler {A = ℤ} (erase three)
    ≡ erase_outcome (Threads.Schedule.scheduler {A = ℤ} three)
scheduler-erase_example = scheduler-erase {A = ℤ} three

pthread_create-erase_example :
    Threads2.Ops.pthread_create 7 9 (erase three)
    ≡ erase_outcome (Threads.Ops.pthread_create 7 9 three)
pthread_create-erase_example = pthread_create-erase 7 9 three

abbrev slot_2 : Threads2.Status → Threads2.Stack → ℕ → Threads2.Thread
slot_2 status stack i = record {
  id = i;
  status = status;
  stack = stack;
  reg = Threads2.in_scheduler;
}

-- Main is ready and thread 1 runs.
abbrev last_thread : Threads2.State
last_thread = record {
  tcb =
      update
        (update (λ i. slot_2 Threads2.Status.fresh Threads2.null i) 0
          (slot_2 Threads2.Status.ready Threads2.null 0))
        1 (slot_2 Threads2.Status.running Threads2.allocated 1);
  curr_tid = 1;
  total_threads = pos 2;
  first_call = false;
  alarm = true;
}

pthread_exit-twice_example :
    (s' : Threads2.State) × (Threads2.Ops.pthread_exit {A = ℤ} last_thread
      ≡ done (Threads2.jumped 0 (pos 1) s'))
    × (s'.curr_tid ≡ 1)
    × ((s'.tcb 1).status ≡ Threads2.Status.exited)
    × (s'.tcb 0 ≡ last_thread.tcb 0)
    × (s'.total_threads ≡ pos 1)
    × (Threads2.Ops.pthread_exit {A = ℤ} s' ≡ fault)
pthread_exit-twice_example =
    pthread_exit-twice last_thread refl (λ j a b n. ground (arith, n)) (omega arith)
