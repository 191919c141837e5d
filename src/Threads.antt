-- ===== src/Threads.antt =====
-- Project3/threads.c: threads of one process, with join and semaphores. A thread runs until it
-- returns to its caller or until `longjmp` leaves it for the context that another thread saved; both
-- are an `Outcome`. A saved context says which `setjmp` filled the buffer, and the functions whose
-- names end in `_resumed` are the code that runs when that `setjmp` returns once more. An `int` that
-- counts threads or a semaphore does not wrap, and `malloc` succeeds.
pub mod Schedule
pub mod Ops
pub mod Sem
pub mod RoundRobin
pub mod Scheduled
pub mod Handshake
pub mod Create
pub mod Queue
mod Tests
use ec440_projects.Prelude.{ℕ, ◌-◌, ◌^◌, Bool, true, false, Option, ℤ}
use ec440_projects.Run.{Run}

abbrev pub max_threads : ℕ
max_threads = 128

pub data Status : Type 0 where
  ready : Status
  running : Status
  exited : Status
  waiting : Status
  fresh : Status
  blocked : Status

abbrev pub is_ready : Status → Bool
is_ready Status.ready = true
is_ready _ = false

abbrev pub is_running : Status → Bool
is_running Status.running = true
is_running _ = false

abbrev pub is_exited : Status → Bool
is_exited Status.exited = true
is_exited _ = false

abbrev pub is_waiting : Status → Bool
is_waiting Status.waiting = true
is_waiting _ = false

abbrev pub is_fresh : Status → Bool
is_fresh Status.fresh = true
is_fresh _ = false

-- What a `jmp_buf` holds: nothing, the start of a thread on a stack whose first return address is
-- `pthread_exit_wrapper`, or a place where `setjmp` was called.
pub data Context : Type 0 where
  unset : Context
  started : ℕ → ℕ → Context
  in_create : Context
  in_scheduler : Context
  in_exit : ℕ → Context
  in_join : ℕ → Bool → Context

-- `stack` says whether the pointer holds an allocated stack.
pub record Thread : Type 0 where
  pub id : ℕ
  pub status : Status
  pub stack : Bool
  pub reg : Context
  pub exitcode : ℕ
  pub joining : ℕ

-- `joining = -1`, as an unsigned number.
abbrev pub nobody : ℕ
nobody = 2 ^ 64 - 1

pub data SemStatus : Type 0 where
  destroyed : SemStatus
  initialized : SemStatus

pub record SemInfo : Type 0 where
  pub val : ℤ
  pub waiting : ℕ → ℕ
  pub status : SemStatus

-- The static variables, the semaphores on the heap, whether SIGALRM is blocked, and whether the
-- alarm with its handler is set.
pub record State : Type 0 where
  pub tcb : ℕ → Thread
  pub curr_tid : ℕ
  pub total_threads : ℤ
  pub first_call : Bool
  pub sem : ℕ → Option SemInfo
  pub next_sem : ℕ
  pub masked : Bool
  pub alarm : Bool

-- A function returns, or `longjmp` continues the context of a thread with a value.
pub data Outcome {ℓ} (A : Type ℓ) : Type ℓ where
  returned : A → State → Outcome A
  jumped : ℕ → ℤ → State → Outcome A

abbrev pub Outcomes {ℓ} : Type ℓ → Type ℓ
Outcomes A = Run (Outcome A)
