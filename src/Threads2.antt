-- ===== src/Threads2.antt =====
-- Project 2/threads.c: the threads of a process before join and semaphores. As in Project3, a call
-- ends with a return or with a `longjmp` into a saved context, and a thread that returns from its
-- routine enters `pthread_exit`, whose address lies on its stack. An `int` that counts threads does
-- not wrap, and `malloc` succeeds.
pub mod Ops
pub mod Erase
pub mod Same
pub mod Exit
mod Tests
use ec440_projects.Prelude.{
  ℕ, zero, suc, ◌+◌, ◌-◌, ◌%◌, Bool, true, false, ◌||◌, Option, none, some, ℤ, pos, minus_one,
  suc_ℤ, pred_ℤ, ltb, ltb_ℤ, ◌==◌, update, first, if◌then◌else◌,
}
use ec440_projects.Run.{Run, done, fault, out_of_fuel, access, on, ◌>>=◌}

abbrev pub max_threads : ℕ
max_threads = 128

pub data Status : Type 0 where
  ready : Status
  running : Status
  exited : Status
  fresh : Status

abbrev pub is_ready : Status → Bool
is_ready Status.ready = true
is_ready _ = false

abbrev pub is_running : Status → Bool
is_running Status.running = true
is_running _ = false

abbrev pub is_fresh : Status → Bool
is_fresh Status.fresh = true
is_fresh _ = false

-- What a `jmp_buf` holds: nothing, the start of a thread, or a place where `setjmp` was called.
pub data Context : Type 0 where
  unset : Context
  started : ℕ → ℕ → Context
  in_create : Context
  in_scheduler : Context

-- What the pointer `stack` is: null, a block of the heap, or a block that was freed.
pub data Stack : Type 0 where
  null : Stack
  allocated : Stack
  freed : Stack

pub record Thread : Type 0 where
  pub id : ℕ
  pub status : Status
  pub stack : Stack
  pub reg : Context

-- The static variables, and whether the alarm with its handler is set.
pub record State : Type 0 where
  pub tcb : ℕ → Thread
  pub curr_tid : ℕ
  pub total_threads : ℤ
  pub first_call : Bool
  pub alarm : Bool

-- A function returns, or `longjmp` continues the context of a thread with a value.
pub data Outcome {ℓ} (A : Type ℓ) : Type ℓ where
  returned : A → State → Outcome A
  jumped : ℕ → ℤ → State → Outcome A

abbrev pub Outcomes {ℓ} : Type ℓ → Type ℓ
Outcomes A = Run (Outcome A)
