-- ===== src/Threads2/Erase.antt =====
-- What Project 2/threads.c keeps of a state of Project3/threads.c.
use ec440_projects.Prelude.{
  ℕ, ◌≡◌, refl, true, false, ◌==◌, ◌⊎◌, inl, inr, Bool-cases, update, if◌then◌else◌, fun_ext,
}
use ec440_projects.Run.{Run, done, fault, out_of_fuel}
use ec440_projects.Threads
use ec440_projects.Threads2

abbrev pub erase_status : Threads.Status → Threads2.Status
erase_status Threads.Status.ready = Threads2.Status.ready
erase_status Threads.Status.running = Threads2.Status.running
erase_status Threads.Status.exited = Threads2.Status.exited
erase_status Threads.Status.waiting = Threads2.Status.exited
erase_status Threads.Status.fresh = Threads2.Status.fresh
erase_status Threads.Status.blocked = Threads2.Status.exited

abbrev pub erase_context : Threads.Context → Threads2.Context
erase_context Threads.unset = Threads2.unset
erase_context (Threads.started routine arg) = Threads2.started routine arg
erase_context Threads.in_create = Threads2.in_create
erase_context Threads.in_scheduler = Threads2.in_scheduler
erase_context (Threads.in_exit value) = Threads2.unset
erase_context (Threads.in_join thread wants) = Threads2.unset

abbrev pub erase_thread : Threads.Thread → Threads2.Thread
erase_thread t = record {
  id = t.id;
  status = erase_status t.status;
  stack = if t.stack then Threads2.allocated else Threads2.null;
  reg = erase_context t.reg;
}

-- What Project 2 keeps of the state: no exit values, no joins and no semaphores. A thread that waits
-- is one that does not run.
abbrev pub erase : Threads.State → Threads2.State
erase s = record {
  tcb = λ i. erase_thread (s.tcb i);
  curr_tid = s.curr_tid;
  total_threads = s.total_threads;
  first_call = s.first_call;
  alarm = s.alarm;
}

abbrev pub erase_outcome {ℓ} : {A : Type ℓ} → Run (Threads.Outcome A) → Run (Threads2.Outcome A)
erase_outcome fault = fault
erase_outcome out_of_fuel = out_of_fuel
erase_outcome (done (Threads.returned a s)) = done (Threads2.returned a (erase s))
erase_outcome (done (Threads.jumped tid v s)) = done (Threads2.jumped tid v (erase s))

pub is_ready-erase : (t : Threads.Status) → Threads2.is_ready (erase_status t) ≡ Threads.is_ready t
is_ready-erase Threads.Status.ready = refl
is_ready-erase Threads.Status.running = refl
is_ready-erase Threads.Status.exited = refl
is_ready-erase Threads.Status.waiting = refl
is_ready-erase Threads.Status.fresh = refl
is_ready-erase Threads.Status.blocked = refl

pub is_running-erase :
    (t : Threads.Status) → Threads2.is_running (erase_status t) ≡ Threads.is_running t
is_running-erase Threads.Status.ready = refl
is_running-erase Threads.Status.running = refl
is_running-erase Threads.Status.exited = refl
is_running-erase Threads.Status.waiting = refl
is_running-erase Threads.Status.fresh = refl
is_running-erase Threads.Status.blocked = refl

pub is_fresh-erase : (t : Threads.Status) → Threads2.is_fresh (erase_status t) ≡ Threads.is_fresh t
is_fresh-erase Threads.Status.ready = refl
is_fresh-erase Threads.Status.running = refl
is_fresh-erase Threads.Status.exited = refl
is_fresh-erase Threads.Status.waiting = refl
is_fresh-erase Threads.Status.fresh = refl
is_fresh-erase Threads.Status.blocked = refl

pub erase-update :
    (tcb : ℕ → Threads.Thread) (j : ℕ) (t : Threads.Thread)
    → (λ i. erase_thread (update tcb j t i)) ≡ update (λ i. erase_thread (tcb i)) j (erase_thread t)
erase-update tcb j t = fun_ext λ i. at i (Bool-cases (j == i))
  where
    at :
        (i : ℕ)
        → ((j == i) ≡ true) ⊎ ((j == i) ≡ false)
        → erase_thread (update tcb j t i) ≡ update (λ i. erase_thread (tcb i)) j (erase_thread t) i
    at i (inl e) = rw e refl
    at i (inr e) = rw e refl
