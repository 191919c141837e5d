-- ===== src/Threads/Handshake.antt =====
-- `pthread_create`, and how `pthread_join` and `pthread_exit` of Project3/threads.c meet.
use ec440_projects.Prelude.{
  to_int_small, to_int, ℕ, sym, ◌+◌, ◌<◌, ◌≡◌, ◌≢◌, refl, subst, Bool, true, false, none, some, pos,
  to_unsigned, sub_ℕ, pred_ℤ, ltb, ◌==◌, arith, update,
}
use ec440_projects.Run.{done}
use ec440_projects.Threads.{
  State, Status, returned, jumped, in_exit, in_join, is_exited, is_waiting, nobody,
}
use ec440_projects.Threads.Schedule.{set_status, set_reg, scheduler}
use ec440_projects.Threads.Ops.{
  pthread_exit, pthread_exit_resumed, pthread_join, pthread_join_resumed, lock, unlock,
}

-- The state after thread `t` has exited into thread `c`.
pub record Joined (s : State) (c t : ℕ) (s' : State) : Type 0 where
  pub current : s'.curr_tid ≡ c
  pub runs : (s'.tcb c).status ≡ Status.running
  pub ended : (s'.tcb t).status ≡ Status.exited
  pub freed : (s'.tcb t).stack ≡ false
  pub counted : s'.total_threads ≡ pred_ℤ s.total_threads
  pub unmasked : s'.masked ≡ false

-- The states in between: the joining thread `c` has jumped, the exiting thread `t` has jumped back,
-- the join has returned.
abbrev joining_state : ℕ → ℕ → State → State
joining_state c t s =
    unlock
      (record (set_reg c (in_join t true) (set_status c Status.blocked (lock s))) { curr_tid = t })

abbrev ended_state : ℕ → ℕ → ℕ → State → State
ended_state c t value s = record (unlock s) {
  tcb =
      update s.tcb t (record (s.tcb t) { status = Status.exited; stack = false; exitcode = value });
  total_threads = pred_ℤ s.total_threads;
  curr_tid = c;
}

abbrev back_state : ℕ → State → State
back_state c s = unlock (set_status c Status.running s)

pthread_exit-back {ℓ} :
    {A : Type ℓ} (s : State) (c value : ℕ)
    → c < 128
    → (s.tcb s.curr_tid).status ≡ Status.waiting
    → pthread_exit_resumed {A = A} value (pos (c + 128)) s
      ≡ done (jumped c (pos 1) (ended_state c s.curr_tid value s))
unfolding pthread_exit_resumed
pthread_exit-back s c value lc w =
    let a : (c + 128 == 0) ≡ false = ground arith in
    let next : to_unsigned 64 (sub_ℕ (c + 128) 128) ≡ c = ground arith in
    let inside : ltb c 128 ≡ true = ground arith in rw (a, w, next, inside)

-- A thread that joins another one that has called `pthread_exit` before jumps into it; that exit
-- jumps back, and the join returns 0 with the exit value. The other thread is exited then, with its
-- stack freed and one thread less counted, and a second join of it returns 0 and delivers nothing.
pub pthread_join-waiting :
    (s : State) (t value : ℕ)
    → s.curr_tid < 128
    → t < 128
    → t ≢ s.curr_tid
    → (s.tcb t).status ≡ Status.waiting
    → (s.tcb t).reg ≡ in_exit value
    → (into : State) × (ended : State) × (back : State) × (pthread_join t true s
        ≡ done (jumped t (pos (s.curr_tid + 128)) into))
      × ((into.tcb t).reg ≡ in_exit value)
      × (pthread_exit_resumed {A = ℕ} value (pos (s.curr_tid + 128)) into
          ≡ done (jumped s.curr_tid (pos 1) ended))
      × ((ended.tcb s.curr_tid).reg ≡ in_join t true)
      × (pthread_join_resumed t true ended ≡ done (returned (pos 0, some value) back))
      × Joined s s.curr_tid t back
      × (pthread_join t true back ≡ done (returned (pos 0, none) (unlock back)))
unfolding pthread_join pthread_join_resumed
pthread_join-waiting s t value lc lt n w r =
    let tc : (t == s.curr_tid) ≡ false = ground (arith, n) in
    let ct : (s.curr_tid == t) ≡ false = ground (arith, n) in
    let cs : (s.curr_tid == s.curr_tid) ≡ true = ground arith in
    let tt : (t == t) ≡ true = ground arith in
    let inside : ltb t 128 ≡ true = ground arith in
    let into = joining_state s.curr_tid t s in
    let ended = ended_state s.curr_tid t value into in
    (
      into,
      ended,
      back_state s.curr_tid ended,
      rw (inside, w, ct),
      rw ct r,
      pthread_exit-back into s.curr_tid value lc (rw ct w),
      rw (tc, cs),
      rw (tt, ct),
      record {
        current = refl;
        runs = rw cs;
        ended = rw (ct, tt);
        freed = rw (ct, tt);
        counted = refl;
        unmasked = refl;
      },
      rw (inside, ct, tt),
    )

-- A thread that joins another one that is neither exited nor waiting is blocked, with its context in
-- the join saved and noted as the one to continue, and calls the scheduler.
pub pthread_join-blocks :
    (s : State) (t : ℕ) (wants : Bool)
    → t < 128
    → t ≢ s.curr_tid
    → is_waiting (s.tcb t).status ≡ false
    → is_exited (s.tcb t).status ≡ false
    → (s' : State) × (pthread_join t wants s ≡ scheduler s')
      × (s'.curr_tid ≡ s.curr_tid)
      × ((s'.tcb s.curr_tid).reg ≡ in_join t wants)
      × ((s'.tcb s.curr_tid).status ≡ Status.blocked)
      × ((s'.tcb t).joining ≡ s.curr_tid)
      × ((s'.tcb t).status ≡ (s.tcb t).status)
unfolding pthread_join
pthread_join-blocks s t wants lt n w x =
    let tc : (t == s.curr_tid) ≡ false = ground (arith, n) in
    let ct : (s.curr_tid == t) ≡ false = ground (arith, n) in
    let cs : (s.curr_tid == s.curr_tid) ≡ true = ground arith in
    let tt : (t == t) ≡ true = ground arith in
    let inside : ltb t 128 ≡ true = ground arith in
    let on_hold =
      set_reg s.curr_tid (in_join t wants) (set_status s.curr_tid Status.blocked (lock s)) in
    (
      unlock (record on_hold {
        tcb = update on_hold.tcb t (record (on_hold.tcb t) { joining = s.curr_tid });
      }),
      rw (inside, x, ct, w),
      refl,
      rw (tc, cs),
      rw (tc, cs),
      rw tt,
      rw (tt, ct),
    )

-- The exit of a thread that another one waits for jumps back to that one, whose join returns 0 with
-- the exit value; the thread is exited, with its stack freed and one thread less counted.
pub pthread_exit-Joined :
    (s : State) (c value : ℕ)
    → c < 128
    → c ≢ s.curr_tid
    → (s.tcb s.curr_tid).joining ≡ c
    → (ended : State) × (back : State) × (pthread_exit {A = ℕ} value s
        ≡ done (jumped c (pos 1) ended))
      × ((ended.tcb c).reg ≡ (s.tcb c).reg)
      × (pthread_join_resumed s.curr_tid true ended ≡ done (returned (pos 0, some value) back))
      × Joined s c s.curr_tid back
unfolding pthread_join_resumed pthread_exit pthread_exit_resumed
pthread_exit-Joined s c value lc n j =
    let tc : (s.curr_tid == c) ≡ false = ground (arith, n) in
    let ct : (c == s.curr_tid) ≡ false = ground (arith, n) in
    let cs : (c == c) ≡ true = ground arith in
    let tt : (s.curr_tid == s.curr_tid) ≡ true = ground arith in
    let known : ((s.tcb s.curr_tid).joining == nobody) ≡ false = ground (arith, j) in
    let offset : to_int ((s.tcb s.curr_tid).joining + 128) ≡ pos (c + 128) =
      subst (λ k. to_int (k + 128) ≡ pos (c + 128)) (sym j)
        (to_int_small (c + 128) (omega arith)) in
    let into = set_status s.curr_tid Status.waiting (lock s) in
    let ended = ended_state c s.curr_tid value into in
    (
      ended,
      back_state c ended,
      rw (known, offset) (pthread_exit-back into c value lc (rw tt)),
      rw tc,
      rw tt,
      record {
        current = refl;
        runs = rw cs;
        ended = rw (ct, tt);
        freed = rw (ct, tt);
        counted = refl;
        unmasked = refl;
      },
    )
