-- ===== src/Threads/Queue.antt =====
-- Semaphores of Project3/threads.c: counting, waiting and waking.
use ec440_projects.Prelude.{
  ℕ, suc, ◌+◌, ◌%◌, ◌<◌, ◌≡◌, ◌≢◌, inl, inr, refl, sym, true, false, not, some, ℤ, pos, ltb, ◌==◌,
  arith, Bool-cases, update, update-update, update_self, IsFirst, first_found, first_absent,
}
use ec440_projects.Run.{done, fault}
use ec440_projects.Threads.{State, Status, SemInfo, returned, jumped, initialized, is_ready}
use ec440_projects.Threads.Schedule.{scheduler, set_status}
use ec440_projects.Threads.Scheduled.{Switched, scheduler-round_robin}
use ec440_projects.Threads.Sem.{sem_wait, sem_post, store_sem}

-- The semaphore behind `p` is alive and has this value.
pub record IsSem (p : ℕ) (v : ℤ) (sem : SemInfo) (s : State) : Type 0 where
  pub loads : s.sem p ≡ some sem
  pub alive : sem.status ≡ initialized
  pub value : sem.val ≡ v

-- A wait on a semaphore of at least 2 and a post after it both return 0 and change only the value,
-- which is one less in between and the old one in the end.
pub sem_post-sem_wait :
    (s : State) (p n : ℕ) (sem : SemInfo)
    → IsSem p (pos (suc (suc n))) sem s
    → (s' : State) × (sem_wait p s ≡ done (returned (pos 0) s'))
      × IsSem p (pos (suc n)) (record sem { val = pos (suc n) }) s'
      × (sem_post p s' ≡ done (returned (pos 0) s))
unfolding sem_wait sem_post
sem_post-sem_wait s p n sem h =
    let same : (record sem { val = pos (suc (suc n)); status = initialized }) ≡ sem =
      ground (arith, h.value, h.alive) in
    let pp : (p == p) ≡ true = ground arith in
    let lt : ltb 0 (suc (suc n)) ≡ true = ground arith in
    let lt' : ltb 0 (suc n) ≡ true = ground arith in
    let ne : (suc n == 0) ≡ false = ground arith in
    (
      store_sem p (record sem { val = pos (suc n) }) s,
      rw (h.loads, h.alive, h.value, lt),
      record { loads = rw pp; alive = h.alive; value = refl },
      rw (
        pp,
        h.alive,
        ne,
        lt',
        update-update s.sem p (some (record sem { val = pos (suc n); status = initialized }))
            (some (record sem { val = pos (suc (suc n)); status = initialized })),
        same,
        update_self s.sem p (some sem) (sym h.loads),
      ),
    )

-- The current thread is blocked, in the first slot of the queue.
abbrev waiting_state : ℕ → SemInfo → State → State
waiting_state p sem s =
    store_sem p (record sem { waiting = update sem.waiting 0 s.curr_tid })
      (set_status s.curr_tid Status.blocked s)

sem_wait-scheduler :
    (s : State) (p : ℕ) (sem : SemInfo)
    → IsSem p (pos 0) sem s
    → sem.waiting 0 ≡ 0
    → sem_wait p s ≡ scheduler (waiting_state p sem s)
unfolding sem_wait
sem_wait-scheduler s p sem h w =
    let at : IsFirst (λ i. sem.waiting i == 0) 128 0 = record {
      inside = omega arith;
      hit = rw w refl;
      misses = λ j l. absurd (omega arith);
    } in
    let here = first_found (λ i. sem.waiting i == 0) 128 0 at in
    rw (h.loads, h.alive, h.value, here)

-- Thread `c`, in the first slot of the queue, runs.
abbrev woken_state : ℕ → ℕ → SemInfo → State → State
woken_state p c sem s =
    set_status c Status.running (store_sem p (record sem { waiting = update sem.waiting 0 0 }) s)

sem_post-wake :
    (s : State) (p : ℕ) (sem : SemInfo)
    → IsSem p (pos 0) sem s
    → sem.waiting 0 ≢ 0
    → sem.waiting 0 < 128
    → sem_post p s ≡ done (jumped (sem.waiting 0) (pos 1) (woken_state p (sem.waiting 0) sem s))
unfolding sem_post
sem_post-wake s p sem h n l =
    let no : (sem.waiting 0 == 0) ≡ false = ground arith in
    let at : IsFirst (λ i. not (sem.waiting i == 0)) 128 0 = record {
      inside = omega arith;
      hit = rw no refl;
      misses = λ j m. absurd (omega arith);
    } in
    let here = first_found (λ i. not (sem.waiting i == 0)) 128 0 at in
    let inside : ltb (sem.waiting 0) 128 ≡ true = ground arith in
    rw (h.loads, h.alive, h.value, here, inside)

-- What a wait on a semaphore of 0 and the post that ends it do.
pub record HandedOver (s : State) (p k : ℕ) : Type 0 where
  pub waiting : State
  pub woken : State
  pub waits : sem_wait p s ≡ done (jumped k (pos 1) waiting)
  pub blocks : (waiting.tcb s.curr_tid).status ≡ Status.blocked
  pub posts : sem_post p waiting ≡ done (jumped s.curr_tid (pos 1) woken)
  pub runs : (woken.tcb s.curr_tid).status ≡ Status.running
  pub context : (woken.tcb s.curr_tid).reg ≡ (s.tcb s.curr_tid).reg
  pub current : woken.curr_tid ≡ k
  pub empties : woken.sem p ≡ s.sem p

-- A running thread, neither thread 0 nor the last one, that waits on a semaphore of 0 whose queue is
-- empty blocks, and the next ready thread `k` runs. A post by `k` continues the waiting thread and
-- empties the queue again. The context that continues is the one that was saved before the wait, and
-- the current thread is still `k`.
pub sem_wait-HandedOver :
    (s : State) (p d : ℕ) (sem : SemInfo)
    → IsSem p (pos 0) sem s
    → ((i : ℕ) → sem.waiting i ≡ 0)
    → s.curr_tid ≢ 0
    → s.curr_tid < 127
    → d < 127
    → is_ready (s.tcb ((s.curr_tid + 1 + d) % 128)).status ≡ true
    → ((e : ℕ) → e < d → is_ready (s.tcb ((s.curr_tid + 1 + e) % 128)).status ≡ false)
    → HandedOver s p ((s.curr_tid + 1 + d) % 128)
sem_wait-HandedOver s p d sem h w z l m r n =
    hand_over (
      scheduler-round_robin s₀ d l m (rw (other d m) r) (λ e f. rw (other e (omega arith)) (n e f)))
  where
    s₀ : State
    s₀ = waiting_state p sem s

    other : (e : ℕ) → e < 127 → (s.curr_tid == ((s.curr_tid + 1 + e) % 128)) ≡ false
    other e f =
        let o : (s.curr_tid + 1 + e) % 128 ≢ s.curr_tid = λ q. absurd (omega arith) in
        ground (arith, o)

    hand_over :
        (s' : State) × (scheduler {A = ℤ} (waiting_state p sem s)
            ≡ done (jumped ((s.curr_tid + 1 + d) % 128) (pos 1) s'))
          × Switched (waiting_state p sem s) ((s.curr_tid + 1 + d) % 128) s'
        → HandedOver s p ((s.curr_tid + 1 + d) % 128)
    hand_over (s', e, sw) =
        let pp : (p == p) ≡ true = ground arith in
        let cs : (s.curr_tid == s.curr_tid) ≡ true = ground arith in
        let ne : (s.curr_tid + 1 + d) % 128 ≢ s.curr_tid = λ q. absurd (omega arith) in
        let kept : s'.tcb s.curr_tid ≡ (waiting_state p sem s).tcb s.curr_tid =
          sw.current_keeps ne (rw cs refl) in
        let queued : IsSem p (pos 0) (record sem { waiting = update sem.waiting 0 s.curr_tid }) s' =
          record { loads = rw sw.sems (rw pp); alive = h.alive; value = h.value } in
        record {
          waiting = s';
          woken =
              woken_state p s.curr_tid (record sem { waiting = update sem.waiting 0 s.curr_tid })
                s';
          waits = rw (sem_wait-scheduler s p sem h (w 0)) e;
          blocks = rw kept (rw cs);
          posts =
              sem_post-wake s' p (record sem { waiting = update sem.waiting 0 s.curr_tid }) queued z
                (omega arith);
          runs = rw cs;
          context = rw cs (rw kept (rw cs));
          current = sw.current;
          empties = rw pp (
              rw
                (
                  update-update sem.waiting 0 s.curr_tid 0,
                  update_self sem.waiting 0 0 (sym (w 0)),
                  sym h.loads,
                )
                refl);
        }

-- Thread 0 is lost in the queue: when it waits on a semaphore of 0 whose queue is empty, the queue
-- stays empty, and a post by the thread that runs next reads behind the queue.
pub sem_wait-main :
    (s : State) (p d : ℕ) (sem : SemInfo)
    → IsSem p (pos 0) sem s
    → ((i : ℕ) → sem.waiting i ≡ 0)
    → s.curr_tid ≡ 0
    → d < 127
    → is_ready (s.tcb ((s.curr_tid + 1 + d) % 128)).status ≡ true
    → ((e : ℕ) → e < d → is_ready (s.tcb ((s.curr_tid + 1 + e) % 128)).status ≡ false)
    → (s' : State) × (sem_wait p s ≡ done (jumped ((s.curr_tid + 1 + d) % 128) (pos 1) s'))
      × ((s'.tcb s.curr_tid).status ≡ Status.blocked)
      × (sem_post p s' ≡ fault)
unfolding sem_post
sem_wait-main s p d sem h w z m r n = lose (
    scheduler-round_robin (waiting_state p sem s) d (omega arith) m (rw (other d m) r)
      (λ e f. rw (other e (omega arith)) (n e f)))
  where
    other : (e : ℕ) → e < 127 → (s.curr_tid == ((s.curr_tid + 1 + e) % 128)) ≡ false
    other e f =
        let o : (s.curr_tid + 1 + e) % 128 ≢ s.curr_tid = λ q. absurd (omega arith) in
        ground (arith, o)

    empty : (i : ℕ) → update sem.waiting 0 s.curr_tid i ≡ 0
    empty i = elim (Bool-cases (0 == i)) [ inl e ↦ rw (e, z) | inr e ↦ rw (e, w i) ]

    none_waits : (i : ℕ) → not (update sem.waiting 0 s.curr_tid i == 0) ≡ false
    none_waits i = rw (empty i) refl

    lose :
        (s' : State) × (scheduler {A = ℤ} (waiting_state p sem s)
            ≡ done (jumped ((s.curr_tid + 1 + d) % 128) (pos 1) s'))
          × Switched (waiting_state p sem s) ((s.curr_tid + 1 + d) % 128) s'
        → (s' : State) × (sem_wait p s ≡ done (jumped ((s.curr_tid + 1 + d) % 128) (pos 1) s'))
          × ((s'.tcb s.curr_tid).status ≡ Status.blocked)
          × (sem_post p s' ≡ fault)
    lose (s', e, sw) =
        let pp : (p == p) ≡ true = ground arith in
        let cs : (s.curr_tid == s.curr_tid) ≡ true = ground arith in
        let ne : (s.curr_tid + 1 + d) % 128 ≢ s.curr_tid = λ q. absurd (omega arith) in
        let kept : s'.tcb s.curr_tid ≡ (waiting_state p sem s).tcb s.curr_tid =
          sw.current_keeps ne (rw cs refl) in
        let past =
          first_absent (λ i. not (update sem.waiting 0 s.curr_tid i == 0)) 128
            (λ j _. none_waits j) in
        (
          s',
          rw (sem_wait-scheduler s p sem h (w 0)) e,
          rw kept (rw cs),
          rw (sw.sems, pp, h.alive, h.value, past),
        )
