-- ===== src/Threads/Scheduled.antt =====
-- What a call of the scheduler of Project3/threads.c does.
use ec440_projects.Prelude.{
  ℕ, ◌+◌, ◌%◌, ◌<◌, ◌≡◌, ◌≢◌, ◌⊎◌, inl, inr, refl, subst, Bool, true, false, ◌||◌, pos, ◌==◌, arith,
  Bool-cases, update, first, First, first-First,
}
use ec440_projects.Run.{done, fault, Ends, returns, faults}
use ec440_projects.Threads.{State, Status, jumped, in_scheduler, is_ready, is_running, max_threads}
use ec440_projects.Threads.Schedule.{find_next, scheduler, preempted}
use ec440_projects.Threads.RoundRobin.{IsNext, find_next-IsNext}

-- The state in which thread `k` continues after `s`.
pub record Switched (s : State) (k : ℕ) (s' : State) : Type 0 where
  pub current : s'.curr_tid ≡ k
  pub runs : (s'.tcb k).status ≡ Status.running
  pub saves :
      k ≢ s.curr_tid
      → (s.tcb s.curr_tid).status ≡ Status.running
      → s'.tcb s.curr_tid ≡ record (s.tcb s.curr_tid) { status = Status.ready; reg = in_scheduler }
  pub keeps : k ≢ s.curr_tid → (s'.tcb k).reg ≡ (s.tcb k).reg
  pub others : (j : ℕ) → j ≢ k → j ≢ s.curr_tid → s'.tcb j ≡ s.tcb j
  pub current_keeps :
      k ≢ s.curr_tid
      → is_running (s.tcb s.curr_tid).status ≡ false
      → s'.tcb s.curr_tid ≡ s.tcb s.curr_tid
  pub sems : s'.sem ≡ s.sem

abbrev switched : ℕ → State → State
switched k s = record (preempted s) {
  curr_tid = k;
  tcb = update (preempted s).tcb k (record ((preempted s).tcb k) { status = Status.running });
}

preempted-others : (s : State) (j : ℕ) → j ≢ s.curr_tid → (preempted s).tcb j ≡ s.tcb j
preempted-others s j h =
    let e : (s.curr_tid == j) ≡ false = ground arith in
    elim (Bool-cases (is_running (s.tcb s.curr_tid).status)) [ inl r ↦ rw (r, e) | inr r ↦ rw r ]

preempted-current :
    (s : State)
    → (s.tcb s.curr_tid).status ≡ Status.running
    → (preempted s).tcb s.curr_tid
      ≡ record (s.tcb s.curr_tid) { status = Status.ready; reg = in_scheduler }
preempted-current s h =
    let e : (s.curr_tid == s.curr_tid) ≡ true = ground arith in
    let r : is_running (s.tcb s.curr_tid).status ≡ true = rw h refl in rw (r, e)

switch_to-Switched : (s : State) (k : ℕ) → Switched s k (switched k s)
switch_to-Switched s k = record {
  current = refl;
  runs = let e : (k == k) ≡ true = ground arith in rw e;
  saves = λ n h. let e : (k == s.curr_tid) ≡ false = ground arith in rw e (preempted-current s h);
  keeps = λ n. let e : (k == k) ≡ true = ground arith in rw e (rw (preempted-others s k n));
  current_keeps = λ n r. let e : (k == s.curr_tid) ≡ false = ground arith in rw (e, r);
  sems = elim (Bool-cases (is_running (s.tcb s.curr_tid).status)) [ inl r ↦ rw r | inr r ↦ rw r ];
  others = λ j n m. let e : (k == j) ≡ false = ground arith in rw e (preempted-others s j m);
}

or_true : (b : Bool) → (b || true) ≡ true
or_true true = refl
or_true false = refl

scheduler-IsNext {ℓ} :
    {A : Type ℓ} (s : State) (d : ℕ)
    → s.curr_tid < 127
    → d < 128
    → IsNext s.curr_tid (s.curr_tid + 1) d s.tcb
    → scheduler {A = A} s
      ≡ done (jumped ((s.curr_tid + 1 + d) % 128) (pos 1) (switched ((s.curr_tid + 1 + d) % 128) s))
unfolding scheduler
scheduler-IsNext {A} s d h l n =
    rw (find_next-IsNext d max_threads s.curr_tid (s.curr_tid + 1) s.tcb l (omega arith) n)

-- Round robin: where thread `k`, `d + 1` places behind the current one in the table and not itself
-- the current one, is ready and no thread in between is, and the current thread is not in the last
-- slot, the scheduler switches to `k`: `k` is running with the context it had, a thread that was
-- running is ready with its context saved, and no other thread changes.
pub scheduler-round_robin {ℓ} :
    {A : Type ℓ} (s : State) (d : ℕ)
    → s.curr_tid < 127
    → d < 127
    → is_ready (s.tcb ((s.curr_tid + 1 + d) % 128)).status ≡ true
    → ((e : ℕ) → e < d → is_ready (s.tcb ((s.curr_tid + 1 + e) % 128)).status ≡ false)
    → (s' : State) × (scheduler {A = A} s ≡ done (jumped ((s.curr_tid + 1 + d) % 128) (pos 1) s'))
      × Switched s ((s.curr_tid + 1 + d) % 128) s'
scheduler-round_robin s d h l r n = (
  switched ((s.curr_tid + 1 + d) % 128) s,
  scheduler-IsNext s d h (omega arith) (record {
    stops = rw r refl;
    passes = λ e m.
        let o : (((s.curr_tid + 1 + e) % 128) == s.curr_tid) ≡ false =
          not_current e (omega arith) (Bool-cases (((s.curr_tid + 1 + e) % 128) == s.curr_tid)) in
        rw (n e m, o);
  }),
  switch_to-Switched s ((s.curr_tid + 1 + d) % 128),
)
  where
    not_current :
        (e : ℕ)
        → e < 127
        → (((((s.curr_tid + 1 + e) % 128) == s.curr_tid) ≡ true)
            ⊎ ((((s.curr_tid + 1 + e) % 128) == s.curr_tid) ≡ false))
        → (((s.curr_tid + 1 + e) % 128) == s.curr_tid) ≡ false
    not_current e m (inr o) = o
    not_current e m (inl o) =
        let same : (s.curr_tid + 1 + e) % 128 ≡ s.curr_tid = ground arith in absurd (omega arith)

-- Where no other thread is ready and the current thread is not in the last slot, the scheduler
-- continues the current thread and makes it running, whatever its status was.
pub scheduler-nobody_ready {ℓ} :
    {A : Type ℓ} (s : State)
    → s.curr_tid < 127
    → ((j : ℕ) → j ≢ s.curr_tid → is_ready (s.tcb j).status ≡ false)
    → (s' : State) × (scheduler {A = A} s ≡ done (jumped s.curr_tid (pos 1) s'))
      × Switched s s.curr_tid s'
scheduler-nobody_ready {A} s h n = (
  switched s.curr_tid s,
  subst (λ k. scheduler {A = A} s ≡ done (jumped k (pos 1) (switched k s))) round
      (scheduler-IsNext s 127 h (omega arith) (record {
        stops =
            let o : (((s.curr_tid + 1 + 127) % 128) == s.curr_tid) ≡ true = ground (arith, round) in
            rw o (or_true _);
        passes = λ e m.
            let o : (s.curr_tid + 1 + e) % 128 ≢ s.curr_tid = λ q. absurd (omega arith) in
            let b : (((s.curr_tid + 1 + e) % 128) == s.curr_tid) ≡ false = ground (arith, o) in
            rw (n _ o, b);
      })),
  switch_to-Switched s s.curr_tid,
)
  where
    round : (s.curr_tid + 1 + 127) % 128 ≡ s.curr_tid
    round = omega arith

-- With the current thread in the last slot of the table, the scheduler reads the slot behind it.
scheduler-last {ℓ} : {A : Type ℓ} (s : State) → s.curr_tid ≡ 127 → scheduler {A = A} s ≡ fault
unfolding scheduler find_next
scheduler-last s h = rw h refl

-- The search of the scheduler stops within one round of the table: it returns, by a switch, or
-- reads behind the table.
pub scheduler-Ends {ℓ} : {A : Type ℓ} (s : State) → s.curr_tid < 128 → Ends (scheduler {A = A} s)
scheduler-Ends {A} s h = elim (Bool-cases (s.curr_tid == 127)) [
  | inl e ↦ let last : s.curr_tid ≡ 127 = ground arith in rw (scheduler-last {A = A} s last) faults
  | inr e ↦
      let inside : s.curr_tid < 127 = ground arith in
      rw
        (scheduler-IsNext {A = A} s (first stops 127 0) inside (ground (arith, f.to)) (record {
          stops = stop (Bool-cases (first stops 127 0 == 127));
          passes = λ k l. f.before k (omega arith) l;
        }))
        returns
]
  where
    stops : ℕ → Bool
    stops k =
        is_ready (s.tcb ((s.curr_tid + 1 + k) % 128)).status
        || (((s.curr_tid + 1 + k) % 128) == s.curr_tid)

    f : First stops 0 127 (first stops 127 0)
    f = first-First stops 127 0 127 refl

    round : s.curr_tid < 128 → (s.curr_tid + 1 + 127) % 128 ≡ s.curr_tid
    round l = omega arith

    stop :
        (((first stops 127 0 == 127) ≡ true) ⊎ ((first stops 127 0 == 127) ≡ false))
        → stops (first stops 127 0) ≡ true
    stop (inr e) = f.at (ground arith)
    stop (inl e) =
        let end : first stops 127 0 ≡ 127 = ground arith in
        let o : (((s.curr_tid + 1 + 127) % 128) == s.curr_tid) ≡ true = ground (arith, round h) in
        rw end (rw o (or_true _))
