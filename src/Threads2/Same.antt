-- ===== src/Threads2/Same.antt =====
-- The scheduler and `pthread_create` of Project 2/threads.c do what those of Project3/threads.c do
-- to the part of the state that both have.
use ec440_projects.Prelude.{
  ℕ, zero, suc, ◌+◌, ◌%◌, ◌≡◌, refl, ap, sym, ◌∙◌, Bool, true, false, ◌||◌, Option, none, some, ℤ,
  pos, minus_one, ltb, ltb_ℤ, ◌==◌, update, first, if◌then◌else◌, fun_ext,
}
use ec440_projects.Run.{Run, done, fault, out_of_fuel, access, on, ◌>>=◌}
use ec440_projects.Threads
use ec440_projects.Threads2
use ec440_projects.Threads2.Erase.{
  erase_thread, erase, erase_outcome, is_ready-erase, is_running-erase, is_fresh-erase,
  erase-update,
}

-- One round of the search.
round-erase :
    (inside : Bool) (t : Threads.Thread) (curr next : ℕ) (k k' : Run ℕ)
    → k ≡ k'
    → (access inside (erase_thread t) >>= λ u. elim (Threads2.is_ready u.status || next == curr) [
      | true ↦ done next
      | false ↦ k
    ])
      ≡ (access inside t >>= λ u. elim (Threads.is_ready u.status || next == curr) [
        | true ↦ done next
        | false ↦ k'
      ])
round-erase false t curr next k k' e = refl
round-erase true t curr next k k' e =
    ap (λ (b : Bool). elim (b || next == curr) as (λ x. Run ℕ) [ true ↦ done next | false ↦ k ])
      (is_ready-erase t.status)
    ∙ ap
        (λ (r : Run ℕ). elim (Threads.is_ready t.status || next == curr) as (λ x. Run ℕ) [
          | true ↦ done next
          | false ↦ r
        ])
        e

find_next-erase :
    (n curr next : ℕ) (tcb : ℕ → Threads.Thread)
    → Threads2.Ops.find_next n curr next (λ i. erase_thread (tcb i))
      ≡ Threads.Schedule.find_next n curr next tcb
unfolding Threads2.Ops.find_next Threads.Schedule.find_next
find_next-erase zero curr next tcb = refl
find_next-erase (suc n) curr next tcb =
    round-erase (ltb next 128) (tcb next) curr next _ _
      (find_next-erase n curr ((next + 1) % 128) tcb)

switch_to-erase {ℓ} :
    {A : Type ℓ} (next : ℕ) (s : Threads.State)
    → erase_outcome {A = A} (done (Threads.Schedule.switch_to next s))
      ≡ done (Threads2.Ops.switch_to next (erase s))
switch_to-erase {A} next s =
    ap
      (λ tcb. done (Threads2.jumped next (pos 1) (record (erase s) { curr_tid = next; tcb = tcb })))
      (erase-update s.tcb next (record (s.tcb next) { status = Threads.Status.running }))

preempted-erase :
    (s : Threads.State) → erase (Threads.Schedule.preempted s) ≡ Threads2.Ops.preempted (erase s)
preempted-erase s = split (Threads.is_running (s.tcb s.curr_tid).status) refl
  where
    saved : Threads.State
    saved =
        Threads.Schedule.set_reg s.curr_tid Threads.in_scheduler
          (Threads.Schedule.set_status s.curr_tid Threads.Status.ready s)

    t : Threads.Thread
    t = record (s.tcb s.curr_tid) { status = Threads.Status.ready }

    tables :
        (λ i. erase_thread (saved.tcb i))
        ≡ (Threads2.Ops.set_reg s.curr_tid Threads2.in_scheduler
            (Threads2.Ops.set_status s.curr_tid Threads2.Status.ready (erase s))).tcb
    tables =
        erase-update (update s.tcb s.curr_tid t) s.curr_tid
          (record (update s.tcb s.curr_tid t s.curr_tid) { reg = Threads.in_scheduler })
        ∙ ap (λ f. update f s.curr_tid (record (f s.curr_tid) { reg = Threads2.in_scheduler }))
            (erase-update s.tcb s.curr_tid t)

    split :
        (b : Bool)
        → Threads.is_running (s.tcb s.curr_tid).status ≡ b
        → erase (if b then saved else s) ≡ Threads2.Ops.preempted (erase s)
    split true e =
        let r = is_running-erase (s.tcb s.curr_tid).status ∙ e in
        rw r (ap (λ tcb. record (erase s) { tcb = tcb }) tables)
    split false e = let r = is_running-erase (s.tcb s.curr_tid).status ∙ e in rw r refl

-- The scheduler of Project 2 makes the step that the scheduler of Project3 makes, in every state: it
-- faults on the same states, and otherwise goes on with the same thread, in the same state but for
-- what Project3 added to it.
pub scheduler-erase {ℓ} :
    {A : Type ℓ} (s : Threads.State)
    → Threads2.Ops.scheduler {A = A} (erase s)
      ≡ erase_outcome (Threads.Schedule.scheduler {A = A} s)
unfolding Threads2.Ops.scheduler Threads.Schedule.scheduler
scheduler-erase {A} s =
    rw (find_next-erase 128 s.curr_tid (s.curr_tid + 1) s.tcb)
      (found (Threads.Schedule.find_next 128 s.curr_tid (s.curr_tid + 1) s.tcb))
  where
    found :
        (r : Run ℕ)
        → (r >>= λ next.
            done (Threads2.Ops.switch_to {A = A} next (Threads2.Ops.preempted (erase s))))
          ≡ erase_outcome (
              r >>= λ next.
              done (Threads.Schedule.switch_to {A = A} next (Threads.Schedule.preempted s)))
    found fault = refl
    found out_of_fuel = refl
    found (done next) =
        ap (λ u. done (Threads2.Ops.switch_to {A = A} next u)) (sym (preempted-erase s))
        ∙ sym (switch_to-erase next (Threads.Schedule.preempted s))

init_threads-erase :
    (n i : ℕ) (tcb : ℕ → Threads.Thread)
    → (λ j. erase_thread (Threads.Schedule.init_threads n i tcb j))
      ≡ Threads2.Ops.init_threads n i (λ j. erase_thread (tcb j))
unfolding Threads.Schedule.init_threads Threads2.Ops.init_threads
init_threads-erase zero i tcb = refl
init_threads-erase (suc n) i tcb =
    let t : Threads.Thread = record (tcb i) {
      status = Threads.Status.fresh;
      id = i;
      joining = Threads.nobody;
    } in
    init_threads-erase n (i + 1) (update tcb i t)
    ∙ ap (Threads2.Ops.init_threads n (i + 1)) (erase-update tcb i t)

-- The thread of the first caller, in a table.
abbrev main_in : (ℕ → Threads2.Thread) → ℕ → Threads2.Thread
main_in tcb = update (runs tcb) 0 (record (runs tcb 0) { reg = Threads2.in_create })
  where
    runs : (ℕ → Threads2.Thread) → ℕ → Threads2.Thread
    runs tcb = update tcb 0 (record (tcb 0) { status = Threads2.Status.running })

set_up-erase :
    (s : Threads.State)
    → erase (Threads.Ops.set_up (Threads.Ops.lock s)) ≡ Threads2.Ops.set_up (erase s)
set_up-erase s =
    ap (λ tcb. record (Threads2.Ops.set_up (erase s)) { tcb = tcb })
      (erase-update (update tcb 0 t) 0 (record (update tcb 0 t 0) { reg = Threads.in_create })
        ∙ ap (λ f. update f 0 (record (f 0) { reg = Threads2.in_create })) (erase-update tcb 0 t)
        ∙ ap main_in (init_threads-erase 128 0 s.tcb))
  where
    tcb : ℕ → Threads.Thread
    tcb = Threads.Schedule.init_threads 128 0 s.tcb

    t : Threads.Thread
    t = record (tcb 0) { status = Threads.Status.running }

first_set_up-erase :
    (s : Threads.State)
    → erase (Threads.Ops.first_set_up (Threads.Ops.lock s)) ≡ Threads2.Ops.first_set_up (erase s)
first_set_up-erase s = split s.first_call
  where
    split :
        (b : Bool)
        → erase (if b then Threads.Ops.set_up (Threads.Ops.lock s) else Threads.Ops.lock s)
          ≡ (if b then Threads2.Ops.set_up (erase s) else erase s)
    split true = set_up-erase s
    split false = refl

find_fresh-erase :
    (s : Threads.State) → Threads2.Ops.find_fresh (erase s) ≡ Threads.Ops.find_fresh s
unfolding Threads2.Ops.find_fresh Threads.Ops.find_fresh
find_fresh-erase s = ap (λ p. first p 128 0) (fun_ext λ i. is_fresh-erase (s.tcb i).status)

abbrev added_in_2 : ℕ → ℕ → Threads2.State → ℕ → Threads2.Outcomes (ℤ × Option ℕ)
added_in_2 routine arg s i =
    done (Threads2.returned (pos 0, some i) (Threads2.Ops.add_thread i routine arg s))

abbrev added_in_3 : ℕ → ℕ → Threads.State → ℕ → Threads.Outcomes (ℤ × Option ℕ)
added_in_3 routine arg s i =
    done (
      Threads.returned (pos 0, some i)
        (Threads.Ops.unlock (Threads.Ops.add_thread i routine arg s)))

create_in-erase :
    (routine arg : ℕ) (s : Threads.State)
    → Threads2.Ops.create_in routine arg (erase s)
      ≡ erase_outcome (Threads.Ops.create_in routine arg s)
create_in-erase routine arg s = split (ltb_ℤ (pos 128) s.total_threads)
  where
    new : ℕ → Threads.Thread
    new i = record (s.tcb i) {
      status = Threads.Status.ready;
      stack = true;
      reg = Threads.started routine arg;
    }

    slot :
        (inside : Bool) (i : ℕ)
        → (access inside i >>= added_in_2 routine arg (erase s))
          ≡ erase_outcome (access inside i >>= added_in_3 routine arg s)
    slot false i = refl
    slot true i =
        ap
          (λ tcb. done (
            Threads2.returned (pos 0, some i)
              (record (Threads2.Ops.add_thread i routine arg (erase s)) { tcb = tcb })))
          (sym (erase-update s.tcb i (new i)))

    split :
        (full : Bool)
        → on full (done (Threads2.returned (minus_one, none) (erase s))) (
            access (ltb (Threads2.Ops.find_fresh (erase s)) 128) (Threads2.Ops.find_fresh (erase s))
            >>= added_in_2 routine arg (erase s))
          ≡ erase_outcome (
              on full (done (Threads.returned (minus_one, none) s)) (
                access (ltb (Threads.Ops.find_fresh s) 128) (Threads.Ops.find_fresh s)
                >>= added_in_3 routine arg s))
    split true = refl
    split false =
        ap (λ i. access (ltb i 128) i >>= added_in_2 routine arg (erase s)) (find_fresh-erase s)
        ∙ slot (ltb (Threads.Ops.find_fresh s) 128) (Threads.Ops.find_fresh s)

-- `pthread_create` too: the same result and number of the thread, and the same state but for what
-- Project3 added, on the first call and on later ones, with room and without.
pub pthread_create-erase :
    (routine arg : ℕ) (s : Threads.State)
    → Threads2.Ops.pthread_create routine arg (erase s)
      ≡ erase_outcome (Threads.Ops.pthread_create routine arg s)
unfolding Threads2.Ops.pthread_create Threads.Ops.pthread_create
pthread_create-erase routine arg s =
    ap (Threads2.Ops.create_in routine arg) (sym (first_set_up-erase s))
    ∙ create_in-erase routine arg (Threads.Ops.first_set_up (Threads.Ops.lock s))
