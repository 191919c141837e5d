-- ===== src/Threads/Create.antt =====
-- `pthread_create` of Project3/threads.c.
use ec440_projects.Prelude.{
  ℕ, zero, suc, ◌+◌, ◌<◌, ◌≤◌, ◌≡◌, ◌≢◌, inl, inr, refl, Bool, true, false, none, some, pos,
  minus_one, suc_ℤ, ltb, ltb_ℤ, ◌==◌, arith, Bool-cases, first_found, first_absent, IsFirst,
}
use ec440_projects.Run.{done, fault}
use ec440_projects.Threads.{State, Thread, Status, returned, started, in_create, is_fresh}
use ec440_projects.Threads.Schedule.{init_threads}
use ec440_projects.Threads.Ops.{find_fresh, pthread_create, set_up, lock, unlock, add_thread}

abbrev pub is_fresh_in : State → ℕ → Bool
is_fresh_in s i = is_fresh (s.tcb i).status

create_at :
    (s : State) (i routine arg : ℕ)
    → s.first_call ≡ false
    → ltb_ℤ (pos 128) s.total_threads ≡ false
    → IsFirst (is_fresh_in s) 128 i
    → pthread_create routine arg s
      ≡ done (returned (pos 0, some i) (unlock (add_thread i routine arg (lock s))))
unfolding pthread_create find_fresh
create_at s i routine arg c t f =
    let inside : ltb i 128 ≡ true = ground (arith, f.inside) in
    rw (c, t, first_found (is_fresh_in s) 128 i f, inside)

-- The thread in slot `i` is new, and no other slot has changed.
pub record Added (s : State) (i routine arg : ℕ) (s' : State) : Type 0 where
  pub ready : (s'.tcb i).status ≡ Status.ready
  pub starts : (s'.tcb i).reg ≡ started routine arg
  pub counted : s'.total_threads ≡ suc_ℤ s.total_threads
  pub unmasked : s'.masked ≡ false
  pub current : s'.curr_tid ≡ s.curr_tid
  pub others : (j : ℕ) → j ≢ i → s'.tcb j ≡ s.tcb j

-- After the first call, and with at most 128 threads counted, `pthread_create` takes the first
-- fresh slot: it returns 0 with the number of the slot, and the thread in it is ready to start.
pub pthread_create-Added :
    (s : State) (i routine arg : ℕ)
    → s.first_call ≡ false
    → ltb_ℤ (pos 128) s.total_threads ≡ false
    → IsFirst (is_fresh_in s) 128 i
    → (s' : State) × (pthread_create routine arg s ≡ done (returned (pos 0, some i) s'))
      × Added s i routine arg s'
pthread_create-Added s i routine arg c t f =
    let ii : (i == i) ≡ true = ground arith in
    (
      _,
      create_at s i routine arg c t f,
      record {
        ready = rw ii;
        starts = rw ii;
        counted = refl;
        unmasked = refl;
        current = refl;
        others = λ j n. let o : (i == j) ≡ false = ground (arith, n) in rw o;
      },
    )

-- After the first call, with at most 128 threads counted and no fresh slot left, `pthread_create`
-- uses the slot behind the table; with more counted it returns -1 and leaves SIGALRM blocked.
pub pthread_create-full :
    (s : State) (routine arg : ℕ)
    → s.first_call ≡ false
    → ((j : ℕ) → j < 128 → is_fresh_in s j ≡ false)
    → (ltb_ℤ (pos 128) s.total_threads ≡ false → pthread_create routine arg s ≡ fault)
      × (ltb_ℤ (pos 128) s.total_threads ≡ true
          → pthread_create routine arg s ≡ done (returned (minus_one, none) (lock s)))
unfolding pthread_create find_fresh
pthread_create-full s routine arg c n =
    (λ t. rw (c, t, first_absent (is_fresh_in s) 128 n), λ t. rw (c, t))

init_threads-before : (n i j : ℕ) (tcb : ℕ → Thread) → j < i → init_threads n i tcb j ≡ tcb j
unfolding init_threads
init_threads-before zero i j tcb l = refl
init_threads-before (suc n) i j tcb l =
    let o : (i == j) ≡ false = ground arith in
    rw (init_threads-before n (i + 1) j _ (omega arith), o)

init_threads-fresh :
    (n i j : ℕ) (tcb : ℕ → Thread)
    → i ≤ j
    → j < i + n
    → (init_threads n i tcb j).status ≡ Status.fresh
unfolding init_threads
init_threads-fresh zero i j tcb a b = absurd (omega arith)
init_threads-fresh (suc n) i j tcb a b = elim (Bool-cases (i == j)) [
  | inl e ↦ rw (init_threads-before n (i + 1) j _ (ground arith), e)
  | inr e ↦ init_threads-fresh n (i + 1) j _ (ground arith) (omega arith)
]

-- The first call of `pthread_create` makes its caller thread 0, running, and the new thread number
-- 1, ready to start, and counts both; all the other slots are fresh.
pub pthread_create-first :
    (s : State) (routine arg : ℕ)
    → s.first_call ≡ true
    → s.total_threads ≡ pos 0
    → (s' : State) × (pthread_create routine arg s ≡ done (returned (pos 0, some 1) s'))
      × ((s'.tcb 0).status ≡ Status.running)
      × ((s'.tcb 0).reg ≡ in_create)
      × ((s'.tcb 1).status ≡ Status.ready)
      × ((s'.tcb 1).reg ≡ started routine arg)
      × (s'.total_threads ≡ pos 2)
      × ((j : ℕ) → 1 < j → j < 128 → (s'.tcb j).status ≡ Status.fresh)
unfolding pthread_create find_fresh
pthread_create-first s routine arg c z =
    let up = set_up (lock s) in
    let at : IsFirst (is_fresh_in up) 128 1 = record {
      inside = omega arith;
      hit = rw (init_threads-fresh 128 0 1 s.tcb (omega arith) (omega arith)) refl;
      misses = λ j l. let o : (0 == j) ≡ true = ground arith in rw o;
    } in
    (
      unlock (add_thread 1 routine arg up),
      rw (c, z, first_found (is_fresh_in up) 128 1 at),
      refl,
      refl,
      refl,
      refl,
      rw z,
      λ j a b.
          let o : (1 == j) ≡ false = ground arith in
          let p : (0 == j) ≡ false = ground arith in
          rw (o, p, init_threads-fresh 128 0 j s.tcb (omega arith) (omega arith)),
    )
