-- ===== src/Threads/RoundRobin.antt =====
-- Which thread the scheduler of Project3/threads.c runs next.
use ec440_projects.Prelude.{
  subst, ℕ, zero, suc, ◌+◌, ◌%◌, ◌<◌, ◌≡◌, true, false, ◌||◌, ltb, ◌==◌, arith,
}
use ec440_projects.Run.{done}
use ec440_projects.Threads.{Thread, is_ready, max_threads}
use ec440_projects.Threads.Schedule.{find_next}

-- `d` threads behind `next` is the first that is ready or the current one.
pub record IsNext (curr next d : ℕ) (tcb : ℕ → Thread) : Type 0 where
  pub stops : (is_ready (tcb ((next + d) % 128)).status || (((next + d) % 128) == curr)) ≡ true
  pub passes :
      (e : ℕ)
      → e < d
      → (is_ready (tcb ((next + e) % 128)).status || (((next + e) % 128) == curr)) ≡ false

IsNext-later :
    (curr next d : ℕ) (tcb : ℕ → Thread)
    → IsNext curr next (suc d) tcb
    → IsNext curr ((next + 1) % 128) d tcb
IsNext-later curr next d tcb h = record {
  stops = rw (shift d) h.stops;
  passes = λ e l. rw (shift e) (h.passes (suc e) (omega arith));
}
  where
    shift : (e : ℕ) → ((next + 1) % 128 + e) % 128 ≡ (next + suc e) % 128
    shift e = omega arith

pub find_next-IsNext :
    (d n curr next : ℕ) (tcb : ℕ → Thread)
    → d < n
    → next < 128
    → IsNext curr next d tcb
    → find_next n curr next tcb ≡ done ((next + d) % 128)
unfolding find_next
find_next-IsNext d zero curr next tcb l b h = absurd (omega arith)
find_next-IsNext zero (suc n) curr next tcb l b h =
    let here : (next + 0) % 128 ≡ next = omega arith in
    let stops : (is_ready (tcb next).status || (next == curr)) ≡ true =
      subst (λ k. (is_ready (tcb k).status || (k == curr)) ≡ true) here h.stops in
    let inside : ltb next max_threads ≡ true = ground arith in ground (arith, inside, stops, here)
find_next-IsNext (suc d) (suc n) curr next tcb l b h =
    let here : (next + 0) % 128 ≡ next = omega arith in
    let passes : (is_ready (tcb next).status || (next == curr)) ≡ false =
      subst (λ k. (is_ready (tcb k).status || (k == curr)) ≡ false) here
        (h.passes 0 (omega arith)) in
    let inside : ltb next max_threads ≡ true = ground arith in
    let goes : ((next + 1) % 128 + d) % 128 ≡ (next + suc d) % 128 = omega arith in
    let later =
      find_next-IsNext d n curr ((next + 1) % 128) tcb (omega arith) (omega arith)
        (IsNext-later curr next d tcb h) in
    ground (arith, inside, passes, goes, later)
