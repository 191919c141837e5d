-- ===== src/Threads/Sem.antt =====
-- The semaphores of Project3/threads.c. A semaphore is known by its pointer, and is none once freed.
use ec440_projects.Prelude.{
  ℕ, suc, ◌==◌, not, Option, none, some, ℤ, pos, minus_one, suc_ℤ, pred_ℤ, ltb, ltb_ℤ, eqb_ℤ,
  update, first, if◌then◌else◌, to_int,
}
use ec440_projects.Run.{Run, done, fault, access, on, ◌>>=◌}
use ec440_projects.Threads.{
  State, Status, SemInfo, SemStatus, Outcomes, returned, jumped, initialized, destroyed,
  max_threads,
}
use ec440_projects.Threads.Schedule.{set_status, scheduler}

-- `(seminfo *)sem->__align`, read through.
abbrev pub load {ℓ} : {A : Type ℓ} → Option A → Run A
load none = fault
load (some a) = done a

abbrev pub store_sem : ℕ → SemInfo → State → State
store_sem p sem s = record s { sem = update s.sem p (some sem) }

-- The pointer to the new semaphore, with the result. The conversion to `int` is that of C.
unfoldable pub sem_init : ℕ → State → ℤ × ℕ × State
sem_init value s = (
  pos 0,
  s.next_sem,
  store_sem s.next_sem (record { val = to_int value; waiting = λ i. 0; status = initialized })
      (record s { next_sem = suc s.next_sem }),
)

-- The current thread blocks, in the first slot of the queue that holds 0. The loop has no bound.
abbrev pub wait_in : ℕ → SemInfo → State → Outcomes ℤ
wait_in p sem s = do
  i ←
      access (ltb (first (λ i. sem.waiting i == 0) max_threads 0) max_threads)
        (first (λ i. sem.waiting i == 0) max_threads 0)
  scheduler (
      store_sem p (record sem { waiting = update sem.waiting i s.curr_tid })
        (set_status s.curr_tid Status.blocked s))

abbrev pub wait_on : ℕ → SemInfo → State → Outcomes ℤ
wait_on p sem s =
    on (ltb_ℤ (pos 0) sem.val)
      (done (returned (pos 0) (store_sem p (record sem { val = pred_ℤ sem.val }) s)))
      (wait_in p sem s)

abbrev pub when_initialized : SemStatus → State → Outcomes ℤ → Outcomes ℤ
when_initialized initialized s run = run
when_initialized destroyed s run = done (returned minus_one s)

unfoldable pub sem_wait : ℕ → State → Outcomes ℤ
sem_wait p s = do sem ← load (s.sem p); when_initialized sem.status s (wait_on p sem s)

-- The first thread of the queue runs. The loop reads the slot before it tests the bound.
abbrev pub wake : ℕ → SemInfo → State → Outcomes ℤ
wake p sem s = do
  i ←
      access (ltb (first (λ i. not (sem.waiting i == 0)) max_threads 0) max_threads)
        (first (λ i. not (sem.waiting i == 0)) max_threads 0)
  next ← access (ltb (sem.waiting i) max_threads) (sem.waiting i)
  done (
      jumped next (pos 1) (
        set_status next Status.running
          (store_sem p (record sem { waiting = update sem.waiting i 0 }) s)))

abbrev pub post_to : ℕ → SemInfo → State → Outcomes ℤ
post_to p sem s = on (eqb_ℤ sem.val (pos 0)) (wake p sem s) (
    done (
      returned (pos 0)
        (if ltb_ℤ (pos 0) sem.val then store_sem p (record sem { val = suc_ℤ sem.val }) s else s)))

unfoldable pub sem_post : ℕ → State → Outcomes ℤ
sem_post p s = do sem ← load (s.sem p); when_initialized sem.status s (post_to p sem s)

abbrev pub destroy : ℕ → SemStatus → State → State
destroy p initialized s = record s { sem = update s.sem p none }
destroy p destroyed s = s

unfoldable pub sem_destroy : ℕ → State → Outcomes ℤ
sem_destroy p s = do sem ← load (s.sem p); done (returned (pos 0) (destroy p sem.status s))
