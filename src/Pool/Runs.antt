-- ===== src/Pool/Runs.antt =====
-- The runs of the pool, in any order of the steps of its workers and its callers.
use nermalproxy.Prelude.{
  ℕ, zero, suc, ◌+◌, ◌≡◌, refl, List, [], ◌∷◌, ◌++◌, some, arith, length, Option-cases, List-cases,
  length-append, done, inl, inr,
}
use nermalproxy.Pool.{
  WorkPackage, thread_pool_size, ThreadPool, new_thread_pool, dispatch, wake, take_package,
  remove_at, end_job,
}

-- What the workers do by themselves, and the job that is started by it.
pub data WorkerStep : ThreadPool → List WorkPackage → ThreadPool → Type 0 where
  wakes : {p q : ThreadPool} → wake p ≡ some q → WorkerStep p [] q
  starts :
      {p q : ThreadPool} {job : WorkPackage}
      → take_package p ≡ some (done (q, job))
      → WorkerStep p (job ∷ []) q
  finishes : {p q : ThreadPool} (i : ℕ) → end_job p i ≡ some q → WorkerStep p [] q

-- A run from the new pool, with the packages that were dispatched and those that were started.
pub data Run : List WorkPackage → List WorkPackage → ThreadPool → Type 0 where
  begin : Run [] [] new_thread_pool
  dispatches :
      {sent started : List WorkPackage} {p : ThreadPool} (job : WorkPackage)
      → Run sent started p
      → Run (sent ++ job ∷ []) started (dispatch p job)
  works :
      {sent started now : List WorkPackage} {p q : ThreadPool}
      → Run sent started p
      → WorkerStep p now q
      → Run sent (started ++ now) q

-- The permits and the workers that have taken one are as many as the packages, and no worker is
-- lost.
pub record IsBalanced (p : ThreadPool) : Type 0 where
  pub permits : p.semaphore + p.woken ≡ length p.work
  pub workers : p.waiting + p.woken + length p.running ≡ thread_pool_size

remove_at-length :
    (xs : List WorkPackage) (i : ℕ) {ys : List WorkPackage}
    → remove_at xs i ≡ some ys
    → length xs ≡ suc (length ys)
unfolding remove_at
remove_at-length [] i h = cc
remove_at-length (x ∷ xs) zero h = cc
remove_at-length (x ∷ xs) (suc i) h = elim (Option-cases (remove_at xs i)) [
  | inl miss ↦ ground arith
  | inr (rest, hit) ↦ ground (arith, remove_at-length xs i hit)
]

-- What `end_job` does.
pub end_job_inv :
    (p : ThreadPool) (i : ℕ) {q : ThreadPool}
    → end_job p i ≡ some q
    → (rest : List WorkPackage) × (q ≡ record p { running = rest; waiting = suc p.waiting })
      × (length p.running ≡ suc (length rest))
unfolding end_job
end_job_inv p i h = elim (Option-cases (remove_at p.running i)) [
  | inl miss ↦ ground arith
  | inr (rest, hit) ↦ (rest, ground arith, remove_at-length p.running i hit)
]

pub WorkerStep-IsBalanced :
    {p q : ThreadPool} {now : List WorkPackage} → WorkerStep p now q → IsBalanced p → IsBalanced q
unfolding wake take_package end_job
WorkerStep-IsBalanced (wakes {p} {q} h) b = record {
  permits = ground arith;
  workers = ground arith;
}
WorkerStep-IsBalanced (starts {p} {q} {job} h) b = record {
  permits = ground arith;
  workers = ground arith;
}
WorkerStep-IsBalanced (finishes {p} {q} i h) b =
    let (rest, left, fewer) = end_job_inv p i h in
    record { permits = ground arith; workers = ground arith }

pub Run-IsBalanced :
    {sent started : List WorkPackage} {p : ThreadPool} → Run sent started p → IsBalanced p
unfolding dispatch
Run-IsBalanced begin = record { permits = refl; workers = refl }
Run-IsBalanced (dispatches {p} job r) =
    let b = Run-IsBalanced r in
    record {
      permits = omega (arith, length-append p.work (job ∷ []), b.permits);
      workers = b.workers;
    }
Run-IsBalanced (works r w) = WorkerStep-IsBalanced w (Run-IsBalanced r)

-- In every run of the pool, of any number of dispatches and steps of the workers in any order, a
-- worker that has passed the semaphore finds a job: `front` is never called on an empty list.
pub Run-take_package :
    {sent started : List WorkPackage} {p : ThreadPool} (others : ℕ)
    → Run sent started p
    → p.woken ≡ suc others
    → (q : ThreadPool) × (job : WorkPackage) × (take_package p ≡ some (done (q, job)))
unfolding take_package
Run-take_package {p} others r w = elim (List-cases p.work) [
  | inl empty ↦ absurd (let b = Run-IsBalanced r in ground arith)
  | inr (job, rest, hit) ↦ (
    record p { work = rest; woken = others; running = job ∷ p.running },
    job,
    rw (w, take_package, hit) refl,
  )
]
