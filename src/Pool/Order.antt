-- ===== src/Pool/Order.antt =====
-- The order in which the jobs of the pool are started.
use nermalproxy.Prelude.{◌≡◌, refl, sym, ap, ◌∙◌, List, [], ◌∷◌, ◌++◌, arith, append_assoc}
use nermalproxy.Pool.{WorkPackage, ThreadPool, dispatch, wake, take_package}
use nermalproxy.Pool.Runs.{
  WorkerStep, wakes, starts, finishes, Run, begin, dispatches, works, end_job_inv,
}

-- A step of the workers takes the jobs that it starts from the front of the list.
WorkerStep-work :
    {p q : ThreadPool} {now : List WorkPackage} → WorkerStep p now q → p.work ≡ now ++ q.work
unfolding wake take_package
WorkerStep-work (wakes {p} {q} h) = ground arith
WorkerStep-work (starts {p} {q} {job} h) = ground arith
WorkerStep-work (finishes {p} {q} i h) = let (rest, left, fewer) = end_job_inv p i h in ground arith

-- In every run of the pool, the jobs that were started so far, followed by those in the list of
-- work, are the jobs that were dispatched, in the same order: none is lost, and none is started
-- twice or before an older one.
pub Run-order :
    {sent started : List WorkPackage} {p : ThreadPool}
    → Run sent started p
    → sent ≡ started ++ p.work
unfolding dispatch
Run-order begin = refl
Run-order (dispatches {sent} {started} {p} job r) =
    ap (λ all. all ++ job ∷ []) (Run-order r) ∙ append_assoc started p.work (job ∷ [])
Run-order (works {sent} {started} {now} {p} {q} r w) =
    Run-order r
    ∙ ap (λ left. started ++ left) (WorkerStep-work w)
    ∙ sym (append_assoc started now q.work)
