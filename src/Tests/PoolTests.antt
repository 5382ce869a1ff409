-- ===== src/Tests/PoolTests.antt =====
-- `ThreadPool` with two jobs.
use nermalproxy.Prelude.{◌+◌, ◌≡◌, ◌⊎◌, refl, [], ◌∷◌, ◌++◌, some, done}
use nermalproxy.Pool.{
  WorkPackage, detector, connector, ThreadPool, dispatch, wake, take_package, remove_at, end_job,
}
use nermalproxy.Pool.Runs.{wakes, starts, finishes, Run, begin, dispatches, works, Run-take_package}
use nermalproxy.Pool.Order.{Run-order}
use nermalproxy.Pool.Progress.{WorkerSteps, still, step, steps_left, IsIdle, CanStep, Run-drains}

program : Unit {0}
unfolding dispatch wake take_package remove_at end_job
program = tt

-- Two jobs dispatched, and one worker woken.
abbrev two_jobs : ThreadPool
two_jobs = record {
  semaphore = 1;
  work = detector 3 ∷ connector 5 ∷ [];
  waiting = 19;
  woken = 1;
  running = [];
}

-- The first job started.
abbrev one_started : ThreadPool
one_started = record {
  semaphore = 1;
  work = connector 5 ∷ [];
  waiting = 19;
  woken = 0;
  running = detector 3 ∷ [];
}

two_jobs-Run : Run (detector 3 ∷ connector 5 ∷ []) [] two_jobs
unfolding program
two_jobs-Run = works (dispatches (connector 5) (dispatches (detector 3) begin)) (wakes refl)

one_started-Run : Run (detector 3 ∷ connector 5 ∷ []) (detector 3 ∷ []) one_started
unfolding program
one_started-Run = works two_jobs-Run (starts refl)

-- The handler of the first job has returned.
first_done : WorkerSteps 1 one_started (record one_started { waiting = 20; running = [] })
unfolding program
first_done = step (finishes 0 refl) still

Run-take_package_example :
    (q : ThreadPool) × (job : WorkPackage) × (take_package two_jobs ≡ some (done (q, job)))
Run-take_package_example = Run-take_package 0 two_jobs-Run refl

Run-order_example : detector 3 ∷ connector 5 ∷ [] ≡ (detector 3 ∷ []) ++ one_started.work
Run-order_example = Run-order one_started-Run

Run-drains_example :
    (1 + steps_left (record one_started { waiting = 20; running = [] }) ≡ steps_left one_started)
    × (IsIdle (record one_started { waiting = 20; running = [] })
        ⊎ CanStep (record one_started { waiting = 20; running = [] }))
Run-drains_example = Run-drains one_started-Run first_done
