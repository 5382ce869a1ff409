-- ===== src/Pool/Progress.antt =====
-- The pool works off what it was given, whatever the order of the steps of its workers.
use nermalproxy.Prelude.{
  ℕ, suc, ◌+◌, ◌*◌, ◌≡◌, ◌⊎◌, inl, inr, refl, List, [], ◌∷◌, arith, length, List-cases, Nat-cases,
}
use nermalproxy.Pool.{WorkPackage, ThreadPool, wake, take_package, remove_at, end_job}
use nermalproxy.Pool.Runs.{
  WorkerStep, wakes, starts, finishes, Run, IsBalanced, Run-IsBalanced, WorkerStep-IsBalanced,
  end_job_inv,
}

-- The steps that are left to the workers.
abbrev pub steps_left : ThreadPool → ℕ
steps_left p = p.semaphore + 2 * length p.work + length p.running

-- Steps of the workers, in any order, and how many.
pub data WorkerSteps : ℕ → ThreadPool → ThreadPool → Type 0 where
  still : {p : ThreadPool} → WorkerSteps 0 p p
  step :
      {n : ℕ} {now : List WorkPackage} {p q r : ThreadPool}
      → WorkerStep p now q
      → WorkerSteps n q r
      → WorkerSteps (suc n) p r

WorkerStep-steps_left :
    {p q : ThreadPool} {now : List WorkPackage}
    → WorkerStep p now q
    → steps_left p ≡ suc (steps_left q)
unfolding wake take_package
WorkerStep-steps_left (wakes {p} {q} h) = ground arith
WorkerStep-steps_left (starts {p} {q} {job} h) = ground arith
WorkerStep-steps_left (finishes {p} {q} i h) =
    let (rest, left, fewer) = end_job_inv p i h in ground arith

-- All that was dispatched has been handled.
abbrev pub IsIdle : ThreadPool → Type 0
IsIdle p = (p.work ≡ []) × (p.running ≡ [])

-- Some worker can go on.
abbrev pub CanStep : ThreadPool → Type 0
CanStep p = (now : List WorkPackage) × (q : ThreadPool) × WorkerStep p now q

can_finish :
    (p : ThreadPool) (job : WorkPackage) (rest : List WorkPackage)
    → p.running ≡ job ∷ rest
    → CanStep p
unfolding end_job remove_at
can_finish p job rest e =
    ([], record p { running = rest; waiting = suc p.waiting }, finishes 0 (rw (e, end_job) refl))

can_start : (p : ThreadPool) (others : ℕ) → IsBalanced p → p.woken ≡ suc others → CanStep p
unfolding take_package
can_start p others b e = elim (List-cases p.work) [
  | inl empty ↦ absurd (ground arith)
  | inr (job, rest, hit) ↦ (
    job ∷ [],
    record p { work = rest; woken = others; running = job ∷ p.running },
    starts (rw (e, take_package, hit) refl),
  )
]

can_wake :
    (p : ThreadPool) (others n : ℕ) → p.waiting ≡ suc others → p.semaphore ≡ suc n → CanStep p
unfolding wake
can_wake p others n e h = (
  [],
  record p { semaphore = n; waiting = others; woken = suc p.woken },
  wakes (rw (e, wake, h) refl),
)

-- With every worker waiting.
progress_waiting :
    (p : ThreadPool) → IsBalanced p → p.running ≡ [] → p.woken ≡ 0 → IsIdle p ⊎ CanStep p
progress_waiting p b quiet none_woken = elim (Nat-cases p.semaphore) [
  | inl zero_permits ↦ elim (List-cases p.work) [
    | inl empty ↦ inl (empty, quiet)
    | inr (job, rest, hit) ↦ absurd (ground arith)
  ]
  | inr (n, hit) ↦ elim (Nat-cases p.waiting) [
    | inl busy ↦ absurd (ground arith)
    | inr (others, ready) ↦ inr (can_wake p others n ready hit)
  ]
]

progress : (p : ThreadPool) → IsBalanced p → IsIdle p ⊎ CanStep p
progress p b = elim (List-cases p.running) [
  | inr (job, rest, hit) ↦ inr (can_finish p job rest hit)
  | inl quiet ↦ elim (Nat-cases p.woken) [
    | inr (others, woken) ↦ inr (can_start p others b woken)
    | inl none_woken ↦ progress_waiting p b quiet none_woken
  ]
]

WorkerSteps-IsBalanced :
    {n : ℕ} {p q : ThreadPool}
    → WorkerSteps n p q
    → IsBalanced p
    → IsBalanced q × (n + steps_left q ≡ steps_left p)
WorkerSteps-IsBalanced still b = (b, omega arith)
WorkerSteps-IsBalanced (step w ws) b =
    let (b', count) = WorkerSteps-IsBalanced ws (WorkerStep-IsBalanced w b) in
    (b', omega (arith, WorkerStep-steps_left w, count))

-- From every state that the pool reaches, the workers make no more steps than are left by a
-- count that each step lowers by one, in whatever order they go; and as long as a job is in the
-- list or a handler runs, some worker can go on. So without new jobs, if the handlers return,
-- every job is started and handled.
pub Run-drains :
    {sent started : List WorkPackage} {n : ℕ} {p q : ThreadPool}
    → Run sent started p
    → WorkerSteps n p q
    → (n + steps_left q ≡ steps_left p) × (IsIdle q ⊎ CanStep q)
Run-drains {q} r ws =
    let (b, count) = WorkerSteps-IsBalanced ws (Run-IsBalanced r) in (count, progress q b)
