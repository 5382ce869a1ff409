-- ===== src/Pool.antt =====
-- ProxyConnector.cpp: `ThreadPool`, the workers behind the event loop. A lock makes each access to
-- the list of work one step; the semaphore is waited for outside the lock.
pub mod Runs
pub mod Order
pub mod Progress
use nermalproxy.Prelude.{
  ℕ, zero, suc, List, [], ◌∷◌, ◌++◌, Option, none, some, length, Outcome, done, fault, past_the_end,
}

-- A package of work: the handler `asyncDetector` or `asyncConnector`, with the session of its context.
pub data WorkPackage : Type 0 where
  detector : ℕ → WorkPackage
  connector : ℕ → WorkPackage

abbrev pub thread_pool_size : ℕ
thread_pool_size = 20

-- The semaphore, the list of work, and the workers: those that wait for the semaphore, those
-- between `sem_wait` and the lock, and the packages of those that run a handler.
pub record ThreadPool : Type 0 where
  pub semaphore : ℕ
  pub work : List WorkPackage
  pub waiting : ℕ
  pub woken : ℕ
  pub running : List WorkPackage

-- The constructor and `Begin`.
abbrev pub new_thread_pool : ThreadPool
new_thread_pool = record {
  semaphore = 0;
  work = [];
  waiting = thread_pool_size;
  woken = 0;
  running = [];
}

-- `Dispatch`
unfoldable pub dispatch : ThreadPool → WorkPackage → ThreadPool
dispatch p job = record p { work = p.work ++ job ∷ []; semaphore = suc p.semaphore }

-- `sem_wait` of one worker; `none` if none can go on.
unfoldable pub wake : ThreadPool → Option ThreadPool
wake p = elim p.waiting [
  | zero ↦ none
  | suc others ↦ elim p.semaphore [
    | zero ↦ none
    | suc n ↦ some (record p { semaphore = n; waiting = others; woken = suc p.woken })
  ]
]

-- `front` and `pop_front` under the lock: a list without an element has no front.
unfoldable pub take_package : ThreadPool → Option (Outcome (ThreadPool × WorkPackage))
take_package p = elim p.woken [
  | zero ↦ none
  | suc others ↦ elim p.work [
    | [] ↦ some (fault past_the_end)
    | job ∷ rest ↦
        some (done (record p { work = rest; woken = others; running = job ∷ p.running }, job))
  ]
]

unfoldable pub remove_at : List WorkPackage → ℕ → Option (List WorkPackage)
remove_at [] i = none
remove_at (x ∷ xs) zero = some xs
remove_at (x ∷ xs) (suc i) = elim (remove_at xs i) [ none ↦ none | some rest ↦ some (x ∷ rest) ]

-- The return of the handler of one worker, which waits for the semaphore again.
unfoldable pub end_job : ThreadPool → ℕ → Option ThreadPool
end_job p i = elim (remove_at p.running i) [
  | none ↦ none
  | some rest ↦ some (record p { running = rest; waiting = suc p.waiting })
]
