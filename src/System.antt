-- ===== src/System.antt =====
-- The event loop of SocketManager.cpp and the workers of ProxyConnector.cpp together: their steps
-- in any order, and what each session is waiting for. The messages are the queue that the pipe of
-- AsyncMessenger.cpp implements. A worker reads and writes the session of its job only, and sends
-- its message last, so that its handler is one step, at its end.
pub mod Tokens
pub mod Messages
pub mod Effects
pub mod Clients
pub mod Workers
pub mod Starting
pub mod Steps
pub mod Runs
pub mod Rounds
pub mod Guard
pub mod Guarding
pub mod Letting
pub mod Clearing
pub mod Secure
pub mod Access
use nermalproxy.Prelude.{
  ℕ, ◌+◌, ◌≤◌, ◌≡◌, ◌⊎◌, Bool, List, [], ◌∷◌, ◌++◌, Option, none, some, ◌==◌, if◌then◌else◌,
  get_elem?, Outcome, done,
}
use nermalproxy.CText.{Bytes}
use nermalproxy.Connect.{Network, Action, post, async_connector}
use nermalproxy.Detection.{async_detector}
use nermalproxy.Gate.{Proxy}
use nermalproxy.HostCache.{HostInfo}
use nermalproxy.Loop.{Socket, server, client, command, Loop, Inputs}
use nermalproxy.Loop.Dispatching.{process_event, on_timeout}
use nermalproxy.Messenger.{Message, detect_result}
use nermalproxy.Messenger.Layout.{session_of}
use nermalproxy.Pool.{
  WorkPackage, detector, connector, ThreadPool, new_thread_pool, wake, take_package, end_job,
}
use nermalproxy.Relay.{ClientSocket}
use nermalproxy.Session.{Session, SessionManager, get_session_for_client}
use nermalproxy.Session.Changes.{Has}
use nermalproxy.Session.Ids.{IsFresh}
use nermalproxy.Stats.{Disk}

pub record System : Type 0 where
  pub loop : Loop
  pub cache : List HostInfo

-- The messages among the actions of a worker.
unfoldable pub posted : List Action → List Message
posted [] = []
posted (post m ∷ as') = m ∷ posted as'
posted (_ ∷ as') = posted as'

-- The loop behind a worker that has ended: its sessions, its pool, and the messages sent.
abbrev pub after_worker : Loop → SessionManager → ThreadPool → List Message → Loop
after_worker l m pool sent = record l {
  proxy = record l.proxy { sessions = m };
  pool = pool;
  messages = l.messages ++ sent;
}

-- One step: an event of the loop, a round of it without one, a worker that wakes up or takes a
-- job, or the end of the job of a worker.
pub data Step (s : System) : System → Type 0 where
  event :
      {l : Loop} (i : Inputs) (fd : ℕ) (going : Bool)
      → process_event i s.loop fd ≡ some (done (l, going))
      → Step s (record s { loop = l })
  timeout :
      {l : Loop} (now : ℕ) (disk : Disk) (going : Bool)
      → on_timeout now disk s.loop ≡ some (done (l, going))
      → Step s (record s { loop = l })
  wakes :
      {pool : ThreadPool}
      → wake s.loop.pool ≡ some pool
      → Step s (record s { loop = record s.loop { pool = pool } })
  starts :
      {pool : ThreadPool} (job : WorkPackage)
      → take_package s.loop.pool ≡ some (done (pool, job))
      → Step s (record s { loop = record s.loop { pool = pool } })
  detects :
      {pool : ThreadPool} {m : SessionManager} (k id : ℕ) (bytes : Bytes) (success : Bool)
      → get_elem? s.loop.pool.running k ≡ some (detector id)
      → end_job s.loop.pool k ≡ some pool
      → async_detector s.loop.proxy.sessions id bytes ≡ done (m, success)
      → Step s (record s { loop = after_worker s.loop m pool (detect_result id success ∷ []) })
  connects :
      {pool : ThreadPool} {cache : List HostInfo} (k id : ℕ) (net : Network)
      (later : SessionManager) (actions : List Action)
      → get_elem? s.loop.pool.running k ≡ some (connector id)
      → end_job s.loop.pool k ≡ some pool
      → async_connector net later s.loop.proxy.sessions s.cache id ≡ done (cache, actions)
      → Step s (record {
        loop = after_worker s.loop s.loop.proxy.sessions pool (posted actions);
        cache = cache;
      })

abbrev pub job_session : WorkPackage → ℕ
job_session (detector id) = id
job_session (connector id) = id

-- How many entries belong to a session.
unfoldable pub occurrences {ℓ} : {A : Type ℓ} → (A → ℕ) → ℕ → List A → ℕ
occurrences f id [] = 0
occurrences f id (x ∷ xs) = (if f x == id then 1 else 0) + occurrences f id xs

-- How many sockets belong to a session.
unfoldable pub socket_count : ℕ → List Socket → ℕ
socket_count id [] = 0
socket_count id (server s ∷ ss) = socket_count id ss
socket_count id (client c ∷ ss) = (if c.session_id == id then 1 else 0) + socket_count id ss
socket_count id (command ∷ ss) = socket_count id ss

-- The jobs and messages of a session.
abbrev pub tokens : Loop → ℕ → ℕ
tokens l id =
    occurrences job_session id l.pool.work
    + occurrences job_session id l.pool.running
    + occurrences session_of id l.messages

-- With this many tokens and sockets: one token at most, no token besides sockets, and something
-- holds as long as there is a token or a socket.
abbrev pub Owned : ℕ → ℕ → Type 0 → Type 0
Owned t k H = (t ≤ 1) × ((t ≡ 0) ⊎ (k ≡ 0)) × (1 ≤ t + k → H)

-- No identifier is used twice. Each session has one job or message at most, and none once it has
-- sockets; and the session of every job, message and socket is there.
pub record IsTracked (l : Loop) : Type 0 where
  pub fresh : IsFresh l.proxy.sessions
  pub owned : (id : ℕ) → Owned (tokens l id) (socket_count id l.sockets) (Has l.proxy.sessions id)

-- The system does not give a new client a descriptor that a session still uses.
abbrev pub Unused : Inputs → Loop → Type 0
Unused i l =
    (fd : ℕ) (ip : Bytes)
    → i.accepted ≡ some (fd, ip)
    → get_session_for_client l.proxy.sessions fd ≡ none

abbrev pub UsesNew : {s s' : System} → Step s s' → Type 0
UsesNew {s} (event i fd going e) = Unused i s.loop
UsesNew _ = Unit {0}
