-- ===== src/System/Runs.antt =====
-- The runs of the proxy from its start.
use nermalproxy.Prelude.{
  ℕ, ◌≡◌, inl, inr, refl, sym, subst, Bool, true, false, List, [], ◌∷◌, Option, none, some, arith,
  get_elem?, Bool-cases,
}
use nermalproxy.Gate.{Proxy}
use nermalproxy.Loop.{server, client, command, Loop, initialize, add_socket}
use nermalproxy.Loop.Dispatching.{find_socket}
use nermalproxy.Messenger.{Message}
use nermalproxy.Messenger.Layout.{session_of}
use nermalproxy.Pool.{WorkPackage}
use nermalproxy.Relay.{ClientSocket}
use nermalproxy.Server
use nermalproxy.Server.{OpenAnswers, ServerSocket, new_server_socket}
use nermalproxy.Session.{new_session_manager}
use nermalproxy.Session.Changes.{Has}
use nermalproxy.Session.Ids.{IsFresh}
use nermalproxy.System.{System, Step, UsesNew, job_session, occurrences, socket_count, IsTracked}
use nermalproxy.System.Effects.{message_found}
use nermalproxy.System.Starting.{new_loop, start_proxy}
use nermalproxy.System.Steps.{Step-IsTracked}
use nermalproxy.System.Tokens.{find_socket-counted}
use nermalproxy.System.Workers.{job_found}

-- Steps of the loop and the workers, in any order.
pub data Run (s : System) : System → Type 0 where
  start : Run s s
  next : {t u : System} → Run s t → Step t u → Run s u

-- In every event with a new client, its descriptor is one that no session uses.
abbrev pub AllNew : {s t : System} → Run s t → Type 0
AllNew start = Unit {0}
AllNew (next r st) = AllNew r × UsesNew st

pub socket_count-start :
    (takes takes' : Bool) (s : ServerSocket) (id : ℕ)
    → socket_count id (add_socket takes' command (add_socket takes (server s) []).0).0 ≡ 0
unfolding add_socket socket_count
socket_count-start true true s id = refl
socket_count-start true false s id = refl
socket_count-start false true s id = refl
socket_count-start false false s id = refl

-- The loop that `main` enters.
abbrev pub started_loop : ℕ → Bool → Bool → ServerSocket → ℕ → Proxy → Loop
started_loop epoll_fd takes takes' s command_fd p = record (new_loop command_fd p) {
  is_active = true;
  epoll_fd = some epoll_fd;
  sockets = (add_socket takes' command (add_socket takes (server s) []).0).0;
}

started-IsTracked :
    (epoll_fd : ℕ) (takes takes' : Bool) (s : ServerSocket) (command_fd : ℕ) (p : Proxy)
    → p.sessions ≡ new_session_manager
    → IsTracked (started_loop epoll_fd takes takes' s command_fd p)
unfolding occurrences
started-IsTracked epoll_fd takes takes' s command_fd p nobody =
    let empty : IsFresh new_session_manager = record { growing = tt; below = tt } in
    record {
      fresh = subst IsFresh (sym nobody) empty;
      owned = λ id.
          let no_socket = socket_count-start takes takes' s id in
          (omega arith, inl refl, λ some_left. absurd (omega arith));
    }

pub start_proxy_inv :
    (epoll : Option ℕ) (opens : OpenAnswers) (takes takes' : Bool) (command_fd : ℕ) (p : Proxy)
    (l : Loop)
    → start_proxy epoll opens takes takes' command_fd p ≡ some l
    → (fd : ℕ) × (s : ServerSocket) × (started_loop fd takes takes' s command_fd p ≡ l)
unfolding start_proxy initialize
start_proxy_inv none opens takes takes' command_fd p l e = absurd cc
start_proxy_inv (some fd) opens takes takes' command_fd p l e =
    elim (Bool-cases (Server.initialize opens new_server_socket).1) [
      | inr failed ↦ absurd (let shown = rw failed at e in cc)
      | inl opened ↦
          let shown = rw opened at e in (fd, (Server.initialize opens new_server_socket).0, cc)
    ]

pub start_proxy-IsTracked :
    (epoll : Option ℕ) (opens : OpenAnswers) (takes takes' : Bool) (command_fd : ℕ) (p : Proxy)
    (l : Loop)
    → p.sessions ≡ new_session_manager
    → start_proxy epoll opens takes takes' command_fd p ≡ some l
    → IsTracked l
start_proxy-IsTracked epoll opens takes takes' command_fd p l nobody e =
    let (fd, s, same) = start_proxy_inv epoll opens takes takes' command_fd p l e in
    subst IsTracked same (started-IsTracked fd takes takes' s command_fd p nobody)

pub Run-keeps : {s t : System} (r : Run s t) → AllNew r → IsTracked s.loop → IsTracked t.loop
Run-keeps start new tracked = tracked
Run-keeps (next r st) new tracked = Step-IsTracked st new.1 (Run-keeps r new.0 tracked)

module _ (epoll : Option ℕ) (opens : OpenAnswers) (takes takes' : Bool) (command_fd : ℕ) (p : Proxy)
    (s t : System) (r : Run s t) (nobody : p.sessions ≡ new_session_manager)
    (started : start_proxy epoll opens takes takes' command_fd p ≡ some s.loop)
    (new : AllNew r) where
  -- Let the proxy start without sessions, and run by any events of the loop and any steps of the
  -- workers, in any order, that end without a fault, where the system gives each new client a
  -- descriptor that no session uses. Then no identifier of a session is used twice; each session
  -- has one job or message at most, and none once it has sockets; and the session of every job,
  -- message and socket is there.
  pub Run-IsTracked : IsTracked t.loop
  Run-IsTracked =
      Run-keeps r new
        (start_proxy-IsTracked epoll opens takes takes' command_fd p s.loop nobody started)

  -- Let the proxy start without sessions, and run by any events of the loop and any steps of the
  -- workers, in any order, that end without a fault, where the system gives each new client a
  -- descriptor that no session uses. Then GetSession finds the session of the oldest message, of
  -- each job that a worker runs, and of a client socket that has an event.
  pub Run-sessions :
      ((m : Message) (rest : List Message)
        → t.loop.messages ≡ m ∷ rest
        → Has t.loop.proxy.sessions (session_of m))
      × ((k : ℕ) (job : WorkPackage)
          → get_elem? t.loop.pool.running k ≡ some job
          → Has t.loop.proxy.sessions (job_session job))
      × ((fd : ℕ) (c : ClientSocket)
          → find_socket t.loop.command_fd fd t.loop.sockets ≡ some (client c)
          → Has t.loop.proxy.sessions c.session_id)
  Run-sessions = (
    λ m rest taken. message_found t.loop m rest Run-IsTracked taken,
    λ k job running. job_found t.loop k job Run-IsTracked running,
    λ fd c found.
        let (once, apart, alive) = Run-IsTracked.owned c.session_id in
        let one = find_socket-counted t.loop.command_fd fd t.loop.sockets c found in
        alive (omega arith),
  )
