-- ===== src/Tests/SystemTests.antt =====
-- The proxy from its start to the message about its first client, and rounds of the event loop.
use nermalproxy.Prelude.{
  ◌↔◌, ℕ, ◌≡◌, ◌⊎◌, refl, true, false, List, [], ◌∷◌, some, none, get_elem?, fault, use_after_free,
}
use nermalproxy.Auth.{new_auth_manager}
use nermalproxy.CText.{codes}
use nermalproxy.Detection.{detect, async_detector}
use nermalproxy.Gate.{Proxy}
use nermalproxy.Messenger.{Message, detect_result}
use nermalproxy.Messenger.Layout.{session_of}
use nermalproxy.Pool.{
  WorkPackage, detector, new_thread_pool, dispatch, ThreadPool, wake, take_package, remove_at,
  end_job,
}
use nermalproxy.Relay.{ClientSocket}
use nermalproxy.Relay.Events.{inactive}
use nermalproxy.Server
use nermalproxy.Server.{ServerSocket, OpenAnswers, new_server_socket, get_fd, accept}
use nermalproxy.Server.Opening.{IsOpened, initialize_result}
use nermalproxy.Session.{
  Garbage, SessionManager, new_session, new_session_manager, set_client_address, find_id,
  find_client, create_session,
}
use nermalproxy.Session.Changes.{Has}
use nermalproxy.Stats.{Disk, new_global_stats}
use nermalproxy.Loop.{
  server, client, command, Loop, initialize, add_socket, first_client, prune_excess_connections,
  Inputs, change_client, on_server_socket,
}
use nermalproxy.Loop.Dispatching.{
  has_fd, find_socket, process_event, process_events, on_timeout, process_sockets,
}
use nermalproxy.Loop.Rounds.{process_event_removed}
use nermalproxy.System.{System, event, wakes, starts, detects, job_session, IsTracked}
use nermalproxy.System.Starting.{new_loop, start_proxy}
use nermalproxy.System.Runs.{Run, start, next, AllNew, Run-IsTracked, Run-sessions}

program : Unit {0}
unfolding detect async_detector dispatch wake take_package remove_at end_job Server.initialize
    get_fd accept find_id find_client create_session initialize add_socket first_client
    prune_excess_connections change_client on_server_socket has_fd find_socket process_event
    process_events on_timeout process_sockets start_proxy
program = tt

abbrev garbage : Garbage
garbage = record {
  proxy_fd = 0;
  transparent = false;
  client_rx_bytes = 0;
  client_tx_bytes = 0;
  port = 0;
}

abbrev proxy : Proxy
proxy = record {
  auth = new_auth_manager;
  sessions = new_session_manager;
  stats = new_global_stats 0;
  policies = [];
  blacklists = [];
}

abbrev opens : OpenAnswers
opens = record { socket = some 3; sets_option = true; binds = true; listens = true }

abbrev listening : ServerSocket
listening = record { is_active = true; socket_fd = some 3 }

abbrev started : Loop
started = record (new_loop 5 proxy) {
  is_active = true;
  epoll_fd = some 4;
  sockets = server listening ∷ command ∷ [];
}

-- No socket is left in the process.
abbrev exhausted : OpenAnswers
exhausted = record { socket = none; sets_option = true; binds = true; listens = true }

initialize_result_example :
    (((Server.initialize exhausted new_server_socket).1 ≡ true)
      ↔ ((exhausted.socket ≡ none) ⊎ ((fd : ℕ) × IsOpened exhausted fd)))
    × ((fd : ℕ)
        → (get_fd (Server.initialize exhausted new_server_socket).0 ≡ some fd)
          ↔ IsOpened exhausted fd)
    × ((fd : ℕ)
        → IsOpened exhausted fd
        → accept (Server.initialize exhausted new_server_socket).0 (some (7, codes "10.0.0.1"))
          ≡ some (7, codes "10.0.0.1"))
    × (exhausted.socket ≡ none
        → ((Server.initialize exhausted new_server_socket).1 ≡ true)
          × (accept (Server.initialize exhausted new_server_socket).0 (some (7, codes "10.0.0.1"))
              ≡ none))
initialize_result_example = initialize_result exhausted (some (7, codes "10.0.0.1"))

abbrev inputs : Inputs
inputs = record {
  moment = record { now = 40; local = none };
  garbage = garbage;
  accepted = some (7, codes "10.0.0.1");
  reads = [];
  writes = [];
  takes_client = true;
  takes_proxy = true;
}

-- One session, for the client that was accepted.
abbrev sessions : SessionManager
sessions = record {
  next_id = 1;
  session_list = set_client_address (codes "10.0.0.1") (new_session garbage 40 7 0) ∷ [];
}

abbrev accepted : Loop
accepted = record started {
  proxy = record proxy { sessions = sessions };
  pool = record new_thread_pool { semaphore = 1; work = detector 0 ∷ [] };
}

abbrev woken_pool : ThreadPool
woken_pool = record new_thread_pool { work = detector 0 ∷ []; waiting = 19; woken = 1 }

abbrev running_pool : ThreadPool
running_pool = record new_thread_pool { waiting = 19; running = detector 0 ∷ [] }

abbrev system : Loop → System
system l = record { loop = l; cache = [] }

-- The client is accepted, a worker takes the job of its detection, and reads nothing.
abbrev detected : Loop
detected = record accepted { pool = new_thread_pool; messages = detect_result 0 false ∷ [] }

accepted-Run : Run (system started) (system accepted)
unfolding program
accepted-Run = next start (event inputs 3 true refl)

detected-Run : Run (system started) (system detected)
unfolding program accepted-Run
detected-Run =
    next
      (next (next accepted-Run (wakes {pool = woken_pool} refl))
        (starts {pool = running_pool} (detector 0) refl))
      (detects {pool = new_thread_pool} {m = sessions} 0 0 [] false refl refl refl)

detected-AllNew : AllNew detected-Run
unfolding detected-Run accepted-Run find_client
detected-AllNew = ((((tt, λ fd ip e. refl), tt), tt), tt)

Run-IsTracked_example : IsTracked detected
unfolding program
Run-IsTracked_example =
    Run-IsTracked (some 4) opens true true 5 proxy (system started) (system detected) detected-Run
      refl refl detected-AllNew

Run-sessions_example :
    ((m : Message) (rest : List Message)
      → detect_result 0 false ∷ [] ≡ m ∷ rest
      → Has sessions (session_of m))
    × ((k : ℕ) (job : WorkPackage) → get_elem? [] k ≡ some job → Has sessions (job_session job))
    × ((fd : ℕ) (c : ClientSocket)
        → find_socket 5 fd (server listening ∷ command ∷ []) ≡ some (client c)
        → Has sessions c.session_id)
unfolding program
Run-sessions_example =
    Run-sessions (some 4) opens true true 5 proxy (system started) (system detected) detected-Run
      refl refl detected-AllNew

-- A client socket after an error.
abbrev broken_loop : Loop
broken_loop = record started { sockets = server listening ∷ client (inactive 7 9 0 true) ∷ [] }

process_event_removed_example : process_event inputs broken_loop 7 ≡ some (fault use_after_free)
unfolding program
process_event_removed_example = process_event_removed inputs broken_loop 7 9 0 true refl

abbrev disk : Disk
disk = record { opens = λ name. true; accepts_header = λ name. true }
