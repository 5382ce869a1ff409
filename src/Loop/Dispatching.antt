-- ===== src/Loop/Dispatching.antt =====
-- `HandleCommandSocketRead` and `ProcessSockets`: which handler an event goes to.
use nermalproxy.Prelude.{
  ℕ, Bool, true, false, not, List, [], ◌∷◌, Option, none, some, ◌==◌, if◌then◌else◌, Outcome, done,
  fault, use_after_free, ◌>>=◌,
}
use nermalproxy.Gate.{Proxy, Effect}
use nermalproxy.Messenger.{Message}
use nermalproxy.Relay.{ClientSocket, Relayed, on_client_socket}
use nermalproxy.Server.{get_fd}
use nermalproxy.Stats.{GlobalStats, Disk, log_and_reset, ready_to_log}
use nermalproxy.Loop.{
  Socket, server, client, command, Loop, prune_excess_connections, Inputs, on_server_socket,
  run_effects, on_message,
}

-- The part of the handler behind the read: the effects are carried out as it goes.
unfoldable pub handle_message : Inputs → Loop → Message → List Message → Outcome (Loop × Bool)
handle_message i l m rest = on_message i l.proxy m >>= λ (r : Proxy × List Effect).
    done (run_effects i (record l { proxy = r.0; messages = rest }) r.1, true)

-- `HandleCommandSocketRead`; `none` waits for a message.
unfoldable pub on_command_socket : Inputs → Loop → Option (Outcome (Loop × Bool))
on_command_socket i l = elim l.messages [ [] ↦ none | m ∷ rest ↦ some (handle_message i l m rest) ]

-- Whether a socket has a descriptor; the server has none while it is not active.
unfoldable pub has_fd : ℕ → ℕ → Socket → Bool
has_fd command_fd fd (server s) = elim (get_fd s) [ none ↦ false | some n ↦ n == fd ]
has_fd command_fd fd (client c) = c.socket_fd == fd
has_fd command_fd fd command = command_fd == fd

-- The first socket with the descriptor.
unfoldable pub find_socket : ℕ → ℕ → List Socket → Option Socket
find_socket command_fd fd [] = none
find_socket command_fd fd (s ∷ ss) =
    if has_fd command_fd fd s then some s else find_socket command_fd fd ss

-- A change of the object that the first socket with the descriptor is.
unfoldable pub store_client : ℕ → ℕ → ClientSocket → List Socket → List Socket
store_client command_fd fd c [] = []
store_client command_fd fd c (s ∷ ss) =
    if has_fd command_fd fd s then client c ∷ ss else s ∷ store_client command_fd fd c ss

-- `HandleClientSocketRead` on the first socket with the descriptor, and the step of the loop over
-- the sockets to the next one: if the handler has removed the socket, the iterator is one to an
-- element that was deleted.
unfoldable pub after_client : Loop → ℕ → Outcome Relayed → Outcome (Loop × Bool)
after_client l fd result = result >>= λ (r : Relayed). elim r.sockets [
  | [] ↦ fault use_after_free
  | c ∷ _ ↦
      done (record l { proxy = r.proxy; sockets = store_client l.command_fd fd c l.sockets }, true)
]

unfoldable pub on_client : Inputs → Loop → ClientSocket → Option (Outcome (Loop × Bool))
on_client i l c = elim (on_client_socket i.moment l.proxy (c ∷ []) c i.reads i.writes) [
  | none ↦ none
  | some result ↦ some (after_client l c.socket_fd result)
]

-- One event: the handler for the first socket with its descriptor.
unfoldable pub process_event : Inputs → Loop → ℕ → Option (Outcome (Loop × Bool))
process_event i l fd = elim (find_socket l.command_fd fd l.sockets) [
  | none ↦ some (done (l, true))
  | some s ↦ elim s [
    | server s ↦ some (on_server_socket i l s)
    | client c ↦ on_client i l c
    | command ↦ on_command_socket i l
  ]
]

-- The loop over the events.
unfoldable pub process_events : List (ℕ × Inputs) → Loop → Option (Outcome (Loop × Bool))
process_events [] l = some (done (l, true))
process_events (e ∷ es) l = elim (process_event e.1 l e.0) [
  | none ↦ none
  | some result ↦ elim result [
    | fault f ↦ some (fault f)
    | done r ↦ elim r.1 [ false ↦ some (done (r.0, false)) | true ↦ process_events es r.0 ]
  ]
]

-- What `epoll_wait` gives: -1 with EAGAIN or EINTR, -1 with another error, no event, or events.
pub data EpollAnswer : Type 0 where
  interrupted : EpollAnswer
  broken : EpollAnswer
  timed_out : ℕ → Disk → EpollAnswer
  ready : List (ℕ × Inputs) → EpollAnswer

-- The rotation of the statistics, when it is due.
unfoldable pub rotate : ℕ → Disk → GlobalStats → GlobalStats
rotate now disk g = if ready_to_log now g then (log_and_reset disk now g).0 else g

-- What is done when there is no event.
unfoldable pub on_timeout : ℕ → Disk → Loop → Option (Outcome (Loop × Bool))
on_timeout now disk l = elim (prune_excess_connections l.sockets) [
  | none ↦ none
  | some result ↦ some (
      result >>= λ sockets. done (
        record l {
          sockets = sockets;
          proxy = record l.proxy { stats = rotate now disk l.proxy.stats };
        },
        true,
      ))
]

-- `ProcessSockets`
unfoldable pub process_sockets : EpollAnswer → Loop → Option (Outcome (Loop × Bool))
process_sockets answer l = if not l.is_active then some (done (l, false)) else elim answer [
  | interrupted ↦ some (done (l, true))
  | broken ↦ some (done (l, false))
  | timed_out now disk ↦ on_timeout now disk l
  | ready events ↦ process_events events l
]
