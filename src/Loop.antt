-- ===== src/Loop.antt =====
-- SocketManager.cpp: the event loop, which works on the sockets that are ready.
pub mod Dispatching
pub mod Rounds
use nermalproxy.Prelude.{
  ℕ, suc, Bool, true, false, not, List, [], ◌∷◌, ◌++◌, Option, none, some, ltb, ◌==◌, if◌then◌else◌,
  length, Outcome, done, fault, null_dereference, use_after_free,
}
use nermalproxy.CText.{Bytes}
use nermalproxy.Gate.{
  Proxy, Moment, Effect, reply, close, dispatch_connect, post_failure, add_sockets,
  on_detect_result, on_connect_result,
}
use nermalproxy.Messenger.{Message, detect_result, connect_result, minus_one}
use nermalproxy.Pool.{detector, connector, ThreadPool, dispatch}
use nermalproxy.Relay.{ClientSocket, ReadOutcome, WriteOutcome, Relayed, on_client_socket}
use nermalproxy.Server.{ServerSocket, accept}
use nermalproxy.Session.{
  Session, Garbage, SessionManager, create_session, set_client_address, find_client,
}
use nermalproxy.Stats.{Disk, LogFile, log_and_reset, ready_to_log}

-- A socket by its type.
pub data Socket : Type 0 where
  server : ServerSocket → Socket
  client : ClientSocket → Socket
  command : Socket

-- The state that the loop works on: the members of the manager, the singletons, the messages that
-- the workers have sent, and the pool.
pub record Loop : Type 0 where
  pub is_active : Bool
  pub epoll_fd : Option ℕ
  pub sockets : List Socket
  pub command_fd : ℕ
  pub proxy : Proxy
  pub messages : List Message
  pub pool : ThreadPool

-- `Initialize`, with the answer of `epoll_create1`.
unfoldable pub initialize : Option ℕ → Loop → Loop × Bool
initialize answer l = if l.is_active then (l, false) else elim answer [
  | none ↦ (l, false)
  | some fd ↦ (record l { epoll_fd = some fd; is_active = true }, true)
]

-- `AddSocket`, with whether `epoll_ctl` takes the descriptor.
unfoldable pub add_socket : Bool → Socket → List Socket → List Socket × Bool
add_socket taken s sockets = if not taken then (sockets, false) else (sockets ++ s ∷ [], true)

unfoldable pub first_client : List Socket → Option ClientSocket
first_client [] = none
first_client (server s ∷ ss) = first_client ss
first_client (client c ∷ ss) = some c
first_client (command ∷ ss) = first_client ss

abbrev pub max_sockets : ℕ
max_sockets = 200

-- `PruneExcessConnections`; `none` never returns. The first client that is found is removed from
-- the list, which deletes it, and asked for the descriptor of its peer after that.
unfoldable pub prune_excess_connections : List Socket → Option (Outcome (List Socket))
prune_excess_connections sockets =
    if ltb max_sockets (length sockets)
    then elim (first_client sockets) [ none ↦ none | some c ↦ some (fault use_after_free) ]
    else some (done sockets)

-- What the outside adds to one event: the time, the memory of a new session, what `::accept`,
-- `::read` and `::write` give, and whether `epoll_ctl` takes the two sockets of a connection.
pub record Inputs : Type 0 where
  pub moment : Moment
  pub garbage : Garbage
  pub accepted : Option (ℕ × Bytes)
  pub reads : List ReadOutcome
  pub writes : List WriteOutcome
  pub takes_client : Bool
  pub takes_proxy : Bool

-- A change through the pointer that `CreateSession` returned.
unfoldable pub change_client : (Session → Session) → List Session → ℕ → List Session
change_client f [] fd = []
change_client f (s ∷ ss) fd = if s.client_fd == fd then f s ∷ ss else s ∷ change_client f ss fd

-- `HandleServerSocketRead`, with `BeginProxyDetect`. The options that it sets on the descriptor, whose
-- results are only printed, are left out.
unfoldable pub on_server_socket : Inputs → Loop → ServerSocket → Outcome (Loop × Bool)
on_server_socket i l s = elim (accept s i.accepted) [
  | none ↦ done (l, false)
  | some (fd, ip) ↦
      let (m, pointer) = create_session i.garbage i.moment.now l.proxy.sessions fd in
      elim pointer [
        | none ↦ fault null_dereference
        | some session ↦
            let sessions : SessionManager = record m {
              session_list = change_client (set_client_address ip) m.session_list fd;
            } in
            done (
              record l {
                proxy = record l.proxy { sessions = sessions };
                pool = dispatch l.pool (detector session.session_id);
              },
              true,
            )
      ]
]

-- The two sockets of a connection.
abbrev pub client_side : ℕ → ℕ → ℕ → ClientSocket
client_side fd proxy_fd id = record {
  is_active = true;
  is_client_to_proxy = true;
  socket_fd = fd;
  peer_fd = proxy_fd;
  session_id = id;
}

abbrev pub proxy_side : ℕ → ℕ → ℕ → ClientSocket
proxy_side fd proxy_fd id = record {
  is_active = true;
  is_client_to_proxy = false;
  socket_fd = proxy_fd;
  peer_fd = fd;
  session_id = id;
}

-- What an effect of a handler does to the loop. Answers and closed descriptors go outside.
unfoldable pub run_effect : Inputs → Loop → Effect → Loop
run_effect i l (reply fd text) = l
run_effect i l (close fd) = l
run_effect i l (dispatch_connect id) = record l { pool = dispatch l.pool (connector id) }
run_effect i l (post_failure id) = record l {
  messages = l.messages ++ connect_result id minus_one false ∷ [];
}
run_effect i l (add_sockets fd proxy_fd id) =
    let (sockets, _) = add_socket i.takes_client (client (client_side fd proxy_fd id)) l.sockets in
    let (sockets', _) = add_socket i.takes_proxy (client (proxy_side fd proxy_fd id)) sockets in
    record l { sockets = sockets' }

unfoldable pub run_effects : Inputs → Loop → List Effect → Loop
run_effects i l [] = l
run_effects i l (e ∷ es) = run_effects i (run_effect i l e) es

-- The handler for a message, with its effects.
unfoldable pub on_message : Inputs → Proxy → Message → Outcome (Proxy × List Effect)
on_message i p (detect_result id success) = on_detect_result i.moment p id success
on_message i p (connect_result id fd success) = on_connect_result i.moment p id fd success
