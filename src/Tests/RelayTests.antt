-- ===== src/Tests/RelayTests.antt =====
-- ClientSocket.cpp and `HandleClientSocketRead` with one session.
use nermalproxy.Prelude.{
  ◌≡◌, refl, true, false, List, [], ◌∷◌, some, none, arith, done, ◌+◌, ◌%◌, ◌^◌,
}
use nermalproxy.Auth.{new_auth_manager}
use nermalproxy.Gate.{Proxy, Moment}
use nermalproxy.Session.{
  Session, Garbage, new_session, find_id, change_id, change_session, count_rx, count_tx,
  get_session,
}
use nermalproxy.Session.Ids.{IsFresh}
use nermalproxy.Stats.{new_global_stats}
use nermalproxy.Relay.{
  ClientSocket, received, read_failed, wrote, write_again, write_loop, client_write, store_socket,
  remove_fd, on_client_socket, num_read, chunk, is_recoverable, read_loop, client_read, count_bytes,
  on_error, Relayed, size_max, write_count,
}
use nermalproxy.Relay.Events.{active, on_client_socket_relays, on_client_socket_failed, inactive}
use nermalproxy.Relay.Writing.{sent_all, client_write-sent}

program : Unit {0}
unfolding find_id change_id write_loop client_write store_socket remove_fd on_client_socket num_read
    chunk is_recoverable read_loop client_read write_count count_bytes on_error
program = tt

abbrev garbage : Garbage
garbage = record {
  proxy_fd = 0;
  transparent = false;
  client_rx_bytes = 100;
  client_tx_bytes = 0;
  port = 0;
}

abbrev session : Session
session = new_session garbage 40 7 0

abbrev proxy : Proxy
proxy = record {
  auth = new_auth_manager;
  sessions = record { next_id = 1; session_list = session ∷ [] };
  stats = new_global_stats 0;
  policies = [];
  blacklists = [];
}

proxy-IsFresh : IsFresh proxy.sessions
proxy-IsFresh = omega arith

abbrev noon : Moment
noon = record { now = 500; local = none }

abbrev pair : List ClientSocket
pair = active 7 9 0 true ∷ active 9 7 0 false ∷ []

-- A write that is cut short, one that is interrupted, and the rest.
portions_test :
    client_write (active 7 9 0 true) (wrote 1 ∷ write_again ∷ wrote 2 ∷ []) (65 ∷ 66 ∷ 67 ∷ [])
    ≡ some (sent_all (active 7 9 0 true) (65 ∷ 66 ∷ 67 ∷ []))
unfolding program
portions_test = refl

client_write-sent_example :
    client_write (active 7 9 0 true) (wrote 1 ∷ write_again ∷ wrote 2 ∷ []) (65 ∷ 66 ∷ 67 ∷ [])
    ≡ some (sent_all (active 7 9 0 true) (65 ∷ 66 ∷ 67 ∷ []))
client_write-sent_example =
    client_write-sent (active 7 9 0 true) (wrote 1 ∷ write_again ∷ wrote 2 ∷ []) (65 ∷ 66 ∷ 67 ∷ [])
      refl (omega arith)

on_client_socket_relays_example :
    on_client_socket noon proxy pair
      (active 7 9 0 true)
      (received (65 ∷ 66 ∷ []) ∷ [])
      (wrote 2 ∷ [])
    ≡ some (
        done (record {
          proxy = record proxy { sessions = change_session (count_rx 2) proxy.sessions 0 };
          sockets = pair;
          sent = 65 ∷ 66 ∷ [];
        }))
unfolding program
on_client_socket_relays_example =
    on_client_socket_relays noon proxy pair 7 9 0 true [] (wrote 2 ∷ []) 65 (66 ∷ []) session
      (omega arith) (omega arith) refl

-- A failed read from the host, before the session has sent anything.
abbrev failed : Relayed
failed = record {
  proxy = record proxy { sessions = change_session (count_tx size_max) proxy.sessions 0 };
  sockets = store_socket (inactive 9 7 0 false) pair;
  sent = [];
}

failed_test :
    on_client_socket noon proxy pair (active 9 7 0 false) (read_failed ∷ []) [] ≡ some (done failed)
unfolding program write_count
failed_test = refl

on_client_socket_failed_example :
    (r : Relayed) × (on_client_socket noon proxy pair (active 9 7 0 false) (read_failed ∷ []) []
      ≡ some (done r))
    × (r.sent ≡ [])
    × (r.sockets ≡ store_socket (inactive 9 7 0 false) pair)
    × (s' : Session) × (get_session r.proxy.sessions 0 ≡ some s')
    × (s'.client_rx_bytes ≡ 100)
    × ((s'.client_tx_bytes + 1) % 2 ^ 64 ≡ 0)
unfolding program
on_client_socket_failed_example =
    on_client_socket_failed noon proxy pair 9 7 0 false [] [] false session refl (omega arith)
      (omega arith)
