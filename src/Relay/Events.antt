-- ===== src/Relay/Events.antt =====
-- What one event on a client socket does to the session, its sockets and its peer.
use nermalproxy.Prelude.{
  le→ltb-false, ℕ, suc, ◌+◌, ◌%◌, ◌^◌, ◌<◌, ◌≤◌, ◌≡◌, refl, Bool, true, false, List, [], ◌∷◌, some,
  none, arith, leb, if◌then◌else◌, length, done,
}
use nermalproxy.CText.{Bytes}
use nermalproxy.Gate.{Proxy, Moment}
use nermalproxy.Session.{Session, get_session, change_session, count_rx, count_tx}
use nermalproxy.Session.Changes.{get_session-change_session}
use nermalproxy.Session.Ids.{IsFresh, get_session-end_session}
use nermalproxy.Relay.{
  ClientSocket, on_error, ReadOutcome, received, read_again, read_failed, WriteOutcome, num_read,
  is_recoverable, chunk, read_loop, client_read, size_max, client_write, buffer_size, write_count,
  remove_fd, store_socket, Relayed, tear_down, count_bytes, on_client_socket,
}
use nermalproxy.Relay.Writing.{Delivers, client_write-sent}

-- A socket in use.
abbrev pub active : ℕ → ℕ → ℕ → Bool → ClientSocket
active fd peer id from_client = record {
  is_active = true;
  is_client_to_proxy = from_client;
  socket_fd = fd;
  peer_fd = peer;
  session_id = id;
}

-- A socket after an error.
abbrev pub inactive : ℕ → ℕ → ℕ → Bool → ClientSocket
inactive fd peer id from_client = record (active fd peer id from_client) { is_active = false }

not_empty : (n : ℕ) → leb (suc n) 0 ≡ false
not_empty n = ground arith

read_chunk :
    (fd peer id c : ℕ) (from_client : Bool) (cs : Bytes) (rs : List ReadOutcome)
    → client_read (active fd peer id from_client) (received (c ∷ cs) ∷ rs)
      ≡ some (record {
        socket = active fd peer id from_client;
        count = suc (length cs);
        is_error = false;
        bytes = c ∷ cs;
      })
unfolding client_read read_loop num_read is_recoverable chunk
read_chunk fd peer id c from_client cs rs = rw (not_empty (length cs))

-- A `::read` that gives -1, with EAGAIN or EINTR, or with another error.
abbrev pub failing : Bool → ReadOutcome
failing true = read_again
failing false = read_failed

read_failing :
    (fd peer id : ℕ) (from_client again : Bool) (rs : List ReadOutcome)
    → client_read (active fd peer id from_client) (failing again ∷ rs)
      ≡ some (record {
        socket = active fd peer id from_client;
        count = size_max;
        is_error = false;
        bytes = [];
      })
unfolding client_read read_loop num_read is_recoverable chunk
read_failing fd peer id from_client true rs = refl
read_failing fd peer id from_client false rs = refl

module _ (t : Moment) (p : Proxy) (sockets : List ClientSocket) (fd peer id : ℕ)
    (from_client : Bool) (rs : List ReadOutcome) (ws : List WriteOutcome) where
  -- For an active socket of a session: a chunk that was read, not empty and no more than the
  -- buffer holds, is sent to the peer whole if the system takes it in the end, in any
  -- portions. Its length is added to the bytes received of the session if it came from the
  -- client, and to the bytes sent otherwise.
  pub on_client_socket_relays :
      (c : ℕ) (cs : Bytes) (s : Session)
      → suc (length cs) ≤ buffer_size
      → Delivers ws (suc (length cs))
      → get_session p.sessions id ≡ some s
      → on_client_socket t p sockets (active fd peer id from_client) (received (c ∷ cs) ∷ rs) ws
        ≡ some (
            done (record {
              proxy = record p {
                sessions =
                    change_session
                      (if from_client
                        then count_rx (suc (length cs))
                        else count_tx (suc (length cs)))
                      p.sessions
                      id;
              };
              sockets = store_socket (active fd peer id from_client) sockets;
              sent = c ∷ cs;
            }))
  unfolding on_client_socket write_count count_bytes
  on_client_socket_relays c cs s small d found = rw (
    read_chunk fd peer id c from_client cs rs,
    on_client_socket,
    le→ltb-false buffer_size (suc (length cs)) small,
    client_write-sent (active fd peer id from_client) ws (c ∷ cs) refl d,
    count_bytes,
    found,
  )

  -- Let the session of an active socket be there, with counters of 64 bits. A read that fails, with
  -- EAGAIN or EINTR or another error, is not taken for one and not tried again: a write of -1 bytes
  -- follows, which fails, and only then is the socket inactive. Nothing is sent, and the session
  -- stays; but if the socket is the host's, the bytes sent of the session are one fewer, modulo 2^64.
  pub on_client_socket_failed :
      (again : Bool) (s : Session)
      → get_session p.sessions id ≡ some s
      → s.client_rx_bytes < 2 ^ 64
      → s.client_tx_bytes < 2 ^ 64
      → (r : Relayed) × (on_client_socket t p sockets
            (active fd peer id from_client)
            (failing again ∷ rs)
            ws
          ≡ some (done r))
        × (r.sent ≡ [])
        × (r.sockets ≡ store_socket (inactive fd peer id from_client) sockets)
        × (s' : Session) × (get_session r.proxy.sessions id ≡ some s')
        × (s'.client_rx_bytes ≡ s.client_rx_bytes)
        × ((s'.client_tx_bytes + (if from_client then 0 else 1)) % 2 ^ 64 ≡ s.client_tx_bytes)
  unfolding on_client_socket write_count on_error count_bytes
  on_client_socket_failed again s found rx tx =
      let change = if from_client then count_rx 0 else count_tx size_max in
      let keeps : (x : Session) → (change x).session_id ≡ x.session_id = λ x. ground arith in
      (
        record {
          proxy = record p { sessions = change_session change p.sessions id };
          sockets = store_socket (inactive fd peer id from_client) sockets;
          sent = [];
        },
        rw (read_failing fd peer id from_client again rs, on_client_socket, found, count_bytes)
            refl,
        refl,
        refl,
        change s,
        get_session-change_session change keeps p.sessions id s found,
        ground arith,
        ground arith,
      )

  -- The end of the stream on an active socket of a session only makes the socket inactive.
  -- Nothing is sent, and the session stays.
  pub on_client_socket_end :
      (s : Session)
      → get_session p.sessions id ≡ some s
      → on_client_socket t p sockets (active fd peer id from_client) (received [] ∷ rs) ws
        ≡ some (
            done (record {
              proxy = record p {
                sessions =
                    change_session (if from_client then count_rx 0 else count_tx 0) p.sessions id;
              };
              sockets = store_socket (inactive fd peer id from_client) sockets;
              sent = [];
            }))
  unfolding on_client_socket client_read read_loop num_read is_recoverable chunk count_bytes
      write_count client_write on_error
  on_client_socket_end s found = rw (found, count_bytes)

  -- Let no identifier be used twice. An event on an inactive socket ends its session, sends
  -- nothing, and takes away the first sockets of the two descriptors.
  pub on_client_socket_ends :
      IsFresh p.sessions
      → (r : Relayed) × (on_client_socket t p sockets (inactive fd peer id from_client) rs ws
          ≡ some (done r))
        × IsFresh r.proxy.sessions
        × (get_session r.proxy.sessions id ≡ none)
        × (r.sockets ≡ remove_fd peer (remove_fd fd sockets))
        × (r.sent ≡ [])
  unfolding on_client_socket client_read tear_down
  on_client_socket_ends f =
      let (fresh, gone) = get_session-end_session p.auth t.now id id p.sessions p.stats f in
      (
        tear_down t p sockets (inactive fd peer id from_client),
        refl,
        fresh,
        ground arith,
        refl,
        refl,
      )
