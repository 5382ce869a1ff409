-- ===== src/Relay.antt =====
-- ClientSocket.cpp, and `HandleClientSocketRead` of SocketManager.cpp, which passes data from one
-- socket of a session to the other.
pub mod Writing
pub mod Events
pub mod Same
pub mod Sessions
use nermalproxy.Prelude.{
  take, drop, ℕ, zero, suc, ◌-◌, ◌^◌, Bool, true, false, not, ◌&&◌, List, [], ◌∷◌, ◌++◌, Option,
  none, some, leb, ltb, ◌==◌, if◌then◌else◌, length, Outcome, done, fault, null_dereference,
  out_of_bounds,
}
use nermalproxy.CText.{Bytes}
use nermalproxy.Gate.{Proxy, Moment}
use nermalproxy.Session.{Session, get_session, change_session, count_rx, count_tx, end_session}

pub record ClientSocket : Type 0 where
  pub is_active : Bool
  pub is_client_to_proxy : Bool
  pub socket_fd : ℕ
  pub peer_fd : ℕ
  pub session_id : ℕ

unfoldable pub on_error : ClientSocket → ClientSocket
on_error s = record s { is_active = false }

-- What one `::read` gives: bytes, none of them at the end of the stream; or -1, with EAGAIN or
-- EINTR, or with another error.
pub data ReadOutcome : Type 0 where
  received : Bytes → ReadOutcome
  read_again : ReadOutcome
  read_failed : ReadOutcome

-- What one `::write` gives: how many of the bytes were taken; or -1 as above.
pub data WriteOutcome : Type 0 where
  wrote : ℕ → WriteOutcome
  write_again : WriteOutcome
  write_failed : WriteOutcome

-- -1 as a `size_t`.
abbrev pub size_max : ℕ
size_max = 2 ^ 64 - 1

-- `numRead` is a `size_t`.
unfoldable pub num_read : ReadOutcome → ℕ
num_read (received bytes) = length bytes
num_read read_again = size_max
num_read read_failed = size_max

unfoldable pub is_recoverable : ReadOutcome → Bool
is_recoverable (received bytes) = false
is_recoverable read_again = true
is_recoverable read_failed = false

-- The bytes that a read leaves at the front of the buffer.
unfoldable pub chunk : ReadOutcome → Bytes
chunk (received bytes) = bytes
chunk read_again = []
chunk read_failed = []

-- What `Read` returns: the socket, the number, the error flag, and the bytes in the buffer.
pub record ReadResult : Type 0 where
  pub socket : ClientSocket
  pub count : ℕ
  pub is_error : Bool
  pub bytes : Bytes

-- The loop of `Read`; `none` waits for more than the outcomes given. Whatever happened, the error
-- flag is cleared behind it.
unfoldable pub read_loop : ClientSocket → List ReadOutcome → Option ReadResult
unfolding on_error
read_loop s [] = none
read_loop s (r ∷ rs) =
    let later = read_loop s rs in
    if leb (num_read r) 0
    then (if num_read r == size_max && is_recoverable r
        then later
        else some
            (record { socket = on_error s; count = num_read r; is_error = false; bytes = chunk r }))
    else some (record { socket = s; count = num_read r; is_error = false; bytes = chunk r })

-- `Read`
unfoldable pub client_read : ClientSocket → List ReadOutcome → Option ReadResult
client_read s rs =
    if not s.is_active
    then some (record { socket = s; count = 0; is_error = true; bytes = [] })
    else read_loop s rs

-- What `Write` returns, and the bytes that the peer was sent.
pub record WriteResult : Type 0 where
  pub socket : ClientSocket
  pub count : ℕ
  pub is_error : Bool
  pub sent : Bytes

-- The loop of `Write`, with the bytes that are left and those that were sent.
unfoldable pub write_loop : ClientSocket → List WriteOutcome → Bytes → Bytes → Option WriteResult
unfolding on_error
write_loop s ws [] sent =
    some (record { socket = s; count = length sent; is_error = false; sent = sent })
write_loop s [] (c ∷ left) sent = none
write_loop s (write_again ∷ ws) (c ∷ left) sent = write_loop s ws (c ∷ left) sent
write_loop s (write_failed ∷ ws) (c ∷ left) sent =
    some (record { socket = on_error s; count = 0; is_error = true; sent = sent })
write_loop s (wrote zero ∷ ws) (c ∷ left) sent =
    some (record { socket = on_error s; count = 0; is_error = true; sent = sent })
write_loop s (wrote (suc n) ∷ ws) (c ∷ left) sent =
    write_loop s ws (drop n left) (sent ++ c ∷ take n left)

-- `Write`
unfoldable pub client_write : ClientSocket → List WriteOutcome → Bytes → Option WriteResult
client_write s ws bytes =
    if not s.is_active
    then some (record { socket = s; count = 0; is_error = true; sent = [] })
    else write_loop s ws bytes []

-- The size of `buf`.
abbrev pub buffer_size : ℕ
buffer_size = 32768

-- `Write` of a number of bytes from the front of `buf`. Of numbers beyond its size there is only
-- -1 as a `size_t`: so many bytes leave the address space, and `::write` fails with EFAULT.
unfoldable pub write_count : ClientSocket → List WriteOutcome → ℕ → Bytes → Option WriteResult
unfolding on_error
write_count s ws count bytes =
    if s.is_active && ltb buffer_size count
    then some (record { socket = on_error s; count = 0; is_error = true; sent = [] })
    else client_write s ws bytes

-- The loop that removes the first socket of a descriptor.
unfoldable pub remove_fd : ℕ → List ClientSocket → List ClientSocket
remove_fd fd [] = []
remove_fd fd (s ∷ ss) = if s.socket_fd == fd then ss else s ∷ remove_fd fd ss

-- A change of the object that the first socket of a descriptor is.
unfoldable pub store_socket : ClientSocket → List ClientSocket → List ClientSocket
store_socket s [] = []
store_socket s (x ∷ xs) = if x.socket_fd == s.socket_fd then s ∷ xs else x ∷ store_socket s xs

-- What the handler leaves: the proxy, the client sockets, and the bytes sent to the peer.
pub record Relayed : Type 0 where
  pub proxy : Proxy
  pub sockets : List ClientSocket
  pub sent : Bytes

-- The handler after a read that reported an error.
unfoldable pub tear_down : Moment → Proxy → List ClientSocket → ClientSocket → Relayed
tear_down t p sockets s =
    let (sessions, stats) = end_session p.auth t.now p.sessions s.session_id p.stats in
    record {
      proxy = record p { sessions = sessions; stats = stats };
      sockets = remove_fd s.peer_fd (remove_fd s.socket_fd sockets);
      sent = [];
    }

-- The handler after a write: the bytes are counted for the session.
unfoldable pub count_bytes : Proxy → List ClientSocket → ReadResult → WriteResult → Outcome Relayed
count_bytes p sockets r w = elim (get_session p.sessions w.socket.session_id) [
  | none ↦ fault null_dereference
  | some session ↦ done (record {
    proxy = record p {
      sessions =
          change_session
            (if w.socket.is_client_to_proxy then count_rx w.count else count_tx r.count) p.sessions
            w.socket.session_id;
    };
    sockets = store_socket w.socket sockets;
    sent = w.sent;
  })
]

-- `HandleClientSocketRead`; `none` waits for the peer or the client.
unfoldable pub on_client_socket :
    Moment
    → Proxy
    → List ClientSocket
    → ClientSocket
    → List ReadOutcome
    → List WriteOutcome
    → Option (Outcome Relayed)
on_client_socket t p sockets s rs ws = elim (client_read s rs) [
  | none ↦ none
  | some r ↦ elim r.is_error [
    | true ↦ some (done (tear_down t p sockets r.socket))
    | false ↦ elim (write_count r.socket ws r.count r.bytes) [
      | none ↦ none
      | some w ↦ some (count_bytes p sockets r w)
    ]
  ]
]
