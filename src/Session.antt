-- ===== src/Session.antt =====
-- Session.cpp: the sessions of the proxy, and their manager. A pointer to a session is used right
-- after it was looked up, so it is the first session that fits.
pub mod Ids
pub mod Accounting
pub mod Changes
use nermalproxy.Prelude.{
  ℕ, suc, ◌+◌, ◌%◌, ◌^◌, Bool, true, false, not, ◌&&◌, List, [], ◌∷◌, ◌++◌, Option, none, some,
  ◌==◌, if◌then◌else◌,
}
use nermalproxy.Auth.{AuthManager, is_audit_enabled}
use nermalproxy.CText.{Bytes, str_eq}
use nermalproxy.Stats.{
  SiteStats, UserStats, GlobalStats, add_u64, sub_u64, add_rx_bytes, add_tx_bytes,
  increment_connections, add_connection_time, with_stats,
}

pub record Session : Type 0 where
  pub session_id : ℕ
  pub client_fd : ℕ
  pub proxy_fd : ℕ
  pub transparent : Bool
  pub client_rx_bytes : ℕ
  pub client_tx_bytes : ℕ
  pub host_url : Bytes
  pub port : ℕ
  pub request : Bytes
  pub client_ip : Bytes
  pub user_name : Bytes
  pub timestamp : ℕ

-- What the memory of a new session holds in the fields that the constructor leaves alone.
pub record Garbage : Type 0 where
  pub proxy_fd : ℕ
  pub transparent : Bool
  pub client_rx_bytes : ℕ
  pub client_tx_bytes : ℕ
  pub port : ℕ

-- The constructor.
abbrev pub new_session : Garbage → ℕ → ℕ → ℕ → Session
new_session g now client_fd session_id = record {
  session_id = session_id;
  client_fd = client_fd;
  proxy_fd = g.proxy_fd;
  transparent = g.transparent;
  client_rx_bytes = g.client_rx_bytes;
  client_tx_bytes = g.client_tx_bytes;
  host_url = [];
  port = g.port;
  request = [];
  client_ip = [];
  user_name = [];
  timestamp = now;
}

abbrev pub set_request : Bytes → Session → Session
set_request request s = record s { request = request }

abbrev pub set_host : Bytes → Session → Session
set_host host s = record s { host_url = host }

-- The argument is converted to `std::uint16_t`.
abbrev pub set_port : ℕ → Session → Session
set_port port s = record s { port = port % 2 ^ 16 }

abbrev pub set_transparent : Bool → Session → Session
set_transparent transparent s = record s { transparent = transparent }

abbrev pub set_client_address : Bytes → Session → Session
set_client_address ip s = record s { client_ip = ip }

abbrev pub set_user_name : Bytes → Session → Session
set_user_name name s = record s { user_name = name }

abbrev pub count_rx : ℕ → Session → Session
count_rx n s = record s { client_rx_bytes = add_u64 s.client_rx_bytes n }

abbrev pub count_tx : ℕ → Session → Session
count_tx n s = record s { client_tx_bytes = add_u64 s.client_tx_bytes n }

pub record SessionManager : Type 0 where
  pub next_id : ℕ
  pub session_list : List Session

abbrev pub new_session_manager : SessionManager
new_session_manager = record { next_id = 0; session_list = [] }

unfoldable pub find_client : List Session → ℕ → Option Session
find_client [] fd = none
find_client (s ∷ ss) fd = if s.client_fd == fd then some s else find_client ss fd

abbrev pub get_session_for_client : SessionManager → ℕ → Option Session
get_session_for_client m fd = find_client m.session_list fd

unfoldable pub find_id : List Session → ℕ → Option Session
find_id [] id = none
find_id (s ∷ ss) id = if s.session_id == id then some s else find_id ss id

abbrev pub get_session : SessionManager → ℕ → Option Session
get_session m id = find_id m.session_list id

-- `CreateSession`: the session that the returned pointer is to.
unfoldable pub create_session : Garbage → ℕ → SessionManager → ℕ → SessionManager × Option Session
unfolding find_client
create_session g now m fd =
    let m' : SessionManager = record {
      next_id = suc m.next_id;
      session_list = m.session_list ++ new_session g now fd m.next_id ∷ [];
    } in
    (m', get_session_for_client m' fd)

-- A change through a pointer that `GetSession` returned.
unfoldable pub change_id : (Session → Session) → List Session → ℕ → List Session
change_id f [] id = []
change_id f (s ∷ ss) id = if s.session_id == id then f s ∷ ss else s ∷ change_id f ss id

abbrev pub change_session : (Session → Session) → SessionManager → ℕ → SessionManager
change_session f m id = record m { session_list = change_id f m.session_list id }

-- The statistics that `EndSession` records for the session it removes.
unfoldable pub record_session : AuthManager → ℕ → Session → List UserStats → List UserStats
record_session auth now s stats =
    if str_eq s.host_url []
    then stats
    else if auth.enabled && is_audit_enabled auth s.user_name
    then with_stats
        (λ t. increment_connections (
          add_tx_bytes s.client_tx_bytes
            (add_rx_bytes s.client_rx_bytes (add_connection_time (sub_u64 now s.timestamp) t))))
        stats s.user_name s.host_url
    else stats

unfoldable pub end_id :
    AuthManager → ℕ → List Session → ℕ → List UserStats → List Session × List UserStats
unfolding record_session
end_id auth now [] id stats = ([], stats)
end_id auth now (s ∷ ss) id stats =
    let (rest, stats') = end_id auth now ss id stats in
    if s.session_id == id then (ss, record_session auth now s stats) else (s ∷ rest, stats')

-- `EndSession`
unfoldable pub end_session :
    AuthManager → ℕ → SessionManager → ℕ → GlobalStats → SessionManager × GlobalStats
unfolding end_id
end_session auth now m id g =
    let (ss, stats) = end_id auth now m.session_list id g.user_stats in
    (record m { session_list = ss }, record g { user_stats = stats })
