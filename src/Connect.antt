-- ===== src/Connect.antt =====
-- ProxyConnector.cpp: `asyncConnector`, which connects a session to its host.
pub mod Attempts
pub mod Tried
pub mod Results
pub mod Tunnel
pub mod Overtaken
use nermalproxy.Prelude.{
  ℕ, zero, suc, Bool, true, false, not, ◌&&◌, List, [], ◌∷◌, ◌++◌, Option, none, some, ◌==◌,
  if◌then◌else◌, length, Outcome, done, fault, null_dereference, buffer_overflow, use_after_free,
  ◌>>=◌,
}
use nermalproxy.CText.{Bytes, codes, str_eq, c_str, strstr}
use nermalproxy.HostCache.{
  HostInfo, AddrInfo, Resolution, get_addresses_for_host, clear_cache_for_host,
}
use nermalproxy.Messenger.{Message, connect_result, minus_one}
use nermalproxy.Session.{Session, SessionManager, get_session}

-- What the system answers: the readings of the clock, `getaddrinfo`, and `::socket` without its
-- -1; whether `inet_pton` converts a text, as IPv4 or not; and whether the `::connect` of a round
-- of the loop succeeds.
pub record Network : Type 0 where
  pub clock : ℕ → ℕ
  pub now : ℕ
  pub answer : Option (List AddrInfo)
  pub socket : Option ℕ
  pub converts : Bool → Bytes → Bool
  pub connects : ℕ → Bool

-- What the worker does to the outside, in this order.
pub data Action : Type 0 where
  -- `::connect` to an IPv4 address and a port
  attempt : Bytes → ℕ → Action
  -- a text written to a descriptor
  send : ℕ → Bytes → Action
  -- SO_KEEPALIVE set
  keep_alive : ℕ → Action
  -- SO_RCVTIMEO and SO_SNDTIMEO set
  set_timeouts : ℕ → Action
  -- a message written to the messenger
  post : Message → Action

-- `sendResponse`
abbrev pub send_response : ℕ → ℕ → Bool → List Action
send_response fd id success = post (connect_result id fd success) ∷ []

-- `sendErrorResponse`
abbrev pub send_error_response : ℕ → List Action
send_error_response id = send_response minus_one id false

abbrev pub filtered_url : Bytes
filtered_url = codes "0.0.0.0"

-- An address that the loop passes over.
unfoldable pub is_skipped : Network → HostInfo → Bool
is_skipped net h =
    if str_eq h.url filtered_url then true else not (net.converts (h.ip_version == 4) h.address)

abbrev pub add_attempt : HostInfo → ℕ → Outcome (Bool × List Action) → Outcome (Bool × List Action)
add_attempt h port later =
    later >>= λ (r : Bool × List Action). done (r.0, attempt h.address port ∷ r.1)

-- The loop over the addresses: whether one is connected, and the attempts. An address that is not
-- IPv4 is converted into an object that has the size of an IPv4 address.
unfoldable pub try_addresses : Network → ℕ → ℕ → List HostInfo → Outcome (Bool × List Action)
try_addresses net port round [] = done (false, [])
try_addresses net port round (h ∷ hs) =
    let later = try_addresses net port (suc round) hs in
    if is_skipped net h
    then later
    else if not (h.ip_version == 4)
    then fault buffer_overflow
    else if net.connects round
    then done (true, attempt h.address port ∷ [])
    else add_attempt h port later

abbrev pub success_text : Bytes
success_text = codes "HTTP/1.0 200 OK\r\n\r\n"

-- `strstr` finds nothing.
unfoldable pub lacks_header : Bytes → Bytes → Bool
lacks_header request header = elim (strstr (c_str request) header) [ none ↦ true | some _ ↦ false ]

-- The answer to the client, or the request sent again to the host.
unfoldable pub greet : Session → ℕ → Action
greet s fd = if s.transparent then send fd s.request else send s.client_fd success_text

unfoldable pub keep_alives : Session → ℕ → List Action
keep_alives s fd =
    (if lacks_header s.request (codes "Connection: keep-alive") then keep_alive fd ∷ [] else [])
    ++ (if lacks_header s.request (codes "Proxy-Connection: keep-alive")
        then keep_alive s.client_fd ∷ []
        else [])

-- What follows a connection.
unfoldable pub on_connected : Session → ℕ → ℕ → List Action
on_connected s id fd = greet s fd ∷ keep_alives s fd ++ set_timeouts fd ∷ send_response fd id true

-- What follows the loop. Behind the message of a failure, the session is read again for its host:
-- the sessions are those of that time, and one that is no longer there was deleted.
unfoldable pub after_attempts :
    SessionManager
    → Session
    → ℕ
    → ℕ
    → List HostInfo
    → Bool × List Action
    → Outcome (List HostInfo × List Action)
after_attempts later s id fd cache (connected, attempts) = elim connected [
  | true ↦ done (cache, attempts ++ on_connected s id fd)
  | false ↦ elim (get_session later id) [
    | none ↦ fault use_after_free
    | some s' ↦ clear_cache_for_host s'.host_url cache >>= λ cleared.
        done (cleared, attempts ++ send_error_response id)
  ]
]

-- The part behind the look-up of the host.
unfoldable pub connect_session :
    Network → SessionManager → Session → ℕ → Resolution → Outcome (List HostInfo × List Action)
connect_session net later s id r =
    if length r.addresses == 0 then done (r.cache, send_error_response id) else elim net.socket [
      | none ↦ done (r.cache, send_error_response id)
      | some fd ↦ try_addresses net s.port 0 r.addresses >>= after_attempts later s id fd r.cache
    ]

-- `asyncConnector`: the cache of addresses afterwards, and what was done. The other threads may
-- change the sessions meanwhile: the first are those when the worker begins, and `later` those
-- when it has sent its message.
unfoldable pub async_connector :
    Network
    → SessionManager
    → SessionManager
    → List HostInfo
    → ℕ
    → Outcome (List HostInfo × List Action)
async_connector net later m cache id = elim (get_session m id) [
  | none ↦ fault null_dereference
  | some s ↦
      get_addresses_for_host net.clock net.now net.answer cache s.host_url false
      >>= connect_session net later s id
]
