-- ===== src/Tests/ConnectTests.antt =====
-- `asyncConnector`, and a session from the request of its client to its sockets.
use nermalproxy.Prelude.{
  ℕ, zero, suc, ◌≡◌, refl, Bool, true, false, List, [], ◌∷◌, ◌++◌, some, none, arith, inr, done,
  fault, past_the_end, use_after_free,
}
use nermalproxy.Auth.{new_auth_manager}
use nermalproxy.CText.{Bytes, codes, str_eq, c_str, strip_prefix, strstr, strchr, skip_space}
use nermalproxy.Detection.{async_detector, store_request}
use nermalproxy.Detection.Words.{FitsWord}
use nermalproxy.Detection.Requests.{IsRequest, connect_text}
use nermalproxy.Gate.{
  Proxy, Moment, domain_count, is_permitted, on_detect_result, on_connect_result, dispatch_connect,
  add_sockets, refuse, not_found, reply, close,
}
use nermalproxy.HostCache.{
  HostInfo, Resolution, clear_cache_for_host, first_inet, use_answer, add_result, is_expired,
  get_cached_results, get_addresses_for_host,
}
use nermalproxy.Messenger.{connect_result, minus_one}
use nermalproxy.Policy.{get_user_domain, check_domains, is_allowed}
use nermalproxy.Session.{Session, Garbage, new_session, find_id, change_id}
use nermalproxy.Setup.{digits_value}
use nermalproxy.Stats.{new_global_stats}
use nermalproxy.Connect.{
  Network, Action, attempt, send, keep_alive, set_timeouts, post, is_skipped, try_addresses,
  lacks_header, greet, keep_alives, on_connected, after_attempts, connect_session, async_connector,
  success_text,
}
use nermalproxy.Connect.Attempts.{TryCases, attempts_to, try_addresses_cases}
use nermalproxy.Connect.Results.{Reports, async_connector-Reports, async_connector_unreachable}
use nermalproxy.Connect.Overtaken.{async_connector_overtaken}
use nermalproxy.Session.Ids.{IsFresh}
use nermalproxy.Connect.Tunnel.{IsReachable, detected, connect_to, connect-tunnel}

program : Unit {0}
unfolding str_eq c_str strip_prefix strstr strchr skip_space domain_count is_permitted first_inet
    use_answer add_result is_expired get_cached_results get_addresses_for_host get_user_domain
    check_domains is_allowed find_id change_id digits_value is_skipped try_addresses lacks_header
    greet keep_alives on_connected after_attempts connect_session async_connector attempts_to
    store_request
program = tt

abbrev garbage : Garbage
garbage = record {
  proxy_fd = 0;
  transparent = false;
  client_rx_bytes = 0;
  client_tx_bytes = 0;
  port = 0;
}

abbrev session : Session
session = new_session garbage 40 7 0

abbrev proxy : Proxy
proxy = record {
  auth = new_auth_manager;
  sessions = record { next_id = 1; session_list = session ∷ [] };
  stats = new_global_stats 0;
  policies = [];
  blacklists = [];
}

abbrev noon : Moment
noon = record { now = 500; local = none }

abbrev entry : Bytes → HostInfo
entry address = record { url = codes "a.com"; address = address; ip_version = 4; timestamp = 100 }

-- The first connection fails, and the next ones succeed.
abbrev second_accepts : ℕ → Bool
second_accepts zero = false
second_accepts (suc round) = true

abbrev network : Network
network = record {
  clock = λ round. 100;
  now = 100;
  answer = some (record { is_inet = true; address = codes "10.1.1.1" } ∷ []);
  socket = some 9;
  converts = λ inet text. true;
  connects = second_accepts;
}

-- Two addresses of the host.
abbrev cache : List HostInfo
cache = entry (codes "10.1.1.1") ∷ entry (codes "10.1.1.2") ∷ []

abbrev connected : Proxy
connected = detected proxy 0 (connect_to (codes "a.com") (codes "443") (codes "HTTP/1.1"))

abbrev connected_session : Session
connected_session = record session {
  host_url = codes "a.com";
  port = 443;
  request = codes "CONNECT a.com:443 HTTP/1.1";
  transparent = false;
}

try_addresses_cases_example : TryCases network 443 0 cache
try_addresses_cases_example = try_addresses_cases network 443 0 cache (omega arith)

abbrev done_actions : List Action
done_actions =
    attempt (codes "10.1.1.1") 443
    ∷ attempt (codes "10.1.1.2") 443
    ∷ send 7 success_text
    ∷ keep_alive 9
    ∷ keep_alive 7
    ∷ set_timeouts 9
    ∷ post (connect_result 0 9 true)
    ∷ []

connector_test :
    async_connector network connected.sessions connected.sessions cache 0
    ≡ done (cache, done_actions)
unfolding program
connector_test = refl

async_connector-Reports_example :
    (r : Resolution) × (get_addresses_for_host network.clock network.now network.answer cache
        (codes "a.com")
        false
      ≡ done r)
    × Reports network connected_session 0 r.addresses done_actions
unfolding program
async_connector-Reports_example =
    async_connector-Reports network connected.sessions connected.sessions connected_session 0 cache
      cache done_actions refl refl

reachable : IsReachable network cache
unfolding is_skipped str_eq
reachable = record {
  front = entry (codes "10.1.1.1") ∷ [];
  chosen = entry (codes "10.1.1.2");
  back = [];
  parts = refl;
  inet = (refl, tt);
  failed = (inr refl, tt);
  chosen_inet = refl;
  kept = refl;
  accepted = refl;
}

connect_fits : FitsWord (codes "a.com:443")
connect_fits = record { word = ground arith; nonempty = λ e. cc; short = omega arith }

connect_whole : IsRequest (connect_text (codes "a.com") (codes "443") (codes "HTTP/1.1"))
connect_whole = record { nonzero = omega arith; nonempty = λ e. cc; short = omega arith }

connect-tunnel_example :
    (async_detector proxy.sessions 0 (codes "CONNECT a.com:443 HTTP/1.1")
      ≡ done (connected.sessions, true))
    × (on_detect_result noon connected 0 true ≡ done (connected, dispatch_connect 0 ∷ []))
    × (async_connector network connected.sessions connected.sessions cache 0
        ≡ done (cache, done_actions))
    × (on_connect_result noon connected 0 9 true ≡ done (connected, add_sockets 7 9 0 ∷ []))
unfolding program reachable
connect-tunnel_example =
    connect-tunnel proxy 0 session (codes "a.com") (codes "HTTP/1.1") b'4' (codes "43") refl
      (omega arith) (ground arith) (omega arith) connect_fits connect_whole noon network
      connected.sessions cache (record { cache = cache; addresses = cache; cached = true }) 9 refl
      refl refl reachable refl

-- No address accepts.
abbrev refusing : Network
refusing = record network { connects = λ round. false }

connected-IsFresh : IsFresh connected.sessions
unfolding program
connected-IsFresh = record { growing = (omega arith, tt); below = (omega arith, tt) }

abbrev after_failure : Proxy
after_failure = (refuse noon connected connected_session 0 not_found).0

async_connector_overtaken_example :
    (clear_cache_for_host (codes "a.com") cache ≡ done []
      → async_connector refusing connected.sessions connected.sessions cache 0
        ≡ done ([], attempts_to refusing 443 cache ++ post (connect_result 0 minus_one false) ∷ []))
    × (async_connector refusing after_failure.sessions connected.sessions cache 0
        ≡ fault use_after_free)
unfolding program on_connect_result refuse
async_connector_overtaken_example =
    async_connector_overtaken refusing noon connected after_failure connected_session 0 9 cache []
      (record { cache = cache; addresses = cache; cached = true })
      (reply 7 not_found ∷ close 7 ∷ []) connected-IsFresh refl refl (refl, (refl, tt))
      (omega arith) refl (inr refl, (inr refl, tt)) refl

async_connector_unreachable_example :
    async_connector refusing connected.sessions connected.sessions [] 0 ≡ fault past_the_end
unfolding program
async_connector_unreachable_example =
    async_connector_unreachable refusing connected.sessions connected_session 0 9 []
      (record { is_inet = true; address = codes "10.1.1.1" } ∷ []) (codes "10.1.1.1") refl refl refl
      (omega arith) tt tt refl (inr refl, tt)
