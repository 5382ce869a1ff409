-- ===== src/Tests/SecureTests.antt =====
-- A run from the start of the proxy to the two sockets of a session, with authentication.
use nermalproxy.Prelude.{ℕ, ◌≡◌, refl, true, false, List, [], ◌∷◌, some, none, get_elem?}
use nermalproxy.Auth.{AuthManager, new_user, ip_login, has_ip, access_of}
use nermalproxy.Auth.Users.{is_registered}
use nermalproxy.Blacklist.{contains, is_host_allowed, is_allowed_in_list}
use nermalproxy.CText.{
  Bytes, codes, str_eq, c_str, strstr, strip_prefix, scan_token, span_token, skip_space, strchr,
}
use nermalproxy.Connect.{
  Network, Action, attempt, send, keep_alive, set_timeouts, post, success_text, is_skipped,
  try_addresses, lacks_header, greet, keep_alives, on_connected, after_attempts, connect_session,
  async_connector,
}
use nermalproxy.Detection.{
  scan_word, mode_and_url, is_transparent, scan_port, connect_request, parse_request, detect,
  store_request, async_detector,
}
use nermalproxy.Gate.{
  Proxy, Moment, admit, admit_ip, check_schedule, domain_count, is_permitted, connect_proxy,
  apply_verdict, on_detect_result, on_connect_result,
}
use nermalproxy.HostCache.{
  HostInfo, first_inet, use_answer, add_result, is_expired, get_cached_results,
  get_addresses_for_host,
}
use nermalproxy.Messenger.{detect_result, connect_result}
use nermalproxy.Policy.{get_domain, get_user_domain, check_domains, is_allowed, global_domain}
use nermalproxy.Pool.{
  detector, connector, new_thread_pool, dispatch, wake, take_package, remove_at, end_job,
}
use nermalproxy.Relay.{ClientSocket}
use nermalproxy.Server
use nermalproxy.Server.{ServerSocket, OpenAnswers, get_fd, accept}
use nermalproxy.Session.{
  Session, Garbage, SessionManager, new_session, new_session_manager, find_id, find_client,
  change_id, create_session, set_client_address, set_user_name,
}
use nermalproxy.Setup.{digits_value}
use nermalproxy.Stats.{new_global_stats}
use nermalproxy.TimeMap.{week_permitted, new_weekly_access}
use nermalproxy.Loop.{
  server, client, command, Loop, initialize, add_socket, Inputs, change_client, on_server_socket,
  client_side, proxy_side, run_effect, run_effects, on_message,
}
use nermalproxy.Loop.Dispatching.{
  handle_message, on_command_socket, has_fd, find_socket, process_event,
}
use nermalproxy.System.{System, posted, event, wakes, starts, detects, connects}
use nermalproxy.System.Starting.{new_loop, start_proxy}
use nermalproxy.System.Runs.{Run, start, next, AllNew}
use nermalproxy.System.Guard.{HasAllowed, SameRules}
use nermalproxy.System.Access.{HappensIn, Run-allowed}

program : Unit {0}
unfolding new_user ip_login has_ip access_of is_registered contains is_host_allowed
    is_allowed_in_list str_eq c_str strstr strip_prefix scan_token span_token skip_space strchr
    is_skipped try_addresses lacks_header greet keep_alives on_connected after_attempts
    connect_session async_connector scan_word mode_and_url is_transparent scan_port connect_request
    parse_request detect store_request async_detector admit admit_ip check_schedule domain_count
    is_permitted connect_proxy apply_verdict on_detect_result on_connect_result first_inet
    use_answer add_result is_expired get_cached_results get_addresses_for_host get_domain
    get_user_domain check_domains is_allowed dispatch wake take_package remove_at end_job
    Server.initialize get_fd accept find_id find_client change_id create_session digits_value
    week_permitted new_weekly_access initialize add_socket change_client on_server_socket run_effect
    run_effects on_message handle_message on_command_socket has_fd find_socket process_event posted
    start_proxy
program = tt

abbrev noon : Moment
noon = record { now = 500; local = some (record { wday = 3; hour = 12; min = 0 }) }

abbrev garbage : Garbage
garbage = record {
  proxy_fd = 0;
  transparent = false;
  client_rx_bytes = 0;
  client_tx_bytes = 0;
  port = 0;
}

abbrev auth : AuthManager
auth = record {
  users = record (new_user (codes "u") (codes "p")) { ip_list = codes "10.0.0.2" ∷ [] } ∷ [];
  enabled = true;
}

abbrev proxy : SessionManager → Proxy
proxy sessions = record {
  auth = auth;
  sessions = sessions;
  stats = new_global_stats 0;
  policies = record { name = global_domain; domains = codes "ads" ∷ [] } ∷ [];
  blacklists = record { name = codes "ads"; blacklist = codes "ad.com" ∷ [] } ∷ [];
}

abbrev opens : OpenAnswers
opens = record { socket = some 3; sets_option = true; binds = true; listens = true }

abbrev listening : ServerSocket
listening = record { is_active = true; socket_fd = some 3 }

abbrev started : Loop
started = record (new_loop 5 (proxy new_session_manager)) {
  is_active = true;
  epoll_fd = some 4;
  sockets = server listening ∷ command ∷ [];
}

abbrev inputs : Inputs
inputs = record {
  moment = noon;
  garbage = garbage;
  accepted = some (7, codes "10.0.0.2");
  reads = [];
  writes = [];
  takes_client = true;
  takes_proxy = true;
}

-- An event without a new client.
abbrev no_client : Inputs
no_client = record inputs { accepted = none }

abbrev one_session : Session → SessionManager
one_session s = record { next_id = 1; session_list = s ∷ [] }

abbrev session : Session
session = set_client_address (codes "10.0.0.2") (new_session garbage 500 7 0)

abbrev request : Bytes
request = codes "CONNECT a.com:443 HTTP/1.1"

abbrev detected_session : Session
detected_session = record session {
  host_url = codes "a.com";
  port = 443;
  request = request;
  transparent = false;
}

abbrev named_session : Session
named_session = set_user_name (codes "u") detected_session

abbrev entry : HostInfo
entry = record { url = codes "a.com"; address = codes "10.1.1.1"; ip_version = 4; timestamp = 100 }

abbrev network : Network
network = record {
  clock = λ round. 100;
  now = 100;
  answer = some (record { is_inet = true; address = codes "10.1.1.1" } ∷ []);
  socket = some 9;
  converts = λ inet text. true;
  connects = λ round. true;
}

abbrev loop_of : SessionManager → Loop
loop_of sessions = record started { proxy = proxy sessions }

abbrev system : Loop → System
system l = record { loop = l; cache = [] }

abbrev accepted : Loop
accepted = record (loop_of (one_session session)) {
  pool = record new_thread_pool { semaphore = 1; work = detector 0 ∷ [] };
}

abbrev detected : Loop
detected = record (loop_of (one_session detected_session)) { messages = detect_result 0 true ∷ [] }

abbrev granted : Loop
granted = record (loop_of (one_session named_session)) {
  pool = record new_thread_pool { semaphore = 1; work = connector 0 ∷ [] };
}

abbrev connecting : Loop
connecting = record (loop_of (one_session named_session)) {
  pool = record new_thread_pool { waiting = 19; running = connector 0 ∷ [] };
}

abbrev connected : Loop
connected = record (loop_of (one_session named_session)) { messages = connect_result 0 9 true ∷ [] }

abbrev tunnel : System
tunnel = record {
  loop = record (loop_of (one_session named_session)) {
    sockets =
        server listening ∷ command ∷ client (client_side 7 9 0) ∷ client (proxy_side 7 9 0) ∷ [];
  };
  cache = entry ∷ [];
}

detected-Run : Run (system started) (system detected)
unfolding program
detected-Run =
    next
      (next
        (next (next start (event {l = accepted} inputs 3 true refl)) (
          wakes {pool = record new_thread_pool { work = detector 0 ∷ []; waiting = 19; woken = 1 }}
            refl))
        (starts {pool = record new_thread_pool { waiting = 19; running = detector 0 ∷ [] }}
          (detector 0) refl))
      (detects {pool = new_thread_pool} {m = one_session detected_session} 0 0 request true refl
        refl refl)

connecting-Run : Run (system started) (system connecting)
unfolding program
connecting-Run =
    next
      (next (next detected-Run (event {l = granted} no_client 5 true refl)) (
        wakes {pool = record new_thread_pool { work = connector 0 ∷ []; waiting = 19; woken = 1 }}
          refl))
      (starts {pool = record new_thread_pool { waiting = 19; running = connector 0 ∷ [] }}
        (connector 0) refl)

abbrev actions : List Action
actions =
    attempt (codes "10.1.1.1") 443
    ∷ send 7 success_text
    ∷ keep_alive 9
    ∷ keep_alive 7
    ∷ set_timeouts 9
    ∷ post (connect_result 0 9 true)
    ∷ []

tunnel-Run : Run (system started) tunnel
unfolding program
tunnel-Run =
    next
      (next connecting-Run (
        connects {pool = new_thread_pool} {cache = entry ∷ []} 0 0 network
          (one_session detected_session) actions refl refl refl))
      (event {l = tunnel.loop} no_client 5 true refl)

tunnel-AllNew : AllNew tunnel-Run
unfolding detected-Run connecting-Run tunnel-Run find_client
tunnel-AllNew = (
  ((((((((tt, λ fd ip e. refl), tt), tt), tt), λ fd ip e. absurd cc), tt), tt), tt),
  λ fd ip e. absurd cc,
)

Run-allowed_example :
    SameRules (proxy new_session_manager) tunnel.loop.proxy
    × ((k id : ℕ)
        → get_elem? [] k ≡ some (connector id)
        → HasAllowed (HappensIn tunnel-Run) tunnel.loop.proxy id)
    × ((fd : ℕ) (c : ClientSocket)
        → find_socket 5 fd tunnel.loop.sockets ≡ some (client c)
        → HasAllowed (HappensIn tunnel-Run) tunnel.loop.proxy c.session_id)
unfolding program
Run-allowed_example =
    Run-allowed (some 4) opens true true 5 (proxy new_session_manager) (system started) tunnel
      tunnel-Run refl refl tunnel-AllNew refl refl
