-- ===== src/Tests/GateTests.antt =====
-- The handlers of SocketManager.cpp with one user and one session.
use nermalproxy.Prelude.{◌≡◌, refl, true, false, [], ◌∷◌, some, arith, here, done}
use nermalproxy.Auth.{
  AuthManager, new_user, ip_login, has_ip, access_of, authenticate, password_login, read_word,
  split_colon,
}
use nermalproxy.Auth.Users.{is_registered}
use nermalproxy.Base64.{base64_decode, decode_loop, take_char, sextet_value}
use nermalproxy.Blacklist.{contains, is_host_allowed, is_allowed_in_list}
use nermalproxy.CText.{
  codes, str_eq, c_str, strstr, strip_prefix, scan_token, span_token, skip_space, strchr,
}
use nermalproxy.Policy.{get_domain, get_user_domain, check_domains, is_allowed, global_domain}
use nermalproxy.Session.{Session, Garbage, new_session, find_id, change_id, end_id, end_session}
use nermalproxy.Session.Ids.{IsFresh}
use nermalproxy.Stats.{new_global_stats}
use nermalproxy.TimeMap.{week_permitted, new_weekly_access}
use nermalproxy.Gate.{
  Proxy, Moment, dispatch_connect, granted, challenge, admit, admit_ip, admit_creds, check_schedule,
  read_creds, refuse, domain_count, is_permitted, connect_proxy, with_name, apply_verdict,
  on_detect_result, on_connect_result,
}
use nermalproxy.Gate.Endings.{IsSettled, on_detect_result_settles}
use nermalproxy.Gate.Filtered.{IsCleared, on_detect_result_connects}

program : Unit {0}
unfolding new_user ip_login has_ip access_of authenticate password_login read_word split_colon
    is_registered base64_decode decode_loop take_char sextet_value contains is_host_allowed
    is_allowed_in_list str_eq c_str strstr strip_prefix scan_token span_token skip_space strchr
    get_domain get_user_domain check_domains is_allowed find_id change_id end_id end_session
    week_permitted new_weekly_access admit admit_ip admit_creds check_schedule read_creds refuse
    domain_count is_permitted connect_proxy apply_verdict on_detect_result on_connect_result
program = tt

abbrev noon : Moment
noon = record { now = 500; local = some (record { wday = 3; hour = 12; min = 0 }) }

abbrev garbage : Garbage
garbage = record {
  proxy_fd = 0;
  transparent = false;
  client_rx_bytes = 0;
  client_tx_bytes = 0;
  port = 0;
}

abbrev waiting : Session
waiting = record (new_session garbage 40 7 0) {
  host_url = codes "a.com";
  request = codes "GET";
  client_ip = codes "10.0.0.2";
}

abbrev auth : AuthManager
auth = record {
  users = record (new_user (codes "u") (codes "p")) { ip_list = codes "10.0.0.2" ∷ [] } ∷ [];
  enabled = true;
}

abbrev proxy : Proxy
proxy = record {
  auth = auth;
  sessions = record { next_id = 1; session_list = waiting ∷ [] };
  stats = new_global_stats 0;
  policies = record { name = global_domain; domains = codes "ads" ∷ [] } ∷ [];
  blacklists = record { name = codes "ads"; blacklist = codes "ad.com" ∷ [] } ∷ [];
}

proxy-IsFresh : IsFresh proxy.sessions
proxy-IsFresh = omega arith

-- The client is known by its address.
ip_test :
    on_detect_result noon proxy 0 true
    ≡ done (with_name proxy 0 (codes "u"), dispatch_connect 0 ∷ [])
unfolding program
ip_test = refl

-- From another address it is asked for a password.
challenge_test : admit noon auth (codes "GET") (codes "10.0.0.3") ≡ done challenge
unfolding program
challenge_test = refl

-- `u:p` in Base64
creds_test :
    admit noon auth (codes "GET Proxy-Authorization: Basic dTpw\r\n") (codes "10.0.0.3")
    ≡ done (granted (codes "u"))
unfolding program
creds_test = refl

on_detect_result_connects_example :
    (s : Session) × IsCleared noon proxy (with_name proxy 0 (codes "u")) 0 s
unfolding program
on_detect_result_connects_example =
    on_detect_result_connects noon proxy (with_name proxy 0 (codes "u")) 0 true
      (dispatch_connect 0 ∷ []) refl refl refl (here refl)

on_detect_result_settles_example :
    IsSettled (with_name proxy 0 (codes "u")) 0 waiting (dispatch_connect 0 ∷ [])
unfolding program
on_detect_result_settles_example =
    on_detect_result_settles noon proxy (with_name proxy 0 (codes "u")) 0 true waiting
      (dispatch_connect 0 ∷ []) proxy-IsFresh refl refl
