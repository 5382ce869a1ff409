-- ===== src/Tests/SessionTests.antt =====
-- Session.cpp with one session.
use nermalproxy.Prelude.{◌≡◌, refl, true, [], ◌∷◌, some, arith}
use nermalproxy.Auth.{AuthManager, new_user, audit_of}
use nermalproxy.CText.{codes, str_eq}
use nermalproxy.Session.{
  Session, Garbage, new_session, SessionManager, find_id, find_client, create_session, end_session,
}
use nermalproxy.Session.Accounting.{stats_of-end_session}
use nermalproxy.Session.Ids.{IsFresh}
use nermalproxy.Stats.{new_global_stats, with_site, with_stats}
use nermalproxy.Stats.Records.{stats_of, site_of}

program : Unit {0}
unfolding str_eq find_id find_client create_session end_session new_user audit_of with_site
    with_stats stats_of site_of
program = tt

abbrev garbage : Garbage
garbage = record {
  proxy_fd = 1;
  transparent = true;
  client_rx_bytes = 99;
  client_tx_bytes = 98;
  port = 97;
}

abbrev one : Session
one = record (new_session garbage 40 7 0) {
  host_url = codes "a.com";
  user_name = codes "user2";
  client_rx_bytes = 10;
  client_tx_bytes = 20;
}

abbrev sessions : SessionManager
sessions = record { next_id = 1; session_list = one ∷ [] }

sessions-IsFresh : IsFresh sessions
sessions-IsFresh = omega arith

-- A new session on a descriptor that a session still has: the pointer is to the old one.
stale_test : (create_session garbage 50 sessions 7).1 ≡ some one
unfolding program
stale_test = refl

abbrev auth : AuthManager
auth = record { users = record (new_user (codes "user2") []) { audit = true } ∷ []; enabled = true }

stats_of-end_session_example :
    stats_of
      (end_session auth 90 sessions 0 (new_global_stats 0)).1.user_stats
      (codes "user2")
      (codes "a.com")
    ≡ record {
      host_name = codes "a.com";
      rx_bytes = 10;
      tx_bytes = 20;
      total_time = 50;
      connections = 1;
    }
unfolding program
stats_of-end_session_example =
    stats_of-end_session auth 90 0 sessions (new_global_stats 0) one (codes "user2") (codes "a.com")
      refl
