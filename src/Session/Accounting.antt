-- ===== src/Session/Accounting.antt =====
-- What `EndSession` records, as a change of the statistics of users and hosts.
use nermalproxy.Prelude.{
  ℕ, ◌+◌, ◌-◌, ◌%◌, ◌^◌, ◌≡◌, refl, ap, ◌∙◌, Bool, not, ◌&&◌, List, [], ◌∷◌, some, arith,
  if◌then◌else◌,
}
use nermalproxy.Auth.{AuthManager, is_audit_enabled}
use nermalproxy.CText.{Bytes, str_eq}
use nermalproxy.Stats.{SiteStats, UserStats, GlobalStats}
use nermalproxy.Stats.Records.{stats_of, stats_of-with_stats}
use nermalproxy.Session.{
  Session, SessionManager, find_id, get_session, record_session, end_id, end_session,
}

-- A session counts if it got as far as a host, and both authentication and the audit of its user
-- are on.
abbrev pub counts : AuthManager → Session → Bool
counts auth s = not (str_eq s.host_url []) && (auth.enabled && is_audit_enabled auth s.user_name)

-- The record of a user and host with one more connection in it.
abbrev pub with_session : ℕ → Session → SiteStats → SiteStats
with_session now s t = record {
  host_name = t.host_name;
  rx_bytes = (t.rx_bytes + s.client_rx_bytes) % 2 ^ 64;
  tx_bytes = (t.tx_bytes + s.client_tx_bytes) % 2 ^ 64;
  total_time = (t.total_time + (now + 2 ^ 64 - s.timestamp) % 2 ^ 64) % 2 ^ 64;
  connections = t.connections + 1;
}

stats_of-record_session :
    (auth : AuthManager) (now : ℕ) (s : Session) (stats : List UserStats) (user host : Bytes)
    → stats_of (record_session auth now s stats) user host ≡ (
        if counts auth s && (str_eq s.user_name user && str_eq s.host_url host)
        then with_session now s (stats_of stats user host)
        else stats_of stats user host)
unfolding record_session
stats_of-record_session auth now s stats user host = ground (
  arith,
  stats_of-with_stats (with_session now s) (λ t. refl) stats s.user_name s.host_url user host,
)

end_id_stats :
    (auth : AuthManager) (now id : ℕ) (ss : List Session) (stats : List UserStats) (s : Session)
    → find_id ss id ≡ some s
    → (end_id auth now ss id stats).1 ≡ record_session auth now s stats
unfolding end_id find_id
end_id_stats auth now id [] stats s h = cc
end_id_stats auth now id (x ∷ ss) stats s h = ground (arith, end_id_stats auth now id ss stats s)

-- When a session ends that counts, one connection with its bytes and its time is added, modulo
-- 2^64, to the record of its user and host. No other record changes; and none does if it does
-- not count.
pub stats_of-end_session :
    (auth : AuthManager) (now id : ℕ) (m : SessionManager) (g : GlobalStats) (s : Session)
    (user host : Bytes)
    → get_session m id ≡ some s
    → stats_of (end_session auth now m id g).1.user_stats user host ≡ (
        if counts auth s && (str_eq s.user_name user && str_eq s.host_url host)
        then with_session now s (stats_of g.user_stats user host)
        else stats_of g.user_stats user host)
unfolding end_session
stats_of-end_session auth now id m g s user host h =
    ap (λ us. stats_of us user host) (end_id_stats auth now id m.session_list g.user_stats s h)
    ∙ stats_of-record_session auth now s g.user_stats user host
