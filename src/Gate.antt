-- ===== src/Gate.antt =====
-- SocketManager.cpp: what `HandleCommandSocketRead` does with the messages of the workers; and
-- `ConnectProxy` of ProxyConnector.cpp, which it calls.
pub mod Admission
pub mod Filtered
pub mod Endings
pub mod Others
use nermalproxy.Prelude.{
  ℕ, suc, ◌+◌, Bool, true, false, not, List, [], ◌∷◌, Option, none, some, ltb, if◌then◌else◌,
  length, Outcome, done, fault, buffer_overflow, null_dereference, ◌>>=◌,
}
use nermalproxy.Auth.{AuthManager, LocalTime, authenticate, authenticate_ip, access_allowed}
use nermalproxy.Blacklist.{BlacklistList}
use nermalproxy.CText.{Bytes, codes, c_str, strstr, scan_token}
use nermalproxy.Policy.{UserPolicy, UserPolicyList, is_allowed}
use nermalproxy.Session.{
  Session, SessionManager, get_session, change_session, set_user_name, end_session,
}
use nermalproxy.Stats.{GlobalStats}

-- The singletons that the handler works on.
pub record Proxy : Type 0 where
  pub auth : AuthManager
  pub sessions : SessionManager
  pub stats : GlobalStats
  pub policies : UserPolicyList
  pub blacklists : BlacklistList

-- The two clocks at the time of a call.
pub record Moment : Type 0 where
  pub now : ℕ
  pub local : Option LocalTime

-- What the handler does to the outside, in this order.
pub data Effect : Type 0 where
  -- a text written to a descriptor
  reply : ℕ → Bytes → Effect
  -- a descriptor closed
  close : ℕ → Effect
  -- a session given to a worker that connects it
  dispatch_connect : ℕ → Effect
  -- the message that connecting a session failed
  post_failure : ℕ → Effect
  -- a pair of sockets added: client, server, session
  add_sockets : ℕ → ℕ → ℕ → Effect

abbrev pub bad_request : Bytes
bad_request = codes "HTTP/1.0 400 Client Error\nConnection: close\r\n\r\n"

abbrev pub forbidden_text : Bytes
forbidden_text = codes "HTTP/1.0 403 Forbidden\nConnection: close\r\n\r\n"

abbrev pub not_found : Bytes
not_found = codes "HTTP/1.0 404 Not Found\nConnection: close\r\n\r\n"

abbrev pub challenge_text : Bytes
challenge_text =
    codes
      "HTTP/1.0 407 Proxy Authentication Required\r\nServer: nermal\r\nContent-Type: text/html\r\nProxy-Authenticate: Basic realm=\"Nermal\"\r\nConnection: close\r\n\r\n"

-- What the checks come to. The name is the one that the session has been given by then.
pub data Verdict : Type 0 where
  granted : Bytes → Verdict
  forbidden : Option Bytes → Verdict
  challenge : Verdict

abbrev pub auth_header : Bytes
auth_header = codes "Proxy-Authorization: Basic "

-- The size of `rawCreds`.
abbrev pub creds_capacity : ℕ
creds_capacity = 1024

-- The credentials behind the header: `%1024s` reads at most 1024 bytes into an array of 1024, and
-- ends them with a zero.
unfoldable pub read_creds : Bytes → Outcome (Option Bytes)
read_creds text = elim (scan_token text) [
  | none ↦ done none
  | some (token, rest) ↦
      if ltb (length token) creds_capacity then done (some token) else fault buffer_overflow
]

-- The check on the schedule of a user; a refused session keeps the name that it was given.
unfoldable pub check_schedule : Moment → AuthManager → Bytes → Option Bytes → Outcome Verdict
check_schedule t auth name kept = do
  allowed ← access_allowed auth name t.local
  done (if allowed then granted name else forbidden kept)

-- The checks on credentials.
unfoldable pub admit_creds : Moment → AuthManager → Bytes → Outcome Verdict
admit_creds t auth creds = do
  (can_connect, name) ← authenticate auth creds []
  elim can_connect [ false ↦ done (forbidden none) | true ↦ check_schedule t auth name (some name) ]

-- The checks on the address of a client that sends no credentials.
unfoldable pub admit_ip : Moment → AuthManager → Bytes → Outcome Verdict
admit_ip t auth ip =
    let (known, name) = authenticate_ip auth ip [] in
    elim known [ false ↦ done challenge | true ↦ check_schedule t auth name none ]

-- The checks that are made if authentication is enabled, on the request and the address.
unfoldable pub admit : Moment → AuthManager → Bytes → Bytes → Outcome Verdict
admit t auth request ip = elim (strstr (c_str request) auth_header) [
  | none ↦ admit_ip t auth ip
  | some text ↦ read_creds text >>= λ creds. elim creds [
    | none ↦ done (forbidden none)
    | some c ↦ admit_creds t auth c
  ]
]

-- A refusal: the answer is written, the client closed, and the session ended.
unfoldable pub refuse : Moment → Proxy → Session → ℕ → Bytes → Proxy × List Effect
refuse t p s id text =
    let (sessions, stats) = end_session p.auth t.now p.sessions id p.stats in
    (
      record p { sessions = sessions; stats = stats },
      reply s.client_fd text ∷ close s.client_fd ∷ [],
    )

-- More than any policy has domains.
unfoldable pub domain_count : UserPolicyList → ℕ
domain_count [] = 1
domain_count (p ∷ ps) = length p.domains + domain_count ps

-- `isAllowed`, with enough fuel.
unfoldable pub is_permitted : Proxy → Session → Bool
is_permitted p s =
    elim (is_allowed (domain_count p.policies) p.policies p.blacklists s.user_name s.host_url) [
      | none ↦ false
      | some allowed ↦ allowed
    ]

-- `ConnectProxy`
unfoldable pub connect_proxy : Proxy → ℕ → Outcome (List Effect)
connect_proxy p id = elim (get_session p.sessions id) [
  | none ↦ fault null_dereference
  | some s ↦
      done (if not (is_permitted p s) then post_failure id ∷ [] else dispatch_connect id ∷ [])
]

abbrev pub with_name : Proxy → ℕ → Bytes → Proxy
with_name p id name = record p { sessions = change_session (set_user_name name) p.sessions id }

-- The rest of the handler, after the checks.
unfoldable pub apply_verdict :
    Moment → Proxy → Session → ℕ → Verdict → Outcome (Proxy × List Effect)
apply_verdict t p s id (granted name) =
    let p' = with_name p id name in connect_proxy p' id >>= λ effects. done (p', effects)
apply_verdict t p s id (forbidden none) = done (refuse t p s id forbidden_text)
apply_verdict t p s id (forbidden (some name)) =
    done (refuse t (with_name p id name) s id forbidden_text)
apply_verdict t p s id challenge = done (refuse t p s id challenge_text)

-- The handler for `HOST_DETECT_RESULT`.
unfoldable pub on_detect_result : Moment → Proxy → ℕ → Bool → Outcome (Proxy × List Effect)
on_detect_result t p id success = elim (get_session p.sessions id) [
  | none ↦ fault null_dereference
  | some s ↦ elim success [
    | false ↦ done (refuse t p s id bad_request)
    | true ↦ elim p.auth.enabled [
      | true ↦ admit t p.auth s.request s.client_ip >>= apply_verdict t p s id
      | false ↦ connect_proxy p id >>= λ effects. done (p, effects)
    ]
  ]
]

-- The handler for `HOST_CONNECT_RESULT`.
unfoldable pub on_connect_result : Moment → Proxy → ℕ → ℕ → Bool → Outcome (Proxy × List Effect)
on_connect_result t p id proxy_fd success = elim (get_session p.sessions id) [
  | none ↦ fault null_dereference
  | some s ↦ done (
      if not success
      then refuse t p s id not_found
      else (p, add_sockets s.client_fd proxy_fd id ∷ []))
]
