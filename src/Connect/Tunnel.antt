-- ===== src/Connect/Tunnel.antt =====
-- From the first request of a client to the two sockets of its session.
use nermalproxy.Prelude.{
  ◌<◌, ℕ, length-append, ◌+◌, ◌%◌, ◌^◌, ◌≡◌, ◌≢◌, refl, ap, ◌∙◌, true, false, List, [], ◌∷◌, ◌++◌,
  some, arith, length, All, Outcome, done, ◌>>=◌, ◌==◌, Bool-cases, inl, inr,
}
use nermalproxy.CText.{Bytes}
use nermalproxy.Setup.{digits_value}
use nermalproxy.HostCache.{HostInfo, Resolution, get_addresses_for_host}
use nermalproxy.Messenger.{connect_result}
use nermalproxy.Session.{Session, SessionManager, get_session, change_session}
use nermalproxy.Session.Changes.{get_session-change_session}
use nermalproxy.Detection.{Request, store_request, async_detector}
use nermalproxy.Detection.Words.{FitsWord}
use nermalproxy.Detection.Requests.{AreDigits, IsRequest, connect_text, async_detector-connect}
use nermalproxy.Gate.{
  Effect, admit, apply_verdict, Proxy, Moment, is_permitted, connect_proxy, on_detect_result,
  on_connect_result, dispatch_connect, add_sockets,
}
use nermalproxy.Connect.{
  Network, send, set_timeouts, post, is_skipped, keep_alives, greet, on_connected, success_text,
  after_attempts, connect_session, try_addresses, async_connector,
}
use nermalproxy.Connect.Attempts.{IsInet, AllFail, attempts_to, connected-try_addresses}

-- The addresses of a host, with those that fail, and the first that is connected.
pub record IsReachable (net : Network) (hs : List HostInfo) : Type 0 where
  pub front : List HostInfo
  pub chosen : HostInfo
  pub back : List HostInfo
  pub parts : hs ≡ front ++ chosen ∷ back
  pub inet : All IsInet front
  pub failed : AllFail net 0 front
  pub chosen_inet : IsInet chosen
  pub kept : is_skipped net chosen ≡ false
  pub accepted : net.connects (length front) ≡ true

connect_session-reachable :
    (net : Network) (later : SessionManager) (s : Session) (id fd : ℕ) (r : Resolution)
    (h : IsReachable net r.addresses)
    → net.socket ≡ some fd
    → connect_session net later s id r
      ≡ done (r.cache, attempts_to net s.port (h.front ++ h.chosen ∷ []) ++ on_connected s id fd)
unfolding connect_session after_attempts attempts_to is_skipped
connect_session-reachable net later s id fd r h opened =
    let first : 0 + length h.front ≡ length h.front = omega arith in
    let loop : try_addresses net s.port 0 r.addresses
        ≡ done (true, attempts_to net s.port (h.front ++ h.chosen ∷ [])) =
      ap (try_addresses net s.port 0) h.parts
      ∙ connected-try_addresses net s.port 0 h.front h.back h.chosen h.inet h.failed h.chosen_inet
          h.kept (ap net.connects first ∙ h.accepted) in
    elim (Bool-cases (length r.addresses == 0)) [
      | inl empty ↦
          absurd (
            let same = ap length h.parts ∙ length-append h.front (h.chosen ∷ h.back) in
            ground arith)
      | inr full ↦ rw (full, connect_session, opened, loop, after_attempts) refl
    ]

handed_on :
    (t : Moment) (p : Proxy) (id : ℕ) (s : Session)
    → get_session p.sessions id ≡ some s
    → p.auth.enabled ≡ false
    → is_permitted p s ≡ true
    → on_detect_result t p id true ≡ done (p, dispatch_connect id ∷ [])
unfolding on_detect_result connect_proxy
handed_on t p id s found off allowed =
    let connects : connect_proxy p id ≡ done (dispatch_connect id ∷ []) =
      rw (found, connect_proxy, allowed) refl in
    rw (found, on_detect_result)
      (ap
          (λ enabled. elim enabled as (λ b. Outcome (Proxy × List Effect)) [
            | true ↦ admit t p.auth s.request s.client_ip >>= apply_verdict t p s id
            | false ↦ connect_proxy p id >>= λ effects. done (p, effects)
          ])
          off
        ∙ ap (λ o. o >>= λ effects. done (p, effects)) connects)

connector-reachable :
    (net : Network) (later : SessionManager) (m : SessionManager) (cache : List HostInfo)
    (s : Session) (id fd : ℕ) (r : Resolution) (h : IsReachable net r.addresses)
    → get_session m id ≡ some s
    → get_addresses_for_host net.clock net.now net.answer cache s.host_url false ≡ done r
    → net.socket ≡ some fd
    → async_connector net later m cache id
      ≡ done (r.cache, attempts_to net s.port (h.front ++ h.chosen ∷ []) ++ on_connected s id fd)
unfolding async_connector
connector-reachable net later m cache s id fd r h found resolved opened =
    rw (found, async_connector, resolved) (connect_session-reachable net later s id fd r h opened)

sockets_added :
    (t : Moment) (p : Proxy) (id fd : ℕ) (s : Session)
    → get_session p.sessions id ≡ some s
    → on_connect_result t p id fd true ≡ done (p, add_sockets s.client_fd fd id ∷ [])
unfolding on_connect_result
sockets_added t p id fd s found = rw (found, on_connect_result) refl

-- The request that the detector finds.
abbrev pub connect_to : Bytes → Bytes → Bytes → Request
connect_to host port rest = record {
  host = host;
  port = digits_value 0 port % 2 ^ 16;
  text = connect_text host port rest;
  transparent = false;
}

-- The proxy after the detector.
abbrev pub detected : Proxy → ℕ → Request → Proxy
detected p id request = record p { sessions = change_session (store_request request) p.sessions id }

module _ (p : Proxy) (id : ℕ) (s : Session) (host rest : Bytes) (d : ℕ) (ds : Bytes)
    (found : get_session p.sessions id ≡ some s) (plain : All (λ c. c ≢ b':') host)
    (digits : AreDigits (d ∷ ds)) (small : digits_value 0 (d ∷ ds) < 2 ^ 63)
    (fits : FitsWord (host ++ b':' ∷ d ∷ ds))
    (whole : IsRequest (connect_text host (d ∷ ds) rest)) where
  -- The session after the detector.
  abbrev pub detected_session : Session
  detected_session = store_request (connect_to host (d ∷ ds) rest) s

  detected_found :
      get_session (detected p id (connect_to host (d ∷ ds) rest)).sessions id
      ≡ some detected_session
  unfolding store_request
  detected_found =
      get_session-change_session (store_request (connect_to host (d ∷ ds) rest)) (λ x. refl)
        p.sessions id s found

  -- Let a client send the request `CONNECT host:port`, of fewer than 4096 bytes without a zero,
  -- whose target has fewer than 1024 bytes without white space, whose host has no colon, and
  -- whose port is below 2^63. Let the session be there, authentication be off, and all lists
  -- allow the host. Let the resolver give addresses of which the system connects one, the first
  -- that is neither passed over nor refuses, and let the system give a socket. Then the detector
  -- reports success; the event loop hands the session to a worker; the worker tries the addresses
  -- up to that one at the port modulo 2^16, answers the client with status 200, sets its options,
  -- and reports success with the socket; and the event loop adds the sockets of the client and of
  -- the host for the session.
  pub connect-tunnel :
      (t : Moment) (net : Network) (later : SessionManager) (cache : List HostInfo) (r : Resolution)
      (fd : ℕ)
      → p.auth.enabled ≡ false
      → is_permitted (detected p id (connect_to host (d ∷ ds) rest)) detected_session ≡ true
      → get_addresses_for_host net.clock net.now net.answer cache host false ≡ done r
      → (h : IsReachable net r.addresses) → net.socket ≡ some fd
      → (async_detector p.sessions id (connect_text host (d ∷ ds) rest)
          ≡ done ((detected p id (connect_to host (d ∷ ds) rest)).sessions, true))
        × (on_detect_result t (detected p id (connect_to host (d ∷ ds) rest)) id true
            ≡ done (detected p id (connect_to host (d ∷ ds) rest), dispatch_connect id ∷ []))
        × (async_connector net later
              (detected p id (connect_to host (d ∷ ds) rest)).sessions
              cache
              id
            ≡ done (
              r.cache,
              attempts_to net detected_session.port (h.front ++ h.chosen ∷ [])
                  ++ ((send s.client_fd success_text ∷ keep_alives detected_session fd)
                      ++ set_timeouts fd ∷ post (connect_result id fd true) ∷ []),
            ))
        × (on_connect_result t (detected p id (connect_to host (d ∷ ds) rest)) id fd true
            ≡ done
                (detected p id (connect_to host (d ∷ ds) rest), add_sockets s.client_fd fd id ∷ []))
  unfolding store_request on_connected greet
  connect-tunnel t net later cache r fd off allowed resolved h opened = (
    async_detector-connect p.sessions id s host rest d ds found plain digits small fits whole,
    handed_on t (detected p id (connect_to host (d ∷ ds) rest)) id detected_session detected_found
        off allowed,
    connector-reachable net later (detected p id (connect_to host (d ∷ ds) rest)).sessions cache
        detected_session id fd r h detected_found resolved opened,
    sockets_added t (detected p id (connect_to host (d ∷ ds) rest)) id fd detected_session
        detected_found,
  )
