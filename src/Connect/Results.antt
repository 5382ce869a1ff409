-- ===== src/Connect/Results.antt =====
-- What `asyncConnector` reports, and what it has done by then.
use nermalproxy.Prelude.{
  ℕ, ◌<◌, ◌≡◌, ◌⊎◌, inl, inr, refl, ap, sym, ◌∙◌, subst, Bool, true, false, List, [], ◌∷◌, ◌++◌,
  none, some, arith, ◌==◌, length, Bool-cases, Option-cases, done, fault, past_the_end, >>=-eq-done,
}
use nermalproxy.CText.{Bytes, str_eq_refl}
use nermalproxy.HostCache.Lookup.{Fresh, Lacks, clear_cache_for_host_one}
use nermalproxy.HostCache.Resolving.{first_resolution}
use nermalproxy.HostCache.{
  HostInfo, AddrInfo, Resolution, first_inet, max_cache_size, get_addresses_for_host,
  clear_cache_for_host,
}
use nermalproxy.Messenger.{connect_result, minus_one}
use nermalproxy.Session.{Session, SessionManager, get_session}
use nermalproxy.Connect.{
  Network, Action, set_timeouts, post, try_addresses, greet, keep_alives, on_connected,
  after_attempts, connect_session, async_connector,
}
use nermalproxy.Connect.Attempts.{AllFail, attempts_to, FirstConnected, AllFail-try_addresses}
use nermalproxy.Connect.Tried.{Tried, try_addresses-Tried}

-- What the actions of a worker come to, if the host has these addresses. Without a socket: the
-- message of a failure. With one, if every address is passed over or refuses: an attempt for each
-- that is not passed over, and the message of a failure. Otherwise: the attempts up to the first
-- address that is connected, the actions for a connection through the socket, and the message of
-- success.
abbrev pub Reports : Network → Session → ℕ → List HostInfo → List Action → Type 0
Reports net s id hs actions =
    ((net.socket ≡ none) × (actions ≡ post (connect_result id minus_one false) ∷ []))
    ⊎ ((AllFail net 0 hs
          × (actions ≡ attempts_to net s.port hs ++ post (connect_result id minus_one false) ∷ []))
        ⊎ ((fd : ℕ) × (net.socket ≡ some fd)
            × (c : FirstConnected net 0 hs) × (actions
                ≡ attempts_to net s.port (c.front ++ c.chosen ∷ [])
                  ++ ((greet s fd ∷ keep_alives s fd)
                      ++ set_timeouts fd ∷ post (connect_result id fd true) ∷ []))))

after_attempts-Reports :
    (net : Network) (later : SessionManager) (s : Session) (id fd : ℕ)
    (cache cache' : List HostInfo) (hs : List HostInfo) (connected : Bool)
    (tries actions : List Action)
    → net.socket ≡ some fd
    → Tried net s.port 0 hs connected tries
    → after_attempts later s id fd cache (connected, tries) ≡ done (cache', actions)
    → Reports net s id hs actions
unfolding after_attempts on_connected
after_attempts-Reports net later s id fd cache cache' hs true tries actions opened (c, same) e =
    let all : actions ≡ tries ++ on_connected s id fd = cc e in
    inr (inr (fd, opened, c, all ∙ ap (λ l. l ++ on_connected s id fd) same))
after_attempts-Reports net later s id fd cache cache' hs false tries actions opened (failed, same)
      e =
    elim (Option-cases (get_session later id)) [
      | inl gone ↦ absurd (let e' = rw (gone, after_attempts) at e in cc)
      | inr (s', found) ↦
          let e' = rw (found, after_attempts) at e in
          let (cleared, a, rest) = >>=-eq-done (clear_cache_for_host s'.host_url cache) _ e' in
          let all : actions ≡ tries ++ post (connect_result id minus_one false) ∷ [] = cc rest in
          inr
            (inl (failed, all ∙ ap (λ l. l ++ post (connect_result id minus_one false) ∷ []) same))
    ]

nothing_fails : (net : Network) (hs : List HostInfo) → (length hs == 0) ≡ true → hs ≡ []
nothing_fails net [] e = refl
nothing_fails net (h ∷ hs) e = absurd (ground arith)

connect_session-Reports :
    (net : Network) (later : SessionManager) (s : Session) (id : ℕ) (r : Resolution)
    (cache : List HostInfo) (actions : List Action)
    → connect_session net later s id r ≡ done (cache, actions)
    → Reports net s id r.addresses actions
unfolding connect_session attempts_to
connect_session-Reports net later s id r cache actions e =
    elim (Bool-cases (length r.addresses == 0)) [
      | inl empty ↦
          let e' = rw (empty, connect_session) at e in
          let all : actions ≡ post (connect_result id minus_one false) ∷ [] = cc in
          subst (λ hs. Reports net s id hs actions) (sym (nothing_fails net r.addresses empty))
            (inr (inl (tt, all)))
      | inr found ↦ elim (Option-cases net.socket) [
        | inl closed ↦ inl (closed, let e' = rw (found, connect_session, closed) at e in cc)
        | inr (fd, opened) ↦
            let e' = rw (found, connect_session, opened) at e in
            let ((connected, tries), a, rest) =
              >>=-eq-done (try_addresses net s.port 0 r.addresses) _ e' in
            after_attempts-Reports net later s id fd r.cache cache r.addresses connected tries
              actions opened (try_addresses-Tried net s.port 0 r.addresses connected tries a) rest
      ]
    ]

-- If the session is there and the worker returns, then the host had addresses from the resolver,
-- perhaps none, and the worker has sent one message, as its last action and for its session. It
-- reports success exactly with the socket that the system gave, behind the attempts up to the
-- first address that was connected, and just before it the client was answered, or the request was
-- sent again. It reports a failure if there is no socket, or behind one attempt for each
-- address that was not passed over, all of which were refused; and then nothing else was done.
pub async_connector-Reports :
    (net : Network) (later m : SessionManager) (s : Session) (id : ℕ) (cache cache' : List HostInfo)
    (actions : List Action)
    → get_session m id ≡ some s
    → async_connector net later m cache id ≡ done (cache', actions)
    → (r : Resolution) × (get_addresses_for_host net.clock net.now net.answer cache s.host_url false
        ≡ done r)
      × Reports net s id r.addresses actions
unfolding async_connector
async_connector-Reports net later m s id cache cache' actions found e =
    let e' = rw (found, async_connector) at e in
    let (r, a, rest) =
      >>=-eq-done (get_addresses_for_host net.clock net.now net.answer cache s.host_url false) _
        e' in
    (r, a, connect_session-Reports net later s id r cache' actions rest)

-- Let the session be there, its host have no entry in a cache that has room and nothing expired,
-- the name server give an IPv4 address, and the system give a socket. If the address is passed
-- over or refuses, and the sessions are the same behind the message, then the clearing of the cache moves
-- the iterator past its end.
pub async_connector_unreachable :
    (net : Network) (m : SessionManager) (s : Session) (id fd : ℕ) (cache : List HostInfo)
    (results : List AddrInfo) (address : Bytes)
    → get_session m id ≡ some s
    → net.answer ≡ some results
    → first_inet results ≡ some address
    → length cache < max_cache_size
    → Fresh net.clock 0 cache
    → Lacks s.host_url cache
    → net.socket ≡ some fd
    → AllFail net 0
        (record { url = s.host_url; address = address; ip_version = 4; timestamp = net.now } ∷ [])
    → async_connector net m m cache id ≡ fault past_the_end
unfolding async_connector connect_session after_attempts
async_connector_unreachable net m s id fd cache results address found named v4 room fresh lacks
      opened fails =
    let entry : HostInfo = record {
      url = s.host_url;
      address = address;
      ip_version = 4;
      timestamp = net.now;
    } in
    rw
      (
        found,
        async_connector,
        named,
        first_resolution net.clock net.now results address cache s.host_url false v4 room fresh
            lacks,
        connect_session,
        opened,
        AllFail-try_addresses net s.port 0 (entry ∷ []) (refl, tt) fails,
        after_attempts,
        found,
        clear_cache_for_host_one s.host_url cache [] entry lacks (str_eq_refl s.host_url) tt,
      )
      refl
