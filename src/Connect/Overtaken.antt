-- ===== src/Connect/Overtaken.antt =====
-- `asyncConnector` and the event loop, when the message of a failure is handled before the worker goes
-- on.
use nermalproxy.Prelude.{
  ℕ, ◌<◌, ◌≡◌, inl, inr, refl, subst, ◌∙◌, false, List, [], ◌∷◌, ◌++◌, none, some, arith, ◌==◌,
  length, All, Bool-cases, done, fault, use_after_free,
}
use nermalproxy.HostCache.{HostInfo, Resolution, get_addresses_for_host, clear_cache_for_host}
use nermalproxy.Gate.{Proxy, Moment, Effect, refuse, not_found, on_connect_result}
use nermalproxy.Messenger.{connect_result, minus_one}
use nermalproxy.Session.{Session, SessionManager, get_session}
use nermalproxy.Session.Ids.{IsFresh, get_session-end_session}
use nermalproxy.Connect.{
  Network, Action, post, try_addresses, after_attempts, connect_session, async_connector,
}
use nermalproxy.Connect.Attempts.{IsInet, AllFail, attempts_to, AllFail-try_addresses}

-- Handling the message of a failure ends the session.
failure_gone :
    (t : Moment) (p p' : Proxy) (id fd : ℕ) (s : Session) (effects : List Effect)
    → IsFresh p.sessions
    → get_session p.sessions id ≡ some s
    → on_connect_result t p id fd false ≡ done (p', effects)
    → get_session p'.sessions id ≡ none
unfolding on_connect_result refuse
failure_gone t p p' id fd s effects fresh found e =
    let (_, gone) = get_session-end_session p.auth t.now id id p.sessions p.stats fresh in
    let shown = rw (found, on_connect_result) at e in
    let same : (refuse t p s id not_found).0 ≡ p' = cc in
    subst (λ q. get_session q.sessions id ≡ none) same (ground arith)

-- The worker up to the end of the loop, when all addresses fail.
all_failed :
    (net : Network) (later m : SessionManager) (s : Session) (id fd : ℕ) (cache : List HostInfo)
    (r : Resolution) (tries : List Action)
    → get_session m id ≡ some s
    → get_addresses_for_host net.clock net.now net.answer cache s.host_url false ≡ done r
    → 0 < length r.addresses
    → net.socket ≡ some fd
    → try_addresses net s.port 0 r.addresses ≡ done (false, tries)
    → async_connector net later m cache id ≡ after_attempts later s id fd r.cache (false, tries)
unfolding async_connector connect_session
all_failed net later m s id fd cache r tries found resolved some_address opened fails =
    elim (Bool-cases (length r.addresses == 0)) [
      | inl empty ↦ absurd (ground arith)
      | inr full ↦ rw (found, async_connector, resolved, connect_session, full, opened, fails) refl
    ]

-- Let no identifier be used twice, the session be there, the host have addresses as the resolver
-- makes them, of which every one is passed over or refuses, and the system give a socket. If the
-- sessions are the same when the worker goes on behind its message, and the clearing of the cache
-- ends well, the worker has sent, behind its attempts, the message that the connection failed. But
-- if the event loop has handled that message by then, a deleted session is used.
pub async_connector_overtaken :
    (net : Network) (t : Moment) (p p' : Proxy) (s : Session) (id fd : ℕ)
    (cache cleared : List HostInfo) (r : Resolution) (effects : List Effect)
    → IsFresh p.sessions
    → get_session p.sessions id ≡ some s
    → get_addresses_for_host net.clock net.now net.answer cache s.host_url false ≡ done r
    → All IsInet r.addresses
    → 0 < length r.addresses
    → net.socket ≡ some fd
    → AllFail net 0 r.addresses
    → on_connect_result t p id minus_one false ≡ done (p', effects)
    → (clear_cache_for_host s.host_url r.cache ≡ done cleared
        → async_connector net p.sessions p.sessions cache id
          ≡ done (
            cleared,
            attempts_to net s.port r.addresses ++ post (connect_result id minus_one false) ∷ [],
          ))
      × (async_connector net p'.sessions p.sessions cache id ≡ fault use_after_free)
unfolding after_attempts
async_connector_overtaken net t p p' s id fd cache cleared r effects fresh found resolved inet
      some_address opened fails handled =
    let tries = attempts_to net s.port r.addresses in
    let tried = AllFail-try_addresses net s.port 0 r.addresses inet fails in
    (
      λ clears.
          all_failed net p.sessions p.sessions s id fd cache r tries found resolved some_address
            opened tried
          ∙ rw (found, after_attempts, clears) refl,
      all_failed net p'.sessions p.sessions s id fd cache r tries found resolved some_address opened
            tried
          ∙ rw (failure_gone t p p' id minus_one s effects fresh found handled, after_attempts)
              refl,
    )
