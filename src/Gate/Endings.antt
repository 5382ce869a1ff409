-- ===== src/Gate/Endings.antt =====
-- How the handlers end: a session is handed on, or answered, closed and removed.
use nermalproxy.Prelude.{
  ℕ, ◌≡◌, ◌⊎◌, refl, subst, inl, inr, Bool, true, false, List, [], ◌∷◌, none, some, arith,
  if◌then◌else◌, Bool-cases, Option-cases, Outcome, done, >>=-eq-done,
}
use nermalproxy.CText.{Bytes}
use nermalproxy.Session.{Session, get_session, set_user_name}
use nermalproxy.Session.Changes.{change_session-IsFresh}
use nermalproxy.Session.Ids.{IsFresh, get_session-end_session}
use nermalproxy.Gate.{
  Proxy, Moment, Effect, reply, close, dispatch_connect, post_failure, add_sockets, Verdict,
  granted, forbidden, challenge, admit, refuse, is_permitted, connect_proxy, with_name,
  apply_verdict, on_detect_result, on_connect_result, forbidden_text, challenge_text, bad_request,
  not_found,
}

-- The client was answered and closed, and its session is gone.
abbrev pub IsEnded : Proxy → ℕ → Session → List Effect → Type 0
IsEnded p id s effects =
    (text : Bytes) × (effects ≡ reply s.client_fd text ∷ close s.client_fd ∷ [])
    × (get_session p.sessions id ≡ none)

-- The session was handed to a worker, or it was reported that the host is not allowed.
abbrev pub IsHanded : Proxy → ℕ → List Effect → Type 0
IsHanded p id effects =
    ((effects ≡ dispatch_connect id ∷ []) ⊎ (effects ≡ post_failure id ∷ []))
    × ((s : Session) × (get_session p.sessions id ≡ some s))

-- One or the other, and no identifier is used twice.
abbrev pub IsSettled : Proxy → ℕ → Session → List Effect → Type 0
IsSettled p id s effects = IsFresh p.sessions × (IsEnded p id s effects ⊎ IsHanded p id effects)

with_name-IsFresh :
    (p : Proxy) (id : ℕ) (name : Bytes)
    → IsFresh p.sessions
    → IsFresh (with_name p id name).sessions
with_name-IsFresh p id name f =
    change_session-IsFresh (set_user_name name) (λ s. refl) p.sessions id f

refuse_settles :
    (t : Moment) (p : Proxy) (s : Session) (id : ℕ) (text : Bytes)
    → IsFresh p.sessions
    → IsSettled (refuse t p s id text).0 id s (refuse t p s id text).1
unfolding refuse
refuse_settles t p s id text f =
    let (fresh, gone) = get_session-end_session p.auth t.now id id p.sessions p.stats f in
    (fresh, inl (text, refl, ground arith))

connect_settles :
    (p : Proxy) (id : ℕ) (s : Session) (effects : List Effect)
    → IsFresh p.sessions
    → connect_proxy p id ≡ done effects
    → IsSettled p id s effects
unfolding connect_proxy
connect_settles p id s effects f e = elim (Option-cases (get_session p.sessions id)) [
  | inl gone ↦ absurd (let shown = rw (gone, connect_proxy) at e in cc)
  | inr (x, found) ↦
      let shown = rw (found, connect_proxy) at e in
      elim (Bool-cases (is_permitted p x)) [
        | inl allowed ↦ (f, inr (inl (ground arith), (x, found)))
        | inr refused ↦ (f, inr (inr (ground arith), (x, found)))
      ]
]

-- What a handler returns when it returns.
abbrev given : Proxy × List Effect → Outcome (Proxy × List Effect)
given r = done r

-- A result that is given has the properties of the result that is computed.
IsSettled-same :
    (p p' : Proxy) (id : ℕ) (s : Session) (effects effects' : List Effect)
    → given (p, effects) ≡ given (p', effects')
    → IsSettled p id s effects
    → IsSettled p' id s effects'
IsSettled-same p p' id s effects effects' e h =
    let one : p ≡ p' = cc in
    let two : effects ≡ effects' = cc in
    subst (λ x. IsSettled x id s effects') one (subst (λ x. IsSettled p id s x) two h)

apply_verdict_settles :
    (t : Moment) (p : Proxy) (s : Session) (id : ℕ) (v : Verdict) (p' : Proxy)
    (effects : List Effect)
    → IsFresh p.sessions
    → apply_verdict t p s id v ≡ done (p', effects)
    → IsSettled p' id s effects
unfolding apply_verdict
apply_verdict_settles t p s id (granted name) p' effects f e =
    let q = with_name p id name in
    let (effects', connected, rest) = >>=-eq-done (connect_proxy q id) _ e in
    IsSettled-same q p' id s effects' effects rest
      (connect_settles q id s effects' (with_name-IsFresh p id name f) connected)
apply_verdict_settles t p s id (forbidden none) p' effects f e =
    IsSettled-same (refuse t p s id forbidden_text).0 p' id s (refuse t p s id forbidden_text).1
      effects e (refuse_settles t p s id forbidden_text f)
apply_verdict_settles t p s id (forbidden (some name)) p' effects f e =
    let q = with_name p id name in
    IsSettled-same (refuse t q s id forbidden_text).0 p' id s (refuse t q s id forbidden_text).1
      effects e (refuse_settles t q s id forbidden_text (with_name-IsFresh p id name f))
apply_verdict_settles t p s id challenge p' effects f e =
    IsSettled-same (refuse t p s id challenge_text).0 p' id s (refuse t p s id challenge_text).1
      effects e (refuse_settles t p s id challenge_text f)

-- Let no identifier be used twice. When the handler of a detection returns, the client was
-- either answered and closed and its session removed, or the session is kept and was either
-- handed to a worker or reported as failed, once; and still no identifier is used twice.
pub on_detect_result_settles :
    (t : Moment) (p p' : Proxy) (id : ℕ) (success : Bool) (s : Session) (effects : List Effect)
    → IsFresh p.sessions
    → get_session p.sessions id ≡ some s
    → on_detect_result t p id success ≡ done (p', effects)
    → IsSettled p' id s effects
unfolding on_detect_result
on_detect_result_settles t p p' id false s effects f found e =
    let shown = rw (found, on_detect_result) at e in
    IsSettled-same (refuse t p s id bad_request).0 p' id s (refuse t p s id bad_request).1 effects
      shown (refuse_settles t p s id bad_request f)
on_detect_result_settles t p p' id true s effects f found e = elim (Bool-cases p.auth.enabled) [
  | inl on ↦
      let shown = rw (found, on_detect_result, on) at e in
      let (v, admitted, rest) = >>=-eq-done (admit t p.auth s.request s.client_ip) _ shown in
      apply_verdict_settles t p s id v p' effects f rest
  | inr off ↦
      let shown = rw (found, on_detect_result, off) at e in
      let (effects', connected, rest) = >>=-eq-done (connect_proxy p id) _ shown in
      IsSettled-same p p' id s effects' effects rest (connect_settles p id s effects' f connected)
]

-- Let no identifier be used twice. A message that connecting a session failed ends in an answer
-- and a closed client, and its session is removed; one that it succeeded adds a pair of sockets
-- and leaves the session.
pub on_connect_result_cases :
    (t : Moment) (p : Proxy) (id proxy_fd : ℕ) (success : Bool) (s : Session)
    → IsFresh p.sessions
    → get_session p.sessions id ≡ some s
    → (p' : Proxy) × (effects : List Effect) × (on_connect_result t p id proxy_fd success
        ≡ done (p', effects))
      × IsFresh p'.sessions
      × (get_session p'.sessions id ≡ (if success then some s else none))
      × (effects ≡ (
          if success
          then add_sockets s.client_fd proxy_fd id ∷ []
          else reply s.client_fd not_found ∷ close s.client_fd ∷ []))
unfolding on_connect_result refuse
on_connect_result_cases t p id proxy_fd true s f found =
    (p, add_sockets s.client_fd proxy_fd id ∷ [], rw (found, on_connect_result), f, found, refl)
on_connect_result_cases t p id proxy_fd false s f found =
    let (fresh, gone) = get_session-end_session p.auth t.now id id p.sessions p.stats f in
    (
      (refuse t p s id not_found).0,
      reply s.client_fd not_found ∷ close s.client_fd ∷ [],
      rw (found, on_connect_result),
      fresh,
      ground arith,
      refl,
    )
