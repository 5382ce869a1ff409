-- ===== src/Gate/Others.antt =====
-- The handlers of messages leave the sessions that a message is not about.
use nermalproxy.Prelude.{
  ℕ, ◌≡◌, ◌≢◌, refl, subst, ◌∙◌, Bool, true, false, List, none, some, inl, inr, Bool-cases, Outcome,
  done, >>=-eq-done,
}
use nermalproxy.CText.{Bytes}
use nermalproxy.Session.{Session, get_session, set_user_name}
use nermalproxy.Session.Changes.{
  Has, change_session-IsFresh, get_session-change_ne, get_session-end_ne,
}
use nermalproxy.Session.Ids.{IsFresh}
use nermalproxy.Gate.{
  Proxy, Moment, Effect, Verdict, granted, forbidden, challenge, admit, refuse, connect_proxy,
  with_name, apply_verdict, on_detect_result, on_connect_result, forbidden_text, challenge_text,
  bad_request, not_found,
}

-- The sessions other than this one are found as before, and the rules are the same.
pub record KeepsOthers (p p' : Proxy) (id : ℕ) : Type 0 where
  pub found :
      (other : ℕ) → id ≢ other → get_session p'.sessions other ≡ get_session p.sessions other
  pub auth : p'.auth ≡ p.auth
  pub policies : p'.policies ≡ p.policies
  pub blacklists : p'.blacklists ≡ p.blacklists

pub KeepsOthers-Has :
    (p p' : Proxy) (id other : ℕ)
    → KeepsOthers p p' id
    → id ≢ other
    → Has p.sessions other
    → Has p'.sessions other
KeepsOthers-Has p p' id other keeps apart (s, h) = (s, keeps.found other apart ∙ h)

KeepsOthers-refl : (p : Proxy) (id : ℕ) → KeepsOthers p p id
KeepsOthers-refl p id = record {
  found = λ other apart. refl;
  auth = refl;
  policies = refl;
  blacklists = refl;
}

refuse-KeepsOthers :
    (t : Moment) (p : Proxy) (s : Session) (id : ℕ) (text : Bytes)
    → IsFresh p.sessions
    → KeepsOthers p (refuse t p s id text).0 id
unfolding refuse
refuse-KeepsOthers t p s id text fresh = record {
  found = λ other apart. get_session-end_ne p.auth t.now id other p.sessions p.stats fresh apart;
  auth = refl;
  policies = refl;
  blacklists = refl;
}

with_name-KeepsOthers : (p : Proxy) (id : ℕ) (name : Bytes) → KeepsOthers p (with_name p id name) id
with_name-KeepsOthers p id name = record {
  found = λ other apart.
      get_session-change_ne (set_user_name name) (λ s. refl) p.sessions id other apart;
  auth = refl;
  policies = refl;
  blacklists = refl;
}

-- From the result of a handler that is known.
KeepsOthers-same :
    (p q p' : Proxy) (id : ℕ) (effects effects' : List Effect)
    → ◌≡◌ {A = Outcome (Proxy × List Effect)} (done (q, effects)) (done (p', effects'))
    → KeepsOthers p q id
    → KeepsOthers p p' id
KeepsOthers-same p q p' id effects effects' e h =
    let same : q ≡ p' = cc in subst (λ x. KeepsOthers p x id) same h

refuse_named :
    (t : Moment) (p : Proxy) (s : Session) (id : ℕ) (name text : Bytes)
    → IsFresh p.sessions
    → KeepsOthers p (refuse t (with_name p id name) s id text).0 id
refuse_named t p s id name text fresh =
    let named = with_name p id name in
    let kept = with_name-KeepsOthers p id name in
    let refused =
      refuse-KeepsOthers t named s id text
        (change_session-IsFresh (set_user_name name) (λ x. refl) p.sessions id fresh) in
    record {
      found = λ other apart. refused.found other apart ∙ kept.found other apart;
      auth = refused.auth ∙ kept.auth;
      policies = refused.policies ∙ kept.policies;
      blacklists = refused.blacklists ∙ kept.blacklists;
    }

apply_verdict-KeepsOthers :
    (t : Moment) (p p' : Proxy) (s : Session) (id : ℕ) (v : Verdict) (effects : List Effect)
    → IsFresh p.sessions
    → apply_verdict t p s id v ≡ done (p', effects)
    → KeepsOthers p p' id
unfolding apply_verdict
apply_verdict-KeepsOthers t p p' s id (granted name) effects fresh e =
    let q = with_name p id name in
    let (effects', connected, rest) = >>=-eq-done (connect_proxy q id) _ e in
    KeepsOthers-same p q p' id effects' effects rest (with_name-KeepsOthers p id name)
apply_verdict-KeepsOthers t p p' s id (forbidden none) effects fresh e =
    KeepsOthers-same p (refuse t p s id forbidden_text).0 p' id (refuse t p s id forbidden_text).1
      effects e (refuse-KeepsOthers t p s id forbidden_text fresh)
apply_verdict-KeepsOthers t p p' s id (forbidden (some name)) effects fresh e =
    KeepsOthers-same p (refuse t (with_name p id name) s id forbidden_text).0 p' id
      (refuse t (with_name p id name) s id forbidden_text).1 effects e
      (refuse_named t p s id name forbidden_text fresh)
apply_verdict-KeepsOthers t p p' s id challenge effects fresh e =
    KeepsOthers-same p (refuse t p s id challenge_text).0 p' id (refuse t p s id challenge_text).1
      effects e (refuse-KeepsOthers t p s id challenge_text fresh)

pub on_detect_result-KeepsOthers :
    (t : Moment) (p p' : Proxy) (id : ℕ) (success : Bool) (s : Session) (effects : List Effect)
    → IsFresh p.sessions
    → get_session p.sessions id ≡ some s
    → on_detect_result t p id success ≡ done (p', effects)
    → KeepsOthers p p' id
unfolding on_detect_result
on_detect_result-KeepsOthers t p p' id false s effects fresh found e =
    KeepsOthers-same p (refuse t p s id bad_request).0 p' id (refuse t p s id bad_request).1 effects
      (rw (found, on_detect_result) at e) (refuse-KeepsOthers t p s id bad_request fresh)
on_detect_result-KeepsOthers t p p' id true s effects fresh found e =
    elim (Bool-cases p.auth.enabled) [
      | inl on ↦
          let shown = rw (found, on_detect_result, on) at e in
          let (v, admitted, rest) = >>=-eq-done (admit t p.auth s.request s.client_ip) _ shown in
          apply_verdict-KeepsOthers t p p' s id v effects fresh rest
      | inr off ↦
          let shown = rw (found, on_detect_result, off) at e in
          let (effects', connected, rest) = >>=-eq-done (connect_proxy p id) _ shown in
          KeepsOthers-same p p p' id effects' effects rest (KeepsOthers-refl p id)
    ]

pub on_connect_result-KeepsOthers :
    (t : Moment) (p p' : Proxy) (id fd : ℕ) (success : Bool) (s : Session) (effects : List Effect)
    → IsFresh p.sessions
    → get_session p.sessions id ≡ some s
    → on_connect_result t p id fd success ≡ done (p', effects)
    → KeepsOthers p p' id
unfolding on_connect_result
on_connect_result-KeepsOthers t p p' id fd true s effects fresh found e =
    let shown = rw (found, on_connect_result) at e in
    KeepsOthers-same p p p' id _ effects shown (KeepsOthers-refl p id)
on_connect_result-KeepsOthers t p p' id fd false s effects fresh found e =
    KeepsOthers-same p (refuse t p s id not_found).0 p' id (refuse t p s id not_found).1 effects
      (rw (found, on_connect_result) at e) (refuse-KeepsOthers t p s id not_found fresh)
