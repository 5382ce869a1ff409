-- ===== src/Gate/Filtered.antt =====
-- Which sessions are connected: the checks and the filter together.
use nermalproxy.Prelude.{
  ℕ, ◌<◌, ◌≡◌, refl, sym, ap, subst, ◌∙◌, inl, inr, Bool, true, false, List, [], ◌∷◌, none, some,
  arith, ◌&&◌, Bool-cases, Option-cases, length, Any, here, there, done, >>=-eq-done,
}
use nermalproxy.CText.{Bytes, str_eq}
use nermalproxy.Policy.{UserPolicyList, global_domain}
use nermalproxy.Policy.Filtering.{domains_of, allows_all, is_allowed_lem}
use nermalproxy.Session.Changes.{get_session-change_session}
use nermalproxy.Session.{Session, get_session, set_user_name}
use nermalproxy.Gate.{
  Proxy, Moment, Effect, dispatch_connect, post_failure, Verdict, granted, forbidden, challenge,
  admit, refuse, domain_count, is_permitted, connect_proxy, with_name, apply_verdict,
  on_detect_result, forbidden_text, challenge_text, bad_request,
}
use nermalproxy.Gate.Admission.{IsAdmitted, HasNames, admit_sound}

domains_of-count :
    (ps : UserPolicyList) (user : Bytes) → length (domains_of ps user) < domain_count ps
unfolding domains_of domain_count
domains_of-count [] user = omega arith
domains_of-count (p ∷ ps) user = elim (Bool-cases (str_eq p.name user)) [
  | inl hit ↦ rw hit (omega (arith, positive ps))
  | inr miss ↦ rw miss (omega (arith, domains_of-count ps user))
]
  where
    positive : (ps : UserPolicyList) → 0 < domain_count ps
    positive [] = omega arith
    positive (p ∷ ps) = omega (arith, positive ps)

-- All lists that apply to the user of the session allow its host.
abbrev pub passes : Proxy → Session → Bool
passes p s =
    allows_all p.blacklists s.host_url (domains_of p.policies s.user_name)
    && allows_all p.blacklists s.host_url (domains_of p.policies global_domain)

is_permitted_lem : (p : Proxy) (s : Session) → is_permitted p s ≡ passes p s
unfolding is_permitted
is_permitted_lem p s = rw (
  is_allowed_lem (domain_count p.policies) p.policies p.blacklists s.user_name s.host_url
      (domains_of-count p.policies s.user_name) (domains_of-count p.policies global_domain),
  is_permitted,
)

-- The session is given to a worker that connects it.
abbrev pub Connects : ℕ → List Effect → Type 0
Connects id = Any (λ e. e ≡ dispatch_connect id)

connect_proxy_sound :
    (p : Proxy) (id : ℕ) (effects : List Effect)
    → connect_proxy p id ≡ done effects
    → Connects id effects
    → (s : Session) × (get_session p.sessions id ≡ some s) × (passes p s ≡ true)
unfolding connect_proxy
connect_proxy_sound p id effects e c = elim (Option-cases (get_session p.sessions id)) [
  | inl gone ↦ absurd (let shown = rw (gone, connect_proxy) at e in cc)
  | inr (s, found) ↦
      let shown = rw (found, connect_proxy) at e in
      elim (Bool-cases (is_permitted p s)) [
        | inl allowed ↦ (s, found, sym (is_permitted_lem p s) ∙ allowed)
        | inr refused ↦ absurd (
            let listed : effects ≡ post_failure id ∷ [] = ground arith in
            no_post id (rw listed at c))
      ]
]
  where
    no_post : (id : ℕ) → ¬ Connects id (post_failure id ∷ [])
    no_post id (here h) = cc
    no_post id (there x) = elim x [ ]

refuse-Connects :
    (t : Moment) (p : Proxy) (s : Session) (id : ℕ) (text : Bytes)
    → ¬ Connects id (refuse t p s id text).1
unfolding refuse
refuse-Connects t p s id text (here h) = cc
refuse-Connects t p s id text (there (here h)) = cc
refuse-Connects t p s id text (there (there x)) = elim x [ ]

refused :
    (t : Moment) (p : Proxy) (s : Session) (id : ℕ) (text : Bytes) (p' : Proxy)
    (effects : List Effect)
    → done (refuse t p s id text) ≡ done (p', effects)
    → ¬ Connects id effects
refused t p s id text p' effects e c =
    let same : effects ≡ (refuse t p s id text).1 = ground arith in
    refuse-Connects t p s id text (rw same at c)

-- A verdict that leads to a connection has granted a name, and the filter has seen it.
apply_verdict_sound :
    (t : Moment) (p : Proxy) (s : Session) (id : ℕ) (v : Verdict) (p' : Proxy)
    (effects : List Effect)
    → apply_verdict t p s id v ≡ done (p', effects)
    → Connects id effects
    → (name : Bytes) × (v ≡ granted name)
      × (p' ≡ with_name p id name)
      × (connect_proxy (with_name p id name) id ≡ done effects)
unfolding apply_verdict
apply_verdict_sound t p s id (granted name) p' effects e c =
    let (effects', connected, rest) = >>=-eq-done (connect_proxy (with_name p id name) id) _ e in
    let same : effects ≡ effects' = cc in (name, refl, cc, rw same connected)
apply_verdict_sound t p s id (forbidden none) p' effects e c =
    absurd (refused t p s id forbidden_text p' effects e c)
apply_verdict_sound t p s id (forbidden (some name)) p' effects e c =
    absurd (refused t (with_name p id name) s id forbidden_text p' effects e c)
apply_verdict_sound t p s id challenge p' effects e c =
    absurd (refused t p s id challenge_text p' effects e c)

-- What a connection shows about the session that is connected, as it is found afterwards.
pub record IsCleared (t : Moment) (p p' : Proxy) (id : ℕ) (s : Session) : Type 0 where
  pub found : get_session p'.sessions id ≡ some s
  pub admitted : IsAdmitted t p.auth s.request s.client_ip s.user_name
  pub passed : passes p' s ≡ true

cleared :
    (t : Moment) (p p' : Proxy) (id : ℕ) (s s' : Session) (name : Bytes)
    → p' ≡ with_name p id name
    → get_session (with_name p id name).sessions id ≡ some s'
    → s' ≡ set_user_name name s
    → passes (with_name p id name) s' ≡ true
    → IsAdmitted t p.auth s.request s.client_ip name
    → IsCleared t p p' id s'
cleared t p p' id s s' name same found one passed known =
    subst (λ q. IsCleared t p q id s') (sym same)
      (record {
        found = found;
        admitted =
            subst (λ x. IsAdmitted t p.auth x.request x.client_ip x.user_name) (sym one) known;
        passed = passed;
      })

-- Let authentication be enabled and no user have the empty name. If the handler gives a session
-- to be connected, then the session's request carries, in Base64 behind the header for
-- credentials, the session's user name and the password that a user of that name has, or it has no
-- such header and the client's address belongs to a user of that name; that user's schedule allows
-- the time; and all lists that apply to the user allow the host.
pub on_detect_result_connects :
    (t : Moment) (p p' : Proxy) (id : ℕ) (success : Bool) (effects : List Effect)
    → p.auth.enabled ≡ true
    → HasNames p.auth
    → on_detect_result t p id success ≡ done (p', effects)
    → Connects id effects
    → (s : Session) × IsCleared t p p' id s
unfolding on_detect_result
on_detect_result_connects t p p' id false effects enabled named e c =
    elim (Option-cases (get_session p.sessions id)) [
      | inl gone ↦ absurd (let shown = rw (gone, on_detect_result) at e in cc)
      | inr (s, found) ↦
          absurd (refused t p s id bad_request p' effects (rw (found, on_detect_result) at e) c)
    ]
on_detect_result_connects t p p' id true effects enabled named e c =
    elim (Option-cases (get_session p.sessions id)) [
      | inl gone ↦ absurd (let shown = rw (gone, on_detect_result) at e in cc)
      | inr (s, found) ↦
          let shown = rw (found, on_detect_result, enabled) at e in
          let (v, admitted, rest) = >>=-eq-done (admit t p.auth s.request s.client_ip) _ shown in
          let (name, granted_name, same, connected) =
            apply_verdict_sound t p s id v p' effects rest c in
          let (s', found', passed) =
            connect_proxy_sound (with_name p id name) id effects connected c in
          let renamed =
            get_session-change_session (set_user_name name) (λ x. refl) p.sessions id s found in
          let one : s' ≡ set_user_name name s = cc in
          let known =
            admit_sound t p.auth s.request s.client_ip name named
              (admitted ∙ ap done granted_name) in
          (s', cleared t p p' id s s' name same found' one passed known)
    ]
