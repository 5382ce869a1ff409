-- ===== src/System/Letting.antt =====
-- Which messages lead a session on to its host.
use nermalproxy.Prelude.{
  ℕ, ◌≤◌, ◌≡◌, inl, inr, refl, sym, subst, Bool, true, false, List, [], ◌∷◌, some, arith, ◌==◌,
  List-cases, here, done, >>=-eq-done,
}
use nermalproxy.Gate.{
  Proxy, Moment, Effect, reply, close, dispatch_connect, post_failure, add_sockets, not_found,
  refuse, on_detect_result, on_connect_result,
}
use nermalproxy.Gate.Admission.{HasNames, IsAdmitted}
use nermalproxy.Gate.Endings.{IsSettled, on_detect_result_settles}
use nermalproxy.Gate.Filtered.{Connects, on_detect_result_connects}
use nermalproxy.Gate.Others.{on_detect_result-KeepsOthers}
use nermalproxy.Loop.{Loop, Inputs, run_effect, run_effects, on_message}
use nermalproxy.Loop.Dispatching.{handle_message, on_command_socket}
use nermalproxy.Messenger.{Message, detect_result, connect_result}
use nermalproxy.Messenger.Layout.{session_of}
use nermalproxy.Session.{Session, get_session}
use nermalproxy.Session.Ids.{IsFresh}
use nermalproxy.System.{IsTracked}
use nermalproxy.System.Effects.{handled_loop, message_found}
use nermalproxy.System.Guard.{count, succeeds_for, HasAllowed, IsGuarded, SameRules}
use nermalproxy.System.Guarding.{LeadsAllowed, effects-IsGuarded}
use nermalproxy.System.Messages.{on_message-Handled}

-- Authentication is enabled, and no user has the empty name.
abbrev pub IsStrict : Proxy → Type 0
IsStrict p = (p.auth.enabled ≡ true) × HasNames p.auth

-- A handler that has settled its session has not added sockets.
settled_opens :
    (p : Proxy) (id fd proxy_fd : ℕ) (s : Session) (effects : List Effect)
    → IsSettled p id s effects
    → effects ≡ add_sockets fd proxy_fd id ∷ []
    → ⊥
settled_opens p id fd proxy_fd s effects (fresh, inl (text, same, gone)) e = cc
settled_opens p id fd proxy_fd s effects (fresh, inr (inl same, has)) e = cc
settled_opens p id fd proxy_fd s effects (fresh, inr (inr same, has)) e = cc

detect_leads :
    {moments : Moment → Type 0} (i : Inputs) (p p' : Proxy) (id : ℕ) (success : Bool) (s : Session)
    (effects : List Effect)
    → IsFresh p.sessions
    → IsStrict p
    → moments i.moment
    → get_session p.sessions id ≡ some s
    → on_detect_result i.moment p id success ≡ done (p', effects)
    → LeadsAllowed moments p' id effects
detect_leads i p p' id success s effects fresh strict now found e =
    let keeps = on_detect_result-KeepsOthers i.moment p p' id success s effects fresh found e in
    record {
      dispatched = λ same.
          let listed : Connects id effects = subst (Connects id) (sym same) (here refl) in
          let (s', cleared) =
            on_detect_result_connects i.moment p p' id success effects strict.0 strict.1 e listed in
          (
            s',
            cleared.found,
            record {
              moment = i.moment;
              reached = now;
              admitted =
                  subst (λ a. IsAdmitted i.moment a s'.request s'.client_ip s'.user_name)
                    (sym keeps.auth) cleared.admitted;
              passed = cleared.passed;
            },
          );
      opened = λ fd proxy_fd same. absurd (
          settled_opens p' id fd proxy_fd s effects
            (on_detect_result_settles i.moment p p' id success s effects fresh found e) same);
    }

-- A session that a message says is connected is allowed.
message_allowed :
    {moments : Moment → Type 0} (l : Loop) (id fd : ℕ) (rest : List Message)
    → IsGuarded moments l
    → l.messages ≡ connect_result id fd true ∷ rest
    → HasAllowed moments l.proxy id
unfolding count
message_allowed l id fd rest guarded taken =
    let self : (id == id) ≡ true = ground arith in
    let one : 1 ≤ count (succeeds_for id) l.messages = rw (taken, self) (omega arith) in
    guarded id (omega arith)

connect_leads :
    {moments : Moment → Type 0} (i : Inputs) (l : Loop) (p' : Proxy) (id fd : ℕ) (success : Bool)
    (s : Session) (effects : List Effect) (rest : List Message)
    → IsGuarded moments l
    → l.messages ≡ connect_result id fd success ∷ rest
    → get_session l.proxy.sessions id ≡ some s
    → on_connect_result i.moment l.proxy id fd success ≡ done (p', effects)
    → LeadsAllowed moments p' id effects
unfolding on_connect_result refuse
connect_leads {moments} i l p' id fd true s effects rest guarded taken found e =
    let shown = rw (found, on_connect_result) at e in
    let same : l.proxy ≡ p' = cc in
    let allowed =
      subst (λ p. HasAllowed moments p id) same (message_allowed l id fd rest guarded taken) in
    record { dispatched = λ _. allowed; opened = λ fd' proxy_fd _. allowed }
connect_leads {moments} i l p' id fd false s effects rest guarded taken found e =
    let shown = rw (found, on_connect_result) at e in
    let answered : effects ≡ reply s.client_fd not_found ∷ close s.client_fd ∷ [] = cc in
    record { dispatched = λ same. absurd cc; opened = λ fd' proxy_fd same. absurd cc }

message_leads :
    {moments : Moment → Type 0} (i : Inputs) (l : Loop) (p' : Proxy) (m : Message) (s : Session)
    (effects : List Effect) (rest : List Message)
    → IsFresh l.proxy.sessions
    → IsStrict l.proxy
    → moments i.moment
    → IsGuarded moments l
    → l.messages ≡ m ∷ rest
    → get_session l.proxy.sessions (session_of m) ≡ some s
    → on_message i l.proxy m ≡ done (p', effects)
    → LeadsAllowed moments p' (session_of m) effects
unfolding on_message
message_leads i l p' (detect_result id success) s effects rest fresh strict now guarded taken found
      e =
    detect_leads i l.proxy p' id success s effects fresh strict now found e
message_leads i l p' (connect_result id fd success) s effects rest fresh strict now guarded taken
      found e =
    connect_leads i l p' id fd success s effects rest guarded taken found e

run_effects-proxy :
    (i : Inputs) (l : Loop) (effects : List Effect) → (run_effects i l effects).proxy ≡ l.proxy
unfolding run_effects run_effect
run_effects-proxy i l [] = refl
run_effects-proxy i l (reply fd text ∷ es) = run_effects-proxy i l es
run_effects-proxy i l (close fd ∷ es) = run_effects-proxy i l es
run_effects-proxy i l (dispatch_connect id ∷ es) =
    run_effects-proxy i (run_effect i l (dispatch_connect id)) es
run_effects-proxy i l (post_failure id ∷ es) =
    run_effects-proxy i (run_effect i l (post_failure id)) es
run_effects-proxy i l (add_sockets fd proxy_fd id ∷ es) =
    run_effects-proxy i (run_effect i l (add_sockets fd proxy_fd id)) es

-- After a message, what leads to hosts still does so for allowed sessions only, and the rules are
-- the same.
pub on_command_socket-IsGuarded :
    {moments : Moment → Type 0} (i : Inputs) (l l' : Loop) (going : Bool)
    → IsTracked l
    → IsStrict l.proxy
    → moments i.moment
    → IsGuarded moments l
    → on_command_socket i l ≡ some (done (l', going))
    → IsGuarded moments l' × SameRules l.proxy l'.proxy
unfolding on_command_socket handle_message
on_command_socket-IsGuarded {moments} i l l' going tracked strict now guarded e =
    elim (List-cases l.messages) [
      | inl empty ↦ absurd (let shown = rw (empty, on_command_socket) at e in cc)
      | inr (m, rest, taken) ↦
          let shown : handle_message i l m rest ≡ done (l', going) =
            let shown' = rw (taken, on_command_socket) at e in cc in
          let (s, found) = message_found l m rest tracked taken in
          let ((p, effects), handled, ended') = >>=-eq-done (on_message i l.proxy m) _ shown in
          let h = on_message-Handled i l.proxy p m s effects tracked.fresh found handled in
          let leads =
            message_leads i l p m s effects rest tracked.fresh strict now guarded taken found
              handled in
          let result : run_effects i (handled_loop l p rest) effects ≡ l' = cc in
          (
            subst (IsGuarded moments) result (
                effects-IsGuarded l p m rest tracked taken guarded i effects h.others h.comes
                  leads),
            subst (λ x. SameRules l.proxy x.proxy) result
                (subst (SameRules l.proxy)
                  (sym (run_effects-proxy i (handled_loop l p rest) effects))
                  (h.others.auth, (h.others.policies, h.others.blacklists))),
          )
    ]
