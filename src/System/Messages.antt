-- ===== src/System/Messages.antt =====
-- What the handlers of messages do to the sessions and what they wait for.
use nermalproxy.Prelude.{
  ℕ, ◌≡◌, inl, inr, sym, subst, ◌∙◌, Bool, true, false, List, [], ◌∷◌, none, some, if◌then◌else◌,
  done,
}
use nermalproxy.CText.{Bytes}
use nermalproxy.Gate.{
  Proxy, Effect, reply, close, dispatch_connect, post_failure, add_sockets, not_found,
}
use nermalproxy.Gate.Endings.{IsSettled, on_detect_result_settles, on_connect_result_cases}
use nermalproxy.Gate.Others.{
  KeepsOthers, on_detect_result-KeepsOthers, on_connect_result-KeepsOthers,
}
use nermalproxy.Loop.{Inputs, on_message}
use nermalproxy.Messenger.{Message, detect_result, connect_result}
use nermalproxy.Messenger.Layout.{session_of}
use nermalproxy.Session.{Session, get_session}
use nermalproxy.Session.Changes.{Has}
use nermalproxy.Session.Ids.{IsFresh}

-- What a message comes to: its session is ended; or it is kept and handed on in one way.
pub data Comes (p : Proxy) (id : ℕ) : List Effect → Type 0 where
  ended : (fd : ℕ) (text : Bytes) → Comes p id (reply fd text ∷ close fd ∷ [])
  connecting : Has p.sessions id → Comes p id (dispatch_connect id ∷ [])
  failing : Has p.sessions id → Comes p id (post_failure id ∷ [])
  connected : (fd proxy_fd : ℕ) → Has p.sessions id → Comes p id (add_sockets fd proxy_fd id ∷ [])

settled-Comes :
    (p : Proxy) (id : ℕ) (s : Session) (effects : List Effect)
    → IsSettled p id s effects
    → Comes p id effects
settled-Comes p id s effects (fresh, inl (text, same, gone)) =
    subst (Comes p id) (sym same) (ended s.client_fd text)
settled-Comes p id s effects (fresh, inr (inl same, has)) =
    subst (Comes p id) (sym same) (connecting has)
settled-Comes p id s effects (fresh, inr (inr same, has)) =
    subst (Comes p id) (sym same) (failing has)

-- What the handler for a message leaves.
pub record Handled (p p' : Proxy) (id : ℕ) (effects : List Effect) : Type 0 where
  pub fresh : IsFresh p'.sessions
  pub others : KeepsOthers p p' id
  pub comes : Comes p' id effects

connect-Comes :
    (p : Proxy) (id fd : ℕ) (success : Bool) (s : Session)
    → get_session p.sessions id ≡ (if success then some s else none)
    → Comes p id (
        if success
        then add_sockets s.client_fd fd id ∷ []
        else reply s.client_fd not_found ∷ close s.client_fd ∷ [])
connect-Comes p id fd true s has = connected s.client_fd fd (s, has)
connect-Comes p id fd false s has = ended s.client_fd not_found

pub on_message-Handled :
    (i : Inputs) (p p' : Proxy) (m : Message) (s : Session) (effects : List Effect)
    → IsFresh p.sessions
    → get_session p.sessions (session_of m) ≡ some s
    → on_message i p m ≡ done (p', effects)
    → Handled p p' (session_of m) effects
unfolding on_message
on_message-Handled i p p' (detect_result id success) s effects fresh found e =
    let settled = on_detect_result_settles i.moment p p' id success s effects fresh found e in
    record {
      fresh = settled.0;
      others = on_detect_result-KeepsOthers i.moment p p' id success s effects fresh found e;
      comes = settled-Comes p' id s effects settled;
    }
on_message-Handled i p p' (connect_result id fd success) s effects fresh found e =
    let (q, effects', e', fresh', has, shown) =
      on_connect_result_cases i.moment p id fd success s fresh found in
    let same : q ≡ p' = cc in
    let same' : effects' ≡ effects = cc in
    record {
      fresh = subst (λ x. IsFresh x.sessions) same fresh';
      others = on_connect_result-KeepsOthers i.moment p p' id fd success s effects fresh found e;
      comes =
          subst (λ x. Comes x id effects) same
            (subst (Comes q id) (sym shown ∙ same') (connect-Comes q id fd success s has));
    }
