-- ===== src/System/Effects.antt =====
-- What the loop is left with after the effects of a handler.
use nermalproxy.Prelude.{
  ℕ, ◌+◌, ◌≤◌, ◌≡◌, ◌≢◌, inl, inr, subst, Bool, true, false, List, [], ◌∷◌, ◌++◌, some, arith, ◌==◌,
  if◌then◌else◌, Bool-cases, List-cases, done, >>=-eq-done,
}
use nermalproxy.Gate.{Proxy, Effect}
use nermalproxy.Gate.Others.{KeepsOthers, KeepsOthers-Has}
use nermalproxy.Loop.{
  Socket, client, add_socket, Loop, Inputs, run_effect, run_effects, on_message, client_side,
  proxy_side,
}
use nermalproxy.Loop.Dispatching.{handle_message, on_command_socket}
use nermalproxy.Messenger.{Message, connect_result, minus_one}
use nermalproxy.Messenger.Layout.{session_of}
use nermalproxy.Pool.{connector, dispatch}
use nermalproxy.Session.Changes.{Has}
use nermalproxy.Session.Ids.{IsFresh}
use nermalproxy.System.{job_session, occurrences, socket_count, tokens, Owned, IsTracked}
use nermalproxy.System.Messages.{Comes, ended, connecting, failing, connected, on_message-Handled}
use nermalproxy.System.Tokens.{occurrences-append, socket_count-append, Owned-mono}

-- The loop after a message was taken and its handler has returned.
abbrev pub handled_loop : Loop → Proxy → List Message → Loop
handled_loop l p rest = record l { proxy = p; messages = rest }

-- The sockets of a session after two more were added, if they are taken.
pub socket_count-added :
    (takes takes' : Bool) (fd proxy_fd id other : ℕ) (ss : List Socket)
    → socket_count other
        (add_socket takes'
          (client (proxy_side fd proxy_fd id))
          (add_socket takes (client (client_side fd proxy_fd id)) ss).0).0
      ≤ socket_count other ss + (if id == other then 2 else 0)
unfolding add_socket
socket_count-added true true fd proxy_fd id other ss = ground (
  arith,
  socket_count-append other (ss ++ client (client_side fd proxy_fd id) ∷ [])
      (proxy_side fd proxy_fd id),
  socket_count-append other ss (client_side fd proxy_fd id),
)
socket_count-added true false fd proxy_fd id other ss =
    ground (arith, socket_count-append other ss (client_side fd proxy_fd id))
socket_count-added false true fd proxy_fd id other ss =
    ground (arith, socket_count-append other ss (proxy_side fd proxy_fd id))
socket_count-added false false fd proxy_fd id other ss = ground arith

module _ (l : Loop) (p : Proxy) (m : Message) (rest : List Message) (tracked : IsTracked l)
    (taken : l.messages ≡ m ∷ rest) where
  taken_tokens :
      (id : ℕ)
      → tokens l id ≡ tokens (handled_loop l p rest) id + (if session_of m == id then 1 else 0)
  unfolding occurrences
  taken_tokens id = ground (arith, taken)

  -- No token is left of the session, and no socket.
  pub spent :
      (id : ℕ)
      → (session_of m == id) ≡ true
      → (tokens (handled_loop l p rest) id ≡ 0) × (socket_count id l.sockets ≡ 0)
  spent id hit =
      let (once, apart, alive) = tracked.owned id in let count = taken_tokens id in ground arith

  others_owned :
      (id t k : ℕ)
      → (session_of m == id) ≡ false
      → KeepsOthers l.proxy p (session_of m)
      → t ≤ tokens (handled_loop l p rest) id
      → k ≤ socket_count id l.sockets
      → Owned t k (Has p.sessions id)
  others_owned id t k miss keeps less fewer =
      let apart : session_of m ≢ id = ground arith in
      let count = taken_tokens id in
      Owned-mono (tokens l id) (socket_count id l.sockets) t k (omega arith) fewer
        (KeepsOthers-Has l.proxy p (session_of m) id keeps apart) (tracked.owned id)

  moved_session :
      (id : ℕ) → (session_of m == id) ≡ true → Has p.sessions (session_of m) → Has p.sessions id
  moved_session id hit has =
      let same : session_of m ≡ id = ground arith in subst (Has p.sessions) same has

  effects-IsTracked :
      (i : Inputs) (effects : List Effect)
      → IsFresh p.sessions
      → KeepsOthers l.proxy p (session_of m)
      → Comes p (session_of m) effects
      → IsTracked (run_effects i (handled_loop l p rest) effects)
  unfolding run_effects run_effect dispatch
  effects-IsTracked i _ fresh keeps (ended fd text) = record {
    fresh = fresh;
    owned = λ id. elim (Bool-cases (session_of m == id)) [
      | inl hit ↦
          let (no_token, no_socket) = spent id hit in
          (omega arith, inl no_token, λ some_left. absurd (omega arith))
      | inr miss ↦ others_owned id _ _ miss keeps (omega arith) (omega arith)
    ];
  }
  effects-IsTracked i _ fresh keeps (connecting has) = record {
    fresh = fresh;
    owned = λ id.
        let more = occurrences-append job_session id l.pool.work (connector (session_of m)) in
        elim (Bool-cases (session_of m == id)) [
          | inl hit ↦
              let (no_token, no_socket) = spent id hit in
              (ground arith, inr no_socket, λ some_left. moved_session id hit has)
          | inr miss ↦ others_owned id _ _ miss keeps (ground arith) (ground arith)
        ];
  }
  effects-IsTracked i _ fresh keeps (failing has) = record {
    fresh = fresh;
    owned = λ id.
        let more =
          occurrences-append session_of id rest (connect_result (session_of m) minus_one false) in
        elim (Bool-cases (session_of m == id)) [
          | inl hit ↦
              let (no_token, no_socket) = spent id hit in
              (ground arith, inr no_socket, λ some_left. moved_session id hit has)
          | inr miss ↦ others_owned id _ _ miss keeps (ground arith) (ground arith)
        ];
  }
  effects-IsTracked i _ fresh keeps (connected fd proxy_fd has) = record {
    fresh = fresh;
    owned = λ id.
        let more =
          socket_count-added i.takes_client i.takes_proxy fd proxy_fd (session_of m) id l.sockets in
        elim (Bool-cases (session_of m == id)) [
          | inl hit ↦
              let (no_token, no_socket) = spent id hit in
              (ground arith, inl no_token, λ some_left. moved_session id hit has)
          | inr miss ↦ others_owned id _ _ miss keeps (ground arith) (ground arith)
        ];
  }

-- The session of the oldest message is there.
pub message_found :
    (l : Loop) (m : Message) (rest : List Message)
    → IsTracked l
    → l.messages ≡ m ∷ rest
    → Has l.proxy.sessions (session_of m)
message_found l m rest tracked taken =
    let (once, apart, alive) = tracked.owned (session_of m) in
    let count = taken_tokens l l.proxy m rest tracked taken (session_of m) in alive (ground arith)

pub on_command_socket-IsTracked :
    (i : Inputs) (l l' : Loop) (going : Bool)
    → IsTracked l
    → on_command_socket i l ≡ some (done (l', going))
    → IsTracked l'
unfolding on_command_socket handle_message
on_command_socket-IsTracked i l l' going tracked e = elim (List-cases l.messages) [
  | inl empty ↦ absurd (let shown = rw (empty, on_command_socket) at e in cc)
  | inr (m, rest, taken) ↦
      let shown : handle_message i l m rest ≡ done (l', going) =
        let shown' = rw (taken, on_command_socket) at e in cc in
      let (s, found) = message_found l m rest tracked taken in
      let ((p, effects), handled, ended') = >>=-eq-done (on_message i l.proxy m) _ shown in
      let h = on_message-Handled i l.proxy p m s effects tracked.fresh found handled in
      let result : run_effects i (handled_loop l p rest) effects ≡ l' = cc in
      subst IsTracked result
        (effects-IsTracked l p m rest tracked taken i effects h.fresh h.others h.comes)
]
