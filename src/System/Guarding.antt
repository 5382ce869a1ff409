-- ===== src/System/Guarding.antt =====
-- The handlers of messages lead only allowed sessions to their hosts.
use nermalproxy.Prelude.{
  ℕ, ◌≤◌, ◌≡◌, ◌≢◌, inl, inr, refl, subst, ◌∙◌, true, false, List, [], ◌∷◌, arith, ◌==◌, Bool-cases,
}
use nermalproxy.Gate.{Proxy, Moment, Effect, dispatch_connect, add_sockets}
use nermalproxy.Gate.Others.{KeepsOthers}
use nermalproxy.Loop.{Loop, Inputs, run_effect, run_effects}
use nermalproxy.Messenger.{Message, connect_result, minus_one}
use nermalproxy.Messenger.Layout.{session_of}
use nermalproxy.Pool.{connector, dispatch}
use nermalproxy.System.{IsTracked}
use nermalproxy.System.Effects.{handled_loop, socket_count-added, spent}
use nermalproxy.System.Guard.{
  count, connects_to, succeeds_for, connections, HasAllowed, IsGuarded, count-append, jobs_bound,
  messages_bound, IsAllowed-rules,
}
use nermalproxy.System.Messages.{Comes, ended, connecting, failing, connected}

-- A session that an operation has left alone is still allowed.
pub others_allowed :
    {moments : Moment → Type 0} (p p' : Proxy) (id other : ℕ)
    → KeepsOthers p p' id
    → id ≢ other
    → HasAllowed moments p other
    → HasAllowed moments p' other
others_allowed p p' id other keeps apart (s, found, allowed) = (
  s,
  keeps.found other apart ∙ found,
  IsAllowed-rules p p' s (keeps.auth, (keeps.policies, keeps.blacklists)) allowed,
)

-- Effects that lead the session on do so for a session that is allowed.
pub record LeadsAllowed (moments : Moment → Type 0) (p : Proxy) (id : ℕ) (effects : List Effect)
    : Type 0 where
  pub dispatched : effects ≡ dispatch_connect id ∷ [] → HasAllowed moments p id
  pub opened :
      (fd proxy_fd : ℕ) → effects ≡ add_sockets fd proxy_fd id ∷ [] → HasAllowed moments p id

module _ {moments : Moment → Type 0} (l : Loop) (p : Proxy) (m : Message) (rest : List Message)
    (tracked : IsTracked l) (taken : l.messages ≡ m ∷ rest) (guarded : IsGuarded moments l) where
  spent_connections :
      (id : ℕ) → (session_of m == id) ≡ true → connections (handled_loop l p rest) id ≡ 0
  spent_connections id hit =
      let (no_token, no_socket) = spent l p m rest tracked taken id hit in
      let work = jobs_bound id l.pool.work in
      let running = jobs_bound id l.pool.running in
      let messages = messages_bound id rest in omega arith

  fewer_connections : (id : ℕ) → connections (handled_loop l p rest) id ≤ connections l id
  unfolding count
  fewer_connections id = rw taken (omega arith)

  other_guarded :
      (id n : ℕ)
      → (session_of m == id) ≡ false
      → KeepsOthers l.proxy p (session_of m)
      → n ≤ connections l id
      → 1 ≤ n
      → HasAllowed moments p id
  other_guarded id n miss keeps fewer some_left =
      let apart : session_of m ≢ id = ground arith in
      others_allowed l.proxy p (session_of m) id keeps apart (guarded id (omega arith))

  moved_allowed :
      (id : ℕ)
      → (session_of m == id) ≡ true
      → HasAllowed moments p (session_of m)
      → HasAllowed moments p id
  moved_allowed id hit allowed =
      let same : session_of m ≡ id = ground arith in subst (HasAllowed moments p) same allowed

  pub effects-IsGuarded :
      (i : Inputs) (effects : List Effect)
      → KeepsOthers l.proxy p (session_of m)
      → Comes p (session_of m) effects
      → LeadsAllowed moments p (session_of m) effects
      → IsGuarded moments (run_effects i (handled_loop l p rest) effects)
  unfolding run_effects run_effect dispatch
  effects-IsGuarded i _ keeps (ended fd text) leads id some_left =
      let fewer = fewer_connections id in
      elim (Bool-cases (session_of m == id)) [
        | inl hit ↦ absurd (let nothing = spent_connections id hit in omega arith)
        | inr miss ↦ other_guarded id _ miss keeps fewer some_left
      ]
  effects-IsGuarded i _ keeps (connecting has) leads id some_left =
      let fewer = fewer_connections id in
      let more = count-append (connects_to id) l.pool.work (connector (session_of m)) in
      elim (Bool-cases (session_of m == id)) [
        | inl hit ↦ moved_allowed id hit (leads.dispatched refl)
        | inr miss ↦ other_guarded id _ miss keeps (ground arith) some_left
      ]
  effects-IsGuarded i _ keeps (failing has) leads id some_left =
      let fewer = fewer_connections id in
      let more =
        count-append (succeeds_for id) rest (connect_result (session_of m) minus_one false) in
      elim (Bool-cases (session_of m == id)) [
        | inl hit ↦ absurd (let nothing = spent_connections id hit in ground arith)
        | inr miss ↦ other_guarded id _ miss keeps (ground arith) some_left
      ]
  effects-IsGuarded i _ keeps (connected fd proxy_fd has) leads id some_left =
      let fewer = fewer_connections id in
      let more =
        socket_count-added i.takes_client i.takes_proxy fd proxy_fd (session_of m) id l.sockets in
      elim (Bool-cases (session_of m == id)) [
        | inl hit ↦ moved_allowed id hit (leads.opened fd proxy_fd refl)
        | inr miss ↦ other_guarded id _ miss keeps (ground arith) some_left
      ]
