-- ===== src/System/Clearing.antt =====
-- The other steps lead only allowed sessions to their hosts.
use nermalproxy.Prelude.{
  ℕ, ◌+◌, ◌≤◌, ◌≡◌, refl, inl, inr, ap, Bool, true, List, [], ◌∷◌, ◌++◌, none, some, arith,
  if◌then◌else◌, get_elem?, Option-cases,
}
use nermalproxy.CText.{Bytes}
use nermalproxy.Gate.{Proxy, Moment}
use nermalproxy.Loop.{client, Loop, Inputs, change_client}
use nermalproxy.Loop.Dispatching.{find_socket}
use nermalproxy.Pool.{WorkPackage, detector, dispatch, ThreadPool, remove_at, end_job}
use nermalproxy.Messenger.{Message}
use nermalproxy.Relay.{ClientSocket, Relayed}
use nermalproxy.Relay.Sessions.{Keeps}
use nermalproxy.Session.{
  Session, SessionManager, new_session, find_id, find_client, get_session_for_client, get_session,
  create_session, set_client_address,
}
use nermalproxy.Session.Changes.{HasView}
use nermalproxy.System.{after_worker}
use nermalproxy.System.Clients.{accepted_loop, relayed_loop}
use nermalproxy.System.Guard.{
  count, connects_to, succeeds_for, connections, HasAllowed, IsGuarded, count-append,
  count-remove_at, IsAllowed-same, IsAllowed-rules,
}
use nermalproxy.System.Tokens.{socket_count-store_client}

-- A session is found as before behind a new one, if only that has the descriptor.
find_id-accepted :
    (ip : Bytes) (fd id : ℕ) (ss : List Session) (n s : Session)
    → find_client ss fd ≡ none
    → find_id ss id ≡ some s
    → find_id (change_client (set_client_address ip) (ss ++ n ∷ []) fd) id ≡ some s
unfolding find_id find_client change_client
find_id-accepted ip fd id [] n s unused found = cc
find_id-accepted ip fd id (x ∷ ss) n s unused found =
    ground (arith, find_id-accepted ip fd id ss n s)

pub accepted-IsGuarded :
    {moments : Moment → Type 0} (i : Inputs) (l : Loop) (fd : ℕ) (ip : Bytes)
    → IsGuarded moments l
    → get_session_for_client l.proxy.sessions fd ≡ none
    → IsGuarded moments (accepted_loop i l fd ip)
unfolding create_session dispatch
accepted-IsGuarded i l fd ip guarded unused id some_left =
    let more = count-append (connects_to id) l.pool.work (detector l.proxy.sessions.next_id) in
    let (s, found, allowed) = guarded id (omega arith) in
    (
      s,
      find_id-accepted ip fd id l.proxy.sessions.session_list
          (new_session i.garbage i.moment.now fd l.proxy.sessions.next_id) s unused found,
      IsAllowed-rules l.proxy (accepted_loop i l fd ip).proxy s (refl, (refl, refl)) allowed,
    )

-- The sessions with the views that they had.
viewed_allowed :
    {moments : Moment → Type 0} (p p' : Proxy) (id : ℕ)
    → p'.auth ≡ p.auth
    → p'.policies ≡ p.policies
    → p'.blacklists ≡ p.blacklists
    → ((s : Session) → get_session p.sessions id ≡ some s → HasView p'.sessions id s)
    → HasAllowed moments p id
    → HasAllowed moments p' id
viewed_allowed p p' id auth policies blacklists views (s, found, allowed) =
    let (s', found', view) = views s found in
    (s', found', IsAllowed-same p p' s s' auth policies blacklists view allowed)

pub relayed-IsGuarded :
    {moments : Moment → Type 0} (l : Loop) (c c' : ClientSocket) (r : Relayed)
    → IsGuarded moments l
    → find_socket l.command_fd c.socket_fd l.sockets ≡ some (client c)
    → Keeps l.proxy c r c'
    → IsGuarded moments (relayed_loop l c r c')
relayed-IsGuarded l c c' r guarded found keeps id some_left =
    let same =
      socket_count-store_client l.command_fd c.socket_fd id l.sockets c c' found keeps.same in
    viewed_allowed l.proxy r.proxy id keeps.auth keeps.policies keeps.blacklists (keeps.views id)
      (guarded id (omega arith))

-- What the removal of a job leaves.
pub end_job-count :
    (test : WorkPackage → Bool) (p pool : ThreadPool) (k : ℕ) (job : WorkPackage)
    → get_elem? p.running k ≡ some job
    → end_job p k ≡ some pool
    → (pool.work ≡ p.work)
      × (count test p.running ≡ (if test job then 1 else 0) + count test pool.running)
unfolding end_job
end_job-count test p pool k job running e = elim (Option-cases (remove_at p.running k)) [
  | inl gone ↦ absurd (ground arith)
  | inr (rest, left) ↦
      let fewer = count-remove_at test k p.running rest job running left in
      (ground arith, ground arith)
]

-- A worker that sends one message, which leads on no further than its job did.
pub after_worker-IsGuarded :
    {moments : Moment → Type 0} (l : Loop) (m : SessionManager) (pool : ThreadPool) (sent : Message)
    (k : ℕ) (job : WorkPackage)
    → IsGuarded moments l
    → get_elem? l.pool.running k ≡ some job
    → end_job l.pool k ≡ some pool
    → ((id : ℕ) → succeeds_for id sent ≡ true → connects_to id job ≡ true)
    → ((id : ℕ)
        → 1 ≤ connections l id
        → HasAllowed moments l.proxy id
        → HasAllowed moments (record l.proxy { sessions = m }) id)
    → IsGuarded moments (after_worker l m pool (sent ∷ []))
after_worker-IsGuarded l m pool sent k job guarded running ended leads keeps id some_left =
    let (work, fewer) = end_job-count (connects_to id) l.pool pool k job running ended in
    let more = count-append (succeeds_for id) l.messages sent in
    let work' = ap (count (connects_to id)) work in
    let leads' = leads id in
    let before : 1 ≤ connections l id = ground arith in keeps id before (guarded id before)
