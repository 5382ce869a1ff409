-- ===== src/System/Steps.antt =====
-- Every step of the loop and the workers keeps track of the sessions.
use nermalproxy.Prelude.{
  ℕ, ◌≡◌, inl, inr, sym, subst, ap, ◌∙◌, Bool, true, List, [], ◌∷◌, some, arith, ltb, length, ◌>>=◌,
  Bool-cases, Option-cases, Outcome, done, >>=-eq-done,
}
use nermalproxy.Loop.{
  Socket, server, client, command, Loop, Inputs, max_sockets, prune_excess_connections,
  first_client,
}
use nermalproxy.Loop.Dispatching.{has_fd, find_socket, process_event, rotate, on_timeout}
use nermalproxy.Pool.{connector}
use nermalproxy.Stats.{Disk, GlobalStats}
use nermalproxy.Relay.{ClientSocket}
use nermalproxy.System.{
  System, Step, event, timeout, wakes, starts, detects, connects, IsTracked, Unused, UsesNew,
}
use nermalproxy.System.Clients.{on_server_socket-IsTracked, on_client-IsTracked}
use nermalproxy.System.Effects.{on_command_socket-IsTracked}
use nermalproxy.System.Workers.{
  wake-IsTracked, take_package-IsTracked, detects-IsTracked, connects-IsTracked, job_found,
}

-- The socket that is found has the descriptor.
pub found_fd :
    (command_fd fd : ℕ) (ss : List Socket) (c : ClientSocket)
    → find_socket command_fd fd ss ≡ some (client c)
    → c.socket_fd ≡ fd
unfolding find_socket has_fd
found_fd command_fd fd [] c h = absurd cc
found_fd command_fd fd (s ∷ ss) c h = elim (Bool-cases (has_fd command_fd fd s)) [
  | inl hit ↦
      let first : s ≡ client c = let shown = rw (hit, find_socket) at h in cc in
      let hit' : has_fd command_fd fd (client c) ≡ true =
        subst (λ x. has_fd command_fd fd x ≡ true) first hit in
      ground arith
  | inr miss ↦ found_fd command_fd fd ss c (rw (miss, find_socket) at h)
]

socket_event-IsTracked :
    (i : Inputs) (l l' : Loop) (fd : ℕ) (going : Bool) (s : Socket)
    → IsTracked l
    → Unused i l
    → find_socket l.command_fd fd l.sockets ≡ some s
    → process_event i l fd ≡ some (done (l', going))
    → IsTracked l'
unfolding process_event
socket_event-IsTracked i l l' fd going (server s) tracked unused found e =
    let shown = rw (found, process_event) at e in
    on_server_socket-IsTracked i l l' s going tracked unused cc
socket_event-IsTracked i l l' fd going (client c) tracked unused found e =
    let found' =
      subst (λ n. find_socket l.command_fd n l.sockets ≡ some (client c))
        (sym (found_fd l.command_fd fd l.sockets c found)) found in
    on_client-IsTracked i l l' c going tracked found' (rw (found, process_event) at e)
socket_event-IsTracked i l l' fd going command tracked unused found e =
    on_command_socket-IsTracked i l l' going tracked (rw (found, process_event) at e)

process_event-IsTracked :
    (i : Inputs) (l l' : Loop) (fd : ℕ) (going : Bool)
    → IsTracked l
    → Unused i l
    → process_event i l fd ≡ some (done (l', going))
    → IsTracked l'
unfolding process_event
process_event-IsTracked i l l' fd going tracked unused e =
    elim (Option-cases (find_socket l.command_fd fd l.sockets)) [
      | inl nobody ↦
          let shown = rw (nobody, process_event) at e in
          let same : l ≡ l' = cc in subst IsTracked same tracked
      | inr (s, found) ↦ socket_event-IsTracked i l l' fd going s tracked unused found e
    ]

-- A round without an event leaves the sockets, or does not end well.
pub prune_inv : (ss ss' : List Socket) → prune_excess_connections ss ≡ some (done ss') → ss ≡ ss'
unfolding prune_excess_connections
prune_inv ss ss' e = elim (Bool-cases (ltb max_sockets (length ss))) [
  | inr few ↦ let shown = rw (few, prune_excess_connections) at e in cc
  | inl many ↦ elim (Option-cases (first_client ss)) [
    | inl nobody ↦ absurd (let shown = rw (many, prune_excess_connections, nobody) at e in cc)
    | inr (c, found) ↦ absurd (let shown = rw (many, prune_excess_connections, found) at e in cc)
  ]
]

-- The loop after a round without an event.
abbrev pub quiet_loop : Loop → List Socket → GlobalStats → Loop
quiet_loop l ss g = record l { sockets = ss; proxy = record l.proxy { stats = g } }

quiet-IsTracked :
    (l : Loop) (ss : List Socket) (g : GlobalStats)
    → IsTracked l
    → l.sockets ≡ ss
    → IsTracked (quiet_loop l ss g)
quiet-IsTracked l ss g tracked same =
    let kept : IsTracked (quiet_loop l l.sockets g) = record {
      fresh = tracked.fresh;
      owned = tracked.owned;
    } in
    subst (λ x. IsTracked (quiet_loop l x g)) same kept

-- What a round without an event leaves, if it ends well.
pub on_timeout_inv :
    (l l' : Loop) (now : ℕ) (disk : Disk) (going : Bool)
    → on_timeout now disk l ≡ some (done (l', going))
    → (ss : List Socket) × (g : GlobalStats) × (l.sockets ≡ ss) × (quiet_loop l ss g ≡ l')
unfolding on_timeout
on_timeout_inv l l' now disk going e = elim (Option-cases (prune_excess_connections l.sockets)) [
  | inl stuck ↦ absurd (let shown = rw (stuck, on_timeout) at e in cc)
  | inr (result, ran) ↦
      let shown = rw (ran, on_timeout) at e in
      let g = rotate now disk l.proxy.stats in
      let bound : ◌≡◌ {A = Outcome (Loop × Bool)}
          (◌>>=◌ {B = Loop × Bool} result (λ ss. done (quiet_loop l ss g, true)))
          (done (l', going)) =
        cc in
      let (ss, ended, rest) = >>=-eq-done result _ bound in
      (ss, g, prune_inv l.sockets ss (ran ∙ ap (λ x. some x) ended), cc)
]

on_timeout-IsTracked :
    (l l' : Loop) (now : ℕ) (disk : Disk) (going : Bool)
    → IsTracked l
    → on_timeout now disk l ≡ some (done (l', going))
    → IsTracked l'
on_timeout-IsTracked l l' now disk going tracked e =
    let (ss, g, kept, same) = on_timeout_inv l l' now disk going e in
    subst IsTracked same (quiet-IsTracked l ss g tracked kept)

-- Each step of the loop or a worker keeps track of the sessions, if the system gives a new client
-- a descriptor that no session uses.
pub Step-IsTracked :
    {s s' : System} (step : Step s s') → UsesNew step → IsTracked s.loop → IsTracked s'.loop
Step-IsTracked {s} (event {l} i fd going e) unused tracked =
    process_event-IsTracked i s.loop l fd going tracked unused e
Step-IsTracked {s} (timeout {l} now disk going e) unused tracked =
    on_timeout-IsTracked s.loop l now disk going tracked e
Step-IsTracked {s} (wakes {pool} e) unused tracked = wake-IsTracked s.loop pool tracked e
Step-IsTracked {s} (starts {pool} job e) unused tracked =
    take_package-IsTracked s.loop pool job tracked e
Step-IsTracked {s} (detects {pool} {m} k id bytes success running ended e) unused tracked =
    detects-IsTracked s.loop m pool k id bytes success tracked running ended e
Step-IsTracked {s} (connects {pool} {cache} k id net over actions running ended e) unused tracked =
    let (session, found) = job_found s.loop k (connector id) tracked running in
    connects-IsTracked s.loop session pool k id net over s.cache cache actions tracked found running
      ended e
