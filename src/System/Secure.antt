-- ===== src/System/Secure.antt =====
-- Every step leads only allowed sessions to their hosts.
use nermalproxy.Prelude.{
  ℕ, ◌+◌, ◌≤◌, ◌≡◌, inl, inr, refl, sym, subst, ◌∙◌, Bool, true, false, List, [], ◌∷◌, some, arith,
  ◌==◌, get_elem?, Bool-cases, Option-cases, done,
}
use nermalproxy.CText.{Bytes}
use nermalproxy.Connect.{Network, Action, async_connector}
use nermalproxy.Detection.{async_detector}
use nermalproxy.Gate.{Moment}
use nermalproxy.HostCache.{HostInfo}
use nermalproxy.Loop.{Socket, server, client, command, Loop, Inputs}
use nermalproxy.Loop.Dispatching.{find_socket, process_event, on_timeout}
use nermalproxy.Messenger.{detect_result, connect_result}
use nermalproxy.Pool.{WorkPackage, detector, connector, ThreadPool, wake, take_package, end_job}
use nermalproxy.Session.{Session, SessionManager, get_session}
use nermalproxy.Stats.{Disk}
use nermalproxy.System.{
  System, posted, after_worker, Step, event, timeout, wakes, starts, detects, connects, IsTracked,
  Unused, UsesNew,
}
use nermalproxy.System.Clearing.{
  end_job-count, accepted-IsGuarded, relayed-IsGuarded, after_worker-IsGuarded,
}
use nermalproxy.System.Clients.{on_server_socket_inv, on_client_inv}
use nermalproxy.System.Guard.{
  SameRules, SameRules-refl, count, connects_to, succeeds_for, connections, IsGuarded,
  IsAllowed-rules, jobs_bound, messages_bound,
}
use nermalproxy.System.Letting.{IsStrict, on_command_socket-IsGuarded}
use nermalproxy.System.Steps.{found_fd, on_timeout_inv, quiet_loop}
use nermalproxy.System.Workers.{detector_keeps, posted-Reports, end_job-work, job_found}
use nermalproxy.Connect.Results.{async_connector-Reports}

-- What leads to hosts does so for allowed sessions only, under the same authentication.
abbrev pub Secures : (Moment → Type 0) → Loop → Loop → Type 0
Secures moments l l' = IsGuarded moments l' × SameRules l.proxy l'.proxy

socket_event-Secures :
    {moments : Moment → Type 0} (i : Inputs) (l l' : Loop) (fd : ℕ) (going : Bool) (s : Socket)
    → IsTracked l
    → Unused i l
    → IsStrict l.proxy
    → moments i.moment
    → IsGuarded moments l
    → find_socket l.command_fd fd l.sockets ≡ some s
    → process_event i l fd ≡ some (done (l', going))
    → Secures moments l l'
unfolding process_event
socket_event-Secures {moments} i l l' fd going (server s) tracked unused strict now guarded found
      e =
    let shown = rw (found, process_event) at e in
    elim (on_server_socket_inv i l l' s going unused cc) [
      | inl same ↦ subst (Secures moments l) same (guarded, SameRules-refl l.proxy)
      | inr (fd', ip, new, same) ↦
          subst (Secures moments l) same
            (accepted-IsGuarded i l fd' ip guarded new, SameRules-refl l.proxy)
    ]
socket_event-Secures {moments} i l l' fd going (client c) tracked unused strict now guarded found
      e =
    let found' =
      subst (λ n. find_socket l.command_fd n l.sockets ≡ some (client c))
        (sym (found_fd l.command_fd fd l.sockets c found)) found in
    let (c', r, keeps, same) =
      on_client_inv i l l' c going tracked (rw (found, process_event) at e) in
    subst (Secures moments l) same (
      relayed-IsGuarded l c c' r guarded found' keeps,
      (keeps.auth, (keeps.policies, keeps.blacklists)),
    )
socket_event-Secures {moments} i l l' fd going command tracked unused strict now guarded found e =
    on_command_socket-IsGuarded i l l' going tracked strict now guarded
      (rw (found, process_event) at e)

event-Secures :
    {moments : Moment → Type 0} (i : Inputs) (l l' : Loop) (fd : ℕ) (going : Bool)
    → IsTracked l
    → Unused i l
    → IsStrict l.proxy
    → moments i.moment
    → IsGuarded moments l
    → process_event i l fd ≡ some (done (l', going))
    → Secures moments l l'
unfolding process_event
event-Secures {moments} i l l' fd going tracked unused strict now guarded e =
    elim (Option-cases (find_socket l.command_fd fd l.sockets)) [
      | inl nobody ↦
          let shown = rw (nobody, process_event) at e in
          let same : l ≡ l' = cc in subst (Secures moments l) same (guarded, SameRules-refl l.proxy)
      | inr (s, found) ↦
          socket_event-Secures i l l' fd going s tracked unused strict now guarded found e
    ]

-- While a detector works for a session, nothing leads the session on.
detector_alone :
    (l : Loop) (pool : ThreadPool) (k id : ℕ)
    → IsTracked l
    → get_elem? l.pool.running k ≡ some (detector id)
    → end_job l.pool k ≡ some pool
    → connections l id ≡ 0
detector_alone l pool k id tracked running ended =
    let (once, apart, alive) = tracked.owned id in
    let (work, fewer) = end_job-work l.pool pool k (detector id) id running ended in
    let (work', fewer') =
      end_job-count (connects_to id) l.pool pool k (detector id) running ended in
    let jobs = jobs_bound id l.pool.work in
    let left = jobs_bound id pool.running in
    let messages = messages_bound id l.messages in ground arith

detects-Secures :
    {moments : Moment → Type 0} (l : Loop) (m : SessionManager) (pool : ThreadPool) (k id : ℕ)
    (bytes : Bytes) (success : Bool)
    → IsTracked l
    → IsGuarded moments l
    → get_elem? l.pool.running k ≡ some (detector id)
    → end_job l.pool k ≡ some pool
    → async_detector l.proxy.sessions id bytes ≡ done (m, success)
    → Secures moments l (after_worker l m pool (detect_result id success ∷ []))
detects-Secures {moments} l m pool k id bytes success tracked guarded running ended e =
    let (fresh, keeps, others) =
      detector_keeps l.proxy.sessions m id bytes success e tracked.fresh in
    let alone = detector_alone l pool k id tracked running ended in
    (
      after_worker-IsGuarded l m pool (detect_result id success) k (detector id) guarded running
          ended (λ other leads. absurd cc)
          (λ other before allowed. elim (Bool-cases (id == other)) [
            | inl hit ↦
                let same : other ≡ id = ground arith in
                absurd (let before' = subst (λ n. 1 ≤ connections l n) same before in omega arith)
            | inr miss ↦
                let (s, found, rules) = allowed in
                (
                  s,
                  others other (ground arith) ∙ found,
                  IsAllowed-rules l.proxy (record l.proxy { sessions = m }) s (refl, (refl, refl))
                      rules,
                )
          ]),
      (refl, (refl, refl)),
    )

-- A message that a session is connected comes from the job that connects it.
succeeds_connects :
    (id fd other : ℕ) (success : Bool)
    → succeeds_for other (connect_result id fd success) ≡ true
    → connects_to other (connector id) ≡ true
succeeds_connects id fd other true leads = leads
succeeds_connects id fd other false leads = absurd cc

connects-Secures :
    {moments : Moment → Type 0} (l : Loop) (s : Session) (pool : ThreadPool) (k id : ℕ)
    (net : Network) (over : SessionManager) (cache cache' : List HostInfo) (actions : List Action)
    → IsGuarded moments l
    → get_session l.proxy.sessions id ≡ some s
    → get_elem? l.pool.running k ≡ some (connector id)
    → end_job l.pool k ≡ some pool
    → async_connector net over l.proxy.sessions cache id ≡ done (cache', actions)
    → Secures moments l (after_worker l l.proxy.sessions pool (posted actions))
connects-Secures {moments} l s pool k id net over cache cache' actions guarded found running ended
      e =
    let (r, resolved, reported) =
      (async_connector-Reports net over l.proxy.sessions s id cache cache' actions found e) in
    let (fd, success, one) = posted-Reports net s id r.addresses actions reported in
    subst (λ sent. Secures moments l (after_worker l l.proxy.sessions pool sent)) (sym one)
      (
        after_worker-IsGuarded l l.proxy.sessions pool (connect_result id fd success) k
            (connector id) guarded running ended
            (λ other leads. succeeds_connects id fd other success leads)
            (λ other before allowed. allowed),
        (refl, (refl, refl)),
      )

timeout-Secures :
    {moments : Moment → Type 0} (l l' : Loop) (now : ℕ) (disk : Disk) (going : Bool)
    → IsGuarded moments l
    → on_timeout now disk l ≡ some (done (l', going))
    → Secures moments l l'
timeout-Secures {moments} l l' now disk going guarded e =
    let (ss, g, kept, same) = on_timeout_inv l l' now disk going e in
    let quiet : Secures moments l (quiet_loop l l.sockets g) = (
      λ id some_left.
          let (s, found, rules) = guarded id some_left in
          (
            s,
            found,
            IsAllowed-rules l.proxy (record l.proxy { stats = g }) s (refl, (refl, refl)) rules,
          ),
      (refl, (refl, refl)),
    ) in
    subst (Secures moments l) same (subst (λ x. Secures moments l (quiet_loop l x g)) kept quiet)

pool-Secures :
    {moments : Moment → Type 0} (l : Loop) (pool : ThreadPool)
    → IsGuarded moments l
    → ((id : ℕ)
        → count (connects_to id) pool.work + count (connects_to id) pool.running
          ≡ count (connects_to id) l.pool.work + count (connects_to id) l.pool.running)
    → Secures moments l (record l { pool = pool })
pool-Secures {moments} l pool guarded same =
    (λ id some_left. let same' = same id in guarded id (omega arith), (refl, (refl, refl)))

wake-Secures :
    {moments : Moment → Type 0} (l : Loop) (pool : ThreadPool)
    → IsGuarded moments l
    → wake l.pool ≡ some pool
    → Secures moments l (record l { pool = pool })
unfolding wake
wake-Secures {moments} l pool guarded e = pool-Secures l pool guarded (λ id. ground arith)

take_package-Secures :
    {moments : Moment → Type 0} (l : Loop) (pool : ThreadPool) (job : WorkPackage)
    → IsGuarded moments l
    → take_package l.pool ≡ some (done (pool, job))
    → Secures moments l (record l { pool = pool })
unfolding take_package count
take_package-Secures {moments} l pool job guarded e =
    pool-Secures l pool guarded (λ id. ground arith)

-- The moment of an event is one of the moments.
abbrev pub IncludesTime : (Moment → Type 0) → {s s' : System} → Step s s' → Type 0
IncludesTime moments (event i fd going e) = moments i.moment
IncludesTime moments _ = Unit {0}

-- Each step leads only allowed sessions on, if the system gives a new client a descriptor that no
-- session uses, and the sessions were kept track of.
pub Step-Secures :
    {moments : Moment → Type 0} {s s' : System} (step : Step s s')
    → UsesNew step
    → IsTracked s.loop
    → IsStrict s.loop.proxy
    → IncludesTime moments step
    → IsGuarded moments s.loop
    → Secures moments s.loop s'.loop
Step-Secures {moments} {s} (event {l} i fd going e) unused tracked strict now guarded =
    event-Secures i s.loop l fd going tracked unused strict now guarded e
Step-Secures {moments} {s} (timeout {l} at_time disk going e) unused tracked strict now guarded =
    timeout-Secures s.loop l at_time disk going guarded e
Step-Secures {moments} {s} (wakes {pool} e) unused tracked strict now guarded =
    wake-Secures s.loop pool guarded e
Step-Secures {moments} {s} (starts {pool} job e) unused tracked strict now guarded =
    take_package-Secures s.loop pool job guarded e
Step-Secures {moments} {s} (detects {pool} {m} k id bytes success running ended e) unused tracked
      strict now guarded =
    detects-Secures s.loop m pool k id bytes success tracked guarded running ended e
Step-Secures {moments} {s} (connects {pool} {cache} k id net over actions running ended e) unused
      tracked strict now guarded =
    let (session, found) = job_found s.loop k (connector id) tracked running in
    connects-Secures s.loop session pool k id net over s.cache cache actions guarded found running
      ended e
