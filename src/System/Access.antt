-- ===== src/System/Access.antt =====
-- In every run, only allowed sessions reach their hosts.
use nermalproxy.Prelude.{
  ℕ, ◌≡◌, ◌⊎◌, inl, inr, refl, sym, subst, Bool, true, false, [], Option, some, arith, ◌==◌,
  get_elem?,
}
use nermalproxy.Auth.Users.{is_registered}
use nermalproxy.Gate.{Proxy, Moment}
use nermalproxy.Pool.{connector}
use nermalproxy.Gate.Admission.{HasNames}
use nermalproxy.Loop.{client}
use nermalproxy.Loop.Dispatching.{find_socket}
use nermalproxy.Relay.{ClientSocket}
use nermalproxy.Server.{OpenAnswers, ServerSocket}
use nermalproxy.Session.{new_session_manager}
use nermalproxy.System.{System, IsTracked, Step, event, timeout, wakes, starts, detects, connects}
use nermalproxy.System.Guard.{
  count, connects_to, count-get_elem?, HasAllowed, IsGuarded, IsGuarded-more, SameRules,
  SameRules-refl, SameRules-trans,
}
use nermalproxy.System.Letting.{IsStrict}
use nermalproxy.System.Runs.{
  Run, start, next, AllNew, Run-keeps, start_proxy-IsTracked, start_proxy_inv, started_loop,
  socket_count-start,
}
use nermalproxy.System.Secure.{Step-Secures, IncludesTime}
use nermalproxy.System.Starting.{start_proxy}
use nermalproxy.System.Tokens.{find_socket-counted}

-- The moments of the events of a run.
abbrev pub HappensIn : {s t : System} → Run s t → Moment → Type 0
HappensIn start m = ⊥
HappensIn (next r (event i fd going e)) m = HappensIn r m ⊎ (i.moment ≡ m)
HappensIn (next r _) m = HappensIn r m

HappensIn-next :
    {s t u : System} (r : Run s t) (st : Step t u) (m : Moment)
    → HappensIn r m
    → HappensIn (next r st) m
HappensIn-next r (event i fd going e) m h = inl h
HappensIn-next r (timeout now disk going e) m h = h
HappensIn-next r (wakes e) m h = h
HappensIn-next r (starts job e) m h = h
HappensIn-next r (detects k id bytes success a b e) m h = h
HappensIn-next r (connects k id net over actions a b e) m h = h

next-IncludesTime :
    {s t u : System} (r : Run s t) (st : Step t u) → IncludesTime (HappensIn (next r st)) st
next-IncludesTime r (event i fd going e) = inr refl
next-IncludesTime r (timeout now disk going e) = tt
next-IncludesTime r (wakes e) = tt
next-IncludesTime r (starts job e) = tt
next-IncludesTime r (detects k id bytes success a b e) = tt
next-IncludesTime r (connects k id net over actions a b e) = tt

-- What leads to hosts does so for allowed sessions, and the rules are the same.
Run-guards :
    {s t : System} (r : Run s t)
    → AllNew r
    → IsTracked s.loop
    → IsStrict s.loop.proxy
    → IsGuarded (λ m. ⊥) s.loop
    → IsGuarded (HappensIn r) t.loop × SameRules s.loop.proxy t.loop.proxy
Run-guards {s} start new tracked strict guarded = (guarded, SameRules-refl s.loop.proxy)
Run-guards {s} (next {t} {u} r st) new tracked strict guarded =
    let (guarded', same) = Run-guards r new.0 tracked strict guarded in
    let strict' =
      subst (λ a. (a.enabled ≡ true) × (is_registered a.users [] ≡ false)) (sym same.0) strict in
    let guarded_on =
      IsGuarded-more (HappensIn r) (HappensIn (next r st)) t.loop (HappensIn-next r st) guarded' in
    let (guarded'', same') =
      Step-Secures st new.1 (Run-keeps r new.0 tracked) strict' (next-IncludesTime r st)
        guarded_on in
    (guarded'', SameRules-trans s.loop.proxy t.loop.proxy u.loop.proxy same same')

started-IsGuarded :
    (fd : ℕ) (takes takes' : Bool) (s : ServerSocket) (command_fd : ℕ) (p : Proxy)
    → IsStrict p
    → IsGuarded (λ m. ⊥) (started_loop fd takes takes' s command_fd p)
      × (IsStrict (started_loop fd takes takes' s command_fd p).proxy
          × SameRules p (started_loop fd takes takes' s command_fd p).proxy)
unfolding count
started-IsGuarded fd takes takes' s command_fd p strict = (
  λ id some_left. absurd (let no_socket = socket_count-start takes takes' s id in omega arith),
  (strict, SameRules-refl p),
)

module _ (epoll : Option ℕ) (opens : OpenAnswers) (takes takes' : Bool) (command_fd : ℕ) (p : Proxy)
    (s t : System) (r : Run s t) (nobody : p.sessions ≡ new_session_manager)
    (started : start_proxy epoll opens takes takes' command_fd p ≡ some s.loop) (new : AllNew r)
    (enabled : p.auth.enabled ≡ true) (named : HasNames p.auth) where
  Run-IsGuarded : IsGuarded (HappensIn r) t.loop × SameRules p t.loop.proxy
  Run-IsGuarded =
      let (fd, server_socket, same) =
        start_proxy_inv epoll opens takes takes' command_fd p s.loop started in
      let (guarded, (strict, begun)) =
        subst (λ l. IsGuarded (λ m. ⊥) l × (IsStrict l.proxy × SameRules p l.proxy)) same
          (started-IsGuarded fd takes takes' server_socket command_fd p (enabled, named)) in
      let (guarded', kept) =
        Run-guards r new
          (start_proxy-IsTracked epoll opens takes takes' command_fd p s.loop nobody started) strict
          guarded in
      (guarded', SameRules-trans p s.loop.proxy t.loop.proxy begun kept)

  -- Let the proxy start without sessions, with authentication enabled and no user with the empty
  -- name, and run by any events of the loop and any steps of the workers, in any order, that end
  -- without a fault, where the system gives each new client a descriptor that no session uses. Then
  -- users, policies and blacklists are those of the start; and the session of every job that
  -- connects and of every client socket that has an event is there, and was let in: its request
  -- carries, in Base64 behind the header for credentials, the session's user name and the password
  -- that a user of that name has, or it has no such header and the client's address belongs to a
  -- user of that name; that user's schedule allows the moment of one of the events of the run; and
  -- all lists that apply to the user allow its host.
  pub Run-allowed :
      SameRules p t.loop.proxy
      × ((k id : ℕ)
          → get_elem? t.loop.pool.running k ≡ some (connector id)
          → HasAllowed (HappensIn r) t.loop.proxy id)
      × ((fd : ℕ) (c : ClientSocket)
          → find_socket t.loop.command_fd fd t.loop.sockets ≡ some (client c)
          → HasAllowed (HappensIn r) t.loop.proxy c.session_id)
  Run-allowed = (
    Run-IsGuarded.1,
    λ k id running.
        let self : (id == id) ≡ true = ground arith in
        let one =
          count-get_elem? (connects_to id) k t.loop.pool.running (connector id) running self in
        Run-IsGuarded.0 id (omega arith),
    λ fd c found.
        let one = find_socket-counted t.loop.command_fd fd t.loop.sockets c found in
        Run-IsGuarded.0 c.session_id (omega arith),
  )
