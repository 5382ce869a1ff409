-- ===== src/System/Workers.antt =====
-- The steps of the workers: a job is taken, and a message is sent for it.
use nermalproxy.Prelude.{
  ℕ, ◌+◌, ◌≡◌, ◌≢◌, inl, inr, refl, sym, subst, ap, ◌∙◌, Bool, true, false, List, [], ◌∷◌, ◌++◌,
  some, arith, ◌==◌, if◌then◌else◌, get_elem?, Option-cases, Bool-cases, done, >>=-eq-done,
}
use nermalproxy.CText.{Bytes, codes}
use nermalproxy.Connect.{
  Network, Action, send, keep_alive, set_timeouts, post, lacks_header, greet, keep_alives,
  is_skipped, success_text, async_connector,
}
use nermalproxy.Connect.Attempts.{attempts_to}
use nermalproxy.Connect.Results.{Reports, async_connector-Reports}
use nermalproxy.Detection.{detect, store_request, async_detector}
use nermalproxy.HostCache.{HostInfo}
use nermalproxy.Loop.{Loop}
use nermalproxy.Messenger.{Message, detect_result, connect_result, minus_one}
use nermalproxy.Messenger.Layout.{session_of}
use nermalproxy.Pool.{
  WorkPackage, detector, connector, ThreadPool, wake, take_package, remove_at, end_job,
}
use nermalproxy.Session.{Session, SessionManager, get_session, change_session}
use nermalproxy.Session.Changes.{
  Has, change_session-Has, change_session-IsFresh, get_session-change_ne,
}
use nermalproxy.Session.Ids.{IsFresh}
use nermalproxy.System.{
  posted, after_worker, job_session, occurrences, tokens, socket_count, IsTracked,
}
use nermalproxy.System.Tokens.{
  occurrences-append, occurrences-remove_at, occurrences-get_elem?, Owned-mono,
}

-- The pool after a step that no token is lost or gained by.
pool-IsTracked :
    (l : Loop) (pool : ThreadPool)
    → IsTracked l
    → ((id : ℕ)
        → occurrences job_session id pool.work + occurrences job_session id pool.running
          ≡ occurrences job_session id l.pool.work + occurrences job_session id l.pool.running)
    → IsTracked (record l { pool = pool })
pool-IsTracked l pool tracked same = record {
  fresh = tracked.fresh;
  owned = λ id.
      let same' = same id in
      Owned-mono (tokens l id) (socket_count id l.sockets) _ _ (omega arith) (omega arith)
        (λ has. has) (tracked.owned id);
}

pub wake-IsTracked :
    (l : Loop) (pool : ThreadPool)
    → IsTracked l
    → wake l.pool ≡ some pool
    → IsTracked (record l { pool = pool })
unfolding wake
wake-IsTracked l pool tracked e = pool-IsTracked l pool tracked (λ id. ground arith)

pub take_package-IsTracked :
    (l : Loop) (pool : ThreadPool) (job : WorkPackage)
    → IsTracked l
    → take_package l.pool ≡ some (done (pool, job))
    → IsTracked (record l { pool = pool })
unfolding take_package occurrences
take_package-IsTracked l pool job tracked e = pool-IsTracked l pool tracked (λ id. ground arith)

-- What the removal of a job leaves.
pub end_job-work :
    (p pool : ThreadPool) (k : ℕ) (job : WorkPackage) (id : ℕ)
    → get_elem? p.running k ≡ some job
    → end_job p k ≡ some pool
    → (pool.work ≡ p.work)
      × (occurrences job_session id p.running
          ≡ (if job_session job == id then 1 else 0) + occurrences job_session id pool.running)
unfolding end_job
end_job-work p pool k job id running e = elim (Option-cases (remove_at p.running k)) [
  | inl gone ↦ absurd (ground arith)
  | inr (rest, left) ↦
      let fewer = occurrences-remove_at job_session id k p.running rest job running left in
      (ground arith, ground arith)
]

-- A worker that has sent one message for its session, and has kept all sessions.
after_worker-IsTracked :
    (l : Loop) (m : SessionManager) (pool : ThreadPool) (sent : Message) (k : ℕ) (job : WorkPackage)
    → IsTracked l
    → get_elem? l.pool.running k ≡ some job
    → end_job l.pool k ≡ some pool
    → session_of sent ≡ job_session job
    → IsFresh m
    → ((id : ℕ) → Has l.proxy.sessions id → Has m id)
    → IsTracked (after_worker l m pool (sent ∷ []))
after_worker-IsTracked l m pool sent k job tracked running ended same fresh keeps = record {
  fresh = fresh;
  owned = λ id.
      let (work, fewer) = end_job-work l.pool pool k job id running ended in
      let more = occurrences-append session_of id l.messages sent in
      let work' = ap (occurrences job_session id) work in
      Owned-mono (tokens l id) (socket_count id l.sockets) _ _ (ground arith) (omega arith)
        (keeps id) (tracked.owned id);
}

-- All sessions are there, and those other than one are as before.
abbrev Kept : SessionManager → ℕ → SessionManager → Type 0
Kept m id m' =
    IsFresh m'
    × ((other : ℕ) → Has m other → Has m' other)
    × ((other : ℕ) → id ≢ other → get_session m' other ≡ get_session m other)

-- What the detector leaves of the sessions.
pub detector_keeps :
    (m m' : SessionManager) (id : ℕ) (bytes : Bytes) (success : Bool)
    → async_detector m id bytes ≡ done (m', success)
    → IsFresh m
    → Kept m id m'
unfolding async_detector store_request
detector_keeps m m' id bytes success e fresh = elim (Option-cases (get_session m id)) [
  | inl gone ↦ absurd (let shown = rw (gone, async_detector) at e in cc)
  | inr (s, found) ↦
      let shown = rw (found, async_detector) at e in
      let (o, detected, rest) = >>=-eq-done (detect bytes) _ shown in
      elim (Option-cases o) [
        | inl failed ↦
            let rest' = rw failed at rest in
            let same : m ≡ m' = cc in
            subst (Kept m id) same (fresh, λ other has. has, λ other apart. refl)
        | inr (r, hit) ↦
            let rest' = rw hit at rest in
            let same : change_session (store_request r) m id ≡ m' = cc in
            subst (Kept m id) same (
              change_session-IsFresh (store_request r) (λ x. refl) m id fresh,
              λ other has. change_session-Has (store_request r) (λ x. refl) m id other has,
              λ other apart. get_session-change_ne (store_request r) (λ x. refl) m id other apart,
            )
      ]
]

pub detects-IsTracked :
    (l : Loop) (m : SessionManager) (pool : ThreadPool) (k id : ℕ) (bytes : Bytes) (success : Bool)
    → IsTracked l
    → get_elem? l.pool.running k ≡ some (detector id)
    → end_job l.pool k ≡ some pool
    → async_detector l.proxy.sessions id bytes ≡ done (m, success)
    → IsTracked (after_worker l m pool (detect_result id success ∷ []))
detects-IsTracked l m pool k id bytes success tracked running ended e =
    let (fresh, keeps, others) =
      detector_keeps l.proxy.sessions m id bytes success e tracked.fresh in
    after_worker-IsTracked l m pool (detect_result id success) k (detector id) tracked running ended
      refl fresh keeps

posted-attempts_to :
    (net : Network) (port : ℕ) (hs : List HostInfo) (rest : List Action)
    → posted (attempts_to net port hs ++ rest) ≡ posted rest
unfolding posted attempts_to
posted-attempts_to net port [] rest = refl
posted-attempts_to net port (h ∷ hs) rest = elim (Bool-cases (is_skipped net h)) [
  | inl skipped ↦ rw skipped (posted-attempts_to net port hs rest)
  | inr tried ↦ rw tried (posted-attempts_to net port hs rest)
]

posted_options :
    (one two : Bool) (fd client_fd : ℕ) (m : Message)
    → posted (
        ((if one then keep_alive fd ∷ [] else [])
          ++ (if two then keep_alive client_fd ∷ [] else []))
        ++ set_timeouts fd ∷ post m ∷ [])
      ≡ m ∷ []
unfolding posted
posted_options true true fd client_fd m = refl
posted_options true false fd client_fd m = refl
posted_options false true fd client_fd m = refl
posted_options false false fd client_fd m = refl

posted_greeting :
    (transparent : Bool) (fd client_fd : ℕ) (request answer : Bytes) (rest : List Action)
    → posted ((if transparent then send fd request else send client_fd answer) ∷ rest) ≡ posted rest
unfolding posted
posted_greeting true fd client_fd request answer rest = refl
posted_greeting false fd client_fd request answer rest = refl

posted-connected :
    (s : Session) (fd : ℕ) (m : Message)
    → posted ((greet s fd ∷ keep_alives s fd) ++ set_timeouts fd ∷ post m ∷ []) ≡ m ∷ []
unfolding greet keep_alives
posted-connected s fd m =
    posted_greeting s.transparent fd s.client_fd s.request success_text
      (keep_alives s fd ++ set_timeouts fd ∷ post m ∷ [])
    ∙ posted_options (lacks_header s.request (codes "Connection: keep-alive"))
        (lacks_header s.request (codes "Proxy-Connection: keep-alive")) fd s.client_fd m

-- The connecting worker sends one message for its session.
pub posted-Reports :
    (net : Network) (s : Session) (id : ℕ) (hs : List HostInfo) (actions : List Action)
    → Reports net s id hs actions
    → (fd : ℕ) × (success : Bool) × (posted actions ≡ connect_result id fd success ∷ [])
unfolding posted
posted-Reports net s id hs actions (inl (closed, e)) = (minus_one, false, ap posted e)
posted-Reports net s id hs actions (inr (inl (failed, e))) = (
  minus_one,
  false,
  ap posted e ∙ posted-attempts_to net s.port hs (post (connect_result id minus_one false) ∷ []),
)
posted-Reports net s id hs actions (inr (inr (fd, opened, c, e))) = (
  fd,
  true,
  ap posted e
      ∙ posted-attempts_to net s.port (c.front ++ c.chosen ∷ []) _
      ∙ posted-connected s fd (connect_result id fd true),
)

pub connects-IsTracked :
    (l : Loop) (s : Session) (pool : ThreadPool) (k id : ℕ) (net : Network) (later : SessionManager)
    (cache cache' : List HostInfo) (actions : List Action)
    → IsTracked l
    → get_session l.proxy.sessions id ≡ some s
    → get_elem? l.pool.running k ≡ some (connector id)
    → end_job l.pool k ≡ some pool
    → async_connector net later l.proxy.sessions cache id ≡ done (cache', actions)
    → IsTracked (after_worker l l.proxy.sessions pool (posted actions))
connects-IsTracked l s pool k id net later cache cache' actions tracked found running ended' e =
    let (r, resolved, reported) =
      (async_connector-Reports net later l.proxy.sessions s id cache cache' actions found e) in
    let (fd, success, one) = posted-Reports net s id r.addresses actions reported in
    subst (λ sent. IsTracked (after_worker l l.proxy.sessions pool sent)) (sym one)
      (after_worker-IsTracked l l.proxy.sessions pool (connect_result id fd success) k
        (connector id) tracked running ended' refl tracked.fresh (λ other has. has))

-- The session of a job that runs is there.
pub job_found :
    (l : Loop) (k : ℕ) (job : WorkPackage)
    → IsTracked l
    → get_elem? l.pool.running k ≡ some job
    → Has l.proxy.sessions (job_session job)
job_found l k job tracked running =
    let (once, apart, alive) = tracked.owned (job_session job) in
    let some_job = occurrences-get_elem? job_session k l.pool.running job running in
    alive (omega arith)
