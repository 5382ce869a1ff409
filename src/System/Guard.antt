-- ===== src/System/Guard.antt =====
-- What the jobs, messages and sockets that lead to a host say of their sessions.
use nermalproxy.Prelude.{
  ℕ, zero, suc, ◌+◌, ◌≤◌, ◌≡◌, refl, ◌∙◌, ap, Bool, true, false, List, [], ◌∷◌, ◌++◌, some, arith,
  ◌==◌, if◌then◌else◌, get_elem?, Option-cases, inl, inr,
}
use nermalproxy.Gate.{Proxy, Moment}
use nermalproxy.Gate.Admission.{IsAdmitted}
use nermalproxy.Gate.Filtered.{passes}
use nermalproxy.Loop.{Loop}
use nermalproxy.Messenger.{Message, detect_result, connect_result}
use nermalproxy.Messenger.Layout.{session_of}
use nermalproxy.Pool.{WorkPackage, detector, connector, remove_at}
use nermalproxy.Session.{Session, get_session}
use nermalproxy.Session.Changes.{SameView}
use nermalproxy.System.{job_session, occurrences, socket_count}

-- How many entries pass a test.
unfoldable pub count {ℓ} : {A : Type ℓ} → (A → Bool) → List A → ℕ
count test [] = 0
count test (x ∷ xs) = (if test x then 1 else 0) + count test xs

-- A job that connects the session.
abbrev pub connects_to : ℕ → WorkPackage → Bool
connects_to id (detector n) = false
connects_to id (connector n) = n == id

-- A message that the session is connected.
abbrev pub succeeds_for : ℕ → Message → Bool
succeeds_for id (detect_result n success) = false
succeeds_for id (connect_result n fd true) = n == id
succeeds_for id (connect_result n fd false) = false

-- The jobs, messages and sockets that lead the session to its host.
abbrev pub connections : Loop → ℕ → ℕ
connections l id =
    count (connects_to id) l.pool.work
    + count (connects_to id) l.pool.running
    + count (succeeds_for id) l.messages
    + socket_count id l.sockets

-- A user who is known was let in at one of the moments, when the user's schedule allowed it, and
-- every list that applies allows the host.
pub record IsAllowed (moments : Moment → Type 0) (p : Proxy) (s : Session) : Type 0 where
  pub moment : Moment
  pub reached : moments moment
  pub admitted : IsAdmitted moment p.auth s.request s.client_ip s.user_name
  pub passed : passes p s ≡ true

-- The session is there, and it is cleared.
abbrev pub HasAllowed : (Moment → Type 0) → Proxy → ℕ → Type 0
HasAllowed moments p id =
    (s : Session) × (get_session p.sessions id ≡ some s) × IsAllowed moments p s

-- The rules that the proxy was configured with are the same.
abbrev pub SameRules : Proxy → Proxy → Type 0
SameRules p p' = (p'.auth ≡ p.auth) × ((p'.policies ≡ p.policies) × (p'.blacklists ≡ p.blacklists))

pub SameRules-refl : (p : Proxy) → SameRules p p
SameRules-refl p = (refl, (refl, refl))

pub SameRules-trans : (p q r : Proxy) → SameRules p q → SameRules q r → SameRules p r
SameRules-trans p q r (a, (b, c)) (a', (b', c')) = (a' ∙ a, (b' ∙ b, c' ∙ c))

-- Whatever leads to a host leads there for a session that is cleared.
abbrev pub IsGuarded : (Moment → Type 0) → Loop → Type 0
IsGuarded moments l = (id : ℕ) → 1 ≤ connections l id → HasAllowed moments l.proxy id

pub IsGuarded-more :
    (before after : Moment → Type 0) (l : Loop)
    → ((t : Moment) → before t → after t)
    → IsGuarded before l
    → IsGuarded after l
IsGuarded-more before after l more guarded id some_left =
    let (s, found, a) = guarded id some_left in
    (
      s,
      found,
      record {
        moment = a.moment;
        reached = more a.moment a.reached;
        admitted = a.admitted;
        passed = a.passed;
      },
    )

pub count-append {ℓ} :
    {A : Type ℓ} (test : A → Bool) (xs : List A) (x : A)
    → count test (xs ++ x ∷ []) ≡ count test xs + (if test x then 1 else 0)
unfolding count
count-append test [] x = omega arith
count-append test (y ∷ xs) x = omega (arith, count-append test xs x)

pub count-remove_at :
    (test : WorkPackage → Bool) (k : ℕ) (xs ys : List WorkPackage) (x : WorkPackage)
    → get_elem? xs k ≡ some x
    → remove_at xs k ≡ some ys
    → count test xs ≡ (if test x then 1 else 0) + count test ys
unfolding count remove_at
count-remove_at test k [] ys x h r = absurd cc
count-remove_at test zero (z ∷ xs) ys x h r = ground arith
count-remove_at test (suc k) (z ∷ xs) ys x h r = elim (Option-cases (remove_at xs k)) [
  | inl gone ↦ absurd (ground arith)
  | inr (rest, left) ↦ ground (arith, count-remove_at test k xs rest x h left)
]

pub count-get_elem? {ℓ} :
    {A : Type ℓ} (test : A → Bool) (k : ℕ) (xs : List A) (x : A)
    → get_elem? xs k ≡ some x
    → test x ≡ true
    → 1 ≤ count test xs
unfolding count
count-get_elem? test k [] x h passes_test = absurd cc
count-get_elem? test zero (y ∷ xs) x h passes_test =
    let same : y ≡ x = cc in let same' = ap test same in ground arith
count-get_elem? test (suc k) (y ∷ xs) x h passes_test =
    omega (arith, count-get_elem? test k xs x h passes_test)

pub jobs_bound :
    (id : ℕ) (jobs : List WorkPackage)
    → count (connects_to id) jobs ≤ occurrences job_session id jobs
unfolding count occurrences
jobs_bound id [] = omega arith
jobs_bound id (detector n ∷ jobs) = omega (arith, jobs_bound id jobs)
jobs_bound id (connector n ∷ jobs) = omega (arith, jobs_bound id jobs)

pub messages_bound :
    (id : ℕ) (messages : List Message)
    → count (succeeds_for id) messages ≤ occurrences session_of id messages
unfolding count occurrences
messages_bound id [] = omega arith
messages_bound id (detect_result n success ∷ messages) = omega (arith, messages_bound id messages)
messages_bound id (connect_result n fd true ∷ messages) = omega (arith, messages_bound id messages)
messages_bound id (connect_result n fd false ∷ messages) = omega (arith, messages_bound id messages)

-- Under the same rules, the same view of a session is cleared.
pub IsAllowed-same :
    {moments : Moment → Type 0} (p p' : Proxy) (s s' : Session)
    → p'.auth ≡ p.auth
    → p'.policies ≡ p.policies
    → p'.blacklists ≡ p.blacklists
    → SameView s s'
    → IsAllowed moments p s
    → IsAllowed moments p' s'
IsAllowed-same p p' s s' auth policies blacklists view a = record {
  moment = a.moment;
  reached = a.reached;
  admitted = rw (auth, view.request, view.ip, view.user) a.admitted;
  passed = rw (policies, blacklists, view.user, view.host) a.passed;
}

-- Under the same rules, the same session is cleared.
pub IsAllowed-rules :
    {moments : Moment → Type 0} (p p' : Proxy) (s : Session)
    → SameRules p p'
    → IsAllowed moments p s
    → IsAllowed moments p' s
IsAllowed-rules p p' s (auth, (policies, blacklists)) =
    IsAllowed-same p p' s s auth policies blacklists
      (record { user = refl; host = refl; ip = refl; request = refl })
