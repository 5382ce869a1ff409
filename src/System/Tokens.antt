-- ===== src/System/Tokens.antt =====
-- Counting the jobs, messages and sockets of a session.
use nermalproxy.Prelude.{
  ℕ, zero, suc, ◌+◌, ◌≤◌, ◌≡◌, inl, inr, refl, ap, List, [], ◌∷◌, ◌++◌, some, arith, ◌==◌,
  if◌then◌else◌, get_elem?, Option-cases, Bool-cases,
}
use nermalproxy.Loop.{Socket, server, client, command}
use nermalproxy.Loop.Dispatching.{has_fd, find_socket, store_client}
use nermalproxy.Pool.{WorkPackage, remove_at}
use nermalproxy.Relay.{ClientSocket}
use nermalproxy.System.{occurrences, socket_count, Owned}

pub occurrences-append {ℓ} :
    {A : Type ℓ} (f : A → ℕ) (id : ℕ) (xs : List A) (x : A)
    → occurrences f id (xs ++ x ∷ []) ≡ occurrences f id xs + (if f x == id then 1 else 0)
unfolding occurrences
occurrences-append f id [] x = omega arith
occurrences-append f id (y ∷ xs) x = omega (arith, occurrences-append f id xs x)

pub occurrences-remove_at :
    (f : WorkPackage → ℕ) (id k : ℕ) (xs ys : List WorkPackage) (x : WorkPackage)
    → get_elem? xs k ≡ some x
    → remove_at xs k ≡ some ys
    → occurrences f id xs ≡ (if f x == id then 1 else 0) + occurrences f id ys
unfolding occurrences remove_at
occurrences-remove_at f id k [] ys x h r = absurd cc
occurrences-remove_at f id zero (z ∷ xs) ys x h r = ground arith
occurrences-remove_at f id (suc k) (z ∷ xs) ys x h r = elim (Option-cases (remove_at xs k)) [
  | inl gone ↦ absurd (ground arith)
  | inr (rest, left) ↦ ground (arith, occurrences-remove_at f id k xs rest x h left)
]

pub socket_count-append :
    (id : ℕ) (ss : List Socket) (c : ClientSocket)
    → socket_count id (ss ++ client c ∷ [])
      ≡ socket_count id ss + (if c.session_id == id then 1 else 0)
unfolding socket_count
socket_count-append id [] c = omega arith
socket_count-append id (server s ∷ ss) c = socket_count-append id ss c
socket_count-append id (client x ∷ ss) c = omega (arith, socket_count-append id ss c)
socket_count-append id (command ∷ ss) c = socket_count-append id ss c

-- Fewer tokens and sockets, and what holds is kept.
pub Owned-mono :
    (t k t' k' : ℕ) {H H' : Type 0} → t' ≤ t → k' ≤ k → (H → H') → Owned t k H → Owned t' k' H'
Owned-mono t k t' k' less fewer keeps (once, apart, alive) = (
  omega arith,
  elim apart [ inl a ↦ inl (omega arith) | inr b ↦ inr (omega arith) ],
  λ some_left. keeps (alive (omega arith)),
)

-- A socket that is found is one of its session.
pub find_socket-counted :
    (command_fd fd : ℕ) (ss : List Socket) (c : ClientSocket)
    → find_socket command_fd fd ss ≡ some (client c)
    → 1 ≤ socket_count c.session_id ss
unfolding find_socket socket_count
find_socket-counted command_fd fd [] c h = absurd cc
find_socket-counted command_fd fd (s ∷ ss) c h = elim (Bool-cases (has_fd command_fd fd s)) [
  | inl hit ↦ found_first s ss c (let shown = rw (hit, find_socket) at h in cc)
  | inr miss ↦
      found_later s ss c
        (find_socket-counted command_fd fd ss c (let shown = rw (miss, find_socket) at h in shown))
]
  where
    found_first :
        (s : Socket) (ss : List Socket) (c : ClientSocket)
        → s ≡ client c
        → 1 ≤ socket_count c.session_id (s ∷ ss)
    found_first (server x) ss c e = absurd cc
    found_first (client x) ss c e = ground arith
    found_first command ss c e = absurd cc

    found_later :
        (s : Socket) (ss : List Socket) (c : ClientSocket)
        → 1 ≤ socket_count c.session_id ss
        → 1 ≤ socket_count c.session_id (s ∷ ss)
    found_later (server x) ss c h = h
    found_later (client x) ss c h = ground arith
    found_later command ss c h = h

-- The number of sockets of each session stays if a socket is stored again.
pub socket_count-store_client :
    (command_fd fd id : ℕ) (ss : List Socket) (c c' : ClientSocket)
    → find_socket command_fd fd ss ≡ some (client c)
    → c'.session_id ≡ c.session_id
    → socket_count id (store_client command_fd fd c' ss) ≡ socket_count id ss
unfolding find_socket socket_count store_client
socket_count-store_client command_fd fd id [] c c' h same = refl
socket_count-store_client command_fd fd id (s ∷ ss) c c' h same =
    elim (Bool-cases (has_fd command_fd fd s)) [
      | inl hit ↦
          let first : s ≡ client c = let shown = rw (hit, find_socket) at h in cc in
          rw (hit, store_client) (stored_first s first)
      | inr miss ↦
          let later : find_socket command_fd fd ss ≡ some (client c) =
            rw (miss, find_socket) at h in
          rw (miss, store_client)
            (same_tail s (store_client command_fd fd c' ss)
              (socket_count-store_client command_fd fd id ss c c' later same))
    ]
  where
    stored_first :
        (s : Socket) → s ≡ client c → socket_count id (client c' ∷ ss) ≡ socket_count id (s ∷ ss)
    stored_first (server x) e = absurd cc
    stored_first (client x) e = ground arith
    stored_first command e = absurd cc

    same_tail :
        (s : Socket) (xs : List Socket)
        → socket_count id xs ≡ socket_count id ss
        → socket_count id (s ∷ xs) ≡ socket_count id (s ∷ ss)
    same_tail (server x) xs e = e
    same_tail (client x) xs e = omega arith
    same_tail command xs e = e

pub occurrences-get_elem? {ℓ} :
    {A : Type ℓ} (f : A → ℕ) (k : ℕ) (xs : List A) (x : A)
    → get_elem? xs k ≡ some x
    → 1 ≤ occurrences f (f x) xs
unfolding occurrences
occurrences-get_elem? f k [] x h = absurd cc
occurrences-get_elem? f zero (y ∷ xs) x h =
    let same : y ≡ x = cc in let same' = ap f same in ground arith
occurrences-get_elem? f (suc k) (y ∷ xs) x h = omega (arith, occurrences-get_elem? f k xs x h)
