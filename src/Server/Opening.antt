-- ===== src/Server/Opening.antt =====
-- What the result of `Initialize` says of the socket.
use nermalproxy.Prelude.{
  ℕ, ◌≡◌, ◌⊎◌, ◌↔◌, inl, inr, refl, true, Option, none, some, arith, Option-cases,
}
use nermalproxy.CText.{Bytes}
use nermalproxy.Server.{new_server_socket, get_fd, OpenAnswers, initialize, accept}

-- The system gave this descriptor, and all calls on it succeeded.
pub record IsOpened (a : OpenAnswers) (fd : ℕ) : Type 0 where
  pub opened : a.socket ≡ some fd
  pub reused : a.sets_option ≡ true
  pub bound : a.binds ≡ true
  pub listening : a.listens ≡ true

-- A new socket after Initialize: the result is true exactly if all calls succeeded, or if the
-- system gave no descriptor. The socket has a descriptor exactly if all calls succeeded, and then
-- the one that the system gave; it then accepts what the system accepts. Without a descriptor of the
-- system, it never accepts a client, although the result is true.
pub initialize_result :
    (a : OpenAnswers) (answer : Option (ℕ × Bytes))
    → (((initialize a new_server_socket).1 ≡ true)
        ↔ ((a.socket ≡ none) ⊎ ((fd : ℕ) × IsOpened a fd)))
      × ((fd : ℕ) → (get_fd (initialize a new_server_socket).0 ≡ some fd) ↔ IsOpened a fd)
      × ((fd : ℕ) → IsOpened a fd → accept (initialize a new_server_socket).0 answer ≡ answer)
      × (a.socket ≡ none
          → ((initialize a new_server_socket).1 ≡ true)
            × (accept (initialize a new_server_socket).0 answer ≡ none))
unfolding initialize get_fd accept
initialize_result a answer = (
  (result_opened a, opened_result a),
  λ fd. (fd_opened a fd, opened_fd a fd),
  λ fd o. rw (o.opened, o.reused, o.bound, o.listening) refl,
  λ closed. (rw closed refl, rw closed refl),
)
  where
    result_opened :
        (a : OpenAnswers)
        → (initialize a new_server_socket).1 ≡ true
        → (a.socket ≡ none) ⊎ ((fd : ℕ) × IsOpened a fd)
    result_opened a h = elim (Option-cases a.socket) [
      | inl closed ↦ inl closed
      | inr (fd, opened) ↦ inr (
        fd,
        record {
          opened = opened;
          reused = ground arith;
          bound = ground arith;
          listening = ground arith;
        },
      )
    ]

    opened_result :
        (a : OpenAnswers)
        → (a.socket ≡ none) ⊎ ((fd : ℕ) × IsOpened a fd)
        → (initialize a new_server_socket).1 ≡ true
    opened_result a (inl closed) = rw closed refl
    opened_result a (inr (fd, o)) = rw (o.opened, o.reused, o.bound, o.listening) refl

    fd_opened :
        (a : OpenAnswers) (fd : ℕ)
        → get_fd (initialize a new_server_socket).0 ≡ some fd
        → IsOpened a fd
    fd_opened a fd h = elim (Option-cases a.socket) [
      | inl closed ↦ absurd (let shown = rw closed at h in cc)
      | inr (fd', opened) ↦ record {
        opened = ground arith;
        reused = ground arith;
        bound = ground arith;
        listening = ground arith;
      }
    ]

    opened_fd :
        (a : OpenAnswers) (fd : ℕ)
        → IsOpened a fd
        → get_fd (initialize a new_server_socket).0 ≡ some fd
    opened_fd a fd o = rw (o.opened, o.reused, o.bound, o.listening) refl
