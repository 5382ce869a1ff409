-- ===== src/Loop/Rounds.antt =====
-- Rounds of the event loop that do not end well.
use nermalproxy.Prelude.{
  ℕ, ◌<◌, ◌≡◌, inl, inr, refl, ap, ◌∙◌, not, Bool, true, false, List, none, some, ◌==◌, lt→ltb,
  ==_iff, if◌then◌else◌, length, Option-cases, done, fault, use_after_free,
}
use nermalproxy.Relay.{client_read, remove_fd, tear_down, on_client_socket}
use nermalproxy.Relay.Events.{inactive}
use nermalproxy.Stats.{Disk}
use nermalproxy.Loop.{
  Socket, client, Loop, Inputs, first_client, max_sockets, prune_excess_connections,
}
use nermalproxy.Loop.Dispatching.{
  find_socket, after_client, on_client, process_event, on_timeout, timed_out, process_sockets,
}

-- An event on a client socket after an error removes the socket from the list that the loop is
-- going through, and the loop goes on from the element that was deleted.
pub process_event_removed :
    (i : Inputs) (l : Loop) (fd peer id : ℕ) (from_client : Bool)
    → find_socket l.command_fd fd l.sockets ≡ some (client (inactive fd peer id from_client))
    → process_event i l fd ≡ some (fault use_after_free)
unfolding process_event on_client on_client_socket client_read tear_down remove_fd after_client
process_event_removed i l fd peer id from_client found =
    let self : (fd == fd) ≡ true = (==_iff fd fd).1 refl in rw (found, process_event, self) refl

prune_crowded :
    (ss : List Socket)
    → max_sockets < length ss
    → prune_excess_connections ss
      ≡ elim (first_client ss) [ none ↦ none | some c ↦ some (fault use_after_free) ]
unfolding prune_excess_connections
prune_crowded ss many = rw (lt→ltb max_sockets (length ss) many, prune_excess_connections) refl

timed_out_active :
    (l : Loop) (now : ℕ) (disk : Disk)
    → l.is_active ≡ true
    → process_sockets (timed_out now disk) l ≡ on_timeout now disk l
unfolding process_sockets
timed_out_active l now disk active =
    ap (λ b. if not b then some (done (l, false)) else on_timeout now disk l) active

-- In an active loop, a round without an event and with more than 200 sockets never ends if none of
-- them is of a client; otherwise it asks a client socket that it has deleted for its peer.
pub process_sockets_crowded :
    (l : Loop) (now : ℕ) (disk : Disk)
    → l.is_active ≡ true
    → max_sockets < length l.sockets
    → process_sockets (timed_out now disk) l
      ≡ elim (first_client l.sockets) [ none ↦ none | some c ↦ some (fault use_after_free) ]
unfolding on_timeout
process_sockets_crowded l now disk active many = elim (Option-cases (first_client l.sockets)) [
  | inl nobody ↦
      let pruned = prune_crowded l.sockets many in
      let pruned' = rw nobody at pruned in
      timed_out_active l now disk active ∙ rw (pruned', on_timeout, nobody) refl
  | inr (c, found) ↦
      let pruned = prune_crowded l.sockets many in
      let pruned' = rw found at pruned in
      timed_out_active l now disk active ∙ rw (pruned', on_timeout, found) refl
]
