-- ===== src/Relay/Sessions.antt =====
-- Which sessions and sockets an event on a client socket leaves.
use nermalproxy.Prelude.{
  ℕ, ◌≡◌, ◌≢◌, ◌⊎◌, refl, sym, subst, ap, ◌∙◌, inl, inr, Bool, true, false, List, [], ◌∷◌, some,
  ==_iff, if◌then◌else◌, Bool-cases, Option-cases, done, fault, null_dereference,
}
use nermalproxy.Gate.{Proxy, Moment}
use nermalproxy.Session.{Session, get_session, change_session, count_rx, count_tx}
use nermalproxy.Session.Changes.{
  SameView, HasView, change_session-HasView, Has, change_session-Has, change_session-IsFresh,
}
use nermalproxy.Session.Ids.{IsFresh}
use nermalproxy.Relay.{
  ClientSocket, ReadOutcome, WriteOutcome, ReadResult, client_read, WriteResult, write_count,
  remove_fd, store_socket, Relayed, tear_down, count_bytes, on_client_socket,
}
use nermalproxy.Relay.Same.{IsSame, client_read-IsSame, write_count-IsSame}

-- What an event leaves of a socket that stands alone: nothing, or the same socket, all sessions,
-- and identifiers that are not used twice.
pub record Keeps (p : Proxy) (s : ClientSocket) (r : Relayed) (s' : ClientSocket) : Type 0 where
  pub kept : r.sockets ≡ s' ∷ []
  pub same : s'.session_id ≡ s.session_id
  pub fresh : IsFresh r.proxy.sessions
  pub has : (other : ℕ) → Has p.sessions other → Has r.proxy.sessions other
  pub views :
      (other : ℕ) (x : Session)
      → get_session p.sessions other ≡ some x
      → HasView r.proxy.sessions other x
  pub auth : r.proxy.auth ≡ p.auth
  pub policies : r.proxy.policies ≡ p.policies
  pub blacklists : r.proxy.blacklists ≡ p.blacklists

stored_alone :
    (s w : ClientSocket)
    → IsSame s w
    → (s' : ClientSocket) × (store_socket w (s ∷ []) ≡ s' ∷ []) × (s'.session_id ≡ s.session_id)
unfolding store_socket
stored_alone s w same = (
  w,
  let hit = (==_iff s.socket_fd w.socket_fd).1 (sym same.fd) in rw (hit, store_socket) refl,
  same.session,
)

torn_down_alone :
    (t : Moment) (p : Proxy) (s x : ClientSocket)
    → IsSame s x
    → (tear_down t p (s ∷ []) x).sockets ≡ []
unfolding tear_down remove_fd
torn_down_alone t p s x same =
    let hit = (==_iff s.socket_fd x.socket_fd).1 (sym same.fd) in rw (hit, remove_fd) refl

-- The counters of a direction.
abbrev count_of : Bool → ℕ → ℕ → Session → Session
count_of from_client n k = if from_client then count_rx n else count_tx k

count_of_id :
    (from_client : Bool) (n k : ℕ) (x : Session)
    → (count_of from_client n k x).session_id ≡ x.session_id
count_of_id true n k x = refl
count_of_id false n k x = refl

count_of_view :
    (from_client : Bool) (n k : ℕ) (x : Session) → SameView x (count_of from_client n k x)
count_of_view true n k x = record { user = refl; host = refl; ip = refl; request = refl }
count_of_view false n k x = record { user = refl; host = refl; ip = refl; request = refl }

-- What is left if the bytes are counted.
abbrev counted : Proxy → ClientSocket → ℕ → WriteResult → Relayed
counted p s count w = record {
  proxy = record p {
    sessions =
        change_session (count_of w.socket.is_client_to_proxy w.count count) p.sessions
          w.socket.session_id;
  };
  sockets = store_socket w.socket (s ∷ []);
  sent = w.sent;
}

counted-Keeps :
    (p : Proxy) (s : ClientSocket) (count : ℕ) (w : WriteResult)
    → IsFresh p.sessions
    → IsSame s w.socket
    → (s' : ClientSocket) × Keeps p s (counted p s count w) s'
counted-Keeps p s count w fresh same =
    let (s', kept, session) = stored_alone s w.socket same in
    let from_client = w.socket.is_client_to_proxy in
    (
      s',
      record {
        kept = kept;
        same = session;
        fresh =
            change_session-IsFresh (count_of from_client w.count count)
              (count_of_id from_client w.count count) p.sessions w.socket.session_id fresh;
        has = λ other.
            change_session-Has (count_of from_client w.count count)
              (count_of_id from_client w.count count) p.sessions w.socket.session_id other;
        views = λ other x.
            change_session-HasView (count_of from_client w.count count)
              (count_of_id from_client w.count count) (count_of_view from_client w.count count)
              p.sessions w.socket.session_id other x;
        auth = refl;
        policies = refl;
        blacklists = refl;
      },
    )

count_bytes-Keeps :
    (p : Proxy) (s : ClientSocket) (r : ReadResult) (w : WriteResult) (l : Relayed)
    → IsFresh p.sessions
    → IsSame s w.socket
    → count_bytes p (s ∷ []) r w ≡ done l
    → (s' : ClientSocket) × Keeps p s l s'
unfolding count_bytes
count_bytes-Keeps p s r w l fresh same e =
    elim (Option-cases (get_session p.sessions w.socket.session_id)) [
      | inl gone ↦ absurd (let shown = rw (gone, count_bytes) at e in cc)
      | inr (session, found) ↦
          let result : counted p s r.count w ≡ l = let shown = rw (found, count_bytes) at e in cc in
          subst (λ x. (s' : ClientSocket) × Keeps p s x s') result
            (counted-Keeps p s r.count w fresh same)
    ]

-- What an event on a socket that stands alone comes to, if it ends without a fault.
pub on_client_socket-Keeps :
    (t : Moment) (p : Proxy) (s : ClientSocket) (rs : List ReadOutcome) (ws : List WriteOutcome)
    (l : Relayed)
    → IsFresh p.sessions
    → on_client_socket t p (s ∷ []) s rs ws ≡ some (done l)
    → (l.sockets ≡ []) ⊎ ((s' : ClientSocket) × Keeps p s l s')
unfolding on_client_socket
on_client_socket-Keeps t p s rs ws l fresh e = elim (Option-cases (client_read s rs)) [
  | inl waiting ↦ absurd (let shown = rw (waiting, on_client_socket) at e in cc)
  | inr (r, got) ↦
      let read = client_read-IsSame s rs r got in
      elim (Bool-cases r.is_error) [
        | inl error ↦
            let shown = rw (got, on_client_socket, error) at e in
            let result : tear_down t p (s ∷ []) r.socket ≡ l = cc in
            inl (subst (λ x. x.sockets ≡ []) result (torn_down_alone t p s r.socket read))
        | inr fine ↦ elim (Option-cases (write_count r.socket ws r.count r.bytes)) [
          | inl blocked ↦ absurd (let shown = rw (got, on_client_socket, fine, blocked) at e in cc)
          | inr (w, wrote_all) ↦
              let shown = rw (got, on_client_socket, fine, wrote_all) at e in
              let written = write_count-IsSame r.socket ws r.count r.bytes w wrote_all in
              let same : IsSame s w.socket = record {
                fd = written.fd ∙ read.fd;
                session = written.session ∙ read.session;
              } in
              inr (count_bytes-Keeps p s r w l fresh same cc)
        ]
      ]
]

-- With its session there, an event does not go through a null pointer.
pub on_client_socket_found :
    (t : Moment) (p : Proxy) (s : ClientSocket) (rs : List ReadOutcome) (ws : List WriteOutcome)
    → Has p.sessions s.session_id
    → on_client_socket t p (s ∷ []) s rs ws ≢ some (fault null_dereference)
unfolding on_client_socket count_bytes
on_client_socket_found t p s rs ws (x, has) e = elim (Option-cases (client_read s rs)) [
  | inl waiting ↦ let shown = rw (waiting, on_client_socket) at e in cc
  | inr (r, got) ↦
      let read = client_read-IsSame s rs r got in
      elim (Bool-cases r.is_error) [
        | inl error ↦ let shown = rw (got, on_client_socket, error) at e in cc
        | inr fine ↦ elim (Option-cases (write_count r.socket ws r.count r.bytes)) [
          | inl blocked ↦ let shown = rw (got, on_client_socket, fine, blocked) at e in cc
          | inr (w, wrote_all) ↦
              let shown = rw (got, on_client_socket, fine, wrote_all) at e in
              let written = write_count-IsSame r.socket ws r.count r.bytes w wrote_all in
              let found : get_session p.sessions w.socket.session_id ≡ some x =
                ap (get_session p.sessions) (written.session ∙ read.session) ∙ has in
              let counted_all = rw (found, count_bytes) at shown in cc
        ]
      ]
]
