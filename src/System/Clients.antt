-- ===== src/System/Clients.antt =====
-- Events on the server socket and on client sockets.
use nermalproxy.Prelude.{
  ℕ, suc, ◌+◌, ◌≡◌, ◌⊎◌, inl, inr, subst, ap, ◌∙◌, Bool, true, List, [], ◌∷◌, Option, none, some,
  arith, ◌==◌, Bool-cases, Option-cases, Nat-cases, done, >>=-eq-done,
}
use nermalproxy.CText.{Bytes}
use nermalproxy.Loop.{client, Loop, Inputs, change_client, on_server_socket}
use nermalproxy.Loop.Dispatching.{find_socket, store_client, after_client, on_client}
use nermalproxy.Pool.{detector, dispatch}
use nermalproxy.Relay.{ClientSocket, Relayed, on_client_socket}
use nermalproxy.Relay.Sessions.{Keeps, on_client_socket-Keeps}
use nermalproxy.Server.{ServerSocket, accept}
use nermalproxy.Session.{
  get_session_for_client, Session, SessionManager, new_session, find_id, create_session,
  set_client_address,
}
use nermalproxy.Session.Changes.{Has, create_session-Has, create_session-new, next_id-lacks}
use nermalproxy.Session.Ids.{Above, Under, get_session-create_session, create_session_pointer}
use nermalproxy.System.{job_session, tokens, socket_count, IsTracked, Unused}
use nermalproxy.System.Tokens.{occurrences-append, socket_count-store_client, Owned-mono}

change_client-Above :
    (ip : Bytes) (n fd : ℕ) (ss : List Session)
    → Above n ss
    → Above n (change_client (set_client_address ip) ss fd)
unfolding change_client
change_client-Above ip n fd [] a = tt
change_client-Above ip n fd (s ∷ ss) a =
    ground (arith, change_client-Above ip (suc s.session_id) fd ss a.1)

change_client-Under :
    (ip : Bytes) (n fd : ℕ) (ss : List Session)
    → Under n ss
    → Under n (change_client (set_client_address ip) ss fd)
unfolding change_client
change_client-Under ip n fd [] u = tt
change_client-Under ip n fd (s ∷ ss) u = ground (arith, change_client-Under ip n fd ss u.1)

find_id-change_client :
    (ip : Bytes) (fd id : ℕ) (ss : List Session) (s : Session)
    → find_id ss id ≡ some s
    → (s' : Session) × (find_id (change_client (set_client_address ip) ss fd) id ≡ some s')
unfolding find_id change_client
find_id-change_client ip fd id [] s h = absurd cc
find_id-change_client ip fd id (x ∷ ss) s h = elim (Bool-cases (x.client_fd == fd)) [
  | inl hit ↦ elim (Bool-cases (x.session_id == id)) [
    | inl same ↦ (set_client_address ip x, ground arith)
    | inr miss ↦ (s, ground arith)
  ]
  | inr later ↦ elim (Bool-cases (x.session_id == id)) [
    | inl same ↦ (x, ground arith)
    | inr miss ↦
        let (s', h') = find_id-change_client ip fd id ss s (ground arith) in
        (s', ground (arith, h'))
  ]
]

-- The sessions after a client was accepted, with its address.
abbrev pub accepted_sessions : Inputs → Loop → ℕ → Bytes → SessionManager
accepted_sessions i l fd ip =
    let m = (create_session i.garbage i.moment.now l.proxy.sessions fd).0 in
    record m { session_list = change_client (set_client_address ip) m.session_list fd }

abbrev pub accepted_loop : Inputs → Loop → ℕ → Bytes → Loop
accepted_loop i l fd ip = record l {
  proxy = record l.proxy { sessions = accepted_sessions i l fd ip };
  pool = dispatch l.pool (detector l.proxy.sessions.next_id);
}

-- Nothing belongs to the next session yet.
unowned :
    (l : Loop) (id : ℕ)
    → IsTracked l
    → (l.proxy.sessions.next_id == id) ≡ true
    → (tokens l id ≡ 0) × (socket_count id l.sockets ≡ 0)
unowned l id tracked hit =
    let (once, apart, alive) = tracked.owned id in
    let same : id ≡ l.proxy.sessions.next_id = ground arith in
    elim (Nat-cases (tokens l id + socket_count id l.sockets)) [
      | inl nothing ↦ (omega arith, omega arith)
      | inr (n, something) ↦ absurd (
          next_id-lacks l.proxy.sessions tracked.fresh
            (subst (Has l.proxy.sessions) same (alive (omega arith))))
    ]

accepted-Has :
    (i : Inputs) (l : Loop) (fd id : ℕ) (ip : Bytes)
    → Has (create_session i.garbage i.moment.now l.proxy.sessions fd).0 id
    → Has (accepted_sessions i l fd ip) id
accepted-Has i l fd id ip (s, h) =
    let m = (create_session i.garbage i.moment.now l.proxy.sessions fd).0 in
    find_id-change_client ip fd id m.session_list s h

accepted-IsTracked :
    (i : Inputs) (l : Loop) (fd : ℕ) (ip : Bytes)
    → IsTracked l
    → IsTracked (accepted_loop i l fd ip)
unfolding dispatch
accepted-IsTracked i l fd ip tracked =
    let m = l.proxy.sessions in
    let (fresh, _) = get_session-create_session i.garbage i.moment.now fd 0 m tracked.fresh in
    let m' = (create_session i.garbage i.moment.now m fd).0 in
    record {
      fresh = record {
        growing = change_client-Above ip 0 fd m'.session_list fresh.growing;
        below = change_client-Under ip m'.next_id fd m'.session_list fresh.below;
      };
      owned = λ id.
          let more =
            occurrences-append job_session id l.pool.work (detector l.proxy.sessions.next_id) in
          elim (Bool-cases (l.proxy.sessions.next_id == id)) [
            | inl hit ↦
                let (no_token, no_socket) = unowned l id tracked hit in
                let same : l.proxy.sessions.next_id ≡ id = ground arith in
                (
                  ground arith,
                  inr no_socket,
                  λ some_left. accepted-Has i l fd id ip (
                      subst (Has m') same
                        (create_session-new i.garbage i.moment.now fd m tracked.fresh)),
                )
            | inr miss ↦
                Owned-mono (tokens l id) (socket_count id l.sockets) _ _ (ground arith)
                  (omega arith)
                  (λ has.
                    accepted-Has i l fd id ip
                      (create_session-Has i.garbage i.moment.now fd id m tracked.fresh has))
                  (tracked.owned id)
          ];
    }

-- What a socket gives that accepts.
accept_inv :
    (s : ServerSocket) (answer : Option (ℕ × Bytes)) (fd : ℕ) (ip : Bytes)
    → accept s answer ≡ some (fd, ip)
    → answer ≡ some (fd, ip)
unfolding accept
accept_inv s answer fd ip e = elim (Bool-cases s.is_active) [
  | inl active ↦ rw (active, accept) at e
  | inr inactive ↦ absurd (let shown = rw (inactive, accept) at e in cc)
]

-- What an event on the server socket leaves.
pub on_server_socket_inv :
    (i : Inputs) (l l' : Loop) (s : ServerSocket) (going : Bool)
    → Unused i l
    → on_server_socket i l s ≡ done (l', going)
    → (l ≡ l')
      ⊎ ((fd : ℕ) × (ip : Bytes) × (get_session_for_client l.proxy.sessions fd ≡ none)
          × (accepted_loop i l fd ip ≡ l'))
unfolding on_server_socket
on_server_socket_inv i l l' s going unused e = elim (Option-cases (accept s i.accepted)) [
  | inl refused ↦ inl (let shown = rw (refused, on_server_socket) at e in cc)
  | inr ((fd, ip), accepted) ↦
      let new = unused fd ip (accept_inv s i.accepted fd ip accepted) in
      let session = new_session i.garbage i.moment.now fd l.proxy.sessions.next_id in
      let pointer : (create_session i.garbage i.moment.now l.proxy.sessions fd).1 ≡ some session =
        create_session_pointer i.garbage i.moment.now fd l.proxy.sessions
        ∙ ap (λ o. elim o [ none ↦ some session | some old ↦ some old ]) new in
      let shown = rw (accepted, on_server_socket, pointer) at e in inr (fd, ip, new, cc)
]

pub on_server_socket-IsTracked :
    (i : Inputs) (l l' : Loop) (s : ServerSocket) (going : Bool)
    → IsTracked l
    → Unused i l
    → on_server_socket i l s ≡ done (l', going)
    → IsTracked l'
on_server_socket-IsTracked i l l' s going tracked unused e =
    elim (on_server_socket_inv i l l' s going unused e) [
      | inl same ↦ subst IsTracked same tracked
      | inr (fd, ip, new, same) ↦ subst IsTracked same (accepted-IsTracked i l fd ip tracked)
    ]

-- The loop after an event on a client socket that was kept.
abbrev pub relayed_loop : Loop → ClientSocket → Relayed → ClientSocket → Loop
relayed_loop l c r c' = record l {
  proxy = r.proxy;
  sockets = store_client l.command_fd c.socket_fd c' l.sockets;
}

relayed-IsTracked :
    (l : Loop) (c c' : ClientSocket) (r : Relayed)
    → IsTracked l
    → find_socket l.command_fd c.socket_fd l.sockets ≡ some (client c)
    → Keeps l.proxy c r c'
    → IsTracked (relayed_loop l c r c')
relayed-IsTracked l c c' r tracked found keeps = record {
  fresh = keeps.fresh;
  owned = λ id.
      let same =
        socket_count-store_client l.command_fd c.socket_fd id l.sockets c c' found keeps.same in
      Owned-mono (tokens l id) (socket_count id l.sockets) _ _ (omega arith) (omega arith)
        (keeps.has id) (tracked.owned id);
}

-- What an event on a client socket leaves, if it ends well.
pub on_client_inv :
    (i : Inputs) (l l' : Loop) (c : ClientSocket) (going : Bool)
    → IsTracked l
    → on_client i l c ≡ some (done (l', going))
    → (c' : ClientSocket) × (r : Relayed) × Keeps l.proxy c r c' × (relayed_loop l c r c' ≡ l')
unfolding on_client after_client
on_client_inv i l l' c going tracked e =
    elim (Option-cases (on_client_socket i.moment l.proxy (c ∷ []) c i.reads i.writes)) [
      | inl waiting ↦ absurd (let shown = rw (waiting, on_client) at e in cc)
      | inr (result, ran) ↦
          let shown : after_client l c.socket_fd result ≡ done (l', going) =
            let shown' = rw (ran, on_client) at e in cc in
          let (r, ended, rest) = >>=-eq-done result _ shown in
          let ran' : on_client_socket i.moment l.proxy (c ∷ []) c i.reads i.writes ≡ some (done r) =
            ran ∙ ap (λ x. some x) ended in
          elim (on_client_socket-Keeps i.moment l.proxy c i.reads i.writes r tracked.fresh ran') [
            | inl gone ↦ absurd (let shown' = rw gone at rest in cc)
            | inr (c', keeps) ↦ let shown' = rw keeps.kept at rest in (c', r, keeps, cc)
          ]
    ]

pub on_client-IsTracked :
    (i : Inputs) (l l' : Loop) (c : ClientSocket) (going : Bool)
    → IsTracked l
    → find_socket l.command_fd c.socket_fd l.sockets ≡ some (client c)
    → on_client i l c ≡ some (done (l', going))
    → IsTracked l'
on_client-IsTracked i l l' c going tracked found e =
    let (c', r, keeps, same) = on_client_inv i l l' c going tracked e in
    subst IsTracked same (relayed-IsTracked l c c' r tracked found keeps)
