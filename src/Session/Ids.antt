-- ===== src/Session/Ids.antt =====
-- Identifiers of sessions: what each operation of the manager does to the look-up by them.
use nermalproxy.Prelude.{
  ℕ, suc, ◌≤◌, ◌<◌, ◌≡◌, refl, List, [], ◌∷◌, ◌++◌, none, some, arith, ◌==◌, if◌then◌else◌,
}
use nermalproxy.Auth.{AuthManager}
use nermalproxy.Stats.{UserStats, GlobalStats}
use nermalproxy.Session.{
  Session, Garbage, new_session, SessionManager, find_client, find_id, get_session,
  get_session_for_client, create_session, end_id, end_session,
}

-- Identifiers grow along the list, from one that is at least the given number.
abbrev pub Above : ℕ → List Session → Type 0
Above n [] = Unit {0}
Above n (s ∷ ss) = (n ≤ s.session_id) × Above (suc s.session_id) ss

-- All identifiers are below the given number.
abbrev pub Under : ℕ → List Session → Type 0
Under n [] = Unit {0}
Under n (s ∷ ss) = (s.session_id < n) × Under n ss

-- No identifier is used twice, and the next one is new.
pub record IsFresh (m : SessionManager) : Type 0 where
  pub growing : Above 0 m.session_list
  pub below : Under m.next_id m.session_list

Above-concat :
    (n : ℕ) (ss : List Session) (s : Session)
    → Above n ss
    → Under s.session_id ss
    → n ≤ s.session_id
    → Above n (ss ++ s ∷ [])
Above-concat n [] s a u h = (h, tt)
Above-concat n (x ∷ ss) s a u h = (a.0, Above-concat (suc x.session_id) ss s a.1 u.1 u.0)

Under-concat :
    (n : ℕ) (ss : List Session) (s : Session)
    → Under n ss
    → s.session_id ≡ n
    → Under (suc n) (ss ++ s ∷ [])
Under-concat n [] s u h = omega arith
Under-concat n (x ∷ ss) s u h = (omega arith, Under-concat n ss s u.1 h)

Above-mono : (m n : ℕ) (ss : List Session) → n ≤ m → Above m ss → Above n ss
Above-mono m n [] h a = tt
Above-mono m n (s ∷ ss) h a = (omega arith, a.1)

find_id-Above : (n id : ℕ) (ss : List Session) → Above n ss → id < n → find_id ss id ≡ none
unfolding find_id
find_id-Above n id [] a h = refl
find_id-Above n id (s ∷ ss) a h = ground (arith, find_id-Above (suc s.session_id) id ss a.1)

pub find_id-Under : (n id : ℕ) (ss : List Session) → Under n ss → n ≤ id → find_id ss id ≡ none
unfolding find_id
find_id-Under n id [] u h = refl
find_id-Under n id (s ∷ ss) u h = ground (arith, find_id-Under n id ss u.1)

find_id-concat :
    (ss : List Session) (s : Session) (id : ℕ)
    → find_id ss s.session_id ≡ none
    → find_id (ss ++ s ∷ []) id ≡ (if s.session_id == id then some s else find_id ss id)
unfolding find_id
find_id-concat [] s id h = refl
find_id-concat (x ∷ ss) s id h = ground (arith, find_id-concat ss s id)

-- While no identifier is used twice, a new session is found under the next identifier, all others
-- as before, and still no identifier is used twice.
pub get_session-create_session :
    (g : Garbage) (now fd id : ℕ) (m : SessionManager)
    → IsFresh m
    → IsFresh (create_session g now m fd).0
      × (get_session (create_session g now m fd).0 id
          ≡ (if m.next_id == id then some (new_session g now fd m.next_id) else get_session m id))
unfolding create_session
get_session-create_session g now fd id m f = (
  record {
    growing =
        Above-concat 0 m.session_list (new_session g now fd m.next_id) f.growing f.below
          (omega arith);
    below = Under-concat m.next_id m.session_list (new_session g now fd m.next_id) f.below refl;
  },
  find_id-concat m.session_list (new_session g now fd m.next_id) id
      (find_id-Under m.next_id m.next_id m.session_list f.below (omega arith)),
)

find_client-concat :
    (ss : List Session) (s : Session) (fd : ℕ)
    → s.client_fd ≡ fd
    → find_client (ss ++ s ∷ []) fd
      ≡ elim (find_client ss fd) [ none ↦ some s | some old ↦ some old ]
unfolding find_client
find_client-concat [] s fd h = ground arith
find_client-concat (x ∷ ss) s fd h = ground (arith, find_client-concat ss s fd)

-- The pointer that is returned is to the new session if no session has this descriptor yet;
-- otherwise it is to the oldest session with it.
pub create_session_pointer :
    (g : Garbage) (now fd : ℕ) (m : SessionManager)
    → (create_session g now m fd).1 ≡ elim (get_session_for_client m fd) [
      | none ↦ some (new_session g now fd m.next_id)
      | some old ↦ some old
    ]
unfolding create_session
create_session_pointer g now fd m =
    find_client-concat m.session_list (new_session g now fd m.next_id) fd refl

end_id-Above :
    (auth : AuthManager) (now n id : ℕ) (ss : List Session) (stats : List UserStats)
    → Above n ss
    → Above n (end_id auth now ss id stats).0
unfolding end_id
end_id-Above auth now n id [] stats a = tt
end_id-Above auth now n id (s ∷ ss) stats a = ground (
  arith,
  Above-mono (suc s.session_id) n ss,
  end_id-Above auth now (suc s.session_id) id ss stats a.1,
)

end_id-Under :
    (auth : AuthManager) (now n id : ℕ) (ss : List Session) (stats : List UserStats)
    → Under n ss
    → Under n (end_id auth now ss id stats).0
unfolding end_id
end_id-Under auth now n id [] stats u = tt
end_id-Under auth now n id (s ∷ ss) stats u =
    ground (arith, end_id-Under auth now n id ss stats u.1)

find_id-end_id :
    (auth : AuthManager) (now n id other : ℕ) (ss : List Session) (stats : List UserStats)
    → Above n ss
    → find_id (end_id auth now ss id stats).0 other
      ≡ (if id == other then none else find_id ss other)
unfolding find_id end_id
find_id-end_id auth now n id other [] stats a = ground arith
find_id-end_id auth now n id other (s ∷ ss) stats a = ground (
  arith,
  find_id-Above (suc s.session_id) s.session_id ss a.1,
  find_id-end_id auth now (suc s.session_id) id other ss stats a.1,
)

-- While no identifier is used twice, a session that was ended is not found again, all others are
-- found as before, and still no identifier is used twice.
pub get_session-end_session :
    (auth : AuthManager) (now id other : ℕ) (m : SessionManager) (g : GlobalStats)
    → IsFresh m
    → IsFresh (end_session auth now m id g).0
      × (get_session (end_session auth now m id g).0 other
          ≡ (if id == other then none else get_session m other))
unfolding end_session
get_session-end_session auth now id other m g f = (
  record {
    growing = end_id-Above auth now 0 id m.session_list g.user_stats f.growing;
    below = end_id-Under auth now m.next_id id m.session_list g.user_stats f.below;
  },
  find_id-end_id auth now 0 id other m.session_list g.user_stats f.growing,
)
