-- ===== src/Session/Changes.antt =====
-- A change through a pointer to a session, and which sessions are there after each operation.
use nermalproxy.Prelude.{
  ℕ, suc, ◌≡◌, ◌≢◌, refl, sym, ap, ◌∙◌, List, [], ◌∷◌, some, arith, ◌==◌, Bool-cases, inl, inr,
}
use nermalproxy.Auth.{AuthManager}
use nermalproxy.Stats.{GlobalStats}
use nermalproxy.Session.{
  Session, SessionManager, Garbage, new_session, find_id, get_session, change_id, change_session,
  create_session, end_session,
}
use nermalproxy.Session.Ids.{
  Above, Under, IsFresh, find_id-Under, get_session-create_session, get_session-end_session,
}

module _ (f : Session → Session) (keeps : (s : Session) → (f s).session_id ≡ s.session_id) where
  change_id-Above : (n id : ℕ) (ss : List Session) → Above n ss → Above n (change_id f ss id)
  unfolding change_id
  change_id-Above n id [] a = tt
  change_id-Above n id (s ∷ ss) a =
      ground (arith, keeps s, change_id-Above (suc s.session_id) id ss a.1)

  change_id-Under : (n id : ℕ) (ss : List Session) → Under n ss → Under n (change_id f ss id)
  unfolding change_id
  change_id-Under n id [] u = tt
  change_id-Under n id (s ∷ ss) u = ground (arith, keeps s, change_id-Under n id ss u.1)

  find_id-change_id :
      (id : ℕ) (ss : List Session) (s : Session)
      → find_id ss id ≡ some s
      → find_id (change_id f ss id) id ≡ some (f s)
  unfolding find_id change_id
  find_id-change_id id [] s h = cc
  find_id-change_id id (x ∷ ss) s h = ground (arith, keeps x, find_id-change_id id ss s)

  -- A change that keeps the identifier is found under it, and no identifier is used twice then.
  pub get_session-change_session :
      (m : SessionManager) (id : ℕ) (s : Session)
      → get_session m id ≡ some s
      → get_session (change_session f m id) id ≡ some (f s)
  get_session-change_session m id s h = find_id-change_id id m.session_list s h

  pub change_session-IsFresh :
      (m : SessionManager) (id : ℕ) → IsFresh m → IsFresh (change_session f m id)
  change_session-IsFresh m id fresh = record {
    growing = change_id-Above 0 id m.session_list fresh.growing;
    below = change_id-Under m.next_id id m.session_list fresh.below;
  }

-- A session is there under the identifier.
abbrev pub Has : SessionManager → ℕ → Type 0
Has m id = (s : Session) × (get_session m id ≡ some s)

module _ (f : Session → Session) (keeps : (s : Session) → (f s).session_id ≡ s.session_id) where
  find_id-change_other :
      (id other : ℕ) (ss : List Session) (s : Session)
      → find_id ss other ≡ some s
      → (s' : Session) × (find_id (change_id f ss id) other ≡ some s')
  unfolding find_id change_id
  find_id-change_other id other [] s h = absurd cc
  find_id-change_other id other (x ∷ ss) s h = elim (Bool-cases (x.session_id == id)) [
    | inl hit ↦ elim (Bool-cases (x.session_id == other)) [
      | inl same ↦ (f x, ground (arith, keeps x))
      | inr miss ↦ (s, ground (arith, keeps x))
    ]
    | inr later ↦ elim (Bool-cases (x.session_id == other)) [
      | inl same ↦ (x, ground arith)
      | inr miss ↦
          let (s', h') = find_id-change_other id other ss s (ground arith) in
          (s', ground (arith, h'))
    ]
  ]

  pub change_session-Has :
      (m : SessionManager) (id other : ℕ) → Has m other → Has (change_session f m id) other
  change_session-Has m id other (s, h) = find_id-change_other id other m.session_list s h

module _ (f : Session → Session) (keeps : (s : Session) → (f s).session_id ≡ s.session_id) where
  find_id-change_ne :
      (id other : ℕ) (ss : List Session)
      → id ≢ other
      → find_id (change_id f ss id) other ≡ find_id ss other
  unfolding find_id change_id
  find_id-change_ne id other [] apart = refl
  find_id-change_ne id other (x ∷ ss) apart =
      ground (arith, keeps x, find_id-change_ne id other ss apart)

  -- A change leaves the other sessions.
  pub get_session-change_ne :
      (m : SessionManager) (id other : ℕ)
      → id ≢ other
      → get_session (change_session f m id) other ≡ get_session m other
  get_session-change_ne m id other apart = find_id-change_ne id other m.session_list apart

-- Whose session it is, what was asked, and where it leads.
pub record SameView (s s' : Session) : Type 0 where
  pub user : s'.user_name ≡ s.user_name
  pub host : s'.host_url ≡ s.host_url
  pub ip : s'.client_ip ≡ s.client_ip
  pub request : s'.request ≡ s.request

-- A session is there, with the same view.
abbrev pub HasView : SessionManager → ℕ → Session → Type 0
HasView m id s = (s' : Session) × (get_session m id ≡ some s') × SameView s s'

-- A change that keeps identifiers and views.
pub change_session-HasView :
    (f : Session → Session)
    → ((s : Session) → (f s).session_id ≡ s.session_id)
    → ((s : Session) → SameView s (f s))
    → (m : SessionManager) (id other : ℕ) (s : Session) → get_session m other ≡ some s
    → HasView (change_session f m id) other s
change_session-HasView f keeps views m id other s found = elim (Bool-cases (id == other)) [
  | inl hit ↦
      let same : other ≡ id = ground arith in
      let there =
        get_session-change_session f keeps m id s (ap (get_session m) (sym same) ∙ found) in
      (f s, ap (get_session (change_session f m id)) same ∙ there, views s)
  | inr miss ↦ (
    s,
    get_session-change_ne f keeps m id other (ground arith) ∙ found,
    record { user = refl; host = refl; ip = refl; request = refl },
  )
]

-- Ending a session leaves the others.
pub get_session-end_ne :
    (auth : AuthManager) (now id other : ℕ) (m : SessionManager) (g : GlobalStats)
    → IsFresh m
    → id ≢ other
    → get_session (end_session auth now m id g).0 other ≡ get_session m other
get_session-end_ne auth now id other m g fresh apart =
    let (_, found) = get_session-end_session auth now id other m g fresh in ground (arith, found)

-- A new session is there, and so are the others.
pub create_session-Has :
    (g : Garbage) (now fd other : ℕ) (m : SessionManager)
    → IsFresh m
    → Has m other
    → Has (create_session g now m fd).0 other
create_session-Has g now fd other m fresh (s, h) =
    let (_, found) = get_session-create_session g now fd other m fresh in
    elim (Bool-cases (m.next_id == other)) [
      | inl new ↦ (new_session g now fd m.next_id, ground (arith, found, new))
      | inr old ↦ (s, ground (arith, found, old, h))
    ]

pub create_session-new :
    (g : Garbage) (now fd : ℕ) (m : SessionManager)
    → IsFresh m
    → Has (create_session g now m fd).0 m.next_id
create_session-new g now fd m fresh =
    let (_, found) = get_session-create_session g now fd m.next_id m fresh in
    (new_session g now fd m.next_id, ground (arith, found))

-- The next identifier has no session yet.
pub next_id-lacks : (m : SessionManager) → IsFresh m → Has m m.next_id → ⊥
next_id-lacks m fresh (s, h) =
    let lacks = find_id-Under m.next_id m.next_id m.session_list fresh.below (omega arith) in cc
