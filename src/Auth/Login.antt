-- ===== src/Auth/Login.antt =====
-- Who is let in: passwords and addresses against the list of users.
use nermalproxy.Prelude.{
  ◌≡◌, ◌↔◌, ◌⊎◌, refl, inl, inr, true, false, ◌&&◌, List, [], ◌∷◌, arith, Bool-cases, All, Any,
  here, there,
}
use nermalproxy.CText.{Bytes, str_eq, str_eq_iff}
use nermalproxy.Auth.{User, has_ip, ip_login, password_login}
use nermalproxy.Auth.Users.{owns}

-- The user has this name and this password.
abbrev pub Matches : Bytes → Bytes → User → Type 0
Matches name password u = (u.name ≡ name) × (u.password ≡ password)

login_sound :
    (us : List User) (name password : Bytes)
    → password_login us name password ≡ true
    → Any (Matches name password) us
unfolding password_login
login_sound [] name password h = cc
login_sound (u ∷ us) name password h =
    elim (Bool-cases (str_eq u.name name && str_eq u.password password)) [
      | inl hit ↦
          here
            (ground (arith, str_eq_iff u.name name), ground (arith, str_eq_iff u.password password))
      | inr miss ↦ there (login_sound us name password (ground arith))
    ]

login_complete :
    (name password : Bytes) {us : List User}
    → Any (Matches name password) us
    → password_login us name password ≡ true
unfolding password_login
login_complete name password (here {x} h) =
    ground (arith, str_eq_iff x.name name, str_eq_iff x.password password)
login_complete name password (there r) = ground (arith, login_complete name password r)

-- The credentials are accepted exactly when some user has that name and that password.
pub password_login_iff :
    (us : List User) (name password : Bytes)
    → (password_login us name password ≡ true) ↔ Any (Matches name password) us
password_login_iff us name password = (login_sound us name password, login_complete name password)

-- The address is in the list.
abbrev pub Lists : Bytes → List Bytes → Type 0
Lists address = Any (λ ip. ip ≡ address)

has_ip_sound : (ips : List Bytes) (address : Bytes) → has_ip ips address ≡ true → Lists address ips
unfolding has_ip
has_ip_sound [] address h = cc
has_ip_sound (ip ∷ ips) address h = elim (Bool-cases (str_eq ip address)) [
  | inl hit ↦ here ((str_eq_iff ip address).0 hit)
  | inr miss ↦ there (has_ip_sound ips address (ground arith))
]

has_ip_complete :
    (address : Bytes) {ips : List Bytes} → Lists address ips → has_ip ips address ≡ true
unfolding has_ip
has_ip_complete address (here {x} h) = ground (arith, str_eq_iff x address)
has_ip_complete address (there r) = ground (arith, has_ip_complete address r)

pub has_ip_iff :
    (ips : List Bytes) (address : Bytes) → (has_ip ips address ≡ true) ↔ Lists address ips
has_ip_iff ips address = (has_ip_sound ips address, has_ip_complete address)

-- The user has this name and this address.
abbrev pub Owns : Bytes → Bytes → User → Type 0
Owns name address u = (u.name ≡ name) × Lists address u.ip_list

-- Either the address belongs to no user, and the login fails and leaves the name as it was; or it
-- succeeds with the name of a user to whom the address belongs.
pub ip_login_cases :
    (us : List User) (address unset : Bytes)
    → ((ip_login us address unset ≡ (false, unset)) × All (λ u. ¬ Lists address u.ip_list) us)
      ⊎ ((name : Bytes) × (ip_login us address unset ≡ (true, name)) × Any (Owns name address) us)
unfolding ip_login
ip_login_cases [] address unset = inl (refl, tt)
ip_login_cases (u ∷ us) address unset = elim (Bool-cases (has_ip u.ip_list address)) [
  | inl hit ↦
      inr (u.name, rw (owns u address, hit), here (refl, (has_ip_iff u.ip_list address).0 hit))
  | inr miss ↦ elim (ip_login_cases us address unset) [
    | inl (e, a) ↦
        inl (rw (owns u address, miss) e, (λ l. cc ((has_ip_iff u.ip_list address).1 l), a))
    | inr (name, e, a) ↦ inr (name, rw (owns u address, miss) e, there a)
  ]
]
