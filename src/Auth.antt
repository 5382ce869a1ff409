-- ===== src/Auth.antt =====
-- `User` and `AuthManager` of UserAuth.cpp: users with their addresses, passwords and schedules.
pub mod Users
pub mod Login
pub mod Credentials
pub mod Access
use nermalproxy.Prelude.{
  ℕ, suc, Bool, true, false, not, ◌&&◌, List, [], ◌∷◌, ◌++◌, map, Option, none, some, ltb, ◌==◌,
  if◌then◌else◌, length, Outcome, done, fault, buffer_overflow, ◌>>=◌,
}
use nermalproxy.Base64.{base64_decode}
use nermalproxy.CText.{Bytes, codes, str_eq, c_str, strchr, scan_token}
use nermalproxy.TimeMap.{pos, WeeklyAccess, new_weekly_access, init_day_from_string, week_permitted}

pub record User : Type 0 where
  pub ip_list : List Bytes
  pub name : Bytes
  pub password : Bytes
  pub weekly_access : WeeklyAccess
  pub audit : Bool

unfoldable pub new_user : Bytes → Bytes → User
new_user name password = record {
  ip_list = [];
  name = name;
  password = password;
  weekly_access = new_weekly_access;
  audit = false;
}

abbrev pub add_ip : User → Bytes → User
add_ip u ip = record u { ip_list = u.ip_list ++ ip ∷ [] }

abbrev pub has_ip_list : User → Bool
has_ip_list u = not (length u.ip_list == 0)

pub record AuthManager : Type 0 where
  pub users : List User
  pub enabled : Bool

abbrev pub new_auth_manager : AuthManager
new_auth_manager = record { users = []; enabled = false }

unfoldable pub set_enabled : AuthManager → Bool → AuthManager
set_enabled m enable = record m { enabled = enable }

-- `IsAuditEnabled`: the first user of that name.
unfoldable pub audit_of : List User → Bytes → Bool
audit_of [] username = false
audit_of (u ∷ us) username = if str_eq u.name username then u.audit else audit_of us username

abbrev pub is_audit_enabled : AuthManager → Bytes → Bool
is_audit_enabled m username = audit_of m.users username

-- A loop that changes every user of that name.
unfoldable pub update_named : (User → User) → List User → Bytes → List User
update_named f [] username = []
update_named f (u ∷ us) username =
    (if str_eq u.name username then f u else u) ∷ update_named f us username

unfoldable pub set_audit : AuthManager → Bytes → Bool → AuthManager
unfolding update_named
set_audit m username audit = record m {
  users = update_named (λ u. record u { audit = audit }) m.users username;
}

unfoldable pub add_user : AuthManager → Bytes → Bytes → AuthManager
add_user m user password = record m { users = m.users ++ new_user user password ∷ [] }

unfoldable pub add_user_ip : AuthManager → Bytes → Bytes → AuthManager
unfolding update_named
add_user_ip m username ip = record m { users = update_named (λ u. add_ip u ip) m.users username }

-- The loop over the addresses of one user.
unfoldable pub has_ip : List Bytes → Bytes → Bool
has_ip [] address = false
has_ip (ip ∷ ips) address = if str_eq ip address then true else has_ip ips address

-- `AuthenticateIp`: the result, and `username` afterwards.
unfoldable pub ip_login : List User → Bytes → Bytes → Bool × Bytes
unfolding has_ip
ip_login [] address username = (false, username)
ip_login (u ∷ us) address username =
    if has_ip_list u && has_ip u.ip_list address
    then (true, u.name)
    else ip_login us address username

abbrev pub authenticate_ip : AuthManager → Bytes → Bytes → Bool × Bytes
authenticate_ip m address username = ip_login m.users address username

-- `Authenticate_i`
unfoldable pub password_login : List User → Bytes → Bytes → Bool
password_login [] name password = false
password_login (u ∷ us) name password =
    if str_eq u.name name && str_eq u.password password
    then true
    else password_login us name password

-- The sizes of `user` and `pass` in `Authenticate`.
abbrev pub word_capacity : ℕ
word_capacity = 128

-- One `%s` into a zeroed array: the word, and the text that follows it.
unfoldable pub read_word : ℕ → Bytes → Outcome (Bytes × Bytes)
read_word capacity text = elim (scan_token text) [
  | none ↦ done ([], [])
  | some (word, rest) ↦
      if ltb (length word) capacity then done (word, rest) else fault buffer_overflow
]

-- The first colon becomes a space.
unfoldable pub split_colon : Bytes → Bytes
split_colon text = elim (strchr text b':') [ none ↦ text | some (a, b) ↦ a ++ 32 ∷ b ]

-- `Authenticate`: the result, and `username` afterwards.
unfoldable pub authenticate : AuthManager → Bytes → Bytes → Outcome (Bool × Bytes)
authenticate m creds username = elim (base64_decode creds) [
  | none ↦ done (false, username)
  | some (buf, size) ↦ do
    (user, rest) ← read_word word_capacity (split_colon (c_str buf))
    (pass, _) ← read_word word_capacity rest
    done (true, if password_login m.users user pass then user else username)
]

-- The fields of `struct tm` that are read.
pub record LocalTime : Type 0 where
  pub wday : ℕ
  pub hour : ℕ
  pub min : ℕ

-- `AccessAllowedAtTime`, with what `localtime` returns, null included.
unfoldable pub access_of : List User → Bytes → Option LocalTime → Outcome Bool
access_of [] username now = done false
access_of (u ∷ us) username now =
    let rest = access_of us username now in
    if str_eq u.name username
    then elim now [
      | none ↦ rest
      | some t ↦ week_permitted u.weekly_access (pos t.wday) (pos t.hour) (pos t.min)
    ]
    else rest

abbrev pub access_allowed : AuthManager → Bytes → Option LocalTime → Outcome Bool
access_allowed m username now = access_of m.users username now

unfoldable pub day_index : Bytes → Option ℕ
day_index day =
    if str_eq day (codes "sun")
    then some 0
    else if str_eq day (codes "mon")
    then some 1
    else if str_eq day (codes "tue")
    then some 2
    else if str_eq day (codes "wed")
    then some 3
    else if str_eq day (codes "thr")
    then some 4
    else if str_eq day (codes "fri")
    then some 5
    else if str_eq day (codes "sat")
    then some 6
    else none

-- The body of the loop of `SetWeeklyAccess` for the user that it finds.
unfoldable pub set_user_day : User → Bytes → Bytes → Outcome (User × Bool)
set_user_day u day init = elim (day_index day) [
  | none ↦ done (u, false)
  | some d ↦ do
    (w, good) ← init_day_from_string u.weekly_access d init
    done (record u { weekly_access = w }, good)
]

unfoldable pub set_day_of : List User → Bytes → Bytes → Bytes → Outcome (List User × Bool)
set_day_of [] username day init = done ([], false)
set_day_of (u ∷ us) username day init =
    if str_eq u.name username
    then (do (u', good) ← set_user_day u day init; done (u' ∷ us, good))
    else (do (rest, good) ← set_day_of us username day init; done (u ∷ rest, good))

-- `SetWeeklyAccess`
unfoldable pub set_weekly_access :
    AuthManager → Bytes → Bytes → Bytes → Outcome (AuthManager × Bool)
set_weekly_access m username day init = do
  (users, good) ← set_day_of m.users username day init
  done (record m { users = users }, good)
