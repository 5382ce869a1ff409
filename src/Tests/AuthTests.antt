-- ===== src/Tests/AuthTests.antt =====
-- `AuthManager` of UserAuth.cpp with the users of default.conf.
use nermalproxy.Prelude.{
  ◌≡◌, ◌↔◌, ◌⊎◌, refl, Bool, true, false, ◌&&◌, [], some, arith, replicate, Any, done, fault,
  buffer_overflow,
}
use nermalproxy.Auth.{
  new_user, AuthManager, new_auth_manager, add_user, add_user_ip, set_audit, authenticate, ip_login,
  has_ip, password_login, read_word, split_colon, LocalTime, access_of, access_allowed, day_index,
  set_weekly_access, update_named, audit_of,
}
use nermalproxy.Auth.Access.{IsClock, HasWeeks, access-set_weekly_access, access_of_total}
use nermalproxy.Auth.Credentials.{
  IsToken, credentials, Decodes, authenticate-credentials, authenticate_overflow, Carries,
  authenticate_result,
}
use nermalproxy.Auth.Login.{Matches}
use nermalproxy.Auth.Users.{is_registered}
use nermalproxy.Base64.{base64_decode, decode_loop, take_char, sextet_value}
use nermalproxy.Base64.Encoding.{encode, sextet_char}
use nermalproxy.CText.{Bytes, codes, str_eq, c_str, strchr, scan_token, skip_space, span_token}
use nermalproxy.TimeMap.Week.{new-permits}

texts : Unit {0}
unfolding str_eq c_str strchr scan_token skip_space span_token base64_decode decode_loop take_char
    sextet_value encode sextet_char
texts = tt

program : Unit {0}
unfolding texts new_user add_user add_user_ip set_audit authenticate ip_login password_login
    access_of set_weekly_access read_word split_colon has_ip update_named audit_of day_index
    is_registered
program = tt

abbrev user1 : Bytes
user1 = codes "user1"

abbrev pass1 : Bytes
pass1 = codes "pass1"

-- One user, with a password and no address.
manager : AuthManager
manager = add_user new_auth_manager user1 pass1

login_test : authenticate manager (codes "dXNlcjE6cGFzczE=") [] ≡ done (true, user1)
unfolding program manager
login_test = refl

-- A wrong password succeeds too, and leaves the name empty.
wrong_password : authenticate manager (codes "dXNlcjE6eA==") [] ≡ done (true, [])
unfolding program manager
wrong_password = refl

user1-IsToken : IsToken user1
user1-IsToken = record {
  bytes = omega arith;
  nonzero = omega arith;
  word = ground arith;
  nonempty = λ e. cc;
}

pass1-IsToken : IsToken pass1
pass1-IsToken = record {
  bytes = omega arith;
  nonzero = omega arith;
  word = ground arith;
  nonempty = λ e. cc;
}

authenticate-credentials_example :
    (Any (Matches user1 pass1) manager.users
      → authenticate manager (credentials user1 pass1) [] ≡ done (true, user1))
    × (¬ Any (Matches user1 pass1) manager.users
        → authenticate manager (credentials user1 pass1) [] ≡ done (true, []))
authenticate-credentials_example =
    authenticate-credentials manager user1 pass1 [] user1-IsToken pass1-IsToken (omega arith)
      (omega arith) (omega arith)

authenticate_result_example :
    (◌≡◌ {A = Bool} true true ↔ Decodes (codes "dXNlcjE6cGFzczE="))
    × (◌≡◌ {A = Bytes} user1 []
        ⊎ ((pass : Bytes) × Carries (codes "dXNlcjE6cGFzczE=") user1 pass
            × Any (Matches user1 pass) manager.users))
authenticate_result_example =
    authenticate_result manager (codes "dXNlcjE6cGFzczE=") [] true user1 login_test

abbrev long_name : Bytes
long_name = replicate 128 b'a'

long_name-IsToken : IsToken long_name
long_name-IsToken = record {
  bytes = omega arith;
  nonzero = omega arith;
  word = ground arith;
  nonempty = λ e. cc;
}

authenticate_overflow_example :
    authenticate manager (credentials long_name pass1) [] ≡ fault buffer_overflow
authenticate_overflow_example =
    authenticate_overflow manager long_name pass1 [] long_name-IsToken pass1-IsToken (omega arith)
      (omega arith)

abbrev address : Bytes
address = codes "192.168.0.108"

manager_HasWeeks : HasWeeks manager.users
unfolding manager add_user new_user
manager_HasWeeks = ((new-permits 0 0 0 (omega arith) (omega arith) (omega arith)).0, tt)

-- Sunday, a quarter to four.
abbrev at_night : LocalTime
at_night = record { wday = 0; hour = 3; min = 45 }

at_night-IsClock : IsClock at_night
at_night-IsClock = omega arith

access-set_weekly_access_example :
    (m : AuthManager) × (set_weekly_access manager user1
        (codes "sun")
        (codes "----XXXXXXXX------------------------------------")
      ≡ done (m, true))
    × HasWeeks m.users
    × (access_allowed m user1 (some at_night) ≡ done false)
unfolding program manager
access-set_weekly_access_example =
    access-set_weekly_access (codes "sun")
      (codes "----XXXXXXXX------------------------------------") 0 b'X' at_night refl refl
      at_night-IsClock refl manager user1 user1 manager_HasWeeks refl

access_of_total_example :
    (b : Bool) × (access_of manager.users user1 (some at_night) ≡ done b)
    × (b ≡ (is_registered manager.users user1 && b))
access_of_total_example =
    access_of_total manager.users user1 at_night manager_HasWeeks at_night-IsClock
