-- ===== src/Setup.antt =====
-- main.cpp: `DoConfig`, from the sections of the configuration to users, policies and blacklists.
pub mod Users
pub mod Policies
pub mod Domains
pub mod Decimal
use nermalproxy.Prelude.{
  ℕ, suc, ◌+◌, ◌-◌, ◌*◌, ◌%◌, ◌^◌, Bool, true, false, not, ◌&&◌, List, [], ◌∷◌, ◌++◌, Option, none,
  some, leb, ltb, ◌==◌, if◌then◌else◌, Outcome, done, fault, uncaught_exception, ◌>>=◌,
}
use nermalproxy.Auth.{
  AuthManager, new_auth_manager, set_enabled, add_user, add_user_ip, set_audit, set_weekly_access,
}
use nermalproxy.Blacklist.{BlacklistList, new_blacklist, load_from_file, add_list, has_list}
use nermalproxy.Config.{
  MultiValueAttribute, front_value, ConfigSection, get_attribute, ConfigData, find_section,
}
use nermalproxy.CText.{Bytes, codes, str_eq, skip_space}
use nermalproxy.Log.{LogSeverity, error, warn, info, debug}
use nermalproxy.Policy.{
  UserPolicy, UserPolicyList, new_user_policy, add_domain, add_policy, global_domain,
}

-- The value of a number in front of the first character that is no digit.
unfoldable pub digits_value : ℕ → Bytes → ℕ
digits_value n [] = n
digits_value n (c ∷ cs) =
    let rest = digits_value (n * 10 + (c - b'0')) cs in if leb b'0' c && leb c b'9' then rest else n

-- The digits in front of a text, below the range of 64 bits; `none` is an exception.
unfoldable pub digits_in_range : Bytes → Option ℕ
digits_in_range [] = none
digits_in_range (c ∷ cs) =
    let n = digits_value 0 (c ∷ cs) in
    if leb b'0' c && leb c b'9' then (if ltb n (2 ^ 64) then some n else none) else none

-- `std::stoul`: white space, a sign, and digits; a negative number wraps around.
unfoldable pub stoul : Bytes → Option ℕ
stoul text = elim (skip_space text) [
  | [] ↦ none
  | c ∷ cs ↦
      if c == b'-'
      then elim (digits_in_range cs) [ none ↦ none | some n ↦ some ((2 ^ 64 - n) % 2 ^ 64) ]
      else digits_in_range (if c == b'+' then cs else c ∷ cs)
]

-- The state that the configuration sets.
pub record Settings : Type 0 where
  pub verbosity : LogSeverity
  pub log_to_file : Bool
  pub server_port : ℕ
  pub auth_enabled : Bool
  pub auth : AuthManager
  pub policies : UserPolicyList
  pub blacklists : BlacklistList

abbrev pub initial_settings : Settings
initial_settings = record {
  verbosity = debug;
  log_to_file = false;
  server_port = 10080;
  auth_enabled = false;
  auth = new_auth_manager;
  policies = [];
  blacklists = [];
}

-- The first value of a key of a section.
abbrev pub value_of : ConfigSection → Bytes → Bytes
value_of s key = front_value (get_attribute s.attributes key)

abbrev pub values_in : ConfigSection → Bytes → List Bytes
values_in s key = (get_attribute s.attributes key).values

abbrev pub is_enabled : ConfigSection → Bytes → Bool
is_enabled s key = str_eq (value_of s key) (codes "enabled")

unfoldable pub set_verbosity : Bytes → LogSeverity → LogSeverity
set_verbosity value old =
    if str_eq value (codes "debug")
    then debug
    else if str_eq value (codes "info")
    then info
    else if str_eq value (codes "warn")
    then warn
    else if str_eq value (codes "error")
    then error
    else old

-- The verbosity, and the flags.
unfoldable pub flag_settings : ConfigSection → Settings → Settings
unfolding set_verbosity
flag_settings proxy s = record s {
  verbosity = set_verbosity (value_of proxy (codes "log_verbosity")) s.verbosity;
  log_to_file = if is_enabled proxy (codes "log_to_file") then true else s.log_to_file;
  auth_enabled = if is_enabled proxy (codes "auth") then true else s.auth_enabled;
}

-- These and the port, which is converted to `std::uint16_t`.
unfoldable pub general_settings : ConfigSection → Settings → Outcome Settings
general_settings proxy s =
    let s' = flag_settings proxy s in
    if str_eq (value_of proxy (codes "port")) []
    then done s'
    else elim (stoul (value_of proxy (codes "port"))) [
      | none ↦ fault uncaught_exception
      | some port ↦ done (record s' { server_port = port % 2 ^ 16 })
    ]

-- The loop over the section `DomainFiles`. The files are given by their paths, `none` for one
-- that cannot be opened.
unfoldable pub load_domains :
    (Bytes → Option Bytes) → List MultiValueAttribute → BlacklistList → BlacklistList
load_domains files [] lists = lists
load_domains files (a ∷ attrs) lists =
    let (domain, loaded) = load_from_file (new_blacklist a.name) (files (front_value a)) in
    load_domains files attrs (if loaded then add_list lists domain else lists)

-- The loop over the domains of a user: those that are known are added.
unfoldable pub known_domains : BlacklistList → List Bytes → UserPolicy → UserPolicy
known_domains lists [] policy = policy
known_domains lists (d ∷ ds) policy =
    known_domains lists ds (if has_list lists d then add_domain policy d else policy)

unfoldable pub add_ips : List Bytes → Bytes → AuthManager → AuthManager
add_ips [] user auth = auth
add_ips (ip ∷ ips) user auth = add_ips ips user (add_user_ip auth user ip)

abbrev pub day_strings : List Bytes
day_strings =
    codes "sun"
    ∷ codes "mon"
    ∷ codes "tue"
    ∷ codes "wed"
    ∷ codes "thr"
    ∷ codes "fri"
    ∷ codes "sat"
    ∷ []

-- The loop over the days; the result of `SetWeeklyAccess` is not looked at.
unfoldable pub set_days : List Bytes → ConfigSection → Bytes → AuthManager → Outcome AuthManager
set_days [] policy user auth = done auth
set_days (day ∷ rest) policy user auth =
    (if str_eq (value_of policy day) []
      then done auth
      else (set_weekly_access auth user day (value_of policy day) >>= λ r. done r.0))
    >>= set_days rest policy user

-- A user with password, addresses and the audit flag.
unfoldable pub user_account : ConfigSection → MultiValueAttribute → AuthManager → AuthManager
user_account section a auth =
    let known =
      add_ips (values_in section (codes "ip_list")) a.name (add_user auth a.name (front_value a)) in
    if is_enabled section (codes "audit") then set_audit known a.name true else known

unfoldable pub user_schedule : ConfigSection → Bytes → AuthManager → Outcome AuthManager
user_schedule section user auth =
    if is_enabled section (codes "time_based_policy")
    then set_days day_strings section user auth
    else done auth

unfoldable pub user_policy : ConfigSection → BlacklistList → Bytes → UserPolicy
user_policy section lists user =
    known_domains lists (values_in section (codes "domains")) (new_user_policy user)

-- The body of the loop over the section `UserAuth`.
unfoldable pub configure_user :
    ConfigData
    → BlacklistList
    → MultiValueAttribute
    → AuthManager
    → UserPolicyList
    → Outcome (AuthManager × UserPolicyList)
configure_user config lists a auth policies =
    let section = find_section config a.name in
    user_schedule section a.name (user_account section a auth) >>= λ auth'.
    done (auth', add_policy policies (user_policy section lists a.name))

unfoldable pub configure_users :
    ConfigData
    → BlacklistList
    → List MultiValueAttribute
    → AuthManager
    → UserPolicyList
    → Outcome (AuthManager × UserPolicyList)
configure_users config lists [] auth policies = done (auth, policies)
configure_users config lists (a ∷ attrs) auth policies =
    configure_user config lists a auth policies >>= λ r. configure_users config lists attrs r.0 r.1

-- The loop over the global domains, which are added whether known or not.
unfoldable pub all_domains : List Bytes → UserPolicy → UserPolicy
all_domains [] policy = policy
all_domains (d ∷ ds) policy = all_domains ds (add_domain policy d)

-- The users, if authentication is enabled.
unfoldable pub user_settings : ConfigData → Settings → Outcome Settings
user_settings config s =
    if s.auth_enabled
    then (configure_users config s.blacklists (find_section config (codes "UserAuth")).attributes
          (set_enabled s.auth true) s.policies
        >>= λ r. done (record s { auth = r.0; policies = r.1 }))
    else done s

-- `DoConfig`, on the sections that `LoadData` has read; becoming a daemon is left out.
unfoldable pub do_config : (Bytes → Option Bytes) → ConfigData → Settings → Outcome Settings
do_config files config s = do
  let proxy = find_section config (codes "Proxy")
  general ← general_settings proxy s
  let domain_files = (find_section config (codes "DomainFiles")).attributes
  users ←
      user_settings config
        (record general { blacklists = load_domains files domain_files general.blacklists })
  let policy =
      all_domains (values_in proxy (codes "global_domains")) (new_user_policy global_domain)
  done (record users { policies = add_policy users.policies policy })
