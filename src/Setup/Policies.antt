-- ===== src/Setup/Policies.antt =====
-- What `DoConfig` as a whole leaves: accounts, schedules and policies.
use nermalproxy.Prelude.{
  ℕ, ◌%◌, ◌^◌, ◌≡◌, ◌⊎◌, refl, sym, ap, subst, ◌∙◌, inl, inr, Bool, true, false, ◌&&◌, ◌||◌, [],
  Option, some, arith, Bool-cases, done,
}
use nermalproxy.Auth.{set_enabled, password_login}
use nermalproxy.Auth.Access.{HasWeeks}
use nermalproxy.Config.{ConfigSection, ConfigData, find_section}
use nermalproxy.CText.{Bytes, str_eq, codes}
use nermalproxy.Policy.{new_user_policy, add_policy, global_domain}
use nermalproxy.Setup.{
  Settings, initial_settings, value_of, values_in, stoul, flag_settings, general_settings,
  load_domains, all_domains, user_settings, do_config,
}
use nermalproxy.Setup.Users.{is_account, configure_users_lem}

-- A port is given as a number, or not at all.
abbrev pub HasPort : ConfigSection → Type 0
HasPort proxy =
    (str_eq (value_of proxy (codes "port")) [] ≡ true)
    ⊎ ((n : ℕ) × (stoul (value_of proxy (codes "port")) ≡ some n))

-- Whether the section asks for authentication.
abbrev pub wants_auth : ConfigSection → Bool
wants_auth proxy = str_eq (value_of proxy (codes "auth")) (codes "enabled")

-- What the general settings leave of the initial ones.
pub record IsGeneral (proxy : ConfigSection) (g : Settings) : Type 0 where
  pub auth_kept : g.auth ≡ initial_settings.auth
  pub policies_kept : g.policies ≡ []
  pub lists_kept : g.blacklists ≡ []
  pub auth_set : g.auth_enabled ≡ wants_auth proxy

general_settings_done :
    (proxy : ConfigSection)
    → HasPort proxy
    → (g : Settings) × (general_settings proxy initial_settings ≡ done g) × IsGeneral proxy g
unfolding general_settings flag_settings
general_settings_done proxy (inl absent) =
    let g = flag_settings proxy initial_settings in
    (
      g,
      rw absent refl,
      record { auth_kept = refl; policies_kept = refl; lists_kept = refl; auth_set = ground arith },
    )
general_settings_done proxy (inr (n, number)) =
    let g = flag_settings proxy initial_settings in
    let g' : Settings = record g { server_port = n % 2 ^ 16 } in
    elim (Bool-cases (str_eq (value_of proxy (codes "port")) [])) [
      | inl absent ↦ (
        g,
        rw absent refl,
        record {
          auth_kept = refl;
          policies_kept = refl;
          lists_kept = refl;
          auth_set = ground arith;
        },
      )
      | inr given ↦ (
        g',
        rw (given, number) refl,
        record {
          auth_kept = refl;
          policies_kept = refl;
          lists_kept = refl;
          auth_set = ground arith;
        },
      )
    ]

user_settings_lem :
    (config : ConfigData) (name pass : Bytes) (g : Settings)
    → HasWeeks g.auth.users
    → (s : Settings) × (user_settings config g ≡ done s)
      × HasWeeks s.auth.users
      × (password_login s.auth.users name pass ≡ (
          password_login g.auth.users name pass
          || (g.auth_enabled
              && is_account (find_section config (codes "UserAuth")).attributes name pass)))
unfolding user_settings set_enabled
user_settings_lem config name pass g v = elim (Bool-cases g.auth_enabled) [
  | inl on ↦
      let (auth, policies, e, v', l) =
        configure_users_lem name pass config g.blacklists
          (find_section config (codes "UserAuth")).attributes (set_enabled g.auth true) g.policies
          v in
      (record g { auth = auth; policies = policies }, rw (on, e) refl, v', rw on l)
  | inr off ↦ (g, rw off refl, v, rw off (ground arith))
]

-- If the port is a number or absent, `DoConfig` succeeds at the start of the program, whatever else
-- the file holds. Every user then has a whole week; and a name and password are accepted exactly
-- if authentication is enabled and the section `UserAuth` has that name with that password.
pub do_config_users :
    (files : Bytes → Option Bytes) (config : ConfigData) (name pass : Bytes)
    → HasPort (find_section config (codes "Proxy"))
    → (s : Settings) × (do_config files config initial_settings ≡ done s)
      × HasWeeks s.auth.users
      × (password_login s.auth.users name pass ≡ (
          wants_auth (find_section config (codes "Proxy"))
          && is_account (find_section config (codes "UserAuth")).attributes name pass))
unfolding do_config password_login
do_config_users files config name pass port =
    let proxy = find_section config (codes "Proxy") in
    let (g, e, kept) = general_settings_done proxy port in
    let lists =
      load_domains files (find_section config (codes "DomainFiles")).attributes g.blacklists in
    let none_yet : HasWeeks g.auth.users = subst (λ a. HasWeeks a.users) (sym kept.auth_kept) tt in
    let (s, e', v, l) =
      user_settings_lem config name pass (record g { blacklists = lists }) none_yet in
    let policy =
      all_domains (values_in proxy (codes "global_domains")) (new_user_policy global_domain) in
    let nobody : password_login g.auth.users name pass ≡ false =
      ap (λ a. password_login a.users name pass) kept.auth_kept in
    (
      record s { policies = add_policy s.policies policy },
      rw (e, e') refl,
      v,
      l ∙ rw (nobody, kept.auth_set),
    )
