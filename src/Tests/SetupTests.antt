-- ===== src/Tests/SetupTests.antt =====
-- `DoConfig` of main.cpp on a small configuration.
use nermalproxy.Prelude.{
  ◌≡◌, refl, inr, true, [], ◌∷◌, Option, some, done, fault, uncaught_exception,
}
use nermalproxy.Auth.{
  update_named, add_user, add_user_ip, set_audit, set_weekly_access, set_enabled, password_login,
  new_user,
}
use nermalproxy.Auth.Access.{HasWeeks}
use nermalproxy.Blacklist.{
  new_blacklist, load_from_file, load_lines, get_lines, host_of, cut_at, insert, contains, add_list,
  has_list,
}
use nermalproxy.CText.{Bytes, codes, str_eq, c_str, strchr, skip_space}
use nermalproxy.Config.{ConfigData, front_value, get_attribute, find_section}
use nermalproxy.Policy.{new_user_policy, add_domain, add_policy}
use nermalproxy.Policy.Filtering.{domains_of}
use nermalproxy.Setup.{
  Settings, initial_settings, digits_value, digits_in_range, stoul, set_verbosity, flag_settings,
  general_settings, load_domains, known_domains, add_ips, set_days, user_account, user_schedule,
  user_policy, configure_user, configure_users, all_domains, user_settings, do_config,
}
use nermalproxy.Setup.Domains.{AreLoaded, do_config_domains}
use nermalproxy.Setup.Policies.{do_config_users}
use nermalproxy.Setup.Users.{is_account}
use nermalproxy.TimeMap.{new_weekly_access, init_day_from_string}

program : Unit {0}
unfolding update_named add_user add_user_ip set_audit set_weekly_access set_enabled password_login
    new_user new_blacklist load_from_file load_lines get_lines host_of cut_at insert contains
    add_list has_list str_eq c_str strchr skip_space front_value get_attribute find_section
    new_user_policy add_domain add_policy domains_of digits_value digits_in_range stoul
    set_verbosity flag_settings general_settings load_domains known_domains add_ips set_days
    user_account user_schedule user_policy configure_user configure_users all_domains user_settings
    do_config is_account new_weekly_access init_day_from_string
program = tt

abbrev config : ConfigData
config =
    record {
      name = codes "Proxy";
      attributes =
          record { name = codes "port"; values = codes "8080" ∷ [] }
          ∷ record { name = codes "auth"; values = codes "enabled" ∷ [] }
          ∷ [];
    }
    ∷ record {
      name = codes "UserAuth";
      attributes = record { name = codes "user1"; values = codes "pass1" ∷ [] } ∷ [];
    }
    ∷ record {
      name = codes "DomainFiles";
      attributes = record { name = codes "ads"; values = codes "ads.list" ∷ [] } ∷ [];
    }
    ∷ record {
      name = codes "user1";
      attributes = record { name = codes "domains"; values = codes "ads" ∷ codes "spam" ∷ [] } ∷ [];
    }
    ∷ []

abbrev files : Bytes → Option Bytes
files path = some (codes "ad.com\n")

-- The list `spam` was not loaded.
abbrev settings : Settings
settings = record initial_settings {
  server_port = 8080;
  auth_enabled = true;
  auth = record { users = new_user (codes "user1") (codes "pass1") ∷ []; enabled = true };
  policies =
      record { name = codes "user1"; domains = codes "ads" ∷ [] }
      ∷ record { name = codes "<global>"; domains = [] }
      ∷ [];
  blacklists = record { name = codes "ads"; blacklist = codes "ad.com" ∷ [] } ∷ [];
}

config_test : do_config files config initial_settings ≡ done settings
unfolding program
config_test = refl

-- A port that is no number ends the program.
port_test :
    do_config files
      (record {
        name = codes "Proxy";
        attributes = record { name = codes "port"; values = codes "http" ∷ [] } ∷ [];
      }
        ∷ [])
      initial_settings
    ≡ fault uncaught_exception
unfolding program
port_test = refl

do_config_users_example :
    (s : Settings) × (do_config files config initial_settings ≡ done s)
    × HasWeeks s.auth.users
    × (password_login s.auth.users (codes "user1") (codes "pass1") ≡ true)
unfolding program
do_config_users_example =
    do_config_users files config (codes "user1") (codes "pass1") (inr (8080, refl))

do_config_domains_example :
    AreLoaded settings.blacklists (domains_of settings.policies (codes "user1"))
unfolding program
do_config_domains_example = do_config_domains files config settings (codes "user1") refl refl
