-- ===== src/Tests/FilterTests.antt =====
-- BlackList.cpp, Policy.cpp and `isAllowed` on a small configuration.
use nermalproxy.Prelude.{◌≡◌, refl, true, false, ◌&&◌, [], ◌∷◌, some, arith, here}
use nermalproxy.Blacklist.{
  Blacklist, new_blacklist, contains, load_from_file, is_host_allowed, is_allowed_in_list, has_list,
}
use nermalproxy.Blacklist.Loading.{IsHost, allowed-load_from_file}
use nermalproxy.CText.{codes, str_eq, c_str, strchr}
use nermalproxy.Policy.{UserPolicyList, get_user_domain, check_domains, global_domain, is_allowed}
use nermalproxy.Policy.Filtering.{domains_of, allows_all, is_allowed_lem, is_allowed_missing}

program : Unit {0}
unfolding str_eq c_str strchr new_blacklist contains load_from_file is_host_allowed
    is_allowed_in_list has_list get_user_domain check_domains is_allowed domains_of allows_all
program = tt

load_test :
    (load_from_file (new_blacklist (codes "ads")) (some (codes "a.com\r\nb.org\n\nc"))).0.blacklist
    ≡ codes "c" ∷ [] ∷ codes "b.org" ∷ codes "a.com" ∷ []
unfolding program
load_test = refl

abbrev ads : Blacklist
ads = record { name = codes "ads"; blacklist = codes "ad.com" ∷ [] }

abbrev policies : UserPolicyList
policies =
    record { name = codes "user1"; domains = codes "ads" ∷ [] }
    ∷ record { name = global_domain; domains = [] }
    ∷ []

blocked_test :
    (is_allowed 2 policies (ads ∷ []) (codes "user1") (codes "ad.com") ≡ some false)
    × (is_allowed 2 policies (ads ∷ []) (codes "user1") (codes "b.org") ≡ some true)
    × (is_allowed 2 policies (ads ∷ []) (codes "user2") (codes "ad.com") ≡ some true)
unfolding program
blocked_test = (refl, refl, refl)

is_allowed_lem_example :
    is_allowed 2 policies (ads ∷ []) (codes "user1") (codes "ad.com")
    ≡ some (
        allows_all (ads ∷ []) (codes "ad.com") (domains_of policies (codes "user1"))
        && allows_all (ads ∷ []) (codes "ad.com") (domains_of policies global_domain))
unfolding program
is_allowed_lem_example =
    is_allowed_lem 2 policies (ads ∷ []) (codes "user1") (codes "ad.com") (omega arith)
      (omega arith)

abbrev default_only : UserPolicyList
default_only = record { name = global_domain; domains = codes "spam" ∷ [] } ∷ []

is_allowed_missing_example :
    is_allowed 2 default_only (ads ∷ []) (codes "user1") (codes "b.org") ≡ some false
unfolding program
is_allowed_missing_example =
    is_allowed_missing 2 default_only (ads ∷ []) (codes "user1") (codes "b.org") (omega arith)
      (omega arith) (here refl)

ad_IsHost : IsHost (codes "ad.com")
ad_IsHost = omega arith

allowed-load_from_file_example :
    ((load_from_file ads (some (codes "ad.com\r\n"))).1 ≡ true)
    × (is_host_allowed (load_from_file ads (some (codes "ad.com\r\n"))).0 (codes "ad.com") ≡ false)
unfolding contains str_eq is_host_allowed
allowed-load_from_file_example =
    allowed-load_from_file ads true (codes "ad.com" ∷ []) (codes "ad.com") (ad_IsHost, tt)
