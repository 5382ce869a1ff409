-- ===== src/Policy.antt =====
-- Policy.cpp: the blacklists that apply to a user; and `isAllowed` of ProxyConnector.cpp, which
-- asks them about the host of a session.
pub mod Filtering
use nermalproxy.Prelude.{
  ℕ, zero, suc, Bool, true, false, not, List, [], ◌∷◌, ◌++◌, Option, none, some, leb, if◌then◌else◌,
  length, get_elem?,
}
use nermalproxy.CText.{Bytes, codes, str_eq}
use nermalproxy.Blacklist.{BlacklistList, is_allowed_in_list}

pub record UserPolicy : Type 0 where
  pub name : Bytes
  pub domains : List Bytes

unfoldable pub new_user_policy : Bytes → UserPolicy
new_user_policy name = record { name = name; domains = [] }

unfoldable pub add_domain : UserPolicy → Bytes → UserPolicy
add_domain p domain = record p { domains = p.domains ++ domain ∷ [] }

-- `GetDomain`: the domain that is stored through the reference, or `none` for `false`.
unfoldable pub get_domain : UserPolicy → ℕ → Option Bytes
get_domain p idx = if leb (length p.domains) idx then none else get_elem? p.domains idx

-- `UserPolicyList`, in the order of the additions.
abbrev pub UserPolicyList : Type 0
UserPolicyList = List UserPolicy

unfoldable pub add_policy : UserPolicyList → UserPolicy → UserPolicyList
add_policy ps p = ps ++ p ∷ []

unfoldable pub get_user_domain : UserPolicyList → ℕ → Bytes → Option Bytes
unfolding get_domain
get_user_domain [] idx user = none
get_user_domain (p ∷ ps) idx user =
    if str_eq p.name user then get_domain p idx else get_user_domain ps idx user

-- One of the two loops of `isAllowed`, from index `idx` on; `none` is the end of the fuel.
unfoldable pub check_domains : ℕ → ℕ → UserPolicyList → BlacklistList → Bytes → Bytes → Option Bool
check_domains zero idx ps ls user host = none
check_domains (suc fuel) idx ps ls user host =
    let rest = check_domains fuel (suc idx) ps ls user host in
    elim (get_user_domain ps idx user) [
      | none ↦ some true
      | some domain ↦ if not (is_allowed_in_list ls domain host) then some false else rest
    ]

abbrev pub global_domain : Bytes
global_domain = codes "<global>"

-- `isAllowed`, for the user name and the host of the session.
unfoldable pub is_allowed : ℕ → UserPolicyList → BlacklistList → Bytes → Bytes → Option Bool
is_allowed fuel ps ls user host = elim (check_domains fuel 0 ps ls user host) [
  | none ↦ none
  | some allowed ↦ if allowed then check_domains fuel 0 ps ls global_domain host else some false
]
