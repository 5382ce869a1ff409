-- ===== src/Setup/Domains.antt =====
-- The policies that `DoConfig` makes for the users name only lists that were loaded.
use nermalproxy.Prelude.{
  ◌%◌, ◌^◌, ◌≡◌, refl, sym, ap, subst, ◌∙◌, inl, inr, true, false, List, [], ◌∷◌, ◌++◌, Option,
  Bool-cases, Option-cases, All, All-append, done, >>=-eq-done,
}
use nermalproxy.Auth.{AuthManager, set_enabled}
use nermalproxy.Blacklist.{BlacklistList, has_list}
use nermalproxy.Config.{MultiValueAttribute, ConfigSection, ConfigData, find_section}
use nermalproxy.CText.{Bytes, str_eq, codes}
use nermalproxy.Policy.{
  UserPolicy, UserPolicyList, new_user_policy, add_domain, add_policy, global_domain,
}
use nermalproxy.Policy.Filtering.{domains_of}
use nermalproxy.Setup.{
  Settings, initial_settings, value_of, stoul, flag_settings, values_in, general_settings,
  load_domains, known_domains, user_policy, user_schedule, user_account, configure_user,
  configure_users, all_domains, user_settings, do_config,
}

-- All domains of the list were loaded.
abbrev pub AreLoaded : BlacklistList → List Bytes → Type 0
AreLoaded lists = All (λ d. has_list lists d ≡ true)

-- The policies name only lists that were loaded.
abbrev pub IsKnown : BlacklistList → UserPolicyList → Type 0
IsKnown lists = All (λ p. AreLoaded lists p.domains)

known_domains-AreLoaded :
    (lists : BlacklistList) (ds : List Bytes) (p : UserPolicy)
    → AreLoaded lists p.domains
    → AreLoaded lists (known_domains lists ds p).domains
unfolding known_domains add_domain
known_domains-AreLoaded lists [] p h = h
known_domains-AreLoaded lists (d ∷ ds) p h = elim (Bool-cases (has_list lists d)) [
  | inl loaded ↦
      rw (loaded, known_domains)
        (known_domains-AreLoaded lists ds (add_domain p d)
          (All-append (λ d. has_list lists d ≡ true) p.domains (d ∷ []) h (loaded, tt)))
  | inr missing ↦ rw (missing, known_domains) (known_domains-AreLoaded lists ds p h)
]

configure_users-IsKnown :
    (config : ConfigData) (lists : BlacklistList) (attrs : List MultiValueAttribute)
    (auth auth' : AuthManager) (policies policies' : UserPolicyList)
    → IsKnown lists policies
    → configure_users config lists attrs auth policies ≡ done (auth', policies')
    → IsKnown lists policies'
unfolding configure_users configure_user user_policy add_policy new_user_policy
configure_users-IsKnown config lists [] auth auth' policies policies' k e =
    let same : policies ≡ policies' = cc in rw⁻¹ same k
configure_users-IsKnown config lists (a ∷ attrs) auth auth' policies policies' k e =
    let section = find_section config a.name in
    let ((auth1, policies1), e1, rest) =
      >>=-eq-done (configure_user config lists a auth policies) _ e in
    let (auth2, e2, last) =
      >>=-eq-done (user_schedule section a.name (user_account section a auth)) _ e1 in
    let one : policies1 ≡ add_policy policies (user_policy section lists a.name) = cc in
    configure_users-IsKnown config lists attrs auth1 auth' policies1 policies'
      (rw one (
        All-append (λ p. AreLoaded lists p.domains) policies (user_policy section lists a.name ∷ [])
          k
          (
            known_domains-AreLoaded lists (values_in section (codes "domains"))
                (new_user_policy a.name) tt,
            tt,
          )))
      rest

domains_of-AreLoaded :
    (lists : BlacklistList) (ps : UserPolicyList) (last : UserPolicy) (user : Bytes)
    → IsKnown lists ps
    → str_eq last.name user ≡ false
    → AreLoaded lists (domains_of (ps ++ last ∷ []) user)
unfolding domains_of
domains_of-AreLoaded lists [] last user k h = rw h tt
domains_of-AreLoaded lists (p ∷ ps) last user k h = elim (Bool-cases (str_eq p.name user)) [
  | inl hit ↦ rw hit k.0
  | inr miss ↦ rw miss (domains_of-AreLoaded lists ps last user k.1 h)
]

name-all_domains : (ds : List Bytes) (p : UserPolicy) → (all_domains ds p).name ≡ p.name
unfolding all_domains add_domain
name-all_domains [] p = refl
name-all_domains (d ∷ ds) p = name-all_domains ds (add_domain p d)

user_settings-IsKnown :
    (config : ConfigData) (g s : Settings)
    → IsKnown g.blacklists g.policies
    → user_settings config g ≡ done s
    → IsKnown s.blacklists s.policies
unfolding user_settings
user_settings-IsKnown config g s k e = elim (Bool-cases g.auth_enabled) [
  | inl on ↦
      let shown = rw (on, user_settings) at e in
      let ((auth, policies), e', last) =
        >>=-eq-done
          (configure_users config g.blacklists (find_section config (codes "UserAuth")).attributes
            (set_enabled g.auth true) g.policies)
          _ shown in
      let same : record g { auth = auth; policies = policies } ≡ s = cc in
      rw⁻¹ same (
        configure_users-IsKnown config g.blacklists
          (find_section config (codes "UserAuth")).attributes (set_enabled g.auth true) auth
          g.policies policies k e')
  | inr off ↦ let shown = rw (off, user_settings) at e in let same : g ≡ s = cc in rw⁻¹ same k
]

general-no_policies :
    (proxy : ConfigSection) (g : Settings)
    → general_settings proxy initial_settings ≡ done g
    → g.policies ≡ []
unfolding general_settings flag_settings
general-no_policies proxy g e = elim (Bool-cases (str_eq (value_of proxy (codes "port")) [])) [
  | inl absent ↦
      let shown = rw (absent, general_settings) at e in
      let same : flag_settings proxy initial_settings ≡ g = cc in
      ap (λ (x : Settings). x.policies) (sym same)
  | inr given ↦
      let shown = rw (given, general_settings) at e in
      elim (Option-cases (stoul (value_of proxy (codes "port")))) [
        | inl bad ↦ absurd (let failed = rw bad at shown in cc)
        | inr (port, number) ↦
            let stored = rw number at shown in
            let flags = flag_settings proxy initial_settings in
            let same : record flags { server_port = port % 2 ^ 16 } ≡ g = cc in
            ap (λ (x : Settings). x.policies) (sym same)
      ]
]

-- If `DoConfig` returns at the start of the program, the policy of every user other than
-- `<global>` names only lists that were loaded.
pub do_config_domains :
    (files : Bytes → Option Bytes) (config : ConfigData) (s : Settings) (user : Bytes)
    → str_eq global_domain user ≡ false
    → do_config files config initial_settings ≡ done s
    → AreLoaded s.blacklists (domains_of s.policies user)
unfolding do_config add_policy new_user_policy
do_config_domains files config s user h e =
    let proxy = find_section config (codes "Proxy") in
    let (general, e1, rest) = >>=-eq-done (general_settings proxy initial_settings) _ e in
    let lists =
      load_domains files (find_section config (codes "DomainFiles")).attributes
        general.blacklists in
    let (users, e2, last) =
      >>=-eq-done (user_settings config (record general { blacklists = lists })) _ rest in
    let policy =
      all_domains (values_in proxy (codes "global_domains")) (new_user_policy global_domain) in
    let same : record users { policies = add_policy users.policies policy } ≡ s = cc in
    let known =
      user_settings-IsKnown config (record general { blacklists = lists }) users
        (subst (IsKnown lists) (sym (general-no_policies proxy general e1)) tt) e2 in
    subst (λ x. AreLoaded x.blacklists (domains_of x.policies user)) same
      (domains_of-AreLoaded users.blacklists users.policies policy user known (
        ap (λ n. str_eq n user)
          (name-all_domains (values_in proxy (codes "global_domains"))
            (new_user_policy global_domain))
        ∙ h))
