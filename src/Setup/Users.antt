-- ===== src/Setup/Users.antt =====
-- The users that the configuration makes: who can log in, and that their schedules are whole.
use nermalproxy.Prelude.{
  le→ltb-false, ℕ, ◌<◌, ◌≡◌, refl, sym, subst, ◌∙◌, inl, inr, Bool, true, false, ◌&&◌, ◌||◌, List,
  [], ◌∷◌, ◌++◌, arith, Bool-cases, Option-cases, get_elem?_lt, length-set, set, All-append, done,
}
use nermalproxy.CText.{Bytes, str_eq, codes}
use nermalproxy.TimeMap.{WeeklyAccess, days, init_from_string, init_day_from_string}
use nermalproxy.TimeMap.Schedule.{init-IsDay}
use nermalproxy.TimeMap.Week.{IsWeek, new-permits, index_day-some, All-get, All-set}
use nermalproxy.Auth.{
  User, new_user, add_ip, AuthManager, update_named, set_audit, add_user, add_user_ip,
  password_login, day_index, set_user_day, set_day_of, set_weekly_access,
}
use nermalproxy.Auth.Access.{HasWeeks, day_index-lt}
use nermalproxy.Blacklist.{BlacklistList}
use nermalproxy.Config.{MultiValueAttribute, front_value, ConfigSection, ConfigData, find_section}
use nermalproxy.Policy.{UserPolicyList, add_policy}
use nermalproxy.Setup.{
  value_of, is_enabled, add_ips, values_in, day_strings, set_days, user_account, user_schedule,
  user_policy, configure_user, configure_users,
}

-- The section has this name with this password.
unfoldable pub is_account : List MultiValueAttribute → Bytes → Bytes → Bool
is_account [] name pass = false
is_account (a ∷ attrs) name pass =
    (str_eq a.name name && str_eq (front_value a) pass) || is_account attrs name pass

init_day_any :
    (w : WeeklyAccess) (d : ℕ) (init : Bytes)
    → IsWeek w
    → d < days
    → (w' : WeeklyAccess) × (good : Bool) × (init_day_from_string w d init ≡ done (w', good))
      × IsWeek w'
unfolding init_day_from_string
init_day_any w d init v h =
    let (m, found) = get_elem?_lt w.access_map d (omega (arith, v.seven)) in
    let m' = (init_from_string m init).0 in
    (
      record { access_map = set w.access_map d m' },
      (init_from_string m init).1,
      rw (le→ltb-false days d (omega arith), index_day-some w.access_map d found),
      record {
        seven = length-set w.access_map d m' ∙ v.seven;
        each =
            All-set w.access_map d m' v.each
              (init-IsDay m init (All-get w.access_map d v.each found));
      },
    )

-- A change of the users that leaves schedules whole and accounts as they are, for one account.
abbrev pub Keeps : Bytes → Bytes → List User → List User → Type 0
Keeps name pass us us' = HasWeeks us' × (password_login us' name pass ≡ password_login us name pass)

module _ (name pass : Bytes) where
  set_user_day_keeps :
      (u : User) (day init : Bytes)
      → IsWeek u.weekly_access
      → (u' : User) × (good : Bool) × (set_user_day u day init ≡ done (u', good))
        × IsWeek u'.weekly_access
        × (u'.name ≡ u.name)
        × (u'.password ≡ u.password)
  unfolding set_user_day
  set_user_day_keeps u day init v = elim (Option-cases (day_index day)) [
    | inl unknown ↦ (u, false, rw (unknown, set_user_day), v, refl, refl)
    | inr (d, known) ↦
        let (w, good, e, v') = init_day_any u.weekly_access d init v (day_index-lt day d known) in
        (record u { weekly_access = w }, good, rw (known, set_user_day, e), v', refl, refl)
  ]

  set_day_of-Keeps :
      (us : List User) (user day init : Bytes)
      → HasWeeks us
      → (us' : List User) × (good : Bool) × (set_day_of us user day init ≡ done (us', good))
        × Keeps name pass us us'
  unfolding set_day_of password_login
  set_day_of-Keeps [] user day init v = ([], false, refl, (tt, refl))
  set_day_of-Keeps (u ∷ us) user day init v = elim (Bool-cases (str_eq u.name user)) [
    | inl hit ↦
        let (u', good, e, v', n, p) = set_user_day_keeps u day init v.0 in
        (u' ∷ us, good, rw (hit, e), ((v', v.1), rw (n, p) refl))
    | inr miss ↦
        let (us', good, e, (v', l)) = set_day_of-Keeps us user day init v.1 in
        (u ∷ us', good, rw (miss, e), ((v.0, v'), rw l refl))
  ]

  set_days-Keeps :
      (ds : List Bytes) (policy : ConfigSection) (user : Bytes) (auth : AuthManager)
      → HasWeeks auth.users
      → (auth' : AuthManager) × (set_days ds policy user auth ≡ done auth')
        × Keeps name pass auth.users auth'.users
  unfolding set_days set_weekly_access
  set_days-Keeps [] policy user auth v = (auth, refl, (v, refl))
  set_days-Keeps (day ∷ ds) policy user auth v =
      elim (Bool-cases (str_eq (value_of policy day) [])) [
        | inl blank ↦
            let (auth', e, k) = set_days-Keeps ds policy user auth v in (auth', rw blank e, k)
        | inr filled ↦
            let (us, good, e, (v', l)) =
              set_day_of-Keeps auth.users user day (value_of policy day) v in
            let (auth', e', (v'', l')) =
              set_days-Keeps ds policy user (record auth { users = us }) v' in
            (auth', rw (filled, e, set_weekly_access) e', (v'', l' ∙ l))
      ]

  update-Keeps :
      (f : User → User) (us : List User) (user : Bytes)
      → ((u : User)
          → ((f u).name ≡ u.name)
            × ((f u).password ≡ u.password)
            × ((f u).weekly_access ≡ u.weekly_access))
      → HasWeeks us
      → Keeps name pass us (update_named f us user)
  unfolding update_named password_login
  update-Keeps f [] user h v = (tt, refl)
  update-Keeps f (u ∷ us) user h v =
      let (v', l) = update-Keeps f us user h v.1 in
      let (n, p, w) = h u in
      elim (Bool-cases (str_eq u.name user)) [
        | inl hit ↦ rw hit ((subst IsWeek (sym w) v.0, v'), rw (n, p, l) refl)
        | inr miss ↦ rw miss ((v.0, v'), rw l refl)
      ]

  add_ips-Keeps :
      (ips : List Bytes) (user : Bytes) (auth : AuthManager)
      → HasWeeks auth.users
      → Keeps name pass auth.users (add_ips ips user auth).users
  unfolding add_ips add_user_ip
  add_ips-Keeps [] user auth v = (v, refl)
  add_ips-Keeps (ip ∷ ips) user auth v =
      let (v', l) = update-Keeps (λ u. add_ip u ip) auth.users user (λ u. (refl, refl, refl)) v in
      let (v'', l') = add_ips-Keeps ips user (add_user_ip auth user ip) v' in (v'', l' ∙ l)

  audit-Keeps :
      (auth : AuthManager) (user : Bytes)
      → HasWeeks auth.users
      → Keeps name pass auth.users (set_audit auth user true).users
  unfolding set_audit
  audit-Keeps auth user v =
      update-Keeps (λ u. record u { audit = true }) auth.users user (λ u. (refl, refl, refl)) v

  login-append :
      (us : List User) (user password : Bytes)
      → password_login (us ++ new_user user password ∷ []) name pass
        ≡ (password_login us name pass || (str_eq user name && str_eq password pass))
  unfolding password_login new_user
  login-append [] user password = ground arith
  login-append (u ∷ us) user password = ground (arith, login-append us user password)

  account_lem :
      (section : ConfigSection) (a : MultiValueAttribute) (auth : AuthManager)
      → HasWeeks auth.users
      → HasWeeks (user_account section a auth).users
        × (password_login (user_account section a auth).users name pass ≡ (
            password_login auth.users name pass
            || (str_eq a.name name && str_eq (front_value a) pass)))
  unfolding user_account add_user new_user
  account_lem section a auth v =
      let added = add_user auth a.name (front_value a) in
      let whole =
        All-append (λ u. IsWeek u.weekly_access) auth.users (new_user a.name (front_value a) ∷ []) v
          ((new-permits 0 0 0 (omega arith) (omega arith) (omega arith)).0, tt) in
      let (v', l) = add_ips-Keeps (values_in section (codes "ip_list")) a.name added whole in
      let known = add_ips (values_in section (codes "ip_list")) a.name added in
      let (v'', l') = audit-Keeps known a.name v' in
      let first = login-append auth.users a.name (front_value a) in
      elim (Bool-cases (is_enabled section (codes "audit"))) [
        | inl on ↦ rw on (v'', l' ∙ (l ∙ first))
        | inr off ↦ rw off (v', l ∙ first)
      ]

  schedule_lem :
      (section : ConfigSection) (user : Bytes) (auth : AuthManager)
      → HasWeeks auth.users
      → (auth' : AuthManager) × (user_schedule section user auth ≡ done auth')
        × Keeps name pass auth.users auth'.users
  unfolding user_schedule
  schedule_lem section user auth v =
      elim (Bool-cases (is_enabled section (codes "time_based_policy"))) [
        | inl on ↦ rw on (set_days-Keeps day_strings section user auth v)
        | inr off ↦ (auth, rw off, (v, refl))
      ]

  -- Let every user have a whole week. Configuring the users of a section succeeds, and all users
  -- still have whole weeks; a name and password are then accepted exactly if they were before or
  -- the section has that name with that password.
  pub configure_users_lem :
      (config : ConfigData) (lists : BlacklistList) (attrs : List MultiValueAttribute)
      (auth : AuthManager) (policies : UserPolicyList)
      → HasWeeks auth.users
      → (auth' : AuthManager) × (policies' : UserPolicyList) × (configure_users config lists attrs
            auth policies
          ≡ done (auth', policies'))
        × HasWeeks auth'.users
        × (password_login auth'.users name pass
            ≡ (password_login auth.users name pass || is_account attrs name pass))
  unfolding configure_users configure_user is_account
  configure_users_lem config lists [] auth policies v = (auth, policies, refl, v, ground arith)
  configure_users_lem config lists (a ∷ attrs) auth policies v =
      let section = find_section config a.name in
      let (v1, l1) = account_lem section a auth v in
      let (auth2, e2, (v2, l2)) = schedule_lem section a.name (user_account section a auth) v1 in
      let policies2 = add_policy policies (user_policy section lists a.name) in
      let (auth3, policies3, e3, v3, l3) =
        configure_users_lem config lists attrs auth2 policies2 v2 in
      (auth3, policies3, rw (e2, configure_user) e3, v3, ground arith)
