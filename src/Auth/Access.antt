-- ===== src/Auth/Access.antt =====
-- `SetWeeklyAccess` and `AccessAllowedAtTime`: schedules of the users.
use nermalproxy.Prelude.{
  ℕ, zero, suc, ◌+◌, ◌*◌, ◌/◌, ◌<◌, ◌≡◌, refl, inl, inr, Bool, true, false, ◌&&◌, List, [], ◌∷◌,
  some, arith, ◌==◌, if◌then◌else◌, Bool-cases, length, get_elem?, All, done,
}
use nermalproxy.CText.{Bytes, codes, str_eq, str_eq_iff}
use nermalproxy.TimeMap.{pos, intervals, days, week_permitted}
use nermalproxy.TimeMap.Schedule.{permits}
use nermalproxy.TimeMap.Week.{IsWeek, week_permitted-init_day_from_string, week_permitted_done}
use nermalproxy.Auth.{
  User, AuthManager, LocalTime, access_of, access_allowed, day_index, set_user_day, set_day_of,
  set_weekly_access,
}
use nermalproxy.Auth.Users.{is_registered}

-- A time that `localtime` can return.
pub record IsClock (t : LocalTime) : Type 0 where
  pub wday_lt : t.wday < days
  pub hour_lt : t.hour < 24
  pub min_lt : t.min < 60

-- Every user has a whole week.
abbrev pub HasWeeks : List User → Type 0
HasWeeks = All (λ u. IsWeek u.weekly_access)

-- The days as the configuration spells them, in the order of `tm_wday`.
abbrev pub day_names : List Bytes
day_names =
    codes "sun"
    ∷ codes "mon"
    ∷ codes "tue"
    ∷ codes "wed"
    ∷ codes "thr"
    ∷ codes "fri"
    ∷ codes "sat"
    ∷ []

day_index-names : (d : ℕ) (day : Bytes) → get_elem? day_names d ≡ some day → day_index day ≡ some d
unfolding day_index str_eq
day_index-names zero day h = cc
day_index-names (suc zero) day h = cc
day_index-names (suc (suc zero)) day h = cc
day_index-names (suc (suc (suc zero))) day h = cc
day_index-names (suc (suc (suc (suc zero)))) day h = cc
day_index-names (suc (suc (suc (suc (suc zero))))) day h = cc
day_index-names (suc (suc (suc (suc (suc (suc zero)))))) day h = cc
day_index-names (suc (suc (suc (suc (suc (suc (suc d))))))) day h = cc

pub day_index-lt : (day : Bytes) (d : ℕ) → day_index day ≡ some d → d < days
unfolding day_index
day_index-lt day d h = ground arith

module _ (day init : Bytes) (d c : ℕ) (t : LocalTime) (named : get_elem? day_names d ≡ some day)
    (whole : length init ≡ intervals) (clock : IsClock t)
    (letter : get_elem? init (t.hour * 2 + t.min / 30) ≡ some c) where
  -- What holds of a user whose day was set.
  abbrev SetDay : User → User → Type 0
  SetDay u u' =
      (set_user_day u day init ≡ done (u', true))
      × (u'.name ≡ u.name)
      × IsWeek u'.weekly_access
      × (week_permitted u'.weekly_access (pos t.wday) (pos t.hour) (pos t.min) ≡ (
          if t.wday == d
          then done (permits c)
          else week_permitted u.weekly_access (pos t.wday) (pos t.hour) (pos t.min)))

  set_user_day_lem : (u : User) → IsWeek u.weekly_access → (u' : User) × SetDay u u'
  unfolding set_user_day
  set_user_day_lem u v =
      let (w, e, v', p) =
        week_permitted-init_day_from_string u.weekly_access d t.wday init t.hour t.min c v
          (day_index-lt day d (day_index-names d day named)) clock.wday_lt whole clock.hour_lt
          clock.min_lt letter in
      (
        record u { weekly_access = w },
        (rw (day_index-names d day named, set_user_day, e), refl, v', p),
      )

  set_day_of_lem :
      (us : List User) (username other : Bytes)
      → HasWeeks us
      → is_registered us username ≡ true
      → (us' : List User) × (set_day_of us username day init ≡ done (us', true))
        × HasWeeks us'
        × (access_of us' other (some t) ≡ (
            if str_eq username other && t.wday == d
            then done (permits c)
            else access_of us other (some t)))
  unfolding set_day_of access_of is_registered
  set_day_of_lem [] username other v r = cc
  set_day_of_lem (u ∷ us) username other v r = elim (Bool-cases (str_eq u.name username)) [
    | inl hit ↦
        let (u', f) = set_user_day_lem u v.0 in
        (
          u' ∷ us,
          rw (hit, f.0),
          (f.2, v.1),
          rw (f.1, f.3)
              (ground (
                arith,
                str_eq_iff u.name username,
                str_eq_iff u.name other,
                str_eq_iff username other,
              )),
        )
    | inr miss ↦
        let (us', e, w, p) = set_day_of_lem us username other v.1 (ground arith) in
        (
          u ∷ us',
          rw (miss, e),
          (v.0, w),
          rw p (
              ground (
                arith,
                str_eq_iff u.name username,
                str_eq_iff u.name other,
                str_eq_iff username other,
              )),
        )
  ]

  -- Let every user have a whole week, and let the text have 48 letters for a day that is
  -- spelled as in the configuration. For a registered user the call succeeds; afterwards that
  -- user's access on that day goes by the letter, and all other access is as before.
  pub access-set_weekly_access :
      (m : AuthManager) (username other : Bytes)
      → HasWeeks m.users
      → is_registered m.users username ≡ true
      → (m' : AuthManager) × (set_weekly_access m username day init ≡ done (m', true))
        × HasWeeks m'.users
        × (access_allowed m' other (some t) ≡ (
            if str_eq username other && t.wday == d
            then done (permits c)
            else access_allowed m other (some t)))
  unfolding set_weekly_access
  access-set_weekly_access m username other v r =
      let (us, e, w, p) = set_day_of_lem m.users username other v r in
      (record m { users = us }, rw (e, set_weekly_access), w, p)

-- At a time of the clock the check always answers, and access is given to registered users only.
pub access_of_total :
    (us : List User) (username : Bytes) (t : LocalTime)
    → HasWeeks us
    → IsClock t
    → (b : Bool) × (access_of us username (some t) ≡ done b)
      × (b ≡ (is_registered us username && b))
unfolding access_of is_registered
access_of_total [] username t v c = (false, refl, refl)
access_of_total (u ∷ us) username t v c = elim (Bool-cases (str_eq u.name username)) [
  | inl hit ↦
      let (b, e) = week_permitted_done u.weekly_access t.wday t.hour t.min v.0 c.wday_lt in
      (b, rw hit e, rw hit)
  | inr miss ↦ let (b, e, r) = access_of_total us username t v.1 c in (b, rw miss e, rw miss r)
]
