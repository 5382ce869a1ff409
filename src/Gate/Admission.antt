-- ===== src/Gate/Admission.antt =====
-- Who is let in by the checks on a request.
use nermalproxy.Prelude.{
  sym, ap, ◌∙◌, ◌≡◌, ◌⊎◌, refl, inl, inr, Bool, true, false, List, [], ◌∷◌, Option, none, some,
  arith, Bool-cases, Option-cases, Any, Outcome, done, >>=-eq-done,
}
use nermalproxy.CText.{Bytes, str_eq, c_str, strstr}
use nermalproxy.Auth.{User, AuthManager, authenticate, access_of, access_allowed}
use nermalproxy.Auth.Credentials.{Carries, authenticate_result}
use nermalproxy.Auth.Login.{Matches, Owns, ip_login_cases}
use nermalproxy.Auth.Users.{is_registered}
use nermalproxy.Gate.{
  Moment, Verdict, granted, challenge, auth_header, read_creds, check_schedule, admit_creds,
  admit_ip, admit,
}

-- The request has a header with these credentials.
abbrev pub HasCreds : Bytes → Bytes → Type 0
HasCreds request creds =
    (text : Bytes) × (strstr (c_str request) auth_header ≡ some text)
    × (read_creds text ≡ done (some creds))

-- The request carries the name and the password of a user; or it has no header with credentials,
-- and the client's address belongs to a user of the name.
abbrev pub IsKnown : AuthManager → Bytes → Bytes → Bytes → Type 0
IsKnown auth request ip name =
    ((creds pass : Bytes) × HasCreds request creds
      × Carries creds name pass
      × Any (Matches name pass) auth.users)
    ⊎ ((strstr (c_str request) auth_header ≡ none) × Any (Owns name ip) auth.users)

-- The name is that of a user who is known and whose schedule allows the time.
abbrev pub IsAdmitted : Moment → AuthManager → Bytes → Bytes → Bytes → Type 0
IsAdmitted t auth request ip name =
    IsKnown auth request ip name × (access_allowed auth name t.local ≡ done true)

-- No user has the empty name.
abbrev pub HasNames : AuthManager → Type 0
HasNames auth = is_registered auth.users [] ≡ false

access_unregistered :
    (us : List User) (name : Bytes) (t : Moment)
    → is_registered us name ≡ false
    → access_of us name t.local ≡ done false
unfolding access_of is_registered
access_unregistered [] name t h = refl
access_unregistered (u ∷ us) name t h = elim (Bool-cases (str_eq u.name name)) [
  | inl hit ↦ absurd (ground arith)
  | inr miss ↦ rw (miss, access_of) (access_unregistered us name t (ground arith))
]

check_schedule_sound :
    (t : Moment) (auth : AuthManager) (user : Bytes) (kept : Option Bytes) (name : Bytes)
    → check_schedule t auth user kept ≡ done (granted name)
    → (name ≡ user) × (access_allowed auth user t.local ≡ done true)
unfolding check_schedule
check_schedule_sound t auth user kept name e =
    let (allowed, a, rest) = >>=-eq-done (access_allowed auth user t.local) _ e in
    elim (Bool-cases allowed) [ inl hit ↦ (cc, rw hit at a) | inr miss ↦ absurd cc ]

admit_creds_sound :
    (t : Moment) (auth : AuthManager) (creds request ip name : Bytes)
    → HasNames auth
    → HasCreds request creds
    → admit_creds t auth creds ≡ done (granted name)
    → IsAdmitted t auth request ip name
unfolding admit_creds
admit_creds_sound t auth creds request ip name named header e =
    let ((can_connect, user), a, rest) = >>=-eq-done (authenticate auth creds []) _ e in
    elim (Bool-cases can_connect) [
      | inl hit ↦
          let shown = rw hit at rest in
          let (same, access) = check_schedule_sound t auth user (some user) name shown in
          elim (authenticate_result auth creds [] can_connect user a).1 [
            | inl empty ↦
                absurd
                  (let e' = rw empty at access in cc (access_unregistered auth.users [] t named))
            | inr (pass, carried, found) ↦
                rw same (inl (creds, pass, header, carried, found), access)
          ]
      | inr miss ↦ let shown = rw miss at rest in absurd cc
    ]

-- `admit_ip` as a function of what the look-up of the address gives.
abbrev answer : Moment → AuthManager → Bool × Bytes → Outcome Verdict
answer t auth r = elim r.0 [ false ↦ done challenge | true ↦ check_schedule t auth r.1 none ]

admit_ip_sound :
    (t : Moment) (auth : AuthManager) (request ip name : Bytes)
    → strstr (c_str request) auth_header ≡ none
    → admit_ip t auth ip ≡ done (granted name)
    → IsAdmitted t auth request ip name
unfolding admit_ip
admit_ip_sound t auth request ip name plain e = elim (ip_login_cases auth.users ip []) [
  | inl (miss, _) ↦ absurd (let shown = sym (ap (answer t auth) miss) ∙ e in cc)
  | inr (user, hit, owner) ↦
      let shown = sym (ap (answer t auth) hit) ∙ e in
      let (same, access) = check_schedule_sound t auth user none name shown in
      rw same (inr (plain, owner), access)
]

-- If no user has the empty name, the checks grant a name only if the request carries it with the
-- password that a user of that name has, or has no credentials and comes from an address that
-- belongs to a user of that name; and only at a time that the user's schedule allows.
pub admit_sound :
    (t : Moment) (auth : AuthManager) (request ip name : Bytes)
    → HasNames auth
    → admit t auth request ip ≡ done (granted name)
    → IsAdmitted t auth request ip name
unfolding admit
admit_sound t auth request ip name named e =
    elim (Option-cases (strstr (c_str request) auth_header)) [
      | inl plain ↦ admit_ip_sound t auth request ip name plain (rw (plain, admit) at e)
      | inr (text, header) ↦
          let shown = rw (header, admit) at e in
          let (creds, read, rest) = >>=-eq-done (read_creds text) _ shown in
          elim (Option-cases creds) [
            | inl empty ↦ absurd (let done_forbidden = rw empty at rest in cc)
            | inr (c, given) ↦
                admit_creds_sound t auth c request ip name named
                  (text, header, read ∙ ap done given) (rw given at rest)
          ]
    ]
