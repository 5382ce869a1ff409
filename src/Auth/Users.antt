-- ===== src/Auth/Users.antt =====
-- What the setters of `AuthManager` change for whom.
use nermalproxy.Prelude.{
  ◌≡◌, refl, Bool, true, false, not, ◌&&◌, ◌||◌, List, [], ◌∷◌, ◌++◌, arith, ◌==◌, if◌then◌else◌,
  length,
}
use nermalproxy.CText.{Bytes, str_eq, str_eq_iff}
use nermalproxy.Auth.{
  User, add_ip, has_ip_list, AuthManager, audit_of, is_audit_enabled, update_named, set_audit,
  add_user_ip, has_ip, ip_login, authenticate_ip,
}

-- Some user has this name.
unfoldable pub is_registered : List User → Bytes → Bool
is_registered [] username = false
is_registered (u ∷ us) username = str_eq u.name username || is_registered us username

audit-update :
    (audit : Bool) (us : List User) (username other : Bytes)
    → audit_of (update_named (λ u. record u { audit = audit }) us username) other
      ≡ (if str_eq username other && is_registered us username then audit else audit_of us other)
unfolding audit_of update_named is_registered
audit-update audit [] username other = ground arith
audit-update audit (u ∷ us) username other = ground (
  arith,
  str_eq_iff u.name username,
  str_eq_iff u.name other,
  str_eq_iff username other,
  audit-update audit us username other,
)

-- After `SetAudit` a registered user has the given flag, and all others keep theirs.
pub audit-set_audit :
    (m : AuthManager) (username other : Bytes) (audit : Bool)
    → is_audit_enabled (set_audit m username audit) other ≡ (
        if str_eq username other && is_registered m.users username
        then audit
        else is_audit_enabled m other)
unfolding set_audit
audit-set_audit m username other audit = audit-update audit m.users username other

has_ip-append :
    (ips : List Bytes) (ip address : Bytes)
    → has_ip (ips ++ ip ∷ []) address ≡ (has_ip ips address || str_eq ip address)
unfolding has_ip
has_ip-append [] ip address = ground arith
has_ip-append (x ∷ ips) ip address = ground (arith, has_ip-append ips ip address)

-- The test `HasIpList` in front of the loop changes nothing.
pub owns :
    (u : User) (address : Bytes)
    → (has_ip_list u && has_ip u.ip_list address) ≡ has_ip u.ip_list address
unfolding has_ip
owns u address = owns_list u.ip_list
  where
    owns_list :
        (ips : List Bytes) → (not (length ips == 0) && has_ip ips address) ≡ has_ip ips address
    owns_list [] = refl
    owns_list (x ∷ ips) = ground arith

ip-update :
    (us : List User) (username ip address unset : Bytes)
    → (ip_login us address unset).0 ≡ false
    → ip_login (update_named (λ u. add_ip u ip) us username) address unset ≡ (
        if str_eq ip address && is_registered us username then (true, username) else (false, unset))
unfolding ip_login update_named is_registered
ip-update [] username ip address unset h = ground arith
ip-update (u ∷ us) username ip address unset h = ground (
  arith,
  str_eq_iff u.name username,
  owns u address,
  owns (add_ip u ip) address,
  has_ip-append u.ip_list ip address,
  ip-update us username ip address unset,
)

-- An address that belongs to nobody belongs to a registered user once it was added for
-- them, and only that address does.
pub login-add_user_ip :
    (m : AuthManager) (username ip address unset : Bytes)
    → (authenticate_ip m address unset).0 ≡ false
    → authenticate_ip (add_user_ip m username ip) address unset ≡ (
        if str_eq ip address && is_registered m.users username
        then (true, username)
        else (false, unset))
unfolding add_user_ip
login-add_user_ip m username ip address unset h = ip-update m.users username ip address unset h
