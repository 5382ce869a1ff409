-- ===== src/Policy/Filtering.antt =====
-- `isAllowed` against the lists of domains.
use nermalproxy.Prelude.{
  drop, ℕ, zero, suc, ◌+◌, ◌≤◌, ◌<◌, ◌≡◌, refl, ◌∙◌, inl, inr, Bool, true, false, ◌&&◌, List, [],
  ◌∷◌, none, some, arith, leb, if◌then◌else◌, Bool-cases, Option-cases, length, get_elem?,
  get_elem?_ge, Any, here, there,
}
use nermalproxy.CText.{Bytes, str_eq}
use nermalproxy.Blacklist.{BlacklistList, is_allowed_in_list, has_list}
use nermalproxy.Policy.{
  get_domain, UserPolicyList, get_user_domain, check_domains, global_domain, is_allowed,
}

-- The domains of the first policy of that name.
unfoldable pub domains_of : UserPolicyList → Bytes → List Bytes
domains_of [] user = []
domains_of (p ∷ ps) user = if str_eq p.name user then p.domains else domains_of ps user

get_user_domain_lem :
    (ps : UserPolicyList) (idx : ℕ) (user : Bytes)
    → get_user_domain ps idx user ≡ get_elem? (domains_of ps user) idx
unfolding get_user_domain get_domain domains_of
get_user_domain_lem [] idx user = refl
get_user_domain_lem (p ∷ ps) idx user =
    ground (arith, get_user_domain_lem ps idx user, get_elem?_ge p.domains idx)

-- Every list of these names allows the host.
unfoldable pub allows_all : BlacklistList → Bytes → List Bytes → Bool
allows_all ls host [] = true
allows_all ls host (d ∷ ds) = is_allowed_in_list ls d host && allows_all ls host ds

drop-none : (i : ℕ) (ds : List Bytes) → get_elem? ds i ≡ none → drop i ds ≡ []
drop-none zero [] h = refl
drop-none zero (d ∷ ds) h = cc
drop-none (suc i) [] h = refl
drop-none (suc i) (d ∷ ds) h = drop-none i ds h

drop-some :
    (i : ℕ) (ds : List Bytes) (d : Bytes)
    → get_elem? ds i ≡ some d
    → drop i ds ≡ d ∷ drop (suc i) ds
drop-some zero [] d h = cc
drop-some zero (x ∷ ds) d h = ground arith
drop-some (suc i) [] d h = cc
drop-some (suc i) (x ∷ ds) d h = drop-some i ds d h

get_elem?-eq-some-lt :
    (ds : List Bytes) (i : ℕ) (d : Bytes) → get_elem? ds i ≡ some d → i < length ds
get_elem?-eq-some-lt ds i d h = elim (Bool-cases (leb (length ds) i)) [
  | inl out ↦ absurd (ground (arith, get_elem?_ge ds i))
  | inr inside ↦ ground arith
]

module _ (ps : UserPolicyList) (ls : BlacklistList) (user host : Bytes) where
  check_domains_from :
      (fuel idx : ℕ)
      → length (domains_of ps user) < fuel + idx
      → idx ≤ length (domains_of ps user)
      → check_domains fuel idx ps ls user host
        ≡ some (allows_all ls host (drop idx (domains_of ps user)))
  unfolding check_domains allows_all
  check_domains_from zero idx h k = absurd (omega arith)
  check_domains_from (suc fuel) idx h k = elim (Option-cases (get_elem? (domains_of ps user) idx)) [
    | inl end ↦
        rw
          (
            get_user_domain_lem ps idx user,
            check_domains,
            end,
            drop-none idx (domains_of ps user) end,
          )
          refl
    | inr (d, found) ↦
        let inside = get_elem?-eq-some-lt (domains_of ps user) idx d found in
        let rest = check_domains_from fuel (suc idx) (omega arith) (omega arith) in
        rw
          (
            get_user_domain_lem ps idx user,
            check_domains,
            found,
            drop-some idx (domains_of ps user) d found,
          )
          (ground (arith, rest))
  ]

-- With more fuel than the user and the default policy have domains, the check ends; the host is
-- allowed exactly if all lists of the user's policy and of the default policy allow it.
pub is_allowed_lem :
    (fuel : ℕ) (ps : UserPolicyList) (ls : BlacklistList) (user host : Bytes)
    → length (domains_of ps user) < fuel
    → length (domains_of ps global_domain) < fuel
    → is_allowed fuel ps ls user host
      ≡ some (
          allows_all ls host (domains_of ps user)
          && allows_all ls host (domains_of ps global_domain))
unfolding is_allowed
is_allowed_lem fuel ps ls user host h k =
    rw (check_domains_from ps ls user host fuel 0 (omega arith) (omega arith), is_allowed)
      (ground
        (arith, check_domains_from ps ls global_domain host fuel 0 (omega arith) (omega arith)))

-- The list of this name is missing, or holds the host.
abbrev pub Blocks : BlacklistList → Bytes → Bytes → Type 0
Blocks ls host d = is_allowed_in_list ls d host ≡ false

allows_all-false :
    (ls : BlacklistList) (host : Bytes) (ds : List Bytes)
    → allows_all ls host ds ≡ false
    → Any (Blocks ls host) ds
unfolding allows_all
allows_all-false ls host [] h = cc
allows_all-false ls host (d ∷ ds) h = elim (Bool-cases (is_allowed_in_list ls d host)) [
  | inl allowed ↦ there (allows_all-false ls host ds (ground arith))
  | inr blocked ↦ here blocked
]

allows_all_blocked :
    (ls : BlacklistList) (host : Bytes) {ds : List Bytes}
    → Any (Blocks ls host) ds
    → allows_all ls host ds ≡ false
unfolding allows_all
allows_all_blocked ls host (here b) = rw b
allows_all_blocked ls host (there {x} r) = ground (arith, allows_all_blocked ls host r)

missing_blocks :
    (ls : BlacklistList) (d host : Bytes)
    → has_list ls d ≡ false
    → is_allowed_in_list ls d host ≡ false
unfolding has_list is_allowed_in_list
missing_blocks [] d host h = refl
missing_blocks (b ∷ ls) d host h = ground (arith, missing_blocks ls d host)

-- With enough fuel, a default policy that names a list which was not loaded refuses every user
-- every host.
pub is_allowed_missing :
    (fuel : ℕ) (ps : UserPolicyList) (ls : BlacklistList) (user host : Bytes)
    → length (domains_of ps user) < fuel
    → length (domains_of ps global_domain) < fuel
    → Any (λ d. has_list ls d ≡ false) (domains_of ps global_domain)
    → is_allowed fuel ps ls user host ≡ some false
is_allowed_missing fuel ps ls user host h k m =
    is_allowed_lem fuel ps ls user host h k ∙ ground (arith, allows_all_blocked ls host (blocked m))
  where
    blocked : {ds : List Bytes} → Any (λ d. has_list ls d ≡ false) ds → Any (Blocks ls host) ds
    blocked (here {x} b) = here (missing_blocks ls x host b)
    blocked (there r) = there (blocked r)
