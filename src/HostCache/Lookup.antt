-- ===== src/HostCache/Lookup.antt =====
-- What the cache of addresses answers, and what becomes of its entries.
use nermalproxy.Prelude.{
  ℕ, suc, ◌≤◌, ◌<◌, ◌≡◌, refl, inl, inr, true, false, List, [], ◌∷◌, ◌++◌, arith, ltb,
  if◌then◌else◌, Bool-cases, length, length-append, All, Any, here, there, Outcome, done, fault,
  past_the_end, >>=-eq-done,
}
use nermalproxy.CText.{Bytes, str_eq, str_eq_iff}
use nermalproxy.HostCache.{
  HostInfo, max_cache_size, is_expired, get_cached_results, clear_cache_for_host, add_result,
}

-- The entries of a host.
unfoldable pub matching : Bytes → List HostInfo → List HostInfo
matching url [] = []
matching url (h ∷ hs) = if str_eq h.url url then h ∷ matching url hs else matching url hs

pub matching-append :
    (url : Bytes) (xs ys : List HostInfo)
    → matching url (xs ++ ys) ≡ matching url xs ++ matching url ys
unfolding matching
matching-append url [] ys = refl
matching-append url (x ∷ xs) ys = ground (arith, matching-append url xs ys)

-- No entry is expired when its turn comes.
abbrev pub Fresh : (ℕ → ℕ) → ℕ → List HostInfo → Type 0
Fresh clock round [] = Unit
Fresh clock round (h ∷ hs) = (is_expired (clock round) h ≡ false) × Fresh clock (suc round) hs

pub get_cached_results-Fresh :
    (clock : ℕ → ℕ) (round : ℕ) (url : Bytes) (hs : List HostInfo)
    → Fresh clock round hs
    → get_cached_results clock round url hs ≡ done (hs, matching url hs)
unfolding get_cached_results matching
get_cached_results-Fresh clock round url [] f = refl
get_cached_results-Fresh clock round url (h ∷ []) f = rw (f.0, get_cached_results)
get_cached_results-Fresh clock round url (h ∷ next ∷ hs) f =
    rw (f.0, get_cached_results, get_cached_results-Fresh clock (suc round) url (next ∷ hs) f.1)

-- The entry is in the cache.
abbrev pub Holds : List HostInfo → HostInfo → Type 0
Holds hs h = Any (λ x. x ≡ h) hs

-- The results are entries of that host.
abbrev pub AreResults : Bytes → List HostInfo → List HostInfo → Type 0
AreResults url hs found = All (λ h. (h.url ≡ url) × Holds hs h) found

results_more :
    (url : Bytes) (hs : List HostInfo) (h : HostInfo) (found : List HostInfo)
    → AreResults url hs found
    → AreResults url (h ∷ hs) found
results_more url hs h [] r = tt
results_more url hs h (x ∷ found) r = ((r.0.0, there r.0.1), results_more url hs h found r.1)

head_result :
    (url : Bytes) (h : HostInfo) (hs found : List HostInfo)
    → AreResults url hs found
    → AreResults url (h ∷ hs) (if str_eq h.url url then h ∷ found else found)
head_result url h hs found r = elim (Bool-cases (str_eq h.url url)) [
  | inl hit ↦ rw hit (((str_eq_iff h.url url).0 hit, here refl), results_more url hs h found r)
  | inr miss ↦ rw miss (results_more url hs h found r)
]

-- Whatever the readings of the clock: when the loop ends, all results are entries of that host.
pub get_cached_results_sound :
    (clock : ℕ → ℕ) (round : ℕ) (url : Bytes) (hs kept found : List HostInfo)
    → get_cached_results clock round url hs ≡ done (kept, found)
    → AreResults url hs found
unfolding get_cached_results
get_cached_results_sound clock round url [] kept found e = let f : found ≡ [] = cc in rw f tt
get_cached_results_sound clock round url (h ∷ []) kept found e =
    elim (Bool-cases (is_expired (clock round) h)) [
      | inl old ↦ let shown = rw (old, get_cached_results) at e in cc
      | inr young ↦
          let shown = rw (young, get_cached_results) at e in
          let f : found ≡ (if str_eq h.url url then h ∷ [] else []) = cc in
          rw f (head_result url h [] [] tt)
    ]
get_cached_results_sound clock round url (h ∷ next ∷ hs) kept found e =
    elim (Bool-cases (is_expired (clock round) h)) [
      | inl old ↦
          let shown = rw (old, get_cached_results) at e in
          let ((kept', found'), e', last) =
            >>=-eq-done (get_cached_results clock (suc round) url hs) _ shown in
          let f : found ≡ found' = cc in
          rw f (
            results_more url (next ∷ hs) h found' (
              results_more url hs next found'
                (get_cached_results_sound clock (suc round) url hs kept' found' e')))
      | inr young ↦
          let shown = rw (young, get_cached_results) at e in
          let ((kept', found'), e', last) =
            >>=-eq-done (get_cached_results clock (suc round) url (next ∷ hs)) _ shown in
          let f : found ≡ (if str_eq h.url url then h ∷ found' else found') = cc in
          rw f (
            head_result url h (next ∷ hs) found'
              (get_cached_results_sound clock (suc round) url (next ∷ hs) kept' found' e'))
    ]

pub add_result-room :
    (hs : List HostInfo) (info : HostInfo)
    → length hs < max_cache_size
    → add_result hs info ≡ hs ++ info ∷ []
unfolding add_result
add_result-room hs info h = ground (arith, length-append hs (info ∷ []))

-- A lookup after `AddResult` in a cache with room, in which nothing is expired, gives the
-- earlier results and the new one if it is of that host; the lookup removes nothing.
pub get_cached_results-add_result :
    (clock : ℕ → ℕ) (url : Bytes) (hs : List HostInfo) (info : HostInfo)
    → length hs < max_cache_size
    → Fresh clock 0 (hs ++ info ∷ [])
    → get_cached_results clock 0 url (add_result hs info)
      ≡ done (hs ++ info ∷ [], matching url hs ++ (if str_eq info.url url then info ∷ [] else []))
unfolding matching
get_cached_results-add_result clock url hs info room f = rw (
  add_result-room hs info room,
  get_cached_results-Fresh clock 0 url (hs ++ info ∷ []) f,
  matching-append url hs (info ∷ []),
)

-- A cache of at most 2048 entries stays one, and the new entry is its last.
pub add_result_bound :
    (hs : List HostInfo) (info : HostInfo)
    → length hs ≤ max_cache_size
    → (front : List HostInfo) × (add_result hs info ≡ front ++ info ∷ [])
      × (length (add_result hs info) ≤ max_cache_size)
unfolding add_result
add_result_bound [] info h = ([], refl, omega arith)
add_result_bound (x ∷ hs) info h =
    elim (Bool-cases (ltb max_cache_size (suc (length (hs ++ info ∷ []))))) [
      | inl full ↦ (hs, rw full, rw full (omega (arith, length-append hs (info ∷ []))))
      | inr room ↦ (x ∷ hs, rw room, rw room (ground arith))
    ]

-- No entry is of this host.
abbrev pub Lacks : Bytes → List HostInfo → Type 0
Lacks url = All (λ h. str_eq h.url url ≡ false)

clear_lacking :
    (url : Bytes) (hs : List HostInfo) → Lacks url hs → clear_cache_for_host url hs ≡ done hs
unfolding clear_cache_for_host
clear_lacking url [] l = refl
clear_lacking url (h ∷ []) l = rw (l.0, clear_cache_for_host)
clear_lacking url (h ∷ next ∷ hs) l =
    rw (l.0, clear_cache_for_host, clear_lacking url (next ∷ hs) l.1)

-- What is behind the only entry of a host decides how clearing it ends.
abbrev pub cleared : List HostInfo → List HostInfo → Outcome (List HostInfo)
cleared front [] = fault past_the_end
cleared front (next ∷ hs) = done (front ++ next ∷ hs)

-- If the cache has one entry of the host, `ClearCacheForHost` removes it and leaves the others,
-- unless the entry is the last: then the iterator is moved past the end.
pub clear_cache_for_host_one :
    (url : Bytes) (front back : List HostInfo) (h : HostInfo)
    → Lacks url front
    → str_eq h.url url ≡ true
    → Lacks url back
    → clear_cache_for_host url (front ++ h ∷ back) ≡ cleared front back
unfolding clear_cache_for_host
clear_cache_for_host_one url [] [] h l hit k = rw (hit, clear_cache_for_host)
clear_cache_for_host_one url [] (next ∷ hs) h l hit k =
    rw (hit, clear_cache_for_host, clear_lacking url hs k.1)
clear_cache_for_host_one url (x ∷ []) [] h l hit k =
    rw (l.0, clear_cache_for_host, clear_cache_for_host_one url [] [] h tt hit k)
clear_cache_for_host_one url (x ∷ []) (next ∷ hs) h l hit k =
    rw (l.0, clear_cache_for_host, clear_cache_for_host_one url [] (next ∷ hs) h tt hit k)
clear_cache_for_host_one url (x ∷ y ∷ front) [] h l hit k =
    rw (l.0, clear_cache_for_host, clear_cache_for_host_one url (y ∷ front) [] h l.1 hit k)
clear_cache_for_host_one url (x ∷ y ∷ front) (next ∷ hs) h l hit k =
    rw (l.0, clear_cache_for_host, clear_cache_for_host_one url (y ∷ front) (next ∷ hs) h l.1 hit k)

pub matching_lacking : (url : Bytes) (hs : List HostInfo) → Lacks url hs → matching url hs ≡ []
unfolding matching
matching_lacking url [] l = refl
matching_lacking url (h ∷ hs) l = rw (l.0, matching, matching_lacking url hs l.1)
