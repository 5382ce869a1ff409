-- ===== src/HostCache.antt =====
-- HostInfoManager.cpp and HostResolver.cpp: the cache of addresses, and the resolver that fills it.
pub mod Lookup
pub mod Resolving
use nermalproxy.Prelude.{
  ℕ, zero, suc, ◌+◌, ◌*◌, Bool, true, false, List, [], ◌∷◌, ◌++◌, Option, none, some, ltb, ◌==◌,
  if◌then◌else◌, length, Outcome, done, fault, past_the_end, ◌>>=◌,
}
use nermalproxy.CText.{Bytes, str_eq}
use nermalproxy.Stats.{sub_u64}

pub record HostInfo : Type 0 where
  pub url : Bytes
  pub address : Bytes
  pub ip_version : ℕ
  pub timestamp : ℕ

abbrev pub max_cache_size : ℕ
max_cache_size = 2048

abbrev pub max_age : ℕ
max_age = 1800 * 1000

-- The test on an entry, at this reading of the clock.
unfoldable pub is_expired : ℕ → HostInfo → Bool
is_expired now h = ltb max_age (sub_u64 now h.timestamp)

-- The loop of `GetCachedResults`: the entries that stay, and the results. Each round reads the
-- clock. `erase(it++)` is followed by the `it++` of the loop, so that the entry behind one that
-- is erased stays unseen, and there is none behind the last.
unfoldable pub get_cached_results :
    (ℕ → ℕ) → ℕ → Bytes → List HostInfo → Outcome (List HostInfo × List HostInfo)
get_cached_results clock round url [] = done ([], [])
get_cached_results clock round url (h ∷ []) =
    if is_expired (clock round) h
    then fault past_the_end
    else done (h ∷ [], if str_eq h.url url then h ∷ [] else [])
get_cached_results clock round url (h ∷ next ∷ hs) = elim (is_expired (clock round) h) [
  | true ↦ do (kept, found) ← get_cached_results clock (suc round) url hs; done (next ∷ kept, found)
  | false ↦ do
    (kept, found) ← get_cached_results clock (suc round) url (next ∷ hs)
    done (h ∷ kept, if str_eq h.url url then h ∷ found else found)
]

-- `ClearCacheForHost`, with the same steps of the iterator.
unfoldable pub clear_cache_for_host : Bytes → List HostInfo → Outcome (List HostInfo)
clear_cache_for_host url [] = done []
clear_cache_for_host url (h ∷ []) = if str_eq h.url url then fault past_the_end else done (h ∷ [])
clear_cache_for_host url (h ∷ next ∷ hs) = elim (str_eq h.url url) [
  | true ↦ (do kept ← clear_cache_for_host url hs; done (next ∷ kept))
  | false ↦ (do kept ← clear_cache_for_host url (next ∷ hs); done (h ∷ kept))
]

abbrev pub pop_front : List HostInfo → List HostInfo
pop_front [] = []
pop_front (h ∷ hs) = hs

unfoldable pub add_result : List HostInfo → HostInfo → List HostInfo
add_result hs info =
    let hs' = hs ++ info ∷ [] in if ltb max_cache_size (length hs') then pop_front hs' else hs'

-- One result of `getaddrinfo`.
pub record AddrInfo : Type 0 where
  pub is_inet : Bool
  pub address : Bytes

-- The loop over the results: the first IPv4 address.
unfoldable pub first_inet : List AddrInfo → Option Bytes
first_inet [] = none
first_inet (a ∷ results) = if a.is_inet then some a.address else first_inet results

-- What a call of the resolver leaves: the cache, the addresses, and the flag `cached`.
pub record Resolution : Type 0 where
  pub cache : List HostInfo
  pub addresses : List HostInfo
  pub cached : Bool

-- What is made of the answer of `getaddrinfo`, its results if it succeeds.
unfoldable pub use_answer : ℕ → Option (List AddrInfo) → List HostInfo → Bytes → Bool → Resolution
use_answer now none hs host cached = record { cache = hs; addresses = []; cached = cached }
use_answer now (some results) hs host cached = elim (first_inet results) [
  | none ↦ record { cache = hs; addresses = []; cached = cached }
  | some address ↦
      let info : HostInfo = record {
        url = host;
        address = address;
        ip_version = 4;
        timestamp = now;
      } in
      record { cache = add_result hs info; addresses = info ∷ []; cached = cached }
]

-- `GetAddressesForHost`, with the readings of the clock and the answer of `getaddrinfo`.
unfoldable pub get_addresses_for_host :
    (ℕ → ℕ) → ℕ → Option (List AddrInfo) → List HostInfo → Bytes → Bool → Outcome Resolution
get_addresses_for_host clock now answer hs host cached = do
  (kept, found) ← get_cached_results clock 0 host hs
  done (
      if ltb 0 (length found)
      then record { cache = kept; addresses = found; cached = true }
      else use_answer now answer kept host cached)
