-- ===== src/Tests/HostCacheTests.antt =====
-- HostInfoManager.cpp and HostResolver.cpp on a cache of one entry.
use nermalproxy.Prelude.{ℕ, ◌≡◌, refl, true, false, List, [], ◌∷◌, some, none, arith, done}
use nermalproxy.CText.{codes, str_eq}
use nermalproxy.HostCache.{
  HostInfo, is_expired, get_cached_results, clear_cache_for_host, add_result, AddrInfo, Resolution,
  first_inet, use_answer, get_addresses_for_host,
}
use nermalproxy.HostCache.Lookup.{matching}
use nermalproxy.HostCache.Resolving.{addresses-again}

program : Unit {0}
unfolding str_eq is_expired get_cached_results clear_cache_for_host add_result first_inet use_answer
    get_addresses_for_host matching
program = tt

abbrev entry : HostInfo
entry = record { url = codes "a.com"; address = codes "10.1.1.1"; ip_version = 4; timestamp = 100 }

abbrev other : HostInfo
other = record {
  url = codes "b.com";
  address = codes "10.1.1.2";
  ip_version = 4;
  timestamp = 5000000;
}

-- The clock stands still.
abbrev at : ℕ → ℕ → ℕ
at now round = now

-- The first entry is old. It is removed, and the second is not seen.
skip_test :
    get_cached_results (at 5000000) 0 (codes "b.com") (entry ∷ other ∷ []) ≡ done (other ∷ [], [])
unfolding program
skip_test = refl

abbrev results : List AddrInfo
results =
    record { is_inet = false; address = codes "::1" }
    ∷ record { is_inet = true; address = codes "10.1.1.1" }
    ∷ []

addresses-again_example :
    (r : Resolution) × (get_addresses_for_host (at 100) 100 (some results) [] (codes "a.com") false
      ≡ done r)
    × (r.cached ≡ false)
    × (get_addresses_for_host (at 200) 200 none r.cache (codes "a.com") false
        ≡ done (record { cache = r.cache; addresses = r.addresses; cached = true }))
unfolding program
addresses-again_example =
    addresses-again (at 100) 100 results (codes "10.1.1.1") [] (codes "a.com") false refl
      (omega arith) tt tt (at 200) 200 none false (refl, tt)
