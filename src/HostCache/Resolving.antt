-- ===== src/HostCache/Resolving.antt =====
-- `GetAddressesForHost`: one question to the name server fills the cache for the next ones.
use nermalproxy.Prelude.{
  ℕ, ◌<◌, ◌≡◌, refl, Bool, true, List, [], ◌∷◌, ◌++◌, Option, some, length, done, fault,
  past_the_end,
}
use nermalproxy.CText.{Bytes, str_eq_refl}
use nermalproxy.HostCache.{
  HostInfo, max_cache_size, AddrInfo, Resolution, first_inet, use_answer, get_addresses_for_host,
  clear_cache_for_host,
}
use nermalproxy.HostCache.Lookup.{
  matching, matching-append, Fresh, Lacks, add_result-room, get_cached_results-Fresh,
  matching_lacking, clear_cache_for_host_one,
}

module _ (clock : ℕ → ℕ) (now : ℕ) (results : List AddrInfo) (address : Bytes) (hs : List HostInfo)
    (host : Bytes) (cached : Bool) (found : first_inet results ≡ some address)
    (room : length hs < max_cache_size) (fresh : Fresh clock 0 hs) (lacks : Lacks host hs) where
  -- The entry that a question about the host gives.
  abbrev pub answered : HostInfo
  answered = record { url = host; address = address; ip_version = 4; timestamp = now }

  pub first_resolution :
      get_addresses_for_host clock now (some results) hs host cached
      ≡ done (record { cache = hs ++ answered ∷ []; addresses = answered ∷ []; cached = cached })
  unfolding get_addresses_for_host use_answer
  first_resolution = rw (
    get_cached_results-Fresh clock 0 host hs fresh,
    matching_lacking host hs lacks,
    found,
    use_answer,
    add_result-room hs answered room,
  )

  matching-answered : matching host (hs ++ answered ∷ []) ≡ answered ∷ []
  unfolding matching
  matching-answered =
      rw (matching-append host hs (answered ∷ []), matching_lacking host hs lacks, str_eq_refl host)

  later_resolution :
      (clock' : ℕ → ℕ) (now' : ℕ) (answer : Option (List AddrInfo)) (flag : Bool)
      → Fresh clock' 0 (hs ++ answered ∷ [])
      → get_addresses_for_host clock' now' answer (hs ++ answered ∷ []) host flag
        ≡ done (record { cache = hs ++ answered ∷ []; addresses = answered ∷ []; cached = true })
  unfolding get_addresses_for_host
  later_resolution clock' now' answer flag f =
      rw (get_cached_results-Fresh clock' 0 host (hs ++ answered ∷ []) f, matching-answered)

  -- Let the cache have room and no entry of the host, nothing in it be expired, and the name
  -- server give an IPv4 address. The call gives the first such address and leaves the flag; while
  -- nothing is expired, every further call gives the same from the cache, whatever the server says.
  pub addresses-again :
      (clock' : ℕ → ℕ) (now' : ℕ) (answer : Option (List AddrInfo)) (flag : Bool)
      → Fresh clock' 0 (hs ++ answered ∷ [])
      → (r : Resolution) × (get_addresses_for_host clock now (some results) hs host cached ≡ done r)
        × (r.cached ≡ cached)
        × (get_addresses_for_host clock' now' answer r.cache host flag
            ≡ done (record { cache = r.cache; addresses = r.addresses; cached = true }))
  addresses-again clock' now' answer flag f = (
    record { cache = hs ++ answered ∷ []; addresses = answered ∷ []; cached = cached },
    first_resolution,
    refl,
    later_resolution clock' now' answer flag f,
  )

  -- Let the cache have room and no entry of the host, nothing in it be expired, and the name
  -- server give an IPv4 address. If the host is cleared right after that, as it is when the
  -- connection fails, the iterator is moved past the end of the cache.
  pub clear-resolution :
      (r : Resolution) × (get_addresses_for_host clock now (some results) hs host cached ≡ done r)
      × (clear_cache_for_host host r.cache ≡ fault past_the_end)
  clear-resolution = (
    record { cache = hs ++ answered ∷ []; addresses = answered ∷ []; cached = cached },
    first_resolution,
    clear_cache_for_host_one host hs [] answered lacks (str_eq_refl host) tt,
  )
