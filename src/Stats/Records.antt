-- ===== src/Stats/Records.antt =====
-- The statistics as a function of user and host, and the names in the lists.
use nermalproxy.Prelude.{◌≡◌, refl, ◌&&◌, List, [], ◌∷◌, arith, if◌then◌else◌}
use nermalproxy.CText.{Bytes, str_eq, str_eq_iff}
use nermalproxy.Stats.{SiteStats, new_site_stats, UserStats, with_site, with_stats}

-- What is recorded for a host; a new record if there is none.
unfoldable pub site_of : List SiteStats → Bytes → SiteStats
site_of [] host = new_site_stats host
site_of (s ∷ ss) host = if str_eq s.host_name host then s else site_of ss host

unfoldable pub stats_of : List UserStats → Bytes → Bytes → SiteStats
stats_of [] username host = new_site_stats host
stats_of (u ∷ us) username host =
    if str_eq u.user_name username then site_of u.stats host else stats_of us username host

site_of-nil : (host : Bytes) → site_of [] host ≡ new_site_stats host
unfolding site_of
site_of-nil host = refl

module _ (f : SiteStats → SiteStats) (keeps : (s : SiteStats) → (f s).host_name ≡ s.host_name) where
  site_of-with_site :
      (ss : List SiteStats) (host other : Bytes)
      → site_of (with_site f ss host) other
        ≡ (if str_eq host other then f (site_of ss other) else site_of ss other)
  unfolding site_of with_site
  site_of-with_site [] host other = ground (
    arith,
    str_eq_iff host other,
    keeps (new_site_stats host),
    str_eq_iff (f (new_site_stats host)).host_name other,
  )
  site_of-with_site (s ∷ ss) host other = ground (
    arith,
    keeps s,
    str_eq_iff s.host_name host,
    str_eq_iff s.host_name other,
    str_eq_iff host other,
    str_eq_iff (f s).host_name other,
    site_of-with_site ss host other,
  )

  -- A change of the record of a user and host changes that record alone, which is made first if it
  -- is missing. The change leaves the host name.
  pub stats_of-with_stats :
      (us : List UserStats) (username host user other : Bytes)
      → stats_of (with_stats f us username host) user other ≡ (
          if str_eq username user && str_eq host other
          then f (stats_of us user other)
          else stats_of us user other)
  unfolding stats_of with_stats
  stats_of-with_stats [] username host user other =
      ground (arith, str_eq_iff username user, site_of-with_site [] host other, site_of-nil other)
  stats_of-with_stats (u ∷ us) username host user other = ground (
    arith,
    str_eq_iff u.user_name username,
    str_eq_iff u.user_name user,
    str_eq_iff username user,
    site_of-with_site u.stats host other,
    stats_of-with_stats us username host user other,
  )
