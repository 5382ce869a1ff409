-- ===== src/Connect/Attempts.antt =====
-- The loop of `asyncConnector` over the addresses of a host.
use nermalproxy.Prelude.{
  ℕ, suc, ◌+◌, ◌≡◌, ◌⊎◌, inl, inr, refl, subst, ap, true, false, List, [], ◌∷◌, ◌++◌, arith,
  if◌then◌else◌, length, All, Bool-cases, done,
}
use nermalproxy.HostCache.{HostInfo}
use nermalproxy.Connect.{Network, Action, attempt, is_skipped, add_attempt, try_addresses}

-- An entry as the resolver makes it.
abbrev pub IsInet : HostInfo → Type 0
IsInet h = h.ip_version ≡ 4

-- From this round on, every entry is passed over or its connection fails.
abbrev pub AllFail : Network → ℕ → List HostInfo → Type 0
AllFail net round [] = Unit {0}
AllFail net round (h ∷ hs) =
    ((is_skipped net h ≡ true) ⊎ (net.connects round ≡ false)) × AllFail net (suc round) hs

-- One attempt for every entry that is not passed over.
unfoldable pub attempts_to : Network → ℕ → List HostInfo → List Action
attempts_to net port [] = []
attempts_to net port (h ∷ hs) =
    let later = attempts_to net port hs in
    if is_skipped net h then later else attempt h.address port ∷ later

-- The entries up to the first that is connected.
pub record FirstConnected (net : Network) (round : ℕ) (hs : List HostInfo) : Type 0 where
  pub front : List HostInfo
  pub chosen : HostInfo
  pub back : List HostInfo
  pub parts : hs ≡ front ++ chosen ∷ back
  pub failed : AllFail net round front
  pub kept : is_skipped net chosen ≡ false
  pub accepted : net.connects (round + length front) ≡ true

-- Both outcomes of the loop.
abbrev pub TryCases : Network → ℕ → ℕ → List HostInfo → Type 0
TryCases net port round hs =
    (AllFail net round hs
      × (try_addresses net port round hs ≡ done (false, attempts_to net port hs)))
    ⊎ ((c : FirstConnected net round hs) × (try_addresses net port round hs
          ≡ done (true, attempts_to net port (c.front ++ c.chosen ∷ []))))

unfoldable pub cons_connected :
    (net : Network) (round : ℕ) (h : HostInfo) (hs : List HostInfo)
    → (is_skipped net h ≡ true) ⊎ (net.connects round ≡ false)
    → FirstConnected net (suc round) hs
    → FirstConnected net round (h ∷ hs)
cons_connected net round h hs failure c = record {
  front = h ∷ c.front;
  chosen = c.chosen;
  back = c.back;
  parts = ap (λ l. h ∷ l) c.parts;
  failed = (failure, c.failed);
  kept = c.kept;
  accepted =
      let moved : suc round + length c.front ≡ round + suc (length c.front) = omega arith in
      subst (λ n. net.connects n ≡ true) moved c.accepted;
}

skip_step :
    (net : Network) (port round : ℕ) (h : HostInfo) (hs : List HostInfo)
    → is_skipped net h ≡ true
    → TryCases net port (suc round) hs
    → TryCases net port round (h ∷ hs)
unfolding try_addresses attempts_to cons_connected
skip_step net port round h hs skipped (inl (failed, e)) =
    inl ((inl skipped, failed), rw (skipped, try_addresses, attempts_to) e)
skip_step net port round h hs skipped (inr (c, e)) =
    inr (cons_connected net round h hs (inl skipped) c, rw (skipped, try_addresses, attempts_to) e)

fail_step :
    (net : Network) (port round : ℕ) (h : HostInfo) (hs : List HostInfo)
    → is_skipped net h ≡ false
    → IsInet h
    → net.connects round ≡ false
    → TryCases net port (suc round) hs
    → TryCases net port round (h ∷ hs)
unfolding try_addresses attempts_to cons_connected
fail_step net port round h hs kept inet fails (inl (failed, e)) = inl (
  (inr fails, failed),
  rw (kept, try_addresses, attempts_to, inet, fails) (ap (add_attempt h port) e),
)
fail_step net port round h hs kept inet fails (inr (c, e)) = inr (
  cons_connected net round h hs (inr fails) c,
  rw (kept, try_addresses, attempts_to, inet, fails) (ap (add_attempt h port) e),
)

connect_step :
    (net : Network) (port round : ℕ) (h : HostInfo) (hs : List HostInfo)
    → is_skipped net h ≡ false
    → IsInet h
    → net.connects round ≡ true
    → TryCases net port round (h ∷ hs)
unfolding try_addresses attempts_to
connect_step net port round h hs kept inet accepts = inr (
  record {
    front = [];
    chosen = h;
    back = hs;
    parts = refl;
    failed = tt;
    kept = kept;
    accepted = let same : round + 0 ≡ round = omega arith in rw (same, accepts) refl;
  },
  rw (kept, try_addresses, attempts_to, inet, accepts) refl,
)

-- For entries as the resolver makes them, the loop ends without a fault. Either every entry is
-- passed over or refuses, and there was one attempt for each of those not passed over; or some
-- entry is the first to be connected, and there was one attempt for each before it that is not
-- passed over, then one for it, and none after it.
pub try_addresses_cases :
    (net : Network) (port round : ℕ) (hs : List HostInfo)
    → All IsInet hs
    → TryCases net port round hs
unfolding try_addresses attempts_to
try_addresses_cases net port round [] inet = inl (tt, refl)
try_addresses_cases net port round (h ∷ hs) inet = elim (Bool-cases (is_skipped net h)) [
  | inl skipped ↦
      skip_step net port round h hs skipped (try_addresses_cases net port (suc round) hs inet.1)
  | inr kept ↦ elim (Bool-cases (net.connects round)) [
    | inl accepts ↦ connect_step net port round h hs kept inet.0 accepts
    | inr fails ↦
        fail_step net port round h hs kept inet.0 fails
          (try_addresses_cases net port (suc round) hs inet.1)
  ]
]

-- The loop on entries that all fail.
pub AllFail-try_addresses :
    (net : Network) (port round : ℕ) (hs : List HostInfo)
    → All IsInet hs
    → AllFail net round hs
    → try_addresses net port round hs ≡ done (false, attempts_to net port hs)
unfolding try_addresses attempts_to
AllFail-try_addresses net port round [] inet fails = refl
AllFail-try_addresses net port round (h ∷ hs) inet fails = elim (Bool-cases (is_skipped net h)) [
  | inl skipped ↦
      rw (skipped, try_addresses, attempts_to)
        (AllFail-try_addresses net port (suc round) hs inet.1 fails.1)
  | inr kept ↦
      let refused : net.connects round ≡ false = ground (arith, fails.0, kept) in
      rw (kept, try_addresses, attempts_to, inet.0, refused)
        (ap (add_attempt h port) (AllFail-try_addresses net port (suc round) hs inet.1 fails.1))
]

-- The loop on entries that all fail, and one behind them that is connected.
pub connected-try_addresses :
    (net : Network) (port round : ℕ) (front back : List HostInfo) (h : HostInfo)
    → All IsInet front
    → AllFail net round front
    → IsInet h
    → is_skipped net h ≡ false
    → net.connects (round + length front) ≡ true
    → try_addresses net port round (front ++ h ∷ back)
      ≡ done (true, attempts_to net port (front ++ h ∷ []))
unfolding try_addresses attempts_to
connected-try_addresses net port round [] back h inet fails inet' kept accepts =
    let same : round + 0 ≡ round = omega arith in
    let accepts' = rw same at accepts in rw (kept, try_addresses, attempts_to, inet', accepts') refl
connected-try_addresses net port round (x ∷ front) back h inet fails inet' kept accepts =
    let moved : round + suc (length front) ≡ suc round + length front = omega arith in
    let later =
      connected-try_addresses net port (suc round) front back h inet.1 fails.1 inet' kept
        (rw moved at accepts) in
    elim (Bool-cases (is_skipped net x)) [
      | inl skipped ↦ rw (skipped, try_addresses, attempts_to) later
      | inr tried ↦
          let refused : net.connects round ≡ false = ground (arith, fails.0, tried) in
          rw (tried, try_addresses, attempts_to, inet.0, refused) (ap (add_attempt x port) later)
    ]
