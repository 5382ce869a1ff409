-- ===== src/Connect/Tried.antt =====
-- What the loop of `asyncConnector` has tried when it ends, whatever the addresses.
use nermalproxy.Prelude.{
  ℕ, suc, ◌+◌, ◌≡◌, inl, inr, refl, ap, subst, Bool, true, false, List, [], ◌∷◌, ◌++◌, arith, ◌==◌,
  Bool-cases, done, >>=-eq-done,
}
use nermalproxy.HostCache.{HostInfo}
use nermalproxy.Connect.{Network, Action, attempt, is_skipped, try_addresses}
use nermalproxy.Connect.Attempts.{AllFail, attempts_to, FirstConnected, cons_connected}

-- What an end of the loop says of the addresses.
abbrev pub Tried : Network → ℕ → ℕ → List HostInfo → Bool → List Action → Type 0
Tried net port round hs false tries = AllFail net round hs × (tries ≡ attempts_to net port hs)
Tried net port round hs true tries =
    (c : FirstConnected net round hs) × (tries ≡ attempts_to net port (c.front ++ c.chosen ∷ []))

Tried-skip :
    (net : Network) (port round : ℕ) (h : HostInfo) (hs : List HostInfo) (connected : Bool)
    (tries : List Action)
    → is_skipped net h ≡ true
    → Tried net port (suc round) hs connected tries
    → Tried net port round (h ∷ hs) connected tries
unfolding attempts_to cons_connected
Tried-skip net port round h hs false tries skipped (failed, e) =
    ((inl skipped, failed), rw (skipped, attempts_to) e)
Tried-skip net port round h hs true tries skipped (c, e) =
    (cons_connected net round h hs (inl skipped) c, rw (skipped, attempts_to) e)

Tried-fail :
    (net : Network) (port round : ℕ) (h : HostInfo) (hs : List HostInfo) (connected : Bool)
    (tries : List Action)
    → is_skipped net h ≡ false
    → net.connects round ≡ false
    → Tried net port (suc round) hs connected tries
    → Tried net port round (h ∷ hs) connected (attempt h.address port ∷ tries)
unfolding attempts_to cons_connected
Tried-fail net port round h hs false tries kept fails (failed, e) =
    ((inr fails, failed), rw (kept, attempts_to) (ap (λ l. attempt h.address port ∷ l) e))
Tried-fail net port round h hs true tries kept fails (c, e) = (
  cons_connected net round h hs (inr fails) c,
  rw (kept, attempts_to) (ap (λ l. attempt h.address port ∷ l) e),
)

Tried-first :
    (net : Network) (port round : ℕ) (h : HostInfo) (hs : List HostInfo)
    → is_skipped net h ≡ false
    → net.connects round ≡ true
    → Tried net port round (h ∷ hs) true (attempt h.address port ∷ [])
unfolding attempts_to
Tried-first net port round h hs kept accepts = (
  record {
    front = [];
    chosen = h;
    back = hs;
    parts = refl;
    failed = tt;
    kept = kept;
    accepted = let same : round + 0 ≡ round = omega arith in rw (same, accepts) refl;
  },
  rw (kept, attempts_to) refl,
)

pub try_addresses-Tried :
    (net : Network) (port round : ℕ) (hs : List HostInfo) (connected : Bool) (tries : List Action)
    → try_addresses net port round hs ≡ done (connected, tries)
    → Tried net port round hs connected tries
unfolding try_addresses attempts_to
try_addresses-Tried net port round [] true tries e = absurd cc
try_addresses-Tried net port round [] false tries e = (tt, cc)
try_addresses-Tried net port round (h ∷ hs) connected tries e =
    elim (Bool-cases (is_skipped net h)) [
      | inl skipped ↦ Tried-skip net port round h hs connected tries skipped (
          try_addresses-Tried net port (suc round) hs connected tries
            (let e' = rw (skipped, try_addresses) at e in e'))
      | inr kept ↦ elim (Bool-cases (h.ip_version == 4)) [
        | inr other ↦ absurd (let e' = rw (kept, try_addresses, other) at e in cc)
        | inl inet ↦ elim (Bool-cases (net.connects round)) [
          | inl accepts ↦
              let e' = rw (kept, try_addresses, inet, accepts) at e in
              let same : attempt h.address port ∷ [] ≡ tries = cc e' in
              let one : true ≡ connected = cc e' in
              subst (Tried net port round (h ∷ hs) connected) same (
                subst (λ b. Tried net port round (h ∷ hs) b (attempt h.address port ∷ [])) one
                  (Tried-first net port round h hs kept accepts))
          | inr fails ↦
              let e' = rw (kept, try_addresses, inet, fails) at e in
              let ((c, later), a, rest) =
                >>=-eq-done (try_addresses net port (suc round) hs) _ e' in
              let same : attempt h.address port ∷ later ≡ tries = cc rest in
              let one : c ≡ connected = cc rest in
              subst (Tried net port round (h ∷ hs) connected) same (
                Tried-fail net port round h hs connected later kept fails (
                  subst (λ b. Tried net port (suc round) hs b later) one
                    (try_addresses-Tried net port (suc round) hs c later a)))
        ]
      ]
    ]
