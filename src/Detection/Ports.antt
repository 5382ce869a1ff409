-- ===== src/Detection/Ports.antt =====
-- The port of a `CONNECT` request, from a client that prints it in decimal.
use nermalproxy.Prelude.{
  ℕ, ◌%◌, ◌^◌, ◌<◌, ◌≡◌, ◌≢◌, ◌∙◌, ap, sym, subst, true, false, ◌∷◌, ◌++◌, some, arith, All, done,
}
use nermalproxy.CText.{Bytes, decimal}
use nermalproxy.Session.{Session, SessionManager, get_session, change_session}
use nermalproxy.Setup.Decimal.{IsNumeral, decimal-IsNumeral, decimal-nonempty}
use nermalproxy.Detection.{Request, store_request, async_detector}
use nermalproxy.Detection.Words.{FitsWord}
use nermalproxy.Detection.Requests.{IsRequest, connect_text, async_detector-connect}

-- The request that `CONNECT host:port` makes.
abbrev pub decimal_request : Bytes → ℕ → Bytes → Request
decimal_request host port rest = record {
  host = host;
  port = port;
  text = connect_text host (decimal port) rest;
  transparent = false;
}

module _ (m : SessionManager) (id : ℕ) (s : Session) (host rest : Bytes)
    (found : get_session m id ≡ some s) (plain : All (λ c. c ≢ b':') host) where
  numeral :
      (n d : ℕ) (ds : Bytes)
      → n < 2 ^ 16
      → IsNumeral n (d ∷ ds)
      → FitsWord (host ++ b':' ∷ d ∷ ds)
      → IsRequest (connect_text host (d ∷ ds) rest)
      → async_detector m id (connect_text host (d ∷ ds) rest)
        ≡ done (
          change_session
              (store_request (record {
                host = host;
                port = n;
                text = connect_text host (d ∷ ds) rest;
                transparent = false;
              }))
              m
              id,
          true,
        )
  numeral n d ds h r fits whole =
      async_detector-connect m id s host rest d ds found plain r.digital (rw r.value (omega arith))
        fits whole
      ∙ ap
          (λ port. done (
            change_session
                (store_request (record {
                  host = host;
                  port = port;
                  text = connect_text host (d ∷ ds) rest;
                  transparent = false;
                }))
                m id,
            true,
          ))
          (ap (λ v. v % 2 ^ 16) r.value ∙ omega arith)

  -- A request `CONNECT host:port` that prints a port of 16 bits in decimal, of fewer than 4096
  -- bytes without a zero, whose target has fewer than 1024 bytes without white space, and whose
  -- host has no colon: if the session is there, the detector reports success, and stores the host,
  -- the port that was printed, and the text.
  pub async_detector-decimal :
      (port : ℕ)
      → port < 2 ^ 16
      → FitsWord (host ++ b':' ∷ decimal port)
      → IsRequest (connect_text host (decimal port) rest)
      → async_detector m id (connect_text host (decimal port) rest)
        ≡ done (change_session (store_request (decimal_request host port rest)) m id, true)
  async_detector-decimal port h =
      let (d, ds, e) = decimal-nonempty port in
      subst
        (λ digits.
          FitsWord (host ++ b':' ∷ digits)
          → IsRequest (connect_text host digits rest)
          → async_detector m id (connect_text host digits rest)
            ≡ done (
              change_session
                  (store_request (record {
                    host = host;
                    port = port;
                    text = connect_text host digits rest;
                    transparent = false;
                  }))
                  m id,
              true,
            ))
        (sym e)
        (numeral port d ds h (subst (IsNumeral port) e (decimal-IsNumeral port (omega arith))))
