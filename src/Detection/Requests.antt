-- ===== src/Detection/Requests.antt =====
-- The two forms of a request, and what the detector stores for them.
use nermalproxy.Prelude.{
  ℕ, ◌-◌, ◌%◌, ◌^◌, ◌<◌, ◌≡◌, ◌≢◌, refl, ap, ◌∙◌, true, false, ◌&&◌, [], ◌∷◌, ◌++◌, Option, none,
  some, arith, leb, le→ltb-false, if◌then◌else◌, length, All, Outcome, done, ◌>>=◌,
}
use nermalproxy.CText.{
  Bytes, codes, str_eq, IsCString, c_str_self, strchr-append, skip_space, scan_token-append,
  strip_prefix,
}
use nermalproxy.Session.{Session, SessionManager, get_session, change_session}
use nermalproxy.Setup.{digits_value}
use nermalproxy.Detection.{
  request_capacity, is_transparent, clamp, scan_port, Request, default_port, connect_request,
  http_target, cut_slash, http_rest, http_request, parse_request, detect, store_request,
  async_detector,
}
use nermalproxy.Detection.Words.{FitsWord, scan_word-append, mode_and_url-words}

-- A text that was read whole.
pub record IsRequest (text : Bytes) : Type 0 where
  pub nonzero : IsCString text
  pub nonempty : text ≢ []
  pub short : length text < request_capacity

detect-text : (text : Bytes) → IsRequest text → detect text ≡ parse_request text
unfolding detect
detect-text [] r = absurd (r.nonempty refl)
detect-text (c ∷ text) r = rw (c_str_self (c ∷ text) r.nonzero) (ground (arith, r.short))

-- Every byte is a digit.
abbrev pub AreDigits : Bytes → Type 0
AreDigits = All (λ c. (leb b'0' c && leb c b'9') ≡ true)

lt→clamp : (n : ℕ) → n < 2 ^ 63 → clamp (2 ^ 63 - 1) n ≡ n
lt→clamp n h = rw (le→ltb-false (2 ^ 63 - 1) n (omega arith)) refl

scan_port-digits :
    (d : ℕ) (ds : Bytes) (old : ℕ)
    → AreDigits (d ∷ ds)
    → digits_value 0 (d ∷ ds) < 2 ^ 63
    → scan_port (d ∷ ds) old ≡ digits_value 0 (d ∷ ds) % 2 ^ 16
unfolding scan_port
scan_port-digits d ds old h small =
    let whole = lt→clamp (digits_value 0 (d ∷ ds)) small in ground (arith, h.0)

async_detector-found :
    (m : SessionManager) (id : ℕ) (bytes : Bytes) (s : Session) (r : Request)
    → get_session m id ≡ some s
    → detect bytes ≡ done (some r)
    → async_detector m id bytes ≡ done (change_session (store_request r) m id, true)
unfolding async_detector
async_detector-found m id bytes s r found e = rw (found, async_detector, e)

connect_word : FitsWord (codes "CONNECT")
connect_word = record { word = ground arith; nonempty = λ e. cc; short = omega arith }

connect_request-url :
    (text host : Bytes) (d : ℕ) (ds : Bytes)
    → All (λ c. c ≢ b':') host
    → AreDigits (d ∷ ds)
    → digits_value 0 (d ∷ ds) < 2 ^ 63
    → connect_request text (host ++ b':' ∷ d ∷ ds) ≡ record {
      host = host;
      port = digits_value 0 (d ∷ ds) % 2 ^ 16;
      text = text;
      transparent = false;
    }
unfolding connect_request
connect_request-url text host d ds plain digits small = rw (
  strchr-append host (d ∷ ds) b':' plain,
  connect_request,
  scan_port-digits d ds default_port digits small,
)

-- The text `CONNECT host:port`, and what follows it.
abbrev pub connect_text : Bytes → Bytes → Bytes → Bytes
connect_text host port rest = codes "CONNECT" ++ 32 ∷ ((host ++ b':' ∷ port) ++ 32 ∷ rest)

parse_request-connect :
    (host rest : Bytes) (d : ℕ) (ds : Bytes)
    → All (λ c. c ≢ b':') host
    → AreDigits (d ∷ ds)
    → digits_value 0 (d ∷ ds) < 2 ^ 63
    → FitsWord (host ++ b':' ∷ d ∷ ds)
    → parse_request (connect_text host (d ∷ ds) rest)
      ≡ done (
          some (record {
            host = host;
            port = digits_value 0 (d ∷ ds) % 2 ^ 16;
            text = connect_text host (d ∷ ds) rest;
            transparent = false;
          }))
unfolding parse_request is_transparent str_eq
parse_request-connect host rest d ds plain digits small fits =
    ap
      (λ o. o >>= λ words.
        if is_transparent words.0
        then http_request (connect_text host (d ∷ ds) rest)
        else done (some (connect_request (connect_text host (d ∷ ds) rest) words.1)))
      (mode_and_url-words (codes "CONNECT") (host ++ b':' ∷ d ∷ ds) rest connect_word fits)
    ∙ ap (λ r. done (some r))
        (connect_request-url (connect_text host (d ∷ ds) rest) host d ds plain digits small)

-- A request `CONNECT host:port`, of fewer than 4096 bytes without a zero, whose target has fewer
-- than 1024 bytes without white space, whose host has no colon and whose port is below 2^63: if the
-- session is there, the detector reports success, and stores the host, the port modulo 2^16, and the text.
pub async_detector-connect :
    (m : SessionManager) (id : ℕ) (s : Session) (host rest : Bytes) (d : ℕ) (ds : Bytes)
    → get_session m id ≡ some s
    → All (λ c. c ≢ b':') host
    → AreDigits (d ∷ ds)
    → digits_value 0 (d ∷ ds) < 2 ^ 63
    → FitsWord (host ++ b':' ∷ d ∷ ds)
    → IsRequest (connect_text host (d ∷ ds) rest)
    → async_detector m id (connect_text host (d ∷ ds) rest)
      ≡ done (
        change_session
            (store_request (record {
              host = host;
              port = digits_value 0 (d ∷ ds) % 2 ^ 16;
              text = connect_text host (d ∷ ds) rest;
              transparent = false;
            }))
            m
            id,
        true,
      )
async_detector-connect m id s host rest d ds found plain digits small fits whole =
    async_detector-found m id (connect_text host (d ∷ ds) rest) s
      (record {
        host = host;
        port = digits_value 0 (d ∷ ds) % 2 ^ 16;
        text = connect_text host (d ∷ ds) rest;
        transparent = false;
      })
      found
      (detect-text (connect_text host (d ∷ ds) rest) whole
        ∙ parse_request-connect host rest d ds plain digits small fits)

-- The text `GET http://host/path`, and what follows it.
abbrev pub get_text : Bytes → Bytes → Bytes → Bytes
get_text host path rest =
    codes "GET" ++ 32 ∷ (codes "http://" ++ ((host ++ b'/' ∷ path) ++ 32 ∷ rest))

get_word : FitsWord (codes "GET")
get_word = record { word = ground arith; nonempty = λ e. cc; short = omega arith }

http_target-url :
    (text host path rest : Bytes)
    → All (λ c. c ≢ b'/') host
    → FitsWord (host ++ b'/' ∷ path)
    → http_target text ((host ++ b'/' ∷ path) ++ 32 ∷ rest)
      ≡ done (some (record { host = host; port = default_port; text = text; transparent = true }))
unfolding http_target cut_slash
http_target-url text host path rest plain fits = rw (
  scan_word-append (host ++ b'/' ∷ path) rest fits,
  http_target,
  strchr-append host path b'/' plain,
  cut_slash,
)

http_request-get :
    (host path rest : Bytes)
    → All (λ c. c ≢ b'/') host
    → FitsWord (host ++ b'/' ∷ path)
    → http_request (get_text host path rest)
      ≡ done (
          some (record {
            host = host;
            port = default_port;
            text = get_text host path rest;
            transparent = true;
          }))
unfolding http_request http_rest skip_space strip_prefix
http_request-get host path rest plain fits =
    let text = get_text host path rest in
    ap
      (λ (o : Option (Bytes × Bytes)). elim o as (λ x. Outcome (Option Request)) [
        | none ↦ done none
        | some w ↦ http_rest text w.1
      ])
      (scan_token-append b'G' 32 (b'E' ∷ b'T' ∷ [])
        (codes "http://" ++ ((host ++ b'/' ∷ path) ++ 32 ∷ rest)) get_word.word refl)
    ∙ http_target-url text host path rest plain fits

-- A request `GET http://host/path`, of fewer than 4096 bytes without a zero, whose address has
-- fewer than 1024 bytes without white space: if the session is there, the detector reports success,
-- and stores the host, which has no slash, the port 80, and the text, to be sent again.
pub async_detector-get :
    (m : SessionManager) (id : ℕ) (s : Session) (host path rest : Bytes)
    → get_session m id ≡ some s
    → All (λ c. c ≢ b'/') host
    → FitsWord (host ++ b'/' ∷ path)
    → FitsWord (codes "http://" ++ (host ++ b'/' ∷ path))
    → IsRequest (get_text host path rest)
    → async_detector m id (get_text host path rest)
      ≡ done (
        change_session
            (store_request (record {
              host = host;
              port = 80;
              text = get_text host path rest;
              transparent = true;
            }))
            m
            id,
        true,
      )
unfolding parse_request is_transparent str_eq
async_detector-get m id s host path rest found plain fits fits' whole =
    let text = get_text host path rest in
    async_detector-found m id text s
      (record { host = host; port = 80; text = text; transparent = true }) found
      (detect-text text whole
        ∙ (ap
              (λ o. o >>= λ words.
                if is_transparent words.0
                then http_request text
                else done (some (connect_request text words.1)))
              (mode_and_url-words (codes "GET") (codes "http://" ++ (host ++ b'/' ∷ path)) rest
                get_word fits')
            ∙ http_request-get host path rest plain fits))
