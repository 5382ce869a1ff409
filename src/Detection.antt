-- ===== src/Detection.antt =====
-- ProxyConnector.cpp: `asyncDetector`, which reads the first request of a client.
pub mod Words
pub mod Requests
pub mod Ports
use nermalproxy.Prelude.{
  ℕ, ◌-◌, ◌%◌, ◌^◌, Bool, true, false, not, ◌&&◌, ◌||◌, List, [], ◌∷◌, ◌++◌, Option, none, some,
  leb, ltb, ◌==◌, if◌then◌else◌, length, Outcome, done, fault, buffer_overflow, out_of_bounds,
  null_dereference, ◌>>=◌,
}
use nermalproxy.CText.{Bytes, codes, str_eq, c_str, strchr, skip_space, scan_token, strip_prefix}
use nermalproxy.Session.{
  Session, SessionManager, get_session, change_session, set_host, set_port, set_request,
  set_transparent,
}
use nermalproxy.Setup.{digits_value}

-- The sizes of `buf`, and of `mode` and `url`.
abbrev pub request_capacity : ℕ
request_capacity = 4096

abbrev pub mode_capacity : ℕ
mode_capacity = 1024

-- `%1024s` into one of the two arrays: the word and the text behind it, or `none` at the end. A
-- word of 1024 bytes or more is written past the end of the array by its terminator.
unfoldable pub scan_word : Bytes → Outcome (Option (Bytes × Bytes))
scan_word text = elim (scan_token text) [
  | none ↦ done none
  | some (word, rest) ↦
      if ltb (length word) mode_capacity then done (some (word, rest)) else fault buffer_overflow
]

-- The first two words of the request: `mode` and `url`.
unfoldable pub mode_and_url : Bytes → Outcome (Bytes × Bytes)
mode_and_url text = scan_word text >>= λ first. elim first [
  | none ↦ done ([], [])
  | some (mode, rest) ↦ scan_word rest >>= λ second. elim second [
    | none ↦ done (mode, [])
    | some (url, _) ↦ done (mode, url)
  ]
]

unfoldable pub is_transparent : Bytes → Bool
is_transparent mode =
    if str_eq (codes "CONNECT") mode
    then false
    else if str_eq (codes "GET") mode
    then true
    else str_eq (codes "POST") mode

-- A number, or the greatest that there is room for.
abbrev pub clamp : ℕ → ℕ → ℕ
clamp top n = if ltb top n then top else n

-- `%d` of the text behind the colon, as the `std::uint16_t` that it is stored as: the old number
-- if there are no digits. A number is read as a `long`, which stops at its bounds. The text is part of a word, so that no white space stands in front.
unfoldable pub scan_port : Bytes → ℕ → ℕ
scan_port [] old = old
scan_port (c ∷ cs) old =
    if c == b'-'
    then elim cs [
      | [] ↦ old
      | d ∷ ds ↦
          if leb b'0' d && leb d b'9'
          then (2 ^ 16 - clamp (2 ^ 63) (digits_value 0 (d ∷ ds)) % 2 ^ 16) % 2 ^ 16
          else old
    ]
    else if c == b'+'
    then elim cs [
      | [] ↦ old
      | d ∷ ds ↦
          if leb b'0' d && leb d b'9'
          then clamp (2 ^ 63 - 1) (digits_value 0 (d ∷ ds)) % 2 ^ 16
          else old
    ]
    else if leb b'0' c && leb c b'9'
    then clamp (2 ^ 63 - 1) (digits_value 0 (c ∷ cs)) % 2 ^ 16
    else old

-- What the detector stores in the session.
pub record Request : Type 0 where
  pub host : Bytes
  pub port : ℕ
  pub text : Bytes
  pub transparent : Bool

abbrev pub default_port : ℕ
default_port = 80

-- A request that names its target as a host and a port.
unfoldable pub connect_request : Bytes → Bytes → Request
connect_request text url = elim (strchr url b':') [
  | none ↦ record { host = url; port = default_port; text = text; transparent = false }
  | some (host, rest) ↦ record {
    host = host;
    port = scan_port rest default_port;
    text = text;
    transparent = false;
  }
]

-- The text in front of the first slash.
unfoldable pub cut_slash : Bytes → Bytes
cut_slash url = elim (strchr url b'/') [ none ↦ url | some (host, _) ↦ host ]

-- `%1024s` behind `http://`.
unfoldable pub http_target : Bytes → Bytes → Outcome (Option Request)
http_target text target = scan_word target >>= λ word. elim word [
  | none ↦ done none
  | some (url, _) ↦
      done (
        some
          (record { host = cut_slash url; port = default_port; text = text; transparent = true }))
]

-- ` http://%1024s` behind the first word.
unfoldable pub http_rest : Bytes → Bytes → Outcome (Option Request)
http_rest text rest = elim (strip_prefix (codes "http://") (skip_space rest)) [
  | none ↦ done none
  | some target ↦ http_target text target
]

-- A request that names its target as an address of HTTP: `%*s http://%1024s`.
unfoldable pub http_request : Bytes → Outcome (Option Request)
http_request text = elim (scan_token text) [
  | none ↦ done none
  | some (_, rest) ↦ http_rest text rest
]

-- The request in the text of the buffer; `none` is a failure.
unfoldable pub parse_request : Bytes → Outcome (Option Request)
parse_request text = mode_and_url text >>= λ words.
    if is_transparent words.0 then http_request text else done (some (connect_request text words.1))

-- The bytes that were read, none for an error or the end of the stream. A buffer that is full
-- and has no zero in it is read past its end.
unfoldable pub detect : Bytes → Outcome (Option Request)
detect bytes =
    if length bytes == 0
    then done none
    else if length bytes == request_capacity && length (c_str bytes) == request_capacity
    then fault out_of_bounds
    else parse_request (c_str bytes)

unfoldable pub store_request : Request → Session → Session
store_request r s =
    set_transparent r.transparent (set_request r.text (set_port r.port (set_host r.host s)))

-- `asyncDetector`: the sessions afterwards, and whether the message that it sends reports success.
unfoldable pub async_detector : SessionManager → ℕ → Bytes → Outcome (SessionManager × Bool)
async_detector m id bytes = elim (get_session m id) [
  | none ↦ fault null_dereference
  | some s ↦ detect bytes >>= λ found. elim found [
    | none ↦ done (m, false)
    | some r ↦ done (change_session (store_request r) m id, true)
  ]
]
