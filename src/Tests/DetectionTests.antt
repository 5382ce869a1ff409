-- ===== src/Tests/DetectionTests.antt =====
-- `asyncDetector` of ProxyConnector.cpp on requests of both forms.
use nermalproxy.Prelude.{◌≡◌, refl, true, false, [], ◌∷◌, some, none, arith, done}
use nermalproxy.CText.{
  codes, digits_of, decimal, str_eq, c_str, strchr, skip_space, span_token, scan_token,
  strip_prefix,
}
use nermalproxy.Session.{
  Session, SessionManager, Garbage, new_session, find_id, change_id, change_session,
}
use nermalproxy.Setup.{digits_value}
use nermalproxy.Detection.{
  scan_word, mode_and_url, is_transparent, scan_port, connect_request, cut_slash, http_target,
  http_rest, http_request, parse_request, detect, store_request, async_detector,
}
use nermalproxy.Detection.Words.{FitsWord}
use nermalproxy.Detection.Requests.{IsRequest, connect_text, get_text, async_detector-get}
use nermalproxy.Detection.Ports.{decimal_request, async_detector-decimal}

program : Unit {0}
unfolding digits_of str_eq c_str strchr skip_space span_token scan_token strip_prefix find_id
    change_id digits_value scan_word mode_and_url is_transparent scan_port connect_request cut_slash
    http_target http_rest http_request parse_request detect store_request async_detector
program = tt

-- The port of an address of HTTP stays in the host.
port_test :
    detect (codes "GET http://a.com:81/x HTTP/1.1\r\n")
    ≡ done (
        some (record {
          host = codes "a.com:81";
          port = 80;
          text = codes "GET http://a.com:81/x HTTP/1.1\r\n";
          transparent = true;
        }))
unfolding program
port_test = refl

-- A port beyond a `long` is its greatest value, of which 16 bits are kept.
long_port_test : scan_port (codes "18446744073709551616") 80 ≡ 65535
unfolding program
long_port_test = refl

-- An address that is not one of HTTP.
other_test : detect (codes "POST ftp://a.com HTTP/1.1\r\n") ≡ done none
unfolding program
other_test = refl

abbrev garbage : Garbage
garbage = record {
  proxy_fd = 0;
  transparent = false;
  client_rx_bytes = 0;
  client_tx_bytes = 0;
  port = 0;
}

abbrev session : Session
session = new_session garbage 40 7 0

abbrev sessions : SessionManager
sessions = record { next_id = 1; session_list = session ∷ [] }

connect_fits : FitsWord (codes "a.com:443")
connect_fits = record { word = ground arith; nonempty = λ e. cc; short = omega arith }

connect_whole : IsRequest (connect_text (codes "a.com") (codes "443") (codes "HTTP/1.1"))
connect_whole = record { nonzero = omega arith; nonempty = λ e. cc; short = omega arith }

get_fits : FitsWord (codes "a.com/x")
get_fits = record { word = ground arith; nonempty = λ e. cc; short = omega arith }

address_fits : FitsWord (codes "http://a.com/x")
address_fits = record { word = ground arith; nonempty = λ e. cc; short = omega arith }

get_whole : IsRequest (get_text (codes "a.com") (codes "x") (codes "HTTP/1.1"))
get_whole = record { nonzero = omega arith; nonempty = λ e. cc; short = omega arith }

async_detector-get_example :
    async_detector sessions 0 (codes "GET http://a.com/x HTTP/1.1")
    ≡ done (
      change_session
          (store_request (record {
            host = codes "a.com";
            port = 80;
            text = codes "GET http://a.com/x HTTP/1.1";
            transparent = true;
          }))
          sessions
          0,
      true,
    )
unfolding program
async_detector-get_example =
    async_detector-get sessions 0 session (codes "a.com") (codes "x") (codes "HTTP/1.1") refl
      (omega arith) get_fits address_fits get_whole

async_detector-decimal_example :
    async_detector sessions 0 (connect_text (codes "a.com") (decimal 443) (codes "HTTP/1.1"))
    ≡ done (
      change_session
          (store_request (decimal_request (codes "a.com") 443 (codes "HTTP/1.1")))
          sessions
          0,
      true,
    )
unfolding program
async_detector-decimal_example =
    async_detector-decimal sessions 0 session (codes "a.com") (codes "HTTP/1.1") refl (omega arith)
      443 (omega arith) connect_fits connect_whole
