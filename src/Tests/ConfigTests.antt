-- ===== src/Tests/ConfigTests.antt =====
-- ConfigFile.cpp on a small file.
use nermalproxy.Prelude.{ℕ, ◌≡◌, refl, List, [], ◌∷◌, some, arith, done}
use nermalproxy.Blacklist.{get_lines, cut_at}
use nermalproxy.CText.{codes, str_eq, c_str, strchr, strrchr, scan_token, span_token, skip_space}
use nermalproxy.Config.{
  ConfigData, with_section, with_attribute, get_attribute, find_section, add_value, scan_into,
  Stale, section_text, comma_pieces, read_values, read_text, read_line, read_lines, load_data,
}
use nermalproxy.Config.Lines.{joined, add_values}
use nermalproxy.Config.Names.{IsName}
use nermalproxy.Config.Reading.{Line, heading, setting, comment, blank, load_data-file_text}
use nermalproxy.Config.Values.{values_of}

program : Unit {0}
unfolding str_eq c_str strchr strrchr scan_token span_token skip_space get_lines cut_at with_section
    with_attribute get_attribute find_section add_value scan_into section_text comma_pieces
    read_values read_text read_line read_lines load_data joined add_values values_of
program = tt

abbrev stale : ℕ → Stale
stale i = record { key = codes "old"; value = [] }

abbrev two_values : ConfigData
two_values =
    record {
      name = codes "Proxy";
      attributes = record { name = codes "port"; values = codes "80" ∷ codes "81" ∷ [] } ∷ [];
    }
    ∷ []

-- Spaces around names do not matter; text behind `#` is left out.
load_test :
    load_data stale [] (some (codes "# x\n[ Proxy ]\nport : 80, 81 # ports\n")) ≡ done two_values
unfolding program
load_test = refl

-- A line without a colon ends the file.
stray_test :
    load_data stale [] (some (codes "[Proxy]\nhello\nport:80\n"))
    ≡ done (record { name = codes "Proxy"; attributes = [] } ∷ [])
unfolding program
stray_test = refl

abbrev lines : List Line
lines =
    comment (codes " the proxy")
    ∷ heading (codes "Proxy")
    ∷ blank
    ∷ setting (codes "port") (codes "80") (codes "81" ∷ [])
    ∷ []

proxy-IsName : IsName (codes "Proxy")
proxy-IsName = record { plain = ground arith; nonempty = λ e. cc; short = omega arith }

port-IsName : IsName (codes "port")
port-IsName = record { plain = ground arith; nonempty = λ e. cc; short = omega arith }

first-IsName : IsName (codes "80")
first-IsName = record { plain = ground arith; nonempty = λ e. cc; short = omega arith }

second-IsName : IsName (codes "81")
second-IsName = record { plain = ground arith; nonempty = λ e. cc; short = omega arith }

load_data-file_text_example :
    load_data stale [] (some (codes "# the proxy\n[Proxy]\n\nport:80,81\n")) ≡ done two_values
unfolding program
load_data-file_text_example =
    load_data-file_text stale [] lines
      (omega arith, (proxy-IsName, (tt, ((port-IsName, first-IsName, (second-IsName, tt)), tt))))
