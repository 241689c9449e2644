-- ===== src/Examples/Endpoint.antt =====
-- A list of hosts that go past the proxy.
use http_c.Prelude.{
  ◌≡◌, ◌↔◌, refl, true, false, some, none, Option, ℕ, ◌+◌, ◌-◌, ◌*◌, ◌/◌, ◌%◌, ltb, if◌then◌else◌,
  [], ◌∷◌, ◌++◌, take, drop, arith,
}
use http_c.Common.{Bytes, ok}
use http_c.Prelude.Text.{bytes}
use http_c.Span.Reference.{reference}
use http_c.Endpoint.{
  entry_bypasses, trim_blanks, text_length, equals_ignoring_case, find_last_byte, find_byte,
  parse_port, percent_decode, is_valid_hostname, http_endpoint_proxy_should_bypass,
}
use http_c.Endpoint.Proxy.{
  store_proxy, store_credentials, no_proxy_host, zeros, basic_prefix, Address, read_address,
  credentials_of, address_of, host_and_port, http_endpoint_proxy_parse_url,
}
use http_c.Endpoint.Proxy.Stored.{parse_url-stored}
use http_c.Endpoint.Environment.{EndpointConfig, http_endpoint_config_set_proxy_from_environment}
use http_c.Span.Cut.{Free}
use http_c.Endpoint.Covers.{Covers}
use http_c.Endpoint.Entries.{star_dot, entry_bypasses-name}

bypass_below :
    http_endpoint_proxy_should_bypass reference
      (bytes "localhost, *.Example.com:8080")
      (bytes "www.example.COM.")
    ≡ true
unfolding http_endpoint_proxy_should_bypass reference
bypass_below = refl

bypass_other :
    http_endpoint_proxy_should_bypass reference
      (bytes "localhost, .example.com")
      (bytes "badexample.com")
    ≡ false
unfolding http_endpoint_proxy_should_bypass reference
bypass_other = refl

bypass_address :
    http_endpoint_proxy_should_bypass reference (bytes "[::1]:443") (bytes "[::1]") ≡ true
unfolding http_endpoint_proxy_should_bypass reference
bypass_address = refl

user_decoded : percent_decode (bytes "us%65r%40") ≡ some (bytes "user@")
unfolding percent_decode
user_decoded = refl

escape_cut : percent_decode (bytes "us%6") ≡ none
unfolding percent_decode
escape_cut = refl

port_largest : parse_port (bytes "65535") ≡ some 65535
unfolding parse_port
port_largest = refl

port_too_large : parse_port (bytes "65536") ≡ none
unfolding parse_port
port_too_large = refl

host_with_slash : is_valid_hostname (bytes "a/b") ≡ false
unfolding is_valid_hostname
host_with_slash = refl

without_colon : Free b':' (bytes "example.COM")
without_colon =
    (refl, (refl, (refl, (refl, (refl, (refl, (refl, (refl, (refl, (refl, (refl, tt)))))))))))

abbrev with_port : Bytes
with_port = bytes " *.example.COM:80"

trimmed : trim_blanks reference with_port ≡ bytes "*.example.COM:80"
unfolding trim_blanks reference
trimmed = refl

star_trimmed : trim_blanks reference (bytes "* ") ≡ bytes "*"
unfolding trim_blanks reference
star_trimmed = refl

entry_bypasses-name_example :
    ((entry_bypasses reference (bytes "www.Example.com") with_port ≡ true)
      ↔ Covers (bytes "www.Example.com") (bytes "example.COM"))
    × (entry_bypasses reference (bytes "www.Example.com") (bytes "* ") ≡ true)
entry_bypasses-name_example =
    entry_bypasses-name reference (bytes "www.Example.com") with_port (bytes "* ") star_dot b'e'
      (bytes "xample.COM") (some (bytes "80"))
      (record {
        no_bracket = refl;
        no_star = refl;
        no_dot = refl;
        no_colon = without_colon;
        no_last_dot = refl;
      })
      (refl, (refl, tt)) trimmed star_trimmed

abbrev letter : ℕ → ℕ
letter n =
    if ltb n 26
    then 65 + n
    else if ltb n 52
    then 71 + n
    else if ltb n 62
    then n - 4
    else if ltb n 63
    then 43
    else 47

abbrev groups : Bytes → Bytes
groups [] = []
groups (a ∷ []) = letter (a / 4) ∷ letter (a % 4 * 16) ∷ b'=' ∷ b'=' ∷ []
groups (a ∷ b ∷ []) =
    letter (a / 4) ∷ letter (a % 4 * 16 + b / 16) ∷ letter (b % 16 * 4) ∷ b'=' ∷ []
groups (a ∷ b ∷ c ∷ rest) =
    letter (a / 4)
    ∷ letter (a % 4 * 16 + b / 16)
    ∷ letter (b % 16 * 4 + c / 64)
    ∷ letter (c % 64)
    ∷ groups rest

abbrev encode : Bytes → Option Bytes
encode s = some (groups s)

abbrev proxy_text : Bytes
proxy_text = bytes "http://us%65r:pw@proxy:3128/x"

abbrev proxy_address : Address
proxy_address = record {
  host = bytes "proxy";
  port_number = 3128;
  user_information = some (bytes "us%65r:pw");
}

address_read : read_address reference proxy_text ≡ some proxy_address
unfolding read_address reference trim_blanks text_length address_of equals_ignoring_case
    host_and_port find_last_byte find_byte is_valid_hostname parse_port
address_read = refl

literal_read :
    read_address reference (bytes "[::1]")
    ≡ some (record { host = bytes "::1"; port_number = 80; user_information = none })
unfolding read_address reference trim_blanks text_length address_of host_and_port find_last_byte
    find_byte
literal_read = refl

scheme_refused : read_address reference (bytes "https://proxy") ≡ none
unfolding read_address reference trim_blanks text_length address_of equals_ignoring_case
scheme_refused = refl

credentials_read :
    credentials_of reference proxy_address.user_information ≡ some (some (bytes "user", bytes "pw"))
unfolding percent_decode reference find_byte
credentials_read = refl

parse_url-stored_example :
    (storage : Bytes) × (http_endpoint_proxy_parse_url reference encode proxy_text (some (zeros 40))
      ≡ (
        ok,
        record {
          hostname = bytes "proxy";
          port = 3128;
          authorization = basic_prefix ++ groups (bytes "user:pw");
        },
        some storage,
      ))
    × (take 6 storage ≡ bytes "proxy" ++ (0 ∷ []))
    × (drop 33 storage ≡ zeros 7)
parse_url-stored_example =
    parse_url-stored reference encode proxy_text (zeros 40) (bytes "user") (bytes "pw")
      (groups (bytes "user:pw")) proxy_address address_read credentials_read refl refl (omega arith)
      (omega arith)

abbrev variables : Bytes → Option Bytes
variables name =
    if equals_ignoring_case name (bytes "HTTP_PROXY")
    then some (bytes "proxy:8080")
    else if equals_ignoring_case name (bytes "no_proxy")
    then some (bytes ".test")
    else none

abbrev direct : Bytes → EndpointConfig
direct host = record { remote_hostname = host; tls_enable = false; proxy = no_proxy_host }

proxy_set :
    (http_endpoint_config_set_proxy_from_environment reference encode variables
      (some (direct (bytes "example.com")))
      (some (zeros 6))).2
    ≡ some (bytes "proxy" ++ (0 ∷ []))
unfolding http_endpoint_config_set_proxy_from_environment http_endpoint_proxy_should_bypass
    http_endpoint_proxy_parse_url store_proxy store_credentials read_address reference trim_blanks
    text_length address_of equals_ignoring_case host_and_port find_last_byte find_byte
    is_valid_hostname parse_port percent_decode
proxy_set = refl

proxy_excluded :
    http_endpoint_config_set_proxy_from_environment reference encode variables
      (some (direct (bytes "a.test")))
      (some (zeros 6))
    ≡ (ok, some (direct (bytes "a.test")), some (zeros 6))
unfolding http_endpoint_config_set_proxy_from_environment http_endpoint_proxy_should_bypass
    http_endpoint_proxy_parse_url store_proxy store_credentials read_address reference trim_blanks
    text_length address_of equals_ignoring_case host_and_port find_last_byte find_byte
    is_valid_hostname parse_port percent_decode
proxy_excluded = refl
