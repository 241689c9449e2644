-- ===== src/Endpoint/Proxy.antt =====
-- http_endpoint_proxy_parse_url of src/http_endpoint.c: the parts of the address, and the storage
-- that it fills. base64_encode of common-lib-c is a parameter.
pub mod Stored
use http_c.Prelude.{
  ℕ, zero, suc, ◌+◌, ◌-◌, ◌*◌, ◌/◌, ◌%◌, ◌^◌, Bool, true, false, not, ◌&&◌, ◌||◌, Option, none,
  some, [], ◌∷◌, ◌++◌, length, take, drop, get_or, ltb, ◌==◌, if◌then◌else◌,
}
use http_c.Prelude.Buffers.{overwrite}
use http_c.Prelude.Text.{bytes}
use http_c.Common.{Bytes, ResultCode, ok, error, invalid_argument, insufficient_size}
use http_c.Span.{CommonLib}
use http_c.Headers.{is_empty}
use http_c.Endpoint.{
  text_length, equals_ignoring_case, find_byte, find_last_byte, hexadecimal_value, percent_decode,
  parse_port, is_valid_hostname, trim_blanks,
}

-- The fields of proxy_host_config_t that the code fills: a span into the storage is the bytes that
-- it covers.
pub record ProxyHost : Type 0 where
  pub hostname : Bytes
  pub port : ℕ
  pub authorization : Bytes

abbrev pub no_proxy_host : ProxyHost
no_proxy_host = record { hostname = []; port = 0; authorization = [] }

-- What is read off the address.
pub record Address : Type 0 where
  pub host : Bytes
  pub port_number : ℕ
  pub user_information : Option Bytes

abbrev pub scheme_separator : Bytes
scheme_separator = bytes "://"

abbrev pub basic_prefix : Bytes
basic_prefix = bytes "Basic "

-- the length of the authority
abbrev pub authority_length : Bytes → ℕ
authority_length [] = 0
authority_length (c ∷ url) =
    let rest = authority_length url in if c == b'/' || (c == b'?' || c == b'#') then 0 else suc rest

-- the bytes of an IPv6 literal
abbrev pub is_literal : Bytes → Bool
is_literal [] = true
is_literal (c ∷ text) =
    (elim (hexadecimal_value c) [ none ↦ (c == b':' || (c == b'.' || c == b'%')) | some v ↦ true ])
    && is_literal text

abbrev pub zeros : ℕ → Bytes
zeros zero = []
zeros (suc n) = 0 ∷ zeros n

-- a uint32_t, as are the sums below
abbrev pub encoded_length : ℕ → ℕ
encoded_length n = 4 * ((n + 2) % 2 ^ 32 / 3) % 2 ^ 32

module _ (lib : CommonLib) where
  -- the address behind the scheme, of which only http is accepted
  abbrev pub after_scheme : Bytes → Option (ℕ × Bytes) → Option Bytes
  after_scheme url none = some url
  after_scheme url (some (scheme_end, rest)) =
      if equals_ignoring_case (lib.slice url 0 scheme_end) (bytes "http") then some rest else none

  -- the user information, and the authority behind it
  abbrev pub split_user : Bytes → Option ℕ → Option Bytes × Bytes
  split_user authority none = (none, authority)
  split_user authority (some at_position) =
      (some (lib.slice authority 0 at_position), lib.slice_to_end authority (at_position + 1))

  -- The host name and the digits of the port; `none` is invalid_argument.
  abbrev pub bracketed : Bytes → Option ℕ → Option (Bytes × Bytes)
  bracketed authority none = none
  bracketed authority (some closing) =
      if ltb closing 2
      then none
      else let hostname = lib.slice authority 1 (closing - 1) in
        let after = lib.slice_to_end authority (closing + 1) in
        if not (is_empty after) && not (get_or after 0 0 == b':')
        then none
        else if is_literal hostname
        then some (hostname, (if is_empty after then [] else lib.slice_to_end after 1))
        else none

  abbrev pub with_colon : Bytes → Option ℕ → Option ℕ → Option (Bytes × Bytes)
  with_colon authority (some colon) (some last_colon) =
      if last_colon == colon
      then some (lib.slice authority 0 colon, lib.slice_to_end authority (colon + 1))
      else none
  with_colon authority _ _ = some (authority, [])

  abbrev pub valid_host : Option (Bytes × Bytes) → Option (Bytes × Bytes)
  valid_host none = none
  valid_host (some (hostname, digits)) =
      if is_valid_hostname hostname then some (hostname, digits) else none

  unfoldable pub host_and_port : Bytes → Option (Bytes × Bytes)
  host_and_port authority =
      if not (is_empty authority) && get_or authority 0 0 == b'['
      then bracketed authority (find_byte authority b']')
      else valid_host
          (with_colon authority (find_byte authority b':') (find_last_byte authority b':'))

  abbrev pub with_port : Option Bytes → Option (Bytes × Bytes) → Option Address
  with_port user none = none
  with_port user (some (hostname, digits)) =
      if is_empty hostname
      then none
      else if is_empty digits
      then some (record { host = hostname; port_number = 80; user_information = user })
      else elim (parse_port digits) [
        | none ↦ none
        | some port ↦ some (record { host = hostname; port_number = port; user_information = user })
      ]

  -- the address behind its scheme
  unfoldable pub address_of : Option Bytes → Option Address
  address_of none = none
  address_of (some url) =
      let authority = lib.slice url 0 (authority_length url) in
      let (user, rest) = split_user authority (find_last_byte authority b'@') in
      with_port user (host_and_port rest)

  -- the first half of http_endpoint_proxy_parse_url; `none` is invalid_argument
  unfoldable pub read_address : Bytes → Option Address
  read_address proxy_url =
      let url = trim_blanks lib (lib.slice proxy_url 0 (text_length proxy_url)) in
      if is_empty url then none else address_of (after_scheme url (lib.find url 0 scheme_separator))

  -- user and password
  abbrev pub split_password : Bytes → Option ℕ → Bytes × Bytes
  split_password user_information none = (user_information, [])
  split_password user_information (some colon) =
      (lib.slice user_information 0 colon, lib.slice_to_end user_information (colon + 1))

  -- the decoded user and password; `none` is invalid_argument
  abbrev pub credentials_of : Option Bytes → Option (Option (Bytes × Bytes))
  credentials_of none = some none
  credentials_of (some user_information) =
      let (user, password) = split_password user_information (find_byte user_information b':') in
      elim (percent_decode user) [
        | none ↦ none
        | some decoded_user ↦ elim (percent_decode password) [
          | none ↦ none
          | some decoded_password ↦ some (some (decoded_user, decoded_password))
        ]
      ]

-- What follows base64_encode, behind a host name of that many bytes, where `n` bytes are staged at
-- `staged`: the result, the authorization, and the storage.
abbrev pub finish_credentials : ℕ → ℕ → ℕ → Bytes → Option Bytes → ResultCode × Bytes × Bytes
finish_credentials at staged n storage none = (
  error,
  [],
  overwrite 0 (zeros ((at + (length basic_prefix + encoded_length n + 1)) % 2 ^ 32))
      (overwrite staged (zeros n) storage),
)
finish_credentials at staged n storage (some encoded) =
    let size = (length basic_prefix + encoded_length n) % 2 ^ 32 in
    let storage' =
      overwrite (at + size) (0 ∷ [])
        (overwrite staged (zeros n) (overwrite (at + length basic_prefix) encoded storage)) in
    (ok, take size (drop at storage'), storage')

abbrev pub proxy_of : Address → ResultCode × Bytes × Bytes → ResultCode × ProxyHost × Bytes
proxy_of address (ResultCode.ok, authorization, storage) = (
  ok,
  record { hostname = address.host; port = address.port_number; authorization = authorization },
  storage,
)
proxy_of address (result, authorization, storage) = (result, no_proxy_host, storage)

module _ (base64_encode : Bytes → Option Bytes) where
  -- The storage behind the host name is filled: the credentials are put at the end, encoded, and
  -- wiped. Where the size that is needed has wrapped, the code writes outside the storage; what
  -- stands there is not modelled.
  unfoldable pub store_credentials : Bytes → Bytes → Bytes → ResultCode × Bytes × Bytes
  store_credentials hostname credentials storage =
      let at = length hostname + 1 in
      let n = length credentials % 2 ^ 32 in
      let staged = length storage - n in
      let storage' = overwrite at basic_prefix (overwrite staged credentials storage) in
      finish_credentials at staged n storage' (base64_encode (take n (drop staged storage')))

  -- the second half of http_endpoint_proxy_parse_url
  unfoldable pub store_proxy :
      Address → Option (Bytes × Bytes) → Bytes → ResultCode × ProxyHost × Bytes
  store_proxy address none storage =
      if ltb (length storage) ((length address.host + 1) % 2 ^ 32)
      then (insufficient_size, no_proxy_host, storage)
      else proxy_of address (ok, [], overwrite 0 (address.host ++ 0 ∷ []) storage)
  store_proxy address (some (user, password)) storage =
      let credentials = user ++ (b':' ∷ password) in
      let n = length credentials % 2 ^ 32 in
      if ltb (length storage)
        ((length address.host + 1 + (length basic_prefix + encoded_length n + 1 + n)) % 2 ^ 32)
      then (insufficient_size, no_proxy_host, storage)
      else proxy_of address (
          store_credentials address.host credentials (overwrite 0 (address.host ++ 0 ∷ []) storage))

  abbrev pub stored_or_refused :
      Address
      → Option (Option (Bytes × Bytes))
      → Option Bytes
      → ResultCode × ProxyHost × Option Bytes
  stored_or_refused address none storage = (invalid_argument, no_proxy_host, storage)
  stored_or_refused address (some credentials) none = (insufficient_size, no_proxy_host, none)
  stored_or_refused address (some credentials) (some storage) =
      let (result, proxy, storage') = store_proxy address credentials storage in
      (result, proxy, some storage')

module _ (lib : CommonLib) (base64_encode : Bytes → Option Bytes) where
  -- http_endpoint_proxy_parse_url, where out_proxy is not NULL: the result, *out_proxy, and the
  -- storage, `none` for a NULL pointer
  unfoldable pub http_endpoint_proxy_parse_url :
      Bytes → Option Bytes → ResultCode × ProxyHost × Option Bytes
  http_endpoint_proxy_parse_url proxy_url storage = elim (read_address lib proxy_url) [
    | none ↦ (invalid_argument, no_proxy_host, storage)
    | some address ↦
        stored_or_refused base64_encode address (credentials_of lib address.user_information)
          storage
  ]
