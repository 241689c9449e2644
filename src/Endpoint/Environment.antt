-- ===== src/Endpoint/Environment.antt =====
-- http_endpoint_config_set_proxy_from_environment of src/http_endpoint.c. getenv and base64_encode
-- are parameters.
use http_c.Prelude.{Bool, false, Option, none, some, if◌then◌else◌}
use http_c.Prelude.Text.{bytes}
use http_c.Common.{Bytes, ResultCode, ok, invalid_argument}
use http_c.Span.{CommonLib}
use http_c.Headers.{is_empty}
use http_c.Endpoint.{http_endpoint_proxy_should_bypass}
use http_c.Endpoint.Proxy.{ProxyHost, no_proxy_host, http_endpoint_proxy_parse_url}

-- http_endpoint_config_t, as far as the proxy depends on it
pub record EndpointConfig : Type 0 where
  pub remote_hostname : Bytes
  pub tls_enable : Bool
  pub proxy : ProxyHost

-- a value that is set and not empty
abbrev pub non_empty : Option Bytes → Option Bytes
non_empty none = none
non_empty (some value) = if is_empty value then none else some value

abbrev pub or_else : Option Bytes → Option Bytes → Option Bytes
or_else (some value) second = some value
or_else none second = second

abbrev pub first_environment_value : (Bytes → Option Bytes) → Bytes → Bytes → Option Bytes
first_environment_value getenv first_name second_name =
    or_else (non_empty (getenv first_name)) (non_empty (getenv second_name))

module _ (lib : CommonLib) (base64_encode : Bytes → Option Bytes)
    (getenv : Bytes → Option Bytes) where
  abbrev pub excluded : Option Bytes → Bytes → Bool
  excluded none hostname = false
  excluded (some no_proxy) hostname = http_endpoint_proxy_should_bypass lib no_proxy hostname

  abbrev pub set_proxy :
      EndpointConfig → Option Bytes → Option Bytes → ResultCode × EndpointConfig × Option Bytes
  set_proxy configuration storage none = (ok, configuration, storage)
  set_proxy configuration storage (some proxy_url) =
      if excluded (first_environment_value getenv (bytes "no_proxy") (bytes "NO_PROXY"))
        configuration.remote_hostname
      then (ok, configuration, storage)
      else let (result, proxy, storage') =
          http_endpoint_proxy_parse_url lib base64_encode proxy_url storage in
        (result, record configuration { proxy = proxy }, storage')

  -- `none` for a NULL configuration; the result, the configuration, and the storage
  unfoldable pub http_endpoint_config_set_proxy_from_environment :
      Option EndpointConfig → Option Bytes → ResultCode × Option EndpointConfig × Option Bytes
  http_endpoint_config_set_proxy_from_environment none storage = (invalid_argument, none, storage)
  http_endpoint_config_set_proxy_from_environment (some configuration) storage =
      let proxy_url =
        if configuration.tls_enable
        then first_environment_value getenv (bytes "https_proxy") (bytes "HTTPS_PROXY")
        else first_environment_value getenv (bytes "http_proxy") (bytes "HTTP_PROXY") in
      let (result, configuration', storage') =
        set_proxy (record configuration { proxy = no_proxy_host }) storage proxy_url in
      (result, some configuration', storage')
