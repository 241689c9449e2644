-- ===== src/Server/Lifecycle.antt =====
-- The life of a server in src/http_server.c: http_server_init, http_server_deinit,
-- http_server_stop, and http_server_run around its loop, with the objects that they create.
pub mod Run
pub mod Objects
pub mod Serving
use http_c.Prelude.{
  ℕ, ◌==◌, ◌||◌, Bool, false, not, Option, none, some, List, [], ◌∷◌, map, length, if◌then◌else◌,
}
use http_c.Common.{Bytes, ResultCode, ok, error, invalid_argument}
use http_c.Server.{Slot, SlotState}
use http_c.Server.Routes.{Route, RouteTable}
use http_c.Server.Loop.{ServerState, initialized}

-- the objects of the system that a server owns
pub data Object : Type 0 where
  state_mutex state_cond pending_mutex local_endpoint event_loop : Object

-- What is created, and what is destroyed.
pub data Change : Type 0 where
  creates destroys : Object → Change

-- HTTP_SERVER_DEFAULT_DEFERRED_TIMEOUT_MS and HTTP_SERVER_DEFAULT_IDLE_TIMEOUT_MS
abbrev pub default_deferred_timeout_ms : ℕ
default_deferred_timeout_ms = 30000

abbrev pub default_idle_timeout_ms : ℕ
default_idle_timeout_ms = 30000

-- http_server_config_t; a NULL string is `none`, a callback an opaque number
pub record Config : Type 0 where
  pub port : ℕ
  pub bind_address : Option Bytes
  pub tls_enable : Bool
  pub certificate_file : Option Bytes
  pub private_key_file : Option Bytes
  pub on_state_changed : Option ℕ
  pub deferred_timeout_ms : ℕ
  pub idle_timeout_ms : ℕ

-- http_endpoint_config_t, the part that http_server_init sets
pub record EndpointConfig : Type 0 where
  pub port : ℕ
  pub address : Option Bytes
  pub tls_enable : Bool
  pub certificate_file : Option Bytes
  pub private_key_file : Option Bytes

-- http_server_t with its storage, without the objects of the system
pub record Server (R : Type 0) : Type 0 where
  pub endpoint_config : EndpointConfig
  pub slots : List Slot
  pub table : RouteTable R
  pub listen_registered : Bool
  pub state : ServerState
  pub state_changed_cb : Option ℕ
  pub pending_timeout_ms : ℕ
  pub idle_timeout_ms : ℕ

-- the loop of http_server_init over the slots
abbrev pub reset : Slot → Slot
reset slot = record slot {
  in_use = false;
  state = SlotState.idle;
  registered_events = 0;
  generation = 0;
  pending_ready = false;
  pending_cancelled = false;
  pending_deadline_ms = 0;
}

abbrev pub or_default : ℕ → ℕ → ℕ
or_default value default = if not (value == 0) then value else default

abbrev pub endpoint_of : Config → EndpointConfig
endpoint_of config = record {
  port = config.port;
  address = config.bind_address;
  tls_enable = config.tls_enable;
  certificate_file = config.certificate_file;
  private_key_file = config.private_key_file;
}

module _ {R : Type 0} where
  -- what http_server_init stores, for slots and a route table of the storage
  abbrev pub fresh : Config → List Slot → ℕ → Server R
  fresh config slots route_count = record {
    endpoint_config = endpoint_of config;
    slots = map reset slots;
    table = record { route_count_max = route_count; routes = [] };
    listen_registered = false;
    state = initialized;
    state_changed_cb = config.on_state_changed;
    pending_timeout_ms = or_default config.deferred_timeout_ms default_deferred_timeout_ms;
    idle_timeout_ms = or_default config.idle_timeout_ms default_idle_timeout_ms;
  }

  -- http_server_init, for a server that is not NULL; whether the creation of an object succeeds is
  -- the first argument. A NULL config or storage is `none`, and NULL slots or routes are empty.
  unfoldable pub http_server_init :
      (Object → Bool)
      → Option Config
      → Option (List Slot × ℕ)
      → Option (Server R) × ResultCode × List Change
  http_server_init can none storage = (none, invalid_argument, [])
  http_server_init can (some config) none = (none, invalid_argument, [])
  http_server_init can (some config) (some (slots, route_count)) =
      if length slots == 0 || route_count == 0
      then (none, invalid_argument, [])
      else if not (can state_mutex)
      then (none, error, [])
      else if not (can state_cond)
      then (none, error, creates state_mutex ∷ destroys state_mutex ∷ [])
      else if not (can pending_mutex)
      then (
        none,
        error,
        creates state_mutex ∷ creates state_cond ∷ destroys state_cond ∷ destroys state_mutex ∷ [],
      )
      else (
        some (fresh config slots route_count),
        ok,
        creates state_mutex ∷ creates state_cond ∷ creates pending_mutex ∷ [],
      )

  -- http_server_deinit, for a server that is not NULL; the patterns of the routes are freed
  unfoldable pub http_server_deinit : Server R → Server R × List (Route R) × List Change
  http_server_deinit server = (
    record server { table = record server.table { routes = [] } },
    server.table.routes,
    destroys pending_mutex ∷ destroys state_cond ∷ destroys state_mutex ∷ [],
  )
