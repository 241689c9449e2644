-- ===== src/Server/Loop/Steps.antt =====
-- The event loop of src/http_server.c as a step relation on the table of slots and what they
-- share: the callbacks of event_loop_run_once, the rounds after it, and other threads.
use http_c.Prelude.{ℕ, ◌≡◌, Bool, true, Option, some, List, get_elem?, put}
use http_c.Response.{Response}
use http_c.Span.{CommonLib}
use http_c.Server.{Slot}
use http_c.Server.Deferral.{post_at}
use http_c.Server.Loop.{Env, Shared}
use http_c.Server.Loop.Driving.{on_connection_io}
use http_c.Server.Loop.Table.{
  on_listen_readable, flush_pending_responses, sweep_pending_deadlines, sweep_idle_connections,
}

module _ (lib : CommonLib) (env : Env) where
  open env use {World}

  -- An event of a connection, an event of the listening socket, the three rounds, a completion or
  -- a cancellation by a worker, and what else happens in the world.
  pub data LoopStep : List Slot × Shared World → List Slot × Shared World → Type 0 where
    io :
        (failed : Bool) (fuel i : ℕ) (slots : List Slot) (shared : Shared World) (slot slot' : Slot)
        (shared' : Shared World)
        → get_elem? slots i ≡ some slot
        → slot.in_use ≡ true
        → on_connection_io lib env failed fuel slot shared ≡ some (slot', shared')
        → LoopStep (slots, shared) (put i slot' slots, shared')
    accepts :
        (fd : ℕ) (slots : List Slot) (shared : Shared World)
        → LoopStep (slots, shared) (on_listen_readable lib env fd slots shared)
    flushes :
        (slots : List Slot) (shared : Shared World)
        → LoopStep (slots, shared) (flush_pending_responses lib env slots shared)
    expires :
        (slots : List Slot) (shared : Shared World)
        → LoopStep (slots, shared) (sweep_pending_deadlines lib env slots shared)
    sweeps :
        (slots : List Slot) (shared : Shared World)
        → LoopStep (slots, shared) (sweep_idle_connections lib env slots shared)
    posts :
        (i generation : ℕ) (completion : Option Response) (slots : List Slot)
        (shared : Shared World)
        → LoopStep (slots, shared) ((post_at i generation completion slots).0, shared)
    elsewhere :
        (w : World) (slots : List Slot) (shared : Shared World)
        → LoopStep (slots, shared) (slots, record shared { world = w })

  -- any number of steps
  pub data Runs (s : List Slot × Shared World) : List Slot × Shared World → Type 0 where
    start : Runs s s
    step : {t u : List Slot × Shared World} → Runs s t → LoopStep t u → Runs s u

  pub Runs_trans : {s t u : List Slot × Shared World} → Runs s t → Runs t u → Runs s u
  Runs_trans r start = r
  Runs_trans r (step q st) = step (Runs_trans r q) st
