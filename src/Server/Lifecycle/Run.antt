-- ===== src/Server/Lifecycle/Run.antt =====
-- http_server_run and http_server_stop of src/http_server.c.
use http_c.Prelude.{
  ℕ, ◌||◌, Bool, true, false, not, Option, none, some, List, [], ◌∷◌, if◌then◌else◌, iterate,
}
use http_c.Common.{ResultCode, ok, error}
use http_c.Span.{CommonLib}
use http_c.Server.{Slot}
use http_c.Server.Timers.{next_tick_ms}
use http_c.Server.Loop.{
  Env, Shared, ServerState, running, stopping, stopped, is_ok, is_running, call_now,
}
use http_c.Server.Loop.Table.{
  flush_pending_responses, sweep_pending_deadlines, sweep_idle_connections, tear_down,
}
use http_c.Server.Lifecycle.{Change, creates, destroys, local_endpoint, event_loop}

-- The results of the calls with which http_server_run begins: http_endpoint_init,
-- socket_set_nonblocking, event_loop_init, and event_loop_register for the listening socket.
pub record Answers : Type 0 where
  pub endpoint_init : ResultCode
  pub set_nonblocking : ResultCode
  pub loop_init : ResultCode
  pub register : ResultCode

abbrev pub is_stopped : ServerState → Bool
is_stopped ServerState.stopped = true
is_stopped _ = false

abbrev pub is_initialized : ServerState → Bool
is_initialized ServerState.initialized = true
is_initialized _ = false

-- http_server_stop, for a server that is not NULL and the state in which its wait ended: the
-- state, and whether event_loop_stop is called
unfoldable pub http_server_stop : ServerState → ServerState × Bool × ResultCode
http_server_stop state = if is_stopped state then (state, false, ok) else (stopping, true, ok)

-- A state of the table, of what the slots share, and the result of the loop so far.
abbrev pub Serving : Type 0 → Type 0
Serving World = ResultCode × (List Slot × Shared World)

module _ (lib : CommonLib) where
  -- http_server_run up to the registration of the listening socket, for the state in which it
  -- finds the server: whether it goes on, its result where it does not, and what it created and
  -- destroyed
  unfoldable pub set_up : ServerState → Answers → Bool × ResultCode × List Change
  set_up state answers =
      if is_running state || lib.is_error answers.endpoint_init
      then (false, error, [])
      else if not (is_ok answers.set_nonblocking)
      then (false, error, creates local_endpoint ∷ destroys local_endpoint ∷ [])
      else if lib.is_error answers.loop_init
      then (false, error, creates local_endpoint ∷ destroys local_endpoint ∷ [])
      else if not (is_ok answers.register)
      then (
        false,
        error,
        creates local_endpoint
            ∷ creates event_loop
            ∷ destroys event_loop
            ∷ destroys local_endpoint
            ∷ [],
      )
      else (true, ok, creates local_endpoint ∷ creates event_loop ∷ [])

-- `run_once` is event_loop_run_once: with a timeout, it calls the callbacks of the sockets that
-- are ready. `set_state` is server_set_state, with the callback of the application.
module _ (lib : CommonLib) (env : Env)
    (run_once : Option ℕ → List Slot × Shared env.World → Serving env.World)
    (set_state : ServerState → env.World → env.World) where
  open env use {World}

  -- the clock was read where there is something to wait for
  abbrev pub follow_tick : Option ℕ → Shared World → Shared World → Option ℕ × Shared World
  follow_tick none before after = (none, before)
  follow_tick (some ms) before after = (some ms, after)

  -- next_tick_ms, with its call of now_ms
  unfoldable pub call_next_tick : List Slot × Shared World → Option ℕ × Shared World
  call_next_tick (slots, shared) =
      let (now, shared') = call_now env shared in
      follow_tick (next_tick_ms shared.listen_registered env.idle_timeout_ms now slots) shared
        shared'

  -- what follows event_loop_run_once in an iteration
  unfoldable pub after_events : List Slot × Shared World → List Slot × Shared World
  after_events (slots, shared) =
      let (slots1, shared1) = flush_pending_responses lib env slots shared in
      let (slots2, shared2) = sweep_pending_deadlines lib env slots1 shared1 in
      sweep_idle_connections lib env slots2 shared2

  -- what an iteration does with the answer of event_loop_run_once
  unfoldable pub follow_events : Serving World → Bool × Serving World
  unfolding after_events
  follow_events (result, s) =
      if lib.is_error result then (false, (result, s)) else (true, (result, after_events s))

  -- an iteration of the loop of http_server_run
  unfoldable pub serve_round : Serving World → Bool × Serving World
  unfolding call_next_tick follow_events
  serve_round (result, (slots, shared)) =
      let (state, world) = env.server_get_state shared.world in
      let shared' : Shared World = record shared { world = world } in
      let (timeout, shared'') = call_next_tick (slots, shared') in
      if is_running state
      then follow_events (run_once timeout (slots, shared''))
      else (false, (result, (slots, shared')))

  -- the end of http_server_run
  unfoldable pub finish : ℕ → Serving World → ResultCode × List Change × (List Slot × Shared World)
  finish listen_sd (result, (slots, shared)) =
      let (slots', shared') = tear_down lib env listen_sd slots shared in
      (
        result,
        destroys event_loop ∷ destroys local_endpoint ∷ [],
        (slots', record shared' { world = set_state stopped shared'.world }),
      )

  unfoldable pub finish_loop :
      ℕ → Option (Serving World) → Option (ResultCode × List Change × (List Slot × Shared World))
  unfolding finish
  finish_loop listen_sd none = none
  finish_loop listen_sd (some s) = some (finish listen_sd s)

  -- http_server_run once the listening socket is registered, with fuel for its iterations
  unfoldable pub serve :
      ℕ
      → ℕ
      → List Slot
      → Shared World
      → Option (ResultCode × List Change × (List Slot × Shared World))
  unfolding serve_round finish_loop
  serve fuel listen_sd slots shared =
      let (state, world) = env.server_get_state shared.world in
      let world' = if is_initialized state then set_state running world else world in
      let begun : Shared World = record shared { listen_registered = true; world = world' } in
      finish_loop listen_sd (iterate serve_round fuel (ok, (slots, begun)))
