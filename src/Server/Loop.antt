-- ===== src/Server/Loop.antt =====
-- The event loop of src/http_server.c, on one slot: the calls that it makes outside, slot_arm,
-- stream_finalize, slot_close and listener_rearm.
pub mod Answering
pub mod Sending
pub mod Driving
pub mod Table
pub mod Steps
pub mod Termination
pub mod Sweeps
pub mod Finalizers
use http_c.Prelude.{
  ℕ, Bool, true, false, not, ◌&&◌, Option, none, some, List, [], ◌∷◌, ◌==◌, if◌then◌else◌,
}
use http_c.Common.{Bytes, ResultCode, ok, try_again}
use http_c.Request.{Request}
use http_c.Response.{Response}
use http_c.Server.{Slot, released}
use http_c.Server.Routes.{Route}
use http_c.Server.Receiving.{Read}
use http_c.Server.Responding.{stream_finalize}

-- http_server_state_t
pub data ServerState : Type 0 where
  initialized running stopping stopped : ServerState

-- http_handler_outcome_t
pub data HandlerOutcome : Type 0 where
  respond defer close : HandlerOutcome

abbrev pub is_ok : ResultCode → Bool
is_ok ResultCode.ok = true
is_ok _ = false

abbrev pub is_try_again : ResultCode → Bool
is_try_again ResultCode.try_again = true
is_try_again _ = false

abbrev pub is_running : ServerState → Bool
is_running ServerState.running = true
is_running _ = false

-- What the loop calls outside this repository and in the application, as functions of the state of
-- the world, and what does not change while it runs. A socket is named by its descriptor.
pub record Env : Type 1 where
  pub World : Type 0
  pub Pattern : Type 0
  pub now_ms : World → ℕ × World
  -- the state is written by other threads too
  pub server_get_state : World → ServerState × World
  -- for that many bytes
  pub socket_read_nb : Option ℕ → ℕ → World → Read × World
  -- the number of bytes taken and the result
  pub socket_write_nb : Option ℕ → Bytes → World → ℕ × ResultCode × World
  pub socket_handshake_nb : Option ℕ → World → ResultCode × World
  -- whether the socket waits to read, and to write
  pub socket_get_io_want : Option ℕ → World → Bool × Bool
  pub socket_deinit : Option ℕ → World → World
  -- the result, and the descriptor of the accepted socket
  pub socket_accept_nb : World → ResultCode × Option ℕ × World
  pub event_loop_register : ℕ → ℕ → World → ResultCode × World
  pub event_loop_modify : ℕ → ℕ → World → ResultCode × World
  pub event_loop_unregister : ℕ → World → World
  -- a function pointer and its context; the bytes put into a buffer of that size
  pub stream_provider : Option ℕ → Option ℕ → ℕ → World → Bytes × World
  pub stream_finalizer : ℕ → Option ℕ → World → World
  -- a handler and its context, on the request, the captures and the prepared response
  pub handler :
      ℕ → Option ℕ → Request → List Bytes → Response → World → HandlerOutcome × Response × World
  -- the masks event_loop_event_read, event_loop_event_write, and both
  pub event_read : ℕ
  pub event_write : ℕ
  pub event_both : ℕ
  pub listen_sd : Option ℕ
  pub routes : List (Route Pattern)
  pub match_path : Pattern → Bytes → Option (List Bytes)
  pub pending_timeout_ms : ℕ
  pub idle_timeout_ms : ℕ

-- A call that the loop makes, or the start of a streamed body with its finalizer.
pub data Effect : Type 0 where
  registers modifies : ℕ → ℕ → Effect
  unregisters : ℕ → Effect
  deinits : Option ℕ → Effect
  writes : Option ℕ → Bytes → Effect
  finalizes : ℕ → Option ℕ → Effect
  starts_stream : ℕ → Option ℕ → Effect

-- What the slots share: `listen_registered`, the world, and the calls made, the newest first.
pub record Shared (World : Type 0) : Type 0 where
  pub listen_registered : Bool
  pub world : World
  pub effects : List Effect

module _ (env : Env) where
  open env use {World}

  -- now_ms
  unfoldable pub call_now : Shared World → ℕ × Shared World
  call_now shared =
      let (now, world) = env.now_ms shared.world in (now, record shared { world = world })

  -- event_loop_register and event_loop_modify
  unfoldable pub call_register : ℕ → ℕ → Shared World → ResultCode × Shared World
  call_register fd events shared =
      let (result, world) = env.event_loop_register fd events shared.world in
      (result, record shared { world = world; effects = registers fd events ∷ shared.effects })

  unfoldable pub call_modify : ℕ → ℕ → Shared World → ResultCode × Shared World
  call_modify fd events shared =
      let (result, world) = env.event_loop_modify fd events shared.world in
      (result, record shared { world = world; effects = modifies fd events ∷ shared.effects })

  -- the slot after one of these
  abbrev pub armed : Slot → ℕ → ResultCode × Shared World → Slot × Shared World
  armed slot events (result, shared) =
      ((if is_ok result then record slot { registered_events = events } else slot), shared)

  -- slot_arm
  unfoldable pub slot_arm : Slot → ℕ → Shared World → Slot × Shared World
  unfolding call_register call_modify
  slot_arm slot events shared = elim slot.sd [
    | none ↦ (slot, shared)
    | some fd ↦
        if slot.registered_events == 0
        then armed slot events (call_register fd events shared)
        else if not (slot.registered_events == events)
        then armed slot events (call_modify fd events shared)
        else (slot, shared)
  ]

  -- want_to_events of socket_get_io_want; a descriptor's wish is read, written or both
  unfoldable pub want_to_events : Bool × Bool → ℕ
  want_to_events (want_read, want_write) =
      if want_read
      then (if want_write then env.event_both else env.event_read)
      else if want_write
      then env.event_write
      else env.event_read

  -- slot_arm on want_to_events of what the socket waits for
  unfoldable pub arm_wanted : Slot → Shared World → Slot × Shared World
  unfolding want_to_events
  arm_wanted slot shared =
      slot_arm slot (want_to_events (env.socket_get_io_want slot.sd shared.world)) shared

  -- now_ms where the test holds: the slot is marked as active
  unfoldable pub touch_if : Bool → Slot → Shared World → Slot × Shared World
  touch_if false slot shared = (slot, shared)
  touch_if true slot shared =
      let (now, shared') = call_now shared in (record slot { last_activity_ms = now }, shared')

  -- stream_finalize, with the call of the finalizer
  unfoldable pub end_stream : Slot → Shared World → Slot × Shared World
  unfolding stream_finalize
  end_stream slot shared =
      let (slot', call) = stream_finalize slot in
      elim call [
        | none ↦ (slot', shared)
        | some (finalizer, ctx) ↦ (
          slot',
          record shared {
            world = env.stream_finalizer finalizer ctx shared.world;
            effects = finalizes finalizer ctx ∷ shared.effects;
          },
        )
      ]

  -- the part of slot_close about the event loop
  unfoldable pub leave_loop : Slot → Shared World → Slot × Shared World
  leave_loop slot shared = elim slot.sd [
    | none ↦ (slot, shared)
    | some fd ↦
        if not (slot.registered_events == 0)
        then (
          record slot { registered_events = 0 },
          record shared {
            world = env.event_loop_unregister fd shared.world;
            effects = unregisters fd ∷ shared.effects;
          },
        )
        else (slot, shared)
  ]

  -- socket_deinit
  unfoldable pub call_deinit : Option ℕ → Shared World → Shared World
  call_deinit sd shared = record shared {
    world = env.socket_deinit sd shared.world;
    effects = deinits sd ∷ shared.effects;
  }

  -- listener_rearm, for a server that is there
  unfoldable pub listener_rearm : Shared World → Shared World
  unfolding call_register
  listener_rearm shared =
      if shared.listen_registered
      then shared
      else let (state, world) = env.server_get_state shared.world in
        let shared' : Shared World = record shared { world = world } in
        if not (is_running state) then shared' else elim env.listen_sd [
          | none ↦ shared'
          | some listen_sd ↦
              let (result, shared'') = call_register listen_sd env.event_read shared' in
              if is_ok result then record shared'' { listen_registered = true } else shared''
        ]

  -- slot_close, release_slot included
  unfoldable pub slot_close : Slot → Shared World → Slot × Shared World
  unfolding end_stream leave_loop call_deinit listener_rearm
  slot_close slot shared =
      let (slot1, shared1) = end_stream slot shared in
      let (slot2, shared2) = leave_loop slot1 shared1 in
      (released slot2, listener_rearm (call_deinit slot2.sd shared2))
