-- ===== src/Server/Loop/Table.antt =====
-- What the event loop of src/http_server.c does to the table of slots: the accept callback, the
-- rounds over all the slots after each iteration, and the tear-down at the end of http_server_run.
use http_c.Prelude.{
  ℕ, zero, suc, ◌+◌, ◌%◌, ◌^◌, Bool, true, false, ◌&&◌, ◌||◌, Option, none, some, List, [], ◌∷◌,
  leb, if◌then◌else◌,
}
use http_c.Codes.{code_503, reason_503, code_504, reason_504}
use http_c.Span.{CommonLib}
use http_c.Server.{
  Slot, SlotState, acquire_slot, released, slot_waits_on_peer, find_reclaimable_slot, later,
}
use http_c.Server.Deferral.{Claim, nothing, cancelled, answer, claim_response, claim_expired}
use http_c.Server.Loop.{
  Env, Shared, unregisters, is_running, is_try_again, call_now, slot_close, listener_rearm,
  end_stream, leave_loop, call_deinit,
}
use http_c.Server.Loop.Answering.{send_response, send_status}
use http_c.Server.Loop.Driving.{slot_drive_handshake}

module _ {World : Type 0} where
  -- a loop over all the slots
  unfoldable pub each_slot :
      (Slot → Shared World → Slot × Shared World)
      → List Slot
      → Shared World
      → List Slot × Shared World
  each_slot step [] shared = ([], shared)
  each_slot step (slot ∷ slots) shared =
      let (slot', shared') = step slot shared in
      let (slots', shared'') = each_slot step slots shared' in (slot' ∷ slots', shared'')

  -- on the slot of that index alone
  unfoldable pub at_slot :
      ℕ
      → (Slot → Shared World → Slot × Shared World)
      → List Slot
      → Shared World
      → List Slot × Shared World
  at_slot i step [] shared = ([], shared)
  at_slot zero step (slot ∷ slots) shared =
      let (slot', shared') = step slot shared in (slot' ∷ slots, shared')
  at_slot (suc i) step (slot ∷ slots) shared =
      let (slots', shared') = at_slot i step slots shared in (slot ∷ slots', shared')

module _ (lib : CommonLib) (env : Env) where
  open env use {World}

  -- what flush_pending_responses does with its claim on a slot
  unfoldable pub follow_claim : Slot → Claim → Shared World → Slot × Shared World
  follow_claim slot nothing shared = (slot, shared)
  follow_claim slot cancelled shared =
      send_status lib env (record slot { client_wants_close = true }) code_503 reason_503 shared
  follow_claim slot (answer response) shared = send_response lib env slot response shared

  -- the body of flush_pending_responses
  unfoldable pub flush_slot : Slot → Shared World → Slot × Shared World
  unfolding claim_response follow_claim
  flush_slot slot shared =
      let (slot', claim) = claim_response slot in follow_claim slot' claim shared

  -- flush_pending_responses
  unfoldable pub flush_pending_responses : List Slot → Shared World → List Slot × Shared World
  unfolding each_slot flush_slot
  flush_pending_responses slots shared = each_slot flush_slot slots shared

  -- the body of sweep_pending_deadlines
  unfoldable pub expire_slot : ℕ → Slot → Shared World → Slot × Shared World
  unfolding claim_expired
  expire_slot now slot shared =
      let (slot', expired) = claim_expired now slot in
      if expired
      then send_status lib env (record slot' { client_wants_close = true }) code_504 reason_504
          shared
      else (slot', shared)

  -- sweep_pending_deadlines
  unfoldable pub sweep_pending_deadlines : List Slot → Shared World → List Slot × Shared World
  unfolding each_slot expire_slot
  sweep_pending_deadlines slots shared =
      let (now, shared') = call_now env shared in each_slot (expire_slot now) slots shared'

  -- whether the loop of sweep_idle_connections closes a slot
  unfoldable pub is_timed_out : ℕ → Slot → Bool
  is_timed_out now slot =
      slot_waits_on_peer slot && leb (later slot.last_activity_ms env.idle_timeout_ms) now

  -- the body of that loop
  unfoldable pub time_out_slot : ℕ → Slot → Shared World → Slot × Shared World
  unfolding is_timed_out
  time_out_slot now slot shared =
      if is_timed_out now slot then slot_close env slot shared else (slot, shared)

  -- the rest of sweep_idle_connections: the slot that is closed to admit a client
  unfoldable pub close_found :
      Option (ℕ × Slot) → List Slot → Shared World → List Slot × Shared World
  unfolding at_slot
  close_found none slots shared = (slots, shared)
  close_found (some (i, _)) slots shared = at_slot i (slot_close env) slots shared

  -- sweep_idle_connections
  unfoldable pub sweep_idle_connections : List Slot → Shared World → List Slot × Shared World
  unfolding each_slot time_out_slot close_found
  sweep_idle_connections slots shared =
      let (now, shared') = call_now env shared in
      let (slots'', shared'') = each_slot (time_out_slot now) slots shared' in
      if shared''.listen_registered
      then (slots'', shared'')
      else close_found (find_reclaimable_slot now slots'') slots'' shared''

  -- release_slot, with listener_rearm
  unfoldable pub release_slot : Slot → Shared World → Slot × Shared World
  release_slot slot shared = (released slot, listener_rearm env shared)

  -- on_listen_readable from the call of socket_accept_nb on
  unfoldable pub accept_slot : Slot → Shared World → Slot × Shared World
  unfolding release_slot
  accept_slot slot shared =
      let (result, sd, world) = env.socket_accept_nb shared.world in
      let shared' : Shared World = record shared { world = world } in
      if is_try_again result || lib.is_error result
      then release_slot slot shared'
      else slot_drive_handshake lib env (record slot { sd = sd; state = SlotState.handshaking })
          shared'

  -- on_listen_readable on what acquire_slot answered, before and after it read the clock
  unfoldable pub follow_acquired :
      ℕ
      → Option (ℕ × List Slot)
      → List Slot
      → Shared World
      → Shared World
      → List Slot × Shared World
  unfolding at_slot accept_slot
  follow_acquired fd none slots before after = (
    slots,
    record before {
      listen_registered = false;
      world = env.event_loop_unregister fd before.world;
      effects = unregisters fd ∷ before.effects;
    },
  )
  follow_acquired fd (some (i, slots')) slots before after = at_slot i accept_slot slots' after

  -- on_listen_readable, for the descriptor on which the event occurred
  unfoldable pub on_listen_readable : ℕ → List Slot → Shared World → List Slot × Shared World
  unfolding follow_acquired
  on_listen_readable fd slots shared =
      let (state, world) = env.server_get_state shared.world in
      let before : Shared World = record shared { world = world } in
      if is_running state
      then (let (now, after) = call_now env before in
          follow_acquired fd (acquire_slot now slots) slots before after)
      else (slots, before)

  -- the loop of the tear-down; unlike release_slot it keeps the state
  unfoldable pub tear_down_slot : Slot → Shared World → Slot × Shared World
  tear_down_slot slot shared =
      if slot.in_use
      then (let (slot1, shared1) = end_stream env slot shared in
          let (slot2, shared2) = leave_loop env slot1 shared1 in
          (
            record slot2 {
              pending_ready = false;
              pending_cancelled = false;
              generation = (slot2.generation + 1) % 2 ^ 32;
              in_use = false;
            },
            call_deinit env slot2.sd shared2,
          ))
      else (slot, shared)

  -- the tear-down of http_server_run, up to event_loop_deinit
  unfoldable pub tear_down : ℕ → List Slot → Shared World → List Slot × Shared World
  unfolding each_slot tear_down_slot
  tear_down listen_sd slots shared =
      let (slots', shared') = each_slot tear_down_slot slots shared in
      if shared'.listen_registered
      then (
        slots',
        record shared' {
          listen_registered = false;
          world = env.event_loop_unregister listen_sd shared'.world;
          effects = unregisters listen_sd ∷ shared'.effects;
        },
      )
      else (slots', shared')
