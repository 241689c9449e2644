-- ===== src/Server/Loop/Driving.antt =====
-- How the event loop of src/http_server.c advances one slot on an event of its socket: the states
-- handshaking, receiving, sending and pending, and on_connection_io. The two loops run on fuel.
use http_c.Prelude.{
  iterate, if◌then◌else◌, ℕ, ◌-◌, Bool, true, false, not, Option, some, ◌++◌, length, leb, ◌==◌,
  if◌then◌else◌,
}
use http_c.Common.{ResultCode, ResultCode}
use http_c.Codes.{code_413, reason_413}
use http_c.Span.{CommonLib}
use http_c.RequestParser.{init}
use http_c.Server.{Slot, SlotState}
use http_c.Server.Receiving.{Read, got, blocked, ended, slot_probe_pending}
use http_c.Server.Loop.{Env, Shared, call_now, slot_arm, arm_wanted, touch_if, slot_close}
use http_c.Server.Loop.Answering.{send_status, handle_request, feed_slot}
use http_c.Server.Loop.Sending.{slot_drive_send}

module _ (lib : CommonLib) (env : Env) where
  open env use {World}

  -- what slot_drive_handshake does with the result of socket_handshake_nb
  unfoldable pub follow_handshake : Slot → ResultCode → Shared World → Slot × Shared World
  unfolding arm_wanted
  follow_handshake slot ResultCode.ok shared =
      let (now, shared') = call_now env shared in
      slot_arm env
        (record slot { state = SlotState.receiving; last_activity_ms = now; parser = init })
        env.event_read shared'
  follow_handshake slot ResultCode.try_again shared = arm_wanted env slot shared
  follow_handshake slot _ shared = slot_close env slot shared

  -- slot_drive_handshake
  unfoldable pub slot_drive_handshake : Slot → Shared World → Slot × Shared World
  unfolding follow_handshake
  slot_drive_handshake slot shared =
      let (result, world) = env.socket_handshake_nb slot.sd shared.world in
      follow_handshake slot result (record shared { world = world })

  -- slot_drive_receive where the buffer is full
  unfoldable pub refuse_large : Slot → Shared World → Slot × Shared World
  refuse_large slot shared =
      send_status lib env (record slot { client_wants_close = true }) code_413 reason_413 shared

  -- slot_drive_receive where the socket has nothing to read
  unfoldable pub arm_receive : Slot → Shared World → Slot × Shared World
  arm_receive slot shared =
      let (_, want_write) = env.socket_get_io_want slot.sd shared.world in
      slot_arm env slot (if want_write then env.event_write else env.event_read) shared

  -- what slot_drive_receive does with the answer of the parser: whether it goes on
  unfoldable pub follow_feed : Slot → ResultCode → Shared World → Bool × (Slot × Shared World)
  unfolding handle_request
  follow_feed slot ResultCode.ok shared = (false, handle_request lib env slot shared)
  follow_feed slot ResultCode.try_again shared = (true, (slot, shared))
  follow_feed slot _ shared = (false, slot_close env slot shared)

  -- what slot_drive_receive does with the answer of the socket
  unfoldable pub follow_read : Slot → Read → Shared World → Bool × (Slot × Shared World)
  unfolding touch_if feed_slot follow_feed arm_receive
  follow_read slot blocked shared = (false, arm_receive slot shared)
  follow_read slot ended shared = (false, slot_close env slot shared)
  follow_read slot (got bytes) shared =
      let (slot', shared') =
        touch_if env (not (length bytes == 0)) (record slot { recv = slot.recv ++ bytes }) shared in
      let (slot'', result) = feed_slot lib slot' in follow_feed slot'' result shared'

  -- the body of the loop of slot_drive_receive
  unfoldable pub receive_round : Slot × Shared World → Bool × (Slot × Shared World)
  unfolding refuse_large follow_read
  receive_round (slot, shared) =
      if leb slot.recv_buffer_size (length slot.recv)
      then (false, refuse_large slot shared)
      else let (answer, world) =
          env.socket_read_nb slot.sd (slot.recv_buffer_size - length slot.recv) shared.world in
        follow_read slot answer (record shared { world = world })

  -- slot_drive_receive
  unfoldable pub slot_drive_receive : ℕ → Slot → Shared World → Option (Slot × Shared World)
  unfolding receive_round
  slot_drive_receive fuel slot shared = iterate receive_round fuel (slot, shared)

  -- what slot_probe_pending leaves to slot_close
  unfoldable pub follow_probe : Slot × Bool → Shared World → Slot × Shared World
  follow_probe (slot, true) shared = slot_close env slot shared
  follow_probe (slot, false) shared = (slot, shared)

  -- slot_probe_pending
  unfoldable pub probe_pending : Slot → Shared World → Slot × Shared World
  unfolding slot_probe_pending follow_probe
  probe_pending slot shared =
      if leb slot.recv_buffer_size (length slot.recv)
      then (slot, shared)
      else let (answer, world) =
          env.socket_read_nb slot.sd (slot.recv_buffer_size - length slot.recv) shared.world in
        follow_probe (slot_probe_pending (λ _. answer) slot) (record shared { world = world })

  -- slot_advance in that state, with fuel for its loops
  unfoldable pub advance_in : SlotState → ℕ → Slot → Shared World → Option (Slot × Shared World)
  unfolding slot_drive_handshake slot_drive_receive probe_pending slot_drive_send
  advance_in SlotState.handshaking fuel slot shared = some (slot_drive_handshake slot shared)
  advance_in SlotState.receiving fuel slot shared = slot_drive_receive fuel slot shared
  advance_in SlotState.pending fuel slot shared = some (probe_pending slot shared)
  advance_in SlotState.sending fuel slot shared = slot_drive_send lib env fuel slot shared
  advance_in _ fuel slot shared = some (slot_close env slot shared)

  -- slot_advance
  unfoldable pub slot_advance : ℕ → Slot → Shared World → Option (Slot × Shared World)
  unfolding advance_in
  slot_advance fuel slot shared = advance_in slot.state fuel slot shared

  -- on_connection_io; the first argument is whether the events contain event_loop_event_error
  unfoldable pub on_connection_io : Bool → ℕ → Slot → Shared World → Option (Slot × Shared World)
  unfolding slot_advance
  on_connection_io true fuel slot shared = some (slot_close env slot shared)
  on_connection_io false fuel slot shared = slot_advance fuel slot shared
