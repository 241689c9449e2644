-- ===== src/Server/Loop/Sending.antt =====
-- The state sending of src/http_server.c: slot_drive_send and slot_finish_send. The outer loop runs
-- on fuel.
use http_c.Prelude.{
  iterate, if◌then◌else◌, ℕ, ◌+◌, Bool, true, false, not, ◌&&◌, Option, ◌∷◌, length, take, drop,
  ltb, ◌==◌, if◌then◌else◌,
}
use http_c.Common.{ResultCode}
use http_c.Span.{CommonLib}
use http_c.Server.{Slot}
use http_c.Server.Receiving.{keep_leftover}
use http_c.Server.Loop.{
  Env, Shared, writes, call_now, slot_arm, arm_wanted, touch_if, slot_close, end_stream,
}
use http_c.Server.Loop.Answering.{handle_request, feed_slot}

module _ (lib : CommonLib) (env : Env) where
  open env use {World}

  -- what slot_finish_send does with the answer of the parser
  unfoldable pub follow_leftover : Slot → ResultCode → Shared World → Slot × Shared World
  unfolding handle_request
  follow_leftover slot ResultCode.ok shared = handle_request lib env slot shared
  follow_leftover slot result shared =
      if lib.is_error result
      then slot_close env slot shared
      else slot_arm env slot env.event_read shared

  -- the end of slot_finish_send: the bytes of later requests that are there already
  unfoldable pub serve_leftover : Slot → Shared World → Slot × Shared World
  unfolding feed_slot follow_leftover
  serve_leftover slot shared =
      if length slot.recv == 0
      then slot_arm env slot env.event_read shared
      else let (slot', result) = feed_slot lib slot in follow_leftover slot' result shared

  -- slot_finish_send
  unfoldable pub slot_finish_send : Slot → Shared World → Slot × Shared World
  unfolding serve_leftover
  slot_finish_send slot shared =
      if slot.client_wants_close
      then slot_close env slot shared
      else let (now, shared') = call_now env shared in
        serve_leftover (keep_leftover now slot) shared'

  -- the call of socket_write_nb: the slot, the result, and the shared state
  unfoldable pub write_slot : Slot → Shared World → Slot × ResultCode × Shared World
  unfolding touch_if
  write_slot slot shared =
      let rest = drop slot.send_offset slot.send in
      let (written, result, world) = env.socket_write_nb slot.sd rest shared.world in
      let shared' : Shared World = record shared {
        world = world;
        effects = writes slot.sd (take written rest) ∷ shared.effects;
      } in
      let (slot'', shared'') =
        touch_if env (not (written == 0)) (record slot { send_offset = slot.send_offset + written })
          shared' in
      (slot'', result, shared'')

  -- what slot_drive_send does with the answer of socket_write_nb: whether the outer loop goes on
  unfoldable pub follow_write : Slot → ResultCode → Shared World → Bool × (Slot × Shared World)
  follow_write slot ResultCode.ok shared = (true, (slot, shared))
  follow_write slot ResultCode.try_again shared = (false, arm_wanted env slot shared)
  follow_write slot _ shared = (false, slot_close env slot shared)

  -- the inner loop of slot_drive_send, whose body leaves it on every branch
  unfoldable pub write_rest : Slot → Shared World → Bool × (Slot × Shared World)
  unfolding write_slot follow_write
  write_rest slot shared =
      if ltb slot.send_offset (length slot.send)
      then (let (slot', result, shared') = write_slot slot shared in
          follow_write slot' result shared')
      else (true, (slot, shared))

  -- the rest of the body of slot_drive_send's outer loop: whether there is another chunk to send
  unfoldable pub pull_chunk : Slot → Shared World → Bool × (Slot × Shared World)
  pull_chunk slot shared =
      if slot.stream_active && not slot.stream_eof
      then (let (chunk, world) =
            env.stream_provider slot.stream_provider slot.stream_ctx slot.send_buffer_size
              shared.world in
          let shared' : Shared World = record shared { world = world } in
          if not (length chunk == 0)
          then (true, (record slot { send = chunk; send_offset = 0 }, shared'))
          else (false, end_stream env (record slot { stream_eof = true }) shared'))
      else (false, (slot, shared))

  -- what the outer loop does after the provider's call
  unfoldable pub follow_chunk : Bool × (Slot × Shared World) → Bool × (Slot × Shared World)
  unfolding slot_finish_send
  follow_chunk (true, next) = (true, next)
  follow_chunk (false, (slot, shared)) = (false, slot_finish_send slot shared)

  -- what the outer loop does after the inner one
  unfoldable pub follow_rest : Bool × (Slot × Shared World) → Bool × (Slot × Shared World)
  unfolding pull_chunk follow_chunk
  follow_rest (false, result) = (false, result)
  follow_rest (true, (slot, shared)) = follow_chunk (pull_chunk slot shared)

  -- the body of the outer loop of slot_drive_send
  unfoldable pub send_round : Slot × Shared World → Bool × (Slot × Shared World)
  unfolding write_rest follow_rest
  send_round (slot, shared) = follow_rest (write_rest slot shared)

  -- slot_drive_send
  unfoldable pub slot_drive_send : ℕ → Slot → Shared World → Option (Slot × Shared World)
  unfolding send_round
  slot_drive_send fuel slot shared = iterate send_round fuel (slot, shared)
