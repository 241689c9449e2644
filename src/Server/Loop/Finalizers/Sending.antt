-- ===== src/Server/Loop/Finalizers/Sending.antt =====
-- The state sending keeps the account of the finalizers.
use http_c.Prelude.{
  ◌∙◌, take, drop, if◌then◌else◌, ◌+◌, ◌≡◌, refl, Bool, true, false, ◌∷◌, length, ltb, not, ◌==◌,
  ◌&&◌, arith,
}
use http_c.Common.{ResultCode}
use http_c.Span.{CommonLib}
use http_c.Server.{Slot}
use http_c.Server.Receiving.{keep_leftover}
use http_c.Server.Loop.{
  Env, Shared, writes, end_stream, slot_arm, arm_wanted, want_to_events, touch_if, slot_close,
  call_now,
}
use http_c.Server.Responding.{stream_finalize}
use http_c.Server.Loop.Answering.{feed_slot}
use http_c.Server.Loop.Sending.{
  follow_leftover, serve_leftover, slot_finish_send, write_slot, follow_write, write_rest,
  pull_chunk, follow_chunk, follow_rest, send_round,
}
use http_c.Server.Loop.Finalizers.{
  Chosen, starts, finals, owed, IsSound, IsReady, plain, KeepsTo, slot_arm-KeepsTo,
  end_stream-KeepsTo, slot_close-KeepsTo, join, from, either,
}
use http_c.Server.Loop.Finalizers.Answers.{handle_request-KeepsTo}

module _ (chosen : Chosen) (lib : CommonLib) (env : Env) where
  open env use {World}

  pub arm_wanted-KeepsTo :
      (slot : Slot) (shared : Shared World)
      → IsSound slot
      → KeepsTo chosen env slot shared (arm_wanted env slot shared)
  unfolding arm_wanted
  arm_wanted-KeepsTo slot shared h =
      slot_arm-KeepsTo chosen env slot
        (want_to_events env (env.socket_get_io_want slot.sd shared.world)) shared h

  follow_leftover-KeepsTo :
      (slot : Slot) (result : ResultCode) (shared : Shared World)
      → IsReady slot
      → KeepsTo chosen env slot shared (follow_leftover lib env slot result shared)
  unfolding follow_leftover
  follow_leftover-KeepsTo slot ResultCode.ok shared h =
      handle_request-KeepsTo chosen lib env slot shared h
  follow_leftover-KeepsTo slot result shared h =
      either chosen env slot shared (lib.is_error result) (slot_close env slot shared)
        (slot_arm env slot env.event_read shared) (slot_close-KeepsTo chosen env slot shared).0
        (slot_arm-KeepsTo chosen env slot env.event_read shared (plain h.0))

  serve_leftover-KeepsTo :
      (slot : Slot) (shared : Shared World)
      → IsReady slot
      → KeepsTo chosen env slot shared (serve_leftover lib env slot shared)
  unfolding serve_leftover feed_slot owed
  serve_leftover-KeepsTo slot shared h =
      let fed = feed_slot lib slot in
      let result = follow_leftover lib env fed.0 fed.1 shared in
      either chosen env slot shared (length slot.recv == 0)
        (slot_arm env slot env.event_read shared) result
        (slot_arm-KeepsTo chosen env slot env.event_read shared (plain h.0))
        (from chosen env slot shared fed.0 shared result refl refl refl
          (follow_leftover-KeepsTo fed.0 fed.1 shared h))

  slot_finish_send-KeepsTo :
      (slot : Slot) (shared : Shared World)
      → IsReady slot
      → KeepsTo chosen env slot shared (slot_finish_send lib env slot shared)
  unfolding slot_finish_send call_now keep_leftover owed
  slot_finish_send-KeepsTo slot shared h =
      let (now, shared') = call_now env shared in
      let slot' = keep_leftover now slot in
      let result = serve_leftover lib env slot' shared' in
      either chosen env slot shared slot.client_wants_close (slot_close env slot shared) result
        (slot_close-KeepsTo chosen env slot shared).0
        (from chosen env slot shared slot' shared' result refl refl refl
          (serve_leftover-KeepsTo slot' shared' h))

  pub touch_if-KeepsTo :
      (test : Bool) (slot : Slot) (shared : Shared World)
      → IsSound slot
      → KeepsTo chosen env slot shared (touch_if env test slot shared)
  unfolding touch_if call_now owed
  touch_if-KeepsTo true slot shared h = record {
    sound = record { sending = h.sending; open_end = h.open_end; used = h.used };
    balance = refl;
  }
  touch_if-KeepsTo false slot shared h = record { sound = h; balance = refl }

  write_slot-KeepsTo :
      (slot : Slot) (shared : Shared World)
      → IsSound slot
      → let (slot', _, shared') = write_slot lib env slot shared in
        KeepsTo chosen env slot shared (slot', shared')
  unfolding write_slot owed starts finals
  write_slot-KeepsTo slot shared h =
      let rest = drop slot.send_offset slot.send in
      let (written, result, world) = env.socket_write_nb slot.sd rest shared.world in
      let slot' = record slot { send_offset = slot.send_offset + written } in
      let shared' : Shared World = record shared {
        world = world;
        effects = writes slot.sd (take written rest) ∷ shared.effects;
      } in
      let touched = touch_if env (not (written == 0)) slot' shared' in
      from chosen env slot shared slot' shared' touched refl refl refl (
        touch_if-KeepsTo (not (written == 0)) slot' shared'
          (record { sending = h.sending; open_end = h.open_end; used = h.used }))

  -- nothing happens
  pub stays :
      (slot : Slot) (shared : Shared World)
      → IsSound slot
      → KeepsTo chosen env slot shared (slot, shared)
  stays slot shared h = record { sound = h; balance = refl }

  -- `KeepsTo` for a part of a round of slot_drive_send; the slot is in use where it goes on
  abbrev pub Sends : Slot → Shared World → Bool × (Slot × Shared World) → Type 0
  Sends slot shared result =
      KeepsTo chosen env slot shared result.1 × (result.0 ≡ true → result.1.0.in_use ≡ true)

  either-Sends :
      (slot : Slot) (shared : Shared World) (test : Bool) (a b : Bool × (Slot × Shared World))
      → Sends slot shared a
      → Sends slot shared b
      → Sends slot shared (if test then a else b)
  either-Sends slot shared true a b k l = k
  either-Sends slot shared false a b k l = l

  follow_write-Sends :
      (slot : Slot) (result : ResultCode) (shared : Shared World)
      → IsSound slot
      → slot.in_use ≡ true
      → Sends slot shared (follow_write lib env slot result shared)
  unfolding follow_write
  follow_write-Sends slot ResultCode.ok shared h used = (stays slot shared h, λ _. used)
  follow_write-Sends slot ResultCode.try_again shared h used =
      (arm_wanted-KeepsTo slot shared h, λ e. absurd (ground arith))
  follow_write-Sends slot _ shared h used =
      ((slot_close-KeepsTo chosen env slot shared).0, λ e. absurd (ground arith))

  touch_if-in_use :
      (test : Bool) (slot : Slot) (shared : Shared World)
      → (touch_if env test slot shared).0.in_use ≡ slot.in_use
  unfolding touch_if
  touch_if-in_use true slot shared = refl
  touch_if-in_use false slot shared = refl

  write_slot-in_use :
      (slot : Slot) (shared : Shared World)
      → (write_slot lib env slot shared).0.in_use ≡ slot.in_use
  unfolding write_slot
  write_slot-in_use slot shared =
      let rest = drop slot.send_offset slot.send in
      let (written, result, world) = env.socket_write_nb slot.sd rest shared.world in
      touch_if-in_use (not (written == 0))
        (record slot { send_offset = slot.send_offset + written })
        (record shared {
          world = world;
          effects = writes slot.sd (take written rest) ∷ shared.effects;
        })

  write_rest-Sends :
      (slot : Slot) (shared : Shared World)
      → IsSound slot
      → slot.in_use ≡ true
      → Sends slot shared (write_rest lib env slot shared)
  unfolding write_rest write_slot
  write_rest-Sends slot shared h used =
      let (slot', result, shared') = write_slot lib env slot shared in
      let k = write_slot-KeepsTo slot shared h in
      let (l, on) =
        follow_write-Sends slot' result shared' k.sound (write_slot-in_use slot shared ∙ used) in
      let next = follow_write lib env slot' result shared' in
      either-Sends slot shared (ltb slot.send_offset (length slot.send)) next (true, (slot, shared))
        (join chosen env slot shared slot' shared' next.1 k l, on) (stays slot shared h, λ _. used)

  pull_chunk-Sends :
      (slot : Slot) (shared : Shared World)
      → IsSound slot
      → slot.in_use ≡ true
      → Sends slot shared (pull_chunk lib env slot shared)
  unfolding pull_chunk owed
  pull_chunk-Sends slot shared h used =
      let (chunk, world) =
        env.stream_provider slot.stream_provider slot.stream_ctx slot.send_buffer_size
          shared.world in
      let shared' : Shared World = record shared { world = world } in
      let slot' = record slot { stream_eof = true } in
      let next = record slot { send = chunk; send_offset = 0 } in
      let sound : IsSound next = record {
        sending = h.sending;
        open_end = h.open_end;
        used = h.used;
      } in
      let ended : Slot × Shared World = end_stream env slot' shared' in
      let k = (end_stream-KeepsTo chosen env slot' shared').0 in
      either-Sends slot shared (slot.stream_active && not slot.stream_eof)
        (if not (length chunk == 0) then (true, (next, shared')) else (false, ended))
        (false, (slot, shared))
        (either-Sends slot shared (not (length chunk == 0)) (true, (next, shared')) (false, ended)
          (record { sound = sound; balance = refl }, λ _. used)
          (
            from chosen env slot shared slot' shared' ended refl refl refl k,
            λ e. absurd (ground arith),
          ))
        (stays slot shared h, λ e. absurd (ground arith))

  -- the slot is ready for the next request where there is no further chunk
  pull_chunk-IsReady :
      (slot : Slot) (shared : Shared World)
      → IsSound slot
      → slot.in_use ≡ true
      → (pull_chunk lib env slot shared).0 ≡ false
      → IsReady (pull_chunk lib env slot shared).1.0
  unfolding pull_chunk end_stream stream_finalize
  pull_chunk-IsReady slot shared h used e = (ground arith, ground arith)

  follow_chunk-Sends :
      (next : Bool × (Slot × Shared World))
      → IsSound next.1.0
      → (next.0 ≡ true → next.1.0.in_use ≡ true)
      → (next.0 ≡ false → IsReady next.1.0)
      → Sends next.1.0 next.1.1 (follow_chunk lib env next)
  unfolding follow_chunk
  follow_chunk-Sends (true, (slot, shared)) h on over = (stays slot shared h, on)
  follow_chunk-Sends (false, (slot, shared)) h on over =
      (slot_finish_send-KeepsTo slot shared (over refl), λ e. absurd (ground arith))

  follow_rest-Sends :
      (rest : Bool × (Slot × Shared World))
      → IsSound rest.1.0
      → (rest.0 ≡ true → rest.1.0.in_use ≡ true)
      → Sends rest.1.0 rest.1.1 (follow_rest lib env rest)
  unfolding follow_rest
  follow_rest-Sends (false, (slot, shared)) h on = (stays slot shared h, λ e. absurd (ground arith))
  follow_rest-Sends (true, (slot, shared)) h on =
      let next = pull_chunk lib env slot shared in
      let (k, on') = pull_chunk-Sends slot shared h (on refl) in
      let (l, on'') =
        follow_chunk-Sends next k.sound on' (pull_chunk-IsReady slot shared h (on refl)) in
      (join chosen env slot shared next.1.0 next.1.1 (follow_chunk lib env next).1 k l, on'')

  pub send_round-Sends :
      (s : Slot × Shared World)
      → IsSound s.0
      → s.0.in_use ≡ true
      → Sends s.0 s.1 (send_round lib env s)
  unfolding send_round
  send_round-Sends (slot, shared) h used =
      let rest = write_rest lib env slot shared in
      let (k, on) = write_rest-Sends slot shared h used in
      let (l, on') = follow_rest-Sends rest k.sound on in
      (join chosen env slot shared rest.1.0 rest.1.1 (follow_rest lib env rest).1 k l, on')
