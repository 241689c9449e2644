-- ===== src/Server/Loop/Finalizers/Receiving.antt =====
-- The states handshaking and receiving keep the account of the finalizers.
use http_c.Prelude.{
  ℕ, ◌≡◌, refl, Bool, true, false, some, ◌++◌, length, leb, not, ◌==◌, ◌-◌, arith, iterate-ends,
  if◌then◌else◌,
}
use http_c.Common.{ResultCode}
use http_c.Codes.{code_413, reason_413}
use http_c.Span.{CommonLib}
use http_c.RequestParser.{init}
use http_c.Server.{Slot, SlotState}
use http_c.Server.Responding.{framed_response}
use http_c.Server.Receiving.{Read, got, blocked, ended}
use http_c.Server.Loop.{Env, Shared, slot_arm, touch_if, call_now}
use http_c.Server.Loop.Answering.{feed_slot, send_status, send_response}
use http_c.Server.Loop.Driving.{
  follow_handshake, refuse_large, arm_receive, follow_feed, follow_read, receive_round,
  slot_drive_receive,
}
use http_c.Server.Loop.Finalizers.{
  Chosen, owed, plain, IsReady, KeepsTo, slot_arm-KeepsTo, slot_close-KeepsTo, join, from,
}
use http_c.Server.Loop.Finalizers.Answers.{send_response-KeepsTo, handle_request-KeepsTo}
use http_c.Server.Loop.Finalizers.Sending.{arm_wanted-KeepsTo, touch_if-KeepsTo, stays}

module _ (chosen : Chosen) (lib : CommonLib) (env : Env) where
  open env use {World}

  pub follow_handshake-KeepsTo :
      (slot : Slot) (result : ResultCode) (shared : Shared World)
      → IsReady slot
      → KeepsTo chosen env slot shared (follow_handshake lib env slot result shared)
  unfolding follow_handshake call_now owed
  follow_handshake-KeepsTo slot ResultCode.ok shared h =
      let (now, shared') = call_now env shared in
      let slot' = record slot {
        state = SlotState.receiving;
        last_activity_ms = now;
        parser = init;
      } in
      from chosen env slot shared slot' shared' (slot_arm env slot' env.event_read shared') refl
        refl refl (slot_arm-KeepsTo chosen env slot' env.event_read shared' (plain h.0))
  follow_handshake-KeepsTo slot ResultCode.try_again shared h =
      arm_wanted-KeepsTo chosen lib env slot shared (plain h.0)
  follow_handshake-KeepsTo slot _ shared h = (slot_close-KeepsTo chosen env slot shared).0

  refuse_large-KeepsTo :
      (slot : Slot) (shared : Shared World)
      → IsReady slot
      → KeepsTo chosen env slot shared (refuse_large lib env slot shared)
  unfolding refuse_large send_status owed
  refuse_large-KeepsTo slot shared h =
      let slot' = record slot { client_wants_close = true } in
      let response = framed_response lib slot.default_headers code_413 reason_413 in
      from chosen env slot shared slot' shared (send_response lib env slot' response shared) refl
        refl refl (send_response-KeepsTo chosen lib env slot' response shared h)

  -- `KeepsTo` for a round of slot_drive_receive; the slot is ready where it goes on
  abbrev Receives : Slot → Shared World → Bool × (Slot × Shared World) → Type 0
  Receives slot shared result =
      KeepsTo chosen env slot shared result.1 × (result.0 ≡ true → IsReady result.1.0)

  either_receive :
      (slot : Slot) (shared : Shared World) (test : Bool) (a b : Bool × (Slot × Shared World))
      → Receives slot shared a
      → Receives slot shared b
      → Receives slot shared (if test then a else b)
  either_receive slot shared true a b k l = k
  either_receive slot shared false a b k l = l

  follow_feed-KeepsTo :
      (slot : Slot) (result : ResultCode) (shared : Shared World)
      → IsReady slot
      → Receives slot shared (follow_feed lib env slot result shared)
  unfolding follow_feed
  follow_feed-KeepsTo slot ResultCode.ok shared h =
      (handle_request-KeepsTo chosen lib env slot shared h, λ e. absurd (ground arith))
  follow_feed-KeepsTo slot ResultCode.try_again shared h =
      (stays chosen lib env slot shared (plain h.0), λ _. h)
  follow_feed-KeepsTo slot _ shared h =
      ((slot_close-KeepsTo chosen env slot shared).0, λ e. absurd (ground arith))

  touch_if-IsReady :
      (test : Bool) (slot : Slot) (shared : Shared World)
      → IsReady slot
      → IsReady (touch_if env test slot shared).0
  unfolding touch_if
  touch_if-IsReady true slot shared h = h
  touch_if-IsReady false slot shared h = h

  follow_read-KeepsTo :
      (slot : Slot) (answer : Read) (shared : Shared World)
      → IsReady slot
      → Receives slot shared (follow_read lib env slot answer shared)
  unfolding follow_read arm_receive feed_slot owed
  follow_read-KeepsTo slot blocked shared h = (
    slot_arm-KeepsTo chosen env slot
        (if (env.socket_get_io_want slot.sd shared.world).1
          then env.event_write
          else env.event_read)
        shared (plain h.0),
    λ e. absurd (ground arith),
  )
  follow_read-KeepsTo slot ended shared h =
      ((slot_close-KeepsTo chosen env slot shared).0, λ e. absurd (ground arith))
  follow_read-KeepsTo slot (got bytes) shared h =
      let slot0 = record slot { recv = slot.recv ++ bytes } in
      let test = not (length bytes == 0) in
      let (slot1, shared1) = touch_if env test slot0 shared in
      let (slot2, result) = feed_slot lib slot1 in
      let k = touch_if-KeepsTo chosen lib env test slot0 shared (plain h.0) in
      let (l, over) =
        follow_feed-KeepsTo slot2 result shared1 (touch_if-IsReady test slot0 shared h) in
      let result' = follow_feed lib env slot2 result shared1 in
      (
        from chosen env slot shared slot0 shared result'.1 refl refl refl (
            join chosen env slot0 shared slot1 shared1 result'.1 k
              (from chosen env slot1 shared1 slot2 shared1 result'.1 refl refl refl l)),
        over,
      )

  receive_round-KeepsTo :
      (s : Slot × Shared World) → IsReady s.0 → Receives s.0 s.1 (receive_round lib env s)
  unfolding receive_round
  receive_round-KeepsTo (slot, shared) h =
      let (answer, world) =
        env.socket_read_nb slot.sd (slot.recv_buffer_size - length slot.recv) shared.world in
      let shared' : Shared World = record shared { world = world } in
      let refused = refuse_large lib env slot shared in
      let read = follow_read lib env slot answer shared' in
      let k = follow_read-KeepsTo slot answer shared' h in
      either_receive slot shared (leb slot.recv_buffer_size (length slot.recv)) (false, refused)
        read (refuse_large-KeepsTo slot shared h, λ e. absurd (ground arith)) k

  pub slot_drive_receive-KeepsTo :
      (fuel : ℕ) (slot : Slot) (shared : Shared World) {slot' : Slot} {shared' : Shared World}
      → IsReady slot
      → slot_drive_receive lib env fuel slot shared ≡ some (slot', shared')
      → KeepsTo chosen env slot shared (slot', shared')
  unfolding slot_drive_receive
  slot_drive_receive-KeepsTo fuel slot shared h done =
      iterate-ends (receive_round lib env)
        (λ (s : Slot × Shared World). KeepsTo chosen env slot shared s × IsReady s.0)
        (KeepsTo chosen env slot shared)
        (λ s (k, h) e.
          let (l, over) = receive_round-KeepsTo s h in
          (join chosen env slot shared s.0 s.1 (receive_round lib env s).1 k l, over e))
        (λ s (k, h) e.
          join chosen env slot shared s.0 s.1 (receive_round lib env s).1 k
            (receive_round-KeepsTo s h).0)
        fuel (slot, shared) (stays chosen lib env slot shared (plain h.0), h) done
