-- ===== src/Server/Loop/Termination.antt =====
-- The two loops of a connection's event end: slot_drive_receive and slot_drive_send.
use http_c.Prelude.{
  ℕ, ◌+◌, ◌-◌, ◌≡◌, ◌<◌, ◌≤◌, refl, ap, Bool, true, false, not, Bool-cases, inl, inr, Option, some,
  ◌∷◌, ◌++◌, length, length-append, leb, ltb, ◌==◌, ◌&&◌, arith, iterate-total, if◌then◌else◌, drop,
  take,
}
use http_c.Common.{Bytes, ResultCode}
use http_c.Span.{CommonLib}
use http_c.Server.{Slot, SlotState}
use http_c.Server.Receiving.{Read, got, blocked, ended}
use http_c.Server.Loop.{Env, Shared, touch_if, writes, call_now}
use http_c.Server.Loop.Answering.{feed_slot}
use http_c.Server.Loop.Sending.{
  write_slot, follow_write, write_rest, pull_chunk, follow_chunk, follow_rest, send_round,
  slot_drive_send,
}
use http_c.Server.Loop.Driving.{
  refuse_large, follow_feed, follow_read, receive_round, slot_drive_receive, advance_in,
  slot_advance, on_connection_io,
}

module _ (lib : CommonLib) (env : Env) where
  open env use {World}

  -- the bytes that the receive buffer has room for
  abbrev pub room : Slot × Shared World → ℕ
  room (slot, shared) = slot.recv_buffer_size - length slot.recv

  -- A successful read brings at least one byte, as recv and SSL_read do.
  unfoldable pub ReadsSome : Type 0
  ReadsSome =
      (sd : Option ℕ) (size : ℕ) (w w' : World) (bytes : Bytes)
      → env.socket_read_nb sd size w ≡ (got bytes, w')
      → 0 < length bytes

  follow_feed-same :
      (slot : Slot) (result : ResultCode) (shared : Shared World)
      → (follow_feed lib env slot result shared).0 ≡ true
      → (follow_feed lib env slot result shared).1.0 ≡ slot
  unfolding follow_feed
  follow_feed-same slot ResultCode.try_again shared h = refl
  follow_feed-same slot _ shared h = absurd (ground arith)

  touch_if-buffer :
      (test : Bool) (slot : Slot) (shared : Shared World)
      → ((touch_if env test slot shared).0.recv ≡ slot.recv)
        × ((touch_if env test slot shared).0.recv_buffer_size ≡ slot.recv_buffer_size)
  unfolding touch_if
  touch_if-buffer true slot shared = (refl, refl)
  touch_if-buffer false slot shared = (refl, refl)

  follow_read-room :
      (slot : Slot) (answer : Read) (shared : Shared World)
      → ((bytes : Bytes) → answer ≡ got bytes → 0 < length bytes)
      → length slot.recv < slot.recv_buffer_size
      → (follow_read lib env slot answer shared).0 ≡ true
      → room (follow_read lib env slot answer shared).1 < room (slot, shared)
  unfolding follow_read feed_slot
  follow_read-room slot blocked shared some_bytes small h = absurd (ground arith)
  follow_read-room slot ended shared some_bytes small h = absurd (ground arith)
  follow_read-room slot (got bytes) shared some_bytes small h =
      let slot0 = record slot { recv = slot.recv ++ bytes } in
      let (slot1, shared1) = touch_if env (not (length bytes == 0)) slot0 shared in
      let (buffer, size) = touch_if-buffer (not (length bytes == 0)) slot0 shared in
      let (slot2, result) = feed_slot lib slot1 in
      let same = follow_feed-same slot2 result shared1 h in
      let now = ap (λ (s : Slot). s.recv_buffer_size - length s.recv) same in
      let longer = length-append slot.recv bytes in
      let before = ap length buffer in let more = some_bytes bytes refl in omega arith

  under_test :
      (n : ℕ) (test : Bool) (refused : Slot × Shared World) (next : Bool × (Slot × Shared World))
      → (test ≡ false → next.0 ≡ true → room next.1 < n)
      → (if test then (false, refused) else next).0 ≡ true
      → room (if test then (false, refused) else next).1 < n
  under_test n true refused next k h = absurd (ground arith)
  under_test n false refused next k h = k refl h

  receive_round-room :
      ReadsSome
      → (s : Slot × Shared World) → (receive_round lib env s).0 ≡ true
      → room (receive_round lib env s).1 < room s
  unfolding receive_round ReadsSome
  receive_round-room reads (slot, shared) h =
      let asked = slot.recv_buffer_size - length slot.recv in
      let (answer, world) = env.socket_read_nb slot.sd asked shared.world in
      let shared' : Shared World = record shared { world = world } in
      under_test (room (slot, shared)) (leb slot.recv_buffer_size (length slot.recv))
        (refuse_large lib env slot shared) (follow_read lib env slot answer shared')
        (λ fits.
          follow_read-room slot answer shared'
            (λ bytes e.
              reads slot.sd asked shared.world world bytes (ap (λ (a : Read). (a, world)) e))
            (ground arith))
        h

  -- Where a successful read brings at least one byte, slot_drive_receive ends within one round
  -- more than its buffer has room for bytes.
  pub slot_drive_receive-total :
      ReadsSome
      → (fuel : ℕ) (slot : Slot) (shared : Shared World) → room (slot, shared) < fuel
      → (s : Slot × Shared World) × (slot_drive_receive lib env fuel slot shared ≡ some s)
  unfolding slot_drive_receive
  slot_drive_receive-total reads fuel slot shared enough =
      iterate-total (receive_round lib env) (λ (s : Slot × Shared World). s ≡ s) room
        (λ s _ more. (refl, receive_round-room reads s more)) fuel (slot, shared) refl enough

  -- What the body providers still have to give: a chunk that is not empty takes some of it, and
  -- writing to a socket and reading the clock add nothing.
  pub record Drains : Type 0 where
    pub left : World → ℕ
    pub pull :
        (provider ctx : Option ℕ) (size : ℕ) (w : World)
        → 0 < length (env.stream_provider provider ctx size w).0
        → left (env.stream_provider provider ctx size w).1 < left w
    pub write :
        (sd : Option ℕ) (bytes : Bytes) (w : World)
        → left (env.socket_write_nb sd bytes w).2 ≤ left w
    pub clock : (w : World) → left (env.now_ms w).1 ≤ left w

  module _ (d : Drains) where
    touch_if-left :
        (test : Bool) (slot : Slot) (shared : Shared World)
        → d.left (touch_if env test slot shared).1.world ≤ d.left shared.world
    unfolding touch_if call_now
    touch_if-left true slot shared = d.clock shared.world
    touch_if-left false slot shared = omega arith

    follow_write-left :
        (slot : Slot) (result : ResultCode) (shared : Shared World)
        → (follow_write lib env slot result shared).0 ≡ true
        → d.left (follow_write lib env slot result shared).1.1.world ≤ d.left shared.world
    unfolding follow_write
    follow_write-left slot ResultCode.ok shared h = omega arith
    follow_write-left slot _ shared h = absurd (ground arith)

    write_slot-left :
        (slot : Slot) (shared : Shared World)
        → d.left (write_slot lib env slot shared).2.world ≤ d.left shared.world
    unfolding write_slot
    write_slot-left slot shared =
        let rest = drop slot.send_offset slot.send in
        let (written, result, world) = env.socket_write_nb slot.sd rest shared.world in
        let less = d.write slot.sd rest shared.world in
        let less' =
          touch_if-left (not (written == 0))
            (record slot { send_offset = slot.send_offset + written })
            (record shared {
              world = world;
              effects = writes slot.sd (take written rest) ∷ shared.effects;
            }) in
        omega arith

    either_left :
        (n : ℕ) (test : Bool) (a b : Bool × (Slot × Shared World))
        → (a.0 ≡ true → d.left a.1.1.world ≤ n)
        → (b.0 ≡ true → d.left b.1.1.world ≤ n)
        → (if test then a else b).0 ≡ true
        → d.left (if test then a else b).1.1.world ≤ n
    either_left n true a b k l h = k h
    either_left n false a b k l h = l h

    write_rest-left :
        (slot : Slot) (shared : Shared World)
        → (write_rest lib env slot shared).0 ≡ true
        → d.left (write_rest lib env slot shared).1.1.world ≤ d.left shared.world
    unfolding write_rest
    write_rest-left slot shared h =
        let (slot', result, shared') = write_slot lib env slot shared in
        let less = write_slot-left slot shared in
        either_left (d.left shared.world) (ltb slot.send_offset (length slot.send))
          (follow_write lib env slot' result shared') (true, (slot, shared))
          (λ e. let less' = follow_write-left slot' result shared' e in omega arith)
          (λ e. omega arith) h

    pull_chunk-left :
        (slot : Slot) (shared : Shared World)
        → (pull_chunk lib env slot shared).0 ≡ true
        → d.left (pull_chunk lib env slot shared).1.1.world < d.left shared.world
    unfolding pull_chunk
    pull_chunk-left slot shared h =
        let pulled =
          env.stream_provider slot.stream_provider slot.stream_ctx slot.send_buffer_size
            shared.world in
        let pull : 0 < length pulled.0 → d.left pulled.1 < d.left shared.world =
          d.pull slot.stream_provider slot.stream_ctx slot.send_buffer_size shared.world in
        elim (Bool-cases (slot.stream_active && not slot.stream_eof)) [
          | inl e ↦ elim (Bool-cases (length pulled.0 == 0)) [
            | inl f ↦ absurd (ground arith)
            | inr f ↦ ground arith
          ]
          | inr e ↦ absurd (ground arith)
        ]

    follow_chunk-left :
        (n : ℕ) (next : Bool × (Slot × Shared World))
        → (next.0 ≡ true → d.left next.1.1.world < n)
        → (follow_chunk lib env next).0 ≡ true
        → d.left (follow_chunk lib env next).1.1.world < n
    unfolding follow_chunk
    follow_chunk-left n (true, s) k h = k refl
    follow_chunk-left n (false, s) k h = absurd (ground arith)

    follow_rest-left :
        (n : ℕ) (rest : Bool × (Slot × Shared World))
        → (rest.0 ≡ true → d.left rest.1.1.world ≤ n)
        → (follow_rest lib env rest).0 ≡ true
        → d.left (follow_rest lib env rest).1.1.world < n
    unfolding follow_rest
    follow_rest-left n (false, s) k h = absurd (ground arith)
    follow_rest-left n (true, (slot, shared)) k h =
        let less = k refl in
        follow_chunk-left n (pull_chunk lib env slot shared)
          (λ e. let less' = pull_chunk-left slot shared e in omega arith) h

    send_round-left :
        (s : Slot × Shared World)
        → (send_round lib env s).0 ≡ true
        → d.left (send_round lib env s).1.1.world < d.left s.1.world
    unfolding send_round
    send_round-left (slot, shared) h =
        follow_rest-left (d.left shared.world) (write_rest lib env slot shared)
          (write_rest-left slot shared) h

    -- Where the providers' bodies are finite, slot_drive_send ends within one round more than the
    -- measure of what they still give.
    pub slot_drive_send-total :
        (fuel : ℕ) (slot : Slot) (shared : Shared World)
        → d.left shared.world < fuel
        → (s : Slot × Shared World) × (slot_drive_send lib env fuel slot shared ≡ some s)
    unfolding slot_drive_send
    slot_drive_send-total fuel slot shared enough =
        iterate-total (send_round lib env) (λ (s : Slot × Shared World). s ≡ s)
          (λ (s : Slot × Shared World). d.left s.1.world)
          (λ s _ more. (refl, send_round-left s more)) fuel (slot, shared) refl enough

  advance_in-total :
      (d : Drains)
      → ReadsSome
      → (state : SlotState) (fuel : ℕ) (slot : Slot) (shared : Shared World)
      → room (slot, shared) < fuel
      → d.left shared.world < fuel
      → (s : Slot × Shared World) × (advance_in lib env state fuel slot shared ≡ some s)
  unfolding advance_in
  advance_in-total d reads SlotState.handshaking fuel slot shared r l = (_, refl)
  advance_in-total d reads SlotState.receiving fuel slot shared r l =
      slot_drive_receive-total reads fuel slot shared r
  advance_in-total d reads SlotState.sending fuel slot shared r l =
      slot_drive_send-total d fuel slot shared l
  advance_in-total d reads _ fuel slot shared r l = (_, refl)

  -- Where a successful read brings at least one byte and the providers' bodies are finite, every
  -- event of a connection is handled to its end, with fuel above the room of the receive buffer
  -- and above the measure of what the providers still give.
  pub on_connection_io-total :
      (d : Drains)
      → ReadsSome
      → (failed : Bool) (fuel : ℕ) (slot : Slot) (shared : Shared World)
      → room (slot, shared) < fuel
      → d.left shared.world < fuel
      → (s : Slot × Shared World) × (on_connection_io lib env failed fuel slot shared ≡ some s)
  unfolding on_connection_io slot_advance
  on_connection_io-total d reads true fuel slot shared r l = (_, refl)
  on_connection_io-total d reads false fuel slot shared r l =
      advance_in-total d reads slot.state fuel slot shared r l
