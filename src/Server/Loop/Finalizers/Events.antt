-- ===== src/Server/Loop/Finalizers/Events.antt =====
-- Every event of a connection keeps the account of the finalizers.
use http_c.Prelude.{
  some-injective, subst, some, ℕ, ◌≡◌, ◌≢◌, refl, Bool, true, false, some, some-injective, length,
  leb, ◌-◌, arith, iterate-ends, subst,
}
use http_c.Span.{CommonLib}
use http_c.Server.{Slot, SlotState}
use http_c.Server.Receiving.{Read, slot_probe_pending}
use http_c.Server.Loop.{slot_close, Env, Shared, slot_close}
use http_c.Server.Loop.Sending.{send_round, slot_drive_send}
use http_c.Server.Loop.Driving.{
  advance_in, slot_drive_handshake, slot_advance, on_connection_io, follow_handshake,
  follow_handshake, slot_drive_handshake, follow_probe, probe_pending, slot_advance,
  on_connection_io,
}
use http_c.Server.Loop.Finalizers.{
  slot_close-KeepsTo, Chosen, owed, IsSound, IsReady, Keeps, KeepsTo, slot_close-KeepsTo, join,
  from, either,
}
use http_c.Server.Loop.Finalizers.Sending.{stays, send_round-Sends}
use http_c.Server.Loop.Finalizers.Receiving.{follow_handshake-KeepsTo, slot_drive_receive-KeepsTo}

module _ (chosen : Chosen) (lib : CommonLib) (env : Env) where
  open env use {World}

  slot_drive_send-KeepsTo :
      (fuel : ℕ) (slot : Slot) (shared : Shared World) {slot' : Slot} {shared' : Shared World}
      → IsSound slot
      → slot.in_use ≡ true
      → slot_drive_send lib env fuel slot shared ≡ some (slot', shared')
      → KeepsTo chosen env slot shared (slot', shared')
  unfolding slot_drive_send
  slot_drive_send-KeepsTo fuel slot shared h used done =
      iterate-ends (send_round lib env)
        (λ (s : Slot × Shared World). KeepsTo chosen env slot shared s × (s.0.in_use ≡ true))
        (KeepsTo chosen env slot shared)
        (λ s (k, used) e.
          let (l, on) = send_round-Sends chosen lib env s k.sound used in
          (join chosen env slot shared s.0 s.1 (send_round lib env s).1 k l, on e))
        (λ s (k, used) e.
          join chosen env slot shared s.0 s.1 (send_round lib env s).1 k
            (send_round-Sends chosen lib env s k.sound used).0)
        fuel (slot, shared) (stays chosen lib env slot shared h, used) done

  follow_probe-KeepsTo :
      (slot : Slot) (gone : Bool) (shared : Shared World)
      → IsSound slot
      → KeepsTo chosen env slot shared (follow_probe lib env (slot, gone) shared)
  unfolding follow_probe
  follow_probe-KeepsTo slot true shared h = (slot_close-KeepsTo chosen env slot shared).0
  follow_probe-KeepsTo slot false shared h = stays chosen lib env slot shared h

  slot_probe_pending-same :
      (slot : Slot) (answer : Read)
      → (owed chosen (slot_probe_pending (λ _. answer) slot).0 ≡ owed chosen slot)
        × (IsSound slot → IsSound (slot_probe_pending (λ _. answer) slot).0)
  unfolding slot_probe_pending owed
  slot_probe_pending-same slot answer = (
    ground arith,
    λ h. record {
      sending = λ e. ground arith;
      open_end = λ e. ground arith;
      used = λ e. ground arith;
    },
  )

  probe_pending-KeepsTo :
      (slot : Slot) (shared : Shared World)
      → IsSound slot
      → KeepsTo chosen env slot shared (probe_pending lib env slot shared)
  unfolding probe_pending
  probe_pending-KeepsTo slot shared h =
      let (answer, world) =
        env.socket_read_nb slot.sd (slot.recv_buffer_size - length slot.recv) shared.world in
      let shared' : Shared World = record shared { world = world } in
      let (slot', gone) = slot_probe_pending (λ _. answer) slot in
      let (same, keeps) = slot_probe_pending-same slot answer in
      let result = follow_probe lib env (slot', gone) shared' in
      either chosen env slot shared (leb slot.recv_buffer_size (length slot.recv)) (slot, shared)
        result (stays chosen lib env slot shared h)
        (from chosen env slot shared slot' shared' result same refl refl
          (follow_probe-KeepsTo slot' gone shared' (keeps h)))

  -- only the state sending streams a body
  quiet :
      {slot : Slot}
      → IsSound slot
      → slot.in_use ≡ true
      → slot.state ≢ SlotState.sending
      → IsReady slot
  quiet h used k = (ground arith, used)

  ends-KeepsTo :
      (slot : Slot) (shared : Shared World) (result : Slot × Shared World) {slot' : Slot}
      {shared' : Shared World}
      → KeepsTo chosen env slot shared result
      → some result ≡ some (slot', shared')
      → KeepsTo chosen env slot shared (slot', shared')
  ends-KeepsTo slot shared result {slot'} {shared'} k e =
      subst (KeepsTo chosen env slot shared) (some-injective result (slot', shared') e) k

  advance_in-KeepsTo :
      (state : SlotState) (fuel : ℕ) (slot : Slot) (shared : Shared World) {slot' : Slot}
      {shared' : Shared World}
      → slot.state ≡ state
      → IsSound slot
      → slot.in_use ≡ true
      → advance_in lib env state fuel slot shared ≡ some (slot', shared')
      → KeepsTo chosen env slot shared (slot', shared')
  unfolding advance_in slot_drive_handshake
  advance_in-KeepsTo SlotState.handshaking fuel slot shared at h used done =
      let (result, world) = env.socket_handshake_nb slot.sd shared.world in
      let shared' : Shared World = record shared { world = world } in
      ends-KeepsTo slot shared (follow_handshake lib env slot result shared')
        (follow_handshake-KeepsTo chosen lib env slot result shared'
          (quiet h used (λ e. absurd (ground arith))))
        done
  advance_in-KeepsTo SlotState.receiving fuel slot shared at h used done =
      slot_drive_receive-KeepsTo chosen lib env fuel slot shared
        (quiet h used (λ e. absurd (ground arith))) done
  advance_in-KeepsTo SlotState.pending fuel slot shared at h used done =
      ends-KeepsTo slot shared (probe_pending lib env slot shared)
        (probe_pending-KeepsTo slot shared h) done
  advance_in-KeepsTo SlotState.sending fuel slot shared at h used done =
      slot_drive_send-KeepsTo fuel slot shared h used done
  advance_in-KeepsTo _ fuel slot shared at h used done =
      ends-KeepsTo slot shared (slot_close env slot shared)
        (slot_close-KeepsTo chosen env slot shared).0 done

  -- An event of a connection in use that is handled to its end leaves its slot sound, and what it
  -- started and did not finalize is what the slot owes more than before.
  pub on_connection_io-Keeps :
      (failed : Bool) (fuel : ℕ) (slot : Slot) (shared : Shared World) {slot' : Slot}
      {shared' : Shared World}
      → IsSound slot
      → slot.in_use ≡ true
      → on_connection_io lib env failed fuel slot shared ≡ some (slot', shared')
      → Keeps chosen slot shared.effects slot' shared'.effects
  unfolding on_connection_io slot_advance
  on_connection_io-Keeps true fuel slot shared h used done =
      ends-KeepsTo slot shared (slot_close env slot shared)
        (slot_close-KeepsTo chosen env slot shared).0 done
  on_connection_io-Keeps false fuel slot shared h used done =
      advance_in-KeepsTo slot.state fuel slot shared refl h used done
