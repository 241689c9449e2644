-- ===== src/Server/Loop/Finalizers/Forgotten.antt =====
-- The finalizer of a deferred response that was accepted and not yet claimed.
use http_c.Prelude.{ℕ, ◌≡◌, refl, ◌∙◌, false, some, arith}
use http_c.Common.{ok}
use http_c.Response.{Response}
use http_c.Server.{Slot}
use http_c.Server.Deferral.{post}
use http_c.Server.Responding.{stream_finalize}
use http_c.Server.Loop.{Env, Shared, slot_close, end_stream, leave_loop, call_deinit}
use http_c.Server.Loop.Finalizers.{Chosen, finals, IsSound, listener_rearm-quiet, leave_loop-quiet}

module _ (chosen : Chosen) (env : Env) where
  open env use {World}

  end_stream-inactive :
      (slot : Slot) (shared : Shared World)
      → slot.stream_active ≡ false
      → finals chosen (end_stream env slot shared).1.effects ≡ finals chosen shared.effects
  unfolding end_stream stream_finalize
  end_stream-inactive slot shared h = ground arith

  -- Where a sound slot accepted a deferred response and its connection is closed before the loop
  -- claims it, the slot is given up and forgets the response, and no finalizer is called, the one
  -- of that response included.
  pub slot_close-forgets :
      (slot : Slot) (generation : ℕ) (response : Response) {slot' : Slot} (shared : Shared World)
      → IsSound slot
      → post slot generation (some response) ≡ (slot', ok)
      → (finals chosen (slot_close env slot' shared).1.effects ≡ finals chosen shared.effects)
        × ((slot_close env slot' shared).0.in_use ≡ false)
        × ((slot_close env slot' shared).0.pending_ready ≡ false)
  unfolding slot_close post call_deinit finals
  slot_close-forgets slot generation response {slot'} shared h e =
      let inactive : slot'.stream_active ≡ false = ground arith in
      let r1 = end_stream env slot' shared in
      let same = end_stream-inactive slot' shared inactive in
      let (_, f, _) = leave_loop-quiet chosen env r1.0 r1.1 in
      let r2 = leave_loop env r1.0 r1.1 in
      let (_, f') = listener_rearm-quiet chosen env (call_deinit env r2.0.sd r2.1) in
      (f' ∙ (f ∙ same), refl, refl)
