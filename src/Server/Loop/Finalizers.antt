-- ===== src/Server/Loop/Finalizers.antt =====
-- The finalizers of streamed bodies: each one that a response hands to a slot is called once, when
-- the body has ended or the slot is closed.
pub mod Answers
pub mod Sending
pub mod Receiving
pub mod Events
pub mod Rounds
pub mod Callbacks
pub mod Served
pub mod Forgotten
use http_c.Prelude.{
  ℕ, ◌+◌, ◌≡◌, refl, Bool, true, false, Option, none, some, List, [], ◌∷◌, arith, ap, if◌then◌else◌,
}
use http_c.Response.{Response}
use http_c.Request.{Request}
use http_c.Codes.{code_200, reason_200, code_404, reason_404, code_405, reason_405}
use http_c.Server.Routes.{runs, answers_404, answers_405, dispatch}
use http_c.Server.Deferral.{park}
use http_c.Server.{Slot, SlotState, released}
use http_c.Span.{CommonLib}
use http_c.Server.Responding.{
  Next, framed_response, prepare_default_response, stream_finalize, take_stream, finish_serialize,
  serialize_and_send, closes, arms_write,
}
use http_c.Server.Loop.{
  Env, Shared, Effect, finalizes, starts_stream, call_register, call_modify, slot_arm, end_stream,
  leave_loop, call_deinit, listener_rearm, slot_close, call_now, HandlerOutcome,
}
use http_c.Server.Loop.Answering.{
  started, continue_with, stream_started, send_response, send_status, follow_outcome,
  run_handler_and_serialize, handle_request,
}

-- Finalizers, with their contexts, of which the calls are counted.
abbrev pub Chosen : Type 0
Chosen = ℕ → Option ℕ → Bool

abbrev pub once : Bool → ℕ
once b = if b then 1 else 0

-- how many of the effects start a streamed body with a chosen finalizer
unfoldable pub starts : Chosen → List Effect → ℕ
starts chosen [] = 0
starts chosen (starts_stream f ctx ∷ effects) = once (chosen f ctx) + starts chosen effects
starts chosen (_ ∷ effects) = starts chosen effects

-- how many of the effects call a chosen finalizer
unfoldable pub finals : Chosen → List Effect → ℕ
finals chosen [] = 0
finals chosen (finalizes f ctx ∷ effects) = once (chosen f ctx) + finals chosen effects
finals chosen (_ ∷ effects) = finals chosen effects

-- the finalizer that the slot has still to call, if it is a chosen one
unfoldable pub owed : Chosen → Slot → ℕ
owed chosen slot =
    if slot.stream_active
    then elim slot.stream_finalizer [ none ↦ 0 | some f ↦ once (chosen f slot.stream_ctx) ]
    else 0

-- Only a slot in use that is sending streams a body, and one whose body has ended does not.
pub record IsSound (slot : Slot) : Type 0 where
  pub sending : slot.stream_active ≡ true → slot.state ≡ SlotState.sending
  pub open_end : slot.stream_active ≡ true → slot.stream_eof ≡ false
  pub used : slot.stream_active ≡ true → slot.in_use ≡ true

-- A slot in use that streams no body.
abbrev pub IsReady : Slot → Type 0
IsReady slot = (slot.stream_active ≡ false) × (slot.in_use ≡ true)

-- a slot that streams no body
pub plain : {slot : Slot} → slot.stream_active ≡ false → IsSound slot
plain h = record {
  sending = λ e. absurd (ground arith);
  open_end = λ e. absurd (ground arith);
  used = λ e. absurd (ground arith);
}

-- From one state of a slot and of the shared state to another, what was started and not
-- finalized is what the slot owes.
pub record Keeps (chosen : Chosen) (slot : Slot) (effects : List Effect) (slot' : Slot)
    (effects' : List Effect) : Type 0 where
  pub sound : IsSound slot'
  pub balance :
      starts chosen effects' + owed chosen slot + finals chosen effects
      ≡ starts chosen effects + owed chosen slot' + finals chosen effects'

module _ (chosen : Chosen) (env : Env) where
  open env use {World}

  -- `Keeps` for the result of an operation
  abbrev pub KeepsTo : Slot → Shared World → Slot × Shared World → Type 0
  KeepsTo slot shared (slot', shared') = Keeps chosen slot shared.effects slot' shared'.effects

  pub slot_arm-KeepsTo :
      (slot : Slot) (events : ℕ) (shared : Shared World)
      → IsSound slot
      → KeepsTo slot shared (slot_arm env slot events shared)
  unfolding slot_arm call_register call_modify starts finals owed
  slot_arm-KeepsTo slot events shared h = record {
    sound = record {
      sending = λ e. ground arith;
      open_end = λ e. ground arith;
      used = λ e. ground arith;
    };
    balance = ground arith;
  }

  pub end_stream-KeepsTo :
      (slot : Slot) (shared : Shared World)
      → KeepsTo slot shared (end_stream env slot shared)
        × ((end_stream env slot shared).0.stream_active ≡ false)
  unfolding end_stream stream_finalize starts finals owed
  end_stream-KeepsTo slot shared = (
    record {
      sound = record {
        sending = λ e. ground arith;
        open_end = λ e. ground arith;
        used = λ e. ground arith;
      };
      balance = ground arith;
    },
    ground arith,
  )

  listener_rearm-quiet :
      (shared : Shared World)
      → (starts chosen (listener_rearm env shared).effects ≡ starts chosen shared.effects)
        × (finals chosen (listener_rearm env shared).effects ≡ finals chosen shared.effects)
  unfolding listener_rearm call_register starts finals
  listener_rearm-quiet shared = (ground arith, ground arith)

  leave_loop-quiet :
      (slot : Slot) (shared : Shared World)
      → (starts chosen (leave_loop env slot shared).1.effects ≡ starts chosen shared.effects)
        × (finals chosen (leave_loop env slot shared).1.effects ≡ finals chosen shared.effects)
        × ((leave_loop env slot shared).0.stream_active ≡ slot.stream_active)
  unfolding leave_loop starts finals
  leave_loop-quiet slot shared = (ground arith, ground arith, ground arith)

  pub slot_close-KeepsTo :
      (slot : Slot) (shared : Shared World)
      → KeepsTo slot shared (slot_close env slot shared)
        × ((slot_close env slot shared).0.stream_active ≡ false)
  unfolding slot_close call_deinit starts finals owed
  slot_close-KeepsTo slot shared =
      let (k, closed) = end_stream-KeepsTo slot shared in
      let b = k.balance in
      let r1 = end_stream env slot shared in
      let (s, f, a) = leave_loop-quiet r1.0 r1.1 in
      let r2 = leave_loop env r1.0 r1.1 in
      let (s', f') = listener_rearm-quiet (call_deinit env r2.0.sd r2.1) in
      (
        record {
          sound = record {
            sending = λ e. ground arith;
            open_end = λ e. ground arith;
            used = λ e. ground arith;
          };
          balance = ground arith;
        },
        ground arith,
      )

  -- one change after another
  pub join :
      (slot : Slot) (shared : Shared World) (slot' : Slot) (shared' : Shared World)
      (result : Slot × Shared World)
      → KeepsTo slot shared (slot', shared')
      → KeepsTo slot' shared' result
      → KeepsTo slot shared result
  join slot shared slot' shared' result k l =
      let b = k.balance in let b' = l.balance in record { sound = l.sound; balance = omega arith }

  -- A change of what the account does not read.
  pub from :
      (slot : Slot) (shared : Shared World) (slot' : Slot) (shared' : Shared World)
      (result : Slot × Shared World)
      → owed chosen slot' ≡ owed chosen slot
      → starts chosen shared'.effects ≡ starts chosen shared.effects
      → finals chosen shared'.effects ≡ finals chosen shared.effects
      → KeepsTo slot' shared' result
      → KeepsTo slot shared result
  from slot shared slot' shared' result o s f k =
      let b = k.balance in record { sound = k.sound; balance = omega arith }

  -- Two ways to go on.
  pub either :
      (slot : Slot) (shared : Shared World) (test : Bool) (a b : Slot × Shared World)
      → KeepsTo slot shared a
      → KeepsTo slot shared b
      → KeepsTo slot shared (if test then a else b)
  either slot shared true a b k l = k
  either slot shared false a b k l = l
