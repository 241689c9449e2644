-- ===== src/Server/Loop/Finalizers/Answers.antt =====
-- The answer to a request keeps the account of the finalizers.
use http_c.Prelude.{ℕ, ◌+◌, ◌≡◌, refl, List, arith, ap}
use http_c.Response.{Response}
use http_c.Request.{Request}
use http_c.Codes.{code_200, reason_200, code_404, reason_404, code_405, reason_405}
use http_c.Server.Routes.{Dispatch, runs, answers_404, answers_405, dispatch}
use http_c.Server.Deferral.{park}
use http_c.Server.{Slot}
use http_c.Span.{CommonLib}
use http_c.Server.Responding.{
  client_wants_close, Next, framed_response, prepare_default_response, take_stream,
  finish_serialize, serialize_and_send, closes, arms_write,
}
use http_c.Server.Loop.{Env, Shared, Effect, call_now, HandlerOutcome}
use http_c.Server.Loop.Answering.{
  follow_dispatch, started, continue_with, stream_started, send_response, send_status,
  follow_outcome, run_handler_and_serialize, handle_request,
}
use http_c.Server.Loop.Finalizers.{
  Chosen, starts, finals, owed, IsSound, plain, IsReady, KeepsTo, slot_arm-KeepsTo,
  slot_close-KeepsTo, from,
}

module _ (chosen : Chosen) (lib : CommonLib) (env : Env) where
  open env use {World, Pattern}

  serialize_and_send-owed :
      (now : ℕ) (slot : Slot) (response : Response) (effects : List Effect)
      → IsReady slot
      → (starts chosen (stream_started response effects)
          ≡ starts chosen effects + owed chosen (serialize_and_send lib now slot response).0)
        × (finals chosen (stream_started response effects) ≡ finals chosen effects)
        × ((serialize_and_send lib now slot response).1 ≡ arms_write
            → IsSound (serialize_and_send lib now slot response).0)
  unfolding serialize_and_send take_stream finish_serialize starts finals owed
  serialize_and_send-owed now slot response effects h = (
    ground arith,
    ground arith,
    λ fits. record {
      sending = λ e. ground arith;
      open_end = λ e. ground arith;
      used = λ e. ground arith;
    },
  )

  continue_with-KeepsTo :
      (slot : Slot) (shared before after : Shared World) (result : Slot × Next)
      → IsReady slot
      → after.effects ≡ before.effects
      → starts chosen before.effects ≡ starts chosen shared.effects + owed chosen result.0
      → finals chosen before.effects ≡ finals chosen shared.effects
      → (result.1 ≡ arms_write → IsSound result.0)
      → KeepsTo chosen env slot shared (continue_with lib env result before after)
  unfolding owed
  continue_with-KeepsTo slot shared before after (slot', closes) h same st fi sound =
      let k = (slot_close-KeepsTo chosen env slot' before).0 in
      let b = k.balance in record { sound = k.sound; balance = ground arith }
  continue_with-KeepsTo slot shared before after (slot', arms_write) h same st fi sound =
      let k = slot_arm-KeepsTo chosen env slot' env.event_write after (sound refl) in
      let b = k.balance in
      let st' = ap (starts chosen) same in
      let fi' = ap (finals chosen) same in record { sound = k.sound; balance = ground arith }

  pub send_response-KeepsTo :
      (slot : Slot) (response : Response) (shared : Shared World)
      → IsReady slot
      → KeepsTo chosen env slot shared (send_response lib env slot response shared)
  unfolding send_response call_now
  send_response-KeepsTo slot response shared h =
      let (now, shared') = call_now env shared in
      let (st, fi, sound) = serialize_and_send-owed now slot response shared.effects h in
      continue_with-KeepsTo slot shared (started lib env response shared)
        (started lib env response shared') (serialize_and_send lib now slot response) h refl st fi
        sound

  follow_outcome-KeepsTo :
      (slot : Slot) (outcome : HandlerOutcome) (response : Response) (shared : Shared World)
      → IsReady slot
      → KeepsTo chosen env slot shared (follow_outcome lib env slot outcome response shared)
  unfolding follow_outcome call_now park owed
  follow_outcome-KeepsTo slot HandlerOutcome.close response shared h =
      (slot_close-KeepsTo chosen env slot shared).0
  follow_outcome-KeepsTo slot HandlerOutcome.defer response shared h =
      let (now, shared') = call_now env shared in
      let slot' = park now env.pending_timeout_ms slot in
      let sound : IsSound slot' = plain h.0 in
      let k = slot_arm-KeepsTo chosen env slot' env.event_read shared' sound in
      let b = k.balance in record { sound = k.sound; balance = ground arith }
  follow_outcome-KeepsTo slot HandlerOutcome.respond response shared h =
      send_response-KeepsTo slot response shared h

  follow_dispatch-KeepsTo :
      (slot : Slot) (request : Request) (d : Dispatch Pattern) (shared : Shared World)
      → IsReady slot
      → KeepsTo chosen env slot shared (follow_dispatch lib env slot request d shared)
  unfolding follow_dispatch send_status
  follow_dispatch-KeepsTo slot request answers_404 shared h =
      send_response-KeepsTo slot (framed_response lib slot.default_headers code_404 reason_404)
        shared h
  follow_dispatch-KeepsTo slot request answers_405 shared h =
      send_response-KeepsTo slot (framed_response lib slot.default_headers code_405 reason_405)
        shared h
  follow_dispatch-KeepsTo slot request (runs route captures) shared h =
      let (outcome, response, world) =
        env.handler route.handler route.user_context request captures
          (prepare_default_response code_200 reason_200) shared.world in
      follow_outcome-KeepsTo slot outcome response (record shared { world = world }) h

  pub handle_request-KeepsTo :
      (slot : Slot) (shared : Shared World)
      → IsReady slot
      → KeepsTo chosen env slot shared (handle_request lib env slot shared)
  unfolding handle_request run_handler_and_serialize owed
  handle_request-KeepsTo slot shared h =
      let request = slot.parser.request in
      let slot' = record slot { client_wants_close = client_wants_close lib request } in
      from chosen env slot shared slot' shared (handle_request lib env slot shared) refl refl refl (
        follow_dispatch-KeepsTo slot' request
          (dispatch lib env.match_path env.routes request.method request.path) shared h)
