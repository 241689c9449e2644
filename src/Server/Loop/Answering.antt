-- ===== src/Server/Loop/Answering.antt =====
-- How the event loop of src/http_server.c answers a request on a slot: serialize_and_send,
-- respond_with_status and run_handler_and_serialize, with the calls that they make.
use http_c.Prelude.{none, some, List, ◌∷◌}
use http_c.Common.{Bytes, ResultCode}
use http_c.RequestParser.{feed_parser}
use http_c.Codes.{code_200, reason_200, code_404, reason_404, code_405, reason_405}
use http_c.Span.{CommonLib}
use http_c.Request.{Request}
use http_c.Response.{Response}
use http_c.Server.{Slot}
use http_c.Server.Deferral.{park}
use http_c.Server.Routes.{Dispatch, runs, answers_404, answers_405, dispatch}
use http_c.Server.Responding.{
  Next, closes, arms_write, client_wants_close, prepare_default_response, serialize_and_send,
  framed_response,
}
use http_c.Server.Loop.{
  Env, Shared, Effect, starts_stream, HandlerOutcome, call_now, slot_arm, slot_close,
}

-- the record of the start of a streamed body that has a finalizer
abbrev pub stream_started : Response → List Effect → List Effect
stream_started response effects = elim response.body_provider [
  | none ↦ effects
  | some _ ↦ elim response.body_finalizer [
    | none ↦ effects
    | some finalizer ↦ starts_stream finalizer response.body_provider_context ∷ effects
  ]
]

module _ (lib : CommonLib) where
  -- http_request_parser_feed on the receive buffer
  unfoldable pub feed_slot : Slot → Slot × ResultCode
  feed_slot slot =
      let (parser, result) = feed_parser lib slot.parser slot.recv in
      (record slot { parser = parser }, result)

module _ (lib : CommonLib) (env : Env) where
  open env use {World, Pattern}

  abbrev pub started : Response → Shared World → Shared World
  started response shared = record shared { effects = stream_started response shared.effects }

  -- the end of serialize_and_send: the shared state before and after the clock is read
  abbrev pub continue_with : Slot × Next → Shared World → Shared World → Slot × Shared World
  continue_with (slot, closes) before after = slot_close env slot before
  continue_with (slot, arms_write) before after = slot_arm env slot env.event_write after

  -- serialize_and_send; the clock is read only where the response was serialised
  unfoldable pub send_response : Slot → Response → Shared World → Slot × Shared World
  unfolding call_now
  send_response slot response shared =
      let (now, shared') = call_now env shared in
      continue_with (serialize_and_send lib now slot response) (started response shared)
        (started response shared')

  -- respond_with_status
  unfoldable pub send_status : Slot → Bytes → Bytes → Shared World → Slot × Shared World
  unfolding send_response
  send_status slot code reason shared =
      send_response slot (framed_response lib slot.default_headers code reason) shared

  -- what run_handler_and_serialize does with the handler's outcome and response
  unfoldable pub follow_outcome :
      Slot → HandlerOutcome → Response → Shared World → Slot × Shared World
  unfolding send_response call_now
  follow_outcome slot HandlerOutcome.close response shared = slot_close env slot shared
  follow_outcome slot HandlerOutcome.defer response shared =
      let (now, shared') = call_now env shared in
      slot_arm env (park now env.pending_timeout_ms slot) env.event_read shared'
  follow_outcome slot HandlerOutcome.respond response shared = send_response slot response shared

  -- run_handler_and_serialize, from the end of the loop over the routes on, and the handler's call
  unfoldable pub follow_dispatch :
      Slot → Request → Dispatch Pattern → Shared World → Slot × Shared World
  unfolding follow_outcome send_status
  follow_dispatch slot request answers_404 shared = send_status slot code_404 reason_404 shared
  follow_dispatch slot request answers_405 shared = send_status slot code_405 reason_405 shared
  follow_dispatch slot request (runs route captures) shared =
      let (outcome, response, world) =
        env.handler route.handler route.user_context request captures
          (prepare_default_response code_200 reason_200) shared.world in
      follow_outcome slot outcome response (record shared { world = world })

  -- run_handler_and_serialize
  unfoldable pub run_handler_and_serialize : Slot → Request → Shared World → Slot × Shared World
  unfolding follow_dispatch
  run_handler_and_serialize slot request shared =
      follow_dispatch slot request
        (dispatch lib env.match_path env.routes request.method request.path) shared

  -- a complete request: the handler runs
  unfoldable pub handle_request : Slot → Shared World → Slot × Shared World
  handle_request slot shared =
      let request = slot.parser.request in
      run_handler_and_serialize
        (record slot { client_wants_close = client_wants_close lib request }) request shared
