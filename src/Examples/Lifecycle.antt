-- ===== src/Examples/Lifecycle.antt =====
-- A server from http_server_init to the end of http_server_run.
use http_c.Prelude.{
  ℕ, ◌≡◌, ◌≢◌, ◌⊎◌, refl, Bool, true, false, Option, none, some, List, [], ◌∷◌, ◌++◌, iterate,
}
use http_c.Prelude.Text.{bytes}
use http_c.Common.{ResultCode, ok, error}
use http_c.Span.Reference.{reference}
use http_c.Response.{Response}
use http_c.Server.{Slot}
use http_c.Server.Deferral.{Storage, post}
use http_c.RequestParser.{init}
use http_c.Server.Loop.{Env, HandlerOutcome, Shared, ServerState, stopped, slot_close}
use http_c.Server.Loop.Steps.{start, step, elsewhere}
use http_c.Server.Loop.Finalizers.{plain, starts, finals}
use http_c.Server.Loop.Finalizers.Rounds.{AllSound, no_slots, also, owed_all}
use http_c.Server.Loop.Finalizers.Forgotten.{slot_close-forgets}
use http_c.Server.Lifecycle.{
  Object, Change, Config, Server, fresh, http_server_init, http_server_deinit,
}
use http_c.Server.Lifecycle.Run.{Answers, Serving, set_up, finish, serve}
use http_c.Server.Lifecycle.Objects.{replay, init_objects, http_server_init-objects, set_up-objects}
use http_c.Server.Lifecycle.Serving.{CallsBack, serve-finalized}
use http_c.Headers
use http_c.Request.{Request, write_body}
use http_c.Response
use http_c.Server.{slot_waits_on_peer}
use http_c.Server.Timers.{next_tick_ms}
use http_c.Server.Responding.{serialize_and_send}
use http_c.Server.Loop.{slot_arm, call_deinit, leave_loop, end_stream}
use http_c.Server.Loop.Answering.{send_response}
use http_c.Server.Loop.Table.{
  tear_down, flush_pending_responses, sweep_pending_deadlines, sweep_idle_connections,
}
use http_c.Examples.Server.{idle_since, parked, greeting}
use http_c.Examples.Loop.{Peer, world, asked, the_finalizer, streamed}

abbrev config : Config
config = record {
  port = 8443;
  bind_address = none;
  tls_enable = true;
  certificate_file = some (bytes "cert.pem");
  private_key_file = some (bytes "key.pem");
  on_state_changed = none;
  deferred_timeout_ms = 0;
  idle_timeout_ms = 5000;
}

-- The system refuses the mutex of the deferred responses.
abbrev refuses_last : Object → Bool
refuses_last Object.pending_mutex = false
refuses_last _ = true

abbrev server : Server ℕ
server = fresh config (parked ∷ []) 4

http_server_init-objects_example :
    let (made, result, changes) =
      http_server_init {R = ℕ} refuses_last (some config) (some (parked ∷ [], 4)) in
    (((result ≡ ok) × (replay [] changes ≡ some init_objects) × ((s : Server ℕ) × (made ≡ some s)))
      ⊎ ((made ≡ none) × (result ≢ ok) × (replay [] changes ≡ some [])))
    × (replay init_objects (http_server_deinit server).2 ≡ some [])
http_server_init-objects_example =
    http_server_init-objects refuses_last (some config) (some (parked ∷ [], 4)) server

abbrev table : Storage
table = record { base = 1000; stride = 24; slots = idle_since 500 ∷ [] }

-- The handler takes a ticket and defers.
abbrev defers : Env
defers = record world {
  handler = λ f ctx request captures response w. (HandlerOutcome.defer, response, w);
}

abbrev get_request : Request
get_request = record init.request { method = bytes "GET"; path = bytes "/a" }

abbrev accepted : Slot
accepted = record parked { pending_response = streamed greeting; pending_ready = true }

accepted_ok : post parked 3 (some (streamed greeting)) ≡ (accepted, ok)
unfolding post
accepted_ok = refl

slot_close-forgets_example :
    (finals the_finalizer (slot_close world accepted asked).1.effects ≡ 0)
    × ((slot_close world accepted asked).0.in_use ≡ false)
    × ((slot_close world accepted asked).0.pending_ready ≡ false)
unfolding finals
slot_close-forgets_example =
    slot_close-forgets the_finalizer world parked 3 (streamed greeting) asked (plain refl)
      accepted_ok

-- While the loop waits, the application stops the server.
abbrev stops : Option ℕ → List Slot × Shared Peer → Serving Peer
stops timeout (slots, shared) =
    (ok, (slots, record shared { world = record shared.world { state = stopped } }))

abbrev listens : Answers
listens = record { endpoint_init = ok; set_nonblocking = ok; loop_init = ok; register = ok }

set_up-objects_example :
    let (goes_on, result, changes) = set_up reference ServerState.initialized listens in
    let (result', changes', left) =
      finish reference world stops
        (λ state w. record w { state = state })
        3
        (ok, (accepted ∷ [], asked)) in
    ((goes_on ≡ true) × (result ≡ ok) × (replay [] (changes ++ changes') ≡ some []))
    ⊎ ((goes_on ≡ false) × (result ≡ error) × (replay [] changes ≡ some []))
set_up-objects_example =
    set_up-objects reference world stops (λ state w. record w { state = state })
      ServerState.initialized listens 3 (ok, (accepted ∷ [], asked))

stops-CallsBack : CallsBack reference world stops (λ state w. record w { state = state })
unfolding CallsBack
stops-CallsBack timeout (slots, shared) =
    step start (elsewhere (record shared.world { state = stopped }) slots shared)

abbrev or_else :
    Option (ResultCode × List Change × (List Slot × Shared Peer))
    → ResultCode × List Change × (List Slot × Shared Peer)
or_else none = (error, [], ([], asked))
or_else (some r) = r

abbrev ran : Option (ResultCode × List Change × (List Slot × Shared Peer))
ran = serve reference world stops (λ state w. record w { state = state }) 2 3 (accepted ∷ []) asked

ran_done : ran ≡ some (or_else ran)
unfolding serve iterate reference sweep_idle_connections sweep_pending_deadlines
    flush_pending_responses slot_waits_on_peer send_response serialize_and_send
    Response.serialize_to Headers.serialize_to write_body slot_arm next_tick_ms
ran_done = refl

ran-starts : starts the_finalizer (or_else ran).2.1.effects ≡ 1
unfolding serve iterate reference sweep_idle_connections sweep_pending_deadlines
    flush_pending_responses slot_waits_on_peer send_response serialize_and_send
    Response.serialize_to Headers.serialize_to write_body slot_arm next_tick_ms starts tear_down
    call_deinit leave_loop end_stream
ran-starts = refl

one_slot : AllSound (accepted ∷ [])
one_slot = also (plain refl) no_slots

owes_none : owed_all the_finalizer (accepted ∷ []) ≡ 0
unfolding owed_all
owes_none = refl

serve-finalized_example :
    finals the_finalizer (or_else ran).2.1.effects ≡ starts the_finalizer (or_else ran).2.1.effects
serve-finalized_example =
    serve-finalized reference world stops (λ state w. record w { state = state }) the_finalizer 2 3
      (accepted ∷ []) asked stops-CallsBack one_slot owes_none refl ran_done
