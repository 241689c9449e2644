-- ===== src/Examples/Loop.antt =====
-- A connection that asks for a streamed body, up to the end of the server.
use http_c.Prelude.{
  ap, iterate, ℕ, zero, suc, ◌+◌, ◌<◌, ◌≡◌, refl, true, false, Option, none, some, List, [], ◌∷◌,
  take, drop, length, get_elem?, arith, ◌==◌,
}
use http_c.Prelude.Text.{bytes}
use http_c.Common.{Bytes, ok, try_again}
use http_c.Span.Reference.{reference}
use http_c.Headers.{find, parse, trim_optional_whitespace}
use http_c.Response.{Response}
use http_c.Server.{Slot}
use http_c.Server.Receiving.{Read, got, blocked}
use http_c.Server.Loop.{Env, Shared, slot_arm, call_now, ServerState, running, respond}
use http_c.Server.Loop.Driving.{on_connection_io}
use http_c.Server.Loop.Finalizers.{Chosen, Keeps, starts, finals, owed, plain}
use http_c.Server.Loop.Finalizers.Events.{on_connection_io-Keeps}
use http_c.Server.Loop.Finalizers.Rounds.{AllSound, no_slots, also, owed_all}
use http_c.Server.Loop.Finalizers.Served.{Runs-accounted}
use http_c.Server.Loop.Steps.{Runs, start, step, io}
use http_c.Server.Loop.Termination.{ReadsSome, Drains, on_connection_io-total}
use http_c.Server.Loop.Table.{sweep_idle_connections, tear_down}
use http_c.Server.Loop.Sweeps.{HasTimedOut, sweep_idle_connections-closes, tear_down-unused}
use http_c.RequestParser.{feed_parser}
use http_c.Headers
use http_c.Request.{write_body}
use http_c.Response
use http_c.Server.Routes.{dispatch}
use http_c.Server.Responding.{serialize_and_send, prepare_default_response}
use http_c.Server.Loop.Answering.{run_handler_and_serialize}
use http_c.Examples.Server.{idle_since}
use http_c.Examples.Routes.{get_a, same_path}

-- What the peer has sent, the chunks that a body still has, and the state of the server.
pub record Peer : Type 0 where
  pub input : Bytes
  pub chunks : ℕ
  pub state : ServerState

abbrev read_some : ℕ → Bytes → Read × Bytes
read_some zero input = (blocked, input)
read_some (suc n) [] = (blocked, [])
read_some (suc n) (c ∷ input) = (got (c ∷ take n input), drop n input)

abbrev next_chunk : ℕ → Bytes × ℕ
next_chunk zero = ([], 0)
next_chunk (suc n) = (b'x' ∷ [], n)

abbrev pub streamed : Response → Response
streamed response = record response {
  body_provider = some 1;
  body_finalizer = some 5;
  body_provider_context = some 9;
}

-- The time stands still, and a socket takes what it is given.
abbrev pub world : Env
world = record {
  World = Peer;
  Pattern = Bytes;
  now_ms = λ w. (1000, w);
  server_get_state = λ w. (w.state, w);
  socket_read_nb = λ sd size w.
      let (answer, input) = read_some size w.input in (answer, record w { input = input });
  socket_write_nb = λ sd text w. (length text, ok, w);
  socket_handshake_nb = λ sd w. (ok, w);
  socket_get_io_want = λ sd w. (true, false);
  socket_deinit = λ sd w. w;
  socket_accept_nb = λ w. (try_again, none, w);
  event_loop_register = λ fd events w. (ok, w);
  event_loop_modify = λ fd events w. (ok, w);
  event_loop_unregister = λ fd w. w;
  stream_provider = λ f ctx size w.
      let (chunk, chunks) = next_chunk w.chunks in (chunk, record w { chunks = chunks });
  stream_finalizer = λ f ctx w. w;
  handler = λ f ctx request captures response w. (respond, streamed response, w);
  event_read = 1;
  event_write = 2;
  event_both = 3;
  listen_sd = some 3;
  routes = get_a ∷ [];
  match_path = same_path;
  pending_timeout_ms = 30000;
  idle_timeout_ms = 30000;
}

abbrev pub asked : Shared Peer
asked = record {
  listen_registered = true;
  world = record { input = bytes "GET /a HTTP/1.1\r\n\r\n"; chunks = 2; state = running };
  effects = [];
}

abbrev or_before : Option (Slot × Shared Peer) → Slot × Shared Peer
or_before none = (idle_since 500, asked)
or_before (some s) = s

abbrev answered : Slot × Shared Peer
answered = or_before (on_connection_io reference world false 20 (idle_since 500) asked)

answered_done :
    on_connection_io reference world false 20 (idle_since 500) asked ≡ some (answered.0, answered.1)
unfolding on_connection_io reference find parse trim_optional_whitespace iterate feed_parser
answered_done = refl

-- The finalizer of the streamed body is counted.
abbrev pub the_finalizer : Chosen
the_finalizer finalizer ctx = finalizer == 5

answered_owes : (starts the_finalizer answered.1.effects ≡ 1) × (owed the_finalizer answered.0 ≡ 1)
unfolding on_connection_io reference find parse trim_optional_whitespace iterate feed_parser starts
    owed run_handler_and_serialize dispatch serialize_and_send Response.serialize_to
    prepare_default_response Headers.serialize_to write_body slot_arm
answered_owes = (refl, refl)

on_connection_io-Keeps_example :
    Keeps the_finalizer (idle_since 500) [] answered.0 answered.1.effects
on_connection_io-Keeps_example =
    on_connection_io-Keeps the_finalizer reference world false 20 (idle_since 500) asked
      (plain refl) refl answered_done

one_slot : AllSound (idle_since 500 ∷ [])
one_slot = also (plain refl) no_slots

owes_none : owed_all the_finalizer (idle_since 500 ∷ []) ≡ 0
unfolding owed_all
owes_none = refl

answers : Runs reference world (idle_since 500 ∷ [], asked) (answered.0 ∷ [], answered.1)
answers = step start (
    io false 20 0 (idle_since 500 ∷ []) asked (idle_since 500) answered.0 answered.1 refl refl
      answered_done)

Runs-accounted_example :
    AllSound (answered.0 ∷ [])
    × (starts the_finalizer answered.1.effects
        ≡ owed_all the_finalizer (answered.0 ∷ []) + finals the_finalizer answered.1.effects)
Runs-accounted_example =
    Runs-accounted the_finalizer reference world (idle_since 500 ∷ []) asked one_slot owes_none refl
      answers

read_bytes :
    (size : ℕ) (input : Bytes) {text : Bytes}
    → (read_some size input).0 ≡ got text
    → 0 < length text
read_bytes zero input e = absurd (ground arith)
read_bytes (suc size) [] e = absurd (ground arith)
read_bytes (suc size) (c ∷ input) e = ground arith

reads_some : ReadsSome reference world
unfolding ReadsSome
reads_some sd size w w' text e = read_bytes size w.input (ap (λ (answer : Read × Peer). answer.0) e)

chunk_taken : (n : ℕ) → 0 < length (next_chunk n).0 → (next_chunk n).1 < n
chunk_taken zero h = absurd (omega arith)
chunk_taken (suc n) h = omega arith

abbrev drains : Drains reference world
drains = record {
  left = λ w. w.chunks;
  pull = λ f ctx size w more. chunk_taken w.chunks more;
  write = λ sd text w. omega arith;
  clock = λ w. omega arith;
}

on_connection_io-total_example :
    (s : Slot × Shared Peer) × (on_connection_io reference world false 5000 (idle_since 500) asked
      ≡ some s)
on_connection_io-total_example =
    on_connection_io-total reference world drains reads_some false 5000 (idle_since 500) asked
      (omega arith) (omega arith)

-- a connection without progress for longer than the timeout
abbrev late : List Slot
late = idle_since 0 ∷ idle_since 900 ∷ []

abbrev at_40000 : Env
at_40000 = record world { now_ms = λ w. (40000, w) }

sweep_idle_connections-closes_example :
    (slot' : Slot) × (get_elem? (sweep_idle_connections reference at_40000 late asked).0 0
      ≡ some slot')
    × (HasTimedOut reference at_40000 40000 (idle_since 0) → slot'.in_use ≡ false)
    × ((HasTimedOut reference at_40000 40000 (idle_since 0) → ⊥) → slot' ≡ idle_since 0)
unfolding call_now
sweep_idle_connections-closes_example =
    sweep_idle_connections-closes reference at_40000 late asked 0 (idle_since 0) refl refl

tear_down-unused_example :
    ((tear_down reference world 3 late asked).1.listen_registered ≡ false)
    × ((i : ℕ) (slot : Slot)
        → get_elem? late i ≡ some slot
        → (slot' : Slot) × (get_elem? (tear_down reference world 3 late asked).0 i ≡ some slot')
          × (slot'.in_use ≡ false))
tear_down-unused_example = tear_down-unused reference world 3 late asked
