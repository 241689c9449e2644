-- ===== src/Connection.antt =====
-- inc/http_connection.h and src/http_connection.c: a connection of the blocking side, its clock and
-- its stream, and the functions that only pass a message on.
pub mod Window
pub mod Reader
pub mod Moving
pub mod Filling
pub mod Passing
pub mod Closing
pub mod Lines
pub mod ChunkSize
pub mod Chunked
pub mod ChunkedBody
pub mod Framing
pub mod Receiving
pub mod Requests
use http_c.Prelude.{
  ℕ, ◌+◌, ◌*◌, ◌/◌, ◌%◌, ◌^◌, Bool, true, false, Option, none, some, List, [], ◌∷◌, ◌++◌, leb, ◌==◌,
  if◌then◌else◌,
}
use http_c.Common.{
  Bytes, ResultCode, ok, error, invalid_argument, try_again, end_of_data, end_of_file,
}
use http_c.Span.{CommonLib}
use http_c.Request
use http_c.Request.{Request}
use http_c.Response
use http_c.Response.{Response}
use http_c.Prelude.Text.{bytes}

-- http_connection_t. The endpoint is a pointer, an opaque number; socket and stream are the Peer's.
pub record Connection : Type 0 where
  pub endpoint : Option ℕ
  pub io_timeout_ms : ℕ
  pub awaiting_response_to_head : Bool

-- What a connection calls outside, as functions of a state of the world.
pub record Peer : Type 1 where
  pub World : Type 0
  -- stream_read into that many bytes: the result and the bytes received
  pub stream_read : ℕ → World → ResultCode × Bytes × World
  pub stream_write : Bytes → World → World × ResultCode
  pub stream_close : World → World × ResultCode
  -- clock_gettime(CLOCK_MONOTONIC): seconds and nanoseconds; `none` is a result other than 0
  pub clock_gettime : World → Option (ℕ × ℕ) × World
  pub sched_yield : World → World
  -- a body handler and its context, on a piece of body
  pub body_handler : ℕ → Option ℕ → Bytes → World → ResultCode × World

-- The world, the bytes that were read so far, the bytes that a body handler was given so far, and
-- whether the last read found the stream closed.
pub record Io (World : Type 0) : Type 0 where
  pub world : World
  pub received : Bytes
  pub handed : Bytes
  pub closed : Bool

-- How the loops sort the result of stream_read.
pub data Answer : Type 0 where
  again ended failed arrived : Answer

-- HTTP_METHOD_HEAD
abbrev pub method_head : Bytes
method_head = bytes "HEAD"

-- http_connection_set_endpoint; `none` is a NULL pointer
unfoldable pub set_endpoint : Option Connection → Option ℕ → Option Connection × ResultCode
set_endpoint none endpoint = (none, invalid_argument)
set_endpoint (some connection) none = (some connection, invalid_argument)
set_endpoint (some connection) (some endpoint) =
    (some (record connection { endpoint = some endpoint }), ok)

-- http_connection_get_endpoint; the pointer for the answer is valid
unfoldable pub get_endpoint : Option Connection → Option ℕ × ResultCode
get_endpoint none = (none, invalid_argument)
get_endpoint (some connection) = (connection.endpoint, ok)

module _ (lib : CommonLib) where
  unfoldable pub answer_of : ResultCode → Answer
  answer_of ResultCode.try_again = again
  answer_of ResultCode.end_of_data = ended
  answer_of ResultCode.end_of_file = ended
  answer_of r = if lib.is_error r then failed else arrived

module _ (peer : Peer) where
  open peer use {World}

  -- the time in ms, when the clock answers
  abbrev milliseconds : Option (ℕ × ℕ) → ℕ
  milliseconds none = 0
  milliseconds (some (seconds, nanoseconds)) = (seconds * 1000 + nanoseconds / 1000000) % 2 ^ 64

  -- io_now_ms
  unfoldable pub io_now_ms : World → ℕ × World
  io_now_ms world = let (time, world') = peer.clock_gettime world in (milliseconds time, world')

  -- io_deadline
  unfoldable pub io_deadline : Connection → World → ℕ × World
  io_deadline connection world =
      if connection.io_timeout_ms == 0
      then (0, world)
      else let (now, world') = io_now_ms world in
        ((now + connection.io_timeout_ms) % 2 ^ 64, world')

  -- await_progress
  unfoldable pub await_progress : ℕ → World → ResultCode × World
  await_progress deadline world =
      if deadline == 0
      then (ok, peer.sched_yield world)
      else let (now, world') = io_now_ms world in ((if leb deadline now then error else ok), world')

  module _ (lib : CommonLib) where
    -- the bytes of a read that brings some are put behind those received so far
    abbrev pub noted : Answer → Bytes → Bytes → Bytes
    noted arrived received got = received ++ got
    noted _ received got = received

    abbrev pub is_ended : Answer → Bool
    is_ended ended = true
    is_ended _ = false

    -- stream_read
    unfoldable pub call_read : ℕ → Io World → ResultCode × Bytes × Io World
    call_read room io =
        let (result, got, world) = peer.stream_read room io.world in
        (
          result,
          got,
          record io {
            world = world;
            received = noted (answer_of lib result) io.received got;
            closed = is_ended (answer_of lib result);
          },
        )

    -- io_deadline and await_progress on what the loops share
    abbrev pub call_deadline : Connection → Io World → ℕ × Io World
    call_deadline connection io =
        let (deadline, world) = io_deadline connection io.world in
        (deadline, record io { world = world })

    abbrev pub call_await : ℕ → Io World → ResultCode × Io World
    call_await deadline io =
        let (result, world) = await_progress deadline io.world in
        (result, record io { world = world })

    -- http_connection_send_response
    unfoldable pub send_response : Option Connection → Option Response → World → World × ResultCode
    send_response none response world = (world, invalid_argument)
    send_response (some connection) response world =
        Response.serialize_to lib peer.stream_write response world

    -- http_connection_send_request
    unfoldable pub send_request :
        Option Connection → Option Request → World → Option Connection × World × ResultCode
    send_request none request world = (none, world, invalid_argument)
    send_request (some connection) none world = (some connection, world, invalid_argument)
    send_request (some connection) (some request) world =
        let (world', result) = Request.serialize_to lib peer.stream_write (some request) world in
        (
          some (record connection {
            awaiting_response_to_head = lib.compare_is_zero request.method method_head;
          }),
          world',
          result,
        )

  -- http_connection_close
  unfoldable pub close : Option Connection → World → Option Connection × World × ResultCode
  close none world = (none, world, invalid_argument)
  close (some connection) world =
      let (world', result) = peer.stream_close world in
      (some (record connection { endpoint = none }), world', result)
