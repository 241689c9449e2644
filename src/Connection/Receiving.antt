-- ===== src/Connection/Receiving.antt =====
-- src/http_connection.c: reading up to the end of the head, and
-- http_connection_receive_response with its streaming variant.
pub mod Framed
pub mod Whole
use http_c.Prelude.{
  ℕ, ◌+◌, ◌-◌, ◌≤◌, ◌≡◌, Bool, true, false, not, ◌&&◌, ◌||◌, Option, none, some, List, [], ◌∷◌,
  ◌++◌, length, take, drop, get_or, ltb, leb, ◌==◌, if◌then◌else◌,
}
use http_c.Prelude.Rounds.{Step, more, done, rounds, within}
use http_c.Prelude.Text.{bytes}
use http_c.Common.{
  Bytes, ResultCode, HlResult, ok, error, invalid_argument, insufficient_size, end_of_data,
  headers_terminator,
}
use http_c.Span.{CommonLib}
use http_c.Headers
use http_c.Headers.{is_empty}
use http_c.Response
use http_c.Response.{Response}
use http_c.Connection.{
  Connection, Peer, Io, Answer, again, ended, failed, arrived, answer_of, call_read, call_deadline,
  call_await,
}
use http_c.Connection.Window.{Window, stored}
use http_c.Connection.Reader.{Reader, pass_through, chunked, until_close}
use http_c.Connection.Framing.{
  BodyFraming, no_body, content_length, chunks, close, determine_response_body_framing, answered,
}

-- What the loop of read_until_headers_complete holds: the bytes received, and what is left of the
-- buffer.
pub record Head (World : Type 0) : Type 0 where
  pub deadline : ℕ
  pub head : Bytes
  pub free : Bytes
  pub io : Io World

abbrev pub is_ended_result : ResultCode → Bool
is_ended_result ResultCode.end_of_data = true
is_ended_result ResultCode.end_of_file = true
is_ended_result _ = false

-- whether bytes are an end of the head
abbrev pub is_found : Option ℕ → Bool
is_found none = false
is_found (some at) = true

module _ (lib : CommonLib) where
  module _ (peer : Peer) where
    open peer use {World}

    -- One round of read_until_headers_complete behind its read.
    unfoldable pub follow_head :
        Connection → Head World → ResultCode → Bytes → Answer → Step ResultCode (Head World)
    follow_head connection head result got again =
        let (wait_result, io) = call_await peer lib head.deadline head.io in
        if lib.is_error wait_result
        then done wait_result (record head { io = io })
        else more (record head { io = io })
    follow_head connection head result got ended = done result head
    follow_head connection head result got failed = done result head
    follow_head connection head result got arrived =
        let (deadline, io) = call_deadline peer lib connection head.io in
        let head' = record head {
          deadline = deadline;
          head = head.head ++ got;
          free = drop (length got) head.free;
          io = io;
        } in
        if is_found (lib.find_reverse head'.head headers_terminator)
        then done ok head'
        else more head'

    unfoldable pub head_round : Connection → Head World → Step ResultCode (Head World)
    head_round connection head =
        if is_empty head.free
        then done insufficient_size head
        else let (result, got, io) = call_read peer lib (length head.free) head.io in
          follow_head connection (record head { io = io }) result got (answer_of lib result)

    -- read_until_headers_complete
    unfoldable pub read_until_headers_complete :
        ℕ → Connection → Bytes → Io World → Option (ResultCode × Head World)
    read_until_headers_complete fuel connection buffer io =
        let (deadline, io') = call_deadline peer lib connection io in
        rounds (head_round connection) fuel
          (record { deadline = deadline; head = []; free = buffer; io = io' })

    -- What receive_response leaves: *response, the connection, and *out_buffer_remainder.
    pub record Exchange : Type 0 where
      pub connection : Connection
      pub response : Response
      pub remainder : Bytes
      pub io : Io World

    -- the reader of a body whose first bytes came with the head
    abbrev pub reader_of :
        Connection → Option ℕ → Option ℕ → Bytes → Bytes → Io World → Reader World
    reader_of connection handler context prefetched free io = record {
      connection = connection;
      window = record {
        buffer = prefetched ++ free;
        start = 0;
        end = length prefetched;
        stored_length = 0;
      };
      body_handler = handler;
      body_handler_context = context;
      io = io;
    }

    -- the switch over the framing
    unfoldable pub read_body :
        ℕ → BodyFraming → ℕ → Reader World → Option (ResultCode × Reader World)
    read_body fuel no_body n reader = some (ok, reader)
    read_body fuel content_length n reader = pass_through lib peer fuel n reader
    read_body fuel chunks n reader = chunked lib peer fuel reader
    read_body fuel close n reader = until_close lib peer fuel reader

    -- the end of receive_response
    unfoldable pub finish_response : Exchange → ResultCode → Reader World → ResultCode × Exchange
    finish_response exchange result reader =
        if lib.is_error result then (result, record exchange { io = reader.io }) else (
          ok,
          record exchange {
            response = elim reader.body_handler [
              | none ↦
                  if ltb 0 reader.window.stored_length
                  then record exchange.response { body = stored reader.window }
                  else exchange.response
              | some handler ↦ exchange.response
            ];
            remainder = drop reader.window.stored_length reader.window.buffer;
            io = reader.io;
          },
        )

    -- receive_response behind determine_response_body_framing
    unfoldable pub follow_framing :
        ℕ → Exchange → Reader World → Option (BodyFraming × ℕ) → Option (ResultCode × Exchange)
    follow_framing fuel exchange reader none = some (error, exchange)
    follow_framing fuel exchange reader (some (framing, n)) =
        let exchange' = record exchange {
          connection = answered lib exchange.connection exchange.response;
        } in
        within (read_body fuel framing n reader)
          (λ result reader'. some (finish_response exchange' result reader'))

    -- receive_response behind its call of http_response_parse
    unfoldable pub follow_parse :
        ℕ
        → Option ℕ
        → Option ℕ
        → Exchange
        → Bytes
        → Option Response × ResultCode
        → Option (ResultCode × Exchange)
    follow_parse fuel handler context exchange free (none, result) = some (result, exchange)
    follow_parse fuel handler context exchange free (some parsed, result) =
        if lib.is_error result
        then some (result, record exchange { response = parsed })
        else let response = record parsed { body = [] } in
          follow_framing fuel (record exchange { response = response })
            (reader_of exchange.connection handler context parsed.body free exchange.io)
            (determine_response_body_framing lib exchange.connection response)

    -- receive_response behind read_until_headers_complete
    unfoldable pub follow_until_head :
        ℕ
        → Connection
        → Option ℕ
        → Option ℕ
        → Response
        → ResultCode
        → Head World
        → Option (ResultCode × Exchange)
    follow_until_head fuel connection handler context response result head =
        let exchange : Exchange = record {
          connection = connection;
          response = response;
          remainder = [];
          io = head.io;
        } in
        if lib.is_error result
        then some (result, exchange)
        else if is_ended_result result
        then some (error, exchange)
        else follow_parse fuel handler context exchange head.free
            (Response.parse lib (some response) head.head)

    -- receive_response
    unfoldable pub receive_response :
        ℕ
        → Connection
        → Bytes
        → Response
        → Option ℕ
        → Option ℕ
        → Io World
        → Option (ResultCode × Exchange)
    receive_response fuel connection buffer response handler context io =
        within (read_until_headers_complete fuel connection buffer io)
          (follow_until_head fuel connection handler context response)

    -- an answer that leaves something behind
    abbrev pub kept_exchange :
        Option (ResultCode × Exchange) → Option (ResultCode × Option Exchange)
    kept_exchange none = none
    kept_exchange (some (result, exchange)) = some (result, some exchange)

    -- http_connection_receive_response; `none` is a NULL pointer, and the answer then leaves all as
    -- it was
    unfoldable pub http_connection_receive_response :
        ℕ
        → Option Connection
        → Bytes
        → Option Response
        → Io World
        → Option (ResultCode × Option Exchange)
    http_connection_receive_response fuel (some connection) buffer (some response) io =
        kept_exchange (receive_response fuel connection buffer response none none io)
    http_connection_receive_response fuel connection buffer response io =
        some (invalid_argument, none)

    -- http_connection_receive_response_streaming
    unfoldable pub http_connection_receive_response_streaming :
        ℕ
        → Option Connection
        → Bytes
        → Option Response
        → Option ℕ
        → Option ℕ
        → Io World
        → Option (ResultCode × Option Exchange)
    http_connection_receive_response_streaming fuel (some connection) header_buffer (some response)
          (some handler) context io =
        kept_exchange
          (receive_response fuel connection header_buffer response (some handler) context io)
    http_connection_receive_response_streaming fuel connection header_buffer response handler
          context io =
        some (invalid_argument, none)
