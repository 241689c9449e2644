-- ===== src/Connection/Requests/Message.antt =====
-- maybe_read_body and http_connection_receive_request of src/http_connection.c.
use http_c.Prelude.{ℕ, ◌-◌, Option, none, some, length, leb, ◌==◌, if◌then◌else◌}
use http_c.Prelude.Rounds.{within}
use http_c.Common.{Bytes, ResultCode, HlResult, ok, error, invalid_argument}
use http_c.Span.{CommonLib}
use http_c.Headers
use http_c.Headers.{Headers}
use http_c.Request
use http_c.Request.{Request}
use http_c.Connection.{Connection, Peer, Io}
use http_c.Connection.Window.{stored}
use http_c.Connection.Framing.{
  transfer_encoding_is_chunked, hdr_content_length, hdr_transfer_encoding,
}
use http_c.Connection.Receiving.{Head, read_until_headers_complete, is_ended_result}
use http_c.Connection.Requests.{Remaining, read_chunked_body, read_remaining_body}

module _ (lib : CommonLib) (peer : Peer) where
  open peer use {World}

  -- The result, the body that is set, and what was done on the stream.
  abbrev pub Read : Type 0
  Read = Option (ResultCode × Bytes × Io World)

  abbrev pub of_remaining : Option (ResultCode × Remaining lib peer) → Read
  of_remaining none = none
  of_remaining (some (result, s)) = some (result, s.body_so_far, s.io)

  -- maybe_read_body, where Content-Length is a number or not one
  unfoldable pub by_length : ℕ → Connection → Bytes → Bytes → Io World → Option ℕ → Read
  by_length fuel connection body free_buffer io none = some (error, body, io)
  by_length fuel connection body free_buffer io (some n) =
      if n == 0
      then some (ok, body, io)
      else of_remaining (read_remaining_body lib peer fuel connection body free_buffer n io)

  -- maybe_read_body, by what Transfer-Encoding says
  unfoldable pub by_encoding :
      ℕ → Connection → Bytes → Bytes → Io World → HlResult × Option Bytes → Read
  by_encoding fuel connection body free_buffer io (HlResult.ok, some te_value) =
      if transfer_encoding_is_chunked te_value
      then elim (read_chunked_body lib peer fuel connection body free_buffer io) [
        | none ↦ none
        | some (result, raw) ↦
            if lib.is_error result
            then some (result, body, raw.io)
            else some (ok, stored raw.window, raw.io)
      ]
      else some (ok, body, io)
  by_encoding fuel connection body free_buffer io found = some (ok, body, io)

  unfoldable pub by_fields :
      ℕ → Connection → Headers → Bytes → Bytes → Io World → HlResult × Option Bytes → Read
  by_fields fuel connection headers body free_buffer io (HlResult.ok, some value) =
      by_length fuel connection body free_buffer io (lib.to_uint32 value)
  by_fields fuel connection headers body free_buffer io found =
      by_encoding fuel connection body free_buffer io
        (Headers.find lib (some headers) hdr_transfer_encoding)

  -- maybe_read_body
  unfoldable pub maybe_read_body : ℕ → Connection → Headers → Bytes → Bytes → Io World → Read
  maybe_read_body fuel connection headers body free_buffer io =
      by_fields fuel connection headers body free_buffer io
        (Headers.find lib (some headers) hdr_content_length)

  -- What http_connection_receive_request leaves: *request, and the size of *out_buffer_remainder.
  pub record Asked : Type 0 where
    pub request : Option Request
    pub remainder_size : ℕ
    pub io : Io World

  abbrev pub finish_request : Request → Bytes → ResultCode × Bytes × Io World → ResultCode × Asked
  finish_request request remainder (result, body, io) =
      let request' = record request { body = body } in
      if lib.is_error result
      then (result, record { request = some request'; remainder_size = 0; io = io })
      else (
        ok,
        record {
          request = some request';
          remainder_size =
              if leb (length body) (length remainder) then length remainder - length body else 0;
          io = io;
        },
      )

  abbrev pub finished : Request → Bytes → Read → Option (ResultCode × Asked)
  finished request remainder none = none
  finished request remainder (some read) = some (finish_request request remainder read)

  -- behind http_request_parse
  unfoldable pub follow_request :
      ℕ → Connection → Bytes → Io World → Option Request × ResultCode → Option (ResultCode × Asked)
  follow_request fuel connection remainder io (none, result) =
      some (result, record { request = none; remainder_size = 0; io = io })
  follow_request fuel connection remainder io (some request, result) =
      if lib.is_error result
      then some (result, record { request = some request; remainder_size = 0; io = io })
      else finished request remainder
          (maybe_read_body fuel connection request.headers request.body remainder io)

  -- Behind read_until_headers_complete. It sets its outputs only when it answers ok: on the other
  -- results that are no error, the code goes on with what the locals `received` and `remainder`
  -- happened to hold.
  unfoldable pub follow_received :
      ℕ
      → Connection
      → Request
      → Bytes × Bytes
      → ResultCode
      → Head World
      → Option (ResultCode × Asked)
  follow_received fuel connection request unset result head =
      if lib.is_error result
      then some (result, record { request = some request; remainder_size = 0; io = head.io })
      else if is_ended_result result
      then follow_request fuel connection unset.1 head.io (Request.parse lib (some request) unset.0)
      else follow_request fuel connection head.free head.io
          (Request.parse lib (some request) head.head)

  -- http_connection_receive_request; `none` is a NULL pointer
  unfoldable pub http_connection_receive_request :
      ℕ
      → Option Connection
      → Bytes
      → Option Request
      → Bytes × Bytes
      → Io World
      → Option (ResultCode × Asked)
  http_connection_receive_request fuel (some connection) buffer (some request) unset io =
      within (read_until_headers_complete lib peer fuel connection buffer io)
        (follow_received fuel connection request unset)
  http_connection_receive_request fuel connection buffer request unset io =
      some (invalid_argument, record { request = request; remainder_size = 0; io = io })
