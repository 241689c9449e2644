-- ===== src/Server/Responding.antt =====
-- How src/http_server.c puts a response into a slot's send buffer: bs_write, the responses of the
-- server itself, serialize_and_send, and the end of a streamed body.
pub mod Fits
use http_c.Prelude.{
  ℕ, ◌+◌, ◌%◌, ◌^◌, Bool, true, false, not, ◌||◌, Option, none, some, List, [], ◌∷◌, ◌++◌, length,
  ltb, if◌then◌else◌,
}
use http_c.Common.{Bytes, HlResult, ResultCode, ok, error}
use http_c.Span.{CommonLib}
use http_c.Headers
use http_c.Headers.{Headers, no_headers}
use http_c.Request.{Request}
use http_c.Response
use http_c.Response.{Response}
use http_c.RequestParser.{header_content_length}
use http_c.Server.{Slot, SlotState}

-- HTTP_VERSION_1_1
abbrev pub http_version_1_1 : Bytes
http_version_1_1 = b'H' ∷ b'T' ∷ b'T' ∷ b'P' ∷ b'/' ∷ b'1' ∷ b'.' ∷ b'1' ∷ []

-- HDR_CONNECTION
abbrev pub header_connection : Bytes
header_connection = b'C' ∷ b'o' ∷ b'n' ∷ b'n' ∷ b'e' ∷ b'c' ∷ b't' ∷ b'i' ∷ b'o' ∷ b'n' ∷ []

-- HDR_VAL_CLOSE
abbrev pub header_value_close : Bytes
header_value_close = b'c' ∷ b'l' ∷ b'o' ∷ b's' ∷ b'e' ∷ []

-- HDR_VAL_ZERO
abbrev pub header_value_zero : Bytes
header_value_zero = b'0' ∷ []

-- prepare_default_response
unfoldable pub prepare_default_response : Bytes → Bytes → Response
prepare_default_response code reason = record {
  http_version = http_version_1_1;
  code = code;
  reason_phrase = reason;
  headers = no_headers;
  body = [];
  body_provider = none;
  body_finalizer = none;
  body_provider_context = none;
}

-- buffer_stream_t: the bytes in use, of a buffer of that capacity
pub record BufferStream : Type 0 where
  pub capacity : ℕ
  pub used : Bytes
  pub overflowed : Bool

-- bs_write
unfoldable pub bs_write : Bytes → BufferStream → BufferStream × ResultCode
bs_write bytes stream =
    if ltb stream.capacity ((length stream.used + length bytes) % 2 ^ 32)
    then (record stream { overflowed = true }, error)
    else (record stream { used = stream.used ++ bytes }, ok)

-- stream_finalize: the slot, and the finalizer that is called with its context
unfoldable pub stream_finalize : Slot → Slot × Option (ℕ × Option ℕ)
stream_finalize slot =
    if slot.stream_active
    then (
      record slot {
        stream_active = false;
        stream_eof = false;
        stream_provider = none;
        stream_finalizer = none;
        stream_ctx = none;
      },
      elim slot.stream_finalizer [
        | none ↦ none
        | some finalizer ↦ some (finalizer, slot.stream_ctx)
      ],
    )
    else (slot, none)

-- What a slot does next: slot_close, or slot_arm for writing.
pub data Next : Type 0 where
  closes arms_write : Next

-- the start of serialize_and_send: a streamed body is remembered on the slot
unfoldable pub take_stream : Slot → Response → Slot × Response
take_stream slot response = elim response.body_provider [
  | none ↦ (slot, response)
  | some provider ↦ (
    record slot {
      stream_active = true;
      stream_eof = false;
      stream_provider = some provider;
      stream_finalizer = response.body_finalizer;
      stream_ctx = response.body_provider_context;
    },
    record response { body = [] },
  )
]

abbrev or_empty : Headers → Option Headers → Headers
or_empty empty none = empty
or_empty empty (some headers) = headers

module _ (lib : CommonLib) where
  -- the test of client_wants_close on what http_headers_find answered
  abbrev pub says_close : HlResult × Option Bytes → Bool
  says_close (HlResult.ok, some value) = lib.icompare_is_zero value header_value_close
  says_close (_, _) = false

  -- client_wants_close
  unfoldable pub client_wants_close : Request → Bool
  client_wants_close request =
      says_close (Headers.find lib (some request.headers) header_connection)
      || not (lib.compare_is_zero request.http_version http_version_1_1)

  -- the end of serialize_and_send, on what the serialiser answered
  unfoldable pub finish_serialize : ℕ → Slot → BufferStream × ResultCode → Slot × Next
  finish_serialize now slot (stream, result) =
      if lib.is_error result || stream.overflowed then (slot, closes) else (
        record slot {
          send = stream.used;
          send_offset = 0;
          state = SlotState.sending;
          last_activity_ms = now;
        },
        arms_write,
      )

  -- serialize_and_send; the buffer is left as it is modelled where the slot is closed
  unfoldable pub serialize_and_send : ℕ → Slot → Response → Slot × Next
  unfolding take_stream finish_serialize bs_write
  serialize_and_send now slot response =
      let (slot', response') = take_stream slot response in
      finish_serialize now slot' (
        Response.serialize_to lib bs_write (some response')
          (record { capacity = slot.send_buffer_size; used = []; overflowed = false }))

  -- the response of the server itself, framed by "Content-Length: 0" in that header buffer
  unfoldable pub framed_response : Bytes → Bytes → Bytes → Response
  unfolding prepare_default_response
  framed_response default_headers code reason =
      let empty : Headers = record { buffer = default_headers; used_size = 0; iterator = [] } in
      let (headers, _) = Headers.add lib (some empty) header_content_length header_value_zero in
      record (prepare_default_response code reason) { headers = or_empty empty headers }

  -- respond_with_status
  unfoldable pub respond_with_status : ℕ → Slot → Bytes → Bytes → Slot × Next
  unfolding serialize_and_send framed_response
  respond_with_status now slot code reason =
      serialize_and_send now slot (framed_response slot.default_headers code reason)
