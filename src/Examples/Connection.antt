-- ===== src/Examples/Connection.antt =====
-- Responses and requests over scripted streams.
use http_c.Prelude.{
  ℕ, zero, suc, ◌%◌, ◌^◌, ◌<◌, ◌≡◌, ◌↔◌, ◌⊎◌, refl, true, false, Option, none, some, List, [], ◌∷◌,
  ◌++◌, arith, length, inl,
}
use http_c.Prelude.Text.{bytes}
use http_c.Prelude.Rounds.{Ran, rounds}
use http_c.Common.{Bytes, ResultCode, HlResult, ok, end_of_data}
use http_c.Span.Reference.{reference}
use http_c.Headers.{find, parse, trim_optional_whitespace}
use http_c.Request
use http_c.Request.{Request, no_request}
use http_c.Response.{Response}
use http_c.Connection.{Connection, Io, answer_of, call_read, await_progress, io_deadline, io_now_ms}
use http_c.Connection.Window.{Window, IsWindow, stored, pending, appended, kept, compacted}
use http_c.Connection.Reader.{
  Reader, digit_of, size_of_line, line_feed, fill, fill_round, follow_fill, deliver, pass_some,
  pass_round, pass_through, follow_search, line_round, read_line, trailer_round, chunk_data,
  follow_size, chunk_round, chunked,
}
use http_c.Connection.ChunkSize.{hex_digit, IsSizeLine, hexadecimal, size_of_line_iff}
use http_c.Connection.ChunkedBody.{Chunks, chunked-Chunks}
use http_c.Connection.Framing.{hdr_content_length}
use http_c.Connection.Receiving.{
  Head, receive_response, read_until_headers_complete, head_round, follow_head,
}
use http_c.Connection.Receiving.Whole.{Answers, receive_response-Answers}
use http_c.Connection.Requests.{
  Remaining, read_size, read_chunked_body, read_remaining_body, remaining_round, follow_remaining,
  ensure_buffered, ensure_round, follow_ensure, skip_round, buffered_size, copy_round, copy_chunk,
  raw_round,
}
use http_c.Connection.Requests.Loose.{IsLoose}
use http_c.Connection.Requests.InPlace.{read_chunked_body-in_place}
use http_c.Connection.Requests.Message.{Asked, http_connection_receive_request}
use http_c.Connection.Requests.Buffered.{read_size-buffered}
use http_c.Connection.Requests.Truncated.{
  Remains, read_remaining_body-Remains, receive_request-cut_short,
}
use http_c.Examples.Scripted.{scripted, script_drains}

abbrev zeros : ℕ → Bytes
zeros zero = []
zeros (suc n) = 0 ∷ zeros n

abbrev plain : Connection
plain = record { endpoint = none; io_timeout_ms = 0; awaiting_response_to_head = false }

abbrev stream_of : List Bytes → Io (List Bytes)
stream_of script = record { world = script; received = []; handed = []; closed = false }

abbrev window_of : Bytes → ℕ → Window
window_of first room = record {
  buffer = first ++ zeros room;
  start = 0;
  end = length first;
  stored_length = 0;
}

abbrev reader_on : Bytes → ℕ → List Bytes → Reader (List Bytes)
reader_on first room script = record {
  connection = plain;
  window = window_of first room;
  body_handler = none;
  body_handler_context = none;
  io = stream_of script;
}

-- a chunked body, cut inside the data and inside the last line
abbrev greeting : Reader (List Bytes)
greeting = reader_on (bytes "5;x=1\r\nhe") 4 (bytes "llo" ∷ bytes "\r\n0\r\n" ∷ bytes "\r\n" ∷ [])

greeting-IsWindow : IsWindow greeting.window
greeting-IsWindow = record { behind = omega arith; ordered = omega arith; inside = omega arith }

abbrev summary : Option (ResultCode × Reader (List Bytes)) → Option (ResultCode × Bytes)
summary none = none
summary (some (result, reader)) = some (result, stored reader.window)

greeting_body : summary (chunked reference scripted 40 greeting) ≡ some (ok, bytes "hello")
unfolding chunked chunk_round follow_size chunk_data trailer_round read_line line_round
    follow_search pass_through pass_round pass_some deliver fill fill_round follow_fill line_feed
    size_of_line digit_of rounds kept appended compacted call_read answer_of io_deadline
    await_progress io_now_ms reference
greeting_body = refl

chunked-Chunks_example :
    Ran (Chunks reference scripted script_drains greeting) (chunked reference scripted 40 greeting)
chunked-Chunks_example =
    chunked-Chunks reference scripted script_drains 40 greeting greeting-IsWindow (omega arith)

size_of_line_iff_example : (size_of_line (bytes "1F; a") ≡ some 31) ↔ IsSizeLine (bytes "1F; a") 31
size_of_line_iff_example = size_of_line_iff (bytes "1F; a") 31

abbrev blank_response : Response
blank_response = record {
  http_version = [];
  code = [];
  reason_phrase = [];
  headers = record { buffer = []; used_size = 0; iterator = [] };
  body = [];
  body_provider = none;
  body_finalizer = none;
  body_provider_context = none;
}

abbrev answer_script : List Bytes
answer_script = bytes "HTTP/1.1 200 OK\r\nContent-Length: 5\r\n\r\nhel" ∷ bytes "lo" ∷ []

receive_response-Answers_example :
    Ran
      (Answers reference scripted script_drains plain blank_response none (stream_of answer_script))
      (receive_response reference scripted 60 plain
        (zeros 64)
        blank_response
        none
        none
        (stream_of answer_script))
receive_response-Answers_example =
    receive_response-Answers reference scripted script_drains 60 plain blank_response none none
      (stream_of answer_script) (omega arith) (zeros 64)

-- a request body that came with the head, and its end
abbrev asking : Io (List Bytes)
asking = stream_of (bytes "c\r\n0\r\n" ∷ [])

abbrev raw_summary : Option (ResultCode × Reader (List Bytes)) → Option (ResultCode × Bytes)
raw_summary = summary

dechunked :
    raw_summary (read_chunked_body reference scripted 40 plain (bytes "3\r\nab") (zeros 20) asking)
    ≡ some (ok, bytes "abc")
unfolding read_chunked_body raw_round read_size copy_chunk copy_round skip_round ensure_buffered
    ensure_round follow_ensure buffered_size digit_of rounds kept appended call_read answer_of
    io_deadline await_progress io_now_ms reference
dechunked = refl

read_chunked_body-in_place_example :
    Ran
      (λ result raw.
        ((result ≡ ok)
          × (got : Bytes) × (c : Bytes) × (rest : Bytes) × (raw.io.received ≡ [] ++ got)
          × (bytes "3\r\nab" ++ got ≡ c ++ rest)
          × IsLoose c (stored raw.window))
        ⊎ (reference.is_error result ≡ true))
      (read_chunked_body reference scripted 40 plain (bytes "3\r\nab") (zeros 20) asking)
read_chunked_body-in_place_example =
    read_chunked_body-in_place reference scripted script_drains 40 plain (bytes "3\r\nab")
      (zeros 20) asking (omega arith) (omega arith)

-- the chunk size 0x10, of which the first digit is in the buffer
abbrev cut_size : Reader (List Bytes)
cut_size = reader_on (bytes "1") 20 (bytes "0\r\n0123456789abcdef\r\n0\r\n" ∷ [])

cut_size-IsWindow : IsWindow cut_size.window
cut_size-IsWindow = record { behind = omega arith; ordered = omega arith; inside = omega arith }

one_digit : hexadecimal 0 (pending cut_size.window) ≡ some 1
unfolding hexadecimal hex_digit
one_digit = refl

read_size-buffered_example :
    Ran
      (λ a r'. ((a.0 ≡ ok) × (a.1 ≡ 1 % 2 ^ 32)) ⊎ (reference.is_error a.0 ≡ true))
      (read_size reference scripted 60 cut_size)
read_size-buffered_example =
    read_size-buffered reference scripted script_drains 60 cut_size 1 cut_size-IsWindow
      (omega arith) (omega arith) one_digit

-- a request that declares five bytes, of which the peer sends three before it closes
abbrev put_head : Bytes
put_head = bytes "PUT / HTTP/1.1\r\nContent-Length: 5\r\n\r\nab"

abbrev put_script : List Bytes
put_script = put_head ∷ bytes "c" ∷ []

abbrev free_space : Bytes
free_space = zeros 8

abbrev put_heard : Head (List Bytes)
put_heard = record {
  deadline = 0;
  head = put_head;
  free = free_space;
  io = record { world = bytes "c" ∷ []; received = put_head; handed = []; closed = false };
}

abbrev put_request : Request
put_request = record no_request {
  method = bytes "PUT";
  path = bytes "/";
  http_version = bytes "HTTP/1.1";
  headers = record {
    buffer = bytes "Content-Length: 5\r\n";
    used_size = 19;
    iterator = bytes "Content-Length: 5\r\n";
  };
  body = bytes "ab";
}

abbrev put_left : Remaining reference scripted
put_left = record {
  deadline = 0;
  body_so_far = bytes "abc";
  free_buffer = zeros 7;
  io = record { world = []; received = put_head ++ bytes "c"; handed = []; closed = true };
}

put_head_read :
    read_until_headers_complete reference scripted 60 plain (zeros 47) (stream_of put_script)
    ≡ some (ok, put_heard)
unfolding read_until_headers_complete head_round follow_head rounds call_read answer_of io_deadline
    await_progress io_now_ms reference
put_head_read = refl

put_parsed : Request.parse reference (some no_request) put_head ≡ (some put_request, ok)
unfolding Request.parse reference parse
put_parsed = refl

put_length :
    find reference (some put_request.headers) hdr_content_length ≡ (HlResult.ok, some (bytes "5"))
unfolding find reference trim_optional_whitespace
put_length = refl

five : reference.to_uint32 (bytes "5") ≡ some 5
unfolding reference
five = refl

put_rest :
    read_remaining_body reference scripted 60 plain put_request.body put_heard.free 5 put_heard.io
    ≡ some (end_of_data, put_left)
unfolding read_remaining_body remaining_round follow_remaining rounds call_read answer_of
    io_deadline await_progress io_now_ms reference
put_rest = refl

receive_request-cut_short_example :
    (asked : Asked reference scripted) × (http_connection_receive_request reference scripted 60
        (some plain)
        (zeros 47)
        (some no_request)
        ([], [])
        (stream_of put_script)
      ≡ some (ok, asked))
    × (asked.request ≡ some (record put_request { body = bytes "abc" }))
    × (length (bytes "abc") < 5)
receive_request-cut_short_example =
    receive_request-cut_short reference scripted script_drains 60 plain (zeros 47) no_request
      ([], []) (stream_of put_script) put_heard put_request (bytes "5") 5 end_of_data put_left
      put_head_read put_parsed put_length five put_rest (inl refl) (omega arith)

read_remaining_body-Remains_example :
    Ran (Remains reference scripted script_drains put_request.body put_heard.io 5) (
      read_remaining_body reference scripted 60 plain put_request.body put_heard.free 5
        put_heard.io)
read_remaining_body-Remains_example =
    read_remaining_body-Remains reference scripted script_drains 60 plain put_request.body
      put_heard.free 5 put_heard.io (omega arith)
