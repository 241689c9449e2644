-- ===== src/RequestParser.antt =====
-- src/http_request_parser.c and inc/http_request_parser.h: the incremental parser. Each call is
-- given all the bytes that the connection has received so far.
pub mod Head
pub mod Chunks
pub mod Framing
pub mod RoundTrip
use http_c.Prelude.{
  ℕ, ◌+◌, ◌%◌, ◌^◌, Bool, true, false, Option, none, some, [], ◌∷◌, ◌==◌, ltb, length,
  if◌then◌else◌,
}
use http_c.Common.{
  Bytes, HlResult, ResultCode, ok, error, invalid_argument, try_again, crlf, space,
  headers_terminator,
}
use http_c.Span.{CommonLib}
use http_c.Headers.{parse, parsed, find}
use http_c.Request.{Request, no_request}

-- http_request_parser_state_t
pub data ParserState : Type 0 where
  request_line headers body complete failed : ParserState

-- http_request_parser_t
pub record Parser : Type 0 where
  pub state : ParserState
  pub request : Request
  pub headers_end : ℕ
  pub content_length : ℕ
  pub has_content_length : Bool

-- "Content-Length" and "Transfer-Encoding"
abbrev pub header_content_length : Bytes
header_content_length =
    b'C' ∷ b'o' ∷ b'n' ∷ b't' ∷ b'e' ∷ b'n' ∷ b't' ∷ b'-' ∷ b'L' ∷ b'e' ∷ b'n' ∷ b'g' ∷ b't' ∷ b'h'
    ∷ []

abbrev pub header_transfer_encoding : Bytes
header_transfer_encoding =
    b'T' ∷ b'r' ∷ b'a' ∷ b'n' ∷ b's' ∷ b'f' ∷ b'e' ∷ b'r' ∷ b'-' ∷ b'E' ∷ b'n' ∷ b'c' ∷ b'o' ∷ b'd'
    ∷ b'i' ∷ b'n' ∷ b'g' ∷ []

-- http_request_parser_init
abbrev pub init : Parser
init = record {
  state = ParserState.request_line;
  request = no_request;
  headers_end = 0;
  content_length = 0;
  has_content_length = false;
}

-- headers_end + content_length, in uint32_t
abbrev pub needed_of : Parser → ℕ
needed_of parser = (parser.headers_end + parser.content_length) % 2 ^ 32

-- http_request_parser_get_consumed
unfoldable pub consumed : Parser → ℕ
consumed parser = elim parser.state [ ParserState.complete ↦ needed_of parser | _ ↦ 0 ]

module _ (lib : CommonLib) where
  -- `none` is -1
  pub find_headers_end : Bytes → Option ℕ
  find_headers_end buffer = elim (lib.find buffer 0 headers_terminator) [
    | none ↦ none
    | some (term, after) ↦ some (term + length headers_terminator)
  ]

  -- parse_head from the Transfer-Encoding lookup on
  finish_head : Parser → ℕ → Parser × ResultCode
  finish_head parser headers_end =
      elim (find lib (some parser.request.headers) header_transfer_encoding).0 [
        | HlResult.ok ↦ (parser, error)
        | _ ↦ (record parser { headers_end = headers_end }, ok)
      ]

  -- the value of Content-Length, converted
  take_length : Parser → ℕ → Option ℕ → Parser × ResultCode
  unfolding finish_head
  take_length parser headers_end none = (parser, error)
  take_length parser headers_end (some cl) =
      finish_head (record parser { content_length = cl; has_content_length = true }) headers_end

  -- parse_head from the Content-Length lookup on
  read_length : Parser → ℕ → HlResult × Option Bytes → Parser × ResultCode
  unfolding take_length
  read_length parser headers_end (HlResult.ok, some value) =
      take_length parser headers_end (lib.to_uint32 value)
  read_length parser headers_end (_, _) = finish_head parser headers_end

  -- parse_head from the stores to parser->request on
  fill_request : Parser → ℕ → Bytes → Bytes → Bytes → Bytes → Parser × ResultCode
  unfolding read_length
  fill_request parser headers_end method path version rest =
      let stored = record parser {
        request = record parser.request {
          method = method;
          path = path;
          http_version = version;
          body = [];
        };
      } in
      let (_, result) = parse lib (some stored.request.headers) rest in
      let filled = record stored {
        request = record stored.request { headers = parsed lib rest };
      } in
      if lib.failed result
      then (filled, error)
      else read_length filled headers_end (find lib (some (parsed lib rest)) header_content_length)

  -- parse_head
  unfoldable pub parse_head : Parser → Bytes → ℕ → Parser × ResultCode
  unfolding fill_request
  parse_head parser buffer headers_end = elim (lib.split (lib.slice buffer 0 headers_end) 0 space) [
    | none ↦ (parser, error)
    | some (method, rest1) ↦ elim (lib.split rest1 0 space) [
      | none ↦ (parser, error)
      | some (path, rest2) ↦ elim (lib.split rest2 0 crlf) [
        | none ↦ (parser, error)
        | some (version, rest3) ↦ fill_request parser headers_end method path version rest3
      ]
    ]
  ]

  -- phase 2 of http_request_parser_feed
  unfoldable pub feed_body : Parser → Bytes → Parser × ResultCode
  feed_body parser buffer =
      if ltb (length buffer) (needed_of parser)
      then (record parser { state = ParserState.body }, try_again)
      else let body =
          if ltb 0 parser.content_length
          then lib.slice buffer parser.headers_end parser.content_length
          else [] in
        (
          record parser {
            request = record parser.request { body = body };
            state = ParserState.complete;
          },
          ok,
        )

  -- phase 1, with the end of the headers found or not
  unfoldable pub feed_head : Parser → Bytes → Option ℕ → Parser × ResultCode
  unfolding parse_head feed_body
  feed_head parser buffer none = (
    record parser {
      state = if length buffer == 0 then ParserState.request_line else ParserState.headers;
    },
    try_again,
  )
  feed_head parser buffer (some end) =
      let (parsed, pr) = parse_head parser buffer end in
      if lib.failed pr
      then (record parsed { state = ParserState.failed }, error)
      else feed_body (record parsed { state = ParserState.body }) buffer

  -- both phases
  unfoldable pub feed_phases : Parser → Bytes → Parser × ResultCode
  unfolding feed_head find_headers_end
  feed_phases parser buffer =
      if parser.headers_end == 0
      then feed_head parser buffer (find_headers_end buffer)
      else feed_body parser buffer

  -- http_request_parser_feed on a parser that is there
  unfoldable pub feed_parser : Parser → Bytes → Parser × ResultCode
  unfolding feed_phases
  feed_parser parser buffer = elim parser.state [
    | ParserState.complete ↦ (parser, ok)
    | ParserState.failed ↦ (parser, error)
    | _ ↦ feed_phases parser buffer
  ]

  -- http_request_parser_feed; `none` is a NULL pointer
  unfoldable pub feed : Option Parser → Bytes → Option Parser × ResultCode
  unfolding feed_parser
  feed none buffer = (none, invalid_argument)
  feed (some parser) buffer = let (parser', r) = feed_parser parser buffer in (some parser', r)
