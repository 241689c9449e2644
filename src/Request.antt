-- ===== src/Request.antt =====
-- inc/http_request.h and src/http_request.c: a request, its checks, its text on a stream, and the
-- parser of a whole message.
pub mod Text
use http_c.Prelude.{ℕ, ◌+◌, ◌||◌, Option, none, some, [], length, if◌then◌else◌}
use http_c.Common.{Bytes, ResultCode, ok, error, invalid_argument, crlf, space, headers_terminator}
use http_c.Span.{CommonLib}
use http_c.Headers
use http_c.Headers.{Headers, no_headers, is_empty, parsed}

-- http_request_t
pub record Request : Type 0 where
  pub method : Bytes
  pub path : Bytes
  pub http_version : Bytes
  pub headers : Headers
  pub body : Bytes

abbrev pub no_request : Request
no_request = record { method = []; path = []; http_version = []; headers = no_headers; body = [] }

-- http_request_initialize; `none` is a NULL pointer
unfoldable pub initialize :
    Option Request → Bytes → Bytes → Bytes → Headers → Option Request × ResultCode
initialize none method path http_version headers = (none, invalid_argument)
initialize (some request) method path http_version headers =
    if is_empty method || is_empty path || is_empty http_version
    then (some request, invalid_argument)
    else (
      some (record {
        method = method;
        path = path;
        http_version = http_version;
        headers = headers;
        body = [];
      }),
      ok,
    )

-- http_request_set_body
unfoldable pub set_body : Option Request → Bytes → Option Request × ResultCode
set_body none body = (none, invalid_argument)
set_body (some request) body = (some (record request { body = body }), ok)

module _ (lib : CommonLib) where
  -- The header block and the body behind the request line: split at the first blank line.
  parse_rest : Request → Bytes → Option (ℕ × Bytes) → Request × ResultCode
  parse_rest request raw none = (record request { headers = parsed lib raw }, ok)
  parse_rest request raw (some (term, body)) = (
    record request { headers = parsed lib (lib.slice raw 0 (term + length crlf)); body = body },
    ok,
  )

  -- http_request_parse
  unfoldable pub parse : Option Request → Bytes → Option Request × ResultCode
  unfolding parse_rest
  parse none raw_request = (none, invalid_argument)
  parse (some request) raw_request =
      let request0 = record request { body = [] } in
      elim (lib.split raw_request 0 space) [
        | none ↦ (some request0, error)
        | some (method, raw1) ↦
            let request1 = record request0 { method = method } in
            elim (lib.split raw1 0 space) [
              | none ↦ (some request1, error)
              | some (path, raw2) ↦
                  let request2 = record request1 { path = path } in
                  elim (lib.split raw2 0 crlf) [
                    | none ↦ (some request2, error)
                    | some (version, raw3) ↦
                        let (request3, result) =
                          parse_rest (record request2 { http_version = version }) raw3
                            (lib.find raw3 0 headers_terminator) in
                        (some request3, result)
                  ]
            ]
      ]

  module _ {ℓ} {S : Type ℓ} where
    -- one link of the chain of writes: a failure ends it with `error`
    infixr 20 ◌>>◌
    abbrev pub ◌>>◌ : (S → S × ResultCode) → (S → S × ResultCode) → S → S × ResultCode
    ◌>>◌ m k s = let (s', r) = m s in if lib.failed r then (s', error) else k s'

    abbrev pub succeed : S → S × ResultCode
    succeed s = (s, ok)

    -- the last link: a body is written when there is one
    unfoldable pub write_body : (Bytes → S → S × ResultCode) → Bytes → S → S × ResultCode
    write_body write body s = if is_empty body then (s, ok) else write body s

    -- http_request_serialize_to: `write` is stream_write
    unfoldable pub serialize_to : (Bytes → S → S × ResultCode) → Option Request → S → S × ResultCode
    serialize_to write none s = (s, invalid_argument)
    serialize_to write (some request) s =
        (write request.method
            >> write space
            >> write request.path
            >> write space
            >> write request.http_version
            >> write crlf
            >> Headers.serialize_to lib write (some request.headers)
            >> write crlf
            >> write_body write request.body
            >> succeed)
          s
