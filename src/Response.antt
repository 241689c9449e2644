-- ===== src/Response.antt =====
-- inc/http_response.h and src/http_response.c: a response, its checks, and its text on a stream.
pub mod Text
pub mod Bounds
use http_c.Prelude.{ℕ, ◌||◌, Option, none, some, [], ◌+◌, length, if◌then◌else◌}
use http_c.Common.{Bytes, ResultCode, ok, error, invalid_argument, crlf, space, headers_terminator}
use http_c.Span.{CommonLib}
use http_c.Headers
use http_c.Headers.{Headers, no_headers, is_empty, parsed}
use http_c.Request.{◌>>◌, succeed, write_body}

-- http_response_t. A function or context pointer is an opaque number, `none` is NULL.
pub record Response : Type 0 where
  pub http_version : Bytes
  pub code : Bytes
  pub reason_phrase : Bytes
  pub headers : Headers
  pub body : Bytes
  pub body_provider : Option ℕ
  pub body_finalizer : Option ℕ
  pub body_provider_context : Option ℕ

-- http_response_initialize; `none` is a NULL pointer. The provider fields keep what they hold.
unfoldable pub initialize :
    Option Response → Bytes → Bytes → Bytes → Headers → Option Response × ResultCode
initialize none http_version code reason_phrase headers = (none, invalid_argument)
initialize (some response) http_version code reason_phrase headers =
    if is_empty http_version || is_empty code || is_empty reason_phrase
    then (some response, invalid_argument)
    else (
      some (record response {
        http_version = http_version;
        code = code;
        reason_phrase = reason_phrase;
        headers = headers;
        body = [];
      }),
      ok,
    )

-- http_response_set_body
unfoldable pub set_body : Option Response → Bytes → Option Response × ResultCode
set_body none body = (none, invalid_argument)
set_body (some response) body = (some (record response { body = body }), ok)

module _ (lib : CommonLib) where
  -- The header block and the body behind the status line: split at the first blank line.
  parse_rest : Response → Bytes → Option (ℕ × Bytes) → Response × ResultCode
  parse_rest response raw none = (record response { headers = parsed lib raw }, ok)
  parse_rest response raw (some (term, body)) = (
    record response { headers = parsed lib (lib.slice raw 0 (term + length crlf)); body = body },
    ok,
  )

  parse_line : Response → Bytes → Response × ResultCode
  unfolding parse_rest
  parse_line response raw_response = elim (lib.split raw_response 0 space) [
    | none ↦ (response, error)
    | some (version, raw1) ↦
        let response1 = record response { http_version = version } in
        elim (lib.split raw1 0 space) [
          | none ↦ (response1, error)
          | some (code, raw2) ↦
              let response2 = record response1 { code = code } in
              elim (lib.split raw2 0 crlf) [
                | none ↦ (response2, error)
                | some (reason, raw3) ↦
                    parse_rest (record response2 { reason_phrase = reason }) raw3
                      (lib.find raw3 0 headers_terminator)
              ]
        ]
  ]

  -- http_response_parse
  unfoldable pub parse : Option Response → Bytes → Option Response × ResultCode
  unfolding parse_line
  parse none raw_response = (none, invalid_argument)
  parse (some response) raw_response =
      if is_empty raw_response
      then (some response, invalid_argument)
      else let (response', result) = parse_line (record response { body = [] }) raw_response in
        (some response', result)

  -- http_response_serialize_to: `write` is stream_write
  module _ {ℓ} {S : Type ℓ} where
    unfoldable pub serialize_to :
        (Bytes → S → S × ResultCode) → Option Response → S → S × ResultCode
    serialize_to write none s = (s, invalid_argument)
    serialize_to write (some response) s =
        ◌>>◌ lib (write response.http_version)
          (◌>>◌ lib (write space) (
            ◌>>◌ lib (write response.code) (
              ◌>>◌ lib (write space) (
                ◌>>◌ lib (write response.reason_phrase) (
                  ◌>>◌ lib (write crlf) (
                    ◌>>◌ lib (Headers.serialize_to lib write (some response.headers)) (
                      ◌>>◌ lib (write crlf)
                        (◌>>◌ lib (write_body lib write response.body) (succeed lib)))))))))
          s
