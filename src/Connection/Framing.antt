-- ===== src/Connection/Framing.antt =====
-- src/http_connection.c: which bytes are the body of a response, as its status and its header fields
-- say.
use http_c.Prelude.{
  ℕ, ◌-◌, Bool, true, false, not, ◌&&◌, ◌||◌, Option, none, some, [], ◌∷◌, length, get_or, leb,
  ◌==◌, if◌then◌else◌,
}
use http_c.Prelude.Text.{bytes}
use http_c.Common.{Bytes, HlResult}
use http_c.Span.{CommonLib}
use http_c.Headers
use http_c.Headers.{is_empty}
use http_c.Response.{Response}
use http_c.Connection.{Connection}

-- response_body_framing_t
pub data BodyFraming : Type 0 where
  no_body content_length chunks close : BodyFraming

-- HDR_CONTENT_LENGTH and HDR_TRANSFER_ENCODING
abbrev pub hdr_content_length : Bytes
hdr_content_length = bytes "Content-Length"

abbrev pub hdr_transfer_encoding : Bytes
hdr_transfer_encoding = bytes "Transfer-Encoding"

-- Whether the text starts with those lower-case letters, in either case.
abbrev pub starts_with : Bytes → Bytes → Bool
starts_with [] s = true
starts_with (l ∷ letters) [] = false
starts_with (l ∷ letters) (c ∷ s) = (c == l || c == l - 32) && starts_with letters s

-- transfer_encoding_is_chunked
unfoldable pub transfer_encoding_is_chunked : Bytes → Bool
transfer_encoding_is_chunked [] = false
transfer_encoding_is_chunked (c ∷ te) =
    starts_with (bytes "chunked") (c ∷ te) || transfer_encoding_is_chunked te

module _ (lib : CommonLib) where
  -- the length that a Content-Length header declares
  abbrev declared : Option ℕ → Option (BodyFraming × ℕ)
  declared none = none
  declared (some n) = if n == 0 then some (no_body, 0) else some (content_length, n)

  abbrev coded : HlResult × Option Bytes → Option (BodyFraming × ℕ)
  coded (HlResult.ok, some value) =
      if transfer_encoding_is_chunked value then some (chunks, 0) else some (close, 0)
  coded _ = some (close, 0)

  abbrev sized : Response → HlResult × Option Bytes → Option (BodyFraming × ℕ)
  sized response (HlResult.ok, some value) = declared (lib.to_uint32 value)
  sized response _ = coded (Headers.find lib (some response.headers) hdr_transfer_encoding)

  abbrev by_status : Connection → Response → Option ℕ → Option (BodyFraming × ℕ)
  by_status connection response none = none
  by_status connection response (some status) =
      if (leb 100 status && leb status 199)
        || (status == 204 || (status == 304 || connection.awaiting_response_to_head))
      then some (no_body, 0)
      else sized response (Headers.find lib (some response.headers) hdr_content_length)

  -- determine_response_body_framing; `none` where it answers error
  unfoldable pub determine_response_body_framing : Connection → Response → Option (BodyFraming × ℕ)
  determine_response_body_framing connection response =
      if length response.code == 3
      then by_status connection response (lib.to_uint32 response.code)
      else none

  -- the flag after a response that is not an interim one
  unfoldable pub answered : Connection → Response → Connection
  answered connection response =
      if length response.code == 3 && not (get_or response.code 0 0 == b'1')
      then record connection { awaiting_response_to_head = false }
      else connection
