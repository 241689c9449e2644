-- ===== src/Examples/Receiving.antt =====
-- Two requests in one receive buffer.
use http_c.Prelude.{◌≡◌, ◌++◌, refl, arith, length}
use http_c.Common.{Bytes, ok}
use http_c.Span.Reference.{reference}
use http_c.Headers.{find, parse, trim_optional_whitespace}
use http_c.RequestParser.{init, feed_parser, consumed}
use http_c.RequestParser.Chunks.{IsSmall}
use http_c.Server.{Slot}
use http_c.Server.Receiving.{keep_leftover}
use http_c.Server.Receiving.Leftover.{keep_leftover-rest}
use http_c.Examples.Server.{idle_since}
use http_c.Prelude.Text.{bytes}

abbrev pipelined : Bytes
pipelined = bytes "PUT /a HTTP/1.1\r\ncontent-length: 3\r\n\r\nxyzGET /b"

abbrev answered : Slot
answered = record (idle_since 400) {
  recv = pipelined;
  parser = (feed_parser reference init pipelined).0;
}

answered_ok : feed_parser reference init pipelined ≡ (answered.parser, ok)
unfolding feed_parser reference find parse trim_optional_whitespace
answered_ok = refl

answered-IsSmall : IsSmall answered.parser
unfolding feed_parser reference find parse trim_optional_whitespace
answered-IsSmall = omega arith

answered_leftover : (keep_leftover 500 answered).recv ≡ bytes "GET /b"
unfolding keep_leftover feed_parser reference find parse trim_optional_whitespace consumed
answered_leftover = refl

keep_leftover-rest_example :
    (head : Bytes) × (rest : Bytes) × (pipelined ≡ head ++ (answered.parser.request.body ++ rest))
    × (length head ≡ answered.parser.headers_end)
    × ((keep_leftover 500 answered).recv ≡ rest)
keep_leftover-rest_example = keep_leftover-rest reference 500 answered answered_ok answered-IsSmall
