-- ===== src/Examples/RequestParser.antt =====
-- Runs of the incremental request parser.
use http_c.Prelude.{◌+◌, ◌<◌, ◌≡◌, refl, some, List, [], ◌∷◌, ◌++◌, arith, length, flatten}
use http_c.Common.{Bytes, ok}
use http_c.Span.Reference.{reference}
use http_c.Headers.{find, parse, trim_optional_whitespace}
use http_c.RequestParser.{Parser, init, consumed, feed_parser, parse_head, find_headers_end}
use http_c.RequestParser.Chunks.{IsSmall, receive, receive-flatten}
use http_c.RequestParser.Framing.{Declares, feed_frames, feed-Declares, feed_wraps}
use http_c.Prelude.Text.{bytes}

abbrev post : Bytes
post = bytes "PUT /a HTTP/1.1\r\ncontent-length: 3\r\n\r\nxyz"

abbrev after_post : Parser
after_post = (feed_parser reference init post).0

post_ok : feed_parser reference init post ≡ (after_post, ok)
unfolding feed_parser reference find parse trim_optional_whitespace
post_ok = refl

post-IsSmall : IsSmall after_post
unfolding feed_parser reference find parse trim_optional_whitespace
post-IsSmall = omega arith

feed_frames_example :
    (head rest : Bytes) × (post ≡ head ++ (after_post.request.body ++ rest))
    × (length head ≡ after_post.headers_end)
    × (length after_post.request.body ≡ after_post.content_length)
    × (consumed after_post ≡ length head + length after_post.request.body)
feed_frames_example = feed_frames reference post post_ok post-IsSmall

feed-Declares_example : Declares reference after_post.request.headers after_post.content_length
feed-Declares_example = feed-Declares reference post post_ok post-IsSmall

abbrev pieces : List Bytes
pieces =
    bytes "PUT /a HTTP/1.1\r\ncont" ∷ bytes "ent-length: 3\r\n\r" ∷ bytes "\nx" ∷ bytes "yz" ∷ []

pieces-IsSmall : IsSmall (feed_parser reference init (flatten pieces)).0
unfolding feed_parser reference find parse trim_optional_whitespace flatten
pieces-IsSmall = omega arith

receive-flatten_example :
    receive reference init [] pieces ≡ feed_parser reference init (flatten pieces)
receive-flatten_example = receive-flatten reference pieces pieces-IsSmall

-- A declared length of 2 ^ 32 - 1: the sum with the length of the head wraps.
abbrev huge : Bytes
huge = bytes "PUT /a HTTP/1.1\r\nContent-Length: 4294967295\r\n\r\n"

abbrev huge_head : Parser
huge_head = (parse_head reference init huge 47).0

huge_found : find_headers_end reference huge ≡ some 47
unfolding feed_parser reference
huge_found = refl

huge_parsed : parse_head reference init huge 47 ≡ (huge_head, ok)
unfolding parse_head reference find parse trim_optional_whitespace
huge_parsed = refl

huge_length : huge_head.content_length ≡ 4294967295
unfolding parse_head reference find parse trim_optional_whitespace
huge_length = refl

feed_wraps_example :
    (p : Parser) × (feed_parser reference init huge ≡ (p, ok))
    × (length huge < p.headers_end + p.content_length)
    × (consumed p < p.headers_end)
feed_wraps_example =
    feed_wraps reference huge 47 huge_found huge_parsed (omega (arith, huge_length))
      (omega (arith, huge_length)) (omega arith)
