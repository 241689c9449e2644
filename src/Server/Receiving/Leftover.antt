-- ===== src/Server/Receiving/Leftover.antt =====
-- After a response the receive buffer holds what is behind its request.
use http_c.Prelude.{
  ℕ, ◌≡◌, sym, ap, ◌∙◌, ◌++◌, append_assoc, length, length-append, drop, drop-append, arith, ltb,
  false,
}
use http_c.Common.{Bytes, ok}
use http_c.Span.{CommonLib}
use http_c.RequestParser.{init, feed_parser, consumed}
use http_c.RequestParser.Chunks.{IsSmall}
use http_c.RequestParser.Framing.{feed_frames}
use http_c.Server.{Slot}
use http_c.Server.Receiving.{keep_leftover}

-- Where the receive buffer held an accepted request and its parts' lengths add up in 32 bits, it
-- holds exactly the bytes behind the request's head and body after the response.
pub keep_leftover-rest :
    (lib : CommonLib) (now : ℕ) (slot : Slot)
    → feed_parser lib init slot.recv ≡ (slot.parser, ok)
    → IsSmall slot.parser
    → (head : Bytes) × (rest : Bytes) × (slot.recv ≡ head ++ (slot.parser.request.body ++ rest))
      × (length head ≡ slot.parser.headers_end)
      × ((keep_leftover now slot).recv ≡ rest)
unfolding keep_leftover
keep_leftover-rest lib now slot fed small =
    let (head, rest, text, head_size, body_size, taken) = feed_frames lib slot.recv fed small in
    let body = slot.parser.request.body in
    let whole : slot.recv ≡ (head ++ body) ++ rest = text ∙ sym (append_assoc head body rest) in
    let l1 = ap length whole in
    let l2 = length-append (head ++ body) rest in
    let l3 = length-append head body in
    let inside : ltb (length slot.recv) (consumed slot.parser) ≡ false = ground arith in
    (
      head,
      rest,
      text,
      head_size,
      rw inside (
          ap (drop (consumed slot.parser)) whole
          ∙ drop-append (consumed slot.parser) (head ++ body) rest (omega arith)),
    )
