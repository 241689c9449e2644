-- ===== src/Connection/Receiving/Whole.antt =====
-- receive_response from the first byte of the head to the last of the body.
use http_c.Prelude.{
  ℕ, ◌-◌, ◌≤◌, ◌<◌, ◌≡◌, ◌⊎◌, refl, sym, ap, subst, ◌∙◌, true, Option, none, some, [], ◌++◌,
  append_assoc, arith, length, length-append, take_none, take-append, Bool-cases, inl, inr, ltb,
}
use http_c.Prelude.Rounds.{Ran, Ran-within}
use http_c.Common.{Bytes, ResultCode, ok}
use http_c.Span.{CommonLib}
use http_c.Response
use http_c.Response.{Response}
use http_c.Response.Bounds.{parse-body, parse-ne-none}
use http_c.Connection.{Connection, Peer, Io}
use http_c.Connection.Window.{IsWindow, pending, stored}
use http_c.Connection.Reader.{Reader}
use http_c.Connection.Moving.{Drains}
use http_c.Connection.Framing.{BodyFraming, answered, determine_response_body_framing}
use http_c.Connection.Receiving.{
  Head, Exchange, read_body, reader_of, read_until_headers_complete, finish_response,
  follow_framing, follow_parse, follow_until_head, receive_response, is_ended_result,
}
use http_c.Connection.Receiving.Framed.{IsFramed, Bodies, read_body-Bodies, Heard, until_head-Heard}

module _ (lib : CommonLib) (peer : Peer) (drains : Drains lib peer) where
  open peer use {World}

  -- How the body `x` is handed over: stored in the response, or to the handler.
  abbrev pub HandsOver : Option ℕ → Response → Io World → Bytes → Exchange lib peer → Type 0
  HandsOver none parsed io x exchange = exchange.response ≡ record parsed { body = x }
  HandsOver (some handler) parsed io x exchange =
      (exchange.response ≡ record parsed { body = [] }) × (exchange.io.handed ≡ io.handed ++ x)

  -- The bytes of the stream split into a head, the framed bytes of a body, and a rest; the head
  -- parses to the response, its fields say how the body is framed, and the body is handed over.
  pub record IsAnswered (connection : Connection) (response : Response) (mode : Option ℕ)
      (io : Io World) (exchange : Exchange lib peer) : Type 0 where
    pub head : Bytes
    pub parsed : Response
    pub parse_result : ResultCode
    pub framing : BodyFraming
    pub n : ℕ
    pub framed : Bytes
    pub body : Bytes
    pub got : Bytes
    pub rest : Bytes
    pub parses : Response.parse lib (some response) head ≡ (some parsed, parse_result)
    pub says :
        determine_response_body_framing lib connection (record parsed { body = [] })
        ≡ some (framing, n)
    pub arrives : exchange.io.received ≡ io.received ++ (head ++ got)
    pub splits : parsed.body ++ got ≡ framed ++ rest
    pub is_framed : IsFramed framing n framed body rest exchange.io.closed
    pub hands_over : HandsOver mode parsed io body exchange

  abbrev pub Answers :
      Connection → Response → Option ℕ → Io World → ResultCode → Exchange lib peer → Type 0
  Answers connection response mode io result exchange =
      ((result ≡ ok) × IsAnswered connection response mode io exchange)
      ⊎ (lib.is_error result ≡ true)

  finish-HandsOver :
      (mode : Option ℕ) (parsed : Response) (connection : Connection) (io : Io World)
      (handed_before : Io World) (x : Bytes) (reader : Reader World)
      → reader.body_handler ≡ mode
      → (elim mode [ none ↦ stored reader.window | some handler ↦ reader.io.handed ])
        ≡ (elim mode [ none ↦ [] | some handler ↦ handed_before.handed ]) ++ x
      → HandsOver mode parsed handed_before x
          (finish_response lib peer
            (record {
              connection = connection;
              response = record parsed { body = [] };
              remainder = [];
              io = io;
            })
            ok
            reader).1
  unfolding finish_response
  finish-HandsOver none parsed connection io before x reader m moved =
      elim (Bool-cases (ltb 0 reader.window.stored_length)) [
        | inl e ↦ rw (lib.is_error-ok, m, e) (ap (λ (b : Bytes). record parsed { body = b }) moved)
        | inr e ↦
            rw (lib.is_error-ok, m, e)
              (ap (λ (b : Bytes). record parsed { body = b })
                (sym (take_none _ _ (ground arith)) ∙ moved))
      ]
  finish-HandsOver (some handler) parsed connection io before x reader m moved =
      rw (lib.is_error-ok, m) (refl, moved)

  finish-ok :
      (exchange : Exchange lib peer) (reader : Reader World)
      → ((finish_response lib peer exchange ok reader).0 ≡ ok)
        × ((finish_response lib peer exchange ok reader).1.io ≡ reader.io)
  unfolding finish_response
  finish-ok exchange reader = rw lib.is_error-ok (refl, refl)

  finish-error :
      (exchange : Exchange lib peer) (result : ResultCode) (reader : Reader World)
      → lib.is_error result ≡ true
      → (finish_response lib peer exchange result reader).0 ≡ result
  unfolding finish_response
  finish-error exchange result reader f = rw f refl

  prefetched-IsWindow :
      (connection : Connection) (mode context : Option ℕ) (prefetched free : Bytes) (io : Io World)
      → IsWindow (reader_of lib peer connection mode context prefetched free io).window
  prefetched-IsWindow connection mode context prefetched free io = record {
    behind = omega arith;
    ordered = omega arith;
    inside = omega (arith, length-append prefetched free);
  }

  module _ (fuel : ℕ) (connection : Connection) (response : Response) (mode context : Option ℕ)
      (io : Io World) (enough : drains.measure io.world < fuel) where
    -- behind a head that was parsed
    follow_framing-Answers :
        (h : Head World) (parsed : Response) (r : ResultCode) (o : Option (BodyFraming × ℕ))
        → Heard lib peer drains io h
        → Response.parse lib (some response) h.head ≡ (some parsed, r)
        → length parsed.body ≤ length h.head
        → determine_response_body_framing lib connection (record parsed { body = [] }) ≡ o
        → Ran (Answers connection response mode io) (
            follow_framing lib peer fuel
              (record {
                connection = connection;
                response = record parsed { body = [] };
                remainder = [];
                io = h.io;
              })
              (reader_of lib peer connection mode context parsed.body h.free h.io)
              o)
    unfolding follow_framing
    follow_framing-Answers h parsed r none heard parses shorter says = inr lib.is_error-error
    follow_framing-Answers h parsed r (some (framing, n)) heard parses shorter says =
        let reader = reader_of lib peer connection mode context parsed.body h.free h.io in
        Ran-within (Bodies lib peer drains framing n reader) (Answers connection response mode io)
          (read_body lib peer fuel framing n reader) _
          (read_body-Bodies lib peer drains fuel framing n reader
            (prefetched-IsWindow connection mode context parsed.body h.free h.io)
            (omega (arith, heard.2, shorter)))
          finished
      where
        finished :
            (result : ResultCode) (reader' : Reader World)
            → Bodies lib peer drains framing n
                (reader_of lib peer connection mode context parsed.body h.free h.io)
                result
                reader'
            → Ran (Answers connection response mode io) (
                some (
                  finish_response lib peer
                    (record {
                      connection = answered lib connection (record parsed { body = [] });
                      response = record parsed { body = [] };
                      remainder = [];
                      io = h.io;
                    })
                    result
                    reader'))
        finished result reader' (inl (e, c, x, framed, moves)) =
            let exchange : Exchange lib peer = record {
              connection = answered lib connection (record parsed { body = [] });
              response = record parsed { body = [] };
              remainder = [];
              io = h.io;
            } in
            let (fine, same_io) = finish-ok exchange reader' in
            let moved =
              subst
                (λ (m : Option ℕ).
                  (elim m [ none ↦ stored reader'.window | some handler ↦ reader'.io.handed ])
                  ≡ (elim mode [ none ↦ [] | some handler ↦ h.io.handed ]) ++ x)
                moves.same_handler moves.passed_on in
            let moved' =
              subst
                (λ (b : Bytes).
                  (elim mode [ none ↦ stored reader'.window | some handler ↦ reader'.io.handed ])
                  ≡ (elim mode [ none ↦ [] | some handler ↦ b ]) ++ x)
                heard.1 moved in
            let front = take-append (length parsed.body - 0) parsed.body h.free (omega arith) in
            rw e (
              inl (
                fine,
                record {
                  head = h.head;
                  parsed = parsed;
                  parse_result = r;
                  framing = framing;
                  n = n;
                  framed = c;
                  body = x;
                  got = moves.got;
                  rest = pending reader'.window;
                  parses = parses;
                  says = says;
                  arrives =
                      ap (λ (i : Io World). i.received) same_io
                      ∙ moves.received_more
                      ∙ ap (λ (b : Bytes). b ++ moves.got) heard.0
                      ∙ append_assoc io.received h.head moves.got;
                  splits = ap (λ (b : Bytes). b ++ moves.got) (sym front) ∙ moves.in_order;
                  is_framed =
                      subst
                        (λ (i : Io World). IsFramed framing n c x (pending reader'.window) i.closed)
                        (sym same_io) framed;
                  hands_over =
                      finish-HandsOver mode parsed exchange.connection h.io io x reader'
                        moves.same_handler moved';
                },
              ))
        finished result reader' (inr f) = inr (rw (finish-error _ result reader' f) f)

    follow_parse-Answers :
        (h : Head World) (p : Option Response × ResultCode)
        → Heard lib peer drains io h
        → Response.parse lib (some response) h.head ≡ p
        → Ran (Answers connection response mode io) (
            follow_parse lib peer fuel mode context
              (record { connection = connection; response = response; remainder = []; io = h.io })
              h.free
              p)
    unfolding follow_parse
    follow_parse-Answers h (none, result) heard parses =
        absurd (parse-ne-none lib response h.head parses)
    follow_parse-Answers h (some parsed, r) heard parses = elim (Bool-cases (lib.is_error r)) [
      | inl f ↦ rw f (inr f)
      | inr f ↦ rw f (
          follow_framing-Answers h parsed r _ heard parses (parse-body lib response h.head parses f)
            refl)
    ]

    follow_until_head-Answers :
        (result : ResultCode) (h : Head World)
        → Heard lib peer drains io h
        → Ran
            (Answers connection response mode io)
            (follow_until_head lib peer fuel connection mode context response result h)
    unfolding follow_until_head
    follow_until_head-Answers result h heard = elim (Bool-cases (lib.is_error result)) [
      | inl e ↦ rw e (inr e)
      | inr e ↦ elim (Bool-cases (is_ended_result result)) [
        | inl f ↦ rw (e, f) (inr lib.is_error-error)
        | inr f ↦ rw (e, f) (follow_parse-Answers h _ heard refl)
      ]
    ]

    -- With fuel for what the stream has left, it ends; and where it answers ok, the bytes received
    -- split into a head, the bytes of a body framed as the head says, and a rest, and the response
    -- is the parsed head with that body, stored or given to the handler.
    pub receive_response-Answers :
        (buffer : Bytes)
        → Ran
            (Answers connection response mode io)
            (receive_response lib peer fuel connection buffer response mode context io)
    unfolding receive_response
    receive_response-Answers buffer =
        Ran-within (λ result h. Heard lib peer drains io h) (Answers connection response mode io)
          (read_until_headers_complete lib peer fuel connection buffer io) _
          (until_head-Heard lib peer drains fuel connection buffer io enough)
          follow_until_head-Answers
