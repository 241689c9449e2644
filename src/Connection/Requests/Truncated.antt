-- ===== src/Connection/Requests/Truncated.antt =====
-- read_remaining_body at the end of the stream, and what http_connection_receive_request makes of
-- it.
use http_c.Prelude.{
  ℕ, ◌-◌, ◌≤◌, ◌<◌, ◌≡◌, ◌≢◌, ◌⊎◌, refl, sym, ap, subst, ◌∙◌, true, false, some, [], ◌++◌,
  append-nil, append_assoc, arith, length, Bool-cases, inl, inr, leb, ◌==◌, if◌then◌else◌,
}
use http_c.Prelude.Rounds.{Ran, Goes, rounds-Ran}
use http_c.Common.{Bytes, ResultCode, HlResult, ok, end_of_data, end_of_file}
use http_c.Span.{CommonLib}
use http_c.Headers
use http_c.Headers.{Headers, is_empty}
use http_c.Request
use http_c.Request.{Request}
use http_c.Connection.{
  Connection, Peer, Io, Answer, again, ended, failed, arrived, answer_of, call_read, call_await,
}
use http_c.Connection.Moving.{Drains, await_progress-measure}
use http_c.Connection.Filling.{answer_of-failed}
use http_c.Connection.Framing.{hdr_content_length}
use http_c.Connection.Receiving.{Head, read_until_headers_complete}
use http_c.Connection.Receiving.Framed.{call_deadline-measure}
use http_c.Connection.Requests.{Remaining, follow_remaining, remaining_round, read_remaining_body}
use http_c.Connection.Requests.Message.{
  Asked, by_length, by_fields, maybe_read_body, follow_request, follow_received,
  http_connection_receive_request,
}

-- one of the results by which a stream says that it is closed
abbrev pub IsEnd : ResultCode → Type 0
IsEnd r = (r ≡ end_of_data) ⊎ (r ≡ end_of_file)

IsEnd-ne-ok : (r : ResultCode) → IsEnd r → r ≢ ok
IsEnd-ne-ok r (inl e) f = absurd (ground arith)
IsEnd-ne-ok r (inr e) f = absurd (ground arith)

module _ (lib : CommonLib) where
  answer_of-ended : (r : ResultCode) → answer_of lib r ≡ ended → IsEnd r
  unfolding answer_of
  answer_of-ended ResultCode.end_of_data h = inl refl
  answer_of-ended ResultCode.end_of_file h = inr refl
  answer_of-ended ResultCode.try_again h = cc
  answer_of-ended ResultCode.ok h = absurd (ground arith)
  answer_of-ended ResultCode.error h = absurd (ground arith)
  answer_of-ended ResultCode.invalid_argument h = absurd (ground arith)
  answer_of-ended ResultCode.not_found h = absurd (ground arith)
  answer_of-ended ResultCode.insufficient_size h = absurd (ground arith)
  answer_of-ended ResultCode.unexpected_char h = absurd (ground arith)

  IsEnd-is_error : (r : ResultCode) → IsEnd r → lib.is_error r ≡ false
  IsEnd-is_error r (inl e) = rw e lib.is_error-end_of_data
  IsEnd-is_error r (inr e) = rw e lib.is_error-end_of_file

module _ (lib : CommonLib) (peer : Peer) (drains : Drains lib peer) where
  open peer use {World}

  -- The body has grown by the bytes that were received.
  abbrev Grown : Bytes → Io World → Remaining lib peer → Type 0
  Grown body io s =
      (got : Bytes) × (s.body_so_far ≡ body ++ got)
      × (s.io.received ≡ io.received ++ got)
      × (drains.measure s.io.world ≤ drains.measure io.world)

  -- It answers ok with all the bytes that are needed, or the result of a stream that was closed
  -- before, with what had arrived, or an error.
  abbrev pub Remains : Bytes → Io World → ℕ → ResultCode → Remaining lib peer → Type 0
  Remains body io needed result s =
      ((result ≡ ok) × Grown body io s × (needed ≤ length s.body_so_far))
      ⊎ ((IsEnd result × Grown body io s × (length s.body_so_far < needed))
          ⊎ (lib.is_error result ≡ true))

  module _ (connection : Connection) (needed : ℕ) (body : Bytes) (io : Io World)
      (s : Remaining lib peer) (grown : Grown body io s) where
    the_read : ResultCode × Bytes × World
    the_read = peer.stream_read (length s.free_buffer) s.io.world

    after_read : Remaining lib peer
    after_read = record s { io = (call_read peer lib (length s.free_buffer) s.io).2 }

    abbrev Grows : Remaining lib peer → Type 0
    Grows t = Grown body io t × (drains.measure t.io.world < drains.measure s.io.world)

    follow_remaining-Goes :
        length s.body_so_far < needed
        → (a : Answer) → answer_of lib the_read.0 ≡ a
        → Goes Grows
            (Remains body io needed)
            (follow_remaining lib peer connection after_read the_read.0 the_read.1 a)
    unfolding follow_remaining call_read the_read after_read
    follow_remaining-Goes short again e =
        let falls = drains.waits (length s.free_buffer) s.io.world e in
        let slower = await_progress-measure lib peer drains s.deadline the_read.2 in
        let kept : after_read.io.received ≡ io.received ++ grown.0 = rw e grown.2 in
        elim (Bool-cases (lib.is_error (call_await peer lib s.deadline after_read.io).0)) [
          | inl f ↦ rw f (inr (inr f))
          | inr f ↦ rw f ((grown.0, grown.1, kept, omega (arith, grown.3)), omega arith)
        ]
    follow_remaining-Goes short ended e =
        let slower = drains.closes (length s.free_buffer) s.io.world in
        inr (
          inl (
            answer_of-ended lib the_read.0 e,
            (grown.0, grown.1, rw e grown.2, omega (arith, grown.3)),
            short,
          ))
    follow_remaining-Goes short failed e = inr (inr (answer_of-failed lib the_read.0 e))
    follow_remaining-Goes short arrived e =
        let falls = drains.arrives (length s.free_buffer) s.io.world e in
        let slower = call_deadline-measure lib peer drains connection the_read.2 in
        let kept : after_read.io.received ≡ io.received ++ (grown.0 ++ the_read.1) =
          rw e (ap (λ (b : Bytes). b ++ the_read.1) grown.2 ∙ append_assoc io.received grown.0 _) in
        (
          (
            grown.0 ++ the_read.1,
            ap (λ (b : Bytes). b ++ the_read.1) grown.1 ∙ append_assoc body grown.0 _,
            kept,
            omega (arith, grown.3),
          ),
          omega arith,
        )

    remaining_round-Goes :
        Goes Grows (Remains body io needed) (remaining_round lib peer connection needed s)
    unfolding remaining_round the_read after_read call_read
    remaining_round-Goes = elim (Bool-cases (leb needed (length s.body_so_far))) [
      | inl e ↦ rw e (inl (refl, grown, ground arith))
      | inr e ↦ elim (Bool-cases (is_empty s.free_buffer)) [
        | inl f ↦ rw (e, f) (inr (inr lib.is_error-insufficient_size))
        | inr f ↦ rw (e, f) (follow_remaining-Goes (ground arith) (answer_of lib the_read.0) refl)
      ]
    ]

  -- With fuel for what the stream has left, it ends: with ok and all the bytes, with the result of
  -- a stream that was closed before that, or with an error.
  pub read_remaining_body-Remains :
      (fuel : ℕ) (connection : Connection) (body free_buffer : Bytes) (needed : ℕ) (io : Io World)
      → drains.measure io.world < fuel
      → Ran
          (Remains body io needed)
          (read_remaining_body lib peer fuel connection body free_buffer needed io)
  unfolding read_remaining_body
  read_remaining_body-Remains fuel connection body free_buffer needed io enough =
      let slower = call_deadline-measure lib peer drains connection io.world in
      rounds-Ran (remaining_round lib peer connection needed) (Grown body io)
        (Remains body io needed) (λ s. drains.measure s.io.world)
        (λ s grown. remaining_round-Goes connection needed body io s grown) fuel _
        ([], sym (append-nil body), sym (append-nil io.received), slower) (omega (arith, slower))

  cut_short :
      (fuel : ℕ) (connection : Connection) (body free_buffer : Bytes) (needed : ℕ) (io : Io World)
      {result : ResultCode} {s : Remaining lib peer}
      → drains.measure io.world < fuel
      → IsEnd result
      → read_remaining_body lib peer fuel connection body free_buffer needed io ≡ some (result, s)
      → length s.body_so_far < needed
  cut_short fuel connection body free_buffer needed io {result} {s} enough end h =
      let ran =
        subst (Ran (Remains body io needed)) h
          (read_remaining_body-Remains fuel connection body free_buffer needed io enough) in
      by_result ran
    where
      by_result : Remains body io needed result s → length s.body_so_far < needed
      by_result (inl (e, grown, all)) = absurd (IsEnd-ne-ok result end e)
      by_result (inr (inl (e, grown, short))) = short
      by_result (inr (inr f)) = absurd (ground (arith, IsEnd-is_error lib result end))

  -- The result that says that the stream is closed is no error, so a request whose body was cut
  -- short is answered as ok, with a body shorter than its Content-Length.
  module _ (fuel : ℕ) (connection : Connection) (buffer : Bytes) (request : Request)
      (unset : Bytes × Bytes) (io : Io World) (h : Head World) (parsed : Request) (value : Bytes)
      (n : ℕ) (result : ResultCode) (s : Remaining lib peer) where
    pub receive_request-cut_short :
        read_until_headers_complete lib peer fuel connection buffer io ≡ some (ok, h)
        → Request.parse lib (some request) h.head ≡ (some parsed, ok)
        → Headers.find lib (some parsed.headers) hdr_content_length ≡ (HlResult.ok, some value)
        → lib.to_uint32 value ≡ some n
        → read_remaining_body lib peer fuel connection parsed.body h.free n h.io ≡ some (result, s)
        → IsEnd result
        → drains.measure h.io.world < fuel
        → (asked : Asked lib peer) × (http_connection_receive_request lib peer fuel
              (some connection)
              buffer
              (some request)
              unset
              io
            ≡ some (ok, asked))
          × (asked.request ≡ some (record parsed { body = s.body_so_far }))
          × (length s.body_so_far < n)
    unfolding http_connection_receive_request follow_received follow_request maybe_read_body
        by_fields by_length
    receive_request-cut_short head parse found number read end enough =
        let short = cut_short fuel connection parsed.body h.free n h.io enough end read in
        let some_body : (n == 0) ≡ false = ground arith in
        (
          record {
            request = some (record parsed { body = s.body_so_far });
            remainder_size =
                if leb (length s.body_so_far) (length h.free)
                then length h.free - length s.body_so_far
                else 0;
            io = s.io;
          },
          rw
              (
                head,
                lib.is_error-ok,
                parse,
                lib.is_error-ok,
                found,
                number,
                some_body,
                read,
                IsEnd-is_error lib result end,
              )
              refl,
          refl,
          short,
        )
