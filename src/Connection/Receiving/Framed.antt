-- ===== src/Connection/Receiving/Framed.antt =====
-- What http_connection_receive_response answers, in terms of the bytes of the stream.
use http_c.Prelude.{
  ℕ, ◌+◌, ◌≤◌, ◌<◌, ◌≡◌, ◌⊎◌, refl, sym, ap, ◌∙◌, Bool, true, [], ◌++◌, append-nil, append_assoc,
  arith, length, length-append, Bool-cases, inl, inr,
}
use http_c.Prelude.Rounds.{Ran, Ran-mono, Goes, rounds-Ran}
use http_c.Common.{Bytes, ResultCode, ok, headers_terminator}
use http_c.Span.{CommonLib}
use http_c.Headers.{is_empty}
use http_c.Connection.{
  Connection, Peer, Io, Answer, again, ended, failed, arrived, answer_of, call_read, call_await,
  io_deadline, io_now_ms,
}
use http_c.Connection.Window.{IsWindow, pending}
use http_c.Connection.Reader.{Reader}
use http_c.Connection.Moving.{Drains, Moves, Moves-refl, left, await_progress-measure}
use http_c.Connection.Passing.{Passes, pass_through-Passes}
use http_c.Connection.Closing.{Closes, until_close-Closes}
use http_c.Connection.Chunked.{IsChunked}
use http_c.Connection.ChunkedBody.{Chunks, chunked-Chunks}
use http_c.Connection.Framing.{BodyFraming, no_body, content_length, chunks, close}
use http_c.Connection.Receiving.{
  Head, follow_head, head_round, read_until_headers_complete, read_body, is_found,
}

-- The bytes `c`, framed that way, stand for the body `x`. Up to the close means all that came,
-- with nothing left behind it.
abbrev pub IsFramed : BodyFraming → ℕ → Bytes → Bytes → Bytes → Bool → Type 0
IsFramed no_body n c x rest closed = (c ≡ []) × (x ≡ [])
IsFramed content_length n c x rest closed = (c ≡ x) × (length c ≡ n)
IsFramed chunks n c x rest closed = IsChunked c x
IsFramed close n c x rest closed = (c ≡ x) × (rest ≡ []) × (closed ≡ true)

module _ (lib : CommonLib) (peer : Peer) (drains : Drains lib peer) where
  open peer use {World}

  abbrev pub Bodies : BodyFraming → ℕ → Reader World → ResultCode → Reader World → Type 0
  Bodies framing n r result r' =
      ((result ≡ ok)
        × (c : Bytes) × (x : Bytes) × IsFramed framing n c x (pending r'.window) r'.io.closed
        × Moves lib peer drains c x r r')
      ⊎ (lib.is_error result ≡ true)

  pub read_body-Bodies :
      (fuel : ℕ) (framing : BodyFraming) (n : ℕ) (r : Reader World)
      → IsWindow r.window
      → left lib peer drains r < fuel
      → Ran (Bodies framing n r) (read_body lib peer fuel framing n r)
  unfolding read_body
  read_body-Bodies fuel no_body n r i enough =
      inl (refl, [], [], (refl, refl), Moves-refl lib peer drains r i)
  read_body-Bodies fuel content_length n r i enough =
      Ran-mono (Passes lib peer drains n r) (Bodies content_length n r) _ exactly
        (pass_through-Passes lib peer drains fuel n r i enough)
    where
      exactly :
          (result : ResultCode) (r' : Reader World)
          → Passes lib peer drains n r result r'
          → Bodies content_length n r result r'
      exactly result r' (inl (e, c, moves, size)) = inl (e, c, c, (refl, size), moves)
      exactly result r' (inr f) = inr f
  read_body-Bodies fuel chunks n r i enough =
      Ran-mono (Chunks lib peer drains r) (Bodies chunks n r) _ (λ result r' q. q)
        (chunked-Chunks lib peer drains fuel r i enough)
  read_body-Bodies fuel close n r i enough =
      Ran-mono (Closes lib peer drains r) (Bodies close n r) _ all
        (until_close-Closes lib peer drains fuel r i enough)
    where
      all :
          (result : ResultCode) (r' : Reader World)
          → Closes lib peer drains r result r'
          → Bodies close n r result r'
      all result r' (inl (e, c, moves, none_left, closed)) =
          inl (e, c, c, (refl, none_left, closed), moves)
      all result r' (inr f) = inr f

  -- The head's loop keeps all that it receives.
  abbrev pub Heard : Io World → Head World → Type 0
  Heard io h =
      (h.io.received ≡ io.received ++ h.head)
      × (h.io.handed ≡ io.handed)
      × (drains.measure h.io.world + length h.head ≤ drains.measure io.world)

  pub call_deadline-measure :
      (connection : Connection) (w : World)
      → drains.measure (io_deadline peer connection w).1 ≤ drains.measure w
  unfolding io_deadline io_now_ms
  call_deadline-measure connection w = ground (arith, drains.clock w)

  module _ (connection : Connection) (io : Io World) (h : Head World) (heard : Heard io h) where
    the_read : ResultCode × Bytes × World
    the_read = peer.stream_read (length h.free) h.io.world

    after_read : Head World
    after_read = record h { io = (call_read peer lib (length h.free) h.io).2 }

    Hears : Head World → Type 0
    Hears h' = Heard io h' × (drains.measure h'.io.world < drains.measure h.io.world)

    follow_head-Goes :
        (a : Answer)
        → answer_of lib the_read.0 ≡ a
        → Goes Hears
            (λ result h'. Heard io h')
            (follow_head lib peer connection after_read the_read.0 the_read.1 a)
    unfolding follow_head call_read the_read after_read Hears
    follow_head-Goes again e =
        let falls = drains.waits _ h.io.world e in
        let slower = await_progress-measure lib peer drains h.deadline the_read.2 in
        let kept : after_read.io.received ≡ io.received ++ h.head = rw e heard.0 in
        elim (Bool-cases (lib.is_error (call_await peer lib h.deadline after_read.io).0)) [
          | inl f ↦ rw f (kept, heard.1, omega (arith, heard.2))
          | inr f ↦ rw f ((kept, heard.1, omega (arith, heard.2)), omega arith)
        ]
    follow_head-Goes ended e =
        let slower = drains.closes (length h.free) h.io.world in
        (rw e heard.0, heard.1, omega (arith, heard.2))
    follow_head-Goes failed e =
        let slower = drains.closes (length h.free) h.io.world in
        (rw e heard.0, heard.1, omega (arith, heard.2))
    follow_head-Goes arrived e =
        let falls = drains.arrives _ h.io.world e in
        let slower = call_deadline-measure connection the_read.2 in
        let kept : after_read.io.received ≡ io.received ++ (h.head ++ the_read.1) =
          rw e (ap (λ (s : Bytes). s ++ the_read.1) heard.0 ∙ append_assoc io.received h.head _) in
        let bound = length-append h.head the_read.1 in
        let found = is_found (lib.find_reverse (h.head ++ the_read.1) headers_terminator) in
        elim (Bool-cases found) [
          | inl f ↦ rw f (kept, heard.1, omega (arith, heard.2))
          | inr f ↦ rw f ((kept, heard.1, omega (arith, heard.2)), omega arith)
        ]

    head_round-Goes : Goes Hears (λ result h'. Heard io h') (head_round lib peer connection h)
    unfolding head_round the_read after_read call_read
    head_round-Goes = elim (Bool-cases (is_empty h.free)) [
      | inl e ↦ rw e heard
      | inr e ↦ rw e (follow_head-Goes (answer_of lib the_read.0) refl)
    ]

  pub until_head-Heard :
      (fuel : ℕ) (connection : Connection) (buffer : Bytes) (io : Io World)
      → drains.measure io.world < fuel
      → Ran
          (λ result h. Heard io h)
          (read_until_headers_complete lib peer fuel connection buffer io)
  unfolding read_until_headers_complete Hears
  until_head-Heard fuel connection buffer io enough =
      let slower = call_deadline-measure connection io.world in
      rounds-Ran (head_round lib peer connection) (Heard io) (λ result h. Heard io h)
        (λ h. drains.measure h.io.world) (λ h heard. head_round-Goes connection io h heard) fuel _
        (sym (append-nil io.received), refl, omega (arith, slower)) (omega (arith, slower))
