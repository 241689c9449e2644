-- ===== src/Connection/Moving.antt =====
-- What a call of a body reader moves: bytes of the stream that it consumes, and bytes of body that
-- it passes on. A relation on readers that composes, and response_body_reader_fill and
-- response_body_reader_deliver in its terms.
use http_c.Prelude.{
  ℕ, ◌+◌, ◌≤◌, ◌<◌, ◌≡◌, ◌⊎◌, refl, sym, ap, ◌∙◌, true, Option, none, some, [], ◌++◌, append-nil,
  append_assoc, arith, length, length-append,
}
use http_c.Common.{Bytes, ResultCode, ok, end_of_data}
use http_c.Span.{CommonLib}
use http_c.Connection.{Peer, Io, again, arrived, answer_of, io_deadline, io_now_ms, await_progress}
use http_c.Connection.Window.{
  Window, IsWindow, capacity, pending_length, pending, stored, appended, Same, appended-IsWindow,
  pending-appended, stored-appended, capacity-appended, length-pending,
}
use http_c.Connection.Reader.{Reader}

module _ (lib : CommonLib) (peer : Peer) where
  open peer use {World}

  -- A stream that sooner or later has bytes, is closed or fails: a bound on what it still does. A
  -- read brings no more bytes than there is room for.
  pub record Drains : Type 0 where
    pub measure : World → ℕ
    pub fits :
        (room : ℕ) (w : World)
        → answer_of lib (peer.stream_read room w).0 ≡ arrived
        → length (peer.stream_read room w).1 ≤ room
    pub arrives :
        (room : ℕ) (w : World)
        → answer_of lib (peer.stream_read room w).0 ≡ arrived
        → measure (peer.stream_read room w).2 + length (peer.stream_read room w).1 < measure w
    pub waits :
        (room : ℕ) (w : World)
        → answer_of lib (peer.stream_read room w).0 ≡ again
        → measure (peer.stream_read room w).2 < measure w
    pub closes : (room : ℕ) (w : World) → measure (peer.stream_read room w).2 ≤ measure w
    pub clock : (w : World) → measure (peer.clock_gettime w).1 ≤ measure w
    pub yields : (w : World) → measure (peer.sched_yield w) ≤ measure w
    pub handles :
        (handler : ℕ) (context : Option ℕ) (piece : Bytes) (w : World)
        → measure (peer.body_handler handler context piece w).1 ≤ measure w

  -- the body that was passed on: stored, or given to the handler
  abbrev pub output : Reader World → Bytes
  output reader = elim reader.body_handler [
    | none ↦ stored reader.window
    | some handler ↦ reader.io.handed
  ]

  module _ (drains : Drains) where
    -- what the stream and the reader have left to do
    abbrev pub left : Reader World → ℕ
    left reader = drains.measure reader.io.world + pending_length reader.window

    -- From `r` to `r'` the bytes `c` are consumed, in order, and the bytes `x` are passed on.
    pub record Moves (c x : Bytes) (r r' : Reader World) : Type 0 where
      pub got : Bytes
      pub received_more : r'.io.received ≡ r.io.received ++ got
      pub in_order : pending r.window ++ got ≡ c ++ pending r'.window
      pub passed_on : output r' ≡ output r ++ x
      pub window : IsWindow r'.window
      pub same_capacity : capacity r'.window ≡ capacity r.window
      pub same_handler : r'.body_handler ≡ r.body_handler
      pub less : left r' + length c ≤ left r

    pub Moves-trans :
        {c x c' x' : Bytes} {r r' r'' : Reader World}
        → Moves c x r r'
        → Moves c' x' r' r''
        → Moves (c ++ c') (x ++ x') r r''
    Moves-trans {c} {x} {c'} {x'} {r} {r'} {r''} a b = record {
      got = a.got ++ b.got;
      received_more = b.received_more ∙ rw a.received_more (append_assoc _ a.got b.got);
      in_order =
          sym (append_assoc (pending r.window) a.got b.got)
          ∙ ap (λ (s : Bytes). s ++ b.got) a.in_order
          ∙ append_assoc c (pending r'.window) b.got
          ∙ ap (◌++◌ c) b.in_order
          ∙ sym (append_assoc c c' (pending r''.window));
      passed_on = b.passed_on ∙ rw a.passed_on (append_assoc (output r) x x');
      window = b.window;
      same_capacity = b.same_capacity ∙ a.same_capacity;
      same_handler = b.same_handler ∙ a.same_handler;
      less = omega (arith, a.less, b.less, length-append c c');
    }

    abbrev pub Waits : Reader World → Reader World → Type 0
    Waits = Moves [] []

    -- Only the world moves on.
    pub quiet-Waits :
        (r : Reader World) (io : Io World)
        → IsWindow r.window
        → io.received ≡ r.io.received
        → io.handed ≡ r.io.handed
        → drains.measure io.world ≤ drains.measure r.io.world
        → Waits r (record r { io = io })
    quiet-Waits r io i same_received same_handed falls = record {
      got = [];
      received_more = same_received ∙ sym (append-nil r.io.received);
      in_order = append-nil (pending r.window);
      passed_on = same_output r.body_handler ∙ sym (append-nil (output r));
      window = i;
      same_capacity = refl;
      same_handler = refl;
      less = omega (arith, falls);
    }
      where
        same_output :
            (h : Option ℕ)
            → (elim h [ none ↦ stored r.window | some handler ↦ io.handed ])
              ≡ (elim h [ none ↦ stored r.window | some handler ↦ r.io.handed ])
        same_output none = refl
        same_output (some handler) = same_handed

    pub Moves-refl : (r : Reader World) → IsWindow r.window → Waits r r
    Moves-refl r i = quiet-Waits r r.io i refl refl (omega arith)

    pub same_stored-output :
        (r : Reader World) (w : Window) (io : Io World)
        → stored w ≡ stored r.window
        → io.handed ≡ r.io.handed
        → output (record r { window = w; io = io }) ≡ output r ++ []
    same_stored-output r w io s h = by_mode r.body_handler ∙ sym (append-nil (output r))
      where
        by_mode :
            (m : Option ℕ)
            → (elim m [ none ↦ stored w | some handler ↦ io.handed ])
              ≡ (elim m [ none ↦ stored r.window | some handler ↦ r.io.handed ])
        by_mode none = s
        by_mode (some handler) = h

    -- The window is moved down and the world moves on.
    pub Same-Waits :
        (r : Reader World) (w : Window) (io : Io World)
        → IsWindow r.window
        → Same r.window w
        → io.received ≡ r.io.received
        → io.handed ≡ r.io.handed
        → drains.measure io.world ≤ drains.measure r.io.world
        → Waits r (record r { window = w; io = io })
    Same-Waits r w io i same same_received same_handed falls = record {
      got = [];
      received_more = same_received ∙ sym (append-nil r.io.received);
      in_order = append-nil (pending r.window) ∙ sym same.same_pending;
      passed_on = same_stored-output r w io same.same_stored same_handed;
      window = same.window;
      same_capacity = same.same_capacity;
      same_handler = refl;
      less = omega (
        arith,
        falls,
        length-pending r.window i,
        length-pending w same.window,
        ap (length {A = ℕ}) same.same_pending,
      );
    }

    -- A read puts bytes behind those that are pending.
    pub appended-Waits :
        (r : Reader World) (got : Bytes) (io : Io World)
        → IsWindow r.window
        → r.window.end + length got ≤ capacity r.window
        → io.received ≡ r.io.received ++ got
        → io.handed ≡ r.io.handed
        → drains.measure io.world + length got < drains.measure r.io.world
        → Waits r (record r { window = appended got r.window; io = io })
          × (left (record r { window = appended got r.window; io = io }) < left r)
    unfolding appended
    appended-Waits r got io i room more_received same_handed falls = (
      record {
        got = got;
        received_more = more_received;
        in_order = sym (pending-appended got r.window i room);
        passed_on =
            same_stored-output r (appended got r.window) io (stored-appended got r.window i room)
              same_handed;
        window = appended-IsWindow got r.window i room;
        same_capacity = capacity-appended got r.window i room;
        same_handler = refl;
        less = omega (arith, falls, i.ordered);
      },
      omega (arith, falls, i.ordered),
    )

    io_now_ms-measure : (w : World) → drains.measure (io_now_ms peer w).1 ≤ drains.measure w
    unfolding io_now_ms
    io_now_ms-measure w = drains.clock w

    pub await_progress-measure :
        (deadline : ℕ) (w : World)
        → drains.measure (await_progress peer deadline w).1 ≤ drains.measure w
    unfolding await_progress
    await_progress-measure deadline w = ground (arith, drains.yields w, io_now_ms-measure w)

    pub io_deadline-measure :
        (r : Reader World) (w : World)
        → drains.measure (io_deadline peer r.connection w).1 ≤ drains.measure w
    unfolding io_deadline
    io_deadline-measure r w = ground (arith, io_now_ms-measure w)

    -- How a fill may end: with new bytes, at the end of the stream, or with an error.
    abbrev pub FillEnds : Reader World → ResultCode → Reader World → Type 0
    FillEnds r result r' =
        ((result ≡ ok) × Waits r r' × (left r' < left r) × (r'.window.start < r'.window.end))
        ⊎ (((result ≡ end_of_data)
              × Waits r r'
              × (r'.io.closed ≡ true)
              × (pending r'.window ≡ pending r.window))
            ⊎ (lib.is_error result ≡ true))

    abbrev pub GoesOn : Reader World → Reader World → Type 0
    GoesOn r r' = Waits r r' × (r'.window ≡ r.window) × (left r' < left r)
