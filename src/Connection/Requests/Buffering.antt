-- ===== src/Connection/Requests/Buffering.antt =====
-- ensure_buffered and the moves of the parse cursor in read_chunked_body.
use http_c.Prelude.{
  ℕ, ◌+◌, ◌-◌, ◌≤◌, ◌<◌, ◌≡◌, ◌⊎◌, refl, ap, subst, ◌∙◌, true, [], ◌∷◌, arith, length, take, drop,
  length-drop, get_or, Bool-cases, inl, inr, leb,
}
use http_c.Prelude.Buffers.{take-take}
use http_c.Prelude.Rounds.{Ran, Goes, Goes-mono, rounds-Ran, Ran-within}
use http_c.Common.{Bytes, ResultCode, ok}
use http_c.Span.{CommonLib}
use http_c.Connection.{
  Peer, Answer, again, ended, failed, arrived, answer_of, call_read, call_await, call_deadline,
}
use http_c.Connection.Window.{
  Window, IsWindow, capacity, pending_length, pending, appended, skipped,
}
use http_c.Connection.Reader.{Reader}
use http_c.Connection.Moving.{
  Drains, Moves, Moves-trans, Moves-refl, left, quiet-Waits, appended-Waits, await_progress-measure,
}
use http_c.Connection.Filling.{answer_of-failed}
use http_c.Connection.Lines.{get_or-drop}
use http_c.Connection.Lines.Reading.{skipped-Moves}
use http_c.Connection.Receiving.Framed.{call_deadline-measure}
use http_c.Connection.Requests.{
  follow_ensure, ensure_round, ensure_buffered, at_start, advanced, at_window,
}

take_one : (s : Bytes) → 0 < length s → take 1 s ≡ get_or s 0 0 ∷ []
take_one [] h = absurd (omega arith)
take_one (c ∷ s) h = refl

-- The byte at the cursor is the first of those that are pending.
take_one-pending :
    (w : Window) → IsWindow w → 1 ≤ pending_length w → take 1 (pending w) ≡ at_start w ∷ []
take_one-pending w i some_bytes =
    take-take 1 (w.end - w.start) (drop w.start w.buffer) some_bytes
    ∙ take_one (drop w.start w.buffer)
        (omega (arith, length-drop w.start w.buffer, i.inside, i.ordered))
    ∙ ap (λ (c : ℕ). c ∷ [])
        (get_or-drop w.start 0 w.buffer
          ∙ (let e : w.start + 0 ≡ w.start = omega arith in ap (λ (k : ℕ). get_or w.buffer k 0) e))

module _ (lib : CommonLib) (peer : Peer) (drains : Drains lib peer) where
  open peer use {World}

  -- Enough bytes are pending and none is lost, or it fails.
  abbrev pub Ensures : ℕ → Reader World → ResultCode → Reader World → Type 0
  Ensures need r result r' =
      ((result ≡ ok) × Moves lib peer drains [] [] r r' × (need ≤ pending_length r'.window))
      ⊎ (lib.is_error result ≡ true)

  module _ (need deadline : ℕ) (s : Reader World) (i : IsWindow s.window) where
    the_read : ResultCode × Bytes × World
    the_read = peer.stream_read (capacity s.window - s.window.end) s.io.world

    after_read : Reader World
    after_read = record s { io = (call_read peer lib (capacity s.window - s.window.end) s.io).2 }

    abbrev Waiting : ℕ × Reader World → Type 0
    Waiting t =
        Moves lib peer drains [] [] s t.1 × (left lib peer drains t.1 < left lib peer drains s)

    abbrev Ensured : ResultCode → ℕ × Reader World → Type 0
    Ensured result t = Ensures need s result t.1

    follow_ensure-Goes :
        (a : Answer)
        → answer_of lib the_read.0 ≡ a
        → Goes Waiting Ensured (follow_ensure lib peer deadline after_read the_read.0 the_read.1 a)
    unfolding follow_ensure call_read the_read after_read appended
    follow_ensure-Goes again e =
        let falls = drains.waits (capacity s.window - s.window.end) s.io.world e in
        let slower = await_progress-measure lib peer drains deadline the_read.2 in
        let io = (call_await peer lib deadline after_read.io).1 in
        elim (Bool-cases (lib.is_error (call_await peer lib deadline after_read.io).0)) [
          | inl f ↦ rw f (inr f)
          | inr f ↦
              rw f (quiet-Waits lib peer drains s io i (rw e refl) refl (omega arith), omega arith)
        ]
    follow_ensure-Goes ended e = inr lib.is_error-error
    follow_ensure-Goes failed e = inr (answer_of-failed lib the_read.0 e)
    follow_ensure-Goes arrived e =
        let falls = drains.arrives (capacity s.window - s.window.end) s.io.world e in
        let fits = drains.fits (capacity s.window - s.window.end) s.io.world e in
        let slower = call_deadline-measure lib peer drains s.connection the_read.2 in
        let io = (call_deadline peer lib s.connection after_read.io).1 in
        appended-Waits lib peer drains s the_read.1 io i (omega (arith, i.inside)) (rw e refl) refl
          (omega arith)

    ensure_round-Goes : Goes Waiting Ensured (ensure_round lib peer need (deadline, s))
    unfolding ensure_round the_read after_read call_read
    ensure_round-Goes = elim (Bool-cases (leb need (pending_length s.window))) [
      | inl e ↦ rw e (inl (refl, Moves-refl lib peer drains s i, ground arith))
      | inr e ↦ elim (Bool-cases (leb (capacity s.window) s.window.end)) [
        | inl f ↦ rw (e, f) (inr lib.is_error-insufficient_size)
        | inr f ↦ rw (e, f) (follow_ensure-Goes (answer_of lib the_read.0) refl)
      ]
    ]

  Ensures-behind :
      (need : ℕ) (r s : Reader World)
      → Moves lib peer drains [] [] r s
      → (result : ResultCode) (t : Reader World) → Ensures need s result t
      → Ensures need r result t
  Ensures-behind need r s before result t (inl (e, moves, enough)) =
      inl (e, Moves-trans lib peer drains before moves, enough)
  Ensures-behind need r s before result t (inr f) = inr f

  pub ensure_buffered-Ensures :
      (fuel need : ℕ) (r : Reader World)
      → IsWindow r.window
      → left lib peer drains r < fuel
      → Ran (Ensures need r) (ensure_buffered lib peer fuel need r)
  unfolding ensure_buffered
  ensure_buffered-Ensures fuel need r i enough =
      let slower = call_deadline-measure lib peer drains r.connection r.io.world in
      let io = (call_deadline peer lib r.connection r.io).1 in
      let started = quiet-Waits lib peer drains r io i refl refl slower in
      Ran-within (λ result t. Ensures need r result t.1) (Ensures need r) _ _
        (rounds-Ran (ensure_round lib peer need) (λ t. Moves lib peer drains [] [] r t.1)
          (λ result t. Ensures need r result t.1) (λ t. left lib peer drains t.1)
          (λ t before.
            Goes-mono (Waiting need t.0 t.1 before.window) _ (Ensured need t.0 t.1 before.window) _
              (ensure_round lib peer need t) (λ t' g. (Moves-trans lib peer drains before g.0, g.1))
              (λ result t' g. Ensures-behind need r t.1 before result t'.1 g)
              (ensure_round-Goes need t.0 t.1 before.window))
          fuel _ started (omega (arith, slower)))
        (λ result t q. q)

  -- The cursor moves over bytes that are not emitted.
  pub advanced-Moves :
      (n : ℕ) (r : Reader World)
      → IsWindow r.window
      → n ≤ pending_length r.window
      → Moves lib peer drains
          (take n (pending r.window))
          []
          r
          (at_window lib peer r (advanced n r.window))
  unfolding skipped
  advanced-Moves n r i enough = skipped-Moves lib peer drains n r i enough

  pub advanced_one-Moves :
      (r : Reader World)
      → IsWindow r.window
      → 1 ≤ pending_length r.window
      → Moves lib peer drains
          (at_start r.window ∷ [])
          []
          r
          (at_window lib peer r (advanced 1 r.window))
  advanced_one-Moves r i some_bytes =
      subst
        (λ (c : Bytes). Moves lib peer drains c [] r (at_window lib peer r (advanced 1 r.window)))
        (take_one-pending r.window i some_bytes) (advanced-Moves 1 r i some_bytes)
