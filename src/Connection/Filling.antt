-- ===== src/Connection/Filling.antt =====
-- response_body_reader_fill ends, and brings bytes without losing any.
use http_c.Prelude.{
  ℕ, ◌-◌, ◌≤◌, ◌<◌, ◌≡◌, refl, ap, ◌∙◌, true, false, [], ◌∷◌, ◌++◌, append-nil, arith, length,
  Bool-cases, inl, inr, ◌==◌,
}
use http_c.Prelude.Rounds.{Ran, Goes, Step, more, done, starved, rounds, rounds-Ran}
use http_c.Common.{Bytes, ResultCode}
use http_c.Span.{CommonLib}
use http_c.Headers.{is_empty}
use http_c.Connection.{
  Peer, Answer, again, ended, failed, arrived, answer_of, call_read, call_await, call_deadline,
}
use http_c.Connection.Window.{IsWindow, capacity, pending, appended, compacted, compacted-Same}
use http_c.Connection.Reader.{Reader, fill, fill_round, follow_fill}
use http_c.Connection.Moving.{
  Drains, Moves, Moves-trans, FillEnds, GoesOn, left, quiet-Waits, Same-Waits, appended-Waits,
  await_progress-measure, io_deadline-measure,
}

pub is_empty-nil : (s : Bytes) → is_empty s ≡ true → s ≡ []
is_empty-nil [] h = refl
is_empty-nil (c ∷ s) h = cc

pub length_pos : (s : Bytes) → is_empty s ≡ false → 0 < length s
length_pos [] h = cc
length_pos (c ∷ s) h = omega arith

module _ (lib : CommonLib) where
  -- A result that the loops take for a failure is an error.
  pub answer_of-failed : (r : ResultCode) → answer_of lib r ≡ failed → lib.is_error r ≡ true
  unfolding answer_of
  answer_of-failed ResultCode.try_again h = cc
  answer_of-failed ResultCode.end_of_data h = cc
  answer_of-failed ResultCode.end_of_file h = cc
  answer_of-failed ResultCode.ok h = ground arith
  answer_of-failed ResultCode.error h = ground arith
  answer_of-failed ResultCode.invalid_argument h = ground arith
  answer_of-failed ResultCode.not_found h = ground arith
  answer_of-failed ResultCode.insufficient_size h = ground arith
  answer_of-failed ResultCode.unexpected_char h = ground arith

module _ (lib : CommonLib) (peer : Peer) (drains : Drains lib peer) where
  open peer use {World}

  module _ (deadline : ℕ) (s : Reader World) (i : IsWindow s.window) where
    -- the reader behind the read
    after_read : Reader World
    after_read = record s { io = (call_read peer lib (capacity s.window - s.window.end) s.io).2 }

    the_read : ResultCode × Bytes × World
    the_read = peer.stream_read (capacity s.window - s.window.end) s.io.world

    follow_fill-Goes :
        (a : Answer)
        → answer_of lib the_read.0 ≡ a
        → Goes
            (GoesOn lib peer drains s)
            (FillEnds lib peer drains s)
            (follow_fill lib peer deadline after_read the_read.0 the_read.1 a)
    unfolding follow_fill call_read the_read after_read appended
    follow_fill-Goes again e =
        let falls = drains.waits _ s.io.world e in
        let slower = await_progress-measure lib peer drains deadline the_read.2 in
        let io = (call_await peer lib deadline after_read.io).1 in
        elim (Bool-cases (lib.is_error (call_await peer lib deadline after_read.io).0)) [
          | inl f ↦ rw f (inr (inr f))
          | inr f ↦
              rw f (
                quiet-Waits lib peer drains s io i (rw e refl) refl (omega arith),
                refl,
                omega arith,
              )
        ]
    follow_fill-Goes ended e = inr (
        inl (
          refl,
          quiet-Waits lib peer drains s after_read.io i (rw e refl) refl
              (drains.closes _ s.io.world),
          rw e refl,
          refl,
        ))
    follow_fill-Goes failed e = inr (inr (answer_of-failed lib the_read.0 e))
    follow_fill-Goes arrived e =
        let falls = drains.arrives _ s.io.world e in
        let fits = drains.fits _ s.io.world e in
        elim (Bool-cases (is_empty the_read.1)) [
          | inl f ↦ rw f (
            quiet-Waits lib peer drains s after_read.io i
                (rw e (ap (◌++◌ s.io.received) (is_empty-nil the_read.1 f) ∙ append-nil _)) refl
                (omega arith),
            refl,
            omega arith,
          )
          | inr f ↦
              let (waits, less) =
                appended-Waits lib peer drains s the_read.1 after_read.io i
                  (omega (arith, i.inside)) (rw e refl) refl falls in
              rw f (inl (refl, waits, less, omega (arith, i.ordered, length_pos the_read.1 f)))
        ]

    fill_round-Goes :
        Goes
          (GoesOn lib peer drains s)
          (FillEnds lib peer drains s)
          (fill_round lib peer deadline s)
    unfolding fill_round the_read after_read call_read
    fill_round-Goes = follow_fill-Goes (answer_of lib the_read.0) refl

  abbrev Waiting : Reader World → Reader World → Type 0
  Waiting r s = Moves lib peer drains [] [] r s × (pending s.window ≡ pending r.window)

  -- What follows a wait may be reckoned from before it.
  FillEnds-behind :
      (r s : Reader World) (result : ResultCode) (r' : Reader World)
      → Waiting r s
      → left lib peer drains s ≤ left lib peer drains r
      → FillEnds lib peer drains s result r'
      → FillEnds lib peer drains r result r'
  FillEnds-behind r s result r' (before, same) less (inl (e, waits, falls, some_bytes)) =
      inl (e, Moves-trans lib peer drains before waits, omega arith, some_bytes)
  FillEnds-behind r s result r' (before, same) less (inr (inl (e, waits, closed, same'))) =
      inr (inl (e, Moves-trans lib peer drains before waits, closed, same' ∙ same))
  FillEnds-behind r s result r' before less (inr (inr e)) = inr (inr e)

  Goes-behind :
      (r s : Reader World) (t : Step ResultCode (Reader World))
      → Waiting r s
      → Goes (GoesOn lib peer drains s) (FillEnds lib peer drains s) t
      → Goes
          (λ s'. Waiting r s' × (left lib peer drains s' < left lib peer drains s))
          (FillEnds lib peer drains r)
          t
  Goes-behind r s (more s') (w, kept) (waits, same, less) =
      ((Moves-trans lib peer drains w waits, ap pending same ∙ kept), less)
  Goes-behind r s (done a s') w ends = FillEnds-behind r s a s' w (omega (arith, w.0.less)) ends
  Goes-behind r s starved w g = g

  rounds-FillEnds :
      (deadline fuel : ℕ) (r s : Reader World)
      → Waiting r s
      → left lib peer drains s < fuel
      → Ran (FillEnds lib peer drains r) (rounds (fill_round lib peer deadline) fuel s)
  rounds-FillEnds deadline fuel r s w enough =
      rounds-Ran (fill_round lib peer deadline) (Waiting r) (FillEnds lib peer drains r)
        (left lib peer drains)
        (λ t before.
          Goes-behind r t (fill_round lib peer deadline t) before
            (fill_round-Goes deadline t before.0.window))
        fuel s w enough

  -- With fuel for what the stream has left, a fill ends, and it loses no byte.
  pub fill-Ran :
      (fuel : ℕ) (r : Reader World)
      → IsWindow r.window
      → left lib peer drains r < fuel
      → Ran (FillEnds lib peer drains r) (fill lib peer fuel r)
  unfolding fill
  fill-Ran fuel r i enough =
      let same = compacted-Same r.window i in
      elim (Bool-cases ((compacted r.window).end == capacity (compacted r.window))) [
        | inl e ↦ rw e (inr (inr lib.is_error-insufficient_size))
        | inr e ↦
            let slower = io_deadline-measure lib peer drains r r.io.world in
            let io = (call_deadline peer lib r.connection r.io).1 in
            let s = record r { window = compacted r.window; io = io } in
            let w = Same-Waits lib peer drains r (compacted r.window) io i same refl refl slower in
            let less = w.less in
            rw e (rounds-FillEnds _ fuel r s (w, same.same_pending) (omega (arith, less)))
      ]
