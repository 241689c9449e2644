-- ===== src/Connection/Passing.antt =====
-- response_body_reader_deliver, response_body_reader_pass_through and
-- response_body_reader_until_close pass on the bytes that they consume.
use http_c.Prelude.{
  ℕ, ◌+◌, ◌≤◌, ◌<◌, ◌≡◌, ◌≢◌, ◌⊎◌, refl, sym, ap, ◌∙◌, true, Option, none, some, [], ◌++◌,
  append-nil, take-append-drop, arith, length, length-take, length-append, take, drop, Bool-cases,
  inl, inr, ltb, ◌==◌, ==_iff, if◌then◌else◌,
}
use http_c.Prelude.Rounds.{Ran, Goes, done, rounds-Ran, Goes-inside, Ran-within, Goes-mono}
use http_c.Prelude.Buffers.{take-take}
use http_c.Common.{Bytes, ResultCode, ok, error}
use http_c.Span.{CommonLib}
use http_c.Connection.{Peer}
use http_c.Connection.Window.{
  Window, IsWindow, pending_length, pending, kept, skipped, length-pending, skipped-IsWindow,
  pending-skipped, kept-IsWindow, pending-kept, stored-kept, capacity-kept,
}
use http_c.Connection.Reader.{
  Reader, fill, deliver, is_end_of_data, pass_some, pass_round, pass_through,
}
use http_c.Connection.Moving.{Drains, Moves, Moves-trans, Moves-refl, FillEnds, left}
use http_c.Connection.Filling.{fill-Ran}

module _ (lib : CommonLib) (peer : Peer) (drains : Drains lib peer) where
  open peer use {World}

  -- It ends well, with that many bytes consumed and passed on, or with an error.
  abbrev pub Passes : ℕ → Reader World → ResultCode → Reader World → Type 0
  Passes n r result r' =
      ((result ≡ ok) × (c : Bytes) × Moves lib peer drains c c r r' × (length c ≡ n))
      ⊎ (lib.is_error result ≡ true)

  length_front :
      (n : ℕ) (w : Window) → IsWindow w → n ≤ pending_length w → length (take n (pending w)) ≡ n
  length_front n w i enough = omega (arith, length-take n (pending w), length-pending w i)

  split_front : (n : ℕ) (w : Window) → pending w ++ [] ≡ take n (pending w) ++ drop n (pending w)
  split_front n w = append-nil (pending w) ∙ sym (take-append-drop n (pending w))

  -- In either mode; the reader of the statement has its mode named.
  pub deliver_in-Passes :
      (mode : Option ℕ) (n : ℕ) (r : Reader World)
      → IsWindow r.window
      → n ≤ pending_length r.window
      → let s = record r { body_handler = mode } in
        Passes n s (deliver lib peer n s).0 (deliver lib peer n s).1
  unfolding deliver kept skipped
  deliver_in-Passes none n r i enough =
      let size = length_front n r.window i enough in
      inl (
        refl,
        take n (pending r.window),
        record {
          got = [];
          received_more = sym (append-nil r.io.received);
          in_order =
              split_front n r.window
              ∙ ap (◌++◌ (take n (pending r.window))) (sym (pending-kept n r.window i enough));
          passed_on = stored-kept n r.window i enough;
          window = kept-IsWindow n r.window i enough;
          same_capacity = capacity-kept n r.window i enough;
          same_handler = refl;
          less = omega (arith, size);
        },
        size,
      )
  deliver_in-Passes (some handler) n r i enough =
      let size = length_front n r.window i enough in
      let piece = take n (drop r.window.start r.window.buffer) in
      let called = peer.body_handler handler r.body_handler_context piece r.io.world in
      let slower = drains.handles handler r.body_handler_context piece r.io.world in
      elim (Bool-cases (lib.is_error called.0)) [
        | inl f ↦ inr (rw f f)
        | inr f ↦ inl (
          rw f refl,
          take n (pending r.window),
          record {
            got = [];
            received_more = sym (append-nil r.io.received);
            in_order =
                split_front n r.window
                ∙ ap (◌++◌ (take n (pending r.window))) (sym (pending-skipped n r.window i enough));
            passed_on = ap (◌++◌ r.io.handed) (sym (take-take n _ (drop r.window.start _) enough));
            window = skipped-IsWindow n r.window i enough;
            same_capacity = refl;
            same_handler = refl;
            less = omega (arith, size, slower);
          },
          size,
        )
      ]

  pub deliver-Passes :
      (n : ℕ) (r : Reader World)
      → IsWindow r.window
      → n ≤ pending_length r.window
      → Passes n r (deliver lib peer n r).0 (deliver lib peer n r).1
  deliver-Passes n r i enough = deliver_in-Passes r.body_handler n r i enough

  -- Some bytes are passed on, and the rest is left to the next rounds.
  Progress : ℕ → Reader World → ℕ × Reader World → Type 0
  Progress n s t = (c : Bytes) × Moves lib peer drains c c s t.1 × (length c + t.0 ≡ n)

  Fails : ResultCode → ℕ × Reader World → Type 0
  Fails result t = lib.is_error result ≡ true

  pass_some-Goes :
      (n : ℕ) (s : Reader World)
      → n ≢ 0
      → IsWindow s.window
      → s.window.start < s.window.end
      → Goes
          (λ t. Progress n s t × (left lib peer drains t.1 < left lib peer drains s))
          Fails
          (pass_some lib peer n s)
  unfolding pass_some Progress Fails
  pass_some-Goes n s some_left i some_bytes =
      let available = pending_length s.window in
      let taken = if ltb available n then available else n in
      let within_both : (taken ≤ available) × (taken ≤ n) × (0 < taken) = ground arith in
      elim (deliver-Passes taken s i within_both.0) [
        | inl (e, c, moves, size) ↦
            rw (e, lib.is_error-ok)
              (
                (c, moves, omega (arith, size, within_both.1)),
                omega (arith, size, within_both.2, moves.less),
              )
        | inr f ↦ rw f f
      ]

  abbrev Going : ℕ → Reader World → ℕ × Reader World → Type 0
  Going n s t = Progress n s t × (left lib peer drains t.1 < left lib peer drains s)

  abbrev Passed : ℕ → Reader World → ResultCode → ℕ × Reader World → Type 0
  Passed n s result t = Passes n s result t.1

  pass_some-Passed :
      (n : ℕ) (s r : Reader World)
      → n ≢ 0
      → Moves lib peer drains [] [] s r
      → r.window.start < r.window.end
      → Goes (Going n s) (Passed n s) (pass_some lib peer n r)
  unfolding Progress Fails
  pass_some-Passed n s r some_left w some_bytes =
      Goes-mono _ (Going n s) Fails (Passed n s) (pass_some lib peer n r)
        (λ t g. ((g.0.0, Moves-trans lib peer drains w g.0.1, g.0.2), omega (arith, g.1, w.less)))
        (λ a t f. inr f) (pass_some-Goes n r some_left w.window some_bytes)

  -- a round that had to fill the window first
  follow_fill-Passed :
      (n : ℕ) (s : Reader World) (result : ResultCode) (r : Reader World)
      → n ≢ 0
      → FillEnds lib peer drains s result r
      → Goes (Going n s) (Passed n s) (
          if is_end_of_data result
          then done error (n, r)
          else if lib.is_error result
          then done result (n, r)
          else pass_some lib peer n r)
  follow_fill-Passed n s result r some_left (inl (e, waits, falls, some_bytes)) =
      rw (e, lib.is_error-ok) (pass_some-Passed n s r some_left waits some_bytes)
  follow_fill-Passed n s result r some_left (inr (inl (e, waits, closed, same))) =
      rw e (inr lib.is_error-error)
  follow_fill-Passed n s result r some_left (inr (inr f)) =
      elim (Bool-cases (is_end_of_data result)) [
        | inl e ↦ rw e (inr lib.is_error-error)
        | inr e ↦ rw (e, f) (inr f)
      ]

  pass_round-Goes :
      (fuel n : ℕ) (s : Reader World)
      → IsWindow s.window
      → left lib peer drains s < fuel
      → Goes (Going n s) (Passed n s) (pass_round lib peer fuel (n, s))
  unfolding pass_round
  pass_round-Goes fuel n s i enough = elim (Bool-cases (n == 0)) [
    | inl e ↦ rw e (inl (refl, [], Moves-refl lib peer drains s i, sym ((==_iff n 0).0 e)))
    | inr e ↦
        let some_left : n ≢ 0 = ground arith in
        elim (Bool-cases (s.window.start == s.window.end)) [
          | inl f ↦
              rw (e, f)
                (Goes-inside (FillEnds lib peer drains s) (Going n s) (Passed n s)
                  (fill lib peer fuel s) _ (fill-Ran lib peer drains fuel s i enough)
                  (λ result r ends. follow_fill-Passed n s result r some_left ends))
          | inr f ↦
              rw (e, f)
                (pass_some-Passed n s s some_left (Moves-refl lib peer drains s i)
                  (ground (arith, i.ordered)))
        ]
  ]

  Passes-behind :
      (n : ℕ) (r : Reader World) (t : ℕ × Reader World)
      → Progress n r t
      → (result : ResultCode) (t' : ℕ × Reader World) → Passed t.0 t.1 result t'
      → Passed n r result t'
  unfolding Progress
  Passes-behind n r t p result t' (inl (e, c, moves, size)) = inl (
    e,
    p.0 ++ c,
    Moves-trans lib peer drains p.1 moves,
    omega (arith, p.2, size, length-append p.0 c),
  )
  Passes-behind n r t p result t' (inr f) = inr f

  -- With fuel for what the stream has left, it ends; and where it answers ok, it has consumed that
  -- number of bytes and passed on these, neither more nor fewer, in order.
  pub pass_through-Passes :
      (fuel n : ℕ) (r : Reader World)
      → IsWindow r.window
      → left lib peer drains r < fuel
      → Ran (Passes n r) (pass_through lib peer fuel n r)
  unfolding pass_through Progress
  pass_through-Passes fuel n r i enough =
      Ran-within (Passed n r) (Passes n r) _ _
        (rounds-Ran (pass_round lib peer fuel) (Progress n r) (Passed n r)
          (λ t. left lib peer drains t.1)
          (λ t p.
            Goes-mono (Going t.0 t.1) _ (Passed t.0 t.1) (Passed n r) (pass_round lib peer fuel t)
              (λ t' g. (
                (
                  p.0 ++ g.0.0,
                  Moves-trans lib peer drains p.1 g.0.1,
                  omega (arith, p.2, g.0.2, length-append p.0 g.0.0),
                ),
                g.1,
              ))
              (λ result t' g. Passes-behind n r t p result t' g)
              (pass_round-Goes fuel t.0 t.1 p.1.window (omega (arith, p.1.less, enough))))
          fuel (n, r) ([], Moves-refl lib peer drains r i, omega arith) enough)
        (λ result t q. q)
