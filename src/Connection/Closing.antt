-- ===== src/Connection/Closing.antt =====
-- response_body_reader_until_close passes on all that the peer sends before it closes.
use http_c.Prelude.{
  ℕ, ◌<◌, ◌≡◌, ◌≢◌, ◌⊎◌, refl, sym, ◌∙◌, true, Option, none, some, [], ◌++◌, arith, take_none,
  Bool-cases, inl, inr, ltb, if◌then◌else◌,
}
use http_c.Prelude.Rounds.{Ran, Goes, more, done, rounds-Ran, Goes-inside, Goes-mono}
use http_c.Common.{Bytes, ResultCode, ok}
use http_c.Span.{CommonLib}
use http_c.Connection.{Peer}
use http_c.Connection.Window.{IsWindow, pending_length, pending, kept, skipped}
use http_c.Connection.Reader.{Reader, fill, deliver, is_end_of_data, close_round, until_close}
use http_c.Connection.Moving.{Drains, Moves, Moves-trans, Moves-refl, FillEnds, left}
use http_c.Connection.Filling.{fill-Ran}
use http_c.Connection.Passing.{Passes, deliver-Passes}

module _ (lib : CommonLib) (peer : Peer) (drains : Drains lib peer) where
  open peer use {World}

  -- It ends well at the close, with nothing that was received kept back, or with an error.
  abbrev pub Closes : Reader World → ResultCode → Reader World → Type 0
  Closes r result r' =
      ((result ≡ ok)
        × (c : Bytes) × Moves lib peer drains c c r r'
        × (pending r'.window ≡ [])
        × (r'.io.closed ≡ true))
      ⊎ (lib.is_error result ≡ true)

  deliver_in-empty :
      (mode : Option ℕ) (r : Reader World)
      → IsWindow r.window
      → let s = (deliver lib peer (pending_length r.window) (record r { body_handler = mode })).1 in
        pending_length s.window ≡ 0
  unfolding deliver kept skipped
  deliver_in-empty none r i = omega (arith, i.ordered)
  deliver_in-empty (some handler) r i = omega (arith, i.ordered)

  -- the first half of a round
  abbrev emptied : Reader World → ResultCode × Reader World
  emptied s =
      if ltb s.window.start s.window.end
      then deliver lib peer (pending_length s.window) s
      else (ok, s)

  emptied-Passes :
      (s : Reader World)
      → IsWindow s.window
      → Passes lib peer drains (pending_length s.window) s (emptied s).0 (emptied s).1
        × (pending (emptied s).1.window ≡ [])
  emptied-Passes s i = elim (Bool-cases (ltb s.window.start s.window.end)) [
    | inl e ↦ rw e (
      deliver-Passes lib peer drains (pending_length s.window) s i (omega arith),
      take_none _ _ (deliver_in-empty s.body_handler s i),
    )
    | inr e ↦
        let none_left : pending_length s.window ≡ 0 = ground arith in
        rw e
          (inl (refl, [], Moves-refl lib peer drains s i, sym none_left), take_none _ _ none_left)
  ]

  abbrev Going : Reader World → Reader World → Type 0
  Going s t =
      ((c : Bytes) × Moves lib peer drains c c s t)
      × (left lib peer drains t < left lib peer drains s)

  follow_fill-Closes :
      (c : Bytes) (s t : Reader World) (result : ResultCode) (r : Reader World)
      → Moves lib peer drains c c s t
      → pending t.window ≡ []
      → FillEnds lib peer drains t result r
      → Goes (Going s) (Closes s) (
          if is_end_of_data result
          then done ok r
          else if lib.is_error result
          then done result r
          else more r)
  follow_fill-Closes c s t result r moves empty (inl (e, waits, falls, some_bytes)) =
      rw (e, lib.is_error-ok)
        ((c ++ [], Moves-trans lib peer drains moves waits), omega (arith, moves.less))
  follow_fill-Closes c s t result r moves empty (inr (inl (e, waits, closed, same))) =
      rw e (inl (refl, c ++ [], Moves-trans lib peer drains moves waits, same ∙ empty, closed))
  follow_fill-Closes c s t result r moves empty (inr (inr f)) =
      elim (Bool-cases (is_end_of_data result)) [
        | inl e ↦ absurd (no_end result e f)
        | inr e ↦ rw (e, f) (inr f)
      ]
    where
      no_end : (result : ResultCode) → is_end_of_data result ≡ true → lib.is_error result ≢ true
      no_end ResultCode.end_of_data e f = ground (arith, lib.is_error-end_of_data)
      no_end ResultCode.ok e f = cc
      no_end ResultCode.error e f = cc
      no_end ResultCode.invalid_argument e f = cc
      no_end ResultCode.try_again e f = cc
      no_end ResultCode.not_found e f = cc
      no_end ResultCode.insufficient_size e f = cc
      no_end ResultCode.end_of_file e f = cc
      no_end ResultCode.unexpected_char e f = cc

  close_round-Goes :
      (fuel : ℕ) (s : Reader World)
      → IsWindow s.window
      → left lib peer drains s < fuel
      → Goes (Going s) (Closes s) (close_round lib peer fuel s)
  unfolding close_round
  close_round-Goes fuel s i enough =
      let (passes, empty) = emptied-Passes s i in
      elim passes [
        | inl (e, c, moves, size) ↦
            rw (e, lib.is_error-ok)
              (Goes-inside (FillEnds lib peer drains (emptied s).1) (Going s) (Closes s)
                (fill lib peer fuel (emptied s).1) _
                (fill-Ran lib peer drains fuel (emptied s).1 moves.window
                  (omega (arith, moves.less, enough)))
                (λ result r ends. follow_fill-Closes c s (emptied s).1 result r moves empty ends))
        | inr f ↦ rw f (inr f)
      ]

  -- With fuel for what the stream has left, it ends; and where it answers ok, the peer has closed
  -- and every byte that was received has been passed on, in order.
  pub until_close-Closes :
      (fuel : ℕ) (r : Reader World)
      → IsWindow r.window
      → left lib peer drains r < fuel
      → Ran (Closes r) (until_close lib peer fuel r)
  unfolding until_close
  until_close-Closes fuel r i enough =
      rounds-Ran (close_round lib peer fuel) (λ s. (c : Bytes) × Moves lib peer drains c c r s)
        (Closes r) (left lib peer drains)
        (λ s p.
          Goes-mono (Going s) _ (Closes s) (Closes r) (close_round lib peer fuel s)
            (λ t g. ((p.0 ++ g.0.0, Moves-trans lib peer drains p.1 g.0.1), g.1))
            (λ result t g. closes_behind r s p.0 p.1 result t g)
            (close_round-Goes fuel s p.1.window (omega (arith, p.1.less, enough))))
        fuel r ([], Moves-refl lib peer drains r i) enough
    where
      closes_behind :
          (r s : Reader World) (c : Bytes)
          → Moves lib peer drains c c r s
          → (result : ResultCode) (t : Reader World) → Closes s result t
          → Closes r result t
      closes_behind r s c before result t (inl (e, c', moves, empty, closed)) =
          inl (e, c ++ c', Moves-trans lib peer drains before moves, empty, closed)
      closes_behind r s c before result t (inr f) = inr f
