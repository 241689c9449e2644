-- ===== src/Connection/Lines/Reading.antt =====
-- The loop of response_body_reader_read_line.
use http_c.Prelude.{
  ℕ, ◌+◌, ◌-◌, ◌≤◌, ◌<◌, ◌≡◌, ◌⊎◌, refl, sym, ap, subst, ◌∙◌, true, Option, none, some, [], ◌∷◌,
  ◌++◌, append-nil, append_assoc, take-append-drop, take-append, arith, length, length-append,
  length-take, take, drop, Bool-cases, inl, inr, if◌then◌else◌,
}
use http_c.Prelude.Rounds.{Ran, Goes, more, done, rounds-Ran, Goes-inside, Goes-mono, Ran-within}
use http_c.Common.{Bytes, ResultCode, ok, error}
use http_c.Span.{CommonLib}
use http_c.Connection.{Peer}
use http_c.Connection.Window.{
  IsWindow, pending_length, pending, skipped, length-pending, skipped-IsWindow, pending-skipped,
}
use http_c.Connection.Reader.{
  Reader, line_feed, take_line, fill, is_end_of_data, follow_search, line_round, read_line,
}
use http_c.Connection.Moving.{
  Drains, Moves, Moves-trans, Moves-refl, FillEnds, left, same_stored-output,
}
use http_c.Connection.Filling.{fill-Ran}
use http_c.Connection.Lines.{
  lf, IsOneLine, IsLine, IsOneLine-append, line_feed-some, line_feed-none, front-IsLine,
}

module _ (lib : CommonLib) (peer : Peer) (drains : Drains lib peer) where
  open peer use {World}

  -- It ends well, with one line consumed and none of its bytes passed on, or with an error.
  abbrev pub Reads : Reader World → ResultCode × Bytes → Reader World → Type 0
  Reads r result r' =
      ((result.0 ≡ ok) × (c : Bytes) × IsLine result.1 c × Moves lib peer drains c [] r r')
      ⊎ (lib.is_error result.0 ≡ true)

  -- Pending bytes are dropped.
  pub skipped-Moves :
      (n : ℕ) (r : Reader World)
      → IsWindow r.window
      → n ≤ pending_length r.window
      → Moves lib peer drains
          (take n (pending r.window))
          []
          r
          (record r { window = skipped n r.window })
  unfolding skipped
  skipped-Moves n r i enough = record {
    got = [];
    received_more = sym (append-nil r.io.received);
    in_order =
        append-nil (pending r.window)
        ∙ sym (take-append-drop n (pending r.window))
        ∙ ap (◌++◌ (take n (pending r.window))) (sym (pending-skipped n r.window i enough));
    passed_on = same_stored-output lib peer drains r (skipped n r.window) r.io refl refl;
    window = skipped-IsWindow n r.window i enough;
    same_capacity = refl;
    same_handler = refl;
    less = omega (arith, i.ordered, length-take n (pending r.window), length-pending r.window i);
  }

  take_line-Moves :
      (index : ℕ) (r : Reader World) (front b : Bytes)
      → IsWindow r.window
      → pending r.window ≡ front ++ b'\n' ∷ b
      → index ≡ r.window.start + length front
      → Moves lib peer drains (front ++ lf) [] r (take_line lib peer index r).1
  unfolding skipped
  take_line-Moves index r front b i cut at =
      let n = length front + 1 in
      let sizes = ap (length {A = ℕ}) cut ∙ length-append front (b'\n' ∷ b) in
      let place : r.window.start + n ≡ index + 1 = omega arith in
      let piece : take n (pending r.window) ≡ front ++ lf =
        ap (take n) (cut ∙ sym (append_assoc front lf b))
        ∙ take-append n (front ++ lf) b (omega (arith, length-append front lf)) in
      let moves = skipped-Moves n r i (omega (arith, sizes, length-pending r.window i)) in
      subst
        (λ (k : ℕ).
          Moves lib peer drains (front ++ lf) [] r
            (record r { window = record r.window { start = k } }))
        place
        (subst
          (λ (c : Bytes).
            Moves lib peer drains c [] r
              (record r { window = record r.window { start = r.window.start + n } }))
          piece moves)

  -- From `r` on, no byte is consumed, and the bytes searched hold no line feed.
  Searched : Reader World → ℕ × Reader World → Type 0
  Searched r (scanned, s) =
      Moves lib peer drains [] [] r s
      × (scanned ≤ pending_length s.window)
      × IsOneLine (take scanned (pending s.window))

  abbrev Going : ℕ × Reader World → ℕ × Reader World → Type 0
  Going s t = Searched s.1 t × (left lib peer drains t.1 < left lib peer drains s.1)

  abbrev Read : ℕ × Reader World → ResultCode × Bytes → ℕ × Reader World → Type 0
  Read s result t = Reads s.1 result t.1

  front_kept : (n : ℕ) (s got p : Bytes) → n ≡ length s → s ++ got ≡ p → take n p ≡ s
  front_kept n s got p e same = ap (take n) (sym same) ∙ take-append n s got e

  follow_fill-Read :
      (scanned : ℕ) (s : Reader World) (result : ResultCode) (r : Reader World)
      → IsWindow s.window
      → IsOneLine (pending s.window)
      → FillEnds lib peer drains s result r
      → Goes (Going (scanned, s)) (Read (scanned, s)) (
          if is_end_of_data result
          then done (error, []) (pending_length s.window, r)
          else if lib.is_error result
          then done (result, []) (pending_length s.window, r)
          else more (pending_length s.window, r))
  unfolding Searched
  follow_fill-Read scanned s result r i one_line (inl (e, waits, falls, some_bytes)) =
      let size = length-pending s.window i in
      let size' = length-pending r.window waits.window in
      let sizes =
        sym (length-append (pending s.window) waits.got) ∙ ap (length {A = ℕ}) waits.in_order in
      rw (e, lib.is_error-ok)
        (
          (
            waits,
            omega (arith, size, size', sizes),
            subst IsOneLine
                (sym (
                  front_kept (pending_length s.window) (pending s.window) waits.got
                    (pending r.window) (sym size) waits.in_order))
                one_line,
          ),
          falls,
        )
  follow_fill-Read scanned s result r i one_line (inr (inl (e, waits, closed, same))) =
      rw e (inr lib.is_error-error)
  follow_fill-Read scanned s result r i one_line (inr (inr f)) =
      elim (Bool-cases (is_end_of_data result)) [
        | inl e ↦ rw e (inr lib.is_error-error)
        | inr e ↦ rw (e, f) (inr f)
      ]

  module _ (scanned : ℕ) (s : Reader World) (i : IsWindow s.window)
      (enough : scanned ≤ pending_length s.window)
      (one_line : IsOneLine (take scanned (pending s.window))) where
    unsearched : Bytes
    unsearched =
        take (s.window.end - (s.window.start + scanned))
          (drop (s.window.start + scanned) s.window.buffer)

    unsearched_lem : pending s.window ≡ take scanned (pending s.window) ++ unsearched
    unfolding unsearched skipped
    unsearched_lem =
        sym (take-append-drop scanned (pending s.window))
        ∙ ap (◌++◌ (take scanned (pending s.window)))
            (sym (pending-skipped scanned s.window i enough))

    found-Reads :
        (index : ℕ)
        → line_feed (s.window.start + scanned) unsearched ≡ some index
        → Reads s (ok, (take_line lib peer index s).0) (take_line lib peer index s).1
    found-Reads index h =
        let (a, b, cut, no_lf, at) = line_feed-some (s.window.start + scanned) unsearched h in
        let front = take scanned (pending s.window) ++ a in
        let whole : pending s.window ≡ front ++ b'\n' ∷ b =
          unsearched_lem
          ∙ ap (◌++◌ (take scanned (pending s.window))) cut
          ∙ sym (append_assoc (take scanned (pending s.window)) a (b'\n' ∷ b)) in
        let place : index ≡ s.window.start + length front = omega (
          arith,
          at,
          length-append (take scanned (pending s.window)) a,
          length-take scanned (pending s.window),
          length-pending s.window i,
        ) in
        inl (
          refl,
          front ++ lf,
          front-IsLine s.window i front b whole index place
              (IsOneLine-append (take scanned (pending s.window)) a one_line no_lf),
          take_line-Moves index s front b i whole place,
        )

    module _ (fuel : ℕ) (enough_fuel : left lib peer drains s < fuel) where
      follow_search-Goes :
          (o : Option ℕ)
          → line_feed (s.window.start + scanned) unsearched ≡ o
          → Goes (Going (scanned, s)) (Read (scanned, s)) (follow_search lib peer fuel scanned s o)
      unfolding follow_search
      follow_search-Goes (some index) e = found-Reads index e
      follow_search-Goes none e =
          let no_lf = line_feed-none (s.window.start + scanned) unsearched e in
          let all : IsOneLine (pending s.window) =
            subst IsOneLine (sym unsearched_lem)
              (IsOneLine-append (take scanned (pending s.window)) unsearched one_line no_lf) in
          Goes-inside (FillEnds lib peer drains s) (Going (scanned, s)) (Read (scanned, s))
            (fill lib peer fuel s) _ (fill-Ran lib peer drains fuel s i enough_fuel)
            (λ result r ends. follow_fill-Read scanned s result r i all ends)

      line_round-Goes :
          Goes (Going (scanned, s)) (Read (scanned, s)) (line_round lib peer fuel (scanned, s))
      unfolding line_round unsearched
      line_round-Goes = follow_search-Goes (line_feed (s.window.start + scanned) unsearched) refl

  Reads-behind :
      (r s : Reader World)
      → Moves lib peer drains [] [] r s
      → (result : ResultCode × Bytes) (t : Reader World) → Reads s result t
      → Reads r result t
  Reads-behind r s before result t (inl (e, c, line, moves)) =
      inl (e, c, line, Moves-trans lib peer drains before moves)
  Reads-behind r s before result t (inr f) = inr f

  -- With fuel for what the stream has left, it ends; and where it answers ok, it has consumed one
  -- line with its end, and answers the line without its end.
  pub read_line-Reads :
      (fuel : ℕ) (r : Reader World)
      → IsWindow r.window
      → left lib peer drains r < fuel
      → Ran (Reads r) (read_line lib peer fuel r)
  unfolding read_line Searched
  read_line-Reads fuel r i enough =
      Ran-within (Read (0, r)) (Reads r) _ _
        (rounds-Ran (line_round lib peer fuel) (Searched r) (Read (0, r))
          (λ t. left lib peer drains t.1)
          (λ t p.
            Goes-mono (Going t) _ (Read t) (Read (0, r)) (line_round lib peer fuel t)
              (λ t' g. ((Moves-trans lib peer drains p.0 g.0.0, g.0.1, g.0.2), g.1))
              (λ result t' g. Reads-behind r t.1 p.0 result t'.1 g)
              (line_round-Goes t.0 t.1 p.0.window p.1 p.2 fuel (omega (arith, p.0.less, enough))))
          fuel (0, r) (Moves-refl lib peer drains r i, omega arith, tt) enough)
        (λ result t q. q)
