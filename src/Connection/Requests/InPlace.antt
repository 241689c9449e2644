-- ===== src/Connection/Requests/InPlace.antt =====
-- read_chunked_body dechunks in place, and no copy overwrites what is still to be read.
use http_c.Prelude.{
  ℕ, ◌+◌, ◌-◌, ◌≤◌, ◌<◌, ◌≡◌, ◌≢◌, ◌⊎◌, refl, sym, ap, subst, ◌∙◌, true, false, Option, none, some,
  [], ◌∷◌, ◌++◌, append_assoc, arith, length, length-append, length-drop, take-append, take_all,
  drop, Bool-cases, inl, inr, ltb, ◌==◌, ==_iff, if◌then◌else◌,
}
use http_c.Prelude.Rounds.{
  Ran, Ran-mono, Goes, Goes-mono, more, done, inside, rounds, rounds-Ran, Goes-inside,
}
use http_c.Common.{Bytes, ResultCode, ok}
use http_c.Span.{CommonLib}
use http_c.Connection.{Connection, Peer, Io}
use http_c.Connection.Window.{IsWindow, pending_length, pending, stored}
use http_c.Connection.Reader.{Reader}
use http_c.Connection.Moving.{Drains, Moves, Moves-trans, Moves-refl, left}
use http_c.Connection.Requests.{
  ensure_buffered, read_size, copy_chunk, raw_round, read_chunked_body, at_start, past, at_window,
}
use http_c.Connection.Requests.Buffering.{Ensures, ensure_buffered-Ensures, advanced_one-Moves}
use http_c.Connection.Requests.Sizes.{IsLooseSize, Sizes, read_size-Sizes}
use http_c.Connection.Requests.Loose.{IsLoose, size_line_pos, Copies, Falls, copy-Copies}

module _ (lib : CommonLib) (peer : Peer) (drains : Drains lib peer) where
  open peer use {World}

  -- One byte of the line end, or none.
  past-Moves :
      (c : ℕ) (r : Reader World)
      → IsWindow r.window
      → 1 ≤ pending_length r.window
      → (x : Bytes) × ((x ≡ []) ⊎ (x ≡ c ∷ []))
        × Moves lib peer drains x [] r (at_window lib peer r (past c r.window))
        × (pending_length r.window ≤ pending_length (past c r.window) + 1)
  past-Moves c r i some_bytes = elim (Bool-cases (at_start r.window == c)) [
    | inl e ↦ rw e (
      at_start r.window ∷ [],
      inr (ap (λ (y : ℕ). y ∷ []) ((==_iff _ c).0 e)),
      advanced_one-Moves lib peer drains r i some_bytes,
      omega arith,
    )
    | inr e ↦ rw e ([], inl refl, Moves-refl lib peer drains r i, omega arith)
  ]

  -- It ends well, with such a body consumed and what it stands for stored, or with an error.
  abbrev pub Dechunks : Reader World → ResultCode → Reader World → Type 0
  Dechunks r result s =
      ((result ≡ ok) × (c : Bytes) × (x : Bytes) × IsLoose c x × Moves lib peer drains c x r s)
      ⊎ (lib.is_error result ≡ true)

  abbrev Begins : Bytes → Bytes → Type 0
  Begins c x = (c' x' : Bytes) → IsLoose c' x' → IsLoose (c ++ c') (x ++ x')

  abbrev Going : Reader World → Reader World → Type 0
  Going r s =
      ((c : Bytes) × (x : Bytes) × Begins c x × Moves lib peer drains c x r s)
      × Falls lib peer drains r s

  module _ (fuel : ℕ) (r s : Reader World) (enough : left lib peer drains r < fuel) (l : Bytes)
      (n : ℕ) (is_size : IsLooseSize l n) (some_data : n ≢ 0)
      (before : Moves lib peer drains l [] r s) (mode : s.body_handler ≡ none) where
    end-Goes :
        (d : Bytes)
        → length d ≡ n
        → (t : Reader World) → Moves lib peer drains d d s t
        → (result : ResultCode) (u : Reader World) → Ensures lib peer drains 2 t result u
        → Goes (Going r) (Dechunks r) (
            if lib.is_error result
            then done result u
            else more (at_window lib peer u (past b'\n' (past b'\r' u.window))))
    end-Goes d count t data_moves result u (inl (e, waits, two)) =
        let (x, is_x, moves_x, left_x) = past-Moves b'\r' u waits.window (omega arith) in
        let (y, is_y, moves_y, left_y) =
          past-Moves b'\n' (at_window lib peer u (past b'\r' u.window)) moves_x.window
            (omega (arith, left_x)) in
        let end_moves = Moves-trans lib peer drains moves_x moves_y in
        let all =
          Moves-trans lib peer drains before (
            Moves-trans lib peer drains data_moves (Moves-trans lib peer drains waits end_moves)) in
        rw (e, lib.is_error-ok)
          (
            (
              l ++ (d ++ (x ++ y)),
              d ++ [],
              λ c' x' rest.
                  IsLoose.chunk d (x ++ y) is_size some_data count (x, y, refl, is_x, is_y) rest
                    refl (append_assoc d [] x'),
              all,
            ),
            omega (arith, all.less, length-append l (d ++ (x ++ y)), size_line_pos l n is_size),
          )
    end-Goes d count t data_moves result u (inr f) = rw f (inr f)

    copy_chunk-Goes : Goes (Going r) (Dechunks r) (copy_chunk lib peer fuel n s)
    unfolding copy_chunk
    copy_chunk-Goes =
        Goes-inside (λ result t. Copies lib peer drains n s result t.1) (Going r) (Dechunks r) _ _
          (copy-Copies lib peer drains fuel n s before.window mode (omega (arith, before.less)))
          (λ result t copied. by_result result t copied)
      where
        by_result :
            (result : ResultCode) (t : ℕ × Reader World)
            → Copies lib peer drains n s result t.1
            → Goes (Going r) (Dechunks r) (
                if lib.is_error result
                then done result t.1
                else inside (ensure_buffered lib peer fuel 2 t.1) (λ result' u.
                  if lib.is_error result'
                  then done result' u
                  else more (at_window lib peer u (past b'\n' (past b'\r' u.window)))))
        by_result result t (inl (e, d, moves, count)) =
            rw (e, lib.is_error-ok)
              (Goes-inside (Ensures lib peer drains 2 t.1) (Going r) (Dechunks r)
                (ensure_buffered lib peer fuel 2 t.1) _
                (ensure_buffered-Ensures lib peer drains fuel 2 t.1 moves.window
                  (omega (arith, moves.less, before.less)))
                (λ result' u ends. end-Goes d count t.1 moves result' u ends))
        by_result result t (inr f) = rw f (inr f)

  follow_size-Goes :
      (fuel : ℕ) (r : Reader World)
      → r.body_handler ≡ none
      → left lib peer drains r < fuel
      → (a : ResultCode × ℕ) (s : Reader World) → Sizes lib peer drains r a s
      → Goes (Going r) (Dechunks r) (
          if lib.is_error a.0
          then done a.0 s
          else if a.1 == 0
          then done ok s
          else copy_chunk lib peer fuel a.1 s)
  follow_size-Goes fuel r mode enough a s (inl (e, l, is_size, moves)) =
      elim (Bool-cases (a.1 == 0)) [
        | inl f ↦
            rw (e, lib.is_error-ok, f)
              (inl (
                refl,
                l,
                [],
                IsLoose.last (subst (IsLooseSize l) ((==_iff a.1 0).0 f) is_size),
                moves,
              ))
        | inr f ↦
            rw (e, lib.is_error-ok, f)
              (copy_chunk-Goes fuel r s enough l a.1 is_size (ground arith) moves
                (moves.same_handler ∙ mode))
      ]
  follow_size-Goes fuel r mode enough a s (inr f) = rw f (inr f)

  Dechunks-behind :
      (r s : Reader World) (c x : Bytes)
      → Begins c x
      → Moves lib peer drains c x r s
      → (result : ResultCode) (t : Reader World) → Dechunks s result t
      → Dechunks r result t
  Dechunks-behind r s c x begins before result t (inl (e, c', x', body, moves)) =
      inl (e, c ++ c', x ++ x', begins c' x' body, Moves-trans lib peer drains before moves)
  Dechunks-behind r s c x begins before result t (inr f) = inr f

  raw_rounds-Dechunks :
      (fuel : ℕ) (r : Reader World)
      → IsWindow r.window
      → r.body_handler ≡ none
      → left lib peer drains r < fuel
      → Ran (Dechunks r) (rounds (raw_round lib peer fuel) fuel r)
  unfolding raw_round
  raw_rounds-Dechunks fuel r i mode enough =
      rounds-Ran (raw_round lib peer fuel)
        (λ s. (c : Bytes) × (x : Bytes) × Begins c x × Moves lib peer drains c x r s) (Dechunks r)
        (left lib peer drains)
        (λ s p.
          Goes-mono (Going s) _ (Dechunks s) (Dechunks r) (raw_round lib peer fuel s)
            (λ t g. (
              (
                p.0 ++ g.0.0,
                p.1 ++ g.0.1,
                λ c' x' body.
                    subst (λ (y : Bytes). IsLoose y ((p.1 ++ g.0.1) ++ x'))
                      (sym (append_assoc p.0 g.0.0 c'))
                      (subst (IsLoose (p.0 ++ (g.0.0 ++ c'))) (sym (append_assoc p.1 g.0.1 x'))
                        (p.2 _ _ (g.0.2 c' x' body))),
                Moves-trans lib peer drains p.3 g.0.3,
              ),
              g.1,
            ))
            (λ result t g. Dechunks-behind r s p.0 p.1 p.2 p.3 result t g)
            (Goes-inside (Sizes lib peer drains s) (Going s) (Dechunks s)
              (read_size lib peer fuel s) _
              (read_size-Sizes lib peer drains fuel s p.3.window (omega (arith, p.3.less, enough)))
              (λ a t sizes.
                follow_size-Goes fuel s (p.3.same_handler ∙ mode) (omega (arith, p.3.less, enough))
                  a t sizes)))
        fuel r ([], [], λ c x body. body, Moves-refl lib peer drains r i) enough

  -- With fuel for what the stream has left, it ends; and where it answers ok, the body that stands
  -- at the front of the buffer is what the raw bytes of the same buffer and of the stream stand
  -- for: no copy has overwritten a byte that was still to be read.
  pub read_chunked_body-in_place :
      (fuel : ℕ) (connection : Connection) (remainder buffer : Bytes) (io : Io World)
      → length remainder ≤ length buffer
      → drains.measure io.world + length remainder < fuel
      → Ran
          (λ result raw.
            ((result ≡ ok)
              × (got : Bytes) × (c : Bytes) × (rest : Bytes) × (raw.io.received
                  ≡ io.received ++ got)
              × (remainder ++ got ≡ c ++ rest)
              × IsLoose c (stored raw.window))
            ⊎ (lib.is_error result ≡ true))
          (read_chunked_body lib peer fuel connection remainder buffer io)
  unfolding read_chunked_body
  read_chunked_body-in_place fuel connection remainder buffer io room enough =
      let fits : ltb (length buffer) (length remainder) ≡ false = ground arith in
      let all = take_all (length remainder) remainder (omega arith) in
      rw (fits, all)
        (Ran-mono (Dechunks started) _ _ by_result (
          raw_rounds-Dechunks fuel started
            (record {
              behind = omega arith;
              ordered = omega arith;
              inside = omega (
                arith,
                length-append remainder (drop (length remainder) buffer),
                length-drop (length remainder) buffer,
              );
            })
            refl (omega arith)))
    where
      started : Reader World
      started = record {
        connection = connection;
        window = record {
          buffer = remainder ++ drop (length remainder) buffer;
          start = 0;
          end = length remainder;
          stored_length = 0;
        };
        body_handler = none;
        body_handler_context = none;
        io = io;
      }

      by_result :
          (result : ResultCode) (s : Reader World)
          → Dechunks started result s
          → ((result ≡ ok)
              × (got : Bytes) × (c : Bytes) × (rest : Bytes) × (s.io.received ≡ io.received ++ got)
              × (remainder ++ got ≡ c ++ rest)
              × IsLoose c (stored s.window))
            ⊎ (lib.is_error result ≡ true)
      by_result result s (inl (e, c, x, body, moves)) =
          let front : pending started.window ≡ remainder =
            take-append (length remainder - 0) remainder _ (omega arith) in
          let kept : stored s.window ≡ x =
            subst
              (λ (m : Option ℕ).
                (elim m [ none ↦ stored s.window | some handler ↦ s.io.handed ]) ≡ x)
              moves.same_handler moves.passed_on in
          inl (
            e,
            moves.got,
            c,
            pending s.window,
            moves.received_more,
            ap (λ (b : Bytes). b ++ moves.got) (sym front) ∙ moves.in_order,
            subst (IsLoose c) (sym kept) body,
          )
      by_result result s (inr f) = inr f
