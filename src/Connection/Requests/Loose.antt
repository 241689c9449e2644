-- ===== src/Connection/Requests/Loose.antt =====
-- read_chunked_body: what it takes for a chunked body, and that dechunking in place is safe.
use http_c.Prelude.{
  ℕ, ◌+◌, ◌-◌, ◌≤◌, ◌<◌, ◌≡◌, ◌≢◌, ◌⊎◌, refl, sym, ap, subst, ◌∙◌, true, false, Option, none, [],
  ◌∷◌, ◌++◌, arith, length, length-append, Bool-cases, inl, inr, ltb, ◌==◌, ==_iff, if◌then◌else◌,
}
use http_c.Prelude.Rounds.{Ran, Goes, Goes-mono, more, done, rounds, rounds-Ran, Goes-inside}
use http_c.Common.{Bytes, ResultCode, ok, insufficient_size}
use http_c.Span.{CommonLib}
use http_c.Connection.{Peer}
use http_c.Connection.Window.{IsWindow, capacity, pending_length, kept}
use http_c.Connection.Reader.{Reader, deliver}
use http_c.Connection.Moving.{Drains, Moves, Moves-trans, Moves-refl, left}
use http_c.Connection.Passing.{Passes, deliver_in-Passes}
use http_c.Connection.Lines.{lf}
use http_c.Connection.Requests.{ensure_buffered, copy_round, at_window}
use http_c.Connection.Requests.Buffering.{Ensures, ensure_buffered-Ensures}
use http_c.Connection.Requests.Sizes.{IsLooseSize}

-- a line end behind the data, in which the carriage return and the line feed may be missing
abbrev pub IsLooseEnd : Bytes → Type 0
IsLooseEnd e =
    (x : Bytes) × (y : Bytes) × (e ≡ x ++ y)
    × ((x ≡ []) ⊎ (x ≡ b'\r' ∷ []))
    × ((y ≡ []) ⊎ (y ≡ b'\n' ∷ []))

-- The bytes `c` are what this reader takes for a chunked body that stands for `x`; it stops behind
-- the line of the last chunk.
pub data IsLoose : Bytes → Bytes → Type 0 where
  last : {c : Bytes} → IsLooseSize c 0 → IsLoose c []
  chunk :
      {l c c' x x' : Bytes} {n : ℕ} (d e : Bytes)
      → IsLooseSize l n
      → n ≢ 0
      → length d ≡ n
      → IsLooseEnd e
      → IsLoose c' x'
      → c ≡ (l ++ (d ++ e)) ++ c'
      → x ≡ d ++ x'
      → IsLoose c x

pub size_line_pos : (l : Bytes) (n : ℕ) → IsLooseSize l n → 0 < length l
size_line_pos l n h =
    omega (arith, ap (length {A = ℕ}) h.3, length-append h.0 (h.1 ++ lf), length-append h.1 lf)

module _ (lib : CommonLib) (peer : Peer) (drains : Drains lib peer) where
  open peer use {World}

  -- In the stored mode the pending bytes are copied to the front.
  kept-Moves :
      (n : ℕ) (r : Reader World)
      → IsWindow r.window
      → n ≤ pending_length r.window
      → r.body_handler ≡ none
      → (c : Bytes) × Moves lib peer drains c c r (at_window lib peer r (kept n r.window))
        × (length c ≡ n)
  unfolding deliver
  kept-Moves n r i enough mode =
      subst
        (λ (m : Option ℕ).
          (c : Bytes) × Moves lib peer drains c c (record r { body_handler = m })
            (at_window lib peer (record r { body_handler = m }) (kept n r.window))
          × (length c ≡ n))
        (sym mode) (by_result (deliver_in-Passes lib peer drains none n r i enough))
    where
      by_result :
          Passes lib peer drains n
            (record r { body_handler = none })
            ok
            (at_window lib peer (record r { body_handler = none }) (kept n r.window))
          → (c : Bytes) × Moves lib peer drains c c
              (record r { body_handler = none })
              (at_window lib peer (record r { body_handler = none }) (kept n r.window))
            × (length c ≡ n)
      by_result (inl (e, c, moves, size)) = (c, moves, size)
      by_result (inr f) = absurd (ground (arith, lib.is_error-ok))

  abbrev pub Copies : ℕ → Reader World → ResultCode → Reader World → Type 0
  Copies n r result s =
      ((result ≡ ok) × (c : Bytes) × Moves lib peer drains c c r s × (length c ≡ n))
      ⊎ (lib.is_error result ≡ true)

  abbrev Copied : ℕ → Reader World → ℕ × Reader World → Type 0
  Copied n r t = (c : Bytes) × Moves lib peer drains c c r t.1 × (length c + t.0 ≡ n)

  abbrev pub Falls : Reader World → Reader World → Type 0
  Falls r s = left lib peer drains s < left lib peer drains r

  copy_round-Goes :
      (fuel n : ℕ) (r : Reader World)
      → IsWindow r.window
      → r.body_handler ≡ none
      → left lib peer drains r < fuel
      → Goes
          (λ t. Copied n r t × Falls r t.1)
          (λ result t. Copies n r result t.1)
          (copy_round lib peer fuel (n, r))
  unfolding copy_round
  copy_round-Goes fuel n r i mode enough = elim (Bool-cases (n == 0)) [
    | inl e ↦ rw e (inl (refl, [], Moves-refl lib peer drains r i, sym ((==_iff n 0).0 e)))
    | inr e ↦ rw e (
        Goes-inside (Ensures lib peer drains 1 r) _ _ (ensure_buffered lib peer fuel 1 r) _
          (ensure_buffered-Ensures lib peer drains fuel 1 r i enough)
          (λ result s ends. by_result result s ends (ground arith)))
  ]
    where
      by_result :
          (result : ResultCode) (s : Reader World)
          → Ensures lib peer drains 1 r result s
          → n ≢ 0
          → Goes
              (λ t. Copied n r t × Falls r t.1)
              (λ result t. Copies n r result t.1)
              (if lib.is_error result
                then done result (n, s)
                else let w = s.window in
                  let avail = pending_length w in
                  let taken = if ltb avail n then avail else n in
                  let taken' =
                    if ltb (capacity w) (w.stored_length + taken)
                    then capacity w - w.stored_length
                    else taken in
                  if taken' == 0
                  then done insufficient_size (n, s)
                  else more (n - taken', at_window lib peer s (kept taken' w)))
      by_result result s (inl (e, before, some_bytes)) some_left =
          let w = s.window in
          let i' = before.window in
          let taken = if ltb (pending_length w) n then pending_length w else n in
          let bounds : (taken ≤ pending_length w) × (taken ≤ n) × (0 < taken) = ground arith in
          let fits : ltb (capacity w) (w.stored_length + taken) ≡ false =
            ground (arith, i'.behind, i'.ordered, i'.inside) in
          let positive : (taken == 0) ≡ false = ground arith in
          let (c, moves, size) = kept-Moves taken s i' bounds.0 (before.same_handler ∙ mode) in
          rw (e, lib.is_error-ok, fits, positive)
            (
              (c, Moves-trans lib peer drains before moves, omega (arith, size, bounds.1)),
              omega (arith, size, bounds.2, moves.less, before.less),
            )
      by_result result s (inr f) some_left = rw f (inr f)

  Copies-behind :
      (n : ℕ) (r : Reader World) (t : ℕ × Reader World)
      → Copied n r t
      → (result : ResultCode) (s : Reader World) → Copies t.0 t.1 result s
      → Copies n r result s
  Copies-behind n r t p result s (inl (e, c, moves, size)) = inl (
    e,
    p.0 ++ c,
    Moves-trans lib peer drains p.1 moves,
    omega (arith, p.2, size, length-append p.0 c),
  )
  Copies-behind n r t p result s (inr f) = inr f

  pub copy-Copies :
      (fuel n : ℕ) (r : Reader World)
      → IsWindow r.window
      → r.body_handler ≡ none
      → left lib peer drains r < fuel
      → Ran (λ result t. Copies n r result t.1) (rounds (copy_round lib peer fuel) fuel (n, r))
  copy-Copies fuel n r i mode enough =
      rounds-Ran (copy_round lib peer fuel) (Copied n r) (λ result t. Copies n r result t.1)
        (λ t. left lib peer drains t.1)
        (λ t p.
          Goes-mono (λ t'. Copied t.0 t.1 t' × Falls t.1 t'.1) _
            (λ result t'. Copies t.0 t.1 result t'.1) _ (copy_round lib peer fuel t)
            (λ t' g. (
              (
                p.0 ++ g.0.0,
                Moves-trans lib peer drains p.1 g.0.1,
                omega (arith, p.2, g.0.2, length-append p.0 g.0.0),
              ),
              g.1,
            ))
            (λ result t' g. Copies-behind n r t p result t'.1 g)
            (copy_round-Goes fuel t.0 t.1 p.1.window (p.1.same_handler ∙ mode)
              (omega (arith, p.1.less, enough))))
        fuel (n, r) ([], Moves-refl lib peer drains r i, omega arith) enough
