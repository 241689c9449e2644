-- ===== src/Connection/Requests/Buffered.antt =====
-- The size that read_chunked_body takes depends on where the stream was cut.
use http_c.Prelude.{
  ℕ, zero, suc, ◌+◌, ◌%◌, ◌^◌, ◌≤◌, ◌<◌, ◌≡◌, ◌⊎◌, refl, true, some, arith, length, inl, inr, leb,
}
use http_c.Prelude.Rounds.{Ran, rounds, Ran-within}
use http_c.Common.{ResultCode, ok}
use http_c.Span.{CommonLib}
use http_c.Connection.{Peer, call_deadline}
use http_c.Connection.Window.{IsWindow, pending_length, pending, length-pending}
use http_c.Connection.Reader.{Reader}
use http_c.Connection.Moving.{Drains, Moves-trans, left, quiet-Waits}
use http_c.Connection.ChunkSize.{hexadecimal}
use http_c.Connection.Receiving.Framed.{call_deadline-measure}
use http_c.Connection.Requests.{ensure_round, ensure_buffered, read_size, advanced, at_window}
use http_c.Connection.Requests.Buffering.{advanced-Moves}
use http_c.Connection.Requests.Sizes.{buffered_size-all, Skips, skip-Skips}

module _ (lib : CommonLib) (peer : Peer) (drains : Drains lib peer) where
  open peer use {World}

  ensure_already :
      (fuel : ℕ) (r : Reader World)
      → 0 < fuel
      → 1 ≤ pending_length r.window
      → ensure_buffered lib peer fuel 1 r
        ≡ some (ok, record r { io = (call_deadline peer lib r.connection r.io).1 })
  unfolding ensure_buffered rounds ensure_round
  ensure_already zero r positive some_bytes = absurd (omega arith)
  ensure_already (suc fuel) r positive some_bytes =
      let enough : leb 1 (pending_length r.window) ≡ true = ground arith in rw enough refl

  -- Where the bytes in the buffer are all digits, the size is their number modulo 2^32, whatever
  -- comes next: the digits that have not arrived yet are skipped as if they were an extension.
  pub read_size-buffered :
      (fuel : ℕ) (r : Reader World) (m : ℕ)
      → IsWindow r.window
      → left lib peer drains r < fuel
      → 0 < length (pending r.window)
      → hexadecimal 0 (pending r.window) ≡ some m
      → Ran
          (λ a r'. ((a.0 ≡ ok) × (a.1 ≡ m % 2 ^ 32)) ⊎ (lib.is_error a.0 ≡ true))
          (read_size lib peer fuel r)
  unfolding read_size
  read_size-buffered fuel r m i enough some_bytes value =
      let some_bytes' : 1 ≤ pending_length r.window = omega (arith, length-pending r.window i) in
      let all = buffered_size-all 0 0 0 (pending r.window) (omega arith) value in
      let slower = call_deadline-measure lib peer drains r.connection r.io.world in
      let s = record r { io = (call_deadline peer lib r.connection r.io).1 } in
      let waits = quiet-Waits lib peer drains r s.io i refl refl slower in
      let count = 0 + length (pending r.window) in
      let inside : count ≤ pending_length r.window = omega (arith, length-pending r.window i) in
      let step =
        Moves-trans lib peer drains waits
          (advanced-Moves lib peer drains count s waits.window inside) in
      rw (ensure_already fuel r (omega arith) some_bytes', lib.is_error-ok, all)
        (Ran-within (Skips lib peer drains (at_window lib peer s (advanced count s.window))) _ _ _
          (skip-Skips lib peer drains fuel (at_window lib peer s (advanced count s.window))
            step.window (omega (arith, step.less)))
          (λ result s' skips.
            by_result result s' (at_window lib peer s (advanced count s.window)) skips))
    where
      by_result :
          (result : ResultCode) (s' q : Reader World)
          → Skips lib peer drains q result s'
          → ((result ≡ ok) × (m % 2 ^ 32 ≡ m % 2 ^ 32)) ⊎ (lib.is_error result ≡ true)
      by_result result s' q (inl (e, b, one_line, moves)) = inl (e, refl)
      by_result result s' q (inr f) = inr f
