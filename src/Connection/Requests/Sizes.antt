-- ===== src/Connection/Requests/Sizes.antt =====
-- The chunk-size line as read_chunked_body reads it.
use http_c.Prelude.{
  ℕ, ◌+◌, ◌*◌, ◌%◌, ◌^◌, ◌≤◌, ◌<◌, ◌≡◌, ◌⊎◌, refl, sym, ap, subst, ◌∙◌, true, some, [], ◌∷◌, ◌++◌,
  append_assoc, arith, length, length-append, take, take-append, Bool-cases, Option-cases, inl, inr,
  ◌==◌, ==_iff, if◌then◌else◌,
}
use http_c.Prelude.Rounds.{
  Ran, Goes, Goes-mono, more, done, rounds, rounds-Ran, Ran-within, Goes-inside, within,
}
use http_c.Common.{Bytes, ResultCode, ok}
use http_c.Span.{CommonLib}
use http_c.Connection.{Peer}
use http_c.Connection.Window.{IsWindow, pending_length, pending, length-pending}
use http_c.Connection.Reader.{Reader, digit_of}
use http_c.Connection.Moving.{Drains, Moves, Moves-trans, Moves-refl, left}
use http_c.Connection.Lines.{lf, IsOneLine, IsOneLine-append}
use http_c.Connection.ChunkSize.{hexadecimal, digit_of-hex_digit, hexadecimal-cons}
use http_c.Connection.Requests.{
  buffered_size, ensure_buffered, skip_round, read_size, at_start, advanced, at_window,
}
use http_c.Connection.Requests.Buffering.{
  Ensures, ensure_buffered-Ensures, advanced-Moves, advanced_one-Moves,
}

-- A line that declares that size, in this reader: digits for a number that is taken modulo 2^32,
-- possibly none, and any bytes up to the line feed, more digits included.
abbrev pub IsLooseSize : Bytes → ℕ → Type 0
IsLooseSize l n =
    (a : Bytes) × (b : Bytes) × (m : ℕ) × (l ≡ a ++ (b ++ lf))
    × IsOneLine b
    × (hexadecimal 0 a ≡ some m)
    × (n ≡ m % 2 ^ 32)

-- What the digits loop takes off a text.
pub buffered_size-digits :
    (n k v : ℕ) (s : Bytes)
    → n ≡ v % 2 ^ 32
    → (a : Bytes) × (rest : Bytes) × (m : ℕ) × (s ≡ a ++ rest)
      × (hexadecimal v a ≡ some m)
      × ((buffered_size n k s).0 ≡ m % 2 ^ 32)
      × ((buffered_size n k s).1 ≡ k + length a)
unfolding buffered_size hexadecimal
buffered_size-digits n k v [] e = ([], [], v, refl, refl, e, omega arith)
buffered_size-digits n k v (c ∷ s) e = elim (Option-cases (digit_of c)) [
  | inl none_left ↦ (
    [],
    c ∷ s,
    v,
    refl,
    refl,
    rw (none_left, buffered_size) e,
    rw (none_left, buffered_size) (omega arith),
  )
  | inr (x, is_digit) ↦
      let wraps : (n * 16 + x) % 2 ^ 32 ≡ (16 * v + x) % 2 ^ 32 = omega arith in
      let (a, rest, m, cut, value, size, count) =
        buffered_size-digits ((n * 16 + x) % 2 ^ 32) (k + 1) (16 * v + x) s wraps in
      (
        c ∷ a,
        rest,
        m,
        ap (◌∷◌ c) cut,
        hexadecimal-cons v c x a is_digit ∙ value,
        rw (is_digit, buffered_size) size,
        rw (is_digit, buffered_size) (omega (arith, count)),
      )
]

-- Where all of a text is digits, they are all taken.
pub buffered_size-all :
    (n k v : ℕ) (a : Bytes) {m : ℕ}
    → n ≡ v % 2 ^ 32
    → hexadecimal v a ≡ some m
    → buffered_size n k a ≡ (m % 2 ^ 32, k + length a)
unfolding buffered_size hexadecimal
buffered_size-all n k v [] e h = ground arith
buffered_size-all n k v (c ∷ a) {m} e h = elim (Option-cases (digit_of c)) [
  | inl no_digit ↦ absurd (ground (arith, digit_of-hex_digit c))
  | inr (x, is_digit) ↦
      let wraps : (n * 16 + x) % 2 ^ 32 ≡ (16 * v + x) % 2 ^ 32 = omega arith in
      let later = sym (hexadecimal-cons v c x a is_digit) ∙ h in
      let rest = buffered_size-all ((n * 16 + x) % 2 ^ 32) (k + 1) (16 * v + x) a wraps later in
      ground (arith, rest)
]

module _ (lib : CommonLib) (peer : Peer) (drains : Drains lib peer) where
  open peer use {World}

  -- The rest of a line is consumed, or it fails.
  abbrev pub Skips : Reader World → ResultCode → Reader World → Type 0
  Skips r result r' =
      ((result ≡ ok) × (b : Bytes) × IsOneLine b × Moves lib peer drains (b ++ lf) [] r r')
      ⊎ (lib.is_error result ≡ true)

  abbrev Skipping : Reader World → Reader World → Type 0
  Skipping r s = (b : Bytes) × IsOneLine b × Moves lib peer drains b [] r s

  follow_skip-Goes :
      (r : Reader World) (result : ResultCode) (s : Reader World)
      → Ensures lib peer drains 1 r result s
      → Goes
          (λ t. Skipping r t × (left lib peer drains t < left lib peer drains r))
          (Skips r)
          (if lib.is_error result
            then done result s
            else if at_start s.window == b'\n'
            then done ok (at_window lib peer s (advanced 1 s.window))
            else more (at_window lib peer s (advanced 1 s.window)))
  follow_skip-Goes r result s (inl (e, before, some_bytes)) =
      let step =
        Moves-trans lib peer drains before
          (advanced_one-Moves lib peer drains s before.window some_bytes) in
      elim (Bool-cases (at_start s.window == b'\n')) [
        | inl f ↦
            rw (e, lib.is_error-ok, f)
              (inl (
                refl,
                [],
                tt,
                subst
                    (λ (c : ℕ).
                      Moves lib peer drains (c ∷ []) [] r
                        (at_window lib peer s (advanced 1 s.window)))
                    ((==_iff _ b'\n').0 f) step,
              ))
        | inr f ↦
            rw (e, lib.is_error-ok, f)
              ((at_start s.window ∷ [], (ground arith, tt), step), omega (arith, step.less))
      ]
  follow_skip-Goes r result s (inr f) = rw f (inr f)

  Skips-behind :
      (r s : Reader World)
      → Skipping r s
      → (result : ResultCode) (t : Reader World) → Skips s result t
      → Skips r result t
  Skips-behind r s (b, one_line, before) result t (inl (e, b', one_line', moves)) = inl (
    e,
    b ++ b',
    IsOneLine-append b b' one_line one_line',
    subst (λ (c : Bytes). Moves lib peer drains c [] r t) (sym (append_assoc b b' lf))
        (Moves-trans lib peer drains before moves),
  )
  Skips-behind r s before result t (inr f) = inr f

  pub skip-Skips :
      (fuel : ℕ) (r : Reader World)
      → IsWindow r.window
      → left lib peer drains r < fuel
      → Ran (Skips r) (rounds (skip_round lib peer fuel) fuel r)
  unfolding skip_round
  skip-Skips fuel r i enough =
      rounds-Ran (skip_round lib peer fuel) (Skipping r) (Skips r) (left lib peer drains)
        (λ s p.
          Goes-mono (λ t. Skipping s t × (left lib peer drains t < left lib peer drains s)) _
            (Skips s) (Skips r) (skip_round lib peer fuel s)
            (λ t g. (
              (
                p.0 ++ g.0.0,
                IsOneLine-append p.0 g.0.0 p.1 g.0.1,
                Moves-trans lib peer drains p.2 g.0.2,
              ),
              g.1,
            ))
            (λ result t g. Skips-behind r s p result t g)
            (Goes-inside (Ensures lib peer drains 1 s)
              (λ t. Skipping s t × (left lib peer drains t < left lib peer drains s)) (Skips s)
              (ensure_buffered lib peer fuel 1 s) _
              (ensure_buffered-Ensures lib peer drains fuel 1 s p.2.window
                (omega (arith, p.2.less, enough)))
              (λ result t ends. follow_skip-Goes s result t ends)))
        fuel r ([], tt, Moves-refl lib peer drains r i) enough

  -- It ends well, with a chunk-size line consumed, or with an error.
  abbrev pub Sizes : Reader World → ResultCode × ℕ → Reader World → Type 0
  Sizes r a r' =
      ((a.0 ≡ ok) × (l : Bytes) × IsLooseSize l a.1 × Moves lib peer drains l [] r r')
      ⊎ (lib.is_error a.0 ≡ true)

  -- the size that is taken from the buffered bytes, and the rest of the line
  sized :
      (fuel : ℕ) (r s : Reader World) (a : Bytes) (n count m : ℕ)
      → Moves lib peer drains a [] r (at_window lib peer s (advanced count s.window))
      → hexadecimal 0 a ≡ some m
      → n ≡ m % 2 ^ 32
      → left lib peer drains r < fuel
      → Ran (Sizes r) (
          within
            (rounds
              (skip_round lib peer fuel)
              fuel
              (at_window lib peer s (advanced count s.window)))
            (λ result s'. some ((result, n), s')))
  sized fuel r s a n count m before value size enough =
      let r' = at_window lib peer s (advanced count s.window) in
      Ran-within (Skips r') (Sizes r) _ _
        (skip-Skips fuel r' before.window (omega (arith, before.less)))
        (λ result s' skips. by_result result s' skips)
    where
      by_result :
          (result : ResultCode) (s' : Reader World)
          → Skips (at_window lib peer s (advanced count s.window)) result s'
          → Sizes r (result, n) s'
      by_result result s' (inl (e, b, one_line, moves)) = inl (
        e,
        a ++ (b ++ lf),
        (a, b, m, refl, one_line, value, size),
        Moves-trans lib peer drains before moves,
      )
      by_result result s' (inr f) = inr f

  pub read_size-Sizes :
      (fuel : ℕ) (r : Reader World)
      → IsWindow r.window
      → left lib peer drains r < fuel
      → Ran (Sizes r) (read_size lib peer fuel r)
  unfolding read_size
  read_size-Sizes fuel r i enough =
      Ran-within (Ensures lib peer drains 1 r) (Sizes r) _ _
        (ensure_buffered-Ensures lib peer drains fuel 1 r i enough)
        (λ result s ends. by_result result s ends)
    where
      by_result :
          (result : ResultCode) (s : Reader World)
          → Ensures lib peer drains 1 r result s
          → Ran (Sizes r) (
              if lib.is_error result
              then some ((result, 0), s)
              else let (chunk_size, count) = buffered_size 0 0 (pending s.window) in
                within
                  (rounds
                    (skip_round lib peer fuel)
                    fuel
                    (at_window lib peer s (advanced count s.window)))
                  (λ result' s'. some ((result', chunk_size), s')))
      by_result result s (inl (e, before, some_bytes)) =
          let (a, rest, m, cut, value, size, count) =
            buffered_size-digits 0 0 0 (pending s.window) (omega arith) in
          let sizes = ap (length {A = ℕ}) cut ∙ length-append a rest in
          let inside : (buffered_size 0 0 (pending s.window)).1 ≤ pending_length s.window =
            omega (arith, sizes, count, length-pending s.window before.window) in
          let front =
            ap (take (buffered_size 0 0 (pending s.window)).1) cut
            ∙ take-append (buffered_size 0 0 (pending s.window)).1 a rest (omega (arith, count)) in
          let step = Moves-trans lib peer drains before (
            subst
              (λ (c : Bytes).
                Moves lib peer drains c [] s (
                  at_window lib peer s
                    (advanced (buffered_size 0 0 (pending s.window)).1 s.window)))
              front
              (advanced-Moves lib peer drains (buffered_size 0 0 (pending s.window)).1 s
                before.window inside)) in
          rw (e, lib.is_error-ok) (sized fuel r s a _ _ m step value size enough)
      by_result result s (inr f) = rw f (inr f)
