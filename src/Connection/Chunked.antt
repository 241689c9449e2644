-- ===== src/Connection/Chunked.antt =====
-- The grammar of a chunked body, and the trailer in response_body_reader_chunked.
use http_c.Prelude.{
  ℕ, ◌<◌, ◌≡◌, ◌≢◌, ◌⊎◌, refl, sym, ap, subst, true, false, [], ◌∷◌, ◌++◌, append_assoc, arith,
  length, length-append, Bool-cases, inl, inr, if◌then◌else◌,
}
use http_c.Prelude.Rounds.{Ran, Goes, more, done, rounds, rounds-Ran, Goes-inside, Goes-mono}
use http_c.Common.{Bytes, ResultCode, ok, crlf}
use http_c.Span.{CommonLib}
use http_c.Headers.{is_empty}
use http_c.Connection.{Peer}
use http_c.Connection.Window.{IsWindow}
use http_c.Connection.Reader.{Reader, read_line, trailer_round}
use http_c.Connection.Moving.{Drains, Moves, Moves-trans, Moves-refl, left}
use http_c.Connection.Filling.{is_empty-nil}
use http_c.Connection.Lines.{lf, IsLine}
use http_c.Connection.Lines.Reading.{Reads, read_line-Reads}
use http_c.Connection.ChunkSize.{IsSizeLine}

-- Lines up to an empty one, which ends them.
pub data IsTrailer : Bytes → Type 0 where
  end : {t : Bytes} → IsLine [] t → IsTrailer t
  field :
      {line l t t' : Bytes} → line ≢ [] → IsLine line l → IsTrailer t' → t ≡ l ++ t' → IsTrailer t

-- The bytes `c` are a chunked body that stands for the bytes `x`.
pub data IsChunked : Bytes → Bytes → Type 0 where
  last :
      {line l t c : Bytes}
      → IsLine line l
      → IsSizeLine line 0
      → IsTrailer t
      → c ≡ l ++ t
      → IsChunked c []
  chunk :
      {line l c c' x x' : Bytes} {n : ℕ} (d e : Bytes)
      → IsLine line l
      → IsSizeLine line n
      → n ≢ 0
      → length d ≡ n
      → IsLine [] e
      → IsChunked c' x'
      → c ≡ (l ++ (d ++ e)) ++ c'
      → x ≡ d ++ x'
      → IsChunked c x

pub line_pos : (line l : Bytes) → IsLine line l → 0 < length l
line_pos line l (h, inl e) = omega (arith, ap (length {A = ℕ}) e, length-append line crlf)
line_pos line l (h, inr e) = omega (arith, ap (length {A = ℕ}) e, length-append line lf)

is_empty-false : (s : Bytes) → is_empty s ≡ false → s ≢ []
is_empty-false [] h e = cc
is_empty-false (c ∷ s) h e = cc

module _ (lib : CommonLib) (peer : Peer) (drains : Drains lib peer) where
  open peer use {World}

  -- It ends well, with a trailer consumed and none of its bytes passed on, or with an error.
  abbrev pub Trails : Reader World → ResultCode → Reader World → Type 0
  Trails r result r' =
      ((result ≡ ok) × (t : Bytes) × IsTrailer t × Moves lib peer drains t [] r r')
      ⊎ (lib.is_error result ≡ true)

  -- Bytes before a trailer that make a trailer with it.
  abbrev Opens : Bytes → Type 0
  Opens c = (t : Bytes) → IsTrailer t → IsTrailer (c ++ t)

  abbrev Trailing : Reader World → Reader World → Type 0
  Trailing r s = (c : Bytes) × Opens c × Moves lib peer drains c [] r s

  abbrev pub Falling : Reader World → Reader World → Type 0
  Falling r s = left lib peer drains s < left lib peer drains r

  follow_line-Goes :
      (r : Reader World) (a : ResultCode × Bytes) (s : Reader World)
      → Reads lib peer drains r a s
      → Goes
          (λ t. Trailing r t × Falling r t)
          (Trails r)
          (if lib.is_error a.0 then done a.0 s else if is_empty a.1 then done ok s else more s)
  follow_line-Goes r a s (inl (e, l, line, moves)) = elim (Bool-cases (is_empty a.1)) [
    | inl f ↦
        rw (e, lib.is_error-ok, f)
          (inl (
            refl,
            l,
            IsTrailer.end (subst (λ (x : Bytes). IsLine x l) (is_empty-nil a.1 f) line),
            moves,
          ))
    | inr f ↦
        rw (e, lib.is_error-ok, f)
          (
            (l, λ t h. IsTrailer.field (is_empty-false a.1 f) line h refl, moves),
            omega (arith, moves.less, line_pos a.1 l line),
          )
  ]
  follow_line-Goes r a s (inr f) = rw f (inr f)

  Trails-behind :
      (r s : Reader World)
      → Trailing r s
      → (result : ResultCode) (t : Reader World) → Trails s result t
      → Trails r result t
  Trails-behind r s (c, opens, before) result t (inl (e, b, trailer, moves)) =
      inl (e, c ++ b, opens b trailer, Moves-trans lib peer drains before moves)
  Trails-behind r s before result t (inr f) = inr f

  pub trailer-Trails :
      (fuel : ℕ) (r : Reader World)
      → IsWindow r.window
      → left lib peer drains r < fuel
      → Ran (Trails r) (rounds (trailer_round lib peer fuel) fuel r)
  unfolding trailer_round
  trailer-Trails fuel r i enough =
      rounds-Ran (trailer_round lib peer fuel) (Trailing r) (Trails r) (left lib peer drains)
        (λ s p.
          Goes-mono (λ t. Trailing s t × Falling s t) _ (Trails s) (Trails r)
            (trailer_round lib peer fuel s)
            (λ t g. (
              (
                p.0 ++ g.0.0,
                λ b h. subst IsTrailer (sym (append_assoc p.0 g.0.0 b)) (p.1 _ (g.0.1 b h)),
                Moves-trans lib peer drains p.2 g.0.2,
              ),
              g.1,
            ))
            (λ result t g. Trails-behind r s p result t g)
            (Goes-inside (Reads lib peer drains s) (λ t. Trailing s t × Falling s t) (Trails s)
              (read_line lib peer fuel s) _
              (read_line-Reads lib peer drains fuel s p.2.window (omega (arith, p.2.less, enough)))
              (λ a t reads. follow_line-Goes s a t reads)))
        fuel r ([], λ t h. h, Moves-refl lib peer drains r i) enough
