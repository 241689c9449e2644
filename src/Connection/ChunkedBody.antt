-- ===== src/Connection/ChunkedBody.antt =====
-- response_body_reader_chunked against the grammar of a chunked body.
use http_c.Prelude.{
  ℕ, ◌<◌, ◌≡◌, ◌≢◌, ◌⊎◌, refl, sym, ap, subst, true, Option, none, some, [], ◌++◌, append_assoc,
  arith, length, length-append, Bool-cases, inl, inr, ◌==◌, ==_iff, if◌then◌else◌,
}
use http_c.Prelude.Rounds.{Ran, Goes, done, inside, rounds, rounds-Ran, Goes-inside, Goes-mono}
use http_c.Common.{Bytes, ResultCode, ok}
use http_c.Span.{CommonLib}
use http_c.Headers.{is_empty}
use http_c.Connection.{Peer}
use http_c.Connection.Window.{IsWindow}
use http_c.Connection.Reader.{
  Reader, read_line, pass_through, size_of_line, trailer_round, end_chunk, chunk_data, follow_size,
  chunk_round, chunked,
}
use http_c.Connection.Moving.{Drains, Moves, Moves-trans, Moves-refl, left}
use http_c.Connection.Filling.{is_empty-nil}
use http_c.Connection.Passing.{Passes, pass_through-Passes}
use http_c.Connection.Lines.{IsLine}
use http_c.Connection.Lines.Reading.{Reads, read_line-Reads}
use http_c.Connection.ChunkSize.{IsSizeLine, size_of_line_iff}
use http_c.Connection.Chunked.{IsChunked, line_pos, Falling, Trails, trailer-Trails}

module _ (lib : CommonLib) (peer : Peer) (drains : Drains lib peer) where
  open peer use {World}

  -- It ends well, with a chunked body consumed and what it stands for passed on, or with an error.
  abbrev pub Chunks : Reader World → ResultCode → Reader World → Type 0
  Chunks r result r' =
      ((result ≡ ok) × (c : Bytes) × (x : Bytes) × IsChunked c x × Moves lib peer drains c x r r')
      ⊎ (lib.is_error result ≡ true)

  -- Bytes before a chunked body that make one with it.
  abbrev Begins : Bytes → Bytes → Type 0
  Begins c x = (c' x' : Bytes) → IsChunked c' x' → IsChunked (c ++ c') (x ++ x')

  abbrev Chunking : Reader World → Reader World → Type 0
  Chunking r s = (c : Bytes) × (x : Bytes) × Begins c x × Moves lib peer drains c x r s

  abbrev Going : Reader World → Reader World → Type 0
  Going r s = Chunking r s × Falling lib peer drains r s

  end_chunk-Goes :
      (r s : Reader World) (line l d : Bytes) (n : ℕ)
      → IsLine line l
      → IsSizeLine line n
      → n ≢ 0
      → length d ≡ n
      → Moves lib peer drains (l ++ d) d r s
      → (a : ResultCode × Bytes) (t : Reader World) → Reads lib peer drains s a t
      → Goes (Going r) (Chunks r) (end_chunk lib peer a t)
  end_chunk-Goes r s line l d n is_line size some_data count before a t (inl (f, e, empty, moves)) =
      elim (Bool-cases (is_empty a.1)) [
        | inl g ↦
            rw (f, lib.is_error-ok, g)
              (
                (
                  (l ++ d) ++ e,
                  d ++ [],
                  λ c' x' rest.
                      IsChunked.chunk d e is_line size some_data count
                        (subst (λ (x : Bytes). IsLine x e) (is_empty-nil a.1 g) empty) rest
                        (ap (λ (y : Bytes). y ++ c') (append_assoc l d e)) (append_assoc d [] x'),
                  Moves-trans lib peer drains before moves,
                ),
                omega (arith, before.less, moves.less, line_pos line l is_line, length-append l d),
              )
        | inr g ↦ rw (f, lib.is_error-ok, g) (inr lib.is_error-error)
      ]
  end_chunk-Goes r s line l d n is_line size some_data count before a t (inr f) = rw f (inr f)

  module _ (fuel : ℕ) (r s : Reader World) (enough : left lib peer drains r < fuel) where
    chunk_data-Goes :
        (line l : Bytes) (n : ℕ)
        → IsLine line l
        → IsSizeLine line n
        → Moves lib peer drains l [] r s
        → Goes (Going r) (Chunks r) (chunk_data lib peer fuel n s)
    unfolding chunk_data
    chunk_data-Goes line l n is_line size before = elim (Bool-cases (n == 0)) [
      | inl e ↦ rw e (
          Goes-inside (Trails lib peer drains s) (Going r) (Chunks r)
            (rounds (trailer_round lib peer fuel) fuel s) _
            (trailer-Trails lib peer drains fuel s before.window (omega (arith, before.less)))
            (λ result t trails.
              ended_by line l is_line (subst (IsSizeLine line) ((==_iff n 0).0 e) size) before
                result t trails))
      | inr e ↦ rw e (
          Goes-inside (Passes lib peer drains n s) (Going r) (Chunks r)
            (pass_through lib peer fuel n s) _
            (pass_through-Passes lib peer drains fuel n s before.window
              (omega (arith, before.less)))
            (λ result t passes.
              data_then line l n is_line size (ground arith) before result t passes))
    ]
      where
        ended_by :
            (line l : Bytes)
            → IsLine line l
            → IsSizeLine line 0
            → Moves lib peer drains l [] r s
            → (result : ResultCode) (t : Reader World) → Trails lib peer drains s result t
            → Chunks r result t
        ended_by line l is_line size before result t (inl (f, b, trailer, moves)) = inl (
          f,
          l ++ b,
          [],
          IsChunked.last is_line size trailer refl,
          Moves-trans lib peer drains before moves,
        )
        ended_by line l is_line size before result t (inr f) = inr f

        data_then :
            (line l : Bytes) (n : ℕ)
            → IsLine line l
            → IsSizeLine line n
            → n ≢ 0
            → Moves lib peer drains l [] r s
            → (result : ResultCode) (t : Reader World) → Passes lib peer drains n s result t
            → Goes (Going r) (Chunks r) (
                if lib.is_error result
                then done result t
                else inside (read_line lib peer fuel t) (end_chunk lib peer))
        data_then line l n is_line size some_data before result t (inl (f, d, moves, count)) =
            let so_far = Moves-trans lib peer drains before moves in
            rw (f, lib.is_error-ok)
              (Goes-inside (Reads lib peer drains t) (Going r) (Chunks r)
                (read_line lib peer fuel t) _
                (read_line-Reads lib peer drains fuel t so_far.window (omega (arith, so_far.less)))
                (λ a u reads.
                  end_chunk-Goes r t line l d n is_line size some_data count so_far a u reads))
        data_then line l n is_line size some_data before result t (inr f) = rw f (inr f)

  follow_size-Goes :
      (fuel : ℕ) (r : Reader World)
      → left lib peer drains r < fuel
      → (a : ResultCode × Bytes) (s : Reader World) → Reads lib peer drains r a s
      → Goes
          (Going r)
          (Chunks r)
          (if lib.is_error a.0 then done a.0 s else follow_size lib peer fuel s (size_of_line a.1))
  unfolding follow_size
  follow_size-Goes fuel r enough a s (inl (e, l, line, moves)) =
      rw (e, lib.is_error-ok) (by_size (size_of_line a.1) refl)
    where
      by_size :
          (o : Option ℕ)
          → size_of_line a.1 ≡ o
          → Goes (Going r) (Chunks r) (follow_size lib peer fuel s o)
      by_size none f = inr lib.is_error-error
      by_size (some n) f =
          chunk_data-Goes fuel r s enough a.1 l n line ((size_of_line_iff a.1 n).0 f) moves
  follow_size-Goes fuel r enough a s (inr f) = rw f (inr f)

  Chunks-behind :
      (r s : Reader World)
      → Chunking r s
      → (result : ResultCode) (t : Reader World) → Chunks s result t
      → Chunks r result t
  Chunks-behind r s (c, x, begins, before) result t (inl (e, c', x', body, moves)) =
      inl (e, c ++ c', x ++ x', begins c' x' body, Moves-trans lib peer drains before moves)
  Chunks-behind r s before result t (inr f) = inr f

  Chunking-behind :
      (r s : Reader World) → Chunking r s → (t : Reader World) → Chunking s t → Chunking r t
  Chunking-behind r s (c, x, begins, before) t (c', x', begins', moves) = (
    c ++ c',
    x ++ x',
    λ c'' x'' body.
        subst (λ (y : Bytes). IsChunked y ((x ++ x') ++ x'')) (sym (append_assoc c c' c''))
          (subst (IsChunked (c ++ (c' ++ c''))) (sym (append_assoc x x' x''))
            (begins _ _ (begins' c'' x'' body))),
    Moves-trans lib peer drains before moves,
  )

  -- With fuel for what the stream has left, it ends; and where it answers ok, the bytes that it
  -- consumed are a chunked body and the bytes that it passed on are what that stands for.
  pub chunked-Chunks :
      (fuel : ℕ) (r : Reader World)
      → IsWindow r.window
      → left lib peer drains r < fuel
      → Ran (Chunks r) (chunked lib peer fuel r)
  unfolding chunked chunk_round
  chunked-Chunks fuel r i enough =
      rounds-Ran (chunk_round lib peer fuel) (Chunking r) (Chunks r) (left lib peer drains)
        (λ s p.
          Goes-mono (Going s) _ (Chunks s) (Chunks r) (chunk_round lib peer fuel s)
            (λ t g. (Chunking-behind r s p t g.0, g.1))
            (λ result t g. Chunks-behind r s p result t g)
            (Goes-inside (Reads lib peer drains s) (Going s) (Chunks s) (read_line lib peer fuel s)
              _
              (read_line-Reads lib peer drains fuel s p.3.window (omega (arith, p.3.less, enough)))
              (λ a t reads. follow_size-Goes fuel s (omega (arith, p.3.less, enough)) a t reads)))
        fuel r ([], [], λ c x body. body, Moves-refl lib peer drains r i) enough
