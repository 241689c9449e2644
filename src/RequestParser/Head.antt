-- ===== src/RequestParser/Head.antt =====
-- parse_head and find_headers_end when more bytes stand behind the head.
use http_c.Prelude.{
  ℕ, ◌+◌, ◌≤◌, ◌≡◌, ◌≢◌, sym, ap, ◌∙◌, none, some, [], ◌∷◌, ◌++◌, arith, take-append_le, length,
  length-append, Option-cases, inl, inr, ◌⊎◌,
}
use http_c.Common.{Bytes, ok, error, headers_terminator}
use http_c.Span.{CommonLib}
use http_c.Span.Cut.{cut, cut_more, cut-length}
use http_c.Span.Slices.{slice_prefix}
use http_c.RequestParser.{Parser, parse_head, find_headers_end}

module _ (lib : CommonLib) where
  pub slice_more : (b t : Bytes) (n : ℕ) → n ≤ length b → lib.slice (b ++ t) 0 n ≡ lib.slice b 0 n
  slice_more b t n h =
      slice_prefix lib (b ++ t) n (omega (arith, length-append b t))
      ∙ take-append_le n b t h
      ∙ sym (slice_prefix lib b n h)

  pub parse_head-append :
      (p : Parser) (b t : Bytes) (n : ℕ)
      → n ≤ length b
      → parse_head lib p (b ++ t) n ≡ parse_head lib p b n
  parse_head-append p b t n h = unfold parse_head in rw (slice_more b t n h, parse_head)

  -- The end of the headers is where the first blank line ends.
  pub find_headers_end-cut :
      (b : Bytes) {n : ℕ}
      → find_headers_end lib b ≡ some n
      → (x y : Bytes) × (cut headers_terminator b ≡ some (x, y)) × (n ≡ length x + 4)
  unfolding find_headers_end
  find_headers_end-cut b {n} h = elim (Option-cases (cut headers_terminator b)) [
    | inl e ↦ ground (arith, lib.find_lem b b'\r' (b'\n' ∷ b'\r' ∷ b'\n' ∷ []), e)
    | inr ((x, y), e) ↦
        (x, y, e, ground (arith, lib.find_lem b b'\r' (b'\n' ∷ b'\r' ∷ b'\n' ∷ []), e))
  ]

  pub find_headers_end_at :
      (b : Bytes) {x y : Bytes}
      → cut headers_terminator b ≡ some (x, y)
      → find_headers_end lib b ≡ some (length x + 4)
  unfolding find_headers_end
  find_headers_end_at b e = ground (arith, lib.find_lem b b'\r' (b'\n' ∷ b'\r' ∷ b'\n' ∷ []), e)

  pub find_headers_end-nil : find_headers_end lib [] ≡ none
  unfolding find_headers_end cut
  find_headers_end-nil = ground (arith, lib.find_lem [] b'\r' (b'\n' ∷ b'\r' ∷ b'\n' ∷ []))

  pub find_headers_end_more :
      (b t : Bytes) {n : ℕ}
      → find_headers_end lib b ≡ some n
      → (find_headers_end lib (b ++ t) ≡ some n) × (n ≤ length b) × (n ≢ 0)
  find_headers_end_more b t {n} h =
      let (x, y, e, k) = find_headers_end-cut b h in
      (
        find_headers_end_at (b ++ t) (cut_more headers_terminator b t e) ∙ ap some (sym k),
        omega (arith, cut-length headers_terminator b e, k),
        omega arith,
      )

  -- parse_head reads no field of the parser that it is given but the header buffer it replaces.
  pub headers_end-parse_head :
      (p : Parser) (b : Bytes) (n : ℕ)
      → (parse_head lib p b n).1 ≡ ok
      → (parse_head lib p b n).0.headers_end ≡ n
  unfolding parse_head
  headers_end-parse_head p b n h = ground arith

  pub parse_head-result :
      (p : Parser) (b : Bytes) (n : ℕ)
      → ((parse_head lib p b n).1 ≡ ok) ⊎ ((parse_head lib p b n).1 ≡ error)
  unfolding parse_head
  parse_head-result p b n = ground arith
