-- ===== src/RequestParser/Framing.antt =====
-- What http_request_parser_feed takes for the body, and where the next message begins.
use http_c.Prelude.{
  ℕ, ◌+◌, ◌≤◌, ◌<◌, ◌^◌, ◌≡◌, ◌≢◌, sym, ap, ◌∙◌, some, [], ◌++◌, arith, length, length-take,
  length-drop, take-append-drop, Bool-cases, Option-cases, ◌⊎◌, subst, inl, inr, ltb, take, drop,
}
use http_c.Common.{Bytes, ResultCode, HlResult, ok, error}
use http_c.Span.{CommonLib}
use http_c.Headers.{Headers, find}
use http_c.Headers.Lines.{find_cases}
use http_c.RequestParser.{
  Parser, ParserState, init, consumed, parse_head, find_headers_end, feed_body, feed_parser,
  needed_of, header_transfer_encoding, header_content_length,
}
use http_c.RequestParser.Head.{parse_head-result, headers_end-parse_head, find_headers_end_more}
use http_c.RequestParser.Chunks.{IsSmall, first_no_head, first_bad_head, first_head}

-- No Transfer-Encoding, and the number of Content-Length, which is 0 where there is none.
abbrev pub Declares : CommonLib → Headers → ℕ → Type 0
Declares lib headers n =
    ((find lib (some headers) header_transfer_encoding).0 ≢ HlResult.ok)
    × (((value : Bytes) × (find lib (some headers) header_content_length
            ≡ (HlResult.ok, some value))
          × (lib.to_uint32 value ≡ some n))
        ⊎ (((find lib (some headers) header_content_length).0 ≢ HlResult.ok) × (n ≡ 0)))

module _ (lib : CommonLib) where
  -- A finished parser and a failed one answer as before, whatever arrives.
  pub feed_settled :
      (p : Parser) (b : Bytes)
      → (p.state ≡ ParserState.complete → feed_parser lib p b ≡ (p, ok))
        × (p.state ≡ ParserState.failed → feed_parser lib p b ≡ (p, error))
  unfolding feed_parser
  feed_settled p b = (λ e. ground arith, λ e. ground arith)

  -- An accepted request: its head was parsed, and its body was there.
  accepted :
      (b : Bytes) {p : Parser}
      → feed_parser lib init b ≡ (p, ok)
      → (n : ℕ) × (q : Parser) × (find_headers_end lib b ≡ some n)
        × (parse_head lib init b n ≡ (q, ok))
        × (feed_body lib (record q { state = ParserState.body }) b ≡ (p, ok))
  accepted b {p} h = elim (Option-cases (find_headers_end lib b)) [
    | inl e ↦ absurd (ground (arith, first_no_head lib b e))
    | inr (n, e) ↦ elim (parse_head-result lib init b n) [
      | inl f ↦
          (n, (parse_head lib init b n).0, e, ground (arith, f), sym (first_head lib b n e f) ∙ h)
      | inr f ↦ absurd (ground (arith, first_bad_head lib b n e f))
    ]
  ]

  feed_body-ok :
      (q : Parser) (b : Bytes) {p : Parser}
      → feed_body lib q b ≡ (p, ok)
      → IsSmall q
      → (p.request.body ≡ take q.content_length (drop q.headers_end b))
        × (q.headers_end + q.content_length ≤ length b)
        × (consumed p ≡ q.headers_end + q.content_length)
        × (p.headers_end ≡ q.headers_end)
        × (p.content_length ≡ q.content_length)
        × (p.request.headers ≡ q.request.headers)
  unfolding feed_body consumed
  feed_body-ok q b {p} h small = elim (Bool-cases (ltb (length b) (needed_of q))) [
    | inl e ↦ absurd (ground arith)
    | inr e ↦
        let enough : q.headers_end + q.content_length ≤ length b = ground arith in
        let middle = lib.slice_lem b q.headers_end q.content_length enough in
        (ground (arith, middle), enough, ground arith, ground arith, ground arith, ground arith)
  ]

  -- The lengths of the parser that is handed on are those of the head.
  wide : (q : Parser) (b : Bytes) {p : Parser} → feed_body lib q b ≡ (p, ok) → IsSmall p → IsSmall q
  unfolding feed_body
  wide q b h small = ground arith

  -- Where head and declared length add up in 32 bits, an accepted request lies at the front of the
  -- buffer, head then body. The body has the length that the parser read, and what is reported as
  -- consumed is exactly the two.
  pub feed_frames :
      (b : Bytes) {p : Parser}
      → feed_parser lib init b ≡ (p, ok)
      → IsSmall p
      → (head rest : Bytes) × (b ≡ head ++ (p.request.body ++ rest))
        × (length head ≡ p.headers_end)
        × (length p.request.body ≡ p.content_length)
        × (consumed p ≡ length head + length p.request.body)
  feed_frames b {p} h small =
      let (n, q, found, parsed, fed) = accepted b h in
      let q' : Parser = record q { state = ParserState.body } in
      let (body, enough, eaten, e1, e2, _) = feed_body-ok q' b fed (wide q' b fed small) in
      let o = q.headers_end in
      let k = q.content_length in
      let l1 = length-take o b in
      let l2 = length-take k (drop o b) in
      let l3 = length-drop o b in
      (
        take o b,
        drop k (drop o b),
        sym (
            ap (λ t. take o b ++ (t ++ drop k (drop o b))) body
            ∙ ap (◌++◌ (take o b)) (take-append-drop k (drop o b))
            ∙ take-append-drop o b),
        omega (arith, l1, e1),
        omega (arith, ap length body, l2, l3, e2),
        omega (arith, ap length body, l1, l2, l3, eaten),
      )

  -- What parse_head settles when it succeeds.
  parse_head-Declares :
      (b : Bytes) (n : ℕ) {q : Parser}
      → parse_head lib init b n ≡ (q, ok)
      → Declares lib q.request.headers q.content_length
  unfolding parse_head
  parse_head-Declares b n {q} h = elim (find_cases lib q.request.headers header_content_length) [
    | inl (v, e) ↦ ((λ f. ground arith), inl (v, e, ground arith))
    | inr e ↦ ((λ f. ground arith), inr (e, ground arith))
  ]

  -- Where head and declared length add up in 32 bits, an accepted request declares no
  -- Transfer-Encoding, and its body length is the number that its Content-Length gives, or 0 where
  -- it has none.
  pub feed-Declares :
      (b : Bytes) {p : Parser}
      → feed_parser lib init b ≡ (p, ok)
      → IsSmall p
      → Declares lib p.request.headers p.content_length
  feed-Declares b {p} h small =
      let (n, q, found, parsed, fed) = accepted b h in
      let q' : Parser = record q { state = ParserState.body } in
      let (_, _, _, _, e, f) = feed_body-ok q' b fed (wide q' b fed small) in
      subst (λ k. Declares lib p.request.headers k) (sym e)
        (subst (λ hs. Declares lib hs q.content_length) (sym f) (parse_head-Declares b n parsed))

  feed_body_wraps :
      (q : Parser) (b : Bytes)
      → q.content_length < 2 ^ 32
      → 2 ^ 32 ≤ q.headers_end + q.content_length
      → q.headers_end ≤ length b
      → length b < 2 ^ 32
      → (p : Parser) × (feed_body lib q b ≡ (p, ok))
        × (length b < p.headers_end + p.content_length)
        × (consumed p < p.headers_end)
  unfolding feed_body consumed
  feed_body_wraps q b small wraps inside short =
      ((feed_body lib q b).0, ground arith, ground arith, ground arith)

  -- Where a head that parses and its declared length reach 2 ^ 32 together, in a buffer of a
  -- uint32_t size, the request is accepted although its body has not arrived, and the bytes
  -- reported as consumed end inside its own head.
  pub feed_wraps :
      (b : Bytes) (n : ℕ) {q : Parser}
      → find_headers_end lib b ≡ some n
      → parse_head lib init b n ≡ (q, ok)
      → q.content_length < 2 ^ 32
      → 2 ^ 32 ≤ n + q.content_length
      → length b < 2 ^ 32
      → (p : Parser) × (feed_parser lib init b ≡ (p, ok))
        × (length b < p.headers_end + p.content_length)
        × (consumed p < p.headers_end)
  feed_wraps b n {q} found parsed small wraps short =
      let fst_of : Parser × ResultCode → Parser = λ r. r.0 in
      let result = ap (λ (r : Parser × ResultCode). r.1) parsed in
      let same = ap fst_of parsed in
      let at_end =
        sym (ap (λ (r : Parser). r.headers_end) same)
        ∙ headers_end-parse_head lib init b n result in
      let (_, inside, _) = find_headers_end_more lib b [] found in
      let fed =
        first_head lib b n found result
        ∙ ap (λ (r : Parser). feed_body lib (record r { state = ParserState.body }) b) same in
      let (p, done, late, early) =
        feed_body_wraps (record q { state = ParserState.body }) b small (omega (arith, at_end))
          (omega (arith, at_end)) short in
      (p, fed ∙ done, late, early)
