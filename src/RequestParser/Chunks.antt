-- ===== src/RequestParser/Chunks.antt =====
-- http_request_parser_feed over a connection's life: the bytes may arrive in any pieces.
use http_c.Prelude.{
  ℕ, ◌+◌, ◌≤◌, ◌<◌, ◌^◌, ◌≡◌, ◌≢◌, ◌⊎◌, refl, sym, ap, ◌∙◌, Option, none, some, List, [], ◌∷◌, ◌++◌,
  append_assoc, append-nil, arith, length, length-append, take-drop-append, Bool-cases,
  Option-cases, inl, inr, ltb, ◌==◌, if◌then◌else◌, subst, flatten,
}
use http_c.Common.{Bytes, ResultCode, ok, error, try_again}
use http_c.Span.{CommonLib}
use http_c.RequestParser.{
  Parser, ParserState, init, parse_head, find_headers_end, feed_body, feed_head, feed_phases,
  feed_parser, needed_of,
}
use http_c.RequestParser.Head.{
  parse_head-append, find_headers_end_more, headers_end-parse_head, find_headers_end-nil,
  parse_head-result,
}

abbrev pub waiting : Bytes → ParserState
waiting b = if length b == 0 then ParserState.request_line else ParserState.headers

-- The lengths that the head declares add up in uint32_t.
abbrev pub IsSmall : Parser → Type 0
IsSmall p = p.headers_end + p.content_length < 2 ^ 32

asks : (r : ResultCode) → (r ≡ try_again) ⊎ (r ≢ try_again)
asks ResultCode.try_again = inl refl
asks _ = inr (λ e. cc)

module _ (lib : CommonLib) where
  parse_head-state :
      (p : Parser) (s : ParserState) (b : Bytes) (n : ℕ)
      → parse_head lib (record p { state = s }) b n
        ≡ (record (parse_head lib p b n).0 { state = s }, (parse_head lib p b n).1)
  unfolding parse_head
  parse_head-state p s b n = ground arith

  feed_head-state :
      (p : Parser) (s : ParserState) (b : Bytes) (e : Option ℕ)
      → feed_head lib (record p { state = s }) b e ≡ feed_head lib p b e
  unfolding feed_head
  feed_head-state p s b none = refl
  feed_head-state p s b (some n) = rw (parse_head-state p s b n)

  -- What a first call leaves when it asks for more: the head is not there yet, or it is parsed.
  data Waits (b : Bytes) : Parser → Type 0 where
    no_head :
        (s : ParserState)
        → s ≢ ParserState.complete
        → s ≢ ParserState.failed
        → find_headers_end lib b ≡ none
        → Waits b (record init { state = s })
    no_body :
        (n : ℕ) (p : Parser)
        → find_headers_end lib b ≡ some n
        → parse_head lib init b n ≡ (p, ok)
        → Waits b (record p { state = ParserState.body })

  -- The first call, by what it finds.
  pub first_no_head :
      (b : Bytes)
      → find_headers_end lib b ≡ none
      → feed_parser lib init b ≡ (record init { state = waiting b }, try_again)
  unfolding feed_parser
  first_no_head b e = rw e

  pub first_bad_head :
      (b : Bytes) (n : ℕ)
      → find_headers_end lib b ≡ some n
      → (parse_head lib init b n).1 ≡ error
      → feed_parser lib init b
        ≡ (record (parse_head lib init b n).0 { state = ParserState.failed }, error)
  unfolding feed_phases feed_parser
  first_bad_head b n e f = rw e (unfold feed_head in rw (f, lib.failed-error))

  pub first_head :
      (b : Bytes) (n : ℕ)
      → find_headers_end lib b ≡ some n
      → (parse_head lib init b n).1 ≡ ok
      → feed_parser lib init b
        ≡ feed_body lib (record (parse_head lib init b n).0 { state = ParserState.body }) b
  unfolding feed_phases feed_parser
  first_head b n e f = rw e (unfold feed_head in rw (f, lib.failed-ok))

  try_again_body :
      (q : Parser) (b : Bytes) {p : Parser}
      → q.state ≡ ParserState.body
      → feed_body lib q b ≡ (p, try_again)
      → q ≡ p
  unfolding feed_body
  try_again_body q b s h = ground arith

  Waits-feed : (b : Bytes) {p : Parser} → feed_parser lib init b ≡ (p, try_again) → Waits b p
  Waits-feed b {p} h = elim (Option-cases (find_headers_end lib b)) [
    | inl e ↦
        subst (Waits b) (ap (λ (r : Parser × ResultCode). r.0) (sym (first_no_head b e) ∙ h))
          (no_head (waiting b) (ground arith) (ground arith) e)
    | inr (n, e) ↦ elim (parse_head-result lib init b n) [
      | inl f ↦
          subst (Waits b) (try_again_body _ b refl (sym (first_head b n e f) ∙ h))
            (no_body n (parse_head lib init b n).0 e (ground (arith, f)))
      | inr f ↦ absurd (ground (arith, first_bad_head b n e f))
    ]
  ]

  feed_at :
      (s : ParserState) (b : Bytes)
      → s ≢ ParserState.complete
      → s ≢ ParserState.failed
      → feed_parser lib (record init { state = s }) b
        ≡ feed_head lib init b (find_headers_end lib b)
  unfolding feed_parser
  feed_at ParserState.complete b c f = absurd (c refl)
  feed_at ParserState.failed b c f = absurd (f refl)
  feed_at ParserState.request_line b c f = feed_head-state init ParserState.request_line b _
  feed_at ParserState.headers b c f = feed_head-state init ParserState.headers b _
  feed_at ParserState.body b c f = feed_head-state init ParserState.body b _

  feed_after_head :
      (p : Parser) (b : Bytes)
      → p.headers_end ≢ 0
      → feed_parser lib (record p { state = ParserState.body }) b
        ≡ feed_body lib (record p { state = ParserState.body }) b
  unfolding feed_parser
  feed_after_head p b h = ground arith

  resume_Waits :
      (b t : Bytes) {p : Parser}
      → Waits b p
      → feed_parser lib p (b ++ t) ≡ feed_parser lib init (b ++ t)
  resume_Waits b t (no_head s c f e) =
      feed_at s (b ++ t) c f ∙ sym (feed_at ParserState.request_line (b ++ t) (λ q. cc) (λ q. cc))
  resume_Waits b t (no_body n p e h) =
      let (found, inside, positive) = find_headers_end_more lib b t e in
      let parsed = parse_head-append lib init b t n inside ∙ h in
      let at_end = headers_end-parse_head lib init b n (ap (λ (r : Parser × ResultCode). r.1) h) in
      feed_after_head p (b ++ t) (ground (arith, at_end))
      ∙ sym (
          first_head (b ++ t) n found (ap (λ (r : Parser × ResultCode). r.1) parsed)
          ∙ ap
              (λ (r : Parser × ResultCode).
                feed_body lib (record r.0 { state = ParserState.body }) (b ++ t))
              parsed)

  -- A parser that asked for more goes on as if it had been given all the bytes at once.
  pub feed_resume :
      (b t : Bytes) {p : Parser}
      → feed_parser lib init b ≡ (p, try_again)
      → feed_parser lib p (b ++ t) ≡ feed_parser lib init (b ++ t)
  feed_resume b t h = resume_Waits b t (Waits-feed b h)

  same_body_slice :
      (b t : Bytes) (o n : ℕ) → o + n ≤ length b → lib.slice (b ++ t) o n ≡ lib.slice b o n
  same_body_slice b t o n h =
      lib.slice_lem (b ++ t) o n (omega (arith, length-append b t))
      ∙ take-drop-append o n b t h
      ∙ sym (lib.slice_lem b o n h)

  IsSmall-feed_body : (q : Parser) (b : Bytes) → IsSmall (feed_body lib q b).0 → IsSmall q
  unfolding feed_body
  IsSmall-feed_body q b h = ground arith

  feed_body_stable :
      (q : Parser) (b t : Bytes)
      → IsSmall q
      → (feed_body lib q b).1 ≢ try_again
      → feed_body lib q (b ++ t) ≡ feed_body lib q b
  unfolding feed_body
  feed_body_stable q b t small h = elim (Bool-cases (ltb (length b) (needed_of q))) [
    | inl e ↦ absurd (h (rw e))
    | inr e ↦
        let n = length-append b t in
        let enough : q.headers_end + q.content_length ≤ length b = ground arith in
        ground (arith, n, same_body_slice b t q.headers_end q.content_length enough)
  ]

  -- Bytes behind a message do not change what the parser makes of it.
  pub feed_stable :
      (b t : Bytes)
      → (feed_parser lib init b).1 ≢ try_again
      → IsSmall (feed_parser lib init (b ++ t)).0
      → feed_parser lib init (b ++ t) ≡ feed_parser lib init b
  feed_stable b t h small = elim (Option-cases (find_headers_end lib b)) [
    | inl e ↦ absurd (h (ap (λ (r : Parser × ResultCode). r.1) (first_no_head b e)))
    | inr (n, e) ↦
        let (found, inside, positive) = find_headers_end_more lib b t e in
        let same = parse_head-append lib init b t n inside in
        elim (parse_head-result lib init b n) [
          | inl f ↦
              let f' = ap (λ (r : Parser × ResultCode). r.1) same ∙ f in
              let whole =
                first_head (b ++ t) n found f'
                ∙ ap
                    (λ (r : Parser × ResultCode).
                      feed_body lib (record r.0 { state = ParserState.body }) (b ++ t))
                    same in
              let part = first_head b n e f in
              whole
              ∙ feed_body_stable _ b t (IsSmall-feed_body _ (b ++ t) (rw whole at small))
                  (λ k. h (ap (λ (r : Parser × ResultCode). r.1) part ∙ k))
              ∙ sym part
          | inr f ↦
              first_bad_head (b ++ t) n found (ap (λ (r : Parser × ResultCode). r.1) same ∙ f)
              ∙ ap (λ (r : Parser × ResultCode). (record r.0 { state = ParserState.failed }, error))
                  same
              ∙ sym (first_bad_head b n e f)
        ]
  ]

  -- The calls of a connection: each piece is put behind the bytes received before it, and the
  -- parser is given the whole, until it stops asking for more.
  unfoldable pub receive : Parser → Bytes → List Bytes → Parser × ResultCode
  receive p got [] = (p, try_again)
  receive p got (piece ∷ pieces) =
      let r = feed_parser lib p (got ++ piece) in
      elim r.1 [ ResultCode.try_again ↦ receive r.0 (got ++ piece) pieces | _ ↦ r ]

  receive_more :
      (p : Parser) (got c : Bytes) (cs : List Bytes)
      → (feed_parser lib p (got ++ c)).1 ≡ try_again
      → receive p got (c ∷ cs) ≡ receive (feed_parser lib p (got ++ c)).0 (got ++ c) cs
  unfolding receive
  receive_more p got c cs h = rw (h, receive)

  receive_stop :
      (p : Parser) (got c : Bytes) (cs : List Bytes)
      → (feed_parser lib p (got ++ c)).1 ≢ try_again
      → receive p got (c ∷ cs) ≡ feed_parser lib p (got ++ c)
  unfolding receive
  receive_stop p got c cs h = ground arith

  receive_from :
      (p : Parser) (got : Bytes) (pieces : List Bytes)
      → feed_parser lib init got ≡ (p, try_again)
      → IsSmall (feed_parser lib init (got ++ flatten pieces)).0
      → receive p got pieces ≡ feed_parser lib init (got ++ flatten pieces)
  unfolding receive flatten
  receive_from p got [] h small = rw append-nil (sym h)
  receive_from p got (c ∷ cs) h small =
      let same = feed_resume got c h in
      let regroup = append_assoc got c (flatten cs) in
      elim (asks (feed_parser lib init (got ++ c)).1) [
        | inl e ↦
            receive_more p got c cs (rw same e)
            ∙ ap (λ (r : Parser × ResultCode). receive r.0 (got ++ c) cs) same
            ∙ receive_from (feed_parser lib init (got ++ c)).0 (got ++ c) cs (ground (arith, e))
                (rw regroup small)
            ∙ ap (feed_parser lib init) regroup
        | inr e ↦
            receive_stop p got c cs (λ q. e (sym (ap (λ (r : Parser × ResultCode). r.1) same) ∙ q))
            ∙ same
            ∙ sym (feed_stable (got ++ c) (flatten cs) e (rw regroup small))
            ∙ ap (feed_parser lib init) regroup
      ]

  -- However the bytes are cut into pieces, the parser ends as if it had been given all of them
  -- at once, where the lengths that the head declares add up in uint32_t.
  pub receive-flatten :
      (pieces : List Bytes)
      → IsSmall (feed_parser lib init (flatten pieces)).0
      → receive init [] pieces ≡ feed_parser lib init (flatten pieces)
  receive-flatten pieces small =
      receive_from init [] pieces (first_no_head [] (find_headers_end-nil lib)) small
