-- ===== src/Response/Bounds.antt =====
-- The body that http_response_parse finds is no longer than the message.
use http_c.Prelude.{
  ℕ, ◌≤◌, ◌≡◌, ◌≢◌, refl, sym, ap, ◌∙◌, false, Option, none, some, [], ◌∷◌, ◌++◌, arith, length,
  length-append, Bool-cases, Option-cases, inl, inr,
}
use http_c.Common.{Bytes, ResultCode, crlf, space, headers_terminator}
use http_c.Span.{CommonLib, place}
use http_c.Span.Cut.{cut, cut_sound}
use http_c.Headers.{is_empty}
use http_c.Response.{Response, parse, parse_line, parse_rest}

module _ (lib : CommonLib) where
  split_shorter :
      (x : ℕ) (d s : Bytes) {a b : Bytes}
      → lib.split s 0 (x ∷ d) ≡ some (a, b)
      → length b ≤ length s
  split_shorter x d s {a} {b} h =
      let same = cut_sound (x ∷ d) s (sym (lib.split_lem s x d) ∙ h) in
      omega
        (arith, ap (length {A = ℕ}) same, length-append a ((x ∷ d) ++ b), length-append (x ∷ d) b)

  place-some :
      (o : Option (Bytes × Bytes)) {n : ℕ} {b : Bytes}
      → place o ≡ some (n, b)
      → (a : Bytes) × (o ≡ some (a, b))
  place-some none h = absurd (ground arith)
  place-some (some (a, b)) h = (a, ground arith)

  find_shorter :
      (x : ℕ) (d s : Bytes) {n : ℕ} {b : Bytes}
      → lib.find s 0 (x ∷ d) ≡ some (n, b)
      → length b ≤ length s
  find_shorter x d s {n} {b} h =
      let (a, e) = place-some (cut (x ∷ d) s) (sym (lib.find_lem s x d) ∙ h) in
      let same = cut_sound (x ∷ d) s e in
      omega
        (arith, ap (length {A = ℕ}) same, length-append a ((x ∷ d) ++ b), length-append (x ∷ d) b)

  parse_rest-body :
      (r : Response) (raw : Bytes)
      → r.body ≡ []
      → length (parse_rest lib r raw (lib.find raw 0 headers_terminator)).0.body ≤ length raw
  unfolding parse_rest
  parse_rest-body r raw h = elim (Option-cases (lib.find raw 0 headers_terminator)) [
    | inl e ↦ rw (e, h) (omega arith)
    | inr ((n, b), e) ↦ rw e (find_shorter b'\r' (b'\n' ∷ b'\r' ∷ b'\n' ∷ []) raw e)
  ]

  parse_line-body :
      (r : Response) (raw : Bytes) → r.body ≡ [] → length (parse_line lib r raw).0.body ≤ length raw
  unfolding parse_line
  parse_line-body r raw h = elim (Option-cases (lib.split raw 0 space)) [
    | inl e ↦ rw (e, parse_line) (rw h (omega arith))
    | inr ((a, raw1), e) ↦
        rw (e, parse_line)
          (elim (Option-cases (lib.split raw1 0 space)) [
            | inl f ↦ rw f (rw h (omega arith))
            | inr ((b, raw2), f) ↦ rw f (elim (Option-cases (lib.split raw2 0 crlf)) [
              | inl g ↦ rw g (rw h (omega arith))
              | inr ((c, raw3), g) ↦ rw g (
                  let last =
                    parse_rest-body (record r { http_version = a; code = b; reason_phrase = c })
                      raw3 h in
                  omega (
                    arith,
                    last,
                    split_shorter b' ' [] raw e,
                    split_shorter b' ' [] raw1 f,
                    split_shorter b'\r' (b'\n' ∷ []) raw2 g,
                  ))
            ])
          ])
  ]

  pub parse-body :
      (r : Response) (raw : Bytes) {parsed : Response} {result : ResultCode}
      → parse lib (some r) raw ≡ (some parsed, result)
      → lib.is_error result ≡ false
      → length parsed.body ≤ length raw
  unfolding parse
  parse-body r raw {parsed} {result} h fine = elim (Bool-cases (is_empty raw)) [
    | inl e ↦ absurd (ground (arith, lib.is_error-invalid_argument))
    | inr e ↦
        let line = parse_line-body (record r { body = [] }) raw refl in
        let same : (parse_line lib (record r { body = [] }) raw).0 ≡ parsed = ground arith in
        rw same at line
  ]

  pub parse-ne-none :
      (r : Response) (raw : Bytes) {result : ResultCode} → parse lib (some r) raw ≢ (none, result)
  unfolding parse
  parse-ne-none r raw h = elim (Bool-cases (is_empty raw)) [
    | inl e ↦ absurd (ground arith)
    | inr e ↦ absurd (ground arith)
  ]
