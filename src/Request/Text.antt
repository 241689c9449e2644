-- ===== src/Request/Text.antt =====
-- The text that http_request_serialize_to writes.
use http_c.Prelude.{
  ◌≡◌, refl, sym, ap, ◌∙◌, some, List, [], ◌∷◌, ◌++◌, append_assoc, append-nil, arith, ◌==◌,
  take_none, Bool-cases, inl, inr,
}
use http_c.Common.{Bytes, ResultCode, ok, crlf, space}
use http_c.Span.{CommonLib}
use http_c.Span.Slices.{slice_prefix}
use http_c.Headers
use http_c.Headers.{Headers, is_empty}
use http_c.Headers.Fields.{Field, block, Represents}
use http_c.Request.{Request, serialize_to, write_body}

-- A first line of three parts, the fields, a blank line and the body.
abbrev pub text_of : Bytes → Bytes → Bytes → List Field → Bytes → Bytes
text_of first second third fs body =
    first ++ (space ++ (second ++ (space ++ (third ++ (crlf ++ (block fs ++ (crlf ++ body)))))))

-- A stream that takes everything.
abbrev pub append : Bytes → Bytes → Bytes × ResultCode
append b s = (s ++ b, ok)

module _ (lib : CommonLib) where
  pub serialize_headers :
      (h : Headers) (fs : List Field) (s : Bytes)
      → Represents h fs
      → Headers.serialize_to lib append (some h) s ≡ (s ++ block fs, ok)
  unfolding Headers.serialize_to
  serialize_headers h fs s r = elim (Bool-cases (h.used_size == 0)) [
    | inl e ↦
        let none_used : h.used_size ≡ 0 = ground arith in
        rw e (
          ap (λ (t : Bytes). (t, ok))
            (sym (append-nil s)
              ∙ ap (λ (t : Bytes). s ++ t)
                  (sym (take_none h.used_size h.buffer none_used) ∙ r.text)))
    | inr e ↦
        rw e
          (ap (λ (t : Bytes). (s ++ t, ok)) (slice_prefix lib h.buffer h.used_size r.fits ∙ r.text))
  ]

  pub write_body-append : (body s : Bytes) → write_body lib append body s ≡ (s ++ body, ok)
  unfolding write_body
  write_body-append [] s = rw append-nil
  write_body-append (c ∷ body) s = refl

  -- A request whose header buffer holds the fields is written as its text, in order and once.
  pub serialize_to-text_of :
      (r : Request) (fs : List Field) (s : Bytes)
      → Represents r.headers fs
      → serialize_to lib append (some r) s
        ≡ (s ++ text_of r.method r.path r.http_version fs r.body, ok)
  unfolding serialize_to
  serialize_to-text_of r fs s held =
      let fields = λ (t : Bytes). serialize_headers r.headers fs t held in
      simp (lib.failed-ok, fields, write_body-append, append_assoc)
