-- ===== src/Response/Text.antt =====
-- The text that http_response_serialize_to writes.
use http_c.Prelude.{◌≡◌, List, some, ◌++◌, append_assoc}
use http_c.Common.{Bytes, ok}
use http_c.Span.{CommonLib}
use http_c.Headers.Fields.{Field, Represents}
use http_c.Request.Text.{text_of, append, serialize_headers, write_body-append}
use http_c.Response.{Response, serialize_to}

module _ (lib : CommonLib) where
  -- A response whose header buffer holds the fields is written as its status line, the fields, a
  -- blank line and the body, in order and once.
  pub serialize_to-text :
      (r : Response) (fs : List Field) (s : Bytes)
      → Represents r.headers fs
      → serialize_to lib append (some r) s
        ≡ (s ++ text_of r.http_version r.code r.reason_phrase fs r.body, ok)
  unfolding serialize_to
  serialize_to-text r fs s held =
      let fields = λ (t : Bytes). serialize_headers lib r.headers fs t held in
      simp (lib.failed-ok, fields, write_body-append, append_assoc)
