-- ===== src/Examples/Request.antt =====
-- A request and a response written out, and a request read back.
use http_c.Prelude.{◌≡◌, ◌≢◌, refl, some, none, [], ◌∷◌, ◌++◌, arith, length}
use http_c.Common.{HlResult, ok, crlf}
use http_c.Span.Reference.{reference}
use http_c.Headers.{Headers, find}
use http_c.Headers.Fields.{Field, Represents, IsClean, block, find_field}
use http_c.Request
use http_c.Request.{Request}
use http_c.Request.Text.{text_of, append, serialize_to-text_of}
use http_c.Response.{Response}
use http_c.RequestParser.{Parser, init, consumed, feed_parser}
use http_c.RequestParser.RoundTrip.{IsPlain, feed-text_of}
use http_c.Server.{SlotState}
use http_c.Server.Responding.{serialize_and_send, arms_write}
use http_c.Server.Responding.Fits.{serialize_and_send-text}
use http_c.Examples.Server.{idle_since}
use http_c.Prelude.Text.{bytes}

abbrev size : Field
size = (bytes "Content-Length", bytes "3")

size-IsClean : IsClean size
size-IsClean = record {
  named = λ e. cc;
  no_colon = (
    refl,
    (
      refl,
      (
        refl,
        (refl, (refl, (refl, (refl, (refl, (refl, (refl, (refl, (refl, (refl, (refl, tt))))))))))),
      ),
    ),
  );
  no_return = (
    refl,
    (
      refl,
      (
        refl,
        (refl, (refl, (refl, (refl, (refl, (refl, (refl, (refl, (refl, (refl, (refl, tt))))))))))),
      ),
    ),
  );
  one_line = (refl, tt);
  trimmed = (refl, refl);
}

abbrev size_headers : Headers
size_headers = record { buffer = bytes "Content-Length: 3" ++ crlf; used_size = 19; iterator = [] }

size-Represents : Represents size_headers (size ∷ [])
unfolding block
size-Represents = record { fits = omega arith; text = refl; clean = (size-IsClean, tt) }

abbrev put : Request
put = record {
  method = bytes "PUT";
  path = bytes "/a";
  http_version = bytes "HTTP/1.1";
  headers = size_headers;
  body = bytes "xyz";
}

serialize_to-text_of_example : Request.serialize_to reference append (some put) (bytes "..") ≡ (
  bytes ".." ++ text_of (bytes "PUT") (bytes "/a") (bytes "HTTP/1.1") (size ∷ []) (bytes "xyz"),
  ok,
)
serialize_to-text_of_example =
    serialize_to-text_of reference put (size ∷ []) (bytes "..") size-Represents

abbrev done : Response
done = record {
  http_version = bytes "HTTP/1.1";
  code = bytes "200";
  reason_phrase = bytes "OK";
  headers = size_headers;
  body = bytes "xyz";
  body_provider = none;
  body_finalizer = none;
  body_provider_context = none;
}

put-IsPlain : IsPlain (bytes "PUT") (bytes "/a") (bytes "HTTP/1.1")
put-IsPlain = record {
  method_space = (refl, (refl, (refl, tt)));
  method_return = (refl, (refl, (refl, tt)));
  path_space = (refl, (refl, tt));
  path_return = (refl, (refl, tt));
  version_return = (refl, (refl, (refl, (refl, (refl, (refl, (refl, (refl, tt))))))));
}

put_declared :
    find_field reference (bytes "Content-Length") (size ∷ []) ≡ (HlResult.ok, some (bytes "3"))
unfolding find_field reference
put_declared = refl

put_plain : (find_field reference (bytes "Transfer-Encoding") (size ∷ [])).0 ≢ HlResult.ok
unfolding find_field reference
put_plain = λ e. cc

feed-text_of_example :
    (p : Parser) × (feed_parser reference init (
        text_of (bytes "PUT") (bytes "/a") (bytes "HTTP/1.1") (size ∷ []) (bytes "xyz")
        ++ bytes "GET")
      ≡ (p, ok))
    × (p.request.method ≡ bytes "PUT")
    × (p.request.path ≡ bytes "/a")
    × (p.request.http_version ≡ bytes "HTTP/1.1")
    × (p.request.body ≡ bytes "xyz")
    × (find reference (some p.request.headers) (bytes "Host")
        ≡ find_field reference (bytes "Host") (size ∷ []))
    × (consumed p
        ≡ length (text_of (bytes "PUT") (bytes "/a") (bytes "HTTP/1.1") (size ∷ []) (bytes "xyz")))
unfolding reference block
feed-text_of_example =
    feed-text_of reference (bytes "PUT") (bytes "/a") (bytes "HTTP/1.1") put-IsPlain (size ∷ [])
      (size-IsClean, tt) (bytes "xyz") (bytes "GET") (bytes "3") b'H' (bytes "ost") put_declared
      refl put_plain (omega arith)

serialize_and_send-text_example : serialize_and_send reference 500 (idle_since 400) done ≡ (
  record (idle_since 400) {
    send = text_of (bytes "HTTP/1.1") (bytes "200") (bytes "OK") (size ∷ []) (bytes "xyz");
    send_offset = 0;
    state = SlotState.sending;
    last_activity_ms = 500;
  },
  arms_write,
)
unfolding block
serialize_and_send-text_example =
    serialize_and_send-text reference 500 (idle_since 400) done (size ∷ []) size-Represents refl
      (omega arith) (omega arith)
