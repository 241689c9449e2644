-- ===== src/RequestParser/RoundTrip.antt =====
-- A request that is written out and fed to the incremental parser comes back.
use http_c.Prelude.{
  ℕ, ◌+◌, ◌<◌, ◌^◌, ◌≡◌, ◌≢◌, refl, sym, ap, ◌∙◌, true, false, some, List, [], ◌∷◌, ◌++◌,
  append_assoc, append-nil, arith, length, length-append, drop, ◌==◌,
}
use http_c.Common.{Bytes, HlResult, ResultCode, ok, crlf, space, headers_terminator}
use http_c.Span.{CommonLib}
use http_c.Span.Cut.{cut, strip, Free, cut-Free, cut_skip}
use http_c.Span.Slices.{slice_front, slice_middle}
use http_c.Headers.{parsed, parse, find}
use http_c.Headers.Fields.{Field, line, block, IsClean, AllClean, Free-append, find_field}
use http_c.Headers.Parse.{find-parsed}
use http_c.Request.Text.{text_of}
use http_c.RequestParser.{
  Parser, ParserState, init, parse_head, feed_body, feed_parser, consumed, find_headers_end,
  header_content_length, header_transfer_encoding,
}
use http_c.RequestParser.Head.{find_headers_end_at}
use http_c.RequestParser.Chunks.{first_head}

-- The text of a first line and header lines, without the CRLF of the last of them.
abbrev joined : Bytes → List Field → Bytes
joined l [] = l
joined l (f ∷ fs) = l ++ (crlf ++ joined (line f) fs)

joined_text :
    (l : Bytes) (fs : List Field) (rest : Bytes)
    → l ++ (crlf ++ (block fs ++ rest)) ≡ joined l fs ++ (crlf ++ rest)
unfolding block
joined_text l [] rest = refl
joined_text l (f ∷ fs) rest =
    ap (λ (t : Bytes). l ++ (crlf ++ t)) (append_assoc (line f) (crlf ++ block fs) rest)
    ∙ ap (λ (t : Bytes). l ++ (crlf ++ t)) (joined_text (line f) fs rest)
    ∙ sym (append_assoc l (crlf ++ joined (line f) fs) (crlf ++ rest))

line-Free : (f : Field) → IsClean f → Free b'\r' (line f)
line-Free (n, v) c = Free-append b'\r' n (b':' ∷ b' ' ∷ v) c.no_return (refl, (refl, c.one_line))

joined_cons : (x : ℕ) (l : Bytes) (fs : List Field) → joined (x ∷ l) fs ≡ x ∷ joined l fs
joined_cons x l [] = refl
joined_cons x l (f ∷ fs) = refl

-- A CRLF with another line behind it is no blank line.
cut_past :
    (x : ℕ) (s : Bytes) {a b : Bytes}
    → (b'\r' == x) ≡ false
    → cut headers_terminator (x ∷ s) ≡ some (a, b)
    → cut headers_terminator (b'\r' ∷ b'\n' ∷ x ∷ s) ≡ some (b'\r' ∷ b'\n' ∷ a, b)
unfolding cut strip
cut_past x s ne e = ground (arith, e)

-- The first blank line stands behind the header lines.
cut-joined :
    (l : Bytes) (fs : List Field) (body : Bytes)
    → Free b'\r' l
    → AllClean fs
    → cut headers_terminator (joined l fs ++ (headers_terminator ++ body))
      ≡ some (joined l fs, body)
cut-joined l [] body h cs = cut-Free b'\r' (b'\n' ∷ b'\r' ∷ b'\n' ∷ []) l body h
cut-joined l (([], v) ∷ fs) body h (c, cs) = absurd (c.named refl)
cut-joined l ((x ∷ n, v) ∷ fs) body h (c, cs) =
    let f : Field = (x ∷ n, v) in
    let tail = joined (line (n, v)) fs ++ (headers_terminator ++ body) in
    let same : joined (line f) fs ++ (headers_terminator ++ body) ≡ x ∷ tail =
      ap (λ (t : Bytes). t ++ (headers_terminator ++ body)) (joined_cons x (line (n, v)) fs) in
    let later =
      sym (ap (cut headers_terminator) same) ∙ cut-joined (line f) fs body (line-Free f c) cs in
    ap (cut headers_terminator) (
      append_assoc l (crlf ++ joined (line f) fs) (headers_terminator ++ body)
      ∙ ap (λ (t : Bytes). l ++ (crlf ++ t)) same)
    ∙ cut_skip b'\r' (b'\n' ∷ b'\r' ∷ b'\n' ∷ []) l (b'\r' ∷ b'\n' ∷ x ∷ tail) h
        (cut_past x tail c.no_return.0 later)

length_none : (s : Bytes) → length s ≡ 0 → s ≡ []
length_none [] h = refl
length_none (c ∷ s) h = absurd (omega arith)

-- The parts of a first line that can be told apart.
pub record IsPlain (method path version : Bytes) : Type 0 where
  pub method_space : Free b' ' method
  pub method_return : Free b'\r' method
  pub path_space : Free b' ' path
  pub path_return : Free b'\r' path
  pub version_return : Free b'\r' version

module _ (lib : CommonLib) (method path version : Bytes) (plain : IsPlain method path version)
    (fs : List Field) (clean : AllClean fs) where
  first_line : Bytes
  first_line = method ++ (space ++ (path ++ (space ++ version)))

  -- the head, with the blank line
  head : Bytes
  head = text_of method path version fs []

  text-head : (body : Bytes) → text_of method path version fs body ≡ head ++ body
  unfolding head
  text-head body = simp (append_assoc, append-nil)

  line_return : Free b'\r' first_line
  unfolding first_line
  line_return =
      Free-append b'\r' method (b' ' ∷ (path ++ (b' ' ∷ version))) plain.method_return (
        refl,
        Free-append b'\r' path (b' ' ∷ version) plain.path_return (refl, plain.version_return),
      )

  text-joined :
      (body : Bytes)
      → text_of method path version fs body ≡ joined first_line fs ++ (headers_terminator ++ body)
  unfolding first_line
  text-joined body =
      simp append_assoc refl
      ∙ joined_text (method ++ (space ++ (path ++ (space ++ version)))) fs (crlf ++ body)

  length-head : length head ≡ length (joined first_line fs) + 4
  unfolding head
  length-head =
      omega
        (arith, ap length (text-joined []), length-append (joined first_line fs) headers_terminator)

  head_end : (body : Bytes) → find_headers_end lib (head ++ body) ≡ some (length head)
  head_end body =
      find_headers_end_at lib (head ++ body) (
        ap (cut headers_terminator) (sym (text-head body) ∙ text-joined body)
        ∙ cut-joined first_line fs body line_return clean)
      ∙ ap some (sym length-head)

  -- the parser behind the head, for a declared length
  abbrev head_parser : ℕ → Parser
  head_parser k = record init {
    request = record {
      method = method;
      path = path;
      http_version = version;
      headers = parsed lib (block fs ++ crlf);
      body = [];
    };
    headers_end = length head;
    content_length = k;
    has_content_length = true;
  }

  parse_head-head :
      (body digits : Bytes) (k : ℕ)
      → find_field lib header_content_length fs ≡ (HlResult.ok, some digits)
      → lib.to_uint32 digits ≡ some k
      → (find_field lib header_transfer_encoding fs).0 ≢ HlResult.ok
      → parse_head lib init (head ++ body) (length head) ≡ (head_parser k, ok)
  unfolding parse_head head parse
  parse_head-head body digits k declared number plain_body =
      let after_version = block fs ++ (crlf ++ []) in
      let after_path = version ++ (crlf ++ after_version) in
      let after_method = path ++ (space ++ after_path) in
      let whole = method ++ (space ++ after_method) in
      ground (
        arith,
        slice_front lib whole body (length whole) refl,
        lib.split_lem whole b' ' [],
        cut-Free b' ' [] method after_method plain.method_space,
        lib.split_lem after_method b' ' [],
        cut-Free b' ' [] path after_path plain.path_space,
        lib.split_lem after_path b'\r' (b'\n' ∷ []),
        cut-Free b'\r' (b'\n' ∷ []) version after_version plain.version_return,
        lib.failed-ok,
        find-parsed lib fs b'C' (drop 1 header_content_length) clean,
        find-parsed lib fs b'T' (drop 1 header_transfer_encoding) clean,
      )

  -- A request whose method and path have no space or carriage return and whose version has no
  -- carriage return, whose fields are clean (a name that is not empty and has no colon or carriage
  -- return, a value on one line without blanks around it), whose Content-Length is the number of
  -- its body's bytes, that has no Transfer-Encoding, and whose text has fewer than 2^32 bytes is read back
  -- from its text, whatever follows it: the first line, every field by its name, and the body. The
  -- consumed count is its size.
  pub feed-text_of :
      (body rest digits : Bytes) (c : ℕ) (name : Bytes)
      → find_field lib header_content_length fs ≡ (HlResult.ok, some digits)
      → lib.to_uint32 digits ≡ some (length body)
      → (find_field lib header_transfer_encoding fs).0 ≢ HlResult.ok
      → length (text_of method path version fs body) < 2 ^ 32
      → (p : Parser) × (feed_parser lib init (text_of method path version fs body ++ rest)
          ≡ (p, ok))
        × (p.request.method ≡ method)
        × (p.request.path ≡ path)
        × (p.request.http_version ≡ version)
        × (p.request.body ≡ body)
        × (find lib (some p.request.headers) (c ∷ name) ≡ find_field lib (c ∷ name) fs)
        × (consumed p ≡ length (text_of method path version fs body))
  unfolding feed_body consumed
  feed-text_of body rest digits c name declared number plain_body small =
      let text = text_of method path version fs body in
      let whole : text ++ rest ≡ head ++ (body ++ rest) =
        ap (λ (t : Bytes). t ++ rest) (text-head body) ∙ append_assoc head body rest in
      let size : length text ≡ length head + length body =
        ap length (text-head body) ∙ length-append head body in
      let parsed = parse_head-head (body ++ rest) digits (length body) declared number plain_body in
      let fed =
        first_head lib (head ++ (body ++ rest)) (length head) (head_end (body ++ rest))
          (ap (λ (r : Parser × ResultCode). r.1) parsed)
        ∙ ap
            (λ (r : Parser × ResultCode).
              feed_body lib (record r.0 { state = ParserState.body }) (head ++ (body ++ rest)))
            parsed in
      let middle = slice_middle lib head body rest (length head) (length body) refl refl in
      let l1 = length-append head (body ++ rest) in
      let l2 = length-append body rest in
      (
        record (head_parser (length body)) {
          request = record (head_parser (length body)).request { body = body };
          state = ParserState.complete;
        },
        ap (feed_parser lib init) whole
            ∙ fed
            ∙ ground (arith, middle, l1, l2, size, length_none body),
        refl,
        refl,
        refl,
        refl,
        find-parsed lib fs c name clean,
        omega (arith, size),
      )
