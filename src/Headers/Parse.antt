-- ===== src/Headers/Parse.antt =====
-- http_headers_parse of src/http_headers.c on a block of fields and the blank line behind it.
use http_c.Prelude.{
  ℕ, ◌+◌, ◌≡◌, refl, sym, ap, ◌∙◌, some, List, [], ◌∷◌, ◌++◌, append_assoc, append-nil, arith,
  length, length-append, take, take-append,
}
use http_c.Common.{Bytes, crlf, headers_terminator}
use http_c.Span.{CommonLib}
use http_c.Span.Cut.{cut, cut_last, cut_last-append}
use http_c.Headers.{parsed, find}
use http_c.Headers.Lines.{Lines, done, more, lookup_line, find-Lines}
use http_c.Headers.Fields.{Field, line, block, AllClean, Represents, find_field, find-Represents}

-- A block of fields ends in a CRLF.
block_end : (f : Field) (fs : List Field) → (y : Bytes) × (block (f ∷ fs) ≡ y ++ crlf)
unfolding block
block_end f [] = (line f, ap (λ (t : Bytes). line f ++ t) (append-nil crlf))
block_end f (g ∷ fs) =
    let (y, e) = block_end g fs in
    (
      line f ++ (crlf ++ y),
      ap (λ (t : Bytes). line f ++ (crlf ++ t)) e ∙ sym (append_assoc (line f) (crlf ++ y) crlf),
    )

module _ (lib : CommonLib) where
  used_size-parsed : (y : Bytes) → (parsed lib ((y ++ crlf) ++ crlf)).used_size ≡ length y + 2
  unfolding parsed
  used_size-parsed y =
      let found =
        lib.find_reverse_lem ((y ++ crlf) ++ crlf) b'\r' (b'\n' ∷ crlf)
        ∙ ap (cut_last headers_terminator) (append_assoc y crlf crlf)
        ∙ cut_last-append b'\r' (b'\n' ∷ crlf) y in
      rw found

  buffer-parsed : (raw : Bytes) → (parsed lib raw).buffer ≡ raw
  unfolding parsed
  buffer-parsed raw = refl

  empty-parsed : ((parsed lib crlf).used_size ≡ 2)
  unfolding parsed cut_last
  empty-parsed = ground (
    arith,
    lib.find_reverse_lem crlf b'\r' (b'\n' ∷ crlf),
    lib.find_reverse_lem crlf b'\r' (b'\n' ∷ []),
  )

  no_lines : Lines crlf ([] ∷ [])
  unfolding cut
  no_lines = more refl done

  pub Represents-parsed :
      (f : Field) (fs : List Field)
      → AllClean (f ∷ fs)
      → Represents (parsed lib (block (f ∷ fs) ++ crlf)) (f ∷ fs)
  Represents-parsed f fs cs =
      let raw = block (f ∷ fs) ++ crlf in
      let (y, e) = block_end f fs in
      let used = ap (λ (t : Bytes). (parsed lib (t ++ crlf)).used_size) e ∙ used_size-parsed y in
      let size = ap length e in
      let n = length-append y crlf in
      let b = buffer-parsed raw in
      record {
        fits = omega (arith, used, size, n, ap length b, length-append (block (f ∷ fs)) crlf);
        text =
            ap (take (parsed lib raw).used_size) b
            ∙ take-append _ (block (f ∷ fs)) crlf (omega (arith, used, size, n));
        clean = cs;
      }

  -- A header block that is read back from its text has the fields that were written, also when
  -- there are none.
  pub find-parsed :
      (fs : List Field) (c : ℕ) (name : Bytes)
      → AllClean fs
      → find lib (some (parsed lib (block fs ++ crlf))) (c ∷ name) ≡ find_field lib (c ∷ name) fs
  unfolding block lookup_line cut find_field
  find-parsed [] c name cs =
      find-Lines lib (parsed lib crlf) c name {lines = [] ∷ []}
        (omega (arith, empty-parsed, ap length (buffer-parsed crlf)))
        (rw (empty-parsed, buffer-parsed crlf) no_lines)
  find-parsed (f ∷ fs) c name cs = find-Represents lib _ (f ∷ fs) c name (Represents-parsed f fs cs)
