-- ===== src/Headers.antt =====
-- src/http_headers.c and inc/http_headers.h: a header block in a buffer.
pub mod Trim
pub mod Lines
pub mod Fields
pub mod Append
pub mod Parse
use http_c.Prelude.{
  ℕ, zero, suc, ◌+◌, ◌-◌, Bool, true, false, ◌&&◌, ◌||◌, Option, none, some, List, [], ◌∷◌, ◌++◌,
  ◌==◌, ltb, if◌then◌else◌, length, get_or, take,
}
use http_c.Common.{Bytes, HlResult, ResultCode, crlf, name_value_separator, headers_terminator}
use http_c.Span.{CommonLib}

-- http_headers_t
pub record Headers : Type 0 where
  pub buffer : Bytes
  pub used_size : ℕ
  pub iterator : Bytes

-- what memset to 0 leaves
abbrev pub no_headers : Headers
no_headers = record { buffer = []; used_size = 0; iterator = [] }

abbrev pub header_name_terminator : Bytes
header_name_terminator = b':' ∷ []

abbrev pub is_empty : Bytes → Bool
is_empty [] = true
is_empty (c ∷ s) = false

abbrev pub is_blank : ℕ → Bool
is_blank c = c == b' ' || c == b'\t'

-- while (start < end && blank(value[start])) start++, with the rounds left
skip_start : ℕ → Bytes → ℕ → ℕ → ℕ
skip_start zero value start end = start
skip_start (suc rounds) value start end =
    let next = skip_start rounds value (start + 1) end in
    if ltb start end && is_blank (get_or value start 0) then next else start

-- while (end > start && blank(value[end - 1])) end--
skip_end : ℕ → Bytes → ℕ → ℕ → ℕ
skip_end zero value start end = end
skip_end (suc rounds) value start end =
    let next = skip_end rounds value start (end - 1) in
    if ltb start end && is_blank (get_or value (end - 1) 0) then next else end

-- http_headers_init; `none` is a NULL pointer
unfoldable pub init : Option Headers → Bytes → Option Headers × HlResult
init none buffer = (none, HlResult.invalid_arg)
init (some headers) buffer =
    (some (record { buffer = buffer; used_size = 0; iterator = [] }), HlResult.ok)

module _ (lib : CommonLib) where
  unfoldable pub trim_optional_whitespace : Bytes → Bytes
  unfolding skip_start skip_end
  trim_optional_whitespace value =
      let size = length value in
      if size == 0
      then value
      else let start = skip_start size value 0 size in
        let end = skip_end size value start size in lib.slice value start (end - start)

  -- the size of the block up to its terminator, without the second CRLF
  headers_size_of : Bytes → Option ℕ → Option ℕ → ℕ
  headers_size_of raw (some term_pos) single = term_pos + length crlf
  headers_size_of raw none (some single) = single + length crlf
  headers_size_of raw none none = length raw

  -- what http_headers_parse stores through its pointer
  unfoldable pub parsed : Bytes → Headers
  unfolding headers_size_of
  parsed raw_headers =
      let headers_size =
        headers_size_of raw_headers (lib.find_reverse raw_headers headers_terminator)
          (lib.find_reverse raw_headers crlf) in
      record {
        buffer = raw_headers;
        used_size = headers_size;
        iterator = lib.slice raw_headers 0 headers_size;
      }

  -- http_headers_parse
  unfoldable pub parse : Option Headers → Bytes → Option Headers × ResultCode
  unfolding parsed
  parse none raw_headers = (none, ResultCode.invalid_argument)
  parse (some headers) raw_headers = (some (parsed raw_headers), ResultCode.ok)

  -- http_headers_get_buffer
  unfoldable pub get_buffer : Option Headers → Bytes × HlResult
  get_buffer none = ([], HlResult.invalid_arg)
  get_buffer (some headers) = (lib.slice headers.buffer 0 headers.used_size, HlResult.ok)

  -- the line has been split off; its name and value come back when it holds the separator
  next_field : Headers → Option (Bytes × Bytes) → Headers × HlResult × Option (Bytes × Bytes)
  next_field headers none = (headers, HlResult.error, none)
  next_field headers (some field) = (headers, HlResult.ok, some field)

  next_line : Headers → Option (Bytes × Bytes) → Headers × HlResult × Option (Bytes × Bytes)
  unfolding next_field
  next_line headers none = (headers, HlResult.error, none)
  next_line headers (some (line, rest)) =
      next_field (record headers { iterator = rest }) (lib.split line 0 name_value_separator)

  -- http_headers_get_next
  unfoldable pub get_next : Option Headers → Option Headers × HlResult × Option (Bytes × Bytes)
  unfolding next_line
  get_next none = (none, HlResult.invalid_arg, none)
  get_next (some headers) =
      if headers.used_size == 0
      then (some headers, HlResult.eof, none)
      else if is_empty headers.iterator || lib.compare_is_zero headers.iterator crlf
      then (
        some (record headers { iterator = lib.slice headers.buffer 0 headers.used_size }),
        HlResult.eof,
        none,
      )
      else let (h, r, field) = next_line headers (lib.split headers.iterator 0 crlf) in
        (some h, r, field)

  -- The loop over the lines. Each round takes at least one byte off `remaining`, so as many
  -- rounds as it has bytes, and one more, are enough.
  find_loop : ℕ → Bytes → Bytes → HlResult × Option Bytes
  unfolding trim_optional_whitespace
  find_loop zero remaining name = (HlResult.not_found, none)
  find_loop (suc rounds) remaining name = elim (lib.iterate remaining crlf) [
    | none ↦ (HlResult.not_found, none)
    | some (line, rest) ↦ elim (lib.split line 0 header_name_terminator) [
      | none ↦ find_loop rounds rest name
      | some (line_name, value) ↦ elim (lib.icompare_is_zero line_name name) [
        | true ↦ (HlResult.ok, some (trim_optional_whitespace value))
        | false ↦ find_loop rounds rest name
      ]
    ]
  ]

  -- http_headers_find
  unfoldable pub find : Option Headers → Bytes → HlResult × Option Bytes
  unfolding find_loop
  find none name = (HlResult.invalid_arg, none)
  find (some headers) name =
      if is_empty name
      then (HlResult.invalid_arg, none)
      else if headers.used_size == 0
      then (HlResult.not_found, none)
      else let text = lib.slice headers.buffer 0 headers.used_size in
        find_loop (length text + 1) text name

  -- What each span_copy leaves: the bytes written so far behind the used ones, and the free rest.
  -- A copy that does not fit is taken to write nothing.
  write_all : Bytes → Bytes → List Bytes → Bool × Bytes × Bytes
  write_all written free [] = (true, written, free)
  write_all written free (piece ∷ pieces) =
      let (copied, rest) = lib.copy free piece in
      let later = write_all (written ++ copied) rest pieces in
      if is_empty copied then (false, written, free) else later

  -- http_headers_add
  unfoldable pub add : Option Headers → Bytes → Bytes → Option Headers × HlResult
  unfolding write_all
  add none name value = (none, HlResult.invalid_arg)
  add (some headers) name value =
      let used = take headers.used_size headers.buffer in
      let free_buffer = lib.slice_to_end headers.buffer headers.used_size in
      let (all, written, rest) =
        write_all used free_buffer (name ∷ name_value_separator ∷ value ∷ crlf ∷ []) in
      let buffer = written ++ rest in
      if all
      then (
        some (record headers { buffer = buffer; used_size = length buffer - length rest }),
        HlResult.ok,
      )
      else (some (record headers { buffer = buffer }), HlResult.buffer_overflow)

  -- http_headers_serialize_to: `write` is stream_write
  unfoldable pub serialize_to {ℓ} :
      {S : Type ℓ} → (Bytes → S → S × ResultCode) → Option Headers → S → S × ResultCode
  serialize_to write none s = (s, ResultCode.invalid_argument)
  serialize_to write (some headers) s =
      if headers.used_size == 0
      then (s, ResultCode.ok)
      else write (lib.slice headers.buffer 0 headers.used_size) s
