-- ===== src/Multipart.antt =====
-- inc/multipart.h and src/multipart.c: the parts of a multipart body.
pub mod Boundary
pub mod Gap
pub mod Taking
pub mod Parts
use http_c.Prelude.{
  ℕ, zero, suc, ◌+◌, ◌-◌, ◌^◌, Bool, true, false, not, ◌&&◌, ◌||◌, Option, none, some, [], ◌∷◌,
  length, take, get_or, leb, ◌==◌, if◌then◌else◌,
}
use http_c.Prelude.Text.{bytes}
use http_c.Common.{Bytes, ResultCode, ok, invalid_argument, not_found, crlf, headers_terminator}
use http_c.Span.{CommonLib}
use http_c.Headers.{is_empty}

-- mp_part_t
pub record MpPart : Type 0 where
  pub name : Bytes
  pub filename : Bytes
  pub content_type : Bytes
  pub part_data : Bytes

-- mp_iterator_t
pub record MpIterator : Type 0 where
  pub boundary : Bytes
  pub cursor : Bytes
  pub done : Bool

-- DASHDASH, COLON, SEMICOLON and EQUALS
abbrev pub dash_dash : Bytes
dash_dash = b'-' ∷ b'-' ∷ []

abbrev pub colon : Bytes
colon = b':' ∷ []

abbrev pub semicolon : Bytes
semicolon = b';' ∷ []

abbrev pub equals : Bytes
equals = b'=' ∷ []

-- memcmp(a, b, length of both) == 0
abbrev pub same_bytes : Bytes → Bytes → Bool
same_bytes [] [] = true
same_bytes (a ∷ s) (b ∷ t) = (a == b) && same_bytes s t
same_bytes _ _ = false

-- whether a text has these two bytes at that index
abbrev pub pair_at : Bytes → ℕ → ℕ → ℕ → Bool
pair_at s i a b = (get_or s i 0 == a) && (get_or s (suc i) 0 == b)

-- the loops that take blanks off the front
abbrev pub skip_spaces : Bytes → Bytes
skip_spaces [] = []
skip_spaces (c ∷ s) = let rest = skip_spaces s in if c == b' ' then rest else c ∷ s

abbrev pub skip_blanks : Bytes → Bytes
skip_blanks [] = []
skip_blanks (c ∷ s) =
    let rest = skip_blanks s in if (c == b' ') || (c == b'\t') then rest else c ∷ s

module _ (lib : CommonLib) where
  -- the double quotes around a parameter's value
  unfoldable pub unquote : Bytes → Bytes
  unquote [] = []
  unquote (c ∷ s) =
      if c == b'"'
      then (let value = lib.slice_to_end (c ∷ s) 1 in
          if not (is_empty value) && (get_or value (length value - 1) 0 == b'"')
          then lib.slice value 0 (length value - 1)
          else value)
      else c ∷ s

  -- the loop of param_value
  unfoldable pub param_loop : ℕ → Bytes → Bytes → Bytes
  unfolding unquote
  param_loop zero remainder key = []
  param_loop (suc fuel) remainder key = elim (lib.iterate remainder semicolon) [
    | none ↦ []
    | some (segment, remainder') ↦ elim (lib.split (skip_spaces segment) 0 equals) [
      | none ↦ param_loop fuel remainder' key
      | some (found, value) ↦ elim (lib.icompare_is_zero found key) [
        | false ↦ param_loop fuel remainder' key
        | true ↦ unquote value
      ]
    ]
  ]

  -- param_value
  unfoldable pub param_value : Bytes → Bytes → Bytes
  unfolding param_loop
  param_value header key = param_loop (suc (length header)) header key

  -- whether the boundary stands at that position of the cursor
  abbrev pub boundary_at : Bytes → Bytes → ℕ → Bool
  boundary_at cursor boundary position =
      let candidate = lib.slice_to_end cursor position in
      leb (length boundary) (length candidate)
      && same_bytes (take (length boundary) candidate) boundary

  -- the cast of a position to int; a negative one counts as not found
  abbrev pub as_int : ℕ → Option ℕ
  as_int position = if leb (2 ^ 31) position then none else some position

  -- the loop of find_boundary on what is left, which starts at that position of the cursor
  unfoldable pub boundary_loop : ℕ → Bytes → Bytes → ℕ → Bytes → Option ℕ
  boundary_loop zero cursor boundary at rem = none
  boundary_loop (suc fuel) cursor boundary at [] = none
  boundary_loop (suc fuel) cursor boundary at (c ∷ rem) = elim (lib.find (c ∷ rem) 0 dash_dash) [
    | none ↦ none
    | some (found, after_match) ↦ elim (boundary_at cursor boundary (at + found + 2)) [
      | true ↦ as_int (at + found)
      | false ↦ boundary_loop fuel cursor boundary (at + found + 2) after_match
    ]
  ]

  -- find_boundary
  unfoldable pub find_boundary : Bytes → ℕ → Bytes → Option ℕ
  unfolding boundary_loop
  find_boundary cursor offset boundary =
      boundary_loop (suc (length cursor)) cursor boundary offset (lib.slice_to_end cursor offset)

  -- the line at the front of a cursor, and the cursor behind it
  unfoldable pub take_line : Bytes → Bytes × Bytes
  take_line cursor = elim (lib.find cursor 0 crlf) [
    | none ↦ (cursor, [])
    | some (position, rest) ↦ (lib.slice cursor 0 position, rest)
  ]

  -- parse_header_line: a field where it answers true, and the cursor
  unfoldable pub parse_header_line : Bytes → Option (Bytes × Bytes) × Bytes
  unfolding take_line
  parse_header_line [] = (none, [])
  parse_header_line (c ∷ cursor) =
      if leb 2 (length (c ∷ cursor)) && pair_at (c ∷ cursor) 0 b'\r' b'\n'
      then (none, lib.slice_to_end (c ∷ cursor) 2)
      else (let (line, rest) = take_line (c ∷ cursor) in
          elim (lib.split line 0 colon) [
            | none ↦ (none, rest)
            | some (name, value) ↦ (some (name, skip_blanks value), rest)
          ])

  -- what mp_iterator_next stores for a field of a part
  unfoldable pub store_field : MpPart → Bytes × Bytes → MpPart
  unfolding param_value
  store_field part (name, value) =
      if lib.icompare_is_zero name (bytes "Content-Disposition")
      then record part {
        name = param_value value (bytes "name");
        filename = param_value value (bytes "filename");
      }
      else if lib.icompare_is_zero name (bytes "Content-Type")
      then record part { content_type = value }
      else part

  -- the loop of mp_iterator_next over the fields of a part
  unfoldable pub field_loop : ℕ → Bytes → MpPart → MpPart
  unfolding parse_header_line store_field
  field_loop zero cursor part = part
  field_loop (suc fuel) cursor part =
      let (field, cursor') = parse_header_line cursor in
      elim field [ none ↦ part | some f ↦ field_loop fuel cursor' (store_field part f) ]

  -- mp_iterator_init
  unfoldable pub mp_iterator_init :
      Option MpIterator → Bytes → Bytes → Option MpIterator × ResultCode
  unfolding param_value
  mp_iterator_init none content_type_header body = (none, invalid_argument)
  mp_iterator_init (some it) content_type_header body =
      let boundary = param_value content_type_header (bytes "boundary") in
      if is_empty boundary
      then (some (record { boundary = []; cursor = []; done = true }), not_found)
      else (some (record { boundary = boundary; cursor = body; done = false }), ok)

  -- the length of what mp_iterator_next skips behind a boundary
  abbrev pub skip_line_end : Bytes → ℕ → ℕ
  skip_line_end tail after =
      if leb 2 (length tail) && pair_at tail 0 b'\r' b'\n' then after + 2 else after

  -- the end of the data, before the CRLF that belongs to the next boundary
  abbrev pub data_end_of : Bytes → ℕ → ℕ → ℕ
  data_end_of c body_start next_b =
      if leb (body_start + 2) next_b && pair_at c (next_b - 2) b'\r' b'\n'
      then next_b - 2
      else next_b

  -- mp_iterator_next with the end of the part's headers and the next boundary
  unfoldable pub part_between : MpIterator → Bytes → ℕ → ℕ → MpIterator × Option MpPart
  unfolding field_loop
  part_between it hdrs_block body_start next_b =
      let data_end = data_end_of it.cursor body_start next_b in
      (
        record it { cursor = lib.slice_to_end it.cursor next_b },
        some (
            field_loop (suc (length hdrs_block)) hdrs_block (record {
              name = [];
              filename = [];
              content_type = [];
              part_data = lib.slice it.cursor body_start (data_end - body_start);
            })),
      )

  abbrev pub finished : MpIterator → MpIterator × Option MpPart
  finished it = (record it { done = true }, none)

  -- mp_iterator_next behind a boundary that is not the closing one
  unfoldable pub part_behind : MpIterator → ℕ → MpIterator × Option MpPart
  unfolding part_between
  part_behind it after =
      let header_area = lib.slice_to_end it.cursor after in
      elim (lib.find header_area 0 headers_terminator) [
        | none ↦ finished it
        | some (hend, _) ↦ elim (find_boundary it.cursor (after + hend + 4) it.boundary) [
          | none ↦ finished it
          | some next_b ↦
              part_between it (lib.slice header_area 0 (hend + 2)) (after + hend + 4) next_b
        ]
      ]

  -- mp_iterator_next on what find_boundary answered from the start of the cursor
  unfoldable pub part_from : MpIterator → Option ℕ → MpIterator × Option MpPart
  unfolding part_behind
  part_from it none = finished it
  part_from it (some position) =
      let after = position + 2 + length it.boundary in
      let tail = lib.slice_to_end it.cursor after in
      if leb 2 (length tail) && pair_at tail 0 b'-' b'-'
      then finished it
      else part_behind it (skip_line_end tail after)

  -- mp_iterator_next, for an iterator and an output that are not NULL; the part is there where the
  -- result is ok, and otherwise the result is end_of_data
  unfoldable pub mp_iterator_next : MpIterator → MpIterator × Option MpPart
  unfolding find_boundary part_from
  mp_iterator_next it =
      if it.done then (it, none) else part_from it (find_boundary it.cursor 0 it.boundary)
