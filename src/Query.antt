-- ===== src/Query.antt =====
-- inc/http_query.h and src/http_query.c: the pairs of a query string, lookup and percent decoding.
-- A loop over p[i] from an index is a run over the bytes behind that index.
pub mod Pairs
pub mod Cursor
pub mod Iteration
pub mod Lookup
pub mod Decoding
use http_c.Prelude.{
  ℕ, zero, suc, ◌+◌, ◌-◌, ◌*◌, Bool, true, false, not, ◌&&◌, ◌||◌, Option, none, some, List, [],
  ◌∷◌, ◌++◌, length, drop, get_or, if◌then◌else◌, ◌==◌, ltb, leb,
}
use http_c.Common.{
  Bytes, ResultCode, ok, not_found, insufficient_size, unexpected_char, end_of_data,
}
use http_c.Span.{CommonLib}

-- How many bytes in front meet a test.
unfoldable pub run : (ℕ → Bool) → Bytes → ℕ
run test [] = 0
run test (c ∷ s) = let rest = run test s in if test c then suc rest else 0

-- the tests of the loops
abbrev pub no_mark : ℕ → Bool
no_mark c = not (c == b'?')

abbrev pub separator : ℕ → Bool
separator c = c == b'&'

abbrev pub in_name : ℕ → Bool
in_name c = not (c == b'=') && not (c == b'&')

abbrev pub in_value : ℕ → Bool
in_value c = not (c == b'&')

-- http_query_iterator_t
pub record Iterator : Type 0 where
  pub query : Bytes
  pub cursor : ℕ

-- hex_value; `none` is -1
unfoldable pub hex_value : ℕ → Option ℕ
hex_value c =
    if leb b'0' c && leb c b'9'
    then some (c - b'0')
    else if leb b'a' c && leb c b'f'
    then some (10 + (c - b'a'))
    else if leb b'A' c && leb c b'F'
    then some (10 + (c - b'A'))
    else none

-- the byte of two hex digits
abbrev pub hex_byte : Option ℕ → Option ℕ → Option ℕ
hex_byte (some hi) (some lo) = some (hi * 16 + lo)
hex_byte _ _ = none

-- http_query_value_needs_decoding
unfoldable pub needs_decoding : Bytes → Bool
needs_decoding [] = false
needs_decoding (c ∷ s) =
    let rest = needs_decoding s in if c == b'%' || c == b'+' then true else rest

unfoldable mutual
  -- The loop of http_query_find_decoded, into a destination of that size, with the bytes written
  -- so far: the result and what is written.
  pub decode : ℕ → Bytes → Bytes → ResultCode × Bytes
  decode size written [] = (ok, written)
  decode size written (c ∷ s) = elim (leb size (length written)) [
    | true ↦ (insufficient_size, written)
    | false ↦ elim (c == b'+') [
      | true ↦ decode size (written ++ (b' ' ∷ [])) s
      | false ↦ elim (c == b'%') [
        | true ↦ decode_escape size written s
        | false ↦ decode size (written ++ (c ∷ [])) s
      ]
    ]
  ]

  -- behind a '%'
  pub decode_escape : ℕ → Bytes → Bytes → ResultCode × Bytes
  decode_escape size written [] = (unexpected_char, written)
  decode_escape size written (h ∷ []) = (unexpected_char, written)
  decode_escape size written (h ∷ l ∷ s) = elim (hex_byte (hex_value h) (hex_value l)) [
    | none ↦ (unexpected_char, written)
    | some byte ↦ decode size (written ++ (byte ∷ [])) s
  ]

module _ (lib : CommonLib) where
  -- locate_query
  unfoldable pub locate_query : Bytes → Bytes
  unfolding run
  locate_query path =
      let i = run no_mark path in
      let n = length path in if ltb i n then lib.slice path (i + 1) (n - (i + 1)) else path

  -- http_query_iterator_init on an iterator that is there
  unfoldable pub iterator_init : Bytes → Iterator
  unfolding locate_query
  iterator_init path = record { query = locate_query path; cursor = 0 }

  -- the end of http_query_iterator_next: the pair of those two ranges, and the cursor behind `i`
  abbrev pub found_pair : Bytes → ℕ → ℕ → ℕ → ℕ → ℕ → Iterator × Option (Bytes × Bytes)
  found_pair query name_start name_end value_start value_end i = (
    record { query = query; cursor = if ltb i (length query) then i + 1 else length query },
    some (
      lib.slice query name_start (name_end - name_start),
      lib.slice query value_start (value_end - value_start),
    ),
  )

  -- http_query_iterator_next from the end of the name on
  unfoldable pub read_pair : Bytes → ℕ → ℕ → Iterator × Option (Bytes × Bytes)
  unfolding run
  read_pair query name_start name_end =
      let value_end = name_end + 1 + run in_value (drop (name_end + 1) query) in
      if ltb name_end (length query) && get_or query name_end 0 == b'='
      then found_pair query name_start name_end (name_end + 1) value_end value_end
      else found_pair query name_start name_end name_end name_end name_end

  -- http_query_iterator_next on an iterator that is there; `none` is end_of_data
  unfoldable pub iterator_next : Iterator → Iterator × Option (Bytes × Bytes)
  unfolding read_pair
  iterator_next iterator =
      let query = iterator.query in
      let n = length query in
      let name_start = iterator.cursor + run separator (drop iterator.cursor query) in
      if leb n name_start
      then (record iterator { cursor = n }, none)
      else read_pair query name_start (name_start + run in_name (drop name_start query))

  -- The loop of http_query_find. Each round moves the cursor on, so as many rounds as the query
  -- has bytes, and one more, are enough.
  unfoldable find_loop : ℕ → Iterator → Bytes → Option Bytes
  unfolding iterator_next
  find_loop zero iterator name = none
  find_loop (suc rounds) iterator name =
      let (iterator', pair) = iterator_next iterator in
      elim pair [
        | none ↦ none
        | some (key, value) ↦ elim (lib.compare_is_zero key name) [
          | true ↦ some value
          | false ↦ find_loop rounds iterator' name
        ]
      ]

  -- http_query_find; `none` is not_found
  unfoldable pub find : Bytes → Bytes → Option Bytes
  unfolding iterator_init find_loop
  find path name =
      let iterator = iterator_init path in find_loop (length iterator.query + 1) iterator name

  -- http_query_find_decoded, into a destination of that size: the result, and the bytes that
  -- `out_decoded` covers where it is ok
  unfoldable pub find_decoded : Bytes → Bytes → ℕ → ResultCode × Bytes
  unfolding find decode
  find_decoded path name size = elim (find path name) [
    | none ↦ (not_found, [])
    | some raw ↦ decode size [] raw
  ]
