-- ===== src/Common.antt =====
-- inc/common.h: the result type of the header functions and the literals of the protocol.
-- A span is modelled by the bytes that it covers; `SPAN_EMPTY` is the empty list.
use http_c.Prelude.{ℕ, List, [], ◌∷◌}

abbrev pub Bytes : Type 0
Bytes = List ℕ

-- HL_RESULT
pub data HlResult : Type 0 where
  ok invalid_arg eof not_found error buffer_overflow : HlResult

-- The values of `result_t` that the program names. The type itself is the common library's.
pub data ResultCode : Type 0 where
  ok error invalid_argument try_again not_found insufficient_size : ResultCode
  end_of_data end_of_file unexpected_char : ResultCode

abbrev pub crlf : Bytes
crlf = b'\r' ∷ b'\n' ∷ []

abbrev pub name_value_separator : Bytes
name_value_separator = b':' ∷ b' ' ∷ []

abbrev pub space : Bytes
space = b' ' ∷ []

abbrev pub headers_terminator : Bytes
headers_terminator = b'\r' ∷ b'\n' ∷ b'\r' ∷ b'\n' ∷ []
