-- ===== src/Connection/Requests.antt =====
-- src/http_connection.c: http_connection_receive_request, with ensure_buffered, read_chunked_body,
-- read_remaining_body and maybe_read_body.
pub mod Message
pub mod Buffering
pub mod Sizes
pub mod Loose
pub mod InPlace
pub mod Buffered
pub mod Truncated
use http_c.Prelude.{
  ℕ, ◌+◌, ◌-◌, ◌*◌, ◌%◌, ◌^◌, ◌≤◌, ◌≡◌, Bool, true, false, not, Option, none, some, List, [], ◌∷◌,
  ◌++◌, length, take, drop, get_or, ltb, leb, ◌==◌, if◌then◌else◌,
}
use http_c.Prelude.Buffers.{overwrite}
use http_c.Prelude.Rounds.{Step, more, done, rounds, inside, within}
use http_c.Common.{Bytes, ResultCode, HlResult, ok, error, invalid_argument, insufficient_size}
use http_c.Span.{CommonLib}
use http_c.Headers
use http_c.Headers.{is_empty}
use http_c.Request
use http_c.Request.{Request}
use http_c.Connection.{
  Connection, Peer, Io, Answer, again, ended, failed, arrived, answer_of, call_read, call_deadline,
  call_await,
}
use http_c.Connection.Window.{Window, capacity, pending_length, pending, stored, appended, kept}
use http_c.Connection.Reader.{Reader, digit_of}
use http_c.Connection.Framing.{
  transfer_encoding_is_chunked, hdr_content_length, hdr_transfer_encoding,
}
use http_c.Connection.Receiving.{Head, read_until_headers_complete}

-- The digits of a chunk size that are in the buffer: the size, which wraps, and how many digits.
unfoldable pub buffered_size : ℕ → ℕ → Bytes → ℕ × ℕ
buffered_size chunk_size count [] = (chunk_size, count)
buffered_size chunk_size count (c ∷ s) = elim (digit_of c) [
  | none ↦ (chunk_size, count)
  | some value ↦ buffered_size ((chunk_size * 16 + value) % 2 ^ 32) (count + 1) s
]

-- the byte at the parse cursor
abbrev pub at_start : Window → ℕ
at_start w = get_or w.buffer w.start 0

abbrev pub advanced : ℕ → Window → Window
advanced n w = record w { start = w.start + n }

-- the line end behind the data of a chunk
abbrev pub past : ℕ → Window → Window
past c w = if at_start w == c then advanced 1 w else w

module _ (lib : CommonLib) (peer : Peer) where
  open peer use {World}

  -- The locals of read_chunked_body are those of a reader in the stored mode: raw_buf, which is
  -- out_buf too, pos, raw_len and olen.
  abbrev pub Raw : Type 0
  Raw = Reader World

  abbrev pub at_window : Raw → Window → Raw
  at_window raw w = record raw { window = w }

  -- One round of ensure_buffered behind its read, from the deadline that holds.
  unfoldable pub follow_ensure : ℕ → Raw → ResultCode → Bytes → Answer → Step ResultCode (ℕ × Raw)
  follow_ensure deadline raw result got again =
      let (wait_result, io) = call_await peer lib deadline raw.io in
      if lib.is_error wait_result
      then done wait_result (deadline, record raw { io = io })
      else more (deadline, record raw { io = io })
  follow_ensure deadline raw result got ended = done error (deadline, raw)
  follow_ensure deadline raw result got failed = done result (deadline, raw)
  follow_ensure deadline raw result got arrived =
      let (deadline', io) = call_deadline peer lib raw.connection raw.io in
      more (deadline', record raw { window = appended got raw.window; io = io })

  unfoldable pub ensure_round : ℕ → ℕ × Raw → Step ResultCode (ℕ × Raw)
  ensure_round need (deadline, raw) =
      let w = raw.window in
      if leb need (pending_length w)
      then done ok (deadline, raw)
      else if leb (capacity w) w.end
      then done insufficient_size (deadline, raw)
      else let (result, got, io) = call_read peer lib (capacity w - w.end) raw.io in
        follow_ensure deadline (record raw { io = io }) result got (answer_of lib result)

  -- ensure_buffered
  unfoldable pub ensure_buffered : ℕ → ℕ → Raw → Option (ResultCode × Raw)
  ensure_buffered fuel need raw =
      let (deadline, io) = call_deadline peer lib raw.connection raw.io in
      within (rounds (ensure_round need) fuel (deadline, record raw { io = io }))
        (λ result s. some (result, s.1))

  -- the loop up to the line feed of a chunk-size line
  unfoldable pub skip_round : ℕ → Raw → Step ResultCode Raw
  skip_round fuel raw = inside (ensure_buffered fuel 1 raw) (λ result raw'.
      if lib.is_error result
      then done result raw'
      else if at_start raw'.window == b'\n'
      then done ok (at_window raw' (advanced 1 raw'.window))
      else more (at_window raw' (advanced 1 raw'.window)))

  -- The chunk-size line: the size is in the first part of the result.
  unfoldable pub read_size : ℕ → Raw → Option ((ResultCode × ℕ) × Raw)
  read_size fuel raw = within (ensure_buffered fuel 1 raw) (λ result raw'.
      if lib.is_error result
      then some ((result, 0), raw')
      else let (chunk_size, count) = buffered_size 0 0 (pending raw'.window) in
        within (rounds (skip_round fuel) fuel (at_window raw' (advanced count raw'.window)))
          (λ result' raw''. some ((result', chunk_size), raw'')))

  -- one piece of a chunk's data, from the number of bytes that remain
  unfoldable pub copy_round : ℕ → ℕ × Raw → Step ResultCode (ℕ × Raw)
  copy_round fuel (remaining, raw) =
      if remaining == 0
      then done ok (remaining, raw)
      else inside (ensure_buffered fuel 1 raw) (λ result raw'.
        if lib.is_error result
        then done result (remaining, raw')
        else let w = raw'.window in
          let avail = pending_length w in
          let taken = if ltb avail remaining then avail else remaining in
          let taken' =
            if ltb (capacity w) (w.stored_length + taken)
            then capacity w - w.stored_length
            else taken in
          if taken' == 0
          then done insufficient_size (remaining, raw')
          else more (remaining - taken', at_window raw' (kept taken' w)))

  -- the data of a chunk and the line end behind it
  unfoldable pub copy_chunk : ℕ → ℕ → Raw → Step ResultCode Raw
  copy_chunk fuel chunk_size raw =
      inside (rounds (copy_round fuel) fuel (chunk_size, raw)) (λ result s.
        if lib.is_error result
        then done result s.1
        else inside (ensure_buffered fuel 2 s.1) (λ result' raw'.
          if lib.is_error result'
          then done result' raw'
          else more (at_window raw' (past b'\n' (past b'\r' raw'.window)))))

  unfoldable pub raw_round : ℕ → Raw → Step ResultCode Raw
  raw_round fuel raw = inside (read_size fuel raw) (λ r raw'.
      if lib.is_error r.0
      then done r.0 raw'
      else if r.1 == 0
      then done ok raw'
      else copy_chunk fuel r.1 raw')

  -- read_chunked_body, where the output and the raw bytes share the buffer: the result, the body
  -- when it is ok, and the state at the end
  unfoldable pub read_chunked_body :
      ℕ → Connection → Bytes → Bytes → Io World → Option (ResultCode × Raw)
  read_chunked_body fuel connection remainder buffer io =
      let rlen =
        if ltb (length buffer) (length remainder) then length buffer else length remainder in
      rounds (raw_round fuel) fuel (record {
        connection = connection;
        window = record {
          buffer = overwrite 0 (take rlen remainder) buffer;
          start = 0;
          end = rlen;
          stored_length = 0;
        };
        body_handler = none;
        body_handler_context = none;
        io = io;
      })

  -- What the loop of read_remaining_body holds.
  pub record Remaining : Type 0 where
    pub deadline : ℕ
    pub body_so_far : Bytes
    pub free_buffer : Bytes
    pub io : Io World

  unfoldable pub follow_remaining :
      Connection → Remaining → ResultCode → Bytes → Answer → Step ResultCode Remaining
  follow_remaining connection s result got again =
      let (wait_result, io) = call_await peer lib s.deadline s.io in
      if lib.is_error wait_result
      then done wait_result (record s { io = io })
      else more (record s { io = io })
  follow_remaining connection s result got ended = done result s
  follow_remaining connection s result got failed = done result s
  follow_remaining connection s result got arrived =
      let (deadline, io) = call_deadline peer lib connection s.io in
      more (record {
        deadline = deadline;
        body_so_far = s.body_so_far ++ got;
        free_buffer = drop (length got) s.free_buffer;
        io = io;
      })

  unfoldable pub remaining_round : Connection → ℕ → Remaining → Step ResultCode Remaining
  remaining_round connection needed s =
      if leb needed (length s.body_so_far)
      then done ok s
      else if is_empty s.free_buffer
      then done insufficient_size s
      else let (result, got, io) = call_read peer lib (length s.free_buffer) s.io in
        follow_remaining connection (record s { io = io }) result got (answer_of lib result)

  -- read_remaining_body: the result, and the body and the io at its end
  unfoldable pub read_remaining_body :
      ℕ → Connection → Bytes → Bytes → ℕ → Io World → Option (ResultCode × Remaining)
  read_remaining_body fuel connection body free_buffer needed io =
      let (deadline, io') = call_deadline peer lib connection io in
      rounds (remaining_round connection needed) fuel
        (record { deadline = deadline; body_so_far = body; free_buffer = free_buffer; io = io' })
