-- ===== src/Connection/Reader.antt =====
-- response_body_reader_t of src/http_connection.c and the loops that read a response body: bytes of
-- a known number, chunks, and bytes up to the close.
use http_c.Prelude.{
  ℕ, ◌+◌, ◌-◌, ◌*◌, ◌/◌, ◌%◌, ◌^◌, Bool, true, false, not, ◌&&◌, ◌||◌, Option, none, some, [], ◌∷◌,
  ◌++◌, length, take, drop, get_or, ltb, leb, ◌==◌, if◌then◌else◌,
}
use http_c.Prelude.Rounds.{Step, more, done, rounds, inside, within}
use http_c.Common.{Bytes, ResultCode, ok, error, insufficient_size, end_of_data}
use http_c.Span.{CommonLib}
use http_c.Headers.{is_empty}
use http_c.Connection.{
  Connection, Peer, Io, Answer, again, ended, failed, arrived, answer_of, call_read, call_deadline,
  call_await,
}
use http_c.Connection.Window.{Window, capacity, pending_length, appended, kept, skipped, compacted}

-- response_body_reader_t; a NULL body_handler selects the stored mode
pub record Reader (World : Type 0) : Type 0 where
  pub connection : Connection
  pub window : Window
  pub body_handler : Option ℕ
  pub body_handler_context : Option ℕ
  pub io : Io World

abbrev pub is_end_of_data : ResultCode → Bool
is_end_of_data ResultCode.end_of_data = true
is_end_of_data _ = false

-- the value of a hexadecimal digit
unfoldable pub digit_of : ℕ → Option ℕ
digit_of c =
    if leb b'0' c && leb c b'9'
    then some (c - b'0')
    else if leb b'a' c && leb c b'f'
    then some (c - b'a' + 10)
    else if leb b'A' c && leb c b'F'
    then some (c - b'A' + 10)
    else none

-- The digits of a chunk size: the size, how many digits, and the rest of the line; `none` where
-- the size leaves uint32_t. The low four bits of a shifted size are 0, so `|` adds.
unfoldable pub size_digits : ℕ → ℕ → Bytes → Option (ℕ × ℕ × Bytes)
size_digits chunk_size digits [] = some (chunk_size, digits, [])
size_digits chunk_size digits (character ∷ line) = elim (digit_of character) [
  | none ↦ some (chunk_size, digits, character ∷ line)
  | some value ↦
      if ltb ((2 ^ 32 - 1) / 2 ^ 4) chunk_size
      then none
      else size_digits (chunk_size * 2 ^ 4 % 2 ^ 32 + value) (digits + 1) line
]

-- what may stand behind the digits
abbrev pub may_follow : Bytes → Bool
may_follow [] = true
may_follow (next ∷ line) = next == b';' || next == b' ' || next == b'\t'

-- what the code makes of them
unfoldable pub size_of : Option (ℕ × ℕ × Bytes) → Option ℕ
size_of none = none
size_of (some (chunk_size, digits, rest)) =
    if digits == 0 || not (may_follow rest) then none else some chunk_size

-- the size that a line declares; `none` where the code answers error
unfoldable pub size_of_line : Bytes → Option ℕ
unfolding size_digits size_of
size_of_line line = size_of (size_digits 0 0 line)

-- the index of the first line feed
unfoldable pub line_feed : ℕ → Bytes → Option ℕ
line_feed index [] = none
line_feed index (c ∷ s) = if c == b'\n' then some index else line_feed (index + 1) s

-- the end of a line whose line feed is at that index
abbrev pub line_end : Window → ℕ → ℕ
line_end w index =
    if ltb w.start index && get_or w.buffer (index - 1) 0 == b'\r' then index - 1 else index

module _ (lib : CommonLib) (peer : Peer) where
  open peer use {World}

  -- one round of the loop of response_body_reader_fill behind its read
  unfoldable pub follow_fill :
      ℕ → Reader World → ResultCode → Bytes → Answer → Step ResultCode (Reader World)
  follow_fill deadline reader result got again =
      let (wait_result, io) = call_await peer lib deadline reader.io in
      if lib.is_error wait_result
      then done wait_result (record reader { io = io })
      else more (record reader { io = io })
  follow_fill deadline reader result got ended = done end_of_data reader
  follow_fill deadline reader result got failed = done result reader
  follow_fill deadline reader result got arrived =
      if is_empty got
      then more reader
      else done ok (record reader { window = appended got reader.window })

  unfoldable pub fill_round : ℕ → Reader World → Step ResultCode (Reader World)
  fill_round deadline reader =
      let w = reader.window in
      let (result, got, io) = call_read peer lib (capacity w - w.end) reader.io in
      follow_fill deadline (record reader { io = io }) result got (answer_of lib result)

  -- response_body_reader_fill
  unfoldable pub fill : ℕ → Reader World → Option (ResultCode × Reader World)
  fill fuel reader =
      let w = compacted reader.window in
      if w.end == capacity w
      then some (insufficient_size, record reader { window = w })
      else let (deadline, io) = call_deadline peer lib reader.connection reader.io in
        rounds (fill_round deadline) fuel (record reader { window = w; io = io })

  -- response_body_reader_deliver
  unfoldable pub deliver : ℕ → Reader World → ResultCode × Reader World
  deliver length reader =
      let w = reader.window in
      elim reader.body_handler [
        | none ↦ (ok, record reader { window = kept length w })
        | some handler ↦
            let piece = take length (drop w.start w.buffer) in
            let (result, world) =
              peer.body_handler handler reader.body_handler_context piece reader.io.world in
            (
              (if lib.is_error result then result else ok),
              record reader {
                window = skipped length w;
                io = record reader.io { world = world; handed = reader.io.handed ++ piece };
              },
            )
      ]

  -- the second half of a round of response_body_reader_pass_through
  unfoldable pub pass_some : ℕ → Reader World → Step ResultCode (ℕ × Reader World)
  pass_some length reader =
      let available = pending_length reader.window in
      let taken = if ltb available length then available else length in
      let (result, reader') = deliver taken reader in
      if lib.is_error result then done result (length, reader') else more (length - taken, reader')

  unfoldable pub pass_round : ℕ → ℕ × Reader World → Step ResultCode (ℕ × Reader World)
  pass_round fuel (length, reader) =
      if length == 0
      then done ok (length, reader)
      else if reader.window.start == reader.window.end
      then inside (fill fuel reader) (λ result reader'.
        if is_end_of_data result
        then done error (length, reader')
        else if lib.is_error result
        then done result (length, reader')
        else pass_some length reader')
      else pass_some length reader

  -- response_body_reader_pass_through
  unfoldable pub pass_through : ℕ → ℕ → Reader World → Option (ResultCode × Reader World)
  pass_through fuel length reader =
      within (rounds (pass_round fuel) fuel (length, reader)) (λ result s. some (result, s.1))

  -- response_body_reader_read_line, where its search finds a line feed
  abbrev pub take_line : ℕ → Reader World → Bytes × Reader World
  take_line index reader =
      let w = reader.window in
      (
        take (line_end w index - w.start) (drop w.start w.buffer),
        record reader { window = record w { start = index + 1 } },
      )

  -- One round behind its search; the line stands in the result.
  unfoldable pub follow_search :
      ℕ → ℕ → Reader World → Option ℕ → Step (ResultCode × Bytes) (ℕ × Reader World)
  follow_search fuel scanned reader (some index) =
      let (line, reader') = take_line index reader in done (ok, line) (scanned, reader')
  follow_search fuel scanned reader none =
      let scanned' = pending_length reader.window in
      inside (fill fuel reader) (λ result reader'.
        if is_end_of_data result
        then done (error, []) (scanned', reader')
        else if lib.is_error result
        then done (result, []) (scanned', reader')
        else more (scanned', reader'))

  -- one round, from the number of bytes that were searched before
  unfoldable pub line_round : ℕ → ℕ × Reader World → Step (ResultCode × Bytes) (ℕ × Reader World)
  line_round fuel (scanned, reader) =
      let w = reader.window in
      let from = w.start + scanned in
      follow_search fuel scanned reader (line_feed from (take (w.end - from) (drop from w.buffer)))

  -- response_body_reader_read_line
  unfoldable pub read_line : ℕ → Reader World → Option ((ResultCode × Bytes) × Reader World)
  read_line fuel reader =
      within (rounds (line_round fuel) fuel (0, reader)) (λ result s. some (result, s.1))

  -- a round of the loop over the trailer fields
  unfoldable pub trailer_round : ℕ → Reader World → Step ResultCode (Reader World)
  trailer_round fuel reader = inside (read_line fuel reader) (λ r reader'.
      if lib.is_error r.0
      then done r.0 reader'
      else if is_empty r.1
      then done ok reader'
      else more reader')

  -- response_body_reader_chunked behind a chunk's data: the rest of its line has to be empty
  abbrev pub end_chunk : (ResultCode × Bytes) → Reader World → Step ResultCode (Reader World)
  end_chunk r reader =
      if lib.is_error r.0
      then done r.0 reader
      else if is_empty r.1
      then more reader
      else done error reader

  -- a chunk's data, or the trailer behind the last chunk
  unfoldable pub chunk_data : ℕ → ℕ → Reader World → Step ResultCode (Reader World)
  chunk_data fuel chunk_size reader =
      if chunk_size == 0
      then inside (rounds (trailer_round fuel) fuel reader) (λ result reader'. done result reader')
      else inside (pass_through fuel chunk_size reader) (λ result reader'.
        if lib.is_error result
        then done result reader'
        else inside (read_line fuel reader') end_chunk)

  unfoldable pub follow_size : ℕ → Reader World → Option ℕ → Step ResultCode (Reader World)
  follow_size fuel reader none = done error reader
  follow_size fuel reader (some chunk_size) = chunk_data fuel chunk_size reader

  unfoldable pub chunk_round : ℕ → Reader World → Step ResultCode (Reader World)
  chunk_round fuel reader = inside (read_line fuel reader) (λ r reader'.
      if lib.is_error r.0 then done r.0 reader' else follow_size fuel reader' (size_of_line r.1))

  -- response_body_reader_chunked
  unfoldable pub chunked : ℕ → Reader World → Option (ResultCode × Reader World)
  chunked fuel reader = rounds (chunk_round fuel) fuel reader

  -- response_body_reader_until_close
  unfoldable pub close_round : ℕ → Reader World → Step ResultCode (Reader World)
  close_round fuel reader =
      let w = reader.window in
      let (result, reader') =
        if ltb w.start w.end then deliver (pending_length w) reader else (ok, reader) in
      if lib.is_error result
      then done result reader'
      else inside (fill fuel reader') (λ result' reader''.
        if is_end_of_data result'
        then done ok reader''
        else if lib.is_error result'
        then done result' reader''
        else more reader'')

  unfoldable pub until_close : ℕ → Reader World → Option (ResultCode × Reader World)
  until_close fuel reader = rounds (close_round fuel) fuel reader
