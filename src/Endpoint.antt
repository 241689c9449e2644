-- ===== src/Endpoint.antt =====
-- src/http_endpoint.c: the texts of the proxy configuration, and whether a host goes past the proxy.
pub mod Covers
pub mod Entries
pub mod Environment
pub mod Proxy
use http_c.Prelude.{
  ◌%◌, ◌^◌, ℕ, zero, suc, ◌+◌, ◌-◌, ◌*◌, ◌%◌, ◌^◌, Bool, true, false, not, ◌&&◌, ◌||◌, Option, none,
  some, List, [], ◌∷◌, length, get_or, ltb, leb, ◌==◌, if◌then◌else◌,
}
use http_c.Common.{Bytes}
use http_c.Span.{CommonLib}
use http_c.Headers.{is_empty}

-- text_length
unfoldable pub text_length : Bytes → ℕ
text_length [] = 0
text_length (c ∷ text) = let rest = text_length text in if c == 0 then 0 else suc rest

-- is_blank
abbrev pub is_blank : ℕ → Bool
is_blank c = (c == b' ') || (c == b'\t') || (c == b'\r') || (c == b'\n')

-- to_lower_ascii
abbrev pub to_lower_ascii : ℕ → ℕ
to_lower_ascii c = if leb b'A' c && leb c b'Z' then c - b'A' + b'a' else c

-- equals_ignoring_case, whose test of the sizes comes first
unfoldable pub equals_ignoring_case : Bytes → Bytes → Bool
equals_ignoring_case [] [] = true
equals_ignoring_case (a ∷ first) (b ∷ second) =
    (to_lower_ascii a == to_lower_ascii b) && equals_ignoring_case first second
equals_ignoring_case _ _ = false

abbrev pub after_first : Option ℕ → Option ℕ
after_first none = none
after_first (some i) = some (suc i)

-- find_byte; -1 is `none`
unfoldable pub find_byte : Bytes → ℕ → Option ℕ
find_byte [] wanted = none
find_byte (c ∷ text) wanted =
    let rest = find_byte text wanted in if c == wanted then some 0 else after_first rest

abbrev pub or_first : Option ℕ → Bool → Option ℕ
or_first (some i) _ = some (suc i)
or_first none true = some 0
or_first none false = none

-- find_last_byte
unfoldable pub find_last_byte : Bytes → ℕ → Option ℕ
find_last_byte [] wanted = none
find_last_byte (c ∷ text) wanted = or_first (find_last_byte text wanted) (c == wanted)

-- hexadecimal_value; -1 is `none`
abbrev pub hexadecimal_value : ℕ → Option ℕ
hexadecimal_value c =
    if leb b'0' c && leb c b'9'
    then some (c - b'0')
    else if leb b'a' c && leb c b'f'
    then some (c - b'a' + 10)
    else if leb b'A' c && leb c b'F'
    then some (c - b'A' + 10)
    else none

abbrev pub decoded : ℕ → Option Bytes → Option Bytes
decoded c none = none
decoded c (some text) = some (c ∷ text)

-- the byte that an escape stands for, in front of what is decoded behind it
abbrev pub decoded_escape : Option ℕ → Option ℕ → Option Bytes → Option Bytes
decoded_escape (some high) (some low) rest = decoded ((high * 16 + low) % 2 ^ 8) rest
decoded_escape _ _ rest = none

-- percent_decode: the bytes that it writes, whose number it answers with; -1 is `none`
unfoldable pub percent_decode : Bytes → Option Bytes
percent_decode [] = some []
percent_decode (c ∷ []) = elim (c == b'%') [ true ↦ none | false ↦ some (c ∷ []) ]
percent_decode (c ∷ a ∷ []) = elim (c == b'%') [
  | true ↦ none
  | false ↦ decoded c (percent_decode (a ∷ []))
]
percent_decode (c ∷ a ∷ b ∷ encoded) = elim (c == b'%') [
  | true ↦ decoded_escape (hexadecimal_value a) (hexadecimal_value b) (percent_decode encoded)
  | false ↦ decoded c (percent_decode (a ∷ b ∷ encoded))
]

-- the loop of parse_port; uint32_t does not overflow on five digits
unfoldable pub port_loop : ℕ → Bytes → Option ℕ
port_loop port [] = some port
port_loop port (c ∷ digits) =
    let rest = port_loop (port * 10 + (c - b'0')) digits in
    if ltb c b'0' || ltb b'9' c then none else rest

-- parse_port
unfoldable pub parse_port : Bytes → Option ℕ
unfolding port_loop
parse_port digits =
    if is_empty digits || ltb 5 (length digits) then none else elim (port_loop 0 digits) [
      | none ↦ none
      | some port ↦ if (port == 0) || ltb 65535 port then none else some port
    ]

-- the test of is_valid_hostname on a byte
abbrev pub is_bad : ℕ → Bool
is_bad c =
    leb c b' '
    || leb 127 c
    || (c == b'/')
    || (c == b'@')
    || (c == b'[')
    || (c == b']')
    || (c == b'?')
    || (c == b'#')

abbrev pub all_good : Bytes → Bool
all_good [] = true
all_good (c ∷ text) = not (is_bad c) && all_good text

-- is_valid_hostname
unfoldable pub is_valid_hostname : Bytes → Bool
is_valid_hostname hostname = not (is_empty hostname) && all_good hostname

-- the first loop of trim_blanks: how many blanks are in front
abbrev pub blanks : Bytes → ℕ
blanks [] = 0
blanks (c ∷ text) = let rest = blanks text in if is_blank c then suc rest else 0

-- the second loop of trim_blanks: where the text ends, for an end from the start on
abbrev pub end_of : Bytes → ℕ → ℕ → ℕ
end_of text start zero = zero
end_of text start (suc end) =
    let rest = end_of text start end in
    if ltb start (suc end) && is_blank (get_or text end 0) then rest else suc end

-- the last byte of a text that is not empty
abbrev pub last_is : Bytes → ℕ → Bool
last_is text c = not (is_empty text) && (get_or text (length text - 1) 0 == c)

module _ (lib : CommonLib) where
  -- trim_blanks
  unfoldable pub trim_blanks : Bytes → Bytes
  trim_blanks text =
      let start = blanks text in lib.slice text start (end_of text start (length text) - start)

  -- a full stop at the end is taken off
  abbrev pub without_dot : Bytes → Bytes
  without_dot text = if last_is text b'.' then lib.slice text 0 (length text - 1) else text

  abbrev pub unbracketed : Bytes → Bytes
  unbracketed host =
      if leb 2 (length host) && (get_or host 0 0 == b'[') && last_is host b']'
      then lib.slice host 1 (length host - 2)
      else host

  -- the host as http_endpoint_proxy_should_bypass compares it
  unfoldable pub normal_host : Bytes → Bytes
  unfolding trim_blanks text_length
  normal_host hostname =
      without_dot (unbracketed (trim_blanks (lib.slice hostname 0 (text_length hostname))))

  -- "host:port" without the port, and a bare IPv6 literal as it is
  abbrev pub without_port : Bytes → Option ℕ → Option ℕ → Bytes
  without_port entry (some first) (some last) =
      if first == last then lib.slice entry 0 first else entry
  without_port entry _ _ = entry

  abbrev pub without_star : Bytes → Bytes
  without_star entry =
      if leb 2 (length entry) && (get_or entry 0 0 == b'*') && (get_or entry 1 0 == b'.')
      then lib.slice_to_end entry 1
      else entry

  abbrev pub without_front_dot : Bytes → Bytes
  without_front_dot entry =
      if not (is_empty entry) && (get_or entry 0 0 == b'.') then lib.slice_to_end entry 1 else entry

  abbrev pub between_brackets : Bytes → Option ℕ → Bytes
  between_brackets entry none = []
  between_brackets entry (some closing) =
      if ltb closing 2 then [] else lib.slice entry 1 (closing - 1)

  -- the name that an entry stands for; an entry that is passed over is empty
  unfoldable pub normal_entry : Bytes → Bytes
  unfolding find_byte find_last_byte
  normal_entry entry =
      if get_or entry 0 0 == b'['
      then between_brackets entry (find_byte entry b']')
      else without_dot (
          without_front_dot
            (without_star (without_port entry (find_byte entry b':') (find_last_byte entry b':'))))

  -- the end of the loop's body: the host is the name, or lies below it
  unfoldable pub covers : Bytes → Bytes → Bool
  unfolding equals_ignoring_case
  covers host name =
      equals_ignoring_case host name
      || (ltb (length name) (length host)
          && (get_or host (length host - length name - 1) 0 == b'.')
          && equals_ignoring_case (lib.slice_to_end host (length host - length name)) name)

  -- the body of the loop, on an entry
  unfoldable pub entry_bypasses : Bytes → Bytes → Bool
  unfolding trim_blanks normal_entry covers
  entry_bypasses host entry =
      let entry' = trim_blanks entry in
      if is_empty entry'
      then false
      else if (length entry' == 1) && (get_or entry' 0 0 == b'*')
      then true
      else (let name = normal_entry entry' in if is_empty name then false else covers host name)

  -- the entry in front of the first comma, and what remains
  abbrev pub cut_entry : Bytes → Option ℕ → Bytes × Bytes
  cut_entry remaining none = (remaining, [])
  cut_entry remaining (some comma) =
      (lib.slice remaining 0 comma, lib.slice_to_end remaining (comma + 1))

  -- the loop of http_endpoint_proxy_should_bypass
  unfoldable pub bypass_loop : ℕ → Bytes → Bytes → Bool
  unfolding entry_bypasses find_byte
  bypass_loop zero host remaining = false
  bypass_loop (suc fuel) host [] = false
  bypass_loop (suc fuel) host (c ∷ remaining) =
      let (entry, remaining') = cut_entry (c ∷ remaining) (find_byte (c ∷ remaining) b',') in
      elim (entry_bypasses host entry) [ true ↦ true | false ↦ bypass_loop fuel host remaining' ]

  -- http_endpoint_proxy_should_bypass
  unfoldable pub http_endpoint_proxy_should_bypass : Bytes → Bytes → Bool
  unfolding normal_host bypass_loop text_length
  http_endpoint_proxy_should_bypass no_proxy hostname =
      let host = normal_host hostname in
      if is_empty host
      then false
      else bypass_loop (suc (length no_proxy)) host (lib.slice no_proxy 0 (text_length no_proxy))
