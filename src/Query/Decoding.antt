-- ===== src/Query/Decoding.antt =====
-- The percent decoding of http_query_find_decoded against an encoder.
use http_c.Prelude.{
  ℕ, ◌+◌, ◌-◌, ◌*◌, ◌/◌, ◌%◌, ◌≤◌, ◌<◌, ◌≡◌, refl, sym, ap, ◌∙◌, Bool, true, false, Bool-cases, inl,
  inr, Option, some, List, [], ◌∷◌, ◌++◌, append_assoc, append-nil, length, length-append,
  if◌then◌else◌, ◌==◌, ltb, leb, arith,
}
use http_c.Common.{Bytes, ResultCode, ok, insufficient_size}
use http_c.Query.{hex_value, decode, hex_byte}

-- a hex digit, its letter in upper case where that is true
abbrev pub hex_digit : Bool → ℕ → ℕ
hex_digit upper n =
    if ltb n 10 then b'0' + n else if upper then b'A' + (n - 10) else b'a' + (n - 10)

-- How an encoder may write a byte: as it is, as '+', or as '%' and two hex digits, each of either
-- case.
pub data Spelling : Type 0 where
  plain plus : Spelling
  escaped : Bool → Bool → Spelling

abbrev pub spell : ℕ → Spelling → Bytes
spell c plain = c ∷ []
spell c plus = b'+' ∷ []
spell c (escaped high low) = b'%' ∷ hex_digit high (c / 16) ∷ hex_digit low (c % 16) ∷ []

-- '+' stands for a space only; '+' and '%' themselves have to be escaped.
abbrev pub Fits : ℕ → Spelling → Type 0
Fits c plain = ((c == b'+') ≡ false) × ((c == b'%') ≡ false)
Fits c plus = c ≡ b' '
Fits c (escaped high low) = c < 256

abbrev pub Spelled : List (ℕ × Spelling) → Type 0
Spelled [] = Unit
Spelled ((c, how) ∷ rest) = Fits c how × Spelled rest

-- the text of the spelled bytes, and the bytes
unfoldable pub encode : List (ℕ × Spelling) → Bytes
encode [] = []
encode ((c, how) ∷ rest) = spell c how ++ encode rest

unfoldable pub meant : List (ℕ × Spelling) → Bytes
meant [] = []
meant ((c, how) ∷ rest) = c ∷ meant rest

hex_value-digit : (upper : Bool) (n : ℕ) → n < 16 → hex_value (hex_digit upper n) ≡ some n
unfolding hex_value
hex_value-digit true n h = ground arith
hex_value-digit false n h = ground arith

hex_byte-digits :
    (upper upper' : Bool) (c : ℕ)
    → c < 256
    → hex_byte (hex_value (hex_digit upper (c / 16))) (hex_value (hex_digit upper' (c % 16)))
      ≡ some c
hex_byte-digits upper upper' c h =
    let high = hex_value-digit upper (c / 16) (omega arith) in
    let low = hex_value-digit upper' (c % 16) (omega arith) in
    let whole : c / 16 * 16 + c % 16 ≡ c = omega arith in
    ap (λ (o : Option ℕ). hex_byte o (hex_value (hex_digit upper' (c % 16)))) high
    ∙ ap (hex_byte (some (c / 16))) low
    ∙ ap some whole

decode-spell :
    (size c : ℕ) (how : Spelling) (written rest : Bytes)
    → length written < size
    → Fits c how
    → decode size written (spell c how ++ rest) ≡ decode size (written ++ (c ∷ [])) rest
unfolding decode
decode-spell size c plain written rest h (p, q) =
    let room : leb size (length written) ≡ false = ground arith in rw (room, p, q, decode) refl
decode-spell size c plus written rest h e =
    let room : leb size (length written) ≡ false = ground arith in rw (room, e, decode) refl
decode-spell size c (escaped high low) written rest h small =
    let room : leb size (length written) ≡ false = ground arith in
    rw (room, hex_byte-digits high low c small, decode) refl

-- A byte that there is no room for.
decode-full :
    (size c : ℕ) (how : Spelling) (written rest : Bytes)
    → size ≤ length written
    → decode size written (spell c how ++ rest) ≡ (insufficient_size, written)
unfolding decode
decode-full size c plain written rest h =
    let full : leb size (length written) ≡ true = ground arith in rw (full, decode) refl
decode-full size c plus written rest h =
    let full : leb size (length written) ≡ true = ground arith in rw (full, decode) refl
decode-full size c (escaped high low) written rest h =
    let full : leb size (length written) ≡ true = ground arith in rw (full, decode) refl

decode_on :
    (size : ℕ) (written : Bytes) (s : List (ℕ × Spelling))
    → Spelled s
    → length written + length (meant s) ≤ size
    → decode size written (encode s) ≡ (ok, written ++ meant s)
unfolding decode encode meant
decode_on size written [] f h = ap (λ (t : Bytes). (ok, t)) (sym (append-nil written))
decode_on size written ((c, how) ∷ s) (f, fs) h =
    decode-spell size c how written (encode s) (omega arith) f
    ∙ decode_on size (written ++ (c ∷ [])) s fs (omega (arith, length-append written (c ∷ [])))
    ∙ ap (λ (t : Bytes). (ok, t)) (append_assoc written (c ∷ []) (meant s))

-- However the bytes of a value are spelled, decoding into a destination that is large enough gives
-- them back.
pub decode-encode :
    (size : ℕ) (s : List (ℕ × Spelling))
    → Spelled s
    → length (meant s) ≤ size
    → decode size [] (encode s) ≡ (ok, meant s)
decode-encode size s f h = decode_on size [] s f (omega arith)

decode_short :
    (size : ℕ) (written : Bytes) (s : List (ℕ × Spelling))
    → Spelled s
    → length written ≤ size
    → size < length written + length (meant s)
    → (decode size written (encode s)).0 ≡ insufficient_size
unfolding encode meant
decode_short size written [] f k h = absurd (omega arith)
decode_short size written ((c, how) ∷ s) (f, fs) k h =
    elim (Bool-cases (leb size (length written))) [
      | inl e ↦
          ap (λ (r : ResultCode × Bytes). r.0)
            (decode-full size c how written (encode s) (ground arith))
      | inr e ↦
          ap (λ (r : ResultCode × Bytes). r.0)
            (decode-spell size c how written (encode s) (ground arith) f)
          ∙ decode_short size (written ++ (c ∷ [])) s fs
              (ground (arith, length-append written (c ∷ [])))
              (omega (arith, length-append written (c ∷ [])))
    ]

-- A value that the destination cannot hold is refused with insufficient_size.
pub decode_overflow :
    (size : ℕ) (s : List (ℕ × Spelling))
    → Spelled s
    → size < length (meant s)
    → (decode size [] (encode s)).0 ≡ insufficient_size
decode_overflow size s f h = decode_short size [] s f (omega arith) (omega arith)
