-- ===== src/Connection/ChunkSize.antt =====
-- The chunk-size line of src/http_connection.c against its grammar: hexadecimal digits for a
-- number below 2^32, then nothing, or a semicolon, a space or a tab with anything behind it.
use http_c.Prelude.{
  ℕ, ◌+◌, ◌-◌, ◌*◌, ◌/◌, ◌%◌, ◌^◌, ◌≤◌, ◌<◌, ◌≡◌, ◌⊎◌, ◌↔◌, refl, sym, ap, ◌∙◌, true, false, Option,
  none, some, [], ◌∷◌, ◌++◌, arith, length, Bool-cases, Option-cases, inl, inr, ltb, ◌==◌, ==_iff,
}
use http_c.Prelude.Text.{bytes}
use http_c.Common.{Bytes}
use http_c.Connection.Reader.{digit_of, size_digits, may_follow, size_of, size_of_line}

-- where a byte stands first in a text, counted from `n` on
abbrev pub place_in : ℕ → Bytes → ℕ → Option ℕ
place_in n [] c = none
place_in n (d ∷ text) c = elim (c == d) [ true ↦ some n | false ↦ place_in (n + 1) text c ]

abbrev pub first_of : Option ℕ → Option ℕ → Option ℕ
first_of none other = other
first_of (some v) other = some v

-- the value of a hexadecimal digit is its place in the list of the digits
unfoldable pub hex_digit : ℕ → Option ℕ
hex_digit c =
    first_of (place_in 0 (bytes "0123456789abcdef") c) (place_in 0 (bytes "0123456789ABCDEF") c)

-- The number that hexadecimal digits stand for, read after the number `n`.
unfoldable pub hexadecimal : ℕ → Bytes → Option ℕ
hexadecimal n [] = some n
hexadecimal n (c ∷ s) = elim (hex_digit c) [ none ↦ none | some v ↦ hexadecimal (16 * n + v) s ]

pub digit_of-hex_digit : (c : ℕ) → digit_of c ≡ hex_digit c
unfolding digit_of hex_digit
digit_of-hex_digit c = ground arith

-- what may follow the digits
abbrev pub Follows : Bytes → Type 0
Follows ext =
    (ext ≡ []) ⊎ ((c : ℕ) × (s : Bytes) × (ext ≡ c ∷ s) × ((c ≡ b';') ⊎ ((c ≡ b' ') ⊎ (c ≡ b'\t'))))

-- a line that declares that size
abbrev pub IsSizeLine : Bytes → ℕ → Type 0
IsSizeLine line n =
    (digits : Bytes) × (ext : Bytes) × (line ≡ digits ++ ext)
    × (0 < length digits)
    × (hexadecimal 0 digits ≡ some n)
    × (n < 2 ^ 32)
    × Follows ext

pub digit_of-lt : (c : ℕ) {v : ℕ} → digit_of c ≡ some v → v < 16
unfolding digit_of
digit_of-lt c h = ground arith

pub hexadecimal-cons :
    (n c v : ℕ) (s : Bytes)
    → digit_of c ≡ some v
    → hexadecimal n (c ∷ s) ≡ hexadecimal (16 * n + v) s
unfolding hexadecimal
hexadecimal-cons n c v s h = rw (sym (digit_of-hex_digit c) ∙ h, hexadecimal) refl

hexadecimal-le : (n : ℕ) (s : Bytes) {m : ℕ} → hexadecimal n s ≡ some m → n ≤ m
unfolding hexadecimal
hexadecimal-le n [] h = ground arith
hexadecimal-le n (c ∷ s) {m} h = elim (Option-cases (digit_of c)) [
  | inl e ↦ absurd (ground (arith, digit_of-hex_digit c))
  | inr (v, e) ↦
      let later = sym (hexadecimal-cons n c v s e) ∙ h in
      omega (arith, hexadecimal-le (16 * n + v) s later)
]

size_digits-some :
    (n d : ℕ) (s : Bytes) {m e : ℕ} {rest : Bytes}
    → n < 2 ^ 32
    → size_digits n d s ≡ some (m, e, rest)
    → (digits : Bytes) × (s ≡ digits ++ rest)
      × (hexadecimal n digits ≡ some m)
      × (e ≡ d + length digits)
      × (m < 2 ^ 32)
unfolding size_digits hexadecimal
size_digits-some n d [] small h = ([], ground arith, ground arith, ground arith, ground arith)
size_digits-some n d (c ∷ s) {m} {e} {rest} small h = elim (Option-cases (digit_of c)) [
  | inl no_digit ↦ ([], ground arith, ground arith, ground arith, ground arith)
  | inr (v, is_digit) ↦ elim (Bool-cases (ltb ((2 ^ 32 - 1) / 2 ^ 4) n)) [
    | inl large ↦ absurd (ground arith)
    | inr fits ↦
        let low : n < 2 ^ 28 = ground arith in
        let v_small = digit_of-lt c is_digit in
        let shifted : n * 2 ^ 4 % 2 ^ 32 + v ≡ 16 * n + v = omega arith in
        let later : size_digits (16 * n + v) (d + 1) s ≡ some (m, e, rest) = ground arith in
        let (digits, cut, value, count, bound) =
          size_digits-some (16 * n + v) (d + 1) s (omega arith) later in
        (
          c ∷ digits,
          ap (◌∷◌ c) cut,
          hexadecimal-cons n c v digits is_digit ∙ value,
          omega (arith, count),
          bound,
        )
  ]
]

-- What follows the digits is no digit.
size_digits-stops : (n d : ℕ) (s : Bytes) → Follows s → size_digits n d s ≡ some (n, d, s)
unfolding size_digits digit_of
size_digits-stops n d s (inl e) = rw e refl
size_digits-stops n d s (inr (c, t, e, inl f)) = rw e (rw f refl)
size_digits-stops n d s (inr (c, t, e, inr (inl f))) = rw e (rw f refl)
size_digits-stops n d s (inr (c, t, e, inr (inr f))) = rw e (rw f refl)

size_digits-append :
    (n d : ℕ) (digits rest : Bytes) {m : ℕ}
    → hexadecimal n digits ≡ some m
    → m < 2 ^ 32
    → Follows rest
    → size_digits n d (digits ++ rest) ≡ some (m, d + length digits, rest)
unfolding size_digits hexadecimal
size_digits-append n d [] rest value small stops = size_digits-stops n d rest stops ∙ ground arith
size_digits-append n d (c ∷ digits) rest {m} value small stops = elim (Option-cases (digit_of c)) [
  | inl e ↦ absurd (ground (arith, digit_of-hex_digit c))
  | inr (v, e) ↦
      let later = sym (hexadecimal-cons n c v digits e) ∙ value in
      let grows = hexadecimal-le (16 * n + v) digits later in
      let fits : ltb ((2 ^ 32 - 1) / 2 ^ 4) n ≡ false = ground arith in
      let shifted : n * 2 ^ 4 % 2 ^ 32 + v ≡ 16 * n + v = omega arith in
      let rest_of = size_digits-append (16 * n + v) (d + 1) digits rest later small stops in
      ground (arith, rest_of)
]

may_follow-Follows : (s : Bytes) → may_follow s ≡ true → Follows s
may_follow-Follows [] h = inl refl
may_follow-Follows (c ∷ s) h = inr (
  c,
  s,
  refl,
  elim (Bool-cases (c == b';')) [
    | inl e ↦ inl ((==_iff c b';').0 e)
    | inr e ↦ elim (Bool-cases (c == b' ')) [
      | inl f ↦ inr (inl ((==_iff c b' ').0 f))
      | inr f ↦ inr (inr (ground arith))
    ]
  ],
)

Follows-may_follow : (s : Bytes) → Follows s → may_follow s ≡ true
Follows-may_follow s (inl e) = rw e refl
Follows-may_follow s (inr (c, t, e, inl f)) = rw e (rw f refl)
Follows-may_follow s (inr (c, t, e, inr (inl f))) = rw e (rw f refl)
Follows-may_follow s (inr (c, t, e, inr (inr f))) = rw e (rw f refl)

size_of-some :
    (o : Option (ℕ × ℕ × Bytes)) {n : ℕ}
    → size_of o ≡ some n
    → (d : ℕ) × (rest : Bytes) × (o ≡ some (n, d, rest)) × (0 < d) × (may_follow rest ≡ true)
unfolding size_of
size_of-some none h = absurd (ground arith)
size_of-some (some (m, d, rest)) h = (d, rest, ground arith, ground arith, ground arith)

size_of_line-IsSizeLine : (line : Bytes) (n : ℕ) → size_of_line line ≡ some n → IsSizeLine line n
unfolding size_of_line
size_of_line-IsSizeLine line n h =
    let (d, rest, read, positive, follows) = size_of-some (size_digits 0 0 line) h in
    let (digits, cut, value, count, bound) = size_digits-some 0 0 line (omega arith) read in
    (
      digits,
      rest,
      cut,
      omega (arith, count, positive),
      value,
      bound,
      may_follow-Follows rest follows,
    )

IsSizeLine-size_of_line : (line : Bytes) (n : ℕ) → IsSizeLine line n → size_of_line line ≡ some n
unfolding size_of_line size_of
IsSizeLine-size_of_line line n (digits, ext, cut, positive, value, bound, follows) =
    let read = ap (size_digits 0 0) cut ∙ size_digits-append 0 0 digits ext value bound follows in
    let stops = Follows-may_follow ext follows in ap size_of read ∙ ground arith

-- The size that the reader takes from a chunk-size line is n exactly when the line is digits for n,
-- below 2^32, and nothing but an extension behind them.
pub size_of_line_iff : (line : Bytes) (n : ℕ) → (size_of_line line ≡ some n) ↔ IsSizeLine line n
size_of_line_iff line n = (size_of_line-IsSizeLine line n, IsSizeLine-size_of_line line n)
