-- ===== src/Headers/Fields.antt =====
-- The header block as a list of fields: http_headers_init, _add, _find and _parse against it.
use http_c.Prelude.{
  ℕ, ◌≤◌, ◌≡◌, ◌≢◌, refl, sym, ap, ◌∙◌, Option, none, some, List, [], ◌∷◌, map, ◌++◌, append-nil,
  arith, if◌then◌else◌, length, take,
}
use http_c.Common.{Bytes, HlResult, crlf, name_value_separator}
use http_c.Span.{CommonLib}
use http_c.Span.Cut.{cut, Free, cut-Free}
use http_c.Headers.{Headers, find, trim_optional_whitespace}
use http_c.Headers.Trim.{IsTrimmed, trim_padded}
use http_c.Headers.Lines.{Lines, done, more, lookup_line, find-Lines}

-- A name and a value.
abbrev pub Field : Type 0
Field = Bytes × Bytes

abbrev pub line : Field → Bytes
line (n, v) = n ++ (name_value_separator ++ v)

-- The text of a header block.
unfoldable pub block : List Field → Bytes
block [] = []
block (f ∷ fs) = line f ++ (crlf ++ block fs)

-- A field that a line can carry: a name with no colon, no CR in either part, and a value that
-- does not begin or end with a blank.
pub record IsClean (f : Field) : Type 0 where
  pub named : f.0 ≢ []
  pub no_colon : Free b':' f.0
  pub no_return : Free b'\r' f.0
  pub one_line : Free b'\r' f.1
  pub trimmed : IsTrimmed f.1

abbrev pub AllClean : List Field → Type 0
AllClean [] = Unit
AllClean (f ∷ fs) = IsClean f × AllClean fs

-- The used part of the buffer is the text of the fields.
pub record Represents (h : Headers) (fs : List Field) : Type 0 where
  pub fits : h.used_size ≤ length h.buffer
  pub text : take h.used_size h.buffer ≡ block fs
  pub clean : AllClean fs

-- The value of the first field of that name, up to case.
unfoldable pub find_field : CommonLib → Bytes → List Field → HlResult × Option Bytes
find_field lib name [] = (HlResult.not_found, none)
find_field lib name ((n, v) ∷ fs) =
    if lib.icompare_is_zero n name then (HlResult.ok, some v) else find_field lib name fs

pub Free-append : (x : ℕ) (a b : Bytes) → Free x a → Free x b → Free x (a ++ b)
Free-append x [] b h k = k
Free-append x (c ∷ a) b (h, hs) k = (h, Free-append x a b hs k)

pub cut-line :
    (f : Field) (rest : Bytes)
    → IsClean f
    → cut crlf (line f ++ (crlf ++ rest)) ≡ some (line f, rest)
cut-line (n, v) rest c =
    cut-Free b'\r' (b'\n' ∷ []) (line (n, v)) rest
      (Free-append b'\r' n (name_value_separator ++ v) c.no_return (refl, (refl, c.one_line)))

Lines-block : (fs : List Field) → AllClean fs → Lines (block fs) (map line fs)
unfolding block
Lines-block [] cs = done
Lines-block (([], v) ∷ fs) (c, cs) = absurd (c.named refl)
Lines-block ((x ∷ n, v) ∷ fs) (c, cs) = more (cut-line (x ∷ n, v) (block fs) c) (Lines-block fs cs)

module _ (lib : CommonLib) where
  lookup_line-block :
      (name : Bytes) (fs : List Field)
      → AllClean fs
      → lookup_line lib name (map line fs) ≡ find_field lib name fs
  unfolding lookup_line find_field
  lookup_line-block name [] cs = refl
  lookup_line-block name ((n, v) ∷ fs) (c, cs) =
      let at_colon = cut-Free b':' [] n (b' ' ∷ v) c.no_colon in
      let value =
        ap (λ r. trim_optional_whitespace lib (b' ' ∷ r)) (sym (append-nil v))
        ∙ trim_padded lib (b' ' ∷ []) v [] (refl, tt) tt c.trimmed in
      ground (arith, at_colon, value, lookup_line-block name fs cs)

  -- A lookup of a name that is not empty, in a buffer that holds a list of clean fields, answers
  -- with the first field of that name, up to case: its value, without the blanks of the line.
  pub find-Represents :
      (h : Headers) (fs : List Field) (c : ℕ) (name : Bytes)
      → Represents h fs
      → find lib (some h) (c ∷ name) ≡ find_field lib (c ∷ name) fs
  find-Represents h fs c name r =
      find-Lines lib h c name r.fits (rw r.text (Lines-block fs r.clean))
      ∙ lookup_line-block (c ∷ name) fs r.clean
