-- ===== src/Examples/Headers.antt =====
-- Runs of the header block.
use http_c.Prelude.{◌+◌, ◌≡◌, refl, some, [], ◌∷◌, ◌++◌, arith, length, take}
use http_c.Common.{HlResult, crlf}
use http_c.Span.Cut.{cut}
use http_c.Span.Reference.{reference}
use http_c.Headers.{Headers, find, add, trim_optional_whitespace}
use http_c.Headers.Lines.{Lines, done, more, find-Lines, lookup_line}
use http_c.Headers.Fields.{Field, Represents, IsClean, block, find_field, find-Represents}
use http_c.Headers.Append.{add-Represents, field_size}
use http_c.Prelude.Text.{bytes}

abbrev host : Field
host = (bytes "Host", bytes "a.b")

host-IsClean : IsClean host
host-IsClean = record {
  named = λ e. cc;
  no_colon = (refl, (refl, (refl, (refl, tt))));
  no_return = (refl, (refl, (refl, (refl, tt))));
  one_line = (refl, (refl, (refl, tt)));
  trimmed = (refl, refl);
}

abbrev blank_headers : Headers
blank_headers = record { buffer = bytes "................"; used_size = 0; iterator = [] }

blank-Represents : Represents blank_headers []
unfolding block
blank-Represents = record { fits = omega arith; text = refl; clean = tt }

add-Represents_example :
    (h' : Headers) × (add reference (some blank_headers) (bytes "Host") (bytes "a.b")
      ≡ (some h', HlResult.ok))
    × Represents h' (host ∷ [])
    × (length h'.buffer ≡ 16)
    × (h'.used_size ≡ 0 + field_size host)
add-Represents_example =
    add-Represents reference blank_headers [] host blank-Represents host-IsClean (λ e. cc)
      (omega arith)

abbrev short_headers : Headers
short_headers = record { buffer = bytes "........"; used_size = 0; iterator = [] }

abbrev host_headers : Headers
host_headers = record { buffer = bytes "Host: a.b" ++ crlf; used_size = 11; iterator = [] }

host-Represents : Represents host_headers (host ∷ [])
unfolding block
host-Represents = record { fits = omega arith; text = refl; clean = (host-IsClean, tt) }

find-Represents_example :
    find reference (some host_headers) (bytes "HOST")
    ≡ find_field reference (bytes "HOST") (host ∷ [])
find-Represents_example =
    find-Represents reference host_headers (host ∷ []) b'H' (bytes "OST") host-Represents

find_runs : find reference (some host_headers) (bytes "HOST") ≡ (HlResult.ok, some (bytes "a.b"))
unfolding find reference trim_optional_whitespace
find_runs = refl

abbrev junk_headers : Headers
junk_headers = record {
  buffer = bytes "junk" ++ crlf ++ bytes "A:\t1 " ++ crlf;
  used_size = 13;
  iterator = [];
}

junk-Lines : Lines (take 13 junk_headers.buffer) (bytes "junk" ∷ bytes "A:\t1 " ∷ [])
unfolding cut
junk-Lines = more refl (more refl done)

find-Lines_example :
    find reference (some junk_headers) (bytes "a")
    ≡ lookup_line reference (bytes "a") (bytes "junk" ∷ bytes "A:\t1 " ∷ [])
find-Lines_example = find-Lines reference junk_headers b'a' [] (omega arith) junk-Lines

-- A field whose colon has no blank behind it is found by name and is refused by the iteration.
abbrev tight_headers : Headers
tight_headers = record {
  buffer = bytes "A:1" ++ crlf;
  used_size = 5;
  iterator = bytes "A:1" ++ crlf;
}

find_tight : find reference (some tight_headers) (bytes "A") ≡ (HlResult.ok, some (bytes "1"))
unfolding find reference trim_optional_whitespace
find_tight = refl
