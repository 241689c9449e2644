-- ===== src/Examples/Query.antt =====
-- Lookups in a query string, and decoded values.
use http_c.Prelude.{ℕ, ◌≡◌, true, false, ◌⊎◌, refl, none, some, List, [], ◌∷◌, arith, drop}
use http_c.Common.{Bytes, ok}
use http_c.Span.Cut.{cut}
use http_c.Span.Reference.{reference}
use http_c.Query.{iterator_next, find, decode}
use http_c.Query.Pairs.{pairs}
use http_c.Query.Iteration.{Found, iterator_next-pairs}
use http_c.Query.Lookup.{lookup_pair, find-pairs, behind_mark, mark}
use http_c.Query.Decoding.{Spelling, plain, plus, escaped, encode, meant, Spelled, decode-encode}
use http_c.Prelude.Text.{bytes}

abbrev path : Bytes
path = bytes "/a?x=1&&name=a+b%21&z"

path_find : find reference path (bytes "name") ≡ some (bytes "a+b%21")
unfolding find reference
path_find = refl

path_pairs :
    pairs (bytes "x=1&&name=a+b%21&z")
    ≡ (bytes "x", bytes "1") ∷ (bytes "name", bytes "a+b%21") ∷ (bytes "z", []) ∷ []
unfolding pairs cut
path_pairs = refl

find-pairs_example :
    find reference path (bytes "name")
    ≡ lookup_pair reference (bytes "name") (pairs (behind_mark path (cut mark path)))
find-pairs_example = find-pairs reference path (bytes "name")

abbrev query : Bytes
query = bytes "x=1&&z"

iterator_next-pairs_example :
    (((iterator_next reference (record { query = query; cursor = 4 })).1 ≡ none)
      × (pairs (drop 4 query) ≡ []))
    ⊎ Found query 4 (iterator_next reference (record { query = query; cursor = 4 }))
iterator_next-pairs_example = iterator_next-pairs reference query 4 (omega arith)

-- "a b!/" as "a+b%21%2f"
abbrev spelled : List (ℕ × Spelling)
spelled =
    (b'a', plain)
    ∷ (b' ', plus)
    ∷ (b'b', plain)
    ∷ (b'!', escaped true true)
    ∷ (b'/', escaped true false)
    ∷ []

spelled-Spelled : Spelled spelled
spelled-Spelled = ((refl, refl), (refl, ((refl, refl), (omega arith, (omega arith, tt)))))

decode-encode_example : decode 5 [] (encode spelled) ≡ (ok, meant spelled)
unfolding meant
decode-encode_example = decode-encode 5 spelled spelled-Spelled (omega arith)
