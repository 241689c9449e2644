-- ===== src/Span.antt =====
-- The functions of deps/common-lib-c that the modelled code calls, as a record of operations with
-- their documented behaviour at the arguments that the code passes. The submodule is not part of
-- the repository, so every definition that uses one of them takes this record. A call that the
-- code compares with a single value is given as the test.
pub mod Cut
pub mod Reference
pub mod Slices
use http_c.Prelude.{
  ℕ, ◌+◌, ◌*◌, ◌-◌, ◌^◌, ◌≤◌, ◌<◌, ◌≡◌, ◌↔◌, Bool, true, false, ◌&&◌, Option, none, some, List, [],
  ◌∷◌, ◌++◌, map, leb, if◌then◌else◌, length, take, drop,
}
use http_c.Common.{Bytes, ResultCode, ok, error, invalid_argument, not_found, insufficient_size}
use http_c.Common.{try_again, end_of_data, end_of_file}
use Cut.{cut, cut_last}

abbrev pub is_digit : ℕ → Bool
is_digit c = leb b'0' c && leb c b'9'

-- Texts are compared with the letters A to Z put in lower case.
abbrev pub lower : ℕ → ℕ
lower c = if leb b'A' c && leb c b'Z' then c + 32 else c

abbrev pub place : Option (Bytes × Bytes) → Option (ℕ × Bytes)
place none = none
place (some (a, b)) = some (length a, b)

-- A text without a delimiter is one segment.
abbrev pub or_whole : Bytes → Option (Bytes × Bytes) → Bytes × Bytes
or_whole s none = (s, [])
or_whole s (some (a, b)) = (a, b)

-- The number that decimal digits stand for, read after the number `n`.
unfoldable pub decimal : ℕ → Bytes → Option ℕ
decimal n [] = some n
decimal n (c ∷ s) = if is_digit c then decimal (10 * n + (c - b'0')) s else none

pub record CommonLib : Type 0 where
  -- span_slice(span, start, size) and span_slice_to_end(span, start)
  pub slice : Bytes → ℕ → ℕ → Bytes
  pub slice_to_end : Bytes → ℕ → Bytes
  -- span_find(span, start, delimiter, &after); `none` is -1
  pub find : Bytes → ℕ → Bytes → Option (ℕ × Bytes)
  -- span_find_reverse(span, -1, delimiter)
  pub find_reverse : Bytes → Bytes → Option ℕ
  -- span_split(span, start, delimiter, &left, &right); `none` is a result other than 0
  pub split : Bytes → ℕ → Bytes → Option (Bytes × Bytes)
  -- span_iterate(span, delimiter, &segment, &remainder); `none` is a result other than ok
  pub iterate : Bytes → Bytes → Option (Bytes × Bytes)
  -- span_compare(a, b) == 0 and span_icompare(a, b, true) == 0
  pub compare_is_zero : Bytes → Bytes → Bool
  pub icompare_is_zero : Bytes → Bytes → Bool
  -- span_copy(destination, source, &remainder): the bytes now in front, and the remainder
  pub copy : Bytes → Bytes → Bytes × Bytes
  -- span_to_uint32_t(span, &value); `none` is a result other than 0
  pub to_uint32 : Bytes → Option ℕ
  -- failed(result) and is_error(result)
  pub failed : ResultCode → Bool
  pub is_error : ResultCode → Bool
  pub slice_lem : (s : Bytes) (o n : ℕ) → o + n ≤ length s → slice s o n ≡ take n (drop o s)
  pub slice_to_end_lem : (s : Bytes) (o : ℕ) → o ≤ length s → slice_to_end s o ≡ drop o s
  pub find_lem : (s : Bytes) (x : ℕ) (d : Bytes) → find s 0 (x ∷ d) ≡ place (cut (x ∷ d) s)
  pub find_reverse_lem :
      (s : Bytes) (x : ℕ) (d : Bytes) → find_reverse s (x ∷ d) ≡ cut_last (x ∷ d) s
  pub split_lem : (s : Bytes) (x : ℕ) (d : Bytes) → split s 0 (x ∷ d) ≡ cut (x ∷ d) s
  pub iterate-nil : (x : ℕ) (d : Bytes) → iterate [] (x ∷ d) ≡ none
  pub iterate-cons :
      (c : ℕ) (s : Bytes) (x : ℕ) (d : Bytes)
      → iterate (c ∷ s) (x ∷ d) ≡ some (or_whole (c ∷ s) (cut (x ∷ d) (c ∷ s)))
  pub compare_iff : (a b : Bytes) → (compare_is_zero a b ≡ true) ↔ (a ≡ b)
  pub icompare_iff : (a b : Bytes) → (icompare_is_zero a b ≡ true) ↔ (map lower a ≡ map lower b)
  -- of an empty source nothing is assumed
  pub copy_fits :
      (t : Bytes) (c : ℕ) (s : Bytes)
      → length (c ∷ s) ≤ length t
      → copy t (c ∷ s) ≡ (c ∷ s, drop (length (c ∷ s)) t)
  pub copy_overflow : (t s : Bytes) → length t < length s → (copy t s).0 ≡ []
  pub to_uint32_bound : (s : Bytes) {n : ℕ} → to_uint32 s ≡ some n → n < 2 ^ 32
  pub to_uint32-decimal :
      (c : ℕ) (s : Bytes) {n : ℕ}
      → decimal 0 (c ∷ s) ≡ some n
      → n < 2 ^ 32
      → to_uint32 (c ∷ s) ≡ some n
  pub failed-ok : failed ok ≡ false
  pub failed-error : failed error ≡ true
  pub failed-invalid_argument : failed invalid_argument ≡ true
  pub failed-not_found : failed not_found ≡ true
  pub is_error-ok : is_error ok ≡ false
  pub is_error-try_again : is_error try_again ≡ false
  pub is_error-end_of_data : is_error end_of_data ≡ false
  pub is_error-end_of_file : is_error end_of_file ≡ false
  pub is_error-error : is_error error ≡ true
  pub is_error-invalid_argument : is_error invalid_argument ≡ true
  pub is_error-insufficient_size : is_error insufficient_size ≡ true
