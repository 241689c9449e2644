-- ===== src/Span/Reference.antt =====
-- A common library that runs: every assumption of `CommonLib` can be met at once.
use http_c.Prelude.{
  ℕ, ◌≤◌, ◌<◌, ◌^◌, ◌≡◌, ◌↔◌, refl, Bool, true, false, ◌&&◌, Option, none, some, [], ◌∷◌, map,
  arith, ◌==◌, ltb, leb, if◌then◌else◌, length, take, drop,
}
use http_c.Common.{Bytes, ResultCode, ok, try_again, end_of_data, end_of_file}
use http_c.Span.Cut.{cut, cut_last}
use http_c.Span.{CommonLib, lower, place, or_whole, decimal}

abbrev pub equal : Bytes → Bytes → Bool
equal [] [] = true
equal (x ∷ xs) (y ∷ ys) = x == y && equal xs ys
equal _ _ = false

pub equal_sound : (xs ys : Bytes) → equal xs ys ≡ true → xs ≡ ys
equal_sound [] [] h = refl
equal_sound (x ∷ xs) (y ∷ ys) h = ground (arith, equal_sound xs ys)
equal_sound [] (y ∷ ys) h = ground arith
equal_sound (x ∷ xs) [] h = ground arith

pub equal_refl : (xs : Bytes) → equal xs xs ≡ true
equal_refl [] = refl
equal_refl (x ∷ xs) = ground (arith, equal_refl xs)

pub equal_iff : (xs ys : Bytes) → (equal xs ys ≡ true) ↔ (xs ≡ ys)
equal_iff xs ys = (equal_sound xs ys, λ e. rw e (equal_refl ys))

abbrev pub iterate : Bytes → Bytes → Option (Bytes × Bytes)
iterate [] d = none
iterate (c ∷ s) d = some (or_whole (c ∷ s) (cut d (c ∷ s)))

abbrev pub copy : Bytes → Bytes → Bytes × Bytes
copy t s = if leb (length s) (length t) then (s, drop (length s) t) else ([], t)

pub copy_fits :
    (t : Bytes) (c : ℕ) (s : Bytes)
    → length (c ∷ s) ≤ length t
    → copy t (c ∷ s) ≡ (c ∷ s, drop (length (c ∷ s)) t)
copy_fits t c s h = ground arith

pub copy_overflow : (t s : Bytes) → length t < length s → (copy t s).0 ≡ []
copy_overflow t s h = ground arith

abbrev pub within : Option ℕ → Option ℕ
within none = none
within (some n) = if ltb n (2 ^ 32) then some n else none

abbrev pub to_uint32 : Bytes → Option ℕ
to_uint32 [] = none
to_uint32 (c ∷ s) = within (decimal 0 (c ∷ s))

pub within_bound : (o : Option ℕ) {n : ℕ} → within o ≡ some n → n < 2 ^ 32
within_bound none h = ground arith
within_bound (some m) h = ground arith

pub to_uint32_bound : (s : Bytes) {n : ℕ} → to_uint32 s ≡ some n → n < 2 ^ 32
to_uint32_bound [] h = ground arith
to_uint32_bound (c ∷ s) h = within_bound (decimal 0 (c ∷ s)) h

pub within_small : (n : ℕ) → n < 2 ^ 32 → within (some n) ≡ some n
within_small n h = ground arith

abbrev pub fails : ResultCode → Bool
fails ok = false
fails try_again = false
fails end_of_data = false
fails end_of_file = false
fails _ = true

unfoldable pub reference : CommonLib
unfolding decimal cut cut_last
reference = record {
  slice = λ s o n. take n (drop o s);
  slice_to_end = λ s o. drop o s;
  find = λ s o d. place (cut d (drop o s));
  find_reverse = λ s d. cut_last d s;
  split = λ s o d. cut d (drop o s);
  iterate = iterate;
  compare_is_zero = equal;
  icompare_is_zero = λ a b. equal (map lower a) (map lower b);
  copy = copy;
  to_uint32 = to_uint32;
  failed = fails;
  is_error = fails;
  slice_lem = λ s o n h. refl;
  slice_to_end_lem = λ s o h. refl;
  find_lem = λ s x d. refl;
  find_reverse_lem = λ s x d. refl;
  split_lem = λ s x d. refl;
  iterate-nil = λ x d. refl;
  iterate-cons = λ c s x d. refl;
  compare_iff = equal_iff;
  icompare_iff = λ a b. equal_iff (map lower a) (map lower b);
  copy_fits = copy_fits;
  copy_overflow = copy_overflow;
  to_uint32_bound = to_uint32_bound;
  to_uint32-decimal = λ c s {n} e h. rw e (within_small n h);
  failed-ok = refl;
  failed-error = refl;
  failed-invalid_argument = refl;
  failed-not_found = refl;
  is_error-ok = refl;
  is_error-try_again = refl;
  is_error-end_of_data = refl;
  is_error-end_of_file = refl;
  is_error-error = refl;
  is_error-invalid_argument = refl;
  is_error-insufficient_size = refl;
}
