-- ===== src/Prelude/Buffers.antt =====
-- A write into a buffer of a fixed size, and what is read behind it.
use Prim.Native.Nat.{ℕ, zero, suc, ◌+◌, ◌-◌, ◌≤◌}
use mathlib.Core.Path.{◌≡◌, refl, sym, ap}
use mathlib.Core.List.{List, [], ◌∷◌, ◌++◌}
use native.Mathlib.Omega.{arith}
use http_c.Prelude.Lists.{length, length-append, length-drop, take, drop, take-append}

module _ {ℓ} {A : Type ℓ} where
  -- The list with those elements from that index on; a write behind the end changes nothing.
  abbrev pub overwrite : ℕ → List A → List A → List A
  overwrite zero ys xs = ys ++ drop (length ys) xs
  overwrite (suc n) ys [] = []
  overwrite (suc n) ys (x ∷ xs) = x ∷ overwrite n ys xs

  pub length-overwrite :
      (n : ℕ) (ys xs : List A) → n + length ys ≤ length xs → length (overwrite n ys xs) ≡ length xs
  length-overwrite zero ys xs h =
      omega (arith, length-append ys (drop (length ys) xs), length-drop (length ys) xs)
  length-overwrite (suc n) ys [] h = refl
  length-overwrite (suc n) ys (x ∷ xs) h = omega (arith, length-overwrite n ys xs)

  pub take-overwrite_before :
      (m n : ℕ) (ys xs : List A) → m ≤ n → take m (overwrite n ys xs) ≡ take m xs
  take-overwrite_before zero n ys xs h = refl
  take-overwrite_before (suc m) zero ys xs h = absurd (omega arith)
  take-overwrite_before (suc m) (suc n) ys [] h = refl
  take-overwrite_before (suc m) (suc n) ys (x ∷ xs) h =
      ap (◌∷◌ x) (take-overwrite_before m n ys xs (omega arith))

  pub take-overwrite :
      (n k : ℕ) (ys xs : List A)
      → k ≡ length ys
      → n ≤ length xs
      → take (n + k) (overwrite n ys xs) ≡ take n xs ++ ys
  take-overwrite zero k ys xs e h = take-append (0 + k) ys (drop (length ys) xs) (omega arith)
  take-overwrite (suc n) k ys [] e h = absurd (omega arith)
  take-overwrite (suc n) k ys (x ∷ xs) e h =
      let s : suc n + k ≡ suc (n + k) = omega arith in
      rw s (ap (◌∷◌ x) (take-overwrite n k ys xs e (omega arith)))

  drop_behind :
      (m : ℕ) (ys xs : List A)
      → length ys ≤ m
      → length ys ≤ length xs
      → drop m (ys ++ drop (length ys) xs) ≡ drop m xs
  drop_behind m [] xs h k = refl
  drop_behind zero (y ∷ ys) xs h k = absurd (omega arith)
  drop_behind (suc m) (y ∷ ys) [] h k = absurd (omega arith)
  drop_behind (suc m) (y ∷ ys) (x ∷ xs) h k = drop_behind m ys xs (omega arith) (omega arith)

  pub drop-overwrite_behind :
      (m n : ℕ) (ys xs : List A)
      → n + length ys ≤ m
      → n + length ys ≤ length xs
      → drop m (overwrite n ys xs) ≡ drop m xs
  drop-overwrite_behind m zero ys xs h k = drop_behind m ys xs (omega arith) (omega arith)
  drop-overwrite_behind m (suc n) ys [] h k = refl
  drop-overwrite_behind zero (suc n) ys (x ∷ xs) h k = absurd (omega arith)
  drop-overwrite_behind (suc m) (suc n) ys (x ∷ xs) h k =
      drop-overwrite_behind m n ys xs (omega arith) (omega arith)

  pub drop-overwrite :
      (m n : ℕ) (ys xs : List A)
      → m ≤ length xs
      → drop m (overwrite (m + n) ys xs) ≡ overwrite n ys (drop m xs)
  drop-overwrite zero n ys xs h =
      let e : 0 + n ≡ n = omega arith in ap (λ (k : ℕ). overwrite k ys xs) e
  drop-overwrite (suc m) n ys [] h = absurd (omega arith)
  drop-overwrite (suc m) n ys (x ∷ xs) h =
      let e : suc m + n ≡ suc (m + n) = omega arith in rw e (drop-overwrite m n ys xs (omega arith))

  take-nil : (k : ℕ) → take {A = A} k [] ≡ []
  take-nil zero = refl
  take-nil (suc k) = refl

  pub drop-take : (n m : ℕ) (xs : List A) → drop n (take m xs) ≡ take (m - n) (drop n xs)
  drop-take zero m xs = let e : m - 0 ≡ m = omega arith in rw e refl
  drop-take (suc n) zero [] = sym (take-nil (0 - suc n))
  drop-take (suc n) zero (x ∷ xs) = let e : 0 - suc n ≡ 0 = omega arith in rw e refl
  drop-take (suc n) (suc m) [] = sym (take-nil (suc m - suc n))
  drop-take (suc n) (suc m) (x ∷ xs) =
      let e : suc m - suc n ≡ m - n = omega arith in rw e (drop-take n m xs)

  pub take-take : (n m : ℕ) (xs : List A) → n ≤ m → take n (take m xs) ≡ take n xs
  take-take zero m xs h = refl
  take-take (suc n) zero xs h = absurd (omega arith)
  take-take (suc n) (suc m) [] h = refl
  take-take (suc n) (suc m) (x ∷ xs) h = ap (◌∷◌ x) (take-take n m xs (omega arith))
