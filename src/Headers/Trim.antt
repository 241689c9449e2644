-- ===== src/Headers/Trim.antt =====
-- trim_optional_whitespace of src/http_headers.c: the two index loops against the text.
use http_c.Prelude.{
  ℕ, zero, suc, ◌+◌, ◌-◌, ◌≤◌, ◌<◌, ◌≡◌, refl, ap, ◌∙◌, true, false, [], ◌∷◌, ◌++◌, arith, ltb,
  length, get_or, take, drop, take_none, length-append, take-append, drop-append, Bool-cases, inl,
  inr,
}
use http_c.Common.{Bytes}
use http_c.Span.{CommonLib}
use http_c.Headers.{is_blank, skip_start, skip_end, trim_optional_whitespace}

-- Only spaces and tabs.
abbrev pub AllBlank : Bytes → Type 0
AllBlank [] = Unit
AllBlank (c ∷ s) = (is_blank c ≡ true) × AllBlank s

-- Neither end is a space or a tab.
abbrev pub IsTrimmed : Bytes → Type 0
IsTrimmed [] = Unit
IsTrimmed (c ∷ s) = (is_blank c ≡ false) × (is_blank (get_or (c ∷ s) (length s) 0) ≡ false)

get_or-append_left : (a b : Bytes) (i : ℕ) → i < length a → get_or (a ++ b) i 0 ≡ get_or a i 0
get_or-append_left [] b i h = elim h [ ]
get_or-append_left (c ∷ a) b zero h = refl
get_or-append_left (c ∷ a) b (suc i) h = get_or-append_left a b i (omega arith)

get_or-append_right :
    (a b : Bytes) (i j : ℕ) → i ≡ length a + j → get_or (a ++ b) i 0 ≡ get_or b j 0
get_or-append_right [] b i j h = ap (λ k. get_or b k 0) (omega arith)
get_or-append_right (c ∷ a) b zero j h = absurd (omega arith)
get_or-append_right (c ∷ a) b (suc i) j h = get_or-append_right a b i j (omega arith)

AllBlank-get_or : (a : Bytes) (i : ℕ) → AllBlank a → i < length a → is_blank (get_or a i 0) ≡ true
AllBlank-get_or [] i b h = elim h [ ]
AllBlank-get_or (c ∷ a) zero (b, bs) h = b
AllBlank-get_or (c ∷ a) (suc i) (b, bs) h = AllBlank-get_or a i bs (omega arith)

-- The first loop stops at the first place that is not blank.
skip_start_lem :
    (rounds : ℕ) (value : Bytes) (start end m : ℕ)
    → start ≤ m
    → m ≤ end
    → m ≤ start + rounds
    → ((i : ℕ) → start ≤ i → i < m → is_blank (get_or value i 0) ≡ true)
    → (m < end → is_blank (get_or value m 0) ≡ false)
    → skip_start rounds value start end ≡ m
unfolding skip_start
skip_start_lem zero value start end m a b c blank stop = omega arith
skip_start_lem (suc rounds) value start end m a b c blank stop = elim (Bool-cases (ltb start m)) [
  | inl e ↦
      let lt : start < m = ground arith in
      let le : start < end = omega arith in
      let ih : skip_start rounds value (start + 1) end ≡ m =
        skip_start_lem rounds value (start + 1) end m (omega arith) b (omega arith)
          (λ i p q. blank i (omega arith) q) stop in
      rw (blank start (omega arith) lt) (ground (arith, ih))
  | inr e ↦
      let eq : m ≡ start = ground arith in
      elim (Bool-cases (ltb start end)) [
        | inl f ↦
            let off : is_blank (get_or value start 0) ≡ false = rw (← eq) (stop (ground arith)) in
            rw (off, f) (omega arith)
        | inr f ↦ rw f (omega arith)
      ]
]

-- The second loop stops behind the last place that is not blank.
skip_end_lem :
    (rounds : ℕ) (value : Bytes) (start end m : ℕ)
    → start ≤ m
    → m ≤ end
    → end ≤ m + rounds
    → ((i : ℕ) → m ≤ i → i < end → is_blank (get_or value i 0) ≡ true)
    → (start < m → is_blank (get_or value (m - 1) 0) ≡ false)
    → skip_end rounds value start end ≡ m
unfolding skip_end
skip_end_lem zero value start end m a b c blank stop = omega arith
skip_end_lem (suc rounds) value start end m a b c blank stop = elim (Bool-cases (ltb m end)) [
  | inl e ↦
      let lt : m < end = ground arith in
      let ih : skip_end rounds value start (end - 1) ≡ m =
        skip_end_lem rounds value start (end - 1) m a (omega arith) (omega arith)
          (λ i p q. blank i p (omega arith)) stop in
      rw (blank (end - 1) (omega arith) (omega arith)) (ground (arith, ih))
  | inr e ↦
      let eq : m ≡ end = ground arith in
      elim (Bool-cases (ltb start end)) [
        | inl f ↦
            let off : is_blank (get_or value (end - 1) 0) ≡ false =
              rw (← eq) (stop (ground arith)) in
            rw (off, f) (omega arith)
        | inr f ↦ rw f (omega arith)
      ]
]

module _ (l v r : Bytes) where
  size_padded : length (l ++ (v ++ r)) ≡ length l + length v + length r
  size_padded = omega (arith, length-append l (v ++ r), length-append v r)

  blank_left : AllBlank l → (i : ℕ) → i < length l → is_blank (get_or (l ++ (v ++ r)) i 0) ≡ true
  blank_left bl i h = rw (get_or-append_left l (v ++ r) i h) (AllBlank-get_or l i bl h)

  inner : (i j : ℕ) → i ≡ length l + j → j < length v → get_or (l ++ (v ++ r)) i 0 ≡ get_or v j 0
  inner i j e h = get_or-append_right l (v ++ r) i j e ∙ get_or-append_left v r j h

  blank_right :
      AllBlank r
      → (i : ℕ) → length l + length v ≤ i
      → i < length (l ++ (v ++ r))
      → is_blank (get_or (l ++ (v ++ r)) i 0) ≡ true
  blank_right br i h k =
      let j : ℕ = i - length l - length v in
      rw (get_or-append_right l (v ++ r) i (length v + j) (omega arith)) (
        rw (get_or-append_right v r (length v + j) j refl)
          (AllBlank-get_or r j br (omega (arith, size_padded))))

AllBlank-append : (a b : Bytes) → AllBlank a → AllBlank b → AllBlank (a ++ b)
AllBlank-append [] b h k = k
AllBlank-append (c ∷ a) b (h, hs) k = (h, AllBlank-append a b hs k)

module _ (lib : CommonLib) where
  trim_between :
      (value : Bytes) (s e : ℕ)
      → skip_start (length value) value 0 (length value) ≡ s
      → skip_end (length value) value s (length value) ≡ e
      → s ≤ e
      → e ≤ length value
      → trim_optional_whitespace lib value ≡ take (e - s) (drop s value)
  unfolding trim_optional_whitespace
  trim_between [] s e p q a b = elim (Bool-cases (ltb 0 s)) [
    | inl f ↦ absurd (ground arith)
    | inr f ↦ ground arith
  ]
  trim_between (c ∷ value) s e p q a b =
      rw (p, q) (ground (arith, lib.slice_lem (c ∷ value) s (e - s) (omega arith)))

  trim_blank : (b : Bytes) → AllBlank b → trim_optional_whitespace lib b ≡ []
  trim_blank b h =
      trim_between b (length b) (length b)
        (skip_start_lem _ _ 0 _ _ (omega arith) (omega arith) (omega arith)
          (λ i p q. AllBlank-get_or b i h q) (λ k. absurd (omega arith)))
        (skip_end_lem _ _ _ _ _ (omega arith) (omega arith) (omega arith)
          (λ i p q. absurd (omega arith)) (λ k. absurd (omega arith)))
        (omega arith) (omega arith)
      ∙ take_none _ _ (omega arith)

  -- Blanks on both sides of a value that neither starts nor ends with one are taken off, and
  -- nothing else.
  pub trim_padded :
      (l v r : Bytes)
      → AllBlank l
      → AllBlank r
      → IsTrimmed v
      → trim_optional_whitespace lib (l ++ (v ++ r)) ≡ v
  trim_padded l [] r bl br t = trim_blank (l ++ r) (AllBlank-append l r bl br)
  trim_padded l (c ∷ s) r bl br (first, last) =
      let v : Bytes = c ∷ s in
      let n : length (l ++ (v ++ r)) ≡ length l + length v + length r = size_padded l v r in
      trim_between (l ++ (v ++ r)) (length l) (length l + length v)
        (skip_start_lem _ _ 0 _ _ (omega arith) (omega (arith, n)) (omega (arith, n))
          (λ i p q. blank_left l v r bl i q)
          (λ k. rw (inner l v r (length l) 0 (omega arith) (omega arith)) first))
        (skip_end_lem _ _ _ _ _ (omega arith) (omega (arith, n)) (omega (arith, n))
          (λ i p q. blank_right l v r br i p q)
          (λ k.
            rw (inner l v r (length l + length v - 1) (length s) (omega arith) (omega arith)) last))
        (omega arith) (omega (arith, n))
      ∙ ap (take _) (drop-append (length l) l (v ++ r) refl)
      ∙ take-append (length l + length v - length l) v r (omega arith)
