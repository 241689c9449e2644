-- ===== src/Span/Cut.antt =====
-- The first and the last occurrence of a delimiter in a text: the words in which the behaviour
-- of the span functions is stated.
use http_c.Prelude.{
  ℕ, suc, ◌+◌, ◌≤◌, ◌≡◌, refl, ap, false, Option, none, some, [], ◌∷◌, ◌++◌, append_assoc,
  append-nil, subst, arith, ◌==◌, if◌then◌else◌, Option-cases, Bool-cases, length, length-append,
  inl, inr, ==_refl,
}
use http_c.Common.{Bytes}

-- What stands behind the prefix `d`, if the text starts with it.
unfoldable pub strip : Bytes → Bytes → Option Bytes
strip [] s = some s
strip (x ∷ d) [] = none
strip (x ∷ d) (c ∷ s) = if x == c then strip d s else none

abbrev pub cons_first : ℕ → Option (Bytes × Bytes) → Option (Bytes × Bytes)
cons_first c none = none
cons_first c (some (a, b)) = some (c ∷ a, b)

abbrev pub cut_at : ℕ → Option Bytes → Option (Bytes × Bytes) → Option (Bytes × Bytes)
cut_at c (some rest) later = some ([], rest)
cut_at c none later = cons_first c later

-- The text before the first occurrence of `d`, and the text behind it.
unfoldable pub cut : Bytes → Bytes → Option (Bytes × Bytes)
unfolding strip
cut d [] = none
cut d (c ∷ s) = cut_at c (strip d (c ∷ s)) (cut d s)

abbrev pub last_at : Option ℕ → Option Bytes → Option ℕ
last_at (some i) here = some (suc i)
last_at none (some _) = some 0
last_at none none = none

-- The position of the last occurrence.
unfoldable pub cut_last : Bytes → Bytes → Option ℕ
unfolding strip
cut_last d [] = none
cut_last d (c ∷ s) = last_at (cut_last d s) (strip d (c ∷ s))

-- The byte does not occur.
abbrev pub Free : ℕ → Bytes → Type 0
Free x [] = Unit
Free x (c ∷ s) = ((x == c) ≡ false) × Free x s

pub strip_sound : (d s : Bytes) {r : Bytes} → strip d s ≡ some r → s ≡ d ++ r
unfolding strip
strip_sound [] s h = ground arith
strip_sound (x ∷ d) [] h = ground arith
strip_sound (x ∷ d) (c ∷ s) {r} h = elim (Bool-cases (x == c)) [
  | inl e ↦ ground (arith, strip_sound d s {r = r})
  | inr e ↦ ground arith
]

pub strip-append : (d r : Bytes) → strip d (d ++ r) ≡ some r
unfolding strip
strip-append [] r = refl
strip-append (x ∷ d) r = rw (==_refl x) (strip-append d r)

pub strip_more : (d s t : Bytes) {r : Bytes} → strip d s ≡ some r → strip d (s ++ t) ≡ some (r ++ t)
strip_more d s t {r} h = rw (strip_sound d s h, append_assoc d r t) (strip-append d (r ++ t))

pub strip_less : (d s t : Bytes) → length d ≤ length s → strip d s ≡ none → strip d (s ++ t) ≡ none
unfolding strip
strip_less [] s t n h = ground arith
strip_less (x ∷ d) [] t n h = elim n [ ]
strip_less (x ∷ d) (c ∷ s) t n h = ground (arith, strip_less d s t)

pub cut_sound : (d s : Bytes) {a b : Bytes} → cut d s ≡ some (a, b) → s ≡ a ++ (d ++ b)
unfolding cut
cut_sound d [] h = ground arith
cut_sound d (c ∷ s) {a} {b} h = elim (Option-cases (strip d (c ∷ s))) [
  | inl e ↦ elim (Option-cases (cut d s)) [
    | inl f ↦ ground arith
    | inr ((a', b'), f) ↦ ground (arith, cut_sound d s {a = a'} {b = b'} f)
  ]
  | inr (r, e) ↦ ground (arith, strip_sound d (c ∷ s) {r = r} e)
]

pub cut-length :
    (d s : Bytes) {a b : Bytes} → cut d s ≡ some (a, b) → length s ≡ length a + length d + length b
cut-length d s {a} {b} h =
    omega (arith, ap length (cut_sound d s h), length-append a (d ++ b), length-append d b)

-- An occurrence that was found stays the first one when more text arrives.
pub cut_more :
    (d s t : Bytes) {a b : Bytes} → cut d s ≡ some (a, b) → cut d (s ++ t) ≡ some (a, b ++ t)
unfolding cut
cut_more d [] t h = ground arith
cut_more d (c ∷ s) t {a} {b} h = elim (Option-cases (strip d (c ∷ s))) [
  | inl e ↦ elim (Option-cases (cut d s)) [
    | inl f ↦ ground arith
    | inr ((a', b'), f) ↦
        rw (strip_less d (c ∷ s) t (omega (arith, cut-length d s f)) e)
          (rw (cut_more d s t f) (ground arith))
  ]
  | inr (r, e) ↦ rw (strip_more d (c ∷ s) t e) (ground arith)
]

-- A delimiter whose first byte does not stand before it is found where it stands.
pub cut-Free : (x : ℕ) (d a b : Bytes) → Free x a → cut (x ∷ d) (a ++ (x ∷ (d ++ b))) ≡ some (a, b)
unfolding cut
cut-Free x d [] b h = rw (strip-append (x ∷ d) b)
cut-Free x d (c ∷ a) b (h, k) = rw (cut-Free x d a b k) (unfold strip in rw h)

pub cut_absent : (x : ℕ) (d s : Bytes) → Free x s → cut (x ∷ d) s ≡ none
unfolding cut
cut_absent x d [] h = refl
cut_absent x d (c ∷ s) (h, k) = rw (cut_absent x d s k) (unfold strip in rw h)

-- A text without the delimiter's first byte is passed over.
pub cut_skip :
    (x : ℕ) (d l s : Bytes) {a b : Bytes}
    → Free x l
    → cut (x ∷ d) s ≡ some (a, b)
    → cut (x ∷ d) (l ++ s) ≡ some (l ++ a, b)
unfolding cut
cut_skip x d [] s h e = e
cut_skip x d (c ∷ l) s (h, k) e = rw (cut_skip x d l s k e) (unfold strip in rw h)

pub cut_last-length : (d s : Bytes) {i : ℕ} → cut_last d s ≡ some i → i + length d ≤ length s
unfolding cut_last
cut_last-length d [] h = ground arith
cut_last-length d (c ∷ s) {i} h = elim (Option-cases (cut_last d s)) [
  | inl e ↦ elim (Option-cases (strip d (c ∷ s))) [
    | inl f ↦ ground arith
    | inr (r, f) ↦
        omega
          (arith, ap length (strip_sound d (c ∷ s) f), length-append d r, at_zero (ground arith))
  ]
  | inr (j, e) ↦ omega (arith, cut_last-length d s e, at_next j (ground arith))
]
  where
    at_zero : some 0 ≡ some i → i ≡ 0
    at_zero q = ground arith

    at_next : (j : ℕ) → some (suc j) ≡ some i → i ≡ suc j
    at_next j q = ground arith

-- At the end of a text the delimiter is the last one.
pub cut_last-append : (x : ℕ) (d a : Bytes) → cut_last (x ∷ d) (a ++ (x ∷ d)) ≡ some (length a)
unfolding cut_last
cut_last-append x d [] = elim (Option-cases (cut_last (x ∷ d) d)) [
  | inl e ↦
      let here : strip (x ∷ d) (x ∷ d) ≡ some [] =
        subst (λ t. strip (x ∷ d) t ≡ some []) (append-nil (x ∷ d)) (strip-append (x ∷ d) []) in
      rw e (unfold strip in rw here)
  | inr (i, e) ↦ absurd (omega (arith, cut_last-length (x ∷ d) d e))
]
cut_last-append x d (c ∷ a) = rw (cut_last-append x d a)
