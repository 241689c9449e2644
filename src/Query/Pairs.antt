-- ===== src/Query/Pairs.antt =====
-- A query string as its pairs: the text is split at '&', empty pieces are dropped, and each piece
-- is split at its first '='.
use http_c.Prelude.{
  ℕ, suc, ◌+◌, ◌≤◌, ◌≡◌, refl, sym, ap, ◌∙◌, Bool, true, false, not, ◌&&◌, Bool-cases, inl, inr,
  none, some, List, [], ◌∷◌, length, drop, take, get_or, if◌then◌else◌, ◌==◌, ltb, arith,
}
use http_c.Common.{Bytes}
use http_c.Span.{or_whole}
use http_c.Span.Cut.{cut, strip, cons_first}
use http_c.Query.{run, separator, in_name, in_value}

abbrev on_first : ℕ → List Bytes → List Bytes
on_first c [] = []
on_first c (piece ∷ pieces) = (c ∷ piece) ∷ pieces

-- the pieces between the separators
unfoldable pub segments : Bytes → List Bytes
segments [] = [] ∷ []
segments (c ∷ s) = let rest = segments s in if c == b'&' then [] ∷ rest else on_first c rest

abbrev pub equals : Bytes
equals = b'=' ∷ []

-- the pairs of the pieces that are not empty
unfoldable pub pairs_of : List Bytes → List (Bytes × Bytes)
pairs_of [] = []
pairs_of ([] ∷ pieces) = pairs_of pieces
pairs_of ((c ∷ piece) ∷ pieces) = or_whole (c ∷ piece) (cut equals (c ∷ piece)) ∷ pairs_of pieces

unfoldable pub pairs : Bytes → List (Bytes × Bytes)
unfolding segments pairs_of
pairs s = pairs_of (segments s)

pub run_bound : (test : ℕ → Bool) (s : Bytes) → run test s ≤ length s
unfolding run
run_bound test [] = omega arith
run_bound test (c ∷ s) = ground (arith, run_bound test s)

pub run-go :
    (test : ℕ → Bool) (c : ℕ) (s : Bytes) → test c ≡ true → run test (c ∷ s) ≡ suc (run test s)
unfolding run
run-go test c s h = rw h refl

pub run-stop : (test : ℕ → Bool) (c : ℕ) (s : Bytes) → test c ≡ false → run test (c ∷ s) ≡ 0
unfolding run
run-stop test c s h = rw h refl

cut-here : (c : ℕ) (s : Bytes) → c == b'=' ≡ true → cut equals (c ∷ s) ≡ some ([], s)
unfolding cut strip
cut-here c s h = let same : (b'=' == c) ≡ true = ground arith in rw same refl

cut-next :
    (c : ℕ) (s : Bytes) → c == b'=' ≡ false → cut equals (c ∷ s) ≡ cons_first c (cut equals s)
unfolding cut strip
cut-next c s h = let other : (b'=' == c) ≡ false = ground arith in rw other refl

segments-separator : (c : ℕ) (s : Bytes) → c == b'&' ≡ true → segments (c ∷ s) ≡ [] ∷ segments s
unfolding segments
segments-separator c s h = rw h refl

segments-byte : (c : ℕ) (s : Bytes) → c == b'&' ≡ false → segments (c ∷ s) ≡ on_first c (segments s)
unfolding segments
segments-byte c s h = rw h refl

-- Separators in front make no pairs.
pub pairs-separator : (s : Bytes) → pairs s ≡ pairs (drop (run separator s) s)
unfolding pairs
pairs-separator [] = unfold run in refl
pairs-separator (c ∷ s) = elim (Bool-cases (c == b'&')) [
  | inl e ↦ rw (segments-separator c s e, run-go separator c s e) (pairs-separator s)
  | inr e ↦ rw (run-stop separator c s e) refl
]

-- The first piece, and what is behind its separator.
pub segments-first :
    (s : Bytes)
    → (pieces : List Bytes) × (segments s ≡ take (run in_value s) s ∷ pieces)
      × (pairs_of pieces ≡ pairs (drop (suc (run in_value s)) s))
unfolding pairs
segments-first [] = ([], unfold segments run in refl, unfold segments pairs_of run in refl)
segments-first (c ∷ s) = elim (Bool-cases (c == b'&')) [
  | inl e ↦
      let stop = run-stop in_value c s (ap not e) in
      (segments s, rw (segments-separator c s e, stop) refl, rw stop refl)
  | inr e ↦
      let go = run-go in_value c s (ap not e) in
      let (pieces, first, behind) = segments-first s in
      (pieces, rw (segments-byte c s e, first, go) refl, rw go behind)
]

-- The loop over the name ended at a '='.
abbrev pub at_equals : Bytes → ℕ → Bool
at_equals s k = ltb k (length s) && get_or s k 0 == b'='

pub at_equals-suc : (c : ℕ) (s : Bytes) (k : ℕ) → at_equals (c ∷ s) (suc k) ≡ at_equals s k
at_equals-suc c s k = elim (Bool-cases (ltb k (length s))) [
  | inl e ↦ ground arith
  | inr e ↦ ground arith
]

-- The loops over the name and the value cut the first piece at its first '='.
pub first-equals :
    (s : Bytes)
    → at_equals s (run in_name s) ≡ true
    → (run in_value s ≡ suc (run in_name s) + run in_value (drop (suc (run in_name s)) s))
      × (cut equals (take (run in_value s) s)
          ≡ some (
            take (run in_name s) s,
            take (run in_value (drop (suc (run in_name s)) s)) (drop (suc (run in_name s)) s),
          ))
first-equals [] h = absurd (ground arith)
first-equals (c ∷ s) h = elim (Bool-cases (c == b'=')) [
  | inl e ↦
      let stop = run-stop in_name c s (ground arith) in
      let go = run-go in_value c s (ground arith) in
      (rw (stop, go) (omega arith), rw (stop, go) (cut-here c (take (run in_value s) s) e))
  | inr e ↦ elim (Bool-cases (c == b'&')) [
    | inl k ↦ absurd (ground (arith, run-stop in_name c s (ground arith)))
    | inr k ↦
        let n = run-go in_name c s (ground arith) in
        let v = run-go in_value c s (ap not k) in
        let (size, found) =
          first-equals s
            (sym (at_equals-suc c s (run in_name s)) ∙ ap (at_equals (c ∷ s)) (sym n) ∙ h) in
        (
          rw (n, v) (omega (arith, size)),
          rw (n, v) (cut-next c (take (run in_value s) s) e ∙ ap (cons_first c) found),
        )
  ]
]

pub first-no_equals :
    (s : Bytes)
    → at_equals s (run in_name s) ≡ false
    → (run in_value s ≡ run in_name s) × (cut equals (take (run in_name s) s) ≡ none)
first-no_equals [] h = unfold run cut in (refl, refl)
first-no_equals (c ∷ s) h = elim (Bool-cases (c == b'=')) [
  | inl e ↦ absurd (ground (arith, run-stop in_name c s (ground arith)))
  | inr e ↦ elim (Bool-cases (c == b'&')) [
    | inl k ↦
        let n = run-stop in_name c s (ground arith) in
        let v = run-stop in_value c s (ap not k) in (rw (n, v) refl, rw n (unfold cut in refl))
    | inr k ↦
        let n = run-go in_name c s (ground arith) in
        let v = run-go in_value c s (ap not k) in
        let (size, found) =
          first-no_equals s
            (sym (at_equals-suc c s (run in_name s)) ∙ ap (at_equals (c ∷ s)) (sym n) ∙ h) in
        (
          rw (n, v) (ap suc size),
          rw n (cut-next c (take (run in_name s) s) e ∙ ap (cons_first c) found),
        )
  ]
]
