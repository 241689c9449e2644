-- ===== src/Query/Cursor.antt =====
-- The text behind a position of a query: where a run ends, the test at an index, the first pair.
use http_c.Prelude.{
  ℕ, zero, suc, ◌+◌, ◌≤◌, ◌≡◌, sym, ap, ◌∙◌, Bool, false, not, ◌&&◌, Bool-cases, inl, inr, List, [],
  ◌∷◌, length, drop, take, get_or, if◌then◌else◌, ◌==◌, ltb, arith, subst, drop_none,
}
use http_c.Common.{Bytes}
use http_c.Span.{or_whole}
use http_c.Span.Cut.{cut}
use http_c.Query.{run, separator, in_value}
use http_c.Query.Pairs.{
  pairs_of, pairs, segments-first, run-go, run-stop, at_equals-suc, at_equals, equals,
}

-- A run ends at a byte that fails the test.
pub run_end :
    (test : ℕ → Bool) (s : Bytes) {c : ℕ} {r : Bytes} → drop (run test s) s ≡ c ∷ r → test c ≡ false
run_end test [] h = absurd (ground (arith, drop_none {A = ℕ} (run test []) [] (omega arith)))
run_end test (x ∷ s) {c} {r} h = elim (Bool-cases (test x)) [
  | inl e ↦ run_end test s (ap (λ (k : ℕ). drop k (x ∷ s)) (sym (run-go test x s e)) ∙ h)
  | inr e ↦
      let first : x ∷ s ≡ c ∷ r = ap (λ (k : ℕ). drop k (x ∷ s)) (sym (run-stop test x s e)) ∙ h in
      ap test (sym (ap (λ (t : Bytes). get_or t 0 0) first)) ∙ e
]

-- The test on the byte at an index is the test behind that index.
pub at_equals-drop :
    (q : Bytes) (i k : ℕ)
    → i ≤ length q
    → (ltb (i + k) (length q) && get_or q (i + k) 0 == b'=') ≡ at_equals (drop i q) k
at_equals-drop q zero k h = let e : 0 + k ≡ k = omega arith in ap (at_equals q) e
at_equals-drop [] (suc i) k h = absurd (omega arith)
at_equals-drop (c ∷ q) (suc i) k h =
    let e : suc i + k ≡ suc (i + k) = omega arith in
    ap (at_equals (c ∷ q)) e ∙ at_equals-suc c q (i + k) ∙ at_equals-drop q i k (omega arith)

-- the pairs of a text that starts with one
abbrev pub first_pair : Bytes → List (Bytes × Bytes)
first_pair s =
    or_whole (take (run in_value s) s) (cut equals (take (run in_value s) s))
    ∷ pairs (drop (suc (run in_value s)) s)

pub pairs-first : (c : ℕ) (r : Bytes) → separator c ≡ false → pairs (c ∷ r) ≡ first_pair (c ∷ r)
unfolding pairs pairs_of
pairs-first c r h =
    let (pieces, first, behind) = segments-first (c ∷ r) in
    let go = run-go in_value c r (ap not h) in
    let behind' = subst (λ (k : ℕ). pairs_of pieces ≡ pairs (drop (suc k) (c ∷ r))) go behind in
    ap pairs_of first
    ∙ rw go (
        ap
          (λ (ps : List (Bytes × Bytes)).
            or_whole (c ∷ take (run in_value r) r) (cut equals (c ∷ take (run in_value r) r)) ∷ ps)
          behind')

pub cursor_behind :
    (q : Bytes) (e : ℕ)
    → e ≤ length q
    → drop (if ltb e (length q) then e + 1 else length q) q ≡ drop (suc e) q
cursor_behind q e h = elim (Bool-cases (ltb e (length q))) [
  | inl k ↦ let next : e + 1 ≡ suc e = omega arith in rw k (ap (λ (n : ℕ). drop n q) next)
  | inr k ↦ rw k (drop_none (length q) q (omega arith) ∙ sym (drop_none (suc e) q (ground arith)))
]
