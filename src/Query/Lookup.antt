-- ===== src/Query/Lookup.antt =====
-- http_query_find against the pairs of the query.
use http_c.Prelude.{
  ℕ, zero, suc, ◌+◌, ◌-◌, ◌≤◌, ◌<◌, ◌≡◌, refl, ap, ◌∙◌, true, false, not, Bool-cases, inl, inr,
  Option, none, some, List, [], ◌∷◌, length, drop, take, if◌then◌else◌, ◌==◌, ltb, arith,
  length-drop, take_all,
}
use http_c.Common.{Bytes}
use http_c.Span.{CommonLib}
use http_c.Span.Cut.{cut, strip, cons_first}
use http_c.Query.{run, no_mark, Iterator, locate_query, iterator_init, find_loop, find}
use http_c.Query.Pairs.{pairs, run-go, run-stop}
use http_c.Query.Iteration.{Found, iterator_next-pairs}

abbrev pub mark : Bytes
mark = b'?' ∷ []

-- what is behind the first '?', or the whole text
abbrev pub behind_mark : Bytes → Option (Bytes × Bytes) → Bytes
behind_mark path none = path
behind_mark path (some (a, b)) = b

cut-mark :
    (s : Bytes)
    → ltb (run no_mark s) (length s) ≡ true
    → cut mark s ≡ some (take (run no_mark s) s, drop (suc (run no_mark s)) s)
unfolding cut strip
cut-mark [] h = absurd (ground arith)
cut-mark (c ∷ s) h = elim (Bool-cases (c == b'?')) [
  | inl e ↦
      let same : (b'?' == c) ≡ true = ground arith in
      let stop = run-stop no_mark c s (ap not e) in rw (stop, same) refl
  | inr e ↦
      let other : (b'?' == c) ≡ false = ground arith in
      let go = run-go no_mark c s (ap not e) in
      rw (go, other) (ap (cons_first c) (cut-mark s (ground arith)))
]

cut-no_mark : (s : Bytes) → ltb (run no_mark s) (length s) ≡ false → cut mark s ≡ none
unfolding cut strip
cut-no_mark [] h = refl
cut-no_mark (c ∷ s) h = elim (Bool-cases (c == b'?')) [
  | inl e ↦ absurd (ground (arith, run-stop no_mark c s (ap not e)))
  | inr e ↦
      let other : (b'?' == c) ≡ false = ground arith in
      let go = run-go no_mark c s (ap not e) in
      rw other (ap (cons_first c) (cut-no_mark s (ground arith)))
]

module _ (lib : CommonLib) where
  -- the value of the first pair of that name
  unfoldable pub lookup_pair : Bytes → List (Bytes × Bytes) → Option Bytes
  lookup_pair name [] = none
  lookup_pair name ((key, value) ∷ pairs) =
      let rest = lookup_pair name pairs in if lib.compare_is_zero key name then some value else rest

  locate_query-mark : (path : Bytes) → locate_query lib path ≡ behind_mark path (cut mark path)
  unfolding locate_query
  locate_query-mark path = elim (Bool-cases (ltb (run no_mark path) (length path))) [
    | inl e ↦
        let i = run no_mark path in
        let next : i + 1 ≡ suc i = omega arith in
        let within : i < length path = ground arith in
        let rest = length path - (i + 1) in
        let size = length-drop (i + 1) path in
        rw (e, cut-mark path e)
          (lib.slice_lem path (i + 1) rest (omega arith)
            ∙ take_all rest (drop (i + 1) path) (omega arith)
            ∙ ap (λ (n : ℕ). drop n path) next)
    | inr e ↦ rw (e, cut-no_mark path e) refl
  ]

  find_loop-pairs :
      (q : Bytes) (cursor rounds : ℕ) (name : Bytes)
      → cursor ≤ length q
      → length q < cursor + rounds
      → find_loop lib rounds (record { query = q; cursor = cursor }) name
        ≡ lookup_pair name (pairs (drop cursor q))
  unfolding find_loop lookup_pair Found
  find_loop-pairs q cursor zero name h k = absurd (omega arith)
  find_loop-pairs q cursor (suc rounds) name h k = elim (iterator_next-pairs lib q cursor h) [
    | inl (e, left) ↦ rw (e, left, find_loop) refl
    | inr (key, value, next, e, left, forward, within) ↦
        rw (e, left, find_loop)
          (elim (Bool-cases (lib.compare_is_zero key name)) [
            | inl same ↦ rw same refl
            | inr other ↦ rw other (
                ap (λ (r : Iterator × Option (Bytes × Bytes)). find_loop lib rounds r.0 name) e
                ∙ find_loop-pairs q next rounds name within (omega arith))
          ])
  ]

  -- A lookup takes what is behind the first '?' of the path, or the whole of it, and answers with
  -- the value of the first pair of that name.
  pub find-pairs :
      (path name : Bytes)
      → find lib path name ≡ lookup_pair name (pairs (behind_mark path (cut mark path)))
  unfolding find iterator_init
  find-pairs path name =
      find_loop-pairs (locate_query lib path) 0 (length (locate_query lib path) + 1) name
        (omega arith) (omega arith)
      ∙ ap (λ (q : Bytes). lookup_pair name (pairs q)) (locate_query-mark path)
