-- ===== src/Query/Iteration.antt =====
-- http_query_iterator_next and http_query_find against the pairs of the query.
use http_c.Prelude.{
  ℕ, suc, ◌+◌, ◌-◌, ◌≤◌, ◌<◌, ◌≡◌, refl, sym, ap, ◌∙◌, true, false, ◌&&◌, Bool-cases, inl, inr,
  Option, none, some, [], ◌∷◌, length, drop, take, get_or, if◌then◌else◌, ◌==◌, ltb, leb, arith,
  ◌⊎◌, subst, length-drop, drop_add, drop_none,
}
use http_c.Common.{Bytes}
use http_c.Span.{CommonLib, or_whole}
use http_c.Span.Cut.{cut}
use http_c.Query.{run, separator, in_name, in_value, Iterator, iterator_next}
use http_c.Query.Pairs.{
  segments, pairs_of, pairs, pairs-separator, first-equals, first-no_equals, run_bound, at_equals,
  equals,
}
use http_c.Query.{found_pair, read_pair}
use http_c.Query.Cursor.{run_end, at_equals-drop, first_pair, pairs-first, cursor_behind}

-- What a successful call of http_query_iterator_next does from an index on.
unfoldable pub Found : Bytes → ℕ → Iterator × Option (Bytes × Bytes) → Type 0
Found q i result =
    (key : Bytes) × (value : Bytes) × (cursor : ℕ) × (result
      ≡ (record { query = q; cursor = cursor }, some (key, value)))
    × (pairs (drop i q) ≡ (key, value) ∷ pairs (drop cursor q))
    × (i < cursor)
    × (cursor ≤ length q)

List-cases : (s : Bytes) → 0 < length s → (c : ℕ) × (r : Bytes) × (s ≡ c ∷ r)
List-cases [] h = absurd (omega arith)
List-cases (c ∷ r) h = (c, r, refl)

module _ (lib : CommonLib) where
  found_pair-Found :
      (q : Bytes) (i k v m e : ℕ)
      → i < length q
      → i + k ≤ length q
      → v + m ≤ length q
      → i ≤ e
      → e ≤ length q
      → pairs (drop i q) ≡ (take k (drop i q), take m (drop v q)) ∷ pairs (drop (suc e) q)
      → Found q i (found_pair lib q i (i + k) v (v + m) e)
  unfolding Found
  found_pair-Found q i k v m e inside name value forward within split =
      let key : lib.slice q i ((i + k) - i) ≡ take k (drop i q) =
        ap (lib.slice q i) (omega arith) ∙ lib.slice_lem q i k name in
      let text : lib.slice q v ((v + m) - v) ≡ take m (drop v q) =
        ap (lib.slice q v) (omega arith) ∙ lib.slice_lem q v m value in
      (
        take k (drop i q),
        take m (drop v q),
        (if ltb e (length q) then e + 1 else length q),
        rw (key, text) refl,
        split
            ∙ ap (λ (t : Bytes). (take k (drop i q), take m (drop v q)) ∷ pairs t)
                (sym (cursor_behind q e within)),
        ground arith,
        ground arith,
      )

  read_pair-equals :
      (q : Bytes) (i n : ℕ)
      → (ltb n (length q) && get_or q n 0 == b'=') ≡ true
      → read_pair lib q i n
        ≡ found_pair lib q i n
            (n + 1)
            (n + 1 + run in_value (drop (n + 1) q))
            (n + 1 + run in_value (drop (n + 1) q))
  unfolding read_pair
  read_pair-equals q i n h = rw h refl

  read_pair-no_equals :
      (q : Bytes) (i n : ℕ)
      → (ltb n (length q) && get_or q n 0 == b'=') ≡ false
      → read_pair lib q i n ≡ found_pair lib q i n n n n
  unfolding read_pair
  read_pair-no_equals q i n h = rw h refl

  -- From the first byte of a pair on, where its name ends at a '='.
  read_pair_equals :
      (q : Bytes) (i : ℕ)
      → i < length q
      → at_equals (drop i q) (run in_name (drop i q)) ≡ true
      → pairs (drop i q) ≡ first_pair (drop i q)
      → Found q i (read_pair lib q i (i + run in_name (drop i q)))
  read_pair_equals q i inside e whole =
      let s = drop i q in
      let k = run in_name s in
      let m = run in_value s in
      let test = at_equals-drop q i k (omega arith) in
      let size = length-drop i q in
      let short = run_bound in_value s in
      let (sum, found) = first-equals s e in
      let v = i + k + 1 in
      let start : v ≡ i + suc k = omega arith in
      let rest : drop v q ≡ drop (suc k) s =
        ap (λ (n : ℕ). drop n q) start ∙ drop_add i (suc k) q in
      let l = run in_value (drop v q) in
      let same : l ≡ run in_value (drop (suc k) s) = ap (run in_value) rest in
      let split : pairs s ≡ (take k s, take l (drop v q)) ∷ pairs (drop (suc m) s) =
        whole
        ∙ ap (λ (o : Option (Bytes × Bytes)). or_whole (take m s) o ∷ pairs (drop (suc m) s)) found
        ∙ ap (λ (t : Bytes). (take k s, take (run in_value t) t) ∷ pairs (drop (suc m) s))
            (sym rest) in
      let last : i + suc m ≡ suc (v + l) = omega arith in
      let behind : drop (suc m) s ≡ drop (suc (v + l)) q =
        sym (drop_add i (suc m) q) ∙ ap (λ (n : ℕ). drop n q) last in
      subst (Found q i) (sym (read_pair-equals q i (i + k) (test ∙ e))) (
        found_pair-Found q i k v l (v + l) inside (omega arith) (omega arith) (omega arith)
          (omega arith)
          (split ∙ ap (λ (t : Bytes). (take k s, take l (drop v q)) ∷ pairs t) behind))

  -- The same where there is no '='.
  read_pair_plain :
      (q : Bytes) (i : ℕ)
      → i < length q
      → at_equals (drop i q) (run in_name (drop i q)) ≡ false
      → pairs (drop i q) ≡ first_pair (drop i q)
      → Found q i (read_pair lib q i (i + run in_name (drop i q)))
  read_pair_plain q i inside e whole =
      let s = drop i q in
      let k = run in_name s in
      let m = run in_value s in
      let test = at_equals-drop q i k (omega arith) in
      let size = length-drop i q in
      let short = run_bound in_value s in
      let (sum, found) = first-no_equals s e in
      let split : pairs s ≡ (take k s, take 0 (drop (i + k) q)) ∷ pairs (drop (suc m) s) =
        whole
        ∙ ap (λ (n : ℕ). or_whole (take n s) (cut equals (take n s)) ∷ pairs (drop (suc m) s)) sum
        ∙ ap (λ (o : Option (Bytes × Bytes)). or_whole (take k s) o ∷ pairs (drop (suc m) s))
            found in
      let empty : i + k + 0 ≡ i + k = omega arith in
      let last : i + suc m ≡ suc (i + k) = omega arith in
      let behind : drop (suc m) s ≡ drop (suc (i + k)) q =
        sym (drop_add i (suc m) q) ∙ ap (λ (n : ℕ). drop n q) last in
      subst (Found q i) (sym (read_pair-no_equals q i (i + k) (test ∙ e))) (
        subst (λ (n : ℕ). Found q i (found_pair lib q i (i + k) (i + k) n (i + k))) empty
          (found_pair-Found q i k (i + k) 0 (i + k) inside (omega arith) (omega arith) (omega arith)
            (omega arith)
            (split ∙ ap (λ (t : Bytes). (take k s, take 0 (drop (i + k) q)) ∷ pairs t) behind)))

  read_pair-Found :
      (q : Bytes) (i c : ℕ) (r : Bytes)
      → i < length q
      → drop i q ≡ c ∷ r
      → separator c ≡ false
      → Found q i (read_pair lib q i (i + run in_name (drop i q)))
  read_pair-Found q i c r inside front first =
      let whole =
        subst (λ (t : Bytes). pairs t ≡ first_pair t) (sym front) (pairs-first c r first) in
      elim (Bool-cases (at_equals (drop i q) (run in_name (drop i q)))) [
        | inl e ↦ read_pair_equals q i inside e whole
        | inr e ↦ read_pair_plain q i inside e whole
      ]

  -- http_query_iterator_next answers with the first of the pairs that are left and moves the
  -- cursor on to the others, within the query; or it answers that there is none, and none is left.
  pub iterator_next-pairs :
      (q : Bytes) (cursor : ℕ)
      → cursor ≤ length q
      → (((iterator_next lib (record { query = q; cursor = cursor })).1 ≡ none)
          × (pairs (drop cursor q) ≡ []))
        ⊎ Found q cursor (iterator_next lib (record { query = q; cursor = cursor }))
  unfolding iterator_next Found
  iterator_next-pairs q cursor h =
      let i = cursor + run separator (drop cursor q) in
      let skipped : pairs (drop cursor q) ≡ pairs (drop i q) =
        pairs-separator (drop cursor q)
        ∙ ap pairs (sym (drop_add cursor (run separator (drop cursor q)) q)) in
      elim (Bool-cases (leb (length q) i)) [
        | inl e ↦ inl (
          rw e refl,
          skipped
              ∙ ap pairs (drop_none i q (ground arith))
              ∙ unfold pairs segments pairs_of in refl,
        )
        | inr e ↦
            let inside : i < length q = ground arith in
            let (c, r, front) = List-cases (drop i q) (omega (arith, length-drop i q)) in
            let first =
              run_end separator (drop cursor q)
                (sym (drop_add cursor (run separator (drop cursor q)) q) ∙ front) in
            let (key, value, next, result, split, forward, within) =
              read_pair-Found q i c r inside front first in
            inr (key, value, next, rw e result, skipped ∙ split, omega arith, within)
      ]
