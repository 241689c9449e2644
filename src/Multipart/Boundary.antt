-- ===== src/Multipart/Boundary.antt =====
-- Where find_boundary answers with a position, the boundary stands there behind two dashes.
use http_c.Prelude.{
  ℕ, zero, suc, ◌+◌, ◌≡◌, ◌≤◌, ◌<◌, refl, sym, ap, ◌∙◌, true, Bool-cases, inl, inr, some,
  Option-cases, [], ◌∷◌, ◌++◌, length, length-append, length-drop, take, drop, drop_add,
  drop-append, take-append-drop, arith,
}
use http_c.Common.{Bytes}
use http_c.Span.{CommonLib, place}
use http_c.Span.Cut.{cut, cut_sound}
use http_c.Multipart.{dash_dash, same_bytes, boundary_at, as_int, boundary_loop, find_boundary}

same_bytes_sound : (a b : Bytes) → same_bytes a b ≡ true → a ≡ b
same_bytes_sound [] [] h = refl
same_bytes_sound [] (b ∷ t) h = absurd (ground arith)
same_bytes_sound (a ∷ s) [] h = absurd (ground arith)
same_bytes_sound (a ∷ s) (b ∷ t) h =
    let first : a ≡ b = ground arith in
    let rest = same_bytes_sound s t (ground arith) in rw (first, rest) refl

-- The boundary stands behind two dashes at that position of the text.
pub record StandsAt (boundary text : Bytes) (position : ℕ) : Type 0 where
  pub rest : Bytes
  pub inside : position ≤ length text
  pub text_there : drop position text ≡ dash_dash ++ (boundary ++ rest)

module _ (lib : CommonLib) (cursor boundary : Bytes) where
  boundary_at_sound :
      (position : ℕ)
      → position ≤ length cursor
      → boundary_at lib cursor boundary position ≡ true
      → drop position cursor ≡ boundary ++ drop (length boundary) (drop position cursor)
  boundary_at_sound position h e =
      let there = lib.slice_to_end_lem cursor position h in
      let candidate = lib.slice_to_end cursor position in
      let same : take (length boundary) candidate ≡ boundary =
        same_bytes_sound (take (length boundary) candidate) boundary (ground arith) in
      sym there
      ∙ sym (take-append-drop (length boundary) candidate)
      ∙ ap (λ (s : Bytes). s ++ drop (length boundary) candidate) same
      ∙ ap (λ (s : Bytes). boundary ++ drop (length boundary) s) there

  as_int-some : (n : ℕ) {p : ℕ} → as_int lib n ≡ some p → n ≡ p
  as_int-some n h = ground arith

  boundary_loop_sound :
      (fuel at : ℕ) (rem : Bytes) {p : ℕ}
      → at ≤ length cursor
      → drop at cursor ≡ rem
      → boundary_loop lib fuel cursor boundary at rem ≡ some p
      → (at ≤ p) × StandsAt boundary cursor p
  unfolding boundary_loop
  boundary_loop_sound zero at rem h same e = absurd (ground arith)
  boundary_loop_sound (suc fuel) at [] h same e = absurd (ground arith)
  boundary_loop_sound (suc fuel) at (c ∷ rem) {p} h same e =
      elim (Option-cases (cut dash_dash (c ∷ rem))) [
        | inl absent ↦
            let none_found = lib.find_lem (c ∷ rem) b'-' (b'-' ∷ []) ∙ ap place absent in
            absurd (ground arith)
        | inr ((a, b), seen) ↦
            let found = lib.find_lem (c ∷ rem) b'-' (b'-' ∷ []) ∙ ap place seen in
            let split = cut_sound dash_dash (c ∷ rem) seen in
            let here : drop (at + length a) cursor ≡ dash_dash ++ b =
              drop_add at (length a) cursor
              ∙ ap (drop (length a)) (same ∙ split)
              ∙ drop-append (length a) a (dash_dash ++ b) refl in
            let behind : drop (at + length a + 2) cursor ≡ b =
              drop_add (at + length a) 2 cursor ∙ ap (drop 2) here in
            let sizes : length cursor ≡ at + length a + 2 + length b = omega (
              arith,
              length-drop at cursor,
              ap length same,
              ap length split,
              length-append a (dash_dash ++ b),
            ) in
            elim (Bool-cases (boundary_at lib cursor boundary (at + length a + 2))) [
              | inl there ↦
                  let n : as_int lib (at + length a) ≡ some p =
                    sym (rw (found, there, boundary_loop) refl) ∙ e in
                  let same_p = as_int-some (at + length a) n in
                  (
                    omega arith,
                    record {
                      rest = drop (length boundary) b;
                      inside = omega arith;
                      text_there =
                          ap (λ (k : ℕ). drop k cursor) (sym same_p)
                          ∙ here
                          ∙ ap (λ (s : Bytes). dash_dash ++ s)
                              (sym behind
                                ∙ boundary_at_sound (at + length a + 2) (omega arith) there
                                ∙ ap (λ (s : Bytes). boundary ++ drop (length boundary) s) behind);
                    },
                  )
              | inr not_there ↦
                  let next : boundary_loop lib fuel cursor boundary (at + length a + 2) b ≡ some p =
                    sym (rw (found, not_there, boundary_loop) refl) ∙ e in
                  let (later, stands) =
                    boundary_loop_sound fuel (at + length a + 2) b (omega arith) behind next in
                  (omega arith, stands)
            ]
      ]

  -- A position that find_boundary answers with lies at the offset or behind it, and the boundary
  -- stands there behind two dashes.
  pub find_boundary_sound :
      (offset : ℕ) {p : ℕ}
      → offset ≤ length cursor
      → find_boundary lib cursor offset boundary ≡ some p
      → (offset ≤ p) × StandsAt boundary cursor p
  unfolding find_boundary
  find_boundary_sound offset h e =
      boundary_loop_sound (suc (length cursor)) offset (lib.slice_to_end cursor offset) h
        (sym (lib.slice_to_end_lem cursor offset h)) e

  -- A round takes two bytes at least: with more fuel than bytes, one more round of fuel changes
  -- nothing.
  pub boundary_loop-enough :
      (fuel at : ℕ) (rem : Bytes)
      → length rem < fuel
      → boundary_loop lib (suc fuel) cursor boundary at rem
        ≡ boundary_loop lib fuel cursor boundary at rem
  unfolding boundary_loop
  boundary_loop-enough zero at rem h = absurd (omega arith)
  boundary_loop-enough (suc fuel) at [] h = refl
  boundary_loop-enough (suc fuel) at (c ∷ rem) h = elim (Option-cases (cut dash_dash (c ∷ rem))) [
    | inl absent ↦
        let none_found = lib.find_lem (c ∷ rem) b'-' (b'-' ∷ []) ∙ ap place absent in
        rw (none_found, boundary_loop) refl
    | inr ((a, b), seen) ↦
        let found = lib.find_lem (c ∷ rem) b'-' (b'-' ∷ []) ∙ ap place seen in
        let split = ap length (cut_sound dash_dash (c ∷ rem) seen) in
        let split' = length-append a (dash_dash ++ b) in
        elim (Bool-cases (boundary_at lib cursor boundary (at + length a + 2))) [
          | inl there ↦ rw (found, there, boundary_loop) refl
          | inr not_there ↦
              rw (found, not_there, boundary_loop)
                (boundary_loop-enough fuel (at + length a + 2) b (omega arith))
        ]
  ]
