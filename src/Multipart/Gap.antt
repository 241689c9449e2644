-- ===== src/Multipart/Gap.antt =====
-- Where mp_iterator_next ends the data of a part: a CRLF in front of the boundary is left out.
use http_c.Prelude.{
  ℕ, zero, suc, ◌+◌, ◌-◌, ◌≡◌, ◌≤◌, ◌⊎◌, refl, sym, ap, ◌∙◌, true, false, Bool-cases, ◌&&◌, inl,
  inr, [], ◌∷◌, ◌++◌, length, length-append, length-drop, take, drop, get_or, ◌≢◌, drop_add,
  drop-append, append_assoc, length-take, subst, take-append-drop, take_none, leb, arith,
}
use http_c.Common.{Bytes, crlf}
use http_c.Span.{CommonLib}
use http_c.Multipart.{pair_at, data_end_of}

pub split_at : (c : Bytes) (i j : ℕ) → i ≤ j → drop i c ≡ take (j - i) (drop i c) ++ drop j c
split_at c i j h =
    let e : i + (j - i) ≡ j = omega arith in
    sym (take-append-drop (j - i) (drop i c))
    ∙ ap (λ (s : Bytes). take (j - i) (drop i c) ++ s)
        (sym (drop_add i (j - i) c) ∙ ap (λ (k : ℕ). drop k c) e)

pub pair_at_sound :
    (c : Bytes) (n a b : ℕ)
    → n + 2 ≤ length c
    → pair_at c n a b ≡ true
    → take 2 (drop n c) ≡ a ∷ b ∷ []
pair_at_sound [] n a b h e = absurd (omega arith)
pair_at_sound (x ∷ []) n a b h e = absurd (omega arith)
pair_at_sound (x ∷ y ∷ c) zero a b h e =
    let first : x ≡ a = ground arith in let second : y ≡ b = ground arith in rw (first, second) refl
pair_at_sound (x ∷ c) (suc n) a b h e = pair_at_sound c n a b (omega arith) e

pub pair_at_complete :
    (c : Bytes) (n a b : ℕ) (s : Bytes) → drop n c ≡ a ∷ b ∷ s → pair_at c n a b ≡ true
pair_at_complete [] zero a b s e = absurd (omega (arith, ap length e))
pair_at_complete [] (suc n) a b s e = absurd (omega (arith, ap length e))
pair_at_complete (x ∷ []) zero a b s e = absurd (omega (arith, ap length e))
pair_at_complete (x ∷ y ∷ c) zero a b s e =
    let first : x ≡ a = ap (λ (t : Bytes). get_or t 0 0) e in
    let second : y ≡ b = ap (λ (t : Bytes). get_or t 1 0) e in ground arith
pair_at_complete (x ∷ c) (suc n) a b s e = pair_at_complete c n a b s e

-- No text in front makes it from those two bytes.
abbrev pub EndsOtherwise : Bytes → Bytes → Type 0
EndsOtherwise text ending = (front : Bytes) → text ≢ front ++ ending

abbrev pub StartsOtherwise : Bytes → Bytes → Type 0
StartsOtherwise text start = (behind : Bytes) → text ≢ start ++ behind

module _ (lib : CommonLib) where
  pub data_end-bounds :
      (c : Bytes) (body_start next_b : ℕ)
      → body_start ≤ next_b
      → (body_start ≤ data_end_of lib c body_start next_b)
        × (data_end_of lib c body_start next_b ≤ next_b)
  data_end-bounds c body_start next_b h = (ground arith, ground arith)

  -- Where the data would end with a CRLF, that is left out.
  ends_otherwise :
      (c : Bytes) (body_start next_b : ℕ)
      → body_start ≤ next_b
      → next_b ≤ length c
      → (leb (body_start + 2) next_b && pair_at c (next_b - 2) b'\r' b'\n') ≡ false
      → EndsOtherwise (take (next_b - body_start) (drop body_start c)) crlf
  ends_otherwise c body_start next_b low high kept front e =
      let size = length-take (next_b - body_start) (drop body_start c) in
      let left = length-drop body_start c in
      let two = ap length e in
      let sum = length-append front crlf in
      let at : next_b - 2 ≡ body_start + length front = omega arith in
      let there : drop (next_b - 2) c
          ≡ b'\r' ∷ b'\n' ∷ drop (next_b - body_start) (drop body_start c) =
        ap (λ (k : ℕ). drop k c) at
        ∙ drop_add body_start (length front) c
        ∙ ap (drop (length front)) (
            sym (take-append-drop (next_b - body_start) (drop body_start c))
            ∙ ap (λ (s : Bytes). s ++ drop (next_b - body_start) (drop body_start c)) e
            ∙ append_assoc front crlf (drop (next_b - body_start) (drop body_start c)))
        ∙ drop-append (length front) front (crlf ++ drop (next_b - body_start) (drop body_start c))
            refl in
      let pair =
        pair_at_complete c (next_b - 2) b'\r' b'\n' (drop (next_b - body_start) (drop body_start c))
          there in
      absurd (ground arith)

  pub gap_of :
      (c : Bytes) (body_start next_b : ℕ)
      → body_start ≤ next_b
      → next_b ≤ length c
      → let data_end = data_end_of lib c body_start next_b in
        let gap = take (next_b - data_end) (drop data_end c) in
        ((gap ≡ []) × EndsOtherwise (take (data_end - body_start) (drop body_start c)) crlf)
        ⊎ (gap ≡ crlf)
  gap_of c body_start next_b low h =
      let data_end = data_end_of lib c body_start next_b in
      elim (Bool-cases (leb (body_start + 2) next_b && pair_at c (next_b - 2) b'\r' b'\n')) [
        | inl e ↦
            let two_before : data_end ≡ next_b - 2 = ground arith in
            let two : next_b - data_end ≡ 2 = ground arith in
            inr (
              ap (λ (k : ℕ). take k (drop data_end c)) two
              ∙ ap (λ (k : ℕ). take 2 (drop k c)) two_before
              ∙ pair_at_sound c (next_b - 2) b'\r' b'\n' (ground arith) (ground arith))
        | inr e ↦
            let whole : data_end ≡ next_b = ground arith in
            let at_end : next_b - data_end ≡ 0 = omega arith in
            inl (
              take_none (next_b - data_end) (drop data_end c) at_end,
              subst (λ (k : ℕ). EndsOtherwise (take (k - body_start) (drop body_start c)) crlf)
                  (sym whole) (ends_otherwise c body_start next_b low h e),
            )
      ]
