-- ===== src/Endpoint/Covers.antt =====
-- Which hosts an entry of the no_proxy list covers.
use http_c.Prelude.{
  ℕ, zero, suc, ◌-◌, ◌≡◌, ◌<◌, ◌⊎◌, ◌↔◌, ◌≢◌, ◌==◌, ==_iff, ◌&&◌, false, refl, sym, ap, ◌∙◌, true,
  Bool-cases, inl, inr, [], ◌∷◌, ◌++◌, map, length, length-append, get_or, take, drop,
  take-append-drop, drop-append, arith,
}
use http_c.Common.{Bytes}
use http_c.Span.{CommonLib, lower}
use http_c.Headers.{is_empty}
use http_c.Endpoint.{
  entry_bypasses, normal_entry, trim_blanks, to_lower_ascii, equals_ignoring_case, covers,
}

abbrev lowered : Bytes → Bytes
lowered text = map lower text

to_lower_ascii-lower : (c : ℕ) → to_lower_ascii c ≡ lower c
to_lower_ascii-lower c = ground arith

equals_ignoring_case-lowered :
    (a b : Bytes) → equals_ignoring_case a b ≡ true → lowered a ≡ lowered b
unfolding equals_ignoring_case
equals_ignoring_case-lowered [] [] h = refl
equals_ignoring_case-lowered [] (b ∷ t) h = absurd (ground arith)
equals_ignoring_case-lowered (a ∷ s) [] h = absurd (ground arith)
equals_ignoring_case-lowered (a ∷ s) (b ∷ t) h =
    let first : lower a ≡ lower b =
      ground (arith, to_lower_ascii-lower a, to_lower_ascii-lower b) in
    let rest = equals_ignoring_case-lowered s t (ground arith) in
    ap (λ (x : ℕ). x ∷ lowered s) first ∙ ap (λ (xs : Bytes). lower b ∷ xs) rest

abbrev front_of : Bytes → ℕ
front_of text = get_or text 0 0

lowered-equals_ignoring_case :
    (a b : Bytes) → lowered a ≡ lowered b → equals_ignoring_case a b ≡ true
unfolding equals_ignoring_case
lowered-equals_ignoring_case [] [] h = refl
lowered-equals_ignoring_case [] (b ∷ t) h = absurd (omega (arith, ap length h))
lowered-equals_ignoring_case (a ∷ s) [] h = absurd (omega (arith, ap length h))
lowered-equals_ignoring_case (a ∷ s) (b ∷ t) h =
    let first : lower a ≡ lower b = ap front_of h in
    let rest = lowered-equals_ignoring_case s t (ap (drop 1) h) in
    ground (arith, to_lower_ascii-lower a, to_lower_ascii-lower b)

length-lowered : (a : Bytes) → length (lowered a) ≡ length a
length-lowered [] = refl
length-lowered (c ∷ a) = omega (arith, length-lowered a)

drop-lowered : (n : ℕ) (a : Bytes) → drop n (lowered a) ≡ lowered (drop n a)
drop-lowered zero a = refl
drop-lowered (suc n) [] = refl
drop-lowered (suc n) (c ∷ a) = drop-lowered n a

lowered-append : (a b : Bytes) → lowered (a ++ b) ≡ lowered a ++ lowered b
lowered-append [] b = refl
lowered-append (c ∷ a) b = ap (◌∷◌ (lower c)) (lowered-append a b)

drop-get_or : (n : ℕ) (a : Bytes) → n < length a → drop n a ≡ get_or a n 0 ∷ drop (suc n) a
drop-get_or n [] h = absurd (omega arith)
drop-get_or zero (c ∷ a) h = refl
drop-get_or (suc n) (c ∷ a) h = drop-get_or n a (omega arith)

lower_dot : (c : ℕ) → lower c ≡ b'.' → c ≡ b'.'
lower_dot c h = ground arith

-- The host is the name, or lies below it, in ASCII letters of either case.
unfoldable pub Covers : Bytes → Bytes → Type 0
Covers host name =
    (lowered host ≡ lowered name)
    ⊎ ((front : Bytes) × (lowered host ≡ front ++ (b'.' ∷ lowered name)))

module _ (lib : CommonLib) where
  below-Covers :
      (host name : Bytes)
      → length name < length host
      → get_or host (length host - length name - 1) 0 ≡ b'.'
      → lowered (lib.slice_to_end host (length host - length name)) ≡ lowered name
      → Covers host name
  unfolding Covers
  below-Covers host name longer dot same =
      let k = length host - length name - 1 in
      let e : length host - length name ≡ suc k = omega arith in
      let behind =
        sym (
          ap lowered (lib.slice_to_end_lem host (length host - length name) (omega arith))
          ∙ ap (λ (n : ℕ). lowered (drop n host)) e)
        ∙ same in
      inr (
        lowered (take k host),
        ap lowered (sym (take-append-drop k host))
            ∙ lowered-append (take k host) (drop k host)
            ∙ ap (λ (s : Bytes). lowered (take k host) ++ s)
                (ap lowered (drop-get_or k host (omega arith))
                  ∙ ap (λ (c : ℕ). lower c ∷ lowered (drop (suc k) host)) dot
                  ∙ ap (◌∷◌ b'.') behind),
      )

  covers-dotted :
      (host name front : Bytes)
      → lowered host ≡ front ++ (b'.' ∷ lowered name)
      → covers lib host name ≡ true
  unfolding covers
  covers-dotted host name front e =
      let n = length host - length name in
      let k = n - 1 in
      let l1 = ap length e in
      let l2 = length-append front (b'.' ∷ lowered name) in
      let l3 = length-lowered host in
      let l4 = length-lowered name in
      let k_front : k ≡ length front = omega arith in
      let n_next : n ≡ suc k = omega arith in
      let inside : k < length host = omega arith in
      let there : lowered (get_or host k 0 ∷ drop (suc k) host) ≡ b'.' ∷ lowered name =
        ap lowered (sym (drop-get_or k host inside))
        ∙ sym (drop-lowered k host)
        ∙ ap (drop k) e
        ∙ drop-append k front (b'.' ∷ lowered name) k_front in
      let dot = lower_dot (get_or host k 0) (ap front_of there) in
      let same : lowered (lib.slice_to_end host n) ≡ lowered name =
        ap lowered (lib.slice_to_end_lem host n (omega arith))
        ∙ ap (λ (m : ℕ). lowered (drop m host)) n_next
        ∙ ap (drop 1) there in
      let equal = lowered-equals_ignoring_case (lib.slice_to_end host n) name same in ground arith

  covers_iff : (host name : Bytes) → (covers lib host name ≡ true) ↔ Covers host name
  unfolding covers Covers
  covers_iff host name = (
    λ h. elim (Bool-cases (equals_ignoring_case host name)) [
      | inl e ↦ inl (equals_ignoring_case-lowered host name e)
      | inr e ↦ below-Covers host name (ground arith) (ground arith) (
          equals_ignoring_case-lowered (lib.slice_to_end host (length host - length name)) name
            (ground arith))
    ],
    λ c. elim c [
      | inl e ↦ (let same = lowered-equals_ignoring_case host name e in ground arith)
      | inr (front, e) ↦ covers-dotted host name front e
    ],
  )

  star : (s : Bytes) → ((length s == 1) && (get_or s 0 0 == b'*')) ≡ true → s ≡ b'*' ∷ []
  star [] h = absurd (ground arith)
  star (c ∷ []) h = ap (λ (x : ℕ). x ∷ []) ((==_iff c b'*').0 h)
  star (c ∷ d ∷ s) h = absurd (ground arith)

  nothing_in : (s : Bytes) → is_empty s ≡ true → s ≡ []
  nothing_in [] h = refl
  nothing_in (c ∷ s) h = absurd (ground arith)

  something_in : (s : Bytes) → is_empty s ≡ false → s ≢ []
  something_in s h e = absurd (ground (arith, e))

  not_empty : (s : Bytes) → s ≢ [] → is_empty s ≡ false
  not_empty [] h = absurd (h refl)
  not_empty (c ∷ s) h = refl

  -- An entry without blanks around it lets a host past: it is a star, or its name covers the host.
  abbrev pub Excludes : Bytes → Bytes → Type 0
  Excludes host entry =
      (entry ≡ b'*' ∷ [])
      ⊎ ((entry ≢ []) × (normal_entry lib entry ≢ []) × Covers host (normal_entry lib entry))

  -- An entry of the list, without the blanks around it, lets past every host where it is a star,
  -- and otherwise, where it and its name are not empty, exactly the hosts that are its name or end
  -- in a full stop and its name, in ASCII letters of either case. Its name is what normal_entry
  -- makes of it.
  pub entry_bypasses_iff :
      (host entry : Bytes)
      → (entry_bypasses lib host entry ≡ true) ↔ Excludes host (trim_blanks lib entry)
  unfolding entry_bypasses
  entry_bypasses_iff host entry =
      let entry' = trim_blanks lib entry in
      let name = normal_entry lib entry' in
      (
        λ h. elim (Bool-cases ((length entry' == 1) && (get_or entry' 0 0 == b'*'))) [
          | inl e ↦ inl (star entry' e)
          | inr e ↦ inr (
            something_in entry' (ground arith),
            something_in name (ground arith),
            (covers_iff host name).0 (ground arith),
          )
        ],
        λ x. elim x [
          | inl e ↦ rw (e, entry_bypasses) refl
          | inr (some_entry, some_name, covered) ↦
              (let present = not_empty entry' some_entry in
                let named = not_empty name some_name in
                let covering = (covers_iff host name).1 covered in ground arith)
        ],
      )
