-- ===== src/Multipart/Taking.antt =====
-- What mp_iterator_next takes behind a boundary: header lines, a blank line, and the data.
use http_c.Prelude.{
  ℕ, zero, suc, ◌+◌, ◌-◌, ◌≡◌, ◌≤◌, ◌<◌, ◌⊎◌, refl, sym, ap, ◌∙◌, inl, inr, Option, none, some,
  Option-cases, [], ◌∷◌, ◌++◌, length, length-append, length-drop, take, drop, drop_add,
  drop-append, append_assoc, subst, arith,
}
use http_c.Common.{Bytes, crlf, headers_terminator}
use http_c.Span.{CommonLib, place}
use http_c.Span.Cut.{cut, cut_sound}
use http_c.Multipart.{
  MpIterator, MpPart, finished, dash_dash, find_boundary, parse_header_line, store_field,
  field_loop, data_end_of, part_between, part_behind,
}
use http_c.Multipart.Boundary.{StandsAt, find_boundary_sound}
use http_c.Multipart.Gap.{split_at, EndsOtherwise, data_end-bounds, gap_of}

module _ (lib : CommonLib) where
  store_field-part_data :
      (part : MpPart) (field : Bytes × Bytes)
      → (store_field lib part field).part_data ≡ part.part_data
  unfolding store_field
  store_field-part_data part (name, value) = ground arith

  field_loop-part_data :
      (fuel : ℕ) (cursor : Bytes) (part : MpPart)
      → (field_loop lib fuel cursor part).part_data ≡ part.part_data
  unfolding field_loop
  field_loop-part_data zero cursor part = refl
  field_loop-part_data (suc fuel) cursor part =
      elim (Option-cases (parse_header_line lib cursor).0) [
        | inl e ↦ rw (e, field_loop) refl
        | inr (f, e) ↦
            rw (e, field_loop)
              (field_loop-part_data fuel (parse_header_line lib cursor).1 (store_field lib part f)
                ∙ store_field-part_data part f)
      ]

  -- What stands in the cursor from a position on, where a part's data starts: the data, then at
  -- most a CRLF, then the next boundary, at which the iterator after it stands.
  pub record TakesData (it it' : MpIterator) (part : MpPart) (body_start : ℕ) : Type 0 where
    pub gap : Bytes
    pub rest : Bytes
    pub behind : drop body_start it.cursor ≡ part.part_data ++ (gap ++ it'.cursor)
    pub gap_is : ((gap ≡ []) × EndsOtherwise part.part_data crlf) ⊎ (gap ≡ crlf)
    pub next : it'.cursor ≡ dash_dash ++ (it.boundary ++ rest)
    pub same : (it'.boundary ≡ it.boundary) × (it'.done ≡ it.done)
    pub shorter : length it'.cursor < length it.cursor

  -- The same behind the header lines, which end with the first blank line.
  pub record TakesFields (it it' : MpIterator) (part : MpPart) (after : ℕ) : Type 0 where
    pub fields : Bytes
    pub data_start : ℕ
    pub first_blank :
        cut headers_terminator (drop after it.cursor) ≡ some (fields, drop data_start it.cursor)
    pub takes : TakesData it it' part data_start

  abbrev data_of : Option MpPart → Bytes
  data_of none = []
  data_of (some part) = part.part_data

  part_between-TakesData :
      (it : MpIterator) (hdrs_block : Bytes) (body_start next_b : ℕ) {it' : MpIterator}
      {part : MpPart}
      → 0 < body_start
      → body_start ≤ next_b
      → StandsAt it.boundary it.cursor next_b
      → part_between lib it hdrs_block body_start next_b ≡ (it', some part)
      → TakesData it it' part body_start
  unfolding part_between
  part_between-TakesData it hdrs_block body_start next_b {it'} {part} positive order stands e =
      let c = it.cursor in
      let data_end = data_end_of lib c body_start next_b in
      let (low, high) = data_end-bounds lib c body_start next_b order in
      let gap = take (next_b - data_end) (drop data_end c) in
      let inside = stands.inside in
      let moved : lib.slice_to_end c next_b ≡ it'.cursor =
        ap (λ (r : MpIterator × Option MpPart). r.0.cursor) e in
      let there = lib.slice_to_end_lem c next_b inside in
      let cursor' : it'.cursor ≡ drop next_b c = sym moved ∙ there in
      let sized : body_start + (data_end - body_start) ≤ length c = omega arith in
      let sliced = lib.slice_lem c body_start (data_end - body_start) sized in
      let given : part.part_data ≡ take (data_end - body_start) (drop body_start c) =
        sym (ap (λ (r : MpIterator × Option MpPart). data_of r.1) e)
        ∙ field_loop-part_data (suc (length hdrs_block)) hdrs_block (record {
          name = [];
          filename = [];
          content_type = [];
          part_data = lib.slice c body_start (data_end - body_start);
        })
        ∙ sliced in
      let shape : drop body_start c
          ≡ take (data_end - body_start) (drop body_start c) ++ (gap ++ drop next_b c) =
        split_at c body_start data_end low
        ∙ ap (λ (s : Bytes). take (data_end - body_start) (drop body_start c) ++ s)
            (split_at c data_end next_b high) in
      record {
        gap = gap;
        rest = stands.rest;
        behind =
            shape
            ∙ ap (λ (s : Bytes). s ++ (gap ++ drop next_b c)) (sym given)
            ∙ ap (λ (s : Bytes). part.part_data ++ (gap ++ s)) (sym cursor');
        gap_is =
            subst (λ (s : Bytes). ((gap ≡ []) × EndsOtherwise s crlf) ⊎ (gap ≡ crlf)) (sym given)
              (gap_of lib c body_start next_b order inside);
        next = cursor' ∙ stands.text_there;
        same = (
          sym (ap (λ (r : MpIterator × Option MpPart). r.0.boundary) e),
          sym (ap (λ (r : MpIterator × Option MpPart). r.0.done) e),
        );
        shorter = omega (arith, ap length cursor', length-drop next_b c);
      }

  pub no_part {ℓ} :
      {A : Type ℓ} (it : MpIterator) {it' : MpIterator} {part : MpPart}
      → finished lib it ≡ (it', some part)
      → A
  no_part it {it'} {part} e =
      let nothing : none ≡ some part = ap (λ (r : MpIterator × Option MpPart). r.1) e in
      absurd (ground arith)

  behind_blank :
      (c : Bytes) (after : ℕ) (a b : Bytes)
      → drop after c ≡ a ++ (headers_terminator ++ b)
      → drop (after + length a + 4) c ≡ b
  behind_blank c after a b e =
      let sum : after + length a + 4 ≡ after + (length a + 4) = omega arith in
      ap (λ (k : ℕ). drop k c) sum
      ∙ drop_add after (length a + 4) c
      ∙ ap (drop (length a + 4)) (e ∙ sym (append_assoc a headers_terminator b))
      ∙ drop-append (length a + 4) (a ++ headers_terminator) b
          (omega (arith, length-append a headers_terminator))

  pub part_behind-TakesFields :
      (it : MpIterator) (after : ℕ) {it' : MpIterator} {part : MpPart}
      → after ≤ length it.cursor
      → part_behind lib it after ≡ (it', some part)
      → TakesFields it it' part after
  unfolding part_behind
  part_behind-TakesFields it after {it'} {part} h e =
      let c = it.cursor in
      let area = lib.slice_to_end c after in
      let area_size = ap length (lib.slice_to_end_lem c after h) ∙ length-drop after c in
      elim (Option-cases (cut headers_terminator area)) [
        | inl absent ↦
            let none_found =
              lib.find_lem area b'\r' (b'\n' ∷ b'\r' ∷ b'\n' ∷ []) ∙ ap place absent in
            no_part it (sym (rw (none_found, part_behind) refl) ∙ e)
        | inr ((a, b), seen) ↦
            let found = lib.find_lem area b'\r' (b'\n' ∷ b'\r' ∷ b'\n' ∷ []) ∙ ap place seen in
            let split = ap length (cut_sound headers_terminator area seen) in
            let split' = length-append a (headers_terminator ++ b) in
            let start = after + length a + 4 in
            elim (Option-cases (find_boundary lib c start it.boundary)) [
              | inl absent ↦ no_part it (sym (rw (found, absent, part_behind) refl) ∙ e)
              | inr (next_b, stood) ↦
                  let (order, stands) =
                    find_boundary_sound lib c it.boundary start (omega arith) stood in
                  record {
                    fields = a;
                    data_start = start;
                    first_blank =
                        ap (cut headers_terminator) (sym (lib.slice_to_end_lem c after h))
                        ∙ seen
                        ∙ ap (λ (s : Bytes). some (a, s))
                            (sym (
                              behind_blank c after a b (
                                sym (lib.slice_to_end_lem c after h)
                                ∙ cut_sound headers_terminator area seen)));
                    takes =
                        part_between-TakesData it (lib.slice area 0 (length a + 2)) start next_b
                          (omega arith) order stands
                          (sym (rw (found, stood, part_behind) refl) ∙ e);
                  }
            ]
      ]
