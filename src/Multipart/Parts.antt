-- ===== src/Multipart/Parts.antt =====
-- What mp_iterator_next takes out of the body, and that it moves on.
use http_c.Prelude.{
  ℕ, ◌+◌, ◌≡◌, ◌≤◌, ◌<◌, ◌⊎◌, refl, sym, ap, ◌∙◌, Bool, Bool-cases, ◌&&◌, inl, inr, Option, none,
  some, [], ◌++◌, length, length-append, length-drop, take, drop, drop_add, drop-append, subst,
  take-append-drop, leb, arith, if◌then◌else◌,
}
use http_c.Common.{Bytes, crlf, headers_terminator}
use http_c.Span.{CommonLib}
use http_c.Span.Cut.{cut, cut_sound}
use http_c.Multipart.{
  MpIterator, MpPart, finished, dash_dash, pair_at, find_boundary, skip_line_end, part_behind,
  part_from, mp_iterator_next,
}
use http_c.Multipart.Gap.{pair_at_sound, pair_at_complete, EndsOtherwise, StartsOtherwise}
use http_c.Multipart.Taking.{TakesFields, no_part, part_behind-TakesFields}
use http_c.Multipart.Boundary.{StandsAt, find_boundary_sound}

module _ (lib : CommonLib) where
  -- A part of an iterator's body: behind a boundary, which two dashes precede and the end of the
  -- line may follow, the header lines up to the first blank line, the part's data, then at most a
  -- CRLF, then the next boundary, at which the iterator after it stands.
  pub record TakesPart (it it' : MpIterator) (part : MpPart) : Type 0 where
    pub front : Bytes
    pub line_end : Bytes
    pub fields : Bytes
    pub gap : Bytes
    pub rest : Bytes
    pub behind : Bytes
    pub text : it.cursor ≡ front ++ (dash_dash ++ (it.boundary ++ (line_end ++ behind)))
    pub line_end_is : ((line_end ≡ []) × StartsOtherwise behind crlf) ⊎ (line_end ≡ crlf)
    pub behind_is :
        behind ≡ fields ++ (headers_terminator ++ (part.part_data ++ (gap ++ it'.cursor)))
    pub first_blank :
        cut headers_terminator behind ≡ some (fields, part.part_data ++ (gap ++ it'.cursor))
    pub gap_is : ((gap ≡ []) × EndsOtherwise part.part_data crlf) ⊎ (gap ≡ crlf)
    pub next : it'.cursor ≡ dash_dash ++ (it.boundary ++ rest)
    pub same : (it'.boundary ≡ it.boundary) × (it'.done ≡ it.done)
    pub shorter : length it'.cursor < length it.cursor

  skip_line_end-bounds :
      (tail : Bytes) (after : ℕ)
      → (after ≤ skip_line_end lib tail after)
        × (skip_line_end lib tail after ≤ after + length tail)
  skip_line_end-bounds tail after = (ground arith, ground arith)

  -- What skip_line_end passes over is nothing or a CRLF.
  skipped :
      (c : Bytes) (after : ℕ)
      → after ≤ length c
      → let behind = drop (skip_line_end lib (lib.slice_to_end c after) after) c in
        (line_end : Bytes) × (((line_end ≡ []) × StartsOtherwise behind crlf) ⊎ (line_end ≡ crlf))
        × (drop after c ≡ line_end ++ behind)
  skipped c after h =
      let tail = lib.slice_to_end c after in
      let there : tail ≡ drop after c = lib.slice_to_end_lem c after h in
      elim (Bool-cases (leb 2 (length tail) && pair_at tail 0 b'\r' b'\n')) [
        | inl e ↦
            let two : take 2 tail ≡ crlf =
              pair_at_sound tail 0 b'\r' b'\n' (ground arith) (ground arith) in
            let on : skip_line_end lib tail after ≡ after + 2 = ground arith in
            (
              crlf,
              inr refl,
              sym there
                  ∙ sym (take-append-drop 2 tail)
                  ∙ ap (λ (s : Bytes). s ++ drop 2 tail) two
                  ∙ ap (λ (s : Bytes). crlf ++ drop 2 s) there
                  ∙ ap (λ (s : Bytes). crlf ++ s)
                      (sym (drop_add after 2 c) ∙ ap (λ (k : ℕ). drop k c) (sym on)),
            )
        | inr e ↦
            let on : skip_line_end lib tail after ≡ after = ground arith in
            let none_there : StartsOtherwise (drop after c) crlf = λ s f.
              let same : tail ≡ crlf ++ s = there ∙ f in
              let two = ap length same in
              let pair = pair_at_complete tail 0 b'\r' b'\n' s same in absurd (ground arith) in
            (
              [],
              inl (refl, subst (λ (k : ℕ). StartsOtherwise (drop k c) crlf) (sym on) none_there),
              ap (λ (k : ℕ). drop k c) (sym on),
            )
      ]

  whole_part :
      (it : MpIterator) (position : ℕ) {it' : MpIterator} {part : MpPart}
      → StandsAt it.boundary it.cursor position
      → let after = position + 2 + length it.boundary in
        TakesFields lib it it' part (skip_line_end lib (lib.slice_to_end it.cursor after) after)
        → TakesPart it it' part
  whole_part it position {it'} {part} there f =
      let c = it.cursor in
      let after = position + 2 + length it.boundary in
      let size = ap length there.text_there in
      let size' = length-append it.boundary there.rest in
      let inside = there.inside in
      let bound : after ≤ length c = omega (arith, length-drop position c) in
      let sum : after ≡ position + (2 + length it.boundary) = omega arith in
      let left : drop after c ≡ there.rest =
        ap (λ (k : ℕ). drop k c) sum
        ∙ drop_add position (2 + length it.boundary) c
        ∙ ap (drop (2 + length it.boundary)) there.text_there
        ∙ drop-append (2 + length it.boundary) (dash_dash ++ it.boundary) there.rest
            (omega arith) in
      let (line_end, line_end_is, skips) = skipped c after bound in
      let behind = drop (skip_line_end lib (lib.slice_to_end c after) after) c in
      let d = f.takes in
      let blank : cut headers_terminator behind
          ≡ some (f.fields, part.part_data ++ (d.gap ++ it'.cursor)) =
        f.first_blank ∙ ap (λ (s : Bytes). some (f.fields, s)) d.behind in
      record {
        front = take position c;
        line_end = line_end;
        fields = f.fields;
        gap = d.gap;
        rest = d.rest;
        behind = behind;
        text =
            sym (take-append-drop position c)
            ∙ ap (λ (s : Bytes). take position c ++ s)
                (there.text_there
                  ∙ ap (λ (s : Bytes). dash_dash ++ (it.boundary ++ s)) (sym left ∙ skips));
        line_end_is = line_end_is;
        behind_is = cut_sound headers_terminator behind blank;
        first_blank = blank;
        gap_is = d.gap_is;
        next = d.next;
        same = d.same;
        shorter = d.shorter;
      }

  part_from-TakesPart :
      (it : MpIterator) (found : Option ℕ) {it' : MpIterator} {part : MpPart}
      → ((position : ℕ) → found ≡ some position → StandsAt it.boundary it.cursor position)
      → part_from lib it found ≡ (it', some part)
      → TakesPart it it' part
  unfolding part_from
  part_from-TakesPart it none stands e = no_part lib it e
  part_from-TakesPart it (some position) stands e =
      let there = stands position refl in
      let after = position + 2 + length it.boundary in
      let size = ap length there.text_there in
      let size' = length-append it.boundary there.rest in
      let before = there.inside in
      let bound : after ≤ length it.cursor = omega (arith, length-drop position it.cursor) in
      let tail = lib.slice_to_end it.cursor after in
      let tail_size =
        ap length (lib.slice_to_end_lem it.cursor after bound) ∙ length-drop after it.cursor in
      let (low, high) = skip_line_end-bounds tail after in
      let closing = leb 2 (length tail) && pair_at tail 0 b'-' b'-' in
      elim (Bool-cases closing) [
        | inl last ↦ no_part lib it (
            sym (
              ap
                (λ (b : Bool).
                  if b then finished lib it else part_behind lib it (skip_line_end lib tail after))
                last)
            ∙ e)
        | inr more ↦ whole_part it position there (
            part_behind-TakesFields lib it (skip_line_end lib tail after) (omega arith) (
              sym (
                ap
                  (λ (b : Bool).
                    if b
                    then finished lib it
                    else part_behind lib it (skip_line_end lib tail after))
                  more)
              ∙ e))
      ]

  -- Where mp_iterator_next answers with a part, the cursor holds a boundary behind two dashes, a
  -- CRLF or nothing where none stands there, the header lines up to the first blank line, the part's
  -- data, a CRLF or nothing where the data does not end with one, then the boundary behind two
  -- dashes, where the iterator stands afterwards, for the same boundary and its done flag as
  -- before; and its cursor is shorter than before.
  pub mp_iterator_next-TakesPart :
      (it : MpIterator) {it' : MpIterator} {part : MpPart}
      → mp_iterator_next lib it ≡ (it', some part)
      → TakesPart it it' part
  unfolding mp_iterator_next
  mp_iterator_next-TakesPart it {it'} {part} e =
      let next = part_from lib it (find_boundary lib it.cursor 0 it.boundary) in
      let chosen : (b : Bool)
          → (if b then (it, none) else next) ≡ (it', some part)
          → TakesPart it it' part =
        λ b f. elim (Bool-cases b) [
          | inl done ↦
              (let nothing : none ≡ some part =
                  ap (λ (r : MpIterator × Option MpPart). r.1)
                    (sym (ap (λ (b : Bool). if b then (it, none) else next) done) ∙ f) in
                absurd (ground arith))
          | inr fresh ↦
              part_from-TakesPart it (find_boundary lib it.cursor 0 it.boundary)
                (λ position found.
                  (find_boundary_sound lib it.cursor it.boundary 0 (omega arith) found).1)
                (sym (ap (λ (b : Bool). if b then (it, none) else next) fresh) ∙ f)
        ] in
      chosen it.done e
