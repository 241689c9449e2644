-- ===== src/Connection/Lines.antt =====
-- response_body_reader_read_line consumes one line.
pub mod Reading
use http_c.Prelude.{
  ℕ, zero, suc, ◌+◌, ◌-◌, ◌≤◌, ◌<◌, ◌≡◌, ◌≢◌, ◌⊎◌, refl, sym, ap, subst, ◌∙◌, Bool, true, false,
  ◌&&◌, Option, none, some, List, [], ◌∷◌, ◌++◌, append-nil, append_assoc, take-append-drop,
  take-append, arith, length, length-append, length-take, take, drop, drop-append, get_or,
  Bool-cases, inl, inr, ltb, ◌==◌, ==_iff, if◌then◌else◌,
}
use http_c.Common.{Bytes, crlf}
use http_c.Span.{CommonLib}
use http_c.Connection.{Peer}
use http_c.Connection.Window.{
  Window, IsWindow, pending_length, pending, skipped, length-pending, skipped-IsWindow,
  pending-skipped,
}
use http_c.Connection.Reader.{Reader, line_feed, line_end, take_line}
use http_c.Connection.Moving.{Drains, Moves, same_stored-output}

abbrev pub lf : Bytes
lf = b'\n' ∷ []

-- No byte of the text is a line feed.
abbrev pub IsOneLine : Bytes → Type 0
IsOneLine [] = Unit
IsOneLine (c ∷ s) = (c ≢ b'\n') × IsOneLine s

-- Those bytes are that line and its end, CRLF or a bare LF.
abbrev pub IsLine : Bytes → Bytes → Type 0
IsLine line c = IsOneLine line × ((c ≡ line ++ crlf) ⊎ (c ≡ line ++ lf))

pub IsOneLine-append : (a b : Bytes) → IsOneLine a → IsOneLine b → IsOneLine (a ++ b)
IsOneLine-append [] b h k = k
IsOneLine-append (c ∷ a) b h k = (h.0, IsOneLine-append a b h.1 k)

IsOneLine-front : (a b : Bytes) → IsOneLine (a ++ b) → IsOneLine a
IsOneLine-front [] b h = tt
IsOneLine-front (c ∷ a) b h = (h.0, IsOneLine-front a b h.1)

-- What the search finds: the first line feed, or that there is none.
pub line_feed-some :
    (i : ℕ) (s : Bytes) {index : ℕ}
    → line_feed i s ≡ some index
    → (a : Bytes) × (b : Bytes) × (s ≡ a ++ b'\n' ∷ b) × IsOneLine a × (index ≡ i + length a)
unfolding line_feed
line_feed-some i [] h = absurd (ground arith)
line_feed-some i (c ∷ s) {index} h = elim (Bool-cases (c == b'\n')) [
  | inl e ↦ ([], s, ap (λ (x : ℕ). x ∷ s) ((==_iff c b'\n').0 e), tt, ground arith)
  | inr e ↦
      let later : line_feed (i + 1) s ≡ some index = ground arith in
      let (a, b, cut, one_line, at) = line_feed-some (i + 1) s later in
      (c ∷ a, b, ap (◌∷◌ c) cut, (ground arith, one_line), omega arith)
]

pub line_feed-none : (i : ℕ) (s : Bytes) → line_feed i s ≡ none → IsOneLine s
unfolding line_feed
line_feed-none i [] h = tt
line_feed-none i (c ∷ s) h = elim (Bool-cases (c == b'\n')) [
  | inl e ↦ absurd (ground arith)
  | inr e ↦
      let later : line_feed (i + 1) s ≡ none = ground arith in
      (ground arith, line_feed-none (i + 1) s later)
]

pub get_or-drop : (n i : ℕ) (s : Bytes) → get_or (drop n s) i 0 ≡ get_or s (n + i) 0
get_or-drop zero i s = let e : 0 + i ≡ i = omega arith in rw e refl
get_or-drop (suc n) i [] = refl
get_or-drop (suc n) i (c ∷ s) =
    let e : suc n + i ≡ suc (n + i) = omega arith in rw e (get_or-drop n i s)

-- The last byte of the front.
last_of :
    (c : ℕ) (front rest : Bytes)
    → 0 < length front
    → get_or (front ++ rest) (length front - 1) 0 ≡ c
    → (f : Bytes) × (front ≡ f ++ c ∷ [])
last_of c [] rest h e = absurd (omega arith)
last_of c (x ∷ []) rest h e = ([], ap (λ (y : ℕ). y ∷ []) e)
last_of c (x ∷ y ∷ front) rest h e =
    let s : suc (suc (length front)) - 1 ≡ suc (length front) = omega arith in
    let s' : suc (length front) - 1 ≡ length front = omega arith in
    let (f, last) = last_of c (y ∷ front) rest (omega arith) (rw s' (rw s at e)) in
    (x ∷ f, ap (◌∷◌ x) last)

module _ (w : Window) (i : IsWindow w) (front b : Bytes)
    (cut : pending w ≡ front ++ b'\n' ∷ b) where
  beyond : Bytes
  beyond = drop (w.end - w.start) (drop w.start w.buffer)

  from_start : drop w.start w.buffer ≡ front ++ ((b'\n' ∷ b) ++ beyond)
  unfolding beyond
  from_start =
      sym (take-append-drop (w.end - w.start) (drop w.start w.buffer))
      ∙ ap (λ (s : Bytes). s ++ beyond) cut
      ∙ append_assoc front (b'\n' ∷ b) beyond

  cr-IsLine :
      (index : ℕ)
      → index ≡ w.start + length front
      → IsOneLine front
      → w.start < index
      → get_or w.buffer (index - 1) 0 ≡ b'\r'
      → IsLine (take (index - 1 - w.start) (drop w.start w.buffer)) (front ++ lf)
  cr-IsLine index at one_line inside is_cr =
      let place : w.start + (length front - 1) ≡ index - 1 = omega arith in
      let read =
        ap (λ (s : Bytes). get_or s (length front - 1) 0) (sym from_start)
        ∙ get_or-drop w.start (length front - 1) w.buffer
        ∙ ap (λ (k : ℕ). get_or w.buffer k 0) place
        ∙ is_cr in
      let (f, last) = last_of b'\r' front _ (omega arith) read in
      let same =
        ap (take (index - 1 - w.start)) (
          from_start
          ∙ ap (λ (s : Bytes). s ++ ((b'\n' ∷ b) ++ beyond)) last
          ∙ append_assoc f (b'\r' ∷ []) _)
        ∙ take-append (index - 1 - w.start) f _
            (omega (arith, ap (length {A = ℕ}) last, length-append f (b'\r' ∷ []))) in
      rw same (
        IsOneLine-front f (b'\r' ∷ []) (subst IsOneLine last one_line),
        inl (ap (λ (s : Bytes). s ++ lf) last ∙ append_assoc f (b'\r' ∷ []) lf),
      )

  -- The line that is returned is the front without a carriage return at its end.
  pub front-IsLine :
      (index : ℕ)
      → index ≡ w.start + length front
      → IsOneLine front
      → IsLine (take (line_end w index - w.start) (drop w.start w.buffer)) (front ++ lf)
  front-IsLine index at one_line =
      elim (Bool-cases (ltb w.start index && get_or w.buffer (index - 1) 0 == b'\r')) [
        | inl e ↦ rw e (cr-IsLine index at one_line (ground arith) (ground arith))
        | inr e ↦ rw e (
            let same =
              ap (take (index - w.start)) from_start
              ∙ take-append (index - w.start) front _ (omega arith) in
            rw same (one_line, inr refl))
      ]
