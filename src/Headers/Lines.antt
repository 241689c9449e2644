-- ===== src/Headers/Lines.antt =====
-- http_headers_find over any text: the lines that the loop visits, malformed ones included.
use http_c.Prelude.{
  ℕ, zero, suc, ◌+◌, ◌≤◌, ◌<◌, ◌≡◌, refl, ap, ◌∙◌, true, false, Bool-cases, Option, none, some,
  List, [], ◌∷◌, arith, length, take, take_none, ◌⊎◌, ◌≢◌, Option-cases, ◌==◌, inl, inr,
}
use http_c.Common.{Bytes, HlResult, crlf}
use http_c.Span.{CommonLib, or_whole}
use http_c.Span.Cut.{cut, cut-length}
use http_c.Span.Slices.{slice_prefix}
use http_c.Headers.{
  Headers, header_name_terminator, is_empty, trim_optional_whitespace, find_loop, find,
}

-- A text and its lines: what stands between the CRLFs, and a last line without one.
pub data Lines : Bytes → List Bytes → Type 0 where
  done : Lines [] []
  last : {c : ℕ} {s : Bytes} → cut crlf (c ∷ s) ≡ none → Lines (c ∷ s) ((c ∷ s) ∷ [])
  more :
      {c : ℕ} {s a b : Bytes} {ls : List Bytes}
      → cut crlf (c ∷ s) ≡ some (a, b)
      → Lines b ls
      → Lines (c ∷ s) (a ∷ ls)

module _ (lib : CommonLib) where
  -- The trimmed value of the first line whose text before the colon is the name, up to case.
  unfoldable pub lookup_line : Bytes → List Bytes → HlResult × Option Bytes
  lookup_line name [] = (HlResult.not_found, none)
  lookup_line name (line ∷ lines) = elim (cut header_name_terminator line) [
    | none ↦ lookup_line name lines
    | some (line_name, value) ↦ elim (lib.icompare_is_zero line_name name) [
      | true ↦ (HlResult.ok, some (trim_optional_whitespace lib value))
      | false ↦ lookup_line name lines
    ]
  ]

  find_round :
      (rounds : ℕ) (text line rest name : Bytes) (lines : List Bytes)
      → lib.iterate text crlf ≡ some (line, rest)
      → find_loop lib rounds rest name ≡ lookup_line name lines
      → find_loop lib (suc rounds) text name ≡ lookup_line name (line ∷ lines)
  unfolding find_loop lookup_line
  find_round rounds text line rest name lines e ih =
      ground (arith, e, lib.split_lem line b':' [], ih)

  find_loop-Lines :
      {text : Bytes} {lines : List Bytes} (rounds : ℕ) (name : Bytes)
      → Lines text lines
      → length text < rounds
      → find_loop lib rounds text name ≡ lookup_line name lines
  unfolding find_loop lookup_line
  find_loop-Lines zero name l h = absurd (omega arith)
  find_loop-Lines (suc rounds) name done h = rw (lib.iterate-nil b'\r' (b'\n' ∷ []), find_loop)
  find_loop-Lines (suc rounds) name (last {c} {s} e) h =
      find_round rounds (c ∷ s) (c ∷ s) [] name []
        (lib.iterate-cons c s b'\r' (b'\n' ∷ []) ∙ ap (λ o. some (or_whole (c ∷ s) o)) e)
        (find_loop-Lines rounds name done (omega arith))
  find_loop-Lines (suc rounds) name (more {c} {s} {a} {b} {ls} e l) h =
      find_round rounds (c ∷ s) a b name ls
        (lib.iterate-cons c s b'\r' (b'\n' ∷ []) ∙ ap (λ o. some (or_whole (c ∷ s) o)) e)
        (find_loop-Lines rounds name l (omega (arith, cut-length crlf (c ∷ s) e)))

  find_loop_cases :
      (rounds : ℕ) (text name : Bytes)
      → ((v : Bytes) × (find_loop lib rounds text name ≡ (HlResult.ok, some v)))
        ⊎ (find_loop lib rounds text name ≡ (HlResult.not_found, none))
  unfolding find_loop
  find_loop_cases zero text name = inr refl
  find_loop_cases (suc rounds) text name = elim (Option-cases (lib.iterate text crlf)) [
    | inl e ↦ inr (rw (e, find_loop))
    | inr ((line, rest), e) ↦ elim (Option-cases (lib.split line 0 header_name_terminator)) [
      | inl f ↦ ground (arith, find_loop_cases rounds rest name, e, f)
      | inr ((n, v), f) ↦ elim (Bool-cases (lib.icompare_is_zero n name)) [
        | inl g ↦ inl (trim_optional_whitespace lib v, ground (arith, e, f, g))
        | inr g ↦ ground (arith, find_loop_cases rounds rest name, e, f, g)
      ]
    ]
  ]

  -- A lookup that succeeds has a value, and one that does not says so.
  pub find_cases :
      (h : Headers) (name : Bytes)
      → ((v : Bytes) × (find lib (some h) name ≡ (HlResult.ok, some v)))
        ⊎ ((find lib (some h) name).0 ≢ HlResult.ok)
  unfolding find
  find_cases h name = elim (Bool-cases (is_empty name)) [
    | inl e ↦ inr (λ q. ground arith)
    | inr e ↦ elim (Bool-cases (h.used_size == 0)) [
      | inl f ↦ inr (λ q. ground arith)
      | inr f ↦
          let text = lib.slice h.buffer 0 h.used_size in
          elim (find_loop_cases (length text + 1) text name) [
            | inl (v, g) ↦ inl (v, ground arith)
            | inr g ↦ inr (λ q. ground arith)
          ]
    ]
  ]

  lookup_nothing :
      {text : Bytes} {lines : List Bytes} (name : Bytes)
      → Lines text lines
      → text ≡ []
      → (HlResult.not_found, none) ≡ lookup_line name lines
  unfolding lookup_line
  lookup_nothing name done e = refl
  lookup_nothing name (last f) e = cc
  lookup_nothing name (more f l) e = cc

  -- On a block that lies within its buffer, a lookup of a name that is not empty visits the lines
  -- in order, passes over the ones without a colon, and answers with the first whose name fits.
  pub find-Lines :
      (h : Headers) (c : ℕ) (name : Bytes) {lines : List Bytes}
      → h.used_size ≤ length h.buffer
      → Lines (take h.used_size h.buffer) lines
      → find lib (some h) (c ∷ name) ≡ lookup_line (c ∷ name) lines
  unfolding find
  find-Lines h c name {lines} fits l = elim (Bool-cases (h.used_size == 0)) [
    | inl e ↦
        let none_used : h.used_size ≡ 0 = ground arith in
        rw e (lookup_nothing (c ∷ name) l (take_none h.used_size h.buffer none_used))
    | inr e ↦
        rw (e, slice_prefix lib h.buffer h.used_size fits)
          (find_loop-Lines _ (c ∷ name) l (omega arith))
  ]
