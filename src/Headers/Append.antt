-- ===== src/Headers/Append.antt =====
-- http_headers_add of src/http_headers.c: what the four copies write, and what a full buffer does.
use http_c.Prelude.{
  ℕ, ◌+◌, ◌-◌, ◌≤◌, ◌<◌, ◌≡◌, ◌≢◌, refl, sym, ap, ◌∙◌, true, false, some, List, [], ◌∷◌, ◌++◌,
  append_assoc, append-nil, arith, ltb, length, take, drop, length-append, take-append, length-drop,
  length-take, Bool-cases, inl, inr,
}
use http_c.Common.{Bytes, HlResult, crlf, name_value_separator}
use http_c.Span.{CommonLib}
use http_c.Headers.{Headers, init, add, write_all}
use http_c.Headers.Fields.{Field, line, block, IsClean, AllClean, Represents}

abbrev joined : List Bytes → Bytes
joined [] = []
joined (p ∷ ps) = p ++ joined ps

abbrev NoneEmpty : List Bytes → Type 0
NoneEmpty [] = Unit
NoneEmpty (p ∷ ps) = (p ≢ []) × NoneEmpty ps

module _ (lib : CommonLib) where
  write_all_fits :
      (written free : Bytes) (ps : List Bytes)
      → NoneEmpty ps
      → length (joined ps) ≤ length free
      → (rest : Bytes) × (write_all lib written free ps ≡ (true, written ++ joined ps, rest))
        × (length rest + length (joined ps) ≡ length free)
  unfolding write_all
  write_all_fits written free [] e h = (free, ground (arith, append-nil written), omega arith)
  write_all_fits written free ([] ∷ ps) (e, es) h = absurd (e refl)
  write_all_fits written free ((c ∷ p) ∷ ps) (e, es) h =
      let n = length-append (c ∷ p) (joined ps) in
      let copied = lib.copy_fits free c p (omega (arith, n)) in
      let m = length-drop (length (c ∷ p)) free in
      let (rest, q, k) =
        write_all_fits (written ++ (c ∷ p)) (drop (length (c ∷ p)) free) ps es
          (omega (arith, n, m)) in
      (
        rest,
        ground (arith, copied, q, append_assoc written (c ∷ p) (joined ps)),
        omega (arith, n, m, k),
      )

  write_all_overflow :
      (written free : Bytes) (ps : List Bytes)
      → NoneEmpty ps
      → length free < length (joined ps)
      → (more rest : Bytes) × (write_all lib written free ps ≡ (false, written ++ more, rest))
        × (length more + length rest ≡ length free)
  unfolding write_all
  write_all_overflow written free [] e h = absurd (omega arith)
  write_all_overflow written free ([] ∷ ps) (e, es) h = absurd (e refl)
  write_all_overflow written free ((c ∷ p) ∷ ps) (e, es) h =
      let n = length-append (c ∷ p) (joined ps) in
      elim (Bool-cases (ltb (length free) (length (c ∷ p)))) [
        | inl f ↦ (
          [],
          free,
          ground (arith, lib.copy_overflow free (c ∷ p), append-nil written),
          omega arith,
        )
        | inr f ↦
            let f' : length (c ∷ p) ≤ length free = ground arith in
            let copied = lib.copy_fits free c p f' in
            let m = length-drop (length (c ∷ p)) free in
            let (more, rest, q, k) =
              write_all_overflow (written ++ (c ∷ p)) (drop (length (c ∷ p)) free) ps es
                (ground (arith, n, m)) in
            (
              (c ∷ p) ++ more,
              rest,
              ground (arith, copied, q, append_assoc written (c ∷ p) more),
              omega (arith, length-append (c ∷ p) more, k, m, f'),
            )
      ]

pub block-append : (fs gs : List Field) → block (fs ++ gs) ≡ block fs ++ block gs
unfolding block
block-append [] gs = refl
block-append (f ∷ fs) gs =
    rw (block-append fs gs, append_assoc (line f) (crlf ++ block fs) (block gs))

AllClean-append : (fs : List Field) (f : Field) → AllClean fs → IsClean f → AllClean (fs ++ f ∷ [])
AllClean-append [] f cs c = (c, tt)
AllClean-append (g ∷ fs) f (k, ks) c = (k, AllClean-append fs f ks c)

-- The bytes that a field takes: the name, the separator, the value and a CRLF.
abbrev pub field_size : Field → ℕ
field_size (n, v) = length n + length v + 4

abbrev pieces : Field → List Bytes
pieces (n, v) = n ∷ name_value_separator ∷ v ∷ crlf ∷ []

length-pieces : (f : Field) → length (joined (pieces f)) ≡ field_size f
length-pieces (n, v) =
    omega (arith, length-append n (name_value_separator ++ (v ++ crlf)), length-append v crlf)

joined-pieces : (f : Field) → joined (pieces f) ≡ block (f ∷ [])
unfolding block
joined-pieces (n, v) = sym (append_assoc n (name_value_separator ++ v) crlf)

abbrev added : Headers → Field → Bytes → Headers
added h f rest =
    let buffer = (take h.used_size h.buffer ++ joined (pieces f)) ++ rest in
    record h { buffer = buffer; used_size = length buffer - length rest }

module _ (lib : CommonLib) where
  init-Represents :
      (h : Headers) (buffer : Bytes)
      → (h' : Headers) × (init (some h) buffer ≡ (some h', HlResult.ok))
        × Represents h' []
        × (h'.buffer ≡ buffer)
  unfolding init block
  init-Represents h buffer = (
    record { buffer = buffer; used_size = 0; iterator = [] },
    refl,
    record { fits = omega arith; text = refl; clean = tt },
    refl,
  )

  some_pieces : (f : Field) → IsClean f → f.1 ≢ [] → NoneEmpty (pieces f)
  some_pieces (n, v) c full = (c.named, ((λ e. cc), (full, ((λ e. cc), tt))))

  -- What the header holds after a successful call, by the text that the copies leave.
  added_lem :
      (h : Headers) (f : Field) (rest : Bytes)
      → h.used_size ≤ length h.buffer
      → write_all lib (take h.used_size h.buffer) (drop h.used_size h.buffer) (pieces f)
        ≡ (true, take h.used_size h.buffer ++ joined (pieces f), rest)
      → add lib (some h) f.0 f.1 ≡ (some (added h f rest), HlResult.ok)
  unfolding add
  added_lem h (n, v) rest fits q = ground (arith, lib.slice_to_end_lem h.buffer h.used_size fits, q)

  -- A clean field with a value, where it fits into the buffer, is added behind the fields that the
  -- buffer holds. The buffer keeps its size.
  pub add-Represents :
      (h : Headers) (fs : List Field) (f : Field)
      → Represents h fs
      → IsClean f
      → f.1 ≢ []
      → h.used_size + field_size f ≤ length h.buffer
      → (h' : Headers) × (add lib (some h) f.0 f.1 ≡ (some h', HlResult.ok))
        × Represents h' (fs ++ f ∷ [])
        × (length h'.buffer ≡ length h.buffer)
        × (h'.used_size ≡ h.used_size + field_size f)
  add-Represents h fs f r c full room =
      let p = length-pieces f in
      let a = length-take h.used_size h.buffer in
      let b = length-drop h.used_size h.buffer in
      let fits = r.fits in
      let (rest, q, k) =
        write_all_fits lib (take h.used_size h.buffer) (drop h.used_size h.buffer) (pieces f)
          (some_pieces f c full) (omega (arith, p, b)) in
      let l1 = length-append (take h.used_size h.buffer) (joined (pieces f)) in
      let l2 = length-append (take h.used_size h.buffer ++ joined (pieces f)) rest in
      let used : length (added h f rest).buffer - length rest
          ≡ length (take h.used_size h.buffer ++ joined (pieces f)) =
        omega (arith, l2) in
      (
        added h f rest,
        added_lem h f rest fits q,
        record {
          fits = omega arith;
          text =
              take-append _ (take h.used_size h.buffer ++ joined (pieces f)) rest used
              ∙ ap (λ t. t ++ joined (pieces f)) r.text
              ∙ ap (◌++◌ (block fs)) (joined-pieces f)
              ∙ sym (block-append fs (f ∷ []));
          clean = AllClean-append fs f r.clean c;
        },
        omega (arith, l1, l2, k, p, a, b),
        omega (arith, l1, l2, k, p, a, b),
      )

  -- A clean field with a value, where it does not fit into the buffer, is refused with
  -- buffer_overflow: nothing that was in use changes.
  pub add_overflow :
      (h : Headers) (f : Field)
      → h.used_size ≤ length h.buffer
      → IsClean f
      → f.1 ≢ []
      → length h.buffer < h.used_size + field_size f
      → (h' : Headers) × (add lib (some h) f.0 f.1 ≡ (some h', HlResult.buffer_overflow))
        × (h'.used_size ≡ h.used_size)
        × (length h'.buffer ≡ length h.buffer)
        × (take h'.used_size h'.buffer ≡ take h.used_size h.buffer)
  unfolding add
  add_overflow h (n, v) fits c full short =
      let f : Field = (n, v) in
      let used = take h.used_size h.buffer in
      let p = length-pieces f in
      let a = length-take h.used_size h.buffer in
      let b = length-drop h.used_size h.buffer in
      let (more, rest, q, k) =
        write_all_overflow lib used (drop h.used_size h.buffer) (pieces f) (some_pieces f c full)
          (omega (arith, p, b)) in
      (
        record h { buffer = (used ++ more) ++ rest },
        ground (arith, lib.slice_to_end_lem h.buffer h.used_size fits, q),
        refl,
        omega (arith, length-append (used ++ more) rest, length-append used more, k, a, b),
        ap (take h.used_size) (append_assoc used more rest)
            ∙ take-append h.used_size used (more ++ rest) (omega (arith, a)),
      )
