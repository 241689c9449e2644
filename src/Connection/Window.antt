-- ===== src/Connection/Window.antt =====
-- The part of a buffer that the body readers of src/http_connection.c work in: the body that is
-- stored at its front, and the bytes that are received and not consumed yet.
use http_c.Prelude.{
  ℕ, ◌+◌, ◌-◌, ◌≤◌, ◌≡◌, refl, ◌++◌, ◌∙◌, sym, ap, ◌&&◌, arith, length, take, drop, length-take,
  length-drop, drop_add, take-append, ltb, ◌==◌, ==_iff, if◌then◌else◌, Bool-cases, inl, inr,
}
use http_c.Prelude.Buffers.{
  overwrite, length-overwrite, take-overwrite, take-overwrite_before, drop-overwrite,
  drop-overwrite_behind, drop-take, take-take,
}
use http_c.Common.{Bytes}

-- The fields buffer, start, end and stored_length of response_body_reader_t; capacity is the length
-- of the buffer. In read_chunked_body, raw_buf (which is out_buf), pos, raw_len and olen.
pub record Window : Type 0 where
  pub buffer : Bytes
  pub start : ℕ
  pub end : ℕ
  pub stored_length : ℕ

abbrev pub capacity : Window → ℕ
capacity w = length w.buffer

abbrev pub pending_length : Window → ℕ
pending_length w = w.end - w.start

-- the bytes received and not consumed
abbrev pub pending : Window → Bytes
pending w = take (w.end - w.start) (drop w.start w.buffer)

-- the body that is stored
abbrev pub stored : Window → Bytes
stored w = take w.stored_length w.buffer

-- bytes that a read puts at the end
unfoldable pub appended : Bytes → Window → Window
appended got w = record w { buffer = overwrite w.end got w.buffer; end = w.end + length got }

-- memmove(buffer + stored_length, buffer + start, length), with start already moved on
unfoldable pub kept : ℕ → Window → Window
kept length w = record w {
  buffer = overwrite w.stored_length (take length (drop w.start w.buffer)) w.buffer;
  start = w.start + length;
  stored_length = w.stored_length + length;
}

-- the pending bytes that a handler is given
unfoldable pub skipped : ℕ → Window → Window
skipped length w = record w { start = w.start + length }

-- The first half of response_body_reader_fill: an empty window starts again behind the stored
-- body, and a full one is compacted down to it.
unfoldable pub compacted : Window → Window
compacted w =
    if w.start == w.end
    then record w { start = w.stored_length; end = w.stored_length }
    else if w.end == capacity w && ltb w.stored_length w.start
    then record w {
      buffer = overwrite w.stored_length (pending w) w.buffer;
      start = w.stored_length;
      end = w.stored_length + pending_length w;
    }
    else w

-- The stored body ends before the bytes that are not consumed, and these within the buffer.
pub record IsWindow (w : Window) : Type 0 where
  pub behind : w.stored_length ≤ w.start
  pub ordered : w.start ≤ w.end
  pub inside : w.end ≤ length w.buffer

pub length-pending : (w : Window) → IsWindow w → length (pending w) ≡ w.end - w.start
length-pending w i =
    omega
      (arith, length-take (w.end - w.start) (drop w.start w.buffer), length-drop w.start w.buffer)

module _ (got : Bytes) (w : Window) (i : IsWindow w) (room : w.end + length got ≤ capacity w) where
  pub appended-IsWindow : IsWindow (appended got w)
  unfolding appended
  appended-IsWindow = record {
    behind = i.behind;
    ordered = omega (arith, i.ordered);
    inside = omega (arith, length-overwrite w.end got w.buffer room);
  }

  pub pending-appended : pending (appended got w) ≡ pending w ++ got
  unfolding appended
  pending-appended =
      let p = w.end - w.start in
      let split : w.end ≡ w.start + p = omega (arith, i.ordered) in
      let sum : w.end + length got - w.start ≡ p + length got = omega (arith, i.ordered) in
      ap (λ (m : ℕ). take (w.end + length got - w.start) (drop w.start (overwrite m got w.buffer)))
        split
      ∙ ap (take (w.end + length got - w.start))
          (drop-overwrite w.start p got w.buffer (omega (arith, i.ordered, i.inside)))
      ∙ ap (λ (m : ℕ). take m (overwrite p got (drop w.start w.buffer))) sum
      ∙ take-overwrite p (length got) got (drop w.start w.buffer) refl
          (omega (arith, length-drop w.start w.buffer, i.ordered, i.inside))

  pub stored-appended : stored (appended got w) ≡ stored w
  unfolding appended
  stored-appended =
      take-overwrite_before w.stored_length w.end got w.buffer (omega (arith, i.behind, i.ordered))

  pub capacity-appended : capacity (appended got w) ≡ capacity w
  unfolding appended
  capacity-appended = length-overwrite w.end got w.buffer room

module _ (n : ℕ) (w : Window) (i : IsWindow w) (enough : n ≤ pending_length w) where
  pub skipped-IsWindow : IsWindow (skipped n w)
  unfolding skipped
  skipped-IsWindow = record {
    behind = omega (arith, i.behind);
    ordered = omega (arith, i.ordered);
    inside = i.inside;
  }

  rest_of : take (w.end - (w.start + n)) (drop (w.start + n) w.buffer) ≡ drop n (pending w)
  rest_of =
      let less : w.end - (w.start + n) ≡ w.end - w.start - n = omega arith in
      ap (λ (m : ℕ). take m (drop (w.start + n) w.buffer)) less
      ∙ ap (take (w.end - w.start - n)) (drop_add w.start n w.buffer)
      ∙ sym (drop-take n (w.end - w.start) (drop w.start w.buffer))

  pub pending-skipped : pending (skipped n w) ≡ drop n (pending w)
  unfolding skipped
  pending-skipped = rest_of

  length_piece : length (take n (drop w.start w.buffer)) ≡ n
  length_piece = omega (
    arith,
    length-take n (drop w.start w.buffer),
    length-drop w.start w.buffer,
    i.ordered,
    i.inside,
  )

  pub kept-IsWindow : IsWindow (kept n w)
  unfolding kept
  kept-IsWindow = record {
    behind = omega (arith, i.behind);
    ordered = omega (arith, i.ordered);
    inside = omega (
      arith,
      i.inside,
      i.behind,
      i.ordered,
      length_piece,
      length-overwrite w.stored_length (take n (drop w.start w.buffer)) w.buffer,
    );
  }

  -- The copy to the front does not reach the bytes behind the piece.
  pub pending-kept : pending (kept n w) ≡ drop n (pending w)
  unfolding kept
  pending-kept =
      ap (take (w.end - (w.start + n))) (
        drop-overwrite_behind (w.start + n) w.stored_length (take n (drop w.start w.buffer))
          w.buffer (omega (arith, length_piece, i.behind))
          (omega (arith, length_piece, i.behind, i.ordered, i.inside)))
      ∙ rest_of

  pub stored-kept : stored (kept n w) ≡ stored w ++ take n (pending w)
  unfolding kept
  stored-kept =
      take-overwrite w.stored_length n (take n (drop w.start w.buffer)) w.buffer (sym length_piece)
        (omega (arith, i.behind, i.ordered, i.inside))
      ∙ ap (◌++◌ (stored w)) (sym (take-take n (w.end - w.start) (drop w.start w.buffer) enough))

  pub capacity-kept : capacity (kept n w) ≡ capacity w
  unfolding kept
  capacity-kept =
      length-overwrite w.stored_length (take n (drop w.start w.buffer)) w.buffer
        (omega (arith, length_piece, i.behind, i.ordered, i.inside))

pub take-pending-all : (w : Window) → IsWindow w → take (pending_length w) (pending w) ≡ pending w
take-pending-all w i = take-take _ _ (drop w.start w.buffer) (omega arith)

-- The same bytes stand in both, in buffers of one size.
pub record Same (w w' : Window) : Type 0 where
  pub window : IsWindow w'
  pub same_pending : pending w' ≡ pending w
  pub same_stored : stored w' ≡ stored w
  pub same_capacity : capacity w' ≡ capacity w

module _ (w : Window) (i : IsWindow w) where
  restarted-Same :
      w.start ≡ w.end → Same w (record w { start = w.stored_length; end = w.stored_length })
  restarted-Same e = record {
    window = record {
      behind = omega arith;
      ordered = omega arith;
      inside = omega (arith, i.behind, i.ordered, i.inside);
    };
    same_pending =
        let none : w.stored_length - w.stored_length ≡ 0 = omega arith in
        let none' : w.end - w.start ≡ 0 = omega arith in rw (none, none') refl;
    same_stored = refl;
    same_capacity = refl;
  }

  moved_down : Window
  moved_down = record w {
    buffer = overwrite w.stored_length (pending w) w.buffer;
    start = w.stored_length;
    end = w.stored_length + pending_length w;
  }

  moved_down-Same : Same w moved_down
  unfolding moved_down
  moved_down-Same =
      let size = length-pending w i in
      let room : w.stored_length + length (pending w) ≤ length w.buffer =
        omega (arith, size, i.behind, i.ordered, i.inside) in
      record {
        window = record {
          behind = omega arith;
          ordered = omega arith;
          inside = omega (
            arith,
            i.behind,
            i.ordered,
            i.inside,
            length-overwrite w.stored_length (pending w) w.buffer room,
          );
        };
        same_pending =
            let sum : w.stored_length + (w.end - w.start) - w.stored_length ≡ w.end - w.start =
              omega arith in
            let zero_more : w.stored_length ≡ w.stored_length + 0 = omega arith in
            ap
              (λ (m : ℕ).
                take m (drop w.stored_length (overwrite w.stored_length (pending w) w.buffer)))
              sum
            ∙ ap
                (λ (m : ℕ).
                  take (w.end - w.start) (drop w.stored_length (overwrite m (pending w) w.buffer)))
                zero_more
            ∙ ap (take (w.end - w.start))
                (drop-overwrite w.stored_length 0 (pending w) w.buffer (omega arith))
            ∙ take-append (w.end - w.start) (pending w) _ (omega (arith, size));
        same_stored =
            take-overwrite_before w.stored_length w.stored_length (pending w) w.buffer
              (omega arith);
        same_capacity = length-overwrite w.stored_length (pending w) w.buffer room;
      }

  -- Moving the window down loses nothing, stored or pending.
  pub compacted-Same : Same w (compacted w)
  unfolding compacted moved_down
  compacted-Same = elim (Bool-cases (w.start == w.end)) [
    | inl e ↦ rw e (restarted-Same ((==_iff _ _).0 e))
    | inr e ↦ elim (Bool-cases (w.end == capacity w && ltb w.stored_length w.start)) [
      | inl f ↦ rw (e, f) moved_down-Same
      | inr f ↦
          rw (e, f)
            (record { window = i; same_pending = refl; same_stored = refl; same_capacity = refl })
    ]
  ]
