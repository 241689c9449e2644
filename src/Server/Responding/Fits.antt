-- ===== src/Server/Responding/Fits.antt =====
-- serialize_and_send puts the text of a response into the send buffer.
use http_c.Prelude.{
  ℕ, ◌+◌, ◌^◌, ◌≤◌, ◌<◌, ◌≡◌, refl, sym, ap, ◌∙◌, false, Bool-cases, inl, inr, none, some, List, [],
  ◌∷◌, ◌++◌, append_assoc, append-nil, length, length-append, ◌==◌, arith, take_none, if◌then◌else◌,
}
use http_c.Common.{Bytes, ResultCode, ok, error, space, crlf}
use http_c.Span.{CommonLib}
use http_c.Span.Slices.{slice_prefix}
use http_c.Headers
use http_c.Headers.{Headers}
use http_c.Headers.Fields.{Field, block, Represents}
use http_c.Request.{write_body, ◌>>◌, succeed}
use http_c.Request.Text.{text_of}
use http_c.Response
use http_c.Response.{Response}
use http_c.Server.{Slot, SlotState}
use http_c.Server.Responding.{
  BufferStream, bs_write, take_stream, finish_serialize, serialize_and_send, arms_write,
}

abbrev holding : ℕ → Bytes → BufferStream
holding capacity used = record { capacity = capacity; used = used; overflowed = false }

module _ (lib : CommonLib) (capacity : ℕ) (small : capacity < 2 ^ 32) where
  bs_write_room :
      (used bytes : Bytes)
      → length used + length bytes ≤ capacity
      → bs_write bytes (holding capacity used) ≡ (holding capacity (used ++ bytes), ok)
  unfolding bs_write
  bs_write_room used bytes h = ground arith

  headers_room :
      (h : Headers) (fs : List Field) (used : Bytes)
      → Represents h fs
      → length used + length (block fs) ≤ capacity
      → Headers.serialize_to lib bs_write (some h) (holding capacity used)
        ≡ (holding capacity (used ++ block fs), ok)
  unfolding Headers.serialize_to
  headers_room h fs used r room = elim (Bool-cases (h.used_size == 0)) [
    | inl e ↦
        let none_used : h.used_size ≡ 0 = ground arith in
        rw e (
          ap (λ (t : Bytes). (holding capacity t, ok))
            (sym (append-nil used)
              ∙ ap (λ (t : Bytes). used ++ t)
                  (sym (take_none h.used_size h.buffer none_used) ∙ r.text)))
    | inr e ↦ rw e (
        ap (λ (t : Bytes). bs_write t (holding capacity used))
          (slice_prefix lib h.buffer h.used_size r.fits ∙ r.text)
        ∙ bs_write_room used (block fs) room)
  ]

  body_room :
      (body used : Bytes)
      → length used + length body ≤ capacity
      → write_body lib bs_write body (holding capacity used) ≡ (holding capacity (used ++ body), ok)
  unfolding write_body
  body_room [] used h = rw append-nil
  body_room (c ∷ body) used h = bs_write_room used (c ∷ body) h

  -- one link of the serialiser's chain of writes
  link :
      (m k : BufferStream → BufferStream × ResultCode) (used bytes : Bytes)
      → m (holding capacity used) ≡ (holding capacity (used ++ bytes), ok)
      → ◌>>◌ lib m k (holding capacity used) ≡ k (holding capacity (used ++ bytes))
  link m k used bytes h =
      ap (λ (r : BufferStream × ResultCode). if lib.failed r.1 then (r.0, error) else k r.0) h
      ∙ rw lib.failed-ok refl

  serialize_room :
      (r : Response) (fs : List Field)
      → Represents r.headers fs
      → length (text_of r.http_version r.code r.reason_phrase fs r.body) ≤ capacity
      → Response.serialize_to lib bs_write (some r) (holding capacity [])
        ≡ (holding capacity (text_of r.http_version r.code r.reason_phrase fs r.body), ok)
  unfolding Response.serialize_to
  serialize_room r fs held room =
      let u1 = r.http_version in
      let u2 = u1 ++ space in
      let u3 = u2 ++ r.code in
      let u4 = u3 ++ space in
      let u5 = u4 ++ r.reason_phrase in
      let u6 = u5 ++ crlf in
      let u7 = u6 ++ block fs in
      let u8 = u7 ++ crlf in
      let same : u8 ++ r.body ≡ text_of r.http_version r.code r.reason_phrase fs r.body =
        simp append_assoc refl in
      let n : length u8 + length r.body ≤ capacity =
        omega (arith, length-append u8 r.body, ap length same) in
      let l8 = length-append u7 crlf in
      let l7 = length-append u6 (block fs) in
      let l6 = length-append u5 crlf in
      let l5 = length-append u4 r.reason_phrase in
      let l4 = length-append u3 space in
      let l3 = length-append u2 r.code in
      let l2 = length-append u1 space in
      let k9 : BufferStream → BufferStream × ResultCode = succeed lib in
      let k8 : BufferStream → BufferStream × ResultCode =
        ◌>>◌ lib (write_body lib bs_write r.body) k9 in
      let k7 : BufferStream → BufferStream × ResultCode = ◌>>◌ lib (bs_write crlf) k8 in
      let k6 : BufferStream → BufferStream × ResultCode =
        ◌>>◌ lib (Headers.serialize_to lib bs_write (some r.headers)) k7 in
      let k5 : BufferStream → BufferStream × ResultCode = ◌>>◌ lib (bs_write crlf) k6 in
      let k4 : BufferStream → BufferStream × ResultCode = ◌>>◌ lib (bs_write r.reason_phrase) k5 in
      let k3 : BufferStream → BufferStream × ResultCode = ◌>>◌ lib (bs_write space) k4 in
      let k2 : BufferStream → BufferStream × ResultCode = ◌>>◌ lib (bs_write r.code) k3 in
      let k1 : BufferStream → BufferStream × ResultCode = ◌>>◌ lib (bs_write space) k2 in
      link (bs_write r.http_version) k1 [] u1 (bs_write_room [] u1 (omega arith))
      ∙ link (bs_write space) k2 u1 space (bs_write_room u1 space (omega arith))
      ∙ link (bs_write r.code) k3 u2 r.code (bs_write_room u2 r.code (omega arith))
      ∙ link (bs_write space) k4 u3 space (bs_write_room u3 space (omega arith))
      ∙ link (bs_write r.reason_phrase) k5 u4 r.reason_phrase
          (bs_write_room u4 r.reason_phrase (omega arith))
      ∙ link (bs_write crlf) k6 u5 crlf (bs_write_room u5 crlf (omega arith))
      ∙ link (Headers.serialize_to lib bs_write (some r.headers)) k7 u6 (block fs)
          (headers_room r.headers fs u6 held (omega arith))
      ∙ link (bs_write crlf) k8 u7 crlf (bs_write_room u7 crlf (omega arith))
      ∙ link (write_body lib bs_write r.body) k9 u8 r.body (body_room r.body u8 n)
      ∙ ap (λ (t : Bytes). (holding capacity t, ok)) same

-- A response without a streamed body, whose header buffer holds the fields, and whose text fits the
-- send buffer, is put there as its text, in order and once, and the slot goes over to sending it
-- from the start.
pub serialize_and_send-text :
    (lib : CommonLib) (now : ℕ) (slot : Slot) (r : Response) (fs : List Field)
    → Represents r.headers fs
    → r.body_provider ≡ none
    → length (text_of r.http_version r.code r.reason_phrase fs r.body) ≤ slot.send_buffer_size
    → slot.send_buffer_size < 2 ^ 32
    → serialize_and_send lib now slot r ≡ (
      record slot {
        send = text_of r.http_version r.code r.reason_phrase fs r.body;
        send_offset = 0;
        state = SlotState.sending;
        last_activity_ms = now;
      },
      arms_write,
    )
unfolding serialize_and_send take_stream finish_serialize Response.serialize_to block
serialize_and_send-text lib now slot r fs held plain room small =
    rw (plain, serialize_room lib slot.send_buffer_size small r fs held room, lib.is_error-ok) refl
