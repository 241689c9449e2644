-- ===== src/Examples/Multipart.antt =====
-- A form with a text field and a file.
use http_c.Prelude.{[], ◌≡◌, refl, true, false, none, some, ◌++◌}
use http_c.Prelude.Text.{bytes}
use http_c.Common.{Bytes, ok}
use http_c.Span.Reference.{reference}
use http_c.Multipart.{MpIterator, MpPart, mp_iterator_init, mp_iterator_next}
use http_c.Multipart.Parts.{TakesPart, mp_iterator_next-TakesPart}

abbrev form : Bytes
form =
    bytes "--xyz\r\nContent-Disposition: form-data; name=\"note\"\r\n\r\nhi --x\r\n"
    ++ bytes "--xyz\r\nContent-Disposition: form-data; name=\"f\"; filename=\"a.txt\"\r\n"
    ++ bytes "Content-Type: text/plain\r\n\r\nabc\r\n--xyz--\r\n"

abbrev at_start : MpIterator
at_start = record { boundary = bytes "xyz"; cursor = form; done = false }

abbrev at_file : MpIterator
at_file = record {
  boundary = bytes "xyz";
  cursor =
      bytes "--xyz\r\nContent-Disposition: form-data; name=\"f\"; filename=\"a.txt\"\r\n"
      ++ bytes "Content-Type: text/plain\r\n\r\nabc\r\n--xyz--\r\n";
  done = false;
}

abbrev at_end : MpIterator
at_end = record { boundary = bytes "xyz"; cursor = bytes "--xyz--\r\n"; done = false }

abbrev note : MpPart
note = record { name = bytes "note"; filename = []; content_type = []; part_data = bytes "hi --x" }

abbrev file : MpPart
file = record {
  name = bytes "f";
  filename = bytes "a.txt";
  content_type = bytes "text/plain";
  part_data = bytes "abc";
}

init_form :
    mp_iterator_init reference (some at_end) (bytes "multipart/form-data; boundary=\"xyz\"") form
    ≡ (some at_start, ok)
unfolding mp_iterator_init reference
init_form = refl

next_note : mp_iterator_next reference at_start ≡ (at_file, some note)
unfolding mp_iterator_next reference
next_note = refl

next_file : mp_iterator_next reference at_file ≡ (at_end, some file)
unfolding mp_iterator_next reference
next_file = refl

next_end : mp_iterator_next reference at_end ≡ (record at_end { done = true }, none)
unfolding mp_iterator_next reference
next_end = refl

mp_iterator_next-TakesPart_example : TakesPart reference at_start at_file note
mp_iterator_next-TakesPart_example = mp_iterator_next-TakesPart reference at_start next_note
