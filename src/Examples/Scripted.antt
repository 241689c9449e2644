-- ===== src/Examples/Scripted.antt =====
-- Connections over a scripted stream: each read brings the next text, and behind the last one the
-- stream is closed.
use http_c.Prelude.{
  ℕ, suc, ◌+◌, ◌≤◌, ◌<◌, ◌≡◌, none, List, [], ◌∷◌, arith, length, leb, if◌then◌else◌,
}
use http_c.Common.{Bytes, ResultCode, ok, error, end_of_data}
use http_c.Span.Reference.{reference}
use http_c.Connection.{Peer, again, arrived, answer_of}
use http_c.Connection.Moving.{Drains}

abbrev pub next_read : ℕ → List Bytes → ResultCode × Bytes × List Bytes
next_read room [] = (end_of_data, [], [])
next_read room (text ∷ script) =
    if leb (length text) room then (ok, text, script) else (error, [], script)

abbrev pub scripted : Peer
scripted = record {
  World = List Bytes;
  stream_read = next_read;
  stream_write = λ text script. (script, ok);
  stream_close = λ script. (script, ok);
  clock_gettime = λ script. (none, script);
  sched_yield = λ script. script;
  body_handler = λ handler context piece script. (ok, script);
}

abbrev pub script_length : List Bytes → ℕ
script_length [] = 0
script_length (text ∷ script) = suc (length text + script_length script)

pub script-arrives :
    (room : ℕ) (script : List Bytes)
    → answer_of reference (next_read room script).0 ≡ arrived
    → script_length (next_read room script).2 + length (next_read room script).1
      < script_length script
unfolding answer_of reference
script-arrives room [] h = cc
script-arrives room (text ∷ script) h = ground arith

pub script-fits :
    (room : ℕ) (script : List Bytes)
    → answer_of reference (next_read room script).0 ≡ arrived
    → length (next_read room script).1 ≤ room
unfolding answer_of reference
script-fits room [] h = cc
script-fits room (text ∷ script) h = ground arith

pub script-waits :
    (room : ℕ) (script : List Bytes)
    → answer_of reference (next_read room script).0 ≡ again
    → script_length (next_read room script).2 < script_length script
unfolding answer_of reference
script-waits room [] h = cc
script-waits room (text ∷ script) h = ground arith

pub script-closes :
    (room : ℕ) (script : List Bytes)
    → script_length (next_read room script).2 ≤ script_length script
script-closes room [] = omega arith
script-closes room (text ∷ script) = ground arith

pub same_le : (n : ℕ) → n ≤ n
same_le n = omega arith

abbrev pub script_drains : Drains reference scripted
script_drains = record {
  measure = script_length;
  fits = script-fits;
  arrives = script-arrives;
  waits = script-waits;
  closes = script-closes;
  clock = λ script. same_le (script_length script);
  yields = λ script. same_le (script_length script);
  handles = λ handler context piece script. same_le (script_length script);
}
