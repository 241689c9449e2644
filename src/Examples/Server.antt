-- ===== src/Examples/Server.antt =====
-- Slots, tickets and deadlines of the server.
use http_c.Prelude.{
  get_elem?, ℕ, ◌+◌, ◌≤◌, ◌≡◌, ◌↔◌, ◌⊎◌, refl, some, none, List, [], ◌∷◌, arith, true, false,
}
use http_c.Common.{ok, error, not_found}
use http_c.Headers.{no_headers}
use http_c.Prelude.Text.{bytes}
use http_c.Response.{Response}
use http_c.RequestParser.{init}
use http_c.Server.{Slot, SlotState, acquired, released, find_reclaimable_slot}
use http_c.Server.Reclaim.{MayClose, find_reclaimable_slot-oldest}
use http_c.Server.Deferral.{Storage, Deferral, post, park, claim_response, nothing, answer}
use http_c.Server.Deferral.Tickets.{
  Awaits, post-ok_iff, post_once, takes, parks, History, start, step, gives_up, post-History,
}
use http_c.Server.Timers.{next_tick_ms, deferral}
use http_c.Server.Timers.Wake.{next_tick_ms-Wants}

abbrev no_response : Response
no_response = record {
  http_version = [];
  code = [];
  reason_phrase = [];
  headers = no_headers;
  body = [];
  body_provider = none;
  body_finalizer = none;
  body_provider_context = none;
}

abbrev pub greeting : Response
greeting = record no_response { body = b'h' ∷ b'i' ∷ [] }

-- A connection between two requests, without progress since that time.
abbrev pub idle_since : ℕ → Slot
idle_since time = record {
  in_use = true;
  sd = some 7;
  recv = [];
  recv_buffer_size = 4096;
  send = [];
  send_buffer_size = 4096;
  state = SlotState.receiving;
  parser = init;
  send_offset = 0;
  registered_events = 1;
  keep_alive = false;
  client_wants_close = false;
  default_headers = bytes "--------------------------------";
  stream_active = false;
  stream_eof = false;
  stream_provider = none;
  stream_finalizer = none;
  stream_ctx = none;
  generation = 3;
  last_activity_ms = time;
  pending_deadline_ms = 0;
  pending_ready = false;
  pending_cancelled = false;
  pending_response = no_response;
}

abbrev table : List Slot
table = idle_since 900 ∷ idle_since 500 ∷ idle_since 2000 ∷ []

find_reclaimable_slot-oldest_example :
    (i : ℕ) × (s : Slot) × (find_reclaimable_slot 2500 table ≡ some (i, s))
    × (get_elem? table i ≡ some s)
    × MayClose 2500 s
    × (s.last_activity_ms ≤ 900)
find_reclaimable_slot-oldest_example =
    find_reclaimable_slot-oldest 2500 table 0 (idle_since 900) refl
      (record { used = refl; receives = refl; nothing_received = refl; rested = omega arith })

abbrev pub parked : Slot
parked = record (idle_since 500) { state = SlotState.pending; pending_deadline_ms = 3000 }

abbrev storage : Storage
storage = record { base = 1000; stride = 24; slots = table }

abbrev ticket : Deferral
ticket = record { server = 16; slot = 1024; generation = 3 }

post-ok_iff_example : ((post parked 3 (some greeting)).1 ≡ ok) ↔ Awaits 3 parked
post-ok_iff_example = post-ok_iff parked 3 (some greeting)

abbrev posted : Slot
posted = record parked { pending_response = greeting; pending_ready = true }

post_once_example :
    (post posted 3 none ≡ (posted, error))
    × ((claim_response posted).1 ≡ answer greeting)
    × ((claim_response (claim_response posted).0).1 ≡ nothing)
    × ((post (claim_response posted).0 3 none).1 ≡ not_found)
unfolding post
post_once_example = post_once parked 3 (some greeting) none refl

-- The ticket's slot is given up, taken by another connection and parked again.
abbrev parked_again : Slot
parked_again = park 5000 30000 (acquired 4000 (released parked))

losses : History parked 1 parked_again
losses =
    step (step (gives_up start) (takes 4000 (released parked)))
      (parks 5000 30000 (acquired 4000 (released parked)))

post-History_example : post parked_again 3 (some greeting) ≡ (parked_again, not_found)
post-History_example = post-History (some greeting) (omega arith) losses (omega arith)

next_tick_ms-Wants_example :
    (ms : ℕ) × (next_tick_ms true 60000 2500 (parked ∷ table) ≡ some ms)
    × (ms ≤ 1000)
    × ((ms ≡ 0) ⊎ (2500 + ms ≤ 3000))
next_tick_ms-Wants_example =
    next_tick_ms-Wants true 60000 2500 (parked ∷ table) 0 parked 3000 refl (deferral refl refl)
