-- ===== src/Server.antt =====
-- src/http_server.c and inc/http_server.h: the table of connection slots and the deferred
-- responses. A slot pointer is an index; a NULL pointer is `none`.
pub mod Deferral
pub mod Timers
pub mod Responding
pub mod Routes
pub mod Receiving
pub mod Reclaim
pub mod Loop
pub mod Lifecycle
use http_c.Prelude.{
  ℕ, zero, suc, ◌+◌, ◌*◌, ◌-◌, ◌%◌, ◌/◌, ◌^◌, Bool, true, false, not, ◌&&◌, ◌||◌, Option, none,
  some, List, [], ◌∷◌, ltb, leb, ◌==◌, if◌then◌else◌, length,
}
use http_c.Common.{Bytes, ResultCode, ok, error, invalid_argument, not_found}
use http_c.Response.{Response}
use http_c.RequestParser.{Parser}

-- http_slot_state_t
pub data SlotState : Type 0 where
  idle handshaking receiving pending sending closing : SlotState

-- http_server_connection_slot_t, without the buffers' addresses. `sd` is the socket descriptor
-- of the connection, `none` for -1; function and context pointers are opaque numbers.
pub record Slot : Type 0 where
  pub in_use : Bool
  pub sd : Option ℕ
  pub recv : Bytes
  pub recv_buffer_size : ℕ
  pub send : Bytes
  pub send_buffer_size : ℕ
  pub state : SlotState
  pub parser : Parser
  pub send_offset : ℕ
  pub registered_events : ℕ
  pub keep_alive : Bool
  pub client_wants_close : Bool
  pub default_headers : Bytes
  pub stream_active : Bool
  pub stream_eof : Bool
  pub stream_provider : Option ℕ
  pub stream_finalizer : Option ℕ
  pub stream_ctx : Option ℕ
  pub generation : ℕ
  pub last_activity_ms : ℕ
  pub pending_deadline_ms : ℕ
  pub pending_ready : Bool
  pub pending_cancelled : Bool
  pub pending_response : Response

-- HTTP_SERVER_RECLAIM_MIN_IDLE_MS
abbrev pub reclaim_min_idle_ms : ℕ
reclaim_min_idle_ms = 1000

abbrev pub is_receiving : SlotState → Bool
is_receiving SlotState.receiving = true
is_receiving _ = false

abbrev pub is_pending : SlotState → Bool
is_pending SlotState.pending = true
is_pending _ = false

-- what acquire_slot stores in the slot that it takes
abbrev pub acquired : ℕ → Slot → Slot
acquired now slot = record slot {
  in_use = true;
  state = SlotState.idle;
  recv = [];
  send = [];
  send_offset = 0;
  registered_events = 0;
  keep_alive = false;
  client_wants_close = false;
  stream_active = false;
  stream_eof = false;
  stream_provider = none;
  stream_finalizer = none;
  stream_ctx = none;
  pending_ready = false;
  pending_cancelled = false;
  pending_deadline_ms = 0;
  last_activity_ms = now;
  sd = some 0;
}

abbrev pub behind : Slot → Option (ℕ × List Slot) → Option (ℕ × List Slot)
behind slot none = none
behind slot (some (i, slots)) = some (suc i, slot ∷ slots)

-- acquire_slot: the index of the slot taken, and the table after it
unfoldable pub acquire_slot : ℕ → List Slot → Option (ℕ × List Slot)
acquire_slot now [] = none
acquire_slot now (slot ∷ slots) =
    if not slot.in_use
    then some (0, acquired now slot ∷ slots)
    else behind slot (acquire_slot now slots)

abbrev pub waits : SlotState → Bool
waits SlotState.handshaking = true
waits SlotState.receiving = true
waits SlotState.sending = true
waits _ = false

-- slot_waits_on_peer
unfoldable pub slot_waits_on_peer : Slot → Bool
slot_waits_on_peer slot = slot.in_use && waits slot.state

-- slot_is_idle_between_requests
unfoldable pub slot_is_idle_between_requests : Slot → Bool
slot_is_idle_between_requests slot = slot.in_use && is_receiving slot.state && length slot.recv == 0

abbrev pub older : Slot → Option (ℕ × Slot) → Bool
older slot none = true
older slot (some (_, other)) = ltb slot.last_activity_ms other.last_activity_ms

-- a time after a time on the clock, in uint64_t
abbrev pub later : ℕ → ℕ → ℕ
later time delta = (time + delta) % 2 ^ 64

-- the part of the test of find_reclaimable_slot that is about the slot alone
abbrev pub may_close : ℕ → Slot → Bool
may_close now slot =
    slot_is_idle_between_requests slot && leb (later slot.last_activity_ms reclaim_min_idle_ms) now

-- the body of that loop, at slot `i`, with the oldest slot so far
unfoldable choose : ℕ → ℕ → Slot → Option (ℕ × Slot) → Option (ℕ × Slot)
choose now i slot oldest =
    if may_close now slot && older slot oldest then some (i, slot) else oldest

-- the loop of find_reclaimable_slot, from slot `i` on
unfoldable reclaim_loop : ℕ → ℕ → Option (ℕ × Slot) → List Slot → Option (ℕ × Slot)
unfolding choose
reclaim_loop now i oldest [] = oldest
reclaim_loop now i oldest (slot ∷ slots) = reclaim_loop now (i + 1) (choose now i slot oldest) slots

-- find_reclaimable_slot
unfoldable pub find_reclaimable_slot : ℕ → List Slot → Option (ℕ × Slot)
unfolding reclaim_loop
find_reclaimable_slot now slots = reclaim_loop now 0 none slots

-- what release_slot stores in the slot that it gives up; the generation is a uint32_t
abbrev pub released : Slot → Slot
released slot = record slot {
  in_use = false;
  state = SlotState.idle;
  pending_ready = false;
  pending_cancelled = false;
  generation = (slot.generation + 1) % 2 ^ 32;
  recv = [];
  send = [];
  send_offset = 0;
  registered_events = 0;
}
