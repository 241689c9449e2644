-- ===== src/Server/Deferral.antt =====
-- The deferred responses of src/http_server.c: tickets, completion from worker threads, and what
-- the loop thread claims. Every function here runs under `pending_mutex`, so it is one step.
pub mod Tickets
pub mod Address
pub mod Early
use http_c.Prelude.{
  ℕ, zero, suc, ◌+◌, ◌*◌, ◌-◌, ◌%◌, ◌/◌, ◌^◌, Bool, true, false, not, ◌&&◌, ◌||◌, Option, none,
  some, List, [], ◌∷◌, ltb, leb, ◌==◌, if◌then◌else◌, length,
}
use http_c.Common.{ResultCode, ok, error, invalid_argument, not_found}
use http_c.Response.{Response}
use http_c.Server.{Slot, SlotState, is_pending, later}

-- Where the array of slots lies: its address, and the size of one slot.
pub record Storage : Type 0 where
  pub base : ℕ
  pub stride : ℕ
  pub slots : List Slot

-- http_deferral_t: pointers are addresses, 0 is NULL.
pub record Deferral : Type 0 where
  pub server : ℕ
  pub slot : ℕ
  pub generation : ℕ

abbrev pub no_ticket : Deferral
no_ticket = record { server = 0; slot = 0; generation = 0 }

-- http_exchange_defer, for the server at an address: the ticket, and `defer_requested`. `none` is
-- a NULL exchange or an exchange without a slot.
unfoldable pub http_exchange_defer : ℕ → Storage → Option (ℕ × Slot) → Deferral × Bool
http_exchange_defer server storage none = (no_ticket, false)
http_exchange_defer server storage (some (i, slot)) = (
  record {
    server = server;
    slot = storage.base + i * storage.stride;
    generation = slot.generation;
  },
  true,
)

-- deferral_slot: the index of the slot that the ticket points at
unfoldable pub deferral_slot : Storage → Deferral → Option ℕ
deferral_slot storage deferral =
    if deferral.server == 0 || deferral.slot == 0
    then none
    else let extent = length storage.slots * storage.stride in
      let probe = deferral.slot in
      if ltb probe storage.base
        || leb (storage.base + extent) probe
        || not ((probe - storage.base) % storage.stride == 0)
      then none
      else some ((probe - storage.base) / storage.stride)

-- The part of deferral_post under the lock. `none` is a cancellation.
unfoldable pub post : Slot → ℕ → Option Response → Slot × ResultCode
post slot generation completion =
    if not slot.in_use || not (is_pending slot.state) || not (slot.generation == generation)
    then (slot, not_found)
    else if slot.pending_ready || slot.pending_cancelled
    then (slot, error)
    else elim completion [
      | none ↦ (record slot { pending_cancelled = true }, ok)
      | some response ↦ (record slot { pending_response = response; pending_ready = true }, ok)
    ]

-- `post` on the slot of that index
unfoldable pub post_at : ℕ → ℕ → Option Response → List Slot → List Slot × ResultCode
unfolding post
post_at i generation completion [] = ([], invalid_argument)
post_at zero generation completion (slot ∷ slots) =
    let (slot', result) = post slot generation completion in (slot' ∷ slots, result)
post_at (suc i) generation completion (slot ∷ slots) =
    let (slots', result) = post_at i generation completion slots in (slot ∷ slots', result)

-- deferral_post; the wake-up of the loop that follows a success changes nothing here
unfoldable pub deferral_post : Storage → Deferral → Option Response → Storage × ResultCode
unfolding deferral_slot post_at
deferral_post storage deferral completion = elim (deferral_slot storage deferral) [
  | none ↦ (storage, invalid_argument)
  | some i ↦
      let (slots, result) = post_at i deferral.generation completion storage.slots in
      (record storage { slots = slots }, result)
]

-- http_deferral_complete; `none` is a NULL response
unfoldable pub http_deferral_complete : Storage → Deferral → Option Response → Storage × ResultCode
unfolding deferral_post
http_deferral_complete storage deferral none = (storage, invalid_argument)
http_deferral_complete storage deferral (some response) =
    deferral_post storage deferral (some response)

-- http_deferral_cancel
unfoldable pub http_deferral_cancel : Storage → Deferral → Storage × ResultCode
unfolding deferral_post
http_deferral_cancel storage deferral = deferral_post storage deferral none

-- run_handler_and_serialize on http_handler_defer: the connection is parked
unfoldable pub park : ℕ → ℕ → Slot → Slot
park now timeout slot = record slot {
  pending_ready = false;
  pending_cancelled = false;
  pending_deadline_ms = later now timeout;
  state = SlotState.pending;
}

-- What a round of flush_pending_responses claims from a slot: an answer, or a cancellation.
pub data Claim : Type 0 where
  nothing cancelled : Claim
  answer : Response → Claim

-- the part of flush_pending_responses under the lock
unfoldable pub claim_response : Slot → Slot × Claim
claim_response slot =
    if slot.in_use && is_pending slot.state && (slot.pending_ready || slot.pending_cancelled)
    then (
      record slot { pending_ready = false; pending_cancelled = false; state = SlotState.sending },
      (if slot.pending_cancelled then cancelled else answer slot.pending_response),
    )
    else (slot, nothing)

-- the part of sweep_pending_deadlines under the lock: whether the deadline has passed
unfoldable pub claim_expired : ℕ → Slot → Slot × Bool
claim_expired now slot =
    if slot.in_use
      && is_pending slot.state
      && not slot.pending_ready
      && not slot.pending_cancelled
      && leb slot.pending_deadline_ms now
    then (record slot { state = SlotState.sending }, true)
    else (slot, false)
