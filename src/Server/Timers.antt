-- ===== src/Server/Timers.antt =====
-- consider_deadline and next_tick_ms of src/http_server.c: how long the event loop may sleep. The
-- time is a uint64_t in milliseconds; the answer -1, to block until an event, is `none`.
pub mod Soonest
pub mod Wake
use http_c.Prelude.{
  ℕ, zero, suc, ◌+◌, ◌-◌, ◌*◌, ◌%◌, ◌^◌, ◌≤◌, ◌<◌, ◌≡◌, refl, ap, ◌∙◌, sym, true, false, Bool,
  Bool-cases, not, Option, none, some, List, [], ◌∷◌, arith, ltb, leb, ◌⊎◌, inl, inr, Option-cases,
  get_elem?, ◌&&◌, subst, some-injective, if◌then◌else◌,
}
use http_c.Server.{
  Slot, is_pending, later, slot_waits_on_peer, slot_is_idle_between_requests, reclaim_min_idle_ms,
}

-- consider_deadline: `none` stands for `any` being false
unfoldable consider_deadline : Option ℕ → ℕ → Option ℕ
consider_deadline none deadline = some deadline
consider_deadline (some soonest) deadline =
    if ltb deadline soonest then some deadline else some soonest

-- a loop over the slots
unfoldable for_slots : (Option ℕ → Slot → Option ℕ) → Option ℕ → List Slot → Option ℕ
for_slots step soonest [] = soonest
for_slots step soonest (slot ∷ slots) = for_slots step (step soonest slot) slots

-- consider_deadline under a test
unfoldable consider_if : Bool → Option ℕ → ℕ → Option ℕ
unfolding consider_deadline
consider_if true soonest deadline = consider_deadline soonest deadline
consider_if false soonest deadline = soonest

-- the body of the first loop of next_tick_ms
unfoldable consider_pending : Option ℕ → Slot → Option ℕ
unfolding consider_if
consider_pending soonest slot =
    consider_if (slot.in_use && is_pending slot.state) soonest slot.pending_deadline_ms

-- the body of the second loop of next_tick_ms
unfoldable consider_peer : Bool → ℕ → Option ℕ → Slot → Option ℕ
unfolding consider_if
consider_peer listen_registered idle_timeout soonest slot =
    consider_if (not listen_registered && slot_is_idle_between_requests slot)
      (consider_if (slot_waits_on_peer slot) soonest (later slot.last_activity_ms idle_timeout))
      (later slot.last_activity_ms reclaim_min_idle_ms)

-- the end of next_tick_ms: at most a second, and nothing where the deadline has come
unfoldable sleep_until : ℕ → Option ℕ → Option ℕ
sleep_until now none = none
sleep_until now (some soonest) =
    if leb soonest now
    then some 0
    else if ltb 1000 (soonest - now)
    then some 1000
    else some (soonest - now)

-- next_tick_ms, with the clock's value at its end
unfoldable pub next_tick_ms : Bool → ℕ → ℕ → List Slot → Option ℕ
unfolding for_slots consider_pending consider_peer sleep_until
next_tick_ms listen_registered idle_timeout now slots = sleep_until now (
    for_slots (consider_peer listen_registered idle_timeout) (for_slots consider_pending none slots)
      slots)

-- The times at which a slot needs the loop: the deadline of a deferral, the end of the idle
-- timeout, and the moment from which it may be closed to admit a client.
pub data Wants (listen_registered : Bool) (idle_timeout : ℕ) (slot : Slot) : ℕ → Type 0 where
  deferral :
      slot.in_use ≡ true
      → is_pending slot.state ≡ true
      → Wants listen_registered idle_timeout slot slot.pending_deadline_ms
  progress :
      slot_waits_on_peer slot ≡ true
      → Wants listen_registered idle_timeout slot (later slot.last_activity_ms idle_timeout)
  reclaim :
      listen_registered ≡ false
      → slot_is_idle_between_requests slot ≡ true
      → Wants listen_registered idle_timeout slot (later slot.last_activity_ms reclaim_min_idle_ms)
