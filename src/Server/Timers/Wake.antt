-- ===== src/Server/Timers/Wake.antt =====
-- next_tick_ms: the loop wakes for the first deadline of any slot.
use http_c.Prelude.{
  ℕ, ◌+◌, ◌-◌, ◌≤◌, ◌≡◌, refl, true, false, Bool, Bool-cases, not, Option, none, some, List, arith,
  ltb, leb, ◌⊎◌, inl, inr, get_elem?, ◌&&◌,
}
use http_c.Server.{
  Slot, is_pending, later, slot_waits_on_peer, slot_is_idle_between_requests, reclaim_min_idle_ms,
}
use http_c.Server.Timers.{
  consider_pending, consider_peer, for_slots, sleep_until, next_tick_ms, Wants, deferral, progress,
  reclaim,
}
use http_c.Server.Timers.Soonest.{
  By, Wanted, consider_if-takes, consider_if-keeps, for_slots-keeps, for_slots-takes,
  for_slots-from, consider_pending-keeps, consider_pending-from, consider_peer-keeps,
  consider_peer-from,
}

-- What the two loops of next_tick_ms find.
soonest_of : Bool → ℕ → List Slot → Option ℕ
soonest_of listen_registered idle_timeout slots =
    for_slots (consider_peer listen_registered idle_timeout) (for_slots consider_pending none slots)
      slots

module _ (listen_registered : Bool) (idle_timeout : ℕ) where
  consider_peer-progress :
      (soonest : Option ℕ) (slot : Slot)
      → slot_waits_on_peer slot ≡ true
      → By
          (later slot.last_activity_ms idle_timeout)
          (consider_peer listen_registered idle_timeout soonest slot)
  unfolding consider_peer
  consider_peer-progress soonest slot h =
      consider_if-keeps _ _ _ (later slot.last_activity_ms idle_timeout)
        (consider_if-takes _ soonest _ h)

  consider_peer-reclaim :
      (soonest : Option ℕ) (slot : Slot)
      → listen_registered ≡ false
      → slot_is_idle_between_requests slot ≡ true
      → By
          (later slot.last_activity_ms reclaim_min_idle_ms)
          (consider_peer listen_registered idle_timeout soonest slot)
  unfolding consider_peer
  consider_peer-reclaim soonest slot h k =
      consider_if-takes (not listen_registered && slot_is_idle_between_requests slot) _
        (later slot.last_activity_ms reclaim_min_idle_ms) (ground arith)

  consider_pending-deferral :
      (soonest : Option ℕ) (slot : Slot)
      → slot.in_use ≡ true
      → is_pending slot.state ≡ true
      → By slot.pending_deadline_ms (consider_pending soonest slot)
  unfolding consider_pending
  consider_pending-deferral soonest slot h k =
      consider_if-takes _ soonest slot.pending_deadline_ms (ground arith)

  soonest_of-By :
      (slots : List Slot) (j : ℕ) (slot : Slot) {t : ℕ}
      → get_elem? slots j ≡ some slot
      → Wants listen_registered idle_timeout slot t
      → By t (soonest_of listen_registered idle_timeout slots)
  unfolding soonest_of
  soonest_of-By slots j slot e (deferral used waits) =
      for_slots-keeps (consider_peer listen_registered idle_timeout)
        (consider_peer-keeps listen_registered idle_timeout) (for_slots consider_pending none slots)
        slots slot.pending_deadline_ms
        (for_slots-takes consider_pending consider_pending-keeps none slots j slot
          slot.pending_deadline_ms e (λ o. consider_pending-deferral o slot used waits))
  soonest_of-By slots j slot e (progress waits) =
      for_slots-takes (consider_peer listen_registered idle_timeout)
        (consider_peer-keeps listen_registered idle_timeout) (for_slots consider_pending none slots)
        slots j slot _ e (λ o. consider_peer-progress o slot waits)
  soonest_of-By slots j slot e (reclaim closed idle) =
      for_slots-takes (consider_peer listen_registered idle_timeout)
        (consider_peer-keeps listen_registered idle_timeout) (for_slots consider_pending none slots)
        slots j slot _ e (λ o. consider_peer-reclaim o slot closed idle)

  soonest_of-Wanted :
      (slots : List Slot) (m : ℕ)
      → soonest_of listen_registered idle_timeout slots ≡ some m
      → Wanted listen_registered idle_timeout slots m
  unfolding soonest_of
  soonest_of-Wanted slots m h =
      elim (for_slots-from listen_registered idle_timeout
        (consider_peer listen_registered idle_timeout)
        (consider_peer-from listen_registered idle_timeout) _ slots m h) [
          | inl e ↦
              elim (for_slots-from listen_registered idle_timeout consider_pending
                (consider_pending-from listen_registered idle_timeout) none slots m e) [
                  | inl e ↦ absurd (ground arith)
                  | inr w ↦ w
                ]
          | inr w ↦ w
        ]

sleep_until-By :
    (now t : ℕ) (soonest : Option ℕ)
    → By t soonest
    → (ms : ℕ) × (sleep_until now soonest ≡ some ms) × (ms ≤ 1000) × ((ms ≡ 0) ⊎ (now + ms ≤ t))
unfolding sleep_until By
sleep_until-By now t none (m, e, h) = absurd (ground arith)
sleep_until-By now t (some s) (m, e, h) = elim (Bool-cases (leb s now)) [
  | inl k ↦ (0, ground arith, omega arith, inl refl)
  | inr k ↦ elim (Bool-cases (ltb 1000 (s - now))) [
    | inl l ↦ (1000, ground arith, omega arith, inr (ground arith))
    | inr l ↦ (s - now, ground arith, ground arith, inr (ground arith))
  ]
]

sleep_until-zero :
    (now : ℕ) (soonest : Option ℕ)
    → sleep_until now soonest ≡ some 0
    → (m : ℕ) × (soonest ≡ some m) × (m ≤ now)
unfolding sleep_until
sleep_until-zero now none h = absurd (ground arith)
sleep_until-zero now (some s) h = (s, refl, ground arith)

-- Where a slot of the table wants a time, the loop does not block until an event: it sleeps for a
-- second at most, and not past that time, or not at all.
pub next_tick_ms-Wants :
    (listen_registered : Bool) (idle_timeout now : ℕ) (slots : List Slot) (j : ℕ) (slot : Slot)
    (time : ℕ)
    → get_elem? slots j ≡ some slot
    → Wants listen_registered idle_timeout slot time
    → (ms : ℕ) × (next_tick_ms listen_registered idle_timeout now slots ≡ some ms)
      × (ms ≤ 1000)
      × ((ms ≡ 0) ⊎ (now + ms ≤ time))
unfolding next_tick_ms soonest_of
next_tick_ms-Wants listen_registered idle_timeout now slots j slot time e w =
    sleep_until-By now time _ (soonest_of-By listen_registered idle_timeout slots j slot e w)

-- The loop polls without sleeping only where some slot wants a time that has come.
pub next_tick_ms-zero :
    (listen_registered : Bool) (idle_timeout now : ℕ) (slots : List Slot)
    → next_tick_ms listen_registered idle_timeout now slots ≡ some 0
    → (time : ℕ) × (time ≤ now) × Wanted listen_registered idle_timeout slots time
unfolding next_tick_ms soonest_of
next_tick_ms-zero listen_registered idle_timeout now slots h =
    let (m, e, le) = sleep_until-zero now _ h in
    (m, le, soonest_of-Wanted listen_registered idle_timeout slots m e)
