-- ===== src/Server/Reclaim.antt =====
-- find_reclaimable_slot of src/http_server.c: the connection that is closed to admit a client.
use http_c.Prelude.{
  ℕ, zero, suc, ◌+◌, ◌≤◌, ◌≡◌, ap, ◌∙◌, sym, true, Bool-cases, Option, none, some, List, [], ◌∷◌,
  arith, ltb, ◌⊎◌, inl, inr, get_elem?, ◌&&◌, subst, some-injective, ◌%◌, ◌^◌, ◌==◌, ◌↔◌, refl,
  length,
}
use http_c.Common.{Bytes}
use http_c.Server.{
  Slot, SlotState, is_receiving, slot_is_idle_between_requests, choose, reclaim_loop,
  find_reclaimable_slot, may_close, older,
}

-- A candidate that was active no later than a slot.
NoLater : Slot → Option (ℕ × Slot) → Type 0
NoLater slot oldest =
    (m : ℕ) × (s : Slot) × (oldest ≡ some (m, s)) × (s.last_activity_ms ≤ slot.last_activity_ms)

choose-takes :
    (now i : ℕ) (slot : Slot) (oldest : Option (ℕ × Slot))
    → may_close now slot ≡ true
    → NoLater slot (choose now i slot oldest)
unfolding NoLater choose
choose-takes now i slot none h = (i, slot, ground arith, omega arith)
choose-takes now i slot (some (k, other)) h =
    elim (Bool-cases (ltb slot.last_activity_ms other.last_activity_ms)) [
      | inl e ↦ (i, slot, ground arith, omega arith)
      | inr e ↦ (k, other, ground arith, ground arith)
    ]

choose-keeps :
    (now i : ℕ) (slot next : Slot) (oldest : Option (ℕ × Slot))
    → NoLater slot oldest
    → NoLater slot (choose now i next oldest)
unfolding NoLater choose
choose-keeps now i slot next none (m, s, e, least) = absurd (ground arith)
choose-keeps now i slot next (some (k, other)) (m, s, e, least) =
    let same : other.last_activity_ms ≡ s.last_activity_ms =
      ap (λ (p : ℕ × Slot). p.1.last_activity_ms) (some-injective (k, other) (m, s) e) in
    elim (Bool-cases (may_close now next && ltb next.last_activity_ms other.last_activity_ms)) [
      | inl e ↦ (i, next, ground arith, ground arith)
      | inr e ↦ (k, other, ground arith, ground arith)
    ]

choose-from :
    (now i : ℕ) (slot : Slot) (oldest : Option (ℕ × Slot)) {m : ℕ} {s : Slot}
    → choose now i slot oldest ≡ some (m, s)
    → (oldest ≡ some (m, s)) ⊎ ((i ≡ m) × (slot ≡ s) × (may_close now slot ≡ true))
unfolding choose
choose-from now i slot oldest h = elim (Bool-cases (may_close now slot && older slot oldest)) [
  | inl e ↦ inr (ground arith, ground arith, ground arith)
  | inr e ↦ inl (ground arith)
]

reclaim_loop-keeps :
    (now i : ℕ) (slot : Slot) (oldest : Option (ℕ × Slot)) (slots : List Slot)
    → NoLater slot oldest
    → NoLater slot (reclaim_loop now i oldest slots)
unfolding reclaim_loop
reclaim_loop-keeps now i slot oldest [] h = h
reclaim_loop-keeps now i slot oldest (next ∷ slots) h =
    reclaim_loop-keeps now (i + 1) slot (choose now i next oldest) slots
      (choose-keeps now i slot next oldest h)

reclaim_loop-oldest :
    (now i : ℕ) (oldest : Option (ℕ × Slot)) (slots : List Slot) (j : ℕ) (slot : Slot)
    → get_elem? slots j ≡ some slot
    → may_close now slot ≡ true
    → NoLater slot (reclaim_loop now i oldest slots)
unfolding reclaim_loop
reclaim_loop-oldest now i oldest [] j slot e h = absurd (ground arith)
reclaim_loop-oldest now i oldest (next ∷ slots) zero slot e h =
    reclaim_loop-keeps now (i + 1) slot (choose now i next oldest) slots (
      subst (λ (t : Slot). NoLater slot (choose now i t oldest)) (sym (some-injective next slot e))
        (choose-takes now i slot oldest h))
reclaim_loop-oldest now i oldest (next ∷ slots) (suc j) slot e h =
    reclaim_loop-oldest now (i + 1) (choose now i next oldest) slots j slot e h

-- The loop ends with the candidate that it got, or with a slot of the list that may be closed.
reclaim_loop-from :
    (now i : ℕ) (oldest : Option (ℕ × Slot)) (slots : List Slot) {m : ℕ} {s : Slot}
    → reclaim_loop now i oldest slots ≡ some (m, s)
    → (oldest ≡ some (m, s))
      ⊎ ((j : ℕ) × (m ≡ i + j) × (get_elem? slots j ≡ some s) × (may_close now s ≡ true))
unfolding reclaim_loop
reclaim_loop-from now i oldest [] h = inl h
reclaim_loop-from now i oldest (next ∷ slots) {m} {s} h =
    elim (reclaim_loop-from now (i + 1) (choose now i next oldest) slots h) [
      | inl e ↦ elim (choose-from now i next oldest e) [
        | inl e ↦ inl e
        | inr (e, f, g) ↦ inr (0, omega arith, ap some f, ap (may_close now) (sym f) ∙ g)
      ]
      | inr (j, e, f, g) ↦ inr (suc j, omega arith, f, g)
    ]

-- The slot that find_reclaimable_slot answers with stands in the table at that index, holds an
-- open connection between two requests, and had been idle for the minimum.
pub find_reclaimable_slot-some :
    (now : ℕ) (slots : List Slot) {i : ℕ} {slot : Slot}
    → find_reclaimable_slot now slots ≡ some (i, slot)
    → (get_elem? slots i ≡ some slot) × (may_close now slot ≡ true)
unfolding find_reclaimable_slot
find_reclaimable_slot-some now slots {i} h = elim (reclaim_loop-from now 0 none slots h) [
  | inl e ↦ absurd (ground arith)
  | inr (j, e, f, g) ↦ let same : i ≡ j = omega arith in (ap (get_elem? slots) same ∙ f, g)
]

-- A slot that may be closed at that time: it holds a connection that receives, with nothing of a
-- next request, and was last active a second ago or earlier, by a clock of 64 bits.
pub record MayClose (now : ℕ) (slot : Slot) : Type 0 where
  pub used : slot.in_use ≡ true
  pub receives : slot.state ≡ SlotState.receiving
  pub nothing_received : slot.recv ≡ []
  pub rested : (slot.last_activity_ms + 1000) % 2 ^ 64 ≤ now

nothing_in : (s : Bytes) → (length s == 0) ≡ true → s ≡ []
nothing_in [] h = refl
nothing_in (c ∷ s) h = absurd (ground arith)

receives_only : (state : SlotState) → is_receiving state ≡ true → state ≡ SlotState.receiving
receives_only state h = ground arith

may_close_iff : (now : ℕ) (slot : Slot) → (may_close now slot ≡ true) ↔ MayClose now slot
unfolding slot_is_idle_between_requests
may_close_iff now slot = (
  λ h. record {
    used = ground arith;
    receives = receives_only slot.state (ground arith);
    nothing_received = nothing_in slot.recv (ground arith);
    rested = ground arith;
  },
  λ m.
      let used = m.used in
      let receives = m.receives in
      let empty = ap length m.nothing_received in let rested = m.rested in ground arith,
)

-- Where the table has a slot that may be closed, find_reclaimable_slot answers with a slot of the
-- table that may be closed, with its index, and that slot was active no later than any other slot
-- that may be closed.
pub find_reclaimable_slot-oldest :
    (now : ℕ) (slots : List Slot) (j : ℕ) (slot : Slot)
    → get_elem? slots j ≡ some slot
    → MayClose now slot
    → (i : ℕ) × (s : Slot) × (find_reclaimable_slot now slots ≡ some (i, s))
      × (get_elem? slots i ≡ some s)
      × MayClose now s
      × (s.last_activity_ms ≤ slot.last_activity_ms)
unfolding find_reclaimable_slot NoLater
find_reclaimable_slot-oldest now slots j slot e h =
    let (i, s, found, least) =
      reclaim_loop-oldest now 0 none slots j slot e ((may_close_iff now slot).1 h) in
    let (there, may) = find_reclaimable_slot-some now slots found in
    (i, s, found, there, (may_close_iff now s).0 may, least)
