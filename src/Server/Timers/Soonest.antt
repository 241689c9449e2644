-- ===== src/Server/Timers/Soonest.antt =====
-- The loops of next_tick_ms: the deadlines that they pass over and the one that they keep.
use http_c.Prelude.{
  ℕ, zero, suc, ◌≤◌, ◌≡◌, refl, sym, true, false, Bool, Bool-cases, not, Option, none, some, List,
  [], ◌∷◌, arith, ltb, ◌⊎◌, inl, inr, get_elem?, ◌&&◌, subst, some-injective,
}
use http_c.Server.{
  Slot, is_pending, later, slot_waits_on_peer, slot_is_idle_between_requests, reclaim_min_idle_ms,
}
use http_c.Server.Timers.{
  consider_deadline, consider_if, consider_pending, consider_peer, for_slots, Wants, deferral,
  progress, reclaim,
}

-- A deadline so far that is no later than a time.
unfoldable pub By : ℕ → Option ℕ → Type 0
By time soonest = (m : ℕ) × (soonest ≡ some m) × (m ≤ time)

pub consider_if-takes :
    (b : Bool) (soonest : Option ℕ) (d : ℕ) → b ≡ true → By d (consider_if b soonest d)
unfolding consider_if consider_deadline By
consider_if-takes false soonest d h = absurd (ground arith)
consider_if-takes true none d h = (d, refl, omega arith)
consider_if-takes true (some s) d h = elim (Bool-cases (ltb d s)) [
  | inl e ↦ (d, ground arith, omega arith)
  | inr e ↦ (s, ground arith, ground arith)
]

pub consider_if-keeps :
    (b : Bool) (soonest : Option ℕ) (d t : ℕ) → By t soonest → By t (consider_if b soonest d)
unfolding consider_if consider_deadline By
consider_if-keeps false soonest d t h = h
consider_if-keeps true none d t (m, e, h) = absurd (ground arith)
consider_if-keeps true (some s) d t (m, e, h) = elim (Bool-cases (ltb d s)) [
  | inl k ↦ (d, ground arith, ground arith)
  | inr k ↦ (s, ground arith, ground arith)
]

consider_if-from :
    (b : Bool) (soonest : Option ℕ) (d : ℕ) {m : ℕ}
    → consider_if b soonest d ≡ some m
    → (soonest ≡ some m) ⊎ ((b ≡ true) × (d ≡ m))
unfolding consider_if consider_deadline
consider_if-from false soonest d h = inl h
consider_if-from true none d h = inr (refl, ground arith)
consider_if-from true (some s) d h = elim (Bool-cases (ltb d s)) [
  | inl e ↦ inr (refl, ground arith)
  | inr e ↦ inl (ground arith)
]

-- What a step of the loops does with the deadlines of a slot: those so far stay met, and what it
-- answers is one so far or one that the slot has.
module _ (step : Option ℕ → Slot → Option ℕ)
    (keeps : (soonest : Option ℕ) (slot : Slot) (t : ℕ)
      → By t soonest
      → By t (step soonest slot)) where
  pub for_slots-keeps :
      (soonest : Option ℕ) (slots : List Slot) (t : ℕ)
      → By t soonest
      → By t (for_slots step soonest slots)
  unfolding for_slots
  for_slots-keeps soonest [] t h = h
  for_slots-keeps soonest (slot ∷ slots) t h =
      for_slots-keeps (step soonest slot) slots t (keeps soonest slot t h)

  pub for_slots-takes :
      (soonest : Option ℕ) (slots : List Slot) (j : ℕ) (slot : Slot) (t : ℕ)
      → get_elem? slots j ≡ some slot
      → ((o : Option ℕ) → By t (step o slot))
      → By t (for_slots step soonest slots)
  unfolding for_slots
  for_slots-takes soonest [] j slot t e h = absurd (ground arith)
  for_slots-takes soonest (next ∷ slots) zero slot t e h =
      for_slots-keeps (step soonest next) slots t
        (subst (λ (s : Slot). By t (step soonest s)) (sym (some-injective next slot e)) (h soonest))
  for_slots-takes soonest (next ∷ slots) (suc j) slot t e h =
      for_slots-takes (step soonest next) slots j slot t e h

-- Some slot of the table wants the time.
abbrev pub Wanted : Bool → ℕ → List Slot → ℕ → Type 0
Wanted listen_registered idle_timeout slots time =
    (j : ℕ) × (slot : Slot) × (get_elem? slots j ≡ some slot)
    × Wants listen_registered idle_timeout slot time

module _ (listen_registered : Bool) (idle_timeout : ℕ) (step : Option ℕ → Slot → Option ℕ)
    (from : (soonest : Option ℕ) (slot : Slot) (m : ℕ)
      → step soonest slot ≡ some m
      → (soonest ≡ some m) ⊎ Wants listen_registered idle_timeout slot m) where
  pub for_slots-from :
      (soonest : Option ℕ) (slots : List Slot) (m : ℕ)
      → for_slots step soonest slots ≡ some m
      → (soonest ≡ some m) ⊎ Wanted listen_registered idle_timeout slots m
  unfolding for_slots
  for_slots-from soonest [] m h = inl h
  for_slots-from soonest (slot ∷ slots) m h = elim (for_slots-from (step soonest slot) slots m h) [
    | inl e ↦ elim (from soonest slot m e) [ inl e ↦ inl e | inr w ↦ inr (0, slot, refl, w) ]
    | inr (j, s, e, w) ↦ inr (suc j, s, e, w)
  ]

pub consider_pending-keeps :
    (soonest : Option ℕ) (slot : Slot) (t : ℕ) → By t soonest → By t (consider_pending soonest slot)
unfolding consider_pending
consider_pending-keeps soonest slot t h = consider_if-keeps _ soonest _ t h

pub consider_pending-from :
    (listen_registered : Bool) (idle_timeout : ℕ) (soonest : Option ℕ) (slot : Slot) (m : ℕ)
    → consider_pending soonest slot ≡ some m
    → (soonest ≡ some m) ⊎ Wants listen_registered idle_timeout slot m
unfolding consider_pending
consider_pending-from listen_registered idle_timeout soonest slot m h =
    elim (consider_if-from (slot.in_use && is_pending slot.state) soonest slot.pending_deadline_ms
      h) [
        | inl e ↦ inl e
        | inr (b, e) ↦ inr (
            subst (Wants listen_registered idle_timeout slot) e
              (deferral (ground arith) (ground arith)))
      ]

module _ (listen_registered : Bool) (idle_timeout : ℕ) where
  pub consider_peer-keeps :
      (soonest : Option ℕ) (slot : Slot) (t : ℕ)
      → By t soonest
      → By t (consider_peer listen_registered idle_timeout soonest slot)
  unfolding consider_peer
  consider_peer-keeps soonest slot t h =
      consider_if-keeps _ _ _ t (consider_if-keeps _ soonest _ t h)

  pub consider_peer-from :
      (soonest : Option ℕ) (slot : Slot) (m : ℕ)
      → consider_peer listen_registered idle_timeout soonest slot ≡ some m
      → (soonest ≡ some m) ⊎ Wants listen_registered idle_timeout slot m
  unfolding consider_peer
  consider_peer-from soonest slot m h =
      elim (consider_if-from (not listen_registered && slot_is_idle_between_requests slot) _
        (later slot.last_activity_ms reclaim_min_idle_ms) h) [
          | inl e ↦
              elim (consider_if-from (slot_waits_on_peer slot) soonest
                (later slot.last_activity_ms idle_timeout) e) [
                  | inl e ↦ inl e
                  | inr (b, e) ↦
                      inr (subst (Wants listen_registered idle_timeout slot) e (progress b))
                ]
          | inr (b, e) ↦ inr (
              subst (Wants listen_registered idle_timeout slot) e
                (reclaim (ground arith) (ground arith)))
        ]
