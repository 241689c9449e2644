-- ===== src/Server/Loop/Sweeps.antt =====
-- What the idle sweep and the tear-down do to each slot of the table.
use http_c.Prelude.{
  ℕ, zero, suc, ◌≡◌, ap, ◌∙◌, true, false, some, List, [], ◌∷◌, get_elem?, some-injective, arith,
  ◌+◌, ◌%◌, ◌^◌, ◌≤◌, ◌⊎◌, ◌↔◌, Bool-cases, inl, inr,
}
use http_c.Span.{CommonLib}
use http_c.Server.{Slot, SlotState, waits, slot_waits_on_peer}
use http_c.Server.Loop.{
  Env, Shared, slot_close, end_stream, leave_loop, call_deinit, listener_rearm, call_now,
}
use http_c.Server.Loop.Table.{
  each_slot, is_timed_out, time_out_slot, sweep_idle_connections, tear_down_slot, tear_down,
}

module _ {World : Type 0} (step : Slot → Shared World → Slot × Shared World) where
  -- Each slot is what the step makes of it, in some shared state.
  each_slot-at :
      (slots : List Slot) (shared : Shared World) (i : ℕ) (slot : Slot)
      → get_elem? slots i ≡ some slot
      → (before : Shared World) × (get_elem? (each_slot step slots shared).0 i
          ≡ some (step slot before).0)
  unfolding each_slot
  each_slot-at [] shared i slot e = absurd (ground arith)
  each_slot-at (first ∷ slots) shared zero slot e =
      (shared, ap (λ (s : Slot). some (step s shared).0) (some-injective first slot e))
  each_slot-at (first ∷ slots) shared (suc i) slot e =
      each_slot-at slots (step first shared).1 i slot e

  -- What every step keeps of the shared state.
  each_slot-keeps :
      (P : Shared World → Type 0)
      → ((slot : Slot) (shared : Shared World) → P shared → P (step slot shared).1)
      → (slots : List Slot) (shared : Shared World) → P shared
      → P (each_slot step slots shared).1
  unfolding each_slot
  each_slot-keeps P keeps [] shared p = p
  each_slot-keeps P keeps (slot ∷ slots) shared p =
      each_slot-keeps P keeps slots (step slot shared).1 (keeps slot shared p)

module _ (lib : CommonLib) (env : Env) where
  open env use {World}

  -- A connection that the peer has to move on, in a handshake, receiving or sending, has been
  -- without activity for the idle timeout, by a clock of 64 bits.
  pub record HasTimedOut (now : ℕ) (slot : Slot) : Type 0 where
    pub used : slot.in_use ≡ true
    pub waits_on_peer :
        (slot.state ≡ SlotState.handshaking)
        ⊎ ((slot.state ≡ SlotState.receiving) ⊎ (slot.state ≡ SlotState.sending))
    pub elapsed : (slot.last_activity_ms + env.idle_timeout_ms) % 2 ^ 64 ≤ now

  waits_cases :
      (state : SlotState)
      → waits state ≡ true
      → (state ≡ SlotState.handshaking)
        ⊎ ((state ≡ SlotState.receiving) ⊎ (state ≡ SlotState.sending))
  waits_cases state h = ground arith

  is_timed_out_iff :
      (now : ℕ) (slot : Slot) → (is_timed_out lib env now slot ≡ true) ↔ HasTimedOut now slot
  unfolding is_timed_out slot_waits_on_peer
  is_timed_out_iff now slot = (
    λ h. record {
      used = ground arith;
      waits_on_peer = waits_cases slot.state (ground arith);
      elapsed = ground arith;
    },
    λ t.
        let used = t.used in let state = t.waits_on_peer in let elapsed = t.elapsed in ground arith,
  )

  time_out_slot-listens :
      (now : ℕ) (slot : Slot) (shared : Shared World)
      → shared.listen_registered ≡ true
      → (time_out_slot lib env now slot shared).1.listen_registered ≡ true
  unfolding time_out_slot slot_close end_stream leave_loop call_deinit listener_rearm
  time_out_slot-listens now slot shared h = ground arith

  time_out_slot-closes :
      (now : ℕ) (slot : Slot) (shared : Shared World)
      → (is_timed_out lib env now slot ≡ true
          → (time_out_slot lib env now slot shared).0.in_use ≡ false)
        × (is_timed_out lib env now slot ≡ false → (time_out_slot lib env now slot shared).0 ≡ slot)
  unfolding time_out_slot slot_close
  time_out_slot-closes now slot shared = (λ h. ground arith, λ h. ground arith)

  -- While the listening socket is registered, the idle sweep closes exactly the connections that
  -- are in a handshake, receive or send and have been without activity for the idle timeout by
  -- its clock, and leaves every other slot as it is.
  pub sweep_idle_connections-closes :
      (slots : List Slot) (shared : Shared World) (i : ℕ) (slot : Slot)
      → shared.listen_registered ≡ true
      → get_elem? slots i ≡ some slot
      → (slot' : Slot) × (get_elem? (sweep_idle_connections lib env slots shared).0 i ≡ some slot')
        × (HasTimedOut (call_now env shared).0 slot → slot'.in_use ≡ false)
        × ((HasTimedOut (call_now env shared).0 slot → ⊥) → slot' ≡ slot)
  unfolding sweep_idle_connections call_now
  sweep_idle_connections-closes slots shared i slot listens e =
      let (now, shared') = call_now env shared in
      let swept = each_slot (time_out_slot lib env now) slots shared' in
      let (before, at) = each_slot-at (time_out_slot lib env now) slots shared' i slot e in
      let still =
        each_slot-keeps (time_out_slot lib env now)
          (λ (s : Shared World). s.listen_registered ≡ true) (time_out_slot-listens now) slots
          shared' listens in
      let whole : (sweep_idle_connections lib env slots shared).0 ≡ swept.0 = ground arith in
      (
        (time_out_slot lib env now slot before).0,
        ap (λ (s : List Slot). get_elem? s i) whole ∙ at,
        λ t. (time_out_slot-closes now slot before).0 ((is_timed_out_iff now slot).1 t),
        λ other. elim (Bool-cases (is_timed_out lib env now slot)) [
          | inl e ↦ absurd (other ((is_timed_out_iff now slot).0 e))
          | inr e ↦ (time_out_slot-closes now slot before).1 e
        ],
      )

  -- After the tear-down no slot is in use, and the listening socket is not registered.
  pub tear_down-unused :
      (listen_sd : ℕ) (slots : List Slot) (shared : Shared World)
      → ((tear_down lib env listen_sd slots shared).1.listen_registered ≡ false)
        × ((i : ℕ) (slot : Slot)
            → get_elem? slots i ≡ some slot
            → (slot' : Slot) × (get_elem? (tear_down lib env listen_sd slots shared).0 i
                ≡ some slot')
              × (slot'.in_use ≡ false))
  unfolding tear_down tear_down_slot
  tear_down-unused listen_sd slots shared =
      let torn = each_slot (tear_down_slot lib env) slots shared in
      (
        ground arith,
        λ i slot e.
            let (before, at) = each_slot-at (tear_down_slot lib env) slots shared i slot e in
            (
              (tear_down_slot lib env slot before).0,
              (let whole : (tear_down lib env listen_sd slots shared).0 ≡ torn.0 = ground arith in
                  ap (λ (s : List Slot). get_elem? s i) whole ∙ at),
              ground arith,
            ),
      )
