-- ===== src/Server/Loop/Finalizers/Callbacks.antt =====
-- The callbacks and rounds of the event loop keep the account of the finalizers.
use http_c.Prelude.{
  ℕ, zero, suc, ◌≡◌, refl, sym, ap, subst, Bool, true, false, not, Bool-cases, inl, inr, Option,
  none, some, List, [], ◌∷◌, ◌||◌, arith, if◌then◌else◌, get_elem?, put, some-injective,
}
use http_c.Response.{Response}
use http_c.Span.{CommonLib}
use http_c.Server.{Slot, SlotState, acquired, behind, acquire_slot, find_reclaimable_slot}
use http_c.Server.Deferral.{post, post_at}
use http_c.Server.Loop.{Env, Shared, call_now, is_try_again, is_running}
use http_c.Server.Loop.Driving.{follow_handshake, slot_drive_handshake}
use http_c.Server.Loop.Table.{
  each_slot, flush_slot, flush_pending_responses, expire_slot, sweep_pending_deadlines,
  time_out_slot, close_found, sweep_idle_connections, release_slot, accept_slot, follow_acquired,
  on_listen_readable,
}
use http_c.Server.Loop.Finalizers.{
  Chosen, starts, finals, owed, IsSound, IsReady, plain, Keeps, KeepsTo, listener_rearm-quiet, from,
  either,
}
use http_c.Server.Loop.Finalizers.Receiving.{follow_handshake-KeepsTo}
use http_c.Server.Loop.Finalizers.Rounds.{
  AllSound, also, owed_all, KeepsAll, each_slot-KeepsAll, at_slot-KeepsAll, from_shared,
  flush_slot-KeepsTo, expire_slot-KeepsTo, time_out_slot-KeepsTo, close_found-KeepsAll,
}

module _ (chosen : Chosen) (lib : CommonLib) (env : Env) where
  open env use {World}

  pub join_all :
      (slots : List Slot) (shared : Shared World) (middle result : List Slot × Shared World)
      → KeepsAll chosen env slots shared middle
      → KeepsAll chosen env middle.0 middle.1 result
      → KeepsAll chosen env slots shared result
  join_all slots shared middle result k l =
      let b = k.balance in let b' = l.balance in record { sound = l.sound; balance = omega arith }

  pub either_all :
      (slots : List Slot) (shared : Shared World) (test : Bool) (a b : List Slot × Shared World)
      → KeepsAll chosen env slots shared a
      → KeepsAll chosen env slots shared b
      → KeepsAll chosen env slots shared (if test then a else b)
  either_all slots shared true a b k l = k
  either_all slots shared false a b k l = l

  pub flush-KeepsAll :
      (slots : List Slot) (shared : Shared World)
      → AllSound slots
      → KeepsAll chosen env slots shared (flush_pending_responses lib env slots shared)
  unfolding flush_pending_responses
  flush-KeepsAll slots shared h =
      each_slot-KeepsAll chosen env (flush_slot lib env) (flush_slot-KeepsTo chosen lib env) slots
        shared h

  pub expire-KeepsAll :
      (slots : List Slot) (shared : Shared World)
      → AllSound slots
      → KeepsAll chosen env slots shared (sweep_pending_deadlines lib env slots shared)
  unfolding sweep_pending_deadlines call_now
  expire-KeepsAll slots shared h =
      let (now, shared') = call_now env shared in
      from_shared chosen env slots shared shared' (sweep_pending_deadlines lib env slots shared)
        refl refl
        (each_slot-KeepsAll chosen env (expire_slot lib env now)
          (expire_slot-KeepsTo chosen lib env now) slots shared' h)

  pub sweep-KeepsAll :
      (slots : List Slot) (shared : Shared World)
      → AllSound slots
      → KeepsAll chosen env slots shared (sweep_idle_connections lib env slots shared)
  unfolding sweep_idle_connections call_now
  sweep-KeepsAll slots shared h =
      let (now, shared') = call_now env shared in
      let swept = each_slot (time_out_slot lib env now) slots shared' in
      let k =
        each_slot-KeepsAll chosen env (time_out_slot lib env now)
          (time_out_slot-KeepsTo chosen lib env now) slots shared' h in
      let closed = close_found lib env (find_reclaimable_slot now swept.0) swept.0 swept.1 in
      let l =
        close_found-KeepsAll chosen lib env (find_reclaimable_slot now swept.0) swept.0 swept.1
          k.sound in
      from_shared chosen env slots shared shared' (sweep_idle_connections lib env slots shared) refl
        refl
        (either_all slots shared' swept.1.listen_registered swept closed k
          (join_all slots shared' swept closed k l))

  pub post_at-same :
      (i generation : ℕ) (completion : Option Response) (slots : List Slot)
      → AllSound slots
      → AllSound (post_at i generation completion slots).0
        × (owed_all chosen (post_at i generation completion slots).0 ≡ owed_all chosen slots)
  unfolding post_at post owed_all owed
  post_at-same i generation completion [] h = (h, refl)
  post_at-same zero generation none (slot ∷ slots) (also h hs) = (
    also
        (record {
          sending = λ e. ground arith;
          open_end = λ e. ground arith;
          used = λ e. ground arith;
        })
        hs,
    ground arith,
  )
  post_at-same zero generation (some r) (slot ∷ slots) (also h hs) = (
    also
        (record {
          sending = λ e. ground arith;
          open_end = λ e. ground arith;
          used = λ e. ground arith;
        })
        hs,
    ground arith,
  )
  post_at-same (suc i) generation completion (slot ∷ slots) (also h hs) =
      let (s, e) = post_at-same i generation completion slots hs in (also h s, omega arith)

  -- what acquire_slot may answer: the slot that it takes is ready
  abbrev Takes : List Slot → Option (ℕ × List Slot) → Type 0
  Takes slots none = AllSound slots
  Takes slots (some (i, slots')) =
      AllSound slots'
      × (owed_all chosen slots' ≡ owed_all chosen slots)
      × ((slot : Slot) → get_elem? slots' i ≡ some slot → IsReady slot)

  behind-Takes :
      (slot : Slot) (slots : List Slot) (found : Option (ℕ × List Slot))
      → IsSound slot
      → Takes slots found
      → Takes (slot ∷ slots) (behind slot found)
  unfolding owed_all
  behind-Takes slot slots none h t = also h t
  behind-Takes slot slots (some (i, slots')) h (s, same, ready) = (also h s, omega arith, ready)

  acquire_slot-Takes :
      (now : ℕ) (slots : List Slot) → AllSound slots → Takes slots (acquire_slot now slots)
  unfolding acquire_slot owed_all owed
  acquire_slot-Takes now [] h = h
  acquire_slot-Takes now (slot ∷ slots) (also h hs) = elim (Bool-cases slot.in_use) [
    | inl e ↦
        subst
          (λ (b : Bool). Takes (slot ∷ slots) (
            if not b
            then some (0, acquired now slot ∷ slots)
            else behind slot (acquire_slot now slots)))
          (sym e)
          (behind-Takes slot slots (acquire_slot now slots) h (acquire_slot-Takes now slots hs))
    | inr e ↦
        subst
          (λ (b : Bool). Takes (slot ∷ slots) (
            if not b
            then some (0, acquired now slot ∷ slots)
            else behind slot (acquire_slot now slots)))
          (sym e)
          (
            also (plain refl) hs,
            (let inactive : slot.stream_active ≡ false = ground arith in ground arith),
            λ s same. subst IsReady (some-injective (acquired now slot) s same) (refl, refl),
          )
  ]

  release_slot-KeepsTo :
      (slot : Slot) (shared : Shared World)
      → IsReady slot
      → KeepsTo chosen env slot shared (release_slot lib env slot shared)
  unfolding release_slot owed
  release_slot-KeepsTo slot shared h =
      let (s, f) = listener_rearm-quiet chosen env shared in
      record { sound = plain h.0; balance = ground arith }

  accept_slot-KeepsTo :
      (slot : Slot) (shared : Shared World)
      → IsReady slot
      → KeepsTo chosen env slot shared (accept_slot lib env slot shared)
  unfolding accept_slot slot_drive_handshake owed
  accept_slot-KeepsTo slot shared h =
      let (result, sd, world) = env.socket_accept_nb shared.world in
      let shared' : Shared World = record shared { world = world } in
      let slot' = record slot { sd = sd; state = SlotState.handshaking } in
      let (shaken, world') = env.socket_handshake_nb sd world in
      let shared'' : Shared World = record shared { world = world' } in
      let next = follow_handshake lib env slot' shaken shared'' in
      either chosen env slot shared (is_try_again result || lib.is_error result)
        (release_slot lib env slot shared') next (release_slot-KeepsTo slot shared' h)
        (from chosen env slot shared slot' shared'' next refl refl refl
          (follow_handshake-KeepsTo chosen lib env slot' shaken shared'' h))

  follow_acquired-KeepsAll :
      (fd : ℕ) (found : Option (ℕ × List Slot)) (slots : List Slot) (before after : Shared World)
      → after.effects ≡ before.effects
      → AllSound slots
      → Takes slots found
      → KeepsAll chosen env slots before (follow_acquired lib env fd found slots before after)
  unfolding follow_acquired starts finals
  follow_acquired-KeepsAll fd none slots before after same h t = record {
    sound = h;
    balance = refl;
  }
  follow_acquired-KeepsAll fd (some (i, slots')) slots before after same h (s, owes, ready) =
      let k =
        at_slot-KeepsAll chosen env i (accept_slot lib env) slots' after
          (λ slot e _. accept_slot-KeepsTo slot after (ready slot e)) s in
      let b = k.balance in
      let st = ap (starts chosen) same in
      let fi = ap (finals chosen) same in record { sound = k.sound; balance = omega arith }

  pub listen-KeepsAll :
      (fd : ℕ) (slots : List Slot) (shared : Shared World)
      → AllSound slots
      → KeepsAll chosen env slots shared (on_listen_readable lib env fd slots shared)
  unfolding on_listen_readable call_now
  listen-KeepsAll fd slots shared h =
      let (state, world) = env.server_get_state shared.world in
      let before : Shared World = record shared { world = world } in
      let (now, after) = call_now env before in
      let taken = follow_acquired lib env fd (acquire_slot now slots) slots before after in
      from_shared chosen env slots shared before (on_listen_readable lib env fd slots shared) refl
        refl
        (either_all slots before (is_running state) taken (slots, before)
          (follow_acquired-KeepsAll fd (acquire_slot now slots) slots before after refl h
            (acquire_slot-Takes now slots h))
          (record { sound = h; balance = refl }))

  pub put-KeepsAll :
      (i : ℕ) (slots : List Slot) (slot slot' : Slot) (shared shared' : Shared World)
      → get_elem? slots i ≡ some slot
      → AllSound slots
      → (IsSound slot → Keeps chosen slot shared.effects slot' shared'.effects)
      → KeepsAll chosen env slots shared (put i slot' slots, shared')
  unfolding owed_all
  put-KeepsAll i [] slot slot' shared shared' at h keeps = absurd (ground arith)
  put-KeepsAll zero (first ∷ slots) slot slot' shared shared' at (also h hs) keeps =
      let k = keeps (subst IsSound (some-injective first slot at) h) in
      let b = k.balance in
      let same = ap (owed chosen) (some-injective first slot at) in
      record { sound = also k.sound hs; balance = omega arith }
  put-KeepsAll (suc i) (first ∷ slots) slot slot' shared shared' at (also h hs) keeps =
      let k = put-KeepsAll i slots slot slot' shared shared' at hs keeps in
      let b = k.balance in record { sound = also h k.sound; balance = omega arith }
