-- ===== src/Server/Loop/Finalizers/Rounds.antt =====
-- The rounds over the table of slots keep the account of the finalizers.
use http_c.Prelude.{
  get_elem?, Bool-cases, inl, inr, subst, sym, ℕ, zero, suc, ◌+◌, ◌≡◌, ◌≢◌, refl, Bool, true,
  Option, none, some, List, [], ◌∷◌, arith, if◌then◌else◌,
}
use http_c.Codes.{code_503, reason_503, code_504, reason_504}
use http_c.Span.{CommonLib}
use http_c.Server.{Slot}
use http_c.Server.Responding.{framed_response}
use http_c.Server.Deferral.{Claim, nothing, cancelled, answer, claim_response, claim_expired}
use http_c.Server.Loop.{Env, Shared, slot_close}
use http_c.Server.Loop.Answering.{send_status}
use http_c.Server.Loop.Table.{
  each_slot, at_slot, follow_claim, flush_slot, expire_slot, is_timed_out, time_out_slot,
  close_found,
}
use http_c.Server.Loop.Finalizers.{
  Chosen, starts, finals, owed, IsSound, IsReady, KeepsTo, slot_close-KeepsTo, from, either,
}
use http_c.Server.Loop.Finalizers.Answers.{send_response-KeepsTo}
use http_c.Server.Loop.Finalizers.Sending.{stays}

-- Every slot of the table is sound.
pub data AllSound : List Slot → Type 0 where
  no_slots : AllSound []
  also : {slot : Slot} {slots : List Slot} → IsSound slot → AllSound slots → AllSound (slot ∷ slots)

-- what all the slots owe
unfoldable pub owed_all : Chosen → List Slot → ℕ
unfolding owed
owed_all chosen [] = 0
owed_all chosen (slot ∷ slots) = owed chosen slot + owed_all chosen slots

module _ (chosen : Chosen) (env : Env) where
  open env use {World}

  -- `KeepsTo` for the table
  pub record KeepsAll (slots : List Slot) (shared : Shared World)
      (result : List Slot × Shared World) : Type 0 where
    pub sound : AllSound result.0
    pub balance :
        starts chosen result.1.effects + owed_all chosen slots + finals chosen shared.effects
        ≡ starts chosen shared.effects + owed_all chosen result.0 + finals chosen result.1.effects

  pub each_slot-KeepsAll :
      (step : Slot → Shared World → Slot × Shared World)
      → ((slot : Slot) (shared : Shared World)
          → IsSound slot
          → KeepsTo chosen env slot shared (step slot shared))
      → (slots : List Slot) (shared : Shared World) → AllSound slots
      → KeepsAll slots shared (each_slot step slots shared)
  unfolding each_slot owed_all
  each_slot-KeepsAll step keeps [] shared h = record { sound = h; balance = refl }
  each_slot-KeepsAll step keeps (slot ∷ slots) shared (also h hs) =
      let (slot', shared') = step slot shared in
      let k = keeps slot shared h in
      let ks = each_slot-KeepsAll step keeps slots shared' hs in
      let b = k.balance in
      let bs = ks.balance in record { sound = also k.sound ks.sound; balance = omega arith }

  pub at_slot-KeepsAll :
      (i : ℕ) (step : Slot → Shared World → Slot × Shared World) (slots : List Slot)
      (shared : Shared World)
      → ((slot : Slot)
          → get_elem? slots i ≡ some slot
          → IsSound slot
          → KeepsTo chosen env slot shared (step slot shared))
      → AllSound slots
      → KeepsAll slots shared (at_slot i step slots shared)
  unfolding at_slot owed_all
  at_slot-KeepsAll i step [] shared keeps h = record { sound = h; balance = refl }
  at_slot-KeepsAll zero step (slot ∷ slots) shared keeps (also h hs) =
      let k = keeps slot refl h in
      let b = k.balance in record { sound = also k.sound hs; balance = omega arith }
  at_slot-KeepsAll (suc i) step (slot ∷ slots) shared keeps (also h hs) =
      let ks = at_slot-KeepsAll i step slots shared keeps hs in
      let bs = ks.balance in record { sound = also h ks.sound; balance = omega arith }

  -- a change of the shared state that the account does not read
  pub from_shared :
      (slots : List Slot) (shared shared' : Shared World) (result : List Slot × Shared World)
      → starts chosen shared'.effects ≡ starts chosen shared.effects
      → finals chosen shared'.effects ≡ finals chosen shared.effects
      → KeepsAll slots shared' result
      → KeepsAll slots shared result
  from_shared slots shared shared' result s f k =
      let b = k.balance in record { sound = k.sound; balance = omega arith }

module _ (chosen : Chosen) (lib : CommonLib) (env : Env) where
  open env use {World}

  send_status-KeepsTo :
      (slot : Slot) (code reason : List ℕ) (shared : Shared World)
      → IsReady slot
      → KeepsTo chosen env slot shared (send_status lib env slot code reason shared)
  unfolding send_status
  send_status-KeepsTo slot code reason shared h =
      send_response-KeepsTo chosen lib env slot
        (framed_response lib slot.default_headers code reason) shared h

  claim_response-IsReady :
      (slot : Slot)
      → IsSound slot
      → (owed chosen (claim_response slot).0 ≡ owed chosen slot)
        × IsSound (claim_response slot).0
        × ((claim_response slot).1 ≢ nothing → IsReady (claim_response slot).0)
  unfolding claim_response owed
  claim_response-IsReady slot h = (
    ground arith,
    record { sending = λ e. ground arith; open_end = λ e. ground arith; used = λ e. ground arith },
    λ e. (ground arith, ground arith),
  )

  follow_claim-KeepsTo :
      (slot : Slot) (claim : Claim) (shared : Shared World)
      → IsSound slot
      → (claim ≢ nothing → IsReady slot)
      → KeepsTo chosen env slot shared (follow_claim lib env slot claim shared)
  unfolding follow_claim owed
  follow_claim-KeepsTo slot nothing shared h ready = stays chosen lib env slot shared h
  follow_claim-KeepsTo slot cancelled shared h ready =
      let slot' = record slot { client_wants_close = true } in
      from chosen env slot shared slot' shared
        (send_status lib env slot' code_503 reason_503 shared) refl refl refl
        (send_status-KeepsTo slot' code_503 reason_503 shared (ready (λ e. absurd (ground arith))))
  follow_claim-KeepsTo slot (answer response) shared h ready =
      send_response-KeepsTo chosen lib env slot response shared (ready (λ e. absurd (ground arith)))

  pub flush_slot-KeepsTo :
      (slot : Slot) (shared : Shared World)
      → IsSound slot
      → KeepsTo chosen env slot shared (flush_slot lib env slot shared)
  unfolding flush_slot
  flush_slot-KeepsTo slot shared h =
      let (slot', claim) = claim_response slot in
      let (same, sound, ready) = claim_response-IsReady slot h in
      from chosen env slot shared slot' shared (follow_claim lib env slot' claim shared) same refl
        refl (follow_claim-KeepsTo slot' claim shared sound ready)

  claim_expired-IsReady :
      (now : ℕ) (slot : Slot)
      → IsSound slot
      → (owed chosen (claim_expired now slot).0 ≡ owed chosen slot)
        × IsSound (claim_expired now slot).0
        × ((claim_expired now slot).1 ≡ true → IsReady (claim_expired now slot).0)
  unfolding claim_expired owed
  claim_expired-IsReady now slot h = (
    ground arith,
    record { sending = λ e. ground arith; open_end = λ e. ground arith; used = λ e. ground arith },
    λ e. (ground arith, ground arith),
  )

  pub expire_slot-KeepsTo :
      (now : ℕ) (slot : Slot) (shared : Shared World)
      → IsSound slot
      → KeepsTo chosen env slot shared (expire_slot lib env now slot shared)
  unfolding expire_slot owed
  expire_slot-KeepsTo now slot shared h =
      let (slot1, expired) = claim_expired now slot in
      let slot2 = record slot1 { client_wants_close = true } in
      let (same, sound, ready) = claim_expired-IsReady now slot h in
      let answered = send_status lib env slot2 code_504 reason_504 shared in
      elim (Bool-cases expired) [
        | inl e ↦
            from chosen env slot shared slot2 shared (expire_slot lib env now slot shared) same refl
              refl
              (subst
                (λ (b : Bool).
                  KeepsTo chosen env slot2 shared (if b then answered else (slot1, shared)))
                (sym e) (send_status-KeepsTo slot2 code_504 reason_504 shared (ready e)))
        | inr e ↦
            from chosen env slot shared slot1 shared (expire_slot lib env now slot shared) same refl
              refl
              (subst
                (λ (b : Bool).
                  KeepsTo chosen env slot1 shared (if b then answered else (slot1, shared)))
                (sym e) (stays chosen lib env slot1 shared sound))
      ]

  pub time_out_slot-KeepsTo :
      (now : ℕ) (slot : Slot) (shared : Shared World)
      → IsSound slot
      → KeepsTo chosen env slot shared (time_out_slot lib env now slot shared)
  unfolding time_out_slot
  time_out_slot-KeepsTo now slot shared h =
      either chosen env slot shared (is_timed_out lib env now slot) (slot_close env slot shared)
        (slot, shared) (slot_close-KeepsTo chosen env slot shared).0
        (stays chosen lib env slot shared h)

  pub close_found-KeepsAll :
      (found : Option (ℕ × Slot)) (slots : List Slot) (shared : Shared World)
      → AllSound slots
      → KeepsAll chosen env slots shared (close_found lib env found slots shared)
  unfolding close_found
  close_found-KeepsAll none slots shared h = record { sound = h; balance = refl }
  close_found-KeepsAll (some (i, slot)) slots shared h =
      at_slot-KeepsAll chosen env i (slot_close env) slots shared
        (λ slot _ _. (slot_close-KeepsTo chosen env slot shared).0) h
