-- ===== src/Server/Deferral/Tickets.antt =====
-- A deferral ticket is good for one answer, and for none after its slot was given up.
use http_c.Prelude.{
  ℕ, suc, ◌+◌, ◌%◌, ◌^◌, ◌<◌, ◌≡◌, ◌↔◌, refl, true, false, Option, none, some, arith, ◌==◌,
}
use http_c.Common.{ok, error, not_found}
use http_c.Response.{Response}
use http_c.Server.{Slot, SlotState, acquired, released}
use http_c.Server.Deferral.{post, park, claim_response, claim_expired, nothing, cancelled, answer}

-- The slot waits for an answer to the ticket of this generation.
pub record Awaits (g : ℕ) (slot : Slot) : Type 0 where
  pub used : slot.in_use ≡ true
  pub parked : slot.state ≡ SlotState.pending
  pub same : slot.generation ≡ g
  pub not_ready : slot.pending_ready ≡ false
  pub not_cancelled : slot.pending_cancelled ≡ false

-- A completion succeeds exactly on a slot that waits for an answer to that ticket.
pub post-ok_iff :
    (slot : Slot) (g : ℕ) (completion : Option Response)
    → ((post slot g completion).1 ≡ ok) ↔ Awaits g slot
unfolding post
post-ok_iff slot g none = (λ h. ground arith, λ a. ground arith)
post-ok_iff slot g (some r) = (λ h. ground arith, λ a. ground arith)

-- After a completion that succeeded, every further one with the same ticket is an error and
-- changes nothing, and the loop claims exactly what was posted, once.
pub post_once :
    (slot : Slot) (g : ℕ) (first second : Option Response) {slot' : Slot}
    → post slot g first ≡ (slot', ok)
    → (post slot' g second ≡ (slot', error))
      × ((claim_response slot').1 ≡ elim first [ none ↦ cancelled | some r ↦ answer r ])
      × ((claim_response (claim_response slot').0).1 ≡ nothing)
      × ((post (claim_response slot').0 g second).1 ≡ not_found)
unfolding post claim_response
post_once slot g none second h = (ground arith, ground arith, ground arith, ground arith)
post_once slot g (some r) second h = (ground arith, ground arith, ground arith, ground arith)

-- What happens to a slot: a new connection takes it, it is given up, its connection is parked,
-- worker threads post, the loop claims, and anything else that leaves the generation alone.
pub data SlotStep : Slot → Slot → Type 0 where
  takes : (now : ℕ) (s : Slot) → SlotStep s (acquired now s)
  parks : (now timeout : ℕ) (s : Slot) → SlotStep s (park now timeout s)
  posts : (g : ℕ) (c : Option Response) (s : Slot) → SlotStep s (post s g c).0
  claims : (s : Slot) → SlotStep s (claim_response s).0
  expires : (now : ℕ) (s : Slot) → SlotStep s (claim_expired now s).0
  works : {s t : Slot} → t.generation ≡ s.generation → SlotStep s t

-- A history of a slot in which it is given up that many times.
pub data History (s : Slot) : ℕ → Slot → Type 0 where
  start : History s 0 s
  step : {n : ℕ} {t u : Slot} → History s n t → SlotStep t u → History s n u
  gives_up : {n : ℕ} {t : Slot} → History s n t → History s (suc n) (released t)

generation-SlotStep : {s t : Slot} → SlotStep s t → t.generation ≡ s.generation
unfolding park post claim_response claim_expired
generation-SlotStep (takes now s) = refl
generation-SlotStep (parks now timeout s) = refl
generation-SlotStep (posts g none s) = ground arith
generation-SlotStep (posts g (some r) s) = ground arith
generation-SlotStep (claims s) = ground arith
generation-SlotStep (expires now s) = ground arith
generation-SlotStep (works e) = e

generation-History :
    {s t : Slot} {n : ℕ}
    → s.generation < 2 ^ 32
    → History s n t
    → (t.generation ≡ (s.generation + n) % 2 ^ 32) × (t.generation < 2 ^ 32)
generation-History h start = (omega arith, h)
generation-History h (step r st) =
    let (e, k) = generation-History h r in
    (omega (arith, generation-SlotStep st), omega (arith, generation-SlotStep st))
generation-History h (gives_up r) =
    let (e, k) = generation-History h r in (omega arith, omega arith)

-- A ticket of a slot that was given up since is refused and changes nothing, whatever else
-- happened and whoever holds the slot now, for up to 2 ^ 32 - 1 such losses.
pub post-History :
    {s t : Slot} {n : ℕ} (c : Option Response)
    → s.generation < 2 ^ 32
    → History s (suc n) t
    → suc n < 2 ^ 32
    → post t s.generation c ≡ (t, not_found)
unfolding post
post-History {s} {t} {n} c small h few =
    let (e, k) = generation-History small h in
    let other : (t.generation == s.generation) ≡ false = ground arith in ground arith
