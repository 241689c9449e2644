-- ===== src/Server/Deferral/Address.antt =====
-- The pointer check of deferral_slot, and tickets on the whole table.
use http_c.Prelude.{
  ℕ, ◌+◌, ◌*◌, ◌-◌, ◌%◌, ◌/◌, ◌≤◌, ◌<◌, ◌≡◌, ◌≢◌, ◌↔◌, ap, ◌∙◌, some, arith, length,
}
use native.Mathlib.Nat.{
  mul-div_cancel, mul-mod_left, div-add-mod', mul-lt-mul_of_pos_right, lt_of_mul-lt-mul_right,
}
use http_c.Server.Deferral.{Storage, Deferral, deferral_slot}

-- A ticket leads to slot i exactly when it points at the start of slot i of the table.
pub deferral_slot_iff :
    (storage : Storage) (d : Deferral) (i : ℕ)
    → 0 < storage.base
    → 0 < storage.stride
    → d.server ≢ 0
    → (deferral_slot storage d ≡ some i)
      ↔ ((i < length storage.slots) × (d.slot ≡ storage.base + i * storage.stride))
unfolding deferral_slot
deferral_slot_iff storage d i base stride server = (forward, backward)
  where
    forward :
        deferral_slot storage d ≡ some i
        → (i < length storage.slots) × (d.slot ≡ storage.base + i * storage.stride)
    forward h =
        let above : storage.base ≤ d.slot = ground arith in
        let below : d.slot < storage.base + length storage.slots * storage.stride = ground arith in
        let exact : (d.slot - storage.base) % storage.stride ≡ 0 = ground arith in
        let index : (d.slot - storage.base) / storage.stride ≡ i = ground arith in
        let whole : i * storage.stride ≡ d.slot - storage.base =
          grind (arith, div-add-mod' (d.slot - storage.base) storage.stride) in
        (lt_of_mul-lt-mul_right storage.stride (omega arith), omega arith)

    backward :
        (i < length storage.slots) × (d.slot ≡ storage.base + i * storage.stride)
        → deferral_slot storage d ≡ some i
    backward (k, e) =
        let lower : i * storage.stride < length storage.slots * storage.stride =
          mul-lt-mul_of_pos_right k stride in
        let offset : d.slot - storage.base ≡ i * storage.stride = omega arith in
        let exact : (d.slot - storage.base) % storage.stride ≡ 0 =
          ap (λ (t : ℕ). t % storage.stride) offset ∙ mul-mod_left i storage.stride in
        let index : (d.slot - storage.base) / storage.stride ≡ i =
          ap (λ (t : ℕ). t / storage.stride) offset ∙ mul-div_cancel i stride in
        ground arith
