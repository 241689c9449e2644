-- ===== src/Prelude/Loops.antt =====
-- A loop on fuel: its body answers whether it goes on, and from which state.
use Prim.Native.Nat.{ℕ, zero, suc, ◌<◌}
use mathlib.Core.Path.{◌≡◌, refl, sym, ◌∙◌, subst}
use mathlib.Core.Bool.{Bool, true, false}
use mathlib.Core.Logic.{inl, inr}
use mathlib.Core.Option.{Option, none, some, some-injective}
use native.Mathlib.Omega.{arith}
use http_c.Prelude.Tests.{Bool-cases}

module _ {ℓ} {S : Type ℓ} (body : S → Bool × S) where
  unfoldable pub iterate : ℕ → S → Option S
  iterate zero s = none
  iterate (suc fuel) s =
      let (more, s') = body s in elim more [ true ↦ iterate fuel s' | false ↦ some s' ]

  -- What the body keeps while it goes on and gives when it ends holds at the end of the loop.
  pub iterate-ends {m n} :
      (P : S → Type m) (Q : S → Type n)
      → ((s : S) → P s → (body s).0 ≡ true → P (body s).1)
      → ((s : S) → P s → (body s).0 ≡ false → Q (body s).1)
      → (fuel : ℕ) (s : S) {s' : S} → P s
      → iterate fuel s ≡ some s'
      → Q s'
  unfolding iterate
  iterate-ends P Q keeps ends zero s p h = absurd (ground arith)
  iterate-ends P Q keeps ends (suc fuel) s {s'} p h = elim (Bool-cases (body s).0) [
    | inl e ↦
        iterate-ends P Q keeps ends fuel (body s).1 (keeps s p e) (sym (rw (e, iterate) refl) ∙ h)
    | inr e ↦ subst Q (some-injective (body s).1 s' (sym (rw (e, iterate) refl) ∙ h)) (ends s p e)
  ]

  -- With more fuel than a measure that falls whenever the body goes on, the loop ends.
  pub iterate-total {m} :
      (P : S → Type m) (measure : S → ℕ)
      → ((s : S) → P s → (body s).0 ≡ true → P (body s).1 × (measure (body s).1 < measure s))
      → (fuel : ℕ) (s : S) → P s
      → measure s < fuel
      → (s' : S) × (iterate fuel s ≡ some s')
  unfolding iterate
  iterate-total P measure falls zero s p h = absurd (omega arith)
  iterate-total P measure falls (suc fuel) s p h = elim (Bool-cases (body s).0) [
    | inl e ↦
        let (p', less) = falls s p e in
        let (s', same) = iterate-total P measure falls fuel (body s).1 p' (omega arith) in
        (s', rw (e, iterate) same)
    | inr e ↦ ((body s).1, rw (e, iterate) refl)
  ]
