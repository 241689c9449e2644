-- ===== src/Prelude/Rounds.antt =====
-- Loops on fuel that end with a value, and the rule for their total correctness.
use Prim.Native.Nat.{ℕ, zero, suc, ◌<◌}
use mathlib.Core.Option.{Option, none, some}
use native.Mathlib.Omega.{arith}

-- What one round answers: another round, the end, or that a loop inside ran out of fuel.
pub data Step {ℓ} (A S : Type ℓ) : Type ℓ where
  more : S → Step A S
  done : A → S → Step A S
  starved : Step A S

module _ {ℓ} {A S : Type ℓ} where
  abbrev pub go_on : Step A S → (S → Option (A × S)) → Option (A × S)
  go_on (more s) k = k s
  go_on (done a s) k = some (a, s)
  go_on starved k = none

  -- The loop ended, and what it left.
  abbrev pub Ran : (A → S → Type 0) → Option (A × S) → Type 0
  Ran Q none = ⊥
  Ran Q (some (a, s)) = Q a s

  -- What one round leaves, when it goes on and when it ends.
  abbrev pub Goes : (S → Type 0) → (A → S → Type 0) → Step A S → Type 0
  Goes P Q (more s) = P s
  Goes P Q (done a s) = Q a s
  Goes P Q starved = ⊥

  pub Ran-mono :
      (Q R : A → S → Type 0) (o : Option (A × S))
      → ((a : A) (s : S) → Q a s → R a s)
      → Ran Q o
      → Ran R o
  Ran-mono Q R none h r = r
  Ran-mono Q R (some (a, s)) h r = h a s r

  pub Goes-mono :
      (P P' : S → Type 0) (Q Q' : A → S → Type 0) (step : Step A S)
      → ((s : S) → P s → P' s)
      → ((a : A) (s : S) → Q a s → Q' a s)
      → Goes P Q step
      → Goes P' Q' step
  Goes-mono P P' Q Q' (more s) h k g = h s g
  Goes-mono P P' Q Q' (done a s) h k g = k a s g
  Goes-mono P P' Q Q' starved h k g = g

  Ran-go_on :
      (P : S → Type 0) (Q : A → S → Type 0) (step : Step A S) (k : S → Option (A × S))
      → Goes P Q step
      → ((s : S) → P s → Ran Q (k s))
      → Ran Q (go_on step k)
  Ran-go_on P Q (more s) k g h = h s g
  Ran-go_on P Q (done a s) k g h = g
  Ran-go_on P Q starved k g h = g

  module _ (body : S → Step A S) where
    unfoldable pub rounds : ℕ → S → Option (A × S)
    rounds zero s = none
    rounds (suc fuel) s = go_on (body s) (rounds fuel)

    -- With more fuel than a measure that falls whenever the body goes on, the loop ends, and what
    -- the body keeps and gives holds at its end.
    pub rounds-Ran :
        (P : S → Type 0) (Q : A → S → Type 0) (measure : S → ℕ)
        → ((s : S) → P s → Goes (λ s'. P s' × (measure s' < measure s)) Q (body s))
        → (fuel : ℕ) (s : S) → P s
        → measure s < fuel
        → Ran Q (rounds fuel s)
    unfolding rounds
    rounds-Ran P Q measure keeps zero s p h = absurd (omega arith)
    rounds-Ran P Q measure keeps (suc fuel) s p h =
        Ran-go_on (λ s'. P s' × (measure s' < measure s)) Q (body s) (rounds fuel) (keeps s p)
          (λ s' p'. rounds-Ran P Q measure keeps fuel s' p'.0 (omega (arith, p'.1)))

-- A loop inside a round.
module _ {ℓ} {A S B T : Type ℓ} where
  abbrev pub inside : Option (A × S) → (A → S → Step B T) → Step B T
  inside none k = starved
  inside (some (a, s)) k = k a s

  abbrev pub within : Option (A × S) → (A → S → Option (B × T)) → Option (B × T)
  within none k = none
  within (some (a, s)) k = k a s

  pub Goes-inside :
      (Q : A → S → Type 0) (P : T → Type 0) (R : B → T → Type 0) (o : Option (A × S))
      (k : A → S → Step B T)
      → Ran Q o
      → ((a : A) (s : S) → Q a s → Goes P R (k a s))
      → Goes P R (inside o k)
  Goes-inside Q P R none k r h = absurd r
  Goes-inside Q P R (some (a, s)) k r h = h a s r

  pub Ran-within :
      (Q : A → S → Type 0) (R : B → T → Type 0) (o : Option (A × S)) (k : A → S → Option (B × T))
      → Ran Q o
      → ((a : A) (s : S) → Q a s → Ran R (k a s))
      → Ran R (within o k)
  Ran-within Q R none k r h = absurd r
  Ran-within Q R (some (a, s)) k r h = h a s r
