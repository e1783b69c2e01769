-- ===== src/Base/Store.antt =====
-- A C array that is written in place, as a function of the index; sums over its first entries.
use Prim.Native.Nat.{ℕ, zero, suc, ◌+◌, ◌≤◌, ◌<◌}
use mathlib.Core.Path.{◌≡◌, refl, ap}
use mathlib.Core.Logic.{◌≢◌, ◌⊎◌, inl, inr}
use native.Mathlib.Omega.{arith}
use native.Mathlib.Decide.{ℕ_discrete}
use cpu_scheduler_simulator.Base.Tests.{◌==◌, if◌then◌else◌}

module _ {ℓ} {A : Type ℓ} where
  -- `f` applied to the entry at `i`, every other entry kept.
  abbrev pub modify : (ℕ → A) → ℕ → (A → A) → ℕ → A
  modify a i f j = if j == i then f (a j) else a j

-- f 0 + ... + f (n - 1)
abbrev pub sum_to : ℕ → (ℕ → ℕ) → ℕ
sum_to zero f = 0
sum_to (suc n) f = sum_to n f + f n

pub sum_to_ext : (n : ℕ) (f g : ℕ → ℕ) → ((i : ℕ) → i < n → f i ≡ g i) → sum_to n f ≡ sum_to n g
sum_to_ext zero f g h = refl
sum_to_ext (suc n) f g h =
    omega (arith, h n (omega arith), sum_to_ext n f g (λ i p. h i (omega arith)))

-- A sum in which one entry alone changes.
pub sum_to_one :
    (n : ℕ) (f g : ℕ → ℕ) (k : ℕ)
    → k < n
    → ((i : ℕ) → i ≢ k → f i ≡ g i)
    → sum_to n f + g k ≡ sum_to n g + f k
sum_to_one zero f g k h e = absurd (omega arith)
sum_to_one (suc n) f g k h e = elim (ℕ_discrete n k) [
  | yes p ↦ omega (arith, ap f p, ap g p, sum_to_ext n f g (λ i q. e i (omega arith)))
  | no p ↦ omega (arith, e n p, sum_to_one n f g k (omega arith) e)
]

-- A value is at most the sum.
pub sum_to-at_least : (n : ℕ) (f : ℕ → ℕ) (l : ℕ) → l < n → f l ≤ sum_to n f
sum_to-at_least zero f l h = absurd (omega arith)
sum_to-at_least (suc n) f l h = elim (last_or_before l n h) [
  | inl e ↦ omega (arith, ap f e)
  | inr lt ↦ omega (arith, sum_to-at_least n f l lt)
]
  where
    last_or_before : (j k : ℕ) → j < suc k → (j ≡ k) ⊎ (j < k)
    last_or_before j k lt = omega arith
