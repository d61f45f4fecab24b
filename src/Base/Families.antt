-- ===== src/Base/Families.antt =====
-- Families of values by a number, such as the states of threads, and membership of a list of numbers.
use Prim.Native.Nat.{ℕ}
use mathlib.Core.Path.{◌≡◌}
use mathlib.Core.Logic.{◌≢◌, inl, inr}
use mathlib.Core.Bool.{Bool, true, false}
use mathlib.Core.List.{List, [], ◌∷◌}
use native.Mathlib.Omega.{arith}
use clojure_rt.Base.Tests.{◌==◌, if◌then◌else◌, ==_iff, Bool-cases}

-- A function with another value at one argument.
abbrev pub update {ℓ} : {A : Type ℓ} → (ℕ → A) → ℕ → A → ℕ → A
update f i a j = if i == j then a else f j

abbrev pub has : ℕ → List ℕ → Bool
has i [] = false
has i (j ∷ js) = if i == j then true else has i js

-- A property of all values of an updated function.
pub update-all :
    {A : Type 0} (P : ℕ → A → Type 0) (f : ℕ → A) (i : ℕ) (a : A)
    → P i a
    → ((j : ℕ) → P j (f j))
    → (j : ℕ) → P j (update f i a j)
update-all P f i a h k j = elim (Bool-cases (i == j)) [
  | inl e ↦ let q : i ≡ j = ground (arith, ==_iff i j) in rw (e, ← q) h
  | inr e ↦ rw e (k j)
]

-- The same where the property of the other values needs that they are other values.
pub update-others :
    {A : Type 0} (P : ℕ → A → Type 0) (f : ℕ → A) (i : ℕ) (a : A)
    → P i a
    → ((j : ℕ) → i ≢ j → P j (f j))
    → (j : ℕ) → P j (update f i a j)
update-others P f i a h k j = elim (Bool-cases (i == j)) [
  | inl e ↦ let q : i ≡ j = ground (arith, ==_iff i j) in rw (e, ← q) h
  | inr e ↦ rw e (k j (ground (arith, e)))
]
