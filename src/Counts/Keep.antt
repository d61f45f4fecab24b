-- ===== src/Counts/Keep.antt =====
-- The references to an object, and what a thread's loaded count says (backend/runtime/Object.h).
use clojure_rt.Base.{
  has, ℕ, ◌+◌, ◌/◌, ◌%◌, ◌^◌, ◌<◌, ◌≤◌, ◌≡◌, ◌≢◌, refl, inl, inr, true, false, List, [], ◌∷◌, ◌==◌,
  length, arith, Bool-cases,
}
use clojure_rt.Counts.System.{
  Pc, idle, retaining, releasing, reusing, promoting, State, IsLocal, remove,
}

pub length-remove : (i : ℕ) (xs : List ℕ) → has i xs ≡ true → length (remove i xs) + 1 ≡ length xs
length-remove i [] h = absurd (cc)
length-remove i (x ∷ xs) h = elim (Bool-cases (i == x)) [
  | inl e ↦ rw e (omega arith)
  | inr n ↦ rw n (omega (arith, length-remove i xs (rw n at h)))
]

-- Another thread keeps its references.
pub has-remove : (i k : ℕ) (xs : List ℕ) → i ≢ k → has k xs ≡ true → has k (remove i xs) ≡ true
has-remove i k [] ne h = absurd (cc)
has-remove i k (x ∷ xs) ne h = ground (arith, has-remove i k xs ne)

pub has-remove-old : (i k : ℕ) (xs : List ℕ) → has k (remove i xs) ≡ true → has k xs ≡ true
has-remove-old i k [] h = absurd (cc)
has-remove-old i k (x ∷ xs) h = ground (arith, has-remove-old i k xs)

-- Where there is one reference, one thread has it.
pub only : (i : ℕ) (xs : List ℕ) → length xs ≡ 1 → has i xs ≡ true → xs ≡ (i ∷ [])
only i [] h k = absurd (cc)
only i (x ∷ []) h k = let e : i ≡ x = ground arith in rw e refl
only i (x ∷ (y ∷ xs)) h k = absurd (omega arith)

pub only_one : (i j : ℕ) (xs : List ℕ) → length xs ≡ 1 → has i xs ≡ true → has j xs ≡ true → i ≡ j
only_one i j [] h a b = absurd (cc)
only_one i j (x ∷ []) h a b = ground arith
only_one i j (x ∷ (y ∷ xs)) h a b = absurd (omega arith)

-- The count that a thread has loaded is still right, as far as the thread relies on it.
abbrev pub Loaded : ℕ → Pc → Type 0
Loaded count idle = Unit
Loaded count (retaining c) = (c % 2 ≡ count % 2) × (IsLocal count → c ≡ count)
Loaded count (releasing c) = (c % 2 ≡ count % 2) × (IsLocal count → c ≡ count)
Loaded count (promoting c) = (c % 2 ≡ count % 2) × (IsLocal count → c ≡ count)
Loaded count reusing = count ≡ 3

abbrev pub IsBusy : Pc → Type 0
IsBusy idle = ⊥
IsBusy _ = Unit

pub record Inv (s : State) : Type 0 where
  pub counted : s.destroyed ≡ false → s.count / 2 ≡ length s.refs
  pub live : s.destroyed ≡ false → 1 ≤ length s.refs
  pub small : length s.refs < 2 ^ 63
  pub gone : s.destroyed ≡ true → s.refs ≡ []
  pub local : IsLocal s.count → (i j : ℕ) → has i s.refs ≡ true → has j s.refs ≡ true → i ≡ j
  pub busy : (i : ℕ) → IsBusy (s.pc i) → has i s.refs ≡ true
  pub loaded : (i : ℕ) → Loaded s.count (s.pc i)
