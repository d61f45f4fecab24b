-- ===== src/Vector/Radix.antt =====
-- The positions of a radix of 32: what a shift and a mask select.
use native.Mathlib.Nat.{
  pow-suc, mul-add-mod_self_left, mod-eq_of_lt, div-add-mod, mod-lt, one-le-pow,
}
use clojure_rt.Base.{
  zero, ◌≤◌, ℕ, zero, suc, ◌+◌, ◌*◌, ◌/◌, ◌%◌, ◌^◌, ◌≤◌, ◌<◌, ◌≡◌, refl, ◌∙◌, ap, arith,
}

-- The elements of a full node at a height, which is also the number that the shift of the level above
-- divides by.
pub capacity : ℕ → ℕ
capacity h = 2 ^ (5 * suc h)

pub capacity-zero : capacity 0 ≡ 32
unfolding capacity
capacity-zero = refl

pub capacity-level : (h : ℕ) → 2 ^ (5 * suc h) ≡ capacity h
unfolding capacity
capacity-level h = refl

pow_shift : (k : ℕ) → 2 ^ suc (suc (suc (suc (suc k)))) ≡ 32 * 2 ^ k
pow_shift k = omega (
  arith,
  pow-suc 2 (suc (suc (suc (suc k)))),
  pow-suc 2 (suc (suc (suc k))),
  pow-suc 2 (suc (suc k)),
  pow-suc 2 (suc k),
  pow-suc 2 k,
)

pub capacity-suc : (h : ℕ) → capacity (suc h) ≡ 32 * capacity h
unfolding capacity
capacity-suc h =
    let e : 5 * suc (suc h) ≡ suc (suc (suc (suc (suc (5 * suc h))))) = omega arith in
    rw e (pow_shift (5 * suc h))

pub capacity-pos : (h : ℕ) → 0 < capacity h
unfolding capacity
capacity-pos h = one-le-pow (5 * suc h) 2 (omega arith)

-- A capacity is above the shift of the level over it.
pub capacity-ge : (h : ℕ) → 5 * h + 32 ≤ capacity h
capacity-ge zero = rw capacity-zero (omega arith)
capacity-ge (suc h) = rw capacity-suc (omega (arith, capacity-ge h))

digits-lt : (d r s : ℕ) → d < 32 → r < s → d * s + r < 32 * s
digits-lt d r s hd hr = grind arith

digits-eq : (i s : ℕ) → i ≡ 32 * s * (i / s / 32) + (i / s % 32 * s + i % s)
digits-eq i s = omega (arith, div-add-mod i s, ap (λ (t : ℕ). s * t) (div-add-mod (i / s) 32))

-- The lowest digit and the rest of an index, over a place of `s` elements.
pub mod-digit : (i s : ℕ) → 0 < s → i % (32 * s) ≡ i / s % 32 * s + i % s
mod-digit i s h =
    ap (λ (t : ℕ). t % (32 * s)) (digits-eq i s)
    ∙ mul-add-mod_self_left (32 * s) (i / s / 32) (i / s % 32 * s + i % s)
    ∙ mod-eq_of_lt (digits-lt (i / s % 32) (i % s) s (omega arith) (mod-lt i h))
