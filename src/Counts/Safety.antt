-- ===== src/Counts/Safety.antt =====
-- What holds of the reference count of backend/runtime/Object.h while threads use it.
use clojure_rt.Base.{
  has, ℕ, ◌+◌, ◌*◌, ◌%◌, ◌^◌, ◌<◌, ◌≤◌, ◌≡◌, ◌↔◌, inl, inr, true, false, [], length, arith,
  Bool-cases,
}
use clojure_rt.Counts.System.{State, Reach}
use clojure_rt.Counts.Keep.{IsBusy}
use clojure_rt.Counts.Preserve.{Reach-Inv, alive}

-- In a state that the threads reach: the object is destroyed exactly where no thread has a reference to it.
pub destroyed-refs : {owner : ℕ} {s : State} → Reach owner s → (s.destroyed ≡ true) ↔ (s.refs ≡ [])
destroyed-refs {s = s} r =
    let inv = Reach-Inv r in
    (
      inv.gone,
      λ e. elim (Bool-cases s.destroyed) [
        | inl d ↦ d
        | inr n ↦ absurd (let one : 1 ≤ length s.refs = inv.live n in ground (arith, rw e at one))
      ],
    )

-- In a state that the threads reach: a thread in the middle of a retain, a release, a promotion or the store of
-- `Object_isReusable` has a reference, and the object is not destroyed.
pub IsBusy-alive :
    {owner : ℕ} {s : State} (i : ℕ)
    → Reach owner s
    → IsBusy (s.pc i)
    → (has i s.refs ≡ true) × (s.destroyed ≡ false)
IsBusy-alive i r b = let inv = Reach-Inv r in (inv.busy i b, alive inv i (inv.busy i b))

-- In a state that the threads reach where the object is not destroyed: the count is twice the number of references
-- plus the bit for shared objects, and it has not wrapped.
pub count-bounds :
    {owner : ℕ} {s : State}
    → Reach owner s
    → s.destroyed ≡ false
    → (s.count ≡ 2 * length s.refs + s.count % 2) × (s.count < 2 ^ 64)
count-bounds {s = s} r d =
    let inv = Reach-Inv r in (omega (arith, inv.counted d), omega (arith, inv.counted d, inv.small))
