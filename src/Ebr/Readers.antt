-- ===== src/Ebr/Readers.antt =====
-- What one run of `Ebr_synchronize_and_reclaim` of backend/runtime/Ebr.c does to the values that threads hold.
use clojure_rt.Base.{ℕ, ◌+◌, ◌^◌, ◌≤◌, ◌<◌, ◌≡◌, refl, true, arith, Bool-cases, inl, inr}
use clojure_rt.Ebr.System.{idle, State, Reach, later}
use clojure_rt.Ebr.Frame.{IsReadable}
use clojure_rt.Ebr.Safety.{holds-IsReadable}
use clojure_rt.Ebr.Run.{
  Steps, done, step, can_advance, advanced_state, sweep, synchronize_and_reclaim,
  synchronize_and_reclaim-Steps,
}

Reach-Steps : {s t : State} → Reach s → Steps s t → Reach t
Reach-Steps r done = r
Reach-Steps r (step x xs) = Reach-Steps (later r x) xs

run-advanced : (s : State) → (synchronize_and_reclaim s).0.advanced ≤ s.advanced + 1
unfolding synchronize_and_reclaim advanced_state sweep
run-advanced s = elim (Bool-cases (can_advance s.thread s.global_epoch s.registry)) [
  | inl e ↦ rw e (omega arith)
  | inr e ↦ rw e (omega arith)
]

run-thread : (s : State) (i : ℕ) → (synchronize_and_reclaim s).0.thread i ≡ s.thread i
unfolding synchronize_and_reclaim advanced_state sweep
run-thread s i = elim (Bool-cases (can_advance s.thread s.global_epoch s.registry)) [
  | inl e ↦ rw e refl
  | inr e ↦ rw e refl
]

-- In a state that the threads reach with no run in progress, the epoch to be advanced fewer than 2 ^ 32 times, and a
-- thread that holds a value: after one whole run of `Ebr_synchronize_and_reclaim` the thread holds the value still, and
-- the value has not been released, whatever the run released.
pub synchronize_and_reclaim-IsReadable :
    {s : State} (i v : ℕ)
    → Reach s
    → s.sync ≡ idle
    → s.advanced + 1 < 2 ^ 32
    → (s.thread i).holds v ≡ true
    → let t = (synchronize_and_reclaim s).0 in
      ((t.thread i).holds v ≡ true) × IsReadable (t.status v)
synchronize_and_reclaim-IsReadable {s} i v r q small h =
    let still : (((synchronize_and_reclaim s).0.thread i).holds v) ≡ true = rw (run-thread s i) h in
    let steps = synchronize_and_reclaim-Steps s in
    let idle_s : record s { sync = idle } ≡ s = rw (← q) refl in
    let run : Reach (record ((synchronize_and_reclaim s).0) { sync = idle }) =
      rw idle_s at (Reach-Steps (rw idle_s r) steps) in
    (still, (holds-IsReadable i v run (omega (arith, run-advanced s)) still).1)
