-- ===== src/Tests/Threads.antt =====
-- Threads of backend/runtime/Ebr.c at concrete steps.
use clojure_rt.Base.{ℕ, ◌≡◌, refl, true, false, [], ◌∷◌, arith, some}
use clojure_rt.Ebr.System.{
  State, move, enroll, publish, Reach, first, later, register_new, unregister, terminate,
  register_used, register_active, register_epoch, outside, enter_load, enter_active, enter_epoch,
  acquire, unlink, retire_load, retire_push, leave, released,
}
use clojure_rt.Ebr.Frame.{IsReadable, AllOk}
use clojure_rt.Ebr.Safety.{holds-IsReadable}
use clojure_rt.Ebr.Run.{sweep, keep_young, advanced_state, can_advance, synchronize_and_reclaim}
use clojure_rt.Ebr.Readers.{synchronize_and_reclaim-IsReadable}
use clojure_rt.Ebr.Progress.{twice-released}
use clojure_rt.Ebr.Force.{force_reclaim, force_reclaim-ends}

-- Threads 0 and 1 enter, and both get the value 7.
abbrev reading : (s : State) × Reach s
reading = (
  _,
  later
      (later
        (later
          (later
            (later
              (later
                (later
                  (later
                    (later
                      (later (later first (enroll 0 (register_new refl refl)))
                        (enroll 1 (register_new refl refl)))
                      (publish 7 refl))
                    (move 0 (enter_load refl)))
                  (move 0 (enter_active refl)))
                (move 0 (enter_epoch refl)))
              (move 1 (enter_load refl)))
            (move 1 (enter_active refl)))
          (move 1 (enter_epoch refl)))
        (move 0 (acquire 7 refl refl)))
      (move 1 (acquire 7 refl refl)),
)

-- Thread 1 retires the value while thread 0 holds it.
abbrev retired : (s : State) × Reach s
retired = (
  _,
  later (later (later reading.1 (move 1 (unlink 7 refl refl))) (move 1 (retire_load refl)))
      (move 1 (retire_push refl)),
)

-- Both threads leave.
abbrev left : (s : State) × Reach s
left = (_, later (later retired.1 (move 1 (leave refl))) (move 0 (leave refl)))

abbrev one_left : (s : State) × Reach s
one_left = (_, later retired.1 (move 1 (leave refl)))

holds-IsReadable_example : ((retired.0.thread 0).active ≡ true) × IsReadable (retired.0.status 7)
holds-IsReadable_example = holds-IsReadable 0 7 retired.1 (omega arith) refl

synchronize_and_reclaim-IsReadable_example :
    let t = (synchronize_and_reclaim retired.0).0 in
    ((t.thread 0).holds 7 ≡ true) × IsReadable (t.status 7)
synchronize_and_reclaim-IsReadable_example =
    synchronize_and_reclaim-IsReadable 0 7 retired.1 refl (omega arith) refl

left_quiet : (i : ℕ) → (left.0.thread i).active ≡ false
left_quiet i = ground arith

one_left_alone : (i : ℕ) → (one_left.0.thread i).active ≡ true → 0 ≡ i
one_left_alone i on = ground arith

twice-released_example :
    let t = (synchronize_and_reclaim (synchronize_and_reclaim left.0).0).0 in
    (t.pending ≡ []) × AllOk (λ v e. t.status v ≡ released) ((7, 0) ∷ [])
twice-released_example = twice-released left.1 (omega arith) left_quiet

force_reclaim-ends_example :
    (t : State) × (force_reclaim 2 0 one_left.0 ≡ some t) × (t.pending ≡ [])
force_reclaim-ends_example = force_reclaim-ends 0 0 one_left.1 (omega arith) one_left_alone

-- The reader that has not left keeps the value from being released, for as many runs as there are.
kept_while_read :
    (synchronize_and_reclaim
      (synchronize_and_reclaim (synchronize_and_reclaim retired.0).0).0).0.pending
    ≡ ((7, 0) ∷ [])
unfolding synchronize_and_reclaim sweep keep_young advanced_state can_advance
kept_while_read = refl

-- A thread leaves, and its state is used again, store by store.
abbrev reused : (s : State) × Reach s
reused = (
  _,
  later
      (later
        (later (later (later left.1 (enroll 0 (unregister refl))) (enroll 0 (terminate refl)))
          (enroll 0 (register_used refl refl refl)))
        (enroll 0 (register_active refl)))
      (enroll 0 (register_epoch refl)),
)

reused_outside : (reused.0.thread 0).pc ≡ outside
reused_outside = refl
