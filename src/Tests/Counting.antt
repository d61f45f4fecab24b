-- ===== src/Tests/Counting.antt =====
-- References to an object (backend/runtime/Object.h) at concrete steps.
use clojure_rt.Base.{◌≡◌, ◌↔◌, refl, true, [], arith}
use clojure_rt.Counts.System.{
  State, Retain, Release, Promote, retain, release, promote, give, Reach, first, later,
}
use clojure_rt.Counts.Safety.{destroyed-refs}

-- Thread 0 promotes its object, retains it, and gives a reference to thread 1.
abbrev given : (s : State) × Reach 0 s
given = (
  _,
  later
      (later
        (later
          (later (later first (promote 0 (Promote.load refl refl)))
            (promote 0 (Promote.store refl refl)))
          (retain 0 (Retain.load refl refl)))
        (retain 0 (Retain.fetch_add refl refl (omega arith))))
      (give 0 1 refl refl refl),
)

-- Thread 1 is about to release its reference.
abbrev releasing_one : (s : State) × Reach 0 s
releasing_one = (_, later given.1 (release 1 (Release.load refl refl)))

-- It has released it.
abbrev released_one : (s : State) × Reach 0 s
released_one =
    (_, later releasing_one.1 (release 1 (Release.fetch_sub refl refl (λ q. absurd (omega arith)))))

destroyed-refs_example : (released_one.0.destroyed ≡ true) ↔ (released_one.0.refs ≡ [])
destroyed-refs_example = destroyed-refs released_one.1
