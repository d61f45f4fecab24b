-- ===== src/Ebr/Run.antt =====
-- `Ebr_synchronize_and_reclaim` of backend/runtime/Ebr.c as one function, with no step of another thread in between.
use clojure_rt.Base.{
  update, ℕ, suc, ◌≡◌, inl, inr, Bool, true, false, List, [], ◌∷◌, ◌++◌, ◌==◌, arith, Bool-cases,
  if◌then◌else◌, leb, append_assoc, append-nil,
}
use clojure_rt.Ebr.System.{
  Thread, Retired, Status, released, Sync, idle, scanning, collecting, sweeping, State, next_epoch,
  age, start, scan_inactive, scan_active, check_current, check_behind, advance, collect, reclaim,
  retain, finish, Step, sync_step,
}

-- `can_advance` after the loop over the threads.
unfoldable pub can_advance : (ℕ → Thread) → ℕ → List ℕ → Bool
can_advance thread c [] = true
can_advance thread c (j ∷ js) =
    let rest = can_advance thread c js in
    if (thread j).active then (if (thread j).local_epoch == c then rest else false) else rest

-- The loop over the retired objects: the values that it releases, and what it keeps.
unfoldable pub release_old : ℕ → List Retired → (ℕ → Status) → ℕ → Status
release_old c [] status = status
release_old c ((v, e) ∷ es) status =
    if leb 2 (age c e) then release_old c es (update status v released) else release_old c es status

unfoldable pub keep_young : ℕ → List Retired → List Retired
keep_young c [] = []
keep_young c ((v, e) ∷ es) =
    let rest = keep_young c es in if leb 2 (age c e) then rest else (v, e) ∷ rest

-- `reclaimed`
unfoldable pub count_old : ℕ → List Retired → ℕ
count_old c [] = 0
count_old c ((v, e) ∷ es) = let rest = count_old c es in if leb 2 (age c e) then suc rest else rest

-- The state with the epoch advanced or as it was.
unfoldable pub advanced_state : State → State
advanced_state s =
    if can_advance s.thread s.global_epoch s.registry
    then record s { global_epoch = next_epoch s.global_epoch; advanced = suc s.advanced }
    else s

unfoldable pub sweep : State → State
sweep s = record s {
  status = release_old s.global_epoch s.pending s.status;
  pending = keep_young s.global_epoch s.pending;
}

unfoldable pub synchronize_and_reclaim : State → State × ℕ
synchronize_and_reclaim s =
    let a = advanced_state s in (sweep a, count_old a.global_epoch a.pending)

-- A sequence of steps.
pub data Steps : State → State → Type 0 where
  done : {s : State} → Steps s s
  step : {s t u : State} → Step s t → Steps t u → Steps s u

abbrev after_scan : State → Bool → State
after_scan s true = record s {
  global_epoch = next_epoch s.global_epoch;
  advanced = suc s.advanced;
  sync = collecting (next_epoch s.global_epoch);
}
after_scan s false = record s { sync = collecting s.global_epoch }

abbrev rsync : State → Sync → State
rsync s k = record s { sync = k }

append-Steps : {s t u : State} → Steps s t → Steps t u → Steps s u
append-Steps done ts = ts
append-Steps (step x ss) ts = step x (append-Steps ss ts)

module _ (s : State) where
  scan_run :
      (js : List ℕ) (b : Bool)
      → can_advance s.thread s.global_epoch js ≡ b
      → Steps (rsync s (scanning s.global_epoch js)) (after_scan s b)
  unfolding can_advance
  scan_run [] true q = step (sync_step advance) done
  scan_run [] false q = absurd (ground (arith, q))
  scan_run (j ∷ js) b q = elim (Bool-cases (s.thread j).active) [
    | inr off ↦ step (sync_step (scan_inactive off)) (scan_run js b (ground (arith, off, q)))
    | inl on ↦
        step (sync_step (scan_active on))
          (elim (Bool-cases ((s.thread j).local_epoch == s.global_epoch)) [
            | inl same ↦
                step (sync_step (check_current (ground (arith, same))))
                  (scan_run js b (ground (arith, on, same, q)))
            | inr other ↦
                let no_advance : b ≡ false = ground (arith, on, other, q) in
                rw no_advance
                  (step (sync_step (check_behind λ same. ground (arith, other, same))) done)
          ])
  ]

  sweep_run :
      (c : ℕ) (todo keep : List Retired) (status : ℕ → Status)
      → Steps
          (record s { status = status; sync = sweeping c todo keep })
          (record s {
            status = release_old c todo status;
            pending = (keep ++ keep_young c todo) ++ s.pending;
            sync = idle;
          })
  unfolding release_old keep_young
  sweep_run c [] keep status = step (sync_step finish) (rw (append-nil keep) done)
  sweep_run c ((v, e) ∷ todo) keep status = elim (Bool-cases (leb 2 (age c e))) [
    | inl old ↦ rw old (
        step (sync_step (reclaim (ground (arith, old))))
          (sweep_run c todo keep (update status v released)))
    | inr young ↦
        let snoc : (keep ++ ((v, e) ∷ [])) ++ keep_young c todo
            ≡ keep ++ ((v, e) ∷ keep_young c todo) =
          append_assoc keep ((v, e) ∷ []) (keep_young c todo) in
        rw (young, ← snoc)
          (step (sync_step (retain (ground (arith, young))))
            (sweep_run c todo (keep ++ ((v, e) ∷ [])) status))
  ]

collect_run : (s : State) → Steps (rsync s (collecting s.global_epoch)) (rsync (sweep s) idle)
unfolding sweep
collect_run s =
    let e : keep_young s.global_epoch s.pending ++ [] ≡ keep_young s.global_epoch s.pending =
      append-nil _ in
    step (sync_step collect)
      (rw (← e) (sweep_run (record s { pending = [] }) s.global_epoch s.pending [] s.status))

-- With no run in progress: the steps of `Ebr_synchronize_and_reclaim`, with no step of another thread in between,
-- lead to the state that the function computes.
pub synchronize_and_reclaim-Steps :
    (s : State) → Steps (rsync s idle) (rsync (synchronize_and_reclaim (rsync s idle)).0 idle)
unfolding synchronize_and_reclaim advanced_state sweep
synchronize_and_reclaim-Steps s =
    elim (Bool-cases (can_advance s.thread s.global_epoch s.registry)) [
      | inl free ↦ rw free (
          step (sync_step start) (
            append-Steps (scan_run s s.registry true free) (
              collect_run (record s {
                global_epoch = next_epoch s.global_epoch;
                advanced = suc s.advanced;
              }))))
      | inr blocked ↦ rw blocked (
          step (sync_step start)
            (append-Steps (scan_run s s.registry false blocked) (collect_run s)))
    ]
