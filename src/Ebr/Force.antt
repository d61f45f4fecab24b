-- ===== src/Ebr/Force.antt =====
-- `Ebr_force_reclaim` of backend/runtime/Ebr.c, from where the other threads have gone.
use clojure_rt.Base.{
  update-all, ℕ, zero, suc, ◌+◌, ◌^◌, ◌≤◌, ◌<◌, ◌≡◌, inl, inr, refl, Bool, true, false, List, [],
  ◌∷◌, ◌==◌, arith, Bool-cases, ==_self, if◌then◌else◌, Option, some, none,
}
use clojure_rt.Ebr.System.{Thread, Retired, State, next_epoch, age, Reach, with_thread, nothing}
use clojure_rt.Ebr.Frame.{AllOk, AllOk-map}
use clojure_rt.Ebr.Safety.{Reach-Inv}
use clojure_rt.Ebr.Run.{can_advance, keep_young, synchronize_and_reclaim, advanced_state, sweep}
use clojure_rt.Ebr.Progress.{all_old, keep-AllOk}

-- `Ebr_flush_critical` of thread `i`
unfoldable pub flush_critical : ℕ → State → State
flush_critical i s =
    with_thread s i (record (s.thread i) {
      local_epoch = s.global_epoch;
      since = s.global_epoch;
      holds = nothing;
    })

abbrev pub is_empty : List Retired → Bool
is_empty [] = true
is_empty (e ∷ es) = false

-- The loop of `Ebr_force_reclaim`, called by thread `i`.
unfoldable pub force_reclaim : (fuel : ℕ) → ℕ → State → Option State
force_reclaim zero i s = none
force_reclaim (suc n) i s =
    let t = (synchronize_and_reclaim (flush_critical i s)).0 in
    let rest = force_reclaim n i t in if is_empty t.pending then some t else rest

current_advance :
    (thread : ℕ → Thread) (c : ℕ) (js : List ℕ)
    → ((j : ℕ) → (thread j).active ≡ true → (thread j).local_epoch ≡ c)
    → can_advance thread c js ≡ true
unfolding can_advance
current_advance thread c [] h = refl
current_advance thread c (j ∷ js) h = elim (Bool-cases (thread j).active) [
  | inl on ↦ rw (on, h j on, ==_self c) (current_advance thread c js h)
  | inr off ↦ rw off (current_advance thread c js h)
]

-- Only thread `i` may be active.
abbrev pub Alone : ℕ → State → Type 0
Alone i s = (j : ℕ) → (s.thread j).active ≡ true → i ≡ j

-- One turn of the loop.
record Round (i : ℕ) (s t : State) : Type 0 where
  epoch : t.global_epoch ≡ next_epoch s.global_epoch
  alone : Alone i t
  kept : t.pending ≡ keep_young (next_epoch s.global_epoch) s.pending

synchronize_and_reclaim-Round :
    (i : ℕ) (s : State) → Alone i s → Round i s (synchronize_and_reclaim (flush_critical i s)).0
unfolding synchronize_and_reclaim advanced_state sweep flush_critical
synchronize_and_reclaim-Round i s alone =
    let flushed : State = flush_critical i s in
    let free : can_advance flushed.thread s.global_epoch s.registry ≡ true =
      current_advance flushed.thread s.global_epoch s.registry (λ j on. elim (Bool-cases (i == j)) [
        | inl e ↦ rw e refl
        | inr n ↦ absurd (ground (arith, n, alone j (rw n at on)))
      ]) in
    rw free (record {
      epoch = refl;
      alone = update-all (λ j u. u.active ≡ true → i ≡ j) s.thread i _ (λ on. refl) alone;
      kept = refl;
    })

is_empty-nil : (es : List Retired) → is_empty es ≡ true → es ≡ []
is_empty-nil [] h = refl
is_empty-nil (e ∷ es) h = absurd (cc)

-- In a state that the threads reach, with the epoch to be advanced fewer than 2 ^ 32 times: if every thread but the
-- caller is outside the critical sections, the loop of `Ebr_force_reclaim` ends within two turns, and no value is
-- pending then.
pub force_reclaim-ends :
    {s : State} (i n : ℕ)
    → Reach s
    → s.advanced + 2 < 2 ^ 32
    → Alone i s
    → (t : State) × (force_reclaim (suc (suc n)) i s ≡ some t) × (t.pending ≡ [])
unfolding force_reclaim
force_reclaim-ends {s} i n r small alone =
    let inv = Reach-Inv r (omega arith) in
    let t = (synchronize_and_reclaim (flush_critical i s)).0 in
    let u = (synchronize_and_reclaim (flush_critical i t)).0 in
    let first = synchronize_and_reclaim-Round i s alone in
    let second = synchronize_and_reclaim-Round i t first.alone in
    let old : AllOk (λ v e. 2 ≤ age (next_epoch (next_epoch s.global_epoch)) e) s.pending =
      AllOk-map s.pending (λ v e h. ground (arith, h.past, inv.counted)) inv.entries in
    let gone : u.pending ≡ [] =
      rw (second.kept, first.kept, first.epoch) (all_old _ _ (keep-AllOk _ _ s.pending old)) in
    elim (Bool-cases (is_empty t.pending)) [
      | inl now ↦ (t, rw now refl, is_empty-nil t.pending now)
      | inr later ↦ (u, rw (later, gone) refl, gone)
    ]
