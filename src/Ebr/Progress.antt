-- ===== src/Ebr/Progress.antt =====
-- Runs of `Ebr_synchronize_and_reclaim` of backend/runtime/Ebr.c while no thread is in a critical section.
use clojure_rt.Base.{
  update, ℕ, ◌+◌, ◌^◌, ◌≤◌, ◌<◌, ◌≡◌, inl, inr, refl, true, false, List, [], ◌∷◌, ◌==◌, arith,
  Bool-cases, ==_self, leb,
}
use clojure_rt.Ebr.System.{Thread, Retired, Status, released, State, next_epoch, age, Reach}
use clojure_rt.Ebr.Frame.{AllOk, AllOk-map}
use clojure_rt.Ebr.Safety.{Reach-Inv}
use clojure_rt.Ebr.Run.{
  can_advance, release_old, keep_young, synchronize_and_reclaim, advanced_state, sweep,
}

quiet_advance :
    (thread : ℕ → Thread) (c : ℕ) (js : List ℕ)
    → ((i : ℕ) → (thread i).active ≡ false)
    → can_advance thread c js ≡ true
unfolding can_advance
quiet_advance thread c [] quiet = refl
quiet_advance thread c (j ∷ js) quiet = rw (quiet j) (quiet_advance thread c js quiet)

pub all_old : (c : ℕ) (es : List Retired) → AllOk (λ v e. 2 ≤ age c e) es → keep_young c es ≡ []
unfolding keep_young
all_old c [] h = refl
all_old c ((v, e) ∷ es) (h, hs) =
    let old : leb 2 (age c e) ≡ true = ground arith in rw old (all_old c es hs)

pub keep-AllOk :
    (P : ℕ → ℕ → Type 0) (c : ℕ) (es : List Retired) → AllOk P es → AllOk P (keep_young c es)
unfolding keep_young
keep-AllOk P c [] h = tt
keep-AllOk P c ((v, e) ∷ es) (h, hs) = elim (Bool-cases (leb 2 (age c e))) [
  | inl old ↦ rw old (keep-AllOk P c es hs)
  | inr young ↦ rw young (h, keep-AllOk P c es hs)
]

update_released :
    (status : ℕ → Status) (v u : ℕ) → status u ≡ released → update status v released u ≡ released
update_released status v u h = elim (Bool-cases (v == u)) [ inl e ↦ rw e refl | inr e ↦ rw e h ]

-- What is released stays released.
release_mono :
    (c : ℕ) (es : List Retired) (old new : ℕ → Status) (w : ℕ)
    → ((u : ℕ) → old u ≡ released → new u ≡ released)
    → release_old c es old w ≡ released
    → release_old c es new w ≡ released
unfolding release_old
release_mono c [] old new w f h = f w h
release_mono c ((v, e) ∷ es) old new w f h = elim (Bool-cases (leb 2 (age c e))) [
  | inl is_old ↦ rw is_old (
      release_mono c es (update old v released) (update new v released) w
        (λ u q. elim (Bool-cases (v == u)) [
          | inl same ↦ rw same refl
          | inr other ↦ rw other (f u (rw other at q))
        ])
        (rw is_old at h))
  | inr young ↦ rw young (release_mono c es old new w f (rw young at h))
]

release_stays :
    (c : ℕ) (es : List Retired) (status : ℕ → Status) (w : ℕ)
    → status w ≡ released
    → release_old c es status w ≡ released
unfolding release_old
release_stays c [] status w h = h
release_stays c ((v, e) ∷ es) status w h = elim (Bool-cases (leb 2 (age c e))) [
  | inl old ↦
      rw old (release_stays c es (update status v released) w (update_released status v w h))
  | inr young ↦ rw young (release_stays c es status w h)
]

two_sweeps :
    (c d : ℕ) (es : List Retired) (status : ℕ → Status)
    → AllOk (λ v e. 2 ≤ age d e) es
    → AllOk (λ v e. release_old d (keep_young c es) (release_old c es status) v ≡ released) es
unfolding release_old keep_young
two_sweeps c d [] status h = tt
two_sweeps c d ((v, e) ∷ es) status (h, hs) = elim (Bool-cases (leb 2 (age c e))) [
  | inl old ↦ (
    rw old (
        release_stays d (keep_young c es) _ v
          (release_stays c es (update status v released) v (rw (==_self v) refl))),
    AllOk-map es (λ w x q. rw old q) (two_sweeps c d es (update status v released) hs),
  )
  | inr young ↦
      let again : leb 2 (age d e) ≡ true = ground arith in
      let after : ℕ → Status = release_old c es status in
      (
        rw (young, again)
            (release_stays d (keep_young c es) (update after v released) v (rw (==_self v) refl)),
        AllOk-map es
            (λ w x q.
              rw (young, again)
                (release_mono d (keep_young c es) after (update after v released) w
                  (update_released after v) q))
            (two_sweeps c d es status hs),
      )
]

-- In a state that the threads reach, with the epoch to be advanced fewer than 2 ^ 32 times: if no thread is in a
-- critical section, two runs of `Ebr_synchronize_and_reclaim` release every value that was pending and leave none.
pub twice-released :
    {s : State}
    → Reach s
    → s.advanced + 2 < 2 ^ 32
    → ((i : ℕ) → (s.thread i).active ≡ false)
    → let t = (synchronize_and_reclaim (synchronize_and_reclaim s).0).0 in
      (t.pending ≡ []) × AllOk (λ v e. t.status v ≡ released) s.pending
unfolding synchronize_and_reclaim advanced_state sweep
twice-released {s} r small quiet =
    let inv = Reach-Inv r (omega arith) in
    let one : ℕ = next_epoch s.global_epoch in
    let two : ℕ = next_epoch one in
    let old : AllOk (λ v e. 2 ≤ age two e) s.pending =
      AllOk-map s.pending (λ v e h. ground (arith, h.past, inv.counted)) inv.entries in
    rw
      (
        quiet_advance s.thread s.global_epoch s.registry quiet,
        quiet_advance s.thread one s.registry quiet,
      )
      (all_old two _ (keep-AllOk _ one s.pending old), two_sweeps one two s.pending s.status old)
