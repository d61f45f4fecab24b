-- ===== src/Ebr/Safety.antt =====
-- No value of backend/runtime/Ebr.c is released while a thread holds it.
use clojure_rt.Base.{
  update, ℕ, suc, ◌+◌, ◌^◌, ◌≤◌, ◌<◌, ◌≡◌, inl, inr, refl, true, false, List, [], ◌∷◌, ◌++◌, ◌==◌,
  arith, Bool-cases,
}
use clojure_rt.Ebr.System.{
  Thread, Retired, fresh, linked, released, Sync, scanning, checking, collecting, sweeping, State,
  Register, Move, register_new, enter_load, enroll, next_epoch, age, Reclaim, start, scan_inactive,
  scan_active, check_current, check_behind, advance, collect, reclaim, retain, finish, Step, move,
  sync_step, publish, initial, Reach, first, later,
}
use clojure_rt.Ebr.Frame.{
  IsReadable, IsKnown, Place-IsKnown, Place-le, EntryOk, Scanned, Inv, EntryIn, SyncIn, AllOk-map,
  AllOk-append,
}
use clojure_rt.Ebr.Moves.{Register-Inv, Move-Inv}
use clojure_rt.Ebr.Shared.{status-Inv}

sync-Inv : {s : State} (k : Sync) → SyncIn s k → Inv s → Inv (record s { sync = k })
sync-Inv k h inv = record {
  counted = inv.counted;
  threads = inv.threads;
  member = inv.member;
  entries = inv.entries;
  retirings = inv.retirings;
  syncs = h;
}

module _ {s : State} (inv : Inv s) where
  open inv use {threads, member}

  -- The scan passes thread `j`.
  passed :
      (j : ℕ) (js : List ℕ)
      → ((s.thread j).active ≡ true → (s.thread j).since ≡ s.global_epoch)
      → Scanned s.global_epoch s.thread (j ∷ js)
      → Scanned s.global_epoch s.thread js
  passed j js h rest i on out = elim (Bool-cases (i == j)) [
    | inl e ↦ let q : j ≡ i = ground arith in rw (← q) (h (rw q on))
    | inr n ↦ rest i on (rw (n) out)
  ]

  scan_start : Scanned s.global_epoch s.thread s.registry
  scan_start i on out =
      let known : IsKnown (s.thread i).pc =
        Place-IsKnown s.global_epoch s.status (s.thread i).active (s.thread i).since (s.thread i).pc
          (threads i).place on in
      absurd (ground (arith, member i known, out))

  -- A value that is two epochs old is held by no thread.
  not_held :
      (v e : ℕ)
      → s.global_epoch < 2 ^ 32
      → EntryIn s v e
      → 2 ≤ age s.global_epoch e
      → (i : ℕ) → (s.thread i).holds v ≡ false
  not_held v e small entry old i = elim (Bool-cases ((s.thread i).holds v)) [
    | inl h ↦ absurd (
        ground
          (arith, entry.past, entry.earlier i h, (threads i).young ((threads i).guarded v h).0))
    | inr n ↦ n
  ]

  advance-Inv :
      {c : ℕ}
      → Scanned s.global_epoch s.thread []
      → c ≡ s.global_epoch
      → s.advanced + 1 < 2 ^ 32
      → Inv (record s {
        global_epoch = next_epoch s.global_epoch;
        sync = collecting (next_epoch c);
        advanced = suc s.advanced;
      })
  advance-Inv {c} all current small =
      let up : next_epoch s.global_epoch ≡ s.global_epoch + 1 = ground (arith, inv.counted) in
      let entry : (v e : ℕ)
          → EntryIn s v e
          → EntryOk (next_epoch s.global_epoch) s.status s.thread v e =
        λ v e h. record { past = ground (arith, h.past); gone = h.gone; earlier = h.earlier } in
      record {
        counted = ground (arith, inv.counted);
        threads = λ i. record {
          below = ground (arith, (threads i).below);
          young = λ on. ground (arith, (threads i).young on, all i on refl);
          guarded = (threads i).guarded;
          place =
              Place-le s.status (s.thread i).active (s.thread i).since (s.thread i).pc (omega arith)
                (threads i).place;
        };
        member = member;
        entries = AllOk-map s.pending entry inv.entries;
        retirings = λ i v e q. entry v e (inv.retirings i v e q);
        syncs = rw current refl;
      }

  reclaim-Inv :
      {c v e : ℕ} {todo keep : List Retired}
      → s.global_epoch < 2 ^ 32
      → SyncIn s (sweeping c ((v, e) ∷ todo) keep)
      → 2 ≤ age c e
      → Inv (record s { status = update s.status v released; sync = sweeping c todo keep })
  reclaim-Inv {c} {v} {e} {todo} {keep} small (q, (h, hs), ks) old =
      status-Inv {s = record s { sync = sweeping c todo keep }} (update s.status v released)
        (λ w g. elim (Bool-cases (v == w)) [ inl e ↦ rw e tt | inr e ↦ rw e g ])
        (λ w i held r. elim (Bool-cases (v == w)) [
          | inl same ↦ absurd (
              let vw : v ≡ w = ground arith in
              ground (arith, not_held v e small h (rw (← q) old) i, held))
          | inr other ↦ rw other r
        ])
        (sync-Inv (sweeping c todo keep) (q, hs, ks) inv)

  Reclaim-Inv : {k : Sync} {t : State} → Reclaim s k t → SyncIn s k → t.advanced < 2 ^ 32 → Inv t
  Reclaim-Inv start h small = sync-Inv (scanning s.global_epoch s.registry) (refl, scan_start) inv
  Reclaim-Inv (scan_inactive {c} {j} {js} off) (q, h) small =
      sync-Inv (scanning c js) (q, passed j js (λ on. absurd (ground (arith, off, on))) h) inv
  Reclaim-Inv (scan_active {c} {j} {js} on) (q, h) small = sync-Inv (checking c j js) (q, h) inv
  Reclaim-Inv (check_current {c} {j} {js} same) (q, h) small =
      sync-Inv (scanning c js) (q, passed j js (λ on. ground (arith, (threads j).young on)) h) inv
  Reclaim-Inv (check_behind {c} other) (q, h) small = sync-Inv (collecting c) q inv
  Reclaim-Inv advance (q, h) small = advance-Inv h q (omega arith)
  Reclaim-Inv (collect {c}) q small = record {
    counted = inv.counted;
    threads = threads;
    member = member;
    entries = tt;
    retirings = inv.retirings;
    syncs = (q, inv.entries, tt);
  }
  Reclaim-Inv (reclaim old) h small = reclaim-Inv (ground (arith, inv.counted)) h old
  Reclaim-Inv (retain {c} {v} {e} {todo} {keep} young) (q, (h, hs), ks) small =
      sync-Inv (sweeping c todo (keep ++ ((v, e) ∷ [])))
        (q, hs, AllOk-append (EntryIn s) keep ((v, e) ∷ []) ks (h, tt)) inv
  Reclaim-Inv (finish {c} {keep}) (q, hs, ks) small = record {
    counted = inv.counted;
    threads = threads;
    member = member;
    entries = AllOk-append (EntryIn s) keep s.pending ks inv.entries;
    retirings = inv.retirings;
    syncs = tt;
  }

  publish-Inv : (v : ℕ) → s.status v ≡ fresh → Inv (record s { status = update s.status v linked })
  publish-Inv v q =
      status-Inv (update s.status v linked)
        (λ w g. elim (Bool-cases (v == w)) [
          | inl e ↦ absurd (
              let vw : v ≡ w = ground arith in
              let f : s.status w ≡ fresh = rw (← vw) q in ground (arith, g, f))
          | inr e ↦ rw e g
        ])
        (λ w i held r. elim (Bool-cases (v == w)) [ inl e ↦ rw e tt | inr e ↦ rw e r ]) inv

Move-advanced :
    {s : State} {i : ℕ} {t : Thread} {s' : State} → Move s i t s' → s'.advanced ≡ s.advanced
Move-advanced (enter_load q) = refl
Move-advanced _ = refl

Register-advanced :
    {s : State} {i : ℕ} {t : Thread} {s' : State} → Register s i t s' → s'.advanced ≡ s.advanced
Register-advanced (register_new q out) = refl
Register-advanced _ = refl

Reclaim-advanced : {s t : State} {k : Sync} → Reclaim s k t → s.advanced ≤ t.advanced
Reclaim-advanced advance = omega arith
Reclaim-advanced _ = omega arith

advanced-le : {s t : State} → Step s t → s.advanced ≤ t.advanced
advanced-le (enroll i m) = omega (arith, Register-advanced m)
advanced-le (move i m) = omega (arith, Move-advanced m)
advanced-le (sync_step r) = Reclaim-advanced r
advanced-le (publish v q) = omega arith

Step-Inv : {s t : State} → Inv s → t.advanced < 2 ^ 32 → Step s t → Inv t
Step-Inv inv small (enroll i m) = Register-Inv inv i m
Step-Inv inv small (move i m) = Move-Inv inv i m
Step-Inv inv small (sync_step r) = Reclaim-Inv inv r inv.syncs small
Step-Inv inv small (publish v q) = publish-Inv inv v q

initial-Inv : Inv initial
initial-Inv = record {
  counted = refl;
  threads = λ i. record {
    below = omega arith;
    young = λ on. absurd (cc);
    guarded = λ v h. absurd (cc);
    place = refl;
  };
  member = λ i k. absurd k;
  entries = tt;
  retirings = λ i v e q. absurd (cc);
  syncs = tt;
}

pub Reach-Inv : {s : State} → Reach s → s.advanced < 2 ^ 32 → Inv s
Reach-Inv first small = initial-Inv
Reach-Inv (later r step) small = Step-Inv (Reach-Inv r (omega (arith, advanced-le step))) small step

-- In a state that the threads reach while the epoch has been advanced fewer than 2 ^ 32 times: a thread that holds
-- a value is active, and the value has been published and not released.
pub holds-IsReadable :
    {s : State} (i v : ℕ)
    → Reach s
    → s.advanced < 2 ^ 32
    → (s.thread i).holds v ≡ true
    → ((s.thread i).active ≡ true) × IsReadable (s.status v)
holds-IsReadable i v r small h = ((Reach-Inv r small).threads i).guarded v h

-- In a state that the threads reach while the epoch has been advanced fewer than 2 ^ 32 times: an active thread
-- entered its critical section, or last flushed it, in the current epoch or in the one before.
pub active-since :
    {s : State} (i : ℕ)
    → Reach s
    → s.advanced < 2 ^ 32
    → (s.thread i).active ≡ true
    → ((s.thread i).since ≤ s.global_epoch) × (s.global_epoch ≤ (s.thread i).since + 1)
active-since i r small on =
    let (old, past, near) = ((Reach-Inv r small).threads i).young on in (past, near)
