-- ===== src/Ebr/Turn.antt =====
-- A step that changes the state of one thread (backend/runtime/Ebr.c), in terms of its new state.
use clojure_rt.Base.{
  has, update, update-all, ℕ, ◌≤◌, ◌≡◌, ◌⊎◌, inl, inr, refl, true, false, List, arith, ap,
}
use clojure_rt.Ebr.System.{Pc, retiring, Thread, linked, State, with_thread, nothing}
use clojure_rt.Ebr.Frame.{
  IsKnown, Place, Place-IsKnown, ThreadOk, Scanned, Inv, AllOk-map, SyncOk-map, EntryIn,
}

-- What the new state of thread `i` must satisfy.
pub record Turn (s : State) (i : ℕ) (t : Thread) : Type 0 where
  pub ok : ThreadOk s.global_epoch s.status t
  pub listed : IsKnown t.pc → has i s.registry ≡ true
  pub keeps :
      (v : ℕ)
      → t.holds v ≡ true
      → ((s.thread i).holds v ≡ true) × (t.since ≡ (s.thread i).since) ⊎ (s.status v ≡ linked)
  pub stays :
      t.active ≡ true
      → ((s.thread i).active ≡ true) × (t.since ≡ (s.thread i).since) ⊎ (t.since ≡ s.global_epoch)
  pub retires : (v e : ℕ) → t.pc ≡ retiring v e → EntryIn s v e

module _ {s : State} (i : ℕ) {t : Thread} (turn : Turn s i t) where
  with_thread-EntryOk : (v e : ℕ) → EntryIn s v e → EntryIn (with_thread s i t) v e
  with_thread-EntryOk v e ok = record {
    past = ok.past;
    gone = ok.gone;
    earlier =
        update-all (λ j u. u.holds v ≡ true → u.since ≤ e) s.thread i t
          (λ h. elim (turn.keeps v h) [
            | inl (held, same) ↦ rw same (ok.earlier i held)
            | inr q ↦ absurd (ground (arith, ok.gone, q))
          ])
          ok.earlier;
  }

  with_thread-Scanned :
      (rest : List ℕ)
      → Scanned s.global_epoch s.thread rest
      → Scanned s.global_epoch (update s.thread i t) rest
  with_thread-Scanned rest h =
      update-all (λ j u. u.active ≡ true → has j rest ≡ false → u.since ≡ s.global_epoch) s.thread i
        t (λ a out. elim (turn.stays a) [ inl (was, same) ↦ rw same (h i was out) | inr q ↦ q ]) h

  pub with_thread-Inv : Inv s → Inv (with_thread s i t)
  with_thread-Inv inv = record {
    counted = inv.counted;
    threads =
        update-all (λ j u. ThreadOk s.global_epoch s.status u) s.thread i t turn.ok inv.threads;
    member =
        update-all (λ j u. IsKnown u.pc → has j s.registry ≡ true) s.thread i t turn.listed
          inv.member;
    entries = AllOk-map s.pending with_thread-EntryOk inv.entries;
    retirings =
        update-all (λ j u. (v e : ℕ) → u.pc ≡ retiring v e → EntryIn (with_thread s i t) v e)
          s.thread i t (λ v e q. with_thread-EntryOk v e (turn.retires v e q))
          (λ j v e q. with_thread-EntryOk v e (inv.retirings j v e q));
    syncs = SyncOk-map s.sync with_thread-EntryOk with_thread-Scanned inv.syncs;
  }

-- Where a thread is about to retire a value.
abbrev pub IsRetiring : Pc → Type 0
IsRetiring (retiring v e) = Unit
IsRetiring _ = ⊥

pub not_retiring : {A : Type 0} {p : Pc} {v e : ℕ} → (IsRetiring p → ⊥) → p ≡ retiring v e → A
not_retiring {A} {p} {v} {e} others q = absurd (others (rw q tt))

-- The steps of a thread in a state with the invariant.
module _ {s : State} (inv : Inv s) (i : ℕ) where
  open inv use {threads, member, retirings}

  abbrev me : Thread
  me = s.thread i

  pub here : {p : Pc} → me.pc ≡ p → Place s.global_epoch s.status me.active me.since p
  here {p} q = rw (← q) (threads i).place

  -- Outside the critical sections a thread holds nothing.
  pub inactive-Turn :
      (t : Thread)
      → t.local_epoch ≤ s.global_epoch
      → t.active ≡ false
      → ((v : ℕ) → t.holds v ≡ false)
      → Place s.global_epoch s.status t.active t.since t.pc
      → (IsRetiring t.pc → ⊥)
      → (IsKnown t.pc → has i s.registry ≡ true)
      → Turn s i t
  inactive-Turn t below a h p others reg = record {
    ok = record {
      below = below;
      young = λ q. ground (arith, a, q);
      guarded = λ v q. ground (arith, h v, q);
      place = p;
    };
    listed = reg;
    keeps = λ v q. ground (arith, h v, q);
    stays = λ q. ground (arith, a, q);
    retires = λ v e. not_retiring others;
  }

  -- The thread stays where it is and keeps what it holds.
  pub active-Turn :
      (p : Pc)
      → Place s.global_epoch s.status me.active me.since p
      → me.active ≡ true
      → ((v e : ℕ) → p ≡ retiring v e → EntryIn s v e)
      → Turn s i (record me { pc = p })
  active-Turn p h a r = record {
    ok = record {
      below = (threads i).below;
      young = (threads i).young;
      guarded = (threads i).guarded;
      place = h;
    };
    listed = λ k.
        member i
          (Place-IsKnown s.global_epoch s.status me.active me.since me.pc (threads i).place a);
    keeps = λ v q. inl (q, refl);
    stays = λ q. inl (q, refl);
    retires = r;
  }

  -- The thread enters, or goes on with nothing that it held.
  pub renewed-Turn :
      (t : Thread)
      → t.local_epoch ≤ s.global_epoch
      → t.since ≡ s.global_epoch
      → t.holds ≡ nothing
      → has i s.registry ≡ true
      → Place s.global_epoch s.status t.active t.since t.pc
      → (IsRetiring t.pc → ⊥)
      → Turn s i t
  renewed-Turn t below now h reg p others = record {
    ok = record {
      below = below;
      young = λ q. ground arith;
      guarded = λ v q. absurd (ground (arith, ap (λ f. f v) h, q));
      place = p;
    };
    listed = λ q. reg;
    keeps = λ v q. absurd (ground (arith, ap (λ f. f v) h, q));
    stays = λ q. inr now;
    retires = λ v e. not_retiring others;
  }
