-- ===== src/Ebr/Shared.antt =====
-- Changes of what the threads share (backend/runtime/Ebr.c): a value, the registry, the pending objects.
use clojure_rt.Base.{update, ℕ, ◌≡◌, inl, inr, Bool, true, ◌∷◌, ◌==◌, arith, Bool-cases}
use clojure_rt.Ebr.System.{Pc, unlinked, Status, linked, detached, State}
use clojure_rt.Ebr.Frame.{IsGone, IsReadable, Place, Inv, AllOk-map, SyncOk-map, EntryIn}

status-Place :
    (old new : ℕ → Status)
    → ((w : ℕ) → IsGone (old w) → IsGone (new w))
    → (g : ℕ) (active : Bool) (since : ℕ) (p : Pc) → Place g old active since p
    → Place g new active since p
status-Place old new gone g active since (unlinked v) (on, h) = (on, gone v h)
status-Place old new gone g active since _ h = h

module _ {s : State} (status : ℕ → Status)
    (gone : (w : ℕ) → IsGone (s.status w) → IsGone (status w)) where
  -- Values that leave shared memory, are released, or get there, and no thread loses one that it holds.
  pub status-Inv :
      ((w i : ℕ) → (s.thread i).holds w ≡ true → IsReadable (s.status w) → IsReadable (status w))
      → Inv s
      → Inv (record s { status = status })
  status-Inv readable inv =
      let entry : (v e : ℕ) → EntryIn s v e → EntryIn (record s { status = status }) v e =
        λ v e h. record { past = h.past; gone = gone v h.gone; earlier = h.earlier } in
      record {
        counted = inv.counted;
        threads = λ i. record {
          below = (inv.threads i).below;
          young = (inv.threads i).young;
          guarded = λ v h. let (on, r) = (inv.threads i).guarded v h in (on, readable v i h r);
          place =
              status-Place s.status status gone s.global_epoch (s.thread i).active
                (s.thread i).since (s.thread i).pc (inv.threads i).place;
        };
        member = inv.member;
        entries = AllOk-map s.pending entry inv.entries;
        retirings = λ i v e q. entry v e (inv.retirings i v e q);
        syncs = SyncOk-map s.sync entry (λ rest h. h) inv.syncs;
      }

-- A value leaves shared memory.
pub unlink-Inv :
    {s : State} (v : ℕ)
    → s.status v ≡ linked
    → Inv s
    → Inv (record s { status = update s.status v detached })
unlink-Inv {s} v l =
    status-Inv (update s.status v detached)
      (λ w h. elim (Bool-cases (v == w)) [ inl e ↦ rw e tt | inr e ↦ rw e h ])
      (λ w i q h. elim (Bool-cases (v == w)) [ inl e ↦ rw e tt | inr e ↦ rw e h ])

pub register-Inv : {s : State} (i : ℕ) → Inv s → Inv (record s { registry = i ∷ s.registry })
register-Inv {s} i inv = record {
  counted = inv.counted;
  threads = inv.threads;
  member = λ j k. ground (arith, inv.member j k);
  entries = inv.entries;
  retirings = inv.retirings;
  syncs = inv.syncs;
}

pub retire-Inv :
    {s : State} (v e : ℕ) → EntryIn s v e → Inv s → Inv (record s { pending = (v, e) ∷ s.pending })
retire-Inv {s} v e h inv = record {
  counted = inv.counted;
  threads = inv.threads;
  member = inv.member;
  entries = (h, inv.entries);
  retirings = inv.retirings;
  syncs = inv.syncs;
}
