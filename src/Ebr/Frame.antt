-- ===== src/Ebr/Frame.antt =====
-- What each field of the state in backend/runtime/Ebr.c says while the threads run.
use clojure_rt.Base.{has, ℕ, ◌+◌, ◌≤◌, ◌≡◌, Bool, true, false, List, [], ◌∷◌, ◌++◌, arith}
use clojure_rt.Ebr.System.{
  Pc, unknown, entering, entered, inside, flushing, unlinked, retiring, Thread, Retired, Status,
  linked, detached, released, Sync, idle, scanning, checking, collecting, sweeping, State,
}

-- No longer in shared memory.
abbrev pub IsGone : Status → Type 0
IsGone detached = Unit
IsGone released = Unit
IsGone _ = ⊥

-- A thread may still read it.
abbrev pub IsReadable : Status → Type 0
IsReadable linked = Unit
IsReadable detached = Unit
IsReadable _ = ⊥

abbrev pub IsKnown : Pc → Type 0
IsKnown unknown = ⊥
IsKnown _ = Unit

-- What a thread's locals say about its state, for a global epoch.
abbrev pub Place : ℕ → (ℕ → Status) → Bool → ℕ → Pc → Type 0
Place g status active since (entering c) = (active ≡ false) × (c ≤ g)
Place g status active since (entered c) = (active ≡ true) × (c ≤ since)
Place g status active since inside = active ≡ true
Place g status active since (flushing c) = (active ≡ true) × (c ≤ g)
Place g status active since (unlinked v) = (active ≡ true) × IsGone (status v)
Place g status active since (retiring v e) = active ≡ true
Place g status active since _ = active ≡ false

pub record ThreadOk (g : ℕ) (status : ℕ → Status) (t : Thread) : Type 0 where
  pub below : t.local_epoch ≤ g
  pub young : t.active ≡ true → (t.local_epoch ≤ t.since) × (t.since ≤ g) × (g ≤ t.since + 1)
  pub guarded : (v : ℕ) → t.holds v ≡ true → (t.active ≡ true) × IsReadable (status v)
  pub place : Place g status t.active t.since t.pc

-- A retired value is no longer in shared memory, and whoever holds it entered no later.
pub record EntryOk (g : ℕ) (status : ℕ → Status) (thread : ℕ → Thread) (v e : ℕ) : Type 0 where
  pub past : e ≤ g
  pub gone : IsGone (status v)
  pub earlier : (i : ℕ) → (thread i).holds v ≡ true → (thread i).since ≤ e

abbrev pub AllOk : (ℕ → ℕ → Type 0) → List Retired → Type 0
AllOk P [] = Unit
AllOk P ((v, e) ∷ es) = P v e × AllOk P es

-- The threads that the scan has passed entered in the current epoch.
abbrev pub Scanned : ℕ → (ℕ → Thread) → List ℕ → Type 0
Scanned g thread rest =
    (i : ℕ) → (thread i).active ≡ true → has i rest ≡ false → (thread i).since ≡ g

abbrev pub SyncOk : ℕ → (ℕ → Status) → (ℕ → Thread) → Sync → Type 0
SyncOk g status thread idle = Unit
SyncOk g status thread (scanning c rest) = (c ≡ g) × Scanned g thread rest
SyncOk g status thread (checking c j rest) = (c ≡ g) × Scanned g thread (j ∷ rest)
SyncOk g status thread (collecting c) = c ≡ g
SyncOk g status thread (sweeping c todo keep) =
    (c ≡ g) × AllOk (EntryOk g status thread) todo × AllOk (EntryOk g status thread) keep

abbrev pub EntryIn : State → ℕ → ℕ → Type 0
EntryIn s = EntryOk s.global_epoch s.status s.thread

abbrev pub SyncIn : State → Sync → Type 0
SyncIn s = SyncOk s.global_epoch s.status s.thread

pub record Inv (s : State) : Type 0 where
  pub counted : s.global_epoch ≡ s.advanced
  pub threads : (i : ℕ) → ThreadOk s.global_epoch s.status (s.thread i)
  pub member : (i : ℕ) → IsKnown (s.thread i).pc → has i s.registry ≡ true
  pub entries : AllOk (EntryIn s) s.pending
  pub retirings : (i v e : ℕ) → (s.thread i).pc ≡ retiring v e → EntryIn s v e
  pub syncs : SyncIn s s.sync

-- Facts on entries go over to a state in which they hold of each entry.
pub AllOk-map :
    {P Q : ℕ → ℕ → Type 0} (es : List Retired)
    → ((v e : ℕ) → P v e → Q v e)
    → AllOk P es
    → AllOk Q es
AllOk-map [] f h = h
AllOk-map ((v, e) ∷ es) f (h, hs) = (f v e h, AllOk-map es f hs)

pub AllOk-append :
    (P : ℕ → ℕ → Type 0) (xs ys : List Retired) → AllOk P xs → AllOk P ys → AllOk P (xs ++ ys)
AllOk-append P [] ys h k = k
AllOk-append P ((v, e) ∷ xs) ys (h, hs) k = (h, AllOk-append P xs ys hs k)

pub Place-IsKnown :
    (g : ℕ) (status : ℕ → Status) (active : Bool) (since : ℕ) (p : Pc)
    → Place g status active since p
    → active ≡ true
    → IsKnown p
Place-IsKnown g status active since unknown off on = absurd (cc)
Place-IsKnown g status active since _ h on = tt

pub SyncOk-map :
    {g : ℕ} {status status' : ℕ → Status} {thread thread' : ℕ → Thread} (k : Sync)
    → ((v e : ℕ) → EntryOk g status thread v e → EntryOk g status' thread' v e)
    → ((rest : List ℕ) → Scanned g thread rest → Scanned g thread' rest)
    → SyncOk g status thread k
    → SyncOk g status' thread' k
SyncOk-map idle entry scan h = tt
SyncOk-map (scanning c rest) entry scan (e, h) = (e, scan rest h)
SyncOk-map (checking c j rest) entry scan (e, h) = (e, scan (j ∷ rest) h)
SyncOk-map (collecting c) entry scan h = h
SyncOk-map (sweeping c todo keep) entry scan (e, h, k) =
    (e, AllOk-map todo entry h, AllOk-map keep entry k)

pub Place-le :
    {g g' : ℕ} (status : ℕ → Status) (active : Bool) (since : ℕ) (p : Pc)
    → g ≤ g'
    → Place g status active since p
    → Place g' status active since p
Place-le status active since (entering c) le (off, h) = (off, omega arith)
Place-le status active since (flushing c) le (on, h) = (on, omega arith)
Place-le status active since _ le h = h
