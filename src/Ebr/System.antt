-- ===== src/Ebr/System.antt =====
-- The threads and the reclaimer of backend/runtime/Ebr.c, interleaved in any order.
--
-- Each load, store and compare-exchange of a shared variable is one step, and the steps of all threads
-- are in one order: the global barrier of `Ebr_synchronize_and_reclaim` is what makes the plain stores
-- of the readers visible to the scan. The mutex admits one run of that function at a time, so its local
-- variables are one component of the state. An epoch is an `unsigned int` and wraps at 2 ^ 32.
--
-- A value here is one reference to an object, the one that a slot of shared memory owns. A slot that gets the same
-- object again takes a new reference, a value of its own, as `retain` does before the store. Whoever takes the reference
-- out of the slot owns it, hands it to `autorelease`, and the sweep drops that one reference: so a value is published
-- and retired once, while its object may be retired any number of times.
--
-- The fields `since`, `holds`, `status` and `advanced` are not in the code: the global epoch when a thread
-- entered or last flushed, the values it has got from shared memory since then, what has become of each
-- value, and the number of times the epoch was advanced.
use clojure_rt.Base.{
  has, update, ℕ, suc, ◌+◌, ◌-◌, ◌%◌, ◌^◌, ◌≤◌, ◌<◌, ◌≡◌, ◌≢◌, Bool, true, false, List, [], ◌∷◌,
  ◌++◌,
}

-- Where a thread stands, with the local variables that are live there.
pub data Pc : Type 0 where
  unknown : Pc  -- not registered
  reusing : Pc  -- after the exchange of `terminated` in `Ebr_register_thread`
  resetting : Pc  -- after its store to `active`
  outside : Pc  -- outside a critical section
  leaving : Pc  -- between the two stores of `Ebr_unregister_thread`
  entering : (current : ℕ) → Pc  -- after the load of `Ebr_enter_critical`
  entered : (current : ℕ) → Pc  -- after its store to `active`
  inside : Pc
  flushing : (current : ℕ) → Pc  -- after the load of `Ebr_flush_critical`
  unlinked : (value : ℕ) → Pc  -- before the load of `autorelease`
  retiring : (value epoch : ℕ) → Pc  -- before its compare-exchange

-- `ThreadState`
pub record Thread : Type 0 where
  pub pc : Pc
  pub active : Bool
  pub local_epoch : ℕ
  pub terminated : Bool
  pub since : ℕ
  pub holds : ℕ → Bool

-- `RetiredObject`: the value and the epoch.
abbrev pub Retired : Type 0
Retired = ℕ × ℕ

pub data Status : Type 0 where
  fresh linked detached released : Status

-- Where `Ebr_synchronize_and_reclaim` stands, with `current_global` and the rest of its list.
pub data Sync : Type 0 where
  idle : Sync
  scanning : (current : ℕ) → List ℕ → Sync
  checking : (current : ℕ) → ℕ → List ℕ → Sync  -- the thread was active
  collecting : (current : ℕ) → Sync  -- before the exchange of `pending_reclamation`
  sweeping : (current : ℕ) → (todo keep : List Retired) → Sync

pub record State : Type 0 where
  pub global_epoch : ℕ
  pub registry : List ℕ
  pub thread : ℕ → Thread
  pub pending : List Retired
  pub sync : Sync
  pub status : ℕ → Status
  pub advanced : ℕ

abbrev pub next_epoch : ℕ → ℕ
next_epoch e = (e + 1) % 2 ^ 32

-- `current_global - cur->epoch_retired` on `unsigned int`
abbrev pub age : ℕ → ℕ → ℕ
age current e = (current + 2 ^ 32 - e) % 2 ^ 32

abbrev pub nothing : ℕ → Bool
nothing v = false

-- What `Ebr_register_thread` stores into a new state before the exchange that lists it.
abbrev pub registered : Thread
registered = record {
  pc = outside;
  active = false;
  local_epoch = 0;
  terminated = false;
  since = 0;
  holds = nothing;
}

abbrev pub with_thread : State → ℕ → Thread → State
with_thread s i t = record s { thread = update s.thread i t }

-- One step of thread `i`, from its state `t`, in `Ebr_register_thread` or `Ebr_unregister_thread`.
pub data Register (s : State) (i : ℕ) (t : Thread) : State → Type 0 where
  -- `Ebr_register_thread`, with a new state or with one that is used again.
  register_new :
      t.pc ≡ unknown
      → has i s.registry ≡ false
      → Register s i t (record (with_thread s i registered) { registry = i ∷ s.registry })
  register_used :
      t.pc ≡ unknown
      → has i s.registry ≡ true
      → t.terminated ≡ true
      → Register s i t (with_thread s i (record t { pc = reusing; terminated = false }))
  register_active :
      t.pc ≡ reusing
      → Register s i t (with_thread s i (record t { pc = resetting; active = false }))
  register_epoch :
      t.pc ≡ resetting
      → Register s i t (with_thread s i (record t { pc = outside; local_epoch = 0 }))
  -- `Ebr_unregister_thread`
  unregister :
      t.pc ≡ outside
      → Register s i t
          (with_thread s i (record t { pc = leaving; active = false; holds = nothing }))
  unregister_inside :
      t.pc ≡ inside
      → Register s i t
          (with_thread s i (record t { pc = leaving; active = false; holds = nothing }))
  terminate :
      t.pc ≡ leaving
      → Register s i t (with_thread s i (record t { pc = unknown; terminated = true }))

-- One step of thread `i`, from its state `t`, in the other functions that threads call, or in a critical section.
pub data Move (s : State) (i : ℕ) (t : Thread) : State → Type 0 where
  -- `Ebr_enter_critical`
  enter_load :
      t.pc ≡ outside → Move s i t (with_thread s i (record t { pc = entering s.global_epoch }))
  enter_active :
      {c : ℕ}
      → t.pc ≡ entering c
      → Move s i t (
          with_thread s i
            (record t { pc = entered c; active = true; since = s.global_epoch; holds = nothing }))
  enter_epoch :
      {c : ℕ}
      → t.pc ≡ entered c
      → Move s i t (with_thread s i (record t { pc = inside; local_epoch = c }))
  -- `Ebr_flush_critical`
  flush_load :
      t.pc ≡ inside → Move s i t (with_thread s i (record t { pc = flushing s.global_epoch }))
  flush_store :
      {c : ℕ}
      → t.pc ≡ flushing c
      → Move s i t (
          with_thread s i
            (record t { pc = inside; local_epoch = c; since = s.global_epoch; holds = nothing }))
  -- `Ebr_leave_critical`
  leave :
      t.pc ≡ inside
      → Move s i t (with_thread s i (record t { pc = outside; active = false; holds = nothing }))
  -- A reader gets a value from shared memory.
  acquire :
      (v : ℕ)
      → t.pc ≡ inside
      → s.status v ≡ linked
      → Move s i t (with_thread s i (record t { holds = update t.holds v true }))
  -- A writer takes a value out of shared memory, and goes on to `autorelease` it.
  unlink :
      (v : ℕ)
      → t.pc ≡ inside
      → s.status v ≡ linked
      → Move s i t (record (with_thread s i (record t { pc = unlinked v })) {
        status = update s.status v detached;
      })
  retire_load :
      {v : ℕ}
      → t.pc ≡ unlinked v
      → Move s i t (with_thread s i (record t { pc = retiring v s.global_epoch }))
  retire_push :
      {v e : ℕ}
      → t.pc ≡ retiring v e
      → Move s i t
          (record (with_thread s i (record t { pc = inside })) { pending = (v, e) ∷ s.pending })

-- One step of `Ebr_synchronize_and_reclaim`, from where it stands.
pub data Reclaim (s : State) : Sync → State → Type 0 where
  start : Reclaim s idle (record s { sync = scanning s.global_epoch s.registry })
  scan_inactive :
      {c j : ℕ} {js : List ℕ}
      → (s.thread j).active ≡ false
      → Reclaim s (scanning c (j ∷ js)) (record s { sync = scanning c js })
  scan_active :
      {c j : ℕ} {js : List ℕ}
      → (s.thread j).active ≡ true
      → Reclaim s (scanning c (j ∷ js)) (record s { sync = checking c j js })
  check_current :
      {c j : ℕ} {js : List ℕ}
      → (s.thread j).local_epoch ≡ c
      → Reclaim s (checking c j js) (record s { sync = scanning c js })
  check_behind :
      {c j : ℕ} {js : List ℕ}
      → (s.thread j).local_epoch ≢ c
      → Reclaim s (checking c j js) (record s { sync = collecting c })
  advance :
      {c : ℕ}
      → Reclaim s (scanning c []) (record s {
        global_epoch = next_epoch s.global_epoch;
        sync = collecting (next_epoch c);
        advanced = suc s.advanced;
      })
  collect :
      {c : ℕ} → Reclaim s (collecting c) (record s { pending = []; sync = sweeping c s.pending [] })
  reclaim :
      {c v e : ℕ} {todo keep : List Retired}
      → 2 ≤ age c e
      → Reclaim s
          (sweeping c ((v, e) ∷ todo) keep)
          (record s { status = update s.status v released; sync = sweeping c todo keep })
  retain :
      {c v e : ℕ} {todo keep : List Retired}
      → age c e < 2
      → Reclaim s
          (sweeping c ((v, e) ∷ todo) keep)
          (record s { sync = sweeping c todo (keep ++ ((v, e) ∷ [])) })
  finish :
      {c : ℕ} {keep : List Retired}
      → Reclaim s (sweeping c [] keep) (record s { pending = keep ++ s.pending; sync = idle })

pub data Step (s : State) : State → Type 0 where
  enroll : {t : State} (i : ℕ) → Register s i (s.thread i) t → Step s t
  move : {t : State} (i : ℕ) → Move s i (s.thread i) t → Step s t
  sync_step : {t : State} → Reclaim s s.sync t → Step s t
  -- A new value gets into shared memory.
  publish : (v : ℕ) → s.status v ≡ fresh → Step s (record s { status = update s.status v linked })

-- The variables before any thread is registered.
abbrev pub initial : State
initial = record {
  global_epoch = 0;
  registry = [];
  thread = λ i. record registered { pc = unknown };
  pending = [];
  sync = idle;
  status = λ v. fresh;
  advanced = 0;
}

pub data Reach : State → Type 0 where
  first : Reach initial
  later : {s t : State} → Reach s → Step s t → Reach t
